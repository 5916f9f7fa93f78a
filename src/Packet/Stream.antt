-- ===== src/Packet/Stream.antt =====
-- `parser` of src/pipe.c reads back what `send_binary` of src/repl.c wrote, however the stream of
-- the pipe is cut into reads.
use termtunnel.Base.{
  ℕ, ◌<◌, Bytes, List, Bool, ◌^◌, flatten, ◌∷◌, All, ◌≤◌, ◌≡◌, length, map, [], ◌++◌, ◌+◌, false,
  take, true, drop, sym, ap, take-append_le, ◌∙◌, take-append_length, drop-append_le,
  drop-append_length, arith, length-append,
}
use termtunnel.Packet.{
  Packet, Parser, find_a_packet, send_binary, le_bytes, header_size, Reply, max_payload,
}
use termtunnel.Words.{le_bytes, length-le_bytes, from_le-le_bytes}

-- What a client may send: the payload is within the limit of the parser.
pub record IsSendable (p : Packet) : Type 0 where
  pub type_fits : p.type < 256 ^ 8
  pub size_fits : length p.payload ≤ max_payload

abbrev pub encode : Packet → Bytes
encode p = send_binary p.type p.payload

abbrev pub encode_all : List Packet → Bytes
encode_all ps = flatten (map encode ps)

-- The part of a packet behind its size.
abbrev pub body : Packet → Bytes
body p = le_bytes 8 p.type ++ p.payload

-- The bytes that a parser in this state expects of the packets `ps`.
abbrev pub expected : Bool → List Packet → Bytes
expected false ps = encode_all ps
expected true [] = []
expected true (p ∷ ps) = body p ++ encode_all ps

-- A size that has been read is that of the next packet.
abbrev pub Announced : Bool → ℕ → List Packet → Type 0
Announced false n ps = Unit
Announced true n [] = ⊥
Announced true n (p ∷ ps) = n ≡ 8 + length p.payload

-- Less is buffered than the parser waits for.
abbrev pub waits_for : Bool → ℕ → ℕ
waits_for false n = header_size
waits_for true n = n

-- The bytes `rest`, with those still to come, are the packets `ps` from here on.
pub record Owes (p : Parser) (rest future : Bytes) (ps : List Packet) : Type 0 where
  pub sendable : All IsSendable ps
  pub stream : rest ++ future ≡ expected p.expect_content ps
  pub announced : Announced p.expect_content p.expect_content_len ps

pub record Parsed (out : List Packet) (future : Bytes) (ps : List Packet) (r : Reply) : Type 0 where
  pub done : List Packet
  pub owed : List Packet
  pub split : ps ≡ done ++ owed
  pub packets : r.packets ≡ out ++ done
  pub succeeded : r.failed ≡ false
  pub owes : Owes r.parser r.parser.queue future owed
  pub short : length r.parser.queue < waits_for r.parser.expect_content r.parser.expect_content_len

-- The front of a stream that is read in two pieces.
pub append_front :
    (k : ℕ) (a b c d : Bytes)
    → k ≤ length a
    → length c ≡ k
    → a ++ b ≡ c ++ d
    → (take k a ≡ c) × (drop k a ++ b ≡ d)
append_front k a b c d h e eq = (
  sym (take-append_le k a b h)
      ∙ ap (take k) eq
      ∙ ap (λ n. take n (c ++ d)) (sym e)
      ∙ take-append_length c d,
  sym (drop-append_le k a b h)
      ∙ ap (drop k) eq
      ∙ ap (λ n. drop n (c ++ d)) (sym e)
      ∙ drop-append_length c d,
)

pub find_a_packet-body : (p : Packet) → IsSendable p → find_a_packet (body p) ≡ p ∷ []
unfolding find_a_packet
find_a_packet-body p s =
    let l = length-le_bytes 8 p.type in
    let t = from_le-le_bytes 8 p.type s.type_fits in
    let e : take 8 (body p) ≡ le_bytes 8 p.type =
      ap (λ n. take n (body p)) (sym l) ∙ take-append_length (le_bytes 8 p.type) p.payload in
    let f : drop 8 (body p) ≡ p.payload =
      ap (λ n. drop n (body p)) (sym l) ∙ drop-append_length (le_bytes 8 p.type) p.payload in
    ground (arith, length-append (le_bytes 8 p.type) p.payload, l, t, e, f)
