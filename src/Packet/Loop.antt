-- ===== src/Packet/Loop.antt =====
-- The loop of `parser` of src/pipe.c over a stream of packets: it ends within its fuel, and finds
-- each packet that is whole.
use termtunnel.Base.{
  ℕ, List, ◌≤◌, Bytes, length, ◌≡◌, Result, true, false, ok, ◌-◌, ◌<◌, arith, ◌++◌, suc, take, ◌∷◌,
  drop, [], ◌+◌, sym, ap, append-nil, ◌∙◌, length-drop, append_assoc, refl, All, zero,
  length-append, drop-drop, Bool, Bool-cases, ltb, inl, ltb→lt, inr, ltb→le,
}
use termtunnel.Packet.{
  Packet, Parser, is_bad_size, parser_loop, max_payload, Reply, from_le, finish, find_a_packet,
  send_binary, le_bytes,
}
use termtunnel.Packet.Stream.{
  Parsed, waits_for, Owes, encode_all, IsSendable, body, append_front, find_a_packet-body, expected,
  Announced,
}
use termtunnel.Words.{from_le, le_bytes, length-le_bytes, from_le-le_bytes}

module _ (fuel : ℕ) (p : Parser) (ptr : ℕ) (out : List Packet) where
  pub stop :
      length p.queue - ptr < waits_for p.expect_content p.expect_content_len
      → parser_loop (suc fuel) p ptr out ≡ finish p ptr out
  unfolding parser_loop
  stop h = ground arith

  pub take_content :
      p.expect_content ≡ true
      → 0 < p.expect_content_len
      → p.expect_content_len ≤ length p.queue - ptr
      → parser_loop (suc fuel) p ptr out
        ≡ parser_loop fuel
            (record p { expect_content = false })
            (ptr + p.expect_content_len)
            (out ++ find_a_packet (take p.expect_content_len (drop ptr p.queue)))
  unfolding parser_loop
  take_content m z h = ground arith

  pub take_header :
      (n : ℕ)
      → p.expect_content ≡ false
      → 8 ≤ length p.queue - ptr
      → from_le (take 8 (drop ptr p.queue)) ≡ n
      → is_bad_size n ≡ false
      → parser_loop (suc fuel) p ptr out
        ≡ parser_loop fuel
            (record p { expect_content = true; expect_content_len = n + 8 })
            (ptr + 8)
            out
  unfolding parser_loop
  take_header n m h e b = ground arith

good_size : (n : ℕ) → n ≤ max_payload → is_bad_size n ≡ false
unfolding is_bad_size
good_size n h = ground arith

-- What the loop gives from here.
abbrev pub LoopParses : List Packet → Bytes → List Packet → Result Reply → Type 0
LoopParses out future ps m = (r : Reply) × (m ≡ ok r) × Parsed out future ps r

stop_parses :
    (p : Parser) (ptr : ℕ) (out : List Packet) (future : Bytes) (ps : List Packet)
    → length p.queue - ptr < waits_for p.expect_content p.expect_content_len
    → Owes p (drop ptr p.queue) future ps
    → LoopParses out future ps (finish p ptr out)
stop_parses p ptr out future ps h o =
    let q = record p { queue = drop ptr p.queue } in
    (
      record { packets = out; parser = q; failed = false },
      refl,
      record {
        done = [];
        owed = ps;
        split = refl;
        packets = sym (append-nil out);
        succeeded = refl;
        owes = record { sendable = o.sendable; stream = o.stream; announced = o.announced };
        short = rw (length-drop ptr p.queue) h;
      },
    )

-- A packet found before those of `r`.
Parsed-cons :
    (out : List Packet) (x : Packet) (future : Bytes) (ps : List Packet) (r : Reply)
    → Parsed (out ++ x ∷ []) future ps r
    → Parsed out future (x ∷ ps) r
Parsed-cons out x future ps r d = record {
  done = x ∷ d.done;
  owed = d.owed;
  split = ap (◌∷◌ x) d.split;
  packets = d.packets ∙ append_assoc out (x ∷ []) d.done;
  succeeded = d.succeeded;
  owes = d.owes;
  short = d.short;
}

regroup :
    (x : Packet) (ps : List Packet)
    → encode_all (x ∷ ps) ≡ le_bytes 8 (length x.payload) ++ (body x ++ encode_all ps)
unfolding send_binary
regroup x ps = append_assoc (le_bytes 8 (length x.payload)) (body x) (encode_all ps)

-- The loop with less fuel, and what is known of it.
abbrev pub Parses : ℕ → Type 0
Parses fuel =
    (p : Parser) (ptr : ℕ) (out : List Packet) (future : Bytes) (ps : List Packet)
    → length p.queue - ptr < fuel
    → Owes p (drop ptr p.queue) future ps
    → LoopParses out future ps (parser_loop fuel p ptr out)

module _ (fuel : ℕ) (ih : Parses fuel) (p : Parser) (ptr : ℕ) (out : List Packet)
    (future : Bytes) where
  content_parses :
      (x : Packet) (ps : List Packet)
      → length p.queue - ptr < suc fuel
      → All IsSendable (x ∷ ps)
      → p.expect_content ≡ true
      → p.expect_content_len ≡ 8 + length x.payload
      → drop ptr p.queue ++ future ≡ body x ++ encode_all ps
      → p.expect_content_len ≤ length p.queue - ptr
      → LoopParses out future (x ∷ ps) (parser_loop (suc fuel) p ptr out)
  content_parses x ps small s m n stream h =
      let rest = drop ptr p.queue in
      let size : length (body x) ≡ p.expect_content_len =
        omega (arith, length-append (le_bytes 8 x.type) x.payload, length-le_bytes 8 x.type) in
      let (front, back) =
        append_front p.expect_content_len rest future (body x) (encode_all ps)
          (omega (arith, length-drop ptr p.queue)) size stream in
      let found : find_a_packet (take p.expect_content_len rest) ≡ x ∷ [] =
        ap find_a_packet front ∙ find_a_packet-body x s.0 in
      let owes : Owes (record p { expect_content = false })
          (drop (ptr + p.expect_content_len) p.queue) future ps =
        record {
          sendable = s.1;
          stream = ap (λ l. l ++ future) (sym (drop-drop p.expect_content_len ptr p.queue)) ∙ back;
          announced = tt;
        } in
      let (r, ran, parsed) =
        ih (record p { expect_content = false }) (ptr + p.expect_content_len) (out ++ x ∷ []) future
          ps (omega arith) owes in
      (
        r,
        take_content fuel p ptr out m (omega arith) h ∙ rw found ran,
        Parsed-cons out x future ps r parsed,
      )

  header_parses :
      (ps : List Packet)
      → length p.queue - ptr < suc fuel
      → All IsSendable ps
      → p.expect_content ≡ false
      → drop ptr p.queue ++ future ≡ encode_all ps
      → 8 ≤ length p.queue - ptr
      → LoopParses out future ps (parser_loop (suc fuel) p ptr out)
  header_parses [] small s m stream h = absurd (
      omega
        (arith, length-drop ptr p.queue, length-append (drop ptr p.queue) future, ap length stream))
  header_parses (x ∷ ps) small s m stream h =
      let n = length x.payload in
      let rest = drop ptr p.queue in
      let size = length-le_bytes 8 n in
      let (front, back) =
        append_front 8 rest future (le_bytes 8 n) (body x ++ encode_all ps)
          (omega (arith, length-drop ptr p.queue)) size (stream ∙ regroup x ps) in
      let read : from_le (take 8 rest) ≡ n =
        ap from_le front ∙ from_le-le_bytes 8 n (omega (arith, s.0.size_fits)) in
      let q = record p { expect_content = true; expect_content_len = n + 8 } in
      let owes : Owes q (drop (ptr + 8) p.queue) future (x ∷ ps) = record {
        sendable = s;
        stream = ap (λ l. l ++ future) (sym (drop-drop 8 ptr p.queue)) ∙ back;
        announced = omega arith;
      } in
      let (r, ran, parsed) = ih q (ptr + 8) out future (x ∷ ps) (omega arith) owes in
      (r, take_header fuel p ptr out n m h read (good_size n s.0.size_fits) ∙ ran, parsed)

  more_parses :
      (m : Bool) (ps : List Packet)
      → length p.queue - ptr < suc fuel
      → All IsSendable ps
      → p.expect_content ≡ m
      → drop ptr p.queue ++ future ≡ expected m ps
      → Announced m p.expect_content_len ps
      → waits_for m p.expect_content_len ≤ length p.queue - ptr
      → LoopParses out future ps (parser_loop (suc fuel) p ptr out)
  more_parses true [] small s m stream a h = absurd a
  more_parses true (x ∷ ps) small s m stream a h = content_parses x ps small s m a stream h
  more_parses false ps small s m stream a h = header_parses ps small s m stream h

-- With fuel for the bytes behind `ptr` the loop returns, and what it found is the front of what the
-- stream owes; the rest is owed still, and less of it is buffered than the parser waits for.
pub parser_loop-Parses : (fuel : ℕ) → Parses fuel
parser_loop-Parses zero p ptr out future ps small o = absurd (omega arith)
parser_loop-Parses (suc fuel) p ptr out future ps small o =
    let left = length p.queue - ptr in
    let wait = waits_for p.expect_content p.expect_content_len in
    elim (Bool-cases (ltb left wait)) [
      | inl few ↦
          rw (stop fuel p ptr out (ltb→lt left wait few))
            (stop_parses p ptr out future ps (ltb→lt left wait few) o)
      | inr many ↦
          more_parses fuel (parser_loop-Parses fuel) p ptr out future p.expect_content ps small
            o.sendable refl o.stream o.announced (ltb→le left wait many)
    ]
