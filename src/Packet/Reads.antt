-- ===== src/Packet/Reads.antt =====
-- Whole reads of the pipe by `common_read_data_from_cli` of src/pipe.c.
use termtunnel.Base.{
  ℕ, Bytes, length, ◌≤◌, if◌then◌else◌, ◌≡◌, ok, true, ◌++◌, ◌+◌, ltb, ◌*◌, arith, List, All, ◌<◌,
  flatten, [], false, ◌∷◌, Bool, append-nil, drop, ap, ◌∙◌, append_assoc, sym, ◌||◌, refl, lt→ltb,
  length-append, suc,
}
use termtunnel.Packet.{
  Packet, parser_append, Parser, common_read_data_from_cli, read_all, parser_init, parser, Reply,
  send_binary, le_bytes,
}
use termtunnel.Packet.Stream.{
  Owes, IsSendable, waits_for, encode_all, expected, Announced, body, encode,
}
use termtunnel.Packet.Loop.{LoopParses, parser_loop-Parses}
use termtunnel.Words.{le_bytes, length-le_bytes}

parser_append-ok :
    (p : Parser) (buf : Bytes)
    → (size : ℕ) × (parser_append p buf
        ≡ ok (record p { has_queue = true; queue_size = size; queue = p.queue ++ buf }))
unfolding parser_append
parser_append-ok p buf =
    let size0 = if p.has_queue then p.queue_size else 100 in
    let need = length p.queue + length buf in
    (if ltb size0 need then 2 * need else size0, ground arith)

-- One read of a stream of packets.
read_parses :
    (p : Parser) (buf future : Bytes) (ps : List Packet)
    → Owes p p.queue (buf ++ future) ps
    → length p.queue < waits_for p.expect_content p.expect_content_len
    → LoopParses [] future ps (common_read_data_from_cli p buf)
unfolding common_read_data_from_cli parser
read_parses p [] future ps o h = (
  record { packets = []; parser = p; failed = false },
  refl,
  record {
    done = [];
    owed = ps;
    split = refl;
    packets = refl;
    succeeded = refl;
    owes = o;
    short = h;
  },
)
read_parses p (a ∷ b) future ps o h =
    let (size, grown) = parser_append-ok p (a ∷ b) in
    let q = record p { has_queue = true; queue_size = size; queue = p.queue ++ (a ∷ b) } in
    let owes : Owes q (drop 0 q.queue) future ps = record {
      sendable = o.sendable;
      stream = append_assoc p.queue (a ∷ b) future ∙ o.stream;
      announced = o.announced;
    } in
    let (r, ran, parsed) =
      parser_loop-Parses (length q.queue + 1) q 0 [] future ps (omega arith) owes in
    (r, rw (lt→ltb 0 (suc (length b)) (omega arith), grown) ran, parsed)

-- All reads of a stream, from a parser that has found less than it waits for.
reads_parse :
    (xs : List Bytes) (p : Parser) (future : Bytes) (ps : List Packet)
    → Owes p p.queue (flatten xs ++ future) ps
    → length p.queue < waits_for p.expect_content p.expect_content_len
    → LoopParses [] future ps (read_all p xs)
unfolding read_all
reads_parse [] p future ps o h = (
  record { packets = []; parser = p; failed = false },
  refl,
  record {
    done = [];
    owed = ps;
    split = refl;
    packets = refl;
    succeeded = refl;
    owes = o;
    short = h;
  },
)
reads_parse (x ∷ xs) p future ps o h =
    let regrouped : Owes p p.queue (x ++ (flatten xs ++ future)) ps = record {
      sendable = o.sendable;
      stream = ap (λ l. p.queue ++ l) (sym (append_assoc x (flatten xs) future)) ∙ o.stream;
      announced = o.announced;
    } in
    let (r, ran, d) = read_parses p x (flatten xs ++ future) ps regrouped h in
    let (s, ran', e) = reads_parse xs r.parser future d.owed d.owes d.short in
    (
      record { packets = r.packets ++ s.packets; parser = s.parser; failed = r.failed || s.failed },
      rw (ran, ran'),
      record {
        done = d.done ++ e.done;
        owed = e.owed;
        split = d.split ∙ ap (λ l. d.done ++ l) e.split ∙ sym (append_assoc d.done e.done e.owed);
        packets = ground (arith, d.packets, e.packets);
        succeeded = ground (arith, d.succeeded, e.succeeded);
        owes = e.owes;
        short = e.short;
      },
    )

length-body : (x : Packet) → length (body x) ≡ 8 + length x.payload
length-body x = omega (arith, length-append (le_bytes 8 x.type) x.payload, length-le_bytes 8 x.type)

length-encode : (x : Packet) → 8 ≤ length (encode x)
unfolding send_binary
length-encode x = omega (
  arith,
  length-append (le_bytes 8 (length x.payload)) (body x),
  length-le_bytes 8 (length x.payload),
)

-- Nothing is owed at the end of a stream that is whole.
at_end :
    (p : Parser) (ps : List Packet)
    → Owes p p.queue [] ps
    → length p.queue < waits_for p.expect_content p.expect_content_len
    → (ps ≡ []) × (p.queue ≡ []) × (p.expect_content ≡ false)
at_end p ps o h = go p.expect_content ps refl (sym (append-nil p.queue) ∙ o.stream) o.announced h
  where
    go :
        (m : Bool) (qs : List Packet)
        → p.expect_content ≡ m
        → p.queue ≡ expected m qs
        → Announced m p.expect_content_len qs
        → length p.queue < waits_for m p.expect_content_len
        → (qs ≡ []) × (p.queue ≡ []) × (p.expect_content ≡ false)
    go true [] m e a s = absurd a
    go true (x ∷ qs) m e a s =
        absurd (omega (arith, ap length e, length-body x, length-append (body x) (encode_all qs)))
    go false [] m e a s = (refl, e, m)
    go false (x ∷ qs) m e a s =
        absurd
          (omega (arith, ap length e, length-encode x, length-append (encode x) (encode_all qs)))

-- Whatever packets are sent, with payloads of at most 64 MiB and types of 64 bits, and however the
-- pipe cuts the stream: a new parser takes out exactly these packets in their order, with no
-- error, and its buffer is empty in the end.
pub read_all-encode_all :
    (ps : List Packet) (xs : List Bytes)
    → All IsSendable ps
    → flatten xs ≡ encode_all ps
    → (r : Reply) × (read_all parser_init xs ≡ ok r)
      × (r.packets ≡ ps)
      × (r.failed ≡ false)
      × (r.parser.queue ≡ [])
      × (r.parser.expect_content ≡ false)
unfolding parser_init
read_all-encode_all ps xs s e =
    let owes : Owes parser_init [] (flatten xs ++ []) ps = record {
      sendable = s;
      stream = append-nil (flatten xs) ∙ e;
      announced = tt;
    } in
    let (r, ran, d) = reads_parse xs parser_init [] ps owes (omega arith) in
    let (none_owed, empty, idle) = at_end r.parser d.owed d.owes d.short in
    (
      r,
      ran,
      d.packets ∙ sym (append-nil d.done) ∙ ap (λ l. d.done ++ l) (sym none_owed) ∙ sym d.split,
      d.succeeded,
      empty,
      idle,
    )
