-- ===== src/Fsm/Feed.antt =====
-- Reads of the terminal, as `common_read_tty` of src/pipe.c hands them to the machine.
use termtunnel.Base.{
  ℕ, Bytes, List, Result, ok, map_ok, ◌∷◌, ◌>>=◌, ◌≡◌, ◌+◌, [], ◌-◌, length, drop, arith, ◌∙◌,
  drop_all, ◌⊎◌, flatten, ◌++◌, sym, inl, ap, Result-cases, length-append, drop-append_length, inr,
  refl, append-nil, fault, drop_through,
}
use termtunnel.Fsm.{FsmContext, fsm_append_input, fsm_run, fsm_init}
use termtunnel.Fsm.Stream.{scan, scan_byte, Scanner, scanner_of, scan-append}
use termtunnel.Fsm.Run.{IsIdle, fsm_run-scan}
use termtunnel.Fsm.Valid.{Holds, fsm_append_input-ok, fsm_init-IsValid}
use termtunnel.Fsm.Refine.{rest_scan}

-- `fsm_append_input`, then `fsm_run`.
unfoldable pub feed : FsmContext → Bytes → Result FsmContext
feed ctx bytes = fsm_append_input ctx bytes >>= λ c. fsm_run c

unfoldable pub feed_all : FsmContext → List Bytes → Result FsmContext
feed_all ctx [] = ok ctx
feed_all ctx (x ∷ xs) = feed ctx x >>= λ c. feed_all c xs

-- Between two reads the offset is at the end of the input, or one byte behind it.
append_scan :
    (s : Scanner) (off : ℕ) (xs bytes : Bytes)
    → (off ≡ length xs) ⊎ (off ≡ length xs + 1)
    → s.skip ≡ off - length xs
    → scan (record s { skip = off - length (xs ++ bytes) }) (drop off (xs ++ bytes)) ≡ scan s bytes
unfolding scan scan_byte
append_scan s off xs bytes (inl e) k =
    let z : off - length (xs ++ bytes) ≡ s.skip = omega (arith, length-append xs bytes) in
    rw (z, e, drop-append_length xs bytes)
append_scan s off xs [] (inr e) k = rw append-nil (ground (arith, drop_all off xs))
append_scan s off xs (b ∷ r) (inr e) k =
    let z : off - length (xs ++ b ∷ r) ≡ 0 = omega (arith, length-append xs (b ∷ r)) in
    let o : s.skip ≡ 1 = omega arith in rw (z, e, drop_through xs b r) (ground (arith, o))

pub feed-scan :
    (ctx : FsmContext) (bytes : Bytes)
    → IsIdle ctx
    → (map_ok scanner_of (feed ctx bytes) ≡ scan (scanner_of ctx) bytes)
      × Holds IsIdle (feed ctx bytes)
unfolding feed
feed-scan ctx bytes h =
    let (c, done, v, shape) = fsm_append_input-ok ctx bytes h.valid in
    let (same, idle) = fsm_run-scan c v in
    let split : (ctx.offset ≡ length ctx.input) ⊎ (ctx.offset ≡ length ctx.input + 1) =
      ground (arith, h.read, h.valid.offset_le) in
    let appended = append_scan (scanner_of ctx) ctx.offset ctx.input bytes split refl in
    rw done (same ∙ ap rest_scan shape ∙ appended, idle)

-- Reading a stream in pieces, whatever the cuts: from a machine that has read all its input, the
-- machine scans the whole stream, keeps its bounds, and always returns unless the scanner faults.
pub feed_all-scan :
    (xs : List Bytes) (ctx : FsmContext)
    → IsIdle ctx
    → (map_ok scanner_of (feed_all ctx xs) ≡ scan (scanner_of ctx) (flatten xs))
      × Holds IsIdle (feed_all ctx xs)
unfolding feed_all scan
feed_all-scan [] ctx h = (refl, h)
feed_all-scan (x ∷ xs) ctx h =
    let (same, idle) = feed-scan ctx x h in
    elim (Result-cases (feed ctx x)) [
      | inl (c, e) ↦
          let (same', idle') = feed_all-scan xs c (rw e at idle) in
          let head : scan (scanner_of ctx) x ≡ ok (scanner_of c) =
            sym same ∙ ap (map_ok scanner_of) e in
          rw (e, scan-append (scanner_of ctx) x (flatten xs), head) (same', idle')
      | inr (y, e) ↦
          let head : scan (scanner_of ctx) x ≡ fault y = sym same ∙ ap (map_ok scanner_of) e in
          rw (e, scan-append (scanner_of ctx) x (flatten xs), head) (refl, tt)
    ]

pub fsm_init-IsIdle : IsIdle fsm_init
unfolding fsm_init
fsm_init-IsIdle = record { valid = fsm_init-IsValid; read = omega arith }
