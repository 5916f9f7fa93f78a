-- ===== src/Fsm/Run.antt =====
-- Whole calls of `fsm_run` of src/fsm.c: they end, keep the bounds, and scan what was appended.
use termtunnel.Base.{
  ℕ, ◌<◌, ◌*◌, length, map_ok, ◌≤◌, ◌-◌, ◌≡◌, ◌+◌, arith, ◌>>=◌, suc, ◌∙◌, Bool-cases, sym, ltb,
  inl, inr, zero, refl, Result, Result-cases, ltb→lt, ap, drop_all, ltb→le, lt→ltb, ok, le→ltb,
  drop-drop, length-drop,
}
use termtunnel.Fsm.{
  FsmContext, FsmState, handle_csi_other, fsm_loop, handle_plaintext, handle_escape_enter,
  handle_csi_enter, handle_csi_arg, handle, handle_csi_exit, escape_enter, csi_enter, plaintext,
  csi_arg, csi_exit, csi_other, fsm_enter, fsm_run, fsm_gc, fsm_fuel,
}
use termtunnel.Fsm.Valid.{IsValid, Holds, fsm_append_output-ok, handle-IsValid, fsm_enter-IsValid}
use termtunnel.Fsm.Refine.{rest_scan, rest_scan_step, now, round_scan, current-now}
use termtunnel.Fsm.Stream.{scanner_of, scan}

-- The rounds that a state may still take at one byte.
abbrev rank : FsmState → ℕ
rank escape_enter = 1
rank csi_enter = 2
rank csi_arg = 1
rank _ = 0

abbrev measure : FsmContext → ℕ
measure c = 4 * (length c.input - c.offset) + rank c.state

handle-measure :
    (s : FsmState) (c : FsmContext)
    → IsValid c
    → c.offset < length c.input
    → c.state ≡ s
    → Holds (λ d. measure d < measure c) (handle s c)
unfolding handle_csi_other handle_plaintext handle_escape_enter handle_csi_enter handle_csi_arg
    handle_csi_exit
handle-measure plaintext c v h at =
    let (d, done, w, shape) = fsm_append_output-ok c (now c) v in
    ground (arith, current-now c h, done, shape)
handle-measure escape_enter c v h at = ground arith
handle-measure csi_enter c v h at = ground arith
handle-measure csi_arg c v h at = ground arith
handle-measure csi_exit c v h at = ground arith
handle-measure csi_other c v h at = ground arith

-- The loop has read all its input when it ends.
pub record IsIdle (c : FsmContext) : Type 0 where
  pub valid : IsValid c
  pub read : length c.input ≤ c.offset

abbrev LoopScans : FsmContext → Result FsmContext → Type 0
LoopScans c r = (map_ok scanner_of r ≡ rest_scan c) × Holds IsIdle r

-- A round and the loop behind it.
loop_more :
    (fuel : ℕ) (c : FsmContext)
    → IsValid c
    → measure c < suc fuel
    → c.offset < length c.input
    → ((d : FsmContext) → IsValid d → measure d < fuel → LoopScans d (fsm_loop fuel d))
    → LoopScans c (handle c.state c >>= λ d. fsm_loop fuel d)
loop_more fuel c v m h ih = elim (Result-cases (handle c.state c)) [
  | inl (d, e) ↦
      let kept : IsValid d = rw e at (handle-IsValid c.state c v h) in
      let less : measure d < measure c = rw e at (handle-measure c.state c v h refl) in
      let (same, idle) = ih d kept (omega arith) in
      rw e (same ∙ sym (whole ∙ ap (λ r. r >>= rest_scan) e), idle)
  | inr (x, e) ↦ rw e (sym (whole ∙ ap (λ r. r >>= rest_scan) e), tt)
]
  where
    whole : rest_scan c ≡ (handle c.state c >>= rest_scan)
    whole = rest_scan_step c h ∙ sym (round_scan c h c.state v refl)

pub loop_at_more :
    (fuel : ℕ) (c : FsmContext)
    → c.offset < length c.input
    → fsm_loop (suc fuel) c ≡ (handle c.state c >>= λ d. fsm_loop fuel d)
unfolding fsm_loop
loop_at_more fuel c h = ground (arith, lt→ltb _ _ h)

pub loop_at_end :
    (fuel : ℕ) (c : FsmContext) → length c.input ≤ c.offset → fsm_loop (suc fuel) c ≡ ok c
unfolding fsm_loop
loop_at_end fuel c h = ground (arith, le→ltb _ _ h)

rest_scan_idle : (c : FsmContext) → length c.input ≤ c.offset → rest_scan c ≡ ok (scanner_of c)
unfolding scan
rest_scan_idle c h = rw (drop_all c.offset c.input h)

pub fsm_loop_scan :
    (fuel : ℕ) (c : FsmContext)
    → IsValid c
    → measure c < fuel
    → (map_ok scanner_of (fsm_loop fuel c) ≡ rest_scan c) × Holds IsIdle (fsm_loop fuel c)
unfolding fsm_loop
fsm_loop_scan zero c v m = absurd (omega arith)
fsm_loop_scan (suc fuel) c v m = elim (Bool-cases (ltb c.offset (length c.input))) [
  | inl more ↦
      rw (loop_at_more fuel c (ltb→lt _ _ more))
        (loop_more fuel c v m (ltb→lt _ _ more) (fsm_loop_scan fuel))
  | inr end ↦
      let h = ltb→le _ _ end in
      rw (loop_at_end fuel c h) (sym (rest_scan_idle c h), record { valid = v; read = h })
]

-- `fsm_gc` moves the unread bytes, and changes nothing else that matters.
fsm_enter-rest_scan : (c : FsmContext) → IsValid c → rest_scan (fsm_enter c) ≡ rest_scan c
unfolding fsm_enter fsm_gc
fsm_enter-rest_scan c v =
    let e : c.processed + (c.offset - c.processed) ≡ c.offset = omega arith in
    ground (
      arith,
      drop-drop (c.offset - c.processed) c.processed c.input,
      e,
      length-drop c.processed c.input,
    )

-- From a valid context `fsm_run` always returns or stops at a fault of the scanner: it reads all the
-- input, and leaves the scanner that the unread bytes lead to.
pub fsm_run-scan : (c : FsmContext) → IsValid c → LoopScans c (fsm_run c)
unfolding fsm_run
fsm_run-scan c v =
    let d = fsm_enter c in
    let (same, idle) = fsm_loop_scan (fsm_fuel d) d (fsm_enter-IsValid c v) (rank_le d) in
    (same ∙ fsm_enter-rest_scan c v, idle)
  where
    rank_le : (d : FsmContext) → measure d < fsm_fuel d
    rank_le d = ground arith
