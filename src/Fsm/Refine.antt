-- ===== src/Fsm/Refine.antt =====
-- `fsm_run` of src/fsm.c implements the scanner: each round of its loop keeps the scan of what is
-- still unread, and the loop ends within its fuel.
use termtunnel.Base.{
  ℕ, Result, get_or, Bytes, drop, suc, ◌<◌, length, ◌≡◌, ok, arith, get_elem?-eq-some, ◌>>=◌, ◌+◌,
  ◌-◌, drop-eq-cons, Bool-cases, ltb, inl, ◌++◌, ltb→lt, ◌∷◌, inr, [], Result-cases, drop_all,
  ltb→le,
}
use termtunnel.Fsm.{
  FsmContext, current, handle_plaintext, handle_csi_other, escape_enter, plaintext,
  handle_escape_enter, handle_csi_exit, csi_enter, csi_other, csi_colors, handle_csi_arg,
  handle_csi_enter, FsmState, handle, csi_arg, csi_zero, csi_digit, csi_exit,
}
use termtunnel.Fsm.Stream.{
  Scanner, scanner_of, scan, unread, scan_byte, scan_in, scan_plain, scan_other, scan_escape,
  scan_exit, scan_arg, scan_enter,
}
use termtunnel.Fsm.Valid.{IsValid, fsm_append_output-ok}

abbrev pub rest_scan : FsmContext → Result Scanner
rest_scan c = scan (scanner_of c) (unread c)

-- A context inside its input, its scanner, the byte read next and those behind it.
abbrev pub scanner0 : FsmContext → Scanner
scanner0 c = record (scanner_of c) { skip = 0 }

abbrev pub now : FsmContext → ℕ
now c = get_or c.input c.offset 0

abbrev pub later : FsmContext → Bytes
later c = drop (suc c.offset) c.input

pub current-now : (c : FsmContext) → c.offset < length c.input → current c ≡ ok (now c)
unfolding current
current-now c h = ground (arith, get_elem?-eq-some c.offset c.input 0 h)

pub rest_scan_step :
    (c : FsmContext)
    → c.offset < length c.input
    → rest_scan c ≡ (scan_in c.state (scanner0 c) (now c) >>= λ t. scan t (later c))
unfolding scan scan_byte
rest_scan_step c h =
    let e : c.offset - length c.input ≡ 0 = omega arith in rw (drop-eq-cons c.offset c.input 0 h, e)

module _ (c : FsmContext) (h : c.offset < length c.input) where
  -- After one byte, and after two.
  scan_one :
      (s : Scanner)
      → scan (record s { skip = (c.offset + 1) - length c.input }) (drop (c.offset + 1) c.input)
        ≡ scan (record s { skip = 0 }) (later c)
  scan_one s =
      let e : (c.offset + 1) - length c.input ≡ 0 = omega arith in
      let f : c.offset + 1 ≡ suc c.offset = omega arith in rw (e, f)

  scan_two :
      (s : Scanner)
      → scan (record s { skip = (c.offset + 2) - length c.input }) (drop (c.offset + 2) c.input)
        ≡ scan (record s { skip = 1 }) (later c)
  unfolding scan scan_byte
  scan_two s = elim (Bool-cases (ltb (suc c.offset) (length c.input))) [
    | inl more ↦
        let e : (c.offset + 2) - length c.input ≡ 0 = ground arith in
        let f : c.offset + 2 ≡ suc (suc c.offset) = omega arith in
        rw (e, f, drop-eq-cons (suc c.offset) c.input 0 (ltb→lt _ _ more))
    | inr end ↦
        let e : (c.offset + 2) - length c.input ≡ 1 = ground arith in
        rw (
          e,
          drop_all (c.offset + 2) c.input (ground arith),
          drop_all (suc c.offset) c.input (ltb→le _ _ end),
        )
  ]

  -- One round of the loop, in each state.
  abbrev pub after : Result Scanner → Result Scanner
  after r = r >>= λ t. scan t (later c)

  plaintext_scan :
      IsValid c
      → c.state ≡ plaintext
      → (handle_plaintext c >>= rest_scan) ≡ after (scan_plain (scanner0 c) (now c))
  unfolding handle_plaintext scan_plain
  plaintext_scan v at =
      let (d, done, w, shape) = fsm_append_output-ok c (now c) v in
      ground (
        arith,
        current-now c h,
        done,
        shape,
        scan_one (record (scanner_of c) { state = escape_enter }),
        scan_one (scanner_of c),
        scan_one (record (scanner_of c) { out = c.output ++ now c ∷ [] }),
      )

  other_scan : (handle_csi_other c >>= rest_scan) ≡ after (scan_other (scanner0 c) (now c))
  unfolding handle_csi_other scan_other
  other_scan = ground (
    arith,
    current-now c h,
    scan_one (record (scanner_of c) { state = escape_enter }),
    scan_one (record (scanner_of c) { state = plaintext }),
    scan_two (record (scanner_of c) { state = plaintext }),
  )

  escape_scan : (handle_escape_enter c >>= rest_scan) ≡ after (scan_escape (scanner0 c) (now c))
  unfolding handle_escape_enter scan_escape scan_in
  escape_scan = ground (
    arith,
    current-now c h,
    scan_one (record (scanner_of c) { state = csi_enter }),
    rest_scan_step (record c { state = csi_other }) h,
  )

  exit_scan : (handle_csi_exit c >>= rest_scan) ≡ after (scan_exit (scanner0 c))
  unfolding handle_csi_exit scan_exit
  exit_scan =
      elim (Result-cases (csi_colors c.csi.argc 0 c.csi.argv c.bg_colorflag c.fg_colorflag)) [
        | inl ((bg, fg), e) ↦
            ground
              (arith, e, scan_one (record (scanner_of c) { state = plaintext; bg = bg; fg = fg }))
        | inr (x, e) ↦ ground (arith, e)
      ]

  arg_scan :
      c.state ≡ csi_arg → (handle_csi_arg c >>= rest_scan) ≡ after (scan_arg (scanner0 c) (now c))
  unfolding handle_csi_arg scan_arg scan_in scan_exit
  arg_scan at = elim (Result-cases (csi_digit c.csi (now c - b'0'))) [
    | inl (d, e) ↦ ground (
      arith,
      e,
      current-now c h,
      at,
      scan_one (record (scanner_of c) { state = csi_enter; csi = record (c.csi) { argc = 0 } }),
      scan_one (record (scanner_of c) {
        csi = record (c.csi) { cur = c.csi.cur + 1; argc = c.csi.argc + 1 };
      }),
      scan_one (record (scanner_of c) { state = plaintext }),
      rest_scan_step (record c { csi = record (c.csi) { argc = c.csi.argc + 1 }; state = csi_exit })
          h,
      rest_scan_step (record c { csi = record (c.csi) { argc = 0 }; state = csi_exit }) h,
      scan_one (record (scanner_of c) { csi = d }),
    )
    | inr (x, e) ↦ ground (
      arith,
      e,
      current-now c h,
      at,
      scan_one (record (scanner_of c) { state = csi_enter; csi = record (c.csi) { argc = 0 } }),
      scan_one (record (scanner_of c) {
        csi = record (c.csi) { cur = c.csi.cur + 1; argc = c.csi.argc + 1 };
      }),
      scan_one (record (scanner_of c) { state = plaintext }),
      rest_scan_step (record c { csi = record (c.csi) { argc = c.csi.argc + 1 }; state = csi_exit })
          h,
      rest_scan_step (record c { csi = record (c.csi) { argc = 0 }; state = csi_exit }) h,
    )
  ]

  enter_scan : (handle_csi_enter c >>= rest_scan) ≡ after (scan_enter (scanner0 c) (now c))
  unfolding handle_csi_enter scan_enter scan_in scan_exit scan_arg scan_plain
  enter_scan = ground (
    arith,
    current-now c h,
    rest_scan_step (record c { csi = csi_zero; state = csi_arg }) h,
    rest_scan_step (record c { state = csi_exit }) h,
    rest_scan_step (record c { state = plaintext; processed = c.offset }) h,
  )

  pub round_scan :
      (s : FsmState)
      → IsValid c
      → c.state ≡ s
      → (handle s c >>= rest_scan) ≡ after (scan_in s (scanner0 c) (now c))
  unfolding scan_in
  round_scan plaintext v at = plaintext_scan v at
  round_scan escape_enter v at = escape_scan
  round_scan csi_enter v at = enter_scan
  round_scan csi_arg v at = arg_scan at
  round_scan csi_exit v at = exit_scan
  round_scan csi_other v at = other_scan
