-- ===== src/Fsm/Stream.antt =====
-- What src/fsm.c computes, byte by byte and without buffers: a specification of `fsm_run`, and the
-- proof that the loop over the buffer implements it, however the stream is cut into reads.
use termtunnel.Base.{
  ℕ, zero, suc, ◌+◌, ◌-◌, ◌≡◌, refl, sym, ap, ◌∙◌, Bool, ◌&&◌, ◌||◌, [], ◌∷◌, ◌++◌, Bytes, length,
  drop, ◌==◌, if◌then◌else◌, Result, ok, ◌>>=◌, fun_ext, >>=_assoc,
}
use termtunnel.Fsm.{
  FsmState, plaintext, escape_enter, csi_enter, csi_arg, csi_exit, csi_other, CsiInfo, FsmContext,
  esc, csi_zero, is_digit, csi_digit, csi_colors,
}

-- The machine without its buffers. `skip` counts the bytes to come that are passed over.
pub record Scanner : Type 0 where
  pub state : FsmState
  pub bg : Bool
  pub fg : Bool
  pub csi : CsiInfo
  pub out : Bytes
  pub skip : ℕ

-- Plain text is kept while both colours are green.
unfoldable pub scan_plain : Scanner → ℕ → Result Scanner
scan_plain s a =
    if a == esc
    then ok (record s { state = escape_enter })
    else ok (record s { state = plaintext; out = if s.bg && s.fg then s.out ++ a ∷ [] else s.out })

unfoldable pub scan_other : Scanner → ℕ → Result Scanner
scan_other s a =
    if a == esc
    then ok (record s { state = escape_enter })
    else ok (record s { state = plaintext; skip = if a == b'(' || a == b')' then 1 else 0 })

unfoldable pub scan_escape : Scanner → ℕ → Result Scanner
unfolding scan_other
scan_escape s a =
    if a == b'[' || a == b'?' then ok (record s { state = csi_enter }) else scan_other s a

-- The end of a sequence: its first `argc` parameters set the colours.
unfoldable pub scan_exit : Scanner → Result Scanner
scan_exit s = csi_colors s.csi.argc 0 s.csi.argv s.bg s.fg >>= λ p.
    ok (record s { state = plaintext; bg = p.0; fg = p.1 })

abbrev pub with_argc : Scanner → ℕ → Scanner
with_argc s n = record s { csi = record (s.csi) { argc = n } }

unfoldable pub scan_arg : Scanner → ℕ → Result Scanner
unfolding scan_exit
scan_arg s a =
    if a == b'['
    then ok (record (with_argc s 0) { state = csi_enter })
    else if a == b'm'
    then scan_exit (with_argc s (s.csi.argc + 1))
    else if a == b'l' || a == b'y'
    then scan_exit (with_argc s 0)
    else if a == b';'
    then ok (record s {
      state = csi_arg;
      csi = record (s.csi) { cur = s.csi.cur + 1; argc = s.csi.argc + 1 };
    })
    else if is_digit a
    then (csi_digit s.csi (a - b'0') >>= λ c. ok (record s { state = csi_arg; csi = c }))
    else ok (record s { state = plaintext })

unfoldable pub scan_enter : Scanner → ℕ → Result Scanner
unfolding scan_arg scan_exit scan_plain
scan_enter s a =
    if is_digit a || a == b';' || a == b'm'
    then scan_arg (record s { csi = csi_zero }) a
    else if a == b'H'
    then scan_exit s
    else scan_plain s a

unfoldable pub scan_in : FsmState → Scanner → ℕ → Result Scanner
unfolding scan_plain scan_escape scan_enter scan_arg scan_exit scan_other
scan_in plaintext s a = scan_plain s a
scan_in escape_enter s a = scan_escape s a
scan_in csi_enter s a = scan_enter s a
scan_in csi_arg s a = scan_arg s a
scan_in csi_exit s a = scan_exit s
scan_in csi_other s a = scan_other s a

unfoldable pub scan_byte : Scanner → ℕ → Result Scanner
unfolding scan_in
scan_byte s a = elim s.skip [ zero ↦ scan_in s.state s a | suc k ↦ ok (record s { skip = k }) ]

unfoldable pub scan : Scanner → Bytes → Result Scanner
unfolding scan_byte
scan s [] = ok s
scan s (a ∷ rest) = scan_byte s a >>= λ t. scan t rest

-- The scanner that a context stands for, and the bytes that it has not read yet.
abbrev pub scanner_of : FsmContext → Scanner
scanner_of ctx = record {
  state = ctx.state;
  bg = ctx.bg_colorflag;
  fg = ctx.fg_colorflag;
  csi = ctx.csi;
  out = ctx.output;
  skip = ctx.offset - length ctx.input;
}

abbrev pub unread : FsmContext → Bytes
unread ctx = drop ctx.offset ctx.input

-- A scan of two pieces is a scan of the first and then of the second.
pub scan-append : (s : Scanner) (xs ys : Bytes) → scan s (xs ++ ys) ≡ (scan s xs >>= λ t. scan t ys)
unfolding scan
scan-append s [] ys = refl
scan-append s (x ∷ xs) ys =
    ap (λ k. scan_byte s x >>= k) (fun_ext λ t. scan-append t xs ys)
    ∙ sym (>>=_assoc (scan_byte s x) (λ t. scan t xs) (λ t. scan t ys))
