-- ===== src/Fsm/Overflow.antt =====
-- The array `argv` of `csi_info` in src/fsm.h has 16 places, and `handle_csi_arg` of src/fsm.c does
-- not hold the index `cur` below them.
use termtunnel.Base.{
  ℕ, replicate, Bytes, ◌≤◌, ◌++◌, ◌≡◌, true, ◌+◌, add-zero, ◌∷◌, suc, [], arith, fault, ◌∙◌,
  out_of_bounds, zero, get_elem?-eq-none, length, map_ok-eq-fault,
}
use termtunnel.Fsm.{FsmContext, csi_arg, csi_digit, is_digit, plaintext, esc}
use termtunnel.Fsm.Stream.{
  Scanner, scan, scan_byte, scan_in, scan_arg, scan_enter, scan_escape, scan_plain, scanner_of,
}
use termtunnel.Fsm.Run.{IsIdle}
use termtunnel.Fsm.Feed.{feed, feed-scan}

abbrev in_arg : Scanner → ℕ → Scanner
in_arg s n = record s {
  state = csi_arg;
  csi = record { argc = n; argv = replicate 16 0; cur = n };
  skip = 0;
}

scan_separators :
    (s : Scanner) (n k : ℕ) (rest : Bytes)
    → scan (in_arg s n) (replicate k b';' ++ rest) ≡ scan (in_arg s (n + k)) rest
unfolding scan scan_byte scan_in scan_arg
scan_separators s n zero rest = rw add-zero
scan_separators s n (suc k) rest =
    let e : n + 1 + k ≡ n + suc k = omega arith in scan_separators s (n + 1) k rest ∙ rw e

scan_digit_outside :
    (s : Scanner) (n d : ℕ)
    → 16 ≤ n
    → is_digit d ≡ true
    → scan (in_arg s n) (d ∷ []) ≡ fault out_of_bounds
unfolding scan scan_byte scan_in scan_arg csi_digit
scan_digit_outside s n d h g = ground (arith, get_elem?-eq-none n (replicate {A = ℕ} 16 0) h)

scan_overflow :
    (s : Scanner) (k d : ℕ)
    → s.state ≡ plaintext
    → s.skip ≡ 0
    → 15 ≤ k
    → is_digit d ≡ true
    → scan s (esc ∷ b'[' ∷ b';' ∷ (replicate k b';' ++ d ∷ [])) ≡ fault out_of_bounds
unfolding scan scan_byte scan_in scan_arg scan_enter scan_escape scan_plain
scan_overflow s k d p z h g =
    rw (z, p) (scan_separators s 1 k (d ∷ []) ∙ scan_digit_outside s (1 + k) d (omega arith) g)

-- From any state of the machine between two sequences, with all its input read: a sequence with
-- sixteen separators or more, and then a digit, writes outside the array of parameters.
pub feed_overflow :
    (c : FsmContext) (k d : ℕ)
    → IsIdle c
    → c.state ≡ plaintext
    → c.offset ≡ length c.input
    → 15 ≤ k
    → is_digit d ≡ true
    → feed c (esc ∷ b'[' ∷ b';' ∷ (replicate k b';' ++ d ∷ [])) ≡ fault out_of_bounds
feed_overflow c k d idle p z h g =
    let bytes = esc ∷ b'[' ∷ b';' ∷ (replicate k b';' ++ d ∷ []) in
    let (same, _) = feed-scan c bytes idle in
    map_ok-eq-fault scanner_of (feed c bytes)
      (same ∙ scan_overflow (scanner_of c) k d p (omega arith) h g)
