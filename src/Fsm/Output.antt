-- ===== src/Fsm/Output.antt =====
-- What a scan does not read: the output that stands before it.
use termtunnel.Base.{
  zero, suc, ℕ, Bytes, map_ok, ◌++◌, ◌≡◌, ◌||◌, ◌==◌, Result, Bool, arith, ◌∷◌, ◌+◌, append_assoc,
  Result-cases, ◌>>=◌, if◌then◌else◌, ok, [], inl, ◌-◌, true, refl, fault, ◌∙◌, false, ap, inr,
}
use termtunnel.Fsm.Stream.{
  Scanner, scan_plain, scan_in, scan_escape, scan_enter, scan_arg, scan_exit, scan_other, with_argc,
  scan_byte, scan,
}
use termtunnel.Fsm.{
  is_digit, csi_zero, csi_colors, FsmState, csi_digit, plaintext, escape_enter, csi_enter, csi_arg,
  csi_exit, csi_other,
}

-- More output in front.
abbrev pub with_out : Bytes → Scanner → Scanner
with_out a s = record s { out = a ++ s.out }

bind_map {ℓ ℓ'} :
    {A : Type ℓ} {B : Type ℓ'} (f : B → B) (m : Result A) (k l : A → Result B)
    → ((x : A) → k x ≡ map_ok f (l x))
    → (m >>= k) ≡ map_ok f (m >>= l)
bind_map f (ok x) k l h = h x
bind_map f (fault x) k l h = refl

if_map {ℓ} :
    {B : Type ℓ} (f : B → B) (c : Bool) {x y : Result B} (x' y' : Result B)
    → x ≡ map_ok f x'
    → y ≡ map_ok f y'
    → (if c then x else y) ≡ map_ok f (if c then x' else y')
if_map f true x' y' h g = h
if_map f false x' y' h g = g

scan_exit_out :
    (a : Bytes) (s : Scanner) → scan_exit (with_out a s) ≡ map_ok (with_out a) (scan_exit s)
unfolding scan_exit
scan_exit_out a s =
    bind_map (with_out a) (csi_colors s.csi.argc 0 s.csi.argv s.bg s.fg) _ _ (λ p. refl)

scan_arg_out :
    (a : Bytes) (s : Scanner) (b : ℕ)
    → scan_arg (with_out a s) b ≡ map_ok (with_out a) (scan_arg s b)
unfolding scan_arg
scan_arg_out a s b = if_map (with_out a) (b == b'[') _ _ refl (
    if_map (with_out a) (b == b'm') _ _ (scan_exit_out a (with_argc s (s.csi.argc + 1))) (
      if_map (with_out a) (b == b'l' || b == b'y') _ _ (scan_exit_out a (with_argc s 0)) (
        if_map (with_out a) (b == b';') _ _ refl (
          if_map (with_out a) (is_digit b) _ _
            (bind_map (with_out a) (csi_digit s.csi (b - b'0')) _ _ (λ c. refl)) refl))))

scan_plain_out :
    (a : Bytes) (s : Scanner) (b : ℕ)
    → scan_plain (with_out a s) b ≡ map_ok (with_out a) (scan_plain s b)
unfolding scan_plain
scan_plain_out a s b = ground (arith, append_assoc a s.out (b ∷ []))

scan_enter_out :
    (a : Bytes) (s : Scanner) (b : ℕ)
    → scan_enter (with_out a s) b ≡ map_ok (with_out a) (scan_enter s b)
unfolding scan_enter
scan_enter_out a s b =
    if_map (with_out a) (is_digit b || b == b';' || b == b'm') _ _
      (scan_arg_out a (record s { csi = csi_zero }) b)
      (if_map (with_out a) (b == b'H') _ _ (scan_exit_out a s) (scan_plain_out a s b))

scan_in_out :
    (st : FsmState) (a : Bytes) (s : Scanner) (b : ℕ)
    → scan_in st (with_out a s) b ≡ map_ok (with_out a) (scan_in st s b)
unfolding scan_in scan_escape scan_other
scan_in_out plaintext a s b = scan_plain_out a s b
scan_in_out escape_enter a s b = ground arith
scan_in_out csi_enter a s b = scan_enter_out a s b
scan_in_out csi_arg a s b = scan_arg_out a s b
scan_in_out csi_exit a s b = scan_exit_out a s
scan_in_out csi_other a s b = ground arith

scan_byte_out :
    (a : Bytes) (s : Scanner) (b : ℕ)
    → scan_byte (with_out a s) b ≡ map_ok (with_out a) (scan_byte s b)
unfolding scan_byte
scan_byte_out a s b = go s.skip
  where
    go :
        (n : ℕ)
        → (elim n [
          | zero ↦ scan_in s.state (with_out a s) b
          | suc k ↦ ok (record (with_out a s) { skip = k })
        ])
          ≡ map_ok
              (with_out a)
              (elim n [ zero ↦ scan_in s.state s b | suc k ↦ ok (record s { skip = k }) ])
    go zero = scan_in_out s.state a s b
    go (suc k) = refl

pub scan_out :
    (a : Bytes) (s : Scanner) (bs : Bytes)
    → scan (with_out a s) bs ≡ map_ok (with_out a) (scan s bs)
unfolding scan
scan_out a s [] = refl
scan_out a s (b ∷ bs) = elim (Result-cases (scan_byte s b)) [
  | inl (t, e) ↦
      let f : scan_byte (with_out a s) b ≡ ok (with_out a t) =
        scan_byte_out a s b ∙ ap (map_ok (with_out a)) e in
      rw (f, e) (scan_out a t bs)
  | inr (x, e) ↦
      let f : scan_byte (with_out a s) b ≡ fault x =
        scan_byte_out a s b ∙ ap (map_ok (with_out a)) e in
      rw (f, e) refl
]
