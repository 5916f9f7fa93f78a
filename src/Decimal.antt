-- ===== src/Decimal.antt =====
-- Decimal numbers as `%hu` and `%d` print them, and what their digits are worth to a reader.
use native.Mathlib.Nat.{pow-succ'}
use termtunnel.Repl.{isspace}
use termtunnel.Base.{
  ℕ, Bool, Bytes, ◌<◌, All, leb, [], ◌∷◌, ◌++◌, ◌^◌, ◌≡◌, ◌+◌, ◌&&◌, suc, ◌*◌, arith, true, ◌≢◌,
  ◌/◌, ◌-◌, ◌⊎◌, ◌%◌, Bool-cases, inr, refl, if◌then◌else◌, ltb, inl, ◌≤◌, zero, ltb→le, ltb→lt, ap,
  lt→ltb, All-append, length, length-append, false, ◌==◌,
}

abbrev pub decimal_digit : ℕ → Bool
decimal_digit c = leb b'0' c && leb c b'9'

abbrev pub IsDigits : Bytes → Type 0
IsDigits = All (λ c. decimal_digit c ≡ true)

pub digit_bounds : (c : ℕ) → decimal_digit c ≡ true → (b'0' ≤ c) × (c ≤ b'9')
digit_bounds c h = (ground arith, ground arith)

-- A digit is neither a space nor a sign.
pub digit_plain :
    (c : ℕ)
    → decimal_digit c ≡ true
    → (isspace c ≡ false) × ((c == b'-') ≡ false) × ((c == b'+') ≡ false)
digit_plain c h = let b = digit_bounds c h in (ground arith, ground arith, ground arith)

-- At most `places` digits.
unfoldable pub print_decimal : ℕ → ℕ → Bytes
print_decimal zero n = []
print_decimal (suc places) n =
    let more = print_decimal places (n / 10) ++ (n % 10 + b'0') ∷ [] in
    if ltb n 10 then (n + b'0') ∷ [] else more

-- `%hu` of a `uint16_t`
abbrev pub print_port : ℕ → Bytes
print_port n = print_decimal 5 n

-- Digits read from the left, behind `n`.
unfoldable pub worth : ℕ → Bytes → ℕ
worth n [] = n
worth n (c ∷ cs) = worth (n * 10 + (c - b'0')) cs

worth-append : (n : ℕ) (xs : Bytes) (d : ℕ) → worth n (xs ++ d ∷ []) ≡ worth n xs * 10 + (d - b'0')
unfolding worth
worth-append n [] d = refl
worth-append n (c ∷ xs) d = worth-append (n * 10 + (c - b'0')) xs d

pub worth-print_decimal : (places n : ℕ) → n < 10 ^ places → worth 0 (print_decimal places n) ≡ n
unfolding print_decimal
worth-print_decimal zero n h = unfold worth in omega arith
worth-print_decimal (suc places) n h =
    let less : n / 10 < 10 ^ places = omega (arith, pow-succ' 10 places) in
    let ih = worth-print_decimal places (n / 10) less in
    elim (Bool-cases (ltb n 10)) [
      | inl small ↦ rw small (unfold worth in omega arith)
      | inr big ↦
          rw (big, worth-append 0 (print_decimal places (n / 10)) (n % 10 + b'0'), ih) (omega arith)
    ]

digit_small : (m : ℕ) → m < 10 → decimal_digit (m + b'0') ≡ true
digit_small m h = ground arith

-- What is printed are digits.
pub All-print_decimal : (places n : ℕ) → All (λ c. decimal_digit c ≡ true) (print_decimal places n)
unfolding print_decimal
All-print_decimal zero n = tt
All-print_decimal (suc places) n = elim (Bool-cases (ltb n 10)) [
  | inl small ↦ rw small (digit_small n (ltb→lt n 10 small), tt)
  | inr big ↦ rw big (
      All-append (λ c. decimal_digit c ≡ true) (print_decimal places (n / 10))
        ((n % 10 + b'0') ∷ []) (All-print_decimal places (n / 10))
        (digit_small (n % 10) (omega arith), tt))
]

pub length-print_decimal : (places n : ℕ) → length (print_decimal places n) ≤ places
unfolding print_decimal
length-print_decimal zero n = omega arith
length-print_decimal (suc places) n = elim (Bool-cases (ltb n 10)) [
  | inl small ↦ rw small (omega arith)
  | inr big ↦ rw big (
      omega (
        arith,
        length-append (print_decimal places (n / 10)) ((n % 10 + b'0') ∷ []),
        length-print_decimal places (n / 10),
      ))
]

-- The first digit is 0 only for the number 0.
pub record Leads (n : ℕ) (text : Bytes) : Type 0 where
  pub first : ℕ
  pub others : Bytes
  pub starts : text ≡ first ∷ others
  pub not_padded : (first ≢ b'0') ⊎ (n ≡ 0)

lead_small : (n : ℕ) → (n + b'0' ≢ b'0') ⊎ (n ≡ 0)
lead_small zero = inr refl
lead_small (suc n) = inl (λ e. absurd (omega arith))

Leads-append :
    (n : ℕ) (text : Bytes) (d : ℕ) → 10 ≤ n → Leads (n / 10) text → Leads n (text ++ d ∷ [])
Leads-append n text d big l = record {
  first = l.first;
  others = l.others ++ d ∷ [];
  starts = ap (λ t. t ++ d ∷ []) l.starts;
  not_padded = elim l.not_padded [ inl h ↦ inl h | inr z ↦ absurd (omega arith) ];
}

pub print_decimal-Leads :
    (places n : ℕ) → n < 10 ^ suc places → Leads n (print_decimal (suc places) n)
unfolding print_decimal
print_decimal-Leads zero n h =
    rw (lt→ltb n 10 h)
      (record { first = n + b'0'; others = []; starts = refl; not_padded = lead_small n })
print_decimal-Leads (suc places) n h = elim (Bool-cases (ltb n 10)) [
  | inl small ↦
      rw small (record { first = n + b'0'; others = []; starts = refl; not_padded = lead_small n })
  | inr big ↦
      let less : n / 10 < 10 ^ suc places = omega (arith, pow-succ' 10 (suc places)) in
      let ih =
        Leads-append n _ (n % 10 + b'0') (ltb→le n 10 big)
          (print_decimal-Leads places (n / 10) less) in
      rw big ih
]
