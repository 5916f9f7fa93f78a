-- ===== src/Fsm/Checked.antt =====
-- The machine of src/fsm.c with a test of its ints behind every step.
use termtunnel.Base.{
  ℕ, Bytes, List, Bool, Result, ok, fault, length, zero, suc, ltb, ◌&&◌, ◌^◌, ◌+◌, ◌≤◌, ◌≡◌, ◌∷◌,
  [], arith, guard, int_overflow, out_of_fuel, true, false, ◌>>=◌, ◌>>◌, Bool-cases, inl, inr,
  ltb→lt, ltb→le, refl, ◌∙◌, sym, map_ok, flatten, length-append, ap,
}
use termtunnel.Fsm.{FsmContext, handle, fsm_loop, fsm_fuel, fsm_enter, fsm_run, fsm_append_input}
use termtunnel.Fsm.Valid.{IsValid, Holds, handle-IsValid, fsm_append_input-ok, fsm_enter-IsValid}
use termtunnel.Fsm.Run.{IsIdle, loop_at_more, loop_at_end}
use termtunnel.Fsm.Feed.{feed, feed_all, feed_all-scan, feed-scan}
use termtunnel.Fsm.Stream.{scanner_of, scan}
use termtunnel.Fsm.Sizes.{
  IsSized, IsSized-InRange, load, handle-IsSized, fsm_enter-IsSized, append-IsSized, feed-IsSized,
}

abbrev is_int : ℕ → Bool
is_int n = ltb n (2 ^ 31)

-- All int fields are in their range.
abbrev in_range : FsmContext → Bool
in_range c =
    is_int c.run_count
    && is_int c.processed
    && is_int c.offset
    && is_int (length c.input)
    && is_int c.input_cap
    && is_int (length c.output)
    && is_int c.output_cap
    && is_int c.csi.argc
    && is_int c.csi.cur

abbrev checked : FsmContext → Result FsmContext
checked c = guard (in_range c) int_overflow >> ok c

-- `fsm_loop` with a test behind each round.
unfoldable pub loop_checked : ℕ → FsmContext → Result FsmContext
loop_checked zero c = fault out_of_fuel
loop_checked (suc fuel) c = elim (ltb c.offset (length c.input)) [
  | true ↦ handle c.state c >>= λ d. checked d >>= λ e. loop_checked fuel e
  | false ↦ ok c
]

-- `feed` with a test behind `fsm_append_input`, behind the collection of `fsm_run` and behind each
-- round of its loop.
unfoldable pub feed_checked : FsmContext → Bytes → Result FsmContext
feed_checked ctx bytes = do
  c ← fsm_append_input ctx bytes
  d ← checked c
  e ← checked (fsm_enter d)
  loop_checked (fsm_fuel e) e

unfoldable pub feed_all_checked : FsmContext → List Bytes → Result FsmContext
feed_all_checked c [] = ok c
feed_all_checked c (x ∷ xs) = feed_checked c x >>= λ d. feed_all_checked d xs

checked_same : (n : ℕ) (c : FsmContext) → IsValid c → IsSized n c → n ≤ 2 ^ 29 → checked c ≡ ok c
checked_same n c v w l = let r = IsSized-InRange n c v w l in ground (arith, r)

next_same {ℓ κ} :
    {A : Type ℓ} {B : Type κ} (P Q : A → Type 0) (r : Result A) (f g : A → Result B)
    → Holds P r
    → Holds Q r
    → ((a : A) → P a → Q a → f a ≡ g a)
    → (r >>= f) ≡ (r >>= g)
next_same P Q (ok a) f g p q h = h a p q
next_same P Q (fault x) f g p q h = refl

loop_checked_at_more :
    (fuel : ℕ) (c : FsmContext)
    → ltb c.offset (length c.input) ≡ true
    → loop_checked (suc fuel) c ≡ (handle c.state c >>= λ d. checked d >>= λ e. loop_checked fuel e)
unfolding loop_checked
loop_checked_at_more fuel c h = rw (loop_checked, h) refl

loop_checked_at_end :
    (fuel : ℕ) (c : FsmContext)
    → ltb c.offset (length c.input) ≡ false
    → loop_checked (suc fuel) c ≡ ok c
unfolding loop_checked
loop_checked_at_end fuel c h = rw (loop_checked, h) refl

loop_checked_same :
    (fuel n : ℕ) (c : FsmContext)
    → IsValid c
    → IsSized n c
    → n ≤ 2 ^ 29
    → loop_checked fuel c ≡ fsm_loop fuel c
unfolding loop_checked fsm_loop
loop_checked_same zero n c v w l = refl
loop_checked_same (suc fuel) n c v w l = elim (Bool-cases (ltb c.offset (length c.input))) [
  | inl more ↦
      let h = ltb→lt _ _ more in
      loop_checked_at_more fuel c more
      ∙ next_same IsValid (IsSized n) (handle c.state c)
          (λ d. checked d >>= λ e. loop_checked fuel e) (λ d. fsm_loop fuel d)
          (handle-IsValid c.state c v h) (handle-IsSized n c.state c w h refl)
          (λ d p q.
            ap (λ r. r >>= λ e. loop_checked fuel e) (checked_same n d p q l)
            ∙ loop_checked_same fuel n d p q l)
      ∙ sym (loop_at_more fuel c h)
  | inr end ↦ loop_checked_at_end fuel c end ∙ sym (loop_at_end fuel c (ltb→le _ _ end))
]

feed_checked_same :
    (n : ℕ) (c : FsmContext) (x : Bytes)
    → IsIdle c
    → IsSized n c
    → n + (length x + 1) ≤ 2 ^ 29
    → feed_checked c x ≡ feed c x
unfolding feed_checked feed fsm_run
feed_checked_same n c x h w l =
    let (d, done, v, shape) = fsm_append_input-ok c x h.valid in
    let m = n + (length x + 1) in
    let sized : IsSized (n + length x) d = rw done at (append-IsSized n c x w) in
    let valid = fsm_enter-IsValid d v in
    let entered = fsm_enter-IsSized (n + length x) m d (omega arith) v sized in
    rw
      (
        done,
        checked_same (n + length x) d v sized (omega arith),
        checked_same m (fsm_enter d) valid entered l,
      )
      (loop_checked_same (fsm_fuel (fsm_enter d)) m (fsm_enter d) valid entered l)

feed_all_checked_same :
    (n : ℕ) (xs : List Bytes) (c : FsmContext)
    → IsIdle c
    → IsSized n c
    → n + load xs ≤ 2 ^ 29
    → feed_all_checked c xs ≡ feed_all c xs
unfolding feed_all_checked feed_all
feed_all_checked_same n [] c h w l = refl
feed_all_checked_same n (x ∷ xs) c h w l =
    let size = length-append x (flatten xs) in
    rw (feed_checked_same n c x h w (omega (arith, size))) (
      next_same IsIdle (IsSized (n + (length x + 1))) (feed c x) (λ d. feed_all_checked d xs)
        (λ d. feed_all d xs) (feed-scan c x h).1 (feed-IsSized n c x h w)
        (λ d p q. feed_all_checked_same (n + (length x + 1)) xs d p q (omega (arith, size))))

-- Reading a stream in pieces, whatever the cuts: from a machine that has read all its input, whose
-- sizes come from `n` bytes and calls, and with at most 2^29 of them in all (the reads to come count
-- with their bytes and one each), the machine scans the whole stream, keeps its bounds, and always
-- returns unless the scanner faults. It does the same with a test behind each of its steps that
-- every int field is in the range of an int, so no such test ever fails.
pub feed_all-feed_all_checked :
    (n : ℕ) (xs : List Bytes) (c : FsmContext)
    → IsIdle c
    → IsSized n c
    → n + load xs ≤ 2 ^ 29
    → (map_ok scanner_of (feed_all c xs) ≡ scan (scanner_of c) (flatten xs))
      × Holds IsIdle (feed_all c xs)
      × (feed_all_checked c xs ≡ feed_all c xs)
feed_all-feed_all_checked n xs c h w l =
    let (same, idle) = feed_all-scan xs c h in (same, idle, feed_all_checked_same n xs c h w l)
