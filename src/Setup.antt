-- ===== src/Setup.antt =====
-- Chains of calls that end at the first failure, as the processes of src/pipe.c, src/agent.c and
-- src/entry.c start.
use termtunnel.Base.{
  Bool, List, true, ◌++◌, ◌≡◌, ◌∷◌, All, if◌then◌else◌, Bool-cases, [], inl, false, ap, inr, arith,
  refl,
}

-- Calls up to the first that fails; whether all succeeded.
unfoldable pub until_failure {ℓ} : {A : Type ℓ} → (A → Bool) → List A → List A × Bool
until_failure succeeds [] = ([], true)
until_failure succeeds (s ∷ ss) =
    let rest = until_failure succeeds ss in
    if succeeds s then (s ∷ rest.0, rest.1) else (s ∷ [], false)

-- The calls are those in front of the first failure, and that one.
pub until_failure-prefix {ℓ} :
    {A : Type ℓ} (succeeds : A → Bool) (ss : List A)
    → (more : List A) × ((until_failure succeeds ss).0 ++ more ≡ ss)
unfolding until_failure
until_failure-prefix succeeds [] = ([], refl)
until_failure-prefix succeeds (s ∷ ss) =
    let (more, e) = until_failure-prefix succeeds ss in
    elim (Bool-cases (succeeds s)) [ inl y ↦ (more, rw y (ap (◌∷◌ s) e)) | inr n ↦ (ss, rw n refl) ]

-- All calls are made only if none fails.
pub until_failure_whole {ℓ} :
    {A : Type ℓ} (succeeds : A → Bool) (ss : List A)
    → (until_failure succeeds ss).1 ≡ true
    → ((until_failure succeeds ss).0 ≡ ss) × All (λ s. succeeds s ≡ true) ss
unfolding until_failure
until_failure_whole succeeds [] h = (refl, tt)
until_failure_whole succeeds (s ∷ ss) h = elim (Bool-cases (succeeds s)) [
  | inl y ↦
      let (e, k) = until_failure_whole succeeds ss (rw y at h) in (rw y (ap (◌∷◌ s) e), (y, k))
  | inr n ↦ absurd (ground (arith, rw n at h))
]
