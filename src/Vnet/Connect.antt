-- ===== src/Vnet/Connect.antt =====
-- The tries and the sleeps of `vnet_tcp_connect_with_retry` of src/vnet.c.
use termtunnel.Base.{
  ℕ, List, suc, Option, ◌∷◌, ◌+◌, some, ◌≤◌, length, arith, ◌*◌, [], ◌<◌, ◌≡◌, zero, none, ok, refl,
}
use termtunnel.Vnet.{connect_loop, vnet_tcp_connect_with_retry}

-- The microseconds slept in all.
abbrev pub total : List ℕ → ℕ
total [] = 0
total (x ∷ xs) = x + total xs

-- The sleeps of `left` rounds from `sleep` on.
doubled : ℕ → ℕ → ℕ
doubled zero sleep = 0
doubled (suc left) sleep = sleep + doubled left (sleep * 2)

-- A socket, or every try has failed.
abbrev pub Settled : ℕ → Option ℕ → List ℕ → Type 0
Settled left (some (suc fd)) sleeps = length sleeps < left
Settled left _ sleeps = length sleeps ≡ left

Settled-more :
    (left x : ℕ) (ret : Option ℕ) (sleeps : List ℕ)
    → Settled left ret sleeps
    → Settled (suc left) ret (x ∷ sleeps)
Settled-more left x none sleeps h = omega arith
Settled-more left x (some zero) sleeps h = omega arith
Settled-more left x (some (suc fd)) sleeps h = omega arith

-- The last result of a run that has none above 0 so far.
abbrev NotYet : Option ℕ → Type 0
NotYet (some (suc fd)) = ⊥
NotYet _ = Unit

connect_loop_ends :
    (left sleep : ℕ) (ret : Option ℕ) (tries : List (Option ℕ))
    → left ≤ length tries
    → NotYet ret
    → (r : Option ℕ) × (sleeps : List ℕ) × (connect_loop left sleep ret tries ≡ ok (r, sleeps))
      × (total sleeps ≤ doubled left sleep)
      × Settled left r sleeps
unfolding connect_loop doubled
connect_loop_ends zero sleep none tries h y = (none, [], refl, omega arith, refl)
connect_loop_ends zero sleep (some zero) tries h y = (some 0, [], refl, omega arith, refl)
connect_loop_ends zero sleep (some (suc fd)) tries h y = elim y [ ]
connect_loop_ends (suc left) sleep ret [] h y = absurd (omega arith)
connect_loop_ends (suc left) sleep ret (none ∷ tries) h y =
    let (r, sleeps, ran, low, settled) =
      connect_loop_ends left (sleep * 2) none tries (omega arith) tt in
    (r, sleep ∷ sleeps, rw ran refl, omega arith, Settled-more left sleep r sleeps settled)
connect_loop_ends (suc left) sleep ret (some zero ∷ tries) h y =
    let (r, sleeps, ran, low, settled) =
      connect_loop_ends left (sleep * 2) (some 0) tries (omega arith) tt in
    (r, sleep ∷ sleeps, rw ran refl, omega arith, Settled-more left sleep r sleeps settled)
connect_loop_ends (suc left) sleep ret (some (suc fd) ∷ tries) h y =
    (some (suc fd), [], ground arith, omega arith, omega arith)

-- Whatever the ten first tries give, `vnet_tcp_connect_with_retry` returns after 1.023 seconds of
-- sleep at most: with a socket above 0 after fewer than ten failures, or else after ten.
pub vnet_tcp_connect_with_retry_ends :
    (tries : List (Option ℕ))
    → 10 ≤ length tries
    → (r : Option ℕ) × (sleeps : List ℕ) × (vnet_tcp_connect_with_retry tries ≡ ok (r, sleeps))
      × (total sleeps ≤ 1023000)
      × Settled 10 r sleeps
unfolding vnet_tcp_connect_with_retry doubled
vnet_tcp_connect_with_retry_ends tries h = connect_loop_ends 10 1000 (some 0) tries h tt
