-- ===== src/Words.antt =====
-- Integers in memory: `int64_t`, `int32_t` and `uint16_t` as the bytes that `memcpy` moves, with the
-- low byte first (x86-64 and AArch64). A signed value is its bit pattern, a number below 2 ^ w.
use native.Mathlib.Nat.{pow-succ'}
use termtunnel.Base.{
  ℕ, Bytes, length, ◌^◌, ◌<◌, Bool, [], ◌∷◌, ◌≡◌, suc, leb, ◌%◌, ◌+◌, ap, ◌*◌, arith, ◌/◌, zero,
  refl,
}

-- `n` bytes of a number.
unfoldable pub le_bytes : ℕ → ℕ → Bytes
le_bytes zero x = []
le_bytes (suc n) x = x % 256 ∷ le_bytes n (x / 256)

unfoldable pub from_le : Bytes → ℕ
from_le [] = 0
from_le (b ∷ r) = b + 256 * from_le r

pub length-le_bytes : (n x : ℕ) → length (le_bytes n x) ≡ n
unfolding le_bytes
length-le_bytes zero x = refl
length-le_bytes (suc n) x = ap suc (length-le_bytes n (x / 256))

pow_suc : (n : ℕ) → 256 ^ suc n ≡ 256 * 256 ^ n
pow_suc n = pow-succ' 256 n

pub from_le-le_bytes : (n x : ℕ) → x < 256 ^ n → from_le (le_bytes n x) ≡ x
unfolding le_bytes from_le
from_le-le_bytes zero x h = omega arith
from_le-le_bytes (suc n) x h =
    let e : x / 256 < 256 ^ n = omega (arith, pow_suc n) in
    omega (arith, from_le-le_bytes n (x / 256) e)

-- The sign of an `int64_t`.
abbrev pub is_negative64 : ℕ → Bool
is_negative64 x = leb (2 ^ 63) x
