-- ===== src/Base/Words.antt =====
-- Machine words: numbers below a power of two, with the wrap-around written out.
use Prim.Native.Nat.{
  ℕ, zero, suc, ◌+◌, ◌-◌, ◌*◌, ◌/◌, ◌%◌, ◌^◌, ◌≤◌, ◌<◌, min, bit_and, digits, bit_and-bitwise,
}
use mathlib.Core.Path.{◌≡◌, ap}
use native.Mathlib.Omega.{arith}
use native.Mathlib.Nat.{add-mul-mod_self_right, mod-eq_of_lt, mod-lt, div-add-mod', two-pow-succ}

abbrev pub w64 : ℕ
w64 = 2 ^ 64

abbrev pub w32 : ℕ
w32 = 2 ^ 32

abbrev pub w16 : ℕ
w16 = 2 ^ 16

-- `a + b` and `a - b` on `uint64_t`.
abbrev pub add64 : ℕ → ℕ → ℕ
add64 a b = (a + b) % w64

abbrev pub sub64 : ℕ → ℕ → ℕ
sub64 a b = (a + w64 - b) % w64

-- `x & ~m`: the bits of `x` that `m` does not have.
abbrev pub and_not : ℕ → ℕ → ℕ
and_not x m = x - bit_and x m

-- The conjunction of the lowest `n` binary places.
abbrev conj : ℕ → ℕ → ℕ → ℕ
conj n x m = digits (λ _. zero) min n x m

conj-le : (n x m : ℕ) → conj n x m ≤ m
conj-le zero x m = omega arith
conj-le (suc n) zero m = omega arith
conj-le (suc n) (suc x) m = omega (arith, conj-le n (suc x / 2) (m / 2))

-- A conjunction with `m` is at most `m`.
pub bit_and-le : (x m : ℕ) → bit_and x m ≤ m
bit_and-le x m = rw (bit_and-bitwise x m) (conj-le x x m)

pow_pos : (k : ℕ) → 0 < 2 ^ k
pow_pos zero = omega arith
pow_pos (suc k) = omega (arith, pow_pos k)

mod_of_split : (r q m a : ℕ) → r < m → a ≡ r + q * m → a % m ≡ r
mod_of_split r q m a h e = rw (e, add-mul-mod_self_right r q m) (mod-eq_of_lt h)

mod_double : (p a : ℕ) → 0 < p → a % (p + p) ≡ a / 2 % p * 2 + a % 2
mod_double p a h =
    mod_of_split (a / 2 % p * 2 + a % 2) (a / 2 / p) (p + p) a (omega (arith, mod-lt (a / 2) h))
      (omega (arith, div-add-mod' (a / 2) p))

half_mask : (p : ℕ) → 0 < p → ((p + p - 1) / 2 ≡ p - 1) × ((p + p - 1) % 2 ≡ 1)
half_mask p h = omega arith

conj_mask : (n k x : ℕ) → x ≤ n → conj n x (2 ^ k - 1) ≡ x % 2 ^ k
conj_mask zero k x h =
    let none_left : x ≡ 0 = omega arith in rw (none_left, mod-eq_of_lt (pow_pos k))
conj_mask (suc n) k zero h = rw (mod-eq_of_lt (pow_pos k))
conj_mask (suc n) zero (suc x) h = omega (arith, conj-le (suc n) (suc x) 0)
conj_mask (suc n) (suc k) (suc x) h =
    let p = pow_pos k in
    let shifted = ap (λ (t : ℕ). conj n (suc x / 2) t) ((half_mask (2 ^ k) p).0) in
    rw two-pow-succ (
      omega (
        arith,
        mod_double (2 ^ k) (suc x) p,
        shifted,
        half_mask (2 ^ k) p,
        conj_mask n k (suc x / 2) (omega arith),
      ))

-- A mask of `k` ones is the remainder by `2 ^ k`.
pub bit_and_mask : (k x : ℕ) → bit_and x (2 ^ k - 1) ≡ x % 2 ^ k
bit_and_mask k x = rw (bit_and-bitwise x (2 ^ k - 1)) (conj_mask x k x (omega arith))
