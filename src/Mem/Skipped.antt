-- ===== src/Mem/Skipped.antt =====
-- taskman/mem/mmap.c: the way to a device region through its untyped.
use native.Mathlib.Nat.{add-mul, le_trans, one-le-pow, pow-le-pow_right, two-pow-succ}
use lq.Base.{
  ℕ, zero, suc, ◌+◌, ◌-◌, ◌*◌, ◌/◌, ◌%◌, ◌^◌, ◌≤◌, ◌<◌, ◌≡◌, refl, ap, ◌∙◌, none, some, arith, ltb,
  ◌==◌, ==_iff, Bool-cases, Option-cases, inl, inr, ◌⊎◌,
}
use lq.Mem.Space.{Kernel}
use lq.Mem.Device.{Objects, fls_from, fls, ctz_from, ctz, chunk_bits, retype_one, skip}

fls_from-le : (fuel x : ℕ) → 0 < x → 2 ^ fls_from fuel x ≤ x
unfolding fls_from
fls_from-le zero x h = omega arith
fls_from-le (suc fuel) x h = elim (Bool-cases (ltb 1 x)) [
  | inl t ↦
      let big : 1 < x = ground arith in
      rw t (
        omega (arith, two-pow-succ (fls_from fuel (x / 2)), fls_from-le fuel (x / 2) (omega arith)))
  | inr t ↦ rw t (omega arith)
]

double : (q n : ℕ) → q * 2 ^ suc n ≡ (q + q) * 2 ^ n
double q n = grind (arith, two-pow-succ n)

-- The power of two divides the number.
ctz_from-divides : (fuel x : ℕ) → (q : ℕ) × (x ≡ q * 2 ^ ctz_from fuel x)
unfolding ctz_from
ctz_from-divides zero x = (x, omega arith)
ctz_from-divides (suc fuel) x = elim (Bool-cases (x % 2 == 0)) [
  | inl t ↦ rw t (
      let (q, e) = ctz_from-divides fuel (x / 2) in
      (
        q,
        omega (
          arith,
          (==_iff (x % 2) 0).0 t,
          e,
          double q (ctz_from fuel (x / 2)),
          add-mul q q (2 ^ ctz_from fuel (x / 2)),
        ),
      ))
  | inr t ↦ rw t (x, omega arith)
]

pow-divides : (n a x q : ℕ) → x ≡ q * 2 ^ (n + a) → (r : ℕ) × (x ≡ r * 2 ^ a)
pow-divides zero a x q e = (q, e ∙ ap (λ m. q * 2 ^ m) (omega arith))
pow-divides (suc n) a x q e =
    pow-divides n a x (q + q) (e ∙ ap (λ m. q * 2 ^ m) (omega arith) ∙ double q (n + a))

chunk_bits-fls : (ut_bits advanced rem : ℕ) → chunk_bits ut_bits advanced rem ≤ fls rem
chunk_bits-fls ut_bits advanced rem = ground arith

-- A throwaway untyped before the region, of `2 ^ bits` bytes: it does not reach into the region, and
-- it lies at a multiple of its size, where the kernel puts it.
pub chunk_bits-fits :
    (ut_bits advanced rem : ℕ)
    → 0 < rem
    → let size = 2 ^ chunk_bits ut_bits advanced rem in
      (size ≤ rem) × ((q : ℕ) × (advanced ≡ q * size))
chunk_bits-fits ut_bits advanced rem h = (
  le_trans (pow-le-pow_right (omega arith) (chunk_bits-fls ut_bits advanced rem))
      (fls_from-le 64 rem h),
  elim (Bool-cases (advanced == 0)) [
    | inl t ↦ (0, (==_iff advanced 0).0 t ∙ omega arith)
    | inr t ↦
        let (q, e) = ctz_from-divides 64 advanced in
        let c = chunk_bits ut_bits advanced rem in
        let small : c ≤ ctz advanced = ground arith in
        pow-divides (ctz advanced - c) c advanced q (e ∙ ap (λ n. q * 2 ^ n) (omega arith))
  ],
)

module _ {K : Type 0} (kernel : Kernel K) (objects : Objects) where
  -- The loop ends, at a failure of the kernel or exactly at the offset of the region: as many turns as
  -- bytes are missing, and one, are enough.
  pub skip_ends :
      (fuel ut ut_bits advanced offset : ℕ) (k : K)
      → advanced ≤ offset
      → offset - advanced < fuel
      → (k' : K) × ((skip kernel objects fuel ut ut_bits advanced offset k ≡ some (none, k'))
          ⊎ (skip kernel objects fuel ut ut_bits advanced offset k ≡ some (some offset, k')))
  unfolding skip
  skip_ends zero ut ut_bits advanced offset k h l = absurd (omega arith)
  skip_ends (suc fuel) ut ut_bits advanced offset k h l = elim (Bool-cases (ltb advanced offset)) [
    | inr t ↦ (k, inr (rw t (ap (λ (a : ℕ). some (some a, k)) (ground arith))))
    | inl t ↦
        elim (Option-cases (
          (retype_one kernel objects ut objects.untyped
            (chunk_bits ut_bits advanced (offset - advanced)) k).0)) [
              | inl q ↦ rw (skip, t, q) (_, inl refl)
              | inr (f, q) ↦
                  let m : advanced < offset = ground arith in
                  let c = chunk_bits ut_bits advanced (offset - advanced) in
                  let fits : 2 ^ c ≤ offset - advanced =
                    (chunk_bits-fits ut_bits advanced (offset - advanced) (omega arith)).0 in
                  let some_bytes : 1 ≤ 2 ^ c = one-le-pow c 2 (omega arith) in
                  rw (skip, t, q)
                    (skip_ends fuel ut ut_bits (advanced + 2 ^ c) offset
                      (retype_one kernel objects ut objects.untyped c k).1 (omega arith)
                      (omega arith))
            ]
  ]
