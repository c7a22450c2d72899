-- ===== src/Rsrcdb/Grant.antt =====
-- What `find_fit` grants.
use lq.Base.{
  ℕ, ◌+◌, ◌-◌, ◌≤◌, ◌<◌, ◌%◌, ◌*◌, ◌/◌, ◌≡◌, true, false, arith, some, ltb, Bool-cases, inl, inr,
  ◌^◌, w64, add64, bit_and-le, bit_and_mask,
}
use lq.Rsrcdb.Entry.{Abi, Entry, Request, align_up, align_of, fit_lo, fit_hi, span, fit, has_flag}
use native.Mathlib.Nat.{div-add-mod, mul-mod_right, mod-one, one-le-pow, mod-eq_of_lt}

align_up-le : (lo align : ℕ) → 0 < align → lo + align ≤ w64 → lo ≤ align_up lo align
unfolding align_up
align_up-le lo align p h = ground (arith, bit_and-le (add64 lo (align - 1)) (align - 1))

sub-mod_aligned : (x m : ℕ) → (x - x % m) % m ≡ 0
sub-mod_aligned x m =
    let e : x - x % m ≡ m * (x / m) = omega (arith, div-add-mod x m) in
    rw e (mul-mod_right m (x / m))

align_up_aligned : (lo k : ℕ) → align_up lo (2 ^ k) % 2 ^ k ≡ 0
unfolding align_up
align_up_aligned lo k = elim (Bool-cases (ltb 1 (2 ^ k))) [
  | inl t ↦
      rw (t, bit_and_mask k (add64 lo (2 ^ k - 1))) (sub-mod_aligned (add64 lo (2 ^ k - 1)) (2 ^ k))
  | inr t ↦
      let e : 2 ^ k ≡ 1 = ground (arith, one-le-pow k 2 (omega arith)) in rw (t, e) (mod-one lo)
]

module _ (abi : Abi) (r : Request) (e : Entry) {gs ge : ℕ}
    (granted : fit abi r e ≡ some (gs, ge)) where
  -- What `fit` tests.
  record Fits : Type 0 where
    is_free : e.owner ≡ 0
    start : gs ≡ align_up (fit_lo abi r e) (align_of abi r)
    end : ge ≡ add64 gs (span r)
    rises : gs ≤ ge
    inside : ge ≤ fit_hi abi r e

  fit-Fits : Fits
  unfolding fit
  fit-Fits = ground arith

  fit_lo-le : (e.start ≤ fit_lo abi r e) × (fit_hi abi r e ≤ e.end)
  fit_lo-le = ground arith

  fit_lo_range :
      has_flag r.flags abi.flag_range ≡ true → (r.start ≤ fit_lo abi r e) × (fit_hi abi r e ≤ r.end)
  fit_lo_range h = rw h (ground arith)

  span_lt : r.length < w64 → span r < w64
  span_lt l = ground arith

  align_of_pos : 0 < align_of abi r
  align_of_pos = ground arith

  -- Where the rounding up does not wrap, a granted range lies in a free entry, has the length that
  -- the request asks for (1 for a length of 0), lies in the request's range if the request has one,
  -- and starts at a multiple of the alignment if that is a power of two.
  pub fit_sound :
      fit_lo abi r e + align_of abi r ≤ w64
      → r.length < w64
      → e.end < w64
      → (e.owner ≡ 0)
        × (e.start ≤ gs)
        × (gs ≤ ge)
        × (ge ≤ e.end)
        × (ge ≡ gs + span r)
        × (has_flag r.flags abi.flag_range ≡ true → (r.start ≤ gs) × (ge ≤ r.end))
        × ((k : ℕ) → align_of abi r ≡ 2 ^ k → gs % 2 ^ k ≡ 0)
  fit_sound h l b =
      let f = fit-Fits in
      let up = align_up-le (fit_lo abi r e) (align_of abi r) align_of_pos h in
      (
        f.is_free,
        omega (arith, f.start, up, fit_lo-le),
        f.rises,
        omega (arith, f.inside, fit_lo-le),
        omega (arith, f.end, f.rises, f.inside, fit_lo-le, span_lt l),
        (λ g.
            (omega (arith, f.start, up, fit_lo_range g), omega (arith, f.inside, fit_lo_range g))),
        (λ k q. rw (f.start, q) (align_up_aligned (fit_lo abi r e) k)),
      )

align_up_wraps :
    (lo k : ℕ) → 1 < 2 ^ k → 2 ^ k ≤ w64 → lo < w64 → w64 < lo + 2 ^ k → align_up lo (2 ^ k) ≡ 0
unfolding align_up
align_up_wraps lo k one small s wraps =
    let x = add64 lo (2 ^ k - 1) in
    let below : x < 2 ^ k = omega arith in ground (arith, bit_and_mask k x, mod-eq_of_lt below)

-- The defect of the rounding: a request without the range flag, with a power of two above 1 as its
-- alignment, meets a free range at whose start the rounding wraps and whose end is not below the length
-- that is asked for, less one. The range is taken for a fit, and what is granted starts at 0, which lies
-- below the range.
pub fit_wraps :
    (abi : Abi) (r : Request) (e : Entry) (k : ℕ)
    → e.owner ≡ 0
    → has_flag r.flags abi.flag_range ≡ false
    → align_of abi r ≡ 2 ^ k
    → 1 < 2 ^ k
    → 2 ^ k ≤ w64
    → e.start < w64
    → e.start ≤ e.end
    → w64 < e.start + 2 ^ k
    → span r ≤ e.end
    → span r < w64
    → (fit abi r e ≡ some (0, span r)) × (0 < e.start)
unfolding fit
fit_wraps abi r e k f g q one small s rises wraps long fits =
    let none_range : fit_lo abi r e ≡ e.start = rw g in
    let zero : align_up (fit_lo abi r e) (align_of abi r) ≡ 0 =
      rw (none_range, q) (align_up_wraps e.start k one small s wraps) in
    (ground (arith, zero, none_range), omega (arith, wraps, small))
