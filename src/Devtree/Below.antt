-- ===== src/Devtree/Below.antt =====
-- taskman/sys/fdt.c: tests of a blob that suffice for its walks to end.
use lq.Base.{
  ℕ, false, zero, suc, ◌+◌, ◌^◌, ◌<◌, ◌≡◌, subst, Bool, true, not, ◌||◌, ◌&&◌, none, some, List,
  arith, ltb, ◌==◌, length, inl, inr,
}
use lq.Devtree.Walk.{outside, property, token, step_token}
use lq.Devtree.Ends.{Passed, start, next, Sane, lt_or_ge}

-- A test of the lengths up to an offset.
abbrev pub lengths_below : List ℕ → ℕ → Bool
lengths_below blob zero = true
lengths_below blob (suc n) =
    (not (token blob n == property) || ltb (token blob (n + 4)) (2 ^ 30)) && lengths_below blob n

lengths_below-at :
    (blob : List ℕ) (n off : ℕ)
    → lengths_below blob n ≡ true
    → off < n
    → token blob off ≡ property
    → token blob (off + 4) < 2 ^ 30
lengths_below-at blob zero off h l t = absurd (omega arith)
lengths_below-at blob (suc n) off h l t = elim (lt_or_ge off n) [
  | inl m ↦ lengths_below-at blob n off (ground (arith, h)) m t
  | inr g ↦
      let e : n ≡ off = omega arith in
      let h' : (not (token blob n == property) || ltb (token blob (n + 4)) (2 ^ 30)) ≡ true =
        ground (arith, h) in
      let h'' =
        subst (λ i. (not (token blob i == property) || ltb (token blob (i + 4)) (2 ^ 30)) ≡ true) e
          h' in
      ground (arith, h'', t)
]

module _ (blob : List ℕ) where
  -- A test of the steps from the offsets below `n`, for tokens or not.
  abbrev pub steps_below : ℕ → Bool
  steps_below zero = true
  steps_below (suc n) =
      let stays : Bool = elim (step_token blob n) [
        | none ↦ true
        | some off' ↦ not (outside blob off')
      ] in
      (outside blob n || stays) && steps_below n

  steps_below-at :
      (n off off' : ℕ)
      → steps_below n ≡ true
      → off < n
      → outside blob off ≡ false
      → step_token blob off ≡ some off'
      → outside blob off' ≡ false
  steps_below-at zero off off' h l i t = absurd (omega arith)
  steps_below-at (suc n) off off' h l i t = elim (lt_or_ge off n) [
    | inl m ↦ steps_below-at n off off' (ground (arith, h)) m i t
    | inr g ↦
        let e : n ≡ off = omega arith in
        let h' : steps_below (suc off) ≡ true = subst (λ k. steps_below (suc k) ≡ true) e h in
        ground (arith, (rw (i, t) at h'))
  ]

  steps_below-Passed :
      (node off : ℕ)
      → steps_below (length blob) ≡ true
      → outside blob node ≡ false
      → Passed blob node off
      → outside blob off ≡ false
  steps_below-Passed node off h i start = i
  steps_below-Passed node off' h i (next {off = off} w t) =
      let i' = steps_below-Passed node off h i w in
      steps_below-at (length blob) off off' h (ground (arith, i')) i' t

  -- Two tests that suffice for `Sane`.
  pub below-Sane :
      (node : ℕ)
      → length blob < 2 ^ 30
      → lengths_below blob (length blob) ≡ true
      → steps_below (length blob) ≡ true
      → outside blob node ≡ false
      → Sane blob node
  below-Sane node s h k i = record {
    size = s;
    inside = λ off w. let o = steps_below-Passed node off k i w in ground (arith, o);
    lengths = λ off w t.
        let o = steps_below-Passed node off k i w in
        lengths_below-at blob (length blob) off h (ground (arith, o)) t;
  }
