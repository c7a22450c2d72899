-- ===== src/Chan/Found.antt =====
-- The search loops of taskman/proc/channel.c and connect.c, and the writes to what they find.
use lq.Base.{
  eq_or_ne, ℕ, zero, suc, ◌≡◌, ◌≢◌, refl, ap, subst, sym, ◌∙◌, Bool, true, false, none, some, List,
  [], ◌∷◌, arith, Bool-cases, inl, inr, ◌⊎◌, get_elem?, set,
}
use lq.Chan.State.{first}

module _ {ℓ} {A : Type ℓ} (p : A → Bool) where
  none-cons :
      (x : A) (xs : List A)
      → p x ≡ false
      → ((i : ℕ) (y : A) → get_elem? xs i ≡ some y → p y ≡ false)
      → (i : ℕ) (y : A) → get_elem? (x ∷ xs) i ≡ some y
      → p y ≡ false
  none-cons x xs f rest zero y h = let e : x ≡ y = ground (arith, h) in subst (λ z. p z ≡ false) e f
  none-cons x xs f rest (suc i) y h = rest i y h

  -- Either nothing passes the test, or the first thing that does is found.
  pub first-lem :
      (xs : List A)
      → ((first p xs ≡ none) × ((i : ℕ) (x : A) → get_elem? xs i ≡ some x → p x ≡ false))
        ⊎ ((i : ℕ) × (x : A) × (first p xs ≡ some (i, x))
            × (get_elem? xs i ≡ some x)
            × (p x ≡ true))
  unfolding first
  first-lem [] = inl (refl, λ i x h. absurd (ground (arith, h)))
  first-lem (x ∷ xs) = elim (Bool-cases (p x)) [
    | inl t ↦ inr (0, x, rw t refl, refl, t)
    | inr f ↦ elim (first-lem xs) [
      | inl (n, none_pass) ↦ inl (rw (f, n, first) refl, none-cons x xs f none_pass)
      | inr (i, y, e, at, t) ↦ inr (suc i, y, rw (f, e, first) refl, at, t)
    ]
  ]

module _ {ℓ} {A : Type ℓ} where
  here :
      (p : A → Bool) (y : A) (xs : List A) (i : ℕ) (x v : A)
      → p y ≡ true
      → first p (y ∷ xs) ≡ some (i, x)
      → p v ≡ true
      → first p (set (y ∷ xs) i v) ≡ some (i, v)
  unfolding first
  here p y xs zero x v s h t = rw t refl
  here p y xs (suc i) x v s h t = absurd (ground (arith, (rw s at h)))

  there :
      (p : A → Bool) (y : A) (xs : List A) (i : ℕ) (x v : A)
      → p y ≡ false
      → first p (y ∷ xs) ≡ some (i, x)
      → p v ≡ true
      → ((first p xs ≡ none) × ((i : ℕ) (x : A) → get_elem? xs i ≡ some x → p x ≡ false))
        ⊎ ((i : ℕ) × (x : A) × (first p xs ≡ some (i, x))
            × (get_elem? xs i ≡ some x)
            × (p x ≡ true))
      → ((j : ℕ) → first p xs ≡ some (j, x) → first p (set xs j v) ≡ some (j, v))
      → first p (set (y ∷ xs) i v) ≡ some (i, v)
  unfolding first
  there p y xs i x v n h t (inl (e, nope)) ih = absurd (ground (arith, (rw (n, e) at h)))
  there p y xs i x v n h t (inr (j, z, e, at, u)) ih =
      let q : some (suc j, z) ≡ some (i, x) = rw (n, e) at h in
      let a : suc j ≡ i = ground (arith, q) in
      let b : z ≡ x = ground (arith, q) in
      subst (λ k. first p (set (y ∷ xs) k v) ≡ some (k, v)) a
        (rw (n, ih j (e ∙ ap (λ m. some (j, m)) b)) refl)

  -- A write to what was found, of something that passes the test too, is found in its place.
  pub first-set :
      (p : A → Bool) (xs : List A) (i : ℕ) (x v : A)
      → first p xs ≡ some (i, x)
      → p v ≡ true
      → first p (set xs i v) ≡ some (i, v)
  unfolding first
  first-set p [] i x v h t = absurd (ground (arith, h))
  first-set p (y ∷ xs) i x v h t = elim (Bool-cases (p y)) [
    | inl s ↦ here p y xs i x v s h t
    | inr n ↦ there p y xs i x v n h t (first-lem p xs) (λ j q. first-set p xs j x v q t)
  ]

  pub get_elem?-set_self :
      (xs : List A) (i : ℕ) (x v : A) → get_elem? xs i ≡ some x → get_elem? (set xs i v) i ≡ some v
  get_elem?-set_self [] i x v h = absurd (ground (arith, h))
  get_elem?-set_self (y ∷ xs) zero x v h = refl
  get_elem?-set_self (y ∷ xs) (suc i) x v h = get_elem?-set_self xs i x v h

  pub get_elem?-set_ne :
      (xs : List A) (i j : ℕ) (v : A) → i ≢ j → get_elem? (set xs i v) j ≡ get_elem? xs j
  get_elem?-set_ne [] i j v h = refl
  get_elem?-set_ne (y ∷ xs) zero zero v h = absurd (h refl)
  get_elem?-set_ne (y ∷ xs) zero (suc j) v h = refl
  get_elem?-set_ne (y ∷ xs) (suc i) zero v h = refl
  get_elem?-set_ne (y ∷ xs) (suc i) (suc j) v h = get_elem?-set_ne xs i j v (λ e. h (ap suc e))

  -- What a list holds after a write: what was written, or what it held.
  pub get_elem?-set :
      (xs : List A) (i k : ℕ) (x v y : A)
      → get_elem? xs i ≡ some x
      → get_elem? (set xs i v) k ≡ some y
      → ((k ≡ i) × (y ≡ v)) ⊎ ((k ≢ i) × (get_elem? xs k ≡ some y))
  get_elem?-set xs i k x v y h e = elim (eq_or_ne k i) [
    | inl p ↦
        let there = get_elem?-set_self xs i x v h in
        let here = subst (λ m. get_elem? (set xs i v) m ≡ some y) p e in
        inl (p, ground (arith, sym here ∙ there))
    | inr n ↦ inr (n, sym (get_elem?-set_ne xs i k v (λ q. n (sym q))) ∙ e)
  ]

-- A write of what fails the test, where that stood which fails it too, is not seen by the search.
pub first-set_other {ℓ} :
    {A : Type ℓ} (p : A → Bool) (xs : List A) (i : ℕ) (x v : A)
    → get_elem? xs i ≡ some x
    → p x ≡ false
    → p v ≡ false
    → first p (set xs i v) ≡ first p xs
unfolding first
first-set_other p [] i x v h f g = refl
first-set_other p (y ∷ xs) zero x v h f g =
    let e : y ≡ x = ground (arith, h) in
    let f' : p y ≡ false = subst (λ z. p z ≡ false) (sym e) f in rw (g, f') refl
first-set_other p (y ∷ xs) (suc i) x v h f g = rw (first-set_other p xs i x v h f g) refl
