-- ===== src/Mem/Entries.antt =====
-- taskman/mem/mmap.c: what the searches and removals of the tracker do to its entries.
use lq.Base.{
  ℕ, zero, suc, ◌+◌, ◌-◌, ◌<◌, ◌≡◌, ◌≢◌, refl, ap, subst, ◌∙◌, none, some, List, [], ◌∷◌, ◌++◌,
  arith, ◌==◌, ==_iff, unequal, length, get_elem?, set, take, Bool-cases, eq_or_ne, inl, inr, ◌⊎◌,
  length-append, length-set, if◌then◌else◌,
}
use lq.Mem.Space.{Page}
use lq.Mem.Unmap.{find_mmap_idx, swap_last}

abbrev pub total : (Page → ℕ) → List Page → ℕ
total w [] = 0
total w (p ∷ ps) = w p + total w ps

abbrev pub at : ℕ → Page → ℕ
at va p = if p.va == va then 1 else 0

-- How many entries have the address `va`.
abbrev pub occ : ℕ → List Page → ℕ
occ va = total (at va)

pub total-append : (w : Page → ℕ) (ps qs : List Page) → total w (ps ++ qs) ≡ total w ps + total w qs
total-append w [] qs = omega arith
total-append w (p ∷ ps) qs = omega (arith, total-append w ps qs)

pub find_mmap_idx-occ :
    (va : ℕ) (ps : List Page)
    → ((find_mmap_idx va ps ≡ none) × (occ va ps ≡ 0))
      ⊎ ((i : ℕ) × (p : Page) × (find_mmap_idx va ps ≡ some (i, p))
          × (p.va ≡ va)
          × (get_elem? ps i ≡ some p))
unfolding find_mmap_idx
find_mmap_idx-occ va [] = inl (refl, refl)
find_mmap_idx-occ va (p ∷ ps) = elim (Bool-cases (p.va == va)) [
  | inl t ↦ rw t (inr (0, p, refl, (==_iff p.va va).0 t, refl))
  | inr t ↦ elim (find_mmap_idx-occ va ps) [
    | inl (q, z) ↦ rw (t, q) (inl (refl, omega arith))
    | inr (i, p', q, e, g) ↦ rw (t, q) (inr (suc i, p', refl, e, g))
  ]
]

pub get_elem?-lt {ℓ} :
    {A : Type ℓ} (xs : List A) (i : ℕ) (a : A) → get_elem? xs i ≡ some a → i < length xs
get_elem?-lt [] i a h = absurd (ground (arith, h))
get_elem?-lt (x ∷ xs) zero a h = omega arith
get_elem?-lt (x ∷ xs) (suc i) a h = omega (arith, get_elem?-lt xs i a h)

get_elem?-some {ℓ} :
    {A : Type ℓ} (xs : List A) (i : ℕ) → i < length xs → (a : A) × (get_elem? xs i ≡ some a)
get_elem?-some [] i h = absurd (omega arith)
get_elem?-some (x ∷ xs) zero h = (x, refl)
get_elem?-some (x ∷ xs) (suc i) h = get_elem?-some xs i (omega arith)

get_elem?-set_ne {ℓ} :
    {A : Type ℓ} (xs : List A) (i j : ℕ) (v : A) → i ≢ j → get_elem? (set xs i v) j ≡ get_elem? xs j
get_elem?-set_ne [] i j v h = refl
get_elem?-set_ne (x ∷ xs) zero zero v h = absurd (h refl)
get_elem?-set_ne (x ∷ xs) zero (suc j) v h = refl
get_elem?-set_ne (x ∷ xs) (suc i) zero v h = refl
get_elem?-set_ne (x ∷ xs) (suc i) (suc j) v h = get_elem?-set_ne xs i j v (λ e. h (ap suc e))

total-set :
    (w : Page → ℕ) (ps : List Page) (i : ℕ) (p q : Page)
    → get_elem? ps i ≡ some p
    → total w (set ps i q) + w p ≡ total w ps + w q
total-set w [] i p q h = absurd (ground (arith, h))
total-set w (x ∷ ps) zero p q h = ground arith
total-set w (x ∷ ps) (suc i) p q h = omega (arith, total-set w ps i p q h)

total-take :
    (w : Page → ℕ) (ps : List Page) (n : ℕ) (z : Page)
    → length ps ≡ suc n
    → get_elem? ps n ≡ some z
    → total w (take n ps) + w z ≡ total w ps
total-take w [] n z l h = absurd (ground (arith, h))
total-take w (x ∷ []) zero z l h = ground arith
total-take w (x ∷ y ∷ ps) zero z l h = absurd (omega arith)
total-take w (x ∷ ps) (suc n) z l h = omega (arith, total-take w ps n z (omega arith) h)

-- With the last entry `z` at hand.
swap_last_eq :
    (i : ℕ) (ps : List Page) (z : Page)
    → get_elem? ps (length ps - 1) ≡ some z
    → swap_last i ps ≡ take (length ps - 1) (if i == length ps - 1 then ps else set ps i z)
unfolding swap_last
swap_last_eq i ps z h = rw (swap_last, h) refl

-- `swap_last` takes out the entry at the index, and no other.
pub total-swap_last :
    (w : Page → ℕ) (ps : List Page) (i : ℕ) (p : Page)
    → get_elem? ps i ≡ some p
    → total w (swap_last i ps) + w p ≡ total w ps
total-swap_last w ps i p h =
    let m = length ps - 1 in
    let k : i < length ps = get_elem?-lt ps i p h in
    let (z, q) = get_elem?-some ps m (omega arith) in
    elim (eq_or_ne i m) [
      | inl t ↦
          rw (swap_last_eq i ps z q, (==_iff i m).1 t)
            (total-take w ps m p (omega arith) (subst (λ j. get_elem? ps j ≡ some p) t h))
      | inr t ↦
          rw (swap_last_eq i ps z q, unequal i m t)
            (omega (
              arith,
              total-set w ps i p z h,
              total-take w (set ps i z) m z (omega (arith, length-set ps i z))
                  (get_elem?-set_ne ps i m z t ∙ q),
            ))
    ]

swap_last-cons :
    (i : ℕ) (p : Page) (ps : List Page)
    → 0 < length ps
    → swap_last (suc i) (p ∷ ps) ≡ p ∷ swap_last i ps
swap_last-cons i p ps h =
    let m = length ps - 1 in
    let e : length (p ∷ ps) - 1 ≡ suc m = omega arith in
    let (z, q) = get_elem?-some ps m (omega arith) in
    rw (swap_last_eq (suc i) (p ∷ ps) z (ap (get_elem? (p ∷ ps)) e ∙ q), swap_last_eq i ps z q)
      (rw e (elim (eq_or_ne i m) [
        | inl t ↦ rw ((==_iff (suc i) (suc m)).1 (ap suc t), (==_iff i m).1 t) refl
        | inr t ↦ rw (unequal (suc i) (suc m) (λ f. t (omega arith)), unequal i m t) refl
      ]))

-- A removal in the second part of a list leaves the first one.
pub swap_last-append :
    (ps qs : List Page) (i : ℕ)
    → 0 < length qs
    → swap_last (length ps + i) (ps ++ qs) ≡ ps ++ swap_last i qs
swap_last-append [] qs i h = ap (λ j. swap_last j qs) (omega arith)
swap_last-append (p ∷ ps) qs i h =
    ap (λ j. swap_last j (p ∷ (ps ++ qs))) (omega arith)
    ∙ swap_last-cons (length ps + i) p (ps ++ qs) (omega (arith, length-append ps qs))
    ∙ ap (λ xs. p ∷ xs) (swap_last-append ps qs i h)
