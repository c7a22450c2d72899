-- ===== src/Rsrcdb/Totals.antt =====
-- Sums over a class list: how each walk of rsrcdb.c changes the total of a weight of its entries.
-- The occurrences of an id, and the entries that cover an address, are such totals.
use lq.Base.{
  ℕ, ◌+◌, ◌≤◌, ◌<◌, ◌≡◌, refl, ap, subst, ◌⊎◌, inl, inr, Bool, true, ◌&&◌, some, List, [], ◌∷◌,
  ◌++◌, arith, ◌==◌, ==_iff, Bool-cases, if◌then◌else◌, add64,
}
use lq.Rsrcdb.Entry.{
  Entry, Merged, is_free, insert_sorted, remove_id, modify, find, merge_right, merge_left,
  keep_head, merge_after, merge_list,
}

abbrev pub total : (Entry → ℕ) → List Entry → ℕ
total w [] = 0
total w (x ∷ xs) = w x + total w xs

abbrev pub has_id : ℕ → Entry → ℕ
has_id i x = if x.id == i then 1 else 0

abbrev pub occ : ℕ → List Entry → ℕ
occ i = total (has_id i)

abbrev pub count : ℕ → List ℕ → ℕ
count i [] = 0
count i (j ∷ js) = (if j == i then 1 else 0) + count i js

pub count-append : (i : ℕ) (xs ys : List ℕ) → count i (xs ++ ys) ≡ count i xs + count i ys
count-append i [] ys = omega arith
count-append i (x ∷ xs) ys = ground (arith, count-append i xs ys)

-- The pointer `e` leads into the list.
abbrev pub In : Entry → List Entry → Type 0
In e [] = ⊥
In e (x ∷ xs) = (x ≡ e) ⊎ In e xs

abbrev pub Distinct : List Entry → Type 0
Distinct [] = Unit {0}
Distinct (x ∷ xs) = (occ x.id xs ≡ 0) × Distinct xs

pub In-occ : (e : Entry) (xs : List Entry) → In e xs → 0 < occ e.id xs
In-occ e [] h = absurd h
In-occ e (x ∷ xs) (inl p) = ground (arith, ap (λ (t : Entry). t.id) p)
In-occ e (x ∷ xs) (inr h) = omega (arith, In-occ e xs h)

pub Distinct-of_occ : (xs : List Entry) → ((i : ℕ) → occ i xs ≤ 1) → Distinct xs
Distinct-of_occ [] h = tt
Distinct-of_occ (x ∷ xs) h = (ground (arith, h x.id), Distinct-of_occ xs (λ i. omega (arith, h i)))

pub find-In :
    (p : Entry → Bool) (xs : List Entry) (e : Entry) → find p xs ≡ some e → In e xs × (p e ≡ true)
unfolding find
find-In p [] e h = cc
find-In p (x ∷ xs) e h = elim (Bool-cases (p x)) [
  | inl t ↦ ground (arith)
  | inr f ↦ ground (arith, find-In p xs e)
]

module _ (w : Entry → ℕ) where
  pub total-insert_sorted :
      (e : Entry) (xs : List Entry) → total w (insert_sorted e xs) ≡ w e + total w xs
  unfolding insert_sorted
  total-insert_sorted e [] = refl
  total-insert_sorted e (x ∷ xs) = ground (arith, total-insert_sorted e xs)

  pub total-remove_id :
      (e : Entry) (xs : List Entry)
      → In e xs
      → Distinct xs
      → total w (remove_id e.id xs) + w e ≡ total w xs
  unfolding remove_id
  total-remove_id e [] h d = absurd h
  total-remove_id e (x ∷ xs) (inl p) d = ground (arith, ap (λ (t : Entry). t.id) p, ap w p)
  total-remove_id e (x ∷ xs) (inr h) d = ground (arith, In-occ e xs h, total-remove_id e xs h d.1)

  pub total-modify :
      (f : Entry → Entry) (e : Entry) (xs : List Entry)
      → In e xs
      → Distinct xs
      → total w (modify e.id f xs) + w e ≡ total w xs + w (f e)
  unfolding modify
  total-modify f e [] h d = absurd h
  total-modify f e (x ∷ xs) (inl p) d =
      ground (arith, ap (λ (t : Entry). t.id) p, ap w p, ap (λ t. w (f t)) p)
  total-modify f e (x ∷ xs) (inr h) d = ground (arith, In-occ e xs h, total-modify f e xs h d.1)

abbrev pub All : (Entry → Type 0) → List Entry → Type 0
All P [] = Unit {0}
All P (x ∷ xs) = P x × All P xs

pub All-In : (P : Entry → Type 0) (xs : List Entry) (e : Entry) → In e xs → All P xs → P e
All-In P [] e h a = absurd h
All-In P (x ∷ xs) e (inl p) a = subst P p a.0
All-In P (x ∷ xs) e (inr h) a = All-In P xs e h a.1

-- `r` is free and goes on where the free range `e` ends.
pub record Adjacent (e r : Entry) : Type 0 where
  pub free : e.owner ≡ 0
  pub next_free : r.owner ≡ 0
  pub meets : r.start ≡ add64 e.end 1

-- The weight of two ranges that become one, with the weight `v` of a pointer that goes to the pool.
pub record Additive (P : Entry → Type 0) (w : Entry → ℕ) (v : ℕ → ℕ) : Type 0 where
  pub stays : (e r : Entry) → P e → P r → Adjacent e r → P (record e { end = r.end })
  pub adds :
      (e r : Entry) → P e → P r → Adjacent e r → w (record e { end = r.end }) + v r.id ≡ w e + w r

abbrev pub total_ids : (ℕ → ℕ) → List ℕ → ℕ
total_ids v [] = 0
total_ids v (i ∷ is) = v i + total_ids v is

-- The entry `i` is free.
abbrev pub FreeAt : ℕ → List Entry → Type 0
FreeAt i = All λ x. x.id ≡ i → x.owner ≡ 0

Adjacent-of_test :
    (e r : Entry) → e.owner ≡ 0 → (is_free r && r.start == add64 e.end 1) ≡ true → Adjacent e r
Adjacent-of_test e r f t = ground arith

Adjacent-of_left_test :
    (p e : Entry) → e.owner ≡ 0 → (is_free p && add64 p.end 1 == e.start) ≡ true → Adjacent p e
Adjacent-of_left_test p e f t = ground arith

module _ (P : Entry → Type 0) (w : Entry → ℕ) (v : ℕ → ℕ) (a : Additive P w v) where
  -- What a merge gives back weighs `n`.
  abbrev Weighs : ℕ → Merged → Type 0
  Weighs n m = (total w m.0 + total_ids v m.1 ≡ n) × All P m.0

  -- The same for a list whose head is a free entry.
  abbrev HeadWeighs : ℕ → Merged → Type 0
  HeadWeighs n ([], freed) = ⊥
  HeadWeighs n (e ∷ rest, freed) =
      (e.owner ≡ 0) × (w e + total w rest + total_ids v freed ≡ n) × P e × All P rest

  merge_right-HeadWeighs :
      (e : Entry) (xs : List Entry)
      → P e
      → e.owner ≡ 0
      → All P xs
      → HeadWeighs (w e + total w xs) (merge_right e xs)
  unfolding merge_right
  merge_right-HeadWeighs e [] pe f ps = (f, omega arith, pe, tt)
  merge_right-HeadWeighs e (r ∷ rs) pe f ps =
      elim (Bool-cases (is_free r && r.start == add64 e.end 1)) [
        | inl t ↦
            let adj = Adjacent-of_test e r f t in
            rw t (f, omega (arith, a.adds e r pe ps.0 adj), a.stays e r pe ps.0 adj, ps.1)
        | inr t ↦ rw t (f, omega arith, pe, ps)
      ]

  Weighs-of_HeadWeighs : (n : ℕ) (m : Merged) → HeadWeighs n m → Weighs n m
  Weighs-of_HeadWeighs n ([], freed) h = absurd h
  Weighs-of_HeadWeighs n (e ∷ rest, freed) h = (omega arith, (h.2, h.3))

  merge_left-Weighs :
      (p : Entry) (n : ℕ) (m : Merged) → P p → HeadWeighs n m → Weighs (w p + n) (merge_left p m)
  unfolding merge_left
  merge_left-Weighs p n ([], freed) pp h = absurd h
  merge_left-Weighs p n (e ∷ rest, freed) pp h =
      elim (Bool-cases (is_free p && add64 p.end 1 == e.start)) [
        | inl t ↦
            let adj = Adjacent-of_left_test p e h.0 t in
            rw t (omega (arith, a.adds p e pp h.2 adj), (a.stays p e pp h.2 adj, h.3))
        | inr t ↦ rw t (omega arith, (pp, (h.2, h.3)))
      ]

  keep_head-Weighs :
      (p : Entry) (n : ℕ) (m : Merged) → P p → Weighs n m → Weighs (w p + n) (keep_head p m)
  keep_head-Weighs p n (xs, freed) pp h = (omega arith, (pp, h.1))

  merge_after-Weighs :
      (i : ℕ) (p : Entry) (xs : List Entry)
      → P p
      → All P xs
      → FreeAt i xs
      → Weighs (w p + total w xs) (merge_after i p xs)
  unfolding merge_after
  merge_after-Weighs i p [] pp ps f = (omega arith, (pp, tt))
  merge_after-Weighs i p (x ∷ xs) pp ps f = elim (Bool-cases (x.id == i)) [
    | inl t ↦
        rw (t, merge_after)
          (merge_left-Weighs p (w x + total w xs) (merge_right x xs) pp
            (merge_right-HeadWeighs x xs ps.0 (f.0 ((==_iff x.id i).0 t)) ps.1))
    | inr t ↦
        rw (t, merge_after)
          (keep_head-Weighs p (w x + total w xs) (merge_after i x xs) pp
            (merge_after-Weighs i x xs ps.0 ps.1 f.1))
  ]

  -- The merge of a free entry keeps the weight of the list, but for the pointers that it frees.
  pub total-merge_list :
      (i : ℕ) (xs : List Entry)
      → All P xs
      → FreeAt i xs
      → let m = merge_list i xs in (total w m.0 + total_ids v m.1 ≡ total w xs) × All P m.0
  unfolding merge_list
  total-merge_list i [] ps f = (refl, tt)
  total-merge_list i (x ∷ xs) ps f = elim (Bool-cases (x.id == i)) [
    | inl t ↦ rw t (
        Weighs-of_HeadWeighs (w x + total w xs) (merge_right x xs)
          (merge_right-HeadWeighs x xs ps.0 (f.0 ((==_iff x.id i).0 t)) ps.1))
    | inr t ↦ rw t (merge_after-Weighs i x xs ps.0 ps.1 f.1)
  ]
