-- ===== src/Rsrcdb/Inv.antt =====
-- The invariant of the database: sorted class lists, and each entry of the pool in one place.
use lq.Base.{
  ℕ, ◌≤◌, ◌<◌, ◌≡◌, refl, ==_iff, List, [], ◌∷◌, arith, ◌==◌, if◌then◌else◌, ltb, leb, Bool-cases,
  inl, inr, ok,
}
use lq.Rsrcdb.Entry.{Abi, Entry, modify, remove_id, insert_sorted, merge_list}
use lq.Rsrcdb.Totals.{has_id, In, Distinct, Distinct-of_occ, All, Additive, FreeAt}
use lq.Rsrcdb.Listed.{
  Listed, Stays, insert_sorted-Listed, remove_id-Listed, modify-Listed, merge_list-Listed,
}
use lq.Rsrcdb.Db.{
  Db, on_class, pool_free, merge_neighbours, list_insert, list_remove, shrink, carve, carved_entry,
  right_entry,
}
use lq.Rsrcdb.Sums.{db_total, total-le-sum_below, db_total-merge}
use lq.Rsrcdb.Carve.{Took, carve-Took, carve-total}

-- 1 at the id `i`.
abbrev pub at : ℕ → ℕ → ℕ
at i j = if j == i then 1 else 0

-- An id weighs the same on an entry and on its pointer.
pub occ_Additive : (i : ℕ) → Additive (λ e. Unit {0}) (has_id i) (at i)
occ_Additive i = record { stays = λ e r p q h. tt; adds = λ e r p q h. refl }

pub All-unit : (xs : List Entry) → All (λ e. Unit {0}) xs
All-unit [] = tt
All-unit (x ∷ xs) = (tt, All-unit xs)

module _ (abi : Abi) where
  -- How often the pool entry `i` stands in the free list or in a class list.
  abbrev pub occurrences : ℕ → Db → ℕ
  occurrences i = db_total (has_id i) (at i) abi.type_count

  abbrev pub Lists : Db → Type 0
  Lists db = (c : ℕ) → c < abi.type_count → Listed c 0 (db.heads c)

  pub record Inv (db : Db) : Type 0 where
    pub listed : Lists db
    pub once : (i : ℕ) → occurrences i db ≤ 1

  pub Inv-Distinct : (db : Db) (c : ℕ) → Inv db → c < abi.type_count → Distinct (db.heads c)
  Inv-Distinct db c v k =
      Distinct-of_occ (db.heads c)
        (λ i. omega (arith, total-le-sum_below (has_id i) abi.type_count c db.heads k, v.once i))

  on_class-Lists :
      (db : Db) (c : ℕ) (f : List Entry → List Entry)
      → Lists db
      → (c < abi.type_count → Listed c 0 (f (db.heads c)))
      → Lists (on_class c f db)
  on_class-Lists db c f l h k b = elim (Bool-cases (k == c)) [
    | inl t ↦ rw t (let e : k ≡ c = (==_iff k c).0 t in rw e (h (rw e at b)))
    | inr t ↦ rw t (l k b)
  ]

  pub list_insert-Lists : (e : Entry) (db : Db) → Lists db → Lists (list_insert abi e db)
  unfolding list_insert
  list_insert-Lists e db l = elim (Bool-cases (leb abi.type_count e.class)) [
    | inl t ↦ rw t l
    | inr t ↦ rw t (
        on_class-Lists db e.class (insert_sorted e) l
          (λ k. insert_sorted-Listed e.class 0 e (db.heads e.class) (omega arith) refl (l _ k)))
  ]

  pub modify-Lists :
      (c i : ℕ) (f : Entry → Entry) (db : Db)
      → Stays f
      → Lists db
      → Lists (on_class c (modify i f) db)
  modify-Lists c i f db s l =
      on_class-Lists db c (modify i f) l (λ k. modify-Listed c 0 i f (db.heads c) s (l c k))

  pub list_remove-Lists : (e : Entry) (db : Db) → Lists db → Lists (list_remove abi e db)
  unfolding list_remove
  list_remove-Lists e db l = elim (Bool-cases (leb abi.type_count e.class)) [
    | inl t ↦ rw t l
    | inr t ↦ rw t (
        on_class-Lists db e.class (remove_id e.id) l
          (λ k. remove_id-Listed e.class 0 e.id (db.heads e.class) (l _ k)))
  ]

  pub merge-Lists : (c i : ℕ) (db : Db) → Lists db → Lists (merge_neighbours c i db)
  unfolding merge_neighbours
  merge-Lists c i db l =
      on_class-Lists db c (λ xs. (merge_list i xs).0) l
        (λ k. merge_list-Listed c 0 i (db.heads c) (l c k))

  shrink-Lists : (e : Entry) (gs : ℕ) (db : Db) → Lists db → Lists (shrink abi e gs db)
  unfolding shrink pool_free
  shrink-Lists e gs db l = elim (Bool-cases (ltb e.start gs)) [
    | inl t ↦ rw t (modify-Lists e.class e.id _ db (λ x. (refl, refl)) l)
    | inr t ↦ rw t (list_remove-Lists e db l)
  ]

  pub carve-Lists :
      (e : Entry) (gs ge owner flags : ℕ) (name : List ℕ) (db db' : Db)
      → Lists db
      → carve abi e gs ge owner flags name db ≡ (ok, db')
      → Lists db'
  carve-Lists e gs ge owner flags name db db' l h =
      go (carve-Took abi e gs ge owner flags name db db' h)
    where
      go : Took abi e gs ge owner flags name db db' → Lists db'
      go t =
          let db0 : Db = record db { free_list = t.rest } in
          let carved =
            list_insert-Lists (carved_entry abi e gs ge owner flags name t.x) (shrink abi e gs db0)
              (shrink-Lists e gs db0 l) in
          rw t.result (elim (Bool-cases (ltb ge e.end)) [
            | inl b ↦ rw b (list_insert-Lists (right_entry abi e ge t.y) _ carved)
            | inr b ↦ rw b carved
          ])

  pub occurrences-merge :
      (i c j : ℕ) (db : Db)
      → c < abi.type_count
      → FreeAt j (db.heads c)
      → occurrences i (merge_neighbours c j db) ≡ occurrences i db
  occurrences-merge i c j db k f =
      db_total-merge (has_id i) (at i) abi.type_count (λ e. Unit {0}) (occ_Additive i) c j db k
        (All-unit (db.heads c)) f

  pub occurrences-carve :
      (i : ℕ) (e : Entry) (gs ge owner flags : ℕ) (name : List ℕ) (db db' : Db)
      → e.class < abi.type_count
      → In e (db.heads e.class)
      → Distinct (db.heads e.class)
      → carve abi e gs ge owner flags name db ≡ (ok, db')
      → occurrences i db' ≡ occurrences i db
  occurrences-carve i e gs ge owner flags name db db' k m d h = omega (
    arith,
    carve-total abi e gs ge owner flags name (has_id i) (at i) 0 0 db db' (λ x y. ground arith) k m
        d h,
  )
