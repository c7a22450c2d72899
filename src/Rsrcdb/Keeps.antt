-- ===== src/Rsrcdb/Keeps.antt =====
-- Every operation of the database keeps its invariant and loses no pool entry.
pub mod Calls
pub mod Attach
pub mod Release
pub mod Sweep
use lq.Base.{
  ℕ, zero, suc, ◌+◌, ◌-◌, ◌≤◌, ◌<◌, ◌≡◌, refl, sym, ap, subst, ◌∙◌, ==_iff, Bool, true, false, List,
  [], ◌∷◌, ◌++◌, arith, ◌==◌, ◌&&◌, if◌then◌else◌, Option, some, none, ltb, leb, Bool-cases, inl,
  inr, ok, err, Option-cases, Status, length, ◌||◌, ◌^◌,
}
use lq.Rsrcdb.Entry.{
  Abi, Entry, Request, Alloc, blank, modify, remove_id, insert_sorted, merge_list, find, find_fit,
  fit, is_range, is_free,
}
use lq.Rsrcdb.Totals.{
  has_id, occ, total, total_ids, In, In-occ, Distinct, find-In, All, All-In, FreeAt,
}
use lq.Rsrcdb.Listed.{Listed, Listed-class, Stays}
use lq.Rsrcdb.Db.{
  Db, update, update_self, on_class, pool_alloc, pool_free, merge_neighbours, list_insert,
  list_remove, carve,
}
use lq.Rsrcdb.Sums.{
  db_total, db_total-on_class, db_total-pool_alloc, db_total-list_insert, db_total-drop,
}
use lq.Rsrcdb.Carve.{carve-fail}
use lq.Rsrcdb.Inv.{
  at, occurrences, Lists, Inv, Inv-Distinct, list_insert-Lists, modify-Lists, list_remove-Lists,
  merge-Lists, carve-Lists, occurrences-merge, occurrences-carve,
}

none-FreeAt : (i : ℕ) (xs : List Entry) → occ i xs ≡ 0 → FreeAt i xs
none-FreeAt i [] h = tt
none-FreeAt i (x ∷ xs) h = ((λ p. ground arith), none-FreeAt i xs (ground arith))

In-FreeAt : (e : Entry) (xs : List Entry) → e.owner ≡ 0 → In e xs → Distinct xs → FreeAt e.id xs
In-FreeAt e [] f h d = absurd h
In-FreeAt e (x ∷ xs) f (inl p) d = (
  (λ q. ground (arith, ap (λ (t : Entry). t.owner) p)),
  none-FreeAt e.id xs (ground (arith, ap (λ (t : Entry). t.id) p)),
)
In-FreeAt e (x ∷ xs) f (inr h) d = ((λ q. ground (arith, In-occ e xs h)), In-FreeAt e xs f h d.1)

-- A write that makes an entry free, and keeps its place.
pub record Frees (f : Entry → Entry) : Type 0 where
  pub stays : Stays f
  pub same_id : (x : Entry) → (f x).id ≡ x.id
  pub free : (x : Entry) → (f x).owner ≡ 0

pub modify-FreeAt :
    (f : Entry → Entry) (i : ℕ) (xs : List Entry) → Frees f → Distinct xs → FreeAt i (modify i f xs)
unfolding modify
modify-FreeAt f i [] k d = tt
modify-FreeAt f i (x ∷ xs) k d = elim (Bool-cases (x.id == i)) [
  | inl t ↦ rw t ((λ q. k.free x), none-FreeAt i xs (ground arith))
  | inr t ↦ rw t ((λ q. ground arith), modify-FreeAt f i xs k d.1)
]

occ-modify :
    (f : Entry → Entry) (i j : ℕ) (xs : List Entry) → Frees f → occ i (modify j f xs) ≡ occ i xs
unfolding modify
occ-modify f i j [] k = refl
occ-modify f i j (x ∷ xs) k = ground (arith, k.same_id x, occ-modify f i j xs k)

In-insert_sorted : (e : Entry) (xs : List Entry) → In e (insert_sorted e xs)
unfolding insert_sorted
In-insert_sorted e [] = inl refl
In-insert_sorted e (x ∷ xs) = elim (Bool-cases (ltb x.start e.start)) [
  | inl t ↦ rw t (inr (In-insert_sorted e xs))
  | inr t ↦ rw t (inl refl)
]

pub find_fit-In :
    (abi : Abi) (r : Request) (xs : List Entry) (e : Entry) (gs ge : ℕ)
    → find_fit abi r xs ≡ some (e, gs, ge)
    → In e xs × (fit abi r e ≡ some (gs, ge))
unfolding find_fit
find_fit-In abi r [] e gs ge h = cc
find_fit-In abi r (x ∷ xs) e gs ge h = elim (Option-cases (fit abi r x)) [
  | inl t ↦ let (m, q) = find_fit-In abi r xs e gs ge (rw (t, find_fit) at h) in (inr m, q)
  | inr ((s, u), t) ↦ ground arith
]

module _ (abi : Abi) where
  -- The invariant holds, and each pool entry occurs as often as before.
  abbrev pub Keeps : Db → Db → Type 0
  Keeps db db' = Inv abi db' × ((i : ℕ) → occurrences abi i db' ≡ occurrences abi i db)

  keeps :
      (db db' : Db)
      → Inv abi db
      → Lists abi db'
      → ((i : ℕ) → occurrences abi i db' ≡ occurrences abi i db)
      → Keeps db db'
  keeps db db' v l same = (record { listed = l; once = λ i. omega (arith, v.once i, same i) }, same)

  pub Keeps-refl : (db : Db) → Inv abi db → Keeps db db
  Keeps-refl db v = (v, λ i. refl)

  pub Keeps-trans : (a b c : Db) → Keeps a b → Keeps b c → Keeps a c
  Keeps-trans a b c p q = (q.0, λ i. q.1 i ∙ p.1 i)

  -- An entry becomes free and merges with its neighbours.
  pub free_merge-Keeps :
      (c j : ℕ) (f : Entry → Entry) (db : Db)
      → Frees f
      → c < abi.type_count
      → Inv abi db
      → Keeps db (merge_neighbours c j (on_class c (modify j f) db))
  free_merge-Keeps c j f db k b v =
      keeps db _ v (merge-Lists abi c j _ (modify-Lists abi c j f db k.stays v.listed)) (λ i.
        omega (
          arith,
          occurrences-merge abi i c j (on_class c (modify j f) db) b (
              subst (FreeAt j) (sym (update_self db.heads c (modify j f (db.heads c))))
                (modify-FreeAt f j (db.heads c) k (Inv-Distinct abi db c v b))),
          db_total-on_class (has_id i) (at i) abi.type_count c (modify j f) db b,
          occ-modify f i j (db.heads c) k,
        ))

  -- The fields that `create` fills in are all that an entry of the pool has.
  pub alloc_insert-Keeps :
      (db db' : Db) (e x : Entry)
      → pool_alloc db ≡ some (e, db')
      → x.id ≡ e.id
      → x.class < abi.type_count
      → Inv abi db
      → Keeps db (list_insert abi x db')
  alloc_insert-Keeps db db' e x h q k v =
      keeps db _ v
        (list_insert-Lists abi x db'
          (λ c b. rw ((db_total-pool_alloc (λ y. 0) (λ y. 0) 0 db e db' h).1) (v.listed c b)))
        (λ i. ground (
          arith,
          db_total-pool_alloc (has_id i) (at i) abi.type_count db e db' h,
          db_total-list_insert (has_id i) (at i) abi.type_count abi x db' k k,
        ))

  list_insert-In :
      (x : Entry) (db : Db) → x.class < abi.type_count → In x ((list_insert abi x db).heads x.class)
  unfolding list_insert
  list_insert-In x db k = elim (Bool-cases (leb abi.type_count x.class)) [
    | inl t ↦ absurd (ground arith)
    | inr t ↦ rw t (
        subst (In x) (sym (update_self db.heads x.class (insert_sorted x (db.heads x.class))))
          (In-insert_sorted x (db.heads x.class)))
  ]

  -- A new free entry merges with its neighbours.
  pub merge_new-Keeps :
      (x : Entry) (db : Db)
      → x.owner ≡ 0
      → x.class < abi.type_count
      → Inv abi (list_insert abi x db)
      → Keeps (list_insert abi x db) (merge_neighbours x.class x.id (list_insert abi x db))
  merge_new-Keeps x db f k v = keeps _ _ v (merge-Lists abi x.class x.id _ v.listed) (λ i.
      occurrences-merge abi i x.class x.id (list_insert abi x db) k
        (In-FreeAt x _ f (list_insert-In x db k) (Inv-Distinct abi _ x.class v k)))

  pub drop-Keeps :
      (e : Entry) (db : Db) (c : ℕ)
      → c < abi.type_count
      → In e (db.heads c)
      → Inv abi db
      → Keeps db (pool_free e.id (list_remove abi e db))
  unfolding pool_free
  drop-Keeps e db c k m v =
      keeps db (pool_free e.id (list_remove abi e db)) v (list_remove-Lists abi e db v.listed) (λ i.
        ground (
          arith,
          db_total-drop (has_id i) (at i) abi.type_count abi e db k' k'
              (subst (λ j. In e (db.heads j)) (sym same) m)
              (subst (λ j. Distinct (db.heads j)) (sym same) (Inv-Distinct abi db c v k)),
        ))
    where
      same : e.class ≡ c
      same = Listed-class c 0 (db.heads c) e m (v.listed c k)

      k' : e.class < abi.type_count
      k' = subst (λ j. j < abi.type_count) (sym same) k

  pub carve-Keeps :
      (e : Entry) (gs ge owner flags : ℕ) (name : List ℕ) (db db' : Db) (c : ℕ)
      → c < abi.type_count
      → In e (db.heads c)
      → Inv abi db
      → carve abi e gs ge owner flags name db ≡ (ok, db')
      → Keeps db db'
  carve-Keeps e gs ge owner flags name db db' c k m v h =
      keeps db db' v (carve-Lists abi e gs ge owner flags name db db' v.listed h) (λ i.
        occurrences-carve abi i e gs ge owner flags name db db'
          (subst (λ j. j < abi.type_count) (sym same) k)
          (subst (λ j. In e (db.heads j)) (sym same) m)
          (subst (λ j. Distinct (db.heads j)) (sym same) (Inv-Distinct abi db c v k)) h)
    where
      same : e.class ≡ c
      same = Listed-class c 0 (db.heads c) e m (v.listed c k)
