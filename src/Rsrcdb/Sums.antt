-- ===== src/Rsrcdb/Sums.antt =====
-- Totals over the whole database: the class lists below `n`, and the ids in the pool.
use lq.Base.{
  ℕ, zero, suc, ◌+◌, ◌≤◌, ◌<◌, ◌≡◌, refl, ap, ==_iff, List, [], ◌∷◌, ◌++◌, arith, ◌==◌, some,
  Bool-cases, inl, inr,
}
use lq.Rsrcdb.Entry.{Entry, insert_sorted, remove_id, modify, merge_list, blank}
use lq.Rsrcdb.Totals.{
  total, total_ids, In, Distinct, All, FreeAt, Additive, total-insert_sorted, total-remove_id,
  total-modify, total-merge_list,
}
use lq.Rsrcdb.Db.{
  Db, update, on_class, pool_alloc, pool_free, merge_neighbours, list_insert, list_remove,
}
use lq.Rsrcdb.Entry.{Abi}

abbrev pub sum_below : ℕ → (ℕ → ℕ) → ℕ
sum_below zero g = 0
sum_below (suc n) g = g n + sum_below n g

-- The weight of every entry of a class below `n`, and of every pointer of the pool.
abbrev pub db_total : (Entry → ℕ) → (ℕ → ℕ) → ℕ → Db → ℕ
db_total w v n db = total_ids v db.free_list + sum_below n (λ c. total w (db.heads c))

pub total_ids-append :
    (v : ℕ → ℕ) (xs ys : List ℕ) → total_ids v (xs ++ ys) ≡ total_ids v xs + total_ids v ys
total_ids-append v [] ys = omega arith
total_ids-append v (x ∷ xs) ys = omega (arith, total_ids-append v xs ys)

module _ (w : Entry → ℕ) where
  sum_below-update_above :
      (n c : ℕ) (h : ℕ → List Entry) (xs : List Entry)
      → n ≤ c
      → sum_below n (λ k. total w (update h c xs k)) ≡ sum_below n (λ k. total w (h k))
  sum_below-update_above zero c h xs l = refl
  sum_below-update_above (suc n) c h xs l =
      ground (arith, sum_below-update_above n c h xs (omega arith))

  pub sum_below-update :
      (n c : ℕ) (h : ℕ → List Entry) (xs : List Entry)
      → c < n
      → sum_below n (λ k. total w (update h c xs k)) + total w (h c)
        ≡ sum_below n (λ k. total w (h k)) + total w xs
  sum_below-update zero c h xs l = absurd (omega arith)
  sum_below-update (suc n) c h xs l = elim (Bool-cases (n == c)) [
    | inl t ↦
        ground (arith, sum_below-update_above n c h xs, ap (λ k. total w (h k)) ((==_iff n c).0 t))
    | inr t ↦ ground (arith, sum_below-update n c h xs)
  ]

  pub total-le-sum_below :
      (n c : ℕ) (h : ℕ → List Entry) → c < n → total w (h c) ≤ sum_below n (λ k. total w (h k))
  total-le-sum_below zero c h l = absurd (omega arith)
  total-le-sum_below (suc n) c h l = elim (Bool-cases (n == c)) [
    | inl t ↦ ground (arith, ap (λ k. total w (h k)) ((==_iff n c).0 t))
    | inr t ↦ ground (arith, total-le-sum_below n c h)
  ]

-- The changes of the database, by what they do to a weight.
module _ (w : Entry → ℕ) (v : ℕ → ℕ) (n : ℕ) where
  pub db_total-on_class :
      (c : ℕ) (f : List Entry → List Entry) (db : Db)
      → c < n
      → db_total w v n (on_class c f db) + total w (db.heads c)
        ≡ db_total w v n db + total w (f (db.heads c))
  db_total-on_class c f db l = omega (arith, sum_below-update w n c db.heads (f (db.heads c)) l)

  pub db_total-modify :
      (c : ℕ) (f : Entry → Entry) (e : Entry) (db : Db)
      → c < n
      → In e (db.heads c)
      → Distinct (db.heads c)
      → db_total w v n (on_class c (modify e.id f) db) + w e ≡ db_total w v n db + w (f e)
  db_total-modify c f e db l i d =
      omega (arith, db_total-on_class c (modify e.id f) db l, total-modify w f e (db.heads c) i d)

  pub db_total-list_insert :
      (abi : Abi) (e : Entry) (db : Db)
      → e.class < abi.type_count
      → e.class < n
      → db_total w v n (list_insert abi e db) ≡ db_total w v n db + w e
  unfolding list_insert
  db_total-list_insert abi e db k l = ground (
    arith,
    db_total-on_class e.class (insert_sorted e) db l,
    total-insert_sorted w e (db.heads e.class),
  )

  -- The entry `e` leaves its list for the pool.
  pub db_total-drop :
      (abi : Abi) (e : Entry) (db : Db)
      → e.class < abi.type_count
      → e.class < n
      → In e (db.heads e.class)
      → Distinct (db.heads e.class)
      → db_total w v n (pool_free e.id (list_remove abi e db)) + w e ≡ db_total w v n db + v e.id
  unfolding list_remove pool_free
  db_total-drop abi e db k l i d = ground (
    arith,
    db_total-on_class e.class (remove_id e.id) db l,
    total-remove_id w e (db.heads e.class) i d,
  )

  pub db_total-pool_alloc :
      (db : Db) (e : Entry) (db' : Db)
      → pool_alloc db ≡ some (e, db')
      → (db_total w v n db' + v e.id ≡ db_total w v n db)
        × (db'.heads ≡ db.heads)
        × (e ≡ blank e.id)
  unfolding pool_alloc
  db_total-pool_alloc db e db' h = ground arith

  pub db_total-merge :
      (P : Entry → Type 0) (a : Additive P w v) (c i : ℕ) (db : Db)
      → c < n
      → All P (db.heads c)
      → FreeAt i (db.heads c)
      → db_total w v n (merge_neighbours c i db) ≡ db_total w v n db
  unfolding merge_neighbours
  db_total-merge P a c i db l ps f =
      let m = merge_list i (db.heads c) in
      omega (
        arith,
        sum_below-update w n c db.heads m.0 l,
        total_ids-append v m.1 db.free_list,
        total-merge_list P w v a i (db.heads c) ps f,
      )
