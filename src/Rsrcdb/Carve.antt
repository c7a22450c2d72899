-- ===== src/Rsrcdb/Carve.antt =====
-- `carve`: what it changes, in weights and in the shape of the lists.
use lq.Base.{ℕ, ◌+◌, ◌-◌, ◌<◌, ◌≡◌, List, [], ◌∷◌, arith, if◌then◌else◌, ltb, ok, err, Errno}
use lq.Rsrcdb.Entry.{Abi, Entry}
use lq.Rsrcdb.Totals.{total_ids, In, Distinct}
use lq.Rsrcdb.Db.{Db, pool_alloc, pool_free, list_insert, shrink, carve, carved_entry, right_entry}
use lq.Rsrcdb.Sums.{db_total, db_total-modify, db_total-list_insert, db_total-drop}

module _ (abi : Abi) (e : Entry) (gs ge owner flags : ℕ) (name : List ℕ) where
  -- The lists after a carve whose entries are `x` and, if a range is left on the right, `y`.
  abbrev pub Carved : Db → ℕ → ℕ → Db
  Carved db x y =
      if ltb ge e.end
      then list_insert abi (right_entry abi e ge y)
          (list_insert abi (carved_entry abi e gs ge owner flags name x) (shrink abi e gs db))
      else list_insert abi (carved_entry abi e gs ge owner flags name x) (shrink abi e gs db)

  -- A carve that succeeds takes one entry from the pool, or two.
  pub record Took (db db' : Db) : Type 0 where
    pub rest : List ℕ
    pub x : ℕ
    pub y : ℕ
    pub result : db' ≡ Carved (record db { free_list = rest }) x y
    pub paid :
        (v : ℕ → ℕ)
        → total_ids v rest + v x + (if ltb ge e.end then v y else 0) ≡ total_ids v db.free_list

  abbrev db_of : List ℕ → (ℕ → List Entry) → Db
  db_of free h = record { free_list = free; heads = h }

  Took-of_free :
      (free : List ℕ) (h : ℕ → List Entry) (db' : Db)
      → carve abi e gs ge owner flags name (db_of free h) ≡ (ok, db')
      → Took (db_of free h) db'
  unfolding carve pool_alloc
  Took-of_free [] h db' p = cc
  Took-of_free (x ∷ []) h db' p = record {
    rest = [];
    x = x;
    y = 0;
    result = ground arith;
    paid = λ v. ground arith;
  }
  Took-of_free (x ∷ y ∷ free) h db' p = record {
    rest = if ltb ge e.end then free else y ∷ free;
    x = x;
    y = y;
    result = ground arith;
    paid = λ v. ground arith;
  }

  pub carve-Took : (db db' : Db) → carve abi e gs ge owner flags name db ≡ (ok, db') → Took db db'
  carve-Took db db' h = Took-of_free db.free_list db.heads db' h

  fail_of_free :
      (free : List ℕ) (h : ℕ → List Entry) (db' : Db) {x : Errno}
      → carve abi e gs ge owner flags name (db_of free h) ≡ (err x, db')
      → db' ≡ db_of free h
  unfolding carve pool_alloc pool_free
  fail_of_free [] h db' p = ground arith
  fail_of_free (x ∷ []) h db' p = ground arith
  fail_of_free (x ∷ y ∷ free) h db' p = ground arith

  -- A carve that fails leaves the database as it was.
  pub carve-fail :
      (db db' : Db) {x : Errno} → carve abi e gs ge owner flags name db ≡ (err x, db') → db' ≡ db
  carve-fail db db' h = fail_of_free db.free_list db.heads db' h

  module _ (w : Entry → ℕ) (v : ℕ → ℕ) where
    abbrev n : ℕ
    n = abi.type_count

    -- What is left of `e`, or its pointer in the pool.
    abbrev pub left : ℕ
    left = if ltb e.start gs then w (record e { end = gs - 1 }) else v e.id

    abbrev pub right : ℕ → ℕ
    right y = if ltb ge e.end then w (right_entry abi e ge y) else 0

    shrink-total :
        (db : Db)
        → e.class < n
        → In e (db.heads e.class)
        → Distinct (db.heads e.class)
        → db_total w v n (shrink abi e gs db) + w e ≡ db_total w v n db + left
    unfolding shrink
    shrink-total db k i d = ground (
      arith,
      db_total-modify w v n e.class (λ x. record x { end = gs - 1 }) e db k i d,
      db_total-drop w v n abi e db k k i d,
    )

    -- The weight before and after, where the pieces of `e` weigh what `e` does but for `loss` and
    -- `gain`.
    pub carve-total :
        (loss gain : ℕ) (db db' : Db)
        → ((x y : ℕ)
            → left + w (carved_entry abi e gs ge owner flags name x) + right y + loss
              ≡ w e + v x + (if ltb ge e.end then v y else 0) + gain)
        → e.class < n
        → In e (db.heads e.class)
        → Distinct (db.heads e.class)
        → carve abi e gs ge owner flags name db ≡ (ok, db')
        → db_total w v n db' + loss ≡ db_total w v n db + gain
    carve-total loss gain db db' bal k i d h = go (carve-Took db db' h)
      where
        go : Took db db' → db_total w v n db' + loss ≡ db_total w v n db + gain
        go t =
            let db0 : Db = record db { free_list = t.rest } in
            let c = carved_entry abi e gs ge owner flags name t.x in
            let db1 = shrink abi e gs db0 in
            rw t.result (
              ground (
                arith,
                t.paid v,
                bal t.x t.y,
                shrink-total db0 k i d,
                db_total-list_insert w v n abi c db1 k k,
                db_total-list_insert w v n abi (right_entry abi e ge t.y) (list_insert abi c db1) k
                    k,
              ))
