-- ===== src/Rsrcdb/Keeps/Attach.antt =====
-- `tm_rsrc_create` and `tm_rsrc_attach`, its rollback included, keep the invariant.
use lq.Base.{
  ℕ, ◌<◌, ◌≡◌, refl, sym, subst, ==_iff, List, [], ◌∷◌, ◌++◌, arith, ◌==◌, ◌&&◌, if◌then◌else◌,
  some, ltb, leb, Bool-cases, inl, inr, ok, err, Option-cases, Status, Errno, ◌⊎◌, length,
}
use lq.Rsrcdb.Entry.{Abi, Entry, Request, Alloc, find, find_fit, is_range, is_free, has_flag}
use lq.Rsrcdb.Totals.{In}
use lq.Rsrcdb.Db.{Db, pool_alloc, merge_neighbours, list_insert, carve}
use lq.Rsrcdb.Carve.{carve-fail}
use lq.Rsrcdb.Inv.{Inv}
use lq.Rsrcdb.Keeps.{
  Keeps, Keeps-refl, Keeps-trans, free_merge-Keeps, alloc_insert-Keeps, merge_new-Keeps,
  carve-Keeps, find_fit-In,
}
use lq.Rsrcdb.Keeps.Calls.{disown_Frees}
use lq.Rsrcdb.Calls.{
  Ptr, Attempt, miss, hit, class_of, create_one, create, granted_ptr, after_carve, attach_one,
  rollback, attach_loop, attach,
}

Status-cases : (s : Status) → (s ≡ ok) ⊎ ((x : Errno) × (s ≡ err x))
Status-cases ok = inl refl
Status-cases (err x) = inr (x, refl)

module _ (abi : Abi) where
  create_one-Keeps :
      (caller : ℕ) (a : Alloc) (db : Db) → Inv abi db → Keeps abi db (create_one abi caller a db).1
  unfolding create_one
  create_one-Keeps caller a db v = elim (Bool-cases (leb abi.type_count (class_of abi a.flags))) [
    | inl t ↦ rw t (Keeps-refl abi db v)
    | inr t ↦ rw t (elim (Option-cases (pool_alloc db)) [
      | inl q ↦ rw (q, create_one) (Keeps-refl abi db v)
      | inr ((e, db'), q) ↦ rw (q, create_one) (go e db' q (ground arith))
    ])
  ]
    where
      go :
          (e : Entry) (db' : Db)
          → pool_alloc db ≡ some (e, db')
          → class_of abi a.flags < abi.type_count
          → let cls = class_of abi a.flags in
            let e' : Entry = record e {
              class = cls;
              start = a.start;
              end = a.end;
              owner = if has_flag a.flags abi.flag_used then caller else 0;
            } in
            let db'' = list_insert abi e' db' in
            Keeps abi db (if is_free e' then merge_neighbours cls e'.id db'' else db'')
      go e db' q k =
          let e' : Entry = record e {
            class = class_of abi a.flags;
            start = a.start;
            end = a.end;
            owner = if has_flag a.flags abi.flag_used then caller else 0;
          } in
          let added = alloc_insert-Keeps abi db db' e e' q refl k v in
          elim (Bool-cases (is_free e')) [
            | inl f ↦ rw f (
                Keeps-trans abi db (list_insert abi e' db') _ added
                  (merge_new-Keeps abi e' db' ((==_iff e'.owner 0).0 f) k added.0))
            | inr f ↦ rw f added
          ]

  -- `tm_rsrc_create` keeps the lists sorted and filed by class on every path, and each entry of the
  -- pool in as many places as before.
  create-Keeps :
      (caller : ℕ) (as' : List Alloc) (db : Db)
      → Inv abi db
      → Keeps abi db (create abi caller as' db).1
  unfolding create
  create-Keeps caller [] db v = Keeps-refl abi db v
  create-Keeps caller (a ∷ as') db v =
      let one = create_one-Keeps caller a db v in
      elim (Status-cases (create_one abi caller a db).0) [
        | inl t ↦
            rw (t, create)
              (Keeps-trans abi db (create_one abi caller a db).1 _ one
                (create-Keeps caller as' (create_one abi caller a db).1 one.0))
        | inr (x, t) ↦ rw (t, create) one
      ]

  abbrev Filed : List Ptr → Type 0
  Filed [] = Unit {0}
  Filed (p ∷ ps) = (p.class < abi.type_count) × Filed ps

  Filed-append : (ps qs : List Ptr) → Filed ps → Filed qs → Filed (ps ++ qs)
  Filed-append [] qs f g = g
  Filed-append (p ∷ ps) qs f g = (f.0, Filed-append ps qs f.1 g)

  pub rollback-Keeps :
      (ps : List Ptr) (db : Db) → Filed ps → Inv abi db → Keeps abi db (rollback abi ps db)
  unfolding rollback
  rollback-Keeps [] db f v = Keeps-refl abi db v
  rollback-Keeps (p ∷ ps) db f v =
      let one = free_merge-Keeps abi p.class p.id _ db disown_Frees f.0 v in
      Keeps-trans abi db _ _ one (rollback-Keeps ps _ f.1 one.0)

  granted_ptr-Filed :
      (cls caller gs ge : ℕ) (db : Db)
      → cls < abi.type_count
      → Filed (granted_ptr cls caller gs ge db)
  unfolding granted_ptr
  granted_ptr-Filed cls caller gs ge db k =
      elim (Option-cases (find (λ c. c.owner == caller && is_range c gs ge) (db.heads cls))) [
        | inl t ↦ rw (t, granted_ptr) tt
        | inr (e, t) ↦ rw (t, granted_ptr) (k, tt)
      ]

  abbrev AttemptKeeps : Db → Attempt → Type 0
  AttemptKeeps db (miss db') = Keeps abi db db'
  AttemptKeeps db (hit g r db') = Keeps abi db db' × Filed g

  after_carve-Keeps :
      (caller : ℕ) (r : Request) (e : Entry) (gs ge : ℕ) (db : Db) (x : Status × Db)
      → class_of abi r.flags < abi.type_count
      → In e (db.heads (class_of abi r.flags))
      → Inv abi db
      → carve abi e gs ge caller r.flags [] db ≡ x
      → AttemptKeeps db (after_carve abi caller r gs ge x)
  unfolding after_carve
  after_carve-Keeps caller r e gs ge db (ok, db') k m v q = (
    carve-Keeps abi e gs ge caller r.flags [] db db' (class_of abi r.flags) k m v q,
    granted_ptr-Filed (class_of abi r.flags) caller gs ge db' k,
  )
  after_carve-Keeps caller r e gs ge db (err x, db') k m v q =
      subst (Keeps abi db) (sym (carve-fail abi e gs ge caller r.flags [] db db' q))
        (Keeps-refl abi db v)

  attach_one-Keeps :
      (caller : ℕ) (r : Request) (db : Db)
      → Inv abi db
      → AttemptKeeps db (attach_one abi caller r db)
  unfolding attach_one
  attach_one-Keeps caller r db v = elim (Bool-cases (leb abi.type_count cls)) [
    | inl t ↦ rw t (Keeps-refl abi db v)
    | inr t ↦ rw t (elim (Option-cases (find_fit abi r (db.heads cls))) [
      | inl q ↦ rw (q, attach_one) (Keeps-refl abi db v)
      | inr ((e, gs, ge), q) ↦
          rw (q, attach_one)
            (after_carve-Keeps caller r e gs ge db _ (ground arith)
              (find_fit-In abi r (db.heads cls) e gs ge q).0 v refl)
    ])
  ]
    where
      cls : ℕ
      cls = class_of abi r.flags

  attach_loop-Keeps :
      (caller : ℕ) (granted : List Ptr) (rs : List Request) (db : Db)
      → Filed granted
      → Inv abi db
      → Keeps abi db (attach_loop abi caller granted rs db).1
  unfolding attach_loop
  attach_loop-Keeps caller granted [] db f v = Keeps-refl abi db v
  attach_loop-Keeps caller granted (r ∷ rs) db f v =
      go (attach_one abi caller r db) refl (attach_one-Keeps caller r db v)
        (λ g db'. attach_loop-Keeps caller (granted ++ g) rs db')
    where
      go :
          (x : Attempt)
          → attach_one abi caller r db ≡ x
          → AttemptKeeps db x
          → ((g : List Ptr) (db' : Db)
              → Filed (granted ++ g)
              → Inv abi db'
              → Keeps abi db' (attach_loop abi caller (granted ++ g) rs db').1)
          → Keeps abi db (attach_loop abi caller granted (r ∷ rs) db).1
      go (miss db') q k ih =
          rw (q, attach_loop) (Keeps-trans abi db db' _ k (rollback-Keeps granted db' f k.0))
      go (hit g r' db') q k ih =
          rw (q, attach_loop)
            (Keeps-trans abi db db' _ k.0 (ih g db' (Filed-append granted g f k.1) k.0.0))

  -- `tm_rsrc_attach` keeps the lists sorted and filed by class and each entry of the pool in as many
  -- places as before, whether it grants every request or rolls back.
  pub attach-Keeps :
      (caller : ℕ) (rs : List Request) (db : Db)
      → Inv abi db
      → Keeps abi db (attach abi caller rs db).1
  unfolding attach
  attach-Keeps caller rs db v = elim (Bool-cases (ltb 16 (length rs))) [
    | inl t ↦ rw t (Keeps-refl abi db v)
    | inr t ↦ rw t (attach_loop-Keeps caller [] rs db tt v)
  ]
