-- ===== src/Rsrcdb/Calls.antt =====
-- taskman/sys/rsrcdb.c: the wire operations and the hook for a process that ends.
use lq.Base.{
  ℕ, zero, suc, ◌+◌, ◌%◌, ◌^◌, true, false, not, ◌&&◌, ◌||◌, Option, none, some, List, [], ◌∷◌,
  ◌++◌, ltb, leb, ◌==◌, if◌then◌else◌, add64, sub64, bit_and, bit_or, w16, length, Status, ok, err,
  einval, enomem, enospc,
}
use lq.Rsrcdb.Entry.{
  Abi, Entry, Request, Alloc, Merged, has_flag, is_free, is_range, find, find_fit, modify,
  merge_list,
}
use lq.Rsrcdb.Db.{
  Db, update, on_class, pool_alloc, pool_free, list_insert, list_remove, carve, merge_neighbours,
}

-- A pointer to an entry, with the class list that holds it.
pub record Ptr : Type 0 where
  pub class : ℕ
  pub id : ℕ

abbrev pub release_entry : Entry → Entry
release_entry e = record e { owner = 0; flags = 0 }

-- What `tm_rsrc_attach` does for one request: a jump to `rollback`, or a grant, with the request
-- that carries the granted range back.
pub data Attempt : Type 0 where
  miss : Db → Attempt
  hit : List Ptr → Request → Db → Attempt

-- The pointer that `tm_rsrc_attach` records for the range that it has just carved.
unfoldable pub granted_ptr : ℕ → ℕ → ℕ → ℕ → Db → List Ptr
granted_ptr cls caller gs ge db =
    elim (find (λ c. c.owner == caller && is_range c gs ge) (db.heads cls)) [
      | none ↦ []
      | some c ↦ record { class = cls; id = c.id } ∷ []
    ]

module _ (abi : Abi) where
  -- `(uint16_t)(flags & RSRCDBMGR_TYPE_MASK)`
  abbrev pub class_of : ℕ → ℕ
  class_of flags = bit_and flags abi.type_mask % w16

  unfoldable pub create_one : ℕ → Alloc → Db → Status × Db
  create_one caller a db =
      let cls = class_of a.flags in
      if leb abi.type_count cls then (err einval, db) else elim (pool_alloc db) [
        | none ↦ (err enomem, db)
        | some (e, db') ↦
            let e' = record e {
              class = cls;
              start = a.start;
              end = a.end;
              owner = if has_flag a.flags abi.flag_used then caller else 0;
            } in
            let db'' = list_insert abi e' db' in
            (ok, if is_free e' then merge_neighbours cls e'.id db'' else db'')
      ]

  -- The first failure ends the loop; what was entered before it stays.
  unfoldable pub create : ℕ → List Alloc → Db → Status × Db
  create caller [] db = (ok, db)
  create caller (a ∷ as') db =
      let (s, db') = create_one caller a db in
      elim s [ ok ↦ create caller as' db' | err e ↦ (err e, db') ]

  -- The first entry of the class with just that range goes, whoever owns it.
  unfoldable pub destroy_one : Alloc → Db → Db
  destroy_one a db = elim (find (λ e. is_range e a.start a.end) (db.heads (class_of a.flags))) [
    | none ↦ db
    | some e ↦ pool_free e.id (list_remove abi e db)
  ]

  unfoldable pub destroy : List Alloc → Db → Status × Db
  destroy [] db = (ok, db)
  destroy (a ∷ as') db =
      let rest = destroy as' (destroy_one a db) in
      if leb abi.type_count (class_of a.flags) then (err einval, db) else rest

  -- The answer to `carve`: the grant is recorded and echoed to the caller.
  unfoldable pub after_carve : ℕ → Request → ℕ → ℕ → Status × Db → Attempt
  after_carve caller r gs ge (s, db') = elim s [
    | err x ↦ miss db'
    | ok ↦
        hit (granted_ptr (class_of r.flags) caller gs ge db')
          (record r { start = gs; end = ge; length = add64 (sub64 ge gs) 1 }) db'
  ]

  unfoldable pub attach_one : ℕ → Request → Db → Attempt
  attach_one caller r db =
      let cls = class_of r.flags in
      if leb abi.type_count cls then miss db else elim (find_fit abi r (db.heads cls)) [
        | none ↦ miss db
        | some (e, gs, ge) ↦ after_carve caller r gs ge (carve abi e gs ge caller r.flags [] db)
      ]

  unfoldable pub rollback : List Ptr → Db → Db
  rollback [] db = db
  rollback (p ∷ ps) db = rollback ps (
      merge_neighbours p.class p.id
        (on_class p.class (modify p.id (λ e. record e { owner = 0 })) db))

  unfoldable pub attach_loop : ℕ → List Ptr → List Request → Db → Status × Db × List Request
  attach_loop caller granted [] db = (ok, db, [])
  attach_loop caller granted (r ∷ rs) db = elim (attach_one caller r db) [
    | miss db' ↦ (err enospc, rollback granted db', r ∷ rs)
    | hit g r' db' ↦
        let (s, db'', rs') = attach_loop caller (granted ++ g) rs db' in (s, db'', r' ∷ rs')
  ]

  unfoldable pub attach : ℕ → List Request → Db → Status × Db × List Request
  attach caller rs db =
      if ltb 16 (length rs) then (err einval, db, rs) else attach_loop caller [] rs db

  -- One request: the first entry of the caller with just that range becomes free.
  unfoldable pub detach_one : ℕ → Request → Db → Db
  detach_one caller r db =
      let cls = class_of r.flags in
      elim (find (λ e. e.owner == caller && is_range e r.start r.end) (db.heads cls)) [
        | none ↦ db
        | some e ↦ merge_neighbours cls e.id (on_class cls (modify e.id release_entry) db)
      ]

  unfoldable pub detach : ℕ → List Request → Db → Status × Db
  detach caller [] db = (ok, db)
  detach caller (r ∷ rs) db =
      let rest = detach caller rs (detach_one caller r db) in
      if leb abi.type_count (class_of r.flags) then (err einval, db) else rest

  -- A row of the answer of `tm_rsrc_query`.
  unfoldable pub row : Entry → Alloc
  row e = record {
    start = e.start;
    end = e.end;
    flags = bit_or e.class (if is_free e then 0 else abi.flag_used);
  }

  unfoldable pub query_loop : ℕ → ℕ → ℕ → ℕ → List Entry → List Alloc × ℕ
  query_loop listcnt start idx written [] = ([], written)
  query_loop listcnt start idx written (e ∷ es) = elim (ltb idx start) [
    | true ↦ query_loop listcnt start (idx + 1) written es
    | false ↦ elim (not (listcnt == 0) && leb listcnt written) [
      | true ↦ ([], written)
      | false ↦
          let (rows, n) = query_loop listcnt start (idx + 1) (written + 1) es in
          (if listcnt == 0 then rows else row e ∷ rows, n)
    ]
  ]

  -- The rows are what goes to the caller's buffer.
  unfoldable pub query : ℕ → ℕ → ℕ → Db → Status × List Alloc × ℕ
  query listcnt start type db =
      if leb abi.type_count (class_of type)
      then (err einval, [], 0)
      else let (rows, written) = query_loop listcnt start 0 0 (db.heads (class_of type)) in
        (ok, rows, written)

-- The scan of one class starts again at the head after each entry that it releases. `none` is the
-- fuel run out.
unfoldable pub release_class : ℕ → ℕ → List Entry → Option Merged
release_class zero pid xs = none
release_class (suc fuel) pid xs = elim (find (λ e. e.owner == pid) xs) [
  | none ↦ some (xs, [])
  | some e ↦
      let m = merge_list e.id (modify e.id release_entry xs) in
      elim (release_class fuel pid m.0) [ none ↦ none | some (ys, freed) ↦ some (ys, freed ++ m.1) ]
]

-- The classes `c`, `c + 1`, …, `c + n - 1`.
unfoldable pub release_from : ℕ → ℕ → ℕ → ℕ → Db → Option Db
release_from fuel pid zero c db = some db
release_from fuel pid (suc n) c db = elim (release_class fuel pid (db.heads c)) [
  | none ↦ none
  | some (ys, freed) ↦
      release_from fuel pid n (c + 1)
        (record { free_list = freed ++ db.free_list; heads = update db.heads c ys })
]

-- `pid_t` is a 32-bit pattern, negative from 2^31 on.
unfoldable pub release_pid : Abi → ℕ → ℕ → Db → Option Db
release_pid abi fuel pid db =
    if pid == 0 || leb (2 ^ 31) pid then some db else release_from fuel pid abi.type_count 0 db
