-- ===== src/Rsrcdb/Db.antt =====
-- taskman/sys/rsrcdb.c: the pool, the class lists and the helpers that change them.
use lq.Base.{
  ℕ, zero, suc, ◌-◌, ◌/◌, ◌%◌, ◌^◌, Option, none, some, List, [], ◌∷◌, ◌++◌, ltb, leb, ◌==◌,
  if◌then◌else◌, add64, bit_and, w16, Status, ok, err, enomem, ◌≡◌, ◌≢◌, refl, ==_iff, Bool-cases,
  inl, inr,
}
use lq.Rsrcdb.Entry.{Abi, Entry, blank, name_max, insert_sorted, remove_id, modify, merge_list}

-- `s_free_list` and `s_class_head`.
pub record Db : Type 0 where
  pub free_list : List ℕ
  pub heads : ℕ → List Entry

abbrev pub update {ℓ} : {A : Type ℓ} → (ℕ → A) → ℕ → A → ℕ → A
update f c v k = if k == c then v else f k

pub update_self {ℓ} : {A : Type ℓ} (f : ℕ → A) (c : ℕ) (v : A) → update f c v c ≡ v
update_self f c v = rw ((==_iff c c).1 refl)

pub update_ne {ℓ} : {A : Type ℓ} (f : ℕ → A) (c : ℕ) (v : A) (k : ℕ) → k ≢ c → update f c v k ≡ f k
update_ne f c v k h = elim (Bool-cases (k == c)) [
  | inl t ↦ absurd (h ((==_iff k c).0 t))
  | inr t ↦ rw t
]

abbrev pub pool_size : ℕ
pool_size = 256

-- The loop of `pool_init` from `i - 1` down to 0.
unfoldable pub pool_fill : ℕ → List ℕ → List ℕ
pool_fill zero free = free
pool_fill (suc i) free = pool_fill i (i ∷ free)

-- `pool_init`, and so `tm_rsrc_init`.
unfoldable pub init : Db
init = record { free_list = pool_fill pool_size []; heads = λ c. [] }

unfoldable pub pool_alloc : Db → Option (Entry × Db)
pool_alloc db = elim db.free_list [
  | [] ↦ none
  | i ∷ rest ↦ some (blank i, record db { free_list = rest })
]

unfoldable pub pool_free : ℕ → Db → Db
pool_free i db = record db { free_list = i ∷ db.free_list }

-- A change of one class list.
abbrev pub on_class : ℕ → (List Entry → List Entry) → Db → Db
on_class c f db = record db { heads = update db.heads c (f (db.heads c)) }

unfoldable pub merge_neighbours : ℕ → ℕ → Db → Db
merge_neighbours c i db =
    let m = merge_list i (db.heads c) in
    record { free_list = m.1 ++ db.free_list; heads = update db.heads c m.0 }

-- The bytes of a name up to its NUL, in a field of `room` bytes that ends in one.
unfoldable pub copy_name : ℕ → List ℕ → List ℕ
copy_name zero s = []
copy_name (suc zero) s = 0 ∷ []
copy_name (suc (suc n)) [] = 0 ∷ copy_name (suc n) []
copy_name (suc (suc n)) (c ∷ s) =
    if c == 0 then 0 ∷ copy_name (suc n) [] else c ∷ copy_name (suc n) s

module _ (abi : Abi) where
  unfoldable pub list_insert : Entry → Db → Db
  list_insert e db =
      if leb abi.type_count e.class then db else on_class e.class (insert_sorted e) db

  unfoldable pub list_remove : Entry → Db → Db
  list_remove e db = if leb abi.type_count e.class then db else on_class e.class (remove_id e.id) db

  -- `(uint16_t)((flags & RSRCDBMGR_FLAG_MASK) >> 8)`
  abbrev pub entry_flags : ℕ → ℕ
  entry_flags flags = bit_and flags abi.flag_mask / 2 ^ 8 % w16

  abbrev pub carved_entry : Entry → ℕ → ℕ → ℕ → ℕ → List ℕ → ℕ → Entry
  carved_entry e gs ge owner flags name i = record {
    id = i;
    start = gs;
    end = ge;
    owner = owner;
    class = e.class;
    flags = entry_flags flags;
    name = copy_name name_max name;
  }

  abbrev pub right_entry : Entry → ℕ → ℕ → Entry
  right_entry e ge i = record (blank i) { start = add64 ge 1; end = e.end; class = e.class }

  -- `e` shrinks to the range left of `gs`, or goes if there is none.
  unfoldable pub shrink : Entry → ℕ → Db → Db
  shrink e gs db =
      if ltb e.start gs
      then on_class e.class (modify e.id (λ x. record x { end = gs - 1 })) db
      else pool_free e.id (list_remove e db)

  -- The entries come from the pool before the list is touched. A null `name` is the empty one.
  unfoldable pub carve : Entry → ℕ → ℕ → ℕ → ℕ → List ℕ → Db → Status × Db
  carve e gs ge owner flags name db = elim (pool_alloc db) [
    | none ↦ (err enomem, db)
    | some (carved, db') ↦
        if ltb ge e.end
        then elim (pool_alloc db') [
          | none ↦ (err enomem, pool_free carved.id db')
          | some (right, db'') ↦ (
            ok,
            list_insert (right_entry e ge right.id)
                (list_insert (carved_entry e gs ge owner flags name carved.id) (shrink e gs db'')),
          )
        ]
        else (ok, list_insert (carved_entry e gs ge owner flags name carved.id) (shrink e gs db'))
  ]
