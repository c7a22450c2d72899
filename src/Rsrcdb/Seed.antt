-- ===== src/Rsrcdb/Seed.antt =====
-- taskman/sys/rsrcdb.c: the memory ranges that boot puts into the database, from the tags of
-- taskman/sys/syscfg.c.
use lq.Base.{
  ℕ, zero, suc, ◌+◌, ◌*◌, ◌<◌, ◌≡◌, refl, subst, Option, none, some, List, [], ◌∷◌, ◌&&◌, arith,
  ◌==◌, if◌then◌else◌, length, take, drop, le_value, add64, sub64, Bool-cases, Option-cases, inl,
  inr,
}
use lq.Syscfg.Blob.{Config, get}
use lq.Syscfg.Build.{slice}
use lq.Rsrcdb.Entry.{Abi, Entry}
use lq.Rsrcdb.Db.{Db, pool_alloc, list_insert}
use lq.Rsrcdb.Inv.{Inv}
use lq.Rsrcdb.Keeps.{Keeps, Keeps-refl, Keeps-trans, alloc_insert-Keeps}

module _ (abi : Abi) (memory_class memory_tag : ℕ) where
  -- The body of the loop for a tag with the payload `bytes`; `none` where the pool is empty.
  unfoldable pub seed_entry : List ℕ → Db → Option Db
  seed_entry bytes db = elim (pool_alloc db) [
    | none ↦ none
    | some (e, db') ↦
        let base = le_value (slice 0 8 bytes) in
        let size = le_value (slice 8 8 bytes) in
        some (
          list_insert abi
            (record e {
              class = memory_class;
              start = base;
              end = sub64 (add64 base size) 1;
              owner = 0;
            })
            db')
  ]

  -- The branch for a tag `id`, in the loop.
  unfoldable pub seed_tag : ℕ → List ℕ → Db → Option Db
  seed_tag id bytes db =
      if id == memory_tag && length bytes == 16 then seed_entry bytes db else some db

  -- The loop over the bytes from `off` on.
  unfoldable pub seed_from : ℕ → List ℕ → Db → Db
  seed_from zero bytes db = db
  seed_from (suc fuel) (a ∷ b ∷ c ∷ d ∷ rest) db =
      let id = a + 256 * b in
      let len = c + 256 * d in
      if id == 0 then db else elim (seed_tag id (take len rest) db) [
        | none ↦ db
        | some db' ↦ seed_from fuel (drop len rest) db'
      ]
  seed_from (suc fuel) bytes db = db

  -- `tm_rsrc_seed_from_syscfg`. Each turn of the loop takes four bytes at least.
  unfoldable pub seed_from_syscfg : Config → Db → Db
  seed_from_syscfg cfg db = elim (get cfg) [
    | none ↦ db
    | some blob ↦ seed_from (length blob) blob db
  ]

  seed_entry-Keeps :
      (bytes : List ℕ) (db db' : Db)
      → memory_class < abi.type_count
      → Inv abi db
      → seed_entry bytes db ≡ some db'
      → Keeps abi db db'
  unfolding seed_entry
  seed_entry-Keeps bytes db db' k v h = elim (Option-cases (pool_alloc db)) [
    | inl q ↦ absurd (ground (arith, rw (q, seed_entry) at h))
    | inr ((e, db''), q) ↦
        let x : Entry = record e {
          class = memory_class;
          start = le_value (slice 0 8 bytes);
          end = sub64 (add64 (le_value (slice 0 8 bytes)) (le_value (slice 8 8 bytes))) 1;
          owner = 0;
        } in
        subst (Keeps abi db) (ground (arith, rw (q, seed_entry) at h))
          (alloc_insert-Keeps abi db db'' e x q refl k v)
  ]

  seed_tag-Keeps :
      (id : ℕ) (bytes : List ℕ) (db db' : Db)
      → memory_class < abi.type_count
      → Inv abi db
      → seed_tag id bytes db ≡ some db'
      → Keeps abi db db'
  unfolding seed_tag
  seed_tag-Keeps id bytes db db' k v h =
      elim (Bool-cases (id == memory_tag && length bytes == 16)) [
        | inl t ↦ seed_entry-Keeps bytes db db' k v (rw t at h)
        | inr t ↦ subst (Keeps abi db) (ground (arith, rw t at h)) (Keeps-refl abi db v)
      ]

  seed_from-Keeps :
      (fuel : ℕ) (bytes : List ℕ) (db : Db)
      → memory_class < abi.type_count
      → Inv abi db
      → Keeps abi db (seed_from fuel bytes db)
  unfolding seed_from
  seed_from-Keeps zero bytes db k v = Keeps-refl abi db v
  seed_from-Keeps (suc fuel) (a ∷ b ∷ c ∷ d ∷ rest) db k v = elim (Bool-cases (a + 256 * b == 0)) [
    | inl t ↦ rw t (Keeps-refl abi db v)
    | inr t ↦ elim (Option-cases (seed_tag (a + 256 * b) (take (c + 256 * d) rest) db)) [
      | inl q ↦ rw (t, q) (Keeps-refl abi db v)
      | inr (db', q) ↦
          rw (t, q)
            let first = seed_tag-Keeps (a + 256 * b) (take (c + 256 * d) rest) db db' k v q in
              Keeps-trans abi db db' (seed_from fuel (drop (c + 256 * d) rest) db') first
                (seed_from-Keeps fuel (drop (c + 256 * d) rest) db' k first.0)
    ]
  ]
  seed_from-Keeps (suc fuel) [] db k v = Keeps-refl abi db v
  seed_from-Keeps (suc fuel) (a ∷ []) db k v = Keeps-refl abi db v
  seed_from-Keeps (suc fuel) (a ∷ b ∷ []) db k v = Keeps-refl abi db v
  seed_from-Keeps (suc fuel) (a ∷ b ∷ c ∷ []) db k v = Keeps-refl abi db v

  -- `tm_rsrc_seed_from_syscfg` keeps the lists sorted and filed by class and every pool entry in one
  -- place, whatever bytes the blob holds and also when the pool runs out.
  pub seed-Keeps :
      (cfg : Config) (db : Db)
      → memory_class < abi.type_count
      → Inv abi db
      → Keeps abi db (seed_from_syscfg cfg db)
  unfolding seed_from_syscfg
  seed-Keeps cfg db k v = elim (Option-cases (get cfg)) [
    | inl q ↦ rw (q, seed_from_syscfg) (Keeps-refl abi db v)
    | inr (blob, q) ↦ rw (q, seed_from_syscfg) (seed_from-Keeps (length blob) blob db k v)
  ]
