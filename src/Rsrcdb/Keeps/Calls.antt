-- ===== src/Rsrcdb/Keeps/Calls.antt =====
-- The wire operations of rsrcdb.c, whole batches with every error path, keep the invariant.
use lq.Base.{
  ℕ, ◌<◌, refl, Bool, List, [], ◌∷◌, arith, ◌==◌, ◌&&◌, leb, Bool-cases, inl, inr, Option-cases,
}
use lq.Rsrcdb.Entry.{Abi, Entry, Request, Alloc, find, is_range}
use lq.Rsrcdb.Totals.{find-In}
use lq.Rsrcdb.Db.{Db}
use lq.Rsrcdb.Inv.{Inv}
use lq.Rsrcdb.Keeps.{Keeps, Keeps-refl, Keeps-trans, Frees, free_merge-Keeps, drop-Keeps}
use lq.Rsrcdb.Calls.{release_entry, class_of, destroy_one, destroy, detach_one, detach}

pub release_Frees : Frees release_entry
release_Frees = record { stays = λ x. (refl, refl); same_id = λ x. refl; free = λ x. refl }

pub disown_Frees : Frees (λ e. record e { owner = 0 })
disown_Frees = record { stays = λ x. (refl, refl); same_id = λ x. refl; free = λ x. refl }

module _ (abi : Abi) where
  destroy_one-Keeps :
      (a : Alloc) (db : Db)
      → class_of abi a.flags < abi.type_count
      → Inv abi db
      → Keeps abi db (destroy_one abi a db)
  unfolding destroy_one
  destroy_one-Keeps a db k v =
      let p : Entry → Bool = λ e. is_range e a.start a.end in
      let xs = db.heads (class_of abi a.flags) in
      elim (Option-cases (find p xs)) [
        | inl t ↦ rw (t, destroy_one) (Keeps-refl abi db v)
        | inr (e, t) ↦
            rw (t, destroy_one)
              (drop-Keeps abi e db (class_of abi a.flags) k (find-In p xs e t).0 v)
      ]

  -- `tm_rsrc_destroy` keeps the lists sorted and filed by class, whatever it is asked, and each
  -- entry of the pool stays in as many places as before: none is lost and none is freed twice.
  pub destroy-Keeps :
      (as' : List Alloc) (db : Db) → Inv abi db → Keeps abi db (destroy abi as' db).1
  unfolding destroy
  destroy-Keeps [] db v = Keeps-refl abi db v
  destroy-Keeps (a ∷ as') db v = elim (Bool-cases (leb abi.type_count (class_of abi a.flags))) [
    | inl t ↦ rw t (Keeps-refl abi db v)
    | inr t ↦
        let one = destroy_one-Keeps a db (ground arith) v in
        rw t (
          Keeps-trans abi db (destroy_one abi a db) _ one
            (destroy-Keeps as' (destroy_one abi a db) one.0))
  ]

  detach_one-Keeps :
      (caller : ℕ) (r : Request) (db : Db)
      → class_of abi r.flags < abi.type_count
      → Inv abi db
      → Keeps abi db (detach_one abi caller r db)
  unfolding detach_one
  detach_one-Keeps caller r db k v =
      let p : Entry → Bool = λ e. e.owner == caller && is_range e r.start r.end in
      elim (Option-cases (find p (db.heads (class_of abi r.flags)))) [
        | inl t ↦ rw (t, detach_one) (Keeps-refl abi db v)
        | inr (e, t) ↦
            rw (t, detach_one)
              (free_merge-Keeps abi (class_of abi r.flags) e.id release_entry db release_Frees k v)
      ]

  -- `tm_rsrc_detach` keeps the lists sorted and filed by class, whatever it is asked, and each entry
  -- of the pool stays in as many places as before: none is lost and none is freed twice.
  pub detach-Keeps :
      (caller : ℕ) (rs : List Request) (db : Db)
      → Inv abi db
      → Keeps abi db (detach abi caller rs db).1
  unfolding detach
  detach-Keeps caller [] db v = Keeps-refl abi db v
  detach-Keeps caller (r ∷ rs) db v =
      elim (Bool-cases (leb abi.type_count (class_of abi r.flags))) [
        | inl t ↦ rw t (Keeps-refl abi db v)
        | inr t ↦
            let one = detach_one-Keeps caller r db (ground arith) v in
            rw t (
              Keeps-trans abi db (detach_one abi caller r db) _ one
                (detach-Keeps caller rs (detach_one abi caller r db) one.0))
      ]
