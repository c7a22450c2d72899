-- ===== src/Rsrcdb/Ownership.antt =====
-- `tm_rsrc_attach` moves just the granted addresses from the free ranges to the caller, and
-- `tm_rsrc_detach` moves them back.
pub mod Detach
use lq.Base.{
  ℕ, zero, suc, ◌+◌, ◌-◌, ◌≤◌, ◌<◌, ◌%◌, ◌≡◌, refl, sym, ap, subst, ◌∙◌, ==_iff, Bool, true, false,
  List, [], ◌∷◌, ◌++◌, arith, ◌==◌, ◌&&◌, if◌then◌else◌, Option, some, none, ltb, leb, Bool-cases,
  inl, inr, ok, err, Option-cases, Status, length, ◌||◌, ◌^◌, ◌≢◌, w64, add64, not,
}
use lq.Rsrcdb.Entry.{
  Abi, Entry, Request, align_of, fit_lo, fit_hi, span, fit, find_fit, is_range, find, blank,
}
use lq.Rsrcdb.Totals.{total, In, Distinct, All, All-In, find-In}
use lq.Rsrcdb.Listed.{Listed-class}
use lq.Rsrcdb.Db.{Db, carve, carved_entry, right_entry}
use lq.Rsrcdb.Sums.{db_total}
use lq.Rsrcdb.Carve.{left, right, carve-total}
use lq.Rsrcdb.Inv.{Inv, Inv-Distinct}
use lq.Rsrcdb.Keeps.{find_fit-In}
use lq.Rsrcdb.Cover.{IsRange, holds, held}
use lq.Rsrcdb.Grant.{fit_sound}
use lq.Rsrcdb.Calls.{Ptr, Attempt, miss, hit, class_of, granted_ptr, after_carve, attach_one}

-- 1 if `a` is an address from `s` to `t` and the class is `c`.
abbrev pub inside : ℕ → ℕ → ℕ → ℕ → ℕ → ℕ
inside c a d s t = if d == c && leb s a && leb a t then 1 else 0

module _ (abi : Abi) (e : Entry) (gs ge caller flags : ℕ) (name : List ℕ) (r : IsRange e)
    (f : e.owner ≡ 0) (p : caller ≢ 0) (lo : e.start ≤ gs) (mid : gs ≤ ge) (hi : ge ≤ e.end) where
  free_balance :
      (c a x y : ℕ)
      → left abi e gs ge caller flags name (holds c 0 a) (λ i. 0)
          + holds c 0 a (carved_entry abi e gs ge caller flags name x)
          + right abi e gs ge caller flags name (holds c 0 a) (λ i. 0) y
          + inside c a e.class gs ge
        ≡ holds c 0 a e + 0 + (if ltb ge e.end then 0 else 0) + 0
  free_balance c a x y = ground (arith, r.rises, r.fits)

  caller_balance :
      (c a x y : ℕ)
      → left abi e gs ge caller flags name (holds c caller a) (λ i. 0)
          + holds c caller a (carved_entry abi e gs ge caller flags name x)
          + right abi e gs ge caller flags name (holds c caller a) (λ i. 0) y
          + 0
        ≡ holds c caller a e + 0 + (if ltb ge e.end then 0 else 0) + inside c a e.class gs ge
  caller_balance c a x y = ground (arith, r.rises, r.fits)

  other_balance :
      (c a q x y : ℕ)
      → q ≢ 0
      → q ≢ caller
      → left abi e gs ge caller flags name (holds c q a) (λ i. 0)
          + holds c q a (carved_entry abi e gs ge caller flags name x)
          + right abi e gs ge caller flags name (holds c q a) (λ i. 0) y
          + 0
        ≡ holds c q a e + 0 + (if ltb ge e.end then 0 else 0) + 0
  other_balance c a q x y n m = ground (arith, r.rises, r.fits)

module _ (abi : Abi) (caller : ℕ) (r : Request) where
  abbrev cls : ℕ
  cls = class_of abi r.flags

  -- How a request came to be granted.
  record Granted (db : Db) (r' : Request) (db' : Db) : Type 0 where
    small : cls < abi.type_count
    e : Entry
    found : find_fit abi r (db.heads cls) ≡ some (e, r'.start, r'.end)
    done : carve abi e r'.start r'.end caller r.flags [] db ≡ (ok, db')

  after_carve-Granted :
      (gs ge : ℕ) (x : Status × Db) {g : List Ptr} {r' : Request} {db' : Db}
      → after_carve abi caller r gs ge x ≡ hit g r' db'
      → (x ≡ (ok, db')) × (r'.start ≡ gs) × (r'.end ≡ ge)
  unfolding after_carve
  after_carve-Granted gs ge (ok, db'') h = ground arith
  after_carve-Granted gs ge (err x, db'') h = cc

  attach_one-Granted :
      (db : Db) {g : List Ptr} {r' : Request} {db' : Db}
      → attach_one abi caller r db ≡ hit g r' db'
      → Granted db r' db'
  unfolding attach_one
  attach_one-Granted db {g} {r'} {db'} h = elim (Bool-cases (leb abi.type_count cls)) [
    | inl t ↦ absurd (hit_ne_miss (rw t at h))
    | inr t ↦ elim (Option-cases (find_fit abi r (db.heads cls))) [
      | inl q ↦ absurd (hit_ne_miss (rw (t, q, attach_one) at h))
      | inr ((e, gs, ge), q) ↦
          let a =
            after_carve-Granted gs ge (carve abi e gs ge caller r.flags [] db)
              (rw (t, q, attach_one) at h) in
          record {
            small = ground arith;
            e = e;
            found = rw (a.1, a.2) q;
            done = rw (a.1, a.2) (a.0);
          }
    ]
  ]
    where
      hit_ne_miss : miss db ≡ hit g r' db' → ⊥
      hit_ne_miss q = cc

  -- From a database in order, for a caller that is not 0 and a length below 2^64, where the entries of
  -- the class are ranges and the rounding to the alignment wraps at none of them: a request that is
  -- granted takes from the free ranges of its class the addresses of the range that the caller is told,
  -- each of which was free, and gives them to the caller. No other owner's and no other address changes
  -- hands. Where the rounding wraps, `find_fit` can take an entry for a fit that does
  -- not hold the range.
  pub attach_one-held :
      (db : Db) {g : List Ptr} {r' : Request} {db' : Db}
      → caller ≢ 0
      → r.length < w64
      → All (λ e. IsRange e × (fit_lo abi r e + align_of abi r ≤ w64)) (db.heads cls)
      → Inv abi db
      → attach_one abi caller r db ≡ hit g r' db'
      → (c a : ℕ)
      → let n = inside c a cls r'.start r'.end in
        (held abi c 0 a db' + n ≡ held abi c 0 a db)
        × (held abi c caller a db' ≡ held abi c caller a db + n)
        × ((q : ℕ) → q ≢ 0 → q ≢ caller → held abi c q a db' ≡ held abi c q a db)
  attach_one-held db {g} {r'} {db'} p l room v h c a = go (attach_one-Granted db h)
    where
      go :
          Granted db r' db'
          → let n = inside c a cls r'.start r'.end in
            (held abi c 0 a db' + n ≡ held abi c 0 a db)
            × (held abi c caller a db' ≡ held abi c caller a db + n)
            × ((q : ℕ) → q ≢ 0 → q ≢ caller → held abi c q a db' ≡ held abi c q a db)
      go t =
          let e = t.e in
          let (m, fits) = find_fit-In abi r (db.heads cls) e r'.start r'.end t.found in
          let ok_e = All-In _ (db.heads cls) e m room in
          let k : e.class ≡ cls = Listed-class cls 0 (db.heads cls) e m (v.listed cls t.small) in
          let s = fit_sound abi r e fits ok_e.1 l (omega (arith, ok_e.0.fits)) in
          let k' : e.class < abi.type_count = subst (λ j. j < abi.type_count) (sym k) t.small in
          let m' : In e (db.heads e.class) = subst (λ j. In e (db.heads j)) (sym k) m in
          let d : Distinct (db.heads e.class) = Inv-Distinct abi db e.class v k' in
          let n : ℕ = inside c a e.class r'.start r'.end in
          let step =
            λ (w : Entry → ℕ) (loss gain : ℕ)
                (b : (x y : ℕ)
                  → left abi e r'.start r'.end caller r.flags [] w (λ i. 0)
                      + w (carved_entry abi e r'.start r'.end caller r.flags [] x)
                      + right abi e r'.start r'.end caller r.flags [] w (λ i. 0) y
                      + loss
                    ≡ w e + 0 + (if ltb r'.end e.end then 0 else 0) + gain).
              carve-total abi e r'.start r'.end caller r.flags [] w (λ i. 0) loss gain db db' b k'
                m' d t.done in
          let same : n ≡ inside c a cls r'.start r'.end =
            ap (λ j. inside c a j r'.start r'.end) k in
          (
            omega (
              arith,
              same,
              step (holds c 0 a) n 0 (
                  free_balance abi e r'.start r'.end caller r.flags [] ok_e.0 s.0 p s.1 s.2 s.3 c
                    a),
            ),
            omega (
              arith,
              same,
              step (holds c caller a) 0 n (
                  caller_balance abi e r'.start r'.end caller r.flags [] ok_e.0 s.0 p s.1 s.2 s.3 c
                    a),
            ),
            λ q x y. omega (
              arith,
              step (holds c q a) 0 0 (λ i j.
                  other_balance abi e r'.start r'.end caller r.flags [] ok_e.0 s.0 p s.1 s.2 s.3 c a
                    q i j x y),
            ),
          )
