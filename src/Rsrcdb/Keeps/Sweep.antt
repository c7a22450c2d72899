-- ===== src/Rsrcdb/Keeps/Sweep.antt =====
-- `tm_rsrc_release_pid` over all classes: it ends, keeps the invariant, and takes from the process
-- what it held and from no other.
use lq.Base.{
  ℕ, zero, suc, ◌+◌, ◌≤◌, ◌<◌, ◌≡◌, refl, ap, ◌∙◌, ==_iff, false, ◌++◌, arith, ◌==◌, some, leb,
  Bool-cases, inl, inr, ◌||◌, ◌^◌, ◌≢◌,
}
use lq.Rsrcdb.Entry.{Abi, Entry, Merged}
use lq.Rsrcdb.Totals.{total, has_id}
use lq.Rsrcdb.Db.{Db, update, update_self, update_ne}
use lq.Rsrcdb.Sums.{total_ids-append, sum_below-update, total-le-sum_below}
use lq.Rsrcdb.Inv.{Inv, occurrences, at}
use lq.Rsrcdb.Keeps.{Keeps, Keeps-refl, Keeps-trans}
use lq.Rsrcdb.Keeps.Release.{owns, Foreign, Released, release_class-Released}
use lq.Rsrcdb.Calls.{release_from, release_pid}

module _ (abi : Abi) (fuel pid : ℕ) (p : pid ≢ 0) where
  -- The database after the scan of class `c`.
  abbrev after_scan : ℕ → Db → Merged → Db
  after_scan c db m = record { free_list = m.1 ++ db.free_list; heads = update db.heads c m.0 }

  after_scan-Keeps :
      (c : ℕ) (db : Db) (m : Merged)
      → c < abi.type_count
      → Inv abi db
      → Released pid c (db.heads c) m
      → Keeps abi db (after_scan c db m)
  after_scan-Keeps c db m k v r =
      let same : (i : ℕ) → occurrences abi i (after_scan c db m) ≡ occurrences abi i db = λ i.
        omega (
          arith,
          total_ids-append (at i) m.1 db.free_list,
          sum_below-update (has_id i) abi.type_count c db.heads m.0 k,
          r.same i,
        ) in
      (
        record {
          listed = λ j b. elim (Bool-cases (j == c)) [
            | inl t ↦ rw t (rw ((==_iff j c).0 t) r.listed)
            | inr t ↦ rw t (v.listed j b)
          ];
          once = λ i. omega (arith, same i, v.once i);
        },
        same,
      )

  -- What the scans of the classes from `c` on leave.
  pub record Swept (c : ℕ) (db db' : Db) : Type 0 where
    pub kept : Keeps abi db db'
    pub none_left : (k : ℕ) → c ≤ k → k < abi.type_count → total (owns pid) (db'.heads k) ≡ 0
    pub others :
        (w : Entry → ℕ) (k : ℕ) → Foreign pid w → total w (db'.heads k) ≡ total w (db.heads k)
    pub before : (k : ℕ) → k < c → db'.heads k ≡ db.heads k

  none_left_at :
      (k c : ℕ) (db db' : Db) (m : Merged)
      → c ≤ k
      → k < abi.type_count
      → Released pid c (db.heads c) m
      → Swept (c + 1) (after_scan c db m) db'
      → total (owns pid) (db'.heads k) ≡ 0
  none_left_at k c db db' m l u r s = elim (Bool-cases (k == c)) [
    | inl t ↦
        let e : k ≡ c = (==_iff k c).0 t in
        ap (λ xs. total (owns pid) xs)
          (ap db'.heads e ∙ s.before c (omega arith) ∙ update_self db.heads c m.0)
        ∙ r.none_left
    | inr t ↦ s.none_left k (ground arith) u
  ]

  others_at :
      (w : Entry → ℕ) (k c : ℕ) (db : Db) (m : Merged)
      → Foreign pid w
      → Released pid c (db.heads c) m
      → total w ((after_scan c db m).heads k) ≡ total w (db.heads k)
  others_at w k c db m f r = elim (Bool-cases (k == c)) [
    | inl t ↦ rw ((==_iff k c).0 t, update_self db.heads c m.0) (r.others w f)
    | inr t ↦ rw (update_ne db.heads c m.0 k (ground arith))
  ]

  release_from-Swept :
      (n c : ℕ) (db : Db)
      → c + n ≡ abi.type_count
      → ((k : ℕ) → c ≤ k → k < abi.type_count → total (owns pid) (db.heads k) < fuel)
      → Inv abi db
      → (db' : Db) × (release_from fuel pid n c db ≡ some db') × Swept c db db'
  unfolding release_from
  release_from-Swept zero c db e b v = (
    db,
    refl,
    record {
      kept = Keeps-refl abi db v;
      none_left = λ k l u. absurd (omega arith);
      others = λ w k f. refl;
      before = λ k l. refl;
    },
  )
  release_from-Swept (suc n) c db e b v =
      let (m, q, r) =
        release_class-Released fuel pid c (db.heads c) p (b c (omega arith) (omega arith))
          (λ i. omega (
            arith,
            total-le-sum_below (has_id i) abi.type_count c db.heads (omega arith),
            v.once i,
          ))
          (v.listed c (omega arith)) in
      let one = after_scan-Keeps c db m (omega arith) v r in
      let (db', q', s) =
        release_from-Swept n (c + 1) (after_scan c db m) (omega arith)
          (λ k l u. rw (update_ne db.heads c m.0 k (omega arith)) (b k (omega arith) u)) one.0 in
      (
        db',
        rw (q, release_from) q',
        record {
          kept = Keeps-trans abi db (after_scan c db m) db' one s.kept;
          none_left = λ k l u. none_left_at k c db db' m l u r s;
          others = λ w k f. s.others w k f ∙ others_at w k c db m f r;
          before = λ k l. s.before k (omega arith) ∙ update_ne db.heads c m.0 k (omega arith);
        },
      )

  live : pid < 2 ^ 31 → (pid == 0 || leb (2 ^ 31) pid) ≡ false
  live h = ground arith

  -- `tm_rsrc_release_pid` ends. It keeps the invariant and every pool entry, leaves no entry of any
  -- class to the process, and leaves all that the other processes hold as it was: any weight that
  -- counts neither free entries nor the process's own has the same total in each class.
  pub release_pid_lem :
      (db : Db)
      → pid < 2 ^ 31
      → ((c : ℕ) → c < abi.type_count → total (owns pid) (db.heads c) < fuel)
      → Inv abi db
      → (db' : Db) × (release_pid abi fuel pid db ≡ some db')
        × Keeps abi db db'
        × ((c : ℕ) → c < abi.type_count → total (owns pid) (db'.heads c) ≡ 0)
        × ((w : Entry → ℕ) (c : ℕ) → Foreign pid w → total w (db'.heads c) ≡ total w (db.heads c))
  unfolding release_pid
  release_pid_lem db h b v =
      let (db', q, s) = release_from-Swept abi.type_count 0 db (omega arith) (λ k l u. b k u) v in
      (
        db',
        rw (live h) q,
        s.kept,
        (λ c k. s.none_left c (omega arith) k),
        (λ w c f. s.others w c f),
      )
