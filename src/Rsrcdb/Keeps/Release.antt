-- ===== src/Rsrcdb/Keeps/Release.antt =====
-- The scan of one class by `tm_rsrc_release_pid`: it ends, and leaves the process nothing.
use lq.Base.{
  ℕ, zero, suc, ◌+◌, ◌≤◌, ◌<◌, ◌≡◌, refl, ◌∙◌, ==_iff, List, [], ◌∷◌, ◌++◌, arith, ◌==◌,
  if◌then◌else◌, some, none, inl, inr, Option-cases, ◌≢◌,
}
use lq.Rsrcdb.Entry.{Entry, modify, find, merge_list, Merged}
use lq.Rsrcdb.Totals.{
  find-In, total, total_ids, Additive, occ, has_id, Distinct, Distinct-of_occ, total-modify,
  total-merge_list,
}
use lq.Rsrcdb.Listed.{Listed, modify-Listed, merge_list-Listed}
use lq.Rsrcdb.Sums.{total_ids-append}
use lq.Rsrcdb.Inv.{at, occ_Additive, All-unit}
use lq.Rsrcdb.Keeps.{modify-FreeAt}
use lq.Rsrcdb.Keeps.Calls.{release_Frees}
use lq.Rsrcdb.Calls.{release_entry, release_class}

-- How many entries of the list the process owns.
abbrev pub owns : ℕ → Entry → ℕ
owns pid e = if e.owner == pid then 1 else 0

find-none :
    (pid : ℕ) (xs : List Entry) → find (λ e. e.owner == pid) xs ≡ none → total (owns pid) xs ≡ 0
unfolding find
find-none pid [] h = refl
find-none pid (x ∷ xs) h = ground (arith, find-none pid xs)

-- What the process owns weighs nothing once it is free.
owns-Additive : (pid : ℕ) → pid ≢ 0 → Additive (λ e. Unit {0}) (owns pid) (λ i. 0)
owns-Additive pid h = record {
  stays = λ e r p q a. tt;
  adds = λ e r p q a. ground (arith, a.free, a.next_free);
}

-- A weight that neither a free entry nor one of the process has.
pub record Foreign (pid : ℕ) (w : Entry → ℕ) : Type 0 where
  pub of_free : (e : Entry) → e.owner ≡ 0 → w e ≡ 0
  pub of_pid : (e : Entry) → e.owner ≡ pid → w e ≡ 0

Foreign-Additive : (pid : ℕ) (w : Entry → ℕ) → Foreign pid w → Additive (λ e. Unit {0}) w (λ i. 0)
Foreign-Additive pid w f = record {
  stays = λ e r p q a. tt;
  adds = λ e r p q a. omega (
    arith,
    f.of_free e a.free,
    f.of_free r a.next_free,
    f.of_free (record e { end = r.end }) a.free,
  );
}

total_ids-zero : (is : List ℕ) → total_ids (λ i. 0) is ≡ 0
total_ids-zero [] = refl
total_ids-zero (i ∷ is) = omega (arith, total_ids-zero is)

-- What a scan leaves: nothing of the process, all of the others', and the same pool entries.
pub record Released (pid c : ℕ) (xs : List Entry) (m : Merged) : Type 0 where
  pub none_left : total (owns pid) m.0 ≡ 0
  pub listed : Listed c 0 m.0
  pub same : (i : ℕ) → occ i m.0 + total_ids (at i) m.1 ≡ occ i xs
  pub others : (w : Entry → ℕ) → Foreign pid w → total w m.0 ≡ total w xs

module _ (pid : ℕ) (p : pid ≢ 0) (e : Entry) (xs : List Entry)
    (found : find (λ x. x.owner == pid) xs ≡ some e) (d : Distinct xs) where
  abbrev released : List Entry
  released = modify e.id release_entry xs

  mine : e.owner ≡ pid
  mine = (==_iff e.owner pid).0 (find-In (λ x. x.owner == pid) xs e found).1

  modify-total : (w : Entry → ℕ) → total w released + w e ≡ total w xs + w (release_entry e)
  modify-total w = total-modify w release_entry e xs (find-In (λ x. x.owner == pid) xs e found).0 d

  merge-total :
      (w : Entry → ℕ) (v : ℕ → ℕ)
      → Additive (λ e. Unit {0}) w v
      → let m = merge_list e.id released in total w m.0 + total_ids v m.1 ≡ total w released
  merge-total w v a =
      (total-merge_list (λ e. Unit {0}) w v a e.id released (All-unit released)
        (modify-FreeAt release_entry e.id xs release_Frees d)).0

  step_owns : let m = merge_list e.id released in total (owns pid) m.0 + 1 ≡ total (owns pid) xs
  step_owns = ground (
    arith,
    mine,
    modify-total (owns pid),
    merge-total (owns pid) (λ i. 0) (owns-Additive pid p),
    total_ids-zero (merge_list e.id released).1,
  )

  step_same :
      (i : ℕ) → let m = merge_list e.id released in occ i m.0 + total_ids (at i) m.1 ≡ occ i xs
  step_same i =
      ground (arith, modify-total (has_id i), merge-total (has_id i) (at i) (occ_Additive i))

  step_others : (w : Entry → ℕ) → Foreign pid w → total w (merge_list e.id released).0 ≡ total w xs
  step_others w f = ground (
    arith,
    f.of_pid e mine,
    f.of_free (release_entry e) refl,
    modify-total w,
    merge-total w (λ i. 0) (Foreign-Additive pid w f),
    total_ids-zero (merge_list e.id released).1,
  )

pub release_class-Released :
    (fuel pid c : ℕ) (xs : List Entry)
    → pid ≢ 0
    → total (owns pid) xs < fuel
    → ((i : ℕ) → occ i xs ≤ 1)
    → Listed c 0 xs
    → (m : Merged) × (release_class fuel pid xs ≡ some m) × Released pid c xs m
unfolding release_class
release_class-Released zero pid c xs p b o l = absurd (omega arith)
release_class-Released (suc fuel) pid c xs p b o l =
    elim (Option-cases (find (λ e. e.owner == pid) xs)) [
      | inl t ↦ (
        (xs, []),
        rw (t, release_class),
        record {
          none_left = find-none pid xs t;
          listed = l;
          same = λ i. omega arith;
          others = λ w f. refl;
        },
      )
      | inr (e, t) ↦
          let d = Distinct-of_occ xs o in
          let m = merge_list e.id (modify e.id release_entry xs) in
          let (m', q, r) =
            release_class-Released fuel pid c m.0 p (omega (arith, step_owns pid p e xs t d))
              (λ i. omega (arith, step_same pid p e xs t d i, o i))
              (merge_list-Listed c 0 e.id _
                (modify-Listed c 0 e.id release_entry xs release_Frees.stays l)) in
          (
            (m'.0, m'.1 ++ m.1),
            rw (t, release_class) (rw (q, release_class)),
            record {
              none_left = r.none_left;
              listed = r.listed;
              same = λ i.
                  omega
                    (arith, total_ids-append (at i) m'.1 m.1, r.same i, step_same pid p e xs t d i);
              others = λ w f. r.others w f ∙ step_others pid p e xs t d w f;
            },
          )
    ]
