-- ===== src/Cpiofs/Freed.antt =====
-- taskman/path/cpiofs.c: a directory that is closed gives its entry of the table back.
use lq.Base.{
  sym, subst, Result-cases, ℕ, suc, ◌%◌, ◌<◌, ◌≡◌, refl, ap, ◌==◌, ==_iff, some, List, [], ◌∷◌,
  arith, leb, length, map, get_elem?, set, w32, ok, value, Bool-cases, inl, inr,
}
use lq.Chan.State.{Registry}
use lq.Chan.Attach.{get_ctx-set_ctx}
use lq.Cpiofs.Dir.{Dir, opened, dir_slot_alloc, open_dir, close}

abbrev pub badges : List Dir → List ℕ
badges ds = map (λ d. d.badge) ds

-- The entry `i` carries the badge, and freeing it gives the badges of the table `before`.
record Taken (badge : ℕ) (before after : List Dir) (i : ℕ) : Type 0 where
  pub held : Dir
  pub at : get_elem? after i ≡ some held
  pub own : held.badge ≡ badge
  pub inside : i < length before
  pub freed : badges (set after i (record held { badge = 0 })) ≡ badges before

here-Taken :
    (badge : ℕ) (prefix : List ℕ) (d : Dir) (ds : List Dir)
    → d.badge ≡ 0
    → Taken badge (d ∷ ds) (opened badge prefix ∷ ds) 0
here-Taken badge prefix d ds free = record {
  held = opened badge prefix;
  at = refl;
  own = refl;
  inside = omega arith;
  freed = ap (λ n. n ∷ badges ds) (sym free);
}

there-Taken :
    (badge : ℕ) (d : Dir) (before after : List Dir) (i : ℕ)
    → Taken badge before after i
    → Taken badge (d ∷ before) (d ∷ after) (suc i)
there-Taken badge d before after i t = record {
  held = t.held;
  at = t.at;
  own = t.own;
  inside = omega (arith, t.inside);
  freed = ap (λ ns. d.badge ∷ ns) t.freed;
}

dir_slot_alloc-Taken :
    (badge : ℕ) (prefix : List ℕ) (ds : List Dir) (i : ℕ)
    → (dir_slot_alloc badge prefix ds).0 ≡ value i
    → Taken badge ds (dir_slot_alloc badge prefix ds).1 i
unfolding dir_slot_alloc
dir_slot_alloc-Taken badge prefix [] i h = absurd (ground (arith, h))
dir_slot_alloc-Taken badge prefix (d ∷ ds) i h = elim (Bool-cases (d.badge == 0)) [
  | inl free ↦ elim (Bool-cases (leb 64 (length prefix))) [
    | inl long ↦ absurd (ground (arith, (rw (free, long) at h)))
    | inr fits ↦
        let e : 0 ≡ i = ground (arith, (rw (free, fits) at h)) in
        rw (free, fits)
          (subst (Taken badge (d ∷ ds) (opened badge prefix ∷ ds)) e
            (here-Taken badge prefix d ds ((==_iff d.badge 0).0 free)))
  ]
  | inr used ↦ elim (Result-cases (dir_slot_alloc badge prefix ds).0) [
    | inl (e, q) ↦ absurd (ground (arith, (rw (used, q) at h)))
    | inr (j, q) ↦
        let e : suc j ≡ i = ground (arith, (rw (used, q) at h)) in
        rw used (
          subst (Taken badge (d ∷ ds) (d ∷ (dir_slot_alloc badge prefix ds).1)) e (
            there-Taken badge d ds (dir_slot_alloc badge prefix ds).1 j
              (dir_slot_alloc-Taken badge prefix ds j q)))
  ]
]

-- Opening a directory and closing it leaves each entry of the table with the badge that it had, so a
-- free entry is free again. The open succeeds and the table has less than 2^32 entries.
pub close-open_dir :
    (badge : ℕ) (prefix : List ℕ) (dirs : List Dir) (r : Registry)
    → length dirs < w32
    → (open_dir badge prefix dirs r).0 ≡ ok
    → let (dirs', r') = (open_dir badge prefix dirs r).1 in
      badges (close badge dirs' r') ≡ badges dirs
unfolding open_dir close
close-open_dir badge prefix dirs r small h =
    elim (Result-cases (dir_slot_alloc badge prefix dirs).0) [
      | inl (e, q) ↦ absurd (ground (arith, (rw (open_dir, q) at h)))
      | inr (i, q) ↦
          let t = dir_slot_alloc-Taken badge prefix dirs i q in
          let ctx = get_ctx-set_ctx badge 0 i r (rw (open_dir, q) at h) in
          let low : i % w32 ≡ i = omega (arith, t.inside, small) in
          rw (open_dir, q)
            (rw (close, ctx, low, t.at, (==_iff t.held.badge badge).1 t.own, low) t.freed)
    ]
