-- ===== src/Mem/Unmapped.antt =====
-- taskman/mem/mmap.c: what an unmapping takes out of the tracker.
use lq.Base.{
  ℕ, zero, suc, ◌+◌, ◌/◌, ◌%◌, ◌≤◌, ◌<◌, ◌≡◌, ◌≢◌, refl, ap, subst, ◌∙◌, true, false, some, List,
  [], ◌∷◌, arith, ltb, ◌==◌, ==_iff, unequal, length, replicate, length-replicate, get_elem?, add64,
  ok, Bool-cases, Option-cases, inl, inr, if◌then◌else◌,
}
use lq.Mem.Space.{Page, Space, Kernel, mega, round_up, free_max}
use lq.Mem.Unmap.{
  swap_last, all_tracked, in_range, park, unmap_pages, unmap_devframes, munmap_anonymous,
  munmap_serve,
}
use lq.Mem.Mapped.{run}
use lq.Mem.Entries.{total, at, occ, find_mmap_idx-occ, total-swap_last}

abbrev pub frames : (ℕ → ℕ) → List ℕ → ℕ
frames w [] = 0
frames w (f ∷ fs) = w f + frames w fs

abbrev pub frame_weight : (ℕ → ℕ) → Page → ℕ
frame_weight w p = w p.frame

-- No entry lies in the range.
abbrev pub Clear : ℕ → ℕ → List Page → Type 0
Clear vaddr len [] = Unit
Clear vaddr len (p ∷ ps) = (in_range vaddr len p ≡ false) × Clear vaddr len ps

-- Each of the pages is tracked.
abbrev pub Tracked : List Page → List Page → Type 0
Tracked qs ps = (v : ℕ) → occ v qs ≤ occ v ps

Clear-at :
    (vaddr len : ℕ) (ps : List Page) (i : ℕ) (p : Page)
    → Clear vaddr len ps
    → get_elem? ps i ≡ some p
    → in_range vaddr len p ≡ false
Clear-at vaddr len [] i p c h = absurd (ground (arith, h))
Clear-at vaddr len (q ∷ ps) zero p c h =
    let e : q ≡ p = ground (arith, h) in subst (λ x. in_range vaddr len x ≡ false) e c.0
Clear-at vaddr len (q ∷ ps) (suc i) p c h = Clear-at vaddr len ps i p c.1 h

pub at_va : (v va f : ℕ) (p : Page) → p.va ≡ va → at v p ≡ at v (record { va = va; frame = f })
at_va v va f p e = ap (λ x. if x == v then 1 else 0) e

pub all_tracked-run :
    (va : ℕ) (fs : List ℕ) (ps : List Page)
    → ((v : ℕ) → occ v (run va fs) ≢ 0 → occ v ps ≢ 0)
    → all_tracked (length fs) va ps ≡ true
unfolding all_tracked
all_tracked-run va [] ps h = refl
all_tracked-run va (f ∷ fs) ps h = elim (find_mmap_idx-occ va ps) [
  | inl (q, z) ↦ absurd (h va (rw ((==_iff va va).1 refl) (omega arith)) z)
  | inr (i, p, q, e, g) ↦
      rw (q, all_tracked) (all_tracked-run (add64 va mega) fs ps (λ v n. h v (omega arith)))
]

-- The cursor after an unmapping.
abbrev pub rewound : ℕ → ℕ → Space → Space
rewound vaddr len s = record s {
  top = if add64 vaddr (round_up mega len) == s.top then vaddr else s.top;
}

module _ {K : Type 0} (kernel : Kernel K) where
  pub unmap_devframes-Clear :
      (fuel vaddr len i : ℕ) (ps : List Page) (k : K)
      → Clear vaddr len ps
      → unmap_devframes kernel fuel vaddr len i ps k ≡ (0, (ps, k))
  unfolding unmap_devframes
  unmap_devframes-Clear zero vaddr len i ps k c = refl
  unmap_devframes-Clear (suc fuel) vaddr len i ps k c = elim (Option-cases (get_elem? ps i)) [
    | inl q ↦ rw (q, unmap_devframes) refl
    | inr (p, q) ↦
        rw
          (
            q,
            unmap_devframes,
            Clear-at vaddr len ps i p c q,
            unmap_devframes-Clear fuel vaddr len (i + 1) ps k c,
          )
          refl
  ]

  -- What the second sweep changes.
  record Removed (s : Space) (va : ℕ) (fs : List ℕ) (s' : Space) : Type 0 where
    entries : (v : ℕ) → occ v s'.mmap + occ v (run va fs) ≡ occ v s.mmap
    kept :
        (w : ℕ → ℕ)
        → length s.free_list + length fs ≤ free_max
        → total (frame_weight w) s'.mmap + frames w s'.free_list
          ≡ total (frame_weight w) s.mmap + frames w s.free_list
    top : s'.top ≡ s.top
    devframes : s'.devframes ≡ s.devframes

  -- One page: its frame is on the free list where there is room.
  record RemovedOne (s : Space) (p : Page) (s' : Space) : Type 0 where
    one : (w : Page → ℕ) → total w s'.mmap + w p ≡ total w s.mmap
    parked : length s.free_list < free_max → s'.free_list ≡ p.frame ∷ s.free_list
    top : s'.top ≡ s.top
    devframes : s'.devframes ≡ s.devframes

  park-RemovedOne :
      (i : ℕ) (p : Page) (s : Space) (k : K)
      → get_elem? s.mmap i ≡ some p
      → let s' = (park kernel p.frame s k).0 in
        RemovedOne s p (record s' { mmap = swap_last i s'.mmap })
  unfolding park
  park-RemovedOne i p s k g = elim (Bool-cases (ltb (length s.free_list) free_max)) [
    | inl t ↦
        simp (park, t)
          (record {
            one = λ w. total-swap_last w s.mmap i p g;
            parked = λ r. refl;
            top = refl;
            devframes = refl;
          })
    | inr t ↦
        simp (park, t)
          (record {
            one = λ w. total-swap_last w s.mmap i p g;
            parked = λ r. absurd (ground arith);
            top = refl;
            devframes = refl;
          })
  ]

  Removed-cons :
      {s s' s'' : Space} {p : Page} {va : ℕ} (f : ℕ) {fs : List ℕ}
      → p.va ≡ va
      → RemovedOne s p s'
      → Removed s' (add64 va mega) fs s''
      → Removed s va (f ∷ fs) s''
  Removed-cons {s = s} {s' = s'} {p = p} {va = va} f e o r = record {
    entries = λ v. omega (arith, r.entries v, o.one (at v), at_va v va f p e);
    kept = λ w room.
        let q : s'.free_list ≡ p.frame ∷ s.free_list = o.parked (omega arith) in
        omega
          (arith, r.kept w (omega (arith, ap length q)), o.one (frame_weight w), ap (frames w) q);
    top = r.top ∙ o.top;
    devframes = r.devframes ∙ o.devframes;
  }

  unmap_pages-Removed :
      (va : ℕ) (fs : List ℕ) (s : Space) (k : K)
      → Tracked (run va fs) s.mmap
      → Removed s va fs (unmap_pages kernel (length fs) va s k).0
  unfolding unmap_pages
  unmap_pages-Removed va [] s k h = record {
    entries = λ v. omega arith;
    kept = λ w r. refl;
    top = refl;
    devframes = refl;
  }
  unmap_pages-Removed va (f ∷ fs) s k h = elim (find_mmap_idx-occ va s.mmap) [
    | inl (q, z) ↦ absurd (omega (arith, rw ((==_iff va va).1 refl) at (h va), z))
    | inr (i, p, q, e, g) ↦
        let k1 = kernel.unmap_page p.frame k in
        let s1 : Space = (park kernel p.frame s k1).0 in
        let s2 : Space = record s1 { mmap = swap_last i s1.mmap } in
        let o : RemovedOne s p s2 = park-RemovedOne i p s k1 g in
        rw (q, unmap_pages)
          (Removed-cons f e o (
            unmap_pages-Removed (add64 va mega) fs s2 (park kernel p.frame s k1).1
              (λ v. omega (arith, h v, o.one (at v), at_va v va f p e))))
  ]

  pub munmap_serve-anonymous :
      (vaddr len : ℕ) (s : Space) (k : K)
      → len ≢ 0
      → Clear vaddr len s.devframes
      → munmap_serve kernel vaddr len (some s) k ≡ (
          let (status, (s', k')) = munmap_anonymous kernel vaddr len s k in (status, (some s', k')))
  unfolding munmap_serve
  munmap_serve-anonymous vaddr len s k h c =
      rw (unequal len 0 h, unmap_devframes-Clear (length s.devframes) vaddr len 0 s.devframes k c)
        refl

  pub munmap_serve-tracked :
      (vaddr len n : ℕ) (s : Space) (k : K)
      → len ≢ 0
      → Clear vaddr len s.devframes
      → round_up mega len / mega ≡ n
      → vaddr % mega ≡ 0
      → all_tracked n vaddr s.mmap ≡ true
      → munmap_serve kernel vaddr len (some s) k
        ≡ (let (s', k') = unmap_pages kernel n vaddr s k in (ok, (some (rewound vaddr len s'), k')))
  unfolding munmap_anonymous
  munmap_serve-tracked vaddr len n s k h c e a t =
      let a' : (vaddr % mega == 0) ≡ true = (==_iff (vaddr % mega) 0).1 a in
      munmap_serve-anonymous vaddr len s k h c ∙ rw (munmap_anonymous, e, a', t) refl

  -- Where each page of the range is tracked, the address is aligned and no device frame lies in the
  -- range, `tm_munmap_serve` succeeds and takes one entry of each of the pages and nothing else out of
  -- the tracker. While the free list has room, no frame is lost: each one is tracked or free as often
  -- as before. The cursor goes back to the start of a range that ends at it, and stays otherwise.
  pub munmap_serve-removes :
      (vaddr len : ℕ) (s : Space) (k : K)
      → len ≢ 0
      → vaddr % mega ≡ 0
      → Clear vaddr len s.devframes
      → Tracked (run vaddr (replicate (round_up mega len / mega) 0)) s.mmap
      → (s' : Space) × (k' : K) × (munmap_serve kernel vaddr len (some s) k ≡ (ok, (some s', k')))
        × ((v : ℕ)
            → occ v s'.mmap + occ v (run vaddr (replicate (round_up mega len / mega) 0))
              ≡ occ v s.mmap)
        × ((w : ℕ → ℕ)
            → length s.free_list + round_up mega len / mega ≤ free_max
            → total (frame_weight w) s'.mmap + frames w s'.free_list
              ≡ total (frame_weight w) s.mmap + frames w s.free_list)
        × (s'.top ≡ (if add64 vaddr (round_up mega len) == s.top then vaddr else s.top))
        × (s'.devframes ≡ s.devframes)
  munmap_serve-removes vaddr len s k h a c t = (
    _,
    _,
    munmap_serve-tracked vaddr len n s k h c refl a all,
    r.entries,
    λ w room. r.kept w (omega (arith, length-replicate {A = ℕ} n 0)),
    ap (λ x. if add64 vaddr (round_up mega len) == x then vaddr else x) r.top,
    r.devframes,
  )
    where
      n : ℕ
      n = round_up mega len / mega

      all : all_tracked n vaddr s.mmap ≡ true
      all =
          subst (λ m. all_tracked m vaddr s.mmap ≡ true) (length-replicate n 0)
            (all_tracked-run vaddr (replicate n 0) s.mmap (λ v p q. p (omega (arith, t v, q))))

      r : Removed s vaddr (replicate n 0) (unmap_pages kernel n vaddr s k).0
      r =
          subst (λ m. Removed s vaddr (replicate n 0) (unmap_pages kernel m vaddr s k).0)
            (length-replicate n 0) (unmap_pages-Removed vaddr (replicate n 0) s k t)
