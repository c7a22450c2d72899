-- ===== src/Mem/Returned.antt =====
-- taskman/mem/mmap.c: a mapping that is taken back.
use lq.Base.{
  ℕ, ◌+◌, ◌*◌, ◌/◌, ◌%◌, ◌≤◌, ◌<◌, ◌≡◌, ◌≢◌, refl, sym, ap, subst, ◌∙◌, some, List, [], ◌∷◌, ◌++◌,
  arith, ltb, ◌==◌, ==_iff, unequal, length, add64, w64, ok, value, Bool-cases, inl, inr,
  if◌then◌else◌, append-nil,
}
use lq.Mem.Space.{Page, Space, Limits, Kernel, mega, round_up, free_max}
use lq.Mem.Anonymous.{Rights, mmap_anonymous}
use lq.Mem.Unmap.{find_mmap_idx, swap_last, park, unmap_pages, munmap_serve}
use lq.Mem.Mapped.{run, mmap_anonymous_lem}
use lq.Mem.Entries.{
  at, occ, find_mmap_idx-occ, total-swap_last, get_elem?-lt, total-append, swap_last-append,
}
use lq.Mem.Unmapped.{at_va, Clear, all_tracked-run, munmap_serve-tracked}

-- Every entry lies below the address.
abbrev pub Below : ℕ → List Page → Type 0
Below b [] = Unit
Below b (p ∷ ps) = (p.va < b) × Below b ps

Below-le : (a b : ℕ) (ps : List Page) → a ≤ b → Below a ps → Below b ps
Below-le a b [] h k = tt
Below-le a b (p ∷ ps) h k = (omega (arith, k.0), Below-le a b ps h k.1)

Below-Clear : (b vaddr len : ℕ) (ps : List Page) → b ≤ vaddr → Below b ps → Clear vaddr len ps
Below-Clear b vaddr len [] h k = tt
Below-Clear b vaddr len (p ∷ ps) h k = (ground (arith, k.0), Below-Clear b vaddr len ps h k.1)

round_up-le : (x : ℕ) → x + mega < w64 → x ≤ round_up mega x
round_up-le x h = omega arith

round_up_aligned : (x : ℕ) → round_up mega x % mega ≡ 0
round_up_aligned x = omega arith

pages-lt : (x : ℕ) → x + mega < w64 → mega * (round_up mega x / mega) < x + mega
pages-lt x h = omega arith

find_mmap_idx-append :
    (va i : ℕ) (p : Page) (ps qs : List Page)
    → Below va ps
    → find_mmap_idx va qs ≡ some (i, p)
    → find_mmap_idx va (ps ++ qs) ≡ some (length ps + i, p)
unfolding find_mmap_idx
find_mmap_idx-append va i p [] qs k h = h ∙ ap (λ j. some (j, p)) (omega arith)
find_mmap_idx-append va i p (x ∷ ps) qs k h =
    rw (unequal x.va va (omega (arith, k.0)), find_mmap_idx-append va i p ps qs k.1 h)
      (ap (λ j. some (j, p)) (omega arith))

no_entries : (qs : List Page) → ((v : ℕ) → occ v qs ≡ 0) → qs ≡ []
no_entries [] h = refl
no_entries (q ∷ qs) h = absurd (omega (arith, rw ((==_iff q.va q.va).1 refl) at (h q.va)))

module _ {K : Type 0} (kernel : Kernel K) where
  park_same :
      (f : ℕ) (s : Space) (k : K)
      → let s' = (park kernel f s k).0 in
        (s'.mmap ≡ s.mmap) × (s'.top ≡ s.top) × (s'.devframes ≡ s.devframes) × (s'.mprot ≡ s.mprot)
  unfolding park
  park_same f s k = elim (Bool-cases (ltb (length s.free_list) free_max)) [
    | inl t ↦ rw (park, t) (refl, refl, refl, refl)
    | inr t ↦ rw (park, t) (refl, refl, refl, refl)
  ]

  -- The second sweep over the pages of the last part of the tracker leaves the first part.
  unmap_pages-append :
      (va : ℕ) (fs : List ℕ) (ps qs : List Page) (s : Space) (k : K)
      → s.mmap ≡ ps ++ qs
      → Below va ps
      → va + mega * length fs < w64
      → ((v : ℕ) → occ v qs ≡ occ v (run va fs))
      → let s' = (unmap_pages kernel (length fs) va s k).0 in
        (s'.mmap ≡ ps) × (s'.top ≡ s.top) × (s'.devframes ≡ s.devframes) × (s'.mprot ≡ s.mprot)
  unfolding unmap_pages
  unmap_pages-append va [] ps qs s k e b w o =
      (e ∙ ap (λ xs. ps ++ xs) (no_entries qs o) ∙ append-nil ps, refl, refl, refl)
  unmap_pages-append va (f ∷ fs) ps qs s k e b w o = elim (find_mmap_idx-occ va qs) [
    | inl (q, z) ↦ absurd (omega (arith, rw ((==_iff va va).1 refl) at (o va), z))
    | inr (i, p, q, pv, g) ↦
        let found : find_mmap_idx va s.mmap ≡ some (length ps + i, p) =
          ap (find_mmap_idx va) e ∙ find_mmap_idx-append va i p ps qs b q in
        rw (found, unmap_pages)
          (let s1 : Space = (park kernel p.frame s (kernel.unmap_page p.frame k)).0 in
            let same = park_same p.frame s (kernel.unmap_page p.frame k) in
            let ih =
              unmap_pages-append (add64 va mega) fs ps (swap_last i qs)
                (record s1 { mmap = swap_last (length ps + i) s1.mmap })
                (park kernel p.frame s (kernel.unmap_page p.frame k)).1
                (ap (swap_last (length ps + i)) (same.0 ∙ e)
                  ∙ swap_last-append ps qs i (omega (arith, get_elem?-lt qs i p g)))
                (Below-le va (add64 va mega) ps (omega arith) b) (omega arith)
                (λ v. omega (arith, o v, total-swap_last (at v) qs i p g, at_va v va f p pv)) in
            (ih.0, ih.1 ∙ same.1, ih.2 ∙ same.2, ih.3 ∙ same.3))
  ]

  rewind : (a b t : ℕ) → t ≡ a → (if a == t then b else t) ≡ b
  rewind a b t e = rw ((==_iff a t).1 (sym e)) refl

  abbrev Returns : ℕ → ℕ → Space → K → Space → Type 0
  Returns base len s k s0 =
      (s' : Space) × (k' : K) × (munmap_serve kernel base len (some s) k ≡ (ok, (some s', k')))
      × (s'.mmap ≡ s0.mmap)
      × (s'.top ≡ base)
      × (s'.devframes ≡ s0.devframes)
      × (s'.mprot ≡ s0.mprot)

  run-Returns :
      (base len : ℕ) (fs : List ℕ) (s s0 : Space) (k : K)
      → len ≢ 0
      → round_up mega len / mega ≡ length fs
      → base % mega ≡ 0
      → base + mega * length fs < w64
      → Below base s0.mmap
      → Clear base len s.devframes
      → s.mmap ≡ s0.mmap ++ run base fs
      → s.devframes ≡ s0.devframes
      → s.mprot ≡ s0.mprot
      → s.top ≡ add64 base (round_up mega len)
      → Returns base len s k s0
  run-Returns base len fs s s0 k h n a w b c m d p t = (
    _,
    _,
    munmap_serve-tracked kernel base len (length fs) s k h c n a (
        all_tracked-run base fs s.mmap
          (λ v q z. q (omega (arith, ap (occ v) m, total-append (at v) s0.mmap (run base fs), z)))),
    r.0,
    rewind (add64 base (round_up mega len)) base _ (r.1 ∙ t),
    r.2 ∙ d,
    r.3 ∙ p,
  )
    where
      r :
          let s' = (unmap_pages kernel (length fs) base s k).0 in
          (s'.mmap ≡ s0.mmap)
          × (s'.top ≡ s.top)
          × (s'.devframes ≡ s.devframes)
          × (s'.mprot ≡ s.mprot)
      r = unmap_pages-append base fs s0.mmap (run base fs) s k m b w (λ v. refl)

  module _ (rights : Rights) (limits : Limits) where
    -- An anonymous mapping that succeeds and is taken back at once, in full, by `tm_munmap_serve` leaves
    -- the tracker of the process, entry for entry, as it was, and the cursor where the mapping began: at
    -- the old cursor rounded up. All entries lie below the cursor, and the mapping ends before 2^64.
    pub munmap_serve-mmap_anonymous :
        (len base : ℕ) (s : Space) (k k1 : K)
        → len ≢ 0
        → s.top + mega < w64
        → round_up mega s.top + len + mega < w64
        → Below s.top s.mmap
        → Below s.top s.devframes
        → (mmap_anonymous kernel rights limits len s k).0 ≡ value base
        → let s1 = (mmap_anonymous kernel rights limits len s k).1.0 in
          (s' : Space) × (k' : K) × (munmap_serve kernel base len (some s1) k1
            ≡ (ok, (some s', k')))
          × (s'.mmap ≡ s.mmap)
          × (s'.top ≡ base)
          × (s'.devframes ≡ s.devframes)
          × (s'.mprot ≡ s.mprot)
    munmap_serve-mmap_anonymous len base s k k1 h u w bm bd a =
        let (fs, m, d, p, r) = mmap_anonymous_lem kernel rights limits len s k in
        elim r [
          | inr (e, q, l, z, t) ↦ absurd (ground (arith, q, a))
          | inl (q, l, t) ↦
              let same : round_up mega s.top ≡ base = ground (arith, q, a) in
              let low : s.top ≤ base = omega (arith, same, round_up-le s.top u) in
              run-Returns base len fs (mmap_anonymous kernel rights limits len s k).1.0 s k1 h
                (sym l) (ap (λ b. b % mega) (sym same) ∙ round_up_aligned s.top)
                (omega (arith, same, l, pages-lt len (omega arith)))
                (Below-le s.top base s.mmap low bm)
                (subst (Clear base len) (sym d) (Below-Clear s.top base len s.devframes low bd))
                (subst
                  (λ b. (mmap_anonymous kernel rights limits len s k).1.0.mmap ≡ s.mmap ++ run b fs)
                  same m)
                d p
                (subst
                  (λ b.
                    (mmap_anonymous kernel rights limits len s k).1.0.top
                    ≡ add64 b (round_up mega len))
                  same t)
        ]
