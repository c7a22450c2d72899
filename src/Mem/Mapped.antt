-- ===== src/Mem/Mapped.antt =====
-- taskman/mem/mmap.c: what an anonymous mapping adds to the tracker.
use lq.Base.{
  List-cases, ℕ, zero, suc, ◌/◌, ◌<◌, ◌≡◌, refl, sym, ap, ◌∙◌, List, [], ◌∷◌, ◌++◌, arith, leb,
  length, add64, Status, ok, err, Errno, value, fail, Bool-cases, Option-cases, inl, inr, ◌⊎◌,
  append_assoc, append-nil,
}
use lq.Mem.Space.{Page, Space, Limits, Kernel, mega, round_up}
use lq.Mem.Anonymous.{Rights, map_frame, map_one, map_pages, mmap_anonymous}

-- Pages one after the other from `va` on.
abbrev pub run : ℕ → List ℕ → List Page
run va [] = []
run va (f ∷ fs) = record { va = va; frame = f } ∷ run (add64 va mega) fs

-- The address of the `m`-th page from `va` on.
abbrev pub page_at : ℕ → ℕ → ℕ
page_at va zero = va
page_at va (suc m) = page_at (add64 va mega) m

-- The tracker has grown by `ps`; the cursor and the other registries are as before.
pub record Grown (s : Space) (ps : List Page) (s' : Space) : Type 0 where
  pub mmap : s'.mmap ≡ s.mmap ++ ps
  pub top : s'.top ≡ s.top
  pub devframes : s'.devframes ≡ s.devframes
  pub mprot : s'.mprot ≡ s.mprot

Grown-refl : (s : Space) → Grown s [] s
Grown-refl s = record { mmap = sym (append-nil s.mmap); top = refl; devframes = refl; mprot = refl }

Grown-trans :
    {s s' s'' : Space} {ps qs : List Page}
    → Grown s ps s'
    → Grown s' qs s''
    → Grown s (ps ++ qs) s''
Grown-trans {s = s} {ps = ps} {qs = qs} g h = record {
  mmap = h.mmap ∙ ap (λ xs. xs ++ qs) g.mmap ∙ append_assoc s.mmap ps qs;
  top = h.top ∙ g.top;
  devframes = h.devframes ∙ g.devframes;
  mprot = h.mprot ∙ g.mprot;
}

module _ {K : Type 0} (kernel : Kernel K) (rights : Rights) (limits : Limits) where
  -- What a step that may map the page `va` does.
  abbrev MapsOne : ℕ → Space → Status × (Space × K) → Type 0
  MapsOne va s r =
      ((f : ℕ) × (r.0 ≡ ok) × Grown s (record { va = va; frame = f } ∷ []) (r.1.0))
      ⊎ ((e : Errno) × (r.0 ≡ err e) × Grown s [] (r.1.0))

  map_frame_lem :
      (f va : ℕ) (s : Space) (k : K) → MapsOne va s (map_frame kernel rights limits f va s k)
  unfolding map_frame
  map_frame_lem f va s k =
      elim (Bool-cases ((kernel.map_page f va rights.all rights.attr_default k).0)) [
        | inl t ↦ elim (Bool-cases (leb limits.mmap (length s.mmap))) [
          | inl full ↦ rw (t, full) (inr (_, refl, Grown-refl s))
          | inr room ↦
              rw (t, room)
                (inl (f, refl, record { mmap = refl; top = refl; devframes = refl; mprot = refl }))
        ]
        | inr t ↦ rw t (inr (_, refl, Grown-refl s))
      ]

  popped :
      (va : ℕ) (s : Space) (r : Status × (Space × K)) (rest : List ℕ)
      → MapsOne va (record s { free_list = rest }) r
      → MapsOne va s r
  popped va s r rest (inl (f, q, g)) =
      inl (f, q, record { mmap = g.mmap; top = g.top; devframes = g.devframes; mprot = g.mprot })
  popped va s r rest (inr (e, q, g)) =
      inr (e, q, record { mmap = g.mmap; top = g.top; devframes = g.devframes; mprot = g.mprot })

  map_one_lem : (va : ℕ) (s : Space) (k : K) → MapsOne va s (map_one kernel rights limits va s k)
  unfolding map_one
  map_one_lem va s k = elim (List-cases s.free_list) [
    | inr (f, rest, q) ↦ elim (Bool-cases ((kernel.zero_frame f k).0)) [
      | inl t ↦
          simp (map_one, q, t)
            (popped va s
              (map_frame kernel rights limits f va (record s { free_list = rest })
                (kernel.zero_frame f k).1)
              rest (map_frame_lem f va (record s { free_list = rest }) (kernel.zero_frame f k).1))
      | inr t ↦ simp (map_one, q, t) (inr (_, refl, Grown-refl s))
    ]
    | inl q ↦ elim (Option-cases ((kernel.alloc_mega k).0)) [
      | inl t ↦ simp (map_one, q, t) (inr (_, refl, Grown-refl s))
      | inr (f, t) ↦ simp (map_one, q, t) (map_frame_lem f va s (kernel.alloc_mega k).1)
    ]
  ]

  -- The pages before the `m`-th from `va` on are mapped, and the `m`-th is not.
  abbrev pub StopsAt : ℕ → ℕ → Space → K → Errno → Type 0
  StopsAt m va s k e =
      let (status, (s', k')) = map_pages kernel rights limits m va s k in
      (status ≡ ok) × ((map_one kernel rights limits (page_at va m) s' k').0 ≡ err e)

  StopsAt-suc :
      (m va : ℕ) (s : Space) (k : K) (e : Errno)
      → (map_one kernel rights limits va s k).0 ≡ ok
      → StopsAt m
          (add64 va mega)
          (map_one kernel rights limits va s k).1.0
          (map_one kernel rights limits va s k).1.1
          e
      → StopsAt (suc m) va s k e
  unfolding map_pages
  StopsAt-suc m va s k e q z = rw (q, map_pages) z

  -- What `n` steps from `va` on do: all pages are mapped, or those before the first that fails.
  abbrev MapsRun : ℕ → ℕ → Space → K → Status × (Space × K) → Type 0
  MapsRun n va s k r =
      (fs : List ℕ) × Grown s (run va fs) (r.1.0)
      × (((r.0 ≡ ok) × (length fs ≡ n))
          ⊎ ((e : Errno) × (r.0 ≡ err e) × (length fs < n) × StopsAt (length fs) va s k e))

  map_pages_lem :
      (n va : ℕ) (s : Space) (k : K) → MapsRun n va s k (map_pages kernel rights limits n va s k)
  unfolding map_pages
  map_pages_lem zero va s k = ([], Grown-refl s, inl (refl, refl))
  map_pages_lem (suc n) va s k = elim (map_one_lem va s k) [
    | inl (f, q, g) ↦
        rw (q, map_pages)
          (let (fs, h, r) =
              map_pages_lem n (add64 va mega) (map_one kernel rights limits va s k).1.0
                (map_one kernel rights limits va s k).1.1 in
            (
              f ∷ fs,
              Grown-trans g h,
              elim r [
                | inl (t, l) ↦ inl (t, ap suc l)
                | inr (e, t, l, z) ↦ inr (e, t, omega arith, StopsAt-suc (length fs) va s k e q z)
              ],
            ))
    | inr (e, q, g) ↦ rw (q, map_pages) ([], g, inr (e, refl, omega arith, (refl, q)))
  ]

  -- An anonymous mapping that answers an address appends one entry for each page of the rounded
  -- length, at consecutive addresses from the rounded cursor on, and moves the cursor behind them. One
  -- that fails maps the pages before the first that cannot be mapped, whose error it answers, keeps
  -- exactly their entries in the tracker, and leaves the cursor.
  -- In both cases the other entries and registries are as before.
  pub mmap_anonymous_lem :
      (len : ℕ) (s : Space) (k : K)
      → let (answer, (s', k')) = mmap_anonymous kernel rights limits len s k in
        let base = round_up mega s.top in
        let pages = round_up mega len / mega in
        (fs : List ℕ) × (s'.mmap ≡ s.mmap ++ run base fs)
        × (s'.devframes ≡ s.devframes)
        × (s'.mprot ≡ s.mprot)
        × (((answer ≡ value base) × (length fs ≡ pages) × (s'.top ≡ add64 base (round_up mega len)))
            ⊎ ((e : Errno) × (answer ≡ fail e)
                × (length fs < pages)
                × StopsAt (length fs) base s k e
                × (s'.top ≡ s.top)))
  unfolding mmap_anonymous
  mmap_anonymous_lem len s k =
      let (fs, g, r) = map_pages_lem (round_up mega len / mega) (round_up mega s.top) s k in
      elim r [
        | inl (t, l) ↦
            rw (t, mmap_anonymous) (fs, g.mmap, g.devframes, g.mprot, inl (refl, l, refl))
        | inr (e, t, l, z) ↦
            rw (t, mmap_anonymous) (fs, g.mmap, g.devframes, g.mprot, inr (e, refl, l, z, g.top))
      ]
