-- ===== src/Alloc/Fresh.antt =====
-- taskman/proc/process.c: no number is held twice.
use lq.Base.{
  List-cases, subst, ==_iff, eq_or_ne, unequal, ℕ, ◌+◌, ◌≤◌, ◌≡◌, refl, Bool-cases, inl, inr, some,
  List, [], ◌∷◌, arith, leb, ltb, ◌==◌, if◌then◌else◌, length,
}
use lq.Alloc.Numbers.{Numbers, pid_alloc, slot_alloc, push, pid_free, slot_free}

abbrev pub count : ℕ → List ℕ → ℕ
count n [] = 0
count n (x ∷ xs) = (if x == n then 1 else 0) + count n xs

-- Each number below `next` is held or free at most once, and no other is.
pub record Fresh (live : List ℕ) (s : Numbers) : Type 0 where
  pub once : (n : ℕ) → count n live + count n s.free_list ≤ 1
  pub below : (n : ℕ) → s.next ≤ n → count n live + count n s.free_list ≡ 0

module _ (live : List ℕ) where
  reuse-Fresh :
      (s : Numbers) (p : ℕ) (rest : List ℕ)
      → s.free_list ≡ p ∷ rest
      → Fresh live s
      → (count p live ≡ 0) × Fresh (p ∷ live) (record s { free_list = rest })
  reuse-Fresh s p rest e v =
      let once : (n : ℕ) → count n live + count n (p ∷ rest) ≤ 1 =
        subst (λ xs. (n : ℕ) → count n live + count n xs ≤ 1) e v.once in
      let below : (n : ℕ) → s.next ≤ n → count n live + count n (p ∷ rest) ≡ 0 =
        subst (λ xs. (n : ℕ) → s.next ≤ n → count n live + count n xs ≡ 0) e v.below in
      (
        ground (arith, once p, (==_iff p p).1 refl),
        record { once = λ n. omega (arith, once n); below = λ n h. omega (arith, below n h) },
      )

  count_up-Fresh :
      (s : Numbers)
      → Fresh live s
      → (count s.next live ≡ 0) × Fresh (s.next ∷ live) (record s { next = s.next + 1 })
  count_up-Fresh s v =
      let new = v.below s.next (omega arith) in
      (
        omega (arith, new),
        record {
          once = λ n. elim (eq_or_ne s.next n) [
            | inl e ↦ let none_yet = v.below n (omega (arith, e)) in ground (arith, none_yet, e)
            | inr h ↦ rw (unequal s.next n h) (omega (arith, v.once n))
          ];
          below = λ n h.
              rw (unequal s.next n (λ e. omega (arith, e, h)))
                (omega (arith, v.below n (omega (arith, h))));
        },
      )

  -- A pid that is handed out is held by nobody, and with it held no pid is held twice.
  pub pid_alloc-Fresh :
      (limit p : ℕ) (s : Numbers)
      → Fresh live s
      → (pid_alloc limit s).0 ≡ some p
      → (count p live ≡ 0) × Fresh (p ∷ live) (pid_alloc limit s).1
  unfolding pid_alloc
  pid_alloc-Fresh limit p s v h = elim (List-cases s.free_list) [
    | inr (q, rest, e) ↦
        let h' : some q ≡ some p = rw (e, pid_alloc) at h in
        let same : q ≡ p = ground (arith, h') in
        rw (e, pid_alloc)
          (subst (λ x. (count x live ≡ 0) × Fresh (x ∷ live) (record s { free_list = rest })) same
            (reuse-Fresh s q rest e v))
    | inl e ↦ elim (Bool-cases (leb limit s.next)) [
      | inl full ↦ absurd (ground (arith, (rw (e, full, pid_alloc) at h)))
      | inr space ↦
          let h' : some s.next ≡ some p = rw (e, space, pid_alloc) at h in
          let same : s.next ≡ p = ground (arith, h') in
          rw (e, space, pid_alloc)
            (subst (λ x. (count x live ≡ 0) × Fresh (x ∷ live) (record s { next = s.next + 1 }))
              same (count_up-Fresh s v))
    ]
  ]

  -- A slot that is handed out is held by nobody, and with it held no slot is held twice.
  pub slot_alloc-Fresh :
      (s : Numbers)
      → Fresh live s
      → (count (slot_alloc s).0 live ≡ 0) × Fresh ((slot_alloc s).0 ∷ live) (slot_alloc s).1
  unfolding slot_alloc
  slot_alloc-Fresh s v = elim (List-cases s.free_list) [
    | inl e ↦ rw (e, slot_alloc) (count_up-Fresh s v)
    | inr (q, rest, e) ↦ rw (e, slot_alloc) (reuse-Fresh s q rest e v)
  ]

  drop-Fresh : (n : ℕ) (s : Numbers) → Fresh (n ∷ live) s → Fresh live s
  drop-Fresh n s v = record {
    once = λ m. omega (arith, v.once m);
    below = λ m h. omega (arith, v.below m h);
  }

  push-Fresh : (room n : ℕ) (s : Numbers) → Fresh (n ∷ live) s → Fresh live (push room n s)
  push-Fresh room n s v = elim (Bool-cases (ltb (length s.free_list) room)) [
    | inl space ↦
        rw space (record {
          once = λ m. omega (arith, v.once m);
          below = λ m h. omega (arith, v.below m h);
        })
    | inr full ↦ rw full (drop-Fresh n s v)
  ]

  -- A pid that its holder gives back is free at most once and held by nobody else, also when the
  -- stack is full or the pid is the task manager's.
  pub pid_free-Fresh :
      (limit taskman p : ℕ) (s : Numbers)
      → Fresh (p ∷ live) s
      → Fresh live (pid_free limit taskman p s)
  unfolding pid_free
  pid_free-Fresh limit taskman p s v = elim (Bool-cases (leb p taskman)) [
    | inl own ↦ rw own (drop-Fresh p s v)
    | inr other ↦ rw other (push-Fresh limit p s v)
  ]

  -- A slot that its holder gives back is free at most once and held by nobody else, also when the
  -- stack is full or the slot is 0.
  pub slot_free-Fresh :
      (slot : ℕ) (s : Numbers) → Fresh (slot ∷ live) s → Fresh live (slot_free slot s)
  unfolding slot_free
  slot_free-Fresh slot s v = elim (Bool-cases (slot == 0)) [
    | inl own ↦ rw own (drop-Fresh slot s v)
    | inr other ↦ rw other (push-Fresh 256 slot s v)
  ]
