-- ===== src/Pmdir/Listing.antt =====
-- taskman/path/pmdir.c: what a client reads of a directory, and what a close gives back.
use lq.Base.{
  ℕ, zero, suc, ◌+◌, ◌%◌, ◌<◌, ◌≡◌, refl, ap, sym, ◌∙◌, ◌||◌, Bool-cases, inl, inr, ◌==◌, ==_iff,
  some, List, [], ◌∷◌, arith, leb, length, map, get_elem?, set, w32, ok, value, fail, Result, Errno,
}
use lq.Chan.State.{Registry}
use lq.Chan.Connect.{get_ctx}
use lq.Chan.Attach.{get_ctx-set_ctx}
use lq.Chan.Found.{first-lem, get_elem?-set_self}
use lq.Pmdir.Table.{Slot, path_max, is_free, open_slot, slot_of, readdir, list_names, close}

-- The names of the children `k` to `k + n - 1`.
abbrev pub names_from : (ℕ → List ℕ) → ℕ → ℕ → List (List ℕ)
names_from name k zero = []
names_from name k (suc n) = name k ∷ names_from name (k + 1) n

-- The badge leads to the entry `i`, which it owns.
pub record Open (badge i : ℕ) (s : Slot) (r : Registry) (slots : List Slot) : Type 0 where
  pub ctx : get_ctx badge r ≡ some (0, i)
  pub small : i < w32
  pub at : get_elem? slots i ≡ some s
  pub own : s.badge ≡ badge

slot_of-Open :
    (badge i : ℕ) (s : Slot) (r : Registry) (slots : List Slot)
    → Open badge i s r slots
    → slot_of badge slots r ≡ value (i, s)
unfolding slot_of
slot_of-Open badge i s r slots o =
    let low : i % w32 ≡ i = omega (arith, o.small) in
    rw (slot_of, o.ctx, low, o.at, (==_iff s.badge badge).1 o.own, low) refl

bound : (xs : List Slot) (i : ℕ) (x : Slot) → get_elem? xs i ≡ some x → i < length xs
bound [] i x at = absurd (ground (arith, at))
bound (y ∷ ys) zero x at = omega arith
bound (y ∷ ys) (suc i) x at = omega (arith, bound ys i x at)

-- What a successful open leaves.
open_slot-Open :
    (path : List ℕ) (badge : ℕ) (slots : List Slot) (r : Registry)
    → length slots < w32
    → (open_slot path badge slots r).0 ≡ ok
    → let (slots', r') = (open_slot path badge slots r).1 in
      (i : ℕ) × (old : Slot) × (get_elem? slots i ≡ some old)
      × (old.badge ≡ 0)
      × (slots' ≡ set slots i (record { badge = badge; next_idx = 0; path = path }))
      × Open badge i (record { badge = badge; next_idx = 0; path = path }) r' slots'
unfolding open_slot
open_slot-Open path badge slots r small h =
    elim (Bool-cases (length path == 0 || leb path_max (length path))) [
      | inl t ↦ absurd (ground (arith, (rw (t, open_slot) at h)))
      | inr f ↦ elim (first-lem is_free slots) [
        | inl (n, nope) ↦ absurd (ground (arith, (rw (f, n, open_slot) at h)))
        | inr (i, old, found, at, t) ↦
            rw (f, found)
              (
                i,
                old,
                at,
                (==_iff old.badge 0).0 t,
                refl,
                record {
                  ctx = get_ctx-set_ctx badge 0 i r (rw (f, found, open_slot) at h);
                  small = omega (arith, bound slots i old at, small);
                  at = get_elem?-set_self slots i old _ at;
                  own = refl;
                },
              )
      ]
    ]

-- The badges of the table.
abbrev pub badges : List Slot → List ℕ
badges = map (λ s. s.badge)

badges-set :
    (xs : List Slot) (i : ℕ) (x v w : Slot)
    → get_elem? xs i ≡ some x
    → w.badge ≡ x.badge
    → badges (set (set xs i v) i w) ≡ badges xs
badges-set [] i x v w at e = refl
badges-set (y ∷ ys) zero x v w at e =
    let same : y ≡ x = ground (arith, at) in
    ap (λ n. n ∷ badges ys) (e ∙ sym (ap (λ (z : Slot). z.badge) same))
badges-set (y ∷ ys) (suc i) x v w at e = ap (λ ns. y.badge ∷ ns) (badges-set ys i x v w at e)

module _ (child_at : List ℕ → ℕ → Result (List ℕ)) (name : ℕ → List ℕ) (e : Errno) where
  readdir-Open :
      (badge i : ℕ) (s : Slot) (r : Registry) (slots : List Slot) (x : List ℕ)
      → Open badge i s r slots
      → child_at s.path s.next_idx ≡ value x
      → readdir child_at badge r slots
        ≡ (value x, set slots i (record s { next_idx = (s.next_idx + 1) % w32 }))
  unfolding readdir
  readdir-Open badge i s r slots x o c = rw (readdir, slot_of-Open badge i s r slots o, c) refl

  end :
      (badge i : ℕ) (s : Slot) (r : Registry) (slots : List Slot)
      → Open badge i s r slots
      → child_at s.path s.next_idx ≡ fail e
      → readdir child_at badge r slots ≡ (fail e, slots)
  unfolding readdir
  end badge i s r slots o c = rw (readdir, slot_of-Open badge i s r slots o, c) refl

  list_step :
      (fuel badge : ℕ) (r : Registry) (slots slots' : List Slot) (x : List ℕ) (xs : List (List ℕ))
      → readdir child_at badge r slots ≡ (value x, slots')
      → list_names child_at fuel badge r slots' ≡ some (xs, e)
      → list_names child_at (suc fuel) badge r slots ≡ some (x ∷ xs, e)
  unfolding list_names
  list_step fuel badge r slots slots' x xs here rest = rw (list_names, here, here, rest) refl

  list_lem :
      (n k badge i : ℕ) (s : Slot) (r : Registry) (slots : List Slot)
      → Open badge i s r slots
      → s.next_idx ≡ k
      → k + n < w32
      → ((j : ℕ) → j < n → child_at s.path (k + j) ≡ value (name (k + j)))
      → child_at s.path (k + n) ≡ fail e
      → list_names child_at (suc n) badge r slots ≡ some (names_from name k n, e)
  unfolding list_names
  list_lem zero k badge i s r slots o at low each last =
      let here : readdir child_at badge r slots ≡ (fail e, slots) =
        end badge i s r slots o (ap (child_at s.path) (omega (arith, at)) ∙ last) in
      rw (list_names, here) refl
  list_lem (suc n) k badge i s r slots o at low each last =
      let s' : Slot = record s { next_idx = (s.next_idx + 1) % w32 } in
      let next : s'.next_idx ≡ k + 1 = omega (arith, at, low) in
      let here = readdir-Open badge i s r slots (name k) o (
        ap (child_at s.path) (omega (arith, at))
        ∙ each 0 (omega arith)
        ∙ ap (λ j. value (name j)) (omega arith)) in
      let o' : Open badge i s' r (set slots i s') = record {
        ctx = o.ctx;
        small = o.small;
        at = get_elem?-set_self slots i s s' o.at;
        own = o.own;
      } in
      let rest =
        list_lem n (k + 1) badge i s' r (set slots i s') o' next (omega (arith, low))
          (λ j h.
            ap (child_at s.path) (omega arith)
            ∙ each (suc j) (omega (arith, h))
            ∙ ap (λ m. value (name m)) (omega arith))
          (ap (child_at s.path) (omega arith) ∙ last) in
      list_step (suc n) badge r slots (set slots i s') (name k) (names_from name (k + 1) n) here
        rest

  -- A client opens a directory with the children 0 to n - 1, less than 2^32, and reads until there is
  -- an error: where the open succeeds on a table of less than 2^32 entries, it reads the names of
  -- the children in order, each once, and ends with the error of child n.
  pub list_names-open_slot :
      (n badge : ℕ) (path : List ℕ) (slots : List Slot) (r : Registry)
      → length slots < w32
      → n < w32
      → ((j : ℕ) → j < n → child_at path j ≡ value (name j))
      → child_at path n ≡ fail e
      → (open_slot path badge slots r).0 ≡ ok
      → let (slots', r') = (open_slot path badge slots r).1 in
        list_names child_at (suc n) badge r' slots' ≡ some (names_from name 0 n, e)
  list_names-open_slot n badge path slots r small low each last h =
      let (i, old, at, free, table, o) = open_slot-Open path badge slots r small h in
      let (slots', r') = (open_slot path badge slots r).1 in
      list_lem n 0 badge i (record { badge = badge; next_idx = 0; path = path }) r' slots' o refl
        (omega (arith, low))
        (λ j h.
          ap (child_at path) (omega arith) ∙ each j h ∙ ap (λ m. value (name m)) (omega arith))
        (ap (child_at path) (omega arith) ∙ last)

-- Opening a directory and closing it leaves each entry of the table with the badge that it had. The
-- open succeeds and the table has less than 2^32 entries.
pub close-open_slot :
    (path : List ℕ) (badge : ℕ) (slots : List Slot) (r : Registry)
    → length slots < w32
    → (open_slot path badge slots r).0 ≡ ok
    → let (slots', r') = (open_slot path badge slots r).1 in
      badges (close badge r' slots') ≡ badges slots
unfolding close
close-open_slot path badge slots r small h =
    let (i, old, at, free, table, o) = open_slot-Open path badge slots r small h in
    let (slots', r') = (open_slot path badge slots r).1 in
    let s : Slot = record { badge = badge; next_idx = 0; path = path } in
    rw (close, slot_of-Open badge i s r' slots' o)
      (ap (λ xs. badges (set xs i (record s { badge = 0 }))) table
        ∙ badges-set slots i old s (record s { badge = 0 }) at (sym free))
