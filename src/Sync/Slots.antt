-- ===== src/Sync/Slots.antt =====
-- libc/qsoe/sync.c: a write to one entry of the table, seen address by address.
use lq.Base.{
  ℕ, zero, suc, ◌≡◌, ◌≢◌, refl, sym, ap, subst, ◌∙◌, ==_iff, Bool, true, false, ◌&&◌, Option, none,
  some, List, [], ◌∷◌, arith, ◌==◌, if◌then◌else◌, Bool-cases, inl, inr, ◌⊎◌, set,
}
use lq.Sync.Entry.{SyncEntry, is_idle, retire_if_idle}
use lq.Sync.Table.{Table, keyed, find_entry, alloc_entry}
use lq.Sync.Fifo.{Good, queue, is_idle-none, is_idle-some}

-- What an address has in the table.
pub record Waiting : Type 0 where
  pub credit : ℕ
  pub gen : ℕ
  pub parked : List ℕ

abbrev pub waiting : SyncEntry → Waiting
waiting e = record { credit = e.credit; gen = e.gen; parked = queue e }

abbrev pub fresh : Waiting
fresh = record { credit = 0; gen = 0; parked = [] }

-- The entry keyed by an address.
abbrev pub lookup : ℕ → Table → Option SyncEntry
lookup a [] = none
lookup a (e ∷ t) = if keyed a e then some e else lookup a t

abbrev pub seen : Option SyncEntry → Option Waiting
seen none = none
seen (some e) = some (waiting e)

abbrev pub view : ℕ → Table → Option Waiting
view a t = seen (lookup a t)

abbrev pub Distinct : Table → Type 0
Distinct [] = Unit
Distinct (e ∷ t) = (e.in_use ≡ true → lookup e.addr t ≡ none) × Distinct t

abbrev pub AllGood : Table → Type 0
AllGood [] = Unit
AllGood (e ∷ t) = Good e × AllGood t

-- No two entries share an address, and each is in order.
pub record Inv (t : Table) : Type 0 where
  pub distinct : Distinct t
  pub good : AllGood t

-- The entry at `i` may be written for `a`: it is unused or has that address, and no other has it.
abbrev pub Slot : ℕ → Table → ℕ → Type 0
Slot a [] i = ⊥
Slot a (e ∷ t) zero = (lookup a t ≡ none) × ((e.in_use ≡ false) ⊎ (e.addr ≡ a))
Slot a (e ∷ t) (suc i) = (keyed a e ≡ false) × Slot a t i

keyed-true : (a : ℕ) (e : SyncEntry) → keyed a e ≡ true → (e.in_use ≡ true) × (e.addr ≡ a)
keyed-true a e h = ground arith

keyed-false : (a : ℕ) (e : SyncEntry) → e.addr ≢ a → keyed a e ≡ false
keyed-false a e h = ground arith

keyed_unused : (a : ℕ) (e : SyncEntry) → e.in_use ≡ false → keyed a e ≡ false
keyed_unused a e h = rw h refl

foreign : (a b : ℕ) (e : SyncEntry) → b ≢ a → (e.in_use ≡ false) ⊎ (e.addr ≡ a) → keyed b e ≡ false
foreign a b e h (inl u) = keyed_unused b e u
foreign a b e h (inr k) = keyed-false b e (λ p. h (sym p ∙ k))

lookup-set_self :
    (a : ℕ) (t : Table) (i : ℕ) (e' : SyncEntry)
    → Slot a t i
    → lookup a (set t i e') ≡ (if keyed a e' then some e' else none)
lookup-set_self a [] i e' s = absurd s
lookup-set_self a (e ∷ t) zero e' s = rw s.0 refl
lookup-set_self a (e ∷ t) (suc i) e' s = rw s.0 (lookup-set_self a t i e' s.1)

lookup-set_other :
    (a b : ℕ) (t : Table) (i : ℕ) (e' : SyncEntry)
    → b ≢ a
    → e'.addr ≡ a
    → Slot a t i
    → lookup b (set t i e') ≡ lookup b t
lookup-set_other a b [] i e' h k s = absurd s
lookup-set_other a b (e ∷ t) zero e' h k s = rw (foreign a b e' h (inr k), foreign a b e h s.1) refl
lookup-set_other a b (e ∷ t) (suc i) e' h k s = elim (Bool-cases (keyed b e)) [
  | inl t ↦ rw t refl
  | inr f ↦ rw f (lookup-set_other a b t i e' h k s.1)
]

Distinct-set :
    (a : ℕ) (t : Table) (i : ℕ) (e' : SyncEntry)
    → e'.addr ≡ a
    → Slot a t i
    → Distinct t
    → Distinct (set t i e')
Distinct-set a [] i e' k s d = absurd s
Distinct-set a (e ∷ t) zero e' k s d = (λ u. ap (λ b. lookup b t) k ∙ s.0, d.1)
Distinct-set a (e ∷ t) (suc i) e' k s d = (
  λ u. lookup-set_other a e.addr t i e' (λ p. ground arith) k s.1 ∙ d.0 u,
  Distinct-set a t i e' k s.1 d.1,
)

AllGood-set : (t : Table) (i : ℕ) (e' : SyncEntry) → Good e' → AllGood t → AllGood (set t i e')
AllGood-set [] i e' g gs = tt
AllGood-set (e ∷ t) zero e' g gs = (g, gs.1)
AllGood-set (e ∷ t) (suc i) e' g gs = (gs.0, AllGood-set t i e' g gs.1)

-- What `find_entry` finds.
pub find_entry-lem :
    (a : ℕ) (t : Table)
    → Inv t
    → ((find_entry a t ≡ none) × (lookup a t ≡ none))
      ⊎ ((i : ℕ) × (e : SyncEntry) × (find_entry a t ≡ some (i, e))
          × (lookup a t ≡ some e)
          × (keyed a e ≡ true)
          × Good e
          × Slot a t i)
unfolding find_entry
find_entry-lem a [] v = inl (refl, refl)
find_entry-lem a (e ∷ t) v = elim (Bool-cases (keyed a e)) [
  | inl k ↦
      let (u, n) = keyed-true a e k in
      inr (
        0,
        e,
        rw k refl,
        rw k refl,
        k,
        v.good.0,
        (subst (λ b. lookup b t ≡ none) n (v.distinct.0 u), inr n),
      )
  | inr f ↦ elim (find_entry-lem a t record { distinct = v.distinct.1; good = v.good.1 }) [
    | inl (p, q) ↦ inl (rw (f, p, find_entry) refl, rw f q)
    | inr (i, e', p, q, k, g, s) ↦ inr (suc i, e', rw (f, p, find_entry) refl, rw f q, k, g, (f, s))
  ]
]

lookup-none :
    (a : ℕ) (e : SyncEntry) (t : Table)
    → lookup a (e ∷ t) ≡ none
    → (keyed a e ≡ false) × (lookup a t ≡ none)
lookup-none a e t h = elim (Bool-cases (keyed a e)) [
  | inl k ↦ ground (arith, k, h)
  | inr f ↦ (f, (rw f at h))
]

abbrev pub all_used : Table → Bool
all_used [] = true
all_used (e ∷ t) = e.in_use && all_used t

-- What `alloc_entry` hands out.
pub alloc_entry-lem :
    (a : ℕ) (t : Table)
    → Inv t
    → lookup a t ≡ none
    → ((alloc_entry a t ≡ none) × (all_used t ≡ true))
      ⊎ ((i : ℕ) × (e : SyncEntry) × (alloc_entry a t ≡ some (i, e))
          × (keyed a e ≡ true)
          × (waiting e ≡ fresh)
          × Good e
          × Slot a t i)
unfolding alloc_entry
alloc_entry-lem a [] v h = inl (refl, refl)
alloc_entry-lem a (e ∷ t) v h = elim (Bool-cases e.in_use) [
  | inl u ↦
      let (f, n) = lookup-none a e t h in
      elim (alloc_entry-lem a t record { distinct = v.distinct.1; good = v.good.1 } n) [
        | inl (p, q) ↦ inl (rw (u, p, alloc_entry) refl, rw (u, q) refl)
        | inr (i, e', p, k, w, g, s) ↦ inr (suc i, e', rw (u, p, alloc_entry) refl, k, w, g, (f, s))
      ]
  | inr f ↦ inr (
    0,
    record e { addr = a; in_use = true; credit = 0; gen = 0; nwaiters = 0 },
    rw f refl,
    (==_iff a a).1 refl,
    refl,
    record { room = v.good.0.room; count = omega arith; credits = omega arith; live = tt },
    ((lookup-none a e t h).1, inl f),
  )
]

-- An address with nobody parked and no credit leaves the table.
abbrev pub settled : Waiting → Option Waiting
settled s = elim s.parked [ [] ↦ if s.credit == 0 then none else some s | _ ↦ some s ]

-- `t'` is `t` but for the address `a`, which now has `s`.
pub record Acts (a : ℕ) (t : Table) (s : Option Waiting) (t' : Table) : Type 0 where
  pub inv : Inv t'
  pub at : view a t' ≡ s
  pub frame : (b : ℕ) → b ≢ a → view b t' ≡ view b t

module _ (a : ℕ) (t : Table) (v : Inv t) where
  pub Acts-refl : Acts a t (view a t) t
  Acts-refl = record { inv = v; at = refl; frame = λ b h. refl }

  write-Acts :
      (i : ℕ) (e' : SyncEntry)
      → Slot a t i
      → e'.addr ≡ a
      → Good e'
      → Acts a t (seen (if keyed a e' then some e' else none)) (set t i e')
  write-Acts i e' s k g = record {
    inv = record {
      distinct = Distinct-set a t i e' k s v.distinct;
      good = AllGood-set t i e' g v.good;
    };
    at = ap seen (lookup-set_self a t i e' s);
    frame = λ b h. ap seen (lookup-set_other a b t i e' h k s);
  }

  pub store-Acts :
      (i : ℕ) (e' : SyncEntry)
      → Slot a t i
      → keyed a e' ≡ true
      → Good e'
      → Acts a t (some (waiting e')) (set t i e')
  store-Acts i e' s k g =
      subst (λ b. Acts a t (seen (if b then some e' else none)) (set t i e')) k
        (write-Acts i e' s (keyed-true a e' k).1 g)

  is_idle-settled :
      (e' : SyncEntry) (q : List ℕ)
      → queue e' ≡ q
      → keyed a e' ≡ true
      → Good e'
      → seen (if keyed a (retire_if_idle e') then some (retire_if_idle e') else none)
        ≡ settled (waiting e')
  unfolding retire_if_idle
  is_idle-settled e' [] p k g = elim (Bool-cases (e'.credit == 0)) [
    | inl z ↦ rw (is_idle-none e' g p, p, z) refl
    | inr z ↦
        rw (is_idle-none e' g p, p, z, k)
          (ap (λ q. some (record { credit = e'.credit; gen = e'.gen; parked = q })) p)
  ]
  is_idle-settled e' (n ∷ ns) p k g =
      rw (is_idle-some e' p, p, k)
        (ap (λ q. some (record { credit = e'.credit; gen = e'.gen; parked = q })) p)

  retire_if_idle-Good : (e' : SyncEntry) → Good e' → Good (retire_if_idle e')
  unfolding retire_if_idle
  retire_if_idle-Good e' g = elim (Bool-cases (is_idle e')) [
    | inl i ↦ rw i (record { room = g.room; count = g.count; credits = g.credits; live = g.live })
    | inr f ↦ rw f g
  ]

  retire_if_idle-addr : (e' : SyncEntry) → (retire_if_idle e').addr ≡ e'.addr
  unfolding retire_if_idle
  retire_if_idle-addr e' = elim (Bool-cases (is_idle e')) [ inl i ↦ rw i refl | inr f ↦ rw f refl ]

  pub retire-Acts :
      (i : ℕ) (e' : SyncEntry)
      → Slot a t i
      → keyed a e' ≡ true
      → Good e'
      → Acts a t (settled (waiting e')) (set t i (retire_if_idle e'))
  retire-Acts i e' s k g =
      subst (λ w. Acts a t w (set t i (retire_if_idle e'))) (is_idle-settled e' (queue e') refl k g)
        (write-Acts i (retire_if_idle e') s (retire_if_idle-addr e' ∙ (keyed-true a e' k).1)
          (retire_if_idle-Good e' g))
