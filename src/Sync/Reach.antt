-- ===== src/Sync/Reach.antt =====
-- libc/qsoe/sync.c: the tables that any interleaving of the critical sections reaches.
use lq.Base.{ℕ, ◌==◌, ◌≡◌, refl, Bool-cases, inl, inr, arith, false, zero, suc, replicate}
use lq.Sync.Entry.{SyncEntry}
use lq.Sync.Table.{Table, WaitMode, WakeMode, wait_begin, wait_end, wake, empty_table, max_entries}
use lq.Sync.Fifo.{Good}
use lq.Sync.Slots.{Inv}
use lq.Sync.Refine.{wait_begin-Acts, wait_end-Acts, wake-Acts}

-- The critical sections run one at a time, under the table lock, in any order.
pub data Reached : Table → Type 0 where
  boot : Reached empty_table
  waits :
      {t : Table} (myn a : ℕ) (mode : WaitMode) (expected : ℕ)
      → Reached t
      → Reached (wait_begin myn a mode expected t).1
  ends : {t : Table} (myn a : ℕ) → Reached t → Reached (wait_end myn a t)
  wakes : {t : Table} (a max_n : ℕ) (mode : WakeMode) → Reached t → Reached (wake a max_n mode t).2

unused : (n : ℕ) (e : SyncEntry) → e.in_use ≡ false → Good e → Inv (replicate n e)
unused zero e u g = record { distinct = tt; good = tt }
unused (suc n) e u g =
    let rest = unused n e u g in
    record { distinct = (λ h. absurd (ground (arith, h, u)), rest.distinct); good = (g, rest.good) }

empty_table-Inv : Inv empty_table
unfolding empty_table
empty_table-Inv =
    unused max_entries _ refl
      record { room = refl; count = omega arith; credits = omega arith; live = tt }

wait_begin-Inv :
    (myn a : ℕ) (mode : WaitMode) (expected : ℕ) (t : Table)
    → Inv t
    → Inv (wait_begin myn a mode expected t).1
unfolding wait_begin
wait_begin-Inv myn a mode expected t v = elim (Bool-cases (a == 0)) [
  | inl z ↦ rw (z, wait_begin) v
  | inr nz ↦ elim (Bool-cases (myn == 0)) [
    | inl z ↦ rw (nz, z, wait_begin) v
    | inr live ↦ elim (wait_begin-Acts a t myn mode expected v (ground arith) (ground arith)) [
      | inl (r, acts) ↦ acts.inv
      | inr (q, full) ↦ rw q v
    ]
  ]
]

wake-Inv : (a max_n : ℕ) (mode : WakeMode) (t : Table) → Inv t → Inv (wake a max_n mode t).2
unfolding wake
wake-Inv a max_n mode t v = elim (Bool-cases (a == 0)) [
  | inl z ↦ rw (z, wake) v
  | inr nz ↦ elim (wake-Acts a max_n t mode v (ground arith)) [
    | inl (r, signals, acts) ↦ acts.inv
    | inr (q, full) ↦ rw q v
  ]
]

-- In every reached table no two entries have one address, at most four threads are parked on an
-- entry, none of them with the capability 0, and the credit is 0 or 1.
pub Reached-Inv : {t : Table} → Reached t → Inv t
Reached-Inv boot = empty_table-Inv
Reached-Inv (waits {t} myn a mode expected r) = wait_begin-Inv myn a mode expected t (Reached-Inv r)
Reached-Inv (ends {t} myn a r) = (wait_end-Acts a t myn (Reached-Inv r)).inv
Reached-Inv (wakes {t} a max_n mode r) = wake-Inv a max_n mode t (Reached-Inv r)
