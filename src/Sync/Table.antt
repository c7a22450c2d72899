-- ===== src/Sync/Table.antt =====
-- libc/qsoe/sync.c: the table, and what its two critical sections and its wake do to it.
use lq.Base.{
  replicate, add64, ℕ, suc, ◌-◌, Bool, true, false, ◌&&◌, Option, none, some, List, [], ◌∷◌, ltb,
  ◌==◌, if◌then◌else◌, set, length, Status, ok, err, einval, enomem,
}
use lq.Sync.Entry.{
  SyncEntry, max_waiters, retire_if_idle, push_waiter, remove_waiter, bump, deposit, wake_loop,
}

-- `SYNC_WAIT_CREDIT` and `SYNC_WAIT_GEN`
pub data WaitMode : Type 0 where
  by_credit by_gen : WaitMode

-- `SYNC_WAKE_ABSORB` and `SYNC_WAKE_DISCARD`
pub data WakeMode : Type 0 where
  absorb discard : WakeMode

-- `g_sync`
abbrev pub Table : Type 0
Table = List SyncEntry

abbrev pub max_entries : ℕ
max_entries = 16

-- `g_sync` before the first call.
unfoldable pub empty_table : Table
empty_table = replicate max_entries (record {
  addr = 0;
  in_use = false;
  credit = 0;
  gen = 0;
  nwaiters = 0;
  waiters = replicate max_waiters 0;
})

abbrev pub keyed : ℕ → SyncEntry → Bool
keyed addr e = e.in_use && e.addr == addr

abbrev pub next : Option (ℕ × SyncEntry) → Option (ℕ × SyncEntry)
next none = none
next (some (i, e)) = some (suc i, e)

-- A pointer to an entry is its index, here with the entry that it points to.
unfoldable pub find_entry : ℕ → Table → Option (ℕ × SyncEntry)
find_entry addr [] = none
find_entry addr (e ∷ t) = if keyed addr e then some (0, e) else next (find_entry addr t)

-- The first unused entry, reset.
unfoldable pub alloc_entry : ℕ → Table → Option (ℕ × SyncEntry)
alloc_entry addr [] = none
alloc_entry addr (e ∷ t) =
    if e.in_use
    then next (alloc_entry addr t)
    else some (0, record e { addr = addr; in_use = true; credit = 0; gen = 0; nwaiters = 0 })

-- `sync_wait_impl` up to the unlock: it returns, or goes on to `qsoe_sys_wait`.
pub data Begin : Type 0 where
  done : Status → Begin
  parks : Begin

unfoldable pub enqueue : ℕ → ℕ → SyncEntry → Table → Begin × Table
enqueue myn i e t = elim (push_waiter myn e) [
  | none ↦ (done (err enomem), set t i (retire_if_idle e))
  | some e' ↦ (parks, set t i e')
]

abbrev pub enqueue_new : ℕ → ℕ → Table → Begin × Table
enqueue_new myn addr t = elim (alloc_entry addr t) [
  | none ↦ (done (err enomem), t)
  | some (i, e) ↦ enqueue myn i e t
]

-- No entry: signals that ran before any wait show in `expected`.
unfoldable pub wait_missing : ℕ → ℕ → WaitMode → ℕ → Table → Begin × Table
wait_missing myn addr by_gen expected t =
    if expected == 0 then enqueue_new myn addr t else (done ok, t)
wait_missing myn addr by_credit expected t = enqueue_new myn addr t

unfoldable pub wait_found : ℕ → WaitMode → ℕ → ℕ → SyncEntry → Table → Begin × Table
wait_found myn by_gen expected i e t =
    if e.gen == expected then enqueue myn i e t else (done ok, set t i (retire_if_idle e))
wait_found myn by_credit expected i e t =
    if ltb 0 e.credit
    then (done ok, set t i (retire_if_idle (record e { credit = e.credit - 1 })))
    else enqueue myn i e t

unfoldable pub wait_begin : ℕ → ℕ → WaitMode → ℕ → Table → Begin × Table
wait_begin myn addr mode expected t =
    if addr == 0
    then (done (err einval), t)
    else if myn == 0
    then (done (err enomem), t)
    else elim (find_entry addr t) [
      | none ↦ wait_missing myn addr mode expected t
      | some (i, e) ↦ wait_found myn mode expected i e t
    ]

-- `sync_wait_impl` from the second lock on, once the Notification was signalled.
unfoldable pub wait_end : ℕ → ℕ → Table → Table
wait_end myn addr t = elim (find_entry addr t) [
  | none ↦ t
  | some (i, e) ↦ set t i (retire_if_idle (remove_waiter myn e))
]

abbrev pub wake_count : ℕ → ℕ
wake_count max_n = if max_n == 0 then max_waiters else max_n

abbrev pub settle_credit : WakeMode → Bool → SyncEntry → SyncEntry
settle_credit absorb more e = if more then deposit e else e
settle_credit discard more e = e

unfoldable pub wake_missing : ℕ → WakeMode → Table → Status × List ℕ × Table
wake_missing addr discard t = (ok, [], t)
wake_missing addr absorb t = elim (alloc_entry addr t) [
  | none ↦ (err enomem, [], t)
  | some (i, e) ↦ (ok, [], set t i (retire_if_idle (deposit (record e { gen = 1 }))))
]

unfoldable pub wake_found : ℕ → WakeMode → ℕ → SyncEntry → Table → Status × List ℕ × Table
wake_found n mode i e t =
    let (ns, e') = wake_loop n (bump e) in
    (ok, ns, set t i (retire_if_idle (settle_credit mode (ltb (length ns) n) e')))

-- `sync_wake_impl`, with the Notifications that it signals, in order.
unfoldable pub wake : ℕ → ℕ → WakeMode → Table → Status × List ℕ × Table
wake addr max_n mode t = if addr == 0 then (err einval, [], t) else elim (find_entry addr t) [
  | none ↦ wake_missing addr mode t
  | some (i, e) ↦ wake_found (wake_count max_n) mode i e t
]

-- `SyncCondvarSignal_r` on the condition whose `count` is at `addr`, 0 for a null one: the answer,
-- the new `count`, the Notifications signalled and the table.
unfoldable pub condvar_signal : ℕ → ℕ → Bool → Table → Status × ℕ × List ℕ × Table
condvar_signal addr count wake_all t =
    if addr == 0
    then (err einval, count, [], t)
    else let (s, ns, t') = wake addr (if wake_all then 0 else 1) discard t in
      (s, add64 count 1, ns, t')
