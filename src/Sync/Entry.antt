-- ===== src/Sync/Entry.antt =====
-- libc/qsoe/sync.c: one entry of the table, with the FIFO of the threads parked on its address.
use lq.Base.{
  ℕ, zero, suc, ◌+◌, ◌-◌, Bool, false, ◌&&◌, Option, none, some, List, [], ◌∷◌, ltb, leb, ◌==◌,
  if◌then◌else◌, add64, set, get_or,
}

abbrev pub max_waiters : ℕ
max_waiters = 4

-- `sync_entry_t`. A waiter is the capability of its Notification, `gen` a 64-bit pattern.
pub record SyncEntry : Type 0 where
  pub addr : ℕ
  pub in_use : Bool
  pub credit : ℕ
  pub gen : ℕ
  pub nwaiters : ℕ
  pub waiters : List ℕ

abbrev pub is_idle : SyncEntry → Bool
is_idle e = e.nwaiters == 0 && e.credit == 0

unfoldable pub retire_if_idle : SyncEntry → SyncEntry
retire_if_idle e = if is_idle e then record e { in_use = false } else e

-- `none` is the return value -1, which leaves the entry as it is.
unfoldable pub push_waiter : ℕ → SyncEntry → Option SyncEntry
push_waiter n e =
    if leb max_waiters e.nwaiters
    then none
    else some (record e { waiters = set e.waiters e.nwaiters n; nwaiters = e.nwaiters + 1 })

-- `waiters[j - 1] = waiters[j]` for `n` values of j, from `i + 1` on.
unfoldable pub shift_down : ℕ → ℕ → List ℕ → List ℕ
shift_down zero i w = w
shift_down (suc n) i w = shift_down n (suc i) (set w i (get_or w (suc i) 0))

-- The capability 0 says that nobody is parked.
unfoldable pub pop_waiter : SyncEntry → ℕ × SyncEntry
pop_waiter e = if e.nwaiters == 0 then (0, e) else (
  get_or e.waiters 0 0,
  record e { waiters = shift_down (e.nwaiters - 1) 0 e.waiters; nwaiters = e.nwaiters - 1 },
)

-- The first of the first `k` waiters that is `n`.
unfoldable pub index_of : ℕ → ℕ → List ℕ → Option ℕ
index_of n zero w = none
index_of n (suc k) [] = none
index_of n (suc k) (x ∷ w) =
    let rest = index_of n k w in
    if x == n then some 0 else elim rest [ none ↦ none | some i ↦ some (suc i) ]

unfoldable pub remove_waiter : ℕ → SyncEntry → SyncEntry
remove_waiter n e = elim (index_of n e.nwaiters e.waiters) [
  | none ↦ e
  | some i ↦ record e {
    waiters = shift_down (e.nwaiters - 1 - i) i e.waiters;
    nwaiters = e.nwaiters - 1;
  }
]

-- `e->gen += 1`
abbrev pub bump : SyncEntry → SyncEntry
bump e = record e { gen = add64 e.gen 1 }

abbrev pub deposit : SyncEntry → SyncEntry
deposit e = if ltb e.credit 1 then record e { credit = 1 } else e

-- The loop that wakes at most `k` more threads: what it signals, in order, and the entry after it.
unfoldable pub wake_loop : ℕ → SyncEntry → List ℕ × SyncEntry
wake_loop zero e = ([], e)
wake_loop (suc k) e =
    let (n, e') = pop_waiter e in
    let (ns, e'') = wake_loop k e' in if n == 0 then ([], e') else (n ∷ ns, e'')
