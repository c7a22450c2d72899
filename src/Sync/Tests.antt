-- ===== src/Sync/Tests.antt =====
-- The wait/wake table at concrete inputs: two threads park on an address, a wake comes.
use lq.Base.{◌≡◌, refl, arith, ok, err, enomem, true, false, [], ◌∷◌, none, some, ◌⊎◌, take}
use lq.Sync.Entry.{
  push_waiter, pop_waiter, remove_waiter, index_of, shift_down, wake_loop, retire_if_idle,
}
use lq.Sync.Table.{
  Table, by_credit, by_gen, absorb, discard, done, parks, wait_begin, wait_end, wake,
  condvar_signal, empty_table, find_entry, alloc_entry, enqueue, wait_missing, wait_found,
  wake_missing, wake_found,
}
use lq.Sync.Slots.{Inv, view, Acts, all_used}
use lq.Sync.Refine.{
  wait_means, wake_means, left_after, parked_at, wait_begin-Acts, wait_end-Acts, wake-Acts, IsFull,
}
use lq.Sync.Reach.{Reached, boot, waits, Reached-Inv}
use lq.Sync.Wakeups.{condvar_signal-lost}

-- Threads 5 and 7 park on the address 100.
abbrev one : Table
one = (wait_begin 5 100 by_credit 0 empty_table).1

abbrev two : Table
two = (wait_begin 7 100 by_credit 0 one).1

two-Reached : Reached two
two-Reached = waits 7 100 by_credit 0 (waits 5 100 by_credit 0 boot)

view-two : view 100 two ≡ some (record { credit = 0; gen = 0; parked = 5 ∷ 7 ∷ [] })
unfolding wait_begin wait_missing wait_found enqueue push_waiter find_entry alloc_entry empty_table
view-two = refl

after_wake :
    view 100 (wake 100 1 absorb two).2 ≡ some (record { credit = 0; gen = 1; parked = 7 ∷ [] })
unfolding wait_begin wait_missing wait_found enqueue push_waiter find_entry alloc_entry empty_table
    wake wake_found wake_loop pop_waiter shift_down retire_if_idle
after_wake = refl

after_end : view 100 (wait_end 5 100 two) ≡ some (record { credit = 0; gen = 0; parked = 7 ∷ [] })
unfolding wait_begin wait_missing wait_found enqueue push_waiter find_entry alloc_entry empty_table
    wait_end remove_waiter index_of shift_down retire_if_idle
after_end = refl

all_used-empty : all_used empty_table ≡ false
unfolding empty_table
all_used-empty = refl

view-empty : view 100 empty_table ≡ none
unfolding empty_table
view-empty = refl

Reached-Inv_example : Inv two
Reached-Inv_example = Reached-Inv two-Reached

wait_begin-Acts_example :
    let o = wait_begin 9 100 by_gen 0 two in
    let r = wait_means 9 by_gen 0 (view 100 two) in
    ((o.0 ≡ r.0) × Acts 100 two r.1 o.1) ⊎ ((o ≡ (done (err enomem), two)) × IsFull 100 two)
wait_begin-Acts_example =
    wait_begin-Acts 100 two 9 by_gen 0 (Reached-Inv two-Reached) (λ e. ground (arith, e))
      (λ e. ground (arith, e))

wait_end-Acts_example : Acts 100 two (left_after 5 (view 100 two)) (wait_end 5 100 two)
wait_end-Acts_example = wait_end-Acts 100 two 5 (Reached-Inv two-Reached)

wake-Acts_example :
    let o = wake 100 0 discard two in
    ((o.0 ≡ ok)
      × (o.1 ≡ take 4 (parked_at (view 100 two)))
      × Acts 100 two (wake_means 4 discard (view 100 two)) o.2)
    ⊎ ((o ≡ (err enomem, [], two)) × IsFull 100 two)
wake-Acts_example = wake-Acts 100 0 two discard (Reached-Inv two-Reached) (λ e. ground (arith, e))

empty-answer : (wake 100 1 absorb empty_table).0 ≡ ok
unfolding wake wake_missing find_entry alloc_entry empty_table
empty-answer = refl

empty_signals : (wake 100 1 absorb empty_table).1 ≡ []
unfolding wake wake_missing find_entry alloc_entry empty_table
empty_signals = refl

condvar_signal-lost_example :
    let r = condvar_signal 100 0 true empty_table in
    (r.0 ≡ ok) × (r.1 ≡ 1) × (r.2 ≡ []) × ((wait_begin 5 100 by_gen 0 r.3).0 ≡ parks)
condvar_signal-lost_example =
    condvar_signal-lost 100 empty_table 5 true (Reached-Inv boot) (λ e. ground (arith, e))
      (λ e. ground (arith, e)) view-empty all_used-empty
