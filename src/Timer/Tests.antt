-- ===== src/Timer/Tests.antt =====
-- Two sleepers, one of them due; an alarm for a process with a signal channel.
use lq.Base.{get_elem?, ℕ, ◌≡◌, refl, arith, true, false, List, [], ◌∷◌, map, some, add64, ok}
use lq.Chan.State.{first}
use lq.Chan.Sample.{local, channel, registry}
use lq.Timer.Ticks.{to_ticks}
use lq.Timer.Sweep.{
  Sleeper, Wire, Swept, is_due, nanosleep, wake_sleepers, deliver_alarm_to, sweep_process,
  sweep_processes,
}
use lq.Timer.Order.{due_slots, awake, wake_sleepers-due, nanosleep-on_time}

abbrev sleepers : List Sleeper
sleepers =
    record { in_use = true; caller_pid = 2; reply_slot = 30; expiry_ticks = 500 }
    ∷ record { in_use = true; caller_pid = 3; reply_slot = 31; expiry_ticks = 900 }
    ∷ []

-- 1.5 s at 10 MHz.
to_ticks-example : to_ticks 1000000000 10000000 1500000000 ≡ 15000000
unfolding to_ticks
to_ticks-example = refl

abbrev free_sleeper : List Sleeper
free_sleeper = record { in_use = false; caller_pid = 0; reply_slot = 0; expiry_ticks = 0 } ∷ []

answer : (nanosleep 10000000 700 32 4 1500000000 free_sleeper).1 ≡ true
unfolding nanosleep first
answer = refl

parked : nanosleep 10000000 700 32 4 1500000000 free_sleeper ≡ (
  ok,
  true,
  record { in_use = true; caller_pid = 4; reply_slot = 32; expiry_ticks = 15000700 } ∷ [],
)
unfolding nanosleep to_ticks first
parked = refl

wake_sleepers-due_example :
    ((wake_sleepers 700 sleepers).0 ≡ due_slots 700 sleepers)
    × ((wake_sleepers 700 sleepers).1 ≡ map (awake 700) sleepers)
    × ((wake_sleepers 700 (wake_sleepers 700 sleepers).1).0 ≡ [])
wake_sleepers-due_example = wake_sleepers-due 700 sleepers

abbrev wire : Wire
wire = record { taskman_pid = 1; is_global = local }

-- The timer of the process that owns the channel has expired.
abbrev armed : Swept
armed = (
  [],
  record {
    in_use = true;
    pid = 2;
    signal_chid = 1;
    itimer_expiry_ticks = 600;
    itimer_interval_ticks = 50;
  }
      ∷ [],
  registry channel,
)

alarm_sent : (sweep_processes wire 700 4 1 armed).0 ≡ 42 ∷ []
unfolding sweep_processes sweep_process deliver_alarm_to first
alarm_sent = refl

nanosleep-on_time_example :
    (i : ℕ) × (s : Sleeper) × (get_elem? (nanosleep 10000000 700 32 4 1500000000 free_sleeper).2 i
      ≡ some s)
    × (s.reply_slot ≡ 32)
    × (is_due (add64 700 14999999) s ≡ false)
    × (is_due (add64 700 15000000) s ≡ true)
nanosleep-on_time_example =
    nanosleep-on_time 10000000 700 32 4 1500000000 14999999 15000000 free_sleeper (omega arith)
      answer (λ e. ground (arith, e)) (omega arith) (omega arith) (omega arith) (omega arith)
      (omega arith)
