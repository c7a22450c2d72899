-- ===== src/Timer/Sweep.antt =====
-- taskman/proc/timer.c: the two tables, the calls that enter a timer, and the sweep.
use lq.Base.{
  ℕ, zero, suc, ◌+◌, ◌-◌, ◌*◌, ◌%◌, ◌^◌, Bool, true, false, not, ◌&&◌, none, some, List, [], ◌∷◌,
  ◌++◌, ltb, ◌==◌, if◌then◌else◌, set, add64, w32, bit_or, Status, ok, err, einval, enomem, esrch,
  eagain,
}
use lq.Chan.State.{Pulse, Registry, first, channel_find}
use lq.Chan.Pulse.{pulse_queue_len, put_pulse, signal_of, with_channel}
use lq.Timer.Ticks.{ns_to_ticks, us_to_ticks, expired}

-- `tm_sleeper_t`
pub record Sleeper : Type 0 where
  pub in_use : Bool
  pub caller_pid : ℕ
  pub reply_slot : ℕ
  pub expiry_ticks : ℕ

-- The timer fields of `tm_process_t`.
pub record Process : Type 0 where
  pub in_use : Bool
  pub pid : ℕ
  pub signal_chid : ℕ
  pub itimer_expiry_ticks : ℕ
  pub itimer_interval_ticks : ℕ

-- `tm_nanosleep` at the time `now`; `reply` is the answer of `tm_reply_park`. The Boolean says
-- whether the caller stays parked.
unfoldable pub nanosleep : ℕ → ℕ → ℕ → ℕ → ℕ → List Sleeper → Status × Bool × List Sleeper
nanosleep freq now reply caller total_ns sleepers =
    if total_ns == 0 then (ok, false, sleepers) else elim (first (λ s. not s.in_use) sleepers) [
      | none ↦ (err eagain, false, sleepers)
      | some (i, s) ↦ if reply == 0 then (err enomem, false, sleepers) else (
        ok,
        true,
        set sleepers i (record {
          in_use = true;
          caller_pid = caller;
          reply_slot = reply;
          expiry_ticks = add64 now (ns_to_ticks freq total_ns);
        }),
      )
    ]

abbrev pub is_process : ℕ → Process → Bool
is_process pid p = p.in_use && p.pid == pid

-- The part of `tm_setitimer` that arms or disarms. The old values that it hands back are not
-- modelled.
unfoldable pub setitimer : ℕ → ℕ → ℕ → ℕ → ℕ → ℕ → List Process → Status × List Process
setitimer freq now caller which value_us interval_us ps =
    if not (which == 0) then (err einval, ps) else elim (first (is_process caller) ps) [
      | none ↦ (err esrch, ps)
      | some (i, p) ↦ (
        ok,
        set ps i (
            if value_us == 0
            then record p { itimer_expiry_ticks = 0; itimer_interval_ticks = 0 }
            else record p {
              itimer_expiry_ticks = add64 now (us_to_ticks freq value_us);
              itimer_interval_ticks = us_to_ticks freq interval_us;
            }),
      )
    ]

abbrev pub is_due : ℕ → Sleeper → Bool
is_due now s = s.in_use && expired now s.expiry_ticks

-- The first loop of `tm_timer_sweep`: the reply slots that are answered, in order, and the table.
unfoldable pub wake_sleepers : ℕ → List Sleeper → List ℕ × List Sleeper
wake_sleepers now [] = ([], [])
wake_sleepers now (s ∷ ss) =
    let (slots, rest) = wake_sleepers now ss in
    if is_due now s
    then (s.reply_slot ∷ slots, record s { in_use = false } ∷ rest)
    else (slots, s ∷ rest)

-- The Notifications signalled, the processes and the registries.
abbrev pub Swept : Type 0
Swept = List ℕ × List Process × Registry

-- The constants of <qsoe/slots.h> that are not in this repository.
pub record Wire : Type 0 where
  pub taskman_pid : ℕ
  pub is_global : ℕ → Bool

module _ (wire : Wire) where
  abbrev pub alarm_pulse : Pulse
  alarm_pulse = record {
    sender_pid = wire.taskman_pid;
    priority = 0;
    code = w32 - 40;
    value = bit_or 14 (wire.taskman_pid * 2 ^ 16 % w32);
  }

  -- `deliver_alarm_to`, with the Notifications that it signals.
  unfoldable pub deliver_alarm_to : ℕ → ℕ → Registry → List ℕ × Registry
  deliver_alarm_to pid chid r =
      if chid == 0 then ([], r) else elim (channel_find wire.is_global pid chid r) [
        | none ↦ ([], r)
        | some (i, c) ↦ if not c.in_use then ([], r) else (
          signal_of c,
          if ltb c.pulse_count pulse_queue_len
              then with_channel i (put_pulse alarm_pulse c) r
              else r,
        )
      ]

  abbrev pub rearm : ℕ → Process → Process
  rearm now p =
      if ltb 0 p.itimer_interval_ticks
      then record p { itimer_expiry_ticks = add64 now p.itimer_interval_ticks }
      else record p { itimer_expiry_ticks = 0 }

  -- One turn of the second loop of `tm_timer_sweep`.
  unfoldable pub sweep_process : ℕ → ℕ → Swept → Swept
  sweep_process now pid (signals, ps, r) = elim (first (is_process pid) ps) [
    | none ↦ (signals, ps, r)
    | some (i, p) ↦
        if p.itimer_expiry_ticks == 0
        then (signals, ps, r)
        else if not (expired now p.itimer_expiry_ticks)
        then (signals, ps, r)
        else let (sent, r') = deliver_alarm_to p.pid p.signal_chid r in
          (signals ++ sent, set ps i (rearm now p), r')
  ]

  -- The loop over the pids from `pid` on, `n` of them.
  unfoldable pub sweep_processes : ℕ → ℕ → ℕ → Swept → Swept
  sweep_processes now zero pid s = s
  sweep_processes now (suc n) pid s = sweep_processes now n (pid + 1) (sweep_process now pid s)
