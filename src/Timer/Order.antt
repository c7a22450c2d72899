-- ===== src/Timer/Order.antt =====
-- taskman/proc/timer.c: what the sweep does to the sleepers and to the channels.
use lq.Base.{
  w64, ◌<◌, ◌≤◌, ◌*◌, ◌/◌, ◌≢◌, ◌^◌, add64, map, ℕ, zero, suc, ◌+◌, ◌≡◌, refl, ap, ◌∙◌, Bool, true,
  false, not, some, List, [], ◌∷◌, arith, Bool-cases, inl, inr, get_elem?, if◌then◌else◌, ltb, ◌==◌,
}
use lq.Chan.State.{Channel, Registry, is_channel}
use lq.Chan.Pulse.{put_pulse, with_channel, pulse_queue_len}
use lq.Chan.Found.{first-lem, get_elem?-set_self}
use lq.Chan.Wired.{Wired, clash}
use lq.Chan.Ring.{put_pulse-pending}
use lq.Chan.Deliver.{with_channel-Wired, put_pulse-SameName}
use lq.Timer.Ticks.{expired, ns_to_ticks, to_ticks_floor}
use lq.Timer.Sweep.{
  Swept, Sleeper, nanosleep, is_due, wake_sleepers, Wire, deliver_alarm_to, sweep_process,
  sweep_processes, is_process, alarm_pulse,
}

module _ (wire : Wire) where
  posted-Wired :
      (i : ℕ) (c : Channel) (r : Registry)
      → Wired wire.is_global r
      → get_elem? r.channels i ≡ some c
      → Wired wire.is_global (
          if ltb c.pulse_count pulse_queue_len
          then with_channel i (put_pulse (alarm_pulse wire) c) r
          else r)
  posted-Wired i c r w at = elim (Bool-cases (ltb c.pulse_count pulse_queue_len)) [
    | inr full ↦ rw full w
    | inl space ↦
        let (queued, ring) =
          put_pulse-pending (alarm_pulse wire) c (w.rings i c at) (ground arith) in
        rw space (
          with_channel-Wired wire.is_global i c (put_pulse (alarm_pulse wire) c) r w at
            (put_pulse-SameName wire.is_global (alarm_pulse wire) c) ring)
  ]

  either-Wired :
      (b : Bool) (x y : List ℕ × Registry)
      → Wired wire.is_global x.1
      → Wired wire.is_global y.1
      → Wired wire.is_global (if b then x else y).1
  either-Wired true x y v w = v
  either-Wired false x y v w = w

  -- An alarm keeps the registries in order, whether it finds a channel with room or not.
  pub deliver_alarm_to-Wired :
      (pid chid : ℕ) (r : Registry)
      → Wired wire.is_global r
      → Wired wire.is_global (deliver_alarm_to wire pid chid r).1
  unfolding deliver_alarm_to
  deliver_alarm_to-Wired pid chid r w = elim (Bool-cases (chid == 0)) [
    | inl z ↦ rw (z, deliver_alarm_to) w
    | inr nz ↦ elim (first-lem (is_channel wire.is_global pid chid) r.channels) [
      | inl (n, none_pass) ↦ rw (nz, n, deliver_alarm_to) w
      | inr (i, c, found, at, t) ↦
          rw (nz, found, deliver_alarm_to)
            (either-Wired (not c.in_use) ([], r) _ w (posted-Wired i c r w at))
    ]
  ]

  sweep_process-Wired :
      (now pid : ℕ) (s : Swept)
      → Wired wire.is_global s.2
      → Wired wire.is_global (sweep_process wire now pid s).2
  unfolding sweep_process
  sweep_process-Wired now pid (signals, ps, r) w = elim (first-lem (is_process pid) ps) [
    | inl (n, none_pass) ↦ rw (n, sweep_process) w
    | inr (i, p, found, at, t) ↦ elim (Bool-cases (p.itimer_expiry_ticks == 0)) [
      | inl z ↦ rw (found, z, sweep_process) w
      | inr nz ↦ elim (Bool-cases (expired now p.itimer_expiry_ticks)) [
        | inr late ↦ rw (found, nz, late, sweep_process) w
        | inl due ↦
            rw (found, nz, due, sweep_process) (deliver_alarm_to-Wired p.pid p.signal_chid r w)
      ]
    ]
  ]

  -- The sweep over the interval timers, whichever expire, keeps the registries in order.
  pub sweep_processes-Wired :
      (now n pid : ℕ) (s : Swept)
      → Wired wire.is_global s.2
      → Wired wire.is_global (sweep_processes wire now n pid s).2
  unfolding sweep_processes
  sweep_processes-Wired now zero pid s w = w
  sweep_processes-Wired now (suc n) pid s w =
      sweep_processes-Wired now n (pid + 1) (sweep_process wire now pid s)
        (sweep_process-Wired now pid s w)

-- The reply slots of the sleepers that are due, in the order of the table.
abbrev pub due_slots : ℕ → List Sleeper → List ℕ
due_slots now [] = []
due_slots now (s ∷ ss) = if is_due now s then s.reply_slot ∷ due_slots now ss else due_slots now ss

wake_sleepers-slots : (now : ℕ) (ss : List Sleeper) → (wake_sleepers now ss).0 ≡ due_slots now ss
unfolding wake_sleepers
wake_sleepers-slots now [] = refl
wake_sleepers-slots now (s ∷ ss) = elim (Bool-cases (is_due now s)) [
  | inl t ↦ rw (t, wake_sleepers-slots now ss) refl
  | inr f ↦ rw (f, wake_sleepers-slots now ss) refl
]

-- The entry of a sleeper after the sweep.
abbrev pub awake : ℕ → Sleeper → Sleeper
awake now s = if is_due now s then record s { in_use = false } else s

wake_sleepers-map : (now : ℕ) (ss : List Sleeper) → (wake_sleepers now ss).1 ≡ map (awake now) ss
unfolding wake_sleepers
wake_sleepers-map now [] = refl
wake_sleepers-map now (s ∷ ss) = elim (Bool-cases (is_due now s)) [
  | inl t ↦ rw (t, wake_sleepers-map now ss) refl
  | inr f ↦ rw (f, wake_sleepers-map now ss) refl
]

awake-is_due : (now : ℕ) (s : Sleeper) → is_due now (awake now s) ≡ false
awake-is_due now s = elim (Bool-cases (is_due now s)) [ inl t ↦ rw t refl | inr f ↦ rw f f ]

due_slots-map : (now : ℕ) (ss : List Sleeper) → due_slots now (map (awake now) ss) ≡ []
due_slots-map now [] = refl
due_slots-map now (s ∷ ss) = rw (awake-is_due now s) (due_slots-map now ss)

-- The sweep answers the sleepers that are due, each once and in the order of the table, frees their
-- entries and leaves every other entry as it is; a second sweep at the same time answers nobody.
pub wake_sleepers-due :
    (now : ℕ) (ss : List Sleeper)
    → let (slots, ss') = wake_sleepers now ss in
      (slots ≡ due_slots now ss) × (ss' ≡ map (awake now) ss) × ((wake_sleepers now ss').0 ≡ [])
wake_sleepers-due now ss = (
  wake_sleepers-slots now ss,
  wake_sleepers-map now ss,
  wake_sleepers-slots now (wake_sleepers now ss).1
      ∙ (ap (due_slots now) (wake_sleepers-map now ss) ∙ due_slots-map now ss),
)

ahead : (now k t : ℕ) → now < w64 → t < 2 ^ 63 → k < t → expired (add64 now k) (add64 now t) ≡ false
ahead now k t h u l = ground arith

reached : (now t : ℕ) → expired (add64 now t) (add64 now t) ≡ true
reached now t = ground arith

whole_ticks :
    (freq ns t : ℕ)
    → freq ≢ 0
    → ns * freq < 2 ^ 63
    → 1000000000 * freq < w64
    → t * 1000000000 ≤ ns * freq
    → ns * freq < (t + 1) * 1000000000
    → ns_to_ticks freq ns ≡ t
whole_ticks freq ns t f fits fits' low high =
    let e : ns_to_ticks freq ns ≡ ns * freq / 1000000000 =
      to_ticks_floor 1000000000 freq ns (omega arith) f (omega arith) fits' in
    e ∙ divided (ns * freq) low high
  where
    divided : (n : ℕ) → t * 1000000000 ≤ n → n < (t + 1) * 1000000000 → n / 1000000000 ≡ t
    divided n l h = omega arith

-- A nanosleep of `total_ns` nanoseconds that parks its caller keeps the reply in the table with the
-- time of its end. With `freq` ticks of the clock in a second, let `t` ticks be at most `total_ns` and
-- `t + 1` more: the reply is not due at any tick before the `t`-th and is due at the `t`-th, which is
-- less than one tick before the duration has passed. The clock has a frequency, and the products of
-- the conversion stay below 2^63 and 2^64.
pub nanosleep-on_time :
    (freq now reply caller total_ns k t : ℕ) (ss : List Sleeper)
    → now < w64
    → (nanosleep freq now reply caller total_ns ss).1 ≡ true
    → freq ≢ 0
    → total_ns * freq < 2 ^ 63
    → 1000000000 * freq < w64
    → t * 1000000000 ≤ total_ns * freq
    → total_ns * freq < (t + 1) * 1000000000
    → k < t
    → (i : ℕ) × (s : Sleeper) × (get_elem? (nanosleep freq now reply caller total_ns ss).2 i
        ≡ some s)
      × (s.reply_slot ≡ reply)
      × (is_due (add64 now k) s ≡ false)
      × (is_due (add64 now t) s ≡ true)
unfolding nanosleep
nanosleep-on_time freq now reply caller total_ns k t ss h answered f fits fits' low high l =
    let e : ns_to_ticks freq total_ns ≡ t = whole_ticks freq total_ns t f fits fits' low high in
    elim (Bool-cases (total_ns == 0)) [
      | inl z ↦ absurd (clash refl (rw (z, nanosleep) at answered))
      | inr nz ↦ elim (first-lem (λ (s : Sleeper). not s.in_use) ss) [
        | inl (n, none_pass) ↦ absurd (clash refl (rw (nz, n, nanosleep) at answered))
        | inr (i, s, found, at, idle) ↦ elim (Bool-cases (reply == 0)) [
          | inl z ↦ absurd (clash refl (rw (nz, found, z, nanosleep) at answered))
          | inr live ↦ (
            i,
            record {
              in_use = true;
              caller_pid = caller;
              reply_slot = reply;
              expiry_ticks = add64 now (ns_to_ticks freq total_ns);
            },
            rw (nz, found, live, nanosleep) (get_elem?-set_self ss i s _ at),
            refl,
            rw e (ahead now k t h (omega arith) l),
            rw e (reached now t),
          )
        ]
      ]
    ]
