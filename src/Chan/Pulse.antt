-- ===== src/Chan/Pulse.antt =====
-- taskman/proc/pulse.c: a pulse on its way to the queue of a channel, and out of it.
use lq.Base.{
  ℕ, ◌+◌, ◌-◌, ◌%◌, Bool, ◌&&◌, Option, none, some, List, [], ◌∷◌, leb, ltb, ◌==◌, if◌then◌else◌,
  set, get_or, Status, ok, err, ebadf, eagain, enoent,
}
use lq.Chan.State.{
  Pulse, Channel, Registry, first, connection_find_by_slot, channel_by_badge, channel_find,
}

abbrev pub pulse_queue_len : ℕ
pulse_queue_len = 8

-- The write at the tail, which `deliver_alarm` of timer.c does too.
unfoldable pub put_pulse : Pulse → Channel → Channel
put_pulse p c = record c {
  pulse_queue = set c.pulse_queue c.pulse_tail p;
  pulse_tail = (c.pulse_tail + 1) % pulse_queue_len;
  pulse_count = c.pulse_count + 1;
}

abbrev pub no_pulse : Pulse
no_pulse = record { sender_pid = 0; priority = 0; code = 0; value = 0 }

-- The read at the head.
unfoldable pub take_pulse : Channel → Pulse × Channel
take_pulse c = (
  get_or c.pulse_queue c.pulse_head no_pulse,
  record c { pulse_head = (c.pulse_head + 1) % pulse_queue_len; pulse_count = c.pulse_count - 1 },
)

-- The Notification to signal, if the channel has one.
abbrev pub signal_of : Channel → List ℕ
signal_of c = if c.ntfn_sig == 0 then [] else c.ntfn_sig ∷ []

abbrev pub with_channel : ℕ → Channel → Registry → Registry
with_channel i c r = record r { channels = set r.channels i c }

abbrev pub is_receiver : ℕ → ℕ → Channel → Bool
is_receiver pid slot c = c.in_use && (c.owner_pid == pid && c.owner_recv == slot)

module _ (is_global : ℕ → Bool) where
  -- The channel that a pulse on this connection goes to, by way of the badge and of (pid, chid).
  unfoldable pub target : ℕ → ℕ → Registry → Option (ℕ × Channel)
  target pid slot r = elim (connection_find_by_slot pid slot r) [
    | none ↦ none
    | some (j, cn) ↦ elim (channel_by_badge cn.badge r) [
      | none ↦ none
      | some c ↦ channel_find is_global c.owner_pid c.owner_chid r
    ]
  ]

  -- `tm_pulse_send`, with the Notifications that it signals.
  unfoldable pub pulse_send : ℕ → ℕ → ℕ → ℕ → ℕ → Registry → Status × List ℕ × Registry
  pulse_send pid slot priority code value r = elim (target pid slot r) [
    | none ↦ (err ebadf, [], r)
    | some (i, c) ↦ if leb pulse_queue_len c.pulse_count then (err eagain, [], r) else (
      ok,
      signal_of c,
      with_channel i
          (put_pulse (record { sender_pid = pid; priority = priority; code = code; value = value })
            c)
          r,
    )
  ]

-- `tm_pulse_fetch`; the pulse is there when the answer is `ok`. The scoid is always 0.
unfoldable pub pulse_fetch : ℕ → ℕ → Registry → Status × Option Pulse × List ℕ × Registry
pulse_fetch pid slot r = elim (first (is_receiver pid slot) r.channels) [
  | none ↦ (err ebadf, none, [], r)
  | some (i, c) ↦
      if c.pulse_count == 0
      then (err enoent, none, [], r)
      else let (p, c') = take_pulse c in
        (ok, some p, if ltb 0 c'.pulse_count then signal_of c' else [], with_channel i c' r)
]
