-- ===== src/Chan/Sample.antt =====
-- A registry with one channel and one connection, for tests.
use lq.Base.{
  ℕ, zero, suc, ◌≡◌, refl, sym, subst, ap, ◌∙◌, Bool, true, false, some, [], ◌∷◌, arith, get_elem?,
  replicate, set,
}
use lq.Chan.State.{Pulse, Channel, Connection, Registry}
use lq.Chan.Pulse.{no_pulse}
use lq.Chan.Ring.{IsRing}
use lq.Chan.Wired.{Wired}

abbrev pub local : ℕ → Bool
local chid = false

abbrev pub channel : Channel
channel = record {
  in_use = true;
  master = 40;
  owner_recv = 6;
  owner_pid = 2;
  owner_chid = 1;
  flags = 0;
  pulse_queue = replicate 8 no_pulse;
  pulse_head = 7;
  pulse_tail = 7;
  pulse_count = 0;
  ntfn_master = 41;
  ntfn_sig = 42;
}

abbrev pub connection : Connection
connection = record {
  in_use = true;
  channel_idx = 0;
  badge = 9;
  client_pid = 3;
  client_slot = 12;
  ntfn_slot = 0;
  flags = 0;
  ctx0 = 0;
  ctx1 = 0;
}

abbrev pub registry : Channel → Registry
registry c = record { channels = c ∷ []; connections = connection ∷ [] }

only {ℓ} : {A : Type ℓ} (x y : A) (i : ℕ) → get_elem? (x ∷ []) i ≡ some y → (i ≡ 0) × (x ≡ y)
only x y zero h = (refl, ground (arith, h))
only x y (suc i) h = absurd (ground (arith, h))

pub channel-IsRing : IsRing channel
channel-IsRing = record { room = refl; head = omega arith; count = omega arith; tail = omega arith }

abbrev pub sent : Pulse
sent = record { sender_pid = 3; priority = 10; code = 1; value = 77 }

-- The channel with a pulse in its queue.
abbrev pub queued : Channel
queued = record channel {
  pulse_queue = set (replicate 8 no_pulse) 7 sent;
  pulse_tail = 0;
  pulse_count = 1;
}

pub queued-IsRing : IsRing queued
queued-IsRing = record { room = refl; head = omega arith; count = omega arith; tail = omega arith }

pub registry-Wired : (x : Channel) → x.in_use ≡ true → IsRing x → Wired local (registry x)
registry-Wired x used ring = record {
  rings = λ i c h. subst IsRing (only x c i h).1 ring;
  names = λ i j c d p q own t. (only x c i p).0 ∙ sym (only x d j q).0;
  linked = λ j cn h u. (
    x,
    subst (λ (y : Connection). get_elem? (x ∷ []) y.channel_idx ≡ some x) (only connection cn j h).1
        refl,
    used,
  );
  badges = λ j k cn cn' p q u t.
      ap (λ (y : Connection). y.channel_idx)
        (sym (only connection cn' k q).1 ∙ (only connection cn j p).1);
}
