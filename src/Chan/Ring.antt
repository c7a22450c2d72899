-- ===== src/Chan/Ring.antt =====
-- taskman/proc/pulse.c: the circular array of pulses is a queue of at most eight.
use lq.Base.{
  ℕ, zero, suc, ◌+◌, ◌-◌, ◌%◌, ◌<◌, ◌≤◌, ◌≡◌, ◌≢◌, ap, subst, ◌∙◌, List, [], ◌∷◌, ◌++◌, arith, set,
  get_or, length, length-set, get_or-set_self, get_or-set_ne,
}
use lq.Chan.State.{Pulse, Channel}
use lq.Chan.Pulse.{put_pulse, take_pulse, no_pulse, pulse_queue_len}

-- The `n` pulses from the index `h` on.
abbrev pub window : List Pulse → ℕ → ℕ → List Pulse
window q h zero = []
window q h (suc n) = get_or q h no_pulse ∷ window q ((h + 1) % pulse_queue_len) n

-- The pulses that wait on a channel, the oldest first.
abbrev pub pending : Channel → List Pulse
pending c = window c.pulse_queue c.pulse_head c.pulse_count

pub record IsRing (c : Channel) : Type 0 where
  pub room : length c.pulse_queue ≡ pulse_queue_len
  pub head : c.pulse_head < pulse_queue_len
  pub count : c.pulse_count ≤ pulse_queue_len
  pub tail : c.pulse_tail ≡ (c.pulse_head + c.pulse_count) % pulse_queue_len

window-set :
    (q : List Pulse) (p : Pulse) (h n t : ℕ)
    → length q ≡ pulse_queue_len
    → h < pulse_queue_len
    → n < pulse_queue_len
    → t ≡ (h + n) % pulse_queue_len
    → window (set q t p) h (suc n) ≡ window q h n ++ p ∷ []
window-set q p h zero t r hh hn e =
    let z : t ≡ h = omega arith in
    ap (λ x. x ∷ [])
      (subst (λ i. get_or (set q t p) i no_pulse ≡ p) z
        (get_or-set_self q t p no_pulse (omega arith)))
window-set q p h (suc n) t r hh hn e =
    rw (get_or-set_ne q {i = t} {j = h} p no_pulse (λ k. omega arith)) (
      ap (λ w. get_or q h no_pulse ∷ w)
        (window-set q p ((h + 1) % pulse_queue_len) n t r (omega arith) (omega arith)
          (omega arith)))

-- A pulse that is put joins the queue at the end.
pub put_pulse-pending :
    (p : Pulse) (c : Channel)
    → IsRing c
    → c.pulse_count < pulse_queue_len
    → (pending (put_pulse p c) ≡ pending c ++ p ∷ []) × IsRing (put_pulse p c)
unfolding put_pulse
put_pulse-pending p c v h = (
  ap (window (set c.pulse_queue c.pulse_tail p) c.pulse_head) {x = c.pulse_count + 1}
        {y = suc c.pulse_count} (omega arith)
      ∙ window-set c.pulse_queue p c.pulse_head c.pulse_count c.pulse_tail v.room v.head h v.tail,
  record {
    room = length-set c.pulse_queue c.pulse_tail p ∙ v.room;
    head = v.head;
    count = omega arith;
    tail = omega (arith, v.tail);
  },
)

-- What is taken is the oldest pulse of a queue that has one.
pub take_pulse-pending :
    (c : Channel)
    → IsRing c
    → c.pulse_count ≢ 0
    → (pending c ≡ (take_pulse c).0 ∷ pending (take_pulse c).1) × IsRing (take_pulse c).1
unfolding take_pulse
take_pulse-pending c v h = (
  ap (window c.pulse_queue c.pulse_head) {x = c.pulse_count} {y = suc (c.pulse_count - 1)}
      (omega arith),
  record {
    room = v.room;
    head = omega arith;
    count = omega (arith, v.count);
    tail = omega (arith, v.tail, v.head, v.count);
  },
)
