-- ===== src/Chan/Wired.antt =====
-- taskman/proc/channel.c and connect.c: the registries in order.
use lq.Base.{
  ==_iff, ◌&&◌, ◌||◌, ℕ, ◌≡◌, refl, subst, sym, ◌∙◌, Bool, true, false, some, arith, Bool-cases,
  inl, inr, get_elem?,
}
use lq.Chan.State.{
  Channel, Connection, Registry, is_slot, is_badge, is_channel, connection_find_by_slot,
  channel_by_badge, channel_find,
}
use lq.Chan.Pulse.{target}
use lq.Chan.Ring.{IsRing}
use lq.Chan.Found.{first-lem}

pub clash : {b : Bool} → b ≡ false → b ≡ true → ⊥
clash f t = ground (arith, f, t)

both : {a b : Bool} → a ≡ true → b ≡ true → (a && b) ≡ true
both s t = rw (s, t) refl

either : (a : Bool) {b : Bool} → b ≡ true → (a || b) ≡ true
either a t = elim (Bool-cases a) [ inl s ↦ rw s refl | inr s ↦ rw (s, t) refl ]

pub is_slot-used : (pid slot : ℕ) (cn : Connection) → is_slot pid slot cn ≡ true → cn.in_use ≡ true
is_slot-used pid slot cn h = ground arith

module _ (is_global : ℕ → Bool) where
  -- Each channel has a ring of pulses and a name of its own, a connection in use leads to a channel
  -- in use, and connections with one badge lead to one channel.
  pub record Wired (r : Registry) : Type 0 where
    pub rings : (i : ℕ) (c : Channel) → get_elem? r.channels i ≡ some c → IsRing c
    pub names :
        (i j : ℕ) (c d : Channel)
        → get_elem? r.channels i ≡ some c
        → get_elem? r.channels j ≡ some d
        → is_channel is_global c.owner_pid c.owner_chid c ≡ true
        → is_channel is_global c.owner_pid c.owner_chid d ≡ true
        → i ≡ j
    pub linked :
        (j : ℕ) (cn : Connection)
        → get_elem? r.connections j ≡ some cn
        → cn.in_use ≡ true
        → (c : Channel) × (get_elem? r.channels cn.channel_idx ≡ some c) × (c.in_use ≡ true)
    pub badges :
        (j k : ℕ) (cn cn' : Connection)
        → get_elem? r.connections j ≡ some cn
        → get_elem? r.connections k ≡ some cn'
        → cn.in_use ≡ true
        → is_badge cn.badge cn' ≡ true
        → cn'.channel_idx ≡ cn.channel_idx

  is_channel-own :
      (c : Channel) → c.in_use ≡ true → is_channel is_global c.owner_pid c.owner_chid c ≡ true
  is_channel-own c u =
      both (both u ((==_iff c.owner_chid c.owner_chid).1 refl))
        (either (is_global c.owner_chid) ((==_iff c.owner_pid c.owner_pid).1 refl))

  -- The search for the badge of a connection finds one that leads to the same channel.
  channel_by_badge-own :
      (r : Registry) (j : ℕ) (cn : Connection)
      → Wired r
      → get_elem? r.connections j ≡ some cn
      → cn.in_use ≡ true
      → (c : Channel) × (get_elem? r.channels cn.channel_idx ≡ some c)
        × (c.in_use ≡ true)
        × (channel_by_badge cn.badge r ≡ some c)
  unfolding channel_by_badge
  channel_by_badge-own r j cn w at u =
      let (c, there, used) = w.linked j cn at u in
      elim (first-lem (is_badge cn.badge) r.connections) [
        | inl (n, none_pass) ↦
            absurd (clash (none_pass j cn at) (both u ((==_iff cn.badge cn.badge).1 refl)))
        | inr (k, cn', e, there', t) ↦ (
          c,
          there,
          used,
          rw (e, w.badges j k cn cn' at there' u t, there, used, channel_by_badge) refl,
        )
      ]

  channel_find-own :
      (r : Registry) (i : ℕ) (c : Channel)
      → Wired r
      → get_elem? r.channels i ≡ some c
      → c.in_use ≡ true
      → channel_find is_global c.owner_pid c.owner_chid r ≡ some (i, c)
  channel_find-own r i c w at u =
      let own = is_channel-own c u in
      elim (first-lem (is_channel is_global c.owner_pid c.owner_chid) r.channels) [
        | inl (n, none_pass) ↦ absurd (clash (none_pass i c at) own)
        | inr (k, d, e, there, t) ↦
            let same : i ≡ k = w.names i k c d at there own t in
            let e' : c ≡ d =
              ground
                (arith, sym at ∙ subst (λ m. get_elem? r.channels m ≡ some d) (sym same) there) in
            e ∙ rw (same, e') refl
      ]

  -- The way by the badge and by (pid, chid) ends at the channel of the connection itself.
  pub target-own :
      (pid slot : ℕ) (r : Registry) (j : ℕ) (cn : Connection)
      → Wired r
      → connection_find_by_slot pid slot r ≡ some (j, cn)
      → get_elem? r.connections j ≡ some cn
      → cn.in_use ≡ true
      → (c : Channel) × (get_elem? r.channels cn.channel_idx ≡ some c)
        × (target is_global pid slot r ≡ some (cn.channel_idx, c))
  unfolding target
  target-own pid slot r j cn w found at u =
      let (c, there, used, by_badge) = channel_by_badge-own r j cn w at u in
      (c, there, rw (found, by_badge, target) (channel_find-own r cn.channel_idx c w there used))
