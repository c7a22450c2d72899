-- ===== src/Chan/Tests.antt =====
-- A channel with one connection, and a pulse on its way.
use lq.Base.{
  ℕ, zero, suc, ◌≡◌, refl, sym, subst, ap, ◌∙◌, true, false, none, some, [], ◌∷◌, arith, ◌⊎◌,
  get_elem?, ok, err, ebadf, enoent, if◌then◌else◌, ltb,
}
use lq.Chan.State.{Pulse, Channel, Connection, Registry, first, channel_by_badge}
use lq.Chan.Pulse.{
  put_pulse, take_pulse, target, pulse_send, pulse_fetch, is_receiver, with_channel, signal_of,
}
use lq.Chan.Ring.{pending}
use lq.Chan.Dup.{get_ctx-clone_for_dup}
use lq.Chan.State.{is_badge}
use lq.Chan.Connect.{clone_for_dup, with_connection, get_ctx}
use lq.Chan.Wired.{Wired}
use lq.Chan.Sample.{
  local, channel, connection, registry, channel-IsRing, sent, queued, queued-IsRing, registry-Wired,
}
use lq.Chan.Connect.{set_ctx}
use lq.Chan.Deliver.{pulse_fetch-takes}

send-fetch : (pulse_fetch 2 6 (pulse_send local 3 12 10 1 77 (registry channel)).2).1 ≡ some sent
unfolding pulse_fetch pulse_send target channel_by_badge first put_pulse take_pulse
send-fetch = refl

pulse_fetch-takes_example :
    let o = pulse_fetch 2 6 (registry queued) in
    ((first (is_receiver 2 6) (registry queued).channels ≡ none)
      × (o ≡ (err ebadf, none, [], registry queued)))
    ⊎ ((i : ℕ) × (c : Channel) × (first (is_receiver 2 6) (registry queued).channels ≡ some (i, c))
        × (((pending c ≡ []) × (o ≡ (err enoent, none, [], registry queued)))
            ⊎ ((p : Pulse) × (c' : Channel) × (o ≡ (
              ok,
              some p,
              if ltb 0 c'.pulse_count then signal_of c else [],
              with_channel i c' (registry queued),
            ))
                × (pending c ≡ p ∷ pending c')
                × Wired local (with_channel i c' (registry queued)))))
pulse_fetch-takes_example =
    pulse_fetch-takes local 2 6 (registry queued) (registry-Wired queued refl queued-IsRing)

-- A registry with room for a second connection, after the first was dropped.
abbrev spare : Registry
spare = record {
  channels = channel ∷ [];
  connections = connection ∷ record connection { in_use = false } ∷ [];
}

spare_idx : (j : ℕ) (cn : Connection) → get_elem? spare.connections j ≡ some cn → cn.channel_idx ≡ 0
spare_idx zero cn h =
    let e : connection ≡ cn = ground (arith, h) in sym (ap (λ (x : Connection). x.channel_idx) e)
spare_idx (suc zero) cn h =
    let e : record connection { in_use = false } ≡ cn = ground (arith, h) in
    sym (ap (λ (x : Connection). x.channel_idx) e)
spare_idx (suc (suc j)) cn h = absurd (ground (arith, h))

in_spare :
    (j : ℕ) (cn : Connection)
    → get_elem? spare.connections j ≡ some cn
    → get_elem? (channel ∷ []) cn.channel_idx ≡ some channel
in_spare j cn h =
    subst (λ i. get_elem? (channel ∷ []) i ≡ some channel) (sym (spare_idx j cn h)) refl

spare-Wired : Wired local spare
spare-Wired =
    let w = registry-Wired channel refl channel-IsRing in
    record {
      rings = w.rings;
      names = w.names;
      linked = λ j cn h u. (channel, in_spare j cn h, refl);
      badges = λ j k cn cn' p q u t. spare_idx k cn' q ∙ sym (spare_idx j cn p);
    }

set_ctx-ok : (set_ctx 9 1 2 spare).0 ≡ ok
unfolding set_ctx first
set_ctx-ok = refl

own_spare :
    (l : ℕ) (x : Connection) → get_elem? spare.connections l ≡ some x → is_badge 9 x ≡ true → l ≡ 0
own_spare zero x h t = refl
own_spare (suc zero) x h t =
    let e : record connection { in_use = false } ≡ x = ground (arith, h) in
    let u : x.in_use ≡ false = sym (ap (λ (c : Connection). c.in_use) e) in
    absurd (ground (arith, u, t))
own_spare (suc (suc l)) x h t = absurd (ground (arith, h))

get_ctx-clone_for_dup_example :
    let r2 = (set_ctx 9 5 6 (clone_for_dup 3 12 13 spare).1).1 in
    (get_ctx 9 r2 ≡ some (5, 6))
    × (get_ctx 9 (with_connection 0 (record connection { in_use = false }) r2) ≡ some (0, 0))
get_ctx-clone_for_dup_example =
    get_ctx-clone_for_dup 3 12 13 0 1 5 6 connection (record connection { in_use = false })
      (record connection { in_use = false }) spare (unfold first in refl) (unfold first in refl)
      (unfold first in refl) (omega arith) own_spare refl
