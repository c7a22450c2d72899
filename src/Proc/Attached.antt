-- ===== src/Proc/Attached.antt =====
-- taskman/proc/connect.c: what a new connection does to the registries.
use lq.Base.{
  ℕ, ◌+◌, ◌<◌, ◌≤◌, ◌≡◌, refl, ap, ◌∙◌, sym, subst, true, false, not, some, Bool-cases,
  Option-cases, inl, inr, Result, value, fail, arith, get_elem?, if◌then◌else◌, and_not, enomem,
  w64, ◌%◌,
}
use lq.Chan.State.{Channel, Connection, Registry, is_badge, is_channel, channel_find}
use lq.Chan.Connect.{with_connection, connection_alloc_slot_idx}
use lq.Chan.Found.{get_elem?-set}
use lq.Chan.Wired.{Wired}
use lq.Chan.Attach.{with_connection-Wired}
use lq.Proc.State.{System, Kernel, Abi}
use lq.Proc.Slots.{own_cap, cap_of}
use lq.Proc.Channels.{alloc_scoid, share_ntfn, enter_connection, connect, connect_attach}
use lq.Proc.Quiet.{Quiet, bind-Quiet, if-Quiet, quiet_then}
use lq.Proc.Net.{net, pure-Quiet, invoke-Quiet, process_alloc_slot-Quiet, raise_if-Quiet}
use lq.Proc.Wiring.{found_free, known-Quiet}

module _ {K : Type 0} (kernel : Kernel K) (abi : Abi) where
  -- The registries are in order and a badge that is to come is not in use.
  pub record Linked (s : System K) : Type 0 where
    pub wired : Wired abi.is_global s.registry
    pub below :
        (j : ℕ) (cn : Connection)
        → get_elem? s.registry.connections j ≡ some cn
        → cn.in_use ≡ true
        → cn.badge < s.next_badge

  share_ntfn-Quiet : (pid cnode : ℕ) (c : Channel) → Quiet net (share_ntfn kernel abi pid cnode c)
  unfolding share_ntfn
  share_ntfn-Quiet pid cnode c =
      if-Quiet net _
        (bind-Quiet net (process_alloc_slot-Quiet abi pid)
          λ slot. bind-Quiet net (invoke-Quiet _) λ ok. pure-Quiet (if ok then slot else 0))
        (pure-Quiet 0)

  -- What `tm_connect_attach` can do to the registries `r` and the next badge `n`.
  abbrev pub AttachOutcome : ℕ → ℕ → ℕ → Registry → ℕ → Result (ℕ × ℕ) × System K → Type 0
  AttachOutcome pid target_pid target_chid r n (fail e, s) = (s.registry ≡ r) × (n ≤ s.next_badge)
  AttachOutcome pid target_pid target_chid r n (value (send, ntfn), s) =
      (i : ℕ) × (c : Channel) × (j : ℕ) × (old : Connection) × (flags : ℕ) × (channel_find
          abi.is_global target_pid target_chid r
        ≡ some (i, c))
      × (connection_alloc_slot_idx r ≡ some (j, old))
      × (s.registry
          ≡ with_connection j
              (record old {
                in_use = true;
                channel_idx = i;
                badge = n;
                client_pid = pid;
                client_slot = send;
                ntfn_slot = ntfn;
                flags = flags;
              })
              r)
      × (s.next_badge ≡ n + 1)

  counted : (n : ℕ) → n + 1 < w64 → (n + 1) % w64 ≡ n + 1
  counted n h = omega (arith, h)

  -- The end of `connect_attach`, once the channel and the record are chosen.
  module _ (pid target_pid target_chid flags i j n : ℕ) (c : Channel) (old : Connection)
      (r : Registry) (found : channel_find abi.is_global target_pid target_chid r ≡ some (i, c))
      (free : connection_alloc_slot_idx r ≡ some (j, old)) (small : n + 1 < w64) where
    enter_connection_lem :
        (send badge ntfn : ℕ) (s : System K)
        → badge ≡ n
        → net s ≡ (r, n + 1)
        → AttachOutcome pid target_pid target_chid r n
            (enter_connection kernel abi pid flags i j old send badge ntfn s)
    unfolding enter_connection
    enter_connection_lem send badge ntfn s b e = (
      i,
      c,
      j,
      old,
      and_not flags abi.side_channel,
      found,
      free,
      rw b (
          ap
            (λ (m : Registry × ℕ).
              with_connection j
                (record old {
                  in_use = true;
                  channel_idx = i;
                  badge = n;
                  client_pid = pid;
                  client_slot = send;
                  ntfn_slot = ntfn;
                  flags = and_not flags abi.side_channel;
                })
                m.0)
            e),
      ap (λ (m : Registry × ℕ). m.1) e,
    )

    connect_lem :
        (cnode : ℕ) (s : System K)
        → net s ≡ (r, n)
        → AttachOutcome pid target_pid target_chid r n
            (connect kernel abi pid cnode flags i c j old s)
    unfolding connect alloc_scoid
    connect_lem cnode s e =
        let G = AttachOutcome pid target_pid target_chid r n in
        quiet_then net _ G s (process_alloc_slot-Quiet abi pid)
          (λ _ t v. (ap (λ m. m.0) (v ∙ e), omega (arith, ap (λ (m : Registry × ℕ). m.1) (v ∙ e))))
          λ send t1 v1.
            let t2 : System K = record t1 { next_badge = (t1.next_badge + 1) % w64 } in
            let e2 : net t2 ≡ (r, n + 1) =
              ap (λ (m : Registry × ℕ). (m.0, (m.1 + 1) % w64)) (v1 ∙ e)
              ∙ ap (λ k. (r, k)) (counted n small) in
            let same : t1.next_badge ≡ n = ap (λ (m : Registry × ℕ). m.1) (v1 ∙ e) in
            let off : (t : System K) → net t ≡ net t2 → (t.registry ≡ r) × (n ≤ t.next_badge) =
              λ t v.
                (ap (λ m. m.0) (v ∙ e2), omega (arith, ap (λ (m : Registry × ℕ). m.1) (v ∙ e2))) in
            quiet_then net _ G t2
              (invoke-Quiet (
                kernel.mint (cap_of abi pid cnode send) (own_cap abi c.master) abi.rights_send
                  t1.next_badge))
              (λ _ t v. off t v)
              λ ok t3 v3.
                quiet_then net _ G t3 (raise_if-Quiet (if ok then false else true) enomem)
                  (λ _ t v. off t (v ∙ v3))
                  λ _ t4 v4.
                    quiet_then net _ G t4 (share_ntfn-Quiet pid cnode c)
                      (λ _ t v. off t (v ∙ v4 ∙ v3))
                      λ ntfn t5 v5.
                        enter_connection_lem send t1.next_badge ntfn t5 same (v5 ∙ v4 ∙ v3 ∙ e2)

  pub connect_attach_lem :
      (pid target_pid target_chid flags : ℕ) (s : System K)
      → s.next_badge + 1 < w64
      → AttachOutcome pid target_pid target_chid s.registry s.next_badge
          (connect_attach kernel abi pid target_pid target_chid flags s)
  unfolding connect_attach
  connect_attach_lem pid target_pid target_chid flags s small =
      let G = AttachOutcome pid target_pid target_chid s.registry s.next_badge in
      let keep : (t : System K)
          → net t ≡ net s
          → (t.registry ≡ s.registry) × (s.next_badge ≤ t.next_badge) =
        λ t v. (ap (λ m. m.0) v, omega (arith, ap (λ (m : Registry × ℕ). m.1) v)) in
      quiet_then net _ G s (known-Quiet kernel abi pid) (λ _ t v. keep t v)
        λ (k, client) t v.
          elim (Option-cases (channel_find abi.is_global target_pid target_chid t.registry)) [
            | inl n ↦ rw n (keep t v)
            | inr ((i, c), f) ↦ elim (Option-cases (connection_alloc_slot_idx t.registry)) [
              | inl n ↦ rw (f, n) (keep t v)
              | inr ((j, old), g) ↦
                  let e = ap (λ (m : Registry × ℕ). m.0) v in
                  rw (f, g)
                    (connect_lem pid target_pid target_chid flags i j s.next_badge c old s.registry
                      (sym (ap (channel_find abi.is_global target_pid target_chid) e) ∙ f)
                      (sym (ap (λ (r : Registry). connection_alloc_slot_idx r) e) ∙ g) small
                      client.cnode t v)
            ]
          ]

  badge_in_use :
      (b : ℕ) (cn : Connection) → is_badge b cn ≡ true → (cn.in_use ≡ true) × (cn.badge ≡ b)
  badge_in_use b cn h = ground arith

  pub channel_in_use :
      (pid chid : ℕ) (c : Channel) → is_channel abi.is_global pid chid c ≡ true → c.in_use ≡ true
  channel_in_use pid chid c h = elim (Bool-cases c.in_use) [
    | inl t ↦ t
    | inr f ↦ absurd (ground (arith, (rw f at h)))
  ]

  entered-Linked :
      (i j : ℕ) (c : Channel) (old cn : Connection) (s s' : System K)
      → Linked s
      → get_elem? s.registry.channels i ≡ some c
      → c.in_use ≡ true
      → get_elem? s.registry.connections j ≡ some old
      → cn.channel_idx ≡ i
      → cn.badge ≡ s.next_badge
      → s'.registry ≡ with_connection j cn s.registry
      → s'.next_badge ≡ s.next_badge + 1
      → Linked s'
  entered-Linked i j c old cn s s' v at used there to b e n = record {
    wired = subst (Wired abi.is_global) (sym e) (
        with_connection-Wired abi.is_global j old cn s.registry v.wired there
          (c, ap (get_elem? s.registry.channels) to ∙ at, used)
          (λ k x h t.
            let (u, own) = badge_in_use cn.badge x t in
            absurd (omega (arith, v.below k x h u, own, b))));
    below = λ k x h u.
        elim (get_elem?-set s.registry.connections j k old cn x there
          (ap (λ (r : Registry). get_elem? r.connections k) (sym e) ∙ h)) [
            | inl (p, q) ↦ omega (arith, ap (λ (y : Connection). y.badge) q, b, n)
            | inr (p, q) ↦ omega (arith, v.below k x q u, n)
          ];
  }

  -- As long as the counter of badges does not wrap, an attach keeps the registries in order and the
  -- badges in use below the counter, whatever the attach comes to.
  pub connect_attach-Linked :
      (pid target_pid target_chid flags : ℕ) (s : System K)
      → s.next_badge + 1 < w64
      → Linked s
      → Linked (connect_attach kernel abi pid target_pid target_chid flags s).1
  connect_attach-Linked pid target_pid target_chid flags s small v =
      go (connect_attach kernel abi pid target_pid target_chid flags s)
        (connect_attach_lem pid target_pid target_chid flags s small)
    where
      go :
          (out : Result (ℕ × ℕ) × System K)
          → AttachOutcome pid target_pid target_chid s.registry s.next_badge out
          → Linked out.1
      go (fail e, s') (same, later) = record {
        wired = subst (Wired abi.is_global) (sym same) v.wired;
        below = λ k x h u. omega (
          arith,
          v.below k x (ap (λ (r : Registry). get_elem? r.connections k) (sym same) ∙ h) u,
          later,
        );
      }
      go (value (send, ntfn), s') (i, c, j, old, fl, found, free, e, n) =
          let (at, t) =
            found_free (is_channel abi.is_global target_pid target_chid) s.registry.channels i c
              found in
          let (there, idle) =
            found_free (λ (x : Connection). not x.in_use) s.registry.connections j old free in
          entered-Linked i j c old _ s s' v at (channel_in_use target_pid target_chid c t) there
            refl refl e n
