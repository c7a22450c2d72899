-- ===== src/Proc/Channels.antt =====
-- taskman/proc/channel.c and connect.c: what calls the kernel.
use lq.Base.{
  ℕ, ◌+◌, ◌*◌, Bool, true, false, not, ◌&&◌, none, some, leb, ◌==◌, if◌then◌else◌, bit_and, bit_or,
  and_not, value, einval, enomem, esrch, ebadf, w64, w32, ◌%◌,
}
use lq.Chan.State.{Channel, Connection, first, channel_find, connection_find_by_slot}
use lq.Chan.Pulse.{is_receiver, with_channel}
use lq.Chan.Connect.{with_connection, connection_alloc_slot_idx, forget_channel, register_existing}
use lq.Proc.State.{Process, System, Kernel, Abi, is_thread}
use lq.Proc.Monad.{
  M, pure, raise, gets, or_raise, invoke, invoke_or, ◌>>=◌, ◌>>◌, modify, raise_if, when,
  process_lookup, with_registry,
}
use lq.Proc.Slots.{
  own_cap, cap_of, alloc_empty_slot, free_slot, process_alloc_slot, delete_slot, revoke_slot,
  alloc_and_retype,
}
use lq.Proc.Table.{known}

abbrev pub has_bit : ℕ → ℕ → Bool
has_bit flags bit = not (bit_and flags bit == 0)

module _ {K : Type 0} where
  -- `tm_alloc_scoid`
  unfoldable pub alloc_scoid : M K ℕ
  alloc_scoid s = (value s.next_badge, record s { next_badge = (s.next_badge + 1) % w64 })

  -- The chid that a channel is created under: a new global one, or the caller's.
  unfoldable pub effective_chid : Abi → ℕ → ℕ → M K ℕ
  effective_chid abi flags chid s =
      if has_bit flags abi.chf_global
      then (
        value (bit_or abi.global_channel s.next_global),
        record s { next_global = (s.next_global + 1) % w32 },
      )
      else (value chid, s)

  -- The TCB that the Notification of a channel is bound to.
  abbrev pub bind_tcb : ℕ → ℕ → Process → System K → ℕ
  bind_tcb pid tid owner s =
      if leb tid 1 then owner.tcb else elim (first (is_thread pid tid) s.threads) [
        | none ↦ owner.tcb
        | some (i, t) ↦ t.tcb_master
      ]

  -- The records of the two ends of the pipe `uid`; whether they find room is not looked at.
  unfoldable pub enter_ends : ℕ → ℕ → ℕ → ℕ → ℕ → M K (ℕ × ℕ)
  enter_ends pid uid idx read_slot write_slot = do
    with_registry (λ r. (register_existing pid read_slot idx (2 * uid) 0 r).1)
    with_registry (λ r. (register_existing pid write_slot idx (2 * uid + 1) 0 r).1)
    pure (read_slot, write_slot)

module _ {K : Type 0} where
  unfoldable pub drop_record : ℕ → Connection → M K (Unit {0})
  drop_record j cn = with_registry (with_connection j (record cn { in_use = false; ntfn_slot = 0 }))

-- What `tm_channel_create` writes over a free record. The queue keeps its old pulses, which its
-- count hides.
abbrev pub created : ℕ → ℕ → ℕ → ℕ → ℕ → ℕ → ℕ → Channel → Channel
created pid chid flags master recv ntfn sig old = record {
  in_use = true;
  master = master;
  owner_recv = recv;
  owner_pid = pid;
  owner_chid = chid;
  flags = flags;
  pulse_queue = old.pulse_queue;
  pulse_head = 0;
  pulse_tail = 0;
  pulse_count = 0;
  ntfn_master = ntfn;
  ntfn_sig = sig;
}

-- A channel whose Notification has gone.
abbrev pub unsignalled : Channel → Channel
unsignalled c = if c.ntfn_master == 0 then c else record c { ntfn_master = 0; ntfn_sig = 0 }

module _ {K : Type 0} (kernel : Kernel K) (abi : Abi) where
  -- The Notification of a new channel with its Send capability, or two zeros.
  unfoldable pub make_ntfn : ℕ → ℕ → M K (ℕ × ℕ)
  make_ntfn flags tcb = do
    ntfn ← alloc_and_retype kernel abi abi.notification abi.notification_bits
    if ntfn == 0 then pure (0, 0) else (do
      sig ← alloc_empty_slot
      minted ← invoke (
          kernel.mint (own_cap abi sig) (own_cap abi ntfn) abi.rights_write (
            if has_bit flags abi.chf_pulse_direct
            then bit_or abi.ntfn_badge abi.ntfn_direct
            else abi.ntfn_badge))
      if not minted then (do delete_slot kernel abi ntfn; free_slot sig; pure (0, 0)) else (do
        bound ← (if tcb == 0 then pure true else invoke (kernel.bind_notification tcb ntfn))
        if bound
            then pure (ntfn, sig)
            else (do revoke_slot kernel abi ntfn; free_slot sig; pure (0, 0))))

  -- The free record `idx` is written, unless the owner could not be given its capability.
  unfoldable pub enter : ℕ → ℕ → ℕ → ℕ → ℕ → Channel → ℕ → ℕ → Bool → M K (ℕ × ℕ)
  enter pid chid flags idx tcb old master recv copied =
      if not copied then (do invoke (kernel.delete (own_cap abi master)); raise enomem) else (do
        (ntfn, sig) ← make_ntfn flags tcb
        with_registry (with_channel idx (created pid chid flags master recv ntfn sig old))
        pure (recv, chid))

  -- The objects of a channel.
  unfoldable pub fill : ℕ → ℕ → ℕ → ℕ → ℕ → Process → Channel → M K (ℕ × ℕ)
  fill pid chid flags idx tcb owner old = do
    master ← alloc_and_retype kernel abi abi.endpoint 0
    raise_if (master == 0) enomem
    recv ← process_alloc_slot abi pid
    copied ←
        invoke (kernel.copy (cap_of abi pid owner.cnode recv) (own_cap abi master) abi.rights_all)
    enter pid chid flags idx tcb old master recv copied

  -- `tm_channel_create`: the slot to receive on and the chid.
  unfoldable pub channel_create : ℕ → ℕ → ℕ → ℕ → M K (ℕ × ℕ)
  channel_create pid chid flags tid = do
    (i, owner) ← known pid
    tcb ← gets (bind_tcb pid tid owner)
    chid' ← effective_chid abi flags chid
    taken ← gets (λ s. channel_find abi.is_global pid chid' s.registry)
    elim taken [ none ↦ pure tt | some r ↦ raise einval ]
    free ← gets (λ s. first (λ (c : Channel). not c.in_use) s.registry.channels)
    (idx, old) ← or_raise free enomem
    fill pid chid' flags idx tcb owner old

  -- `tm_channel_bind_thread`
  unfoldable pub channel_bind_thread : ℕ → ℕ → ℕ → M K (Unit {0})
  channel_bind_thread pid chid tid = do
    (i, owner) ← known pid
    found ← gets (λ s. channel_find abi.is_global pid chid s.registry)
    (j, c) ← or_raise found einval
    raise_if (c.ntfn_master == 0) einval
    thread ← gets (λ s. first (is_thread pid tid) s.threads)
    (k, t) ← or_raise thread esrch
    raise_if (t.tcb_master == 0) esrch
    when (not (owner.tcb == 0)) (do invoke (kernel.unbind_notification owner.tcb); pure tt)
    invoke_or einval (kernel.bind_notification t.tcb_master c.ntfn_master)

  -- The Notification of a channel goes.
  unfoldable pub drop_ntfn : Channel → M K (Unit {0})
  drop_ntfn c = when (not (c.ntfn_master == 0)) (do
    owner ← process_lookup c.owner_pid
    elim owner [
      | none ↦ pure tt
      | some (i, p) ↦
          when (not (p.tcb == 0)) (do invoke (kernel.unbind_notification p.tcb); pure tt)
    ]
    revoke_slot kernel abi c.ntfn_master
    free_slot c.ntfn_sig)

  -- `tm_channel_destroy`. Where the revoke fails, the record stays, without its Notification.
  unfoldable pub channel_destroy : ℕ → ℕ → M K (Unit {0})
  channel_destroy pid recv = do
    found ← gets (λ s. first (is_receiver pid recv) s.registry.channels)
    (i, c) ← or_raise found ebadf
    drop_ntfn c
    with_registry (with_channel i (unsignalled c))
    invoke_or ebadf (kernel.revoke (own_cap abi c.master))
    delete_slot kernel abi c.master
    with_registry (forget_channel i (unsignalled c))

  -- The Send capability of the Notification for the client of a direct channel, or 0.
  unfoldable pub share_ntfn : ℕ → ℕ → Channel → M K ℕ
  share_ntfn pid cnode c =
      if has_bit c.flags abi.chf_pulse_direct && not (c.ntfn_sig == 0)
      then (do
        slot ← process_alloc_slot abi pid
        ok ←
            invoke
              (kernel.copy (cap_of abi pid cnode slot) (own_cap abi c.ntfn_sig) abi.rights_send)
        pure (if ok then slot else 0))
      else pure 0

  -- The record `j` of a new connection. Its two context words stay as they were.
  unfoldable pub enter_connection : ℕ → ℕ → ℕ → ℕ → Connection → ℕ → ℕ → ℕ → M K (ℕ × ℕ)
  enter_connection pid flags idx j old send badge ntfn = do
    with_registry (
        with_connection j (record old {
          in_use = true;
          channel_idx = idx;
          badge = badge;
          client_pid = pid;
          client_slot = send;
          ntfn_slot = ntfn;
          flags = and_not flags abi.side_channel;
        }))
    pure (send, ntfn)

  -- The capability and the record of a new connection to the channel `c` at `idx`.
  unfoldable pub connect : ℕ → ℕ → ℕ → ℕ → Channel → ℕ → Connection → M K (ℕ × ℕ)
  connect pid cnode flags idx c j old = do
    send ← process_alloc_slot abi pid
    badge ← alloc_scoid
    invoke_or enomem
        (kernel.mint (cap_of abi pid cnode send) (own_cap abi c.master) abi.rights_send badge)
    ntfn ← share_ntfn pid cnode c
    enter_connection pid flags idx j old send badge ntfn

  -- `tm_connect_attach`: the slots for messages and for direct pulses.
  unfoldable pub connect_attach : ℕ → ℕ → ℕ → ℕ → M K (ℕ × ℕ)
  connect_attach pid target_pid target_chid flags = do
    (i, client) ← known pid
    found ← gets (λ s. channel_find abi.is_global target_pid target_chid s.registry)
    (idx, c) ← or_raise found esrch
    free ← gets (λ s. connection_alloc_slot_idx s.registry)
    (j, old) ← or_raise free enomem
    connect pid client.cnode flags idx c j old

  -- The capabilities and the record of a connection go.
  unfoldable pub drop_connection : ℕ → ℕ → ℕ → ℕ → Connection → M K (Unit {0})
  drop_connection pid cnode send j cn = do
    invoke_or ebadf (kernel.delete (cap_of abi pid cnode send))
    when (not (cn.ntfn_slot == 0))
        (do invoke (kernel.delete (cap_of abi pid cnode cn.ntfn_slot)); pure tt)
    drop_record j cn

  -- `tm_connect_detach`
  unfoldable pub connect_detach : ℕ → ℕ → M K (Unit {0})
  connect_detach pid send = do
    (i, client) ← known pid
    found ← gets (λ s. connection_find_by_slot pid send s.registry)
    (j, cn) ← or_raise found ebadf
    drop_connection pid client.cnode send j cn

  -- The two ends of the pipe `uid`, on the channel `c` at `idx`.
  unfoldable pub enter_pipe : ℕ → ℕ → ℕ → ℕ → Channel → M K (ℕ × ℕ)
  enter_pipe pid cnode uid idx c = do
    read_slot ← process_alloc_slot abi pid
    write_slot ← process_alloc_slot abi pid
    invoke_or enomem (
        kernel.mint (cap_of abi pid cnode read_slot) (own_cap abi c.master) abi.rights_send
          (2 * uid))
    invoke_or enomem (
        kernel.mint (cap_of abi pid cnode write_slot) (own_cap abi c.master) abi.rights_send
          (2 * uid + 1))
    enter_ends pid uid idx read_slot write_slot

  -- `tm_pipe_create` once the manager of pipes is resolved to (`server_pid`, `server_chid`): the
  -- slots of the two ends.
  unfoldable pub pipe_create : ℕ → ℕ → ℕ → M K (ℕ × ℕ)
  pipe_create pid server_pid server_chid = do
    found ← gets (λ s. channel_find abi.is_global server_pid server_chid s.registry)
    (idx, c) ← or_raise found esrch
    raise_if (c.master == 0) esrch
    (i, client) ← known pid
    uid ← gets (λ s. s.next_pipe)
    modify (λ s. record s { next_pipe = (uid + 1) % w32 })
    enter_pipe pid client.cnode uid idx c
