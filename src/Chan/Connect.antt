-- ===== src/Chan/Connect.antt =====
-- taskman/proc/connect.c: the operations on connections that do not call the kernel.
use lq.Base.{
  ℕ, Bool, true, false, not, ◌&&◌, Option, none, some, map, ◌==◌, if◌then◌else◌, set, get_elem?,
  Status, ok, err, ebadf, enomem, enoent, einval, bit_and, bit_or, and_not,
}
use lq.Chan.Pulse.{with_channel}
use lq.Chan.State.{
  Channel, Connection, Registry, first, connection_find_by_slot, connection_find_by_badge,
}

abbrev pub close_if : (Connection → Bool) → Connection → Connection
close_if p c = if c.in_use && p c then record c { in_use = false } else c

-- `tm_connections_drop_for_channel_idx`
unfoldable pub drop_for_channel_idx : ℕ → Registry → Registry
drop_for_channel_idx i r = record r {
  connections = map (close_if (λ c. c.channel_idx == i)) r.connections;
}

-- `tm_connections_drop_for_pid`
unfoldable pub drop_for_pid : ℕ → Registry → Registry
drop_for_pid pid r = record r {
  connections = map (close_if (λ c. c.client_pid == pid)) r.connections;
}

-- The end of `tm_channel_destroy`, once the capabilities of the channel at `i` are gone.
unfoldable pub forget_channel : ℕ → Channel → Registry → Registry
forget_channel i c r = with_channel i (record c { in_use = false }) (drop_for_channel_idx i r)

abbrev pub with_connection : ℕ → Connection → Registry → Registry
with_connection j c r = record r { connections = set r.connections j c }

-- `connection_alloc_slot_idx`
abbrev pub connection_alloc_slot_idx : Registry → Option (ℕ × Connection)
connection_alloc_slot_idx r = first (λ c. not c.in_use) r.connections

unfoldable pub register_existing : ℕ → ℕ → ℕ → ℕ → ℕ → Registry → Status × Registry
register_existing pid slot channel_idx badge flags r = elim (get_elem? r.channels channel_idx) [
  | none ↦ (err einval, r)
  | some ch ↦ if not ch.in_use then (err einval, r) else elim (connection_alloc_slot_idx r) [
    | none ↦ (err enomem, r)
    | some (j, old) ↦ (
      ok,
      with_connection j
          (record {
            in_use = true;
            channel_idx = channel_idx;
            badge = badge;
            client_pid = pid;
            client_slot = slot;
            ntfn_slot = 0;
            flags = flags;
            ctx0 = 0;
            ctx1 = 0;
          })
          r,
    )
  ]
]

unfoldable pub clone_for_dup : ℕ → ℕ → ℕ → Registry → Status × Registry
clone_for_dup pid src_slot dest_slot r = elim (connection_find_by_slot pid src_slot r) [
  | none ↦ (err ebadf, r)
  | some (k, src) ↦ elim (connection_alloc_slot_idx r) [
    | none ↦ (err enomem, r)
    | some (j, old) ↦ (
      ok,
      with_connection j
          (record src { in_use = true; client_pid = pid; client_slot = dest_slot; ntfn_slot = 0 })
          r,
    )
  ]
]

unfoldable pub set_ctx : ℕ → ℕ → ℕ → Registry → Status × Registry
set_ctx badge c0 c1 r = elim (connection_find_by_badge badge r) [
  | none ↦ (err enoent, r)
  | some (j, c) ↦ (ok, with_connection j (record c { ctx0 = c0; ctx1 = c1 }) r)
]

unfoldable pub get_ctx : ℕ → Registry → Option (ℕ × ℕ)
get_ctx badge r = elim (connection_find_by_badge badge r) [
  | none ↦ none
  | some (j, c) ↦ some (c.ctx0, c.ctx1)
]

-- `tm_connect_flags`, with the old flags.
unfoldable pub connect_flags : ℕ → ℕ → ℕ → ℕ → Registry → Status × Option ℕ × Registry
connect_flags pid slot mask bits r = elim (connection_find_by_slot pid slot r) [
  | none ↦ (err ebadf, none, r)
  | some (j, c) ↦ (
    ok,
    some c.flags,
    if mask == 0
        then r
        else with_connection j
            (record c { flags = bit_or (and_not c.flags mask) (bit_and bits mask) }) r,
  )
]
