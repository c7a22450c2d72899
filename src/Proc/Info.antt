-- ===== src/Proc/Info.antt =====
-- taskman/proc: the state at boot, and what a process asks of itself and of its connections.
use lq.Base.{
  ℕ, ◌-◌, ◌%◌, true, Bool, not, none, some, Option, List, [], ◌∷◌, ◌==◌, if◌then◌else◌, get_elem?,
  set, take, einval, enomem, eperm,
}
use lq.Chan.State.{
  Channel, Registry, first, channel_find, connection_find_by_slot, connection_find_by_badge,
}
use lq.Chan.Pulse.{with_channel}
use lq.Mem.Space.{Page, mega}
use lq.Proc.State.{Cred, Process, System, Kernel, Abi}
use lq.Proc.Monad.{
  M, pure, raise, gets, or_raise, ◌>>=◌, ◌>>◌, modify, raise_if, with_process, with_registry,
}
use lq.Proc.Slots.{alloc_and_retype}
use lq.Proc.Table.{known, root_cred}
use lq.Proc.Channels.{created}

-- TM_RAM_UT_MAX
abbrev pub ram_ut_max : ℕ
ram_ut_max = 32

-- The record of the task manager that `tm_init` writes over the first one.
unfoldable pub initial : Abi → ℕ → ℕ → Process → Process
initial abi cnode first_free old = record old {
  in_use = true;
  pid = abi.taskman;
  cnode = cnode;
  next_slot = first_free;
  tcb = abi.init_tcb;
  sc = 0;
  vspace = abi.init_vspace;
  untyped_budget = 0;
  workers_l1_pt = 0;
  workers_l0_pt = 0;
  next_tid = 2;
  parent_pid = abi.taskman;
  exit_state = 0;
  exit_status = 0;
  waiter_reply_slot = 0;
  cred = root_cred;
  cwd = b'/' ∷ [];
  umask = 18;
  itimer_expiry_ticks = 0;
  itimer_interval_ticks = 0;
  pput = [];
  objcnode = 0;
  objcnode_next = 0;
}

-- A field of the credentials that the sentinel 0xFFFFFFFF leaves alone.
abbrev pub unless_kept : ℕ → ℕ → ℕ
unless_kept new old = if new == 0xFFFFFFFF then old else new

-- The fields of a `tm_set_cred`.
abbrev pub changed : Cred → Cred → Cred
changed new old = record {
  ruid = unless_kept new.ruid old.ruid;
  euid = unless_kept new.euid old.euid;
  suid = unless_kept new.suid old.suid;
  rgid = unless_kept new.rgid old.rgid;
  egid = unless_kept new.egid old.egid;
  sgid = unless_kept new.sgid old.sgid;
}

module _ {K : Type 0} where
  -- `tm_init`
  unfoldable pub init : Abi → ℕ → System K → System K
  init abi first_free s = elim (get_elem? s.processes 0) [
    | none ↦ s
    | some p ↦ record s {
      slots = record { next = first_free; free_list = s.slots.free_list };
      processes = set s.processes 0 (initial abi abi.cnode_root first_free p);
    }
  ]

  -- `tm_pput_pool_init`
  unfoldable pub pput_pool_init : List ℕ → System K → System K
  pput_pool_init uts s = record s { ram_ut = take ram_ut_max uts }

  -- `tm_process_by_index`
  unfoldable pub process_by_index : ℕ → System K → Option Process
  process_by_index i s = get_elem? s.processes i

  -- `tm_proc_self_info`: the pid, that of the parent, and the credentials.
  unfoldable pub self_info : ℕ → M K (ℕ × (ℕ × Cred))
  self_info caller = do (i, p) ← known caller; pure (p.pid, (p.parent_pid, p.cred))

  -- `tm_getcwd`: the bytes of the reply.
  unfoldable pub getcwd : ℕ → M K (List ℕ)
  getcwd caller = do (i, p) ← known caller; pure p.cwd

  -- `tm_set_cred`, with tm_cred_change_permitted as a parameter.
  unfoldable pub set_cred : (Cred → Cred → Bool) → ℕ → Cred → M K (Unit {0})
  set_cred permitted caller new = do
    (i, p) ← known caller
    raise_if (not (permitted p.cred new)) eperm
    with_process i (record p { cred = changed new p.cred })

  -- `tm_channel_register_existing`
  unfoldable pub channel_register_existing : Abi → ℕ → ℕ → ℕ → ℕ → M K (Unit {0})
  channel_register_existing abi pid chid master recv = do
    (i, owner) ← known pid
    taken ← gets (λ s. channel_find abi.is_global pid chid s.registry)
    elim taken [ none ↦ pure tt | some r ↦ raise einval ]
    free ← gets (λ s. first (λ (c : Channel). not c.in_use) s.registry.channels)
    (idx, old) ← or_raise free enomem
    with_registry (with_channel idx (created pid chid 0 master recv 0 0 old))

-- `tm_process_find_frame`: the frame of the megapage of an address, or 0.
unfoldable pub find_frame : ℕ → List Page → ℕ
find_frame va [] = 0
find_frame va (e ∷ es) =
    let rest = find_frame va es in if e.va == va - va % mega then e.frame else rest

-- `tm_channel_master`, 0 where there is no such channel.
unfoldable pub channel_master : ℕ → Registry → ℕ
channel_master idx r = elim (get_elem? r.channels idx) [
  | none ↦ 0
  | some c ↦ if c.in_use then c.master else 0
]

-- `tm_connection_badge_by_slot` and `tm_connection_client_pid`
unfoldable pub badge_by_slot : ℕ → ℕ → Registry → Option ℕ
badge_by_slot pid slot r = elim (connection_find_by_slot pid slot r) [
  | none ↦ none
  | some (j, cn) ↦ some cn.badge
]

unfoldable pub client_pid_of : ℕ → Registry → ℕ
client_pid_of badge r = elim (connection_find_by_badge badge r) [
  | none ↦ 0
  | some (j, cn) ↦ cn.client_pid
]

-- `tm_connect_server_info`: the pid and the chid of the server, and the badge. The channel need not
-- be in use.
unfoldable pub server_info : ℕ → ℕ → Registry → Option (ℕ × (ℕ × ℕ))
server_info pid slot r = elim (connection_find_by_slot pid slot r) [
  | none ↦ none
  | some (j, cn) ↦ elim (get_elem? r.channels cn.channel_idx) [
    | none ↦ none
    | some c ↦ some (c.owner_pid, (c.owner_chid, cn.badge))
  ]
]

-- `tm_connect_client_info`: the pid of the client, which is its sid, and the flags.
unfoldable pub client_info : ℕ → Registry → Option (ℕ × (ℕ × ℕ))
client_info scoid r = elim (connection_find_by_badge scoid r) [
  | none ↦ none
  | some (j, cn) ↦ some (cn.client_pid, (cn.client_pid, cn.flags))
]

module _ {K : Type 0} (kernel : Kernel K) (abi : Abi) where
  -- `tm_reply_object_create`
  unfoldable pub reply_object_create : M K ℕ
  reply_object_create = alloc_and_retype kernel abi abi.reply 0

  -- `tm_reply_init`
  unfoldable pub reply_init : M K (Unit {0})
  reply_init = do
    slot ← reply_object_create
    modify (λ s. record s { active_reply = slot })
    raise_if (slot == 0) enomem
