-- ===== src/Proc/State.antt =====
-- taskman/proc/proc.h and the globals of process.c, thread.c, channel.c: the state of the task manager.
use lq.Base.{ℕ, Bool, List, ◌==◌, ◌&&◌}
use lq.Alloc.Numbers.{Numbers}
use lq.Chan.State.{Registry}
use lq.Mem.Space.{Space}

-- `struct _cred_info`
pub record Cred : Type 0 where
  pub ruid : ℕ
  pub euid : ℕ
  pub suid : ℕ
  pub rgid : ℕ
  pub egid : ℕ
  pub sgid : ℕ

-- `tm_process_t` without the two names. `space` has the memory fields, `pput` the `pput_count`
-- blocks in use, `cwd` the bytes before the NUL.
pub record Process : Type 0 where
  pub in_use : Bool
  pub pid : ℕ
  pub cnode : ℕ
  pub next_slot : ℕ
  pub tcb : ℕ
  pub sc : ℕ
  pub sched_prio : ℕ
  pub sched_policy : ℕ
  pub vspace : ℕ
  pub untyped_budget : ℕ
  pub workers_l1_pt : ℕ
  pub workers_l0_pt : ℕ
  pub next_tid : ℕ
  pub parent_pid : ℕ
  pub exit_state : ℕ
  pub exit_status : ℕ
  pub waiter_reply_slot : ℕ
  pub signal_chid : ℕ
  pub space : Space
  pub cred : Cred
  pub cwd : List ℕ
  pub umask : ℕ
  pub itimer_expiry_ticks : ℕ
  pub itimer_interval_ticks : ℕ
  pub pput : List ℕ
  pub objcnode : ℕ
  pub objcnode_next : ℕ
  pub fault_ep : ℕ

-- TM_EXIT_LIVE, TM_EXIT_DETACHED, TM_EXIT_ZOMBIE
abbrev pub exit_live : ℕ
exit_live = 0

abbrev pub exit_detached : ℕ
exit_detached = 1

abbrev pub exit_zombie : ℕ
exit_zombie = 2

-- `tm_thread_t` without the name.
pub record Thread : Type 0 where
  pub in_use : Bool
  pub pid : ℕ
  pub tid : ℕ
  pub tcb_master : ℕ
  pub ntfn_master : ℕ
  pub tcb_in_caller : ℕ
  pub ntfn_in_caller : ℕ
  pub sc : ℕ
  pub sched_prio : ℕ
  pub sched_policy : ℕ

-- Where `s_cur_pput_list` points: nowhere, to the list of a spawn, or to that of the process at an
-- index.
pub data Holder : Type 0 where
  nowhere : Holder
  staging : Holder
  of_process : ℕ → Holder

-- The globals, with the state `K` of the kernel. `ram_ut` is what is left of `s_ram_ut` from the
-- cursor on, `pput_free` a stack with its top first, `staged` the list of the spawn under way.
pub record System (K : Type 0) : Type 0 where
  pub processes : List Process
  pub threads : List Thread
  pub registry : Registry
  pub slots : Numbers
  pub pids : Numbers
  pub next_badge : ℕ
  pub next_global : ℕ
  pub next_pipe : ℕ
  pub pput_free : List ℕ
  pub ram_ut : List ℕ
  pub cur_pput : ℕ
  pub cur_list : Holder
  pub staged : List ℕ
  pub active_reply : ℕ
  pub kernel : K

-- A capability by its CNode, its slot and the depth of the lookup.
pub record Cap : Type 0 where
  pub root : ℕ
  pub slot : ℕ
  pub depth : ℕ

-- The invocations of the kernel that proc/ makes; a Boolean is whether one succeeds. `retype` has
-- the untyped, the type, the size in bits, the CNode and the slot, `mint` the rights and the badge,
-- `map_page` and `map_table` the object, the address space and the address, `reply` the slot, the
-- label and the first word.
pub record Kernel (K : Type 0) : Type 0 where
  pub retype : ℕ → ℕ → ℕ → ℕ → ℕ → K → Bool × K
  pub copy : Cap → Cap → ℕ → K → Bool × K
  pub mint : Cap → Cap → ℕ → ℕ → K → Bool × K
  pub move : Cap → Cap → K → Bool × K
  pub delete : Cap → K → Bool × K
  pub revoke : Cap → K → Bool × K
  pub bind_notification : ℕ → ℕ → K → Bool × K
  pub unbind_notification : ℕ → K → Bool × K
  pub set_priority : ℕ → ℕ → ℕ → K → Bool × K
  pub sched_configure : ℕ → ℕ → K → Bool × K
  pub map_page : ℕ → ℕ → ℕ → K → Bool × K
  pub map_table : ℕ → ℕ → ℕ → K → Bool × K
  pub tcb_configure : ℕ → ℕ → ℕ → ℕ → ℕ → K → Bool × K
  pub tcb_sched : ℕ → ℕ → ℕ → ℕ → ℕ → ℕ → K → Bool × K
  pub reply : ℕ → ℕ → ℕ → K → K

-- The constants of <sys/qsoe.h>, <qsoe/slots.h>, <tm_limits.h> and the kernel's headers.
-- `bits` of the types are 0 where the size is fixed.
pub record Abi : Type 0 where
  pub taskman : ℕ
  pub max_processes : ℕ
  pub max_tid : ℕ
  pub mmap_base : ℕ
  pub untyped : ℕ
  pub endpoint : ℕ
  pub notification : ℕ
  pub notification_bits : ℕ
  pub tcb : ℕ
  pub reply : ℕ
  pub page_4k : ℕ
  pub page_table : ℕ
  pub sched_context : ℕ
  pub sched_context_bits : ℕ
  pub rights_all : ℕ
  pub rights_send : ℕ
  pub rights_write : ℕ
  pub chf_global : ℕ
  pub chf_pulse_direct : ℕ
  pub global_channel : ℕ
  pub side_channel : ℕ
  pub ntfn_badge : ℕ
  pub ntfn_direct : ℕ
  pub init_tcb : ℕ
  pub init_vspace : ℕ
  pub master_ut : ℕ
  pub cnode_root : ℕ
  pub sched_control : ℕ
  pub num_nodes : ℕ
  pub is_global : ℕ → Bool

abbrev pub is_process : ℕ → Process → Bool
is_process pid p = p.in_use && p.pid == pid

abbrev pub is_thread : ℕ → ℕ → Thread → Bool
is_thread pid tid t = t.in_use && (t.pid == pid && t.tid == tid)
