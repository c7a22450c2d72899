-- ===== src/Proc/Table.antt =====
-- taskman/proc/process.c: the table of processes, parents and exit states, what a caller asks of itself.
use lq.Base.{
  ℕ, ◌%◌, true, false, not, ◌||◌, Option, none, some, List, [], ◌∷◌, leb, ltb, ◌==◌, if◌then◌else◌,
  set, get_or, take, c_string, ok, err, einval, enomem, esrch, echild, enametoolong, ebadf, value,
  fail,
}
use lq.Alloc.Numbers.{pid_free}
use lq.Chan.State.{first}
use lq.Chan.Connect.{clone_for_dup}
use lq.Proc.State.{Cred, Process, exit_detached, System, Kernel, Abi, is_process, is_thread}
use lq.Proc.Monad.{
  M, pure, raise, gets, or_raise, invoke, invoke_or, ◌>>=◌, ◌>>◌, modify, raise_if, process_lookup,
  with_process,
}
use lq.Proc.Slots.{cap_of, reply_park, reply_deliver}

abbrev pub root_cred : Cred
root_cred = record { ruid = 0; euid = 0; suid = 0; rgid = 0; egid = 0; sgid = 0 }

-- The record that `tm_process_register` writes over a free one. The scheduling fields stay.
unfoldable pub registered : Abi → ℕ → ℕ → ℕ → ℕ → ℕ → Process → Process
registered abi pid cnode tcb vspace first_free old = record {
  in_use = true;
  pid = pid;
  cnode = cnode;
  next_slot = first_free;
  tcb = tcb;
  sc = 0;
  sched_prio = old.sched_prio;
  sched_policy = old.sched_policy;
  vspace = vspace;
  untyped_budget = 0;
  workers_l1_pt = 0;
  workers_l0_pt = 0;
  next_tid = 2;
  parent_pid = abi.taskman;
  exit_state = 0;
  exit_status = 0;
  waiter_reply_slot = 0;
  signal_chid = 0;
  space = record { mmap = []; free_list = []; top = abi.mmap_base; devframes = []; mprot = [] };
  cred = root_cred;
  cwd = b'/' ∷ [];
  umask = 18;
  itimer_expiry_ticks = 0;
  itimer_interval_ticks = 0;
  pput = [];
  objcnode = 0;
  objcnode_next = 0;
  fault_ep = 0;
}

module _ {K : Type 0} where
  -- A process that must be there.
  abbrev pub known : ℕ → M K (ℕ × Process)
  known pid = do found ← process_lookup pid; or_raise found esrch

  -- `tm_process_register`
  unfoldable pub process_register : Abi → ℕ → ℕ → ℕ → ℕ → ℕ → M K (Unit {0})
  process_register abi pid cnode tcb vspace first_free s =
      elim (first (is_process pid) s.processes) [
        | some r ↦ (fail einval, s)
        | none ↦ elim (first (λ p. not p.in_use) s.processes) [
          | none ↦ (fail enomem, s)
          | some (i, old) ↦ (
            value tt,
            record s {
              processes = set s.processes i (registered abi pid cnode tcb vspace first_free old);
            },
          )
        ]
      ]

  -- `tm_process_set_parent`. The parent is looked up after the write, and may be the child.
  unfoldable pub process_set_parent : ℕ → ℕ → M K (Unit {0})
  process_set_parent child parent = do
    (i, p) ← known child
    with_process i (record p { parent_pid = parent })
    found ← process_lookup parent
    elim found [
      | none ↦ pure tt
      | some (j, par) ↦
          with_process i
            (record p { parent_pid = parent; cred = par.cred; umask = par.umask; cwd = par.cwd })
    ]

  -- `tm_umask`; a negative mask, here `none`, only reads.
  unfoldable pub umask_set : ℕ → Option ℕ → M K ℕ
  umask_set caller mask = do
    (i, p) ← known caller
    elim mask [ none ↦ pure tt | some m ↦ with_process i (record p { umask = m % 512 }) ]
    pure p.umask

  -- `tm_chdir` with the path in the IPC buffer, of which `path_len` bytes are read.
  unfoldable pub chdir : ℕ → ℕ → List ℕ → M K (Unit {0})
  chdir caller path_len src = do
    (i, p) ← known caller
    raise_if (path_len == 0 || leb 256 path_len) enametoolong
    raise_if (not (get_or src 0 0 == b'/')) einval
    with_process i (record p { cwd = c_string (take path_len src) })

  -- `sched_resolve`: the TCB with the tracked priority and policy.
  unfoldable pub sched_resolve : ℕ → ℕ → ℕ → M K (ℕ × (ℕ × ℕ))
  sched_resolve caller pid tid s =
      let pid' = if pid == 0 then caller else pid in
      if leb tid 1
      then elim (first (is_process pid') s.processes) [
        | none ↦ (fail esrch, s)
        | some (i, p) ↦ (value (p.tcb, (p.sched_prio, p.sched_policy)), s)
      ]
      else elim (first (is_thread pid' tid) s.threads) [
        | none ↦ (fail esrch, s)
        | some (i, t) ↦ (value (t.tcb_master, (t.sched_prio, t.sched_policy)), s)
      ]

  -- The writes through the two pointers that `sched_resolve` hands out.
  unfoldable pub sched_write : ℕ → ℕ → ℕ → ℕ → ℕ → System K → System K
  sched_write caller pid tid prio policy s =
      let pid' = if pid == 0 then caller else pid in
      if leb tid 1
      then elim (first (is_process pid') s.processes) [
        | none ↦ s
        | some (i, p) ↦ record s {
          processes = set s.processes i (record p { sched_prio = prio; sched_policy = policy });
        }
      ]
      else elim (first (is_thread pid' tid) s.threads) [
        | none ↦ s
        | some (i, t) ↦ record s {
          threads = set s.threads i (record t { sched_prio = prio; sched_policy = policy });
        }
      ]

  -- `tm_sched_get`
  unfoldable pub sched_get : ℕ → ℕ → ℕ → M K (ℕ × ℕ)
  sched_get caller pid tid = do
    (tcb, (prio, policy)) ← sched_resolve caller pid tid
    pure (policy, prio)

module _ {K : Type 0} (kernel : Kernel K) (abi : Abi) where
  -- `tm_sched_set`, of a policy and a priority that are not negative.
  unfoldable pub sched_set : ℕ → ℕ → ℕ → ℕ → ℕ → M K (Unit {0})
  sched_set caller pid tid policy prio = do
    raise_if (ltb 2 policy) einval
    raise_if (prio == 0 || ltb 254 prio) einval
    (tcb, tracked) ← sched_resolve caller pid tid
    invoke_or einval (kernel.set_priority tcb abi.init_tcb prio)
    modify (sched_write caller pid tid prio policy)

  -- `tm_process_detach`
  unfoldable pub process_detach : ℕ → ℕ → M K (Unit {0})
  process_detach pid status = do
    (i, p) ← known pid
    if not (p.exit_state == 0) then pure tt else (do
      reply_deliver kernel abi p.waiter_reply_slot 0 status
      with_process i (record p {
        exit_state = exit_detached;
        exit_status = status;
        waiter_reply_slot = 0;
        parent_pid = abi.taskman;
      }))

  -- `tm_process_waitpid`: the exit status, or `none` for a caller that stays parked.
  unfoldable pub process_waitpid : ℕ → ℕ → M K (Option ℕ)
  process_waitpid waiter child = do
    found ← process_lookup child
    (i, c) ← or_raise found echild
    raise_if (not (c.parent_pid == waiter)) echild
    if not (c.exit_state == 0)
        then (do
          with_process i (record c { in_use = false })
          modify (λ s. record s { pids = pid_free abi.max_processes abi.taskman child s.pids })
          pure (some c.exit_status))
        else (do
          slot ← reply_park kernel abi
          raise_if (slot == 0) enomem
          with_process i (record c { waiter_reply_slot = slot })
          pure none)

  -- `tm_dup_cap`
  unfoldable pub dup_cap : ℕ → ℕ → ℕ → M K (Unit {0})
  dup_cap caller src dest = do
    (i, p) ← known caller
    raise_if (src == 0 || dest == 0) einval
    if src == dest then pure tt else (do
      invoke_or ebadf (
          kernel.copy (cap_of abi caller p.cnode dest) (cap_of abi caller p.cnode src)
            abi.rights_all)
      (status, r) ← gets (λ s. clone_for_dup caller src dest s.registry)
      elim status [
        | ok ↦ modify (λ s. record s { registry = r })
        | err e ↦ (do invoke (kernel.delete (cap_of abi caller p.cnode dest)); raise e)
      ])
