-- ===== src/Proc/Threads.antt =====
-- taskman/proc/thread.c
use lq.Base.{
  ℕ, zero, suc, ◌+◌, ◌-◌, ◌*◌, ◌%◌, true, not, ◌||◌, leb, ltb, ◌==◌, if◌then◌else◌, set, w64,
  einval, enomem, enosys,
}
use lq.Chan.State.{first}
use lq.Proc.State.{Kernel, Abi}
use lq.Proc.Monad.{M, pure, gets, or_raise, invoke_or, ◌>>=◌, ◌>>◌, modify, raise_if, with_process}
use lq.Proc.Slots.{own_cap, cap_of, process_alloc_slot, alloc_and_retype, sched_context_create}
use lq.Proc.Table.{known}

-- What `tm_thread_alloc` hands out: the tid and the slots of the caller for the TCB, the
-- Notification and the reply object.
pub record Allotted : Type 0 where
  pub tid : ℕ
  pub tcb_slot : ℕ
  pub ntfn_slot : ℕ
  pub reply_slot : ℕ

module _ {K : Type 0} (kernel : Kernel K) (abi : Abi) where
  -- An object that must be made.
  unfoldable pub made : ℕ → ℕ → M K ℕ
  made type bits = do
    slot ← alloc_and_retype kernel abi type bits
    raise_if (slot == 0) enomem
    pure slot

  -- A page table of the region of the workers.
  unfoldable pub map_worker_table : ℕ → M K ℕ
  map_worker_table vspace = do
    pt ← made abi.page_table 0
    invoke_or enomem (kernel.map_table pt vspace 0x40000000)
    pure pt

  -- `ensure_workers_pts` of the process at `i`.
  unfoldable pub ensure_workers_pts : ℕ → ℕ → M K (Unit {0})
  ensure_workers_pts i pid = do
    (j, p) ← known pid
    if not (p.workers_l0_pt == 0) then pure tt else (do
      l1 ← (if p.workers_l1_pt == 0 then map_worker_table p.vspace else pure p.workers_l1_pt)
      (j', p') ← known pid
      with_process i (record p' { workers_l1_pt = l1 })
      l0 ← map_worker_table p.vspace
      (j'', p'') ← known pid
      with_process i (record p'' { workers_l0_pt = l0 }))

  -- The loop over the frames of the stack, from the `i`-th one on.
  unfoldable pub map_stack : ℕ → ℕ → ℕ → ℕ → M K (Unit {0})
  map_stack zero i top vspace = pure tt
  map_stack (suc n) i top vspace = do
    frame ← made abi.page_4k 0
    invoke_or enomem (kernel.map_page frame vspace ((top + w64 - (i + 1) * 4096 % w64) % w64))
    map_stack n (i + 1) top vspace

  -- `tm_thread_alloc` for a process that is not the task manager.
  unfoldable pub thread_alloc : ℕ → ℕ → ℕ → ℕ → ℕ → ℕ → M K Allotted
  thread_alloc caller stack_top stack_pages ipc_vaddr prio affinity = do
    raise_if (caller == abi.taskman) enosys
    (i, p) ← known caller
    raise_if (leb (abi.max_tid + 1) p.next_tid) enomem
    raise_if (stack_pages == 0 || ltb 16 stack_pages) einval
    free ← gets (λ s. first (λ t. not t.in_use) s.threads)
    (g, old) ← or_raise free enomem
    with_process i (record p { next_tid = p.next_tid + 1 })
    ensure_workers_pts i caller
    tcb ← made abi.tcb 0
    ntfn ← made abi.notification 0
    ipc_frame ← made abi.page_4k 0
    invoke_or enomem (kernel.map_page ipc_frame p.vspace ipc_vaddr)
    map_stack stack_pages 0 stack_top p.vspace
    invoke_or enomem (kernel.tcb_configure tcb p.cnode p.vspace ipc_vaddr ipc_frame)
    sc ← sched_context_create kernel abi affinity
    raise_if (sc == 0) enomem
    invoke_or enomem (kernel.tcb_sched tcb abi.init_tcb prio prio sc p.fault_ep)
    tcb_slot ← process_alloc_slot abi caller
    ntfn_slot ← process_alloc_slot abi caller
    reply_slot ← process_alloc_slot abi caller
    invoke_or enomem (kernel.retype abi.master_ut abi.reply 0 p.cnode reply_slot)
    invoke_or enomem
        (kernel.copy (cap_of abi caller p.cnode tcb_slot) (own_cap abi tcb) abi.rights_all)
    invoke_or enomem
        (kernel.copy (cap_of abi caller p.cnode ntfn_slot) (own_cap abi ntfn) abi.rights_all)
    modify (λ s. record s {
      threads = set s.threads g (record {
        in_use = true;
        pid = caller;
        tid = p.next_tid;
        tcb_master = tcb;
        ntfn_master = ntfn;
        tcb_in_caller = tcb_slot;
        ntfn_in_caller = ntfn_slot;
        sc = sc;
        sched_prio = prio;
        sched_policy = 2;
      });
    })
    pure (record {
      tid = p.next_tid;
      tcb_slot = tcb_slot;
      ntfn_slot = ntfn_slot;
      reply_slot = reply_slot;
    })
