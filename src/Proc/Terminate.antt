-- ===== src/Proc/Terminate.antt =====
-- taskman/proc/process.c: `tm_process_terminate` and `tm_handle_fault`.
use lq.Base.{
  ℕ, Bool, false, not, ◌&&◌, ◌||◌, none, some, List, [], ◌∷◌, map, ◌==◌, if◌then◌else◌, einval,
}
use lq.Alloc.Numbers.{pid_free}
use lq.Chan.State.{Channel, first}
use lq.Chan.Connect.{drop_for_pid}
use lq.Mem.Space.{Page}
use lq.Proc.State.{Process, Thread, exit_zombie, System, Kernel, Abi, is_process}
use lq.Proc.Monad.{M, pure, gets, ◌>>=◌, ◌>>◌, modify, raise_if, when, with_process, with_registry}
use lq.Proc.Slots.{free_slot, delete_slot, revoke_slot, pput_release_list, reply_deliver}
use lq.Proc.Table.{known}

module _ {K : Type 0} where
  -- The slots that are not 0 go back; the capabilities in them go otherwise.
  unfoldable pub free_all : List ℕ → M K (Unit {0})
  free_all [] = pure tt
  free_all (n ∷ ns) = do free_slot n; free_all ns

-- What is left of a process that was terminated. The capabilities of its CNode, its address space
-- and its page tables stay in the record as stale numbers.
abbrev pub emptied : Process → Process
emptied p = record p {
  sc = 0;
  fault_ep = 0;
  space = record { mmap = []; free_list = []; top = p.space.top; devframes = []; mprot = [] };
  pput = [];
  objcnode = 0;
  objcnode_next = if p.objcnode == 0 then p.objcnode_next else 0;
}

module _ {K : Type 0} (kernel : Kernel K) (abi : Abi) where
  -- A slot that is used only where it is not 0.
  abbrev pub delete_if : ℕ → M K (Unit {0})
  delete_if slot = when (not (slot == 0)) (delete_slot kernel abi slot)

  -- 1. The worker threads.
  unfoldable pub close_threads : ℕ → List Thread → M K (List Thread)
  close_threads pid [] = pure []
  close_threads pid (t ∷ ts) = do
    t' ←
        (if t.in_use && t.pid == pid
          then (do
            revoke_slot kernel abi t.tcb_master
            revoke_slot kernel abi t.ntfn_master
            delete_if t.sc
            pure (record t { in_use = false; sc = 0 }))
          else pure t)
    ts' ← close_threads pid ts
    pure (t' ∷ ts')

  -- 2. The channels. The connections to them are not touched.
  unfoldable pub close_channels : ℕ → List Channel → M K (List Channel)
  close_channels pid [] = pure []
  close_channels pid (c ∷ cs) = do
    c' ←
        (if c.in_use && c.owner_pid == pid
          then (do
            when (not (c.ntfn_master == 0))
                (do revoke_slot kernel abi c.ntfn_master; free_slot c.ntfn_sig)
            revoke_slot kernel abi c.master
            pure (record c {
              in_use = false;
              ntfn_master = 0;
              ntfn_sig = if c.ntfn_master == 0 then c.ntfn_sig else 0;
            }))
          else pure c)
    cs' ← close_channels pid cs
    pure (c' ∷ cs')

  -- 1. to 3.
  unfoldable pub close_endpoints : ℕ → M K (Unit {0})
  close_endpoints pid = do
    ts ← gets (λ s. s.threads)
    ts' ← close_threads pid ts
    modify (λ s. record s { threads = ts' })
    cs ← gets (λ s. s.registry.channels)
    cs' ← close_channels pid cs
    with_registry (λ r. drop_for_pid pid (record r { channels = cs' }))

  unfoldable pub delete_frames : List Page → M K (Unit {0})
  delete_frames [] = pure tt
  delete_frames (d ∷ ds) = do delete_if d.frame; delete_frames ds

  -- 4. to 10., for what the record names.
  unfoldable pub release_objects : Process → M K (Unit {0})
  release_objects p = do
    revoke_slot kernel abi p.tcb
    delete_if p.sc
    delete_if p.fault_ep
    revoke_slot kernel abi p.vspace
    revoke_slot kernel abi p.cnode
    delete_if p.workers_l0_pt
    delete_if p.workers_l1_pt
    when (not (p.untyped_budget == 0)) (revoke_slot kernel abi p.untyped_budget)
    free_all (map (λ e. e.frame) p.space.mmap)
    free_all p.space.free_list
    delete_frames p.space.devframes
    free_all (map (λ e. e.frame) p.space.mprot)
    pput_release_list kernel abi p.pput
    free_slot p.objcnode

  -- Whether the parent of an exited process is there to ask for its status.
  abbrev pub can_reap : ℕ → System K → Bool
  can_reap parent s = elim (first (is_process parent) s.processes) [
    | none ↦ false
    | some (j, par) ↦ par.exit_state == 0 && not (parent == abi.taskman)
  ]

  -- The end: the record and the pid go, or stay for the parent.
  unfoldable pub reap_or_keep : ℕ → ℕ → Process → Bool → M K (Unit {0})
  reap_or_keep i pid p delivered s =
      if delivered || not (can_reap p.parent_pid s)
      then (do
        with_process i (record p { in_use = false })
        modify (λ s. record s { pids = pid_free abi.max_processes abi.taskman pid s.pids }))
          s
      else pure tt s

  -- `tm_process_terminate`. The record is written at the start and at the end: nothing in between
  -- reads it.
  unfoldable pub process_terminate : ℕ → ℕ → M K (Unit {0})
  process_terminate pid status = do
    raise_if (pid == abi.taskman) einval
    (i, p) ← known pid
    if not (p.exit_state == 0) then pure tt else (do
      let q : Process = record p {
        exit_state = exit_zombie;
        exit_status = status;
        waiter_reply_slot = 0;
      }
      with_process i q
      reply_deliver kernel abi p.waiter_reply_slot 0 status
      close_endpoints pid
      release_objects p
      with_process i (emptied q)
      reap_or_keep i pid (emptied q) (not (p.waiter_reply_slot == 0)))

  -- `tm_handle_fault`, TM_SIG_SEGV being 11.
  abbrev pub handle_fault : ℕ → M K (Unit {0})
  handle_fault pid = process_terminate pid 11
