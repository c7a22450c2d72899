-- ===== src/Proc/Tests.antt =====
-- taskman/proc: runs on a small system with a kernel that never fails.
use lq.Base.{◌≡◌, refl, false, some, [], ◌∷◌, arith, value, fail, enomem}
use lq.Alloc.Numbers.{slot_alloc, pid_free}
use lq.Chan.State.{Registry, first, channel_by_badge}
use lq.Chan.Pulse.{with_channel}
use lq.Chan.Connect.{register_existing}
use lq.Chan.Wired.{Wired}
use lq.Chan.Sample.{local, channel, connection, registry}
use lq.Proc.State.{is_process}
use lq.Proc.Slots.{alloc_empty_slot, process_alloc_slot, alloc_and_retype, sched_context_create}
use lq.Proc.Table.{process_detach, process_waitpid}
use lq.Proc.Threads.{thread_alloc, ensure_workers_pts, map_worker_table, made, map_stack}
use lq.Proc.Channels.{channel_create, connect_attach, pipe_create, enter_pipe, enter_ends}
use lq.Proc.Roomy.{roomy, roomy-Wired, system-Linked}
use lq.Proc.Sample.{abi, kernel, child, parent, blank, system}
use lq.Proc.Terminate.{process_terminate, emptied}
use lq.Proc.Lifecycle.{exited, process_waitpid-process_terminate}
use lq.Proc.Detached.{terminates, waits, after_all, detached, process_terminate-process_detach}
use lq.Proc.Wiring.{CreateOutcome, channel_create_lem}
use lq.Proc.Attached.{Linked, connect_attach-Linked}
use lq.Proc.Stranded.{process_terminate-misroutes}
use lq.Proc.Pipes.{TwoWays, pipe_create-clashes}

process_waitpid-process_terminate_example :
    let (answer, s') = process_terminate kernel abi 2 7 (system (registry channel)) in
    let (waited, s'') = process_waitpid kernel abi 3 2 s' in
    (answer ≡ value tt)
    × (waited ≡ value (some 7))
    × (s''.processes ≡ record (emptied (exited 7 child)) { in_use = false } ∷ parent ∷ blank ∷ [])
    × (s''.pids ≡ pid_free 64 1 2 (record { next = 4; free_list = [] }))
process_waitpid-process_terminate_example =
    process_waitpid-process_terminate kernel abi 2 7 0 1 child parent (system (registry channel))
      (omega arith) (unfold first in refl) refl refl (omega arith) (omega arith)
      (unfold first in refl) refl

process_terminate-process_detach_example :
    let (answer, s') = process_detach kernel abi 2 0 (system (registry channel)) in
    let later = after_all kernel abi (waits 3 2 ∷ terminates 3 1 ∷ terminates 2 5 ∷ []) s' in
    (answer ≡ value tt)
    × (first (is_process 2) later.processes ≡ some (0, detached kernel abi 0 child))
    × (process_terminate kernel abi 2 9 later ≡ (value tt, later))
process_terminate-process_detach_example =
    process_terminate-process_detach kernel abi 2 0 9 0
      (waits 3 2 ∷ terminates 3 1 ∷ terminates 2 5 ∷ []) child (system (registry channel))
      (omega arith) (omega arith, tt) (unfold first in refl) refl

connect_attach-Linked_example :
    Linked kernel abi (connect_attach kernel abi 3 2 1 0 (system roomy)).1
connect_attach-Linked_example =
    connect_attach-Linked kernel abi 3 2 1 0 (system roomy) (omega arith) system-Linked

channel_create_lem_example :
    CreateOutcome kernel abi 3 0 roomy (channel_create kernel abi 3 5 0 1 (system roomy))
channel_create_lem_example = channel_create_lem kernel abi 3 5 0 1 (system roomy)

-- Process 3 has a connection to the channel of process 2, which exits; record 0 goes to process 4.
process_terminate-misroutes_example :
    let r = (process_terminate kernel abi 2 7 (system roomy)).1.registry in
    (¬ Wired local r)
    × (channel_by_badge 9 (with_channel 0 (record channel { owner_pid = 4 }) r)
        ≡ some (record channel { owner_pid = 4 }))
process_terminate-misroutes_example =
    process_terminate-misroutes kernel abi 2 7 0 0 0 child channel
      (record channel { owner_pid = 4 }) connection (system roomy) roomy-Wired (omega arith)
      (unfold first in refl) refl refl refl refl refl refl (omega arith) refl refl

-- Connection 2 leads to the channel of process 2, and the pipe manager has the second channel.
abbrev with_pipes : Registry
with_pipes = record {
  channels = channel ∷ record channel { owner_pid = 3; owner_chid = 6 } ∷ [];
  connections =
      record connection { badge = 2 }
      ∷ record connection { in_use = false }
      ∷ record connection { in_use = false }
      ∷ [];
}

pipe_create-clashes_example :
    TwoWays 0 1
      (record connection { badge = 2 })
      (pipe_create kernel abi 3 3 6 (system with_pipes)).1.registry
pipe_create-clashes_example =
    pipe_create-clashes kernel abi 3 3 6 1 0 1 (record channel { owner_pid = 3; owner_chid = 6 })
      (record connection { badge = 2 }) (record connection { in_use = false }) (0, 1)
      (system with_pipes) (unfold first in refl) (unfold first in refl) refl refl refl (omega arith)
      ends_made
  where
    ends_made : (pipe_create kernel abi 3 3 6 (system with_pipes)).0 ≡ value (0, 1)
    ends_made =
        unfold pipe_create enter_pipe enter_ends process_alloc_slot first register_existing in refl

-- With no record of a thread free, a worker is refused before anything is made.
no_thread :
    thread_alloc kernel abi 2 0x40100000 4 0x40000000 10 0 (system roomy)
    ≡ (fail enomem, system roomy)
unfolding thread_alloc first
no_thread = refl

worker_made :
    (thread_alloc kernel abi 2 0x40100000 4 0x40000000 10 0 (record (system roomy) {
      threads =
          record {
            in_use = false;
            pid = 0;
            tid = 0;
            tcb_master = 0;
            ntfn_master = 0;
            tcb_in_caller = 0;
            ntfn_in_caller = 0;
            sc = 0;
            sched_prio = 0;
            sched_policy = 0;
          }
          ∷ [];
    })).0
    ≡ value (record { tid = 2; tcb_slot = 16; ntfn_slot = 17; reply_slot = 18 })
unfolding thread_alloc first ensure_workers_pts map_worker_table made map_stack sched_context_create
    alloc_and_retype alloc_empty_slot process_alloc_slot slot_alloc
worker_made = refl
