-- ===== src/Proc/Lifecycle.antt =====
-- taskman/proc/process.c: exit and wait.
use lq.Base.{
  ℕ, zero, suc, ◌⊎◌, Option-cases, ◌≡◌, ◌≢◌, refl, ap, ◌∙◌, sym, subst, Bool, true, false, not,
  ◌||◌, List, [], ◌∷◌, some, inl, inr, value, ◌==◌, ==_iff, unequal, arith, set, get_elem?,
}
use lq.Alloc.Numbers.{Numbers, pid_free}
use lq.Chan.State.{first}
use lq.Chan.Found.{first-lem, first-set, first-set_other}
use lq.Proc.State.{Process, exit_zombie, System, Kernel, Abi, is_process}
use lq.Proc.Monad.{◌>>◌, with_process}
use lq.Proc.Slots.{reply_deliver}
use lq.Proc.Table.{process_waitpid}
use lq.Proc.Terminate.{
  close_endpoints, release_objects, emptied, reap_or_keep, can_reap, process_terminate,
}
use lq.Proc.Quiet.{reply_deliver-Calm, release_objects-Calm, Calm-then}
use lq.Proc.Closing.{tables, tables-Blind, close_endpoints-Calm}

pub set-set {ℓ} : {A : Type ℓ} (xs : List A) (i : ℕ) (v w : A) → set (set xs i v) i w ≡ set xs i w
set-set [] i v w = refl
set-set (x ∷ xs) zero v w = refl
set-set (x ∷ xs) (suc i) v w = ap (λ ys. x ∷ ys) (set-set xs i v w)

-- The record of a process that exits, before its objects are released.
abbrev pub exited : ℕ → Process → Process
exited status p = record p { exit_state = exit_zombie; exit_status = status; waiter_reply_slot = 0 }

module _ {K : Type 0} (kernel : Kernel K) (abi : Abi) where
  -- A live process is taken down whatever the kernel answers; what is left is the end, at a state
  -- with its record emptied.
  pub terminate_lem :
      (pid status i : ℕ) (p : Process) (s : System K)
      → pid ≢ abi.taskman
      → first (is_process pid) s.processes ≡ some (i, p)
      → p.exit_state ≡ 0
      → (s' : System K) × (process_terminate kernel abi pid status s
          ≡ reap_or_keep kernel abi i pid
              (emptied (exited status p))
              (not (p.waiter_reply_slot == 0))
              s')
        × (s'.processes ≡ set s.processes i (emptied (exited status p)))
        × (s'.pids ≡ s.pids)
  unfolding process_terminate
  terminate_lem pid status i p s other found live =
      let q = exited status p in
      let running : not (p.exit_state == 0) ≡ false = ground (arith, live) in
      let s1 : System K = record s { processes = set s.processes i q } in
      let (_, s2, e2, v2) =
        Calm-then tables {m = reply_deliver kernel abi p.waiter_reply_slot 0 status}
          (λ _.
            close_endpoints kernel abi pid
            >> (release_objects kernel abi p
                >> (with_process i (emptied q)
                    >> reap_or_keep kernel abi i pid (emptied q) (not (p.waiter_reply_slot == 0)))))
          s1 (reply_deliver-Calm tables tables-Blind kernel abi p.waiter_reply_slot 0 status) in
      let (_, s3, e3, v3) =
        Calm-then tables {m = close_endpoints kernel abi pid}
          (λ _.
            release_objects kernel abi p
            >> (with_process i (emptied q)
                >> reap_or_keep kernel abi i pid (emptied q) (not (p.waiter_reply_slot == 0))))
          s2 (close_endpoints-Calm kernel abi pid) in
      let (_, s4, e4, v4) =
        Calm-then tables {m = release_objects kernel abi p}
          (λ _.
            with_process i (emptied q)
            >> reap_or_keep kernel abi i pid (emptied q) (not (p.waiter_reply_slot == 0)))
          s3 (release_objects-Calm tables tables-Blind kernel abi p) in
      let v = v4 ∙ v3 ∙ v2 in
      (
        record s4 { processes = set s4.processes i (emptied q) },
        rw (unequal pid abi.taskman other, found, running) (e2 ∙ e3 ∙ e4),
        ap (λ (t : List Process × Numbers). set t.0 i (emptied q)) v
            ∙ set-set s.processes i q (emptied q),
        ap (λ (t : List Process × Numbers). t.1) v,
      )

is_process_lem :
    (pid : ℕ) (p : Process) → is_process pid p ≡ true → (p.in_use ≡ true) × (p.pid ≡ pid)
is_process_lem pid p h = ground arith

pub is_process_own :
    (pid : ℕ) (p : Process) → p.in_use ≡ true → p.pid ≡ pid → is_process pid p ≡ true
is_process_own pid p u e = ground arith

pub is_process_other : (pid : ℕ) (p : Process) → p.pid ≢ pid → is_process pid p ≡ false
is_process_other pid p h = ground arith

-- What the search for a pid finds.
pub found_process :
    (pid i : ℕ) (p : Process) (ps : List Process)
    → first (is_process pid) ps ≡ some (i, p)
    → (get_elem? ps i ≡ some p) × (p.in_use ≡ true) × (p.pid ≡ pid)
found_process pid i p ps h = elim (first-lem (is_process pid) ps) [
  | inl (n, nope) ↦ absurd (ground (arith, n, h))
  | inr (j, q, e, at, t) ↦
      let a : j ≡ i = ground (arith, e, h) in
      let b : q ≡ p = ground (arith, e, h) in
      let (u, own) = is_process_lem pid q t in
      subst (λ (r : Process). (get_elem? ps i ≡ some r) × (r.in_use ≡ true) × (r.pid ≡ pid)) b
        (subst (λ k. get_elem? ps k ≡ some q) a at, u, own)
]

module _ {K : Type 0} (kernel : Kernel K) (abi : Abi) where
  -- A process that has exited is reaped by its parent.
  waitpid_exited :
      (waiter pid i : ℕ) (z : Process) (s : System K)
      → first (is_process pid) s.processes ≡ some (i, z)
      → z.parent_pid ≡ waiter
      → (z.exit_state == 0) ≡ false
      → process_waitpid kernel abi waiter pid s ≡ (
        value (some z.exit_status),
        record s {
          processes = set s.processes i (record z { in_use = false });
          pids = pid_free abi.max_processes abi.taskman pid s.pids;
        },
      )
  unfolding process_waitpid
  waitpid_exited waiter pid i z s found parent done =
      rw (found, (==_iff z.parent_pid waiter).1 parent, done) refl

  keep_lem :
      (i pid : ℕ) (p : Process) (s : System K)
      → can_reap kernel abi p.parent_pid s ≡ true
      → reap_or_keep kernel abi i pid p false s ≡ (value tt, s)
  unfolding reap_or_keep
  keep_lem i pid p s h = rw h refl

  -- A live process, with a live parent that is not the task manager and does not wait yet, exits and
  -- is waited for: the wait answers the exit status at once, the record and the pid go, and no other
  -- record changes. Whatever the kernel answers, the exit succeeds.
  pub process_waitpid-process_terminate :
      (pid status i j : ℕ) (p par : Process) (s : System K)
      → pid ≢ abi.taskman
      → first (is_process pid) s.processes ≡ some (i, p)
      → p.exit_state ≡ 0
      → p.waiter_reply_slot ≡ 0
      → p.parent_pid ≢ abi.taskman
      → pid ≢ p.parent_pid
      → first (is_process p.parent_pid) s.processes ≡ some (j, par)
      → par.exit_state ≡ 0
      → let (answer, s') = process_terminate kernel abi pid status s in
        let (waited, s'') = process_waitpid kernel abi p.parent_pid pid s' in
        (answer ≡ value tt)
        × (waited ≡ value (some status))
        × (s''.processes
            ≡ set s.processes i (record (emptied (exited status p)) { in_use = false }))
        × (s''.pids ≡ pid_free abi.max_processes abi.taskman pid s.pids)
  process_waitpid-process_terminate pid status i j p par s other found live alone owned apart up
        awake =
      let gone = emptied (exited status p) in
      let (s', ends, table, free) = terminate_lem kernel abi pid status i p s other found live in
      let (at, used, own) = found_process pid i p s.processes found in
      let stranger : p.pid ≢ p.parent_pid = λ e. apart (sym own ∙ e) in
      let same : first (is_process p.parent_pid) s'.processes ≡ some (j, par) =
        ap (first (is_process p.parent_pid)) table
        ∙ first-set_other (is_process p.parent_pid) s.processes i p gone at
            (is_process_other p.parent_pid p stranger) (is_process_other p.parent_pid gone stranger)
        ∙ up in
      let keeps : can_reap kernel abi p.parent_pid s' ≡ true =
        rw (same, can_reap) (ground (arith, awake, owned)) in
      let done : process_terminate kernel abi pid status s ≡ (value tt, s') =
        ends
        ∙ ap (λ n. reap_or_keep kernel abi i pid gone (not (n == 0)) s') alone
        ∙ keep_lem i pid gone s' keeps in
      let there : first (is_process pid) s'.processes ≡ some (i, gone) =
        ap (first (is_process pid)) table
        ∙ first-set (is_process pid) s.processes i p gone found
            (is_process_own pid gone used own) in
      rw (done, waitpid_exited p.parent_pid pid i gone s' there refl refl)
        (
          refl,
          refl,
          ap (λ ps. set ps i (record gone { in_use = false })) table
              ∙ set-set s.processes i gone (record gone { in_use = false }),
          ap (pid_free abi.max_processes abi.taskman pid) free,
        )

  can_reap_taskman :
      (parent : ℕ) (s : System K) → parent ≡ abi.taskman → can_reap kernel abi parent s ≡ false
  can_reap_taskman parent s e = elim (Option-cases (first (is_process parent) s.processes)) [
    | inl n ↦ rw (n, can_reap) refl
    | inr ((j, par), f) ↦ rw (f, can_reap) (ground (arith, e))
  ]

  reap_lem :
      (i pid : ℕ) (p : Process) (delivered : Bool) (s : System K)
      → (delivered || not (can_reap kernel abi p.parent_pid s)) ≡ true
      → reap_or_keep kernel abi i pid p delivered s ≡ (
        value tt,
        record s {
          processes = set s.processes i (record p { in_use = false });
          pids = pid_free abi.max_processes abi.taskman pid s.pids;
        },
      )
  unfolding reap_or_keep
  reap_lem i pid p delivered s h = rw h refl

  -- A live process with a parked waiter, or whose parent is the task manager, exits: the record and the
  -- pid go at once.
  pub process_terminate-reaps :
      (pid status i : ℕ) (p : Process) (s : System K)
      → pid ≢ abi.taskman
      → first (is_process pid) s.processes ≡ some (i, p)
      → p.exit_state ≡ 0
      → (p.waiter_reply_slot ≢ 0) ⊎ (p.parent_pid ≡ abi.taskman)
      → let (answer, s') = process_terminate kernel abi pid status s in
        (answer ≡ value tt)
        × (s'.processes ≡ set s.processes i (record (emptied (exited status p)) { in_use = false }))
        × (s'.pids ≡ pid_free abi.max_processes abi.taskman pid s.pids)
  process_terminate-reaps pid status i p s other found live why =
      let gone = emptied (exited status p) in
      let (s', ends, table, free) = terminate_lem kernel abi pid status i p s other found live in
      let goes : (not (p.waiter_reply_slot == 0) || not (can_reap kernel abi p.parent_pid s'))
          ≡ true =
        elim why [
          | inl waits ↦ rw (unequal p.waiter_reply_slot 0 waits) refl
          | inr orphan ↦ rw (can_reap_taskman p.parent_pid s' orphan) (ground arith)
        ] in
      rw (ends ∙ reap_lem i pid gone (not (p.waiter_reply_slot == 0)) s' goes) (
        refl,
        ap (λ ps. set ps i (record gone { in_use = false })) table
            ∙ set-set s.processes i gone (record gone { in_use = false }),
        ap (pid_free abi.max_processes abi.taskman pid) free,
      )
