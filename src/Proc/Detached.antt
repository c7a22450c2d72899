-- ===== src/Proc/Detached.antt =====
-- taskman/proc/process.c: exit after a detach.
use lq.Base.{
  ℕ, Bool-cases, Option-cases, ◌≡◌, ◌≢◌, refl, ap, ◌∙◌, sym, Bool, false, not, ◌||◌, List, [], ◌∷◌,
  some, inl, inr, Result, value, ◌==◌, ==_iff, unequal, arith, set, get_elem?,
}
use lq.Alloc.Numbers.{Numbers}
use lq.Chan.State.{first}
use lq.Chan.Found.{first-set, first-set_other}
use lq.Proc.State.{Process, exit_detached, System, Kernel, Abi, is_process}
use lq.Proc.Monad.{with_process}
use lq.Proc.Slots.{reply_deliver}
use lq.Proc.Table.{process_detach, process_waitpid}
use lq.Proc.Terminate.{emptied, reap_or_keep, can_reap, process_terminate}
use lq.Proc.Quiet.{reply_deliver-Calm, Calm-then}
use lq.Proc.Closing.{tables, tables-Blind}
use lq.Proc.Waiting.{same_record, process_waitpid-keeps}
use lq.Proc.Lifecycle.{
  set-set, exited, terminate_lem, is_process_own, is_process_other, found_process,
}

-- What may happen to the table of processes after a detach.
pub data Event : Type 0 where
  terminates : ℕ → ℕ → Event
  waits : ℕ → ℕ → Event

module _ {K : Type 0} (kernel : Kernel K) (abi : Abi) where
  -- The record of a process that has detached.
  abbrev pub detached : ℕ → Process → Process
  detached code p = record p {
    exit_state = exit_detached;
    exit_status = code;
    waiter_reply_slot = 0;
    parent_pid = abi.taskman;
  }

  -- A process ends with a status, or one waits for another.
  abbrev pub after : Event → System K → System K
  after (terminates pid status) s = (process_terminate kernel abi pid status s).1
  after (waits waiter child) s = (process_waitpid kernel abi waiter child s).1

  abbrev pub after_all : List Event → System K → System K
  after_all [] s = s
  after_all (e ∷ rest) s = after_all rest (after e s)

  -- The task manager is not among those who wait.
  abbrev pub NoServerWaits : List Event → Type 0
  NoServerWaits [] = Unit {0}
  NoServerWaits (terminates pid status ∷ rest) = NoServerWaits rest
  NoServerWaits (waits waiter child ∷ rest) = (waiter ≢ abi.taskman) × NoServerWaits rest

  -- The end of a termination leaves what is found under another pid.
  reap_or_keep-other :
      (pid i j : ℕ) (o : ℕ) (p q : Process) (delivered : Bool) (s s' : System K)
      → get_elem? s.processes j ≡ some p
      → p.pid ≢ pid
      → q.pid ≡ p.pid
      → s'.processes ≡ set s.processes j q
      → first (is_process pid) (reap_or_keep kernel abi j o q delivered s').1.processes
        ≡ first (is_process pid) s.processes
  unfolding reap_or_keep
  reap_or_keep-other pid i j o p q delivered s s' at apart same table =
      let other : q.pid ≢ pid = λ e. apart (sym same ∙ e) in
      let gone = record q { in_use = false } in
      let step : (x : Process)
          → x.pid ≢ pid
          → first (is_process pid) (set s.processes j x) ≡ first (is_process pid) s.processes =
        λ x off.
          first-set_other (is_process pid) s.processes j p x at (is_process_other pid p apart)
            (is_process_other pid x off) in
      elim (Bool-cases (delivered || not (can_reap kernel abi q.parent_pid s'))) [
        | inl t ↦
            rw (t, reap_or_keep)
              (ap (λ ps. first (is_process pid) (set ps j gone)) table
                ∙ ap (first (is_process pid)) (set-set s.processes j q gone)
                ∙ step gone other)
        | inr t ↦ rw (t, reap_or_keep) (ap (first (is_process pid)) table ∙ step q other)
      ]

  -- A record that is no longer live is found again after the termination of any process.
  process_terminate-keeps :
      (pid i pid' status : ℕ) (q : Process) (s : System K)
      → first (is_process pid) s.processes ≡ some (i, q)
      → q.exit_state ≢ 0
      → first (is_process pid) (process_terminate kernel abi pid' status s).1.processes
        ≡ some (i, q)
  unfolding process_terminate
  process_terminate-keeps pid i pid' status q s there over =
      elim (Bool-cases (pid' == abi.taskman)) [
        | inl t ↦ rw (t, process_terminate) there
        | inr t ↦ elim (Option-cases (first (is_process pid') s.processes)) [
          | inl n ↦ rw (t, n, process_terminate) there
          | inr ((j, p), f) ↦ elim (Bool-cases (p.exit_state == 0)) [
            | inr z ↦ rw (t, f, z, process_terminate) there
            | inl z ↦
                let live : p.exit_state ≡ 0 = (==_iff p.exit_state 0).0 z in
                let (s', ends, table, _) =
                  terminate_lem kernel abi pid' status j p s
                    (λ e. ground (arith, (==_iff pid' abi.taskman).1 e, t)) f live in
                let (at, used, own) = found_process pid' j p s.processes f in
                let apart : p.pid ≢ pid = λ e. over (
                  ap (λ (r : Process). r.exit_state)
                    (same_record (first (is_process pid) s.processes) i j q p there
                      (ap (λ n. first (is_process n) s.processes) (sym e ∙ own) ∙ f))
                  ∙ live) in
                ap (λ (o : Result (Unit {0}) × System K). first (is_process pid) o.1.processes) ends
                ∙ reap_or_keep-other pid i j pid' p (emptied (exited status p))
                    (not (p.waiter_reply_slot == 0)) s s' at apart refl table
                ∙ there
          ]
        ]
      ]

  after_all-keeps :
      (pid i : ℕ) (es : List Event) (q : Process) (s : System K)
      → first (is_process pid) s.processes ≡ some (i, q)
      → q.exit_state ≢ 0
      → q.parent_pid ≡ abi.taskman
      → NoServerWaits es
      → first (is_process pid) (after_all es s).processes ≡ some (i, q)
  after_all-keeps pid i [] q s there over child_of n = there
  after_all-keeps pid i (terminates pid' status ∷ rest) q s there over child_of n =
      after_all-keeps pid i rest q (process_terminate kernel abi pid' status s).1
        (process_terminate-keeps pid i pid' status q s there over) over child_of n
  after_all-keeps pid i (waits waiter child ∷ rest) q s there over child_of n =
      after_all-keeps pid i rest q (process_waitpid kernel abi waiter child s).1
        (process_waitpid-keeps kernel abi pid i waiter child q s there
          (λ e. n.0 (sym e ∙ child_of)))
        over child_of n.1

  -- A live process that detaches is answered ok. Whatever list of terminations and waits follows, of
  -- and for any processes, itself included, its record is still the one found under its pid, as the
  -- detach left it, and one more `tm_process_terminate` of it answers ok and changes nothing. The
  -- process is not the task manager, which is not among those who wait.
  pub process_terminate-process_detach :
      (pid code status i : ℕ) (es : List Event) (p : Process) (s : System K)
      → pid ≢ abi.taskman
      → NoServerWaits es
      → first (is_process pid) s.processes ≡ some (i, p)
      → p.exit_state ≡ 0
      → let (answer, s') = process_detach kernel abi pid code s in
        let later = after_all es s' in
        (answer ≡ value tt)
        × (first (is_process pid) later.processes ≡ some (i, detached code p))
        × (process_terminate kernel abi pid status later ≡ (value tt, later))
  unfolding process_detach process_terminate
  process_terminate-process_detach pid code status i es p s other n found live =
      let running : not (p.exit_state == 0) ≡ false = ground (arith, live) in
      let daemon = detached code p in
      let (at, used, own) = found_process pid i p s.processes found in
      let (_, s', e, v) =
        Calm-then tables {m = reply_deliver kernel abi p.waiter_reply_slot 0 code}
          (λ _. with_process i daemon) s
          (reply_deliver-Calm tables tables-Blind kernel abi p.waiter_reply_slot 0 code) in
      let there : first (is_process pid) (set s'.processes i daemon) ≡ some (i, daemon) =
        ap (λ (t : List Process × Numbers). first (is_process pid) (set t.0 i daemon)) v
        ∙ first-set (is_process pid) s.processes i p daemon found
            (is_process_own pid daemon used own) in
      let done : process_detach kernel abi pid code s
          ≡ (value tt, record s' { processes = set s'.processes i daemon }) =
        rw (process_detach, found, running) e in
      let later = after_all es (record s' { processes = set s'.processes i daemon }) in
      let kept : first (is_process pid) later.processes ≡ some (i, daemon) =
        after_all-keeps pid i es daemon (record s' { processes = set s'.processes i daemon }) there
          (λ e. ground (arith, e)) refl n in
      rw done (refl, kept, rw (unequal pid abi.taskman other, kept) refl)
