-- ===== src/Proc/Waiting.antt =====
-- taskman/proc/process.c: what a wait leaves alone.
use lq.Base.{
  ℕ, Option, none, enomem, Bool-cases, Option-cases, ◌≡◌, ◌≢◌, refl, ap, ◌∙◌, sym, false, not, List,
  some, inl, inr, Result, ◌==◌, ==_iff, arith, set,
}
use lq.Alloc.Numbers.{Numbers}
use lq.Chan.State.{first}
use lq.Chan.Found.{first-set_other}
use lq.Proc.State.{Process, System, Kernel, Abi, is_process}
use lq.Proc.Monad.{M, pure, gets, invoke, raise_if, with_process, ◌>>◌}
use lq.Proc.Slots.{own_cap, free_slot, alloc_empty_slot, reply_park}
use lq.Proc.Table.{process_waitpid}
use lq.Proc.Quiet.{Quiet, Calm-Quiet, bind-Quiet, if-Quiet, quiet_then, free_slot-Calm}
use lq.Proc.Closing.{tables, tables-Blind}
use lq.Proc.Lifecycle.{is_process_other, found_process}

pub same_record :
    (o : Option (ℕ × Process)) (i j : ℕ) (a b : Process) → o ≡ some (i, a) → o ≡ some (j, b) → a ≡ b
same_record o i j a b h k = ground (arith, h, k)

module _ {K : Type 0} (kernel : Kernel K) (abi : Abi) where
  free_slot-Quiet : (slot : ℕ) → Quiet {K = K} tables (free_slot slot)
  free_slot-Quiet slot = Calm-Quiet tables (free_slot-Calm tables tables-Blind slot)

  quiet : {A : Type 0} (m : M K A) → ((s : System K) → tables (m s).1 ≡ tables s) → Quiet tables m
  quiet m h = record { same = h }

  give_up-Quiet : (slot : ℕ) → Quiet {K = K} tables {A = ℕ} (free_slot slot >> pure 0)
  give_up-Quiet slot = bind-Quiet tables (free_slot-Quiet slot) λ _. quiet (pure 0) (λ s. refl)

  reply_park-Quiet : Quiet tables (reply_park kernel abi)
  unfolding reply_park alloc_empty_slot
  reply_park-Quiet = bind-Quiet tables (quiet alloc_empty_slot (λ s. refl)) λ slot.
      bind-Quiet tables (quiet (gets (λ s. s.active_reply)) (λ s. refl)) λ active.
        bind-Quiet tables
          (if-Quiet tables (slot == 0) (quiet (pure false) (λ s. refl))
            (quiet (invoke (kernel.move (own_cap abi slot) (own_cap abi active))) (λ s. refl)))
          λ moved. if-Quiet tables (not moved) (give_up-Quiet slot) (
            bind-Quiet tables
              (quiet (invoke (kernel.retype abi.master_ut abi.reply 0 abi.cnode_root active))
                (λ s. refl))
              λ ok. if-Quiet tables ok (quiet (pure slot) (λ s. refl)) (
                bind-Quiet tables
                  (quiet (invoke (kernel.move (own_cap abi active) (own_cap abi slot))) (λ s. refl))
                  λ _. give_up-Quiet slot))

  -- A record whose parent does not wait is found again after a wait.
  pub process_waitpid-keeps :
      (pid i waiter child : ℕ) (q : Process) (s : System K)
      → first (is_process pid) s.processes ≡ some (i, q)
      → q.parent_pid ≢ waiter
      → first (is_process pid) (process_waitpid kernel abi waiter child s).1.processes ≡ some (i, q)
  unfolding process_waitpid
  process_waitpid-keeps pid i waiter child q s there apart =
      elim (Option-cases (first (is_process child) s.processes)) [
        | inl n ↦ rw (n, process_waitpid) there
        | inr ((j, c), f) ↦ elim (Bool-cases (c.parent_pid == waiter)) [
          | inr n ↦ rw (f, n, process_waitpid) there
          | inl own ↦
              let (at, used, named) = found_process child j c s.processes f in
              let off : c.pid ≢ pid = λ e. apart (
                ap (λ (r : Process). r.parent_pid)
                  (same_record (first (is_process pid) s.processes) i j q c there
                    (ap (λ n. first (is_process n) s.processes) (sym e ∙ named) ∙ f))
                ∙ (==_iff c.parent_pid waiter).0 own) in
              let kept : (x : Process)
                  → x.pid ≢ pid
                  → (ps : List Process) → ps ≡ s.processes
                  → first (is_process pid) (set ps j x) ≡ some (i, q) =
                λ x other ps e.
                  ap (λ ps. first (is_process pid) (set ps j x)) e
                  ∙ first-set_other (is_process pid) s.processes j c x at
                      (is_process_other pid c off) (is_process_other pid x other)
                  ∙ there in
              elim (Bool-cases (c.exit_state == 0)) [
                | inr z ↦
                    rw (f, own, z, process_waitpid)
                      (kept (record c { in_use = false }) off s.processes refl)
                | inl z ↦
                    rw (f, own, z, process_waitpid)
                      (quiet_then tables
                        (λ slot.
                          raise_if (slot == 0) enomem
                          >> (with_process j (record c { waiter_reply_slot = slot }) >> pure none))
                        (λ (o : Result (Option ℕ) × System K).
                          first (is_process pid) o.1.processes ≡ some (i, q))
                        s reply_park-Quiet
                        (λ e t v.
                          ap (λ (x : List Process × Numbers). first (is_process pid) x.0) v ∙ there)
                        λ slot t v.
                          parked slot j c t
                            (ap (λ (x : List Process × Numbers). first (is_process pid) x.0) v
                              ∙ there)
                            (kept (record c { waiter_reply_slot = slot }) off t.processes
                              (ap (λ (x : List Process × Numbers). x.0) v)))
              ]
        ]
      ]
    where
      parked :
          (slot j : ℕ) (c : Process) (t : System K)
          → first (is_process pid) t.processes ≡ some (i, q)
          → first (is_process pid) (set t.processes j (record c { waiter_reply_slot = slot }))
            ≡ some (i, q)
          → first
              (is_process pid)
              ((raise_if (slot == 0) enomem
                  >> (with_process j (record c { waiter_reply_slot = slot })
                      >> pure {A = Option ℕ} none))
                t).1.processes
            ≡ some (i, q)
      parked slot j c t before done = elim (Bool-cases (slot == 0)) [
        | inl z ↦ rw z before
        | inr n ↦ rw n done
      ]
