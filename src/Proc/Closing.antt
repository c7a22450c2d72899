-- ===== src/Proc/Closing.antt =====
-- taskman/proc/process.c: the threads and channels of a process go, and the tables stay.
use lq.Base.{ℕ, refl, false, not, ◌&&◌, List, [], ◌∷◌, ◌==◌}
use lq.Alloc.Numbers.{Numbers}
use lq.Chan.State.{Channel, Registry}
use lq.Chan.Connect.{drop_for_pid}
use lq.Proc.State.{Process, Thread, System, Kernel, Abi}
use lq.Proc.Monad.{modify, pure, with_registry}
use lq.Proc.Terminate.{close_threads, close_channels, close_endpoints}
use lq.Proc.Quiet.{
  Blind, Calm, bind-Calm, if-Calm, when-Calm, gets-Calm, free_slot-Calm, revoke_slot-Calm,
  delete_if-Calm,
}

module _ {K : Type 0} where
  -- The table of processes with the pids.
  abbrev pub tables : System K → List Process × Numbers
  tables s = (s.processes, s.pids)

  pub tables-Blind : Blind tables
  tables-Blind = record { kernel = λ s k. refl; slots = λ s n. refl; pput_free = λ s n. refl }

module _ {K X : Type 0} (view : System K → X) (blind : Blind view) (kernel : Kernel K)
    (abi : Abi) where
  pure-Calm : {A : Type 0} (a : A) → Calm view (pure a)
  pure-Calm a = record { same = λ s. refl; answers = λ s. (a, refl) }

  pub close_threads-Calm :
      (pid : ℕ) (ts : List Thread) → Calm view (close_threads kernel abi pid ts)
  unfolding close_threads
  close_threads-Calm pid [] = pure-Calm []
  close_threads-Calm pid (t ∷ ts) =
      bind-Calm view
        (if-Calm view (t.in_use && t.pid == pid)
          (bind-Calm view (revoke_slot-Calm view blind kernel abi t.tcb_master) λ _.
            bind-Calm view (revoke_slot-Calm view blind kernel abi t.ntfn_master) λ _.
              bind-Calm view (delete_if-Calm view blind kernel abi t.sc)
                λ _. pure-Calm (record t { in_use = false; sc = 0 }))
          (pure-Calm t))
        λ t'. bind-Calm view (close_threads-Calm pid ts) λ ts'. pure-Calm (t' ∷ ts')

  pub close_channels-Calm :
      (pid : ℕ) (cs : List Channel) → Calm view (close_channels kernel abi pid cs)
  unfolding close_channels
  close_channels-Calm pid [] = pure-Calm []
  close_channels-Calm pid (c ∷ cs) =
      bind-Calm view
        (if-Calm view (c.in_use && c.owner_pid == pid)
          (bind-Calm view
            (when-Calm view (not (c.ntfn_master == 0)) (
              bind-Calm view (revoke_slot-Calm view blind kernel abi c.ntfn_master)
                λ _. free_slot-Calm view blind c.ntfn_sig))
            λ _. bind-Calm view (revoke_slot-Calm view blind kernel abi c.master) λ _. pure-Calm _)
          (pure-Calm c))
        λ c'. bind-Calm view (close_channels-Calm pid cs) λ cs'. pure-Calm (c' ∷ cs')

module _ {K : Type 0} (kernel : Kernel K) (abi : Abi) where
  threads-Calm : (ts : List Thread) → Calm {K = K} tables (modify (λ s. record s { threads = ts }))
  threads-Calm ts = record { same = λ s. refl; answers = λ s. (tt, refl) }

  registry-Calm : (f : Registry → Registry) → Calm {K = K} tables (with_registry f)
  registry-Calm f = record { same = λ s. refl; answers = λ s. (tt, refl) }

  pub close_endpoints-Calm : (pid : ℕ) → Calm tables (close_endpoints kernel abi pid)
  unfolding close_endpoints
  close_endpoints-Calm pid =
      bind-Calm tables (gets-Calm tables tables-Blind kernel abi (λ s. s.threads)) λ ts.
        bind-Calm tables (close_threads-Calm tables tables-Blind kernel abi pid ts) λ ts'.
          bind-Calm tables (threads-Calm ts') λ _.
            bind-Calm tables (gets-Calm tables tables-Blind kernel abi (λ s. s.registry.channels))
              λ cs.
                bind-Calm tables (close_channels-Calm tables tables-Blind kernel abi pid cs)
                  λ cs'. registry-Calm (λ r. drop_for_pid pid (record r { channels = cs' }))
