-- ===== src/Proc/Net.antt =====
-- taskman/proc/process.c, channel.c: slots and objects are made without a look at the registries.
use lq.Base.{
  Option, none, some, Bool, Errno, ℕ, ◌≡◌, refl, true, false, not, List, [], ◌∷◌, Bool-cases,
  Option-cases, inl, inr, ◌==◌, get_elem?,
}
use lq.Alloc.Numbers.{slot_alloc, slot_free}
use lq.Chan.State.{Registry, first}
use lq.Proc.State.{Holder, nowhere, staging, of_process, System, Kernel, Abi, is_process}
use lq.Proc.Monad.{or_raise, raise_if, raise, pure, invoke, modify, gets}
use lq.Proc.Slots.{
  pp_ut_bits, alloc_empty_slot, free_slot, process_alloc_slot, grow, carve_block, pp_ut_acquire,
  retry, alloc_and_retype, delete_slot, revoke_slot,
}
use lq.Proc.Channels.{make_ntfn}
use lq.Proc.Quiet.{
  Blind, Quiet, Calm-Quiet, bind-Quiet, if-Quiet, free_slot-Calm, delete_slot-Calm,
  revoke_slot-Calm,
}

module _ {K : Type 0} where
  -- The registries with the next badge.
  abbrev pub net : System K → Registry × ℕ
  net s = (s.registry, s.next_badge)

  pub net-Blind : Blind net
  net-Blind = record { kernel = λ s k. refl; slots = λ s n. refl; pput_free = λ s n. refl }

  pub pure-Quiet : {A : Type 0} (a : A) → Quiet net (pure a)
  pure-Quiet a = record { same = λ s. refl }

  pub gets-Quiet : {A : Type 0} (f : System K → A) → Quiet net (gets f)
  gets-Quiet f = record { same = λ s. refl }

  pub invoke-Quiet : {A : Type 0} (f : K → A × K) → Quiet net (invoke f)
  invoke-Quiet f = record { same = λ s. refl }

  pub free_slot-Quiet : (slot : ℕ) → Quiet net (free_slot slot)
  free_slot-Quiet slot = Calm-Quiet net (free_slot-Calm net net-Blind slot)

  pub alloc_empty_slot-Quiet : Quiet net alloc_empty_slot
  unfolding alloc_empty_slot
  alloc_empty_slot-Quiet = record { same = λ s. refl }

  pub process_alloc_slot-Quiet : (abi : Abi) (pid : ℕ) → Quiet net (process_alloc_slot abi pid)
  unfolding process_alloc_slot
  process_alloc_slot-Quiet abi pid = record {
    same = λ s. elim (Option-cases (first (is_process pid) s.processes)) [
      | inl n ↦ rw (n, process_alloc_slot) refl
      | inr ((i, p), f) ↦ elim (Bool-cases (pid == abi.taskman)) [
        | inl t ↦ rw (f, t, process_alloc_slot) refl
        | inr n ↦ rw (f, n, process_alloc_slot) refl
      ]
    ];
  }

  grow-Quiet : (ut : ℕ) → Quiet net (modify (grow ut))
  unfolding grow
  grow-Quiet ut = record { same = λ s. go ut s.cur_list s }
    where
      go : (ut : ℕ) (h : Holder) (s : System K) → net (grow ut (record s { cur_list = h })) ≡ net s
      go ut nowhere s = refl
      go ut staging s = refl
      go ut (of_process i) s = elim (Option-cases (get_elem? s.processes i)) [
        | inl n ↦ rw (n, grow) refl
        | inr (p, e) ↦ rw (e, grow) refl
      ]

module _ {K : Type 0} (kernel : Kernel K) (abi : Abi) where
  carve_block-Quiet : (us : List ℕ) → Quiet net (carve_block kernel abi us)
  unfolding carve_block
  carve_block-Quiet [] = record { same = λ s. refl }
  carve_block-Quiet (u ∷ us) = record {
    same = λ s.
        let (slot, slots) = slot_alloc s.slots in
        let (ok, k) = kernel.retype u abi.untyped pp_ut_bits abi.cnode_root slot s.kernel in
        elim (Bool-cases (slot == 0)) [
          | inl t ↦ rw t refl
          | inr n ↦ elim (Bool-cases ok) [
            | inl t ↦ rw (n, t) refl
            | inr f ↦
                rw (n, f)
                  ((carve_block-Quiet us).same
                    (record s { slots = slot_free slot slots; kernel = k }))
          ]
        ];
  }

  pp_ut_acquire-Quiet : Quiet net (pp_ut_acquire kernel abi)
  unfolding pp_ut_acquire
  pp_ut_acquire-Quiet = record { same = λ s. go s.pput_free s }
    where
      go :
          (free : List ℕ) (s : System K)
          → net (pp_ut_acquire kernel abi (record s { pput_free = free })).1 ≡ net s
      go [] s = (carve_block-Quiet s.ram_ut).same (record s { pput_free = [] })
      go (ut ∷ rest) s = refl

  retry-Quiet : (type bits slot : ℕ) → Quiet net (retry kernel abi type bits slot)
  unfolding retry
  retry-Quiet type bits slot = bind-Quiet net (gets-Quiet _) λ more.
      if-Quiet net (not more) (pure-Quiet false) (
        bind-Quiet net pp_ut_acquire-Quiet λ ut. if-Quiet net (ut == 0) (pure-Quiet false) (
          bind-Quiet net (grow-Quiet ut)
            λ _. invoke-Quiet (kernel.retype ut type bits abi.cnode_root slot)))

  pub alloc_and_retype-Quiet : (type bits : ℕ) → Quiet net (alloc_and_retype kernel abi type bits)
  unfolding alloc_and_retype
  alloc_and_retype-Quiet type bits = bind-Quiet net alloc_empty_slot-Quiet λ slot.
      if-Quiet net (slot == 0) (pure-Quiet 0) (
        bind-Quiet net (gets-Quiet _) λ ut.
          bind-Quiet net (invoke-Quiet (kernel.retype ut type bits abi.cnode_root slot)) λ ok.
            bind-Quiet net (if-Quiet net ok (pure-Quiet true) (retry-Quiet type bits slot)) λ again.
              if-Quiet net again (pure-Quiet slot)
                (bind-Quiet net (free_slot-Quiet slot) λ _. pure-Quiet 0))

  delete_slot-Quiet : (slot : ℕ) → Quiet net (delete_slot kernel abi slot)
  delete_slot-Quiet slot = Calm-Quiet net (delete_slot-Calm net net-Blind kernel abi slot)

  revoke_slot-Quiet : (slot : ℕ) → Quiet net (revoke_slot kernel abi slot)
  revoke_slot-Quiet slot = Calm-Quiet net (revoke_slot-Calm net net-Blind kernel abi slot)

  pub make_ntfn-Quiet : (flags tcb : ℕ) → Quiet net (make_ntfn kernel abi flags tcb)
  unfolding make_ntfn
  make_ntfn-Quiet flags tcb =
      bind-Quiet net (alloc_and_retype-Quiet abi.notification abi.notification_bits) λ ntfn.
        if-Quiet net (ntfn == 0) (pure-Quiet (0, 0)) (
          bind-Quiet net alloc_empty_slot-Quiet λ sig. bind-Quiet net (invoke-Quiet _) λ minted.
            if-Quiet net (not minted)
              (bind-Quiet net (delete_slot-Quiet ntfn)
                λ _. bind-Quiet net (free_slot-Quiet sig) λ _. pure-Quiet (0, 0))
              (bind-Quiet net
                (if-Quiet net (tcb == 0) (pure-Quiet true)
                  (invoke-Quiet (kernel.bind_notification tcb ntfn)))
                λ bound. if-Quiet net bound (pure-Quiet (ntfn, sig)) (
                  bind-Quiet net (revoke_slot-Quiet ntfn)
                    λ _. bind-Quiet net (free_slot-Quiet sig) λ _. pure-Quiet (0, 0))))

module _ {K : Type 0} where
  pub or_raise-Quiet : {A : Type 0} (o : Option A) (e : Errno) → Quiet {K = K} net (or_raise o e)
  or_raise-Quiet none e = record { same = λ s. refl }
  or_raise-Quiet (some a) e = record { same = λ s. refl }

  pub raise_if-Quiet : (b : Bool) (e : Errno) → Quiet {K = K} net (raise_if b e)
  raise_if-Quiet b e = record { same = λ s. refl }

  pub raise-Quiet : {A : Type 0} (e : Errno) → Quiet {K = K} net (raise {A = A} e)
  raise-Quiet e = record { same = λ s. refl }
