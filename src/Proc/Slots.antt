-- ===== src/Proc/Slots.antt =====
-- taskman/proc/process.c: capability slots, the untyped blocks of a process, objects, replies.
use lq.Base.{
  ℕ, ◌+◌, Bool, true, false, not, ◌&&◌, none, some, List, [], ◌∷◌, ◌++◌, leb, ltb, ◌==◌,
  if◌then◌else◌, length, get_elem?, set, enomem, value,
}
use lq.Alloc.Numbers.{slot_alloc, slot_free}
use lq.Chan.State.{first}
use lq.Proc.State.{nowhere, staging, of_process, System, Cap, Kernel, Abi, is_process}
use lq.Proc.Monad.{M, pure, gets, invoke, raise_if, ◌>>=◌, ◌>>◌, modify, when}

-- TM_PP_UT_BITS, TM_PP_UT_PER_PROC and TM_PP_UT_FREE_MAX
abbrev pub pp_ut_bits : ℕ
pp_ut_bits = 24

abbrev pub pp_ut_per_proc : ℕ
pp_ut_per_proc = 32

abbrev pub pp_ut_free_max : ℕ
pp_ut_free_max = 64

-- `cnode_depth_for`
abbrev pub cnode_depth_for : Abi → ℕ → ℕ
cnode_depth_for abi pid = if pid == abi.taskman then 64 else 12

abbrev pub last_of : List ℕ → ℕ
last_of [] = 0
last_of (x ∷ xs) = let rest = last_of xs in elim xs [ [] ↦ x | y ∷ ys ↦ rest ]

-- A slot of the CNode of the task manager.
abbrev pub own_cap : Abi → ℕ → Cap
own_cap abi slot = record { root = abi.cnode_root; slot = slot; depth = 64 }

-- A slot of the CNode of a process.
abbrev pub cap_of : Abi → ℕ → ℕ → ℕ → Cap
cap_of abi pid cnode slot = record { root = cnode; slot = slot; depth = cnode_depth_for abi pid }

module _ {K : Type 0} where
  -- `taskman_alloc_empty_slot` and `taskman_free_slot`
  unfoldable pub alloc_empty_slot : M K ℕ
  alloc_empty_slot s = let (n, slots) = slot_alloc s.slots in (value n, record s { slots = slots })

  unfoldable pub free_slot : ℕ → M K (Unit {0})
  free_slot slot s = (value tt, record s { slots = slot_free slot s.slots })

  -- `tm_process_alloc_slot`, 0 where there is no such process.
  unfoldable pub process_alloc_slot : Abi → ℕ → M K ℕ
  process_alloc_slot abi pid s = elim (first (is_process pid) s.processes) [
    | none ↦ (value 0, s)
    | some (i, p) ↦
        if pid == abi.taskman
        then (
          value s.slots.next,
          record s { slots = record { next = s.slots.next + 1; free_list = s.slots.free_list } },
        )
        else (
          value p.next_slot,
          record s { processes = set s.processes i (record p { next_slot = p.next_slot + 1 }) },
        )
  ]

  -- The blocks of the list that `s_cur_pput_list` points to.
  abbrev pub held : System K → List ℕ
  held s = elim s.cur_list [
    | nowhere ↦ []
    | staging ↦ s.staged
    | of_process i ↦ elim (get_elem? s.processes i) [ none ↦ [] | some p ↦ p.pput ]
  ]

  -- A block at the end of that list, from which objects are made from now on.
  unfoldable pub grow : ℕ → System K → System K
  grow ut s = elim s.cur_list [
    | nowhere ↦ s
    | staging ↦ record s { staged = s.staged ++ ut ∷ []; cur_pput = ut }
    | of_process i ↦ elim (get_elem? s.processes i) [
      | none ↦ s
      | some p ↦ record s {
        processes = set s.processes i (record p { pput = p.pput ++ ut ∷ [] });
        cur_pput = ut;
      }
    ]
  ]

  -- `tm_pput_proc_begin`
  unfoldable pub pput_proc_begin : ℕ → M K (Unit {0})
  pput_proc_begin i s = elim (get_elem? s.processes i) [
    | none ↦ (value tt, s)
    | some p ↦ (
      value tt,
      if length p.pput == 0
          then s
          else record s { cur_pput = last_of p.pput; cur_list = of_process i },
    )
  ]

  -- `tm_pput_end`
  unfoldable pub pput_end : M K (Unit {0})
  pput_end s = (value tt, record s { cur_pput = 0; cur_list = nowhere })

module _ {K : Type 0} (kernel : Kernel K) (abi : Abi) where
  -- `qsoe_cnode_delete` and `taskman_free_slot`, after `qsoe_cnode_revoke` in the second.
  unfoldable pub delete_slot : ℕ → M K (Unit {0})
  delete_slot slot = do invoke (kernel.delete (own_cap abi slot)); free_slot slot

  unfoldable pub revoke_slot : ℕ → M K (Unit {0})
  revoke_slot slot = do invoke (kernel.revoke (own_cap abi slot)); delete_slot slot

  -- The loop of `pp_ut_acquire`; an untyped that has no block left is passed for good.
  unfoldable pub carve_block : List ℕ → M K ℕ
  carve_block [] s = (value 0, record s { ram_ut = [] })
  carve_block (u ∷ us) s =
      let (slot, slots) = slot_alloc s.slots in
      let (ok, k) = kernel.retype u abi.untyped pp_ut_bits abi.cnode_root slot s.kernel in
      let rest = carve_block us (record s { slots = slot_free slot slots; kernel = k }) in
      if slot == 0
      then (value 0, record s { slots = slots; ram_ut = u ∷ us })
      else if ok
      then (value slot, record s { slots = slots; kernel = k; ram_ut = u ∷ us })
      else rest

  -- `pp_ut_acquire`
  unfoldable pub pp_ut_acquire : M K ℕ
  pp_ut_acquire s = elim s.pput_free [
    | ut ∷ rest ↦ (value ut, record s { pput_free = rest })
    | [] ↦ carve_block s.ram_ut s
  ]

  -- `pp_ut_release`
  unfoldable pub pp_ut_release : ℕ → M K (Unit {0})
  pp_ut_release ut = when (not (ut == 0)) (do
    invoke (kernel.revoke (own_cap abi ut))
    n ← gets (λ s. length s.pput_free)
    if ltb n pp_ut_free_max
        then modify (λ s. record s { pput_free = ut ∷ s.pput_free })
        else delete_slot ut)

  -- `tm_pput_release_list`
  unfoldable pub pput_release_list : List ℕ → M K (Unit {0})
  pput_release_list [] = pure tt
  pput_release_list (ut ∷ uts) = do pp_ut_release ut; pput_release_list uts

  -- `tm_pput_spawn_begin`
  unfoldable pub pput_spawn_begin : M K (Unit {0})
  pput_spawn_begin = do
    ut ← pp_ut_acquire
    raise_if (ut == 0) enomem
    modify (λ s. record s { staged = ut ∷ []; cur_pput = ut; cur_list = staging })

  -- The second try of `taskman_alloc_and_retype`, with a further block.
  unfoldable pub retry : ℕ → ℕ → ℕ → M K Bool
  retry type bits slot = do
    more ← gets (λ s.
        not (s.cur_pput == 0)
        && (not (length (held s) == 0) && ltb (length (held s)) pp_ut_per_proc))
    if not more then pure false else (do
      ut ← pp_ut_acquire
      if ut == 0
          then pure false
          else (do modify (grow ut); invoke (kernel.retype ut type bits abi.cnode_root slot)))

  -- `taskman_alloc_and_retype`: the slot of the object, or 0.
  unfoldable pub alloc_and_retype : ℕ → ℕ → M K ℕ
  alloc_and_retype type bits = do
    slot ← alloc_empty_slot
    if slot == 0 then pure 0 else (do
      ut ← gets (λ s. if s.cur_pput == 0 then abi.master_ut else s.cur_pput)
      ok ← invoke (kernel.retype ut type bits abi.cnode_root slot)
      again ← (if ok then pure true else retry type bits slot)
      if again then pure slot else (do free_slot slot; pure 0))

  -- `tm_sched_context_create`
  unfoldable pub sched_context_create : ℕ → M K ℕ
  sched_context_create core = do
    sc ← alloc_and_retype abi.sched_context abi.sched_context_bits
    if sc == 0 then pure 0 else (do
      ok ← invoke (
          kernel.sched_configure (abi.sched_control + (if leb abi.num_nodes core then 0 else core))
            sc)
      if ok then pure sc else (do delete_slot sc; pure 0))

  -- `tm_reply_park`: the slot of the reply of the caller, or 0.
  unfoldable pub reply_park : M K ℕ
  reply_park = do
    slot ← alloc_empty_slot
    active ← gets (λ s. s.active_reply)
    moved ←
        (if slot == 0
          then pure false
          else invoke (kernel.move (own_cap abi slot) (own_cap abi active)))
    if not moved then (do free_slot slot; pure 0) else (do
      ok ← invoke (kernel.retype abi.master_ut abi.reply 0 abi.cnode_root active)
      if ok then pure slot else (do
        invoke (kernel.move (own_cap abi active) (own_cap abi slot))
        free_slot slot
        pure 0))

  -- `tm_reply_deliver` and `tm_reply_drop`
  unfoldable pub reply_deliver : ℕ → ℕ → ℕ → M K (Unit {0})
  reply_deliver slot label mr0 = when (not (slot == 0)) (do
    modify (λ s. record s { kernel = kernel.reply slot label mr0 s.kernel })
    delete_slot slot)

  unfoldable pub reply_drop : ℕ → M K (Unit {0})
  reply_drop slot = when (not (slot == 0)) (delete_slot slot)
