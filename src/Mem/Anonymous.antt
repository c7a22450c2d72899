-- ===== src/Mem/Anonymous.antt =====
-- taskman/mem/mmap.c: anonymous mappings.
use lq.Base.{
  ℕ, zero, suc, ◌/◌, Option, none, some, [], ◌∷◌, ◌++◌, ltb, leb, ◌==◌, ◌||◌, if◌then◌else◌, length,
  get_elem?, ◌-◌, add64, Status, ok, err, enomem, einval, esrch, Result, value, fail,
}
use lq.Mem.Space.{Space, Limits, Kernel, mega, round_up}

-- QSOE_RIGHTS_ALL and QSOE_VM_ATTR_DEFAULT of the kernel's headers.
pub record Rights : Type 0 where
  pub all : ℕ
  pub attr_default : ℕ

module _ {K : Type 0} (kernel : Kernel K) (rights : Rights) (limits : Limits) where
  -- The end of the loop's body in `mmap_anonymous`, for a frame at hand.
  unfoldable pub map_frame : ℕ → ℕ → Space → K → Status × (Space × K)
  map_frame frame va s k =
      let (mapped, k') = kernel.map_page frame va rights.all rights.attr_default k in
      if mapped
      then (if leb limits.mmap (length s.mmap)
          then (err enomem, (s, k'))
          else (ok, (record s { mmap = s.mmap ++ record { va = va; frame = frame } ∷ [] }, k')))
      else (err enomem, (s, k'))

  -- The body of the loop in `mmap_anonymous`. A frame that cannot be zeroed is put back.
  unfoldable pub map_one : ℕ → Space → K → Status × (Space × K)
  map_one va s k = elim s.free_list [
    | frame ∷ rest ↦
        let (zeroed, k') = kernel.zero_frame frame k in
        if zeroed
        then map_frame frame va (record s { free_list = rest }) k'
        else (err enomem, (s, k'))
    | [] ↦
        let (frame, k') = kernel.alloc_mega k in
        elim frame [ none ↦ (err enomem, (s, k')) | some f ↦ map_frame f va s k' ]
  ]

  unfoldable pub map_pages : ℕ → ℕ → Space → K → Status × (Space × K)
  map_pages zero va s k = (ok, (s, k))
  map_pages (suc n) va s k =
      let (status, (s', k')) = map_one va s k in
      elim status [ ok ↦ map_pages n (add64 va mega) s' k' | err e ↦ (err e, (s', k')) ]

  -- `mmap_anonymous`
  unfoldable pub mmap_anonymous : ℕ → Space → K → Result ℕ × (Space × K)
  mmap_anonymous len s k =
      let bytes = round_up mega len in
      let base = round_up mega s.top in
      let (status, (s', k')) = map_pages (bytes / mega) base s k in
      elim status [
        | ok ↦ (value base, (record s' { top = add64 base bytes }, k'))
        | err e ↦ (fail e, (s', k'))
      ]

  -- `mmap_anonymous` between `tm_pput_proc_begin` and `tm_pput_end`.
  abbrev pub anonymous : ℕ → Space → K → Result ℕ × (Space × K)
  anonymous len s k =
      let (answer, (s', k')) = mmap_anonymous len s (kernel.pput_begin k) in
      (answer, (s', kernel.pput_end k'))

  -- `tm_alloc_phys_serve`, with the virtual and the physical address; `none` stands for a caller
  -- that `tm_process_lookup` does not find. The tracker is not empty after a mapping.
  unfoldable pub alloc_phys : ℕ → Option Space → K → Result (ℕ × ℕ) × (Option Space × K)
  alloc_phys len none k = (fail esrch, (none, k))
  alloc_phys len (some s) k =
      if len == 0 || ltb mega len
      then (fail einval, (some s, k))
      else (let (answer, (s', k')) = anonymous len s k in
          elim answer [
            | fail e ↦ (fail e, (some s', k'))
            | value base ↦ elim (get_elem? s'.mmap (length s'.mmap - 1)) [
              | none ↦ (fail enomem, (some s', k'))
              | some page ↦
                  let (paddr, k'') = kernel.address page.frame k' in
                  elim paddr [
                    | none ↦ (fail enomem, (some s', k''))
                    | some p ↦
                        if p == 0
                        then (fail enomem, (some s', k''))
                        else (value (base, p), (some s', k''))
                  ]
            ]
          ])
