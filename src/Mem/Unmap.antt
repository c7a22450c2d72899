-- ===== src/Mem/Unmap.antt =====
-- taskman/mem/mmap.c: `tm_munmap_serve`.
use lq.Base.{
  ℕ, zero, suc, ◌+◌, ◌-◌, ◌/◌, ◌%◌, Bool, true, false, not, Option, none, some, List, [], ◌∷◌, ltb,
  leb, ◌==◌, ◌&&◌, if◌then◌else◌, length, get_elem?, set, take, add64, Status, ok, err, einval,
  esrch,
}
use lq.Mem.Space.{Page, Space, Kernel, mega, round_up, free_max}

-- `find_mmap_idx`, with the entry.
unfoldable pub find_mmap_idx : ℕ → List Page → Option (ℕ × Page)
find_mmap_idx va [] = none
find_mmap_idx va (p ∷ ps) =
    let rest = find_mmap_idx va ps in
    if p.va == va then some (0, p) else elim rest [ none ↦ none | some r ↦ some (suc (r.0), r.1) ]

-- The entry `i` is replaced by the last one, and the count goes down.
unfoldable pub swap_last : ℕ → List Page → List Page
swap_last i ps =
    let last = length ps - 1 in
    elim (get_elem? ps last) [
      | none ↦ ps
      | some p ↦ take last (if i == last then ps else set ps i p)
    ]

-- The first sweep: whether each of the `n` pages from `va` on is tracked.
unfoldable pub all_tracked : ℕ → ℕ → List Page → Bool
all_tracked zero va ps = true
all_tracked (suc n) va ps = elim (find_mmap_idx va ps) [
  | none ↦ false
  | some r ↦ all_tracked n (add64 va mega) ps
]

abbrev pub in_range : ℕ → ℕ → Page → Bool
in_range vaddr len p = leb vaddr p.va && ltb p.va (add64 vaddr len)

module _ {K : Type 0} (kernel : Kernel K) where
  -- A frame that leaves the address space is parked for reuse, or deleted where there is no room.
  unfoldable pub park : ℕ → Space → K → Space × K
  park frame s k =
      if ltb (length s.free_list) free_max
      then (record s { free_list = frame ∷ s.free_list }, k)
      else (s, kernel.delete frame k)

  -- The second sweep. A page that is not tracked does not occur after the first sweep.
  unfoldable pub unmap_pages : ℕ → ℕ → Space → K → Space × K
  unmap_pages zero va s k = (s, k)
  unmap_pages (suc n) va s k = elim (find_mmap_idx va s.mmap) [
    | none ↦ (s, k)
    | some r ↦
        let (s', k') = park (r.1).frame s (kernel.unmap_page (r.1).frame k) in
        unmap_pages n (add64 va mega) (record s' { mmap = swap_last r.0 s'.mmap }) k'
  ]

  -- `munmap_devframes` from the entry `i` on: the number released, the entries left and the kernel.
  -- Each turn moves on or removes an entry.
  unfoldable pub unmap_devframes : ℕ → ℕ → ℕ → ℕ → List Page → K → ℕ × (List Page × K)
  unmap_devframes zero vaddr len i ps k = (0, (ps, k))
  unmap_devframes (suc fuel) vaddr len i ps k = elim (get_elem? ps i) [
    | none ↦ (0, (ps, k))
    | some p ↦
        let hit = in_range vaddr len p in
        let ps' = if hit then swap_last i ps else ps in
        let i' = if hit then i else i + 1 in
        let k' = if hit then kernel.delete p.frame (kernel.unmap_page p.frame k) else k in
        let r = unmap_devframes fuel vaddr len i' ps' k' in (if hit then suc r.0 else r.0, r.1)
  ]

  -- `tm_munmap_serve` after the device frames.
  unfoldable pub munmap_anonymous : ℕ → ℕ → Space → K → Status × (Space × K)
  munmap_anonymous vaddr len s k =
      let bytes = round_up mega len in
      let pages = bytes / mega in
      if not (vaddr % mega == 0)
      then (err einval, (s, k))
      else if all_tracked pages vaddr s.mmap
      then (let (s', k') = unmap_pages pages vaddr s k in
          (ok, (record s' { top = if add64 vaddr bytes == s'.top then vaddr else s'.top }, k')))
      else (err einval, (s, k))

  -- `tm_munmap_serve`; `none` stands for a caller that `tm_process_lookup` does not find.
  unfoldable pub munmap_serve : ℕ → ℕ → Option Space → K → Status × (Option Space × K)
  munmap_serve vaddr len none k = (err esrch, (none, k))
  munmap_serve vaddr len (some s) k =
      if len == 0
      then (err einval, (some s, k))
      else (let (n, (devframes, k')) =
            unmap_devframes (length s.devframes) vaddr len 0 s.devframes k in
          let s' : Space = record s { devframes = devframes } in
          if n == 0
          then (let (status, (s'', k'')) = munmap_anonymous vaddr len s' k' in
              (status, (some s'', k'')))
          else (ok, (some s', k')))
