-- ===== src/Mem/Physical.antt =====
-- taskman/mem/mmap.c: MAP_PHYS, and the entry point of all mappings.
use lq.Base.{
  ℕ, zero, suc, ◌-◌, ◌*◌, ◌/◌, ◌%◌, Bool, true, false, not, ◌&&◌, Option, none, some, List, [], ◌∷◌,
  ◌++◌, ltb, leb, ◌==◌, if◌then◌else◌, length, drop, add64, sub64, w64, Status, ok, err, enomem,
  einval, esrch, Result, value, fail,
}
use lq.Mem.Space.{Space, Limits, Kernel, mega, page_4k, round_up}
use lq.Mem.Anonymous.{Rights, anonymous}
use lq.Mem.Device.{Untyped, Devmap, Registry, Objects, devmap_find, devmap_carve}

module _ {K : Type 0} (kernel : Kernel K) (objects : Objects) (rights : Rights)
    (limits : Limits) where
  -- The page table that the first 4 KiB page of each 2 MiB needs.
  unfoldable pub map_table : ℕ → ℕ → K → Bool × K
  map_table g va k =
      if g == page_4k && va % mega == 0
      then (let (table, k1) = kernel.alloc_table k in
          elim table [ none ↦ (false, k1) | some l0 ↦ kernel.map_table l0 va k1 ])
      else (true, k)

  -- The copy of a device frame, mapped at `va`.
  unfoldable pub map_copy : ℕ → ℕ → K → Option ℕ × K
  map_copy frame va k =
      let (slot, k1) = kernel.alloc_slot k in
      elim slot [
        | none ↦ (none, k1)
        | some cp ↦
            let (copied, k2) = kernel.copy frame cp k1 in
            let (mapped, k3) = kernel.map_page cp va rights.all rights.attr_default k2 in
            if not copied
            then (none, kernel.free_slot cp k2)
            else if mapped
            then (some cp, k3)
            else (none, kernel.delete cp k3)
      ]

  -- The loop of `devmap_map_into` over `n` frames, of which the region has as many.
  unfoldable pub map_devframes : ℕ → ℕ → ℕ → List ℕ → Space → K → Status × (Space × K)
  map_devframes zero g va fs s k = (ok, (s, k))
  map_devframes (suc n) g va [] s k = (ok, (s, k))
  map_devframes (suc n) g va (f ∷ fs) s k =
      if leb limits.devframes (length s.devframes)
      then (err enomem, (s, k))
      else (let (tabled, k1) = map_table g va k in
          let (copied, k2) = map_copy f va k1 in
          if not tabled then (err enomem, (s, k1)) else elim copied [
            | none ↦ (err enomem, (s, k2))
            | some cp ↦
                let s' : Space = record s {
                  devframes = s.devframes ++ record { va = va; frame = cp } ∷ [];
                } in
                map_devframes n g (add64 va g) fs s' k2
          ])

  -- `devmap_map_into`, for a region that `devmap_find` or `devmap_carve` has answered. The counts of
  -- frames fit an `int`.
  unfoldable pub map_into : Devmap → ℕ → ℕ → Space → K → Result ℕ × (Space × K)
  map_into d phys len s k =
      let g = d.granule in
      let first = (phys - d.phys) / g in
      let last' = add64 (sub64 (add64 phys len) d.phys) (g - 1) / g in
      let last = if ltb (length d.frames) last' then length d.frames else last' in
      let base = round_up mega s.top in
      let (status, (s', k')) = map_devframes (last - first) g base (drop first d.frames) s k in
      elim status [
        | err e ↦ (fail e, (s', k'))
        | ok ↦ (
          value (add64 base (phys - d.phys - first * g)),
          (record s' { top = add64 base (sub64 last first * g % w64) }, k'),
        )
      ]

  -- `mmap_phys`
  unfoldable pub mmap_phys :
      List Untyped → ℕ → ℕ → Registry → Space → K → Result ℕ × (Registry × (Space × K))
  mmap_phys uts phys len r s k =
      let len' = round_up page_4k len in
      if not (phys % page_4k == 0)
      then (fail einval, (r, (s, k)))
      else elim (devmap_find phys len' r.devmaps) [
        | some d ↦ (let (answer, m) = map_into d phys len' s k in (answer, (r, m)))
        | none ↦
            let (carved, (r', k')) = devmap_carve kernel objects uts phys len' r k in
            elim carved [
              | none ↦ (fail enomem, (r', (s, k')))
              | some d ↦ (let (answer, m) = map_into d phys len' s k' in (answer, (r', m)))
            ]
      ]

  -- `tm_mmap_serve`, with the test of TM_MMAP_FLAG_PHYS; `none` stands for a caller that
  -- `tm_process_lookup` does not find.
  unfoldable pub mmap_serve :
      List Untyped
      → ℕ
      → Bool
      → ℕ
      → Registry
      → Option Space
      → K
      → Result ℕ × (Registry × (Option Space × K))
  mmap_serve uts len is_phys phys r none k = (fail esrch, (r, (none, k)))
  mmap_serve uts len is_phys phys r (some s) k =
      if len == 0
      then (fail einval, (r, (some s, k)))
      else if is_phys
      then (let (answer, (r', (s', k'))) = mmap_phys uts phys len r s k in
          (answer, (r', (some s', k'))))
      else (let (answer, (s', k')) = anonymous kernel rights limits len s k in
          (answer, (r, (some s', k'))))
