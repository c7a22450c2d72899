-- ===== src/Mem/Device.antt =====
-- taskman/mem/mmap.c: the registry of device frames.
use lq.Base.{
  ℕ, zero, suc, ◌+◌, ◌-◌, ◌/◌, ◌%◌, ◌^◌, Bool, ◌&&◌, ◌||◌, Option, none, some, List, [], ◌∷◌, ◌++◌,
  ltb, leb, ◌==◌, if◌then◌else◌, length, add64, w64,
}
use lq.Mem.Space.{Kernel, mega, page_4k, round_up}

-- An entry of `untypedList`.
pub record Untyped : Type 0 where
  pub is_device : Bool
  pub paddr : ℕ
  pub size_bits : ℕ

-- `tm_devmap_t` of an entry in use; `nframes` is the number of frames.
pub record Devmap : Type 0 where
  pub phys : ℕ
  pub len : ℕ
  pub granule : ℕ
  pub frames : List ℕ

-- `s_devmaps`, whose entries are taken in order and never given back, and `s_ut_hwm` as pairs of
-- `ut` and `hwm`.
pub record Registry : Type 0 where
  pub devmaps : List Devmap
  pub hwms : List (ℕ × ℕ)

abbrev pub devmap_max : ℕ
devmap_max = 16

abbrev pub devmap_max_frames : ℕ
devmap_max_frames = 64

-- The constants of the kernel's headers: the object types and the slot of the first untyped.
pub record Objects : Type 0 where
  pub untyped : ℕ
  pub mega_page : ℕ
  pub page_4k : ℕ
  pub untyped_start : ℕ

-- `find_device_ut_containing`: the slot, the size in bits and the offset of `paddr`, for the untyped
-- capabilities from the slot `cap` on. The list is empty where `s_bi` is not set.
unfoldable pub find_device_ut : ℕ → ℕ → ℕ → List Untyped → Option (ℕ × (ℕ × ℕ))
find_device_ut cap paddr len [] = none
find_device_ut cap paddr len (u ∷ us) =
    let rest = find_device_ut (cap + 1) paddr len us in
    if u.is_device
      && (leb u.paddr paddr && leb (add64 paddr len) (add64 u.paddr (2 ^ u.size_bits % w64)))
    then some (cap, (u.size_bits, paddr - u.paddr))
    else rest

-- `ctz_ul` and `fls_ul`, on fuel: a word has 64 bits.
unfoldable pub ctz_from : ℕ → ℕ → ℕ
ctz_from zero x = 0
ctz_from (suc fuel) x = let rest = ctz_from fuel (x / 2) in if x % 2 == 0 then suc rest else 0

abbrev pub ctz : ℕ → ℕ
ctz x = ctz_from 64 x

unfoldable pub fls_from : ℕ → ℕ → ℕ
fls_from zero x = 0
fls_from (suc fuel) x = let rest = fls_from fuel (x / 2) in if ltb 1 x then suc rest else 0

abbrev pub fls : ℕ → ℕ
fls x = fls_from 64 x

-- A registered region that covers the range.
unfoldable pub devmap_find : ℕ → ℕ → List Devmap → Option Devmap
devmap_find phys len [] = none
devmap_find phys len (d ∷ ds) =
    let rest = devmap_find phys len ds in
    if leb d.phys phys && leb (add64 phys len) (add64 d.phys d.len) then some d else rest

-- The mark of an untyped, if it is in the table.
unfoldable pub hwm_of : ℕ → List (ℕ × ℕ) → Option ℕ
hwm_of ut [] = none
hwm_of ut (h ∷ hs) = let rest = hwm_of ut hs in if h.0 == ut then some h.1 else rest

-- `ut_hwm_slot`: the mark, with the table in which the untyped has a row; `none` for a full table.
unfoldable pub ut_hwm_slot : ℕ → List (ℕ × ℕ) → Option (ℕ × List (ℕ × ℕ))
ut_hwm_slot ut hs = elim (hwm_of ut hs) [
  | some hwm ↦ some (hwm, hs)
  | none ↦ if leb devmap_max (length hs) then none else some (0, hs ++ (ut, 0) ∷ [])
]

-- `*hwm = v`
unfoldable pub set_hwm : ℕ → ℕ → List (ℕ × ℕ) → List (ℕ × ℕ)
set_hwm ut v [] = []
set_hwm ut v (h ∷ hs) = if h.0 == ut then (ut, v) ∷ hs else h ∷ set_hwm ut v hs

-- The size of the next throwaway untyped at `advanced`, `rem` bytes before the region.
abbrev pub chunk_bits : ℕ → ℕ → ℕ → ℕ
chunk_bits ut_bits advanced rem =
    let chunk = fls rem in
    let align = if advanced == 0 then ut_bits else ctz advanced in
    if ltb align chunk then align else chunk

module _ {K : Type 0} (kernel : Kernel K) (objects : Objects) where
  -- An object of the untyped in a slot of its own; `none` for a failure, which gives the slot back.
  unfoldable pub retype_one : ℕ → ℕ → ℕ → K → Option ℕ × K
  retype_one ut type bits k =
      let (slot, k1) = kernel.alloc_slot k in
      elim slot [
        | none ↦ (none, k1)
        | some c ↦
            let (done, k2) = kernel.retype ut type bits c k1 in
            if done then (some c, k2) else (none, kernel.free_slot c k2)
      ]

  -- The loop that moves the free index of the untyped from `advanced` to `offset`: where it ends, or
  -- `none` for a failure, and on the outside `none` for a lack of fuel.
  unfoldable pub skip : ℕ → ℕ → ℕ → ℕ → ℕ → K → Option (Option ℕ × K)
  skip zero ut ut_bits advanced offset k = none
  skip (suc fuel) ut ut_bits advanced offset k =
      let bits = chunk_bits ut_bits advanced (offset - advanced) in
      let (dummy, k') = retype_one ut objects.untyped bits k in
      let next = skip fuel ut ut_bits (advanced + 2 ^ bits) offset k' in
      let after : Option (Option ℕ × K) = elim dummy [ none ↦ some (none, k') | some c ↦ next ] in
      if ltb advanced offset then after else some (some advanced, k)

  -- The loop over the device frames.
  unfoldable pub carve_frames : ℕ → ℕ → ℕ → K → Option (List ℕ) × K
  carve_frames zero ut type k = (some [], k)
  carve_frames (suc n) ut type k =
      let (frame, k') = retype_one ut type 0 k in
      elim frame [
        | none ↦ (none, k')
        | some f ↦
            let (rest, k'') = carve_frames n ut type k' in
            (elim rest [ none ↦ none | some fs ↦ some (f ∷ fs) ], k'')
      ]

  -- `devmap_carve` once the untyped is found and its mark is at hand. The offset bounds the turns of
  -- the loop.
  unfoldable pub carve_from :
      ℕ → ℕ → ℕ → ℕ → Devmap → ℕ → List (ℕ × ℕ) → Registry → K → Option Devmap × (Registry × K)
  carve_from ut ut_bits offset n d hwm hwms r k =
      let r' : Registry = record r { hwms = hwms } in
      let type = if d.granule == mega then objects.mega_page else objects.page_4k in
      if ltb offset hwm then (none, (r', k)) else elim (skip (suc offset) ut ut_bits hwm offset k) [
        | none ↦ (none, (r', k))
        | some (none, k1) ↦ (none, (r', k1))
        | some (some advanced, k1) ↦
            let (frames, k2) = carve_frames n ut type k1 in
            elim frames [
              | none ↦ (none, (r', k2))
              | some fs ↦
                  let d' : Devmap = record d { frames = fs } in
                  let marked = set_hwm ut (add64 offset d.len) hwms in
                  (some d', (record { devmaps = r.devmaps ++ d' ∷ []; hwms = marked }, k2))
            ]
      ]

  unfoldable pub granule_of : ℕ → ℕ → ℕ → ℕ
  granule_of phys offset len =
      if phys % mega == 0 && (offset % mega == 0 && leb mega len) then mega else page_4k

  -- `devmap_carve`
  unfoldable pub devmap_carve : List Untyped → ℕ → ℕ → Registry → K → Option Devmap × (Registry × K)
  devmap_carve uts phys len r k = elim (find_device_ut objects.untyped_start phys len uts) [
    | none ↦ (none, (r, k))
    | some (ut, (ut_bits, offset)) ↦
        let granule = granule_of phys offset len in
        let rlen = round_up granule len in
        let n = rlen / granule in
        let d : Devmap = record { phys = phys; len = rlen; granule = granule; frames = [] } in
        if ltb (2 ^ ut_bits % w64) (add64 offset len)
          || (ltb devmap_max_frames n || leb devmap_max (length r.devmaps))
        then (none, (r, k))
        else elim (ut_hwm_slot ut r.hwms) [
          | none ↦ (none, (r, k))
          | some (hwm, hwms) ↦ carve_from ut ut_bits offset n d hwm hwms r k
        ]
  ]
