-- ===== src/Syscfg/Build.antt =====
-- taskman/sys/syscfg.c: the tags that `tm_syscfg_build` makes of the device tree.
use lq.Base.{
  ℕ, zero, suc, ◌+◌, ◌-◌, ◌/◌, ◌%◌, ◌^◌, Bool, true, false, not, ◌&&◌, Option, none, some, List, [],
  ◌∷◌, ◌++◌, ltb, leb, ◌==◌, if◌then◌else◌, length, take, drop, set, get_or, replicate, le_bytes,
  be_value, c_string, codes, bit_or,
}
use lq.Syscfg.Blob.{Tag, Abi, Config, emit, emit_all, u32_tag, u64_tag, asciz_tag}

-- The queries of fdt.c on the device tree at hand. A node is its offset; `reg` has the numbers of
-- address and size cells and the index of the entry.
pub record Fdt : Type 0 where
  pub is_valid : Bool
  pub path : List ℕ → Option ℕ
  pub prop : ℕ → List ℕ → Option (List ℕ)
  pub prop_str : ℕ → List ℕ → Option (List ℕ)
  pub prop_u32 : ℕ → List ℕ → Option ℕ
  pub compatible : List ℕ → Option ℕ
  pub reg : ℕ → ℕ → ℕ → ℕ → Option (ℕ × ℕ)

-- Bytes `i` to `i + n` of a property.
abbrev pub slice : ℕ → ℕ → List ℕ → List ℕ
slice i n bytes = take n (drop i bytes)

abbrev pub when_some {ℓ} : {A : Type ℓ} → Option A → (A → List Tag) → List Tag
when_some none f = []
when_some (some a) f = f a

module _ (abi : Abi) where
  -- One entry of `ranges` in `emit_pci_windows`.
  unfoldable pub pci_window : List ℕ → List Tag
  pci_window r =
      let hi = be_value (slice 0 4 r) in
      let kind = hi / 2 ^ 24 % 4 in
      let space = if kind == 1 then abi.pci_window_io else abi.pci_window_mem in
      let flags = if hi / 2 ^ 30 % 2 == 1 then bit_or space abi.pci_window_prefetch else space in
      if kind == 0
      then []
      else record {
        id = abi.tag_pci_window;
        payload =
            le_bytes 8 (be_value (slice 12 8 r))
            ++ (le_bytes 8 (be_value (slice 4 8 r))
                ++ (le_bytes 8 (be_value (slice 20 8 r)) ++ le_bytes 4 flags));
      }
        ∷ []

  unfoldable pub pci_windows_from : ℕ → List ℕ → List Tag
  pci_windows_from zero bytes = []
  pci_windows_from (suc n) bytes = pci_window bytes ++ pci_windows_from n (drop 28 bytes)

  unfoldable pub pci_windows : Fdt → ℕ → List Tag
  pci_windows fdt node =
      when_some (fdt.prop node (codes "ranges"))
        λ bytes. if length bytes % 28 == 0 then pci_windows_from (length bytes / 28) bytes else []

  unfoldable pub model_tags : Fdt → ℕ → List Tag
  model_tags fdt root =
      when_some (fdt.prop_str root (codes "model")) (asciz_tag abi.tag_model)
      ++ when_some (fdt.prop root (codes "compatible"))
          (λ bytes. asciz_tag abi.tag_compatible (c_string bytes))

  abbrev pub timebase : List ℕ → ℕ
  timebase bytes =
      if length bytes == 4 then be_value bytes else if length bytes == 8 then be_value bytes else 0

  unfoldable pub timebase_tags : Fdt → ℕ → List Tag
  timebase_tags fdt cpus =
      when_some (fdt.prop cpus (codes "timebase-frequency")) λ bytes.
        if timebase bytes == 0 then [] else u64_tag abi.tag_timebase_hz (timebase bytes) ∷ []

  -- The path of the cpu `i` below 64.
  abbrev pub cpu_path : ℕ → List ℕ
  cpu_path i =
      let v = if leb 16 i then i % 16 else i in
      let tens = if leb 16 i then (b'0' + i / 16) ∷ [] else [] in
      codes "/cpus/cpu@" ++ (tens ++ (if ltb v 10 then b'0' + v else b'a' + v - 10) ∷ [])

  -- The loop that counts the cpus, from `i` on, at most `n` of them.
  unfoldable pub count_cpus : Fdt → ℕ → ℕ → ℕ
  count_cpus fdt zero i = 0
  count_cpus fdt (suc n) i =
      let rest = count_cpus fdt n (i + 1) in
      elim (fdt.path (cpu_path i)) [ none ↦ 0 | some node ↦ suc rest ]

  unfoldable pub cpu_tags : Fdt → List Tag
  cpu_tags fdt = when_some (fdt.path (codes "/cpus")) λ cpus.
      timebase_tags fdt cpus
      ++ (let n = count_cpus fdt 64 0 in if n == 0 then [] else u32_tag abi.tag_num_cpus n ∷ [])

  -- The command line also goes to `tm_log_apply_cmdline`, which touches the log alone.
  unfoldable pub chosen_tags : Fdt → List Tag
  chosen_tags fdt = when_some (fdt.path (codes "/chosen")) λ chosen.
      when_some (fdt.prop_u32 chosen (codes "boot-hartid")) (λ v. u32_tag abi.tag_boot_hart v ∷ [])
      ++ when_some (fdt.prop_str chosen (codes "bootargs")) (asciz_tag abi.tag_cmdline)

  unfoldable pub memory_tags : Fdt → List Tag
  memory_tags fdt = when_some (fdt.path (codes "/memory@80000000")) λ node.
      when_some (fdt.reg node 2 2 0) λ (base, size).
        record { id = abi.tag_memory; payload = le_bytes 8 base ++ le_bytes 8 size } ∷ []

  abbrev pub last_bus : Fdt → ℕ → ℕ
  last_bus fdt node = elim (fdt.prop node (codes "bus-range")) [
    | none ↦ 0xff
    | some bytes ↦ if length bytes == 8 then be_value (slice 4 4 bytes) else 0xff
  ]

  abbrev pub ecam_tag : ℕ → ℕ → ℕ → ℕ → Tag
  ecam_tag id base size last = record {
    id = id;
    payload = le_bytes 8 base ++ (le_bytes 8 size ++ le_bytes 4 last);
  }

  -- One entry of `interrupt-map`: the first vector of each pin stays.
  unfoldable pub irq_entry : List ℕ → List ℕ → List ℕ
  irq_entry e vec =
      let pin = be_value (slice 12 4 e) in
      if leb 1 pin && (leb pin 4 && get_or vec (pin - 1) 0 == 0)
      then set vec (pin - 1) (be_value (slice 20 4 e))
      else vec

  unfoldable pub irq_vectors : ℕ → List ℕ → List ℕ → List ℕ
  irq_vectors zero bytes vec = vec
  irq_vectors (suc n) bytes vec = irq_vectors n (drop 24 bytes) (irq_entry bytes vec)

  unfoldable pub irq_tags : List ℕ → List Tag
  irq_tags bytes =
      let vec = irq_vectors (length bytes / 24) bytes (replicate 4 0) in
      let v = λ (p : ℕ). get_or vec p 0 in
      if not (length bytes % 24 == 0)
      then []
      else if v 0 == 0 && (v 1 == 0 && (v 2 == 0 && v 3 == 0))
      then []
      else record {
        id = abi.tag_pci_irq;
        payload = le_bytes 4 (v 0) ++ (le_bytes 4 (v 1) ++ (le_bytes 4 (v 2) ++ le_bytes 4 (v 3)));
      }
        ∷ []

  unfoldable pub pci_tags : Fdt → List Tag
  pci_tags fdt = when_some (fdt.compatible (codes "pci-host-ecam-generic")) λ pci.
      when_some (fdt.reg pci 2 2 0)
        (λ (base, size). ecam_tag abi.tag_pci_ecam base size (last_bus fdt pci) ∷ [])
      ++ (pci_windows fdt pci ++ when_some (fdt.prop pci (codes "interrupt-map")) irq_tags)

  abbrev pub reg_or_zero : Fdt → ℕ → ℕ → ℕ × ℕ
  reg_or_zero fdt node i = elim (fdt.reg node 2 2 i) [ none ↦ (0, 0) | some r ↦ r ]

  abbrev pub msi_irq : Fdt → ℕ → ℕ
  msi_irq fdt node = elim (fdt.prop node (codes "interrupts")) [
    | none ↦ 0
    | some bytes ↦ if leb 4 (length bytes) then be_value (slice 0 4 bytes) else 0
  ]

  unfoldable pub fu740_tags : Fdt → List Tag
  fu740_tags fdt = when_some (fdt.compatible (codes "sifive,fu740-pcie")) λ node.
      let (ecam_base, ecam_size) = reg_or_zero fdt node 1 in
      let (dbi_base, dbi_size) = reg_or_zero fdt node 0 in
      ecam_tag abi.tag_pci_ecam ecam_base ecam_size (last_bus fdt node)
      ∷ ecam_tag abi.tag_dw_msi dbi_base dbi_size (msi_irq fdt node)
      ∷ pci_windows fdt node

  -- What is emitted between the version and the end, in order.
  unfoldable pub body_tags : Fdt → ℕ → List Tag
  body_tags fdt root =
      model_tags fdt root
      ++ (cpu_tags fdt
          ++ (chosen_tags fdt ++ (memory_tags fdt ++ (pci_tags fdt ++ fu740_tags fdt))))

  abbrev pub end_tag : Tag
  end_tag = record { id = abi.tag_end; payload = [] }

  -- `tm_syscfg_build` from any state; the Boolean is whether the answer is 0.
  unfoldable pub build : Fdt → Config → Bool × Config
  build fdt cfg = if not fdt.is_valid then (false, cfg) else elim (fdt.path (codes "/")) [
    | none ↦ (false, record { blob = []; ready = false })
    | some root ↦ elim (emit abi.max (u32_tag abi.tag_version abi.version) []) [
      | none ↦ (false, record { blob = []; ready = false })
      | some first ↦
          let blob = emit_all abi.max (body_tags fdt root) first in
          elim (emit abi.max end_tag blob) [
            | none ↦ (false, record { blob = blob; ready = false })
            | some whole ↦ (true, record { blob = whole; ready = true })
          ]
    ]
  ]
