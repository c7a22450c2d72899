-- ===== src/Syscfg/Blob.antt =====
-- taskman/sys/syscfg.c: the blob of tags, each with its length and payload.
use lq.Base.{
  ℕ, zero, suc, ◌+◌, ◌*◌, ◌/◌, ◌%◌, Bool, Option, none, some, List, [], ◌∷◌, ◌++◌, ltb, ◌==◌,
  if◌then◌else◌, length, take, drop, le_bytes, le_value,
}

-- A tag as it is handed to `emit`.
pub record Tag : Type 0 where
  pub id : ℕ
  pub payload : List ℕ

-- The constants of <qsoe/syscfg.h>, which is not in this repository.
pub record Abi : Type 0 where
  pub max : ℕ
  pub version : ℕ
  pub tag_end : ℕ
  pub tag_version : ℕ
  pub tag_model : ℕ
  pub tag_compatible : ℕ
  pub tag_timebase_hz : ℕ
  pub tag_num_cpus : ℕ
  pub tag_boot_hart : ℕ
  pub tag_cmdline : ℕ
  pub tag_memory : ℕ
  pub tag_pci_ecam : ℕ
  pub tag_pci_window : ℕ
  pub tag_pci_irq : ℕ
  pub tag_dw_msi : ℕ
  pub pci_window_io : ℕ
  pub pci_window_mem : ℕ
  pub pci_window_prefetch : ℕ

-- The bytes that `emit` writes.
abbrev pub header : ℕ → ℕ → List ℕ
header id len = id % 256 ∷ id / 256 % 256 ∷ len % 256 ∷ len / 256 % 256 ∷ []

abbrev pub encode : Tag → List ℕ
encode t = header t.id (length t.payload) ++ t.payload

-- `none` is the answer -1, which leaves the blob as it is.
unfoldable pub emit : ℕ → Tag → List ℕ → Option (List ℕ)
emit max t blob =
    if ltb max (length blob + 4 + length t.payload) then none else some (blob ++ encode t)

-- `(void)emit(…)`
unfoldable pub emit_or_skip : ℕ → Tag → List ℕ → List ℕ
emit_or_skip max t blob = elim (emit max t blob) [ none ↦ blob | some blob' ↦ blob' ]

unfoldable pub emit_all : ℕ → List Tag → List ℕ → List ℕ
emit_all max [] blob = blob
emit_all max (t ∷ ts) blob = emit_all max ts (emit_or_skip max t blob)

-- `emit_u32`, `emit_u64` and `emit_asciz`, as what they emit.
abbrev pub u32_tag : ℕ → ℕ → Tag
u32_tag id v = record { id = id; payload = le_bytes 4 v }

abbrev pub u64_tag : ℕ → ℕ → Tag
u64_tag id v = record { id = id; payload = le_bytes 8 v }

abbrev pub asciz_tag : ℕ → List ℕ → List Tag
asciz_tag id [] = []
asciz_tag id (c ∷ s) = record { id = id; payload = (c ∷ s) ++ 0 ∷ [] } ∷ []

-- `s_blob` with its length, and `s_blob_ready`.
pub record Config : Type 0 where
  pub blob : List ℕ
  pub ready : Bool

-- `tm_syscfg_get`
unfoldable pub get : Config → Option (List ℕ)
get cfg = if cfg.ready then some cfg.blob else none

-- The loop of `tm_syscfg_find` over the bytes from `off` on.
unfoldable pub find_from : ℕ → ℕ → ℕ → List ℕ → Option (List ℕ)
find_from zero tag_end id bytes = none
find_from (suc fuel) tag_end id (a ∷ b ∷ c ∷ d ∷ rest) =
    let tag = a + 256 * b in
    let len = c + 256 * d in
    let next = find_from fuel tag_end id (drop len rest) in
    if tag == tag_end then none else if tag == id then some (take len rest) else next
find_from (suc fuel) tag_end id bytes = none

module _ (abi : Abi) where
  -- `tm_syscfg_find`, with the payload for the pointer and the length. Each turn of the loop takes
  -- four bytes at least.
  unfoldable pub find : ℕ → Config → Option (List ℕ)
  find id cfg = if cfg.ready then find_from (length cfg.blob) abi.tag_end id cfg.blob else none

  -- `tm_syscfg_find_u32` and `tm_syscfg_find_u64`, for `size` 4 and 8.
  unfoldable pub find_value : ℕ → ℕ → Config → Option ℕ
  find_value size id cfg = elim (find id cfg) [
    | none ↦ none
    | some bytes ↦ if length bytes == size then some (le_value bytes) else none
  ]
