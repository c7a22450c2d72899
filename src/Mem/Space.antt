-- ===== src/Mem/Space.antt =====
-- taskman/mem/mmap.c, mem.h, taskman/proc/proc.h: what a process has mapped.
use lq.Base.{ℕ, ◌+◌, ◌-◌, ◌*◌, ◌/◌, ◌%◌, ◌^◌, Bool, Option, List, w64}

-- `tm_mmap_entry_t` and `tm_mprot_entry_t`. A capability is its slot.
pub record Page : Type 0 where
  pub va : ℕ
  pub frame : ℕ

-- The memory fields of `tm_process_t`, each array with its count as a list of the entries in use.
-- `mmap_free` is used as a stack: its top is the head of `free_list`. A pair of `devframe_va` and
-- `devframes` is a page.
pub record Space : Type 0 where
  pub mmap : List Page
  pub free_list : List ℕ
  pub top : ℕ
  pub devframes : List Page
  pub mprot : List Page

-- TM_MAX_MMAP_PER_PROC and TM_MAX_DEVFRAMES.
pub record Limits : Type 0 where
  pub mmap : ℕ
  pub devframes : ℕ

-- QSOE_MEGA_PAGE, QSOE_PAGE_4K and TM_MMAP_FREE_MAX.
abbrev pub mega : ℕ
mega = 2 ^ 21

abbrev pub page_4k : ℕ
page_4k = 2 ^ 12

abbrev pub free_max : ℕ
free_max = 16

-- `(x + g - 1) & ~(g - 1)`, where `g` is a power of two.
abbrev pub round_up : ℕ → ℕ → ℕ
round_up g x = (x + (g - 1)) % w64 / g * g

-- The operations of the kernel and of taskman/proc/process.c that this component calls, on a state
-- `K` of theirs that has the address space of the process; a Boolean is whether the call succeeds.
-- `alloc` is `taskman_alloc_and_retype`, `alloc_slot` `taskman_alloc_empty_slot`, `delete`
-- `qsoe_cnode_delete` with `taskman_free_slot`.
pub record Kernel (K : Type 0) : Type 0 where
  pub pput_begin : K → K
  pub pput_end : K → K
  pub zero_frame : ℕ → K → Bool × K
  pub alloc_mega : K → Option ℕ × K
  pub alloc_table : K → Option ℕ × K
  pub map_table : ℕ → ℕ → K → Bool × K
  pub map_page : ℕ → ℕ → ℕ → ℕ → K → Bool × K
  pub unmap_page : ℕ → K → K
  pub address : ℕ → K → Option ℕ × K
  pub alloc_slot : K → Option ℕ × K
  pub free_slot : ℕ → K → K
  pub delete : ℕ → K → K
  pub copy : ℕ → ℕ → K → Bool × K
  pub retype : ℕ → ℕ → ℕ → ℕ → K → Bool × K
