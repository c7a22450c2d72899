-- ===== src/Syscfg/Tests.antt =====
-- taskman/sys/syscfg.c: a small device tree and the blob made of it.
use lq.Base.{
  ◌≡◌, refl, true, false, none, some, [], ◌∷◌, ◌++◌, arith, ◌==◌, if◌then◌else◌, length, codes,
  le_bytes, le_value,
}
use lq.Syscfg.Blob.{Abi, Config, find, find_value, find_from, emit, emit_all, emit_or_skip, get}
use lq.Rsrcdb.Entry.{Entry, blank, insert_sorted}
use lq.Rsrcdb.Db.{Db, pool_alloc, list_insert}
use lq.Rsrcdb.Seed.{seed_entry, seed_tag, seed_from, seed_from_syscfg}
use lq.Syscfg.Build.{
  Fdt, build, body_tags, model_tags, cpu_tags, chosen_tags, memory_tags, pci_tags, fu740_tags,
}
use lq.Syscfg.RoundTrip.{find_tag, kept_tags, find-build}

abbrev abi : Abi
abi = record {
  max = 52;
  version = 1;
  tag_end = 0;
  tag_version = 1;
  tag_model = 2;
  tag_compatible = 3;
  tag_timebase_hz = 4;
  tag_num_cpus = 5;
  tag_boot_hart = 6;
  tag_cmdline = 7;
  tag_memory = 8;
  tag_pci_ecam = 9;
  tag_pci_window = 10;
  tag_pci_irq = 11;
  tag_dw_msi = 12;
  pci_window_io = 1;
  pci_window_mem = 2;
  pci_window_prefetch = 4;
}

-- A board with a model, a boot hart and a command line too long for the rest of the blob.
abbrev board : Fdt
board = record {
  is_valid = true;
  path = λ p.
      if length p == 1
      then some 0
      else if length p == 7
      then some 1
      else if length p == 16
      then some 2
      else none;
  prop = λ node name. none;
  prop_str = λ node name.
      if node == 0 then some (codes "qemu") else some (codes "console=ttyS0 a=b c=d e=f");
  prop_u32 = λ node name. some 258;
  compatible = λ name. none;
  reg = λ node a s i. if node == 2 then some (0x80000000, 0x10000000) else none;
}

abbrev empty : Config
empty = record { blob = []; ready = false }

model_found : find abi 2 (build abi board empty).1 ≡ some (codes "qemu" ++ 0 ∷ [])
unfolding find find_from build emit le_bytes emit_all body_tags model_tags cpu_tags chosen_tags
    memory_tags pci_tags fu740_tags emit_or_skip
model_found = refl

hart_found : find_value abi 4 6 (build abi board empty).1 ≡ some 258
unfolding find_value find find_from le_value build emit le_bytes emit_all body_tags model_tags
    cpu_tags chosen_tags memory_tags pci_tags fu740_tags emit_or_skip
hart_found = refl

no_cmdline : find abi 7 (build abi board empty).1 ≡ none
unfolding find find_from build emit le_bytes emit_all body_tags model_tags cpu_tags chosen_tags
    memory_tags pci_tags fu740_tags emit_or_skip
no_cmdline = refl

built : (build abi board empty).0 ≡ true
unfolding build emit le_bytes emit_all body_tags model_tags cpu_tags chosen_tags memory_tags
    pci_tags fu740_tags emit_or_skip
built = refl

find-build_example :
    find abi 6 (build abi board empty).1 ≡ find_tag abi.tag_end 6 (kept_tags abi board 0)
find-build_example = find-build abi board 0 empty 6 (omega arith) refl built

abbrev rsrc_abi : lq.Rsrcdb.Entry.Abi
rsrc_abi = record {
  type_count = 2;
  type_mask = 0xff;
  flag_mask = 0xffff00;
  flag_range = 0x100;
  flag_align = 0x200;
  flag_used = 0x400;
}

abbrev no_ranges : Db
no_ranges = record { free_list = 7 ∷ 8 ∷ []; heads = λ c. [] }

seeded :
    (seed_from_syscfg rsrc_abi 0 8 (build abi board empty).1 no_ranges).heads 0
    ≡ record (blank 7) { start = 0x80000000; end = 0x8fffffff } ∷ []
unfolding seed_from_syscfg get seed_from seed_tag seed_entry pool_alloc list_insert insert_sorted
    le_value build emit le_bytes emit_all body_tags model_tags cpu_tags chosen_tags memory_tags
    pci_tags fu740_tags emit_or_skip
seeded = refl
