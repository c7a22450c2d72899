-- ===== src/Mem/Tests.antt =====
-- taskman/mem/mmap.c: the memory manager at concrete inputs.
use lq.Base.{
  ℕ, ◌+◌, ◌*◌, ◌≤◌, ◌<◌, ◌≡◌, ◌⊎◌, refl, Bool, true, false, none, some, List, [], ◌∷◌, ◌++◌, arith,
  if◌then◌else◌, length, Status, ok, Errno, value, fail,
}
use lq.Mem.Space.{Page, Space, Limits, Kernel, mega, page_4k, free_max}
use lq.Mem.Anonymous.{Rights, mmap_anonymous, map_pages, map_one, map_frame}
use lq.Mem.Unmap.{
  find_mmap_idx, swap_last, all_tracked, park, unmap_pages, unmap_devframes, munmap_anonymous,
  munmap_serve,
}
use lq.Mem.Device.{Objects, skip, retype_one, fls_from, ctz_from}
use lq.Mem.Protect.{Prot, mprotect_serve}
use lq.Mem.Mapped.{StopsAt, run, mmap_anonymous_lem}
use lq.Mem.Entries.{occ, total}
use lq.Mem.Unmapped.{frames, frame_weight, munmap_serve-removes}
use lq.Mem.Returned.{munmap_serve-mmap_anonymous}
use lq.Mem.Skipped.{skip_ends}
use lq.Mem.Protected.{IsMapped, mprotect_serve_ends}

-- A kernel in which every call succeeds and slots count up; its state is the next slot.
abbrev kernel : Kernel ℕ
kernel = record {
  pput_begin = λ k. k;
  pput_end = λ k. k;
  zero_frame = λ f k. (true, k);
  alloc_mega = λ k. (some k, k + 1);
  alloc_table = λ k. (some k, k + 1);
  map_table = λ t va k. (true, k);
  map_page = λ f va rights attr k. (true, k);
  unmap_page = λ f k. k;
  address = λ f k. (some (f * mega), k);
  alloc_slot = λ k. (some k, k + 1);
  free_slot = λ c k. k;
  delete = λ c k. k;
  copy = λ a b k. (true, k);
  retype = λ ut type bits c k. (true, k);
}

abbrev rights : Rights
rights = record { all = 3; attr_default = 0 }

abbrev limits : Limits
limits = record { mmap = 8; devframes = 8 }

abbrev page : ℕ → ℕ → Page
page va f = record { va = va; frame = f }

-- One page at 0x2000000, a parked frame, and the cursor behind them.
abbrev space : Space
space = record {
  mmap = page 0x2000000 5 ∷ [];
  free_list = 6 ∷ [];
  top = 0x2200000;
  devframes = [];
  mprot = page 0x1000 4 ∷ [];
}

abbrev two_pages : Space
two_pages = record space {
  mmap = page 0x2000000 5 ∷ page 0x2200000 6 ∷ page 0x2400000 9 ∷ [];
  free_list = [];
  top = 0x2600000;
}

mapped : mmap_anonymous kernel rights limits 0x200001 space 9 ≡ (value 0x2200000, (two_pages, 10))
unfolding mmap_anonymous map_pages map_one map_frame
mapped = refl

unmapped :
    (munmap_serve kernel 0x2200000 0x200001 (some two_pages) 10)
    ≡ (ok, (some (record space { free_list = 9 ∷ 6 ∷ [] }), 10))
unfolding munmap_serve munmap_anonymous unmap_devframes all_tracked find_mmap_idx unmap_pages park
    swap_last
unmapped = refl

mmap_anonymous_lem_example :
    let (answer, (s', k')) = mmap_anonymous kernel rights limits 0x200001 space 9 in
    (fs : List ℕ) × (s'.mmap ≡ space.mmap ++ run 0x2200000 fs)
    × (s'.devframes ≡ [])
    × (s'.mprot ≡ space.mprot)
    × (((answer ≡ value 0x2200000) × (length fs ≡ 2) × (s'.top ≡ 0x2600000))
        ⊎ ((e : Errno) × (answer ≡ fail e)
            × (length fs < 2)
            × StopsAt kernel rights limits (length fs) 0x2200000 space 9 e
            × (s'.top ≡ 0x2200000)))
mmap_anonymous_lem_example = mmap_anonymous_lem kernel rights limits 0x200001 space 9

munmap_serve-mmap_anonymous_example :
    let s1 = (mmap_anonymous kernel rights limits 0x200001 space 9).1.0 in
    (s' : Space) × (k' : ℕ) × (munmap_serve kernel 0x2200000 0x200001 (some s1) 10
      ≡ (ok, (some s', k')))
    × (s'.mmap ≡ space.mmap)
    × (s'.top ≡ 0x2200000)
    × (s'.devframes ≡ space.devframes)
    × (s'.mprot ≡ space.mprot)
unfolding mmap_anonymous map_pages map_one map_frame
munmap_serve-mmap_anonymous_example =
    munmap_serve-mmap_anonymous kernel rights limits 0x200001 0x2200000 space 9 10
      (λ e. ground (arith, e)) (omega arith) (omega arith) (omega arith, tt) tt refl

munmap_serve-removes_example :
    (s' : Space) × (k' : ℕ) × (munmap_serve kernel 0x2200000 0x400000 (some two_pages) 9
      ≡ (ok, (some s', k')))
    × ((v : ℕ) → occ v s'.mmap + occ v (run 0x2200000 (0 ∷ 0 ∷ [])) ≡ occ v two_pages.mmap)
    × ((w : ℕ → ℕ)
        → length two_pages.free_list + 2 ≤ free_max
        → total (frame_weight w) s'.mmap + frames w s'.free_list
          ≡ total (frame_weight w) two_pages.mmap + frames w two_pages.free_list)
    × (s'.top ≡ 0x2200000)
    × (s'.devframes ≡ [])
munmap_serve-removes_example =
    munmap_serve-removes kernel 0x2200000 0x400000 two_pages 9 (λ e. ground (arith, e)) refl tt
      (λ v. omega arith)

abbrev objects : Objects
objects = record { untyped = 0; mega_page = 1; page_4k = 2; untyped_start = 100 }

-- Blocks of 0x1000, 0x2000 and 0x4000 bytes lead from 0x1000 to 0x8000.
skipped : skip kernel objects 4 7 15 0x1000 0x8000 20 ≡ some (some 0x8000, 23)
unfolding skip retype_one fls_from ctz_from
skipped = refl

skip_ends_example :
    (k' : ℕ) × ((skip kernel objects 0x8000 7 15 0x1000 0x8000 20 ≡ some (none, k'))
      ⊎ (skip kernel objects 0x8000 7 15 0x1000 0x8000 20 ≡ some (some 0x8000, k')))
skip_ends_example =
    skip_ends kernel objects 0x8000 7 15 0x1000 0x8000 20 (omega arith) (omega arith)

abbrev cap_rights : Bool → Bool → ℕ
cap_rights r w = (if r then 1 else 0) + (if w then 2 else 0)

abbrev read_only : Prot
read_only = record { read = true; write = false; exec = false }

mprotect_serve_ends_example :
    (status : Status) × (k' : ℕ) × (mprotect_serve kernel rights cap_rights 0x1000 0x800 read_only
        (some space)
        9
      ≡ some (status, k'))
    × (status ≡ ok
        → (i : ℕ) → 0x1000 + i * page_4k < 0x1800
        → IsMapped space (0x1000 + i * page_4k))
mprotect_serve_ends_example =
    mprotect_serve_ends kernel rights cap_rights 0x1000 0x800 read_only space 9 (omega arith)
