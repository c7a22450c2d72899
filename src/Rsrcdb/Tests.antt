-- ===== src/Rsrcdb/Tests.antt =====
-- The resource database at concrete inputs.
use lq.Base.{
  ℕ, ◌^◌, ◌-◌, zero, suc, ◌+◌, ◌<◌, ◌≡◌, ◌≢◌, refl, true, List, [], ◌∷◌, err, enospc, some, arith,
}
use lq.Rsrcdb.Entry.{
  Abi, Entry, Request, blank, fit, find_fit, insert_sorted, align_up, find, modify, merge_list,
  merge_right, merge_left, merge_after,
}
use lq.Rsrcdb.Totals.{total}
use lq.Rsrcdb.Listed.{Listed}
use lq.Rsrcdb.Db.{Db, pool_alloc, carve, shrink, list_insert, merge_neighbours, copy_name}
use lq.Rsrcdb.Inv.{Inv}
use lq.Rsrcdb.Keeps.{Keeps}
use lq.Rsrcdb.Keeps.Attach.{attach-Keeps}
use lq.Rsrcdb.Keeps.Release.{owns, Foreign}
use lq.Rsrcdb.Keeps.Sweep.{release_pid_lem}
use lq.Rsrcdb.Cover.{held}
use lq.Rsrcdb.Ownership.{attach_one-held}
use lq.Rsrcdb.Grant.{fit_wraps}
use lq.Syscfg.Blob.{Config}
use lq.Rsrcdb.Calls.{
  attach, attach_loop, attach_one, after_carve, granted_ptr, release_pid, rollback,
}

abbrev abi : Abi
abi = record {
  type_count = 2;
  type_mask = 0xff;
  flag_mask = 0xffff00;
  flag_range = 0x100;
  flag_align = 0x200;
  flag_used = 0x400;
}

-- The range from `s` to `t`, at index `i` of the pool.
abbrev entry : ℕ → ℕ → ℕ → ℕ → Entry
entry i s t o = record (blank i) { start = s; end = t; owner = o }

abbrev memory : ℕ → List Entry
memory zero = entry 0 0x1000 0x1fff 0 ∷ entry 1 0x2000 0x2fff 9 ∷ []
memory (suc c) = []

abbrev db : Db
db = record { free_list = 2 ∷ 3 ∷ 4 ∷ []; heads = memory }

-- 256 bytes at a multiple of 256, from 0x1101 on.
abbrev wanted : Request
wanted = record { start = 0x1101; end = 0x1fff; length = 0x100; align = 0x100; flags = 0x300 }

find_fit-wanted : find_fit abi wanted (memory 0) ≡ some (entry 0 0x1000 0x1fff 0, 0x1200, 0x12ff)
unfolding find_fit fit align_up
find_fit-wanted = refl

after_attach :
    ((attach abi 7 (wanted ∷ []) db).1).heads 0
    ≡ entry 0 0x1000 0x11ff 0
      ∷ record (entry 2 0x1200 0x12ff 7) { flags = 3 }
      ∷ entry 3 0x1300 0x1fff 0
      ∷ entry 1 0x2000 0x2fff 9
      ∷ []
unfolding attach attach_loop attach_one after_carve granted_ptr find find_fit fit align_up carve
    pool_alloc shrink list_insert insert_sorted modify copy_name
after_attach = refl

-- The second request does not fit, and the first is rolled back.
rolled_back :
    let r = attach abi 7 (wanted ∷ record wanted { length = 0x9000 } ∷ []) db in
    (r.0 ≡ err enospc) × (r.1.heads 0 ≡ entry 0 0x1000 0x1fff 0 ∷ entry 1 0x2000 0x2fff 9 ∷ [])
unfolding attach attach_loop attach_one after_carve granted_ptr find find_fit fit align_up carve
    pool_alloc shrink list_insert insert_sorted modify copy_name rollback merge_neighbours
    merge_list merge_after merge_right merge_left
rolled_back = (refl, refl)

db-Inv : Inv abi db
db-Inv = record { listed = sorted; once = λ i. ground arith }
  where
    sorted : (c : ℕ) → c < 2 → Listed c 0 (memory c)
    sorted zero k = omega arith
    sorted (suc c) k = tt

attach-Keeps_example : Keeps abi db (attach abi 7 (wanted ∷ []) db).1
attach-Keeps_example = attach-Keeps abi 7 (wanted ∷ []) db db-Inv

abbrev given : Request
given = record { start = 0x2000; end = 0x2fff; length = 0; align = 0; flags = 0 }

abbrev huge : Request
huge = record { start = 0; end = 0; length = 16; align = 0x1000; flags = 0x200 }

attach_one-held_example :
    let r = attach abi 7 (wanted ∷ []) db in
    (held abi 0 0 0x1234 r.1 + 1 ≡ held abi 0 0 0x1234 db)
    × (held abi 0 7 0x1234 r.1 ≡ held abi 0 7 0x1234 db + 1)
    × ((q : ℕ) → q ≢ 0 → q ≢ 7 → held abi 0 q 0x1234 r.1 ≡ held abi 0 q 0x1234 db)
unfolding attach attach_loop attach_one after_carve granted_ptr find find_fit fit align_up carve
    pool_alloc shrink list_insert insert_sorted modify copy_name
attach_one-held_example =
    attach_one-held abi 7 wanted db (omega arith) (omega arith) (omega arith) db-Inv refl 0 0x1234

release_pid_lem_example :
    (db' : Db) × (release_pid abi 5 9 db ≡ some db')
    × Keeps abi db db'
    × ((c : ℕ) → c < 2 → total (owns 9) (db'.heads c) ≡ 0)
    × ((w : Entry → ℕ) (c : ℕ) → Foreign 9 w → total w (db'.heads c) ≡ total w (db.heads c))
release_pid_lem_example = release_pid_lem abi 5 9 (omega arith) db (omega arith) few db-Inv
  where
    few : (c : ℕ) → c < 2 → total (owns 9) (memory c) < 5
    few zero k = omega arith
    few (suc c) k = omega arith

-- A memory tag of 16 bytes and the end.
abbrev memory_blob : Config
memory_blob = record {
  blob =
      8 ∷ 0 ∷ 16 ∷ 0 ∷ 0 ∷ 0 ∷ 1 ∷ 0 ∷ 0 ∷ 0 ∷ 0 ∷ 0 ∷ 0 ∷ 1 ∷ 0 ∷ 0 ∷ 0 ∷ 0 ∷ 0 ∷ 0 ∷ 0 ∷ 0 ∷ 0 ∷ 0
      ∷ [];
  ready = true;
}

-- A free range in the upper half of the addresses, and an alignment of 2^63.
abbrev high : Entry
high = entry 0 (2 ^ 63 + 0x1000) (2 ^ 64 - 1) 0

abbrev coarse : Request
coarse = record { start = 0; end = 0; length = 0x100; align = 2 ^ 63; flags = 0x200 }

fit_wraps_example : (fit abi coarse high ≡ some (0, 0xff)) × (0 < high.start)
fit_wraps_example =
    fit_wraps abi coarse high 63 refl refl refl (omega arith) (omega arith) (omega arith)
      (omega arith) (omega arith) (omega arith) (omega arith)
