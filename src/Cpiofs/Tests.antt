-- ===== src/Cpiofs/Tests.antt =====
-- taskman/path/cpiofs.c: a small archive.
use lq.Base.{
  ℕ, suc, ◌≡◌, refl, Option, some, List, [], ◌∷◌, ◌++◌, arith, codes, length, c_string, value, ok,
  err, enoent, ◌==◌, if◌then◌else◌,
}
use lq.Devtree.Walk.{same_string}
use lq.Chan.State.{Registry, first}
use lq.Chan.Connect.{set_ctx, get_ctx}
use lq.Chan.Sample.{connection}
use lq.Cpiofs.Scan.{
  Layout, Archive, Entry, hex_from, is_entry, scan_from, scan, resolve, parent, lookup,
}
use lq.Cpiofs.File.{read_loop, lseek, pack}
use lq.Cpiofs.Dir.{
  Dir, Listing, opened, dir_slot_alloc, some_below, open_dir, skip_slashes, open_path, close, stat,
}
use lq.Cpiofs.Freed.{badges, close-open_dir}
use lq.Cpiofs.Ends.{scan_from_ends}
use lq.Cpiofs.Reads.{Stored, At, read_loop_all}

abbrev layout : Layout
layout = record { size = 32; mode = 6; filesize = 14; namesize = 22 }

abbrev header : List ℕ → List ℕ → List ℕ → List ℕ
header mode filesize namesize = codes "070701" ++ (mode ++ (filesize ++ (namesize ++ (0 ∷ 0 ∷ []))))

-- bin/qsh with six bytes, the link bin/sh to it, and the trailer.
abbrev archive : Archive
archive = record {
  start = 0x1000;
  bytes =
      header (codes "000081ed") (codes "00000006") (codes "00000008")
      ++ (codes "bin/qsh"
          ++ (0 ∷ codes "#!echo"
              ++ (0 ∷ 0 ∷ header (codes "0000a1ff") (codes "00000003") (codes "00000007")
                  ++ (codes "bin/sh"
                      ++ (0 ∷ 0 ∷ codes "qsh"
                          ++ (0 ∷ header (codes "00000000") (codes "00000000") (codes "0000000b")
                              ++ (codes "TRAILER!!!" ++ 0 ∷ 0 ∷ [])))))));
}

qsh_found :
    lookup layout archive (codes "bin/qsh")
    ≡ some (record { place = 0x1028; size = 6; mode = 0x81ed })
unfolding lookup scan scan_from is_entry hex_from same_string c_string
qsh_found = refl

link_followed :
    lookup layout archive (codes "bin/sh")
    ≡ some (record { place = 0x1028; size = 6; mode = 0x81ed })
unfolding lookup scan scan_from is_entry hex_from same_string c_string resolve parent
link_followed = refl

scan_from_ends_example :
    (r : Option Entry) × (scan_from layout archive
        (suc (length archive.bytes))
        (codes "bin/ls")
        0x1000
      ≡ some r)
scan_from_ends_example =
    scan_from_ends layout archive (length archive.bytes) (codes "bin/ls") 0x1000 (omega arith)
      (omega arith) (omega arith) (omega arith) (omega arith)

-- The connection 9 with bin/qsh open at its second byte.
abbrev open_file : Registry
open_file = record {
  channels = [];
  connections = record connection { badge = 9; ctx0 = 0x1028; ctx1 = pack 2 6 } ∷ [];
}

qsh : Stored archive 0x1028 6
qsh = record {
  somewhere = λ e. ground (arith, e);
  begins = omega arith;
  ends = omega arith;
  size_fits = omega arith;
}

At-two : At 9 0x1028 6 2 open_file
unfolding get_ctx first
At-two = refl

read_loop_all_example : read_loop 5 archive 9 3 open_file ≡ some (codes "echo")
read_loop_all_example =
    read_loop_all 5 archive 9 0x1028 6 2 3 open_file qsh At-two (omega arith) (omega arith)
      (omega arith)

sought : (lseek 9 1 3 open_file).0 ≡ value 5
unfolding lseek get_ctx set_ctx first
sought = refl

abbrev listing : Listing
listing = record {
  file_count = some 2;
  entry_name = λ i. if i == 0 then some (codes "bin/qsh") else some (codes "bin/sh");
}

-- Two entries, of which connection 7 has the first.
abbrev dirs : List Dir
dirs = opened 7 [] ∷ opened 0 [] ∷ []

bin_opened : open_path layout archive listing (codes "/bin") 1 9 dirs open_file ≡ (
  ok,
  (
    opened 7 [] ∷ opened 9 (codes "bin/") ∷ [],
    record {
      channels = [];
      connections = record connection { badge = 9; ctx0 = 0; ctx1 = 1 } ∷ [];
    },
  ),
)
unfolding open_path open_dir dir_slot_alloc skip_slashes some_below lookup scan scan_from is_entry
    hex_from same_string c_string set_ctx first
bin_opened = refl

ls_missing : (open_path layout archive listing (codes "//bin/ls") 1 9 dirs open_file).0 ≡ err enoent
unfolding open_path skip_slashes some_below lookup scan scan_from is_entry hex_from same_string
    c_string
ls_missing = refl

file_stat :
    stat 0x4000 0x8000 9 open_file
    ≡ value (record {
      st_dev = 1;
      st_ino = 0x1028;
      st_mode = 0x816d;
      st_nlink = 1;
      st_size = 6;
      st_blksize = 512;
      st_blocks = 1;
    })
unfolding stat get_ctx first
file_stat = refl

close-open_dir_example :
    badges (
      close 9
        (open_dir 9 (codes "bin/") dirs open_file).1.0
        (open_dir 9 (codes "bin/") dirs open_file).1.1)
    ≡ 7 ∷ 0 ∷ []
unfolding open_dir dir_slot_alloc set_ctx first
close-open_dir_example = close-open_dir 9 (codes "bin/") dirs open_file (omega arith) refl
