-- ===== src/Synth/Tests.antt =====
-- taskman/path/sysfs.c, procfs.c: a tree with one file, and a table of three processes.
use lq.Base.{
  ℕ, ◌≡◌, ◌≤◌, ◌<◌, ◌⊎◌, refl, true, false, none, some, List, [], ◌∷◌, arith, codes, get_elem?,
  eisdir, err,
}
use lq.Chan.State.{Registry, first}
use lq.Chan.Connect.{get_ctx}
use lq.Chan.Sample.{channel, connection}
use lq.Proc.State.{Process}
use lq.Synth.Sysfs.{Tree, file, sysfs_read}
use lq.Synth.Procfs.{procfs_next, lowest_from}
use lq.Synth.Device.{console_write}
use lq.Proc.Sample.{blank}
use lq.Synth.Lowest.{Listed, procfs_next-lowest}
use lq.Synth.Reads.{sysfs_read_loop, sysfs_read_loop_all}

abbrev tree : Tree
tree = record {
  resolve = λ path. file 0;
  content = λ i. some (codes "QSOE/L");
  nentries = 1;
  entry_name = λ i. codes "osname";
}

-- The connection has read two bytes of the file 0.
abbrev reading : Registry
reading = record {
  channels = channel ∷ [];
  connections = record connection { ctx0 = 1; ctx1 = 2 } ∷ [];
}

sysfs_read_loop_all_example : sysfs_read_loop tree 7 9 3 reading ≡ some (codes "OE/L")
sysfs_read_loop_all_example =
    sysfs_read_loop_all tree 7 9 1 2 3 (codes "QSOE/L") reading (unfold get_ctx first in refl)
      (omega arith) refl (omega arith) (omega arith) (omega arith) (omega arith)

-- The directory is not read as a file.
read_directory :
    let r : Registry = record { channels = channel ∷ []; connections = connection ∷ [] } in
    sysfs_read tree 9 3 r ≡ some (err eisdir, ([], r))
unfolding sysfs_read get_ctx first
read_directory = refl

-- A write to the console is cut at the payload.
console_cut : (console_write 4000 (codes "ab")).0 ≡ 928
unfolding console_write
console_cut = refl

abbrev table : List Process
table =
    record blank { in_use = true; pid = 5 }
    ∷ record blank { in_use = false; pid = 3 }
    ∷ record blank { in_use = true; pid = 4 }
    ∷ []

procfs_next-lowest_example :
    ((procfs_next 3 table ≡ none)
      × ((i : ℕ) (p : Process) → get_elem? table i ≡ some p → p.in_use ≡ true → p.pid < 3))
    ⊎ ((o : ℕ) × (procfs_next 3 table ≡ some o)
        × Listed 3 o table
        × ((i : ℕ) (p : Process)
            → get_elem? table i ≡ some p
            → p.in_use ≡ true
            → 3 ≤ p.pid
            → o ≤ p.pid))
procfs_next-lowest_example = procfs_next-lowest 3 table

lowest : procfs_next 3 table ≡ some 4
unfolding lowest_from
lowest = refl
