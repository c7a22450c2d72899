-- ===== src/Path/Tests.antt =====
-- taskman/path/io.c: a path that leads to /sys, served by process 2.
use lq.Base.{ℕ, ◌≡◌, refl, none, [], codes, value, fail, einval}
use lq.Proc.Attached.{Linked}
use lq.Proc.Sample.{abi, kernel, system}
use lq.Proc.Roomy.{roomy}
use lq.Synth.Sysfs.{directory}
use lq.Synth.Procfs.{nowhere}
use lq.Path.Io.{Names, Stores, Io, sysfs, io_open}
use lq.Base.{err, eisdir, c_string}
use lq.Cpiofs.Dir.{skip_slashes}
use lq.Path.Io.{cpiofs}
use lq.Path.Files.{unlink, unlink_of}

abbrev names : Names
names = record {
  expand_symlink = λ path. none;
  expand_symlink_cpio = λ path. none;
  resolve =
      λ path. value (record { server_pid = 2; server_chid = 1; handler = sysfs; consumed = 4 });
}

abbrev in_archive : Names
in_archive = record names {
  resolve =
      λ path. value (record { server_pid = 1; server_chid = 3; handler = cpiofs; consumed = 1 });
}

abbrev stores : Stores
stores = record {
  layout = record { size = 32; mode = 6; filesize = 14; namesize = 22 };
  archive = record { start = 0x1000; bytes = [] };
  listing = record { file_count = none; entry_name = λ i. none };
  sys = record {
    resolve = λ path. directory;
    content = λ i. none;
    nentries = 1;
    entry_name = λ i. codes "board";
  };
  proc = record {
    resolve = λ path. nowhere;
    info_text = λ pid. [];
    readdir_root = λ cursor. none;
    readdir_piddir = λ cursor. none;
  };
}

abbrev idle : Io ℕ
idle = record { system = system roomy; dirs = []; slots = [] }

-- An empty path is refused.
no_path : io_open kernel abi names stores 3 0 (codes "/sys") idle ≡ (fail einval, idle)
unfolding io_open
no_path = refl

-- The archive is empty, so the root cannot be unlinked and nothing else is there.
root_stays : unlink in_archive stores 1 (codes "/") ≡ err eisdir
unfolding unlink unlink_of skip_slashes c_string
root_stays = refl
