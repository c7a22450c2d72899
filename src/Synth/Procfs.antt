-- ===== src/Synth/Procfs.antt =====
-- taskman/path/procfs.c
use lq.Base.{
  ℕ, ◌+◌, ◌/◌, ◌%◌, ◌*◌, Bool, true, not, none, some, Option, List, [], ◌∷◌, leb, ltb, ◌==◌, ◌&&◌,
  if◌then◌else◌, length, w32, ok, err, Status, enoent, ebadf, eisdir, enotdir, Result, value, fail,
}
use lq.Chan.State.{Registry, first}
use lq.Chan.Connect.{set_ctx, get_ctx}
use lq.Cpiofs.Dir.{Stat}
use lq.Proc.State.{Process, exit_zombie, is_process}
use lq.Synth.Sysfs.{serve, seek}

-- What `lq_procfs_get` tells of a process but for its name: the pid, that of the parent, and
-- whether it is a zombie.
unfoldable pub procfs_get : ℕ → List Process → Option (ℕ × (ℕ × Bool))
procfs_get pid ps = elim (first (is_process pid) ps) [
  | none ↦ none
  | some (i, p) ↦ some (p.pid, (p.parent_pid, leb exit_zombie p.exit_state))
]

-- The loop of `lq_procfs_next`: the lowest pid in use from `from` on, and `best` before.
unfoldable pub lowest_from : ℕ → Option ℕ → List Process → Option ℕ
lowest_from from best [] = best
lowest_from from best (p ∷ ps) =
    let better : Bool = elim best [ none ↦ true | some b ↦ ltb p.pid b ] in
    lowest_from from (if p.in_use && (leb from p.pid && better) then some p.pid else best) ps

-- `lq_procfs_next` from a pid that is not negative.
abbrev pub procfs_next : ℕ → List Process → Option ℕ
procfs_next from ps = lowest_from from none ps

-- What `tm_procfs_resolve` of <tm_procfs.h> answers for a path.
pub data Place : Type 0 where
  nowhere : Place
  top : Place
  piddir : ℕ → Place
  info : ℕ → Place

-- The tree of <tm_procfs.h> over a table of processes: `tm_procfs_resolve`, `tm_procfs_info`,
-- `tm_procfs_readdir_root` with the next cursor, and `tm_procfs_readdir_piddir`.
pub record ProcTree : Type 0 where
  pub resolve : List ℕ → Place
  pub info_text : ℕ → List ℕ
  pub readdir_root : ℕ → Option (ℕ × (List ℕ × ℕ))
  pub readdir_piddir : ℕ → Option (List ℕ × ℕ)

-- `PK_ROOT`, `PK_PIDDIR`, `PK_INFO`
abbrev pub pk_root : ℕ
pk_root = 1

abbrev pub pk_piddir : ℕ
pk_piddir = 2

abbrev pub pk_info : ℕ
pk_info = 3

-- `pk_pack`, `pk_kind` and `pk_pid`, for pids that are not negative.
abbrev pub pk_pack : ℕ → ℕ → ℕ
pk_pack kind pid = kind * w32 + pid % w32

abbrev pub pk_kind : ℕ → ℕ
pk_kind c0 = c0 / w32 % w32

abbrev pub pk_pid : ℕ → ℕ
pk_pid c0 = c0 % w32

module _ (tree : ProcTree) where
  -- `tm_procfs_open`
  unfoldable pub procfs_open : List ℕ → ℕ → Registry → Status × Registry
  procfs_open path badge r = elim (tree.resolve path) [
    | nowhere ↦ (err enoent, r)
    | top ↦ set_ctx badge (pk_pack pk_root 0) 0 r
    | piddir pid ↦ set_ctx badge (pk_pack pk_piddir pid) 0 r
    | info pid ↦ set_ctx badge (pk_pack pk_info pid) 0 r
  ]

  -- `tm_procfs_read`
  unfoldable pub procfs_read : ℕ → ℕ → Registry → Option (Status × (List ℕ × Registry))
  procfs_read badge want r = elim (get_ctx badge r) [
    | none ↦ some (err ebadf, ([], r))
    | some (c0, c1) ↦
        if not (pk_kind c0 == pk_info)
        then some (err eisdir, ([], r))
        else serve badge c0 c1 want (tree.info_text (pk_pid c0)) r
  ]

  -- `tm_procfs_readdir`: the name and the type of the next entry.
  unfoldable pub procfs_readdir : ℕ → Registry → Result (List ℕ × ℕ) × Registry
  procfs_readdir badge r = elim (get_ctx badge r) [
    | none ↦ (fail ebadf, r)
    | some (c0, c1) ↦
        if pk_kind c0 == pk_info
        then (fail enotdir, r)
        else if pk_kind c0 == pk_root
        then elim (tree.readdir_root c1) [
          | none ↦ (fail enoent, r)
          | some (cursor, entry) ↦ entered entry (set_ctx badge c0 cursor r)
        ]
        else elim (tree.readdir_piddir c1) [
          | none ↦ (fail enoent, r)
          | some entry ↦ entered entry (set_ctx badge c0 (c1 + 1) r)
        ]
  ]
    where
      entered : List ℕ × ℕ → Status × Registry → Result (List ℕ × ℕ) × Registry
      entered entry (ok, r') = (value entry, r')
      entered entry (err e, r') = (fail e, r')

  -- `tm_procfs_fstat`
  unfoldable pub procfs_fstat : ℕ → ℕ → ℕ → Registry → Result Stat
  procfs_fstat ifdir ifreg badge r = elim (get_ctx badge r) [
    | none ↦ fail ebadf
    | some (c0, c1) ↦ value (
        if pk_kind c0 == pk_info
        then (record {
          st_dev = 2;
          st_ino = 1000 + pk_pid c0;
          st_mode = ifreg + 0x124;
          st_nlink = 1;
          st_size = length (tree.info_text (pk_pid c0));
          st_blksize = 4096;
          st_blocks = 0;
        })
        else (record {
          st_dev = 2;
          st_ino = if pk_kind c0 == pk_root then 99 else 1000 + pk_pid c0;
          st_mode = ifdir + 0x16d;
          st_nlink = 2;
          st_size = 0;
          st_blksize = 4096;
          st_blocks = 0;
        }))
  ]

  -- `tm_procfs_lseek`
  unfoldable pub procfs_lseek : ℕ → ℕ → ℕ → Registry → Result ℕ × Registry
  procfs_lseek badge whence offset r = elim (get_ctx badge r) [
    | none ↦ (fail ebadf, r)
    | some (c0, c1) ↦
        if not (pk_kind c0 == pk_info)
        then (fail eisdir, r)
        else seek badge c0 c1 (length (tree.info_text (pk_pid c0))) whence offset r
  ]
