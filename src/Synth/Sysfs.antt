-- ===== src/Synth/Sysfs.antt =====
-- taskman/path/sysfs.c
use lq.Base.{
  ◌^◌, not, ℕ, ◌+◌, ◌-◌, ◌%◌, Bool, none, some, Option, List, [], leb, ltb, ◌==◌, if◌then◌else◌,
  ◌||◌, length, drop, take, w32, add64, ok, err, Status, enoent, ebadf, eisdir, enotdir, einval,
  Result, value, fail,
}
use lq.Chan.State.{Registry}
use lq.Chan.Connect.{set_ctx, get_ctx}
use lq.Cpiofs.Dir.{Stat}
use lq.Synth.Device.{max_payload}

-- What `tm_sysfs_resolve` of <tm_sysfs.h> answers for a path.
pub data Node : Type 0 where
  nothing : Node
  directory : Node
  file : ℕ → Node

-- The tree of <tm_sysfs.h>: `tm_sysfs_resolve`, `tm_sysfs_content`, `tm_sysfs_nentries` and
-- `tm_sysfs_entry_name`.
pub record Tree : Type 0 where
  pub resolve : List ℕ → Node
  pub content : ℕ → Option (List ℕ)
  pub nentries : ℕ
  pub entry_name : ℕ → List ℕ

-- The board and the command line that `tm_sysfs_populate` hands to tm_sysfs_init, with
-- `tm_syscfg_find` and the two ids of tags as arguments.
abbrev pub filled : Option (List ℕ) → Bool
filled none = Bool.false
filled (some bytes) = ltb 0 (length bytes)

unfoldable pub board : (ℕ → Option (List ℕ)) → ℕ → ℕ → Option (List ℕ)
board find compatible model = if filled (find compatible) then find compatible else find model

-- Bytes are handed out in the payload of the reply, and the context moves behind them; `none` where
-- they do not fit: the code writes on behind the IPC buffer, and what it does then is not modelled.
unfoldable pub serve : ℕ → ℕ → ℕ → ℕ → List ℕ → Registry → Option (Status × (List ℕ × Registry))
serve badge ctx0 pos want bytes r =
    let remain = length bytes - pos in
    let n = if ltb want remain then want else remain in
    let (status, r') = set_ctx badge ctx0 (pos + n) r in
    if ltb max_payload n then none else some (status, (take n (drop pos bytes), r'))

-- A position that is not negative is kept; a `long` is its word in two's complement.
unfoldable pub seek : ℕ → ℕ → ℕ → ℕ → ℕ → ℕ → Registry → Result ℕ × Registry
seek badge ctx0 ctx1 len whence offset r =
    let base = if whence == 0 then 0 else if whence == 1 then ctx1 else len in
    let newpos = add64 base offset in
    let (status, r') = set_ctx badge ctx0 newpos r in
    if ltb 2 whence || leb (2 ^ 63) newpos
    then (fail einval, r)
    else elim status [ ok ↦ (value newpos, r') | err e ↦ (fail e, r) ]

module _ (tree : Tree) where
  -- `tm_sysfs_open`
  unfoldable pub open_node : List ℕ → ℕ → Registry → Status × Registry
  open_node path badge r = elim (tree.resolve path) [
    | nothing ↦ (err enoent, r)
    | directory ↦ set_ctx badge 0 0 r
    | file i ↦ set_ctx badge ((i + 1) % w32) 0 r
  ]

  -- The content of the file that a connection stands in.
  abbrev pub content_of : ℕ → Option (List ℕ)
  content_of ctx0 = tree.content ((ctx0 - 1) % w32)

  abbrev pub size_of : ℕ → ℕ
  size_of ctx0 = elim (content_of ctx0) [ none ↦ 0 | some bytes ↦ length bytes ]

  -- `tm_sysfs_read`
  unfoldable pub sysfs_read : ℕ → ℕ → Registry → Option (Status × (List ℕ × Registry))
  sysfs_read badge want r = elim (get_ctx badge r) [
    | none ↦ some (err ebadf, ([], r))
    | some (ctx0, ctx1) ↦ if ctx0 == 0 then some (err eisdir, ([], r)) else elim (content_of ctx0) [
      | none ↦ some (err ebadf, ([], r))
      | some bytes ↦ serve badge ctx0 ctx1 want bytes r
    ]
  ]

  -- `tm_sysfs_readdir`: the name of the next entry.
  unfoldable pub sysfs_readdir : ℕ → Registry → Result (List ℕ) × Registry
  sysfs_readdir badge r = elim (get_ctx badge r) [
    | none ↦ (fail ebadf, r)
    | some (ctx0, ctx1) ↦
        let (status, r') = set_ctx badge 0 (ctx1 + 1) r in
        if not (ctx0 == 0)
        then (fail enotdir, r)
        else if leb tree.nentries ctx1
        then (fail enoent, r)
        else elim status [ ok ↦ (value (tree.entry_name (ctx1 % w32)), r') | err e ↦ (fail e, r) ]
  ]

  -- `tm_sysfs_fstat`
  unfoldable pub sysfs_fstat : ℕ → ℕ → ℕ → Registry → Result Stat
  sysfs_fstat ifdir ifreg badge r = elim (get_ctx badge r) [
    | none ↦ fail ebadf
    | some (ctx0, ctx1) ↦ value (
        if ctx0 == 0
        then (record {
          st_dev = 1;
          st_ino = 17;
          st_mode = ifdir + 0x16d;
          st_nlink = 2;
          st_size = 0;
          st_blksize = 4096;
          st_blocks = 0;
        })
        else (record {
          st_dev = 1;
          st_ino = add64 17 ctx0;
          st_mode = ifreg + 0x124;
          st_nlink = 1;
          st_size = size_of ctx0;
          st_blksize = 4096;
          st_blocks = 0;
        }))
  ]

  -- `tm_sysfs_lseek`
  unfoldable pub sysfs_lseek : ℕ → ℕ → ℕ → Registry → Result ℕ × Registry
  sysfs_lseek badge whence offset r = elim (get_ctx badge r) [
    | none ↦ (fail ebadf, r)
    | some (ctx0, ctx1) ↦
        if ctx0 == 0 then (fail eisdir, r) else seek badge ctx0 ctx1 (size_of ctx0) whence offset r
  ]
