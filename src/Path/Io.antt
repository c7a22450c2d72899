-- ===== src/Path/Io.antt =====
-- taskman/path/io.c: open, close, read, write and seek, over the servers inside the task manager.
use lq.Base.{
  ℕ, Bool, true, false, ◌&&◌, ◌||◌, none, some, Option, List, [], leb, ◌==◌, if◌then◌else◌, take,
  c_string, ok, err, Status, einval, ebadf, erofs, enosys, espipe, Result, value, fail,
}
use lq.Chan.State.{Channel, Registry, channel_by_badge}
use lq.Cpiofs.Scan.{Layout, Archive}
use lq.Cpiofs.Dir.{Dir, Listing, open_path, close as cpiofs_close}
use lq.Cpiofs.File.{read as cpiofs_read, lseek as cpiofs_lseek}
use lq.Pmdir.Table.{Slot, open_slot, close as pmdir_close}
use lq.Synth.Sysfs.{Tree, open_node, sysfs_read, sysfs_lseek}
use lq.Synth.Procfs.{ProcTree, procfs_open, procfs_read, procfs_lseek}
use lq.Synth.Device.{console_write, console_read, sink_write, devnull_read, devzero_read}
use lq.Proc.State.{System, Kernel, Abi}
use lq.Proc.Channels.{connect_attach, connect_detach}
use lq.Proc.Info.{badge_by_slot}

-- The kinds of servers that a path can lead to, `PATHMGR_HANDLER_*` of <tm_pathmgr.h>.
pub data Handler : Type 0 where
  console null zero_device cpiofs pmdir sysfs procfs external : Handler

-- What `tm_pathmgr_resolve` fills in, with the bytes of the path that it consumed.
pub record Target : Type 0 where
  pub server_pid : ℕ
  pub server_chid : ℕ
  pub handler : Handler
  pub consumed : ℕ

-- The path manager of <tm_pathmgr.h>: the links of its tree, the links of the archive, and the
-- server of a path.
pub record Names : Type 0 where
  pub expand_symlink : List ℕ → Option (List ℕ)
  pub expand_symlink_cpio : List ℕ → Option (List ℕ)
  pub resolve : List ℕ → Result Target

-- The store of the archive and the trees that the servers show.
pub record Stores : Type 0 where
  pub layout : Layout
  pub archive : Archive
  pub listing : Listing
  pub sys : Tree
  pub proc : ProcTree

-- The system with the two tables of open directories.
pub record Io (K : Type 0) : Type 0 where
  pub system : System K
  pub dirs : List Dir
  pub slots : List Slot

-- What an open answers: the slot, whether libc has to send _IO_CONNECT, and the path after a link.
pub record Opened : Type 0 where
  pub slot : ℕ
  pub is_external : Bool
  pub rewritten : Option (List ℕ)

-- TM_CONSOLE_CHID to TM_PROCFS_CHID
abbrev pub console_chid : ℕ
console_chid = 2

abbrev pub cpiofs_chid : ℕ
cpiofs_chid = 3

abbrev pub devnull_chid : ℕ
devnull_chid = 4

abbrev pub devzero_chid : ℕ
devzero_chid = 5

abbrev pub pmdir_chid : ℕ
pmdir_chid = 6

abbrev pub sysfs_chid : ℕ
sysfs_chid = 7

abbrev pub procfs_chid : ℕ
procfs_chid = 8

abbrev pub is_external_handler : Handler → Bool
is_external_handler external = true
is_external_handler console = false
is_external_handler null = false
is_external_handler zero_device = false
is_external_handler cpiofs = false
is_external_handler pmdir = false
is_external_handler sysfs = false
is_external_handler procfs = false

-- The link that `tm_io_open` follows, one level only.
abbrev pub link_of : Names → List ℕ → Option (List ℕ)
link_of names path = elim (names.expand_symlink path) [
  | some eff ↦ some eff
  | none ↦ names.expand_symlink_cpio path
]

abbrev pub effective : List ℕ → Option (List ℕ) → List ℕ
effective path none = path
effective path (some eff) = eff

module _ {K : Type 0} where
  abbrev pub with_context : Io K → Status × Registry → Status × Io K
  with_context io (status, r) = (status, record io { system = record (io.system) { registry = r } })

  -- The state that a server keeps for a new connection. The path is the one before the link.
  unfoldable pub server_open : Stores → Handler → List ℕ → ℕ → ℕ → Io K → Status × Io K
  server_open st cpiofs path consumed badge io =
      let (status, (dirs, r)) =
        open_path st.layout st.archive st.listing path consumed badge io.dirs io.system.registry in
      (status, record io { system = record (io.system) { registry = r }; dirs = dirs })
  server_open st pmdir path consumed badge io =
      let (status, (slots, r)) = open_slot path badge io.slots io.system.registry in
      (status, record io { system = record (io.system) { registry = r }; slots = slots })
  server_open st sysfs path consumed badge io =
      with_context io (open_node st.sys path badge io.system.registry)
  server_open st procfs path consumed badge io =
      with_context io (procfs_open st.proc path badge io.system.registry)
  server_open st console path consumed badge io = (ok, io)
  server_open st null path consumed badge io = (ok, io)
  server_open st zero_device path consumed badge io = (ok, io)
  server_open st external path consumed badge io = (ok, io)

module _ {K : Type 0} (kernel : Kernel K) (abi : Abi) (names : Names) (st : Stores) where
  -- The end of an open: where the server refuses, the connection goes again.
  unfoldable pub finish_open : ℕ → Opened → Status × Io K → Result Opened × Io K
  finish_open caller o (ok, io) = (value o, io)
  finish_open caller o (err e, io) =
      (fail e, record io { system = (connect_detach kernel abi caller o.slot io.system).1 })

  -- After the attach.
  unfoldable pub enter_server :
      ℕ → List ℕ → Target → Option (List ℕ) → ℕ → Io K → Result Opened × Io K
  enter_server caller path target link slot io =
      let o : Opened = record {
        slot = slot;
        is_external = is_external_handler target.handler;
        rewritten = link;
      } in
      elim (badge_by_slot caller slot io.system.registry) [
        | none ↦ (value o, io)
        | some badge ↦
            finish_open caller o (server_open st target.handler path target.consumed badge io)
      ]

  abbrev pub attached :
      ℕ
      → List ℕ
      → Target
      → Option (List ℕ)
      → Io K
      → Result (ℕ × ℕ) × System K
      → Result Opened × Io K
  attached caller path target link io (fail e, s) = (fail e, record io { system = s })
  attached caller path target link io (value (slot, ntfn), s) =
      enter_server caller path target link slot (record io { system = s })

  -- `tm_io_open` with the path in the IPC buffer, of which `path_len` bytes are read.
  unfoldable pub io_open : ℕ → ℕ → List ℕ → Io K → Result Opened × Io K
  io_open caller path_len src io =
      let path = c_string (take path_len src) in
      let link = link_of names path in
      if path_len == 0 || leb 128 path_len
      then (fail einval, io)
      else elim (names.resolve (effective path link)) [
        | fail e ↦ (fail e, io)
        | value target ↦
            attached caller path target link io
              (connect_attach kernel abi caller target.server_pid target.server_chid 0 io.system)
      ]

  -- Whether a channel is the one of a server inside the task manager.
  abbrev pub serves : ℕ → Channel → Bool
  serves chid c = c.owner_pid == abi.taskman && c.owner_chid == chid

  -- `tm_io_close`
  unfoldable pub io_close : ℕ → Io K → Status × Io K
  io_close badge io = elim (channel_by_badge badge io.system.registry) [
    | none ↦ (err ebadf, io)
    | some c ↦
        if serves cpiofs_chid c
        then (ok, record io { dirs = cpiofs_close badge io.dirs io.system.registry })
        else if serves pmdir_chid c
        then (ok, record io { slots = pmdir_close badge io.system.registry io.slots })
        else (ok, io)
  ]

  -- `tm_io_write`: the count, and the bytes that go to the console.
  unfoldable pub io_write : ℕ → ℕ → List ℕ → Io K → Result (ℕ × List ℕ)
  io_write badge bytes payload io = elim (channel_by_badge badge io.system.registry) [
    | none ↦ fail ebadf
    | some c ↦
        if serves console_chid c
        then value (console_write bytes payload)
        else if serves devnull_chid c || serves devzero_chid c
        then value (sink_write bytes, [])
        else if serves cpiofs_chid c
        then fail erofs
        else fail enosys
  ]

  -- A read that moves the context of its connection.
  abbrev pub moved : Io K → Status × (List ℕ × Registry) → Result (List ℕ) × Io K
  moved io (ok, (bytes, r)) =
      (value bytes, record io { system = record (io.system) { registry = r } })
  moved io (err e, (bytes, r)) =
      (fail e, record io { system = record (io.system) { registry = r } })

  abbrev pub moved_if :
      Io K → Option (Status × (List ℕ × Registry)) → Option (Result (List ℕ) × Io K)
  moved_if io none = none
  moved_if io (some out) = some (moved io out)

  -- `tm_io_read`; `none` where a server writes on behind the IPC buffer.
  unfoldable pub io_read : ℕ → ℕ → Io K → Option (Result (List ℕ) × Io K)
  io_read badge want io = elim (channel_by_badge badge io.system.registry) [
    | none ↦ some (fail ebadf, io)
    | some c ↦
        if serves console_chid c
        then some (console_read want, io)
        else if serves devnull_chid c
        then some (devnull_read want, io)
        else if serves devzero_chid c
        then some (devzero_read want, io)
        else if serves cpiofs_chid c
        then some (moved io (cpiofs_read st.archive badge want io.system.registry))
        else if serves sysfs_chid c
        then moved_if io (sysfs_read st.sys badge want io.system.registry)
        else if serves procfs_chid c
        then moved_if io (procfs_read st.proc badge want io.system.registry)
        else some (fail enosys, io)
  ]

  abbrev pub sought : Io K → Result ℕ × Registry → Result ℕ × Io K
  sought io (answer, r) = (answer, record io { system = record (io.system) { registry = r } })

  -- `tm_lseek`
  unfoldable pub io_lseek : ℕ → ℕ → ℕ → Io K → Result ℕ × Io K
  io_lseek badge whence offset io = elim (channel_by_badge badge io.system.registry) [
    | none ↦ (fail ebadf, io)
    | some c ↦
        if serves console_chid c
        then (fail espipe, io)
        else if serves cpiofs_chid c
        then sought io (cpiofs_lseek badge whence offset io.system.registry)
        else if serves sysfs_chid c
        then sought io (sysfs_lseek st.sys badge whence offset io.system.registry)
        else if serves procfs_chid c
        then sought io (procfs_lseek st.proc badge whence offset io.system.registry)
        else (fail espipe, io)
  ]
