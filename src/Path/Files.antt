-- ===== src/Path/Files.antt =====
-- taskman/path/io.c: the requests that name a file by its path.
use lq.Base.{
  ℕ, ◌||◌, none, some, Option, List, leb, ◌==◌, if◌then◌else◌, length, drop, take, c_string,
  bit_and, ok, err, Status, einval, enoent, eisdir, erofs, eperm, enosys, Result, value, fail,
}
use lq.Cpiofs.Scan.{lookup}
use lq.Cpiofs.Dir.{skip_slashes}
use lq.Path.Io.{
  Handler, Names, Stores, console, null, zero_device, cpiofs, pmdir, sysfs, procfs, external,
}

-- What `tm_cpio_find_file` of <tm_cpio.h> answers: the mode and the data of an entry.
pub record FileInfo : Type 0 where
  pub mode : ℕ
  pub bytes : List ℕ

module _ (names : Names) (st : Stores) where
  -- `tm_cpiofs_probe`
  unfoldable pub probe : List ℕ → Status
  probe name =
      if length name == 0
      then err enoent
      else elim (lookup st.layout st.archive name) [ none ↦ err enoent | some e ↦ ok ]

  -- What an unlink of a resolved path answers, `name` being the path within the archive.
  unfoldable pub unlink_of : Handler → List ℕ → Status
  unlink_of cpiofs name =
      if length name == 0
      then err eisdir
      else elim (probe name) [ err e ↦ err enoent | ok ↦ err erofs ]
  unlink_of console name = err eperm
  unlink_of null name = err eperm
  unlink_of zero_device name = err eperm
  unlink_of pmdir name = err enosys
  unlink_of sysfs name = err enosys
  unlink_of procfs name = err enosys
  unlink_of external name = err enosys

  unfoldable pub access_of : Handler → List ℕ → Status
  access_of cpiofs name = if length name == 0 then ok else probe name
  access_of console name = ok
  access_of null name = ok
  access_of zero_device name = ok
  access_of pmdir name = ok
  access_of sysfs name = ok
  access_of procfs name = ok
  access_of external name = ok

  -- A path in the IPC buffer, of which `path_len` bytes are read, and what is done with it.
  abbrev pub resolved : (Handler → List ℕ → Status) → ℕ → List ℕ → Status
  resolved f path_len src =
      let path = c_string (take path_len src) in
      if path_len == 0 || leb 128 path_len then err einval else elim (names.resolve path) [
        | fail e ↦ err e
        | value target ↦ f target.handler (skip_slashes (drop target.consumed path))
      ]

  -- `tm_unlink` and `tm_access`
  unfoldable pub unlink : ℕ → List ℕ → Status
  unlink = resolved unlink_of

  unfoldable pub access : ℕ → List ℕ → Status
  access = resolved access_of

-- `tm_readlink` once the archive is set, with tm_cpio_find_file and the two masks of <tm_cpio.h> as
-- parameters.
module _ (find_file : List ℕ → Option FileInfo) (ifmt iflnk : ℕ) where
  unfoldable pub readlink : ℕ → List ℕ → Result (List ℕ)
  readlink path_len src =
      let name = skip_slashes (c_string (take path_len src)) in
      if path_len == 0 || leb 128 path_len
      then fail einval
      else if length name == 0
      then fail einval
      else elim (find_file name) [
        | none ↦ fail enoent
        | some info ↦
            if bit_and info.mode ifmt == iflnk then value (take 127 info.bytes) else fail einval
      ]
