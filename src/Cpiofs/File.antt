-- ===== src/Cpiofs/File.antt =====
-- taskman/path/cpiofs.c: reading and seeking in an open file.
use lq.Base.{
  ℕ, zero, suc, ◌+◌, ◌-◌, ◌*◌, ◌/◌, ◌%◌, ◌^◌, ◌||◌, Option, none, some, List, [], ◌∷◌, ◌++◌, ltb,
  leb, ◌==◌, if◌then◌else◌, w32, add64, Status, ok, err, ebadf, einval, enoent, Result, value, fail,
}
use lq.Chan.State.{Registry}
use lq.Chan.Connect.{set_ctx, get_ctx}
use lq.Cpiofs.Scan.{Archive, bytes_at}

-- `offset | (size << 32)` of an open file, of which both are below 2^32.
abbrev pub pack : ℕ → ℕ → ℕ
pack off size = off % w32 + size * w32

-- TM_CPIOFS_MAX_CHUNK
abbrev pub max_chunk : ℕ
max_chunk = 928

abbrev pub chunk_of : ℕ → ℕ → ℕ
chunk_of want remaining =
    let chunk = if ltb max_chunk want then max_chunk else want in
    if ltb remaining chunk then remaining else chunk

-- `tm_cpiofs_read` of the file at `place`, from `off` on, with the bytes that go into the IPC buffer.
unfoldable pub read_file : Archive → ℕ → ℕ → ℕ → ℕ → ℕ → Registry → Status × (List ℕ × Registry)
read_file ar badge place off size want r =
    let chunk = chunk_of want (size - off) in
    let (status, r') = set_ctx badge place (pack (off + chunk) size) r in
    if place == 0
    then (err ebadf, ([], r))
    else if leb size off
    then (ok, ([], r))
    else elim status [ ok ↦ (ok, (bytes_at ar (place + off) chunk, r')) | err e ↦ (err e, ([], r)) ]

-- `tm_cpiofs_read` once the archive is set.
unfoldable pub read : Archive → ℕ → ℕ → Registry → Status × (List ℕ × Registry)
read ar badge want r = elim (get_ctx badge r) [
  | none ↦ (err enoent, ([], r))
  | some (place, packed) ↦ read_file ar badge place (packed % w32) (packed / w32) want r
]

-- A client that reads until it gets nothing, on fuel.
unfoldable pub read_loop : ℕ → Archive → ℕ → ℕ → Registry → Option (List ℕ)
read_loop zero ar badge want r = none
read_loop (suc fuel) ar badge want r =
    let (status, (bytes, r')) = read ar badge want r in
    let next = read_loop fuel ar badge want r' in
    elim status [
      | err e ↦ none
      | ok ↦ elim bytes [
        | [] ↦ some []
        | b ∷ bs ↦ elim next [ none ↦ none | some rest ↦ some ((b ∷ bs) ++ rest) ]
      ]
    ]

-- `tm_cpiofs_lseek`; the offset is the word that the `long` is in two's complement.
unfoldable pub lseek : ℕ → ℕ → ℕ → Registry → Result ℕ × Registry
lseek badge whence offset r = elim (get_ctx badge r) [
  | none ↦ (fail enoent, r)
  | some (place, packed) ↦
      let size = packed / w32 in
      let base = if whence == 0 then 0 else if whence == 1 then packed % w32 else size in
      let new_off = add64 base offset in
      let (status, r') = set_ctx badge place (pack new_off size) r in
      if place == 0
      then (fail ebadf, r)
      else if ltb 2 whence || (leb (2 ^ 63) new_off || leb w32 new_off)
      then (fail einval, r)
      else elim status [ ok ↦ (value new_off, r') | err e ↦ (fail e, r) ]
]
