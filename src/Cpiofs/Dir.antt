-- ===== src/Cpiofs/Dir.antt =====
-- taskman/path/cpiofs.c: open, close and stat, with the table of open directories.
use lq.Base.{
  ℕ, zero, suc, ◌+◌, ◌*◌, ◌/◌, ◌%◌, Bool, false, not, ◌&&◌, ◌||◌, Option, none, some, List, [], ◌∷◌,
  ◌++◌, ltb, leb, ◌==◌, if◌then◌else◌, length, get_elem?, set, drop, take, w32, Status, err, emfile,
  enametoolong, efbig, enoent, Result, value, fail,
}
use lq.Devtree.Walk.{same_string}
use lq.Chan.State.{Registry}
use lq.Chan.Connect.{set_ctx, get_ctx}
use lq.Cpiofs.Scan.{Layout, Archive, lookup}

-- An entry of `g_cpiofs_dirs`; a badge 0 marks a free one.
pub record Dir : Type 0 where
  pub badge : ℕ
  pub prefix : List ℕ
  pub next_idx : ℕ
  pub subdirs_seen : List (List ℕ)
  pub pm_phase : ℕ
  pub pm_next_idx : ℕ

abbrev pub opened : ℕ → List ℕ → Dir
opened badge prefix = record {
  badge = badge;
  prefix = prefix;
  next_idx = 0;
  subdirs_seen = [];
  pm_phase = 0;
  pm_next_idx = 0;
}

-- `dir_slot_alloc`, with the index of the entry.
unfoldable pub dir_slot_alloc : ℕ → List ℕ → List Dir → Result ℕ × List Dir
dir_slot_alloc badge prefix [] = (fail emfile, [])
dir_slot_alloc badge prefix (d ∷ ds) =
    let (found, rest) = dir_slot_alloc badge prefix ds in
    if d.badge == 0
    then (if leb 64 (length prefix)
        then (fail enametoolong, d ∷ ds)
        else (value 0, opened badge prefix ∷ ds))
    else (elim found [ fail e ↦ fail e | value i ↦ value (suc i) ], d ∷ rest)

-- What `cpio_info` and `cpio_get_entry` of <cpio.h> answer for the archive.
pub record Listing : Type 0 where
  pub file_count : Option ℕ
  pub entry_name : ℕ → Option (List ℕ)

-- The `n` entries from `i` on, one of which starts with the name and a slash.
unfoldable pub some_below : Listing → ℕ → ℕ → List ℕ → Bool
some_below listing zero i name = false
some_below listing (suc n) i name =
    elim (listing.entry_name i) [
      | none ↦ false
      | some s ↦ same_string (take (suc (length name)) s) (name ++ b'/' ∷ [])
    ]
    || some_below listing n (suc i) name

abbrev pub is_subdir : Listing → List ℕ → Bool
is_subdir listing name = elim listing.file_count [
  | none ↦ false
  | some n ↦ some_below listing n 0 name
]

-- A connection that becomes an open directory.
unfoldable pub open_dir : ℕ → List ℕ → List Dir → Registry → Status × (List Dir × Registry)
open_dir badge prefix dirs r =
    let (found, dirs') = dir_slot_alloc badge prefix dirs in
    elim found [
      | fail e ↦ (err e, (dirs', r))
      | value i ↦ let (status, r') = set_ctx badge 0 i r in (status, (dirs', r'))
    ]

unfoldable pub skip_slashes : List ℕ → List ℕ
skip_slashes [] = []
skip_slashes (c ∷ s) = let rest = skip_slashes s in if c == b'/' then rest else c ∷ s

module _ (layout : Layout) (ar : Archive) (listing : Listing) where
  -- `tm_cpiofs_open` once the archive is set, with a path that is not null.
  unfoldable pub open_path : List ℕ → ℕ → ℕ → List Dir → Registry → Status × (List Dir × Registry)
  open_path path consumed badge dirs r =
      let name = skip_slashes (drop consumed path) in
      if length name == 0 then open_dir badge [] dirs r else elim (lookup layout ar name) [
        | some e ↦
            let (status, r') = set_ctx badge e.place (e.size * w32) r in
            if leb w32 e.size then (err efbig, (dirs, r)) else (status, (dirs, r'))
        | none ↦
            if not (is_subdir listing name)
            then (err enoent, (dirs, r))
            else if ltb 64 (length name + 2)
            then (err enametoolong, (dirs, r))
            else open_dir badge (name ++ b'/' ∷ []) dirs r
      ]

-- `tm_cpiofs_close`, which never fails; an `int` below 0 is no index either.
unfoldable pub close : ℕ → List Dir → Registry → List Dir
close badge dirs r = elim (get_ctx badge r) [
  | none ↦ dirs
  | some (place, ctx1) ↦ elim (get_elem? dirs (ctx1 % w32)) [
    | none ↦ dirs
    | some d ↦
        if place == 0 && d.badge == badge
        then set dirs (ctx1 % w32) (record d { badge = 0 })
        else dirs
  ]
]

-- The fields of `tm_stat_t` but for st_uid, st_gid and the others that stay zero.
pub record Stat : Type 0 where
  pub st_dev : ℕ
  pub st_ino : ℕ
  pub st_mode : ℕ
  pub st_nlink : ℕ
  pub st_size : ℕ
  pub st_blksize : ℕ
  pub st_blocks : ℕ

module _ (ifdir ifreg : ℕ) where
  -- `tm_cpiofs_stat`. The bits of the file types are above those of the permissions.
  unfoldable pub stat : ℕ → Registry → Result Stat
  stat badge r = elim (get_ctx badge r) [
    | none ↦ fail enoent
    | some (place, packed) ↦
        let size = packed / w32 in
        value (
          if place == 0
          then (record {
            st_dev = 1;
            st_ino = (0x10000 + packed) % (w32 * w32);
            st_mode = ifdir + 0x16d;
            st_nlink = 2;
            st_size = 0;
            st_blksize = 512;
            st_blocks = 0;
          })
          else (record {
            st_dev = 1;
            st_ino = place;
            st_mode = ifreg + 0x16d;
            st_nlink = 1;
            st_size = size;
            st_blksize = 512;
            st_blocks = (size + 511) / 512;
          }))
  ]
