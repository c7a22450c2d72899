-- ===== src/Cpiofs/Scan.antt =====
-- taskman/path/cpiofs.c: the scan of the archive and the lookup of a path.
use lq.Base.{
  ℕ, zero, suc, ◌+◌, ◌-◌, ◌*◌, ◌/◌, ◌%◌, ◌^◌, Bool, not, ◌&&◌, ◌||◌, Option, none, some, List, [],
  ◌∷◌, ◌++◌, ltb, leb, ◌==◌, if◌then◌else◌, length, take, drop, c_string, codes, w64, sub64,
}
use lq.Devtree.Walk.{same_string}

-- The layout of `struct cpio_header` of <cpio.h>: its size and where its fields begin.
pub record Layout : Type 0 where
  pub size : ℕ
  pub mode : ℕ
  pub filesize : ℕ
  pub namesize : ℕ

-- `s_cpio_start` and the bytes there, `s_cpio_len` of them.
pub record Archive : Type 0 where
  pub start : ℕ
  pub bytes : List ℕ

-- What `tm_cpio_scan` hands out; `place` is the address of its data.
pub record Entry : Type 0 where
  pub place : ℕ
  pub size : ℕ
  pub mode : ℕ

-- `TM_CPIO_ALIGN_UP(n, 4)`
abbrev pub align_up : ℕ → ℕ
align_up n = (n + 3) % w64 / 4 * 4

-- The loop of `tm_cpio_hex8`: a character that is no hexadecimal digit counts as 0.
abbrev pub hex_digit : ℕ → ℕ
hex_digit c =
    if leb b'0' c && leb c b'9'
    then c - b'0'
    else if leb b'a' c && leb c b'f'
    then c - b'a' + 10
    else if leb b'A' c && leb c b'F'
    then c - b'A' + 10
    else 0

unfoldable pub hex_from : ℕ → List ℕ → ℕ
hex_from v [] = v
hex_from v (c ∷ cs) = hex_from (v * 16 % w64 + hex_digit c) cs

abbrev pub hex8 : List ℕ → ℕ
hex8 cs = hex_from 0 (take 8 cs)

-- The `n` bytes at an address.
abbrev pub bytes_at : Archive → ℕ → ℕ → List ℕ
bytes_at ar a n = take n (drop (a - ar.start) ar.bytes)

module _ (layout : Layout) (ar : Archive) where
  abbrev pub end_of : ℕ
  end_of = ar.start + length ar.bytes

  abbrev pub field : ℕ → ℕ → ℕ
  field p at = hex8 (bytes_at ar (p + at) 8)

  abbrev pub name_at : ℕ → ℕ
  name_at p = p + layout.size

  abbrev pub data_at : ℕ → ℕ
  data_at p = align_up (name_at p + field p layout.namesize)

  abbrev pub next_at : ℕ → ℕ
  next_at p = align_up (data_at p + field p layout.filesize)

  -- The tests of the magic, of the trailer and of the end of the entry at `p`.
  unfoldable pub is_entry : ℕ → Bool
  is_entry p =
      same_string (bytes_at ar p 6) (codes "070701")
      && (not (
            leb 11 (field p layout.namesize)
            && same_string (bytes_at ar (name_at p) 8) (codes "TRAILER!"))
          && leb (next_at p) end_of)

  -- The loop of `tm_cpio_scan` at `p`; outside, `none` is a lack of fuel.
  unfoldable pub scan_from : ℕ → List ℕ → ℕ → Option (Option Entry)
  scan_from zero name p = none
  scan_from (suc fuel) name p =
      let next : Option (Option Entry) = scan_from fuel name (next_at p) in
      if ltb (sub64 end_of p) layout.size
      then some none
      else if not (is_entry p)
      then some none
      else if same_string (c_string (bytes_at ar (name_at p) (field p layout.namesize))) name
      then some (
          some (record {
            place = data_at p;
            size = field p layout.filesize;
            mode = field p layout.mode;
          }))
      else next

  -- `tm_cpio_scan`. The length of the archive bounds the turns of the loop.
  unfoldable pub scan : List ℕ → Option Entry
  scan name = elim (scan_from (suc (length ar.bytes)) name ar.start) [ none ↦ none | some r ↦ r ]

  abbrev pub is_link : Entry → Bool
  is_link e = e.mode / 2 ^ 12 % 16 == 10

  -- The name up to its last slash.
  unfoldable pub parent : List ℕ → List ℕ
  parent [] = []
  parent (c ∷ s) = let r = parent s in if leb 1 (length r) || c == b'/' then c ∷ r else []

  -- The path that a link stands for, if it fits in `resolved`.
  unfoldable pub resolve : List ℕ → List ℕ → Option (List ℕ)
  resolve name [] = none
  resolve name (c ∷ s) =
      let path = if c == b'/' then s else parent name ++ c ∷ s in
      if leb 128 (suc (length s)) || ltb 127 (length path) then none else some path

  -- `tm_cpio_lookup`
  unfoldable pub lookup : List ℕ → Option Entry
  lookup name = elim (scan name) [
    | none ↦ none
    | some e ↦
        if not (is_link e) then some e else elim (resolve name (bytes_at ar e.place e.size)) [
          | none ↦ none
          | some path ↦ elim (scan (c_string path)) [
            | none ↦ none
            | some f ↦ if is_link f then none else some f
          ]
        ]
  ]
