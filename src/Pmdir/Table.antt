-- ===== src/Pmdir/Table.antt =====
-- taskman/path/pmdir.c: the directories of the tree of the path manager.
use lq.Base.{
  ℕ, zero, suc, Bool, ◌+◌, ◌%◌, ◌||◌, not, none, some, Option, List, [], ◌∷◌, leb, ◌==◌,
  if◌then◌else◌, length, get_elem?, set, w32, err, Status, enametoolong, enomem, enoent, enotdir,
  ebadf, Result, value, fail, Errno,
}
use lq.Chan.State.{Registry, first}
use lq.Chan.Connect.{set_ctx, get_ctx}

-- An entry of `g_slots`; a badge 0 marks a free one. A path is the bytes before its NUL.
pub record Slot : Type 0 where
  pub badge : ℕ
  pub next_idx : ℕ
  pub path : List ℕ

-- TM_PMDIR_PATH_MAX
abbrev pub path_max : ℕ
path_max = 64

abbrev pub is_free : Slot → Bool
is_free s = s.badge == 0

-- `tm_pmdir_open` of a path that is not null.
unfoldable pub open_slot : List ℕ → ℕ → List Slot → Registry → Status × (List Slot × Registry)
open_slot path badge slots r =
    if length path == 0 || leb path_max (length path)
    then (err enametoolong, (slots, r))
    else elim (first is_free slots) [
      | none ↦ (err enomem, (slots, r))
      | some (i, s) ↦
          let (status, r') = set_ctx badge 0 i r in
          (status, (set slots i (record { badge = badge; next_idx = 0; path = path }), r'))
    ]

-- The entry of an open directory. The index is an `int`; one below 0 is not in the table either.
unfoldable pub slot_of : ℕ → List Slot → Registry → Result (ℕ × Slot)
slot_of badge slots r = elim (get_ctx badge r) [
  | none ↦ fail enoent
  | some (place, ctx1) ↦
      if not (place == 0) then fail enotdir else elim (get_elem? slots (ctx1 % w32)) [
        | none ↦ fail ebadf
        | some s ↦ if s.badge == badge then value (ctx1 % w32, s) else fail ebadf
      ]
]

-- `tm_pathmgr_child_at` is the parameter: the name of a child of a directory.
module _ (child_at : List ℕ → ℕ → Result (List ℕ)) where
  -- `tm_pmdir_readdir`: the name of the next child.
  unfoldable pub readdir : ℕ → Registry → List Slot → Result (List ℕ) × List Slot
  readdir badge r slots = elim (slot_of badge slots r) [
    | fail e ↦ (fail e, slots)
    | value (i, s) ↦ elim (child_at s.path s.next_idx) [
      | fail e ↦ (fail e, slots)
      | value name ↦ (value name, set slots i (record s { next_idx = (s.next_idx + 1) % w32 }))
    ]
  ]

  -- A client that reads names until there is an error, on fuel: the names and the error.
  unfoldable pub list_names : ℕ → ℕ → Registry → List Slot → Option (List (List ℕ) × Errno)
  list_names zero badge r slots = none
  list_names (suc fuel) badge r slots =
      let (read, slots') = readdir badge r slots in
      let rest = list_names fuel badge r slots' in
      elim read [
        | fail e ↦ some ([], e)
        | value name ↦ elim rest [ none ↦ none | some (names, e) ↦ some (name ∷ names, e) ]
      ]

-- `tm_pmdir_close`, which never fails.
unfoldable pub close : ℕ → Registry → List Slot → List Slot
close badge r slots = elim (slot_of badge slots r) [
  | fail e ↦ slots
  | value (i, s) ↦ set slots i (record s { badge = 0 })
]
