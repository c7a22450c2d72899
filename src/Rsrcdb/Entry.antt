-- ===== src/Rsrcdb/Entry.antt =====
-- taskman/sys/rsrcdb.c: the entries of the resource database and the walks over one class list.
-- A pointer `tm_rsrc_t *` is the `id` of its entry, the index in `s_pool`.
use lq.Base.{
  ℕ, ◌-◌, Bool, true, false, not, ◌&&◌, Option, none, some, List, [], ◌∷◌, ltb, ◌==◌, if◌then◌else◌,
  add64, and_not, bit_and, replicate,
}

-- The constants of <sys/rsrcdbmgr.h>.
pub record Abi : Type 0 where
  pub type_count : ℕ
  pub type_mask : ℕ
  pub flag_mask : ℕ
  pub flag_range : ℕ
  pub flag_align : ℕ
  pub flag_used : ℕ

-- `tm_rsrc_t`. The owner is 0 for a free range.
pub record Entry : Type 0 where
  pub id : ℕ
  pub start : ℕ
  pub end : ℕ
  pub owner : ℕ
  pub class : ℕ
  pub flags : ℕ
  pub name : List ℕ

-- `rsrc_request_t`, the fields that the code reads.
pub record Request : Type 0 where
  pub start : ℕ
  pub end : ℕ
  pub length : ℕ
  pub align : ℕ
  pub flags : ℕ

-- `rsrc_alloc_t`.
pub record Alloc : Type 0 where
  pub start : ℕ
  pub end : ℕ
  pub flags : ℕ

abbrev pub name_max : ℕ
name_max = 28

-- An entry as `pool_alloc` clears it.
abbrev pub blank : ℕ → Entry
blank i = record {
  id = i;
  start = 0;
  end = 0;
  owner = 0;
  class = 0;
  flags = 0;
  name = replicate name_max 0;
}

abbrev pub has_flag : ℕ → ℕ → Bool
has_flag flags f = not (bit_and flags f == 0)

abbrev pub is_free : Entry → Bool
is_free e = e.owner == 0

abbrev pub is_range : Entry → ℕ → ℕ → Bool
is_range e s t = e.start == s && e.end == t

-- The position that keeps the list sorted by start.
unfoldable pub insert_sorted : Entry → List Entry → List Entry
insert_sorted e [] = e ∷ []
insert_sorted e (x ∷ xs) = if ltb x.start e.start then x ∷ insert_sorted e xs else e ∷ x ∷ xs

unfoldable pub remove_id : ℕ → List Entry → List Entry
remove_id i [] = []
remove_id i (x ∷ xs) = if x.id == i then xs else x ∷ remove_id i xs

-- A write through the pointer `i`.
unfoldable pub modify : ℕ → (Entry → Entry) → List Entry → List Entry
modify i f [] = []
modify i f (x ∷ xs) = if x.id == i then f x ∷ xs else x ∷ modify i f xs

-- The first entry that passes a test.
unfoldable pub find : (Entry → Bool) → List Entry → Option Entry
find p [] = none
find p (x ∷ xs) = if p x then some x else find p xs

-- `(lo + align - 1) & ~(align - 1)`, the sum in 64 bits.
unfoldable pub align_up : ℕ → ℕ → ℕ
align_up lo align = if ltb 1 align then and_not (add64 lo (align - 1)) (align - 1) else lo

abbrev pub span : Request → ℕ
span r = if r.length == 0 then 0 else r.length - 1

module _ (abi : Abi) where
  abbrev pub align_of : Request → ℕ
  align_of r =
      let a = if has_flag r.flags abi.flag_align then r.align else 1 in if a == 0 then 1 else a

  abbrev pub fit_lo : Request → Entry → ℕ
  fit_lo r e = if has_flag r.flags abi.flag_range && ltb e.start r.start then r.start else e.start

  abbrev pub fit_hi : Request → Entry → ℕ
  fit_hi r e = if has_flag r.flags abi.flag_range && ltb r.end e.end then r.end else e.end

  -- One round of the loop of `find_fit`.
  unfoldable pub fit : Request → Entry → Option (ℕ × ℕ)
  fit r e =
      let lo = align_up (fit_lo r e) (align_of r) in
      let granted_end = add64 lo (span r) in
      if not (is_free e)
      then none
      else if ltb (fit_hi r e) (fit_lo r e)
      then none
      else if ltb granted_end lo
      then none
      else if ltb (fit_hi r e) granted_end
      then none
      else some (lo, granted_end)

  unfoldable pub find_fit : Request → List Entry → Option (Entry × ℕ × ℕ)
  find_fit r [] = none
  find_fit r (e ∷ es) = elim (fit r e) [ some (gs, ge) ↦ some (e, gs, ge) | none ↦ find_fit r es ]

-- The class list after `merge_neighbours`, and the pointers that it gave to `pool_free`, last first.
abbrev pub Merged : Type 0
Merged = List Entry × List ℕ

-- `e` takes in the free entry that follows it without a gap.
unfoldable pub merge_right : Entry → List Entry → Merged
merge_right e [] = (e ∷ [], [])
merge_right e (r ∷ rs) =
    if is_free r && r.start == add64 e.end 1
    then (record e { end = r.end } ∷ rs, r.id ∷ [])
    else (e ∷ r ∷ rs, [])

-- The free entry `prev` takes in `e`, the head of the list.
unfoldable pub merge_left : Entry → Merged → Merged
merge_left prev ([], freed) = (prev ∷ [], freed)
merge_left prev (e ∷ rest, freed) =
    if is_free prev && add64 prev.end 1 == e.start
    then (record prev { end = e.end } ∷ rest, e.id ∷ freed)
    else (prev ∷ e ∷ rest, freed)

abbrev pub keep_head : Entry → Merged → Merged
keep_head x (xs, freed) = (x ∷ xs, freed)

unfoldable pub merge_after : ℕ → Entry → List Entry → Merged
merge_after i prev [] = (prev ∷ [], [])
merge_after i prev (x ∷ xs) = elim (x.id == i) [
  | true ↦ merge_left prev (merge_right x xs)
  | false ↦ keep_head prev (merge_after i x xs)
]

-- The entry `i` of a class list with its free neighbours; the callers pass an entry of the list.
unfoldable pub merge_list : ℕ → List Entry → Merged
merge_list i [] = ([], [])
merge_list i (x ∷ xs) = if x.id == i then merge_right x xs else merge_after i x xs
