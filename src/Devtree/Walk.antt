-- ===== src/Devtree/Walk.antt =====
-- taskman/sys/fdt.c: the header, the tokens of the structure block and the walks over them.
use lq.Base.{
  ℕ, zero, suc, ◌+◌, ◌-◌, ◌*◌, ◌/◌, ◌%◌, ◌^◌, Bool, true, false, ◌&&◌, ◌||◌, Option, none, some,
  List, [], ◌∷◌, ltb, leb, ◌==◌, if◌then◌else◌, length, get_or, take, drop, be_value, c_string, w32,
}

-- FDT_BEGIN_NODE to FDT_END.
abbrev pub begin_node : ℕ
begin_node = 1

abbrev pub end_node : ℕ
end_node = 2

abbrev pub property : ℕ
property = 3

abbrev pub nop : ℕ
nop = 4

abbrev pub magic : ℕ
magic = 0xd00dfeed

-- The names of one C string each; `s_eq` and the test of a component of a path against a name.
unfoldable pub same_string : List ℕ → List ℕ → Bool
same_string [] [] = true
same_string [] (b ∷ bs) = false
same_string (a ∷ xs) [] = false
same_string (a ∷ xs) (b ∷ bs) = a == b && same_string xs bs

-- `s_eqn`, whether it answers 0; past its end a string has its NUL.
unfoldable pub s_eqn : List ℕ → List ℕ → ℕ → Bool
s_eqn a b zero = true
s_eqn a b (suc n) =
    let x = get_or a 0 0 in
    let rest = s_eqn (drop 1 a) (drop 1 b) n in
    if x == get_or b 0 0 then (if x == 0 then true else rest) else false

abbrev pub align4 : ℕ → ℕ
align4 x = (x + 3) % w32 / 4 * 4

-- A sum as an `int` offset; a negative one ends the walks.
unfoldable pub to_int : ℕ → Option ℕ
to_int n = if ltb (n % w32) (2 ^ 31) then some (n % w32) else none

-- What a walk comes to: its turns do not suffice, it stands at a token that is not within the blob, of
-- which the code reads what is in memory there, or it ends with what it looked for or nothing.
pub data Walked {ℓ} (A : Type ℓ) : Type ℓ where
  unfinished : Walked A
  left : Walked A
  ended : Option A → Walked A

-- `be32` of the word at a place within the blob.
abbrev pub word : List ℕ → ℕ → ℕ
word blob i = be_value (take 4 (drop i blob))

-- `tm_fdt_check`, whether it answers 0.
unfoldable pub check : List ℕ → Bool
check blob = word blob 0 == magic && leb (word blob 24) 17

module _ (blob : List ℕ) where
  -- `fdt_struct_base` and `fdt_strings_base`.
  abbrev pub struct_base : ℕ
  struct_base = word blob 8

  abbrev pub strings_base : ℕ
  strings_base = word blob 12

  -- The token at an offset in the structure block.
  unfoldable pub token : ℕ → ℕ
  token off = word blob (struct_base + off)

  abbrev pub node_name : ℕ → List ℕ
  node_name off = c_string (drop (struct_base + off + 4) blob)

  -- `step_token`; `none` is a negative answer.
  unfoldable pub step_token : ℕ → Option ℕ
  step_token off =
      let tok = token off in
      if tok == begin_node
      then to_int (off + 4 + align4 (length (node_name off) + 1))
      else if tok == end_node || tok == nop
      then to_int (off + 4)
      else if tok == property
      then to_int (off + 12 + align4 (token (off + 4)))
      else none

  -- The depth after the token at an offset.
  abbrev pub depth_after : ℕ → ℕ → ℕ
  depth_after off depth =
      if token off == begin_node
      then depth + 1
      else if token off == end_node
      then depth - 1
      else depth

  -- Whether the token at an offset is not within the blob.
  abbrev pub outside : ℕ → Bool
  outside off = ltb (length blob) (struct_base + off + 4)

  -- A walk over the tokens of a node from `off` on: what `found` answers first for the offset and the
  -- depth, or nothing where the node ends.
  unfoldable pub walk {ℓ} : {A : Type ℓ} → (ℕ → ℕ → Option A) → ℕ → ℕ → ℕ → Walked A
  walk found zero depth off = unfinished
  walk {A = A} found (suc fuel) depth off =
      let ends = (token off == end_node) && (depth == 1) in
      let next : Walked A = elim (step_token off) [
        | none ↦ ended none
        | some off' ↦ walk found fuel (depth_after off depth) off'
      ] in
      let here : Walked A = elim (found depth off) [
        | some a ↦ ended (some a)
        | none ↦ if ends then ended none else next
      ] in
      if outside off then left else here

  -- What `find_child_node` looks for.
  abbrev pub is_child : List ℕ → ℕ → ℕ → Option ℕ
  is_child comp depth off =
      let name = node_name off in
      let next = get_or name (length comp) 0 in
      if token off == begin_node
        && (depth == 1 && (s_eqn name comp (length comp) && (next == 0 || next == b'@')))
      then some off
      else none

  -- What `tm_fdt_prop` looks for: the place of the value in the blob, and its length.
  abbrev pub is_prop : List ℕ → ℕ → ℕ → Option (ℕ × ℕ)
  is_prop name depth off =
      let pname = c_string (drop (strings_base + token (off + 8)) blob) in
      if token off == property && (depth == 1 && same_string pname name)
      then some (struct_base + off + 12, token (off + 4))
      else none

  -- Both walks start behind the token of the node.
  unfoldable pub walk_node {ℓ} : {A : Type ℓ} → (ℕ → ℕ → Option A) → ℕ → Walked A
  walk_node found node = if outside node then left else elim (step_token node) [
    | none ↦ ended none
    | some off ↦ walk found (suc (length blob)) 1 off
  ]

  unfoldable pub find_child_node : List ℕ → ℕ → Walked ℕ
  find_child_node comp node = walk_node (is_child comp) node

  unfoldable pub find_prop : List ℕ → ℕ → Walked (ℕ × ℕ)
  find_prop name node = walk_node (is_prop name) node
