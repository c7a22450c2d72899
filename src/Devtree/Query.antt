-- ===== src/Devtree/Query.antt =====
-- taskman/sys/fdt.c: the queries, and the record of them that taskman/sys/syscfg.c asks.
use lq.Base.{
  ℕ, zero, suc, ◌+◌, ◌-◌, ◌*◌, ◌%◌, Bool, true, false, ◌&&◌, ◌||◌, Option, none, some, List, [],
  ◌∷◌, ltb, ◌==◌, if◌then◌else◌, length, drop, be_value, c_string, codes, w32, w64,
}
use lq.Devtree.Walk.{
  Walked, unfinished, left, ended, outside, begin_node, end_node, nop, same_string, check, token,
  step_token, find_child_node, find_prop,
}
use lq.Syscfg.Build.{Fdt, slice}

-- The bytes of a component of a path, up to the next slash, and the path behind it.
unfoldable pub component : List ℕ → List ℕ × List ℕ
component [] = ([], [])
component (c ∷ p) = let r = component p in if c == b'/' then ([], c ∷ p) else (c ∷ r.0, r.1)

-- `if (*p == '/') ++p`
unfoldable pub skip_slash : List ℕ → List ℕ
skip_slash [] = []
skip_slash (c ∷ p) = if c == b'/' then p else c ∷ p

-- What the queries answer: a walk that does not end, or that leaves the blob, counts as a failure.
abbrev pub answer {ℓ} : {A : Type ℓ} → Walked A → Option A
answer unfinished = none
answer left = none
answer (ended a) = a

module _ (blob : List ℕ) where
  -- The first token that is no NOP, from `off` on; the end of the blob stops the search, and there is
  -- no root then.
  unfoldable pub skip_nops : ℕ → ℕ → ℕ
  skip_nops zero off = off
  skip_nops (suc fuel) off =
      let rest = skip_nops fuel (off + 4) in if token blob off == nop then rest else off

  -- The root: the first token, which has to open a node.
  unfoldable pub root : Option ℕ
  root =
      let off = skip_nops (length blob) 0 in if token blob off == begin_node then some off else none

  -- The loop of `tm_fdt_path` over the components. Each turn takes a byte of the path at least.
  unfoldable pub path_from : ℕ → List ℕ → ℕ → Option ℕ
  path_from zero p node = some node
  path_from (suc fuel) p node =
      let (comp, rest) = component p in
      let next : Option ℕ = elim (answer (find_child_node blob comp node)) [
        | none ↦ none
        | some child ↦ path_from fuel (skip_slash rest) child
      ] in
      elim p [ [] ↦ some node | c ∷ cs ↦ next ]

  -- `tm_fdt_path`
  unfoldable pub path : List ℕ → Option ℕ
  path p =
      if check blob
      then elim p [
        | [] ↦ none
        | c ∷ cs ↦
            if c == b'/'
            then elim root [ none ↦ none | some node ↦ path_from (length cs) cs node ]
            else none
      ]
      else none

  -- `tm_fdt_prop`: the place and the length of the value.
  unfoldable pub prop : ℕ → List ℕ → Option (ℕ × ℕ)
  prop node name = if check blob then answer (find_prop blob name node) else none

  abbrev pub value_at : ℕ × ℕ → List ℕ
  value_at r = slice r.0 r.1 blob

  -- `tm_fdt_prop_u32`, and `tm_fdt_prop_u64` for `size` 8.
  unfoldable pub prop_word : ℕ → ℕ → List ℕ → Option ℕ
  prop_word size node name = elim (prop node name) [
    | none ↦ none
    | some r ↦ if r.1 == size then some (be_value (value_at r)) else none
  ]

  -- `tm_fdt_prop_str`: a NUL has to stand within the value.
  unfoldable pub prop_str : ℕ → List ℕ → Option (List ℕ)
  prop_str node name = elim (prop node name) [
    | none ↦ none
    | some r ↦
        let s = c_string (value_at r) in
        if ltb (length s) (length (value_at r)) then some s else none
  ]

  -- The loop of `tm_fdt_compatible` over the strings of a value, of which `len` bytes are left at
  -- `place`. Each turn takes a byte at least.
  unfoldable pub has_string : ℕ → ℕ → ℕ → List ℕ → Bool
  has_string zero place len compat = false
  has_string (suc fuel) place len compat =
      let n = length (c_string (slice place len blob)) + 1 in
      let rest = has_string fuel (place + n) (len - n) compat in
      if len == 0
      then false
      else if same_string (c_string (drop place blob)) compat
      then true
      else rest

  abbrev pub is_compatible : List ℕ → ℕ → Bool
  is_compatible compat node = elim (prop node (codes "compatible")) [
    | none ↦ false
    | some r ↦ has_string r.1 r.0 r.1 compat
  ]

  -- The loop of `tm_fdt_compatible` over all nodes.
  unfoldable pub compatible_from : ℕ → List ℕ → ℕ → ℕ → Walked ℕ
  compatible_from zero compat depth off = unfinished
  compatible_from (suc fuel) compat depth off =
      let opens = token blob off == begin_node in
      let closes = token blob off == end_node in
      let depth' = if opens then depth + 1 else if closes then depth - 1 else depth in
      let next : Walked ℕ = elim (step_token blob off) [
        | none ↦ ended none
        | some off' ↦ compatible_from fuel compat depth' off'
      ] in
      if outside blob off
      then left
      else if opens && is_compatible compat off
      then ended (some off)
      else if closes && depth' == 0
      then ended none
      else next

  -- `tm_fdt_compatible`
  unfoldable pub compatible : List ℕ → Option ℕ
  compatible compat =
      if check blob
      then elim root [
        | none ↦ none
        | some off ↦ answer (compatible_from (suc (length blob)) compat 0 off)
      ]
      else none

  -- `tm_fdt_reg`
  unfoldable pub reg : ℕ → ℕ → ℕ → ℕ → Option (ℕ × ℕ)
  reg node addr_cells size_cells idx = elim (prop node (codes "reg")) [
    | none ↦ none
    | some r ↦
        let tuple_bytes = (addr_cells + size_cells) * 4 in
        let at = r.0 + idx * tuple_bytes in
        let base = be_value (slice at (addr_cells * 4) blob) % w64 in
        let size = be_value (slice (at + addr_cells * 4) (size_cells * 4) blob) % w64 in
        if tuple_bytes == 0 || ltb r.1 ((idx + 1) * tuple_bytes % w32)
        then none
        else some (base, size)
  ]

  -- What taskman/sys/syscfg.c asks, for this blob.
  abbrev pub fdt : Fdt
  fdt = record {
    is_valid = check blob;
    path = path;
    prop = λ node name. elim (prop node name) [ none ↦ none | some r ↦ some (value_at r) ];
    prop_str = prop_str;
    prop_u32 = prop_word 4;
    compatible = compatible;
    reg = reg;
  }
