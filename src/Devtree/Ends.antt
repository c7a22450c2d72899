-- ===== src/Devtree/Ends.antt =====
-- taskman/sys/fdt.c: where the walks end, and where they do not.
use lq.Base.{
  ℕ, false, zero, suc, ◌+◌, ◌-◌, ◌%◌, ◌^◌, ◌≤◌, ◌<◌, ◌≡◌, refl, ◌||◌, ◌&&◌, Option, none, some,
  List, [], ◌∷◌, arith, ltb, ◌==◌, ==_iff, length, drop, be_from, c_string, w32, Bool-cases,
  Option-cases, inl, inr, ◌⊎◌,
}
use lq.Devtree.Walk.{
  unfinished, ended, outside, begin_node, end_node, property, nop, align4, to_int, struct_base,
  token, node_name, step_token, depth_after, walk, walk_node, is_prop, is_child, find_child_node,
  find_prop,
}

-- The offsets of the tokens from the one of a node on.
pub data Passed (blob : List ℕ) (node : ℕ) : ℕ → Type 0 where
  start : Passed blob node node
  next :
      {off off' : ℕ}
      → Passed blob node off
      → step_token blob off ≡ some off'
      → Passed blob node off'

-- A blob of less than 1 GiB in which each token from that of the node on stands within the blob, and
-- no property is longer than the blob may be.
pub record Sane (blob : List ℕ) (node : ℕ) : Type 0 where
  pub size : length blob < 2 ^ 30
  pub inside : (off : ℕ) → Passed blob node off → struct_base blob + off + 4 ≤ length blob
  pub lengths :
      (off : ℕ) → Passed blob node off → token blob off ≡ property → token blob (off + 4) < 2 ^ 30

pub lt_or_ge : (a b : ℕ) → (a < b) ⊎ (b ≤ a)
lt_or_ge a b = elim (Bool-cases (ltb a b)) [
  | inl t ↦ inl (ground arith)
  | inr t ↦ inr (ground arith)
]

length-c_string : (s : List ℕ) → length (c_string s) ≤ length s
unfolding c_string
length-c_string [] = omega arith
length-c_string (c ∷ s) = elim (Bool-cases (c == 0)) [
  | inl t ↦ rw t (omega arith)
  | inr t ↦ rw t (omega (arith, length-c_string s))
]

length-drop-le {ℓ} : {A : Type ℓ} (n : ℕ) (xs : List A) → length (drop n xs) ≤ length xs
length-drop-le zero xs = omega arith
length-drop-le (suc n) [] = omega arith
length-drop-le (suc n) (x ∷ xs) = omega (arith, length-drop-le n xs)

drop_all {ℓ} : {A : Type ℓ} (n : ℕ) (xs : List A) → length xs ≤ n → drop n xs ≡ []
drop_all zero [] h = refl
drop_all zero (x ∷ xs) h = absurd (omega arith)
drop_all (suc n) [] h = refl
drop_all (suc n) (x ∷ xs) h = drop_all n xs (omega arith)

to_int-some : (n m : ℕ) → to_int n ≡ some m → m ≡ n % w32
unfolding to_int
to_int-some n m h = elim (Bool-cases (ltb (n % w32) (2 ^ 31))) [
  | inl t ↦ ground (arith, rw (to_int, t) at h)
  | inr t ↦ absurd (ground (arith, rw (to_int, t) at h))
]

module _ (blob : List ℕ) where
  length-name : (off : ℕ) → length (node_name blob off) ≤ length blob
  length-name off = omega (
    arith,
    length-c_string (drop (struct_base blob + off + 4) blob),
    length-drop-le (struct_base blob + off + 4) blob,
  )

  token_beyond : (off : ℕ) → length blob ≤ struct_base blob + off → token blob off ≡ 0
  unfolding token be_from
  token_beyond off h = rw (drop_all (struct_base blob + off) blob h) refl

  step_token_beyond : (off : ℕ) → length blob ≤ struct_base blob + off → step_token blob off ≡ none
  unfolding step_token
  step_token_beyond off h = rw (step_token, token_beyond off h) refl

  step_token-lt :
      (node off off' : ℕ)
      → Sane blob node
      → Passed blob node off
      → off < length blob
      → step_token blob off ≡ some off'
      → off < off'
  unfolding step_token
  step_token-lt node off off' s w l h = elim (Bool-cases (token blob off == begin_node)) [
    | inl t ↦
        let e : off' ≡ (off + 4 + align4 (length (node_name blob off) + 1)) % w32 =
          to_int-some _ off' (rw (step_token, t) at h) in
        omega (arith, e, s.size, length-name off)
    | inr t ↦ elim (Bool-cases (token blob off == end_node || token blob off == nop)) [
      | inl u ↦
          let e : off' ≡ (off + 4) % w32 = to_int-some _ off' (rw (step_token, t, u) at h) in
          omega (arith, e, s.size)
      | inr u ↦ elim (Bool-cases (token blob off == property)) [
        | inl p ↦
            let e : off' ≡ (off + 12 + align4 (token blob (off + 4))) % w32 =
              to_int-some _ off' (rw (step_token, t, u, p) at h) in
            omega (arith, e, s.size, s.lengths off w ((==_iff (token blob off) property).0 p))
        | inr p ↦ absurd (ground (arith, rw (step_token, t, u, p) at h))
      ]
    ]
  ]

  not_outside : (off : ℕ) → struct_base blob + off + 4 ≤ length blob → outside blob off ≡ false
  not_outside off h = ground arith

  -- The walk moves on with each token, and the tokens stand within the blob.
  walk_ends {ℓ} :
      {A : Type ℓ} (found : ℕ → ℕ → Option A) (fuel depth node off : ℕ)
      → Sane blob node
      → Passed blob node off
      → length blob ≤ struct_base blob + off + fuel
      → (r : Option A) × (walk blob found (suc fuel) depth off ≡ ended r)
  unfolding walk
  walk_ends found zero depth node off s w h = absurd (omega (arith, h, s.inside off w))
  walk_ends found (suc fuel) depth node off s w h =
      let within = not_outside off (s.inside off w) in
      elim (Option-cases (found depth off)) [
        | inr (a, q) ↦ rw (walk, within, q) (some a, refl)
        | inl q ↦ elim (Bool-cases (token blob off == end_node && depth == 1)) [
          | inl e ↦ rw (walk, within, q, e) (none, refl)
          | inr e ↦ elim (Option-cases (step_token blob off)) [
            | inl t ↦ rw (walk, within, q, e, t) (none, refl)
            | inr (off', t) ↦
                let more : off < off' =
                  step_token-lt node off off' s w (omega (arith, s.inside off w)) t in
                rw (walk, within, q, e, t)
                  (walk_ends found fuel (depth_after blob off depth) node off' s (next w t)
                    (omega arith))
          ]
        ]
      ]

  walk_node_ends {ℓ} :
      {A : Type ℓ} (found : ℕ → ℕ → Option A) (node : ℕ)
      → Sane blob node
      → (r : Option A) × (walk_node blob found node ≡ ended r)
  unfolding walk_node
  walk_node_ends found node s =
      let within = not_outside node (s.inside node start) in
      elim (Option-cases (step_token blob node)) [
        | inl t ↦ rw (walk_node, within, t) (none, refl)
        | inr (off, t) ↦
            rw (walk_node, within, t)
              (walk_ends found (length blob) 1 node off s (next start t) (omega arith))
      ]

  -- In a blob of less than 1 GiB in which all tokens from that of the node on stand within the blob and
  -- no property among them has a length of 1 GiB or more, the walks of `tm_fdt_prop` and of each step of
  -- `tm_fdt_path` end, whatever the tokens are, and never leave the blob: one turn more than the blob has
  -- bytes is enough.
  pub find_ends :
      (name : List ℕ) (node : ℕ)
      → Sane blob node
      → ((r : Option (ℕ × ℕ)) × (find_prop blob name node ≡ ended r))
        × ((r : Option ℕ) × (find_child_node blob name node ≡ ended r))
  unfolding find_prop find_child_node
  find_ends name node s =
      (walk_node_ends (is_prop blob name) node s, walk_node_ends (is_child blob name) node s)

  step_token_stays :
      (off : ℕ)
      → off < 2 ^ 31
      → token blob off ≡ property
      → token blob (off + 4) ≡ w32 - 12
      → step_token blob off ≡ some off
  unfolding step_token to_int
  step_token_stays off l t n =
      let e : (off + 12 + align4 (w32 - 12)) % w32 ≡ off = omega arith in
      rw (step_token, t, n, e) (ground arith)

  walk_stays {ℓ} :
      {A : Type ℓ} (found : ℕ → ℕ → Option A) (fuel depth off : ℕ)
      → outside blob off ≡ false
      → found depth off ≡ none
      → token blob off ≡ property
      → step_token blob off ≡ some off
      → walk blob found fuel depth off ≡ unfinished
  unfolding walk
  walk_stays found zero depth off i q t e = refl
  walk_stays found (suc fuel) depth off i q t e =
      rw (walk, i, q, e, t) (walk_stays found fuel depth off i q t e)

  -- A property whose length word is 2^32 - 12, at an offset below 2^31, that is not the one looked for
  -- holds the walk of `tm_fdt_prop` for ever: the offset stays, and no number of turns is enough.
  pub walk_stuck :
      (name : List ℕ) (fuel depth off : ℕ)
      → off < 2 ^ 31
      → token blob off ≡ property
      → token blob (off + 4) ≡ w32 - 12
      → is_prop blob name depth off ≡ none
      → walk blob (is_prop blob name) fuel depth off ≡ unfinished
  walk_stuck name fuel depth off l t n q =
      walk_stays (is_prop blob name) fuel depth off within q t (step_token_stays off l t n)
    where
      within : outside blob off ≡ false
      within = elim (lt_or_ge (struct_base blob + (off + 4)) (length blob)) [
        | inl i ↦ not_outside off (omega arith)
        | inr g ↦ absurd (omega (arith, n, token_beyond (off + 4) g))
      ]
