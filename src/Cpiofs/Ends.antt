-- ===== src/Cpiofs/Ends.antt =====
-- taskman/path/cpiofs.c: the scan of the archive ends.
use native.Mathlib.Nat.{mul_assoc, pow-le-pow_right, pow-succ'}
use lq.Base.{
  ℕ, zero, suc, ◌+◌, ◌*◌, ◌%◌, ◌^◌, ◌≤◌, ◌<◌, ◌≡◌, refl, sym, ap, subst, ◌∙◌, true, Option, none,
  some, List, [], ◌∷◌, arith, ltb, length, take, c_string, w32, w64, sub64, Bool-cases, inl, inr,
}
use lq.Devtree.Walk.{same_string}
use lq.Cpiofs.Scan.{
  Layout, Archive, Entry, hex_digit, hex_from, hex8, bytes_at, end_of, field, name_at, next_at,
  is_entry, scan_from,
}

hex_digit-lt : (c : ℕ) → hex_digit c < 16
hex_digit-lt c = ground arith

hex_from-lt : (cs : List ℕ) (v b : ℕ) → v < b → hex_from v cs < b * 16 ^ length cs
unfolding hex_from
hex_from-lt [] v b h = omega arith
hex_from-lt (c ∷ cs) v b h =
    subst (λ n. hex_from (v * 16 % w64 + hex_digit c) cs < n)
      (mul_assoc b 16 (16 ^ length cs) ∙ ap (λ n. b * n) (sym (pow-succ' 16 (length cs))))
      (hex_from-lt cs (v * 16 % w64 + hex_digit c) (b * 16) (omega (arith, hex_digit-lt c)))

length-take-le : (n : ℕ) (xs : List ℕ) → length (take n xs) ≤ n
length-take-le zero xs = omega arith
length-take-le (suc n) [] = omega arith
length-take-le (suc n) (x ∷ xs) = omega (arith, length-take-le n xs)

hex8-lt : (cs : List ℕ) → hex8 cs < w32
hex8-lt cs =
    let p : 16 ^ length (take 8 cs) ≤ 16 ^ 8 =
      pow-le-pow_right (omega arith) (length-take-le 8 cs) in
    omega (arith, hex_from-lt (take 8 cs) 0 1 (omega arith), p)

module _ (layout : Layout) (ar : Archive) where
  next_at-lt : (p : ℕ) → 0 < layout.size → layout.size < w32 → p < 2 ^ 63 → p < next_at layout ar p
  next_at-lt p h k l = omega (
    arith,
    hex8-lt (bytes_at ar (p + layout.namesize) 8),
    hex8-lt (bytes_at ar (p + layout.filesize) 8),
  )

  entry_inside : (p : ℕ) → is_entry layout ar p ≡ true → next_at layout ar p ≤ end_of layout ar
  unfolding is_entry
  entry_inside p h = ground (arith, h)

  -- The scan of an archive that ends before 2^63, from a place in it on, ends, whatever its bytes are:
  -- as many turns as there are bytes behind the place, and one more, are enough. The header has a size,
  -- below 2^32.
  pub scan_from_ends :
      (fuel : ℕ) (name : List ℕ) (p : ℕ)
      → 0 < layout.size
      → layout.size < w32
      → end_of layout ar < 2 ^ 63
      → p ≤ end_of layout ar
      → end_of layout ar ≤ p + fuel
      → (r : Option Entry) × (scan_from layout ar (suc fuel) name p ≡ some r)
  unfolding scan_from
  scan_from_ends zero name p h k l i e =
      let t : ltb (sub64 (end_of layout ar) p) layout.size ≡ true = ground arith in
      rw t (none, refl)
  scan_from_ends (suc fuel) name p h k l i e =
      elim (Bool-cases (ltb (sub64 (end_of layout ar) p) layout.size)) [
        | inl t ↦ rw t (none, refl)
        | inr t ↦ elim (Bool-cases (is_entry layout ar p)) [
          | inr n ↦ rw (t, n) (none, refl)
          | inl n ↦
              elim (Bool-cases (
                same_string
                  (c_string (bytes_at ar (name_at layout ar p) (field layout ar p layout.namesize)))
                  name)) [
                    | inl m ↦ rw (t, n, m) (_, refl)
                    | inr m ↦
                        let inside : p < end_of layout ar = ground arith in
                        rw (t, n, m)
                          (scan_from_ends fuel name (next_at layout ar p) h k l (entry_inside p n)
                            (omega (arith, e, next_at-lt p h k (omega arith))))
                  ]
        ]
      ]
