-- ===== src/Syscfg/RoundTrip.antt =====
-- taskman/sys/syscfg.c: what is emitted is found.
use lq.Base.{
  ℕ, zero, suc, ◌+◌, ◌*◌, ◌/◌, ◌%◌, ◌≤◌, ◌<◌, ◌≡◌, refl, sym, ap, ◌∙◌, true, false, Option, none,
  some, List, [], ◌∷◌, ◌++◌, arith, ltb, ◌==◌, if◌then◌else◌, length, le_bytes, length-append,
  take_append, drop_append, append_assoc, append-nil, Bool-cases, inl, inr, ◌⊎◌, codes, w16,
  length-le_bytes,
}
use lq.Syscfg.Blob.{
  Tag, Abi, Config, encode, emit, emit_or_skip, emit_all, u32_tag, find_from, find,
}
use lq.Syscfg.Build.{Fdt, body_tags, end_tag, build}

abbrev pub encode_all : List Tag → List ℕ
encode_all [] = []
encode_all (t ∷ ts) = encode t ++ encode_all ts

-- The tags that still find room in a blob of `n` bytes.
abbrev pub fits : ℕ → ℕ → List Tag → List Tag
fits max n [] = []
fits max n (t ∷ ts) =
    let skipped = fits max n ts in
    let kept = t ∷ fits max (n + 4 + length t.payload) ts in
    if ltb max (n + 4 + length t.payload) then skipped else kept

-- The payload of the first tag `id` before the end.
abbrev pub find_tag : ℕ → ℕ → List Tag → Option (List ℕ)
find_tag tag_end id [] = none
find_tag tag_end id (t ∷ ts) =
    let next = find_tag tag_end id ts in
    if t.id % w16 == tag_end then none else if t.id % w16 == id then some t.payload else next

abbrev pub AllSmall : List Tag → Type 0
AllSmall [] = Unit
AllSmall (t ∷ ts) = (length t.payload < w16) × AllSmall ts

length-encode : (t : Tag) → length (encode t) ≡ 4 + length t.payload
length-encode t = omega arith

encode_all-append : (ts us : List Tag) → encode_all (ts ++ us) ≡ encode_all ts ++ encode_all us
encode_all-append [] us = refl
encode_all-append (t ∷ ts) us =
    ap (λ bs. encode t ++ bs) (encode_all-append ts us)
    ∙ sym (append_assoc (encode t) (encode_all ts) (encode_all us))

AllSmall-append : (ts us : List Tag) → AllSmall ts → AllSmall us → AllSmall (ts ++ us)
AllSmall-append [] us h k = k
AllSmall-append (t ∷ ts) us h k = (h.0, AllSmall-append ts us h.1 k)

emit_or_skip-full :
    (max : ℕ) (t : Tag) (blob : List ℕ)
    → ltb max (length blob + 4 + length t.payload) ≡ true
    → emit_or_skip max t blob ≡ blob
unfolding emit_or_skip emit
emit_or_skip-full max t blob full = rw (emit_or_skip, full) refl

emit_or_skip-room :
    (max : ℕ) (t : Tag) (blob : List ℕ)
    → ltb max (length blob + 4 + length t.payload) ≡ false
    → emit_or_skip max t blob ≡ blob ++ encode t
unfolding emit_or_skip emit
emit_or_skip-room max t blob room = rw (emit_or_skip, room) refl

emit_all-fits :
    (max : ℕ) (ts : List Tag) (blob : List ℕ)
    → emit_all max ts blob ≡ blob ++ encode_all (fits max (length blob) ts)
unfolding emit_all
emit_all-fits max [] blob = sym (append-nil blob)
emit_all-fits max (t ∷ ts) blob = elim (Bool-cases (ltb max (length blob + 4 + length t.payload))) [
  | inl full ↦ rw (full, emit_or_skip-full max t blob full) (emit_all-fits max ts blob)
  | inr room ↦
      rw (room, emit_or_skip-room max t blob room)
        (emit_all-fits max ts (blob ++ encode t)
          ∙ append_assoc blob (encode t) (encode_all (fits max (length (blob ++ encode t)) ts))
          ∙ ap (λ n. blob ++ (encode t ++ encode_all (fits max n ts)))
              (omega (arith, length-append blob (encode t))))
]

fits-AllSmall : (max n : ℕ) (ts : List Tag) → max < w16 → AllSmall (fits max n ts)
fits-AllSmall max n [] h = tt
fits-AllSmall max n (t ∷ ts) h = elim (Bool-cases (ltb max (n + 4 + length t.payload))) [
  | inl full ↦ rw full (fits-AllSmall max n ts h)
  | inr room ↦ rw room (ground arith, fits-AllSmall max (n + 4 + length t.payload) ts h)
]

two_bytes : (n : ℕ) → n % 256 + 256 * (n / 256 % 256) ≡ n % w16
two_bytes n = omega arith

small_rem : {n : ℕ} → n < w16 → n % w16 ≡ n
small_rem h = omega arith

find_from-encode_all :
    (fuel tag_end id : ℕ) (ts : List Tag)
    → length ts < fuel
    → AllSmall ts
    → find_from fuel tag_end id (encode_all ts) ≡ find_tag tag_end id ts
unfolding find_from
find_from-encode_all zero tag_end id ts h s = absurd (omega arith)
find_from-encode_all (suc fuel) tag_end id [] h s = refl
find_from-encode_all (suc fuel) tag_end id (t ∷ ts) h s =
    rw
      (
        two_bytes t.id,
        two_bytes (length t.payload),
        small_rem s.0,
        take_append t.payload (encode_all ts),
        drop_append t.payload (encode_all ts),
        find_from-encode_all fuel tag_end id ts (omega arith) s.1,
      )
      refl

length-encode_all : (ts : List Tag) → 4 * length ts ≤ length (encode_all ts)
length-encode_all [] = omega arith
length-encode_all (t ∷ ts) =
    omega (arith, length-append t.payload (encode_all ts), length-encode_all ts)

find-encode_all :
    (tag_end id : ℕ) (t : Tag) (ts : List Tag)
    → AllSmall (t ∷ ts)
    → find_from (length (encode_all (t ∷ ts))) tag_end id (encode_all (t ∷ ts))
      ≡ find_tag tag_end id (t ∷ ts)
find-encode_all tag_end id t ts s =
    find_from-encode_all (length (encode_all (t ∷ ts))) tag_end id (t ∷ ts)
      (omega (arith, length-encode_all (t ∷ ts))) s

emit-cases :
    (max : ℕ) (t : Tag) (blob : List ℕ)
    → (emit max t blob ≡ none) ⊎ (emit max t blob ≡ some (blob ++ encode t))
unfolding emit
emit-cases max t blob = elim (Bool-cases (ltb max (length blob + 4 + length t.payload))) [
  | inl full ↦ rw full (inl refl)
  | inr room ↦ rw room (inr refl)
]

module _ (abi : Abi) (fdt : Fdt) (root : ℕ) where
  abbrev pub version_tag : Tag
  version_tag = u32_tag abi.tag_version abi.version

  -- The tags of a finished blob.
  abbrev pub kept_tags : List Tag
  kept_tags = version_tag ∷ (fits abi.max 8 (body_tags abi fdt root) ++ end_tag abi ∷ [])

  kept_blob :
      (emit_all abi.max (body_tags abi fdt root) (encode version_tag)) ++ encode (end_tag abi)
      ≡ encode_all kept_tags
  unfolding le_bytes
  kept_blob = rw (emit_all-fits abi.max (body_tags abi fdt root) (encode version_tag)) (
      ap (λ bs. encode version_tag ++ bs)
        (sym (encode_all-append (fits abi.max 8 (body_tags abi fdt root)) (end_tag abi ∷ []))))

  build-blob :
      (cfg : Config)
      → fdt.path (codes "/") ≡ some root
      → (build abi fdt cfg).0 ≡ true
      → (build abi fdt cfg).1 ≡ record { blob = encode_all kept_tags; ready = true }
  unfolding build
  build-blob cfg h ok = elim (Bool-cases fdt.is_valid) [
    | inr v ↦ absurd (ground (arith, rw (build, v) at ok))
    | inl v ↦ elim (emit-cases abi.max version_tag []) [
      | inl e ↦ absurd (ground (arith, rw (build, v, h, e) at ok))
      | inr e ↦
          elim (emit-cases abi.max (end_tag abi)
            (emit_all abi.max (body_tags abi fdt root) (encode version_tag))) [
              | inl f ↦ absurd (ground (arith, rw (build, v, h, e, f) at ok))
              | inr f ↦ simp (build, v, h, e, f, kept_blob)
            ]
    ]
  ]

kept_tags-AllSmall :
    (abi : Abi) (fdt : Fdt) (root : ℕ) → abi.max < w16 → AllSmall (kept_tags abi fdt root)
kept_tags-AllSmall abi fdt root small = (
  rw (length-le_bytes 4 abi.version) (omega arith),
  AllSmall-append (fits abi.max 8 (body_tags abi fdt root)) (end_tag abi ∷ [])
      (fits-AllSmall abi.max 8 (body_tags abi fdt root) small) (omega arith, tt),
)

-- A `tm_syscfg_build` that answers 0 leaves a blob in which `tm_syscfg_find` finds, for every tag id,
-- the payload of the first tag of that id that it emitted: the version, then those of the device tree's
-- tags that had room, then the end. A tag of the device tree that overflows the buffer is left out, the
-- next ones are still tried and the build still answers 0, where the header promises -1. Payload
-- lengths are read back whole because the limit of the blob is below 2^16 bytes.
pub find-build :
    (abi : Abi) (fdt : Fdt) (root : ℕ) (cfg : Config) (id : ℕ)
    → abi.max < w16
    → fdt.path (codes "/") ≡ some root
    → (build abi fdt cfg).0 ≡ true
    → find abi id (build abi fdt cfg).1 ≡ find_tag abi.tag_end id (kept_tags abi fdt root)
unfolding find
find-build abi fdt root cfg id small h ok = rw (build-blob abi fdt root cfg h ok) (
    find-encode_all abi.tag_end id (version_tag abi fdt root)
      (fits abi.max 8 (body_tags abi fdt root) ++ end_tag abi ∷ [])
      (kept_tags-AllSmall abi fdt root small))
