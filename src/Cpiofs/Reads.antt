-- ===== src/Cpiofs/Reads.antt =====
-- taskman/path/cpiofs.c: a client that reads a file to its end.
use lq.Base.{
  ℕ, zero, suc, ◌+◌, ◌-◌, ◌/◌, ◌%◌, ◌≤◌, ◌<◌, ◌≡◌, ◌≢◌, refl, sym, ap, subst, ◌∙◌, true, false,
  some, List, [], ◌∷◌, ◌++◌, arith, leb, unequal, length, drop, take, take-nil, w32, ok,
  Option-cases, List-cases, eq_or_ne, inl, inr,
}
use lq.Chan.State.{Registry, connection_find_by_badge}
use lq.Chan.Connect.{set_ctx, get_ctx}
use lq.Chan.Attach.{get_ctx-set_ctx}
use lq.Cpiofs.Scan.{Archive, bytes_at}
use lq.Cpiofs.File.{pack, chunk_of, read_file, read, read_loop}

pub take-split {ℓ} :
    {A : Type ℓ} (m n : ℕ) (xs : List A) → take m xs ++ take n (drop m xs) ≡ take (m + n) xs
take-split zero n xs = ap (λ k. take k xs) (omega arith)
take-split {A = A} (suc m) n [] = take-nil A n ∙ sym (take-nil A (suc m + n))
take-split (suc m) n (x ∷ xs) =
    ap (λ ys. x ∷ ys) (take-split m n xs)
    ∙ (let e : suc (m + n) ≡ suc m + n = omega arith in ap (λ k. take k (x ∷ xs)) e)

pub length-take_le {ℓ} :
    {A : Type ℓ} (n : ℕ) (xs : List A) → (n ≤ length xs) → length (take n xs) ≡ n
length-take_le zero xs h = refl
length-take_le (suc n) [] h = absurd (omega arith)
length-take_le (suc n) (x ∷ xs) h = ap suc (length-take_le n xs (omega arith))

pub length-drop {ℓ} : {A : Type ℓ} (n : ℕ) (xs : List A) → length (drop n xs) ≡ length xs - n
length-drop zero xs = omega arith
length-drop (suc n) [] = omega arith
length-drop (suc n) (x ∷ xs) = omega (arith, length-drop n xs)

drop-nil {ℓ} : (A : Type ℓ) (n : ℕ) → drop {A = A} n [] ≡ []
drop-nil A zero = refl
drop-nil A (suc n) = refl

pub drop-drop {ℓ} : {A : Type ℓ} (m n : ℕ) (xs : List A) → drop n (drop m xs) ≡ drop (m + n) xs
drop-drop zero n xs = ap (λ k. drop k xs) (omega arith)
drop-drop {A = A} (suc m) n [] = drop-nil A n ∙ sym (drop-nil A (suc m + n))
drop-drop (suc m) n (x ∷ xs) =
    drop-drop m n xs
    ∙ (let e : suc (m + n) ≡ suc m + n = omega arith in ap (λ k. drop k (x ∷ xs)) e)

pub set_ctx-get_ctx :
    (badge c0 c1 : ℕ) (r : Registry) (c : ℕ × ℕ)
    → get_ctx badge r ≡ some c
    → (set_ctx badge c0 c1 r).0 ≡ ok
unfolding set_ctx get_ctx
set_ctx-get_ctx badge c0 c1 r c h = elim (Option-cases (connection_find_by_badge badge r)) [
  | inl q ↦ absurd (ground (arith, rw (get_ctx, q) at h))
  | inr (x, q) ↦ rw (set_ctx, q) refl
]

-- A file of the archive, at its place and with its size.
pub record Stored (ar : Archive) (place size : ℕ) : Type 0 where
  pub somewhere : place ≢ 0
  pub begins : ar.start ≤ place
  pub ends : place + size ≤ ar.start + length ar.bytes
  pub size_fits : size < w32

-- The connection stands at `off` in the file.
abbrev pub At : ℕ → ℕ → ℕ → ℕ → Registry → Type 0
At badge place size off r = get_ctx badge r ≡ some (place, pack off size)

unpack_off : (off size : ℕ) → off < w32 → pack off size % w32 ≡ off
unpack_off off size h = omega arith

unpack_size : (off size : ℕ) → pack off size / w32 ≡ size
unpack_size off size = omega arith

read-read_file :
    (ar : Archive) (badge place size off want : ℕ) (r : Registry)
    → At badge place size off r
    → off < w32
    → read ar badge want r ≡ read_file ar badge place off size want r
unfolding read
read-read_file ar badge place size off want r h l =
    rw (read, h)
      (ap (λ o. read_file ar badge place o (pack off size / w32) want r) (unpack_off off size l)
        ∙ ap (λ z. read_file ar badge place off z want r) (unpack_size off size))

-- One read before the end hands out the next bytes and moves the offset behind them.
read_next :
    (ar : Archive) (badge place size off want : ℕ) (r : Registry)
    → Stored ar place size
    → At badge place size off r
    → off < size
    → let chunk = chunk_of want (size - off) in
      (r' : Registry) × (read ar badge want r ≡ (ok, (bytes_at ar (place + off) chunk, r')))
      × At badge place size (off + chunk) r'
unfolding read_file
read_next ar badge place size off want r s h l =
    let good =
      set_ctx-get_ctx badge place (pack (off + chunk_of want (size - off)) size) r
        (place, pack off size) h in
    let more : leb size off ≡ false = ground arith in
    (
      _,
      read-read_file ar badge place size off want r h (omega (arith, s.size_fits))
          ∙ simp (read_file, unequal place 0 s.somewhere, more, good),
      get_ctx-set_ctx badge place (pack (off + chunk_of want (size - off)) size) r good,
    )

-- At the end a read hands out nothing.
read_end :
    (ar : Archive) (badge place size want : ℕ) (r : Registry)
    → Stored ar place size
    → At badge place size size r
    → read ar badge want r ≡ (ok, ([], r))
unfolding read_file
read_end ar badge place size want r s h =
    let done : leb size size ≡ true = ground arith in
    read-read_file ar badge place size size want r h s.size_fits
    ∙ rw (read_file, unequal place 0 s.somewhere, done) refl

bytes_split :
    (ar : Archive) (place size off chunk : ℕ)
    → Stored ar place size
    → off + chunk ≤ size
    → bytes_at ar (place + off) chunk ++ bytes_at ar (place + (off + chunk)) (size - (off + chunk))
      ≡ bytes_at ar (place + off) (size - off)
bytes_split ar place size off chunk s h =
    let xs = drop (place + off - ar.start) ar.bytes in
    ap (λ ys. take chunk xs ++ take (size - (off + chunk)) ys)
      (ap (λ k. drop k ar.bytes) (omega (arith, s.begins))
        ∙ sym (drop-drop (place + off - ar.start) chunk ar.bytes))
    ∙ take-split chunk (size - (off + chunk)) xs
    ∙ ap (λ k. take k xs) (omega arith)

bytes_some :
    (ar : Archive) (place size off chunk : ℕ)
    → Stored ar place size
    → off + chunk ≤ size
    → 0 < chunk
    → (b : ℕ) × (bs : List ℕ) × (bytes_at ar (place + off) chunk ≡ b ∷ bs)
bytes_some ar place size off chunk s h c =
    let xs = take chunk (drop (place + off - ar.start) ar.bytes) in
    elim (List-cases xs) [
      | inr q ↦ q
      | inl e ↦ absurd (
          omega (
            arith,
            ap length e,
            length-take_le chunk (drop (place + off - ar.start) ar.bytes)
                (omega (arith, length-drop (place + off - ar.start) ar.bytes, s.ends, s.begins)),
            length-drop (place + off - ar.start) ar.bytes,
            s.ends,
            s.begins,
          ))
    ]

chunk_of-lt : (want n : ℕ) → 0 < want → 0 < n → (0 < chunk_of want n) × (chunk_of want n ≤ n)
chunk_of-lt want n w h = (ground arith, ground arith)

read_loop_next :
    (fuel : ℕ) (ar : Archive) (badge want b : ℕ) (bs rest : List ℕ) (r r' : Registry)
    → read ar badge want r ≡ (ok, (b ∷ bs, r'))
    → read_loop fuel ar badge want r' ≡ some rest
    → read_loop (suc fuel) ar badge want r ≡ some ((b ∷ bs) ++ rest)
unfolding read_loop
read_loop_next fuel ar badge want b bs rest r r' q h = simp (read_loop, q, h)

read_loop_end :
    (fuel : ℕ) (ar : Archive) (badge want : ℕ) (r : Registry)
    → read ar badge want r ≡ (ok, ([], r))
    → read_loop (suc fuel) ar badge want r ≡ some []
unfolding read_loop
read_loop_end fuel ar badge want r q = simp (read_loop, q)

-- A client that reads with any positive count until it gets nothing receives the rest of the file,
-- byte for byte, from where the connection stands: one read more than there are bytes is enough. The
-- file lies in the archive and is shorter than 4 GiB.
pub read_loop_all :
    (fuel : ℕ) (ar : Archive) (badge place size off want : ℕ) (r : Registry)
    → Stored ar place size
    → At badge place size off r
    → off ≤ size
    → 0 < want
    → size - off < fuel
    → read_loop fuel ar badge want r ≡ some (bytes_at ar (place + off) (size - off))
read_loop_all zero ar badge place size off want r s h l w f = absurd (omega arith)
read_loop_all (suc fuel) ar badge place size off want r s h l w f = elim (eq_or_ne off size) [
  | inl e ↦
      read_loop_end fuel ar badge want r
        (read_end ar badge place size want r s (subst (λ o. At badge place size o r) e h))
      ∙ (let z : 0 ≡ size - off = omega arith in
          ap (λ n. some (take n (drop (place + off - ar.start) ar.bytes))) z)
  | inr n ↦
      let chunk = chunk_of want (size - off) in
      let (r', q, h') = read_next ar badge place size off want r s h (omega arith) in
      let c = chunk_of-lt want (size - off) w (omega arith) in
      let (b, bs, e) = bytes_some ar place size off chunk s (omega (arith, c.1)) c.0 in
      let ih =
        read_loop_all fuel ar badge place size (off + chunk) want r' s h' (omega (arith, c.1)) w
          (omega (arith, c.0)) in
      read_loop_next fuel ar badge want b bs _ r r' (q ∙ ap (λ ys. (ok, (ys, r'))) e) ih
      ∙ ap (λ ys. some (ys ++ bytes_at ar (place + (off + chunk)) (size - (off + chunk)))) (sym e)
      ∙ ap some (bytes_split ar place size off chunk s (omega (arith, c.1)))
]
