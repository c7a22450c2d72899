-- ===== src/Synth/Reads.antt =====
-- taskman/path/sysfs.c: a client that reads a file of /sys to its end.
use lq.Base.{
  ℕ, false, zero, suc, ◌+◌, ◌-◌, ◌≤◌, ◌<◌, ◌≡◌, ◌≢◌, refl, sym, ap, ◌∙◌, Option, none, some, List,
  [], ◌∷◌, ◌++◌, arith, unequal, length, drop, take, ltb, if◌then◌else◌, ok, err, List-cases, inl,
  inr,
}
use lq.Chan.State.{Registry}
use lq.Chan.Connect.{set_ctx, get_ctx}
use lq.Chan.Attach.{get_ctx-set_ctx}
use lq.Cpiofs.Reads.{length-take_le, length-drop, drop-drop, set_ctx-get_ctx}
use lq.Synth.Device.{max_payload}
use lq.Synth.Sysfs.{Tree, serve, content_of, sysfs_read}

empty : (xs : List ℕ) → length xs ≡ 0 → xs ≡ []
empty [] h = refl
empty (x ∷ xs) h = absurd (omega (arith, h))

take-drop : (n : ℕ) (xs : List ℕ) → take n xs ++ drop n xs ≡ xs
take-drop zero xs = refl
take-drop (suc n) [] = refl
take-drop (suc n) (x ∷ xs) = ap (λ ys. x ∷ ys) (take-drop n xs)

-- The bytes of one read.
abbrev pub count : ℕ → ℕ → ℕ
count want remain = if ltb want remain then want else remain

-- A connection that stands at `pos` in a content hands out the next bytes and stands behind them.
serve_lem :
    (badge ctx0 pos want : ℕ) (bytes : List ℕ) (r : Registry)
    → get_ctx badge r ≡ some (ctx0, pos)
    → want ≤ max_payload
    → let n = count want (length bytes - pos) in
      (r' : Registry) × (serve badge ctx0 pos want bytes r
        ≡ some (ok, (take n (drop pos bytes), r')))
      × (get_ctx badge r' ≡ some (ctx0, pos + n))
unfolding serve
serve_lem badge ctx0 pos want bytes r h fits =
    let n = count want (length bytes - pos) in
    let inside : ltb max_payload n ≡ false = ground (arith, fits) in
    let answered = set_ctx-get_ctx badge ctx0 (pos + n) r (ctx0, pos) h in
    (
      (set_ctx badge ctx0 (pos + n) r).1,
      rw (serve, answered, inside) refl,
      get_ctx-set_ctx badge ctx0 (pos + n) r answered,
    )

module _ (tree : Tree) where
  -- A client that reads until it gets nothing, on fuel.
  unfoldable pub sysfs_read_loop : ℕ → ℕ → ℕ → Registry → Option (List ℕ)
  sysfs_read_loop zero badge want r = none
  sysfs_read_loop (suc fuel) badge want r = elim (sysfs_read tree badge want r) [
    | none ↦ none
    | some (status, (bytes, r')) ↦
        let next = sysfs_read_loop fuel badge want r' in
        elim status [
          | err e ↦ none
          | ok ↦ elim bytes [
            | [] ↦ some []
            | b ∷ bs ↦ elim next [ none ↦ none | some rest ↦ some ((b ∷ bs) ++ rest) ]
          ]
        ]
  ]

  read_lem :
      (badge ctx0 pos want : ℕ) (bytes : List ℕ) (r : Registry)
      → get_ctx badge r ≡ some (ctx0, pos)
      → ctx0 ≢ 0
      → content_of tree ctx0 ≡ some bytes
      → want ≤ max_payload
      → let n = count want (length bytes - pos) in
        (r' : Registry) × (sysfs_read tree badge want r ≡ some (ok, (take n (drop pos bytes), r')))
        × (get_ctx badge r' ≡ some (ctx0, pos + n))
  unfolding sysfs_read
  read_lem badge ctx0 pos want bytes r h inside c fits =
      let (r', e, g) = serve_lem badge ctx0 pos want bytes r h fits in
      (r', rw (sysfs_read, h, unequal ctx0 0 inside, c) e, g)

  loop_step :
      (fuel badge want b : ℕ) (bs rest : List ℕ) (r r' : Registry)
      → sysfs_read tree badge want r ≡ some (ok, (b ∷ bs, r'))
      → sysfs_read_loop fuel badge want r' ≡ some rest
      → sysfs_read_loop (suc fuel) badge want r ≡ some ((b ∷ bs) ++ rest)
  unfolding sysfs_read_loop
  loop_step fuel badge want b bs rest r r' e next = simp (sysfs_read_loop, e, next)

  loop_end :
      (fuel badge want : ℕ) (r r' : Registry)
      → sysfs_read tree badge want r ≡ some (ok, ([], r'))
      → sysfs_read_loop (suc fuel) badge want r ≡ some []
  unfolding sysfs_read_loop
  loop_end fuel badge want r r' e = simp (sysfs_read_loop, e)

  -- A client that stands at a place in a file of /sys, at most at its end, and reads with any positive
  -- count of at most 928 bytes, the payload of a reply, until it gets nothing receives the rest of the
  -- file byte for byte, on more fuel than there are bytes left.
  pub sysfs_read_loop_all :
      (fuel badge ctx0 pos want : ℕ) (bytes : List ℕ) (r : Registry)
      → get_ctx badge r ≡ some (ctx0, pos)
      → ctx0 ≢ 0
      → content_of tree ctx0 ≡ some bytes
      → want ≢ 0
      → want ≤ max_payload
      → pos ≤ length bytes
      → length bytes - pos < fuel
      → sysfs_read_loop fuel badge want r ≡ some (drop pos bytes)
  sysfs_read_loop_all zero badge ctx0 pos want bytes r h inside c some_want fits within enough =
      absurd (omega (arith, enough))
  sysfs_read_loop_all (suc fuel) badge ctx0 pos want bytes r h inside c some_want fits within
        enough =
      let n = count want (length bytes - pos) in
      let xs = drop pos bytes in
      let left : length xs ≡ length bytes - pos = length-drop pos bytes in
      let (r', e, g) = read_lem badge ctx0 pos want bytes r h inside c fits in
      elim (List-cases (take n xs)) [
        | inl z ↦
            let none_left : length xs ≡ 0 =
              (let t : length (take n xs) ≡ n = length-take_le n xs (ground (arith, left)) in
                let t' : length (take n xs) ≡ 0 = ap length z in
                ground (arith, t, t', left, some_want)) in
            let gone : xs ≡ [] = empty xs none_left in
            rw gone (loop_end fuel badge want r r' (rw z at e))
        | inr (b, bs, q) ↦
            let size : length (take n xs) ≡ n = length-take_le n xs (ground (arith, left)) in
            let size' : length (take n xs) ≡ suc (length bs) = ap length q in
            let small : n ≤ length bytes - pos = ground arith in
            let rest =
              sysfs_read_loop_all fuel badge ctx0 (pos + n) want bytes r' g inside c some_want fits
                (omega (arith, small, within))
                (omega (arith, small, within, enough, size, size')) in
            loop_step fuel badge want b bs (drop (pos + n) bytes) r r' (rw q at e) rest
            ∙ ap (λ ys. some (ys ++ drop (pos + n) bytes)) (sym q)
            ∙ ap (λ ys. some ys)
                (ap (λ ys. take n xs ++ ys) (sym (drop-drop pos n bytes)) ∙ take-drop n xs)
      ]
