-- ===== src/Rsrcdb/Start.antt =====
-- The database at boot, and what `tm_rsrc_query` reports.
use lq.Base.{
  ℕ, zero, suc, ◌+◌, ◌-◌, ◌≤◌, ◌<◌, ◌≡◌, refl, ap, ◌∙◌, ==_iff, Bool, true, false, List, [], ◌∷◌,
  arith, ◌==◌, if◌then◌else◌, Bool-cases, inl, inr, ltb, length, ◌≢◌, ok, map, take, drop, take-nil,
}
use native.Mathlib.Decide.{dec_lt}
use lq.Rsrcdb.Entry.{Abi, Entry, Alloc}
use lq.Rsrcdb.Totals.{total_ids}
use lq.Rsrcdb.Db.{Db, init, pool_fill, pool_size}
use lq.Rsrcdb.Sums.{sum_below}
use lq.Rsrcdb.Inv.{Inv, occurrences, at}
use lq.Rsrcdb.Calls.{class_of, row, query_loop, query}

pool_fill-at :
    (i n : ℕ) (free : List ℕ)
    → total_ids (at i) (pool_fill n free) ≡ total_ids (at i) free + (if ltb i n then 1 else 0)
unfolding pool_fill
pool_fill-at i zero free = ground arith
pool_fill-at i (suc n) free = ground (arith, pool_fill-at i n (n ∷ free))

sum_empty : (i n : ℕ) → sum_below n (λ c. 0) ≡ 0
sum_empty i zero = refl
sum_empty i (suc n) = omega (arith, sum_empty i n)

at_most_one : (b : Bool) → (if b then 1 else 0) ≤ 1
at_most_one true = omega arith
at_most_one false = omega arith

-- At boot the invariant holds, and each index below 256 and no other is in the pool, once.
pub init-Inv :
    (abi : Abi)
    → Inv abi init × ((i : ℕ) → occurrences abi i init ≡ (if ltb i pool_size then 1 else 0))
unfolding init
init-Inv abi =
    let once : (i : ℕ) → occurrences abi i init ≡ (if ltb i pool_size then 1 else 0) =
      λ i. omega (arith, pool_fill-at i pool_size [], sum_empty i abi.type_count) in
    (
      record {
        listed = λ c k. tt;
        once = λ i. omega (arith, once i, at_most_one (ltb i pool_size));
      },
      once,
    )

drop-cons {ℓ} :
    {A : Type ℓ} (n : ℕ) (x : A) (xs : List A) → n ≢ 0 → drop n (x ∷ xs) ≡ drop (n - 1) xs
drop-cons zero x xs h = absurd (h refl)
drop-cons (suc n) x xs h = ap (λ k. drop k xs) (omega arith)

take-cons {ℓ} :
    {A : Type ℓ} (n : ℕ) (x : A) (xs : List A) → n ≢ 0 → take n (x ∷ xs) ≡ x ∷ take (n - 1) xs
take-cons zero x xs h = absurd (h refl)
take-cons (suc n) x xs h = ap (λ k. x ∷ take k xs) (omega arith)

take_zero {ℓ} : {A : Type ℓ} (n : ℕ) (xs : List A) → n ≡ 0 → take n xs ≡ []
take_zero n xs h = rw h

drop_zero {ℓ} : {A : Type ℓ} (n : ℕ) (xs : List A) → n ≡ 0 → drop n xs ≡ xs
drop_zero n xs h = rw h

drop-nil {ℓ} : (A : Type ℓ) (n : ℕ) → drop {A = A} n [] ≡ []
drop-nil A zero = refl
drop-nil A (suc n) = refl

sub_sub_one : (a b : ℕ) → a - b - 1 ≡ a - (b + 1)
sub_sub_one a b = omega arith

module _ (abi : Abi) where
  -- What the loop has written when it stops, from the entry `idx` on.
  query_loop_count :
      (start idx written : ℕ) (xs : List Entry)
      → query_loop abi 0 start idx written xs ≡ ([], written + length (drop (start - idx) xs))
  unfolding query_loop
  query_loop_count start idx written [] = rw (drop-nil Entry (start - idx)) (ground arith)
  query_loop_count start idx written (x ∷ xs) = ground (
    arith,
    query_loop_count start (idx + 1) written xs,
    query_loop_count start (idx + 1) (written + 1) xs,
    drop-cons (start - idx) x xs,
    drop_zero (start - idx) (x ∷ xs),
    drop_zero (start - (idx + 1)) xs,
  )

  query_loop-row :
      (listcnt start idx written : ℕ) (x : Entry) (xs : List Entry) {rs : List Alloc} {n : ℕ}
      → ¬ (idx < start)
      → written < listcnt
      → query_loop abi listcnt start (idx + 1) (written + 1) xs ≡ (rs, n)
      → query_loop abi listcnt start idx written (x ∷ xs) ≡ (row abi x ∷ rs, n)
  unfolding query_loop
  query_loop-row listcnt start idx written x xs late room q = ground arith

  query_loop_rows :
      (listcnt start idx written : ℕ) (xs : List Entry)
      → listcnt ≢ 0
      → let ys = take (listcnt - written) (drop (start - idx) xs) in
        query_loop abi listcnt start idx written xs ≡ (map (row abi) ys, written + length ys)
  unfolding query_loop
  query_loop_rows listcnt start idx written [] h =
      rw (drop-nil Entry (start - idx), take-nil Entry (listcnt - written)) (ground arith)
  query_loop_rows listcnt start idx written (x ∷ xs) h = elim (dec_lt idx start) [
    | yes early ↦
        rw (drop-cons (start - idx) x xs (omega arith), sub_sub_one start idx)
          (ground (arith, query_loop_rows listcnt start (idx + 1) written xs h))
    | no late ↦ rw (drop_zero (start - idx) (x ∷ xs) (omega arith)) (elim (dec_lt written listcnt) [
      | yes room ↦
          let ih =
            rw (drop_zero (start - (idx + 1)) xs (omega arith)) at
              (query_loop_rows listcnt start (idx + 1) (written + 1) xs h) in
          rw (take-cons (listcnt - written) x xs (omega arith), sub_sub_one listcnt written)
            (query_loop-row listcnt start idx written x xs late room ih
              ∙ ap (λ (k : ℕ). (map (row abi) (x ∷ take (listcnt - (written + 1)) xs), k))
                  (omega arith))
      | no full ↦ rw (take_zero (listcnt - written) (x ∷ xs) (omega arith)) (ground arith)
    ])
  ]

  -- `tm_rsrc_query` reports the entries of the class in order, from entry `start` on: `listcnt` of
  -- them at most, with their number, or with a `listcnt` of 0 just how many there are.
  pub query_lem :
      (listcnt start type : ℕ) (db : Db)
      → class_of abi type < abi.type_count
      → let ys = drop start (db.heads (class_of abi type)) in
        query abi listcnt start type db ≡ (
          if listcnt == 0
          then (ok, [], length ys)
          else (ok, map (row abi) (take listcnt ys), length (take listcnt ys)))
  unfolding query
  query_lem listcnt start type db k =
      let xs = db.heads (class_of abi type) in
      elim (Bool-cases (listcnt == 0)) [
        | inl t ↦
            let e : listcnt ≡ 0 = (==_iff listcnt 0).0 t in
            rw (t, e) (ground (arith, query_loop_count start 0 0 xs))
        | inr t ↦ rw t (ground (arith, query_loop_rows listcnt start 0 0 xs (ground arith)))
      ]
