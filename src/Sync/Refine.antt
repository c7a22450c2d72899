-- ===== src/Sync/Refine.antt =====
-- libc/qsoe/sync.c: the calls against what they mean for one address.
use lq.Base.{
  unequal, ℕ, ◌-◌, ◌≤◌, ◌≡◌, ◌≢◌, refl, sym, ap, subst, ◌∙◌, Bool, true, false, Option, none, some,
  List, [], ◌∷◌, ◌++◌, arith, ◌==◌, if◌then◌else◌, Bool-cases, inl, inr, ◌⊎◌, set, leb, ltb, length,
  take, drop, take-nil, add64, Status, ok, err, enomem,
}
use lq.Sync.Entry.{SyncEntry, bump, deposit, wake_loop, max_waiters, retire_if_idle, remove_waiter}
use lq.Sync.Table.{
  Table, WaitMode, by_credit, by_gen, WakeMode, absorb, discard, Begin, done, parks, keyed, enqueue,
  enqueue_new, wait_missing, wait_found, wait_begin, wait_end, wake_count, settle_credit,
  wake_missing, wake_found, wake,
}
use lq.Sync.Fifo.{
  Good, queue, Holds, push_waiter-Holds, push_waiter_full, remove_first, remove_waiter-Holds,
  wake_loop-Holds, length-queue,
}
use lq.Sync.Slots.{
  Waiting, fresh, waiting, Inv, Slot, lookup, seen, view, settled, all_used, Acts, Acts-refl,
  store-Acts, retire-Acts, find_entry-lem, alloc_entry-lem,
}

-- A thread joins the queue of an address, if there is room.
abbrev join : ℕ → Waiting → Begin × Option Waiting
join myn s =
    if leb max_waiters (length s.parked)
    then (done (err enomem), settled s)
    else (parks, some (record s { parked = s.parked ++ myn ∷ [] }))

-- What a wait does: the credit is taken, a generation that has moved on ends it, and else the
-- thread parks behind the others.
abbrev pub wait_means : ℕ → WaitMode → ℕ → Option Waiting → Begin × Option Waiting
wait_means myn by_gen expected none = if expected == 0 then join myn fresh else (done ok, none)
wait_means myn by_credit expected none = join myn fresh
wait_means myn by_gen expected (some s) =
    if s.gen == expected then join myn s else (done ok, settled s)
wait_means myn by_credit expected (some s) =
    if ltb 0 s.credit then (done ok, settled (record s { credit = s.credit - 1 })) else join myn s

-- A call that needs an entry fails, and changes nothing, when all entries serve other addresses.
abbrev pub IsFull : ℕ → Table → Type 0
IsFull a t = (all_used t ≡ true) × (view a t ≡ none)

keyed_same :
    (a : ℕ) {e e' : SyncEntry} {q : List ℕ} → Holds e q e' → keyed a e ≡ true → keyed a e' ≡ true
keyed_same a h k = rw (h.same_use, h.same_addr) k

Holds-waiting :
    {e e' : SyncEntry} {q : List ℕ}
    → Holds e q e'
    → waiting e' ≡ record { credit = e.credit; gen = e.gen; parked = q }
Holds-waiting h = rw (h.same_credit, h.same_gen, h.queued) refl

enqueue-Acts :
    (a : ℕ) (t : Table) (v : Inv t) (myn i : ℕ) (e : SyncEntry)
    → myn ≢ 0
    → Slot a t i
    → keyed a e ≡ true
    → Good e
    → ((enqueue myn i e t).0 ≡ (join myn (waiting e)).0)
      × Acts a t (join myn (waiting e)).1 (enqueue myn i e t).1
unfolding enqueue
enqueue-Acts a t v myn i e live s k g = elim (Bool-cases (leb max_waiters e.nwaiters)) [
  | inl full ↦
      rw (length-queue e g, full, push_waiter_full myn e full, enqueue)
        (refl, retire-Acts a t v i e s k g)
  | inr space ↦
      let (e', p, h) = push_waiter-Holds myn e live (ground arith) g in
      rw (length-queue e g, space, p, enqueue)
        (
          refl,
          subst (λ w. Acts a t (some w) (set t i e')) (Holds-waiting h)
              (store-Acts a t v i e' s (keyed_same a h k) h.good),
        )
]

-- The outcome is that of `r`, unless the table is full.
abbrev Waits : ℕ → Table → Begin × Option Waiting → Begin × Table → Type 0
Waits a t r o = ((o.0 ≡ r.0) × Acts a t r.1 o.1) ⊎ ((o ≡ (done (err enomem), t)) × IsFull a t)

enqueue_new-Waits :
    (a : ℕ) (t : Table) (myn : ℕ)
    → Inv t
    → myn ≢ 0
    → lookup a t ≡ none
    → Waits a t (join myn fresh) (enqueue_new myn a t)
enqueue_new-Waits a t myn v live h = elim (alloc_entry-lem a t v h) [
  | inl (p, full) ↦ inr (rw (p, enqueue_new) refl, (full, ap seen h))
  | inr (i, e, p, k, w, g, s) ↦ inl (
      rw (p, enqueue_new)
        (subst
          (λ w.
            ((enqueue myn i e t).0 ≡ (join myn w).0)
            × Acts a t (join myn w).1 (enqueue myn i e t).1)
          w (enqueue-Acts a t v myn i e live s k g)))
]

wait_missing-Waits :
    (a : ℕ) (t : Table) (myn : ℕ) (mode : WaitMode) (expected : ℕ)
    → Inv t
    → myn ≢ 0
    → lookup a t ≡ none
    → Waits a t (wait_means myn mode expected none) (wait_missing myn a mode expected t)
unfolding wait_missing
wait_missing-Waits a t myn by_credit expected v live h = enqueue_new-Waits a t myn v live h
wait_missing-Waits a t myn by_gen expected v live h = elim (Bool-cases (expected == 0)) [
  | inl z ↦ rw z (enqueue_new-Waits a t myn v live h)
  | inr z ↦ rw z (inl (refl, subst (λ w. Acts a t (seen w) t) h (Acts-refl a t v)))
]

wait_found-Waits :
    (a : ℕ) (t : Table) (myn : ℕ) (mode : WaitMode) (expected i : ℕ) (e : SyncEntry)
    → Inv t
    → myn ≢ 0
    → Slot a t i
    → keyed a e ≡ true
    → Good e
    → let o = wait_found myn mode expected i e t in
      let r = wait_means myn mode expected (some (waiting e)) in (o.0 ≡ r.0) × Acts a t r.1 o.1
unfolding wait_found
wait_found-Waits a t myn by_credit expected i e v live s k g = elim (Bool-cases (ltb 0 e.credit)) [
  | inl c ↦ rw c (
    refl,
    retire-Acts a t v i (record e { credit = e.credit - 1 }) s k
        (record {
          room = g.room;
          count = g.count;
          credits = omega (arith, g.credits);
          live = g.live;
        }),
  )
  | inr c ↦ rw c (enqueue-Acts a t v myn i e live s k g)
]
wait_found-Waits a t myn by_gen expected i e v live s k g = elim (Bool-cases (e.gen == expected)) [
  | inl c ↦ rw c (enqueue-Acts a t v myn i e live s k g)
  | inr c ↦ rw c (refl, retire-Acts a t v i e s k g)
]

-- From a table in order, for an address and a Notification that are not null: the first critical
-- section of a wait does to its address what `wait_means` says and nothing to
-- the others, and keeps the table in order; or there is no free entry and nothing changes.
pub wait_begin-Acts :
    (a : ℕ) (t : Table) (myn : ℕ) (mode : WaitMode) (expected : ℕ)
    → Inv t
    → a ≢ 0
    → myn ≢ 0
    → let o = wait_begin myn a mode expected t in
      let r = wait_means myn mode expected (view a t) in
      ((o.0 ≡ r.0) × Acts a t r.1 o.1) ⊎ ((o ≡ (done (err enomem), t)) × IsFull a t)
unfolding wait_begin
wait_begin-Acts a t myn mode expected v nz live =
    rw (unequal a 0 nz, unequal myn 0 live)
      (elim (find_entry-lem a t v) [
        | inl (p, q) ↦ rw p (
            subst
              (λ w. Waits a t (wait_means myn mode expected w) (wait_missing myn a mode expected t))
              (sym (ap seen q)) (wait_missing-Waits a t myn mode expected v live q))
        | inr (i, e, p, q, k, g, s) ↦
            rw (p, q) (inl (wait_found-Waits a t myn mode expected i e v live s k g))
      ])

abbrev pub left_after : ℕ → Option Waiting → Option Waiting
left_after myn none = none
left_after myn (some s) = settled (record s { parked = remove_first myn s.parked })

-- From a table in order: after its wait a thread takes its first place out of the queue of the
-- address, if it is still there, the address leaves the table when nobody and no credit is left,
-- no other address changes, and the table stays in order.
pub wait_end-Acts :
    (a : ℕ) (t : Table) (myn : ℕ) → Inv t → Acts a t (left_after myn (view a t)) (wait_end myn a t)
unfolding wait_end
wait_end-Acts a t myn v = elim (find_entry-lem a t v) [
  | inl (p, q) ↦
      rw (p, wait_end)
        (subst (λ w. Acts a t w t) (ap seen q ∙ sym (ap (λ o. left_after myn (seen o)) q))
          (Acts-refl a t v))
  | inr (i, e, p, q, k, g, s) ↦
      let h = remove_waiter-Holds myn e g in
      rw (p, wait_end)
        (subst (λ w. Acts a t w (set t i (retire_if_idle (remove_waiter myn e))))
          (ap settled (Holds-waiting h) ∙ sym (ap (λ o. left_after myn (seen o)) q))
          (retire-Acts a t v i (remove_waiter myn e) s (keyed_same a h k) h.good))
]

abbrev pub parked_at : Option Waiting → List ℕ
parked_at none = []
parked_at (some s) = s.parked

-- The credit that a wake leaves when it found fewer threads than it was to wake.
abbrev credit_after : WakeMode → Bool → ℕ → ℕ
credit_after absorb more credit = if more then 1 else credit
credit_after discard more credit = credit

-- What a wake of `n` threads leaves: a later generation, and the queue without its first `n`.
abbrev pub wake_means : ℕ → WakeMode → Option Waiting → Option Waiting
wake_means n absorb none = some (record { credit = 1; gen = 1; parked = [] })
wake_means n discard none = none
wake_means n mode (some s) = settled (record {
  credit = credit_after mode (ltb (length (take n s.parked)) n) s.credit;
  gen = add64 s.gen 1;
  parked = drop n s.parked;
})

settle_credit-credit :
    (mode : WakeMode) (more : Bool) (e : SyncEntry)
    → e.credit ≤ 1
    → settle_credit mode more e ≡ record e { credit = credit_after mode more e.credit }
settle_credit-credit discard more e h = refl
settle_credit-credit absorb false e h = refl
settle_credit-credit absorb true e h = elim (Bool-cases (ltb e.credit 1)) [
  | inl c ↦ rw c refl
  | inr c ↦ let one : e.credit ≡ 1 = ground arith in rw c (ap (λ n. record e { credit = n }) one)
]

credit_after-bound : (mode : WakeMode) (more : Bool) (n : ℕ) → n ≤ 1 → credit_after mode more n ≤ 1
credit_after-bound discard more n h = h
credit_after-bound absorb true n h = omega arith
credit_after-bound absorb false n h = h

wake_found-Acts :
    (a : ℕ) (t : Table) (n : ℕ) (mode : WakeMode) (i : ℕ) (e : SyncEntry)
    → Inv t
    → Slot a t i
    → keyed a e ≡ true
    → Good e
    → let o = wake_found n mode i e t in
      (o.0 ≡ ok) × (o.1 ≡ take n (queue e)) × Acts a t (wake_means n mode (some (waiting e))) o.2
unfolding wake_found
wake_found-Acts a t n mode i e v s k g =
    let e' = (wake_loop n (bump e)).1 in
    let more = ltb (length (wake_loop n (bump e)).0) n in
    let (woken, h) =
      wake_loop-Holds n (bump e)
        (record { room = g.room; count = g.count; credits = g.credits; live = g.live }) in
    let e'' = record e' { credit = credit_after mode more e'.credit } in
    let g'' : Good e'' = record {
      room = h.good.room;
      count = h.good.count;
      credits = credit_after-bound mode more e'.credit h.good.credits;
      live = h.good.live;
    } in
    let w : waiting e'' ≡ record {
      credit = credit_after mode (ltb (length (take n (queue e))) n) e.credit;
      gen = add64 e.gen 1;
      parked = drop n (queue e);
    } =
      rw (h.same_credit, h.same_gen, h.queued, woken) refl in
    (
      refl,
      woken,
      rw (settle_credit-credit mode more e' h.good.credits, wake_found)
          (subst (λ x. Acts a t x (set t i (retire_if_idle e''))) (ap settled w)
            (retire-Acts a t v i e'' s (keyed_same a h k) g'')),
    )

-- The threads of `w` are woken, unless the table is full.
abbrev Wakes : ℕ → Table → ℕ → WakeMode → Option Waiting → Status × List ℕ × Table → Type 0
Wakes a t n mode w o =
    ((o.0 ≡ ok) × (o.1 ≡ take n (parked_at w)) × Acts a t (wake_means n mode w) o.2)
    ⊎ ((o ≡ (err enomem, [], t)) × IsFull a t)

wake_missing-Acts :
    (a : ℕ) (t : Table) (n : ℕ) (mode : WakeMode)
    → Inv t
    → lookup a t ≡ none
    → Wakes a t n mode none (wake_missing a mode t)
unfolding wake_missing
wake_missing-Acts a t n discard v h =
    inl (refl, sym (take-nil ℕ n), subst (λ w. Acts a t (seen w) t) h (Acts-refl a t v))
wake_missing-Acts a t n absorb v h = elim (alloc_entry-lem a t v h) [
  | inl (p, full) ↦ inr (rw (p, wake_missing) refl, (full, ap seen h))
  | inr (i, e, p, k, w, g, s) ↦
      let e' : SyncEntry = record e { credit = 1; gen = 1 } in
      let c : e.credit ≡ 0 = ap (λ (x : Waiting). x.credit) w in
      let d : deposit (record e { gen = 1 }) ≡ e' =
        let one : ltb e.credit 1 ≡ true = ground arith in rw one refl in
      let good : Good e' = record {
        room = g.room;
        count = g.count;
        credits = omega arith;
        live = g.live;
      } in
      let empty =
        ap (λ (q : List ℕ). settled (record { credit = 1; gen = 1; parked = q }))
          (ap (λ (x : Waiting). x.parked) w) in
      let new =
        subst (λ w. Acts a t w (set t i (retire_if_idle e'))) empty
          (retire-Acts a t v i e' s k good) in
      inl (rw (p, d, wake_missing) (refl, sym (take-nil ℕ n), new))
]

-- From a table in order, for an address that is not null: a wake signals the first `n` threads of the queue of its address, in order, and does to the
-- address what `wake_means` says, to the others nothing, and keeps the table in order; or an
-- absorbing one finds no free entry, and nothing changes.
pub wake-Acts :
    (a max_n : ℕ) (t : Table) (mode : WakeMode)
    → Inv t
    → a ≢ 0
    → let o = wake a max_n mode t in
      let n = wake_count max_n in
      ((o.0 ≡ ok)
        × (o.1 ≡ take n (parked_at (view a t)))
        × Acts a t (wake_means n mode (view a t)) o.2)
      ⊎ ((o ≡ (err enomem, [], t)) × IsFull a t)
unfolding wake
wake-Acts a max_n t mode v nz = rw (unequal a 0 nz) (elim (find_entry-lem a t v) [
  | inl (p, q) ↦ rw p (
      subst (λ w. Wakes a t (wake_count max_n) mode w (wake_missing a mode t)) (sym (ap seen q))
        (wake_missing-Acts a t (wake_count max_n) mode v q))
  | inr (i, e, p, q, k, g, s) ↦
      rw (p, q) (inl (wake_found-Acts a t (wake_count max_n) mode i e v s k g))
])
