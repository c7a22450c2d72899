-- ===== src/Sync/Fifo.antt =====
-- libc/qsoe/sync.c: the array of waiters with its count is a queue of at most four.
use lq.Base.{
  subst, sym, ◌⊎◌, ℕ, zero, suc, ◌+◌, ◌-◌, ◌≤◌, ◌<◌, ◌≡◌, ◌≢◌, refl, ap, ◌∙◌, ==_iff, true, false,
  none, some, List, [], ◌∷◌, ◌++◌, arith, ◌==◌, if◌then◌else◌, Bool-cases, inl, inr, set, get_or,
  length, length-set, take, take-set, drop, leb,
}
use lq.Sync.Entry.{
  SyncEntry, max_waiters, push_waiter, shift_down, pop_waiter, index_of, remove_waiter, wake_loop,
  is_idle,
}

-- The threads parked, the first to wake first.
abbrev pub queue : SyncEntry → List ℕ
queue e = take e.nwaiters e.waiters

shift_down-cons : (n i x : ℕ) (w : List ℕ) → shift_down n (suc i) (x ∷ w) ≡ x ∷ shift_down n i w
unfolding shift_down
shift_down-cons zero i x w = refl
shift_down-cons (suc n) i x w = shift_down-cons n (suc i) x _

length-shift_down : (n i : ℕ) (w : List ℕ) → length (shift_down n i w) ≡ length w
unfolding shift_down
length-shift_down zero i w = refl
length-shift_down (suc n) i w =
    length-shift_down n (suc i) (set w i (get_or w (suc i) 0)) ∙ length-set w i _

take-shift_down : (n x : ℕ) (w : List ℕ) → n ≤ length w → take n (shift_down n 0 (x ∷ w)) ≡ take n w
unfolding shift_down
take-shift_down zero x w h = refl
take-shift_down (suc n) x [] h = absurd (omega arith)
take-shift_down (suc n) x (y ∷ w) h =
    rw (shift_down-cons n 0 y (y ∷ w)) (ap (λ ys. y ∷ ys) (take-shift_down n y w (omega arith)))

shift_down-at :
    (i n m : ℕ) (w : List ℕ)
    → m ≡ i + n
    → m < length w
    → take m (shift_down n i w) ≡ take i w ++ take n (drop (suc i) w)
shift_down-at i n m [] e h = absurd (omega arith)
shift_down-at zero n m (x ∷ w) e h =
    ap (λ k. take k (shift_down n 0 (x ∷ w))) {x = m} {y = n} (omega arith)
    ∙ take-shift_down n x w (omega arith)
shift_down-at (suc i) n zero (x ∷ w) e h = absurd (omega arith)
shift_down-at (suc i) n (suc m) (x ∷ w) e h =
    rw (shift_down-cons n i x w)
      (ap (λ ys. x ∷ ys) (shift_down-at i n m w (omega arith) (omega arith)))

-- What the source's walks assume of an entry: the count within the array, and no waiter 0.
abbrev pub NoZero : List ℕ → Type 0
NoZero [] = Unit
NoZero (x ∷ xs) = (x ≢ 0) × NoZero xs

pub record Good (e : SyncEntry) : Type 0 where
  pub room : length e.waiters ≡ max_waiters
  pub count : e.nwaiters ≤ max_waiters
  pub credits : e.credit ≤ 1
  pub live : NoZero (queue e)

abbrev pub remove_first : ℕ → List ℕ → List ℕ
remove_first n [] = []
remove_first n (x ∷ xs) = if x == n then xs else x ∷ remove_first n xs

-- `e'` is `e` with `q` for its queue.
pub record Holds (e : SyncEntry) (q : List ℕ) (e' : SyncEntry) : Type 0 where
  pub good : Good e'
  pub queued : queue e' ≡ q
  pub same_addr : e'.addr ≡ e.addr
  pub same_use : e'.in_use ≡ e.in_use
  pub same_credit : e'.credit ≡ e.credit
  pub same_gen : e'.gen ≡ e.gen

pub NoZero-append : (xs ys : List ℕ) → NoZero xs → NoZero ys → NoZero (xs ++ ys)
NoZero-append [] ys h k = k
NoZero-append (x ∷ xs) ys h k = (h.0, NoZero-append xs ys h.1 k)

pub NoZero-remove_first : (n : ℕ) (xs : List ℕ) → NoZero xs → NoZero (remove_first n xs)
NoZero-remove_first n [] h = tt
NoZero-remove_first n (x ∷ xs) h = elim (Bool-cases (x == n)) [
  | inl t ↦ rw t h.1
  | inr t ↦ rw t (h.0, NoZero-remove_first n xs h.1)
]

pub push_waiter-Holds :
    (n : ℕ) (e : SyncEntry)
    → n ≢ 0
    → e.nwaiters < max_waiters
    → Good e
    → (e' : SyncEntry) × (push_waiter n e ≡ some e') × Holds e (queue e ++ n ∷ []) e'
unfolding push_waiter
push_waiter-Holds n e live space g =
    let q : take (e.nwaiters + 1) (set e.waiters e.nwaiters n) ≡ queue e ++ n ∷ [] =
      ap (λ k. take k (set e.waiters e.nwaiters n)) {x = e.nwaiters + 1} {y = suc e.nwaiters}
        (omega arith)
      ∙ take-set e.nwaiters e.waiters n (omega (arith, g.room)) in
    (
      record e { waiters = set e.waiters e.nwaiters n; nwaiters = e.nwaiters + 1 },
      ground arith,
      record {
        good = record {
          room = length-set e.waiters e.nwaiters n ∙ g.room;
          count = omega arith;
          credits = g.credits;
          live = subst NoZero (sym q) (NoZero-append (queue e) (n ∷ []) g.live (live, tt));
        };
        queued = q;
        same_addr = refl;
        same_use = refl;
        same_credit = refl;
        same_gen = refl;
      },
    )

pub push_waiter_full :
    (n : ℕ) (e : SyncEntry) → leb max_waiters e.nwaiters ≡ true → push_waiter n e ≡ none
unfolding push_waiter
push_waiter_full n e h = rw h refl

-- The entry once the waiter at `i` is taken out.
abbrev without : ℕ → SyncEntry → SyncEntry
without i e = record e {
  waiters = shift_down (e.nwaiters - 1 - i) i e.waiters;
  nwaiters = e.nwaiters - 1;
}

without-Holds :
    (i : ℕ) (e : SyncEntry) {q : List ℕ}
    → i < e.nwaiters
    → take i e.waiters ++ take (e.nwaiters - 1 - i) (drop (suc i) e.waiters) ≡ q
    → NoZero q
    → Good e
    → Holds e q (without i e)
without-Holds i e h p live g =
    let q =
      shift_down-at i (e.nwaiters - 1 - i) (e.nwaiters - 1) e.waiters (omega arith)
        (omega (arith, g.room, g.count))
      ∙ p in
    record {
      good = record {
        room = length-shift_down (e.nwaiters - 1 - i) i e.waiters ∙ g.room;
        count = omega (arith, g.count);
        credits = g.credits;
        live = subst NoZero (sym q) live;
      };
      queued = q;
      same_addr = refl;
      same_use = refl;
      same_credit = refl;
      same_gen = refl;
    }

-- What `index_of` finds is the first place of `n` in the queue.
index_of-remove_first :
    (n k : ℕ) (w : List ℕ)
    → ((index_of n k w ≡ none) × (remove_first n (take k w) ≡ take k w))
      ⊎ ((i : ℕ) × (index_of n k w ≡ some i)
          × (i < k)
          × (take i w ++ take (k - 1 - i) (drop (suc i) w) ≡ remove_first n (take k w)))
unfolding index_of
index_of-remove_first n zero w = inl (refl, refl)
index_of-remove_first n (suc k) [] = inl (refl, refl)
index_of-remove_first n (suc k) (x ∷ w) = elim (Bool-cases (x == n)) [
  | inl t ↦ inr (
    0,
    rw t refl,
    omega arith,
    rw t (ap (λ j. take j w) {x = suc k - 1 - 0} {y = k} (omega arith)),
  )
  | inr t ↦ elim (index_of-remove_first n k w) [
    | inl (a, b) ↦ inl (rw (t, a) refl, rw t (ap (λ ys. x ∷ ys) b))
    | inr (i, a, b, c) ↦ inr (
      suc i,
      rw (t, a) refl,
      omega arith,
      rw t (
          ap (λ j. x ∷ (take i w ++ take j (drop (suc i) w))) {x = suc k - 1 - suc i}
            {y = k - 1 - i} (omega arith)
          ∙ ap (λ ys. x ∷ ys) c),
    )
  ]
]

Holds-refl : (e : SyncEntry) → Good e → Holds e (queue e) e
Holds-refl e g = record {
  good = g;
  queued = refl;
  same_addr = refl;
  same_use = refl;
  same_credit = refl;
  same_gen = refl;
}

pub remove_waiter-Holds :
    (n : ℕ) (e : SyncEntry) → Good e → Holds e (remove_first n (queue e)) (remove_waiter n e)
unfolding remove_waiter
remove_waiter-Holds n e g = elim (index_of-remove_first n e.nwaiters e.waiters) [
  | inl (a, b) ↦ rw (a, remove_waiter) (subst (λ q. Holds e q e) (sym b) (Holds-refl e g))
  | inr (i, a, b, c) ↦
      rw (a, remove_waiter) (without-Holds i e b c (NoZero-remove_first n (queue e) g.live) g)
]

Holds-trans :
    {e e' e'' : SyncEntry} {q q' : List ℕ} → Holds e q e' → Holds e' q' e'' → Holds e q' e''
Holds-trans h k = record {
  good = k.good;
  queued = k.queued;
  same_addr = k.same_addr ∙ h.same_addr;
  same_use = k.same_use ∙ h.same_use;
  same_credit = k.same_credit ∙ h.same_credit;
  same_gen = k.same_gen ∙ h.same_gen;
}

take-empty : (k : ℕ) (w : List ℕ) → 0 < length w → take k w ≡ [] → k ≡ 0
take-empty zero w h e = refl
take-empty (suc k) [] h e = absurd (omega arith)
take-empty (suc k) (x ∷ w) h e = ground arith

take-head :
    (k : ℕ) (w : List ℕ) {n : ℕ} {ns : List ℕ}
    → take k w ≡ n ∷ ns
    → (0 < k) × (get_or w 0 0 ≡ n) × (take (k - 1 - 0) (drop 1 w) ≡ ns)
take-head zero w e = ground arith
take-head (suc k) [] e = ground arith
take-head (suc k) (x ∷ w) {ns} e =
    let r : take k w ≡ ns = ground arith in
    (omega arith, ground arith, ap (λ j. take j w) {x = suc k - 1 - 0} {y = k} (omega arith) ∙ r)

-- A pop with nobody parked says 0 and does nothing.
pop_waiter-none : (e : SyncEntry) → Good e → queue e ≡ [] → pop_waiter e ≡ (0, e)
unfolding pop_waiter
pop_waiter-none e g q =
    let z = take-empty e.nwaiters e.waiters (omega (arith, g.room)) q in
    rw ((==_iff e.nwaiters 0).1 z) refl

pop_waiter-some :
    (e : SyncEntry) {n : ℕ} {ns : List ℕ}
    → Good e
    → queue e ≡ n ∷ ns
    → ((pop_waiter e).0 ≡ n) × Holds e ns (pop_waiter e).1
unfolding pop_waiter
pop_waiter-some e {ns} g q =
    let (pos, head, tail) = take-head e.nwaiters e.waiters q in
    let f : (e.nwaiters == 0) ≡ false = ground arith in
    let live : NoZero ns = (subst NoZero q g.live).1 in
    let z : e.nwaiters - 1 - 0 ≡ e.nwaiters - 1 = omega arith in
    let room : ℕ → SyncEntry =
      λ j. record e { waiters = shift_down j 0 e.waiters; nwaiters = e.nwaiters - 1 } in
    rw f (head, subst (λ j. Holds e ns (room j)) z (without-Holds 0 e pos tail live g))

wake_loop-step :
    (k : ℕ) (e : SyncEntry) (q : List ℕ)
    → Good e
    → queue e ≡ q
    → ((e' : SyncEntry)
        → Good e'
        → ((wake_loop k e').0 ≡ take k (queue e'))
          × Holds e' (drop k (queue e')) (wake_loop k e').1)
    → ((wake_loop (suc k) e).0 ≡ take (suc k) q) × Holds e (drop (suc k) q) (wake_loop (suc k) e).1
unfolding wake_loop
wake_loop-step k e [] g q ih =
    rw (pop_waiter-none e g q, wake_loop) (refl, subst (λ q. Holds e q e) q (Holds-refl e g))
wake_loop-step k e (n ∷ ns) g q ih =
    let (head, h) = pop_waiter-some e g q in
    let (woken, r) = ih (pop_waiter e).1 h.good in
    let f : ((pop_waiter e).0 == 0) ≡ false = elim (Bool-cases ((pop_waiter e).0 == 0)) [
      | inl t ↦ absurd ((subst NoZero q g.live).0 (sym head ∙ (==_iff (pop_waiter e).0 0).0 t))
      | inr t ↦ t
    ] in
    rw f (
      rw head (ap (λ ys. n ∷ ys) (woken ∙ ap (take k) h.queued)),
      Holds-trans h (
          subst (λ q. Holds (pop_waiter e).1 (drop k q) (wake_loop k (pop_waiter e).1).1) h.queued
            r),
    )

-- The loop wakes the first `k` threads of the queue, in order.
pub wake_loop-Holds :
    (k : ℕ) (e : SyncEntry)
    → Good e
    → ((wake_loop k e).0 ≡ take k (queue e)) × Holds e (drop k (queue e)) (wake_loop k e).1
unfolding wake_loop
wake_loop-Holds zero e g = (refl, Holds-refl e g)
wake_loop-Holds (suc k) e g = wake_loop-step k e (queue e) g refl (wake_loop-Holds k)

pub is_idle-none : (e : SyncEntry) → Good e → queue e ≡ [] → is_idle e ≡ (e.credit == 0)
is_idle-none e g q =
    rw ((==_iff e.nwaiters 0).1 (take-empty e.nwaiters e.waiters (omega (arith, g.room)) q)) refl

pub is_idle-some : (e : SyncEntry) {n : ℕ} {ns : List ℕ} → queue e ≡ n ∷ ns → is_idle e ≡ false
is_idle-some e q =
    let pos = (take-head e.nwaiters e.waiters q).0 in
    let f : (e.nwaiters == 0) ≡ false = ground arith in rw f refl

length-take : (k : ℕ) (w : List ℕ) → k ≤ length w → length (take k w) ≡ k
length-take zero w h = refl
length-take (suc k) [] h = absurd (omega arith)
length-take (suc k) (x ∷ w) h = ap suc (length-take k w (omega arith))

pub length-queue : (e : SyncEntry) → Good e → length (queue e) ≡ e.nwaiters
length-queue e g = length-take e.nwaiters e.waiters (omega (arith, g.room, g.count))
