-- ===== src/Sync/Wakeups.antt =====
-- libc/qsoe/sync.c: what a wake that comes before its wait leaves behind.
use lq.Base.{
  unequal, ℕ, ◌≡◌, ◌≢◌, refl, sym, ap, subst, ◌∙◌, Bool, false, Option, none, some, List, [], ◌∷◌,
  arith, inl, inr, ok, take, if◌then◌else◌,
}
use lq.Sync.Table.{
  Table, by_credit, by_gen, absorb, discard, done, parks, wait_begin, wake, condvar_signal,
  find_entry, wake_missing,
}
use lq.Sync.Slots.{Waiting, Inv, view, seen, all_used, find_entry-lem}
use lq.Sync.Refine.{wait_means, wake_means, parked_at, wait_begin-Acts, wake-Acts}

none_parked : (q : List ℕ) → take 1 q ≡ [] → q ≡ []
none_parked [] h = refl
none_parked (x ∷ q) h = ground (arith, h)

parks_done : parks ≢ done ok
parks_done h = ground (arith, h)

-- With nobody parked, what an absorbing wake leaves makes a credit wait return.
credit_handed :
    (myn expected : ℕ) (w : Option Waiting)
    → take 1 (parked_at w) ≡ []
    → (wait_means myn by_credit expected (wake_means 1 absorb w)).0 ≡ done ok
credit_handed myn expected none h = refl
credit_handed myn expected (some s) h = let p = none_parked s.parked h in rw p refl

-- A wake of one thread that finds nobody parked is not lost: the next credit wait on that address
-- returns at once.
pub wake-wait_begin :
    (a : ℕ) (t : Table) (myn expected : ℕ)
    → Inv t
    → a ≢ 0
    → myn ≢ 0
    → (wake a 1 absorb t).0 ≡ ok
    → (wake a 1 absorb t).1 ≡ []
    → (wait_begin myn a by_credit expected (wake a 1 absorb t).2).0 ≡ done ok
wake-wait_begin a t myn expected v nz live answered nobody = elim (wake-Acts a 1 t absorb v nz) [
  | inr (p, full) ↦ absurd (ground (arith, p, answered))
  | inl (p, signals, acts) ↦
      let handed = credit_handed myn expected (view a t) (sym signals ∙ nobody) in
      let there =
        subst (λ w. (wait_means myn by_credit expected w).0 ≡ done ok) (sym acts.at) handed in
      elim (wait_begin-Acts a (wake a 1 absorb t).2 myn by_credit expected acts.inv nz live) [
        | inl (r, done') ↦ r ∙ there
        | inr (q, (used, unseen)) ↦ absurd (
            parks_done
              (subst (λ w. (wait_means myn by_credit expected w).0 ≡ done ok) unseen there))
      ]
]

unseen-find_entry : (a : ℕ) (t : Table) → Inv t → view a t ≡ none → find_entry a t ≡ none
unseen-find_entry a t v h = elim (find_entry-lem a t v) [
  | inl (p, q) ↦ p
  | inr (i, e, p, q, k, g, s) ↦ absurd (ground (arith, sym (ap seen q) ∙ h))
]

discarded :
    (a n : ℕ) (t : Table) → Inv t → a ≢ 0 → view a t ≡ none → wake a n discard t ≡ (ok, [], t)
unfolding wake wake_missing
discarded a n t v nz h = rw (unequal a 0 nz, unseen-find_entry a t v h) refl

-- A condition that was never signalled, with nobody parked and a free entry in the table: a signal
-- between the sample of its count, 0, and the wait on it is lost, and the thread parks.
pub condvar_signal-lost :
    (a : ℕ) (t : Table) (myn : ℕ) (wake_all : Bool)
    → Inv t
    → a ≢ 0
    → myn ≢ 0
    → view a t ≡ none
    → all_used t ≡ false
    → let (s, count, ns, t') = condvar_signal a 0 wake_all t in
      (s ≡ ok) × (count ≡ 1) × (ns ≡ []) × ((wait_begin myn a by_gen 0 t').0 ≡ parks)
unfolding condvar_signal
condvar_signal-lost a t myn wake_all v nz live unseen free =
    rw (unequal a 0 nz, discarded a (if wake_all then 0 else 1) t v nz unseen, condvar_signal)
      (
        refl,
        refl,
        refl,
        elim (wait_begin-Acts a t myn by_gen 0 v nz live) [
          | inl (r, acts) ↦ r ∙ ap (λ w. (wait_means myn by_gen 0 w).0) unseen
          | inr (q, (used, u)) ↦ absurd (ground (arith, used, free))
        ],
      )
