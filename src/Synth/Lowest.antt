-- ===== src/Synth/Lowest.antt =====
-- taskman/path/procfs.c: the next process of a listing of /proc.
use lq.Base.{
  ℕ, zero, suc, ◌≤◌, ◌<◌, ◌≡◌, refl, sym, ap, ◌∙◌, ◌&&◌, ◌⊎◌, inl, inr, Bool, true, false, Option,
  none, some, List, [], ◌∷◌, arith, Bool-cases, Option-cases, get_elem?, leb, ltb,
}
use lq.Proc.State.{Process}
use lq.Synth.Procfs.{lowest_from, procfs_next}

both_hold :
    (from pid b : ℕ) (u : Bool)
    → (u && (leb from pid && ltb pid b)) ≡ true
    → (u ≡ true) × (from ≤ pid) × (pid < b)
both_hold from pid b u h = (ground arith, ground arith, ground arith)

holds : (from pid : ℕ) (u : Bool) → (u && (leb from pid && true)) ≡ true → (u ≡ true) × (from ≤ pid)
holds from pid u h = (ground arith, ground arith)

not_better :
    (from pid b : ℕ) (u : Bool)
    → (u && (leb from pid && ltb pid b)) ≡ false
    → u ≡ true
    → from ≤ pid
    → b ≤ pid
not_better from pid b u h used above = ground arith

passes : (from pid : ℕ) (u : Bool) → u ≡ true → from ≤ pid → (u && (leb from pid && true)) ≡ true
passes from pid u used above = ground arith

module _ (from : ℕ) where
  -- What the loop answers is at most what it had before.
  below_best :
      (ps : List Process) (b : ℕ) → (o : ℕ) × (lowest_from from (some b) ps ≡ some o) × (o ≤ b)
  unfolding lowest_from
  below_best [] b = (b, refl, omega arith)
  below_best (p ∷ ps) b = elim (Bool-cases (p.in_use && (leb from p.pid && ltb p.pid b))) [
    | inl t ↦
        let (o, e, l) = below_best ps p.pid in
        let (u, a, s) = both_hold from p.pid b p.in_use t in (o, rw t e, omega (arith, l, s))
    | inr f ↦ let (o, e, l) = below_best ps b in (o, rw f e, l)
  ]

  -- And at most the pid of each process in use from `from` on.
  below_each :
      (ps : List Process) (best : Option ℕ) (i : ℕ) (p : Process)
      → get_elem? ps i ≡ some p
      → p.in_use ≡ true
      → from ≤ p.pid
      → (o : ℕ) × (lowest_from from best ps ≡ some o) × (o ≤ p.pid)
  unfolding lowest_from
  below_each [] best i p at used above = absurd (ground (arith, at))
  below_each (q ∷ qs) none zero p at used above =
      let same : q ≡ p = ground (arith, at) in
      let u : q.in_use ≡ true = ap (λ (z : Process). z.in_use) same ∙ used in
      let a : from ≤ q.pid = omega (arith, above, ap (λ (z : Process). z.pid) same) in
      let (o, e, l) = below_best qs q.pid in
      (o, rw (passes from q.pid q.in_use u a) e, omega (arith, l, ap (λ (z : Process). z.pid) same))
  below_each (q ∷ qs) (some b) zero p at used above =
      let same : q ≡ p = ground (arith, at) in
      let id : q.pid ≡ p.pid = ap (λ (z : Process). z.pid) same in
      elim (Bool-cases (q.in_use && (leb from q.pid && ltb q.pid b))) [
        | inl t ↦ let (o, e, l) = below_best qs q.pid in (o, rw t e, omega (arith, l, id))
        | inr f ↦
            let (o, e, l) = below_best qs b in
            let least =
              not_better from q.pid b q.in_use f (ap (λ (z : Process). z.in_use) same ∙ used)
                (omega (arith, above, id)) in
            (o, rw f e, omega (arith, l, id, least))
      ]
  below_each (q ∷ qs) best (suc i) p at used above = below_each qs _ i p at used above

  -- A process in use of the table with the pid `o`.
  abbrev pub Listed : ℕ → List Process → Type 0
  Listed o ps =
      (i : ℕ) × (p : Process) × (get_elem? ps i ≡ some p)
      × (p.in_use ≡ true)
      × (from ≤ p.pid)
      × (p.pid ≡ o)

  shift : (o : ℕ) (q : Process) (qs : List Process) → Listed o qs → Listed o (q ∷ qs)
  shift o q qs (i, p, at, u, a, e) = (suc i, p, at, u, a, e)

  -- The answer comes from the table or was there before.
  from_table :
      (ps : List Process) (best : Option ℕ) (o : ℕ)
      → lowest_from from best ps ≡ some o
      → (best ≡ some o) ⊎ Listed o ps
  unfolding lowest_from
  from_table [] best o h = inl h
  from_table (q ∷ qs) none o h = elim (Bool-cases (q.in_use && (leb from q.pid && true))) [
    | inl t ↦
        let (u, a) = holds from q.pid q.in_use t in
        elim (from_table qs (some q.pid) o (rw t at h)) [
          | inl e ↦ inr (0, q, refl, u, a, ground (arith, e))
          | inr l ↦ inr (shift o q qs l)
        ]
    | inr f ↦ elim (from_table qs none o (rw f at h)) [
      | inl e ↦ inl e
      | inr l ↦ inr (shift o q qs l)
    ]
  ]
  from_table (q ∷ qs) (some b) o h =
      elim (Bool-cases (q.in_use && (leb from q.pid && ltb q.pid b))) [
        | inl t ↦
            let (u, a, s) = both_hold from q.pid b q.in_use t in
            elim (from_table qs (some q.pid) o (rw t at h)) [
              | inl e ↦ inr (0, q, refl, u, a, ground (arith, e))
              | inr l ↦ inr (shift o q qs l)
            ]
        | inr f ↦ elim (from_table qs (some b) o (rw f at h)) [
          | inl e ↦ inl e
          | inr l ↦ inr (shift o q qs l)
        ]
      ]

  above :
      (ps : List Process)
      → procfs_next from ps ≡ none
      → (i : ℕ) (p : Process) → get_elem? ps i ≡ some p
      → p.in_use ≡ true
      → p.pid < from
  above ps n i p at u = elim (Bool-cases (leb from p.pid)) [
    | inl t ↦
        let (o, e, m) = below_each ps none i p at u (ground (arith, t)) in
        absurd (ground (arith, e, n))
    | inr f ↦ ground (arith, f)
  ]

  -- The search for the next process answers the lowest pid of the processes in use from `from` on,
  -- and nothing only where there is none.
  pub procfs_next-lowest :
      (ps : List Process)
      → ((procfs_next from ps ≡ none)
          × ((i : ℕ) (p : Process) → get_elem? ps i ≡ some p → p.in_use ≡ true → p.pid < from))
        ⊎ ((o : ℕ) × (procfs_next from ps ≡ some o)
            × Listed o ps
            × ((i : ℕ) (p : Process)
                → get_elem? ps i ≡ some p
                → p.in_use ≡ true
                → from ≤ p.pid
                → o ≤ p.pid))
  procfs_next-lowest ps = elim (Option-cases (procfs_next from ps)) [
    | inl n ↦ inl (n, above ps n)
    | inr (o, e) ↦ elim (from_table ps none o e) [
      | inl z ↦ absurd (ground (arith, z))
      | inr l ↦ inr (
        o,
        e,
        l,
        λ i p at u a.
            let (o', e', m) = below_each ps none i p at u a in
            let same : some o' ≡ some o = sym e' ∙ e in
            omega (arith, m, (let e : o' ≡ o = ground (arith, same) in e)),
      )
    ]
  ]
