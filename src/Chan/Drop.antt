-- ===== src/Chan/Drop.antt =====
-- taskman/proc/connect.c and channel.c: connections go with their process or their channel.
use lq.Base.{
  ◌==◌, ◌&&◌, ℕ, zero, suc, ◌≡◌, ◌≢◌, refl, ap, subst, sym, ◌∙◌, Bool, true, false, none, some,
  List, [], ◌∷◌, map, arith, Bool-cases, inl, inr, get_elem?,
}
use lq.Chan.State.{Connection, Registry, first, is_slot, is_badge, connection_find_by_slot}
use lq.Chan.Connect.{close_if, drop_for_pid}
use lq.Chan.Wired.{Wired, clash}

module _ {ℓ} {A : Type ℓ} (p : A → Bool) (f : A → A) where
  first-map_keep :
      (xs : List A)
      → ((x : A) → p (f x) ≡ p x)
      → ((x : A) → p x ≡ true → f x ≡ x)
      → first p (map f xs) ≡ first p xs
  unfolding first
  first-map_keep [] h k = refl
  first-map_keep (x ∷ xs) h k = elim (Bool-cases (p x)) [
    | inl t ↦ rw (h x, t, k x t) refl
    | inr n ↦ rw (h x, n, first-map_keep xs h k) refl
  ]

  first-map-none : (xs : List A) → ((x : A) → p (f x) ≡ false) → first p (map f xs) ≡ none
  unfolding first
  first-map-none [] h = refl
  first-map-none (x ∷ xs) h = rw (h x, first-map-none xs h) refl

close_if-closed :
    (pid slot : ℕ) (c : Connection)
    → is_slot pid slot (close_if (λ x. x.client_pid == pid) c) ≡ false
close_if-closed pid slot c = elim (Bool-cases (c.in_use && c.client_pid == pid)) [
  | inl t ↦ rw t refl
  | inr n ↦ rw n (ground (arith, n))
]

close_if-kept :
    (pid q slot : ℕ) (c : Connection)
    → q ≢ pid
    → is_slot q slot (close_if (λ x. x.client_pid == pid) c) ≡ is_slot q slot c
close_if-kept pid q slot c h = elim (Bool-cases (c.in_use && c.client_pid == pid)) [
  | inl t ↦ rw t (ground (arith, t, h))
  | inr n ↦ rw n refl
]

close_if_other :
    (pid q slot : ℕ) (c : Connection)
    → q ≢ pid
    → is_slot q slot c ≡ true
    → close_if (λ x. x.client_pid == pid) c ≡ c
close_if_other pid q slot c h t =
    let n : (c.in_use && c.client_pid == pid) ≡ false = ground (arith, t, h) in rw n refl

is_badge-used : (badge : ℕ) (c : Connection) → is_badge badge c ≡ true → c.in_use ≡ true
is_badge-used badge c h = ground arith

-- What is in use after a sweep was there before, and the sweep was not after it.
pub map-close_if :
    (p : Connection → Bool) (xs : List Connection) (j : ℕ) (cn : Connection)
    → get_elem? (map (close_if p) xs) j ≡ some cn
    → cn.in_use ≡ true
    → (get_elem? xs j ≡ some cn) × (p cn ≡ false)
map-close_if p [] j cn h u = absurd (ground (arith, h))
map-close_if p (x ∷ xs) (suc j) cn h u = map-close_if p xs j cn h u
map-close_if p (x ∷ xs) zero cn h u = elim (Bool-cases (x.in_use && p x)) [
  | inl t ↦
      let e : record x { in_use = false } ≡ cn = ground (arith, rw t at h) in
      absurd (clash (sym (ap (λ (y : Connection). y.in_use) e)) u)
  | inr n ↦
      let h' : some x ≡ some cn = rw n at h in
      let e : x ≡ cn = ground (arith, h') in
      let u' : x.in_use ≡ true = ap (λ (y : Connection). y.in_use) e ∙ u in
      let f : p x ≡ false = ground (arith, n, u') in (h', subst (λ y. p y ≡ false) e f)
]

module _ (is_global : ℕ → Bool) where
  swept-Wired :
      (p : Connection → Bool) (r : Registry)
      → Wired is_global r
      → Wired is_global (record r { connections = map (close_if p) r.connections })
  swept-Wired p r w = record {
    rings = w.rings;
    names = w.names;
    linked = λ j cn h u. w.linked j cn (map-close_if p r.connections j cn h u).0 u;
    badges = λ j k cn cn' h h' u t.
        w.badges j k cn cn' (map-close_if p r.connections j cn h u).0
          (map-close_if p r.connections k cn' h' (is_badge-used cn.badge cn' t)).0 u t;
  }

  -- From registries in order: when a process ends it has no connection left, every other process
  -- finds at each slot what it found before, and the registries stay in order.
  pub drop_for_pid-lem :
      (pid : ℕ) (r : Registry)
      → Wired is_global r
      → ((slot : ℕ) → connection_find_by_slot pid slot (drop_for_pid pid r) ≡ none)
        × ((q slot : ℕ)
            → q ≢ pid
            → connection_find_by_slot q slot (drop_for_pid pid r)
              ≡ connection_find_by_slot q slot r)
        × Wired is_global (drop_for_pid pid r)
  unfolding drop_for_pid
  drop_for_pid-lem pid r w = (
    λ slot.
        first-map-none (is_slot pid slot) (close_if (λ c. c.client_pid == pid)) r.connections
          (close_if-closed pid slot),
    λ q slot h.
        first-map_keep (is_slot q slot) (close_if (λ c. c.client_pid == pid)) r.connections
          (λ c. close_if-kept pid q slot c h) (λ c t. close_if_other pid q slot c h t),
    swept-Wired (λ c. c.client_pid == pid) r w,
  )
