-- ===== src/Chan/Dup.antt =====
-- taskman/proc/connect.c: the contexts of a connection and of its copy.
use lq.Base.{
  ℕ, zero, suc, ◌<◌, ◌≡◌, ◌≢◌, refl, sym, ap, subst, ◌∙◌, Bool, true, false, not, some, List, [],
  ◌∷◌, arith, Bool-cases, inl, inr, get_elem?, set,
}
use lq.Chan.State.{
  Connection, Registry, first, is_badge, connection_find_by_slot, connection_find_by_badge,
}
use lq.Chan.Connect.{with_connection, connection_alloc_slot_idx, clone_for_dup, set_ctx, get_ctx}
use lq.Chan.Found.{first-lem, first-set, get_elem?-set, get_elem?-set_self, get_elem?-set_ne}

-- A write behind the entry that a search finds does not change what it finds.
first-set_behind {ℓ} :
    {A : Type ℓ} (p : A → Bool) (xs : List A) (j k : ℕ) (x v : A)
    → first p xs ≡ some (j, x)
    → j < k
    → first p (set xs k v) ≡ some (j, x)
unfolding first
first-set_behind p [] j k x v h l = absurd (ground (arith, h))
first-set_behind p (y ∷ ys) j zero x v h l = absurd (omega (arith, l))
first-set_behind p (y ∷ ys) j (suc k) x v h l = elim (Bool-cases (p y)) [
  | inl t ↦ rw t (rw t at h)
  | inr n ↦ elim (first-lem p ys) [
    | inl (e, nope) ↦ absurd (ground (arith, (rw (n, e) at h)))
    | inr (i, z, e, at, t) ↦
        let q : some (suc i, z) ≡ some (j, x) = rw (n, e) at h in
        let a : suc i ≡ j = ground (arith, q) in
        rw (n, first-set_behind p ys i k z v e (omega (arith, a, l))) q
  ]
]

-- The only entry that passes a test is found.
first_only {ℓ} :
    {A : Type ℓ} (p : A → Bool) (xs : List A) (k : ℕ) (y : A)
    → get_elem? xs k ≡ some y
    → p y ≡ true
    → ((l : ℕ) (x : A) → get_elem? xs l ≡ some x → p x ≡ true → l ≡ k)
    → first p xs ≡ some (k, y)
first_only p xs k y at t only = elim (first-lem p xs) [
  | inl (n, nope) ↦ absurd (let f : p y ≡ false = nope k y at in ground (arith, f, t))
  | inr (i, x, e, there, u) ↦
      let same : i ≡ k = only i x there u in
      let both : some x ≡ some y = sym there ∙ ap (get_elem? xs) same ∙ at in
      let own : x ≡ y = ground (arith, both) in
      e ∙ ap (λ n. some (n, x)) same ∙ ap (λ z. some (k, z)) own
]

closed_badge : (b : ℕ) (cn : Connection) → cn.in_use ≡ false → is_badge b cn ≡ true → ⊥
closed_badge b cn f t = ground arith

own_badge : (cn : Connection) → cn.in_use ≡ true → is_badge cn.badge cn ≡ true
own_badge cn u = ground arith

-- A connection is copied to a record behind it, a context is set on their badge, which nothing else
-- in use has, and the first one is closed: before that the context read on the badge is the one that
-- was set, afterwards it is the one that the connection had when it was copied.
pub get_ctx-clone_for_dup :
    (pid src_slot dest_slot j k c0 c1 : ℕ) (src old closed : Connection) (r : Registry)
    → connection_find_by_slot pid src_slot r ≡ some (j, src)
    → connection_find_by_badge src.badge r ≡ some (j, src)
    → connection_alloc_slot_idx r ≡ some (k, old)
    → j < k
    → ((l : ℕ) (x : Connection)
        → get_elem? r.connections l ≡ some x
        → is_badge src.badge x ≡ true
        → l ≡ j)
    → closed.in_use ≡ false
    → let r1 = (clone_for_dup pid src_slot dest_slot r).1 in
      let r2 = (set_ctx src.badge c0 c1 r1).1 in
      (get_ctx src.badge r2 ≡ some (c0, c1))
      × (get_ctx src.badge (with_connection j closed r2) ≡ some (src.ctx0, src.ctx1))
unfolding clone_for_dup set_ctx get_ctx
get_ctx-clone_for_dup pid src_slot dest_slot j k c0 c1 src old closed r slot badge free behind only
      shut =
    let xs = r.connections in
    let p = is_badge src.badge in
    let copy : Connection = record src {
      in_use = true;
      client_pid = pid;
      client_slot = dest_slot;
      ntfn_slot = 0;
    } in
    let moved : Connection = record src { ctx0 = c0; ctx1 = c1 } in
    let (here, used) = found p xs j src badge in
    let (there, idle) = found (λ (c : Connection). not c.in_use) xs k old free in
    let off : j ≢ k = λ e. omega (arith, e, behind) in
    let ys = set xs k copy in
    let first_copy : first p ys ≡ some (j, src) = first-set_behind p xs j k src copy badge behind in
    let first_moved : first p (set ys j moved) ≡ some (j, moved) =
      first-set p ys j src moved first_copy used in
    let at_j : get_elem? ys j ≡ some src = (found p ys j src first_copy).0 in
    let at_moved : get_elem? (set ys j moved) j ≡ some moved =
      get_elem?-set_self ys j src moved at_j in
    let at_copy : get_elem? (set (set ys j moved) j closed) k ≡ some copy =
      get_elem?-set_ne (set ys j moved) j k closed off
      ∙ get_elem?-set_ne ys j k moved off
      ∙ get_elem?-set_self xs k old copy there in
    let last : first p (set (set ys j moved) j closed) ≡ some (k, copy) =
      first_only p (set (set ys j moved) j closed) k copy at_copy (own_badge copy refl) λ l x h t.
        elim (get_elem?-set (set ys j moved) j l moved closed x at_moved h) [
          | inl (a, b) ↦
              absurd (closed_badge src.badge x (ap (λ (c : Connection). c.in_use) b ∙ shut) t)
          | inr (a, h') ↦ elim (get_elem?-set ys j l src moved x at_j h') [
            | inl (a', b) ↦ absurd (a a')
            | inr (a', h'') ↦ elim (get_elem?-set xs k l old copy x there h'') [
              | inl (e, b) ↦ e
              | inr (e, h''') ↦ absurd (a (only l x h''' t))
            ]
          ]
        ] in
    rw (clone_for_dup, slot, free)
      (rw (set_ctx, first_copy) (rw (get_ctx, first_moved) refl, rw (get_ctx, last) refl))
  where
    found :
        (p : Connection → Bool) (xs : List Connection) (i : ℕ) (x : Connection)
        → first p xs ≡ some (i, x)
        → (get_elem? xs i ≡ some x) × (p x ≡ true)
    found p xs i x h = elim (first-lem p xs) [
      | inl (n, nope) ↦ absurd (ground (arith, n, h))
      | inr (j, y, e, at, t) ↦
          let a : j ≡ i = ground (arith, e, h) in
          let b : y ≡ x = ground (arith, e, h) in
          subst (λ z. (get_elem? xs i ≡ some z) × (p z ≡ true)) b
            (subst (λ k. get_elem? xs k ≡ some y) a at, t)
    ]
