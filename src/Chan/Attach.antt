-- ===== src/Chan/Attach.antt =====
-- taskman/proc/connect.c: a connection is entered, copied, or given a context.
use lq.Base.{
  not, ℕ, ◌≡◌, refl, ap, subst, sym, ◌∙◌, Bool, true, some, arith, Bool-cases, inl, inr, get_elem?,
  ok, Option-cases,
}
use lq.Chan.State.{Channel, Connection, Registry, is_slot, is_badge}
use lq.Chan.Connect.{with_connection, register_existing, clone_for_dup, set_ctx, get_ctx}
use lq.Chan.Found.{first-lem, first-set, get_elem?-set}
use lq.Chan.Wired.{Wired, is_slot-used}

badge_same : (b : ℕ) (c : Connection) → is_badge b c ≡ true → (c.in_use ≡ true) × (c.badge ≡ b)
badge_same b c h = ground arith

same_badge : (b : ℕ) (c : Connection) → c.in_use ≡ true → c.badge ≡ b → is_badge b c ≡ true
same_badge b c u e = ground arith

module _ (is_global : ℕ → Bool) where
  -- An entry may be written whose channel is in use and whose badge is that of connections to the
  -- same channel only.
  pub with_connection-Wired :
      (j : ℕ) (old cn : Connection) (r : Registry)
      → Wired is_global r
      → get_elem? r.connections j ≡ some old
      → ((c : Channel) × (get_elem? r.channels cn.channel_idx ≡ some c) × (c.in_use ≡ true))
      → ((k : ℕ) (x : Connection)
          → get_elem? r.connections k ≡ some x
          → is_badge cn.badge x ≡ true
          → x.channel_idx ≡ cn.channel_idx)
      → Wired is_global (with_connection j cn r)
  with_connection-Wired j old cn r w at link agree = record {
    rings = w.rings;
    names = w.names;
    linked = λ k x h u. elim (get_elem?-set r.connections j k old cn x at h) [
      | inl (p, q) ↦
          subst
            (λ (y : Connection).
              (c : Channel) × (get_elem? r.channels y.channel_idx ≡ some c) × (c.in_use ≡ true))
            (sym q) link
      | inr (n, q) ↦ w.linked k x q u
    ];
    badges = λ k l x y h h' u t. elim (get_elem?-set r.connections j k old cn x at h) [
      | inl (p, q) ↦ elim (get_elem?-set r.connections j l old cn y at h') [
        | inl (p', q') ↦ ap (λ (z : Connection). z.channel_idx) (q' ∙ sym q)
        | inr (n', q') ↦
            agree l y q' (subst (λ (z : Connection). is_badge z.badge y ≡ true) q t)
            ∙ sym (ap (λ (z : Connection). z.channel_idx) q)
      ]
      | inr (n, q) ↦ elim (get_elem?-set r.connections j l old cn y at h') [
        | inl (p', q') ↦
            let e = ap (λ (z : Connection). z.badge) q' in
            ap (λ (z : Connection). z.channel_idx) q'
            ∙ sym (agree k x q (same_badge cn.badge x u (sym (badge_same x.badge y t).1 ∙ e)))
        | inr (n', q') ↦ w.badges k l x y q q' u t
      ]
    ];
  }

  -- A dup keeps registries that are in order so, whatever its outcome.
  pub clone_for_dup-Wired :
      (pid src_slot dest_slot : ℕ) (r : Registry)
      → Wired is_global r
      → Wired is_global (clone_for_dup pid src_slot dest_slot r).1
  unfolding clone_for_dup
  clone_for_dup-Wired pid src_slot dest_slot r w =
      elim (first-lem (is_slot pid src_slot) r.connections) [
        | inl (n, none_pass) ↦ rw (n, clone_for_dup) w
        | inr (k, src, found, at, t) ↦
            elim (first-lem (λ (c : Connection). not c.in_use) r.connections) [
              | inl (n, none_pass) ↦ rw (found, n, clone_for_dup) w
              | inr (j, old, free, there, f) ↦
                  rw (found, free, clone_for_dup)
                    (with_connection-Wired j old _ r w there
                      (w.linked k src at (is_slot-used pid src_slot src t))
                      (λ l x h b. w.badges k l src x at h (is_slot-used pid src_slot src t) b))
            ]
      ]

  -- A connection that is entered with a badge in use for its channel only, a new one above all,
  -- keeps registries that are in order so, whatever the outcome.
  pub register_existing-Wired :
      (pid slot channel_idx badge flags : ℕ) (r : Registry)
      → Wired is_global r
      → ((k : ℕ) (x : Connection)
          → get_elem? r.connections k ≡ some x
          → is_badge badge x ≡ true
          → x.channel_idx ≡ channel_idx)
      → Wired is_global (register_existing pid slot channel_idx badge flags r).1
  unfolding register_existing
  register_existing-Wired pid slot channel_idx badge flags r w agree =
      elim (Option-cases (get_elem? r.channels channel_idx)) [
        | inl n ↦ rw (n, register_existing) w
        | inr (ch, at) ↦ elim (Bool-cases ch.in_use) [
          | inr f ↦ rw (at, f, register_existing) w
          | inl u ↦ elim (first-lem (λ (c : Connection). not c.in_use) r.connections) [
            | inl (n, none_pass) ↦ rw (at, u, n, register_existing) w
            | inr (j, old, free, there, f) ↦
                rw (at, u, free, register_existing)
                  (with_connection-Wired j old _ r w there (ch, at, u) agree)
          ]
        ]
      ]

-- The context that is set on a badge is the one that is read on it.
pub get_ctx-set_ctx :
    (badge c0 c1 : ℕ) (r : Registry)
    → (set_ctx badge c0 c1 r).0 ≡ ok
    → get_ctx badge (set_ctx badge c0 c1 r).1 ≡ some (c0, c1)
unfolding get_ctx set_ctx
get_ctx-set_ctx badge c0 c1 r answered = elim (first-lem (is_badge badge) r.connections) [
  | inl (n, none_pass) ↦ absurd (ground (arith, (rw (n, set_ctx) at answered)))
  | inr (j, c, found, at, t) ↦
      rw (found, set_ctx)
        (rw
          (
            first-set (is_badge badge) r.connections j c (record c { ctx0 = c0; ctx1 = c1 }) found
                t,
            get_ctx,
          )
          refl)
]
