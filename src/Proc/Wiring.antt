-- ===== src/Proc/Wiring.antt =====
-- taskman/proc/channel.c, connect.c: what a new channel and a new connection do to the registries.
use lq.Base.{
  ℕ, ◌≡◌, ◌≢◌, refl, ap, ◌∙◌, sym, subst, Bool, true, false, not, List, none, some, Bool-cases,
  Option-cases, inl, inr, Result, value, fail, ◌==◌, arith, get_elem?, length, esrch, enomem,
}
use lq.Chan.State.{Channel, Registry, first, is_channel, channel_find}
use lq.Chan.Pulse.{with_channel}
use lq.Chan.Ring.{IsRing}
use lq.Chan.Found.{first-lem, get_elem?-set, get_elem?-set_ne}
use lq.Chan.Wired.{Wired, clash}
use lq.Proc.State.{Process, System, Kernel, Abi}
use lq.Proc.Table.{known}
use lq.Proc.Quiet.{Quiet, bind-Quiet, quiet_then}
use lq.Proc.Net.{
  net, gets-Quiet, invoke-Quiet, process_alloc_slot-Quiet, alloc_and_retype-Quiet, make_ntfn-Quiet,
  or_raise-Quiet, raise_if-Quiet,
}
use lq.Proc.Slots.{own_cap, cap_of}
use lq.Proc.Channels.{created, bind_tcb, enter, fill, has_bit, effective_chid, channel_create}

-- The first entry that is free, as the search finds it.
pub found_free :
    {A : Type 0} (p : A → Bool) (xs : List A) (i : ℕ) (x : A)
    → first p xs ≡ some (i, x)
    → (get_elem? xs i ≡ some x) × (p x ≡ true)
found_free p xs i x h = elim (first-lem p xs) [
  | inl (n, nope) ↦ absurd (ground (arith, n, h))
  | inr (j, y, e, at, t) ↦
      let a : j ≡ i = ground (arith, e, h) in
      let b : y ≡ x = ground (arith, e, h) in
      subst (λ z. (get_elem? xs i ≡ some z) × (p z ≡ true)) b
        (subst (λ k. get_elem? xs k ≡ some y) a at, t)
]

none_passes :
    {A : Type 0} (p : A → Bool) (xs : List A)
    → first p xs ≡ none
    → (i : ℕ) (x : A) → get_elem? xs i ≡ some x
    → p x ≡ false
none_passes p xs h = elim (first-lem p xs) [
  | inl (n, nope) ↦ nope
  | inr (j, y, e, at, t) ↦ absurd (ground (arith, e, h))
]

empty-IsRing :
    (c : Channel)
    → length c.pulse_queue ≡ 8
    → c.pulse_head ≡ 0
    → c.pulse_tail ≡ 0
    → c.pulse_count ≡ 0
    → IsRing c
empty-IsRing c room head tail count = record {
  room = room;
  head = omega (arith, head);
  count = omega (arith, count);
  tail = omega (arith, tail, head, count);
}

-- A free entry is not one in use.
busy : (c d : Channel) → (not c.in_use) ≡ true → d.in_use ≡ true → some c ≡ some d → ⊥
busy c d idle used e =
    let same : c ≡ d = ground (arith, e) in
    let u : c.in_use ≡ true = ap (λ (x : Channel). x.in_use) same ∙ used in ground (arith, idle, u)

module _ (is_global : ℕ → Bool) where
  -- Either name of two channels finds the other, if one does.
  is_channel_symm :
      (c d : Channel)
      → c.in_use ≡ true
      → is_channel is_global c.owner_pid c.owner_chid d ≡ true
      → is_channel is_global d.owner_pid d.owner_chid c ≡ true
  is_channel_symm c d u h = ground (arith, u, h)

  is_channel-used :
      (c : Channel) → is_channel is_global c.owner_pid c.owner_chid c ≡ true → c.in_use ≡ true
  is_channel-used c h = elim (Bool-cases c.in_use) [
    | inl t ↦ t
    | inr f ↦ absurd (ground (arith, (rw f at h)))
  ]

  -- A channel with an empty queue and a name that is not taken goes into a free entry.
  pub created-Wired :
      (pid chid flags master recv ntfn sig i : ℕ) (old : Channel) (r : Registry)
      → Wired is_global r
      → channel_find is_global pid chid r ≡ none
      → first (λ (c : Channel). not c.in_use) r.channels ≡ some (i, old)
      → Wired is_global (with_channel i (created pid chid flags master recv ntfn sig old) r)
  created-Wired pid chid flags master recv ntfn sig i old r w fresh free =
      let new = created pid chid flags master recv ntfn sig old in
      let (at, idle) = found_free (λ (c : Channel). not c.in_use) r.channels i old free in
      let unnamed = none_passes (is_channel is_global pid chid) r.channels fresh in
      record {
        rings = λ k d h. elim (get_elem?-set r.channels i k old new d at h) [
          | inl (p, q) ↦
              subst IsRing (sym q) (empty-IsRing new (w.rings i old at).room refl refl refl)
          | inr (n, q) ↦ w.rings k d q
        ];
        names = λ j k c d p q own t. elim (get_elem?-set r.channels i j old new c at p) [
          | inl (a, b) ↦ elim (get_elem?-set r.channels i k old new d at q) [
            | inl (a', b') ↦ a ∙ sym a'
            | inr (a', b') ↦ absurd (
                clash (unnamed k d b') (
                  subst (λ (x : Channel). is_channel is_global x.owner_pid x.owner_chid d ≡ true) b
                    t))
          ]
          | inr (a, b) ↦ elim (get_elem?-set r.channels i k old new d at q) [
            | inl (a', b') ↦ absurd (
                clash (unnamed j c b) (
                  is_channel_symm c new (is_channel-used c own)
                    (subst (λ x. is_channel is_global c.owner_pid c.owner_chid x ≡ true) b' t)))
            | inr (a', b') ↦ w.names j k c d b b' own t
          ]
        ];
        linked = λ j cn h u.
            let (d, there, used) = w.linked j cn h u in
            let off : i ≢ cn.channel_idx =
              λ e. busy old d idle used (sym at ∙ ap (get_elem? r.channels) e ∙ there) in
            (d, get_elem?-set_ne r.channels i cn.channel_idx new off ∙ there, used);
        badges = w.badges;
      }

module _ {K : Type 0} (kernel : Kernel K) (abi : Abi) where
  -- What `tm_channel_create` can do to the registries `r`: nothing, where it fails; else it fills the
  -- first free record, under a name that is not taken.
  abbrev pub CreateOutcome : ℕ → ℕ → Registry → Result (ℕ × ℕ) × System K → Type 0
  CreateOutcome pid flags r (fail e, s) = s.registry ≡ r
  CreateOutcome pid flags r (value (recv, chid), s) =
      (i : ℕ) × (old : Channel) × (master : ℕ) × (ntfn : ℕ) × (sig : ℕ) × (channel_find
          abi.is_global pid chid r
        ≡ none)
      × (first (λ (c : Channel). not c.in_use) r.channels ≡ some (i, old))
      × (s.registry ≡ with_channel i (created pid chid flags master recv ntfn sig old) r)

  pub known-Quiet : (pid : ℕ) → Quiet {K = K} net (known pid)
  known-Quiet pid = bind-Quiet net (gets-Quiet _) λ found. or_raise-Quiet found esrch

  effective_chid-Quiet : (flags chid : ℕ) → Quiet {K = K} net (effective_chid abi flags chid)
  unfolding effective_chid
  effective_chid-Quiet flags chid = record {
    same = λ s. elim (Bool-cases (has_bit flags abi.chf_global)) [
      | inl t ↦ rw (t, effective_chid) refl
      | inr f ↦ rw (f, effective_chid) refl
    ];
  }

  registry_of : (t s : System K) → net t ≡ net s → t.registry ≡ s.registry
  registry_of t s v = ap (λ n. n.0) v

  -- The end of `channel_create`, once the record `i` is chosen.
  module _ (pid chid flags i tcb : ℕ) (old : Channel) (r : Registry)
      (fresh : channel_find abi.is_global pid chid r ≡ none)
      (free : first (λ (c : Channel). not c.in_use) r.channels ≡ some (i, old)) where
    enter_lem :
        (master recv : ℕ) (copied : Bool) (s : System K)
        → s.registry ≡ r
        → CreateOutcome pid flags r (enter kernel abi pid chid flags i tcb old master recv copied s)
    unfolding enter
    enter_lem master recv false s e = e
    enter_lem master recv true s e =
        quiet_then net _ (CreateOutcome pid flags r) s (make_ntfn-Quiet kernel abi flags tcb)
          (λ _ t v. registry_of t s v ∙ e)
          λ (ntfn, sig) t v. (
            i,
            old,
            master,
            ntfn,
            sig,
            fresh,
            free,
            ap (with_channel i (created pid chid flags master recv ntfn sig old))
                (registry_of t s v ∙ e),
          )

    fill_lem :
        (owner : Process) (s : System K)
        → s.registry ≡ r
        → CreateOutcome pid flags r (fill kernel abi pid chid flags i tcb owner old s)
    unfolding fill
    fill_lem owner s e =
        let G = CreateOutcome pid flags r in
        let keep : (t : System K) → net t ≡ net s → t.registry ≡ r = λ t v. registry_of t s v ∙ e in
        quiet_then net _ G s (alloc_and_retype-Quiet kernel abi abi.endpoint 0) (λ _ t v. keep t v)
          λ master t1 v1.
            quiet_then net _ G t1 (raise_if-Quiet (master == 0) enomem) (λ _ t v. keep t (v ∙ v1))
              λ _ t2 v2.
                quiet_then net _ G t2 (process_alloc_slot-Quiet abi pid)
                  (λ _ t v. keep t (v ∙ v2 ∙ v1))
                  λ recv t3 v3.
                    quiet_then net _ G t3
                      (invoke-Quiet (
                        kernel.copy (cap_of abi pid owner.cnode recv) (own_cap abi master)
                          abi.rights_all))
                      (λ _ t v. keep t (v ∙ v3 ∙ v2 ∙ v1))
                      λ copied t4 v4. enter_lem master recv copied t4 (keep t4 (v4 ∙ v3 ∙ v2 ∙ v1))

  -- A create that answers an errno leaves the registries as they were; one that answers a slot and a
  -- chid has written one record, which was free, as the channel of the caller under that chid, and no
  -- channel was found under it before.
  pub channel_create_lem :
      (pid chid flags tid : ℕ) (s : System K)
      → CreateOutcome pid flags s.registry (channel_create kernel abi pid chid flags tid s)
  unfolding channel_create
  channel_create_lem pid chid flags tid s =
      let G = CreateOutcome pid flags s.registry in
      quiet_then net _ G s (known-Quiet pid) (λ e t v. registry_of t s v)
        λ (i, owner) t1 v1.
          quiet_then net _ G t1 (effective_chid-Quiet flags chid)
            (λ e t v. registry_of t s (v ∙ v1))
            λ chid' t2 v2.
              let e2 = registry_of t2 s (v2 ∙ v1) in
              elim (Option-cases (channel_find abi.is_global pid chid' t2.registry)) [
                | inr (c, q) ↦ rw q e2
                | inl n ↦
                    elim (Option-cases
                      (first (λ (c : Channel). not c.in_use) t2.registry.channels)) [
                        | inl m ↦ rw (n, m) e2
                        | inr ((j, old), f) ↦
                            rw (n, f)
                              (fill_lem pid chid' flags j (bind_tcb pid tid owner t1) old s.registry
                                (sym (ap (channel_find abi.is_global pid chid') e2) ∙ n)
                                (sym (
                                    ap
                                      (λ (r : Registry).
                                        first (λ (c : Channel). not c.in_use) r.channels)
                                      e2)
                                  ∙ f)
                                owner t2 e2)
                      ]
              ]

  -- Whatever a create comes to, the registries stay in order.
  pub channel_create-Wired :
      (pid chid flags tid : ℕ) (s : System K)
      → Wired abi.is_global s.registry
      → Wired abi.is_global (channel_create kernel abi pid chid flags tid s).1.registry
  channel_create-Wired pid chid flags tid s w =
      go (channel_create kernel abi pid chid flags tid s) (channel_create_lem pid chid flags tid s)
    where
      go :
          (out : Result (ℕ × ℕ) × System K)
          → CreateOutcome pid flags s.registry out
          → Wired abi.is_global out.1.registry
      go (fail e, s') h = rw h w
      go (value (recv, chid'), s') (i, old, master, ntfn, sig, fresh, free, e) = rw e (
          created-Wired abi.is_global pid chid' flags master recv ntfn sig i old s.registry w fresh
            free)
