-- ===== src/Proc/Roomy.antt =====
-- taskman/proc: a small system whose registries are in order, for tests.
use lq.Base.{
  ℕ, zero, suc, ◌≡◌, refl, sym, ap, subst, ◌∙◌, true, false, some, [], ◌∷◌, arith, ◌⊎◌, inl, inr,
  get_elem?,
}
use lq.Chan.State.{Channel, Connection, Registry, is_channel, is_badge}
use lq.Chan.Ring.{IsRing}
use lq.Chan.Wired.{Wired}
use lq.Chan.Sample.{local, channel, connection, channel-IsRing}
use lq.Proc.Sample.{abi, kernel, system}
use lq.Proc.Attached.{Linked}

-- The sample registry with a free record in each table.
abbrev pub roomy : Registry
roomy = record {
  channels = channel ∷ record channel { in_use = false; owner_chid = 0 } ∷ [];
  connections = connection ∷ record connection { in_use = false } ∷ [];
}

some_inj : {A : Type 0} (x y : A) → some x ≡ some y → x ≡ y
some_inj x y h = ground (arith, h)

channel_at :
    (i : ℕ) (c : Channel)
    → get_elem? roomy.channels i ≡ some c
    → ((i ≡ 0) × (channel ≡ c))
      ⊎ ((i ≡ 1) × (record channel { in_use = false; owner_chid = 0 } ≡ c))
channel_at zero c h = inl (refl, some_inj channel c h)
channel_at (suc zero) c h =
    inr (refl, some_inj (record channel { in_use = false; owner_chid = 0 }) c h)
channel_at (suc (suc i)) c h = absurd (ground (arith, h))

connection_at :
    (j : ℕ) (cn : Connection)
    → get_elem? roomy.connections j ≡ some cn
    → cn.in_use ≡ true
    → (j ≡ 0) × (connection ≡ cn)
connection_at zero cn h u = (refl, some_inj connection cn h)
connection_at (suc zero) cn h u =
    let e : record connection { in_use = false } ≡ cn =
      some_inj (record connection { in_use = false }) cn h in
    absurd (let f : false ≡ true = ap (λ (x : Connection). x.in_use) e ∙ u in ground (arith, f))
connection_at (suc (suc j)) cn h u = absurd (ground (arith, h))

own_channel : (c : Channel) → is_channel local c.owner_pid c.owner_chid c ≡ true → c.in_use ≡ true
own_channel c h = ground arith

badge_used : (b : ℕ) (cn : Connection) → is_badge b cn ≡ true → cn.in_use ≡ true
badge_used b cn h = ground arith

idle_not :
    (c : Channel) → record channel { in_use = false; owner_chid = 0 } ≡ c → c.in_use ≡ true → ⊥
idle_not c e u = let f : false ≡ true = ap (λ (x : Channel). x.in_use) e ∙ u in ground (arith, f)

unnamed : (p q : ℕ) (c : Channel) → is_channel local p q c ≡ true → c.in_use ≡ true
unnamed p q c h = ground arith

pub roomy-Wired : Wired local roomy
roomy-Wired = record {
  rings = λ i c h. elim (channel_at i c h) [
    | inl (z, e) ↦ subst IsRing e channel-IsRing
    | inr (o, e) ↦
        subst IsRing e
          (record { room = refl; head = omega arith; count = omega arith; tail = omega arith })
  ];
  names = λ i j c d p q own t. elim (channel_at i c p) [
    | inr (o, e) ↦ absurd (idle_not c e (own_channel c own))
    | inl (z, e) ↦ elim (channel_at j d q) [
      | inr (o', e') ↦ absurd (idle_not d e' (unnamed c.owner_pid c.owner_chid d t))
      | inl (z', e') ↦ z ∙ sym z'
    ]
  ];
  linked = λ j cn h u.
      let (z, e) = connection_at j cn h u in
      (channel, ap (λ (x : Connection). get_elem? roomy.channels x.channel_idx) (sym e), refl);
  badges = λ j k cn cn' p q u t.
      ap (λ (x : Connection). x.channel_idx)
        (sym (connection_at k cn' q (badge_used cn.badge cn' t)).1 ∙ (connection_at j cn p u).1);
}

pub system-Linked : Linked kernel abi (system roomy)
system-Linked = record {
  wired = roomy-Wired;
  below = λ j cn h u.
      let e = ap (λ (x : Connection). x.badge) (connection_at j cn h u).1 in omega (arith, e);
}
