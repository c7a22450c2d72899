-- ===== src/Chan/Deliver.antt =====
-- taskman/proc/pulse.c: where a pulse goes, and who gets it.
use lq.Base.{
  ltb, ◌==◌, ==_iff, eq_or_ne, ℕ, ◌≡◌, refl, ap, subst, sym, ◌∙◌, Bool, none, some, List, [], ◌∷◌,
  ◌++◌, arith, Bool-cases, inl, inr, ◌⊎◌, get_elem?, set, if◌then◌else◌, Status, ok, err, ebadf,
  eagain, enoent,
}
use lq.Chan.State.{Pulse, Channel, Registry, first, is_channel}
use lq.Chan.Pulse.{put_pulse, take_pulse, signal_of, with_channel, pulse_fetch, is_receiver}
use lq.Chan.Ring.{IsRing, pending, take_pulse-pending}
use lq.Chan.Found.{first-lem, get_elem?-set, get_elem?-set_self, get_elem?-set_ne}
use lq.Chan.Wired.{Wired}

-- A change of a channel that leaves its name alone.
pub record SameName (c d : Channel) : Type 0 where
  pub used : c.in_use ≡ d.in_use
  pub pid : c.owner_pid ≡ d.owner_pid
  pub chid : c.owner_chid ≡ d.owner_chid

SameName-refl : (c : Channel) → SameName c c
SameName-refl c = record { used = refl; pid = refl; chid = refl }

back :
    (xs : List Channel) (i k : ℕ) (c c' d : Channel)
    → get_elem? xs i ≡ some c
    → SameName c c'
    → get_elem? (set xs i c') k ≡ some d
    → (d' : Channel) × (get_elem? xs k ≡ some d') × SameName d' d
back xs i k c c' d h s e = elim (get_elem?-set xs i k c c' d h e) [
  | inl (p, q) ↦ (c, subst (λ m. get_elem? xs m ≡ some c) (sym p) h, subst (SameName c) (sym q) s)
  | inr (n, q) ↦ (d, q, SameName-refl d)
]

forth :
    (xs : List Channel) (i k : ℕ) (c c' d : Channel)
    → get_elem? xs i ≡ some c
    → SameName c c'
    → get_elem? xs k ≡ some d
    → (d' : Channel) × (get_elem? (set xs i c') k ≡ some d') × SameName d d'
forth xs i k c c' d h s e = elim (eq_or_ne k i) [
  | inl p ↦
      let q : c ≡ d = ground (arith, sym h ∙ subst (λ m. get_elem? xs m ≡ some d) p e) in
      (
        c',
        subst (λ m. get_elem? (set xs i c') m ≡ some c') (sym p) (get_elem?-set_self xs i c c' h),
        subst (λ x. SameName x c') q s,
      )
  | inr n ↦ (d, get_elem?-set_ne xs i k c' (λ q. n (sym q)) ∙ e, SameName-refl d)
]

module _ (is_global : ℕ → Bool) where
  SameName-is_channel :
      {a a' c c' : Channel}
      → SameName a a'
      → SameName c c'
      → is_channel is_global a'.owner_pid a'.owner_chid c'
        ≡ is_channel is_global a.owner_pid a.owner_chid c
  SameName-is_channel s t = rw (s.pid, s.chid, t.used, t.pid, t.chid) refl

  pub with_channel-Wired :
      (i : ℕ) (c c' : Channel) (r : Registry)
      → Wired is_global r
      → get_elem? r.channels i ≡ some c
      → SameName c c'
      → IsRing c'
      → Wired is_global (with_channel i c' r)
  with_channel-Wired i c c' r w h s g = record {
    rings = λ k d e. elim (get_elem?-set r.channels i k c c' d h e) [
      | inl (p, q) ↦ subst IsRing (sym q) g
      | inr (n, q) ↦ w.rings k d q
    ];
    names = λ j k d e p q own t.
        let (d', p', sd) = back r.channels i j c c' d h s p in
        let (e', q', se) = back r.channels i k c c' e h s q in
        w.names j k d' e' p' q' (sym (SameName-is_channel sd sd) ∙ own)
          (sym (SameName-is_channel sd se) ∙ t);
    linked = λ j cn at u.
        let (d, there, used) = w.linked j cn at u in
        let (d', there', sd) = forth r.channels i cn.channel_idx c c' d h s there in
        (d', there', sym sd.used ∙ used);
    badges = w.badges;
  }

  pub put_pulse-SameName : (p : Pulse) (c : Channel) → SameName c (put_pulse p c)
  unfolding put_pulse
  put_pulse-SameName p c = record { used = refl; pid = refl; chid = refl }

  take_pulse-SameName : (c : Channel) → SameName c (take_pulse c).1
  unfolding take_pulse
  take_pulse-SameName c = record { used = refl; pid = refl; chid = refl }

  -- What a send does once its channel is known.
  abbrev pub Delivered : ℕ → Pulse → Registry → ℕ → Channel → Status × List ℕ × Registry → Type 0
  Delivered n p r i c o =
      ((c.pulse_count ≡ n) × (o ≡ (err eagain, [], r)))
      ⊎ ((c' : Channel) × (o ≡ (ok, signal_of c, with_channel i c' r))
          × (pending c' ≡ pending c ++ p ∷ [])
          × Wired is_global (with_channel i c' r))

  -- A fetch hands out the oldest pulse of the first channel that the caller receives on at this
  -- slot, and signals the Notification again if pulses are left; with none queued the answer is
  -- ENOENT and without such a channel EBADF, with the registries unchanged. They stay in order.
  pub pulse_fetch-takes :
      (pid slot : ℕ) (r : Registry)
      → Wired is_global r
      → let o = pulse_fetch pid slot r in
        ((first (is_receiver pid slot) r.channels ≡ none) × (o ≡ (err ebadf, none, [], r)))
        ⊎ ((i : ℕ) × (c : Channel) × (first (is_receiver pid slot) r.channels ≡ some (i, c))
            × (((pending c ≡ []) × (o ≡ (err enoent, none, [], r)))
                ⊎ ((p : Pulse) × (c' : Channel) × (o ≡ (
                  ok,
                  some p,
                  if ltb 0 c'.pulse_count then signal_of c else [],
                  with_channel i c' r,
                ))
                    × (pending c ≡ p ∷ pending c')
                    × Wired is_global (with_channel i c' r))))
  unfolding pulse_fetch take_pulse
  pulse_fetch-takes pid slot r w = elim (first-lem (is_receiver pid slot) r.channels) [
    | inl (n, none_pass) ↦ inl (n, rw (n, pulse_fetch) refl)
    | inr (i, c, found, at, t) ↦ elim (Bool-cases (c.pulse_count == 0)) [
      | inl z ↦
          let e = (==_iff c.pulse_count 0).0 z in
          inr (
            i,
            c,
            found,
            inl (
              ap (λ n. pending (record c { pulse_count = n })) e,
              rw (found, z, pulse_fetch) refl,
            ),
          )
      | inr nz ↦
          let (queue, ring) = take_pulse-pending c (w.rings i c at) (ground arith) in
          inr (
            i,
            c,
            found,
            inr (
              (take_pulse c).0,
              (take_pulse c).1,
              rw (found, nz, pulse_fetch) refl,
              queue,
              with_channel-Wired i c (take_pulse c).1 r w at (take_pulse-SameName c) ring,
            ),
          )
    ]
  ]
