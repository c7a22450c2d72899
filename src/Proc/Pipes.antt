-- ===== src/Proc/Pipes.antt =====
-- taskman/path/io.c: the badges of a pipe among those of all connections.
use lq.Base.{
  ℕ, ◌+◌, ◌*◌, ◌≡◌, ◌≢◌, refl, ap, ◌∙◌, sym, true, false, not, some, Bool-cases, Option-cases, inl,
  inr, Result, value, fail, ◌==◌, arith, get_elem?, if◌then◌else◌, enomem, List, w32, ◌%◌,
}
use lq.Chan.State.{Channel, Connection, Registry, first, is_channel, channel_find}
use lq.Chan.Connect.{connection_alloc_slot_idx, register_existing}
use lq.Chan.Found.{get_elem?-set_self, get_elem?-set_ne, first-lem}
use lq.Proc.State.{System, Kernel, Abi, is_process}
use lq.Proc.Slots.{own_cap, cap_of}
use lq.Proc.Channels.{enter_ends, enter_pipe, pipe_create}
use lq.Proc.Quiet.{quiet_then}
use lq.Proc.Net.{net, process_alloc_slot-Quiet, invoke-Quiet, raise_if-Quiet}
use lq.Proc.Wiring.{found_free}
use lq.Proc.Attached.{channel_in_use}

-- An entry that is in use outlives a registration.
register_existing-keeps :
    (pid slot i badge flags k : ℕ) (x : Connection) (r : Registry)
    → get_elem? r.connections k ≡ some x
    → x.in_use ≡ true
    → get_elem? (register_existing pid slot i badge flags r).1.connections k ≡ some x
unfolding register_existing
register_existing-keeps pid slot i badge flags k x r at used =
    elim (Option-cases (get_elem? r.channels i)) [
      | inl n ↦ rw (n, register_existing) at
      | inr (ch, here) ↦ elim (Bool-cases ch.in_use) [
        | inr f ↦ rw (here, f, register_existing) at
        | inl u ↦ elim (first-lem (λ (c : Connection). not c.in_use) r.connections) [
          | inl (n, nope) ↦ rw (here, u, n, register_existing) at
          | inr (j, old, free, there, idle) ↦
              let off : j ≢ k = λ e. busy r.connections j k old x there idle at used e in
              rw (here, u, free, register_existing) (get_elem?-set_ne r.connections j k _ off ∙ at)
        ]
      ]
    ]
  where
    busy :
        (xs : List Connection) (j k : ℕ) (c d : Connection)
        → get_elem? xs j ≡ some c
        → (not c.in_use) ≡ true
        → get_elem? xs k ≡ some d
        → d.in_use ≡ true
        → j ≡ k
        → ⊥
    busy xs j k c d p idle q used e =
        let same : some c ≡ some d = sym p ∙ ap (get_elem? xs) e ∙ q in
        let u : c.in_use ≡ true =
          ap (λ (o : Connection). o.in_use) (let z : c ≡ d = ground (arith, same) in z) ∙ used in
        ground (arith, idle, u)

-- The entry of a registration with a free entry and a channel in use.
register_existing-enters :
    (pid slot i badge flags j : ℕ) (ch : Channel) (old : Connection) (r : Registry)
    → get_elem? r.channels i ≡ some ch
    → ch.in_use ≡ true
    → connection_alloc_slot_idx r ≡ some (j, old)
    → (x : Connection) × (get_elem? (register_existing pid slot i badge flags r).1.connections j
        ≡ some x)
      × (x.in_use ≡ true)
      × (x.badge ≡ badge)
      × (x.channel_idx ≡ i)
unfolding register_existing
register_existing-enters pid slot i badge flags j ch old r here used free =
    let (there, idle) = found_free (λ (c : Connection). not c.in_use) r.connections j old free in
    rw (here, used, free, register_existing)
      (_, get_elem?-set_self r.connections j old _ there, refl, refl, refl)

value_inj : {A : Type 0} {x y : A} → value x ≡ value y → x ≡ y
value_inj h = ground (arith, h)

-- The connection `cn` is kept at `j`, and at `k` stands one in use with its badge to another channel.
abbrev pub TwoWays : ℕ → ℕ → Connection → Registry → Type 0
TwoWays j k cn r =
    (get_elem? r.connections j ≡ some cn)
    × ((x : Connection) × (get_elem? r.connections k ≡ some x)
        × (x.in_use ≡ true)
        × (x.badge ≡ cn.badge)
        × (x.channel_idx ≢ cn.channel_idx))

module _ {K : Type 0} (kernel : Kernel K) (abi : Abi) where
  -- What `enter_pipe` can do to the registries `r`.
  abbrev pub PipeOutcome : ℕ → ℕ → ℕ → Registry → Result (ℕ × ℕ) × System K → Type 0
  PipeOutcome pid uid i r (fail e, s) = s.registry ≡ r
  PipeOutcome pid uid i r (value (rd, wr), s) =
      s.registry
      ≡ (register_existing pid wr i (2 * uid + 1) 0 (register_existing pid rd i (2 * uid) 0 r).1).1

  end_lem :
      (pid uid i rd wr : ℕ) (r : Registry) (s : System K)
      → s.registry ≡ r
      → PipeOutcome pid uid i r (enter_ends pid uid i rd wr s)
  unfolding enter_ends
  end_lem pid uid i rd wr r s e =
      ap
        (λ r.
          (register_existing pid wr i (2 * uid + 1) 0
            (register_existing pid rd i (2 * uid) 0 r).1).1)
        e

  enter_pipe_lem :
      (pid cnode uid i : ℕ) (c : Channel) (s : System K)
      → PipeOutcome pid uid i s.registry (enter_pipe kernel abi pid cnode uid i c s)
  unfolding enter_pipe
  enter_pipe_lem pid cnode uid i c s =
      let G = PipeOutcome pid uid i s.registry in
      let keep : (t : System K) → net t ≡ net s → t.registry ≡ s.registry =
        λ t v. ap (λ n. n.0) v in
      quiet_then net _ G s (process_alloc_slot-Quiet abi pid) (λ _ t v. keep t v)
        λ rd t1 v1.
          quiet_then net _ G t1 (process_alloc_slot-Quiet abi pid) (λ _ t v. keep t (v ∙ v1))
            λ wr t2 v2.
              quiet_then net _ G t2
                (invoke-Quiet (
                  kernel.mint (cap_of abi pid cnode rd) (own_cap abi c.master) abi.rights_send
                    (2 * uid)))
                (λ _ t v. keep t (v ∙ v2 ∙ v1))
                λ ok t3 v3.
                  quiet_then net _ G t3 (raise_if-Quiet (if ok then false else true) enomem)
                    (λ _ t v. keep t (v ∙ v3 ∙ v2 ∙ v1))
                    λ _ t4 v4.
                      quiet_then net _ G t4
                        (invoke-Quiet (
                          kernel.mint (cap_of abi pid cnode wr) (own_cap abi c.master)
                            abi.rights_send (2 * uid + 1)))
                        (λ _ t v. keep t (v ∙ v4 ∙ v3 ∙ v2 ∙ v1))
                        λ ok' t5 v5.
                          quiet_then net _ G t5
                            (raise_if-Quiet (if ok' then false else true) enomem)
                            (λ _ t v. keep t (v ∙ v5 ∙ v4 ∙ v3 ∙ v2 ∙ v1))
                            λ _ t6 v6.
                              end_lem pid uid i rd wr s.registry t6
                                (keep t6 (v6 ∙ v5 ∙ v4 ∙ v3 ∙ v2 ∙ v1))

  crossed :
      (pid uid i j k rd wr : ℕ) (c : Channel) (cn old : Connection) (r : Registry)
      → get_elem? r.channels i ≡ some c
      → c.in_use ≡ true
      → connection_alloc_slot_idx r ≡ some (k, old)
      → get_elem? r.connections j ≡ some cn
      → cn.in_use ≡ true
      → cn.badge ≡ 2 * uid
      → cn.channel_idx ≢ i
      → TwoWays j k cn
          (register_existing pid wr i
            (2 * uid + 1)
            0
            (register_existing pid rd i (2 * uid) 0 r).1).1
  crossed pid uid i j k rd wr c cn old r here held free at used badge apart =
      let (x, there, up, own, to) =
        register_existing-enters pid rd i (2 * uid) 0 k c old r here held free in
      let r' = (register_existing pid rd i (2 * uid) 0 r).1 in
      (
        register_existing-keeps pid wr i (2 * uid + 1) 0 j cn r'
            (register_existing-keeps pid rd i (2 * uid) 0 j cn r at used) used,
        (
          x,
          register_existing-keeps pid wr i (2 * uid + 1) 0 k x r' there up,
          up,
          own ∙ sym badge,
          λ e. apart (sym e ∙ to),
        ),
      )

  piped :
      (pid cnode uid i : ℕ) (c : Channel) (ends : ℕ × ℕ) (s : System K)
      → (enter_pipe kernel abi pid cnode uid i c s).0 ≡ value ends
      → (enter_pipe kernel abi pid cnode uid i c s).1.registry
        ≡ (register_existing pid ends.1 i
            (2 * uid + 1)
            0
            (register_existing pid ends.0 i (2 * uid) 0 s.registry).1).1
  piped pid cnode uid i c ends s h =
      go (enter_pipe kernel abi pid cnode uid i c s) (enter_pipe_lem pid cnode uid i c s) h
    where
      go :
          (out : Result (ℕ × ℕ) × System K)
          → PipeOutcome pid uid i s.registry out
          → out.0 ≡ value ends
          → out.1.registry
            ≡ (register_existing pid ends.1 i
                (2 * uid + 1)
                0
                (register_existing pid ends.0 i (2 * uid) 0 s.registry).1).1
      go (fail e, t) o h = absurd (ground (arith, h))
      go (value (rd, wr), t) o h =
          let e : (rd, wr) ≡ ends = value_inj h in
          o
          ∙ ap
              (λ (p : ℕ × ℕ).
                (register_existing pid p.1 i (2 * uid + 1) 0
                  (register_existing pid p.0 i (2 * uid) 0 s.registry).1).1)
              e

  -- A pipe is created while the connection `j`, in use and not to the channel of the manager of pipes,
  -- has the badge that the read end gets, twice the number of the pipe, and the record `k` of a
  -- connection is free. Afterwards the connection `j` is as before, and the record `k` is in use with the
  -- same badge for another channel.
  pub pipe_create-clashes :
      (pid server_pid server_chid i j k : ℕ) (c : Channel) (cn old : Connection) (ends : ℕ × ℕ)
      (s : System K)
      → channel_find abi.is_global server_pid server_chid s.registry ≡ some (i, c)
      → connection_alloc_slot_idx s.registry ≡ some (k, old)
      → get_elem? s.registry.connections j ≡ some cn
      → cn.in_use ≡ true
      → cn.badge ≡ 2 * s.next_pipe
      → cn.channel_idx ≢ i
      → (pipe_create kernel abi pid server_pid server_chid s).0 ≡ value ends
      → TwoWays j k cn (pipe_create kernel abi pid server_pid server_chid s).1.registry
  unfolding pipe_create
  pipe_create-clashes pid server_pid server_chid i j k c cn old ends s found free at used badge
        apart done =
      let (here, t) =
        found_free (is_channel abi.is_global server_pid server_chid) s.registry.channels i c
          found in
      elim (Bool-cases (c.master == 0)) [
        | inl z ↦ absurd (ground (arith, (rw (found, z, pipe_create) at done)))
        | inr m ↦ elim (Option-cases (first (is_process pid) s.processes)) [
          | inl n ↦ absurd (ground (arith, (rw (found, m, n, pipe_create) at done)))
          | inr ((l, client), p) ↦
              let s' : System K = record s { next_pipe = (s.next_pipe + 1) % w32 } in
              let e =
                piped pid client.cnode s.next_pipe i c ends s'
                  (rw (found, m, p, pipe_create) at done) in
              rw (found, m, p, pipe_create)
                (rw e (
                  crossed pid s.next_pipe i j k ends.0 ends.1 c cn old s.registry here
                    (channel_in_use kernel abi server_pid server_chid c t) free at used badge
                    apart))
        ]
      ]
