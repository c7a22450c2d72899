-- ===== src/Proc/Stranded.antt =====
-- taskman/proc/process.c: connections that outlive the process they lead to.
use lq.Base.{
  ℕ, zero, suc, ◌≡◌, ◌≢◌, refl, ap, ◌∙◌, sym, subst, Bool, true, false, not, ◌&&◌, ◌||◌, List, [],
  ◌∷◌, map, some, Bool-cases, inl, inr, Result, value, ◌==◌, unequal, arith, get_elem?, set,
  if◌then◌else◌,
}
use lq.Chan.State.{Channel, Connection, Registry, first, is_badge, channel_by_badge}
use lq.Chan.Pulse.{with_channel}
use lq.Chan.Connect.{close_if, drop_for_pid}
use lq.Chan.Found.{first-lem, get_elem?-set_self}
use lq.Chan.Wired.{Wired, clash}
use lq.Chan.Drop.{map-close_if}
use lq.Proc.State.{Process, System, Kernel, Abi, is_process}
use lq.Proc.Monad.{M, next, pure, ◌>>=◌, ◌>>◌, modify, gets, with_process, with_registry}
use lq.Proc.Slots.{revoke_slot, reply_deliver}
use lq.Proc.Terminate.{
  close_threads, close_channels, close_endpoints, release_objects, emptied, reap_or_keep, can_reap,
  process_terminate,
}
use lq.Proc.Quiet.{
  Calm, bind-Calm, when-Calm, revoke_slot-Calm, free_slot-Calm, reply_deliver-Calm,
  release_objects-Calm, Calm-then,
}
use lq.Proc.Closing.{close_threads-Calm, close_channels-Calm}
use lq.Proc.Net.{net, net-Blind}
use lq.Proc.Lifecycle.{exited}

-- A channel after the exit of a process.
abbrev pub closed_channel : ℕ → Channel → Channel
closed_channel pid c =
    if c.in_use && c.owner_pid == pid
    then record c {
      in_use = false;
      ntfn_master = 0;
      ntfn_sig = if c.ntfn_master == 0 then c.ntfn_sig else 0;
    }
    else c

-- The registries after the exit of a process.
abbrev pub left_by : ℕ → Registry → Registry
left_by pid r = drop_for_pid pid (record r { channels = map (closed_channel pid) r.channels })

module _ {K : Type 0} where
  -- The step answers this value, whatever the state.
  record Yields {A : Type 0} (m : M K A) (a : A) : Type 0 where
    pub answer : (s : System K) → (m s).0 ≡ value a

  bind-Yields :
      {A B : Type 0} {m : M K A} {a : A} {b : B} (f : A → M K B)
      → Yields m a
      → Yields (f a) b
      → Yields (m >>= f) b
  bind-Yields {m} {a} {b} f hm hf = record {
    answer =
        λ s. subst (λ r. (next f r (m s).1).0 ≡ value b) (sym (hm.answer s)) (hf.answer (m s).1);
  }

  Calm-Yields : {m : M K (Unit {0})} → Calm net m → Yields m tt
  Calm-Yields h = record { answer = λ s. (h.answers s).1 }

module _ {K : Type 0} (kernel : Kernel K) (abi : Abi) where
  rest-Yields :
      (pid : ℕ) (cs : List Channel) (c : Channel)
      → Yields (close_channels kernel abi pid cs) (map (closed_channel pid) cs)
      → Yields
          (close_channels kernel abi pid cs >>= λ cs'. pure (c ∷ cs'))
          (c ∷ map (closed_channel pid) cs)
  rest-Yields pid cs c h = bind-Yields (λ cs'. pure (c ∷ cs')) h (record { answer = λ s. refl })

  close_channels-Yields :
      (pid : ℕ) (cs : List Channel)
      → Yields (close_channels kernel abi pid cs) (map (closed_channel pid) cs)
  unfolding close_channels
  close_channels-Yields pid [] = record { answer = λ s. refl }
  close_channels-Yields pid (c ∷ cs) =
      let more : Channel → M K (List Channel) =
        λ c'. close_channels kernel abi pid cs >>= λ cs'. pure (c' ∷ cs') in
      let ih = close_channels-Yields pid cs in
      elim (Bool-cases (c.in_use && c.owner_pid == pid)) [
        | inr f ↦ rw f (
            bind-Yields {m = pure c} more (record { answer = λ s. refl }) (rest-Yields pid cs c ih))
        | inl t ↦
            let gone : Channel = record c {
              in_use = false;
              ntfn_master = 0;
              ntfn_sig = if c.ntfn_master == 0 then c.ntfn_sig else 0;
            } in
            rw t (
              bind-Yields more
                (bind-Yields (λ _. revoke_slot kernel abi c.master >> pure gone)
                  (Calm-Yields (
                    when-Calm net (not (c.ntfn_master == 0)) (
                      bind-Calm net (revoke_slot-Calm net net-Blind kernel abi c.ntfn_master)
                        λ _. free_slot-Calm net net-Blind c.ntfn_sig)))
                  (bind-Yields (λ _. pure gone)
                    (Calm-Yields (revoke_slot-Calm net net-Blind kernel abi c.master))
                    (record { answer = λ s. refl })))
                (rest-Yields pid cs gone ih))
      ]

  -- 1. to 3. of the exit, as far as the registries go.
  close_endpoints_lem :
      (pid : ℕ) (s : System K)
      → (s' : System K) × (close_endpoints kernel abi pid s ≡ (value tt, s'))
        × (s'.registry ≡ left_by pid s.registry)
  unfolding close_endpoints
  close_endpoints_lem pid s =
      let (ts, s1, e1, v1) =
        Calm-then net {m = close_threads kernel abi pid s.threads}
          (λ ts'.
            modify (λ s. record s { threads = ts' })
            >> (gets (λ s. s.registry.channels) >>= λ cs.
                close_channels kernel abi pid cs >>= λ cs'.
                with_registry (λ r. drop_for_pid pid (record r { channels = cs' }))))
          s (close_threads-Calm net net-Blind kernel abi pid s.threads) in
      let s2 : System K = record s1 { threads = ts } in
      let cs = s1.registry.channels in
      let s3 = (close_channels kernel abi pid cs s2).1 in
      let all = (close_channels-Yields pid cs).answer s2 in
      let v3 = (close_channels-Calm net net-Blind kernel abi pid cs).same s2 in
      (
        record s3 {
          registry =
              drop_for_pid pid (record s3.registry { channels = map (closed_channel pid) cs });
        },
        e1
            ∙ ap
                (λ r.
                  next (λ cs'. with_registry (λ r. drop_for_pid pid (record r { channels = cs' })))
                    r s3)
                all,
        ap
              (λ (n : Registry × ℕ).
                drop_for_pid pid (record n.0 { channels = map (closed_channel pid) cs }))
              v3
            ∙ ap (λ (n : Registry × ℕ). left_by pid n.0) v1,
      )

  reap_or_keep-registry :
      (i pid : ℕ) (p : Process) (d : Bool) (s : System K)
      → (reap_or_keep kernel abi i pid p d s).1.registry ≡ s.registry
  unfolding reap_or_keep
  reap_or_keep-registry i pid p d s =
      elim (Bool-cases (d || not (can_reap kernel abi p.parent_pid s))) [
        | inl t ↦ rw (t, reap_or_keep) refl
        | inr f ↦ rw (f, reap_or_keep) refl
      ]

  terminate-registry :
      (pid status i : ℕ) (p : Process) (s : System K)
      → pid ≢ abi.taskman
      → first (is_process pid) s.processes ≡ some (i, p)
      → p.exit_state ≡ 0
      → (process_terminate kernel abi pid status s).1.registry ≡ left_by pid s.registry
  unfolding process_terminate
  terminate-registry pid status i p s other found live =
      let q = exited status p in
      let running : not (p.exit_state == 0) ≡ false = ground (arith, live) in
      let s1 : System K = record s { processes = set s.processes i q } in
      let end : M K (Unit {0}) =
        with_process i (emptied q)
        >> reap_or_keep kernel abi i pid (emptied q) (not (p.waiter_reply_slot == 0)) in
      let (_, s2, e2, v2) =
        Calm-then net {m = reply_deliver kernel abi p.waiter_reply_slot 0 status}
          (λ _. close_endpoints kernel abi pid >> (release_objects kernel abi p >> end)) s1
          (reply_deliver-Calm net net-Blind kernel abi p.waiter_reply_slot 0 status) in
      let (s3, e3, r3) = close_endpoints_lem pid s2 in
      let (_, s4, e4, v4) =
        Calm-then net {m = release_objects kernel abi p} (λ _. end) s3
          (release_objects-Calm net net-Blind kernel abi p) in
      let done : process_terminate kernel abi pid status s ≡ end s4 =
        rw (unequal pid abi.taskman other, found, running, process_terminate)
          (e2
            ∙ ap
                (λ (o : Result (Unit {0}) × System K).
                  next (λ _. release_objects kernel abi p >> end) o.0 o.1)
                e3
            ∙ e4) in
      ap (λ (o : Result (Unit {0}) × System K). o.1.registry) done
      ∙ reap_or_keep-registry i pid (emptied q) (not (p.waiter_reply_slot == 0))
          (record s4 { processes = set s4.processes i (emptied q) })
      ∙ ap (λ (n : Registry × ℕ). n.0) v4
      ∙ r3
      ∙ ap (λ (n : Registry × ℕ). left_by pid n.0) v2

get_elem?-map :
    {A B : Type 0} (f : A → B) (xs : List A) (i : ℕ) (x : A)
    → get_elem? xs i ≡ some x
    → get_elem? (map f xs) i ≡ some (f x)
get_elem?-map f [] i x h = absurd (ground (arith, h))
get_elem?-map f (y ∷ xs) zero x h = let e : y ≡ x = ground (arith, h) in ap (λ z. some (f z)) e
get_elem?-map f (y ∷ xs) (suc i) x h = get_elem?-map f xs i x h

close_if-other :
    (pid : ℕ) (cn : Connection) → cn.client_pid ≢ pid → close_if (λ x. x.client_pid == pid) cn ≡ cn
close_if-other pid cn h = rw (unequal cn.client_pid pid h) (ground arith)

badge_lem : (b : ℕ) (cn : Connection) → is_badge b cn ≡ true → cn.in_use ≡ true
badge_lem b cn h = ground arith

is_badge-own : (cn : Connection) → cn.in_use ≡ true → is_badge cn.badge cn ≡ true
is_badge-own cn h = ground (arith, h)

-- A connection of another process to the record `i` leads, after the exit, to whatever is put there.
stale_connection :
    (is_global : ℕ → Bool) (pid i j : ℕ) (c d : Channel) (cn : Connection) (r : Registry)
    → Wired is_global r
    → get_elem? r.channels i ≡ some c
    → get_elem? r.connections j ≡ some cn
    → cn.in_use ≡ true
    → cn.client_pid ≢ pid
    → cn.channel_idx ≡ i
    → d.in_use ≡ true
    → channel_by_badge cn.badge (with_channel i d (left_by pid r)) ≡ some d
unfolding channel_by_badge drop_for_pid
stale_connection is_global pid i j c d cn r w at there used other leads live =
    let others : Connection → Bool = λ x. x.client_pid == pid in
    let kept : get_elem? (map (close_if others) r.connections) j ≡ some cn =
      get_elem?-map (close_if others) r.connections j cn there
      ∙ ap (λ x. some x) (close_if-other pid cn other) in
    let filled : get_elem? (set (map (closed_channel pid) r.channels) i d) i ≡ some d =
      get_elem?-set_self (map (closed_channel pid) r.channels) i (closed_channel pid c) d
        (get_elem?-map (closed_channel pid) r.channels i c at) in
    elim (first-lem (is_badge cn.badge) (map (close_if others) r.connections)) [
      | inl (n, nope) ↦ absurd (clash (nope j cn kept) (is_badge-own cn used))
      | inr (k, x, e, here, t) ↦
          let (old, _) = map-close_if others r.connections k x here (badge_lem cn.badge x t) in
          let same : x.channel_idx ≡ i = w.badges j k cn x there old used t ∙ leads in
          rw (e, channel_by_badge) (rw (same, filled, live) refl)
    ]

some_inj : {A : Type 0} (x y : A) → some x ≡ some y → x ≡ y
some_inj x y h = ground (arith, h)

closed_channel-idle :
    (pid : ℕ) (c : Channel)
    → c.in_use ≡ true
    → c.owner_pid ≡ pid
    → (closed_channel pid c).in_use ≡ false
closed_channel-idle pid c u e =
    let t : (c.in_use && c.owner_pid == pid) ≡ true = ground (arith, u, e) in rw t refl

stranded :
    (is_global : ℕ → Bool) (pid i j : ℕ) (c : Channel) (cn : Connection) (r : Registry)
    → get_elem? r.channels i ≡ some c
    → c.in_use ≡ true
    → c.owner_pid ≡ pid
    → get_elem? r.connections j ≡ some cn
    → cn.in_use ≡ true
    → cn.client_pid ≢ pid
    → cn.channel_idx ≡ i
    → ¬ Wired is_global (left_by pid r)
unfolding drop_for_pid
stranded is_global pid i j c cn r at held owned there used other leads w =
    let others : Connection → Bool = λ x. x.client_pid == pid in
    let kept : get_elem? (map (close_if others) r.connections) j ≡ some cn =
      get_elem?-map (close_if others) r.connections j cn there
      ∙ ap (λ x. some x) (close_if-other pid cn other) in
    let (d, here, up) = w.linked j cn kept used in
    let same : some d ≡ some (closed_channel pid c) =
      sym here
      ∙ ap (get_elem? (map (closed_channel pid) r.channels)) leads
      ∙ get_elem?-map (closed_channel pid) r.channels i c at in
    let e : d ≡ closed_channel pid c = some_inj d (closed_channel pid c) same in
    clash (closed_channel-idle pid c held owned) (sym (ap (λ (x : Channel). x.in_use) e) ∙ up)

module _ {K : Type 0} (kernel : Kernel K) (abi : Abi) where
  -- A live process exits that has a channel with a connection in use by another process: the
  -- registries were in order and are not any more, and any channel that is put in the record of the
  -- old one is the one that the badge of this connection leads to.
  pub process_terminate-misroutes :
      (pid status m i j : ℕ) (p : Process) (c d : Channel) (cn : Connection) (s : System K)
      → Wired abi.is_global s.registry
      → pid ≢ abi.taskman
      → first (is_process pid) s.processes ≡ some (m, p)
      → p.exit_state ≡ 0
      → get_elem? s.registry.channels i ≡ some c
      → c.in_use ≡ true
      → c.owner_pid ≡ pid
      → get_elem? s.registry.connections j ≡ some cn
      → cn.in_use ≡ true
      → cn.client_pid ≢ pid
      → cn.channel_idx ≡ i
      → d.in_use ≡ true
      → let r = (process_terminate kernel abi pid status s).1.registry in
        (¬ Wired abi.is_global r) × (channel_by_badge cn.badge (with_channel i d r) ≡ some d)
  process_terminate-misroutes pid status m i j p c d cn s w other found live at held owned there
        used foreign leads up =
      let e = terminate-registry kernel abi pid status m p s other found live in
      rw e (
        stranded abi.is_global pid i j c cn s.registry at held owned there used foreign leads,
        stale_connection abi.is_global pid i j c d cn s.registry w at there used foreign leads up,
      )
