-- ===== src/Proc/Quiet.antt =====
-- taskman/proc: steps that leave a part of the state alone.
use lq.Base.{
  ℕ, ◌≡◌, refl, ap, ◌∙◌, not, Bool, true, false, List, [], ◌∷◌, map, Result, value, fail, Errno,
  ◌==◌, ltb, length, if◌then◌else◌, arith,
}
use lq.Alloc.Numbers.{Numbers, slot_free}
use lq.Mem.Space.{Page}
use lq.Proc.State.{Process, System, Kernel, Abi}
use lq.Proc.Monad.{M, next, ◌>>=◌, when, invoke, modify, gets}
use lq.Proc.Slots.{
  own_cap, free_slot, delete_slot, revoke_slot, pp_ut_release, pput_release_list, reply_deliver,
  pp_ut_free_max,
}
use lq.Proc.Terminate.{free_all, delete_if, delete_frames, release_objects}

module _ {K X : Type 0} (view : System K → X) where
  -- The step leaves what the view shows alone, whether it answers a value or an error.
  pub record Quiet {A : Type 0} (m : M K A) : Type 0 where
    pub same : (s : System K) → view (m s).1 ≡ view s

  -- And it always answers a value.
  pub record Calm {A : Type 0} (m : M K A) : Type 0 where
    pub same : (s : System K) → view (m s).1 ≡ view s
    pub answers : (s : System K) → (a : A) × ((m s).0 ≡ value a)

  pub Calm-Quiet : {A : Type 0} {m : M K A} → Calm m → Quiet m
  Calm-Quiet h = record { same = h.same }

  next_same :
      {A B : Type 0} (f : A → M K B) (r : Result A) (s : System K)
      → ((a : A) → Quiet (f a))
      → view (next f r s).1 ≡ view s
  next_same f (value a) s h = (h a).same s
  next_same f (fail e) s h = refl

  pub bind-Quiet :
      {A B : Type 0} {m : M K A} {f : A → M K B}
      → Quiet m
      → ((a : A) → Quiet (f a))
      → Quiet (m >>= f)
  bind-Quiet {m} {f} hm hf = record { same = λ s. next_same f (m s).0 (m s).1 hf ∙ hm.same s }

  pub if-Quiet :
      {A : Type 0} (b : Bool) {m n : M K A}
      → Quiet m
      → Quiet n
      → Quiet (λ s. (if b then m else n) s)
  if-Quiet true hm hn = record { same = hm.same }
  if-Quiet false hm hn = record { same = hn.same }

  pub when-Quiet : (b : Bool) {m : M K (Unit {0})} → Quiet m → Quiet (when b m)
  when-Quiet true h = record { same = h.same }
  when-Quiet false h = record { same = λ s. refl }

  next_answers :
      {A B : Type 0} (f : A → M K B) (r : Result A) (s : System K)
      → ((a : A) → Calm (f a))
      → (a : A) × (r ≡ value a)
      → (b : B) × ((next f r s).0 ≡ value b)
  next_answers f (value a) s h q = (h a).answers s
  next_answers f (fail e) s h (a, q) = absurd (ground (arith, q))

  next-Calm :
      {A B : Type 0} (f : A → M K B) (r : Result A) (s : System K)
      → ((a : A) → Calm (f a))
      → view (next f r s).1 ≡ view s
  next-Calm f (value a) s h = (h a).same s
  next-Calm f (fail e) s h = refl

  pub bind-Calm :
      {A B : Type 0} {m : M K A} {f : A → M K B} → Calm m → ((a : A) → Calm (f a)) → Calm (m >>= f)
  bind-Calm {m} {f} hm hf = record {
    same = λ s. next-Calm f (m s).0 (m s).1 hf ∙ hm.same s;
    answers = λ s. next_answers f (m s).0 (m s).1 hf (hm.answers s);
  }

  pub if-Calm :
      {A : Type 0} (b : Bool) {m n : M K A} → Calm m → Calm n → Calm (λ s. (if b then m else n) s)
  if-Calm true hm hn = record { same = hm.same; answers = hm.answers }
  if-Calm false hm hn = record { same = hn.same; answers = hn.answers }

  pub when-Calm : (b : Bool) {m : M K (Unit {0})} → Calm m → Calm (when b m)
  when-Calm true h = record { same = h.same; answers = h.answers }
  when-Calm false h = record { same = λ s. refl; answers = λ s. (_, refl) }

  -- What no call of the kernel and no slot that comes or goes can change.
  pub record Blind : Type 0 where
    pub kernel : (s : System K) (k : K) → view (record s { kernel = k }) ≡ view s
    pub slots : (s : System K) (n : Numbers) → view (record s { slots = n }) ≡ view s
    pub pput_free : (s : System K) (n : List ℕ) → view (record s { pput_free = n }) ≡ view s

  module _ (blind : Blind) where
    pub invoke-Calm : {A : Type 0} (f : K → A × K) → Calm (invoke f)
    invoke-Calm f = record { same = λ s. blind.kernel s (f s.kernel).1; answers = λ s. (_, refl) }

    pub free_slot-Calm : (slot : ℕ) → Calm (free_slot slot)
    unfolding free_slot
    free_slot-Calm slot = record {
      same = λ s. blind.slots s (slot_free slot s.slots);
      answers = λ s. (_, refl);
    }

    pub free_all-Calm : (ns : List ℕ) → Calm (free_all ns)
    unfolding free_all
    free_all-Calm [] = record { same = λ s. refl; answers = λ s. (_, refl) }
    free_all-Calm (n ∷ ns) = bind-Calm (free_slot-Calm n) (λ _. free_all-Calm ns)

    module _ (kernel : Kernel K) (abi : Abi) where
      pub delete_slot-Calm : (slot : ℕ) → Calm (delete_slot kernel abi slot)
      unfolding delete_slot
      delete_slot-Calm slot =
          bind-Calm (invoke-Calm (kernel.delete (own_cap abi slot))) (λ _. free_slot-Calm slot)

      pub revoke_slot-Calm : (slot : ℕ) → Calm (revoke_slot kernel abi slot)
      unfolding revoke_slot
      revoke_slot-Calm slot =
          bind-Calm (invoke-Calm (kernel.revoke (own_cap abi slot))) (λ _. delete_slot-Calm slot)

      pub delete_if-Calm : (slot : ℕ) → Calm (delete_if kernel abi slot)
      delete_if-Calm slot = when-Calm (not (slot == 0)) (delete_slot-Calm slot)

      pub delete_frames-Calm : (ds : List Page) → Calm (delete_frames kernel abi ds)
      unfolding delete_frames
      delete_frames-Calm [] = record { same = λ s. refl; answers = λ s. (_, refl) }
      delete_frames-Calm (d ∷ ds) = bind-Calm (delete_if-Calm d.frame) (λ _. delete_frames-Calm ds)

      reply-Calm :
          (slot label mr0 : ℕ)
          → Calm (modify (λ s. record s { kernel = kernel.reply slot label mr0 s.kernel }))
      reply-Calm slot label mr0 = record {
        same = λ s. blind.kernel s (kernel.reply slot label mr0 s.kernel);
        answers = λ s. (_, refl);
      }

      pub reply_deliver-Calm : (slot label mr0 : ℕ) → Calm (reply_deliver kernel abi slot label mr0)
      unfolding reply_deliver
      reply_deliver-Calm slot label mr0 =
          when-Calm (not (slot == 0))
            (bind-Calm (reply-Calm slot label mr0) (λ _. delete_slot-Calm slot))

      put_back-Calm : (ut : ℕ) → Calm (modify (λ s. record s { pput_free = ut ∷ s.pput_free }))
      put_back-Calm ut = record {
        same = λ s. blind.pput_free s (ut ∷ s.pput_free);
        answers = λ s. (_, refl);
      }

      pub gets-Calm : {A : Type 0} (f : System K → A) → Calm (gets f)
      gets-Calm f = record { same = λ s. refl; answers = λ s. (_, refl) }

      pub pp_ut_release-Calm : (ut : ℕ) → Calm (pp_ut_release kernel abi ut)
      unfolding pp_ut_release
      pp_ut_release-Calm ut = when-Calm (not (ut == 0)) (
          bind-Calm (invoke-Calm (kernel.revoke (own_cap abi ut))) (λ _.
            bind-Calm (gets-Calm (λ s. length s.pput_free))
              (λ n. if-Calm (ltb n pp_ut_free_max) (put_back-Calm ut) (delete_slot-Calm ut))))

      pub pput_release_list-Calm : (uts : List ℕ) → Calm (pput_release_list kernel abi uts)
      unfolding pput_release_list
      pput_release_list-Calm [] = record { same = λ s. refl; answers = λ s. (_, refl) }
      pput_release_list-Calm (ut ∷ uts) =
          bind-Calm (pp_ut_release-Calm ut) (λ _. pput_release_list-Calm uts)

      -- What the record of a process names is released without a look at the tables.
      pub release_objects-Calm : (p : Process) → Calm (release_objects kernel abi p)
      unfolding release_objects
      release_objects-Calm p = bind-Calm (revoke_slot-Calm p.tcb) λ _.
          bind-Calm (delete_if-Calm p.sc) λ _. bind-Calm (delete_if-Calm p.fault_ep) λ _.
            bind-Calm (revoke_slot-Calm p.vspace) λ _. bind-Calm (revoke_slot-Calm p.cnode) λ _.
              bind-Calm (delete_if-Calm p.workers_l0_pt) λ _.
                bind-Calm (delete_if-Calm p.workers_l1_pt) λ _.
                  bind-Calm
                    (when-Calm (not (p.untyped_budget == 0)) (revoke_slot-Calm p.untyped_budget))
                    λ _. bind-Calm (free_all-Calm (map (λ e. e.frame) p.space.mmap)) λ _.
                      bind-Calm (free_all-Calm p.space.free_list) λ _.
                        bind-Calm (delete_frames-Calm p.space.devframes) λ _.
                          bind-Calm (free_all-Calm (map (λ e. e.frame) p.space.mprot)) λ _.
                            bind-Calm (pput_release_list-Calm p.pput) λ _. free_slot-Calm p.objcnode

  -- A calm step with what follows it.
  pub Calm-then :
      {A B : Type 0} {m : M K A} (k : A → M K B) (s : System K)
      → Calm m
      → (a : A) × (s' : System K) × ((m >>= k) s ≡ k a s') × (view s' ≡ view s)
  Calm-then {m} k s h =
      let (a, q) = h.answers s in (a, (m s).1, ap (λ r. next k r (m s).1) q, h.same s)

  quiet_next :
      {A B : Type 0} (k : A → M K B) (G : Result B × System K → Type 0) (r : Result A)
      (s s' : System K)
      → view s' ≡ view s
      → ((e : Errno) (t : System K) → view t ≡ view s → G (fail e, t))
      → ((a : A) (t : System K) → view t ≡ view s → G (k a t))
      → G (next k r s')
  quiet_next k G (value a) s s' v bad good = good a s' v
  quiet_next k G (fail e) s s' v bad good = bad e s' v

  -- What holds after a quiet step that fails, and after what follows one that does not.
  pub quiet_then :
      {A B : Type 0} {m : M K A} (k : A → M K B) (G : Result B × System K → Type 0) (s : System K)
      → Quiet m
      → ((e : Errno) (t : System K) → view t ≡ view s → G (fail e, t))
      → ((a : A) (t : System K) → view t ≡ view s → G (k a t))
      → G ((m >>= k) s)
  quiet_then {m} k G s h bad good = quiet_next k G (m s).0 s (m s).1 (h.same s) bad good
