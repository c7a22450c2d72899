-- ===== src/Proc/Monad.antt =====
-- taskman/proc: a C function as a step on the state that answers a value or a negated errno.
use lq.Base.{
  ℕ, Bool, true, false, Option, none, some, if◌then◌else◌, set, Errno, Result, value, fail,
}
use lq.Chan.State.{Registry, first}
use lq.Proc.State.{Process, System, is_process}

-- What was written before an early return stays written.
abbrev pub M : Type 0 → Type 0 → Type 0
M K A = System K → Result A × System K

module _ {K A : Type 0} where
  abbrev pub pure : A → M K A
  pure a s = (value a, s)

  abbrev pub raise : Errno → M K A
  raise e s = (fail e, s)

  abbrev pub gets : (System K → A) → M K A
  gets f s = (value (f s), s)

  abbrev pub or_raise : Option A → Errno → M K A
  or_raise none e = raise e
  or_raise (some a) e = pure a

  -- A call of the kernel.
  abbrev pub invoke : (K → A × K) → M K A
  invoke f s = let (a, k) = f s.kernel in (value a, record s { kernel = k })

  -- A step whose answer is read and not returned.
  abbrev pub attempt : M K A → M K (Result A)
  attempt m s = let (r, s') = m s in (value r, s')

-- What follows a step.
abbrev pub next : {K A B : Type 0} → (A → M K B) → Result A → M K B
next f (value a) s = f a s
next f (fail e) s = (fail e, s)

infixl 5 ◌>>=◌ ◌>>◌
abbrev pub ◌>>=◌ : {K A B : Type 0} → M K A → (A → M K B) → M K B
◌>>=◌ m f s = next f (m s).0 (m s).1

abbrev pub ◌>>◌ : {K A B : Type 0} → M K A → M K B → M K B
m >> k = m >>= λ _. k

module _ {K : Type 0} where
  abbrev pub raise_if : Bool → Errno → M K (Unit {0})
  raise_if c e s = (if c then fail e else value tt, s)

  abbrev pub modify : (System K → System K) → M K (Unit {0})
  modify f s = (value tt, f s)

  -- Steps that are made only under a test.
  abbrev pub when : Bool → M K (Unit {0}) → M K (Unit {0})
  when c m s = if c then m s else (value tt, s)

  -- A call of the kernel that ends the function where it fails.
  abbrev pub invoke_or : Errno → (K → Bool × K) → M K (Unit {0})
  invoke_or e f = invoke f >>= λ (ok : Bool). raise_if (if ok then false else true) e

  -- `tm_process_lookup`, with the index.
  abbrev pub process_lookup : ℕ → M K (Option (ℕ × Process))
  process_lookup pid = gets (λ s. first (is_process pid) s.processes)

  abbrev pub with_process : ℕ → Process → M K (Unit {0})
  with_process i p = modify (λ s. record s { processes = set s.processes i p })

  abbrev pub with_registry : (Registry → Registry) → M K (Unit {0})
  with_registry f = modify (λ s. record s { registry = f s.registry })
