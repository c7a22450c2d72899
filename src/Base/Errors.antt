-- ===== src/Base/Errors.antt =====
-- The answers of the calls.
use mathlib.Core.Path.{◌≡◌, refl}
use mathlib.Core.Logic.{◌⊎◌, inl, inr}

-- What the calls return: 0 or a negated errno.
pub data Errno : Type 0 where
  einval enomem enospc esrch ebadf eagain enoent eperm eacces emfile enametoolong efbig echild
        enosys enotdir erofs eisdir espipe eio :
      Errno

pub data Status : Type 0 where
  ok : Status
  err : Errno → Status

pub Status-cases : (s : Status) → (s ≡ ok) ⊎ ((e : Errno) × (s ≡ err e))
Status-cases ok = inl refl
Status-cases (err e) = inr (e, refl)

-- What a call answers that also has a value to hand out.
pub data Result {ℓ} (A : Type ℓ) : Type ℓ where
  value : A → Result A
  fail : Errno → Result A

pub Result-cases {ℓ} :
    {A : Type ℓ} (x : Result A) → ((e : Errno) × (x ≡ fail e)) ⊎ ((a : A) × (x ≡ value a))
Result-cases (value a) = inr (a, refl)
Result-cases (fail e) = inl (e, refl)
