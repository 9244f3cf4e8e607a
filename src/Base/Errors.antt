-- ===== src/Base/Errors.antt =====
-- The `int` that a driver function returns: 0, or a negative error code.
use Prim.Native.Nat.{ℕ}
use mathlib.Core.Path.{◌≡◌, refl}
use mathlib.Core.Logic.{◌⊎◌, inl, inr}

pub data Errno : Type 0 where
  efault enotty ebusy einval enomem eilseq : Errno
  -- A code handed on from the kernel.
  other : ℕ → Errno

pub data Status : Type 0 where
  ok : Status
  fail : Errno → Status

pub Status-cases : (s : Status) → (s ≡ ok) ⊎ ((e : Errno) × (s ≡ fail e))
Status-cases ok = inl refl
Status-cases (fail e) = inr (e, refl)
