-- ===== src/Base/Word.antt =====
-- `unsigned long` on x86_64: a number below 2 ^ 64, with the wrap-around written out. An array that
-- the program indexes is a function of the index.
use Prim.Native.Nat.{◌<◌, ℕ, ◌+◌, ◌-◌, ◌%◌, ◌^◌}
use mathlib.Core.Path.{◌≡◌, fun_ext}
use native.Mathlib.Omega.{arith}
use porteus_gpu.Base.Tests.{◌==◌, if◌then◌else◌}

abbrev pub add64 : ℕ → ℕ → ℕ
add64 a b = (a + b) % 2 ^ 64

abbrev pub sub64 : ℕ → ℕ → ℕ
sub64 a b = (a + 2 ^ 64 - b) % 2 ^ 64

pub add64_small : (a b : ℕ) → a + b < 2 ^ 64 → add64 a b ≡ a + b
add64_small a b h = omega arith

-- A write to one cell of an array.
abbrev pub update {ℓ} : {A : Type ℓ} → (ℕ → A) → ℕ → A → ℕ → A
update f i a j = if i == j then a else f j

module _ {ℓ} {A : Type ℓ} where
  pub update_same : (f : ℕ → A) (i : ℕ) (a : A) → f i ≡ a → update f i a ≡ f
  update_same f i a h = fun_ext λ j. ground arith

  pub update-update : (f : ℕ → A) (i : ℕ) (a b : A) → update (update f i a) i b ≡ update f i b
  update-update f i a b = fun_ext λ j. ground arith

-- `atomic_t`, a 32-bit counter.
abbrev pub inc32 : ℕ → ℕ
inc32 a = (a + 1) % 2 ^ 32

abbrev pub dec32 : ℕ → ℕ
dec32 a = (a + 2 ^ 32 - 1) % 2 ^ 32
