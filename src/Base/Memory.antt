-- ===== src/Base/Memory.antt =====
-- Byte memory: the copies, the loads and the stores that the programs make.
use Prim.Native.Nat.{ℕ, zero, suc, ◌+◌, ◌-◌, ◌*◌, ◌/◌, ◌%◌, ◌^◌, ◌≤◌, ◌<◌}
use mathlib.Core.Path.{subst, ◌≡◌, refl, ap, sym, ◌∙◌, fun_ext}
use mathlib.Core.Logic.{◌⊎◌, inl, inr}
use mathlib.Core.Bool.{◌&&◌}
use native.Mathlib.Omega.{arith}
use porteus_gpu.Base.Tests.{if◌then◌else◌, ltb, leb, ltb-true, leb-true}
use porteus_gpu.Base.Word.{update}

abbrev pub Mem : Type 0
Mem = ℕ → ℕ

-- `memcpy` between areas that do not overlap.
unfoldable pub memcpy : ℕ → ℕ → ℕ → (ℕ → ℕ) → ℕ → ℕ
memcpy dest src n m a = if leb dest a && ltb a (dest + n) then m (src + (a - dest)) else m a

-- `memcpy` from an array.
unfoldable pub copy_bytes : ℕ → (ℕ → ℕ) → ℕ → (ℕ → ℕ) → ℕ → ℕ
copy_bytes dest bytes n m a = if leb dest a && ltb a (dest + n) then bytes (a - dest) else m a

unfoldable pub memset : ℕ → ℕ → ℕ → (ℕ → ℕ) → ℕ → ℕ
memset dest c n m a = if leb dest a && ltb a (dest + n) then c else m a

-- A store of a `u32`, lowest byte first.
unfoldable pub write32 : ℕ → ℕ → (ℕ → ℕ) → ℕ → ℕ
write32 p v m a = if leb p a && ltb a (p + 4) then v / 2 ^ (8 * (a - p)) % 2 ^ 8 else m a

-- The `u32` at an address.
unfoldable pub read32 : (ℕ → ℕ) → ℕ → ℕ
read32 m p = m p + 2 ^ 8 * m (p + 1) + 2 ^ 16 * m (p + 2) + 2 ^ 24 * m (p + 3)

lt_or_le : (a b : ℕ) → (a < b) ⊎ (b ≤ a)
lt_or_le a b = ground arith

pub read32-write32 : (p v : ℕ) (m : ℕ → ℕ) → v < 2 ^ 32 → read32 (write32 p v m) p ≡ v
unfolding read32 write32
read32-write32 p v m h = ground arith

-- An address is not among the n from p on.
abbrev pub Outside : ℕ → ℕ → ℕ → Type 0
Outside p n a = (a < p) ⊎ (p + n ≤ a)

pub memcpy-Outside :
    (dest src n : ℕ) (m : ℕ → ℕ) (a : ℕ) → Outside dest n a → memcpy dest src n m a ≡ m a
unfolding memcpy
memcpy-Outside dest src n m a o = ground arith

pub memcpy_at :
    (dest src n c : ℕ) (m : ℕ → ℕ) → c < n → memcpy dest src n m (dest + c) ≡ m (src + c)
unfolding memcpy
memcpy_at dest src n c m h =
    rw (leb-true dest (dest + c) (omega arith), ltb-true (dest + c) (dest + n) (omega arith))
      (ap (λ i. m (src + i)) (omega arith))

-- A word of the copy.
pub read32-memcpy :
    (dest src n o : ℕ) (m : ℕ → ℕ)
    → o + 4 ≤ n
    → read32 (memcpy dest src n m) (dest + o) ≡ read32 m (src + o)
unfolding read32
read32-memcpy dest src n o m h = omega (
  arith,
  memcpy_at dest src n o m (omega arith),
  byte 1 (omega arith),
  byte 2 (omega arith),
  byte 3 (omega arith),
)
  where
    byte : (c : ℕ) → o + c < n → memcpy dest src n m (dest + o + c) ≡ m (src + o + c)
    byte c l =
        ap (memcpy dest src n m) (omega arith)
        ∙ memcpy_at dest src n (o + c) m l
        ∙ ap m (omega arith)

pub memset-Outside :
    (dest c n : ℕ) (m : ℕ → ℕ) (a : ℕ) → Outside dest n a → memset dest c n m a ≡ m a
unfolding memset
memset-Outside dest c n m a o = ground arith

pub write32-Outside : (p v : ℕ) (m : ℕ → ℕ) (a : ℕ) → Outside p 4 a → write32 p v m a ≡ m a
unfolding write32
write32-Outside p v m a o = ground arith

-- Five bytes that were kept, put back over a jump.
pub copy_bytes-write32 :
    (p v b : ℕ) (m : ℕ → ℕ) → copy_bytes p (λ i. m (p + i)) 5 (write32 (p + 1) v (update m p b)) ≡ m
unfolding copy_bytes write32
copy_bytes-write32 p v b m = fun_ext λ a. grind arith

-- Every cell holds a byte.
abbrev pub IsBytes : (ℕ → ℕ) → Type 0
IsBytes m = (a : ℕ) → m a < 256

-- Four bytes at p and four at q have none in common.
abbrev pub Apart : ℕ → ℕ → Type 0
Apart p q = (p + 4 ≤ q) ⊎ (q + 4 ≤ p)

plus_zero : (p : ℕ) → p + 0 ≡ p
plus_zero p = omega arith

inside_or_not : (p a : ℕ) → Outside p 4 a ⊎ ((c : ℕ) × (c < 4) × (a ≡ p + c))
inside_or_not p a = elim (lt_or_le a p) [
  | inl below ↦ inl (inl below)
  | inr above ↦ elim (lt_or_le a (p + 4)) [
    | inl within ↦ inr (a - p, omega arith, omega arith)
    | inr past ↦ inl (inr past)
  ]
]

-- Byte c of a stored word.
write32_at : (p v c : ℕ) (m : ℕ → ℕ) → c < 4 → write32 p v m (p + c) ≡ v / 2 ^ (8 * c) % 2 ^ 8
unfolding write32
write32_at p v c m h =
    rw (leb-true p (p + c) (omega arith), ltb-true (p + c) (p + 4) (omega arith))
      (ap (λ i. v / 2 ^ (8 * i) % 2 ^ 8) (omega arith))

module _ (p : ℕ) (m : ℕ → ℕ) (bytes : IsBytes m) where
  pub read32-lt : read32 m p < 2 ^ 32
  unfolding read32
  read32-lt = omega (arith, bytes p, bytes (p + 1), bytes (p + 2), bytes (p + 3))

  pub write32-IsBytes : (v : ℕ) → IsBytes (write32 p v m)
  unfolding write32
  write32-IsBytes v a = ground (arith, bytes a)

  read32_byte : (c : ℕ) → c < 4 → read32 m p / 2 ^ (8 * c) % 2 ^ 8 ≡ m (p + c)
  unfolding read32
  read32_byte zero h = omega (arith, bytes p, ap m (plus_zero p))
  read32_byte (suc zero) h = omega (arith, bytes p, bytes (p + 1))
  read32_byte (suc (suc zero)) h = omega (arith, bytes p, bytes (p + 1), bytes (p + 2))
  read32_byte (suc (suc (suc zero))) h =
      omega (arith, bytes p, bytes (p + 1), bytes (p + 2), bytes (p + 3))
  read32_byte (suc (suc (suc (suc c)))) h = absurd (omega arith)

  -- What is read and written back changes nothing.
  pub write32-read32 : write32 p (read32 m p) m ≡ m
  write32-read32 = fun_ext λ a. elim (inside_or_not p a) [
    | inl o ↦ write32-Outside p (read32 m p) m a o
    | inr c ↦
        ap (write32 p (read32 m p) m) c.2
        ∙ write32_at p (read32 m p) c.0 m c.1
        ∙ read32_byte c.0 c.1
        ∙ ap m (sym c.2)
  ]

pub read32-Apart : (p q v : ℕ) (m : ℕ → ℕ) → Apart p q → read32 (write32 p v m) q ≡ read32 m q
unfolding read32 write32
read32-Apart p q v m h =
    rw
      (
        read32,
        write32-Outside p v m q (omega arith),
        write32-Outside p v m (q + 1) (omega arith),
        write32-Outside p v m (q + 2) (omega arith),
        write32-Outside p v m (q + 3) (omega arith),
      )
      refl

pub write32_same : (p v w : ℕ) (m : ℕ → ℕ) → write32 p v (write32 p w m) ≡ write32 p v m
unfolding write32
write32_same p v w m = fun_ext λ a. ground arith

pub write32_comm :
    (p q v w : ℕ) (m : ℕ → ℕ)
    → Apart p q
    → write32 p v (write32 q w m) ≡ write32 q w (write32 p v m)
unfolding write32
write32_comm p q v w m h = fun_ext λ a. ground arith

-- A word of two memories that agree on its bytes.
pub read32_same :
    (m m' : ℕ → ℕ) (p : ℕ) → ((i : ℕ) → i < 4 → m' (p + i) ≡ m (p + i)) → read32 m' p ≡ read32 m p
unfolding read32
read32_same m m' p h =
    let e : m' p ≡ m p = subst (λ q. m' q ≡ m q) (omega arith) (h 0 (omega arith)) in
    omega (arith, e, h 1 (omega arith), h 2 (omega arith), h 3 (omega arith))
