-- ===== src/Base/Xor.antt =====
-- `^` and `&` of C on unsigned words, as arithmetic: the libraries have these operations, and no laws.
use Prim.Native.Nat.{
  ℕ, zero, suc, ◌+◌, ◌*◌, ◌/◌, ◌%◌, ◌^◌, ◌-◌, ◌≤◌, ◌<◌, min, differ, digits, bitwise, bit_and,
  bit_xor, bit_and-bitwise, bit_xor-bitwise,
}
use mathlib.Core.Logic.{◌⊎◌, inl, inr}
use mathlib.Core.Path.{◌≡◌, refl, ap, ◌∙◌, sym}
use native.Mathlib.Nat.{
  mod-eq_of_lt, mod-lt, div-div-eq-div-mul, div-one, mod-one, mul_assoc, mod-add-div', mul_comm,
  le_refl, pow-suc, one-le-pow,
}
use native.Mathlib.Omega.{arith}

infixl 65 ◌⊕◌
abbrev pub ◌⊕◌ : ℕ → ℕ → ℕ
a ⊕ b = bit_xor a b

-- The library computes both digit by digit, with a count of the digits to go. A count that is larger
-- than needed does no harm.
module _ (rest : ℕ → ℕ) (bit : ℕ → ℕ → ℕ) where
  one_more :
      (count x y : ℕ) → x ≤ count → digits rest bit (suc count) x y ≡ digits rest bit count x y
  one_more count zero y fits = no_digits count
    where
      no_digits : (c : ℕ) → rest y ≡ digits rest bit c zero y
      no_digits zero = refl
      no_digits (suc c) = refl
  one_more zero (suc x) y fits = absurd (omega arith)
  one_more (suc count) (suc x) y fits =
      ap (λ t. t * 2 + bit (suc x % 2) (y % 2)) (one_more count (suc x / 2) (y / 2) (omega arith))

  as_counted : (count x y : ℕ) → count ≡ x → digits rest bit count x y ≡ bitwise rest bit x y
  as_counted count x y e = ap (λ c. digits rest bit c x y) e

  spare : (count x y : ℕ) → x ≤ count → digits rest bit count x y ≡ bitwise rest bit x y
  spare zero x y fits = as_counted zero x y (omega arith)
  spare (suc count) x y fits = elim (at_most x count fits) [
    | inl fewer ↦ one_more count x y fewer ∙ spare count x y fewer
    | inr all ↦ as_counted (suc count) x y all
  ]
    where
      at_most : (x count : ℕ) → x ≤ suc count → (x ≤ count) ⊎ (suc count ≡ x)
      at_most x count h = ground arith

  lowest_first :
      (x y : ℕ)
      → bitwise rest bit (suc x) y
        ≡ bit (suc x % 2) (y % 2) + 2 * bitwise rest bit (suc x / 2) (y / 2)
  lowest_first x y = omega (arith, spare x (suc x / 2) (y / 2) (omega arith))

differ_bits : (a b : ℕ) → a < 2 → b < 2 → differ a b ≡ (a + b) % 2
differ_bits zero zero h l = refl
differ_bits zero (suc zero) h l = refl
differ_bits (suc zero) zero h l = refl
differ_bits (suc zero) (suc zero) h l = refl
differ_bits (suc (suc a)) b h l = absurd (omega arith)
differ_bits zero (suc (suc b)) h l = absurd (omega arith)
differ_bits (suc zero) (suc (suc b)) h l = absurd (omega arith)

pub zero-xor : (b : ℕ) → 0 ⊕ b ≡ b
zero-xor b = bit_xor-bitwise 0 b

zero-and : (b : ℕ) → bit_and 0 b ≡ 0
zero-and b = bit_and-bitwise 0 b

xor_digit : (a b : ℕ) → a ⊕ b ≡ differ (a % 2) (b % 2) + 2 * (a / 2 ⊕ b / 2)
xor_digit zero b = omega (arith, zero-xor b, zero-xor (b / 2))
xor_digit (suc a) b =
    bit_xor-bitwise (suc a) b
    ∙ lowest_first (λ t. t) differ a b
    ∙ ap (λ t. differ (suc a % 2) (b % 2) + 2 * t) (sym (bit_xor-bitwise (suc a / 2) (b / 2)))

and_step : (a b : ℕ) → bit_and a b ≡ min (a % 2) (b % 2) + 2 * bit_and (a / 2) (b / 2)
and_step zero b = omega (arith, zero-and b, zero-and (b / 2))
and_step (suc a) b =
    bit_and-bitwise (suc a) b
    ∙ lowest_first (λ t. 0) min a b
    ∙ ap (λ t. min (suc a % 2) (b % 2) + 2 * t) (sym (bit_and-bitwise (suc a / 2) (b / 2)))

-- The lowest digit, and the rest.
pub xor_step : (a b : ℕ) → a ⊕ b ≡ (a / 2 ⊕ b / 2) * 2 + (a + b) % 2
xor_step a b = omega (arith, xor_digit a b, differ_bits (a % 2) (b % 2) (omega arith) (omega arith))

pub xor_half : (a b : ℕ) → (a ⊕ b) / 2 ≡ a / 2 ⊕ b / 2
xor_half a b = omega (arith, xor_step a b)

pub xor_low : (a b : ℕ) → (a ⊕ b) % 2 ≡ (a + b) % 2
xor_low a b = omega (arith, xor_step a b)

xor-zero_below : (n a : ℕ) → a ≤ n → a ⊕ 0 ≡ a
xor-zero_below zero zero h = refl
xor-zero_below zero (suc a) h = absurd (omega arith)
xor-zero_below (suc n) a h = omega (arith, xor_step a 0, xor-zero_below n (a / 2) (omega arith))

pub xor-zero : (a : ℕ) → a ⊕ 0 ≡ a
xor-zero a = xor-zero_below a a (le_refl _)

comm_below : (n a b : ℕ) → a ≤ n → a ⊕ b ≡ b ⊕ a
comm_below zero zero b h = zero-xor b ∙ sym (xor-zero b)
comm_below zero (suc a) b h = absurd (omega arith)
comm_below (suc n) a b h =
    omega (arith, xor_step a b, xor_step b a, comm_below n (a / 2) (b / 2) (omega arith))

pub xor_comm : (a b : ℕ) → a ⊕ b ≡ b ⊕ a
xor_comm a b = comm_below a a b (le_refl _)

assoc_below : (n a b c : ℕ) → a ≤ n → a ⊕ b ⊕ c ≡ a ⊕ (b ⊕ c)
assoc_below zero zero b c h = ap (λ t. t ⊕ c) (zero-xor b) ∙ sym (zero-xor (b ⊕ c))
assoc_below zero (suc a) b c h = absurd (omega arith)
assoc_below (suc n) a b c h =
    xor_step (a ⊕ b) c
    ∙ omega (
      arith,
      ap (λ t. t ⊕ c / 2) (xor_half a b),
      ap (λ t. a / 2 ⊕ t) (xor_half b c),
      assoc_below n (a / 2) (b / 2) (c / 2) (omega arith),
      xor_low a b,
      xor_low b c,
      xor_step a (b ⊕ c),
    )

pub xor_assoc : (a b c : ℕ) → a ⊕ b ⊕ c ≡ a ⊕ (b ⊕ c)
xor_assoc a b c = assoc_below a a b c (le_refl _)

self_below : (n a : ℕ) → a ≤ n → a ⊕ a ≡ 0
self_below zero zero h = refl
self_below zero (suc a) h = absurd (omega arith)
self_below (suc n) a h = omega (arith, xor_step a a, self_below n (a / 2) (omega arith))

pub xor_self : (a : ℕ) → a ⊕ a ≡ 0
xor_self a = self_below a a (le_refl _)

pub xor_cancel : (a b : ℕ) → a ⊕ b ⊕ b ≡ a
xor_cancel a b = xor_assoc a b b ∙ ap (λ t. a ⊕ t) (xor_self b) ∙ xor-zero a

-- Four terms, exchanged in the middle.
pub xor_swap : (a b c d : ℕ) → a ⊕ b ⊕ (c ⊕ d) ≡ a ⊕ c ⊕ (b ⊕ d)
xor_swap a b c d =
    xor_assoc a b (c ⊕ d)
    ∙ ap (λ t. a ⊕ t) (sym (xor_assoc b c d) ∙ ap (λ t. t ⊕ d) (xor_comm b c) ∙ xor_assoc c b d)
    ∙ sym (xor_assoc a c (b ⊕ d))

div-half : (k n : ℕ) → n / 2 ^ suc k ≡ n / 2 / 2 ^ k
div-half k n = rw pow-suc (rw (mul_comm (2 ^ k) 2) (sym (div-div-eq-div-mul n 2 (2 ^ k))))

pub xor_div : (k a b : ℕ) → (a ⊕ b) / 2 ^ k ≡ a / 2 ^ k ⊕ b / 2 ^ k
xor_div zero a b =
    div-one (a ⊕ b) ∙ sym (ap (λ t. t ⊕ b / 1) (div-one a) ∙ ap (λ t. a ⊕ t) (div-one b))
xor_div (suc k) a b =
    rw (div-half k (a ⊕ b), div-half k a, div-half k b, xor_half a b) (xor_div k (a / 2) (b / 2))

mod-half : (k n : ℕ) → n % 2 ^ suc k ≡ n / 2 % 2 ^ k * 2 + n % 2
mod-half k n =
    let q = n / 2 / 2 ^ k in
    omega (
      arith,
      mod-add-div' n (2 ^ suc k),
      mod-add-div' (n / 2) (2 ^ k),
      ap (λ t. t * 2 ^ suc k) (div-half k n),
      ap (λ t. q * t) (pow-suc 2 k) ∙ sym (mul_assoc q (2 ^ k) 2),
    )

half-mod : (k n : ℕ) → n % 2 ^ suc k / 2 ≡ n / 2 % 2 ^ k
half-mod k n = omega (arith, mod-half k n)

pub xor_mod : (k a b : ℕ) → (a ⊕ b) % 2 ^ k ≡ a % 2 ^ k ⊕ b % 2 ^ k
xor_mod zero a b = omega (arith, ap (λ t. t ⊕ b % 1) (mod-one a) ∙ ap (λ t. 0 ⊕ t) (mod-one b))
xor_mod (suc k) a b = omega (
  arith,
  xor_step (a % 2 ^ suc k) (b % 2 ^ suc k),
  ap (λ t. t ⊕ b % 2 ^ suc k / 2) (half-mod k a) ∙ ap (λ t. a / 2 % 2 ^ k ⊕ t) (half-mod k b),
  mod-half k a,
  mod-half k b,
  mod-half k (a ⊕ b),
  ap (λ t. t % 2 ^ k) (xor_half a b),
  xor_low a b,
  xor_mod k (a / 2) (b / 2),
)

-- Words of k bits stay words of k bits.
pub xor-lt : (k a b : ℕ) → a < 2 ^ k → b < 2 ^ k → a ⊕ b < 2 ^ k
xor-lt k a b p q = omega (
  arith,
  ap (λ t. t ⊕ b) (mod-eq_of_lt p),
  xor_mod k a b,
  mod-eq_of_lt p,
  mod-eq_of_lt q,
  ap (λ t. t ⊕ b % 2 ^ k) (mod-eq_of_lt p) ∙ ap (λ t. a ⊕ t) (mod-eq_of_lt q),
  mod-lt (a ⊕ b) (one-le-pow k 2 (omega arith)),
)

half-mask : (k : ℕ) → (2 ^ suc k - 1) / 2 ≡ 2 ^ k - 1
half-mask k = omega (arith, pow-suc 2 k, one-le-pow k 2)

double : (q k : ℕ) → q * 2 ^ suc k ≡ 2 * (q * 2 ^ k)
double q k = omega (arith, ap (λ t. q * t) (pow-suc 2 k), sym (mul_assoc q (2 ^ k) 2))

half-double : (q k : ℕ) → q * 2 ^ suc k / 2 ≡ q * 2 ^ k
half-double q k = omega (arith, double q k)

below-one : (r : ℕ) → r < 1 → r ≡ 0
below-one r h = omega arith

and-zero_below : (n a : ℕ) → a ≤ n → bit_and a 0 ≡ 0
and-zero_below zero zero h = refl
and-zero_below zero (suc a) h = absurd (omega arith)
and-zero_below (suc n) a h = omega (arith, and_step a 0, and-zero_below n (a / 2) (omega arith))

-- A mask of k ones is the remainder by 2 ^ k.
pub and_mask : (k a : ℕ) → bit_and a (2 ^ k - 1) ≡ a % 2 ^ k
and_mask zero a = and-zero_below a a (le_refl _) ∙ sym (mod-one a)
and_mask (suc k) a = omega (
  arith,
  and_step a (2 ^ suc k - 1),
  pow-suc 2 k,
  one-le-pow k 2,
  ap (λ t. bit_and (a / 2) t) (half-mask k),
  and_mask k (a / 2),
  mod-half k a,
)

-- A number above its lowest k digits, and these.
pub xor_fields : (k q r : ℕ) → r < 2 ^ k → q * 2 ^ k ⊕ r ≡ q * 2 ^ k + r
xor_fields zero q r p = ap (λ t. q * 1 ⊕ t) (below-one r p) ∙ omega (arith, xor-zero (q * 1))
xor_fields (suc k) q r p = omega (
  arith,
  xor_step (q * 2 ^ suc k) r,
  double q k,
  pow-suc 2 k,
  ap (λ t. t ⊕ r / 2) (half-double q k),
  xor_fields k q (r / 2) (omega (arith, pow-suc 2 k)),
)
