-- ===== src/Aes/Fips.antt =====
-- The tables against FIPS 197: the S-box from inverses in GF(2^8), and the columns of MixColumns.
use Prim.Native.Nat.{suc, ℕ}
use porteus_gpu.Base.{zero, refl, ◌-◌, ◌%◌, ◌+◌, ◌==◌, ◌^◌, ◌/◌, if◌then◌else◌, ◌*◌, ◌<◌, ◌≡◌, ◌⊕◌}
use porteus_gpu.Aes.{te2, td1, td2, td0, td4, td3, te0, te4, te3, te1, ltb, lookup}
use porteus_gpu.Aes.Bytes.{at_bytes, all_below, sbox, inv_sbox}

-- Multiplication by x, modulo x^8 + x^4 + x^3 + x + 1.
unfoldable pub xtime : ℕ → ℕ
xtime a = if ltb a 128 then a * 2 else (a * 2 - 256) ⊕ 0x1b

-- The product of two bytes; n digits of the second count.
unfoldable pub product : ℕ → ℕ → ℕ → ℕ
product zero a b = 0
product (suc n) a b =
    let rest = product n (xtime a) (b / 2) in if b % 2 == 1 then a ⊕ rest else rest

infixl 70 ◌•◌
abbrev pub ◌•◌ : ℕ → ℕ → ℕ
a • b = product 8 a b

-- The power a^254, which is the inverse of a, and 0 for 0.
abbrev pub inverse : ℕ → ℕ
inverse a =
    let a₂ = a • a in
    let a₃ = a₂ • a in
    let a₆ = a₃ • a₃ in
    let a₁₂ = a₆ • a₆ in
    let a₁₅ = a₁₂ • a₃ in
    let a₃₀ = a₁₅ • a₁₅ in
    let a₆₀ = a₃₀ • a₃₀ in
    let a₁₂₀ = a₆₀ • a₆₀ in let a₁₂₆ = a₁₂₀ • a₆ in let a₁₂₇ = a₁₂₆ • a in a₁₂₇ • a₁₂₇

-- A byte turned left by k.
abbrev pub rotate : ℕ → ℕ → ℕ
rotate k b = b * 2 ^ k % 256 + b * 2 ^ k / 256

-- The affine map of SubBytes.
abbrev pub affine : ℕ → ℕ
affine b = b ⊕ rotate 1 b ⊕ rotate 2 b ⊕ rotate 3 b ⊕ rotate 4 b ⊕ 0x63

-- The four columns of a matrix times a byte.
abbrev pub column : ℕ → ℕ → ℕ → ℕ → ℕ → ℕ
column a b c d x = (a • x) * 2 ^ 24 + (b • x) * 2 ^ 16 + (c • x) * 2 ^ 8 + (d • x)

-- What FIPS 197 says of the tables at a byte.
pub record IsFips (x : ℕ) : Type 0 where
  pub inverts : x • inverse x ≡ (if x == 0 then 0 else 1)
  pub substitutes : sbox x ≡ affine (inverse x)
  pub inverts_sbox : inv_sbox (sbox x) ≡ x
  pub mixes0 : lookup te0 x ≡ column 2 1 1 3 (sbox x)
  pub unmixes0 : lookup td0 x ≡ column 14 9 13 11 (inv_sbox x)
  pub mixes1 : lookup te1 x ≡ column 3 2 1 1 (sbox x)
  pub unmixes1 : lookup td1 x ≡ column 11 14 9 13 (inv_sbox x)
  pub mixes2 : lookup te2 x ≡ column 1 3 2 1 (sbox x)
  pub unmixes2 : lookup td2 x ≡ column 13 11 14 9 (inv_sbox x)
  pub mixes3 : lookup te3 x ≡ column 1 1 3 2 (sbox x)
  pub unmixes3 : lookup td3 x ≡ column 9 13 11 14 (inv_sbox x)
  pub splats_sbox : lookup te4 x ≡ sbox x * 0x01010101
  pub splats_inverse : lookup td4 x ≡ inv_sbox x * 0x01010101

module _ (x : ℕ) (h : x < 256) where
  at_inverts : x • inverse x ≡ (if x == 0 then 0 else 1)
  unfolding all_below lookup sbox inv_sbox xtime product
  at_inverts = at_bytes (λ x. x • inverse x) (λ x. (if x == 0 then 0 else 1)) x refl h

  at_substitutes : sbox x ≡ affine (inverse x)
  unfolding all_below lookup sbox inv_sbox xtime product te4
  at_substitutes = at_bytes (λ x. sbox x) (λ x. affine (inverse x)) x refl h

  at_inverts_sbox : inv_sbox (sbox x) ≡ x
  unfolding all_below lookup sbox inv_sbox xtime product te4 td4
  at_inverts_sbox = at_bytes (λ x. inv_sbox (sbox x)) (λ x. x) x refl h

  at_mixes0 : lookup te0 x ≡ column 2 1 1 3 (sbox x)
  unfolding all_below lookup sbox inv_sbox xtime product te0 te4
  at_mixes0 = at_bytes (λ x. lookup te0 x) (λ x. column 2 1 1 3 (sbox x)) x refl h

  at_unmixes0 : lookup td0 x ≡ column 14 9 13 11 (inv_sbox x)
  unfolding all_below lookup sbox inv_sbox xtime product td0 td4
  at_unmixes0 = at_bytes (λ x. lookup td0 x) (λ x. column 14 9 13 11 (inv_sbox x)) x refl h

  at_mixes1 : lookup te1 x ≡ column 3 2 1 1 (sbox x)
  unfolding all_below lookup sbox inv_sbox xtime product te1 te4
  at_mixes1 = at_bytes (λ x. lookup te1 x) (λ x. column 3 2 1 1 (sbox x)) x refl h

  at_unmixes1 : lookup td1 x ≡ column 11 14 9 13 (inv_sbox x)
  unfolding all_below lookup sbox inv_sbox xtime product td1 td4
  at_unmixes1 = at_bytes (λ x. lookup td1 x) (λ x. column 11 14 9 13 (inv_sbox x)) x refl h

  at_mixes2 : lookup te2 x ≡ column 1 3 2 1 (sbox x)
  unfolding all_below lookup sbox inv_sbox xtime product te2 te4
  at_mixes2 = at_bytes (λ x. lookup te2 x) (λ x. column 1 3 2 1 (sbox x)) x refl h

  at_unmixes2 : lookup td2 x ≡ column 13 11 14 9 (inv_sbox x)
  unfolding all_below lookup sbox inv_sbox xtime product td2 td4
  at_unmixes2 = at_bytes (λ x. lookup td2 x) (λ x. column 13 11 14 9 (inv_sbox x)) x refl h

  at_mixes3 : lookup te3 x ≡ column 1 1 3 2 (sbox x)
  unfolding all_below lookup sbox inv_sbox xtime product te3 te4
  at_mixes3 = at_bytes (λ x. lookup te3 x) (λ x. column 1 1 3 2 (sbox x)) x refl h

  at_unmixes3 : lookup td3 x ≡ column 9 13 11 14 (inv_sbox x)
  unfolding all_below lookup sbox inv_sbox xtime product td3 td4
  at_unmixes3 = at_bytes (λ x. lookup td3 x) (λ x. column 9 13 11 14 (inv_sbox x)) x refl h

  at_splats_sbox : lookup te4 x ≡ sbox x * 0x01010101
  unfolding all_below lookup sbox inv_sbox xtime product te4
  at_splats_sbox = at_bytes (λ x. lookup te4 x) (λ x. sbox x * 0x01010101) x refl h

  at_splats_inverse : lookup td4 x ≡ inv_sbox x * 0x01010101
  unfolding all_below lookup sbox inv_sbox xtime product td4
  at_splats_inverse = at_bytes (λ x. lookup td4 x) (λ x. inv_sbox x * 0x01010101) x refl h

  -- At every byte the ten tables hold what FIPS 197 computes: the S-box is the affine map of the
  -- inverse in GF(2^8), its inverse undoes it, and each of the other tables holds a column of
  -- MixColumns or of InvMixColumns times the substituted byte.
  pub tables-IsFips : IsFips x
  tables-IsFips = record {
    inverts = at_inverts;
    substitutes = at_substitutes;
    inverts_sbox = at_inverts_sbox;
    mixes0 = at_mixes0;
    unmixes0 = at_unmixes0;
    mixes1 = at_mixes1;
    unmixes1 = at_unmixes1;
    mixes2 = at_mixes2;
    unmixes2 = at_unmixes2;
    mixes3 = at_mixes3;
    unmixes3 = at_unmixes3;
    splats_sbox = at_splats_sbox;
    splats_inverse = at_splats_inverse;
  }
