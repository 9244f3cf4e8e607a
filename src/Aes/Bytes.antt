-- ===== src/Aes/Bytes.antt =====
-- Facts about the tables at every byte, by evaluation.
use Prim.Native.Nat.{bit_and, suc, ℕ}
use porteus_gpu.Base.{
  ◌∙◌, ap, ==→ne, inr, inl, Bool-cases, false, ◌≢◌, ◌⊕◌, ◌*◌, ltb→lt, ◌/◌, ◌^◌, ==→eq,
  if◌then◌else◌, refl, ◌==◌, zero, arith, ◌<◌, ◌≡◌, true, ◌%◌, Bool,
}
use porteus_gpu.Aes.{
  byte0, byte1, byte2, byte3, ltb, te2, td3, te0, td0, te3, td2, td1, te1, lookup, te4, td4,
}

-- A test of the numbers below n, the small ones first.
-- A test of the numbers below n, the small ones first.
unfoldable pub all_below : ℕ → (ℕ → Bool) → Bool
all_below zero test = true
all_below (suc n) test = if all_below n test then test n else false

passed : (p q : Bool) → (if p then q else false) ≡ true → (p ≡ true) × (q ≡ true)
passed true q h = (refl, h)
passed false q h = grind arith

all_below-holds :
    (test : ℕ → Bool) (n : ℕ) → all_below n test ≡ true → (i : ℕ) → i < n → test i ≡ true
unfolding all_below
all_below-holds test zero h i l = absurd (omega arith)
all_below-holds test (suc n) h i l = elim (Bool-cases (i == n)) [
  | inl e ↦ ap test (==→eq i n e) ∙ (passed (all_below n test) (test n) h).1
  | inr ne ↦
      all_below-holds test n (passed (all_below n test) (test n) h).0 i (below i n (==→ne i n ne) l)
]
  where
    below : (i n : ℕ) → i ≢ n → i < suc n → i < n
    below i n ne l = omega arith

-- The S-box.
unfoldable pub sbox : ℕ → ℕ
sbox x = lookup te4 x % 256

-- The inverse S-box.
unfoldable pub inv_sbox : ℕ → ℕ
inv_sbox x = lookup td4 x % 256

-- InvMixColumns of a word, as the tables of decryption give it.
unfoldable pub inv_mix : ℕ → ℕ
inv_mix w =
    lookup td0 (sbox (byte3 w))
    ⊕ lookup td1 (sbox (byte2 w))
    ⊕ lookup td2 (sbox (byte1 w))
    ⊕ lookup td3 (sbox (byte0 w))

-- The value of a linear function at x, from its values at the powers of 2 below 2 ^ n.
abbrev pub pick : ℕ → ℕ → ℕ
pick v x = if x % 2 == 1 then v else 0

unfoldable pub linear : ℕ → (ℕ → ℕ) → ℕ → ℕ
linear zero f x = 0
linear (suc n) f x = pick (f (2 ^ n)) (x / 2 ^ n) ⊕ linear n f x

-- An equation that holds at every byte, by evaluation.
pub at_bytes : (f g : ℕ → ℕ) (x : ℕ) → all_below 256 (λ y. f y == g y) ≡ true → x < 256 → f x ≡ g x
at_bytes f g x table h = ==→eq (f x) (g x) (all_below-holds (λ y. f y == g y) 256 table x h)

below_bytes :
    (f : ℕ → ℕ) (x : ℕ) → all_below 256 (λ y. ltb (f y) (2 ^ 32)) ≡ true → x < 256 → f x < 2 ^ 32
below_bytes f x table h =
    ltb→lt (f x) (2 ^ 32) (all_below-holds (λ y. ltb (f y) (2 ^ 32)) 256 table x h)

module _ (x : ℕ) (h : x < 256) where
  pub inv_sbox-sbox : inv_sbox (sbox x) ≡ x
  unfolding all_below lookup sbox inv_sbox inv_mix linear te4 td4
  inv_sbox-sbox = at_bytes (λ x. inv_sbox (sbox x)) (λ x. x) x refl h

  pub te4_field3 : bit_and (lookup te4 x) 0xff000000 ≡ sbox x * 2 ^ 24
  unfolding all_below lookup sbox inv_sbox inv_mix linear te4
  te4_field3 = at_bytes (λ x. bit_and (lookup te4 x) 0xff000000) (λ x. sbox x * 2 ^ 24) x refl h

  pub td4_field3 : bit_and (lookup td4 x) 0xff000000 ≡ inv_sbox x * 2 ^ 24
  unfolding all_below lookup sbox inv_sbox inv_mix linear td4
  td4_field3 = at_bytes (λ x. bit_and (lookup td4 x) 0xff000000) (λ x. inv_sbox x * 2 ^ 24) x refl h

  pub inv_mix-te0 : inv_mix (lookup te0 x) ≡ sbox x * 2 ^ 24
  unfolding all_below lookup sbox inv_sbox inv_mix linear te0 te4 td0 td1 td2 td3
  inv_mix-te0 = at_bytes (λ x. inv_mix (lookup te0 x)) (λ x. sbox x * 2 ^ 24) x refl h

  pub td0-linear : lookup td0 (sbox x) ≡ linear 8 (λ y. lookup td0 (sbox y)) x
  unfolding all_below lookup sbox inv_sbox inv_mix linear td0 te4
  td0-linear =
      at_bytes (λ x. lookup td0 (sbox x)) (λ x. linear 8 (λ y. lookup td0 (sbox y)) x) x refl h

  pub te0-lt : lookup te0 x < 2 ^ 32
  unfolding all_below lookup te0
  te0-lt = below_bytes (λ x. lookup te0 x) x refl h

  pub td0-lt : lookup td0 x < 2 ^ 32
  unfolding all_below lookup td0
  td0-lt = below_bytes (λ x. lookup td0 x) x refl h

  pub te4_field2 : bit_and (lookup te4 x) 0x00ff0000 ≡ sbox x * 2 ^ 16
  unfolding all_below lookup sbox inv_sbox inv_mix linear te4
  te4_field2 = at_bytes (λ x. bit_and (lookup te4 x) 0x00ff0000) (λ x. sbox x * 2 ^ 16) x refl h

  pub td4_field2 : bit_and (lookup td4 x) 0x00ff0000 ≡ inv_sbox x * 2 ^ 16
  unfolding all_below lookup sbox inv_sbox inv_mix linear td4
  td4_field2 = at_bytes (λ x. bit_and (lookup td4 x) 0x00ff0000) (λ x. inv_sbox x * 2 ^ 16) x refl h

  pub inv_mix-te1 : inv_mix (lookup te1 x) ≡ sbox x * 2 ^ 16
  unfolding all_below lookup sbox inv_sbox inv_mix linear te1 te4 td0 td1 td2 td3
  inv_mix-te1 = at_bytes (λ x. inv_mix (lookup te1 x)) (λ x. sbox x * 2 ^ 16) x refl h

  pub td1-linear : lookup td1 (sbox x) ≡ linear 8 (λ y. lookup td1 (sbox y)) x
  unfolding all_below lookup sbox inv_sbox inv_mix linear td1 te4
  td1-linear =
      at_bytes (λ x. lookup td1 (sbox x)) (λ x. linear 8 (λ y. lookup td1 (sbox y)) x) x refl h

  pub te1-lt : lookup te1 x < 2 ^ 32
  unfolding all_below lookup te1
  te1-lt = below_bytes (λ x. lookup te1 x) x refl h

  pub td1-lt : lookup td1 x < 2 ^ 32
  unfolding all_below lookup td1
  td1-lt = below_bytes (λ x. lookup td1 x) x refl h

  pub te4_field1 : bit_and (lookup te4 x) 0x0000ff00 ≡ sbox x * 2 ^ 8
  unfolding all_below lookup sbox inv_sbox inv_mix linear te4
  te4_field1 = at_bytes (λ x. bit_and (lookup te4 x) 0x0000ff00) (λ x. sbox x * 2 ^ 8) x refl h

  pub td4_field1 : bit_and (lookup td4 x) 0x0000ff00 ≡ inv_sbox x * 2 ^ 8
  unfolding all_below lookup sbox inv_sbox inv_mix linear td4
  td4_field1 = at_bytes (λ x. bit_and (lookup td4 x) 0x0000ff00) (λ x. inv_sbox x * 2 ^ 8) x refl h

  pub inv_mix-te2 : inv_mix (lookup te2 x) ≡ sbox x * 2 ^ 8
  unfolding all_below lookup sbox inv_sbox inv_mix linear te2 te4 td0 td1 td2 td3
  inv_mix-te2 = at_bytes (λ x. inv_mix (lookup te2 x)) (λ x. sbox x * 2 ^ 8) x refl h

  pub td2-linear : lookup td2 (sbox x) ≡ linear 8 (λ y. lookup td2 (sbox y)) x
  unfolding all_below lookup sbox inv_sbox inv_mix linear td2 te4
  td2-linear =
      at_bytes (λ x. lookup td2 (sbox x)) (λ x. linear 8 (λ y. lookup td2 (sbox y)) x) x refl h

  pub te2-lt : lookup te2 x < 2 ^ 32
  unfolding all_below lookup te2
  te2-lt = below_bytes (λ x. lookup te2 x) x refl h

  pub td2-lt : lookup td2 x < 2 ^ 32
  unfolding all_below lookup td2
  td2-lt = below_bytes (λ x. lookup td2 x) x refl h

  pub te4_field0 : bit_and (lookup te4 x) 0x000000ff ≡ sbox x
  unfolding all_below lookup sbox inv_sbox inv_mix linear te4
  te4_field0 = at_bytes (λ x. bit_and (lookup te4 x) 0x000000ff) (λ x. sbox x) x refl h

  pub td4_field0 : bit_and (lookup td4 x) 0x000000ff ≡ inv_sbox x
  unfolding all_below lookup sbox inv_sbox inv_mix linear td4
  td4_field0 = at_bytes (λ x. bit_and (lookup td4 x) 0x000000ff) (λ x. inv_sbox x) x refl h

  pub inv_mix-te3 : inv_mix (lookup te3 x) ≡ sbox x
  unfolding all_below lookup sbox inv_sbox inv_mix linear te3 te4 td0 td1 td2 td3
  inv_mix-te3 = at_bytes (λ x. inv_mix (lookup te3 x)) (λ x. sbox x) x refl h

  pub td3-linear : lookup td3 (sbox x) ≡ linear 8 (λ y. lookup td3 (sbox y)) x
  unfolding all_below lookup sbox inv_sbox inv_mix linear td3 te4
  td3-linear =
      at_bytes (λ x. lookup td3 (sbox x)) (λ x. linear 8 (λ y. lookup td3 (sbox y)) x) x refl h

  pub te3-lt : lookup te3 x < 2 ^ 32
  unfolding all_below lookup te3
  te3-lt = below_bytes (λ x. lookup te3 x) x refl h

  pub td3-lt : lookup td3 x < 2 ^ 32
  unfolding all_below lookup td3
  td3-lt = below_bytes (λ x. lookup td3 x) x refl h
