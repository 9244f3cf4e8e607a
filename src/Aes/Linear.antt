-- ===== src/Aes/Linear.antt =====
-- InvMixColumns is linear, and undoes the mixing of an encryption round.
use porteus_gpu.Aes.Words.{
  byte0-lt, byte1-lt, byte2-lt, byte3-lt, byte0-xor, byte1-xor, byte2-xor, byte3-xor, word,
}
use porteus_gpu.Base.{
  zero-xor, xor-zero, sym, xor_self, xor_low, xor-lt, ◌<◌, arith, refl, zero, xor_swap, ◌/◌, ◌∙◌,
  xor_div, ◌^◌, ap, ◌≡◌, ◌⊕◌,
}
use porteus_gpu.Aes.{
  te2, te1, te0, td3, td2, td1, td0, lookup, te_mix, suc, ℕ, byte3, byte2, byte1, byte0,
}
use porteus_gpu.Aes.Bytes.{
  inv_mix-te3, inv_mix-te2, inv_mix-te1, inv_mix-te0, te1-lt, te0-lt, te2-lt, te3-lt, td3-linear,
  td2-linear, td1-linear, td0-linear, sbox, linear, pick, inv_mix,
}

pick-xor : (v p q : ℕ) → pick v (p ⊕ q) ≡ pick v p ⊕ pick v q
pick-xor v p q = ground (arith, xor_low p q, xor_self v, xor-zero v, zero-xor v, xor_self 0)

linear-xor : (n : ℕ) (f : ℕ → ℕ) (a b : ℕ) → linear n f (a ⊕ b) ≡ linear n f a ⊕ linear n f b
unfolding linear
linear-xor zero f a b = refl
linear-xor (suc n) f a b =
    ap (λ t. pick (f (2 ^ n)) t ⊕ linear n f (a ⊕ b)) (xor_div n a b)
    ∙ ap (λ t. t ⊕ linear n f (a ⊕ b)) (pick-xor (f (2 ^ n)) (a / 2 ^ n) (b / 2 ^ n))
    ∙ ap (λ t. pick (f (2 ^ n)) (a / 2 ^ n) ⊕ pick (f (2 ^ n)) (b / 2 ^ n) ⊕ t) (linear-xor n f a b)
    ∙ xor_swap (pick (f (2 ^ n)) (a / 2 ^ n)) (pick (f (2 ^ n)) (b / 2 ^ n)) (linear n f a)
        (linear n f b)

-- A function that agrees with a linear one on the bytes.
additive :
    (g f : ℕ → ℕ)
    → ((x : ℕ) → x < 256 → g x ≡ linear 8 f x)
    → (a b : ℕ) → a < 256
    → b < 256
    → g (a ⊕ b) ≡ g a ⊕ g b
additive g f agrees a b p q =
    agrees (a ⊕ b) (xor-lt 8 a b p q)
    ∙ linear-xor 8 f a b
    ∙ sym (ap (λ t. t ⊕ g b) (agrees a p) ∙ ap (λ t. linear 8 f a ⊕ t) (agrees b q))

-- Eight terms, in two columns.
xor_columns :
    (a b c d a' b' c' d' : ℕ)
    → a ⊕ a' ⊕ (b ⊕ b') ⊕ (c ⊕ c') ⊕ (d ⊕ d') ≡ a ⊕ b ⊕ c ⊕ d ⊕ (a' ⊕ b' ⊕ c' ⊕ d')
xor_columns a b c d a' b' c' d' =
    ap (λ t. t ⊕ (c ⊕ c') ⊕ (d ⊕ d')) (xor_swap a a' b b')
    ∙ ap (λ t. t ⊕ (d ⊕ d')) (xor_swap (a ⊕ b) (a' ⊕ b') c c')
    ∙ xor_swap (a ⊕ b ⊕ c) (a' ⊕ b' ⊕ c') d d'

pub inv_mix-xor : (a b : ℕ) → a < 2 ^ 32 → b < 2 ^ 32 → inv_mix (a ⊕ b) ≡ inv_mix a ⊕ inv_mix b
unfolding inv_mix
inv_mix-xor a b p q =
    rw
      (
        inv_mix,
        byte3-xor a b,
        byte2-xor a b,
        byte1-xor a b,
        byte0-xor a b,
        additive (λ x. lookup td0 (sbox x)) _ td0-linear (byte3 a) (byte3 b) (byte3-lt a p)
            (byte3-lt b q),
        additive (λ x. lookup td1 (sbox x)) _ td1-linear (byte2 a) (byte2 b) (byte2-lt a)
            (byte2-lt b),
        additive (λ x. lookup td2 (sbox x)) _ td2-linear (byte1 a) (byte1 b) (byte1-lt a)
            (byte1-lt b),
        additive (λ x. lookup td3 (sbox x)) _ td3-linear (byte0 a) (byte0 b) (byte0-lt a)
            (byte0-lt b),
      )
      (xor_columns _ _ _ _ _ _ _ _)

-- The word of the next state before mixing: SubBytes and ShiftRows.
abbrev pub sub_word : ℕ → ℕ → ℕ → ℕ → ℕ
sub_word a b c d = word (sbox (byte3 a)) (sbox (byte2 b)) (sbox (byte1 c)) (sbox (byte0 d))

module _ (a b c d : ℕ) (h : a < 2 ^ 32) where
  first-lt : lookup te0 (byte3 a) < 2 ^ 32
  first-lt = te0-lt (byte3 a) (byte3-lt a h)

  second-lt : lookup te0 (byte3 a) ⊕ lookup te1 (byte2 b) < 2 ^ 32
  second-lt = xor-lt 32 _ _ first-lt (te1-lt (byte2 b) (byte2-lt b))

  third-lt : lookup te0 (byte3 a) ⊕ lookup te1 (byte2 b) ⊕ lookup te2 (byte1 c) < 2 ^ 32
  third-lt = xor-lt 32 _ _ second-lt (te2-lt (byte1 c) (byte1-lt c))

  pub te_mix-lt : te_mix a b c d < 2 ^ 32
  unfolding te_mix
  te_mix-lt = xor-lt 32 _ _ third-lt (te3-lt (byte0 d) (byte0-lt d))

  -- InvMixColumns undoes the mixing.
  pub inv_mix-te_mix : inv_mix (te_mix a b c d) ≡ sub_word a b c d
  unfolding te_mix
  inv_mix-te_mix =
      rw
        (
          te_mix,
          inv_mix-xor _ _ third-lt (te3-lt (byte0 d) (byte0-lt d)),
          inv_mix-xor _ _ second-lt (te2-lt (byte1 c) (byte1-lt c)),
          inv_mix-xor _ _ first-lt (te1-lt (byte2 b) (byte2-lt b)),
          inv_mix-te0 (byte3 a) (byte3-lt a h),
          inv_mix-te1 (byte2 b) (byte2-lt b),
          inv_mix-te2 (byte1 c) (byte1-lt c),
          inv_mix-te3 (byte0 d) (byte0-lt d),
        )
        refl
