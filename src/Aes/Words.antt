-- ===== src/Aes/Words.antt =====
-- The bytes of a word, and of an exclusive or of words.
use Prim.Native.Nat.{ℕ, bit_and}
use porteus_gpu.Base.{
  xor_fields, ap, xor_assoc, xor_mod, ◌∙◌, ◌+◌, xor_div, ◌^◌, and_mask, arith, ◌<◌, ◌≡◌, ◌*◌, ◌/◌,
  ◌⊕◌,
}
use porteus_gpu.Aes.{byte3, byte2, byte1, byte0}

-- `(w >> k) & 0xff` is linear.
field-xor :
    (k a b : ℕ)
    → bit_and ((a ⊕ b) / 2 ^ k) 0xff ≡ bit_and (a / 2 ^ k) 0xff ⊕ bit_and (b / 2 ^ k) 0xff
field-xor k a b =
    rw (and_mask 8 ((a ⊕ b) / 2 ^ k), and_mask 8 (a / 2 ^ k), and_mask 8 (b / 2 ^ k), xor_div k a b)
      (xor_mod 8 (a / 2 ^ k) (b / 2 ^ k))

pub byte3-xor : (a b : ℕ) → byte3 (a ⊕ b) ≡ byte3 a ⊕ byte3 b
byte3-xor a b = xor_div 24 a b

pub byte2-xor : (a b : ℕ) → byte2 (a ⊕ b) ≡ byte2 a ⊕ byte2 b
byte2-xor a b = field-xor 16 a b

pub byte1-xor : (a b : ℕ) → byte1 (a ⊕ b) ≡ byte1 a ⊕ byte1 b
byte1-xor a b = field-xor 8 a b

pub byte0-xor : (a b : ℕ) → byte0 (a ⊕ b) ≡ byte0 a ⊕ byte0 b
byte0-xor a b = rw (and_mask 8 (a ⊕ b), and_mask 8 a, and_mask 8 b) (xor_mod 8 a b)

pub byte3-lt : (w : ℕ) → w < 2 ^ 32 → byte3 w < 256
byte3-lt w h = omega arith

pub byte2-lt : (w : ℕ) → byte2 w < 256
byte2-lt w = omega (arith, and_mask 8 (w / 2 ^ 16))

pub byte1-lt : (w : ℕ) → byte1 w < 256
byte1-lt w = omega (arith, and_mask 8 (w / 2 ^ 8))

pub byte0-lt : (w : ℕ) → byte0 w < 256
byte0-lt w = omega (arith, and_mask 8 w)

-- A word of four bytes.
abbrev pub word : ℕ → ℕ → ℕ → ℕ → ℕ
word a b c d = a * 2 ^ 24 ⊕ b * 2 ^ 16 ⊕ c * 2 ^ 8 ⊕ d

pub word_sum :
    (a b c d : ℕ)
    → b < 256
    → c < 256
    → d < 256
    → word a b c d ≡ a * 2 ^ 24 + b * 2 ^ 16 + c * 2 ^ 8 + d
word_sum a b c d hb hc hd =
    xor_assoc (a * 2 ^ 24 ⊕ b * 2 ^ 16) (c * 2 ^ 8) d
    ∙ ap (λ t. a * 2 ^ 24 ⊕ b * 2 ^ 16 ⊕ t) (xor_fields 8 c d hd)
    ∙ ap (λ t. t ⊕ (c * 2 ^ 8 + d)) (xor_fields 24 a (b * 2 ^ 16) (omega arith) ∙ upper)
    ∙ xor_fields 16 (a * 2 ^ 8 + b) (c * 2 ^ 8 + d) (omega arith)
    ∙ omega arith
  where
    upper : a * 2 ^ 24 + b * 2 ^ 16 ≡ (a * 2 ^ 8 + b) * 2 ^ 16
    upper = omega arith

pub word_bytes : (w : ℕ) → w < 2 ^ 32 → word (byte3 w) (byte2 w) (byte1 w) (byte0 w) ≡ w
word_bytes w h =
    word_sum (byte3 w) (byte2 w) (byte1 w) (byte0 w) (byte2-lt w) (byte1-lt w) (byte0-lt w)
    ∙ omega (arith, and_mask 8 (w / 2 ^ 16), and_mask 8 (w / 2 ^ 8), and_mask 8 w)

module _ (a b c d : ℕ) (ha : a < 256) (hb : b < 256) (hc : c < 256) (hd : d < 256) where
  pub word-lt : word a b c d < 2 ^ 32
  word-lt = omega (arith, word_sum a b c d hb hc hd)

  pub byte3-word : byte3 (word a b c d) ≡ a
  byte3-word = omega (arith, word_sum a b c d hb hc hd)

  pub byte2-word : byte2 (word a b c d) ≡ b
  byte2-word = omega (arith, and_mask 8 (word a b c d / 2 ^ 16), word_sum a b c d hb hc hd)

  pub byte1-word : byte1 (word a b c d) ≡ c
  byte1-word = omega (arith, and_mask 8 (word a b c d / 2 ^ 8), word_sum a b c d hb hc hd)

  pub byte0-word : byte0 (word a b c d) ≡ d
  byte0-word = omega (arith, and_mask 8 (word a b c d), word_sum a b c d hb hc hd)
