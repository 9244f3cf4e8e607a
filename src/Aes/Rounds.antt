-- ===== src/Aes/Rounds.antt =====
-- One round of decryption against one of encryption.
use porteus_gpu.Aes.Words.{
  word-lt, word_bytes, byte0-lt, byte1-lt, byte2-lt, byte3-lt, byte1-word, byte3-word, byte0-word,
  byte2-word,
}
use porteus_gpu.Aes.Linear.{inv_mix-te_mix, inv_mix-xor, te_mix-lt, sub_word}
use porteus_gpu.Base.{
  if-both, sym, subst, xor_cancel, ◌∙◌, zero, ap, ◌*◌, xor-lt, ◌⊕◌, ◌+◌, refl, ◌≡◌, ◌^◌, arith, ◌<◌,
}
use porteus_gpu.Aes.{
  ltb, encrypt_block, te_last_round, add_key, suc, td_round, te_mix, te_rounds, te_round, td_mix,
  td_last, te_last, ℕ, byte3, byte2, byte1, byte0, Block,
}
use porteus_gpu.Aes.Bytes.{
  te4_field0, inv_sbox-sbox, te4_field1, td4_field0, te4_field2, td4_field1, td4_field2, td4_field3,
  te4_field3, inv_mix, sbox, inv_sbox,
}

-- Four words of 32 bits.
pub record IsBlock (s : Block) : Type 0 where
  pub lt0 : s.w0 < 2 ^ 32
  pub lt1 : s.w1 < 2 ^ 32
  pub lt2 : s.w2 < 2 ^ 32
  pub lt3 : s.w3 < 2 ^ 32

-- SubBytes and ShiftRows.
abbrev pub sub_block : Block → Block
sub_block s = record {
  w0 = sub_word s.w0 s.w1 s.w2 s.w3;
  w1 = sub_word s.w1 s.w2 s.w3 s.w0;
  w2 = sub_word s.w2 s.w3 s.w0 s.w1;
  w3 = sub_word s.w3 s.w0 s.w1 s.w2;
}

sbox-lt : (x : ℕ) → sbox x < 256
unfolding sbox
sbox-lt x = omega arith

inv_sbox-lt : (x : ℕ) → inv_sbox x < 256
unfolding inv_sbox
inv_sbox-lt x = omega arith

-- The last round of encryption is SubBytes, ShiftRows and the key.
pub te_last_lem : (a b c d : ℕ) → a < 2 ^ 32 → te_last a b c d ≡ sub_word a b c d
unfolding te_last
te_last_lem a b c d h =
    rw
      (
        te_last,
        te4_field3 (byte3 a) (byte3-lt a h),
        te4_field2 (byte2 b) (byte2-lt b),
        te4_field1 (byte1 c) (byte1-lt c),
        te4_field0 (byte0 d) (byte0-lt d),
      )
      refl

module _ (a b c d : ℕ) where
  byte3-sub_word : byte3 (sub_word a b c d) ≡ sbox (byte3 a)
  byte3-sub_word =
      byte3-word (sbox (byte3 a)) (sbox (byte2 b)) (sbox (byte1 c)) (sbox (byte0 d)) (sbox-lt _)
        (sbox-lt _) (sbox-lt _) (sbox-lt _)

  byte2-sub_word : byte2 (sub_word a b c d) ≡ sbox (byte2 b)
  byte2-sub_word =
      byte2-word (sbox (byte3 a)) (sbox (byte2 b)) (sbox (byte1 c)) (sbox (byte0 d)) (sbox-lt _)
        (sbox-lt _) (sbox-lt _) (sbox-lt _)

  byte1-sub_word : byte1 (sub_word a b c d) ≡ sbox (byte1 c)
  byte1-sub_word =
      byte1-word (sbox (byte3 a)) (sbox (byte2 b)) (sbox (byte1 c)) (sbox (byte0 d)) (sbox-lt _)
        (sbox-lt _) (sbox-lt _) (sbox-lt _)

  byte0-sub_word : byte0 (sub_word a b c d) ≡ sbox (byte0 d)
  byte0-sub_word =
      byte0-word (sbox (byte3 a)) (sbox (byte2 b)) (sbox (byte1 c)) (sbox (byte0 d)) (sbox-lt _)
        (sbox-lt _) (sbox-lt _) (sbox-lt _)

-- The four words that hold the bytes of w after ShiftRows, in the order in which decryption reads them.
module _ (w a₁ a₂ a₃ b₀ b₂ b₃ c₀ c₁ c₃ d₀ d₁ d₂ : ℕ) where
  td_mix-sub :
      td_mix (sub_word w a₁ a₂ a₃) (sub_word b₀ w b₂ b₃) (sub_word c₀ c₁ w c₃) (sub_word d₀ d₁ d₂ w)
      ≡ inv_mix w
  unfolding td_mix inv_mix
  td_mix-sub =
      rw
        (
          td_mix,
          byte3-sub_word w a₁ a₂ a₃,
          byte2-sub_word b₀ w b₂ b₃,
          byte1-sub_word c₀ c₁ w c₃,
          byte0-sub_word d₀ d₁ d₂ w,
        )
        refl

  pub td_last-sub :
      w < 2 ^ 32
      → td_last
          (sub_word w a₁ a₂ a₃)
          (sub_word b₀ w b₂ b₃)
          (sub_word c₀ c₁ w c₃)
          (sub_word d₀ d₁ d₂ w)
        ≡ w
  unfolding td_last
  td_last-sub h =
      rw
        (
          td_last,
          byte3-sub_word w a₁ a₂ a₃,
          byte2-sub_word b₀ w b₂ b₃,
          byte1-sub_word c₀ c₁ w c₃,
          byte0-sub_word d₀ d₁ d₂ w,
          td4_field3 (sbox (byte3 w)) (sbox-lt _),
          td4_field2 (sbox (byte2 w)) (sbox-lt _),
          td4_field1 (sbox (byte1 w)) (sbox-lt _),
          td4_field0 (sbox (byte0 w)) (sbox-lt _),
          inv_sbox-sbox (byte3 w) (byte3-lt w h),
          inv_sbox-sbox (byte2 w) (byte2-lt w),
          inv_sbox-sbox (byte1 w) (byte1-lt w),
          inv_sbox-sbox (byte0 w) (byte0-lt w),
        )
        (word_bytes w h)

pub Block_eq : (s t : Block) → s.w0 ≡ t.w0 → s.w1 ≡ t.w1 → s.w2 ≡ t.w2 → s.w3 ≡ t.w3 → s ≡ t
Block_eq s t p q r u = λ i. record { w0 = p i; w1 = q i; w2 = r i; w3 = u i }

back_word :
    (a b c d k k' : ℕ)
    → a < 2 ^ 32
    → k < 2 ^ 32
    → k' ≡ inv_mix k
    → inv_mix (te_mix a b c d ⊕ k) ⊕ k' ≡ sub_word a b c d
back_word a b c d k k' h l e =
    ap (λ t. t ⊕ k') (inv_mix-xor (te_mix a b c d) k (te_mix-lt a b c d h) l)
    ∙ ap (λ t. inv_mix (te_mix a b c d) ⊕ inv_mix k ⊕ t) e
    ∙ xor_cancel (inv_mix (te_mix a b c d)) (inv_mix k)
    ∙ inv_mix-te_mix a b c d h

-- Four words of the key for decryption, and the words for encryption that they undo.
abbrev pub Undoes : (ℕ → ℕ) → (ℕ → ℕ) → ℕ → ℕ → Type 0
Undoes rk dk n n' =
    (dk n' ≡ inv_mix (rk n))
    × (dk (n' + 1) ≡ inv_mix (rk (n + 1)))
    × (dk (n' + 2) ≡ inv_mix (rk (n + 2)))
    × (dk (n' + 3) ≡ inv_mix (rk (n + 3)))

module _ (rk dk : ℕ → ℕ) (words : (n : ℕ) → rk n < 2 ^ 32) where
  te_round-IsBlock : (n : ℕ) (s : Block) → IsBlock s → IsBlock (te_round rk n s)
  unfolding te_round
  te_round-IsBlock n s v = record {
    lt0 = xor-lt 32 _ _ (te_mix-lt s.w0 s.w1 s.w2 s.w3 v.lt0) (words n);
    lt1 = xor-lt 32 _ _ (te_mix-lt s.w1 s.w2 s.w3 s.w0 v.lt1) (words (n + 1));
    lt2 = xor-lt 32 _ _ (te_mix-lt s.w2 s.w3 s.w0 s.w1 v.lt2) (words (n + 2));
    lt3 = xor-lt 32 _ _ (te_mix-lt s.w3 s.w0 s.w1 s.w2 v.lt3) (words (n + 3));
  }

  pub te_rounds-IsBlock : (n : ℕ) (s : Block) → IsBlock s → IsBlock (te_rounds n rk s)
  unfolding te_rounds
  te_rounds-IsBlock zero s v = v
  te_rounds-IsBlock (suc n) s v =
      te_round-IsBlock (4 * (n + 1)) (te_rounds n rk s) (te_rounds-IsBlock n s v)

  pub td_round-te_round :
      (n n' : ℕ) (s : Block)
      → IsBlock s
      → Undoes rk dk n n'
      → td_round dk n' (sub_block (te_round rk n s)) ≡ sub_block s
  unfolding td_round te_round
  td_round-te_round n n' s v key =
      Block_eq _ _
        (ap (λ t. t ⊕ dk n') (td_mix-sub _ _ _ _ _ _ _ _ _ _ _ _ _)
          ∙ back_word s.w0 s.w1 s.w2 s.w3 (rk n) (dk n') v.lt0 (words n) key.0)
        (ap (λ t. t ⊕ dk (n' + 1)) (td_mix-sub _ _ _ _ _ _ _ _ _ _ _ _ _)
          ∙ back_word s.w1 s.w2 s.w3 s.w0 (rk (n + 1)) (dk (n' + 1)) v.lt1 (words (n + 1)) key.1)
        (ap (λ t. t ⊕ dk (n' + 2)) (td_mix-sub _ _ _ _ _ _ _ _ _ _ _ _ _)
          ∙ back_word s.w2 s.w3 s.w0 s.w1 (rk (n + 2)) (dk (n' + 2)) v.lt2 (words (n + 2)) key.2)
        (ap (λ t. t ⊕ dk (n' + 3)) (td_mix-sub _ _ _ _ _ _ _ _ _ _ _ _ _)
          ∙ back_word s.w3 s.w0 s.w1 s.w2 (rk (n + 3)) (dk (n' + 3)) v.lt3 (words (n + 3)) key.3)

  te_last-lt : (a b c d : ℕ) → a < 2 ^ 32 → te_last a b c d < 2 ^ 32
  te_last-lt a b c d h =
      subst (λ w. w < 2 ^ 32) (sym (te_last_lem a b c d h))
        (word-lt (sbox (byte3 a)) (sbox (byte2 b)) (sbox (byte1 c)) (sbox (byte0 d)) (sbox-lt _)
          (sbox-lt _) (sbox-lt _) (sbox-lt _))

  te_last_round-IsBlock : (n : ℕ) (t : Block) → IsBlock t → IsBlock (te_last_round rk n t)
  unfolding te_last_round
  te_last_round-IsBlock n t v = record {
    lt0 = xor-lt 32 _ _ (te_last-lt t.w0 t.w1 t.w2 t.w3 v.lt0) (words n);
    lt1 = xor-lt 32 _ _ (te_last-lt t.w1 t.w2 t.w3 t.w0 v.lt1) (words (n + 1));
    lt2 = xor-lt 32 _ _ (te_last-lt t.w2 t.w3 t.w0 t.w1 v.lt2) (words (n + 2));
    lt3 = xor-lt 32 _ _ (te_last-lt t.w3 t.w0 t.w1 t.w2 v.lt3) (words (n + 3));
  }

  pub add_key-IsBlock : (s : Block) → IsBlock s → IsBlock (add_key rk 0 s)
  unfolding add_key
  add_key-IsBlock s v = record {
    lt0 = xor-lt 32 _ _ v.lt0 (words 0);
    lt1 = xor-lt 32 _ _ v.lt1 (words 1);
    lt2 = xor-lt 32 _ _ v.lt2 (words 2);
    lt3 = xor-lt 32 _ _ v.lt3 (words 3);
  }

  -- Encryption gives words of 32 bits, for any number of rounds.
  pub encrypt_block-IsBlock :
      (nrounds : ℕ) (s : Block) → IsBlock s → IsBlock (encrypt_block rk nrounds s)
  unfolding encrypt_block te_rounds
  encrypt_block-IsBlock nrounds s v =
      let p = add_key-IsBlock s v in
      let rounds = λ (n : ℕ). te_rounds-IsBlock n (add_key rk 0 s) p in
      te_last_round-IsBlock (nrounds * 4) _ (
        if-both IsBlock (ltb 10 nrounds)
          (λ _. if-both IsBlock (ltb 12 nrounds) (λ _. rounds 13) (λ _. rounds 11)) (λ _. rounds 9))
