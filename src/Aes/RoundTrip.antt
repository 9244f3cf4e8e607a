-- ===== src/Aes/RoundTrip.antt =====
-- Decryption undoes encryption.
use porteus_gpu.Aes.Linear.{sub_word}
use porteus_gpu.Aes.Rounds.{
  add_key-IsBlock, td_last-sub, te_last_lem, td_round-te_round, te_rounds-IsBlock, Block_eq, Undoes,
  sub_block, IsBlock,
}
use porteus_gpu.Base.{
  xor_cancel, refl, ◌∙◌, arith, subst, ap, zero, ◌-◌, ◌*◌, ◌+◌, ◌^◌, ◌<◌, ◌≡◌, ◌⊕◌,
}
use porteus_gpu.Aes.{
  td_round, encrypt_block, te_last_round, td_last_round, decrypt_block, te_last, add_key, suc,
  te_rounds, td_rounds, ℕ, Block,
}

-- The same four words in both keys.
abbrev pub Repeats : (ℕ → ℕ) → (ℕ → ℕ) → ℕ → ℕ → Type 0
Repeats rk dk n n' =
    (dk n' ≡ rk n)
    × (dk (n' + 1) ≡ rk (n + 1))
    × (dk (n' + 2) ≡ rk (n + 2))
    × (dk (n' + 3) ≡ rk (n + 3))

-- The round keys for decryption, from those for encryption, by the equivalent inverse cipher of
-- FIPS 197: in the other order, and InvMixColumns of all but the first and the last.
pub record IsInverse (rk dk : ℕ → ℕ) (nrounds : ℕ) : Type 0 where
  pub words : (n : ℕ) → rk n < 2 ^ 32
  pub begins : Repeats rk dk (nrounds * 4) 0
  pub middle : (i : ℕ) → 0 < i → i < nrounds → Undoes rk dk (4 * (nrounds - i)) (4 * i)
  pub ends : Repeats rk dk 0 (nrounds * 4)

module _ (rk dk : ℕ → ℕ) (nrounds : ℕ) (key : IsInverse rk dk nrounds) where
  middle_key : (j m : ℕ) → nrounds ≡ j + m + 2 → Undoes rk dk (4 * (m + 1)) (4 * (j + 1))
  middle_key j m e =
      subst (λ i. Undoes rk dk (4 * i) (4 * (j + 1))) (omega arith)
        (key.middle (j + 1) (omega arith) (omega arith))

  -- As many rounds back as forward.
  td_rounds-te_rounds :
      (j m t : ℕ) (s : Block)
      → IsBlock s
      → t ≡ j + m
      → nrounds ≡ t + 1
      → td_rounds j dk (sub_block (te_rounds t rk s)) ≡ sub_block (te_rounds m rk s)
  unfolding td_rounds te_rounds
  td_rounds-te_rounds zero m t s v e n = ap (λ i. sub_block (te_rounds i rk s)) (e ∙ omega arith)
  td_rounds-te_rounds (suc j) m t s v e n =
      ap (td_round dk (4 * (j + 1))) (td_rounds-te_rounds j (suc m) t s v (omega arith) n)
      ∙ td_round-te_round rk dk key.words (4 * (m + 1)) (4 * (j + 1)) (te_rounds m rk s)
          (te_rounds-IsBlock rk dk key.words m s v) (middle_key j m (omega arith))

  first_word :
      (a b c d k k' : ℕ) → a < 2 ^ 32 → k' ≡ k → te_last a b c d ⊕ k ⊕ k' ≡ sub_word a b c d
  first_word a b c d k k' h e =
      ap (λ t. te_last a b c d ⊕ k ⊕ t) e ∙ xor_cancel (te_last a b c d) k ∙ te_last_lem a b c d h

  -- The first key of decryption takes the last of encryption off.
  add_key-te_last_round :
      (t : Block) → IsBlock t → add_key dk 0 (te_last_round rk (nrounds * 4) t) ≡ sub_block t
  unfolding add_key te_last_round
  add_key-te_last_round t v =
      Block_eq _ _ (first_word t.w0 t.w1 t.w2 t.w3 _ _ v.lt0 key.begins.0)
        (first_word t.w1 t.w2 t.w3 t.w0 _ _ v.lt1 key.begins.1)
        (first_word t.w2 t.w3 t.w0 t.w1 _ _ v.lt2 key.begins.2)
        (first_word t.w3 t.w0 t.w1 t.w2 _ _ v.lt3 key.begins.3)

  -- And the last round of decryption the first key of encryption.
  td_last_round-sub_block :
      (s : Block)
      → IsBlock s
      → IsBlock (add_key rk 0 s)
      → td_last_round dk (nrounds * 4) (sub_block (add_key rk 0 s)) ≡ s
  unfolding add_key td_last_round
  td_last_round-sub_block s v u =
      Block_eq _ _ (last_word s.w0 _ _ key.ends.0 (td_last-sub _ _ _ _ _ _ _ _ _ _ _ _ _ u.lt0))
        (last_word s.w1 _ _ key.ends.1 (td_last-sub _ _ _ _ _ _ _ _ _ _ _ _ _ u.lt1))
        (last_word s.w2 _ _ key.ends.2 (td_last-sub _ _ _ _ _ _ _ _ _ _ _ _ _ u.lt2))
        (last_word s.w3 _ _ key.ends.3 (td_last-sub _ _ _ _ _ _ _ _ _ _ _ _ _ u.lt3))
    where
      last_word : (w k k' : ℕ) {x : ℕ} → k' ≡ k → x ≡ w ⊕ k → x ⊕ k' ≡ w
      last_word w k k' {x} e h = ap (λ t. t ⊕ k') h ∙ ap (λ t. w ⊕ k ⊕ t) e ∙ xor_cancel w k

  -- For any number of rounds.
  back_and_forth :
      (n : ℕ) (s : Block)
      → IsBlock s
      → nrounds ≡ n + 1
      → td_last_round dk (nrounds * 4) (
          td_rounds n dk
            (add_key dk 0 (te_last_round rk (nrounds * 4) (te_rounds n rk (add_key rk 0 s)))))
        ≡ s
  unfolding te_rounds
  back_and_forth n s v e =
      let p = add_key-IsBlock rk dk key.words s v in
      ap (λ t. td_last_round dk (nrounds * 4) (td_rounds n dk t))
        (add_key-te_last_round (te_rounds n rk (add_key rk 0 s))
          (te_rounds-IsBlock rk dk key.words n (add_key rk 0 s) p))
      ∙ ap (td_last_round dk (nrounds * 4))
          (td_rounds-te_rounds n 0 n (add_key rk 0 s) p (omega arith) e)
      ∙ td_last_round-sub_block s v p

-- The numbers of rounds of AES-128, AES-192 and AES-256.
pub data AesRounds : ℕ → Type 0 where
  ten : AesRounds 10
  twelve : AesRounds 12
  fourteen : AesRounds 14

-- For 10, 12 and 14 rounds, decryption of a block of four 32-bit words undoes its encryption, if
-- the words of the key are of 32 bits and the key for decryption is that of the equivalent
-- inverse cipher: the words for encryption round by round from the end, with InvMixColumns
-- applied to all rounds but the first and the last.
pub decrypt_block-encrypt_block :
    (rk dk : ℕ → ℕ) (nrounds : ℕ) (s : Block)
    → AesRounds nrounds
    → IsInverse rk dk nrounds
    → IsBlock s
    → decrypt_block dk nrounds (encrypt_block rk nrounds s) ≡ s
unfolding decrypt_block encrypt_block te_rounds td_rounds
decrypt_block-encrypt_block rk dk nrounds s ten key v = back_and_forth rk dk 10 key 9 s v refl
decrypt_block-encrypt_block rk dk nrounds s twelve key v = back_and_forth rk dk 12 key 11 s v refl
decrypt_block-encrypt_block rk dk nrounds s fourteen key v = back_and_forth rk dk 14 key 13 s v refl
