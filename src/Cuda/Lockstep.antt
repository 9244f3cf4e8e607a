-- ===== src/Cuda/Lockstep.antt =====
-- The kernels with four threads to a block against those with one.
use porteus_gpu.Aes.Rounds.{Block_eq}
use porteus_gpu.Aes.RoundTrip.{fourteen, twelve, ten, AesRounds}
use porteus_gpu.Cuda.{getu32}
use porteus_gpu.Base.{
  ltb-true, sym, ◌/◌, ◌==◌, ltb, ◌%◌, ltb-false, if◌then◌else◌, ◌<◌, zero, ◌∙◌, refl, ap, ◌*◌,
  arith, suc, ◌≡◌, ◌+◌, Mem, ℕ, ◌⊕◌,
}
use porteus_gpu.Aes.{
  td_last, decrypt_block, td_rounds, td_last_round, td_mix, td_round, te_last, te_mix, te_rounds,
  encrypt_block, add_key, te_last_round, te_round, Block,
}
use porteus_gpu.Cuda.Rows.{
  td_step, td_steps, td_last_step, aes_decrypt_bp4t, row_at, row, te_steps, aes_encrypt_bp4t,
  te_last_step, load_rows, te_step, Shared,
}

-- The words of a row in the text.
abbrev pub text_row : Mem → ℕ → Block
text_row m p = record {
  w0 = getu32 m p;
  w1 = getu32 m (p + 4);
  w2 = getu32 m (p + 8);
  w3 = getu32 m (p + 12);
}

plus_zero : (n : ℕ) → n + 0 ≡ n
plus_zero n = omega arith

row-load_rows :
    (rk : ℕ → ℕ) (text bid y : ℕ) (m : Mem)
    → row (load_rows rk text bid m) y ≡ add_key rk 0 (text_row m (row_at text bid y))
unfolding load_rows add_key
row-load_rows rk text bid y m =
    Block_eq _ _ (ap (λ p. getu32 m p ⊕ rk 0) (plus_zero (row_at text bid y))) refl refl refl

row-te_step :
    (rk : ℕ → ℕ) (n : ℕ) (s : Shared) (y : ℕ) → row (te_step rk n s) y ≡ te_round rk n (row s y)
unfolding te_step te_round te_mix
row-te_step rk n s y =
    Block_eq _ _ (ap (λ i. te_mix (s y 0) (s y 1) (s y 2) (s y 3) ⊕ rk i) (plus_zero n)) refl refl
      refl

row-te_last_step :
    (rk : ℕ → ℕ) (n : ℕ) (s : Shared) (y : ℕ)
    → row (te_last_step rk n s) y ≡ te_last_round rk n (row s y)
unfolding te_last_step te_last_round te_last
row-te_last_step rk n s y =
    Block_eq _ _ (ap (λ i. te_last (s y 0) (s y 1) (s y 2) (s y 3) ⊕ rk i) (plus_zero n)) refl refl
      refl

row-te_steps :
    (n : ℕ) (rk : ℕ → ℕ) (s : Shared) (y : ℕ) → row (te_steps n rk s) y ≡ te_rounds n rk (row s y)
unfolding te_steps te_rounds
row-te_steps zero rk s y = refl
row-te_steps (suc n) rk s y =
    row-te_step rk (4 * (n + 1)) (te_steps n rk s) y
    ∙ ap (te_round rk (4 * (n + 1))) (row-te_steps n rk s y)

whole_encrypt :
    (n : ℕ) (rk : ℕ → ℕ) (k text bid y : ℕ) (m : Mem)
    → row (te_last_step rk k (te_steps n rk (load_rows rk text bid m))) y
      ≡ te_last_round rk k (te_rounds n rk (add_key rk 0 (text_row m (row_at text bid y))))
whole_encrypt n rk k text bid y m =
    row-te_last_step rk k (te_steps n rk (load_rows rk text bid m)) y
    ∙ ap (te_last_round rk k) (
        row-te_steps n rk (load_rows rk text bid m) y
        ∙ ap (te_rounds n rk) (row-load_rows rk text bid y m))

-- With four threads to a block in lockstep, each row of the encryption kernel's result is the
-- encryption of the row's words in the text, for 10, 12 and 14 rounds.
pub aes_encrypt_bp4t_lem :
    (rk : ℕ → ℕ) (nrounds text bid y : ℕ) (m : Mem)
    → AesRounds nrounds
    → row (aes_encrypt_bp4t rk nrounds text bid m) y
      ≡ encrypt_block rk nrounds (text_row m (row_at text bid y))
unfolding aes_encrypt_bp4t encrypt_block te_steps te_rounds
aes_encrypt_bp4t_lem rk nrounds text bid y m ten = whole_encrypt 9 rk 40 text bid y m
aes_encrypt_bp4t_lem rk nrounds text bid y m twelve = whole_encrypt 11 rk 48 text bid y m
aes_encrypt_bp4t_lem rk nrounds text bid y m fourteen = whole_encrypt 13 rk 56 text bid y m

-- The key that `aes_decrypt_bp4t` uses: after the first four words it takes the same eight over and
-- over, and at the end one word four times.
abbrev pub repeated_key : (ℕ → ℕ) → ℕ → ℕ → ℕ
repeated_key rk nrounds n =
    if ltb n 4
    then rk n
    else if ltb n (nrounds * 4)
    then rk ((if n / 4 % 2 == 1 then 4 else 8) + n % 4)
    else rk (nrounds * 4)

row-td_step :
    (rk : ℕ → ℕ) (n : ℕ) (s : Shared) (y : ℕ) → row (td_step rk n s) y ≡ td_round rk n (row s y)
unfolding td_step td_round td_mix
row-td_step rk n s y =
    Block_eq _ _ (ap (λ i. td_mix (s y 0) (s y 3) (s y 2) (s y 1) ⊕ rk i) (plus_zero n)) refl refl
      refl

pick_key :
    (n c : ℕ)
    → c < 4
    → (if n % 2 == 0 then 4 else 8) + c
      ≡ (if (4 * (n + 1) + c) / 4 % 2 == 1 then 4 else 8) + (4 * (n + 1) + c) % 4
pick_key n c h = ground arith

module _ (rk : ℕ → ℕ) (nrounds : ℕ) where
  round_key :
      (n c : ℕ)
      → n + 1 < nrounds
      → c < 4
      → rk ((if n % 2 == 0 then 4 else 8) + c) ≡ repeated_key rk nrounds (4 * (n + 1) + c)
  round_key n c h l =
      rw
        (
          ltb-false (4 * (n + 1) + c) 4 (omega arith),
          ltb-true (4 * (n + 1) + c) (nrounds * 4) (omega arith),
        )
        (ap rk (pick_key n c l))

  td_round_repeated :
      (n : ℕ) (s : Block)
      → n + 1 < nrounds
      → td_round rk (if n % 2 == 0 then 4 else 8) s
        ≡ td_round (repeated_key rk nrounds) (4 * (n + 1)) s
  unfolding td_round
  td_round_repeated n s h =
      Block_eq _ _
        (ap (λ t. td_mix s.w0 s.w3 s.w2 s.w1 ⊕ t)
          (ap rk (sym (plus_zero _))
            ∙ round_key n 0 h (omega arith)
            ∙ ap (repeated_key rk nrounds) (plus_zero (4 * (n + 1)))))
        (ap (λ t. td_mix s.w1 s.w0 s.w3 s.w2 ⊕ t) (round_key n 1 h (omega arith)))
        (ap (λ t. td_mix s.w2 s.w1 s.w0 s.w3 ⊕ t) (round_key n 2 h (omega arith)))
        (ap (λ t. td_mix s.w3 s.w2 s.w1 s.w0 ⊕ t) (round_key n 3 h (omega arith)))

  row-td_steps :
      (n : ℕ) (s : Shared) (y : ℕ)
      → n < nrounds
      → row (td_steps n rk s) y ≡ td_rounds n (repeated_key rk nrounds) (row s y)
  unfolding td_steps td_rounds
  row-td_steps zero s y h = refl
  row-td_steps (suc n) s y h =
      row-td_step rk (if n % 2 == 0 then 4 else 8) (td_steps n rk s) y
      ∙ ap (td_round rk (if n % 2 == 0 then 4 else 8)) (row-td_steps n s y (omega arith))
      ∙ td_round_repeated n _ (omega arith)

  last_key : (c : ℕ) → 0 < nrounds → rk (nrounds * 4) ≡ repeated_key rk nrounds (nrounds * 4 + c)
  last_key c h =
      rw
        (
          ltb-false (nrounds * 4 + c) 4 (omega arith),
          ltb-false (nrounds * 4 + c) (nrounds * 4) (omega arith),
        )
        refl

  row-td_last_step :
      (s : Shared) (y : ℕ)
      → 0 < nrounds
      → row (td_last_step rk (nrounds * 4) s) y
        ≡ td_last_round (repeated_key rk nrounds) (nrounds * 4) (row s y)
  unfolding td_last_step td_last_round td_last
  row-td_last_step s y h =
      Block_eq _ _
        (ap (λ t. td_last (s y 0) (s y 3) (s y 2) (s y 1) ⊕ t)
          (last_key 0 h ∙ ap (repeated_key rk nrounds) (plus_zero (nrounds * 4))))
        (ap (λ t. td_last (s y 1) (s y 0) (s y 3) (s y 2) ⊕ t) (last_key 1 h))
        (ap (λ t. td_last (s y 2) (s y 1) (s y 0) (s y 3) ⊕ t) (last_key 2 h))
        (ap (λ t. td_last (s y 3) (s y 2) (s y 1) (s y 0) ⊕ t) (last_key 3 h))

  row-load_repeated :
      (text bid y : ℕ) (m : Mem)
      → row (load_rows rk text bid m) y
        ≡ add_key (repeated_key rk nrounds) 0 (text_row m (row_at text bid y))
  unfolding load_rows add_key
  row-load_repeated text bid y m =
      Block_eq _ _ (ap (λ p. getu32 m p ⊕ rk 0) (plus_zero (row_at text bid y))) refl refl refl

  whole_decrypt :
      (n text bid y : ℕ) (m : Mem)
      → n < nrounds
      → row (td_last_step rk (nrounds * 4) (td_steps n rk (load_rows rk text bid m))) y
        ≡ td_last_round (repeated_key rk nrounds) (nrounds * 4) (
            td_rounds n
              (repeated_key rk nrounds)
              (add_key (repeated_key rk nrounds) 0 (text_row m (row_at text bid y))))
  whole_decrypt n text bid y m h =
      row-td_last_step (td_steps n rk (load_rows rk text bid m)) y (omega arith)
      ∙ ap (td_last_round (repeated_key rk nrounds) (nrounds * 4)) (
          row-td_steps n (load_rows rk text bid m) y h
          ∙ ap (td_rounds n (repeated_key rk nrounds)) (row-load_repeated text bid y m))

-- With four threads to a block, each row of the decryption kernel's result is the decryption of
-- the row's words under another key: the words 4 to 7 in all odd rounds, 8 to 11 in all even
-- ones, and at the end one word for all four, for 10, 12 and 14 rounds.
pub aes_decrypt_bp4t_lem :
    (rk : ℕ → ℕ) (nrounds text bid y : ℕ) (m : Mem)
    → AesRounds nrounds
    → row (aes_decrypt_bp4t rk nrounds text bid m) y
      ≡ decrypt_block (repeated_key rk nrounds) nrounds (text_row m (row_at text bid y))
unfolding aes_decrypt_bp4t decrypt_block td_steps td_rounds
aes_decrypt_bp4t_lem rk nrounds text bid y m ten = whole_decrypt rk 10 9 text bid y m (omega arith)
aes_decrypt_bp4t_lem rk nrounds text bid y m twelve =
    whole_decrypt rk 12 11 text bid y m (omega arith)
aes_decrypt_bp4t_lem rk nrounds text bid y m fourteen =
    whole_decrypt rk 14 13 text bid y m (omega arith)
