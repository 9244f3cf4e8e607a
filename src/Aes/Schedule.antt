-- ===== src/Aes/Schedule.antt =====
-- Keys for decryption exist: the equivalent inverse cipher's, computed from any key for encryption.
use porteus_gpu.Aes.RoundTrip.{IsInverse}
use porteus_gpu.Base.{
  refl, sym, ◌%◌, ◌∙◌, ◌/◌, arith, ap, ltb-false, ◌-◌, ltb-true, ltb, ◌*◌, ◌≡◌, ◌^◌, ◌+◌, ◌<◌,
  if◌then◌else◌, ℕ,
}
use porteus_gpu.Aes.Bytes.{inv_mix}

abbrev pub inverse_key : (ℕ → ℕ) → ℕ → ℕ → ℕ
inverse_key rk nrounds n =
    if ltb n 4
    then rk (nrounds * 4 + n)
    else if ltb n (nrounds * 4)
    then inv_mix (rk (4 * (nrounds - n / 4) + n % 4))
    else rk (n - nrounds * 4)

module _ (rk : ℕ → ℕ) (nrounds : ℕ) where
  inverse_key_middle :
      (i c : ℕ)
      → 0 < i
      → i < nrounds
      → c < 4
      → inverse_key rk nrounds (4 * i + c) ≡ inv_mix (rk (4 * (nrounds - i) + c))
  inverse_key_middle i c p q h =
      rw (ltb-false (4 * i + c) 4 (omega arith), ltb-true (4 * i + c) (nrounds * 4) (omega arith))
        (ap (λ t. inv_mix (rk t)) (omega arith))

  inverse_key_first : (c : ℕ) → c < 4 → inverse_key rk nrounds c ≡ rk (nrounds * 4 + c)
  inverse_key_first c h = rw (ltb-true c 4 h) refl

  inverse_key_last : (c : ℕ) → 0 < nrounds → inverse_key rk nrounds (nrounds * 4 + c) ≡ rk c
  inverse_key_last c h =
      rw
        (
          ltb-false (nrounds * 4 + c) 4 (omega arith),
          ltb-false (nrounds * 4 + c) (nrounds * 4) (omega arith),
        )
        (ap rk (omega arith))

  plus_zero : (f : ℕ → ℕ) (n : ℕ) → f (n + 0) ≡ f n
  plus_zero f n = ap f (omega arith)

  pub inverse_key-IsInverse :
      ((n : ℕ) → rk n < 2 ^ 32) → 0 < nrounds → IsInverse rk (inverse_key rk nrounds) nrounds
  inverse_key-IsInverse words h = record {
    words = words;
    begins = (
      inverse_key_first 0 (omega arith) ∙ plus_zero rk (nrounds * 4),
      inverse_key_first 1 (omega arith),
      inverse_key_first 2 (omega arith),
      inverse_key_first 3 (omega arith),
    );
    middle = λ i p q. (
      sym (plus_zero (inverse_key rk nrounds) (4 * i))
          ∙ inverse_key_middle i 0 p q (omega arith)
          ∙ plus_zero (λ n. inv_mix (rk n)) (4 * (nrounds - i)),
      inverse_key_middle i 1 p q (omega arith),
      inverse_key_middle i 2 p q (omega arith),
      inverse_key_middle i 3 p q (omega arith),
    );
    ends = (
      sym (plus_zero (inverse_key rk nrounds) (nrounds * 4)) ∙ inverse_key_last 0 h,
      inverse_key_last 1 h,
      inverse_key_last 2 h,
      inverse_key_last 3 h,
    );
  }
