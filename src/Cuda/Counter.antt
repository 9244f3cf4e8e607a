-- ===== src/Cuda/Counter.antt =====
-- Counter mode: the counter that a thread encrypts, and that the mode undoes itself.
use porteus_gpu.Aes.Rounds.{Block_eq}
use porteus_gpu.Cuda.Threads.{load-IsBlock, store_back, load-store-Disjoint, load, store, Disjoint}
use porteus_gpu.Cuda.Modes.{swap-swap, swap_block-IsBlock, xor_block-IsBlock, xor_block, swap_block}
use porteus_gpu.Cuda.{thread_ctr_offset, block_at, swap, getu32, aes_ctr_crypt, big_u128_add}
use porteus_gpu.Base.{
  refl, arith, xor_cancel, ◌∙◌, ap, ◌%◌, ◌/◌, ◌+◌, ◌^◌, add64, ◌*◌, IsBytes, ◌≡◌, ℕ, Mem,
}
use porteus_gpu.Aes.{encrypt_block, Block}

-- The 64 bits at p with the highest byte first.
abbrev pub big_endian64 : Mem → ℕ → ℕ
big_endian64 m p = getu32 m p * 2 ^ 32 + getu32 m (p + 4)

-- What the four words of a block say with the highest byte first.
abbrev pub value64 : ℕ → ℕ → ℕ
value64 a b = swap a * 2 ^ 32 + swap b

-- The counter of a thread has 0 in its upper 64 bits, and in its lower 64 bits the lower 64 bits
-- of the given counter plus the thread's offset, modulo 2 ^ 64, highest byte first.
pub big_u128_add_lem :
    (m : Mem) (ctr offset : ℕ)
    → let r = big_u128_add m ctr offset in
      (value64 r.w0 r.w1 ≡ 0) × (value64 r.w2 r.w3 ≡ add64 (big_endian64 m (ctr + 8)) offset)
unfolding big_u128_add
big_u128_add_lem m ctr offset =
    let c = add64 (getu32 m (ctr + 12) + getu32 m (ctr + 8) * 2 ^ 32) offset in
    (
      refl,
      ap (λ t. t * 2 ^ 32 + swap (swap (c % 2 ^ 32))) (swap-swap (c / 2 ^ 32) (omega arith))
          ∙ ap (λ t. c / 2 ^ 32 * 2 ^ 32 + t) (swap-swap (c % 2 ^ 32) (omega arith))
          ∙ whole c
          ∙ ap (λ t. add64 t offset) (words (getu32 m) ctr),
    )
  where
    whole : (c : ℕ) → c / 2 ^ 32 * 2 ^ 32 + c % 2 ^ 32 ≡ c
    whole c = omega arith

    aligned : (p : ℕ) → p + 8 + 4 ≡ p + 12
    aligned p = omega arith

    words :
        (f : ℕ → ℕ) (p : ℕ) → f (p + 12) + f (p + 8) * 2 ^ 32 ≡ f (p + 8) * 2 ^ 32 + f (p + 8 + 4)
    words f p = omega (arith, ap f (aligned p))

-- The words that a thread's block is combined with.
abbrev keystream : (ℕ → ℕ) → ℕ → Mem → ℕ → ℕ → Block
keystream rk nrounds m ctr thread =
    swap_block
      (encrypt_block rk nrounds (swap_block (big_u128_add m ctr (thread_ctr_offset thread))))

keystream_kept :
    (rk : ℕ → ℕ) (nrounds ctr thread p : ℕ) (b : Block) (m : Mem)
    → Disjoint p ctr
    → keystream rk nrounds (store p b m) ctr thread ≡ keystream rk nrounds m ctr thread
unfolding big_u128_add
keystream_kept rk nrounds ctr thread p b m d =
    ap (λ t. swap_block (encrypt_block rk nrounds (swap_block (counter t))))
      (load-store-Disjoint p ctr b m d)
  where
    counter : Block → Block
    counter t =
        let c = add64 (swap t.w3 + swap t.w2 * 2 ^ 32) (thread_ctr_offset thread) in
        record { w0 = 0; w1 = 0; w2 = swap (c / 2 ^ 32); w3 = swap (c % 2 ^ 32) }

-- Counter mode undoes itself in each thread, with any key and number of rounds, if the thread's
-- block and the counter have no byte in common.
pub aes_ctr_crypt-aes_ctr_crypt :
    (rk : ℕ → ℕ) (nrounds text ctr thread : ℕ) (m : Mem)
    → IsBytes m
    → Disjoint (block_at text thread) ctr
    → aes_ctr_crypt rk nrounds text ctr thread (aes_ctr_crypt rk nrounds text ctr thread m) ≡ m
unfolding aes_ctr_crypt
aes_ctr_crypt-aes_ctr_crypt rk nrounds text ctr thread m h apart =
    let p = block_at text thread in
    let k = keystream rk nrounds m ctr thread in
    let c = xor_block (load p m) k in
    ap (λ t. store p (xor_block (load p (store p c m)) t) (store p c m))
      (keystream_kept rk nrounds ctr thread p c m apart)
    ∙ store_back p m c (λ b. xor_block b k) h
        (xor_block-IsBlock _ _ (load-IsBlock p m h) (swap_block-IsBlock _))
        (Block_eq _ _ (xor_cancel _ k.w0) (xor_cancel _ k.w1) (xor_cancel _ k.w2)
          (xor_cancel _ k.w3))
