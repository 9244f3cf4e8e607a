-- ===== src/Cuda/Modes.antt =====
-- Block mode and XTS: decryption gives the memory back, thread by thread and for a whole launch.
use porteus_gpu.Cuda.Threads.{
  store_outside, store_comm, load-IsBlock, launch-launch, store-IsBytes, load-store-Disjoint,
  store_back, load, store, Disjoint,
}
use porteus_gpu.Aes.RoundTrip.{decrypt_block-encrypt_block, IsInverse, AesRounds}
use porteus_gpu.Aes.Rounds.{encrypt_block-IsBlock, Block_eq, IsBlock}
use porteus_gpu.Cuda.{
  xts_encrypt, launch, xts_decrypt, block_at, aes_decrypt_bpt, swap, aes_encrypt_bpt,
}
use porteus_gpu.Base.{
  refl, zero, suc, ◌≤◌, ◌⊎◌, zero-xor, xor_self, xor-lt, xor_assoc, sym, ◌*◌, ◌∙◌, ◌+◌, IsBytes,
  arith, ap, ◌^◌, ◌≡◌, ◌≢◌, Mem, ◌<◌, ℕ, ◌⊕◌,
}
use porteus_gpu.Aes.{encrypt_block, decrypt_block, Block}

pub swap-lt : (w : ℕ) → swap w < 2 ^ 32
swap-lt w = omega arith

pub swap-swap : (w : ℕ) → w < 2 ^ 32 → swap (swap w) ≡ w
swap-swap w h = omega arith

abbrev pub swap_block : Block → Block
swap_block b = record { w0 = swap b.w0; w1 = swap b.w1; w2 = swap b.w2; w3 = swap b.w3 }

pub swap_block-IsBlock : (b : Block) → IsBlock (swap_block b)
swap_block-IsBlock b = record {
  lt0 = swap-lt b.w0;
  lt1 = swap-lt b.w1;
  lt2 = swap-lt b.w2;
  lt3 = swap-lt b.w3;
}

pub swap_block-swap_block : (b : Block) → IsBlock b → swap_block (swap_block b) ≡ b
swap_block-swap_block b v =
    Block_eq _ _ (swap-swap b.w0 v.lt0) (swap-swap b.w1 v.lt1) (swap-swap b.w2 v.lt2)
      (swap-swap b.w3 v.lt3)

-- Different threads have different blocks.
pub block_at-Disjoint : (text i j : ℕ) → i ≢ j → Disjoint (block_at text i) (block_at text j)
block_at-Disjoint text i j ne = ground arith

-- A thread that replaces its block by a function of it, and of words that no thread's block holds.
abbrev pub in_place : ℕ → (Block → Block) → Mem → Mem
in_place p g m = store p (g (load p m)) m

in_place_comm :
    (p q : ℕ) (g h : Block → Block) (m : Mem)
    → Disjoint p q
    → in_place p g (in_place q h m) ≡ in_place q h (in_place p g m)
in_place_comm p q g h m d =
    ap (λ t. store p (g t) (store q (h (load q m)) m))
      (load-store-Disjoint q p (h (load q m)) m (omega arith))
    ∙ store_comm p q (g (load p m)) (h (load q m)) m d
    ∙ ap (λ t. store q (h t) (store p (g (load p m)) m))
        (sym (load-store-Disjoint p q (g (load p m)) m d))

-- What block mode does to the four words, as they are stored.
abbrev encrypt_words : (ℕ → ℕ) → ℕ → Block → Block
encrypt_words rk nrounds b = swap_block (encrypt_block rk nrounds (swap_block b))

abbrev decrypt_words : (ℕ → ℕ) → ℕ → Block → Block
decrypt_words dk nrounds b = swap_block (decrypt_block dk nrounds (swap_block b))

-- Four words, exclusive or with four words.
abbrev pub xor_block : Block → Block → Block
xor_block a b = record { w0 = a.w0 ⊕ b.w0; w1 = a.w1 ⊕ b.w1; w2 = a.w2 ⊕ b.w2; w3 = a.w3 ⊕ b.w3 }

pub xor_back : (a b : ℕ) → a ⊕ (a ⊕ b) ≡ b
xor_back a b = sym (xor_assoc a a b) ∙ ap (λ t. t ⊕ b) (xor_self a) ∙ zero-xor b

pub xor_block_back : (a b : Block) → xor_block a (xor_block a b) ≡ b
xor_block_back a b =
    Block_eq _ _ (xor_back a.w0 b.w0) (xor_back a.w1 b.w1) (xor_back a.w2 b.w2) (xor_back a.w3 b.w3)

pub xor_block-IsBlock : (a b : Block) → IsBlock a → IsBlock b → IsBlock (xor_block a b)
xor_block-IsBlock a b v u = record {
  lt0 = xor-lt 32 _ _ v.lt0 u.lt0;
  lt1 = xor-lt 32 _ _ v.lt1 u.lt1;
  lt2 = xor-lt 32 _ _ v.lt2 u.lt2;
  lt3 = xor-lt 32 _ _ v.lt3 u.lt3;
}

-- XTS: the tweak goes in before and after.
abbrev tweaked : (Block → Block) → Block → Block → Block
tweaked f iv b = xor_block iv (f (xor_block iv b))

-- Two different threads of the encryption kernel have the same effect in either order, and so
-- have a thread of the decryption kernel and a different one of the encryption kernel, under any
-- keys and numbers of rounds.
pub threads_commute :
    (rk dk : ℕ → ℕ) (n n' text i j : ℕ) (m : Mem)
    → i ≢ j
    → (aes_encrypt_bpt rk n text i (aes_encrypt_bpt rk n text j m)
        ≡ aes_encrypt_bpt rk n text j (aes_encrypt_bpt rk n text i m))
      × (aes_decrypt_bpt dk n' text i (aes_encrypt_bpt rk n text j m)
          ≡ aes_encrypt_bpt rk n text j (aes_decrypt_bpt dk n' text i m))
unfolding aes_encrypt_bpt aes_decrypt_bpt
threads_commute rk dk n n' text i j m ne =
    let d = block_at-Disjoint text i j ne in
    (
      in_place_comm (block_at text i) (block_at text j) (encrypt_words rk n) (encrypt_words rk n) m
          d,
      in_place_comm (block_at text i) (block_at text j) (decrypt_words dk n') (encrypt_words rk n) m
          d,
    )

-- A launch writes the threads' blocks, and nothing else.
pub launch_outside :
    (rk : ℕ → ℕ) (n text threads : ℕ) (m : Mem) (a : ℕ)
    → (a < text + 32) ⊎ (text + 32 + 16 * threads ≤ a)
    → launch threads (aes_encrypt_bpt rk n text) m a ≡ m a
unfolding launch aes_encrypt_bpt
launch_outside rk n text zero m a o = refl
launch_outside rk n text (suc threads) m a o =
    store_outside (block_at text threads) _ (launch threads (aes_encrypt_bpt rk n text) m) a
      (omega arith)
    ∙ launch_outside rk n text threads m a (omega arith)

module _ (rk dk : ℕ → ℕ) (nrounds : ℕ) (rounds : AesRounds nrounds)
    (key : IsInverse rk dk nrounds) where
  words_back : (b : Block) → IsBlock b → decrypt_words dk nrounds (encrypt_words rk nrounds b) ≡ b
  words_back b v =
      let c = encrypt_block rk nrounds (swap_block b) in
      ap (λ t. swap_block (decrypt_block dk nrounds t))
        (swap_block-swap_block c
          (encrypt_block-IsBlock rk dk key.words nrounds (swap_block b) (swap_block-IsBlock b)))
      ∙ ap swap_block (
          decrypt_block-encrypt_block rk dk nrounds (swap_block b) rounds key
            (swap_block-IsBlock b))
      ∙ swap_block-swap_block b v

  thread_back :
      (text i : ℕ) (m : Mem)
      → IsBytes m
      → aes_decrypt_bpt dk nrounds text i (aes_encrypt_bpt rk nrounds text i m) ≡ m
  unfolding aes_encrypt_bpt aes_decrypt_bpt
  thread_back text i m h =
      let p = block_at text i in
      store_back p m (encrypt_words rk nrounds (load p m)) (decrypt_words dk nrounds) h
        (swap_block-IsBlock _) (words_back (load p m) (load-IsBlock p m h))

  thread-IsBytes :
      (text i : ℕ) (m : Mem) → IsBytes m → IsBytes (aes_encrypt_bpt rk nrounds text i m)
  unfolding aes_encrypt_bpt
  thread-IsBytes text i m h =
      store-IsBytes (block_at text i) (encrypt_words rk nrounds (load (block_at text i) m)) m h

  -- A launch of the decryption kernel after a launch of the encryption kernel over the same text,
  -- with as many threads, gives the whole memory back, for 10, 12 and 14 rounds and the key of
  -- the equivalent inverse cipher.
  pub launch-decrypt-encrypt :
      (text threads : ℕ) (m : Mem)
      → IsBytes m
      → launch threads
          (aes_decrypt_bpt dk nrounds text)
          (launch threads (aes_encrypt_bpt rk nrounds text) m)
        ≡ m
  launch-decrypt-encrypt text threads m h =
      launch-launch (aes_encrypt_bpt rk nrounds text) (aes_decrypt_bpt dk nrounds text)
        (thread-IsBytes text) (λ i j m ne. (threads_commute rk dk nrounds nrounds text i j m ne).1)
        (thread_back text) threads m h

  tweaked_back :
      (iv b : Block)
      → IsBlock iv
      → IsBlock b
      → tweaked (decrypt_words dk nrounds) iv (tweaked (encrypt_words rk nrounds) iv b) ≡ b
  tweaked_back iv b v u =
      ap (λ t. xor_block iv (decrypt_words dk nrounds t))
        (xor_block_back iv (encrypt_words rk nrounds (xor_block iv b)))
      ∙ ap (xor_block iv) (words_back (xor_block iv b) (xor_block-IsBlock iv b v u))
      ∙ xor_block_back iv b

  -- Xts_decrypt undoes xts_encrypt in each thread, for 10, 12 and 14 rounds and the key of the
  -- equivalent inverse cipher, if the thread's block and its tweak have no byte in common.
  pub xts_decrypt-xts_encrypt :
      (text ivs i : ℕ) (m : Mem)
      → IsBytes m
      → Disjoint (block_at text i) (ivs + 16 * i)
      → xts_decrypt dk nrounds text ivs i (xts_encrypt rk nrounds text ivs i m) ≡ m
  unfolding xts_decrypt xts_encrypt
  xts_decrypt-xts_encrypt text ivs i m h apart =
      let p = block_at text i in
      let q = ivs + 16 * i in
      let c = tweaked (encrypt_words rk nrounds) (load q m) (load p m) in
      ap
        (λ iv. store p (tweaked (decrypt_words dk nrounds) iv (load p (store p c m))) (store p c m))
        (load-store-Disjoint p q c m apart)
      ∙ store_back p m c (tweaked (decrypt_words dk nrounds) (load q m)) h
          (xor_block-IsBlock _ _ (load-IsBlock q m h) (swap_block-IsBlock _))
          (tweaked_back (load q m) (load p m) (load-IsBlock q m h) (load-IsBlock p m h))
