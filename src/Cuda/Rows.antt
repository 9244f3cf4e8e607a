-- ===== src/Cuda/Rows.antt =====
-- togpu/driver/xt_TOGPU_kernel.cu, the kernels in which four threads share a block, in arrays that the
-- threads of a warp fill in lockstep. An array is indexed by `threadIdx.y` and `threadIdx.x`, which give
-- `lid`, and `n1`, `n2` and `n3` are the other words of the row.
use porteus_gpu.Cuda.{putu32, launch, getu32}
use Prim.Native.Nat.{suc, ℕ, bit_and}
use porteus_gpu.Base.{◌==◌, ◌%◌, zero, ltb, if◌then◌else◌, ◌*◌, ◌+◌, Mem, ◌⊕◌}
use porteus_gpu.Aes.{
  byte0, te3, td3, td2, te2, byte1, byte2, te1, td1, byte3, td4, te4, te0, td0, lookup, Block,
}

-- `__shared__ u32 s[WORDS_PER_BLOCK]`
abbrev pub Shared : Type 0
Shared = ℕ → ℕ → ℕ

-- The words of a row, and where they are in the text: 256 words for each block of threads.
abbrev pub row : Shared → ℕ → Block
row s y = record { w0 = s y 0; w1 = s y 1; w2 = s y 2; w3 = s y 3 }

abbrev pub row_at : ℕ → ℕ → ℕ → ℕ
row_at text bid y = text + 4 * (bid * 256 + y * 4)

-- The first assignment of both kernels.
unfoldable pub load_rows : (ℕ → ℕ) → ℕ → ℕ → Mem → Shared
load_rows rk text bid m y x = getu32 m (row_at text bid y + 4 * x) ⊕ rk x

-- One assignment of `aes_encrypt_bp4t`, with the key from word n on.
unfoldable pub te_step : (ℕ → ℕ) → ℕ → Shared → Shared
te_step rk n s y x =
    lookup te0 (byte3 (s y x))
    ⊕ lookup te1 (byte2 (s y ((x + 1) % 4)))
    ⊕ lookup te2 (byte1 (s y ((x + 2) % 4)))
    ⊕ lookup te3 (byte0 (s y ((x + 3) % 4)))
    ⊕ rk (n + x)

-- The last assignment.
unfoldable pub te_last_step : (ℕ → ℕ) → ℕ → Shared → Shared
te_last_step rk n t y x =
    bit_and (lookup te4 (byte3 (t y x))) 0xff000000
    ⊕ bit_and (lookup te4 (byte2 (t y ((x + 1) % 4)))) 0x00ff0000
    ⊕ bit_and (lookup te4 (byte1 (t y ((x + 2) % 4)))) 0x0000ff00
    ⊕ bit_and (lookup te4 (byte0 (t y ((x + 3) % 4)))) 0x000000ff
    ⊕ rk (n + x)

-- The nine assignments that `aes_encrypt_bp4t` always makes, one for each round.
unfoldable pub te_steps : ℕ → (ℕ → ℕ) → Shared → Shared
te_steps zero rk s = s
te_steps (suc n) rk s = te_step rk (4 * (n + 1)) (te_steps n rk s)

-- `aes_encrypt_bp4t`, up to the store.
unfoldable pub aes_encrypt_bp4t : (ℕ → ℕ) → ℕ → ℕ → ℕ → Mem → Shared
aes_encrypt_bp4t rk nrounds text bid m =
    let t = te_steps 9 rk (load_rows rk text bid m) in
    let t₁₁ = te_step rk 44 (te_step rk 40 t) in
    let t₁₃ = te_step rk 52 (te_step rk 48 t₁₁) in
    let t' = if ltb 10 nrounds then if ltb 12 nrounds then t₁₃ else t₁₁ else t in
    te_last_step rk (nrounds * 4) t'

-- One assignment of `aes_decrypt_bp4t`, and the last, in which each thread takes the key's same word.
unfoldable pub td_step : (ℕ → ℕ) → ℕ → Shared → Shared
td_step rk n s y x =
    lookup td0 (byte3 (s y x))
    ⊕ lookup td1 (byte2 (s y ((x + 3) % 4)))
    ⊕ lookup td2 (byte1 (s y ((x + 2) % 4)))
    ⊕ lookup td3 (byte0 (s y ((x + 1) % 4)))
    ⊕ rk (n + x)

unfoldable pub td_last_step : (ℕ → ℕ) → ℕ → Shared → Shared
td_last_step rk n t y x =
    bit_and (lookup td4 (byte3 (t y x))) 0xff000000
    ⊕ bit_and (lookup td4 (byte2 (t y ((x + 3) % 4)))) 0x00ff0000
    ⊕ bit_and (lookup td4 (byte1 (t y ((x + 2) % 4)))) 0x0000ff00
    ⊕ bit_and (lookup td4 (byte0 (t y ((x + 1) % 4)))) 0x000000ff
    ⊕ rk n

-- Rounds 1 to n of `aes_decrypt_bp4t`: the odd ones have the key from word 4, the even ones from word 8.
unfoldable pub td_steps : ℕ → (ℕ → ℕ) → Shared → Shared
td_steps zero rk s = s
td_steps (suc n) rk s = td_step rk (if n % 2 == 0 then 4 else 8) (td_steps n rk s)

-- `aes_decrypt_bp4t`, up to the store.
unfoldable pub aes_decrypt_bp4t : (ℕ → ℕ) → ℕ → ℕ → ℕ → Mem → Shared
aes_decrypt_bp4t rk nrounds text bid m =
    let t = td_steps 9 rk (load_rows rk text bid m) in
    let t₁₁ = td_step rk 4 (td_step rk 8 t) in
    let t₁₃ = td_step rk 4 (td_step rk 8 t₁₁) in
    let t' = if ltb 10 nrounds then if ltb 12 nrounds then t₁₃ else t₁₁ else t in
    td_last_step rk (nrounds * 4) t'

-- The store at the end of both kernels, of the first rows of a block of threads.
unfoldable pub store_rows : ℕ → ℕ → ℕ → Shared → Mem → Mem
store_rows text bid rows s m =
    launch rows
      (λ y m'.
        let p = row_at text bid y in
        putu32 (p + 12) (s y 3)
          (putu32 (p + 8) (s y 2) (putu32 (p + 4) (s y 1) (putu32 p (s y 0) m'))))
      m
