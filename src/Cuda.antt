-- ===== src/Cuda.antt =====
-- togpu/driver/xt_TOGPU_kernel.cu: the CUDA kernels, each as what one thread does to the memory, and a
-- launch of a row of threads.
pub mod Threads
pub mod Modes
pub mod Counter
pub mod Rows
pub mod Lockstep
mod Tests
use porteus_gpu.Base.{
  ◌-◌, ◌^◌, ◌/◌, ltb, ◌*◌, zero, ◌+◌, suc, ◌%◌, if◌then◌else◌, add64, write32, read32, Mem, ℕ, [],
  ◌⊕◌,
}
use porteus_gpu.Aes.{Block, encrypt_block, decrypt_block}

-- Byte n of the eight bytes of x and y.
abbrev pub byte_of : ℕ → ℕ → ℕ → ℕ
byte_of x y n = if ltb n 4 then x / 2 ^ (8 * n) % 256 else y / 2 ^ (8 * (n - 4)) % 256

-- `__byte_perm` of CUDA: each of the four low digits of s chooses a byte.
abbrev pub byte_perm : ℕ → ℕ → ℕ → ℕ
byte_perm x y s =
    byte_of x y (s % 8)
    + byte_of x y (s / 2 ^ 4 % 8) * 2 ^ 8
    + byte_of x y (s / 2 ^ 8 % 8) * 2 ^ 16
    + byte_of x y (s / 2 ^ 12 % 8) * 2 ^ 24

abbrev pub endian_selector : ℕ
endian_selector = 0x123

-- The selector turns the bytes of a word round.
abbrev pub swap : ℕ → ℕ
swap w = byte_perm w 0 endian_selector

abbrev pub getu32 : Mem → ℕ → ℕ
getu32 m p = swap (read32 m p)

abbrev pub putu32 : ℕ → ℕ → Mem → Mem
putu32 p st m = write32 p (swap st) m

-- Where a thread's block of text begins: after 32 bytes, 16 bytes for each thread.
abbrev pub block_at : ℕ → ℕ → ℕ
block_at text thread = text + 32 + 16 * thread

-- `aes_encrypt_bpt`
unfoldable pub aes_encrypt_bpt : (ℕ → ℕ) → ℕ → ℕ → ℕ → Mem → Mem
aes_encrypt_bpt rk nrounds text thread m =
    let txt = block_at text thread in
    let s = encrypt_block rk nrounds (record {
      w0 = getu32 m txt;
      w1 = getu32 m (txt + 4);
      w2 = getu32 m (txt + 8);
      w3 = getu32 m (txt + 12);
    }) in
    putu32 (txt + 12) s.w3 (putu32 (txt + 8) s.w2 (putu32 (txt + 4) s.w1 (putu32 txt s.w0 m)))

-- `aes_decrypt_bpt`
unfoldable pub aes_decrypt_bpt : (ℕ → ℕ) → ℕ → ℕ → ℕ → Mem → Mem
aes_decrypt_bpt rk nrounds text thread m =
    let txt = block_at text thread in
    let s = decrypt_block rk nrounds (record {
      w0 = getu32 m txt;
      w1 = getu32 m (txt + 4);
      w2 = getu32 m (txt + 8);
      w3 = getu32 m (txt + 12);
    }) in
    putu32 (txt + 12) s.w3 (putu32 (txt + 8) s.w2 (putu32 (txt + 4) s.w1 (putu32 txt s.w0 m)))

-- `xts_encrypt`; `ivs` holds 16 bytes for each thread.
unfoldable pub xts_encrypt : (ℕ → ℕ) → ℕ → ℕ → ℕ → ℕ → Mem → Mem
xts_encrypt rk nrounds text ivs thread m =
    let txt = block_at text thread in
    let iv = ivs + 16 * thread in
    let s = encrypt_block rk nrounds (record {
      w0 = swap (read32 m iv ⊕ read32 m txt);
      w1 = swap (read32 m (iv + 4) ⊕ read32 m (txt + 4));
      w2 = swap (read32 m (iv + 8) ⊕ read32 m (txt + 8));
      w3 = swap (read32 m (iv + 12) ⊕ read32 m (txt + 12));
    }) in
    write32 (txt + 12) (read32 m (iv + 12) ⊕ swap s.w3) (
      write32 (txt + 8) (read32 m (iv + 8) ⊕ swap s.w2) (
        write32 (txt + 4) (read32 m (iv + 4) ⊕ swap s.w1)
          (write32 txt (read32 m iv ⊕ swap s.w0) m)))

-- `xts_decrypt`
unfoldable pub xts_decrypt : (ℕ → ℕ) → ℕ → ℕ → ℕ → ℕ → Mem → Mem
xts_decrypt rk nrounds text ivs thread m =
    let txt = block_at text thread in
    let iv = ivs + 16 * thread in
    let s = decrypt_block rk nrounds (record {
      w0 = swap (read32 m iv ⊕ read32 m txt);
      w1 = swap (read32 m (iv + 4) ⊕ read32 m (txt + 4));
      w2 = swap (read32 m (iv + 8) ⊕ read32 m (txt + 8));
      w3 = swap (read32 m (iv + 12) ⊕ read32 m (txt + 12));
    }) in
    write32 (txt + 12) (read32 m (iv + 12) ⊕ swap s.w3) (
      write32 (txt + 8) (read32 m (iv + 8) ⊕ swap s.w2) (
        write32 (txt + 4) (read32 m (iv + 4) ⊕ swap s.w1)
          (write32 txt (read32 m iv ⊕ swap s.w0) m)))

-- `big_u128_add`: the four words of `res`, as they are stored.
unfoldable pub big_u128_add : Mem → ℕ → ℕ → Block
big_u128_add m ctr offset =
    let c = add64 (getu32 m (ctr + 12) + getu32 m (ctr + 8) * 2 ^ 32) offset in
    record { w0 = 0; w1 = 0; w2 = swap (c / 2 ^ 32); w3 = swap (c % 2 ^ 32) }

-- `thread_ctr_offset`, of the thread's index
abbrev pub thread_ctr_offset : ℕ → ℕ
thread_ctr_offset thread = thread % 2 ^ 64

-- `aes_ctr_crypt`
unfoldable pub aes_ctr_crypt : (ℕ → ℕ) → ℕ → ℕ → ℕ → ℕ → Mem → Mem
aes_ctr_crypt rk nrounds text ctr thread m =
    let txt = block_at text thread in
    let c = big_u128_add m ctr (thread_ctr_offset thread) in
    let s =
      encrypt_block rk nrounds
        (record { w0 = swap c.w0; w1 = swap c.w1; w2 = swap c.w2; w3 = swap c.w3 }) in
    write32 (txt + 12) (read32 m (txt + 12) ⊕ swap s.w3) (
      write32 (txt + 8) (read32 m (txt + 8) ⊕ swap s.w2) (
        write32 (txt + 4) (read32 m (txt + 4) ⊕ swap s.w1)
          (write32 txt (read32 m txt ⊕ swap s.w0) m)))

-- `aes_lctr_crypt`, which takes the offset itself.
unfoldable pub aes_lctr_crypt : (ℕ → ℕ) → ℕ → ℕ → ℕ → ℕ → Mem → Mem
aes_lctr_crypt rk nrounds text ctr thread m =
    let txt = block_at text thread in
    let c = big_u128_add m ctr (thread % 2 ^ 64) in
    let s =
      encrypt_block rk nrounds
        (record { w0 = swap c.w0; w1 = swap c.w1; w2 = swap c.w2; w3 = swap c.w3 }) in
    write32 (txt + 12) (read32 m (txt + 12) ⊕ swap s.w3) (
      write32 (txt + 8) (read32 m (txt + 8) ⊕ swap s.w2) (
        write32 (txt + 4) (read32 m (txt + 4) ⊕ swap s.w1)
          (write32 txt (read32 m txt ⊕ swap s.w0) m)))

-- A launch `<<<1, threads>>>`, one thread after another.
unfoldable pub launch : ℕ → (ℕ → Mem → Mem) → Mem → Mem
launch zero kernel m = m
launch (suc threads) kernel m = kernel threads (launch threads kernel m)
