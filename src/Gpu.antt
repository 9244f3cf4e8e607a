-- ===== src/Gpu.antt =====
-- togpu/driver/xt_TOGPU_kernel.cu, the host's side: the pinned memory, and the loop that waits for a packet,
-- starts the kernel and answers the driver. An address is an offset in the pinned memory, which the host
-- and the device reach by a pointer each.
pub mod Handshake
pub mod Alloc
pub mod Packet
mod Tests
use porteus_gpu.Cuda.{aes_encrypt_bpt, launch}
use porteus_gpu.Base.{
  refl, zero, suc, waits, Outcome, ◌≡◌, write32, some, none, ◌==◌, ◌%◌, ◌-◌, leb, ◌&&◌, read32, ◌^◌,
  ◌+◌, Option, ◌/◌, ltb, Mem, if◌then◌else◌, ◌*◌, ℕ, [],
}

-- `cipher_key`, which `aes_init` clears.
abbrev pub cipher_key : ℕ → ℕ
cipher_key n = 0

-- The words of `cipher_key`, and what `aes_test` passes as the number of rounds.
abbrev pub key_words : ℕ
key_words = 128

abbrev pub test_rounds : ℕ
test_rounds = key_words * 4 / 4 + 6

-- `(length-32) / 16` on `int`, which rounds to 0, as the unsigned number of threads.
unfoldable pub threads_for : ℕ → ℕ
threads_for length =
    if ltb length (2 ^ 31)
    then if leb 32 length then (length - 32) / 16 else (2 ^ 32 - (32 - length) / 16) % 2 ^ 32
    else 2 ^ 32 - (2 ^ 32 - length + 32) / 16

-- The launch of `aes_test`: none, or one of more threads than the device can run, fails and runs none.
unfoldable pub process : ℕ → (ℕ → ℕ) → ℕ → ℕ → Mem → Mem
process max_threads rk index length m =
    let threads = threads_for length in
    if ltb 0 threads && leb threads max_threads
    then launch threads (aes_encrypt_bpt rk test_rounds (index * 0x1000)) m
    else m

-- One round of the loop of `aes_test`, `none` while there is no packet.
unfoldable pub aes_test_round : ℕ → (ℕ → ℕ) → Mem → Option Mem
aes_test_round max_threads rk m =
    let index = read32 m 0 in
    let length = read32 m 4 in
    if index == 0 then none else some (write32 0 0 (process max_threads rk index length m))

-- `aes_test`, with fuel for the rounds and what others do to the memory before each: `while( 1 )` has no
-- end, so there is no result but `waits`.
unfoldable pub aes_test : ℕ → ℕ → (ℕ → ℕ) → (ℕ → Mem → Mem) → Mem → Outcome ℕ
aes_test zero max_threads rk others m = waits
aes_test (suc fuel) max_threads rk others m =
    let before = others 0 m in
    let after : Mem = elim (aes_test_round max_threads rk before) [
      | none ↦ before
      | some m' ↦ m'
    ] in
    aes_test fuel max_threads rk (λ k. others (suc k)) after

pub aes_test_waits :
    (fuel max_threads : ℕ) (rk : ℕ → ℕ) (others : ℕ → Mem → Mem) (m : Mem)
    → aes_test fuel max_threads rk others m ≡ waits
unfolding aes_test
aes_test_waits zero max_threads rk others m = refl
aes_test_waits (suc fuel) max_threads rk others m =
    aes_test_waits fuel max_threads rk (λ k. others (suc k)) _
