-- ===== src/Gpu/Packet.antt =====
-- What the GPU's loop does to a packet whose length it reads.
use porteus_gpu.Cuda.Modes.{launch_outside}
use porteus_gpu.Gpu.{test_rounds, process, threads_for, aes_test_round}
use porteus_gpu.Base.{
  write32-Outside, false, true, ◌∙◌, write32, none, if◌then◌else◌, sym, ap, Bool, refl, arith, leb,
  ◌&&◌, ◌==◌, ltb, if-both, ◌⊎◌, ◌+◌, ◌*◌, ◌^◌, ◌<◌, read32, ◌≤◌, some, ◌≡◌, Mem, ℕ,
}

threads_fit : (length : ℕ) → 32 ≤ length → length < 2 ^ 31 → 32 + 16 * threads_for length ≤ length
unfolding threads_for
threads_fit length long short =
    if-both (λ t. 32 + 16 * t ≤ length) (ltb length (2 ^ 31))
      (λ _.
        if-both (λ t. 32 + 16 * t ≤ length) (leb 32 length) (λ _. omega arith)
          (λ no. absurd (ground arith)))
      (λ no. absurd (ground arith))

process_outside :
    (max_threads : ℕ) (rk : ℕ → ℕ) (index length : ℕ) (m : Mem) (a : ℕ)
    → 32 ≤ length
    → length < 2 ^ 31
    → (a < index * 0x1000 + 32) ⊎ (index * 0x1000 + length ≤ a)
    → process max_threads rk index length m a ≡ m a
unfolding process
process_outside max_threads rk index length m a long short o =
    if-both (λ (m' : Mem). m' a ≡ m a)
      (ltb 0 (threads_for length) && leb (threads_for length) max_threads)
      (λ _.
        launch_outside rk test_rounds (index * 0x1000) (threads_for length) m a
          (omega (arith, threads_fit length long short)))
      (λ _. refl)

not_waiting : (c : Bool) (x m' : Mem) → (if c then none else some x) ≡ some m' → x ≡ m'
not_waiting true x m' h = grind arith
not_waiting false x m' h = ap (λ o. elim o [ none ↦ x | some y ↦ y ]) h

-- If the GPU's loop reads a length from 32 to 2 ^ 31 - 1, its round changes no byte past the
-- first word but those of the packet after its first 32 bytes.
pub aes_test_round_confined :
    (max_threads : ℕ) (rk : ℕ → ℕ) (m m' : Mem) (a : ℕ)
    → aes_test_round max_threads rk m ≡ some m'
    → 32 ≤ read32 m 4
    → read32 m 4 < 2 ^ 31
    → 4 ≤ a
    → (a < read32 m 0 * 0x1000 + 32) ⊎ (read32 m 0 * 0x1000 + read32 m 4 ≤ a)
    → m' a ≡ m a
unfolding aes_test_round
aes_test_round_confined max_threads rk m m' a h long short above o =
    let done = process max_threads rk (read32 m 0) (read32 m 4) m in
    ap (λ f. f a) (sym (not_waiting (read32 m 0 == 0) (write32 0 0 done) m' h))
    ∙ write32-Outside 0 0 done a (omega arith)
    ∙ process_outside max_threads rk (read32 m 0) (read32 m 4) m a long short o
