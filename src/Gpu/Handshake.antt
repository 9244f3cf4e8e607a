-- ===== src/Gpu/Handshake.antt =====
-- The driver's announcement, which `nfgpu_target` of togpu/driver/xt_TOGPU_main.c writes, as the GPU's
-- loop reads it.
use porteus_gpu.Gpu.{process, threads_for, aes_test_round}
use porteus_gpu.Base.{
  refl, read32-write32, ne→==, ◌∙◌, arith, leb-false, ◌%◌, some, read32-Apart, ◌/◌, ◌≡◌, ◌-◌, ◌*◌,
  ◌^◌, ◌+◌, read32, write32, ◌<◌, Mem, ℕ,
}
use porteus_gpu.Target.{Post}

-- A store and a load of an `unsigned long`.
abbrev pub write64 : ℕ → ℕ → Mem → Mem
write64 p v m = write32 (p + 4) (v / 2 ^ 32) (write32 p (v % 2 ^ 32) m)

abbrev pub read64 : Mem → ℕ → ℕ
read64 m p = read32 m p + 2 ^ 32 * read32 m (p + 4)

-- `*target = index; *(target+1) = skb->len;`
unfoldable pub announce : Post → Mem → Mem
announce post m = write64 8 post.len (write64 0 post.index m)

module _ (post : Post) (m : Mem) (small : post.index < 2 ^ 32) where
  announced_index : read32 (announce post m) 0 ≡ post.index
  unfolding announce
  announced_index =
      read32-Apart 12 0 _ _ (omega arith)
      ∙ read32-Apart 8 0 _ _ (omega arith)
      ∙ read32-Apart 4 0 _ _ (omega arith)
      ∙ read32-write32 0 (post.index % 2 ^ 32) m (omega arith)
      ∙ omega arith

  announced_length : read32 (announce post m) 4 ≡ 0
  unfolding announce
  announced_length =
      read32-Apart 12 4 _ _ (omega arith)
      ∙ read32-Apart 8 4 _ _ (omega arith)
      ∙ read32-write32 4 (post.index / 2 ^ 32) _ (omega arith)
      ∙ omega arith

-- When the driver has announced a slot from 1 to 2 ^ 32 - 1, with a packet of any length, the
-- round of the GPU's loop runs no thread, since it reads 0 for the length, on a device that
-- cannot run 2 ^ 32 - 2 threads: it changes nothing but the first word, which it clears, so that
-- the driver's 64-bit read finds 0.
pub aes_test_round_unprocessed :
    (max_threads : ℕ) (rk : ℕ → ℕ) (post : Post) (m : Mem)
    → max_threads < 2 ^ 32 - 2
    → 0 < post.index
    → post.index < 2 ^ 32
    → (aes_test_round max_threads rk (announce post m) ≡ some (write32 0 0 (announce post m)))
      × (read64 (write32 0 0 (announce post m)) 0 ≡ 0)
unfolding aes_test_round process threads_for
aes_test_round_unprocessed max_threads rk post m limit positive small = (
  rw
      (
        aes_test_round,
        announced_length post m small,
        announced_index post m small,
        leb-false (2 ^ 32 - 2) max_threads limit,
        ne→== post.index 0 (omega arith),
      )
      refl,
  omega (
    arith,
    read32-write32 0 0 (announce post m) (omega arith),
    read32-Apart 0 4 0 (announce post m) (omega arith),
    announced_length post m small,
  ),
)
