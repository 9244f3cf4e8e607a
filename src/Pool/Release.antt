-- ===== src/Pool/Release.antt =====
-- The release hook on a buffer that lies in a slot: inside the aligned window of `nfgpu_kva` it gives the
-- slot back, outside the window it does not notice the slot.
use porteus_gpu.Config.{memory_mask, skb_size, max_memory}
use porteus_gpu.Pool.Search.{IsSlot}
use porteus_gpu.Pool.Window.{slot_of-slot_address, IsMapped}
use porteus_gpu.Pool.{slot_address, slot_of, SkBuff, Driver, restore, skb_release_data}
use porteus_gpu.Base.{refl, Bool, update, ◌≢◌, ◌*◌, ◌≤◌, ◌+◌, arith, ◌%◌, sub64, ◌^◌, ◌<◌, ℕ, ◌≡◌}

-- What the release hook does with the buffer in a busy slot that lies in the window.
pub skb_release_data-slot :
    (d : Driver) (u : SkBuff) (i : ℕ)
    → IsMapped d.kva
    → IsSlot i
    → d.kva % max_memory + i * skb_size < max_memory
    → d.skbs i ≢ 0
    → u.head ≡ slot_address d.kva i
    → skb_release_data d u ≡ (record d { skbs = update d.skbs i 0 }, restore u (d.skbs i))
unfolding skb_release_data
skb_release_data-slot d u i m hi w busy e = ground (arith, slot_of-slot_address d i m hi busy)

-- If the mapping is not aligned to 32 MB, a buffer in a busy slot at or past the next multiple of
-- 32 MB is never given back: the release hook leaves the driver and the buffer as they are.
pub skb_release_data_outside :
    (d : Driver) (u : SkBuff) (i : ℕ)
    → IsMapped d.kva
    → IsSlot i
    → max_memory ≤ d.kva % max_memory + i * skb_size
    → d.skbs i ≢ 0
    → u.head ≡ slot_address d.kva i
    → skb_release_data d u ≡ (d, u)
unfolding skb_release_data
skb_release_data_outside d u i m hi w busy e = ground (arith, slot_of-slot_address d i m hi busy)

-- A buffer `r` at the head `native`, with the offsets of data, tail and end that `u` has from its head.
pub record IsGivenBack (u : SkBuff) (native : ℕ) (r : SkBuff) : Type 0 where
  pub head_native : r.head ≡ native
  pub data_offset : sub64 r.data_ r.head ≡ sub64 u.data_ u.head
  pub tail_offset : sub64 r.tail r.head ≡ sub64 u.tail u.head
  pub end_offset : sub64 r.end r.head ≡ sub64 u.end u.head
  pub same_len : r.len ≡ u.len

pub restore-IsGivenBack : (u : SkBuff) (h : ℕ) → h < 2 ^ 64 → IsGivenBack u h (restore u h)
unfolding restore
restore-IsGivenBack u h fits = record {
  head_native = refl;
  data_offset = omega arith;
  tail_offset = omega arith;
  end_offset = omega arith;
  same_len = refl;
}

-- A buffer outside the window of the mapping passes through.
pub skb_release_data_native :
    (d : Driver) (u : SkBuff)
    → memory_mask u.head ≢ memory_mask d.kva
    → skb_release_data d u ≡ (d, u)
unfolding skb_release_data slot_of
skb_release_data_native d u far = ground arith

-- Whether the module runs makes no difference to a release.
pub skb_release_data_running :
    (d : Driver) (u : SkBuff) (on : Bool)
    → ((skb_release_data (record d { running = on }) u).1 ≡ (skb_release_data d u).1)
      × ((skb_release_data (record d { running = on }) u).0.skbs ≡ (skb_release_data d u).0.skbs)
unfolding skb_release_data slot_of
skb_release_data_running d u on = ground arith

-- With no mapping a release changes nothing.
pub skb_release_data_unmapped :
    (d : Driver) (u : SkBuff) → d.kva ≡ 0 → skb_release_data d u ≡ (d, u)
unfolding skb_release_data slot_of
skb_release_data_unmapped d u e = ground arith
