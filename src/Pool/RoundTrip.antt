-- ===== src/Pool/RoundTrip.antt =====
-- Allocation followed by release: the native release function gets the native allocator's buffer.
use porteus_gpu.Pool.Release.{skb_release_data_native, skb_release_data-slot}
use porteus_gpu.Config.{memory_mask, max_memory}
use porteus_gpu.Pool.Window.{IsMapped}
use porteus_gpu.Pool.Search.{find_slot-IsFirstFree, IsFirstFree, IsSlot}
use porteus_gpu.Base.{
  ◌≢◌, update_same, update-update, ap, ◌∙◌, ◌%◌, leb, ◌&&◌, ◌==◌, Bool-cases, inr, inl,
  Option-cases, ◌⊎◌, returns, some, update, ◌≤◌, true, ℕ, ◌^◌, ◌<◌, ◌≡◌, refl, arith, add64, sub64,
}
use porteus_gpu.Pool.{
  skb_release_data, find_slot, slot_address, skb_size, Driver, netdev_alloc_skb, SkBuff, SkbApi,
  relocate, restore,
}

-- A buffer fresh from the native allocator: its pointers are words, its tail is its data.
pub record IsFresh (s : SkBuff) : Type 0 where
  pub nonnull : s.head ≢ 0
  pub head_fits : s.head < 2 ^ 64
  pub data_fits : s.data_ < 2 ^ 64
  pub end_fits : s.end < 2 ^ 64
  pub empty : s.tail ≡ s.data_

module _ (api : SkbApi) where
  pub relocate_eq :
      (s : SkBuff) (a : ℕ)
      → relocate api s a ≡ record s {
        head = a;
        data_ = add64 a (sub64 s.data_ s.head);
        tail = add64 a (sub64 s.data_ s.head);
        end = add64 a (sub64 s.end s.head);
      }
  unfolding relocate
  relocate_eq s a = rw api.reset_lem refl

  -- The release hook undoes the move: every pointer is the native one again.
  pub restore-relocate :
      (s : SkBuff) (a : ℕ) → a < 2 ^ 64 → IsFresh s → restore (relocate api s a) s.head ≡ s
  unfolding restore
  restore-relocate s a h f = rw (relocate_eq s a) (ground arith)

  -- The buffer has gone to the free slot `i`.
  pub record IsMoved (d : Driver) (s : SkBuff) (i : ℕ) (d' : Driver) (s' : SkBuff) : Type 0 where
    pub running : d.running ≡ true
    pub small : sub64 s.end s.head ≤ skb_size
    pub place : IsFirstFree d.skbs d.next i
    pub driver : d' ≡ record d { skbs = update d.skbs i s.head; next = i }
    pub buffer : s' ≡ relocate api s (slot_address d.kva i)

  -- A call that returns has left everything alone, or has moved the buffer.
  pub netdev_alloc_skb-cases :
      (fuel : ℕ) (d : Driver) (s : SkBuff) {d' : Driver} {s' : SkBuff}
      → IsSlot d.next
      → netdev_alloc_skb api fuel d (some s) ≡ returns (d', some s')
      → ((d' ≡ d) × (s' ≡ s)) ⊎ ((i : ℕ) × IsMoved d s i d' s')
  unfolding netdev_alloc_skb
  netdev_alloc_skb-cases fuel d s hn e = elim (Option-cases (find_slot fuel d.skbs d.next)) [
    | inl stuck ↦ inl (ground arith)
    | inr (i, found) ↦ elim (Bool-cases d.running) [
      | inl on ↦ elim (Bool-cases ((api.nr_frags s == 0) && leb (sub64 s.end s.head) skb_size)) [
        | inl fit ↦ inr (
          i,
          record {
            running = on;
            small = ground arith;
            place = find_slot-IsFirstFree fuel d.skbs d.next hn found;
            driver = ground arith;
            buffer = ground arith;
          },
        )
        | inr unfit ↦ inl (ground arith)
      ]
      | inr off ↦ inl (ground arith)
    ]
  ]

  -- A moved buffer, released in the state that the move left, is the native buffer again.
  release_moved :
      (d : Driver) (s : SkBuff) (i : ℕ) {d' : Driver} {s' : SkBuff}
      → IsMapped d.kva
      → d.kva % max_memory ≡ 0
      → IsFresh s
      → IsMoved d s i d' s'
      → ((skb_release_data d' s').1 ≡ s) × ((skb_release_data d' s').0.skbs ≡ d.skbs)
  release_moved d s i {d'} {s'} m al f mv = rw (mv.driver, mv.buffer) (rw given (restored, emptied))
    where
      open mv use {place}

      a : ℕ
      a = slot_address d.kva i

      d₁ : Driver
      d₁ = record d { skbs = update d.skbs i s.head; next = i }

      given :
          skb_release_data d₁ (relocate api s a)
          ≡ (record d₁ { skbs = update d₁.skbs i 0 }, restore (relocate api s a) (d₁.skbs i))
      given =
          skb_release_data-slot d₁ (relocate api s a) i m place.slot (ground arith)
            (ground (arith, f.nonnull)) (rw (relocate_eq s a))

      restored : restore (relocate api s a) (d₁.skbs i) ≡ s
      restored =
          ap (restore (relocate api s a)) (ground arith) ∙ restore-relocate s a (omega arith) f

      emptied : update d₁.skbs i 0 ≡ d.skbs
      emptied = update-update d.skbs i s.head 0 ∙ update_same d.skbs i 0 place.free

  -- If the mapping is aligned to 32 MB, then releasing a fresh buffer from outside the mapping
  -- straight after an allocation that returned it hands the native function the native
  -- allocator's buffer with every pointer as it was, and leaves every slot as before, whether or
  -- not the allocation moved the buffer.
  pub skb_release_data-netdev_alloc_skb :
      (fuel : ℕ) (d : Driver) (s : SkBuff) {d' : Driver} {s' : SkBuff}
      → IsSlot d.next
      → IsMapped d.kva
      → d.kva % max_memory ≡ 0
      → IsFresh s
      → memory_mask s.head ≢ memory_mask d.kva
      → netdev_alloc_skb api fuel d (some s) ≡ returns (d', some s')
      → ((skb_release_data d' s').1 ≡ s) × ((skb_release_data d' s').0.skbs ≡ d.skbs)
  skb_release_data-netdev_alloc_skb fuel d s hn m al f far e =
      elim (netdev_alloc_skb-cases fuel d s hn e) [
        | inl same ↦ rw (same.0, same.1, skb_release_data_native d s far) (refl, refl)
        | inr (i, mv) ↦ release_moved d s i m al f mv
      ]
