-- ===== src/Pool/Total.antt =====
-- When `__netdev_alloc_skb_togpu` returns, and when it waits for ever.
use porteus_gpu.Pool.Search.{find_slot_full, find_slot_total, IsSlot}
use porteus_gpu.Pool.{
  find_slot, slot_address, relocate, skb_size, max_skbs, Driver, netdev_alloc_skb, SkBuff, SkbApi,
}
use porteus_gpu.Base.{
  false, Option, inr, update, inl, Bool-cases, arith, refl, sub64, returns, waits, ◌≢◌, leb, some,
  true, ◌&&◌, ◌==◌, Bool, ℕ, ◌≡◌,
}

module _ (api : SkbApi) where
  -- The buffer qualifies for a slot: no fragments, and no longer than 4 KB.
  abbrev pub qualifies : SkBuff → Bool
  qualifies s = (api.nr_frags s == 0) && leb (sub64 s.end s.head) skb_size

  pub netdev_alloc_skb_found :
      (fuel : ℕ) (d : Driver) (s : SkBuff) (j : ℕ)
      → d.running ≡ true
      → qualifies s ≡ true
      → find_slot fuel d.skbs d.next ≡ some j
      → netdev_alloc_skb api fuel d (some s)
        ≡ returns (
          record d { skbs = update d.skbs j s.head; next = j },
          some (relocate api s (slot_address d.kva j)),
        )
  unfolding netdev_alloc_skb
  netdev_alloc_skb_found fuel d s j on fit found = ground arith

  -- If some slot from 1 to 8191 is free, the allocation hook returns a buffer for every buffer of
  -- the native allocator, within 8192 rounds of its search.
  pub netdev_alloc_skb_total :
      (d : Driver) (s : SkBuff) (i : ℕ)
      → IsSlot d.next
      → IsSlot i
      → d.skbs i ≡ 0
      → (r : Driver × SkBuff) × (netdev_alloc_skb api max_skbs d (some s) ≡ returns (r.0, some r.1))
  unfolding netdev_alloc_skb
  netdev_alloc_skb_total d s i hn hi free =
      let (j, found, first) = find_slot_total max_skbs d.skbs d.next i hn hi free (ground arith) in
      elim (Bool-cases d.running) [
        | inl on ↦ elim (Bool-cases (qualifies s)) [
          | inl fit ↦ (
            (
              record d { skbs = update d.skbs j s.head; next = j },
              relocate api s (slot_address d.kva j),
            ),
            netdev_alloc_skb_found max_skbs d s j on fit found,
          )
          | inr unfit ↦ ((d, s), ground arith)
        ]
        | inr off ↦ ((d, s), ground arith)
      ]

  -- While the module runs and every slot is busy, the allocation hook does not return for a
  -- buffer with no fragments of at most 4 KB, whatever the fuel of its search.
  pub netdev_alloc_skb_waits :
      (fuel : ℕ) (d : Driver) (s : SkBuff)
      → IsSlot d.next
      → d.running ≡ true
      → qualifies s ≡ true
      → ((i : ℕ) → IsSlot i → d.skbs i ≢ 0)
      → netdev_alloc_skb api fuel d (some s) ≡ waits
  unfolding netdev_alloc_skb
  netdev_alloc_skb_waits fuel d s hn on fit full =
      rw (on, fit, find_slot_full fuel d.skbs d.next hn full) refl

  pub netdev_alloc_skb_stopped :
      (fuel : ℕ) (d : Driver) (ret : Option SkBuff)
      → d.running ≡ false
      → netdev_alloc_skb api fuel d ret ≡ returns (d, ret)
  unfolding netdev_alloc_skb
  netdev_alloc_skb_stopped fuel d ret off = rw (off, netdev_alloc_skb) refl
