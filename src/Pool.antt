-- ===== src/Pool.antt =====
-- togpu/driver/xt_TOGPU_main.c: the module's static data, and the two hooks that move the buffer of a
-- socket buffer into a slot of the shared GPU memory and back.
pub mod Search
pub mod Window
pub mod Release
pub mod RoundTrip
pub mod Live
pub mod Race
pub mod Total
pub mod Tests
use porteus_gpu.Base.{
  ℕ, zero, suc, ◌+◌, ◌*◌, ◌/◌, ◌%◌, ◌^◌, ◌≡◌, Bool, true, false, ◌&&◌, Option, none, some, ltb, leb,
  ◌==◌, if◌then◌else◌, add64, sub64, update, Outcome, returns, waits, fault,
}
use porteus_gpu.Config.{skb_offset, skb_size, max_skbs, memory_mask}

-- The static variables that the hooks, the target and the ioctls share.
pub record Driver : Type 0 where
  pub running : Bool
  pub pages : ℕ → ℕ
  pub uva : ℕ
  pub kva : ℕ
  pub size : ℕ
  pub npages : ℕ
  pub skbs : ℕ → ℕ
  pub next : ℕ
  pub packets : ℕ
  pub average : ℕ

-- The fields of the kernel's `struct sk_buff` that the driver touches; `tail` and `end` are addresses.
pub record SkBuff : Type 0 where
  pub head : ℕ
  pub data_ : ℕ
  pub tail : ℕ
  pub end : ℕ
  pub len : ℕ

-- What the driver takes from the kernel's skbuff.h: `skb_shinfo(skb)->nr_frags`, and
-- `skb_reset_tail_pointer`, which sets the tail to the data and leaves the rest.
pub record SkbApi : Type 0 where
  pub nr_frags : SkBuff → ℕ
  pub reset_tail_pointer : SkBuff → SkBuff
  pub reset_lem : (s : SkBuff) → reset_tail_pointer s ≡ record s { tail = s.data_ }

-- `if( ++nfgpu_next >= NFGPU_MAX_SKBS )  nfgpu_next = 1;`
abbrev pub advance : ℕ → ℕ
advance n = if leb max_skbs (n + 1) then 1 else n + 1

-- The `while` over `nfgpu_skbs`: the index at which it stops. `none`: it still waits after `fuel` rounds.
pub find_slot : ℕ → (ℕ → ℕ) → ℕ → Option ℕ
find_slot zero skbs n = none
find_slot (suc fuel) skbs n =
    let rest = find_slot fuel skbs (advance n) in if skbs n == 0 then some n else rest

-- `nfgpu_kva + (nfgpu_next << NFGPU_SKB_OFFSET)`
abbrev pub slot_address : ℕ → ℕ → ℕ
slot_address kva i = add64 kva (i * 2 ^ skb_offset % 2 ^ 64)

-- `(p >> NFGPU_SKB_OFFSET) - (nfgpu_kva >> NFGPU_SKB_OFFSET)`
abbrev pub slot_index : ℕ → ℕ → ℕ
slot_index kva p = sub64 (p / 2 ^ skb_offset) (kva / 2 ^ skb_offset)

module _ (api : SkbApi) where
  -- The buffer is moved to `newhead`, and the offsets from the head are kept.
  pub relocate : SkBuff → ℕ → SkBuff
  relocate s newhead =
      let headtodata = sub64 s.data_ s.head in
      let skblength = sub64 s.end s.head in
      let moved = record s { head = newhead; data_ = add64 newhead headtodata } in
      let tailed = api.reset_tail_pointer moved in record tailed { end = add64 newhead skblength }

  -- `__netdev_alloc_skb_togpu`, given what the native allocator returned (`none` is NULL).
  pub netdev_alloc_skb : ℕ → Driver → Option SkBuff → Outcome (Driver × Option SkBuff)
  netdev_alloc_skb fuel d ret =
      if d.running
      then elim ret [
        | none ↦ fault
        | some s ↦
            if (api.nr_frags s == 0) && leb (sub64 s.end s.head) skb_size
            then elim (find_slot fuel d.skbs d.next) [
              | none ↦ waits
              | some i ↦ returns (
                record d { skbs = update d.skbs i s.head; next = i },
                some (relocate s (slot_address d.kva i)),
              )
            ]
            else returns (d, some s)
      ]
      else returns (d, ret)

-- The buffer goes back to `newhead`, with the same offsets from the head.
pub restore : SkBuff → ℕ → SkBuff
restore s newhead =
    let ddata = sub64 s.data_ s.head in
    let dtail = sub64 s.tail s.head in
    let dend = sub64 s.end s.head in
    record s {
      head = newhead;
      data_ = add64 newhead ddata;
      tail = add64 newhead dtail;
      end = add64 newhead dend;
    }

-- The tests of `skb_release_data_togpu`: the index of the slot that the buffer occupies, if it does.
pub slot_of : Driver → ℕ → Option ℕ
slot_of d head =
    let index = slot_index d.kva head in
    if d.kva == 0
    then none
    else if memory_mask head == memory_mask d.kva
    then if ltb index max_skbs then if d.skbs index == 0 then none else some index else none
    else none

-- `skb_release_data_togpu`: the driver's state, and the buffer handed on to the native function.
pub skb_release_data : Driver → SkBuff → Driver × SkBuff
skb_release_data d s = elim (slot_of d s.head) [
  | none ↦ (d, s)
  | some index ↦ (record d { skbs = update d.skbs index 0 }, restore s (d.skbs index))
]
