-- ===== src/Pool/Window.antt =====
-- Which slots the address tests of the driver recognise: those in the 32 MB window of `nfgpu_kva`.
use porteus_gpu.Base.{
  ℕ, ◌+◌, ◌*◌, ◌%◌, ◌^◌, ◌≤◌, ◌<◌, ◌≡◌, ◌≢◌, some, none, arith, ltb, ◌==◌, if◌then◌else◌,
}
use porteus_gpu.Config.{max_memory, max_skbs, skb_size, memory_mask}
use porteus_gpu.Pool.{Driver, slot_address, slot_index, slot_of}
use porteus_gpu.Pool.Search.{IsSlot}

-- The mapping ends below 2 ^ 64.
abbrev pub IsMapped : ℕ → Type 0
IsMapped kva = (kva ≢ 0) × (kva + max_memory ≤ 2 ^ 64)

pub slot_address_eq :
    (kva i : ℕ) → IsMapped kva → i < max_skbs → slot_address kva i ≡ kva + i * skb_size
slot_address_eq kva i m h = omega arith

pub slot_index-slot_address :
    (kva i : ℕ) → IsMapped kva → i < max_skbs → slot_index kva (slot_address kva i) ≡ i
slot_index-slot_address kva i m h = omega arith

-- The masks agree just when the slot lies in the aligned window that `nfgpu_kva` lies in.
pub memory_mask-slot_address :
    (kva i : ℕ)
    → IsMapped kva
    → i < max_skbs
    → (memory_mask (slot_address kva i) == memory_mask kva)
      ≡ ltb (kva % max_memory + i * skb_size) max_memory
memory_mask-slot_address kva i m h = ground arith

-- The tests of the release hook recognise the buffer at the address of busy slot i as that slot's
-- exactly when the slot lies below the next multiple of 32 MB past the start of the mapping, and
-- as no slot's else.
pub slot_of-slot_address :
    (d : Driver) (i : ℕ)
    → IsMapped d.kva
    → IsSlot i
    → d.skbs i ≢ 0
    → slot_of d (slot_address d.kva i)
      ≡ (if ltb (d.kva % max_memory + i * skb_size) max_memory then some i else none)
unfolding slot_of
slot_of-slot_address d i m h busy =
    ground (arith, memory_mask-slot_address d.kva i m h.1, slot_index-slot_address d.kva i m h.1)
