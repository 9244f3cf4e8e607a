-- ===== src/Target.antt =====
-- togpu/driver/xt_TOGPU_main.c, `nfgpu_target`: a packet whose buffer lies in a slot is announced to the
-- GPU through the first two words of the shared memory, and the function polls until the GPU clears the
-- first word.
pub mod Announce
pub mod Profile
pub mod Race
mod Tests
use porteus_gpu.Config.{max_skbs, memory_mask}
use porteus_gpu.Pool.{slot_index, SkBuff, Driver}
use porteus_gpu.Base.{
  zero, suc, none, some, true, false, returns, waits, ◌/◌, ◌-◌, ◌%◌, ◌^◌, ◌*◌, ◌==◌, add64, ltb,
  Option, Outcome, if◌then◌else◌, Bool, ℕ, ◌≡◌,
}

-- The verdict of the netfilter target.
pub data Verdict : Type 0 where
  nf_accept : Verdict

-- The two words written at `nfgpu_kva`: the slot's index and the packet's length.
pub record Post : Type 0 where
  pub index : ℕ
  pub len : ℕ

-- The tests before the announcement: the index to announce, if the packet is for the GPU.
pub target_index : Driver → SkBuff → Option ℕ
target_index d skb =
    let index = slot_index d.kva skb.head in
    if d.running
    then if memory_mask skb.head == memory_mask d.kva
      then if ltb index max_skbs then some index else none
      else none
    else none

-- `while( *target != 0 );` over the values that the successive reads find. `false`: still polling.
pub poll : ℕ → (ℕ → ℕ) → Bool
poll zero reads = false
poll (suc fuel) reads =
    let rest = poll fuel (λ k. reads (suc k)) in if reads 0 == 0 then true else rest

-- `((nfgpu_average << 8) + cycles) / ((1<<8)+1)`
abbrev pub new_average : ℕ → ℕ → ℕ
new_average average cycles = add64 (average * 2 ^ 8 % 2 ^ 64) cycles / 257

-- The moving average of clock cycles, and the packet counter.
pub profile : Driver → ℕ → ℕ → Driver
profile d timestamp_start timestamp_end =
    if ltb timestamp_start timestamp_end
    then record d {
      average = new_average d.average (timestamp_end - timestamp_start);
      packets = add64 d.packets 1;
    }
    else d

-- `nfgpu_target`: the verdict, the driver's state, and what was announced. The two readings of the time
-- stamp counter and the words that polling finds come from outside.
pub nfgpu_target : ℕ → (ℕ → ℕ) → ℕ → ℕ → Driver → SkBuff → Outcome (Verdict × Driver × Option Post)
nfgpu_target fuel reads timestamp_start timestamp_end d skb = elim (target_index d skb) [
  | none ↦ returns (nf_accept, d, none)
  | some index ↦
      if poll fuel reads
      then returns (
        nf_accept,
        profile d timestamp_start timestamp_end,
        some (record { index = index; len = skb.len }),
      )
      else waits
]
