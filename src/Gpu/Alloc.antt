-- ===== src/Gpu/Alloc.antt =====
-- `gpu_alloc_pinned_mem`, by what the CUDA calls answer. A call that `checkCudaErrors` checks ends the
-- program when it fails.
use porteus_gpu.Base.{arith, true, ◌==◌, ◌≢◌, not, ◌≡◌, Bool, ℕ, if◌then◌else◌}

-- Whether each checked call succeeds, in order, and what they give: 0 is a NULL pointer.
pub record CudaAnswers : Type 0 where
  pub sets_device : Bool
  pub gets_properties : Bool
  pub can_map_host_memory : Bool
  pub sets_flags : Bool
  pub allocates_host : Bool
  pub host_pointer : ℕ
  pub gets_device_pointer : Bool
  pub device_pointer : ℕ

-- `gpu_ptr` and `gpu_devptr`
pub record Pinned : Type 0 where
  pub gpu_ptr : ℕ
  pub gpu_devptr : ℕ

-- How the function ends: `refuses` is NULL, after `cudaDeviceReset`.
pub data AllocEnd : Type 0 where
  exits refuses : AllocEnd
  gives : ℕ → Pinned → AllocEnd

unfoldable pub gpu_alloc_pinned_mem : CudaAnswers → AllocEnd
gpu_alloc_pinned_mem c =
    if not c.sets_device
    then exits
    else if not c.gets_properties
    then exits
    else if not c.can_map_host_memory
    then refuses
    else if not c.sets_flags
    then exits
    else if not c.allocates_host
    then exits
    else if c.host_pointer == 0
    then refuses
    else if not c.gets_device_pointer
    then exits
    else if c.host_pointer == 0
    then refuses
    else gives c.host_pointer (record { gpu_ptr = c.host_pointer; gpu_devptr = c.device_pointer })

-- x
pub gpu_alloc_pinned_mem_gives :
    (c : CudaAnswers) (p : ℕ) (s : Pinned)
    → gpu_alloc_pinned_mem c ≡ gives p s
    → (p ≢ 0)
      × (p ≡ c.host_pointer)
      × (s.gpu_devptr ≡ c.device_pointer)
      × (c.can_map_host_memory ≡ true)
unfolding gpu_alloc_pinned_mem
gpu_alloc_pinned_mem_gives c p s h = ground arith
