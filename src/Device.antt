-- ===== src/Device.antt =====
-- togpu/driver/xt_TOGPU_main.c, the device file: `nfgpu_open` lets one opener in through the atomic
-- counter `nfgpu_av`, which is 1 while the device is free.
pub mod Exclusive
pub mod Race
mod Tests
use porteus_gpu.Base.{
  inc32, ebusy, ◌==◌, if◌then◌else◌, einval, efault, ok, fail, dec32, Status, ℕ, zero, suc, ◌≡◌,
}

-- `nfgpu_open`, run alone: the status and the new counter.
pub nfgpu_open : ℕ → Status × ℕ
nfgpu_open av = let left = dec32 av in if left == 0 then (ok, left) else (fail ebusy, inc32 left)

-- `nfgpu_release`: `atomic_set( &nfgpu_av, 1 )`
pub nfgpu_release : ℕ → Status × ℕ
nfgpu_release av = (ok, 1)

-- The file operations that the device refuses.
pub nfgpu_read : Status
nfgpu_read = fail efault

pub nfgpu_write : Status
nfgpu_write = fail efault

pub nfgpu_mmap : Status
nfgpu_mmap = fail einval

-- `nfgpu_poll`: the event mask.
pub nfgpu_poll : ℕ
nfgpu_poll = 0
