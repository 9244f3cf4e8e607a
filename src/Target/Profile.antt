-- ===== src/Target/Profile.antt =====
-- The profiling counters of `nfgpu_target`.
use porteus_gpu.Target.{Driver, profile}
use Prim.Native.Nat.{min, max}
use porteus_gpu.Base.{arith, ◌-◌, ◌≤◌, ◌^◌, ◌<◌, ℕ}

-- With an end time stamp and an average below 2 ^ 32 the new average lies between the old average
-- and the measured time, both included, and is below 2 ^ 32.
pub profile_bounds :
    (d : Driver) (t0 t1 : ℕ)
    → t1 < 2 ^ 32
    → d.average < 2 ^ 32
    → ((profile d t0 t1).average ≤ max d.average (t1 - t0))
      × (min d.average (t1 - t0) ≤ (profile d t0 t1).average)
      × ((profile d t0 t1).average < 2 ^ 32)
unfolding profile
profile_bounds d t0 t1 h a = ground arith
