-- ===== src/Device/Tests.antt =====
-- Runs of the device file, and the theorems about it at these inputs.
use porteus_gpu.Device.{nfgpu_release, nfgpu_open}
use porteus_gpu.Device.Exclusive.{release_call, open_call, Call, run_calls}
use porteus_gpu.Device.Race.{one_holder, IsSafe, Reach}
use porteus_gpu.Device.Race.{
  open_loses, open_wins, here, later, release_admits_two, free_device, Anytime, Quiet, Device,
}
use porteus_gpu.Base.{arith, ◌-◌, ◌^◌, List, ◌≡◌, refl, [], ◌∷◌, ok, fail, ebusy}

abbrev calls : List Call
calls = open_call ∷ open_call ∷ release_call ∷ open_call ∷ []

calls_run : run_calls 1 calls ≡ ok ∷ fail ebusy ∷ ok ∷ ok ∷ []
unfolding run_calls nfgpu_open nfgpu_release
calls_run = refl

-- One file is open, and a second open has found the device busy.
abbrev contended : Device
contended = record { av = 2 ^ 32 - 1; holders = 1; pending = 1 }

contended-Reach : Reach Quiet free_device contended
contended-Reach = later (later here (open_wins refl)) (open_loses (omega arith) (omega arith))

one_holder_example : IsSafe contended
one_holder_example = one_holder contended-Reach

release_admits_two_example : (t : Device) × Reach Anytime contended t × (t.holders ≡ 2)
release_admits_two_example = release_admits_two contended (omega arith) (omega arith)
