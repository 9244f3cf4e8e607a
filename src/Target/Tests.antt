-- ===== src/Target/Tests.antt =====
-- Runs of the netfilter target, and the theorems about it at these inputs.
use porteus_gpu.Target.Announce.{nfgpu_target_announces}
use porteus_gpu.Pool.Tests.{
  after-Reach, before-IsInitial, plain_api, slot_buffer, kernel_buffer, one_out,
}
use porteus_gpu.Target.{nf_accept, poll, nfgpu_target, profile, target_index}
use porteus_gpu.Base.{arith, ◌≢◌, ◌==◌, if◌then◌else◌, ℕ, zero, ◌≡◌, refl, some, returns}

-- The GPU clears the word before the third poll.
abbrev clears_third : ℕ → ℕ
clears_third k = if k == 2 then 0 else 1

target_runs :
    nfgpu_target 3 clears_third 1000 1257 one_out slot_buffer
    ≡ returns (
      nf_accept,
      record one_out { average = 1; packets = 1 },
      some (record { index = 1; len = 100 }),
    )
unfolding nfgpu_target target_index poll profile
target_runs = refl

nfgpu_target_announces_example :
    (nfgpu_target 3 clears_third 1000 1257 one_out slot_buffer
      ≡ returns (nf_accept, profile one_out 1000 1257, some (record { index = 1; len = 100 })))
    × (1 ≢ zero)
nfgpu_target_announces_example =
    nfgpu_target_announces plain_api 3 clears_third 1000 1257 1 2 kernel_buffer slot_buffer
      before-IsInitial after-Reach refl refl refl (omega arith) refl
