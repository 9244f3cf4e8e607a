-- ===== src/Ioctl/Tests.antt =====
-- The ioctl at concrete commands, with the macros of the kernel's asm-generic/ioctl.h.
use porteus_gpu.Ioctl.Restart.{start_again, restart_leaves, MapsAligned, Left}
use porteus_gpu.PageWalk.Tests.{full_tables-IsMmu}
use porteus_gpu.Ioctl.Session.{stop_quiesces, start_without_buffers, session_ready}
use porteus_gpu.Target.{nf_accept, nfgpu_target}
use porteus_gpu.Config.{max_memory, max_skbs}
use porteus_gpu.Pool.Tests.{
  after-Reach, before-IsInitial, slot_buffer, kernel_buffer, plain_api, one_out,
}
use porteus_gpu.Pool.{skb_release_data, netdev_alloc_skb, SkBuff, Driver}
use porteus_gpu.Mempool.Tests.{unmapped, sample_mm}
use porteus_gpu.Mempool.{MapState}
use porteus_gpu.Ioctl.Commands.{IsIoc}
use porteus_gpu.Ioctl.{Mm, set_buffers, start, stop, IocApi, nfgpu_ioctl}
use porteus_gpu.Base.{
  ◌≤◌, ltb, ◌<◌, efault, ◌==◌, ◌%◌, ◌⊎◌, ◌/◌, ◌≢◌, ◌+◌, ◌^◌, Status, ◌*◌, arith, ℕ, ◌≡◌, refl, true,
  ok, fail, none, some, returns,
}

-- Number, type, size and direction from the low bits up.
abbrev linux_ioc : IocApi
linux_ioc = record {
  io = λ t n. t * 2 ^ 8 + n;
  iow = λ t n s. 2 ^ 30 + s * 2 ^ 16 + t * 2 ^ 8 + n;
  ior = λ t n s. 2 ^ 31 + s * 2 ^ 16 + t * 2 ^ 8 + n;
  ioc_type = λ cmd. cmd / 2 ^ 8 % 2 ^ 8;
  ioc_nr = λ cmd. cmd % 2 ^ 8;
  ioc_size = λ cmd. cmd / 2 ^ 16 % 2 ^ 14;
  ioc_reads = λ cmd. cmd / 2 ^ 31 % 2 == 1;
  ioc_writes = λ cmd. cmd / 2 ^ 30 % 2 == 1;
  access_ok = λ write addr size. ltb addr (2 ^ 47);
}

linux_ioc-IsIoc : IsIoc linux_ioc
linux_ioc-IsIoc = record {
  type-io = λ t n ht hn. omega arith;
  nr-io = λ t n ht hn. omega arith;
  reads-io = λ t n ht hn. ground arith;
  writes-io = λ t n ht hn. ground arith;
  type-iow = λ t n s ht hn hs. omega arith;
  nr-iow = λ t n s ht hn hs. omega arith;
  size-iow = λ t n s ht hn hs. omega arith;
  reads-iow = λ t n s ht hn hs. ground arith;
  writes-iow = λ t n s ht hn hs. ground arith;
  nr-ior = λ t n s ht hn hs. omega arith;
}

abbrev running_state : MapState (Unit {0})
running_state = record unmapped { drv = one_out }

stop_quiesces_example :
    (st' : MapState (Unit {0})) × (nfgpu_ioctl linux_ioc sample_mm 2
        (stop linux_ioc)
        0
        running_state
      ≡ returns (ok, st'))
    × (netdev_alloc_skb plain_api 1 st'.drv (some kernel_buffer)
        ≡ returns (st'.drv, some kernel_buffer))
    × (nfgpu_target 1 (λ _. 0) 0 0 st'.drv slot_buffer ≡ returns (nf_accept, st'.drv, none))
    × ((skb_release_data st'.drv slot_buffer).1 ≡ (skb_release_data one_out slot_buffer).1)
    × ((skb_release_data st'.drv slot_buffer).0.skbs
        ≡ (skb_release_data one_out slot_buffer).0.skbs)
stop_quiesces_example =
    stop_quiesces linux_ioc sample_mm plain_api 2 0 1 0 0 (λ _. 0) (some kernel_buffer) slot_buffer
      running_state linux_ioc-IsIoc

session_ready_example :
    (st₁ : MapState (Unit {0})) × (r : Status × MapState (Unit {0})) × (st₃ : MapState (Unit {0}))
    × (nfgpu_ioctl linux_ioc sample_mm 2 (stop linux_ioc) 0 unmapped ≡ returns (ok, st₁))
    × (nfgpu_ioctl linux_ioc sample_mm 2 (set_buffers linux_ioc) 64 st₁ ≡ returns r)
    × (nfgpu_ioctl linux_ioc sample_mm 2 (start linux_ioc) 0 r.1 ≡ returns (ok, st₃))
    × (st₃.drv.running ≡ true)
    × (((r.0 ≡ ok) × (st₃.drv.kva ≢ 0) × (st₃.drv.skbs ≡ unmapped.drv.skbs))
        ⊎ ((r.0 ≡ fail efault) × (st₃.drv.kva ≡ 0) × ((i : ℕ) → st₃.drv.skbs i ≡ 0)))
session_ready_example =
    session_ready linux_ioc sample_mm 0 64 unmapped linux_ioc-IsIoc (full_tables-IsMmu (Unit {0}))
      refl refl (omega arith) (omega arith)

start_without_buffers_example :
    (st' : MapState (Unit {0})) × (d' : Driver) × (s' : SkBuff) × (nfgpu_ioctl linux_ioc sample_mm 2
        (start linux_ioc)
        0
        unmapped
      ≡ returns (ok, st'))
    × (netdev_alloc_skb plain_api max_skbs st'.drv (some kernel_buffer) ≡ returns (d', some s'))
    × (s'.head < max_memory)
    × (skb_release_data d' s' ≡ (d', s'))
start_without_buffers_example =
    start_without_buffers linux_ioc sample_mm plain_api 2 0 1 kernel_buffer unmapped linux_ioc-IsIoc
      refl (omega arith) (omega arith) refl refl

-- The next mapping is elsewhere.
abbrev moved_mm : Mm (Unit {0})
moved_mm = record sample_mm { vmap = λ pages n. 2 ^ 41 }

moved_mm-MapsAligned : MapsAligned moved_mm
moved_mm-MapsAligned pages n = (omega arith, omega arith)

restart_leaves_example :
    (st₁ : MapState (Unit {0})) × (r : Status × MapState (Unit {0})) × (nfgpu_ioctl linux_ioc
        moved_mm 2
        (stop linux_ioc)
        0
        running_state
      ≡ returns (ok, st₁))
    × (nfgpu_ioctl linux_ioc moved_mm 2 (set_buffers linux_ioc) 64 st₁ ≡ returns r)
    × Left (2 ^ 40) 1 0x1000 slot_buffer r.0 r.1.drv
restart_leaves_example =
    restart_leaves linux_ioc moved_mm plain_api 0 64 1 slot_buffer kernel_buffer running_state
      linux_ioc-IsIoc (full_tables-IsMmu (Unit {0})) moved_mm-MapsAligned refl refl (omega arith)
      (omega arith) before-IsInitial after-Reach refl refl refl

start_again_example :
    (st₁ : MapState (Unit {0})) × (st₂ : MapState (Unit {0})) × (d' : Driver) × (s' : SkBuff)
    × (nfgpu_ioctl linux_ioc sample_mm 2 (stop linux_ioc) 0 running_state ≡ returns (ok, st₁))
    × (st₁.tables ≡ sample_mm.vunmap (2 ^ 40) tt)
    × (nfgpu_ioctl linux_ioc sample_mm 2 (start linux_ioc) 0 st₁ ≡ returns (ok, st₂))
    × (st₂.tables ≡ st₁.tables)
    × (netdev_alloc_skb plain_api max_skbs st₂.drv (some kernel_buffer) ≡ returns (d', some s'))
    × (2 ^ 40 ≤ s'.head)
    × (s'.head < 2 ^ 40 + max_memory)
start_again_example =
    start_again linux_ioc sample_mm plain_api 2 0 2 kernel_buffer running_state linux_ioc-IsIoc
      before-IsInitial after-Reach refl refl (omega arith) refl refl
