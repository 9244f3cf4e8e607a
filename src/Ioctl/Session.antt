-- ===== src/Ioctl/Session.antt =====
-- What the commands mean for the hooks and the target.
use porteus_gpu.Pool.RoundTrip.{relocate_eq}
use porteus_gpu.Target.Announce.{nfgpu_target_stopped}
use porteus_gpu.Mempool.Pages.{nfgpu_set_mempool_lem}
use porteus_gpu.Pool.Release.{skb_release_data_unmapped, skb_release_data_running}
use porteus_gpu.Config.{max_memory, max_skbs}
use porteus_gpu.Target.{nf_accept, nfgpu_target}
use porteus_gpu.PageWalk.Total.{IsWalk}
use porteus_gpu.Pool.Total.{netdev_alloc_skb_found, netdev_alloc_skb_stopped, qualifies}
use porteus_gpu.PageWalk.Covers.{IsMmu}
use porteus_gpu.Pool.Search.{find_slot_total, IsSlot}
use porteus_gpu.Ioctl.Commands.{start_lem, set_buffers_lem, stop_lem, IsIoc}
use porteus_gpu.Pool.{
  slot_address, relocate, skb_release_data, netdev_alloc_skb, Driver, SkBuff, SkbApi,
}
use porteus_gpu.Ioctl.{
  set_buffers, start, mem_info_size, stop, nfgpu_ioctl, MapState, Mm, stop_command, IocApi,
}
use porteus_gpu.Base.{
  ◌≤◌, ◌∙◌, update, arith, ◌⊎◌, ◌≢◌, ◌<◌, Status, ◌+◌, Option, ℕ, suc, ◌≡◌, refl, some, none, true,
  false, ok, fail, returns, efault,
}

-- STOP returns 0, and after it the allocation hook passes every buffer through, the target
-- accepts every packet at once and announces none, and the release hook hands on the same buffer,
-- and leaves the same slots, as it would have before.
pub stop_quiesces :
    {T : Type 0} (ioc : IocApi) (mm : Mm T) (api : SkbApi) (limit arg fuel t0 t1 : ℕ)
    (reads : ℕ → ℕ) (ret : Option SkBuff) (u : SkBuff) (st : MapState T)
    → IsIoc ioc
    → (st' : MapState T) × (nfgpu_ioctl ioc mm limit (stop ioc) arg st ≡ returns (ok, st'))
      × (netdev_alloc_skb api fuel st'.drv ret ≡ returns (st'.drv, ret))
      × (nfgpu_target fuel reads t0 t1 st'.drv u ≡ returns (nf_accept, st'.drv, none))
      × ((skb_release_data st'.drv u).1 ≡ (skb_release_data st.drv u).1)
      × ((skb_release_data st'.drv u).0.skbs ≡ (skb_release_data st.drv u).0.skbs)
unfolding stop_command
stop_quiesces ioc mm api limit arg fuel t0 t1 reads ret u st laws =
    let same = skb_release_data_running st.drv u false in
    (
      stop_command ioc mm st,
      stop_lem ioc mm laws limit arg st,
      netdev_alloc_skb_stopped api fuel (record st.drv { running = false }) ret refl,
      nfgpu_target_stopped fuel reads t0 t1 (record st.drv { running = false }) u refl,
      same.0,
      same.1,
    )

-- STOP, SET_BUFFERS and START in turn, for a page-aligned request of at most 32 MB below 2 ^ 64
-- whose argument the caller may read: each returns, STOP and START with 0. If SET_BUFFERS
-- returned 0 then the module runs with a mapping and the slots it had; else SET_BUFFERS returned
-- -EFAULT, and START has nevertheless made the module run, with no mapping and with every slot
-- cleared.
pub session_ready :
    {T : Type 0} (ioc : IocApi) (mm : Mm T) (more arg : ℕ) (st : MapState T)
    → IsIoc ioc
    → IsMmu mm.mmu
    → mm.has_mm ≡ true
    → ioc.access_ok false arg mem_info_size ≡ true
    → IsWalk
        (suc (suc more))
        (mm.copy_from_user arg).uva
        ((mm.copy_from_user arg).uva + (mm.copy_from_user arg).size)
    → (mm.copy_from_user arg).size ≤ max_memory
    → (st₁ : MapState T) × (r : Status × MapState T) × (st₃ : MapState T) × (nfgpu_ioctl ioc mm
          (suc (suc more))
          (stop ioc)
          0
          st
        ≡ returns (ok, st₁))
      × (nfgpu_ioctl ioc mm (suc (suc more)) (set_buffers ioc) arg st₁ ≡ returns r)
      × (nfgpu_ioctl ioc mm (suc (suc more)) (start ioc) 0 r.1 ≡ returns (ok, st₃))
      × (st₃.drv.running ≡ true)
      × (((r.0 ≡ ok) × (st₃.drv.kva ≢ 0) × (st₃.drv.skbs ≡ st.drv.skbs))
          ⊎ ((r.0 ≡ fail efault) × (st₃.drv.kva ≡ 0) × ((i : ℕ) → st₃.drv.skbs i ≡ 0)))
unfolding stop_command
session_ready ioc mm more arg st laws table has readable w small =
    let st₁ = stop_command ioc mm st in
    let (r, set, pool) = nfgpu_set_mempool_lem mm more arg st₁ table has w small in
    (
      st₁,
      r,
      record r.1 { drv = record r.1.drv { running = true } },
      stop_lem ioc mm laws (suc (suc more)) 0 st,
      set_buffers_lem ioc mm laws (suc (suc more)) arg st₁ readable ∙ set,
      start_lem ioc mm laws (suc (suc more)) 0 r.1,
      refl,
      pool.outcome,
    )

-- From a state with no mapping, START returns 0, an allocation of a buffer with no fragments of
-- at most 4 KB then moves the buffer to an address below 32 MB, if a slot is free, and the
-- release hook does not give it back.
pub start_without_buffers :
    {T : Type 0} (ioc : IocApi) (mm : Mm T) (api : SkbApi) (limit arg i : ℕ) (s : SkBuff)
    (st : MapState T)
    → IsIoc ioc
    → st.drv.kva ≡ 0
    → IsSlot st.drv.next
    → IsSlot i
    → st.drv.skbs i ≡ 0
    → qualifies api s ≡ true
    → (st' : MapState T) × (d' : Driver) × (s' : SkBuff) × (nfgpu_ioctl ioc mm limit
          (start ioc)
          arg
          st
        ≡ returns (ok, st'))
      × (netdev_alloc_skb api max_skbs st'.drv (some s) ≡ returns (d', some s'))
      × (s'.head < max_memory)
      × (skb_release_data d' s' ≡ (d', s'))
start_without_buffers ioc mm api limit arg i s st laws unmapped hn hi free fit =
    let (j, found, first) =
      find_slot_total max_skbs st.drv.skbs st.drv.next i hn hi free (ground arith) in
    let d₁ : Driver = record st.drv { running = true } in
    let d₂ : Driver = record d₁ { skbs = update d₁.skbs j s.head; next = j } in
    let s₂ = relocate api s (slot_address d₁.kva j) in
    let place = first.slot in
    (
      record st { drv = d₁ },
      d₂,
      s₂,
      start_lem ioc mm laws limit arg st,
      netdev_alloc_skb_found api max_skbs d₁ s j refl fit found,
      rw (relocate_eq api s (slot_address d₁.kva j), unmapped) (omega arith),
      skb_release_data_unmapped d₂ s₂ unmapped,
    )
