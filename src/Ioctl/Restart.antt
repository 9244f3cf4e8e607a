-- ===== src/Ioctl/Restart.antt =====
-- STOP and SET_BUFFERS while buffers of the mapping before are still out.
use porteus_gpu.Pool.RoundTrip.{relocate_eq}
use porteus_gpu.Pool.Total.{netdev_alloc_skb_found, qualifies}
use porteus_gpu.Pool.Live.{System, IsInitial, Reach, Reach-IsSafe}
use porteus_gpu.Pool.Release.{
  IsGivenBack, restore-IsGivenBack, skb_release_data-slot, skb_release_data_native,
  skb_release_data_unmapped,
}
use porteus_gpu.Pool.Window.{IsMapped}
use porteus_gpu.Pool.Search.{find_slot_total, IsSlot}
use porteus_gpu.Mempool.Pages.{nfgpu_set_mempool_lem, IsPooled}
use porteus_gpu.Config.{max_skbs, max_memory, NfgpuMemInfo}
use porteus_gpu.PageWalk.Total.{IsWalk}
use porteus_gpu.PageWalk.Covers.{IsMmu}
use porteus_gpu.Ioctl.Commands.{start_lem, set_buffers_lem, stop_lem, IsIoc}
use porteus_gpu.Pool.{
  find_slot, netdev_alloc_skb, slot_address, restore, skb_release_data, Driver, SkBuff, SkbApi,
}
use porteus_gpu.Ioctl.{
  start, set_buffers, mem_info_size, stop, nfgpu_ioctl, MapState, Mm, stop_command, IocApi,
}
use porteus_gpu.Base.{
  subst, ne→==, ◌<◌, none, refl, ==→ne, sym, inr, ==→eq, ◌==◌, ◌∙◌, returns, Bool-cases, efault, ap,
  some, arith, ◌^◌, suc, fail, ◌≤◌, false, update, inl, ◌+◌, true, ◌≢◌, ok, ◌%◌, Status, ◌≡◌, ℕ,
}

-- What becomes of the buffer `b` in slot `i` of the mapping at `kva`, whose native buffer had the head
-- `native`, when the driver is then `d`.
pub data Left (kva i native : ℕ) (b : SkBuff) (r : Status) (d : Driver) : Type 0 where
  same_place :
      r ≡ ok
      → d.kva ≡ kva
      → (skb_release_data d b).0 ≡ record d { skbs = update d.skbs i 0 }
      → IsGivenBack b native (skb_release_data d b).1
      → Left kva i native b r d
  other_place :
      r ≡ ok
      → d.kva ≢ kva
      → d.skbs i ≡ native
      → skb_release_data d b ≡ (d, b)
      → Left kva i native b r d
  no_place :
      r ≡ fail efault → d.skbs i ≡ 0 → skb_release_data d b ≡ (d, b) → Left kva i native b r d

-- Every mapping is aligned to 32 MB and ends below 2 ^ 64.
abbrev pub MapsAligned : {T : Type 0} → Mm T → Type 0
MapsAligned mm =
    (pages : ℕ → ℕ) (n : ℕ)
    → (mm.vmap pages n % max_memory ≡ 0) × (mm.vmap pages n + max_memory ≤ 2 ^ 64)

module _ {T : Type 0} (mm : Mm T) (aligned : MapsAligned mm) (kva i native : ℕ) (b : SkBuff)
    (mapped : IsMapped kva) (whole : kva % max_memory ≡ 0) (slot : IsSlot i) (there : native ≢ 0)
    (native_fits : native < 2 ^ 64) (head : b.head ≡ slot_address kva i) where
  -- A slot of one aligned mapping is not in the window of another.
  Left-mapped :
      (d : Driver)
      → d.kva % max_memory ≡ 0
      → d.kva + max_memory ≤ 2 ^ 64
      → d.kva ≢ 0
      → d.skbs i ≡ native
      → Left kva i native b ok d
  Left-mapped d al fits ne held = elim (Bool-cases (d.kva == kva)) [
    | inl same ↦
        let at = ==→eq d.kva kva same in
        let given =
          skb_release_data-slot d b i (ne, fits) slot (omega arith) (omega arith)
            (head ∙ ap (λ k. slot_address k i) (sym at))
          ∙ ap (λ h. (record d { skbs = update d.skbs i 0 }, restore b h)) held in
        same_place refl at (ap (λ (r : Driver × SkBuff). r.0) given)
          (rw given (restore-IsGivenBack b native native_fits))
    | inr other ↦
        let moved = ==→ne d.kva kva other in
        other_place refl moved held (skb_release_data_native d b (omega arith))
  ]

  Left-pooled :
      (d e : Driver) (gb : NfgpuMemInfo) (r : Status)
      → d.skbs i ≡ native
      → IsPooled mm d gb r e
      → Left kva i native b r e
  Left-pooled d e gb r held p = elim p.outcome [
    | inl (fine, ne, slots) ↦
        let (al, fits) = aligned e.pages e.npages in
        let at = p.address in
        rw fine (Left-mapped e (omega arith) (omega arith) ne (ap (λ f. f i) slots ∙ held))
    | inr (failed, none_mapped, cleared) ↦
        no_place failed (cleared i) (skb_release_data_unmapped e b none_mapped)
  ]

-- STOP and SET_BUFFERS, for a page-aligned request of at most 32 MB below 2 ^ 64 whose argument
-- the caller may read and with vmap giving mappings that are aligned to 32 MB and end below 2 ^
-- 64, in a state that calls of the two hooks, START and STOP reach from a freshly loaded module
-- whose mapping is aligned: both return, STOP with 0. For a buffer that was live in a slot of the
-- mapping before, either SET_BUFFERS returned 0 and the new mapping is at the same address, and
-- releasing the buffer clears the slot and gives the buffer back: at its native head, with the
-- offsets of data, tail and end and the length that it had; or SET_BUFFERS returned 0 and the
-- mapping is elsewhere, the slot still holds the native head, and releasing the buffer changes
-- neither the driver nor the buffer; or SET_BUFFERS returned -EFAULT, the slot is cleared, and
-- releasing the buffer changes neither the driver nor the buffer.
pub restart_leaves :
    {T : Type 0} (ioc : IocApi) (mm : Mm T) (api : SkbApi) (more arg i : ℕ) (b s : SkBuff)
    {t u : System} (st : MapState T)
    → IsIoc ioc
    → IsMmu mm.mmu
    → MapsAligned mm
    → mm.has_mm ≡ true
    → ioc.access_ok false arg mem_info_size ≡ true
    → IsWalk
        (suc (suc more))
        (mm.copy_from_user arg).uva
        ((mm.copy_from_user arg).uva + (mm.copy_from_user arg).size)
    → (mm.copy_from_user arg).size ≤ max_memory
    → IsInitial t
    → Reach api t u
    → st.drv ≡ u.drv
    → u.live i ≡ some s
    → b.head ≡ slot_address u.drv.kva i
    → (st₁ : MapState T) × (r : Status × MapState T) × (nfgpu_ioctl ioc mm
          (suc (suc more))
          (stop ioc)
          0
          st
        ≡ returns (ok, st₁))
      × (nfgpu_ioctl ioc mm (suc (suc more)) (set_buffers ioc) arg st₁ ≡ returns r)
      × Left u.drv.kva i s.head b r.0 r.1.drv
unfolding stop_command
restart_leaves ioc mm api more arg i b s {t} {u} st laws table aligned has readable w small initial
      reach same live head =
    let v = Reach-IsSafe api reach initial in
    let (slot, held, there) = v.held i s live in
    let st₁ = stop_command ioc mm st in
    let (r, set, pool) = nfgpu_set_mempool_lem mm more arg st₁ table has w small in
    (
      st₁,
      r,
      stop_lem ioc mm laws (suc (suc more)) 0 st,
      set_buffers_lem ioc mm laws (suc (suc more)) arg st₁ readable ∙ set,
      Left-pooled mm aligned u.drv.kva i s.head b v.mapped v.aligned slot there
          (v.head_fits i s live) head st₁.drv r.1.drv (mm.copy_from_user arg) r.0
          (ap (λ (d : Driver). d.skbs i) same ∙ held) pool,
    )

-- In a state, running, that calls of the two hooks, START and STOP reach from a freshly loaded
-- module whose mapping is aligned to 32 MB: STOP returns 0 and takes the mapping away, START then
-- returns 0 and maps nothing, and an allocation of a buffer with no fragments of at most 4 KB, if
-- some slot has no live buffer, moves the buffer into the 32 MB at the address where the mapping
-- was.
pub start_again :
    {T : Type 0} (ioc : IocApi) (mm : Mm T) (api : SkbApi) (limit arg i : ℕ) (s : SkBuff)
    {t u : System} (st : MapState T)
    → IsIoc ioc
    → IsInitial t
    → Reach api t u
    → st.drv ≡ u.drv
    → u.drv.running ≡ true
    → IsSlot i
    → u.live i ≡ none
    → qualifies api s ≡ true
    → (st₁ : MapState T) × (st₂ : MapState T) × (d' : Driver) × (s' : SkBuff) × (nfgpu_ioctl ioc mm
          limit
          (stop ioc)
          arg
          st
        ≡ returns (ok, st₁))
      × (st₁.tables ≡ mm.vunmap u.drv.kva st.tables)
      × (nfgpu_ioctl ioc mm limit (start ioc) arg st₁ ≡ returns (ok, st₂))
      × (st₂.tables ≡ st₁.tables)
      × (netdev_alloc_skb api max_skbs st₂.drv (some s) ≡ returns (d', some s'))
      × (u.drv.kva ≤ s'.head)
      × (s'.head < u.drv.kva + max_memory)
unfolding stop_command
start_again ioc mm api limit arg i s {t} {u} st laws initial reach same running slot vacant fit =
    let v = Reach-IsSafe api reach initial in
    let st₁ = stop_command ioc mm st in
    let st₂ = record st₁ { drv = record st₁.drv { running = true } } in
    let (j, found, first) =
      find_slot_total max_skbs u.drv.skbs u.drv.next i v.next_slot slot (v.vacant i vacant)
        (ground arith) in
    let place = first.slot in
    let mapped = v.mapped in
    let taken =
      netdev_alloc_skb_found api max_skbs st₂.drv s j refl fit
        (subst (λ (d : Driver). find_slot max_skbs d.skbs d.next ≡ some j) (sym same) found) in
    (
      st₁,
      st₂,
      _,
      _,
      stop_lem ioc mm laws limit arg st,
      unmapped,
      start_lem ioc mm laws limit arg st₁,
      refl,
      taken,
      rw (relocate_eq api s (slot_address st.drv.kva j), same) (omega arith),
      rw (relocate_eq api s (slot_address st.drv.kva j), same) (omega arith),
    )
  where
    unmapped : (stop_command ioc mm st).tables ≡ mm.vunmap u.drv.kva st.tables
    unmapped =
        let m = (Reach-IsSafe api reach initial).mapped in
        rw (same, running, ne→== u.drv.kva 0 m.0) refl
