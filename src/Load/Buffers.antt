-- ===== src/Load/Buffers.antt =====
-- The driver once it is loaded and has its buffers is where the theorems about the hooks begin.
use porteus_gpu.Hook.{Kernel}
use porteus_gpu.Mempool.Pages.{IsPooled, nfgpu_set_mempool_lem}
use porteus_gpu.Pool.Live.{IsInitial}
use porteus_gpu.Config.{NfgpuMemInfo, max_memory}
use porteus_gpu.PageWalk.Total.{IsWalk}
use porteus_gpu.PageWalk.Covers.{IsMmu}
use porteus_gpu.Mempool.{nfgpu_set_mempool, MapState, Mm}
use porteus_gpu.Load.Install.{start_thread_eq, create_device_eq}
use porteus_gpu.Base.{
  inl, inr, ◌∙◌, subst, false, none, ◌%◌, ◌^◌, ◌≤◌, ◌+◌, suc, true, refl, fail, ok, Status, sym, ap,
  arith, fault, ℕ, waits, ◌≡◌, returns, Outcome,
}
use porteus_gpu.Load.{
  Driver, nfgpu_internal_init, init_resources, Answers, Togpu, install_hooks, after_class, bind,
}

bind-returns :
    {A B : Type 0} (o : Outcome A) (f : A → Outcome B) {b : B}
    → bind o f ≡ returns b
    → (a : A) × (o ≡ returns a) × (f a ≡ returns b)
unfolding bind
bind-returns (returns a) f h = (a, refl, h)
bind-returns waits f h = absurd (ground arith)
bind-returns fault f h = absurd (ground arith)

outcome_of {ℓ} : {A : Type ℓ} → A → Outcome A → A
outcome_of a (returns b) = b
outcome_of a waits = a
outcome_of a fault = a

returned : {A : Type 0} {a b : A} → returns a ≡ returns b → a ≡ b
unfolding outcome_of
returned {a} p = ap (outcome_of a) p

module _ (k : Kernel) (fuel alloc_code release_code : ℕ) where
  install_hooks_drv :
      (t u : Togpu) → install_hooks k fuel alloc_code release_code t ≡ returns u → u.drv ≡ t.drv
  unfolding install_hooks
  install_hooks_drv t u h =
      let (first, _, h₁) = bind-returns _ _ h in
      let (second, _, h₂) = bind-returns _ _ h₁ in ap (λ (v : Togpu). v.drv) (sym (returned h₂))

  after_class_drv :
      (a : Answers) (t u : Togpu) (c : Status)
      → after_class k a fuel alloc_code release_code t c ≡ returns (ok, u)
      → u.drv ≡ init_resources t.drv
  unfolding after_class
  after_class_drv a t u (fail e) h = absurd (ground arith)
  after_class_drv a t u ok h =
      let (n, c, device) = create_device_eq a t in
      let (hooked, e, h₁) = bind-returns _ _ h in
      let (c', started) = start_thread_eq a hooked in
      ap (λ (r : Status × Togpu). r.1.drv) (sym (returned h₁))
      ∙ ap (λ (v : Togpu). v.drv) started
      ∙ install_hooks_drv _ hooked e
      ∙ ap (λ (v : Togpu). init_resources v.drv) device

pooled-IsInitial :
    {T : Type 0} (mm : Mm T) (d₀ : Driver) (gb : NfgpuMemInfo) (d e : Driver)
    → ((i : ℕ) → d₀.skbs i ≡ 0)
    → d ≡ init_resources d₀
    → e.kva + max_memory ≤ 2 ^ 64
    → e.kva % max_memory ≡ 0
    → IsPooled mm d gb ok e
    → IsInitial (record { drv = e; live = λ i. none }) × (e.running ≡ false)
unfolding init_resources
pooled-IsInitial mm d₀ gb d e zeros drv fits aligned p = elim p.outcome [
  | inr (failed, _, _) ↦ absurd (ground arith)
  | inl (_, there, slots) ↦ (
    (
      (there, fits),
      aligned,
      rw (p.next, drv) (omega arith),
      λ i. ap (λ f. f i) (slots ∙ ap (λ (v : Driver). v.skbs) drv) ∙ zeros i,
      λ i. refl,
    ),
    p.running ∙ ap (λ (v : Driver). v.running) drv,
  )
]

-- If nfgpu_internal_init returns 0, with whatever hooks, from variables whose slots are zero, and
-- nfgpu_set_mempool then returns 0 for a page-aligned request of at most 32 MB below 2 ^ 64, with
-- a mapping that is aligned to 32 MB and ends below 2 ^ 64, the driver is in an initial state of
-- the hooks, as the theorems about reachable states suppose, and is not running.
pub load_buffers-IsInitial :
    {T : Type 0} (k : Kernel) (fuel alloc_code release_code : ℕ) (a : Answers) (t u : Togpu)
    (mm : Mm T) (more buf : ℕ) (tables : T) (st : MapState T)
    → ((i : ℕ) → t.drv.skbs i ≡ 0)
    → nfgpu_internal_init k a fuel alloc_code release_code t ≡ returns (ok, u)
    → IsMmu mm.mmu
    → mm.has_mm ≡ true
    → IsWalk
        (suc (suc more))
        (mm.copy_from_user buf).uva
        ((mm.copy_from_user buf).uva + (mm.copy_from_user buf).size)
    → (mm.copy_from_user buf).size ≤ max_memory
    → nfgpu_set_mempool mm (suc (suc more)) buf (record { tables = tables; drv = u.drv })
      ≡ returns (ok, st)
    → st.drv.kva + max_memory ≤ 2 ^ 64
    → st.drv.kva % max_memory ≡ 0
    → IsInitial (record { drv = st.drv; live = λ i. none }) × (st.drv.running ≡ false)
unfolding nfgpu_internal_init init_resources
load_buffers-IsInitial {T} k fuel alloc_code release_code a t u mm more buf tables st zeros loaded
      laws has walk small set fits aligned =
    let drv = after_class_drv k fuel alloc_code release_code a _ u a.class_create loaded in
    let (r, set', pool) =
      nfgpu_set_mempool_lem mm more buf (record { tables = tables; drv = u.drv }) laws has walk
        small in
    pooled-IsInitial mm t.drv (mm.copy_from_user buf) u.drv st.drv zeros drv fits aligned (
      subst (λ (p : Status × MapState T). IsPooled mm u.drv (mm.copy_from_user buf) p.0 p.1.drv)
        (returned (sym set' ∙ set)) pool)
