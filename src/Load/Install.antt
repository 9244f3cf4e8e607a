-- ===== src/Load/Install.antt =====
-- Loading the module, with both hooks, and what unloading leaves of them.
use porteus_gpu.Hook.Restore.{NoOverlap}
use porteus_gpu.Load.{
  after_class, allocates_region, adds_cdev, wakes, creates_device, registers_target, creates_class,
  Driver, nfgpu_exit, init_resources, bind, nfgpu_internal_init, install_hooks, skb_release_name,
  netdev_alloc_name, Call, start_thread, find_symbol_address, hook_through, Togpu, Answers,
  create_device,
}
use porteus_gpu.Hook.Jump.{Reachable}
use porteus_gpu.Hook.Install.{IsKeptBut, installs, gave_up, symbol_hook_lem, rejected, HookResult}
use porteus_gpu.Hook.Loop.{IsDecoder}
use porteus_gpu.Symbols.{KernSym}
use porteus_gpu.Base.{
  subst, arith, ◌≤◌, ap, ◌∷◌, ◌==◌, Bool-cases, false, ◌^◌, fail, ◌<◌, ◌∙◌, refl, ◌+◌, inr, ne→==,
  some, returns, ok, Status, inl, ◌≢◌, ◌⊎◌, Outcome, Status-cases, List, ◌≡◌, ℕ, Mem,
}
use porteus_gpu.Hook.{hook_init, op_jmp_size, symbol_hook, Machine, Kernel}

-- The memories agree on the function of `size` bytes at `addr`, and 15 bytes more.
abbrev pub Agrees : ℕ → ℕ → Mem → Mem → Type 0
Agrees addr size m m' = (b : ℕ) → addr ≤ b → b < addr + size + 15 → m' b ≡ m b

-- What `symbol_hook` relies on for one symbol: the lookup finds it, its page is mapped, the decoder reads its
-- code as instructions, the buffer is elsewhere, nothing ends near 2 ^ 64, and a jump reaches the code that
-- replaces it.
pub record IsHookable (k : Kernel) (fuel : ℕ) (start : KernSym) (name : List ℕ) (code : ℕ) (m : Mem)
    : Type 0 where
  pub symbol : KernSym
  pub pte : ℕ
  pub found : find_symbol_address k.kallsyms_on_each_symbol start name ≡ (ok, symbol)
  pub mapped : k.lookup_address symbol.addr ≡ some pte
  pub decoded :
      (m' : Mem) → Agrees symbol.addr symbol.size m m' → IsDecoder k m' symbol.addr symbol.size
  pub apart : NoOverlap symbol.addr (k.module_alloc symbol.size) symbol.size
  pub fits : symbol.addr + symbol.size + 15 < 2 ^ 64
  pub buffer_fits : k.module_alloc symbol.size + symbol.size + 15 < 2 ^ 64
  pub unnamed : symbol.name_alloc ≡ false
  pub code_fits : code < 2 ^ 64
  pub reachable : Reachable symbol.addr op_jmp_size code
  pub enough : symbol.size < fuel

HookResult-returns :
    {k : Kernel} {symbol : KernSym} {buf code : ℕ} {s : Machine}
    {o : Outcome (Status × KernSym × Machine)}
    → HookResult k symbol buf code s o
    → (ret : Status) × (sym' : KernSym) × (s' : Machine) × (o ≡ returns (ret, sym', s'))
      × IsKeptBut buf symbol.size symbol.addr s.mem s'.mem
HookResult-returns {s} (rejected e sym' done run why) = (fail e, sym', s, done, λ b x y. refl)
HookResult-returns (gave_up e sym' s' done run why kept rights freed) =
    (fail e, sym', s', done, λ b x y. kept b x)
HookResult-returns (installs sym' s' last done run sized big copy kept opcode leads rights undone) =
    (ok, sym', s', done, kept)

module _ (k : Kernel) (fuel : ℕ) where
  -- With an allocator and a release function there are no null pointers to call.
  hook_through_lem :
      (t : Togpu) (start : KernSym) (name : List ℕ) (code : ℕ) (s : Machine)
      → t.sym_module_alloc.run ≢ 0
      → t.sym_module_free.run ≢ 0
      → hook_through k fuel t start name code s ≡ symbol_hook k fuel start name code s
  unfolding hook_through
  hook_through_lem t start name code s a f = rw (ne→== _ _ a, ne→== _ _ f) refl

  hook_through_returns :
      (t : Togpu) (start : KernSym) (name : List ℕ) (code : ℕ) (m : Mem) (s : Machine)
      → t.sym_module_alloc.run ≢ 0
      → t.sym_module_free.run ≢ 0
      → (h : IsHookable k fuel start name code m) → Agrees h.symbol.addr h.symbol.size m s.mem
      → (ret : Status) × (sym' : KernSym) × (s' : Machine) × (hook_through k fuel t start name code
            s
          ≡ returns (ret, sym', s'))
        × HookResult k h.symbol (k.module_alloc h.symbol.size) code s (returns (ret, sym', s'))
        × IsKeptBut (k.module_alloc h.symbol.size) h.symbol.size h.symbol.addr s.mem s'.mem
  hook_through_returns t start name code m s a f h agree =
      let result =
        symbol_hook_lem k h.symbol h.pte code s h.mapped (h.decoded s.mem agree) h.apart h.fits
          h.buffer_fits h.unnamed h.code_fits h.reachable fuel start name h.found h.enough in
      let (ret, sym', s', done, kept) = HookResult-returns result in
      (
        ret,
        sym',
        s',
        hook_through_lem t start name code s a f ∙ done,
        subst (HookResult k h.symbol (k.module_alloc h.symbol.size) code s) done result,
        kept,
      )

-- The device file changes nothing but its number.
pub create_device_eq :
    (a : Answers) (t : Togpu)
    → (n : ℕ) × (c : List Call) × (create_device a t ≡ record t { devno = n; calls = c })
unfolding create_device
create_device_eq a t =
    let devno = a.mkdev (a.major a.alloc_chrdev_region.1) 0 in
    elim (Status-cases a.alloc_chrdev_region.0) [
      | inl e ↦
          (devno, creates_device devno ∷ adds_cdev devno ∷ allocates_region ∷ t.calls, rw e refl)
      | inr (c, e) ↦ (devno, allocates_region ∷ t.calls, rw e refl)
    ]

pub start_thread_eq :
    (a : Answers) (t : Togpu)
    → (c : List Call) × (start_thread a t ≡ record t { thread_task = a.kthread_create; calls = c })
unfolding start_thread
start_thread_eq a t = elim (Bool-cases (a.kthread_create == 0)) [
  | inl e ↦ (t.calls, rw e refl)
  | inr e ↦ (wakes a.kthread_create ∷ t.calls, rw e refl)
]

-- What loading leaves: nothing runs, nothing is mapped, the search begins at slot 1, and the slots hold
-- what they held.
pub record IsLoaded (t u : Togpu) : Type 0 where
  pub stopped : u.drv.running ≡ false
  pub unmapped : u.drv.kva ≡ 0
  pub first_slot : u.drv.next ≡ 1
  pub slots : u.drv.skbs ≡ t.drv.skbs

-- The code of the second function lies apart from the buffer of the first and from the jump at the first.
abbrev pub Untouched : Kernel → KernSym → KernSym → Type 0
Untouched k f g =
    let buf = k.module_alloc f.size in
    ((g.addr + g.size + 15 ≤ buf) ⊎ (buf + f.size + 15 ≤ g.addr))
    × ((g.addr + g.size + 15 ≤ f.addr) ⊎ (f.addr + op_jmp_size ≤ g.addr))

-- From a machine with the function's code as it was, `symbol_hook` has come to `s'` with the record `sym'`.
abbrev pub HookedFrom : Kernel → KernSym → ℕ → Mem → KernSym → Machine → Type 0
HookedFrom k symbol code m sym' s' =
    (s : Machine) × (ret : Status) × Agrees symbol.addr symbol.size m s.mem
    × HookResult k symbol (k.module_alloc symbol.size) code s (returns (ret, sym', s'))

module _ (k : Kernel) (a : Answers) (fuel alloc_code release_code : ℕ) (t : Togpu)
    (alloc free : KernSym) (classed : a.class_create ≡ ok)
    (inited : hook_init k.kallsyms_on_each_symbol t.sym_module_alloc t.sym_module_free
      ≡ (ok, alloc, free))
    (allocates_at : alloc.run ≢ 0) (frees_at : free.run ≢ 0)
    (h₁ : IsHookable k fuel t.sym_netdev_alloc netdev_alloc_name alloc_code t.machine.mem)
    (h₂ : IsHookable k fuel t.sym_skb_release_data skb_release_name release_code t.machine.mem)
    (far : Untouched k h₁.symbol h₂.symbol) where
  install_hooks_returns :
      (d : Driver) (n : ℕ) (c : List Call)
      → (u : Togpu) × (install_hooks k fuel alloc_code release_code
            (record t { drv = d; devno = n; calls = c })
          ≡ returns u)
        × (u.drv ≡ d)
        × HookedFrom k h₂.symbol release_code t.machine.mem u.sym_skb_release_data u.machine
  unfolding install_hooks bind
  install_hooks_returns d n c =
      let t₁ : Togpu = record t {
        drv = d;
        devno = n;
        calls = c;
        sym_module_alloc = alloc;
        sym_module_free = free;
      } in
      let (ret₁, sym₁, s₁, done₁, hooked₁, kept₁) =
        hook_through_returns k fuel t₁ t.sym_netdev_alloc netdev_alloc_name alloc_code t.machine.mem
          t.machine allocates_at frees_at h₁ (λ b x y. refl) in
      let agree : Agrees h₂.symbol.addr h₂.symbol.size t.machine.mem s₁.mem =
        λ b x y. kept₁ b (apart_buffer b x y) (apart_jump b x y) in
      let (ret₂, sym₂, s₂, done₂, hooked₂, kept₂) =
        hook_through_returns k fuel t₁ t.sym_skb_release_data skb_release_name release_code
          t.machine.mem s₁ allocates_at frees_at h₂ agree in
      (
        record t₁ { sym_netdev_alloc = sym₁; sym_skb_release_data = sym₂; machine = s₂ },
        rw (inited, done₁, bind, done₂, bind) refl,
        refl,
        (s₁, ret₂, agree, hooked₂),
      )
    where
      apart_buffer :
          (b : ℕ)
          → h₂.symbol.addr ≤ b
          → b < h₂.symbol.addr + h₂.symbol.size + 15
          → (b < k.module_alloc h₁.symbol.size)
            ⊎ (k.module_alloc h₁.symbol.size + h₁.symbol.size + 15 ≤ b)
      apart_buffer b x y = let z = far.0 in ground arith

      apart_jump :
          (b : ℕ)
          → h₂.symbol.addr ≤ b
          → b < h₂.symbol.addr + h₂.symbol.size + 15
          → (b < h₁.symbol.addr) ⊎ (h₁.symbol.addr + op_jmp_size ≤ b)
      apart_jump b x y = let z = far.1 in ground arith

  -- Loading the module ends with the answer of xt_register_target, whatever becomes of the device
  -- file, if the class is created, hook_init finds its two functions, both symbols can be hooked
  -- as symbol_hook requires, and the code of the release function lies apart from the buffer of
  -- the other and the jump at it. The driver is then stopped and has no mapping, the search
  -- begins at slot 1 and the slots hold what they held. The record of the release function, and
  -- the machine, after nfgpu_exit too, are what symbol_hook comes to, as stated for it, from a
  -- machine with the release function's code as it was: so it is left alone for one of the
  -- reasons given there, or it begins with a jump into the module, which is still there after
  -- nfgpu_exit.
  pub nfgpu_internal_init_lem :
      (u : Togpu) × (nfgpu_internal_init k a fuel alloc_code release_code t
        ≡ returns (a.xt_register_target, u))
      × IsLoaded t u
      × HookedFrom k h₂.symbol release_code t.machine.mem u.sym_skb_release_data
          (nfgpu_exit u).machine
  unfolding nfgpu_internal_init after_class init_resources bind nfgpu_exit
  nfgpu_internal_init_lem =
      let (n, c, device) = create_device_eq a (record t { calls = creates_class ∷ t.calls }) in
      let (v, done, drv, hooks) = install_hooks_returns (init_resources t.drv) n c in
      let (c', started) = start_thread_eq a v in
      (
        record v { thread_task = a.kthread_create; calls = registers_target ∷ c' },
        ap (after_class k a fuel alloc_code release_code _) classed
            ∙ rw (after_class, device, done, bind, started) refl,
        rw drv (record { stopped = refl; unmapped = refl; first_slot = refl; slots = refl }),
        hooks,
      )
