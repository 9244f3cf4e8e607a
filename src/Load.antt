-- ===== src/Load.antt =====
-- togpu/driver/xt_TOGPU_main.c, `nfgpu_internal_init` and `nfgpu_exit`: the device file is registered, the
-- static variables are set, both hooks are installed, the support thread is started, and the netfilter
-- target is registered. What it prints is left out.
pub mod Install
pub mod Buffers
mod Tests
use porteus_gpu.Symbols.{find_symbol_address, KernSym}
use porteus_gpu.Pool.{Driver}
use porteus_gpu.Hook.{Block, op_jmp_rel32, symbol_hook, Machine, hook_init, Kernel}
use porteus_gpu.Base.{
  not, fault, ◌&&◌, ltb, ok, waits, returns, suc, ◌==◌, fail, false, Outcome, if◌then◌else◌, Status,
  ◌∷◌, ℕ, List, [], Bool,
}

-- What the kernel answers. The device number is the one that `alloc_chrdev_region` leaves, and
-- `class_create` and `device_create` fail with an error pointer; `kthread_create` gives an address.
pub record Answers : Type 0 where
  pub class_create : Status
  pub alloc_chrdev_region : Status × ℕ
  pub major : ℕ → ℕ
  pub mkdev : ℕ → ℕ → ℕ
  pub cdev_add : Status
  pub device_create : Status
  pub kthread_create : ℕ
  pub xt_register_target : Status

-- What the module does that the kernel sees, and the hooks do not show.
pub data Call : Type 0 where
  creates_class allocates_region registers_target unregisters_target : Call
  adds_cdev creates_device wakes stops : ℕ → Call

-- The static variables of the module and of xt_TOGPU_hook.c, the machine, and the calls, the last first.
pub record Togpu : Type 0 where
  pub drv : Driver
  pub devno : ℕ
  pub thread_task : ℕ
  pub sym_netdev_alloc : KernSym
  pub sym_skb_release_data : KernSym
  pub sym_module_alloc : KernSym
  pub sym_module_free : KernSym
  pub machine : Machine
  pub calls : List Call

-- "__netdev_alloc_skb" and "skb_release_data"
abbrev pub netdev_alloc_name : List ℕ
netdev_alloc_name =
    95 ∷ 95 ∷ 110 ∷ 101 ∷ 116 ∷ 100 ∷ 101 ∷ 118 ∷ 95 ∷ 97 ∷ 108 ∷ 108 ∷ 111 ∷ 99 ∷ 95 ∷ 115 ∷ 107
    ∷ 98 ∷ []

abbrev pub skb_release_name : List ℕ
skb_release_name =
    115 ∷ 107 ∷ 98 ∷ 95 ∷ 114 ∷ 101 ∷ 108 ∷ 101 ∷ 97 ∷ 115 ∷ 101 ∷ 95 ∷ 100 ∷ 97 ∷ 116 ∷ 97 ∷ []

unfoldable pub bind {ℓ} : {A B : Type ℓ} → Outcome A → (A → Outcome B) → Outcome B
bind (returns a) f = f a
bind waits f = waits
bind fault f = fault

-- The device number and the device file; every error is logged and dropped.
unfoldable pub create_device : Answers → Togpu → Togpu
create_device a t =
    let (result, region) = a.alloc_chrdev_region in
    let devno = a.mkdev (a.major region) 0 in
    let called = allocates_region ∷ t.calls in
    elim result [
      | fail e ↦ record t { devno = devno; calls = called }
      | ok ↦ record t { devno = devno; calls = creates_device devno ∷ adds_cdev devno ∷ called }
    ]

-- `// Init resources`: the slots, the pages and the size keep what they hold.
unfoldable pub init_resources : Driver → Driver
init_resources d = record d {
  kva = 0;
  uva = 0;
  next = 1;
  npages = 0;
  packets = 0;
  average = 0;
  running = false;
}

-- How many blocks have been freed.
unfoldable pub count : List Block → ℕ
count [] = 0
count (b ∷ bs) = suc (count bs)

-- The support thread.
unfoldable pub start_thread : Answers → Togpu → Togpu
start_thread a t =
    let started = record t { thread_task = a.kthread_create } in
    if a.kthread_create == 0
    then started
    else record started { calls = wakes a.kthread_create ∷ t.calls }

module _ (k : Kernel) where
  -- Whether `symbol_hook` comes to call `malloc`.
  unfoldable pub allocates : KernSym → List ℕ → Machine → Bool
  allocates sym name s =
      let (ret, found) = find_symbol_address k.kallsyms_on_each_symbol sym name in
      elim ret [ fail e ↦ false | ok ↦ not (s.mem found.addr == op_jmp_rel32) ]

  -- Whether it has called the kernel's `module_free`.
  unfoldable pub frees : Machine → Outcome (Status × KernSym × Machine) → Bool
  frees s waits = false
  frees s fault = false
  frees s (returns (ret, sym, s')) = ltb (count s.freed) (count s'.freed)

  -- `symbol_hook` with `malloc` and `malloc_free` of xt_TOGPU_hook.c, which call what `hook_init` has
  -- found: a call through a null pointer faults.
  unfoldable pub hook_through :
      ℕ → Togpu → KernSym → List ℕ → ℕ → Machine → Outcome (Status × KernSym × Machine)
  hook_through fuel t sym name code s =
      let o = symbol_hook k fuel sym name code s in
      if (t.sym_module_alloc.run == 0) && allocates sym name s
      then fault
      else if (t.sym_module_free.run == 0) && frees s o
      then fault
      else o

  -- `hook_init`, and `symbol_hook` for both functions; all results are dropped. `alloc_code` and
  -- `release_code` are the addresses of the functions that replace them.
  unfoldable pub install_hooks : ℕ → ℕ → ℕ → Togpu → Outcome Togpu
  install_hooks fuel alloc_code release_code t =
      let (ret, alloc, free) =
        hook_init k.kallsyms_on_each_symbol t.sym_module_alloc t.sym_module_free in
      let t₁ = record t { sym_module_alloc = alloc; sym_module_free = free } in
      bind (hook_through fuel t₁ t₁.sym_netdev_alloc netdev_alloc_name alloc_code t₁.machine)
        λ (first : Status × KernSym × Machine).
          let (ret₁, netdev_alloc, s₁) = first in
          bind (hook_through fuel t₁ t₁.sym_skb_release_data skb_release_name release_code s₁)
            λ (second : Status × KernSym × Machine).
              let (ret₂, skb_release, s₂) = second in
              returns (record t₁ {
                sym_netdev_alloc = netdev_alloc;
                sym_skb_release_data = skb_release;
                machine = s₂;
              })

  -- What follows `class_create`, by its result.
  unfoldable pub after_class : Answers → ℕ → ℕ → ℕ → Togpu → Status → Outcome (Status × Togpu)
  after_class a fuel alloc_code release_code t (fail e) = returns (fail e, t)
  after_class a fuel alloc_code release_code t ok =
      let device = create_device a t in
      bind
        (install_hooks fuel alloc_code release_code
          (record device { drv = init_resources device.drv }))
        λ (hooked : Togpu).
          let started = start_thread a hooked in
          returns
            (a.xt_register_target, record started { calls = registers_target ∷ started.calls })

  -- `nfgpu_internal_init`
  unfoldable pub nfgpu_internal_init : Answers → ℕ → ℕ → ℕ → Togpu → Outcome (Status × Togpu)
  nfgpu_internal_init a fuel alloc_code release_code t =
      let classed = record t { calls = creates_class ∷ t.calls } in
      after_class a fuel alloc_code release_code classed a.class_create

-- `nfgpu_exit`
unfoldable pub nfgpu_exit : Togpu → Togpu
nfgpu_exit t =
    let stopped = if t.thread_task == 0 then t.calls else stops t.thread_task ∷ t.calls in
    record t { calls = unregisters_target ∷ stopped }
