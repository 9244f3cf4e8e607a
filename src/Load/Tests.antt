-- ===== src/Load/Tests.antt =====
-- A kernel of five symbols, with both functions that are hooked, and the module as it is linked: loading it,
-- and giving it buffers.
use porteus_gpu.Hook.{
  after_lookup, symbol_hook, module_free_name, module_alloc_name, hook_init, Kernel,
}
use porteus_gpu.PageWalk.Tests.{full_tables-IsMmu}
use porteus_gpu.PageWalk.{
  range_loop, walk_pte_range, pmd_round, walk_pmd_range, pud_round, walk_pud_range, pgd_round,
  hugetlb_vma, page_round, walk_page,
}
use porteus_gpu.Load.Buffers.{load_buffers-IsInitial}
use porteus_gpu.Pool.Live.{IsInitial}
use porteus_gpu.Mempool.{store_page, nfgpu_skb_pte_process, map_pages, nfgpu_set_mempool, MapState}
use porteus_gpu.Base.{inr, Mem, refl, ◌<◌, update, false}
use porteus_gpu.Symbols.{find_symbol_address}
use porteus_gpu.Mempool.Tests.{sample_mm, unmapped}
use porteus_gpu.Load.Install.{HookedFrom, nfgpu_internal_init_lem, IsLoaded, IsHookable}
use porteus_gpu.Hook.Tests.{machine, byte_insn, fresh}
use porteus_gpu.Symbols.Lookup.{call_each}
use porteus_gpu.Symbols.{same_name, names, find_symbol_callback, Symbol}
use porteus_gpu.Base.{
  returns, inl, ◌≤◌, [], none, refl, ◌<◌, ◌∷◌, ◌*◌, ◌^◌, true, ◌/◌, ebusy, ◌≡◌, ◌+◌, some, fail, ok,
  ℕ, arith, List,
}
use porteus_gpu.Load.{
  count, bind, frees, allocates, hook_through, creates_class, install_hooks, allocates_region,
  start_thread, wakes, init_resources, create_device, registers_target, after_class, nfgpu_exit,
  nfgpu_internal_init, skb_release_name, netdev_alloc_name, KernSym, Togpu, Answers,
}
use porteus_gpu.Hook.Loop.{IsDecoder}

abbrev symbols : List Symbol
symbols =
    record { name = some netdev_alloc_name; addr = 4096 }
    ∷ record { name = some skb_release_name; addr = 4104 }
    ∷ record { name = some module_alloc_name; addr = 4120 }
    ∷ record { name = some module_free_name; addr = 4136 }
    ∷ record { name = none; addr = 4152 }
    ∷ []

-- A buffer for each size.
abbrev kernel : Kernel
kernel = record {
  kallsyms_on_each_symbol = call_each symbols;
  lookup_address = λ a. some (a / 4096);
  module_alloc = λ n. 65536 + n * 4096;
  decode = λ m a. byte_insn;
}

kernel-IsDecoder : (m : Mem) (lo size : ℕ) → IsDecoder kernel m lo size
kernel-IsDecoder m lo size = record {
  short = λ a st l. omega arith;
  alike = λ m' a st l same. refl;
  valid =
      λ a st l h. record { immediate_in = λ o. omega arith; displacement_in = λ e. grind arith };
}

-- The device number of the character device is taken; all else succeeds.
abbrev answers : Answers
answers = record {
  class_create = ok;
  alloc_chrdev_region = (fail ebusy, 0);
  major = λ d. d / 2 ^ 20;
  mkdev = λ m n. m * 2 ^ 20 + n;
  cdev_add = ok;
  device_create = ok;
  kthread_create = 8192;
  xt_register_target = ok;
}

abbrev linked : Togpu
linked = record {
  drv = unmapped.drv;
  devno = 0;
  thread_task = 0;
  sym_netdev_alloc = fresh;
  sym_skb_release_data = fresh;
  sym_module_alloc = fresh;
  sym_module_free = fresh;
  machine = machine;
  calls = [];
}

abbrev symbol_at : List ℕ → ℕ → ℕ → KernSym
symbol_at name addr size = record fresh {
  addr = addr;
  end_addr = addr + size;
  size = size;
  new_size = size;
  name = some name;
  found = true;
  run = addr;
}

found_all :
    (hook_init kernel.kallsyms_on_each_symbol fresh fresh
      ≡ (ok, symbol_at module_alloc_name 4120 16, symbol_at module_free_name 4136 16))
    × (find_symbol_address kernel.kallsyms_on_each_symbol fresh netdev_alloc_name
        ≡ (ok, symbol_at netdev_alloc_name 4096 8))
    × (find_symbol_address kernel.kallsyms_on_each_symbol fresh skb_release_name
        ≡ (ok, symbol_at skb_release_name 4104 16))
unfolding hook_init find_symbol_address find_symbol_callback call_each names same_name
found_all = (refl, refl, refl)

hookable :
    (name : List ℕ) (addr size code : ℕ)
    → find_symbol_address kernel.kallsyms_on_each_symbol fresh name ≡ (ok, symbol_at name addr size)
    → addr < 5000
    → size < 20
    → 8192 ≤ code
    → code < 2 ^ 20
    → IsHookable kernel 20 fresh name code machine.mem
hookable name addr size code e h l b c = record {
  symbol = symbol_at name addr size;
  pte = addr / 4096;
  found = e;
  mapped = refl;
  decoded = λ m same. kernel-IsDecoder m addr size;
  apart = inl (omega arith);
  fits = omega arith;
  buffer_fits = omega arith;
  unnamed = refl;
  code_fits = omega arith;
  reachable = inl (omega arith);
  enough = omega arith;
}

nfgpu_internal_init_lem_example :
    (u : Togpu) × (nfgpu_internal_init kernel answers 20 8192 12288 linked ≡ returns (ok, u))
    × IsLoaded linked u
    × HookedFrom kernel
        (symbol_at skb_release_name 4104 16)
        12288
        machine.mem
        u.sym_skb_release_data
        (nfgpu_exit u).machine
unfolding hookable
nfgpu_internal_init_lem_example =
    nfgpu_internal_init_lem kernel answers 20 8192 12288 linked
      (symbol_at module_alloc_name 4120 16) (symbol_at module_free_name 4136 16) refl found_all.0
      (omega arith) (omega arith)
      (hookable netdev_alloc_name 4096 8 8192 found_all.1 (omega arith) (omega arith) (omega arith)
        (omega arith))
      (hookable skb_release_name 4104 16 12288 found_all.2 (omega arith) (omega arith) (omega arith)
        (omega arith))
      (inl (omega arith), inr (omega arith))

-- A kernel without any symbol: no hook is installed, and the module is loaded all the same.
abbrev bare : Kernel
bare = record kernel { kallsyms_on_each_symbol = call_each [] }

abbrev looked_up : List ℕ → KernSym
looked_up name = record fresh { name = some name }

abbrev loaded_bare : Togpu
loaded_bare = record linked {
  drv = record linked.drv {
    kva = 0;
    uva = 0;
    next = 1;
    npages = 0;
    packets = 0;
    average = 0;
    running = false;
  };
  thread_task = 8192;
  sym_netdev_alloc = looked_up netdev_alloc_name;
  sym_skb_release_data = looked_up skb_release_name;
  sym_module_alloc = looked_up module_alloc_name;
  calls = registers_target ∷ wakes 8192 ∷ allocates_region ∷ creates_class ∷ [];
}

bare_loads : nfgpu_internal_init bare answers 20 8192 12288 linked ≡ returns (ok, loaded_bare)
unfolding nfgpu_internal_init after_class create_device init_resources start_thread install_hooks
    hook_through allocates frees hook_init find_symbol_address call_each bind symbol_hook
    after_lookup count
bare_loads = refl

abbrev buffered : MapState (Unit {0})
buffered = record {
  tables = tt;
  drv = record loaded_bare.drv {
    uva = 0x5000;
    size = 0x2000;
    npages = 2;
    kva = 2 ^ 40;
    pages = update (update linked.drv.pages 0 105) 1 106;
  };
}

buffers_set :
    nfgpu_set_mempool sample_mm 2 0 (record { tables = tt; drv = loaded_bare.drv })
    ≡ returns (ok, buffered)
unfolding nfgpu_set_mempool map_pages nfgpu_skb_pte_process walk_page page_round hugetlb_vma
    pgd_round walk_pud_range pud_round walk_pmd_range pmd_round walk_pte_range range_loop store_page
buffers_set = refl

load_buffers-IsInitial_example :
    IsInitial (record { drv = buffered.drv; live = λ i. none }) × (false ≡ false)
load_buffers-IsInitial_example =
    load_buffers-IsInitial bare 20 8192 12288 answers linked loaded_bare sample_mm 0 0 tt buffered
      (λ i. refl) bare_loads (full_tables-IsMmu (Unit {0})) refl (omega arith) (omega arith)
      buffers_set (omega arith) refl
