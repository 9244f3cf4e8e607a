-- ===== src/Pool/Tests.antt =====
-- Runs of the hooks, and the theorems about them at these inputs.
use porteus_gpu.Config.{skb_size, max_memory}
use porteus_gpu.Pool.Total.{netdev_alloc_skb_total}
use porteus_gpu.Pool.Release.{IsGivenBack, skb_release_data_outside}
use porteus_gpu.Pool.Search.{IsSlot}
use porteus_gpu.Pool.Live.{
  alloc_takes_vacant, alloc, release_gives_back, here, later, Reach, IsInitial, System,
}
use porteus_gpu.Pool.RoundTrip.{skb_release_data-netdev_alloc_skb, IsFresh}
use porteus_gpu.Pool.{
  slot_address, max_skbs, relocate, Driver, skb_release_data, find_slot, SkBuff, SkbApi,
  netdev_alloc_skb,
}
use porteus_gpu.Base.{
  ◌≤◌, ◌*◌, ◌+◌, arith, ◌==◌, update, ◌^◌, ltb, if◌then◌else◌, ℕ, ◌≡◌, refl, some, none, true,
  returns,
}

-- Tails are addresses, and no buffer has fragments.
abbrev pub plain_api : SkbApi
plain_api = record {
  nr_frags = λ _. 0;
  reset_tail_pointer = λ s. record s { tail = s.data_ };
  reset_lem = λ s. refl;
}

abbrev pub kernel_buffer : SkBuff
kernel_buffer = record { head = 0x1000; data_ = 0x1040; tail = 0x1040; end = 0x1800; len = 100 }

-- 2 ^ 40 is a multiple of 32 MB.
abbrev pub loaded : Driver
loaded = record {
  running = true;
  pages = λ _. 0;
  uva = 0;
  kva = 2 ^ 40;
  size = max_memory;
  npages = 8192;
  skbs = λ _. 0;
  next = 1;
  packets = 0;
  average = 0;
}

-- The same with the buffer in slot 1.
abbrev pub one_out : Driver
one_out = record loaded { skbs = update loaded.skbs 1 0x1000; next = 1 }

abbrev pub slot_buffer : SkBuff
slot_buffer = record {
  head = 2 ^ 40 + 0x1000;
  data_ = 2 ^ 40 + 0x1040;
  tail = 2 ^ 40 + 0x1040;
  end = 2 ^ 40 + 0x1800;
  len = 100;
}

alloc_runs :
    netdev_alloc_skb plain_api 1 loaded (some kernel_buffer) ≡ returns (one_out, some slot_buffer)
unfolding netdev_alloc_skb find_slot relocate
alloc_runs = refl

pub kernel_buffer-IsFresh : IsFresh kernel_buffer
kernel_buffer-IsFresh = omega arith

-- Slots 1 and 2 are busy, slot 3 is free.
abbrev two_busy : ℕ → ℕ
two_busy i = if ltb i 3 then 5 else 0

find_slot_runs : find_slot 3 two_busy 1 ≡ some 3
unfolding find_slot
find_slot_runs = refl

-- The search goes round from the last slot to slot 1.
find_slot_wraps : find_slot 2 (λ i. if i == 8191 then 5 else 0) 8191 ≡ some 1
unfolding find_slot
find_slot_wraps = refl

netdev_alloc_skb_total_example :
    (r : Driver × SkBuff) × (netdev_alloc_skb plain_api max_skbs loaded (some kernel_buffer)
      ≡ returns (r.0, some r.1))
netdev_alloc_skb_total_example =
    netdev_alloc_skb_total plain_api loaded kernel_buffer 5 (omega arith) (omega arith) refl

skb_release_data-netdev_alloc_skb_example :
    ((skb_release_data one_out slot_buffer).1 ≡ kernel_buffer)
    × ((skb_release_data one_out slot_buffer).0.skbs ≡ loaded.skbs)
skb_release_data-netdev_alloc_skb_example =
    skb_release_data-netdev_alloc_skb plain_api 1 loaded kernel_buffer (omega arith) (omega arith)
      (omega arith) kernel_buffer-IsFresh (omega arith) alloc_runs

-- A mapping one page past a multiple of 32 MB: the last slot lies in the next window.
abbrev shifted : Driver
shifted = record loaded { kva = 2 ^ 40 + 0x1000; skbs = update loaded.skbs 8191 0x1000 }

abbrev last_buffer : SkBuff
last_buffer = record slot_buffer { head = slot_address (2 ^ 40 + 0x1000) 8191 }

skb_release_data_outside_example : skb_release_data shifted last_buffer ≡ (shifted, last_buffer)
skb_release_data_outside_example =
    skb_release_data_outside shifted last_buffer 8191 (omega arith) (omega arith) (omega arith)
      (omega arith) refl

-- The module as it is loaded, and after one allocation.
abbrev pub before : System
before = record { drv = loaded; live = λ _. none }

abbrev pub after : System
after = record {
  drv = one_out;
  live =
      if slot_buffer.head == kernel_buffer.head
      then before.live
      else update before.live 1 (some kernel_buffer);
}

pub before-IsInitial : IsInitial before
before-IsInitial = (omega arith, omega arith, omega arith, λ i. refl, λ i. refl)

pub after-Reach : Reach plain_api before after
after-Reach = later here (alloc 1 kernel_buffer kernel_buffer-IsFresh (omega arith) alloc_runs)

release_gives_back_example :
    IsGivenBack slot_buffer 0x1000 (skb_release_data one_out slot_buffer).1
    × ((skb_release_data one_out slot_buffer).0.skbs ≡ update one_out.skbs 1 0)
release_gives_back_example =
    release_gives_back plain_api 1 slot_buffer kernel_buffer before-IsInitial after-Reach refl refl

-- A second allocation, from the state after the first, takes slot 2.
abbrev second : SkBuff
second = record { head = 0x9000; data_ = 0x9040; tail = 0x9040; end = 0x9800; len = 60 }

abbrev two_out : Driver
two_out = record one_out { skbs = update one_out.skbs 2 0x9000; next = 2 }

abbrev second_slot : SkBuff
second_slot = record {
  head = 2 ^ 40 + 0x2000;
  data_ = 2 ^ 40 + 0x2040;
  tail = 2 ^ 40 + 0x2040;
  end = 2 ^ 40 + 0x2800;
  len = 60;
}

second_runs :
    netdev_alloc_skb plain_api 2 one_out (some second) ≡ returns (two_out, some second_slot)
unfolding netdev_alloc_skb find_slot relocate
second_runs = refl

alloc_takes_vacant_example :
    IsSlot 2
    × (after.live 2 ≡ none)
    × (second_slot.head ≡ 2 ^ 40 + 2 * skb_size)
    × (second_slot.end ≤ second_slot.head + skb_size)
alloc_takes_vacant_example =
    alloc_takes_vacant plain_api 2 second before-IsInitial after-Reach (omega arith) second_runs
      (omega arith)
