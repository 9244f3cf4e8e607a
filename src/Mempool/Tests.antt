-- ===== src/Mempool/Tests.antt =====
-- A run of `nfgpu_set_mempool`, and the theorem about it at this input.
use porteus_gpu.Mempool.Exact.{nfgpu_set_mempool-frames}
use porteus_gpu.PageWalk.Blocks.{block_end, pmd_size, pud_size, pgd_size}
use porteus_gpu.Mempool.Frames.{listing, frame_at, frames}
use porteus_gpu.PageWalk.Covers.{IsMmu}
use porteus_gpu.PageWalk.Paging.{Paging}
use porteus_gpu.PageWalk.{
  page_size, walk_page, range_loop, walk_pte_range, pmd_round, walk_pmd_range, pud_round,
  walk_pud_range, pgd_round, hugetlb_vma, page_round,
}
use porteus_gpu.PageWalk.Tests.{full_tables-IsMmu, full_tables}
use porteus_gpu.Mempool.Pages.{nfgpu_set_mempool_lem, IsPooled}
use porteus_gpu.Pool.Tests.{loaded}
use porteus_gpu.Mempool.{
  store_page, Mmu, nfgpu_skb_pte_process, map_pages, nfgpu_set_mempool, MapState, Mm,
}
use porteus_gpu.Base.{
  refl, ap, [], ◌∷◌, ◌/◌, ◌^◌, ◌==◌, arith, if◌then◌else◌, update, ◌+◌, Status, ◌≡◌, true, false,
  ok, returns,
}

-- Every page is present, and its frame is 100 after its number; the request is for 2 pages.
abbrev pub sample_mm : Mm (Unit {0})
sample_mm = record {
  mmu = full_tables (Unit {0});
  has_mm = true;
  pte_at = λ p t. p;
  is_swap_pte = λ entry. false;
  pte_present = λ entry. true;
  pte_page = λ entry. entry + 100;
  copy_from_user = λ buf. record { uva = 0x5000; size = 0x2000 };
  vmap = λ pages n. if n == 0 then 0 else 2 ^ 40;
  vunmap = λ kva t. t;
  overrun = λ i page d. d;
}

abbrev pub unmapped : MapState (Unit {0})
unmapped = record { tables = tt; drv = record loaded { running = false; kva = 0; npages = 0 } }

abbrev pub two_pages : MapState (Unit {0})
two_pages = record unmapped {
  drv = record loaded {
    running = false;
    uva = 0x5000;
    size = 0x2000;
    npages = 2;
    pages = update (update loaded.pages 0 105) 1 106;
  };
}

set_mempool_runs : nfgpu_set_mempool sample_mm 2 0 unmapped ≡ returns (ok, two_pages)
unfolding nfgpu_set_mempool map_pages nfgpu_skb_pte_process walk_page page_round hugetlb_vma
    pgd_round walk_pud_range pud_round walk_pmd_range pmd_round walk_pte_range range_loop store_page
set_mempool_runs = refl

nfgpu_set_mempool_example :
    (r : Status × MapState (Unit {0})) × (nfgpu_set_mempool sample_mm 2 0 unmapped ≡ returns r)
    × IsPooled sample_mm unmapped.drv (record { uva = 0x5000; size = 0x2000 }) r.0 r.1.drv
nfgpu_set_mempool_example =
    nfgpu_set_mempool_lem sample_mm 0 0 unmapped (full_tables-IsMmu (Unit {0})) refl (omega arith)
      (omega arith)

-- The table for the addresses from 2 MB to 4 MB is missing, and page 0x1fe is on the swap device.
abbrev holed_tables : Mmu (Unit {0})
holed_tables = record (full_tables (Unit {0})) {
  pgd_addr_end = block_end pgd_size;
  pud_addr_end = block_end pud_size;
  pmd_addr_end = block_end pmd_size;
  pmd_none = λ p t. p == 1;
}

holed_tables-IsMmu : IsMmu holed_tables
holed_tables-IsMmu = record {
  pgd_end = λ a e al el lt. ground arith;
  pud_end = λ a e al el lt. ground arith;
  pmd_end = λ a e al el lt. ground arith;
  cleared = λ p s e. absurd (ground arith);
}

abbrev holed_paging : Paging holed_tables
holed_paging = record {
  pgd_of = λ a. a / pgd_size;
  pud_of = λ a. a / pud_size;
  pmd_of = λ a. a / pmd_size;
  pte_of = λ a. a / page_size;
  no_pgd = λ a. false;
  no_pud = λ a. false;
  no_pmd = λ a. a / pmd_size == 1;
  pgd_end = λ a e. refl;
  pud_end = λ a e. refl;
  pmd_end = λ a e. refl;
  pgd_at = λ a s. refl;
  pud_at = λ a s h. refl;
  pmd_at = λ a s h. refl;
  pte_at = λ a s h. refl;
  pgd_none = λ a s. refl;
  pud_none = λ a s. refl;
  pmd_none = λ a s. refl;
  pgd_same = λ a b e. refl;
  pud_same = λ a b e. refl;
  pmd_same = λ a b e. ap (λ k. k == 1) e;
  pgd_step = λ a b l e. omega arith;
  pud_step = λ a b l e. omega arith;
  pmd_step = λ a b l e. omega arith;
  pte_step = λ a b l e. omega arith;
}

abbrev holed_mm : Mm (Unit {0})
holed_mm = record sample_mm {
  mmu = holed_tables;
  is_swap_pte = λ entry. entry == 0x1fe;
  copy_from_user = λ buf. record { uva = 0x1fd000; size = 0x4000 + 0x200000 };
}

nfgpu_set_mempool-frames_example :
    (r : Status × MapState (Unit {0})) × (nfgpu_set_mempool holed_mm 516 0 unmapped ≡ returns r)
    × (listing r.1.drv.pages r.1.drv.npages ≡ 0x261 ∷ 0x263 ∷ 0x464 ∷ [])
    × (r.1.drv.kva ≡ holed_mm.vmap r.1.drv.pages r.1.drv.npages)
unfolding frames frame_at
nfgpu_set_mempool-frames_example =
    nfgpu_set_mempool-frames holed_mm holed_paging 514 0 unmapped holed_tables-IsMmu
      (record {
        pgd_stays = λ p s. refl;
        pud_stays = λ p s. refl;
        pmd_stays = λ p s. refl;
        split_stays = λ p s. refl;
        unmap_stays = λ p s. refl;
      })
      refl (omega arith) (omega arith) (omega arith)
