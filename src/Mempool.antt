-- ===== src/Mempool.antt =====
-- togpu/driver/xt_TOGPU_main.c, `nfgpu_set_mempool`: the pages of the GPU's memory, found by a walk over
-- the caller's page tables, are mapped into the kernel. (The variant ALLOC_VMAP_PAGES, which the driver
-- does not define, is left out.)
pub mod Pages
pub mod Frames
pub mod Framed
pub mod Exact
pub mod Tests
use porteus_gpu.Config.{max_pages, NfgpuMemInfo}
use porteus_gpu.PageWalk.{walk_page, Entry, MmWalk, Mmu}
use porteus_gpu.Pool.{Driver}
use porteus_gpu.Base.{
  ltb, update, ◌&&◌, ◌==◌, not, add64, if◌then◌else◌, Outcome, Status, Bool, ℕ, zero, suc, ◌≡◌,
  refl, inl, inr, some, none, true, false, ok, fail, returns, waits, fault, efault,
}

-- The page tables and the driver, which the walk's callback changes.
pub record MapState (T : Type 0) : Type 0 where
  pub tables : T
  pub drv : Driver

-- The kernel's side of `nfgpu_set_mempool`: the caller's page tables and their macros, `current->mm`,
-- `copy_from_user` of a `struct nfgpu_mem_info`, `vmap`, which gives 0 when it fails, and
-- `vunmap`. `overrun i page` is what a store at cell i past the end of `nfgpu_pages` does to the variables
-- there, of which nothing is known.
pub record Mm (T : Type 0) : Type 0 where
  pub mmu : Mmu T
  pub has_mm : Bool
  pub pte_at : ℕ → T → ℕ
  pub is_swap_pte : ℕ → Bool
  pub pte_present : ℕ → Bool
  pub pte_page : ℕ → ℕ
  pub copy_from_user : ℕ → NfgpuMemInfo
  pub vmap : (ℕ → ℕ) → ℕ → ℕ
  pub vunmap : ℕ → T → T
  pub overrun : ℕ → ℕ → Driver → Driver

module _ {T : Type 0} where
  abbrev pub on_tables : (T → Bool × T) → MapState T → Bool × MapState T
  on_tables f st = let (b, t) = f st.tables in (b, record st { tables = t })

  -- The macros act on the tables alone.
  abbrev pub lift : Mmu T → Mmu (MapState T)
  lift m = record {
    pgd_offset = λ a st. m.pgd_offset a st.tables;
    pud_offset = λ p a st. m.pud_offset p a st.tables;
    pmd_offset = λ p a st. m.pmd_offset p a st.tables;
    pte_offset_map = λ p a st. m.pte_offset_map p a st.tables;
    pte_unmap = λ p st. record st { tables = m.pte_unmap p st.tables };
    pgd_addr_end = m.pgd_addr_end;
    pud_addr_end = m.pud_addr_end;
    pmd_addr_end = m.pmd_addr_end;
    pgd_none_or_clear_bad = λ p. on_tables (m.pgd_none_or_clear_bad p);
    pud_none_or_clear_bad = λ p. on_tables (m.pud_none_or_clear_bad p);
    pmd_none = λ p st. m.pmd_none p st.tables;
    split_huge_page_pmd = λ p st. record st { tables = m.split_huge_page_pmd p st.tables };
    pmd_none_or_trans_huge_or_clear_bad = λ p. on_tables (m.pmd_none_or_trans_huge_or_clear_bad p);
    find_vma = λ a st. m.find_vma a st.tables;
    huge_pte_offset = λ a st. m.huge_pte_offset a st.tables;
  }

module _ {T : Type 0} (mm : Mm T) where
  -- `nfgpu_pages[ nfgpu_npages ] = page`: the array has `max_pages` cells.
  unfoldable pub store_page : ℕ → Driver → Driver
  store_page page d =
      if ltb d.npages max_pages
      then record d { pages = update d.pages d.npages page }
      else mm.overrun d.npages page d

  -- `nfgpu_skb_pte_process`: a page that is present is put at the end of `nfgpu_pages`.
  unfoldable pub nfgpu_skb_pte_process : Entry (MapState T)
  nfgpu_skb_pte_process pte addr end st =
      let entry = mm.pte_at pte st.tables in
      let d = store_page (mm.pte_page entry) st.drv in
      if not (mm.is_swap_pte entry) && mm.pte_present entry
      then (ok, record st { drv = record d { npages = add64 d.npages 1 } })
      else (ok, st)

  -- `mmw`: a callback for pages, and nothing else.
  abbrev pub mmw : MmWalk (MapState T)
  mmw = record {
    pgd_entry = none;
    pud_entry = none;
    pmd_entry = none;
    pte_entry = some nfgpu_skb_pte_process;
    pte_hole = none;
    hugetlb_entry = none;
    has_mm = mm.has_mm;
  }

  -- What follows the walk, whose result is ignored: the mapping, or the failure to map.
  unfoldable pub map_pages : MapState T → Status × MapState T
  map_pages st =
      let d = st.drv in
      let kva = mm.vmap d.pages d.npages in
      if kva == 0
      then (fail efault, record st { drv = record d { kva = kva; skbs = λ _. 0 } })
      else (ok, record st { drv = record d { kva = kva } })

  -- `nfgpu_set_mempool`, with fuel for the walk's loops.
  unfoldable pub nfgpu_set_mempool : ℕ → ℕ → MapState T → Outcome (Status × MapState T)
  nfgpu_set_mempool limit buf st =
      let gb = mm.copy_from_user buf in
      let st₁ = record st { drv = record st.drv { uva = gb.uva; size = gb.size; npages = 0 } } in
      elim (walk_page (lift mm.mmu) mmw limit gb.uva (add64 gb.uva gb.size) st₁) [
        | waits ↦ waits
        | fault ↦ fault
        | returns (err, st₂) ↦ returns (map_pages st₂)
      ]
