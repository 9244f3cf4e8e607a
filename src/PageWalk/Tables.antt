-- ===== src/PageWalk/Tables.antt =====
-- togpu/driver/xt_TOGPU_pagewalk.c: the callbacks of a walk, and what the walk takes from the kernel.
use porteus_gpu.Base.{Bool, Status, Option, ℕ}

-- PAGE_SIZE on x86
abbrev pub page_size : ℕ
page_size = 4096

-- A callback on an entry, by its pointer, and the range of addresses that the entry covers.
abbrev pub Entry : Type 0 → Type 0
Entry S = ℕ → ℕ → ℕ → S → Status × S

-- `struct mm_walk`: each callback may be missing. `has_mm`: the field `mm` is not NULL.
pub record MmWalk (S : Type 0) : Type 0 where
  pub pgd_entry : Option (Entry S)
  pub pud_entry : Option (Entry S)
  pub pmd_entry : Option (Entry S)
  pub pte_entry : Option (Entry S)
  pub pte_hole : Option (ℕ → ℕ → S → Status × S)
  pub hugetlb_entry : Option (ℕ → ℕ → ℕ → ℕ → S → Status × S)
  pub has_mm : Bool

-- The fields of `struct vm_area_struct` and of its `struct hstate` that the walk reads.
pub record VmArea : Type 0 where
  pub vm_start : ℕ
  pub vm_end : ℕ
  pub is_hugetlb : Bool
  pub huge_page_mask : ℕ
  pub huge_page_size : ℕ

-- The kernel's page table macros and functions that the walk calls. Pointers to entries are numbers,
-- one apart from an entry to the next.
pub record Mmu (S : Type 0) : Type 0 where
  pub pgd_offset : ℕ → S → ℕ
  pub pud_offset : ℕ → ℕ → S → ℕ
  pub pmd_offset : ℕ → ℕ → S → ℕ
  pub pte_offset_map : ℕ → ℕ → S → ℕ
  pub pte_unmap : ℕ → S → S
  pub pgd_addr_end : ℕ → ℕ → ℕ
  pub pud_addr_end : ℕ → ℕ → ℕ
  pub pmd_addr_end : ℕ → ℕ → ℕ
  pub pgd_none_or_clear_bad : ℕ → S → Bool × S
  pub pud_none_or_clear_bad : ℕ → S → Bool × S
  pub pmd_none : ℕ → S → Bool
  pub split_huge_page_pmd : ℕ → S → S
  pub pmd_none_or_trans_huge_or_clear_bad : ℕ → S → Bool × S
  pub find_vma : ℕ → S → Option VmArea
  pub huge_pte_offset : ℕ → S → Option ℕ
