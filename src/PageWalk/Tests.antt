-- ===== src/PageWalk/Tests.antt =====
-- Walks over small page tables, and the theorems about the walk at these inputs.
use porteus_gpu.PageWalk.Bounded.{bounded_layout}
use porteus_gpu.PageWalk.Total.{walk_page_covers}
use porteus_gpu.PageWalk.Unaligned.{walk_pte_range_unaligned}
use porteus_gpu.PageWalk.Loops.{Ends}
use porteus_gpu.PageWalk.Covers.{Moves, IsMmu}
use porteus_gpu.PageWalk.{
  range_loop, pmd_round, walk_pmd_range, pud_round, walk_pud_range, pgd_round, hugetlb_vma,
  page_size, page_round, Mmu, walk_page, Entry, walk_pte_range, MmWalk,
}
use porteus_gpu.Base.{
  ◌≤◌, ltb, if◌then◌else◌, ◌*◌, ◌+◌, ◌++◌, arith, ◌^◌, List, ◌/◌, ℕ, ◌≡◌, refl, [], ◌∷◌, true,
  false, ok, none, some, returns, waits,
}

-- The end of the part of a range that an entry of `unit` bytes covers.
abbrev pub part_end : ℕ → ℕ → ℕ → ℕ
part_end unit a e = let boundary = (a / unit + 1) * unit in if ltb boundary e then boundary else e

-- Tables in which every entry is there. A page's entry has the page's number.
abbrev pub full_tables : (S : Type 0) → Mmu S
full_tables S = record {
  pgd_offset = λ a s. a / 2 ^ 39;
  pud_offset = λ p a s. a / 2 ^ 30;
  pmd_offset = λ p a s. a / 2 ^ 21;
  pte_offset_map = λ p a s. a / page_size;
  pte_unmap = λ p s. s;
  pgd_addr_end = part_end (2 ^ 39);
  pud_addr_end = part_end (2 ^ 30);
  pmd_addr_end = part_end (2 ^ 21);
  pgd_none_or_clear_bad = λ p s. (false, s);
  pud_none_or_clear_bad = λ p s. (false, s);
  pmd_none = λ p s. false;
  split_huge_page_pmd = λ p s. s;
  pmd_none_or_trans_huge_or_clear_bad = λ p s. (false, s);
  find_vma = λ a s. none;
  huge_pte_offset = λ a s. none;
}

pub full_tables-IsMmu : (S : Type 0) → IsMmu (full_tables S)
full_tables-IsMmu S = record {
  pgd_end = λ a e al el lt. ground arith;
  pud_end = λ a e al el lt. ground arith;
  pmd_end = λ a e al el lt. ground arith;
  cleared = λ p s e. e;
}

-- A callback that appends the address it is called for to a list.
abbrev note_page : Entry (List ℕ)
note_page p a n seen = (ok, seen ++ (a ∷ []))

abbrev noting : MmWalk (List ℕ)
noting = record {
  pgd_entry = none;
  pud_entry = none;
  pmd_entry = none;
  pte_entry = some note_page;
  pte_hole = none;
  hugetlb_entry = none;
  has_mm = true;
}

-- Three pages across the boundary of a table.
walk_runs :
    walk_page (full_tables (List ℕ)) noting 4 0x1ff000 0x202000 []
    ≡ returns (ok, 0x1ff000 ∷ 0x200000 ∷ 0x201000 ∷ [])
unfolding walk_page page_round hugetlb_vma pgd_round walk_pud_range pud_round walk_pmd_range
    pmd_round walk_pte_range range_loop
walk_runs = refl

-- A callback that counts pages.
abbrev count_page : Entry ℕ
count_page p a n count = (ok, count + 1)

abbrev counting : MmWalk ℕ
counting = record {
  pgd_entry = none;
  pud_entry = none;
  pmd_entry = none;
  pte_entry = some count_page;
  pte_hole = none;
  hugetlb_entry = none;
  has_mm = true;
}

-- No more pages are counted than lie below the cursor, from 0x1ff000 on.
abbrev Counted : ℕ → ℕ → Type 0
Counted a count = 0x1ff000 + count * page_size ≤ a

counting-Moves :
    Moves (bounded_layout (full_tables-IsMmu ℕ) 0x202000) counting count_page Counted (λ e s. ⊥)
counting-Moves = record {
  has_pte = refl;
  no_huge = refl;
  page = λ p a e s al below fits at h. omega arith;
  over_hole = λ a b s from al gap h. omega arith;
  at_pgd = λ p a n s h. h;
  at_pud = λ p a n s h. h;
  at_pmd = λ p a n s h. h;
  check_pgd = λ p a s h. h;
  check_pud = λ p a s h. h;
  check_pmd = λ p a s h. h;
  split = λ p a s h. h;
  unmap = λ p a s h. h;
  unmap_failed = λ p e s h. h;
}

walk_page_covers_example :
    Ends (Counted 0x202000) (λ e s. ⊥) (walk_page (full_tables ℕ) counting 4 0x1ff000 0x202000 0)
walk_page_covers_example =
    walk_page_covers (full_tables-IsMmu ℕ) counting-Moves 2 0x1ff000 0x202000 0 refl (omega arith)
      (omega arith) (omega arith)

walk_pte_range_unaligned_example :
    walk_pte_range (full_tables (List ℕ)) noting note_page 1000 0 0x1000 0x2800 [] ≡ waits
walk_pte_range_unaligned_example =
    walk_pte_range_unaligned (full_tables (List ℕ)) noting note_page (λ p a n s. refl) 1000 0 0x1000
      0x2800 [] (omega arith)
