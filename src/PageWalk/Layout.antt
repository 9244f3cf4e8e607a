-- ===== src/PageWalk/Layout.antt =====
-- Which entry pointers belong to which addresses: the walk looks a pointer up once in each table, and counts
-- it up from entry to entry.
use porteus_gpu.PageWalk.{Mmu, page_size}
use porteus_gpu.Base.{◌%◌, false, ℕ, ◌+◌, ◌<◌, ◌≡◌, true}

-- `Pgd p a e`: the pointer belongs to the address, and its table serves the addresses up to `e`. `Gap a b`:
-- nothing is mapped from a to b.
-- `Within e`: the account goes up to `e`.
pub record Layout {S : Type 0} (mmu : Mmu S) : Type 1 where
  pub Pgd : ℕ → ℕ → ℕ → Type 0
  pub Pud : ℕ → ℕ → ℕ → Type 0
  pub Pmd : ℕ → ℕ → ℕ → Type 0
  pub Pte : ℕ → ℕ → ℕ → Type 0
  pub Gap : ℕ → ℕ → Type 0
  pub Within : ℕ → Type 0
  pub pgd_first :
      (a e : ℕ) (s : S) → a % page_size ≡ 0 → a < e → Within e → Pgd (mmu.pgd_offset a s) a e
  pub pgd_next :
      (p a e : ℕ)
      → a < e
      → Pgd p a e
      → mmu.pgd_addr_end a e < e
      → Pgd (p + 1) (mmu.pgd_addr_end a e) e
  pub pud_first :
      (p a e : ℕ) (s t : S)
      → a < e
      → Pgd p a e
      → (mmu.pgd_none_or_clear_bad p t).0 ≡ false
      → Pud (mmu.pud_offset p a s) a (mmu.pgd_addr_end a e)
  pub pud_next :
      (p a e : ℕ)
      → a < e
      → Pud p a e
      → mmu.pud_addr_end a e < e
      → Pud (p + 1) (mmu.pud_addr_end a e) e
  pub pmd_first :
      (p a e : ℕ) (s t : S)
      → a < e
      → Pud p a e
      → (mmu.pud_none_or_clear_bad p t).0 ≡ false
      → Pmd (mmu.pmd_offset p a s) a (mmu.pud_addr_end a e)
  pub pmd_next :
      (p a e : ℕ)
      → a < e
      → Pmd p a e
      → mmu.pmd_addr_end a e < e
      → Pmd (p + 1) (mmu.pmd_addr_end a e) e
  pub pte_first :
      (p a e : ℕ) (s t : S)
      → a < e
      → Pmd p a e
      → mmu.pmd_none p t ≡ false
      → Pte (mmu.pte_offset_map p a s) a (mmu.pmd_addr_end a e)
  pub pte_next : (p a e : ℕ) → Pte p a e → a + page_size < e → Pte (p + 1) (a + page_size) e
  pub pgd_gap :
      (p a e : ℕ) (s : S)
      → a < e
      → Pgd p a e
      → (mmu.pgd_none_or_clear_bad p s).0 ≡ true
      → Gap a (mmu.pgd_addr_end a e)
  pub pud_gap :
      (p a e : ℕ) (s : S)
      → a < e
      → Pud p a e
      → (mmu.pud_none_or_clear_bad p s).0 ≡ true
      → Gap a (mmu.pud_addr_end a e)
  pub pmd_gap :
      (p a e : ℕ) (s : S)
      → a < e
      → Pmd p a e
      → mmu.pmd_none p s ≡ true
      → Gap a (mmu.pmd_addr_end a e)

-- Two accounts at once.
abbrev pub both_layouts : {S : Type 0} {mmu : Mmu S} → Layout mmu → Layout mmu → Layout mmu
both_layouts l m = record {
  Pgd = λ p a e. l.Pgd p a e × m.Pgd p a e;
  Pud = λ p a e. l.Pud p a e × m.Pud p a e;
  Pmd = λ p a e. l.Pmd p a e × m.Pmd p a e;
  Pte = λ p a e. l.Pte p a e × m.Pte p a e;
  Gap = λ a b. l.Gap a b × m.Gap a b;
  Within = λ e. l.Within e × m.Within e;
  pgd_first = λ a e s al f w. (l.pgd_first a e s al f w.0, m.pgd_first a e s al f w.1);
  pgd_next = λ p a e f h n. (l.pgd_next p a e f h.0 n, m.pgd_next p a e f h.1 n);
  pud_first = λ p a e s t f h n. (l.pud_first p a e s t f h.0 n, m.pud_first p a e s t f h.1 n);
  pud_next = λ p a e f h n. (l.pud_next p a e f h.0 n, m.pud_next p a e f h.1 n);
  pmd_first = λ p a e s t f h n. (l.pmd_first p a e s t f h.0 n, m.pmd_first p a e s t f h.1 n);
  pmd_next = λ p a e f h n. (l.pmd_next p a e f h.0 n, m.pmd_next p a e f h.1 n);
  pte_first = λ p a e s t f h n. (l.pte_first p a e s t f h.0 n, m.pte_first p a e s t f h.1 n);
  pte_next = λ p a e h n. (l.pte_next p a e h.0 n, m.pte_next p a e h.1 n);
  pgd_gap = λ p a e s f h n. (l.pgd_gap p a e s f h.0 n, m.pgd_gap p a e s f h.1 n);
  pud_gap = λ p a e s f h n. (l.pud_gap p a e s f h.0 n, m.pud_gap p a e s f h.1 n);
  pmd_gap = λ p a e s f h n. (l.pmd_gap p a e s f h.0 n, m.pmd_gap p a e s f h.1 n);
}
