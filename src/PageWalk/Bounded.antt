-- ===== src/PageWalk/Bounded.antt =====
-- The parts of a range that a walk comes to end where the range ends, or before.
use porteus_gpu.PageWalk.Layout.{Layout}
use porteus_gpu.PageWalk.Covers.{IsMmu}
use porteus_gpu.PageWalk.{Mmu, page_size}
use porteus_gpu.Base.{ℕ, ◌%◌, ◌≤◌, ◌≡◌, arith}

-- A part that begins and ends at a page, at `limit` at the latest.
abbrev pub IsPart : ℕ → ℕ → ℕ → ℕ → Type 0
IsPart limit p a e = (a % page_size ≡ 0) × (e % page_size ≡ 0) × (e ≤ limit)

module _ {S : Type 0} {mmu : Mmu S} (laws : IsMmu mmu) (limit : ℕ) where
  abbrev pub bounded_layout : Layout mmu
  bounded_layout = record {
    Pgd = IsPart limit;
    Pud = IsPart limit;
    Pmd = IsPart limit;
    Pte = IsPart limit;
    Gap = λ a b. Unit {0};
    Within = λ e. (e % page_size ≡ 0) × (e ≤ limit);
    pgd_first = λ a e s al f w. (al, w.0, w.1);
    pgd_next = λ p a e f h n. ((laws.pgd_end a e h.0 h.1 f).2, h.1, h.2);
    pud_first = λ p a e s t f h n.
        let r = laws.pgd_end a e h.0 h.1 f in (h.0, r.2, (let l = h.2 in omega arith));
    pud_next = λ p a e f h n. ((laws.pud_end a e h.0 h.1 f).2, h.1, h.2);
    pmd_first = λ p a e s t f h n.
        let r = laws.pud_end a e h.0 h.1 f in (h.0, r.2, (let l = h.2 in omega arith));
    pmd_next = λ p a e f h n. ((laws.pmd_end a e h.0 h.1 f).2, h.1, h.2);
    pte_first = λ p a e s t f h n.
        let r = laws.pmd_end a e h.0 h.1 f in (h.0, r.2, (let l = h.2 in omega arith));
    pte_next = λ p a e h n. ((let al = h.0 in omega arith), h.1, h.2);
    pgd_gap = λ p a e s l h n. tt;
    pud_gap = λ p a e s l h n. tt;
    pmd_gap = λ p a e s l h n. tt;
  }
