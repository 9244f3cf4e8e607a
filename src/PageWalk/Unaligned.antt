-- ===== src/PageWalk/Unaligned.antt =====
-- A range whose length is no multiple of the page size.
use porteus_gpu.PageWalk.{page_size, Entry, MmWalk, Mmu, walk_pte_range}
use porteus_gpu.Base.{◌+◌, arith, ne→==, add64, ◌≢◌, ◌%◌, ℕ, zero, suc, ◌≡◌, refl, ok, waits}

-- If the start and the end of a range lie at different offsets in their pages, and the callback
-- never fails, then the loop over a table of pages does not return, whatever the fuel.
pub walk_pte_range_unaligned :
    {S : Type 0} (mmu : Mmu S) (walk : MmWalk S) (entry : Entry S)
    → ((p a n : ℕ) (s : S) → (entry p a n s).0 ≡ ok)
    → (fuel p a end : ℕ) (s : S) → a % page_size ≢ end % page_size
    → walk_pte_range mmu walk entry fuel p a end s ≡ waits
unfolding walk_pte_range
walk_pte_range_unaligned mmu walk entry good zero p a end s apart = refl
walk_pte_range_unaligned mmu walk entry good (suc fuel) p a end s apart =
    rw (good p a (add64 a page_size) s, walk_pte_range)
      (rw (ne→== (add64 a page_size) end (λ e. apart (omega arith))) (
        walk_pte_range_unaligned mmu walk entry good fuel (p + 1) (add64 a page_size) end
          (entry p a (add64 a page_size) s).1 (omega arith)))
