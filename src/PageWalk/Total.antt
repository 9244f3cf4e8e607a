-- ===== src/PageWalk/Total.antt =====
-- The upper levels of the walk, and `walk_page` as a whole.
use porteus_gpu.PageWalk.Layout.{Layout}
use porteus_gpu.PageWalk.Loops.{
  Gives-fail, Gives-ok, Leads, Gives, IsRange, Leads-as_round, range_loop-Ends, Ends,
}
use porteus_gpu.PageWalk.{
  is_some, hugetlb_vma, call, page_round, pgd_round, pud_round, walk_page, walk_pud_range,
  walk_pmd_range, Entry, page_size, MmWalk, Mmu,
}
use porteus_gpu.Base.{
  ap, not, ◌||◌, or_true, leb, Status-cases, Bool-cases, arith, ◌^◌, ◌*◌, ◌+◌, Errno, ◌≤◌, ◌%◌, ◌<◌,
  ℕ, suc, ◌≡◌, inl, inr, true, false,
}
use porteus_gpu.PageWalk.Covers.{hole-Ends, pmd_round-Ends, Moves, IsMmu}

-- Fuel for every loop of a walk over [a, end): a round for each page, and two for `goto again`.
pub record IsWalk (limit a end : ℕ) : Type 0 where
  pub nonempty : a < end
  pub start_aligned : a % page_size ≡ 0
  pub end_aligned : end % page_size ≡ 0
  pub enough : end ≤ a + limit * page_size
  pub fits : end < 2 ^ 64

module _ {S : Type 0} {mmu : Mmu S} {walk : MmWalk S} {entry : Entry S} {P : ℕ → S → Type 0}
    {Q : Errno → S → Type 0} {layout : Layout mmu} (laws : IsMmu mmu)
    (moves : Moves layout walk entry P Q) (more : ℕ) where
  abbrev limit : ℕ
  limit = suc (suc more)

  -- The part of a range from `b` up to `next`.
  IsWalk-part :
      {a end b next : ℕ}
      → IsWalk limit a end
      → a ≤ b
      → b % page_size ≡ 0
      → (b < next) × (next ≤ end) × (next % page_size ≡ 0)
      → IsWalk limit b next
  IsWalk-part r above al part = omega arith

  IsWalk-IsRange : {a end : ℕ} → IsWalk limit a end → IsRange limit a end
  IsWalk-IsRange r = omega arith

  walk_pmd_range-Ends :
      (pud a end : ℕ) (s : S)
      → IsWalk limit a end
      → ((t : S) → layout.Pmd (mmu.pmd_offset pud a t) a end)
      → P a s
      → Ends (P end) Q (walk_pmd_range mmu walk limit pud a end s)
  unfolding walk_pmd_range
  walk_pmd_range-Ends pud a end s r at h =
      range_loop-Ends P Q (λ p b. layout.Pmd p b end) _ a end
        (λ pmd b t above from al h' here.
          let next = laws.pmd_end b end al r.end_aligned from in
          let part = IsWalk-part r above al next in
          Leads-as_round P Q (λ p c. layout.Pmd p c end) b end (mmu.pmd_addr_end b end) (pmd + 1) _
            next.0 next.1 next.2 (layout.pmd_next pmd b end from here)
            (pmd_round-Ends laws moves limit more pmd b (mmu.pmd_addr_end b end) t
              (IsWalk-IsRange part) part.fits (λ u v. layout.pte_first pmd b end u v from here)
              (λ u empty. layout.pmd_gap pmd b end u from here empty) h'))
        limit (mmu.pmd_offset pud a s) a s (omega arith) (IsWalk-IsRange r) h (at s)

  -- A callback for pages lets every level descend.
  pud_descends : (is_some walk.pmd_entry || is_some walk.pte_entry) ≡ true
  pud_descends = rw moves.has_pte (or_true (is_some walk.pmd_entry))

  pgd_descends : (is_some walk.pud_entry || is_some walk.pmd_entry || is_some walk.pte_entry) ≡ true
  pgd_descends = rw moves.has_pte (ground arith)

  -- An entry of the second level: a round of `walk_pud_range`.
  pud_round-Ends :
      (pud a next : ℕ) (s : S)
      → IsWalk limit a next
      → ((t u : S)
          → (mmu.pud_none_or_clear_bad pud u).0 ≡ false
          → layout.Pmd (mmu.pmd_offset pud a t) a next)
      → ((t : S) → (mmu.pud_none_or_clear_bad pud t).0 ≡ true → layout.Gap a next)
      → P a s
      → Ends (P next) Q (pud_round mmu walk limit pud a next s)
  unfolding pud_round
  pud_round-Ends pud a next s r at gap h = elim (Bool-cases (mmu.pud_none_or_clear_bad pud s).0) [
    | inl missing ↦
        rw (missing, pud_round)
          (hole-Ends laws moves a next _ r.nonempty r.end_aligned (gap s missing) checked)
    | inr there ↦
        elim (Status-cases (call walk.pud_entry pud a next (mmu.pud_none_or_clear_bad pud s).1).0) [
          | inl good ↦
              rw (there, pud_round)
                (rw (good, pud_descends)
                  (walk_pmd_range-Ends pud a next _ r (λ t. at t s there)
                    (Gives-ok (P a) Q _ called good)))
          | inr (c, bad) ↦ rw (there, pud_round) (rw bad (Gives-fail (P a) Q _ called bad))
        ]
  ]
    where
      checked : P a (mmu.pud_none_or_clear_bad pud s).1
      checked = moves.check_pud pud a s h

      called : Gives (P a) Q (call walk.pud_entry pud a next (mmu.pud_none_or_clear_bad pud s).1)
      called = moves.at_pud pud a next _ checked

  walk_pud_range-Ends :
      (pgd a end : ℕ) (s : S)
      → IsWalk limit a end
      → ((t : S) → layout.Pud (mmu.pud_offset pgd a t) a end)
      → P a s
      → Ends (P end) Q (walk_pud_range mmu walk limit pgd a end s)
  unfolding walk_pud_range
  walk_pud_range-Ends pgd a end s r at h =
      range_loop-Ends P Q (λ p b. layout.Pud p b end) _ a end
        (λ pud b t above from al h' here.
          let next = laws.pud_end b end al r.end_aligned from in
          Leads-as_round P Q (λ p c. layout.Pud p c end) b end (mmu.pud_addr_end b end) (pud + 1) _
            next.0 next.1 next.2 (layout.pud_next pud b end from here)
            (pud_round-Ends pud b (mmu.pud_addr_end b end) t (IsWalk-part r above al next)
              (λ u v. layout.pmd_first pud b end u v from here)
              (λ u empty. layout.pud_gap pud b end u from here empty) h'))
        limit (mmu.pud_offset pgd a s) a s (omega arith) (IsWalk-IsRange r) h (at s)

  pgd_round-Ends :
      (pgd a next : ℕ) (s : S)
      → IsWalk limit a next
      → ((t u : S)
          → (mmu.pgd_none_or_clear_bad pgd u).0 ≡ false
          → layout.Pud (mmu.pud_offset pgd a t) a next)
      → ((t : S) → (mmu.pgd_none_or_clear_bad pgd t).0 ≡ true → layout.Gap a next)
      → P a s
      → Ends (P next) Q (pgd_round mmu walk limit pgd a next s)
  unfolding pgd_round
  pgd_round-Ends pgd a next s r at gap h = elim (Bool-cases (mmu.pgd_none_or_clear_bad pgd s).0) [
    | inl missing ↦
        rw (missing, pgd_round)
          (hole-Ends laws moves a next _ r.nonempty r.end_aligned (gap s missing) checked)
    | inr there ↦
        elim (Status-cases (call walk.pgd_entry pgd a next (mmu.pgd_none_or_clear_bad pgd s).1).0) [
          | inl good ↦
              rw (there, pgd_round)
                (rw (good, pgd_descends)
                  (walk_pud_range-Ends pgd a next _ r (λ t. at t s there)
                    (Gives-ok (P a) Q _ called good)))
          | inr (c, bad) ↦ rw (there, pgd_round) (rw bad (Gives-fail (P a) Q _ called bad))
        ]
  ]
    where
      checked : P a (mmu.pgd_none_or_clear_bad pgd s).1
      checked = moves.check_pgd pgd a s h

      called : Gives (P a) Q (call walk.pgd_entry pgd a next (mmu.pgd_none_or_clear_bad pgd s).1)
      called = moves.at_pgd pgd a next _ checked

  -- With no callback for huge pages an entry of the first level is a table of the second.
  page_round-Leads :
      (end pgd a : ℕ) (s : S)
      → (a < mmu.pgd_addr_end a end)
        × (mmu.pgd_addr_end a end ≤ end)
        × (mmu.pgd_addr_end a end % page_size ≡ 0)
      → IsWalk limit a (mmu.pgd_addr_end a end)
      → a < end
      → layout.Pgd pgd a end
      → P a s
      → Leads P Q (λ p b. layout.Pgd p b end) a end (page_round mmu walk limit end pgd a s)
  unfolding page_round hugetlb_vma
  page_round-Leads end pgd a s next r from here h =
      rw (moves.no_huge, page_round, hugetlb_vma)
        (Leads-as_round P Q (λ p b. layout.Pgd p b end) a end (mmu.pgd_addr_end a end) (pgd + 1) _
          next.0 next.1 next.2 (layout.pgd_next pgd a end from here)
          (pgd_round-Ends pgd a (mmu.pgd_addr_end a end) s r
            (λ u v. layout.pud_first pgd a end u v from here)
            (λ u empty. layout.pgd_gap pgd a end u from here empty) h))

  -- On a page-aligned range below 2 ^ 64 a walk with a callback for pages and none for huge pages
  -- returns, with fuel for a round per page: if it returns 0, a cursor that each page callback,
  -- called with a pointer that an account of the tables assigns to its address, and each hole,
  -- where by that account nothing is mapped, moves to the end of its own range, and that the
  -- entries above leave alone, has come from the start of the range to its end; else a callback
  -- failed and the walk returns its error.
  pub walk_page_covers :
      (a end : ℕ) (s : S)
      → walk.has_mm ≡ true
      → IsWalk limit a end
      → layout.Within end
      → P a s
      → Ends (P end) Q (walk_page mmu walk limit a end s)
  unfolding walk_page
  walk_page_covers a end s mm r within h =
      rw (past, walk_page)
        (rw has_mm (
          range_loop-Ends P Q (λ p b. layout.Pgd p b end) _ a end
            (λ pgd b t above from al h' here.
              let next = laws.pgd_end b end al r.end_aligned from in
              page_round-Leads end pgd b t next (IsWalk-part r above al next) from here h')
            limit (mmu.pgd_offset a s) a s (omega arith) (IsWalk-IsRange r) h
            (layout.pgd_first a end s r.start_aligned r.nonempty within)))
    where
      past : leb end a ≡ false
      past = ground arith

      has_mm : not walk.has_mm ≡ false
      has_mm = ap not mm
