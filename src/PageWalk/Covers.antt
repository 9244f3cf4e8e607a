-- ===== src/PageWalk/Covers.antt =====
-- `walk_page` covers its range: a cursor that every callback and hole moves to the end of its own range
-- stands at the end of the whole range when the walk returns 0.
use porteus_gpu.PageWalk.Layout.{Layout}
use porteus_gpu.PageWalk.Loops.{Ends-returns, Gives-fail, Gives-ok, Ends, IsRange, Gives}
use porteus_gpu.PageWalk.{pmd_round, call, hole, walk_pte_range, Entry, page_size, MmWalk, Mmu}
use porteus_gpu.Base.{
  false, Bool, returns, ==→ne, ==→eq, subst, ◌≢◌, ◌==◌, Bool-cases, Status-cases, add64, arith, ◌^◌,
  ◌+◌, ◌≤◌, Errno, ◌<◌, ◌%◌, ℕ, zero, suc, ◌≡◌, inl, inr, some, none, true,
}

-- The range of addresses that one entry of a table covers: `pgd_addr_end` and its like.
abbrev pub EndsRange : (ℕ → ℕ → ℕ) → Type 0
EndsRange addr_end =
    (a e : ℕ)
    → a % page_size ≡ 0
    → e % page_size ≡ 0
    → a < e
    → (a < addr_end a e) × (addr_end a e ≤ e) × (addr_end a e % page_size ≡ 0)

-- What the walk relies on in the kernel: entries cover page-aligned parts of the range, and an entry that
-- `split_huge_page_pmd` has just split, so that it is not huge, and that
-- `pmd_none_or_trans_huge_or_clear_bad` then reports is empty: it was, or it was bad and is cleared.
pub record IsMmu {S : Type 0} (mmu : Mmu S) : Type 0 where
  pub pgd_end : EndsRange mmu.pgd_addr_end
  pub pud_end : EndsRange mmu.pud_addr_end
  pub pmd_end : EndsRange mmu.pmd_addr_end
  pub cleared :
      (pmd : ℕ) (s : S)
      → let r = mmu.pmd_none_or_trans_huge_or_clear_bad pmd (mmu.split_huge_page_pmd pmd s) in
        r.0 ≡ true → mmu.pmd_none pmd r.1 ≡ true

-- A walk with a callback for pages and none for huge pages, whose callbacks move the cursor `P`: a page
-- or a hole to its end, and the entries above not at all; `Q` holds where a callback fails.
pub record Moves {S : Type 0} {mmu : Mmu S} (layout : Layout mmu) (walk : MmWalk S)
    (entry : Entry S) (P : ℕ → S → Type 0) (Q : Errno → S → Type 0) : Type 0 where
  pub has_pte : walk.pte_entry ≡ some entry
  pub no_huge : walk.hugetlb_entry ≡ none
  pub page :
      (p a e : ℕ) (s : S)
      → a % page_size ≡ 0
      → a < e
      → e < 2 ^ 64
      → layout.Pte p a e
      → P a s
      → Gives (P (a + page_size)) Q (entry p a (a + page_size) s)
  pub over_hole :
      (a next : ℕ) (s : S)
      → a < next
      → next % page_size ≡ 0
      → layout.Gap a next
      → P a s
      → Gives (P next) Q (hole mmu walk a next s)
  pub at_pgd : (p a n : ℕ) (s : S) → P a s → Gives (P a) Q (call walk.pgd_entry p a n s)
  pub at_pud : (p a n : ℕ) (s : S) → P a s → Gives (P a) Q (call walk.pud_entry p a n s)
  pub at_pmd : (p a n : ℕ) (s : S) → P a s → Gives (P a) Q (call walk.pmd_entry p a n s)
  pub check_pgd : (p a : ℕ) (s : S) → P a s → P a (mmu.pgd_none_or_clear_bad p s).1
  pub check_pud : (p a : ℕ) (s : S) → P a s → P a (mmu.pud_none_or_clear_bad p s).1
  pub check_pmd : (p a : ℕ) (s : S) → P a s → P a (mmu.pmd_none_or_trans_huge_or_clear_bad p s).1
  pub split : (p a : ℕ) (s : S) → P a s → P a (mmu.split_huge_page_pmd p s)
  pub unmap : (p a : ℕ) (s : S) → P a s → P a (mmu.pte_unmap p s)
  pub unmap_failed : (p : ℕ) (e : Errno) (s : S) → Q e s → Q e (mmu.pte_unmap p s)

module _ {S : Type 0} {mmu : Mmu S} {walk : MmWalk S} {entry : Entry S} {P : ℕ → S → Type 0}
    {Q : Errno → S → Type 0} {layout : Layout mmu} (laws : IsMmu mmu)
    (moves : Moves layout walk entry P Q) where
  -- One table of pages.
  walk_pte_range-Ends :
      (fuel p a end : ℕ) (s : S)
      → IsRange fuel a end
      → end < 2 ^ 64
      → layout.Pte p a end
      → P a s
      → Ends (P end) Q (walk_pte_range mmu walk entry fuel p a end s)
  unfolding walk_pte_range
  walk_pte_range-Ends zero p a end s r fits at h = absurd (omega arith)
  walk_pte_range-Ends (suc fuel) p a end s r fits at h = elim (Status-cases (entry p a n s).0) [
    | inl good ↦
        let reached : P n (entry p a n s).1 = Gives-ok (P n) Q _ given good in
        elim (Bool-cases (n == end)) [
          | inl last ↦
              rw (good, walk_pte_range)
                (rw last (
                  moves.unmap p end _
                    (subst (λ k. P k (entry p a n s).1) (==→eq _ _ last) reached)))
          | inr more ↦
              rw (good, walk_pte_range)
                (rw more (
                  walk_pte_range-Ends fuel (p + 1) n end (entry p a n s).1 (rest (==→ne _ _ more))
                    fits (belongs (==→ne _ _ more)) reached))
        ]
    | inr (c, bad) ↦
        rw (bad, walk_pte_range) (moves.unmap_failed p c _ (Gives-fail (P n) Q _ given bad))
  ]
    where
      open r use {nonempty, start_aligned, end_aligned, enough}

      n : ℕ
      n = add64 a page_size

      n_eq : n ≡ a + page_size
      n_eq = omega arith

      given : Gives (P n) Q (entry p a n s)
      given = rw n_eq (moves.page p a end s start_aligned nonempty fits at h)

      belongs : n ≢ end → layout.Pte (p + 1) n end
      belongs ne = rw n_eq (layout.pte_next p a end at (omega arith))

      rest : n ≢ end → IsRange fuel n end
      rest ne = record {
        nonempty = omega arith;
        start_aligned = omega arith;
        end_aligned = end_aligned;
        enough = omega arith;
      }

  pub hole-Ends :
      (a next : ℕ) (s : S)
      → a < next
      → next % page_size ≡ 0
      → layout.Gap a next
      → P a s
      → Ends (P next) Q (returns (hole mmu walk a next s))
  hole-Ends a next s from al gap h =
      Ends-returns (P next) Q (hole mmu walk a next s) (moves.over_hole a next s from al gap h)

  -- One entry of the third level: a round of `walk_pmd_range`, with `goto again` at most once.
  pmd_round_empty :
      (limit again pmd a next : ℕ) (s : S)
      → a < next
      → next % page_size ≡ 0
      → mmu.pmd_none pmd s ≡ true
      → layout.Gap a next
      → P a s
      → Ends (P next) Q (pmd_round mmu walk limit (suc again) pmd a next s)
  unfolding pmd_round
  pmd_round_empty limit again pmd a next s from al e gap h =
      rw (e, pmd_round) (hole-Ends a next s from al gap h)

  pub pmd_round-Ends :
      (limit again pmd a next : ℕ) (s : S)
      → IsRange limit a next
      → next < 2 ^ 64
      → ((t u : S) → mmu.pmd_none pmd u ≡ false → layout.Pte (mmu.pte_offset_map pmd a t) a next)
      → ((t : S) → mmu.pmd_none pmd t ≡ true → layout.Gap a next)
      → P a s
      → Ends (P next) Q (pmd_round mmu walk limit (suc (suc again)) pmd a next s)
  unfolding pmd_round
  pmd_round-Ends limit again pmd a next s r fits at gap h = elim (Bool-cases (mmu.pmd_none pmd s)) [
    | inl empty ↦
        pmd_round_empty limit (suc again) pmd a next s r.nonempty r.end_aligned empty (gap s empty)
          h
    | inr there ↦ elim (Status-cases (call walk.pmd_entry pmd a next s).0) [
      | inl good ↦
          let split_ok = moves.split pmd a _ (Gives-ok (P a) Q _ called good) in
          elim (Bool-cases checked.0) [
            | inl bad ↦
                rw (there, pmd_round)
                  (rw (good, moves.has_pte)
                    (rw bad (
                      pmd_round_empty limit again pmd a next checked.1 r.nonempty r.end_aligned
                        (laws.cleared pmd _ bad) (gap _ (laws.cleared pmd _ bad))
                        (moves.check_pmd pmd a _ split_ok))))
            | inr table ↦
                rw (there, pmd_round)
                  (rw (good, moves.has_pte)
                    (rw table (
                      walk_pte_range-Ends limit (mmu.pte_offset_map pmd a checked.1) a next
                        checked.1 r fits (at checked.1 s there)
                        (moves.check_pmd pmd a _ split_ok))))
          ]
      | inr (c, bad) ↦ rw (there, pmd_round) (rw bad (Gives-fail (P a) Q _ called bad))
    ]
  ]
    where
      called : Gives (P a) Q (call walk.pmd_entry pmd a next s)
      called = moves.at_pmd pmd a next s h

      checked : Bool × S
      checked =
          mmu.pmd_none_or_trans_huge_or_clear_bad pmd
            (mmu.split_huge_page_pmd pmd (call walk.pmd_entry pmd a next s).1)
