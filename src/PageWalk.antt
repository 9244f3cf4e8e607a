-- ===== src/PageWalk.antt =====
-- togpu/driver/xt_TOGPU_pagewalk.c: the walk over four levels of page tables with a callback for each
-- level. The tables and the callbacks' own data are one state, `S`, that both change.
mod Tables
pub mod Layout
pub mod Blocks
pub mod Paging
pub mod Loops
pub mod Covers
pub mod Total
pub mod Bounded
pub mod Unaligned
pub mod Tests
pub use Tables.{page_size, Entry, MmWalk, VmArea, Mmu}
use Prim.Native.Nat.{bit_and}
use porteus_gpu.Base.{
  ◌&&◌, not, leb, ◌||◌, ltb, ◌+◌, ◌==◌, if◌then◌else◌, Bool, Status, add64, Outcome, Option, ℕ,
  zero, suc, some, none, true, false, ok, fail, returns, waits, fault, einval,
}

-- What a round of a `do … while` over a range leaves: the error, the next address and pointer.
pub record Round (S : Type 0) : Type 0 where
  pub err : Status
  pub next : ℕ
  pub pointer : ℕ
  pub state : S

-- `hugetlb_entry_end`: the end of the huge page, or of the range.
pub hugetlb_entry_end : VmArea → ℕ → ℕ → ℕ
hugetlb_entry_end vma addr end =
    let boundary = add64 (bit_and addr vma.huge_page_mask) vma.huge_page_size in
    if ltb boundary end then boundary else end

abbrev pub is_some {ℓ} : {A : Type ℓ} → Option A → Bool
is_some none = false
is_some (some _) = true

module _ {S : Type 0} where
  -- A callback that may be missing.
  abbrev pub call : Option (Entry S) → Entry S
  call none p addr next s = (ok, s)
  call (some entry) p addr next s = entry p addr next s

  -- `do { … if( err ) break; } while( addr = next, addr != end )`, with fuel.
  unfoldable pub range_loop :
      (ℕ → ℕ → S → Outcome (Round S)) → ℕ → ℕ → ℕ → ℕ → S → Outcome (Status × S)
  range_loop round zero p addr end s = waits
  range_loop round (suc fuel) p addr end s = elim (round p addr s) [
    | waits ↦ waits
    | fault ↦ fault
    | returns r ↦ elim r.err [
      | fail e ↦ returns (fail e, r.state)
      | ok ↦ elim (r.next == end) [
        | true ↦ returns (ok, r.state)
        | false ↦ range_loop round fuel r.pointer r.next end r.state
      ]
    ]
  ]

  -- The result of a lower level, as a round that goes on to the next entry.
  abbrev pub as_round : ℕ → ℕ → Outcome (Status × S) → Outcome (Round S)
  as_round next p (returns (err, s)) =
      returns (record { err = err; next = next; pointer = p; state = s })
  as_round next p waits = waits
  as_round next p fault = fault

module _ {S : Type 0} (mmu : Mmu S) (walk : MmWalk S) where
  -- The hole of a missing entry.
  abbrev pub hole : ℕ → ℕ → S → Status × S
  hole addr next s = elim walk.pte_hole [ none ↦ (ok, s) | some f ↦ f addr next s ]

  -- `walk_pte_range`, with fuel; addresses wrap at 2 ^ 64.
  unfoldable pub walk_pte_range : Entry S → ℕ → ℕ → ℕ → ℕ → S → Outcome (Status × S)
  walk_pte_range entry zero pte addr end s = waits
  walk_pte_range entry (suc fuel) pte addr end s =
      let (err, s') = entry pte addr (add64 addr page_size) s in
      let next = add64 addr page_size in
      elim err [
        | fail e ↦ returns (fail e, mmu.pte_unmap pte s')
        | ok ↦ elim (next == end) [
          | true ↦ returns (ok, mmu.pte_unmap pte s')
          | false ↦ walk_pte_range entry fuel (pte + 1) next end s'
        ]
      ]

  -- `hugetlb_vma`: the huge page area that holds the address, if there is a callback for it.
  unfoldable pub hugetlb_vma : ℕ → S → Option VmArea
  hugetlb_vma addr s = elim walk.hugetlb_entry [
    | none ↦ none
    | some _ ↦ elim (mmu.find_vma addr s) [
      | none ↦ none
      | some vma ↦ if leb vma.vm_start addr && vma.is_hugetlb then some vma else none
    ]
  ]

  -- The callback on a huge page, if both the page and the callback are there.
  pub hugetlb_call : VmArea → ℕ → ℕ → S → Status × S
  hugetlb_call vma addr next s = elim (mmu.huge_pte_offset (bit_and addr vma.huge_page_mask) s) [
    | none ↦ (ok, s)
    | some pte ↦ elim walk.hugetlb_entry [
      | none ↦ (ok, s)
      | some entry ↦ entry pte vma.huge_page_mask addr next s
    ]
  ]

  module _ (limit : ℕ) where
    -- The body of the loop in `walk_pmd_range`, with fuel for `goto again`.
    unfoldable pub pmd_round : ℕ → ℕ → ℕ → ℕ → S → Outcome (Status × S)
    pmd_round zero pmd addr next s = waits
    pmd_round (suc again) pmd addr next s = elim (mmu.pmd_none pmd s) [
      | true ↦ returns (hole addr next s)
      | false ↦
          let (err, s₁) = call walk.pmd_entry pmd addr next s in
          elim err [
            | fail e ↦ returns (fail e, s₁)
            | ok ↦ elim walk.pte_entry [
              | none ↦ returns (ok, s₁)
              | some entry ↦
                  let s₂ = mmu.split_huge_page_pmd pmd s₁ in
                  let (bad, s₃) = mmu.pmd_none_or_trans_huge_or_clear_bad pmd s₂ in
                  elim bad [
                    | true ↦ pmd_round again pmd addr next s₃
                    | false ↦
                        walk_pte_range entry limit (mmu.pte_offset_map pmd addr s₃) addr next s₃
                  ]
            ]
          ]
    ]

    -- `walk_pmd_range`
    unfoldable pub walk_pmd_range : ℕ → ℕ → ℕ → S → Outcome (Status × S)
    walk_pmd_range pud addr end s =
        range_loop
          (λ pmd a t.
            let next = mmu.pmd_addr_end a end in
            as_round next (pmd + 1) (pmd_round limit pmd a next t))
          limit (mmu.pmd_offset pud addr s) addr end s

    -- The body of the loop in `walk_pud_range`.
    unfoldable pub pud_round : ℕ → ℕ → ℕ → S → Outcome (Status × S)
    pud_round pud addr next s =
        let (missing, s₁) = mmu.pud_none_or_clear_bad pud s in
        let (err, s₂) = call walk.pud_entry pud addr next s₁ in
        elim missing [
          | true ↦ returns (hole addr next s₁)
          | false ↦ elim err [
            | fail e ↦ returns (fail e, s₂)
            | ok ↦
                if is_some walk.pmd_entry || is_some walk.pte_entry
                then walk_pmd_range pud addr next s₂
                else returns (ok, s₂)
          ]
        ]

    -- `walk_pud_range`
    unfoldable pub walk_pud_range : ℕ → ℕ → ℕ → S → Outcome (Status × S)
    walk_pud_range pgd addr end s =
        range_loop
          (λ pud a t.
            let next = mmu.pud_addr_end a end in as_round next (pud + 1) (pud_round pud a next t))
          limit (mmu.pud_offset pgd addr s) addr end s

    -- `walk_hugetlb_range`
    pub walk_hugetlb_range : VmArea → ℕ → ℕ → S → Outcome (Status × S)
    walk_hugetlb_range vma addr end s =
        range_loop
          (λ p a t.
            let next = hugetlb_entry_end vma a end in
            as_round next p (returns (hugetlb_call vma a next t)))
          limit 0 addr end s

    -- The body of the loop in `walk_page`, for an entry that is not of a huge page area.
    unfoldable pub pgd_round : ℕ → ℕ → ℕ → S → Outcome (Status × S)
    pgd_round pgd addr next s =
        let (missing, s₁) = mmu.pgd_none_or_clear_bad pgd s in
        let (err, s₂) = call walk.pgd_entry pgd addr next s₁ in
        elim missing [
          | true ↦ returns (hole addr next s₁)
          | false ↦ elim err [
            | fail e ↦ returns (fail e, s₂)
            | ok ↦
                if is_some walk.pud_entry || is_some walk.pmd_entry || is_some walk.pte_entry
                then walk_pud_range pgd addr next s₂
                else returns (ok, s₂)
          ]
        ]

    -- After a huge page area the pointer is looked up anew: `pgd = pgd_offset(walk->mm, next)`.
    abbrev pub huge_round : ℕ → Outcome (Status × S) → Outcome (Round S)
    huge_round next (returns (err, s)) =
        returns (record { err = err; next = next; pointer = mmu.pgd_offset next s; state = s })
    huge_round next waits = waits
    huge_round next fault = fault

    -- The body of the loop in `walk_page`.
    unfoldable pub page_round : ℕ → ℕ → ℕ → S → Outcome (Round S)
    page_round end pgd addr s =
        let next = mmu.pgd_addr_end addr end in
        elim (hugetlb_vma addr s) [
          | some vma ↦
              let next' = if ltb vma.vm_end next then vma.vm_end else next in
              huge_round next' (walk_hugetlb_range vma addr next' s)
          | none ↦ as_round next (pgd + 1) (pgd_round pgd addr next s)
        ]

    -- `walk_page`
    unfoldable pub walk_page : ℕ → ℕ → S → Outcome (Status × S)
    walk_page addr end s =
        let outcome = range_loop (page_round end) limit (mmu.pgd_offset addr s) addr end s in
        if leb end addr
        then returns (ok, s)
        else if not walk.has_mm
        then returns (fail einval, s)
        else outcome
