-- ===== src/PageWalk/Paging.antt =====
-- Four levels of page tables that stay as they are, as x86-64 has them, and the account of their pointers.
use porteus_gpu.PageWalk.Blocks.{
  pud-NextBlock, pmd-NextBlock, pgd-NextBlock, pgd_size, pud_size, pmd_size, pud_block, block_end,
  user_end, NextBlock, pgd_block, OneBlock, pmd_block,
}
use porteus_gpu.PageWalk.Layout.{Layout}
use porteus_gpu.PageWalk.{Mmu, page_size}
use porteus_gpu.Base.{
  refl, ap, ◌∙◌, sym, suc, ◌&&◌, not, false, Bool, ◌≤◌, ◌/◌, arith, ℕ, ◌+◌, ◌<◌, ◌≡◌, true,
}

-- The macros, on user addresses: each address has an entry in a table of each level, entries that are
-- neighbours in a table are one apart, and whether an entry is empty does not change.
pub record Paging {S : Type 0} (mmu : Mmu S) : Type 0 where
  pub pgd_of : ℕ → ℕ
  pub pud_of : ℕ → ℕ
  pub pmd_of : ℕ → ℕ
  pub pte_of : ℕ → ℕ
  pub no_pgd : ℕ → Bool
  pub no_pud : ℕ → Bool
  pub no_pmd : ℕ → Bool
  pub pgd_end : (a e : ℕ) → mmu.pgd_addr_end a e ≡ block_end pgd_size a e
  pub pud_end : (a e : ℕ) → mmu.pud_addr_end a e ≡ block_end pud_size a e
  pub pmd_end : (a e : ℕ) → mmu.pmd_addr_end a e ≡ block_end pmd_size a e
  pub pgd_at : (a : ℕ) (s : S) → mmu.pgd_offset a s ≡ pgd_of a
  pub pud_at : (a : ℕ) (s : S) → no_pgd a ≡ false → mmu.pud_offset (pgd_of a) a s ≡ pud_of a
  pub pmd_at : (a : ℕ) (s : S) → no_pud a ≡ false → mmu.pmd_offset (pud_of a) a s ≡ pmd_of a
  pub pte_at : (a : ℕ) (s : S) → no_pmd a ≡ false → mmu.pte_offset_map (pmd_of a) a s ≡ pte_of a
  pub pgd_none : (a : ℕ) (s : S) → (mmu.pgd_none_or_clear_bad (pgd_of a) s).0 ≡ no_pgd a
  pub pud_none : (a : ℕ) (s : S) → (mmu.pud_none_or_clear_bad (pud_of a) s).0 ≡ no_pud a
  pub pmd_none : (a : ℕ) (s : S) → mmu.pmd_none (pmd_of a) s ≡ no_pmd a
  pub pgd_same : (a b : ℕ) → a / pgd_size ≡ b / pgd_size → no_pgd a ≡ no_pgd b
  pub pud_same : (a b : ℕ) → a / pud_size ≡ b / pud_size → no_pud a ≡ no_pud b
  pub pmd_same : (a b : ℕ) → a / pmd_size ≡ b / pmd_size → no_pmd a ≡ no_pmd b
  pub pgd_step :
      (a b : ℕ) → b < user_end → b / pgd_size ≡ suc (a / pgd_size) → pgd_of b ≡ pgd_of a + 1
  pub pud_step :
      (a b : ℕ)
      → a / pgd_size ≡ b / pgd_size
      → b / pud_size ≡ suc (a / pud_size)
      → pud_of b ≡ pud_of a + 1
  pub pmd_step :
      (a b : ℕ)
      → a / pud_size ≡ b / pud_size
      → b / pmd_size ≡ suc (a / pmd_size)
      → pmd_of b ≡ pmd_of a + 1
  pub pte_step :
      (a b : ℕ)
      → a / pmd_size ≡ b / pmd_size
      → b / page_size ≡ suc (a / page_size)
      → pte_of b ≡ pte_of a + 1

module _ {S : Type 0} {mmu : Mmu S} (g : Paging mmu) where
  -- The address has a page table entry.
  abbrev pub mapped : ℕ → Bool
  mapped a = not (g.no_pgd a) && not (g.no_pud a) && not (g.no_pmd a)

  pub pgd_walk : (a e : ℕ) → a < e → NextBlock pgd_size a e (mmu.pgd_addr_end a e)
  pgd_walk a e h = rw (g.pgd_end a e) (pgd-NextBlock a e h)

  pub pud_walk : (a e : ℕ) → a < e → NextBlock pud_size a e (mmu.pud_addr_end a e)
  pud_walk a e h = rw (g.pud_end a e) (pud-NextBlock a e h)

  pub pmd_walk : (a e : ℕ) → a < e → NextBlock pmd_size a e (mmu.pmd_addr_end a e)
  pmd_walk a e h = rw (g.pmd_end a e) (pmd-NextBlock a e h)

  abbrev pub PgdAt : ℕ → ℕ → ℕ → Type 0
  PgdAt p a e = (p ≡ g.pgd_of a) × (e ≤ user_end)

  abbrev pub PudAt : ℕ → ℕ → ℕ → Type 0
  PudAt p a e = (p ≡ g.pud_of a) × OneBlock pgd_size a e × (g.no_pgd a ≡ false)

  abbrev pub PmdAt : ℕ → ℕ → ℕ → Type 0
  PmdAt p a e =
      (p ≡ g.pmd_of a) × OneBlock pud_size a e × (g.no_pgd a ≡ false) × (g.no_pud a ≡ false)

  -- The pointer is that of the address, which is mapped.
  abbrev pub PteAt : ℕ → ℕ → ℕ → Type 0
  PteAt p a e = (p ≡ g.pte_of a) × OneBlock pmd_size a e × (mapped a ≡ true)

  abbrev pub Unmapped : ℕ → ℕ → Type 0
  Unmapped a b = (c : ℕ) → a ≤ c → c < b → mapped c ≡ false

  pub pud_goes_on :
      (p a e b : ℕ) → NextBlock pud_size a e b → PudAt p a e → b < e → PudAt (p + 1) b e
  pud_goes_on p a e b n at more =
      let same = pgd_block a b e n.above more at.1 in
      (
        omega (arith, at.0, g.pud_step a b same (n.next more)),
        omega arith,
        sym (g.pgd_same a b same) ∙ at.2,
      )

  pub pmd_goes_on :
      (p a e b : ℕ) → NextBlock pmd_size a e b → PmdAt p a e → b < e → PmdAt (p + 1) b e
  pmd_goes_on p a e b n at more =
      let same = pud_block a b e n.above more at.1 in
      (
        omega (arith, at.0, g.pmd_step a b same (n.next more)),
        omega arith,
        sym (g.pgd_same a b (omega arith)) ∙ at.2,
        sym (g.pud_same a b same) ∙ at.3,
      )

  pub pte_goes_on : (p a e : ℕ) → PteAt p a e → a + page_size < e → PteAt (p + 1) (a + page_size) e
  pte_goes_on p a e at more =
      let b = a + page_size in
      let same = pmd_block a b e (omega arith) more at.1 in
      (
        omega (arith, at.0, g.pte_step a b same (omega arith)),
        omega arith,
        rw
            (
              sym (g.pgd_same a b (omega arith)),
              sym (g.pud_same a b (omega arith)),
              sym (g.pmd_same a b same),
            )
            at.2,
      )

  pub pgd_goes_on :
      (p a e b : ℕ) → NextBlock pgd_size a e b → PgdAt p a e → b < e → PgdAt (p + 1) b e
  pgd_goes_on p a e b n at more =
      (omega (arith, at.0, g.pgd_step a b (omega arith) (n.next more)), at.1)

  pgd_there :
      (p a : ℕ) (t : S) {missing : Bool}
      → p ≡ g.pgd_of a
      → (mmu.pgd_none_or_clear_bad p t).0 ≡ missing
      → g.no_pgd a ≡ missing
  pgd_there p a t at e =
      sym (g.pgd_none a t) ∙ ap (λ q. (mmu.pgd_none_or_clear_bad q t).0) (sym at) ∙ e

  pud_there :
      (p a : ℕ) (t : S) {missing : Bool}
      → p ≡ g.pud_of a
      → (mmu.pud_none_or_clear_bad p t).0 ≡ missing
      → g.no_pud a ≡ missing
  pud_there p a t at e =
      sym (g.pud_none a t) ∙ ap (λ q. (mmu.pud_none_or_clear_bad q t).0) (sym at) ∙ e

  pmd_there :
      (p a : ℕ) (t : S) {missing : Bool}
      → p ≡ g.pmd_of a
      → mmu.pmd_none p t ≡ missing
      → g.no_pmd a ≡ missing
  pmd_there p a t at e = sym (g.pmd_none a t) ∙ ap (λ q. mmu.pmd_none q t) (sym at) ∙ e

  pub pud_begins :
      (p a e : ℕ) (s t : S)
      → a < e
      → PgdAt p a e
      → (mmu.pgd_none_or_clear_bad p t).0 ≡ false
      → PudAt (mmu.pud_offset p a s) a (mmu.pgd_addr_end a e)
  pud_begins p a e s t h at there =
      let here = pgd_there p a t at.0 there in
      (ap (λ q. mmu.pud_offset q a s) at.0 ∙ g.pud_at a s here, (pgd_walk a e h).one, here)

  pub pmd_begins :
      (p a e : ℕ) (s t : S)
      → a < e
      → PudAt p a e
      → (mmu.pud_none_or_clear_bad p t).0 ≡ false
      → PmdAt (mmu.pmd_offset p a s) a (mmu.pud_addr_end a e)
  pmd_begins p a e s t h at there =
      let here = pud_there p a t at.0 there in
      (ap (λ q. mmu.pmd_offset q a s) at.0 ∙ g.pmd_at a s here, (pud_walk a e h).one, at.2, here)

  pub pte_begins :
      (p a e : ℕ) (s t : S)
      → a < e
      → PmdAt p a e
      → mmu.pmd_none p t ≡ false
      → PteAt (mmu.pte_offset_map p a s) a (mmu.pmd_addr_end a e)
  pte_begins p a e s t h at there =
      let here = pmd_there p a t at.0 there in
      (
        ap (λ q. mmu.pte_offset_map q a s) at.0 ∙ g.pte_at a s here,
        (pmd_walk a e h).one,
        rw (at.2, at.3, here) refl,
      )

  pub pgd_gap :
      (p a e : ℕ) (t : S)
      → a < e
      → PgdAt p a e
      → (mmu.pgd_none_or_clear_bad p t).0 ≡ true
      → Unmapped a (mmu.pgd_addr_end a e)
  pgd_gap p a e t h at gone c from to =
      rw
        (
          sym (g.pgd_same a c (pgd_block a c (mmu.pgd_addr_end a e) from to (pgd_walk a e h).one)),
          pgd_there p a t at.0 gone,
        )
        refl

  pub pud_gap :
      (p a e : ℕ) (t : S)
      → a < e
      → PudAt p a e
      → (mmu.pud_none_or_clear_bad p t).0 ≡ true
      → Unmapped a (mmu.pud_addr_end a e)
  pud_gap p a e t h at gone c from to =
      rw
        (
          sym (g.pud_same a c (pud_block a c (mmu.pud_addr_end a e) from to (pud_walk a e h).one)),
          pud_there p a t at.0 gone,
        )
        (ground arith)

  pub pmd_gap :
      (p a e : ℕ) (t : S)
      → a < e
      → PmdAt p a e
      → mmu.pmd_none p t ≡ true
      → Unmapped a (mmu.pmd_addr_end a e)
  pmd_gap p a e t h at gone c from to =
      rw
        (
          sym (g.pmd_same a c (pmd_block a c (mmu.pmd_addr_end a e) from to (pmd_walk a e h).one)),
          pmd_there p a t at.0 gone,
        )
        (ground arith)

  abbrev pub paging_layout : Layout mmu
  paging_layout = record {
    Pgd = PgdAt;
    Pud = PudAt;
    Pmd = PmdAt;
    Pte = PteAt;
    Gap = Unmapped;
    Within = λ e. e ≤ user_end;
    pgd_first = λ a e s al h w. (g.pgd_at a s, w);
    pgd_next = λ p a e h at. pgd_goes_on p a e (mmu.pgd_addr_end a e) (pgd_walk a e h) at;
    pud_first = pud_begins;
    pud_next = λ p a e h at. pud_goes_on p a e (mmu.pud_addr_end a e) (pud_walk a e h) at;
    pmd_first = pmd_begins;
    pmd_next = λ p a e h at. pmd_goes_on p a e (mmu.pmd_addr_end a e) (pmd_walk a e h) at;
    pte_first = pte_begins;
    pte_next = pte_goes_on;
    pgd_gap = pgd_gap;
    pud_gap = pud_gap;
    pmd_gap = pmd_gap;
  }
