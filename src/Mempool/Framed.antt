-- ===== src/Mempool/Framed.antt =====
-- The invariant of the walk in `nfgpu_set_mempool`: the frames of the pages passed are recorded.
use porteus_gpu.PageWalk.Bounded.{bounded_layout}
use porteus_gpu.Mempool.Pages.{lift-IsMmu, store_page_within}
use porteus_gpu.PageWalk.Layout.{both_layouts}
use porteus_gpu.Config.{max_memory}
use mathlib.Core.List.{append-nil}
use porteus_gpu.PageWalk.Loops.{Gives}
use porteus_gpu.PageWalk.Covers.{IsMmu, Moves}
use porteus_gpu.Mempool.Frames.{listing, listing_more, frames_gap, frame_at, frames}
use porteus_gpu.PageWalk.Paging.{paging_layout, Unmapped, mapped, PteAt, Paging}
use porteus_gpu.PageWalk.{page_size, Mmu}
use porteus_gpu.Mempool.{mmw, nfgpu_skb_pte_process, lift, MapState, Mm}
use porteus_gpu.Base.{
  refl, add64_small, [], ◌∷◌, update, sym, ◌&&◌, not, inr, ap, ◌/◌, arith, ◌-◌, if◌then◌else◌, inl,
  ◌++◌, true, suc, ◌^◌, ◌≤◌, Bool-cases, ◌<◌, ◌*◌, Errno, ◌∙◌, ◌%◌, List, ◌+◌, ◌≡◌, ℕ,
}

-- The checks and the mappings of the walk leave the tables alone: there is no bad entry to clear, and no
-- huge page to split.
pub record IsSettled {S : Type 0} (mmu : Mmu S) : Type 0 where
  pub pgd_stays : (p : ℕ) (s : S) → (mmu.pgd_none_or_clear_bad p s).1 ≡ s
  pub pud_stays : (p : ℕ) (s : S) → (mmu.pud_none_or_clear_bad p s).1 ≡ s
  pub pmd_stays : (p : ℕ) (s : S) → (mmu.pmd_none_or_trans_huge_or_clear_bad p s).1 ≡ s
  pub split_stays : (p : ℕ) (s : S) → mmu.split_huge_page_pmd p s ≡ s
  pub unmap_stays : (p : ℕ) (s : S) → mmu.pte_unmap p s ≡ s

unfoldable pub lift-Paging : {T : Type 0} {m : Mmu T} → Paging m → Paging (lift m)
lift-Paging g = record {
  pgd_of = g.pgd_of;
  pud_of = g.pud_of;
  pmd_of = g.pmd_of;
  pte_of = g.pte_of;
  no_pgd = g.no_pgd;
  no_pud = g.no_pud;
  no_pmd = g.no_pmd;
  pgd_end = g.pgd_end;
  pud_end = g.pud_end;
  pmd_end = g.pmd_end;
  pgd_at = λ a st. g.pgd_at a st.tables;
  pud_at = λ a st. g.pud_at a st.tables;
  pmd_at = λ a st. g.pmd_at a st.tables;
  pte_at = λ a st. g.pte_at a st.tables;
  pgd_none = λ a st. g.pgd_none a st.tables;
  pud_none = λ a st. g.pud_none a st.tables;
  pmd_none = λ a st. g.pmd_none a st.tables;
  pgd_same = g.pgd_same;
  pud_same = g.pud_same;
  pmd_same = g.pmd_same;
  pgd_step = g.pgd_step;
  pud_step = g.pud_step;
  pmd_step = g.pmd_step;
  pte_step = g.pte_step;
}

module _ {T : Type 0} (mm : Mm T) (g : Paging mm.mmu) (t : T) (uva : ℕ) where
  -- The walk has come past n pages: their frames are recorded.
  pub record IsFramed (a : ℕ) (st : MapState T) : Type 0 where
    pub passed : ℕ
    pub at : a ≡ uva + passed * page_size
    pub listed : listing st.drv.pages st.drv.npages ≡ frames mm g t uva passed
    pub few : st.drv.npages ≤ passed
    pub same : st.tables ≡ t

  abbrev pub NoFailure : Errno → MapState T → Type 0
  NoFailure e st = ⊥

  IsFramed-tables :
      (a : ℕ) (st : MapState T) (u : T)
      → u ≡ st.tables
      → IsFramed a st
      → IsFramed a (record st { tables = u })
  IsFramed-tables a st u e h = record {
    passed = h.passed;
    at = h.at;
    listed = h.listed;
    few = h.few;
    same = e ∙ h.same;
  }

  IsFramed-gap :
      (a b : ℕ) (st : MapState T)
      → uva % page_size ≡ 0
      → a < b
      → b % page_size ≡ 0
      → Unmapped g a b
      → IsFramed a st
      → IsFramed b st
  IsFramed-gap a b st ual from al gap h =
      let m = (b - uva) / page_size in
      let reached : b ≡ uva + m * page_size = let e = h.at in omega arith in
      record {
        passed = m;
        at = reached;
        listed =
            h.listed
            ∙ sym (
                frames_gap mm g t uva h.passed m (let e = h.at in omega arith)
                  (λ c lo hi. gap c (let e = h.at in omega arith) (omega arith)));
        few = let e = h.at in let f = h.few in omega arith;
        same = h.same;
      }

  -- The entry that the callback reads is that of its address.
  same_entry :
      (p a e : ℕ) (st : MapState T)
      → PteAt g p a e
      → IsFramed a st
      → mm.pte_at p st.tables ≡ mm.pte_at (g.pte_of a) t
  same_entry p a e st at h = rw (at.0, h.same) refl

  frame_at_lem :
      (a entry : ℕ)
      → mapped g a ≡ true
      → entry ≡ mm.pte_at (g.pte_of a) t
      → frame_at mm g t a ≡ (
          if not (mm.is_swap_pte entry) && mm.pte_present entry then mm.pte_page entry ∷ [] else [])
  unfolding frame_at
  frame_at_lem a entry m e = rw (m, e) refl

  frames_more :
      (a n : ℕ) (l : List ℕ)
      → a ≡ uva + n * page_size
      → frame_at mm g t a ≡ l
      → frames mm g t uva (suc n) ≡ frames mm g t uva n ++ l
  unfolding frames
  frames_more a n l e f =
      ap (λ b. frames mm g t uva n ++ frame_at mm g t b) (sym e)
      ∙ ap (λ k. frames mm g t uva n ++ k) f

  page-IsFramed :
      (p a e : ℕ) (st : MapState T)
      → a < 2 ^ 64
      → a + page_size ≤ uva + max_memory
      → PteAt g p a e
      → IsFramed a st
      → Gives (IsFramed (a + page_size)) NoFailure (nfgpu_skb_pte_process mm p a (a + page_size) st)
  unfolding nfgpu_skb_pte_process
  page-IsFramed p a e st fits room at h =
      let entry = mm.pte_at p st.tables in
      let next : a + page_size ≡ uva + suc h.passed * page_size = let e = h.at in omega arith in
      let page = frame_at_lem a entry at.2 (same_entry p a e st at h) in
      let stored =
        store_page_within mm (mm.pte_page entry) st.drv
          (let e = h.at in let f = h.few in omega arith) in
      elim (Bool-cases (not (mm.is_swap_pte entry) && mm.pte_present entry)) [
        | inl there ↦
            rw (there, stored, nfgpu_skb_pte_process)
              (record {
                passed = suc h.passed;
                at = next;
                listed =
                    ap (listing (update st.drv.pages st.drv.npages (mm.pte_page entry)))
                      (add64_small st.drv.npages 1 (let e = h.at in let f = h.few in omega arith))
                    ∙ listing_more st.drv.pages st.drv.npages (mm.pte_page entry)
                    ∙ ap (λ l. l ++ mm.pte_page entry ∷ []) h.listed
                    ∙ sym (
                        frames_more a h.passed (mm.pte_page entry ∷ []) h.at
                          (page ∙ rw there refl));
                few = let f = h.few in omega arith;
                same = h.same;
              })
        | inr gone ↦
            rw (gone, nfgpu_skb_pte_process)
              (record {
                passed = suc h.passed;
                at = next;
                listed =
                    h.listed
                    ∙ sym (append-nil (frames mm g t uva h.passed))
                    ∙ sym (frames_more a h.passed [] h.at (page ∙ rw gone refl));
                few = let f = h.few in omega arith;
                same = h.same;
              })
      ]

  pub framing_Moves :
      IsSettled mm.mmu
      → uva % page_size ≡ 0
      → (laws : IsMmu mm.mmu) → (size : ℕ) → size ≤ max_memory
      → Moves
          (both_layouts
            (paging_layout (lift-Paging g))
            (bounded_layout (lift-IsMmu laws) (uva + size)))
          (mmw mm)
          (nfgpu_skb_pte_process mm)
          IsFramed
          NoFailure
  unfolding lift-Paging
  framing_Moves settled al laws size small = record {
    has_pte = refl;
    no_huge = refl;
    page = λ p a e st al' below fits at h.
        page-IsFramed p a e st (omega arith) (let l = at.1 in omega arith) at.0 h;
    over_hole = λ a b st from al' gap h. IsFramed-gap a b st al from al' gap.0 h;
    at_pgd = λ p a n st h. h;
    at_pud = λ p a n st h. h;
    at_pmd = λ p a n st h. h;
    check_pgd = λ p a st h. IsFramed-tables a st _ (settled.pgd_stays p st.tables) h;
    check_pud = λ p a st h. IsFramed-tables a st _ (settled.pud_stays p st.tables) h;
    check_pmd = λ p a st h. IsFramed-tables a st _ (settled.pmd_stays p st.tables) h;
    split = λ p a st h. IsFramed-tables a st _ (settled.split_stays p st.tables) h;
    unmap = λ p a st h. IsFramed-tables a st _ (settled.unmap_stays p st.tables) h;
    unmap_failed = λ p e st h. h;
  }
