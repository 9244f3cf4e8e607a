-- ===== src/Mempool/Exact.antt =====
-- `nfgpu_set_mempool` records exactly the pages of the request that are present, in the order of their
-- addresses.
use porteus_gpu.Config.{max_memory}
use porteus_gpu.Mempool.Framed.{framing_Moves, IsFramed, IsSettled, lift-Paging}
use porteus_gpu.PageWalk.Blocks.{user_end}
use porteus_gpu.PageWalk.Total.{walk_page_covers, IsWalk}
use porteus_gpu.PageWalk.Covers.{IsMmu}
use porteus_gpu.Mempool.Frames.{listing, frames}
use porteus_gpu.Mempool.Pages.{lift-IsMmu, Ends-never}
use porteus_gpu.PageWalk.Paging.{Paging}
use porteus_gpu.PageWalk.{page_size}
use porteus_gpu.Mempool.{walk_page, mmw, lift, MapState, Mm, map_pages, nfgpu_set_mempool}
use porteus_gpu.Base.{
  ok, refl, add64, returns, Status, inr, ap, ◌/◌, arith, inl, true, suc, ◌==◌, ◌≤◌, Bool-cases, ◌∙◌,
  List, ◌+◌, ◌≡◌, ℕ,
}

-- The pages that were found are mapped.
map_pages_kept :
    {T : Type 0} (mm : Mm T) (st : MapState T) (l : List ℕ)
    → listing st.drv.pages st.drv.npages ≡ l
    → let r = map_pages mm st in
      (listing r.1.drv.pages r.1.drv.npages ≡ l)
      × (r.1.drv.kva ≡ mm.vmap r.1.drv.pages r.1.drv.npages)
unfolding map_pages
map_pages_kept mm st l h = elim (Bool-cases (mm.vmap st.drv.pages st.drv.npages == 0)) [
  | inl none_mapped ↦ rw (none_mapped, map_pages) (h, refl)
  | inr some_mapped ↦ rw (some_mapped, map_pages) (h, refl)
]

-- For a page-aligned request of at most 32 MB of user addresses, nfgpu_set_mempool, with fuel for
-- a round per page and over page tables that the walk's checks leave alone and whose neighbouring
-- entries are one apart, returns with exactly the frames of the pages of the request that are
-- mapped and present in nfgpu_pages, in the order of their addresses, each read from the entry of
-- its own address, and with the address that vmap gives for them in nfgpu_kva.
pub nfgpu_set_mempool-frames :
    {T : Type 0} (mm : Mm T) (g : Paging mm.mmu) (more buf : ℕ) (st : MapState T)
    → IsMmu mm.mmu
    → IsSettled mm.mmu
    → mm.has_mm ≡ true
    → IsWalk
        (suc (suc more))
        (mm.copy_from_user buf).uva
        ((mm.copy_from_user buf).uva + (mm.copy_from_user buf).size)
    → (mm.copy_from_user buf).size ≤ max_memory
    → (mm.copy_from_user buf).uva + (mm.copy_from_user buf).size ≤ user_end
    → (r : Status × MapState T) × (nfgpu_set_mempool mm (suc (suc more)) buf st ≡ returns r)
      × (listing r.1.drv.pages r.1.drv.npages
          ≡ frames mm g st.tables
              (mm.copy_from_user buf).uva
              ((mm.copy_from_user buf).size / page_size))
      × (r.1.drv.kva ≡ mm.vmap r.1.drv.pages r.1.drv.npages)
unfolding nfgpu_set_mempool listing frames lift-Paging
nfgpu_set_mempool-frames {T} mm g more buf st laws settled has w small user =
    let gb = mm.copy_from_user buf in
    let pages = gb.size / page_size in
    let (s, done, framed) = walked in
    let all_passed : framed.passed ≡ pages =
      let e = framed.at in let al = w.end_aligned in let al' = w.start_aligned in omega arith in
    let listed : listing s.drv.pages s.drv.npages ≡ frames mm g st.tables gb.uva pages =
      framed.listed ∙ ap (frames mm g st.tables gb.uva) all_passed in
    let mapped = map_pages_kept mm s (frames mm g st.tables gb.uva pages) listed in
    (
      map_pages mm s,
      rw (end_eq, nfgpu_set_mempool) (rw (done, nfgpu_set_mempool) refl),
      mapped.0,
      mapped.1,
    )
  where
    end_eq :
        add64 (mm.copy_from_user buf).uva (mm.copy_from_user buf).size
        ≡ (mm.copy_from_user buf).uva + (mm.copy_from_user buf).size
    end_eq = let fits = w.fits in omega arith

    st₁ : MapState T
    st₁ = record st {
      drv = record st.drv {
        uva = (mm.copy_from_user buf).uva;
        size = (mm.copy_from_user buf).size;
        npages = 0;
      };
    }

    walked :
        (s : MapState T) × (walk_page
            (lift mm.mmu)
            (mmw mm)
            (suc (suc more))
            (mm.copy_from_user buf).uva
            ((mm.copy_from_user buf).uva + (mm.copy_from_user buf).size)
            st₁
          ≡ returns (ok, s))
        × IsFramed mm g st.tables
            (mm.copy_from_user buf).uva
            ((mm.copy_from_user buf).uva + (mm.copy_from_user buf).size)
            s
    walked = Ends-never _ _ (
        walk_page_covers (lift-IsMmu laws)
          (framing_Moves mm g st.tables (mm.copy_from_user buf).uva settled w.start_aligned laws
            (mm.copy_from_user buf).size small)
          more (mm.copy_from_user buf).uva
          ((mm.copy_from_user buf).uva + (mm.copy_from_user buf).size) st₁ has w
          (user, (w.end_aligned, omega arith))
          (record { passed = 0; at = omega arith; listed = refl; few = omega arith; same = refl }))
