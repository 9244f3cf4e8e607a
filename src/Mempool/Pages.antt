-- ===== src/Mempool/Pages.antt =====
-- `nfgpu_set_mempool` of xt_TOGPU_main.c: the walk over the buffers and the mapping of the pages.
use porteus_gpu.PageWalk.Bounded.{bounded_layout}
use porteus_gpu.Config.{max_pages, max_memory}
use porteus_gpu.PageWalk.Total.{walk_page_covers, IsWalk}
use porteus_gpu.PageWalk.Covers.{IsMmu, Moves}
use porteus_gpu.PageWalk.Loops.{Ends, Gives}
use porteus_gpu.PageWalk.{page_size}
use porteus_gpu.Mempool.{
  store_page, walk_page, nfgpu_set_mempool, map_pages, mmw, lift, NfgpuMemInfo, Mmu, MapState,
  nfgpu_skb_pte_process, Mm,
}
use porteus_gpu.Pool.{Driver}
use porteus_gpu.Base.{
  ltb-true, efault, ◌⊎◌, fault, waits, ==→ne, fail, suc, returns, ==→eq, ◌==◌, true, Outcome, ◌≢◌,
  refl, ok, Status, ◌&&◌, add64, not, Bool-cases, update, arith, ◌*◌, ◌^◌, ◌+◌, ◌<◌, Errno, ◌≤◌, ℕ,
  ◌≡◌, inl, inr,
}

-- The walk has come to address `a` with room for a page each: the table of pages has at most one entry
-- for each page passed, nothing is written beyond, and the rest of the driver is as it was in `d`.
pub record IsAt (uva : ℕ) (d : Driver) (a : ℕ) (e : Driver) : Type 0 where
  pub counted : uva + e.npages * page_size ≤ a
  pub untouched : (i : ℕ) → a ≤ uva + i * page_size → e.pages i ≡ d.pages i
  pub slots : e.skbs ≡ d.skbs
  pub next : e.next ≡ d.next
  pub running : e.running ≡ d.running

IsAt-mono : (uva : ℕ) (d : Driver) (a b : ℕ) (e : Driver) → a ≤ b → IsAt uva d a e → IsAt uva d b e
IsAt-mono uva d a b e le h = record {
  counted = omega arith;
  untouched = λ i p. h.untouched i (omega arith);
  slots = h.slots;
  next = h.next;
  running = h.running;
}

pub lift-IsMmu : {T : Type 0} {m : Mmu T} → IsMmu m → IsMmu (lift m)
lift-IsMmu laws = record {
  pgd_end = laws.pgd_end;
  pud_end = laws.pud_end;
  pmd_end = laws.pmd_end;
  cleared = λ pmd st e. laws.cleared pmd st.tables e;
}

-- A store within the array.
pub store_page_within :
    {T : Type 0} (mm : Mm T) (page : ℕ) (d : Driver)
    → d.npages < max_pages
    → store_page mm page d ≡ record d { pages = update d.pages d.npages page }
unfolding store_page
store_page_within mm page d h = rw (ltb-true d.npages max_pages h) refl

module _ {T : Type 0} (mm : Mm T) (laws : IsMmu mm.mmu) (uva size : ℕ) (small : size ≤ max_memory)
    (d : Driver) where
  abbrev At : ℕ → MapState T → Type 0
  At a st = IsAt uva d a st.drv

  abbrev Never : Errno → MapState T → Type 0
  Never e st = ⊥

  -- A page that is present is recorded in the first unused cell.
  IsAt-record :
      (a page : ℕ) (e : Driver)
      → a < 2 ^ 64
      → IsAt uva d a e
      → IsAt uva d
          (a + page_size)
          (record e { pages = update e.pages e.npages page; npages = add64 e.npages 1 })
  IsAt-record a page e fits h = record {
    counted = let c = h.counted in omega arith;
    untouched = λ i p. let c = h.counted in ground (arith, h.untouched i);
    slots = h.slots;
    next = h.next;
    running = h.running;
  }

  page_moves :
      (p a : ℕ) (st : MapState T)
      → a + page_size ≤ uva + size
      → uva + size < 2 ^ 64
      → At a st
      → Gives (At (a + page_size)) Never (nfgpu_skb_pte_process mm p a (a + page_size) st)
  unfolding nfgpu_skb_pte_process
  page_moves p a st room fits h =
      let page = mm.pte_page (mm.pte_at p st.tables) in
      let stored = store_page_within mm page st.drv (let c = h.counted in omega arith) in
      elim (Bool-cases
        (not (mm.is_swap_pte (mm.pte_at p st.tables)) && mm.pte_present (mm.pte_at p st.tables))) [
          | inl there ↦
              rw (there, stored, nfgpu_skb_pte_process) (IsAt-record a page st.drv (omega arith) h)
          | inr gone ↦
              rw (gone, nfgpu_skb_pte_process)
                (IsAt-mono uva d a (a + page_size) st.drv (omega arith) h)
        ]

  process_Moves :
      uva + size < 2 ^ 64
      → Moves
          (bounded_layout (lift-IsMmu laws) (uva + size))
          (mmw mm)
          (nfgpu_skb_pte_process mm)
          At
          Never
  process_Moves fits = record {
    has_pte = refl;
    no_huge = refl;
    page = λ p a e st al below below_end at h. page_moves p a st (let l = at in omega arith) fits h;
    over_hole = λ a b st from al gap h. IsAt-mono uva d a b st.drv (omega arith) h;
    at_pgd = λ p a n st h. h;
    at_pud = λ p a n st h. h;
    at_pmd = λ p a n st h. h;
    check_pgd = λ p a st h. h;
    check_pud = λ p a st h. h;
    check_pmd = λ p a st h. h;
    split = λ p a st h. h;
    unmap = λ p a st h. h;
    unmap_failed = λ p e st h. h;
  }

-- What the ioctl leaves of a driver `d`: with the pages recorded, if the mapping has succeeded, and with
-- every slot cleared, if not.
pub record IsPooled {T : Type 0} (mm : Mm T) (d : Driver) (gb : NfgpuMemInfo) (r : Status)
    (e : Driver) : Type 0 where
  pub address : e.kva ≡ mm.vmap e.pages e.npages
  pub recorded : e.npages * page_size ≤ gb.size
  pub within : (i : ℕ) → gb.size ≤ i * page_size → e.pages i ≡ d.pages i
  pub next : e.next ≡ d.next
  pub running : e.running ≡ d.running
  pub outcome :
      ((r ≡ ok) × (e.kva ≢ 0) × (e.skbs ≡ d.skbs))
      ⊎ ((r ≡ fail efault) × (e.kva ≡ 0) × ((i : ℕ) → e.skbs i ≡ 0))

map_pages-IsPooled :
    {T : Type 0} (mm : Mm T) (d : Driver) (gb : NfgpuMemInfo) (st : MapState T)
    → IsAt gb.uva d (gb.uva + gb.size) st.drv
    → IsPooled mm d gb (map_pages mm st).0 (map_pages mm st).1.drv
unfolding map_pages
map_pages-IsPooled mm d gb st h = elim (Bool-cases (mm.vmap st.drv.pages st.drv.npages == 0)) [
  | inl none_mapped ↦
      rw (none_mapped, map_pages)
        (record {
          address = refl;
          recorded = let c = h.counted in omega arith;
          within = λ i p. h.untouched i (omega arith);
          next = h.next;
          running = h.running;
          outcome = inr (refl, ==→eq _ _ none_mapped, λ i. refl);
        })
  | inr some_mapped ↦
      rw (some_mapped, map_pages)
        (record {
          address = refl;
          recorded = let c = h.counted in omega arith;
          within = λ i p. h.untouched i (omega arith);
          next = h.next;
          running = h.running;
          outcome = inl (refl, ==→ne _ _ some_mapped, h.slots);
        })
]

-- A walk whose callbacks never fail returns 0.
pub Ends-never :
    {S : Type 0} (P : S → Type 0) (o : Outcome (Status × S))
    → Ends P (λ e s. ⊥) o
    → (s : S) × (o ≡ returns (ok, s)) × P s
Ends-never P (returns (ok, s)) h = (s, refl, h)
Ends-never P (returns (fail e, s)) h = absurd h
Ends-never P waits h = absurd h
Ends-never P fault h = absurd h

-- For a page-aligned request of at most 32 MB below 2 ^ 64, with fuel for a round per page,
-- nfgpu_set_mempool returns. It records at most one page for each page of the request, and writes
-- no cell of nfgpu_pages past them; nfgpu_kva is then what vmap gives for the pages. If it
-- returns 0 then there is a mapping and the slots are as before; else it returns -EFAULT, there
-- is no mapping and every slot is cleared. The search position and the running flag are never
-- changed.
pub nfgpu_set_mempool_lem :
    {T : Type 0} (mm : Mm T) (more buf : ℕ) (st : MapState T)
    → IsMmu mm.mmu
    → mm.has_mm ≡ true
    → IsWalk
        (suc (suc more))
        (mm.copy_from_user buf).uva
        ((mm.copy_from_user buf).uva + (mm.copy_from_user buf).size)
    → (mm.copy_from_user buf).size ≤ max_memory
    → (r : Status × MapState T) × (nfgpu_set_mempool mm (suc (suc more)) buf st ≡ returns r)
      × IsPooled mm st.drv (mm.copy_from_user buf) r.0 r.1.drv
unfolding nfgpu_set_mempool
nfgpu_set_mempool_lem {T} mm more buf st laws has w small = (
  map_pages mm walked.0,
  rw (end_eq, nfgpu_set_mempool) (rw (walked.1, nfgpu_set_mempool) refl),
  map_pages-IsPooled mm st.drv gb walked.0 walked.2,
)
  where
    gb : NfgpuMemInfo
    gb = mm.copy_from_user buf

    end_eq : add64 gb.uva gb.size ≡ gb.uva + gb.size
    end_eq = let fits = w.fits in omega arith

    st₁ : MapState T
    st₁ = record st { drv = record st.drv { uva = gb.uva; size = gb.size; npages = 0 } }

    start : IsAt gb.uva st.drv gb.uva st₁.drv
    start = record {
      counted = omega arith;
      untouched = λ i p. refl;
      slots = refl;
      next = refl;
      running = refl;
    }

    walked :
        (s : MapState T) × (walk_page
            (lift mm.mmu)
            (mmw mm)
            (suc (suc more))
            gb.uva
            (gb.uva + gb.size)
            st₁
          ≡ returns (ok, s))
        × IsAt gb.uva st.drv (gb.uva + gb.size) s.drv
    walked = Ends-never _ _ (
        walk_page_covers (lift-IsMmu laws)
          (process_Moves mm laws gb.uva gb.size small st.drv w.fits) more gb.uva (gb.uva + gb.size)
          st₁ has w (w.end_aligned, omega arith) start)
