-- ===== src/Mempool/Frames.antt =====
-- Which pages `nfgpu_set_mempool` records: those of the request that are present, in the order of their
-- addresses.
use mathlib.Core.List.{append-nil}
use porteus_gpu.PageWalk.{page_size}
use porteus_gpu.PageWalk.Paging.{mapped, Unmapped, Paging}
use porteus_gpu.Mempool.{Mm}
use porteus_gpu.Base.{
  inr, inl, ◌⊎◌, refl, ◌∙◌, ap, zero, ◌&&◌, ◌∷◌, arith, not, ◌*◌, suc, ◌++◌, Bool, [], ◌+◌,
  if◌then◌else◌, ◌≡◌, List, update, ◌≤◌, ℕ,
}

-- The first n cells of an array.
unfoldable pub listing : (ℕ → ℕ) → ℕ → List ℕ
listing f zero = []
listing f (suc n) = listing f n ++ f n ∷ []

listing-update : (f : ℕ → ℕ) (i x n : ℕ) → n ≤ i → listing (update f i x) n ≡ listing f n
unfolding listing
listing-update f i x zero h = refl
listing-update f i x (suc n) h =
    rw (listing-update f i x n (omega arith)) (ap (λ y. listing f n ++ y ∷ []) (ground arith))

-- Recording one more.
pub listing_more : (f : ℕ → ℕ) (n x : ℕ) → listing (update f n x) (n + 1) ≡ listing f n ++ x ∷ []
unfolding listing
listing_more f n x =
    ap (listing (update f n x)) (let e : n + 1 ≡ suc n = omega arith in e)
    ∙ ap (λ l. l ++ update f n x n ∷ []) (listing-update f n x n (omega arith))
    ∙ ap (λ y. listing f n ++ y ∷ []) (ground arith)

module _ {T : Type 0} (mm : Mm T) (g : Paging mm.mmu) (t : T) where
  -- The entry is that of a page in memory.
  abbrev pub present : ℕ → Bool
  present p = let entry = mm.pte_at p t in not (mm.is_swap_pte entry) && mm.pte_present entry

  -- The page frame at an address, if there is one.
  unfoldable pub frame_at : ℕ → List ℕ
  frame_at a =
      if mapped g a && present (g.pte_of a) then mm.pte_page (mm.pte_at (g.pte_of a) t) ∷ [] else []

  -- The frames of n pages from an address on.
  unfoldable pub frames : ℕ → ℕ → List ℕ
  frames uva zero = []
  frames uva (suc n) = frames uva n ++ frame_at (uva + n * page_size)

  -- An address that is not mapped has no frame.
  pub frames_gap :
      (uva n m : ℕ)
      → n ≤ m
      → Unmapped g (uva + n * page_size) (uva + m * page_size)
      → frames uva m ≡ frames uva n
  unfolding frames frame_at
  frames_gap uva n zero h u = rw (let e : n ≡ 0 = omega arith in e) refl
  frames_gap uva n (suc m) h u = elim (at_most n m h) [
    | inl below ↦
        rw (u (uva + m * page_size) (omega arith) (omega arith)) (
          append-nil (frames uva m)
          ∙ frames_gap uva n m below (λ c from to. u c from (omega arith)))
    | inr same ↦ rw same refl
  ]
    where
      at_most : (n m : ℕ) → n ≤ suc m → (n ≤ m) ⊎ (n ≡ suc m)
      at_most n m h = ground arith
