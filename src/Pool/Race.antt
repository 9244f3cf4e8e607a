-- ===== src/Pool/Race.antt =====
-- Allocation hooks that overlap on several processors: the search for a slot reads and writes `nfgpu_next`
-- and `nfgpu_skbs` with no lock.
pub mod Safe
pub mod Overlap
mod Tests
use porteus_gpu.Pool.Search.{IsSlot}
use porteus_gpu.Config.{max_skbs}
use porteus_gpu.Base.{
  ==→ne, inr, ==→eq, inl, arith, sym, ◌==◌, ◌∙◌, refl, ap, false, Bool-cases, subst, Bool, true,
  eq→==, some, ◌<◌, ◌+◌, ◌≤◌, update, Option, ◌≢◌, none, ℕ, ◌≡◌,
}

-- Where a processor stands in `__netdev_alloc_skb_togpu`, with the native head of its buffer: before the
-- test of the slot, between `++nfgpu_next` and its comparison, before the head is stored in the slot, and
-- before the new address is computed.
pub data Pc : Type 0 where
  idle : Pc
  searching bumped found claimed : ℕ → Pc

-- The shared variables, the processors, and the slot whose address each live buffer has, by the buffer's
-- native head.
pub record Race : Type 0 where
  pub skbs : ℕ → ℕ
  pub next : ℕ
  pub pc : ℕ → Pc
  pub out : ℕ → Option ℕ

-- One step of processor `c`, a test of a condition or a store, or the store of a release. `Overlap` says in which states an allocation may begin; its
-- native buffer is none of those that are in use.
pub data Step (Overlap : Race → Type 0) (s : Race) : Race → Type 0 where
  begins :
      (c h : ℕ)
      → s.pc c ≡ idle
      → Overlap s
      → h ≢ 0
      → s.out h ≡ none
      → Step Overlap s (record s { pc = update s.pc c (searching h) })
  sees_busy :
      (c h : ℕ)
      → s.pc c ≡ searching h
      → s.skbs s.next ≢ 0
      → Step Overlap s (record s { next = s.next + 1; pc = update s.pc c (bumped h) })
  wraps :
      (c h : ℕ)
      → s.pc c ≡ bumped h
      → max_skbs ≤ s.next
      → Step Overlap s (record s { next = 1; pc = update s.pc c (searching h) })
  goes_on :
      (c h : ℕ)
      → s.pc c ≡ bumped h
      → s.next < max_skbs
      → Step Overlap s (record s { pc = update s.pc c (searching h) })
  sees_free :
      (c h : ℕ)
      → s.pc c ≡ searching h
      → s.skbs s.next ≡ 0
      → Step Overlap s (record s { pc = update s.pc c (found h) })
  claims :
      (c h : ℕ)
      → s.pc c ≡ found h
      → Step Overlap s (record s { skbs = update s.skbs s.next h; pc = update s.pc c (claimed h) })
  places :
      (c h : ℕ)
      → s.pc c ≡ claimed h
      → Step Overlap s (record s { out = update s.out h (some s.next); pc = update s.pc c idle })
  releases :
      (h i : ℕ)
      → s.out h ≡ some i
      → Step Overlap s (record s { skbs = update s.skbs i 0; out = update s.out h none })

pub data Reach (Overlap : Race → Type 0) (s : Race) : Race → Type 0 where
  here : Reach Overlap s s
  later : {t u : Race} → Reach Overlap s t → Step Overlap t u → Reach Overlap s u

-- An allocation begins when no other is under way.
abbrev pub Alone : Race → Type 0
Alone s = (c : ℕ) → s.pc c ≡ idle

-- An allocation begins at any time, as the code allows.
abbrev pub Anytime : Race → Type 0
Anytime s = Unit {0}

-- No buffer is out, and no allocation under way.
pub record IsFreshRace (s : Race) : Type 0 where
  pub next_slot : IsSlot s.next
  pub vacant : (i : ℕ) → s.skbs i ≡ 0
  pub quiet : (c : ℕ) → s.pc c ≡ idle
  pub none_out : (h : ℕ) → s.out h ≡ none
