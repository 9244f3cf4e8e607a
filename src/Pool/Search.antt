-- ===== src/Pool/Search.antt =====
-- The search for a free slot in `__netdev_alloc_skb_togpu`: it ends exactly when a slot is free.
use porteus_gpu.Base.{
  ℕ, zero, suc, ◌+◌, ◌-◌, ◌≤◌, ◌<◌, ◌≡◌, ◌≢◌, inl, inr, refl, Bool-cases, Option-cases, ap, ◌∙◌,
  leb, ◌==◌, if◌then◌else◌, some, none, arith, ==→eq, ==→ne,
}
use porteus_gpu.Config.{max_skbs}
use porteus_gpu.Pool.{find_slot, advance}

-- The slots that a buffer may occupy: slot 0 belongs to the GPU.
abbrev pub IsSlot : ℕ → Type 0
IsSlot i = (1 ≤ i) × (i < max_skbs)

-- How many rounds lead from slot `n` to slot `i`, going round.
abbrev pub rounds : ℕ → ℕ → ℕ
rounds n i = if leb n i then i - n else i + (max_skbs - 1) - n

pub rounds-advance :
    (n i : ℕ) → IsSlot n → IsSlot i → n ≢ i → suc (rounds (advance n) i) ≡ rounds n i
rounds-advance n i hn hi ne = ground arith

pub advance-IsSlot : (n : ℕ) → IsSlot n → IsSlot (advance n)
advance-IsSlot n h = ground arith

-- What the search returns is free, and no free slot comes before it.
pub record IsFirstFree (skbs : ℕ → ℕ) (n j : ℕ) : Type 0 where
  pub slot : IsSlot j
  pub free : skbs j ≡ 0
  pub first : (k : ℕ) → IsSlot k → skbs k ≡ 0 → rounds n j ≤ rounds n k

-- A busy slot is passed over: what is first from the next one on is first.
IsFirstFree-step :
    (skbs : ℕ → ℕ) (n j : ℕ)
    → IsSlot n
    → skbs n ≢ 0
    → IsFirstFree skbs (advance n) j
    → IsFirstFree skbs n j
IsFirstFree-step skbs n j hn busy f = record {
  slot = f.slot;
  free = f.free;
  first = λ k hk ek.
      let ahead = f.first k hk ek in
      omega (
        arith,
        rounds-advance n j hn f.slot (apart j f.free),
        rounds-advance n k hn hk (apart k ek),
      );
}
  where
    apart : (k : ℕ) → skbs k ≡ 0 → n ≢ k
    apart k ek e = busy (ap skbs e ∙ ek)

-- If slot i is free and fewer rounds than the fuel lead there from the position n, going round
-- from 8191 to 1, then the search ends at a free slot from 1 to 8191, and no free slot comes
-- before it.
pub find_slot_total :
    (fuel : ℕ) (skbs : ℕ → ℕ) (n i : ℕ)
    → IsSlot n
    → IsSlot i
    → skbs i ≡ 0
    → rounds n i < fuel
    → (j : ℕ) × (find_slot fuel skbs n ≡ some j) × IsFirstFree skbs n j
unfolding find_slot
find_slot_total zero skbs n i hn hi e h = absurd (omega arith)
find_slot_total (suc fuel) skbs n i hn hi e h = elim (Bool-cases (skbs n == 0)) [
  | inl here ↦ (
    n,
    rw here refl,
    record { slot = hn; free = ==→eq _ _ here; first = λ k hk ek. ground arith },
  )
  | inr more ↦
      let busy : skbs n ≢ 0 = ==→ne _ _ more in
      let near = rounds-advance n i hn hi (λ q. busy (ap skbs q ∙ e)) in
      let (j, found, f) =
        find_slot_total fuel skbs (advance n) i (advance-IsSlot n hn) hi e (omega arith) in
      (j, rw more found, IsFirstFree-step skbs n j hn busy f)
]

-- Whatever the fuel, a returned slot is the first free one.
pub find_slot-IsFirstFree :
    (fuel : ℕ) (skbs : ℕ → ℕ) (n : ℕ) {j : ℕ}
    → IsSlot n
    → find_slot fuel skbs n ≡ some j
    → IsFirstFree skbs n j
unfolding find_slot
find_slot-IsFirstFree zero skbs n hn e = cc
find_slot-IsFirstFree (suc fuel) skbs n {j} hn e = elim (Bool-cases (skbs n == 0)) [
  | inl here ↦
      let q : n ≡ j = ground arith in
      record {
        slot = rw (← q) hn;
        free = rw (← q) (==→eq _ _ here);
        first = λ k hk ek. rw (← q) (ground arith);
      }
  | inr more ↦
      IsFirstFree-step skbs n j hn (==→ne _ _ more)
        (find_slot-IsFirstFree fuel skbs (advance n) (advance-IsSlot n hn) (rw more at e))
]

-- While every slot from 1 to 8191 is busy the search for a free slot does not end, whatever the
-- fuel.
pub find_slot_full :
    (fuel : ℕ) (skbs : ℕ → ℕ) (n : ℕ)
    → IsSlot n
    → ((i : ℕ) → IsSlot i → skbs i ≢ 0)
    → find_slot fuel skbs n ≡ none
find_slot_full fuel skbs n hn full = elim (Option-cases (find_slot fuel skbs n)) [
  | inl e ↦ e
  | inr f ↦
      let first = find_slot-IsFirstFree fuel skbs n hn f.1 in
      absurd (full f.0 first.slot first.free)
]
