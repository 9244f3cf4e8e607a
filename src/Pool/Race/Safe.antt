-- ===== src/Pool/Race/Safe.antt =====
-- Allocations that do not overlap each other, with releases at any time.
use porteus_gpu.Pool.Race.{
  releases, places, claims, sees_free, goes_on, here, max_skbs, wraps, claimed, sees_busy, later,
  found, begins, bumped, searching, Alone, idle, Reach, Step, IsSlot, IsFreshRace, Race, Pc,
}
use porteus_gpu.Base.{
  IsTurn-enters, IsTurn-moves, Fits-at, IsTurn, IsTurn-rest, rest-Fits, ==→ne, inr, ==→eq, ◌≤◌, inl,
  ◌==◌, refl, ◌∙◌, arith, sym, Bool-cases, false, none, ap, update, Bool, true, ◌≢◌, some, ◌≡◌, ℕ,
}

-- What the state of one processor says of the shared variables.
abbrev pub Fits : Race → Pc → Type 0
Fits s idle = IsSlot s.next
Fits s (searching h) = IsSlot s.next × (h ≢ 0) × (s.out h ≡ none)
Fits s (bumped h) = (1 ≤ s.next) × (s.next ≤ max_skbs) × (h ≢ 0) × (s.out h ≡ none)
Fits s (found h) = IsSlot s.next × (h ≢ 0) × (s.out h ≡ none) × (s.skbs s.next ≡ 0)
Fits s (claimed h) = IsSlot s.next × (h ≢ 0) × (s.out h ≡ none) × (s.skbs s.next ≡ h)

abbrev places_of : Race → ℕ → Pc
places_of s = s.pc

-- Each live buffer has a slot that holds its native head.
abbrev IsHeld : Race → Type 0
IsHeld s = (h i : ℕ) → s.out h ≡ some i → IsSlot i × (s.skbs i ≡ h) × (h ≢ 0)

-- No processor but `a` is in an allocation.
record IsSafe (a : ℕ) (s : Race) : Type 0 where
  turn : IsTurn idle places_of Fits a s
  held : IsHeld s

is_busy : Pc → Bool
is_busy idle = false
is_busy (searching h) = true
is_busy (bumped h) = true
is_busy (found h) = true
is_busy (claimed h) = true

module _ (a : ℕ) (s : Race) (v : IsSafe a s) where
  busy-Fits : (c : ℕ) (p : Pc) → s.pc c ≡ p → is_busy p ≡ true → Fits s p
  unfolding is_busy
  busy-Fits = Fits-at idle is_busy refl places_of Fits a s v.turn

  moves_on :
      (c : ℕ) (p q : Pc) (t : Race)
      → s.pc c ≡ p
      → is_busy p ≡ true
      → t.pc ≡ update s.pc c q
      → Fits t q
      → IsHeld t
      → IsSafe a t
  unfolding is_busy
  moves_on c p q t at busy e fit held = record {
    turn = IsTurn-moves idle is_busy refl places_of Fits a s v.turn c p at busy q t e fit;
    held = held;
  }

abbrev released : Race → ℕ → ℕ → Race
released s h i = record s { skbs = update s.skbs i 0; out = update s.out h none }

released-Fits :
    (s : Race) (h i : ℕ) (p : Pc)
    → s.out h ≡ some i
    → IsSlot i × (s.skbs i ≡ h) × (h ≢ 0)
    → Fits s p
    → Fits (released s h i) p
released-Fits s h i idle e own fit = fit
released-Fits s h i (searching g) e own fit = (fit.0, fit.1, ground arith)
released-Fits s h i (bumped g) e own fit = (fit.0, fit.1, fit.2, ground arith)
released-Fits s h i (found g) e own fit = (fit.0, fit.1, ground arith, ground arith)
released-Fits s h i (claimed g) e own fit = (fit.0, fit.1, ground arith, ground (arith, ap s.skbs))

released_held :
    (s : Race) (h i g j : ℕ)
    → s.skbs i ≡ h
    → (s.out g ≡ some j → IsSlot j × (s.skbs j ≡ g) × (g ≢ 0))
    → (released s h i).out g ≡ some j
    → IsSlot j × ((released s h i).skbs j ≡ g) × (g ≢ 0)
released_held s h i g j own held live = elim (Bool-cases (h == g)) [
  | inl gone ↦ absurd (ground arith)
  | inr other ↦
      let mine = held (ground arith) in
      let kept : update s.skbs i 0 j ≡ g = elim (Bool-cases (i == j)) [
        | inl same ↦ absurd (==→ne h g other (sym own ∙ ap s.skbs (==→eq i j same) ∙ mine.1))
        | inr apart ↦ rw apart mine.1
      ] in
      (mine.0, kept, mine.2)
]

Step-IsSafe : (a : ℕ) {s t : Race} → Step Alone s t → IsSafe a s → (b : ℕ) × IsSafe b t
unfolding is_busy
Step-IsSafe a {s} (begins c h at alone ne fresh) v =
    let next = rest-Fits idle places_of Fits s alone a v.turn in
    (
      c,
      record {
        turn = IsTurn-enters idle places_of Fits s alone c (searching h) _ refl (next, ne, fresh);
        held = v.held;
      },
    )
Step-IsSafe a {s} (sees_busy c h at busy) v =
    let fit = busy-Fits a s v c (searching h) at refl in
    (
      a,
      moves_on a s v c (searching h) (bumped h) _ at refl refl
          (omega arith, omega arith, fit.1, fit.2) v.held,
    )
Step-IsSafe a {s} (wraps c h at past) v =
    let fit = busy-Fits a s v c (bumped h) at refl in
    (a, moves_on a s v c (bumped h) (searching h) _ at refl refl (omega arith, fit.2, fit.3) v.held)
Step-IsSafe a {s} (goes_on c h at low) v =
    let fit = busy-Fits a s v c (bumped h) at refl in
    (a, moves_on a s v c (bumped h) (searching h) _ at refl refl (omega arith, fit.2, fit.3) v.held)
Step-IsSafe a {s} (sees_free c h at free) v =
    let fit = busy-Fits a s v c (searching h) at refl in
    (a, moves_on a s v c (searching h) (found h) _ at refl refl (fit.0, fit.1, fit.2, free) v.held)
Step-IsSafe a {s} (claims c h at) v =
    let fit = busy-Fits a s v c (found h) at refl in
    (
      a,
      moves_on a s v c (found h) (claimed h) _ at refl refl (fit.0, fit.1, fit.2, ground arith)
          (λ g i e. ground (arith, v.held g i e, fit.3)),
    )
Step-IsSafe a {s} (places c h at) v =
    let fit = busy-Fits a s v c (claimed h) at refl in
    (
      a,
      moves_on a s v c (claimed h) idle _ at refl refl fit.0
          (λ g i e. ground (arith, v.held g i, fit.3)),
    )
Step-IsSafe a {s} (releases h i e) v = (
  a,
  record {
    turn = record {
      others = v.turn.others;
      fits = released-Fits s h i (s.pc a) e (v.held h i e) v.turn.fits;
    };
    held = λ g j live. released_held s h i g j (v.held h i e).1 (v.held g j) live;
  },
)

Reach-IsSafe : {s t : Race} → Reach Alone s t → IsFreshRace s → (a : ℕ) × IsSafe a t
Reach-IsSafe {s} here f = (
  0,
  record {
    turn = IsTurn-rest idle places_of Fits s f.quiet 0 f.next_slot;
    held = λ h i e. absurd (ground (arith, f.none_out h));
  },
)
Reach-IsSafe (later r st) f = let (a, v) = Reach-IsSafe r f in Step-IsSafe a st v

-- If no allocation begins while another is under way, then in every interleaving of the steps of
-- allocations with releases, from a state with no buffer out, two live buffers have different
-- slots, and the slot of each holds its native head.
pub one_allocation_safe :
    {s t : Race} (g h i j : ℕ)
    → IsFreshRace s
    → Reach Alone s t
    → t.out h ≡ some i
    → t.out g ≡ some j
    → h ≢ g
    → IsSlot i × (t.skbs i ≡ h) × (i ≢ j)
one_allocation_safe {s} {t} g h i j f r live other ne =
    let (a, v) = Reach-IsSafe r f in
    let mine = v.held h i live in
    let theirs = v.held g j other in
    (mine.0, mine.1, λ same. ne (sym mine.1 ∙ ap t.skbs same ∙ theirs.1))
