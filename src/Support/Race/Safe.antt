-- ===== src/Support/Race/Safe.antt =====
-- The counters under a lock.
use porteus_gpu.Support.Report.{total_pkts}
use porteus_gpu.Support.Race.{
  Counters, Place, Step, Reach, Alone, Adds, outside, averaging, averaged, counting, took_average,
  took_both, clearing, measures, stores_average, reads_packets, counts, wakes, takes_packets,
  clears_average, clears_packets, here, later,
}
use porteus_gpu.Base.{
  rest-Fits, IsTurn, IsTurn-rest, IsTurn-moves, IsTurn-enters, Fits-at, refl, arith, false, true,
  update, ◌≡◌, Bool, ℕ,
}

-- What the state of the one context that is inside says of the counters.
abbrev Fits : Counters → Place → Type 0
Fits s outside = Adds s
Fits s (averaging a) = Adds s
Fits s averaged = Adds s
Fits s (counting p) = (p ≡ s.packets) × Adds s
Fits s (took_average a) = Adds s
Fits s (took_both a p) = (p ≡ s.packets) × Adds s
Fits s (clearing a p) = (p ≡ s.packets) × Adds s

abbrev places : Counters → ℕ → Place
places s = s.place

-- All but `a` are outside.
abbrev IsSafe : ℕ → Counters → Type 0
IsSafe = IsTurn outside places Fits

is_inside : Place → Bool
is_inside outside = false
is_inside (averaging a) = true
is_inside averaged = true
is_inside (counting p) = true
is_inside (took_average a) = true
is_inside (took_both a p) = true
is_inside (clearing a p) = true

module _ (a : ℕ) (s : Counters) (v : IsSafe a s) where
  inside-Fits : (c : ℕ) (p : Place) → s.place c ≡ p → is_inside p ≡ true → Fits s p
  unfolding is_inside
  inside-Fits = Fits-at outside is_inside refl places Fits a s v

  moves_on :
      (c : ℕ) (p q : Place) (t : Counters)
      → s.place c ≡ p
      → is_inside p ≡ true
      → t.place ≡ update s.place c q
      → Fits t q
      → IsSafe a t
  unfolding is_inside
  moves_on c p q t at busy = IsTurn-moves outside is_inside refl places Fits a s v c p at busy q t

  -- A context goes in while the others are outside.
  enters :
      (c : ℕ) (q : Place) (t : Counters)
      → Alone s
      → t.place ≡ update s.place c q
      → (Adds s → Fits t q)
      → IsSafe c t
  enters c q t alone e fit =
      IsTurn-enters outside places Fits s alone c q t e
        (fit (rest-Fits outside places Fits s alone a v))

Step-IsSafe : (a : ℕ) {s t : Counters} → Step Alone s t → IsSafe a s → (b : ℕ) × IsSafe b t
unfolding is_inside total_pkts
Step-IsSafe a {s} (measures c cycles ne at alone) v =
    (c, enters a s v c _ _ alone refl (λ adds. adds))
Step-IsSafe a {s} (stores_average c x at) v =
    (a, moves_on a s v c (averaging x) averaged _ at refl refl (inside-Fits a s v c _ at refl))
Step-IsSafe a {s} (reads_packets c at) v = (
  a,
  moves_on a s v c averaged (counting s.packets) _ at refl refl
      (refl, inside-Fits a s v c _ at refl),
)
Step-IsSafe a {s} (counts c p at) v =
    let (same, adds) = inside-Fits a s v c _ at refl in
    (a, moves_on a s v c (counting p) outside _ at refl refl (omega arith))
Step-IsSafe a {s} (wakes at alone) v = (0, enters a s v 0 _ _ alone refl (λ adds. adds))
Step-IsSafe a {s} (takes_packets x at) v = (
  a,
  moves_on a s v 0 (took_average x) (took_both x s.packets) _ at refl refl
      (refl, inside-Fits a s v 0 _ at refl),
)
Step-IsSafe a {s} (clears_average x p at) v = (
  a,
  moves_on a s v 0 (took_both x p) (clearing x p) _ at refl refl (inside-Fits a s v 0 _ at refl),
)
Step-IsSafe a {s} (clears_packets x p at) v =
    let (same, adds) = inside-Fits a s v 0 _ at refl in
    (a, moves_on a s v 0 (clearing x p) outside _ at refl refl (omega arith))

Reach-IsSafe : {s t : Counters} → Reach Alone s t → Alone s → Adds s → (a : ℕ) × IsSafe a t
Reach-IsSafe {s} here alone adds = (0, IsTurn-rest outside places Fits s alone 0 adds)
Reach-IsSafe (later r st) alone adds = let (a, v) = Reach-IsSafe r alone adds in Step-IsSafe a st v

Fits-Adds : (s : Counters) (p : Place) → Fits s p → Adds s
Fits-Adds s outside fit = fit
Fits-Adds s (averaging a) fit = fit
Fits-Adds s averaged fit = fit
Fits-Adds s (counting p) fit = fit.1
Fits-Adds s (took_average a) fit = fit
Fits-Adds s (took_both a p) fit = fit.1
Fits-Adds s (clearing a p) fit = fit.1

-- If the counters are not used by two at once, as under the lock that the code has commented out,
-- then in every interleaving of the accesses of the target and of the support thread the packets
-- printed so far and those in the counter are the packets counted, modulo 2 ^ 64, if they were at
-- the start.
pub Reach-Adds : {s t : Counters} → Alone s → Adds s → Reach Alone s t → Adds t
Reach-Adds {t = t} alone adds r =
    let (a, v) = Reach-IsSafe r alone adds in Fits-Adds t (t.place a) v.fits
