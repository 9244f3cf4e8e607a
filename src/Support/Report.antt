-- ===== src/Support/Report.antt =====
-- What the support thread prints over its rounds.
use porteus_gpu.Support.{
  shown, elapsed, cleared, printed, stopped, after_wait, nfgpu_thread, wait, Driver, Line, Round,
}
use porteus_gpu.Base.{
  ◌%◌, length, refl, zero, inr, inl, Bool-cases, ap, ltb-true, ltb-false, arith, false, returns,
  ltb, true, ◌≤◌, [], ◌+◌, add64, suc, ◌∷◌, ◌*◌, ◌≡◌, ◌^◌, Bool, ◌<◌, List, ℕ,
}

-- `time_before` is right about two times less than 2 ^ 63 apart, also when the counter wraps.
abbrev pub IsClock : (ℕ → ℕ → Bool) → Type 0
IsClock time_before =
    (j a b : ℕ) → a < 2 ^ 63 → b < 2 ^ 63 → time_before (add64 j a) (add64 j b) ≡ ltb a b

unfoldable pub total_pkts : List Line → ℕ
total_pkts [] = 0
total_pkts (l ∷ lines) = l.pkts + total_pkts lines

-- In the round the clock is read `since k` ticks after its first reading, and the thread is not asked to
-- stop before the time is over.
pub record IsElapsed (hz fuel : ℕ) (r : Round) : Type 0 where
  pub since : ℕ → ℕ
  pub small : (k : ℕ) → since k < 2 ^ 63
  pub reads : (k : ℕ) → r.jiffies k ≡ add64 r.j0 (since k)
  pub turn : ℕ
  pub in_time : turn < fuel
  pub over : 5 * hz ≤ since turn
  pub goes_on : (k : ℕ) → k < turn → r.should_stop k ≡ false

-- The thread is asked to stop before the time is over.
pub record IsStopped (hz fuel : ℕ) (r : Round) : Type 0 where
  pub since : ℕ → ℕ
  pub small : (k : ℕ) → since k < 2 ^ 63
  pub reads : (k : ℕ) → r.jiffies k ≡ add64 r.j0 (since k)
  pub turn : ℕ
  pub in_time : turn < fuel
  pub asked : r.should_stop turn ≡ true
  pub early : (k : ℕ) → k ≤ turn → since k < 5 * hz

-- The target has counted `n` packets, in a counter of 64 bits.
abbrev pub Counts : (Driver → Driver) → ℕ → Type 0
Counts f n = (d : Driver) → (f d).packets ≡ add64 d.packets n

-- The rounds of a thread that is stopped in the last, with the packets that are counted in all, and those
-- of them that are counted between the reading and the clearing of the counters.
pub data Rounds (hz fuel : ℕ) : List Round → ℕ → ℕ → Type 0 where
  last : {r : Round} {n : ℕ} → IsStopped hz fuel r → Counts r.others n → Rounds hz fuel (r ∷ []) n 0
  next :
      {r : Round} {rounds : List Round} (n missed m lost : ℕ)
      → IsElapsed hz fuel r
      → Counts r.others n
      → Counts r.meanwhile missed
      → Rounds hz fuel rounds m lost
      → Rounds hz fuel (r ∷ rounds) (n + missed + m) (missed + lost)

module _ (time_before : ℕ → ℕ → Bool) (clock : IsClock time_before) (hz : ℕ)
    (bound : 5 * hz < 2 ^ 63) where
  wait-elapsed :
      (fuel j : ℕ) (jiffies since : ℕ → ℕ) (should_stop : ℕ → Bool) (n : ℕ)
      → ((k : ℕ) → since k < 2 ^ 63)
      → ((k : ℕ) → jiffies k ≡ add64 j (since k))
      → n < fuel
      → 5 * hz ≤ since n
      → ((k : ℕ) → k < n → should_stop k ≡ false)
      → wait time_before hz fuel (add64 j (5 * hz)) jiffies should_stop ≡ returns elapsed
  unfolding wait
  wait-elapsed zero j jiffies since should_stop n small reads in_time over goes_on =
      absurd (omega arith)
  wait-elapsed (suc fuel) j jiffies since should_stop zero small reads in_time over goes_on =
      rw (reads 0, clock j (since 0) (5 * hz) (small 0) bound, ltb-false (since 0) (5 * hz) over)
        refl
  wait-elapsed (suc fuel) j jiffies since should_stop (suc n) small reads in_time over goes_on =
      let rest =
        wait-elapsed fuel j (λ k. jiffies (suc k)) (λ k. since (suc k)) (λ k. should_stop (suc k)) n
          (λ k. small (suc k)) (λ k. reads (suc k)) (omega arith) over
          (λ k lt. goes_on (suc k) (omega arith)) in
      elim (Bool-cases (time_before (jiffies 0) (add64 j (5 * hz)))) [
        | inl before ↦ rw (before, goes_on 0 (omega arith)) rest
        | inr after ↦ rw after refl
      ]

  wait-stopped :
      (fuel j : ℕ) (jiffies since : ℕ → ℕ) (should_stop : ℕ → Bool) (n : ℕ)
      → ((k : ℕ) → since k < 2 ^ 63)
      → ((k : ℕ) → jiffies k ≡ add64 j (since k))
      → n < fuel
      → should_stop n ≡ true
      → ((k : ℕ) → k ≤ n → since k < 5 * hz)
      → wait time_before hz fuel (add64 j (5 * hz)) jiffies should_stop ≡ returns stopped
  unfolding wait
  wait-stopped zero j jiffies since should_stop n small reads in_time asked early =
      absurd (omega arith)
  wait-stopped (suc fuel) j jiffies since should_stop zero small reads in_time asked early =
      rw
        (
          reads 0,
          clock j (since 0) (5 * hz) (small 0) bound,
          ltb-true (since 0) (5 * hz) (early 0 (omega arith)),
          asked,
        )
        refl
  wait-stopped (suc fuel) j jiffies since should_stop (suc n) small reads in_time asked early =
      let rest =
        wait-stopped fuel j (λ k. jiffies (suc k)) (λ k. since (suc k)) (λ k. should_stop (suc k)) n
          (λ k. small (suc k)) (λ k. reads (suc k)) (omega arith) asked
          (λ k le. early (suc k) (omega arith)) in
      let now : time_before (jiffies 0) (add64 j (5 * hz)) ≡ true =
        rw (reads 0, clock j (since 0) (5 * hz) (small 0) bound)
          (ltb-true (since 0) (5 * hz) (early 0 (omega arith))) in
      elim (Bool-cases (should_stop 0)) [
        | inl asked_now ↦ rw (now, asked_now) refl
        | inr not_yet ↦ rw (now, not_yet) rest
      ]

  abbrev pub Reports : ℕ → List Round → ℕ → ℕ → Driver → Type 0
  Reports fuel rounds n lost d =
      (d' : Driver) × (lines : List Line) × (nfgpu_thread time_before hz fuel rounds d
        ≡ returns (d', lines))
      × (suc (length lines) ≡ length rounds)
      × ((total_pkts lines + d'.packets + lost) % 2 ^ 64 ≡ (d.packets + n) % 2 ^ 64)

  -- Over rounds of which each but the last lasts until five seconds are over, with no stop asked
  -- before, and in the last of which the thread is asked to stop earlier, also when jiffies
  -- wraps, with a clock comparison that is right about times less than 2 ^ 63 apart and fuel past
  -- the reading that ends each wait: nfgpu_thread returns, having printed one line for each round
  -- but the last, and the packets in its lines, those left in the counter and those that were
  -- counted between a reading and the clearing after it, which are lost, are together those that
  -- there were and all those counted, modulo 2 ^ 64.
  pub nfgpu_thread_lem :
      (fuel : ℕ) {rounds : List Round} {n lost : ℕ} (d : Driver)
      → Rounds hz fuel rounds n lost
      → Reports fuel rounds n lost d
  unfolding nfgpu_thread after_wait printed total_pkts length
  nfgpu_thread_lem fuel d (last {r} s counts) =
      let ends =
        wait-stopped fuel r.j0 r.jiffies s.since r.should_stop s.turn s.small s.reads s.in_time
          s.asked s.early in
      (r.others d, [], rw ends refl, refl, omega (arith, counts d))
  nfgpu_thread_lem fuel d (next {r} {rounds} n missed m lost e counts misses more) =
      let ends =
        wait-elapsed fuel r.j0 r.jiffies e.since r.should_stop e.turn e.small e.reads e.in_time
          e.over e.goes_on in
      let (d', lines, run, len, sum) =
        nfgpu_thread_lem fuel (cleared (r.meanwhile (r.others d))) more in
      (
        d',
        shown (r.others d) ∷ lines,
        rw (ends, run) refl,
        ap suc len,
        omega (arith, sum, counts d),
      )
