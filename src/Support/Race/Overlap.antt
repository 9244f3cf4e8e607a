-- ===== src/Support/Race/Overlap.antt =====
-- The counters without a lock.
use porteus_gpu.Support.Race.{
  new_average, Counters, Reach, Alone, Anytime, outside, here, later, measures, stores_average,
  reads_packets, counts, wakes, takes_packets, clears_average, clears_packets,
}
use porteus_gpu.Base.{refl, arith, ◌∷◌, ◌+◌, add64, ◌≢◌, ◌≡◌, ℕ}

-- From `s` one packet is counted and one line printed, with what the counter held, and `left` remains in the counter.
abbrev pub Leaves : Counters → ℕ → Type 0
Leaves s left =
    (t : Counters) × Reach Anytime s t
    × ((c : ℕ) → t.place c ≡ outside)
    × (t.counted ≡ s.counted + 1)
    × (t.lines ≡ record { avg = s.average; pkts = s.packets } ∷ s.lines)
    × (t.packets ≡ left)

module _ (s : Counters) (c cycles : ℕ) (ne : c ≢ 0) (alone : Alone s) where
  -- The packet is counted between the reading and the clearing of the counter.
  hides_packet : Leaves s 0
  hides_packet =
      let r0 = alone 0 in
      let rc = alone c in
      (
        _,
        later
            (later
              (later
                (later
                  (later
                    (later
                      (later (later here (wakes r0 tt)) (takes_packets s.average (ground arith)))
                      (measures c cycles ne (ground arith) tt))
                    (stores_average c (new_average s.average cycles) (ground arith)))
                  (reads_packets c (ground arith)))
                (counts c s.packets (ground arith)))
              (clears_average s.average s.packets (ground arith)))
            (clears_packets s.average s.packets (ground arith)),
        λ d. ground (arith, alone d),
        refl,
        refl,
        refl,
      )

  -- The counter is cleared between the reading and the store of the packet's count.
  counts_twice : Leaves s (add64 s.packets 1)
  counts_twice =
      let r0 = alone 0 in
      let rc = alone c in
      (
        _,
        later
            (later
              (later
                (later
                  (later
                    (later
                      (later (later here (wakes r0 tt)) (measures c cycles ne (ground arith) tt))
                      (stores_average c (new_average s.average cycles) (ground arith)))
                    (reads_packets c (ground arith)))
                  (takes_packets s.average (ground arith)))
                (clears_average s.average s.packets (ground arith)))
              (clears_packets s.average s.packets (ground arith)))
            (counts c s.packets (ground arith)),
        λ d. ground (arith, alone d),
        refl,
        refl,
        refl,
      )

-- From every state in which no one uses the counters, one packet and one line can be interleaved
-- so that the line has the old count and 0 remains, the packet being lost, and also so that the
-- line has the old count and the old count and 1 remains, to be printed again.
pub thread_and_target_collide :
    (s : Counters) (c cycles : ℕ) → c ≢ 0 → Alone s → Leaves s 0 × Leaves s (add64 s.packets 1)
thread_and_target_collide s c cycles ne alone =
    (hides_packet s c cycles ne alone, counts_twice s c cycles ne alone)
