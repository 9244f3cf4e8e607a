-- ===== src/Support/Tests.antt =====
-- A thread that prints once, over a clock that wraps, and contexts that count a packet and print.
use porteus_gpu.Support.Report.{
  IsClock, IsElapsed, IsStopped, Rounds, last, next, total_pkts, nfgpu_thread_lem,
}
use porteus_gpu.Support.Race.Safe.{Reach-Adds}
use porteus_gpu.Support.Race.Overlap.{thread_and_target_collide, Leaves}
use porteus_gpu.Support.Race.{
  clearing, took_both, took_average, Counters, Reach, Alone, Adds, outside, here, later, wakes,
  takes_packets, clears_average, clears_packets,
}
use porteus_gpu.Support.{Driver, Round, Line, nfgpu_thread}
use porteus_gpu.Base.{
  ◌%◌, length, update, returns, sub64, ◌≡◌, ◌-◌, ◌+◌, false, List, leb, zero, ◌^◌, true, refl, [],
  Bool, ◌<◌, add64, arith, suc, ◌∷◌, ℕ,
}

-- The macro of `linux/jiffies.h`: the difference is negative as a signed word.
abbrev is_before : ℕ → ℕ → Bool
is_before a b = leb (2 ^ 63) (sub64 a b)

is_before-IsClock : IsClock is_before
is_before-IsClock j a b ha hb = ground arith

abbrev driver : Driver
driver = record {
  running = true;
  pages = λ k. 0;
  uva = 0;
  kva = 0;
  size = 0;
  npages = 0;
  skbs = λ i. 0;
  next = 1;
  packets = 2;
  average = 40;
}

abbrev counts_three : Driver → Driver
counts_three d = record d { packets = add64 d.packets 3 }

abbrev before_wrap : ℕ
before_wrap = 2 ^ 64 - 100

-- Six hundred ticks pass between the first reading and the second.
abbrev ticks : ℕ → ℕ
ticks zero = 0
ticks (suc k) = 600

abbrev full_round : Round
full_round = record {
  j0 = before_wrap;
  jiffies = λ k. add64 before_wrap (ticks k);
  should_stop = λ k. false;
  others = counts_three;
  meanwhile = counts_three;
}

abbrev last_round : Round
last_round = record {
  j0 = 500;
  jiffies = λ k. 500;
  should_stop = λ k. true;
  others = counts_three;
  meanwhile = counts_three;
}

ticks_small : (k : ℕ) → ticks k < 2 ^ 63
ticks_small zero = omega arith
ticks_small (suc k) = omega arith

full_round-IsElapsed : IsElapsed 100 3 full_round
full_round-IsElapsed = record {
  since = ticks;
  small = ticks_small;
  reads = λ k. refl;
  turn = 1;
  in_time = omega arith;
  over = omega arith;
  goes_on = λ k lt. refl;
}

last_round-IsStopped : IsStopped 100 3 last_round
last_round-IsStopped = record {
  since = λ k. 0;
  small = λ k. omega arith;
  reads = λ k. refl;
  turn = 0;
  in_time = omega arith;
  asked = refl;
  early = λ k le. omega arith;
}

two-Rounds : Rounds 100 3 (full_round ∷ last_round ∷ []) 9 3
two-Rounds =
    next 3 3 3 0 full_round-IsElapsed (λ d. refl) (λ d. refl)
      (last last_round-IsStopped (λ d. refl))

nfgpu_thread_lem_example :
    (d : Driver) × (lines : List Line) × (nfgpu_thread is_before 100 3
        (full_round ∷ last_round ∷ [])
        driver
      ≡ returns (d, lines))
    × (suc (length lines) ≡ length (full_round ∷ last_round ∷ []))
    × ((total_pkts lines + d.packets + 3) % 2 ^ 64 ≡ 11)
nfgpu_thread_lem_example =
    nfgpu_thread_lem is_before is_before-IsClock 100 (omega arith) 3 driver two-Rounds

abbrev fresh : Counters
fresh = record { average = 0; packets = 7; place = λ c. outside; counted = 7; lines = [] }

abbrev printed_once : Counters
printed_once = record fresh {
  packets = 0;
  place =
      update
        (update (update (update fresh.place 0 (took_average 0)) 0 (took_both 0 7)) 0 (clearing 0 7))
        0 outside;
  lines = record { avg = 0; pkts = 7 } ∷ [];
}

Reach-printed : Reach Alone fresh printed_once
Reach-printed =
    later
      (later (later (later here (wakes refl (λ c. refl))) (takes_packets 0 refl))
        (clears_average 0 7 refl))
      (clears_packets 0 7 refl)

fresh-Adds : Adds fresh
unfolding total_pkts
fresh-Adds = refl

Reach-Adds_example : Adds printed_once
Reach-Adds_example = Reach-Adds {s = fresh} (λ c. refl) fresh-Adds Reach-printed

thread_and_target_collide_example : Leaves fresh 0 × Leaves fresh 8
thread_and_target_collide_example = thread_and_target_collide fresh 1 500 (omega arith) (λ c. refl)
