-- ===== src/Support/Race.antt =====
-- The profiling counters, which `nfgpu_target` updates and `nfgpu_thread` reads and clears, with the spin
-- lock of both commented out.
pub mod Safe
pub mod Overlap
use porteus_gpu.Target.{new_average}
use porteus_gpu.Support.Report.{total_pkts}
use porteus_gpu.Base.{◌∷◌, ◌/◌, ◌*◌, ◌^◌, add64, ◌%◌, update, ◌+◌, ◌≡◌, List, ◌≢◌, ℕ}
use porteus_gpu.Support.{Line}

-- Where the code that uses the counters stands: outside; in `nfgpu_target`, before the store of the new
-- average, between the average and the packets, and before the store of the packets; in `nfgpu_thread`,
-- after the reading of the average and of the packets, and between the stores of 0.
pub data Place : Type 0 where
  outside : Place
  averaging : ℕ → Place
  averaged : Place
  counting : ℕ → Place
  took_average : ℕ → Place
  took_both clearing : ℕ → ℕ → Place

-- The counters, the support thread (context 0) and the others, which run the target, how many packets
-- have been counted, and the lines that were printed, the last first.
pub record Counters : Type 0 where
  pub average : ℕ
  pub packets : ℕ
  pub place : ℕ → Place
  pub counted : ℕ
  pub lines : List Line

-- One access of a counter. `Overlap` says in which states a sequence of accesses may begin.
pub data Step (Overlap : Counters → Type 0) (s : Counters) : Counters → Type 0 where
  measures :
      (c cycles : ℕ)
      → c ≢ 0
      → s.place c ≡ outside
      → Overlap s
      → Step Overlap s
          (record s { place = update s.place c (averaging (new_average s.average cycles)) })
  stores_average :
      (c a : ℕ)
      → s.place c ≡ averaging a
      → Step Overlap s (record s { average = a; place = update s.place c averaged })
  reads_packets :
      (c : ℕ)
      → s.place c ≡ averaged
      → Step Overlap s (record s { place = update s.place c (counting s.packets) })
  counts :
      (c p : ℕ)
      → s.place c ≡ counting p
      → Step Overlap s (record s {
        packets = add64 p 1;
        place = update s.place c outside;
        counted = s.counted + 1;
      })
  wakes :
      s.place 0 ≡ outside
      → Overlap s
      → Step Overlap s (record s { place = update s.place 0 (took_average s.average) })
  takes_packets :
      (a : ℕ)
      → s.place 0 ≡ took_average a
      → Step Overlap s (record s { place = update s.place 0 (took_both a s.packets) })
  clears_average :
      (a p : ℕ)
      → s.place 0 ≡ took_both a p
      → Step Overlap s (record s { average = 0; place = update s.place 0 (clearing a p) })
  clears_packets :
      (a p : ℕ)
      → s.place 0 ≡ clearing a p
      → Step Overlap s (record s {
        packets = 0;
        place = update s.place 0 outside;
        lines = record { avg = a; pkts = p } ∷ s.lines;
      })

pub data Reach (Overlap : Counters → Type 0) (s : Counters) : Counters → Type 0 where
  here : Reach Overlap s s
  later : {t u : Counters} → Reach Overlap s t → Step Overlap t u → Reach Overlap s u

-- All are outside.
abbrev pub Alone : Counters → Type 0
Alone s = (c : ℕ) → s.place c ≡ outside

-- The code has no lock.
abbrev pub Anytime : Counters → Type 0
Anytime s = Unit {0}

-- The printed packets and those in the counter are the packets that were counted, modulo 2 ^ 64.
abbrev pub Adds : Counters → Type 0
Adds s = (total_pkts s.lines + s.packets) % 2 ^ 64 ≡ s.counted % 2 ^ 64
