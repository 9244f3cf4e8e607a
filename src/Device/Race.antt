-- ===== src/Device/Race.antt =====
-- Opens and releases that overlap. `nfgpu_open` that finds the device busy takes two atomic steps, and
-- `nfgpu_release` overwrites the counter; whether a release may fall between those two steps decides
-- whether the device has one holder.
use porteus_gpu.Base.{◌≤◌, inc32, ◌%◌, ◌^◌, ◌≢◌, ◌-◌, ◌+◌, ◌<◌, arith, dec32, ℕ, ◌≡◌, refl}

-- The counter, how many files are open, and how many calls of `nfgpu_open` stand between
-- `atomic_dec_and_test` and `atomic_inc`.
pub record Device : Type 0 where
  pub av : ℕ
  pub holders : ℕ
  pub pending : ℕ

-- The device as it is loaded.
abbrev pub free_device : Device
free_device = record { av = 1; holders = 0; pending = 0 }

-- One atomic step of some thread. `Overlap` says in which states a release may come.
pub data Step (Overlap : Device → Type 0) (s : Device) : Device → Type 0 where
  open_wins :
      dec32 s.av ≡ 0 → Step Overlap s (record s { av = dec32 s.av; holders = s.holders + 1 })
  open_loses :
      dec32 s.av ≢ 0
      → s.holders + s.pending < 2 ^ 32 - 2
      → Step Overlap s (record s { av = dec32 s.av; pending = s.pending + 1 })
  open_undoes :
      0 < s.pending → Step Overlap s (record s { av = inc32 s.av; pending = s.pending - 1 })
  releases :
      0 < s.holders → Overlap s → Step Overlap s (record s { av = 1; holders = s.holders - 1 })

pub data Reach (Overlap : Device → Type 0) (s : Device) : Device → Type 0 where
  here : Reach Overlap s s
  later : {t u : Device} → Reach Overlap s t → Step Overlap t u → Reach Overlap s u

-- No release while a refused open is under way.
abbrev pub Quiet : Device → Type 0
Quiet s = s.pending ≡ 0

-- A release at any time, which is what the code allows.
abbrev pub Anytime : Device → Type 0
Anytime s = Unit {0}

-- The counter is one less the holders and the refused opens under way, and at most one file is open.
pub record IsSafe (s : Device) : Type 0 where
  pub counted : s.av ≡ (1 + 2 ^ 32 - s.holders - s.pending) % 2 ^ 32
  pub single : s.holders ≤ 1
  pub few : s.holders + s.pending < 2 ^ 32 - 1

Step-IsSafe : {s t : Device} → Step Quiet s t → IsSafe s → IsSafe t
Step-IsSafe (open_wins won) v = omega arith
Step-IsSafe (open_loses lost room) v = omega arith
Step-IsSafe (open_undoes some_pending) v = omega arith
Step-IsSafe (releases held quiet) v = omega arith

-- If no release falls between the two atomic steps of an open that is refused, and fewer than 2 ^
-- 32 - 2 threads hold or try the device, then in every interleaving of opens and releases at most
-- one file is open, and the counter is 1 less the open files and the refused opens under way,
-- modulo 2 ^ 32.
pub one_holder : {s : Device} → Reach Quiet free_device s → IsSafe s
one_holder here = omega arith
one_holder (later r st) = Step-IsSafe st (one_holder r)

-- From every state with an open file and a refused open between its two atomic steps, a release
-- at that moment and two further opens lead to a state with one more file open than before.
pub release_admits_two :
    (s : Device)
    → 0 < s.holders
    → 0 < s.pending
    → (t : Device) × Reach Anytime s t × (t.holders ≡ s.holders + 1)
release_admits_two s h p = (
  record { av = 0; holders = s.holders - 1 + 1 + 1; pending = s.pending - 1 },
  later (later (later (later here (releases h tt)) (open_wins refl)) (open_undoes p))
      (open_wins refl),
  omega arith,
)
