-- ===== src/Support.antt =====
-- togpu/driver/xt_TOGPU_main.c, `nfgpu_thread`: a kernel thread that prints the profiling counters every
-- five seconds and clears them, until it is asked to stop.
pub mod Report
pub mod Race
mod Tests
use porteus_gpu.Pool.{Driver}
use porteus_gpu.Base.{
  add64, fault, [], returns, ◌∷◌, List, if◌then◌else◌, Bool, Outcome, zero, suc, waits, ◌*◌, ℕ,
}

-- A line that the thread prints: `avg` and `pkts`.
pub record Line : Type 0 where
  pub avg : ℕ
  pub pkts : ℕ

-- How a wait ends: by `kthread_should_stop()`, or since the time is over.
pub data Wake : Type 0 where
  stopped elapsed : Wake

-- What comes from outside in a round of the thread: the first reading of `jiffies`, the later ones, the
-- answers of `kthread_should_stop()`, and what other code does to the driver until the wait ends, and then
-- between the reading and the clearing of the counters.
pub record Round : Type 0 where
  pub j0 : ℕ
  pub jiffies : ℕ → ℕ
  pub should_stop : ℕ → Bool
  pub others : Driver → Driver
  pub meanwhile : Driver → Driver

-- The lines that are printed from here on.
unfoldable pub printed : Line → Outcome (Driver × List Line) → Outcome (Driver × List Line)
printed line (returns (d, lines)) = returns (d, line ∷ lines)
printed line waits = waits
printed line fault = fault

-- `nfgpu_average = 0; nfgpu_packets = 0;`
abbrev pub cleared : Driver → Driver
cleared d = record d { average = 0; packets = 0 }

abbrev pub shown : Driver → Line
shown d = record { avg = d.average; pkts = d.packets }

-- What follows the wait: the thread returns, or prints and clears the counters and goes round again.
unfoldable pub after_wait :
    Outcome Wake → Driver → Outcome (Driver × List Line) → Outcome (Driver × List Line)
after_wait (returns stopped) d rest = returns (d, [])
after_wait (returns elapsed) d rest = printed (shown d) rest
after_wait waits d rest = waits
after_wait fault d rest = fault

module _ (time_before : ℕ → ℕ → Bool) (hz : ℕ) where
  -- `delay`
  abbrev pub delay : ℕ
  delay = 5 * hz

  -- `while( time_before(jiffies, j1) )`
  unfoldable pub wait : ℕ → ℕ → (ℕ → ℕ) → (ℕ → Bool) → Outcome Wake
  wait zero j1 jiffies should_stop = waits
  wait (suc fuel) j1 jiffies should_stop =
      let rest = wait fuel j1 (λ k. jiffies (suc k)) (λ k. should_stop (suc k)) in
      if time_before (jiffies 0) j1
      then if should_stop 0 then returns stopped else rest
      else returns elapsed

  -- `nfgpu_thread` for these rounds, each wait with this fuel: the driver when it returns, and the lines
  -- that it printed.
  unfoldable pub nfgpu_thread : ℕ → List Round → Driver → Outcome (Driver × List Line)
  nfgpu_thread fuel [] d = waits
  nfgpu_thread fuel (r ∷ rounds) d =
      let d₁ = r.others d in
      after_wait (wait fuel (add64 r.j0 delay) r.jiffies r.should_stop) d₁
        (nfgpu_thread fuel rounds (cleared (r.meanwhile d₁)))
