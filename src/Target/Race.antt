-- ===== src/Target/Race.antt =====
-- togpu/driver/xt_TOGPU_main.c, `nfgpu_target` on several processors: they and the GPU share the two words
-- at the start of the GPU's memory, with no lock.
pub mod Safe
pub mod Overlap
mod Tests
use porteus_gpu.Config.{max_skbs}
use porteus_gpu.Base.{◌+◌, ◌<◌, update, ◌≢◌, ◌≡◌, ℕ}

-- Where a processor stands in `nfgpu_target`: between the two stores of a slot and a length, or polling.
pub data Sender : Type 0 where
  resting : Sender
  indexed : ℕ → ℕ → Sender
  polling : ℕ → Sender

-- Where the GPU stands in `aes_test`: waiting for a slot's number, past the wait, or working on the slot that it then read.
pub data Gpu : Type 0 where
  waiting : Gpu
  seen : Gpu
  working : ℕ → Gpu

-- The two words, the processors, the GPU, and for each slot the rounds that the GPU has ended for it and the packets in it
-- that the target has accepted.
pub record Mailbox : Type 0 where
  pub index : ℕ
  pub len : ℕ
  pub sender : ℕ → Sender
  pub gpu : Gpu
  pub served : ℕ → ℕ
  pub accepted : ℕ → ℕ

-- One access of processor `c` or of the GPU. `Overlap` says in which states a packet may be announced.
pub data Step (Overlap : Mailbox → Type 0) (s : Mailbox) : Mailbox → Type 0 where
  posts :
      (c i l : ℕ)
      → s.sender c ≡ resting
      → Overlap s
      → i ≢ 0
      → i < max_skbs
      → Step Overlap s (record s { index = i; sender = update s.sender c (indexed i l) })
  measures :
      (c i l : ℕ)
      → s.sender c ≡ indexed i l
      → Step Overlap s (record s { len = l; sender = update s.sender c (polling i) })
  accepts :
      (c i : ℕ)
      → s.sender c ≡ polling i
      → s.index ≡ 0
      → Step Overlap s (record s {
        sender = update s.sender c resting;
        accepted = update s.accepted i (s.accepted i + 1);
      })
  sees : s.gpu ≡ waiting → s.index ≢ 0 → Step Overlap s (record s { gpu = seen })
  reads : s.gpu ≡ seen → Step Overlap s (record s { gpu = working s.index })
  answers :
      (i : ℕ)
      → s.gpu ≡ working i
      → Step Overlap s
          (record s { index = 0; gpu = waiting; served = update s.served i (s.served i + 1) })

pub data Reach (Overlap : Mailbox → Type 0) (s : Mailbox) : Mailbox → Type 0 where
  here : Reach Overlap s s
  later : {t u : Mailbox} → Reach Overlap s t → Step Overlap t u → Reach Overlap s u

-- A packet is announced when no other is under way.
abbrev pub Alone : Mailbox → Type 0
Alone s = (c : ℕ) → s.sender c ≡ resting

-- A packet is announced at any time, as the code allows.
abbrev pub Anytime : Mailbox → Type 0
Anytime s = Unit {0}

-- Nothing is announced, and the GPU waits.
pub record IsQuiet (s : Mailbox) : Type 0 where
  pub cleared : s.index ≡ 0
  pub idle : s.gpu ≡ waiting
  pub all_resting : (c : ℕ) → s.sender c ≡ resting
  pub balanced : (i : ℕ) → s.served i ≡ s.accepted i
