-- ===== src/Device/Exclusive.antt =====
-- One call after another: the counter of `nfgpu_open` is a lock with one holder.
use porteus_gpu.Device.{nfgpu_release, nfgpu_open}
use porteus_gpu.Base.{
  if◌then◌else◌, Status, Bool, List, ℕ, ◌≡◌, refl, [], ◌∷◌, true, false, ok, fail, ebusy,
}

pub data Call : Type 0 where
  open_call : Call
  release_call : Call

-- The calls on the device file in turn, with what each returns.
unfoldable pub run_calls : ℕ → List Call → List Status
run_calls av [] = []
run_calls av (open_call ∷ calls) = let (status, av') = nfgpu_open av in status ∷ run_calls av' calls
run_calls av (release_call ∷ calls) =
    let (status, av') = nfgpu_release av in status ∷ run_calls av' calls

-- What the device promises: an open succeeds just when nobody holds it.
unfoldable pub lock_calls : Bool → List Call → List Status
lock_calls held [] = []
lock_calls held (open_call ∷ calls) = (if held then fail ebusy else ok) ∷ lock_calls true calls
lock_calls held (release_call ∷ calls) = ok ∷ lock_calls false calls

-- The counter that stands for a held or a free lock.
abbrev pub counter : Bool → ℕ
counter held = if held then 0 else 1

nfgpu_open-counter :
    (held : Bool) → nfgpu_open (counter held) ≡ ((if held then fail ebusy else ok), counter true)
unfolding nfgpu_open
nfgpu_open-counter true = refl
nfgpu_open-counter false = refl

-- Opens and releases that come one after another are answered by the counter as by a lock: an
-- open succeeds just when the device is not held, and a release frees it.
pub run_calls_refines :
    (held : Bool) (calls : List Call) → run_calls (counter held) calls ≡ lock_calls held calls
unfolding run_calls lock_calls nfgpu_release
run_calls_refines held [] = refl
run_calls_refines held (open_call ∷ calls) =
    rw nfgpu_open-counter (rw (run_calls_refines true calls) refl)
run_calls_refines held (release_call ∷ calls) = rw (run_calls_refines false calls) refl
