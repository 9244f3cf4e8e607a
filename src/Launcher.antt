-- ===== src/Launcher.antt =====
-- togpu/driver/xt_TOGPU_launcher.c, `main`: the program that hands the GPU's memory to the driver. What it
-- prints is left out.
pub mod Runs
mod Tests
use porteus_gpu.Gpu.{aes_test, cipher_key}
use porteus_gpu.Base.{
  fault, waits, returns, ◌++◌, Mem, Outcome, ◌==◌, true, ◌∷◌, if◌then◌else◌, false, List, Option, ℕ,
  Bool, none, some, [],
}

-- The ioctls that it issues.
pub data Request : Type 0 where
  stop_request set_buffers_request start_request : Request

-- What it does that the kernel or the GPU can see.
pub data Call : Type 0 where
  opens allocates initialises tests : Call
  ioctls : Request → Call
  frees : ℕ → Call

-- What comes back from outside: the file descriptor, with `none` for a result of 0 or less, the pinned
-- memory, 0 for NULL, which ioctls fail, the threads that the GPU can run, and what others do to its memory.
pub record Environment : Type 0 where
  pub fd : Option ℕ
  pub pinned : ℕ
  pub ioctl_fails : Request → Bool
  pub max_threads : ℕ
  pub others : ℕ → Mem → Mem
  pub memory : Mem

-- A run with its calls in order: it exits, with 0 or not, or it is still in `aes_test`.
pub data Run : Type 0 where
  exits : Bool → List Call → Run
  stays : List Call → Run

-- What follows the call of `aes_test`.
unfoldable pub after_test : Environment → List Call → Outcome ℕ → Run
after_test env calls waits = stays calls
after_test env calls fault = exits false calls
after_test env calls (returns r) = exits true (calls ++ ioctls stop_request ∷ frees env.pinned ∷ [])

-- The rest of `main` once the memory is there, with fuel for `aes_test`, after these calls; `err` is the
-- result of SET_BUFFERS, and START has none.
unfoldable pub run_gpu : ℕ → Environment → List Call → Run
run_gpu fuel env calls =
    let err = env.ioctl_fails set_buffers_request in
    let set = calls ++ ioctls set_buffers_request ∷ [] in
    let started = set ++ ioctls start_request ∷ [] in
    if err
    then exits false set
    else if err
    then exits false started
    else after_test env (started ++ initialises ∷ tests ∷ [])
        (aes_test fuel env.max_threads cipher_key env.others env.memory)

-- `main`
unfoldable pub main : ℕ → Environment → Run
main fuel env = elim env.fd [
  | none ↦ exits false (opens ∷ [])
  | some fd ↦
      let calls = opens ∷ ioctls stop_request ∷ allocates ∷ [] in
      if env.pinned == 0 then exits false calls else run_gpu fuel env calls
]
