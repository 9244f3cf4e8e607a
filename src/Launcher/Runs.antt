-- ===== src/Launcher/Runs.antt =====
-- How the launcher goes on, and which failure it does not notice.
use porteus_gpu.Gpu.{aes_test_waits, cipher_key}
use porteus_gpu.Launcher.{
  tests, initialises, start_request, allocates, stop_request, set_buffers_request, ioctls, opens,
  run_gpu, after_test, Call, main, Environment, exits, stays,
}
use porteus_gpu.Base.{
  ==→ne, ==→eq, refl, ◌==◌, ◌⊎◌, ne→==, true, none, Bool-cases, inr, false, [], ◌≢◌, Bool, ◌∷◌,
  some, inl, List, Option-cases, ◌≡◌, ℕ,
}

-- Whether a run starts the driver.
unfoldable pub starts : List Call → Bool
starts [] = false
starts (ioctls start_request ∷ cs) = true
starts (_ ∷ cs) = starts cs

-- The calls of a run that comes to process packets, in order.
abbrev pub whole_run : List Call
whole_run =
    opens
    ∷ ioctls stop_request
    ∷ allocates
    ∷ ioctls set_buffers_request
    ∷ ioctls start_request
    ∷ initialises
    ∷ tests
    ∷ []

-- How the launcher goes on, by what the device, the GPU and the driver answer.
pub data RunEnd (fuel : ℕ) (env : Environment) : Type 0 where
  goes_on :
      (fd : ℕ)
      → env.fd ≡ some fd
      → env.pinned ≢ 0
      → env.ioctl_fails set_buffers_request ≡ false
      → main fuel env ≡ stays whole_run
      → RunEnd fuel env
  fails :
      (calls : List Call)
      → (env.fd ≡ none) ⊎ ((env.pinned ≡ 0) ⊎ (env.ioctl_fails set_buffers_request ≡ true))
      → main fuel env ≡ exits false calls
      → starts calls ≡ false
      → RunEnd fuel env

run_gpu-RunEnd :
    (fuel fd : ℕ) (env : Environment) → env.fd ≡ some fd → env.pinned ≢ 0 → RunEnd fuel env
unfolding main run_gpu after_test starts
run_gpu-RunEnd fuel fd env e there = elim (Bool-cases (env.ioctl_fails set_buffers_request)) [
  | inl bad ↦
      fails (opens ∷ ioctls stop_request ∷ allocates ∷ ioctls set_buffers_request ∷ [])
        (inr (inr bad)) (rw (main, e, ne→== env.pinned 0 there, run_gpu, bad) refl) refl
  | inr good ↦ goes_on fd e there good (
      rw
        (
          main,
          e,
          ne→== env.pinned 0 there,
          run_gpu,
          good,
          aes_test_waits fuel env.max_threads cipher_key env.others env.memory,
        )
        refl)
]

-- If the device opens, the GPU gives memory and SET_BUFFERS does not fail, whatever START and
-- STOP return, then the launcher makes seven calls in order, up to that of aes_test, and stays
-- there, whatever the fuel: it does not stop the driver, free the memory or return. Else it
-- fails, and has not started the driver.
pub main_lem : (fuel : ℕ) (env : Environment) → RunEnd fuel env
unfolding main starts
main_lem fuel env = elim (Option-cases env.fd) [
  | inl closed ↦ fails (opens ∷ []) (inl closed) (rw (main, closed) refl) refl
  | inr (fd, e) ↦ elim (Bool-cases (env.pinned == 0)) [
    | inl z ↦
        fails (opens ∷ ioctls stop_request ∷ allocates ∷ []) (inr (inl (==→eq env.pinned 0 z)))
          (rw (main, e, z) refl) refl
    | inr nz ↦ run_gpu-RunEnd fuel fd env e (==→ne env.pinned 0 nz)
  ]
]
