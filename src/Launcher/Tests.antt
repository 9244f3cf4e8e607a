-- ===== src/Launcher/Tests.antt =====
-- A run in which START fails, and the launcher does not notice.
use porteus_gpu.Launcher.Runs.{main_lem, RunEnd}
use porteus_gpu.Launcher.{start_request, Request, Environment}
use porteus_gpu.Base.{false, true, Bool, some}

abbrev start_fails : Request → Bool
start_fails start_request = true
start_fails _ = false

abbrev started : Environment
started = record {
  fd = some 3;
  pinned = 4096;
  ioctl_fails = start_fails;
  max_threads = 1024;
  others = λ k m. m;
  memory = λ a. 0;
}

main_lem_example : RunEnd 100 started
main_lem_example = main_lem 100 started
