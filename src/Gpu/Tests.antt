-- ===== src/Gpu/Tests.antt =====
-- A packet of 100 bytes in slot 2, on a device that runs 1024 threads.
use porteus_gpu.Gpu.Handshake.{aes_test_round_unprocessed, read64, announce}
use porteus_gpu.Gpu.{process, cipher_key, aes_test_round, threads_for}
use porteus_gpu.Gpu.Alloc.{gives, gpu_alloc_pinned_mem, CudaAnswers}
use porteus_gpu.Base.{arith, refl, write32, true, ◌≡◌, read32, Mem, some}
use porteus_gpu.Target.{Post}

abbrev packet : Post
packet = record { index = 2; len = 100 }

aes_test_round_unprocessed_example :
    (aes_test_round 1024 cipher_key (announce packet (λ a. 0))
      ≡ some (write32 0 0 (announce packet (λ a. 0))))
    × (read64 (write32 0 0 (announce packet (λ a. 0))) 0 ≡ 0)
aes_test_round_unprocessed_example =
    aes_test_round_unprocessed 1024 cipher_key packet (λ a. 0) (omega arith) (omega arith)
      (omega arith)

-- The same announcement, if the length stood where the GPU reads it.
abbrev aligned : Mem
aligned = write32 4 100 (write32 0 2 (λ a. 0))

index_of_aligned : read32 aligned 0 ≡ 2
unfolding read32 write32
index_of_aligned = refl

length_of_aligned : read32 aligned 4 ≡ 100
unfolding read32 write32
length_of_aligned = refl

four_threads : threads_for 100 ≡ 4
unfolding threads_for
four_threads = refl

abbrev after : Mem
after = write32 0 0 (process 1024 cipher_key 2 100 aligned)

round_of_aligned : aes_test_round 1024 cipher_key aligned ≡ some after
unfolding aes_test_round
round_of_aligned = rw (aes_test_round, index_of_aligned, length_of_aligned) refl

abbrev answers : CudaAnswers
answers = record {
  sets_device = true;
  gets_properties = true;
  can_map_host_memory = true;
  sets_flags = true;
  allocates_host = true;
  host_pointer = 4096;
  gets_device_pointer = true;
  device_pointer = 0;
}

answers_give : gpu_alloc_pinned_mem answers ≡ gives 4096 (record { gpu_ptr = 4096; gpu_devptr = 0 })
unfolding gpu_alloc_pinned_mem
answers_give = refl
