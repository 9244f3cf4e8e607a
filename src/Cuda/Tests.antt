-- ===== src/Cuda/Tests.antt =====
-- A packet at 4096, under a key of words that all differ.
use porteus_gpu.Cuda.Lockstep.{aes_encrypt_bp4t_lem, aes_decrypt_bp4t_lem, repeated_key, text_row}
use porteus_gpu.Cuda.Modes.{threads_commute, launch-decrypt-encrypt}
use porteus_gpu.Aes.Schedule.{inverse_key-IsInverse, inverse_key}
use porteus_gpu.Cuda.Counter.{aes_ctr_crypt-aes_ctr_crypt}
use porteus_gpu.Cuda.Rows.{row_at, aes_decrypt_bp4t, aes_encrypt_bp4t, row}
use porteus_gpu.Aes.RoundTrip.{twelve, fourteen, IsInverse}
use porteus_gpu.Cuda.{aes_decrypt_bpt, aes_ctr_crypt, aes_encrypt_bpt, swap, launch}
use porteus_gpu.Base.{◌^◌, ◌%◌, refl, ◌+◌, arith, ◌≡◌, ◌*◌, ℕ, Mem, IsBytes}
use porteus_gpu.Aes.{encrypt_block, decrypt_block}

abbrev key : ℕ → ℕ
key n = (n * 0x01234567 + 1) % 2 ^ 32

abbrev memory : Mem
memory a = a * 7 % 256

key-IsInverse : IsInverse key (inverse_key key 14) 14
key-IsInverse = inverse_key-IsInverse key 14 (λ n. omega arith) (omega arith)

memory-IsBytes : IsBytes memory
memory-IsBytes a = omega arith

swapped : swap 0x11223344 ≡ 0x44332211
swapped = refl

threads_commute_example :
    (aes_encrypt_bpt key 14 4096 0 (aes_encrypt_bpt key 14 4096 1 memory)
      ≡ aes_encrypt_bpt key 14 4096 1 (aes_encrypt_bpt key 14 4096 0 memory))
    × (aes_decrypt_bpt key 10 4096 0 (aes_encrypt_bpt key 14 4096 1 memory)
        ≡ aes_encrypt_bpt key 14 4096 1 (aes_decrypt_bpt key 10 4096 0 memory))
threads_commute_example = threads_commute key key 14 10 4096 0 1 memory (omega arith)

launch-decrypt-encrypt_example :
    launch 3
      (aes_decrypt_bpt (inverse_key key 14) 14 4096)
      (launch 3 (aes_encrypt_bpt key 14 4096) memory)
    ≡ memory
launch-decrypt-encrypt_example =
    launch-decrypt-encrypt key (inverse_key key 14) 14 fourteen key-IsInverse 4096 3 memory
      memory-IsBytes

aes_ctr_crypt-aes_ctr_crypt_example :
    aes_ctr_crypt key 12 4096 64 2 (aes_ctr_crypt key 12 4096 64 2 memory) ≡ memory
aes_ctr_crypt-aes_ctr_crypt_example =
    aes_ctr_crypt-aes_ctr_crypt key 12 4096 64 2 memory memory-IsBytes (omega arith)

aes_encrypt_bp4t_lem_example :
    row (aes_encrypt_bp4t key 12 4096 1 memory) 3
    ≡ encrypt_block key 12 (text_row memory (row_at 4096 1 3))
aes_encrypt_bp4t_lem_example = aes_encrypt_bp4t_lem key 12 4096 1 3 memory twelve

aes_decrypt_bp4t_lem_example :
    row (aes_decrypt_bp4t key 12 4096 1 memory) 3
    ≡ decrypt_block (repeated_key key 12) 12 (text_row memory (row_at 4096 1 3))
aes_decrypt_bp4t_lem_example = aes_decrypt_bp4t_lem key 12 4096 1 3 memory twelve
