-- ===== src/Aes/Tests.antt =====
-- The example of FIPS 197, appendix B.
use porteus_gpu.Aes.Schedule.{inverse_key-IsInverse, inverse_key}
use porteus_gpu.Aes.RoundTrip.{ten, decrypt_block-encrypt_block, IsInverse}
use porteus_gpu.Aes.Fips.{tables-IsFips, IsFips}
use porteus_gpu.Aes.Rounds.{IsBlock}
use porteus_gpu.Base.{refl, ◌^◌, ◌%◌, ◌≡◌, ◌∷◌, arith, []}
use porteus_gpu.Aes.{
  te4, te3, te2, te1, te0, te_last, te_last_round, te_mix, te_round, te_rounds, add_key, ℕ,
  decrypt_block, encrypt_block, Block, lookup,
}

-- The expanded key.
abbrev example_key : ℕ → ℕ
example_key n =
    lookup
      (0x2b7e1516 ∷ 0x28aed2a6 ∷ 0xabf71588 ∷ 0x09cf4f3c ∷ 0xa0fafe17 ∷ 0x88542cb1 ∷ 0x23a33939
        ∷ 0x2a6c7605 ∷ 0xf2c295f2 ∷ 0x7a96b943 ∷ 0x5935807a ∷ 0x7359f67f ∷ 0x3d80477d ∷ 0x4716fe3e
        ∷ 0x1e237e44 ∷ 0x6d7a883b ∷ 0xef44a541 ∷ 0xa8525b7f ∷ 0xb671253b ∷ 0xdb0bad00 ∷ 0xd4d1c6f8
        ∷ 0x7c839d87 ∷ 0xcaf2b8bc ∷ 0x11f915bc ∷ 0x6d88a37a ∷ 0x110b3efd ∷ 0xdbf98641 ∷ 0xca0093fd
        ∷ 0x4e54f70e ∷ 0x5f5fc9f3 ∷ 0x84a64fb2 ∷ 0x4ea6dc4f ∷ 0xead27321 ∷ 0xb58dbad2 ∷ 0x312bf560
        ∷ 0x7f8d292f ∷ 0xac7766f3 ∷ 0x19fadc21 ∷ 0x28d12941 ∷ 0x575c006e ∷ 0xd014f9a8 ∷ 0xc9ee2589
        ∷ 0xe13f0cc8 ∷ 0xb6630ca6 ∷ [])
      n
    % 2 ^ 32

abbrev plain : Block
plain = record { w0 = 0x3243f6a8; w1 = 0x885a308d; w2 = 0x313198a2; w3 = 0xe0370734 }

fips_example :
    encrypt_block example_key 10 plain
    ≡ record { w0 = 0x3925841d; w1 = 0x02dc09fb; w2 = 0xdc118597; w3 = 0x196a0b32 }
unfolding encrypt_block add_key te_rounds te_round te_mix te_last_round te_last lookup te0 te1 te2
    te3 te4
fips_example = refl

example_key-IsInverse : IsInverse example_key (inverse_key example_key 10) 10
example_key-IsInverse = inverse_key-IsInverse example_key 10 (λ n. omega arith) (omega arith)

plain-IsBlock : IsBlock plain
plain-IsBlock = omega arith

decrypt_block-encrypt_block_example :
    decrypt_block (inverse_key example_key 10) 10 (encrypt_block example_key 10 plain) ≡ plain
decrypt_block-encrypt_block_example =
    decrypt_block-encrypt_block example_key (inverse_key example_key 10) 10 plain ten
      example_key-IsInverse plain-IsBlock

tables-IsFips_example : IsFips 0x53
tables-IsFips_example = tables-IsFips 0x53 (omega arith)
