-- ===== src/Aes/Tables/Td2.antt =====
-- togpu/driver/xt_TOGPU_kernel.cu, the table `Td2`.
use porteus_gpu.Base.{ℕ, List, [], ◌∷◌}

unfoldable pub td2 : List ℕ
td2 =
    0xa75051f4 ∷ 0x65537e41 ∷ 0xa4c31a17 ∷ 0x5e963a27 ∷ 0x6bcb3bab ∷ 0x45f11f9d ∷ 0x58abacfa
    ∷ 0x03934be3 ∷ 0xfa552030 ∷ 0x6df6ad76 ∷ 0x769188cc ∷ 0x4c25f502 ∷ 0xd7fc4fe5 ∷ 0xcbd7c52a
    ∷ 0x44802635 ∷ 0xa38fb562 ∷ 0x5a49deb1 ∷ 0x1b6725ba ∷ 0x0e9845ea ∷ 0xc0e15dfe ∷ 0x7502c32f
    ∷ 0xf012814c ∷ 0x97a38d46 ∷ 0xf9c66bd3 ∷ 0x5fe7038f ∷ 0x9c951592 ∷ 0x7aebbf6d ∷ 0x59da9552
    ∷ 0x832dd4be ∷ 0x21d35874 ∷ 0x692949e0 ∷ 0xc8448ec9 ∷ 0x896a75c2 ∷ 0x7978f48e ∷ 0x3e6b9958
    ∷ 0x71dd27b9 ∷ 0x4fb6bee1 ∷ 0xad17f088 ∷ 0xac66c920 ∷ 0x3ab47dce ∷ 0x4a1863df ∷ 0x3182e51a
    ∷ 0x33609751 ∷ 0x7f456253 ∷ 0x77e0b164 ∷ 0xae84bb6b ∷ 0xa01cfe81 ∷ 0x2b94f908 ∷ 0x68587048
    ∷ 0xfd198f45 ∷ 0x6c8794de ∷ 0xf8b7527b ∷ 0xd323ab73 ∷ 0x02e2724b ∷ 0x8f57e31f ∷ 0xab2a6655
    ∷ 0x2807b2eb ∷ 0xc2032fb5 ∷ 0x7b9a86c5 ∷ 0x08a5d337 ∷ 0x87f23028 ∷ 0xa5b223bf ∷ 0x6aba0203
    ∷ 0x825ced16 ∷ 0x1c2b8acf ∷ 0xb492a779 ∷ 0xf2f0f307 ∷ 0xe2a14e69 ∷ 0xf4cd65da ∷ 0xbed50605
    ∷ 0x621fd134 ∷ 0xfe8ac4a6 ∷ 0x539d342e ∷ 0x55a0a2f3 ∷ 0xe132058a ∷ 0xeb75a4f6 ∷ 0xec390b83
    ∷ 0xefaa4060 ∷ 0x9f065e71 ∷ 0x1051bd6e ∷ 0x8af93e21 ∷ 0x063d96dd ∷ 0x05aedd3e ∷ 0xbd464de6
    ∷ 0x8db59154 ∷ 0x5d0571c4 ∷ 0xd46f0406 ∷ 0x15ff6050 ∷ 0xfb241998 ∷ 0xe997d6bd ∷ 0x43cc8940
    ∷ 0x9e7767d9 ∷ 0x42bdb0e8 ∷ 0x8b880789 ∷ 0x5b38e719 ∷ 0xeedb79c8 ∷ 0x0a47a17c ∷ 0x0fe97c42
    ∷ 0x1ec9f884 ∷ 0x00000000 ∷ 0x86830980 ∷ 0xed48322b ∷ 0x70ac1e11 ∷ 0x724e6c5a ∷ 0xfffbfd0e
    ∷ 0x38560f85 ∷ 0xd51e3dae ∷ 0x3927362d ∷ 0xd9640a0f ∷ 0xa621685c ∷ 0x54d19b5b ∷ 0x2e3a2436
    ∷ 0x67b10c0a ∷ 0xe70f9357 ∷ 0x96d2b4ee ∷ 0x919e1b9b ∷ 0xc54f80c0 ∷ 0x20a261dc ∷ 0x4b695a77
    ∷ 0x1a161c12 ∷ 0xba0ae293 ∷ 0x2ae5c0a0 ∷ 0xe0433c22 ∷ 0x171d121b ∷ 0x0d0b0e09 ∷ 0xc7adf28b
    ∷ 0xa8b92db6 ∷ 0xa9c8141e ∷ 0x198557f1 ∷ 0x074caf75 ∷ 0xddbbee99 ∷ 0x60fda37f ∷ 0x269ff701
    ∷ 0xf5bc5c72 ∷ 0x3bc54466 ∷ 0x7e345bfb ∷ 0x29768b43 ∷ 0xc6dccb23 ∷ 0xfc68b6ed ∷ 0xf163b8e4
    ∷ 0xdccad731 ∷ 0x85104263 ∷ 0x22401397 ∷ 0x112084c6 ∷ 0x247d854a ∷ 0x3df8d2bb ∷ 0x3211aef9
    ∷ 0xa16dc729 ∷ 0x2f4b1d9e ∷ 0x30f3dcb2 ∷ 0x52ec0d86 ∷ 0xe3d077c1 ∷ 0x166c2bb3 ∷ 0xb999a970
    ∷ 0x48fa1194 ∷ 0x642247e9 ∷ 0x8cc4a8fc ∷ 0x3f1aa0f0 ∷ 0x2cd8567d ∷ 0x90ef2233 ∷ 0x4ec78749
    ∷ 0xd1c1d938 ∷ 0xa2fe8cca ∷ 0x0b3698d4 ∷ 0x81cfa6f5 ∷ 0xde28a57a ∷ 0x8e26dab7 ∷ 0xbfa43fad
    ∷ 0x9de42c3a ∷ 0x920d5078 ∷ 0xcc9b6a5f ∷ 0x4662547e ∷ 0x13c2f68d ∷ 0xb8e890d8 ∷ 0xf75e2e39
    ∷ 0xaff582c3 ∷ 0x80be9f5d ∷ 0x937c69d0 ∷ 0x2da96fd5 ∷ 0x12b3cf25 ∷ 0x993bc8ac ∷ 0x7da71018
    ∷ 0x636ee89c ∷ 0xbb7bdb3b ∷ 0x7809cd26 ∷ 0x18f46e59 ∷ 0xb701ec9a ∷ 0x9aa8834f ∷ 0x6e65e695
    ∷ 0xe67eaaff ∷ 0xcf0821bc ∷ 0xe8e6ef15 ∷ 0x9bd9bae7 ∷ 0x36ce4a6f ∷ 0x09d4ea9f ∷ 0x7cd629b0
    ∷ 0xb2af31a4 ∷ 0x23312a3f ∷ 0x9430c6a5 ∷ 0x66c035a2 ∷ 0xbc37744e ∷ 0xcaa6fc82 ∷ 0xd0b0e090
    ∷ 0xd81533a7 ∷ 0x984af104 ∷ 0xdaf741ec ∷ 0x500e7fcd ∷ 0xf62f1791 ∷ 0xd68d764d ∷ 0xb04d43ef
    ∷ 0x4d54ccaa ∷ 0x04dfe496 ∷ 0xb5e39ed1 ∷ 0x881b4c6a ∷ 0x1fb8c12c ∷ 0x517f4665 ∷ 0xea049d5e
    ∷ 0x355d018c ∷ 0x7473fa87 ∷ 0x412efb0b ∷ 0x1d5ab367 ∷ 0xd25292db ∷ 0x5633e910 ∷ 0x47136dd6
    ∷ 0x618c9ad7 ∷ 0x0c7a37a1 ∷ 0x148e59f8 ∷ 0x3c89eb13 ∷ 0x27eecea9 ∷ 0xc935b761 ∷ 0xe5ede11c
    ∷ 0xb13c7a47 ∷ 0xdf599cd2 ∷ 0x733f55f2 ∷ 0xce791814 ∷ 0x37bf73c7 ∷ 0xcdea53f7 ∷ 0xaa5b5ffd
    ∷ 0x6f14df3d ∷ 0xdb867844 ∷ 0xf381caaf ∷ 0xc43eb968 ∷ 0x342c3824 ∷ 0x405fc2a3 ∷ 0xc372161d
    ∷ 0x250cbce2 ∷ 0x498b283c ∷ 0x9541ff0d ∷ 0x017139a8 ∷ 0xb3de080c ∷ 0xe49cd8b4 ∷ 0xc1906456
    ∷ 0x84617bcb ∷ 0xb670d532 ∷ 0x5c74486c ∷ 0x5742d0b8 ∷ []
