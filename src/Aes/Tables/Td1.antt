-- ===== src/Aes/Tables/Td1.antt =====
-- togpu/driver/xt_TOGPU_kernel.cu, the table `Td1`.
use porteus_gpu.Base.{ℕ, List, [], ◌∷◌}

unfoldable pub td1 : List ℕ
td1 =
    0x5051f4a7 ∷ 0x537e4165 ∷ 0xc31a17a4 ∷ 0x963a275e ∷ 0xcb3bab6b ∷ 0xf11f9d45 ∷ 0xabacfa58
    ∷ 0x934be303 ∷ 0x552030fa ∷ 0xf6ad766d ∷ 0x9188cc76 ∷ 0x25f5024c ∷ 0xfc4fe5d7 ∷ 0xd7c52acb
    ∷ 0x80263544 ∷ 0x8fb562a3 ∷ 0x49deb15a ∷ 0x6725ba1b ∷ 0x9845ea0e ∷ 0xe15dfec0 ∷ 0x02c32f75
    ∷ 0x12814cf0 ∷ 0xa38d4697 ∷ 0xc66bd3f9 ∷ 0xe7038f5f ∷ 0x9515929c ∷ 0xebbf6d7a ∷ 0xda955259
    ∷ 0x2dd4be83 ∷ 0xd3587421 ∷ 0x2949e069 ∷ 0x448ec9c8 ∷ 0x6a75c289 ∷ 0x78f48e79 ∷ 0x6b99583e
    ∷ 0xdd27b971 ∷ 0xb6bee14f ∷ 0x17f088ad ∷ 0x66c920ac ∷ 0xb47dce3a ∷ 0x1863df4a ∷ 0x82e51a31
    ∷ 0x60975133 ∷ 0x4562537f ∷ 0xe0b16477 ∷ 0x84bb6bae ∷ 0x1cfe81a0 ∷ 0x94f9082b ∷ 0x58704868
    ∷ 0x198f45fd ∷ 0x8794de6c ∷ 0xb7527bf8 ∷ 0x23ab73d3 ∷ 0xe2724b02 ∷ 0x57e31f8f ∷ 0x2a6655ab
    ∷ 0x07b2eb28 ∷ 0x032fb5c2 ∷ 0x9a86c57b ∷ 0xa5d33708 ∷ 0xf2302887 ∷ 0xb223bfa5 ∷ 0xba02036a
    ∷ 0x5ced1682 ∷ 0x2b8acf1c ∷ 0x92a779b4 ∷ 0xf0f307f2 ∷ 0xa14e69e2 ∷ 0xcd65daf4 ∷ 0xd50605be
    ∷ 0x1fd13462 ∷ 0x8ac4a6fe ∷ 0x9d342e53 ∷ 0xa0a2f355 ∷ 0x32058ae1 ∷ 0x75a4f6eb ∷ 0x390b83ec
    ∷ 0xaa4060ef ∷ 0x065e719f ∷ 0x51bd6e10 ∷ 0xf93e218a ∷ 0x3d96dd06 ∷ 0xaedd3e05 ∷ 0x464de6bd
    ∷ 0xb591548d ∷ 0x0571c45d ∷ 0x6f0406d4 ∷ 0xff605015 ∷ 0x241998fb ∷ 0x97d6bde9 ∷ 0xcc894043
    ∷ 0x7767d99e ∷ 0xbdb0e842 ∷ 0x8807898b ∷ 0x38e7195b ∷ 0xdb79c8ee ∷ 0x47a17c0a ∷ 0xe97c420f
    ∷ 0xc9f8841e ∷ 0x00000000 ∷ 0x83098086 ∷ 0x48322bed ∷ 0xac1e1170 ∷ 0x4e6c5a72 ∷ 0xfbfd0eff
    ∷ 0x560f8538 ∷ 0x1e3daed5 ∷ 0x27362d39 ∷ 0x640a0fd9 ∷ 0x21685ca6 ∷ 0xd19b5b54 ∷ 0x3a24362e
    ∷ 0xb10c0a67 ∷ 0x0f9357e7 ∷ 0xd2b4ee96 ∷ 0x9e1b9b91 ∷ 0x4f80c0c5 ∷ 0xa261dc20 ∷ 0x695a774b
    ∷ 0x161c121a ∷ 0x0ae293ba ∷ 0xe5c0a02a ∷ 0x433c22e0 ∷ 0x1d121b17 ∷ 0x0b0e090d ∷ 0xadf28bc7
    ∷ 0xb92db6a8 ∷ 0xc8141ea9 ∷ 0x8557f119 ∷ 0x4caf7507 ∷ 0xbbee99dd ∷ 0xfda37f60 ∷ 0x9ff70126
    ∷ 0xbc5c72f5 ∷ 0xc544663b ∷ 0x345bfb7e ∷ 0x768b4329 ∷ 0xdccb23c6 ∷ 0x68b6edfc ∷ 0x63b8e4f1
    ∷ 0xcad731dc ∷ 0x10426385 ∷ 0x40139722 ∷ 0x2084c611 ∷ 0x7d854a24 ∷ 0xf8d2bb3d ∷ 0x11aef932
    ∷ 0x6dc729a1 ∷ 0x4b1d9e2f ∷ 0xf3dcb230 ∷ 0xec0d8652 ∷ 0xd077c1e3 ∷ 0x6c2bb316 ∷ 0x99a970b9
    ∷ 0xfa119448 ∷ 0x2247e964 ∷ 0xc4a8fc8c ∷ 0x1aa0f03f ∷ 0xd8567d2c ∷ 0xef223390 ∷ 0xc787494e
    ∷ 0xc1d938d1 ∷ 0xfe8ccaa2 ∷ 0x3698d40b ∷ 0xcfa6f581 ∷ 0x28a57ade ∷ 0x26dab78e ∷ 0xa43fadbf
    ∷ 0xe42c3a9d ∷ 0x0d507892 ∷ 0x9b6a5fcc ∷ 0x62547e46 ∷ 0xc2f68d13 ∷ 0xe890d8b8 ∷ 0x5e2e39f7
    ∷ 0xf582c3af ∷ 0xbe9f5d80 ∷ 0x7c69d093 ∷ 0xa96fd52d ∷ 0xb3cf2512 ∷ 0x3bc8ac99 ∷ 0xa710187d
    ∷ 0x6ee89c63 ∷ 0x7bdb3bbb ∷ 0x09cd2678 ∷ 0xf46e5918 ∷ 0x01ec9ab7 ∷ 0xa8834f9a ∷ 0x65e6956e
    ∷ 0x7eaaffe6 ∷ 0x0821bccf ∷ 0xe6ef15e8 ∷ 0xd9bae79b ∷ 0xce4a6f36 ∷ 0xd4ea9f09 ∷ 0xd629b07c
    ∷ 0xaf31a4b2 ∷ 0x312a3f23 ∷ 0x30c6a594 ∷ 0xc035a266 ∷ 0x37744ebc ∷ 0xa6fc82ca ∷ 0xb0e090d0
    ∷ 0x1533a7d8 ∷ 0x4af10498 ∷ 0xf741ecda ∷ 0x0e7fcd50 ∷ 0x2f1791f6 ∷ 0x8d764dd6 ∷ 0x4d43efb0
    ∷ 0x54ccaa4d ∷ 0xdfe49604 ∷ 0xe39ed1b5 ∷ 0x1b4c6a88 ∷ 0xb8c12c1f ∷ 0x7f466551 ∷ 0x049d5eea
    ∷ 0x5d018c35 ∷ 0x73fa8774 ∷ 0x2efb0b41 ∷ 0x5ab3671d ∷ 0x5292dbd2 ∷ 0x33e91056 ∷ 0x136dd647
    ∷ 0x8c9ad761 ∷ 0x7a37a10c ∷ 0x8e59f814 ∷ 0x89eb133c ∷ 0xeecea927 ∷ 0x35b761c9 ∷ 0xede11ce5
    ∷ 0x3c7a47b1 ∷ 0x599cd2df ∷ 0x3f55f273 ∷ 0x791814ce ∷ 0xbf73c737 ∷ 0xea53f7cd ∷ 0x5b5ffdaa
    ∷ 0x14df3d6f ∷ 0x867844db ∷ 0x81caaff3 ∷ 0x3eb968c4 ∷ 0x2c382434 ∷ 0x5fc2a340 ∷ 0x72161dc3
    ∷ 0x0cbce225 ∷ 0x8b283c49 ∷ 0x41ff0d95 ∷ 0x7139a801 ∷ 0xde080cb3 ∷ 0x9cd8b4e4 ∷ 0x906456c1
    ∷ 0x617bcb84 ∷ 0x70d532b6 ∷ 0x74486c5c ∷ 0x42d0b857 ∷ []
