-- ===== src/Aes/Tables/Te2.antt =====
-- togpu/driver/xt_TOGPU_kernel.cu, the table `Te2`.
use porteus_gpu.Base.{ℕ, List, [], ◌∷◌}

unfoldable pub te2 : List ℕ
te2 =
    0x63a5c663 ∷ 0x7c84f87c ∷ 0x7799ee77 ∷ 0x7b8df67b ∷ 0xf20dfff2 ∷ 0x6bbdd66b ∷ 0x6fb1de6f
    ∷ 0xc55491c5 ∷ 0x30506030 ∷ 0x01030201 ∷ 0x67a9ce67 ∷ 0x2b7d562b ∷ 0xfe19e7fe ∷ 0xd762b5d7
    ∷ 0xabe64dab ∷ 0x769aec76 ∷ 0xca458fca ∷ 0x829d1f82 ∷ 0xc94089c9 ∷ 0x7d87fa7d ∷ 0xfa15effa
    ∷ 0x59ebb259 ∷ 0x47c98e47 ∷ 0xf00bfbf0 ∷ 0xadec41ad ∷ 0xd467b3d4 ∷ 0xa2fd5fa2 ∷ 0xafea45af
    ∷ 0x9cbf239c ∷ 0xa4f753a4 ∷ 0x7296e472 ∷ 0xc05b9bc0 ∷ 0xb7c275b7 ∷ 0xfd1ce1fd ∷ 0x93ae3d93
    ∷ 0x266a4c26 ∷ 0x365a6c36 ∷ 0x3f417e3f ∷ 0xf702f5f7 ∷ 0xcc4f83cc ∷ 0x345c6834 ∷ 0xa5f451a5
    ∷ 0xe534d1e5 ∷ 0xf108f9f1 ∷ 0x7193e271 ∷ 0xd873abd8 ∷ 0x31536231 ∷ 0x153f2a15 ∷ 0x040c0804
    ∷ 0xc75295c7 ∷ 0x23654623 ∷ 0xc35e9dc3 ∷ 0x18283018 ∷ 0x96a13796 ∷ 0x050f0a05 ∷ 0x9ab52f9a
    ∷ 0x07090e07 ∷ 0x12362412 ∷ 0x809b1b80 ∷ 0xe23ddfe2 ∷ 0xeb26cdeb ∷ 0x27694e27 ∷ 0xb2cd7fb2
    ∷ 0x759fea75 ∷ 0x091b1209 ∷ 0x839e1d83 ∷ 0x2c74582c ∷ 0x1a2e341a ∷ 0x1b2d361b ∷ 0x6eb2dc6e
    ∷ 0x5aeeb45a ∷ 0xa0fb5ba0 ∷ 0x52f6a452 ∷ 0x3b4d763b ∷ 0xd661b7d6 ∷ 0xb3ce7db3 ∷ 0x297b5229
    ∷ 0xe33edde3 ∷ 0x2f715e2f ∷ 0x84971384 ∷ 0x53f5a653 ∷ 0xd168b9d1 ∷ 0x00000000 ∷ 0xed2cc1ed
    ∷ 0x20604020 ∷ 0xfc1fe3fc ∷ 0xb1c879b1 ∷ 0x5bedb65b ∷ 0x6abed46a ∷ 0xcb468dcb ∷ 0xbed967be
    ∷ 0x394b7239 ∷ 0x4ade944a ∷ 0x4cd4984c ∷ 0x58e8b058 ∷ 0xcf4a85cf ∷ 0xd06bbbd0 ∷ 0xef2ac5ef
    ∷ 0xaae54faa ∷ 0xfb16edfb ∷ 0x43c58643 ∷ 0x4dd79a4d ∷ 0x33556633 ∷ 0x85941185 ∷ 0x45cf8a45
    ∷ 0xf910e9f9 ∷ 0x02060402 ∷ 0x7f81fe7f ∷ 0x50f0a050 ∷ 0x3c44783c ∷ 0x9fba259f ∷ 0xa8e34ba8
    ∷ 0x51f3a251 ∷ 0xa3fe5da3 ∷ 0x40c08040 ∷ 0x8f8a058f ∷ 0x92ad3f92 ∷ 0x9dbc219d ∷ 0x38487038
    ∷ 0xf504f1f5 ∷ 0xbcdf63bc ∷ 0xb6c177b6 ∷ 0xda75afda ∷ 0x21634221 ∷ 0x10302010 ∷ 0xff1ae5ff
    ∷ 0xf30efdf3 ∷ 0xd26dbfd2 ∷ 0xcd4c81cd ∷ 0x0c14180c ∷ 0x13352613 ∷ 0xec2fc3ec ∷ 0x5fe1be5f
    ∷ 0x97a23597 ∷ 0x44cc8844 ∷ 0x17392e17 ∷ 0xc45793c4 ∷ 0xa7f255a7 ∷ 0x7e82fc7e ∷ 0x3d477a3d
    ∷ 0x64acc864 ∷ 0x5de7ba5d ∷ 0x192b3219 ∷ 0x7395e673 ∷ 0x60a0c060 ∷ 0x81981981 ∷ 0x4fd19e4f
    ∷ 0xdc7fa3dc ∷ 0x22664422 ∷ 0x2a7e542a ∷ 0x90ab3b90 ∷ 0x88830b88 ∷ 0x46ca8c46 ∷ 0xee29c7ee
    ∷ 0xb8d36bb8 ∷ 0x143c2814 ∷ 0xde79a7de ∷ 0x5ee2bc5e ∷ 0x0b1d160b ∷ 0xdb76addb ∷ 0xe03bdbe0
    ∷ 0x32566432 ∷ 0x3a4e743a ∷ 0x0a1e140a ∷ 0x49db9249 ∷ 0x060a0c06 ∷ 0x246c4824 ∷ 0x5ce4b85c
    ∷ 0xc25d9fc2 ∷ 0xd36ebdd3 ∷ 0xacef43ac ∷ 0x62a6c462 ∷ 0x91a83991 ∷ 0x95a43195 ∷ 0xe437d3e4
    ∷ 0x798bf279 ∷ 0xe732d5e7 ∷ 0xc8438bc8 ∷ 0x37596e37 ∷ 0x6db7da6d ∷ 0x8d8c018d ∷ 0xd564b1d5
    ∷ 0x4ed29c4e ∷ 0xa9e049a9 ∷ 0x6cb4d86c ∷ 0x56faac56 ∷ 0xf407f3f4 ∷ 0xea25cfea ∷ 0x65afca65
    ∷ 0x7a8ef47a ∷ 0xaee947ae ∷ 0x08181008 ∷ 0xbad56fba ∷ 0x7888f078 ∷ 0x256f4a25 ∷ 0x2e725c2e
    ∷ 0x1c24381c ∷ 0xa6f157a6 ∷ 0xb4c773b4 ∷ 0xc65197c6 ∷ 0xe823cbe8 ∷ 0xdd7ca1dd ∷ 0x749ce874
    ∷ 0x1f213e1f ∷ 0x4bdd964b ∷ 0xbddc61bd ∷ 0x8b860d8b ∷ 0x8a850f8a ∷ 0x7090e070 ∷ 0x3e427c3e
    ∷ 0xb5c471b5 ∷ 0x66aacc66 ∷ 0x48d89048 ∷ 0x03050603 ∷ 0xf601f7f6 ∷ 0x0e121c0e ∷ 0x61a3c261
    ∷ 0x355f6a35 ∷ 0x57f9ae57 ∷ 0xb9d069b9 ∷ 0x86911786 ∷ 0xc15899c1 ∷ 0x1d273a1d ∷ 0x9eb9279e
    ∷ 0xe138d9e1 ∷ 0xf813ebf8 ∷ 0x98b32b98 ∷ 0x11332211 ∷ 0x69bbd269 ∷ 0xd970a9d9 ∷ 0x8e89078e
    ∷ 0x94a73394 ∷ 0x9bb62d9b ∷ 0x1e223c1e ∷ 0x87921587 ∷ 0xe920c9e9 ∷ 0xce4987ce ∷ 0x55ffaa55
    ∷ 0x28785028 ∷ 0xdf7aa5df ∷ 0x8c8f038c ∷ 0xa1f859a1 ∷ 0x89800989 ∷ 0x0d171a0d ∷ 0xbfda65bf
    ∷ 0xe631d7e6 ∷ 0x42c68442 ∷ 0x68b8d068 ∷ 0x41c38241 ∷ 0x99b02999 ∷ 0x2d775a2d ∷ 0x0f111e0f
    ∷ 0xb0cb7bb0 ∷ 0x54fca854 ∷ 0xbbd66dbb ∷ 0x163a2c16 ∷ []
