-- ===== src/Aes/Tables/Te1.antt =====
-- togpu/driver/xt_TOGPU_kernel.cu, the table `Te1`.
use porteus_gpu.Base.{ℕ, List, [], ◌∷◌}

unfoldable pub te1 : List ℕ
te1 =
    0xa5c66363 ∷ 0x84f87c7c ∷ 0x99ee7777 ∷ 0x8df67b7b ∷ 0x0dfff2f2 ∷ 0xbdd66b6b ∷ 0xb1de6f6f
    ∷ 0x5491c5c5 ∷ 0x50603030 ∷ 0x03020101 ∷ 0xa9ce6767 ∷ 0x7d562b2b ∷ 0x19e7fefe ∷ 0x62b5d7d7
    ∷ 0xe64dabab ∷ 0x9aec7676 ∷ 0x458fcaca ∷ 0x9d1f8282 ∷ 0x4089c9c9 ∷ 0x87fa7d7d ∷ 0x15effafa
    ∷ 0xebb25959 ∷ 0xc98e4747 ∷ 0x0bfbf0f0 ∷ 0xec41adad ∷ 0x67b3d4d4 ∷ 0xfd5fa2a2 ∷ 0xea45afaf
    ∷ 0xbf239c9c ∷ 0xf753a4a4 ∷ 0x96e47272 ∷ 0x5b9bc0c0 ∷ 0xc275b7b7 ∷ 0x1ce1fdfd ∷ 0xae3d9393
    ∷ 0x6a4c2626 ∷ 0x5a6c3636 ∷ 0x417e3f3f ∷ 0x02f5f7f7 ∷ 0x4f83cccc ∷ 0x5c683434 ∷ 0xf451a5a5
    ∷ 0x34d1e5e5 ∷ 0x08f9f1f1 ∷ 0x93e27171 ∷ 0x73abd8d8 ∷ 0x53623131 ∷ 0x3f2a1515 ∷ 0x0c080404
    ∷ 0x5295c7c7 ∷ 0x65462323 ∷ 0x5e9dc3c3 ∷ 0x28301818 ∷ 0xa1379696 ∷ 0x0f0a0505 ∷ 0xb52f9a9a
    ∷ 0x090e0707 ∷ 0x36241212 ∷ 0x9b1b8080 ∷ 0x3ddfe2e2 ∷ 0x26cdebeb ∷ 0x694e2727 ∷ 0xcd7fb2b2
    ∷ 0x9fea7575 ∷ 0x1b120909 ∷ 0x9e1d8383 ∷ 0x74582c2c ∷ 0x2e341a1a ∷ 0x2d361b1b ∷ 0xb2dc6e6e
    ∷ 0xeeb45a5a ∷ 0xfb5ba0a0 ∷ 0xf6a45252 ∷ 0x4d763b3b ∷ 0x61b7d6d6 ∷ 0xce7db3b3 ∷ 0x7b522929
    ∷ 0x3edde3e3 ∷ 0x715e2f2f ∷ 0x97138484 ∷ 0xf5a65353 ∷ 0x68b9d1d1 ∷ 0x00000000 ∷ 0x2cc1eded
    ∷ 0x60402020 ∷ 0x1fe3fcfc ∷ 0xc879b1b1 ∷ 0xedb65b5b ∷ 0xbed46a6a ∷ 0x468dcbcb ∷ 0xd967bebe
    ∷ 0x4b723939 ∷ 0xde944a4a ∷ 0xd4984c4c ∷ 0xe8b05858 ∷ 0x4a85cfcf ∷ 0x6bbbd0d0 ∷ 0x2ac5efef
    ∷ 0xe54faaaa ∷ 0x16edfbfb ∷ 0xc5864343 ∷ 0xd79a4d4d ∷ 0x55663333 ∷ 0x94118585 ∷ 0xcf8a4545
    ∷ 0x10e9f9f9 ∷ 0x06040202 ∷ 0x81fe7f7f ∷ 0xf0a05050 ∷ 0x44783c3c ∷ 0xba259f9f ∷ 0xe34ba8a8
    ∷ 0xf3a25151 ∷ 0xfe5da3a3 ∷ 0xc0804040 ∷ 0x8a058f8f ∷ 0xad3f9292 ∷ 0xbc219d9d ∷ 0x48703838
    ∷ 0x04f1f5f5 ∷ 0xdf63bcbc ∷ 0xc177b6b6 ∷ 0x75afdada ∷ 0x63422121 ∷ 0x30201010 ∷ 0x1ae5ffff
    ∷ 0x0efdf3f3 ∷ 0x6dbfd2d2 ∷ 0x4c81cdcd ∷ 0x14180c0c ∷ 0x35261313 ∷ 0x2fc3ecec ∷ 0xe1be5f5f
    ∷ 0xa2359797 ∷ 0xcc884444 ∷ 0x392e1717 ∷ 0x5793c4c4 ∷ 0xf255a7a7 ∷ 0x82fc7e7e ∷ 0x477a3d3d
    ∷ 0xacc86464 ∷ 0xe7ba5d5d ∷ 0x2b321919 ∷ 0x95e67373 ∷ 0xa0c06060 ∷ 0x98198181 ∷ 0xd19e4f4f
    ∷ 0x7fa3dcdc ∷ 0x66442222 ∷ 0x7e542a2a ∷ 0xab3b9090 ∷ 0x830b8888 ∷ 0xca8c4646 ∷ 0x29c7eeee
    ∷ 0xd36bb8b8 ∷ 0x3c281414 ∷ 0x79a7dede ∷ 0xe2bc5e5e ∷ 0x1d160b0b ∷ 0x76addbdb ∷ 0x3bdbe0e0
    ∷ 0x56643232 ∷ 0x4e743a3a ∷ 0x1e140a0a ∷ 0xdb924949 ∷ 0x0a0c0606 ∷ 0x6c482424 ∷ 0xe4b85c5c
    ∷ 0x5d9fc2c2 ∷ 0x6ebdd3d3 ∷ 0xef43acac ∷ 0xa6c46262 ∷ 0xa8399191 ∷ 0xa4319595 ∷ 0x37d3e4e4
    ∷ 0x8bf27979 ∷ 0x32d5e7e7 ∷ 0x438bc8c8 ∷ 0x596e3737 ∷ 0xb7da6d6d ∷ 0x8c018d8d ∷ 0x64b1d5d5
    ∷ 0xd29c4e4e ∷ 0xe049a9a9 ∷ 0xb4d86c6c ∷ 0xfaac5656 ∷ 0x07f3f4f4 ∷ 0x25cfeaea ∷ 0xafca6565
    ∷ 0x8ef47a7a ∷ 0xe947aeae ∷ 0x18100808 ∷ 0xd56fbaba ∷ 0x88f07878 ∷ 0x6f4a2525 ∷ 0x725c2e2e
    ∷ 0x24381c1c ∷ 0xf157a6a6 ∷ 0xc773b4b4 ∷ 0x5197c6c6 ∷ 0x23cbe8e8 ∷ 0x7ca1dddd ∷ 0x9ce87474
    ∷ 0x213e1f1f ∷ 0xdd964b4b ∷ 0xdc61bdbd ∷ 0x860d8b8b ∷ 0x850f8a8a ∷ 0x90e07070 ∷ 0x427c3e3e
    ∷ 0xc471b5b5 ∷ 0xaacc6666 ∷ 0xd8904848 ∷ 0x05060303 ∷ 0x01f7f6f6 ∷ 0x121c0e0e ∷ 0xa3c26161
    ∷ 0x5f6a3535 ∷ 0xf9ae5757 ∷ 0xd069b9b9 ∷ 0x91178686 ∷ 0x5899c1c1 ∷ 0x273a1d1d ∷ 0xb9279e9e
    ∷ 0x38d9e1e1 ∷ 0x13ebf8f8 ∷ 0xb32b9898 ∷ 0x33221111 ∷ 0xbbd26969 ∷ 0x70a9d9d9 ∷ 0x89078e8e
    ∷ 0xa7339494 ∷ 0xb62d9b9b ∷ 0x223c1e1e ∷ 0x92158787 ∷ 0x20c9e9e9 ∷ 0x4987cece ∷ 0xffaa5555
    ∷ 0x78502828 ∷ 0x7aa5dfdf ∷ 0x8f038c8c ∷ 0xf859a1a1 ∷ 0x80098989 ∷ 0x171a0d0d ∷ 0xda65bfbf
    ∷ 0x31d7e6e6 ∷ 0xc6844242 ∷ 0xb8d06868 ∷ 0xc3824141 ∷ 0xb0299999 ∷ 0x775a2d2d ∷ 0x111e0f0f
    ∷ 0xcb7bb0b0 ∷ 0xfca85454 ∷ 0xd66dbbbb ∷ 0x3a2c1616 ∷ []
