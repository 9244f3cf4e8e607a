-- ===== src/Aes/Tables/Te3.antt =====
-- togpu/driver/xt_TOGPU_kernel.cu, the table `Te3`.
use porteus_gpu.Base.{ℕ, List, [], ◌∷◌}

unfoldable pub te3 : List ℕ
te3 =
    0x6363a5c6 ∷ 0x7c7c84f8 ∷ 0x777799ee ∷ 0x7b7b8df6 ∷ 0xf2f20dff ∷ 0x6b6bbdd6 ∷ 0x6f6fb1de
    ∷ 0xc5c55491 ∷ 0x30305060 ∷ 0x01010302 ∷ 0x6767a9ce ∷ 0x2b2b7d56 ∷ 0xfefe19e7 ∷ 0xd7d762b5
    ∷ 0xababe64d ∷ 0x76769aec ∷ 0xcaca458f ∷ 0x82829d1f ∷ 0xc9c94089 ∷ 0x7d7d87fa ∷ 0xfafa15ef
    ∷ 0x5959ebb2 ∷ 0x4747c98e ∷ 0xf0f00bfb ∷ 0xadadec41 ∷ 0xd4d467b3 ∷ 0xa2a2fd5f ∷ 0xafafea45
    ∷ 0x9c9cbf23 ∷ 0xa4a4f753 ∷ 0x727296e4 ∷ 0xc0c05b9b ∷ 0xb7b7c275 ∷ 0xfdfd1ce1 ∷ 0x9393ae3d
    ∷ 0x26266a4c ∷ 0x36365a6c ∷ 0x3f3f417e ∷ 0xf7f702f5 ∷ 0xcccc4f83 ∷ 0x34345c68 ∷ 0xa5a5f451
    ∷ 0xe5e534d1 ∷ 0xf1f108f9 ∷ 0x717193e2 ∷ 0xd8d873ab ∷ 0x31315362 ∷ 0x15153f2a ∷ 0x04040c08
    ∷ 0xc7c75295 ∷ 0x23236546 ∷ 0xc3c35e9d ∷ 0x18182830 ∷ 0x9696a137 ∷ 0x05050f0a ∷ 0x9a9ab52f
    ∷ 0x0707090e ∷ 0x12123624 ∷ 0x80809b1b ∷ 0xe2e23ddf ∷ 0xebeb26cd ∷ 0x2727694e ∷ 0xb2b2cd7f
    ∷ 0x75759fea ∷ 0x09091b12 ∷ 0x83839e1d ∷ 0x2c2c7458 ∷ 0x1a1a2e34 ∷ 0x1b1b2d36 ∷ 0x6e6eb2dc
    ∷ 0x5a5aeeb4 ∷ 0xa0a0fb5b ∷ 0x5252f6a4 ∷ 0x3b3b4d76 ∷ 0xd6d661b7 ∷ 0xb3b3ce7d ∷ 0x29297b52
    ∷ 0xe3e33edd ∷ 0x2f2f715e ∷ 0x84849713 ∷ 0x5353f5a6 ∷ 0xd1d168b9 ∷ 0x00000000 ∷ 0xeded2cc1
    ∷ 0x20206040 ∷ 0xfcfc1fe3 ∷ 0xb1b1c879 ∷ 0x5b5bedb6 ∷ 0x6a6abed4 ∷ 0xcbcb468d ∷ 0xbebed967
    ∷ 0x39394b72 ∷ 0x4a4ade94 ∷ 0x4c4cd498 ∷ 0x5858e8b0 ∷ 0xcfcf4a85 ∷ 0xd0d06bbb ∷ 0xefef2ac5
    ∷ 0xaaaae54f ∷ 0xfbfb16ed ∷ 0x4343c586 ∷ 0x4d4dd79a ∷ 0x33335566 ∷ 0x85859411 ∷ 0x4545cf8a
    ∷ 0xf9f910e9 ∷ 0x02020604 ∷ 0x7f7f81fe ∷ 0x5050f0a0 ∷ 0x3c3c4478 ∷ 0x9f9fba25 ∷ 0xa8a8e34b
    ∷ 0x5151f3a2 ∷ 0xa3a3fe5d ∷ 0x4040c080 ∷ 0x8f8f8a05 ∷ 0x9292ad3f ∷ 0x9d9dbc21 ∷ 0x38384870
    ∷ 0xf5f504f1 ∷ 0xbcbcdf63 ∷ 0xb6b6c177 ∷ 0xdada75af ∷ 0x21216342 ∷ 0x10103020 ∷ 0xffff1ae5
    ∷ 0xf3f30efd ∷ 0xd2d26dbf ∷ 0xcdcd4c81 ∷ 0x0c0c1418 ∷ 0x13133526 ∷ 0xecec2fc3 ∷ 0x5f5fe1be
    ∷ 0x9797a235 ∷ 0x4444cc88 ∷ 0x1717392e ∷ 0xc4c45793 ∷ 0xa7a7f255 ∷ 0x7e7e82fc ∷ 0x3d3d477a
    ∷ 0x6464acc8 ∷ 0x5d5de7ba ∷ 0x19192b32 ∷ 0x737395e6 ∷ 0x6060a0c0 ∷ 0x81819819 ∷ 0x4f4fd19e
    ∷ 0xdcdc7fa3 ∷ 0x22226644 ∷ 0x2a2a7e54 ∷ 0x9090ab3b ∷ 0x8888830b ∷ 0x4646ca8c ∷ 0xeeee29c7
    ∷ 0xb8b8d36b ∷ 0x14143c28 ∷ 0xdede79a7 ∷ 0x5e5ee2bc ∷ 0x0b0b1d16 ∷ 0xdbdb76ad ∷ 0xe0e03bdb
    ∷ 0x32325664 ∷ 0x3a3a4e74 ∷ 0x0a0a1e14 ∷ 0x4949db92 ∷ 0x06060a0c ∷ 0x24246c48 ∷ 0x5c5ce4b8
    ∷ 0xc2c25d9f ∷ 0xd3d36ebd ∷ 0xacacef43 ∷ 0x6262a6c4 ∷ 0x9191a839 ∷ 0x9595a431 ∷ 0xe4e437d3
    ∷ 0x79798bf2 ∷ 0xe7e732d5 ∷ 0xc8c8438b ∷ 0x3737596e ∷ 0x6d6db7da ∷ 0x8d8d8c01 ∷ 0xd5d564b1
    ∷ 0x4e4ed29c ∷ 0xa9a9e049 ∷ 0x6c6cb4d8 ∷ 0x5656faac ∷ 0xf4f407f3 ∷ 0xeaea25cf ∷ 0x6565afca
    ∷ 0x7a7a8ef4 ∷ 0xaeaee947 ∷ 0x08081810 ∷ 0xbabad56f ∷ 0x787888f0 ∷ 0x25256f4a ∷ 0x2e2e725c
    ∷ 0x1c1c2438 ∷ 0xa6a6f157 ∷ 0xb4b4c773 ∷ 0xc6c65197 ∷ 0xe8e823cb ∷ 0xdddd7ca1 ∷ 0x74749ce8
    ∷ 0x1f1f213e ∷ 0x4b4bdd96 ∷ 0xbdbddc61 ∷ 0x8b8b860d ∷ 0x8a8a850f ∷ 0x707090e0 ∷ 0x3e3e427c
    ∷ 0xb5b5c471 ∷ 0x6666aacc ∷ 0x4848d890 ∷ 0x03030506 ∷ 0xf6f601f7 ∷ 0x0e0e121c ∷ 0x6161a3c2
    ∷ 0x35355f6a ∷ 0x5757f9ae ∷ 0xb9b9d069 ∷ 0x86869117 ∷ 0xc1c15899 ∷ 0x1d1d273a ∷ 0x9e9eb927
    ∷ 0xe1e138d9 ∷ 0xf8f813eb ∷ 0x9898b32b ∷ 0x11113322 ∷ 0x6969bbd2 ∷ 0xd9d970a9 ∷ 0x8e8e8907
    ∷ 0x9494a733 ∷ 0x9b9bb62d ∷ 0x1e1e223c ∷ 0x87879215 ∷ 0xe9e920c9 ∷ 0xcece4987 ∷ 0x5555ffaa
    ∷ 0x28287850 ∷ 0xdfdf7aa5 ∷ 0x8c8c8f03 ∷ 0xa1a1f859 ∷ 0x89898009 ∷ 0x0d0d171a ∷ 0xbfbfda65
    ∷ 0xe6e631d7 ∷ 0x4242c684 ∷ 0x6868b8d0 ∷ 0x4141c382 ∷ 0x9999b029 ∷ 0x2d2d775a ∷ 0x0f0f111e
    ∷ 0xb0b0cb7b ∷ 0x5454fca8 ∷ 0xbbbbd66d ∷ 0x16163a2c ∷ []
