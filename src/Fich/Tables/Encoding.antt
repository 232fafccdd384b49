-- ===== src/Fich/Tables/Encoding.antt =====
-- ysf_fich.c: the codewords of the Golay code, by their data.
use adn_bridge.Prelude.{ℕ, List, [], ◌∷◌}

-- ENCODING_TABLE_24128
unfoldable pub encoding_table_24128 : List ℕ
encoding_table_24128 =
    0x000000 ∷ 0x0018eb ∷ 0x00293e ∷ 0x0031d5 ∷ 0x004a97 ∷ 0x00527c ∷ 0x0063a9 ∷ 0x007b42 ∷ 0x008dc6
    ∷ 0x00952d ∷ 0x00a4f8 ∷ 0x00bc13 ∷ 0x00c751 ∷ 0x00dfba ∷ 0x00ee6f ∷ 0x00f684 ∷ 0x010367
    ∷ 0x011b8c ∷ 0x012a59 ∷ 0x0132b2 ∷ 0x0149f0 ∷ 0x01511b ∷ 0x0160ce ∷ 0x017825 ∷ 0x018ea1
    ∷ 0x01964a ∷ 0x01a79f ∷ 0x01bf74 ∷ 0x01c436 ∷ 0x01dcdd ∷ 0x01ed08 ∷ 0x01f5e3 ∷ 0x0206cd
    ∷ 0x021e26 ∷ 0x022ff3 ∷ 0x023718 ∷ 0x024c5a ∷ 0x0254b1 ∷ 0x026564 ∷ 0x027d8f ∷ 0x028b0b
    ∷ 0x0293e0 ∷ 0x02a235 ∷ 0x02bade ∷ 0x02c19c ∷ 0x02d977 ∷ 0x02e8a2 ∷ 0x02f049 ∷ 0x0305aa
    ∷ 0x031d41 ∷ 0x032c94 ∷ 0x03347f ∷ 0x034f3d ∷ 0x0357d6 ∷ 0x036603 ∷ 0x037ee8 ∷ 0x03886c
    ∷ 0x039087 ∷ 0x03a152 ∷ 0x03b9b9 ∷ 0x03c2fb ∷ 0x03da10 ∷ 0x03ebc5 ∷ 0x03f32e ∷ 0x040d99
    ∷ 0x041572 ∷ 0x0424a7 ∷ 0x043c4c ∷ 0x04470e ∷ 0x045fe5 ∷ 0x046e30 ∷ 0x0476db ∷ 0x04805f
    ∷ 0x0498b4 ∷ 0x04a961 ∷ 0x04b18a ∷ 0x04cac8 ∷ 0x04d223 ∷ 0x04e3f6 ∷ 0x04fb1d ∷ 0x050efe
    ∷ 0x051615 ∷ 0x0527c0 ∷ 0x053f2b ∷ 0x054469 ∷ 0x055c82 ∷ 0x056d57 ∷ 0x0575bc ∷ 0x058338
    ∷ 0x059bd3 ∷ 0x05aa06 ∷ 0x05b2ed ∷ 0x05c9af ∷ 0x05d144 ∷ 0x05e091 ∷ 0x05f87a ∷ 0x060b54
    ∷ 0x0613bf ∷ 0x06226a ∷ 0x063a81 ∷ 0x0641c3 ∷ 0x065928 ∷ 0x0668fd ∷ 0x067016 ∷ 0x068692
    ∷ 0x069e79 ∷ 0x06afac ∷ 0x06b747 ∷ 0x06cc05 ∷ 0x06d4ee ∷ 0x06e53b ∷ 0x06fdd0 ∷ 0x070833
    ∷ 0x0710d8 ∷ 0x07210d ∷ 0x0739e6 ∷ 0x0742a4 ∷ 0x075a4f ∷ 0x076b9a ∷ 0x077371 ∷ 0x0785f5
    ∷ 0x079d1e ∷ 0x07accb ∷ 0x07b420 ∷ 0x07cf62 ∷ 0x07d789 ∷ 0x07e65c ∷ 0x07feb7 ∷ 0x0803da
    ∷ 0x081b31 ∷ 0x082ae4 ∷ 0x08320f ∷ 0x08494d ∷ 0x0851a6 ∷ 0x086073 ∷ 0x087898 ∷ 0x088e1c
    ∷ 0x0896f7 ∷ 0x08a722 ∷ 0x08bfc9 ∷ 0x08c48b ∷ 0x08dc60 ∷ 0x08edb5 ∷ 0x08f55e ∷ 0x0900bd
    ∷ 0x091856 ∷ 0x092983 ∷ 0x093168 ∷ 0x094a2a ∷ 0x0952c1 ∷ 0x096314 ∷ 0x097bff ∷ 0x098d7b
    ∷ 0x099590 ∷ 0x09a445 ∷ 0x09bcae ∷ 0x09c7ec ∷ 0x09df07 ∷ 0x09eed2 ∷ 0x09f639 ∷ 0x0a0517
    ∷ 0x0a1dfc ∷ 0x0a2c29 ∷ 0x0a34c2 ∷ 0x0a4f80 ∷ 0x0a576b ∷ 0x0a66be ∷ 0x0a7e55 ∷ 0x0a88d1
    ∷ 0x0a903a ∷ 0x0aa1ef ∷ 0x0ab904 ∷ 0x0ac246 ∷ 0x0adaad ∷ 0x0aeb78 ∷ 0x0af393 ∷ 0x0b0670
    ∷ 0x0b1e9b ∷ 0x0b2f4e ∷ 0x0b37a5 ∷ 0x0b4ce7 ∷ 0x0b540c ∷ 0x0b65d9 ∷ 0x0b7d32 ∷ 0x0b8bb6
    ∷ 0x0b935d ∷ 0x0ba288 ∷ 0x0bba63 ∷ 0x0bc121 ∷ 0x0bd9ca ∷ 0x0be81f ∷ 0x0bf0f4 ∷ 0x0c0e43
    ∷ 0x0c16a8 ∷ 0x0c277d ∷ 0x0c3f96 ∷ 0x0c44d4 ∷ 0x0c5c3f ∷ 0x0c6dea ∷ 0x0c7501 ∷ 0x0c8385
    ∷ 0x0c9b6e ∷ 0x0caabb ∷ 0x0cb250 ∷ 0x0cc912 ∷ 0x0cd1f9 ∷ 0x0ce02c ∷ 0x0cf8c7 ∷ 0x0d0d24
    ∷ 0x0d15cf ∷ 0x0d241a ∷ 0x0d3cf1 ∷ 0x0d47b3 ∷ 0x0d5f58 ∷ 0x0d6e8d ∷ 0x0d7666 ∷ 0x0d80e2
    ∷ 0x0d9809 ∷ 0x0da9dc ∷ 0x0db137 ∷ 0x0dca75 ∷ 0x0dd29e ∷ 0x0de34b ∷ 0x0dfba0 ∷ 0x0e088e
    ∷ 0x0e1065 ∷ 0x0e21b0 ∷ 0x0e395b ∷ 0x0e4219 ∷ 0x0e5af2 ∷ 0x0e6b27 ∷ 0x0e73cc ∷ 0x0e8548
    ∷ 0x0e9da3 ∷ 0x0eac76 ∷ 0x0eb49d ∷ 0x0ecfdf ∷ 0x0ed734 ∷ 0x0ee6e1 ∷ 0x0efe0a ∷ 0x0f0be9
    ∷ 0x0f1302 ∷ 0x0f22d7 ∷ 0x0f3a3c ∷ 0x0f417e ∷ 0x0f5995 ∷ 0x0f6840 ∷ 0x0f70ab ∷ 0x0f862f
    ∷ 0x0f9ec4 ∷ 0x0faf11 ∷ 0x0fb7fa ∷ 0x0fccb8 ∷ 0x0fd453 ∷ 0x0fe586 ∷ 0x0ffd6d ∷ 0x1007b4
    ∷ 0x101f5f ∷ 0x102e8a ∷ 0x103661 ∷ 0x104d23 ∷ 0x1055c8 ∷ 0x10641d ∷ 0x107cf6 ∷ 0x108a72
    ∷ 0x109299 ∷ 0x10a34c ∷ 0x10bba7 ∷ 0x10c0e5 ∷ 0x10d80e ∷ 0x10e9db ∷ 0x10f130 ∷ 0x1104d3
    ∷ 0x111c38 ∷ 0x112ded ∷ 0x113506 ∷ 0x114e44 ∷ 0x1156af ∷ 0x11677a ∷ 0x117f91 ∷ 0x118915
    ∷ 0x1191fe ∷ 0x11a02b ∷ 0x11b8c0 ∷ 0x11c382 ∷ 0x11db69 ∷ 0x11eabc ∷ 0x11f257 ∷ 0x120179
    ∷ 0x121992 ∷ 0x122847 ∷ 0x1230ac ∷ 0x124bee ∷ 0x125305 ∷ 0x1262d0 ∷ 0x127a3b ∷ 0x128cbf
    ∷ 0x129454 ∷ 0x12a581 ∷ 0x12bd6a ∷ 0x12c628 ∷ 0x12dec3 ∷ 0x12ef16 ∷ 0x12f7fd ∷ 0x13021e
    ∷ 0x131af5 ∷ 0x132b20 ∷ 0x1333cb ∷ 0x134889 ∷ 0x135062 ∷ 0x1361b7 ∷ 0x13795c ∷ 0x138fd8
    ∷ 0x139733 ∷ 0x13a6e6 ∷ 0x13be0d ∷ 0x13c54f ∷ 0x13dda4 ∷ 0x13ec71 ∷ 0x13f49a ∷ 0x140a2d
    ∷ 0x1412c6 ∷ 0x142313 ∷ 0x143bf8 ∷ 0x1440ba ∷ 0x145851 ∷ 0x146984 ∷ 0x14716f ∷ 0x1487eb
    ∷ 0x149f00 ∷ 0x14aed5 ∷ 0x14b63e ∷ 0x14cd7c ∷ 0x14d597 ∷ 0x14e442 ∷ 0x14fca9 ∷ 0x15094a
    ∷ 0x1511a1 ∷ 0x152074 ∷ 0x15389f ∷ 0x1543dd ∷ 0x155b36 ∷ 0x156ae3 ∷ 0x157208 ∷ 0x15848c
    ∷ 0x159c67 ∷ 0x15adb2 ∷ 0x15b559 ∷ 0x15ce1b ∷ 0x15d6f0 ∷ 0x15e725 ∷ 0x15ffce ∷ 0x160ce0
    ∷ 0x16140b ∷ 0x1625de ∷ 0x163d35 ∷ 0x164677 ∷ 0x165e9c ∷ 0x166f49 ∷ 0x1677a2 ∷ 0x168126
    ∷ 0x1699cd ∷ 0x16a818 ∷ 0x16b0f3 ∷ 0x16cbb1 ∷ 0x16d35a ∷ 0x16e28f ∷ 0x16fa64 ∷ 0x170f87
    ∷ 0x17176c ∷ 0x1726b9 ∷ 0x173e52 ∷ 0x174510 ∷ 0x175dfb ∷ 0x176c2e ∷ 0x1774c5 ∷ 0x178241
    ∷ 0x179aaa ∷ 0x17ab7f ∷ 0x17b394 ∷ 0x17c8d6 ∷ 0x17d03d ∷ 0x17e1e8 ∷ 0x17f903 ∷ 0x18046e
    ∷ 0x181c85 ∷ 0x182d50 ∷ 0x1835bb ∷ 0x184ef9 ∷ 0x185612 ∷ 0x1867c7 ∷ 0x187f2c ∷ 0x1889a8
    ∷ 0x189143 ∷ 0x18a096 ∷ 0x18b87d ∷ 0x18c33f ∷ 0x18dbd4 ∷ 0x18ea01 ∷ 0x18f2ea ∷ 0x190709
    ∷ 0x191fe2 ∷ 0x192e37 ∷ 0x1936dc ∷ 0x194d9e ∷ 0x195575 ∷ 0x1964a0 ∷ 0x197c4b ∷ 0x198acf
    ∷ 0x199224 ∷ 0x19a3f1 ∷ 0x19bb1a ∷ 0x19c058 ∷ 0x19d8b3 ∷ 0x19e966 ∷ 0x19f18d ∷ 0x1a02a3
    ∷ 0x1a1a48 ∷ 0x1a2b9d ∷ 0x1a3376 ∷ 0x1a4834 ∷ 0x1a50df ∷ 0x1a610a ∷ 0x1a79e1 ∷ 0x1a8f65
    ∷ 0x1a978e ∷ 0x1aa65b ∷ 0x1abeb0 ∷ 0x1ac5f2 ∷ 0x1add19 ∷ 0x1aeccc ∷ 0x1af427 ∷ 0x1b01c4
    ∷ 0x1b192f ∷ 0x1b28fa ∷ 0x1b3011 ∷ 0x1b4b53 ∷ 0x1b53b8 ∷ 0x1b626d ∷ 0x1b7a86 ∷ 0x1b8c02
    ∷ 0x1b94e9 ∷ 0x1ba53c ∷ 0x1bbdd7 ∷ 0x1bc695 ∷ 0x1bde7e ∷ 0x1befab ∷ 0x1bf740 ∷ 0x1c09f7
    ∷ 0x1c111c ∷ 0x1c20c9 ∷ 0x1c3822 ∷ 0x1c4360 ∷ 0x1c5b8b ∷ 0x1c6a5e ∷ 0x1c72b5 ∷ 0x1c8431
    ∷ 0x1c9cda ∷ 0x1cad0f ∷ 0x1cb5e4 ∷ 0x1ccea6 ∷ 0x1cd64d ∷ 0x1ce798 ∷ 0x1cff73 ∷ 0x1d0a90
    ∷ 0x1d127b ∷ 0x1d23ae ∷ 0x1d3b45 ∷ 0x1d4007 ∷ 0x1d58ec ∷ 0x1d6939 ∷ 0x1d71d2 ∷ 0x1d8756
    ∷ 0x1d9fbd ∷ 0x1dae68 ∷ 0x1db683 ∷ 0x1dcdc1 ∷ 0x1dd52a ∷ 0x1de4ff ∷ 0x1dfc14 ∷ 0x1e0f3a
    ∷ 0x1e17d1 ∷ 0x1e2604 ∷ 0x1e3eef ∷ 0x1e45ad ∷ 0x1e5d46 ∷ 0x1e6c93 ∷ 0x1e7478 ∷ 0x1e82fc
    ∷ 0x1e9a17 ∷ 0x1eabc2 ∷ 0x1eb329 ∷ 0x1ec86b ∷ 0x1ed080 ∷ 0x1ee155 ∷ 0x1ef9be ∷ 0x1f0c5d
    ∷ 0x1f14b6 ∷ 0x1f2563 ∷ 0x1f3d88 ∷ 0x1f46ca ∷ 0x1f5e21 ∷ 0x1f6ff4 ∷ 0x1f771f ∷ 0x1f819b
    ∷ 0x1f9970 ∷ 0x1fa8a5 ∷ 0x1fb04e ∷ 0x1fcb0c ∷ 0x1fd3e7 ∷ 0x1fe232 ∷ 0x1ffad9 ∷ 0x200f68
    ∷ 0x201783 ∷ 0x202656 ∷ 0x203ebd ∷ 0x2045ff ∷ 0x205d14 ∷ 0x206cc1 ∷ 0x20742a ∷ 0x2082ae
    ∷ 0x209a45 ∷ 0x20ab90 ∷ 0x20b37b ∷ 0x20c839 ∷ 0x20d0d2 ∷ 0x20e107 ∷ 0x20f9ec ∷ 0x210c0f
    ∷ 0x2114e4 ∷ 0x212531 ∷ 0x213dda ∷ 0x214698 ∷ 0x215e73 ∷ 0x216fa6 ∷ 0x21774d ∷ 0x2181c9
    ∷ 0x219922 ∷ 0x21a8f7 ∷ 0x21b01c ∷ 0x21cb5e ∷ 0x21d3b5 ∷ 0x21e260 ∷ 0x21fa8b ∷ 0x2209a5
    ∷ 0x22114e ∷ 0x22209b ∷ 0x223870 ∷ 0x224332 ∷ 0x225bd9 ∷ 0x226a0c ∷ 0x2272e7 ∷ 0x228463
    ∷ 0x229c88 ∷ 0x22ad5d ∷ 0x22b5b6 ∷ 0x22cef4 ∷ 0x22d61f ∷ 0x22e7ca ∷ 0x22ff21 ∷ 0x230ac2
    ∷ 0x231229 ∷ 0x2323fc ∷ 0x233b17 ∷ 0x234055 ∷ 0x2358be ∷ 0x23696b ∷ 0x237180 ∷ 0x238704
    ∷ 0x239fef ∷ 0x23ae3a ∷ 0x23b6d1 ∷ 0x23cd93 ∷ 0x23d578 ∷ 0x23e4ad ∷ 0x23fc46 ∷ 0x2402f1
    ∷ 0x241a1a ∷ 0x242bcf ∷ 0x243324 ∷ 0x244866 ∷ 0x24508d ∷ 0x246158 ∷ 0x2479b3 ∷ 0x248f37
    ∷ 0x2497dc ∷ 0x24a609 ∷ 0x24bee2 ∷ 0x24c5a0 ∷ 0x24dd4b ∷ 0x24ec9e ∷ 0x24f475 ∷ 0x250196
    ∷ 0x25197d ∷ 0x2528a8 ∷ 0x253043 ∷ 0x254b01 ∷ 0x2553ea ∷ 0x25623f ∷ 0x257ad4 ∷ 0x258c50
    ∷ 0x2594bb ∷ 0x25a56e ∷ 0x25bd85 ∷ 0x25c6c7 ∷ 0x25de2c ∷ 0x25eff9 ∷ 0x25f712 ∷ 0x26043c
    ∷ 0x261cd7 ∷ 0x262d02 ∷ 0x2635e9 ∷ 0x264eab ∷ 0x265640 ∷ 0x266795 ∷ 0x267f7e ∷ 0x2689fa
    ∷ 0x269111 ∷ 0x26a0c4 ∷ 0x26b82f ∷ 0x26c36d ∷ 0x26db86 ∷ 0x26ea53 ∷ 0x26f2b8 ∷ 0x27075b
    ∷ 0x271fb0 ∷ 0x272e65 ∷ 0x27368e ∷ 0x274dcc ∷ 0x275527 ∷ 0x2764f2 ∷ 0x277c19 ∷ 0x278a9d
    ∷ 0x279276 ∷ 0x27a3a3 ∷ 0x27bb48 ∷ 0x27c00a ∷ 0x27d8e1 ∷ 0x27e934 ∷ 0x27f1df ∷ 0x280cb2
    ∷ 0x281459 ∷ 0x28258c ∷ 0x283d67 ∷ 0x284625 ∷ 0x285ece ∷ 0x286f1b ∷ 0x2877f0 ∷ 0x288174
    ∷ 0x28999f ∷ 0x28a84a ∷ 0x28b0a1 ∷ 0x28cbe3 ∷ 0x28d308 ∷ 0x28e2dd ∷ 0x28fa36 ∷ 0x290fd5
    ∷ 0x29173e ∷ 0x2926eb ∷ 0x293e00 ∷ 0x294542 ∷ 0x295da9 ∷ 0x296c7c ∷ 0x297497 ∷ 0x298213
    ∷ 0x299af8 ∷ 0x29ab2d ∷ 0x29b3c6 ∷ 0x29c884 ∷ 0x29d06f ∷ 0x29e1ba ∷ 0x29f951 ∷ 0x2a0a7f
    ∷ 0x2a1294 ∷ 0x2a2341 ∷ 0x2a3baa ∷ 0x2a40e8 ∷ 0x2a5803 ∷ 0x2a69d6 ∷ 0x2a713d ∷ 0x2a87b9
    ∷ 0x2a9f52 ∷ 0x2aae87 ∷ 0x2ab66c ∷ 0x2acd2e ∷ 0x2ad5c5 ∷ 0x2ae410 ∷ 0x2afcfb ∷ 0x2b0918
    ∷ 0x2b11f3 ∷ 0x2b2026 ∷ 0x2b38cd ∷ 0x2b438f ∷ 0x2b5b64 ∷ 0x2b6ab1 ∷ 0x2b725a ∷ 0x2b84de
    ∷ 0x2b9c35 ∷ 0x2bade0 ∷ 0x2bb50b ∷ 0x2bce49 ∷ 0x2bd6a2 ∷ 0x2be777 ∷ 0x2bff9c ∷ 0x2c012b
    ∷ 0x2c19c0 ∷ 0x2c2815 ∷ 0x2c30fe ∷ 0x2c4bbc ∷ 0x2c5357 ∷ 0x2c6282 ∷ 0x2c7a69 ∷ 0x2c8ced
    ∷ 0x2c9406 ∷ 0x2ca5d3 ∷ 0x2cbd38 ∷ 0x2cc67a ∷ 0x2cde91 ∷ 0x2cef44 ∷ 0x2cf7af ∷ 0x2d024c
    ∷ 0x2d1aa7 ∷ 0x2d2b72 ∷ 0x2d3399 ∷ 0x2d48db ∷ 0x2d5030 ∷ 0x2d61e5 ∷ 0x2d790e ∷ 0x2d8f8a
    ∷ 0x2d9761 ∷ 0x2da6b4 ∷ 0x2dbe5f ∷ 0x2dc51d ∷ 0x2dddf6 ∷ 0x2dec23 ∷ 0x2df4c8 ∷ 0x2e07e6
    ∷ 0x2e1f0d ∷ 0x2e2ed8 ∷ 0x2e3633 ∷ 0x2e4d71 ∷ 0x2e559a ∷ 0x2e644f ∷ 0x2e7ca4 ∷ 0x2e8a20
    ∷ 0x2e92cb ∷ 0x2ea31e ∷ 0x2ebbf5 ∷ 0x2ec0b7 ∷ 0x2ed85c ∷ 0x2ee989 ∷ 0x2ef162 ∷ 0x2f0481
    ∷ 0x2f1c6a ∷ 0x2f2dbf ∷ 0x2f3554 ∷ 0x2f4e16 ∷ 0x2f56fd ∷ 0x2f6728 ∷ 0x2f7fc3 ∷ 0x2f8947
    ∷ 0x2f91ac ∷ 0x2fa079 ∷ 0x2fb892 ∷ 0x2fc3d0 ∷ 0x2fdb3b ∷ 0x2feaee ∷ 0x2ff205 ∷ 0x3008dc
    ∷ 0x301037 ∷ 0x3021e2 ∷ 0x303909 ∷ 0x30424b ∷ 0x305aa0 ∷ 0x306b75 ∷ 0x30739e ∷ 0x30851a
    ∷ 0x309df1 ∷ 0x30ac24 ∷ 0x30b4cf ∷ 0x30cf8d ∷ 0x30d766 ∷ 0x30e6b3 ∷ 0x30fe58 ∷ 0x310bbb
    ∷ 0x311350 ∷ 0x312285 ∷ 0x313a6e ∷ 0x31412c ∷ 0x3159c7 ∷ 0x316812 ∷ 0x3170f9 ∷ 0x31867d
    ∷ 0x319e96 ∷ 0x31af43 ∷ 0x31b7a8 ∷ 0x31ccea ∷ 0x31d401 ∷ 0x31e5d4 ∷ 0x31fd3f ∷ 0x320e11
    ∷ 0x3216fa ∷ 0x32272f ∷ 0x323fc4 ∷ 0x324486 ∷ 0x325c6d ∷ 0x326db8 ∷ 0x327553 ∷ 0x3283d7
    ∷ 0x329b3c ∷ 0x32aae9 ∷ 0x32b202 ∷ 0x32c940 ∷ 0x32d1ab ∷ 0x32e07e ∷ 0x32f895 ∷ 0x330d76
    ∷ 0x33159d ∷ 0x332448 ∷ 0x333ca3 ∷ 0x3347e1 ∷ 0x335f0a ∷ 0x336edf ∷ 0x337634 ∷ 0x3380b0
    ∷ 0x33985b ∷ 0x33a98e ∷ 0x33b165 ∷ 0x33ca27 ∷ 0x33d2cc ∷ 0x33e319 ∷ 0x33fbf2 ∷ 0x340545
    ∷ 0x341dae ∷ 0x342c7b ∷ 0x343490 ∷ 0x344fd2 ∷ 0x345739 ∷ 0x3466ec ∷ 0x347e07 ∷ 0x348883
    ∷ 0x349068 ∷ 0x34a1bd ∷ 0x34b956 ∷ 0x34c214 ∷ 0x34daff ∷ 0x34eb2a ∷ 0x34f3c1 ∷ 0x350622
    ∷ 0x351ec9 ∷ 0x352f1c ∷ 0x3537f7 ∷ 0x354cb5 ∷ 0x35545e ∷ 0x35658b ∷ 0x357d60 ∷ 0x358be4
    ∷ 0x35930f ∷ 0x35a2da ∷ 0x35ba31 ∷ 0x35c173 ∷ 0x35d998 ∷ 0x35e84d ∷ 0x35f0a6 ∷ 0x360388
    ∷ 0x361b63 ∷ 0x362ab6 ∷ 0x36325d ∷ 0x36491f ∷ 0x3651f4 ∷ 0x366021 ∷ 0x3678ca ∷ 0x368e4e
    ∷ 0x3696a5 ∷ 0x36a770 ∷ 0x36bf9b ∷ 0x36c4d9 ∷ 0x36dc32 ∷ 0x36ede7 ∷ 0x36f50c ∷ 0x3700ef
    ∷ 0x371804 ∷ 0x3729d1 ∷ 0x37313a ∷ 0x374a78 ∷ 0x375293 ∷ 0x376346 ∷ 0x377bad ∷ 0x378d29
    ∷ 0x3795c2 ∷ 0x37a417 ∷ 0x37bcfc ∷ 0x37c7be ∷ 0x37df55 ∷ 0x37ee80 ∷ 0x37f66b ∷ 0x380b06
    ∷ 0x3813ed ∷ 0x382238 ∷ 0x383ad3 ∷ 0x384191 ∷ 0x38597a ∷ 0x3868af ∷ 0x387044 ∷ 0x3886c0
    ∷ 0x389e2b ∷ 0x38affe ∷ 0x38b715 ∷ 0x38cc57 ∷ 0x38d4bc ∷ 0x38e569 ∷ 0x38fd82 ∷ 0x390861
    ∷ 0x39108a ∷ 0x39215f ∷ 0x3939b4 ∷ 0x3942f6 ∷ 0x395a1d ∷ 0x396bc8 ∷ 0x397323 ∷ 0x3985a7
    ∷ 0x399d4c ∷ 0x39ac99 ∷ 0x39b472 ∷ 0x39cf30 ∷ 0x39d7db ∷ 0x39e60e ∷ 0x39fee5 ∷ 0x3a0dcb
    ∷ 0x3a1520 ∷ 0x3a24f5 ∷ 0x3a3c1e ∷ 0x3a475c ∷ 0x3a5fb7 ∷ 0x3a6e62 ∷ 0x3a7689 ∷ 0x3a800d
    ∷ 0x3a98e6 ∷ 0x3aa933 ∷ 0x3ab1d8 ∷ 0x3aca9a ∷ 0x3ad271 ∷ 0x3ae3a4 ∷ 0x3afb4f ∷ 0x3b0eac
    ∷ 0x3b1647 ∷ 0x3b2792 ∷ 0x3b3f79 ∷ 0x3b443b ∷ 0x3b5cd0 ∷ 0x3b6d05 ∷ 0x3b75ee ∷ 0x3b836a
    ∷ 0x3b9b81 ∷ 0x3baa54 ∷ 0x3bb2bf ∷ 0x3bc9fd ∷ 0x3bd116 ∷ 0x3be0c3 ∷ 0x3bf828 ∷ 0x3c069f
    ∷ 0x3c1e74 ∷ 0x3c2fa1 ∷ 0x3c374a ∷ 0x3c4c08 ∷ 0x3c54e3 ∷ 0x3c6536 ∷ 0x3c7ddd ∷ 0x3c8b59
    ∷ 0x3c93b2 ∷ 0x3ca267 ∷ 0x3cba8c ∷ 0x3cc1ce ∷ 0x3cd925 ∷ 0x3ce8f0 ∷ 0x3cf01b ∷ 0x3d05f8
    ∷ 0x3d1d13 ∷ 0x3d2cc6 ∷ 0x3d342d ∷ 0x3d4f6f ∷ 0x3d5784 ∷ 0x3d6651 ∷ 0x3d7eba ∷ 0x3d883e
    ∷ 0x3d90d5 ∷ 0x3da100 ∷ 0x3db9eb ∷ 0x3dc2a9 ∷ 0x3dda42 ∷ 0x3deb97 ∷ 0x3df37c ∷ 0x3e0052
    ∷ 0x3e18b9 ∷ 0x3e296c ∷ 0x3e3187 ∷ 0x3e4ac5 ∷ 0x3e522e ∷ 0x3e63fb ∷ 0x3e7b10 ∷ 0x3e8d94
    ∷ 0x3e957f ∷ 0x3ea4aa ∷ 0x3ebc41 ∷ 0x3ec703 ∷ 0x3edfe8 ∷ 0x3eee3d ∷ 0x3ef6d6 ∷ 0x3f0335
    ∷ 0x3f1bde ∷ 0x3f2a0b ∷ 0x3f32e0 ∷ 0x3f49a2 ∷ 0x3f5149 ∷ 0x3f609c ∷ 0x3f7877 ∷ 0x3f8ef3
    ∷ 0x3f9618 ∷ 0x3fa7cd ∷ 0x3fbf26 ∷ 0x3fc464 ∷ 0x3fdc8f ∷ 0x3fed5a ∷ 0x3ff5b1 ∷ 0x40063b
    ∷ 0x401ed0 ∷ 0x402f05 ∷ 0x4037ee ∷ 0x404cac ∷ 0x405447 ∷ 0x406592 ∷ 0x407d79 ∷ 0x408bfd
    ∷ 0x409316 ∷ 0x40a2c3 ∷ 0x40ba28 ∷ 0x40c16a ∷ 0x40d981 ∷ 0x40e854 ∷ 0x40f0bf ∷ 0x41055c
    ∷ 0x411db7 ∷ 0x412c62 ∷ 0x413489 ∷ 0x414fcb ∷ 0x415720 ∷ 0x4166f5 ∷ 0x417e1e ∷ 0x41889a
    ∷ 0x419071 ∷ 0x41a1a4 ∷ 0x41b94f ∷ 0x41c20d ∷ 0x41dae6 ∷ 0x41eb33 ∷ 0x41f3d8 ∷ 0x4200f6
    ∷ 0x42181d ∷ 0x4229c8 ∷ 0x423123 ∷ 0x424a61 ∷ 0x42528a ∷ 0x42635f ∷ 0x427bb4 ∷ 0x428d30
    ∷ 0x4295db ∷ 0x42a40e ∷ 0x42bce5 ∷ 0x42c7a7 ∷ 0x42df4c ∷ 0x42ee99 ∷ 0x42f672 ∷ 0x430391
    ∷ 0x431b7a ∷ 0x432aaf ∷ 0x433244 ∷ 0x434906 ∷ 0x4351ed ∷ 0x436038 ∷ 0x4378d3 ∷ 0x438e57
    ∷ 0x4396bc ∷ 0x43a769 ∷ 0x43bf82 ∷ 0x43c4c0 ∷ 0x43dc2b ∷ 0x43edfe ∷ 0x43f515 ∷ 0x440ba2
    ∷ 0x441349 ∷ 0x44229c ∷ 0x443a77 ∷ 0x444135 ∷ 0x4459de ∷ 0x44680b ∷ 0x4470e0 ∷ 0x448664
    ∷ 0x449e8f ∷ 0x44af5a ∷ 0x44b7b1 ∷ 0x44ccf3 ∷ 0x44d418 ∷ 0x44e5cd ∷ 0x44fd26 ∷ 0x4508c5
    ∷ 0x45102e ∷ 0x4521fb ∷ 0x453910 ∷ 0x454252 ∷ 0x455ab9 ∷ 0x456b6c ∷ 0x457387 ∷ 0x458503
    ∷ 0x459de8 ∷ 0x45ac3d ∷ 0x45b4d6 ∷ 0x45cf94 ∷ 0x45d77f ∷ 0x45e6aa ∷ 0x45fe41 ∷ 0x460d6f
    ∷ 0x461584 ∷ 0x462451 ∷ 0x463cba ∷ 0x4647f8 ∷ 0x465f13 ∷ 0x466ec6 ∷ 0x46762d ∷ 0x4680a9
    ∷ 0x469842 ∷ 0x46a997 ∷ 0x46b17c ∷ 0x46ca3e ∷ 0x46d2d5 ∷ 0x46e300 ∷ 0x46fbeb ∷ 0x470e08
    ∷ 0x4716e3 ∷ 0x472736 ∷ 0x473fdd ∷ 0x47449f ∷ 0x475c74 ∷ 0x476da1 ∷ 0x47754a ∷ 0x4783ce
    ∷ 0x479b25 ∷ 0x47aaf0 ∷ 0x47b21b ∷ 0x47c959 ∷ 0x47d1b2 ∷ 0x47e067 ∷ 0x47f88c ∷ 0x4805e1
    ∷ 0x481d0a ∷ 0x482cdf ∷ 0x483434 ∷ 0x484f76 ∷ 0x48579d ∷ 0x486648 ∷ 0x487ea3 ∷ 0x488827
    ∷ 0x4890cc ∷ 0x48a119 ∷ 0x48b9f2 ∷ 0x48c2b0 ∷ 0x48da5b ∷ 0x48eb8e ∷ 0x48f365 ∷ 0x490686
    ∷ 0x491e6d ∷ 0x492fb8 ∷ 0x493753 ∷ 0x494c11 ∷ 0x4954fa ∷ 0x49652f ∷ 0x497dc4 ∷ 0x498b40
    ∷ 0x4993ab ∷ 0x49a27e ∷ 0x49ba95 ∷ 0x49c1d7 ∷ 0x49d93c ∷ 0x49e8e9 ∷ 0x49f002 ∷ 0x4a032c
    ∷ 0x4a1bc7 ∷ 0x4a2a12 ∷ 0x4a32f9 ∷ 0x4a49bb ∷ 0x4a5150 ∷ 0x4a6085 ∷ 0x4a786e ∷ 0x4a8eea
    ∷ 0x4a9601 ∷ 0x4aa7d4 ∷ 0x4abf3f ∷ 0x4ac47d ∷ 0x4adc96 ∷ 0x4aed43 ∷ 0x4af5a8 ∷ 0x4b004b
    ∷ 0x4b18a0 ∷ 0x4b2975 ∷ 0x4b319e ∷ 0x4b4adc ∷ 0x4b5237 ∷ 0x4b63e2 ∷ 0x4b7b09 ∷ 0x4b8d8d
    ∷ 0x4b9566 ∷ 0x4ba4b3 ∷ 0x4bbc58 ∷ 0x4bc71a ∷ 0x4bdff1 ∷ 0x4bee24 ∷ 0x4bf6cf ∷ 0x4c0878
    ∷ 0x4c1093 ∷ 0x4c2146 ∷ 0x4c39ad ∷ 0x4c42ef ∷ 0x4c5a04 ∷ 0x4c6bd1 ∷ 0x4c733a ∷ 0x4c85be
    ∷ 0x4c9d55 ∷ 0x4cac80 ∷ 0x4cb46b ∷ 0x4ccf29 ∷ 0x4cd7c2 ∷ 0x4ce617 ∷ 0x4cfefc ∷ 0x4d0b1f
    ∷ 0x4d13f4 ∷ 0x4d2221 ∷ 0x4d3aca ∷ 0x4d4188 ∷ 0x4d5963 ∷ 0x4d68b6 ∷ 0x4d705d ∷ 0x4d86d9
    ∷ 0x4d9e32 ∷ 0x4dafe7 ∷ 0x4db70c ∷ 0x4dcc4e ∷ 0x4dd4a5 ∷ 0x4de570 ∷ 0x4dfd9b ∷ 0x4e0eb5
    ∷ 0x4e165e ∷ 0x4e278b ∷ 0x4e3f60 ∷ 0x4e4422 ∷ 0x4e5cc9 ∷ 0x4e6d1c ∷ 0x4e75f7 ∷ 0x4e8373
    ∷ 0x4e9b98 ∷ 0x4eaa4d ∷ 0x4eb2a6 ∷ 0x4ec9e4 ∷ 0x4ed10f ∷ 0x4ee0da ∷ 0x4ef831 ∷ 0x4f0dd2
    ∷ 0x4f1539 ∷ 0x4f24ec ∷ 0x4f3c07 ∷ 0x4f4745 ∷ 0x4f5fae ∷ 0x4f6e7b ∷ 0x4f7690 ∷ 0x4f8014
    ∷ 0x4f98ff ∷ 0x4fa92a ∷ 0x4fb1c1 ∷ 0x4fca83 ∷ 0x4fd268 ∷ 0x4fe3bd ∷ 0x4ffb56 ∷ 0x50018f
    ∷ 0x501964 ∷ 0x5028b1 ∷ 0x50305a ∷ 0x504b18 ∷ 0x5053f3 ∷ 0x506226 ∷ 0x507acd ∷ 0x508c49
    ∷ 0x5094a2 ∷ 0x50a577 ∷ 0x50bd9c ∷ 0x50c6de ∷ 0x50de35 ∷ 0x50efe0 ∷ 0x50f70b ∷ 0x5102e8
    ∷ 0x511a03 ∷ 0x512bd6 ∷ 0x51333d ∷ 0x51487f ∷ 0x515094 ∷ 0x516141 ∷ 0x5179aa ∷ 0x518f2e
    ∷ 0x5197c5 ∷ 0x51a610 ∷ 0x51befb ∷ 0x51c5b9 ∷ 0x51dd52 ∷ 0x51ec87 ∷ 0x51f46c ∷ 0x520742
    ∷ 0x521fa9 ∷ 0x522e7c ∷ 0x523697 ∷ 0x524dd5 ∷ 0x52553e ∷ 0x5264eb ∷ 0x527c00 ∷ 0x528a84
    ∷ 0x52926f ∷ 0x52a3ba ∷ 0x52bb51 ∷ 0x52c013 ∷ 0x52d8f8 ∷ 0x52e92d ∷ 0x52f1c6 ∷ 0x530425
    ∷ 0x531cce ∷ 0x532d1b ∷ 0x5335f0 ∷ 0x534eb2 ∷ 0x535659 ∷ 0x53678c ∷ 0x537f67 ∷ 0x5389e3
    ∷ 0x539108 ∷ 0x53a0dd ∷ 0x53b836 ∷ 0x53c374 ∷ 0x53db9f ∷ 0x53ea4a ∷ 0x53f2a1 ∷ 0x540c16
    ∷ 0x5414fd ∷ 0x542528 ∷ 0x543dc3 ∷ 0x544681 ∷ 0x545e6a ∷ 0x546fbf ∷ 0x547754 ∷ 0x5481d0
    ∷ 0x54993b ∷ 0x54a8ee ∷ 0x54b005 ∷ 0x54cb47 ∷ 0x54d3ac ∷ 0x54e279 ∷ 0x54fa92 ∷ 0x550f71
    ∷ 0x55179a ∷ 0x55264f ∷ 0x553ea4 ∷ 0x5545e6 ∷ 0x555d0d ∷ 0x556cd8 ∷ 0x557433 ∷ 0x5582b7
    ∷ 0x559a5c ∷ 0x55ab89 ∷ 0x55b362 ∷ 0x55c820 ∷ 0x55d0cb ∷ 0x55e11e ∷ 0x55f9f5 ∷ 0x560adb
    ∷ 0x561230 ∷ 0x5623e5 ∷ 0x563b0e ∷ 0x56404c ∷ 0x5658a7 ∷ 0x566972 ∷ 0x567199 ∷ 0x56871d
    ∷ 0x569ff6 ∷ 0x56ae23 ∷ 0x56b6c8 ∷ 0x56cd8a ∷ 0x56d561 ∷ 0x56e4b4 ∷ 0x56fc5f ∷ 0x5709bc
    ∷ 0x571157 ∷ 0x572082 ∷ 0x573869 ∷ 0x57432b ∷ 0x575bc0 ∷ 0x576a15 ∷ 0x5772fe ∷ 0x57847a
    ∷ 0x579c91 ∷ 0x57ad44 ∷ 0x57b5af ∷ 0x57ceed ∷ 0x57d606 ∷ 0x57e7d3 ∷ 0x57ff38 ∷ 0x580255
    ∷ 0x581abe ∷ 0x582b6b ∷ 0x583380 ∷ 0x5848c2 ∷ 0x585029 ∷ 0x5861fc ∷ 0x587917 ∷ 0x588f93
    ∷ 0x589778 ∷ 0x58a6ad ∷ 0x58be46 ∷ 0x58c504 ∷ 0x58ddef ∷ 0x58ec3a ∷ 0x58f4d1 ∷ 0x590132
    ∷ 0x5919d9 ∷ 0x59280c ∷ 0x5930e7 ∷ 0x594ba5 ∷ 0x59534e ∷ 0x59629b ∷ 0x597a70 ∷ 0x598cf4
    ∷ 0x59941f ∷ 0x59a5ca ∷ 0x59bd21 ∷ 0x59c663 ∷ 0x59de88 ∷ 0x59ef5d ∷ 0x59f7b6 ∷ 0x5a0498
    ∷ 0x5a1c73 ∷ 0x5a2da6 ∷ 0x5a354d ∷ 0x5a4e0f ∷ 0x5a56e4 ∷ 0x5a6731 ∷ 0x5a7fda ∷ 0x5a895e
    ∷ 0x5a91b5 ∷ 0x5aa060 ∷ 0x5ab88b ∷ 0x5ac3c9 ∷ 0x5adb22 ∷ 0x5aeaf7 ∷ 0x5af21c ∷ 0x5b07ff
    ∷ 0x5b1f14 ∷ 0x5b2ec1 ∷ 0x5b362a ∷ 0x5b4d68 ∷ 0x5b5583 ∷ 0x5b6456 ∷ 0x5b7cbd ∷ 0x5b8a39
    ∷ 0x5b92d2 ∷ 0x5ba307 ∷ 0x5bbbec ∷ 0x5bc0ae ∷ 0x5bd845 ∷ 0x5be990 ∷ 0x5bf17b ∷ 0x5c0fcc
    ∷ 0x5c1727 ∷ 0x5c26f2 ∷ 0x5c3e19 ∷ 0x5c455b ∷ 0x5c5db0 ∷ 0x5c6c65 ∷ 0x5c748e ∷ 0x5c820a
    ∷ 0x5c9ae1 ∷ 0x5cab34 ∷ 0x5cb3df ∷ 0x5cc89d ∷ 0x5cd076 ∷ 0x5ce1a3 ∷ 0x5cf948 ∷ 0x5d0cab
    ∷ 0x5d1440 ∷ 0x5d2595 ∷ 0x5d3d7e ∷ 0x5d463c ∷ 0x5d5ed7 ∷ 0x5d6f02 ∷ 0x5d77e9 ∷ 0x5d816d
    ∷ 0x5d9986 ∷ 0x5da853 ∷ 0x5db0b8 ∷ 0x5dcbfa ∷ 0x5dd311 ∷ 0x5de2c4 ∷ 0x5dfa2f ∷ 0x5e0901
    ∷ 0x5e11ea ∷ 0x5e203f ∷ 0x5e38d4 ∷ 0x5e4396 ∷ 0x5e5b7d ∷ 0x5e6aa8 ∷ 0x5e7243 ∷ 0x5e84c7
    ∷ 0x5e9c2c ∷ 0x5eadf9 ∷ 0x5eb512 ∷ 0x5ece50 ∷ 0x5ed6bb ∷ 0x5ee76e ∷ 0x5eff85 ∷ 0x5f0a66
    ∷ 0x5f128d ∷ 0x5f2358 ∷ 0x5f3bb3 ∷ 0x5f40f1 ∷ 0x5f581a ∷ 0x5f69cf ∷ 0x5f7124 ∷ 0x5f87a0
    ∷ 0x5f9f4b ∷ 0x5fae9e ∷ 0x5fb675 ∷ 0x5fcd37 ∷ 0x5fd5dc ∷ 0x5fe409 ∷ 0x5ffce2 ∷ 0x600953
    ∷ 0x6011b8 ∷ 0x60206d ∷ 0x603886 ∷ 0x6043c4 ∷ 0x605b2f ∷ 0x606afa ∷ 0x607211 ∷ 0x608495
    ∷ 0x609c7e ∷ 0x60adab ∷ 0x60b540 ∷ 0x60ce02 ∷ 0x60d6e9 ∷ 0x60e73c ∷ 0x60ffd7 ∷ 0x610a34
    ∷ 0x6112df ∷ 0x61230a ∷ 0x613be1 ∷ 0x6140a3 ∷ 0x615848 ∷ 0x61699d ∷ 0x617176 ∷ 0x6187f2
    ∷ 0x619f19 ∷ 0x61aecc ∷ 0x61b627 ∷ 0x61cd65 ∷ 0x61d58e ∷ 0x61e45b ∷ 0x61fcb0 ∷ 0x620f9e
    ∷ 0x621775 ∷ 0x6226a0 ∷ 0x623e4b ∷ 0x624509 ∷ 0x625de2 ∷ 0x626c37 ∷ 0x6274dc ∷ 0x628258
    ∷ 0x629ab3 ∷ 0x62ab66 ∷ 0x62b38d ∷ 0x62c8cf ∷ 0x62d024 ∷ 0x62e1f1 ∷ 0x62f91a ∷ 0x630cf9
    ∷ 0x631412 ∷ 0x6325c7 ∷ 0x633d2c ∷ 0x63466e ∷ 0x635e85 ∷ 0x636f50 ∷ 0x6377bb ∷ 0x63813f
    ∷ 0x6399d4 ∷ 0x63a801 ∷ 0x63b0ea ∷ 0x63cba8 ∷ 0x63d343 ∷ 0x63e296 ∷ 0x63fa7d ∷ 0x6404ca
    ∷ 0x641c21 ∷ 0x642df4 ∷ 0x64351f ∷ 0x644e5d ∷ 0x6456b6 ∷ 0x646763 ∷ 0x647f88 ∷ 0x64890c
    ∷ 0x6491e7 ∷ 0x64a032 ∷ 0x64b8d9 ∷ 0x64c39b ∷ 0x64db70 ∷ 0x64eaa5 ∷ 0x64f24e ∷ 0x6507ad
    ∷ 0x651f46 ∷ 0x652e93 ∷ 0x653678 ∷ 0x654d3a ∷ 0x6555d1 ∷ 0x656404 ∷ 0x657cef ∷ 0x658a6b
    ∷ 0x659280 ∷ 0x65a355 ∷ 0x65bbbe ∷ 0x65c0fc ∷ 0x65d817 ∷ 0x65e9c2 ∷ 0x65f129 ∷ 0x660207
    ∷ 0x661aec ∷ 0x662b39 ∷ 0x6633d2 ∷ 0x664890 ∷ 0x66507b ∷ 0x6661ae ∷ 0x667945 ∷ 0x668fc1
    ∷ 0x66972a ∷ 0x66a6ff ∷ 0x66be14 ∷ 0x66c556 ∷ 0x66ddbd ∷ 0x66ec68 ∷ 0x66f483 ∷ 0x670160
    ∷ 0x67198b ∷ 0x67285e ∷ 0x6730b5 ∷ 0x674bf7 ∷ 0x67531c ∷ 0x6762c9 ∷ 0x677a22 ∷ 0x678ca6
    ∷ 0x67944d ∷ 0x67a598 ∷ 0x67bd73 ∷ 0x67c631 ∷ 0x67deda ∷ 0x67ef0f ∷ 0x67f7e4 ∷ 0x680a89
    ∷ 0x681262 ∷ 0x6823b7 ∷ 0x683b5c ∷ 0x68401e ∷ 0x6858f5 ∷ 0x686920 ∷ 0x6871cb ∷ 0x68874f
    ∷ 0x689fa4 ∷ 0x68ae71 ∷ 0x68b69a ∷ 0x68cdd8 ∷ 0x68d533 ∷ 0x68e4e6 ∷ 0x68fc0d ∷ 0x6909ee
    ∷ 0x691105 ∷ 0x6920d0 ∷ 0x69383b ∷ 0x694379 ∷ 0x695b92 ∷ 0x696a47 ∷ 0x6972ac ∷ 0x698428
    ∷ 0x699cc3 ∷ 0x69ad16 ∷ 0x69b5fd ∷ 0x69cebf ∷ 0x69d654 ∷ 0x69e781 ∷ 0x69ff6a ∷ 0x6a0c44
    ∷ 0x6a14af ∷ 0x6a257a ∷ 0x6a3d91 ∷ 0x6a46d3 ∷ 0x6a5e38 ∷ 0x6a6fed ∷ 0x6a7706 ∷ 0x6a8182
    ∷ 0x6a9969 ∷ 0x6aa8bc ∷ 0x6ab057 ∷ 0x6acb15 ∷ 0x6ad3fe ∷ 0x6ae22b ∷ 0x6afac0 ∷ 0x6b0f23
    ∷ 0x6b17c8 ∷ 0x6b261d ∷ 0x6b3ef6 ∷ 0x6b45b4 ∷ 0x6b5d5f ∷ 0x6b6c8a ∷ 0x6b7461 ∷ 0x6b82e5
    ∷ 0x6b9a0e ∷ 0x6babdb ∷ 0x6bb330 ∷ 0x6bc872 ∷ 0x6bd099 ∷ 0x6be14c ∷ 0x6bf9a7 ∷ 0x6c0710
    ∷ 0x6c1ffb ∷ 0x6c2e2e ∷ 0x6c36c5 ∷ 0x6c4d87 ∷ 0x6c556c ∷ 0x6c64b9 ∷ 0x6c7c52 ∷ 0x6c8ad6
    ∷ 0x6c923d ∷ 0x6ca3e8 ∷ 0x6cbb03 ∷ 0x6cc041 ∷ 0x6cd8aa ∷ 0x6ce97f ∷ 0x6cf194 ∷ 0x6d0477
    ∷ 0x6d1c9c ∷ 0x6d2d49 ∷ 0x6d35a2 ∷ 0x6d4ee0 ∷ 0x6d560b ∷ 0x6d67de ∷ 0x6d7f35 ∷ 0x6d89b1
    ∷ 0x6d915a ∷ 0x6da08f ∷ 0x6db864 ∷ 0x6dc326 ∷ 0x6ddbcd ∷ 0x6dea18 ∷ 0x6df2f3 ∷ 0x6e01dd
    ∷ 0x6e1936 ∷ 0x6e28e3 ∷ 0x6e3008 ∷ 0x6e4b4a ∷ 0x6e53a1 ∷ 0x6e6274 ∷ 0x6e7a9f ∷ 0x6e8c1b
    ∷ 0x6e94f0 ∷ 0x6ea525 ∷ 0x6ebdce ∷ 0x6ec68c ∷ 0x6ede67 ∷ 0x6eefb2 ∷ 0x6ef759 ∷ 0x6f02ba
    ∷ 0x6f1a51 ∷ 0x6f2b84 ∷ 0x6f336f ∷ 0x6f482d ∷ 0x6f50c6 ∷ 0x6f6113 ∷ 0x6f79f8 ∷ 0x6f8f7c
    ∷ 0x6f9797 ∷ 0x6fa642 ∷ 0x6fbea9 ∷ 0x6fc5eb ∷ 0x6fdd00 ∷ 0x6fecd5 ∷ 0x6ff43e ∷ 0x700ee7
    ∷ 0x70160c ∷ 0x7027d9 ∷ 0x703f32 ∷ 0x704470 ∷ 0x705c9b ∷ 0x706d4e ∷ 0x7075a5 ∷ 0x708321
    ∷ 0x709bca ∷ 0x70aa1f ∷ 0x70b2f4 ∷ 0x70c9b6 ∷ 0x70d15d ∷ 0x70e088 ∷ 0x70f863 ∷ 0x710d80
    ∷ 0x71156b ∷ 0x7124be ∷ 0x713c55 ∷ 0x714717 ∷ 0x715ffc ∷ 0x716e29 ∷ 0x7176c2 ∷ 0x718046
    ∷ 0x7198ad ∷ 0x71a978 ∷ 0x71b193 ∷ 0x71cad1 ∷ 0x71d23a ∷ 0x71e3ef ∷ 0x71fb04 ∷ 0x72082a
    ∷ 0x7210c1 ∷ 0x722114 ∷ 0x7239ff ∷ 0x7242bd ∷ 0x725a56 ∷ 0x726b83 ∷ 0x727368 ∷ 0x7285ec
    ∷ 0x729d07 ∷ 0x72acd2 ∷ 0x72b439 ∷ 0x72cf7b ∷ 0x72d790 ∷ 0x72e645 ∷ 0x72feae ∷ 0x730b4d
    ∷ 0x7313a6 ∷ 0x732273 ∷ 0x733a98 ∷ 0x7341da ∷ 0x735931 ∷ 0x7368e4 ∷ 0x73700f ∷ 0x73868b
    ∷ 0x739e60 ∷ 0x73afb5 ∷ 0x73b75e ∷ 0x73cc1c ∷ 0x73d4f7 ∷ 0x73e522 ∷ 0x73fdc9 ∷ 0x74037e
    ∷ 0x741b95 ∷ 0x742a40 ∷ 0x7432ab ∷ 0x7449e9 ∷ 0x745102 ∷ 0x7460d7 ∷ 0x74783c ∷ 0x748eb8
    ∷ 0x749653 ∷ 0x74a786 ∷ 0x74bf6d ∷ 0x74c42f ∷ 0x74dcc4 ∷ 0x74ed11 ∷ 0x74f5fa ∷ 0x750019
    ∷ 0x7518f2 ∷ 0x752927 ∷ 0x7531cc ∷ 0x754a8e ∷ 0x755265 ∷ 0x7563b0 ∷ 0x757b5b ∷ 0x758ddf
    ∷ 0x759534 ∷ 0x75a4e1 ∷ 0x75bc0a ∷ 0x75c748 ∷ 0x75dfa3 ∷ 0x75ee76 ∷ 0x75f69d ∷ 0x7605b3
    ∷ 0x761d58 ∷ 0x762c8d ∷ 0x763466 ∷ 0x764f24 ∷ 0x7657cf ∷ 0x76661a ∷ 0x767ef1 ∷ 0x768875
    ∷ 0x76909e ∷ 0x76a14b ∷ 0x76b9a0 ∷ 0x76c2e2 ∷ 0x76da09 ∷ 0x76ebdc ∷ 0x76f337 ∷ 0x7706d4
    ∷ 0x771e3f ∷ 0x772fea ∷ 0x773701 ∷ 0x774c43 ∷ 0x7754a8 ∷ 0x77657d ∷ 0x777d96 ∷ 0x778b12
    ∷ 0x7793f9 ∷ 0x77a22c ∷ 0x77bac7 ∷ 0x77c185 ∷ 0x77d96e ∷ 0x77e8bb ∷ 0x77f050 ∷ 0x780d3d
    ∷ 0x7815d6 ∷ 0x782403 ∷ 0x783ce8 ∷ 0x7847aa ∷ 0x785f41 ∷ 0x786e94 ∷ 0x78767f ∷ 0x7880fb
    ∷ 0x789810 ∷ 0x78a9c5 ∷ 0x78b12e ∷ 0x78ca6c ∷ 0x78d287 ∷ 0x78e352 ∷ 0x78fbb9 ∷ 0x790e5a
    ∷ 0x7916b1 ∷ 0x792764 ∷ 0x793f8f ∷ 0x7944cd ∷ 0x795c26 ∷ 0x796df3 ∷ 0x797518 ∷ 0x79839c
    ∷ 0x799b77 ∷ 0x79aaa2 ∷ 0x79b249 ∷ 0x79c90b ∷ 0x79d1e0 ∷ 0x79e035 ∷ 0x79f8de ∷ 0x7a0bf0
    ∷ 0x7a131b ∷ 0x7a22ce ∷ 0x7a3a25 ∷ 0x7a4167 ∷ 0x7a598c ∷ 0x7a6859 ∷ 0x7a70b2 ∷ 0x7a8636
    ∷ 0x7a9edd ∷ 0x7aaf08 ∷ 0x7ab7e3 ∷ 0x7acca1 ∷ 0x7ad44a ∷ 0x7ae59f ∷ 0x7afd74 ∷ 0x7b0897
    ∷ 0x7b107c ∷ 0x7b21a9 ∷ 0x7b3942 ∷ 0x7b4200 ∷ 0x7b5aeb ∷ 0x7b6b3e ∷ 0x7b73d5 ∷ 0x7b8551
    ∷ 0x7b9dba ∷ 0x7bac6f ∷ 0x7bb484 ∷ 0x7bcfc6 ∷ 0x7bd72d ∷ 0x7be6f8 ∷ 0x7bfe13 ∷ 0x7c00a4
    ∷ 0x7c184f ∷ 0x7c299a ∷ 0x7c3171 ∷ 0x7c4a33 ∷ 0x7c52d8 ∷ 0x7c630d ∷ 0x7c7be6 ∷ 0x7c8d62
    ∷ 0x7c9589 ∷ 0x7ca45c ∷ 0x7cbcb7 ∷ 0x7cc7f5 ∷ 0x7cdf1e ∷ 0x7ceecb ∷ 0x7cf620 ∷ 0x7d03c3
    ∷ 0x7d1b28 ∷ 0x7d2afd ∷ 0x7d3216 ∷ 0x7d4954 ∷ 0x7d51bf ∷ 0x7d606a ∷ 0x7d7881 ∷ 0x7d8e05
    ∷ 0x7d96ee ∷ 0x7da73b ∷ 0x7dbfd0 ∷ 0x7dc492 ∷ 0x7ddc79 ∷ 0x7dedac ∷ 0x7df547 ∷ 0x7e0669
    ∷ 0x7e1e82 ∷ 0x7e2f57 ∷ 0x7e37bc ∷ 0x7e4cfe ∷ 0x7e5415 ∷ 0x7e65c0 ∷ 0x7e7d2b ∷ 0x7e8baf
    ∷ 0x7e9344 ∷ 0x7ea291 ∷ 0x7eba7a ∷ 0x7ec138 ∷ 0x7ed9d3 ∷ 0x7ee806 ∷ 0x7ef0ed ∷ 0x7f050e
    ∷ 0x7f1de5 ∷ 0x7f2c30 ∷ 0x7f34db ∷ 0x7f4f99 ∷ 0x7f5772 ∷ 0x7f66a7 ∷ 0x7f7e4c ∷ 0x7f88c8
    ∷ 0x7f9023 ∷ 0x7fa1f6 ∷ 0x7fb91d ∷ 0x7fc25f ∷ 0x7fdab4 ∷ 0x7feb61 ∷ 0x7ff38a ∷ 0x800c75
    ∷ 0x80149e ∷ 0x80254b ∷ 0x803da0 ∷ 0x8046e2 ∷ 0x805e09 ∷ 0x806fdc ∷ 0x807737 ∷ 0x8081b3
    ∷ 0x809958 ∷ 0x80a88d ∷ 0x80b066 ∷ 0x80cb24 ∷ 0x80d3cf ∷ 0x80e21a ∷ 0x80faf1 ∷ 0x810f12
    ∷ 0x8117f9 ∷ 0x81262c ∷ 0x813ec7 ∷ 0x814585 ∷ 0x815d6e ∷ 0x816cbb ∷ 0x817450 ∷ 0x8182d4
    ∷ 0x819a3f ∷ 0x81abea ∷ 0x81b301 ∷ 0x81c843 ∷ 0x81d0a8 ∷ 0x81e17d ∷ 0x81f996 ∷ 0x820ab8
    ∷ 0x821253 ∷ 0x822386 ∷ 0x823b6d ∷ 0x82402f ∷ 0x8258c4 ∷ 0x826911 ∷ 0x8271fa ∷ 0x82877e
    ∷ 0x829f95 ∷ 0x82ae40 ∷ 0x82b6ab ∷ 0x82cde9 ∷ 0x82d502 ∷ 0x82e4d7 ∷ 0x82fc3c ∷ 0x8309df
    ∷ 0x831134 ∷ 0x8320e1 ∷ 0x83380a ∷ 0x834348 ∷ 0x835ba3 ∷ 0x836a76 ∷ 0x83729d ∷ 0x838419
    ∷ 0x839cf2 ∷ 0x83ad27 ∷ 0x83b5cc ∷ 0x83ce8e ∷ 0x83d665 ∷ 0x83e7b0 ∷ 0x83ff5b ∷ 0x8401ec
    ∷ 0x841907 ∷ 0x8428d2 ∷ 0x843039 ∷ 0x844b7b ∷ 0x845390 ∷ 0x846245 ∷ 0x847aae ∷ 0x848c2a
    ∷ 0x8494c1 ∷ 0x84a514 ∷ 0x84bdff ∷ 0x84c6bd ∷ 0x84de56 ∷ 0x84ef83 ∷ 0x84f768 ∷ 0x85028b
    ∷ 0x851a60 ∷ 0x852bb5 ∷ 0x85335e ∷ 0x85481c ∷ 0x8550f7 ∷ 0x856122 ∷ 0x8579c9 ∷ 0x858f4d
    ∷ 0x8597a6 ∷ 0x85a673 ∷ 0x85be98 ∷ 0x85c5da ∷ 0x85dd31 ∷ 0x85ece4 ∷ 0x85f40f ∷ 0x860721
    ∷ 0x861fca ∷ 0x862e1f ∷ 0x8636f4 ∷ 0x864db6 ∷ 0x86555d ∷ 0x866488 ∷ 0x867c63 ∷ 0x868ae7
    ∷ 0x86920c ∷ 0x86a3d9 ∷ 0x86bb32 ∷ 0x86c070 ∷ 0x86d89b ∷ 0x86e94e ∷ 0x86f1a5 ∷ 0x870446
    ∷ 0x871cad ∷ 0x872d78 ∷ 0x873593 ∷ 0x874ed1 ∷ 0x87563a ∷ 0x8767ef ∷ 0x877f04 ∷ 0x878980
    ∷ 0x87916b ∷ 0x87a0be ∷ 0x87b855 ∷ 0x87c317 ∷ 0x87dbfc ∷ 0x87ea29 ∷ 0x87f2c2 ∷ 0x880faf
    ∷ 0x881744 ∷ 0x882691 ∷ 0x883e7a ∷ 0x884538 ∷ 0x885dd3 ∷ 0x886c06 ∷ 0x8874ed ∷ 0x888269
    ∷ 0x889a82 ∷ 0x88ab57 ∷ 0x88b3bc ∷ 0x88c8fe ∷ 0x88d015 ∷ 0x88e1c0 ∷ 0x88f92b ∷ 0x890cc8
    ∷ 0x891423 ∷ 0x8925f6 ∷ 0x893d1d ∷ 0x89465f ∷ 0x895eb4 ∷ 0x896f61 ∷ 0x89778a ∷ 0x89810e
    ∷ 0x8999e5 ∷ 0x89a830 ∷ 0x89b0db ∷ 0x89cb99 ∷ 0x89d372 ∷ 0x89e2a7 ∷ 0x89fa4c ∷ 0x8a0962
    ∷ 0x8a1189 ∷ 0x8a205c ∷ 0x8a38b7 ∷ 0x8a43f5 ∷ 0x8a5b1e ∷ 0x8a6acb ∷ 0x8a7220 ∷ 0x8a84a4
    ∷ 0x8a9c4f ∷ 0x8aad9a ∷ 0x8ab571 ∷ 0x8ace33 ∷ 0x8ad6d8 ∷ 0x8ae70d ∷ 0x8affe6 ∷ 0x8b0a05
    ∷ 0x8b12ee ∷ 0x8b233b ∷ 0x8b3bd0 ∷ 0x8b4092 ∷ 0x8b5879 ∷ 0x8b69ac ∷ 0x8b7147 ∷ 0x8b87c3
    ∷ 0x8b9f28 ∷ 0x8baefd ∷ 0x8bb616 ∷ 0x8bcd54 ∷ 0x8bd5bf ∷ 0x8be46a ∷ 0x8bfc81 ∷ 0x8c0236
    ∷ 0x8c1add ∷ 0x8c2b08 ∷ 0x8c33e3 ∷ 0x8c48a1 ∷ 0x8c504a ∷ 0x8c619f ∷ 0x8c7974 ∷ 0x8c8ff0
    ∷ 0x8c971b ∷ 0x8ca6ce ∷ 0x8cbe25 ∷ 0x8cc567 ∷ 0x8cdd8c ∷ 0x8cec59 ∷ 0x8cf4b2 ∷ 0x8d0151
    ∷ 0x8d19ba ∷ 0x8d286f ∷ 0x8d3084 ∷ 0x8d4bc6 ∷ 0x8d532d ∷ 0x8d62f8 ∷ 0x8d7a13 ∷ 0x8d8c97
    ∷ 0x8d947c ∷ 0x8da5a9 ∷ 0x8dbd42 ∷ 0x8dc600 ∷ 0x8ddeeb ∷ 0x8def3e ∷ 0x8df7d5 ∷ 0x8e04fb
    ∷ 0x8e1c10 ∷ 0x8e2dc5 ∷ 0x8e352e ∷ 0x8e4e6c ∷ 0x8e5687 ∷ 0x8e6752 ∷ 0x8e7fb9 ∷ 0x8e893d
    ∷ 0x8e91d6 ∷ 0x8ea003 ∷ 0x8eb8e8 ∷ 0x8ec3aa ∷ 0x8edb41 ∷ 0x8eea94 ∷ 0x8ef27f ∷ 0x8f079c
    ∷ 0x8f1f77 ∷ 0x8f2ea2 ∷ 0x8f3649 ∷ 0x8f4d0b ∷ 0x8f55e0 ∷ 0x8f6435 ∷ 0x8f7cde ∷ 0x8f8a5a
    ∷ 0x8f92b1 ∷ 0x8fa364 ∷ 0x8fbb8f ∷ 0x8fc0cd ∷ 0x8fd826 ∷ 0x8fe9f3 ∷ 0x8ff118 ∷ 0x900bc1
    ∷ 0x90132a ∷ 0x9022ff ∷ 0x903a14 ∷ 0x904156 ∷ 0x9059bd ∷ 0x906868 ∷ 0x907083 ∷ 0x908607
    ∷ 0x909eec ∷ 0x90af39 ∷ 0x90b7d2 ∷ 0x90cc90 ∷ 0x90d47b ∷ 0x90e5ae ∷ 0x90fd45 ∷ 0x9108a6
    ∷ 0x91104d ∷ 0x912198 ∷ 0x913973 ∷ 0x914231 ∷ 0x915ada ∷ 0x916b0f ∷ 0x9173e4 ∷ 0x918560
    ∷ 0x919d8b ∷ 0x91ac5e ∷ 0x91b4b5 ∷ 0x91cff7 ∷ 0x91d71c ∷ 0x91e6c9 ∷ 0x91fe22 ∷ 0x920d0c
    ∷ 0x9215e7 ∷ 0x922432 ∷ 0x923cd9 ∷ 0x92479b ∷ 0x925f70 ∷ 0x926ea5 ∷ 0x92764e ∷ 0x9280ca
    ∷ 0x929821 ∷ 0x92a9f4 ∷ 0x92b11f ∷ 0x92ca5d ∷ 0x92d2b6 ∷ 0x92e363 ∷ 0x92fb88 ∷ 0x930e6b
    ∷ 0x931680 ∷ 0x932755 ∷ 0x933fbe ∷ 0x9344fc ∷ 0x935c17 ∷ 0x936dc2 ∷ 0x937529 ∷ 0x9383ad
    ∷ 0x939b46 ∷ 0x93aa93 ∷ 0x93b278 ∷ 0x93c93a ∷ 0x93d1d1 ∷ 0x93e004 ∷ 0x93f8ef ∷ 0x940658
    ∷ 0x941eb3 ∷ 0x942f66 ∷ 0x94378d ∷ 0x944ccf ∷ 0x945424 ∷ 0x9465f1 ∷ 0x947d1a ∷ 0x948b9e
    ∷ 0x949375 ∷ 0x94a2a0 ∷ 0x94ba4b ∷ 0x94c109 ∷ 0x94d9e2 ∷ 0x94e837 ∷ 0x94f0dc ∷ 0x95053f
    ∷ 0x951dd4 ∷ 0x952c01 ∷ 0x9534ea ∷ 0x954fa8 ∷ 0x955743 ∷ 0x956696 ∷ 0x957e7d ∷ 0x9588f9
    ∷ 0x959012 ∷ 0x95a1c7 ∷ 0x95b92c ∷ 0x95c26e ∷ 0x95da85 ∷ 0x95eb50 ∷ 0x95f3bb ∷ 0x960095
    ∷ 0x96187e ∷ 0x9629ab ∷ 0x963140 ∷ 0x964a02 ∷ 0x9652e9 ∷ 0x96633c ∷ 0x967bd7 ∷ 0x968d53
    ∷ 0x9695b8 ∷ 0x96a46d ∷ 0x96bc86 ∷ 0x96c7c4 ∷ 0x96df2f ∷ 0x96eefa ∷ 0x96f611 ∷ 0x9703f2
    ∷ 0x971b19 ∷ 0x972acc ∷ 0x973227 ∷ 0x974965 ∷ 0x97518e ∷ 0x97605b ∷ 0x9778b0 ∷ 0x978e34
    ∷ 0x9796df ∷ 0x97a70a ∷ 0x97bfe1 ∷ 0x97c4a3 ∷ 0x97dc48 ∷ 0x97ed9d ∷ 0x97f576 ∷ 0x98081b
    ∷ 0x9810f0 ∷ 0x982125 ∷ 0x9839ce ∷ 0x98428c ∷ 0x985a67 ∷ 0x986bb2 ∷ 0x987359 ∷ 0x9885dd
    ∷ 0x989d36 ∷ 0x98ace3 ∷ 0x98b408 ∷ 0x98cf4a ∷ 0x98d7a1 ∷ 0x98e674 ∷ 0x98fe9f ∷ 0x990b7c
    ∷ 0x991397 ∷ 0x992242 ∷ 0x993aa9 ∷ 0x9941eb ∷ 0x995900 ∷ 0x9968d5 ∷ 0x99703e ∷ 0x9986ba
    ∷ 0x999e51 ∷ 0x99af84 ∷ 0x99b76f ∷ 0x99cc2d ∷ 0x99d4c6 ∷ 0x99e513 ∷ 0x99fdf8 ∷ 0x9a0ed6
    ∷ 0x9a163d ∷ 0x9a27e8 ∷ 0x9a3f03 ∷ 0x9a4441 ∷ 0x9a5caa ∷ 0x9a6d7f ∷ 0x9a7594 ∷ 0x9a8310
    ∷ 0x9a9bfb ∷ 0x9aaa2e ∷ 0x9ab2c5 ∷ 0x9ac987 ∷ 0x9ad16c ∷ 0x9ae0b9 ∷ 0x9af852 ∷ 0x9b0db1
    ∷ 0x9b155a ∷ 0x9b248f ∷ 0x9b3c64 ∷ 0x9b4726 ∷ 0x9b5fcd ∷ 0x9b6e18 ∷ 0x9b76f3 ∷ 0x9b8077
    ∷ 0x9b989c ∷ 0x9ba949 ∷ 0x9bb1a2 ∷ 0x9bcae0 ∷ 0x9bd20b ∷ 0x9be3de ∷ 0x9bfb35 ∷ 0x9c0582
    ∷ 0x9c1d69 ∷ 0x9c2cbc ∷ 0x9c3457 ∷ 0x9c4f15 ∷ 0x9c57fe ∷ 0x9c662b ∷ 0x9c7ec0 ∷ 0x9c8844
    ∷ 0x9c90af ∷ 0x9ca17a ∷ 0x9cb991 ∷ 0x9cc2d3 ∷ 0x9cda38 ∷ 0x9cebed ∷ 0x9cf306 ∷ 0x9d06e5
    ∷ 0x9d1e0e ∷ 0x9d2fdb ∷ 0x9d3730 ∷ 0x9d4c72 ∷ 0x9d5499 ∷ 0x9d654c ∷ 0x9d7da7 ∷ 0x9d8b23
    ∷ 0x9d93c8 ∷ 0x9da21d ∷ 0x9dbaf6 ∷ 0x9dc1b4 ∷ 0x9dd95f ∷ 0x9de88a ∷ 0x9df061 ∷ 0x9e034f
    ∷ 0x9e1ba4 ∷ 0x9e2a71 ∷ 0x9e329a ∷ 0x9e49d8 ∷ 0x9e5133 ∷ 0x9e60e6 ∷ 0x9e780d ∷ 0x9e8e89
    ∷ 0x9e9662 ∷ 0x9ea7b7 ∷ 0x9ebf5c ∷ 0x9ec41e ∷ 0x9edcf5 ∷ 0x9eed20 ∷ 0x9ef5cb ∷ 0x9f0028
    ∷ 0x9f18c3 ∷ 0x9f2916 ∷ 0x9f31fd ∷ 0x9f4abf ∷ 0x9f5254 ∷ 0x9f6381 ∷ 0x9f7b6a ∷ 0x9f8dee
    ∷ 0x9f9505 ∷ 0x9fa4d0 ∷ 0x9fbc3b ∷ 0x9fc779 ∷ 0x9fdf92 ∷ 0x9fee47 ∷ 0x9ff6ac ∷ 0xa0031d
    ∷ 0xa01bf6 ∷ 0xa02a23 ∷ 0xa032c8 ∷ 0xa0498a ∷ 0xa05161 ∷ 0xa060b4 ∷ 0xa0785f ∷ 0xa08edb
    ∷ 0xa09630 ∷ 0xa0a7e5 ∷ 0xa0bf0e ∷ 0xa0c44c ∷ 0xa0dca7 ∷ 0xa0ed72 ∷ 0xa0f599 ∷ 0xa1007a
    ∷ 0xa11891 ∷ 0xa12944 ∷ 0xa131af ∷ 0xa14aed ∷ 0xa15206 ∷ 0xa163d3 ∷ 0xa17b38 ∷ 0xa18dbc
    ∷ 0xa19557 ∷ 0xa1a482 ∷ 0xa1bc69 ∷ 0xa1c72b ∷ 0xa1dfc0 ∷ 0xa1ee15 ∷ 0xa1f6fe ∷ 0xa205d0
    ∷ 0xa21d3b ∷ 0xa22cee ∷ 0xa23405 ∷ 0xa24f47 ∷ 0xa257ac ∷ 0xa26679 ∷ 0xa27e92 ∷ 0xa28816
    ∷ 0xa290fd ∷ 0xa2a128 ∷ 0xa2b9c3 ∷ 0xa2c281 ∷ 0xa2da6a ∷ 0xa2ebbf ∷ 0xa2f354 ∷ 0xa306b7
    ∷ 0xa31e5c ∷ 0xa32f89 ∷ 0xa33762 ∷ 0xa34c20 ∷ 0xa354cb ∷ 0xa3651e ∷ 0xa37df5 ∷ 0xa38b71
    ∷ 0xa3939a ∷ 0xa3a24f ∷ 0xa3baa4 ∷ 0xa3c1e6 ∷ 0xa3d90d ∷ 0xa3e8d8 ∷ 0xa3f033 ∷ 0xa40e84
    ∷ 0xa4166f ∷ 0xa427ba ∷ 0xa43f51 ∷ 0xa44413 ∷ 0xa45cf8 ∷ 0xa46d2d ∷ 0xa475c6 ∷ 0xa48342
    ∷ 0xa49ba9 ∷ 0xa4aa7c ∷ 0xa4b297 ∷ 0xa4c9d5 ∷ 0xa4d13e ∷ 0xa4e0eb ∷ 0xa4f800 ∷ 0xa50de3
    ∷ 0xa51508 ∷ 0xa524dd ∷ 0xa53c36 ∷ 0xa54774 ∷ 0xa55f9f ∷ 0xa56e4a ∷ 0xa576a1 ∷ 0xa58025
    ∷ 0xa598ce ∷ 0xa5a91b ∷ 0xa5b1f0 ∷ 0xa5cab2 ∷ 0xa5d259 ∷ 0xa5e38c ∷ 0xa5fb67 ∷ 0xa60849
    ∷ 0xa610a2 ∷ 0xa62177 ∷ 0xa6399c ∷ 0xa642de ∷ 0xa65a35 ∷ 0xa66be0 ∷ 0xa6730b ∷ 0xa6858f
    ∷ 0xa69d64 ∷ 0xa6acb1 ∷ 0xa6b45a ∷ 0xa6cf18 ∷ 0xa6d7f3 ∷ 0xa6e626 ∷ 0xa6fecd ∷ 0xa70b2e
    ∷ 0xa713c5 ∷ 0xa72210 ∷ 0xa73afb ∷ 0xa741b9 ∷ 0xa75952 ∷ 0xa76887 ∷ 0xa7706c ∷ 0xa786e8
    ∷ 0xa79e03 ∷ 0xa7afd6 ∷ 0xa7b73d ∷ 0xa7cc7f ∷ 0xa7d494 ∷ 0xa7e541 ∷ 0xa7fdaa ∷ 0xa800c7
    ∷ 0xa8182c ∷ 0xa829f9 ∷ 0xa83112 ∷ 0xa84a50 ∷ 0xa852bb ∷ 0xa8636e ∷ 0xa87b85 ∷ 0xa88d01
    ∷ 0xa895ea ∷ 0xa8a43f ∷ 0xa8bcd4 ∷ 0xa8c796 ∷ 0xa8df7d ∷ 0xa8eea8 ∷ 0xa8f643 ∷ 0xa903a0
    ∷ 0xa91b4b ∷ 0xa92a9e ∷ 0xa93275 ∷ 0xa94937 ∷ 0xa951dc ∷ 0xa96009 ∷ 0xa978e2 ∷ 0xa98e66
    ∷ 0xa9968d ∷ 0xa9a758 ∷ 0xa9bfb3 ∷ 0xa9c4f1 ∷ 0xa9dc1a ∷ 0xa9edcf ∷ 0xa9f524 ∷ 0xaa060a
    ∷ 0xaa1ee1 ∷ 0xaa2f34 ∷ 0xaa37df ∷ 0xaa4c9d ∷ 0xaa5476 ∷ 0xaa65a3 ∷ 0xaa7d48 ∷ 0xaa8bcc
    ∷ 0xaa9327 ∷ 0xaaa2f2 ∷ 0xaaba19 ∷ 0xaac15b ∷ 0xaad9b0 ∷ 0xaae865 ∷ 0xaaf08e ∷ 0xab056d
    ∷ 0xab1d86 ∷ 0xab2c53 ∷ 0xab34b8 ∷ 0xab4ffa ∷ 0xab5711 ∷ 0xab66c4 ∷ 0xab7e2f ∷ 0xab88ab
    ∷ 0xab9040 ∷ 0xaba195 ∷ 0xabb97e ∷ 0xabc23c ∷ 0xabdad7 ∷ 0xabeb02 ∷ 0xabf3e9 ∷ 0xac0d5e
    ∷ 0xac15b5 ∷ 0xac2460 ∷ 0xac3c8b ∷ 0xac47c9 ∷ 0xac5f22 ∷ 0xac6ef7 ∷ 0xac761c ∷ 0xac8098
    ∷ 0xac9873 ∷ 0xaca9a6 ∷ 0xacb14d ∷ 0xacca0f ∷ 0xacd2e4 ∷ 0xace331 ∷ 0xacfbda ∷ 0xad0e39
    ∷ 0xad16d2 ∷ 0xad2707 ∷ 0xad3fec ∷ 0xad44ae ∷ 0xad5c45 ∷ 0xad6d90 ∷ 0xad757b ∷ 0xad83ff
    ∷ 0xad9b14 ∷ 0xadaac1 ∷ 0xadb22a ∷ 0xadc968 ∷ 0xadd183 ∷ 0xade056 ∷ 0xadf8bd ∷ 0xae0b93
    ∷ 0xae1378 ∷ 0xae22ad ∷ 0xae3a46 ∷ 0xae4104 ∷ 0xae59ef ∷ 0xae683a ∷ 0xae70d1 ∷ 0xae8655
    ∷ 0xae9ebe ∷ 0xaeaf6b ∷ 0xaeb780 ∷ 0xaeccc2 ∷ 0xaed429 ∷ 0xaee5fc ∷ 0xaefd17 ∷ 0xaf08f4
    ∷ 0xaf101f ∷ 0xaf21ca ∷ 0xaf3921 ∷ 0xaf4263 ∷ 0xaf5a88 ∷ 0xaf6b5d ∷ 0xaf73b6 ∷ 0xaf8532
    ∷ 0xaf9dd9 ∷ 0xafac0c ∷ 0xafb4e7 ∷ 0xafcfa5 ∷ 0xafd74e ∷ 0xafe69b ∷ 0xaffe70 ∷ 0xb004a9
    ∷ 0xb01c42 ∷ 0xb02d97 ∷ 0xb0357c ∷ 0xb04e3e ∷ 0xb056d5 ∷ 0xb06700 ∷ 0xb07feb ∷ 0xb0896f
    ∷ 0xb09184 ∷ 0xb0a051 ∷ 0xb0b8ba ∷ 0xb0c3f8 ∷ 0xb0db13 ∷ 0xb0eac6 ∷ 0xb0f22d ∷ 0xb107ce
    ∷ 0xb11f25 ∷ 0xb12ef0 ∷ 0xb1361b ∷ 0xb14d59 ∷ 0xb155b2 ∷ 0xb16467 ∷ 0xb17c8c ∷ 0xb18a08
    ∷ 0xb192e3 ∷ 0xb1a336 ∷ 0xb1bbdd ∷ 0xb1c09f ∷ 0xb1d874 ∷ 0xb1e9a1 ∷ 0xb1f14a ∷ 0xb20264
    ∷ 0xb21a8f ∷ 0xb22b5a ∷ 0xb233b1 ∷ 0xb248f3 ∷ 0xb25018 ∷ 0xb261cd ∷ 0xb27926 ∷ 0xb28fa2
    ∷ 0xb29749 ∷ 0xb2a69c ∷ 0xb2be77 ∷ 0xb2c535 ∷ 0xb2ddde ∷ 0xb2ec0b ∷ 0xb2f4e0 ∷ 0xb30103
    ∷ 0xb319e8 ∷ 0xb3283d ∷ 0xb330d6 ∷ 0xb34b94 ∷ 0xb3537f ∷ 0xb362aa ∷ 0xb37a41 ∷ 0xb38cc5
    ∷ 0xb3942e ∷ 0xb3a5fb ∷ 0xb3bd10 ∷ 0xb3c652 ∷ 0xb3deb9 ∷ 0xb3ef6c ∷ 0xb3f787 ∷ 0xb40930
    ∷ 0xb411db ∷ 0xb4200e ∷ 0xb438e5 ∷ 0xb443a7 ∷ 0xb45b4c ∷ 0xb46a99 ∷ 0xb47272 ∷ 0xb484f6
    ∷ 0xb49c1d ∷ 0xb4adc8 ∷ 0xb4b523 ∷ 0xb4ce61 ∷ 0xb4d68a ∷ 0xb4e75f ∷ 0xb4ffb4 ∷ 0xb50a57
    ∷ 0xb512bc ∷ 0xb52369 ∷ 0xb53b82 ∷ 0xb540c0 ∷ 0xb5582b ∷ 0xb569fe ∷ 0xb57115 ∷ 0xb58791
    ∷ 0xb59f7a ∷ 0xb5aeaf ∷ 0xb5b644 ∷ 0xb5cd06 ∷ 0xb5d5ed ∷ 0xb5e438 ∷ 0xb5fcd3 ∷ 0xb60ffd
    ∷ 0xb61716 ∷ 0xb626c3 ∷ 0xb63e28 ∷ 0xb6456a ∷ 0xb65d81 ∷ 0xb66c54 ∷ 0xb674bf ∷ 0xb6823b
    ∷ 0xb69ad0 ∷ 0xb6ab05 ∷ 0xb6b3ee ∷ 0xb6c8ac ∷ 0xb6d047 ∷ 0xb6e192 ∷ 0xb6f979 ∷ 0xb70c9a
    ∷ 0xb71471 ∷ 0xb725a4 ∷ 0xb73d4f ∷ 0xb7460d ∷ 0xb75ee6 ∷ 0xb76f33 ∷ 0xb777d8 ∷ 0xb7815c
    ∷ 0xb799b7 ∷ 0xb7a862 ∷ 0xb7b089 ∷ 0xb7cbcb ∷ 0xb7d320 ∷ 0xb7e2f5 ∷ 0xb7fa1e ∷ 0xb80773
    ∷ 0xb81f98 ∷ 0xb82e4d ∷ 0xb836a6 ∷ 0xb84de4 ∷ 0xb8550f ∷ 0xb864da ∷ 0xb87c31 ∷ 0xb88ab5
    ∷ 0xb8925e ∷ 0xb8a38b ∷ 0xb8bb60 ∷ 0xb8c022 ∷ 0xb8d8c9 ∷ 0xb8e91c ∷ 0xb8f1f7 ∷ 0xb90414
    ∷ 0xb91cff ∷ 0xb92d2a ∷ 0xb935c1 ∷ 0xb94e83 ∷ 0xb95668 ∷ 0xb967bd ∷ 0xb97f56 ∷ 0xb989d2
    ∷ 0xb99139 ∷ 0xb9a0ec ∷ 0xb9b807 ∷ 0xb9c345 ∷ 0xb9dbae ∷ 0xb9ea7b ∷ 0xb9f290 ∷ 0xba01be
    ∷ 0xba1955 ∷ 0xba2880 ∷ 0xba306b ∷ 0xba4b29 ∷ 0xba53c2 ∷ 0xba6217 ∷ 0xba7afc ∷ 0xba8c78
    ∷ 0xba9493 ∷ 0xbaa546 ∷ 0xbabdad ∷ 0xbac6ef ∷ 0xbade04 ∷ 0xbaefd1 ∷ 0xbaf73a ∷ 0xbb02d9
    ∷ 0xbb1a32 ∷ 0xbb2be7 ∷ 0xbb330c ∷ 0xbb484e ∷ 0xbb50a5 ∷ 0xbb6170 ∷ 0xbb799b ∷ 0xbb8f1f
    ∷ 0xbb97f4 ∷ 0xbba621 ∷ 0xbbbeca ∷ 0xbbc588 ∷ 0xbbdd63 ∷ 0xbbecb6 ∷ 0xbbf45d ∷ 0xbc0aea
    ∷ 0xbc1201 ∷ 0xbc23d4 ∷ 0xbc3b3f ∷ 0xbc407d ∷ 0xbc5896 ∷ 0xbc6943 ∷ 0xbc71a8 ∷ 0xbc872c
    ∷ 0xbc9fc7 ∷ 0xbcae12 ∷ 0xbcb6f9 ∷ 0xbccdbb ∷ 0xbcd550 ∷ 0xbce485 ∷ 0xbcfc6e ∷ 0xbd098d
    ∷ 0xbd1166 ∷ 0xbd20b3 ∷ 0xbd3858 ∷ 0xbd431a ∷ 0xbd5bf1 ∷ 0xbd6a24 ∷ 0xbd72cf ∷ 0xbd844b
    ∷ 0xbd9ca0 ∷ 0xbdad75 ∷ 0xbdb59e ∷ 0xbdcedc ∷ 0xbdd637 ∷ 0xbde7e2 ∷ 0xbdff09 ∷ 0xbe0c27
    ∷ 0xbe14cc ∷ 0xbe2519 ∷ 0xbe3df2 ∷ 0xbe46b0 ∷ 0xbe5e5b ∷ 0xbe6f8e ∷ 0xbe7765 ∷ 0xbe81e1
    ∷ 0xbe990a ∷ 0xbea8df ∷ 0xbeb034 ∷ 0xbecb76 ∷ 0xbed39d ∷ 0xbee248 ∷ 0xbefaa3 ∷ 0xbf0f40
    ∷ 0xbf17ab ∷ 0xbf267e ∷ 0xbf3e95 ∷ 0xbf45d7 ∷ 0xbf5d3c ∷ 0xbf6ce9 ∷ 0xbf7402 ∷ 0xbf8286
    ∷ 0xbf9a6d ∷ 0xbfabb8 ∷ 0xbfb353 ∷ 0xbfc811 ∷ 0xbfd0fa ∷ 0xbfe12f ∷ 0xbff9c4 ∷ 0xc00a4e
    ∷ 0xc012a5 ∷ 0xc02370 ∷ 0xc03b9b ∷ 0xc040d9 ∷ 0xc05832 ∷ 0xc069e7 ∷ 0xc0710c ∷ 0xc08788
    ∷ 0xc09f63 ∷ 0xc0aeb6 ∷ 0xc0b65d ∷ 0xc0cd1f ∷ 0xc0d5f4 ∷ 0xc0e421 ∷ 0xc0fcca ∷ 0xc10929
    ∷ 0xc111c2 ∷ 0xc12017 ∷ 0xc138fc ∷ 0xc143be ∷ 0xc15b55 ∷ 0xc16a80 ∷ 0xc1726b ∷ 0xc184ef
    ∷ 0xc19c04 ∷ 0xc1add1 ∷ 0xc1b53a ∷ 0xc1ce78 ∷ 0xc1d693 ∷ 0xc1e746 ∷ 0xc1ffad ∷ 0xc20c83
    ∷ 0xc21468 ∷ 0xc225bd ∷ 0xc23d56 ∷ 0xc24614 ∷ 0xc25eff ∷ 0xc26f2a ∷ 0xc277c1 ∷ 0xc28145
    ∷ 0xc299ae ∷ 0xc2a87b ∷ 0xc2b090 ∷ 0xc2cbd2 ∷ 0xc2d339 ∷ 0xc2e2ec ∷ 0xc2fa07 ∷ 0xc30fe4
    ∷ 0xc3170f ∷ 0xc326da ∷ 0xc33e31 ∷ 0xc34573 ∷ 0xc35d98 ∷ 0xc36c4d ∷ 0xc374a6 ∷ 0xc38222
    ∷ 0xc39ac9 ∷ 0xc3ab1c ∷ 0xc3b3f7 ∷ 0xc3c8b5 ∷ 0xc3d05e ∷ 0xc3e18b ∷ 0xc3f960 ∷ 0xc407d7
    ∷ 0xc41f3c ∷ 0xc42ee9 ∷ 0xc43602 ∷ 0xc44d40 ∷ 0xc455ab ∷ 0xc4647e ∷ 0xc47c95 ∷ 0xc48a11
    ∷ 0xc492fa ∷ 0xc4a32f ∷ 0xc4bbc4 ∷ 0xc4c086 ∷ 0xc4d86d ∷ 0xc4e9b8 ∷ 0xc4f153 ∷ 0xc504b0
    ∷ 0xc51c5b ∷ 0xc52d8e ∷ 0xc53565 ∷ 0xc54e27 ∷ 0xc556cc ∷ 0xc56719 ∷ 0xc57ff2 ∷ 0xc58976
    ∷ 0xc5919d ∷ 0xc5a048 ∷ 0xc5b8a3 ∷ 0xc5c3e1 ∷ 0xc5db0a ∷ 0xc5eadf ∷ 0xc5f234 ∷ 0xc6011a
    ∷ 0xc619f1 ∷ 0xc62824 ∷ 0xc630cf ∷ 0xc64b8d ∷ 0xc65366 ∷ 0xc662b3 ∷ 0xc67a58 ∷ 0xc68cdc
    ∷ 0xc69437 ∷ 0xc6a5e2 ∷ 0xc6bd09 ∷ 0xc6c64b ∷ 0xc6dea0 ∷ 0xc6ef75 ∷ 0xc6f79e ∷ 0xc7027d
    ∷ 0xc71a96 ∷ 0xc72b43 ∷ 0xc733a8 ∷ 0xc748ea ∷ 0xc75001 ∷ 0xc761d4 ∷ 0xc7793f ∷ 0xc78fbb
    ∷ 0xc79750 ∷ 0xc7a685 ∷ 0xc7be6e ∷ 0xc7c52c ∷ 0xc7ddc7 ∷ 0xc7ec12 ∷ 0xc7f4f9 ∷ 0xc80994
    ∷ 0xc8117f ∷ 0xc820aa ∷ 0xc83841 ∷ 0xc84303 ∷ 0xc85be8 ∷ 0xc86a3d ∷ 0xc872d6 ∷ 0xc88452
    ∷ 0xc89cb9 ∷ 0xc8ad6c ∷ 0xc8b587 ∷ 0xc8cec5 ∷ 0xc8d62e ∷ 0xc8e7fb ∷ 0xc8ff10 ∷ 0xc90af3
    ∷ 0xc91218 ∷ 0xc923cd ∷ 0xc93b26 ∷ 0xc94064 ∷ 0xc9588f ∷ 0xc9695a ∷ 0xc971b1 ∷ 0xc98735
    ∷ 0xc99fde ∷ 0xc9ae0b ∷ 0xc9b6e0 ∷ 0xc9cda2 ∷ 0xc9d549 ∷ 0xc9e49c ∷ 0xc9fc77 ∷ 0xca0f59
    ∷ 0xca17b2 ∷ 0xca2667 ∷ 0xca3e8c ∷ 0xca45ce ∷ 0xca5d25 ∷ 0xca6cf0 ∷ 0xca741b ∷ 0xca829f
    ∷ 0xca9a74 ∷ 0xcaaba1 ∷ 0xcab34a ∷ 0xcac808 ∷ 0xcad0e3 ∷ 0xcae136 ∷ 0xcaf9dd ∷ 0xcb0c3e
    ∷ 0xcb14d5 ∷ 0xcb2500 ∷ 0xcb3deb ∷ 0xcb46a9 ∷ 0xcb5e42 ∷ 0xcb6f97 ∷ 0xcb777c ∷ 0xcb81f8
    ∷ 0xcb9913 ∷ 0xcba8c6 ∷ 0xcbb02d ∷ 0xcbcb6f ∷ 0xcbd384 ∷ 0xcbe251 ∷ 0xcbfaba ∷ 0xcc040d
    ∷ 0xcc1ce6 ∷ 0xcc2d33 ∷ 0xcc35d8 ∷ 0xcc4e9a ∷ 0xcc5671 ∷ 0xcc67a4 ∷ 0xcc7f4f ∷ 0xcc89cb
    ∷ 0xcc9120 ∷ 0xcca0f5 ∷ 0xccb81e ∷ 0xccc35c ∷ 0xccdbb7 ∷ 0xccea62 ∷ 0xccf289 ∷ 0xcd076a
    ∷ 0xcd1f81 ∷ 0xcd2e54 ∷ 0xcd36bf ∷ 0xcd4dfd ∷ 0xcd5516 ∷ 0xcd64c3 ∷ 0xcd7c28 ∷ 0xcd8aac
    ∷ 0xcd9247 ∷ 0xcda392 ∷ 0xcdbb79 ∷ 0xcdc03b ∷ 0xcdd8d0 ∷ 0xcde905 ∷ 0xcdf1ee ∷ 0xce02c0
    ∷ 0xce1a2b ∷ 0xce2bfe ∷ 0xce3315 ∷ 0xce4857 ∷ 0xce50bc ∷ 0xce6169 ∷ 0xce7982 ∷ 0xce8f06
    ∷ 0xce97ed ∷ 0xcea638 ∷ 0xcebed3 ∷ 0xcec591 ∷ 0xcedd7a ∷ 0xceecaf ∷ 0xcef444 ∷ 0xcf01a7
    ∷ 0xcf194c ∷ 0xcf2899 ∷ 0xcf3072 ∷ 0xcf4b30 ∷ 0xcf53db ∷ 0xcf620e ∷ 0xcf7ae5 ∷ 0xcf8c61
    ∷ 0xcf948a ∷ 0xcfa55f ∷ 0xcfbdb4 ∷ 0xcfc6f6 ∷ 0xcfde1d ∷ 0xcfefc8 ∷ 0xcff723 ∷ 0xd00dfa
    ∷ 0xd01511 ∷ 0xd024c4 ∷ 0xd03c2f ∷ 0xd0476d ∷ 0xd05f86 ∷ 0xd06e53 ∷ 0xd076b8 ∷ 0xd0803c
    ∷ 0xd098d7 ∷ 0xd0a902 ∷ 0xd0b1e9 ∷ 0xd0caab ∷ 0xd0d240 ∷ 0xd0e395 ∷ 0xd0fb7e ∷ 0xd10e9d
    ∷ 0xd11676 ∷ 0xd127a3 ∷ 0xd13f48 ∷ 0xd1440a ∷ 0xd15ce1 ∷ 0xd16d34 ∷ 0xd175df ∷ 0xd1835b
    ∷ 0xd19bb0 ∷ 0xd1aa65 ∷ 0xd1b28e ∷ 0xd1c9cc ∷ 0xd1d127 ∷ 0xd1e0f2 ∷ 0xd1f819 ∷ 0xd20b37
    ∷ 0xd213dc ∷ 0xd22209 ∷ 0xd23ae2 ∷ 0xd241a0 ∷ 0xd2594b ∷ 0xd2689e ∷ 0xd27075 ∷ 0xd286f1
    ∷ 0xd29e1a ∷ 0xd2afcf ∷ 0xd2b724 ∷ 0xd2cc66 ∷ 0xd2d48d ∷ 0xd2e558 ∷ 0xd2fdb3 ∷ 0xd30850
    ∷ 0xd310bb ∷ 0xd3216e ∷ 0xd33985 ∷ 0xd342c7 ∷ 0xd35a2c ∷ 0xd36bf9 ∷ 0xd37312 ∷ 0xd38596
    ∷ 0xd39d7d ∷ 0xd3aca8 ∷ 0xd3b443 ∷ 0xd3cf01 ∷ 0xd3d7ea ∷ 0xd3e63f ∷ 0xd3fed4 ∷ 0xd40063
    ∷ 0xd41888 ∷ 0xd4295d ∷ 0xd431b6 ∷ 0xd44af4 ∷ 0xd4521f ∷ 0xd463ca ∷ 0xd47b21 ∷ 0xd48da5
    ∷ 0xd4954e ∷ 0xd4a49b ∷ 0xd4bc70 ∷ 0xd4c732 ∷ 0xd4dfd9 ∷ 0xd4ee0c ∷ 0xd4f6e7 ∷ 0xd50304
    ∷ 0xd51bef ∷ 0xd52a3a ∷ 0xd532d1 ∷ 0xd54993 ∷ 0xd55178 ∷ 0xd560ad ∷ 0xd57846 ∷ 0xd58ec2
    ∷ 0xd59629 ∷ 0xd5a7fc ∷ 0xd5bf17 ∷ 0xd5c455 ∷ 0xd5dcbe ∷ 0xd5ed6b ∷ 0xd5f580 ∷ 0xd606ae
    ∷ 0xd61e45 ∷ 0xd62f90 ∷ 0xd6377b ∷ 0xd64c39 ∷ 0xd654d2 ∷ 0xd66507 ∷ 0xd67dec ∷ 0xd68b68
    ∷ 0xd69383 ∷ 0xd6a256 ∷ 0xd6babd ∷ 0xd6c1ff ∷ 0xd6d914 ∷ 0xd6e8c1 ∷ 0xd6f02a ∷ 0xd705c9
    ∷ 0xd71d22 ∷ 0xd72cf7 ∷ 0xd7341c ∷ 0xd74f5e ∷ 0xd757b5 ∷ 0xd76660 ∷ 0xd77e8b ∷ 0xd7880f
    ∷ 0xd790e4 ∷ 0xd7a131 ∷ 0xd7b9da ∷ 0xd7c298 ∷ 0xd7da73 ∷ 0xd7eba6 ∷ 0xd7f34d ∷ 0xd80e20
    ∷ 0xd816cb ∷ 0xd8271e ∷ 0xd83ff5 ∷ 0xd844b7 ∷ 0xd85c5c ∷ 0xd86d89 ∷ 0xd87562 ∷ 0xd883e6
    ∷ 0xd89b0d ∷ 0xd8aad8 ∷ 0xd8b233 ∷ 0xd8c971 ∷ 0xd8d19a ∷ 0xd8e04f ∷ 0xd8f8a4 ∷ 0xd90d47
    ∷ 0xd915ac ∷ 0xd92479 ∷ 0xd93c92 ∷ 0xd947d0 ∷ 0xd95f3b ∷ 0xd96eee ∷ 0xd97605 ∷ 0xd98081
    ∷ 0xd9986a ∷ 0xd9a9bf ∷ 0xd9b154 ∷ 0xd9ca16 ∷ 0xd9d2fd ∷ 0xd9e328 ∷ 0xd9fbc3 ∷ 0xda08ed
    ∷ 0xda1006 ∷ 0xda21d3 ∷ 0xda3938 ∷ 0xda427a ∷ 0xda5a91 ∷ 0xda6b44 ∷ 0xda73af ∷ 0xda852b
    ∷ 0xda9dc0 ∷ 0xdaac15 ∷ 0xdab4fe ∷ 0xdacfbc ∷ 0xdad757 ∷ 0xdae682 ∷ 0xdafe69 ∷ 0xdb0b8a
    ∷ 0xdb1361 ∷ 0xdb22b4 ∷ 0xdb3a5f ∷ 0xdb411d ∷ 0xdb59f6 ∷ 0xdb6823 ∷ 0xdb70c8 ∷ 0xdb864c
    ∷ 0xdb9ea7 ∷ 0xdbaf72 ∷ 0xdbb799 ∷ 0xdbccdb ∷ 0xdbd430 ∷ 0xdbe5e5 ∷ 0xdbfd0e ∷ 0xdc03b9
    ∷ 0xdc1b52 ∷ 0xdc2a87 ∷ 0xdc326c ∷ 0xdc492e ∷ 0xdc51c5 ∷ 0xdc6010 ∷ 0xdc78fb ∷ 0xdc8e7f
    ∷ 0xdc9694 ∷ 0xdca741 ∷ 0xdcbfaa ∷ 0xdcc4e8 ∷ 0xdcdc03 ∷ 0xdcedd6 ∷ 0xdcf53d ∷ 0xdd00de
    ∷ 0xdd1835 ∷ 0xdd29e0 ∷ 0xdd310b ∷ 0xdd4a49 ∷ 0xdd52a2 ∷ 0xdd6377 ∷ 0xdd7b9c ∷ 0xdd8d18
    ∷ 0xdd95f3 ∷ 0xdda426 ∷ 0xddbccd ∷ 0xddc78f ∷ 0xdddf64 ∷ 0xddeeb1 ∷ 0xddf65a ∷ 0xde0574
    ∷ 0xde1d9f ∷ 0xde2c4a ∷ 0xde34a1 ∷ 0xde4fe3 ∷ 0xde5708 ∷ 0xde66dd ∷ 0xde7e36 ∷ 0xde88b2
    ∷ 0xde9059 ∷ 0xdea18c ∷ 0xdeb967 ∷ 0xdec225 ∷ 0xdedace ∷ 0xdeeb1b ∷ 0xdef3f0 ∷ 0xdf0613
    ∷ 0xdf1ef8 ∷ 0xdf2f2d ∷ 0xdf37c6 ∷ 0xdf4c84 ∷ 0xdf546f ∷ 0xdf65ba ∷ 0xdf7d51 ∷ 0xdf8bd5
    ∷ 0xdf933e ∷ 0xdfa2eb ∷ 0xdfba00 ∷ 0xdfc142 ∷ 0xdfd9a9 ∷ 0xdfe87c ∷ 0xdff097 ∷ 0xe00526
    ∷ 0xe01dcd ∷ 0xe02c18 ∷ 0xe034f3 ∷ 0xe04fb1 ∷ 0xe0575a ∷ 0xe0668f ∷ 0xe07e64 ∷ 0xe088e0
    ∷ 0xe0900b ∷ 0xe0a1de ∷ 0xe0b935 ∷ 0xe0c277 ∷ 0xe0da9c ∷ 0xe0eb49 ∷ 0xe0f3a2 ∷ 0xe10641
    ∷ 0xe11eaa ∷ 0xe12f7f ∷ 0xe13794 ∷ 0xe14cd6 ∷ 0xe1543d ∷ 0xe165e8 ∷ 0xe17d03 ∷ 0xe18b87
    ∷ 0xe1936c ∷ 0xe1a2b9 ∷ 0xe1ba52 ∷ 0xe1c110 ∷ 0xe1d9fb ∷ 0xe1e82e ∷ 0xe1f0c5 ∷ 0xe203eb
    ∷ 0xe21b00 ∷ 0xe22ad5 ∷ 0xe2323e ∷ 0xe2497c ∷ 0xe25197 ∷ 0xe26042 ∷ 0xe278a9 ∷ 0xe28e2d
    ∷ 0xe296c6 ∷ 0xe2a713 ∷ 0xe2bff8 ∷ 0xe2c4ba ∷ 0xe2dc51 ∷ 0xe2ed84 ∷ 0xe2f56f ∷ 0xe3008c
    ∷ 0xe31867 ∷ 0xe329b2 ∷ 0xe33159 ∷ 0xe34a1b ∷ 0xe352f0 ∷ 0xe36325 ∷ 0xe37bce ∷ 0xe38d4a
    ∷ 0xe395a1 ∷ 0xe3a474 ∷ 0xe3bc9f ∷ 0xe3c7dd ∷ 0xe3df36 ∷ 0xe3eee3 ∷ 0xe3f608 ∷ 0xe408bf
    ∷ 0xe41054 ∷ 0xe42181 ∷ 0xe4396a ∷ 0xe44228 ∷ 0xe45ac3 ∷ 0xe46b16 ∷ 0xe473fd ∷ 0xe48579
    ∷ 0xe49d92 ∷ 0xe4ac47 ∷ 0xe4b4ac ∷ 0xe4cfee ∷ 0xe4d705 ∷ 0xe4e6d0 ∷ 0xe4fe3b ∷ 0xe50bd8
    ∷ 0xe51333 ∷ 0xe522e6 ∷ 0xe53a0d ∷ 0xe5414f ∷ 0xe559a4 ∷ 0xe56871 ∷ 0xe5709a ∷ 0xe5861e
    ∷ 0xe59ef5 ∷ 0xe5af20 ∷ 0xe5b7cb ∷ 0xe5cc89 ∷ 0xe5d462 ∷ 0xe5e5b7 ∷ 0xe5fd5c ∷ 0xe60e72
    ∷ 0xe61699 ∷ 0xe6274c ∷ 0xe63fa7 ∷ 0xe644e5 ∷ 0xe65c0e ∷ 0xe66ddb ∷ 0xe67530 ∷ 0xe683b4
    ∷ 0xe69b5f ∷ 0xe6aa8a ∷ 0xe6b261 ∷ 0xe6c923 ∷ 0xe6d1c8 ∷ 0xe6e01d ∷ 0xe6f8f6 ∷ 0xe70d15
    ∷ 0xe715fe ∷ 0xe7242b ∷ 0xe73cc0 ∷ 0xe74782 ∷ 0xe75f69 ∷ 0xe76ebc ∷ 0xe77657 ∷ 0xe780d3
    ∷ 0xe79838 ∷ 0xe7a9ed ∷ 0xe7b106 ∷ 0xe7ca44 ∷ 0xe7d2af ∷ 0xe7e37a ∷ 0xe7fb91 ∷ 0xe806fc
    ∷ 0xe81e17 ∷ 0xe82fc2 ∷ 0xe83729 ∷ 0xe84c6b ∷ 0xe85480 ∷ 0xe86555 ∷ 0xe87dbe ∷ 0xe88b3a
    ∷ 0xe893d1 ∷ 0xe8a204 ∷ 0xe8baef ∷ 0xe8c1ad ∷ 0xe8d946 ∷ 0xe8e893 ∷ 0xe8f078 ∷ 0xe9059b
    ∷ 0xe91d70 ∷ 0xe92ca5 ∷ 0xe9344e ∷ 0xe94f0c ∷ 0xe957e7 ∷ 0xe96632 ∷ 0xe97ed9 ∷ 0xe9885d
    ∷ 0xe990b6 ∷ 0xe9a163 ∷ 0xe9b988 ∷ 0xe9c2ca ∷ 0xe9da21 ∷ 0xe9ebf4 ∷ 0xe9f31f ∷ 0xea0031
    ∷ 0xea18da ∷ 0xea290f ∷ 0xea31e4 ∷ 0xea4aa6 ∷ 0xea524d ∷ 0xea6398 ∷ 0xea7b73 ∷ 0xea8df7
    ∷ 0xea951c ∷ 0xeaa4c9 ∷ 0xeabc22 ∷ 0xeac760 ∷ 0xeadf8b ∷ 0xeaee5e ∷ 0xeaf6b5 ∷ 0xeb0356
    ∷ 0xeb1bbd ∷ 0xeb2a68 ∷ 0xeb3283 ∷ 0xeb49c1 ∷ 0xeb512a ∷ 0xeb60ff ∷ 0xeb7814 ∷ 0xeb8e90
    ∷ 0xeb967b ∷ 0xeba7ae ∷ 0xebbf45 ∷ 0xebc407 ∷ 0xebdcec ∷ 0xebed39 ∷ 0xebf5d2 ∷ 0xec0b65
    ∷ 0xec138e ∷ 0xec225b ∷ 0xec3ab0 ∷ 0xec41f2 ∷ 0xec5919 ∷ 0xec68cc ∷ 0xec7027 ∷ 0xec86a3
    ∷ 0xec9e48 ∷ 0xecaf9d ∷ 0xecb776 ∷ 0xeccc34 ∷ 0xecd4df ∷ 0xece50a ∷ 0xecfde1 ∷ 0xed0802
    ∷ 0xed10e9 ∷ 0xed213c ∷ 0xed39d7 ∷ 0xed4295 ∷ 0xed5a7e ∷ 0xed6bab ∷ 0xed7340 ∷ 0xed85c4
    ∷ 0xed9d2f ∷ 0xedacfa ∷ 0xedb411 ∷ 0xedcf53 ∷ 0xedd7b8 ∷ 0xede66d ∷ 0xedfe86 ∷ 0xee0da8
    ∷ 0xee1543 ∷ 0xee2496 ∷ 0xee3c7d ∷ 0xee473f ∷ 0xee5fd4 ∷ 0xee6e01 ∷ 0xee76ea ∷ 0xee806e
    ∷ 0xee9885 ∷ 0xeea950 ∷ 0xeeb1bb ∷ 0xeecaf9 ∷ 0xeed212 ∷ 0xeee3c7 ∷ 0xeefb2c ∷ 0xef0ecf
    ∷ 0xef1624 ∷ 0xef27f1 ∷ 0xef3f1a ∷ 0xef4458 ∷ 0xef5cb3 ∷ 0xef6d66 ∷ 0xef758d ∷ 0xef8309
    ∷ 0xef9be2 ∷ 0xefaa37 ∷ 0xefb2dc ∷ 0xefc99e ∷ 0xefd175 ∷ 0xefe0a0 ∷ 0xeff84b ∷ 0xf00292
    ∷ 0xf01a79 ∷ 0xf02bac ∷ 0xf03347 ∷ 0xf04805 ∷ 0xf050ee ∷ 0xf0613b ∷ 0xf079d0 ∷ 0xf08f54
    ∷ 0xf097bf ∷ 0xf0a66a ∷ 0xf0be81 ∷ 0xf0c5c3 ∷ 0xf0dd28 ∷ 0xf0ecfd ∷ 0xf0f416 ∷ 0xf101f5
    ∷ 0xf1191e ∷ 0xf128cb ∷ 0xf13020 ∷ 0xf14b62 ∷ 0xf15389 ∷ 0xf1625c ∷ 0xf17ab7 ∷ 0xf18c33
    ∷ 0xf194d8 ∷ 0xf1a50d ∷ 0xf1bde6 ∷ 0xf1c6a4 ∷ 0xf1de4f ∷ 0xf1ef9a ∷ 0xf1f771 ∷ 0xf2045f
    ∷ 0xf21cb4 ∷ 0xf22d61 ∷ 0xf2358a ∷ 0xf24ec8 ∷ 0xf25623 ∷ 0xf267f6 ∷ 0xf27f1d ∷ 0xf28999
    ∷ 0xf29172 ∷ 0xf2a0a7 ∷ 0xf2b84c ∷ 0xf2c30e ∷ 0xf2dbe5 ∷ 0xf2ea30 ∷ 0xf2f2db ∷ 0xf30738
    ∷ 0xf31fd3 ∷ 0xf32e06 ∷ 0xf336ed ∷ 0xf34daf ∷ 0xf35544 ∷ 0xf36491 ∷ 0xf37c7a ∷ 0xf38afe
    ∷ 0xf39215 ∷ 0xf3a3c0 ∷ 0xf3bb2b ∷ 0xf3c069 ∷ 0xf3d882 ∷ 0xf3e957 ∷ 0xf3f1bc ∷ 0xf40f0b
    ∷ 0xf417e0 ∷ 0xf42635 ∷ 0xf43ede ∷ 0xf4459c ∷ 0xf45d77 ∷ 0xf46ca2 ∷ 0xf47449 ∷ 0xf482cd
    ∷ 0xf49a26 ∷ 0xf4abf3 ∷ 0xf4b318 ∷ 0xf4c85a ∷ 0xf4d0b1 ∷ 0xf4e164 ∷ 0xf4f98f ∷ 0xf50c6c
    ∷ 0xf51487 ∷ 0xf52552 ∷ 0xf53db9 ∷ 0xf546fb ∷ 0xf55e10 ∷ 0xf56fc5 ∷ 0xf5772e ∷ 0xf581aa
    ∷ 0xf59941 ∷ 0xf5a894 ∷ 0xf5b07f ∷ 0xf5cb3d ∷ 0xf5d3d6 ∷ 0xf5e203 ∷ 0xf5fae8 ∷ 0xf609c6
    ∷ 0xf6112d ∷ 0xf620f8 ∷ 0xf63813 ∷ 0xf64351 ∷ 0xf65bba ∷ 0xf66a6f ∷ 0xf67284 ∷ 0xf68400
    ∷ 0xf69ceb ∷ 0xf6ad3e ∷ 0xf6b5d5 ∷ 0xf6ce97 ∷ 0xf6d67c ∷ 0xf6e7a9 ∷ 0xf6ff42 ∷ 0xf70aa1
    ∷ 0xf7124a ∷ 0xf7239f ∷ 0xf73b74 ∷ 0xf74036 ∷ 0xf758dd ∷ 0xf76908 ∷ 0xf771e3 ∷ 0xf78767
    ∷ 0xf79f8c ∷ 0xf7ae59 ∷ 0xf7b6b2 ∷ 0xf7cdf0 ∷ 0xf7d51b ∷ 0xf7e4ce ∷ 0xf7fc25 ∷ 0xf80148
    ∷ 0xf819a3 ∷ 0xf82876 ∷ 0xf8309d ∷ 0xf84bdf ∷ 0xf85334 ∷ 0xf862e1 ∷ 0xf87a0a ∷ 0xf88c8e
    ∷ 0xf89465 ∷ 0xf8a5b0 ∷ 0xf8bd5b ∷ 0xf8c619 ∷ 0xf8def2 ∷ 0xf8ef27 ∷ 0xf8f7cc ∷ 0xf9022f
    ∷ 0xf91ac4 ∷ 0xf92b11 ∷ 0xf933fa ∷ 0xf948b8 ∷ 0xf95053 ∷ 0xf96186 ∷ 0xf9796d ∷ 0xf98fe9
    ∷ 0xf99702 ∷ 0xf9a6d7 ∷ 0xf9be3c ∷ 0xf9c57e ∷ 0xf9dd95 ∷ 0xf9ec40 ∷ 0xf9f4ab ∷ 0xfa0785
    ∷ 0xfa1f6e ∷ 0xfa2ebb ∷ 0xfa3650 ∷ 0xfa4d12 ∷ 0xfa55f9 ∷ 0xfa642c ∷ 0xfa7cc7 ∷ 0xfa8a43
    ∷ 0xfa92a8 ∷ 0xfaa37d ∷ 0xfabb96 ∷ 0xfac0d4 ∷ 0xfad83f ∷ 0xfae9ea ∷ 0xfaf101 ∷ 0xfb04e2
    ∷ 0xfb1c09 ∷ 0xfb2ddc ∷ 0xfb3537 ∷ 0xfb4e75 ∷ 0xfb569e ∷ 0xfb674b ∷ 0xfb7fa0 ∷ 0xfb8924
    ∷ 0xfb91cf ∷ 0xfba01a ∷ 0xfbb8f1 ∷ 0xfbc3b3 ∷ 0xfbdb58 ∷ 0xfbea8d ∷ 0xfbf266 ∷ 0xfc0cd1
    ∷ 0xfc143a ∷ 0xfc25ef ∷ 0xfc3d04 ∷ 0xfc4646 ∷ 0xfc5ead ∷ 0xfc6f78 ∷ 0xfc7793 ∷ 0xfc8117
    ∷ 0xfc99fc ∷ 0xfca829 ∷ 0xfcb0c2 ∷ 0xfccb80 ∷ 0xfcd36b ∷ 0xfce2be ∷ 0xfcfa55 ∷ 0xfd0fb6
    ∷ 0xfd175d ∷ 0xfd2688 ∷ 0xfd3e63 ∷ 0xfd4521 ∷ 0xfd5dca ∷ 0xfd6c1f ∷ 0xfd74f4 ∷ 0xfd8270
    ∷ 0xfd9a9b ∷ 0xfdab4e ∷ 0xfdb3a5 ∷ 0xfdc8e7 ∷ 0xfdd00c ∷ 0xfde1d9 ∷ 0xfdf932 ∷ 0xfe0a1c
    ∷ 0xfe12f7 ∷ 0xfe2322 ∷ 0xfe3bc9 ∷ 0xfe408b ∷ 0xfe5860 ∷ 0xfe69b5 ∷ 0xfe715e ∷ 0xfe87da
    ∷ 0xfe9f31 ∷ 0xfeaee4 ∷ 0xfeb60f ∷ 0xfecd4d ∷ 0xfed5a6 ∷ 0xfee473 ∷ 0xfefc98 ∷ 0xff097b
    ∷ 0xff1190 ∷ 0xff2045 ∷ 0xff38ae ∷ 0xff43ec ∷ 0xff5b07 ∷ 0xff6ad2 ∷ 0xff7239 ∷ 0xff84bd
    ∷ 0xff9c56 ∷ 0xffad83 ∷ 0xffb568 ∷ 0xffce2a ∷ 0xffd6c1 ∷ 0xffe714 ∷ 0xffffff ∷ []
