-- ===== src/Stage2/Kb/Maps.antt =====
-- The key code tables of stage2/16/kb.c, indexed by scan code.
use biefircate.Prelude.{ℕ, List, [], ◌∷◌}

abbrev pub no_shift_map : List ℕ
no_shift_map =
    0x0000 ∷ 0x011b ∷ 0x0231 ∷ 0x0332 ∷ 0x0433 ∷ 0x0534 ∷ 0x0635 ∷ 0x0736 ∷ 0x0837 ∷ 0x0938 ∷ 0x0a39
    ∷ 0x0b30 ∷ 0x0c2d ∷ 0x0d3d ∷ 0x0e08 ∷ 0x0f09 ∷ 0x1071 ∷ 0x1177 ∷ 0x1265 ∷ 0x1372 ∷ 0x1474
    ∷ 0x1579 ∷ 0x1675 ∷ 0x1769 ∷ 0x186f ∷ 0x1970 ∷ 0x1a5b ∷ 0x1b5d ∷ 0x1c0d ∷ 0x0000 ∷ 0x1e61
    ∷ 0x1f73 ∷ 0x2064 ∷ 0x2166 ∷ 0x2267 ∷ 0x2368 ∷ 0x246a ∷ 0x256b ∷ 0x266c ∷ 0x273b ∷ 0x2827
    ∷ 0x2960 ∷ 0x0000 ∷ 0x2b5c ∷ 0x2c7a ∷ 0x2d78 ∷ 0x2e63 ∷ 0x2f76 ∷ 0x3062 ∷ 0x316e ∷ 0x326d
    ∷ 0x332c ∷ 0x342e ∷ 0x352f ∷ 0x0000 ∷ 0x372a ∷ 0x0000 ∷ 0x3920 ∷ 0x0000 ∷ 0x3b00 ∷ 0x3c00
    ∷ 0x3d00 ∷ 0x3e00 ∷ 0x3f00 ∷ 0x4000 ∷ 0x4100 ∷ 0x4200 ∷ 0x4300 ∷ 0x4400 ∷ 0x0000 ∷ 0x0000
    ∷ 0x4700 ∷ 0x4800 ∷ 0x4900 ∷ 0x4a2d ∷ 0x4b00 ∷ 0x4c00 ∷ 0x4d00 ∷ 0x4e2b ∷ 0x4f00 ∷ 0x5000
    ∷ 0x5100 ∷ 0x5200 ∷ 0x5300 ∷ []

abbrev pub shift_map : List ℕ
shift_map =
    0x0000 ∷ 0x011b ∷ 0x0221 ∷ 0x0340 ∷ 0x0423 ∷ 0x0524 ∷ 0x0625 ∷ 0x075e ∷ 0x0826 ∷ 0x092a ∷ 0x0a28
    ∷ 0x0b29 ∷ 0x0c5f ∷ 0x0d2b ∷ 0x0e08 ∷ 0x0f00 ∷ 0x1051 ∷ 0x1157 ∷ 0x1245 ∷ 0x1352 ∷ 0x1454
    ∷ 0x1559 ∷ 0x1655 ∷ 0x1749 ∷ 0x184f ∷ 0x1950 ∷ 0x1a7b ∷ 0x1b7d ∷ 0x1c0d ∷ 0x0000 ∷ 0x1e41
    ∷ 0x1f53 ∷ 0x2044 ∷ 0x2146 ∷ 0x2247 ∷ 0x2348 ∷ 0x244a ∷ 0x254b ∷ 0x264c ∷ 0x273a ∷ 0x2822
    ∷ 0x297e ∷ 0x0000 ∷ 0x2b7c ∷ 0x2c5a ∷ 0x2d58 ∷ 0x2e43 ∷ 0x2f56 ∷ 0x3042 ∷ 0x314e ∷ 0x324d
    ∷ 0x333c ∷ 0x343e ∷ 0x353f ∷ 0x0000 ∷ 0x0000 ∷ 0x0000 ∷ 0x3920 ∷ 0x0000 ∷ 0x5400 ∷ 0x5500
    ∷ 0x5600 ∷ 0x5700 ∷ 0x5800 ∷ 0x5900 ∷ 0x5a00 ∷ 0x5b00 ∷ 0x5c00 ∷ 0x5d00 ∷ 0x0000 ∷ 0x0000
    ∷ 0x4737 ∷ 0x4838 ∷ 0x4939 ∷ 0x4a2d ∷ 0x4b34 ∷ 0x4c35 ∷ 0x4d36 ∷ 0x4e2b ∷ 0x4f31 ∷ 0x5032
    ∷ 0x5133 ∷ 0x5230 ∷ 0x532e ∷ []

abbrev pub ctl_map : List ℕ
ctl_map =
    0x0000 ∷ 0x011b ∷ 0x0000 ∷ 0x0300 ∷ 0x0000 ∷ 0x0000 ∷ 0x0000 ∷ 0x071e ∷ 0x0000 ∷ 0x0000 ∷ 0x0000
    ∷ 0x0000 ∷ 0x0c1f ∷ 0x0000 ∷ 0x0e7f ∷ 0x9400 ∷ 0x1011 ∷ 0x1117 ∷ 0x1205 ∷ 0x1312 ∷ 0x1414
    ∷ 0x1519 ∷ 0x1615 ∷ 0x1709 ∷ 0x180f ∷ 0x1910 ∷ 0x1a1b ∷ 0x1b1d ∷ 0x1c0a ∷ 0x0000 ∷ 0x1e01
    ∷ 0x1f13 ∷ 0x2004 ∷ 0x2106 ∷ 0x2207 ∷ 0x2308 ∷ 0x240a ∷ 0x250b ∷ 0x260c ∷ 0x0000 ∷ 0x0000
    ∷ 0x0000 ∷ 0x0000 ∷ 0x2b1c ∷ 0x2c1a ∷ 0x2d18 ∷ 0x2e03 ∷ 0x2f16 ∷ 0x3002 ∷ 0x310e ∷ 0x320d
    ∷ 0x0000 ∷ 0x0000 ∷ 0x0000 ∷ 0x0000 ∷ 0x9600 ∷ 0x0000 ∷ 0x3920 ∷ 0x0000 ∷ 0x5e00 ∷ 0x5f00
    ∷ 0x6000 ∷ 0x6100 ∷ 0x6200 ∷ 0x6300 ∷ 0x6400 ∷ 0x6500 ∷ 0x6600 ∷ 0x6700 ∷ 0x0000 ∷ 0x0000
    ∷ 0x7700 ∷ 0x8d00 ∷ 0x8400 ∷ 0x8e00 ∷ 0x7300 ∷ 0x8f00 ∷ 0x7400 ∷ 0x0000 ∷ 0x7500 ∷ 0x9100
    ∷ 0x7600 ∷ 0x9200 ∷ 0x9300 ∷ []

abbrev pub alt_map : List ℕ
alt_map =
    0x00 ∷ 0x01 ∷ 0x78 ∷ 0x79 ∷ 0x7a ∷ 0x7b ∷ 0x7c ∷ 0x7d ∷ 0x7e ∷ 0x7f ∷ 0x80 ∷ 0x81 ∷ 0x82 ∷ 0x83
    ∷ 0x0e ∷ 0xa5 ∷ 0x10 ∷ 0x11 ∷ 0x12 ∷ 0x13 ∷ 0x14 ∷ 0x15 ∷ 0x16 ∷ 0x17 ∷ 0x18 ∷ 0x19 ∷ 0x1a
    ∷ 0x1b ∷ 0xa6 ∷ 0x00 ∷ 0x1e ∷ 0x1f ∷ 0x20 ∷ 0x21 ∷ 0x22 ∷ 0x23 ∷ 0x24 ∷ 0x25 ∷ 0x26 ∷ 0x27
    ∷ 0x28 ∷ 0x29 ∷ 0x00 ∷ 0x2b ∷ 0x2c ∷ 0x2d ∷ 0x2e ∷ 0x2f ∷ 0x30 ∷ 0x31 ∷ 0x32 ∷ 0x33 ∷ 0x34
    ∷ 0x35 ∷ 0x00 ∷ 0x37 ∷ 0x00 ∷ 0x39 ∷ 0x00 ∷ 0x68 ∷ 0x69 ∷ 0x6a ∷ 0x6b ∷ 0x6c ∷ 0x6d ∷ 0x6e
    ∷ 0x6f ∷ 0x70 ∷ 0x71 ∷ 0x00 ∷ 0x00 ∷ 0x97 ∷ 0x98 ∷ 0x99 ∷ 0x4a ∷ 0x9b ∷ 0x9c ∷ 0x9d ∷ 0x4e
    ∷ 0x9f ∷ 0xa0 ∷ 0xa1 ∷ 0xa2 ∷ 0xa3 ∷ []
