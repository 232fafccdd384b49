-- ===== src/Hbp/Embedded.antt =====
-- hbp/dmr_hbp.c: the link control that voice frames carry in four parts, and the EMB field.
-- `emb_raw` is the global that `encode_embedded_data` fills and the later frames read.
pub mod Read
use adn_bridge.Prelude.{
  ℕ, zero, suc, ◌+◌, ◌-◌, ◌*◌, ◌%◌, ◌==◌, ltb, leb, ◌&&◌, bit_and, bit_or, ◌>>>◌, ◌<<<◌, u8, Bool,
  false, List, [], ◌∷◌, ◌++◌, get_or, set, take, drop, replicate, if◌then◌else◌,
}
use mathlib.Core.Bool.{xor}
use adn_bridge.Hbp.Tables.{encoding_table_1676}
use adn_bridge.Hbp.Bits.{byte_to_bits, bits_to_byte, at, copy_run, encode16114, ◌^^◌}
use adn_bridge.Hbp.Bptc.{to_bits}

-- lc_get_data, of nine zero bytes
unfoldable pub lc_get_data : ℕ → ℕ → List ℕ
lc_get_data tx_tgid rx_srcid =
    0
    ∷ 0
    ∷ 0
    ∷ u8 (tx_tgid >>> 16)
    ∷ u8 (tx_tgid >>> 8)
    ∷ u8 (tx_tgid >>> 0)
    ∷ u8 (rx_srcid >>> 16)
    ∷ u8 (rx_srcid >>> 8)
    ∷ u8 (rx_srcid >>> 0)
    ∷ []

-- lc_get_data_bits
unfoldable pub lc_get_data_bits : ℕ → ℕ → List Bool
unfolding lc_get_data byte_to_bits
lc_get_data_bits tx_tgid rx_srcid = to_bits 9 (lc_get_data tx_tgid rx_srcid)

-- The sum of the bytes of `emb_data`.
unfoldable pub emb_total : ℕ → ℕ → List Bool → ℕ → ℕ
unfolding bits_to_byte
emb_total zero i bits total = total
emb_total (suc n) i bits total = emb_total n (i + 8) bits (total + bits_to_byte bits i)

unfoldable pub emb_rows : ℕ → ℕ → List Bool → List Bool
unfolding encode16114
emb_rows zero a d = d
emb_rows (suc n) a d = emb_rows n (a + 16) (encode16114 a d)

unfoldable pub emb_parity_row : ℕ → ℕ → List Bool → List Bool
unfolding xor
emb_parity_row zero a d = d
emb_parity_row (suc n) a d = emb_parity_row n (a + 1) (
    set d (a + 112) (
      at d (a + 0)
      ^^ at d (a + 16)
      ^^ at d (a + 32)
      ^^ at d (a + 48)
      ^^ at d (a + 64)
      ^^ at d (a + 80)
      ^^ at d (a + 96)))

-- emb_raw reads the square by columns.
unfoldable pub emb_transpose : ℕ → ℕ → List Bool → List Bool
emb_transpose zero b d = []
emb_transpose (suc n) b d =
    at d b ∷ emb_transpose n (if ltb 127 (b + 16) then b + 16 - 127 else b + 16) d

-- The 128-bit square of the link control and its five checksum bits, before parity.
unfoldable pub emb_square : List Bool → List Bool
unfolding emb_total copy_run
emb_square emb_data =
    let crc = emb_total 9 0 emb_data 0 % 31 in
    let c0 = set (replicate 128 false) 106 (bit_and crc 0x01 == 0x01) in
    let c1 = set c0 90 (bit_and crc 0x02 == 0x02) in
    let c2 = set c1 74 (bit_and crc 0x04 == 0x04) in
    let c3 = set c2 58 (bit_and crc 0x08 == 0x08) in
    let c4 = set c3 42 (bit_and crc 0x10 == 0x10) in
    let d0 = copy_run 11 0 0 emb_data c4 in
    let d1 = copy_run 11 16 11 emb_data d0 in
    let d2 = copy_run 10 32 22 emb_data d1 in
    let d3 = copy_run 10 48 32 emb_data d2 in
    let d4 = copy_run 10 64 42 emb_data d3 in
    let d5 = copy_run 10 80 52 emb_data d4 in copy_run 10 96 62 emb_data d5

-- encode_embedded_data: the new `emb_raw`
unfoldable pub encode_embedded_data : ℕ → ℕ → List Bool
unfolding lc_get_data_bits emb_square emb_rows emb_parity_row emb_transpose
encode_embedded_data tx_tgid rx_srcid =
    let square = emb_square (lc_get_data_bits tx_tgid rx_srcid) in
    emb_transpose 128 0 (emb_parity_row 16 0 (emb_rows 7 0 square))

-- get_embedded_data: the burst with part `n` of `emb_raw` (none for another `n`), and the LCSS
unfoldable pub get_embedded_data : List Bool → List ℕ → ℕ → List ℕ × ℕ
unfolding bits_to_byte
get_embedded_data emb_raw d n =
    if leb 1 n && ltb n 5
    then (let m = n - 1 in
        let bits = replicate 4 false ++ take 32 (drop (m * 32) emb_raw) ++ replicate 4 false in
        let d14 =
          set d 14 (bit_or (bit_and (get_or d 14 0) 0xf0) (bit_and (bits_to_byte bits 0) 0x0f)) in
        let d15 = set d14 15 (bits_to_byte bits 8) in
        let d16 = set d15 16 (bits_to_byte bits 16) in
        let d17 = set d16 17 (bits_to_byte bits 24) in
        let d18 =
          set d17 18
            (bit_or (bit_and (get_or d17 18 0) 0x0f) (bit_and (bits_to_byte bits 32) 0xf0)) in
        (d18, if m == 0 then 1 else if m == 3 then 2 else 3))
    else (let d14 = set d 14 (bit_and (get_or d 14 0) 0xf0) in
        let d17 = set (set (set d14 15 0) 16 0) 17 0 in
        (set d17 18 (bit_and (get_or d17 18 0) 0x0f), 0))

-- encode_qr1676, of the first byte
unfoldable pub encode_qr1676 : ℕ → ℕ × ℕ
unfolding encoding_table_1676
encode_qr1676 d0 =
    let cksum = get_or encoding_table_1676 (bit_and (d0 >>> 1) 0x7f) 0 in
    (u8 (cksum >>> 8), bit_and cksum 0xff)

-- get_emb_data
unfoldable pub get_emb_data : List ℕ → ℕ → List ℕ
unfolding encode_qr1676
get_emb_data d lcss =
    let (e0, e1) = encode_qr1676 (bit_or (bit_and (1 <<< 4) 0xf0) (bit_and (lcss <<< 1) 0x06)) in
    let d13 = set d 13 (bit_or (bit_and (get_or d 13 0) 0xf0) (bit_and (e0 >>> 4) 0x0f)) in
    let d14 = set d13 14 (bit_or (bit_and (get_or d13 14 0) 0x0f) (bit_and (e0 <<< 4) 0xf0)) in
    let d18 = set d14 18 (bit_or (bit_and (get_or d14 18 0) 0xf0) (bit_and (e1 >>> 4) 0x0f)) in
    set d18 19 (bit_or (bit_and (get_or d18 19 0) 0x0f) (bit_and (e1 <<< 4) 0xf0))
