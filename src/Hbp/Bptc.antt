-- ===== src/Hbp/Bptc.antt =====
-- hbp/dmr_hbp.c: the block product turbo code of the data-sync bursts.
-- The globals bptc_deInterData and bptc_rawData are filled anew by each call, so they are values.
pub mod Read
use adn_bridge.Prelude.{
  ℕ, zero, suc, ◌+◌, ◌*◌, ◌%◌, bit_and, bit_or, ◌>>>◌, Bool, false, List, [], ◌∷◌, ◌++◌, get_or,
  set, replicate,
}
use adn_bridge.Hbp.Bits.{
  byte_to_bits, bits_to_byte, at, copy_run, hamming_encode15113_2, hamming_encode1393,
}

-- The 96 bits of the twelve bytes, in order.
abbrev pub to_bits : ℕ → List ℕ → List Bool
unfolding byte_to_bits
to_bits zero bytes = []
to_bits (suc n) [] = []
to_bits (suc n) (x ∷ xs) = byte_to_bits x ++ to_bits n xs

-- The nine runs of payload bits, each behind the parity columns of the row before.
unfoldable pub bptc_extract : List Bool → List Bool
unfolding copy_run
bptc_extract b_data =
    let d0 = copy_run 8 4 0 b_data (replicate 196 false) in
    let d1 = copy_run 11 16 8 b_data d0 in
    let d2 = copy_run 11 31 19 b_data d1 in
    let d3 = copy_run 11 46 30 b_data d2 in
    let d4 = copy_run 11 61 41 b_data d3 in
    let d5 = copy_run 11 76 52 b_data d4 in
    let d6 = copy_run 11 91 63 b_data d5 in
    let d7 = copy_run 11 106 74 b_data d6 in copy_run 11 121 85 b_data d7

-- `for (r = 0; r < 9; r++) hamming_encode15113_2(bptc_deInterData + r * 15 + 1);`
unfoldable pub bptc_rows : ℕ → ℕ → List Bool → List Bool
unfolding hamming_encode15113_2
bptc_rows zero r d = d
bptc_rows (suc n) r d = bptc_rows n (r + 1) (hamming_encode15113_2 (r * 15 + 1) d)

unfoldable pub read_column : ℕ → ℕ → List Bool → List Bool
read_column zero pos d = []
read_column (suc n) pos d = at d pos ∷ read_column n (pos + 15) d

unfoldable pub write_column : List Bool → ℕ → List Bool → List Bool
write_column [] pos d = d
write_column (b ∷ bs) pos d = write_column bs (pos + 15) (set d pos b)

unfoldable pub bptc_columns : ℕ → ℕ → List Bool → List Bool
unfolding read_column write_column hamming_encode1393
bptc_columns zero c d = d
bptc_columns (suc n) c d =
    bptc_columns n (c + 1) (write_column (hamming_encode1393 (read_column 13 (c + 1) d)) (c + 1) d)

-- `for (a = 0; a < 196; a++) raw[(a * 181) % 196] = deInter[a];`
unfoldable pub bptc_interleave : ℕ → ℕ → List Bool → List Bool → List Bool
bptc_interleave zero a d raw = raw
bptc_interleave (suc n) a d raw = bptc_interleave n (a + 1) d (set raw ((a * 181) % 196) (at d a))

-- `n` bytes of `out` from index `i` on, from the bits at `p`
unfoldable pub pack_run : ℕ → ℕ → ℕ → List Bool → List ℕ → List ℕ
unfolding bits_to_byte
pack_run zero i p raw out = out
pack_run (suc n) i p raw out = pack_run n (i + 1) (p + 8) raw (set out i (bits_to_byte raw p))

unfoldable pub bptc_pack : List Bool → List ℕ → List ℕ
unfolding bits_to_byte pack_run
bptc_pack raw out =
    let out1 = pack_run 12 0 0 raw out in
    let byte = bits_to_byte raw 96 in
    let out2 = set out1 12 (bit_or (bit_and (get_or out1 12 0) 0x3f) (bit_and (byte >>> 0) 0xc0)) in
    let out3 = set out2 20 (bit_or (bit_and (get_or out2 20 0) 0xfc) (bit_and (byte >>> 4) 0x03)) in
    pack_run 12 21 100 raw out3

-- The twelve bytes spread over the 196 bits of a burst: bptc_rawData.
unfoldable pub bptc_bits : List ℕ → List Bool
unfolding byte_to_bits bptc_extract bptc_rows bptc_columns bptc_interleave
bptc_bits input =
    let d0 = bptc_extract (to_bits 12 input) in
    let d1 = bptc_columns 15 0 (bptc_rows 9 0 d0) in bptc_interleave 196 0 d1 (replicate 196 false)

unfoldable pub bptc_encode : List ℕ → List ℕ → List ℕ
unfolding bptc_bits bptc_pack
bptc_encode input out = bptc_pack (bptc_bits input) out
