-- ===== src/Fich/Frame.antt =====
-- ysf_fich.c: fich_encode and fich_decode, between the six bytes of m_fich and the 25 bytes of a
-- frame. An array that the C code leaves uninitialised is an argument, `scratch`.
pub mod Words12
pub mod Interleave
pub mod Arrays
pub mod RoundTrip
use adn_bridge.Fich.Tables.Small.{ccitt16_table2, interleave_table}
use adn_bridge.Fich.Golay.{encode24128, decode24128}
use adn_bridge.Fich.Bits.{read_bit, write_bit}
use adn_bridge.Fich.Convolution.{
  Viterbi, bit, convolution_encode, convolution_decode, convolution_chainback,
}
use adn_bridge.Prelude.{
  get_or, List, ℕ, ◌∷◌, u16, bit_or, bit_and, ◌+◌, [], replicate, bit_xor, ◌-◌, ◌<<<◌, ◌>>>◌, u8,
  take, set,
}

-- The loop of addCCITT162, on the bytes that the checksum covers.
unfoldable pub crc_loop : List ℕ → ℕ → ℕ
crc_loop [] c = c
crc_loop (x ∷ xs) c =
    crc_loop xs (bit_xor (u16 (u8 c <<< 8)) (get_or ccitt16_table2 (bit_xor (u8 (c >>> 8)) x) 0))

-- addCCITT162
unfoldable pub add_ccitt162 : List ℕ → ℕ → List ℕ
add_ccitt162 xs n =
    let c = u16 (65535 - crc_loop (take (n - 2) xs) 0) in
    set (set xs (n - 1) (u8 c)) (n - 2) (u8 (c >>> 8))

-- The twelve bits of b0 and of b2, and those of b1 and of b3.
unfoldable pub upper_word : ℕ → ℕ → ℕ
upper_word x y = bit_or (bit_and (x <<< 4) 0xFF0) (bit_and (y >>> 4) 0x00F)

unfoldable pub lower_word : ℕ → ℕ → ℕ
lower_word y z = bit_or (bit_and (y <<< 8) 0xF00) (bit_and (z >>> 0) 0x0FF)

-- The three bytes of a codeword, before `rest`.
unfoldable pub codeword_bytes : ℕ → List ℕ → List ℕ
codeword_bytes c rest =
    bit_and (c >>> 16) 0xFF ∷ bit_and (c >>> 8) 0xFF ∷ bit_and (c >>> 0) 0xFF ∷ rest

-- `conv`, of four words of twelve bits
unfoldable pub conv_bytes : ℕ → ℕ → ℕ → ℕ → List ℕ
conv_bytes b0 b1 b2 b3 = codeword_bytes (encode24128 b0) (
    codeword_bytes (encode24128 b1)
      (codeword_bytes (encode24128 b2) (codeword_bytes (encode24128 b3) (0x00 ∷ []))))

unfoldable pub fich_conv : List ℕ → List ℕ
fich_conv fich =
    let b0 = upper_word (get_or fich 0 0) (get_or fich 1 0) in
    let b1 = lower_word (get_or fich 1 0) (get_or fich 2 0) in
    let b2 = upper_word (get_or fich 3 0) (get_or fich 4 0) in
    let b3 = lower_word (get_or fich 4 0) (get_or fich 5 0) in conv_bytes b0 b1 b2 b3

-- The loop at the end of fich_encode: from bit `j` of `convolved` to the places of the table.
unfoldable pub scatter : List ℕ → ℕ → List ℕ → List ℕ → List ℕ
scatter [] j convolved bytes = bytes
scatter (n ∷ ns) j convolved bytes =
    let s0 = read_bit convolved j in
    let s1 = read_bit convolved (j + 1) in
    scatter ns (j + 2) convolved (write_bit (write_bit bytes n s0) (n + 1) s1)

-- fich_encode: m_fich with its checksum, and the bytes of the frame
unfoldable pub fich_encode : List ℕ → List ℕ → List ℕ → List ℕ × List ℕ
fich_encode fich scratch bytes =
    let fich' = add_ccitt162 fich 6 in
    let convolved = convolution_encode (fich_conv fich') scratch 100 in
    (fich', scatter interleave_table 0 convolved bytes)

-- The loop of fich_decode
unfoldable pub gather : List ℕ → Viterbi → List ℕ → Viterbi
gather [] v bytes = v
gather (n ∷ ns) v bytes =
    let s0 = bit (read_bit bytes n) in
    let s1 = bit (read_bit bytes (n + 1)) in gather ns (convolution_decode v s0 s1) bytes

-- decode24128(output + k)
unfoldable pub word_at : List ℕ → ℕ → ℕ
word_at output k =
    decode24128 (get_or output k 0) (get_or output (k + 1) 0) (get_or output (k + 2) 0)

-- The three bytes of m_fich that two words of twelve bits make up.
unfoldable pub fich_bytes : ℕ → ℕ → List ℕ → List ℕ
fich_bytes b0 b1 rest =
    bit_and (b0 >>> 4) 0xFF
    ∷ bit_or (bit_and (b0 <<< 4) 0xF0) (bit_and (b1 >>> 8) 0x0F)
    ∷ bit_and (b1 >>> 0) 0xFF
    ∷ rest

-- The end of fich_decode
unfoldable pub fich_words : List ℕ → List ℕ
fich_words output =
    fich_bytes (word_at output 0) (word_at output 3)
      (fich_bytes (word_at output 6) (word_at output 9) [])

-- fich_decode: what it leaves in m_fich
unfoldable pub fich_decode : List ℕ → List ℕ → List ℕ
fich_decode scratch bytes =
    let start : Viterbi = record { metrics = replicate 16 0; decisions = [] } in
    fich_words (convolution_chainback (gather interleave_table start bytes) scratch 96)
