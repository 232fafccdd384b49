-- ===== src/Fich/Frame/RoundTrip.antt =====
-- What fich_encode puts into a frame, fich_decode takes out again.
use adn_bridge.Fich.Tables.Small.{interleave_table}
use adn_bridge.Fich.Golay.{encode24128, decode24128}
use adn_bridge.Fich.Golay.Codewords.{decode24128-encode24128}
use adn_bridge.Fich.Bits.{read_bit, read_bits, upto}
use adn_bridge.Fich.Bits.Laws.{read_bits-write_bits, get_or-IsBytes}
use adn_bridge.Fich.Bits.Bytes.{get_or-read_bit}
use adn_bridge.Fich.Convolution.{convolution_encode, convolution_chainback}
use adn_bridge.Fich.Convolution.Encoder.{code, length-code, encode_loop-code}
use adn_bridge.Fich.Convolution.Chainback.{at}
use adn_bridge.Fich.Convolution.Decode.{cleared, chainback-code}
use adn_bridge.Fich.Frame.{
  add_ccitt162, codeword_bytes, conv_bytes, fich_encode, fich_decode, word_at, fich_words,
  fich_bytes, gather, scatter, upper_word, lower_word, ℕ, List, ◌∷◌, bit_and, u8, fich_conv,
}
use adn_bridge.Fich.Frame.Words12.{upper_small, lower_small, fich_bytes-words}
use adn_bridge.Fich.Frame.Interleave.{
  places, gather_bits, scatter_bits, places_small, places-distinct, length-places, upto_small,
  upto-distinct,
}
use adn_bridge.Fich.Frame.Arrays.{
  convolution_chainback-IsBytes, conv_bytes-IsBytes, add_ccitt162-IsBytes, length-add_ccitt162,
  at-read_bits, length-read_bits, length-upto, six_elements,
}
use adn_bridge.Prelude.{
  false, get_or, ℕ, List, IsBytes, length, ◌<◌, arith, ◌≡◌, bit_and_mask, ◌∷◌, ◌+◌, ◌∙◌, ◌>>>◌, [],
  refl, ◌*◌, Bool, bit_and, u8, ◌≤◌, not, ◌^◌, ◌-◌, ◌==◌, ◌/◌, ◌%◌, zero-bit_and, sym,
}

table_twice : 2 * length interleave_table ≡ 200
unfolding interleave_table
table_twice = refl

-- The array `conv` of fich_encode, and the array `output` of fich_decode on the frame that carries
-- it.
module _ (conv scratch scratch' bytes : List ℕ) (hc : IsBytes conv)
    (h96 : at (read_bits (upto 0 100) conv) 96 ≡ false)
    (h97 : at (read_bits (upto 0 100) conv) 97 ≡ false)
    (h98 : at (read_bits (upto 0 100) conv) 98 ≡ false)
    (h99 : at (read_bits (upto 0 100) conv) 99 ≡ false) (hs : IsBytes scratch)
    (ls : length scratch ≡ 25) (hs' : IsBytes scratch') (ls' : length scratch' ≡ 13)
    (hb : IsBytes bytes) (lb : length bytes ≡ 25) where
  -- The 200 bits that are sent.
  abbrev sent : List Bool
  sent = code false false false false (read_bits (upto 0 100) conv)

  abbrev frame : List ℕ
  frame = scatter interleave_table 0 (convolution_encode conv scratch 100) bytes

  abbrev output : List ℕ
  output = convolution_chainback (gather interleave_table cleared frame) scratch' 96

  sent_length : length sent ≡ 200
  sent_length = omega (
    arith,
    length-code false false false false (read_bits (upto 0 100) conv),
    length-read_bits (upto 0 100) conv,
    length-upto 0 100,
  )

  convolved_bits : read_bits (upto 0 200) (convolution_encode conv scratch 100) ≡ sent
  unfolding convolution_encode
  convolved_bits = rw (encode_loop-code 100 0 0 false false false false conv scratch) (
      read_bits-write_bits (upto 0 200) sent scratch 200 hs (omega (arith, ls)) upto_small
        upto-distinct (omega (arith, length-upto 0 200, sent_length)))

  frame_bits : read_bits (places interleave_table) frame ≡ sent
  frame_bits =
      rw
        (
          scatter_bits interleave_table 0 (convolution_encode conv scratch 100) bytes,
          table_twice,
          convolved_bits,
        )
        (read_bits-write_bits (places interleave_table) sent bytes 200 hb (omega (arith, lb))
          places_small places-distinct (omega (arith, length-places, sent_length)))

  output_bit : (p : ℕ) → p < 96 → read_bit output p ≡ read_bit conv p
  output_bit p h =
      let here : 0 + p ≡ p = omega arith in
      rw (gather_bits interleave_table cleared frame, frame_bits)
        (chainback-code (read_bits (upto 0 100) conv) scratch' p
            (length-read_bits (upto 0 100) conv ∙ length-upto 0 100) h96 h97 h98 h99 hs'
            (omega (arith, ls')) h
          ∙ at-read_bits 100 0 p conv (omega arith)
          ∙ rw here refl)

  pub output_byte : (k : ℕ) → k < 12 → get_or output k 0 ≡ get_or conv k 0
  output_byte k h =
      get_or-read_bit output conv k
        (convolution_chainback-IsBytes (gather interleave_table cleared frame) scratch' 96 hs') hc
        (λ j lt. output_bit (8 * k + j) (omega arith))

-- Three bytes that are those of a codeword.
word_back :
    (b x y z : ℕ)
    → b < 4096
    → x ≡ bit_and (encode24128 b >>> 16) 0xFF
    → y ≡ bit_and (encode24128 b >>> 8) 0xFF
    → z ≡ bit_and (encode24128 b >>> 0) 0xFF
    → decode24128 x y z ≡ b
word_back b x y z h ex ey ez =
    let e = encode24128 b in
    let x' : x ≡ u8 (e >>> 16) = omega (arith, bit_and_mask 8 (e >>> 16)) in
    let y' : y ≡ u8 (e >>> 8) = omega (arith, bit_and_mask 8 (e >>> 8)) in
    let z' : z ≡ u8 e = omega (arith, bit_and_mask 8 (e >>> 0)) in
    rw (x', y', z') (decode24128-encode24128 b h)

-- The four words come back, of the bytes that carry their codewords.
module _ (b0 b1 b2 b3 : ℕ) (output : List ℕ) (h0 : b0 < 4096) (h1 : b1 < 4096) (h2 : b2 < 4096)
    (h3 : b3 < 4096)
    (same : (k : ℕ) → k < 12 → get_or output k 0 ≡ get_or (conv_bytes b0 b1 b2 b3) k 0) where
  pub words_back :
      (word_at output 0 ≡ b0)
      × (word_at output 3 ≡ b1)
      × (word_at output 6 ≡ b2)
      × (word_at output 9 ≡ b3)
  unfolding word_at conv_bytes codeword_bytes
  words_back = (
    word_back b0 _ _ _ h0 (same 0 (omega arith)) (same 1 (omega arith)) (same 2 (omega arith)),
    word_back b1 _ _ _ h1 (same 3 (omega arith)) (same 4 (omega arith)) (same 5 (omega arith)),
    word_back b2 _ _ _ h2 (same 6 (omega arith)) (same 7 (omega arith)) (same 8 (omega arith)),
    word_back b3 _ _ _ h3 (same 9 (omega arith)) (same 10 (omega arith)) (same 11 (omega arith)),
  )

-- Six bytes are the two times three of their words.
pub six_bytes :
    (fich : List ℕ)
    → IsBytes fich
    → length fich ≡ 6
    → fich_bytes
        (upper_word (get_or fich 0 0) (get_or fich 1 0))
        (lower_word (get_or fich 1 0) (get_or fich 2 0))
        (fich_bytes
          (upper_word (get_or fich 3 0) (get_or fich 4 0))
          (lower_word (get_or fich 4 0) (get_or fich 5 0))
          [])
      ≡ fich
six_bytes fich h l =
    let a = get_or-IsBytes fich 0 h in
    let b = get_or-IsBytes fich 1 h in
    let c = get_or-IsBytes fich 2 h in
    let d = get_or-IsBytes fich 3 h in
    let e = get_or-IsBytes fich 4 h in
    let f = get_or-IsBytes fich 5 h in
    rw
      (
        fich_bytes-words (get_or fich 3 0) (get_or fich 4 0) (get_or fich 5 0) [] d e f,
        fich_bytes-words (get_or fich 0 0) (get_or fich 1 0) (get_or fich 2 0)
            (get_or fich 3 0 ∷ get_or fich 4 0 ∷ get_or fich 5 0 ∷ []) a b c,
      )
      (sym (six_elements fich l))

-- The thirteenth byte is 0, and so are its bits.
tail_bit :
    (b0 b1 b2 b3 p : ℕ)
    → p < 100
    → 96 ≤ p
    → at (read_bits (upto 0 100) (conv_bytes b0 b1 b2 b3)) p ≡ false
unfolding read_bit conv_bytes codeword_bytes
tail_bit b0 b1 b2 b3 p h l =
    let here : 0 + p ≡ p = omega arith in
    let last : p / 2 ^ 3 ≡ 12 = omega arith in
    at-read_bits 100 0 p (conv_bytes b0 b1 b2 b3) h ∙ rw (here, last) (masked (p % 8))
  where
    masked : (k : ℕ) → not (bit_and 0 (2 ^ (7 - k)) == 0) ≡ false
    masked k = rw (zero-bit_and (2 ^ (7 - k))) refl

-- fich_decode takes out of a frame the six bytes that fich_encode put into it, checksum included,
-- whatever was in the frame and in the arrays that the two functions leave uninitialised.
pub fich_decode-fich_encode :
    (fich scratch scratch' bytes : List ℕ)
    → IsBytes fich
    → length fich ≡ 6
    → IsBytes scratch
    → length scratch ≡ 25
    → IsBytes scratch'
    → length scratch' ≡ 13
    → IsBytes bytes
    → length bytes ≡ 25
    → fich_decode scratch' (fich_encode fich scratch bytes).1 ≡ (fich_encode fich scratch bytes).0
unfolding fich_decode fich_encode fich_conv fich_words
fich_decode-fich_encode fich scratch scratch' bytes hf lf hs ls hs' ls' hb lb =
    let f = add_ccitt162 fich 6 in
    let b = add_ccitt162-IsBytes fich hf in
    let b0 = upper_word (get_or f 0 0) (get_or f 1 0) in
    let b1 = lower_word (get_or f 1 0) (get_or f 2 0) in
    let b2 = upper_word (get_or f 3 0) (get_or f 4 0) in
    let b3 = lower_word (get_or f 4 0) (get_or f 5 0) in
    let back =
      words_back b0 b1 b2 b3 _ (upper_small _ _ (get_or-IsBytes f 0 b) (get_or-IsBytes f 1 b))
        (lower_small _ _ (get_or-IsBytes f 1 b) (get_or-IsBytes f 2 b))
        (upper_small _ _ (get_or-IsBytes f 3 b) (get_or-IsBytes f 4 b))
        (lower_small _ _ (get_or-IsBytes f 4 b) (get_or-IsBytes f 5 b))
        (output_byte (conv_bytes b0 b1 b2 b3) scratch scratch' bytes
          (conv_bytes-IsBytes b0 b1 b2 b3) (tail_bit b0 b1 b2 b3 96 (omega arith) (omega arith))
          (tail_bit b0 b1 b2 b3 97 (omega arith) (omega arith))
          (tail_bit b0 b1 b2 b3 98 (omega arith) (omega arith))
          (tail_bit b0 b1 b2 b3 99 (omega arith) (omega arith)) hs ls hs' ls' hb lb) in
    rw (back.0, back.1, back.2, back.3) (six_bytes f b (length-add_ccitt162 fich ∙ lf))
