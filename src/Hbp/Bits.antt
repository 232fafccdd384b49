-- ===== src/Hbp/Bits.antt =====
-- hbp/dmr_hbp.c: bits and bytes, and the row and column codes, on arrays of `bool`.
-- A `bool *` is an array with the offset that the pointer stands at.
use adn_bridge.Prelude.{
  ℕ, zero, suc, ◌+◌, ◌==◌, bit_and, bit_or, Bool, false, List, [], ◌∷◌, get_or, set, if◌then◌else◌,
}
use mathlib.Core.Bool.{xor}

-- byteToBitsBE
unfoldable pub byte_to_bits : ℕ → List Bool
byte_to_bits byte =
    (bit_and byte 0x80 == 0x80)
    ∷ (bit_and byte 0x40 == 0x40)
    ∷ (bit_and byte 0x20 == 0x20)
    ∷ (bit_and byte 0x10 == 0x10)
    ∷ (bit_and byte 0x08 == 0x08)
    ∷ (bit_and byte 0x04 == 0x04)
    ∷ (bit_and byte 0x02 == 0x02)
    ∷ (bit_and byte 0x01 == 0x01)
    ∷ []

abbrev pub at : List Bool → ℕ → Bool
at bits i = get_or bits i false

abbrev pub flag : Bool → ℕ → ℕ
flag b v = if b then v else 0

-- bitsToByteBE, of the eight bits from `p` on
unfoldable pub bits_to_byte : List Bool → ℕ → ℕ
bits_to_byte bits p =
    let b0 = flag (at bits p) 0x80 in
    let b1 = bit_or b0 (flag (at bits (p + 1)) 0x40) in
    let b2 = bit_or b1 (flag (at bits (p + 2)) 0x20) in
    let b3 = bit_or b2 (flag (at bits (p + 3)) 0x10) in
    let b4 = bit_or b3 (flag (at bits (p + 4)) 0x08) in
    let b5 = bit_or b4 (flag (at bits (p + 5)) 0x04) in
    let b6 = bit_or b5 (flag (at bits (p + 6)) 0x02) in bit_or b6 (flag (at bits (p + 7)) 0x01)

infixl 65 ◌^^◌
abbrev pub ◌^^◌ : Bool → Bool → Bool
unfolding xor
a ^^ b = xor a b

-- `for (; n > 0; n--) dst[a++] = src[pos++];`
unfoldable pub copy_run : ℕ → ℕ → ℕ → List Bool → List Bool → List Bool
copy_run zero a pos src dst = dst
copy_run (suc n) a pos src dst = copy_run n (a + 1) (pos + 1) src (set dst a (at src pos))

-- hamming_encode15113_2
unfoldable pub hamming_encode15113_2 : ℕ → List Bool → List Bool
unfolding xor
hamming_encode15113_2 p d0 =
    let d = λ (a : List Bool) (k : ℕ). at a (p + k) in
    let d1 = set d0 (p + 11) (d d0 0 ^^ d d0 1 ^^ d d0 2 ^^ d d0 3 ^^ d d0 5 ^^ d d0 7 ^^ d d0 8) in
    let d2 = set d1 (p + 12) (d d1 1 ^^ d d1 2 ^^ d d1 3 ^^ d d1 4 ^^ d d1 6 ^^ d d1 8 ^^ d d1 9) in
    let d3 =
      set d2 (p + 13) (d d2 2 ^^ d d2 3 ^^ d d2 4 ^^ d d2 5 ^^ d d2 7 ^^ d d2 9 ^^ d d2 10) in
    set d3 (p + 14) (d d3 0 ^^ d d3 1 ^^ d d3 2 ^^ d d3 4 ^^ d d3 6 ^^ d d3 7 ^^ d d3 10)

-- hamming_encode1393
unfoldable pub hamming_encode1393 : List Bool → List Bool
unfolding xor
hamming_encode1393 d0 =
    let d1 = set d0 9 (at d0 0 ^^ at d0 1 ^^ at d0 3 ^^ at d0 5 ^^ at d0 6) in
    let d2 = set d1 10 (at d1 0 ^^ at d1 1 ^^ at d1 2 ^^ at d1 4 ^^ at d1 6 ^^ at d1 7) in
    let d3 =
      set d2 11 (at d2 0 ^^ at d2 1 ^^ at d2 2 ^^ at d2 3 ^^ at d2 5 ^^ at d2 7 ^^ at d2 8) in
    set d3 12 (at d3 0 ^^ at d3 2 ^^ at d3 4 ^^ at d3 5 ^^ at d3 8)

-- encode16114: the 15,11,3 code with one more parity bit
unfoldable pub encode16114 : ℕ → List Bool → List Bool
unfolding xor hamming_encode15113_2
encode16114 p d0 =
    let d = λ (a : List Bool) (k : ℕ). at a (p + k) in
    let d1 = set d0 (p + 11) (d d0 0 ^^ d d0 1 ^^ d d0 2 ^^ d d0 3 ^^ d d0 5 ^^ d d0 7 ^^ d d0 8) in
    let d2 = set d1 (p + 12) (d d1 1 ^^ d d1 2 ^^ d d1 3 ^^ d d1 4 ^^ d d1 6 ^^ d d1 8 ^^ d d1 9) in
    let d3 =
      set d2 (p + 13) (d d2 2 ^^ d d2 3 ^^ d d2 4 ^^ d d2 5 ^^ d d2 7 ^^ d d2 9 ^^ d d2 10) in
    let d4 =
      set d3 (p + 14) (d d3 0 ^^ d d3 1 ^^ d d3 2 ^^ d d3 4 ^^ d d3 6 ^^ d d3 7 ^^ d d3 10) in
    set d4 (p + 15) (d d4 0 ^^ d d4 2 ^^ d d4 5 ^^ d d4 6 ^^ d d4 8 ^^ d d4 9 ^^ d d4 10)
