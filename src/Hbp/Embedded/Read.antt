-- ===== src/Hbp/Embedded/Read.antt =====
-- The embedded link control as a receiver reads it.
use adn_bridge.Hbp.Bits.{at, bits_to_byte, byte_to_bits}
use adn_bridge.Hbp.Embedded.{
  encode_embedded_data, Bool, lc_get_data_bits, at, [], emb_parity_row, emb_rows, u8,
}
use adn_bridge.Prelude.{
  List, ℕ, Bool, ◌≡◌, [], ◌++◌, ◌*◌, refl, ◌+◌, ◌∷◌, zero, ◌^◌, ◌<◌, u8, ◌%◌, ==_iff, ◌>>>◌,
  all_below_sound, arith, ◌==◌, ap, ◌∙◌,
}
use Prim.Native.Nat.{ℕ, suc}

-- Bit `c` of row `r` of the square, which emb_raw holds by columns of eight.
abbrev pub raw_bit : List Bool → ℕ → ℕ → Bool
raw_bit raw r c = at raw (c * 8 + r)

-- `n` bits of row `r` from column `c` on.
abbrev pub raw_run : ℕ → ℕ → ℕ → List Bool → List Bool
raw_run zero r c raw = []
raw_run (suc n) r c raw = raw_bit raw r c ∷ raw_run n r (c + 1) raw

-- The link control in the seven rows: eleven bits in the first two, ten in the others.
abbrev pub read_lc : List Bool → List Bool
read_lc raw =
    raw_run 11 0 0 raw
    ++ raw_run 11 1 0 raw
    ++ raw_run 10 2 0 raw
    ++ raw_run 10 3 0 raw
    ++ raw_run 10 4 0 raw
    ++ raw_run 10 5 0 raw
    ++ raw_run 10 6 0 raw

-- The square by rows.
abbrev pub square_of : List Bool → List Bool
square_of raw =
    raw_run 16 0 0 raw
    ++ raw_run 16 1 0 raw
    ++ raw_run 16 2 0 raw
    ++ raw_run 16 3 0 raw
    ++ raw_run 16 4 0 raw
    ++ raw_run 16 5 0 raw
    ++ raw_run 16 6 0 raw
    ++ raw_run 16 7 0 raw

-- Three bytes of a bit string, as a number.
abbrev pub read_24 : List Bool → ℕ → ℕ
unfolding bits_to_byte
read_24 bits p =
    bits_to_byte bits p * 2 ^ 16 + bits_to_byte bits (p + 8) * 2 ^ 8 + bits_to_byte bits (p + 16)

lc_read : (tg src : ℕ) → read_lc (encode_embedded_data tg src) ≡ lc_get_data_bits tg src
unfolding encode_embedded_data lc_get_data_bits
lc_read tg src = refl

byte_read : (x : ℕ) → x < 256 → bits_to_byte (byte_to_bits x) 0 ≡ x
unfolding bits_to_byte byte_to_bits
byte_read x h =
    (==_iff (bits_to_byte (byte_to_bits x) 0) x).0
      (all_below_sound 256 (λ x. bits_to_byte (byte_to_bits x) 0 == x) x refl h)

number_read :
    (v : ℕ)
    → bits_to_byte (byte_to_bits (u8 (v >>> 16))) 0 * 2 ^ 16
        + bits_to_byte (byte_to_bits (u8 (v >>> 8))) 0 * 2 ^ 8
        + bits_to_byte (byte_to_bits (u8 (v >>> 0))) 0
      ≡ v % 2 ^ 24
number_read v = omega (
  arith,
  byte_read (u8 (v >>> 16)) (omega arith),
  byte_read (u8 (v >>> 8)) (omega arith),
  byte_read (u8 (v >>> 0)) (omega arith),
)

-- A receiver that reads the rows of the square finds the talkgroup and the source, modulo 2 ^ 24.
pub embedded_ids_read :
    (tg src : ℕ)
    → let bits = read_lc (encode_embedded_data tg src) in
      (read_24 bits 24 ≡ tg % 2 ^ 24) × (read_24 bits 48 ≡ src % 2 ^ 24)
unfolding lc_get_data_bits bits_to_byte byte_to_bits
embedded_ids_read tg src = (
  ap (λ (bits : List Bool). read_24 bits 24) (lc_read tg src) ∙ number_read tg,
  ap (λ (bits : List Bool). read_24 bits 48) (lc_read tg src) ∙ number_read src,
)

-- The square that is sent satisfies all its parity equations: computing the parity of its rows and
-- columns anew changes none of its bits.
square_closed :
    (tg src : ℕ)
    → let square = square_of (encode_embedded_data tg src) in
      emb_parity_row 16 0 (emb_rows 7 0 square) ≡ square
unfolding encode_embedded_data
square_closed tg src = refl
