-- ===== src/Fich/Convolution/Encoder.antt =====
-- The encoder writes the code of the bits that it reads.
use mathlib.Core.Bool.{xor}
use adn_bridge.Fich.Bits.{write_bits, read_bits, upto, read_bit}
use adn_bridge.Prelude.{
  true, false, Bool, List, length, ◌≡◌, ℕ, ◌*◌, ◌∷◌, arith, ◌+◌, [], not, zero, bit_and, refl, ◌==◌,
}
use adn_bridge.Fich.Convolution.{encode_loop, Bool, List, ℕ, bit, ◌∷◌, suc, not, bit_and}

-- The two bits that go out for `d`, behind the bits `d1` (the last) to `d4`.
abbrev pub first_out : Bool → Bool → Bool → Bool → Bool → Bool
first_out d d1 d2 d3 d4 = xor (xor d d3) d4

abbrev pub second_out : Bool → Bool → Bool → Bool → Bool → Bool
second_out d d1 d2 d3 d4 = xor (xor (xor d d1) d2) d4

-- The code of a bit string.
unfoldable pub code : Bool → Bool → Bool → Bool → List Bool → List Bool
unfolding xor
code d1 d2 d3 d4 [] = []
code d1 d2 d3 d4 (d ∷ ds) = first_out d d1 d2 d3 d4 ∷ second_out d d1 d2 d3 d4 ∷ code d d1 d2 d3 ds

first_out-bit :
    (d d1 d2 d3 d4 : Bool)
    → not (bit_and (bit d + bit d3 + bit d4) 1 == 0) ≡ first_out d d1 d2 d3 d4
unfolding xor
first_out-bit true d1 d2 true true = refl
first_out-bit true d1 d2 true false = refl
first_out-bit true d1 d2 false true = refl
first_out-bit true d1 d2 false false = refl
first_out-bit false d1 d2 true true = refl
first_out-bit false d1 d2 true false = refl
first_out-bit false d1 d2 false true = refl
first_out-bit false d1 d2 false false = refl

second_out-bit :
    (d d1 d2 d3 d4 : Bool)
    → not (bit_and (bit d + bit d1 + bit d2 + bit d4) 1 == 0) ≡ second_out d d1 d2 d3 d4
unfolding xor
second_out-bit true true true d3 true = refl
second_out-bit true true true d3 false = refl
second_out-bit true true false d3 true = refl
second_out-bit true true false d3 false = refl
second_out-bit true false true d3 true = refl
second_out-bit true false true d3 false = refl
second_out-bit true false false d3 true = refl
second_out-bit true false false d3 false = refl
second_out-bit false true true d3 true = refl
second_out-bit false true true d3 false = refl
second_out-bit false true false d3 true = refl
second_out-bit false true false d3 false = refl
second_out-bit false false true d3 true = refl
second_out-bit false false true d3 false = refl
second_out-bit false false false d3 true = refl
second_out-bit false false false d3 false = refl

pub length-code :
    (d1 d2 d3 d4 : Bool) (ds : List Bool) → length (code d1 d2 d3 d4 ds) ≡ 2 * length ds
unfolding code
length-code d1 d2 d3 d4 [] = refl
length-code d1 d2 d3 d4 (d ∷ ds) = omega (arith, length-code d d1 d2 d3 ds)

-- The loop is a run of writes.
pub encode_loop-code :
    (n i k : ℕ) (d1 d2 d3 d4 : Bool) (input out : List ℕ)
    → encode_loop n i k (bit d1) (bit d2) (bit d3) (bit d4) input out
      ≡ write_bits (upto k (2 * n)) (code d1 d2 d3 d4 (read_bits (upto i n) input)) out
unfolding encode_loop code write_bits read_bits upto
encode_loop-code zero i k d1 d2 d3 d4 input out = refl
encode_loop-code (suc n) i k d1 d2 d3 d4 input out =
    let d = read_bit input i in
    let two : 2 * suc n ≡ suc (suc (2 * n)) = omega arith in
    let next : k + 1 + 1 ≡ k + 2 = omega arith in
    rw (two, first_out-bit d d1 d2 d3 d4, second_out-bit d d1 d2 d3 d4, next)
      (encode_loop-code n (i + 1) (k + 2) d d1 d2 d3 input _)
