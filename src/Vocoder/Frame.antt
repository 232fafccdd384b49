-- ===== src/Vocoder/Frame.antt =====
-- vocoder_remote.c: speech frames of 49 bits, in the order of the server and in that of the codec.
use adn_bridge.Prelude.{
  List, ℕ, ◌∷◌, [], get_or, replicate, map, ◌++◌, if◌then◌else◌, bit_and, ◌+◌, ◌>>>◌, ◌==◌, set,
  zero, bit_or, ◌<<<◌,
}
use Prim.Native.Nat.{ℕ, suc, bit_and, bit_or}
pub mod RoundTrip

-- INTERLEAVE49_MATRIX
abbrev pub interleave49_matrix : List ℕ
interleave49_matrix =
    0 ∷ 3 ∷ 6 ∷ 9 ∷ 12 ∷ 15 ∷ 18 ∷ 21 ∷ 24 ∷ 27 ∷ 30 ∷ 33 ∷ 36 ∷ 39 ∷ 41 ∷ 43 ∷ 45 ∷ 47 ∷ 1 ∷ 4 ∷ 7
    ∷ 10 ∷ 13 ∷ 16 ∷ 19 ∷ 22 ∷ 25 ∷ 28 ∷ 31 ∷ 34 ∷ 37 ∷ 40 ∷ 42 ∷ 44 ∷ 46 ∷ 48 ∷ 2 ∷ 5 ∷ 8 ∷ 11 ∷ 14
    ∷ 17 ∷ 20 ∷ 23 ∷ 26 ∷ 29 ∷ 32 ∷ 35 ∷ 38 ∷ []

-- The bits of a byte from the bit `j` on, the highest first: `(in[i] >> (7 - j)) & 1`.
abbrev pub bits_from : ℕ → ℕ → List ℕ
bits_from zero byte = []
bits_from (suc j) byte = bit_and (byte >>> j) 1 ∷ bits_from j byte

-- ambe49_bits_from_bytes
unfoldable pub ambe49_bits_from_bytes : List ℕ → List ℕ
ambe49_bits_from_bytes inp =
    bits_from 8 (get_or inp 0 0)
    ++ bits_from 8 (get_or inp 1 0)
    ++ bits_from 8 (get_or inp 2 0)
    ++ bits_from 8 (get_or inp 3 0)
    ++ bits_from 8 (get_or inp 4 0)
    ++ bits_from 8 (get_or inp 5 0)
    ++ (bit_and (get_or inp 6 0 >>> 7) 1 ∷ [])

-- The inner loop of ambe49_bytes_from_bits, for the byte `out`, from the bit `n` on.
abbrev pub byte_from : ℕ → List ℕ → ℕ → ℕ → ℕ
byte_from zero bits n out = out
byte_from (suc j) bits n out =
    byte_from j bits (n + 1) (if get_or bits n 0 == 0 then out else bit_or out (1 <<< j))

-- ambe49_bytes_from_bits
unfoldable pub ambe49_bytes_from_bits : List ℕ → List ℕ
ambe49_bytes_from_bits bits =
    byte_from 8 bits 0 0
    ∷ byte_from 8 bits 8 0
    ∷ byte_from 8 bits 16 0
    ∷ byte_from 8 bits 24 0
    ∷ byte_from 8 bits 32 0
    ∷ byte_from 8 bits 40 0
    ∷ (if get_or bits 48 0 == 0 then 0 else 0x80)
    ∷ []

-- `out_bits[INTERLEAVE49_MATRIX[i]] = in_bits[i]`, for the places of the matrix
abbrev pub scatter49 : List ℕ → List ℕ → ℕ → List ℕ → List ℕ
scatter49 [] in_bits i out_bits = out_bits
scatter49 (n ∷ ns) in_bits i out_bits =
    scatter49 ns in_bits (i + 1) (set out_bits n (get_or in_bits i 0))

-- ambe49_interleave and ambe49_deinterleave
unfoldable pub ambe49_interleave : List ℕ → List ℕ
ambe49_interleave frame =
    ambe49_bytes_from_bits
      (scatter49 interleave49_matrix (ambe49_bits_from_bytes frame) 0 (replicate 49 0))

unfoldable pub ambe49_deinterleave : List ℕ → List ℕ
ambe49_deinterleave frame =
    ambe49_bytes_from_bits
      (map (λ (n : ℕ). get_or (ambe49_bits_from_bytes frame) n 0) interleave49_matrix)
