-- ===== src/Fich/Golay.antt =====
-- ysf_fich.c: the Golay code that protects each twelve bits of the channel.
-- The two loops of get_syndrome_23127 run on fuel, 13 and 23, one more than their rounds at most.
pub mod Codewords
pub mod Syndrome
use adn_bridge.Fich.Tables.Encoding.{encoding_table_24128}
use adn_bridge.Fich.Tables.Decoding.{decoding_table_23127}
use adn_bridge.Prelude.{
  ℕ, zero, suc, true, false, bit_and, if◌then◌else◌, get_or, bit_xor, bit_or, ◌==◌, leb, ◌>>>◌,
  ◌<<<◌, ◌/◌, ◌*◌,
}

abbrev pub x22 : ℕ
x22 = 0x00400000

abbrev pub x11 : ℕ
x11 = 0x00000800

abbrev pub mask12 : ℕ
mask12 = 0xfffff800

abbrev pub genpol : ℕ
genpol = 0x00000c75

-- `while (!(aux & pattern)) aux = aux >> 1;`
unfoldable pub lower_aux : ℕ → ℕ → ℕ → ℕ
lower_aux zero aux pattern = aux
lower_aux (suc fuel) aux pattern = elim (bit_and aux pattern == 0) [
  | true ↦ lower_aux fuel (aux >>> 1) pattern
  | false ↦ aux
]

-- `while (pattern & MASK12)`
unfoldable pub reduce : ℕ → ℕ → ℕ → ℕ
unfolding lower_aux
reduce zero aux pattern = pattern
reduce (suc fuel) aux pattern = elim (bit_and pattern mask12 == 0) [
  | true ↦ pattern
  | false ↦
      let aux' = lower_aux 23 aux pattern in
      reduce fuel aux' (bit_xor pattern (aux' / x11 * genpol))
]

-- get_syndrome_23127
unfoldable pub get_syndrome_23127 : ℕ → ℕ
unfolding reduce
get_syndrome_23127 pattern = if leb x11 pattern then reduce 13 x22 pattern else pattern

-- encode24128
unfoldable pub encode24128 : ℕ → ℕ
unfolding encoding_table_24128
encode24128 n = get_or encoding_table_24128 n 0

-- decode23127
unfoldable pub decode23127 : ℕ → ℕ
unfolding get_syndrome_23127 decoding_table_23127
decode23127 code = bit_xor code (get_or decoding_table_23127 (get_syndrome_23127 code) 0) >>> 11

-- decode24128, of the three bytes given
unfoldable pub decode24128 : ℕ → ℕ → ℕ → ℕ
unfolding decode23127
decode24128 x y z = decode23127 (bit_or (bit_or (x <<< 8) y <<< 8) z >>> 1)
