-- ===== src/Fich/Golay/Codewords.antt =====
-- Every word of the encoding table is decoded to its index.
use adn_bridge.Fich.Tables.Encoding.{encoding_table_24128}
use adn_bridge.Prelude.{
  ℕ, Bool, List, ◌≡◌, length, ◌&&◌, ◌<◌, true, ◌∷◌, arith, ◌^◌, u8, get_or, refl, ◌>>>◌, ◌+◌, ◌==◌,
  bit_or, ltb, ◌<<<◌, ==_iff, [], ◌/◌, ◌∙◌, bit_or_high, ltb→lt, ◌*◌, zero,
}
use adn_bridge.Fich.Golay.{
  decode23127, ℕ, encoding_table_24128, encode24128, decode24128, true, get_or, bit_or, suc,
}

-- The words of a table from index `i` on: each is decoded to its index, and has 24 bits.
check_from : ℕ → List ℕ → Bool
unfolding decode23127
check_from i [] = true
check_from i (c ∷ cs) = (decode23127 (c >>> 1) == i) && ltb c (2 ^ 24) && check_from (i + 1) cs

table_checks : check_from 0 encoding_table_24128 ≡ true
unfolding check_from encoding_table_24128
table_checks = refl

table_length : length encoding_table_24128 ≡ 4096
unfolding encoding_table_24128
table_length = refl

and3 : (a b c : Bool) → (a && b && c) ≡ true → (a ≡ true) × (b ≡ true) × (c ≡ true)
and3 a b c h = ground arith

-- What the check says of each word.
check_from_sound :
    (cs : List ℕ) (i k : ℕ)
    → check_from i cs ≡ true
    → k < length cs
    → (decode23127 (get_or cs k 0 >>> 1) ≡ i + k) × (get_or cs k 0 < 2 ^ 24)
check_from_sound [] i k h lt = absurd (omega arith)
check_from_sound (c ∷ cs) i zero h lt =
    let parts =
      and3 (decode23127 (c >>> 1) == i) (ltb c (2 ^ 24)) (check_from (i + 1) cs)
        (unfold check_from in h) in
    ((==_iff _ i).0 parts.0 ∙ omega arith, ltb→lt c (2 ^ 24) parts.1)
check_from_sound (c ∷ cs) i (suc k) h lt =
    let parts =
      and3 (decode23127 (c >>> 1) == i) (ltb c (2 ^ 24)) (check_from (i + 1) cs)
        (unfold check_from in h) in
    let rest = check_from_sound cs (i + 1) k parts.2 (omega arith) in (rest.0 ∙ omega arith, rest.1)

pub encode24128_small : (n : ℕ) → n < 4096 → encode24128 n < 2 ^ 24
unfolding encode24128
encode24128_small n h =
    (check_from_sound encoding_table_24128 0 n table_checks (omega (arith, table_length))).1

-- A codeword cut into three bytes, most significant first, is decoded to the twelve bits that it
-- was made of.
pub decode24128-encode24128 :
    (n : ℕ)
    → n < 4096
    → decode24128 (u8 (encode24128 n >>> 16)) (u8 (encode24128 n >>> 8)) (u8 (encode24128 n)) ≡ n
unfolding decode24128 encode24128
decode24128-encode24128 n h =
    let e = get_or encoding_table_24128 n 0 in
    let sound =
      check_from_sound encoding_table_24128 0 n table_checks (omega (arith, table_length)) in
    let high : bit_or (u8 (e >>> 16) <<< 8) (u8 (e >>> 8)) ≡ e / 2 ^ 8 =
      omega (arith, bit_or_high 8 (u8 (e >>> 16)) (u8 (e >>> 8)) (omega arith)) in
    let whole : bit_or (e / 2 ^ 8 * 2 ^ 8) (u8 e) ≡ e =
      omega (arith, bit_or_high 8 (e / 2 ^ 8) (u8 e) (omega arith)) in
    rw (high, whole) (sound.0 ∙ omega arith)
