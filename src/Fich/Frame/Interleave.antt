-- ===== src/Fich/Frame/Interleave.antt =====
-- The interleaving: gathering and scattering at the places of the table.
use adn_bridge.Fich.Tables.Small.{interleave_table}
use adn_bridge.Fich.Frame.{scatter, gather, List, ℕ, ◌∷◌}
use adn_bridge.Fich.Convolution.{Viterbi}
use adn_bridge.Fich.Convolution.Chainback.{decode_pairs}
use adn_bridge.Fich.Bits.{read_bits, write_bits, upto}
use adn_bridge.Fich.Bits.Laws.{AllBelow, distinct}
use adn_bridge.Prelude.{
  true, ltb, ltb→lt, ◌≡◌, length, List, ℕ, ◌*◌, Bool, ◌∷◌, refl, suc, ◌&&◌, arith, ◌+◌, [],
}

-- The two places of each entry.
abbrev pub places : List ℕ → List ℕ
places [] = []
places (n ∷ ns) = n ∷ (n + 1) ∷ places ns

pub gather_bits :
    (ns : List ℕ) (v : Viterbi) (bytes : List ℕ)
    → gather ns v bytes ≡ decode_pairs v (read_bits (places ns) bytes)
unfolding gather decode_pairs read_bits
gather_bits [] v bytes = refl
gather_bits (n ∷ ns) v bytes = gather_bits ns _ bytes

pub scatter_bits :
    (ns : List ℕ) (j : ℕ) (convolved bytes : List ℕ)
    → scatter ns j convolved bytes
      ≡ write_bits (places ns) (read_bits (upto j (2 * length ns)) convolved) bytes
unfolding scatter write_bits read_bits upto
scatter_bits [] j convolved bytes = refl
scatter_bits (n ∷ ns) j convolved bytes =
    let two : 2 * suc (length ns) ≡ suc (suc (2 * length ns)) = omega arith in
    let next : j + 1 + 1 ≡ j + 2 = omega arith in
    rw (two, next) (scatter_bits ns (j + 2) convolved _)

abbrev all_small : ℕ → List ℕ → Bool
all_small n [] = true
all_small n (i ∷ is) = ltb i n && all_small n is

pub AllBelow-all_small : (n : ℕ) (is : List ℕ) → all_small n is ≡ true → AllBelow n is
AllBelow-all_small n [] h = tt
AllBelow-all_small n (i ∷ is) h =
    let first : ltb i n ≡ true = ground arith in
    let rest : all_small n is ≡ true = ground arith in
    (ltb→lt i n first, AllBelow-all_small n is rest)

-- The places of the table are the 200 bits of a frame, each once.
pub places_small : AllBelow 200 (places interleave_table)
unfolding interleave_table
places_small = AllBelow-all_small 200 (places interleave_table) refl

pub places-distinct : distinct (places interleave_table) ≡ true
unfolding interleave_table
places-distinct = refl

pub length-places : length (places interleave_table) ≡ 200
unfolding interleave_table
length-places = refl

pub upto_small : AllBelow 200 (upto 0 200)
unfolding upto
upto_small = AllBelow-all_small 200 (upto 0 200) refl

pub upto-distinct : distinct (upto 0 200) ≡ true
unfolding upto
upto-distinct = refl
