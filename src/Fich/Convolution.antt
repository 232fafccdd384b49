-- ===== src/Fich/Convolution.antt =====
-- ysf_fich.c: the convolutional code, its encoder and its Viterbi decoder. The sixteen metrics are
-- a list; m_decisions, which chainback reads from the end, is a list with the newest word first.
pub mod Encoder
pub mod Decisions
pub mod Tracking
pub mod Chainback
pub mod Decode
use adn_bridge.Fich.Bits.{read_bit, write_bit}
use adn_bridge.Prelude.{
  true, false, List, Bool, ℕ, ◌∷◌, suc, if◌then◌else◌, bit_xor, u16, [], map, bit_and, leb, get_or,
  ◌+◌, ◌>>>◌, not, ◌-◌, bit_or, u8, zero, ◌==◌, ◌<<<◌,
}

-- BRANCH_TABLE1, BRANCH_TABLE2
abbrev pub branch_table1 : List ℕ
branch_table1 = 0 ∷ 0 ∷ 0 ∷ 0 ∷ 1 ∷ 1 ∷ 1 ∷ 1 ∷ []

abbrev pub branch_table2 : List ℕ
branch_table2 = 0 ∷ 1 ∷ 1 ∷ 0 ∷ 0 ∷ 1 ∷ 1 ∷ 0 ∷ []

-- A bit as the `uint8_t` that the code has for it.
abbrev pub bit : Bool → ℕ
bit true = 1
bit false = 0

-- The loop of convolution_encode: `n` rounds from bit `i` of `input` and bit `k` of `out` on, with
-- the four bits before.
unfoldable pub encode_loop : ℕ → ℕ → ℕ → ℕ → ℕ → ℕ → ℕ → List ℕ → List ℕ → List ℕ
encode_loop zero i k d1 d2 d3 d4 input out = out
encode_loop (suc n) i k d1 d2 d3 d4 input out =
    let d = bit (read_bit input i) in
    let g1 = bit_and (d + d3 + d4) 1 in
    let g2 = bit_and (d + d1 + d2 + d4) 1 in
    let out1 = write_bit out k (not (g1 == 0)) in
    let out2 = write_bit out1 (k + 1) (not (g2 == 0)) in
    encode_loop n (i + 1) (k + 2) d d1 d2 d3 input out2

-- convolution_encode
unfoldable pub convolution_encode : List ℕ → List ℕ → ℕ → List ℕ
unfolding encode_loop
convolution_encode input out n_bits = encode_loop n_bits 0 0 0 0 0 0 input out

-- The two comparisons of convolution_decode at `i`: for each, the new metric and whether it comes
-- from the upper half.
unfoldable pub compare_paths : ℕ → ℕ → ℕ × Bool
compare_paths m0 m1 = if leb m1 m0 then (m1, true) else (m0, false)

unfoldable pub branch_metric : ℕ → ℕ → ℕ → ℕ
branch_metric s0 s1 i =
    bit_xor (get_or branch_table1 i 0) s0 + bit_xor (get_or branch_table2 i 0) s1

unfoldable pub even_path : List ℕ → ℕ → ℕ → ℕ × Bool
unfolding compare_paths
even_path old metric i =
    compare_paths (u16 (get_or old i 0 + metric)) (u16 (get_or old (i + 8) 0 + (2 - metric)))

unfoldable pub odd_path : List ℕ → ℕ → ℕ → ℕ × Bool
unfolding compare_paths
odd_path old metric i =
    compare_paths (u16 (get_or old i 0 + (2 - metric))) (u16 (get_or old (i + 8) 0 + metric))

-- The metrics and the decisions of the states 2 i and 2 i + 1, for `n` values of `i`.
unfoldable pub new_paths : ℕ → ℕ → List ℕ → ℕ → ℕ → List (ℕ × Bool)
unfolding even_path odd_path branch_metric
new_paths zero i old s0 s1 = []
new_paths (suc n) i old s0 s1 =
    let metric = branch_metric s0 s1 i in
    even_path old metric i ∷ odd_path old metric i ∷ new_paths n (i + 1) old s0 s1

-- The word of decisions: `*m_dp |= decision1 << (j + 1) | decision0 << j`, from `j` on.
unfoldable pub decision_word : ℕ → ℕ → List (ℕ × Bool) → ℕ
decision_word j dp [] = dp
decision_word j dp ((m, d0) ∷ []) = dp
decision_word j dp ((m, d0) ∷ (m', d1) ∷ rest) =
    decision_word (j + 2) (bit_or dp (bit_or (bit d1 <<< (j + 1)) (bit d0 <<< j))) rest

-- The decoder's state: m_oldMetrics, and the decisions so far.
pub record Viterbi : Type 0 where
  pub metrics : List ℕ
  pub decisions : List ℕ

-- convolution_decode
unfoldable pub convolution_decode : Viterbi → ℕ → ℕ → Viterbi
unfolding new_paths decision_word
convolution_decode v s0 s1 =
    let paths = new_paths 8 0 v.metrics s0 s1 in
    record { metrics = map (λ p. p.0) paths; decisions = decision_word 0 0 paths ∷ v.decisions }

-- convolution_chainback: `n_bits` rounds; below an empty stack of decisions it reads 0
unfoldable pub chainback_loop : ℕ → ℕ → List ℕ → List ℕ → List ℕ
chainback_loop zero state decisions out = out
chainback_loop (suc n) state [] out = out
chainback_loop (suc n) state (dp ∷ decisions) out =
    let i = state >>> 4 in
    let b = bit_and (u8 (dp >>> i)) 1 in
    chainback_loop n (bit_or (b <<< 7) (state >>> 1)) decisions (write_bit out n (not (b == 0)))

unfoldable pub convolution_chainback : Viterbi → List ℕ → ℕ → List ℕ
unfolding chainback_loop
convolution_chainback v out n_bits = chainback_loop n_bits 0 v.decisions out
