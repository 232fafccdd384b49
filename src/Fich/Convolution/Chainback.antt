-- ===== src/Fich/Convolution/Chainback.antt =====
-- The decoder run on the code of a bit string, and the walk back over its decisions.
use adn_bridge.Fich.Convolution.Decisions.{bit-le}
use adn_bridge.Fich.Convolution.{
  Viterbi, convolution_decode, new_paths, decision_word, bit, chainback_loop, List, ℕ, Bool, ◌∷◌,
  bit_or, bit_and, u8, suc, not,
}
use adn_bridge.Fich.Convolution.Encoder.{code}
use adn_bridge.Fich.Convolution.Tracking.{state_of, IsTracking, IsTracking-step, decision_true}
use adn_bridge.Fich.Bits.{read_bit, write_bit}
use adn_bridge.Fich.Bits.Laws.{read_bit-write_bit, write_bit-IsBytes, length-write_bit}
use adn_bridge.Prelude.{
  true, false, get_or, List, ℕ, Bool, ◌/◌, length, ◌<◌, ◌∷◌, ◌+◌, ◌^◌, arith, ◌≡◌, [], ◌%◌, bit_or,
  bit_and, ◌<<<◌, u8, ◌>>>◌, bit_and_mask, bit_or_high, IsBytes, ◌≤◌, ◌*◌, suc, not, zero, ◌==◌,
  ◌∙◌, refl, ==_iff,
}

-- The bit before the last `k`, of a history with the newest bit first.
abbrev pub at : List Bool → ℕ → Bool
at hist k = get_or hist k false

-- On each word of decisions, the true state has the bit that it shifted out.
abbrev pub IsTrace : List ℕ → List Bool → Type 0
IsTrace [] hist = Unit
IsTrace (w ∷ ws) [] = ⊥
IsTrace (w ∷ ws) (d ∷ hist) =
    (w / 2 ^ state_of d (at hist 0) (at hist 1) (at hist 2) % 2 ≡ bit (at hist 3)) × IsTrace ws hist

-- convolution_decode on each pair of a bit string.
unfoldable pub decode_pairs : Viterbi → List Bool → Viterbi
decode_pairs v [] = v
decode_pairs v (s0 ∷ []) = v
decode_pairs v (s0 ∷ s1 ∷ rest) = decode_pairs (convolution_decode v (bit s0) (bit s1)) rest

abbrev pub push_all : List Bool → List Bool → List Bool
push_all [] hist = hist
push_all (d ∷ ds) hist = push_all ds (d ∷ hist)

push_word :
    (t : ℕ) (d : Bool) (hist : List Bool) (v : Viterbi) (s0 s1 : ℕ)
    → decision_word 0 0 (new_paths 8 0 v.metrics s0 s1)
        / 2 ^ state_of d (at hist 0) (at hist 1) (at hist 2)
        % 2
      ≡ bit (at hist 3)
    → IsTrace v.decisions hist
    → IsTrace (convolution_decode v s0 s1).decisions (d ∷ hist)
unfolding convolution_decode
push_word t d hist v s0 s1 e h = (e, h)

-- The decisions on a code follow the bits that were encoded.
pub IsTrace-decode_pairs :
    (ds hist : List Bool) (t : ℕ) (v : Viterbi)
    → IsTracking t (at hist 0) (at hist 1) (at hist 2) (at hist 3) v.metrics
    → IsTrace v.decisions hist
    → t + length ds < 30000
    → IsTrace
        (decode_pairs v (code (at hist 0) (at hist 1) (at hist 2) (at hist 3) ds)).decisions
        (push_all ds hist)
unfolding decode_pairs code
IsTrace-decode_pairs [] hist t v h trace lt = trace
IsTrace-decode_pairs (d ∷ ds) hist t v h trace lt =
    IsTrace-decode_pairs ds (d ∷ hist) (t + 1) _
      (IsTracking-step t d (at hist 0) (at hist 1) (at hist 2) (at hist 3) v h (omega arith))
      (push_word t d hist v _ _
        (decision_true t d (at hist 0) (at hist 1) (at hist 2) (at hist 3) v h (omega arith)) trace)
      (omega arith)

pub length-decode_pairs :
    (v : Viterbi) (d1 d2 d3 d4 : Bool) (ds : List Bool)
    → length (decode_pairs v (code d1 d2 d3 d4 ds)).decisions ≡ length ds + length v.decisions
unfolding decode_pairs code convolution_decode
length-decode_pairs v d1 d2 d3 d4 [] = omega arith
length-decode_pairs v d1 d2 d3 d4 (d ∷ ds) =
    omega (arith, length-decode_pairs (convolution_decode v _ _) d d1 d2 d3 ds)

-- One round of the walk: the bit it reads, and the state it goes to.
module _ (state : ℕ) (d : Bool) (hist : List Bool) where
  round_bit :
      (w : ℕ)
      → w / 2 ^ state_of d (at hist 0) (at hist 1) (at hist 2) % 2 ≡ bit (at hist 3)
      → state / 16 ≡ state_of d (at hist 0) (at hist 1) (at hist 2)
      → bit_and (u8 (w >>> (state >>> 4))) 1 ≡ bit (at hist 3)
  round_bit w e s = omega (arith, bit_and_mask 1 (u8 (w >>> (state >>> 4))), shifted)
    where
      shifted : w / 2 ^ (state / 16) % 2 ≡ bit (at hist 3)
      shifted = rw s e

  round_state :
      state < 256
      → state / 16 ≡ state_of d (at hist 0) (at hist 1) (at hist 2)
      → (bit_or (bit (at hist 3) <<< 7) (state >>> 1) < 256)
        × (bit_or (bit (at hist 3) <<< 7) (state >>> 1) / 16
            ≡ state_of (at hist 0) (at hist 1) (at hist 2) (at hist 3))
  round_state lt s =
      let whole = bit_or_high 7 (bit (at hist 3)) (state / 2) (omega arith) in
      let bound = bit-le (at hist 3) in
      let last = bit-le d in (omega (arith, whole, bound), omega (arith, whole, last, s))

bit_back : (b : Bool) → not (bit b == 0) ≡ b
bit_back true = refl
bit_back false = refl

-- The walk writes the places below `n` and no others.
pub chainback_above :
    (n state p : ℕ) (stack out : List ℕ)
    → IsBytes out
    → n ≤ 8 * length out
    → n ≤ p
    → read_bit (chainback_loop n state stack out) p ≡ read_bit out p
unfolding chainback_loop
chainback_above zero state p stack out b fits le = refl
chainback_above (suc n) state p [] out b fits le = refl
chainback_above (suc n) state p (w ∷ ws) out b fits le =
    let c = not (bit_and (u8 (w >>> (state >>> 4))) 1 == 0) in
    let apart : (n == p) ≡ false = ground arith in
    chainback_above n _ p ws (write_bit out n c) (write_bit-IsBytes out n c b)
      (omega (arith, length-write_bit out n c)) (omega arith)
    ∙ read_bit-write_bit out n p c b (omega arith)
    ∙ rw apart refl

-- Place `p`, which is `k` below the top, gets the bit that fell out `k` rounds in.
pub chainback_true :
    (n k p state : ℕ) (stack out : List ℕ) (hist : List Bool)
    → IsBytes out
    → n ≤ 8 * length out
    → n ≡ p + suc k
    → n ≤ length stack
    → IsTrace stack hist
    → state < 256
    → state / 16 ≡ state_of (at hist 0) (at hist 1) (at hist 2) (at hist 3)
    → read_bit (chainback_loop n state stack out) p ≡ at hist (k + 4)
unfolding chainback_loop
chainback_true zero k p state stack out hist b fits e enough trace lt s = absurd (omega arith)
chainback_true (suc n) k p state [] out hist b fits e enough trace lt s = absurd (omega arith)
chainback_true (suc n) k p state (w ∷ ws) out [] b fits e enough trace lt s = absurd trace
chainback_true (suc n) zero p state (w ∷ ws) out (d ∷ hist) b fits e enough trace lt s =
    let at_n : n ≡ p = omega arith in
    let self : (n == p) ≡ true = (==_iff n p).1 at_n in
    rw (round_bit state d hist w trace.0 s, bit_back (at hist 3))
      (chainback_above n _ p ws (write_bit out n (at hist 3))
          (write_bit-IsBytes out n (at hist 3) b)
          (omega (arith, length-write_bit out n (at hist 3))) (omega arith)
        ∙ read_bit-write_bit out n p (at hist 3) b (omega arith)
        ∙ rw self refl)
chainback_true (suc n) (suc k) p state (w ∷ ws) out (d ∷ hist) b fits e enough trace lt s =
    let next = round_state state d hist lt s in
    let up : suc k + 4 ≡ suc (k + 4) = omega arith in
    rw (up, round_bit state d hist w trace.0 s, bit_back (at hist 3))
      (chainback_true n k p _ ws (write_bit out n (at hist 3)) hist
        (write_bit-IsBytes out n (at hist 3) b) (omega (arith, length-write_bit out n (at hist 3)))
        (omega arith) (omega arith) trace.1 next.0 next.1)
