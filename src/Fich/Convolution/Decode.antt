-- ===== src/Fich/Convolution/Decode.antt =====
-- The decoder takes back what the encoder put in: a code of 100 bits, read off 200 places.
use adn_bridge.Fich.Convolution.{Viterbi, convolution_chainback, ℕ, List, [], Bool, suc, ◌∷◌}
use adn_bridge.Fich.Convolution.Encoder.{code}
use adn_bridge.Fich.Convolution.Tracking.{IsTracking, state_of}
use adn_bridge.Fich.Convolution.Chainback.{
  at, decode_pairs, push_all, IsTrace-decode_pairs, length-decode_pairs, chainback_true,
}
use adn_bridge.Fich.Bits.{read_bit}
use adn_bridge.Prelude.{
  false, get_or, replicate, ℕ, List, ◌≡◌, arith, [], Bool, length, refl, IsBytes, ◌+◌, ◌≤◌, ◌∷◌,
  ◌*◌, zero, ◌<◌, ◌-◌, ◌∙◌,
}

-- The metrics that fich_decode clears.
abbrev pub cleared : Viterbi
cleared = record { metrics = replicate 16 0; decisions = [] }

get_or-replicate : (n k : ℕ) → get_or (replicate n zero) k zero ≡ zero
get_or-replicate zero k = refl
get_or-replicate (suc n) zero = refl
get_or-replicate (suc n) (suc k) = get_or-replicate n k

cleared_tracks : IsTracking 0 false false false false (replicate 16 0)
cleared_tracks = record { best = refl; bounded = λ k. omega (arith, get_or-replicate 16 k) }

at-push_all_old : (ds hist : List Bool) (k : ℕ) → at (push_all ds hist) (length ds + k) ≡ at hist k
at-push_all_old [] hist k = let same : 0 + k ≡ k = omega arith in rw same refl
at-push_all_old (d ∷ ds) hist k =
    let up : suc (length ds) + k ≡ length ds + suc k = omega arith in
    rw up (at-push_all_old ds (d ∷ hist) (suc k))

at-push_all :
    (ds hist : List Bool) (p k : ℕ) → length ds ≡ p + suc k → at (push_all ds hist) k ≡ at ds p
at-push_all [] hist p k e = absurd (omega arith)
at-push_all (d ∷ ds) hist zero k e =
    let all : k ≡ length ds + 0 = omega arith in rw all (at-push_all_old ds (d ∷ hist) 0)
at-push_all (d ∷ ds) hist (suc p) k e = at-push_all ds (d ∷ hist) p k (omega arith)

last_four :
    (ds : List Bool)
    → length ds ≡ 100
    → at ds 96 ≡ false
    → at ds 97 ≡ false
    → at ds 98 ≡ false
    → at ds 99 ≡ false
    → state_of
        (at (push_all ds []) 0)
        (at (push_all ds []) 1)
        (at (push_all ds []) 2)
        (at (push_all ds []) 3)
      ≡ 0
last_four ds e h96 h97 h98 h99 =
    rw
      (
        at-push_all ds [] 99 0 (omega arith),
        at-push_all ds [] 98 1 (omega arith),
        at-push_all ds [] 97 2 (omega arith),
        at-push_all ds [] 96 3 (omega arith),
        h96,
        h97,
        h98,
        h99,
      )
      refl

-- The Viterbi decoder, run from cleared metrics on the code of 100 bits of which the last four are
-- 0, gives every one of the first 96 bits back, into any array of bytes that has room for them.
pub chainback-code :
    (ds : List Bool) (out : List ℕ) (p : ℕ)
    → length ds ≡ 100
    → at ds 96 ≡ false
    → at ds 97 ≡ false
    → at ds 98 ≡ false
    → at ds 99 ≡ false
    → IsBytes out
    → 96 ≤ 8 * length out
    → p < 96
    → read_bit
        (convolution_chainback (decode_pairs cleared (code false false false false ds)) out 96)
        p
      ≡ at ds p
unfolding convolution_chainback
chainback-code ds out p e h96 h97 h98 h99 b fits lt =
    let trace = IsTrace-decode_pairs ds [] 0 cleared cleared_tracks tt (omega arith) in
    let zero_state = last_four ds e h96 h97 h98 h99 in
    let whole = length-decode_pairs cleared false false false false ds in
    let depth : 95 - p + 4 ≡ 99 - p = omega arith in
    chainback_true 96 (95 - p) p 0 _ out (push_all ds []) b fits (omega arith)
      (omega (arith, whole)) trace (omega arith) (omega (arith, zero_state))
    ∙ rw depth (at-push_all ds [] p (99 - p) (omega arith))
