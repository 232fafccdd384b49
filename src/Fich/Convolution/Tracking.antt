-- ===== src/Fich/Convolution/Tracking.antt =====
-- The decoder on the output of the encoder: the path of the true bits keeps metric 0, and every
-- decision on it is right.
use adn_bridge.Fich.Convolution.{
  Viterbi, convolution_decode, even_path, odd_path, compare_paths, branch_metric, new_paths,
  decision_word, bit, Bool, ℕ, List, get_or, map, suc,
}
use adn_bridge.Fich.Convolution.Encoder.{first_out, second_out}
use adn_bridge.Fich.Convolution.Decisions.{kept, decision_bit, path_metric}
use mathlib.Core.Bool.{xor}
use adn_bridge.Prelude.{
  true, false, Bool, ℕ, ◌≡◌, ◌<◌, ◌+◌, List, ◌*◌, arith, ◌∙◌, get_or, ◌≤◌, ap, ◌/◌, refl, ◌^◌, map,
  ◌%◌, zero,
}

-- The state of the encoder behind the bits `d1` (the last) to `d4`, and its three lower bits.
abbrev pub low : Bool → Bool → Bool → ℕ
low d1 d2 d3 = bit d1 + 2 * bit d2 + 4 * bit d3

abbrev pub state_of : Bool → Bool → Bool → Bool → ℕ
state_of d1 d2 d3 d4 = low d1 d2 d3 + 8 * bit d4

-- What the branches of the true state expect against what was sent for `d`.
agreement :
    (d d1 d2 d3 d4 : Bool)
    → branch_metric (bit (first_out d d1 d2 d3 d4)) (bit (second_out d d1 d2 d3 d4)) (low d1 d2 d3)
      ≡ 2 * bit (xor d d4)
unfolding branch_metric xor
agreement true true true true true = refl
agreement true true true true false = refl
agreement true true true false true = refl
agreement true true true false false = refl
agreement true true false true true = refl
agreement true true false true false = refl
agreement true true false false true = refl
agreement true true false false false = refl
agreement true false true true true = refl
agreement true false true true false = refl
agreement true false true false true = refl
agreement true false true false false = refl
agreement true false false true true = refl
agreement true false false true false = refl
agreement true false false false true = refl
agreement true false false false false = refl
agreement false true true true true = refl
agreement false true true true false = refl
agreement false true true false true = refl
agreement false true true false false = refl
agreement false true false true true = refl
agreement false true false true false = refl
agreement false true false false true = refl
agreement false true false false false = refl
agreement false false true true true = refl
agreement false false true true false = refl
agreement false false true false true = refl
agreement false false true false false = refl
agreement false false false true true = refl
agreement false false false true false = refl
agreement false false false false true = refl
agreement false false false false false = refl

-- The metrics of the decoder: none above 2 t, and 0 at the true state.
pub record IsTracking (t : ℕ) (d1 d2 d3 d4 : Bool) (metrics : List ℕ) : Type 0 where
  pub best : get_or metrics (state_of d1 d2 d3 d4) 0 ≡ 0
  pub bounded : (k : ℕ) → get_or metrics k 0 ≤ 2 * t

-- A comparison that has the true path on one side.
kept_of_metric :
    (d d4 : Bool) (old : List ℕ) (s0 s1 i t : ℕ)
    → branch_metric s0 s1 i ≡ 2 * bit (xor d d4)
    → get_or old (i + 8 * bit d4) 0 ≡ 0
    → get_or old i 0 ≤ 2 * t
    → get_or old (i + 8) 0 ≤ 2 * t
    → t < 30000
    → kept d old s0 s1 i ≡ (0, d4)
unfolding even_path odd_path compare_paths xor
kept_of_metric true true old s0 s1 i t m z b0 b8 h = rw m (ground arith)
kept_of_metric true false old s0 s1 i t m z b0 b8 h =
    let same : i + 0 ≡ i = omega arith in let z' = rw same at z in rw m (ground arith)
kept_of_metric false true old s0 s1 i t m z b0 b8 h = rw m (ground arith)
kept_of_metric false false old s0 s1 i t m z b0 b8 h =
    let same : i + 0 ≡ i = omega arith in let z' = rw same at z in rw m (ground arith)

kept_true :
    (t : ℕ) (d d1 d2 d3 d4 : Bool) (old : List ℕ)
    → IsTracking t d1 d2 d3 d4 old
    → t < 30000
    → kept d old (bit (first_out d d1 d2 d3 d4)) (bit (second_out d d1 d2 d3 d4)) (low d1 d2 d3)
      ≡ (0, d4)
kept_true t d d1 d2 d3 d4 old h lt =
    kept_of_metric d d4 old _ _ (low d1 d2 d3) t (agreement d d1 d2 d3 d4) h.best
      (h.bounded (low d1 d2 d3)) (h.bounded (low d1 d2 d3 + 8)) lt

-- A step raises no metric by more than 2.
kept_bounded :
    (e : Bool) (old : List ℕ) (s0 s1 i b : ℕ)
    → get_or old i 0 ≤ b
    → get_or old (i + 8) 0 ≤ b
    → (kept e old s0 s1 i).0 ≤ b + 2
unfolding even_path odd_path compare_paths
kept_bounded true old s0 s1 i b h0 h8 = ground arith
kept_bounded false old s0 s1 i b h0 h8 = ground arith

paths_bounded :
    (n i k b : ℕ) (old : List ℕ) (s0 s1 : ℕ)
    → ((k : ℕ) → get_or old k 0 ≤ b)
    → get_or (map (λ p. p.0) (new_paths n i old s0 s1)) k 0 ≤ b + 2
unfolding new_paths
paths_bounded zero i k b old s0 s1 h = omega arith
paths_bounded (suc n) i zero b old s0 s1 h = kept_bounded false old s0 s1 i b (h i) (h (i + 8))
paths_bounded (suc n) i (suc zero) b old s0 s1 h = kept_bounded true old s0 s1 i b (h i) (h (i + 8))
paths_bounded (suc n) i (suc (suc k)) b old s0 s1 h = paths_bounded n (i + 1) k b old s0 s1 h

low-lt : (d1 d2 d3 : Bool) → low d1 d2 d3 < 8
low-lt true true true = omega arith
low-lt true true false = omega arith
low-lt true false true = omega arith
low-lt true false false = omega arith
low-lt false true true = omega arith
low-lt false true false = omega arith
low-lt false false true = omega arith
low-lt false false false = omega arith

-- The decoder's step on the two bits that were sent for `d`.
module _ (t : ℕ) (d d1 d2 d3 d4 : Bool) (v : Viterbi) (h : IsTracking t d1 d2 d3 d4 v.metrics)
    (lt : t < 30000) where
  next_state : 2 * low d1 d2 d3 + bit d ≡ state_of d d1 d2 d3
  next_state = omega arith

  here : 0 + low d1 d2 d3 ≡ low d1 d2 d3
  here = omega arith

  pub IsTracking-step :
      IsTracking
        (t + 1)
        d
        d1
        d2
        d3
        (convolution_decode v
          (bit (first_out d d1 d2 d3 d4))
          (bit (second_out d d1 d2 d3 d4))).metrics
  unfolding convolution_decode
  IsTracking-step = record {
    best = rw (← next_state) (
        path_metric 8 (low d1 d2 d3) 0 d v.metrics _ _ (low-lt d1 d2 d3)
        ∙ rw here (ap (λ (p : ℕ × Bool). p.0) (kept_true t d d1 d2 d3 d4 v.metrics h lt)));
    bounded = λ k. omega (
      arith,
      paths_bounded 8 0 k (2 * t) v.metrics (bit (first_out d d1 d2 d3 d4))
          (bit (second_out d d1 d2 d3 d4)) h.bounded,
    );
  }

  -- The decision at the new state is the bit that falls out.
  pub decision_true :
      decision_word 0 0
          (new_paths 8 0 v.metrics (bit (first_out d d1 d2 d3 d4)) (bit (second_out d d1 d2 d3 d4)))
        / 2 ^ state_of d d1 d2 d3
        % 2
      ≡ bit d4
  decision_true =
      let place : 0 + (2 * low d1 d2 d3 + bit d) ≡ state_of d d1 d2 d3 = omega arith in
      rw (← place) (
        decision_bit 8 (low d1 d2 d3) 0 0 0 d v.metrics _ _ (low-lt d1 d2 d3) (omega arith)
        ∙ rw here (ap (λ (p : ℕ × Bool). bit p.1) (kept_true t d d1 d2 d3 d4 v.metrics h lt)))
