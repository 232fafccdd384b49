-- ===== src/Fich/Convolution/Decisions.antt =====
-- The word of decisions that a step of the decoder pushes, bit by bit.
use adn_bridge.Fich.Convolution.{
  even_path, odd_path, branch_metric, new_paths, decision_word, bit, Bool, ℕ, List, bit_or, suc,
  get_or, map,
}
use native.Mathlib.Nat.{
  mul-add-div_right, div-eq_of_lt, div-div-eq-div-mul, pow-suc, one-le-pow, add-mul, mul_assoc,
}
use adn_bridge.Prelude.{
  if◌then◌else◌, true, false, Bool, ℕ, ◌≤◌, ◌<◌, List, arith, ◌^◌, ◌≡◌, bit_or, ◌*◌, ◌<<<◌, ◌+◌,
  zero, bit_or_high, ap, ◌∙◌, ◌/◌, bit_or_under, ◌%◌, get_or, refl, map,
}

-- The path that is kept into state 2 i, or with `e` into 2 i + 1.
abbrev pub kept : Bool → List ℕ → ℕ → ℕ → ℕ → ℕ × Bool
kept true old s0 s1 i = odd_path old (branch_metric s0 s1 i) i
kept false old s0 s1 i = even_path old (branch_metric s0 s1 i) i

pub bit-le : (b : Bool) → bit b ≤ 1
bit-le true = omega arith
bit-le false = omega arith

-- The two bits of one round, as a number of their own.
pair_value :
    (j : ℕ) (d0 d1 : Bool) → bit d1 * 2 ^ suc j + bit d0 * 2 ^ j ≡ (2 * bit d1 + bit d0) * 2 ^ j
pair_value j true true = omega (arith, pow-suc 2 j)
pair_value j true false = omega (arith, pow-suc 2 j)
pair_value j false true = omega (arith, pow-suc 2 j)
pair_value j false false = omega (arith, pow-suc 2 j)

low_fits : (j : ℕ) (d0 : Bool) → bit d0 * 2 ^ j < 2 ^ suc j
low_fits j true = omega (arith, pow-suc 2 j, one-le-pow j 2 (omega arith))
low_fits j false = omega (arith, pow-suc 2 j, one-le-pow j 2 (omega arith))

pair_fits :
    (j dp : ℕ) (d0 d1 : Bool) → dp < 2 ^ j → (2 * bit d1 + bit d0) * 2 ^ j + dp < 2 ^ suc (suc j)
pair_fits j dp true true h = omega (arith, pow-suc 2 j, pow-suc 2 (suc j))
pair_fits j dp true false h = omega (arith, pow-suc 2 j, pow-suc 2 (suc j))
pair_fits j dp false true h = omega (arith, pow-suc 2 j, pow-suc 2 (suc j))
pair_fits j dp false false h = omega (arith, pow-suc 2 j, pow-suc 2 (suc j))

word_step :
    (j dp : ℕ) (d0 d1 : Bool)
    → dp < 2 ^ j
    → bit_or dp (bit_or (bit d1 <<< (j + 1)) (bit d0 <<< j)) ≡ (2 * bit d1 + bit d0) * 2 ^ j + dp
word_step j dp d0 d1 h =
    let e : j + 1 ≡ suc j = omega arith in
    rw (e, bit_or_high (suc j) (bit d1) (bit d0 * 2 ^ j) (low_fits j d0), pair_value j d0 d1)
      (bit_or_under j (2 * bit d1 + bit d0) dp h)

-- A word with `q` on top of `dp`, that later rounds extend.
grown : (j dp q h : ℕ) → h * 2 ^ suc (suc j) + (q * 2 ^ j + dp) ≡ (4 * h + q) * 2 ^ j + dp
grown j dp q h = omega (
  arith,
  add-mul (4 * h) q (2 ^ j),
  ap (λ (t : ℕ). h * t) (pow-suc 2 (suc j)),
  ap (λ (t : ℕ). h * t) (pow-suc 2 j),
  mul_assoc 4 h (2 ^ j),
  four h (2 ^ suc j),
  four h (2 ^ j),
)
  where
    four : (h t : ℕ) → h * (t * 2) ≡ 2 * (h * t)
    four h t = grind arith

-- What all the rounds leave: the word so far stays below.
word_low :
    (n i j dp : ℕ) (old : List ℕ) (s0 s1 : ℕ)
    → dp < 2 ^ j
    → (h : ℕ) × (decision_word j dp (new_paths n i old s0 s1) ≡ h * 2 ^ j + dp)
unfolding decision_word new_paths
word_low zero i j dp old s0 s1 h = (0, omega arith)
word_low (suc n) i j dp old s0 s1 h =
    let d0 = (kept false old s0 s1 i).1 in
    let d1 = (kept true old s0 s1 i).1 in
    let q = 2 * bit d1 + bit d0 in
    let two : j + 2 ≡ suc (suc j) = omega arith in
    let (top, e) =
      word_low n (i + 1) (suc (suc j)) (q * 2 ^ j + dp) old s0 s1 (pair_fits j dp d0 d1 h) in
    (4 * top + q, rw (word_step j dp d0 d1 h, two) (e ∙ grown j dp q top))

quotient : (j a dp : ℕ) → dp < 2 ^ j → (a * 2 ^ j + dp) / 2 ^ j ≡ a
quotient j a dp h =
    let positive : 0 < 2 ^ j = omega arith in
    omega (arith, mul-add-div_right positive a dp, div-eq_of_lt h)

second_bit : (h : ℕ) (d0 d1 : Bool) → (4 * h + (2 * bit d1 + bit d0)) / 2 % 2 ≡ bit d1
second_bit h true true = omega arith
second_bit h true false = omega arith
second_bit h false true = omega arith
second_bit h false false = omega arith

first_bit : (h : ℕ) (d0 d1 : Bool) → (4 * h + (2 * bit d1 + bit d0)) % 2 ≡ bit d0
first_bit h true true = omega arith
first_bit h true false = omega arith
first_bit h false true = omega arith
first_bit h false false = omega arith

-- The bits of the pair that stands at `j` in a word.
pair_bits :
    (j dp h : ℕ) (d0 d1 e : Bool)
    → dp < 2 ^ j
    → (h * 2 ^ suc (suc j) + ((2 * bit d1 + bit d0) * 2 ^ j + dp)) / 2 ^ (j + bit e) % 2
      ≡ bit (if e then d1 else d0)
pair_bits j dp h d0 d1 true lt =
    let q = 2 * bit d1 + bit d0 in
    let next : 2 ^ (j + 1) ≡ 2 ^ j * 2 =
      let one : j + 1 ≡ suc j = omega arith in rw one (pow-suc 2 j) in
    rw
      (
        grown j dp q h,
        next,
        ← div-div-eq-div-mul ((4 * h + q) * 2 ^ j + dp) (2 ^ j) 2,
        quotient j (4 * h + q) dp lt,
      )
      (second_bit h d0 d1)
pair_bits j dp h d0 d1 false lt =
    let q = 2 * bit d1 + bit d0 in
    let same : j + 0 ≡ j = omega arith in
    rw (grown j dp q h, same, quotient j (4 * h + q) dp lt) (first_bit h d0 d1)

-- The decision for state 2 k + e among those that the rounds from `i` on put from bit `j` on.
pub decision_bit :
    (n k i j dp : ℕ) (e : Bool) (old : List ℕ) (s0 s1 : ℕ)
    → k < n
    → dp < 2 ^ j
    → decision_word j dp (new_paths n i old s0 s1) / 2 ^ (j + (2 * k + bit e)) % 2
      ≡ bit (kept e old s0 s1 (i + k)).1
unfolding decision_word new_paths
decision_bit zero k i j dp e old s0 s1 lt h = absurd (omega arith)
decision_bit (suc n) zero i j dp e old s0 s1 lt h =
    let d0 = (kept false old s0 s1 i).1 in
    let d1 = (kept true old s0 s1 i).1 in
    let q = 2 * bit d1 + bit d0 in
    let two : j + 2 ≡ suc (suc j) = omega arith in
    let (top, low) =
      word_low n (i + 1) (suc (suc j)) (q * 2 ^ j + dp) old s0 s1 (pair_fits j dp d0 d1 h) in
    let here : i + 0 ≡ i = omega arith in
    let place : j + (2 * 0 + bit e) ≡ j + bit e = omega arith in
    rw (word_step j dp d0 d1 h, two, low, place, here)
      (pair_bits j dp top d0 d1 e h ∙ kept_choice e old s0 s1 i)
  where
    kept_choice :
        (e : Bool) (old : List ℕ) (s0 s1 i : ℕ)
        → bit (if e then (kept true old s0 s1 i).1 else (kept false old s0 s1 i).1)
          ≡ bit (kept e old s0 s1 i).1
    kept_choice true old s0 s1 i = refl
    kept_choice false old s0 s1 i = refl
decision_bit (suc n) (suc k) i j dp e old s0 s1 lt h =
    let d0 = (kept false old s0 s1 i).1 in
    let d1 = (kept true old s0 s1 i).1 in
    let two : j + 2 ≡ suc (suc j) = omega arith in
    let place : j + (2 * suc k + bit e) ≡ suc (suc j) + (2 * k + bit e) = omega arith in
    let round : i + suc k ≡ i + 1 + k = omega arith in
    rw (word_step j dp d0 d1 h, two, place, round)
      (decision_bit n k (i + 1) (suc (suc j)) ((2 * bit d1 + bit d0) * 2 ^ j + dp) e old s0 s1
        (omega arith) (pair_fits j dp d0 d1 h))

-- The metric of state 2 k + e.
pub path_metric :
    (n k i : ℕ) (e : Bool) (old : List ℕ) (s0 s1 : ℕ)
    → k < n
    → get_or (map (λ p. p.0) (new_paths n i old s0 s1)) (2 * k + bit e) 0
      ≡ (kept e old s0 s1 (i + k)).0
unfolding new_paths
path_metric zero k i e old s0 s1 lt = absurd (omega arith)
path_metric (suc n) zero i true old s0 s1 lt = let here : i + 0 ≡ i = omega arith in rw here refl
path_metric (suc n) zero i false old s0 s1 lt = let here : i + 0 ≡ i = omega arith in rw here refl
path_metric (suc n) (suc k) i e old s0 s1 lt =
    let place : 2 * suc k + bit e ≡ suc (suc (2 * k + bit e)) = omega arith in
    let round : i + suc k ≡ i + 1 + k = omega arith in
    rw (place, round) (path_metric n k (i + 1) e old s0 s1 (omega arith))
