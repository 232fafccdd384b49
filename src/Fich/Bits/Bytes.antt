-- ===== src/Fich/Bits/Bytes.antt =====
-- Arrays of bytes with the same bits have the same bytes.
use adn_bridge.Fich.Bits.{read_bit, Bool, ℕ, List}
use adn_bridge.Fich.Bits.Laws.{got, get_or-IsBytes}
use adn_bridge.Prelude.{
  true, false, get_or, all_below, Bool, ℕ, List, ◌<◌, IsBytes, ◌+◌, ◌==◌, ◌≡◌, ◌*◌, ==_iff, arith,
  ◌/◌, sym, refl, all_below_sound, ◌∙◌, ◌^◌, ◌%◌,
}

abbrev weigh : Bool → ℕ → ℕ
weigh true n = n
weigh false n = 0

abbrev total : (ℕ → Bool) → ℕ
total b =
    weigh (b 0) 128
    + weigh (b 1) 64
    + weigh (b 2) 32
    + weigh (b 3) 16
    + weigh (b 4) 8
    + weigh (b 5) 4
    + weigh (b 6) 2
    + weigh (b 7) 1

total_checks : all_below 256 (λ x. total (got x) == x) ≡ true
total_checks = refl

total-got : (x : ℕ) → x < 256 → total (got x) ≡ x
total-got x h =
    (==_iff (total (got x)) x).0 (all_below_sound 256 (λ x. total (got x) == x) x total_checks h)

total_same : (a b : ℕ → Bool) → ((j : ℕ) → j < 8 → a j ≡ b j) → total a ≡ total b
total_same a b h =
    rw
      (
        h 0 (omega arith),
        h 1 (omega arith),
        h 2 (omega arith),
        h 3 (omega arith),
        h 4 (omega arith),
        h 5 (omega arith),
        h 6 (omega arith),
        h 7 (omega arith),
      )
      refl

read_bit-got : (p : List ℕ) (k j : ℕ) → j < 8 → read_bit p (8 * k + j) ≡ got (get_or p k 0) j
unfolding read_bit
read_bit-got p k j h =
    let byte : (8 * k + j) / 2 ^ 3 ≡ k = omega arith in
    let place : (8 * k + j) % 8 ≡ j = omega arith in rw (byte, place) refl

pub get_or-read_bit :
    (p q : List ℕ) (k : ℕ)
    → IsBytes p
    → IsBytes q
    → ((j : ℕ) → j < 8 → read_bit p (8 * k + j) ≡ read_bit q (8 * k + j))
    → get_or p k 0 ≡ get_or q k 0
get_or-read_bit p q k hp hq h =
    sym (total-got (get_or p k 0) (get_or-IsBytes p k hp))
    ∙ total_same (got (get_or p k 0)) (got (get_or q k 0))
        (λ j lt. sym (read_bit-got p k j lt) ∙ h j lt ∙ read_bit-got q k j lt)
    ∙ total-got (get_or q k 0) (get_or-IsBytes q k hq)
