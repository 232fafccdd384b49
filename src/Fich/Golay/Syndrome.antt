-- ===== src/Fich/Golay/Syndrome.antt =====
-- The two loops of get_syndrome_23127 end, within their fuel.
use adn_bridge.Fich.Golay.{
  lower_aux, reduce, get_syndrome_23127, x11, mask12, genpol, ℕ, bit_and, suc, bit_xor, leb,
}
use native.Mathlib.Nat.{pow-suc, one-le-pow}
use adn_bridge.Prelude.{
  true, false, ℕ, ◌<◌, ◌^◌, bit_and, ◌≤◌, ◌≡◌, ◌+◌, ◌==◌, suc, ◌/◌, arith, ◌>>>◌, bit_xor, ◌*◌,
  bit_and-pow_top, bit_and-high, bit_and-pow_below, ◌-◌, ◌∙◌, bit_and_mask, zero, Bool-cases, refl,
  ltb, leb, inl, ltb→lt, inr, subst, sym, bit_xor-lt,
}

lower_aux-stop :
    (fuel aux pattern : ℕ)
    → (bit_and aux pattern == 0) ≡ false
    → lower_aux (suc fuel) aux pattern ≡ aux
unfolding lower_aux
lower_aux-stop fuel aux pattern h = ground arith

lower_aux-next :
    (fuel aux pattern : ℕ)
    → (bit_and aux pattern == 0) ≡ true
    → lower_aux (suc fuel) aux pattern ≡ lower_aux fuel (aux >>> 1) pattern
unfolding lower_aux
lower_aux-next fuel aux pattern h = ground arith

reduce-stop :
    (fuel aux pattern : ℕ)
    → (bit_and pattern mask12 == 0) ≡ true
    → reduce (suc fuel) aux pattern ≡ pattern
unfolding reduce
reduce-stop fuel aux pattern h = ground arith

reduce-next :
    (fuel aux pattern : ℕ)
    → (bit_and pattern mask12 == 0) ≡ false
    → reduce (suc fuel) aux pattern
      ≡ reduce fuel
          (lower_aux 23 aux pattern)
          (bit_xor pattern (lower_aux 23 aux pattern / x11 * genpol))
unfolding reduce
reduce-next fuel aux pattern h = ground arith

-- The inner loop goes down from 2^(b + k) to the highest bit of the pattern, 2^b.
lower_aux_top :
    (k fuel b pattern : ℕ)
    → k < fuel
    → 2 ^ b ≤ pattern
    → pattern < 2 ^ suc b
    → lower_aux fuel (2 ^ (k + b)) pattern ≡ 2 ^ b
lower_aux_top k zero b pattern h l u = absurd (omega arith)
lower_aux_top zero (suc fuel) b pattern h l u =
    let here : 0 + b ≡ b = omega arith in
    let some_bit : (bit_and (2 ^ b) pattern == 0) ≡ false =
      ground (arith, bit_and-pow_top b pattern l u, one-le-pow b 2 (omega arith)) in
    rw here (lower_aux-stop fuel (2 ^ b) pattern some_bit)
lower_aux_top (suc k) (suc fuel) b pattern h l u =
    let up : suc k + b ≡ suc (k + b) = omega arith in
    let half : 2 ^ suc (k + b) / 2 ^ 1 ≡ 2 ^ (k + b) = omega (arith, pow-suc 2 (k + b)) in
    let no_bit : (bit_and (2 ^ suc (k + b)) pattern == 0) ≡ true =
      ground (arith, bit_and-pow_below (suc (k + b)) pattern (omega (arith, higher k b))) in
    rw up (
      lower_aux-next fuel (2 ^ suc (k + b)) pattern no_bit
      ∙ rw half (lower_aux_top k fuel b pattern (omega arith) l u))
  where
    higher : (k b : ℕ) → 2 ^ suc b ≤ 2 ^ suc (k + b)
    higher zero b = let here : 0 + b ≡ b = omega arith in rw here (omega arith)
    higher (suc k) b =
        let up : suc k + b ≡ suc (k + b) = omega arith in
        rw up (omega (arith, higher k b, pow-suc 2 (suc (k + b))))

-- `pattern & MASK12`, for the patterns of 23 bits.
masked_high : (pattern : ℕ) → pattern < 2 ^ 23 → bit_and pattern mask12 ≡ pattern / 2 ^ 11 * 2 ^ 11
masked_high pattern h =
    omega (arith, bit_and-high 11 pattern (2 ^ 21 - 1), bit_and_mask 21 (pattern / 2 ^ 11))

split_pow : (j : ℕ) → 2 ^ (11 + j) ≡ 2 ^ j * 2048
split_pow zero = refl
split_pow (suc j) =
    let up : 11 + suc j ≡ suc (11 + j) = omega arith in
    rw up (omega (arith, pow-suc 2 (11 + j), pow-suc 2 j, split_pow j))

-- The generator under the highest bit takes it away.
shifted :
    (j : ℕ)
    → (2 ^ (11 + j) ≤ 2 ^ (11 + j) / x11 * genpol)
      × (2 ^ (11 + j) / x11 * genpol < 2 ^ suc (11 + j))
shifted j =
    let whole = split_pow j in
    let quotient : 2 ^ (11 + j) / 2048 ≡ 2 ^ j = omega (arith, whole) in
    let positive = one-le-pow j 2 (omega arith) in
    rw quotient (omega (arith, whole), omega (arith, whole, positive, pow-suc 2 (11 + j)))

-- The highest bit of a pattern of more than eleven.
top_bit :
    (n pattern : ℕ)
    → 2 ^ 11 ≤ pattern
    → pattern < 2 ^ (11 + n)
    → (j : ℕ) × (j < n) × (2 ^ (11 + j) ≤ pattern) × (pattern < 2 ^ suc (11 + j))
top_bit zero pattern l u = absurd (omega arith)
top_bit (suc n) pattern l u =
    let up : 11 + suc n ≡ suc (11 + n) = omega arith in
    let u' : pattern < 2 ^ suc (11 + n) = rw up at u in
    elim (Bool-cases (ltb pattern (2 ^ (11 + n)))) [
      | inl low ↦
          let (j, fits, above, below) = top_bit n pattern l (ltb→lt pattern (2 ^ (11 + n)) low) in
          (j, omega arith, above, below)
      | inr high ↦ (n, omega arith, ground arith, u')
    ]

reduce_small :
    (fuel n a pattern : ℕ)
    → n < fuel
    → a ≤ 22
    → 11 + n ≤ suc a
    → pattern < 2 ^ 23
    → pattern < 2 ^ (11 + n)
    → reduce fuel (2 ^ a) pattern < 2 ^ 11
reduce_small zero n a pattern f h le u u' = absurd (omega arith)
reduce_small (suc fuel) n a pattern f h le u u' = elim (Bool-cases (ltb pattern (2 ^ 11))) [
  | inl low ↦
      let small = ltb→lt pattern (2 ^ 11) low in
      let empty : (bit_and pattern mask12 == 0) ≡ true = ground (arith, masked_high pattern u) in
      rw (reduce-stop fuel (2 ^ a) pattern empty) small
  | inr high ↦
      let big : 2 ^ 11 ≤ pattern = ground arith in
      let full : (bit_and pattern mask12 == 0) ≡ false = ground (arith, masked_high pattern u) in
      let (j, fits, above, below) = top_bit n pattern big u' in
      let down : a ≡ a - (11 + j) + (11 + j) = omega arith in
      let aux : lower_aux 23 (2 ^ a) pattern ≡ 2 ^ (11 + j) =
        subst (λ (e : ℕ). lower_aux 23 (2 ^ e) pattern ≡ 2 ^ (11 + j)) (sym down)
          (lower_aux_top (a - (11 + j)) 23 (11 + j) pattern (omega arith) above below) in
      let next = shifted j in
      let shorter =
        bit_xor-lt (11 + j) pattern (2 ^ (11 + j) / x11 * genpol) above below next.0 next.1 in
      rw (reduce-next fuel (2 ^ a) pattern full, aux)
        (reduce_small fuel j (11 + j) _ (omega arith) (omega arith) (omega arith)
          (omega (arith, shorter)) shorter)
]

-- get_syndrome_23127 ends on every pattern of 23 bits within the fuel of its two loops, 13 rounds
-- of the outer and 23 of the inner one, and by the condition of the loop: its result has no bit
-- above the eleventh.
pub get_syndrome_ends : (pattern : ℕ) → pattern < 2 ^ 23 → get_syndrome_23127 pattern < 2 ^ 11
unfolding get_syndrome_23127
get_syndrome_ends pattern h = elim (Bool-cases (leb x11 pattern)) [
  | inl big ↦ rw big (reduce_small 13 12 22 pattern (omega arith) (omega arith) (omega arith) h h)
  | inr small ↦ rw small (ground arith)
]
