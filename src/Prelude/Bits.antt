-- ===== src/Prelude/Bits.antt =====
-- `|`, `&` and `^` at variables: the law of the lowest digit, disjoint fields, and low masks.
use Prim.Native.Nat.{
  ℕ, zero, suc, ◌+◌, ◌-◌, ◌*◌, ◌/◌, ◌%◌, ◌^◌, ◌≤◌, ◌<◌, min, max, bit_and, bit_or, digits, bitwise,
  bit_and-bitwise, bit_or-bitwise, bit_xor, bit_xor-bitwise, differ,
}
use mathlib.Core.Path.{◌≡◌, refl, sym, ap, ◌∙◌}
use native.Mathlib.Nat.{pow-suc, one-le-pow, div-div-eq-div-mul, mul_comm}
use native.Mathlib.Omega.{arith}

module _ (z : ℕ → ℕ) (f : ℕ → ℕ → ℕ) where
  digits_end : (n b : ℕ) → digits z f n 0 b ≡ z b
  digits_end zero b = refl
  digits_end (suc n) b = refl

  digits_enough : (n m a b : ℕ) → a ≤ n → a ≤ m → digits z f n a b ≡ digits z f m a b
  digits_enough n m zero b p q = digits_end n b ∙ sym (digits_end m b)
  digits_enough zero m (suc a) b p q = absurd (omega arith)
  digits_enough (suc n) zero (suc a) b p q = absurd (omega arith)
  digits_enough (suc n) (suc m) (suc a) b p q =
      ap (λ (t : ℕ). t * 2 + f (suc a % 2) (b % 2))
        (digits_enough n m (suc a / 2) (b / 2) (omega arith) (omega arith))

  bitwise_low :
      (a b : ℕ)
      → bitwise z f (suc a) b ≡ bitwise z f (suc a / 2) (b / 2) * 2 + f (suc a % 2) (b % 2)
  bitwise_low a b =
      ap (λ (t : ℕ). t * 2 + f (suc a % 2) (b % 2))
        (digits_enough a (suc a / 2) (suc a / 2) (b / 2) (omega arith) (omega arith))

pub bit_or_low : (a b : ℕ) → bit_or a b ≡ bit_or (a / 2) (b / 2) * 2 + max (a % 2) (b % 2)
bit_or_low zero b = omega (arith, bit_or-bitwise 0 b, bit_or-bitwise 0 (b / 2))
bit_or_low (suc a) b = omega (
  arith,
  bit_or-bitwise (suc a) b,
  bit_or-bitwise (suc a / 2) (b / 2),
  bitwise_low (λ y. y) max a b,
)

pub bit_and_low : (a b : ℕ) → bit_and a b ≡ bit_and (a / 2) (b / 2) * 2 + min (a % 2) (b % 2)
bit_and_low zero b = omega (arith, bit_and-bitwise 0 b, bit_and-bitwise 0 (b / 2))
bit_and_low (suc a) b = omega (
  arith,
  bit_and-bitwise (suc a) b,
  bit_and-bitwise (suc a / 2) (b / 2),
  bitwise_low (λ y. 0) min a b,
)

zero-bit_or : (b : ℕ) → bit_or 0 b ≡ b
zero-bit_or b = bit_or-bitwise 0 b

pub zero-bit_and : (b : ℕ) → bit_and 0 b ≡ 0
zero-bit_and b = bit_and-bitwise 0 b

bit_or-zero_below : (n a : ℕ) → a ≤ n → bit_or a 0 ≡ a
bit_or-zero_below n zero h = refl
bit_or-zero_below zero (suc a) h = absurd (omega arith)
bit_or-zero_below (suc n) (suc a) h =
    omega (arith, bit_or_low (suc a) 0, bit_or-zero_below n (suc a / 2) (omega arith))

pub bit_or-zero : (a : ℕ) → bit_or a 0 ≡ a
bit_or-zero a = bit_or-zero_below a a (omega arith)

bit_and-zero_below : (n a : ℕ) → a ≤ n → bit_and a 0 ≡ 0
bit_and-zero_below n zero h = refl
bit_and-zero_below zero (suc a) h = absurd (omega arith)
bit_and-zero_below (suc n) (suc a) h =
    omega (arith, bit_and_low (suc a) 0, bit_and-zero_below n (suc a / 2) (omega arith))

double : (q k : ℕ) → q * 2 ^ suc k ≡ 2 * (q * 2 ^ k)
double q k = omega (arith, ap (λ (t : ℕ). q * t) (pow-suc 2 k))

-- `(q << k) | r` is a sum where `r` fits below.
pub bit_or_high : (k q r : ℕ) → r < 2 ^ k → bit_or (q * 2 ^ k) r ≡ q * 2 ^ k + r
bit_or_high zero q r h = ground (arith, bit_or-zero_below q q)
bit_or_high (suc k) q r h = omega (
  arith,
  bit_or_low (q * 2 ^ suc k) r,
  double q k,
  pow-suc 2 k,
  ap (λ (t : ℕ). bit_or t (r / 2)) (half_double q k),
  bit_or_high k q (r / 2) (omega (arith, pow-suc 2 k)),
)
  where
    half_double : (q k : ℕ) → q * 2 ^ suc k / 2 ≡ q * 2 ^ k
    half_double q k = omega (arith, double q k)

-- The same, with the low field first.
pub bit_or_under : (k q r : ℕ) → r < 2 ^ k → bit_or r (q * 2 ^ k) ≡ q * 2 ^ k + r
bit_or_under zero q r h = ground (arith, zero-bit_or q)
bit_or_under (suc k) q r h = omega (
  arith,
  bit_or_low r (q * 2 ^ suc k),
  double q k,
  pow-suc 2 k,
  ap (λ (t : ℕ). bit_or (r / 2) t) (half_double q k),
  bit_or_under k q (r / 2) (omega (arith, pow-suc 2 k)),
)
  where
    half_double : (q k : ℕ) → q * 2 ^ suc k / 2 ≡ q * 2 ^ k
    half_double q k = omega (arith, double q k)

-- A mask of the `k` low bits takes them.
bit_and_under : (k q r : ℕ) → r < 2 ^ k → bit_and (q * 2 ^ k + r) (2 ^ k - 1) ≡ r
bit_and_under zero q r h =
    omega (arith, bit_and-zero_below (q * 2 ^ zero + r) (q * 2 ^ zero + r) (omega arith))
bit_and_under (suc k) q r h = ground (
  arith,
  bit_and_low (q * 2 ^ suc k + r) (2 ^ suc k - 1),
  double q k,
  pow-suc 2 k,
  one-le-pow k 2,
  bit_and_under k q (r / 2) (omega (arith, pow-suc 2 k)),
)

pub bit_and_mask : (k a : ℕ) → bit_and a (2 ^ k - 1) ≡ a % 2 ^ k
bit_and_mask k a = ground (arith, one-le-pow k 2, bit_and_under k (a / 2 ^ k) (a % 2 ^ k))

-- `&` gives no more than its mask, and `|` of two `k`-bit numbers fits in `k` bits.
bit_and-le_below : (n a b : ℕ) → b ≤ n → bit_and a b ≤ b
bit_and-le_below zero a b h =
    omega (arith, bit_and_low a b, bit_and-zero_below a a (omega arith), same)
  where
    same : bit_and a b ≡ bit_and a 0
    same = ap (λ (t : ℕ). bit_and a t) (omega arith)
bit_and-le_below (suc n) a zero h = omega (arith, bit_and-zero_below a a (omega arith))
bit_and-le_below (suc n) a (suc b) h =
    omega (arith, bit_and_low a (suc b), bit_and-le_below n (a / 2) (suc b / 2) (omega arith))

pub bit_and-le : (a b : ℕ) → bit_and a b ≤ b
bit_and-le a b = bit_and-le_below b a b (omega arith)

pub bit_or-lt : (k a b : ℕ) → a < 2 ^ k → b < 2 ^ k → bit_or a b < 2 ^ k
bit_or-lt zero a b ha hb =
    let a0 : a ≡ 0 = omega arith in let b0 : b ≡ 0 = omega arith in rw (a0, b0) (omega arith)
bit_or-lt (suc k) a b ha hb = omega (
  arith,
  bit_or_low a b,
  pow-suc 2 k,
  bit_or-lt k (a / 2) (b / 2) (omega (arith, pow-suc 2 k)) (omega (arith, pow-suc 2 k)),
)

-- A mask of high bits works on the quotient.
pub bit_and-high : (k p m : ℕ) → bit_and p (m * 2 ^ k) ≡ bit_and (p / 2 ^ k) m * 2 ^ k
bit_and-high zero p m =
    let one : m * 2 ^ zero ≡ m = omega arith in
    let same : p / 2 ^ zero ≡ p = omega arith in rw (one, same) (omega arith)
bit_and-high (suc k) p m =
    let half : m * 2 ^ suc k / 2 ≡ m * 2 ^ k = omega (arith, double m k) in
    let deeper : p / 2 ^ suc k ≡ p / 2 / 2 ^ k =
      rw (pow-suc 2 k, mul_comm (2 ^ k) 2) (sym (div-div-eq-div-mul p 2 (2 ^ k))) in
    omega (
      arith,
      bit_and_low p (m * 2 ^ suc k),
      double m k,
      ap (λ (t : ℕ). bit_and (p / 2) t) half,
      bit_and-high k (p / 2) m,
      ap (λ (t : ℕ). bit_and t m * 2 ^ suc k) deeper,
      double (bit_and (p / 2 / 2 ^ k) m) k,
    )

-- `^`: the law of the lowest digit, and two numbers of one length leave a shorter one.
pub bit_xor_low : (a b : ℕ) → bit_xor a b ≡ bit_xor (a / 2) (b / 2) * 2 + (a % 2 + b % 2) % 2
bit_xor_low zero b = omega (arith, bit_xor-bitwise 0 b, bit_xor-bitwise 0 (b / 2))
bit_xor_low (suc a) b = omega (
  arith,
  bit_xor-bitwise (suc a) b,
  bit_xor-bitwise (suc a / 2) (b / 2),
  bitwise_low (λ y. y) differ a b,
  differ_digits (suc a % 2) (b % 2) (omega arith) (omega arith),
)
  where
    differ_digits : (x y : ℕ) → x < 2 → y < 2 → differ x y ≡ (x + y) % 2
    differ_digits zero y hx hy = omega arith
    differ_digits (suc zero) zero hx hy = refl
    differ_digits (suc zero) (suc zero) hx hy = refl
    differ_digits (suc zero) (suc (suc y)) hx hy = absurd (omega arith)
    differ_digits (suc (suc x)) y hx hy = absurd (omega arith)

pub bit_xor-lt :
    (k a b : ℕ) → 2 ^ k ≤ a → a < 2 ^ suc k → 2 ^ k ≤ b → b < 2 ^ suc k → bit_xor a b < 2 ^ k
bit_xor-lt zero a b ha la hb lb =
    let one_a : a ≡ 1 = omega arith in
    let one_b : b ≡ 1 = omega arith in rw (one_a, one_b) (omega arith)
bit_xor-lt (suc k) a b ha la hb lb = omega (
  arith,
  bit_xor_low a b,
  pow-suc 2 k,
  pow-suc 2 (suc k),
  bit_xor-lt k (a / 2) (b / 2) (omega (arith, pow-suc 2 k)) (omega (arith, pow-suc 2 (suc k)))
      (omega (arith, pow-suc 2 k)) (omega (arith, pow-suc 2 (suc k))),
)

-- One bit of a number.
pub bit_and-pow_below : (b p : ℕ) → p < 2 ^ b → bit_and (2 ^ b) p ≡ 0
bit_and-pow_below zero p h = let none : p ≡ 0 = omega arith in rw none refl
bit_and-pow_below (suc b) p h =
    let half : 2 ^ suc b / 2 ≡ 2 ^ b = omega (arith, pow-suc 2 b) in
    omega (
      arith,
      bit_and_low (2 ^ suc b) p,
      pow-suc 2 b,
      ap (λ (t : ℕ). bit_and t (p / 2)) half,
      bit_and-pow_below b (p / 2) (omega (arith, pow-suc 2 b)),
    )

pub bit_and-pow_top : (b p : ℕ) → 2 ^ b ≤ p → p < 2 ^ suc b → bit_and (2 ^ b) p ≡ 2 ^ b
bit_and-pow_top zero p l h = let one : p ≡ 1 = omega arith in rw one refl
bit_and-pow_top (suc b) p l h =
    let half : 2 ^ suc b / 2 ≡ 2 ^ b = omega (arith, pow-suc 2 b) in
    omega (
      arith,
      bit_and_low (2 ^ suc b) p,
      pow-suc 2 b,
      pow-suc 2 (suc b),
      ap (λ (t : ℕ). bit_and t (p / 2)) half,
      bit_and-pow_top b (p / 2) (omega (arith, pow-suc 2 b)) (omega (arith, pow-suc 2 (suc b))),
    )
