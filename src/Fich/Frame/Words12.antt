-- ===== src/Fich/Frame/Words12.antt =====
-- The six bytes of m_fich as four words of twelve bits, and back.
use adn_bridge.Fich.Frame.{upper_word, lower_word, fich_bytes, ℕ, bit_and, List, bit_or}
use adn_bridge.Prelude.{
  true, all_below, ℕ, ◌==◌, ◌<◌, bit_and, List, ◌&&◌, ◌≡◌, arith, ◌<<<◌, ◌>>>◌, ◌%◌, ◌*◌, ◌∷◌,
  all_below_sound, ◌+◌, refl, ◌/◌, bit_or_high, ◌^◌, bit_or, Bool,
}

abbrev byte_fits : ℕ → Bool
byte_fits x =
    (bit_and (x <<< 4) 0xFF0 == x <<< 4)
    && (bit_and (x >>> 4) 0x00F == x >>> 4)
    && (bit_and (x <<< 8) 0xF00 == (x % 16) <<< 8)
    && (bit_and (x >>> 0) 0x0FF == x)

byte_masks : all_below 256 byte_fits ≡ true
byte_masks = refl

abbrev word_fits : ℕ → Bool
word_fits b =
    (bit_and (b >>> 4) 0xFF == b >>> 4)
    && (bit_and (b <<< 4) 0xF0 == (b % 16) <<< 4)
    && (bit_and (b >>> 8) 0x0F == b >>> 8)
    && (bit_and (b >>> 0) 0xFF == b % 256)

word_masks : all_below 4096 word_fits ≡ true
word_masks = refl

pub four_equal :
    (a b c d a' b' c' d' : ℕ)
    → ((a == a') && (b == b') && (c == c') && (d == d')) ≡ true
    → (a ≡ a') × (b ≡ b') × (c ≡ c') × (d ≡ d')
four_equal a b c d a' b' c' d' h = (ground arith, ground arith, ground arith, ground arith)

module _ (x : ℕ) (h : x < 256) where
  byte_parts :
      (bit_and (x <<< 4) 0xFF0 ≡ x <<< 4)
      × (bit_and (x >>> 4) 0x00F ≡ x >>> 4)
      × (bit_and (x <<< 8) 0xF00 ≡ (x % 16) <<< 8)
      × (bit_and (x >>> 0) 0x0FF ≡ x)
  byte_parts = four_equal _ _ _ _ _ _ _ _ (all_below_sound 256 byte_fits x byte_masks h)

module _ (b : ℕ) (h : b < 4096) where
  word_parts :
      (bit_and (b >>> 4) 0xFF ≡ b >>> 4)
      × (bit_and (b <<< 4) 0xF0 ≡ (b % 16) <<< 4)
      × (bit_and (b >>> 8) 0x0F ≡ b >>> 8)
      × (bit_and (b >>> 0) 0xFF ≡ b % 256)
  word_parts = four_equal _ _ _ _ _ _ _ _ (all_below_sound 4096 word_fits b word_masks h)

upper_sum : (x y : ℕ) → x < 256 → y < 256 → upper_word x y ≡ x * 16 + y / 16
unfolding upper_word
upper_sum x y hx hy =
    rw ((byte_parts x hx).0, (byte_parts y hy).1) (bit_or_high 4 x (y / 16) (omega arith))

lower_sum : (y z : ℕ) → y < 256 → z < 256 → lower_word y z ≡ y % 16 * 256 + z
unfolding lower_word
lower_sum y z hy hz =
    rw ((byte_parts y hy).2, (byte_parts z hz).3) (bit_or_high 8 (y % 16) z (omega arith))

pub upper_small : (x y : ℕ) → x < 256 → y < 256 → upper_word x y < 4096
upper_small x y hx hy = omega (arith, upper_sum x y hx hy)

pub lower_small : (y z : ℕ) → y < 256 → z < 256 → lower_word y z < 4096
lower_small y z hy hz = omega (arith, lower_sum y z hy hz)

-- Three bytes go through two words.
pub fich_bytes-words :
    (x y z : ℕ) (rest : List ℕ)
    → x < 256
    → y < 256
    → z < 256
    → fich_bytes (upper_word x y) (lower_word y z) rest ≡ x ∷ y ∷ z ∷ rest
unfolding fich_bytes
fich_bytes-words x y z rest hx hy hz =
    let b0 = x * 16 + y / 16 in
    let b1 = y % 16 * 256 + z in
    let p0 = word_parts b0 (omega arith) in
    let p1 = word_parts b1 (omega arith) in
    let first : b0 / 2 ^ 4 ≡ x = omega arith in
    let low : b0 % 16 ≡ y / 16 = omega arith in
    let high : b1 / 2 ^ 8 ≡ y % 16 = omega arith in
    let third : b1 % 256 ≡ z = omega arith in
    let middle : bit_or (y / 16 * 2 ^ 4) (y % 16) ≡ y =
      omega (arith, bit_or_high 4 (y / 16) (y % 16) (omega arith)) in
    rw
      (
        upper_sum x y hx hy,
        lower_sum y z hy hz,
        p0.0,
        p0.1,
        p1.2,
        p1.3,
        first,
        low,
        high,
        third,
        middle,
      )
      refl
