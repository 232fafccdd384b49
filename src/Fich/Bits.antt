-- ===== src/Fich/Bits.antt =====
-- ysf_fich.c: READ_BIT1 and WRITE_BIT1 on an array of bytes, and runs of such writes.
use adn_bridge.Prelude.{
  ℕ, List, Bool, [], ◌^◌, not, get_or, ◌∷◌, ◌-◌, ◌>>>◌, ◌%◌, bit_and, ◌+◌, ◌==◌, set, zero,
  if◌then◌else◌, bit_or,
}
use Prim.Native.Nat.{ℕ, suc, bit_and, bit_or}
pub mod Laws
pub mod Bytes

-- BIT_MASK_TABLE[i & 7]
abbrev pub bit_mask : ℕ → ℕ
bit_mask i = 2 ^ (7 - i % 8)

-- READ_BIT1(p, i) as a truth value
unfoldable pub read_bit : List ℕ → ℕ → Bool
read_bit p i = not (bit_and (get_or p (i >>> 3) 0) (bit_mask i) == 0)

-- WRITE_BIT1(p, i, b)
unfoldable pub write_bit : List ℕ → ℕ → Bool → List ℕ
write_bit p i b =
    let x = get_or p (i >>> 3) 0 in
    set p (i >>> 3) (if b then bit_or x (bit_mask i) else bit_and x (255 - bit_mask i))

-- Writes of `bits` at `places`, in order, and reads there.
unfoldable pub write_bits : List ℕ → List Bool → List ℕ → List ℕ
write_bits [] bits p = p
write_bits (i ∷ is) [] p = p
write_bits (i ∷ is) (b ∷ bs) p = write_bits is bs (write_bit p i b)

unfoldable pub read_bits : List ℕ → List ℕ → List Bool
read_bits [] p = []
read_bits (i ∷ is) p = read_bit p i ∷ read_bits is p

-- `i`, `i + 1`, and so on: `n` places.
unfoldable pub upto : ℕ → ℕ → List ℕ
upto i zero = []
upto i (suc n) = i ∷ upto (i + 1) n
