-- ===== src/Hbp/Bptc/Read.antt =====
-- The block product turbo code as a receiver reads it, before the bits are packed into bytes.
use adn_bridge.Hbp.Bits.{at, hamming_encode15113_2, hamming_encode1393}
use adn_bridge.Hbp.Bptc.{
  bptc_interleave, Bool, bptc_columns, [], bptc_rows, bptc_extract, at, to_bits, bptc_bits,
}
use mathlib.Core.Bool.{xor, not, ◌&&◌}
use adn_bridge.Prelude.{
  true, false, replicate, length, arith, ℕ, List, Bool, [], ◌++◌, ◌*◌, ◌∷◌, ◌≡◌, ◌%◌, ◌+◌, zero,
  refl,
}
use Prim.Native.Nat.{ℕ, suc}

-- Bit `a` of the square, at its place in the interleaved bits.
abbrev pub deinterleave : ℕ → ℕ → List Bool → List Bool
deinterleave zero a raw = []
deinterleave (suc n) a raw = at raw ((a * 181) % 196) ∷ deinterleave n (a + 1) raw

-- `n` bits from position `p` on.
abbrev pub slice : ℕ → ℕ → List Bool → List Bool
slice zero p d = []
slice (suc n) p d = at d p ∷ slice n (p + 1) d

-- The payload: eight bits of the first row, eleven of each of the next eight.
abbrev pub read_payload : List Bool → List Bool
read_payload d =
    slice 8 4 d
    ++ slice 11 16 d
    ++ slice 11 31 d
    ++ slice 11 46 d
    ++ slice 11 61 d
    ++ slice 11 76 d
    ++ slice 11 91 d
    ++ slice 11 106 d
    ++ slice 11 121 d

-- `n` bits below one another, from position `p` on.
abbrev pub column : ℕ → ℕ → List Bool → List Bool
column zero p d = []
column (suc n) p d = at d p ∷ column n (p + 15) d

-- The remainder of a polynomial over two elements, the highest coefficient first, by x^4 + x + 1,
-- which generates the Hamming code of 15 bits and its shortened codes.
abbrev pub Remainder : Type 0
Remainder = Bool × Bool × Bool × Bool

abbrev pub remainder : Remainder → List Bool → Remainder
remainder (r3, r2, r1, r0) [] = (r3, r2, r1, r0)
remainder (r3, r2, r1, r0) (b ∷ bs) = remainder (r2, r1, xor r0 r3, xor b r3) bs

abbrev pub IsCodeword : List Bool → Type 0
IsCodeword bits = remainder (false, false, false, false) bits ≡ (false, false, false, false)

abbrev pub AllRows : ℕ → ℕ → List Bool → Type 0
AllRows zero r d = Unit
AllRows (suc n) r d = IsCodeword (slice 15 (r * 15 + 1) d) × AllRows n (r + 1) d

abbrev pub AllColumns : ℕ → ℕ → List Bool → Type 0
AllColumns zero c d = Unit
AllColumns (suc n) c d = IsCodeword (column 13 (c + 1) d) × AllColumns n (c + 1) d

-- A test of `n` bits, at all their values.
abbrev every : ℕ → (List Bool → Bool) → Bool
every zero f = f []
every (suc n) f = every n (λ bs. f (false ∷ bs)) && every n (λ bs. f (true ∷ bs))

every_lem :
    (n : ℕ) (f : List Bool → Bool) (bits : List Bool)
    → every n f ≡ true
    → length bits ≡ n
    → f bits ≡ true
every_lem zero f [] h l = h
every_lem zero f (b ∷ bs) h l = absurd (omega arith)
every_lem (suc n) f [] h l = absurd (omega arith)
every_lem (suc n) f (false ∷ bs) h l =
    every_lem n (λ bs. f (false ∷ bs)) bs (ground arith) (omega arith)
every_lem (suc n) f (true ∷ bs) h l =
    every_lem n (λ bs. f (true ∷ bs)) bs (ground arith) (omega arith)

abbrev is_zero : Remainder → Bool
is_zero (r3, r2, r1, r0) = not r3 && not r2 && not r1 && not r0

is_zero_lem : (r : Remainder) → is_zero r ≡ true → r ≡ (false, false, false, false)
is_zero_lem (false, false, false, false) h = refl
is_zero_lem (true, r2, r1, r0) h = ground arith
is_zero_lem (false, true, r1, r0) h = ground arith
is_zero_lem (false, false, true, r0) h = ground arith
is_zero_lem (false, false, false, true) h = ground arith

abbrev row_of : List Bool → List Bool
row_of bits = slice 15 0 (hamming_encode15113_2 0 (bits ++ replicate 4 false))

abbrev column_of : List Bool → List Bool
column_of bits = slice 13 0 (hamming_encode1393 (bits ++ replicate 4 false))

row_of-IsCodeword : (bits : List Bool) → length bits ≡ 11 → IsCodeword (row_of bits)
unfolding hamming_encode15113_2 xor
row_of-IsCodeword bits l =
    is_zero_lem _ (
      every_lem 11 (λ bs. is_zero (remainder (false, false, false, false) (row_of bs))) bits refl l)

column_of-IsCodeword : (bits : List Bool) → length bits ≡ 9 → IsCodeword (column_of bits)
unfolding hamming_encode1393 xor
column_of-IsCodeword bits l = is_zero_lem _ (
    every_lem 9 (λ bs. is_zero (remainder (false, false, false, false) (column_of bs))) bits refl l)

infixr 20 ◌&◌
abbrev ◌&◌ {ℓ ℓ'} : {A : Type ℓ} {B : Type ℓ'} → A → B → A × B
a & b = (a, b)

-- A receiver that undoes the interleaving reads the twelve bytes back, whatever they are, and each
-- of the first nine rows of the square and each of its columns is a word of the Hamming code, as
-- a polynomial divisible by x^4 + x + 1.
pub bptc_read :
    (b0 b1 b2 b3 b4 b5 b6 b7 b8 b9 b10 b11 : ℕ)
    → let input = b0 ∷ b1 ∷ b2 ∷ b3 ∷ b4 ∷ b5 ∷ b6 ∷ b7 ∷ b8 ∷ b9 ∷ b10 ∷ b11 ∷ [] in
      let square = deinterleave 196 0 (bptc_bits input) in
      (read_payload square ≡ to_bits 12 input) × AllRows 9 0 square × AllColumns 15 0 square
unfolding bptc_bits bptc_interleave bptc_columns bptc_rows bptc_extract to_bits xor
    hamming_encode15113_2 hamming_encode1393
bptc_read b0 b1 b2 b3 b4 b5 b6 b7 b8 b9 b10 b11 =
    let input = b0 ∷ b1 ∷ b2 ∷ b3 ∷ b4 ∷ b5 ∷ b6 ∷ b7 ∷ b8 ∷ b9 ∷ b10 ∷ b11 ∷ [] in
    let square = deinterleave 196 0 (bptc_bits input) in
    let row = λ (r : ℕ) (e : length (slice 11 (r * 15 + 1) square) ≡ 11).
      row_of-IsCodeword (slice 11 (r * 15 + 1) square) e in
    let col = λ (c : ℕ) (e : length (column 9 (c + 1) square) ≡ 9).
      column_of-IsCodeword (column 9 (c + 1) square) e in
    (
      refl,
      row 0 refl
          & row 1 refl
          & row 2 refl
          & row 3 refl
          & row 4 refl
          & row 5 refl
          & row 6 refl
          & row 7 refl
          & row 8 refl
          & tt,
      col 0 refl
          & col 1 refl
          & col 2 refl
          & col 3 refl
          & col 4 refl
          & col 5 refl
          & col 6 refl
          & col 7 refl
          & col 8 refl
          & col 9 refl
          & col 10 refl
          & col 11 refl
          & col 12 refl
          & col 13 refl
          & col 14 refl
          & tt,
    )
