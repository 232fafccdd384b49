-- ===== src/Vocoder/Frame/RoundTrip.antt =====
-- The two orders of the bits of a speech frame undo each other.
use adn_bridge.Prelude.{
  if◌then◌else◌, true, inl, inr, List, ℕ, all_below, length, [], ◌∷◌, suc, get_or, ◌<◌, replicate,
  ◌≡◌, ◌++◌, ◌==◌, IsBytes, arith, set, bit_and, true, ==_iff, ◌*◌, bit_and_mask, subst, map, ◌%◌,
  ap, ◌+◌, all_below_sound, ap₂, ◌∙◌, zero, ◌>>>◌, refl, Bool-cases,
}
use adn_bridge.Vocoder.Frame.{
  bits_from, byte_from, interleave49_matrix, scatter49, ambe49_bits_from_bytes,
  ambe49_bytes_from_bits, ambe49_interleave, ambe49_deinterleave, List, ℕ,
}

-- Seven bytes of which the last seven bits are not used.
pub record IsFrame49 (f : List ℕ) : Type 0 where
  pub size : length f ≡ 7
  pub bytes : IsBytes f
  pub tail : get_or f 6 0 % 128 ≡ 0

abbrev upto : ℕ → ℕ → List ℕ
upto n zero = []
upto n (suc k) = n ∷ upto (n + 1) k

abbrev pub AllBits : List ℕ → Type 0
AllBits [] = Unit
AllBits (b ∷ bs) = (b < 2) × AllBits bs

pub bits_from-AllBits : (j x : ℕ) → AllBits (bits_from j x)
bits_from-AllBits zero x = tt
bits_from-AllBits (suc j) x = (omega (arith, bit_and_mask 1 (x >>> j)), bits_from-AllBits j x)

pub append-AllBits : (xs ys : List ℕ) → AllBits xs → AllBits ys → AllBits (xs ++ ys)
append-AllBits [] ys hx hy = hy
append-AllBits (x ∷ xs) ys hx hy = (hx.0, append-AllBits xs ys hx.1 hy)

get_or-AllBits : (xs : List ℕ) (n : ℕ) → AllBits xs → get_or xs n 0 < 2
get_or-AllBits [] n h = omega arith
get_or-AllBits (x ∷ xs) zero h = h.0
get_or-AllBits (x ∷ xs) (suc n) h = get_or-AllBits xs n h.1

set-AllBits : (xs : List ℕ) (n v : ℕ) → AllBits xs → v < 2 → AllBits (set xs n v)
set-AllBits [] n v h hv = tt
set-AllBits (x ∷ xs) zero v h hv = (hv, h.1)
set-AllBits (x ∷ xs) (suc n) v h hv = (h.0, set-AllBits xs n v h.1 hv)

scatter49-AllBits :
    (ns xs : List ℕ) (i : ℕ) (ys : List ℕ)
    → AllBits xs
    → AllBits ys
    → AllBits (scatter49 ns xs i ys)
scatter49-AllBits [] xs i ys hx hy = hy
scatter49-AllBits (n ∷ ns) xs i ys hx hy =
    scatter49-AllBits ns xs (i + 1) (set ys n (get_or xs i 0)) hx
      (set-AllBits ys n (get_or xs i 0) hy (get_or-AllBits xs i hx))

replicate-AllBits : (n : ℕ) → AllBits (replicate n 0)
replicate-AllBits zero = tt
replicate-AllBits (suc n) = (omega arith, replicate-AllBits n)

frame-AllBits : (f : List ℕ) → AllBits (ambe49_bits_from_bytes f)
unfolding ambe49_bits_from_bytes
frame-AllBits f =
    let byte = λ (k : ℕ). bits_from 8 (get_or f k 0) in
    let is_bits = λ (k : ℕ). bits_from-AllBits 8 (get_or f k 0) in
    let t6 = bit_and (get_or f 6 0 >>> 7) 1 ∷ [] in
    let t5 = byte 5 ++ t6 in
    let t4 = byte 4 ++ t5 in
    let t3 = byte 3 ++ t4 in
    let t2 = byte 2 ++ t3 in
    let t1 = byte 1 ++ t2 in
    let h6 : AllBits t6 = (omega (arith, bit_and_mask 1 (get_or f 6 0 >>> 7)), tt) in
    let h5 = append-AllBits (byte 5) t6 (is_bits 5) h6 in
    let h4 = append-AllBits (byte 4) t5 (is_bits 4) h5 in
    let h3 = append-AllBits (byte 3) t4 (is_bits 3) h4 in
    let h2 = append-AllBits (byte 2) t3 (is_bits 2) h3 in
    let h1 = append-AllBits (byte 1) t2 (is_bits 1) h2 in append-AllBits (byte 0) t1 (is_bits 0) h1

byte_checks : all_below 256 (λ x. byte_from 8 (bits_from 8 x) 0 0 == x) ≡ true
byte_checks = refl

byte_from-bits_from : (x : ℕ) → x < 256 → byte_from 8 (bits_from 8 x) 0 0 ≡ x
byte_from-bits_from x h =
    (==_iff (byte_from 8 (bits_from 8 x) 0 0) x).0
      (all_below_sound 256 (λ x. byte_from 8 (bits_from 8 x) 0 0 == x) x byte_checks h)

-- Eight bits are those of a byte.
module _ (b0 b1 b2 b3 b4 b5 b6 b7 : ℕ) (h0 : b0 < 2) (h1 : b1 < 2) (h2 : b2 < 2) (h3 : b3 < 2)
    (h4 : b4 < 2) (h5 : b5 < 2) (h6 : b6 < 2) (h7 : b7 < 2) where
  abbrev eight : List ℕ
  eight = b0 ∷ b1 ∷ b2 ∷ b3 ∷ b4 ∷ b5 ∷ b6 ∷ b7 ∷ []

  abbrev weight : ℕ
  weight = b0 * 128 + b1 * 64 + b2 * 32 + b3 * 16 + b4 * 8 + b5 * 4 + b6 * 2 + b7

  bits_from-weight : bits_from 8 weight ≡ eight
  bits_from-weight =
      let place = λ (j : ℕ). bit_and_mask 1 (weight >>> j) in
      let e0 : bit_and (weight >>> 7) 1 ≡ b0 = omega (arith, place 7) in
      let e1 : bit_and (weight >>> 6) 1 ≡ b1 = omega (arith, place 6) in
      let e2 : bit_and (weight >>> 5) 1 ≡ b2 = omega (arith, place 5) in
      let e3 : bit_and (weight >>> 4) 1 ≡ b3 = omega (arith, place 4) in
      let e4 : bit_and (weight >>> 3) 1 ≡ b4 = omega (arith, place 3) in
      let e5 : bit_and (weight >>> 2) 1 ≡ b5 = omega (arith, place 2) in
      let e6 : bit_and (weight >>> 1) 1 ≡ b6 = omega (arith, place 1) in
      let e7 : bit_and (weight >>> 0) 1 ≡ b7 = omega (arith, place 0) in
      rw (e0, e1, e2, e3, e4, e5, e6, e7) refl

  eight_back : bits_from 8 (byte_from 8 eight 0 0) ≡ eight
  eight_back =
      subst (λ (xs : List ℕ). bits_from 8 (byte_from 8 xs 0 0) ≡ xs) bits_from-weight
        (ap (bits_from 8) (byte_from-bits_from weight (omega arith)))

last_back : (b : ℕ) → b < 2 → bit_and ((if b == 0 then 0 else 0x80) >>> 7) 1 ≡ b
last_back zero h = refl
last_back (suc zero) h = refl
last_back (suc (suc b)) h = absurd (omega arith)

-- Forty-nine bits are those of a frame.
module _ (g : ℕ → ℕ) (h : (n : ℕ) → g n < 2) where
  run_back : (n : ℕ) → bits_from 8 (byte_from 8 (map g (upto n 8)) 0 0) ≡ map g (upto n 8)
  run_back n =
      eight_back (g n) (g (n + 1)) (g (n + 1 + 1)) (g (n + 1 + 1 + 1)) (g (n + 1 + 1 + 1 + 1))
        (g (n + 1 + 1 + 1 + 1 + 1)) (g (n + 1 + 1 + 1 + 1 + 1 + 1))
        (g (n + 1 + 1 + 1 + 1 + 1 + 1 + 1)) (h (n)) (h (n + 1)) (h (n + 1 + 1)) (h (n + 1 + 1 + 1))
        (h (n + 1 + 1 + 1 + 1)) (h (n + 1 + 1 + 1 + 1 + 1)) (h (n + 1 + 1 + 1 + 1 + 1 + 1))
        (h (n + 1 + 1 + 1 + 1 + 1 + 1 + 1))

  bits_back :
      ambe49_bits_from_bytes (ambe49_bytes_from_bits (map g (upto 0 49))) ≡ map g (upto 0 49)
  unfolding ambe49_bits_from_bytes ambe49_bytes_from_bits
  bits_back = ap₂ ◌++◌ (run_back 0) (
      ap₂ ◌++◌ (run_back 8) (
        ap₂ ◌++◌ (run_back 16) (
          ap₂ ◌++◌ (run_back 24) (
            ap₂ ◌++◌ (run_back 32)
              (ap₂ ◌++◌ (run_back 40) (ap (λ (b : ℕ). b ∷ []) (last_back (g 48) (h 48))))))))

last_same : (x : ℕ) → x < 256 → x % 128 ≡ 0 → (if bit_and (x >>> 7) 1 == 0 then 0 else 0x80) ≡ x
last_same x h t =
    let place = bit_and_mask 1 (x >>> 7) in
    elim (Bool-cases (bit_and (x >>> 7) 1 == 0)) [
      | inl off ↦ rw off (omega (arith, place, (==_iff (bit_and (x >>> 7) 1) 0).0 off))
      | inr on ↦ rw on (ground (arith, place))
    ]

bytes_back : (f : List ℕ) → IsFrame49 f → ambe49_bytes_from_bits (ambe49_bits_from_bytes f) ≡ f
unfolding ambe49_bits_from_bytes ambe49_bytes_from_bits
bytes_back (a ∷ b ∷ c ∷ d ∷ e ∷ g ∷ l ∷ []) h =
    let bytes = h.bytes in
    rw
      (
        byte_from-bits_from a bytes.0,
        byte_from-bits_from b bytes.1.0,
        byte_from-bits_from c bytes.1.1.0,
        byte_from-bits_from d bytes.1.1.1.0,
        byte_from-bits_from e bytes.1.1.1.1.0,
        byte_from-bits_from g bytes.1.1.1.1.1.0,
        last_same l bytes.1.1.1.1.1.1.0 h.tail,
      )
      refl
bytes_back _ h = absurd (omega (arith, h.size))

-- A frame of the server that is put in the order of the codec and back again is as it was.
pub interleave-deinterleave :
    (f : List ℕ) → IsFrame49 f → ambe49_interleave (ambe49_deinterleave f) ≡ f
unfolding ambe49_interleave ambe49_deinterleave ambe49_bits_from_bytes
interleave-deinterleave f h =
    let bits = ambe49_bits_from_bytes f in
    let g = λ (i : ℕ). get_or bits (get_or interleave49_matrix i 0) 0 in
    let back =
      bits_back g (λ n. get_or-AllBits bits (get_or interleave49_matrix n 0) (frame-AllBits f)) in
    ap
      (λ (xs : List ℕ).
        ambe49_bytes_from_bits (scatter49 interleave49_matrix xs 0 (replicate 49 0)))
      back
    ∙ bytes_back f h
