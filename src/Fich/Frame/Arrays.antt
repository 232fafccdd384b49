-- ===== src/Fich/Frame/Arrays.antt =====
-- The arrays of the frame codec: they hold bytes, and how long they are.
use adn_bridge.Prelude.{
  ℕ, List, IsBytes, length, ◌<◌, suc, arith, ◌≡◌, bit_and_mask, length-set, ap, ◌∷◌, ◌+◌, ◌∙◌, zero,
  ◌>>>◌, [], refl, get_or,
}
use adn_bridge.Fich.Golay.{encode24128}
use adn_bridge.Fich.Bits.{read_bit, read_bits, upto}
use adn_bridge.Fich.Bits.Laws.{set-IsBytes, write_bit-IsBytes}
use adn_bridge.Fich.Convolution.{Viterbi, convolution_chainback, chainback_loop}
use adn_bridge.Fich.Convolution.Chainback.{at}
use adn_bridge.Fich.Frame.{add_ccitt162, codeword_bytes, conv_bytes, ℕ, List, ◌∷◌, get_or}

chainback_loop-IsBytes :
    (n state : ℕ) (stack out : List ℕ) → IsBytes out → IsBytes (chainback_loop n state stack out)
unfolding chainback_loop
chainback_loop-IsBytes zero state stack out h = h
chainback_loop-IsBytes (suc n) state [] out h = h
chainback_loop-IsBytes (suc n) state (w ∷ ws) out h =
    chainback_loop-IsBytes n _ ws _ (write_bit-IsBytes out n _ h)

pub convolution_chainback-IsBytes :
    (v : Viterbi) (out : List ℕ) (n : ℕ) → IsBytes out → IsBytes (convolution_chainback v out n)
unfolding convolution_chainback
convolution_chainback-IsBytes v out n h = chainback_loop-IsBytes n 0 v.decisions out h

pub codeword_bytes-IsBytes :
    (c : ℕ) (rest : List ℕ) → IsBytes rest → IsBytes (codeword_bytes c rest)
unfolding codeword_bytes
codeword_bytes-IsBytes c rest h = (
  omega (arith, bit_and_mask 8 (c >>> 16)),
  (omega (arith, bit_and_mask 8 (c >>> 8)), (omega (arith, bit_and_mask 8 (c >>> 0)), h)),
)

pub conv_bytes-IsBytes : (b0 b1 b2 b3 : ℕ) → IsBytes (conv_bytes b0 b1 b2 b3)
unfolding conv_bytes
conv_bytes-IsBytes b0 b1 b2 b3 =
    let c3 = codeword_bytes (encode24128 b3) (0x00 ∷ []) in
    let c2 = codeword_bytes (encode24128 b2) c3 in
    let c1 = codeword_bytes (encode24128 b1) c2 in
    let last : IsBytes (0x00 ∷ []) = (omega arith, tt) in
    codeword_bytes-IsBytes (encode24128 b0) c1 (
      codeword_bytes-IsBytes (encode24128 b1) c2 (
        codeword_bytes-IsBytes (encode24128 b2) c3
          (codeword_bytes-IsBytes (encode24128 b3) (0x00 ∷ []) last)))

pub add_ccitt162-IsBytes : (fich : List ℕ) → IsBytes fich → IsBytes (add_ccitt162 fich 6)
unfolding add_ccitt162
add_ccitt162-IsBytes fich h = set-IsBytes _ 4 _ (set-IsBytes fich 5 _ h (omega arith)) (omega arith)

pub length-add_ccitt162 : (fich : List ℕ) → length (add_ccitt162 fich 6) ≡ length fich
unfolding add_ccitt162
length-add_ccitt162 fich = length-set _ 4 _ ∙ length-set fich 5 _

pub at-read_bits :
    (n i p : ℕ) (xs : List ℕ) → p < n → at (read_bits (upto i n) xs) p ≡ read_bit xs (i + p)
unfolding read_bits upto
at-read_bits zero i p xs h = absurd (omega arith)
at-read_bits (suc n) i zero xs h = let here : i + 0 ≡ i = omega arith in rw here refl
at-read_bits (suc n) i (suc p) xs h =
    let next : i + suc p ≡ i + 1 + p = omega arith in
    rw next (at-read_bits n (i + 1) p xs (omega arith))

pub length-read_bits : (is xs : List ℕ) → length (read_bits is xs) ≡ length is
unfolding read_bits
length-read_bits [] xs = refl
length-read_bits (i ∷ is) xs = ap suc (length-read_bits is xs)

pub length-upto : (i n : ℕ) → length (upto i n) ≡ n
unfolding upto
length-upto i zero = refl
length-upto i (suc n) = ap suc (length-upto (i + 1) n)

pub six_elements :
    (xs : List ℕ)
    → length xs ≡ 6
    → xs
      ≡ get_or xs 0 0
        ∷ get_or xs 1 0
        ∷ get_or xs 2 0
        ∷ get_or xs 3 0
        ∷ get_or xs 4 0
        ∷ get_or xs 5 0
        ∷ []
six_elements (a ∷ b ∷ c ∷ d ∷ e ∷ f ∷ []) l = refl
six_elements [] l = absurd (omega arith)
six_elements (a ∷ []) l = absurd (omega arith)
six_elements (a ∷ b ∷ []) l = absurd (omega arith)
six_elements (a ∷ b ∷ c ∷ []) l = absurd (omega arith)
six_elements (a ∷ b ∷ c ∷ d ∷ []) l = absurd (omega arith)
six_elements (a ∷ b ∷ c ∷ d ∷ e ∷ []) l = absurd (omega arith)
six_elements (a ∷ b ∷ c ∷ d ∷ e ∷ f ∷ g ∷ r) l = absurd (omega arith)
