-- ===== src/TalkerAlias/SevenBit.antt =====
-- A talker alias in characters of seven bits: what the bit loops read.
use adn_bridge.Vocoder.Frame.RoundTrip.{AllBits, append-AllBits, bits_from-AllBits}
use adn_bridge.TalkerAlias.{
  Septets, septet_bit, septet_byte, septet_loop, decode_ta_7bit, ta_buf_len, ta_size, ta_format,
}
use adn_bridge.Vocoder.Frame.{bits_from}
use adn_bridge.Prelude.{
  true, false, if◌then◌else◌, ◌∷◌, [], inl, inr, List, Bool, ℕ, ◌*◌, ◌≡◌, ◌≤◌, bit_and, ◌<◌, ◌++◌,
  suc, length, Bool-cases, bit_or, ◌+◌, refl, arith, leb, bit_or_high, ◌>>>◌, ◌<<<◌, ap, sym,
  bit_and_mask, zero, ◌∙◌, take, drop, ◌-◌, take-nil, ◌==◌, append-nil, length-append, ltb, ltb→lt,
  append_assoc,
}

abbrev pub bits_of : List ℕ → List ℕ
bits_of [] = []
bits_of (byte ∷ bytes) = bits_from 8 byte ++ bits_of bytes

-- The numbers that each seven bits make, the highest first.
abbrev pub septets : List ℕ → List ℕ
septets (a ∷ b ∷ c ∷ d ∷ e ∷ f ∷ g ∷ rest) =
    (a * 64 + b * 32 + c * 16 + d * 8 + e * 4 + f * 2 + g) ∷ septets rest
septets _ = []

abbrev run_bits : Bool → ℕ → Septets → List ℕ → Septets
run_bits is_first size s [] = s
run_bits is_first size s (b ∷ bs) = run_bits is_first size (septet_bit is_first size s b) bs

run_bits-append :
    (f : Bool) (size : ℕ) (s : Septets) (xs ys : List ℕ)
    → run_bits f size s (xs ++ ys) ≡ run_bits f size (run_bits f size s xs) ys
run_bits-append f size s [] ys = refl
run_bits-append f size s (x ∷ xs) ys = run_bits-append f size (septet_bit f size s x) xs ys

byte-run_bits :
    (j : ℕ) (f : Bool) (size : ℕ) (s : Septets) (byte : ℕ)
    → septet_byte j f size s byte ≡ run_bits f size s (bits_from j byte)
unfolding septet_byte
byte-run_bits zero f size s byte = refl
byte-run_bits (suc j) f size s byte =
    byte-run_bits j f size (septet_bit f size s (bit_and (byte >>> j) 1)) byte

bit_full :
    (size : ℕ) (s : Septets) (b : ℕ)
    → size ≤ length s.text
    → (septet_bit false size s b).text ≡ s.text
unfolding septet_bit
bit_full size s b h = ground arith

-- With all characters there, no bit changes the text.
run_full :
    (size : ℕ) (s : Septets) (bs : List ℕ)
    → size ≤ length s.text
    → (run_bits false size s bs).text ≡ s.text
run_full size s [] h = refl
run_full size s (b ∷ bs) h =
    let same = bit_full size s b h in
    run_full size (septet_bit false size s b) bs (omega (arith, ap (λ (t : List ℕ). length t) same))
    ∙ same

loop-run_bits :
    (size : ℕ) (s : Septets) (bytes : List ℕ)
    → (septet_loop false size s bytes).text ≡ (run_bits false size s (bits_of bytes)).text
unfolding septet_loop
loop-run_bits size s [] = refl
loop-run_bits size s (byte ∷ bytes) =
    let s1 = septet_byte 8 false size s byte in
    elim (Bool-cases (leb size (length s.text))) [
      | inl full ↦
          let le : size ≤ length s.text = ground arith in
          rw full (sym (run_full size s (bits_of (byte ∷ bytes)) le))
      | inr room ↦ rw room (
          loop-run_bits size s1 bytes
          ∙ ap (λ (t : Septets). (run_bits false size t (bits_of bytes)).text)
              (byte-run_bits 8 false size s byte)
          ∙ ap (λ (t : Septets). t.text)
              (sym (run_bits-append false size s (bits_from 8 byte) (bits_of bytes))))
    ]

abbrev shift : ℕ → ℕ → ℕ
shift c b = bit_and (bit_or (c <<< 1) b) 0xFF

shift_lem : (c b : ℕ) → c < 128 → b < 2 → shift c b ≡ c * 2 + b
shift_lem c b hc hb =
    let joined = bit_or_high 1 c b hb in
    let masked = bit_and_mask 8 (bit_or (c <<< 1) b) in omega (arith, joined, masked)

module _ (a b c d e f g : ℕ) (ha : a < 2) (hb : b < 2) (hc : c < 2) (hd : d < 2) (he : e < 2)
    (hf : f < 2) (hg : g < 2) where
  abbrev shifted : ℕ
  shifted = shift (shift (shift (shift (shift (shift (shift 0 a) b) c) d) e) f) g

  shifted_lem : bit_and shifted 0x7F ≡ a * 64 + b * 32 + c * 16 + d * 8 + e * 4 + f * 2 + g
  shifted_lem =
      let s0 = shift_lem 0 a (omega arith) ha in
      let s1 = shift_lem (shift 0 a) b (omega (arith, s0)) hb in
      let c2 = shift (shift 0 a) b in
      let s2 = shift_lem c2 c (omega (arith, s0, s1)) hc in
      let c3 = shift c2 c in
      let s3 = shift_lem c3 d (omega (arith, s0, s1, s2)) hd in
      let c4 = shift c3 d in
      let s4 = shift_lem c4 e (omega (arith, s0, s1, s2, s3)) he in
      let c5 = shift c4 e in
      let s5 = shift_lem c5 f (omega (arith, s0, s1, s2, s3, s4)) hf in
      let c6 = shift c5 f in
      let s6 = shift_lem c6 g (omega (arith, s0, s1, s2, s3, s4, s5)) hg in
      let masked = bit_and_mask 7 shifted in omega (arith, s0, s1, s2, s3, s4, s5, s6, masked)

abbrev clean : List ℕ → Septets
clean text = record { c = 0; t1 = 0; text = text }

-- The text behind seven bits.
abbrev with_septet : ℕ → List ℕ → ℕ → List ℕ
with_septet size text value = if ltb (length text) size then text ++ (value ∷ []) else text

seven_step :
    (size a b c d e f g : ℕ) (text rest : List ℕ)
    → run_bits false size (clean text) (a ∷ b ∷ c ∷ d ∷ e ∷ f ∷ g ∷ rest)
      ≡ run_bits false size
          (clean (
            with_septet size text (
              bit_and
                (shift (shift (shift (shift (shift (shift (shift 0 a) b) c) d) e) f) g)
                0x7F)))
          rest
unfolding septet_bit
seven_step size a b c d e f g text rest = refl

run_septets :
    (size : ℕ) (text bits : List ℕ)
    → AllBits bits
    → length text ≤ size
    → (run_bits false size (clean text) bits).text
      ≡ text ++ take (size - length text) (septets bits)
unfolding septet_bit
run_septets size text ([]) h le =
    sym (ap (λ (t : List ℕ). text ++ t) (take-nil (size - length text)) ∙ append-nil text)
run_septets size text (a ∷ []) h le =
    sym (ap (λ (t : List ℕ). text ++ t) (take-nil (size - length text)) ∙ append-nil text)
run_septets size text (a ∷ b ∷ []) h le =
    sym (ap (λ (t : List ℕ). text ++ t) (take-nil (size - length text)) ∙ append-nil text)
run_septets size text (a ∷ b ∷ c ∷ []) h le =
    sym (ap (λ (t : List ℕ). text ++ t) (take-nil (size - length text)) ∙ append-nil text)
run_septets size text (a ∷ b ∷ c ∷ d ∷ []) h le =
    sym (ap (λ (t : List ℕ). text ++ t) (take-nil (size - length text)) ∙ append-nil text)
run_septets size text (a ∷ b ∷ c ∷ d ∷ e ∷ []) h le =
    sym (ap (λ (t : List ℕ). text ++ t) (take-nil (size - length text)) ∙ append-nil text)
run_septets size text (a ∷ b ∷ c ∷ d ∷ e ∷ f ∷ []) h le =
    sym (ap (λ (t : List ℕ). text ++ t) (take-nil (size - length text)) ∙ append-nil text)
run_septets size text (a ∷ b ∷ c ∷ d ∷ e ∷ f ∷ g ∷ rest) h le =
    let value = a * 64 + b * 32 + c * 16 + d * 8 + e * 4 + f * 2 + g in
    let same =
      shifted_lem a b c d e f g h.0 h.1.0 h.1.1.0 h.1.1.1.0 h.1.1.1.1.0 h.1.1.1.1.1.0
        h.1.1.1.1.1.1.0 in
    let all = h.1.1.1.1.1.1.1 in
    let long = length-append text (value ∷ []) in
    let after = λ (t : List ℕ). (run_bits false size (clean t) rest).text in
    let step =
      ap (λ (r : Septets). r.text) (seven_step size a b c d e f g text rest)
      ∙ ap (λ (v : ℕ). after (with_septet size text v)) same in
    elim (Bool-cases (ltb (length text) size)) [
      | inl room ↦
          let less : length text < size = ltb→lt (length text) size room in
          let one : size - length text ≡ suc (size - length (text ++ (value ∷ []))) =
            omega (arith, long) in
          let next = run_septets size (text ++ (value ∷ [])) rest all (omega (arith, long)) in
          step
          ∙ ap (λ (x : Bool). after (if x then text ++ (value ∷ []) else text)) room
          ∙ next
          ∙ append_assoc text (value ∷ [])
              (take (size - length (text ++ (value ∷ []))) (septets rest))
          ∙ ap (λ (n : ℕ). text ++ take n (value ∷ septets rest)) (sym one)
      | inr full ↦
          let none_left : size - length text ≡ 0 = ground arith in
          step
          ∙ ap (λ (x : Bool). after (if x then text ++ (value ∷ []) else text)) full
          ∙ run_septets size text rest all le
          ∙ ap (λ (n : ℕ). text ++ take n (septets rest)) none_left
          ∙ ap (λ (n : ℕ). text ++ take n (value ∷ septets rest)) (sym none_left)
    ]

bits_of-AllBits : (bytes : List ℕ) → AllBits (bits_of bytes)
bits_of-AllBits [] = tt
bits_of-AllBits (byte ∷ bytes) =
    append-AllBits (bits_from 8 byte) (bits_of bytes) (bits_from-AllBits 8 byte)
      (bits_of-AllBits bytes)

-- The first byte gives its last bit only.
first_byte :
    (size byte : ℕ)
    → septet_byte 8 true size (clean []) byte
      ≡ septet_bit false size (clean []) (bit_and (byte >>> 0) 1)
unfolding septet_byte septet_bit
first_byte size byte = refl

-- A talker alias of format 0 and of as many characters as its first byte says, one at least and
-- fewer than the caller's array has bytes, is read as the numbers that each seven bits of the
-- buffer make, from its eighth bit on.
pub decode_ta_7bit-septets :
    (buf : List ℕ) (textlen : ℕ)
    → ta_format buf ≡ 0
    → 1 ≤ ta_size buf
    → ta_size buf < textlen
    → decode_ta_7bit buf textlen
      ≡ take (ta_size buf) (septets (drop 7 (bits_of (take ta_buf_len buf))))
unfolding decode_ta_7bit septet_loop
decode_ta_7bit-septets [] textlen format pos fits = absurd (omega arith)
decode_ta_7bit-septets (byte ∷ bytes) textlen format pos fits =
    let size = ta_size (byte ∷ bytes) in
    let rest = take 27 bytes in
    let last = bit_and (byte >>> 0) 1 in
    let some_size : (size == 0) ≡ false = ground arith in
    let short : leb textlen size ≡ false = ground arith in
    let room : leb size 0 ≡ false = ground arith in
    let whole : size - 0 ≡ size = omega arith in
    let bits : AllBits (last ∷ bits_of rest) =
      (omega (arith, bit_and_mask 1 (byte >>> 0)), bits_of-AllBits rest) in
    rw (format, some_size, short, room)
      (ap (λ (s : Septets). (septet_loop false size s rest).text) (first_byte size byte)
        ∙ loop-run_bits size (septet_bit false size (clean []) last) rest
        ∙ run_septets size [] (last ∷ bits_of rest) bits (omega arith)
        ∙ ap (λ (n : ℕ). take n (septets (last ∷ bits_of rest))) whole)
