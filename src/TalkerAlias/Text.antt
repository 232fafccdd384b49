-- ===== src/TalkerAlias/Text.antt =====
-- The text of a talker alias is one that can be shown.
use adn_bridge.PeerDmr.Wire.{is_empty}
use adn_bridge.TalkerAlias.{
  Septets, septet_bit, septet_byte, septet_loop, decode_ta_utf, decode_ta_7bit, decode_ta_buf,
  c_string, trim_end, is_control, cut_control, trim_ta_text, dmra_decode_blocks, join_blocks,
  ta_buf_len, is_empty,
}
use adn_bridge.Prelude.{
  true, false, if◌then◌else◌, ◌∷◌, [], none, some, inl, inr, Bool, List, ℕ, ◌≡◌, Bool-cases, length,
  ◌≤◌, arith, length-append, suc, ◌<◌, ◌==◌, bit_and, bit_or, get_or, ◌>>>◌, length-take, ◌<<<◌,
  zero, min, ◌-◌, drop, ◌++◌, take, ◌||◌, subst, refl, ◌≢◌, ◌⊎◌,
}

-- A character that ASCII shows, or one beyond ASCII, which only an unsigned `char` can hold.
abbrev pub IsShown : Bool → ℕ → Type 0
IsShown char_signed c = (32 ≤ c) × (c ≢ 127) × ((char_signed ≡ false) ⊎ (c < 128))

-- Of each character of the text.
abbrev pub AllShown : Bool → List ℕ → Type 0
AllShown char_signed [] = Unit
AllShown char_signed (c ∷ cs) = IsShown char_signed c × AllShown char_signed cs

not_control-IsShown : (s : Bool) (c : ℕ) → is_control s c ≡ false → IsShown s c
unfolding is_control
not_control-IsShown true c h = (ground arith, ground arith, inr (ground arith))
not_control-IsShown false c h = (ground arith, ground arith, inl refl)

cut_control-AllShown : (s : Bool) (cs : List ℕ) → AllShown s (cut_control s cs)
unfolding cut_control
cut_control-AllShown s [] = tt
cut_control-AllShown s (c ∷ cs) =
    let rest = cut_control-AllShown s cs in
    elim (Bool-cases (is_control s c)) [
      | inl stop ↦ rw stop tt
      | inr go ↦ rw go (not_control-IsShown s c go, rest)
    ]

trim-AllShown : (s : Bool) (cs : List ℕ) → AllShown s (trim_ta_text s cs)
unfolding trim_ta_text
trim-AllShown s cs = cut_control-AllShown s (trim_end (c_string cs))

length-cut_control : (s : Bool) (cs : List ℕ) → length (cut_control s cs) ≤ length cs
unfolding cut_control
length-cut_control s [] = omega arith
length-cut_control s (c ∷ cs) = let rest = length-cut_control s cs in ground (arith, rest)

length-c_string : (cs : List ℕ) → length (c_string cs) ≤ length cs
unfolding c_string
length-c_string [] = omega arith
length-c_string (c ∷ cs) = let rest = length-c_string cs in ground (arith, rest)

trim_step :
    (c : ℕ) (cs ds : List ℕ)
    → length ds ≤ length cs
    → length (elim ds [ [] ↦ if c == 32 then [] else c ∷ [] | x ∷ xs ↦ c ∷ x ∷ xs ])
      ≤ suc (length cs)
trim_step c cs [] h = ground arith
trim_step c cs (d ∷ ds) h = omega arith

length-trim_end : (cs : List ℕ) → length (trim_end cs) ≤ length cs
unfolding trim_end
length-trim_end [] = omega arith
length-trim_end (c ∷ cs) = trim_step c cs (trim_end cs) (length-trim_end cs)

length-trim_ta_text : (s : Bool) (cs : List ℕ) → length (trim_ta_text s cs) ≤ length cs
unfolding trim_ta_text
length-trim_ta_text s cs = omega (
  arith,
  length-cut_control s (trim_end (c_string cs)),
  length-trim_end (c_string cs),
  length-c_string cs,
)

-- No more characters are kept than the size says.
bit-fits :
    (f : Bool) (size : ℕ) (s : Septets) (b : ℕ)
    → length s.text ≤ size
    → length (septet_bit f size s b).text ≤ size
unfolding septet_bit
bit-fits f size s b h =
    let more = length-append s.text (bit_and (bit_and (bit_or (s.c <<< 1) b) 0xFF) 0x7F ∷ []) in
    ground (arith, more)

byte-fits :
    (j : ℕ) (f : Bool) (size : ℕ) (s : Septets) (byte : ℕ)
    → length s.text ≤ size
    → length (septet_byte j f size s byte).text ≤ size
unfolding septet_byte
byte-fits zero f size s byte h = h
byte-fits (suc j) f size s byte h =
    byte-fits j f size _ byte (bit-fits f size s (bit_and (byte >>> j) 1) h)

loop-fits :
    (f : Bool) (size : ℕ) (s : Septets) (bytes : List ℕ)
    → length s.text ≤ size
    → length (septet_loop f size s bytes).text ≤ size
unfolding septet_loop
loop-fits f size s [] h = h
loop-fits f size s (byte ∷ bytes) h =
    let rest =
      loop-fits false size (septet_byte 8 f size s byte) bytes (byte-fits 8 f size s byte h) in
    ground (arith, rest)

decode-fits :
    (beyond buf : List ℕ) (textlen : ℕ)
    → 1 ≤ textlen
    → length (decode_ta_buf beyond buf textlen) < textlen
unfolding decode_ta_buf decode_ta_utf decode_ta_7bit
decode-fits beyond buf textlen h =
    let size = bit_and (get_or buf 0 0 >>> 1) 0x1F in
    let utf = length-take (min size (textlen - 1)) (drop 1 (buf ++ beyond)) in
    let seven =
      loop-fits true size (record { c = 0; t1 = 0; text = [] }) (take ta_buf_len buf)
        (omega arith) in
    ground (arith, utf, seven)

-- A text that passes all tests.
passes :
    (c1 c2 : Bool) (t text : List ℕ)
    → (if c1 then none else if c2 then none else if is_empty t then none else some t) ≡ some text
    → (c1 ≡ false) × (t ≡ text) × (0 < length t)
passes true c2 t text h = cc h
passes false true t text h = cc h
passes false false [] text h = cc h
passes false false (x ∷ xs) text h = (refl, cc h, omega arith)

-- What comes of a decoding fits the caller's array with the byte that ends it, is not empty, and
-- each of its characters is 32 at least and not 127, and below 128 where `char` is signed.
pub dmra_decode_blocks-AllShown :
    (char_signed : Bool) (beyond : List ℕ) (blocks : List (List ℕ)) (have textlen : ℕ)
    (text : List ℕ)
    → dmra_decode_blocks char_signed beyond blocks have textlen ≡ some text
    → AllShown char_signed text × (0 < length text) × (length text < textlen)
unfolding dmra_decode_blocks
dmra_decode_blocks-AllShown s beyond blocks have textlen text h =
    let decoded = decode_ta_buf beyond (join_blocks have 0 blocks) textlen in
    let got =
      passes (textlen == 0 || bit_and have 1 == 0) (is_empty decoded) (trim_ta_text s decoded) text
        h in
    let long : 1 ≤ textlen = ground (arith, got) in
    let fits = decode-fits beyond (join_blocks have 0 blocks) textlen long in
    let trimmed = length-trim_ta_text s decoded in
    subst (λ (t : List ℕ). AllShown s t × (0 < length t) × (length t < textlen)) got.1
      (trim-AllShown s decoded, got.2, omega (arith, fits, trimmed))
