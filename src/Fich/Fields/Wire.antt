-- ===== src/Fich/Fields/Wire.antt =====
-- The channel in a frame of 155 bytes: what is written at an offset is what is read there.
use adn_bridge.Fich.Bits.Laws.{length-write_bits}
use adn_bridge.Fich.Tables.Small.{interleave_table}
use adn_bridge.Fich.Frame.{fich_encode, fich_decode}
use adn_bridge.Fich.Frame.RoundTrip.{fich_decode-fich_encode}
use adn_bridge.Fich.Frame.Interleave.{scatter_bits, places}
use adn_bridge.Fich.Fields.{
  offset_rx, fich_at, fich_encode_at, ysf_fich_rewrite_dgid, fields_of, ysf_fich_decode_at,
  ysf_fich_get_dgid, ysf_fich_decode_fields, ysf_fich_guess_rx_offset, List, ℕ, take, ◌∷◌, drop,
  splice, ltb, leb, bit_and,
}
use adn_bridge.Fich.Fields.Rewrite.{
  fields_of-rewritten, dgid-rewritten, rewritten-IsBytes, length-rewritten, with_dt, rewritten,
  fields_of-add_ccitt162, get_or-add_ccitt162, fich_decode-IsBytes, length-fich_decode,
}
use adn_bridge.Prelude.{
  true, false, get_or, List, ℕ, IsBytes, length, ◌+◌, ◌≡◌, ◌≤◌, take, suc, arith, take-drop-splice,
  length-splice, ◌<◌, length-take, ◌⊎◌, ◌∷◌, inl, drop, length-drop, get_or-splice_before, zero,
  inr, [], ◌∙◌, ◌-◌, subst, splice, sym, get_or-splice_behind, bit_and-le, ltb, ◌>>>◌, leb, bit_and,
  refl, ap,
}

-- The arrays that the codec leaves uninitialised have their sizes.
pub record IsScratch (output convolved : List ℕ) : Type 0 where
  pub output_bytes : IsBytes output
  pub output_length : length output ≡ 13
  pub convolved_bytes : IsBytes convolved
  pub convolved_length : length convolved ≡ 25

pub length-fich_encode :
    (fich scratch bytes : List ℕ) → length (fich_encode fich scratch bytes).1 ≡ length bytes
unfolding fich_encode
length-fich_encode fich scratch bytes =
    rw (scatter_bits interleave_table 0 _ bytes)
      (length-write_bits (places interleave_table) _ bytes)

pub take-IsBytes : (n : ℕ) (xs : List ℕ) → IsBytes xs → IsBytes (take n xs)
take-IsBytes zero xs h = tt
take-IsBytes (suc n) [] h = tt
take-IsBytes (suc n) (x ∷ xs) h = (h.0, take-IsBytes n xs h.1)

pub drop-IsBytes : (n : ℕ) (xs : List ℕ) → IsBytes xs → IsBytes (drop n xs)
drop-IsBytes zero xs h = h
drop-IsBytes (suc n) [] h = tt
drop-IsBytes (suc n) (x ∷ xs) h = drop-IsBytes n xs h.1

pub fich_at-IsBytes : (off : ℕ) (frame : List ℕ) → IsBytes frame → IsBytes (fich_at off frame)
unfolding fich_at
fich_at-IsBytes off frame h = take-IsBytes 25 (drop off frame) (drop-IsBytes off frame h)

length-fich_at :
    (off : ℕ) (frame : List ℕ) → off + 25 ≤ length frame → length (fich_at off frame) ≡ 25
unfolding fich_at
length-fich_at off frame h = omega (arith, length-take 25 (drop off frame), length-drop off frame)

module _ (output convolved frame : List ℕ) (sc : IsScratch output convolved) (hf : IsBytes frame)
    (off : ℕ) (fits : off + 25 ≤ length frame) where
  -- What fich_encode leaves at an offset is what a receiver decodes there.
  pub fich_at-fich_encode_at :
      (fich : List ℕ)
      → fich_at off (fich_encode_at off fich convolved frame).1
        ≡ (fich_encode fich convolved (fich_at off frame)).1
  unfolding fich_encode_at fich_at
  fich_at-fich_encode_at fich =
      take-drop-splice 25 off (fich_encode fich convolved (fich_at off frame)).1 frame
        (omega (
          arith,
          length-fich_encode fich convolved (fich_at off frame),
          length-fich_at off frame fits,
        ))
        (omega arith)

  pub fich_decode-fich_encode_at :
      (fich : List ℕ)
      → IsBytes fich
      → length fich ≡ 6
      → fich_decode output (fich_at off (fich_encode_at off fich convolved frame).1)
        ≡ (fich_encode fich convolved (fich_at off frame)).0
  fich_decode-fich_encode_at fich h l = rw (fich_at-fich_encode_at fich) (
      fich_decode-fich_encode fich convolved output (fich_at off frame) h l sc.convolved_bytes
        sc.convolved_length sc.output_bytes sc.output_length (fich_at-IsBytes off frame hf)
        (length-fich_at off frame fits))

  pub length-fich_encode_at :
      (fich : List ℕ) → length (fich_encode_at off fich convolved frame).1 ≡ length frame
  unfolding fich_encode_at
  length-fich_encode_at fich =
      length-splice off (fich_encode fich convolved (fich_at off frame)).1 frame (
        omega (
          arith,
          length-fich_encode fich convolved (fich_at off frame),
          length-fich_at off frame fits,
        ))

  -- The other bytes of the frame stay.
  pub get_or-fich_encode_at :
      (fich : List ℕ) (k : ℕ)
      → (k < off) ⊎ (off + 25 ≤ k)
      → get_or (fich_encode_at off fich convolved frame).1 k 0 ≡ get_or frame k 0
  unfolding fich_encode_at
  get_or-fich_encode_at fich k (inl before) =
      get_or-splice_before off (fich_encode fich convolved (fich_at off frame)).1 frame k 0 before
        (omega arith)
  get_or-fich_encode_at fich k (inr behind) =
      let ys = (fich_encode fich convolved (fich_at off frame)).1 in
      let size : length ys ≡ 25 =
        length-fich_encode fich convolved (fich_at off frame) ∙ length-fich_at off frame fits in
      let place : k ≡ off + length ys + (k - (off + 25)) = omega (arith, size) in
      subst (λ (t : ℕ). get_or (splice off ys frame) t 0 ≡ get_or frame t 0) (sym place)
        (get_or-splice_behind off ys frame (k - (off + 25)) 0 (omega arith))

  -- What a receiver finds at the offset: the fields that were set.
  pub decode_at-fich_encode_at :
      (fich : List ℕ)
      → IsBytes fich
      → length fich ≡ 6
      → (ysf_fich_get_dgid
            (ysf_fich_decode_at output (fich_encode_at off fich convolved frame).1 off).0
          ≡ get_or fich 3 0)
        × ((ysf_fich_decode_at output (fich_encode_at off fich convolved frame).1 off).1
            ≡ fields_of fich)
  unfolding ysf_fich_get_dgid ysf_fich_decode_at fich_encode
  decode_at-fich_encode_at fich h l =
      let back = fich_decode-fich_encode_at fich h l in
      (rw back (get_or-add_ccitt162 fich 3 (omega arith)), rw back (fields_of-add_ccitt162 fich))

rewrite_none :
    (output convolved fich frame : List ℕ) (dgid : ℕ)
    → dgid < 1
    → ysf_fich_rewrite_dgid output convolved fich frame dgid ≡ (fich, frame)
unfolding ysf_fich_rewrite_dgid
rewrite_none output convolved fich frame dgid h =
    let low : ltb dgid 1 ≡ true = ground arith in rw low refl

rewrite_some :
    (output convolved fich frame : List ℕ) (dgid : ℕ)
    → 1 ≤ dgid
    → ysf_fich_rewrite_dgid output convolved fich frame dgid
      ≡ fich_encode_at offset_rx
          (rewritten (fich_decode output (fich_at offset_rx frame)) dgid)
          convolved
          frame
unfolding ysf_fich_rewrite_dgid
rewrite_some output convolved fich frame dgid h =
    let low : ltb dgid 1 ≡ false = ground arith in rw low refl

module _ (output convolved fich frame : List ℕ) (dgid : ℕ) (sc : IsScratch output convolved)
    (hf : IsBytes frame) (l : length frame ≡ 155) (pos : 1 ≤ dgid) (lt : dgid < 256) where
  abbrev before : List ℕ
  before = fich_decode output (fich_at offset_rx frame)

  abbrev after : List ℕ
  after = (ysf_fich_rewrite_dgid output convolved fich frame dgid).1

  after_encoded : after ≡ (fich_encode_at offset_rx (rewritten before dgid) convolved frame).1
  after_encoded =
      ap (λ (r : List ℕ × List ℕ). r.1) (rewrite_some output convolved fich frame dgid pos)

  decoded : with_dt (fields_of before) ≡ with_dt (ysf_fich_decode_at output frame offset_rx).1
  unfolding ysf_fich_decode_at
  decoded = refl

  -- A receiver that decodes a frame of 155 bytes behind ysf_fich_rewrite_dgid, with a DGID of 1 to
  -- 255, finds that DGID, the mode V/D 2, and the other fields that it would have found before.
  pub decode_at-rewrite_dgid :
      (ysf_fich_get_dgid (ysf_fich_decode_at output after offset_rx).0 ≡ dgid)
      × ((ysf_fich_decode_at output after offset_rx).1
          ≡ with_dt (ysf_fich_decode_at output frame offset_rx).1)
  decode_at-rewrite_dgid =
      let hb = fich_decode-IsBytes output (fich_at offset_rx frame) in
      let lb = length-fich_decode output (fich_at offset_rx frame) in
      let found =
        decode_at-fich_encode_at output convolved frame sc hf offset_rx (omega (arith, l))
          (rewritten before dgid) (rewritten-IsBytes before dgid hb lb pos lt)
          (length-rewritten before dgid hb lb pos lt) in
      (
        rw after_encoded (found.0 ∙ dgid-rewritten before dgid hb lb pos lt),
        rw after_encoded (found.1 ∙ fields_of-rewritten before dgid hb lb pos lt ∙ decoded),
      )

-- ysf_fich_rewrite_dgid changes at most the 25 bytes from 40 on, and not the length of the frame.
pub get_or-rewrite_dgid :
    (output convolved fich frame : List ℕ) (dgid k : ℕ)
    → IsScratch output convolved
    → IsBytes frame
    → length frame ≡ 155
    → (k < 40) ⊎ (65 ≤ k)
    → (get_or (ysf_fich_rewrite_dgid output convolved fich frame dgid).1 k 0 ≡ get_or frame k 0)
      × (length (ysf_fich_rewrite_dgid output convolved fich frame dgid).1 ≡ length frame)
get_or-rewrite_dgid output convolved fich frame zero k sc hf l out =
    rw (rewrite_none output convolved fich frame 0 (omega arith)) (refl, refl)
get_or-rewrite_dgid output convolved fich frame (suc n) k sc hf l out =
    let g = rewritten (fich_decode output (fich_at offset_rx frame)) (suc n) in
    rw (rewrite_some output convolved fich frame (suc n) (omega arith)) (
      get_or-fich_encode_at output convolved frame sc hf offset_rx (omega (arith, l)) g k out,
      length-fich_encode_at output convolved frame sc hf offset_rx (omega (arith, l)) g,
    )

-- The field FI is of two bits, so ysf_fich_decode_fields never tries the other offset: it decodes
-- at the offset that it guesses from the sync word.
pub ysf_fich_decode_fields_lem :
    (scratch frame : List ℕ)
    → ysf_fich_decode_fields scratch frame
      ≡ ysf_fich_decode_at scratch frame (ysf_fich_guess_rx_offset frame)
unfolding ysf_fich_decode_fields ysf_fich_decode_at fields_of
ysf_fich_decode_fields_lem scratch frame =
    let fich = fich_decode scratch (fich_at (ysf_fich_guess_rx_offset frame) frame) in
    let small = bit_and-le (get_or fich 0 0 >>> 6) 0x03 in
    let yes : leb (bit_and (get_or fich 0 0 >>> 6) 0x03) 3 ≡ true = ground arith in rw yes refl
