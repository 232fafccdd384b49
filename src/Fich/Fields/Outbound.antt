-- ===== src/Fich/Fields/Outbound.antt =====
-- ysf_fich_encode_outbound: the fields that a receiver reads off what it makes.
use adn_bridge.Fich.Frame.Words12.{four_equal}
use adn_bridge.Fich.Fields.Wire.{IsScratch}
use adn_bridge.Fich.Frame.{fich_encode, fich_decode, add_ccitt162}
use adn_bridge.Fich.Frame.RoundTrip.{fich_decode-fich_encode}
use adn_bridge.Fich.Fields.{
  fields_of, outbound_fich, ysf_fich_encode_outbound, ysf_fich_get_dgid, dt_vd_mode2, fich_set_fn,
  fich_set_cm, fich_set_cs, fich_set_fi, fich_set_dt, fich_set_mr, fich_set_ft, fich_set_sq,
  fich_set_sql, fich_set_voip, ℕ, List, Bool, bit_or, bit_and, ltb, [],
}
use adn_bridge.Fich.Fields.Rewrite.{fields_of-add_ccitt162, get_or-add_ccitt162}
use adn_bridge.Prelude.{
  true, all_below, ℕ, List, ◌≡◌, ◌<◌, Bool, bit_or, ◌==◌, bit_and, ◌%◌, IsBytes, ◌<<<◌, ◌>>>◌, ◌&&◌,
  refl, all_below_sound, arith, length, ltb, ◌∷◌, ◌∙◌, [],
}

abbrev masks_fit : ℕ → Bool
masks_fit x =
    (bit_and (x <<< 6) 0xC0 == (x % 4) <<< 6)
    && (bit_and (x <<< 2) 0x0C == (x % 4) <<< 2)
    && (bit_and (x <<< 3) 0x38 == (x % 8) <<< 3)
    && (bit_and x 0x07 == x % 8)

mask_checks : all_below 256 masks_fit ≡ true
mask_checks = refl

masks :
    (x : ℕ)
    → x < 256
    → (bit_and (x <<< 6) 0xC0 ≡ (x % 4) <<< 6)
      × (bit_and (x <<< 2) 0x0C ≡ (x % 4) <<< 2)
      × (bit_and (x <<< 3) 0x38 ≡ (x % 8) <<< 3)
      × (bit_and x 0x07 ≡ x % 8)
masks x h = four_equal _ _ _ _ _ _ _ _ (all_below_sound 256 masks_fit x mask_checks h)

fich_encode_first :
    (fich scratch bytes : List ℕ) → (fich_encode fich scratch bytes).0 ≡ add_ccitt162 fich 6
unfolding fich_encode
fich_encode_first fich scratch bytes = refl

-- The first two bytes of m_fich, of the fields' low bits.
abbrev byte0 : ℕ → ℕ → ℕ
byte0 fi cm =
    bit_or (bit_and (bit_or (bit_and (bit_or (bit_and 0 0x3F) (fi <<< 6)) 0xCF) 0x20) 0xF3)
      (cm <<< 2)

abbrev byte1 : ℕ → ℕ → ℕ
byte1 fn ft = bit_or (bit_and (bit_or (bit_and 0 0xC7) (fn <<< 3)) 0xF8) ft

abbrev byte0_fits : ℕ → ℕ → Bool
byte0_fits fi cm =
    (bit_and (byte0 fi cm >>> 6) 0x03 == fi)
    && (bit_and (byte0 fi cm >>> 2) 0x03 == cm)
    && ltb (byte0 fi cm) 256
    && true

abbrev byte1_fits : ℕ → ℕ → Bool
byte1_fits fn ft =
    (bit_and (byte1 fn ft >>> 3) 0x07 == fn)
    && (bit_and (byte1 fn ft) 0x07 == ft)
    && ltb (byte1 fn ft) 256
    && true

byte0_checks : all_below 4 (λ fi. all_below 4 (byte0_fits fi)) ≡ true
byte0_checks = refl

byte1_checks : all_below 8 (λ fn. all_below 8 (byte1_fits fn)) ≡ true
byte1_checks = refl

two_and :
    (a a' b b' c : ℕ)
    → ((a == a') && (b == b') && ltb c 256 && true) ≡ true
    → (a ≡ a') × (b ≡ b') × (c < 256)
two_and a a' b b' c h = (ground arith, ground arith, ground arith)

module _ (x y : ℕ) where
  byte0_facts :
      (bit_and (byte0 (x % 4) (y % 4) >>> 6) 0x03 ≡ x % 4)
      × (bit_and (byte0 (x % 4) (y % 4) >>> 2) 0x03 ≡ y % 4)
      × (byte0 (x % 4) (y % 4) < 256)
  byte0_facts = two_and _ _ _ _ _ (
      all_below_sound 4 (byte0_fits (x % 4)) (y % 4)
        (all_below_sound 4 (λ fi. all_below 4 (byte0_fits fi)) (x % 4) byte0_checks (omega arith))
        (omega arith))

  byte1_facts :
      (bit_and (byte1 (x % 8) (y % 8) >>> 3) 0x07 ≡ x % 8)
      × (bit_and (byte1 (x % 8) (y % 8)) 0x07 ≡ y % 8)
      × (byte1 (x % 8) (y % 8) < 256)
  byte1_facts = two_and _ _ _ _ _ (
      all_below_sound 8 (byte1_fits (x % 8)) (y % 8)
        (all_below_sound 8 (λ fn. all_below 8 (byte1_fits fn)) (x % 8) byte1_checks (omega arith))
        (omega arith))

module _ (fn fi ft cm : ℕ) (hn : fn < 256) (hi : fi < 256) (ht : ft < 256) (hc : cm < 256) where
  pub outbound_bytes :
      outbound_fich fn fi ft cm
      ≡ byte0 (fi % 4) (cm % 4) ∷ byte1 (fn % 8) (ft % 8) ∷ 2 ∷ 0 ∷ 0 ∷ 0 ∷ []
  unfolding outbound_fich fich_set_fn fich_set_cm fich_set_cs fich_set_fi fich_set_dt fich_set_mr
      fich_set_ft fich_set_sq fich_set_sql fich_set_voip
  outbound_bytes = rw ((masks fi hi).0, (masks cm hc).1, (masks fn hn).2, (masks ft ht).3) refl

  pub outbound-IsBytes : IsBytes (outbound_fich fn fi ft cm)
  outbound-IsBytes = rw outbound_bytes (
    (byte0_facts fi cm).2,
    ((byte1_facts fn ft).2, (omega arith, (omega arith, (omega arith, (omega arith, tt))))),
  )

  pub outbound_fields :
      fields_of (outbound_fich fn fi ft cm)
      ≡ record { fi = fi % 4; fn = fn % 8; ft = ft % 8; cm = cm % 4; dt = dt_vd_mode2 }
  unfolding fields_of
  outbound_fields =
      let f0 = byte0_facts fi cm in
      let f1 = byte1_facts fn ft in rw (outbound_bytes, f0.0, f0.1, f1.0, f1.1) refl

  -- What ysf_fich_encode_outbound writes over any 25 bytes is decoded to the low bits of the fields
  -- given, the mode V/D 2 and the DGID 0.
  pub decode-encode_outbound :
      (scratch output fich25 : List ℕ)
      → IsScratch output scratch
      → IsBytes fich25
      → length fich25 ≡ 25
      → (fields_of (fich_decode output (ysf_fich_encode_outbound scratch fich25 fn fi ft cm).1)
          ≡ record { fi = fi % 4; fn = fn % 8; ft = ft % 8; cm = cm % 4; dt = dt_vd_mode2 })
        × (ysf_fich_get_dgid
              (fich_decode output (ysf_fich_encode_outbound scratch fich25 fn fi ft cm).1)
            ≡ 0)
  unfolding ysf_fich_encode_outbound ysf_fich_get_dgid
  decode-encode_outbound scratch output fich25 sc hb l =
      let f = outbound_fich fn fi ft cm in
      let six : length f ≡ 6 = rw outbound_bytes refl in
      let back =
        fich_decode-fich_encode f scratch output fich25 outbound-IsBytes six sc.convolved_bytes
          sc.convolved_length sc.output_bytes sc.output_length hb l
        ∙ fich_encode_first f scratch fich25 in
      (
        rw back (fields_of-add_ccitt162 f ∙ outbound_fields),
        rw back (get_or-add_ccitt162 f 3 (omega arith) ∙ rw outbound_bytes refl),
      )
