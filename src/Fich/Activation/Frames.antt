-- ===== src/Fich/Activation/Frames.antt =====
-- The frames of the activation burst: what a reflector reads off those without a payload.
use adn_bridge.PeerDmr.Wire.{codes}
use adn_bridge.Fich.Bits.Laws.{set-IsBytes}
use adn_bridge.Fich.Activation.{
  activation_head, activation_fich, activation_round, Burst, List, ℕ, splice, replicate, ◌∷◌, suc,
  set, none, fich_encode_at,
}
use adn_bridge.Fich.Fields.{
  fields_of, outbound_fich, ysf_fich_decode_at, ysf_fich_get_dgid, offset_rx, dt_vd_mode2,
  fich_set_fi, fich_set_cs, fich_set_cm, fich_set_fn, fich_set_ft, fich_set_mr, fich_set_dt,
  fich_set_voip, fich_set_sql, fich_set_sq, fich_encode_at,
}
use adn_bridge.Fich.Fields.Outbound.{outbound_bytes, outbound-IsBytes, outbound_fields}
use adn_bridge.Fich.Fields.Wire.{IsScratch, decode_at-fich_encode_at, take-IsBytes, drop-IsBytes}
use adn_bridge.Prelude.{
  IsBytes, List, ℕ, ◌++◌, ◌<◌, length, ◌≡◌, splice, replicate, take, length-splice, ◌∷◌, set, drop,
  arith, [], ◌>>>◌, ◌∙◌, ◌+◌, zero, refl, length-set, ◌%◌, get_or, get_or-set_ne, get_or-set_self,
  none,
}

append-IsBytes : (xs ys : List ℕ) → IsBytes xs → IsBytes ys → IsBytes (xs ++ ys)
append-IsBytes [] ys h k = k
append-IsBytes (x ∷ xs) ys h k = (h.0, append-IsBytes xs ys h.1 k)

splice-IsBytes : (off : ℕ) (ys xs : List ℕ) → IsBytes ys → IsBytes xs → IsBytes (splice off ys xs)
splice-IsBytes off ys xs h k =
    append-IsBytes (take off xs) (ys ++ drop (off + length ys) xs) (take-IsBytes off xs k)
      (append-IsBytes ys (drop (off + length ys) xs) h (drop-IsBytes (off + length ys) xs k))

zeros-IsBytes : (n : ℕ) → IsBytes (replicate n 0)
zeros-IsBytes zero = tt
zeros-IsBytes (suc n) = (omega arith, zeros-IsBytes n)

spaces-IsBytes : IsBytes (codes "          ")
spaces-IsBytes = ground arith

all-IsBytes : IsBytes (codes "ALL       ")
all-IsBytes = ground arith

tag-IsBytes : IsBytes (codes "YSFD")
tag-IsBytes = ground arith

activation_head-IsBytes :
    (callsign : List ℕ) (fn : ℕ)
    → IsBytes callsign
    → fn < 256
    → IsBytes (activation_head callsign fn)
unfolding activation_head
activation_head-IsBytes callsign fn h lt =
    let tag = splice 0 (codes "YSFD") (replicate 155 0) in
    let first = splice 4 callsign tag in
    let second = splice 14 callsign first in
    let all = splice 24 (codes "ALL       ") second in
    let b1 =
      splice-IsBytes 4 callsign tag h
        (splice-IsBytes 0 (codes "YSFD") (replicate 155 0) tag-IsBytes (zeros-IsBytes 155)) in
    let b2 = splice-IsBytes 14 callsign first h b1 in
    let b3 = splice-IsBytes 24 (codes "ALL       ") second all-IsBytes b2 in
    set-IsBytes (splice 34 (codes "          ") all) 48 fn
      (splice-IsBytes 34 (codes "          ") all spaces-IsBytes b3) lt

length-activation_head :
    (callsign : List ℕ) (fn : ℕ) → length callsign ≡ 10 → length (activation_head callsign fn) ≡ 155
unfolding activation_head
length-activation_head callsign fn l =
    let f0 = splice 0 (codes "YSFD") (replicate 155 0) in
    let l0 : length f0 ≡ 155 = refl in
    let l1 : length (splice 4 callsign f0) ≡ 155 =
      length-splice 4 callsign f0 (omega (arith, l, l0)) ∙ l0 in
    let f1 = splice 14 callsign (splice 4 callsign f0) in
    let l2 : length f1 ≡ 155 =
      length-splice 14 callsign (splice 4 callsign f0) (omega (arith, l, l1)) ∙ l1 in
    let l3 : length (splice 24 (codes "ALL       ") f1) ≡ 155 =
      length-splice 24 (codes "ALL       ") f1 (omega (arith, l2)) ∙ l2 in
    length-set (splice 34 (codes "          ") (splice 24 (codes "ALL       ") f1)) 48 fn
    ∙ length-splice 34 (codes "          ") (splice 24 (codes "ALL       ") f1) (omega (arith, l3))
    ∙ l3

activation_fich_lem :
    (fi cm ft fn dgid : ℕ)
    → activation_fich fi cm ft fn dgid ≡ set (outbound_fich (fn >>> 1) fi ft cm) 3 dgid
unfolding activation_fich outbound_fich fich_set_fi fich_set_cs fich_set_cm fich_set_fn fich_set_ft
    fich_set_mr fich_set_dt fich_set_voip fich_set_sql fich_set_sq
activation_fich_lem fi cm ft fn dgid = refl

fields_of-set : (fich : List ℕ) (x : ℕ) → fields_of (set fich 3 x) ≡ fields_of fich
unfolding fields_of
fields_of-set fich x =
    rw
      (
        get_or-set_ne fich 3 0 x 0 (omega arith),
        get_or-set_ne fich 3 1 x 0 (omega arith),
        get_or-set_ne fich 3 2 x 0 (omega arith),
      )
      refl

-- What a round codes, before a payload is written over it.
module _ (output scratch callsign : List ℕ) (dgid fi cm ft fn : ℕ) (sc : IsScratch output scratch)
    (hc : IsBytes callsign) (lc : length callsign ≡ 10) (hd : dgid < 256) (hi : fi < 256)
    (hm : cm < 256) (ht : ft < 256) (hn : fn < 256) where
  abbrev announced : List ℕ
  announced = activation_fich fi cm ft fn dgid

  half_small : fn >>> 1 < 256
  half_small = omega arith

  abbrev plain : List ℕ
  plain = outbound_fich (fn >>> 1) fi ft cm

  length-plain : length plain ≡ 6
  length-plain = rw (outbound_bytes (fn >>> 1) fi ft cm half_small hi ht hm) refl

  announced-IsBytes : IsBytes announced
  announced-IsBytes =
      rw (activation_fich_lem fi cm ft fn dgid)
        (set-IsBytes plain 3 dgid (outbound-IsBytes (fn >>> 1) fi ft cm half_small hi ht hm) hd)

  length-announced : length announced ≡ 6
  length-announced =
      rw (activation_fich_lem fi cm ft fn dgid) (length-set plain 3 dgid ∙ length-plain)

  fields_of-announced :
      (fields_of announced
        ≡ record { fi = fi % 4; fn = (fn >>> 1) % 8; ft = ft % 8; cm = cm % 4; dt = dt_vd_mode2 })
      × (get_or announced 3 0 ≡ dgid)
  fields_of-announced = rw (activation_fich_lem fi cm ft fn dgid) (
    fields_of-set plain dgid ∙ outbound_fields (fn >>> 1) fi ft cm half_small hi ht hm,
    get_or-set_self plain 3 dgid 0 (omega (arith, length-plain)),
  )

  pub decode_at-announced :
      let coded =
        (fich_encode_at offset_rx
          (activation_fich fi cm ft fn dgid)
          scratch
          (activation_head callsign fn)).1 in
      (ysf_fich_get_dgid (ysf_fich_decode_at output coded offset_rx).0 ≡ dgid)
      × ((ysf_fich_decode_at output coded offset_rx).1
          ≡ record { fi = fi % 4; fn = (fn >>> 1) % 8; ft = ft % 8; cm = cm % 4; dt = dt_vd_mode2 })
  decode_at-announced =
      let found =
        decode_at-fich_encode_at output scratch (activation_head callsign fn) sc
          (activation_head-IsBytes callsign fn hc hn) offset_rx
          (omega (arith, length-activation_head callsign fn lc)) announced announced-IsBytes
          length-announced in
      (found.0 ∙ fields_of-announced.1, found.1 ∙ fields_of-announced.0)

module _ (output scratch callsign : List ℕ) (dgid fi cm advance : ℕ) (b : Burst)
    (sc : IsScratch output scratch) (hc : IsBytes callsign) (lc : length callsign ≡ 10)
    (hd : dgid < 256) (hi : fi < 256) (hm : cm < 256) (hn : b.fn < 256) where
  -- A frame of the burst that has no payload carries the DGID, the mode V/D 2, an FT of 1, and the
  -- low bits of the other fields, for a receiver that decodes it behind the sync word, where the
  -- callsign has ten bytes.
  pub decode_at-activation_round :
      let sent = get_or (activation_round scratch callsign dgid fi cm 1 advance none b).sent 0 [] in
      (ysf_fich_get_dgid (ysf_fich_decode_at output sent offset_rx).0 ≡ dgid)
      × ((ysf_fich_decode_at output sent offset_rx).1
          ≡ record { fi = fi % 4; fn = (b.fn >>> 1) % 8; ft = 1; cm = cm % 4; dt = dt_vd_mode2 })
  unfolding activation_round
  decode_at-activation_round =
      decode_at-announced output scratch callsign dgid fi cm 1 b.fn sc hc lc hd hi hm (omega arith)
        hn
