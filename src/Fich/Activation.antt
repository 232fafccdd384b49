-- ===== src/Fich/Activation.antt =====
-- ysf_fich.c: ysf_send_activation_burst, the frames that ask a reflector for a DGID.
pub mod Frames
pub mod Spec
use adn_bridge.PeerDmr.Wire.{codes}
use adn_bridge.Fich.Fields.{
  fich_set_fi, fich_set_cs, fich_set_cm, fich_set_fn, fich_set_ft, fich_set_mr, fich_set_dt,
  fich_set_voip, dt_vd_mode2, offset_rx, fich_encode_at,
}
use adn_bridge.Prelude.{
  false, ℕ, List, [], set, splice, replicate, Option, suc, if◌then◌else◌, bit_and, ◌>>>◌, none, ◌+◌,
  ltb, some, zero, ◌%◌, u8, ◌∷◌,
}

-- The loop of generate_voice_payload: `n` bytes from byte `i` on.
unfoldable pub payload_loop : ℕ → ℕ → ℕ → List ℕ
payload_loop zero i frame_num = []
payload_loop (suc n) i frame_num =
    (if ltb ((frame_num + i) % 200) 100 then 0x55 else 0xAA) ∷ payload_loop n (i + 1) frame_num

-- generate_voice_payload: the 100 bytes that it writes
unfoldable pub generate_voice_payload : ℕ → List ℕ
unfolding payload_loop
generate_voice_payload frame_num =
    set (set (payload_loop 100 0 frame_num) 0 (bit_and (frame_num >>> 8) 0xFF)) 1
      (bit_and frame_num 0xFF)

-- The frame before its channel: tag, callsign, source, destination, and the serial number.
unfoldable pub activation_head : List ℕ → ℕ → List ℕ
activation_head callsign fn =
    let f0 = splice 0 (codes "YSFD") (replicate 155 0) in
    let f1 = splice 14 callsign (splice 4 callsign f0) in
    let f2 = splice 34 (codes "          ") (splice 24 (codes "ALL       ") f1) in set f2 48 fn

-- m_fich for a frame
unfoldable pub activation_fich : ℕ → ℕ → ℕ → ℕ → ℕ → List ℕ
activation_fich fi cm ft fn dgid =
    let f0 = fich_set_cm cm (fich_set_cs 2 (fich_set_fi fi (replicate 6 0))) in
    let f1 = fich_set_mr 0 (fich_set_ft ft (fich_set_fn (fn >>> 1) f0)) in
    set (fich_set_voip false (fich_set_dt dt_vd_mode2 f1)) 3 dgid

-- m_fich, `fn`, and what was given to `sendto`, newest first.
pub record Burst : Type 0 where
  pub fich : List ℕ
  pub fn : ℕ
  pub sent : List (List ℕ)

-- One round of a loop, that adds `advance` to `fn`; the rounds of the second loop have a voice
-- payload.
unfoldable pub activation_round : List ℕ → List ℕ → ℕ → ℕ → ℕ → ℕ → ℕ → Option ℕ → Burst → Burst
activation_round scratch callsign dgid fi cm ft advance payload b =
    let coded =
      fich_encode_at offset_rx (activation_fich fi cm ft b.fn dgid) scratch
        (activation_head callsign b.fn) in
    let frame : List ℕ = elim payload [
      | none ↦ coded.1
      | some i ↦ splice 55 (generate_voice_payload i) coded.1
    ] in
    record { fich = coded.0; fn = u8 (b.fn + advance); sent = frame ∷ b.sent }

-- `n` rounds without a payload, and `n` with one, from `i` on.
unfoldable pub plain_rounds : ℕ → List ℕ → List ℕ → ℕ → ℕ → ℕ → ℕ → Burst → Burst
plain_rounds zero scratch callsign dgid fi cm advance b = b
plain_rounds (suc n) scratch callsign dgid fi cm advance b =
    plain_rounds n scratch callsign dgid fi cm advance
      (activation_round scratch callsign dgid fi cm 1 advance none b)

unfoldable pub voice_rounds : ℕ → ℕ → List ℕ → List ℕ → ℕ → Burst → Burst
voice_rounds zero i scratch callsign dgid b = b
voice_rounds (suc n) i scratch callsign dgid b =
    voice_rounds n (i + 1) scratch callsign dgid
      (activation_round scratch callsign dgid 2 1 0 2 (some i) b)

-- ysf_send_activation_burst; the last loop does not count `fn` on
unfoldable pub ysf_send_activation_burst : List ℕ → List ℕ → ℕ → List ℕ → List (List ℕ) → Burst
ysf_send_activation_burst scratch callsign dgid fich sent =
    let start : Burst = record { fich = fich; fn = 0; sent = sent } in
    let b5 = plain_rounds 5 scratch callsign dgid 0 0 2 start in
    let b25 = voice_rounds 20 0 scratch callsign dgid b5 in
    plain_rounds 3 scratch callsign dgid 2 1 0 b25
