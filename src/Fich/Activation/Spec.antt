-- ===== src/Fich/Activation/Spec.antt =====
-- The activation burst as a list of frames to be sent, and that the loops send just these.
use adn_bridge.Fich.Activation.Frames.{decode_at-announced}
use adn_bridge.Fich.Fields.Wire.{IsScratch}
use adn_bridge.Fich.Activation.{
  payload_loop, generate_voice_payload, Option, replicate, ltb, bit_and, offset_rx, false, splice,
  plain_rounds, voice_rounds, ysf_send_activation_burst, activation_round, Burst, fich_encode_at,
  activation_fich, activation_head,
}
use adn_bridge.Fich.Fields.{
  Fields, ysf_fich_get_dgid, ysf_fich_decode_at, offset_rx, fich_encode_at,
}
use adn_bridge.Prelude.{
  if◌then◌else◌, none, some, refl, ◌∷◌, [], zero, suc, ℕ, List, ◌++◌, ◌≡◌, ◌≤◌, Option, ◌%◌,
  replicate, ◌+◌, ◌-◌, subst, arith, IsBytes, ltb, bit_and, true, ap, length, false, ◌>>>◌, ◌∙◌,
  bit_and_mask, ◌<◌, splice, ap₂, ◌*◌,
}

-- A frame of the burst: the fields that it announces, and the number of its payload.
pub record Announced : Type 0 where
  pub fields : Fields
  pub payload : Option ℕ

-- `n` frames without a payload that open the burst, from the frame number `k` on.
abbrev openings : ℕ → ℕ → List Announced
openings zero k = []
openings (suc n) k =
    record { fields = record { fi = 0; fn = k % 8; ft = 1; cm = 0; dt = 2 }; payload = none }
    ∷ openings n (k + 1)

-- `n` frames with the payloads from `i` on.
abbrev voices : ℕ → ℕ → ℕ → List Announced
voices zero k i = []
voices (suc n) k i =
    record { fields = record { fi = 2; fn = k % 8; ft = 0; cm = 1; dt = 2 }; payload = some i }
    ∷ voices n (k + 1) (i + 1)

-- `n` frames that close it, of the same number.
abbrev closings : ℕ → ℕ → List Announced
closings zero k = []
closings (suc n) k =
    record { fields = record { fi = 2; fn = k % 8; ft = 1; cm = 1; dt = 2 }; payload = none }
    ∷ closings n k

-- The 28 frames, oldest first.
abbrev pub activation : List Announced
activation = openings 5 0 ++ voices 20 5 0 ++ closings 3 25

-- The payload `i`, for fewer than 98 payloads: its number in two bytes, and a run of 0x55 that
-- gets shorter before one of 0xAA.
abbrev pub test_payload : ℕ → List ℕ
test_payload i = 0 ∷ i ∷ (replicate (98 - i) 0x55 ++ replicate i 0xAA)

-- The frame is one that decodes to the DGID and the fields, behind the sync word, with the payload
-- written over it, where there is one, from byte 55 on.
abbrev pub IsOf : List ℕ → ℕ → Announced → List ℕ → Type 0
IsOf output dgid k frame =
    (coded : List ℕ) × (ysf_fich_get_dgid (ysf_fich_decode_at output coded offset_rx).0 ≡ dgid)
    × ((ysf_fich_decode_at output coded offset_rx).1 ≡ k.fields)
    × (frame ≡ elim k.payload [ none ↦ coded | some i ↦ splice 55 (test_payload i) coded ])

-- `after` is `before` with the frames of the kinds given sent in this order, the newest in front.
abbrev pub Sends : List ℕ → ℕ → List Announced → List (List ℕ) → List (List ℕ) → Type 0
Sends output dgid [] after before = after ≡ before
Sends output dgid (k ∷ ks) after before =
    (frame : List ℕ) × IsOf output dgid k frame × Sends output dgid ks after (frame ∷ before)

Sends-append :
    (output : List ℕ) (dgid : ℕ) (ks ls : List Announced) (xs ys zs : List (List ℕ))
    → Sends output dgid ks ys xs
    → Sends output dgid ls zs ys
    → Sends output dgid (ks ++ ls) zs xs
Sends-append output dgid [] ls xs ys zs h more = subst (Sends output dgid ls zs) h more
Sends-append output dgid (k ∷ ks) ls xs ys zs h more =
    (h.0, h.1, Sends-append output dgid ks ls (h.0 ∷ xs) ys zs h.2 more)

loop_low : (n i f : ℕ) → f + i + n ≤ 100 → payload_loop n i f ≡ replicate n 0x55
unfolding payload_loop
loop_low zero i f h = refl
loop_low (suc n) i f h =
    let low : ltb ((f + i) % 200) 100 ≡ true = ground arith in
    rw low (ap (◌∷◌ 0x55) (loop_low n (i + 1) f (omega arith)))

loop_high : (n i f : ℕ) → 100 ≤ f + i → f + i + n ≤ 200 → payload_loop n i f ≡ replicate n 0xAA
unfolding payload_loop
loop_high zero i f h le = refl
loop_high (suc n) i f h le =
    let high : ltb ((f + i) % 200) 100 ≡ false = ground arith in
    rw high (ap (◌∷◌ 0xAA) (loop_high n (i + 1) f (omega arith) (omega arith)))

loop-add : (m n i f : ℕ) → payload_loop (m + n) i f ≡ payload_loop m i f ++ payload_loop n (i + m) f
unfolding payload_loop
loop-add zero n i f =
    let e : 0 + n ≡ n = omega arith in let e2 : i + 0 ≡ i = omega arith in rw (e, e2) refl
loop-add (suc m) n i f =
    let e : suc m + n ≡ suc (m + n) = omega arith in
    let e2 : i + suc m ≡ i + 1 + m = omega arith in
    rw (e, e2) (ap (◌∷◌ (if ltb ((f + i) % 200) 100 then 0x55 else 0xAA)) (loop-add m n (i + 1) f))

payload_tail : (i : ℕ) → i ≤ 98 → payload_loop 98 2 i ≡ replicate (98 - i) 0x55 ++ replicate i 0xAA
payload_tail i h =
    let e : 98 ≡ 98 - i + i = omega arith in
    ap (λ (n : ℕ). payload_loop n 2 i) e
    ∙ loop-add (98 - i) i 2 i
    ∙ ap₂ ◌++◌ (loop_low (98 - i) 2 i (omega arith))
        (loop_high i (2 + (98 - i)) i (omega arith) (omega arith))

generate_voice_payload_lem : (i : ℕ) → i ≤ 98 → generate_voice_payload i ≡ test_payload i
unfolding generate_voice_payload payload_loop
generate_voice_payload_lem i h =
    let high : bit_and (i >>> 8) 0xFF ≡ 0 = omega (arith, bit_and_mask 8 (i >>> 8)) in
    let low : bit_and i 0xFF ≡ i = omega (arith, bit_and_mask 8 i) in
    ap₂ ◌∷◌ high (ap₂ ◌∷◌ low (payload_tail i h))

module _ (output scratch callsign : List ℕ) (dgid : ℕ) (sc : IsScratch output scratch)
    (hc : IsBytes callsign) (lc : length callsign ≡ 10) (hd : dgid < 256) where
  openings-Sends :
      (n k : ℕ) (b : Burst)
      → b.fn ≡ 2 * k
      → 2 * (k + n) < 256
      → Sends output dgid (openings n k) (plain_rounds n scratch callsign dgid 0 0 2 b).sent b.sent
        × ((plain_rounds n scratch callsign dgid 0 0 2 b).fn ≡ 2 * (k + n))
  unfolding plain_rounds activation_round
  openings-Sends zero k b e fits = (refl, omega (arith, e))
  openings-Sends (suc n) k b e fits =
      let found =
        decode_at-announced output scratch callsign dgid 0 0 1 b.fn sc hc lc hd (omega arith)
          (omega arith) (omega arith) (omega (arith, e)) in
      let half : b.fn >>> 1 ≡ k = omega (arith, e) in
      let next = activation_round scratch callsign dgid 0 0 1 2 none b in
      let rest = openings-Sends n (k + 1) next (omega (arith, e)) (omega arith) in
      (
        (_, (_, found.0, found.1 ∙ ap (λ (m : ℕ). numbered m) half, refl), rest.0),
        omega (arith, rest.1),
      )
    where
      numbered : ℕ → Fields
      numbered m = record { fi = 0; fn = m % 8; ft = 1; cm = 0; dt = 2 }

  voices-Sends :
      (n k i : ℕ) (b : Burst)
      → b.fn ≡ 2 * k
      → 2 * (k + n) < 256
      → i + n ≤ 98
      → Sends output dgid (voices n k i) (voice_rounds n i scratch callsign dgid b).sent b.sent
        × ((voice_rounds n i scratch callsign dgid b).fn ≡ 2 * (k + n))
  unfolding voice_rounds activation_round
  voices-Sends zero k i b e fits few = (refl, omega (arith, e))
  voices-Sends (suc n) k i b e fits few =
      let found =
        decode_at-announced output scratch callsign dgid 2 1 0 b.fn sc hc lc hd (omega arith)
          (omega arith) (omega arith) (omega (arith, e)) in
      let half : b.fn >>> 1 ≡ k = omega (arith, e) in
      let next = activation_round scratch callsign dgid 2 1 0 2 (some i) b in
      let rest =
        voices-Sends n (k + 1) (i + 1) next (omega (arith, e)) (omega arith) (omega arith) in
      let written = generate_voice_payload_lem i (omega arith) in
      let coded =
        (fich_encode_at offset_rx (activation_fich 2 1 0 b.fn dgid) scratch
          (activation_head callsign b.fn)).1 in
      (
        (
          splice 55 (generate_voice_payload i) coded,
          (
            coded,
            found.0,
            found.1 ∙ ap (λ (m : ℕ). numbered m) half,
            ap (λ (xs : List ℕ). splice 55 xs coded) written,
          ),
          rest.0,
        ),
        omega (arith, rest.1),
      )
    where
      numbered : ℕ → Fields
      numbered m = record { fi = 2; fn = m % 8; ft = 0; cm = 1; dt = 2 }

  closings-Sends :
      (n k : ℕ) (b : Burst)
      → b.fn ≡ 2 * k
      → 2 * k < 256
      → Sends output dgid (closings n k) (plain_rounds n scratch callsign dgid 2 1 0 b).sent b.sent
  unfolding plain_rounds activation_round
  closings-Sends zero k b e fits = refl
  closings-Sends (suc n) k b e fits =
      let found =
        decode_at-announced output scratch callsign dgid 2 1 1 b.fn sc hc lc hd (omega arith)
          (omega arith) (omega arith) (omega (arith, e)) in
      let half : b.fn >>> 1 ≡ k = omega (arith, e) in
      let next = activation_round scratch callsign dgid 2 1 1 0 none b in
      (
        _,
        (_, found.0, found.1 ∙ ap (λ (m : ℕ). numbered m) half, refl),
        closings-Sends n k next (omega (arith, e)) fits,
      )
    where
      numbered : ℕ → Fields
      numbered m = record { fi = 2; fn = m % 8; ft = 1; cm = 1; dt = 2 }

  pub burst-Sends :
      (fich : List ℕ) (sent : List (List ℕ))
      → Sends output dgid activation
          (ysf_send_activation_burst scratch callsign dgid fich sent).sent
          sent
  unfolding ysf_send_activation_burst
  burst-Sends fich sent =
      let start : Burst = record { fich = fich; fn = 0; sent = sent } in
      let b5 = plain_rounds 5 scratch callsign dgid 0 0 2 start in
      let b25 = voice_rounds 20 0 scratch callsign dgid b5 in
      let h5 = openings-Sends 5 0 start refl (omega arith) in
      let h25 = voices-Sends 20 5 0 b5 h5.1 (omega arith) (omega arith) in
      Sends-append output dgid (openings 5 0) (voices 20 5 0 ++ closings 3 25) sent b5.sent _ h5.0 (
        Sends-append output dgid (voices 20 5 0) (closings 3 25) b5.sent b25.sent _ h25.0
          (closings-Sends 3 25 b25 h25.1 (omega arith)))
