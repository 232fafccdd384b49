-- ===== src/Vocoder/Tests.antt =====
-- The properties of the codec client at concrete inputs.
use adn_bridge.Vocoder.Bounded.{speech_bounded}
use adn_bridge.Vocoder.Waits.{waited}
use adn_bridge.Vocoder.Speech.{vocoder_encode, vocoder_decode, encode_request}
use adn_bridge.Vocoder.Transcode.{IsPcm, frame_packet, audio_packet, transcoded}
use adn_bridge.Vocoder.Frame.RoundTrip.{IsFrame49}
use adn_bridge.Vocoder.State.{Vocoder, Request, datagram, silence}
use adn_bridge.Prelude.{
  ℕ, List, ◌∷◌, [], true, refl, ◌≡◌, some, replicate, arith, suc, ◌≤◌, map, ◌+◌, zero,
}

abbrev frame : List ℕ
frame = 1 ∷ 2 ∷ 3 ∷ 250 ∷ 5 ∷ 255 ∷ 128 ∷ []

frame-IsFrame49 : IsFrame49 frame
frame-IsFrame49 = record { size = refl; bytes = search arith; tail = refl }

abbrev tone : List ℕ
tone = replicate 160 65535

tone-IsPcm : (n : ℕ) → IsPcm (replicate n 65535)
tone-IsPcm zero = tt
tone-IsPcm (suc n) = (omega arith, tone-IsPcm n)

-- A client behind two failures, and a server with two answers ready.
abbrev client : Vocoder
client = record {
  is_open = true;
  ready = true;
  consec_fail = 2;
  enc_ok = 0;
  enc_fail = 2;
  dec_ok = 0;
  dec_fail = 0;
  requests = [];
  answers = datagram (frame_packet 0 9 frame) ∷ datagram (audio_packet 1 66 tone) ∷ silence ∷ [];
}

transcoded_example :
    (ambe : List ℕ) × let heard = vocoder_encode client tone in
      let back = vocoder_decode heard.1 ambe in
      (heard.0 ≡ some ambe)
      × (back.0 ≡ some tone)
      × (back.1.answers ≡ silence ∷ [])
      × (back.1.consec_fail ≡ 0)
      × (map (λ (r : Request). r.packet) back.1.requests
          ≡ frame_packet 0 9 frame
            ∷ encode_request tone
            ∷ map (λ (r : Request). r.packet) client.requests)
transcoded_example =
    transcoded client tone frame tone 0 9 1 66 (silence ∷ []) refl frame-IsFrame49 (tone-IsPcm 160)
      refl refl

speech_bounded_example :
    (waited (vocoder_encode client tone).1 ≤ waited client + 1520)
    × (waited (vocoder_decode client frame).1 ≤ waited client + 820)
speech_bounded_example = speech_bounded client tone frame
