-- ===== src/Vocoder/Bounded.antt =====
-- The speech calls of the client end within a bound, whatever the server does.
use adn_bridge.Vocoder.State.{Vocoder}
use adn_bridge.Vocoder.Exchange.{Reply, no_reply, bad_reply, good, exchange, recover_rate}
use adn_bridge.Vocoder.Speech.{
  encode_rounds, encode_answer, encode_request, count_enc_fail, vocoder_encode, vocoder_decode,
  decode_answer, decode_request,
}
use adn_bridge.Vocoder.Waits.{
  waited, exchange-waited, exchange-waited_first, recover_rate-waited, recover_rate-fail,
  exchange-good,
}
use adn_bridge.Prelude.{none, some, List, Option, ◌≡◌, ℕ, arith, ◌≤◌, refl, ◌+◌}

-- The second round of the loop.
second_round :
    (v : Vocoder) (req : List ℕ)
    → v.consec_fail ≡ 0
    → waited (encode_rounds 1 v req).1 ≤ waited v + 400
unfolding encode_rounds
second_round v req none_failed =
    let once = exchange-waited_first v req 64 none_failed in ground (arith, once)

-- The first, with what it does for an answer of another rate.
first_round : (v : Vocoder) (req : List ℕ) → waited (encode_rounds 2 v req).1 ≤ waited v + 1520
unfolding encode_rounds
first_round v req =
    let v1 = (exchange v req 64).1 in
    let v3 = (recover_rate (count_enc_fail v1)).1 in
    let once = exchange-waited v req 64 in
    let settled = exchange-good v req 64 in
    let recovery = recover_rate-waited (count_enc_fail v1) in
    let kept = recover_rate-fail (count_enc_fail v1) in
    let twice = second_round v3 req in ground (arith, once, settled, recovery, kept, twice)

encode_answer-waited :
    (o : Option (List ℕ)) (v : Vocoder) → waited (encode_answer (o, v)).1 ≡ waited v
unfolding encode_answer
encode_answer-waited none v = refl
encode_answer-waited (some rsp) v = ground arith

decode_answer-waited : (r : Reply) (v : Vocoder) → waited (decode_answer r v).1 ≡ waited v
unfolding decode_answer
decode_answer-waited no_reply v = refl
decode_answer-waited bad_reply v = refl
decode_answer-waited (good rsp) v = ground arith

-- Whatever the server answers, a call to encode waits for it no longer than 1520 milliseconds, and
-- a call to decode no longer than 820.
pub speech_bounded :
    (v : Vocoder) (pcm ambe : List ℕ)
    → (waited (vocoder_encode v pcm).1 ≤ waited v + 1520)
      × (waited (vocoder_decode v ambe).1 ≤ waited v + 820)
unfolding vocoder_encode vocoder_decode
speech_bounded v pcm ambe =
    let l = encode_rounds 2 v (encode_request pcm) in
    let rounds = first_round v (encode_request pcm) in
    let end = encode_answer-waited l.0 l.1 in
    let e = exchange v (decode_request ambe) 334 in
    let once = exchange-waited v (decode_request ambe) 334 in
    let done = decode_answer-waited e.0 e.1 in
    (ground (arith, rounds, end), ground (arith, once, done))
