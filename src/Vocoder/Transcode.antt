-- ===== src/Vocoder/Transcode.antt =====
-- Speech that the server has encoded goes back to it as it came.
use adn_bridge.Vocoder.Frame.{ambe49_deinterleave}
use adn_bridge.Vocoder.Frame.RoundTrip.{IsFrame49, interleave-deinterleave}
use adn_bridge.Vocoder.State.{Vocoder, datagram, Answer, Request}
use adn_bridge.Vocoder.Exchange.{
  good, exchange, exchange_once, read_reply, add_request, exchange_timeout, Reply,
}
use adn_bridge.Vocoder.Speech.{
  samples_of, sample_bytes, vocoder_encode, vocoder_decode, decode_request, encode_rounds,
  decode_answer, encode_answer, is_packet, encode_request,
}
use adn_bridge.Prelude.{
  ◌∷◌, [], ℕ, List, ◌<◌, length, ◌^◌, ◌≡◌, ◌*◌, bit_and_mask, refl, arith, ◌>>>◌, bit_or_high, ◌/◌,
  ◌%◌, bit_or, bit_and, ◌<<<◌, ap₂, take, take-all, true, some, u32, map, ◌+◌, ltb, false, ap, sym,
  ◌∙◌, append-nil, Bool, if◌then◌else◌, none, ◌≤◌, suc,
}

-- The packets of a server for the length bytes `h` and `l`: a frame, and 160 samples.
abbrev pub frame_packet : ℕ → ℕ → List ℕ → List ℕ
frame_packet h l frame = 0x61 ∷ h ∷ l ∷ 1 ∷ 1 ∷ 49 ∷ frame

abbrev pub audio_packet : ℕ → ℕ → List ℕ → List ℕ
audio_packet h l pcm = 0x61 ∷ h ∷ l ∷ 2 ∷ 0 ∷ 160 ∷ sample_bytes pcm

abbrev pub IsPcm : List ℕ → Type 0
IsPcm [] = Unit
IsPcm (s ∷ ss) = (s < 2 ^ 16) × IsPcm ss

length-sample_bytes : (pcm : List ℕ) → length (sample_bytes pcm) ≡ length pcm * 2
length-sample_bytes [] = refl
length-sample_bytes (s ∷ ss) = omega (arith, length-sample_bytes ss)

samples_of-sample_bytes :
    (pcm : List ℕ) → IsPcm pcm → samples_of (length pcm) (sample_bytes pcm) ≡ pcm
samples_of-sample_bytes [] h = refl
samples_of-sample_bytes (s ∷ ss) h =
    let high = bit_and_mask 8 (s >>> 8) in
    let low = bit_and_mask 8 s in
    let joined = bit_or_high 8 (s / 2 ^ 8 % 2 ^ 8) (s % 2 ^ 8) (omega arith) in
    let whole : bit_or (bit_and (s >>> 8) 0xff <<< 8) (bit_and s 0xff) ≡ s =
      rw (high, low, joined) (omega (arith, h.0)) in
    ap₂ ◌∷◌ whole (samples_of-sample_bytes ss h.1)

-- A good answer to the first request is the answer.
exchange-answered :
    (v : Vocoder) (req rsp : List ℕ) (rsplen : ℕ) (rest : List Answer)
    → v.answers ≡ datagram rsp ∷ rest
    → read_reply rsplen (datagram rsp) ≡ good rsp
    → exchange v req rsplen ≡ (
      good rsp,
      record v {
        answers = rest;
        consec_fail = 0;
        requests = record { packet = req; timeout_ms = exchange_timeout v } ∷ v.requests;
      },
    )
unfolding exchange exchange_once add_request
exchange-answered v req rsp rsplen rest next reads = rw (next, reads) refl

reads_packet :
    (n b c d e f : ℕ) (xs : List ℕ)
    → length xs ≤ n
    → read_reply (suc (suc (suc (suc (suc (suc n)))))) (datagram (0x61 ∷ b ∷ c ∷ d ∷ e ∷ f ∷ xs))
      ≡ good (0x61 ∷ b ∷ c ∷ d ∷ e ∷ f ∷ xs)
unfolding read_reply
reads_packet n b c d e f xs fits = rw (take-all n xs fits) (ground arith)

-- What an exchange that is answered leaves.
abbrev answered : Vocoder → List ℕ → List Answer → Vocoder
answered v req rest = record v {
  answers = rest;
  consec_fail = 0;
  requests = record { packet = req; timeout_ms = exchange_timeout v } ∷ v.requests;
}

loop_lem :
    (v : Vocoder) (req frame : List ℕ) (h l : ℕ) (rest : List Answer)
    → length frame ≡ 7
    → v.answers ≡ datagram (frame_packet h l frame) ∷ rest
    → encode_rounds 2 v req ≡ (some (frame_packet h l frame), answered v req rest)
unfolding encode_rounds is_packet
loop_lem v req frame h l rest size next =
    let step =
      exchange-answered v req (frame_packet h l frame) 64 rest next
        (reads_packet 58 h l 1 1 49 frame (omega arith)) in
    rw (encode_rounds, step) (ground arith)

encode_lem :
    (v : Vocoder) (speech frame : List ℕ) (h l : ℕ) (rest : List Answer)
    → v.ready ≡ true
    → length frame ≡ 7
    → v.answers ≡ datagram (frame_packet h l frame) ∷ rest
    → vocoder_encode v speech ≡ (
      some (ambe49_deinterleave frame),
      let v1 = answered v (encode_request speech) rest in record v1 { enc_ok = u32 (v.enc_ok + 1) },
    )
unfolding vocoder_encode encode_answer
encode_lem v speech frame h l rest ready size next =
    let req = encode_request speech in
    let whole : take 7 frame ≡ frame = take-all 7 frame (omega arith) in
    let long : ltb (length frame) 7 ≡ false = ground arith in
    ap (λ (c : Bool). if c then encode_answer (encode_rounds 2 v req) else (none, v)) ready
    ∙ ap encode_answer (loop_lem v req frame h l rest size next)
    ∙ rw (encode_answer, whole) (ground arith)

decode_lem :
    (v : Vocoder) (ambe pcm : List ℕ) (h l : ℕ) (rest : List Answer)
    → v.ready ≡ true
    → IsPcm pcm
    → length pcm ≡ 160
    → v.answers ≡ datagram (audio_packet h l pcm) ∷ rest
    → vocoder_decode v ambe ≡ (
      some pcm,
      let v1 = answered v (decode_request ambe) rest in record v1 { dec_ok = u32 (v.dec_ok + 1) },
    )
unfolding vocoder_decode decode_answer is_packet
decode_lem v ambe pcm h l rest ready all size next =
    let req = decode_request ambe in
    let e = exchange v req 334 in
    let bytes = length-sample_bytes pcm in
    let step =
      exchange-answered v req (audio_packet h l pcm) 334 rest next
        (reads_packet 328 h l 2 0 160 (sample_bytes pcm) (omega arith)) in
    let long : ltb (length (sample_bytes pcm)) 320 ≡ false = ground arith in
    let back : samples_of 160 (sample_bytes pcm) ≡ pcm =
      ap (λ (n : ℕ). samples_of n (sample_bytes pcm)) (sym size)
      ∙ samples_of-sample_bytes pcm all in
    ap (λ (c : Bool). if c then decode_answer e.0 e.1 else (none, v)) ready
    ∙ ap (λ (x : Reply × Vocoder). decode_answer x.0 x.1) step
    ∙ rw (decode_answer, back) (ground (arith, append-nil pcm))

-- Where the server answers the two calls with a frame and with 160 samples of 16 bits, the frame
-- that vocoder_encode gives back, handed to vocoder_decode, goes out as the very bytes that the
-- server sent, and the samples come back as they were sent; both answers are used, and no failure
-- counts.
pub transcoded :
    (v : Vocoder) (speech frame pcm : List ℕ) (h l h' l' : ℕ) (rest : List Answer)
    → v.ready ≡ true
    → IsFrame49 frame
    → IsPcm pcm
    → length pcm ≡ 160
    → v.answers ≡ datagram (frame_packet h l frame) ∷ datagram (audio_packet h' l' pcm) ∷ rest
    → (ambe : List ℕ) × let heard = vocoder_encode v speech in
        let back = vocoder_decode heard.1 ambe in
        (heard.0 ≡ some ambe)
        × (back.0 ≡ some pcm)
        × (back.1.answers ≡ rest)
        × (back.1.consec_fail ≡ 0)
        × (map (λ (r : Request). r.packet) back.1.requests
            ≡ frame_packet 0 9 frame
              ∷ encode_request speech
              ∷ map (λ (r : Request). r.packet) v.requests)
unfolding decode_request
transcoded v speech frame pcm h l h' l' rest ready is_frame all size next =
    let ambe = ambe49_deinterleave frame in
    let heard =
      encode_lem v speech frame h l (datagram (audio_packet h' l' pcm) ∷ rest) ready is_frame.size
        next in
    let v1 =
      record (answered v (encode_request speech) (datagram (audio_packet h' l' pcm) ∷ rest)) {
        enc_ok = u32 (v.enc_ok + 1);
      } in
    let back = decode_lem v1 ambe pcm h' l' rest ready all size refl in
    (ambe, rw (heard, back, interleave-deinterleave frame is_frame) (refl, refl, refl, refl, refl))
