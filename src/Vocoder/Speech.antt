-- ===== src/Vocoder/Speech.antt =====
-- vocoder_remote.c: speech to the server and back.
use adn_bridge.Vocoder.Frame.{ambe49_deinterleave, ambe49_interleave}
use adn_bridge.Vocoder.Exchange.{Reply, good, exchange, recover_rate, no_reply, bad_reply}
use adn_bridge.Vocoder.State.{
  Vocoder, pcm_samples, ambe_bytes, dv3k_start, dv3k_type_audio, dv3k_type_ambe, dv3k_audio_field,
  dv3k_ambe_field,
}
use adn_bridge.Prelude.{
  if◌then◌else◌, ◌∷◌, [], none, some, List, ℕ, Option, bit_and, u16, u32, Bool, suc, get_or, ◌>>>◌,
  ◌+◌, leb, bit_or, min, length, ◌/◌, ◌<<<◌, ◌*◌, ◌&&◌, ltb, drop, not, ◌==◌, ◌||◌, zero, u8, take,
  ◌++◌, replicate, ◌-◌,
}

-- A sample of 16 bits, the high byte first.
abbrev pub sample_bytes : List ℕ → List ℕ
sample_bytes [] = []
sample_bytes (s ∷ ss) = bit_and (s >>> 8) 0xff ∷ bit_and s 0xff ∷ sample_bytes ss

-- `req` of vocoder_encode
unfoldable pub encode_request : List ℕ → List ℕ
encode_request pcm =
    let plen = u16 (2 + pcm_samples * 2) in
    dv3k_start
    ∷ bit_and (plen >>> 8) 0xff
    ∷ bit_and plen 0xff
    ∷ dv3k_type_audio
    ∷ dv3k_audio_field
    ∷ u8 pcm_samples
    ∷ sample_bytes (take pcm_samples pcm)

-- `req` of vocoder_decode
unfoldable pub decode_request : List ℕ → List ℕ
decode_request ambe =
    let plen = u16 (2 + ambe_bytes) in
    dv3k_start
    ∷ bit_and (plen >>> 8) 0xff
    ∷ bit_and plen 0xff
    ∷ dv3k_type_ambe
    ∷ dv3k_ambe_field
    ∷ 49
    ∷ ambe49_interleave ambe

abbrev pub count_enc_fail : Vocoder → Vocoder
count_enc_fail v = record v { enc_fail = u32 (v.enc_fail + 1) }

abbrev pub count_dec_fail : Vocoder → Vocoder
count_dec_fail v = record v { dec_fail = u32 (v.dec_fail + 1) }

-- A packet of at least six bytes with this type and field.
unfoldable pub is_packet : ℕ → ℕ → List ℕ → Bool
is_packet type field rsp = leb 6 (length rsp) && get_or rsp 3 0 == type && get_or rsp 4 0 == field

-- The loop of vocoder_encode, for as many rounds as are left.
unfoldable pub encode_rounds : ℕ → Vocoder → List ℕ → Option (List ℕ) × Vocoder
encode_rounds zero v req = (none, v)
encode_rounds (suc left) v req =
    let (r, v1) = exchange v req 64 in
    let v2 = count_enc_fail v1 in
    let (ok, v3) = recover_rate v2 in
    let rest = encode_rounds left v3 req in
    elim r [
      | no_reply ↦ (none, v2)
      | bad_reply ↦ (none, v2)
      | good rsp ↦
          if not (is_packet dv3k_type_ambe dv3k_ambe_field rsp)
          then (none, v2)
          else if get_or rsp 5 0 == 49
          then (some rsp, v1)
          else if left == 1
          then if ok then rest else (none, v3)
          else (none, v2)
    ]

-- vocoder_encode behind the loop
unfoldable pub encode_answer : Option (List ℕ) × Vocoder → Option (List ℕ) × Vocoder
encode_answer (none, v) = (none, v)
encode_answer (some rsp, v) =
    let nbytes = (get_or rsp 5 0 + 7) / 8 in
    if ltb nbytes ambe_bytes || ltb (length rsp) (6 + nbytes) then (none, count_enc_fail v) else (
      some (ambe49_deinterleave (take ambe_bytes (drop 6 rsp))),
      record v { enc_ok = u32 (v.enc_ok + 1) },
    )

-- vocoder_encode, for 160 samples
unfoldable pub vocoder_encode : Vocoder → List ℕ → Option (List ℕ) × Vocoder
vocoder_encode v pcm =
    if v.ready then encode_answer (encode_rounds 2 v (encode_request pcm)) else (none, v)

-- The samples in `n` pairs of bytes.
abbrev pub samples_of : ℕ → List ℕ → List ℕ
samples_of zero bytes = []
samples_of (suc n) bytes =
    bit_or (get_or bytes 0 0 <<< 8) (get_or bytes 1 0) ∷ samples_of n (drop 2 bytes)

-- vocoder_decode behind the exchange
unfoldable pub decode_answer : Reply → Vocoder → Option (List ℕ) × Vocoder
decode_answer no_reply v = (none, count_dec_fail v)
decode_answer bad_reply v = (none, count_dec_fail v)
decode_answer (good rsp) v =
    let ns = min (get_or rsp 5 0) pcm_samples in
    if not (is_packet dv3k_type_audio dv3k_audio_field rsp) || ltb (length rsp) (6 + ns * 2)
    then (none, count_dec_fail v)
    else (
      some (samples_of ns (drop 6 rsp) ++ replicate (pcm_samples - ns) 0),
      record v { dec_ok = u32 (v.dec_ok + 1) },
    )

-- vocoder_decode, for seven bytes
unfoldable pub vocoder_decode : Vocoder → List ℕ → Option (List ℕ) × Vocoder
vocoder_decode v ambe =
    let (r, v1) = exchange v (decode_request ambe) (4 + 2 + pcm_samples * 2 + 8) in
    if v.ready then decode_answer r v1 else (none, v)
