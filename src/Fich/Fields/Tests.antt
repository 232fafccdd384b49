-- ===== src/Fich/Fields/Tests.antt =====
-- Runs of the frame information channel on concrete frames, and the theorems at them.
use adn_bridge.Fich.Activation.{Burst, activation_round}
use adn_bridge.Fich.Activation.Frames.{decode_at-activation_round}
use adn_bridge.Fich.Golay.Syndrome.{get_syndrome_ends}
use adn_bridge.Fich.Golay.{get_syndrome_23127}
use adn_bridge.Fich.Convolution.{convolution_chainback}
use adn_bridge.Fich.Convolution.Encoder.{code}
use adn_bridge.Fich.Convolution.Chainback.{decode_pairs}
use adn_bridge.Fich.Convolution.Decode.{cleared, chainback-code}
use adn_bridge.Fich.Bits.{read_bit}
use adn_bridge.Fich.Frame.{fich_encode, fich_decode}
use adn_bridge.Fich.Frame.RoundTrip.{fich_decode-fich_encode}
use adn_bridge.Fich.Fields.{
  fields_of, offset_rx, ysf_fich_rewrite_dgid, ysf_fich_decode_at, ysf_fich_decode_fields,
  ysf_fich_get_dgid, ysf_fich_encode_outbound, ysf_fich_guess_rx_offset, ℕ, List, replicate, get_or,
  Bool, [],
}
use adn_bridge.Fich.Fields.Rewrite.{with_dt}
use adn_bridge.Fich.Fields.Wire.{
  IsScratch, decode_at-rewrite_dgid, get_or-rewrite_dgid, ysf_fich_decode_fields_lem,
}
use adn_bridge.Fich.Fields.Outbound.{decode-encode_outbound}
use adn_bridge.Prelude.{
  true, false, IsBytes, arith, ◌≡◌, ℕ, List, replicate, get_or, ◌<◌, length, ◌∷◌, Bool, refl, suc,
  inr, ◌++◌, [], zero, ◌^◌, none,
}

pub replicate-IsBytes : (n x : ℕ) → x < 256 → IsBytes (replicate n x)
replicate-IsBytes zero x h = tt
replicate-IsBytes (suc n) x h = (h, replicate-IsBytes n x h)

-- What happens to lie in the arrays, and a frame.
abbrev pub output : List ℕ
output = replicate 13 0xA5

abbrev pub convolved : List ℕ
convolved = replicate 25 0x5A

abbrev pub frame : List ℕ
frame = replicate 155 0x33

abbrev six : List ℕ
six = 0xA1 ∷ 0x3C ∷ 0x7F ∷ 0x03 ∷ 0 ∷ 0 ∷ []

six-IsBytes : IsBytes six
six-IsBytes =
    (omega arith, (omega arith, (omega arith, (omega arith, (omega arith, (omega arith, tt))))))

pub IsScratch-arrays : IsScratch output convolved
IsScratch-arrays = record {
  output_bytes = replicate-IsBytes 13 0xA5 (omega arith);
  output_length = refl;
  convolved_bytes = replicate-IsBytes 25 0x5A (omega arith);
  convolved_length = refl;
}

fich_decode-fich_encode_example :
    fich_decode output (fich_encode six convolved (replicate 25 0xFF)).1
    ≡ (fich_encode six convolved (replicate 25 0xFF)).0
fich_decode-fich_encode_example =
    fich_decode-fich_encode six convolved output (replicate 25 0xFF) six-IsBytes refl
      (replicate-IsBytes 25 0x5A (omega arith)) refl (replicate-IsBytes 13 0xA5 (omega arith)) refl
      (replicate-IsBytes 25 0xFF (omega arith)) refl

decode_at-rewrite_dgid_example :
    (ysf_fich_get_dgid
        (ysf_fich_decode_at output
          (ysf_fich_rewrite_dgid output convolved six frame 7).1
          offset_rx).0
      ≡ 7)
    × ((ysf_fich_decode_at output
          (ysf_fich_rewrite_dgid output convolved six frame 7).1
          offset_rx).1
        ≡ with_dt (ysf_fich_decode_at output frame offset_rx).1)
decode_at-rewrite_dgid_example =
    decode_at-rewrite_dgid output convolved six frame 7 IsScratch-arrays
      (replicate-IsBytes 155 0x33 (omega arith)) refl (omega arith) (omega arith)

get_or-rewrite_dgid_example :
    (get_or (ysf_fich_rewrite_dgid output convolved six frame 7).1 70 0 ≡ 0x33)
    × (length (ysf_fich_rewrite_dgid output convolved six frame 7).1 ≡ 155)
get_or-rewrite_dgid_example =
    get_or-rewrite_dgid output convolved six frame 7 70 IsScratch-arrays
      (replicate-IsBytes 155 0x33 (omega arith)) refl (inr (omega arith))

ysf_fich_decode_fields_lem_example :
    ysf_fich_decode_fields output frame
    ≡ ysf_fich_decode_at output frame (ysf_fich_guess_rx_offset frame)
ysf_fich_decode_fields_lem_example = ysf_fich_decode_fields_lem output frame

decode-encode_outbound_example :
    (fields_of (fich_decode output (ysf_fich_encode_outbound convolved (replicate 25 0) 3 1 6 2).1)
      ≡ record { fi = 1; fn = 3; ft = 6; cm = 2; dt = 2 })
    × (ysf_fich_get_dgid
          (fich_decode output (ysf_fich_encode_outbound convolved (replicate 25 0) 3 1 6 2).1)
        ≡ 0)
decode-encode_outbound_example =
    decode-encode_outbound 3 1 6 2 (omega arith) (omega arith) (omega arith) (omega arith) convolved
      output (replicate 25 0) IsScratch-arrays (replicate-IsBytes 25 0 (omega arith)) refl

-- 96 bits, every one of them set, and the four that flush the encoder.
abbrev message : List Bool
message = replicate 96 true ++ (false ∷ false ∷ false ∷ false ∷ [])

chainback-code_example :
    read_bit
      (convolution_chainback
        (decode_pairs cleared (code false false false false message))
        output
        96)
      17
    ≡ true
chainback-code_example =
    chainback-code message output 17 refl refl refl refl refl
      (replicate-IsBytes 13 0xA5 (omega arith)) (omega arith) (omega arith)

get_syndrome_ends_example : get_syndrome_23127 0x7ABCDE < 2 ^ 11
get_syndrome_ends_example = get_syndrome_ends 0x7ABCDE (omega arith)

abbrev callsign : List ℕ
callsign = replicate 10 0x41

abbrev burst : Burst
burst = record { fich = six; fn = 50; sent = [] }

decode_at-activation_round_example :
    (ysf_fich_get_dgid
        (ysf_fich_decode_at output
          (get_or (activation_round convolved callsign 9 2 1 1 0 none burst).sent 0 [])
          offset_rx).0
      ≡ 9)
    × ((ysf_fich_decode_at output
          (get_or (activation_round convolved callsign 9 2 1 1 0 none burst).sent 0 [])
          offset_rx).1
        ≡ record { fi = 2; fn = 1; ft = 1; cm = 1; dt = 2 })
decode_at-activation_round_example =
    decode_at-activation_round output convolved callsign 9 2 1 0 burst IsScratch-arrays
      (replicate-IsBytes 10 0x41 (omega arith)) refl (omega arith) (omega arith) (omega arith)
      (omega arith)
