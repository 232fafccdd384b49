-- ===== src/Bridge/Ysf/Tests.antt =====
-- A YSF call on a concrete bridge, and the theorems at it.
use adn_bridge.Bridge.Ysf.Heard.{IsLabelled, IsSlotWriter, voice_heard}
use adn_bridge.Bridge.Ysf.Send.{Unset, emit_ysf_from_conv, ysf_data}
use adn_bridge.Bridge.Ysf.Rooms.{rooms_apart, IsOther, IsSame}
use adn_bridge.Bridge.State.{Bridge, put_ysf_eot, put_ysf_header, reset}
use adn_bridge.PeerDmr.Login.{peer_dmr_open}
use adn_bridge.Bridge.Ysf.Relay.{
  IsFrame, AllFrames, IsHearing, payload_calls, hears_ysf, ysf_call_relayed,
}
use adn_bridge.PeerDmr.Wire.{codes}
use adn_bridge.Bridge.Ysf.Receive.{
  is_ysfd, other_room, bridge_on_ysfd, fi_communications, on_ysf_frame,
}
use adn_bridge.Fich.Fields.{
  ysf_fich_encode_outbound, fich_at, offset_rx, ysf_fich_decode_at, ysf_sync_word,
  ysf_fich_guess_rx_offset, outbound_fich, Fields, ysf_fich_rewrite_dgid,
}
use adn_bridge.Bridge.Tests.{bridge, env, at_ms}
use adn_bridge.Fich.Fields.Tests.{output, convolved, IsScratch-arrays, replicate-IsBytes}
use adn_bridge.Fich.Fields.Outbound.{decode-encode_outbound}
use adn_bridge.Fich.Fields.Wire.{length-fich_encode, ysf_fich_decode_fields_lem}
use adn_bridge.Prelude.{
  true, ◌∷◌, [], ℕ, List, replicate, ◌++◌, length, ◌≡◌, take-drop-append, ◌<◌, length-append, arith,
  ◌%◌, ap, ◌∙◌, refl, take-all, IsBytes, get_or, ◌⊎◌,
}

-- A frame of the kind `fi` with an empty payload.
abbrev coded : ℕ → List ℕ
coded fi = (ysf_fich_encode_outbound convolved (replicate 25 0) 0 fi 6 0).1

abbrev head : List ℕ
head = codes "YSFD" ++ (replicate 31 32 ++ ysf_sync_word)

abbrev ysf_frame : ℕ → List ℕ
ysf_frame fi = head ++ (coded fi ++ replicate 90 0)

length-coded : (fi : ℕ) → length (coded fi) ≡ 25
unfolding ysf_fich_encode_outbound
length-coded fi = length-fich_encode (outbound_fich 0 fi 6 0) convolved (replicate 25 0)

fich_at-ysf_frame : (fi : ℕ) → fich_at offset_rx (ysf_frame fi) ≡ coded fi
unfolding fich_at
fich_at-ysf_frame fi =
    let size = length-coded fi in
    take-drop-append 25 0 (coded fi) (replicate 90 0) (omega arith)
    ∙ take-all 25 (coded fi) (omega arith)

ysf_frame-IsFrame : (fi : ℕ) → fi < 4 → IsFrame output 0 fi (ysf_frame fi)
unfolding is_ysfd ysf_fich_decode_at ysf_fich_guess_rx_offset other_room
ysf_frame-IsFrame fi small =
    let whole = length-append (coded fi) (replicate 90 0) in
    let size = length-coded fi in
    let total : length (coded fi ++ replicate 90 0) ≡ 115 = omega arith in
    let back =
      decode-encode_outbound 0 fi 6 0 (omega arith) (omega arith) (omega arith) (omega arith)
        convolved output (replicate 25 0) IsScratch-arrays (replicate-IsBytes 25 0 (omega arith))
        refl in
    let low : fi % 4 ≡ fi = omega arith in
    let found = ysf_fich_decode_fields_lem output (ysf_frame fi) in
    record {
      is_tagged = rw total refl;
      kind = rw (found, fich_at-ysf_frame fi) (ap (λ (f : Fields). f.fi) back.0 ∙ low);
      room = refl;
    }

-- A bridge with its own id, where nobody is in the subscriber database.
abbrev voices : List (List ℕ)
voices = ysf_frame 1 ∷ ysf_frame 1 ∷ []

voices-AllFrames : AllFrames output 0 fi_communications voices
voices-AllFrames = (ysf_frame-IsFrame 1 (omega arith), (ysf_frame-IsFrame 1 (omega arith), tt))

ysf_call_relayed_example :
    IsHearing
      (put_ysf_eot ∷ payload_calls voices (put_ysf_header ∷ reset ∷ []))
      2
      0
      (hears_ysf env (at_ms 0) output [] bridge (ysf_frame 0 ∷ (voices ++ (ysf_frame 2 ∷ [])))).1
unfolding peer_dmr_open
ysf_call_relayed_example =
    ysf_call_relayed env (at_ms 0) output [] bridge (ysf_frame 0) (ysf_frame 2) voices refl refl
      (omega arith) (ysf_frame-IsFrame 0 (omega arith)) voices-AllFrames
      (ysf_frame-IsFrame 2 (omega arith))

-- A frame that another bridge stamps, and a bridge of room 9.
abbrev plain : List ℕ
plain = head ++ replicate 115 0x33

plain-is_ysfd : is_ysfd plain ≡ true
unfolding is_ysfd
plain-is_ysfd = refl

plain-IsBytes : IsBytes plain
plain-IsBytes = let tail = replicate-IsBytes 115 0x33 (omega arith) in search (tail, arith)

abbrev in_room : Bridge
in_room = record bridge { ysf = record (bridge.ysf) { dgid = 9 } }

rooms_apart_example :
    let after =
      (bridge_on_ysfd env
        (at_ms 0)
        output
        []
        in_room
        (ysf_fich_rewrite_dgid output convolved [] plain 7).1).1 in
    IsOther 9 7 × (after ≡ in_room)
    ⊎ IsSame 9 7
      × (after
          ≡ on_ysf_frame env
              (at_ms 0)
              (ysf_fich_decode_at output plain offset_rx).1.fi
              in_room
              (ysf_fich_rewrite_dgid output convolved [] plain 7).1)
rooms_apart_example =
    rooms_apart env (at_ms 0) output convolved [] [] plain 7 IsScratch-arrays plain-IsBytes
      plain-is_ysfd (omega arith) (omega arith) refl in_room

-- A bridge of room 7 with its labels, and a payload.
abbrev sender : Bridge
sender = record bridge {
  ysf = record (bridge.ysf) { callsign = codes "CE5RPY    "; dgid = 7 };
  net_src = codes "CE5ABC    ";
  ysf_cnt = 5;
}

abbrev unset : Unset
unset = record { output = output; scratch = convolved; convolved = convolved }

sender-IsLabelled : IsLabelled sender
sender-IsLabelled = record {
  callsign_size = refl;
  callsign_bytes = search arith;
  src_size = refl;
  src_bytes = search arith;
}

env-IsSlotWriter : IsSlotWriter env.write_dch
env-IsSlotWriter = record { size = λ p d. refl; sync = λ p d. refl; bytes = λ p d h. h }

voice_heard_example : IsFrame output 7 fi_communications (
    get_or
      (emit_ysf_from_conv env unset (at_ms 0) [] sender (ysf_data (replicate 120 0x33))).1.ysf.sent
      0
      [])
unfolding other_room
voice_heard_example =
    voice_heard env unset (at_ms 0) env-IsSlotWriter IsScratch-arrays IsScratch-arrays [] sender
      (replicate 120 0x33) 7 sender-IsLabelled refl (replicate-IsBytes 120 0x33 (omega arith))
      (omega arith) refl
