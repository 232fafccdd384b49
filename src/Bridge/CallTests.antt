-- ===== src/Bridge/CallTests.antt =====
-- Calls in both directions on a concrete bridge, and the theorems at them.

use adn_bridge.Bridge.ConnectPtt.Session.{closed_frames}
use adn_bridge.PeerDmr.Login.{peer_dmr_open}
use adn_bridge.PeerDmr.Wire.{codes}
use adn_bridge.Bridge.Call.Emit.{emit_voices, IsHeading, ysf_call_sent, played}
use adn_bridge.Bridge.State.{put_dmr_eot, bridge_tx_tg, put_dmr_voice, put_dmr_header, reset}
use adn_bridge.Bridge.Call.{emit_dmr_from_conv, tag_header, tag_eot}
use adn_bridge.Bridge.Send.{tx_rf_id}
use adn_bridge.Bridge.ConnectPtt.Stream.{Talk, frames_sent}
use adn_bridge.Bridge.Call.Relay.{IsRelaying, AllVoice, hears, dmr_call_relayed, late_entry_relayed}
use adn_bridge.Bridge.Dmrd.{
  dmrd_is_header, dmrd_is_voice, dmrd_is_terminator, read_stream, dmr_id_rf24,
}
use adn_bridge.Prelude.{ℕ, List, ◌≡◌, false, true, ◌∷◌, ◌++◌, [], replicate, refl, arith}
use Prim.Native.Nat.{ℕ}
use adn_bridge.Bridge.Tests.{bridge, env, at_ms}

-- A DMRD packet with the type given, of source 0x010101 and stream 1.
abbrev packet : ℕ → List ℕ
packet b15 = codes "DMRD" ++ (replicate 11 1 ++ (b15 ∷ 1 ∷ 0 ∷ 0 ∷ 0 ∷ replicate 35 7))

header_kind : dmrd_is_header (packet 0xa1) ≡ true
unfolding dmrd_is_header
header_kind = refl

voice_kind : AllVoice (packet 0x90 ∷ packet 0x81 ∷ [])
unfolding dmrd_is_voice
voice_kind = (refl, (refl, tt))

end_kind : dmrd_is_terminator (packet 0xa2) ≡ true
unfolding dmrd_is_terminator
end_kind = refl

dmr_call_relayed_example :
    IsRelaying
      (put_dmr_eot
        ∷ put_dmr_voice (replicate 33 7)
        ∷ put_dmr_voice (replicate 33 7)
        ∷ put_dmr_header
        ∷ reset
        ∷ [])
      2
      (hears env bridge (packet 0xa1 ∷ packet 0xa1 ∷ packet 0x90 ∷ packet 0x81 ∷ packet 0xa2 ∷ []))
unfolding read_stream
dmr_call_relayed_example =
    dmr_call_relayed env bridge (packet 0xa1) (packet 0xa2) 1 (packet 0x90 ∷ packet 0x81 ∷ []) refl
      refl header_kind refl voice_kind end_kind

late_entry_relayed_example :
    IsRelaying
      (put_dmr_eot ∷ put_dmr_voice (replicate 33 7) ∷ put_dmr_header ∷ reset ∷ [])
      1
      (hears env bridge (packet 0x81 ∷ packet 0xa2 ∷ []))
late_entry_relayed_example =
    late_entry_relayed env bridge (packet 0x81) (packet 0xa2) [] refl voice_kind.1.0 tt end_kind

abbrev talk : Talk
talk = record {
  slot = 0x80;
  src = 7300391;
  dst = 71442;
  stream = 1;
  begun = at_ms 0;
  clearing = false;
  home = 71442;
  draws = 0;
}

ready : IsHeading talk [] 0 bridge
unfolding tx_rf_id bridge_tx_tg dmr_id_rf24 peer_dmr_open
ready = record {
  on_air = record {
    dst = refl;
    slot = refl;
    has_id = omega arith;
    src = refl;
    stream = refl;
    small = omega arith;
    seq = refl;
  };
  counted = refl;
  frames = refl;
}

ysf_call_sent_example :
    let b' =
      emit_dmr_from_conv env
        (at_ms 200)
        (emit_voices env
          (emit_dmr_from_conv env (at_ms 0) bridge tag_header)
          ((at_ms 60, replicate 33 1) ∷ (at_ms 120, replicate 33 2) ∷ []))
        (tag_eot (replicate 33 3)) in
    (frames_sent b'
      ≡ closed_frames
          (played ((at_ms 60, replicate 33 1) ∷ (at_ms 120, replicate 33 2) ∷ []))
          (replicate 33 3)
          talk
          2
          [])
    × (b'.call_active ≡ false)
    × (b'.ysf_rf_id ≡ 0)
ysf_call_sent_example =
    ysf_call_sent env talk [] bridge (at_ms 0) (at_ms 200)
      ((at_ms 60, replicate 33 1) ∷ (at_ms 120, replicate 33 2) ∷ []) (replicate 33 3) ready
      (refl, (refl, tt)) refl
