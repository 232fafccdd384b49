-- ===== src/PeerYsf/Tests.antt =====
-- Runs of the reflector connection on concrete events, and the theorems at them.
use adn_bridge.Fich.Activation.Spec.{Sends, activation}
use adn_bridge.PeerYsf.State.{PeerYsf}
use adn_bridge.PeerYsf.Link.{peer_ysf_open, peer_ysf_send_ysfd}
use adn_bridge.PeerYsf.Session.{
  tick, receive, overhear, alarm, transmit, run, linked_needs_packet, traffic_keeps_link,
  send_ysfd_dgid,
}
use adn_bridge.PeerYsf.Reconnect.{silence_reconnects_ysf}
use adn_bridge.PeerDmr.Wire.{codes}
use adn_bridge.Fich.Fields.{ysf_fich_decode_at, ysf_fich_get_dgid, offset_rx}
use adn_bridge.Fich.Fields.Rewrite.{with_dt}
use adn_bridge.Fich.Fields.Tests.{output, convolved, frame, IsScratch-arrays, replicate-IsBytes}
use adn_bridge.Prelude.{
  true, false, List, [], ◌≡◌, ◌∷◌, drop, ℕ, arith, ◌++◌, get_or, refl, replicate, IsBytes,
}

abbrev zeros : List ℕ
zeros = replicate 6 0

abbrev opened : PeerYsf
opened = peer_ysf_open (codes "CE5RPY") 7 100

-- A peer without a DGID, its link up.
abbrev up : PeerYsf
up = record {
  is_open = true;
  callsign = codes "CE5RPY    ";
  dgid = 0;
  linked = true;
  reconnect_pending = false;
  last_rx = 100;
  sent = [];
}

abbrev with_dgid : PeerYsf
with_dgid = record up { dgid = 7 }

callsign-IsBytes : IsBytes (codes "CE5RPY    ")
callsign-IsBytes = ground arith

opened_callsign : opened.callsign ≡ codes "CE5RPY    "
unfolding peer_ysf_open
opened_callsign = refl

linked_needs_packet_example :
    (run output convolved
      (zeros, opened)
      (tick 100 101 ∷ overhear 102 ∷ alarm ∷ transmit frame ∷ tick 112 112 ∷ [])).1.linked
    ≡ false
unfolding peer_ysf_open
linked_needs_packet_example =
    linked_needs_packet output convolved
      (tick 100 101 ∷ overhear 102 ∷ alarm ∷ transmit frame ∷ tick 112 112 ∷ []) (zeros, opened)
      refl refl

traffic_keeps_link_example :
    ((run output convolved (zeros, up) (receive 105 ∷ tick 115 115 ∷ [])).1.linked ≡ true)
    × ((run output convolved (zeros, up) (receive 105 ∷ tick 115 115 ∷ [])).1.reconnect_pending
        ≡ false)
    × ((run output convolved (zeros, up) (receive 105 ∷ tick 115 115 ∷ [])).1.sent ≡ [])
traffic_keeps_link_example =
    traffic_keeps_link output convolved zeros up 105 115 115 refl (omega arith)

silence_reconnects_ysf_example :
    let q = (run output convolved (zeros, with_dgid) (tick 111 111 ∷ tick 112 113 ∷ [])).1 in
    (q.linked ≡ false)
    × (q.reconnect_pending ≡ false)
    × (q.last_rx ≡ 113)
    × Sends output 7 activation q.sent ((codes "YSFP" ++ codes "CE5RPY    ") ∷ [])
silence_reconnects_ysf_example =
    silence_reconnects_ysf output convolved zeros with_dgid 111 111 112 113 IsScratch-arrays
      callsign-IsBytes refl (omega arith) refl (omega arith)

send_ysfd_dgid_example :
    (drop 1 (peer_ysf_send_ysfd output convolved zeros with_dgid frame).1.sent ≡ [])
    × (ysf_fich_get_dgid
          (ysf_fich_decode_at output
            (get_or (peer_ysf_send_ysfd output convolved zeros with_dgid frame).1.sent 0 [])
            offset_rx).0
        ≡ 7)
    × ((ysf_fich_decode_at output
          (get_or (peer_ysf_send_ysfd output convolved zeros with_dgid frame).1.sent 0 [])
          offset_rx).1
        ≡ with_dt (ysf_fich_decode_at output frame offset_rx).1)
send_ysfd_dgid_example =
    send_ysfd_dgid output convolved zeros with_dgid frame IsScratch-arrays
      (replicate-IsBytes 155 0x33 (omega arith)) refl (omega arith) (omega arith)
