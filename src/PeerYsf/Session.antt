-- ===== src/PeerYsf/Session.antt =====
-- Runs of the reflector connection: what the main loop of ysf2dmrcon.c calls, in any order.
use adn_bridge.PeerYsf.State.{PeerYsf}
use adn_bridge.PeerYsf.Link.{
  peer_ysf_send, peer_ysf_send_poll, activate, peer_ysf_reconnect, peer_ysf_tick, peer_ysf_poll,
  peer_ysf_send_ysfd, peer_ysf_on_alarm, set_link,
}
use adn_bridge.Fich.Fields.{ysf_fich_decode_at, ysf_fich_get_dgid, offset_rx}
use adn_bridge.Fich.Fields.Rewrite.{with_dt}
use adn_bridge.Fich.Fields.Wire.{IsScratch, decode_at-rewrite_dgid}
use adn_bridge.Prelude.{
  true, false, ℕ, List, ◌∷◌, Bool, ◌≡◌, IsBytes, arith, [], ◌≤◌, length, ◌+◌, ◌<◌, refl, drop,
  get_or, ◌==◌, ==_iff,
}

-- A tick with its two readings of the clock, a packet from the reflector, one from elsewhere, the
-- alarm's ping, a frame of the bridge.
pub data Event : Type 0 where
  tick : ℕ → ℕ → Event
  receive : ℕ → Event
  overhear : ℕ → Event
  alarm : Event
  transmit : List ℕ → Event

module _ (output scratch : List ℕ) where
  -- m_fich is passed along with the peer.
  unfoldable pub step : List ℕ × PeerYsf → Event → List ℕ × PeerYsf
  step s (tick now later) = peer_ysf_tick scratch s.0 s.1 now later
  step s (receive now) = (s.0, peer_ysf_poll s.1 true now)
  step s (overhear now) = (s.0, peer_ysf_poll s.1 false now)
  step s alarm = (s.0, peer_ysf_on_alarm s.1)
  step s (transmit frame) = peer_ysf_send_ysfd output scratch s.0 s.1 frame

  unfoldable pub run : List ℕ × PeerYsf → List Event → List ℕ × PeerYsf
  run s [] = s
  run s (e ∷ es) = run (step s e) es

  -- Whether the reflector was heard.
  abbrev pub heard : List Event → Bool
  heard [] = false
  heard (receive now ∷ es) = true
  heard (tick now later ∷ es) = heard es
  heard (overhear now ∷ es) = heard es
  heard (alarm ∷ es) = heard es
  heard (transmit frame ∷ es) = heard es

  activate_linked : (fich : List ℕ) (p : PeerYsf) → (activate scratch fich p).1.linked ≡ p.linked
  unfolding activate
  activate_linked fich p = ground arith

  step_unlinked :
      (s : List ℕ × PeerYsf) (e : Event)
      → s.1.linked ≡ false
      → heard (e ∷ []) ≡ false
      → (step s e).1.linked ≡ false
  unfolding step peer_ysf_tick peer_ysf_reconnect peer_ysf_poll peer_ysf_on_alarm peer_ysf_send_ysfd
      peer_ysf_send peer_ysf_send_poll set_link activate
  step_unlinked s (tick now later) down h = ground arith
  step_unlinked s (receive now) down h = ground arith
  step_unlinked s (overhear now) down h = down
  step_unlinked s alarm down h = ground arith
  step_unlinked s (transmit frame) down h = ground arith

  -- Whatever is called, a peer that is not linked is linked only after a packet from the reflector.
  pub linked_needs_packet :
      (es : List Event) (s : List ℕ × PeerYsf)
      → s.1.linked ≡ false
      → heard es ≡ false
      → (run s es).1.linked ≡ false
  unfolding run
  linked_needs_packet [] s down h = down
  linked_needs_packet (tick now later ∷ es) s down h =
      linked_needs_packet es (step s (tick now later)) (step_unlinked s (tick now later) down refl)
        h
  linked_needs_packet (receive now ∷ es) s down h = ground arith
  linked_needs_packet (overhear now ∷ es) s down h =
      linked_needs_packet es (step s (overhear now)) (step_unlinked s (overhear now) down refl) h
  linked_needs_packet (alarm ∷ es) s down h =
      linked_needs_packet es (step s alarm) (step_unlinked s alarm down refl) h
  linked_needs_packet (transmit frame ∷ es) s down h =
      linked_needs_packet es (step s (transmit frame)) (step_unlinked s (transmit frame) down refl)
        h

  -- A link that hears a packet of the reflector is up at every tick of the ten seconds after, and
  -- the tick sends nothing, where no reconnection is pending.
  pub traffic_keeps_link :
      (fich : List ℕ) (p : PeerYsf) (t t' later : ℕ)
      → p.reconnect_pending ≡ false
      → t' ≤ t + 10
      → let q = (run (fich, p) (receive t ∷ tick t' later ∷ [])).1 in
        (q.linked ≡ true) × (q.reconnect_pending ≡ false) × (q.sent ≡ p.sent)
  unfolding run step peer_ysf_tick peer_ysf_poll set_link
  traffic_keeps_link fich p t t' later idle soon = ground arith

  -- A frame of 155 bytes goes out with the DGID of the peer, 1 to 255, in the place of its own, in
  -- the mode V/D 2 and with its other fields, for a receiver that decodes it behind the sync word.
  pub send_ysfd_dgid :
      (fich : List ℕ) (p : PeerYsf) (frame : List ℕ)
      → IsScratch output scratch
      → IsBytes frame
      → length frame ≡ 155
      → 1 ≤ p.dgid
      → p.dgid < 256
      → let sent = (peer_ysf_send_ysfd output scratch fich p frame).1.sent in
        (drop 1 sent ≡ p.sent)
        × (ysf_fich_get_dgid (ysf_fich_decode_at output (get_or sent 0 []) offset_rx).0 ≡ p.dgid)
        × ((ysf_fich_decode_at output (get_or sent 0 []) offset_rx).1
            ≡ with_dt (ysf_fich_decode_at output frame offset_rx).1)
  unfolding peer_ysf_send_ysfd peer_ysf_send
  send_ysfd_dgid fich p frame sc hf l pos lt =
      let whole : (length frame == 155) ≡ true = (==_iff (length frame) 155).1 l in
      let found = decode_at-rewrite_dgid output scratch fich frame p.dgid sc hf l pos lt in
      rw whole (refl, found.0, found.1)
