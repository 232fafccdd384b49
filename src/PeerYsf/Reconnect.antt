-- ===== src/PeerYsf/Reconnect.antt =====
-- The loss of a reflector, and the burst that asks for the link again.
use adn_bridge.Fich.Activation.Spec.{activation, Sends, burst-Sends, Announced}
use adn_bridge.Fich.Fields.Wire.{IsScratch}
use adn_bridge.PeerYsf.State.{PeerYsf}
use adn_bridge.PeerYsf.Link.{
  peer_ysf_send, peer_ysf_send_poll, activate, peer_ysf_reconnect, peer_ysf_tick, set_link,
}
use adn_bridge.PeerYsf.Session.{tick, run, step}
use adn_bridge.PeerDmr.Wire.{codes}
use adn_bridge.Prelude.{
  true, false, ℕ, List, length, arith, ◌∷◌, ◌+◌, if◌then◌else◌, ◌≡◌, ltb, Bool-cases, refl, inl,
  inr, [], ◌++◌, ◌<◌, IsBytes,
}

-- The frames that an activation takes.
abbrev pub burst_kinds : ℕ → List Announced
burst_kinds dgid = if ltb dgid 1 then [] else activation

module _ (output scratch : List ℕ) (p : PeerYsf) (sc : IsScratch output scratch)
    (hc : IsBytes p.callsign) (lc : length p.callsign ≡ 10) (hd : p.dgid < 256) where
  activate-Sends :
      (fich : List ℕ)
      → Sends output p.dgid (burst_kinds p.dgid) (activate scratch fich p).1.sent p.sent
        × ((activate scratch fich p).1.linked ≡ p.linked)
        × ((activate scratch fich p).1.reconnect_pending ≡ p.reconnect_pending)
  unfolding activate
  activate-Sends fich = elim (Bool-cases (ltb p.dgid 1)) [
    | inl none_set ↦ rw none_set (refl, refl, refl)
    | inr is_set ↦
        rw is_set (burst-Sends output scratch p.callsign p.dgid sc hc lc hd fich p.sent, refl, refl)
  ]

-- A tick that finds a reconnection pending.
module _ (output scratch fich : List ℕ) (p : PeerYsf) (now later : ℕ)
    (sc : IsScratch output scratch) (hc : IsBytes p.callsign) (lc : length p.callsign ≡ 10)
    (hd : p.dgid < 256) where
  pub tick_pending :
      p.reconnect_pending ≡ true
      → let q = (peer_ysf_tick scratch fich p now later).1 in
        (q.linked ≡ false)
        × (q.reconnect_pending ≡ false)
        × (q.last_rx ≡ later)
        × Sends output p.dgid (burst_kinds p.dgid) q.sent ((codes "YSFP" ++ p.callsign) ∷ p.sent)
  unfolding peer_ysf_tick peer_ysf_reconnect peer_ysf_send_poll peer_ysf_send set_link
  tick_pending h =
      let p1 =
        peer_ysf_send_poll (set_link (set_link p p.linked false p.last_rx) false false p.last_rx) in
      let done = activate-Sends output scratch p1 sc hc lc hd fich in
      rw h (done.1, done.2, refl, done.0)

tick_lost :
    (scratch fich : List ℕ) (p : PeerYsf) (t later : ℕ)
    → p.reconnect_pending ≡ false
    → p.last_rx + 10 < t
    → peer_ysf_tick scratch fich p t later ≡ (fich, set_link p false true p.last_rx)
unfolding peer_ysf_tick
tick_lost scratch fich p t later h s =
    let over : ltb (p.last_rx + 10) t ≡ true = ground arith in rw (h, over) refl

-- A reflector that was silent for more than ten seconds is given up at the next tick, and the tick
-- after it sends the ping YSFP with the callsign, then the 28 frames of the activation where a
-- DGID is set, and nothing else; the link is down until the reflector answers, and the ten seconds
-- start anew. Each of the 28 is coded with the DGID, the mode V/D 2 and the frame number of its
-- place: five open the burst, twenty have the payloads 0 to 19 written over what was coded from
-- byte 55 on, and three close it.
pub silence_reconnects_ysf :
    (output scratch fich : List ℕ) (p : PeerYsf) (t later t' later' : ℕ)
    → IsScratch output scratch
    → IsBytes p.callsign
    → length p.callsign ≡ 10
    → p.dgid < 256
    → p.reconnect_pending ≡ false
    → p.last_rx + 10 < t
    → let q = (run output scratch (fich, p) (tick t later ∷ tick t' later' ∷ [])).1 in
      (q.linked ≡ false)
      × (q.reconnect_pending ≡ false)
      × (q.last_rx ≡ later')
      × Sends output p.dgid (burst_kinds p.dgid) q.sent ((codes "YSFP" ++ p.callsign) ∷ p.sent)
unfolding run step set_link
silence_reconnects_ysf output scratch fich p t later t' later' sc hc lc hd idle silent =
    rw (tick_lost scratch fich p t later idle silent) (
      tick_pending output scratch fich (set_link p false true p.last_rx) t' later' sc hc lc hd refl)
