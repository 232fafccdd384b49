-- ===== src/PeerDmr/Session.antt =====
-- Runs of the DMR peer: what the main loop of ysf2dmrcon.c calls, in any order, and the invariant
-- of the login state machine.
use adn_bridge.Prelude.{
  ℕ, ◌+◌, ◌≤◌, ◌≡◌, refl, arith, List, [], ◌∷◌, if◌then◌else◌, false, Bool, ◌++◌, ◌∙◌, drop, length,
}
use adn_bridge.PeerDmr.Wire.{codes, has_tag, is_empty}
use adn_bridge.PeerDmr.State.{Status, disconnected, connecting, connected, PeerDmr, peer_dmr_send}
use adn_bridge.PeerDmr.Login.{
  peer_dmr_open, peer_dmr_receive, peer_dmr_tick, peer_dmr_on_alarm, peer_dmr_poll,
}

-- A call of peer_dmr_tick, a packet from the master, one from elsewhere, the alarm's ping, a frame
-- of the bridge.
pub data Event : Type 0 where
  tick : ℕ → Event
  receive : List ℕ → ℕ → Event
  overhear : List ℕ → Event
  alarm : Event
  transmit : List ℕ → Event

-- The login is over in phase 4 and only there, phase 3 is entered only with options to send, and
-- the bridge is never told of a link that is down.
pub record IsValid (p : PeerDmr) : Type 0 where
  pub done : p.connect_status ≡ connected → p.login_phase ≡ 4
  pub pending : p.connect_status ≡ connecting → p.login_phase ≤ 3
  pub optional : p.login_phase ≡ 3 → is_empty p.options ≡ false
  pub agrees : p.status ≡ connected → p.connect_status ≡ connected

pub peer_dmr_open-IsValid :
    (buf cs : List ℕ) (id tg : ℕ) (options password description location : List ℕ) (now : ℕ)
    → IsValid (peer_dmr_open buf cs id tg options password description location now)
unfolding peer_dmr_open
peer_dmr_open-IsValid buf cs id tg options password description location now = ground arith

-- The RPTACK answers that a connection has behind it in its phase.
abbrev credit_of : Status → ℕ → Bool → ℕ
credit_of disconnected phase bare = 0
credit_of connecting phase bare = phase
credit_of connected phase bare = if bare then 3 else 4

abbrev credit : PeerDmr → ℕ
credit p = credit_of p.connect_status p.login_phase (is_empty p.options)

module _ (sha256 : List ℕ → List ℕ) where
  unfoldable pub step : PeerDmr → Event → PeerDmr
  step p (tick now) = peer_dmr_tick p now
  step p (receive packet now) = peer_dmr_receive sha256 p packet now
  step p (overhear packet) = peer_dmr_poll sha256 p packet false 0
  step p alarm = peer_dmr_on_alarm p
  step p (transmit packet) = peer_dmr_send p packet

  unfoldable pub run : PeerDmr → List Event → PeerDmr
  run p [] = p
  run p (e ∷ es) = run (step p e) es

  -- 1 for a packet of at least one byte that leaves RPTACK at the head of the receive buffer
  abbrev pub ack : PeerDmr → Event → ℕ
  ack p (receive packet now) =
      if is_empty packet
      then 0
      else if has_tag (packet ++ drop (length packet) p.buf) (codes "RPTACK")
      then 1
      else 0
  ack p _ = 0

  -- The RPTACK answers among the events of a run.
  unfoldable pub acks : PeerDmr → List Event → ℕ
  acks p [] = 0
  acks p (e ∷ es) = ack p e + acks (step p e) es

  step-IsValid : (p : PeerDmr) (e : Event) → IsValid p → IsValid (step p e)
  unfolding step peer_dmr_tick peer_dmr_poll peer_dmr_receive peer_dmr_on_alarm peer_dmr_send
  step-IsValid p (tick now) v = ground arith
  step-IsValid p (receive packet now) v = ground arith
  step-IsValid p (overhear packet) v = ground arith
  step-IsValid p alarm v = ground arith
  step-IsValid p (transmit packet) v = ground arith

  options-step : (p : PeerDmr) (e : Event) → (step p e).options ≡ p.options
  unfolding step peer_dmr_tick peer_dmr_poll peer_dmr_receive peer_dmr_on_alarm peer_dmr_send
  options-step p (tick now) = ground arith
  options-step p (receive packet now) = ground arith
  options-step p (overhear packet) = ground arith
  options-step p alarm = ground arith
  options-step p (transmit packet) = ground arith

  credit-step : (p : PeerDmr) (e : Event) → IsValid p → credit (step p e) ≤ credit p + ack p e
  unfolding step peer_dmr_tick peer_dmr_poll peer_dmr_receive peer_dmr_on_alarm peer_dmr_send
  credit-step p (tick now) v = ground arith
  credit-step p (receive packet now) v = ground arith
  credit-step p (overhear packet) v = ground arith
  credit-step p alarm v = ground arith
  credit-step p (transmit packet) v = ground arith

  -- Whatever the main loop calls, and whatever the master sends, the login invariant holds.
  pub run-IsValid : (p : PeerDmr) (es : List Event) → IsValid p → IsValid (run p es)
  unfolding run
  run-IsValid p [] v = v
  run-IsValid p (e ∷ es) v = run-IsValid (step p e) es (step-IsValid p e v)

  credit-run :
      (p : PeerDmr) (es : List Event) → IsValid p → credit (run p es) ≤ credit p + acks p es
  unfolding run acks
  credit-run p [] v = omega arith
  credit-run p (e ∷ es) v =
      omega (arith, credit-step p e v, credit-run (step p e) es (step-IsValid p e v))

  options-run : (p : PeerDmr) (es : List Event) → (run p es).options ≡ p.options
  unfolding run
  options-run p [] = refl
  options-run p (e ∷ es) = options-run (step p e) es ∙ options-step p e

  -- From a link that is down, the peer is connected only after at least three RPTACK answers, and
  -- four if it has options to send.
  pub connected_needs_acks :
      (p : PeerDmr) (es : List Event)
      → IsValid p
      → p.connect_status ≡ disconnected
      → (run p es).connect_status ≡ connected
      → (if is_empty p.options then 3 else 4) ≤ acks p es
  connected_needs_acks p es v down up = ground (arith, credit-run p es v, options-run p es)
