-- ===== src/PeerYsf/Link.antt =====
-- peer_ysf.c: the operations of the reflector connection, one per C function. m_fich of ysf_fich.c
-- is an argument and a result of those that code a frame; `output` and `scratch` stand for the
-- arrays that the coding leaves uninitialised.
use adn_bridge.PeerYsf.State.{PeerYsf}
use adn_bridge.PeerDmr.Wire.{codes}
use adn_bridge.Fich.Fields.{ysf_fich_rewrite_dgid}
use adn_bridge.Fich.Activation.{ysf_send_activation_burst}
use adn_bridge.Prelude.{
  true, false, ℕ, List, Bool, ◌++◌, if◌then◌else◌, splice, ◌∷◌, ltb, length, take, ◌+◌, ◌==◌,
  replicate, [],
}

-- LOST_TIMEOUT
abbrev pub lost_timeout : ℕ
lost_timeout = 10

-- peer_ysf_open, where the socket opens and the host is found
unfoldable pub peer_ysf_open : List ℕ → ℕ → ℕ → PeerYsf
peer_ysf_open cs dgid now = record {
  is_open = true;
  callsign = splice 0 (take 10 cs) (replicate 10 32);
  dgid = dgid;
  linked = false;
  reconnect_pending = true;
  last_rx = now;
  sent = [];
}

-- peer_ysf_close
unfoldable pub peer_ysf_close : PeerYsf → PeerYsf
peer_ysf_close p = record p { is_open = false }

-- peer_ysf_send
unfoldable pub peer_ysf_send : PeerYsf → List ℕ → PeerYsf
peer_ysf_send p packet = record p { sent = packet ∷ p.sent }

-- The assignments to `linked`, `reconnect_pending` and `last_rx`.
unfoldable pub set_link : PeerYsf → Bool → Bool → ℕ → PeerYsf
set_link p linked reconnect_pending last_rx = record p {
  linked = linked;
  reconnect_pending = reconnect_pending;
  last_rx = last_rx;
}

-- peer_ysf_linked
unfoldable pub peer_ysf_linked : PeerYsf → Bool
peer_ysf_linked p = p.linked

-- peer_ysf_send_poll
unfoldable pub peer_ysf_send_poll : PeerYsf → PeerYsf
peer_ysf_send_poll p = peer_ysf_send p (codes "YSFP" ++ p.callsign)

-- `ysf_send_activation_burst` on the socket of the peer, with a DGID of at least 1
unfoldable pub activate : List ℕ → List ℕ → PeerYsf → List ℕ × PeerYsf
activate scratch fich p =
    let b = ysf_send_activation_burst scratch p.callsign p.dgid fich p.sent in
    if ltb p.dgid 1 then (fich, p) else (b.fich, record p { sent = b.sent })

-- peer_ysf_reconnect; `later` is its own reading of the clock
unfoldable pub peer_ysf_reconnect : List ℕ → List ℕ → PeerYsf → ℕ → List ℕ × PeerYsf
peer_ysf_reconnect scratch fich p later =
    let p1 = peer_ysf_send_poll (set_link p false p.reconnect_pending p.last_rx) in
    let (f, p2) = activate scratch fich p1 in (f, set_link p2 p2.linked p2.reconnect_pending later)

-- peer_ysf_tick
unfoldable pub peer_ysf_tick : List ℕ → List ℕ → PeerYsf → ℕ → ℕ → List ℕ × PeerYsf
peer_ysf_tick scratch fich p now later =
    if p.reconnect_pending
    then peer_ysf_reconnect scratch fich (set_link p p.linked false p.last_rx) later
    else if ltb (p.last_rx + lost_timeout) now
    then (fich, set_link p false true p.last_rx)
    else (fich, p)

-- peer_ysf_poll on a packet that came, from the address of the reflector or from another
unfoldable pub peer_ysf_poll : PeerYsf → Bool → ℕ → PeerYsf
peer_ysf_poll p from_peer now = if from_peer then set_link p true p.reconnect_pending now else p

-- peer_ysf_send_ysfd: m_fich, and the peer that has sent the frame
unfoldable pub peer_ysf_send_ysfd : List ℕ → List ℕ → List ℕ → PeerYsf → List ℕ → List ℕ × PeerYsf
peer_ysf_send_ysfd output scratch fich p frame =
    let coded = ysf_fich_rewrite_dgid output scratch fich frame p.dgid in
    if length frame == 155
    then (coded.0, peer_ysf_send p coded.1)
    else (fich, peer_ysf_send p frame)

-- peer_ysf_on_sigint
unfoldable pub peer_ysf_on_sigint : PeerYsf → PeerYsf
peer_ysf_on_sigint p =
    if p.is_open then peer_ysf_close (peer_ysf_send p (codes "YSFU" ++ p.callsign)) else p

-- peer_ysf_on_alarm
unfoldable pub peer_ysf_on_alarm : PeerYsf → PeerYsf
peer_ysf_on_alarm p = if p.linked then peer_ysf_send_poll p else p
