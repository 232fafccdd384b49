-- ===== src/PeerDmr/Keepalive.antt =====
-- The timeouts and the penalty of peer_dmr.c.
use adn_bridge.PeerDmr.Handshake.{rptack, has_tag-append, tagged_full}
use adn_bridge.PeerDmr.Login.{
  peer_dmr_on_alarm, peer_dmr_on_sigint, peer_dmr_tick, peer_dmr_receive,
}
use adn_bridge.PeerDmr.Session.{run, step, receive, tick}
use adn_bridge.PeerDmr.Wire.{codes, has_tag, id_bytes, is_empty}
use adn_bridge.PeerDmr.State.{PeerDmr, connecting, connected, disconnected}
use adn_bridge.Prelude.{
  List, ℕ, ◌≡◌, true, ◌++◌, ◌≢◌, false, ◌∷◌, arith, ◌+◌, ◌≤◌, ◌<◌, ◌⊎◌, [], inl, refl, inr, drop,
  length, Bool-cases, ltb,
}

abbrev mstnak : List ℕ
mstnak = codes "MSTNAK"

nak_no_ack : (buf : List ℕ) → has_tag buf mstnak ≡ true → has_tag buf rptack ≡ false
nak_no_ack [] h = refl
nak_no_ack (x ∷ xs) h = ground arith

-- The login request as the newest packet, and the state of a login that has just begun.
abbrev pub IsRequested : PeerDmr → PeerDmr → Type 0
IsRequested p q =
    (q.connect_status ≡ connecting)
    × (q.status ≡ connecting)
    × (q.login_phase ≡ 0)
    × (q.sent ≡ (codes "RPTL" ++ id_bytes p.dmrid) ∷ p.sent)

module _ (sha256 : List ℕ → List ℕ) where
  -- A link, up or logging in, that has heard nothing for longer than its limit (30 s or 60 s) is
  -- given up by the next tick, and the tick after it, at any time past the penalty, asks for a new
  -- login.
  pub silence_reconnects :
      (p : PeerDmr) (t t' : ℕ)
      → (p.connect_status ≡ connected) × (p.pong_time + 30 < t)
        ⊎ (p.connect_status ≡ connecting) × (p.pong_time + 60 < t)
      → p.login_fail_until ≤ t'
      → IsRequested p (run sha256 p (tick t ∷ tick t' ∷ []))
  unfolding run step peer_dmr_tick
  silence_reconnects p t t' (inl h) over = ground arith
  silence_reconnects p t t' (inr h) over = ground arith

  -- Any packet of at least one byte from the master keeps a link up for the next 30 s.
  pub traffic_keeps :
      (p : PeerDmr) (packet : List ℕ) (t t' : ℕ)
      → p.connect_status ≡ connected
      → is_empty packet ≡ false
      → t' ≤ t + 30
      → let q = run sha256 p (receive packet t ∷ tick t' ∷ []) in
        (q.connect_status ≡ connected) × (q.status ≡ connected) × (q.sent ≡ p.sent)
  unfolding run step peer_dmr_tick peer_dmr_receive
  traffic_keeps p packet t t' up full soon = ground arith

  -- After MSTNAK the ticks of the next three seconds send nothing and leave the link down, and the
  -- first later one asks for a new login.
  pub nak_backs_off :
      (p : PeerDmr) (packet : List ℕ) (t t' : ℕ)
      → p.connect_status ≡ connecting
      → has_tag packet mstnak ≡ true
      → let q = run sha256 p (receive packet t ∷ tick t' ∷ []) in
        (t' < t + 3) × (q.connect_status ≡ disconnected) × (q.sent ≡ p.sent)
        ⊎ (t + 3 ≤ t') × IsRequested p q
  unfolding run step peer_dmr_tick peer_dmr_receive
  nak_backs_off p packet t t' pending nak =
      let rest = drop (length packet) p.buf in
      let tagged = has_tag-append packet rest mstnak nak in
      let full = tagged_full packet mstnak refl nak in
      let other = nak_no_ack (packet ++ rest) tagged in
      elim (Bool-cases (ltb t' (t + 3))) [
        | inl early ↦ inl (ground arith)
        | inr late ↦ inr (ground arith)
      ]

-- A peer that is not connected sends neither the ping of the alarm nor the goodbye of a shutdown.
only_connected_sends :
    (p : PeerDmr)
    → (p.connect_status ≢ connected)
    → ((peer_dmr_on_alarm p).sent ≡ p.sent) × ((peer_dmr_on_sigint p).sent ≡ p.sent)
unfolding peer_dmr_on_alarm peer_dmr_on_sigint
only_connected_sends p down = ground arith
