-- ===== src/PeerYsf/State.antt =====
-- peer_ysf.h: the state of the YSF reflector connection.
use adn_bridge.Prelude.{List, ℕ, Bool}

pub record PeerYsf : Type 0 where
  -- `sock >= 0`
  pub is_open : Bool
  pub callsign : List ℕ
  pub dgid : ℕ
  pub linked : Bool
  pub reconnect_pending : Bool
  pub last_rx : ℕ
  -- what `sendto` was given, newest first
  pub sent : List (List ℕ)
