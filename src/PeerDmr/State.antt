-- ===== src/PeerDmr/State.antt =====
-- peer_dmr.h: the state of the DMR master connection. The globals of hbp/dmr_hbp.c that peer_dmr.c
-- keeps its link in (host1_connect_status, pong_time1, buf, dmrid) are fields here: the program has
-- one peer_dmr_t. An `int` id is a natural number, since ysf2dmr_config_valid refuses others.
use adn_bridge.Prelude.{ℕ, Bool, true, false, List, ◌∷◌}

-- DISCONNECTED, CONNECTING, CONNECTED
pub data Status : Type 0 where
  disconnected connecting connected : Status

abbrev pub is_connected : Status → Bool
is_connected connected = true
is_connected _ = false

pub record PeerDmr : Type 0 where
  pub callsign : List ℕ
  pub dmrid : ℕ
  pub tg : ℕ
  pub options : List ℕ
  pub password : List ℕ
  pub description : List ℕ
  pub location : List ℕ
  pub software_id : List ℕ
  pub package_id : List ℕ
  pub slots : ℕ
  pub status : Status
  pub login_phase : ℕ
  pub login_fail_until : ℕ
  -- host1_connect_status
  pub connect_status : Status
  -- pong_time1
  pub pong_time : ℕ
  -- the global `buf`
  pub buf : List ℕ
  -- what `sendto` was given, newest first
  pub sent : List (List ℕ)

-- peer_dmr_connected
unfoldable pub peer_dmr_connected : PeerDmr → Bool
peer_dmr_connected p = is_connected p.status

-- peer_dmr_send
unfoldable pub peer_dmr_send : PeerDmr → List ℕ → PeerDmr
peer_dmr_send p packet = record p { sent = packet ∷ p.sent }
