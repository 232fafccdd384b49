-- ===== src/ElProxy/State.antt =====
-- el_proxy.h: the state of the proxy connection.
use adn_bridge.Prelude.{List, ℕ, Bool, false, true, [], ◌+◌}

pub data TcpState : Type 0 where
  tcp_disc : TcpState
  tcp_connecting : TcpState
  tcp_connected : TcpState
  tcp_disconnecting : TcpState

-- A call of the UDP callback.
pub record Udp : Type 0 where
  pub from : ℕ
  pub is_ctrl : Bool
  pub payload : List ℕ

pub record ElProxy : Type 0 where
  -- `fd >= 0`
  pub is_open : Bool
  pub ready : Bool
  pub callsign : List ℕ
  pub password : List ℕ
  -- the bytes in use of the array of the same name
  pub rx_acc : List ℕ
  pub tcp_state : TcpState
  -- the first dir_rx_len bytes, and dir_rx_cap, 0 without a buffer
  pub dir_rx : List ℕ
  pub dir_rx_r : ℕ
  pub dir_rx_cap : ℕ
  pub tcp_status : ℕ
  pub tcp_status_pending : Bool
  pub next_reconnect : ℕ
  pub reconnect_pending : Bool
  -- what was written to the socket, and what the callback was given, newest first
  pub written : List ℕ
  pub delivered : List Udp

-- RECONNECT_SEC
abbrev pub reconnect_sec : ℕ
reconnect_sec = 10

-- sizeof(rx_acc) and MSG_HDR
abbrev pub acc_size : ℕ
acc_size = 65536

abbrev pub msg_hdr : ℕ
msg_hdr = 9

-- mark_disconnected_locked
unfoldable pub mark_disconnected : ElProxy → ℕ → ElProxy
mark_disconnected px now = record px {
  is_open = false;
  ready = false;
  rx_acc = [];
  tcp_state = tcp_disc;
  dir_rx = [];
  dir_rx_r = 0;
  tcp_status_pending = false;
  reconnect_pending = true;
  next_reconnect = now + reconnect_sec;
}
