-- ===== src/ElProxy/Channel.antt =====
-- el_proxy.c: the TCP channel to the directory that the proxy opens.
use adn_bridge.ElProxy.State.{
  ElProxy, TcpState, tcp_disc, tcp_connecting, tcp_connected, tcp_disconnecting, mark_disconnected,
}
use adn_bridge.ElProxy.Receive.{Read, drain}
use adn_bridge.ElProxy.Send.{Write, Outcome, send_msg, or_disconnect}
use adn_bridge.Prelude.{
  true, false, Bool, List, ℕ, ◌∷◌, if◌then◌else◌, take, ◌&&◌, ◌||◌, drop, ltb, [], ◌+◌, length, not,
  leb, ◌-◌,
}

abbrev pub is_disc : TcpState → Bool
is_disc tcp_disc = true
is_disc tcp_connecting = false
is_disc tcp_connected = false
is_disc tcp_disconnecting = false

abbrev pub is_connecting : TcpState → Bool
is_connecting tcp_disc = false
is_connecting tcp_connecting = true
is_connecting tcp_connected = false
is_connecting tcp_disconnecting = false

abbrev pub is_tcp_connected : TcpState → Bool
is_tcp_connected tcp_disc = false
is_tcp_connected tcp_connecting = false
is_tcp_connected tcp_connected = true
is_tcp_connected tcp_disconnecting = false

-- A round of waiting: the socket's answers, the bytes that are in it then, and whether the deadline
-- is over.
pub record Round : Type 0 where
  pub reads : List Read
  pub input : List ℕ
  pub is_late : Bool

-- The loop of el_proxy_tcp_open, for as many rounds as there are: the deadline ends it.
unfoldable pub tcp_open_wait : List Round → ElProxy → ℕ → Bool × ElProxy
tcp_open_wait [] px now = (false, record px { tcp_state = tcp_disc })
tcp_open_wait (r ∷ rs) px now =
    let p1 = (drain false now r.reads r.input px).0 in
    let rest = tcp_open_wait rs p1 now in
    if not (px.ready && is_connecting px.tcp_state)
    then (is_tcp_connected px.tcp_state, px)
    else if is_tcp_connected p1.tcp_state
    then (true, p1)
    else if is_disc p1.tcp_state
    then (false, p1)
    else if r.is_late
    then (false, record p1 { tcp_state = tcp_disc })
    else rest

-- el_proxy_tcp_open up to that loop: the message TCP_OPEN, behind TCP_CLOSE for a stale channel
unfoldable pub tcp_open_request : List Write → ElProxy → ℕ → Outcome
tcp_open_request ws px remote =
    let closed =
      if is_tcp_connected px.tcp_state || is_connecting px.tcp_state
      then send_msg ws px 3 0 []
      else record { ok = true; proxy = px; answers = ws } in
    let p1 = record closed.proxy {
      dir_rx = [];
      dir_rx_r = 0;
      tcp_status_pending = false;
      tcp_state = tcp_connecting;
    } in
    send_msg closed.answers p1 1 remote []

-- el_proxy_tcp_open: 0 is true
unfoldable pub el_proxy_tcp_open : List Write → List Round → ElProxy → ℕ → ℕ → Bool × ElProxy
el_proxy_tcp_open ws rounds px remote now =
    let asked = tcp_open_request ws px remote in
    if not px.ready
    then (false, px)
    else if asked.ok
    then tcp_open_wait rounds asked.proxy now
    else (false, mark_disconnected asked.proxy now)

-- el_proxy_tcp_write
unfoldable pub el_proxy_tcp_write : List Write → ElProxy → List ℕ → ℕ → Outcome
el_proxy_tcp_write ws px [] now = record { ok = false; proxy = px; answers = ws }
el_proxy_tcp_write ws px (x ∷ xs) now =
    if px.ready && is_tcp_connected px.tcp_state
    then or_disconnect (send_msg ws px 2 0 (x ∷ xs)) now
    else record { ok = false; proxy = px; answers = ws }

-- The bytes that el_proxy_tcp_read takes out of the directory buffer.
unfoldable pub take_dir_rx : ℕ → ElProxy → List ℕ × ElProxy
take_dir_rx buflen px =
    let got = take buflen (drop px.dir_rx_r px.dir_rx) in
    let r = px.dir_rx_r + length got in
    if leb (length px.dir_rx) r
    then (got, record px { dir_rx = []; dir_rx_r = 0 })
    else (got, record px { dir_rx_r = r })

-- el_proxy_tcp_read, for a buffer of at least one byte; `now` is the clock for a lost connection
unfoldable pub el_proxy_tcp_read : ℕ → List Round → ElProxy → ℕ → List ℕ × ElProxy
el_proxy_tcp_read buflen [] px now = ([], px)
el_proxy_tcp_read buflen (r ∷ rs) px now =
    let p1 = (drain false now r.reads r.input px).0 in
    if ltb 0 (length p1.dir_rx - p1.dir_rx_r)
    then take_dir_rx buflen p1
    else if not (p1.ready && is_tcp_connected p1.tcp_state)
    then ([], p1)
    else if r.is_late
    then ([], p1)
    else el_proxy_tcp_read buflen rs p1 now

-- el_proxy_tcp_close
unfoldable pub el_proxy_tcp_close : List Write → ElProxy → ℕ → Outcome
el_proxy_tcp_close ws px now =
    let asked =
      if px.ready && not (is_disc px.tcp_state)
      then or_disconnect (send_msg ws (record px { tcp_state = tcp_disconnecting }) 3 0 []) now
      else record { ok = true; proxy = px; answers = ws } in
    record asked { proxy = record asked.proxy { tcp_state = tcp_disc; dir_rx = []; dir_rx_r = 0 } }

-- el_proxy_poll, with a callback
unfoldable pub el_proxy_poll : List Read → List ℕ → ElProxy → ℕ → ElProxy
el_proxy_poll reads input px now = (drain true now reads input px).0
