-- ===== src/ElProxy/Connect.antt =====
-- el_proxy.c: setting the connection up, and keeping it.
use adn_bridge.PeerDmr.Wire.{codes}
use adn_bridge.ElProxy.State.{ElProxy, tcp_disc, reconnect_sec}
use adn_bridge.ElProxy.Send.{Write, send_raw}
use adn_bridge.Prelude.{
  true, false, [], ℕ, Bool, List, ◌*◌, if◌then◌else◌, ◌++◌, map, ◌+◌, ◌&&◌, leb, ◌∷◌, ltb, not,
  length, take, ◌==◌,
}

-- el_proxy_init
unfoldable pub el_proxy_init : ElProxy
el_proxy_init = record {
  is_open = false;
  ready = false;
  callsign = [];
  password = [];
  rx_acc = [];
  tcp_state = tcp_disc;
  dir_rx = [];
  dir_rx_r = 0;
  dir_rx_cap = 0;
  tcp_status = 0;
  tcp_status_pending = false;
  next_reconnect = 0;
  reconnect_pending = false;
  written = [];
  delivered = [];
}

-- EL_PROXY_DIR_RX_CAP
abbrev pub dir_rx_size : ℕ
dir_rx_size = 1024 * 1024 + 16

-- ensure_dir_rx_locked, where memory is given or not
unfoldable pub ensure_dir_rx : Bool → ElProxy → Bool × ElProxy
ensure_dir_rx has_memory px =
    if leb dir_rx_size px.dir_rx_cap
    then (true, px)
    else if has_memory
    then (true, record px { dir_rx_cap = dir_rx_size; dir_rx = []; dir_rx_r = 0 })
    else (false, record px { dir_rx_cap = 0 })

-- What the system does for do_connect_auth: memory, the name, the socket with its connection, the
-- bytes read as the nonce, the digest context, the flags, and the writes.
pub record Connection : Type 0 where
  pub has_memory : Bool
  pub is_resolved : Bool
  pub is_connected : Bool
  pub nonce : List ℕ
  pub has_digest : Bool
  pub sets_nonblock : Bool
  pub writes : List Write

abbrev pub close_fd : ElProxy → ElProxy
close_fd px = record px { is_open = false }

module _ (md5 : List ℕ → List ℕ) where
  -- `auth`
  unfoldable pub auth_message : ElProxy → List ℕ → List ℕ
  auth_message px nonce = px.callsign ++ (10 ∷ md5 (px.password ++ nonce))

  -- do_connect_auth behind the nonce
  unfoldable pub send_auth : Connection → ElProxy → Bool × ElProxy
  send_auth c px =
      if ltb (32 + 1 + 16) (length px.callsign + 1 + 16)
      then (false, close_fd px)
      else if not c.has_digest
      then (false, close_fd px)
      else let sent = send_raw c.writes px (auth_message px c.nonce) in
        if not sent.ok
        then (false, close_fd sent.proxy)
        else if not c.sets_nonblock
        then (false, close_fd sent.proxy)
        else (
          true,
          record sent.proxy {
            ready = true;
            reconnect_pending = false;
            rx_acc = [];
            tcp_state = tcp_disc;
            dir_rx = [];
            dir_rx_r = 0;
          },
        )

  -- do_connect_auth: 0 is true
  unfoldable pub do_connect_auth : Connection → ElProxy → Bool × ElProxy
  do_connect_auth c px =
      let (has_buffer, p1) =
        ensure_dir_rx c.has_memory (record px { is_open = false; ready = false }) in
      if not has_buffer
      then (false, p1)
      else if not c.is_resolved
      then (false, p1)
      else if not c.is_connected
      then (false, p1)
      else if not (length c.nonce == 8)
      then (false, p1)
      else send_auth c (record p1 { is_open = true })

  -- upper_password, into an array of 64
  unfoldable pub upper_password : (ℕ → ℕ) → List ℕ → List ℕ
  upper_password toupper [] = map toupper (codes "PUBLIC")
  upper_password toupper (x ∷ xs) = map toupper (take 63 (x ∷ xs))

  -- A failed attempt is tried again later.
  unfoldable pub or_later : Bool × ElProxy → ℕ → Bool × ElProxy
  or_later (true, px) now = (true, px)
  or_later (false, px) now =
      (false, record px { reconnect_pending = true; next_reconnect = now + reconnect_sec })

  -- el_proxy_open, with a host and a callsign
  unfoldable pub el_proxy_open :
      (ℕ → ℕ) → Connection → ElProxy → List ℕ → List ℕ → ℕ → Bool × ElProxy
  el_proxy_open toupper c px callsign password now =
      let (has_buffer, p1) =
        ensure_dir_rx c.has_memory (record px { is_open = false; ready = false }) in
      if not has_buffer
      then (false, p1)
      else let p2 = record p1 {
        callsign = take 15 callsign;
        password = upper_password toupper password;
      } in
        or_later (do_connect_auth c p2) now

  -- el_proxy_ensure
  unfoldable pub el_proxy_ensure : Connection → ElProxy → ℕ → Bool × ElProxy
  el_proxy_ensure c px now =
      if px.ready && px.is_open
      then (true, px)
      else if px.reconnect_pending && ltb now px.next_reconnect
      then (false, px)
      else or_later (do_connect_auth c px) now

-- el_proxy_close
unfoldable pub el_proxy_close : ElProxy → ElProxy
el_proxy_close px = record px {
  is_open = false;
  ready = false;
  reconnect_pending = false;
  rx_acc = [];
  tcp_state = tcp_disc;
  dir_rx = [];
  dir_rx_r = 0;
}

-- el_proxy_clear
unfoldable pub el_proxy_clear : ElProxy → ElProxy
el_proxy_clear px = record el_proxy_init { written = px.written; delivered = px.delivered }

-- el_proxy_ready
unfoldable pub el_proxy_ready : ElProxy → Bool
el_proxy_ready px = px.ready && px.is_open
