-- ===== src/PeerDmr/Login.antt =====
-- peer_dmr.c: opening the peer, the login handshake, keepalive and shutdown.
-- `now` is what time(NULL) returns; one call of a function reads it once. `sha256` stands for
-- any hash in the place of sha256_generate, which Hbp.Sha256 models.
use adn_bridge.Prelude.{
  ℕ, zero, suc, ◌+◌, ◌-◌, ltb, ◌==◌, List, [], ◌∷◌, ◌++◌, length, take, drop, Bool, if◌then◌else◌,
}
use adn_bridge.PeerDmr.Wire.{
  codes, has_tag, id_bytes, pad_copy, base_callsign, is_empty, or_default,
}
use adn_bridge.PeerDmr.State.{
  Status, disconnected, connecting, connected, is_connected, PeerDmr, peer_dmr_send,
}

abbrev pub timeout : ℕ
timeout = 30

-- The state that peer_dmr_open leaves, with the sizes of the char arrays cut as strncpy does.
unfoldable pub peer_dmr_open :
    List ℕ → List ℕ → ℕ → ℕ → List ℕ → List ℕ → List ℕ → List ℕ → ℕ → PeerDmr
unfolding base_callsign pad_copy
peer_dmr_open buf cs id tg options password description location now = record {
  callsign = pad_copy 10 (base_callsign cs);
  dmrid = id;
  tg = tg;
  options = take 127 options;
  password = take 63 password;
  description = take 19 description;
  location = take 20 location;
  software_id = codes "MMDVMHost";
  package_id = codes "ysf2dmrcon";
  slots = b'0';
  status = disconnected;
  login_phase = 0;
  login_fail_until = 0;
  connect_status = disconnected;
  pong_time = now;
  buf = buf;
  sent = [];
}

-- The body of RPTC, field by field.
unfoldable pub rptc_body : PeerDmr → List ℕ
rptc_body p =
    let desc = or_default p.description (codes "ysf2dmrcon") in
    let loc = or_default p.location p.description in
    pad_copy 8 p.callsign
    ++ pad_copy 9 (codes "000000000")
    ++ pad_copy 9 (codes "000000000")
    ++ pad_copy 2 (codes "99")
    ++ pad_copy 2 (codes "01")
    ++ pad_copy 8 (codes "00000000")
    ++ pad_copy 9 (codes "000000000")
    ++ pad_copy 3 (codes "000")
    ++ pad_copy 20 loc
    ++ pad_copy 19 desc
    ++ ((if p.slots == 0 then b'0' else p.slots) ∷ [])
    ++ pad_copy 124 []
    ++ pad_copy 40 (or_default p.software_id (codes "MMDVMHost"))
    ++ pad_copy 40 (or_default p.package_id (codes "ysf2dmrcon"))

-- send_rptc
unfoldable pub send_rptc : PeerDmr → PeerDmr
unfolding rptc_body id_bytes peer_dmr_send
send_rptc p = peer_dmr_send p (codes "RPTC" ++ id_bytes p.dmrid ++ rptc_body p)

-- send_rpto: the options as they are, cut to what `out` holds
unfoldable pub send_rpto : PeerDmr → PeerDmr
unfolding id_bytes peer_dmr_send
send_rpto p =
    if is_empty p.options
    then p
    else peer_dmr_send p (codes "RPTO" ++ id_bytes p.dmrid ++ take 191 p.options)

module _ (sha256 : List ℕ → List ℕ) where
  -- process_connect while connecting: RPTK, the digest of the master's seed and the password
  unfoldable pub process_connect : PeerDmr → PeerDmr
  unfolding id_bytes peer_dmr_send
  process_connect p =
      peer_dmr_send p
        (codes "RPTK" ++ id_bytes p.dmrid ++ take 32 (sha256 (take 4 (drop 6 p.buf) ++ p.password)))

  -- The `switch (p->login_phase)` of handle_rx, on RPTACK.
  unfoldable pub on_rptack : ℕ → PeerDmr → ℕ → PeerDmr
  unfolding process_connect send_rptc send_rpto
  on_rptack zero p now = record (process_connect p) { login_phase = 1 }
  on_rptack (suc zero) p now = record (send_rptc p) { login_phase = 2 }
  on_rptack (suc (suc zero)) p now =
      if is_empty p.options
      then record p { connect_status = connected; login_phase = 4; pong_time = now }
      else record (send_rpto p) { login_phase = 3 }
  on_rptack (suc (suc (suc zero))) p now = record p {
    connect_status = connected;
    login_phase = 4;
    pong_time = now;
  }
  on_rptack _ p now = p

  -- The second half of handle_rx, by the status.
  unfoldable pub handle_rx_connecting : Status → PeerDmr → ℕ → PeerDmr
  unfolding on_rptack
  handle_rx_connecting connecting p now =
      if has_tag p.buf (codes "RPTACK")
      then on_rptack p.login_phase p now
      else if has_tag p.buf (codes "MSTNAK")
      then record p { connect_status = disconnected; login_fail_until = now + 3 }
      else p
  handle_rx_connecting _ p now = p

  -- handle_rx
  unfoldable pub handle_rx : PeerDmr → ℕ → PeerDmr
  unfolding handle_rx_connecting
  handle_rx p now =
      let p1 = if is_connected p.connect_status then record p { pong_time = now } else p in
      let p2 = handle_rx_connecting p.connect_status p1 now in
      record p2 { status = p2.connect_status }

  -- The last part of peer_dmr_poll, of a packet from the peer's address: an empty one is dropped
  unfoldable pub peer_dmr_receive : PeerDmr → List ℕ → ℕ → PeerDmr
  unfolding handle_rx
  peer_dmr_receive p packet now =
      if is_empty packet
      then p
      else handle_rx (record p { buf = packet ++ drop (length packet) p.buf }) now

  -- peer_dmr_poll, when `recvfrom` gives a packet: one from another address changes the buffer
  unfoldable pub peer_dmr_poll : PeerDmr → List ℕ → Bool → ℕ → PeerDmr
  unfolding peer_dmr_receive
  peer_dmr_poll p packet from_peer now =
      if from_peer
      then peer_dmr_receive p packet now
      else if is_empty packet
      then p
      else record p { buf = packet ++ drop (length packet) p.buf }

-- The login request of peer_dmr_tick; it is built in the global `buf`.
unfoldable pub send_rptl : PeerDmr → PeerDmr
unfolding id_bytes peer_dmr_send
send_rptl p =
    let packet = codes "RPTL" ++ id_bytes p.dmrid in
    peer_dmr_send (record p { buf = packet ++ drop 8 p.buf }) packet

-- The rest of peer_dmr_tick, by the status: the two timeouts.
unfoldable pub check_timeout : Status → PeerDmr → ℕ → PeerDmr
check_timeout connected p now =
    if ltb timeout (now - p.pong_time)
    then record p { connect_status = disconnected; status = disconnected }
    else p
check_timeout connecting p now =
    if ltb 60 (now - p.pong_time) then record p { connect_status = disconnected } else p
check_timeout disconnected p now = p

-- peer_dmr_tick
unfoldable pub peer_dmr_tick : PeerDmr → ℕ → PeerDmr
unfolding send_rptl check_timeout
peer_dmr_tick p now = elim p.connect_status [
  | disconnected ↦
      if ltb now p.login_fail_until
      then p
      else (let p1 =
            send_rptl
              (record p { connect_status = connecting; login_phase = 0; pong_time = now }) in
          check_timeout connecting (record p1 { status = connecting }) now)
  | connecting ↦ check_timeout connecting (record p { status = connecting }) now
  | connected ↦ check_timeout connected (record p { status = connected }) now
]

-- peer_dmr_on_sigint, of an open socket: RPTCL if logged in
unfoldable pub peer_dmr_on_sigint : PeerDmr → PeerDmr
unfolding id_bytes peer_dmr_send
peer_dmr_on_sigint p =
    if is_connected p.connect_status then peer_dmr_send p (codes "RPTCL" ++ id_bytes p.dmrid) else p

-- peer_dmr_on_alarm: the ping
unfoldable pub peer_dmr_on_alarm : PeerDmr → PeerDmr
unfolding id_bytes peer_dmr_send
peer_dmr_on_alarm p =
    if is_connected p.connect_status
    then peer_dmr_send p (codes "RPTPING" ++ id_bytes p.dmrid)
    else p
