-- ===== src/ElProxy/Receive.antt =====
-- el_proxy.c: taking messages out of the stream that comes from the proxy.
use adn_bridge.ElProxy.State.{
  ElProxy, Udp, TcpState, tcp_disc, tcp_connecting, tcp_connected, tcp_disconnecting,
  mark_disconnected, acc_size, msg_hdr,
}
use adn_bridge.Prelude.{
  true, false, ℕ, if◌then◌else◌, List, Bool, ◌==◌, bit_or, ltb, ◌∷◌, get_or, ◌&&◌, length, suc,
  ◌<<<◌, drop, ◌-◌, [], ◌+◌, min, ◌++◌, take, zero,
}

-- The message types.
pub data Kind : Type 0 where
  msg_tcp_open : Kind
  msg_tcp_data : Kind
  msg_tcp_close : Kind
  msg_tcp_status : Kind
  msg_udp_data : Kind
  msg_udp_control : Kind
  msg_system : Kind
  msg_unknown : Kind

abbrev pub kind_of : ℕ → Kind
kind_of n =
    if n == 1
    then msg_tcp_open
    else if n == 2
    then msg_tcp_data
    else if n == 3
    then msg_tcp_close
    else if n == 4
    then msg_tcp_status
    else if n == 5
    then msg_udp_data
    else if n == 6
    then msg_udp_control
    else if n == 7
    then msg_system
    else msg_unknown

-- Four bytes, the lowest first.
unfoldable pub le32 : ℕ → ℕ → ℕ → ℕ → ℕ
le32 a b c d = bit_or (bit_or (bit_or a (b <<< 8)) (c <<< 16)) (d <<< 24)

-- The move of what is not yet read to the start of the directory buffer.
unfoldable pub compact_dir_rx : ElProxy → ElProxy
compact_dir_rx px =
    if ltb 0 px.dir_rx_r
    then record px { dir_rx = drop px.dir_rx_r px.dir_rx; dir_rx_r = 0 }
    else px

-- dir_rx_append_locked
unfoldable pub dir_rx_append : ElProxy → List ℕ → ℕ → ElProxy
dir_rx_append px [] now = px
dir_rx_append px (x ∷ xs) now =
    let p1 = compact_dir_rx px in
    if px.dir_rx_cap == 0
    then mark_disconnected px now
    else if ltb (p1.dir_rx_cap - length p1.dir_rx) (length (x ∷ xs))
    then mark_disconnected p1 now
    else record p1 { dir_rx = p1.dir_rx ++ (x ∷ xs) }

-- handle_msg_locked on TCP_STATUS: the answer to a connection that is being set up
unfoldable pub connect_answer : ElProxy → TcpState → ℕ → ElProxy
connect_answer px tcp_connecting status =
    if status == 0
    then record px { tcp_state = tcp_connected; dir_rx = []; dir_rx_r = 0 }
    else record px { tcp_state = tcp_disc }
connect_answer px tcp_disc status = px
connect_answer px tcp_connected status = px
connect_answer px tcp_disconnecting status = px

unfoldable pub on_tcp_status : ElProxy → List ℕ → ElProxy
on_tcp_status px body =
    let status = le32 (get_or body 0 0) (get_or body 1 0) (get_or body 2 0) (get_or body 3 0) in
    let p1 = record px { tcp_status = status; tcp_status_pending = true } in
    if length body == 4 then connect_answer p1 px.tcp_state status else px

-- The call of the callback, where there is one.
unfoldable pub deliver : Bool → ElProxy → ℕ → Bool → List ℕ → ElProxy
deliver cb px remote is_ctrl body =
    let udp : Udp = record { from = remote; is_ctrl = is_ctrl; payload = body } in
    if cb && ltb 0 (length body) then record px { delivered = udp ∷ px.delivered } else px

-- handle_msg_locked
unfoldable pub handle_kind : Bool → ℕ → ElProxy → Kind → ℕ → List ℕ → ElProxy
handle_kind cb now px msg_tcp_data remote body = dir_rx_append px body now
handle_kind cb now px msg_tcp_close remote body = record px {
  tcp_state = tcp_disc;
  tcp_status_pending = false;
}
handle_kind cb now px msg_tcp_status remote body = on_tcp_status px body
handle_kind cb now px msg_udp_data remote body = deliver cb px remote false body
handle_kind cb now px msg_udp_control remote body = deliver cb px remote true body
handle_kind cb now px msg_system remote body =
    if length body == 1 then mark_disconnected px now else px
handle_kind cb now px msg_tcp_open remote body = px
handle_kind cb now px msg_unknown remote body = mark_disconnected px now

unfoldable pub handle_msg : Bool → ℕ → ElProxy → ℕ → ℕ → List ℕ → ElProxy
handle_msg cb now px type remote body = handle_kind cb now px (kind_of type) remote body

-- The loop of parse_acc_locked, on fuel.
unfoldable pub parse_loop : ℕ → Bool → ℕ → ElProxy → ElProxy
parse_loop zero cb now px = px
parse_loop (suc fuel) cb now px = elim (ltb (length px.rx_acc) msg_hdr) [
  | true ↦ px
  | false ↦
      let acc = px.rx_acc in
      let remote = le32 (get_or acc 1 0) (get_or acc 2 0) (get_or acc 3 0) (get_or acc 4 0) in
      let msg_len = le32 (get_or acc 5 0) (get_or acc 6 0) (get_or acc 7 0) (get_or acc 8 0) in
      let total = msg_hdr + msg_len in
      if ltb (acc_size - msg_hdr) msg_len
      then mark_disconnected px now
      else if ltb (length acc) total
      then px
      else let p1 =
          handle_msg cb now px (get_or acc 0 0) remote (take msg_len (drop msg_hdr acc)) in
        if p1.ready
        then parse_loop fuel cb now (record p1 { rx_acc = drop total p1.rx_acc })
        else p1
]

-- parse_acc_locked; a round takes at least the nine bytes of a header
unfoldable pub parse_acc : Bool → ℕ → ElProxy → ElProxy
parse_acc cb now px = parse_loop (suc (length px.rx_acc)) cb now px

-- What `read` returns: how many bytes at most are there, EINTR, EAGAIN, another error, or the end.
pub data Read : Type 0 where
  some_bytes : ℕ → Read
  interrupted : Read
  would_block : Read
  failed : Read
  end_of_file : Read

-- The loop of drain_locked: the socket's answers, the bytes in the socket, and what is left of
-- them.
unfoldable pub drain_loop : Bool → ℕ → List Read → List ℕ → ElProxy → ElProxy × List ℕ
drain_loop cb now [] input px = (px, input)
drain_loop cb now (r ∷ rs) input px = elim (ltb (length px.rx_acc) acc_size) [
  | false ↦ (mark_disconnected px now, input)
  | true ↦ elim r [
    | interrupted ↦ drain_loop cb now rs input px
    | would_block ↦ (px, input)
    | failed ↦ (mark_disconnected px now, input)
    | end_of_file ↦ (mark_disconnected px now, input)
    | some_bytes n ↦
        let k = min (suc n) (acc_size - length px.rx_acc) in
        let p1 = parse_acc cb now (record px { rx_acc = px.rx_acc ++ take k input }) in
        if p1.ready then drain_loop cb now rs (drop k input) p1 else (p1, drop k input)
  ]
]

-- drain_locked
unfoldable pub drain : Bool → ℕ → List Read → List ℕ → ElProxy → ElProxy × List ℕ
drain cb now rs input px =
    if px.is_open && px.ready then drain_loop cb now rs input px else (px, input)
