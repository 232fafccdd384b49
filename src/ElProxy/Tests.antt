-- ===== src/ElProxy/Tests.antt =====
-- The properties of the proxy connection at concrete inputs.
use adn_bridge.ElProxy.Sent.{GivenUp, udp_send_lem}
use adn_bridge.ElProxy.Channel.{take_dir_rx}
use adn_bridge.ElProxy.Stream.Refines.Drain.{drain_refines}
use adn_bridge.ElProxy.Room.{parse_acc-room}
use adn_bridge.ElProxy.Directory.{
  Use, use_dir_rx, incoming, pending, outgoing, all_incoming, directory_fifo,
}
use adn_bridge.ElProxy.Send.{Write, again, udp_send, wrote, push_bytes, broken, msg_header}
use adn_bridge.ElProxy.Receive.{
  drain, parse_acc, handle_msg, dir_rx_append, some_bytes, handle_kind, compact_dir_rx, deliver,
}
use adn_bridge.ElProxy.Frames.{Message, AllSendable, handle_all, wires, wire}
use adn_bridge.ElProxy.State.{ElProxy, tcp_disc, tcp_connected, acc_size}
use adn_bridge.Prelude.{
  ℕ, List, ◌∷◌, [], true, false, refl, ◌≡◌, ◌<◌, length, ◌++◌, replicate, arith, map, ◌⊎◌,
}

-- A ready connection with a directory connection up, nothing received yet.
abbrev up : ElProxy
up = record {
  is_open = true;
  ready = true;
  callsign = 65 ∷ [];
  password = 66 ∷ [];
  rx_acc = [];
  tcp_state = tcp_connected;
  dir_rx = 7 ∷ 8 ∷ [];
  dir_rx_r = 1;
  dir_rx_cap = 65536;
  tcp_status = 0;
  tcp_status_pending = false;
  next_reconnect = 0;
  reconnect_pending = false;
  written = [];
  delivered = [];
}

-- Directory data, a voice datagram and the end of the directory connection.
abbrev messages : List Message
messages =
    record { type = 2; remote = 0; body = 70 ∷ 71 ∷ [] }
    ∷ record { type = 5; remote = 0x0100007f; body = 80 ∷ [] }
    ∷ record { type = 3; remote = 0; body = [] }
    ∷ []

messages-AllSendable : AllSendable messages
messages-AllSendable = (
  record { one_byte = omega arith; address = omega arith; fits = omega arith },
  (
    record { one_byte = omega arith; address = omega arith; fits = omega arith },
    (record { one_byte = omega arith; address = omega arith; fits = omega arith }, tt),
  ),
)

-- Reads of four bytes at most, more than enough of them.
abbrev reads : List ℕ
reads = replicate 40 4

drain_refines_example :
    (drain true 100 (map some_bytes reads) (wires messages) up).0 ≡ handle_all true 100 messages up
unfolding msg_header
drain_refines_example =
    drain_refines true 100 reads messages up messages-AllSendable refl refl refl (omega arith)

-- The three messages arrive: two bytes more for the directory, one datagram, and the connection is
-- down.
handled_messages :
    let q = handle_all true 100 messages up in
    (q.dir_rx ≡ 8 ∷ 70 ∷ 71 ∷ [])
    × (q.delivered ≡ record { from = 0x0100007f; is_ctrl = false; payload = 80 ∷ [] } ∷ [])
    × (q.tcp_state ≡ tcp_disc)
unfolding handle_all handle_msg handle_kind dir_rx_append compact_dir_rx deliver
handled_messages = (refl, refl, refl)

abbrev socket : List Write
socket = again ∷ wrote 3 ∷ broken ∷ []

udp_send_lem_example :
    let m : Message = record { type = 5; remote = 9; body = 1 ∷ [] } in
    let o = udp_send 5 socket up 9 (1 ∷ []) 100 in
    (o.ok ≡ true) × (o.proxy ≡ push_bytes up (wire m)) ⊎ GivenUp up (wire m) 100 o
udp_send_lem_example = udp_send_lem 5 socket up 9 1 [] 100 refl refl

abbrev uses : List Use
uses = incoming (1 ∷ 2 ∷ []) ∷ outgoing 2 ∷ incoming (3 ∷ []) ∷ []

uses-ready : (use_dir_rx 100 uses up).1.ready ≡ true
unfolding use_dir_rx dir_rx_append compact_dir_rx take_dir_rx
uses-ready = refl

directory_fifo_example :
    (use_dir_rx 100 uses up).0 ++ pending (use_dir_rx 100 uses up).1
    ≡ pending up ++ all_incoming uses
directory_fifo_example = directory_fifo 100 uses up (omega arith) uses-ready

abbrev half_read : ElProxy
half_read = record up { rx_acc = wires messages ++ 2 ∷ 0 ∷ [] }

parse_acc-room_example : length (parse_acc true 100 half_read).rx_acc < acc_size
unfolding msg_header
parse_acc-room_example = parse_acc-room true 100 half_read refl (omega arith)
