-- ===== src/ElProxy/Frames.antt =====
-- The messages on the stream: what one looks like, and how it is handled, whatever follows it.
use adn_bridge.ElProxy.State.{ElProxy, mark_disconnected, acc_size, msg_hdr}
use adn_bridge.ElProxy.Receive.{
  Kind, msg_tcp_open, msg_tcp_data, msg_tcp_close, msg_tcp_status, msg_udp_data, msg_udp_control,
  msg_system, msg_unknown, le32, compact_dir_rx, dir_rx_append, connect_answer, on_tcp_status,
  deliver, handle_kind, handle_msg,
}
use adn_bridge.ElProxy.Send.{msg_header}
use adn_bridge.Prelude.{
  true, ℕ, List, ◌<◌, Bool, u32, ◌∷◌, ◌^◌, if◌then◌else◌, ◌≡◌, length, ◌++◌, bit_and, arith, [],
  ◌+◌, ◌>>>◌, refl, ◌≤◌, bit_and_mask, bit_or_under, ◌/◌, ◌%◌, ◌*◌,
}

pub record Message : Type 0 where
  pub type : ℕ
  pub remote : ℕ
  pub body : List ℕ

-- The bytes of a message, as send_msg_locked writes them.
abbrev pub wire : Message → List ℕ
wire m = msg_header m.type m.remote (u32 (length m.body)) ++ m.body

abbrev pub wires : List Message → List ℕ
wires [] = []
wires (m ∷ ms) = wire m ++ wires ms

-- A type of one byte, an address of 32 bits, and a body that the receive buffer has room for.
pub record IsSendable (m : Message) : Type 0 where
  pub one_byte : m.type < 256
  pub address : m.remote < 2 ^ 32
  pub fits : length m.body + msg_hdr ≤ acc_size

abbrev pub AllSendable : List Message → Type 0
AllSendable [] = Unit
AllSendable (m ∷ ms) = IsSendable m × AllSendable ms

-- What the stream means: the messages handled in their order, up to one that ends the connection.
unfoldable pub handle_all : Bool → ℕ → List Message → ElProxy → ElProxy
handle_all cb now [] px = px
handle_all cb now (m ∷ ms) px =
    let p1 = handle_msg cb now px m.type m.remote m.body in
    if p1.ready then handle_all cb now ms p1 else p1

pub le32_back :
    (n : ℕ)
    → n < 2 ^ 32
    → le32
        (bit_and n 0xff)
        (bit_and (n >>> 8) 0xff)
        (bit_and (n >>> 16) 0xff)
        (bit_and (n >>> 24) 0xff)
      ≡ n
unfolding le32
le32_back n h =
    let b0 = bit_and_mask 8 n in
    let b1 = bit_and_mask 8 (n >>> 8) in
    let b2 = bit_and_mask 8 (n >>> 16) in
    let b3 = bit_and_mask 8 (n >>> 24) in
    let s1 = bit_or_under 8 ((n / 2 ^ 8) % 2 ^ 8) (n % 2 ^ 8) (omega arith) in
    let s2 = bit_or_under 16 ((n / 2 ^ 16) % 2 ^ 8) (n % 2 ^ 16) (omega arith) in
    let s3 = bit_or_under 24 ((n / 2 ^ 24) % 2 ^ 8) (n % 2 ^ 24) (omega arith) in
    let t1 : (n / 2 ^ 8) % 2 ^ 8 * 2 ^ 8 + n % 2 ^ 8 ≡ n % 2 ^ 16 = omega arith in
    let t2 : (n / 2 ^ 16) % 2 ^ 8 * 2 ^ 16 + n % 2 ^ 16 ≡ n % 2 ^ 24 = omega arith in
    let t3 : (n / 2 ^ 24) % 2 ^ 8 * 2 ^ 24 + n % 2 ^ 24 ≡ n = omega arith in
    rw (b0, b1, b2, b3, s1, t1, s2, t2, s3) t3

abbrev pub with_acc : ElProxy → List ℕ → ElProxy
with_acc px a = record px { rx_acc = a }

-- Handled with more bytes behind it, a message leaves them there, unless it ends the connection.
abbrev pub kept_acc : List ℕ → ElProxy → ElProxy
kept_acc a q = if q.ready then with_acc q a else q

append-acc :
    (now : ℕ) (px : ElProxy) (a body : List ℕ)
    → px.ready ≡ true
    → dir_rx_append (with_acc px a) body now ≡ kept_acc a (dir_rx_append px body now)
unfolding dir_rx_append compact_dir_rx mark_disconnected
append-acc now px a [] h = rw h refl
append-acc now px a (x ∷ xs) h = ground arith

status-acc :
    (px : ElProxy) (a body : List ℕ)
    → px.ready ≡ true
    → on_tcp_status (with_acc px a) body ≡ kept_acc a (on_tcp_status px body)
unfolding on_tcp_status connect_answer
status-acc px a body h = ground arith

pub handle-acc :
    (cb : Bool) (now : ℕ) (px : ElProxy) (a : List ℕ) (k : Kind) (remote : ℕ) (body : List ℕ)
    → px.ready ≡ true
    → handle_kind cb now (with_acc px a) k remote body
      ≡ kept_acc a (handle_kind cb now px k remote body)
unfolding handle_kind deliver mark_disconnected
handle-acc cb now px a msg_tcp_open remote body h = rw h refl
handle-acc cb now px a msg_tcp_data remote body h = append-acc now px a body h
handle-acc cb now px a msg_tcp_close remote body h = rw h refl
handle-acc cb now px a msg_tcp_status remote body h = status-acc px a body h
handle-acc cb now px a msg_udp_data remote body h = ground arith
handle-acc cb now px a msg_udp_control remote body h = ground arith
handle-acc cb now px a msg_system remote body h = ground arith
handle-acc cb now px a msg_unknown remote body h = refl
