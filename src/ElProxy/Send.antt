-- ===== src/ElProxy/Send.antt =====
-- el_proxy.c: writing messages to the proxy.
use adn_bridge.ElProxy.State.{ElProxy, mark_disconnected}
use adn_bridge.Prelude.{
  true, false, ℕ, Bool, List, ◌++◌, ◌∷◌, u8, if◌then◌else◌, suc, bit_and, ◌&&◌, [], take, ◌>>>◌,
  u32, drop, length, zero, not,
}

-- What `write` does, or `poll` behind it: so many bytes, EINTR or a socket that is writable again,
-- and an error or a socket that stays full. Behind the end of a list of these it writes all.
pub data Write : Type 0 where
  wrote : ℕ → Write
  again : Write
  broken : Write

-- What comes of a call: whether it succeeded, the connection, and the answers not yet used.
pub record Outcome : Type 0 where
  pub ok : Bool
  pub proxy : ElProxy
  pub answers : List Write

abbrev pub push_bytes : ElProxy → List ℕ → ElProxy
push_bytes px bytes = record px { written = px.written ++ bytes }

-- send_raw_locked
unfoldable pub send_raw : List Write → ElProxy → List ℕ → Outcome
send_raw ws px [] = record { ok = true; proxy = px; answers = ws }
send_raw [] px (x ∷ xs) = record { ok = true; proxy = push_bytes px (x ∷ xs); answers = [] }
send_raw (again ∷ ws) px (x ∷ xs) = send_raw ws px (x ∷ xs)
send_raw (broken ∷ ws) px (x ∷ xs) = record { ok = false; proxy = px; answers = ws }
send_raw (wrote zero ∷ ws) px (x ∷ xs) = record { ok = false; proxy = px; answers = ws }
send_raw (wrote (suc n) ∷ ws) px (x ∷ xs) =
    send_raw ws (push_bytes px (take (suc n) (x ∷ xs))) (drop (suc n) (x ∷ xs))

-- `hdr` of send_msg_locked
unfoldable pub msg_header : ℕ → ℕ → ℕ → List ℕ
msg_header type ip ulen =
    u8 type
    ∷ bit_and ip 0xff
    ∷ bit_and (ip >>> 8) 0xff
    ∷ bit_and (ip >>> 16) 0xff
    ∷ bit_and (ip >>> 24) 0xff
    ∷ bit_and ulen 0xff
    ∷ bit_and (ulen >>> 8) 0xff
    ∷ bit_and (ulen >>> 16) 0xff
    ∷ bit_and (ulen >>> 24) 0xff
    ∷ []

-- send_msg_locked
unfoldable pub send_msg : List Write → ElProxy → ℕ → ℕ → List ℕ → Outcome
send_msg ws px type remote body =
    let head = send_raw ws px (msg_header type remote (u32 (length body))) in
    if not (px.is_open && px.ready)
    then record { ok = false; proxy = px; answers = ws }
    else if head.ok
    then send_raw head.answers head.proxy body
    else head

-- A failed send gives the connection up.
unfoldable pub or_disconnect : Outcome → ℕ → Outcome
or_disconnect o now = if o.ok then o else record o { proxy = mark_disconnected o.proxy now }

-- el_proxy_udp_data and el_proxy_udp_ctrl, with message types 5 and 6
unfoldable pub udp_send : ℕ → List Write → ElProxy → ℕ → List ℕ → ℕ → Outcome
udp_send type ws px to [] now = record { ok = false; proxy = px; answers = ws }
udp_send type ws px to (x ∷ xs) now = or_disconnect (send_msg ws px type to (x ∷ xs)) now

unfoldable pub el_proxy_udp_data : List Write → ElProxy → ℕ → List ℕ → ℕ → Outcome
el_proxy_udp_data ws px to body now = udp_send 5 ws px to body now

unfoldable pub el_proxy_udp_ctrl : List Write → ElProxy → ℕ → List ℕ → ℕ → Outcome
el_proxy_udp_ctrl ws px to body now = udp_send 6 ws px to body now
