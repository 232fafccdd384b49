-- ===== src/ElProxy/Room.antt =====
-- The receive buffer always has room: the test of drain_locked for a full one never fires.
use adn_bridge.ElProxy.Frames.{with_acc}
use adn_bridge.ElProxy.State.{ElProxy, mark_disconnected, acc_size, msg_hdr}
use adn_bridge.ElProxy.Receive.{
  Kind, msg_tcp_open, msg_tcp_data, msg_tcp_close, msg_tcp_status, msg_udp_data, msg_udp_control,
  msg_system, msg_unknown, kind_of, compact_dir_rx, dir_rx_append, connect_answer, on_tcp_status,
  deliver, handle_kind, handle_msg, parse_loop, parse_acc,
}
use adn_bridge.ElProxy.Frames.{with_acc, handle-acc}
use adn_bridge.ElProxy.Stream.{
  remote_of, parse-short, parse-partial, parse-large, parse-whole, taken, len_of,
}
use adn_bridge.Prelude.{
  true, false, if◌then◌else◌, ◌∷◌, [], List, Bool, ℕ, length, ◌≤◌, ◌<◌, arith, suc, ltb, ◌≡◌, ◌-◌,
  Bool-cases, ◌+◌, inl, inr, drop, get_or, take, length-drop, ltb→lt, zero, ◌∙◌, ap, subst, sym,
}

dir_rx_append-rx_acc :
    (px : ElProxy) (bytes : List ℕ) (now : ℕ)
    → length (dir_rx_append px bytes now).rx_acc ≤ length px.rx_acc
unfolding dir_rx_append compact_dir_rx mark_disconnected
dir_rx_append-rx_acc px [] now = omega arith
dir_rx_append-rx_acc px (x ∷ xs) now = ground arith

handle_kind-rx_acc :
    (cb : Bool) (now : ℕ) (px : ElProxy) (k : Kind) (remote : ℕ) (body : List ℕ)
    → length (handle_kind cb now px k remote body).rx_acc ≤ length px.rx_acc
unfolding handle_kind on_tcp_status connect_answer deliver mark_disconnected
handle_kind-rx_acc cb now px msg_tcp_open remote body = omega arith
handle_kind-rx_acc cb now px msg_tcp_data remote body = dir_rx_append-rx_acc px body now
handle_kind-rx_acc cb now px msg_tcp_close remote body = omega arith
handle_kind-rx_acc cb now px msg_tcp_status remote body = ground arith
handle_kind-rx_acc cb now px msg_udp_data remote body = ground arith
handle_kind-rx_acc cb now px msg_udp_control remote body = ground arith
handle_kind-rx_acc cb now px msg_system remote body = ground arith
handle_kind-rx_acc cb now px msg_unknown remote body = omega arith

-- A message that ends the connection empties the buffer.
ended-rx_acc :
    (cb : Bool) (now : ℕ) (px : ElProxy) (k : Kind) (remote : ℕ) (body : List ℕ)
    → px.ready ≡ true
    → (handle_kind cb now px k remote body).ready ≡ false
    → length (handle_kind cb now px k remote body).rx_acc ≤ 0
ended-rx_acc cb now px k remote body up down =
    let q = handle_kind cb now px k remote body in
    let same : handle_kind cb now (with_acc px []) k remote body ≡ q =
      handle-acc cb now px [] k remote body up
      ∙ ap (λ (c : Bool). if c then with_acc q [] else q) down in
    subst (λ (r : ElProxy). length r.rx_acc ≤ 0) same
      (handle_kind-rx_acc cb now (with_acc px []) k remote body)

module _ (cb : Bool) (now fuel : ℕ) (px : ElProxy) (up : px.ready ≡ true)
    (enough : length px.rx_acc < suc fuel) (le : length px.rx_acc ≤ acc_size)
    (ih : (q : ElProxy)
      → q.ready ≡ true
      → length q.rx_acc < fuel
      → length q.rx_acc ≤ acc_size
      → length (parse_loop fuel cb now q).rx_acc < acc_size)
    (long : ltb (length px.rx_acc) msg_hdr ≡ false)
    (fits : ltb (acc_size - msg_hdr) (len_of px.rx_acc) ≡ false) where
  whole-room :
      ltb (length px.rx_acc) (msg_hdr + len_of px.rx_acc) ≡ false
      → length (parse_loop (suc fuel) cb now px).rx_acc < acc_size
  unfolding handle_msg
  whole-room whole =
      let p1 = taken cb now fuel px in
      let after = with_acc p1 (drop (msg_hdr + len_of px.rx_acc) p1.rx_acc) in
      let size : msg_hdr + len_of px.rx_acc ≤ length px.rx_acc = ground arith in
      let kept : length p1.rx_acc ≤ length px.rx_acc =
        handle_kind-rx_acc cb now px (kind_of (get_or px.rx_acc 0 0)) (remote_of px.rx_acc)
          (take (len_of px.rx_acc) (drop msg_hdr px.rx_acc)) in
      let cut : length after.rx_acc ≡ length p1.rx_acc - (msg_hdr + len_of px.rx_acc) =
        length-drop (msg_hdr + len_of px.rx_acc) p1.rx_acc in
      let step = parse-whole cb now fuel px long fits whole in
      elim (Bool-cases p1.ready) [
        | inl on ↦
            let there =
              step ∙ ap (λ (c : Bool). if c then parse_loop fuel cb now after else p1) on in
            subst (λ (q : ElProxy). length q.rx_acc < acc_size) (sym there)
              (ih after on (omega (arith, size, kept, cut)) (omega (arith, size, kept, cut)))
        | inr off ↦
            let there =
              step ∙ ap (λ (c : Bool). if c then parse_loop fuel cb now after else p1) off in
            subst (λ (q : ElProxy). length q.rx_acc < acc_size) (sym there)
              (omega (
                arith,
                ended-rx_acc cb now px (kind_of (get_or px.rx_acc 0 0)) (remote_of px.rx_acc)
                    (take (len_of px.rx_acc) (drop msg_hdr px.rx_acc)) up off,
              ))
      ]

  read-room : length (parse_loop (suc fuel) cb now px).rx_acc < acc_size
  read-room = elim (Bool-cases (ltb (length px.rx_acc) (msg_hdr + len_of px.rx_acc))) [
    | inl part ↦ rw (parse-partial cb now fuel px long fits part) (ground arith)
    | inr whole ↦ whole-room whole
  ]

parse_loop-room :
    (cb : Bool) (now fuel : ℕ) (px : ElProxy)
    → px.ready ≡ true
    → length px.rx_acc < fuel
    → length px.rx_acc ≤ acc_size
    → length (parse_loop fuel cb now px).rx_acc < acc_size
unfolding mark_disconnected
parse_loop-room cb now zero px up enough le = absurd (omega arith)
parse_loop-room cb now (suc fuel) px up enough le =
    elim (Bool-cases (ltb (length px.rx_acc) msg_hdr)) [
      | inl short ↦
          let few : length px.rx_acc < 9 = ltb→lt (length px.rx_acc) 9 short in
          rw (parse-short cb now fuel px short) (omega arith)
      | inr long ↦ elim (Bool-cases (ltb (acc_size - msg_hdr) (len_of px.rx_acc))) [
        | inl large ↦ rw (parse-large cb now fuel px long large) (omega arith)
        | inr fits ↦ read-room cb now fuel px up enough le (parse_loop-room cb now fuel) long fits
      ]
    ]

-- Behind parse_acc_locked the receive buffer has room for a byte at least, whatever the bytes in it
-- were, where the connection was up before: the test of drain_locked for a full buffer never fires.
pub parse_acc-room :
    (cb : Bool) (now : ℕ) (px : ElProxy)
    → px.ready ≡ true
    → length px.rx_acc ≤ acc_size
    → length (parse_acc cb now px).rx_acc < acc_size
unfolding parse_acc
parse_acc-room cb now px up le =
    parse_loop-room cb now (suc (length px.rx_acc)) px up (omega arith) le
