-- ===== src/ElProxy/Stream/Refines/Drain.antt =====
-- The reads of the socket, one after another.
use adn_bridge.ElProxy.State.{ElProxy, acc_size}
use adn_bridge.ElProxy.Receive.{parse_acc, Read, some_bytes, drain_loop, drain}
use adn_bridge.ElProxy.Frames.{Message, wire, wires, AllSendable, handle_all, with_acc}
use adn_bridge.ElProxy.Stream.{
  IsPartial, length-wire, ℕ, List, take, drop, length, arith, suc, ◌∷◌, ap, Bool, ltb, inl, inr,
}
use adn_bridge.ElProxy.Stream.Refines.{Result, parsed, parse_lands, sym, length-take, length-append}
use adn_bridge.Prelude.{
  true, if◌then◌else◌, ℕ, List, take, drop, min, ◌++◌, ◌≡◌, ◌+◌, length, arith, ◌∷◌, ap, [], refl,
  ◌∙◌, Bool, sym, ltb, ◌≤◌, ◌-◌, ◌<◌, length-take, map, length-append, length-drop, ap₂, ◌&&◌,
  take-append_drop, drop-drop, take-nil, take-min, drop-min,
}

-- One read of a socket, on a buffer that has room.
drain-step :
    (cb : Bool) (now k : ℕ) (rs : List Read) (input : List ℕ) (px : ElProxy)
    → ltb (length px.rx_acc) acc_size ≡ true
    → let n = min (suc k) (acc_size - length px.rx_acc) in
      let p1 = parse_acc cb now (with_acc px (px.rx_acc ++ take n input)) in
      drain_loop cb now (some_bytes k ∷ rs) input px
      ≡ (if p1.ready then drain_loop cb now rs (drop n input) p1 else (p1, drop n input))
unfolding drain_loop
drain-step cb now k rs input px h = ground arith

module _ (cb : Bool) (now : ℕ) (ms : List Message) (n : ℕ) (base : ElProxy) (all : AllSendable ms)
    (up : base.ready ≡ true) (le : n ≤ length (wires ms)) (room : n < acc_size) where
  -- The connection between two reads, `n` bytes into the messages.
  abbrev between : ElProxy
  between = with_acc base (take n (wires ms))

  module _ (k : ℕ) where
    -- how much the next read takes, and how far it comes
    abbrev amount : ℕ
    amount = min (suc k) (acc_size - length (take n (wires ms)))

    abbrev far : ℕ
    far = min (n + amount) (length (wires ms))

    acc_then : take n (wires ms) ++ take amount (drop n (wires ms)) ≡ take far (wires ms)
    acc_then = take-append_drop n amount (wires ms) ∙ sym (take-min (n + amount) (wires ms))

    input_then : drop amount (drop n (wires ms)) ≡ drop far (wires ms)
    input_then = drop-drop n amount (wires ms) ∙ sym (drop-min (n + amount) (wires ms))

    abbrev then_parsed : ElProxy
    then_parsed =
        parse_acc cb now (with_acc between (take n (wires ms) ++ take amount (drop n (wires ms))))

    parsed_is : then_parsed ≡ parsed cb now (suc far) ms far base
    unfolding parse_acc
    parsed_is =
        let size : length (take far (wires ms)) ≡ far = omega (arith, length-take far (wires ms)) in
        rw (acc_then, size) refl

    result : Result cb now (suc far) ms far base
    result = parse_lands cb now ms (suc far) far base all up (omega arith) (omega arith)

-- Nothing left in the socket, and no whole message in the buffer: nothing left at all.
nothing_left :
    (cb : Bool) (now : ℕ) (ms : List Message) (n : ℕ) (base : ElProxy)
    → IsPartial ms n
    → length (wires ms) ≤ n
    → with_acc base (take n (wires ms)) ≡ handle_all cb now ms (with_acc base [])
unfolding handle_all
nothing_left cb now [] n base p le = ap (with_acc base) (take-nil n)
nothing_left cb now (m ∷ ms) n base p le =
    absurd (omega (arith, length-append (wire m) (wires ms), p))

drain-end :
    (cb : Bool) (now : ℕ) (input : List ℕ) (px : ElProxy)
    → drain_loop cb now [] input px ≡ (px, input)
unfolding drain_loop
drain-end cb now input px = refl

-- What drain_locked does behind a parse.
abbrev cont : Bool → ℕ → List Read → List ℕ → ElProxy → ElProxy × List ℕ
cont cb now rs inp q = if q.ready then drain_loop cb now rs inp q else (q, inp)

drain_wires :
    (cb : Bool) (now : ℕ) (ks : List ℕ) (ms : List Message) (n : ℕ) (base : ElProxy)
    → AllSendable ms
    → base.ready ≡ true
    → n ≤ length (wires ms)
    → n < acc_size
    → IsPartial ms n
    → length (drop n (wires ms)) ≤ length ks
    → (drain_loop cb now
        (map some_bytes ks)
        (drop n (wires ms))
        (with_acc base (take n (wires ms)))).0
      ≡ handle_all cb now ms (with_acc base [])
drain_wires cb now [] ms n base all up le room p enough =
    ap (λ (r : ElProxy × List ℕ). r.0)
      (drain-end cb now (drop n (wires ms)) (with_acc base (take n (wires ms))))
    ∙ nothing_left cb now ms n base p (omega (arith, length-drop n (wires ms)))
drain_wires cb now (k ∷ ks) ms n base all up le room p enough =
    let bounded : ltb (length (take n (wires ms))) acc_size ≡ true =
      ground (arith, length-take n (wires ms)) in
    let rs = map some_bytes ks in
    let at_px = between cb now ms n base all up le room in
    let step = drain-step cb now k rs (drop n (wires ms)) at_px bounded in
    let same = parsed_is cb now ms n base all up le room k in
    let left = input_then cb now ms n base all up le room k in
    let far_k = far cb now ms n base all up le room k in
    let amount_k = amount cb now ms n base all up le room k in
    let e = parsed cb now (suc far_k) ms far_k base in
    let inp = drop amount_k (drop n (wires ms)) in
    ap (λ (r : ElProxy × List ℕ). r.0) step
    ∙ ap (λ (q : ElProxy). (cont cb now rs inp q).0) same
    ∙ elim (result cb now ms n base all up le room k) [
      | inl g ↦
          let there = with_acc g.base (take g.count (wires g.rest)) in
          let less : length (drop g.count (wires g.rest)) ≤ length ks = rw (← g.input) (
            omega (
              arith,
              length-drop far_k (wires ms),
              length-drop n (wires ms),
              length-take n (wires ms),
            )) in
          ap (λ (q : ElProxy). (cont cb now rs inp q).0) g.here
          ∙ ap (λ (c : Bool). (if c then drain_loop cb now rs inp there else (there, inp)).0) g.up
          ∙ ap (λ (i : List ℕ). (drain_loop cb now rs i there).0) (left ∙ g.input)
          ∙ drain_wires cb now ks g.rest g.count g.base g.sendable g.up g.within g.room g.part less
          ∙ sym g.outcome
      | inr over ↦
          ap (λ (c : Bool). (if c then drain_loop cb now rs inp e else (e, inp)).0) over.0
          ∙ sym over.1
    ]

-- Whatever the proxy sends in messages that fit, and into whatever reads the socket cuts it, the
-- connection ends up as if the messages had been handled one by one, up to the first that ends it,
-- where it is up with nothing in its buffer and the reads are not fewer than the bytes.
pub drain_refines :
    (cb : Bool) (now : ℕ) (ks : List ℕ) (ms : List Message) (px : ElProxy)
    → AllSendable ms
    → px.is_open ≡ true
    → px.ready ≡ true
    → px.rx_acc ≡ []
    → length (wires ms) ≤ length ks
    → (drain cb now (map some_bytes ks) (wires ms) px).0 ≡ handle_all cb now ms px
unfolding drain
drain_refines cb now ks ms px all opened up empty enough =
    let start : px ≡ with_acc px [] = ap (with_acc px) empty in
    let at_once : drain cb now (map some_bytes ks) (wires ms) px
        ≡ drain_loop cb now (map some_bytes ks) (wires ms) px =
      ap₂
        (λ (a b : Bool).
          if a && b then drain_loop cb now (map some_bytes ks) (wires ms) px else (px, wires ms))
        opened up in
    ap (λ (r : ElProxy × List ℕ). r.0) at_once
    ∙ ap (λ (q : ElProxy). (drain_loop cb now (map some_bytes ks) (wires ms) q).0) start
    ∙ drain_wires cb now ks ms 0 px all up (omega arith) (omega arith) (at_start ms) enough
    ∙ ap (handle_all cb now ms) (sym start)
  where
    at_start : (ms : List Message) → IsPartial ms 0
    at_start [] = tt
    at_start (m ∷ ms) = omega (arith, length-wire m)
