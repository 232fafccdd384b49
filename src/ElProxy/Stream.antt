-- ===== src/ElProxy/Stream.antt =====
-- The stream of messages, cut into reads in any way: the parser handles the messages, each once and
-- in order.
pub mod Refines
use adn_bridge.ElProxy.State.{ElProxy, mark_disconnected, acc_size, msg_hdr}
use adn_bridge.ElProxy.Receive.{le32, handle_msg, parse_loop, kind_of}
use adn_bridge.ElProxy.Send.{msg_header}
use adn_bridge.ElProxy.Frames.{
  Message, wire, wires, IsSendable, AllSendable, handle_all, le32_back, with_acc, kept_acc,
  handle-acc,
}
use adn_bridge.Prelude.{
  true, false, List, Bool, ℕ, length, get_or, ltb, ◌≡◌, take, drop, suc, ◌-◌, ◌≤◌, [], u32, arith,
  ◌+◌, refl, if◌then◌else◌, ◌<◌, ◌++◌, ◌∷◌, ◌⊎◌, ap, inl, zero, ◌∙◌, inr, Bool-cases,
}

abbrev pub remote_of : List ℕ → ℕ
remote_of acc = le32 (get_or acc 1 0) (get_or acc 2 0) (get_or acc 3 0) (get_or acc 4 0)

abbrev pub len_of : List ℕ → ℕ
len_of acc = le32 (get_or acc 5 0) (get_or acc 6 0) (get_or acc 7 0) (get_or acc 8 0)

module _ (cb : Bool) (now fuel : ℕ) (px : ElProxy) where
  pub parse-short : ltb (length px.rx_acc) msg_hdr ≡ true → parse_loop (suc fuel) cb now px ≡ px
  unfolding parse_loop
  parse-short h = ground arith

  pub parse-partial :
      ltb (length px.rx_acc) msg_hdr ≡ false
      → ltb (acc_size - msg_hdr) (len_of px.rx_acc) ≡ false
      → ltb (length px.rx_acc) (msg_hdr + len_of px.rx_acc) ≡ true
      → parse_loop (suc fuel) cb now px ≡ px
  unfolding parse_loop
  parse-partial h k l = ground arith

  pub parse-large :
      ltb (length px.rx_acc) msg_hdr ≡ false
      → ltb (acc_size - msg_hdr) (len_of px.rx_acc) ≡ true
      → parse_loop (suc fuel) cb now px ≡ mark_disconnected px now
  unfolding parse_loop
  parse-large h k = ground arith

  -- One message taken out, handled as `p1`.
  abbrev pub taken : ElProxy
  taken =
      handle_msg cb now px (get_or px.rx_acc 0 0) (remote_of px.rx_acc)
        (take (len_of px.rx_acc) (drop msg_hdr px.rx_acc))

  pub parse-whole :
      ltb (length px.rx_acc) msg_hdr ≡ false
      → ltb (acc_size - msg_hdr) (len_of px.rx_acc) ≡ false
      → ltb (length px.rx_acc) (msg_hdr + len_of px.rx_acc) ≡ false
      → parse_loop (suc fuel) cb now px ≡ (
          if taken.ready
          then parse_loop fuel cb now
              (with_acc taken (drop (msg_hdr + len_of px.rx_acc) taken.rx_acc))
          else taken)
  unfolding parse_loop
  parse-whole h k l = ground arith

-- The first of the messages is not whole in the first `n` bytes.
abbrev pub IsPartial : List Message → ℕ → Type 0
IsPartial [] n = Unit
IsPartial (m ∷ ms) n = n < length (wire m)

-- Where a parse stops that does not end the connection: `count` bytes into what is left of the
-- messages.
pub record Going (cb : Bool) (now : ℕ) (ms : List Message) (n : ℕ) (px q : ElProxy) : Type 0 where
  pub rest : List Message
  pub count : ℕ
  pub base : ElProxy
  pub here : q ≡ with_acc base (take count (wires rest))
  pub up : base.ready ≡ true
  pub sendable : AllSendable rest
  pub within : count ≤ length (wires rest)
  pub room : count < acc_size
  pub part : IsPartial rest count
  pub input : drop n (wires ms) ≡ drop count (wires rest)
  pub outcome : handle_all cb now ms (with_acc px []) ≡ handle_all cb now rest (with_acc base [])

abbrev pub Ended : Bool → ℕ → List Message → ElProxy → ElProxy → Type 0
Ended cb now ms px q = (q.ready ≡ false) × (handle_all cb now ms (with_acc px []) ≡ q)

-- The header of a message that has come in whole.
module _ (m : Message) (s : IsSendable m) (j : ℕ) (tail : List ℕ) where
  abbrev pub came : List ℕ
  came =
      take (suc (suc (suc (suc (suc (suc (suc (suc (suc j)))))))))
        (msg_header m.type m.remote (u32 (length m.body)) ++ tail)

  len-came : len_of came ≡ length m.body
  unfolding msg_header
  len-came =
      let fits = s.fits in
      let small : u32 (length m.body) ≡ length m.body = omega arith in
      rw small (le32_back (length m.body) (omega arith))

  remote-came : remote_of came ≡ m.remote
  unfolding msg_header
  remote-came = le32_back m.remote s.address

  type-came : get_or came 0 0 ≡ m.type
  unfolding msg_header
  type-came = let small = s.one_byte in omega arith

  body-came : drop msg_hdr came ≡ take j tail
  unfolding msg_header
  body-came = refl

  drop-came : (n : ℕ) → drop (9 + n) came ≡ drop n (take j tail)
  unfolding msg_header
  drop-came n =
      let nine : 9 + n ≡ suc (suc (suc (suc (suc (suc (suc (suc (suc n)))))))) = omega arith in
      rw nine refl

  length-came : length came ≡ 9 + length (take j tail)
  unfolding msg_header
  length-came = omega arith

pub length-wire : (m : Message) → length (wire m) ≡ 9 + length m.body
unfolding msg_header
length-wire m = omega arith

take-take-append :
    (xs ys : List ℕ) (j : ℕ) → length xs ≤ j → take (length xs) (take j (xs ++ ys)) ≡ xs
take-take-append [] ys j h = refl
take-take-append (x ∷ xs) ys zero h = absurd (omega arith)
take-take-append (x ∷ xs) ys (suc j) h = ap (◌∷◌ x) (take-take-append xs ys j (omega arith))

drop-take-append :
    (xs ys : List ℕ) (j : ℕ)
    → length xs ≤ j
    → drop (length xs) (take j (xs ++ ys)) ≡ take (j - length xs) ys
drop-take-append [] ys j h = let same : j - 0 ≡ j = omega arith in rw same refl
drop-take-append (x ∷ xs) ys zero h = absurd (omega arith)
drop-take-append (x ∷ xs) ys (suc j) h =
    let same : suc j - suc (length xs) ≡ j - length xs = omega arith in
    rw same (drop-take-append xs ys j (omega arith))

pub drop-append_past :
    (xs ys : List ℕ) (j : ℕ) → length xs ≤ j → drop j (xs ++ ys) ≡ drop (j - length xs) ys
drop-append_past [] ys j h = let same : j - 0 ≡ j = omega arith in rw same refl
drop-append_past (x ∷ xs) ys zero h = absurd (omega arith)
drop-append_past (x ∷ xs) ys (suc j) h =
    let same : suc j - suc (length xs) ≡ j - length xs = omega arith in
    rw same (drop-append_past xs ys j (omega arith))

-- A stop within the first message.
pub cut_here :
    (cb : Bool) (now : ℕ) (ms : List Message) (n : ℕ) (px : ElProxy)
    → px.ready ≡ true
    → AllSendable ms
    → n ≤ length (wires ms)
    → n < acc_size
    → IsPartial ms n
    → Going cb now ms n px (with_acc px (take n (wires ms)))
cut_here cb now ms n px up s le lt p = record {
  rest = ms;
  count = n;
  base = px;
  here = refl;
  up = up;
  sendable = s;
  within = le;
  room = lt;
  part = p;
  input = refl;
  outcome = refl;
}

pub cut_on :
    (cb : Bool) (now : ℕ) (ms ms' : List Message) (n n' : ℕ) (px px' q : ElProxy)
    → drop n (wires ms) ≡ drop n' (wires ms')
    → handle_all cb now ms (with_acc px []) ≡ handle_all cb now ms' (with_acc px' [])
    → Going cb now ms' n' px' q ⊎ Ended cb now ms' px' q
    → Going cb now ms n px q ⊎ Ended cb now ms px q
cut_on cb now ms ms' n n' px px' q same end (inl g) = inl (record {
  rest = g.rest;
  count = g.count;
  base = g.base;
  here = g.here;
  up = g.up;
  sendable = g.sendable;
  within = g.within;
  room = g.room;
  part = g.part;
  input = same ∙ g.input;
  outcome = end ∙ g.outcome;
})
cut_on cb now ms ms' n n' px px' q same end (inr e) = inr (e.0, end ∙ e.1)

-- The first message at the head of the buffer, with the parse behind it as `p1`.
module _ (cb : Bool) (now fuel : ℕ) (px : ElProxy) (m : Message) (s : IsSendable m)
    (up : px.ready ≡ true) (j : ℕ) (tail : List ℕ) where
  abbrev pub full : ElProxy
  full = with_acc px (came m s j tail)

  -- the first message handled on an empty buffer
  abbrev pub alone : ElProxy
  alone = handle_msg cb now (with_acc px []) m.type m.remote m.body

  pub partial_stops :
      j < length m.body → length (take j tail) ≡ j → parse_loop (suc fuel) cb now full ≡ full
  partial_stops lt len =
      let l = length-came m s j tail in
      let k = len-came m s j tail in
      let fits = s.fits in
      parse-partial cb now fuel full (ground (arith, l)) (rw k (ground arith))
        (rw k (ground (arith, l, len)))

  -- What `drop_all` leaves of the buffer, behind the message.
  taken_is :
      (rest : List ℕ)
      → tail ≡ m.body ++ rest
      → length m.body ≤ j
      → taken cb now fuel full ≡ kept_acc (came m s j tail) alone
  unfolding handle_msg
  taken_is rest e le =
      let body : take (length m.body) (take j tail) ≡ m.body =
        rw e (take-take-append m.body rest j le) in
      rw
        (
          type-came m s j tail,
          remote-came m s j tail,
          len-came m s j tail,
          body-came m s j tail,
          body,
        )
        (handle-acc cb now (with_acc px []) (came m s j tail) (kind_of m.type) m.remote m.body up)

  -- The rest of the loop behind a message, with `n` bytes to drop.
  abbrev next : ℕ → ElProxy → ElProxy
  next n p1 = if p1.ready then parse_loop fuel cb now (with_acc p1 (drop n p1.rx_acc)) else p1

  pub whole_taken :
      (rest : List ℕ)
      → tail ≡ m.body ++ rest
      → length m.body ≤ j
      → length (take j tail) ≡ j
      → parse_loop (suc fuel) cb now full ≡ (
          if alone.ready
          then parse_loop fuel cb now (with_acc alone (take (j - length m.body) rest))
          else alone)
  whole_taken rest e le len =
      let l = length-came m s j tail in
      let k = len-came m s j tail in
      let fits = s.fits in
      let left : drop (9 + length m.body) (came m s j tail) ≡ take (j - length m.body) rest =
        drop-came m s j tail (length m.body) ∙ rw e (drop-take-append m.body rest j le) in
      let last : next (9 + length m.body) (kept_acc (came m s j tail) alone) ≡ (
          if alone.ready
          then parse_loop fuel cb now (with_acc alone (take (j - length m.body) rest))
          else alone) =
        elim (Bool-cases alone.ready) [ inl on ↦ rw (on, left) refl | inr off ↦ rw off refl ] in
      parse-whole cb now fuel full (ground (arith, l)) (rw k (ground arith))
        (rw k (ground (arith, l, len)))
      ∙ ap (λ (n : ℕ). next (9 + n) (taken cb now fuel full)) k
      ∙ ap (next (9 + length m.body)) (taken_is rest e le)
      ∙ last
