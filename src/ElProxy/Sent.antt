-- ===== src/ElProxy/Sent.antt =====
-- What a send leaves on the wire, whatever the socket does.
use adn_bridge.ElProxy.State.{ElProxy, mark_disconnected, reconnect_sec}
use adn_bridge.ElProxy.Send.{
  Write, wrote, again, broken, Outcome, push_bytes, send_raw, msg_header, send_msg, or_disconnect,
  udp_send,
}
use adn_bridge.ElProxy.Frames.{Message, wire}
use adn_bridge.Prelude.{
  true, false, List, ◌≡◌, ℕ, ◌++◌, ◌⊎◌, [], take, inl, ◌∷◌, ap, ◌∙◌, drop, sym, inr, suc, refl,
  zero, u32, if◌then◌else◌, subst, ◌+◌, length, Bool, append-nil, append_assoc, take-drop,
}

-- `xs` are the first bytes of `ys`.
abbrev pub IsPrefix : List ℕ → List ℕ → Type 0
IsPrefix xs ys = (zs : List ℕ) × (xs ++ zs ≡ ys)

-- All of the bytes went out, and nothing else changed; or only the first of them, and the send
-- failed.
abbrev pub Sent : ElProxy → List ℕ → Outcome → Type 0
Sent px bytes o =
    (o.ok ≡ true) × (o.proxy ≡ push_bytes px bytes)
    ⊎ (xs : List ℕ) × (o.ok ≡ false) × (o.proxy ≡ push_bytes px xs) × IsPrefix xs bytes

push-nil : (px : ElProxy) → px ≡ push_bytes px []
push-nil px = ap (λ (w : List ℕ). record px { written = w }) (sym (append-nil px.written))

push-push :
    (px : ElProxy) (xs ys : List ℕ) → push_bytes (push_bytes px xs) ys ≡ push_bytes px (xs ++ ys)
push-push px xs ys = ap (λ (w : List ℕ). record px { written = w }) (append_assoc px.written xs ys)

-- A run of bytes behind another.
behind_head :
    (px : ElProxy) (xs ys bytes : List ℕ) (o : Outcome)
    → xs ++ ys ≡ bytes
    → Sent (push_bytes px xs) ys o
    → Sent px bytes o
behind_head px xs ys bytes o e (inl h) = inl (h.0, h.1 ∙ push-push px xs ys ∙ ap (push_bytes px) e)
behind_head px xs ys bytes o e (inr (zs, bad, state, (tail, split))) = inr (
  xs ++ zs,
  bad,
  state ∙ push-push px xs zs,
  (tail, append_assoc xs zs tail ∙ ap (λ (t : List ℕ). xs ++ t) split ∙ e),
)

pub send_raw-Sent :
    (ws : List Write) (px : ElProxy) (bytes : List ℕ) → Sent px bytes (send_raw ws px bytes)
unfolding send_raw
send_raw-Sent ws px [] = inl (refl, push-nil px)
send_raw-Sent [] px (x ∷ xs) = inl (refl, refl)
send_raw-Sent (again ∷ ws) px (x ∷ xs) = send_raw-Sent ws px (x ∷ xs)
send_raw-Sent (broken ∷ ws) px (x ∷ xs) = inr ([], refl, push-nil px, (x ∷ xs, refl))
send_raw-Sent (wrote zero ∷ ws) px (x ∷ xs) = inr ([], refl, push-nil px, (x ∷ xs, refl))
send_raw-Sent (wrote (suc n) ∷ ws) px (x ∷ xs) =
    let first = take (suc n) (x ∷ xs) in
    let last = drop (suc n) (x ∷ xs) in
    behind_head px first last (x ∷ xs) (send_raw ws (push_bytes px first) last)
      (take-drop (suc n) (x ∷ xs)) (send_raw-Sent ws (push_bytes px first) last)

module _ (ws : List Write) (px : ElProxy) (m : Message) (opened : px.is_open ≡ true)
    (up : px.ready ≡ true) where
  abbrev header : List ℕ
  header = msg_header m.type m.remote (u32 (length m.body))

  abbrev head : Outcome
  head = send_raw ws px header

  send_msg_open :
      send_msg ws px m.type m.remote m.body
      ≡ (if head.ok then send_raw head.answers head.proxy m.body else head)
  unfolding send_msg
  send_msg_open = rw (opened, up) refl

  with_body :
      Sent px header head
      → Sent px (wire m) (if head.ok then send_raw head.answers head.proxy m.body else head)
  with_body (inl h) =
      let last = send_raw head.answers head.proxy m.body in
      let there : (if head.ok then last else head) ≡ last =
        ap (λ (c : Bool). if c then last else head) h.0 in
      subst (λ (o : Outcome). Sent px (wire m) o) (sym there)
        (behind_head px header m.body (wire m) last refl (
          subst (λ (p : ElProxy). Sent p m.body last) h.1
            (send_raw-Sent head.answers head.proxy m.body)))
  with_body (inr (xs, bad, state, (tail, split))) =
      let last = send_raw head.answers head.proxy m.body in
      let there : (if head.ok then last else head) ≡ head =
        ap (λ (c : Bool). if c then last else head) bad in
      subst (λ (o : Outcome). Sent px (wire m) o) (sym there)
        (inr (
          xs,
          bad,
          state,
          (
            tail ++ m.body,
            sym (append_assoc xs tail m.body) ∙ ap (λ (t : List ℕ). t ++ m.body) split,
          ),
        ))

  -- The header, and then the body where the header went out.
  pub send_msg-Sent : Sent px (wire m) (send_msg ws px m.type m.remote m.body)
  send_msg-Sent =
      subst (λ (o : Outcome). Sent px (wire m) o) (sym send_msg_open)
        (with_body (send_raw-Sent ws px header))

-- A connection that was given up, after the first of the bytes.
abbrev pub GivenUp : ElProxy → List ℕ → ℕ → Outcome → Type 0
GivenUp px bytes now o =
    (o.ok ≡ false)
    × (o.proxy.ready ≡ false)
    × (o.proxy.reconnect_pending ≡ true)
    × (o.proxy.next_reconnect ≡ now + reconnect_sec)
    × (xs : List ℕ) × (o.proxy.written ≡ px.written ++ xs)
    × IsPrefix xs bytes

given_up :
    (px : ElProxy) (bytes : List ℕ) (now : ℕ) (o : Outcome)
    → Sent px bytes o
    → (or_disconnect o now).ok ≡ true × ((or_disconnect o now).proxy ≡ push_bytes px bytes)
      ⊎ GivenUp px bytes now (or_disconnect o now)
unfolding or_disconnect mark_disconnected
given_up px bytes now o (inl h) = inl (rw h.0 (refl, h.1))
given_up px bytes now o (inr (xs, bad, state, split)) =
    inr (rw bad (refl, refl, refl, refl, xs, ap (λ (p : ElProxy). p.written) state, split))

-- A datagram of at least one byte that a ready connection sends goes out as its message, whole and
-- alone, and the connection is as before; or only the first bytes of the message go out, the call
-- fails, and the connection is given up, to be tried again ten seconds later. So it is whatever the
-- socket answers, whether it is data or control.
pub udp_send_lem :
    (type : ℕ) (ws : List Write) (px : ElProxy) (to x : ℕ) (xs : List ℕ) (now : ℕ)
    → px.is_open ≡ true
    → px.ready ≡ true
    → let m : Message = record { type = type; remote = to; body = x ∷ xs } in
      let o = udp_send type ws px to (x ∷ xs) now in
      (o.ok ≡ true) × (o.proxy ≡ push_bytes px (wire m)) ⊎ GivenUp px (wire m) now o
unfolding udp_send
udp_send_lem type ws px to x xs now opened up =
    let m : Message = record { type = type; remote = to; body = x ∷ xs } in
    given_up px (wire m) now (send_msg ws px type to (x ∷ xs)) (send_msg-Sent ws px m opened up)
