-- ===== src/PeerDmr/Complete.antt =====
-- A login against a master that answers: the packets sent, in order, and the state reached.
use adn_bridge.PeerDmr.Login.{rptc_body}
use adn_bridge.PeerDmr.Wire.{codes, id_bytes, has_tag, is_empty}
use adn_bridge.PeerDmr.Session.{Event, run, tick, step, receive}
use adn_bridge.PeerDmr.State.{PeerDmr, disconnected, connecting, connected}
use adn_bridge.Prelude.{
  List, ℕ, ◌≤◌, length, take, ◌++◌, ◌∷◌, ◌≡◌, drop, take-drop-append, [], arith, true, refl, false,
}
use adn_bridge.PeerDmr.Handshake.{
  receive_first, rptack, tick_login, receive_second, heard, receive_third, receive_options,
  receive_last,
}

-- The seed in the first answer is hashed with the password, when the answer is long enough.
seed : (xs rest : List ℕ) → 10 ≤ length xs → take 4 (drop 6 (xs ++ rest)) ≡ take 4 (drop 6 xs)
seed xs rest h = take-drop-append 4 6 xs rest (omega arith)

-- The peer after the login request.
abbrev requested : PeerDmr → ℕ → PeerDmr
requested p t =
    let packet = codes "RPTL" ++ id_bytes p.dmrid in
    record p {
      connect_status = connecting;
      status = connecting;
      login_phase = 0;
      pong_time = t;
      buf = packet ++ drop 8 p.buf;
      sent = packet ∷ p.sent;
    }

-- The peer with `packet` sent and the login one phase further, after an answer.
abbrev advanced : PeerDmr → List ℕ → ℕ → List ℕ → PeerDmr
advanced p answer phase packet = record p {
  status = connecting;
  login_phase = phase;
  buf = heard p answer;
  sent = packet ∷ p.sent;
}

-- The tick and the first two answers of a login.
abbrev pub login_events : List ℕ → List ℕ → ℕ → ℕ → ℕ → List Event
login_events a b t ta tb = tick t ∷ receive a ta ∷ receive b tb ∷ []

module _ (sha256 : List ℕ → List ℕ) where
  -- RPTK with the digest of the seed in `answer` and the password
  abbrev pub rptk : PeerDmr → List ℕ → List ℕ
  rptk p answer =
      codes "RPTK" ++ id_bytes p.dmrid ++ take 32 (sha256 (take 4 (drop 6 answer) ++ p.password))

  module _ (p : PeerDmr) (a b : List ℕ) (t ta tb : ℕ) (down : p.connect_status ≡ disconnected)
      (over : p.login_fail_until ≤ t) (ha : has_tag a rptack ≡ true)
      (hb : has_tag b rptack ≡ true) where
    abbrev half_way : PeerDmr
    half_way =
        let p1 = requested p t in
        let p2 = advanced p1 a 1 (rptk p (heard p1 a)) in
        advanced p2 b 2 (codes "RPTC" ++ id_bytes p.dmrid ++ rptc_body p)

    -- The tick and the first two answers, which are the same with and without options.
    login_half_way : run sha256 p (login_events a b t ta tb) ≡ half_way
    unfolding run step
    login_half_way =
        rw
          (
            tick_login p t down over,
            receive_first sha256 (requested p t) a ta ha refl refl,
            receive_second sha256 (advanced (requested p t) a 1 (rptk p (heard (requested p t) a)))
                b tb hb refl refl,
          )
          (unfold rptc_body in refl)

  run-append :
      (p : PeerDmr) (es fs : List Event) → run sha256 p (es ++ fs) ≡ run sha256 (run sha256 p es) fs
  unfolding run
  run-append p [] fs = refl
  run-append p (e ∷ es) fs = run-append (step sha256 p e) es fs

  -- Without options, a peer that is down and past its penalty is logged in by one tick and three
  -- RPTACK answers, each at any time, the first with the seed in bytes 6 to 9. It has sent RPTL,
  -- RPTK with the digest of seed and password, and RPTC, in this order, and nothing else.
  pub login_completes :
      (p : PeerDmr) (a b c : List ℕ) (t ta tb tc : ℕ)
      → p.connect_status ≡ disconnected
      → p.login_fail_until ≤ t
      → has_tag a rptack ≡ true
      → has_tag b rptack ≡ true
      → has_tag c rptack ≡ true
      → 10 ≤ length a
      → is_empty p.options ≡ true
      → let q = run sha256 p (login_events a b t ta tb ++ (receive c tc ∷ [])) in
        (q.status ≡ connected)
        × (q.connect_status ≡ connected)
        × (q.sent
            ≡ (codes "RPTC" ++ id_bytes p.dmrid ++ rptc_body p)
              ∷ rptk p a
              ∷ (codes "RPTL" ++ id_bytes p.dmrid)
              ∷ p.sent)
  unfolding run step
  login_completes p a b c t ta tb tc down over ha hb hc long bare =
      rw
        (
          run-append p (login_events a b t ta tb) (receive c tc ∷ []),
          login_half_way p a b t ta tb down over ha hb,
          receive_third sha256 (half_way p a b t ta tb down over ha hb) c tc hc refl refl bare,
        )
        (refl, refl, rw (seed a (drop (length a) (requested p t).buf) long))

  -- With options, the same login takes a fourth RPTACK, at any time, and RPTO carries the options
  -- after RPTC.
  pub login_completes_options :
      (p : PeerDmr) (a b c d : List ℕ) (t ta tb tc td : ℕ)
      → p.connect_status ≡ disconnected
      → p.login_fail_until ≤ t
      → has_tag a rptack ≡ true
      → has_tag b rptack ≡ true
      → has_tag c rptack ≡ true
      → has_tag d rptack ≡ true
      → 10 ≤ length a
      → is_empty p.options ≡ false
      → let q = run sha256 p (login_events a b t ta tb ++ (receive c tc ∷ receive d td ∷ [])) in
        (q.status ≡ connected)
        × (q.connect_status ≡ connected)
        × (q.sent
            ≡ (codes "RPTO" ++ id_bytes p.dmrid ++ take 191 p.options)
              ∷ (codes "RPTC" ++ id_bytes p.dmrid ++ rptc_body p)
              ∷ rptk p a
              ∷ (codes "RPTL" ++ id_bytes p.dmrid)
              ∷ p.sent)
  unfolding run step
  login_completes_options p a b c d t ta tb tc td down over ha hb hc hd long full =
      let p2 = half_way p a b t ta tb down over ha hb in
      rw
        (
          run-append p (login_events a b t ta tb) (receive c tc ∷ receive d td ∷ []),
          login_half_way p a b t ta tb down over ha hb,
          receive_options sha256 p2 c tc hc refl refl full,
          receive_last sha256
              (advanced p2 c 3 (codes "RPTO" ++ id_bytes p.dmrid ++ take 191 p.options)) d td hd
              refl refl,
        )
        (refl, refl, rw (seed a (drop (length a) (requested p t).buf) long))
