-- ===== src/PeerDmr/Handshake.antt =====
-- The login handshake of peer_dmr.c from start to end.
use adn_bridge.Prelude.{
  ℕ, ◌≤◌, ◌≡◌, arith, true, false, List, [], ◌∷◌, ◌++◌, length, take, drop, refl,
}
use adn_bridge.PeerDmr.Wire.{codes, has_tag, id_bytes, is_empty}
use adn_bridge.PeerDmr.State.{disconnected, connecting, connected, PeerDmr}
use adn_bridge.PeerDmr.Login.{rptc_body, peer_dmr_receive, peer_dmr_tick}

-- A tag that a packet starts with is still there with what the buffer held behind it.
pub has_tag-append :
    (buf rest tag : List ℕ) → has_tag buf tag ≡ true → has_tag (buf ++ rest) tag ≡ true
has_tag-append buf rest [] h = h
has_tag-append [] rest (t ∷ tag) h = ground arith
has_tag-append (x ∷ buf) rest (t ∷ tag) h = ground (arith, has_tag-append buf rest tag)

-- A packet with a tag is not empty.
pub tagged_full :
    (packet tag : List ℕ)
    → is_empty tag ≡ false
    → has_tag packet tag ≡ true
    → is_empty packet ≡ false
tagged_full [] [] h tagged = h
tagged_full [] (t ∷ tag) h tagged = ground arith
tagged_full (x ∷ packet) tag h tagged = refl

abbrev pub rptack : List ℕ
rptack = codes "RPTACK"

-- The login request, and the state that it leaves.
pub tick_login :
    (p : PeerDmr) (now : ℕ)
    → p.connect_status ≡ disconnected
    → p.login_fail_until ≤ now
    → let packet = codes "RPTL" ++ id_bytes p.dmrid in
      peer_dmr_tick p now ≡ record p {
        connect_status = connecting;
        status = connecting;
        login_phase = 0;
        pong_time = now;
        buf = packet ++ drop 8 p.buf;
        sent = packet ∷ p.sent;
      }
unfolding peer_dmr_tick
tick_login p now down over = ground arith

-- The receive buffer with a packet over what it held.
abbrev pub heard : PeerDmr → List ℕ → List ℕ
heard p packet = packet ++ drop (length packet) p.buf

module _ (sha256 : List ℕ → List ℕ) where
  module _ (p : PeerDmr) (packet : List ℕ) (now : ℕ) (tagged : has_tag packet rptack ≡ true)
      (pending : p.connect_status ≡ connecting) where
    filled : is_empty packet ≡ false
    filled = tagged_full packet rptack refl tagged

    pub receive_first :
        p.login_phase ≡ 0
        → peer_dmr_receive sha256 p packet now ≡ record p {
          status = connecting;
          login_phase = 1;
          buf = heard p packet;
          sent =
              (codes "RPTK"
                ++ id_bytes p.dmrid
                ++ take 32 (sha256 (take 4 (drop 6 (heard p packet)) ++ p.password)))
              ∷ p.sent;
        }
    unfolding peer_dmr_receive
    receive_first phase =
        ground (arith, filled, has_tag-append packet (drop (length packet) p.buf) rptack tagged)

    pub receive_second :
        p.login_phase ≡ 1
        → peer_dmr_receive sha256 p packet now ≡ record p {
          status = connecting;
          login_phase = 2;
          buf = heard p packet;
          sent = (codes "RPTC" ++ id_bytes p.dmrid ++ rptc_body p) ∷ p.sent;
        }
    unfolding peer_dmr_receive
    receive_second phase =
        ground (arith, filled, has_tag-append packet (drop (length packet) p.buf) rptack tagged)

    pub receive_third :
        p.login_phase ≡ 2
        → is_empty p.options ≡ true
        → peer_dmr_receive sha256 p packet now ≡ record p {
          status = connected;
          connect_status = connected;
          login_phase = 4;
          pong_time = now;
          buf = heard p packet;
        }
    unfolding peer_dmr_receive
    receive_third phase bare =
        ground (arith, filled, has_tag-append packet (drop (length packet) p.buf) rptack tagged)

    pub receive_options :
        p.login_phase ≡ 2
        → is_empty p.options ≡ false
        → peer_dmr_receive sha256 p packet now ≡ record p {
          status = connecting;
          login_phase = 3;
          buf = heard p packet;
          sent = (codes "RPTO" ++ id_bytes p.dmrid ++ take 191 p.options) ∷ p.sent;
        }
    unfolding peer_dmr_receive
    receive_options phase full =
        ground (arith, filled, has_tag-append packet (drop (length packet) p.buf) rptack tagged)

    pub receive_last :
        p.login_phase ≡ 3
        → peer_dmr_receive sha256 p packet now ≡ record p {
          status = connected;
          connect_status = connected;
          login_phase = 4;
          pong_time = now;
          buf = heard p packet;
        }
    unfolding peer_dmr_receive
    receive_last phase =
        ground (arith, filled, has_tag-append packet (drop (length packet) p.buf) rptack tagged)
