-- ===== src/PeerDmr/Tests.antt =====
-- Runs of the DMR peer, and the theorems at them.
-- The digest of these runs keeps its input.

use adn_bridge.PeerDmr.Keepalive.{IsRequested, silence_reconnects, traffic_keeps, nak_backs_off}
use adn_bridge.PeerDmr.Complete.{login_events, rptk, login_completes, login_completes_options}
use adn_bridge.PeerDmr.Wire.{codes, base_callsign, pad_copy, id_bytes}
use adn_bridge.PeerDmr.Session.{
  run, IsValid, step, tick, receive, alarm, run-IsValid, acks, peer_dmr_open-IsValid,
  connected_needs_acks,
}
use adn_bridge.PeerDmr.Login.{peer_dmr_open, peer_dmr_receive, peer_dmr_tick, rptc_body}
use adn_bridge.PeerDmr.State.{PeerDmr, connected, connecting, disconnected}
use adn_bridge.Prelude.{List, ℕ, [], ◌++◌, ◌≡◌, ◌∷◌, replicate, ◌≤◌, ◌<◌, refl, inl, arith, ◌⊎◌}

abbrev digest : List ℕ → List ℕ
digest m = m ++ replicate 32 0

abbrev start_with : List ℕ → PeerDmr
start_with options =
    peer_dmr_open [] (codes "CE5RPY-L") 7300391 71442 options (codes "secret") [] (codes "Santiago")
      100

abbrev start : PeerDmr
start = start_with []

abbrev tuned : PeerDmr
tuned = start_with (codes "TS2=71442;")

abbrev seeded : List ℕ
seeded = codes "RPTACK" ++ (1 ∷ 2 ∷ 3 ∷ 4 ∷ [])

abbrev plain : List ℕ
plain = codes "RPTACK"

abbrev up : PeerDmr
up = record start { status = connected; connect_status = connected; login_phase = 4 }

abbrev joining : PeerDmr
joining = record start { status = connecting; connect_status = connecting }

callsign_cut : start.callsign ≡ codes "CE5RPY    "
unfolding peer_dmr_open base_callsign pad_copy
callsign_cut = refl

login_runs :
    (run digest start (login_events seeded plain 100 101 103 ++ (receive plain 106 ∷ []))).status
    ≡ connected
unfolding run step peer_dmr_tick peer_dmr_receive peer_dmr_open
login_runs = refl

-- A short datagram is read together with what an earlier one left in the buffer.
stale_buffer :
    (peer_dmr_receive digest
      (record joining { buf = codes "RPTACK1234" })
      (b'R' ∷ [])
      100).login_phase
    ≡ 1
unfolding peer_dmr_receive peer_dmr_open
stale_buffer = refl

run-IsValid_example : IsValid (run digest start (tick 100 ∷ receive plain 100 ∷ alarm ∷ []))
run-IsValid_example = run-IsValid digest start (tick 100 ∷ receive plain 100 ∷ alarm ∷ []) (
    peer_dmr_open-IsValid [] (codes "CE5RPY-L") 7300391 71442 [] (codes "secret") []
      (codes "Santiago") 100)

connected_needs_acks_example :
    3
    ≤ acks digest start (tick 100 ∷ receive plain 100 ∷ receive plain 101 ∷ receive plain 102 ∷ [])
unfolding peer_dmr_open run step peer_dmr_tick peer_dmr_receive
connected_needs_acks_example =
    connected_needs_acks digest start
      (tick 100 ∷ receive plain 100 ∷ receive plain 101 ∷ receive plain 102 ∷ [])
      (peer_dmr_open-IsValid [] (codes "CE5RPY-L") 7300391 71442 [] (codes "secret") []
        (codes "Santiago") 100)
      refl refl

login_completes_example :
    let q = run digest start (login_events seeded plain 100 101 103 ++ (receive plain 106 ∷ [])) in
    (q.status ≡ connected)
    × (q.connect_status ≡ connected)
    × (q.sent
        ≡ (codes "RPTC" ++ id_bytes 7300391 ++ rptc_body start)
          ∷ rptk digest start seeded
          ∷ (codes "RPTL" ++ id_bytes 7300391)
          ∷ [])
unfolding peer_dmr_open
login_completes_example =
    login_completes digest start seeded plain plain 100 101 103 106 refl (omega arith) refl refl
      refl (omega arith) refl

login_completes_options_example :
    let q =
      run digest tuned
        (login_events seeded plain 100 101 103 ++ (receive plain 106 ∷ receive plain 110 ∷ [])) in
    (q.status ≡ connected)
    × (q.connect_status ≡ connected)
    × (q.sent
        ≡ (codes "RPTO" ++ id_bytes 7300391 ++ codes "TS2=71442;")
          ∷ (codes "RPTC" ++ id_bytes 7300391 ++ rptc_body tuned)
          ∷ rptk digest tuned seeded
          ∷ (codes "RPTL" ++ id_bytes 7300391)
          ∷ [])
unfolding peer_dmr_open
login_completes_options_example =
    login_completes_options digest tuned seeded plain plain plain 100 101 103 106 110 refl
      (omega arith) refl refl refl refl (omega arith) refl

silence_reconnects_example : IsRequested up (run digest up (tick 131 ∷ tick 132 ∷ []))
unfolding peer_dmr_open
silence_reconnects_example =
    silence_reconnects digest up 131 132 (inl (refl, omega arith)) (omega arith)

traffic_keeps_example :
    let q = run digest up (receive plain 200 ∷ tick 230 ∷ []) in
    (q.connect_status ≡ connected) × (q.status ≡ connected) × (q.sent ≡ [])
unfolding peer_dmr_open
traffic_keeps_example = traffic_keeps digest up plain 200 230 refl refl (omega arith)

nak_backs_off_example :
    let q = run digest joining (receive (codes "MSTNAK") 200 ∷ tick 202 ∷ []) in
    (202 < 203) × (q.connect_status ≡ disconnected) × (q.sent ≡ [])
    ⊎ (203 ≤ 202) × IsRequested joining q
unfolding peer_dmr_open
nak_backs_off_example = nak_backs_off digest joining (codes "MSTNAK") 200 202 refl refl
