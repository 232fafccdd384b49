-- ===== src/Bridge/Tests.antt =====
-- A bridge with a concrete DMR link, and the theorems on the connect PTT at it.
use adn_bridge.Bridge.Dmrd.{dmr_id_rf24}
use adn_bridge.PeerDmr.Wire.{codes}
use adn_bridge.Bridge.ConnectPtt.Whole.{
  AllBefore, poll_starts, connect_ptt_session, clearing_session,
}
use adn_bridge.Bridge.ConnectPtt.{connect_ptt_begin_stream, poll_connect_ptt, emit_connect_ptt}
use adn_bridge.Bridge.Wire.{read_frame, read_frame-dmrd_packet}
use adn_bridge.Bridge.ConnectPtt.Stream.{IsOpening, Talk, IsTalking}
use adn_bridge.Bridge.ConnectPtt.Session.{
  IsClosed, next_talk, new_talk, begin_opens, closed_ptt, emits,
}
use adn_bridge.Bridge.Time.{ms_elapsed, Timespec}
use adn_bridge.Bridge.Send.{tx_rf_id, dmrd_packet}
use adn_bridge.PeerYsf.State.{PeerYsf}
use adn_bridge.Prelude.{
  ℕ, Bool, List, [], ◌≡◌, false, true, ◌+◌, none, ◌∷◌, ◌/◌, refl, arith, ◌%◌, ◌*◌, replicate,
}
use adn_bridge.Bridge.State.{Env, Bridge, bridge_tx_tg}
use adn_bridge.PeerDmr.State.{PeerDmr, peer_dmr_connected, connected}
use Prim.Native.Nat.{ℕ}
use adn_bridge.PeerDmr.Login.{peer_dmr_open}

abbrev link : PeerDmr
link = peer_dmr_open [] (codes "CE5RPY") 7300391 71442 [] (codes "secret") [] [] 100

abbrev up : PeerDmr
up = record link { status = connected; connect_status = connected; login_phase = 4 }

abbrev pub env : Env
env = record {
  rand = λ n. n + 77;
  lookup_id = λ c. 0;
  lookup_callsign = λ n. none;
  process_header = λ p. none;
  write_header = λ p one two. p;
  write_dch = λ p d. p;
  toupper = λ c. c;
  unwritten = replicate 35 0;
}

abbrev pub at_ms : ℕ → Timespec
at_ms n = record { sec = 10 + n / 1000; nsec = n % 1000 * 1000000 }

abbrev ysf_link : PeerYsf
ysf_link = record {
  is_open = true;
  callsign = [];
  dgid = 0;
  linked = false;
  reconnect_pending = false;
  last_rx = 0;
  sent = [];
}

-- A bridge on slot 2 whose DMR link is up.
abbrev pub bridge : Bridge
bridge = record {
  dmr = up;
  ysf = ysf_link;
  dmr_stream_id = 1;
  dmr_seq = 0;
  dmr_slot_bit = 0x80;
  ysf_fn = 0;
  ysf_cnt = 0;
  net_src = [];
  net_dst = [];
  ysf_rf_id = 0;
  dmr_voice_frames = 0;
  dmr_tx_frames = 0;
  dmr_dmrd_other = 0;
  ysf_voice_frames = 0;
  call_active = false;
  dmr_last_dtype = 0;
  dmra = record { rf = 0; blocks = []; have = 0; text = [] };
  last_dmr_tx = at_ms 0;
  last_ysf_tx = at_ms 0;
  dmr_was_connected = false;
  clear_dynamic_tg = false;
  ptt = record {
    active = false;
    phase = 0;
    voice_frames = 0;
    tg = 0;
    clearing = false;
    start = at_ms 0;
  };
  emb_raw = [];
  draws = 0;
  conv = [];
}

abbrev opened : Bool → Bridge
opened clearing = connect_ptt_begin_stream env (at_ms 0) bridge 71442 clearing

abbrev talk : Bool → Talk
talk clearing = new_talk env (at_ms 0) bridge 71442 clearing

opens : (clearing : Bool) → IsOpening (talk clearing) [] 0 (opened clearing)
unfolding peer_dmr_open tx_rf_id
opens clearing = begin_opens env (at_ms 0) bridge 71442 clearing (omega arith) (omega arith)

abbrev times : List Timespec
times = at_ms 55 ∷ at_ms 110 ∷ []

early : AllBefore (at_ms 0) times
unfolding ms_elapsed
early = (refl, (refl, tt))

late : ms_elapsed (at_ms 0) (at_ms 520) 500 ≡ true
unfolding ms_elapsed
late = refl

connect_ptt_session_example : IsClosed (talk false) 2 [] (
    emit_connect_ptt env
      (at_ms 520)
      (emits env times (emit_connect_ptt env (at_ms 0) (opened false))))
connect_ptt_session_example =
    connect_ptt_session env (talk false) [] (opened false) times (at_ms 520) (opens false) refl
      early late

clearing_session_example :
    IsOpening (next_talk env (at_ms 520) (talk true)) (closed_ptt (talk true) 2 []) 0 (
      emit_connect_ptt env
        (at_ms 520)
        (emits env times (emit_connect_ptt env (at_ms 0) (opened true))))
unfolding peer_dmr_open
clearing_session_example =
    clearing_session env (talk true) [] (opened true) times (at_ms 520) (opens true) refl
      (omega arith) early late

poll_starts_example :
    IsTalking
      (new_talk env (at_ms 0) bridge 71442 false)
      []
      0
      (poll_connect_ptt env (at_ms 0) bridge)
unfolding peer_dmr_connected tx_rf_id peer_dmr_open ms_elapsed
poll_starts_example =
    poll_starts env (at_ms 0) bridge refl refl refl refl (omega arith) (omega arith) refl

read_frame-dmrd_packet_example :
    read_frame (dmrd_packet env bridge 0x81 none).0
    ≡ record { seq = 0; src = 7300391; dst = 71442; b15 = 0x81; stream = 1 }
unfolding peer_dmr_open tx_rf_id bridge_tx_tg dmr_id_rf24
read_frame-dmrd_packet_example = read_frame-dmrd_packet env bridge 129 none (omega arith)
