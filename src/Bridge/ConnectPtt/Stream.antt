-- ===== src/Bridge/ConnectPtt/Stream.antt =====
-- The frames of a connect PTT, read as its receiver reads them.
use adn_bridge.PeerDmr.State.{peer_dmr_send}
use adn_bridge.Bridge.Dmrd.{ft_data_sync, ft_voice_sync, dtype_vhead, dmr_id_rf24, dmr_silence_data}
use adn_bridge.Bridge.ConnectPtt.{
  count_ptt_frame, ft_data_sync, true, send_silence, ft_voice_sync, dtype_vhead, some,
  dmr_silence_data, Bool, vhead_type, send_vheads, emit_connect_ptt, none, ms_elapsed,
  connect_ptt_ms, false, voice_type, connect_ptt_finish, pad_ptt,
}
use adn_bridge.Bridge.Send.{bridge_send_dmrd, tx_rf_id, dmrd_packet, dmrd_buf}
use adn_bridge.Bridge.Time.{Timespec, ms_elapsed}
use adn_bridge.Bridge.Wire.Voice.{Packet, read_packet, carried, read_packet-dmrd_packet}
use adn_bridge.Bridge.State.{Bridge, Env, bridge_tx_tg}
use adn_bridge.Prelude.{
  ℕ, List, u8, if◌then◌else◌, map, ◌≡◌, ◌%◌, bit_or, ◌==◌, true, Option, ◌<<<◌, ◌^◌, ◌<◌, ◌∷◌, suc,
  [], ◌+◌, some, ◌++◌, arith, zero, Bool, none, false, ◌≤◌, Bool-cases, inl, ==_iff, inr, length,
  refl,
}
use Prim.Native.Nat.{ℕ, bit_or, suc}

-- One transmission: what its frames have in common, when its headers went out, whether it is the
-- one that clears the dynamic talkgroups, the configured talkgroup, and how many random numbers
-- were drawn when it had its stream.
pub record Talk : Type 0 where
  pub slot : ℕ
  pub src : ℕ
  pub dst : ℕ
  pub stream : ℕ
  pub begun : Timespec
  pub clearing : Bool
  pub home : ℕ
  pub draws : ℕ

abbrev pub packet_of : Talk → ℕ → ℕ → Option (List ℕ) → Packet
packet_of t seq b15 voice = record {
  frame = record { seq = seq % 256; src = t.src; dst = t.dst; b15 = b15; stream = t.stream };
  voice = carried b15 voice;
}

-- The voice of each frame of a connect PTT.
abbrev pub silent_voice : ℕ → List ℕ
silent_voice n = dmr_silence_data

-- The type of voice frame `n` of a superframe.
abbrev pub voice_b15 : Talk → ℕ → ℕ
voice_b15 t n = u8 (if n == 0 then bit_or t.slot (ft_voice_sync <<< 4) else bit_or t.slot n)

-- `DMRD_FT_DATA_SYNC` with a data type.
abbrev pub data_b15 : Talk → ℕ → ℕ
data_b15 t dtype = u8 (bit_or (bit_or t.slot (ft_data_sync <<< 4)) dtype)

-- `n` headers, newest first.
abbrev pub head_frames : Talk → ℕ → List Packet
head_frames t zero = []
head_frames t (suc n) = packet_of t n (data_b15 t dtype_vhead) none ∷ head_frames t n

-- Three headers and then `v` voice frames in superframes of six, newest first; `voice` gives the
-- voice of each of them.
abbrev pub talk_frames : (ℕ → List ℕ) → Talk → ℕ → List Packet
talk_frames voice t zero = head_frames t 3
talk_frames voice t (suc v) =
    packet_of t (v + 3) (voice_b15 t (v % 6)) (some (voice v)) ∷ talk_frames voice t v

abbrev pub frames_sent : Bridge → List Packet
frames_sent b = map read_packet b.dmr.sent

-- A connect PTT of the talk `t`, `n` packets into it.
pub record IsOnAir (t : Talk) (n : ℕ) (b : Bridge) : Type 0 where
  pub active : b.ptt.active ≡ true
  pub clearing : b.ptt.clearing ≡ t.clearing
  pub dst : b.ptt.tg % 2 ^ 24 ≡ t.dst
  pub has_tg : 0 < b.ptt.tg
  pub slot : b.dmr_slot_bit ≡ t.slot
  pub has_id : 0 < tx_rf_id b
  pub src : dmr_id_rf24 (tx_rf_id b) % 2 ^ 24 ≡ t.src
  pub stream : b.dmr_stream_id ≡ t.stream
  pub small : b.dmr_stream_id < 2 ^ 32
  pub seq : b.dmr_seq ≡ n % 256
  pub home : b.dmr.tg ≡ t.home
  pub draws : b.draws ≡ t.draws

-- One that has sent `n` of its headers behind what was sent before.
pub record IsOpening (t : Talk) (before : List Packet) (n : ℕ) (b : Bridge) : Type 0 where
  pub on_air : IsOnAir t n b
  pub phase : b.ptt.phase ≡ 0
  pub voices : b.ptt.voice_frames ≡ 0
  pub frames : frames_sent b ≡ head_frames t n ++ before

-- One that has sent its headers and `v` voice frames behind what was sent before.
pub record IsTalking (t : Talk) (before : List Packet) (v : ℕ) (b : Bridge) : Type 0 where
  pub on_air : IsOnAir t (v + 3) b
  pub phase : b.ptt.phase ≡ 1
  pub voices : b.ptt.voice_frames ≡ v
  pub begun : b.ptt.start ≡ t.begun
  pub frames : frames_sent b ≡ talk_frames silent_voice t v ++ before

pub silence_sized : length dmr_silence_data ≡ 33
unfolding dmr_silence_data
silence_sized = refl

module _ (env : Env) (now : Timespec) where
  -- The bridge after a packet, where the id is set.
  pub send_some :
      (b : Bridge) (frame_type : ℕ) (voice : Option (List ℕ))
      → 0 < tx_rf_id b
      → bridge_send_dmrd env b frame_type voice now ≡ record b {
        dmr = record (b.dmr) {
          buf = dmrd_buf env b frame_type voice;
          sent = (dmrd_packet env b frame_type voice).0 ∷ b.dmr.sent;
        };
        dmr_seq = u8 (b.dmr_seq + 1);
        last_dmr_tx = now;
        emb_raw = (dmrd_packet env b frame_type voice).1;
      }
  unfolding bridge_send_dmrd peer_dmr_send
  send_some b frame_type voice h = ground arith

  -- One more header.
  head_on :
      (t : Talk) (before : List Packet) (n : ℕ) (b : Bridge)
      → IsOpening t before n b
      → IsOpening t before (suc n) (bridge_send_dmrd env b (vhead_type b) none now)
  unfolding bridge_tx_tg tx_rf_id
  head_on t before n b h =
      rw (send_some b (vhead_type b) none h.on_air.has_id)
        (ground (arith, read_packet-dmrd_packet env b (vhead_type b) none h.on_air.small tt))

  -- One more voice frame.
  pub talk_on :
      (t : Talk) (before : List Packet) (v : ℕ) (b : Bridge) (b15 : ℕ)
      → b15 ≡ voice_b15 t (v % 6)
      → IsTalking t before v b
      → IsTalking t before (suc v) (count_ptt_frame env now (send_silence env now b b15))
  unfolding count_ptt_frame send_silence bridge_tx_tg tx_rf_id
  talk_on t before v b b15 e h = rw (send_some b b15 (some dmr_silence_data) h.on_air.has_id) (
      ground (
        arith,
        read_packet-dmrd_packet env b b15 (some dmr_silence_data) h.on_air.small silence_sized,
      ))

  heads_on :
      (k : ℕ) (t : Talk) (before : List Packet) (n : ℕ) (b : Bridge)
      → IsOpening t before n b
      → IsOpening t before (n + k) (send_vheads env now k b)
  unfolding send_vheads
  heads_on zero t before n b h = let e : n + 0 ≡ n = omega arith in rw e h
  heads_on (suc k) t before n b h =
      let e : n + suc k ≡ suc n + k = omega arith in
      rw e (heads_on k t before (suc n) _ (head_on t before n b h))

  -- bridge_emit_connect_ptt, branch by branch.
  emit_first :
      (b : Bridge)
      → b.ptt.active ≡ true
      → b.ptt.phase ≡ 0
      → emit_connect_ptt env now b ≡ (
          let b1 = send_vheads env now 3 b in
          record b1 { ptt = record (b1.ptt) { phase = 1; start = now } })
  unfolding emit_connect_ptt
  emit_first b a p = rw (a, p)

  emit_voice :
      (b : Bridge)
      → b.ptt.active ≡ true
      → b.ptt.phase ≡ 1
      → ms_elapsed b.ptt.start now connect_ptt_ms ≡ false
      → emit_connect_ptt env now b
        ≡ count_ptt_frame env now (send_silence env now b (voice_type b (b.ptt.voice_frames % 6)))
  unfolding emit_connect_ptt
  emit_voice b a p e = rw (a, p, e)

  pub emit_end :
      (b : Bridge)
      → b.ptt.active ≡ true
      → b.ptt.phase ≡ 1
      → ms_elapsed b.ptt.start now connect_ptt_ms ≡ true
      → emit_connect_ptt env now b ≡ connect_ptt_finish env now b
  unfolding emit_connect_ptt
  emit_end b a p e = rw (a, p, e)

  -- The headers of an active PTT.
  pub IsOpening-emit :
      (t : Talk) (before : List Packet) (b : Bridge)
      → t.begun ≡ now
      → IsOpening t before 0 b
      → IsTalking t before 0 (emit_connect_ptt env now b)
  unfolding tx_rf_id
  IsOpening-emit t before b e h =
      let h3 = heads_on 3 t before 0 b h in rw (emit_first b h.on_air.active h.phase) (ground arith)

  -- A voice frame of an active PTT whose time is not over.
  pub IsTalking-emit :
      (t : Talk) (before : List Packet) (v : ℕ) (b : Bridge)
      → ms_elapsed t.begun now connect_ptt_ms ≡ false
      → IsTalking t before v b
      → IsTalking t before (suc v) (emit_connect_ptt env now b)
  IsTalking-emit t before v b e h =
      rw (emit_voice b h.on_air.active h.phase (rw h.begun e))
        (talk_on t before v b _ (ground arith) h)

  -- The padding of bridge_connect_ptt_finish ends at a whole superframe.
  pub pad_on :
      (fuel : ℕ) (t : Talk) (before : List Packet) (v w : ℕ) (b : Bridge)
      → IsTalking t before v b
      → w % 6 ≡ 0
      → v ≤ w
      → w < v + 6
      → w ≤ v + fuel
      → IsTalking t before w (pad_ptt env now fuel b)
  unfolding pad_ptt
  pad_on zero t before v w b h e le lt enough = let same : v ≡ w = omega arith in rw (← same) h
  pad_on (suc fuel) t before v w b h e le lt enough =
      elim (Bool-cases (b.ptt.voice_frames % 6 == 0)) [
        | inl whole ↦
            let same : v ≡ w =
              omega (arith, h.voices, (==_iff (b.ptt.voice_frames % 6) 0).0 whole) in
            rw whole (rw (← same) h)
        | inr partial ↦ rw partial (
            pad_on fuel t before (suc v) w _ (talk_on t before v b _ (ground arith) h) e
              (ground arith) (omega arith) (omega arith))
      ]
