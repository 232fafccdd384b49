-- ===== src/Bridge/ConnectPtt.antt =====
-- bridge.c: the connect PTT, half a second of silence that is sent on the talkgroup after a login,
-- behind one on TG 4000 that clears the dynamic talkgroups, where the configuration asks for it.
pub mod Stream
pub mod Session
pub mod Whole
use adn_bridge.Bridge.Dmrd.{ft_data_sync, ft_voice_sync, dmr_silence_data, dtype_vhead, dtype_vterm}
use adn_bridge.PeerDmr.State.{peer_dmr_connected}
use adn_bridge.Bridge.Send.{bridge_send_dmrd}
use adn_bridge.Bridge.Time.{Timespec, ms_elapsed}
use adn_bridge.Bridge.State.{Bridge, ConnectPtt, Env, new_stream_id}
use adn_bridge.Prelude.{
  ℕ, u8, false, if◌then◌else◌, Bool, bit_or, ◌+◌, ◌==◌, true, some, ◌&&◌, not, ◌||◌, none, ◌%◌,
  ◌<<<◌, ltb, zero,
}
use Prim.Native.Nat.{ℕ, bit_or, suc}

abbrev pub dmr_frame_ms : ℕ
dmr_frame_ms = 55

abbrev pub connect_ptt_ms : ℕ
connect_ptt_ms = 500

abbrev pub dmr_clear_dynamic_tg : ℕ
dmr_clear_dynamic_tg = 4000

-- `slot_bit | (DMRD_FT_DATA_SYNC << 4) | DMRD_DTYPE_VHEAD`
abbrev pub vhead_type : Bridge → ℕ
vhead_type b = u8 (bit_or (bit_or b.dmr_slot_bit (ft_data_sync <<< 4)) dtype_vhead)

abbrev pub vterm_type : Bridge → ℕ
vterm_type b = u8 (bit_or (bit_or b.dmr_slot_bit (ft_data_sync <<< 4)) dtype_vterm)

-- The type of voice frame `n` of a superframe; frame 0 carries the voice sync.
abbrev pub voice_type : Bridge → ℕ → ℕ
voice_type b n =
    u8 (if n == 0 then bit_or b.dmr_slot_bit (ft_voice_sync <<< 4) else bit_or b.dmr_slot_bit n)

-- The fields cleared where a PTT ends.
abbrev pub ptt_idle : ConnectPtt → ConnectPtt
ptt_idle p = record p { active = false; phase = 0; voice_frames = 0; tg = 0; clearing = false }

module _ (env : Env) (now : Timespec) where
  -- bridge_connect_ptt_begin_stream
  unfoldable pub connect_ptt_begin_stream : Bridge → ℕ → Bool → Bridge
  connect_ptt_begin_stream b tg clearing = record b {
    ptt = record {
      active = true;
      phase = 0;
      voice_frames = 0;
      tg = tg;
      clearing = clearing;
      start = now;
    };
    dmr_stream_id = new_stream_id env b;
    draws = b.draws + 1;
    dmr_seq = 0;
    last_dmr_tx = record now { sec = 0 };
  }

  -- One frame of silence, of the superframe position given.
  unfoldable pub send_silence : Bridge → ℕ → Bridge
  send_silence b frame_type = bridge_send_dmrd env b frame_type (some dmr_silence_data) now

  unfoldable pub count_ptt_frame : Bridge → Bridge
  count_ptt_frame b = record b { ptt = record (b.ptt) { voice_frames = b.ptt.voice_frames + 1 } }

  -- `while ((voice_frames % 6) != 0)`: at most five rounds
  unfoldable pub pad_ptt : ℕ → Bridge → Bridge
  unfolding count_ptt_frame
  pad_ptt zero b = b
  pad_ptt (suc fuel) b =
      let rest =
        pad_ptt fuel (
          count_ptt_frame (send_silence b (u8 (bit_or b.dmr_slot_bit (b.ptt.voice_frames % 6))))) in
      if b.ptt.voice_frames % 6 == 0 then b else rest

  -- bridge_connect_ptt_finish
  unfoldable pub connect_ptt_finish : Bridge → Bridge
  connect_ptt_finish b =
      let b1 = pad_ptt 6 b in
      let b2 = send_silence b1 (vterm_type b1) in
      if b.ptt.clearing && ltb 0 b.dmr.tg
      then connect_ptt_begin_stream b2 b2.dmr.tg false
      else record b2 { ptt = ptt_idle b2.ptt }

  -- bridge_abort_connect_ptt
  unfoldable pub abort_connect_ptt : Bridge → Bridge
  abort_connect_ptt b =
      if not b.ptt.active
      then b
      else if ltb 0 b.ptt.phase
      then connect_ptt_finish (record b { ptt = record (b.ptt) { clearing = false } })
      else record b { ptt = ptt_idle b.ptt }

  -- bridge_start_connect_ptt
  unfoldable pub start_connect_ptt : Bridge → Bridge
  start_connect_ptt b =
      if b.call_active || b.ptt.active
      then b
      else if b.dmr.tg == 0
      then b
      else if b.clear_dynamic_tg
      then connect_ptt_begin_stream b dmr_clear_dynamic_tg true
      else connect_ptt_begin_stream b b.dmr.tg false

  -- `for (i = 0; i < n; i++)` with the VHEAD frame
  unfoldable pub send_vheads : ℕ → Bridge → Bridge
  send_vheads zero b = b
  send_vheads (suc n) b = send_vheads n (bridge_send_dmrd env b (vhead_type b) none now)

  -- bridge_emit_connect_ptt
  unfoldable pub emit_connect_ptt : Bridge → Bridge
  emit_connect_ptt b =
      if not b.ptt.active
      then b
      else if b.ptt.phase == 0
      then (let b1 = send_vheads 3 b in
          record b1 { ptt = record (b1.ptt) { phase = 1; start = now } })
      else if ms_elapsed b.ptt.start now connect_ptt_ms
      then connect_ptt_finish b
      else count_ptt_frame (send_silence b (voice_type b (b.ptt.voice_frames % 6)))

  -- bridge_poll_connect_ptt
  unfoldable pub poll_connect_ptt : Bridge → Bridge
  poll_connect_ptt b =
      let connected = peer_dmr_connected b.dmr in
      let b1 = if connected && not b.dmr_was_connected then start_connect_ptt b else b in
      let b2 = if connected then b1 else record b1 { ptt = ptt_idle b1.ptt } in
      let b3 = record b2 { dmr_was_connected = connected } in
      if b3.ptt.active && ms_elapsed b3.last_dmr_tx now dmr_frame_ms
      then emit_connect_ptt b3
      else b3
