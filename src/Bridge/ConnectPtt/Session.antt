-- ===== src/Bridge/ConnectPtt/Session.antt =====
-- A connect PTT from its start to its end.

use adn_bridge.Bridge.Dmrd.{dtype_vterm, dmr_silence_data, dmr_id_rf24}
use adn_bridge.Bridge.Send.{tx_rf_id}
use adn_bridge.Bridge.ConnectPtt.{
  pad_ptt, connect_ptt_finish, Bridge, send_silence, dtype_vterm, false, ltb, vterm_type, some,
  dmr_silence_data, Bool, emit_connect_ptt, new_stream_id, connect_ptt_begin_stream, true,
}
use adn_bridge.Bridge.Wire.Voice.{Packet, read_packet-dmrd_packet}
use adn_bridge.Bridge.Time.{Timespec}
use adn_bridge.Bridge.State.{Env, Bridge, bridge_tx_tg, new_stream_id}
use adn_bridge.Bridge.ConnectPtt.Stream.{
  Talk, packet_of, silent_voice, silence_sized, data_b15, IsTalking, pad_on, frames_sent,
  talk_frames, send_some, IsOpening,
}
use adn_bridge.Prelude.{
  ℕ, List, ◌+◌, ◌/◌, ◌*◌, ◌≡◌, false, ◌&&◌, ◌∷◌, arith, ltb, ◌++◌, bit_or, some, ◌%◌, Bool, ◌^◌, [],
  ◌<◌, u32, true, bit_or_low, max, bit_or-zero, ap₂,
}
use Prim.Native.Nat.{ℕ, bit_or, max}

-- The voice frames of whole superframes.
abbrev pub round_up : ℕ → ℕ
round_up v = (v + 5) / 6 * 6

-- What a finished transmission of `v` voice frames leaves: it is padded to whole superframes and
-- closed by a terminator, for which `last` is given.
abbrev pub closed_frames : (ℕ → List ℕ) → List ℕ → Talk → ℕ → List Packet → List Packet
closed_frames voice last t v before =
    packet_of t (round_up v + 3) (data_b15 t dtype_vterm) (some last)
    ∷ (talk_frames voice t (round_up v) ++ before)

-- Of a connect PTT, all frames of which are silence.
abbrev pub closed_ptt : Talk → ℕ → List Packet → List Packet
closed_ptt = closed_frames silent_voice dmr_silence_data

abbrev pub IsClosed : Talk → ℕ → List Packet → Bridge → Type 0
IsClosed t v before b = (b.ptt.active ≡ false) × (frames_sent b ≡ closed_ptt t v before)

-- The talk that connect_ptt_begin_stream starts.
abbrev pub new_talk : Env → Timespec → Bridge → ℕ → Bool → Talk
new_talk env now b tg clearing = record {
  slot = b.dmr_slot_bit;
  src = dmr_id_rf24 (tx_rf_id b) % 2 ^ 24;
  dst = tg % 2 ^ 24;
  stream = new_stream_id env b;
  begun = now;
  clearing = clearing;
  home = b.dmr.tg;
  draws = b.draws + 1;
}

-- The talk that follows a clearing one, on the configured talkgroup.
abbrev pub next_talk : Env → Timespec → Talk → Talk
next_talk env now t = record t {
  dst = t.home % 2 ^ 24;
  stream = bit_or (u32 (env.rand t.draws)) 1;
  begun = now;
  clearing = false;
  draws = t.draws + 1;
}

-- bridge_emit_connect_ptt at each of the times given.
unfoldable pub emits : Env → List Timespec → Bridge → Bridge
emits env [] b = b
emits env (now ∷ times) b = emits env times (emit_connect_ptt env now b)

new_stream_id_fits : (env : Env) (b : Bridge) → new_stream_id env b < 2 ^ 32
unfolding new_stream_id
new_stream_id_fits env b =
    let x = u32 (env.rand b.draws) in
    let low : bit_or x 1 ≡ bit_or (x / 2) 0 * 2 + max (x % 2) 1 = bit_or_low x 1 in
    omega (arith, low, bit_or-zero (x / 2))

module _ (env : Env) (now : Timespec) where
  padded :
      (t : Talk) (before : List Packet) (v : ℕ) (b : Bridge)
      → IsTalking t before v b
      → IsTalking t before (round_up v) (pad_ptt env now 6 b)
  padded t before v b h =
      pad_on env now 6 t before v (round_up v) b h (omega arith) (omega arith) (omega arith)
        (omega arith)

  pub finish_last :
      (t : Talk) (before : List Packet) (v : ℕ) (b : Bridge)
      → IsTalking t before v b
      → (t.clearing && ltb 0 t.home) ≡ false
      → IsClosed t v before (connect_ptt_finish env now b)
  unfolding connect_ptt_finish send_silence bridge_tx_tg
  finish_last t before v b h last =
      let b1 = pad_ptt env now 6 b in
      let h1 = padded t before v b h in
      let same : (b.ptt.clearing && ltb 0 b.dmr.tg) ≡ (t.clearing && ltb 0 t.home) =
        ap₂ (λ c g. c && ltb 0 g) h.on_air.clearing h.on_air.home in
      rw (same, last, send_some env now b1 (vterm_type b1) (some dmr_silence_data) h1.on_air.has_id)
        (ground (
          arith,
          read_packet-dmrd_packet env b1 (vterm_type b1) (some dmr_silence_data) h1.on_air.small
              silence_sized,
        ))

  pub finish_next :
      (t : Talk) (before : List Packet) (v : ℕ) (b : Bridge)
      → IsTalking t before v b
      → (t.clearing && ltb 0 t.home) ≡ true
      → IsOpening (next_talk env now t) (closed_ptt t v before) 0 (connect_ptt_finish env now b)
  unfolding connect_ptt_finish send_silence bridge_tx_tg connect_ptt_begin_stream tx_rf_id
      new_stream_id
  finish_next t before v b h last =
      let b1 = pad_ptt env now 6 b in
      let h1 = padded t before v b h in
      let same : (b.ptt.clearing && ltb 0 b.dmr.tg) ≡ (t.clearing && ltb 0 t.home) =
        ap₂ (λ c g. c && ltb 0 g) h.on_air.clearing h.on_air.home in
      rw (same, last, send_some env now b1 (vterm_type b1) (some dmr_silence_data) h1.on_air.has_id)
        (ground (
          arith,
          new_stream_id_fits env b1,
          read_packet-dmrd_packet env b1 (vterm_type b1) (some dmr_silence_data) h1.on_air.small
              silence_sized,
        ))

  -- A PTT that starts on a free bridge.
  pub begin_opens :
      (b : Bridge) (tg : ℕ) (clearing : Bool)
      → 0 < tg
      → 0 < tx_rf_id b
      → IsOpening
          (new_talk env now b tg clearing)
          (frames_sent b)
          0
          (connect_ptt_begin_stream env now b tg clearing)
  unfolding connect_ptt_begin_stream tx_rf_id
  begin_opens b tg clearing has_tg has_id = ground (arith, new_stream_id_fits env b)
