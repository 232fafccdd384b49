-- ===== src/Bridge/Call.antt =====
-- bridge.c: a call in either direction, as far as the codec converter: DMRD packets that are taken
-- in, and the converter's frames that are sent out as DMRD packets.
pub mod Relay
pub mod Emit
use adn_bridge.Bridge.Send.{bridge_send_dmrd}
use adn_bridge.Bridge.Time.{Timespec}
use adn_bridge.Bridge.Dmrd.{
  read_id24, read_stream, dmrd_parse_b15, dmrd_is_header, byte_at, dmrd_is_terminator, dtype_vterm,
  dmrd_is_voice, is_dmrd, dtype_vhead,
}
use adn_bridge.PeerDmr.Wire.{codes}
use adn_bridge.Bridge.State.{
  Bridge, Env, ConvCall, reset, put_dmr_eot, put_dmr_header, new_stream_id, put_dmr_voice,
}
use adn_bridge.Bridge.ConnectPtt.{send_silence, send_vheads, vterm_type, voice_type}
use adn_bridge.Prelude.{
  none, some, ℕ, List, suc, take, [], replicate, false, Option, if◌then◌else◌, ◌+◌, ◌++◌, ◌∷◌, ltb,
  ◌==◌, not, u8, ◌%◌, ◌-◌, ◌/◌, true, ◌||◌, bit_or, zero, length, leb, ◌&&◌, ◌*◌, drop,
}

-- `snprintf("%d")`, of a number of at most `fuel` digits, in front of `rest`
unfoldable pub decimal : ℕ → ℕ → List ℕ → List ℕ
decimal zero n rest = rest
decimal (suc fuel) n rest =
    let digit = (48 + n % 10) ∷ rest in
    let more = decimal fuel (n / 10) digit in if n / 10 == 0 then digit else more

-- A text cut or filled with spaces to ten characters.
abbrev pub label10 : List ℕ → List ℕ
label10 text = take 10 text ++ replicate (10 - length text) 32

-- format_id_callsign10, of an id below 10 ^ 10
unfoldable pub format_id_callsign10 : ℕ → List ℕ
unfolding decimal
format_id_callsign10 id = label10 (decimal 10 id [])

-- format_tg_dst10
unfoldable pub format_tg_dst10 : ℕ → List ℕ
unfolding decimal
format_tg_dst10 tg = label10 (codes "TG " ++ decimal 10 tg [])

-- What modeconv_get_dmr returns, with the voice it writes.
pub data ConvTag : Type 0 where
  tag_nodata tag_header : ConvTag
  tag_eot : List ℕ → ConvTag
  tag_data : List ℕ → ConvTag

-- A call of the converter.
abbrev pub conv_call : Bridge → ConvCall → Bridge
conv_call b c = record b { conv = c ∷ b.conv }

abbrev pub blank10 : List ℕ
blank10 = replicate 10 32

-- bridge_reset_call
unfoldable pub reset_call : Bridge → Bridge
reset_call b =
    conv_call
      (record b {
        call_active = false;
        dmr_voice_frames = 0;
        dmr_tx_frames = 0;
        dmr_dmrd_other = 0;
        ysf_voice_frames = 0;
        ysf_rf_id = 0;
        ysf_cnt = 0;
        dmr_last_dtype = 0;
        dmra = record { rf = 0; blocks = replicate 4 (replicate 7 0); have = 0; text = [] };
        net_src = blank10;
        net_dst = blank10;
      })
      reset

module _ (env : Env) where
  -- `for (i = 0; i < 100; i++)`: the first of `n` ids from `id` on that the database knows
  unfoldable pub lookup_range : ℕ → ℕ → Option (List ℕ)
  lookup_range zero id = none
  lookup_range (suc n) id = elim (env.lookup_callsign id) [
    | some cs ↦ some cs
    | none ↦ lookup_range n (id + 1)
  ]

  -- bridge_lookup_dmr_callsign: the id itself, the id without two digits, then the hundred ids that
  -- a five digit one may be cut from
  unfoldable pub lookup_dmr_callsign : ℕ → Option (List ℕ)
  unfolding lookup_range
  lookup_dmr_callsign rf =
      let cut = if ltb 9999999 rf then env.lookup_callsign (rf / 100) else none in
      let wide = if leb 10000 rf && leb rf 99999 then lookup_range 100 (rf * 100) else none in
      if rf == 0 then none else elim (env.lookup_callsign rf) [
        | some cs ↦ some cs
        | none ↦ elim cut [ some cs ↦ some cs | none ↦ wide ]
      ]

  -- bridge_resolve_dmr_to_ysf_identity
  unfoldable pub resolve_dmr_to_ysf_identity : Bridge → ℕ → ℕ → Bridge
  unfolding lookup_dmr_callsign format_id_callsign10 format_tg_dst10
  resolve_dmr_to_ysf_identity b rf dst = record b {
    net_src = elim (lookup_dmr_callsign rf) [ some cs ↦ cs | none ↦ format_id_callsign10 rf ];
    net_dst = if ltb 0 dst then format_tg_dst10 dst else b.net_dst;
  }

  -- bridge_set_dmr_rx_identity
  unfoldable pub set_dmr_rx_identity : Bridge → List ℕ → Bridge
  unfolding read_id24 resolve_dmr_to_ysf_identity
  set_dmr_rx_identity b pkt = resolve_dmr_to_ysf_identity b (read_id24 pkt 5) (read_id24 pkt 8)

  -- bridge_begin_dmr_to_ysf
  unfoldable pub begin_dmr_to_ysf : Bridge → List ℕ → Bridge
  unfolding read_stream set_dmr_rx_identity
  begin_dmr_to_ysf b pkt =
      let fresh = read_stream pkt == 0 in
      let b1 = record b {
        call_active = true;
        dmr_stream_id = if fresh then new_stream_id env b else read_stream pkt;
        draws = if fresh then b.draws + 1 else b.draws;
        dmr_seq = 0;
        dmr_voice_frames = 0;
        dmr_tx_frames = 0;
        dmr_dmrd_other = 0;
        ysf_fn = 0;
        ysf_cnt = 0;
      } in
      set_dmr_rx_identity (conv_call b1 reset) pkt

  -- bridge_on_dmrd, of a header
  unfoldable pub on_header : Bridge → List ℕ → Bridge
  unfolding read_stream begin_dmr_to_ysf set_dmr_rx_identity
  on_header b pkt =
      let stream = read_stream pkt in
      let b1 =
        if not b.call_active || (not (stream == 0) && not (stream == b.dmr_stream_id))
        then begin_dmr_to_ysf b pkt
        else set_dmr_rx_identity b pkt in
      let b2 = if b1.dmr_last_dtype == dtype_vhead then b1 else conv_call b1 put_dmr_header in
      record b2 { dmr_last_dtype = dtype_vhead }

  -- bridge_on_dmrd, of a terminator
  unfoldable pub on_terminator : Bridge → Bridge
  on_terminator b = record (if b.call_active then conv_call b put_dmr_eot else b) {
    dmr_last_dtype = dtype_vterm;
  }

  -- bridge_on_dmrd, of a voice frame
  unfoldable pub on_voice : Bridge → List ℕ → Bridge
  unfolding begin_dmr_to_ysf dmrd_parse_b15
  on_voice b pkt =
      let b1 =
        if b.call_active
        then b
        else conv_call (record (begin_dmr_to_ysf b pkt) { dmr_seq = byte_at pkt 4 })
            put_dmr_header in
      record (conv_call b1 (put_dmr_voice (take 33 (drop 20 pkt)))) {
        dmr_voice_frames = b1.dmr_voice_frames + 1;
        dmr_last_dtype = (dmrd_parse_b15 (byte_at pkt 15)).1;
      }

  -- bridge_on_dmrd
  unfoldable pub bridge_on_dmrd : Bridge → List ℕ → Bridge
  unfolding on_header on_terminator on_voice
  bridge_on_dmrd b pkt =
      if not (is_dmrd pkt)
      then b
      else if dmrd_is_header pkt
      then on_header b pkt
      else if dmrd_is_terminator pkt
      then on_terminator b
      else if dmrd_is_voice pkt
      then on_voice b pkt
      else if b.call_active
      then record b { dmr_dmrd_other = b.dmr_dmrd_other + 1 }
      else b

  module _ (now : Timespec) where
    -- `while ((dmr_tx_frames % 6) != 0)`: at most five rounds
    unfoldable pub pad_call : ℕ → Bridge → Bridge
    pad_call zero b = b
    pad_call (suc fuel) b =
        let b1 = send_silence env now b (u8 (bit_or b.dmr_slot_bit (b.dmr_tx_frames % 6))) in
        let rest = pad_call fuel (record b1 { dmr_tx_frames = b.dmr_tx_frames + 1 }) in
        if b.dmr_tx_frames % 6 == 0 then b else rest

    -- bridge_emit_dmr_from_conv, by what modeconv_get_dmr returns
    unfoldable pub emit_dmr_from_conv : Bridge → ConvTag → Bridge
    unfolding pad_call reset_call
    emit_dmr_from_conv b tag_nodata = b
    emit_dmr_from_conv b tag_header = send_vheads env now 3 b
    emit_dmr_from_conv b (tag_eot voice) =
        let b1 = pad_call 6 b in
        reset_call (bridge_send_dmrd env b1 (vterm_type b1) (some voice) now)
    emit_dmr_from_conv b (tag_data voice) =
        let b1 = bridge_send_dmrd env b (voice_type b (b.dmr_tx_frames % 6)) (some voice) now in
        record b1 { dmr_tx_frames = b.dmr_tx_frames + 1 }
