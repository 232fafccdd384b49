-- ===== src/Bridge/Ysf/Receive.antt =====
-- bridge.c: YSF frames that are taken in. m_fich of ysf_fich.c is an argument and a result;
-- `scratch` is the array that fich_decode leaves uninitialised.
use adn_bridge.PeerDmr.Wire.{has_tag, codes}
use adn_bridge.Fich.Fields.{ysf_fich_decode_fields, ysf_fich_get_dgid}
use adn_bridge.Bridge.Call.{conv_call}
use adn_bridge.Bridge.Ysf.Talker.{resolve_ysf_header, ysf_talker_ready, ysf_modeconv_chunk}
use adn_bridge.Bridge.ConnectPtt.{abort_connect_ptt}
use adn_bridge.Bridge.Time.{Timespec}
use adn_bridge.Bridge.State.{
  Env, Bridge, new_stream_id, put_ysf_eot, put_ysf_payload, put_ysf_header, reset,
}
use adn_bridge.Prelude.{
  true, if◌then◌else◌, ℕ, List, Bool, length, leb, ◌==◌, ◌&&◌, not, ◌+◌, get_or,
}

-- The kinds of a frame, and what an unknown one is.
abbrev pub fi_header : ℕ
fi_header = 0

abbrev pub fi_communications : ℕ
fi_communications = 1

abbrev pub fi_terminator : ℕ
fi_terminator = 2

-- The frame is the reflector's, and its tag is not that of another room.
unfoldable pub is_ysfd : List ℕ → Bool
is_ysfd pkt = (length pkt == 155) && has_tag pkt (codes "YSFD")

unfoldable pub other_room : ℕ → ℕ → Bool
other_room dgid rx_dgid = leb 1 dgid && leb 1 rx_dgid && not (rx_dgid == dgid)

module _ (env : Env) (now : Timespec) where
  -- A call starts: a connect PTT gives way, and the converter is reset.
  unfoldable pub start_ysf_call : Bridge → List ℕ → Bridge
  start_ysf_call b pkt =
      let b1 = abort_connect_ptt env now b in
      conv_call
        (record b1 {
          call_active = true;
          dmr_stream_id = new_stream_id env b1;
          draws = b1.draws + 1;
          dmr_seq = 0;
          dmr_tx_frames = 0;
          dmr_voice_frames = 0;
          ysf_fn = get_or pkt 48 0;
        })
        reset

  -- bridge_on_ysfd, of a header
  unfoldable pub on_ysf_header : Bridge → List ℕ → Bridge
  on_ysf_header b pkt =
      let (found, b1) = resolve_ysf_header env b pkt in
      let b2 = if b1.call_active then b1 else start_ysf_call b1 pkt in
      if not (found && ysf_talker_ready b1) then b1 else conv_call b2 put_ysf_header

  -- bridge_on_ysfd, of a terminator
  unfoldable pub on_ysf_terminator : Bridge → Bridge
  on_ysf_terminator b = if b.call_active then conv_call b put_ysf_eot else b

  -- bridge_on_ysfd, of a voice frame
  unfoldable pub on_ysf_voice : Bridge → List ℕ → Bridge
  on_ysf_voice b pkt =
      let started = record (start_ysf_call b pkt) { ysf_voice_frames = 0 } in
      let b1 = if b.call_active then b else started in
      let b2 = conv_call b1 (put_ysf_payload (ysf_modeconv_chunk pkt)) in
      if ysf_talker_ready b then record b2 { ysf_voice_frames = b1.ysf_voice_frames + 1 } else b

  unfoldable pub on_ysf_frame : ℕ → Bridge → List ℕ → Bridge
  on_ysf_frame fi b pkt =
      if fi == fi_header
      then on_ysf_header b pkt
      else if fi == fi_terminator
      then on_ysf_terminator b
      else if fi == fi_communications
      then on_ysf_voice b pkt
      else b

  -- bridge_on_ysfd
  unfoldable pub bridge_on_ysfd : List ℕ → List ℕ → Bridge → List ℕ → List ℕ × Bridge
  bridge_on_ysfd scratch fich b pkt =
      let (rx_fich, fields) = ysf_fich_decode_fields scratch pkt in
      if not (is_ysfd pkt)
      then (fich, b)
      else if other_room b.ysf.dgid (ysf_fich_get_dgid rx_fich)
      then (rx_fich, b)
      else (rx_fich, on_ysf_frame fields.fi b pkt)
