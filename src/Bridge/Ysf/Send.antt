-- ===== src/Bridge/Ysf/Send.antt =====
-- bridge.c: the converter's frames that are sent out to YSF, and the rest of the main loop's calls.
use adn_bridge.PeerDmr.State.{peer_dmr_connected}
use adn_bridge.PeerYsf.Link.{peer_ysf_send_ysfd, peer_ysf_linked}
use adn_bridge.Bridge.ConnectPtt.{poll_connect_ptt, dmr_frame_ms}
use adn_bridge.Fich.Fields.{ysf_sync_word, offset_net, ysf_fich_encode_outbound, offset_rx}
use adn_bridge.Bridge.Call.{ConvTag, reset_call, emit_dmr_from_conv}
use adn_bridge.Bridge.Ysf.Receive.{fi_header, fi_terminator, fi_communications}
use adn_bridge.Bridge.Time.{Timespec, ms_elapsed}
use adn_bridge.PeerDmr.Wire.{codes}
use adn_bridge.Bridge.State.{Bridge, Env}
use adn_bridge.Prelude.{
  if◌then◌else◌, ◌∷◌, [], List, ℕ, replicate, ◌==◌, ◌++◌, splice, u8, u32, bit_and, drop, take, ◌+◌,
  ◌<<<◌, not, ◌^◌, ◌&&◌, ◌-◌, ◌%◌,
}

-- What modeconv_get_ysf returns, with the payload it writes.
pub data YsfTag : Type 0 where
  ysf_nodata ysf_header ysf_eot : YsfTag
  ysf_data : List ℕ → YsfTag

-- YSF_DCH_DT1 and YSF_DCH_DT2
abbrev pub ysf_dch_dt1 : List ℕ
ysf_dch_dt1 = 1 ∷ 34 ∷ 97 ∷ 95 ∷ 43 ∷ 3 ∷ 17 ∷ 0 ∷ 0 ∷ 0 ∷ []

abbrev pub ysf_dch_dt2 : List ℕ
ysf_dch_dt2 = 0 ∷ 0 ∷ 0 ∷ 0 ∷ 108 ∷ 32 ∷ 28 ∷ 32 ∷ 3 ∷ 8 ∷ []

-- YSF_FICH_FT and YSF_FICH_CM
abbrev pub ysf_fich_ft : ℕ
ysf_fich_ft = 6

abbrev pub ysf_fich_cm : ℕ
ysf_fich_cm = 0

-- DMR_FRAME_MS is in ConnectPtt.
abbrev pub ysf_frame_ms : ℕ
ysf_frame_ms = 90

-- radio_id_to_dch5
abbrev pub radio_id_to_dch5 : List ℕ
radio_id_to_dch5 = replicate 5 42

-- bridge_fill_ysf_csd: csd1 and csd2
unfoldable pub fill_ysf_csd : Bridge → List ℕ × List ℕ
fill_ysf_csd b = (replicate 5 42 ++ (radio_id_to_dch5 ++ b.net_src), replicate 20 32)

-- The slot that bridge_apply_ysf_dch_slot writes.
unfoldable pub ysf_dch : ℕ → Bridge → List ℕ
ysf_dch fn b =
    if fn == 0
    then replicate 5 42 ++ radio_id_to_dch5
    else if fn == 1
    then b.net_src
    else if fn == 2
    then b.net_dst
    else if fn == 5
    then replicate 5 32 ++ radio_id_to_dch5
    else if fn == 6
    then ysf_dch_dt1
    else if fn == 7
    then ysf_dch_dt2
    else replicate 10 32

-- bridge_fill_ysfd_headers, with the counter that bridge_send_ysfd writes behind it
unfoldable pub ysfd_headers : Bridge → ℕ → List ℕ
ysfd_headers b net_cnt =
    codes "YSFD" ++ (b.ysf.callsign ++ (b.net_src ++ (codes "ALL       " ++ (net_cnt ∷ []))))

-- A header or a terminator, or a voice frame.
pub data YsfBody : Type 0 where
  csd_body : List ℕ → List ℕ → YsfBody
  voice_body : List ℕ → YsfBody

-- What the functions do not initialise: the arrays of the coding in ysf_fich.c.
pub record Unset : Type 0 where
  pub output : List ℕ
  pub scratch : List ℕ
  pub convolved : List ℕ

-- `(uint8_t)((b->ysf_cnt - 1U) % (YSF_FICH_FT + 1U))`, in 32 bits
unfoldable pub voice_fn : Bridge → ℕ
voice_fn b = u8 (u32 (b.ysf_cnt + 2 ^ 32 - 1) % (ysf_fich_ft + 1))

unfoldable pub voice_net : Bridge → ℕ
voice_net b = u8 (bit_and b.ysf_cnt 0x7F <<< 1)

module _ (env : Env) (unset : Unset) (now : Timespec) where
  -- `frame` of bridge_send_ysfd from byte 35 on, before the channel is written
  unfoldable pub ysfd_body : ℕ → Bridge → YsfBody → List ℕ
  ysfd_body fn b (csd_body csd1 csd2) = splice 0 ysf_sync_word (replicate 120 0)
  ysfd_body fn b (voice_body payload) =
      env.write_dch (splice 0 ysf_sync_word payload) (ysf_dch fn b)

  unfoldable pub write_csd : YsfBody → List ℕ → List ℕ
  write_csd (csd_body csd1 csd2) frame =
      splice offset_net (env.write_header (drop offset_net frame) csd1 csd2) frame
  write_csd (voice_body payload) frame = frame

  -- bridge_send_ysfd: m_fich, and the bridge. Its log may decode the frame into m_fich once more,
  -- which every function that reads m_fich decodes or fills before.
  unfoldable pub bridge_send_ysfd : List ℕ → Bridge → ℕ → ℕ → ℕ → YsfBody → List ℕ × Bridge
  bridge_send_ysfd fich b fi fn net_cnt body =
      let blank = ysfd_headers b net_cnt ++ ysfd_body fn b body in
      let coded =
        ysf_fich_encode_outbound unset.scratch (take 25 (drop offset_rx blank)) fn fi ysf_fich_ft
          ysf_fich_cm in
      let frame = write_csd body (splice offset_rx coded.1 blank) in
      let (sent_fich, ysf) = peer_ysf_send_ysfd unset.output unset.convolved coded.0 b.ysf frame in
      (sent_fich, record b { ysf = ysf; ysf_fn = u8 (b.ysf_fn + 2); last_ysf_tx = now })

  -- bridge_emit_ysf_from_conv, by what modeconv_get_ysf returns
  unfoldable pub emit_ysf_from_conv : List ℕ → Bridge → YsfTag → List ℕ × Bridge
  emit_ysf_from_conv fich b ysf_nodata = (fich, b)
  emit_ysf_from_conv fich b ysf_header =
      let b0 = record b { ysf_cnt = 0 } in
      let (csd1, csd2) = fill_ysf_csd b0 in
      let (f, b1) = bridge_send_ysfd fich b0 fi_header 0 0 (csd_body csd1 csd2) in
      (f, record b1 { ysf_cnt = 1 })
  emit_ysf_from_conv fich b ysf_eot =
      let (csd1, csd2) = fill_ysf_csd b in
      let (f, b1) = bridge_send_ysfd fich b fi_terminator 0 b.ysf_cnt (csd_body csd1 csd2) in
      (f, reset_call b1)
  emit_ysf_from_conv fich b (ysf_data payload) =
      let (f, b1) =
        bridge_send_ysfd fich b fi_communications (voice_fn b) (voice_net b) (voice_body payload) in
      (f, record b1 { ysf_cnt = u8 (b1.ysf_cnt + 1) })

  -- bridge_tick, with what the converter returns if it is asked
  unfoldable pub bridge_tick : List ℕ → Bridge → ConvTag → YsfTag → List ℕ × Bridge
  bridge_tick fich b dmr_tag ysf_tag =
      let b1 = poll_connect_ptt env now b in
      let b2 =
        if not b1.ptt.active && ms_elapsed b1.last_dmr_tx now dmr_frame_ms
        then emit_dmr_from_conv env now b1 dmr_tag
        else b1 in
      let sent = emit_ysf_from_conv fich b2 ysf_tag in
      if not (peer_dmr_connected b1.dmr && peer_ysf_linked b1.ysf)
      then (fich, b1)
      else if ms_elapsed b2.last_ysf_tx now ysf_frame_ms
      then sent
      else (fich, b2)
