-- ===== src/Bridge/Send.antt =====
-- bridge.c: bridge_send_dmrd, which builds and sends one DMRD packet.
use adn_bridge.Prelude.{none, some, replicate, drop, take}
use adn_bridge.PeerDmr.State.{peer_dmr_send}
use adn_bridge.Bridge.Time.{Timespec}
use adn_bridge.Prelude.{
  ℕ, List, if◌then◌else◌, Option, ltb, Bool, ◌++◌, ◌==◌, ◌∷◌, bit_and, [], ◌>>>◌, u8, ◌+◌,
}
use adn_bridge.Hbp.Embedded.{encode_embedded_data, get_embedded_data, get_emb_data}
use adn_bridge.PeerDmr.Wire.{id_bytes, codes}
use Prim.Native.Nat.{ℕ, bit_and}
use adn_bridge.Bridge.State.{Bridge, Env, bridge_tx_tg}
use adn_bridge.Hbp.Header.{generate_header}
use adn_bridge.Bridge.Dmrd.{
  stream_bytes, put_sync, dmr_id_to_bytes3, dmr_id_rf24, ft_data_sync, ft_voice_sync, dmr_sync_mask,
  ms_sourced_audio_sync,
}

-- The first twenty bytes, but for the sequence number at 4.
unfoldable pub dmrd_head : ℕ → List ℕ → ℕ → ℕ → ℕ → ℕ → List ℕ
unfolding stream_bytes id_bytes
dmrd_head seq rf tx_tg dmrid frame_type stream =
    codes "DMRD"
    ++ (seq ∷ [])
    ++ rf
    ++ (bit_and (tx_tg >>> 16) 0xff ∷ bit_and (tx_tg >>> 8) 0xff ∷ bit_and (tx_tg >>> 0) 0xff ∷ [])
    ++ id_bytes dmrid
    ++ (frame_type ∷ [])
    ++ stream_bytes stream

-- The burst, and the embedded data that it leaves for the frames to come. `voice` is the argument
-- voice33, none for NULL.
unfoldable pub dmrd_burst : List ℕ → ℕ → Option (List ℕ) → ℕ → ℕ → List Bool → List ℕ × List Bool
unfolding generate_header encode_embedded_data get_embedded_data get_emb_data put_sync
dmrd_burst head frame_type voice tx_tg src_id emb =
    if bit_and (frame_type >>> 4) 0x03 == ft_data_sync
    then (generate_header head, emb)
    else elim voice [
      | none ↦ (replicate 33 0, emb)
      | some v ↦
          if bit_and (frame_type >>> 4) 0x03 == ft_voice_sync
          then (
            put_sync dmr_sync_mask ms_sourced_audio_sync 13 v,
            encode_embedded_data tx_tg src_id,
          )
          else (let (d, lcss) = get_embedded_data emb v (bit_and frame_type 0x0f) in
              (get_emb_data d lcss, emb))
    ]

-- The id that frames carry: the talker's, or else the bridge's own.
unfoldable pub tx_rf_id : Bridge → ℕ
tx_rf_id b = if ltb 0 b.ysf_rf_id then b.ysf_rf_id else b.dmr.dmrid

-- The packet of bridge_send_dmrd.
unfoldable pub dmrd_packet : Env → Bridge → ℕ → Option (List ℕ) → List ℕ × List Bool
dmrd_packet env b frame_type voice =
    let rf_id = tx_rf_id b in
    let tx_tg = bridge_tx_tg b in
    let head =
      dmrd_head b.dmr_seq (dmr_id_to_bytes3 rf_id) tx_tg b.dmr.dmrid frame_type b.dmr_stream_id in
    let (burst, emb) = dmrd_burst head frame_type voice tx_tg (dmr_id_rf24 rf_id) b.emb_raw in
    (head ++ (burst ++ drop 33 env.unwritten), emb)

-- What bridge_send_dmrd leaves in the global `buf`, which peer_dmr.c receives into: the packet as
-- it was copied there before its burst was written, or with the burst where that is made in `buf`.
unfoldable pub dmrd_buf : Env → Bridge → ℕ → Option (List ℕ) → List ℕ
unfolding dmrd_packet
dmrd_buf env b frame_type voice =
    let packet = (dmrd_packet env b frame_type voice).0 in
    let copied = take 20 packet ++ env.unwritten in
    let ft = bit_and (frame_type >>> 4) 0x03 in
    let left =
      if ft == ft_data_sync
      then packet
      else elim voice [ none ↦ copied | some v ↦ if ft == ft_voice_sync then copied else packet ] in
    left ++ drop 55 b.dmr.buf

unfoldable pub bridge_send_dmrd : Env → Bridge → ℕ → Option (List ℕ) → Timespec → Bridge
bridge_send_dmrd env b frame_type voice now =
    if tx_rf_id b == 0
    then b
    else (let (packet, emb) = dmrd_packet env b frame_type voice in
        record b {
          dmr = peer_dmr_send (record (b.dmr) { buf = dmrd_buf env b frame_type voice }) packet;
          dmr_seq = u8 (b.dmr_seq + 1);
          last_dmr_tx = now;
          emb_raw = emb;
        })
