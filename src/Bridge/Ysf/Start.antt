-- ===== src/Bridge/Ysf/Start.antt =====
-- bridge.c: the start of the bridge, and the talker alias that it collects.
use adn_bridge.PeerDmr.Wire.{codes}
use adn_bridge.Bridge.Call.{blank10}
use adn_bridge.Bridge.Time.{Timespec}
use adn_bridge.Bridge.State.{Dmra, Bridge, init}
use adn_bridge.PeerYsf.State.{PeerYsf}
use adn_bridge.TalkerAlias.{dmra_parse_packet, dmra_decode_blocks, DmraPacket}
use adn_bridge.PeerDmr.State.{PeerDmr, disconnected}
use adn_bridge.Prelude.{
  true, false, if◌then◌else◌, ◌∷◌, [], none, some, ℕ, replicate, Bool, List, set, Option, bit_or,
  take, ◌<<<◌, not, ◌==◌, ◌&&◌,
}

-- dmr_slot_bit_from_options
abbrev pub dmr_slot_bit_from_options : ℕ
dmr_slot_bit_from_options = 0x80

-- What `memset` leaves of the two connections, which are opened later.
abbrev zero_dmr : PeerDmr
zero_dmr = record {
  callsign = replicate 10 0;
  dmrid = 0;
  tg = 0;
  options = [];
  password = [];
  description = [];
  location = [];
  software_id = [];
  package_id = [];
  slots = 0;
  status = disconnected;
  login_phase = 0;
  login_fail_until = 0;
  connect_status = disconnected;
  pong_time = 0;
  buf = [];
  sent = [];
}

-- A descriptor of 0 is one.
abbrev zero_ysf : PeerYsf
zero_ysf = record {
  is_open = true;
  callsign = replicate 10 0;
  dgid = 0;
  linked = false;
  reconnect_pending = false;
  last_rx = 0;
  sent = [];
}

abbrev pub zero_dmra : Dmra
zero_dmra = record { rf = 0; blocks = replicate 4 (replicate 7 0); have = 0; text = [] }

-- bridge_init, before anything of the codec and with `emb_raw` as it stands
unfoldable pub bridge_init : Bool → List Bool → Timespec → Bridge
bridge_init clear_dynamic_tg emb_raw now = record {
  dmr = zero_dmr;
  ysf = zero_ysf;
  dmr_stream_id = 0;
  dmr_seq = 0;
  dmr_slot_bit = dmr_slot_bit_from_options;
  ysf_fn = 0;
  ysf_cnt = 0;
  net_src = blank10;
  net_dst = codes "ALL       ";
  ysf_rf_id = 0;
  dmr_voice_frames = 0;
  dmr_tx_frames = 0;
  dmr_dmrd_other = 0;
  ysf_voice_frames = 0;
  call_active = false;
  dmr_last_dtype = 0;
  dmra = zero_dmra;
  last_dmr_tx = now;
  last_ysf_tx = now;
  dmr_was_connected = false;
  clear_dynamic_tg = clear_dynamic_tg;
  ptt = record {
    active = false;
    phase = 0;
    voice_frames = 0;
    tg = 0;
    clearing = false;
    start = record { sec = 0; nsec = 0 };
  };
  emb_raw = emb_raw;
  draws = 0;
  conv = init ∷ [];
}

-- The block of a packet in its place.
unfoldable pub put_block : Dmra → DmraPacket → Dmra
put_block d p = record d {
  rf = p.rf;
  blocks = set d.blocks p.block_id p.payload;
  have = bit_or d.have (1 <<< p.block_id);
}

-- A decoded text, in an array of 32.
unfoldable pub keep_text : Dmra → Option (List ℕ) → Dmra
keep_text d none = d
keep_text d (some text) = record d { text = take 31 text }

unfoldable pub on_dmra_packet : Bool → List ℕ → Bridge → Option DmraPacket → Bridge
on_dmra_packet char_signed beyond b none = b
on_dmra_packet char_signed beyond b (some p) =
    let old = if not (b.dmra.rf == 0) && not (b.dmra.rf == p.rf) then zero_dmra else b.dmra in
    let d = put_block old p in
    record b { dmra = keep_text d (dmra_decode_blocks char_signed beyond d.blocks d.have 32) }

-- bridge_on_dmra
unfoldable pub bridge_on_dmra : Bool → List ℕ → Bridge → List ℕ → Bridge
bridge_on_dmra char_signed beyond b pkt =
    on_dmra_packet char_signed beyond b (dmra_parse_packet pkt)
