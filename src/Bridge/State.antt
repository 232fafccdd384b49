-- ===== src/Bridge/State.antt =====
-- bridge.h: the state of the YSF <-> DMR bridge, and what it takes from outside. The struct's
-- connect_ptt_* and dmra fields are records of their own here; `aliases` is in Env, and
-- default_ysf_dmrid, which nothing reads, is left out. An `int` id or counter is a natural number:
-- ysf2dmr_config_valid refuses an id or talkgroup below 1.
use adn_bridge.PeerYsf.State.{PeerYsf}
use adn_bridge.Bridge.Time.{Timespec}
use adn_bridge.PeerDmr.State.{PeerDmr}
use adn_bridge.Prelude.{Bool, ℕ, List, Option, if◌then◌else◌, bit_or, u32, ◌&&◌, ltb}
use Prim.Native.Nat.{ℕ, bit_or}

-- connect_ptt_*: the silent transmission that announces the talkgroup after a login
pub record ConnectPtt : Type 0 where
  pub active : Bool
  -- 0: VHEAD is due, 1: voice
  pub phase : ℕ
  pub voice_frames : ℕ
  pub tg : ℕ
  pub clearing : Bool
  pub start : Timespec

-- The talker alias blocks of one radio.
pub record Dmra : Type 0 where
  pub rf : ℕ
  pub blocks : List (List ℕ)
  pub have : ℕ
  pub text : List ℕ

-- A call of ModeConv, the codec converter under mmdvm/.
pub data ConvCall : Type 0 where
  init reset put_dmr_header put_dmr_eot put_ysf_header put_ysf_eot : ConvCall
  put_dmr_voice : List ℕ → ConvCall
  put_ysf_payload : List ℕ → ConvCall

pub record Bridge : Type 0 where
  pub dmr : PeerDmr
  pub ysf : PeerYsf
  pub dmr_stream_id : ℕ
  pub dmr_seq : ℕ
  pub dmr_slot_bit : ℕ
  pub ysf_fn : ℕ
  pub ysf_cnt : ℕ
  pub net_src : List ℕ
  pub net_dst : List ℕ
  pub ysf_rf_id : ℕ
  pub dmr_voice_frames : ℕ
  pub dmr_tx_frames : ℕ
  pub dmr_dmrd_other : ℕ
  pub ysf_voice_frames : ℕ
  pub call_active : Bool
  pub dmr_last_dtype : ℕ
  pub dmra : Dmra
  pub last_dmr_tx : Timespec
  pub last_ysf_tx : Timespec
  pub dmr_was_connected : Bool
  pub clear_dynamic_tg : Bool
  pub ptt : ConnectPtt
  -- the global emb_raw of hbp/dmr_hbp.c
  pub emb_raw : List Bool
  -- how often rand() was called
  pub draws : ℕ
  -- the calls of ModeConv, newest first
  pub conv : List ConvCall

-- What the functions take from outside: rand(), toupper(), the subscriber database of aliases.c,
-- the YSF payload codec under mmdvm/ (ysf_payload_*), and what the stack holds in bytes 20 to 54 of
-- bridge_send_dmrd's packet buffer, of which nothing writes the last two.
pub record Env : Type 0 where
  pub rand : ℕ → ℕ
  pub lookup_id : List ℕ → ℕ
  pub lookup_callsign : ℕ → Option (List ℕ)
  pub process_header : List ℕ → Option (List ℕ × List ℕ)
  pub write_header : List ℕ → List ℕ → List ℕ → List ℕ
  pub write_dch : List ℕ → List ℕ → List ℕ
  pub toupper : ℕ → ℕ
  pub unwritten : List ℕ

-- new_stream_id
unfoldable pub new_stream_id : Env → Bridge → ℕ
new_stream_id env b = bit_or (u32 (env.rand b.draws)) 1

-- bridge_tx_tg
unfoldable pub bridge_tx_tg : Bridge → ℕ
bridge_tx_tg b = if b.ptt.active && ltb 0 b.ptt.tg then b.ptt.tg else b.dmr.tg
