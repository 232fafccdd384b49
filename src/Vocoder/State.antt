-- ===== src/Vocoder/State.antt =====
-- vocoder.h: the state of the client, and what the server does.
use adn_bridge.Prelude.{List, Bool, ℕ, ◌∷◌, []}
use Prim.Native.Nat.{ℕ}

-- What happens on a request: nothing comes in time, the request cannot be sent, the socket cannot
-- be read, or a datagram comes. What voc_drain throws away before a request is not among these.
pub data Answer : Type 0 where
  silence : Answer
  send_refused : Answer
  read_refused : Answer
  datagram : List ℕ → Answer

-- A request with the milliseconds that its answer is waited for.
pub record Request : Type 0 where
  pub packet : List ℕ
  pub timeout_ms : ℕ

-- vocoder_t with the file's counters, but those of the log.
pub record Vocoder : Type 0 where
  -- `sock >= 0`
  pub is_open : Bool
  pub ready : Bool
  pub consec_fail : ℕ
  pub enc_ok : ℕ
  pub enc_fail : ℕ
  pub dec_ok : ℕ
  pub dec_fail : ℕ
  -- newest first
  pub requests : List Request
  pub answers : List Answer

-- VOC_PCM_SAMPLES and VOC_AMBE_BYTES
abbrev pub pcm_samples : ℕ
pcm_samples = 160

abbrev pub ambe_bytes : ℕ
ambe_bytes = 7

-- DV3K_START, the types and the fields
abbrev pub dv3k_start : ℕ
dv3k_start = 0x61

abbrev pub dv3k_type_ambe : ℕ
dv3k_type_ambe = 1

abbrev pub dv3k_type_audio : ℕ
dv3k_type_audio = 2

abbrev pub dv3k_ambe_field : ℕ
dv3k_ambe_field = 1

abbrev pub dv3k_audio_field : ℕ
dv3k_audio_field = 0

-- DV3K_PRODID_REQ and DV3K_RATET_DMR
abbrev pub prodid_req : List ℕ
prodid_req = 0x61 ∷ 0 ∷ 1 ∷ 0 ∷ 0x30 ∷ []

abbrev pub ratet_dmr : List ℕ
ratet_dmr = 0x61 ∷ 0 ∷ 2 ∷ 0 ∷ 9 ∷ 0x22 ∷ []
