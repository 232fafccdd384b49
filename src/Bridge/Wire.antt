-- ===== src/Bridge/Wire.antt =====
-- What a receiver reads from the packets that bridge_send_dmrd builds.
pub mod Kinds
pub mod Voice
use adn_bridge.Bridge.State.{Env, Bridge, bridge_tx_tg}
use adn_bridge.Bridge.Send.{dmrd_head, dmrd_packet, tx_rf_id}
use adn_bridge.Bridge.Dmrd.{read_id24, byte_at, read_stream, dmr_id_to_bytes3, dmr_id_rf24}
use adn_bridge.Prelude.{
  ℕ, List, bit_and, ◌<◌, ◌≡◌, bit_or, ◌<<<◌, ◌%◌, bit_and_mask, ◌*◌, ◌+◌, Option, ◌^◌, arith,
  bit_or_high, ◌/◌, ◌++◌, u8, ◌>>>◌,
}
use Prim.Native.Nat.{ℕ, bit_and, bit_or}

low_byte : (x : ℕ) → bit_and x 0xff ≡ x % 256
low_byte x = bit_and_mask 8 x

three_bytes :
    (x y z : ℕ)
    → x < 256
    → y < 256
    → z < 256
    → bit_or (bit_or (x <<< 16) (y <<< 8)) z ≡ x * 65536 + y * 256 + z
three_bytes x y z hx hy hz =
    let inner : bit_or (x <<< 16) (y <<< 8) ≡ (x * 256 + y) * 2 ^ 8 =
      omega (arith, bit_or_high 16 x (y * 256) (omega arith)) in
    rw inner (omega (arith, bit_or_high 8 (x * 256 + y) z hz))

-- The fields that a receiver of a DMRD packet reads.
pub record Frame : Type 0 where
  pub seq : ℕ
  pub src : ℕ
  pub dst : ℕ
  pub b15 : ℕ
  pub stream : ℕ

unfoldable pub read_frame : List ℕ → Frame
read_frame pkt = record {
  seq = byte_at pkt 4;
  src = read_id24 pkt 5;
  dst = read_id24 pkt 8;
  b15 = byte_at pkt 15;
  stream = read_stream pkt;
}

-- A number cut into three bytes, and read back.
split_three :
    (v x y z : ℕ)
    → x ≡ v / 2 ^ 16 % 256
    → y ≡ v / 2 ^ 8 % 256
    → z ≡ v % 256
    → bit_or (bit_or (x <<< 16) (y <<< 8)) z ≡ v % 2 ^ 24
split_three v x y z ex ey ez =
    omega (arith, three_bytes x y z (omega arith) (omega arith) (omega arith))

-- Of the head, whatever follows.
read_frame-head :
    (seq id tx_tg dmrid frame_type stream : ℕ) (rest : List ℕ)
    → stream < 2 ^ 32
    → read_frame (dmrd_head seq (dmr_id_to_bytes3 id) tx_tg dmrid frame_type stream ++ rest)
      ≡ record {
        seq = seq;
        src = dmr_id_rf24 id % 2 ^ 24;
        dst = tx_tg % 2 ^ 24;
        b15 = frame_type;
        stream = stream;
      }
unfolding read_frame read_id24 read_stream dmrd_head dmr_id_to_bytes3
read_frame-head seq id tx_tg dmrid frame_type stream rest fits =
    let v = dmr_id_rf24 id in
    let src =
      split_three v (u8 (bit_and (v >>> 16) 0xff)) (u8 (bit_and (v >>> 8) 0xff))
        (u8 (bit_and v 0xff)) (omega (arith, low_byte (v >>> 16)))
        (omega (arith, low_byte (v >>> 8))) (omega (arith, low_byte v)) in
    let dst =
      split_three tx_tg (bit_and (tx_tg >>> 16) 0xff) (bit_and (tx_tg >>> 8) 0xff)
        (bit_and (tx_tg >>> 0) 0xff) (omega (arith, low_byte (tx_tg >>> 16)))
        (omega (arith, low_byte (tx_tg >>> 8))) (omega (arith, low_byte (tx_tg >>> 0))) in
    let whole : stream % 256
          + stream / 2 ^ 8 % 256 * 2 ^ 8
          + stream / 2 ^ 16 % 256 * 2 ^ 16
          + stream / 2 ^ 24 % 256 * 2 ^ 24
        ≡ stream =
      omega arith in
    λ i. record { seq = seq; src = src i; dst = dst i; b15 = frame_type; stream = whole i }

-- A packet carries its sequence number, the talker's id and the talkgroup in 24 bits, its frame
-- type and its stream, whatever its burst.
pub read_frame-dmrd_packet :
    (env : Env) (b : Bridge) (frame_type : ℕ) (voice : Option (List ℕ))
    → b.dmr_stream_id < 2 ^ 32
    → read_frame (dmrd_packet env b frame_type voice).0 ≡ record {
      seq = b.dmr_seq;
      src = dmr_id_rf24 (tx_rf_id b) % 2 ^ 24;
      dst = bridge_tx_tg b % 2 ^ 24;
      b15 = frame_type;
      stream = b.dmr_stream_id;
    }
unfolding dmrd_packet
read_frame-dmrd_packet env b frame_type voice fits =
    read_frame-head b.dmr_seq (tx_rf_id b) (bridge_tx_tg b) b.dmr.dmrid frame_type b.dmr_stream_id _
      fits
