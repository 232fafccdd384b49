-- ===== src/Bridge/Dmrd.antt =====
-- bridge.c: DMRD packets, taken apart and built. A packet is the list of its bytes.
use adn_bridge.PeerDmr.Wire.{has_tag, codes}
use adn_bridge.Prelude.{
  ℕ, List, get_or, Bool, u8, if◌then◌else◌, ◌∷◌, bit_and, bit_or, ◌+◌, ◌>>>◌, length, ◌&&◌, ◌<<<◌,
  ltb, [], set, ◌*◌, ◌==◌, ◌^◌, ◌/◌, ◌-◌, leb,
}
use Prim.Native.Nat.{ℕ, bit_and, bit_or}

abbrev pub ft_voice_sync : ℕ
ft_voice_sync = 1

abbrev pub ft_data_sync : ℕ
ft_data_sync = 2

abbrev pub dtype_vhead : ℕ
dtype_vhead = 1

abbrev pub dtype_vterm : ℕ
dtype_vterm = 2

abbrev pub byte_at : List ℕ → ℕ → ℕ
byte_at pkt i = get_or pkt i 0

-- dmrd_parse_b15: frame type and data type
unfoldable pub dmrd_parse_b15 : ℕ → ℕ × ℕ
dmrd_parse_b15 b15 = (bit_and (b15 >>> 4) 0x03, bit_and b15 0x0f)

-- `len == 55 && memcmp(pkt, "DMRD", 4) == 0`
unfoldable pub is_dmrd : List ℕ → Bool
is_dmrd pkt = (length pkt == 55) && has_tag pkt (codes "DMRD")

-- dmrd_is_voice
unfoldable pub dmrd_is_voice : List ℕ → Bool
unfolding is_dmrd dmrd_parse_b15
dmrd_is_voice pkt =
    is_dmrd pkt && (bit_and (byte_at pkt 15) 0x40 == 0) && leb (dmrd_parse_b15 (byte_at pkt 15)).0 1

-- dmrd_is_header
unfoldable pub dmrd_is_header : List ℕ → Bool
unfolding is_dmrd dmrd_parse_b15
dmrd_is_header pkt =
    is_dmrd pkt
    && (bit_and (byte_at pkt 15) 0x40 == 0)
    && ((dmrd_parse_b15 (byte_at pkt 15)).0 == ft_data_sync)
    && ((dmrd_parse_b15 (byte_at pkt 15)).1 == dtype_vhead)

-- dmrd_is_terminator
unfoldable pub dmrd_is_terminator : List ℕ → Bool
unfolding is_dmrd dmrd_parse_b15
dmrd_is_terminator pkt =
    is_dmrd pkt
    && ((dmrd_parse_b15 (byte_at pkt 15)).0 == ft_data_sync)
    && ((dmrd_parse_b15 (byte_at pkt 15)).1 == dtype_vterm)

-- `(pkt[i] << 16) | (pkt[i + 1] << 8) | pkt[i + 2]`
unfoldable pub read_id24 : List ℕ → ℕ → ℕ
read_id24 pkt i =
    bit_or (bit_or (byte_at pkt i <<< 16) (byte_at pkt (i + 1) <<< 8)) (byte_at pkt (i + 2))

-- `*(const uint32_t *)(pkt + 16)`, on a little-endian host
unfoldable pub read_stream : List ℕ → ℕ
read_stream pkt =
    byte_at pkt 16 + byte_at pkt 17 * 2 ^ 8 + byte_at pkt 18 * 2 ^ 16 + byte_at pkt 19 * 2 ^ 24

unfoldable pub stream_bytes : ℕ → List ℕ
stream_bytes id = u8 id ∷ u8 (id >>> 8) ∷ u8 (id >>> 16) ∷ u8 (id >>> 24) ∷ []

-- dmr_id_rf24
unfoldable pub dmr_id_rf24 : ℕ → ℕ
dmr_id_rf24 dmrid = if ltb 99999999 dmrid then dmrid / 100 else dmrid

-- dmr_id_to_bytes3
unfoldable pub dmr_id_to_bytes3 : ℕ → List ℕ
unfolding dmr_id_rf24
dmr_id_to_bytes3 dmrid =
    let id = dmr_id_rf24 dmrid in
    u8 (bit_and (id >>> 16) 0xff) ∷ u8 (bit_and (id >>> 8) 0xff) ∷ u8 (bit_and id 0xff) ∷ []

-- MS_SOURCED_AUDIO_SYNC, DMR_SYNC_MASK, DMR_SILENCE_DATA
unfoldable pub ms_sourced_audio_sync : List ℕ
ms_sourced_audio_sync = 0x07 ∷ 0xf7 ∷ 0xd5 ∷ 0xdd ∷ 0x57 ∷ 0xdf ∷ 0xd0 ∷ []

unfoldable pub dmr_sync_mask : List ℕ
dmr_sync_mask = 0x0f ∷ 0xff ∷ 0xff ∷ 0xff ∷ 0xff ∷ 0xff ∷ 0xf0 ∷ []

unfoldable pub dmr_silence_data : List ℕ
dmr_silence_data =
    0xb9 ∷ 0xe8 ∷ 0x81 ∷ 0x52 ∷ 0x61 ∷ 0x73 ∷ 0x00 ∷ 0x2a ∷ 0x6b ∷ 0xb9 ∷ 0xe8 ∷ 0x81 ∷ 0x52 ∷ 0x60
    ∷ 0x00 ∷ 0x00 ∷ 0x00 ∷ 0x00 ∷ 0x00 ∷ 0x01 ∷ 0x73 ∷ 0x00 ∷ 0x2a ∷ 0x6b ∷ 0xb9 ∷ 0xe8 ∷ 0x81
    ∷ 0x52 ∷ 0x61 ∷ 0x73 ∷ 0x00 ∷ 0x2a ∷ 0x6b ∷ []

-- The loop over the sync field: `d[i] = (d[i] & ~mask[j]) | sync[j]`, from `i` on.
unfoldable pub put_sync : List ℕ → List ℕ → ℕ → List ℕ → List ℕ
put_sync [] sync i d = d
put_sync (m ∷ ms) [] i d = d
put_sync (m ∷ ms) (s ∷ ss) i d =
    put_sync ms ss (i + 1) (set d i (u8 (bit_or (bit_and (byte_at d i) (255 - m)) s)))
