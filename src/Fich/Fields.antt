-- ===== src/Fich/Fields.antt =====
-- ysf_fich.c: the fields of the channel, and the functions that the connections call.
-- `scratch` stands for the arrays that the codec leaves uninitialised.
pub mod Rewrite
pub mod Outbound
pub mod Wire
pub mod Tests
use adn_bridge.Fich.Frame.{fich_encode, fich_decode}
use adn_bridge.Prelude.{
  get_or, ℕ, Bool, List, set, bit_and, if◌then◌else◌, take, splice, ◌∷◌, replicate, bit_or, ◌<<<◌,
  leb, drop, ltb, [], ◌>>>◌, false, true, ◌==◌, ◌&&◌,
}

-- The setters: `m_fich[k] &= keep; m_fich[k] |= bits`
abbrev pub put_field : ℕ → ℕ → ℕ → List ℕ → List ℕ
put_field k keep bits fich = set fich k (bit_or (bit_and (get_or fich k 0) keep) bits)

unfoldable pub fich_set_dt : ℕ → List ℕ → List ℕ
fich_set_dt dt fich = put_field 2 0xFC (bit_and dt 0x03) fich

unfoldable pub fich_set_fi : ℕ → List ℕ → List ℕ
fich_set_fi fi fich = put_field 0 0x3F (bit_and (fi <<< 6) 0xC0) fich

unfoldable pub fich_set_cs : ℕ → List ℕ → List ℕ
fich_set_cs cs fich = put_field 0 0xCF (bit_and (cs <<< 4) 0x30) fich

unfoldable pub fich_set_cm : ℕ → List ℕ → List ℕ
fich_set_cm cm fich = put_field 0 0xF3 (bit_and (cm <<< 2) 0x0C) fich

unfoldable pub fich_set_fn : ℕ → List ℕ → List ℕ
fich_set_fn fn fich = put_field 1 0xC7 (bit_and (fn <<< 3) 0x38) fich

unfoldable pub fich_set_ft : ℕ → List ℕ → List ℕ
fich_set_ft ft fich = put_field 1 0xF8 (bit_and ft 0x07) fich

unfoldable pub fich_set_mr : ℕ → List ℕ → List ℕ
fich_set_mr mr fich = put_field 2 0xC7 (bit_and (mr <<< 3) 0x38) fich

unfoldable pub fich_set_voip : Bool → List ℕ → List ℕ
fich_set_voip true fich = set fich 2 (bit_or (get_or fich 2 0) 0x04)
fich_set_voip false fich = set fich 2 (bit_and (get_or fich 2 0) 0xFB)

unfoldable pub fich_set_sql : Bool → List ℕ → List ℕ
fich_set_sql true fich = set fich 3 (bit_or (get_or fich 3 0) 0x80)
fich_set_sql false fich = set fich 3 (bit_and (get_or fich 3 0) 0x7F)

unfoldable pub fich_set_sq : ℕ → List ℕ → List ℕ
fich_set_sq sq fich = put_field 3 0x80 (bit_and sq 0x7F) fich

unfoldable pub fich_set_dgid : ℕ → List ℕ → List ℕ
fich_set_dgid dgid fich = if leb 1 dgid then set fich 3 dgid else set fich 3 0

abbrev pub dt_vd_mode2 : ℕ
dt_vd_mode2 = 2

abbrev pub offset_net : ℕ
offset_net = 35

abbrev pub offset_rx : ℕ
offset_rx = 40

-- The 25 bytes at `frame155 + off`, and fich_encode there.
unfoldable pub fich_at : ℕ → List ℕ → List ℕ
fich_at off frame = take 25 (drop off frame)

unfoldable pub fich_encode_at : ℕ → List ℕ → List ℕ → List ℕ → List ℕ × List ℕ
fich_encode_at off fich scratch frame =
    let coded = fich_encode fich scratch (fich_at off frame) in (coded.0, splice off coded.1 frame)

-- ysf_fich_rewrite_dgid: m_fich and the frame, before and after
unfoldable pub ysf_fich_rewrite_dgid : List ℕ → List ℕ → List ℕ → List ℕ → ℕ → List ℕ × List ℕ
ysf_fich_rewrite_dgid output convolved fich frame dgid =
    if ltb dgid 1
    then (fich, frame)
    else let f = fich_decode output (fich_at offset_rx frame) in
      fich_encode_at offset_rx
        (fich_set_dgid dgid (fich_set_dt dt_vd_mode2 (fich_set_voip false f))) convolved frame

-- YSF_SYNC_WORD
abbrev pub ysf_sync_word : List ℕ
ysf_sync_word = 0xD4 ∷ 0x71 ∷ 0xC9 ∷ 0x63 ∷ 0x4D ∷ []

-- memcmp(xs, ys, n) == 0, of runs of one length
abbrev pub same_bytes : List ℕ → List ℕ → Bool
same_bytes [] [] = true
same_bytes [] (y ∷ ys) = false
same_bytes (x ∷ xs) [] = false
same_bytes (x ∷ xs) (y ∷ ys) = (x == y) && same_bytes xs ys

-- ysf_fich_guess_rx_offset
unfoldable pub ysf_fich_guess_rx_offset : List ℕ → ℕ
ysf_fich_guess_rx_offset frame =
    if same_bytes (take 5 (drop 35 frame)) ysf_sync_word then offset_rx else offset_net

-- What ysf_fich_decode_at writes for its caller.
pub record Fields : Type 0 where
  pub fi : ℕ
  pub fn : ℕ
  pub ft : ℕ
  pub cm : ℕ
  pub dt : ℕ

unfoldable pub fields_of : List ℕ → Fields
fields_of fich = record {
  fi = bit_and (get_or fich 0 0 >>> 6) 0x03;
  fn = bit_and (get_or fich 1 0 >>> 3) 0x07;
  ft = bit_and (get_or fich 1 0) 0x07;
  cm = bit_and (get_or fich 0 0 >>> 2) 0x03;
  dt = bit_and (get_or fich 2 0) 0x03;
}

-- ysf_fich_decode_at: m_fich afterwards, and the fields
unfoldable pub ysf_fich_decode_at : List ℕ → List ℕ → ℕ → List ℕ × Fields
ysf_fich_decode_at scratch frame off =
    let fich = fich_decode scratch (fich_at off frame) in (fich, fields_of fich)

-- ysf_fich_decode_fields, of arguments none of which is NULL; it returns 0
unfoldable pub ysf_fich_decode_fields : List ℕ → List ℕ → List ℕ × Fields
ysf_fich_decode_fields scratch frame =
    let off = ysf_fich_guess_rx_offset frame in
    let first = ysf_fich_decode_at scratch frame off in
    if leb first.1.fi 3
    then first
    else let alt = if off == offset_rx then offset_net else offset_rx in
      ysf_fich_decode_at scratch frame alt

-- ysf_fich_get_dgid
unfoldable pub ysf_fich_get_dgid : List ℕ → ℕ
ysf_fich_get_dgid fich = get_or fich 3 0

-- The calls of the setters in ysf_fich_encode_outbound
unfoldable pub outbound_fich : ℕ → ℕ → ℕ → ℕ → List ℕ
outbound_fich fn_serial fi ft cm =
    let f0 =
      fich_set_fn fn_serial (fich_set_cm cm (fich_set_cs 2 (fich_set_fi fi (replicate 6 0)))) in
    let f1 = fich_set_dt dt_vd_mode2 (fich_set_mr 0 (fich_set_ft ft f0)) in
    fich_set_sq 0 (fich_set_sql false (fich_set_voip false f1))

-- ysf_fich_encode_outbound
unfoldable pub ysf_fich_encode_outbound : List ℕ → List ℕ → ℕ → ℕ → ℕ → ℕ → List ℕ × List ℕ
ysf_fich_encode_outbound scratch fich25 fn_serial fi ft cm =
    fich_encode (outbound_fich fn_serial fi ft cm) scratch fich25
