-- ===== src/Fich/Fields/Rewrite.antt =====
-- ysf_fich_rewrite_dgid, on a frame of 155 bytes: what a receiver reads off the frame it leaves.
use adn_bridge.Fich.Bits.Laws.{set-IsBytes, get_or-IsBytes}
use adn_bridge.Fich.Frame.{fich_decode, add_ccitt162, fich_words, fich_bytes}
use adn_bridge.Fich.Fields.{
  fich_set_dt, fich_set_voip, fich_set_dgid, dt_vd_mode2, Fields, fields_of, ℕ, List, bit_or,
  bit_and, ltb, Bool, set, leb,
}
use adn_bridge.Prelude.{
  true, false, get_or, all_below, ℕ, List, IsBytes, length, ◌<◌, ◌≡◌, bit_or, bit_and, arith,
  get_or-set_ne, ◌≤◌, ◌==◌, refl, bit_and-le, ◌∙◌, ◌&&◌, ◌>>>◌, ltb, bit_or-lt, ◌<<<◌,
  all_below_sound, length-set, get_or-set_self, Bool, set, leb, ltb→lt,
}

fich_bytes-IsBytes : (b0 b1 : ℕ) (rest : List ℕ) → IsBytes rest → IsBytes (fich_bytes b0 b1 rest)
unfolding fich_bytes
fich_bytes-IsBytes b0 b1 rest h = (
  omega (arith, bit_and-le (b0 >>> 4) 0xFF),
  (
    bit_or-lt 8 (bit_and (b0 <<< 4) 0xF0) (bit_and (b1 >>> 8) 0x0F)
        (omega (arith, bit_and-le (b0 <<< 4) 0xF0)) (omega (arith, bit_and-le (b1 >>> 8) 0x0F)),
    (omega (arith, bit_and-le (b1 >>> 0) 0xFF), h),
  ),
)

pub fich_decode-IsBytes : (scratch bytes : List ℕ) → IsBytes (fich_decode scratch bytes)
unfolding fich_decode fich_words
fich_decode-IsBytes scratch bytes = fich_bytes-IsBytes _ _ _ (fich_bytes-IsBytes _ _ _ tt)

pub length-fich_decode : (scratch bytes : List ℕ) → length (fich_decode scratch bytes) ≡ 6
unfolding fich_decode fich_words fich_bytes
length-fich_decode scratch bytes = refl

-- The checksum changes none of the first four bytes.
pub get_or-add_ccitt162 :
    (fich : List ℕ) (k : ℕ) → k < 4 → get_or (add_ccitt162 fich 6) k 0 ≡ get_or fich k 0
unfolding add_ccitt162
get_or-add_ccitt162 fich k h =
    get_or-set_ne _ 4 k _ 0 (omega arith) ∙ get_or-set_ne fich 5 k _ 0 (omega arith)

pub fields_of-add_ccitt162 : (fich : List ℕ) → fields_of (add_ccitt162 fich 6) ≡ fields_of fich
unfolding fields_of
fields_of-add_ccitt162 fich =
    rw
      (
        get_or-add_ccitt162 fich 0 (omega arith),
        get_or-add_ccitt162 fich 1 (omega arith),
        get_or-add_ccitt162 fich 2 (omega arith),
      )
      refl

abbrev with_mode : ℕ → ℕ
with_mode x = bit_or (bit_and (bit_and x 0xFB) 0xFC) (bit_and dt_vd_mode2 0x03)

abbrev mode_fits : ℕ → Bool
mode_fits x = (bit_and (with_mode x) 0x03 == dt_vd_mode2) && ltb (with_mode x) 256

mode_checks : all_below 256 mode_fits ≡ true
mode_checks = refl

-- m_fich after the three setters.
abbrev pub rewritten : List ℕ → ℕ → List ℕ
rewritten fich dgid = fich_set_dgid dgid (fich_set_dt dt_vd_mode2 (fich_set_voip false fich))

abbrev pub with_dt : Fields → Fields
with_dt f = record { fi = f.fi; fn = f.fn; ft = f.ft; cm = f.cm; dt = dt_vd_mode2 }

module _ (fich : List ℕ) (dgid : ℕ) (h : IsBytes fich) (l : length fich ≡ 6) (pos : 1 ≤ dgid)
    (lt : dgid < 256) where
  -- the bytes of m_fich before set_dgid
  abbrev moded : List ℕ
  moded = set (set fich 2 (bit_and (get_or fich 2 0) 0xFB)) 2 (with_mode (get_or fich 2 0))

  rewritten-set : rewritten fich dgid ≡ set moded 3 dgid
  unfolding fich_set_dgid fich_set_dt fich_set_voip
  rewritten-set =
      let yes : leb 1 dgid ≡ true = ground arith in
      rw (yes, get_or-set_self fich 2 (bit_and (get_or fich 2 0) 0xFB) 0 (omega (arith, l))) refl

  mode_facts :
      (bit_and (with_mode (get_or fich 2 0)) 0x03 ≡ dt_vd_mode2)
      × (with_mode (get_or fich 2 0) < 256)
  mode_facts =
      let x = get_or fich 2 0 in
      let check = all_below_sound 256 mode_fits x mode_checks (get_or-IsBytes fich 2 h) in
      let both : (bit_and (with_mode x) 0x03 ≡ dt_vd_mode2) × (ltb (with_mode x) 256 ≡ true) =
        ground arith in
      (both.0, ltb→lt (with_mode x) 256 both.1)

  pub rewritten-IsBytes : IsBytes (rewritten fich dgid)
  rewritten-IsBytes = rw rewritten-set (
      set-IsBytes moded 3 dgid
        (set-IsBytes _ 2 _
          (set-IsBytes fich 2 _ h (omega (arith, bit_and-le (get_or fich 2 0) 0xFB))) mode_facts.1)
        lt)

  pub length-rewritten : length (rewritten fich dgid) ≡ 6
  length-rewritten =
      rw rewritten-set (length-set moded 3 dgid ∙ length-set _ 2 _ ∙ length-set fich 2 _ ∙ l)

  pub dgid-rewritten : get_or (rewritten fich dgid) 3 0 ≡ dgid
  dgid-rewritten = rw rewritten-set (
      get_or-set_self moded 3 dgid 0 (
        omega (
          arith,
          length-set (set fich 2 (bit_and (get_or fich 2 0) 0xFB)) 2 (with_mode (get_or fich 2 0)),
          length-set fich 2 (bit_and (get_or fich 2 0) 0xFB),
          l,
        )))

  low_byte : (k : ℕ) → k < 2 → get_or (rewritten fich dgid) k 0 ≡ get_or fich k 0
  low_byte k lt2 = rw rewritten-set (
      get_or-set_ne moded 3 k dgid 0 (omega arith)
      ∙ get_or-set_ne _ 2 k _ 0 (omega arith)
      ∙ get_or-set_ne fich 2 k _ 0 (omega arith))

  mode_byte : get_or (rewritten fich dgid) 2 0 ≡ with_mode (get_or fich 2 0)
  mode_byte =
      let cleared = set fich 2 (bit_and (get_or fich 2 0) 0xFB) in
      rw rewritten-set (
        get_or-set_ne moded 3 2 dgid 0 (omega arith)
        ∙ get_or-set_self cleared 2 (with_mode (get_or fich 2 0)) 0
            (omega (arith, length-set fich 2 (bit_and (get_or fich 2 0) 0xFB), l)))

  pub fields_of-rewritten : fields_of (rewritten fich dgid) ≡ with_dt (fields_of fich)
  unfolding fields_of
  fields_of-rewritten =
      rw (low_byte 0 (omega arith), low_byte 1 (omega arith), mode_byte, mode_facts.0) refl
