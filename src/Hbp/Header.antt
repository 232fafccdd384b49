-- ===== src/Hbp/Header.antt =====
-- hbp/dmr_hbp.c: `generate_header`, the burst of a data-sync frame.
use adn_bridge.Prelude.{
  ℕ, ◌+◌, ◌==◌, ◌||◌, bit_and, bit_or, bit_xor, ◌>>>◌, ◌<<<◌, List, [], ◌∷◌, ◌++◌, get_or, set,
  replicate, if◌then◌else◌,
}
use adn_bridge.Hbp.Tables.{poly, exp_table, log_table, encoding_table_2087}
use adn_bridge.Hbp.Bptc.{bptc_encode}

-- rs129_gmult
unfoldable pub rs129_gmult : ℕ → ℕ → ℕ
unfolding exp_table log_table
rs129_gmult a b =
    if a == 0 || b == 0 then 0 else get_or exp_table (get_or log_table a 0 + get_or log_table b 0) 0

-- One byte through the shift register `parity`.
unfoldable pub rs129_step : List ℕ → ℕ → List ℕ
unfolding rs129_gmult poly
rs129_step parity x =
    let dbyte = bit_xor x (get_or parity 2 0) in
    let p2 = set parity 2 (bit_xor (get_or parity 1 0) (rs129_gmult (get_or poly 2 0) dbyte)) in
    let p1 = set p2 1 (bit_xor (get_or p2 0 0) (rs129_gmult (get_or poly 1 0) dbyte)) in
    set p1 0 (rs129_gmult (get_or poly 0 0) dbyte)

unfoldable pub rs129_parity : List ℕ → List ℕ → List ℕ
unfolding rs129_step
rs129_parity [] parity = parity
rs129_parity (x ∷ xs) parity = rs129_parity xs (rs129_step parity x)

-- The full link control: destination and source from bytes 5 to 10 of `buf`, and the masked parity.
unfoldable pub header_lc : List ℕ → List ℕ
unfolding rs129_parity
header_lc buf =
    let lc =
      0
      ∷ 0
      ∷ 0
      ∷ get_or buf 8 0
      ∷ get_or buf 9 0
      ∷ get_or buf 10 0
      ∷ get_or buf 5 0
      ∷ get_or buf 6 0
      ∷ get_or buf 7 0
      ∷ [] in
    let parity = rs129_parity lc (replicate 4 0) in
    lc
    ++ (bit_xor (get_or parity 2 0) 0x96
        ∷ bit_xor (get_or parity 1 0) 0x96
        ∷ bit_xor (get_or parity 0 0) 0x96
        ∷ [])

-- The slot type, around the sync word.
unfoldable pub put_slot_type : List ℕ → List ℕ
unfolding encoding_table_2087
put_slot_type payload =
    let s0 = bit_or (bit_and (1 <<< 4) 0xf0) (bit_and (1 <<< 0) 0x0f) in
    let s1 = bit_and (get_or encoding_table_2087 s0 0) 0xff in
    let s2 = get_or encoding_table_2087 s0 0 >>> 8 in
    let p12 =
      set payload 12 (bit_or (bit_and (get_or payload 12 0) 0xc0) (bit_and (s0 >>> 2) 0x3f)) in
    let p13 = set p12 13 (
      bit_or (bit_or (bit_and (get_or p12 13 0) 0x0f) (bit_and (s0 <<< 6) 0xc0))
        (bit_and (s1 >>> 2) 0x30)) in
    let p19 = set p13 19 (bit_or (bit_and (get_or p13 19 0) 0xf0) (bit_and (s1 >>> 2) 0x0f)) in
    set p19 20 (
      bit_or (bit_or (bit_and (get_or p19 20 0) 0x03) (bit_and (s1 <<< 6) 0xc0))
        (bit_and (s2 >>> 2) 0x3c))

abbrev pub sync_ms_data : List ℕ
sync_ms_data = 0x0d ∷ 0x5d ∷ 0x7f ∷ 0x77 ∷ 0xfd ∷ 0x75 ∷ 0x70 ∷ []

-- What `generate_header` writes to `buf + 20`.
unfoldable pub generate_header : List ℕ → List ℕ
unfolding header_lc put_slot_type bptc_encode
generate_header buf =
    bptc_encode (header_lc buf) (put_slot_type (replicate 13 0 ++ sync_ms_data ++ replicate 13 0))
