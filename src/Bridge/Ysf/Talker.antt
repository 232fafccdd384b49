-- ===== src/Bridge/Ysf/Talker.antt =====
-- bridge.c: who speaks on a YSF call, and with which DMR id.
use adn_bridge.Bridge.Call.{label10}
use adn_bridge.PeerDmr.Wire.{is_empty, codes}
use adn_bridge.Fich.Fields.{same_bytes, ysf_sync_word, offset_net}
use adn_bridge.Bridge.State.{Bridge, Env}
use adn_bridge.Prelude.{
  true, false, if◌then◌else◌, ◌∷◌, [], none, some, ℕ, Bool, List, leb, ◌==◌, ◌*◌, ltb, map, take,
  drop, ◌&&◌, ◌+◌, ◌%◌, ◌||◌, ◌++◌, ◌-◌, ◌^◌, Option,
}

abbrev is_digit : ℕ → Bool
is_digit c = leb 48 c && leb c 57

-- label_is_numeric_dmrid: `has_digit` so far
unfoldable pub numeric_from : Bool → List ℕ → Bool
numeric_from has_digit [] = has_digit
numeric_from has_digit (c ∷ cs) =
    let skip = numeric_from has_digit cs in
    let next = numeric_from true cs in if c == 32 then skip else if is_digit c then next else false

unfoldable pub label_is_numeric_dmrid : List ℕ → Bool
label_is_numeric_dmrid cs = numeric_from false cs

-- The number that the digits among the characters make, behind `n`.
unfoldable pub digits_value : ℕ → List ℕ → ℕ
digits_value n [] = n
digits_value n (c ∷ cs) =
    if is_digit c then digits_value (n * 10 + (c - 48)) cs else digits_value n cs

-- `atoi`, of which only a value above 0 counts: the rest is 0
abbrev pub positive_int : ℕ → ℕ
positive_int n = if ltb (n % 2 ^ 32) (2 ^ 31) then n % 2 ^ 32 else 0

-- callsign10_to_dmrid
unfoldable pub callsign10_to_dmrid : List ℕ → ℕ
callsign10_to_dmrid cs = if label_is_numeric_dmrid cs then positive_int (digits_value 0 cs) else 0

abbrev ends_base : ℕ → Bool
ends_base c = c == 32 || c == 0 || c == 45 || c == 47

abbrev is_suffix : ℕ → Bool
is_suffix c = c == 45 || c == 47

-- dbg_label10, which reads ten bytes
unfoldable pub dbg_label10 : List ℕ → List ℕ
dbg_label10 raw = map (λ (c : ℕ). if leb 32 c && ltb c 127 then c else 46) (take 10 raw)

-- ysf_pkt_has_rf_sync
unfoldable pub ysf_pkt_has_rf_sync : List ℕ → Bool
ysf_pkt_has_rf_sync pkt = same_bytes (take 5 (drop offset_net pkt)) ysf_sync_word

-- ysf_net_to_rf120
unfoldable pub ysf_net_to_rf120 : List ℕ → List ℕ
ysf_net_to_rf120 pkt = ysf_sync_word ++ take 115 (drop offset_net pkt)

-- ysf_modeconv_chunk, as the 120 bytes that are read there
unfoldable pub ysf_modeconv_chunk : List ℕ → List ℕ
ysf_modeconv_chunk pkt =
    if ysf_pkt_has_rf_sync pkt then take 120 (drop offset_net pkt) else ysf_net_to_rf120 pkt

-- bridge_ysf_talker_ready
unfoldable pub ysf_talker_ready : Bridge → Bool
ysf_talker_ready b = ltb 0 b.ysf_rf_id || ltb 0 b.dmr.dmrid

module _ (env : Env) where
  -- The loop of ysf_callsign_base10.
  unfoldable pub base_of : List ℕ → List ℕ
  base_of [] = []
  base_of (c ∷ cs) = if ends_base c then [] else env.toupper c ∷ base_of cs

  -- ysf_callsign_base10
  unfoldable pub ysf_callsign_base10 : List ℕ → List ℕ
  ysf_callsign_base10 src10 =
      let base = base_of src10 in if is_empty base then codes "N0CALL" else base

  -- ysf_callsign_base_src
  unfoldable pub ysf_callsign_base_src : List ℕ → List ℕ
  ysf_callsign_base_src src = ysf_callsign_base10 (label10 src)

  -- The loop of format_ysf_callsign10.
  unfoldable pub label_of : List ℕ → List ℕ
  label_of [] = []
  label_of (c ∷ cs) =
      if c == 32 || c == 9
      then label_of cs
      else if is_suffix c
      then []
      else env.toupper c ∷ label_of cs

  -- format_ysf_callsign10
  unfoldable pub format_ysf_callsign10 : List ℕ → List ℕ
  format_ysf_callsign10 src = label10 (label_of src)

  -- bridge_assign_ysf_talker
  unfoldable pub assign_ysf_talker : Bridge → List ℕ → Bool × Bridge
  assign_ysf_talker b src =
      let base = ysf_callsign_base_src src in
      let talker = format_ysf_callsign10 base in
      let own = callsign10_to_dmrid talker in
      let id = if own == 0 then env.lookup_id base else own in
      let b1 = record b { net_src = talker } in
      if ltb 0 id
      then (true, record b1 { ysf_rf_id = id })
      else if ltb 0 b.dmr.dmrid
      then (true, record b1 { net_src = b.dmr.callsign; ysf_rf_id = b.dmr.dmrid })
      else (false, b1)

  -- A round of bridge_resolve_ysf_header, by what the payload codec finds.
  unfoldable pub assign_from : Bridge → Option (List ℕ × List ℕ) → Bool × Bridge
  assign_from b none = (false, b)
  assign_from b (some (csd_src, csd_dst)) = assign_ysf_talker b csd_src

  -- The same, unless an earlier round has found a talker.
  unfoldable pub try_header : List ℕ → Bool × Bridge → Bool × Bridge
  try_header rf (true, b) = (true, b)
  try_header rf (false, b) = assign_from b (env.process_header rf)

  unfoldable pub wire_src_fallback : List ℕ → Bool × Bridge → Bool × Bridge
  wire_src_fallback pkt (true, b) = (true, b)
  wire_src_fallback pkt (false, b) = assign_ysf_talker b (dbg_label10 (drop 14 pkt))

  -- bridge_resolve_ysf_header
  unfoldable pub resolve_ysf_header : Bridge → List ℕ → Bool × Bridge
  resolve_ysf_header b pkt =
      let first = try_header (ysf_modeconv_chunk pkt) (false, b) in
      let second = try_header (take 120 (drop offset_net pkt)) first in wire_src_fallback pkt second
