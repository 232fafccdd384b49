-- ===== src/TalkerAlias.antt =====
-- talker_alias.c: the name that a DMR radio sends of its user, in packets of seven bytes of it. A
-- `char` is signed or not, as the machine has it.
use adn_bridge.PeerDmr.Wire.{is_empty, has_tag, codes}
pub mod Text
pub mod SevenBit
mod Tests
use adn_bridge.Prelude.{
  true, false, if◌then◌else◌, ◌∷◌, [], none, some, ℕ, List, Bool, bit_and, min, suc, leb, take,
  ◌==◌, ltb, Option, ◌+◌, get_or, ◌-◌, bit_or, ◌>>>◌, length, ◌||◌, ◌<<<◌, drop, not, ◌&&◌,
  replicate, zero, ◌++◌,
}

-- TA_BUF_LEN and TA_PAYLOAD_LEN
abbrev pub ta_buf_len : ℕ
ta_buf_len = 28

abbrev pub ta_payload_len : ℕ
ta_payload_len = 7

abbrev pub ta_format : List ℕ → ℕ
ta_format buf = bit_and (get_or buf 0 0 >>> 6) 0x03

abbrev ta_size : List ℕ → ℕ
ta_size buf = bit_and (get_or buf 0 0 >>> 1) 0x1F

-- decode_ta_utf; `beyond` is what lies behind `buf`, of which it may read two bytes
unfoldable pub decode_ta_utf : List ℕ → List ℕ → ℕ → List ℕ
decode_ta_utf beyond buf textlen =
    let size = min (ta_size buf) (textlen - 1) in
    if not (ta_format buf == 1) && not (ta_format buf == 2)
    then []
    else if ta_size buf == 0 || ltb 29 (ta_size buf)
    then []
    else take size (drop 1 (buf ++ beyond))

-- The variables of decode_ta_7bit; `outlen` and `t2` count the characters in `text`.
pub record Septets : Type 0 where
  pub c : ℕ
  pub t1 : ℕ
  pub text : List ℕ

-- The body of the inner loop, for a bit of the first byte or of a later one.
unfoldable pub septet_bit : Bool → ℕ → Septets → ℕ → Septets
septet_bit is_first size s bit =
    let c = bit_and (bit_or (s.c <<< 1) bit) 0xFF in
    let kept =
      if not is_first && ltb (length s.text) size
      then s.text ++ (bit_and c 0x7F ∷ [])
      else s.text in
    if s.t1 + 1 == 7
    then record { c = 0; t1 = 0; text = kept }
    else record s { c = c; t1 = s.t1 + 1 }

-- The inner loop: the bits of a byte from the bit `j - 1` down.
unfoldable pub septet_byte : ℕ → Bool → ℕ → Septets → ℕ → Septets
septet_byte zero is_first size s byte = s
septet_byte (suc j) is_first size s byte =
    septet_byte j is_first size (septet_bit is_first size s (bit_and (byte >>> j) 1)) byte

-- The outer loop.
unfoldable pub septet_loop : Bool → ℕ → Septets → List ℕ → Septets
septet_loop is_first size s [] = s
septet_loop is_first size s (byte ∷ bytes) =
    let rest = septet_loop false size (septet_byte 8 is_first size s byte) bytes in
    if leb size (length s.text) then s else rest

-- decode_ta_7bit
unfoldable pub decode_ta_7bit : List ℕ → ℕ → List ℕ
decode_ta_7bit buf textlen =
    let start : Septets = record { c = 0; t1 = 0; text = [] } in
    let done = septet_loop true (ta_size buf) start (take ta_buf_len buf) in
    if not (ta_format buf == 0)
    then []
    else if ta_size buf == 0 || leb textlen (ta_size buf)
    then []
    else done.text

-- decode_ta_buf, with the text of which it returns the length
unfoldable pub decode_ta_buf : List ℕ → List ℕ → ℕ → List ℕ
decode_ta_buf beyond buf textlen =
    if ta_format buf == 1 || ta_format buf == 2
    then decode_ta_utf beyond buf textlen
    else if ta_format buf == 0
    then decode_ta_7bit buf textlen
    else []

-- What `strlen` counts.
unfoldable pub c_string : List ℕ → List ℕ
c_string [] = []
c_string (c ∷ cs) = let rest = c ∷ c_string cs in if c == 0 then [] else rest

-- The loop over the end of trim_ta_text.
unfoldable pub trim_end : List ℕ → List ℕ
trim_end [] = []
trim_end (c ∷ cs) = elim (trim_end cs) [ [] ↦ if c == 32 then [] else c ∷ [] | x ∷ xs ↦ c ∷ x ∷ xs ]

-- `text[i] < 32 || text[i] == 127`, of a `char`
unfoldable pub is_control : Bool → ℕ → Bool
is_control char_signed c = ltb c 32 || c == 127 || (char_signed && leb 128 c)

unfoldable pub cut_control : Bool → List ℕ → List ℕ
cut_control char_signed [] = []
cut_control char_signed (c ∷ cs) =
    let rest = c ∷ cut_control char_signed cs in if is_control char_signed c then [] else rest

-- trim_ta_text
unfoldable pub trim_ta_text : Bool → List ℕ → List ℕ
trim_ta_text char_signed text = cut_control char_signed (trim_end (c_string text))

-- A packet of a radio, with one of the four blocks.
pub record DmraPacket : Type 0 where
  pub rf : ℕ
  pub block_id : ℕ
  pub payload : List ℕ

-- dmra_parse_packet
unfoldable pub dmra_parse_packet : List ℕ → Option DmraPacket
dmra_parse_packet pkt =
    let rf = bit_or (bit_or (get_or pkt 4 0 <<< 16) (get_or pkt 5 0 <<< 8)) (get_or pkt 6 0) in
    if ltb (length pkt) 15 || not (has_tag pkt (codes "DMRA"))
    then none
    else if ltb 3 (get_or pkt 7 0)
    then none
    else some
        (record { rf = rf; block_id = get_or pkt 7 0; payload = take ta_payload_len (drop 8 pkt) })

-- The blocks that are there, one behind the other, from the block `i` on.
abbrev pub join_blocks : ℕ → ℕ → List (List ℕ) → List ℕ
join_blocks have i [] = []
join_blocks have i (block ∷ blocks) =
    let rest = join_blocks have (i + 1) blocks in
    if bit_and have (1 <<< i) == 0 then replicate ta_payload_len 0 ++ rest else block ++ rest

-- dmra_decode_blocks: the text, where there is one
unfoldable pub dmra_decode_blocks : Bool → List ℕ → List (List ℕ) → ℕ → ℕ → Option (List ℕ)
dmra_decode_blocks char_signed beyond blocks have textlen =
    let decoded = decode_ta_buf beyond (join_blocks have 0 blocks) textlen in
    let text = trim_ta_text char_signed decoded in
    if textlen == 0 || bit_and have 1 == 0
    then none
    else if is_empty decoded
    then none
    else if is_empty text
    then none
    else some text
