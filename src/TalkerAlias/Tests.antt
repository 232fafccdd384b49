-- ===== src/TalkerAlias/Tests.antt =====
-- A talker alias in characters of eight bits, and the theorem at it.
use adn_bridge.TalkerAlias.SevenBit.{septets, bits_of, decode_ta_7bit-septets}
use adn_bridge.PeerDmr.Wire.{codes}
use adn_bridge.TalkerAlias.Text.{AllShown, dmra_decode_blocks-AllShown}
use adn_bridge.TalkerAlias.{
  dmra_decode_blocks, decode_ta_buf, codes, decode_ta_utf, trim_ta_text, trim_end, c_string,
  cut_control, is_control, decode_ta_7bit, ta_buf_len,
}
use adn_bridge.Prelude.{
  true, ◌∷◌, [], some, List, ℕ, replicate, ◌<◌, length, ◌≡◌, refl, take, drop, arith,
}

-- "CE5RPY" and a tab: format 1, seven characters.
abbrev blocks : List (List ℕ)
blocks = (0x4E ∷ 67 ∷ 69 ∷ 53 ∷ 82 ∷ 80 ∷ 89 ∷ []) ∷ replicate 7 9 ∷ [] ∷ [] ∷ []

decoded_text : dmra_decode_blocks true [] blocks 3 32 ≡ some (codes "CE5RPY")
unfolding dmra_decode_blocks decode_ta_buf decode_ta_utf trim_ta_text trim_end c_string cut_control
    is_control
decoded_text = refl

dmra_decode_blocks-AllShown_example :
    AllShown true (codes "CE5RPY") × (0 < length (codes "CE5RPY")) × (length (codes "CE5RPY") < 32)
dmra_decode_blocks-AllShown_example =
    dmra_decode_blocks-AllShown true [] blocks 3 32 (codes "CE5RPY") decoded_text

-- "Hi" in two characters of seven bits, behind a format of 0 and a size of 2.
abbrev packed : List ℕ
packed = 0x05 ∷ 0x23 ∷ 0x48 ∷ replicate 25 0

decode_ta_7bit-septets_example :
    decode_ta_7bit packed 32 ≡ take 2 (septets (drop 7 (bits_of (take ta_buf_len packed))))
decode_ta_7bit-septets_example = decode_ta_7bit-septets packed 32 refl (omega arith) (omega arith)

septets_text : take 2 (septets (drop 7 (bits_of packed))) ≡ codes "Hi"
septets_text = refl
