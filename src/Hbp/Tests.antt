-- ===== src/Hbp/Tests.antt =====
-- The codec on known values.
use adn_bridge.Hbp.Bptc.{bptc_bits, to_bits}
use adn_bridge.Hbp.Bptc.Read.{deinterleave, read_payload, bptc_read, AllRows, AllColumns}
use adn_bridge.Hbp.Embedded.{encode_embedded_data}
use adn_bridge.Hbp.Embedded.Read.{read_lc, read_24, embedded_ids_read}
use adn_bridge.Hbp.Sha256.Schedule.{standard_rounds, sha_rounds-standard}
use adn_bridge.Prelude.{◌∷◌, [], ◌≡◌, refl, List, ℕ, replicate}
use adn_bridge.Hbp.Sha256.{sha256_generate, Registers, sha_rounds}

-- The digest of "abc".
abc :
    sha256_generate (97 ∷ 98 ∷ 99 ∷ [])
    ≡ 0xba ∷ 0x78 ∷ 0x16 ∷ 0xbf ∷ 0x8f ∷ 0x01 ∷ 0xcf ∷ 0xea ∷ 0x41 ∷ 0x41 ∷ 0x40 ∷ 0xde ∷ 0x5d
      ∷ 0xae ∷ 0x22 ∷ 0x23 ∷ 0xb0 ∷ 0x03 ∷ 0x61 ∷ 0xa3 ∷ 0x96 ∷ 0x17 ∷ 0x7a ∷ 0x9c ∷ 0xb4 ∷ 0x10
      ∷ 0xff ∷ 0x61 ∷ 0xf2 ∷ 0x00 ∷ 0x15 ∷ 0xad ∷ []
unfolding sha256_generate
abc = refl

abbrev block : List ℕ
block = replicate 16 0x61626364

abbrev registers : Registers
registers = record { a = 1; b = 2; c = 3; d = 4; e = 5; f = 6; g = 7; h = 8 }

sha_rounds-standard_example : sha_rounds 64 0 block registers ≡ standard_rounds block registers 64
sha_rounds-standard_example = sha_rounds-standard block registers refl

embedded_ids_read_example :
    let bits = read_lc (encode_embedded_data 71442 7300391) in
    (read_24 bits 24 ≡ 71442) × (read_24 bits 48 ≡ 7300391)
embedded_ids_read_example = embedded_ids_read 71442 7300391

bptc_read_example :
    let input : List ℕ = 1 ∷ 2 ∷ 3 ∷ 4 ∷ 5 ∷ 6 ∷ 7 ∷ 8 ∷ 9 ∷ 10 ∷ 11 ∷ 12 ∷ [] in
    let square = deinterleave 196 0 (bptc_bits input) in
    (read_payload square ≡ to_bits 12 input) × AllRows 9 0 square × AllColumns 15 0 square
bptc_read_example = bptc_read 1 2 3 4 5 6 7 8 9 10 11 12
