-- ===== src/Bridge/Wire/Kinds.antt =====
-- The headers and terminators that the bridge sends, by the tests that it has for those it
-- receives.
use adn_bridge.Bridge.ConnectPtt.{vhead_type, vterm_type}
use adn_bridge.Bridge.Dmrd.{
  ft_data_sync, dmr_id_to_bytes3, is_dmrd, dmrd_is_header, dmrd_is_terminator, dmrd_parse_b15,
  byte_at, dtype_vhead, dtype_vterm,
}
use adn_bridge.Bridge.State.{Env, Bridge, bridge_tx_tg}
use adn_bridge.Prelude.{
  List, ℕ, length, ◌≡◌, Option, refl, bit_and, ◌>>>◌, ◌==◌, true, arith, length-append, drop,
  length-drop, false, Bool, ap, ◌&&◌, u8, bit_or, ◌<<<◌, ◌∙◌,
}
use adn_bridge.Bridge.Send.{dmrd_packet, dmrd_burst, dmrd_head, tx_rf_id}
use adn_bridge.Hbp.Header.{generate_header}

length-generate_header : (head : List ℕ) → length (generate_header head) ≡ 33
unfolding generate_header
length-generate_header head = refl

-- A data-sync packet has 55 bytes.
length-dmrd_packet :
    (env : Env) (b : Bridge) (frame_type : ℕ) (voice : Option (List ℕ))
    → (bit_and (frame_type >>> 4) 0x03 == ft_data_sync) ≡ true
    → length env.unwritten ≡ 35
    → length (dmrd_packet env b frame_type voice).0 ≡ 55
unfolding dmrd_packet dmrd_burst dmrd_head dmr_id_to_bytes3
length-dmrd_packet env b frame_type voice sync h = rw sync (
    omega (
      arith,
      length-append
          (generate_header (
            dmrd_head b.dmr_seq (dmr_id_to_bytes3 (tx_rf_id b)) (bridge_tx_tg b) b.dmr.dmrid
              frame_type b.dmr_stream_id))
          (drop 33 env.unwritten),
      length-generate_header (
          dmrd_head b.dmr_seq (dmr_id_to_bytes3 (tx_rf_id b)) (bridge_tx_tg b) b.dmr.dmrid
            frame_type b.dmr_stream_id),
      length-drop 33 env.unwritten,
    ))

-- The tests see the length, the tag and byte 15.
own_is_dmrd :
    (env : Env) (b : Bridge) (frame_type : ℕ) (voice : Option (List ℕ))
    → (bit_and (frame_type >>> 4) 0x03 == ft_data_sync) ≡ true
    → length env.unwritten ≡ 35
    → is_dmrd (dmrd_packet env b frame_type voice).0 ≡ true
unfolding is_dmrd
own_is_dmrd env b frame_type voice sync h =
    rw (length-dmrd_packet env b frame_type voice sync h) (unfold dmrd_packet dmrd_head in refl)

own_byte :
    (env : Env) (b : Bridge) (frame_type : ℕ) (voice : Option (List ℕ))
    → byte_at (dmrd_packet env b frame_type voice).0 15 ≡ frame_type
unfolding dmrd_packet dmrd_head dmr_id_to_bytes3
own_byte env b frame_type voice = refl

-- The two tests, by what they see.
tests :
    (d v f x y : Bool)
    → d ≡ true
    → ((d && v && f && x) ≡ (v && f && x)) × ((d && f && y) ≡ (f && y))
tests d v f x y h = rw h (refl, refl)

tests_see :
    (p : List ℕ) (b15 : ℕ)
    → is_dmrd p ≡ true
    → byte_at p 15 ≡ b15
    → (dmrd_is_header p ≡ (
        (bit_and b15 0x40 == 0)
        && ((dmrd_parse_b15 b15).0 == ft_data_sync)
        && ((dmrd_parse_b15 b15).1 == dtype_vhead)))
      × (dmrd_is_terminator p
          ≡ (((dmrd_parse_b15 b15).0 == ft_data_sync) && ((dmrd_parse_b15 b15).1 == dtype_vterm)))
unfolding dmrd_is_header dmrd_is_terminator
tests_see p b15 d e = rw (← e) (
    tests (is_dmrd p) (bit_and (byte_at p 15) 0x40 == 0)
      ((dmrd_parse_b15 (byte_at p 15)).0 == ft_data_sync)
      ((dmrd_parse_b15 (byte_at p 15)).1 == dtype_vhead)
      ((dmrd_parse_b15 (byte_at p 15)).1 == dtype_vterm) d)

-- On slot 2, what the bridge sends to open a transmission passes its own test for a header and for
-- no terminator, and what it sends to close one passes its test for a terminator and for no header.
own_kinds :
    (env : Env) (b : Bridge) (voice : Option (List ℕ))
    → b.dmr_slot_bit ≡ 0x80
    → length env.unwritten ≡ 35
    → let header = (dmrd_packet env b (vhead_type b) voice).0 in
      let end = (dmrd_packet env b (vterm_type b) voice).0 in
      (dmrd_is_header header ≡ true)
      × (dmrd_is_terminator header ≡ false)
      × (dmrd_is_terminator end ≡ true)
      × (dmrd_is_header end ≡ false)
unfolding dmrd_parse_b15
own_kinds env b voice slot h =
    let header_type : vhead_type b ≡ 0xa1 =
      ap (λ (s : ℕ). u8 (bit_or (bit_or s (ft_data_sync <<< 4)) dtype_vhead)) slot in
    let end_type : vterm_type b ≡ 0xa2 =
      ap (λ (s : ℕ). u8 (bit_or (bit_or s (ft_data_sync <<< 4)) dtype_vterm)) slot in
    let header =
      tests_see _ 0xa1 (own_is_dmrd env b (vhead_type b) voice (rw header_type refl) h)
        (own_byte env b (vhead_type b) voice ∙ header_type) in
    let end =
      tests_see _ 0xa2 (own_is_dmrd env b (vterm_type b) voice (rw end_type refl) h)
        (own_byte env b (vterm_type b) voice ∙ end_type) in
    (header.0, header.1, end.1, end.0)
