-- ===== src/Bridge/Wire/Voice.antt =====
-- What a receiver reads of the voice in the packets that bridge_send_dmrd builds: the 26 bytes of
-- the burst that lie wholly before and behind the sync or the embedded data.
use adn_bridge.Hbp.Header.{generate_header}
use adn_bridge.Bridge.State.{Env, Bridge, bridge_tx_tg}
use adn_bridge.Bridge.Send.{dmrd_burst, dmrd_packet, dmrd_head, tx_rf_id}
use adn_bridge.Hbp.Embedded.{get_emb_data, get_embedded_data, encode_embedded_data}
use adn_bridge.Bridge.Dmrd.{
  put_sync, byte_at, dmr_id_to_bytes3, dmr_id_rf24, ft_data_sync, ft_voice_sync, dmr_sync_mask,
  ms_sourced_audio_sync,
}
use adn_bridge.Bridge.Wire.{Frame, read_frame, arith, bit_and, read_frame-dmrd_packet}
use adn_bridge.Prelude.{
  true, false, none, some, inl, inr, refl, ℕ, List, Option, Bool, take, if◌then◌else◌, length, ◌≤◌,
  set, ◌<◌, arith, [], drop, ◌∙◌, Bool-cases, bit_and, ◌++◌, ◌≡◌, ◌+◌, ◌^◌, replicate, suc,
  length-set, ◌∷◌, leb, ap₂, ◌>>>◌, ◌==◌, ap, ◌&&◌, take-drop-append, zero, ltb, ◌%◌,
}

-- Of a packet of the type `b15`: whether its burst holds a header or a terminator.
abbrev is_data : ℕ → Bool
is_data b15 = bit_and (b15 >>> 4) 0x03 == ft_data_sync

abbrev pub voice_bytes : List ℕ → List ℕ
voice_bytes burst = take 13 burst ++ take 13 (drop 20 burst)

-- A packet as a receiver sees it, with its voice where it carries any.
pub record Packet : Type 0 where
  pub frame : Frame
  pub voice : List ℕ

abbrev pub read_packet : List ℕ → Packet
read_packet pkt = record {
  frame = read_frame pkt;
  voice = if is_data (byte_at pkt 15) then [] else voice_bytes (drop 20 pkt);
}

-- The voice of a packet of the type `b15` that was built from the burst given, or from none.
unfoldable pub carried : ℕ → Option (List ℕ) → List ℕ
carried b15 voice =
    if is_data b15 then [] else elim voice [ none ↦ replicate 26 0 | some v ↦ voice_bytes v ]

-- A burst has 33 bytes.
abbrev pub IsSized : Option (List ℕ) → Type 0
IsSized none = Unit
IsSized (some v) = length v ≡ 33

take-set : (n i x : ℕ) (xs : List ℕ) → n ≤ i → take n (set xs i x) ≡ take n xs
take-set zero i x xs h = refl
take-set (suc n) zero x xs h = absurd (omega arith)
take-set (suc n) (suc i) x [] h = refl
take-set (suc n) (suc i) x (y ∷ xs) h = ap (◌∷◌ y) (take-set n i x xs (omega arith))

drop-set : (n i x : ℕ) (xs : List ℕ) → i < n → drop n (set xs i x) ≡ drop n xs
drop-set zero i x xs h = absurd (omega arith)
drop-set (suc n) i x [] h = refl
drop-set (suc n) zero x (y ∷ xs) h = refl
drop-set (suc n) (suc i) x (y ∷ xs) h = drop-set n i x xs (omega arith)

-- The burst `d` differs from `v` in the bytes 13 to 19 only.
abbrev IsKept : List ℕ → List ℕ → Type 0
IsKept d v = (take 13 d ≡ take 13 v) × (drop 20 d ≡ drop 20 v) × (length d ≡ length v)

IsKept-set : (i x : ℕ) (d v : List ℕ) → 13 ≤ i → i < 20 → IsKept d v → IsKept (set d i x) v
IsKept-set i x d v low high h =
    (take-set 13 i x d low ∙ h.0, drop-set 20 i x d high ∙ h.1, length-set d i x ∙ h.2)

put_sync-IsKept :
    (ms ss : List ℕ) (i : ℕ) (d v : List ℕ)
    → 13 ≤ i
    → i + length ms ≤ 20
    → IsKept d v
    → IsKept (put_sync ms ss i d) v
unfolding put_sync
put_sync-IsKept [] ss i d v low high h = h
put_sync-IsKept (m ∷ ms) [] i d v low high h = h
put_sync-IsKept (m ∷ ms) (s ∷ ss) i d v low high h =
    put_sync-IsKept ms ss (i + 1) _ v (omega arith) (omega arith)
      (IsKept-set i _ d v low (omega arith) h)

get_emb_data-IsKept : (d v : List ℕ) (lcss : ℕ) → IsKept d v → IsKept (get_emb_data d lcss) v
unfolding get_emb_data
get_emb_data-IsKept d v lcss h = IsKept-set 19 _ _ v (omega arith) (omega arith) (
    IsKept-set 18 _ _ v (omega arith) (omega arith) (
      IsKept-set 14 _ _ v (omega arith) (omega arith)
        (IsKept-set 13 _ d v (omega arith) (omega arith) h)))

five_sets :
    (a b c e f : ℕ) (v : List ℕ) → IsKept (set (set (set (set (set v 14 a) 15 b) 16 c) 17 e) 18 f) v
five_sets a b c e f v = IsKept-set 18 f _ v (omega arith) (omega arith) (
    IsKept-set 17 e _ v (omega arith) (omega arith) (
      IsKept-set 16 c _ v (omega arith) (omega arith) (
        IsKept-set 15 b _ v (omega arith) (omega arith)
          (IsKept-set 14 a v v (omega arith) (omega arith) (refl, refl, refl)))))

get_embedded_data-IsKept :
    (emb : List Bool) (v : List ℕ) (n : ℕ) → IsKept (get_embedded_data emb v n).0 v
unfolding get_embedded_data
get_embedded_data-IsKept emb v n = elim (Bool-cases (leb 1 n && ltb n 5)) [
  | inl part ↦ rw part (five_sets _ _ _ _ _ v)
  | inr other ↦ rw other (five_sets _ _ _ _ _ v)
]

sync-IsKept : (v : List ℕ) → IsKept (put_sync dmr_sync_mask ms_sourced_audio_sync 13 v) v
unfolding dmr_sync_mask
sync-IsKept v =
    put_sync-IsKept dmr_sync_mask ms_sourced_audio_sync 13 v v (omega arith) (omega arith)
      (refl, refl, refl)

chosen :
    (c1 c2 : Bool) (x y z : List ℕ × List Bool) (v : List ℕ)
    → c1 ≡ false
    → IsKept y.0 v
    → IsKept z.0 v
    → IsKept (if c1 then x else if c2 then y else z).0 v
chosen true c2 x y z v h hy hz = cc h
chosen false true x y z v h hy hz = hy
chosen false false x y z v h hy hz = hz

burst-IsKept :
    (head : List ℕ) (b15 : ℕ) (v : List ℕ) (tx_tg src_id : ℕ) (emb : List Bool)
    → is_data b15 ≡ false
    → IsKept (dmrd_burst head b15 (some v) tx_tg src_id emb).0 v
unfolding dmrd_burst
burst-IsKept head b15 v tx_tg src_id emb voiced =
    chosen (is_data b15) (bit_and (b15 >>> 4) 0x03 == ft_voice_sync) (generate_header head, emb)
      (put_sync dmr_sync_mask ms_sourced_audio_sync 13 v, encode_embedded_data tx_tg src_id)
      (
        get_emb_data (get_embedded_data emb v (bit_and b15 0x0f)).0
            (get_embedded_data emb v (bit_and b15 0x0f)).1,
        emb,
      )
      v voiced (sync-IsKept v)
      (get_emb_data-IsKept _ v (get_embedded_data emb v (bit_and b15 0x0f)).1
        (get_embedded_data-IsKept emb v (bit_and b15 0x0f)))

voice_bytes-append :
    (d v rest : List ℕ) → IsKept d v → length v ≡ 33 → voice_bytes (d ++ rest) ≡ voice_bytes v
voice_bytes-append d v rest h l =
    ap₂ ◌++◌ (take-drop-append 13 0 d rest (omega (arith, h.2)) ∙ h.0)
      (take-drop-append 13 20 d rest (omega (arith, h.2)) ∙ ap (take 13) h.1)

burst_read :
    (head : List ℕ) (b15 : ℕ) (voice : Option (List ℕ)) (tx_tg src_id : ℕ) (emb : List Bool)
    (rest : List ℕ)
    → IsSized voice
    → (if is_data b15
        then []
        else voice_bytes ((dmrd_burst head b15 voice tx_tg src_id emb).0 ++ rest))
      ≡ carried b15 voice
unfolding carried
burst_read head b15 none tx_tg src_id emb rest h = elim (Bool-cases (is_data b15)) [
  | inl silent ↦ rw silent refl
  | inr voiced ↦ rw voiced (unfold dmrd_burst in rw voiced refl)
]
burst_read head b15 (some v) tx_tg src_id emb rest h = elim (Bool-cases (is_data b15)) [
  | inl silent ↦ rw silent refl
  | inr voiced ↦
      let kept = burst-IsKept head b15 v tx_tg src_id emb voiced in
      rw voiced (voice_bytes-append _ v rest kept h)
]

read_voice :
    (env : Env) (b : Bridge) (b15 : ℕ) (voice : Option (List ℕ))
    → IsSized voice
    → (read_packet (dmrd_packet env b b15 voice).0).voice ≡ carried b15 voice
unfolding dmrd_packet dmrd_head dmr_id_to_bytes3
read_voice env b b15 voice sized =
    burst_read _ b15 voice (bridge_tx_tg b) _ b.emb_raw (drop 33 env.unwritten) sized

-- A packet of the bridge is read with its head, and with the voice that it was given.
pub read_packet-dmrd_packet :
    (env : Env) (b : Bridge) (b15 : ℕ) (voice : Option (List ℕ))
    → b.dmr_stream_id < 2 ^ 32
    → IsSized voice
    → read_packet (dmrd_packet env b b15 voice).0 ≡ record {
      frame = record {
        seq = b.dmr_seq;
        src = dmr_id_rf24 (tx_rf_id b) % 2 ^ 24;
        dst = bridge_tx_tg b % 2 ^ 24;
        b15 = b15;
        stream = b.dmr_stream_id;
      };
      voice = carried b15 voice;
    }
read_packet-dmrd_packet env b b15 voice fits sized = λ i. record {
  frame = read_frame-dmrd_packet env b b15 voice fits i;
  voice = read_voice env b b15 voice sized i;
}
