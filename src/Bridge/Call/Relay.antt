-- ===== src/Bridge/Call/Relay.antt =====
-- A DMR call as the codec converter receives it.
use adn_bridge.Bridge.Dmrd.{
  dmrd_is_voice, dmrd_is_header, dmrd_is_terminator, dtype_vhead, is_dmrd, read_stream, byte_at,
  dmrd_parse_b15,
}
use adn_bridge.Prelude.{
  List, ℕ, ◌≡◌, ◌∷◌, ◌+◌, [], true, length, arith, take, false, drop, suc, ◌==◌, Bool, ◌++◌,
  bit_and, ==_iff, ◌&&◌, replicate, refl, sym, leb, zero,
}
use adn_bridge.Bridge.State.{
  Env, Bridge, ConvCall, put_dmr_voice, put_dmr_header, reset, put_dmr_eot,
}
use adn_bridge.Bridge.Call.{
  bridge_on_dmrd, on_voice, on_header, on_terminator, Env, List, Bridge, ℕ, ConvCall, dmrd_is_voice,
  dmrd_is_header, begin_dmr_to_ysf, ◌∷◌, dmrd_is_terminator, set_dmr_rx_identity, true,
  put_dmr_voice, length, resolve_dmr_to_ysf_identity, take, false, drop, suc, put_dmr_header,
  dtype_vhead, reset, is_dmrd, read_stream, put_dmr_eot, replicate, leb, byte_at, dmrd_parse_b15,
}

-- bridge_on_dmrd of each packet, in order.
unfoldable pub hears : Env → Bridge → List (List ℕ) → Bridge
hears env b [] = b
hears env b (p ∷ ps) = hears env (bridge_on_dmrd env b p) ps

abbrev pub AllVoice : List (List ℕ) → Type 0
AllVoice [] = Unit
AllVoice (p ∷ ps) = (dmrd_is_voice p ≡ true) × AllVoice ps

-- The calls that voice packets cause, newest first, behind earlier ones.
abbrev pub voice_calls : List (List ℕ) → List ConvCall → List ConvCall
voice_calls [] earlier = earlier
voice_calls (p ∷ ps) earlier = voice_calls ps (put_dmr_voice (take 33 (drop 20 p)) ∷ earlier)

-- A call in progress: what the converter was given, how many voice frames, and of which stream.
pub record IsRelaying (calls : List ConvCall) (frames : ℕ) (b : Bridge) : Type 0 where
  pub active : b.call_active ≡ true
  pub calls_made : b.conv ≡ calls
  pub counted : b.dmr_voice_frames ≡ frames

-- A packet is of one kind.
one_kind :
    (d v : Bool) (ft dt : ℕ)
    → (d && v && leb ft 1) ≡ true
    → (d ≡ true)
      × ((d && v && (ft == 2) && (dt == 1)) ≡ false)
      × ((d && (ft == 2) && (dt == 2)) ≡ false)
one_kind d v ft dt h = ground arith

voice_only :
    (p : List ℕ)
    → dmrd_is_voice p ≡ true
    → (is_dmrd p ≡ true) × (dmrd_is_header p ≡ false) × (dmrd_is_terminator p ≡ false)
unfolding dmrd_is_voice dmrd_is_header dmrd_is_terminator
voice_only p h =
    one_kind (is_dmrd p) (bit_and (byte_at p 15) 0x40 == 0) (dmrd_parse_b15 (byte_at p 15)).0
      (dmrd_parse_b15 (byte_at p 15)).1 h

terminator_kind :
    (d v : Bool) (ft dt : ℕ)
    → (d && (ft == 2) && (dt == 2)) ≡ true
    → (d ≡ true) × ((d && v && (ft == 2) && (dt == 1)) ≡ false)
terminator_kind d v ft dt h = ground arith

terminator_only :
    (p : List ℕ) → dmrd_is_terminator p ≡ true → (is_dmrd p ≡ true) × (dmrd_is_header p ≡ false)
unfolding dmrd_is_header dmrd_is_terminator
terminator_only p h =
    terminator_kind (is_dmrd p) (bit_and (byte_at p 15) 0x40 == 0) (dmrd_parse_b15 (byte_at p 15)).0
      (dmrd_parse_b15 (byte_at p 15)).1 h

module _ (env : Env) where
  is_voice :
      (b : Bridge) (p : List ℕ) → dmrd_is_voice p ≡ true → bridge_on_dmrd env b p ≡ on_voice env b p
  unfolding bridge_on_dmrd
  is_voice b p h = let only = voice_only p h in rw (only.0, only.1, only.2, h) refl

  is_header :
      (b : Bridge) (p : List ℕ)
      → dmrd_is_header p ≡ true
      → bridge_on_dmrd env b p ≡ on_header env b p
  unfolding bridge_on_dmrd dmrd_is_header
  is_header b p h = ground arith

  is_terminator :
      (b : Bridge) (p : List ℕ)
      → dmrd_is_terminator p ≡ true
      → bridge_on_dmrd env b p ≡ on_terminator env b
  unfolding bridge_on_dmrd
  is_terminator b p h = let only = terminator_only p h in rw (only.0, only.1, h) refl

  IsRelaying-voice :
      (calls : List ConvCall) (n : ℕ) (b : Bridge) (p : List ℕ)
      → dmrd_is_voice p ≡ true
      → IsRelaying calls n b
      → IsRelaying (put_dmr_voice (take 33 (drop 20 p)) ∷ calls) (n + 1) (bridge_on_dmrd env b p)
  unfolding on_voice
  IsRelaying-voice calls n b p h c = rw (is_voice b p h) (ground arith)

  IsRelaying-voices :
      (ps : List (List ℕ)) (calls : List ConvCall) (n : ℕ) (b : Bridge)
      → AllVoice ps
      → IsRelaying calls n b
      → IsRelaying (voice_calls ps calls) (n + length ps) (hears env b ps)
  unfolding hears
  IsRelaying-voices [] calls n b h c = let e : n + 0 ≡ n = omega arith in rw e c
  IsRelaying-voices (p ∷ ps) calls n b h c =
      let e : n + suc (length ps) ≡ n + 1 + length ps = omega arith in
      rw e (IsRelaying-voices ps _ (n + 1) _ h.1 (IsRelaying-voice calls n b p h.0 c))

  IsRelaying-late :
      (b : Bridge) (p : List ℕ)
      → dmrd_is_voice p ≡ true
      → b.call_active ≡ false
      → IsRelaying
          (put_dmr_voice (take 33 (drop 20 p)) ∷ put_dmr_header ∷ reset ∷ b.conv)
          1
          (bridge_on_dmrd env b p)
  unfolding on_voice begin_dmr_to_ysf set_dmr_rx_identity resolve_dmr_to_ysf_identity
  IsRelaying-late b p h idle = rw (is_voice b p h, idle) (ground arith)

  IsRelaying-header :
      (b : Bridge) (p : List ℕ)
      → dmrd_is_header p ≡ true
      → b.call_active ≡ false
      → (b.dmr_last_dtype == dtype_vhead) ≡ false
      → IsRelaying (put_dmr_header ∷ reset ∷ b.conv) 0 (bridge_on_dmrd env b p)
  unfolding on_header begin_dmr_to_ysf set_dmr_rx_identity resolve_dmr_to_ysf_identity
  IsRelaying-header b p h idle new = rw (is_header b p h, idle, new) (ground arith)

  IsRelaying-repeat :
      (calls : List ConvCall) (n : ℕ) (b : Bridge) (p : List ℕ)
      → dmrd_is_header p ≡ true
      → b.dmr_stream_id ≡ read_stream p
      → b.dmr_last_dtype ≡ dtype_vhead
      → IsRelaying calls n b
      → IsRelaying calls n (bridge_on_dmrd env b p)
        × ((bridge_on_dmrd env b p).dmr_stream_id ≡ read_stream p)
        × ((bridge_on_dmrd env b p).dmr_last_dtype ≡ dtype_vhead)
  unfolding on_header set_dmr_rx_identity resolve_dmr_to_ysf_identity
  IsRelaying-repeat calls n b p h same again c =
      let e : (read_stream p == b.dmr_stream_id) ≡ true =
        (==_iff (read_stream p) b.dmr_stream_id).1 (sym same) in
      rw (is_header b p h, c.active, e, again) (ground arith)

  IsRelaying-repeats :
      (k : ℕ) (calls : List ConvCall) (n : ℕ) (b : Bridge) (p : List ℕ)
      → dmrd_is_header p ≡ true
      → b.dmr_stream_id ≡ read_stream p
      → b.dmr_last_dtype ≡ dtype_vhead
      → IsRelaying calls n b
      → IsRelaying calls n (hears env b (replicate k p))
  unfolding hears
  IsRelaying-repeats zero calls n b p h same again c = c
  IsRelaying-repeats (suc k) calls n b p h same again c =
      let next = IsRelaying-repeat calls n b p h same again c in
      IsRelaying-repeats k calls n _ p h next.1 next.2 next.0

  IsRelaying-terminator :
      (calls : List ConvCall) (n : ℕ) (b : Bridge) (p : List ℕ)
      → dmrd_is_terminator p ≡ true
      → IsRelaying calls n b
      → IsRelaying (put_dmr_eot ∷ calls) n (bridge_on_dmrd env b p)
  unfolding on_terminator
  IsRelaying-terminator calls n b p h c = rw (is_terminator b p h, c.active) (ground arith)

  hears-append :
      (b : Bridge) (ps qs : List (List ℕ)) → hears env b (ps ++ qs) ≡ hears env (hears env b ps) qs
  unfolding hears
  hears-append b [] qs = refl
  hears-append b (p ∷ ps) qs = hears-append (bridge_on_dmrd env b p) ps qs

  header_marks :
      (b : Bridge) (p : List ℕ)
      → dmrd_is_header p ≡ true
      → b.call_active ≡ false
      → (read_stream p == 0) ≡ false
      → ((bridge_on_dmrd env b p).dmr_stream_id ≡ read_stream p)
        × ((bridge_on_dmrd env b p).dmr_last_dtype ≡ dtype_vhead)
  unfolding on_header begin_dmr_to_ysf set_dmr_rx_identity resolve_dmr_to_ysf_identity
  header_marks b p h idle some = rw (is_header b p h, idle, some) (ground arith)

  -- A call that comes in whole, a header that is repeated any number of times, voice frames and a
  -- terminator, makes the converter see a reset, one header, every voice frame once and in order,
  -- and the end, where no call is active, the last data type seen is not that of a header, and the
  -- stream is not 0. Each voice frame is counted.
  pub dmr_call_relayed :
      (b : Bridge) (header end : List ℕ) (k : ℕ) (voices : List (List ℕ))
      → b.call_active ≡ false
      → (b.dmr_last_dtype == dtype_vhead) ≡ false
      → dmrd_is_header header ≡ true
      → (read_stream header == 0) ≡ false
      → AllVoice voices
      → dmrd_is_terminator end ≡ true
      → IsRelaying
          (put_dmr_eot ∷ voice_calls voices (put_dmr_header ∷ reset ∷ b.conv))
          (length voices)
          (hears env b (header ∷ (replicate k header ++ (voices ++ (end ∷ [])))))
  unfolding hears
  dmr_call_relayed b header end k voices idle new hh stream hv he =
      let b1 = bridge_on_dmrd env b header in
      let marks = header_marks b header hh idle stream in
      let b2 = hears env b1 (replicate k header) in
      let c2 =
        IsRelaying-repeats k _ 0 b1 header hh marks.0 marks.1
          (IsRelaying-header b header hh idle new) in
      let c3 = IsRelaying-voices voices _ 0 b2 hv c2 in
      let e : 0 + length voices ≡ length voices = omega arith in
      rw
        (
          hears-append b1 (replicate k header) (voices ++ (end ∷ [])),
          hears-append b2 voices (end ∷ []),
        )
        (IsRelaying-terminator _ (length voices) _ end he (rw (← e) c3))

  -- A call whose headers were lost starts at its first voice frame: the converter sees a reset and
  -- a header before it, then every voice frame once and in order, and the end.
  pub late_entry_relayed :
      (b : Bridge) (first end : List ℕ) (voices : List (List ℕ))
      → b.call_active ≡ false
      → dmrd_is_voice first ≡ true
      → AllVoice voices
      → dmrd_is_terminator end ≡ true
      → IsRelaying
          (put_dmr_eot ∷ voice_calls (first ∷ voices) (put_dmr_header ∷ reset ∷ b.conv))
          (1 + length voices)
          (hears env b (first ∷ (voices ++ (end ∷ []))))
  unfolding hears
  late_entry_relayed b first end voices idle hf hv he =
      let b1 = bridge_on_dmrd env b first in
      let c1 = IsRelaying-voices voices _ 1 b1 hv (IsRelaying-late b first hf idle) in
      rw (hears-append b1 voices (end ∷ []))
        (IsRelaying-terminator _ (1 + length voices) _ end he c1)
