-- ===== src/Bridge/Call/Emit.antt =====
-- The frames of a YSF call on the DMR side, read as their receiver reads them.
use adn_bridge.Bridge.Dmrd.{dmr_id_rf24, dmr_silence_data}
use adn_bridge.Bridge.ConnectPtt.Session.{closed_frames, round_up}
use adn_bridge.Bridge.Send.{tx_rf_id, bridge_send_dmrd}
use adn_bridge.Bridge.ConnectPtt.{send_vheads, send_silence, vhead_type, vterm_type}
use adn_bridge.Bridge.Wire.Voice.{Packet, read_packet-dmrd_packet}
use adn_bridge.Bridge.Time.{Timespec}
use adn_bridge.Prelude.{
  refl, ap, sym, ◌∙◌, ℕ, List, ◌∷◌, ◌≡◌, ◌%◌, ◌+◌, suc, ◌^◌, arith, ◌≤◌, [], length, ◌<◌, some,
  Bool-cases, ◌++◌, none, false, zero, ◌==◌, inl, ==_iff, inr,
}
use adn_bridge.Bridge.State.{Env, Bridge, bridge_tx_tg, reset}
use adn_bridge.Bridge.ConnectPtt.Stream.{
  Talk, silence_sized, frames_sent, voice_b15, head_frames, talk_frames, send_some,
}
use adn_bridge.Bridge.Call.{
  emit_dmr_from_conv, pad_call, reset_call, Env, ℕ, List, Timespec, Bridge, send_vheads,
  send_silence, ◌∷◌, suc, tag_header, tag_eot, tag_data, bridge_send_dmrd, length, some, none,
  false, reset, vterm_type,
}

-- A bridge that sends for the talk `t`, `n` packets into it.
pub record IsTx (t : Talk) (n : ℕ) (b : Bridge) : Type 0 where
  pub dst : bridge_tx_tg b % 2 ^ 24 ≡ t.dst
  pub slot : b.dmr_slot_bit ≡ t.slot
  pub has_id : 0 < tx_rf_id b
  pub src : dmr_id_rf24 (tx_rf_id b) % 2 ^ 24 ≡ t.src
  pub stream : b.dmr_stream_id ≡ t.stream
  pub small : b.dmr_stream_id < 2 ^ 32
  pub seq : b.dmr_seq ≡ n % 256

-- One that has sent `n` of the headers.
pub record IsHeading (t : Talk) (before : List Packet) (n : ℕ) (b : Bridge) : Type 0 where
  pub on_air : IsTx t n b
  pub counted : b.dmr_tx_frames ≡ 0
  pub frames : frames_sent b ≡ head_frames t n ++ before

-- One that has sent the headers and `v` voice frames.
pub record IsVoicing (t : Talk) (voice : ℕ → List ℕ) (before : List Packet) (v : ℕ) (b : Bridge)
    : Type 0 where
  pub on_air : IsTx t (v + 3) b
  pub counted : b.dmr_tx_frames ≡ v
  pub frames : frames_sent b ≡ talk_frames voice t v ++ before

module _ (env : Env) (now : Timespec) where
  IsHeading-send :
      (t : Talk) (before : List Packet) (n : ℕ) (b : Bridge)
      → IsHeading t before n b
      → IsHeading t before (suc n) (bridge_send_dmrd env b (vhead_type b) none now)
  unfolding bridge_tx_tg tx_rf_id
  IsHeading-send t before n b h =
      rw (send_some env now b (vhead_type b) none h.on_air.has_id)
        (ground (arith, read_packet-dmrd_packet env b (vhead_type b) none h.on_air.small tt))

  IsHeading-sends :
      (k : ℕ) (t : Talk) (before : List Packet) (n : ℕ) (b : Bridge)
      → IsHeading t before n b
      → IsHeading t before (n + k) (send_vheads env now k b)
  unfolding send_vheads
  IsHeading-sends zero t before n b h = let e : n + 0 ≡ n = omega arith in rw e h
  IsHeading-sends (suc k) t before n b h =
      let e : n + suc k ≡ suc n + k = omega arith in
      rw e (IsHeading-sends k t before (suc n) _ (IsHeading-send t before n b h))

  pub IsVoicing-header :
      (t : Talk) (voice : ℕ → List ℕ) (before : List Packet) (b : Bridge)
      → IsHeading t before 0 b
      → IsVoicing t voice before 0 (emit_dmr_from_conv env now b tag_header)
  unfolding emit_dmr_from_conv tx_rf_id
  IsVoicing-header t voice before b h = let h3 = IsHeading-sends 3 t before 0 b h in ground arith

  IsVoicing-send :
      (t : Talk) (voice : ℕ → List ℕ) (before : List Packet) (v : ℕ) (b : Bridge) (b15 : ℕ)
      (data33 : List ℕ)
      → b15 ≡ voice_b15 t (v % 6)
      → voice v ≡ data33
      → length data33 ≡ 33
      → IsVoicing t voice before v b
      → IsVoicing t voice before (suc v) (record (bridge_send_dmrd env b b15 (some data33) now) {
        dmr_tx_frames = b.dmr_tx_frames + 1;
      })
  unfolding bridge_tx_tg tx_rf_id
  IsVoicing-send t voice before v b b15 data33 e same sized h =
      rw (send_some env now b b15 (some data33) h.on_air.has_id)
        (ground (arith, read_packet-dmrd_packet env b b15 (some data33) h.on_air.small sized))

  pub IsVoicing-data :
      (t : Talk) (voice : ℕ → List ℕ) (before : List Packet) (v : ℕ) (b : Bridge) (data33 : List ℕ)
      → voice v ≡ data33
      → length data33 ≡ 33
      → IsVoicing t voice before v b
      → IsVoicing t voice before (suc v) (emit_dmr_from_conv env now b (tag_data data33))
  unfolding emit_dmr_from_conv
  IsVoicing-data t voice before v b data33 same sized h =
      IsVoicing-send t voice before v b _ data33 (ground arith) same sized h

  IsVoicing-pad :
      (fuel : ℕ) (t : Talk) (voice : ℕ → List ℕ) (before : List Packet) (v w : ℕ) (b : Bridge)
      → ((n : ℕ) → v ≤ n → voice n ≡ dmr_silence_data)
      → IsVoicing t voice before v b
      → w % 6 ≡ 0
      → v ≤ w
      → w < v + 6
      → w ≤ v + fuel
      → IsVoicing t voice before w (pad_call env now fuel b)
  unfolding pad_call send_silence
  IsVoicing-pad zero t voice before v w b quiet h e le lt enough =
      let same : v ≡ w = omega arith in rw (← same) h
  IsVoicing-pad (suc fuel) t voice before v w b quiet h e le lt enough =
      elim (Bool-cases (b.dmr_tx_frames % 6 == 0)) [
        | inl whole ↦
            let same : v ≡ w = omega (arith, h.counted, (==_iff (b.dmr_tx_frames % 6) 0).0 whole) in
            rw whole (rw (← same) h)
        | inr partial ↦ rw partial (
            IsVoicing-pad fuel t voice before (suc v) w _ (λ n le. quiet n (omega (arith, le)))
              (IsVoicing-send t voice before v b _ dmr_silence_data (ground arith)
                (quiet v (omega arith)) silence_sized h)
              e (ground arith) (omega arith) (omega arith))
      ]

  -- The end of a call.
  pub eot_closes :
      (t : Talk) (voice : ℕ → List ℕ) (before : List Packet) (v : ℕ) (b : Bridge) (last : List ℕ)
      → ((n : ℕ) → v ≤ n → voice n ≡ dmr_silence_data)
      → length last ≡ 33
      → IsVoicing t voice before v b
      → let b' = emit_dmr_from_conv env now b (tag_eot last) in
        (frames_sent b' ≡ closed_frames voice last t v before)
        × (b'.call_active ≡ false)
        × (b'.ysf_rf_id ≡ 0)
        × (b'.conv ≡ reset ∷ (pad_call env now 6 b).conv)
  unfolding emit_dmr_from_conv reset_call bridge_tx_tg
  eot_closes t voice before v b last quiet sized h =
      let b1 = pad_call env now 6 b in
      let h1 =
        IsVoicing-pad 6 t voice before v (round_up v) b quiet h (omega arith) (omega arith)
          (omega arith) (omega arith) in
      rw (send_some env now b1 (vterm_type b1) (some last) h1.on_air.has_id) (
        ground
          (arith, read_packet-dmrd_packet env b1 (vterm_type b1) (some last) h1.on_air.small sized))

-- bridge_emit_dmr_from_conv of each voice frame, at the time that stands with it.
unfoldable pub emit_voices : Env → Bridge → List (Timespec × List ℕ) → Bridge
emit_voices env b [] = b
emit_voices env b (v ∷ vs) = emit_voices env (emit_dmr_from_conv env v.0 b (tag_data v.1)) vs

-- The voice of each frame of a call: what was given for it, and silence behind.
abbrev pub played : List (Timespec × List ℕ) → ℕ → List ℕ
played [] n = dmr_silence_data
played (v ∷ vs) zero = v.1
played (v ∷ vs) (suc n) = played vs n

-- Each voice is a burst of 33 bytes.
abbrev pub AllSized : List (Timespec × List ℕ) → Type 0
AllSized [] = Unit
AllSized (v ∷ vs) = (length v.1 ≡ 33) × AllSized vs

played-behind :
    (voices : List (Timespec × List ℕ)) (n : ℕ)
    → length voices ≤ n
    → played voices n ≡ dmr_silence_data
played-behind [] n h = refl
played-behind (v ∷ vs) zero h = absurd (omega arith)
played-behind (v ∷ vs) (suc n) h = played-behind vs n (omega arith)

IsVoicing-voices :
    (env : Env) (voices : List (Timespec × List ℕ)) (t : Talk) (voice : ℕ → List ℕ)
    (before : List Packet) (v : ℕ) (b : Bridge)
    → AllSized voices
    → ((n : ℕ) → voice (v + n) ≡ played voices n)
    → IsVoicing t voice before v b
    → IsVoicing t voice before (v + length voices) (emit_voices env b voices)
unfolding emit_voices
IsVoicing-voices env [] t voice before v b sized same h = let e : v + 0 ≡ v = omega arith in rw e h
IsVoicing-voices env (x ∷ xs) t voice before v b sized same h =
    let e : v + suc (length xs) ≡ suc v + length xs = omega arith in
    let first : v + 0 ≡ v = omega arith in
    let next =
      λ (n : ℕ). let shift : suc v + n ≡ v + suc n = omega arith in ap voice shift ∙ same (suc n) in
    rw e (
      IsVoicing-voices env xs t voice before (suc v) _ sized.1 next
        (IsVoicing-data env x.0 t voice before v b x.1 (ap voice (sym first) ∙ same 0) sized.0 h))

-- A call that the converter gives as a header, voice frames of 33 bytes and an end is sent as three
-- headers, the voice frames, frames of silence up to a whole superframe of six and a terminator,
-- numbered in order, all with the id, talkgroup and stream of the call, where an id is set, the
-- stream fits 32 bits and the call starts at sequence number 0 with no frame counted. A receiver
-- reads off each voice frame the voice given for it, and off the others DMR_SILENCE_DATA, as far
-- as bytes 0 to 12 and 20 to 32 of the burst go, where the slot bit leaves it the type of a voice
-- frame, as 0 and 0x80 do. After it no call is active and no talker is set.
pub ysf_call_sent :
    (env : Env) (t : Talk) (before : List Packet) (b : Bridge) (start end : Timespec)
    (voices : List (Timespec × List ℕ)) (last : List ℕ)
    → IsHeading t before 0 b
    → AllSized voices
    → length last ≡ 33
    → let b' =
        emit_dmr_from_conv env end
          (emit_voices env (emit_dmr_from_conv env start b tag_header) voices)
          (tag_eot last) in
      (frames_sent b' ≡ closed_frames (played voices) last t (length voices) before)
      × (b'.call_active ≡ false)
      × (b'.ysf_rf_id ≡ 0)
ysf_call_sent env t before b start end voices last h sized sized_last =
    let voice = played voices in
    let h1 = IsVoicing-header env start t voice before b h in
    let e : 0 + length voices ≡ length voices = omega arith in
    let h2 : IsVoicing t voice before (length voices)
        (emit_voices env (emit_dmr_from_conv env start b tag_header) voices) =
      rw (← e) (IsVoicing-voices env voices t voice before 0 _ sized same h1) in
    let closed =
      eot_closes env end t voice before (length voices) _ last (played-behind voices) sized_last
        h2 in
    (closed.0, closed.1, closed.2)
  where
    same : (n : ℕ) → played voices (0 + n) ≡ played voices n
    same n = let e : 0 + n ≡ n = omega arith in ap (played voices) e
