-- ===== src/Bridge/Ysf/Relay.antt =====
-- A YSF call as the codec converter receives it.
use adn_bridge.Bridge.ConnectPtt.{abort_connect_ptt}
use adn_bridge.Fich.Fields.{ysf_fich_decode_fields, ysf_fich_get_dgid}
use adn_bridge.Bridge.Ysf.Receive.{
  bridge_on_ysfd, is_ysfd, other_room, on_ysf_frame, on_ysf_header, on_ysf_voice, on_ysf_terminator,
  start_ysf_call, fi_terminator, fi_communications, fi_header,
}
use adn_bridge.Bridge.Ysf.Talker.{
  assign_ysf_talker, try_header, wire_src_fallback, resolve_ysf_header, ysf_modeconv_chunk,
  dbg_label10, assign_from, ysf_talker_ready,
}
use adn_bridge.Bridge.Time.{Timespec}
use adn_bridge.Prelude.{
  true, false, ◌∷◌, [], none, some, inl, inr, List, Bool, ℕ, ◌≡◌, ◌<◌, arith, ◌⊎◌, ap, refl, drop,
  subst, Option, sym, ◌+◌, length, ◌++◌, suc,
}
use adn_bridge.Bridge.State.{
  Env, Bridge, ConvCall, put_ysf_header, put_ysf_eot, put_ysf_payload, reset,
}

-- bridge_on_ysfd of each frame, in order.
unfoldable pub hears_ysf :
    Env → Timespec → List ℕ → List ℕ → Bridge → List (List ℕ) → List ℕ × Bridge
hears_ysf env now scratch fich b [] = (fich, b)
hears_ysf env now scratch fich b (p ∷ ps) =
    let (f, b1) = bridge_on_ysfd env now scratch fich b p in hears_ysf env now scratch f b1 ps

-- A frame of the reflector of the kind `fi`, of the room `dgid` or of none.
pub record IsFrame (scratch : List ℕ) (dgid fi : ℕ) (pkt : List ℕ) : Type 0 where
  pub is_tagged : is_ysfd pkt ≡ true
  pub kind : (ysf_fich_decode_fields scratch pkt).1.fi ≡ fi
  pub room : other_room dgid (ysf_fich_get_dgid (ysf_fich_decode_fields scratch pkt).0) ≡ false

abbrev pub AllFrames : List ℕ → ℕ → ℕ → List (List ℕ) → Type 0
AllFrames scratch dgid fi [] = Unit
AllFrames scratch dgid fi (p ∷ ps) = IsFrame scratch dgid fi p × AllFrames scratch dgid fi ps

-- The calls that voice frames cause, newest first, behind earlier ones.
abbrev pub payload_calls : List (List ℕ) → List ConvCall → List ConvCall
payload_calls [] earlier = earlier
payload_calls (p ∷ ps) earlier = payload_calls ps (put_ysf_payload (ysf_modeconv_chunk p) ∷ earlier)

-- A call in progress: what the converter was given, how many voice frames, in which room, and that
-- it has a DMR id.
pub record IsHearing (calls : List ConvCall) (frames dgid : ℕ) (b : Bridge) : Type 0 where
  pub active : b.call_active ≡ true
  pub calls_made : b.conv ≡ calls
  pub counted : b.ysf_voice_frames ≡ frames
  pub same_room : b.ysf.dgid ≡ dgid
  pub has_talker : 0 < b.ysf_rf_id

-- What finding the talker leaves as it was, where it finds one.
pub record IsFound (b : Bridge) (r : Bool × Bridge) : Type 0 where
  pub found : r.0 ≡ true
  pub active : r.1.call_active ≡ b.call_active
  pub calls_made : r.1.conv ≡ b.conv
  pub counted : r.1.ysf_voice_frames ≡ b.ysf_voice_frames
  pub peer : r.1.ysf ≡ b.ysf
  pub ptt_kept : r.1.ptt ≡ b.ptt
  pub has_talker : 0 < r.1.ysf_rf_id

module _ (env : Env) where
  assign-IsFound :
      (b : Bridge) (src : List ℕ) → 0 < b.dmr.dmrid → IsFound b (assign_ysf_talker env b src)
  unfolding assign_ysf_talker
  assign-IsFound b src pos = ground arith

  from-IsFound :
      (b : Bridge) (o : Option (List ℕ × List ℕ))
      → 0 < b.dmr.dmrid
      → IsFound b (assign_from env b o) ⊎ (assign_from env b o ≡ (false, b))
  unfolding assign_from
  from-IsFound b none pos = inr refl
  from-IsFound b (some (csd_src, csd_dst)) pos = inl (assign-IsFound b csd_src pos)

  try-IsFound :
      (b : Bridge) (rf : List ℕ) (r : Bool × Bridge)
      → 0 < b.dmr.dmrid
      → IsFound b r ⊎ (r ≡ (false, b))
      → IsFound b (try_header env rf r) ⊎ (try_header env rf r ≡ (false, b))
  unfolding try_header
  try-IsFound b rf (true, b1) pos h = h
  try-IsFound b rf (false, b1) pos (inl f) = absurd (cc f.found)
  try-IsFound b rf (false, b1) pos (inr e) =
      let same : b1 ≡ b = ap (λ (r : Bool × Bridge). r.1) e in
      subst
        (λ (x : Bridge).
          IsFound b (assign_from env x (env.process_header rf))
          ⊎ (assign_from env x (env.process_header rf) ≡ (false, b)))
        (sym same) (from-IsFound b (env.process_header rf) pos)

  fallback-IsFound :
      (b : Bridge) (pkt : List ℕ) (r : Bool × Bridge)
      → 0 < b.dmr.dmrid
      → IsFound b r ⊎ (r ≡ (false, b))
      → IsFound b (wire_src_fallback env pkt r)
  unfolding wire_src_fallback
  fallback-IsFound b pkt (true, b1) pos (inl f) = f
  fallback-IsFound b pkt (true, b1) pos (inr e) = absurd (cc (ap (λ (r : Bool × Bridge). r.0) e))
  fallback-IsFound b pkt (false, b1) pos (inl f) = absurd (cc f.found)
  fallback-IsFound b pkt (false, b1) pos (inr e) =
      let same : b1 ≡ b = ap (λ (r : Bool × Bridge). r.1) e in
      rw same (assign-IsFound b (dbg_label10 (drop 14 pkt)) pos)

  -- A bridge with an id of its own finds a talker in every header.
  resolve-IsFound :
      (b : Bridge) (pkt : List ℕ) → 0 < b.dmr.dmrid → IsFound b (resolve_ysf_header env b pkt)
  unfolding resolve_ysf_header
  resolve-IsFound b pkt pos =
      fallback-IsFound b pkt _ pos
        (try-IsFound b _ _ pos (try-IsFound b _ (false, b) pos (inr refl)))

module _ (env : Env) (now : Timespec) (scratch : List ℕ) where
  -- A frame that is meant for the bridge is taken by its kind.
  taken_by_kind :
      (fich : List ℕ) (b : Bridge) (fi : ℕ) (p : List ℕ)
      → IsFrame scratch b.ysf.dgid fi p
      → (bridge_on_ysfd env now scratch fich b p).1 ≡ on_ysf_frame env now fi b p
  unfolding bridge_on_ysfd
  taken_by_kind fich b fi p f =
      let tagged = f.is_tagged in
      let room = f.room in let kind = f.kind in rw (tagged, room, kind) refl

  IsHearing-header :
      (fich : List ℕ) (b : Bridge) (p : List ℕ)
      → b.call_active ≡ false
      → b.ptt.active ≡ false
      → 0 < b.dmr.dmrid
      → IsFrame scratch b.ysf.dgid fi_header p
      → IsHearing
          (put_ysf_header ∷ reset ∷ b.conv)
          b.ysf_voice_frames
          b.ysf.dgid
          (bridge_on_ysfd env now scratch fich b p).1
  unfolding on_ysf_frame on_ysf_header start_ysf_call abort_connect_ptt ysf_talker_ready
  IsHearing-header fich b p idle quiet pos f =
      let found = resolve-IsFound env b p pos in
      rw (taken_by_kind fich b fi_header p f) (ground (arith, found))

  IsHearing-voice :
      (fich : List ℕ) (calls : List ConvCall) (n : ℕ) (b : Bridge) (p : List ℕ)
      → IsFrame scratch b.ysf.dgid fi_communications p
      → IsHearing calls n b.ysf.dgid b
      → IsHearing
          (put_ysf_payload (ysf_modeconv_chunk p) ∷ calls)
          (n + 1)
          b.ysf.dgid
          (bridge_on_ysfd env now scratch fich b p).1
  unfolding on_ysf_frame on_ysf_voice ysf_talker_ready
  IsHearing-voice fich calls n b p f h =
      rw (taken_by_kind fich b fi_communications p f) (ground (arith, h))

  IsHearing-terminator :
      (fich : List ℕ) (calls : List ConvCall) (n : ℕ) (b : Bridge) (p : List ℕ)
      → IsFrame scratch b.ysf.dgid fi_terminator p
      → IsHearing calls n b.ysf.dgid b
      → IsHearing (put_ysf_eot ∷ calls) n b.ysf.dgid (bridge_on_ysfd env now scratch fich b p).1
  unfolding on_ysf_frame on_ysf_terminator
  IsHearing-terminator fich calls n b p f h =
      rw (taken_by_kind fich b fi_terminator p f) (ground (arith, h))

  -- The same, in a room that is named.
  room_voice :
      (fich : List ℕ) (calls : List ConvCall) (n d : ℕ) (b : Bridge) (p : List ℕ)
      → IsFrame scratch d fi_communications p
      → IsHearing calls n d b
      → IsHearing
          (put_ysf_payload (ysf_modeconv_chunk p) ∷ calls)
          (n + 1)
          d
          (bridge_on_ysfd env now scratch fich b p).1
  room_voice fich calls n d b p f h =
      subst
        (λ (e : ℕ).
          IsFrame scratch e fi_communications p
          → IsHearing calls n e b
          → IsHearing (put_ysf_payload (ysf_modeconv_chunk p) ∷ calls) (n + 1) e
              (bridge_on_ysfd env now scratch fich b p).1)
        h.same_room (IsHearing-voice fich calls n b p) f h

  room_end :
      (fich : List ℕ) (calls : List ConvCall) (n d : ℕ) (b : Bridge) (p : List ℕ)
      → IsFrame scratch d fi_terminator p
      → IsHearing calls n d b
      → IsHearing (put_ysf_eot ∷ calls) n d (bridge_on_ysfd env now scratch fich b p).1
  room_end fich calls n d b p f h =
      subst
        (λ (e : ℕ).
          IsFrame scratch e fi_terminator p
          → IsHearing calls n e b
          → IsHearing (put_ysf_eot ∷ calls) n e (bridge_on_ysfd env now scratch fich b p).1)
        h.same_room (IsHearing-terminator fich calls n b p) f h

  room_voices :
      (fich : List ℕ) (ps : List (List ℕ)) (calls : List ConvCall) (n d : ℕ) (b : Bridge)
      (end : List ℕ)
      → AllFrames scratch d fi_communications ps
      → IsFrame scratch d fi_terminator end
      → IsHearing calls n d b
      → IsHearing
          (put_ysf_eot ∷ payload_calls ps calls)
          (n + length ps)
          d
          (hears_ysf env now scratch fich b (ps ++ (end ∷ []))).1
  unfolding hears_ysf
  room_voices fich [] calls n d b end hv he h =
      let e : n + 0 ≡ n = omega arith in rw e (room_end fich calls n d b end he h)
  room_voices fich (p ∷ ps) calls n d b end hv he h =
      let e : n + suc (length ps) ≡ n + 1 + length ps = omega arith in
      let next = bridge_on_ysfd env now scratch fich b p in
      rw e (
        room_voices next.0 ps _ (n + 1) d next.1 end hv.1 he (room_voice fich calls n d b p hv.0 h))

  -- A call that comes in whole, a header, voice frames and a terminator of the bridge's room or of
  -- none, makes the converter see a reset, the header, every voice frame once and in order, and the
  -- end, where no call and no connect PTT is active and the bridge has an id above 0. The call then
  -- has a DMR id above 0, whoever speaks, and each voice frame is counted.
  pub ysf_call_relayed :
      (fich : List ℕ) (b : Bridge) (header end : List ℕ) (voices : List (List ℕ))
      → b.call_active ≡ false
      → b.ptt.active ≡ false
      → 0 < b.dmr.dmrid
      → IsFrame scratch b.ysf.dgid fi_header header
      → AllFrames scratch b.ysf.dgid fi_communications voices
      → IsFrame scratch b.ysf.dgid fi_terminator end
      → IsHearing
          (put_ysf_eot ∷ payload_calls voices (put_ysf_header ∷ reset ∷ b.conv))
          (b.ysf_voice_frames + length voices)
          b.ysf.dgid
          (hears_ysf env now scratch fich b (header ∷ (voices ++ (end ∷ [])))).1
  unfolding hears_ysf
  ysf_call_relayed fich b header end voices idle quiet pos hh hv he =
      let next = bridge_on_ysfd env now scratch fich b header in
      room_voices next.0 voices _ b.ysf_voice_frames b.ysf.dgid next.1 end hv he
        (IsHearing-header fich b header idle quiet pos hh)
