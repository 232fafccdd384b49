-- ===== src/Bridge/Ysf/Heard.antt =====
-- What a bridge sends to YSF is heard by another one: the voice frames.
use adn_bridge.PeerYsf.Link.{peer_ysf_send_ysfd, peer_ysf_send}
use adn_bridge.Bridge.Ysf.Relay.{IsFrame}
use adn_bridge.Bridge.Time.{Timespec}
use adn_bridge.Fich.Fields.Outbound.{decode-encode_outbound}
use adn_bridge.Fich.Frame.Interleave.{places}
use adn_bridge.Fich.Bits.Laws.{write_bits-IsBytes}
use adn_bridge.Bridge.Ysf.Receive.{is_ysfd, fi_communications, other_room}
use adn_bridge.Fich.Tables.Small.{interleave_table}
use adn_bridge.Fich.Fields.{
  ysf_sync_word, ysf_fich_encode_outbound, offset_rx, ysf_fich_decode_at, outbound_fich, offset_net,
  fich_at, ysf_fich_get_dgid, Fields, ysf_fich_guess_rx_offset, ysf_fich_rewrite_dgid,
  ysf_fich_decode_fields, same_bytes, fich_encode_at, fich_set_dgid, fich_set_dt, dt_vd_mode2,
  fich_set_voip,
}
use adn_bridge.Fich.Frame.Interleave.{scatter_bits}
use adn_bridge.Fich.Frame.{fich_encode, fich_decode}
use adn_bridge.PeerDmr.Wire.{codes}
use adn_bridge.Bridge.Ysf.Send.{
  ysfd_headers, Unset, ysf_fich_ft, ysf_fich_cm, ysfd_body, voice_fn, ysf_dch, voice_body,
  voice_net, emit_ysf_from_conv, ysf_data, bridge_send_ysfd, write_csd,
}
use adn_bridge.Bridge.State.{Bridge, Env}
use adn_bridge.Bridge.Ysf.Rooms.{same_run, read_back, stamped-is_ysfd}
use adn_bridge.Fich.Fields.Wire.{
  IsScratch, length-fich_encode, decode_at-rewrite_dgid, ysf_fich_decode_fields_lem, take-IsBytes,
  drop-IsBytes,
}
use adn_bridge.Prelude.{
  true, false, if◌then◌else◌, ◌∷◌, [], inl, inr, List, ℕ, length, ◌≡◌, IsBytes, ◌<◌, take, ◌++◌,
  length-append, arith, splice, drop, length-splice, length-take, ◌∙◌, refl, length-drop, sym, ◌+◌,
  get_or-splice_before, take-drop-splice, ap, drop-append, Bool-cases, ltb, subst, Bool, ◌≤◌,
  get_or, ◌==◌, ==_iff,
}

-- The writer of the payload's slots keeps the 120 bytes of the payload and its sync word, and
-- writes bytes.
pub record IsSlotWriter (write_dch : List ℕ → List ℕ → List ℕ) : Type 0 where
  pub size : (p d : List ℕ) → length (write_dch p d) ≡ length p
  pub sync : (p d : List ℕ) → take 5 (write_dch p d) ≡ take 5 p
  pub bytes : (p d : List ℕ) → IsBytes p → IsBytes (write_dch p d)

-- The labels of a frame are of ten bytes.
pub record IsLabelled (b : Bridge) : Type 0 where
  pub callsign_size : length b.ysf.callsign ≡ 10
  pub callsign_bytes : IsBytes b.ysf.callsign
  pub src_size : length b.net_src ≡ 10
  pub src_bytes : IsBytes b.net_src

append-IsBytes : (xs ys : List ℕ) → IsBytes xs → IsBytes ys → IsBytes (xs ++ ys)
append-IsBytes [] ys hx hy = hy
append-IsBytes (x ∷ xs) ys hx hy = (hx.0, append-IsBytes xs ys hx.1 hy)

ysfd_headers_facts :
    (b : Bridge) (cnt : ℕ)
    → IsLabelled b
    → cnt < 256
    → (length (ysfd_headers b cnt) ≡ 35) × IsBytes (ysfd_headers b cnt)
unfolding ysfd_headers
ysfd_headers_facts b cnt h lt =
    let tail = codes "ALL       " ++ (cnt ∷ []) in
    let size = length-append b.net_src tail in
    let more = length-append b.ysf.callsign (b.net_src ++ tail) in
    let c = h.callsign_size in
    let s = h.src_size in
    let tail_bytes : IsBytes tail = search (lt, arith) in
    let named = append-IsBytes b.net_src tail h.src_bytes tail_bytes in
    let rest = append-IsBytes b.ysf.callsign (b.net_src ++ tail) h.callsign_bytes named in
    (
      omega (arith, size, more, c, s),
      (omega arith, (omega arith, (omega arith, (omega arith, rest)))),
    )

fich_encode-IsBytes :
    (fich scratch bytes : List ℕ) → IsBytes bytes → IsBytes (fich_encode fich scratch bytes).1
unfolding fich_encode
fich_encode-IsBytes fich scratch bytes h =
    rw (scatter_bits interleave_table 0 _ bytes)
      (write_bits-IsBytes (places interleave_table) _ bytes h)

-- The frame of a bridge, with the payload that the codec has written, before it is stamped.
module _ (b : Bridge) (unset : Unset) (cnt fn : ℕ) (body : List ℕ) (h : IsLabelled b)
    (lt : cnt < 256) (fn_lt : fn < 256) (size : length body ≡ 120) (bytes : IsBytes body)
    (synced : take 5 body ≡ ysf_sync_word) (sc : IsScratch unset.output unset.scratch) where
  abbrev blank : List ℕ
  blank = ysfd_headers b cnt ++ body

  abbrev coded : List ℕ
  coded =
      (ysf_fich_encode_outbound unset.scratch (take 25 (drop offset_rx blank)) fn fi_communications
        ysf_fich_ft ysf_fich_cm).1

  abbrev whole : List ℕ
  whole = splice offset_rx coded blank

  length-blank : length blank ≡ 155
  length-blank =
      let all = length-append (ysfd_headers b cnt) body in
      let head = (ysfd_headers_facts b cnt h lt).0 in omega (arith, all, head)

  blank-IsBytes : IsBytes blank
  blank-IsBytes = append-IsBytes (ysfd_headers b cnt) body (ysfd_headers_facts b cnt h lt).1 bytes

  region-IsBytes : IsBytes (take 25 (drop offset_rx blank))
  region-IsBytes =
      take-IsBytes 25 (drop offset_rx blank) (drop-IsBytes offset_rx blank blank-IsBytes)

  length-region : length (take 25 (drop offset_rx blank)) ≡ 25
  length-region =
      omega
        (arith, length-take 25 (drop offset_rx blank), length-drop offset_rx blank, length-blank)

  length-coded : length coded ≡ 25
  unfolding ysf_fich_encode_outbound
  length-coded =
      length-fich_encode (outbound_fich fn 1 6 0) unset.scratch (take 25 (drop offset_rx blank))
      ∙ length-region

  coded-IsBytes : IsBytes coded
  unfolding ysf_fich_encode_outbound
  coded-IsBytes =
      fich_encode-IsBytes (outbound_fich fn 1 6 0) unset.scratch (take 25 (drop offset_rx blank))
        region-IsBytes

  length-whole : length whole ≡ 155
  length-whole =
      length-splice offset_rx coded blank (omega (arith, length-coded, length-blank)) ∙ length-blank

  whole-IsBytes : IsBytes whole
  whole-IsBytes =
      append-IsBytes (take offset_rx blank) _ (take-IsBytes offset_rx blank blank-IsBytes) (
        append-IsBytes coded _ coded-IsBytes
          (drop-IsBytes (offset_rx + length coded) blank blank-IsBytes))

  whole-is_ysfd : is_ysfd whole ≡ true
  unfolding is_ysfd ysfd_headers
  whole-is_ysfd = rw length-whole refl

  whole_synced : take 5 (drop offset_net whole) ≡ ysf_sync_word
  whole_synced =
      let head = (ysfd_headers_facts b cnt h lt).0 in
      same_run 35 5 whole blank (length-whole ∙ sym length-blank) (λ i less.
        get_or-splice_before offset_rx coded blank i 0 less (omega (arith, length-blank)))
      ∙ ap (take 5) (drop-append 35 (ysfd_headers b cnt) body (sym head))
      ∙ synced

  whole_decoded :
      (ysf_fich_get_dgid (ysf_fich_decode_at unset.output whole offset_rx).0 ≡ 0)
      × ((ysf_fich_decode_at unset.output whole offset_rx).1.fi ≡ fi_communications)
  unfolding ysf_fich_decode_at fich_at
  whole_decoded =
      let here : take 25 (drop offset_rx whole) ≡ coded =
        take-drop-splice 25 offset_rx coded blank (sym length-coded)
          (omega (arith, length-blank)) in
      let back =
        decode-encode_outbound fn 1 6 0 fn_lt (omega arith) (omega arith) (omega arith)
          unset.scratch unset.output (take 25 (drop offset_rx blank)) sc region-IsBytes
          length-region in
      (rw here back.1, rw here (ap (λ (f : Fields). f.fi) back.0))

-- A frame of the bridge, stamped or not, is heard in its room.
module _ (env : Env) (now : Timespec) (output convolved fich0 w : List ℕ) (d room fi : ℕ)
    (sv : IsScratch output convolved) (hb : IsBytes w) (size : length w ≡ 155)
    (tagged : is_ysfd w ≡ true) (synced : take 5 (drop offset_net w) ≡ ysf_sync_word)
    (decoded : (ysf_fich_get_dgid (ysf_fich_decode_at output w offset_rx).0 ≡ 0)
      × ((ysf_fich_decode_at output w offset_rx).1.fi ≡ fi))
    (small : d < 256) (same : other_room room d ≡ false) where
  plain_read : ysf_fich_decode_fields output w ≡ ysf_fich_decode_at output w offset_rx
  unfolding ysf_fich_guess_rx_offset
  plain_read =
      ysf_fich_decode_fields_lem output w
      ∙ ap
          (λ (xs : List ℕ).
            ysf_fich_decode_at output w
              (if same_bytes xs ysf_sync_word then offset_rx else offset_net))
          synced

  no_room : other_room room 0 ≡ false
  unfolding other_room
  no_room = ground arith

  stamped-IsFrame : IsFrame output room fi (ysf_fich_rewrite_dgid output convolved fich0 w d).1
  unfolding ysf_fich_rewrite_dgid
  stamped-IsFrame = elim (Bool-cases (ltb d 1)) [
    | inl none_set ↦
        subst (λ (x : List ℕ). IsFrame output room fi x)
          (sym (
            ap
              (λ (c : Bool).
                let r : List ℕ × List ℕ =
                  if c
                  then (fich0, w)
                  else fich_encode_at offset_rx
                      (fich_set_dgid d (
                        fich_set_dt dt_vd_mode2
                          (fich_set_voip false (fich_decode output (fich_at offset_rx w)))))
                      convolved w in
                r.1)
              none_set))
          (record {
            is_tagged = tagged;
            kind = ap (λ (r : List ℕ × Fields). r.1.fi) plain_read ∙ decoded.1;
            room =
                ap (λ (r : List ℕ × Fields). other_room room (ysf_fich_get_dgid r.0)) plain_read
                ∙ ap (other_room room) decoded.0
                ∙ no_room;
          })
    | inr set ↦
        let pos : 1 ≤ d = ground arith in
        let back = read_back env now output convolved fich0 [] w d sv hb tagged pos small synced in
        let found = decode_at-rewrite_dgid output convolved fich0 w d sv hb size pos small in
        record {
          is_tagged = stamped-is_ysfd env now output convolved fich0 [] w d sv hb tagged pos small;
          kind =
              ap (λ (r : List ℕ × Fields). r.1.fi) back
              ∙ ap (λ (f : Fields). f.fi) found.1
              ∙ decoded.1;
          room =
              ap (λ (r : List ℕ × Fields). other_room room (ysf_fich_get_dgid r.0)) back
              ∙ ap (other_room room) found.0
              ∙ same;
        }
  ]

module _ (env : Env) (unset : Unset) (now : Timespec) (writes : IsSlotWriter env.write_dch)
    (sc : IsScratch unset.output unset.scratch) (sv : IsScratch unset.output unset.convolved)
    (fich : List ℕ) (a : Bridge) (payload : List ℕ) (room : ℕ) (h : IsLabelled a)
    (size : length payload ≡ 120) (bytes : IsBytes payload) (small : a.ysf.dgid < 256)
    (same : other_room room a.ysf.dgid ≡ false) where
  abbrev body : List ℕ
  body = ysfd_body env unset now (voice_fn a) a (voice_body payload)

  length-body : length body ≡ 120
  unfolding ysfd_body
  length-body =
      writes.size (splice 0 ysf_sync_word payload) (ysf_dch (voice_fn a) a)
      ∙ length-splice 0 ysf_sync_word payload (omega arith)
      ∙ size

  body-IsBytes : IsBytes body
  unfolding ysfd_body
  body-IsBytes =
      writes.bytes (splice 0 ysf_sync_word payload) (ysf_dch (voice_fn a) a) (
        append-IsBytes ysf_sync_word (drop 5 payload) (search arith) (drop-IsBytes 5 payload bytes))

  body_synced : take 5 body ≡ ysf_sync_word
  unfolding ysfd_body
  body_synced = writes.sync (splice 0 ysf_sync_word payload) (ysf_dch (voice_fn a) a)

  abbrev sent_frame : List ℕ
  sent_frame = get_or (emit_ysf_from_conv env unset now fich a (ysf_data payload)).1.ysf.sent 0 []

  fn_small : voice_fn a < 256
  unfolding voice_fn
  fn_small = omega arith

  net_small : voice_net a < 256
  unfolding voice_net
  net_small = omega arith

  -- The voice frame that the bridge sends for a payload of the converter is heard as a voice frame
  -- by every bridge of its room, and by those of no room, or by all where it has none itself; where
  -- the payload is 120 bytes, the labels ten each, and the codec keeps the length and the sync
  -- word.
  pub voice_heard : IsFrame unset.output room fi_communications sent_frame
  unfolding emit_ysf_from_conv bridge_send_ysfd peer_ysf_send_ysfd peer_ysf_send write_csd
  voice_heard =
      let cnt = voice_net a in
      let fn = voice_fn a in
      let w =
        whole a unset cnt fn body h net_small fn_small length-body body-IsBytes body_synced sc in
      let long =
        length-whole a unset cnt fn body h net_small fn_small length-body body-IsBytes body_synced
          sc in
      let full : (length w == 155) ≡ true = (==_iff (length w) 155).1 long in
      rw full (
        stamped-IsFrame env now unset.output unset.convolved _ w a.ysf.dgid room fi_communications
          sv
          (whole-IsBytes a unset cnt fn body h net_small fn_small length-body body-IsBytes
            body_synced sc)
          long
          (whole-is_ysfd a unset cnt fn body h net_small fn_small length-body body-IsBytes
            body_synced sc)
          (whole_synced a unset cnt fn body h net_small fn_small length-body body-IsBytes
            body_synced sc)
          (whole_decoded a unset cnt fn body h net_small fn_small length-body body-IsBytes
            body_synced sc)
          small same)
