-- ===== src/Bridge/ConnectPtt/Whole.antt =====
-- The connect PTT from the poll that starts it to the terminator.
use adn_bridge.Bridge.Send.{tx_rf_id}
use adn_bridge.PeerDmr.State.{peer_dmr_connected}
use adn_bridge.Bridge.Wire.Voice.{Packet}
use adn_bridge.Bridge.ConnectPtt.Stream.{
  Talk, IsOpening, IsTalking, IsOpening-emit, IsTalking-emit, emit_end, frames_sent, talk_frames,
  silent_voice,
}
use adn_bridge.Prelude.{
  if◌then◌else◌, List, ◌∷◌, ◌≡◌, ℕ, false, true, ◌<◌, [], ◌+◌, length, arith, suc, refl, ◌==◌,
  Bool-cases, zero, inl, inr,
}
use adn_bridge.Bridge.State.{Env, Bridge}
use adn_bridge.Bridge.Time.{Timespec, ms_elapsed}
use adn_bridge.Bridge.ConnectPtt.{
  poll_connect_ptt, start_connect_ptt, abort_connect_ptt, dmr_clear_dynamic_tg, dmr_frame_ms,
  connect_ptt_ms, Timespec, Env, Bridge, peer_dmr_connected, ms_elapsed, ℕ, false, true,
  emit_connect_ptt, suc, connect_ptt_begin_stream, connect_ptt_finish,
}
use adn_bridge.Bridge.ConnectPtt.Session.{
  emits, new_talk, next_talk, begin_opens, IsClosed, closed_ptt, finish_last, finish_next, round_up,
}

-- No time of the list is as late as the end of the PTT.
abbrev pub AllBefore : Timespec → List Timespec → Type 0
AllBefore begun [] = Unit
AllBefore begun (now ∷ times) =
    (ms_elapsed begun now connect_ptt_ms ≡ false) × AllBefore begun times

-- Each emit within the time is one voice frame.
IsTalking-emits :
    (env : Env) (times : List Timespec) (t : Talk) (before : List Packet) (v : ℕ) (b : Bridge)
    → AllBefore t.begun times
    → IsTalking t before v b
    → IsTalking t before (v + length times) (emits env times b)
unfolding emits
IsTalking-emits env [] t before v b early h = let e : v + 0 ≡ v = omega arith in rw e h
IsTalking-emits env (now ∷ times) t before v b early h =
    let e : v + suc (length times) ≡ suc v + length times = omega arith in
    rw e (
      IsTalking-emits env times t before (suc v) _ early.1
        (IsTalking-emit env now t before v b early.0 h))

-- A connect PTT whose headers are out, up to the emit that ends it.
session-IsTalking :
    (env : Env) (t : Talk) (before : List Packet) (b : Bridge) (times : List Timespec)
    → IsOpening t before 0 b
    → AllBefore t.begun times
    → IsTalking t before (length times) (emits env times (emit_connect_ptt env t.begun b))
session-IsTalking env t before b times opening early =
    let h =
      IsTalking-emits env times t before 0 _ early
        (IsOpening-emit env t.begun t before b refl opening) in
    let e : 0 + length times ≡ length times = omega arith in rw (← e) h

-- A connect PTT that opens, is emitted at `times` before its time is over and once after sends
-- three headers, a voice frame for each of the times, more up to a whole superframe and a
-- terminator, numbered in order, all with the id, the talkgroup and the stream of the talk, behind
-- what was sent before, and is idle then, where it does not clear the dynamic talkgroups. A
-- receiver reads DMR_SILENCE_DATA off each voice frame, as far as bytes 0 to 12 and 20 to 32 of the
-- burst go, where the slot bit leaves it the type of a voice frame, as 0 and 0x80 do.
pub connect_ptt_session :
    (env : Env) (t : Talk) (before : List Packet) (b : Bridge) (times : List Timespec)
    (end : Timespec)
    → IsOpening t before 0 b
    → t.clearing ≡ false
    → AllBefore t.begun times
    → ms_elapsed t.begun end connect_ptt_ms ≡ true
    → IsClosed t
        (length times)
        before
        (emit_connect_ptt env end (emits env times (emit_connect_ptt env t.begun b)))
connect_ptt_session env t before b times end opening last early late =
    let h = session-IsTalking env t before b times opening early in
    let b1 = emits env times (emit_connect_ptt env t.begun b) in
    rw (emit_end env end b1 h.on_air.active h.phase (rw h.begun late))
      (finish_last env end t before (length times) b1 h (rw last refl))

-- One that clears the dynamic talkgroups closes its frames in the same way, and opens another PTT
-- of the same source, on the configured talkgroup, where there is one, with a stream of its own.
pub clearing_session :
    (env : Env) (t : Talk) (before : List Packet) (b : Bridge) (times : List Timespec)
    (end : Timespec)
    → IsOpening t before 0 b
    → t.clearing ≡ true
    → 0 < t.home
    → AllBefore t.begun times
    → ms_elapsed t.begun end connect_ptt_ms ≡ true
    → IsOpening
        (next_talk env end t)
        (closed_ptt t (length times) before)
        0
        (emit_connect_ptt env end (emits env times (emit_connect_ptt env t.begun b)))
clearing_session env t before b times end opening clears has_tg early late =
    let h = session-IsTalking env t before b times opening early in
    let b1 = emits env times (emit_connect_ptt env t.begun b) in
    rw (emit_end env end b1 h.on_air.active h.phase (rw h.begun late))
      (finish_next env end t before (length times) b1 h (rw clears (ground arith)))

poll_begins :
    (env : Env) (now : Timespec) (b : Bridge)
    → peer_dmr_connected b.dmr ≡ true
    → b.dmr_was_connected ≡ false
    → b.call_active ≡ false
    → b.ptt.active ≡ false
    → 0 < b.dmr.tg
    → ms_elapsed (record now { sec = 0 }) now dmr_frame_ms ≡ true
    → poll_connect_ptt env now b
      ≡ emit_connect_ptt env now
          (record (connect_ptt_begin_stream env now b
            (if b.clear_dynamic_tg then dmr_clear_dynamic_tg else b.dmr.tg)
            b.clear_dynamic_tg) { dmr_was_connected = true })
unfolding poll_connect_ptt start_connect_ptt connect_ptt_begin_stream
poll_begins env now b up was call idle has_tg due =
    let some : (b.dmr.tg == 0) ≡ false = ground arith in
    elim (Bool-cases b.clear_dynamic_tg) [
      | inl clear ↦ rw (up, was, call, idle, some, clear, due) refl
      | inr keep ↦ rw (up, was, call, idle, some, keep, due) refl
    ]

-- A poll that finds the connection newly up, the bridge free of calls and of a PTT, a talkgroup and
-- an id set, starts a connect PTT and sends its three headers, on TG 4000 where the dynamic
-- talkgroups are to be cleared and else on the configured talkgroup, where a frame is due 55 ms
-- after second 0 of the clock.
pub poll_starts :
    (env : Env) (now : Timespec) (b : Bridge)
    → peer_dmr_connected b.dmr ≡ true
    → b.dmr_was_connected ≡ false
    → b.call_active ≡ false
    → b.ptt.active ≡ false
    → 0 < b.dmr.tg
    → 0 < tx_rf_id b
    → ms_elapsed (record now { sec = 0 }) now dmr_frame_ms ≡ true
    → IsTalking
        (new_talk env now b
          (if b.clear_dynamic_tg then dmr_clear_dynamic_tg else b.dmr.tg)
          b.clear_dynamic_tg)
        (frames_sent b)
        0
        (poll_connect_ptt env now b)
unfolding tx_rf_id
poll_starts env now b up was call idle has_tg has_id due =
    let tg = if b.clear_dynamic_tg then dmr_clear_dynamic_tg else b.dmr.tg in
    let opens = begin_opens env now b tg b.clear_dynamic_tg (ground arith) has_id in
    let t = new_talk env now b tg b.clear_dynamic_tg in
    let b3 = record (connect_ptt_begin_stream env now b tg b.clear_dynamic_tg) {
      dmr_was_connected = true;
    } in
    rw (poll_begins env now b up was call idle has_tg due)
      (IsOpening-emit env now t (frames_sent b) b3 refl (ground (arith, opens)))

abort_running :
    (env : Env) (now : Timespec) (b : Bridge)
    → b.ptt.active ≡ true
    → b.ptt.phase ≡ 1
    → abort_connect_ptt env now b
      ≡ connect_ptt_finish env now (record b { ptt = record (b.ptt) { clearing = false } })
unfolding abort_connect_ptt
abort_running env now b a p = rw (a, p) refl

talk_frames_clearing :
    (t : Talk) (v : ℕ)
    → talk_frames silent_voice (record t { clearing = false }) v ≡ talk_frames silent_voice t v
talk_frames_clearing t zero = refl
talk_frames_clearing t (suc v) = rw (talk_frames_clearing t v) refl

-- An abort of a PTT that has sent `v` voice frames pads and closes it, and opens no other, also
-- where it clears the dynamic talkgroups.
abort_closes :
    (env : Env) (now : Timespec) (t : Talk) (before : List Packet) (v : ℕ) (b : Bridge)
    → IsTalking t before v b
    → IsClosed t v before (abort_connect_ptt env now b)
unfolding tx_rf_id
abort_closes env now t before v b h =
    let b1 = record b { ptt = record (b.ptt) { clearing = false } } in
    let t1 = record t { clearing = false } in
    let h1 : IsTalking t1 before v b1 = ground (arith, talk_frames_clearing t v) in
    let closed = finish_last env now t1 before v b1 h1 refl in
    rw (abort_running env now b h.on_air.active h.phase)
      (rw (← talk_frames_clearing t (round_up v)) closed)

-- A poll while the DMR network is not connected sends nothing and leaves no PTT active.
poll_down :
    (env : Env) (now : Timespec) (b : Bridge)
    → peer_dmr_connected b.dmr ≡ false
    → ((poll_connect_ptt env now b).dmr ≡ b.dmr) × ((poll_connect_ptt env now b).ptt.active ≡ false)
unfolding poll_connect_ptt
poll_down env now b down = rw down (refl, refl)
