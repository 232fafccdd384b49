-- ===== src/Vocoder/Waits.antt =====
-- How long a call of the client waits for the server.
use adn_bridge.Vocoder.State.{
  Vocoder, Request, Answer, silence, send_refused, read_refused, datagram, ratet_dmr,
}
use adn_bridge.Vocoder.Exchange.{
  Reply, no_reply, bad_reply, good, next_answer, exchange_once, add_request, recover_rate, settle,
  try_again, exchange, is_good, exchange_timeout,
}
use adn_bridge.Prelude.{
  true, ◌∷◌, [], inl, inr, List, ℕ, ◌≤◌, ◌≡◌, ◌+◌, drop, refl, arith, Bool-cases,
}

-- The milliseconds that the answers to all requests were waited for, at most.
abbrev pub waited_for : List Request → ℕ
waited_for [] = 0
waited_for (r ∷ rs) = r.timeout_ms + waited_for rs

abbrev pub waited : Vocoder → ℕ
waited v = waited_for v.requests

add_request-waited :
    (a : Answer) (r : Request) (v : Vocoder) → waited (add_request a r v) ≤ waited v + r.timeout_ms
unfolding add_request
add_request-waited silence r v = omega arith
add_request-waited send_refused r v = omega arith
add_request-waited read_refused r v = omega arith
add_request-waited (datagram bytes) r v = omega arith

once-waited :
    (v : Vocoder) (req : List ℕ) (rsplen t : ℕ)
    → waited (exchange_once v req rsplen t).1 ≤ waited v + t
unfolding exchange_once
once-waited v req rsplen t =
    add_request-waited (next_answer v.answers) (record { packet = req; timeout_ms = t })
      (record v { answers = drop 1 v.answers })

add_request-fail :
    (a : Answer) (r : Request) (v : Vocoder) → (add_request a r v).consec_fail ≡ v.consec_fail
unfolding add_request
add_request-fail silence r v = refl
add_request-fail send_refused r v = refl
add_request-fail read_refused r v = refl
add_request-fail (datagram bytes) r v = refl

once-fail :
    (v : Vocoder) (req : List ℕ) (rsplen t : ℕ)
    → (exchange_once v req rsplen t).1.consec_fail ≡ v.consec_fail
unfolding exchange_once
once-fail v req rsplen t =
    add_request-fail (next_answer v.answers) (record { packet = req; timeout_ms = t })
      (record v { answers = drop 1 v.answers })

pub recover_rate-waited : (v : Vocoder) → waited (recover_rate v).1 ≤ waited v + 300
unfolding recover_rate
recover_rate-waited v = once-waited v ratet_dmr 64 300

pub recover_rate-fail : (v : Vocoder) → (recover_rate v).1.consec_fail ≡ v.consec_fail
unfolding recover_rate
recover_rate-fail v = once-fail v ratet_dmr 64 300

settle-waited : (r : Reply) (v : Vocoder) → waited (settle (r, v)).1 ≡ waited v
unfolding settle
settle-waited no_reply v = refl
settle-waited bad_reply v = refl
settle-waited (good rsp) v = refl

try_again-waited :
    (r : Reply) (v : Vocoder) (req : List ℕ) (rsplen : ℕ)
    → waited (try_again r v req rsplen).1 ≤ waited v + 700
unfolding try_again
try_again-waited r v req rsplen =
    let v1 = (recover_rate v).1 in
    let first = recover_rate-waited v in
    let e = exchange_once v1 req rsplen 400 in
    let second = once-waited v1 req rsplen 400 in
    let same = settle-waited e.0 e.1 in
    elim (Bool-cases (recover_rate v).0) [
      | inl ok ↦ rw ok (omega (arith, first, second, same))
      | inr off ↦ rw off (omega (arith, first))
    ]

-- An exchange waits for its answer, for that of the rate request and for its answer again at most.
pub exchange-waited :
    (v : Vocoder) (req : List ℕ) (rsplen : ℕ) → waited (exchange v req rsplen).1 ≤ waited v + 820
unfolding exchange exchange_timeout
exchange-waited v req rsplen =
    let e = exchange_once v req rsplen (exchange_timeout v) in
    let first : waited e.1 ≤ waited v + exchange_timeout v =
      once-waited v req rsplen (exchange_timeout v) in
    let fails = once-fail v req rsplen (exchange_timeout v) in
    let v2 = record e.1 { consec_fail = e.1.consec_fail + 1 } in
    let again = try_again-waited e.0 v2 req rsplen in ground (arith, first, fails, again)

-- An exchange without failures before it does not try again.
pub exchange-waited_first :
    (v : Vocoder) (req : List ℕ) (rsplen : ℕ)
    → v.consec_fail ≡ 0
    → waited (exchange v req rsplen).1 ≤ waited v + 400
unfolding exchange exchange_timeout
exchange-waited_first v req rsplen none_failed =
    let e = exchange_once v req rsplen (exchange_timeout v) in
    let first : waited e.1 ≤ waited v + exchange_timeout v =
      once-waited v req rsplen (exchange_timeout v) in
    let fails = once-fail v req rsplen (exchange_timeout v) in ground (arith, first, fails)

settle-good :
    (r : Reply) (v : Vocoder) → is_good (settle (r, v)).0 ≡ true → (settle (r, v)).1.consec_fail ≡ 0
unfolding settle
settle-good no_reply v h = cc h
settle-good bad_reply v h = cc h
settle-good (good rsp) v h = refl

-- Behind a good answer the count of failures is nought.
pub exchange-good :
    (v : Vocoder) (req : List ℕ) (rsplen : ℕ)
    → is_good (exchange v req rsplen).0 ≡ true
    → (exchange v req rsplen).1.consec_fail ≡ 0
unfolding exchange try_again
exchange-good v req rsplen =
    let e = exchange_once v req rsplen (exchange_timeout v) in
    let v2 = record e.1 { consec_fail = e.1.consec_fail + 1 } in
    let s = exchange_once (recover_rate v2).1 req rsplen 400 in
    let again = settle-good s.0 s.1 in ground (arith, again)
