-- ===== src/Vocoder/Exchange.antt =====
-- vocoder_remote.c: one request and its answer, and what is done when answers stay away.
use adn_bridge.Vocoder.State.{
  Answer, Vocoder, silence, datagram, Request, ratet_dmr, prodid_req, send_refused, read_refused,
  dv3k_start,
}
use adn_bridge.Prelude.{
  true, false, if◌then◌else◌, ◌∷◌, [], List, ℕ, Bool, leb, ◌+◌, take, drop, not, length, ◌&&◌, ◌==◌,
  ltb, ◌||◌, get_or,
}

-- The result of an exchange: 0, -1, or the bytes of the answer.
pub data Reply : Type 0 where
  no_reply : Reply
  bad_reply : Reply
  good : List ℕ → Reply

-- The next answer of the server, which is silent behind the end of the list.
abbrev pub next_answer : List Answer → Answer
next_answer [] = silence
next_answer (a ∷ rest) = a

-- voc_exchange_once on what comes in
unfoldable pub read_reply : ℕ → Answer → Reply
read_reply rsplen silence = no_reply
read_reply rsplen send_refused = bad_reply
read_reply rsplen read_refused = bad_reply
read_reply rsplen (datagram bytes) =
    let rsp = take rsplen bytes in
    if length rsp == 0
    then no_reply
    else if ltb (length rsp) 4 || not (get_or rsp 0 0 == dv3k_start)
    then bad_reply
    else good rsp

unfoldable pub add_request : Answer → Request → Vocoder → Vocoder
add_request send_refused r v = v
add_request silence r v = record v { requests = r ∷ v.requests }
add_request read_refused r v = record v { requests = r ∷ v.requests }
add_request (datagram bytes) r v = record v { requests = r ∷ v.requests }

-- voc_exchange_once
unfoldable pub exchange_once : Vocoder → List ℕ → ℕ → ℕ → Reply × Vocoder
exchange_once v req rsplen timeout_ms =
    let a = next_answer v.answers in
    let r : Request = record { packet = req; timeout_ms = timeout_ms } in
    (read_reply rsplen a, add_request a r (record v { answers = drop 1 v.answers }))

abbrev pub is_good : Reply → Bool
is_good no_reply = false
is_good bad_reply = false
is_good (good rsp) = true

-- voc_recover_rate: 0 is true
unfoldable pub recover_rate : Vocoder → Bool × Vocoder
recover_rate v = let (r, v1) = exchange_once v ratet_dmr 64 300 in (is_good r, v1)

-- A good answer ends a run of failures.
unfoldable pub settle : Reply × Vocoder → Reply × Vocoder
settle (r, v) = if is_good r then (r, record v { consec_fail = 0 }) else (r, v)

-- voc_exchange from the third failure on
unfoldable pub try_again : Reply → Vocoder → List ℕ → ℕ → Reply × Vocoder
try_again r v req rsplen =
    let (ok, v1) = recover_rate v in
    let again = exchange_once v1 req rsplen 400 in if ok then settle again else (r, v1)

unfoldable pub exchange_timeout : Vocoder → ℕ
exchange_timeout v = if leb 2 v.consec_fail then 120 else 400

-- voc_exchange
unfoldable pub exchange : Vocoder → List ℕ → ℕ → Reply × Vocoder
exchange v req rsplen =
    let (r, v1) = exchange_once v req rsplen (exchange_timeout v) in
    let v2 = record v1 { consec_fail = v1.consec_fail + 1 } in
    let again = try_again r v2 req rsplen in
    if is_good r
    then (r, record v1 { consec_fail = 0 })
    else if leb 3 v2.consec_fail
    then again
    else (r, v2)

-- What the system does for vocoder_open: the socket and the name.
pub record Lookup : Type 0 where
  pub has_host : Bool
  pub has_port : Bool
  pub has_socket : Bool
  pub is_resolved : Bool

-- The state that vocoder_open starts from: `memset` leaves 0 in `sock`, which is a descriptor.
unfoldable pub fresh : Vocoder → Vocoder
fresh v = record {
  is_open = true;
  ready = false;
  consec_fail = 0;
  enc_ok = 0;
  enc_fail = 0;
  dec_ok = 0;
  dec_fail = 0;
  requests = v.requests;
  answers = v.answers;
}

-- vocoder_open: 0 is true
unfoldable pub vocoder_open : Lookup → Vocoder → Bool × Vocoder
vocoder_open l v =
    let v0 = fresh v in
    let shut = λ (w : Vocoder). record w { is_open = false } in
    let (prodid, v1) = exchange_once v0 prodid_req 256 2000 in
    let (ratet, v2) = exchange_once (record v1 { consec_fail = 0 }) ratet_dmr 256 2000 in
    if not (l.has_host && l.has_port)
    then (false, v0)
    else if not (l.has_socket && l.is_resolved)
    then (false, shut v0)
    else if not (is_good prodid)
    then (false, shut v1)
    else if not (is_good ratet)
    then (false, shut v2)
    else (true, record v2 { consec_fail = 0; ready = true })

-- vocoder_close
unfoldable pub vocoder_close : Vocoder → Vocoder
vocoder_close v = record v { is_open = false; ready = false }
