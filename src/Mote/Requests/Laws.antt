-- ===== src/Mote/Requests/Laws.antt =====
-- The answer to a request of ictp/mqtt-sn/mqtt-sn.c.
use ts_it.Base.{
  Bool, zero, suc, ℕ, ◌≤◌, ◌<◌, ◌≡◌, ◌⊎◌, inl, inr, ◌*◌, ◌/◌, ◌%◌, ◌+◌, u16, refl, ◌==◌,
  if◌then◌else◌, none, some, List, [], ◌∷◌, ◌++◌, arith,
}
use ts_it.Tools.Wire.{Message, encode}
use ts_it.Mote.State.{
  RequestState, failed, complete, post_request, stop_request_timer, Request, Connection, Call,
}
use ts_it.Mote.Requests.{answer_all, answered, finish, manage_response}

-- The list without the requests of a message, or without the first of them.
abbrev pub others : Bool → ℕ → List Request → List Request
others all msg_id [] = []
others all msg_id (req ∷ rest) =
    let rest' = others all msg_id rest in
    if req.msg_id == msg_id then if all then rest' else rest else req ∷ rest'

-- What a request comes to by its return code.
abbrev pub outcome : ℕ → RequestState
outcome zero = complete
outcome (suc code) = failed

-- A request with its answer.
abbrev pub reply : ℕ → ℕ → Request → Request
reply topic_id code req = record req {
  topic_id = topic_id;
  return_code = code;
  state = outcome code;
}

-- What is called for the requests of a message, or for the first of them, the newest call first.
abbrev pub finished : Bool → ℕ → ℕ → ℕ → List Request → List Call → List Call
finished all msg_id topic_id code [] calls = calls
finished all msg_id topic_id code (req ∷ rest) calls =
    let done = post_request (reply topic_id code req) ∷ stop_request_timer req.address ∷ calls in
    let next = finished all msg_id topic_id code rest in
    if req.msg_id == msg_id then if all then next done else done else next calls

answered-reply :
    (topic_id code : ℕ) (req : Request) → answered topic_id code req ≡ reply topic_id code req
answered-reply topic_id zero req = refl
answered-reply topic_id (suc code) req = ground arith

answer_all_lem :
    (keeps_next : Bool) (msg_id topic_id return_code : ℕ) (q : List Request) (calls : List Call)
    → (answer_all keeps_next msg_id topic_id return_code q calls).0 ≡ others keeps_next msg_id q
      × (answer_all keeps_next msg_id topic_id return_code q calls).1
        ≡ finished keeps_next msg_id topic_id return_code q calls
unfolding answer_all
answer_all_lem keeps_next msg_id topic_id return_code [] calls = (refl, refl)
answer_all_lem keeps_next msg_id topic_id return_code (req ∷ rest) calls = (
  ground (
    arith,
    (answer_all_lem keeps_next msg_id topic_id return_code rest calls).0,
    (answer_all_lem keeps_next msg_id topic_id return_code rest
        (finish (answered topic_id return_code req) calls)).0,
  ),
  ground (
    arith,
    (answer_all_lem keeps_next msg_id topic_id return_code rest calls).1,
    (answer_all_lem keeps_next msg_id topic_id return_code rest
        (finish (answered topic_id return_code req) calls)).1,
    answered-reply topic_id return_code req,
  ),
)

seven_or_eight : (n : ℕ) → 7 ≤ n → n ≤ 8 → (n ≡ 7) ⊎ (n ≡ 8)
seven_or_eight n h p = ground arith

-- A REGACK of 16-bit ids and of 7 or 8 bytes answers every request that waits for its message id,
-- or only the first where Contiki's list_remove does not keep the link of what it takes out: it
-- posts each to the application with the topic id and the return code, complete if the code is 0
-- and failed otherwise, and leaves the other requests in their order; one that comes as more than
-- 8 bytes is written beyond its struct.
pub manage_response-regack :
    (old rest : List ℕ) (datalen topic_id message_id code : ℕ) (c : Connection)
    → topic_id < 65536
    → message_id < 65536
    → 7 ≤ datalen
    → let r =
        manage_response old (encode (Message.regack topic_id message_id code) ++ rest) datalen c in
      (datalen ≤ 8
        → r
          ≡ some (record c {
            requests = others c.keeps_next message_id c.requests;
            calls = finished c.keeps_next message_id topic_id code c.requests c.calls;
          }))
      × (8 < datalen → r ≡ none)
unfolding manage_response
manage_response-regack old rest datalen topic_id message_id code c t m h =
    let lem = answer_all_lem c.keeps_next message_id topic_id code c.requests c.calls in
    let topic : u16 topic_id / 256 * 256 + u16 topic_id % 256 ≡ topic_id = omega (arith, t) in
    let message : u16 message_id / 256 * 256 + u16 message_id % 256 ≡ message_id =
      omega (arith, m) in
    (
      λ p. elim (seven_or_eight datalen h p) [
        | inl e ↦ rw (e, topic, message, lem.0, lem.1) refl
        | inr e ↦ rw (e, topic, message, lem.0, lem.1) refl
      ],
      λ p. ground arith,
    )
