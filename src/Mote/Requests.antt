-- ===== src/Mote/Requests.antt =====
-- The requests of ictp/mqtt-sn/mqtt-sn.c: a REGISTER or SUBSCRIBE that waits for its answer.
pub mod Laws
pub mod Answered
use ts_it.Base.{
  ℕ, ◌==◌, ltb, if◌then◌else◌, Bool, true, false, Option, none, some, List, [], ◌∷◌, ◌++◌, length,
  take, drop, byte_at, ntohs_at,
}
use ts_it.Protocol.MessageType
use ts_it.Mote.State.{
  Request, RequestState, RequestType, register_request, subscribe_request, waiting_ack, failed,
  complete, Connection, Call, set_request_timer, stop_request_timer, post_request, call,
}
use ts_it.Mote.Send.{send_register, send_subscribe}

unfoldable pub request_returned : Request → Bool
request_returned req = elim req.state as (λ _. Bool) [ complete ↦ true | failed ↦ true | _ ↦ false ]

unfoldable pub request_success : Request → Bool
request_success req = elim req.state as (λ _. Bool) [ complete ↦ true | _ ↦ false ]

-- manage_request before its PT_YIELD, for a request that is not in the list; Contiki's list_add puts
-- it at the list's end. The result has the request's message id.
unfoldable pub begin_request : Request → List ℕ → ℕ → ℕ → Connection → Option (ℕ × Connection)
begin_request req topic_name qos time_out c =
    let d = call (set_request_timer req.address time_out) c in
    let listed = λ (id : ℕ) (e : Connection). record e {
      requests = e.requests ++ (record req { state = waiting_ack; msg_id = id } ∷ []);
    } in
    elim req.request_type [
      | register_request ↦ elim (send_register topic_name d) [
        | none ↦ none
        | some (id, e) ↦ some (id, listed id e)
      ]
      | subscribe_request ↦ elim (send_subscribe topic_name qos d) [
        | none ↦ none
        | some (id, e) ↦ some (id, listed id e)
      ]
      | _ ↦ some (req.msg_id, listed req.msg_id d)
    ]

unfoldable pub register_try : Request → List ℕ → ℕ → Connection → Option (ℕ × Connection)
unfolding begin_request
register_try req topic_name time_out =
    begin_request (record req { request_type = register_request }) topic_name 0 time_out

unfoldable pub subscribe_try : Request → List ℕ → ℕ → ℕ → Connection → Option (ℕ × Connection)
unfolding begin_request
subscribe_try req topic_name qos time_out =
    begin_request (record req { request_type = subscribe_request }) topic_name qos time_out

-- The request with the answer to it.
abbrev pub answered : ℕ → ℕ → Request → Request
answered topic_id return_code req = record req {
  topic_id = topic_id;
  return_code = return_code;
  state = if return_code == 0 then complete else failed;
}

-- Contiki's list_remove of the request at an address.
abbrev without : ℕ → List Request → List Request
without address [] = []
without address (req ∷ rest) = if req.address == address then rest else req ∷ without address rest

-- manage_request behind its PT_YIELD.
abbrev pub finish : Request → List Call → List Call
finish req calls = post_request req ∷ stop_request_timer req.address ∷ calls

-- The same, called with the connection or with NULL.
unfoldable pub resume_request : Request → Option Connection → Option Connection
resume_request req none = none
resume_request req (some c) =
    some (record c { requests = without req.address c.requests; calls = finish req c.calls })

-- The timer of a request runs out.
unfoldable pub request_timer_callback : Request → Option Connection
unfolding resume_request
request_timer_callback req = resume_request req none

-- The walk through the list: a request of that message id is answered and leaves the list. The
-- walk goes on with its `next`, which is NULL where list_remove does not keep it.
unfoldable pub answer_all : Bool → ℕ → ℕ → ℕ → List Request → List Call → List Request × List Call
answer_all keeps_next msg_id topic_id return_code [] calls = ([], calls)
answer_all keeps_next msg_id topic_id return_code (req ∷ rest) calls =
    let next = answer_all keeps_next msg_id topic_id return_code rest in
    let done = finish (answered topic_id return_code req) calls in
    if req.msg_id == msg_id
    then if keeps_next then next done else (rest, done)
    else let r = next calls in (req ∷ r.0, r.1)

-- The `memcpy` of the datagram into a struct of 8 bytes, which held `old`.
abbrev pub into_struct : List ℕ → List ℕ → ℕ → Option (List ℕ)
into_struct old data' datalen =
    if ltb 8 datalen then none else some (take datalen data' ++ drop datalen old)

unfoldable pub manage_response : List ℕ → List ℕ → ℕ → Connection → Option Connection
unfolding answer_all
manage_response old data' datalen c =
    let answer = λ (msg_id topic_id return_code : ℕ).
      let r = answer_all c.keeps_next msg_id topic_id return_code c.requests c.calls in
      record c { requests = r.0; calls = r.1 } in
    if byte_at data' 1 == MessageType.regack
    then elim (into_struct old data' datalen) [
      | none ↦ none
      | some p ↦ some (answer (ntohs_at p 4) (ntohs_at p 2) (byte_at p 6))
    ]
    else if byte_at data' 1 == MessageType.suback
    then elim (into_struct old data' datalen) [
      | none ↦ none
      | some p ↦ some (answer (ntohs_at p 5) (ntohs_at p 3) (byte_at p 7))
    ]
    else some (answer 0 0 0)
