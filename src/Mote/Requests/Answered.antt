-- ===== src/Mote/Requests/Answered.antt =====
-- A request of ictp/mqtt-sn/mqtt-sn.c from its start to its answer.
use ts_it.Base.{Bool, ℕ, ◌≤◌, ◌<◌, ◌≡◌, ◌≢◌, refl, ap, ◌∙◌, some, List, [], ◌∷◌, ◌++◌, All, arith}
use ts_it.Tools.Wire.{Message, encode}
use ts_it.Mote.State.{
  Request, Connection, Call, register_request, waiting_ack, post_request, stop_request_timer,
}
use ts_it.Mote.Send.{send_packet, send_register}
use ts_it.Mote.Requests.{begin_request, register_try, manage_response}
use ts_it.Mote.Requests.Laws.{others, finished, reply, manage_response-regack}

-- No request in the list waits for that message id.
abbrev pub IsFree : ℕ → List Request → Type 0
IsFree msg_id = All (λ req. req.msg_id ≢ msg_id)

-- The request as it stands in the list.
abbrev pub listed : Request → ℕ → Request
listed req id = record req { request_type = register_request; state = waiting_ack; msg_id = id }

others-append :
    (all : Bool) (id : ℕ) (q : List Request) (req : Request)
    → IsFree id q
    → req.msg_id ≡ id
    → others all id (q ++ (req ∷ [])) ≡ q
others-append all id [] req free e = ground arith
others-append all id (r ∷ q) req free e =
    ground (arith, free.0, others-append all id q req free.1 e)

finished-append :
    (all : Bool) (id topic_id code : ℕ) (q : List Request) (req : Request) (calls : List Call)
    → IsFree id q
    → req.msg_id ≡ id
    → finished all id topic_id code (q ++ (req ∷ [])) calls
      ≡ post_request (reply topic_id code req) ∷ stop_request_timer req.address ∷ calls
finished-append all id topic_id code [] req calls free e = ground arith
finished-append all id topic_id code (r ∷ q) req calls free e =
    ground (arith, free.0, finished-append all id topic_id code q req calls free.1 e)

try-requests :
    (req : Request) (topic_name : List ℕ) (time_out id : ℕ) (c d : Connection)
    → register_try req topic_name time_out c ≡ some (id, d)
    → d.requests ≡ c.requests ++ (listed req id ∷ [])
unfolding register_try begin_request send_register send_packet
try-requests req topic_name time_out id c d e = ground arith

-- A registration that is tried while no other request waits for its message id, and the REGACK of
-- 16-bit ids to it, of 7 or 8 bytes: the application gets the request back with the topic id and
-- the return code, complete if the code is 0 and failed otherwise, its timer is stopped, and the
-- list is as it was before.
pub register_try-regack :
    (req : Request) (topic_name old rest : List ℕ) (time_out id datalen topic_id code : ℕ)
    (c d : Connection)
    → register_try req topic_name time_out c ≡ some (id, d)
    → IsFree id c.requests
    → id < 65536
    → topic_id < 65536
    → 7 ≤ datalen
    → datalen ≤ 8
    → manage_response old (encode (Message.regack topic_id id code) ++ rest) datalen d
      ≡ some (record d {
        requests = c.requests;
        calls =
            post_request (reply topic_id code (listed req id))
            ∷ stop_request_timer req.address
            ∷ d.calls;
      })
register_try-regack req topic_name old rest time_out id datalen topic_id code c d e free i t lo hi =
    let q = try-requests req topic_name time_out id c d e in
    (manage_response-regack old rest datalen topic_id id code d t i lo).0 hi
    ∙ ap
        (λ l. some (record d {
          requests = others d.keeps_next id l;
          calls = finished d.keeps_next id topic_id code l d.calls;
        }))
        q
    ∙ rw
        (
          others-append d.keeps_next id c.requests (listed req id) free refl,
          finished-append d.keeps_next id topic_id code c.requests (listed req id) d.calls free
              refl,
        )
        refl
