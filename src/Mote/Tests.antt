-- ===== src/Mote/Tests.antt =====
-- The theorems about ictp/mqtt-sn/mqtt-sn.c at a concrete connection and concrete messages.
use ts_it.Base.{
  strncpy, strlen, ◌≤◌, ◌<◌, ◌≡◌, refl, false, none, some, [], ◌∷◌, ◌++◌, length, codes, arith,
}
use ts_it.Tools.Wire.{Message, encode}
use ts_it.Mote.State.{
  udp_send, set_request_timer, post_request, stop_request_timer, Connection, Request, waiting_ack,
  register_request, waiting_connack, connected, connack_event,
}
use ts_it.Mote.Send.{send_packet, send_register, next_id}
use ts_it.Mote.Send.Laws.{after, send_register_extra}
use ts_it.Mote.Requests.{manage_response, register_try, begin_request}
use ts_it.Mote.Requests.Laws.{others, finished, manage_response-regack}
use ts_it.Mote.Requests.Laws.{reply}
use ts_it.Mote.Requests.Answered.{listed, register_try-regack}
use ts_it.Mote.Events.{process_event}
use ts_it.Mote.Steps.{event}
use ts_it.Mote.Steps.Laws.{Move, Step-Move}

-- A request for the message id 2.
abbrev temperature : Request
temperature = record {
  address = 100;
  state = waiting_ack;
  request_type = register_request;
  msg_id = 2;
  topic_id = 0;
  return_code = 0;
}

abbrev pub waiting : Connection
waiting = record {
  next_message_id = 3;
  keep_alive = 0;
  return_code = 0;
  stat = waiting_connack;
  connection_retries = 1;
  has_callback = λ _. false;
  keeps_next = false;
  requests = temperature ∷ [];
  calls = [];
}

send_register_extra_example :
    (length (codes "t") < 248
      → send_register (codes "t") waiting
        ≡ some (
          3,
          after (encode (Message.register 0 3 (codes "t" ++ (0 ∷ 0 ∷ [])))) (next_id waiting),
        ))
    × (length (codes "t") ≡ 248
        → send_register (codes "t") waiting ≡ some (3, after [] (next_id waiting)))
    × (length (codes "t") ≡ 249 → send_register (codes "t") waiting ≡ none)
send_register_extra_example =
    send_register_extra (codes "t") waiting ((omega arith, omega arith), tt)

manage_response-regack_example :
    let r = manage_response [] (encode (Message.regack 5 2 0) ++ []) 7 waiting in
    (7 ≤ 8
      → r
        ≡ some (record waiting {
          requests = others false 2 (temperature ∷ []);
          calls = finished false 2 5 0 (temperature ∷ []) [];
        }))
    × (8 < 7 → r ≡ none)
manage_response-regack_example =
    manage_response-regack [] [] 7 5 2 0 waiting (omega arith) (omega arith) (omega arith)

Step-Move_example : Move 0 waiting_connack connected
unfolding process_event
Step-Move_example =
    Step-Move 128 {c = waiting} {d = record waiting { stat = connected }}
      (event connack_event waiting (record waiting { stat = connected }) refl)

abbrev begun : Connection
begun = record waiting { next_message_id = 1; stat = connected; requests = [] }

abbrev tried : Connection
tried = record begun {
  next_message_id = 2;
  requests = listed temperature 1 ∷ [];
  calls =
      udp_send (9 ∷ 0x0A ∷ 0 ∷ 0 ∷ 0 ∷ 1 ∷ (codes "t" ++ (0 ∷ 0 ∷ [])))
      ∷ set_request_timer 100 50
      ∷ [];
}

register_try-regack_example :
    manage_response [] (encode (Message.regack 5 1 0) ++ []) 7 tried
    ≡ some (record tried {
      requests = [];
      calls =
          post_request (reply 5 0 (listed temperature 1)) ∷ stop_request_timer 100 ∷ tried.calls;
    })
unfolding register_try begin_request send_register send_packet strncpy strlen
register_try-regack_example =
    register_try-regack temperature (codes "t") [] [] 50 1 7 5 0 begun tried refl tt (omega arith)
      (omega arith) (omega arith) (omega arith)
