-- ===== src/Mote/Steps.antt =====
-- The client of ictp/mqtt-sn/mqtt-sn.c as a state machine: datagrams, the events of its process, the
-- calls of the application, in any order.
pub mod Laws
use ts_it.Base.{ℕ, ◌≡◌, Bool, Option, some, List}
use ts_it.Mote.State.{Request, Event, Connection}
use ts_it.Mote.Send.{
  send_connect, send_register, send_regack, send_publish, send_subscribe, send_pingreq,
  send_disconnect,
}
use ts_it.Mote.Requests.{register_try, subscribe_try}
use ts_it.Mote.Events.{
  create_socket, receiver, process_event, receive_timer_callback, send_timer_callback,
}

pub data Step (clock_second : ℕ) : Connection → Connection → Type 0 where
  datagram :
      (old bytes : List ℕ) (datalen : ℕ) (c d : Connection)
      → receiver old bytes datalen c ≡ some d
      → Step clock_second c d
  event : (e : Event) (c d : Connection) → process_event e c ≡ some d → Step clock_second c d
  connect :
      (client_id : List ℕ) (keepalive : ℕ) (c d : Connection)
      → send_connect clock_second client_id keepalive c ≡ some d
      → Step clock_second c d
  register :
      (topic_name : List ℕ) (id : ℕ) (c d : Connection)
      → send_register topic_name c ≡ some (id, d)
      → Step clock_second c d
  regack :
      (topic_id message_id id : ℕ) (c d : Connection)
      → send_regack topic_id message_id c ≡ some (id, d)
      → Step clock_second c d
  publish :
      (topic_id topic_type : ℕ) (payload : List ℕ) (qos retain id : ℕ) (c d : Connection)
      → send_publish topic_id topic_type payload qos retain c ≡ some (id, d)
      → Step clock_second c d
  subscribe :
      (topic_name : List ℕ) (qos id : ℕ) (c d : Connection)
      → send_subscribe topic_name qos c ≡ some (id, d)
      → Step clock_second c d
  pingreq : (c d : Connection) → send_pingreq c ≡ some d → Step clock_second c d
  disconnect : (c d : Connection) → send_disconnect c ≡ some d → Step clock_second c d
  try_register :
      (req : Request) (topic_name : List ℕ) (time_out id : ℕ) (c d : Connection)
      → register_try req topic_name time_out c ≡ some (id, d)
      → Step clock_second c d
  try_subscribe :
      (req : Request) (topic_name : List ℕ) (qos time_out id : ℕ) (c d : Connection)
      → subscribe_try req topic_name qos time_out c ≡ some (id, d)
      → Step clock_second c d
  receive_timer : (c : Connection) → Step clock_second c (receive_timer_callback c)
  send_timer : (c : Connection) → Step clock_second c (send_timer_callback c)

pub data Reachable (clock_second : ℕ) : Connection → Type 0 where
  start :
      (has_callback : ℕ → Bool) (keeps_next : Bool)
      → Reachable clock_second (create_socket has_callback keeps_next)
  step :
      (c d : Connection)
      → Reachable clock_second c
      → Step clock_second c d
      → Reachable clock_second d
