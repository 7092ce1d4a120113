-- ===== src/Mote/State.antt =====
-- The data of ictp/mqtt-sn/mqtt-sn.c and mqtt-sn.h: the connection and its requests.
use ts_it.Base.{ℕ, ◌&&◌, Bool, true, false, List, ◌∷◌, if◌then◌else◌, ltb}

-- `enum mqttsn_connection_status`
pub data Status : Type 0 where
  disconnected waiting_connack connection_failed connected : Status

-- `enum mqtt_sn_request_state`
pub data RequestState : Type 0 where
  no_request waiting_ack failed complete : RequestState

-- `enum mqtt_sn_request_type`
pub data RequestType : Type 0 where
  register_request subscribe_request unsubscribe_request : RequestType

-- `struct mqtt_sn_request`, without its link, protothread and timer; `address` tells requests apart.
-- A message id stands for its two bytes in network order, which is how the source keeps it.
pub record Request : Type 0 where
  pub address : ℕ
  pub state : RequestState
  pub request_type : RequestType
  pub msg_id : ℕ
  pub topic_id : ℕ
  pub return_code : ℕ

-- The events of mqtt_sn_process.
pub data Event : Type 0 where
  connack_event disconnect_event receive_timeout_event send_timeout_event : Event

-- What the client calls of Contiki, and of the application: `callback` has the type of the message.
pub data Call : Type 0 where
  udp_send : List ℕ → Call
  set_receive_timer : ℕ → Call
  set_send_timer : ℕ → Call
  restart_receive_timer restart_send_timer stop_receive_timer stop_send_timer : Call
  set_request_timer : ℕ → ℕ → Call
  stop_request_timer : ℕ → Call
  post : Event → Call
  post_request : Request → Call
  callback : ℕ → Call
  keepalive_callback : Call

-- `struct mqtt_sn_connection`: `requests` has the requests of the list, which wait at their
-- PT_YIELD, and `has_callback` tells which members of `mc` are not NULL, by the message's type.
-- `keeps_next` tells whether Contiki's list_remove leaves the `next` of what it takes out.
-- `calls` holds the calls, the newest first.
pub record Connection : Type 0 where
  pub next_message_id : ℕ
  pub keep_alive : ℕ
  pub return_code : ℕ
  pub stat : Status
  pub connection_retries : ℕ
  pub has_callback : ℕ → Bool
  pub keeps_next : Bool
  pub requests : List Request
  pub calls : List Call

abbrev pub is_connected : Status → Bool
is_connected connected = true
is_connected waiting_connack = false
is_connected connection_failed = false
is_connected disconnected = false

abbrev pub is_waiting : Status → Bool
is_waiting waiting_connack = true
is_waiting connected = false
is_waiting connection_failed = false
is_waiting disconnected = false

abbrev pub call : Call → Connection → Connection
call e c = record c { calls = e ∷ c.calls }

-- `mc->..._recv(...)`, where it is not NULL.
abbrev pub call_back : ℕ → Connection → Connection
call_back type c = if c.has_callback type then call (callback type) c else c

-- `keep_alive > 0 && stat == MQTTSN_CONNECTED`
abbrev pub kept_alive : Connection → Bool
kept_alive c = ltb 0 c.keep_alive && is_connected c.stat
