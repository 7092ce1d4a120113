-- ===== src/Mote/Events.antt =====
-- What happens to the client of ictp/mqtt-sn/mqtt-sn.c: datagrams, timers and the events of its
-- process.
use ts_it.Base.{
  ℕ, ◌*◌, ◌/◌, ◌==◌, ◌&&◌, ◌||◌, ltb, if◌then◌else◌, Bool, Option, none, some, List, [], byte_at,
}
use ts_it.Protocol.MessageType
use ts_it.Mote.State.{
  disconnected, connected, Event, connack_event, disconnect_event, receive_timeout_event,
  send_timeout_event, Connection, set_receive_timer, set_send_timer, restart_receive_timer,
  stop_receive_timer, stop_send_timer, post, call, call_back, is_waiting, kept_alive,
}
use ts_it.Mote.Send.{send_pingreq, send_pingresp}
use ts_it.Mote.Requests.{manage_response}

-- mqtt_sn_create_socket: the fields that it sets.
unfoldable pub create_socket : (ℕ → Bool) → Bool → Connection
create_socket has_callback keeps_next = record {
  next_message_id = 1;
  keep_alive = 0;
  return_code = 0;
  stat = disconnected;
  connection_retries = 0;
  has_callback = has_callback;
  keeps_next = keeps_next;
  requests = [];
  calls = [];
}

-- A message of a type whose answer is only handed to the application.
abbrev pub is_plain : ℕ → Bool
is_plain type =
    (type == MessageType.publish)
    || ((type == MessageType.puback) || (type == MessageType.pingresp))

-- The `switch` on the type; `old` is what the struct held that an answer is copied to.
unfoldable pub dispatch : List ℕ → List ℕ → ℕ → Connection → Option Connection
dispatch old data' datalen c =
    let type = byte_at data' 1 in
    if type == MessageType.connack
    then some
        (call_back type (call (post connack_event) (record c { return_code = byte_at data' 2 })))
    else if (type == MessageType.regack) || (type == MessageType.suback)
    then manage_response old data' datalen (call_back type c)
    else if is_plain type
    then some (call_back type c)
    else if type == MessageType.pingreq
    then elim (send_pingresp c) [ none ↦ none | some d ↦ some (call_back type d) ]
    else if type == MessageType.disconnect
    then some (call_back type (call (post disconnect_event) c))
    else some c

unfoldable pub receiver : List ℕ → List ℕ → ℕ → Connection → Option Connection
unfolding dispatch
receiver old data' datalen c =
    let d = if kept_alive c then call restart_receive_timer c else c in
    if ltb datalen 2 then some d else dispatch old data' datalen d

-- One event of mqtt_sn_process.
unfoldable pub process_event : Event → Connection → Option Connection
process_event connack_event c =
    if (c.return_code == 0x00) && is_waiting c.stat
    then some (
        let d = record c { stat = connected } in
        if ltb 0 c.keep_alive
        then call (set_send_timer (c.keep_alive / 2))
            (call (set_receive_timer (c.keep_alive * 2)) d)
        else d)
    else some c
process_event disconnect_event c =
    let d = if ltb 0 c.keep_alive then call stop_send_timer (call stop_receive_timer c) else c in
    some (record d { stat = disconnected })
process_event receive_timeout_event c = some c
process_event send_timeout_event c = send_pingreq c

-- The callbacks of the two timers.
unfoldable pub receive_timer_callback : Connection → Connection
receive_timer_callback = call (post receive_timeout_event)

unfoldable pub send_timer_callback : Connection → Connection
send_timer_callback = call (post send_timeout_event)
