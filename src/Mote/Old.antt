-- ===== src/Mote/Old.antt =====
-- Where the earlier client of the motes, ictp/mqtt-sn/old/mqtt-sn.c, differs from
-- ictp/mqtt-sn/mqtt-sn.c: the length of two messages, and a gateway that has gone silent.
pub mod Laws
mod Tests
use ts_it.Base.{
  ℕ, ◌+◌, ◌==◌, ltb, if◌then◌else◌, Bool, Option, none, some, List, ◌∷◌, ◌++◌, length, set, u8,
  htons, strncpy, strlen,
}
use ts_it.Protocol.{max_topic_length}
use ts_it.Protocol.MessageType
use ts_it.Tools.Send.{subscribe_flags}
use ts_it.Mote.State.{
  Connection, Event, connack_event, disconnect_event, receive_timeout_event, send_timeout_event,
  call, keepalive_callback,
}
use ts_it.Mote.Send.{send_packet, next_id, send_disconnect}
use ts_it.Mote.Events.{process_event}

unfoldable pub send_register : List ℕ → Connection → Option (ℕ × Connection)
send_register topic_name c =
    if ltb max_topic_length (length topic_name)
    then some (0, c)
    else if length topic_name == max_topic_length
    then none
    else let array = strncpy topic_name max_topic_length in
      let n = u8 (0x06 + strlen array) in
      elim (send_packet (n ∷ MessageType.register ∷ 0 ∷ 0 ∷ (htons c.next_message_id ++ array)) n
        (next_id c)) [ none ↦ none | some d ↦ some (c.next_message_id, d) ]

unfoldable pub send_subscribe : List ℕ → ℕ → Connection → Option (ℕ × Connection)
send_subscribe topic_name qos c =
    let n = u8 (0x05 + length topic_name) in
    elim (send_packet
      (n
        ∷ MessageType.subscribe
        ∷ subscribe_flags qos topic_name
        ∷ (htons c.next_message_id ++ set (strncpy topic_name max_topic_length) 248 0))
      n (next_id c)) [ none ↦ none | some d ↦ some (c.next_message_id, d) ]

-- The receive timer has run out: the connection is ended, and the callback `keepalive_timeout` is
-- called if it is not NULL.
unfoldable pub receive_timed_out : Bool → Connection → Option Connection
receive_timed_out has_keepalive_timeout c = elim (send_disconnect c) [
  | none ↦ none
  | some d ↦ some (if has_keepalive_timeout then call keepalive_callback d else d)
]

-- One event of mqtt_sn_process; the others are handled alike.
unfoldable pub process_old_event : Bool → Event → Connection → Option Connection
unfolding receive_timed_out process_event
process_old_event has_keepalive_timeout receive_timeout_event c =
    receive_timed_out has_keepalive_timeout c
process_old_event has_keepalive_timeout connack_event c = process_event connack_event c
process_old_event has_keepalive_timeout disconnect_event c = process_event disconnect_event c
process_old_event has_keepalive_timeout send_timeout_event c = process_event send_timeout_event c
