-- ===== src/Mote/Send.antt =====
-- The senders of ictp/mqtt-sn/mqtt-sn.c. A result of `none` is what C leaves undefined; the flags of
-- PUBLISH and SUBSCRIBE are computed as in mqtt-sn-tools/mqtt-sn.c.
pub mod Laws
use ts_it.Base.{
  ℕ, ◌+◌, ◌*◌, ◌==◌, ltb, if◌then◌else◌, Option, none, some, List, [], ◌∷◌, ◌++◌, length, take, set,
  u8, u16, htons, strncpy, strlen,
}
use ts_it.Protocol.{protocol_id, max_topic_length, max_payload_length}
use ts_it.Protocol.MessageType
use ts_it.Protocol.Flag
use ts_it.Tools.Send.{publish_flags, subscribe_flags, client_id_field}
use ts_it.Mote.State.{
  Connection, udp_send, restart_send_timer, post, disconnect_event, waiting_connack, call,
  kept_alive,
}

-- `len` bytes from the start of the packet's struct.
unfoldable pub send_packet : List ℕ → ℕ → Connection → Option Connection
send_packet packet len c =
    if ltb (length packet) len
    then none
    else some (
        let d = call (udp_send (take len packet)) c in
        if kept_alive d then call restart_send_timer d else d)

-- A second of the clock has `clock_second` ticks; the id is a text of the application.
unfoldable pub send_connect : ℕ → List ℕ → ℕ → Connection → Option Connection
send_connect clock_second client_id keepalive c =
    if ltb 23 (length client_id)
    then some c
    else let field = client_id_field client_id in
      let n = u8 (0x06 + strlen field) in
      send_packet (n ∷ MessageType.connect ∷ Flag.clean ∷ protocol_id ∷ (htons keepalive ++ field))
        n
        (record c {
          keep_alive = if keepalive == 0 then c.keep_alive else keepalive * clock_second;
          stat = waiting_connack;
          connection_retries = u8 (c.connection_retries + 1);
        })

-- The message id is counted up.
abbrev pub next_id : Connection → Connection
next_id c = record c { next_message_id = u16 (c.next_message_id + 1) }

-- The result has the message id that the source returns, 0 for a name that is too long. The name's
-- array has no NUL where the name fills it: `strlen` is undefined then.
unfoldable pub send_register : List ℕ → Connection → Option (ℕ × Connection)
send_register topic_name c =
    if ltb max_topic_length (length topic_name)
    then some (0, c)
    else if length topic_name == max_topic_length
    then none
    else let array = strncpy topic_name max_topic_length in
      let n = u8 (0x08 + strlen array) in
      elim (send_packet (n ∷ MessageType.register ∷ 0 ∷ 0 ∷ (htons c.next_message_id ++ array)) n
        (next_id c)) [ none ↦ none | some d ↦ some (c.next_message_id, d) ]

unfoldable pub send_regack : ℕ → ℕ → Connection → Option (ℕ × Connection)
send_regack topic_id message_id c =
    elim (send_packet
      (0x07 ∷ MessageType.regack ∷ (htons topic_id ++ (htons message_id ++ (0x00 ∷ 0 ∷ [])))) 0x07
      c) [ none ↦ none | some d ↦ some (u16 message_id, d) ]

-- The data is a text of `data_len` bytes.
unfoldable pub send_publish : ℕ → ℕ → List ℕ → ℕ → ℕ → Connection → Option (ℕ × Connection)
send_publish topic_id topic_type data' qos retain c =
    if ltb max_payload_length (length data')
    then some (0, c)
    else let n = u8 (0x07 + length data') in
      elim (send_packet
        (n
          ∷ MessageType.publish
          ∷ publish_flags topic_type qos retain
          ∷ (htons topic_id ++ (htons c.next_message_id ++ strncpy data' max_payload_length)))
        n (next_id c)) [ none ↦ none | some d ↦ some (c.next_message_id, d) ]

unfoldable pub send_subscribe : List ℕ → ℕ → Connection → Option (ℕ × Connection)
send_subscribe topic_name qos c =
    let n = u8 (0x09 + length topic_name) in
    elim (send_packet
      (n
        ∷ MessageType.subscribe
        ∷ subscribe_flags qos topic_name
        ∷ (htons c.next_message_id ++ set (strncpy topic_name max_topic_length) 248 0))
      n (next_id c)) [ none ↦ none | some d ↦ some (c.next_message_id, d) ]

unfoldable pub send_pingreq : Connection → Option Connection
send_pingreq c = send_packet (2 ∷ MessageType.pingreq ∷ []) 2 (call restart_send_timer c)

unfoldable pub send_pingresp : Connection → Option Connection
send_pingresp = send_packet (2 ∷ MessageType.pingresp ∷ []) 2

-- The duration is not part of what is sent.
unfoldable pub send_disconnect : Connection → Option Connection
send_disconnect c = elim (send_packet (0x02 ∷ MessageType.disconnect ∷ []) 0x02 c) [
  | none ↦ none
  | some d ↦ some (call (post disconnect_event) (record d { connection_retries = 0 }))
]
