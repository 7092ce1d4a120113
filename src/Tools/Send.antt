-- ===== src/Tools/Send.antt =====
-- The senders of mqtt-sn-tools/mqtt-sn.c, mqtt_sn_send_connect to mqtt_sn_send_disconnect. Each
-- fills its struct, here as the bytes of its memory, and hands it to mqtt_sn_send_packet.
-- A C string is given by its text, without NUL.
pub mod Laws
pub mod Flags
use ts_it.Base.{
  ℕ, ◌+◌, ◌%◌, Option, none, some, List, [], ◌∷◌, ◌++◌, ◌==◌, ltb, if◌then◌else◌, length, take, set,
  u8, Bool, strlen, codes, u16, htons, strncpy, replicate,
}
use ts_it.Protocol.{protocol_id, max_topic_length, max_payload_length}
use ts_it.Protocol.MessageType
use ts_it.Protocol.Flag
use ts_it.Tools.State.{Client, Env, M, ok, ◌>>=◌, ◌>>◌, modify, exit_with, exit_failure}
use ts_it.Tools.Frame.{send_packet}

-- `next_message_id++`
pub take_message_id : M ℕ
take_message_id c =
    ok c.next_message_id (record c { next_message_id = u16 (c.next_message_id + 1) })

-- The client id that is written: the given one, if it is not empty, or one made from the pid, which
-- `snprintf` cuts to 21 bytes.
unfoldable pub client_name : Env → Option (List ℕ) → List ℕ
client_name env none = take 21 (codes "mqtt-sn-tools-" ++ env.pid_decimal)
client_name env (some id) =
    if length id == 0 then take 21 (codes "mqtt-sn-tools-" ++ env.pid_decimal) else id

-- The `char client_id[23]` of the packet, its last byte NUL.
abbrev pub client_id_field : List ℕ → List ℕ
client_id_field name = strncpy name 22 ++ (0 ∷ [])

-- `strlen` of the text, or 0 for NULL.
abbrev pub given_length : Option (List ℕ) → ℕ
given_length none = 0
given_length (some id) = length id

-- `if(keepalive) keep_alive = keepalive;`
abbrev pub keep : ℕ → Client → Client
keep keepalive c = record c { keep_alive = if keepalive == 0 then c.keep_alive else keepalive }

pub send_connect : Env → Option (List ℕ) → ℕ → Bool → M (Unit {0})
unfolding client_name
send_connect env client_id keepalive clean_session =
    if ltb 23 (given_length client_id) then exit_with exit_failure else do
      let field = client_id_field (client_name env client_id)
      let packet =
          u8 (0x06 + strlen field)
          ∷ MessageType.connect
          ∷ (if clean_session then Flag.clean else 0)
          ∷ protocol_id
          ∷ (htons keepalive ++ field)
      modify (keep keepalive)
      send_packet env packet

pub send_register : Env → List ℕ → M (Unit {0})
unfolding take_message_id
send_register env topic_name =
    if ltb max_topic_length (length topic_name) then exit_with exit_failure else do
      message_id ← take_message_id
      send_packet env (
          u8 (0x06 + length topic_name)
          ∷ MessageType.register
          ∷ 0
          ∷ 0
          ∷ (htons message_id ++ strncpy topic_name max_topic_length))

-- The last byte is the padding of the struct.
pub send_regack : Env → ℕ → ℕ → M (Unit {0})
send_regack env topic_id message_id =
    send_packet env
      (0x07 ∷ MessageType.regack ∷ (htons topic_id ++ (htons message_id ++ (0x00 ∷ 0 ∷ []))))

-- `packet.flags`, a byte that is added to.
pub publish_flags : ℕ → ℕ → ℕ → ℕ
publish_flags topic_type qos retain =
    let f = if retain == 0 then 0x00 else u8 (0x00 + Flag.retain) in
    u8 (u8 (f + Flag.get_qos_flag qos) + topic_type % 4)

pub send_publish : Env → ℕ → ℕ → List ℕ → ℕ → ℕ → M (Unit {0})
unfolding publish_flags take_message_id
send_publish env topic_id topic_type payload qos retain =
    if ltb max_payload_length (length payload) then exit_with exit_failure else do
      message_id ← take_message_id
      send_packet env (
          u8 (0x07 + length payload)
          ∷ MessageType.publish
          ∷ publish_flags topic_type qos retain
          ∷ (htons topic_id ++ (htons message_id ++ strncpy payload max_payload_length)))

-- The name's length is not tested.
pub subscribe_flags : ℕ → List ℕ → ℕ
subscribe_flags qos topic_name = u8 (
    u8 (0x00 + Flag.get_qos_flag qos)
    + (if length topic_name == 2 then Flag.topic_short else Flag.topic_normal))

pub send_subscribe_topic_name : Env → List ℕ → ℕ → M (Unit {0})
unfolding subscribe_flags take_message_id
send_subscribe_topic_name env topic_name qos = do
  message_id ← take_message_id
  send_packet env (
      u8 (0x05 + length topic_name)
      ∷ MessageType.subscribe
      ∷ subscribe_flags qos topic_name
      ∷ (htons message_id ++ set (strncpy topic_name max_topic_length) 248 0))

-- The union holds the id in its first two bytes; `memset` has cleared the rest.
pub send_subscribe_topic_id : Env → ℕ → ℕ → M (Unit {0})
unfolding take_message_id
send_subscribe_topic_id env topic_id qos = do
  message_id ← take_message_id
  send_packet env (
      (0x05 + 2)
      ∷ MessageType.subscribe
      ∷ u8 (u8 (0x00 + Flag.get_qos_flag qos) + Flag.topic_predefined)
      ∷ (htons message_id ++ (htons topic_id ++ replicate 247 0)))

pub send_pingreq : Env → M (Unit {0})
send_pingreq env = send_packet env (2 ∷ MessageType.pingreq ∷ [])

pub send_disconnect : Env → M (Unit {0})
send_disconnect env = send_packet env (0x02 ∷ MessageType.disconnect ∷ 0 ∷ 0 ∷ [])
