-- ===== src/Protocol.antt =====
-- The MQTT-SN constants of mqtt-sn-tools/mqtt-sn.h and ictp/mqtt-sn/mqtt-sn.h, and the table of
-- return codes that both mqtt-sn.c hold.
pub mod MessageType
pub mod Flag
use Prim.Native.String.{String}
use ts_it.Base.{ℕ, ◌==◌, if◌then◌else◌}

abbrev pub protocol_id : ℕ
protocol_id = 0x01

abbrev pub max_packet_length : ℕ
max_packet_length = 255

-- `MQTT_SN_MAX_PACKET_LENGTH - 6`
abbrev pub max_topic_length : ℕ
max_topic_length = 249

-- The size of `data` in `publish_packet_t`, `MQTT_SN_MAX_PACKET_LENGTH - 7`.
abbrev pub max_payload_length : ℕ
max_payload_length = 248

abbrev pub max_wireless_node_id_length : ℕ
max_wireless_node_id_length = 252

unfoldable pub return_code_string : ℕ → String
return_code_string code =
    if code == 0
    then "Accepted"
    else if code == 1
    then "Rejected: congestion"
    else if code == 2
    then "Rejected: invalid topic ID"
    else if code == 3
    then "Rejected: not supported"
    else "Rejected: unknown reason"
