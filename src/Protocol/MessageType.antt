-- ===== src/Protocol/MessageType.antt =====
-- The message types, `MQTT_SN_TYPE_...` of mqtt-sn-tools/mqtt-sn.h and ictp/mqtt-sn/mqtt-sn.h (which
-- has no FRWDENCAP), and the table mqtt_sn_type_string of mqtt-sn-tools/mqtt-sn.c.
use Prim.Native.String.{String}
use ts_it.Base.{ℕ, ◌==◌, if◌then◌else◌}

abbrev pub advertise : ℕ
advertise = 0x00

abbrev pub searchgw : ℕ
searchgw = 0x01

abbrev pub gwinfo : ℕ
gwinfo = 0x02

abbrev pub connect : ℕ
connect = 0x04

abbrev pub connack : ℕ
connack = 0x05

abbrev pub willtopicreq : ℕ
willtopicreq = 0x06

abbrev pub willtopic : ℕ
willtopic = 0x07

abbrev pub willmsgreq : ℕ
willmsgreq = 0x08

abbrev pub willmsg : ℕ
willmsg = 0x09

abbrev pub register : ℕ
register = 0x0A

abbrev pub regack : ℕ
regack = 0x0B

abbrev pub publish : ℕ
publish = 0x0C

abbrev pub puback : ℕ
puback = 0x0D

abbrev pub pubcomp : ℕ
pubcomp = 0x0E

abbrev pub pubrec : ℕ
pubrec = 0x0F

abbrev pub pubrel : ℕ
pubrel = 0x10

abbrev pub subscribe : ℕ
subscribe = 0x12

abbrev pub suback : ℕ
suback = 0x13

abbrev pub unsubscribe : ℕ
unsubscribe = 0x14

abbrev pub unsuback : ℕ
unsuback = 0x15

abbrev pub pingreq : ℕ
pingreq = 0x16

abbrev pub pingresp : ℕ
pingresp = 0x17

abbrev pub disconnect : ℕ
disconnect = 0x18

abbrev pub willtopicupd : ℕ
willtopicupd = 0x1A

abbrev pub willtopicresp : ℕ
willtopicresp = 0x1B

abbrev pub willmsgupd : ℕ
willmsgupd = 0x1C

abbrev pub willmsgresp : ℕ
willmsgresp = 0x1D

abbrev pub frwdencap : ℕ
frwdencap = 0xFE

-- The names that the logs give to the types.
unfoldable pub type_string : ℕ → String
type_string t =
    if t == advertise
    then "ADVERTISE"
    else if t == searchgw
    then "SEARCHGW"
    else if t == gwinfo
    then "GWINFO"
    else if t == connect
    then "CONNECT"
    else if t == connack
    then "CONNACK"
    else if t == willtopicreq
    then "WILLTOPICREQ"
    else if t == willtopic
    then "WILLTOPIC"
    else if t == willmsgreq
    then "WILLMSGREQ"
    else if t == willmsg
    then "WILLMSG"
    else if t == register
    then "REGISTER"
    else if t == regack
    then "REGACK"
    else if t == publish
    then "PUBLISH"
    else if t == puback
    then "PUBACK"
    else if t == pubcomp
    then "PUBCOMP"
    else if t == pubrec
    then "PUBREC"
    else if t == pubrel
    then "PUBREL"
    else if t == subscribe
    then "SUBSCRIBE"
    else if t == suback
    then "SUBACK"
    else if t == unsubscribe
    then "UNSUBSCRIBE"
    else if t == unsuback
    then "UNSUBACK"
    else if t == pingreq
    then "PINGREQ"
    else if t == pingresp
    then "PINGRESP"
    else if t == disconnect
    then "DISCONNECT"
    else if t == willtopicupd
    then "WILLTOPICUPD"
    else if t == willtopicresp
    then "WILLTOPICRESP"
    else if t == willmsgupd
    then "WILLMSGUPD"
    else if t == willmsgresp
    then "WILLMSGRESP"
    else if t == frwdencap
    then "FRWDENCAP"
    else "UNKNOWN"
