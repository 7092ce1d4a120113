-- ===== src/Programs/Dump/Lines.antt =====
-- What mqtt_sn_dump_packet of mqtt-sn-tools/mqtt-sn.c prints for the messages of the protocol.
use ts_it.Base.{
  if◌then◌else◌, ltb, ◌-◌, length, ℕ, ◌<◌, ◌≡◌, refl, ◌∙◌, List, [], ◌∷◌, ◌++◌, arith, byte_at,
  ntohs_at, IsText, codes, c_string-append,
}
use ts_it.Protocol.{return_code_string}
use ts_it.Protocol.MessageType
use ts_it.Tools.State.{Client, ok, bind-ok}
use ts_it.Tools.Wire.{Message, encode}
use ts_it.Tools.Publish.{hex4}
use ts_it.Programs.Dump.{
  decimal, char_decimal, print_number, print_id, print_text, print_code, topic_id_label,
  message_id_label, dump_fields, dump_packet,
}

abbrev code_text : ℕ → List ℕ
code_text code =
    codes " return_code="
    ++ (decimal code ++ (codes " (" ++ (codes (return_code_string code) ++ codes ")")))

-- The fields of a message, in the order they are printed. A DISCONNECT without a duration shows the
-- byte that an earlier datagram left behind it.
abbrev pub describe : Message → ℕ → List (List ℕ)
describe (Message.connect clean duration client_id) stale =
    (codes " protocol_id=" ++ decimal 1)
    ∷ (codes " duration=" ++ decimal duration)
    ∷ (codes " client_id=" ++ client_id)
    ∷ []
describe (Message.register topic_id message_id topic_name) stale =
    (topic_id_label ++ hex4 topic_id)
    ∷ (message_id_label ++ hex4 message_id)
    ∷ (codes " topic_name=" ++ topic_name)
    ∷ []
describe (Message.regack topic_id message_id return_code) stale =
    (topic_id_label ++ hex4 topic_id)
    ∷ (message_id_label ++ hex4 message_id)
    ∷ code_text return_code
    ∷ []
describe (Message.publish flags topic_id message_id payload) stale =
    (topic_id_label ++ hex4 topic_id)
    ∷ (message_id_label ++ hex4 message_id)
    ∷ (codes " data=" ++ payload)
    ∷ []
describe (Message.subscribe_name flags message_id topic_name) stale =
    (message_id_label ++ hex4 message_id) ∷ []
describe (Message.subscribe_id flags message_id topic_id) stale =
    (message_id_label ++ hex4 message_id) ∷ []
describe (Message.connack return_code) stale = code_text return_code ∷ []
describe (Message.suback flags topic_id message_id return_code) stale =
    (topic_id_label ++ hex4 topic_id)
    ∷ (message_id_label ++ hex4 message_id)
    ∷ code_text return_code
    ∷ []
describe Message.pingreq stale = []
describe Message.disconnect stale = (codes " duration=" ++ decimal stale) ∷ []

-- The ids fit 16 bits, and the texts are C strings.
abbrev pub IsShown : Message → Type 0
IsShown (Message.connect clean duration client_id) = (duration < 65536) × IsText client_id
IsShown (Message.register topic_id message_id topic_name) =
    (topic_id < 65536) × (message_id < 65536) × IsText topic_name
IsShown (Message.regack topic_id message_id return_code) = (topic_id < 65536) × (message_id < 65536)
IsShown (Message.publish flags topic_id message_id payload) =
    (topic_id < 65536) × (message_id < 65536) × IsText payload
IsShown (Message.subscribe_name flags message_id topic_name) = message_id < 65536
IsShown (Message.subscribe_id flags message_id topic_id) = message_id < 65536
IsShown (Message.connack return_code) = Unit
IsShown (Message.suback flags topic_id message_id return_code) =
    (topic_id < 65536) × (message_id < 65536)
IsShown Message.pingreq = Unit
IsShown Message.disconnect = Unit

-- Lines printed in their order, the newest first.
abbrev pub onto : List (List ℕ) → List (List ℕ) → List (List ℕ)
onto [] printed = printed
onto (line ∷ lines) printed = onto lines (line ∷ printed)

-- The packet in the buffer, with the terminator and what is left behind it.
abbrev pub held : Message → ℕ → List ℕ → List ℕ
held m stale tail = encode m ++ (0 ∷ stale ∷ tail)

dump_fields-describes :
    (m : Message) (stale : ℕ) (tail : List ℕ) (c : Client)
    → IsShown m
    → dump_fields (held m stale tail) c
      ≡ ok tt (record c { printed = onto (describe m stale) c.printed })
unfolding dump_fields print_number print_id print_text print_code
dump_fields-describes (Message.connect clean duration client_id) stale tail c h =
    let packet = held (Message.connect clean duration client_id) stale tail in
    let is_duration : ntohs_at packet 4 ≡ duration = omega (arith, h.0) in
    ground (arith, is_duration, c_string-append client_id (stale ∷ tail) h.1)
dump_fields-describes (Message.register topic_id message_id topic_name) stale tail c h =
    let packet = held (Message.register topic_id message_id topic_name) stale tail in
    let is_topic : ntohs_at packet 2 ≡ topic_id = omega (arith, h.0) in
    let is_message : ntohs_at packet 4 ≡ message_id = omega (arith, h.1) in
    ground (arith, is_topic, is_message, c_string-append topic_name (stale ∷ tail) h.2)
dump_fields-describes (Message.regack topic_id message_id return_code) stale tail c h =
    let packet = held (Message.regack topic_id message_id return_code) stale tail in
    let is_topic : ntohs_at packet 2 ≡ topic_id = omega (arith, h.0) in
    let is_message : ntohs_at packet 4 ≡ message_id = omega (arith, h.1) in
    ground (arith, is_topic, is_message)
dump_fields-describes (Message.publish flags topic_id message_id payload) stale tail c h =
    let packet = held (Message.publish flags topic_id message_id payload) stale tail in
    let is_topic : ntohs_at packet 3 ≡ topic_id = omega (arith, h.0) in
    let is_message : ntohs_at packet 5 ≡ message_id = omega (arith, h.1) in
    ground (arith, is_topic, is_message, c_string-append payload (stale ∷ tail) h.2)
dump_fields-describes (Message.subscribe_name flags message_id topic_name) stale tail c h =
    let packet = held (Message.subscribe_name flags message_id topic_name) stale tail in
    let is_message : ntohs_at packet 3 ≡ message_id = omega (arith, h) in ground (arith, is_message)
dump_fields-describes (Message.subscribe_id flags message_id topic_id) stale tail c h =
    let packet = held (Message.subscribe_id flags message_id topic_id) stale tail in
    let is_message : ntohs_at packet 3 ≡ message_id = omega (arith, h) in ground (arith, is_message)
dump_fields-describes (Message.connack return_code) stale tail c h = ground arith
dump_fields-describes (Message.suback flags topic_id message_id return_code) stale tail c h =
    let packet = held (Message.suback flags topic_id message_id return_code) stale tail in
    let is_topic : ntohs_at packet 3 ≡ topic_id = omega (arith, h.0) in
    let is_message : ntohs_at packet 5 ≡ message_id = omega (arith, h.1) in
    ground (arith, is_topic, is_message)
dump_fields-describes Message.pingreq stale tail c h = refl
dump_fields-describes Message.disconnect stale tail c h =
    let is_duration : ntohs_at (held Message.disconnect stale tail) 2 ≡ stale = omega arith in
    ground (arith, is_duration)

-- A length of up to 255 bytes as it is printed: from 128 on, less 256.
abbrev pub length_text : ℕ → List ℕ
length_text n = if ltb n 128 then decimal n else codes "-" ++ decimal (256 - n)

-- What is printed for a message: its type and length, its fields, and the end of the line.
abbrev pub lines : Message → ℕ → List (List ℕ)
lines m stale =
    (codes (MessageType.type_string (byte_at (encode m) 1))
      ++ (codes ": len=" ++ length_text (length (encode m))))
    ∷ describe m stale

type_held :
    (m : Message) (stale : ℕ) (tail : List ℕ) → byte_at (held m stale tail) 1 ≡ byte_at (encode m) 1
type_held (Message.connect clean duration client_id) stale tail = refl
type_held (Message.register topic_id message_id topic_name) stale tail = refl
type_held (Message.regack topic_id message_id return_code) stale tail = refl
type_held (Message.publish flags topic_id message_id payload) stale tail = refl
type_held (Message.subscribe_name flags message_id topic_name) stale tail = refl
type_held (Message.subscribe_id flags message_id topic_id) stale tail = refl
type_held (Message.connack return_code) stale tail = refl
type_held (Message.suback flags topic_id message_id return_code) stale tail = refl
type_held Message.pingreq stale tail = refl
type_held Message.disconnect stale tail = refl

pub dump_packet-lines :
    (m : Message) (stale : ℕ) (tail : List ℕ) (c : Client)
    → IsShown m
    → dump_packet (held m stale tail) c
      ≡ ok tt (record c { printed = codes "\n" ∷ onto (lines m stale) c.printed })
unfolding dump_packet
dump_packet-lines m stale tail c h =
    let d = record c {
      printed =
          (codes (MessageType.type_string (byte_at (held m stale tail) 1))
            ++ (codes ": len=" ++ char_decimal (byte_at (encode m) 0)))
          ∷ c.printed;
    } in
    bind-ok (dump_fields (held m stale tail)) _ (dump_fields-describes m stale tail d h)
    ∙ rw (type_held m stale tail) refl
