-- ===== src/Tools/Wire.antt =====
-- The MQTT-SN messages that mqtt-sn-tools sends, and the CONNACK and the SUBACK of its
-- gateway, as the protocol lays them out: the specification
-- that the packets of mqtt-sn-tools/mqtt-sn.c are held against.
use ts_it.Base.{ℕ, suc, ◌+◌, Bool, List, [], ◌∷◌, ◌++◌, if◌then◌else◌, length, htons, u8}
use ts_it.Protocol.{protocol_id}
use ts_it.Protocol.MessageType
use ts_it.Protocol.Flag

pub data Message : Type 0 where
  connect : Bool → ℕ → List ℕ → Message
  register : ℕ → ℕ → List ℕ → Message
  regack : ℕ → ℕ → ℕ → Message
  publish : ℕ → ℕ → ℕ → List ℕ → Message
  subscribe_name : ℕ → ℕ → List ℕ → Message
  subscribe_id : ℕ → ℕ → ℕ → Message
  pingreq : Message
  connack : ℕ → Message
  suback : ℕ → ℕ → ℕ → ℕ → Message
  disconnect : Message

-- All but the length byte.
abbrev pub body : Message → List ℕ
body (Message.connect clean duration client_id) =
    MessageType.connect
    ∷ (if clean then Flag.clean else 0)
    ∷ protocol_id
    ∷ (htons duration ++ client_id)
body (Message.register topic_id message_id topic_name) =
    MessageType.register ∷ (htons topic_id ++ (htons message_id ++ topic_name))
body (Message.regack topic_id message_id return_code) =
    MessageType.regack ∷ (htons topic_id ++ (htons message_id ++ (return_code ∷ [])))
body (Message.publish flags topic_id message_id payload) =
    MessageType.publish ∷ flags ∷ (htons topic_id ++ (htons message_id ++ payload))
body (Message.subscribe_name flags message_id topic_name) =
    MessageType.subscribe ∷ flags ∷ (htons message_id ++ topic_name)
body (Message.subscribe_id flags message_id topic_id) =
    MessageType.subscribe ∷ flags ∷ (htons message_id ++ htons topic_id)
body (Message.connack return_code) = MessageType.connack ∷ return_code ∷ []
body (Message.suback flags topic_id message_id return_code) =
    MessageType.suback ∷ flags ∷ (htons topic_id ++ (htons message_id ++ (return_code ∷ [])))
body Message.pingreq = MessageType.pingreq ∷ []
body Message.disconnect = MessageType.disconnect ∷ []

-- The length byte counts itself.
abbrev pub encode : Message → List ℕ
encode m = suc (length (body m)) ∷ body m

-- A packet behind a forwarder encapsulation header with a wireless node id.
abbrev pub wrap : List ℕ → List ℕ → List ℕ
wrap id packet = u8 (length id + 3) ∷ MessageType.frwdencap ∷ 0 ∷ (id ++ packet)
