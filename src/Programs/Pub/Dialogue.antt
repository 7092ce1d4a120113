-- ===== src/Programs/Pub/Dialogue.antt =====
-- mqtt-sn-tools/mqtt-sn-pub.c with a gateway that answers.
use ts_it.Base.{
  ℕ, ◌+◌, ◌≤◌, ◌<◌, ◌≡◌, ◌≢◌, inr, true, false, some, List, [], ◌∷◌, length, arith, IsText, take,
}
use ts_it.Protocol.{max_payload_length, max_topic_length}
use ts_it.Protocol.MessageType
use ts_it.Protocol.Flag
use ts_it.Tools.State.{Client, Env, ok, ready, datagram}
use ts_it.Tools.Wire.{Message, encode}
use ts_it.Tools.Frame.Laws.{HasNodeId, after_send, on_wire}
use ts_it.Tools.Receive.Bounds.{IsBuffer}
use ts_it.Tools.Receive.Plain.{holding-IsBuffer}
use ts_it.Tools.Send.{client_name, given_length, keep}
use ts_it.Tools.Send.Laws.{next_id}
use ts_it.Tools.Acks.Answers.{
  AnswersAtOnce, past_answer, connack_received, regack_answered, regack_body, not_wrapped,
  disconnect-IsPassive,
}
use ts_it.Tools.Socket.{Network, HasSocket}
use ts_it.Programs.Options.{Opt}
use ts_it.Programs.Outcome.{later}
use ts_it.Programs.Pub.{PubOptions, keep_alive, parse_opts}
use ts_it.Programs.Pub.Runs.{published, started}

-- A gateway that answers, by the number of questions since the program's start: it accepts the
-- connection, gives the topic an id, and confirms the end, each within the keep alive time.
pub record Serves (env : Env) (m topic_id message_id : ℕ) : Type 0 where
  pub connack : env.recvfrom (later 1 m) ≡ datagram (3 ∷ MessageType.connack ∷ 0 ∷ [])
  pub regack_ready : env.select (later 5 m) ≡ ready
  pub regack :
      env.recvfrom (later 6 m)
      ≡ datagram (7 ∷ MessageType.regack ∷ regack_body topic_id message_id 0)
  pub regack_soon : env.time (later 4 m) < keep_alive + env.time (later 3 m)
  pub disconnect_ready : env.select (later 11 m) ≡ ready
  pub disconnect : env.recvfrom (later 12 m) ≡ datagram (2 ∷ MessageType.disconnect ∷ [])
  pub disconnect_soon : env.time (later 10 m) < keep_alive + env.time (later 9 m)

-- The gateway is asked about a topic name that is no short one.
pub record IsRegistered (env : Env) (o : PubOptions) (name text : List ℕ) : Type 0 where
  pub qos : o.qos ≡ 0
  pub no_id : o.topic_id ≡ 0
  pub topic : o.topic_name ≡ some name
  pub long : length name ≢ 2
  pub name_fits : length name ≤ max_topic_length
  pub message : o.message_data ≡ some text
  pub text_fits : length text ≤ max_payload_length
  pub id_fits : given_length o.client_id ≤ 23
  pub id_text : IsText (client_name env o.client_id)

module _ (env : Env) (network : Network) (fuel topic_id message_id : ℕ) (opts : List Opt)
    (o : PubOptions) (name text : List ℕ) (c d : Client) (has_socket : HasSocket network)
    (parsed : parse_opts opts (record c { forwarder_encapsulation = false }) ≡ ok o d)
    (asks : IsRegistered env o name text) (h : HasNodeId d) (b : IsBuffer d.buffer)
    (off : d.forwarder_encapsulation ≡ false) (id_small : topic_id < 65536)
    (message_small : message_id < 65536) (serves : Serves env d.moment topic_id message_id) where
  abbrev begun : Client
  begun = started env network fuel opts o c d has_socket parsed

  -- The messages of the dialogue, and the client after each.
  abbrev pub connect_message : Message
  connect_message = Message.connect true keep_alive (take 22 (client_name env o.client_id))

  abbrev asked_to_connect : Client
  asked_to_connect =
      after_send env (on_wire env (keep keep_alive begun) (encode connect_message))
        (keep keep_alive begun)

  abbrev admitted : Client
  admitted = connack_received env 0 asked_to_connect (omega arith) b off serves.connack

  admitted-IsBuffer : IsBuffer admitted.buffer
  admitted-IsBuffer =
      holding-IsBuffer MessageType.connack (0 ∷ []) not_wrapped d.buffer (omega arith) (omega arith)
        b

  abbrev pub register_message : Message
  register_message = Message.register 0 d.next_message_id name

  abbrev registering : Client
  registering =
      after_send env (on_wire env (next_id admitted) (encode register_message)) (next_id admitted)

  regack_comes :
      AnswersAtOnce env registering (7 ∷ MessageType.regack ∷ regack_body topic_id message_id 0)
  regack_comes = record {
    buffer = admitted-IsBuffer;
    no_forwarder = off;
    no_ping = inr serves.regack_soon;
    arrives = serves.regack_ready;
    datagram_is = serves.regack;
  }

  abbrev registered : Client
  registered =
      regack_answered env fuel topic_id message_id 0 registering id_small (omega arith) regack_comes

  abbrev sent_out : Client
  sent_out = published env o topic_id Flag.topic_normal text registered

  abbrev leaving : Client
  leaving = after_send env (on_wire env sent_out (encode Message.disconnect)) sent_out

  abbrev left : Client
  left = past_answer MessageType.disconnect [] disconnect-IsPassive env leaving
