-- ===== src/Programs/Sub/Dialogue.antt =====
-- mqtt-sn-tools/mqtt-sn-sub.c with a gateway that answers, and a publication that comes.
use ts_it.Base.{
  ℕ, ◌+◌, ◌%◌, ◌/◌, ◌≤◌, ◌<◌, ◌≡◌, ◌≢◌, Bool, true, false, some, List, [], ◌∷◌, length, arith,
  IsText, take, ltb, if◌then◌else◌, u8,
}
use ts_it.Protocol.{max_topic_length}
use ts_it.Protocol.MessageType
use ts_it.Tools.State.{Client, Env, ok, ready, datagram}
use ts_it.Tools.Wire.{Message, encode}
use ts_it.Tools.Topics.{register_topic}
use ts_it.Tools.Frame.Laws.{HasNodeId, after_send, on_wire}
use ts_it.Tools.Settings.{default_timeout}
use ts_it.Tools.Receive.Bounds.{IsBuffer}
use ts_it.Tools.Receive.Plain.{packet, received, holding-IsBuffer}
use ts_it.Tools.Send.{client_name, given_length, keep, subscribe_flags}
use ts_it.Tools.Send.Laws.{next_id}
use ts_it.Tools.Wait.Answer.{asked}
use ts_it.Tools.Wait.Published.{publication, publish_plain, line}
use ts_it.Tools.Acks.Answers.{
  AnswersAtOnce, past_answer, connack_received, suback_answered, suback_body, not_wrapped,
  disconnect-IsPassive,
}
use ts_it.Tools.Socket.{Network, HasSocket}
use ts_it.Programs.Options.{Opt}
use ts_it.Programs.Outcome.{later}
use ts_it.Programs.Sub.{SubOptions, parse_opts}

-- A gateway that answers, by the number of questions since the program's start: it accepts the
-- connection and the subscription, publishes a text, and confirms the end, each within the keep
-- alive time. No signal comes before the publication.
pub record Delivers (env : Env) (running : ℕ → Bool) (m keep_alive flags topic_id message_id : ℕ)
    (text : List ℕ) : Type 0 where
  pub connack : env.recvfrom (later 1 m) ≡ datagram (3 ∷ MessageType.connack ∷ 0 ∷ [])
  pub suback_ready : env.select (later 5 m) ≡ ready
  pub suback :
      env.recvfrom (later 6 m)
      ≡ datagram (8 ∷ MessageType.suback ∷ suback_body 0 topic_id message_id 0)
  pub suback_soon : env.time (later 4 m) < keep_alive + env.time (later 3 m)
  pub runs : running (later 8 m) ≡ true
  pub publish_ready : env.select (later 9 m) ≡ ready
  pub publish :
      env.recvfrom (later 10 m)
      ≡ datagram
          (packet MessageType.publish (publication flags topic_id message_id text) publish_plain)
  pub publish_soon : env.time (later 8 m) < keep_alive + env.time (later 3 m)
  pub disconnect_ready : env.select (later 14 m) ≡ ready
  pub disconnect : env.recvfrom (later 15 m) ≡ datagram (2 ∷ MessageType.disconnect ∷ [])
  pub disconnect_soon : env.time (later 13 m) < keep_alive + env.time (later 12 m)

-- One message of a topic with a name is asked for, to be printed with the name.
pub record IsFollowed (env : Env) (o : SubOptions) (name : List ℕ) : Type 0 where
  pub topic : o.topic_name ≡ some name
  pub long : 2 < length name
  pub name_fits : length name < max_topic_length
  pub name_text : IsText name
  pub single : o.single_message ≡ true
  pub verbose : o.verbose ≡ 1
  pub has_keep_alive : o.keep_alive ≢ 0
  pub id_fits : given_length o.client_id ≤ 23
  pub id_text : IsText (client_name env o.client_id)

module _ (env : Env) (running : ℕ → Bool) (network : Network) (turns fuel : ℕ) (opts : List Opt)
    (o : SubOptions) (c d : Client) (has_socket : HasSocket network)
    (parsed : parse_opts opts (record c { forwarder_encapsulation = false; forwarder_dtn = false })
      ≡ ok o d) where
  abbrev begun : Client
  begun = record d {
    debug = o.debug;
    verbose = o.verbose;
    timeout = if ltb (u8 (o.keep_alive / 2)) 1 then default_timeout else u8 (o.keep_alive / 2);
  }

module _ (env : Env) (running : ℕ → Bool) (network : Network)
    (turns fuel flags topic_id message_id : ℕ) (text name : List ℕ) (opts : List Opt)
    (o : SubOptions) (c d : Client) (has_socket : HasSocket network)
    (parsed : parse_opts opts (record c { forwarder_encapsulation = false; forwarder_dtn = false })
      ≡ ok o d)
    (asks : IsFollowed env o name) (h : HasNodeId d) (b : IsBuffer d.buffer)
    (off : d.forwarder_encapsulation ≡ false) (no_dtn : d.forwarder_dtn ≡ false)
    (id_set : topic_id ≢ 0) (id_small : topic_id < 65535) (flags_small : flags < 256)
    (normal : flags % 4 ≡ 0) (text_text : IsText text) (text_fits : length text ≤ 248)
    (delivers : Delivers env running d.moment o.keep_alive flags topic_id message_id text) where
  abbrev pub connect_message : Message
  connect_message =
      Message.connect o.clean_session o.keep_alive (take 22 (client_name env o.client_id))

  abbrev start_of : Client
  start_of = begun env running network turns fuel opts o c d has_socket parsed

  abbrev asked_to_connect : Client
  asked_to_connect =
      after_send env (on_wire env (keep o.keep_alive start_of) (encode connect_message))
        (keep o.keep_alive start_of)

  abbrev admitted : Client
  admitted = connack_received env 0 asked_to_connect (omega arith) b off delivers.connack

  admitted-IsBuffer : IsBuffer admitted.buffer
  admitted-IsBuffer =
      holding-IsBuffer MessageType.connack (0 ∷ []) not_wrapped d.buffer (omega arith) (omega arith)
        b

  abbrev pub subscribe_message : Message
  subscribe_message = Message.subscribe_name (subscribe_flags 0 name) d.next_message_id name

  abbrev subscribing : Client
  subscribing =
      after_send env (on_wire env (next_id admitted) (encode subscribe_message)) (next_id admitted)

  suback_comes :
      AnswersAtOnce env subscribing (8 ∷ MessageType.suback ∷ suback_body 0 topic_id message_id 0)
  suback_comes = record {
    buffer = admitted-IsBuffer;
    no_forwarder = off;
    no_ping = ground (arith, delivers.suback_soon, asks.has_keep_alive);
    arrives = delivers.suback_ready;
    datagram_is = delivers.suback;
  }

  abbrev acked : Client
  acked =
      suback_answered env fuel 0 topic_id message_id 0 subscribing (omega arith)
        (omega (arith, id_small)) (omega arith) suback_comes

  abbrev noted : Client
  noted = record acked { topic_map = register_topic topic_id name d.topic_map }

  abbrev heard : Client
  heard =
      record (received MessageType.publish (publication flags topic_id message_id text)
        publish_plain env (asked noted)) { printed = line name text ∷ d.printed }

  abbrev leaving : Client
  leaving = after_send env (on_wire env heard (encode Message.disconnect)) heard

  abbrev left : Client
  left = past_answer MessageType.disconnect [] disconnect-IsPassive env leaving
