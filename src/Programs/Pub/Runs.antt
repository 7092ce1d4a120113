-- ===== src/Programs/Pub/Runs.antt =====
-- What mqtt-sn-tools/mqtt-sn-pub.c puts on the wire.
use ts_it.Base.{
  ℕ, ◌+◌, ◌*◌, ◌≤◌, ◌<◌, ◌≡◌, ◌≢◌, refl, ◌∙◌, false, some, List, [], ◌∷◌, length, arith,
}
use ts_it.Protocol.{max_payload_length}
use ts_it.Protocol.Flag
use ts_it.Tools.State.{Client, Env, ok, bind-ok}
use ts_it.Tools.Wire.{Message, encode}
use ts_it.Tools.Topics.{cleanup}
use ts_it.Tools.Frame.{disable_frwdencap}
use ts_it.Tools.Settings.{set_debug}
use ts_it.Tools.Frame.Laws.{HasNodeId, after_send, on_wire}
use ts_it.Tools.Send.{publish_flags}
use ts_it.Tools.Send.Laws.{next_id, send_publish-encode}
use ts_it.Tools.Socket.{Network, HasSocket, create_socket-ok}
use ts_it.Programs.Options.{Opt}
use ts_it.Programs.Pub.{PubOptions, parse_opts, qos_minus_one, find_topic, publish_message, main}

-- The topic that the options name without asking the gateway: a pre-defined id, or a short name.
pub data Known (o : PubOptions) : ℕ → ℕ → Type 0 where
  predefined : o.topic_id ≢ 0 → Known o o.topic_id Flag.topic_predefined
  short :
      (a b : ℕ)
      → o.topic_id ≡ 0
      → o.topic_name ≡ some (a ∷ b ∷ [])
      → a < 128
      → b < 128
      → Known o (a * 256 + b) Flag.topic_short

find_topic-Known :
    (env : Env) (fuel : ℕ) (o : PubOptions) {id type : ℕ} (c : Client)
    → Known o id type
    → find_topic env fuel o c ≡ ok (id, type) c
unfolding find_topic
find_topic-Known env fuel o c (predefined h) = ground (arith, h)
find_topic-Known env fuel o c (short a b z n ha hb) = ground (arith, z, n, ha, hb)

-- The client once a PUBLISH is out.
abbrev pub published : Env → PubOptions → ℕ → ℕ → List ℕ → Client → Client
published env o id type text c =
    let message = Message.publish (publish_flags type o.qos o.retain) id c.next_message_id text in
    after_send env (on_wire env c (encode message)) (next_id c)

module _ (env : Env) (network : Network) (fuel : ℕ) (opts : List Opt) (o : PubOptions)
    (c d : Client) (has_socket : HasSocket network)
    (parsed : parse_opts opts (record c { forwarder_encapsulation = false }) ≡ ok o d) where
  abbrev pub started : Client
  started = record d { debug = o.debug }

  pub main-ok :
      {e : Client}
      → publish_message env fuel o started ≡ ok tt e
      → main env network fuel opts c ≡ ok 0 (record e { topic_map = [] })
  unfolding main disable_frwdencap set_debug cleanup
  main-ok r =
      bind-ok (parse_opts opts) _ parsed
      ∙ ground (arith, r, create_socket-ok network has_socket.opened started, has_socket.nonzero)

  module _ {id type : ℕ} (text : List ℕ) (no_wait : o.qos ≡ qos_minus_one) (topic : Known o id type)
      (message : o.message_data ≡ some text) (fits : length text ≤ max_payload_length)
      (h : HasNodeId d) where
    publish_message-now :
        publish_message env fuel o started ≡ ok tt (published env o id type text started)
    unfolding publish_message
    publish_message-now =
        let sent = (send_publish-encode env started h id type text o.qos o.retain).0 fits in
        let found = find_topic-Known env fuel o started topic in
        ground (arith, sent, found, message, no_wait)

    -- With QoS -1, a topic that is known without the gateway, a payload of up to 248 bytes and a host
    -- that a socket can be connected to, the program ends with status 0 whatever arrives, and has
    -- sent one packet: the PUBLISH of the payload to that topic.
    pub main-publishes_at_once :
        (e : Client) × (main env network fuel opts c ≡ ok 0 e)
        × (e.sent
            ≡ on_wire env d (
                encode
                  (Message.publish (publish_flags type o.qos o.retain) id d.next_message_id text))
              ∷ d.sent)
    main-publishes_at_once = (
      record (published env o id type text started) { topic_map = [] },
      main-ok publish_message-now,
      refl,
    )
