-- ===== src/Tools/Send/Laws.antt =====
-- The senders of mqtt-sn-tools/mqtt-sn.c put the encodings of `Wire` on the wire.
use ts_it.Base.{
  ℕ, suc, ◌+◌, ◌≤◌, ◌<◌, ◌≡◌, refl, ◌∙◌, ap, Bool, Option, List, [], ◌∷◌, ◌++◌, arith,
  if◌then◌else◌, length, take, set, u8, u16, htons, strncpy, IsText, take-strncpy, strlen-strncpy,
  take-strncpy_field, length-append, length-take, take-append, take-set, ltb-false, ltb-true, sym,
  replicate, strlen,
}
use ts_it.Protocol.{protocol_id, max_topic_length, max_payload_length}
use ts_it.Protocol.MessageType
use ts_it.Protocol.Flag
use ts_it.Tools.Wire.{Message, body, encode}
use ts_it.Tools.State.{Client, Env, Run, ok, exit, Post}
use ts_it.Tools.Frame.{send_packet}
use ts_it.Tools.Frame.Laws.{after_send, HasNodeId, on_wire, send_packet-ok, Kept, send_packet-Kept}
use ts_it.Tools.Send.{
  take_message_id, client_name, client_id_field, given_length, keep, send_connect, send_register,
  send_regack, publish_flags, send_publish, subscribe_flags, send_subscribe_topic_name,
  send_subscribe_topic_id, send_pingreq, send_disconnect,
}

-- The client once `next_message_id++` has been done.
abbrev pub next_id : Client → Client
next_id c = record c { next_message_id = u16 (c.next_message_id + 1) }

-- A message has gone out in one datagram.
abbrev pub Sends : Env → Message → Client → Run (Unit {0}) → Type 0
Sends env m c r = r ≡ ok tt (after_send env (on_wire env c (encode m)) c)

-- A packet of a length byte, fixed fields and an array that starts with a text is sent as the
-- message of those fields and that text.
send-fields :
    (env : Env) (c : Client) (m : Message) (n : ℕ) (fields array text : List ℕ)
    → HasNodeId c
    → body m ≡ fields ++ text
    → take (length text) array ≡ text
    → n ≡ suc (length fields + length text)
    → Sends env m c (send_packet env (n ∷ (fields ++ array)) c)
send-fields env c m n fields array text h e t k =
    let fits : n ≤ suc (length (fields ++ array)) = omega (
      arith,
      length-append fields array,
      length-append fields text,
      length-take (length text) array,
      ap length t,
    ) in
    let cut : take n (n ∷ (fields ++ array)) ≡ encode m =
      ap (λ j. take j (n ∷ (fields ++ array))) k
      ∙ ap (λ u. n ∷ u) (take-append fields array (length text) ∙ ap (λ u. fields ++ u) t ∙ sym e)
      ∙ ap (λ j. j ∷ body m) (k ∙ omega (arith, ap length e, length-append fields text)) in
    send_packet-ok env (n ∷ (fields ++ array)) c h fits
    ∙ ap (λ u. ok tt (after_send env (on_wire env c u) c)) cut

module _ (env : Env) (c : Client) (h : HasNodeId c) where
  -- Where the wireless node id fits its field, a topic name of up to 249 bytes is registered under
  -- the next message id, which is counted up; with a longer one the program exits and sends
  -- nothing.
  pub send_register-encode :
      (topic_name : List ℕ)
      → (length topic_name ≤ max_topic_length
          → Sends env
              (Message.register 0 c.next_message_id topic_name)
              (next_id c)
              (send_register env topic_name c))
        × (max_topic_length < length topic_name → send_register env topic_name c ≡ exit 1 c)
  unfolding send_register take_message_id
  send_register-encode topic_name = (
    λ p. rw (ltb-false 249 (length topic_name) p) (
        send-fields env (next_id c) (Message.register 0 c.next_message_id topic_name)
          (u8 (6 + length topic_name)) (MessageType.register ∷ 0 ∷ 0 ∷ htons c.next_message_id)
          (strncpy topic_name 249) topic_name h refl (take-strncpy topic_name 249 p) (omega arith)),
    λ p. ground arith,
  )

  -- Where the wireless node id fits its field, a client id of up to 23 bytes, given or made from
  -- the pid and without a NUL, goes out in a CONNECT with the keep alive time, cut to 22 bytes; a
  -- keep alive time other than 0 is stored. With a longer id the program exits and sends nothing.
  pub send_connect-encode :
      (client_id : Option (List ℕ)) (keepalive : ℕ) (clean_session : Bool)
      → (given_length client_id ≤ 23
          → IsText (client_name env client_id)
          → Sends env
              (Message.connect clean_session keepalive (take 22 (client_name env client_id)))
              (keep keepalive c)
              (send_connect env client_id keepalive clean_session c))
        × (23 < given_length client_id
            → send_connect env client_id keepalive clean_session c ≡ exit 1 c)
  unfolding send_connect
  send_connect-encode client_id keepalive clean_session =
      let name = client_name env client_id in
      (
        λ p t. rw (ltb-false 23 (given_length client_id) p) (
            send-fields env (keep keepalive c)
              (Message.connect clean_session keepalive (take 22 name))
              (u8 (6 + strlen (client_id_field name)))
              (MessageType.connect
                ∷ (if clean_session then Flag.clean else 0)
                ∷ protocol_id
                ∷ htons keepalive)
              (client_id_field name) (take 22 name) h refl (take-strncpy_field name 22)
              (omega (arith, strlen-strncpy name 22 t, length-take 22 name))),
        λ p. rw (ltb-true 23 (given_length client_id) p),
      )

  -- A REGACK carries the two ids and the return code 0.
  pub send_regack-encode :
      (topic_id message_id : ℕ)
      → Sends env (Message.regack topic_id message_id 0) c (send_regack env topic_id message_id c)
  unfolding send_regack
  send_regack-encode topic_id message_id =
      send-fields env c (Message.regack topic_id message_id 0) 7
        (MessageType.regack ∷ (htons topic_id ++ (htons message_id ++ (0 ∷ [])))) (0 ∷ []) [] h refl
        refl refl

  -- Where the wireless node id fits its field, a payload of up to 248 bytes is published under the
  -- next message id, which is counted up; with a longer one the program exits and sends nothing.
  pub send_publish-encode :
      (topic_id topic_type : ℕ) (payload : List ℕ) (qos retain : ℕ)
      → (length payload ≤ max_payload_length
          → Sends env
              (Message.publish
                (publish_flags topic_type qos retain)
                topic_id
                c.next_message_id
                payload)
              (next_id c)
              (send_publish env topic_id topic_type payload qos retain c))
        × (max_payload_length < length payload
            → send_publish env topic_id topic_type payload qos retain c ≡ exit 1 c)
  unfolding send_publish take_message_id
  send_publish-encode topic_id topic_type payload qos retain =
      let flags = publish_flags topic_type qos retain in
      (
        λ p. rw (ltb-false 248 (length payload) p) (
            send-fields env (next_id c) (Message.publish flags topic_id c.next_message_id payload)
              (u8 (7 + length payload))
              (MessageType.publish ∷ flags ∷ (htons topic_id ++ htons c.next_message_id))
              (strncpy payload 248) payload h refl (take-strncpy payload 248 p) (omega arith)),
        λ p. rw (ltb-true 248 (length payload) p),
      )

  -- Where the wireless node id fits its field, a subscription to a topic name of up to 248 bytes
  -- carries the name and the next message id, which is counted up.
  pub send_subscribe-encode :
      (topic_name : List ℕ) (qos : ℕ)
      → length topic_name < max_topic_length
      → Sends env
          (Message.subscribe_name (subscribe_flags qos topic_name) c.next_message_id topic_name)
          (next_id c)
          (send_subscribe_topic_name env topic_name qos c)
  unfolding send_subscribe_topic_name take_message_id
  send_subscribe-encode topic_name qos p =
      send-fields env (next_id c)
        (Message.subscribe_name (subscribe_flags qos topic_name) c.next_message_id topic_name)
        (u8 (5 + length topic_name))
        (MessageType.subscribe ∷ subscribe_flags qos topic_name ∷ htons c.next_message_id)
        (set (strncpy topic_name 249) 248 0) topic_name h refl
        (take-set (length topic_name) (strncpy topic_name 249) 248 0 (omega arith)
          ∙ take-strncpy topic_name 249 (omega arith))
        (omega arith)

  -- A subscription to a topic id carries the id and the next message id, which is counted up.
  pub send_subscribe_id-encode :
      (topic_id qos : ℕ)
      → Sends env
          (Message.subscribe_id
            (u8 (u8 (0x00 + Flag.get_qos_flag qos) + Flag.topic_predefined))
            c.next_message_id
            topic_id)
          (next_id c)
          (send_subscribe_topic_id env topic_id qos c)
  unfolding send_subscribe_topic_id take_message_id
  send_subscribe_id-encode topic_id qos =
      let flags = u8 (u8 (0x00 + Flag.get_qos_flag qos) + Flag.topic_predefined) in
      send-fields env (next_id c) (Message.subscribe_id flags c.next_message_id topic_id) 7
        (MessageType.subscribe ∷ flags ∷ (htons c.next_message_id ++ htons topic_id))
        (replicate 247 0) [] h refl refl refl

  pub send_pingreq-encode : Sends env Message.pingreq c (send_pingreq env c)
  unfolding send_pingreq
  send_pingreq-encode =
      send-fields env c Message.pingreq 2 (MessageType.pingreq ∷ []) [] [] h refl refl refl

  pub send_disconnect-encode : Sends env Message.disconnect c (send_disconnect env c)
  unfolding send_disconnect
  send_disconnect-encode =
      send-fields env c Message.disconnect 2 (MessageType.disconnect ∷ []) (0 ∷ 0 ∷ []) [] h refl
        refl refl

-- However the sending of a REGACK or of a ping goes, it leaves the buffer, the topic map and the
-- timers alone.
pub send_regack-Kept :
    (env : Env) (topic_id message_id : ℕ) (c : Client)
    → Post (λ _ d. Kept c d) (send_regack env topic_id message_id c)
unfolding send_regack
send_regack-Kept env topic_id message_id c = send_packet-Kept env _ c

pub send_pingreq-Kept : (env : Env) (c : Client) → Post (λ _ d. Kept c d) (send_pingreq env c)
unfolding send_pingreq
send_pingreq-Kept env c = send_packet-Kept env _ c
