-- ===== src/Mote/Old/Laws.antt =====
-- What the earlier client of ictp/mqtt-sn/old/mqtt-sn.c does where it differs.
use ts_it.Base.{
  ℕ, ◌+◌, ◌≤◌, ◌≡◌, refl, ◌∙◌, Bool, some, none, List, [], ◌∷◌, ◌++◌, ltb, length, set, u8, htons,
  strncpy, strlen, IsText, take-strncpy, take-set, strlen-strncpy_short, ltb-false, ◌==◌, false,
  if◌then◌else◌, arith,
}
use ts_it.Protocol.MessageType
use ts_it.Tools.Wire.{Message, encode}
use ts_it.Tools.Send.{subscribe_flags}
use ts_it.Mote.State.{
  disconnected, Connection, disconnect_event, receive_timeout_event, keepalive_callback, post,
  udp_send, restart_send_timer, stop_send_timer, stop_receive_timer, kept_alive,
}
use ts_it.Mote.Send.{send_packet, next_id, send_disconnect}
use ts_it.Mote.Send.Laws.{after, send_packet-fields}
use ts_it.Mote.Events.{process_event}
use ts_it.Mote.Old.{send_register, send_subscribe, receive_timed_out, process_old_event}

-- The earlier client sends a topic name without a NUL of up to 248 bytes as the encoding of a
-- REGISTER, and, as the encoding of a SUBSCRIBE, any of up to 248 bytes, with nothing behind the
-- name; the message id is counted up and returned. A REGISTER with a name of 249 bytes, which the
-- length check lets through, is undefined.
pub old-encode :
    (topic_name : List ℕ) (qos : ℕ) (c : Connection)
    → IsText topic_name
    → (length topic_name ≤ 248
        → (send_register topic_name c
            ≡ some (
              c.next_message_id,
              after (encode (Message.register 0 c.next_message_id topic_name)) (next_id c),
            ))
          × (send_subscribe topic_name qos c
              ≡ some (
                c.next_message_id,
                after
                    (encode (
                      Message.subscribe_name
                        (subscribe_flags qos topic_name)
                        c.next_message_id
                        topic_name))
                    (next_id c),
              )))
      × (length topic_name ≡ 249 → send_register topic_name c ≡ none)
unfolding send_register send_subscribe
old-encode topic_name qos c text =
    let n = length topic_name in
    let array = strncpy topic_name 249 in
    let flags = subscribe_flags qos topic_name in
    (
      λ p.
          let size = strlen-strncpy_short topic_name 249 text (omega (arith, p)) in
          let short : (n == 249) ≡ false = ground arith in
          (
            rw
                (
                  ltb-false 249 n (omega (arith, p)),
                  short,
                  send_packet-fields (Message.register 0 c.next_message_id topic_name)
                      (u8 (6 + strlen array))
                      (MessageType.register ∷ 0 ∷ 0 ∷ htons c.next_message_id) array topic_name
                      (next_id c) refl (take-strncpy topic_name 249 (omega (arith, p)))
                      (omega (arith, p, size)),
                )
                refl,
            rw
                (
                  send_subscribe,
                  send_packet-fields (Message.subscribe_name flags c.next_message_id topic_name)
                      (u8 (5 + n)) (MessageType.subscribe ∷ flags ∷ htons c.next_message_id)
                      (set array 248 0) topic_name (next_id c) refl
                      (take-set n array 248 0 p ∙ take-strncpy topic_name 249 (omega (arith, p)))
                      (omega (arith, p)),
                )
                refl,
          ),
      λ e. ground arith,
    )

-- The connection when the receive timer has run out: the DISCONNECT is sent, with the timer of the
-- keep alive where one runs, then the event is posted and, where the application asked for it, told.
abbrev pub given_up : Bool → Connection → Connection
given_up has_keepalive_timeout c = record c {
  connection_retries = 0;
  calls =
      (if has_keepalive_timeout then keepalive_callback ∷ [] else [])
      ++ (post disconnect_event
          ∷ ((if kept_alive c then restart_send_timer ∷ [] else [])
              ++ (udp_send (encode Message.disconnect) ∷ c.calls)));
}

timed_out-given_up :
    (has_keepalive_timeout : Bool) (c : Connection)
    → receive_timed_out has_keepalive_timeout c ≡ some (given_up has_keepalive_timeout c)
unfolding receive_timed_out send_disconnect send_packet
timed_out-given_up has_keepalive_timeout c = ground arith

-- A gateway that is silent until the receive timer runs out: the earlier client sends a DISCONNECT,
-- restarts the send timer of a connection with keep alive, posts the event that ends the
-- connection, and calls the application back, where it has a function for that, in this order, and
-- no more; when the event is handled, the connection is disconnected and, with a keep alive time,
-- the receive timer and then the send timer stop. The client of now, at the same timeout, neither
-- sends nor posts anything, and its connection stays as it is.
pub silent-gateway :
    (has_keepalive_timeout : Bool) (c : Connection)
    → let d = given_up has_keepalive_timeout c in
      (process_old_event has_keepalive_timeout receive_timeout_event c ≡ some d)
      × (process_old_event has_keepalive_timeout disconnect_event d
          ≡ some (record d {
            stat = disconnected;
            calls =
                (if ltb 0 c.keep_alive then stop_send_timer ∷ stop_receive_timer ∷ [] else [])
                ++ d.calls;
          }))
      × (process_event receive_timeout_event c ≡ some c)
unfolding process_old_event process_event
silent-gateway has_keepalive_timeout c =
    (timed_out-given_up has_keepalive_timeout c, ground arith, refl)
