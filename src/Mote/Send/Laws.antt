-- ===== src/Mote/Send/Laws.antt =====
-- What the senders of ictp/mqtt-sn/mqtt-sn.c put on the air, against the encodings of Tools.Wire.
use ts_it.Base.{
  ℕ, suc, ◌+◌, ◌≤◌, ◌<◌, ◌≡◌, refl, sym, ap, ◌∙◌, none, some, List, [], ◌∷◌, ◌++◌, length, take, u8,
  htons, strncpy, strlen, IsText, take-strncpy, take-append, length-append, length-take, ◌==◌,
  false, ltb-false, ltb-true, if◌then◌else◌, arith, strlen-strncpy_short, take-strncpy_two,
}
use ts_it.Protocol.{max_payload_length}
use ts_it.Protocol.MessageType
use ts_it.Tools.Wire.{Message, body, encode}
use ts_it.Tools.Send.{publish_flags}
use ts_it.Mote.State.{Connection, udp_send, restart_send_timer, call, kept_alive}
use ts_it.Mote.Send.{send_packet, next_id, send_register, send_publish}

-- The connection once a packet has gone out.
abbrev pub after : List ℕ → Connection → Connection
after bytes c =
    let d = call (udp_send bytes) c in if kept_alive d then call restart_send_timer d else d

-- A packet of a length byte, fixed fields and an array that starts with a text is the encoding of
-- the message of those fields and that text.
pub send_packet-fields :
    (m : Message) (n : ℕ) (fields array text : List ℕ) (c : Connection)
    → body m ≡ fields ++ text
    → take (length text) array ≡ text
    → n ≡ suc (length fields + length text)
    → send_packet (n ∷ (fields ++ array)) n c ≡ some (after (encode m) c)
unfolding send_packet
send_packet-fields m n fields array text c e t k =
    let fits : n ≤ suc (length (fields ++ array)) =
      omega (arith, length-append fields array, length-take (length text) array, ap length t) in
    let cut : take n (n ∷ (fields ++ array)) ≡ encode m =
      ap (λ j. take j (n ∷ (fields ++ array))) k
      ∙ ap (λ u. n ∷ u) (take-append fields array (length text) ∙ ap (λ u. fields ++ u) t ∙ sym e)
      ∙ ap (λ j. j ∷ body m) (k ∙ omega (arith, ap length e, length-append fields text)) in
    rw (ltb-false (suc (length (fields ++ array))) n fits) (ap (λ u. some (after u c)) cut)

send_packet-empty : (packet : List ℕ) (c : Connection) → send_packet packet 0 c ≡ some (after [] c)
unfolding send_packet
send_packet-empty packet c = rw (ltb-false (length packet) 0 (omega arith)) refl

-- A payload of up to 248 bytes goes out as the encoding of a PUBLISH with the next message id, which
-- is counted up and returned; with a longer one nothing is sent and 0 is returned.
pub send_publish-after :
    (topic_id topic_type : ℕ) (payload : List ℕ) (qos retain : ℕ) (c : Connection)
    → (length payload ≤ max_payload_length
        → send_publish topic_id topic_type payload qos retain c
          ≡ some (
            c.next_message_id,
            after
                (encode (
                  Message.publish
                    (publish_flags topic_type qos retain)
                    topic_id
                    c.next_message_id
                    payload))
                (next_id c),
          ))
      × (max_payload_length < length payload
          → send_publish topic_id topic_type payload qos retain c ≡ some (0, c))
unfolding send_publish
send_publish-after topic_id topic_type payload qos retain c =
    let flags = publish_flags topic_type qos retain in
    let message = Message.publish flags topic_id c.next_message_id payload in
    let fields = MessageType.publish ∷ flags ∷ (htons topic_id ++ htons c.next_message_id) in
    (
      λ p.
          rw
            (
              ltb-false 248 (length payload) p,
              send_packet-fields message (u8 (7 + length payload)) fields (strncpy payload 248)
                  payload (next_id c) refl (take-strncpy payload 248 p) (omega arith),
            )
            refl,
      λ p. rw (ltb-true 248 (length payload) p) refl,
    )

-- A topic name without a NUL of up to 247 bytes goes out with two zero bytes behind it, and a
-- length byte that counts them; with one of 248 bytes the length byte wraps and nothing of the
-- packet goes out, though a message id is used up; one of 249 bytes, which the length check lets
-- through, is undefined.
pub send_register_extra :
    (topic_name : List ℕ) (c : Connection)
    → IsText topic_name
    → (length topic_name < 248
        → send_register topic_name c
          ≡ some (
            c.next_message_id,
            after
                (encode (Message.register 0 c.next_message_id (topic_name ++ (0 ∷ 0 ∷ []))))
                (next_id c),
          ))
      × (length topic_name ≡ 248
          → send_register topic_name c ≡ some (c.next_message_id, after [] (next_id c)))
      × (length topic_name ≡ 249 → send_register topic_name c ≡ none)
unfolding send_register
send_register_extra topic_name c text =
    let n = length topic_name in
    let array = strncpy topic_name 249 in
    let fields = MessageType.register ∷ 0 ∷ 0 ∷ htons c.next_message_id in
    let padded = topic_name ++ (0 ∷ 0 ∷ []) in
    (
      λ p.
          let size = strlen-strncpy_short topic_name 249 text (omega (arith, p)) in
          let short : (n == 249) ≡ false = ground arith in
          rw
            (
              ltb-false 249 n (omega (arith, p)),
              short,
              send_packet-fields (Message.register 0 c.next_message_id padded)
                  (u8 (8 + strlen array)) fields array padded (next_id c) refl
                  (take-strncpy_two topic_name 249 (omega (arith, p)))
                  (omega (arith, p, size, length-append topic_name (0 ∷ 0 ∷ []))),
            )
            refl,
      λ e.
          let size = strlen-strncpy_short topic_name 249 text (omega (arith, e)) in
          let wraps : u8 (8 + strlen array) ≡ 0 = omega (arith, size, e) in
          let short : (n == 249) ≡ false = ground arith in
          rw
            (
              ltb-false 249 n (omega (arith, e)),
              short,
              wraps,
              send_packet-empty (0 ∷ (fields ++ array)) (next_id c),
            )
            refl,
      λ e. ground arith,
    )
