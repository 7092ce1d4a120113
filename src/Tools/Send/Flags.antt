-- ===== src/Tools/Send/Flags.antt =====
-- The flag byte of a PUBLISH and the unchecked length of a SUBSCRIBE in mqtt-sn-tools/mqtt-sn.c.
use ts_it.Base.{
  ℕ, ◌+◌, ◌-◌, ◌/◌, ◌%◌, ◌≤◌, ◌<◌, ◌≡◌, ◌∙◌, ap, ◌⊎◌, false, List, ◌∷◌, ◌++◌, arith, ◌==◌,
  if◌then◌else◌, length, take, set, u8, htons, strncpy, length-strncpy, length-set,
}
use ts_it.Protocol.MessageType
use ts_it.Protocol.Flag
use ts_it.Tools.State.{Client, Env, ok, fault}
use ts_it.Tools.Frame.Laws.{after_send, send_packet-plain, send_packet-overrun}
use ts_it.Tools.Send.{publish_flags, subscribe_flags, take_message_id, send_subscribe_topic_name}
use ts_it.Tools.Send.Laws.{next_id}

-- For a QoS of -1 (bit pattern 255) to 2 the flag byte of a PUBLISH holds each field in its own
-- bits: the topic type in the lowest two, the retain flag in bit 4, and in bits 5 and 6 the QoS,
-- -1 as 3; all other bits are 0.
pub publish_flags_fields :
    (topic_type qos retain : ℕ)
    → (qos ≤ 2) ⊎ (qos ≡ 255)
    → let flags = publish_flags topic_type qos retain in
      (flags % 4 ≡ topic_type % 4)
      × (flags / 4 % 4 ≡ 0)
      × (flags / 16 % 2 ≡ (if retain == 0 then 0 else 1))
      × (flags / 32 ≡ qos % 4)
unfolding publish_flags Flag.get_qos_flag
publish_flags_fields topic_type qos retain h = ground arith

-- The packet of a subscription, all 254 bytes of its struct.
abbrev pub subscribe_packet : List ℕ → ℕ → ℕ → List ℕ
subscribe_packet topic_name qos message_id =
    u8 (0x05 + length topic_name)
    ∷ MessageType.subscribe
    ∷ subscribe_flags qos topic_name
    ∷ (htons message_id ++ set (strncpy topic_name 249) 248 0)

-- Without the forwarder encapsulation, a topic name of 251 to 503 bytes makes the length byte
-- wrap: what goes out is not the subscription but its first `length topic_name - 251` bytes. With
-- one of 250 bytes the packet is sent beyond the end of its struct.
pub send_subscribe_overlong :
    (env : Env) (topic_name : List ℕ) (qos : ℕ) (c : Client)
    → c.forwarder_encapsulation ≡ false
    → (251 ≤ length topic_name
        → length topic_name < 504
        → send_subscribe_topic_name env topic_name qos c
          ≡ ok tt (
              after_send env
                (take (length topic_name - 251) (subscribe_packet topic_name qos c.next_message_id))
                (next_id c)))
      × (length topic_name ≡ 250 → send_subscribe_topic_name env topic_name qos c ≡ fault)
unfolding send_subscribe_topic_name take_message_id
send_subscribe_overlong env topic_name qos c off =
    let packet = subscribe_packet topic_name qos c.next_message_id in
    let size = length-set (strncpy topic_name 249) 248 0 ∙ length-strncpy topic_name 249 in
    (
      λ lo hi.
          let k : u8 (5 + length topic_name) ≡ length topic_name - 251 = omega arith in
          send_packet-plain env packet (next_id c) off (omega (arith, size))
          ∙ ap (λ j. ok tt (after_send env (take j packet) (next_id c))) k,
      λ e. send_packet-overrun env packet (next_id c) off (omega (arith, size)),
    )
