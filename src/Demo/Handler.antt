-- ===== src/Demo/Handler.antt =====
-- The events of MQTT that ictp/mqtt/mqtt-demo.c handles, and the LEDs. What is printed on the console is
-- left out.
use ts_it.Base.{
  ℕ, ◌*◌, ◌==◌, ◌&&◌, ◌||◌, not, if◌then◌else◌, Bool, true, false, List, [], ◌∷◌, length, take,
  drop, byte_at, codes, u16,
}
use ts_it.Demo.State.{
  connected, disconnected, red, green, Call, Demo, Platform, leds_on, leds_off, life_timer,
  process_poll,
}

-- CONNECTION_STABLE_TIME, in ticks.
abbrev pub connection_stable_time : Platform → ℕ
connection_stable_time c = c.ticks (c.second * 5)

abbrev pub emit : Call → Demo → Demo
emit call d = record d { calls = call ∷ d.calls }

-- publish_led_off, the callback of the timer `ct`.
unfoldable pub publish_led_off : Demo → Demo
publish_led_off d = emit (leds_off green) d

-- Equality of texts, as strncmp tells it of texts of one length.
abbrev pub same_text : List ℕ → List ℕ → Bool
same_text [] [] = true
same_text [] (b ∷ bs) = false
same_text (a ∷ as_) [] = false
same_text (a ∷ as_) (b ∷ bs) = (a == b) && same_text as_ bs

-- `topic` is read without its terminator.
unfoldable pub pub_handler : List ℕ → ℕ → List ℕ → ℕ → Demo → Demo
pub_handler topic topic_len chunk chunk_len d =
    if not (topic_len == 17) || not (chunk_len == 1)
    then d
    else if same_text (take 4 (drop 10 topic)) (codes "leds")
    then if byte_at chunk 0 == 0x31
      then emit (leds_on red) d
      else if byte_at chunk 0 == 0x30
      then emit (leds_off red) d
      else d
    else d

-- What is read of `struct mqtt_message`; `first_chunk` only decides what is printed.
pub record PubMessage : Type 0 where
  pub topic : List ℕ
  pub payload_chunk : List ℕ
  pub payload_length : ℕ

-- The events of MQTT; those that are only printed are `noted`.
pub data MqttEvent : Type 0 where
  connection disconnection noted : MqttEvent
  publication : PubMessage → MqttEvent

unfoldable pub mqtt_event : Platform → MqttEvent → Demo → Demo
unfolding pub_handler
mqtt_event os connection d = record d {
  state = connected;
  calls = life_timer (connection_stable_time os) ∷ d.calls;
}
mqtt_event os disconnection d = record d { state = disconnected; calls = process_poll ∷ d.calls }
mqtt_event os noted d = d
mqtt_event os (publication m) d =
    pub_handler m.topic (u16 (length m.topic)) m.payload_chunk (u16 m.payload_length) d
