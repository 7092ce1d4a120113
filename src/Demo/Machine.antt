-- ===== src/Demo/Machine.antt =====
-- ictp/mqtt/mqtt-demo.c: the events of MQTT, the state machine and the process. What is printed on
-- the console is left out; no call of Contiki calls back before it returns.
pub mod Sound
mod Cases
pub mod Kept
pub mod Reached
pub mod Timer
use ts_it.Base.{
  ℕ, ◌+◌, ◌*◌, ◌^◌, ◌/◌, ◌==◌, ◌&&◌, ◌||◌, not, ltb, if◌then◌else◌, Bool, true, false, Option, none,
  some, List, [], ◌∷◌, length, take, drop, replicate, byte_at, codes, u8, u16,
}
use ts_it.Demo.State.{
  DemoState, init, registered, connecting, connected, publishing, disconnected, newconfig,
  config_error, error, Led, red, green, Config, Call, Demo, Platform, World, mqtt_register,
  mqtt_connect, mqtt_disconnect, mqtt_subscribe, mqtt_publish, leds_on, leds_off, led_timer,
  periodic_timer, life_timer, process_poll,
}
pub use ts_it.Demo.Handler.{
  PubMessage, MqttEvent, connection, disconnection, noted, publication, emit, same_text,
}
unfoldable pub use ts_it.Demo.Handler.{publish_led_off, pub_handler, mqtt_event}
use ts_it.Demo.Config.{init_config, update_config}
use ts_it.Demo.Message.{publish}

-- The intervals, in ticks; `CLOCK_SECOND >> 1` is half a second.
abbrev pub state_machine_periodic : Platform → ℕ
state_machine_periodic c = c.ticks (c.second / 2)

abbrev pub net_connect_periodic : Platform → ℕ
net_connect_periodic c = c.ticks (c.second / 4)

abbrev pub no_net_led_duration : Platform → ℕ
no_net_led_duration c = c.ticks (c.second / 4 / 2)

abbrev pub connecting_led_duration : Platform → ℕ
connecting_led_duration c = c.ticks (c.second / 4)

abbrev pub publish_led_on_duration : Platform → ℕ
publish_led_on_duration c = c.ticks (c.second)

abbrev pub reconnect_interval : Platform → ℕ
reconnect_interval c = c.second * 2

-- The function subscribe.
abbrev pub subscribe : Demo → Demo
subscribe d = emit (mqtt_subscribe d.sub_topic) d

abbrev pub connect_to_broker : Platform → Demo → Demo
connect_to_broker os d = record d {
  state = connecting;
  calls =
      mqtt_connect d.conf.broker_ip d.conf.broker_port (os.ticks (d.conf.pub_interval * 3))
      ∷ d.calls;
}

-- The case STATE_INIT, up to the case that it falls into.
unfoldable pub machine_init : Demo → Demo
machine_init d = record d {
  state = registered;
  connect_attempt = 1;
  auto_reconnect = false;
  calls = mqtt_register d.client_id 32 ∷ d.calls;
}

-- The case STATE_REGISTERED.
unfoldable pub machine_registered : Platform → World → Demo → Demo
machine_registered os w d = emit (periodic_timer (net_connect_periodic os)) (
    if w.has_address
    then connect_to_broker os d
    else emit (led_timer (no_net_led_duration os)) (emit (leds_on green) d))

-- Where no case returned: "reschedule ourselves".
abbrev pub reschedule : Platform → Demo → Demo
reschedule os d = emit (periodic_timer (state_machine_periodic os)) d

-- The case STATE_CONNECTING.
unfoldable pub machine_connecting : Platform → Demo → Demo
machine_connecting os d =
    reschedule os (emit (led_timer (connecting_led_duration os)) (emit (leds_on green) d))

abbrev pub is_connected : DemoState → Bool
is_connected connected = true
is_connected _ = false

-- The cases STATE_CONNECTED and STATE_PUBLISHING, once the age of the connection is looked at.
unfoldable pub machine_ready : Platform → World → Demo → Option Demo
unfolding publish
machine_ready os w d =
    let sleep = λ (e : Demo). emit (periodic_timer e.conf.pub_interval) e in
    if w.is_ready && w.out_buffer_sent
    then if is_connected d.state
      then some (sleep (record (subscribe d) { state = publishing }))
      else elim (publish os w
          (emit (led_timer (publish_led_on_duration os)) (emit (leds_on green) d))) [
            | none ↦ none
            | some e ↦ some (sleep e)
          ]
    else some (reschedule os d)

unfoldable pub machine_publishing : Platform → World → Demo → Option Demo
machine_publishing os w d =
    machine_ready os w (if w.life_expired then record d { connect_attempt = 0 } else d)

-- RECONNECT_ATTEMPTS and RETRY_FOREVER.
abbrev pub retry_forever : ℕ
retry_forever = 0xFF

abbrev pub reconnect_attempts : ℕ
reconnect_attempts = retry_forever

-- The case STATE_DISCONNECTED.
unfoldable pub machine_disconnected : Platform → Demo → Demo
machine_disconnected os d =
    let attempt = u8 (d.connect_attempt + 1) in
    let shift = if ltb attempt 3 then attempt else 3 in
    if ltb d.connect_attempt reconnect_attempts || (reconnect_attempts == retry_forever)
    then record d {
      connect_attempt = attempt;
      state = registered;
      calls =
          periodic_timer (os.ticks (reconnect_interval os * 2 ^ shift)) ∷ mqtt_disconnect ∷ d.calls;
    }
    else reschedule os (record d { state = error })

-- The switch over the state.
unfoldable pub machine_case : DemoState → Platform → World → Demo → Option Demo
unfolding machine_init machine_registered machine_connecting machine_publishing machine_disconnected
machine_case init os w d = some (machine_registered os w (machine_init d))
machine_case registered os w d = some (machine_registered os w d)
machine_case connecting os w d = some (machine_connecting os d)
machine_case connected os w d = machine_publishing os w d
machine_case publishing os w d = machine_publishing os w d
machine_case disconnected os w d = some (machine_disconnected os d)
machine_case config_error os w d = some d
machine_case error os w d = some (emit (leds_on green) d)
machine_case newconfig os w d = some (emit (leds_on green) d)

unfoldable pub state_machine : Platform → World → Demo → Option Demo
unfolding machine_case
state_machine os w d = machine_case d.state os w d

abbrev pub is_error : DemoState → Bool
is_error error = true
is_error _ = false

-- What wakes the process: the button, `publish_periodic_timer`, a poll, or another event.
pub data Wake : Type 0 where
  button timer poll other : Wake

-- A run of the loop of mqtt_demo_process.
unfoldable pub process_event : Platform → Wake → World → Demo → Option Demo
unfolding state_machine
process_event os button w d =
    state_machine os w
      (if is_error d.state then record d { connect_attempt = 1; state = registered } else d)
process_event os timer w d = state_machine os w d
process_event os poll w d = state_machine os w d
process_event os other w d = some d

-- The static variables before the process starts.
abbrev pub at_boot : Demo
at_boot = record {
  state = init;
  connect_attempt = 0;
  seq_nr_value = 0;
  client_id = replicate 24 0;
  pub_topic = replicate 24 0;
  sub_topic = replicate 24 0;
  app_buffer = replicate 256 0;
  conf = record {
    event_type_id = replicate 32 0;
    broker_ip = replicate 64 0;
    cmd_type = replicate 8 0;
    pub_interval = 0;
    broker_port = 0;
  };
  auto_reconnect = false;
  calls = [];
}

-- The process up to its loop; init_config always returns 1.
unfoldable pub demo_start : Platform → List ℕ → Option Demo
unfolding init_config update_config
demo_start os addr = update_config addr (init_config os at_boot)

-- What can happen to the program.
pub data Event : Type 0 where
  wake : Wake → World → Event
  mqtt : MqttEvent → Event
  led_off : Event

unfoldable pub demo_event : Platform → Event → Demo → Option Demo
unfolding process_event mqtt_event publish_led_off
demo_event os (wake k w) d = process_event os k w d
demo_event os (mqtt e) d = some (mqtt_event os e d)
demo_event os led_off d = some (publish_led_off d)
