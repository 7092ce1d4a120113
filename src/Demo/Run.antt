-- ===== src/Demo/Run.antt =====
-- The program of ictp/mqtt/mqtt-demo.c over a list of events, from a lost connection to the next message.
pub mod Steps
pub mod Recovery
use ts_it.Base.{
  map, if◌then◌else◌, ◌∙◌, ℕ, ◌+◌, ◌≤◌, ◌<◌, ◌≡◌, ◌≢◌, ◌⊎◌, inl, inr, refl, ◌++◌, Bool, true, false,
  Bool-cases, Option-cases, Option, none, some, List, [], ◌∷◌, length, codes, c_string, All, IsByte,
  IsText, u16, arith, ◌&&◌,
}
use mathlib.Core.Option.{some_inj}
use ts_it.Demo.State.{
  DemoState, init, registered, connecting, connected, publishing, disconnected, newconfig,
  config_error, error, Config, Demo, Platform, World, mqtt_publish, periodic_timer, led_timer,
  leds_on, leds_off, green, Call, mqtt_subscribe,
}
use ts_it.Demo.Config.{client_id_text, init_config, update_config}
use ts_it.Demo.Config.Laws.{IsConfigured, update_config-fits}
use ts_it.Demo.Message.{publish}
use ts_it.Demo.Message.Laws.{json, IsPlatform, publish-json, publish-null}
use ts_it.Demo.Machine.{
  Event, wake, mqtt, led_off, MqttEvent, connection, disconnection, noted, PubMessage, publication,
  Wake, button, timer, poll, other, demo_start, demo_event, machine_init, machine_registered,
  machine_connecting, machine_publishing, machine_ready, machine_disconnected,
  publish_led_on_duration, state_machine_periodic, machine_case, state_machine, process_event,
  mqtt_event, pub_handler, is_error, publish_led_off, at_boot,
}
use ts_it.Demo.Machine.Sound.{
  is_registered, is_subscribed, IsOrdered, IsGenuine, Phase, IsBase, IsSound, IsWorld, IsEvent,
}

-- The events, one after the other.
unfoldable pub run : Platform → List Event → Demo → Option Demo
unfolding demo_event
run os [] d = some d
run os (e ∷ es) d = elim (demo_event os e d) [ none ↦ none | some c ↦ run os es c ]

-- The timer rings in each of the worlds.
abbrev pub rings : List World → List Event
rings = map (wake timer)
