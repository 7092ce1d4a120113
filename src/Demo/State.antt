-- ===== src/Demo/State.antt =====
-- The static variables of ictp/mqtt/mqtt-demo.c, and what it asks of Contiki.
use ts_it.Base.{ℕ, Bool, Option, List}

-- The values of `state`.
pub data DemoState : Type 0 where
  init registered connecting connected publishing disconnected newconfig config_error error :
      DemoState

pub data Led : Type 0 where
  red green : Led

-- `mqtt_client_config_t`: the strings are arrays, the interval is in ticks.
pub record Config : Type 0 where
  pub event_type_id : List ℕ
  pub broker_ip : List ℕ
  pub cmd_type : List ℕ
  pub pub_interval : ℕ
  pub broker_port : ℕ

-- A call of Contiki that has an effect. A string is given as the array that holds it.
pub data Call : Type 0 where
  mqtt_register : (client_id : List ℕ) (max_segment_size : ℕ) → Call
  mqtt_connect : (host : List ℕ) (port keep_alive : ℕ) → Call
  mqtt_disconnect : Call
  mqtt_subscribe : (topic : List ℕ) → Call
  mqtt_publish : (topic payload : List ℕ) → Call
  leds_on leds_off : Led → Call
  -- ctimer_set of `ct`, with publish_led_off
  led_timer : ℕ → Call
  -- etimer_set of `publish_periodic_timer`
  periodic_timer : ℕ → Call
  -- timer_set of `connection_life`
  life_timer : ℕ → Call
  process_poll : Call

-- The static variables, with the calls so far, the newest first.
pub record Demo : Type 0 where
  pub state : DemoState
  pub connect_attempt : ℕ
  pub seq_nr_value : ℕ
  pub client_id : List ℕ
  pub pub_topic : List ℕ
  pub sub_topic : List ℕ
  pub app_buffer : List ℕ
  pub conf : Config
  pub auto_reconnect : Bool
  pub calls : List Call

-- CLOCK_SECOND, the cast to `clock_time_t`, and how `%d` prints a `uint16_t`.
pub record Platform : Type 0 where
  pub second : ℕ
  pub ticks : ℕ → ℕ
  pub decimal : ℕ → List ℕ

-- What Contiki answers while an event is handled: whether uip_ds6_get_global(ADDR_PREFERRED) has an
-- address and `connection_life` has expired, mqtt_ready and `out_buffer_sent`, clock_seconds(), and
-- what the pointer uip_ds6_defrt_choose() leads to.
pub record World : Type 0 where
  pub has_address : Bool
  pub life_expired : Bool
  pub is_ready : Bool
  pub out_buffer_sent : Bool
  pub clock_seconds : ℕ
  pub default_route : Option (List ℕ)
