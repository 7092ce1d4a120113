-- ===== src/Demo/Tests.antt =====
-- The theorems about ictp/mqtt/mqtt-demo.c at a mote with the address c1:0c:00:00:00:00:05:8d, a clock of
-- 128 ticks a second, and the route by way of the border router.
use ts_it.Base.{
  ℕ, ◌^◌, ◌%◌, ◌≤◌, ◌<◌, ◌≡◌, ◌≢◌, ◌⊎◌, refl, ◌++◌, true, false, Option, none, some, List, [], ◌∷◌,
  length, codes, c_string, replicate, decimal_digits, length-decimal_digits, IsText-decimal_digits,
  arith,
}
use ts_it.Demo.State.{
  Demo, Platform, World, init, config_error, periodic_timer, mqtt_publish, mqtt_connect,
  mqtt_register, connecting,
}
use ts_it.Demo.Config.{update_config, init_config}
use ts_it.Demo.Config.Laws.{IsConfigured, update_config-fits}
use ts_it.Demo.Message.{Printed, ip_print, ip_group, ip_groups, ipaddr_sprintf, publish}
use ts_it.Demo.Message.Laws.{IsPlatform, publish-json}
use ts_it.Demo.Address.{ipaddr_sprintf-address_text}
use ts_it.Demo.Machine.{
  timer, other, PubMessage, publication, mqtt_event, at_boot, demo_start, demo_event, wake,
  process_event,
}
use ts_it.Demo.Machine.Sound.{DemoReachable, started, handled, IsSound}
use ts_it.Demo.Machine.Reached.{DemoReachable-IsSound}
use ts_it.Demo.Machine.Timer.{Wakes, process_event-rearms}
use ts_it.Demo.Commands.{command-ignored}
use ts_it.Demo.Run.{run}
use ts_it.Demo.Run.Recovery.{Outage, Ends, outage_events, Sent, outage-Sent}

abbrev z1 : Platform
z1 = record { second = 128; ticks = λ n. n % 2 ^ 32; decimal = λ n. decimal_digits 5 n [] }

decimal_short : (n : ℕ) → length (decimal_digits 5 n []) ≤ 6
decimal_short n = let d = length-decimal_digits 5 n [] in omega arith

z1-IsPlatform : IsPlatform z1
z1-IsPlatform = record { text = λ n. IsText-decimal_digits 5 n [] tt; short = decimal_short }

ticks_below : (n : ℕ) → n % 2 ^ 32 ≤ n
ticks_below n = omega arith

abbrev link : List ℕ
link = 0xc1 ∷ 0x0c ∷ 0 ∷ 0 ∷ 0 ∷ 0 ∷ 5 ∷ 0x8d ∷ []

abbrev router : List ℕ
router = 0xaa ∷ 0xaa ∷ 0 ∷ 0 ∷ 0 ∷ 0 ∷ 0 ∷ 0 ∷ 0 ∷ 0 ∷ 0 ∷ 0 ∷ 0 ∷ 0 ∷ 0 ∷ 1 ∷ []

ipaddr_sprintf-address_text_example :
    (o : Printed) × (ipaddr_sprintf (replicate 64 0) 64 router ≡ some o)
    × (c_string o.buf ≡ some (codes "aaaa::1"))
    × (o.len ≡ 7)
ipaddr_sprintf-address_text_example = ipaddr_sprintf-address_text router (omega arith)

-- Groups of zeros at the start and in two places, as in ictp/mqtt/README.md.
abbrev text_of : List ℕ → Option (List ℕ)
text_of addr = elim (ipaddr_sprintf (replicate 64 0) 64 addr) [
  | none ↦ none
  | some o ↦ c_string o.buf
]

loopback_text : text_of (replicate 15 0 ++ (1 ∷ [])) ≡ some (codes "::1")
unfolding ipaddr_sprintf ip_groups ip_group ip_print c_string
loopback_text = refl

two_runs_text :
    text_of (0xfe ∷ 0x80 ∷ 0 ∷ 0 ∷ 0 ∷ 0 ∷ 0 ∷ 0 ∷ 0xc3 ∷ 0x0c ∷ 0 ∷ 0 ∷ 0 ∷ 0 ∷ 0x13 ∷ 0xc2 ∷ [])
    ≡ some (codes "fe80::c30c:0:0:13c2")
unfolding ipaddr_sprintf ip_groups ip_group ip_print c_string
two_runs_text = refl

abbrev up : World
up = record {
  has_address = true;
  life_expired = true;
  is_ready = true;
  out_buffer_sent = true;
  clock_seconds = 90;
  default_route = some router;
}

abbrev down : World
down = record up { has_address = false; is_ready = false; default_route = none }

published_message :
    (b : List ℕ) × (publish z1 up at_boot
      ≡ some (record at_boot {
        seq_nr_value = 1;
        app_buffer = b;
        calls =
            mqtt_publish (replicate 24 0) (
              codes
                "{\"d\":{\"myName\":\"Zolertia Z1 Node\",\"Seq #\":1,\"Uptime (sec)\":90,\"Def Route\":\"aaaa::1\"}}")
            ∷ [];
      }))
published_message = publish-json z1 up router at_boot z1-IsPlatform refl (omega arith)

abbrev defaults : Demo
defaults = record at_boot {
  conf = record at_boot.conf {
    event_type_id = codes "temperature" ++ replicate 21 0;
    cmd_type = codes "leds" ++ replicate 4 0;
  };
}

-- An event type of eleven characters is too long.
update_config-fits_example :
    (e : Demo) × (update_config link defaults ≡ some e)
    × ((4 ≤ 10)
          × (11 ≤ 10)
          × IsConfigured link (codes "temperature") (codes "leds") e
          × (e.state ≡ init)
          × (e.seq_nr_value ≡ 0)
          × (e.connect_attempt ≡ 0)
          × (e.conf ≡ defaults.conf)
          × (e.calls ≡ periodic_timer 0 ∷ [])
        ⊎ ((10 < 4) ⊎ (10 < 11)) × (e.state ≡ config_error) × (e.calls ≡ []))
unfolding c_string
update_config-fits_example =
    update_config-fits link (codes "temperature") (codes "leds") defaults (omega arith)
      (omega arith) (omega arith) refl refl

abbrev begun : Demo
begun = record at_boot {
  client_id = codes "d:c10c0000058d" ++ replicate 10 0;
  pub_topic = codes "zolertia/evt/status" ++ replicate 5 0;
  sub_topic = codes "zolertia/cmd/l" ++ replicate 10 0;
  conf = record {
    event_type_id = codes "status" ++ replicate 26 0;
    broker_ip = codes "aaaa::1" ++ replicate 57 0;
    cmd_type = codes "l" ++ replicate 7 0;
    pub_interval = 5760;
    broker_port = 1883;
  };
  calls = periodic_timer 0 ∷ [];
}

begun-DemoReachable : DemoReachable z1 link begun
unfolding demo_start init_config update_config c_string
begun-DemoReachable = started begun refl

-- The first ring: the connection is registered, and the program connects.
abbrev on_the_way : Demo
on_the_way = record begun {
  state = connecting;
  connect_attempt = 1;
  calls =
      periodic_timer 32
      ∷ mqtt_connect begun.conf.broker_ip 1883 17280
      ∷ mqtt_register begun.client_id 32
      ∷ periodic_timer 0
      ∷ [];
}

on_the_way-DemoReachable : DemoReachable z1 link on_the_way
unfolding demo_event
on_the_way-DemoReachable = handled (wake timer up) begun on_the_way begun-DemoReachable refl refl

DemoReachable-IsSound_example : IsSound z1 link on_the_way
DemoReachable-IsSound_example =
    DemoReachable-IsSound z1 link z1-IsPlatform (omega arith) on_the_way on_the_way-DemoReachable

timer-ne-other : timer ≢ other
timer-ne-other e = cc

process_event-rearms_example : Wakes z1 down on_the_way (process_event z1 timer down on_the_way)
process_event-rearms_example =
    process_event-rearms z1 link ticks_below z1-IsPlatform (omega arith) on_the_way
      on_the_way-DemoReachable timer down timer-ne-other tt

abbrev listening : Demo
listening = record begun { sub_topic = codes "zolertia/cmd/leds" ++ replicate 7 0 }

listening-IsConfigured : IsConfigured link (codes "status") (codes "leds") listening
unfolding c_string
listening-IsConfigured = record { client_id = refl; sub_topic = refl; pub_topic = refl }

-- The command to switch the LED on, of a program that is subscribed to "zolertia/cmd/leds".
abbrev switch_on : PubMessage
switch_on = record {
  topic = codes "zolertia/cmd/leds";
  payload_chunk = codes "1";
  payload_length = 1;
}

command-ignored_example : mqtt_event z1 (publication switch_on) listening ≡ listening
unfolding c_string
command-ignored_example =
    command-ignored z1 link (codes "status") (codes "leds") listening switch_on
      listening-IsConfigured refl

abbrev outage : Outage
outage = record {
  polled = down;
  offline = down ∷ down ∷ [];
  online = up;
  waiting = up ∷ [];
  busy = down ∷ [];
  ready = up;
  in_flight = [];
  last = up;
}

outage-Ends : Ends outage router
outage-Ends = record {
  offline = (refl, (refl, tt));
  online = refl;
  busy = (refl, tt);
  ready = refl;
  in_flight = tt;
  last = refl;
  route = refl;
  size = omega arith;
}

outage-Sent_example : Sent z1 on_the_way (run z1 (outage_events outage) on_the_way) up router
outage-Sent_example = outage-Sent z1 on_the_way outage router z1-IsPlatform outage-Ends
