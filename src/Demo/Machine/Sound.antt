-- ===== src/Demo/Machine/Sound.antt =====
-- What holds of the program of ictp/mqtt/mqtt-demo.c, whatever happens to it: the invariant.
use ts_it.Base.{
  ℕ, ◌*◌, ◌<◌, ◌≡◌, Bool, true, false, none, some, List, [], ◌∷◌, length, codes, c_string, All,
}
use ts_it.Demo.State.{
  DemoState, init, registered, connecting, connected, publishing, disconnected, red, Call, Demo,
  Platform, World, mqtt_register, mqtt_connect, mqtt_disconnect, mqtt_subscribe, mqtt_publish,
  leds_on, leds_off,
}
use ts_it.Demo.Config.{client_id_text}
use ts_it.Demo.Config.Laws.{IsConfigured}
use ts_it.Demo.Message.Laws.{json}
use ts_it.Demo.Machine.{Event, wake, mqtt, led_off, publication, demo_start, demo_event}

-- In the order of time, the newest call first: whether the connection was registered, and whether
-- there has been a subscription since the program last connected or disconnected.
abbrev pub is_registered : List Call → Bool
is_registered [] = false
is_registered (mqtt_register id size ∷ cs) = true
is_registered (_ ∷ cs) = is_registered cs

abbrev pub is_subscribed : List Call → Bool
is_subscribed [] = false
is_subscribed (mqtt_subscribe topic ∷ cs) = true
is_subscribed (mqtt_connect host port keep_alive ∷ cs) = false
is_subscribed (mqtt_disconnect ∷ cs) = false
is_subscribed (_ ∷ cs) = is_subscribed cs

-- The connection is registered once, before any use, and a message is published only on a
-- connection with a subscription.
abbrev pub IsOrdered : List Call → Type 0
IsOrdered [] = Unit
IsOrdered (mqtt_register id size ∷ cs) = (is_registered cs ≡ false) × IsOrdered cs
IsOrdered (mqtt_connect host port keep_alive ∷ cs) = (is_registered cs ≡ true) × IsOrdered cs
IsOrdered (mqtt_subscribe topic ∷ cs) = (is_registered cs ≡ true) × IsOrdered cs
IsOrdered (mqtt_publish topic payload ∷ cs) = (is_subscribed cs ≡ true) × IsOrdered cs
IsOrdered (_ ∷ cs) = IsOrdered cs

-- A call says what the default configuration means; the red LED is not switched.
abbrev pub IsGenuine : Platform → List ℕ → Call → Type 0
IsGenuine os addr (mqtt_register id size) = c_string id ≡ some (client_id_text addr)
IsGenuine os addr (mqtt_connect host port keep_alive) =
    (c_string host ≡ some (codes "aaaa::1")) × (port ≡ 1883)
IsGenuine os addr (mqtt_subscribe topic) = c_string topic ≡ some (codes "zolertia/cmd/l")
IsGenuine os addr (mqtt_publish topic payload) =
    (c_string topic ≡ some (codes "zolertia/evt/status"))
    × ((seq : ℕ) × (seconds : ℕ) × (route : List ℕ) × (payload ≡ json os seq seconds route))
IsGenuine os addr (leds_on red) = ⊥
IsGenuine os addr (leds_off red) = ⊥
IsGenuine os addr _ = Unit

-- What the state says of the calls.
abbrev pub Phase : DemoState → List Call → Type 0
Phase init cs = is_registered cs ≡ false
Phase registered cs = is_registered cs ≡ true
Phase connecting cs = is_registered cs ≡ true
Phase connected cs = is_registered cs ≡ true
Phase disconnected cs = is_registered cs ≡ true
Phase publishing cs = (is_registered cs ≡ true) × (is_subscribed cs ≡ true)
Phase _ cs = ⊥

pub record IsBase (os : Platform) (addr : List ℕ) (d : Demo) : Type 0 where
  pub configured : IsConfigured addr (codes "status") (codes "l") d
  pub host : c_string d.conf.broker_ip ≡ some (codes "aaaa::1")
  pub port : d.conf.broker_port ≡ 1883
  pub interval : d.conf.pub_interval ≡ os.ticks (45 * os.second)
  pub attempt : d.connect_attempt < 256
  pub genuine : All (IsGenuine os addr) d.calls
  pub ordered : IsOrdered d.calls

pub record IsSound (os : Platform) (addr : List ℕ) (d : Demo) : Type 0 where
  pub base : IsBase os addr d
  pub phase : Phase d.state d.calls

-- The address of a default route has 16 bytes.
abbrev pub IsWorld : World → Type 0
IsWorld w = elim w.default_route [ none ↦ Unit | some route ↦ length route ≡ 16 ]

-- The callback is called only after mqtt_register, and publications arrive only on the topic that was
-- subscribed.
abbrev pub IsEvent : Event → Demo → Type 0
IsEvent (wake k w) d = IsWorld w
IsEvent (mqtt (publication m)) d =
    (is_registered d.calls ≡ true) × (m.topic ≡ codes "zolertia/cmd/l")
IsEvent (mqtt _) d = is_registered d.calls ≡ true
IsEvent led_off d = Unit

pub data DemoReachable (os : Platform) (addr : List ℕ) : Demo → Type 0 where
  started : (d : Demo) → demo_start os addr ≡ some d → DemoReachable os addr d
  handled :
      (e : Event) (c d : Demo)
      → DemoReachable os addr c
      → IsEvent e c
      → demo_event os e c ≡ some d
      → DemoReachable os addr d
