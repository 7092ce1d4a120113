-- ===== src/Demo/Machine/Kept.antt =====
-- The state machine, the process and the events of MQTT, with the invariant.
use ts_it.Base.{
  ℕ, ◌≤◌, ◌≡◌, ◌⊎◌, inl, inr, refl, true, false, Bool-cases, Option-cases, none, some, List, ◌∷◌,
  length, arith, ◌&&◌,
}
use mathlib.Core.Option.{some_inj}
use ts_it.Demo.State.{
  DemoState, init, registered, connecting, connected, publishing, disconnected, newconfig,
  config_error, error, Demo, Platform, World, led_timer, leds_on, leds_off, green, Call,
}
use ts_it.Demo.Message.Laws.{IsPlatform, publish-null}
use ts_it.Demo.Machine.{
  mqtt, MqttEvent, connection, disconnection, noted, publication, Wake, button, timer, poll, other,
  machine_init, machine_publishing, machine_ready, publish_led_on_duration, machine_case,
  state_machine, process_event, mqtt_event, pub_handler, is_error, publish_led_off,
}
use ts_it.Demo.Machine.Sound.{
  is_registered, is_subscribed, Phase, IsBase, IsSound, IsWorld, IsEvent,
}
use ts_it.Demo.Machine.Cases.{
  registered-IsSound, init-IsBase, connecting-IsSound, disconnected-IsSound, published-IsSound,
}

-- A world with a default route, or none.
pub route-cases :
    (w : World)
    → IsWorld w
    → (w.default_route ≡ none)
      ⊎ ((route : List ℕ) × (w.default_route ≡ some route) × (length route ≤ 16))
route-cases w iw = elim (Option-cases w.default_route) [
  | inl e ↦ inl e
  | inr (route, e) ↦ inr (route, e, ground (arith, e, iw))
]

module _ (os : Platform) (addr : List ℕ) where
  ready-IsSound :
      (w : World) (d e : Demo)
      → IsBase os addr d
      → IsPlatform os
      → IsWorld w
      → is_registered d.calls ≡ true
      → (d.state ≡ connected) ⊎ ((d.state ≡ publishing) × (is_subscribed d.calls ≡ true))
      → machine_ready os w d ≡ some e
      → IsSound os addr e
  unfolding machine_ready
  ready-IsSound w d e b p iw r s h = elim (Bool-cases (w.is_ready && w.out_buffer_sent)) [
    | inl y ↦ elim s [
      | inl c ↦ ground (arith, y, c, h)
      | inr (c, u) ↦
          let lit : Demo = record d {
            calls = led_timer (publish_led_on_duration os) ∷ leds_on green ∷ d.calls;
          } in
          let base : IsBase os addr lit = ground (arith, b) in
          elim (route-cases w iw) [
            | inl none_ ↦
                let gone = publish-null os w lit p none_ in absurd (ground (arith, y, c, gone, h))
            | inr (route, er, l) ↦
                published-IsSound os addr lit base w route e p er l c r u (ground (arith, y, c, h))
          ]
    ]
    | inr n ↦ ground (arith, n, h, s)
  ]

  publishing-IsSound :
      (w : World) (d e : Demo)
      → IsBase os addr d
      → IsPlatform os
      → IsWorld w
      → is_registered d.calls ≡ true
      → (d.state ≡ connected) ⊎ ((d.state ≡ publishing) × (is_subscribed d.calls ≡ true))
      → machine_publishing os w d ≡ some e
      → IsSound os addr e
  unfolding machine_publishing
  publishing-IsSound w d e b p iw r s h = elim (Bool-cases w.life_expired) [
    | inl y ↦
        ready-IsSound w (record d { connect_attempt = 0 }) e (ground (arith, b)) p iw r s
          (ground (arith, y, h))
    | inr n ↦ ready-IsSound w d e b p iw r s (ground (arith, n, h))
  ]

  machine_case-IsSound :
      (s : DemoState) (w : World) (d e : Demo)
      → IsBase os addr d
      → IsPlatform os
      → IsWorld w
      → d.state ≡ s
      → Phase s d.calls
      → machine_case s os w d ≡ some e
      → IsSound os addr e
  unfolding machine_case
  machine_case-IsSound init w d e b p iw s ph h =
      let (b', s', r') = init-IsBase os addr d b ph in
      rw (← some_inj.0 h) (registered-IsSound os addr (machine_init d) b' w s' r')
  machine_case-IsSound registered w d e b p iw s ph h =
      rw (← some_inj.0 h) (registered-IsSound os addr d b w s ph)
  machine_case-IsSound connecting w d e b p iw s ph h =
      rw (← some_inj.0 h) (connecting-IsSound os addr d b s ph)
  machine_case-IsSound connected w d e b p iw s ph h = publishing-IsSound w d e b p iw ph (inl s) h
  machine_case-IsSound publishing w d e b p iw s ph h =
      publishing-IsSound w d e b p iw ph.0 (inr (s, ph.1)) h
  machine_case-IsSound disconnected w d e b p iw s ph h =
      rw (← some_inj.0 h) (disconnected-IsSound os addr d b ph)
  machine_case-IsSound newconfig w d e b p iw s ph h = absurd ph
  machine_case-IsSound config_error w d e b p iw s ph h = absurd ph
  machine_case-IsSound error w d e b p iw s ph h = absurd ph

  state_machine-IsSound :
      (w : World) (d e : Demo)
      → IsSound os addr d
      → IsPlatform os
      → IsWorld w
      → state_machine os w d ≡ some e
      → IsSound os addr e
  unfolding state_machine
  state_machine-IsSound w d e i p iw h =
      machine_case-IsSound d.state w d e i.base p iw refl i.phase h

  pub Phase-alive : (s : DemoState) (cs : List Call) → Phase s cs → is_error s ≡ false
  Phase-alive error cs h = absurd h
  Phase-alive config_error cs h = refl
  Phase-alive newconfig cs h = refl
  Phase-alive _ cs h = refl

  Phase-led_off : (s : DemoState) (cs : List Call) → Phase s cs → Phase s (leds_off green ∷ cs)
  Phase-led_off error cs h = h
  Phase-led_off config_error cs h = h
  Phase-led_off newconfig cs h = h
  Phase-led_off init cs h = h
  Phase-led_off publishing cs h = h
  Phase-led_off _ cs h = h

  pub process_event-IsSound :
      (k : Wake) (w : World) (d e : Demo)
      → IsSound os addr d
      → IsPlatform os
      → IsWorld w
      → process_event os k w d ≡ some e
      → IsSound os addr e
  unfolding process_event
  process_event-IsSound button w d e i p iw h =
      state_machine-IsSound w d e i p iw (rw (Phase-alive d.state d.calls i.phase) at h)
  process_event-IsSound timer w d e i p iw h = state_machine-IsSound w d e i p iw h
  process_event-IsSound poll w d e i p iw h = state_machine-IsSound w d e i p iw h
  process_event-IsSound other w d e i p iw h = rw (← some_inj.0 h) i

  pub mqtt_event-IsSound :
      (m : MqttEvent) (d : Demo)
      → IsSound os addr d
      → IsEvent (mqtt m) d
      → IsSound os addr (mqtt_event os m d)
  unfolding mqtt_event pub_handler
  mqtt_event-IsSound connection d i r = ground arith
  mqtt_event-IsSound disconnection d i r = ground arith
  mqtt_event-IsSound noted d i r = i
  mqtt_event-IsSound (publication m) d i r = rw (r.1) i

  pub publish_led_off-IsSound : (d : Demo) → IsSound os addr d → IsSound os addr (publish_led_off d)
  unfolding publish_led_off
  publish_led_off-IsSound d i = record {
    base = ground (arith, i.base);
    phase = Phase-led_off d.state d.calls i.phase;
  }
