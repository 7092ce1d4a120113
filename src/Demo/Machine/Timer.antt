-- ===== src/Demo/Machine/Timer.antt =====
-- The timer of ictp/mqtt/mqtt-demo.c, which drives its state machine.
use ts_it.Base.{
  ℕ, zero, suc, ◌+◌, ◌*◌, ◌/◌, ◌^◌, ltb, if◌then◌else◌, u8, ◌≤◌, ◌≡◌, ◌≢◌, ◌⊎◌, inl, inr, refl,
  true, Bool-cases, Option, none, some, List, ◌∷◌, All, IsByte, u16, arith, ◌&&◌,
}
use ts_it.Demo.State.{
  DemoState, init, registered, connecting, connected, publishing, disconnected, newconfig,
  config_error, error, Demo, Platform, World, mqtt_publish, periodic_timer, led_timer, leds_on,
  green, Call, mqtt_disconnect, mqtt_subscribe,
}
use ts_it.Demo.Message.Laws.{json, IsPlatform, publish-json, publish-null}
use ts_it.Demo.Machine.{
  Wake, button, timer, poll, other, machine_init, machine_registered, machine_connecting,
  machine_publishing, machine_ready, machine_disconnected, publish_led_on_duration,
  net_connect_periodic, state_machine_periodic, machine_case, state_machine, process_event,
}
use ts_it.Demo.Machine.Sound.{Phase, IsBase, IsWorld}
use ts_it.Demo.Machine.Kept.{route-cases, Phase-alive}
use ts_it.Demo.Machine.Reached.{DemoReachable-IsSound}
use ts_it.Demo.Machine.Sound.{DemoReachable}

-- The newest call sets the timer, to 45 seconds at most.
abbrev pub IsRearmed : Platform → Demo → Type 0
IsRearmed os e =
    (t : ℕ) × (cs : List Call) × (e.calls ≡ periodic_timer t ∷ cs) × (t ≤ 45 * os.second)

pow_bound : (n : ℕ) → n ≤ 3 → 2 ^ n ≤ 8
pow_bound zero h = omega arith
pow_bound (suc zero) h = omega arith
pow_bound (suc (suc zero)) h = omega arith
pow_bound (suc (suc (suc zero))) h = omega arith
pow_bound (suc (suc (suc (suc n)))) h = absurd (omega (arith, h))

back_off_bound : (second factor t : ℕ) → factor ≤ 8 → t ≤ second * 2 * factor → t ≤ 45 * second
back_off_bound second factor t f h = grind arith

half_bound : (second t : ℕ) → t ≤ second / 2 → t ≤ 45 * second
half_bound second t h = omega (arith, h)

-- The program is to publish, and has no default route.
abbrev pub IsBlind : World → Demo → Type 0
IsBlind w d =
    (d.state ≡ publishing)
    × (w.is_ready ≡ true)
    × (w.out_buffer_sent ≡ true)
    × (w.default_route ≡ none)

-- It reads through the pointer to the route that is not there, or sets the timer.
abbrev pub Wakes : Platform → World → Demo → Option Demo → Type 0
Wakes os w d result =
    IsBlind w d × (result ≡ none) ⊎ ((e : Demo) × (result ≡ some e) × IsRearmed os e)

module _ (os : Platform) (below : (n : ℕ) → os.ticks n ≤ n) where
  registered-IsRearmed : (w : World) (d : Demo) → IsRearmed os (machine_registered os w d)
  unfolding machine_registered
  registered-IsRearmed w d =
      (net_connect_periodic os, _, refl, omega (arith, below (os.second / 4)))

  connecting-IsRearmed : (d : Demo) → IsRearmed os (machine_connecting os d)
  unfolding machine_connecting
  connecting-IsRearmed d =
      (state_machine_periodic os, _, refl, half_bound os.second _ (below (os.second / 2)))

  disconnected-IsRearmed : (d : Demo) → IsRearmed os (machine_disconnected os d)
  unfolding machine_disconnected
  disconnected-IsRearmed d =
      let attempt = u8 (d.connect_attempt + 1) in
      let shift = if ltb attempt 3 then attempt else 3 in
      let small =
        pow_bound (if ltb (u8 (d.connect_attempt + 1)) 3 then u8 (d.connect_attempt + 1) else 3)
          (ground arith) in
      let t = os.ticks (os.second * 2 * 2 ^ shift) in
      (
        t,
        mqtt_disconnect ∷ d.calls,
        ground arith,
        back_off_bound os.second (2 ^ shift) t small (below (os.second * 2 * 2 ^ shift)),
      )

  ready-Wakes :
      (w : World) (d : Demo)
      → d.conf.pub_interval ≡ os.ticks (45 * os.second)
      → IsPlatform os
      → IsWorld w
      → (d.state ≡ connected) ⊎ (d.state ≡ publishing)
      → Wakes os w d (machine_ready os w d)
  unfolding machine_ready
  ready-Wakes w d v p iw s = elim (Bool-cases (w.is_ready && w.out_buffer_sent)) [
    | inl y ↦ elim s [
      | inl c ↦ inr (
        record d {
          state = publishing;
          calls = periodic_timer d.conf.pub_interval ∷ mqtt_subscribe d.sub_topic ∷ d.calls;
        },
        ground (arith, y, c),
        (
          d.conf.pub_interval,
          mqtt_subscribe d.sub_topic ∷ d.calls,
          refl,
          rw (v) (below (45 * os.second)),
        ),
      )
      | inr c ↦
          let lit : Demo = record d {
            calls = led_timer (publish_led_on_duration os) ∷ leds_on green ∷ d.calls;
          } in
          elim (route-cases w iw) [
            | inl none_ ↦
                let gone = publish-null os w lit p none_ in
                inl ((c, ground (arith, y), ground (arith, y), none_), ground (arith, y, c, gone))
            | inr (route, er, l) ↦
                let seq = u16 (d.seq_nr_value + 1) in
                let (buffer, m) = publish-json os w route lit p er l in
                let cs = mqtt_publish d.pub_topic (json os seq w.clock_seconds route) ∷ lit.calls in
                inr (
                  record d {
                    seq_nr_value = seq;
                    app_buffer = buffer;
                    calls = periodic_timer d.conf.pub_interval ∷ cs;
                  },
                  ground (arith, y, c, m),
                  (d.conf.pub_interval, cs, refl, rw (v) (below (45 * os.second))),
                )
          ]
    ]
    | inr n ↦ inr (
      record d { calls = periodic_timer (state_machine_periodic os) ∷ d.calls },
      ground (arith, n),
      (state_machine_periodic os, d.calls, refl, half_bound os.second _ (below (os.second / 2))),
    )
  ]

  publishing-Wakes :
      (w : World) (d : Demo)
      → d.conf.pub_interval ≡ os.ticks (45 * os.second)
      → IsPlatform os
      → IsWorld w
      → (d.state ≡ connected) ⊎ (d.state ≡ publishing)
      → Wakes os w d (machine_publishing os w d)
  unfolding machine_publishing
  publishing-Wakes w d v p iw s = elim (Bool-cases w.life_expired) [
    | inl y ↦
        let e : machine_publishing os w d ≡ machine_ready os w (record d { connect_attempt = 0 }) =
          ground (arith, y) in
        rw (e) (ready-Wakes w (record d { connect_attempt = 0 }) v p iw s)
    | inr n ↦
        let e : machine_publishing os w d ≡ machine_ready os w d = ground (arith, n) in
        rw (e) (ready-Wakes w d v p iw s)
  ]

  machine_case-Wakes :
      (addr : List ℕ) (s : DemoState) (w : World) (d : Demo)
      → IsBase os addr d
      → IsPlatform os
      → IsWorld w
      → d.state ≡ s
      → Phase s d.calls
      → Wakes os w d (machine_case s os w d)
  unfolding machine_case
  machine_case-Wakes addr init w d b p iw s ph =
      inr (machine_registered os w (machine_init d), refl, registered-IsRearmed w (machine_init d))
  machine_case-Wakes addr registered w d b p iw s ph =
      inr (machine_registered os w d, refl, registered-IsRearmed w d)
  machine_case-Wakes addr connecting w d b p iw s ph =
      inr (machine_connecting os d, refl, connecting-IsRearmed d)
  machine_case-Wakes addr connected w d b p iw s ph = publishing-Wakes w d b.interval p iw (inl s)
  machine_case-Wakes addr publishing w d b p iw s ph = publishing-Wakes w d b.interval p iw (inr s)
  machine_case-Wakes addr disconnected w d b p iw s ph =
      inr (machine_disconnected os d, refl, disconnected-IsRearmed d)
  machine_case-Wakes addr newconfig w d b p iw s ph = absurd ph
  machine_case-Wakes addr config_error w d b p iw s ph = absurd ph
  machine_case-Wakes addr error w d b p iw s ph = absurd ph

module _ (os : Platform) (addr : List ℕ) (below : (n : ℕ) → os.ticks n ≤ n) (p : IsPlatform os)
    (a : All IsByte addr) (d : Demo) (r : DemoReachable os addr d) where
  -- Where ticks are not above what they are cast from, `%d` prints 16-bit numbers in at most 6
  -- characters, the link address consists of bytes, and a default route has 16 bytes: whenever the
  -- timer rings, the process is polled or the button is pressed, in any state that the program comes
  -- to, it is about to publish with no default route and reads through NULL, or it returns, and its
  -- last call sets the timer, to 45 seconds at most.
  pub process_event-rearms :
      (k : Wake) (w : World) → k ≢ other → IsWorld w → Wakes os w d (process_event os k w d)
  unfolding process_event state_machine
  process_event-rearms button w ne iw =
      let i = DemoReachable-IsSound os addr p a d r in
      rw (Phase-alive os addr d.state d.calls i.phase)
        (machine_case-Wakes os below addr d.state w d i.base p iw refl i.phase)
  process_event-rearms timer w ne iw =
      let i = DemoReachable-IsSound os addr p a d r in
      machine_case-Wakes os below addr d.state w d i.base p iw refl i.phase
  process_event-rearms poll w ne iw =
      let i = DemoReachable-IsSound os addr p a d r in
      machine_case-Wakes os below addr d.state w d i.base p iw refl i.phase
  process_event-rearms other w ne iw = absurd (ne refl)
