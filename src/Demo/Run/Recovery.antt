-- ===== src/Demo/Run/Recovery.antt =====
-- From a lost connection to the next message: ictp/mqtt/mqtt-demo.c over the whole outage.
use ts_it.Base.{
  ◌∙◌, ℕ, ◌+◌, ◌≤◌, ◌≡◌, inl, inr, refl, ◌++◌, Bool, true, false, Bool-cases, Option, some, List,
  [], ◌∷◌, length, All, u16, arith, ◌&&◌,
}
use ts_it.Demo.State.{
  registered, connecting, connected, publishing, Demo, Platform, World, mqtt_publish,
  periodic_timer, led_timer, leds_on, green, Call,
}
use ts_it.Demo.Message.Laws.{json, IsPlatform, publish-json}
use ts_it.Demo.Machine.{
  Event, wake, mqtt, connection, disconnection, timer, poll, demo_event, machine_publishing,
  machine_ready, publish_led_on_duration, machine_case, state_machine, process_event,
}
use ts_it.Demo.Run.{run, rings}
use ts_it.Demo.Run.Steps.{
  At, Leads, run-append, Leads-append, waits, offline_wait, connecting_wait, busy_wait, lost_step,
  online_step, connected_step, subscribed_step,
}

-- The worlds in which the program is woken: once when the connection is lost, then as long as there
-- is no address, then with one; until the broker accepts; while a packet is in flight, then when
-- it may subscribe; and again, until it may publish.
pub record Outage : Type 0 where
  pub polled : World
  pub offline : List World
  pub online : World
  pub waiting : List World
  pub busy : List World
  pub ready : World
  pub in_flight : List World
  pub last : World

abbrev IsOffline : World → Type 0
IsOffline w = w.has_address ≡ false

abbrev IsFree : Bool → World → Type 0
IsFree b w = (w.is_ready && w.out_buffer_sent) ≡ b

pub record Ends (o : Outage) (addr : List ℕ) : Type 0 where
  pub offline : All IsOffline o.offline
  pub online : o.online.has_address ≡ true
  pub busy : All (IsFree false) o.busy
  pub ready : IsFree true o.ready
  pub in_flight : All (IsFree false) o.in_flight
  pub last : IsFree true o.last
  pub route : o.last.default_route ≡ some addr
  pub size : length addr ≤ 16

abbrev pub before_last : Outage → List Event
before_last o =
    (mqtt disconnection ∷ wake poll o.polled ∷ [])
    ++ (rings o.offline
        ++ ((wake timer o.online ∷ [])
            ++ (rings o.waiting
                ++ ((mqtt connection ∷ [])
                    ++ (rings o.busy ++ ((wake timer o.ready ∷ []) ++ rings o.in_flight))))))

abbrev pub outage_events : Outage → List Event
outage_events o = before_last o ++ (wake timer o.last ∷ [])

-- The state behind the message, and that the last calls are the message and the timer.
abbrev pub Sent : Platform → Demo → Option Demo → World → List ℕ → Type 0
Sent os d0 result w addr =
    (e : Demo) × (t : ℕ) × (cs : List Call) × (result ≡ some e)
    × (e.state ≡ publishing)
    × (e.calls
        ≡ periodic_timer t
          ∷ mqtt_publish d0.pub_topic (json os (u16 (d0.seq_nr_value + 1)) w.clock_seconds addr)
          ∷ cs)

module _ (os : Platform) (p : IsPlatform os) (d0 : Demo) where
  ready-Sent :
      (w : World) (addr : List ℕ) (d : Demo)
      → IsFree true w
      → w.default_route ≡ some addr
      → length addr ≤ 16
      → At publishing d0 d
      → Sent os d0 (machine_ready os w d) w addr
  unfolding machine_ready
  ready-Sent w addr d h r l at =
      let lit : Demo = record d {
        calls = led_timer (publish_led_on_duration os) ∷ leds_on green ∷ d.calls;
      } in
      let (buffer, m) = publish-json os w addr lit p r l in
      let seq = u16 (d.seq_nr_value + 1) in
      let cs = mqtt_publish d.pub_topic (json os seq w.clock_seconds addr) ∷ lit.calls in
      (
        record d {
          seq_nr_value = seq;
          app_buffer = buffer;
          calls = periodic_timer d.conf.pub_interval ∷ cs;
        },
        d.conf.pub_interval,
        lit.calls,
        ground (arith, h, at.0, m),
        at.0,
        rw (at.1, at.2) refl,
      )

  last-Sent :
      (w : World) (addr : List ℕ) (d : Demo)
      → IsFree true w
      → w.default_route ≡ some addr
      → length addr ≤ 16
      → At publishing d0 d
      → Sent os d0 (run os (wake timer w ∷ []) d) w addr
  unfolding run demo_event process_event state_machine machine_case machine_publishing
  last-Sent w addr d h r l at = elim (Bool-cases w.life_expired) [
    | inl y ↦
        let (e, t, cs, g, state, calls) =
          ready-Sent w addr (record d { connect_attempt = 0 }) h r l at in
        (e, t, cs, ground (arith, y, at.0, g), state, calls)
    | inr n ↦
        let (e, t, cs, g, state, calls) = ready-Sent w addr d h r l at in
        (e, t, cs, ground (arith, n, at.0, g), state, calls)
  ]

All-trivial : (ws : List World) → All (λ (w : World). Unit {0}) ws
All-trivial [] = tt
All-trivial (w ∷ ws) = (tt, All-trivial ws)

-- Up to the last ring: each stage from the one before.
before_last_lem :
    (os : Platform) (d0 : Demo) (o : Outage) (addr : List ℕ)
    → Ends o addr
    → Leads os (before_last o) d0 publishing d0
before_last_lem os d0 o addr h =
    let es7 : List Event = rings o.in_flight in
    let es6 : List Event = (wake timer o.ready ∷ []) ++ es7 in
    let es5 : List Event = rings o.busy ++ es6 in
    let es4 : List Event = (mqtt connection ∷ []) ++ es5 in
    let es3 : List Event = rings o.waiting ++ es4 in
    let es2 : List Event = (wake timer o.online ∷ []) ++ es3 in
    let es1 : List Event = rings o.offline ++ es2 in
    let join = Leads-append os d0 in
    let k6 : (c : Demo) → At connected d0 c → Leads os es6 c publishing d0 = λ c at.
      join (wake timer o.ready ∷ []) es7 c publishing publishing
        (subscribed_step os d0 o.ready c h.ready at)
        (λ b there.
          waits os d0 (IsFree false) publishing (busy_wait os d0 publishing (inr refl)) o.in_flight
            b h.in_flight there) in
    let k5 : (c : Demo) → At connected d0 c → Leads os es5 c publishing d0 = λ c at.
      join (rings o.busy) es6 c connected publishing
        (waits os d0 (IsFree false) connected (busy_wait os d0 connected (inl refl)) o.busy c h.busy
          at)
        k6 in
    let k4 : (c : Demo) → At connecting d0 c → Leads os es4 c publishing d0 = λ c at.
      join (mqtt connection ∷ []) es5 c connected publishing (connected_step os d0 c at) k5 in
    let k3 : (c : Demo) → At connecting d0 c → Leads os es3 c publishing d0 = λ c at.
      join (rings o.waiting) es4 c connecting publishing
        (waits os d0 (λ w. Unit) connecting (connecting_wait os d0) o.waiting c
          (All-trivial o.waiting) at)
        k4 in
    let k2 : (c : Demo) → At registered d0 c → Leads os es2 c publishing d0 = λ c at.
      join (wake timer o.online ∷ []) es3 c connecting publishing
        (online_step os d0 o.online c h.online at) k3 in
    let k1 : (c : Demo) → At registered d0 c → Leads os es1 c publishing d0 = λ c at.
      join (rings o.offline) es2 c registered publishing
        (waits os d0 IsOffline registered (offline_wait os d0) o.offline c h.offline at) k2 in
    join (mqtt disconnection ∷ wake poll o.polled ∷ []) es1 d0 registered publishing
      (lost_step os d0 o.polled) k1

-- From any state: when the connection is lost, and the timer rings for as long as there is no address,
-- then with one, until the broker accepts the connection, and then until nothing is in flight, twice,
-- the program has published its next message, on its topic, and set the timer. The number
-- of rings in each of these stages is arbitrary, and at the last there is a default route.
pub outage-Sent :
    (os : Platform) (d : Demo) (o : Outage) (addr : List ℕ)
    → IsPlatform os
    → Ends o addr
    → Sent os d (run os (outage_events o) d) o.last addr
outage-Sent os d o addr p h =
    let (c, e, at) = before_last_lem os d o addr h in
    let (b, t, cs, g, state, calls) = last-Sent os p d o.last addr c h.last h.route h.size at in
    (b, t, cs, run-append os d (before_last o) (wake timer o.last ∷ []) d c e ∙ g, state, calls)
