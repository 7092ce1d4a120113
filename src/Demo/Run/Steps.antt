-- ===== src/Demo/Run/Steps.antt =====
-- The stages of ictp/mqtt/mqtt-demo.c between a lost connection and the next message.
use ts_it.Base.{
  if◌then◌else◌, ◌∙◌, ◌≡◌, ◌⊎◌, inl, inr, refl, ◌++◌, true, false, Option-cases, some, List, [],
  ◌∷◌, All, arith, ◌&&◌,
}
use ts_it.Demo.State.{
  DemoState, registered, connecting, connected, publishing, Demo, Platform, World, periodic_timer,
  mqtt_subscribe,
}
use ts_it.Demo.Machine.{
  Event, wake, mqtt, connection, disconnection, timer, poll, demo_event, machine_registered,
  machine_connecting, machine_publishing, machine_ready, machine_disconnected,
  state_machine_periodic, machine_case, state_machine, process_event, mqtt_event,
}
use ts_it.Demo.Run.{run, rings}

-- The state, with the number of the last message and the topic of another.
abbrev pub At : DemoState → Demo → Demo → Type 0
At s d0 d = (d.state ≡ s) × (d.seq_nr_value ≡ d0.seq_nr_value) × (d.pub_topic ≡ d0.pub_topic)

-- The events lead there.
abbrev pub Leads : Platform → List Event → Demo → DemoState → Demo → Type 0
Leads os es d s d0 = (e : Demo) × (run os es d ≡ some e) × At s d0 e

module _ (os : Platform) (d0 : Demo) where
  pub run-append :
      (es fs : List Event) (d c : Demo) → run os es d ≡ some c → run os (es ++ fs) d ≡ run os fs c
  unfolding run
  run-append [] fs d c h = ground (arith, h)
  run-append (e ∷ es) fs d c h = elim (Option-cases (demo_event os e d)) [
    | inl n ↦ ground (arith, n, h)
    | inr (b, n) ↦ ground (arith, n, h, run-append es fs b c)
  ]

  pub Leads-append :
      (es fs : List Event) (d : Demo) (s t : DemoState)
      → Leads os es d s d0
      → ((c : Demo) → At s d0 c → Leads os fs c t d0)
      → Leads os (es ++ fs) d t d0
  Leads-append es fs d s t (c, h, at) k =
      let (e, g, there) = k c at in (e, run-append es fs d c h ∙ g, there)

  -- Worlds in which the program only waits.
  pub waits :
      (P : World → Type 0) (s : DemoState)
      → ((w : World) (d : Demo)
          → P w
          → At s d0 d
          → (e : Demo) × (demo_event os (wake timer w) d ≡ some e) × At s d0 e)
      → (ws : List World) (d : Demo) → All P ws
      → At s d0 d
      → Leads os (rings ws) d s d0
  unfolding run
  waits P s step [] d h at = (d, refl, at)
  waits P s step (w ∷ ws) d h at =
      let (c, e, there) = step w d h.0 at in
      let (b, g, then_) = waits P s step ws c h.1 there in (b, rw (e, run) g, then_)

  pub offline_wait :
      (w : World) (d : Demo)
      → w.has_address ≡ false
      → At registered d0 d
      → (e : Demo) × (demo_event os (wake timer w) d ≡ some e) × At registered d0 e
  unfolding demo_event process_event state_machine machine_case machine_registered
  offline_wait w d h at = (machine_registered os w d, ground (arith, h, at), ground (arith, h, at))

  pub connecting_wait :
      (w : World) (d : Demo)
      → Unit {0}
      → At connecting d0 d
      → (e : Demo) × (demo_event os (wake timer w) d ≡ some e) × At connecting d0 e
  unfolding demo_event process_event state_machine machine_case machine_connecting
  connecting_wait w d h at = (machine_connecting os d, ground (arith, at), ground (arith, at))

  pub busy_wait :
      (s : DemoState)
      → (s ≡ connected) ⊎ (s ≡ publishing)
      → (w : World) (d : Demo) → (w.is_ready && w.out_buffer_sent) ≡ false
      → At s d0 d
      → (e : Demo) × (demo_event os (wake timer w) d ≡ some e) × At s d0 e
  unfolding demo_event process_event state_machine machine_case machine_publishing machine_ready
  busy_wait s c w d h at =
      let d1 : Demo = if w.life_expired then record d { connect_attempt = 0 } else d in
      (
        record d1 { calls = periodic_timer (state_machine_periodic os) ∷ d1.calls },
        ground (arith, h, at, c),
        ground (arith, at),
      )

  pub lost_step : (w : World) → Leads os (mqtt disconnection ∷ wake poll w ∷ []) d0 registered d0
  unfolding run demo_event mqtt_event process_event state_machine machine_case machine_disconnected
  lost_step w =
      let d1 = mqtt_event os disconnection d0 in (machine_disconnected os d1, refl, ground arith)

  pub online_step :
      (w : World) (d : Demo)
      → w.has_address ≡ true
      → At registered d0 d
      → Leads os (wake timer w ∷ []) d connecting d0
  unfolding run demo_event process_event state_machine machine_case machine_registered
  online_step w d h at = (machine_registered os w d, ground (arith, h, at), ground (arith, h, at))

  pub connected_step :
      (d : Demo) → At connecting d0 d → Leads os (mqtt connection ∷ []) d connected d0
  unfolding run demo_event mqtt_event
  connected_step d at = (mqtt_event os connection d, refl, ground (arith, at))

  pub subscribed_step :
      (w : World) (d : Demo)
      → (w.is_ready && w.out_buffer_sent) ≡ true
      → At connected d0 d
      → Leads os (wake timer w ∷ []) d publishing d0
  unfolding run demo_event process_event state_machine machine_case machine_publishing machine_ready
  subscribed_step w d h at =
      let d1 : Demo = if w.life_expired then record d { connect_attempt = 0 } else d in
      (
        record d1 {
          state = publishing;
          calls = periodic_timer d1.conf.pub_interval ∷ mqtt_subscribe d1.sub_topic ∷ d1.calls;
        },
        ground (arith, h, at),
        ground (arith, at),
      )
