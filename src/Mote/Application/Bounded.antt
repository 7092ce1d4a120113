-- ===== src/Mote/Application/Bounded.antt =====
-- How often the main process of ictp/mqtt-sn/example.c asks for a connection, and what it starts.
use mathlib.Core.Path.{subst}
use ts_it.Base.{Bool-cases, ltb, ◌≢◌, ◌∙◌, ℕ, ◌+◌, ◌≤◌, ◌<◌, ◌≡◌, refl, inl, inr, some, arith, u8}
use ts_it.Mote.State.{Status, connection_failed, connected}
use ts_it.Mote.Send.{send_packet, send_connect, send_subscribe}
use ts_it.Mote.Requests.{begin_request, subscribe_try}
use ts_it.Mote.Application.{
  App, AppEvent, periodic_timer, mqttsn_connack, connection_timeout, Phase, Task, ask_subscription,
  ask_registration, regreq, call_timer, TimerCall, reply_timeout, ask_connection,
  connection_decided, connack_event, timeout_event, main_event,
}
use ts_it.Mote.Application.Alike.{Alike, ask_registration-Alike}

-- By where the main process waits: the CONNECTs that have been sent, the retries, the state of the
-- connection, and the two other processes.
abbrev pub InPhase :
    Phase → (connects retries : ℕ) → Status → (subscription publication : Task) → Type 0
InPhase Phase.settling connects retries state subscription publication =
    (connects ≡ 0) × (retries ≡ 0) × (subscription ≡ Task.idle) × (publication ≡ Task.idle)
InPhase Phase.connecting connects retries state subscription publication =
    (connects ≡ retries + 1)
    × (retries < 4)
    × (subscription ≡ Task.idle)
    × (publication ≡ Task.idle)
InPhase Phase.subscribing connects retries state subscription publication =
    (connects ≤ 4) × (state ≡ connected) × (publication ≡ Task.idle)
InPhase Phase.monitoring connects retries state subscription publication =
    (connects ≤ 4) × (state ≡ connected)
InPhase Phase.unconnected connects retries state subscription publication =
    (connects ≡ 4)
    × (state ≡ connection_failed)
    × (subscription ≡ Task.idle)
    × (publication ≡ Task.idle)

abbrev pub IsBounded : App → Type 0
IsBounded a =
    InPhase a.phase a.connection.connection_retries a.connection_retries a.connection_state
      a.subscription a.publication

module _ (clock_second : ℕ) where
  -- A step of another process leaves a bounded application bounded.
  pub Alike-IsBounded :
      (a b : App)
      → Alike clock_second a b
      → b.subscription ≡ a.subscription
      → b.publication ≡ a.publication
      → IsBounded a
      → IsBounded b
  Alike-IsBounded a b k s p i = rw (k.phase, k.connects, k.retries, k.state, s, p) i

  pub subscribed-InPhase :
      (p : Phase) (m r : ℕ) (s : Status) (u t : Task)
      → InPhase p m r s Task.requesting t
      → InPhase p m r s u t
  subscribed-InPhase Phase.settling m r s u t i = absurd (ground (arith, i))
  subscribed-InPhase Phase.connecting m r s u t i = absurd (ground (arith, i))
  subscribed-InPhase Phase.subscribing m r s u t i = i
  subscribed-InPhase Phase.monitoring m r s u t i = i
  subscribed-InPhase Phase.unconnected m r s u t i = absurd (ground (arith, i))

  pub published-InPhase :
      (p : Phase) (m r : ℕ) (s : Status) (u t v : Task)
      → t ≢ Task.idle
      → InPhase p m r s u t
      → InPhase p m r s u v
  published-InPhase Phase.settling m r s u t v n i = absurd (n i.3)
  published-InPhase Phase.connecting m r s u t v n i = absurd (n i.3)
  published-InPhase Phase.subscribing m r s u t v n i = absurd (n i.2)
  published-InPhase Phase.monitoring m r s u t v n i = i
  published-InPhase Phase.unconnected m r s u t v n i = absurd (n i.3)

  -- What the main process leaves alone as it asks for a connection.
  record Asked (a b : App) : Type 0 where
    phase : b.phase ≡ a.phase
    connects : b.connection.connection_retries ≡ u8 (a.connection.connection_retries + 1)
    retries : b.connection_retries ≡ a.connection_retries
    subscription : b.subscription ≡ a.subscription
    publication : b.publication ≡ a.publication

  ask_connection-Asked : (a b : App) → ask_connection clock_second a ≡ some b → Asked a b
  unfolding ask_connection send_connect send_packet
  ask_connection-Asked a b e = ground arith

  decided-connected :
      (a b : App)
      → a.connection_state ≡ connected
      → connection_decided clock_second a ≡ some b
      → (b.phase ≡ Phase.subscribing)
        × (b.connection.connection_retries ≡ a.connection.connection_retries)
        × (b.connection_state ≡ connected)
        × (b.publication ≡ a.publication)
  unfolding connection_decided ask_subscription subscribe_try begin_request send_subscribe
      send_packet
  decided-connected a b s e = ground arith

  decided-failed :
      (a b : App)
      → a.connection_state ≡ connection_failed
      → connection_decided clock_second a ≡ some b
      → (b.phase ≡ Phase.unconnected)
        × (b.connection.connection_retries ≡ a.connection.connection_retries)
        × (b.connection_state ≡ connection_failed)
        × (b.subscription ≡ a.subscription)
        × (b.publication ≡ a.publication)
  unfolding connection_decided
  decided-failed a b s e = ground arith

  module _ (a b : App) (i : IsBounded a) where
    here :
        {p : Phase}
        → a.phase ≡ p
        → InPhase p a.connection.connection_retries a.connection_retries a.connection_state
            a.subscription a.publication
    here at =
        subst
          (λ p.
            InPhase p a.connection.connection_retries a.connection_retries a.connection_state
              a.subscription a.publication)
          at i

    settled-IsBounded :
        a.phase ≡ Phase.settling → main_event clock_second periodic_timer a ≡ some b → IsBounded b
    unfolding main_event
    settled-IsBounded at e =
        let asks : ask_connection clock_second
              (record (call_timer (TimerCall.set_connection (reply_timeout clock_second)) a) {
                phase = Phase.connecting;
              })
            ≡ some b =
          ground (arith, at, e) in
        let k = ask_connection-Asked _ b asks in
        let q = here at in
        rw (k.phase, k.retries, k.subscription, k.publication)
          (k.connects ∙ omega (arith, q.0, q.1), omega (arith, q.1), q.2, q.3)

    connected-IsBounded :
        a.phase ≡ Phase.connecting → main_event clock_second mqttsn_connack a ≡ some b → IsBounded b
    unfolding main_event connack_event
    connected-IsBounded at e =
        let accepted = record (call_timer TimerCall.stop_connection a) {
          connection_state = connected;
          connection_retries = 4;
        } in
        let decides : connection_decided clock_second accepted ≡ some b = ground (arith, at, e) in
        let k = decided-connected accepted b refl decides in
        let q = here at in rw (k.0, k.1, k.2, k.3) (omega (arith, q.0, q.1), refl, q.3)

    timeout-IsBounded :
        a.phase ≡ Phase.connecting
        → main_event clock_second connection_timeout a ≡ some b
        → IsBounded b
    unfolding main_event timeout_event
    timeout-IsBounded at e =
        let q = here at in
        let next : u8 (a.connection_retries + 1) ≡ a.connection_retries + 1 = omega (arith, q.1) in
        let refused = record (call_timer TimerCall.restart_connection a) {
          connection_state = connection_failed;
          connection_retries = u8 (a.connection_retries + 1);
        } in
        elim (Bool-cases (ltb (u8 (a.connection_retries + 1)) 4)) [
          | inl more ↦
              let asks : ask_connection clock_second refused ≡ some b =
                ground (arith, at, e, more) in
              let k = ask_connection-Asked refused b asks in
              let left : a.connection_retries + 1 < 4 = ground (arith, more, next) in
              rw (k.phase, at, k.retries, k.subscription, k.publication)
                (k.connects ∙ omega (arith, q.0, q.1, next), omega (arith, left, next), q.2, q.3)
          | inr last ↦
              let decides : connection_decided clock_second refused ≡ some b =
                ground (arith, at, e, last) in
              let k = decided-failed refused b refl decides in
              let gone : 4 ≤ a.connection_retries + 1 = ground (arith, last, next) in
              rw (k.0, k.1, k.2, k.3, k.4) (omega (arith, q.0, q.1, gone), refl, q.2, q.3)
        ]

    subscribed-IsBounded :
        a.phase ≡ Phase.subscribing
        → main_event clock_second periodic_timer a ≡ some b
        → IsBounded b
    unfolding main_event
    subscribed-IsBounded at e =
        let begun = record a {
          phase = Phase.monitoring;
          send_interval = clock_second;
          registration_tries = 0;
        } in
        let asks : ask_registration clock_second regreq begun ≡ some b = ground (arith, at, e) in
        let k = ask_registration-Alike clock_second regreq begun b asks in
        let q = here at in rw (k.0.phase, k.0.connects, k.0.state) (q.0, q.1)

    -- Where the main process does not wait for the event, nothing happens.
    ignored-IsBounded : some a ≡ some b → IsBounded b
    ignored-IsBounded e = let same : a ≡ b = cc in subst IsBounded same i

  pub main-IsBounded :
      (p : Phase) (e : AppEvent) (a b : App)
      → a.phase ≡ p
      → main_event clock_second e a ≡ some b
      → IsBounded a
      → IsBounded b
  unfolding main_event
  main-IsBounded Phase.settling periodic_timer a b at step i = settled-IsBounded a b i at step
  main-IsBounded Phase.settling mqttsn_connack a b at step i =
      ignored-IsBounded a b i (ground (arith, at, step))
  main-IsBounded Phase.settling connection_timeout a b at step i =
      ignored-IsBounded a b i (ground (arith, at, step))
  main-IsBounded Phase.connecting periodic_timer a b at step i =
      ignored-IsBounded a b i (ground (arith, at, step))
  main-IsBounded Phase.connecting mqttsn_connack a b at step i = connected-IsBounded a b i at step
  main-IsBounded Phase.connecting connection_timeout a b at step i = timeout-IsBounded a b i at step
  main-IsBounded Phase.subscribing periodic_timer a b at step i = subscribed-IsBounded a b i at step
  main-IsBounded Phase.subscribing mqttsn_connack a b at step i =
      ignored-IsBounded a b i (ground (arith, at, step))
  main-IsBounded Phase.subscribing connection_timeout a b at step i =
      ignored-IsBounded a b i (ground (arith, at, step))
  main-IsBounded Phase.monitoring e a b at step i =
      ignored-IsBounded a b i (ground (arith, at, step))
  main-IsBounded Phase.unconnected e a b at step i =
      ignored-IsBounded a b i (ground (arith, at, step))
