-- ===== src/Mote/Application/Laws.antt =====
-- How often the application of ictp/mqtt-sn/example.c asks for a connection, and what it does without
-- one.
use mathlib.Core.Path.{subst}
use ts_it.Base.{ℕ, refl, arith}
use ts_it.Mote.Events.{create_socket, receive_timer_callback, send_timer_callback}
use ts_it.Mote.Application.{App}
use ts_it.Mote.Application.Callbacks.{connection_timer_callback, AppStep, AppReachable}
use ts_it.Mote.Application.Alike.{
  subscription_answered-Alike, registration_answered-Alike, publish_reading-Alike,
  client_event-Alike, deliver_datagram-Alike,
}
use ts_it.Mote.Application.Bounded.{
  InPhase, IsBounded, Alike-IsBounded, subscribed-InPhase, published-InPhase, main-IsBounded,
}

module _ (clock_second : ℕ) where
  AppStep-IsBounded : {a b : App} → AppStep clock_second a b → IsBounded a → IsBounded b
  unfolding connection_timer_callback receive_timer_callback send_timer_callback
  AppStep-IsBounded (AppStep.main e a b step) i =
      main-IsBounded clock_second a.phase e a b refl step i
  AppStep-IsBounded (AppStep.arrival old bytes datalen a b step) i =
      let k = deliver_datagram-Alike clock_second old bytes datalen a b step in
      Alike-IsBounded clock_second a b k.0 k.1 k.2 i
  AppStep-IsBounded (AppStep.client e a b step) i =
      let k = client_event-Alike clock_second e a b step in
      Alike-IsBounded clock_second a b k.0 k.1 k.2 i
  AppStep-IsBounded (AppStep.subscription_reply req a b waits step) i =
      let k = subscription_answered-Alike clock_second req a b step in
      let q =
        subst
          (λ u.
            InPhase a.phase a.connection.connection_retries a.connection_retries a.connection_state
              u a.publication)
          waits i in
      rw (k.0.phase, k.0.connects, k.0.retries, k.0.state, k.1)
        (subscribed-InPhase clock_second a.phase _ _ _ b.subscription _ q)
  AppStep-IsBounded (AppStep.registration_reply req a b waits step) i =
      let k = registration_answered-Alike clock_second req a b step in
      rw (k.0.phase, k.0.connects, k.0.retries, k.0.state, k.1)
        (published-InPhase clock_second a.phase _ _ _ _ a.publication b.publication
          (λ e. ground (arith, e, waits)) i)
  AppStep-IsBounded (AppStep.reading value clock a b waits step) i =
      let k = publish_reading-Alike clock_second value clock a b step in
      rw (k.0.phase, k.0.connects, k.0.retries, k.0.state, k.1)
        (published-InPhase clock_second a.phase _ _ _ _ a.publication b.publication
          (λ e. ground (arith, e, waits)) i)
  AppStep-IsBounded (AppStep.receive_timer a) i = i
  AppStep-IsBounded (AppStep.send_timer a) i = i
  AppStep-IsBounded (AppStep.connection_timer a) i = i

  -- Whatever arrives and whichever timers expire, in any order, the application's connection counts at
  -- most four CONNECTs; the application gives up only after four, without having started its other
  -- processes; and it subscribes only once it takes the connection for accepted, and registers its
  -- topic only behind that.
  pub AppReachable-IsBounded : {a : App} → AppReachable clock_second a → IsBounded a
  unfolding create_socket
  AppReachable-IsBounded (AppReachable.start keeps_next) = (refl, refl, refl, refl)
  AppReachable-IsBounded (AppReachable.step a b r s) =
      AppStep-IsBounded s (AppReachable-IsBounded r)
