-- ===== src/Mote/Application/Alike.antt =====
-- What the processes of ictp/mqtt-sn/example.c, and the client's, leave alone.
use ts_it.Base.{
  Option-cases, Bool-cases, ltb, ◌∙◌, ℕ, ◌+◌, ◌≡◌, refl, inl, inr, some, List, arith, u8,
}
use ts_it.Mote.State.{
  Request, Event, disconnect_event, receive_timeout_event, send_timeout_event, Connection,
}
use ts_it.Mote.Send.{
  send_packet, send_connect, send_register, send_publish, send_subscribe, send_pingreq,
  send_pingresp,
}
use ts_it.Mote.Requests.{begin_request, register_try, subscribe_try, manage_response}
use ts_it.Mote.Events.{receiver, dispatch, process_event}
use ts_it.Mote.Application.{
  App, ask_subscription, subscription_answered, ask_registration, registration_answered,
  publish_reading, mqtt_client_id, mqtt_keep_alive,
}
use ts_it.Mote.Application.Callbacks.{
  on_connack, on_regack, on_suback, on_publish, on_message, deliver_datagram, client_event,
}

module _ (clock_second : ℕ) where
  -- The CONNECTs are counted by the connection, and by nothing but a CONNECT.
  send_connect-retries :
      (c d : Connection)
      → send_connect clock_second mqtt_client_id mqtt_keep_alive c ≡ some d
      → d.connection_retries ≡ u8 (c.connection_retries + 1)
  unfolding send_connect send_packet
  send_connect-retries c d e = ground arith

  begin_request-retries :
      (req : Request) (topic_name : List ℕ) (qos time_out id : ℕ) (c d : Connection)
      → begin_request req topic_name qos time_out c ≡ some (id, d)
      → d.connection_retries ≡ c.connection_retries
  unfolding begin_request send_register send_subscribe send_packet
  begin_request-retries req topic_name qos time_out id c d e = ground arith

  receiver-retries :
      (old bytes : List ℕ) (datalen : ℕ) (c d : Connection)
      → receiver old bytes datalen c ≡ some d
      → d.connection_retries ≡ c.connection_retries
  unfolding receiver dispatch manage_response send_pingresp send_packet
  receiver-retries old bytes datalen c d e = ground arith

  send_publish-retries :
      (topic_id topic_type : ℕ) (payload : List ℕ) (qos retain id : ℕ) (c d : Connection)
      → send_publish topic_id topic_type payload qos retain c ≡ some (id, d)
      → d.connection_retries ≡ c.connection_retries
  unfolding send_publish send_packet
  send_publish-retries topic_id topic_type payload qos retain id c d e = ground arith

  process_event-retries :
      (e : Event) (c d : Connection)
      → process_event e c ≡ some d
      → d.connection_retries ≡ c.connection_retries
  unfolding process_event send_pingreq send_packet
  process_event-retries Event.connack_event c d e = ground arith
  process_event-retries disconnect_event c d e = ground arith
  process_event-retries receive_timeout_event c d e = ground arith
  process_event-retries send_timeout_event c d e = ground arith

  -- What all but the main process leaves alone.
  pub record Alike (a b : App) : Type 0 where
    pub phase : b.phase ≡ a.phase
    pub connects : b.connection.connection_retries ≡ a.connection.connection_retries
    pub retries : b.connection_retries ≡ a.connection_retries
    pub state : b.connection_state ≡ a.connection_state

  ask_subscription-Alike :
      (req : Request) (a b : App)
      → ask_subscription clock_second req a ≡ some b
      → Alike a b × (b.publication ≡ a.publication)
  unfolding ask_subscription subscribe_try begin_request send_subscribe send_packet
  ask_subscription-Alike req a b e = ground arith

  pub subscription_answered-Alike :
      (req : Request) (a b : App)
      → subscription_answered clock_second req a ≡ some b
      → Alike a b × (b.publication ≡ a.publication)
  unfolding subscription_answered ask_subscription subscribe_try begin_request send_subscribe
      send_packet
  subscription_answered-Alike req a b e = ground arith

  pub ask_registration-Alike :
      (req : Request) (a b : App)
      → ask_registration clock_second req a ≡ some b
      → Alike a b × (b.subscription ≡ a.subscription)
  unfolding ask_registration register_try begin_request send_register send_packet
  ask_registration-Alike req a b e = ground arith

  pub registration_answered-Alike :
      (req : Request) (a b : App)
      → registration_answered clock_second req a ≡ some b
      → Alike a b × (b.subscription ≡ a.subscription)
  unfolding registration_answered ask_registration register_try begin_request send_register
      send_packet
  registration_answered-Alike req a b e = ground arith

  pub publish_reading-Alike :
      (value clock : ℕ) (a b : App)
      → publish_reading value clock a ≡ some b
      → Alike a b × (b.subscription ≡ a.subscription)
  unfolding publish_reading send_publish send_packet
  publish_reading-Alike value clock a b e = ground arith

  on_message-Alike :
      (old bytes : List ℕ) (datalen : ℕ) (a b : App)
      → on_message clock_second old bytes datalen a ≡ some b
      → Alike a b × (b.subscription ≡ a.subscription) × (b.publication ≡ a.publication)
  unfolding on_message on_connack on_regack on_suback on_publish
  on_message-Alike old bytes datalen a b e = ground arith

  pub client_event-Alike :
      (v : Event) (a b : App)
      → client_event v a ≡ some b
      → Alike a b × (b.subscription ≡ a.subscription) × (b.publication ≡ a.publication)
  unfolding client_event process_event send_pingreq send_packet
  client_event-Alike Event.connack_event a b e = ground arith
  client_event-Alike disconnect_event a b e = ground arith
  client_event-Alike receive_timeout_event a b e = ground arith
  client_event-Alike send_timeout_event a b e = ground arith

  pub deliver_datagram-Alike :
      (old bytes : List ℕ) (datalen : ℕ) (a b : App)
      → deliver_datagram clock_second old bytes datalen a ≡ some b
      → Alike a b × (b.subscription ≡ a.subscription) × (b.publication ≡ a.publication)
  unfolding deliver_datagram
  deliver_datagram-Alike old bytes datalen a b e =
      elim (Option-cases (receiver old bytes datalen a.connection)) [
        | inl n ↦ absurd (ground (arith, e, n))
        | inr (c, r) ↦
            let same = receiver-retries old bytes datalen a.connection c r in
            let mid = record a { connection = c } in
            elim (Bool-cases (ltb datalen 2)) [
              | inl short ↦
                  let is : mid ≡ b = ground (arith, e, r, short) in
                  rw (← is) (
                    record { phase = refl; connects = same; retries = refl; state = refl },
                    refl,
                    refl,
                  )
              | inr long ↦
                  let rest : on_message clock_second old bytes datalen mid ≡ some b =
                    ground (arith, e, r, long) in
                  let k = on_message-Alike old bytes datalen mid b rest in
                  (
                    record {
                      phase = k.0.phase;
                      connects = k.0.connects ∙ same;
                      retries = k.0.retries;
                      state = k.0.state;
                    },
                    k.1,
                    k.2,
                  )
            ]
      ]
