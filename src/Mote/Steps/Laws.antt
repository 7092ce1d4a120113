-- ===== src/Mote/Steps/Laws.antt =====
-- The status of the connection of ictp/mqtt-sn/mqtt-sn.c, whatever happens.
use ts_it.Base.{ℕ, ◌≡◌, ◌⊎◌, inl, inr, some, List, arith}
use ts_it.Mote.State.{
  Status, disconnected, waiting_connack, connected, Request, register_request, subscribe_request,
  Event, connack_event, disconnect_event, receive_timeout_event, send_timeout_event, Connection,
}
use ts_it.Mote.Send.{
  send_packet, send_connect, send_register, send_regack, send_publish, send_subscribe, send_pingreq,
  send_pingresp, send_disconnect,
}
use ts_it.Mote.Requests.{begin_request, register_try, subscribe_try, manage_response}
use ts_it.Mote.Events.{
  receiver, dispatch, process_event, receive_timer_callback, send_timer_callback,
}
use ts_it.Mote.Steps.{
  Step, datagram, event, connect, register, regack, publish, subscribe, pingreq, disconnect,
  try_register, try_subscribe, receive_timer, send_timer,
}

-- The moves of the protocol: a CONNECT is sent, a CONNACK accepts the connection that is waited for,
-- the connection ends, and all else leaves it as it is.
pub data Move (return_code : ℕ) : Status → Status → Type 0 where
  stay : (s : Status) → Move return_code s s
  ask : (s : Status) → Move return_code s waiting_connack
  accept : return_code ≡ 0 → Move return_code waiting_connack connected
  end : (s : Status) → Move return_code s disconnected

send_packet-stat :
    (packet : List ℕ) (n : ℕ) (c d : Connection) → send_packet packet n c ≡ some d → d.stat ≡ c.stat
unfolding send_packet
send_packet-stat packet n c d e = ground arith

send_register-stat :
    (topic_name : List ℕ) (id : ℕ) (c d : Connection)
    → send_register topic_name c ≡ some (id, d)
    → d.stat ≡ c.stat
unfolding send_register send_packet
send_register-stat topic_name id c d e = ground arith

send_subscribe-stat :
    (topic_name : List ℕ) (qos id : ℕ) (c d : Connection)
    → send_subscribe topic_name qos c ≡ some (id, d)
    → d.stat ≡ c.stat
unfolding send_subscribe send_packet
send_subscribe-stat topic_name qos id c d e = ground arith

begin_request-stat :
    (req : Request) (topic_name : List ℕ) (qos time_out id : ℕ) (c d : Connection)
    → begin_request req topic_name qos time_out c ≡ some (id, d)
    → d.stat ≡ c.stat
unfolding begin_request send_register send_subscribe send_packet
begin_request-stat req topic_name qos time_out id c d e = ground arith

receiver-stat :
    (old bytes : List ℕ) (datalen : ℕ) (c d : Connection)
    → receiver old bytes datalen c ≡ some d
    → d.stat ≡ c.stat
unfolding receiver dispatch manage_response send_pingresp send_packet
receiver-stat old bytes datalen c d e = ground arith

stays : {r : ℕ} (s t : Status) → t ≡ s → Move r s t
stays {r} s t e = rw (e) (stay s)

send_publish-stat :
    (topic_id topic_type : ℕ) (payload : List ℕ) (qos retain id : ℕ) (c d : Connection)
    → send_publish topic_id topic_type payload qos retain c ≡ some (id, d)
    → d.stat ≡ c.stat
unfolding send_publish send_packet
send_publish-stat topic_id topic_type payload qos retain id c d e = ground arith

send_regack-stat :
    (topic_id message_id id : ℕ) (c d : Connection)
    → send_regack topic_id message_id c ≡ some (id, d)
    → d.stat ≡ c.stat
unfolding send_regack send_packet
send_regack-stat topic_id message_id id c d e = ground arith

send_pingreq-stat : (c d : Connection) → send_pingreq c ≡ some d → d.stat ≡ c.stat
unfolding send_pingreq send_packet
send_pingreq-stat c d e = ground arith

send_disconnect-stat : (c d : Connection) → send_disconnect c ≡ some d → d.stat ≡ c.stat
unfolding send_disconnect send_packet
send_disconnect-stat c d e = ground arith

connect-stat :
    (clock_second : ℕ) (client_id : List ℕ) (keepalive : ℕ) (c d : Connection)
    → send_connect clock_second client_id keepalive c ≡ some d
    → (d.stat ≡ c.stat) ⊎ (d.stat ≡ waiting_connack)
unfolding send_connect send_packet
connect-stat clock_second client_id keepalive c d e = ground arith

connect-Move : (r : ℕ) (s t : Status) → (t ≡ s) ⊎ (t ≡ waiting_connack) → Move r s t
connect-Move r s t (inl e) = rw (e) (stay s)
connect-Move r s t (inr e) = rw (e) (ask s)

connack-stat :
    (c d : Connection)
    → process_event connack_event c ≡ some d
    → (d.stat ≡ c.stat) ⊎ ((c.stat ≡ waiting_connack) × (c.return_code ≡ 0) × (d.stat ≡ connected))
unfolding process_event
connack-stat c d e = ground arith

connack-Move :
    (r : ℕ) (s t : Status)
    → (t ≡ s) ⊎ ((s ≡ waiting_connack) × (r ≡ 0) × (t ≡ connected))
    → Move r s t
connack-Move r s t (inl e) = rw (e) (stay s)
connack-Move r s t (inr (e, z, k)) = rw (e, k) (accept z)

disconnect-stat :
    (c d : Connection) → process_event disconnect_event c ≡ some d → d.stat ≡ disconnected
unfolding process_event
disconnect-stat c d e = ground arith

timeout-stat : (c d : Connection) → process_event receive_timeout_event c ≡ some d → d.stat ≡ c.stat
unfolding process_event
timeout-stat c d e = ground arith

ping-stat : (c d : Connection) → process_event send_timeout_event c ≡ some d → d.stat ≡ c.stat
unfolding process_event
ping-stat c d e = send_pingreq-stat c d e

event-Move :
    (v : Event) (c d : Connection) → process_event v c ≡ some d → Move c.return_code c.stat d.stat
event-Move connack_event c d e = connack-Move c.return_code c.stat d.stat (connack-stat c d e)
event-Move disconnect_event c d e = rw (disconnect-stat c d e) (end c.stat)
event-Move receive_timeout_event c d e = stays c.stat d.stat (timeout-stat c d e)
event-Move send_timeout_event c d e = stays c.stat d.stat (ping-stat c d e)

-- Whatever happens to the client, its status moves as the protocol has it: to connected only from
-- waiting for the CONNACK, and only where the last CONNACK's return code is 0.
pub Step-Move :
    (clock_second : ℕ) {c d : Connection} → Step clock_second c d → Move c.return_code c.stat d.stat
unfolding receive_timer_callback send_timer_callback register_try subscribe_try
Step-Move k (datagram old bytes n c d e) = stays c.stat d.stat (receiver-stat old bytes n c d e)
Step-Move k (event v c d e) = event-Move v c d e
Step-Move k (connect client_id keepalive c d e) =
    connect-Move c.return_code c.stat d.stat (connect-stat k client_id keepalive c d e)
Step-Move k (register topic_name id c d e) =
    stays c.stat d.stat (send_register-stat topic_name id c d e)
Step-Move k (regack topic_id message_id id c d e) =
    stays c.stat d.stat (send_regack-stat topic_id message_id id c d e)
Step-Move k (publish topic_id topic_type payload qos retain id c d e) =
    stays c.stat d.stat (send_publish-stat topic_id topic_type payload qos retain id c d e)
Step-Move k (subscribe topic_name qos id c d e) =
    stays c.stat d.stat (send_subscribe-stat topic_name qos id c d e)
Step-Move k (pingreq c d e) = stays c.stat d.stat (send_pingreq-stat c d e)
Step-Move k (disconnect c d e) = stays c.stat d.stat (send_disconnect-stat c d e)
Step-Move k (try_register req topic_name time_out id c d e) = stays c.stat d.stat (
    begin_request-stat (record req { request_type = register_request }) topic_name 0 time_out id c d
      e)
Step-Move k (try_subscribe req topic_name qos time_out id c d e) = stays c.stat d.stat (
    begin_request-stat (record req { request_type = subscribe_request }) topic_name qos time_out id
      c d e)
Step-Move k (receive_timer c) = stay c.stat
Step-Move k (send_timer c) = stay c.stat
