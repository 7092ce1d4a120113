-- ===== src/Mote/Old/Tests.antt =====
-- The theorem about the timeout of ictp/mqtt-sn/old/mqtt-sn.c at a connection with keep alive.
use ts_it.Base.{true, ◌≡◌, some, [], ◌∷◌}
use ts_it.Protocol.MessageType
use ts_it.Mote.State.{
  Connection, connected, disconnected, disconnect_event, receive_timeout_event, keepalive_callback,
  post, udp_send, restart_send_timer, stop_send_timer, stop_receive_timer,
}
use ts_it.Mote.Events.{process_event}
use ts_it.Mote.Old.{process_old_event}
use ts_it.Mote.Old.Laws.{silent-gateway}
use ts_it.Mote.Tests.{waiting}

abbrev listening : Connection
listening = record waiting { keep_alive = 60; stat = connected }

abbrev lost : Connection
lost = record listening {
  connection_retries = 0;
  calls =
      keepalive_callback
      ∷ post disconnect_event
      ∷ restart_send_timer
      ∷ udp_send (2 ∷ MessageType.disconnect ∷ [])
      ∷ [];
}

silent-gateway_example :
    (process_old_event true receive_timeout_event listening ≡ some lost)
    × (process_old_event true disconnect_event lost
        ≡ some (record lost {
          stat = disconnected;
          calls = stop_send_timer ∷ stop_receive_timer ∷ lost.calls;
        }))
    × (process_event receive_timeout_event listening ≡ some listening)
silent-gateway_example = silent-gateway true listening
