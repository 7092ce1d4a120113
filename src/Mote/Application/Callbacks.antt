-- ===== src/Mote/Application/Callbacks.antt =====
-- The callbacks of ictp/mqtt-sn/example.c, and all that can happen to the application.
use ts_it.Base.{
  Bool, ℕ, ◌*◌, ◌==◌, ltb, if◌then◌else◌, ◌≡◌, Option, none, some, List, ◌∷◌, ◌++◌, take, drop,
  byte_at, ntohs_at,
}
use ts_it.Protocol.MessageType
use ts_it.Mote.State.{Request, Event}
use ts_it.Mote.Requests.{into_struct}
use ts_it.Mote.Events.{receiver, process_event, receive_timer_callback, send_timer_callback}
use ts_it.Mote.Application.{
  App, AppEvent, mqttsn_connack, connection_timeout, boot, Task, main_event, subscription_answered,
  registration_answered, publish_reading,
}

-- connack_receiver, which takes the byte behind a CONNACK for its return code.
unfoldable pub on_connack : List ℕ → App → App
on_connack data' a =
    if byte_at data' 3 == 0 then record a { posted = mqttsn_connack ∷ a.posted } else a

-- regack_receiver and suback_receiver copy the datagram into a struct on the stack, which held `old`.
unfoldable pub on_regack : List ℕ → List ℕ → ℕ → App → Option App
on_regack old data' datalen a = elim (into_struct old data' datalen) [
  | none ↦ none
  | some p ↦ some (
      if ntohs_at p 4 == a.reg_topic_msg_id
      then (if byte_at p 6 == 0 then record a { publisher_topic_id = ntohs_at p 2 } else a)
      else a)
]

unfoldable pub on_suback : List ℕ → List ℕ → ℕ → App → Option App
on_suback old data' datalen a = elim (into_struct old data' datalen) [
  | none ↦ none
  | some p ↦ some (
      if ntohs_at p 5 == a.ctrl_topic_msg_id
      then (if byte_at p 7 == 0 then record a { ctrl_topic_id = ntohs_at p 3 } else a)
      else a)
]

-- publish_receiver copies the datagram into a static struct of 255 bytes.
unfoldable pub on_publish : ℕ → List ℕ → ℕ → App → Option App
on_publish clock_second data' datalen a =
    if ltb 255 datalen
    then none
    else let p = take datalen data' ++ drop datalen a.incoming_packet in
      let b = record a { incoming_packet = p } in
      some (
        if ntohs_at p 3 == a.ctrl_topic_id
        then record b { send_interval = byte_at p 7 * clock_second }
        else b)

-- The callback for a message.
unfoldable pub on_message : ℕ → List ℕ → List ℕ → ℕ → App → Option App
on_message clock_second old data' datalen a =
    let type = byte_at data' 1 in
    if type == MessageType.connack
    then some (on_connack data' a)
    else if type == MessageType.regack
    then on_regack old data' datalen a
    else if type == MessageType.suback
    then on_suback old data' datalen a
    else if type == MessageType.publish
    then on_publish clock_second data' datalen a
    else some a

-- A datagram for the mote: the client takes it, and calls back where it has a type.
unfoldable pub deliver_datagram : ℕ → List ℕ → List ℕ → ℕ → App → Option App
deliver_datagram clock_second old data' datalen a = elim (receiver old data' datalen a.connection) [
  | none ↦ none
  | some c ↦
      let b = record a { connection = c } in
      if ltb datalen 2 then some b else on_message clock_second old data' datalen b
]

-- An event of the client's own process.
unfoldable pub client_event : Event → App → Option App
client_event e a = elim (process_event e a.connection) [
  | none ↦ none
  | some c ↦ some (record a { connection = c })
]

-- connection_timer_callback
unfoldable pub connection_timer_callback : App → App
connection_timer_callback a = record a { posted = connection_timeout ∷ a.posted }

-- What can happen, in any order; a process is resumed only where it waits for what has happened.
pub data AppStep (clock_second : ℕ) : App → App → Type 0 where
  main :
      (e : AppEvent) (a b : App) → main_event clock_second e a ≡ some b → AppStep clock_second a b
  arrival :
      (old bytes : List ℕ) (datalen : ℕ) (a b : App)
      → deliver_datagram clock_second old bytes datalen a ≡ some b
      → AppStep clock_second a b
  client : (e : Event) (a b : App) → client_event e a ≡ some b → AppStep clock_second a b
  subscription_reply :
      (req : Request) (a b : App)
      → a.subscription ≡ Task.requesting
      → subscription_answered clock_second req a ≡ some b
      → AppStep clock_second a b
  registration_reply :
      (req : Request) (a b : App)
      → a.publication ≡ Task.requesting
      → registration_answered clock_second req a ≡ some b
      → AppStep clock_second a b
  reading :
      (value clock : ℕ) (a b : App)
      → a.publication ≡ Task.publishing
      → publish_reading value clock a ≡ some b
      → AppStep clock_second a b
  receive_timer :
      (a : App)
      → AppStep clock_second a (record a { connection = receive_timer_callback a.connection })
  send_timer :
      (a : App)
      → AppStep clock_second a (record a { connection = send_timer_callback a.connection })
  connection_timer : (a : App) → AppStep clock_second a (connection_timer_callback a)

pub data AppReachable (clock_second : ℕ) : App → Type 0 where
  start : (keeps_next : Bool) → AppReachable clock_second (boot clock_second keeps_next)
  step :
      (a b : App)
      → AppReachable clock_second a
      → AppStep clock_second a b
      → AppReachable clock_second b
