-- ===== src/Mote/Application.antt =====
-- The application of the motes, ictp/mqtt-sn/example.c: its three processes, and the callbacks that
-- the client of mqtt-sn.c calls. What is printed is left out. A second of Contiki's clock has
-- `clock_second` ticks.
pub mod Callbacks
pub mod Alike
pub mod Bounded
pub mod Laws
mod Tests
use ts_it.Base.{
  ℕ, ◌+◌, ◌*◌, ◌==◌, ltb, leb, if◌then◌else◌, ◌&&◌, ◌||◌, Bool, true, false, Option, none, some,
  List, [], ◌∷◌, ◌++◌, length, take, drop, replicate, byte_at, ntohs_at, u8, u16, codes,
  decimal_digits,
}
use ts_it.Protocol.MessageType
use ts_it.Protocol.Flag
use ts_it.Mote.State.{
  Status, disconnected, waiting_connack, connection_failed, connected, is_connected, Request,
  no_request, register_request, subscribe_request, Event, Connection,
}
use ts_it.Mote.Send.{send_connect, send_publish}
use ts_it.Mote.Requests.{request_success, register_try, subscribe_try, into_struct}
use ts_it.Mote.Events.{create_socket, receiver, process_event}

-- Where example_mqttsn_process waits: for the system to settle, for the CONNACK, for the time behind
-- the subscription, or for good; or it has ended without a connection.
pub data Phase : Type 0 where
  settling connecting subscribing monitoring unconnected : Phase

-- Where the two other processes wait: for the answer to their request, or for the send timer.
pub data Task : Type 0 where
  idle requesting publishing over : Task

-- The events of example_mqttsn_process.
pub data AppEvent : Type 0 where
  periodic_timer mqttsn_connack connection_timeout : AppEvent

-- The calls of the timers.
pub data TimerCall : Type 0 where
  set_periodic set_connection set_send : ℕ → TimerCall
  restart_connection stop_connection : TimerCall

-- The static variables, and the processes; `timers` and `posted` are traces, the newest first.
pub record App : Type 0 where
  pub connection : Connection
  pub connection_state : Status
  pub connection_retries : ℕ
  pub phase : Phase
  pub subscription : Task
  pub subscription_tries : ℕ
  pub publication : Task
  pub registration_tries : ℕ
  pub message_number : ℕ
  pub ctrl_topic_id : ℕ
  pub publisher_topic_id : ℕ
  pub ctrl_topic_msg_id : ℕ
  pub reg_topic_msg_id : ℕ
  pub send_interval : ℕ
  pub incoming_packet : List ℕ
  pub timers : List TimerCall
  pub posted : List AppEvent

abbrev pub mqtt_client_id : List ℕ
mqtt_client_id = codes "zolertia-z1-node"

abbrev pub mqtt_keep_alive : ℕ
mqtt_keep_alive = 21

abbrev pub ctrl_topic : List ℕ
ctrl_topic = codes "0000000000000000/ctrl"

abbrev pub pub_topic : List ℕ
pub_topic = codes "0000000000000000/msg"

-- The members of `mqtt_sn_call` that are not NULL.
abbrev pub is_called : ℕ → Bool
is_called type =
    (type == MessageType.publish)
    || ((type == MessageType.connack)
        || ((type == MessageType.regack)
            || ((type == MessageType.puback) || (type == MessageType.suback))))

abbrev unused_request : ℕ → Request
unused_request address = record {
  address = address;
  state = no_request;
  request_type = register_request;
  msg_id = 0;
  topic_id = 0;
  return_code = 0;
}

-- `regreq` and `subreq`.
abbrev pub regreq : Request
regreq = unused_request 0

abbrev pub subreq : Request
subreq = unused_request 1

abbrev pub call_timer : TimerCall → App → App
call_timer t a = record a { timers = t ∷ a.timers }

-- `sprintf(buf, "%u, %u, %u, %lu", ...)` with the node id 0xAB.
abbrev pub message_text : ℕ → ℕ → ℕ → List ℕ
message_text value seq_num clock =
    decimal_digits 10 0xAB []
    ++ (codes ", "
        ++ (decimal_digits 10 value []
            ++ (codes ", "
                ++ (decimal_digits 10 seq_num [] ++ (codes ", " ++ decimal_digits 10 clock [])))))

-- The send timer has expired: a reading of the sensor, and the clock. `buf` has 20 bytes.
pub publish_reading : ℕ → ℕ → App → Option App
publish_reading value clock a =
    let text = message_text (u8 value) a.message_number clock in
    if leb 20 (length text)
    then none
    else elim (send_publish a.publisher_topic_id Flag.topic_normal text 0 0 a.connection) [
      | none ↦ none
      | some (id, c) ↦ some (
          let number = u16 (a.message_number + 1) in
          call_timer (TimerCall.set_send a.send_interval) (record a {
            connection = c;
            message_number = number;
            publication = if ltb number 1800 then Task.publishing else Task.over;
          }))
    ]

module _ (clock_second : ℕ) where
  -- `REPLY_TIMEOUT`
  abbrev pub reply_timeout : ℕ
  reply_timeout = 10 * clock_second

  -- The process up to its first wait.
  abbrev pub boot : Bool → App
  boot keeps_next = record {
    connection = create_socket is_called keeps_next;
    connection_state = disconnected;
    connection_retries = 0;
    phase = Phase.settling;
    subscription = Task.idle;
    subscription_tries = 0;
    publication = Task.idle;
    registration_tries = 0;
    message_number = 0;
    ctrl_topic_id = 0;
    publisher_topic_id = 0;
    ctrl_topic_msg_id = 0;
    reg_topic_msg_id = 0;
    send_interval = 0;
    incoming_packet = replicate 255 0;
    timers = TimerCall.set_periodic (17 * clock_second) ∷ [];
    posted = [];
  }

  -- ctrl_subscription_process: a request, and what its answer leads to.
  pub ask_subscription : Request → App → Option App
  ask_subscription req a = elim (subscribe_try req ctrl_topic 0 reply_timeout a.connection) [
    | none ↦ none
    | some (id, c) ↦
        some (record a { connection = c; ctrl_topic_msg_id = id; subscription = Task.requesting })
  ]

  pub subscription_answered : Request → App → Option App
  subscription_answered req a =
      let tries = if request_success req then 4 else u8 (a.subscription_tries + 1) in
      let b = record a { subscription_tries = tries } in
      if ltb tries 4 then ask_subscription req b else some (record b { subscription = Task.over })

  -- publish_process: the registration of the topic, and what its answer leads to.
  pub ask_registration : Request → App → Option App
  ask_registration req a = elim (register_try req pub_topic reply_timeout a.connection) [
    | none ↦ none
    | some (id, c) ↦
        some (record a { connection = c; reg_topic_msg_id = id; publication = Task.requesting })
  ]

  pub registration_answered : Request → App → Option App
  registration_answered req a =
      let tries = if request_success req then 4 else u8 (a.registration_tries + 1) in
      let b = record a { registration_tries = tries } in
      if ltb tries 4
      then ask_registration req b
      else if request_success req
      then some (
          call_timer (TimerCall.set_send a.send_interval)
            (record b { publication = Task.publishing }))
      else some (record b { publication = Task.over })

  -- A CONNECT, and its state.
  pub ask_connection : App → Option App
  ask_connection a = elim (send_connect clock_second mqtt_client_id mqtt_keep_alive a.connection) [
    | none ↦ none
    | some c ↦ some (record a { connection = c; connection_state = waiting_connack })
  ]

  -- Behind the loop that waits for the CONNACK.
  pub connection_decided : App → Option App
  connection_decided a =
      let b = call_timer TimerCall.stop_connection a in
      if is_connected a.connection_state
      then elim (ask_subscription subreq (record b { subscription_tries = 0 })) [
        | none ↦ none
        | some d ↦ some (
            call_timer (TimerCall.set_periodic (5 * clock_second))
              (record d { phase = Phase.subscribing }))
      ]
      else some (record b { phase = Phase.unconnected })

  -- A CONNACK has come, or the time for it is over.
  pub connack_event : App → Option App
  connack_event a = connection_decided (record (call_timer TimerCall.stop_connection a) {
    connection_state = connected;
    connection_retries = 4;
  })

  pub timeout_event : App → Option App
  timeout_event a =
      let retries = u8 (a.connection_retries + 1) in
      let b = record (call_timer TimerCall.restart_connection a) {
        connection_state = connection_failed;
        connection_retries = retries;
      } in
      if ltb retries 4 then ask_connection b else connection_decided b

  -- An event of example_mqttsn_process.
  pub main_event : AppEvent → App → Option App
  main_event e a = elim a.phase as (λ _. Option App) [
    | settling ↦ elim e as (λ _. Option App) [
      | periodic_timer ↦
          ask_connection (record (call_timer (TimerCall.set_connection reply_timeout) a) {
            phase = Phase.connecting;
          })
      | _ ↦ some a
    ]
    | connecting ↦ elim e as (λ _. Option App) [
      | mqttsn_connack ↦ connack_event a
      | connection_timeout ↦ timeout_event a
      | periodic_timer ↦ some a
    ]
    | subscribing ↦ elim e as (λ _. Option App) [
      | periodic_timer ↦ ask_registration regreq (record a {
        phase = Phase.monitoring;
        send_interval = clock_second;
        registration_tries = 0;
      })
      | _ ↦ some a
    ]
    | monitoring ↦ some a
    | unconnected ↦ some a
  ]
