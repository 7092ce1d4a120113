-- ===== src/Lib.antt =====
-- TS-IT: an MQTT-SN client for Linux, mqtt-sn-tools, as the repository changed it (forwarding to a
-- delay-tolerant network), and the programs of its motes.
--
-- mqtt-sn-tools/mqtt-sn.c, mqtt-sn-tools/mqtt-sn.h
--   The client keeps its state in static variables and takes time, datagrams and readiness from the
--   system. `Tools.State` has the variables as the record `Client`, which every function takes and
--   returns, and the system as `Env`: a function from a moment (the number of questions asked
--   before) to its answer, so that a theorem holds for every order of datagrams, timeouts and
--   errors. A call ends as a `Run`: it returns, calls `exit`, or does what C leaves undefined
--   (`fault`): a write outside an array, a memcpy or a string function that reads outside one, a read
--   of mqtt_sn_validate_packet behind its buffer, a NULL pointer. The other reads are those of fields
--   of a packet, with `byte_at`, which reads 0 behind the array. `sent`, `printed` and `commands`
--   record what went to send(), to stdout and to system(). What the sprintf of mqtt_sn_fwd_dtn_packet
--   leaves of the array that it prints into itself is a parameter, `sprintf_onto` of `Env`. The functions have their names without the prefix mqtt_sn_:
--   - Tools.Topics       the topic map: register_topic, lookup_topic, cleanup
--   - Tools.Frame        send_packet, send_frwdencap_packet, create_frwdencap_packet, their settings
--   - Tools.Receive      validate_packet, receive_packet, receive_frwdencap_packet in its steps;
--                        Tools.Receive.Valid has what the first reads
--   - Tools.Send         send_connect, send_register, send_regack, send_publish, send_subscribe_*,
--                        send_pingreq, send_disconnect
--   - Tools.Publish      print_publish_packet, fwd_dtn_packet, process_register
--   - Tools.Wait         wait_for: `round` is one run of its loop, with handle_packet for the switch
--   - Tools.Acks         receive_connack, receive_regack, receive_suback, receive_disconnect
--   - Tools.Settings     the other setters
--   - Tools.Socket       create_socket, with `Network` for what the system gives for a host
--   `Tools.Wire` is the specification the senders are held against: the messages of the protocol
--   and their bytes, with the CONNACK and the SUBACK that answer them. The modules below each of these hold its theorems, Tools.Tests runs them at
--   concrete inputs.
--
-- mqtt-sn-tools/mqtt-sn-pub.c, mqtt-sn-sub.c, mqtt-sn-serial-bridge.c, mqtt-sn-dump.c
--   The programs above the client: `Programs` has each as its options, as getopt_long gives them, and
--   a `main` that makes the calls of the source in their order on the same `Client`.
--   - Programs.Options   the loop over the options, atoi, usage
--   - Programs.Pub       mqtt-sn-pub: connect, register the topic, publish, disconnect
--   - Programs.Sub       mqtt-sn-sub: connect, subscribe, wait for publications, disconnect
--   - Programs.Bridge    mqtt-sn-serial-bridge: `Serial` has the static buffer of
--                        serial_read_packet and what was written, `Port` what the serial port gives
--   - Programs.Dump      mqtt-sn-dump, with mqtt_sn_dump_packet of mqtt-sn.c
--   A dialogue with the gateway is stated by what the gateway answers, and when: `Serves`,
--   `Delivers`, `Carries` and `Arrives` fix the answers of the system at the moments of the run, so
--   that the theorems say what the whole program does and that it ends.
--
-- Protocol, Protocol.MessageType and Protocol.Flag have the constants of mqtt-sn-tools/mqtt-sn.h,
-- and the names that mqtt-sn.c gives to types and return codes. Base has the lists, bytes and C
-- strings that the parts share.
--
-- ictp/spray-dtn/dtn.c, ictp/spray-dtn/dtn.h
--   The delay-tolerant network of the motes: messages are sprayed with a number of copies, requested
--   and handed off. `Dtn.State` has `struct dtn_conn` with its packet queue as the record `Dtn`, and
--   what Contiki does as `Contiki`, a parameter: where a new packet comes to stand in the queue
--   (`Appends`), and what is read through a pointer to memory that is freed.
--   - Dtn.Queue          dtn_queue_find, dtn_queue_spray
--   - Dtn.Handlers       dtn_spray_recv, dtn_request_recv, dtn_handoff_recv, dtn_handoff_sent,
--                        dtn_handoff_timedout
--   - Dtn.Calls          dtn_open, dtn_close, dtn_send, dtn_set_addr, dtn_set_power and the timer
--   - Dtn.Steps          the node as a state machine, with the lifetime of queued packets
--   - Dtn.Network        nodes at their addresses, which hear what the others have put on the air
--   `Dtn.Lifecycle` is the abstract view of a node: a machine for each message that knows nothing of
--   queues and addresses. Dtn.Copies, Dtn.HandOff, Dtn.Delivery and Dtn.Calls.Laws have the
--   theorems about one node and about a hand-off, Dtn.Genuine those about what a node passes on,
--   and the modules below Dtn.Network those about a network.
--
-- ictp/spray-dtn/example-dtn.c
--   The program above it, `Dtn.Example`: its process up to the loop, and what an event does;
--   none is a press that overflows the 16 bits of its count.
--
-- ictp/mqtt-sn/mqtt-sn.c, ictp/mqtt-sn/mqtt-sn.h, ictp/mqtt-sn/example.c
--   The client of the motes. `Mote.State` has `struct mqtt_sn_connection` as the record `Connection`,
--   with the calls of Contiki and of the application's callbacks as a trace, and the requests of its
--   list, all of which wait at the PT_YIELD of manage_request. A result of `none` is what C leaves
--   undefined.
--   - Mote.Send          the senders
--   - Mote.Requests      register_try, subscribe_try, manage_request in two halves, manage_response
--   - Mote.Events        mqtt_sn_receiver, the events of mqtt_sn_process, the timers' callbacks
--   - Mote.Steps         the client as a state machine
--   - Mote.Application   example.c, the application: its processes from wait to wait, its callbacks
--                        (Mote.Application.Callbacks) and all that can happen to it
--   Theorems are in the modules named Laws.
--
-- ictp/mqtt-sn/old/mqtt-sn.c
--   The earlier client of the motes, `Mote.Old`: the lengths of REGISTER and SUBSCRIBE, and what it
--   does when the gateway is silent, where it differs from the client of now.
--
-- ictp/udp/udp-client.c, ictp/udp/example.h, ictp/udp/UDPServer.py
--   A mote that sends its readings by UDP, `Udp.Client`, and what the server makes of them,
--   `Udp.Server`. Where the compiler puts padding into the struct that is sent is a parameter.
--
-- ictp/border-router/border-routerUDP.c
--   `Border` has what this file adds to the border router of Contiki: the table that datagrams fill,
--   and the page that shows it; the format of the page is a list of `Piece`s, and how printf writes
--   an `int` a parameter, `Printf`.
--
-- ictp/mqtt/mqtt-demo.c
--   A mote that publishes to an MQTT broker: `Demo`. `Demo.State` has the static variables as the
--   record `Demo`, with the calls of Contiki that it has made, the newest first; `Platform` is what
--   Contiki fixes (CLOCK_SECOND, the cast to clock_time_t, `%d`), `World` what it answers while an
--   event is handled. A result `none` is a read through a pointer that is NULL, or outside an array.
--   - Demo.Config        init_config, update_config, construct_client_id, construct_*_topic
--   - Demo.Message       ipaddr_sprintf with a run of its loop as `ip_group`, and publish
--   - Demo.Handler       mqtt_event, pub_handler, publish_led_off
--   - Demo.Machine       state_machine with its cases, the process
--   `Demo.Address.Notation` is the notation of IPv6 addresses that ipaddr_sprintf is held against.
--   Below Demo.Machine stand the invariant of the program, over all events, and what drives it; in
--   `Demo.Run` a run over a list of events. Contiki calls mqtt_event only between two events.
--
-- ictp/webserver/websense.c
--   A mote that serves a page with its readings: `Webserver` has the history of the readings as two
--   arrays and a position, `Page` for the buffer and `blen`, the macro ADD as `add_text`, and the
--   strings of the page as `send_values`. `Webserver.History` reads the arrays as rings.
--
-- Bounds. Bytes, 16-bit ids and lengths are native numbers with the wrap-around written out (`u8`,
-- `u16`). A packet is its bytes; a C array that a string is copied into keeps its size, and
-- `c_string` finds the terminator or none. time_t does not wrap. The wait loop needs fuel, one for
-- each round, and runs out where the loop would go on: with a keep alive time and a silent gateway
-- the rounds that are enough are computed from the clock. The loops of the programs take a fuel
-- for each turn, and the theorems about them give one more than the turns before the signal. The
-- types that are waited for are below 128, where the `char` that the loop compares is the byte.
--
-- Not modelled: log lines and the debug output of packets (pure I/O), failures of malloc and of
-- send() (which the source only logs), the settings of the serial terminal, the mosquitto clients,
-- the border router itself (a copy of another project), what the earlier mote client has in common
-- with the one of now, and the Java gateway. Of the DTN, dtn_delay and printing are not modelled;
-- of the motes' client, its debug flag and the code behind #if 0; of its application, the device
-- id, which is made but not used.

pub mod Base
pub mod Border
pub mod Demo
pub mod Dtn
pub mod Mote
pub mod Programs
pub mod Protocol
pub mod Tools
pub mod Udp
pub mod Webserver
