-- ===== src/Programs/Bridge/Runs.antt =====
-- mqtt-sn-tools/mqtt-sn-serial-bridge.c from its command line to its exit status.
use ts_it.Base.{ℕ, suc, ◌≡◌, refl, ◌∙◌, Bool, true, false, Option, List, [], length, arith}
use ts_it.Tools.State.{Client, Env, ok, bind-ok}
use ts_it.Tools.Topics.{cleanup}
use ts_it.Tools.Frame.{disable_frwdencap}
use ts_it.Tools.Settings.{set_debug}
use ts_it.Tools.Receive.Bounds.{IsBuffer}
use ts_it.Tools.Socket.{Network, IsOpened, create_socket-ok}
use ts_it.Programs.Options.{Opt}
use ts_it.Programs.Bridge.{
  BridgeOptions, Port, Serial, closed, parse_opts, serial_open, bridge, main,
}
use ts_it.Programs.Bridge.Traffic.{Arrival, Carries, to_gateway, to_port, IsReady, bridge-Relays}

module _ (env : Env) (network : Network) (port : Port) (running : ℕ → Bool) (turns : ℕ)
    (opts : List Opt) (device : Option (List ℕ)) (o : BridgeOptions) (c d : Client)
    (parsed : parse_opts opts device c ≡ ok o d) (socket : IsOpened network)
    (opens : port.opens ≡ true) where
  -- The client as the loop begins.
  abbrev opened : Client
  opened = record d { debug = o.debug; forwarder_encapsulation = false }

  main-ok :
      {z : Serial} {e : Client}
      → bridge env port running o.frwdencap turns closed opened ≡ ok z e
      → main env network port running turns opts device c ≡ ok (0, z) (record e { topic_map = [] })
  unfolding main serial_open disable_frwdencap set_debug cleanup
  main-ok done =
      bind-ok (parse_opts opts device) _ parsed
      ∙ ground (arith, create_socket-ok network socket (record d { debug = o.debug }), done, opens)

-- With a host that a socket can be connected to and a port that can be opened, and where packets
-- arrive whole at the serial port and from the gateway, in any order, until a signal
-- comes, the program ends with status 0; it has sent each packet of the port to the gateway, in a
-- forwarder header exactly if the options ask for one, and has written each packet of the gateway
-- to the port, without the forwarder header that it may have come in, in the order of their
-- arrival and nothing else.
pub main-relays :
    (env : Env) (network : Network) (port : Port) (running : ℕ → Bool) (opts : List Opt)
    (device : Option (List ℕ)) (o : BridgeOptions) (arrivals : List Arrival) (c d : Client)
    → parse_opts opts device c ≡ ok o d
    → IsOpened network
    → port.opens ≡ true
    → IsBuffer d.buffer
    → Carries env port running arrivals d.moment 0 0
    → (z : Serial) × (e : Client) × (main env network port running
          (suc (length arrivals))
          opts
          device
          c
        ≡ ok (0, z) e)
      × (e.sent ≡ to_gateway env o.frwdencap arrivals d.sent)
      × (z.written ≡ to_port arrivals [])
main-relays env network port running opts device o arrivals c d parsed socket opens b carries =
    let begun =
      opened env network port running (suc (length arrivals)) opts device o c d parsed socket
        opens in
    let ready : IsReady closed begun = record { buf = refl; buffer = b; off = refl } in
    let r = bridge-Relays env port running o.frwdencap arrivals closed begun ready carries in
    (
      r.0,
      record (r.1) { topic_map = [] },
      main-ok env network port running (suc (length arrivals)) opts device o c d parsed socket opens
          r.2,
      r.3,
      r.4,
    )
