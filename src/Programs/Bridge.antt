-- ===== src/Programs/Bridge.antt =====
-- mqtt-sn-tools/mqtt-sn-serial-bridge.c: packets go from a serial port to the gateway and back.
pub mod Reads
pub mod Relay
pub mod Traffic
pub mod Runs
pub mod Safe
pub mod Endures
mod Tests
use ts_it.Base.{
  ℕ, zero, suc, ◌+◌, ◌-◌, Bool, true, false, not, ◌==◌, ltb, leb, if◌then◌else◌, Option, none, some,
  List, [], ◌∷◌, ◌++◌, length, take, drop, set, byte_at, u8, codes, replicate,
}
use ts_it.Tools.State.{
  M, out_of_fuel, Env, ◌>>=◌, ◌>>◌, pure, get, exit_with, exit_failure, undefined,
}
use ts_it.Tools.Topics.{cleanup}
use ts_it.Tools.Frame.{
  enable_frwdencap, disable_frwdencap, send_packet, send_frwdencap_packet, memcpy,
}
use ts_it.Tools.Receive.{validate_packet, receive_packet}
use ts_it.Tools.Settings.{set_debug}
use ts_it.Tools.Socket.{Network, create_socket}
use ts_it.Programs.Options.{Opt, char, atoi, usage, each_option}

-- The variables that the options set; B9600 is 13.
pub record BridgeOptions : Type 0 where
  pub mqtt_sn_host : List ℕ
  pub mqtt_sn_port : List ℕ
  pub serial_baud : ℕ
  pub debug : ℕ
  pub frwdencap : Bool

abbrev pub defaults : BridgeOptions
defaults = record {
  mqtt_sn_host = codes "127.0.0.1";
  mqtt_sn_port = codes "1883";
  serial_baud = 13;
  debug = 0;
  frwdencap = false;
}

-- The `switch` on an option.
pub set_option : Opt → BridgeOptions → M BridgeOptions
set_option opt o =
    if opt.ch == char "b"
    then pure (record o { serial_baud = atoi 32 opt.optarg })
    else if opt.ch == char "d"
    then pure (record o { debug = u8 (o.debug + 1) })
    else if opt.ch == char "h"
    then pure (record o { mqtt_sn_host = opt.optarg })
    else if opt.ch == char "p"
    then pure (record o { mqtt_sn_port = opt.optarg })
    else if opt.ch == char "f"
    then (enable_frwdencap >> pure (record o { frwdencap = true }))
    else usage

-- The options, and the device that follows them on the command line.
pub parse_opts : List Opt → Option (List ℕ) → M BridgeOptions
parse_opts opts device = do
  o ← each_option set_option opts defaults
  elim device [ none ↦ usage | some path ↦ pure o ]

-- What `select` finds: an error or a signal, or which of the serial port and the socket is ready.
pub data Watch : Type 0 where
  broken : Watch
  watch : (serial socket : Bool) → Watch

-- The serial port: `select` by the number of calls before, and `read` by the number of calls before
-- and the number of bytes that are asked for; none is an error.
pub record Port : Type 0 where
  pub opens : Bool
  pub select : ℕ → Watch
  pub read : ℕ → ℕ → Option (List ℕ)

-- The static `buf` of serial_read_packet, the calls of `read` and `select` so far, and what went to
-- `write`, the newest first.
pub record Serial : Type 0 where
  pub buf : List ℕ
  pub reads : ℕ
  pub selects : ℕ
  pub written : List (List ℕ)

-- `MQTT_SN_MAX_PACKET_LENGTH+1`
abbrev pub buf_size : ℕ
buf_size = 256

abbrev pub closed : Serial
closed = record { buf = replicate buf_size 0; reads = 0; selects = 0; written = [] }

-- `read(fd, &buf[at], n)`: the number of bytes.
pub read_at : Port → ℕ → ℕ → Serial → M (Option ℕ × Serial)
read_at port at n s =
    let s' = record s { reads = s.reads + 1 } in
    elim (port.read s.reads n) [
      | none ↦ pure (none, s')
      | some bytes ↦
          if ltb (length s.buf) (at + length bytes)
          then undefined
          else pure (
            some (length bytes),
            record s' { buf = take at s.buf ++ (bytes ++ drop (at + length bytes) s.buf) },
          )
    ]

-- The terminator behind the packet.
pub end_packet : ℕ → Serial → M (Option (List ℕ) × Serial)
end_packet n s =
    let buf = set s.buf n 0 in
    if leb (length s.buf) n then undefined else pure (some buf, record s { buf = buf })

-- What the validity of the packet leads to.
pub end_valid : ℕ → Serial → Option Bool → M (Option (List ℕ) × Serial)
end_valid n s none = undefined
end_valid n s (some true) = end_packet n s
end_valid n s (some false) = pure (none, s)

-- The packet has been read; none is returned for one that is not valid.
pub checked : ℕ → Serial → M (Option (List ℕ) × Serial)
checked n s = do c ← get; end_valid n s (validate_packet c.forwarder_encapsulation s.buf n)

-- Behind the second read.
pub end_read : Option ℕ → Serial → M (Option (List ℕ) × Serial)
end_read none s = pure (none, s)
end_read (some n) s = if n == 0 then pure (none, s) else checked (n + 1) s

-- The rest of the packet, behind its length byte.
pub read_rest : Port → Serial → M (Option (List ℕ) × Serial)
read_rest port s =
    if byte_at s.buf 0 == 0x00
    then pure (none, s)
    else do r ← read_at port 1 (byte_at s.buf 0 - 1) s; end_read r.0 r.1

-- Behind the first read.
pub with_length : Port → Option ℕ → Serial → M (Option (List ℕ) × Serial)
with_length port none s = pure (none, s)
with_length port (some n) s = if n == 1 then read_rest port s else pure (none, s)

pub serial_read_packet : Port → Serial → M (Option (List ℕ) × Serial)
serial_read_packet port s = do r ← read_at port 0 1 s; with_length port r.0 r.1

pub serial_write_packet : List ℕ → Serial → M Serial
serial_write_packet packet s = do
  bytes ← memcpy packet (byte_at packet 0)
  pure (record s { written = bytes ∷ s.written })

-- A packet for the gateway.
pub send_on : Env → Bool → List ℕ → M (Unit {0})
send_on env frwdencap packet =
    if frwdencap then send_frwdencap_packet env packet none 0 else send_packet env packet

-- The serial port has been read.
pub send_read : Env → Bool → Option (List ℕ) → Serial → M Serial
send_read env frwdencap none s = pure s
send_read env frwdencap (some packet) s = send_on env frwdencap packet >> pure s

-- The serial port is ready.
pub from_serial : Env → Port → Bool → Serial → M Serial
from_serial env port frwdencap s = do r ← serial_read_packet port s; send_read env frwdencap r.0 r.1

-- The socket has been read.
pub write_received : Option (List ℕ) → Serial → M Serial
write_received none s = pure s
write_received (some packet) s = serial_write_packet packet s

-- The socket is ready.
pub from_socket : Env → Serial → M Serial
from_socket env s = do r ← receive_packet env; write_received r s

-- The two parts of a turn.
pub serial_part : Env → Port → Bool → Bool → Serial → M Serial
serial_part env port frwdencap serial s =
    if serial then from_serial env port frwdencap s else pure s

pub socket_part : Env → Bool → Serial → M Serial
socket_part env socket s = if socket then from_socket env s else pure s

-- A turn of the loop with what `select` has found.
pub turn : Env → Port → Bool → Bool → Bool → Serial → M Serial
turn env port frwdencap serial socket s = do
  s' ← serial_part env port frwdencap serial s
  socket_part env socket s'

-- The loop: `running k` is `keep_running` after `k` turns, which the signals clear.
pub bridge : Env → Port → (ℕ → Bool) → Bool → ℕ → Serial → M Serial
bridge env port running frwdencap zero s = λ c. out_of_fuel
bridge env port running frwdencap (suc turns) s =
    if not (running s.selects) then pure s else elim (port.select s.selects) [
      | broken ↦ pure (record s { selects = s.selects + 1 })
      | watch serial socket ↦ do
        s' ← turn env port frwdencap serial socket (record s { selects = s.selects + 1 })
        bridge env port running frwdencap turns s'
    ]

-- The device is opened behind the options, and the encapsulation of mqtt-sn.c is off from then on.
pub serial_open : Port → M (Unit {0})
serial_open port = do disable_frwdencap; if port.opens then pure tt else exit_with exit_failure

-- The result is the exit status, with what became of the serial port.
pub main : Env → Network → Port → (ℕ → Bool) → ℕ → List Opt → Option (List ℕ) → M (ℕ × Serial)
main env network port running turns opts device = do
  o ← parse_opts opts device
  set_debug o.debug
  _ ← create_socket network
  serial_open port
  s ← bridge env port running o.frwdencap turns closed
  cleanup
  pure (0, s)
