-- ===== src/Programs/Dump.antt =====
-- mqtt-sn-tools/mqtt-sn-dump.c, and mqtt_sn_dump_packet of mqtt-sn-tools/mqtt-sn.c that it calls: the
-- packets that arrive are printed.
pub mod Lines
pub mod Invalid
pub mod Runs
mod Tests
use ts_it.Base.{
  decimal_digits, ℕ, zero, suc, ◌+◌, ◌-◌, ◌/◌, ◌%◌, Bool, true, false, not, ◌==◌, ltb,
  if◌then◌else◌, Option, none, some, List, [], ◌∷◌, ◌++◌, drop, byte_at, ntohs_at, u8, codes,
}
use ts_it.Protocol.{return_code_string}
use ts_it.Protocol.MessageType
use ts_it.Tools.State.{
  Select, ready, timed_out, interrupted, failed, M, out_of_fuel, Env, ◌>>=◌, ◌>>◌, pure, get,
  exit_with, exit_failure, undefined, select_now,
}
use ts_it.Tools.Receive.{receive_packet}
use ts_it.Tools.Publish.{string_at, print, hex4, print_publish_packet}
use ts_it.Tools.Settings.{set_debug, set_verbose}
use ts_it.Programs.Options.{Opt, char, usage, each_option}

-- `%d` of a number of 16 bits.
abbrev pub decimal : ℕ → List ℕ
decimal n = decimal_digits 5 n []

-- `%d` of a `char`, which is signed.
abbrev pub char_decimal : ℕ → List ℕ
char_decimal b = if ltb b 128 then decimal b else char "-" ∷ decimal (256 - b)

-- `printf` of a number, a 16-bit id, a string and a return code of the packet.
pub print_number : List ℕ → ℕ → M (Unit {0})
print_number label n = print (label ++ decimal n)

pub print_id : List ℕ → ℕ → M (Unit {0})
print_id label n = print (label ++ hex4 n)

pub print_text : List ℕ → List ℕ → M (Unit {0})
print_text label bytes = do text ← string_at bytes; print (label ++ text)

pub print_code : ℕ → M (Unit {0})
print_code code = print (
    codes " return_code="
    ++ (decimal code ++ (codes " (" ++ (codes (return_code_string code) ++ codes ")"))))

abbrev pub topic_id_label : List ℕ
topic_id_label = codes " topic_id=0x"

abbrev pub message_id_label : List ℕ
message_id_label = codes " message_id=0x"

-- The `switch` on the type, with the fields at their places in the structs.
pub dump_fields : List ℕ → M (Unit {0})
dump_fields packet =
    let type = byte_at packet 1 in
    if type == MessageType.connect
    then (do
      print_number (codes " protocol_id=") (byte_at packet 3)
      print_number (codes " duration=") (ntohs_at packet 4)
      print_text (codes " client_id=") (drop 6 packet))
    else if type == MessageType.connack
    then print_code (byte_at packet 2)
    else if type == MessageType.register
    then (do
      print_id topic_id_label (ntohs_at packet 2)
      print_id message_id_label (ntohs_at packet 4)
      print_text (codes " topic_name=") (drop 6 packet))
    else if type == MessageType.regack
    then (do
      print_id topic_id_label (ntohs_at packet 2)
      print_id message_id_label (ntohs_at packet 4)
      print_code (byte_at packet 6))
    else if type == MessageType.publish
    then (do
      print_id topic_id_label (ntohs_at packet 3)
      print_id message_id_label (ntohs_at packet 5)
      print_text (codes " data=") (drop 7 packet))
    else if type == MessageType.subscribe
    then print_id message_id_label (ntohs_at packet 3)
    else if type == MessageType.suback
    then (do
      print_id topic_id_label (ntohs_at packet 3)
      print_id message_id_label (ntohs_at packet 5)
      print_code (byte_at packet 7))
    else if type == MessageType.disconnect
    then print_number (codes " duration=") (ntohs_at packet 2)
    else pure tt

pub dump_packet : List ℕ → M (Unit {0})
dump_packet packet = do
  print (
      codes (MessageType.type_string (byte_at packet 1))
      ++ (codes ": len=" ++ char_decimal (byte_at packet 0)))
  dump_fields packet
  print (codes "\n")

-- The variables that the options set.
pub record DumpOptions : Type 0 where
  pub mqtt_sn_port : List ℕ
  pub dump_all : Bool
  pub debug : ℕ
  pub verbose : ℕ

abbrev pub defaults : DumpOptions
defaults = record { mqtt_sn_port = codes "1883"; dump_all = false; debug = 0; verbose = 0 }

-- The `switch` on an option.
pub set_option : Opt → DumpOptions → M DumpOptions
set_option opt o =
    if opt.ch == char "a"
    then pure (record o { dump_all = true })
    else if opt.ch == char "d"
    then pure (record o { debug = u8 (o.debug + 1) })
    else if opt.ch == char "p"
    then pure (record o { mqtt_sn_port = opt.optarg })
    else if opt.ch == char "v"
    then pure (record o { verbose = u8 (o.verbose + 1) })
    else usage

pub parse_opts : List Opt → M DumpOptions
parse_opts opts = each_option set_option opts defaults

-- What is done with a packet that mqtt_sn_receive_packet returns: a NULL is read through as well.
pub show : Env → Bool → Option (List ℕ) → M (Unit {0})
show env dump_all none = undefined
show env dump_all (some packet) =
    if dump_all
    then dump_packet packet
    else if byte_at packet 1 == MessageType.publish
    then print_publish_packet env packet
    else pure tt

-- The loop: `running k` is `keep_running` at the moment `k`.
pub listen : Env → (ℕ → Bool) → Bool → ℕ → M (Unit {0})
listen env running dump_all zero = λ c. out_of_fuel
listen env running dump_all (suc turns) = do
  c ← get
  if not (running c.moment) then pure tt else do
    r ← select_now env
    let again = listen env running dump_all turns
    elim r [
      | ready ↦ (receive_packet env >>= show env dump_all) >> again
      | timed_out ↦ again
      | interrupted ↦ pure tt
      | failed ↦ exit_with exit_failure
    ]

-- `bound` is that the socket can be made and bound; the result is the exit status.
pub main : Env → (ℕ → Bool) → Bool → ℕ → List Opt → M ℕ
main env running bound turns opts = do
  o ← parse_opts opts
  set_debug o.debug
  set_verbose o.verbose
  if bound then pure tt else exit_with exit_failure
  listen env running o.dump_all turns
  pure 0
