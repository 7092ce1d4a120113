-- ===== src/Programs/Pub.antt =====
-- mqtt-sn-tools/mqtt-sn-pub.c: a message is published, and the program ends.
pub mod Checks
pub mod Runs
pub mod Dialogue
mod Tests
use ts_it.Base.{
  ℕ, ◌+◌, ◌*◌, Bool, true, false, not, ◌&&◌, ◌||◌, ◌==◌, ltb, if◌then◌else◌, Option, none, some,
  List, [], ◌∷◌, length, byte_at, u8, u16, codes,
}
use ts_it.Protocol.Flag
use ts_it.Tools.State.{Client, Env, M, ◌>>=◌, ◌>>◌, pure, exit_with, exit_failure, undefined}
use ts_it.Tools.Topics.{cleanup}
use ts_it.Tools.Frame.{enable_frwdencap, disable_frwdencap, set_frwdencap_parameters}
use ts_it.Tools.Settings.{set_debug}
use ts_it.Tools.Send.{send_connect, send_register, send_publish, send_disconnect}
use ts_it.Tools.Acks.{receive_connack, receive_regack, receive_disconnect}
use ts_it.Tools.Socket.{Network, create_socket}
use ts_it.Programs.Options.{Opt, char, atoi, usage, each_option, is_given, when}

-- The variables that the options set. QoS -1 is the `int8_t` 255.
pub record PubOptions : Type 0 where
  pub client_id : Option (List ℕ)
  pub topic_name : Option (List ℕ)
  pub message_data : Option (List ℕ)
  pub mqtt_sn_host : List ℕ
  pub mqtt_sn_port : List ℕ
  pub topic_id : ℕ
  pub topic_id_type : ℕ
  pub qos : ℕ
  pub retain : ℕ
  pub debug : ℕ

abbrev pub defaults : PubOptions
defaults = record {
  client_id = none;
  topic_name = none;
  message_data = none;
  mqtt_sn_host = codes "127.0.0.1";
  mqtt_sn_port = codes "1883";
  topic_id = 0;
  topic_id_type = Flag.topic_normal;
  qos = 0;
  retain = 0;
  debug = 0;
}

abbrev pub keep_alive : ℕ
keep_alive = 30

-- The `switch` on an option.
pub set_option : Opt → PubOptions → M PubOptions
set_option opt o =
    let arg = opt.optarg in
    if opt.ch == char "d"
    then pure (record o { debug = u8 (o.debug + 1) })
    else if opt.ch == char "h"
    then pure (record o { mqtt_sn_host = arg })
    else if opt.ch == char "i"
    then pure (record o { client_id = some arg })
    else if opt.ch == char "m"
    then pure (record o { message_data = some arg })
    else if opt.ch == char "n"
    then pure (record o { message_data = some [] })
    else if opt.ch == char "p"
    then pure (record o { mqtt_sn_port = arg })
    else if opt.ch == char "q"
    then pure (record o { qos = atoi 8 arg })
    else if opt.ch == char "r"
    then pure (record o { retain = 1 })
    else if opt.ch == char "t"
    then pure (record o { topic_name = some arg })
    else if opt.ch == char "T"
    then pure (record o { topic_id = atoi 16 arg })
    else if opt.ch == char "f"
    then (enable_frwdencap >> pure o)
    else if opt.ch == char "w"
    then (set_frwdencap_parameters (some arg) (u8 (length arg)) >> pure o)
    else usage

-- `qos == -1`
abbrev pub qos_minus_one : ℕ
qos_minus_one = 255

-- Behind the loop over the options.
pub check_options : PubOptions → M PubOptions
check_options o =
    if not (is_given o.topic_name || not (o.topic_id == 0)) || not (is_given o.message_data)
    then usage
    else if not (o.qos == qos_minus_one) && not (o.qos == 0)
    then exit_with exit_failure
    else if is_given o.topic_name && not (o.topic_id == 0)
    then exit_with exit_failure
    else if (o.qos == qos_minus_one) && (o.topic_id == 0)
    then elim o.topic_name [
      | none ↦ undefined
      | some name ↦ if length name == 2 then pure o else exit_with exit_failure
    ]
    else pure o

pub parse_opts : List Opt → M PubOptions
parse_opts opts = do o ← each_option set_option opts defaults; check_options o

-- `qos >= 0` of an `int8_t`
abbrev pub waits : PubOptions → Bool
waits o = ltb o.qos 128

-- A `char` as an `int`, 16 bits of it: it is signed.
abbrev pub signed_char : ℕ → ℕ
signed_char b = if ltb b 128 then b else b + 65280

-- The topic id and its type.
pub find_topic : Env → ℕ → PubOptions → M (ℕ × ℕ)
find_topic env fuel o =
    if not (o.topic_id == 0) then pure (o.topic_id, Flag.topic_predefined) else elim o.topic_name [
      | none ↦ undefined
      | some name ↦
          if length name == 2
          then pure (
            u16 (signed_char (byte_at name 0) * 256 + signed_char (byte_at name 1)),
            Flag.topic_short,
          )
          else if waits o
          then (do
            send_register env name
            id ← receive_regack env fuel
            pure (id, Flag.topic_normal))
          else pure (o.topic_id, o.topic_id_type)
    ]

pub connected : Env → PubOptions → M (Unit {0})
connected env o = do send_connect env o.client_id keep_alive true; receive_connack env

pub disconnected : Env → ℕ → M (Unit {0})
disconnected env fuel = do send_disconnect env; receive_disconnect env fuel

-- What is done with a socket; the message is there, since parse_opts asks for it.
pub publish_message : Env → ℕ → PubOptions → M (Unit {0})
publish_message env fuel o = do
  when (waits o) (connected env o)
  topic ← find_topic env fuel o
  elim o.message_data [
    | none ↦ undefined
    | some text ↦ send_publish env topic.0 topic.1 text o.qos o.retain
  ]
  when (waits o) (disconnected env fuel)

-- The result is the exit status.
pub main : Env → Network → ℕ → List Opt → M ℕ
main env network fuel opts = do
  disable_frwdencap
  o ← parse_opts opts
  set_debug o.debug
  sock ← create_socket network
  when (not (sock == 0)) (publish_message env fuel o)
  cleanup
  pure 0
