-- ===== src/Programs/Sub.antt =====
-- mqtt-sn-tools/mqtt-sn-sub.c: a topic is subscribed to, and what is published to it is printed.
pub mod Dialogue
mod Tests
use ts_it.Base.{
  ℕ, zero, suc, ◌+◌, ◌/◌, Bool, true, false, not, ◌&&◌, ◌||◌, ◌==◌, ltb, if◌then◌else◌, Option,
  none, some, List, [], length, u8, codes,
}
use ts_it.Protocol.MessageType
use ts_it.Tools.State.{Env, M, out_of_fuel, ◌>>=◌, ◌>>◌, pure, get, modify, exit_with, exit_failure}
use ts_it.Tools.Topics.{register_topic, cleanup}
use ts_it.Tools.Frame.{enable_frwdencap, disable_frwdencap, set_frwdencap_parameters}
use ts_it.Tools.Settings.{set_debug, set_verbose, set_timeout, enable_frwdtn, disable_frwdtn}
use ts_it.Tools.Send.{
  send_connect, send_subscribe_topic_name, send_subscribe_topic_id, send_disconnect,
}
use ts_it.Tools.Wait.{wait_for}
use ts_it.Tools.Acks.{receive_connack, receive_suback, receive_disconnect}
use ts_it.Tools.Socket.{Network, create_socket}
use ts_it.Programs.Options.{Opt, char, atoi, usage, each_option, is_given, when}

-- The variables that the options set.
pub record SubOptions : Type 0 where
  pub client_id : Option (List ℕ)
  pub topic_name : Option (List ℕ)
  pub mqtt_sn_host : List ℕ
  pub mqtt_sn_port : List ℕ
  pub topic_id : ℕ
  pub keep_alive : ℕ
  pub debug : ℕ
  pub single_message : Bool
  pub clean_session : Bool
  pub verbose : ℕ

abbrev pub defaults : SubOptions
defaults = record {
  client_id = none;
  topic_name = none;
  mqtt_sn_host = codes "127.0.0.1";
  mqtt_sn_port = codes "1883";
  topic_id = 0;
  keep_alive = 10;
  debug = 0;
  single_message = false;
  clean_session = true;
  verbose = 0;
}

-- The `switch` on an option.
pub set_option : Opt → SubOptions → M SubOptions
set_option opt o =
    let arg = opt.optarg in
    if opt.ch == char "1"
    then pure (record o { single_message = true })
    else if opt.ch == char "c"
    then pure (record o { clean_session = false })
    else if opt.ch == char "d"
    then pure (record o { debug = u8 (o.debug + 1) })
    else if opt.ch == char "h"
    then pure (record o { mqtt_sn_host = arg })
    else if opt.ch == char "i"
    then pure (record o { client_id = some arg })
    else if opt.ch == char "k"
    then pure (record o { keep_alive = atoi 16 arg })
    else if opt.ch == char "p"
    then pure (record o { mqtt_sn_port = arg })
    else if opt.ch == char "t"
    then pure (record o { topic_name = some arg })
    else if opt.ch == char "T"
    then pure (record o { topic_id = atoi 16 arg })
    else if opt.ch == char "f"
    then (enable_frwdencap >> pure o)
    else if opt.ch == char "w"
    then (set_frwdencap_parameters (some arg) (u8 (length arg)) >> pure o)
    else if opt.ch == char "z"
    then (enable_frwdtn >> pure o)
    else if opt.ch == char "v"
    then pure (record o { verbose = if o.verbose == 0 then 1 else o.verbose })
    else if opt.ch == char "V"
    then pure (record o { verbose = 2 })
    else usage

-- Behind the loop over the options.
pub check_options : SubOptions → M SubOptions
check_options o =
    if not (is_given o.topic_name) && (o.topic_id == 0)
    then usage
    else if is_given o.topic_name && not (o.topic_id == 0)
    then exit_with exit_failure
    else pure o

pub parse_opts : List Opt → M SubOptions
parse_opts opts = do o ← each_option set_option opts defaults; check_options o

pub connected : Env → SubOptions → M (Unit {0})
connected env o = do send_connect env o.client_id o.keep_alive o.clean_session; receive_connack env

-- The topic id of a name goes into the topic map.
pub note_topic : ℕ → Option (List ℕ) → M (Unit {0})
note_topic topic_id none = pure tt
note_topic topic_id (some name) =
    if not (topic_id == 0) && ltb 2 (length name)
    then modify (λ c. record c { topic_map = register_topic topic_id name c.topic_map })
    else pure tt

pub subscribed : Env → ℕ → SubOptions → M (Unit {0})
subscribed env fuel o = do
  elim o.topic_name [
    | some name ↦ send_subscribe_topic_name env name 0
    | none ↦ send_subscribe_topic_id env o.topic_id 0
  ]
  id ← receive_suback env fuel
  note_topic id o.topic_name

-- The loop: `running k` is `keep_running` at the moment `k`, which the signals clear, and the first
-- fuel bounds the rounds of the loop.
pub listen : Env → (ℕ → Bool) → Bool → ℕ → ℕ → M (Unit {0})
listen env running single zero fuel = λ c. out_of_fuel
listen env running single (suc turns) fuel = do
  c ← get
  if not (running c.moment) then pure tt else do
    r ← wait_for env MessageType.publish fuel
    let again = listen env running single turns fuel
    elim r [ none ↦ again | some packet ↦ if single then pure tt else again ]

pub disconnected : Env → ℕ → M (Unit {0})
disconnected env fuel = do send_disconnect env; receive_disconnect env fuel

-- What is done with a socket.
pub follow : Env → (ℕ → Bool) → ℕ → ℕ → SubOptions → M (Unit {0})
follow env running turns fuel o = do
  connected env o
  subscribed env fuel o
  listen env running o.single_message turns fuel
  disconnected env fuel

-- The result is the exit status.
pub main : Env → (ℕ → Bool) → Network → ℕ → ℕ → List Opt → M ℕ
main env running network turns fuel opts = do
  disable_frwdencap
  disable_frwdtn
  o ← parse_opts opts
  set_debug o.debug
  set_verbose o.verbose
  set_timeout (u8 (o.keep_alive / 2))
  sock ← create_socket network
  when (not (sock == 0)) (follow env running turns fuel o)
  cleanup
  pure 0
