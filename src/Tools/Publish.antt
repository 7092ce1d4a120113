-- ===== src/Tools/Publish.antt =====
-- What mqtt-sn-tools/mqtt-sn.c does with a PUBLISH and a REGISTER from the gateway:
-- mqtt_sn_print_publish_packet, mqtt_sn_fwd_dtn_packet and mqtt_sn_process_register.
pub mod Laws
use ts_it.Base.{
  ℕ, ◌+◌, ◌/◌, ◌%◌, Option, none, some, List, [], ◌∷◌, ◌++◌, ◌==◌, leb, ltb, if◌then◌else◌, length,
  drop, byte_at, ntohs_at, c_string, codes,
}
use ts_it.Protocol.Flag
use ts_it.Tools.State.{Client, Env, M, ok, ◌>>=◌, ◌>>◌, pure, get, modify, undefined, time_now}
use ts_it.Tools.Topics.{lookup_topic, register_topic}
use ts_it.Tools.Send.{send_regack}

-- The C string at a pointer: a read past the array is undefined.
abbrev pub string_at : List ℕ → M (List ℕ)
string_at bytes = elim (c_string bytes) [ none ↦ undefined | some text ↦ pure text ]

abbrev pub print : List ℕ → M (Unit {0})
print bytes = modify (λ c. record c { printed = bytes ∷ c.printed })

abbrev hex_digit : ℕ → ℕ
hex_digit n = if ltb n 10 then n + 48 else n + 87

-- `%4.4x` of a `uint16_t`.
abbrev pub hex4 : ℕ → List ℕ
hex4 n =
    hex_digit (n / 4096 % 16)
    ∷ hex_digit (n / 256 % 16)
    ∷ hex_digit (n / 16 % 16)
    ∷ hex_digit (n % 16)
    ∷ []

-- `printf("...: %s\n", ...)`
pub print_line : List ℕ → List ℕ → M (Unit {0})
print_line head text = print (head ++ (codes ": " ++ (text ++ codes "\n")))

-- The topic's name, if the map has one.
pub print_named : Option (List ℕ) → List ℕ → M (Unit {0})
unfolding print_line
print_named none packet = pure tt
print_named (some array) packet = do
  text ← string_at (drop 7 packet)
  name ← string_at array
  print_line name text

-- The time stamp of the most verbose mode.
pub print_stamp : Env → M (Unit {0})
unfolding time_now
print_stamp env = do
  c ← get
  if c.verbose == 2 then (do t ← time_now env; print (env.date t)) else pure tt

pub print_verbose : Env → List ℕ → M (Unit {0})
unfolding print_stamp print_named print_line
print_verbose env packet = do
  print_stamp env
  c ← get
  let topic_type = byte_at packet 2 % 4
  if topic_type == Flag.topic_normal
      then print_named (lookup_topic (ntohs_at packet 3) c.topic_map) packet
      else if topic_type == Flag.topic_predefined
      then (do text ← string_at (drop 7 packet); print_line (hex4 (ntohs_at packet 3)) text)
      else if topic_type == Flag.topic_short
      then (do
        text ← string_at (drop 7 packet)
        print_line (byte_at packet 3 ∷ byte_at packet 4 ∷ []) text)
      else pure tt

pub print_publish_packet : Env → List ℕ → M (Unit {0})
unfolding print_verbose
print_publish_packet env packet = do
  c ← get
  if c.verbose == 0
      then (do text ← string_at (drop 7 packet); print (text ++ codes "\n"))
      else print_verbose env packet

-- The command line up to its `sprintf` onto itself: "echo", the payload, a comma and the time.
unfoldable pub dtn_arguments : List ℕ → List ℕ → List ℕ
dtn_arguments text date = codes "echo " ++ (text ++ (codes " , " ++ date))

-- The line is printed and run.
pub run_command : List ℕ → M (Unit {0})
run_command command = do
  print (codes "la cadena es " ++ (command ++ codes " \n"))
  modify (λ c. record c { commands = command ∷ c.commands })

-- The `sprintf` of the array onto itself, behind it the receiver, and the rest.
pub append_to : Env → List ℕ → M (Unit {0})
unfolding run_command
append_to env args =
    elim (env.sprintf_onto args (codes "| dtnsend --src reply dtn://ictpdtn2/pager")) [
      | none ↦ undefined
      | some command ↦ if leb 500 (length command) then undefined else run_command command
    ]

-- The line has to fit `char myoutput_array[500]`.
pub fwd_dtn_packet : Env → List ℕ → M (Unit {0})
unfolding dtn_arguments append_to time_now
fwd_dtn_packet env packet = do
  t ← time_now env
  text ← string_at (drop 7 packet)
  let args = dtn_arguments text (env.date t)
  if leb 500 (length args) then undefined else append_to env args

pub process_register : Env → List ℕ → M (Unit {0})
process_register env packet = do
  topic_name ← string_at (drop 6 packet)
  modify (λ c. record c { topic_map = register_topic (ntohs_at packet 2) topic_name c.topic_map })
  send_regack env (ntohs_at packet 2) (ntohs_at packet 4)
