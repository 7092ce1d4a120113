-- ===== src/Programs/Pub/Tests.antt =====
-- The theorems about mqtt-sn-tools/mqtt-sn-pub.c at concrete command lines and systems.
use ts_it.Base.{none, ◌≡◌, refl, some, List, [], ◌∷◌, ◌==◌, if◌then◌else◌, codes}
use ts_it.Protocol.MessageType
use ts_it.Protocol.Flag
use ts_it.Tools.State.{Env, ok, datagram, ready, start}
use ts_it.Tools.Acks.Answers.{regack_body}
use ts_it.Programs.Options.{Opt, char, each_option}
use ts_it.Tools.Outcome.{Ends}
use ts_it.Programs.Pub.{PubOptions, defaults, set_option, check_options, parse_opts}
use ts_it.Programs.Pub.Checks.{IsRunnable, parse_opts-IsRunnable}

-- `-t door -m open -i c1`
abbrev door_open : List Opt
door_open =
    record { ch = char "t"; optarg = codes "door" }
    ∷ record { ch = char "m"; optarg = codes "open" }
    ∷ record { ch = char "i"; optarg = codes "c1" }
    ∷ []

abbrev door_options : PubOptions
door_options = record defaults {
  topic_name = some (codes "door");
  message_data = some (codes "open");
  client_id = some (codes "c1");
}

parse_opts-IsRunnable_example : Ends (λ o d. IsRunnable o) (parse_opts door_open start)
parse_opts-IsRunnable_example = parse_opts-IsRunnable door_open start

-- A gateway that gives the topic the id 7.
abbrev gateway : Env
gateway = record {
  time = λ _. 0;
  select = λ _. ready;
  recvfrom = λ k.
      if k == 1
      then datagram (3 ∷ MessageType.connack ∷ 0 ∷ [])
      else if k == 6
      then datagram (7 ∷ MessageType.regack ∷ regack_body 7 1 0)
      else datagram (2 ∷ MessageType.disconnect ∷ []);
  date = λ _. codes "12 ";
  pid_decimal = codes "77";
  pid_hex = codes "4D";
  sprintf_onto = λ _ _. none;
}

-- `-q -1 -T 9 -m open`
abbrev door_at_once : List Opt
door_at_once =
    record { ch = char "q"; optarg = codes "-1" }
    ∷ record { ch = char "T"; optarg = codes "9" }
    ∷ record { ch = char "m"; optarg = codes "open" }
    ∷ []

abbrev at_once_options : PubOptions
at_once_options = record defaults { qos = 255; topic_id = 9; message_data = some (codes "open") }

door_at_once-parsed : parse_opts door_at_once start ≡ ok at_once_options start
unfolding parse_opts each_option set_option check_options
door_at_once-parsed = refl
