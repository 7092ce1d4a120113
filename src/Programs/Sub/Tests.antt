-- ===== src/Programs/Sub/Tests.antt =====
-- The theorem about mqtt-sn-tools/mqtt-sn-sub.c at a concrete command line and system.
use ts_it.Base.{none, true, some, List, [], ◌∷◌, ◌==◌, if◌then◌else◌, codes}
use ts_it.Protocol.MessageType
use ts_it.Tools.State.{Env, datagram, ready}
use ts_it.Tools.Acks.Answers.{suback_body}
use ts_it.Tools.Receive.Plain.{packet}
use ts_it.Tools.Wait.Published.{publication, publish_plain}
use ts_it.Programs.Options.{Opt, char}
use ts_it.Programs.Sub.{SubOptions, defaults}

-- `-1 -v -t door -i c1`
abbrev watch_door : List Opt
watch_door =
    record { ch = char "1"; optarg = [] }
    ∷ record { ch = char "v"; optarg = [] }
    ∷ record { ch = char "t"; optarg = codes "door" }
    ∷ record { ch = char "i"; optarg = codes "c1" }
    ∷ []

abbrev watch_options : SubOptions
watch_options = record defaults {
  topic_name = some (codes "door");
  client_id = some (codes "c1");
  single_message = true;
  verbose = 1;
}

-- A gateway that gives the topic the id 7, and publishes "open" to it.
abbrev gateway : Env
gateway = record {
  time = λ _. 0;
  select = λ _. ready;
  recvfrom = λ k.
      if k == 1
      then datagram (3 ∷ MessageType.connack ∷ 0 ∷ [])
      else if k == 6
      then datagram (8 ∷ MessageType.suback ∷ suback_body 0 7 1 0)
      else if k == 10
      then datagram (packet MessageType.publish (publication 0 7 1 (codes "open")) publish_plain)
      else datagram (2 ∷ MessageType.disconnect ∷ []);
  date = λ _. codes "12 ";
  pid_decimal = codes "77";
  pid_hex = codes "4D";
  sprintf_onto = λ _ _. none;
}
