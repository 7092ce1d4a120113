-- ===== src/Demo/Commands.antt =====
-- The commands of ictp/mqtt/mqtt-demo.c: publications on the topic that it subscribes to.
use ts_it.Base.{ℕ, ◌≡◌, sym, ◌∙◌, ◌++◌, some, List, length, codes, c_string, u16, arith}
use mathlib.Core.Option.{some_inj}
use ts_it.Demo.State.{Demo, Platform}
use ts_it.Demo.Config.Laws.{IsConfigured}
use ts_it.Demo.Machine.{PubMessage, publication, mqtt_event, pub_handler}

-- A topic with the prefix of commands is not what pub_handler looks for.
handler-prefix :
    (cmd chunk : List ℕ) (topic_len chunk_len : ℕ) (d : Demo)
    → pub_handler (codes "zolertia/cmd/" ++ cmd) topic_len chunk chunk_len d ≡ d
unfolding pub_handler
handler-prefix cmd chunk topic_len chunk_len d = ground arith

-- Whatever the type of the commands in the configuration: a publication on the very topic that the
-- program subscribes to changes nothing, whatever its payload. No LED is ever switched by it.
pub command-ignored :
    (os : Platform) (addr event cmd : List ℕ) (d : Demo) (m : PubMessage)
    → IsConfigured addr event cmd d
    → c_string d.sub_topic ≡ some m.topic
    → mqtt_event os (publication m) d ≡ d
unfolding mqtt_event
command-ignored os addr event cmd d m i e = rw (some_inj.0 (sym e ∙ i.sub_topic)) (
    handler-prefix cmd m.payload_chunk (u16 (length (codes "zolertia/cmd/" ++ cmd)))
      (u16 m.payload_length) d)
