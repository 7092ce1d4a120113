-- ===== src/Tools/Topics.antt =====
-- The topic map of mqtt-sn-tools/mqtt-sn.c: mqtt_sn_register_topic, mqtt_sn_lookup_topic and
-- mqtt_sn_cleanup.
pub mod Laws
use ts_it.Base.{
  ℕ, ◌||◌, Option, none, some, List, [], ◌∷◌, ◌==◌, if◌then◌else◌, length, strncpy, u16,
}
use ts_it.Protocol.{max_topic_length}
use ts_it.Tools.State.{TopicEntry, M, modify}

-- The entry as both branches leave it: all 249 bytes of the name are written.
pub entry : ℕ → List ℕ → TopicEntry
entry topic_id topic_name = record {
  topic_id = u16 topic_id;
  topic_name = strncpy topic_name max_topic_length;
}

-- The walk to the entry of that id or to the end of the list, and the write there.
pub put_topic : ℕ → List ℕ → List TopicEntry → List TopicEntry
put_topic topic_id topic_name [] = entry topic_id topic_name ∷ []
put_topic topic_id topic_name (e ∷ es) =
    if e.topic_id == topic_id
    then entry topic_id topic_name ∷ es
    else e ∷ put_topic topic_id topic_name es

-- `malloc` is taken to succeed.
pub register_topic : ℕ → List ℕ → List TopicEntry → List TopicEntry
register_topic topic_id topic_name map =
    if topic_id == 0x0000 || topic_id == 0xFFFF
    then map
    else if length topic_name == 0
    then map
    else put_topic topic_id topic_name map

-- The array that the returned pointer leads to.
unfoldable pub lookup_topic : ℕ → List TopicEntry → Option (List ℕ)
lookup_topic topic_id [] = none
lookup_topic topic_id (e ∷ es) =
    if e.topic_id == topic_id then some e.topic_name else lookup_topic topic_id es

-- Every entry is freed, and the list is empty again.
unfoldable pub cleanup : M (Unit {0})
cleanup = modify (λ c. record c { topic_map = [] })
