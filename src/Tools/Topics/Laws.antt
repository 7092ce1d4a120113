-- ===== src/Tools/Topics/Laws.antt =====
-- mqtt_sn_register_topic and mqtt_sn_lookup_topic of mqtt-sn-tools/mqtt-sn.c implement a finite map
-- from topic ids to names.
use ts_it.Base.{
  ℕ, ◌≤◌, ◌<◌, ◌≡◌, refl, Bool, true, not, ◌&&◌, none, some, List, [], ◌∷◌, arith, ◌==◌,
  if◌then◌else◌, length, strncpy, IsText, c_string, c_string-strncpy, c_string-strncpy_full,
}
use ts_it.Protocol.{max_topic_length}
use ts_it.Tools.State.{TopicEntry}
use ts_it.Tools.Topics.{entry, put_topic, register_topic, lookup_topic}

-- The ids and names that the map takes: neither of the two reserved ids, and no empty name.
abbrev pub accepts : ℕ → List ℕ → Bool
accepts topic_id topic_name =
    not (topic_id == 0x0000) && not (topic_id == 0xFFFF) && not (length topic_name == 0)

-- No id has two entries.
abbrev pub IsDistinct : List TopicEntry → Type 0
IsDistinct [] = Unit
IsDistinct (e ∷ es) = (lookup_topic e.topic_id es ≡ none) × IsDistinct es

lookup-put :
    (topic_id j : ℕ) (topic_name : List ℕ) (map : List TopicEntry)
    → topic_id < 65536
    → lookup_topic j (put_topic topic_id topic_name map)
      ≡ (if topic_id == j then some (strncpy topic_name max_topic_length) else lookup_topic j map)
unfolding put_topic lookup_topic entry
lookup-put topic_id j topic_name [] h = ground arith
lookup-put topic_id j topic_name (e ∷ es) h = ground (arith, lookup-put topic_id j topic_name es)

-- After a registration under an id of 16 bits, an accepted id leads to the new name, cut or padded
-- to 249 bytes, and every other id to what it led to before; a registration that is not accepted
-- changes nothing.
pub lookup-register :
    (topic_id j : ℕ) (topic_name : List ℕ) (map : List TopicEntry)
    → topic_id < 65536
    → lookup_topic j (register_topic topic_id topic_name map) ≡ (
        if accepts topic_id topic_name && (topic_id == j)
        then some (strncpy topic_name max_topic_length)
        else lookup_topic j map)
unfolding register_topic
lookup-register topic_id j topic_name map h = ground (arith, lookup-put topic_id j topic_name map h)

put-IsDistinct :
    (topic_id : ℕ) (topic_name : List ℕ) (map : List TopicEntry)
    → topic_id < 65536
    → IsDistinct map
    → IsDistinct (put_topic topic_id topic_name map)
unfolding put_topic lookup_topic entry
put-IsDistinct topic_id topic_name [] h d = (refl, tt)
put-IsDistinct topic_id topic_name (e ∷ es) h d = ground (
  arith,
  put-IsDistinct topic_id topic_name es h d.1,
  lookup-put topic_id e.topic_id topic_name es h,
)

-- A registration under an id of 16 bits keeps the ids of the entries distinct.
pub register-IsDistinct :
    (topic_id : ℕ) (topic_name : List ℕ) (map : List TopicEntry)
    → topic_id < 65536
    → IsDistinct map
    → IsDistinct (register_topic topic_id topic_name map)
unfolding register_topic
register-IsDistinct topic_id topic_name map h d =
    ground (arith, put-IsDistinct topic_id topic_name map h d)

-- A name without a NUL of 1 to 248 bytes that is registered under a valid id of 16 bits is read
-- back as it was; one of 249 bytes or more leaves an array without a NUL, so that reading it as a
-- string leaves the array.
pub registered_name :
    (topic_id : ℕ) (topic_name : List ℕ) (map : List TopicEntry)
    → topic_id < 65536
    → accepts topic_id topic_name ≡ true
    → IsText topic_name
    → (name : List ℕ) × (lookup_topic topic_id (register_topic topic_id topic_name map) ≡ some name)
      × (length topic_name < max_topic_length → c_string name ≡ some topic_name)
      × (max_topic_length ≤ length topic_name → c_string name ≡ none)
registered_name topic_id topic_name map h a t = (
  strncpy topic_name max_topic_length,
  ground (arith, lookup-register topic_id topic_id topic_name map h),
  c_string-strncpy topic_name max_topic_length t,
  c_string-strncpy_full topic_name max_topic_length t,
)
