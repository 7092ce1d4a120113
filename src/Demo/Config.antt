-- ===== src/Demo/Config.antt =====
-- The configuration of ictp/mqtt/mqtt-demo.c: its defaults, and the client id and the topics, which
-- are made from it.
pub mod Laws
use ts_it.Base.{
  ℕ, ◌*◌, ◌++◌, ltb, if◌then◌else◌, Bool, Option, none, some, List, [], ◌∷◌, length, take, drop,
  replicate, byte_at, codes, c_string, hex_digit, snprintf, ◌/◌, ◌%◌,
}
use ts_it.Demo.State.{Config, Demo, Platform, Call, periodic_timer, init, config_error}

abbrev pub buffer_size : ℕ
buffer_size = 24

-- `snprintf(buffer, BUFFER_SIZE, …)`, and whether the text fits.
abbrev pub construct : List ℕ → List ℕ → Bool × List ℕ
construct text buffer = (ltb (length text) buffer_size, snprintf buffer_size text buffer)

-- The string of an array that is printed by `%s`; `none` is a read behind the array.
unfoldable pub construct_pub_topic : Demo → Option (Bool × Demo)
construct_pub_topic d = elim (c_string d.conf.event_type_id) [
  | none ↦ none
  | some id ↦
      let (fits, buffer) = construct (codes "zolertia/evt/" ++ id) d.pub_topic in
      some (fits, record d { pub_topic = buffer })
]

unfoldable pub construct_sub_topic : Demo → Option (Bool × Demo)
construct_sub_topic d = elim (c_string d.conf.cmd_type) [
  | none ↦ none
  | some cmd ↦
      let (fits, buffer) = construct (codes "zolertia/cmd/" ++ cmd) d.sub_topic in
      some (fits, record d { sub_topic = buffer })
]

-- `%02x` of a byte.
abbrev pub hex_byte : ℕ → List ℕ
hex_byte b = hex_digit (b / 16) ∷ hex_digit (b % 16) ∷ []

-- The text of the client id, from `linkaddr_node_addr`.
abbrev pub client_id_text : List ℕ → List ℕ
client_id_text addr =
    codes "d:"
    ++ (hex_byte (byte_at addr 0)
        ++ (hex_byte (byte_at addr 1)
            ++ (hex_byte (byte_at addr 2)
                ++ (hex_byte (byte_at addr 5)
                    ++ (hex_byte (byte_at addr 6) ++ hex_byte (byte_at addr 7))))))

unfoldable pub construct_client_id : List ℕ → Demo → Bool × Demo
construct_client_id addr d =
    let (fits, buffer) = construct (client_id_text addr) d.client_id in
    (fits, record d { client_id = buffer })

abbrev configuration_fails : Demo → Demo
configuration_fails d = record d { state = config_error }

-- The end of update_config, where all texts fit.
abbrev pub configured : Demo → Demo
configured d = record d { seq_nr_value = 0; state = init; calls = periodic_timer 0 ∷ d.calls }

unfoldable pub update_config : List ℕ → Demo → Option Demo
unfolding construct_client_id construct_sub_topic construct_pub_topic
update_config addr d =
    let (id_fits, d1) = construct_client_id addr d in
    if id_fits
    then elim (construct_sub_topic d1) [
      | none ↦ none
      | some (sub_fits, d2) ↦
          if sub_fits
          then elim (construct_pub_topic d2) [
            | none ↦ none
            | some (pub_fits, d3) ↦
                if pub_fits then some (configured d3) else some (configuration_fails d3)
          ]
          else some (configuration_fails d2)
    ]
    else some (configuration_fails d1)

-- `memcpy` of bytes to the start of an array of zeros.
abbrev pub zeroed_with : ℕ → List ℕ → List ℕ
zeroed_with size bytes = bytes ++ drop (length bytes) (replicate size 0)

-- Of the default command type, "leds", one byte is copied.
unfoldable pub init_config : Platform → Demo → Demo
init_config os d = record d {
  conf = record {
    event_type_id = zeroed_with 32 (codes "status");
    broker_ip = zeroed_with 64 (codes "aaaa::1");
    cmd_type = zeroed_with 8 (take 1 (codes "leds"));
    pub_interval = os.ticks (45 * os.second);
    broker_port = 1883;
  };
}
