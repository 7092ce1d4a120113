-- ===== src/Udp/Server.antt =====
-- ictp/udp/UDPServer.py: what the server takes a datagram for.
use ts_it.Base.{
  ℕ, ◌+◌, ◌*◌, ltb, if◌then◌else◌, Option, none, some, List, [], ◌++◌, length, byte_at, codes,
  decimal_digits,
}

-- The class SENSOR; a `c_int16` is its 16 bits.
pub record Sensor : Type 0 where
  pub id : ℕ
  pub counter : ℕ
  pub temperature : ℕ
  pub x_axis : ℕ
  pub y_axis : ℕ
  pub z_axis : ℕ
  pub battery : ℕ

-- A field of a structure of ctypes, on a machine that has the low byte first.
abbrev pub field_at : List ℕ → ℕ → ℕ
field_at data' i = byte_at data' i + byte_at data' (i + 1) * 256

-- `from_buffer_copy` of a packed structure of 13 bytes: a shorter datagram raises an exception,
-- which ends the server.
unfoldable pub sensor : List ℕ → Option Sensor
sensor data' =
    if ltb (length data') 13
    then none
    else some (record {
      id = byte_at data' 0;
      counter = field_at data' 1;
      temperature = field_at data' 3;
      x_axis = field_at data' 5;
      y_axis = field_at data' 7;
      z_axis = field_at data' 9;
      battery = field_at data' 11;
    })

-- The topic of publish_recv_data.
abbrev pub reading_topic : Sensor → List ℕ
reading_topic s = codes "v2/zolertia/tutorialthings/" ++ decimal_digits 3 s.id []
