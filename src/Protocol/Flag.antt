-- ===== src/Protocol/Flag.antt =====
-- The flag byte: `MQTT_SN_FLAG_...` and `MQTT_SN_TOPIC_TYPE_...` of the two mqtt-sn.h, and
-- mqtt_sn_get_qos_flag of the two mqtt-sn.c, which agree.
use ts_it.Base.{ℕ, ◌==◌, if◌then◌else◌}

abbrev pub qos_0 : ℕ
qos_0 = 0x0

abbrev pub qos_1 : ℕ
qos_1 = 0x20

abbrev pub qos_2 : ℕ
qos_2 = 0x40

abbrev pub qos_n1 : ℕ
qos_n1 = 0x60

abbrev pub retain : ℕ
retain = 0x10

abbrev pub clean : ℕ
clean = 0x4

abbrev pub topic_normal : ℕ
topic_normal = 0

abbrev pub topic_predefined : ℕ
topic_predefined = 1

abbrev pub topic_short : ℕ
topic_short = 2

-- `qos` is an `int8_t`, given by its bit pattern: 255 is -1.
unfoldable pub get_qos_flag : ℕ → ℕ
get_qos_flag qos =
    if qos == 255
    then qos_n1
    else if qos == 0
    then qos_0
    else if qos == 1
    then qos_1
    else if qos == 2
    then qos_2
    else 0
