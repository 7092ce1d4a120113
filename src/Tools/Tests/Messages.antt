-- ===== src/Tools/Tests/Messages.antt =====
-- The theorems about the messages of mqtt-sn-tools/mqtt-sn.c, sent and answered, at concrete clients
-- and packets.
use ts_it.Base.{ℕ, ◌-◌, ◌<◌, ◌≤◌, ◌≡◌, refl, List, length, take, replicate, codes}
use ts_it.Tools.State.{ok, exit, fault, start}
use ts_it.Tools.Wire.{Message}
use ts_it.Tools.Frame.Laws.{after_send}
use ts_it.Tools.Send.{send_register, send_subscribe_topic_name}
use ts_it.Tools.Send.Laws.{next_id, Sends, send_register-encode}
use ts_it.Tools.Send.Flags.{send_subscribe_overlong, subscribe_packet}
use ts_it.Tools.Tests.{silent, wrapping, wrapping-HasNodeId}

send_register-encode_example :
    (2 ≤ 249
      → Sends silent
          (Message.register 0 1 (codes "ab"))
          (next_id wrapping)
          (send_register silent (codes "ab") wrapping))
    × (249 < 2 → send_register silent (codes "ab") wrapping ≡ exit 1 wrapping)
send_register-encode_example = send_register-encode silent wrapping wrapping-HasNodeId (codes "ab")

-- A topic name of 251 bytes.
abbrev overlong : List ℕ
overlong = replicate 251 97

send_subscribe_overlong_example :
    (251 ≤ length overlong
      → length overlong < 504
      → send_subscribe_topic_name silent overlong 0 start
        ≡ ok tt (
            after_send silent
              (take (length overlong - 251) (subscribe_packet overlong 0 1))
              (next_id start)))
    × (length overlong ≡ 250 → send_subscribe_topic_name silent overlong 0 start ≡ fault)
send_subscribe_overlong_example = send_subscribe_overlong silent overlong 0 start refl
