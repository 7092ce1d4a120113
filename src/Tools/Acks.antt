-- ===== src/Tools/Acks.antt =====
-- The receivers of mqtt-sn-tools/mqtt-sn.c that wait for one answer of the gateway:
-- mqtt_sn_receive_disconnect, mqtt_sn_receive_connack, mqtt_sn_receive_regack and
-- mqtt_sn_receive_suback. A message id that does not match is only logged. `fuel` bounds the rounds
-- of mqtt_sn_wait_for.
pub mod Answers
use ts_it.Base.{ℕ, Option, none, some, List, ◌==◌, if◌then◌else◌, byte_at, ntohs_at}
use ts_it.Protocol.MessageType
use ts_it.Tools.State.{Client, Env, M, ◌>>=◌, ◌>>◌, pure, exit_with, exit_failure}
use ts_it.Tools.Receive.{receive_packet}
use ts_it.Tools.Wait.{wait_for}

-- The packet, or `exit(EXIT_FAILURE)` where there is none.
abbrev pub required : Option (List ℕ) → M (List ℕ)
required none = exit_with exit_failure
required (some packet) = pure packet

-- `exit(packet->return_code)` unless the code at offset `i` is 0.
abbrev pub accepted : ℕ → List ℕ → M (Unit {0})
accepted i packet = if byte_at packet i == 0 then pure tt else exit_with (byte_at packet i)

pub receive_disconnect : Env → ℕ → M (Unit {0})
receive_disconnect env fuel = do
  r ← wait_for env MessageType.disconnect fuel
  packet ← required r
  pure tt

pub receive_connack : Env → M (Unit {0})
receive_connack env = do
  r ← receive_packet env
  packet ← required r
  if byte_at packet 1 == MessageType.connack then accepted 2 packet else exit_with exit_failure

-- The topic id of the REGACK.
pub receive_regack : Env → ℕ → M ℕ
receive_regack env fuel = do
  r ← wait_for env MessageType.regack fuel
  packet ← required r
  accepted 6 packet
  pure (ntohs_at packet 2)

-- The topic id of the SUBACK, which has a byte of flags before it.
pub receive_suback : Env → ℕ → M ℕ
receive_suback env fuel = do
  r ← wait_for env MessageType.suback fuel
  packet ← required r
  accepted 7 packet
  pure (ntohs_at packet 3)
