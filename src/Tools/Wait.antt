-- ===== src/Tools/Wait.antt =====
-- Waiting in mqtt-sn-tools/mqtt-sn.c: mqtt_sn_select, mqtt_sn_wait_for and the receivers of an
-- expected packet. The loop of mqtt_sn_wait_for takes fuel, a round for each unit.
pub mod Returns
pub mod Silence
pub mod Answer
pub mod Published
use ts_it.Base.{
  ℕ, zero, suc, ◌+◌, ◌*◌, Bool, not, ◌&&◌, Option, none, some, List, ◌==◌, ltb, leb, if◌then◌else◌,
  byte_at, ntohs_at,
}
use ts_it.Protocol.MessageType
use ts_it.Tools.State.{
  Client, Env, Select, ready, timed_out, interrupted, failed, M, out_of_fuel, ◌>>=◌, ◌>>◌, pure,
  get, exit_with, exit_failure, time_now, select_now,
}
use ts_it.Tools.Send.{send_pingreq}
use ts_it.Tools.Receive.{receive_packet}
use ts_it.Tools.Publish.{print_publish_packet, fwd_dtn_packet, process_register}

-- A PUBLISH is printed and, where that is on, forwarded.
pub handle_publish : Env → List ℕ → M (Unit {0})
handle_publish env packet = do
  print_publish_packet env packet
  c ← get
  if c.forwarder_dtn then fwd_dtn_packet env packet else pure tt

-- The `switch` on the type of a packet, while one of type `type` is waited for.
pub handle_packet : Env → ℕ → List ℕ → M (Unit {0})
unfolding handle_publish
handle_packet env type packet =
    if byte_at packet 1 == MessageType.publish
    then handle_publish env packet
    else if byte_at packet 1 == MessageType.register
    then process_register env packet
    else if byte_at packet 1 == MessageType.disconnect
    then (if type == MessageType.disconnect then pure tt else exit_with exit_failure)
    else pure tt

-- What one round of the loop ends with.
pub data Round : Type 0 where
  found : List ℕ → Round
  stopped again : Round

-- The ping that is due after a keep alive time without a transmission.
pub ping : Env → ℕ → M (Unit {0})
ping env now = do
  c ← get
  if ltb 0 c.keep_alive && leb (c.keep_alive + c.last_transmit) now
      then send_pingreq env
      else pure tt

-- The test at the end of a round: `keep_alive * 1.5` seconds without a packet.
pub check_alive : ℕ → M Round
check_alive now = do
  c ← get
  if ltb 0 c.keep_alive && leb (3 * c.keep_alive + 2 * c.last_receive) (2 * now)
      then exit_with exit_failure
      else pure again

-- A datagram has been read.
pub take_packet : Env → ℕ → ℕ → Option (List ℕ) → M Round
unfolding handle_packet check_alive
take_packet env type now none = check_alive now
take_packet env type now (some packet) = do
  handle_packet env type packet
  if byte_at packet 1 == type then pure (found packet) else check_alive now

-- `select` has returned; an error that is no EINTR exits in mqtt_sn_select.
pub after_select : Env → ℕ → ℕ → Select → M Round
unfolding take_packet check_alive
after_select env type now ready = receive_packet env >>= take_packet env type now
after_select env type now timed_out = check_alive now
after_select env type now interrupted = pure stopped
after_select env type now failed = exit_with exit_failure

pub round : Env → ℕ → M Round
round env type = do
  now ← time_now env
  ping env now
  r ← select_now env
  after_select env type now r

pub wait_for : Env → ℕ → ℕ → M (Option (List ℕ))
wait_for env type zero = λ c. out_of_fuel
wait_for env type (suc fuel) = do
  r ← round env type
  elim r [
    | found packet ↦ pure (some packet)
    | stopped ↦ pure none
    | again ↦ wait_for env type fuel
  ]
