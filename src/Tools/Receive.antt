-- ===== src/Tools/Receive.antt =====
-- Receiving in mqtt-sn-tools/mqtt-sn.c: mqtt_sn_validate_packet, mqtt_sn_receive_frwdencap_packet
-- and mqtt_sn_receive_packet. The buffer is a static variable: what an earlier datagram left behind
-- the last one stays readable.
pub mod Valid
pub mod Bounds
pub mod Delivery
pub mod Unwrap
pub mod Plain
use ts_it.Base.{
  ℕ, ◌+◌, ◌-◌, Bool, true, false, not, ◌&&◌, ◌||◌, Option, none, some, List, ◌++◌, ◌==◌, leb,
  if◌then◌else◌, length, take, drop, set, byte_at, get_elem?, u8,
}
use ts_it.Protocol.MessageType
use ts_it.Tools.State.{
  Client, Env, Received, datagram, again, failed, M, ◌>>=◌, ◌>>◌, pure, get, modify, exit_with,
  undefined, exit_failure, time_now, recv_now, buffer_size,
}

-- `buf[1] == MQTT_SN_TYPE_FRWDENCAP ? buf[0] + buf[buf[0]] == length : buf[0] == length`
unfoldable pub has_length : List ℕ → ℕ → ℕ → ℕ → Option Bool
has_length packet first kind n =
    if kind == MessageType.frwdencap
    then elim (get_elem? packet first) [ none ↦ none | some inner ↦ some (first + inner == n) ]
    else some (first == n)

-- Behind the tests of the length byte.
unfoldable pub validate_type : Bool → List ℕ → ℕ → ℕ → Option Bool
unfolding has_length
validate_type forwarder packet first n = elim (get_elem? packet 1) [
  | none ↦ none
  | some kind ↦
      if forwarder && not (kind == MessageType.frwdencap)
      then some false
      else has_length packet first kind n
]

-- `packet` is the buffer, of which a datagram of `length` bytes has been read; none for a read
-- outside the buffer.
unfoldable pub validate_packet : Bool → List ℕ → ℕ → Option Bool
unfolding validate_type
validate_packet forwarder packet n = elim (get_elem? packet 0) [
  | none ↦ none
  | some first ↦
      if first == 0x00
      then some false
      else if first == 0x01
      then some false
      else validate_type forwarder packet first n
]

-- `recvfrom` into the buffer: a longer datagram is cut.
unfoldable pub fill : List ℕ → List ℕ → List ℕ
fill bytes buffer = take buffer_size bytes ++ drop (length (take buffer_size bytes)) buffer

-- The returned packet is the buffer from the packet's first byte on, and so is the node id.
pub record Incoming : Type 0 where
  pub packet : List ℕ
  pub wireless_node_id : Option (List ℕ)
  pub wireless_node_id_len : ℕ

-- Where the packet starts, and the wireless node id before it.
pub locate : List ℕ → Incoming
locate buffer =
    if byte_at buffer 1 == MessageType.frwdencap
    then record {
      packet = drop (byte_at buffer 0) buffer;
      wireless_node_id = some (drop 3 buffer);
      wireless_node_id_len = u8 (byte_at buffer 0 + 256 - 3);
    }
    else record { packet = buffer; wireless_node_id = none; wireless_node_id_len = 0 }

-- The terminator behind the datagram.
pub terminate : List ℕ → ℕ → M (List ℕ)
terminate buffer n = if leb buffer_size n then undefined else pure (set buffer n 0)

-- A valid datagram of `n` bytes is in the buffer.
deliver : Env → ℕ → M (Option Incoming)
unfolding locate terminate time_now
deliver env n = do
  c ← get
  buffer ← terminate c.buffer n
  modify (λ d. record d { buffer = buffer })
  now ← time_now env
  modify (λ d. record d { last_receive = now })
  pure (some (locate buffer))

-- What the validity of the datagram leads to.
pub when_valid : Env → ℕ → Option Bool → M (Option Incoming)
unfolding deliver
when_valid env n none = undefined
when_valid env n (some true) = deliver env n
when_valid env n (some false) = pure none

-- The datagram has been read; none is returned for one that is not valid.
pub accept : Env → List ℕ → M (Option Incoming)
unfolding validate_packet fill when_valid
accept env bytes = do
  modify (λ c. record c { buffer = fill bytes c.buffer })
  c ← get
  let n = length (take buffer_size bytes)
  when_valid env n (validate_packet c.forwarder_encapsulation c.buffer n)

-- What `recvfrom` returned.
pub handle : Env → Received → M (Option Incoming)
unfolding accept
handle env (datagram bytes) = accept env bytes
handle env again = pure none
handle env failed = exit_with exit_failure

pub receive_frwdencap_packet : Env → M (Option Incoming)
unfolding handle recv_now
receive_frwdencap_packet env = do r ← recv_now env; handle env r

-- The node id is dropped.
pub receive_packet : Env → M (Option (List ℕ))
unfolding receive_frwdencap_packet
receive_packet env = do
  r ← receive_frwdencap_packet env
  pure (elim r [ none ↦ none | some incoming ↦ some incoming.packet ])
