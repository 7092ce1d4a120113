-- ===== src/Tools/Frame.antt =====
-- Sending in mqtt-sn-tools/mqtt-sn.c: mqtt_sn_send_packet, mqtt_sn_send_frwdencap_packet and
-- mqtt_sn_create_frwdencap_packet, and the setters of the forwarder encapsulation.
-- A packet is the memory of its struct, as a list of bytes.
pub mod Laws
use ts_it.Base.{
  ℕ, ◌+◌, Bool, true, false, ◌||◌, Option, none, some, List, [], ◌∷◌, ◌++◌, ◌==◌, ltb,
  if◌then◌else◌, length, take, byte_at, u8,
}
use ts_it.Protocol.{max_wireless_node_id_length}
use ts_it.Protocol.MessageType
use ts_it.Tools.State.{
  Client, Env, M, ◌>>=◌, ◌>>◌, pure, get, modify, exit_with, undefined, exit_failure, time_now,
}

-- `memcpy` from an array: a read past its end is undefined.
abbrev pub memcpy : List ℕ → ℕ → M (List ℕ)
memcpy source n = if ltb (length source) n then undefined else pure (take n source)

-- The bytes of the wireless node id and their number: those given, or the digits of the pid.
pub node_id_bytes : Env → Option (List ℕ) → ℕ → M (List ℕ)
node_id_bytes env none len = pure (take 250 env.pid_hex)
node_id_bytes env (some id) len = if len == 0 then pure (take 250 env.pid_hex) else memcpy id len

-- The wrapped packet; its length, which the source stores through `len`, is the list's.
pub create_frwdencap_packet : Env → List ℕ → Option (List ℕ) → ℕ → M (List ℕ)
unfolding node_id_bytes
create_frwdencap_packet env packet id len =
    if ltb max_wireless_node_id_length len then exit_with exit_failure else do
      id' ← node_id_bytes env id len
      inner ← memcpy packet (byte_at packet 0)
      pure (u8 (length id' + 3) ∷ MessageType.frwdencap ∷ 0 ∷ (id' ++ inner))

-- `send` of `len` bytes, and the time of it.
pub transmit : Env → List ℕ → ℕ → M (Unit {0})
unfolding time_now
transmit env packet len = do
  bytes ← memcpy packet len
  modify (λ c. record c { sent = bytes ∷ c.sent })
  now ← time_now env
  modify (λ c. record c { last_transmit = now })

pub send_frwdencap_packet : Env → List ℕ → Option (List ℕ) → ℕ → M (Unit {0})
unfolding create_frwdencap_packet transmit
send_frwdencap_packet env packet id len = do
  wrapped ← create_frwdencap_packet env packet id len
  transmit env wrapped (length wrapped)

-- The first byte of the packet is its length.
pub send_packet : Env → List ℕ → M (Unit {0})
unfolding send_frwdencap_packet transmit
send_packet env packet = do
  c ← get
  if c.forwarder_encapsulation
      then send_frwdencap_packet env packet c.wireless_node_id c.wireless_node_id_len
      else transmit env packet (byte_at packet 0)

unfoldable pub enable_frwdencap : M (Unit {0})
enable_frwdencap = modify (λ c. record c { forwarder_encapsulation = true })

unfoldable pub disable_frwdencap : M (Unit {0})
disable_frwdencap = modify (λ c. record c { forwarder_encapsulation = false })

unfoldable pub set_frwdencap_parameters : Option (List ℕ) → ℕ → M (Unit {0})
set_frwdencap_parameters id len =
    modify (λ c. record c { wireless_node_id = id; wireless_node_id_len = len })
