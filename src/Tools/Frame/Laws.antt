-- ===== src/Tools/Frame/Laws.antt =====
-- What mqtt_sn_send_packet of mqtt-sn-tools/mqtt-sn.c puts on the wire.
use ts_it.Base.{
  ℕ, ◌+◌, ◌≤◌, ◌<◌, ◌≡◌, refl, ap, ◌∙◌, false, Option, none, some, List, ◌∷◌, arith, ◌==◌,
  if◌then◌else◌, length, take, byte_at, take-length,
}
use ts_it.Protocol.{max_wireless_node_id_length}
use ts_it.Tools.Wire.{wrap}
use ts_it.Tools.State.{Client, Env, ok, fault, time_now, bind-ok, Post}
use ts_it.Tools.Frame.{
  node_id_bytes, create_frwdencap_packet, transmit, send_frwdencap_packet, send_packet,
}

-- The client after a datagram has gone out.
abbrev pub after_send : Env → List ℕ → Client → Client
after_send env bytes c = record c {
  sent = bytes ∷ c.sent;
  last_transmit = env.time c.moment;
  moment = c.moment + 1;
}

-- The wireless node id of the forwarder header, from the digits of the pid and the parameters set.
abbrev pub id_of : List ℕ → Option (List ℕ) → ℕ → List ℕ
id_of pid none len = take 250 pid
id_of pid (some id) len = if len == 0 then take 250 pid else take len id

abbrev pub node_id : Env → Client → List ℕ
node_id env c = id_of env.pid_hex c.wireless_node_id c.wireless_node_id_len

-- The length of the node id is allowed, and its array is that long.
abbrev pub IsNodeId : Option (List ℕ) → ℕ → Type 0
IsNodeId id len =
    (len ≤ max_wireless_node_id_length) × ((bytes : List ℕ) → id ≡ some bytes → len ≤ length bytes)

-- So it is with the parameters that are set.
abbrev pub HasNodeId : Client → Type 0
HasNodeId c = IsNodeId c.wireless_node_id c.wireless_node_id_len

-- The datagram for a packet: wrapped where the forwarder encapsulation is on.
abbrev pub on_wire : Env → Client → List ℕ → List ℕ
on_wire env c packet = if c.forwarder_encapsulation then wrap (node_id env c) packet else packet

pub transmit-ok :
    (env : Env) (packet : List ℕ) (n : ℕ) (c : Client)
    → n ≤ length packet
    → transmit env packet n c ≡ ok tt (after_send env (take n packet) c)
unfolding transmit time_now
transmit-ok env packet n c h = ground arith

node_id_bytes-ok :
    (env : Env) (id : Option (List ℕ)) (n : ℕ) (c : Client)
    → IsNodeId id n
    → node_id_bytes env id n c ≡ ok (id_of env.pid_hex id n) c
unfolding node_id_bytes
node_id_bytes-ok env none n c h = refl
node_id_bytes-ok env (some id) n c h = ground (arith, h.1 id refl)

module _ (env : Env) (packet : List ℕ) (id : Option (List ℕ)) (len : ℕ) (c : Client)
    (h : IsNodeId id len) (fits : byte_at packet 0 ≤ length packet) where
  -- The packet behind a header with the node id.
  abbrev pub enclosed : List ℕ
  enclosed = wrap (id_of env.pid_hex id len) (take (byte_at packet 0) packet)

  create-ok : create_frwdencap_packet env packet id len c ≡ ok enclosed c
  unfolding create_frwdencap_packet
  create-ok = ground (arith, node_id_bytes-ok env id len c h, h.0)

  pub send_frwdencap-ok :
      send_frwdencap_packet env packet id len c ≡ ok tt (after_send env enclosed c)
  unfolding send_frwdencap_packet
  send_frwdencap-ok =
      let send = λ (t : List ℕ). transmit env t (length t) in
      bind-ok (create_frwdencap_packet env packet id len) send create-ok
      ∙ transmit-ok env enclosed (length enclosed) c (omega arith)
      ∙ ap (λ t. ok tt (after_send env t c)) (take-length (length enclosed) enclosed (omega arith))

module _ (env : Env) (packet : List ℕ) (c : Client) (h : HasNodeId c)
    (fits : byte_at packet 0 ≤ length packet) where
  abbrev prefix : List ℕ
  prefix = take (byte_at packet 0) packet

  -- A packet whose length byte counts no more than its bytes goes out as one datagram, cut to that
  -- length, and wrapped if the forwarder encapsulation is on.
  pub send_packet-ok : send_packet env packet c ≡ ok tt (after_send env (on_wire env c prefix) c)
  unfolding send_packet
  send_packet-ok = ground (
    arith,
    send_frwdencap-ok env packet c.wireless_node_id c.wireless_node_id_len c h fits,
    transmit-ok env packet (byte_at packet 0) c fits,
  )

-- What a transmission leaves alone.
pub record Kept (c d : Client) : Type 0 where
  pub buffer : d.buffer ≡ c.buffer
  pub topic_map : d.topic_map ≡ c.topic_map
  pub keep_alive : d.keep_alive ≡ c.keep_alive
  pub last_receive : d.last_receive ≡ c.last_receive
  pub next_message_id : d.next_message_id ≡ c.next_message_id

-- `send_packet`, however it goes, changes none of these.
pub send_packet-Kept :
    (env : Env) (packet : List ℕ) (c : Client) → Post (λ _ d. Kept c d) (send_packet env packet c)
unfolding send_packet send_frwdencap_packet create_frwdencap_packet node_id_bytes transmit time_now
send_packet-Kept env packet c = ground arith

-- A length byte beyond the packet's bytes makes `send` read past them.
pub send_packet-overrun :
    (env : Env) (packet : List ℕ) (c : Client)
    → c.forwarder_encapsulation ≡ false
    → length packet < byte_at packet 0
    → send_packet env packet c ≡ fault
unfolding send_packet transmit
send_packet-overrun env packet c off over = ground arith

-- Without the encapsulation the packet goes out as it is, cut to the length it states.
pub send_packet-plain :
    (env : Env) (packet : List ℕ) (c : Client)
    → c.forwarder_encapsulation ≡ false
    → byte_at packet 0 ≤ length packet
    → send_packet env packet c ≡ ok tt (after_send env (take (byte_at packet 0) packet) c)
unfolding send_packet
send_packet-plain env packet c off fits =
    ground (arith, transmit-ok env packet (byte_at packet 0) c fits)
