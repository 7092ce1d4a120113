-- ===== src/Tools/Receive/Plain.antt =====
-- A receive of a datagram that is a packet of its own, with no forwarder encapsulation.
use ts_it.Base.{
  ℕ, suc, ◌+◌, ◌≡◌, ◌≢◌, ap, ◌∙◌, false, true, some, none, List, ◌∷◌, ◌++◌, arith, length, drop,
  set, All, IsByte, ◌≤◌, length-append, length-set, length-drop, All-append, All-set, All-drop,
}
use ts_it.Protocol.MessageType
use ts_it.Tools.State.{Client, Env, datagram, ok, recv_now, bind-ok, buffer_size}
use ts_it.Tools.Receive.{
  validate_packet, validate_type, has_length, locate, handle, accept, receive_frwdencap_packet,
  receive_packet,
}
use ts_it.Tools.Receive.Valid.{is_valid}
use ts_it.Tools.Receive.Bounds.{IsBuffer, accept-short}

-- A datagram and its terminator, read into the buffer, leave its size and that it holds bytes.
pub ended-IsBuffer :
    (bytes buffer : List ℕ)
    → All IsByte bytes
    → length bytes ≤ buffer_size
    → IsBuffer buffer
    → IsBuffer (bytes ++ set (drop (length bytes) buffer) 0 0)
ended-IsBuffer bytes buffer given fits b = record {
  size =
      length-append bytes (set (drop (length bytes) buffer) 0 0)
      ∙ omega (
        arith,
        length-set (drop (length bytes) buffer) 0 0,
        length-drop (length bytes) buffer,
        b.size,
        fits,
      );
  bytes = All-append IsByte bytes _ given (
      All-set IsByte (drop (length bytes) buffer) 0 0
        (All-drop IsByte (length bytes) buffer b.bytes) (omega arith));
}

module _ (t : ℕ) (rest : List ℕ) (plain : t ≢ MessageType.frwdencap) where
  -- The packet behind its length byte.
  abbrev pub packet : List ℕ
  packet = suc (suc (length rest)) ∷ t ∷ rest

  -- The buffer once the packet is in it.
  abbrev pub holding : List ℕ → List ℕ
  holding buffer = packet ++ set (drop (length packet) buffer) 0 0

  pub validate-plain : (tail : List ℕ) → is_valid false (packet ++ tail) (length packet) ≡ true
  unfolding is_valid
  validate-plain tail = ground arith

  pub validate_packet-plain :
      (tail : List ℕ) → validate_packet false (packet ++ tail) (length packet) ≡ some true
  unfolding validate_packet validate_type has_length
  validate_packet-plain tail = ground arith

  locate-plain :
      (tail : List ℕ)
      → locate (packet ++ tail)
        ≡ record { packet = packet ++ tail; wireless_node_id = none; wireless_node_id_len = 0 }
  unfolding locate
  locate-plain tail = ground arith

  accept-plain :
      (env : Env) (d : Client)
      → All IsByte packet
      → IsBuffer d.buffer
      → d.forwarder_encapsulation ≡ false
      → accept env packet d
        ≡ ok
            (some (record {
              packet = holding d.buffer;
              wireless_node_id = none;
              wireless_node_id_len = 0;
            }))
            (record d {
              buffer = holding d.buffer;
              last_receive = env.time d.moment;
              moment = d.moment + 1;
            })
  accept-plain env d bytes b off =
      accept-short env packet d bytes b (omega (arith, bytes.0))
        (rw (off) (validate-plain (drop (length packet) d.buffer)))
      ∙ rw (locate-plain (set (drop (length packet) d.buffer) 0 0))

  -- The client that has received the packet.
  abbrev pub received : Env → Client → Client
  received env c = record c {
    buffer = holding c.buffer;
    last_receive = env.time (c.moment + 1);
    moment = c.moment + 1 + 1;
  }

  -- Where the next datagram is a packet of the stated length, and no forwarder encapsulation is
  -- required, the packet is received.
  pub receive_packet-plain :
      (env : Env) (c : Client)
      → All IsByte packet
      → IsBuffer c.buffer
      → c.forwarder_encapsulation ≡ false
      → env.recvfrom c.moment ≡ datagram packet
      → receive_packet env c ≡ ok (some (holding c.buffer)) (received env c)
  unfolding receive_packet receive_frwdencap_packet recv_now handle
  receive_packet-plain env c bytes b off arrives =
      let next = record c { moment = c.moment + 1 } in
      bind-ok (receive_frwdencap_packet env) _
        (ap (λ r. handle env r next) arrives ∙ accept-plain env next bytes b off)

  -- The buffer keeps its size, and that it holds bytes.
  pub holding-IsBuffer :
      (buffer : List ℕ)
      → All IsByte packet
      → length packet ≤ buffer_size
      → IsBuffer buffer
      → IsBuffer (holding buffer)
  holding-IsBuffer = ended-IsBuffer packet
