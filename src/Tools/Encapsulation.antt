-- ===== src/Tools/Encapsulation.antt =====
-- The forwarder encapsulation of mqtt-sn-tools/mqtt-sn.c end to end: what mqtt_sn_send_packet wraps,
-- mqtt_sn_receive_frwdencap_packet unwraps.
use ts_it.Base.{
  ℕ, ◌+◌, ◌≤◌, ◌≡◌, refl, ◌∙◌, ap, true, Option, none, some, List, ◌∷◌, ◌++◌, arith, length, take,
  All, IsByte, All-append, take-length, take-append_length, length-take, if◌then◌else◌, ◌==◌,
  Bool-cases, inl, inr,
}
use ts_it.Protocol.{max_wireless_node_id_length}
use ts_it.Tools.Wire.{wrap}
use ts_it.Tools.State.{Client, Env, ok}
use ts_it.Tools.Frame.{send_packet}
use ts_it.Tools.Frame.Laws.{HasNodeId, node_id, id_of, on_wire, after_send, send_packet-ok}
use ts_it.Tools.Receive.{Incoming, accept}
use ts_it.Tools.Receive.Bounds.{IsBuffer}
use ts_it.Tools.Receive.Unwrap.{accept-wrap, behind}

length-id_of :
    (pid : List ℕ) (id : Option (List ℕ)) (n : ℕ)
    → n ≤ max_wireless_node_id_length
    → length (id_of pid id n) ≤ 252
length-id_of pid none n h = omega (arith, length-take 250 pid)
length-id_of pid (some id) n h = elim (Bool-cases (n == 0)) [
  | inl e ↦ rw e (omega (arith, length-take 250 pid))
  | inr e ↦ rw e (omega (arith, length-take n id))
]

-- What `i` shows of a wrapped packet: the packet from its first byte on, and the node id.
pub record Unwraps (id packet : List ℕ) (i : Incoming) : Type 0 where
  pub node : List ℕ
  pub node_is : i.wireless_node_id ≡ some node
  pub same_packet : take (length packet) i.packet ≡ packet
  pub same_length : i.wireless_node_id_len ≡ length id
  pub same_id : take (length id) node ≡ id

-- With the forwarder encapsulation on and a wireless node id of bytes that fits its field, a
-- packet of bytes that states its own length goes out as one datagram, and a client that receives
-- that datagram into a sound buffer gets the packet and the sender's node id back, also where it
-- does not require the encapsulation.
pub accept-send_packet :
    (env there : Env) (n : ℕ) (rest : List ℕ) (c d : Client)
    → c.forwarder_encapsulation ≡ true
    → HasNodeId c
    → length rest + 1 ≡ n
    → All IsByte (n ∷ rest)
    → All IsByte (node_id env c)
    → IsBuffer d.buffer
    → (datagram : List ℕ) × (after : Client) × (i : Incoming) × (d' : Client) × (send_packet env
          (n ∷ rest)
          c
        ≡ ok tt after)
      × (after.sent ≡ datagram ∷ c.sent)
      × (accept there datagram d ≡ ok (some i) d')
      × Unwraps (node_id env c) (n ∷ rest) i
accept-send_packet env there n rest c d on h counts bytes id_bytes b =
    let id = node_id env c in
    let short = length-id_of env.pid_hex c.wireless_node_id c.wireless_node_id_len h.0 in
    let packet = n ∷ rest in
    let tail = behind id n rest short counts bytes.0 d.buffer in
    let i : Incoming = record {
      packet = packet ++ tail;
      wireless_node_id = some (id ++ (packet ++ tail));
      wireless_node_id_len = length id;
    } in
    let sends = send_packet-ok env packet c h (omega arith) in
    let cut = take-length n packet (omega arith) in
    let wrapped : on_wire env c (take n packet) ≡ wrap id packet =
      ap (λ t. if t then wrap id (take n packet) else take n packet) on ∙ ap (wrap id) cut in
    (
      wrap id packet,
      after_send env (wrap id packet) c,
      i,
      record d {
        buffer = wrap id packet ++ tail;
        last_receive = there.time d.moment;
        moment = d.moment + 1;
      },
      sends ∙ ap (λ t. ok tt (after_send env t c)) wrapped,
      refl,
      accept-wrap id n rest short counts bytes.0 there d
          (omega arith, (omega arith, (omega arith, All-append IsByte id packet id_bytes bytes))) b,
      record {
        node = id ++ (packet ++ tail);
        node_is = refl;
        same_packet = take-append_length (length packet) packet tail refl;
        same_length = refl;
        same_id = take-append_length (length id) id (packet ++ tail) refl;
      },
    )
