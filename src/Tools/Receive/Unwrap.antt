-- ===== src/Tools/Receive/Unwrap.antt =====
-- What a receive makes of a datagram that wraps a packet behind a forwarder encapsulation header.
use ts_it.Base.{
  ℕ, ◌+◌, ◌-◌, ◌≤◌, ◌<◌, ◌≡◌, ap, ◌∙◌, true, some, List, ◌∷◌, ◌++◌, arith, length, drop, set, u8,
  drop-append_length, get_or-append_length, length-append, All, IsByte,
}
use mathlib.Core.List.{append_assoc}
use ts_it.Protocol.MessageType
use ts_it.Tools.Wire.{wrap}
use ts_it.Tools.State.{Client, Env, datagram, ok, recv_now, bind-ok}
use ts_it.Tools.Receive.{locate, handle, accept, receive_frwdencap_packet, receive_packet}
use ts_it.Tools.Receive.Valid.{is_valid}
use ts_it.Tools.Receive.Bounds.{IsBuffer, accept-short}

module _ (id : List ℕ) (n : ℕ) (rest : List ℕ) (short : length id ≤ 252)
    (counts : length rest + 1 ≡ n) (byte : n < 256) where
  abbrev inner : List ℕ
  inner = n ∷ rest

  abbrev header : List ℕ
  header = u8 (length id + 3) ∷ MessageType.frwdencap ∷ 0 ∷ id

  pub length-wrap : length (wrap id inner) ≡ length id + 3 + n
  length-wrap = omega (arith, length-append id inner)

  regroup : (tail : List ℕ) → wrap id inner ++ tail ≡ header ++ (n ∷ (rest ++ tail))
  regroup tail =
      ap (λ t. u8 (length id + 3) ∷ MessageType.frwdencap ∷ 0 ∷ t) (append_assoc id inner tail)

  validate-wrap :
      (forwarder : _) (tail : List ℕ)
      → is_valid forwarder (wrap id inner ++ tail) (length id + 3 + n) ≡ true
  unfolding is_valid
  validate-wrap forwarder tail =
      rw (regroup tail)
        (ground (arith, get_or-append_length header n (rest ++ tail) (length id + 3) 0))

  locate-wrap :
      (tail : List ℕ)
      → locate (wrap id inner ++ tail) ≡ record {
        packet = inner ++ tail;
        wireless_node_id = some (id ++ (inner ++ tail));
        wireless_node_id_len = length id;
      }
  unfolding locate
  locate-wrap tail =
      let p : drop (u8 (length id + 3)) (header ++ (inner ++ tail)) ≡ inner ++ tail =
        drop-append_length (u8 (length id + 3)) header (inner ++ tail) (omega arith) in
      let q : u8 (u8 (length id + 3) + 256 - 3) ≡ length id = omega arith in
      rw (regroup tail) (λ i. record {
        packet = p i;
        wireless_node_id = some (id ++ (inner ++ tail));
        wireless_node_id_len = q i;
      })

  -- The buffer behind the wrapped packet, with the terminator.
  abbrev pub behind : List ℕ → List ℕ
  behind buffer = set (drop (length (wrap id inner)) buffer) 0 0

  -- A packet behind a forwarder header is delivered, with the node id of the header: the bytes from
  -- the delivered pointers on are the packet's, and those of the node id.
  pub accept-wrap :
      (env : Env) (c : Client)
      → All IsByte (wrap id inner)
      → IsBuffer c.buffer
      → accept env (wrap id inner) c
        ≡ ok
            (some (record {
              packet = inner ++ behind c.buffer;
              wireless_node_id = some (id ++ (inner ++ behind c.buffer));
              wireless_node_id_len = length id;
            }))
            (record c {
              buffer = wrap id inner ++ behind c.buffer;
              last_receive = env.time c.moment;
              moment = c.moment + 1;
            })
  accept-wrap env c given buffer =
      accept-short env (wrap id inner) c given buffer (omega (arith, length-wrap)) (
        rw length-wrap
          (validate-wrap c.forwarder_encapsulation (drop (length (wrap id inner)) c.buffer)))
      ∙ rw (locate-wrap (behind c.buffer))

  -- The client after the datagram has been received.
  abbrev pub unwrapped : Env → Client → Client
  unwrapped env c = record c {
    buffer = wrap id inner ++ behind c.buffer;
    last_receive = env.time (c.moment + 1);
    moment = c.moment + 1 + 1;
  }

  pub receive_packet-wrap :
      (env : Env) (c : Client)
      → All IsByte (wrap id inner)
      → IsBuffer c.buffer
      → env.recvfrom c.moment ≡ datagram (wrap id inner)
      → receive_packet env c ≡ ok (some (inner ++ behind c.buffer)) (unwrapped env c)
  unfolding receive_packet receive_frwdencap_packet recv_now handle
  receive_packet-wrap env c given b arrives =
      let next = record c { moment = c.moment + 1 } in
      bind-ok (receive_frwdencap_packet env) _
        (ap (λ r. handle env r next) arrives ∙ accept-wrap env next given b)
