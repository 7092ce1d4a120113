-- ===== src/Tools/Receive/Delivery.antt =====
-- What mqtt_sn_receive_packet of mqtt-sn-tools/mqtt-sn.c hands on, whatever arrives.
use ts_it.Base.{
  ℕ, ◌+◌, ◌≤◌, ◌≡◌, refl, false, true, Bool, ap, ◌∙◌, take, Option, none, some, List, length, arith,
  All, IsByte,
}
use mathlib.Core.Path.{subst}
use ts_it.Tools.State.{
  Client, Env, Run, ok, exit, Received, datagram, again, failed, buffer_size, bind-ok, time_now,
  recv_now, Post,
}
use ts_it.Tools.Outcome.{Ends, Ends-bind, Ends-Post}
use ts_it.Tools.Receive.{
  Incoming, validate_packet, when_valid, fill, terminate, deliver, accept, handle,
  receive_frwdencap_packet, receive_packet,
}
use ts_it.Tools.Receive.Valid.{is_valid}
use ts_it.Tools.Receive.Bounds.{IsBuffer, SendsBytes, EndsWell, receive-EndsWell, accept-invalid}

-- What a receive leaves alone.
pub record Unmoved (c d : Client) : Type 0 where
  pub topic_map : d.topic_map ≡ c.topic_map
  pub keep_alive : d.keep_alive ≡ c.keep_alive
  pub forwarder : d.forwarder_encapsulation ≡ c.forwarder_encapsulation

when_valid-Unmoved :
    (env : Env) (n : ℕ) (valid : Option Bool) (c d : Client)
    → Unmoved c d
    → Post (λ _ e. Unmoved c e) (when_valid env n valid d)
unfolding when_valid deliver terminate time_now
when_valid-Unmoved env n none c d k = ground (arith, k)
when_valid-Unmoved env n (some true) c d k = ground (arith, k)
when_valid-Unmoved env n (some false) c d k = ground (arith, k)

accept-Unmoved :
    (env : Env) (bytes : List ℕ) (c d : Client)
    → Unmoved c d
    → Post (λ _ e. Unmoved c e) (accept env bytes d)
unfolding accept
accept-Unmoved env bytes c d k =
    let filled = fill bytes d.buffer in
    when_valid-Unmoved env (length (take buffer_size bytes))
      (validate_packet d.forwarder_encapsulation filled (length (take buffer_size bytes))) c
      (record d { buffer = filled })
      (record { topic_map = k.topic_map; keep_alive = k.keep_alive; forwarder = k.forwarder })

handle-Unmoved :
    (env : Env) (r : Received) (c d : Client)
    → Unmoved c d
    → Post (λ _ e. Unmoved c e) (handle env r d)
unfolding handle
handle-Unmoved env (datagram bytes) c d k = accept-Unmoved env bytes c d k
handle-Unmoved env again c d k = k
handle-Unmoved env failed c d k = tt

receive-Unmoved :
    (env : Env) (c : Client) → Post (λ _ d. Unmoved c d) (receive_frwdencap_packet env c)
unfolding receive_frwdencap_packet recv_now
receive-Unmoved env c =
    handle-Unmoved env (env.recvfrom c.moment) c (record c { moment = c.moment + 1 })
      (record { topic_map = refl; keep_alive = refl; forwarder = refl })

-- The received bytes from a packet on.
pub record IsPacket (packet : List ℕ) : Type 0 where
  pub size : 256 ≤ length packet
  pub bytes : All IsByte packet

-- What a receive leads to from `c`.
pub record Delivery (c : Client) (r : Option (List ℕ)) (d : Client) : Type 0 where
  pub buffer : IsBuffer d.buffer
  pub kept : Unmoved c d
  pub packet : (p : List ℕ) → r ≡ some p → IsPacket p

abbrev packet_of : Option Incoming → Option (List ℕ)
packet_of r = elim r [ none ↦ none | some i ↦ some i.packet ]

EndsWell-Ends :
    (c : Client) (r : Run (Option Incoming))
    → EndsWell r
    → Post (λ _ d. Unmoved c d) r
    → Ends (λ i d. Delivery c (packet_of i) d) r
EndsWell-Ends c (ok none d) h k = record { buffer = h; kept = k; packet = λ p e. cc }
EndsWell-Ends c (ok (some i) d) h k = record {
  buffer = h.0;
  kept = k;
  packet = λ p e.
      let same : i.packet ≡ p = cc in subst IsPacket same (record { size = h.1; bytes = h.2 });
}
EndsWell-Ends c (exit code d) h k = h
EndsWell-Ends c Run.fault h k = h
EndsWell-Ends c Run.out_of_fuel h k = h

pub receive_packet-Ends :
    (env : Env) (c : Client)
    → SendsBytes env
    → IsBuffer c.buffer
    → Ends (Delivery c) (receive_packet env c)
unfolding receive_packet
receive_packet-Ends env c h b =
    Ends-bind (λ i d. Delivery c (packet_of i) d) (Delivery c) (receive_frwdencap_packet env c)
      (receive_frwdencap_packet env) _ c refl
      (EndsWell-Ends c (receive_frwdencap_packet env c) (receive-EndsWell env c h b)
        (receive-Unmoved env c))
      (λ i d p. p)

pub receive_packet-Received :
    (env : Env) (c : Client)
    → SendsBytes env
    → IsBuffer c.buffer
    → Post (Delivery c) (receive_packet env c)
receive_packet-Received env c h b =
    Ends-Post (Delivery c) (Delivery c) (receive_packet env c) (receive_packet-Ends env c h b)
      (λ _ _ p. p)

-- None is returned for a datagram that is not valid.
pub receive_packet-none :
    (env : Env) (bytes : List ℕ) (c : Client)
    → env.recvfrom c.moment ≡ datagram bytes
    → All IsByte bytes
    → IsBuffer c.buffer
    → is_valid c.forwarder_encapsulation (fill bytes c.buffer) (length (take buffer_size bytes))
      ≡ false
    → receive_packet env c
      ≡ ok none (record c { buffer = fill bytes c.buffer; moment = c.moment + 1 })
unfolding receive_packet receive_frwdencap_packet recv_now handle
receive_packet-none env bytes c arrives given b bad =
    let next = record c { moment = c.moment + 1 } in
    bind-ok (receive_frwdencap_packet env) _
      (ap (λ r. handle env r next) arrives ∙ accept-invalid env bytes next given b bad)
