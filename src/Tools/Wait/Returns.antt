-- ===== src/Tools/Wait/Returns.antt =====
-- What holds when mqtt_sn_wait_for of mqtt-sn-tools/mqtt-sn.c returns.
use ts_it.Base.{
  ℕ, zero, suc, ◌+◌, ◌≡◌, refl, inl, inr, Option, none, some, List, arith, ◌==◌, byte_at, ntohs_at,
  All, IsByte, byte_at-lt, Bool-cases, if◌then◌else◌,
}
use ts_it.Tools.State.{
  Client, Env, Select, ready, timed_out, interrupted, failed, M, Run, ok, Post, Post-bind,
  Post-mono, time_now, select_now,
}
use ts_it.Tools.Topics.Laws.{IsDistinct, register-IsDistinct}
use ts_it.Tools.Frame.Laws.{Kept}
use ts_it.Tools.Send.Laws.{send_pingreq-Kept}
use ts_it.Tools.Receive.{receive_packet}
use ts_it.Tools.Receive.Bounds.{IsBuffer, SendsBytes}
use ts_it.Tools.Receive.Delivery.{IsPacket, Delivery, receive_packet-Received}
use ts_it.Tools.Publish.{print_publish_packet, fwd_dtn_packet, process_register}
use ts_it.Tools.Publish.Laws.{
  print_publish-Kept, fwd_dtn-Kept, Registered, process_register-Registered,
}
use ts_it.Tools.Wait.{
  handle_publish, handle_packet, Round, found, stopped, again, ping, check_alive, take_packet,
  after_select, round, wait_for,
}

-- The client's data is sound: the buffer is as C allocates it, and no topic id has two entries.
pub record IsSound (c : Client) : Type 0 where
  pub buffer : IsBuffer c.buffer
  pub topics : IsDistinct c.topic_map

Kept-IsSound : {c d : Client} → Kept c d → IsSound c → IsSound d
Kept-IsSound k s = record { buffer = rw (k.buffer) s.buffer; topics = rw (k.topic_map) s.topics }

Registered-IsSound :
    {packet : List ℕ} {c d : Client}
    → All IsByte packet
    → Registered packet c d
    → IsSound c
    → IsSound d
Registered-IsSound {packet} {c} b r s = record {
  buffer = rw (r.buffer) s.buffer;
  topics = rw (r.topic_map) (
      register-IsDistinct (ntohs_at packet 2) r.topic_name c.topic_map
        (omega (arith, byte_at-lt packet 2 b, byte_at-lt packet 3 b)) s.topics);
}

-- The sound ends of a call.
abbrev Sound : {A : Type 0} → Run A → Type 0
Sound r = Post (λ _ d. IsSound d) r

print-Sound :
    (env : Env) (packet : List ℕ) (c : Client)
    → IsSound c
    → Sound (print_publish_packet env packet c)
print-Sound env packet c s =
    Post-mono (λ _ d. Kept c d) (λ _ d. IsSound d) _ (print_publish-Kept env packet c)
      (λ _ d k. Kept-IsSound k s)

fwd-Sound :
    (env : Env) (packet : List ℕ) (c : Client) → IsSound c → Sound (fwd_dtn_packet env packet c)
fwd-Sound env packet c s =
    Post-mono (λ _ d. Kept c d) (λ _ d. IsSound d) _ (fwd_dtn-Kept env packet c)
      (λ _ d k. Kept-IsSound k s)

register-Sound :
    (env : Env) (packet : List ℕ) (c : Client)
    → All IsByte packet
    → IsSound c
    → Sound (process_register env packet c)
register-Sound env packet c b s =
    Post-mono (λ _ d. Registered packet c d) (λ _ d. IsSound d) _
      (process_register-Registered env packet c) (λ _ d k. Registered-IsSound b k s)

forward-Sound :
    (env : Env) (packet : List ℕ) (c : Client)
    → IsSound c
    → Sound ((if c.forwarder_dtn then fwd_dtn_packet env packet else λ d. ok tt d) c)
forward-Sound env packet c s = ground (arith, fwd-Sound env packet c s)

publish-Sound :
    (env : Env) (packet : List ℕ) (c : Client) → IsSound c → Sound (handle_publish env packet c)
unfolding handle_publish
publish-Sound env packet c s =
    Post-bind (λ _ d. IsSound d) (λ _ d. IsSound d) _ (print_publish_packet env packet) _ c refl
      (print-Sound env packet c s) (λ _ d t. forward-Sound env packet d t)

handle-Sound :
    (env : Env) (type : ℕ) (packet : List ℕ) (c : Client)
    → All IsByte packet
    → IsSound c
    → Sound (handle_packet env type packet c)
unfolding handle_packet
handle-Sound env type packet c b s =
    ground (arith, publish-Sound env packet c s, register-Sound env packet c b s)

ping-Sound : (env : Env) (now : ℕ) (c : Client) → IsSound c → Sound (ping env now c)
unfolding ping
ping-Sound env now c s = ground (
  arith,
  Post-mono (λ _ d. Kept c d) (λ _ d. IsSound d) _ (send_pingreq-Kept env c)
      (λ _ d k. Kept-IsSound k s),
)

-- What a round has found is a received packet of the type that is waited for.
abbrev IsFound : ℕ → Round → Type 0
IsFound type (found p) = (byte_at p 1 ≡ type) × IsPacket p
IsFound type stopped = Unit
IsFound type again = Unit

abbrev RoundSound : ℕ → Run Round → Type 0
RoundSound type = Post (λ r d. IsSound d × IsFound type r)

check-Sound : (type now : ℕ) (c : Client) → IsSound c → RoundSound type (check_alive now c)
unfolding check_alive
check-Sound type now c s = ground arith

found-Sound :
    (type now : ℕ) (packet : List ℕ) (c : Client)
    → IsPacket packet
    → IsSound c
    → RoundSound type
        ((if byte_at packet 1 == type then (λ d. ok (found packet) d) else check_alive now) c)
found-Sound type now packet c p s = elim (Bool-cases (byte_at packet 1 == type)) [
  | inl e ↦ rw e (s, (ground arith, p))
  | inr e ↦ rw e (check-Sound type now c s)
]

take-Sound :
    (env : Env) (type now : ℕ) (r : Option (List ℕ)) (c : Client)
    → ((p : List ℕ) → r ≡ some p → IsPacket p)
    → IsSound c
    → RoundSound type (take_packet env type now r c)
unfolding take_packet
take-Sound env type now none c h s = check-Sound type now c s
take-Sound env type now (some packet) c h s =
    Post-bind (λ _ d. IsSound d) (λ r d. IsSound d × IsFound type r) _
      (handle_packet env type packet) _ c refl
      (handle-Sound env type packet c (h packet refl).bytes s)
      (λ _ d t. found-Sound type now packet d (h packet refl) t)

select-Sound :
    (env : Env) (type now : ℕ) (r : Select) (c : Client)
    → SendsBytes env
    → IsSound c
    → RoundSound type (after_select env type now r c)
unfolding after_select
select-Sound env type now ready c h s =
    Post-bind (Delivery c) (λ r d. IsSound d × IsFound type r) _ (receive_packet env)
      (take_packet env type now) c refl (receive_packet-Received env c h s.buffer)
      (λ r d k.
        take-Sound env type now r d k.packet
          (record { buffer = k.buffer; topics = rw (k.kept.topic_map) s.topics }))
select-Sound env type now timed_out c h s = check-Sound type now c s
select-Sound env type now interrupted c h s = (s, tt)
select-Sound env type now failed c h s = tt

tick-IsSound : (c : Client) (n : ℕ) → IsSound c → IsSound (record c { moment = n })
tick-IsSound c n s = record { buffer = s.buffer; topics = s.topics }

round-Sound :
    (env : Env) (type : ℕ) (c : Client)
    → SendsBytes env
    → IsSound c
    → RoundSound type (round env type c)
unfolding round time_now select_now
round-Sound env type c h s =
    Post-bind (λ _ d. IsSound d) (λ r d. IsSound d × IsFound type r) _
      (ping env (env.time c.moment)) _ (record c { moment = c.moment + 1 }) refl
      (ping-Sound env (env.time c.moment) _ (tick-IsSound c (c.moment + 1) s))
      (λ _ d t.
        select-Sound env type (env.time c.moment) (env.select d.moment) _ h
          (tick-IsSound d (d.moment + 1) t))

-- What `wait_for` may return: nothing, or a received packet of the type.
abbrev pub IsAnswer : ℕ → Option (List ℕ) → Type 0
IsAnswer type none = Unit
IsAnswer type (some p) = (byte_at p 1 ≡ type) × IsPacket p

abbrev go_on : Env → ℕ → ℕ → Round → M (Option (List ℕ))
go_on env type fuel r = elim r [
  | found packet ↦ λ d. ok (some packet) d
  | stopped ↦ λ d. ok none d
  | again ↦ wait_for env type fuel
]

-- Where the system delivers bytes, and the client's data is sound, a wait that returns leaves the
-- data sound, after any number of rounds and whatever came in between; a packet that it returns has
-- the type waited for and lies in the buffer.
pub wait_for-IsSound :
    (env : Env) (type fuel : ℕ) (c : Client)
    → SendsBytes env
    → IsSound c
    → Post (λ r d. IsSound d × IsAnswer type r) (wait_for env type fuel c)
unfolding wait_for
wait_for-IsSound env type zero c h s = tt
wait_for-IsSound env type (suc fuel) c h s =
    let rest = wait_for-IsSound env type fuel in
    Post-bind (λ r d. IsSound d × IsFound type r) (λ r d. IsSound d × IsAnswer type r) _
      (round env type) (go_on env type fuel) c refl (round-Sound env type c h s)
      (elim [ found p ↦ λ d k. k | stopped ↦ λ d k. k | again ↦ λ d k. rest d h k.0 ])
