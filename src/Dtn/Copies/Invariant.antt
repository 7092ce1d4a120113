-- ===== src/Dtn/Copies/Invariant.antt =====
-- The copies of messages at a node of ictp/spray-dtn/dtn.c, whatever happens to it.
use ts_it.Base.{ℕ, ◌≡◌, refl, inl, inr, true, some, Option-cases, List, u16, ◌+◌, arith}
use ts_it.Dtn.State.{Packet, Dtn, Contiki, Appends, valid_hdr}
use ts_it.Dtn.Queue.{queue_find, write, set_copies}
use ts_it.Dtn.Queue.Laws.{All-write, All-remove}
use ts_it.Dtn.Handlers.{handoff_recv, take_copies, handoff_sent, handoff_timedout, kept_copies}
use ts_it.Dtn.Calls.{dtn_open, dtn_close, dtn_set_power, send, set_addr, spray_timer, new_header}
use ts_it.Dtn.Steps.{
  Step, spray, request, handoff, sent, timed_out, timer, expire, message, address, power, close,
  Reachable, start, step,
}
use ts_it.Dtn.Copies.{IsFair, IsFairPacket, set_copies-IsFair, take_copies-IsFair}
use ts_it.Dtn.Copies.Handlers.{
  IsSound, queue_spray-IsSound, enqueued, spray_recv-IsSound, request_recv-IsSound,
}

handoff_recv-IsSound : (p : Packet) (c : Dtn) → IsSound c → IsSound (handoff_recv p c)
unfolding handoff_recv
handoff_recv-IsSound p c s = elim (Option-cases (queue_find p.header c.q)) [
  | inl e ↦ record { queue = ground (arith, s.queue); air = ground (arith, s.air) }
  | inr ((item, found), e) ↦
      let f = take_copies p.header.num_copies in
      let c' = record c { q = write item.address f c.q } in
      let s' : IsSound c' = record {
        queue =
            All-write IsFair item.address f c.q (take_copies-IsFair p.header.num_copies) s.queue;
        air = s.air;
      } in
      let sprayed = queue_spray-IsSound c' s' in
      record {
        queue = ground (arith, s.queue, sprayed.queue);
        air = ground (arith, s.air, sprayed.air);
      }
]

handoff_sent-IsSound :
    (os : Contiki) (c d : Dtn) → IsSound c → handoff_sent os c ≡ some d → IsSound d
unfolding handoff_sent
handoff_sent-IsSound os c d s e = elim (Option-cases c.handoff_qb) [
  | inl n ↦ ground arith
  | inr (a, n) ↦
      let kept =
        All-write IsFair a (set_copies kept_copies) c.q
          (λ i f. set_copies-IsFair kept_copies i (λ n. omega arith) f) s.queue in
      record { queue = ground (arith, s.queue, kept); air = ground (arith, s.air) }
]

send-IsSound :
    (os : Contiki) (payload : List ℕ) (to : ℕ) (c : Dtn)
    → Appends os
    → IsSound c
    → IsSound (send os payload to c).1
unfolding send new_header valid_hdr
send-IsSound os payload to c appends s =
    let p : Packet = record { header = new_header to c; payload = payload } in
    let fair : IsFairPacket true p = record {
      valid = refl;
      copies = omega arith;
      pending = λ e. ground arith;
    } in
    elim (Option-cases (os.enqueue c.q p true)) [
      | inl e ↦ record { queue = ground (arith, s.queue); air = ground (arith, s.air) }
      | inr (q, e) ↦
          let c' = record c { seqno = u16 (c.seqno + 1); q = q } in
          let sprayed =
            queue_spray-IsSound c'
              (record { queue = enqueued os c.q p true q appends e fair s.queue; air = s.air }) in
          record {
            queue = ground (arith, s.queue, sprayed.queue);
            air = ground (arith, s.air, sprayed.air);
          }
    ]

Step-IsSound : (os : Contiki) {c d : Dtn} → Appends os → IsSound c → Step os c d → IsSound d
unfolding handoff_timedout set_addr spray_timer dtn_set_power dtn_close
Step-IsSound os appends s (spray p from c) = spray_recv-IsSound os p from c appends s
Step-IsSound os appends s (request p from c) = request_recv-IsSound p from c s
Step-IsSound os appends s (handoff p c) = handoff_recv-IsSound p c s
Step-IsSound os appends s (sent c d e) = handoff_sent-IsSound os c d s e
Step-IsSound os appends s (timed_out c) = record { queue = s.queue; air = s.air }
Step-IsSound os appends s (timer c) =
    queue_spray-IsSound (record c { spray_ct_expired = true })
      (record { queue = s.queue; air = s.air })
Step-IsSound os appends s (expire a c) = record {
  queue = All-remove IsFair a c.q s.queue;
  air = s.air;
}
Step-IsSound os appends s (message payload to c) = send-IsSound os payload to c appends s
Step-IsSound os appends s (address addr c) = record { queue = s.queue; air = s.air }
Step-IsSound os appends s (power n c) = s
Step-IsSound os appends s (close c) = record { queue = s.queue; air = s.air }

-- Where Contiki puts a packet behind the others of a queue, whatever a node receives and in
-- whatever order, each message in its queue has a valid header and at most 8 copies, and none
-- while it is pending; what it has put on the air has a valid header, 1 to 8 copies in a spray and
-- 1 to 4 in a hand-off.
pub Reachable-IsSound : (os : Contiki) {c : Dtn} → Appends os → Reachable os c → IsSound c
unfolding dtn_open
Reachable-IsSound os appends (start channel addr h) = record { queue = tt; air = tt }
Reachable-IsSound os appends (step c d r t) =
    Step-IsSound os appends (Reachable-IsSound os appends r) t
