-- ===== src/Dtn/Lifecycle/Steps.antt =====
-- The steps of a node of ictp/spray-dtn/dtn.c, by the abstract machine.
use ts_it.Base.{ℕ, ◌+◌, ◌≡◌, ◌⊎◌, inl, inr, refl, ap, u16, true, some, Option-cases, List, arith}
use ts_it.Dtn.State.{Header, Packet, Item, Dtn, Contiki, Appends}
use ts_it.Dtn.Queue.{queue_find, write, set_copies}
use ts_it.Dtn.Queue.Laws.{queue_spray-q}
use ts_it.Dtn.Queue.Unique.{IsUnique}
use ts_it.Dtn.Handlers.{
  spray_recv, relay_spray, request_recv, answer_request, handoff_recv, add_copies, take_copies,
  handoff_sent, handoff_timedout, kept_copies,
}
use ts_it.Dtn.Calls.{send, new_header, dtn_close, dtn_set_power, set_addr, spray_timer}
use ts_it.Dtn.Steps.{
  Step, spray, request, handoff, sent, timed_out, timer, expire, message, address, power, close,
}
use ts_it.Dtn.Lifecycle.{
  Cause, by_spray, by_request, by_acknowledgement, by_program, by_expiry, by_nothing, by_handoff,
  Life, stays, submitted, stock,
}
use ts_it.Dtn.Lifecycle.Refined.{
  stock-remove, Life-eq, Life-forgotten, Life-write, reaches-confirmed, reaches-halved,
  reaches-received, Life-enqueued, relay_spray-Life,
}

-- A queue is as it was, or written to by one of some functions at one address.
at_address :
    (F : Item → Item) (q q' : List Item) (a : ℕ)
    → (q' ≡ q) ⊎ (q' ≡ write a F q)
    → (q' ≡ q) ⊎ ((b : ℕ) × (q' ≡ write b F q))
at_address F q q' a (inl e) = inl e
at_address F q q' a (inr e) = inr (a, e)

spray_recv-q :
    (os : Contiki) (p : Packet) (from : ℕ) (c : Dtn)
    → ((spray_recv os p from c).q ≡ c.q)
      ⊎ ((spray_recv os p from c).q ≡ (relay_spray os p from c).q)
unfolding spray_recv
spray_recv-q os p from c = ground arith

spray_recv-Life :
    (os : Contiki) (p : Packet) (from : ℕ) (c : Dtn) (h : Header)
    → Appends os
    → Life by_spray (stock h c.q) (stock h (spray_recv os p from c).q)
spray_recv-Life os p from c h appends = elim (spray_recv-q os p from c) [
  | inl e ↦ Life-eq _ _ (ap (stock h) e)
  | inr e ↦ rw (e) (relay_spray-Life os p from c h appends)
]

request_recv-q :
    (p : Packet) (from : ℕ) (c : Dtn)
    → ((request_recv p from c).q ≡ c.q)
      ⊎ ((a : ℕ) × ((request_recv p from c).q ≡ write a (set_copies (λ _. 0)) c.q))
unfolding request_recv answer_request
request_recv-q p from c = elim (Option-cases (queue_find p.header c.q)) [
  | inl e ↦ inl (ground (arith, e))
  | inr ((item, found), e) ↦
      at_address (set_copies (λ _. 0)) c.q (request_recv p from c).q item.address
        (ground (arith, e))
]

request_recv-Life :
    (p : Packet) (from : ℕ) (c : Dtn) (h : Header)
    → Life by_request (stock h c.q) (stock h (request_recv p from c).q)
unfolding set_copies
request_recv-Life p from c h = elim (request_recv-q p from c) [
  | inl e ↦ Life-eq _ _ (ap (stock h) e)
  | inr (a, e) ↦ rw (e) (
      Life-write (λ r. r) (λ _. 0) reaches-confirmed h a (set_copies (λ _. 0)) c.q (λ i. refl)
        (λ i. refl))
]

handoff_recv-q :
    (p : Packet) (c : Dtn)
    → ((handoff_recv p c).q ≡ c.q)
      ⊎ ((a : ℕ) × ((handoff_recv p c).q ≡ write a (take_copies p.header.num_copies) c.q))
unfolding handoff_recv
handoff_recv-q p c = elim (Option-cases (queue_find p.header c.q)) [
  | inl e ↦ inl (ground (arith, e))
  | inr ((item, found), e) ↦
      let F = take_copies p.header.num_copies in
      let sprayed = queue_spray-q (record c { q = write item.address F c.q }) in
      at_address F c.q (handoff_recv p c).q item.address (ground (arith, e, sprayed))
]

handoff_recv-Life :
    (p : Packet) (c : Dtn) (h : Header)
    → Life (by_handoff p.header.num_copies) (stock h c.q) (stock h (handoff_recv p c).q)
unfolding take_copies set_copies
handoff_recv-Life p c h =
    let n = p.header.num_copies in
    elim (handoff_recv-q p c) [
      | inl e ↦ Life-eq _ _ (ap (stock h) e)
      | inr (a, e) ↦ rw (e) (
          Life-write (λ _. true) (add_copies n) (reaches-received n) h a (take_copies n) c.q
            (λ i. refl) (λ i. refl))
    ]

handoff_sent-q :
    (os : Contiki) (c d : Dtn)
    → handoff_sent os c ≡ some d
    → (d.q ≡ c.q) ⊎ ((a : ℕ) × (d.q ≡ write a (set_copies kept_copies) c.q))
unfolding handoff_sent
handoff_sent-q os c d e = elim (Option-cases c.handoff_qb) [
  | inl n ↦ ground arith
  | inr (a, n) ↦ at_address (set_copies kept_copies) c.q d.q a (ground (arith, n, e))
]

handoff_sent-Life :
    (os : Contiki) (c d : Dtn) (h : Header)
    → handoff_sent os c ≡ some d
    → Life by_acknowledgement (stock h c.q) (stock h d.q)
unfolding set_copies
handoff_sent-Life os c d h sent_is = elim (handoff_sent-q os c d sent_is) [
  | inl e ↦ Life-eq _ _ (ap (stock h) e)
  | inr (a, e) ↦ rw (e) (
      Life-write (λ r. r) kept_copies reaches-halved h a (set_copies kept_copies) c.q (λ i. refl)
        (λ i. refl))
]

send-Life :
    (os : Contiki) (payload : List ℕ) (to : ℕ) (c : Dtn) (h : Header)
    → Appends os
    → Life by_program (stock h c.q) (stock h (send os payload to c).1.q)
unfolding send new_header
send-Life os payload to c h appends =
    let p : Packet = record { header = new_header to c; payload = payload } in
    elim (Option-cases (os.enqueue c.q p true)) [
      | inl e ↦ Life-eq _ _ (ap (stock h) (ground (arith, e)))
      | inr (q, e) ↦
          let sprayed = queue_spray-q (record c { seqno = u16 (c.seqno + 1); q = q }) in
          let now : ((send os payload to c).1.q ≡ c.q) ⊎ ((send os payload to c).1.q ≡ q) =
            ground (arith, e, sprayed) in
          elim now [
            | inl same ↦ Life-eq _ _ (ap (stock h) same)
            | inr new ↦ rw (new) (Life-enqueued os h c.q p true q appends e submitted)
          ]
    ]

-- The cause of a step of the node.
abbrev pub cause_of : (os : Contiki) {c d : Dtn} → Step os c d → Cause
cause_of os (spray p from c) = by_spray
cause_of os (request p from c) = by_request
cause_of os (handoff p c) = by_handoff p.header.num_copies
cause_of os (sent c d e) = by_acknowledgement
cause_of os (timed_out c) = by_nothing
cause_of os (timer c) = by_nothing
cause_of os (expire a c) = by_expiry
cause_of os (message payload to c) = by_program
cause_of os (address addr c) = by_nothing
cause_of os (power n c) = by_nothing
cause_of os (close c) = by_nothing

-- Where Contiki puts a packet behind the others of a queue, and as long as no message stands twice
-- in the queue, each step of a node takes what it has of any one message through at most one step
-- of the abstract machine with the same cause. So a spray only makes a message pending, without
-- copies; the program's message is ready with 8; a hand-off makes the message ready, and adds its
-- copies to a sum of 16 bits, of which 8 at most are kept; a request only takes the copies away; an
-- acknowledgement only takes half of them, rounded down, away;
-- only the end of its lifetime removes a message; and all else leaves every message as it is.
pub Step-Life :
    (os : Contiki) {c d : Dtn} (h : Header) (step : Step os c d)
    → Appends os
    → IsUnique c.q
    → Life (cause_of os step) (stock h c.q) (stock h d.q)
unfolding handoff_timedout set_addr spray_timer dtn_set_power dtn_close
Step-Life os h (spray p from c) appends u = spray_recv-Life os p from c h appends
Step-Life os h (request p from c) appends u = request_recv-Life p from c h
Step-Life os h (handoff p c) appends u = handoff_recv-Life p c h
Step-Life os h (sent c d e) appends u = handoff_sent-Life os c d h e
Step-Life os h (timed_out c) appends u = stays (stock h c.q)
Step-Life os h (timer c) appends u =
    Life-eq _ _ (ap (stock h) (queue_spray-q (record c { spray_ct_expired = true })))
Step-Life os h (expire a c) appends u = Life-forgotten _ _ (stock-remove h a c.q u)
Step-Life os h (message payload to c) appends u = send-Life os payload to c h appends
Step-Life os h (address addr c) appends u = stays (stock h c.q)
Step-Life os h (power n c) appends u = stays (stock h c.q)
Step-Life os h (close c) appends u = stays (stock h c.q)
