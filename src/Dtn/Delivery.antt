-- ===== src/Dtn/Delivery.antt =====
-- What the network does to a node of ictp/spray-dtn/dtn.c: which messages it takes, and which it
-- delivers.
use ts_it.Base.{
  ℕ, ◌≡◌, ◌≢◌, refl, sym, ◌∙◌, inl, inr, true, false, none, some, Option-cases, ◌∷◌, arith,
}
use ts_it.Dtn.State.{
  Packet, Item, unicast, Dtn, Delivered, Contiki, Appends, valid_hdr, with_copies, Holds,
}
use ts_it.Dtn.Queue.{queue_find, write, set_copies}
use ts_it.Dtn.Queue.Laws.{copies, queue_find-write, queue_find-same, queue_spray-q}
use ts_it.Dtn.Queue.Unique.{IsUnique, write-IsUnique, append-IsUnique}
use ts_it.Dtn.Handlers.{
  spray_recv, relay_spray, take_spray, request_recv, answer_request, handoff_recv, add_copies,
  take_copies, handoff_sent, kept_copies,
}

take_spray-IsUnique :
    (os : Contiki) (p : Packet) (from : ℕ) (c : Dtn)
    → Appends os
    → queue_find p.header c.q ≡ none
    → IsUnique c.q
    → IsUnique (take_spray os p from c).q
unfolding take_spray
take_spray-IsUnique os p from c appends absent u =
    elim (Option-cases (os.enqueue c.q (with_copies 0 p) false)) [
      | inl e ↦ rw (e, take_spray) u
      | inr (q, e) ↦
          let (address, k) = appends c.q (with_copies 0 p) false q e in
          rw (e, take_spray)
            (rw (k) (
              append-IsUnique c.q address false (with_copies 0 p)
                (sym (queue_find-same p.header (with_copies 0 p).header c.q refl refl) ∙ absent) u))
    ]

relay_spray-IsUnique :
    (os : Contiki) (p : Packet) (from : ℕ) (c : Dtn)
    → Appends os
    → IsUnique c.q
    → IsUnique (relay_spray os p from c).q
unfolding relay_spray
relay_spray-IsUnique os p from c appends u = elim (Option-cases (queue_find p.header c.q)) [
  | inl e ↦ rw (e, relay_spray) (take_spray-IsUnique os p from c appends e u)
  | inr ((item, found), e) ↦ ground (arith, e, u)
]

request-IsUnique :
    (p : Packet) (from : ℕ) (c : Dtn) → IsUnique c.q → IsUnique (request_recv p from c).q
unfolding request_recv answer_request set_copies
request-IsUnique p from c u = elim (Option-cases (queue_find p.header c.q)) [
  | inl e ↦ ground (arith, e, u)
  | inr ((item, found), e) ↦
      ground
        (arith, e, u, write-IsUnique item.address (λ _. 0) (set_copies (λ _. 0)) c.q (λ i. refl) u)
]

handoff_recv-IsUnique : (p : Packet) (c : Dtn) → IsUnique c.q → IsUnique (handoff_recv p c).q
unfolding handoff_recv take_copies set_copies
handoff_recv-IsUnique p c u =
    let n = p.header.num_copies in
    elim (Option-cases (queue_find p.header c.q)) [
      | inl e ↦ ground (arith, e, u)
      | inr ((item, found), e) ↦ ground (
        arith,
        e,
        u,
        queue_spray-q (record c { q = write item.address (take_copies n) c.q }),
        write-IsUnique item.address (add_copies n) (take_copies n) c.q (λ i. refl) u,
      )
    ]

handoff_sent-IsUnique :
    (os : Contiki) (c : Dtn) → IsUnique c.q → Holds (λ d. IsUnique d.q) (handoff_sent os c)
unfolding handoff_sent set_copies
handoff_sent-IsUnique os c u = elim (Option-cases c.handoff_qb) [
  | inl e ↦ ground (arith, e)
  | inr (a, e) ↦
      ground (arith, e, u, write-IsUnique a kept_copies (set_copies kept_copies) c.q (λ i. refl) u)
]

-- Where Contiki puts a packet behind the others of a queue, no packet of the network, be it a
-- spray, a request, a hand-off or its acknowledgement, brings a message into a node's queue that
-- is there.
pub receive-IsUnique :
    (os : Contiki) (p : Packet) (from : ℕ) (c : Dtn)
    → Appends os
    → IsUnique c.q
    → IsUnique (spray_recv os p from c).q
      × IsUnique (request_recv p from c).q
      × IsUnique (handoff_recv p c).q
      × Holds (λ d. IsUnique d.q) (handoff_sent os c)
unfolding spray_recv
receive-IsUnique os p from c appends u = (
  ground (arith, u, relay_spray-IsUnique os p from c appends u),
  request-IsUnique p from c u,
  handoff_recv-IsUnique p c u,
  handoff_sent-IsUnique os c u,
)

-- A valid spray for this node from another one is delivered and confirmed by a request, and leaves
-- the queue as it was; so a message that is sprayed again is delivered again.
pub spray_recv-twice :
    (os : Contiki) (p : Packet) (from from' : ℕ) (c : Dtn)
    → valid_hdr p.header ≡ true
    → p.header.esender ≢ c.node_addr
    → p.header.ereceiver ≡ c.node_addr
    → let d = spray_recv os p from' (spray_recv os p from c) in
      let message : Delivered = record {
        from = p.header.esender;
        packetid = p.header.epacketid;
        payload = p.payload;
      } in
      (d.delivered ≡ message ∷ message ∷ c.delivered)
      × (d.air ≡ unicast from' p ∷ unicast from p ∷ c.air)
      × (d.q ≡ c.q)
unfolding spray_recv
spray_recv-twice os p from from' c valid other mine = (ground arith, ground arith, ground arith)

-- A valid request from the receiver of a message that is ready in the queue leaves the message no
-- copies there.
pub request_recv-confirmed :
    (p : Packet) (c : Dtn) (item : Item) (message : Packet)
    → valid_hdr p.header ≡ true
    → queue_find p.header c.q ≡ some (item, message)
    → item.ready ≡ true
    → copies p.header (request_recv p message.header.ereceiver c).q ≡ 0
unfolding request_recv answer_request set_copies
request_recv-confirmed p c item message valid found ready = ground (
  arith,
  found,
  queue_find-write p.header c.q item message (λ _. 0) (set_copies (λ _. 0)) (λ i. refl) found,
)
