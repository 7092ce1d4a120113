-- ===== src/Dtn/Handlers.antt =====
-- What ictp/spray-dtn/dtn.c does with the packets of its three connections: a spray (broadcast),
-- a request (unicast) and a hand-off (reliable unicast), and with the outcome of a hand-off.
use ts_it.Base.{
  ℕ, ◌+◌, ◌-◌, ◌/◌, true, false, not, ◌==◌, if◌then◌else◌, ltb, u16, Option, none, some, List, [],
  ◌∷◌,
}
use ts_it.Dtn.State.{
  Header, Packet, Item, unicast, runicast, Dtn, Contiki, l_copies, valid_hdr, same_message,
  with_copies,
}
use ts_it.Dtn.Queue.{queue_find, write, set_copies, queue_spray}

-- A message that is not in the queue is enqueued as pending, without copies, and requested.
unfoldable pub take_spray : Contiki → Packet → ℕ → Dtn → Dtn
take_spray os p from c = elim (os.enqueue c.q (with_copies 0 p) false) [
  | none ↦ c
  | some q ↦ record c { q = q; air = unicast from (with_copies 0 p) ∷ c.air }
]

-- The spray of another node for a third one.
unfoldable pub relay_spray : Contiki → Packet → ℕ → Dtn → Dtn
unfolding take_spray
relay_spray os p from c = elim (queue_find p.header c.q) [
  | none ↦ take_spray os p from c
  | some (item, _) ↦ if item.ready then c else record c { air = unicast from p ∷ c.air }
]

unfoldable pub spray_recv : Contiki → Packet → ℕ → Dtn → Dtn
unfolding relay_spray
spray_recv os p from c =
    let h = p.header in
    if not (valid_hdr h)
    then c
    else if h.esender == c.node_addr
    then c
    else if h.ereceiver == c.node_addr
    then record c {
      air = unicast from p ∷ c.air;
      delivered =
          record { from = h.esender; packetid = h.epacketid; payload = p.payload } ∷ c.delivered;
    }
    else if h.num_copies == 1
    then c
    else relay_spray os p from c

-- A request for a ready message: the receiver has it, there is nothing to hand off, or half of the
-- copies are handed off.
unfoldable pub answer_request : Item → Packet → ℕ → Dtn → Dtn
answer_request item p from c =
    let h = p.header in
    if h.ereceiver == from
    then record c { q = write item.address (set_copies (λ _. 0)) c.q }
    else if h.num_copies == 1
    then c
    else if h.num_copies == 0
    then c
    else elim c.handoff_qb [
      | some _ ↦ c
      | none ↦ record c {
        handoff_qb = some item.address;
        handoff_hdr = h;
        air = runicast from (with_copies (h.num_copies / 2) p) ∷ c.air;
      }
    ]

unfoldable pub request_recv : Packet → ℕ → Dtn → Dtn
unfolding answer_request
request_recv p from c = if not (valid_hdr p.header) then c else elim (queue_find p.header c.q) [
  | none ↦ c
  | some (item, found) ↦ if not item.ready then c else answer_request item found from c
]

-- The sum is a `uint16_t`.
unfoldable pub add_copies : ℕ → ℕ → ℕ
add_copies given n = if ltb l_copies (u16 (n + given)) then l_copies else u16 (n + given)

unfoldable pub take_copies : ℕ → Item → Item
unfolding add_copies
take_copies given item = record (set_copies (add_copies given) item) { ready = true }

unfoldable pub handoff_recv : Packet → Dtn → Dtn
unfolding take_copies
handoff_recv p c = if not (valid_hdr p.header) then c else elim (queue_find p.header c.q) [
  | none ↦ c
  | some (item, _) ↦
      queue_spray (record c { q = write item.address (take_copies p.header.num_copies) c.q })
]

-- What lies at the address of a queue buffer.
unfoldable pub header_at : Contiki → ℕ → List Item → Header
header_at os address [] = os.freed address
header_at os address (item ∷ q) =
    let rest = header_at os address q in
    if item.address == address then elim item.packet [ none ↦ rest | some p ↦ p.header ] else rest

-- The copies that stay.
abbrev pub kept_copies : ℕ → ℕ
kept_copies n = n - n / 2

-- The hand-off is acknowledged. The queue buffer may have been freed or taken by another message
-- since; without a hand-off in progress a NULL pointer is read, which is `none`.
unfoldable pub handoff_sent : Contiki → Dtn → Option Dtn
unfolding header_at
handoff_sent os c = elim c.handoff_qb [
  | none ↦ none
  | some address ↦
      if same_message (header_at os address c.q) c.handoff_hdr
      then some (record c { q = write address (set_copies kept_copies) c.q; handoff_qb = none })
      else some (record c { handoff_qb = none })
]

unfoldable pub handoff_timedout : Dtn → Dtn
handoff_timedout c = record c { handoff_qb = none }
