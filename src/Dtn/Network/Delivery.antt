-- ===== src/Dtn/Network/Delivery.antt =====
-- The way of a message between nodes of ictp/spray-dtn/dtn.c: straight to its receiver, and over
-- a node that relays it.
use ts_it.Base.{ℕ, ◌≡◌, ◌≢◌, refl, ap, ◌∙◌, true, none, some, List, ◌∷◌, arith}
use ts_it.Dtn.State.{
  Item, Radio, broadcast, unicast, runicast, Dtn, Delivered, Contiki, Appends, valid_hdr,
  with_copies,
}
use ts_it.Dtn.Queue.{queue_find}
use ts_it.Dtn.Queue.Laws.{copies, queue_find-same, IsAllocated}
use ts_it.Dtn.Handlers.{spray_recv, request_recv, handoff_recv, handoff_sent}
use ts_it.Dtn.Calls.{send, new_header}
use ts_it.Dtn.Calls.Laws.{new_item, new_packet, IsSent, send-IsSent}
use ts_it.Dtn.HandOff.{CanGive, request-gives, sent-keeps}
use ts_it.Dtn.Network.Relay.{CanRelay, relay-HasTaken, handoff-HasSprayed, copies-same}
use ts_it.Dtn.Delivery.{request_recv-confirmed}

-- A program's message to another node finds room, and its number is not in the queue.
pub record CanSend (os : Contiki) (payload : List ℕ) (to : ℕ) (c : Dtn) : Type 0 where
  pub appends : Appends os
  pub other : to ≢ c.node_addr
  pub q : List Item
  pub room : os.enqueue c.q (new_packet payload to c) true ≡ some q
  pub absent : queue_find (new_header to c) c.q ≡ none

abbrev pub after_send :
    {os : Contiki} {payload : List ℕ} {to : ℕ} {c : Dtn} (s : CanSend os payload to c)
    → IsSent os payload to c s.q
after_send {os} {payload} {to} {c} s =
    send-IsSent os payload to c s.q s.appends s.other s.room s.absent

-- A message that a node `a` sends to a node `b` at another address, where the packet finds room
-- behind the queue of `a` and its number is not there: the last packet on the air is its
-- broadcast. When `b` has heard that, it has delivered the data with the address of `a` and the
-- number of the message, and has sent a request; when `a` has heard the request, it has no copies
-- left.
pub send-arrives :
    (os os' : Contiki) (payload : List ℕ) (a b : Dtn) (s : CanSend os payload b.node_addr a)
    → let p = new_packet payload b.node_addr a in
      let a₁ = (send os payload b.node_addr a).1 in
      let b₁ = spray_recv os' p a.node_addr b in
      let a₂ = request_recv p b.node_addr a₁ in
      let message : Delivered = record {
        from = a.node_addr;
        packetid = a.seqno;
        payload = payload;
      } in
      ((rest : List Radio) × (a₁.air ≡ broadcast p ∷ rest))
      × (b₁.delivered ≡ message ∷ b.delivered)
      × (b₁.air ≡ unicast a.node_addr p ∷ b.air)
      × (copies p.header a₂.q ≡ 0)
unfolding new_header spray_recv valid_hdr
send-arrives os os' payload a b s =
    let p = new_packet payload b.node_addr a in
    let t = after_send s in
    let a₁ = (send os payload b.node_addr a).1 in
    (
      (t.rest, t.air),
      ground (arith, s.other),
      ground (arith, s.other),
      request_recv-confirmed p a₁ (new_item true t.address p) p refl
          (ap (queue_find p.header) t.queue ∙ t.found) refl,
    )

-- The sender of a message can hand off copies of it.
sent-CanGive :
    (os : Contiki) (payload : List ℕ) (to : ℕ) (a : Dtn) (s : CanSend os payload to a)
    → a.handoff_qb ≡ none
    → IsAllocated s.q
    → CanGive (with_copies 0 (new_packet payload to a)).header (send os payload to a).1
unfolding new_header
sent-CanGive os payload to a s idle allocated =
    let p = new_packet payload to a in
    let t = after_send s in
    record {
      item = new_item true t.address p;
      message = p;
      found =
          queue_find-same (with_copies 0 p).header p.header _ refl refl
          ∙ ap (queue_find p.header) t.queue
          ∙ t.found;
      ready = refl;
      two = omega arith;
      idle = t.idle ∙ idle;
      allocated = rw (t.queue) allocated;
    }

-- A message that a node `a` sends to a node `d`, under the conditions of `send-arrives`, where no
-- hand-off of `a` is in progress, its queue's items lie at different addresses, and a third node
-- `r` at an address of its own has room for the message, which is not in its queue: `r` hears the
-- spray, and requests the message; `a` hears the request, and hands off four copies; `r` hears the
-- hand-off, and sprays the message with them; `d` hears that spray, delivers the data with the
-- address of `a` and the number of the message, and sends a request to `r`; `r` hears the request,
-- and has no copies left. When the hand-off is acknowledged, `a` has four copies left.
pub relay-arrives :
    (os os' os'' : Contiki) (payload : List ℕ) (a r d : Dtn) (s : CanSend os payload d.node_addr a)
    → CanRelay os' (new_packet payload d.node_addr a) r
    → a.handoff_qb ≡ none
    → IsAllocated s.q
    → let p = new_packet payload d.node_addr a in
      let a₁ = (send os payload d.node_addr a).1 in
      let r₁ = spray_recv os' p a.node_addr r in
      let a₂ = request_recv (with_copies 0 p) r.node_addr a₁ in
      let r₂ = handoff_recv (with_copies 4 p) r₁ in
      let d₁ = spray_recv os'' (with_copies 4 p) r.node_addr d in
      let r₃ = request_recv (with_copies 4 p) d.node_addr r₂ in
      let message : Delivered = record {
        from = a.node_addr;
        packetid = a.seqno;
        payload = payload;
      } in
      ((rest : List Radio) × (a₁.air ≡ broadcast p ∷ rest))
      × (r₁.air ≡ unicast a.node_addr (with_copies 0 p) ∷ r.air)
      × (a₂.air ≡ runicast r.node_addr (with_copies 4 p) ∷ a₁.air)
      × ((rest : List Radio) × (r₂.air ≡ broadcast (with_copies 4 p) ∷ rest))
      × (d₁.delivered ≡ message ∷ d.delivered)
      × (d₁.air ≡ unicast r.node_addr (with_copies 4 p) ∷ d.air)
      × (copies p.header r₃.q ≡ 0)
      × ((a₃ : Dtn) × (handoff_sent os a₂ ≡ some a₃) × (copies p.header a₃.q ≡ 4))
unfolding new_header spray_recv valid_hdr sent-CanGive
relay-arrives os os' os'' payload a r d s c idle allocated =
    let p = new_packet payload d.node_addr a in
    let t = after_send s in
    let a₁ = (send os payload d.node_addr a).1 in
    let taken = relay-HasTaken os' p a.node_addr r c refl (omega arith) in
    let sprayed = handoff-HasSprayed p a.node_addr r (spray_recv os' p a.node_addr r) taken refl in
    let r₂ = handoff_recv (with_copies 4 p) (spray_recv os' p a.node_addr r) in
    let g = sent-CanGive os payload d.node_addr a s idle allocated in
    let gives = request-gives (with_copies 0 p) r.node_addr a₁ g refl c.not_to in
    let (a₃, kept, four) = sent-keeps os (with_copies 0 p).header r.node_addr a₁ g in
    (
      (t.rest, t.air),
      taken.air,
      ap (λ n. n.air) gives,
      (sprayed.rest, sprayed.air),
      ground (arith, s.other),
      ground (arith, s.other),
      copies-same p 4 _
          ∙ request_recv-confirmed (with_copies 4 p) r₂
              (new_item true sprayed.address (with_copies 4 p)) (with_copies 4 p) refl
              (queue_find-same (with_copies 4 p).header p.header _ refl refl ∙ sprayed.found) refl,
      (a₃, rw (gives) kept, copies-same p 0 a₃.q ∙ four),
    )
