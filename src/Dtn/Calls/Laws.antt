-- ===== src/Dtn/Calls/Laws.antt =====
-- What a program gets from dtn_send of ictp/spray-dtn/dtn.c.
use ts_it.Base.{
  ℕ, ◌+◌, ◌≡◌, ◌≢◌, refl, ap, ◌∙◌, u16, Bool, true, none, some, List, [], ◌∷◌, ◌++◌, arith,
}
use ts_it.Dtn.State.{Packet, Item, Radio, broadcast, Dtn, Contiki, Appends, l_copies}
use ts_it.Dtn.Queue.{queue_find, spray_item, spray_items, queue_spray}
use ts_it.Dtn.Queue.Laws.{copies, copies_of}
use ts_it.Dtn.Calls.{new_header, send}

-- The item of a packet that has just been enqueued.
abbrev pub new_item : Bool → ℕ → Packet → Item
new_item ready address p = record { address = address; ready = ready; packet = some p }

pub queue_find-append :
    (q : List Item) (ready : Bool) (address : ℕ) (p : Packet)
    → queue_find p.header q ≡ none
    → queue_find p.header (q ++ (new_item ready address p ∷ []))
      ≡ some (new_item ready address p, p)
unfolding queue_find
queue_find-append [] ready address p e = ground arith
queue_find-append (i ∷ q) ready address p e = ground (arith, e, queue_find-append q ready address p)

spray_items-append :
    (q : List Item) (item : Item) (air : List Radio)
    → spray_items (q ++ (item ∷ [])) air ≡ spray_item item (spray_items q air)
unfolding spray_items
spray_items-append [] item air = refl
spray_items-append (i ∷ q) item air = spray_items-append q item (spray_item i air)

queue_spray-air :
    (c : Dtn) (i : Item) (q : List Item) → c.q ≡ i ∷ q → (queue_spray c).air ≡ spray_items c.q c.air
unfolding queue_spray
queue_spray-air c i q e = ground (arith, e)

-- A queue with an item at its end is sprayed with that item last.
pub queue_spray-last :
    (c : Dtn) (q : List Item) (item : Item)
    → c.q ≡ q ++ (item ∷ [])
    → (queue_spray c).air ≡ spray_item item (spray_items q c.air)
queue_spray-last c [] item e =
    queue_spray-air c item [] e ∙ ap (λ l. spray_items l c.air) e ∙ spray_items-append [] item c.air
queue_spray-last c (i ∷ q) item e =
    queue_spray-air c i (q ++ (item ∷ [])) e
    ∙ ap (λ l. spray_items l c.air) e
    ∙ spray_items-append (i ∷ q) item c.air

-- The packet of a new message.
abbrev pub new_packet : List ℕ → ℕ → Dtn → Packet
new_packet payload to c = record { header = new_header to c; payload = payload }

-- What dtn_send leaves of an accepted message.
pub record IsSent (os : Contiki) (payload : List ℕ) (to : ℕ) (c : Dtn) (q : List Item)
    : Type 0 where
  pub accepted : (send os payload to c).0 ≡ 1
  pub queue : (send os payload to c).1.q ≡ q
  pub address : ℕ
  pub found :
      queue_find (new_header to c) q
      ≡ some (new_item true address (new_packet payload to c), new_packet payload to c)
  pub rest : List Radio
  pub air : (send os payload to c).1.air ≡ broadcast (new_packet payload to c) ∷ rest
  pub numbered : (send os payload to c).1.seqno ≡ u16 (c.seqno + 1)
  pub idle : (send os payload to c).1.handoff_qb ≡ c.handoff_qb

pub send-IsSent :
    (os : Contiki) (payload : List ℕ) (to : ℕ) (c : Dtn) (q : List Item)
    → Appends os
    → to ≢ c.node_addr
    → os.enqueue c.q (new_packet payload to c) true ≡ some q
    → queue_find (new_header to c) c.q ≡ none
    → IsSent os payload to c q
unfolding send spray_item queue_spray
send-IsSent os payload to c q appends other room absent =
    let p = new_packet payload to c in
    let d = record c { seqno = u16 (c.seqno + 1); q = q } in
    let (address, k) = appends c.q p true q room in
    let last = queue_spray-last d c.q (new_item true address p) k in
    record {
      accepted = ground (arith, room, other);
      queue = ground (arith, room, other);
      address = address;
      found = ap (queue_find p.header) k ∙ queue_find-append c.q true address p absent;
      rest = spray_items c.q c.air;
      air = ground (arith, room, other, last);
      numbered = ground (arith, room, other);
      idle = ground (arith, room, other);
    }

-- Where Contiki puts a packet behind the others of a queue, a message to another node that finds
-- room and whose number the queue does not have yet is accepted: dtn_send returns 1, the queue has
-- the message with 8 copies, the last packet on the air is its broadcast, and the next message
-- gets the next number.
pub send-sprays :
    (os : Contiki) (payload : List ℕ) (to : ℕ) (c : Dtn) (q : List Item)
    → Appends os
    → to ≢ c.node_addr
    → os.enqueue c.q (record { header = new_header to c; payload = payload }) true ≡ some q
    → queue_find (new_header to c) c.q ≡ none
    → let r = send os payload to c in
      let p : Packet = record { header = new_header to c; payload = payload } in
      (r.0 ≡ 1)
      × (copies (new_header to c) r.1.q ≡ l_copies)
      × ((rest : List Radio) × (r.1.air ≡ broadcast p ∷ rest))
      × (r.1.seqno ≡ u16 (c.seqno + 1))
unfolding new_header
send-sprays os payload to c q appends other room absent =
    let s = send-IsSent os payload to c q appends other room absent in
    (
      s.accepted,
      ap (copies (new_header to c)) s.queue ∙ ap copies_of s.found,
      (s.rest, s.air),
      s.numbered,
    )
