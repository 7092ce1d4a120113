-- ===== src/Dtn/Copies/Handlers.antt =====
-- The copies of messages that a node of ictp/spray-dtn/dtn.c keeps and puts on the air.
use mathlib.Core.Path.{subst}
use ts_it.Base.{
  ℕ, ◌/◌, ◌≤◌, ◌<◌, ◌≡◌, refl, inl, inr, Bool, true, false, Bool-cases, Option, none, some,
  Option-cases, List, [], ◌∷◌, All, All-append, arith,
}
use ts_it.Dtn.State.{
  Packet, Item, Radio, broadcast, unicast, runicast, Dtn, Contiki, Appends, l_copies, valid_hdr,
  Holds,
}
use ts_it.Dtn.Queue.{queue_find, set_copies, spray_item, spray_items, queue_spray}
use ts_it.Dtn.Queue.Laws.{queue_find-Found, All-write, queue_spray-q}
use ts_it.Dtn.Handlers.{spray_recv, relay_spray, take_spray, request_recv, answer_request}
use ts_it.Dtn.Copies.{IsFair, IsFairPacket, IsFairQueue, set_copies-IsFair}

-- What may be on the air: a spray has 1 to 8 copies left, and a hand-off gives 1 to 4 of them.
abbrev pub IsFairRadio : Radio → Type 0
IsFairRadio (broadcast p) =
    (valid_hdr p.header ≡ true) × (0 < p.header.num_copies) × (p.header.num_copies ≤ l_copies)
IsFairRadio (unicast to p) = valid_hdr p.header ≡ true
IsFairRadio (runicast to p) =
    (valid_hdr p.header ≡ true) × (0 < p.header.num_copies) × (p.header.num_copies ≤ l_copies / 2)

pub record IsSound (c : Dtn) : Type 0 where
  pub queue : IsFairQueue c.q
  pub air : All IsFairRadio c.air

spray_held :
    (ready : Bool) (address : ℕ) (o : Option Packet) (air : List Radio)
    → Holds (IsFairPacket ready) o
    → All IsFairRadio air
    → All IsFairRadio (spray_item (record { address = address; ready = ready; packet = o }) air)
unfolding spray_item
spray_held ready address none air fair all = ground arith
spray_held false address (some p) air fair all = all
spray_held true address (some p) air fair all = ground (arith, fair.valid, fair.copies)

spray_items-Fair :
    (q : List Item) (air : List Radio)
    → IsFairQueue q
    → All IsFairRadio air
    → All IsFairRadio (spray_items q air)
unfolding spray_items
spray_items-Fair [] air fair all = all
spray_items-Fair (item ∷ q) air fair all =
    spray_items-Fair q (spray_item item air) fair.1
      (spray_held item.ready item.address item.packet air fair.0 all)

pub queue_spray-IsSound : (c : Dtn) → IsSound c → IsSound (queue_spray c)
unfolding queue_spray
queue_spray-IsSound c s = record {
  queue = rw (queue_spray-q c) s.queue;
  air = ground (arith, spray_items-Fair c.q c.air s.queue s.air, s.air);
}

pub enqueued :
    (os : Contiki) (q : List Item) (p : Packet) (ready : Bool) (q' : List Item)
    → Appends os
    → os.enqueue q p ready ≡ some q'
    → IsFairPacket ready p
    → IsFairQueue q
    → IsFairQueue q'
enqueued os q p ready q' appends e fair all =
    let (address, k) = appends q p ready q' e in rw (k) (All-append IsFair q _ all (fair, tt))

take_spray-IsSound :
    (os : Contiki) (p : Packet) (from : ℕ) (c : Dtn)
    → Appends os
    → valid_hdr p.header ≡ true
    → IsSound c
    → IsSound (take_spray os p from c)
unfolding take_spray valid_hdr
take_spray-IsSound os p from c appends valid s =
    let zeroed = record p { header = record p.header { num_copies = 0 } } in
    let fair : IsFairPacket false zeroed = record {
      valid = valid;
      copies = omega arith;
      pending = λ e. refl;
    } in
    elim (Option-cases (os.enqueue c.q zeroed false)) [
      | inl e ↦ rw (e, take_spray) s
      | inr (q, e) ↦
          rw (e, take_spray)
            (record {
              queue = enqueued os c.q zeroed false q appends e fair s.queue;
              air = (valid, s.air);
            })
    ]

relay_spray-IsSound :
    (os : Contiki) (p : Packet) (from : ℕ) (c : Dtn)
    → Appends os
    → valid_hdr p.header ≡ true
    → IsSound c
    → IsSound (relay_spray os p from c)
unfolding relay_spray
relay_spray-IsSound os p from c appends valid s = elim (Option-cases (queue_find p.header c.q)) [
  | inl e ↦ rw (e, relay_spray) (take_spray-IsSound os p from c appends valid s)
  | inr ((item, found), e) ↦
      rw (e, relay_spray)
        (record { queue = ground (arith, s.queue); air = ground (arith, s.air, valid) })
]

pub spray_recv-IsSound :
    (os : Contiki) (p : Packet) (from : ℕ) (c : Dtn)
    → Appends os
    → IsSound c
    → IsSound (spray_recv os p from c)
unfolding spray_recv
spray_recv-IsSound os p from c appends s = elim (Bool-cases (valid_hdr p.header)) [
  | inl e ↦
      let relay = relay_spray-IsSound os p from c appends e s in
      record {
        queue = ground (arith, s.queue, relay.queue);
        air = ground (arith, s.air, relay.air);
      }
  | inr e ↦ rw (e, spray_recv) s
]

answer-IsSound :
    (item : Item) (p : Packet) (from : ℕ) (c : Dtn)
    → IsFairPacket item.ready p
    → IsSound c
    → IsSound (answer_request item p from c)
unfolding answer_request valid_hdr
answer-IsSound item p from c fair s = record {
  queue = ground (
    arith,
    s.queue,
    All-write IsFair item.address (set_copies (λ _. 0)) c.q
        (λ i f. set_copies-IsFair (λ _. 0) i (λ n. omega arith) f) s.queue,
  );
  air = ground (arith, s.air, fair.valid, fair.copies);
}

pub request_recv-IsSound :
    (p : Packet) (from : ℕ) (c : Dtn) → IsSound c → IsSound (request_recv p from c)
unfolding request_recv
request_recv-IsSound p from c s = elim (Option-cases (queue_find p.header c.q)) [
  | inl e ↦ record { queue = ground (arith, s.queue); air = ground (arith, s.air) }
  | inr ((item, found), e) ↦
      let f = queue_find-Found IsFair p.header c.q item found s.queue e in
      let answer =
        answer-IsSound item found from c
          (subst (Holds (IsFairPacket item.ready)) f.packet_is f.holds) s in
      record {
        queue = ground (arith, s.queue, answer.queue);
        air = ground (arith, s.air, answer.air);
      }
]
