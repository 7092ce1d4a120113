-- ===== src/Dtn/HandOff.antt =====
-- A hand-off between two nodes of ictp/spray-dtn/dtn.c: one gives the copies, the other takes them.
use ts_it.Base.{
  ℕ, ◌+◌, ◌/◌, ◌≤◌, ◌≡◌, ◌≢◌, refl, sym, ◌∙◌, ap, true, none, some, List, [], ◌∷◌, arith,
}
use ts_it.Dtn.State.{Header, Packet, Item, runicast, Dtn, Contiki, l_copies, valid_hdr, with_copies}
use ts_it.Dtn.Queue.{queue_find, write, set_copies}
use ts_it.Dtn.Queue.Laws.{
  copies, queue_find-write, queue_find-same, copies_of, IsAllocated, header_at-found, queue_spray-q,
}
use ts_it.Dtn.Handlers.{
  request_recv, answer_request, handoff_recv, take_copies, add_copies, handoff_sent, kept_copies,
}

-- A node has a message ready with at least two copies, and no hand-off in progress.
pub record CanGive (h : Header) (a : Dtn) : Type 0 where
  pub item : Item
  pub message : Packet
  pub found : queue_find h a.q ≡ some (item, message)
  pub ready : item.ready ≡ true
  pub two : 2 ≤ message.header.num_copies
  pub idle : a.handoff_qb ≡ none
  pub allocated : IsAllocated a.q

-- The hand-off that is sent, and the node then.
abbrev pub given : {h : Header} {a : Dtn} → CanGive h a → Packet
given g = with_copies (g.message.header.num_copies / 2) g.message

abbrev pub giving : {h : Header} {a : Dtn} → CanGive h a → ℕ → Dtn
giving {a = a} g to = record a {
  handoff_qb = some g.item.address;
  handoff_hdr = g.message.header;
  air = runicast to (given g) ∷ a.air;
}

pub request-gives :
    (p : Packet) (to : ℕ) (a : Dtn) (g : CanGive p.header a)
    → valid_hdr p.header ≡ true
    → g.message.header.ereceiver ≢ to
    → request_recv p to a ≡ giving g to
unfolding request_recv answer_request
request-gives p to a g valid other = ground (arith, g.found, g.ready, g.two, g.idle)

pub sent-keeps :
    (os : Contiki) (h : Header) (to : ℕ) (a : Dtn) (g : CanGive h a)
    → (d : Dtn) × (handoff_sent os (giving g to) ≡ some d)
      × (copies h d.q ≡ kept_copies g.message.header.num_copies)
unfolding handoff_sent set_copies
sent-keeps os h to a g = (
  record a {
    q = write g.item.address (set_copies kept_copies) a.q;
    handoff_qb = none;
    handoff_hdr = g.message.header;
    air = runicast to (given g) ∷ a.air;
  },
  ground (arith, header_at-found os h a.q g.item g.message g.allocated g.found),
  ground (
    arith,
    queue_find-write h a.q g.item g.message kept_copies (set_copies kept_copies) (λ i. refl)
        g.found,
  ),
)

pub handoff-takes :
    (p : Packet) (b : Dtn) (item : Item) (message : Packet)
    → valid_hdr p.header ≡ true
    → queue_find p.header b.q ≡ some (item, message)
    → message.header.num_copies + p.header.num_copies ≤ l_copies
    → copies p.header (handoff_recv p b).q ≡ message.header.num_copies + p.header.num_copies
unfolding handoff_recv take_copies set_copies add_copies
handoff-takes p b item message valid found fits =
    let n = p.header.num_copies in
    let F = take_copies n in
    ground (
      arith,
      found,
      queue_spray-q (record b { q = write item.address F b.q }),
      queue_find-write p.header b.q item message (add_copies n) F (λ i. refl) found,
    )

-- What is found is the message that was looked for.
pub found-same :
    (h : Header) (q : List Item) (item : Item) (p : Packet)
    → queue_find h q ≡ some (item, p)
    → (h.esender ≡ p.header.esender) × (h.epacketid ≡ p.header.epacketid)
unfolding queue_find
found-same h [] item p e = ground arith
found-same h (i ∷ q) item p e = ground (arith, found-same h q item p)

-- A valid request for a message with a valid header that a node can give away (it is ready, has
-- two copies or more, no hand-off is in progress, and the queue's items lie at different
-- addresses), from a node that is not the message's receiver and has the message in its own queue,
-- is answered by a hand-off. When that has arrived and is acknowledged, the two nodes have as many
-- copies between them as before, where these are at most 8, and at least one each.
pub handoff-conserves :
    (os : Contiki) (p : Packet) (to : ℕ) (a b : Dtn) (g : CanGive p.header a) (item : Item)
    (message : Packet)
    → valid_hdr p.header ≡ true
    → valid_hdr g.message.header ≡ true
    → g.message.header.ereceiver ≢ to
    → queue_find p.header b.q ≡ some (item, message)
    → copies p.header a.q + copies p.header b.q ≤ l_copies
    → (h : Packet) × (d : Dtn) × ((request_recv p to a).air ≡ runicast to h ∷ a.air)
      × (handoff_sent os (request_recv p to a) ≡ some d)
      × (copies p.header d.q + copies p.header (handoff_recv h b).q
          ≡ copies p.header a.q + copies p.header b.q)
      × (1 ≤ copies p.header d.q)
      × (1 ≤ copies p.header (handoff_recv h b).q)
unfolding valid_hdr
handoff-conserves os p to a b g item message valid held other found fits =
    let request = request-gives p to a g valid other in
    let (d, sent, left) = sent-keeps os p.header to a g in
    let key = found-same p.header a.q g.item g.message g.found in
    let same = λ (q : List Item). queue_find-same p.header (given g).header q key.0 key.1 in
    let n = ap copies_of g.found in
    let m = ap copies_of found in
    let taken =
      handoff-takes (given g) b item message held (sym (same b.q) ∙ found)
        (omega (arith, fits, n, m)) in
    let after = ap copies_of (same (handoff_recv (given g) b).q) in
    (
      given g,
      d,
      ap (λ c. c.air) request,
      ap (handoff_sent os) request ∙ sent,
      omega (arith, left, taken, after, n, m),
      omega (arith, left, n, g.two),
      omega (arith, taken, after, g.two),
    )
