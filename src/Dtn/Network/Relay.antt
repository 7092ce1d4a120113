-- ===== src/Dtn/Network/Relay.antt =====
-- A node of ictp/spray-dtn/dtn.c that relays the message of another one to a third.
use ts_it.Base.{
  ℕ, ◌≡◌, ◌≢◌, refl, sym, ap, ◌∙◌, true, false, none, some, List, [], ◌∷◌, ◌++◌, arith,
}
use ts_it.Dtn.State.{
  Packet, Item, Radio, broadcast, unicast, Dtn, Contiki, Appends, valid_hdr, with_copies,
}
use ts_it.Dtn.Queue.{
  queue_find, write, write_item, set_copies, spray_item, spray_items, queue_spray,
}
use ts_it.Dtn.Queue.Laws.{copies, copies_of, queue_find-write, queue_find-same, queue_spray-q}
use ts_it.Dtn.Handlers.{spray_recv, relay_spray, take_spray, handoff_recv, take_copies, add_copies}
use ts_it.Dtn.Calls.Laws.{new_item, queue_find-append, queue_spray-last}

-- A third node has room for a message that is not in its queue.
pub record CanRelay (os : Contiki) (p : Packet) (r : Dtn) : Type 0 where
  pub appends : Appends os
  pub not_from : p.header.esender ≢ r.node_addr
  pub not_to : p.header.ereceiver ≢ r.node_addr
  pub q : List Item
  pub room : os.enqueue r.q (with_copies 0 p) false ≡ some q
  pub absent : queue_find p.header r.q ≡ none

-- The node has put the message behind its queue, as pending, and has requested it.
pub record HasTaken (p : Packet) (from : ℕ) (r r' : Dtn) : Type 0 where
  pub address : ℕ
  pub queue : r'.q ≡ r.q ++ (new_item false address (with_copies 0 p) ∷ [])
  pub found :
      queue_find p.header r'.q ≡ some (new_item false address (with_copies 0 p), with_copies 0 p)
  pub air : r'.air ≡ unicast from (with_copies 0 p) ∷ r.air

pub relay-HasTaken :
    (os : Contiki) (p : Packet) (from : ℕ) (r : Dtn)
    → CanRelay os p r
    → valid_hdr p.header ≡ true
    → p.header.num_copies ≢ 1
    → HasTaken p from r (spray_recv os p from r)
unfolding spray_recv relay_spray take_spray
relay-HasTaken os p from r c valid more =
    let (address, k) = c.appends r.q (with_copies 0 p) false c.q c.room in
    let same : (spray_recv os p from r).q ≡ c.q =
      ground (arith, c.room, c.not_from, c.not_to, c.absent) in
    let found =
      queue_find-append r.q false address (with_copies 0 p)
        (sym (queue_find-same p.header (with_copies 0 p).header r.q refl refl) ∙ c.absent) in
    record {
      address = address;
      queue = same ∙ k;
      found =
          ap (queue_find p.header) (same ∙ k)
          ∙ queue_find-same p.header (with_copies 0 p).header _ refl refl
          ∙ found;
      air = ground (arith, c.room, c.not_from, c.not_to, c.absent);
    }

pub copies-same :
    (p : Packet) (n : ℕ) (q : List Item) → copies p.header q ≡ copies (with_copies n p).header q
copies-same p n q = ap copies_of (queue_find-same p.header (with_copies n p).header q refl refl)

write-append :
    (address : ℕ) (F : Item → Item) (q : List Item) (item : Item)
    → write address F (q ++ (item ∷ [])) ≡ write address F q ++ (write_item address F item ∷ [])
unfolding write
write-append address F [] item = refl
write-append address F (i ∷ q) item =
    ap (λ l. write_item address F i ∷ l) (write-append address F q item)

-- A node that has a message pending gets a hand-off of four copies: it has the message ready with
-- them, and sprays it.
pub record HasSprayed (p : Packet) (r : Dtn) : Type 0 where
  pub address : ℕ
  pub found :
      queue_find p.header r.q ≡ some (new_item true address (with_copies 4 p), with_copies 4 p)
  pub rest : List Radio
  pub air : r.air ≡ broadcast (with_copies 4 p) ∷ rest

pub handoff-HasSprayed :
    (p : Packet) (from : ℕ) (r r' : Dtn)
    → HasTaken p from r r'
    → valid_hdr p.header ≡ true
    → HasSprayed p (handoff_recv (with_copies 4 p) r')
unfolding handoff_recv take_copies set_copies add_copies spray_item valid_hdr
handoff-HasSprayed p from r r' t valid =
    let item = new_item false t.address (with_copies 0 p) in
    let F = take_copies 4 in
    let c = record r' { q = write t.address F r'.q } in
    let found = queue_find-same (with_copies 4 p).header p.header r'.q refl refl ∙ t.found in
    let run : handoff_recv (with_copies 4 p) r' ≡ queue_spray c = ground (arith, found) in
    let last = ap (write t.address F) t.queue ∙ write-append t.address F r.q item in
    let there : write_item t.address F item ≡ new_item true t.address (with_copies 4 p) =
      ground arith in
    record {
      address = t.address;
      found =
          ap (λ d. queue_find p.header d.q) run
          ∙ ap (queue_find p.header) (queue_spray-q c)
          ∙ queue_find-write p.header r'.q item (with_copies 0 p) (add_copies 4) F (λ i. refl)
              t.found;
      rest = spray_items (write t.address F r.q) c.air;
      air =
          ap (λ d. d.air) run
          ∙ queue_spray-last c (write t.address F r.q) (new_item true t.address (with_copies 4 p))
              (last ∙ ap (λ i. write t.address F r.q ++ (i ∷ [])) there);
    }
