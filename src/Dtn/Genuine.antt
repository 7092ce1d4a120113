-- ===== src/Dtn/Genuine.antt =====
-- The messages that a node of ictp/spray-dtn/dtn.c has, sends and delivers, against a predicate of
-- messages.
pub mod Handlers
pub mod Steps
use mathlib.Core.Path.{subst}
use ts_it.Base.{
  ℕ, ◌+◌, ◌≡◌, refl, inl, inr, true, false, Bool, Option, none, some, Option-cases, List, [], ◌∷◌,
  All, All-append, u16, arith,
}
use ts_it.Dtn.State.{
  Packet, Item, Radio, broadcast, unicast, runicast, Dtn, Delivered, Contiki, Appends, with_copies,
  Holds,
}
use ts_it.Dtn.Queue.{queue_find, write, scale, set_copies, spray_item, spray_items, queue_spray}
use ts_it.Dtn.Queue.Laws.{queue_find-Found, All-write, queue_spray-q}
use ts_it.Dtn.Handlers.{
  spray_recv, relay_spray, take_spray, request_recv, answer_request, handoff_recv, add_copies,
  take_copies, handoff_sent, kept_copies,
}
use ts_it.Dtn.Calls.{send, new_header}

-- A message, without its copies.
pub record Message : Type 0 where
  pub from : ℕ
  pub to : ℕ
  pub packetid : ℕ
  pub payload : List ℕ

abbrev pub message_of : Packet → Message
message_of p = record {
  from = p.header.esender;
  to = p.header.ereceiver;
  packetid = p.header.epacketid;
  payload = p.payload;
}

-- What the callback `recv` gets at an address.
abbrev pub message_at : ℕ → Delivered → Message
message_at addr d = record { from = d.from; to = addr; packetid = d.packetid; payload = d.payload }

abbrev pub packet_of : Radio → Packet
packet_of (broadcast p) = p
packet_of (unicast _ p) = p
packet_of (runicast _ p) = p

abbrev pub IsKnown : (Message → Type 0) → Packet → Type 0
IsKnown G p = G (message_of p)

abbrev pub IsKnownItem : (Message → Type 0) → Item → Type 0
IsKnownItem G i = Holds (IsKnown G) i.packet

abbrev pub IsKnownRadio : (Message → Type 0) → Radio → Type 0
IsKnownRadio G r = IsKnown G (packet_of r)

abbrev pub IsKnownAt : (Message → Type 0) → ℕ → Delivered → Type 0
IsKnownAt G me d = G (message_at me d)

-- Every message that the node `me` has, has sent or has delivered satisfies a predicate.
pub record IsGenuine (G : Message → Type 0) (me : ℕ) (c : Dtn) : Type 0 where
  pub addressed : c.node_addr ≡ me
  pub queue : All (IsKnownItem G) c.q
  pub air : All (IsKnownRadio G) c.air
  pub delivered : All (IsKnownAt G me) c.delivered

module _ (G : Message → Type 0) (me : ℕ) where
  IsKnown-scale :
      (f : ℕ → ℕ) (o : Option Packet) → Holds (IsKnown G) o → Holds (IsKnown G) (scale f o)
  IsKnown-scale f none k = tt
  IsKnown-scale f (some p) k = k

  -- A write of the number of copies, and of the state of the item.
  pub IsKnown-write :
      (a : ℕ) (f : ℕ → ℕ) (F : Item → Item) (q : List Item)
      → ((i : Item) → (F i).packet ≡ scale f i.packet)
      → All (IsKnownItem G) q
      → All (IsKnownItem G) (write a F q)
  IsKnown-write a f F q same all =
      All-write (IsKnownItem G) a F q (λ i k. rw (same i) (IsKnown-scale f i.packet k)) all

  spray_known :
      (ready : Bool) (o : Option Packet) (a : ℕ) (air : List Radio)
      → Holds (IsKnown G) o
      → All (IsKnownRadio G) air
      → All (IsKnownRadio G) (spray_item (record { address = a; ready = ready; packet = o }) air)
  unfolding spray_item
  spray_known false o a air k all = all
  spray_known true none a air k all = all
  spray_known true (some p) a air k all = ground (arith, k, all)

  spray_items-IsKnown :
      (q : List Item) (air : List Radio)
      → All (IsKnownItem G) q
      → All (IsKnownRadio G) air
      → All (IsKnownRadio G) (spray_items q air)
  unfolding spray_items
  spray_items-IsKnown [] air known all = all
  spray_items-IsKnown (i ∷ q) air known all =
      spray_items-IsKnown q (spray_item i air) known.1
        (spray_known i.ready i.packet i.address air known.0 all)

  pub queue_spray-IsGenuine : (c : Dtn) → IsGenuine G me c → IsGenuine G me (queue_spray c)
  unfolding queue_spray
  queue_spray-IsGenuine c g = record {
    addressed = ground (arith, g.addressed);
    queue = rw (queue_spray-q c) g.queue;
    air = ground (arith, spray_items-IsKnown c.q c.air g.queue g.air, g.air);
    delivered = ground (arith, g.delivered);
  }

  pub enqueue-IsKnown :
      (os : Contiki) (q : List Item) (p : Packet) (ready : Bool) (q' : List Item)
      → Appends os
      → os.enqueue q p ready ≡ some q'
      → IsKnown G p
      → All (IsKnownItem G) q
      → All (IsKnownItem G) q'
  enqueue-IsKnown os q p ready q' appends e k all =
      let (address, eq) = appends q p ready q' e in
      rw (eq) (All-append (IsKnownItem G) q _ all (k, tt))
