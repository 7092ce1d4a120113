-- ===== src/Dtn/Copies.antt =====
-- The copies of messages at a node of ictp/spray-dtn/dtn.c.
pub mod Handlers
pub mod Invariant
use ts_it.Base.{
  ℕ, ◌≤◌, ◌<◌, ◌≡◌, refl, ◌∙◌, ap, inl, inr, Bool, true, false, Bool-cases, Option, none, some,
  Option-cases, List, [], ◌∷◌, ◌++◌, All, All-append, arith,
}
use ts_it.Dtn.State.{
  Header, Packet, Item, Radio, broadcast, unicast, runicast, Dtn, Contiki, Appends, l_copies,
  valid_hdr, Holds,
}
use ts_it.Dtn.Queue.{queue_find, write, scale, set_copies, queue_spray}
use ts_it.Dtn.Queue.Laws.{Found, queue_find-Found, All-write, queue_spray-q}
use ts_it.Dtn.Handlers.{
  spray_recv, relay_spray, take_spray, request_recv, answer_request, handoff_recv, add_copies,
  take_copies, handoff_sent, handoff_timedout,
}
use ts_it.Dtn.Calls.{dtn_open, send, set_addr, spray_timer}

-- A queued message has a valid header and at most 8 copies, and none while it is pending.
pub record IsFairPacket (ready : Bool) (p : Packet) : Type 0 where
  pub valid : valid_hdr p.header ≡ true
  pub copies : p.header.num_copies ≤ l_copies
  pub pending : ready ≡ false → p.header.num_copies ≡ 0

abbrev pub IsFair : Item → Type 0
IsFair item = Holds (IsFairPacket item.ready) item.packet

abbrev pub IsFairQueue : List Item → Type 0
IsFairQueue = All IsFair

Holds-scale :
    (ready : Bool) (f : ℕ → ℕ) (o : Option Packet)
    → ((n : ℕ) → f n ≤ n)
    → Holds (IsFairPacket ready) o
    → Holds (IsFairPacket ready) (scale f o)
unfolding valid_hdr
Holds-scale ready f none smaller fair = tt
Holds-scale ready f (some p) smaller fair =
    let h = smaller p.header.num_copies in
    record {
      valid = fair.valid;
      copies = omega (arith, h, fair.copies);
      pending = λ e. omega (arith, h, fair.pending e);
    }

pub set_copies-IsFair :
    (f : ℕ → ℕ) (item : Item) → ((n : ℕ) → f n ≤ n) → IsFair item → IsFair (set_copies f item)
unfolding set_copies
set_copies-IsFair f item = Holds-scale item.ready f item.packet

Holds-take :
    (ready : Bool) (given : ℕ) (o : Option Packet)
    → Holds (IsFairPacket ready) o
    → Holds (IsFairPacket true) (scale (add_copies given) o)
unfolding valid_hdr add_copies
Holds-take ready given none fair = tt
Holds-take ready given (some p) fair = record {
  valid = fair.valid;
  copies = ground arith;
  pending = λ e. ground arith;
}

pub take_copies-IsFair : (given : ℕ) (item : Item) → IsFair item → IsFair (take_copies given item)
unfolding set_copies take_copies
take_copies-IsFair given item = Holds-take item.ready given item.packet
