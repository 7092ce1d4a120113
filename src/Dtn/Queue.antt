-- ===== src/Dtn/Queue.antt =====
-- The packet queue of ictp/spray-dtn/dtn.c: finding a message, and spraying.
pub mod Laws
pub mod Unique
use ts_it.Base.{
  ℕ, Bool, true, false, not, ◌==◌, if◌then◌else◌, Option, none, some, map, List, [], ◌∷◌,
}
use ts_it.Dtn.State.{Header, Packet, Item, Radio, broadcast, Dtn, same_message}

-- The first item that holds the message of a header, with what it holds; items without a queue
-- buffer are passed over.
unfoldable pub queue_find : Header → List Item → Option (Item × Packet)
queue_find h [] = none
queue_find h (item ∷ q) =
    let rest = queue_find h q in
    elim item.packet [
      | none ↦ rest
      | some p ↦ if same_message h p.header then some (item, p) else rest
    ]

-- A write through the pointer to an item or to its queue buffer.
abbrev pub write_item : ℕ → (Item → Item) → Item → Item
write_item address f item = if item.address == address then f item else item

unfoldable pub write : ℕ → (Item → Item) → List Item → List Item
write address f [] = []
write address f (item ∷ q) = write_item address f item ∷ write address f q

-- The number of copies in a queue buffer is changed.
abbrev pub scale : (ℕ → ℕ) → Option Packet → Option Packet
scale f none = none
scale f (some p) =
    some (record p { header = record p.header { num_copies = f p.header.num_copies } })

unfoldable pub set_copies : (ℕ → ℕ) → Item → Item
set_copies f item = record item { packet = scale f item.packet }

-- One item's turn: ready ones with copies left are broadcast.
unfoldable pub spray_item : Item → List Radio → List Radio
spray_item item air = if not item.ready then air else elim item.packet [
  | none ↦ air
  | some p ↦ if p.header.num_copies == 0 then air else broadcast p ∷ air
]

unfoldable pub spray_items : List Item → List Radio → List Radio
spray_items [] air = air
spray_items (item ∷ q) air = spray_items q (spray_item item air)

-- Nothing is done for an empty queue; the timer is set if it has expired.
unfoldable pub queue_spray : Dtn → Dtn
queue_spray c = elim c.q [
  | [] ↦ c
  | item ∷ q ↦ record c {
    air = spray_items c.q c.air;
    spray_ct_expired = if c.spray_ct_expired then false else c.spray_ct_expired;
  }
]
