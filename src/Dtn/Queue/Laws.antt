-- ===== src/Dtn/Queue/Laws.antt =====
-- The packet queue of ictp/spray-dtn/dtn.c: what is found is in the queue, and a write reaches it.
use ts_it.Base.{ℕ, ◌≡◌, ◌≢◌, refl, true, Option, none, some, List, [], ◌∷◌, All, arith}
use ts_it.Dtn.State.{Header, Packet, Item, Dtn, Contiki, same_message}
use ts_it.Dtn.Queue.{queue_find, write, scale, queue_spray}
use ts_it.Dtn.Handlers.{header_at}
use ts_it.Dtn.Steps.{remove}

-- The message that is looked for is in an item of the queue.
pub record Found (P : Item → Type 0) (h : Header) (item : Item) (p : Packet) : Type 0 where
  pub holds : P item
  pub packet_is : item.packet ≡ some p
  pub same : same_message h p.header ≡ true

pub queue_find-Found :
    (P : Item → Type 0) (h : Header) (q : List Item) (item : Item) (p : Packet)
    → All P q
    → queue_find h q ≡ some (item, p)
    → Found P h item p
unfolding queue_find
queue_find-Found P h [] item p all e = ground arith
queue_find-Found P h (i ∷ q) item p all e = ground (arith, queue_find-Found P h q item p all.1)

pub All-write :
    (P : Item → Type 0) (address : ℕ) (f : Item → Item) (q : List Item)
    → ((item : Item) → P item → P (f item))
    → All P q
    → All P (write address f q)
unfolding write
All-write P address f [] keeps all = tt
All-write P address f (item ∷ q) keeps all =
    (ground (arith, keeps item all.0), All-write P address f q keeps all.1)

pub All-remove :
    (P : Item → Type 0) (address : ℕ) (q : List Item) → All P q → All P (remove address q)
All-remove P address [] all = tt
All-remove P address (item ∷ q) all = ground (arith, all.0, All-remove P address q all.1)

pub queue_spray-q : (c : Dtn) → (queue_spray c).q ≡ c.q
unfolding queue_spray
queue_spray-q c = ground arith

-- The number of copies of a message in the queue.
abbrev pub copies_of : Option (Item × Packet) → ℕ
copies_of none = 0
copies_of (some (_, p)) = p.header.num_copies

abbrev pub copies : Header → List Item → ℕ
copies h q = copies_of (queue_find h q)

-- A write that changes only the number of copies is found again.
pub queue_find-write :
    (h : Header) (q : List Item) (item : Item) (p : Packet) (f : ℕ → ℕ) (F : Item → Item)
    → ((i : Item) → (F i).packet ≡ scale f i.packet)
    → queue_find h q ≡ some (item, p)
    → queue_find h (write item.address F q)
      ≡ some (F item, record p { header = record p.header { num_copies = f p.header.num_copies } })
unfolding queue_find write
queue_find-write h [] item p f F same e = ground arith
queue_find-write h (i ∷ q) item p f F same e =
    ground (arith, same i, queue_find-write h q item p f F same)

-- Different items lie at different addresses.
abbrev pub IsAllocated : List Item → Type 0
IsAllocated [] = Unit
IsAllocated (item ∷ q) = All (λ i. i.address ≢ item.address) q × IsAllocated q

header_at-none :
    (os : Contiki) (address : ℕ) (h : Header) (q : List Item) (item : Item) (p : Packet)
    → All (λ i. i.address ≢ address) q
    → queue_find h q ≡ some (item, p)
    → item.address ≢ address
unfolding queue_find
header_at-none os address h [] item p all e = ground arith
header_at-none os address h (i ∷ q) item p all e =
    ground (arith, all.0, header_at-none os address h q item p all.1)

pub header_at-found :
    (os : Contiki) (h : Header) (q : List Item) (item : Item) (p : Packet)
    → IsAllocated q
    → queue_find h q ≡ some (item, p)
    → header_at os item.address q ≡ p.header
unfolding queue_find header_at
header_at-found os h [] item p d e = ground arith
header_at-found os h (i ∷ q) item p d e =
    ground (arith, header_at-found os h q item p d.1, header_at-none os i.address h q item p d.0)

-- The search reads only the origin and the number of a message.
pub queue_find-same :
    (h g : Header) (q : List Item)
    → h.esender ≡ g.esender
    → h.epacketid ≡ g.epacketid
    → queue_find h q ≡ queue_find g q
unfolding queue_find
queue_find-same h g [] k l = refl
queue_find-same h g (i ∷ q) k l = ground (arith, queue_find-same h g q k l)
