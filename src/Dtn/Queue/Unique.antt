-- ===== src/Dtn/Queue/Unique.antt =====
-- No message stands twice in the packet queue of ictp/spray-dtn/dtn.c.
use ts_it.Base.{ℕ, ◌≡◌, ◌⊎◌, inl, inr, refl, Bool, Option, none, some, List, [], ◌∷◌, ◌++◌, arith}
use ts_it.Dtn.State.{Header, Packet, Item, Holds}
use ts_it.Dtn.Queue.{queue_find, write, write_item, scale}

-- Behind an item there is no other with its message.
abbrev pub IsUnique : List Item → Type 0
IsUnique [] = Unit
IsUnique (item ∷ q) = Holds (λ p. queue_find p.header q ≡ none) item.packet × IsUnique q

-- Changing the number of copies, and what is behind the queue's end, does not bring a message in.
queue_find-write-none :
    (h g : Header) (q : List Item) (address : ℕ) (f : ℕ → ℕ) (F : Item → Item)
    → ((i : Item) → (F i).packet ≡ scale f i.packet)
    → h.esender ≡ g.esender
    → h.epacketid ≡ g.epacketid
    → queue_find h q ≡ none
    → queue_find g (write address F q) ≡ none
unfolding queue_find write
queue_find-write-none h g [] address f F same k l e = refl
queue_find-write-none h g (i ∷ q) address f F same k l e =
    ground (arith, same i, queue_find-write-none h g q address f F same k l)

write_item-packet :
    (address : ℕ) (f : ℕ → ℕ) (F : Item → Item) (i : Item)
    → ((i : Item) → (F i).packet ≡ scale f i.packet)
    → ((write_item address F i).packet ≡ scale f i.packet)
      ⊎ ((write_item address F i).packet ≡ i.packet)
write_item-packet address f F i same = ground (arith, same i)

-- No item of the queue has the message of a queue buffer.
abbrev IsNotIn : List Item → Option Packet → Type 0
IsNotIn q = Holds (λ p. queue_find p.header q ≡ none)

IsNotIn-write :
    (address : ℕ) (f : ℕ → ℕ) (F : Item → Item) (q : List Item) (o o' : Option Packet)
    → ((i : Item) → (F i).packet ≡ scale f i.packet)
    → IsNotIn q o
    → (o' ≡ scale f o) ⊎ (o' ≡ o)
    → IsNotIn (write address F q) o'
IsNotIn-write address f F q none o' same n (inl e) = rw (e) tt
IsNotIn-write address f F q none o' same n (inr e) = rw (e) tt
IsNotIn-write address f F q (some p) o' same n (inl e) =
    rw (e) (queue_find-write-none p.header _ q address f F same refl refl n)
IsNotIn-write address f F q (some p) o' same n (inr e) =
    rw (e) (queue_find-write-none p.header p.header q address f F same refl refl n)

pub write-IsUnique :
    (address : ℕ) (f : ℕ → ℕ) (F : Item → Item) (q : List Item)
    → ((i : Item) → (F i).packet ≡ scale f i.packet)
    → IsUnique q
    → IsUnique (write address F q)
unfolding write
write-IsUnique address f F [] same u = tt
write-IsUnique address f F (i ∷ q) same u = (
  IsNotIn-write address f F q i.packet _ same u.0 (write_item-packet address f F i same),
  write-IsUnique address f F q same u.1,
)

queue_find-append-none :
    (h : Header) (q : List Item) (item : Item)
    → queue_find h q ≡ none
    → queue_find h (item ∷ []) ≡ none
    → queue_find h (q ++ (item ∷ [])) ≡ none
unfolding queue_find
queue_find-append-none h [] item e k = k
queue_find-append-none h (i ∷ q) item e k = ground (arith, queue_find-append-none h q item)

IsNotIn-append :
    (q : List Item) (i : Item) (address : ℕ) (ready : Bool) (p : Packet) (o : Option Packet)
    → i.packet ≡ o
    → queue_find p.header (i ∷ q) ≡ none
    → IsNotIn q o
    → IsNotIn (q ++ (record { address = address; ready = ready; packet = some p } ∷ [])) o
unfolding queue_find
IsNotIn-append q i address ready p none k e n = tt
IsNotIn-append q i address ready p (some r) k e n =
    queue_find-append-none r.header q (record { address = address; ready = ready; packet = some p })
      n (ground arith)

pub append-IsUnique :
    (q : List Item) (address : ℕ) (ready : Bool) (p : Packet)
    → queue_find p.header q ≡ none
    → IsUnique q
    → IsUnique (q ++ (record { address = address; ready = ready; packet = some p } ∷ []))
unfolding queue_find
append-IsUnique [] address ready p e u = (refl, tt)
append-IsUnique (i ∷ q) address ready p e u = (
  IsNotIn-append q i address ready p i.packet refl e u.0,
  append-IsUnique q address ready p (ground arith) u.1,
)
