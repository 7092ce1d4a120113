-- ===== src/Dtn/Lifecycle.antt =====
-- What a node of ictp/spray-dtn/dtn.c has of one message, as an abstract machine that knows nothing
-- of queues and addresses.
pub mod Refined
pub mod Steps
use ts_it.Base.{
  ℕ, ◌≡◌, ◌⊎◌, inl, inr, refl, Bool, true, false, Option, none, some, List, [], ◌∷◌, ◌++◌, arith,
  min, ◌+◌, ◌/◌, ◌%◌,
}
use ts_it.Dtn.State.{Header, Packet, Item, same_message}
use ts_it.Dtn.Queue.{queue_find, write, scale}
use ts_it.Dtn.Queue.Unique.{IsUnique}
use ts_it.Dtn.Steps.{remove}

-- Nothing, or the message with its number of copies, ready or pending.
pub data Stock : Type 0 where
  absent : Stock
  held : Bool → ℕ → Stock

-- What makes a step: a spray, a request, a hand-off of so many copies or its acknowledgement is
-- heard, the program sends, a packet's lifetime is over, or anything else.
pub data Cause : Type 0 where
  by_spray by_request by_acknowledgement by_program by_expiry by_nothing : Cause
  by_handoff : ℕ → Cause

-- The life of a message at a node: it is taken from a spray, sent by the program, gets copies from
-- a hand-off, where the sum has 16 bits and 8 is the limit, is confirmed by its receiver, gives half
-- of its copies away, rounded down, and is forgotten.
pub data Life : Cause → Stock → Stock → Type 0 where
  stays : {cause : Cause} (s : Stock) → Life cause s s
  taken : Life by_spray absent (held false 0)
  submitted : Life by_program absent (held true 8)
  received :
      (ready : Bool) (n given m : ℕ)
      → m ≡ min 8 ((n + given) % 65536)
      → Life (by_handoff given) (held ready n) (held true m)
  confirmed : (ready : Bool) (n : ℕ) → Life by_request (held ready n) (held ready 0)
  halved :
      (ready : Bool) (n m : ℕ)
      → m + n / 2 ≡ n
      → Life by_acknowledgement (held ready n) (held ready m)
  forgotten : (s : Stock) → Life by_expiry s absent

-- What a queue has of the message of a header.
abbrev pub stock_of : Option (Item × Packet) → Stock
stock_of none = absent
stock_of (some (item, p)) = held item.ready p.header.num_copies

abbrev pub stock : Header → List Item → Stock
stock h q = stock_of (queue_find h q)

abbrev pub change : (Bool → Bool) → (ℕ → ℕ) → Stock → Stock
change k f absent = absent
change k f (held ready n) = held (k ready) (f n)

-- A write of the state and of the number of copies reaches the message or leaves it.
pub stock-write :
    (h : Header) (address : ℕ) (k : Bool → Bool) (f : ℕ → ℕ) (F : Item → Item) (q : List Item)
    → ((i : Item) → (F i).packet ≡ scale f i.packet)
    → ((i : Item) → (F i).ready ≡ k i.ready)
    → (stock h (write address F q) ≡ stock h q)
      ⊎ (stock h (write address F q) ≡ change k f (stock h q))
unfolding queue_find write
stock-write h address k f F [] same state = inl refl
stock-write h address k f F (i ∷ q) same state =
    ground (arith, same i, state i, stock-write h address k f F q same state)

-- A packet behind the queue is what there is of its message if that was absent.
pub stock-append :
    (h : Header) (q : List Item) (address : ℕ) (ready : Bool) (p : Packet)
    → let q' = q ++ (record { address = address; ready = ready; packet = some p } ∷ []) in
      (stock h q' ≡ stock h q)
      ⊎ ((stock h q ≡ absent) × (stock h q' ≡ held ready p.header.num_copies))
unfolding queue_find
stock-append h [] address ready p = ground arith
stock-append h (i ∷ q) address ready p = ground (arith, stock-append h q address ready p)

queue_find-remove :
    (h : Header) (address : ℕ) (q : List Item)
    → queue_find h q ≡ none
    → queue_find h (remove address q) ≡ none
unfolding queue_find
queue_find-remove h address [] e = refl
queue_find-remove h address (i ∷ q) e = ground (arith, queue_find-remove h address q)
