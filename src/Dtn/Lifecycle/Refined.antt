-- ===== src/Dtn/Lifecycle/Refined.antt =====
-- What the queue of ictp/spray-dtn/dtn.c does with each message, by the abstract machine.
use ts_it.Base.{
  ℕ, ◌≡◌, ◌⊎◌, inl, inr, refl, ap, ◌∙◌, Bool, true, false, Bool-cases, Option, none, some,
  Option-cases, List, [], ◌∷◌, arith, min, ◌+◌, ◌%◌,
}
use ts_it.Dtn.State.{Header, Packet, Item, Dtn, Contiki, Appends, with_copies, Holds, same_message}
use ts_it.Dtn.Queue.{queue_find, write, scale}
use ts_it.Dtn.Queue.Unique.{IsUnique}
use ts_it.Dtn.Handlers.{relay_spray, take_spray, add_copies, kept_copies}
use ts_it.Dtn.Steps.{remove}
use ts_it.Dtn.Lifecycle.{
  Stock, absent, held, Cause, by_spray, by_request, by_acknowledgement, by_expiry, by_handoff, Life,
  stays, taken, received, confirmed, halved, forgotten, stock, change, stock-write, stock-append,
  queue_find-remove,
}

same-none :
    (h g : Header) (q : List Item)
    → same_message h g ≡ true
    → queue_find g q ≡ none
    → queue_find h q ≡ none
unfolding queue_find
same-none h g [] e n = refl
same-none h g (i ∷ q) e n = ground (arith, same-none h g q e)

-- The item in front, where its message is not behind it.
remove-front :
    (h : Header) (a : ℕ) (i : Item) (q : List Item) (o : Option Packet)
    → i.packet ≡ o
    → Holds (λ p. queue_find p.header q ≡ none) o
    → (stock h (remove a q) ≡ stock h q) ⊎ (stock h (remove a q) ≡ absent)
    → (stock h (remove a (i ∷ q)) ≡ stock h (i ∷ q)) ⊎ (stock h (remove a (i ∷ q)) ≡ absent)
unfolding queue_find
remove-front h a i q none e alone rest = ground (arith, e, rest)
remove-front h a i q (some p) e alone rest = elim (Bool-cases (same_message h p.header)) [
  | inl same ↦
      let gone = queue_find-remove h a q (same-none h p.header q same alone) in
      ground (arith, e, same, gone)
  | inr other ↦ ground (arith, e, other, rest)
]

pub stock-remove :
    (h : Header) (a : ℕ) (q : List Item)
    → IsUnique q
    → (stock h (remove a q) ≡ stock h q) ⊎ (stock h (remove a q) ≡ absent)
stock-remove h a [] u = inl refl
stock-remove h a (i ∷ q) u = remove-front h a i q i.packet refl u.0 (stock-remove h a q u.1)

-- The lives that the queue's operations lead to.
pub Life-eq : {cause : Cause} (s t : Stock) → t ≡ s → Life cause s t
Life-eq s t e = rw (e) (stays s)

pub Life-forgotten : (s t : Stock) → (t ≡ s) ⊎ (t ≡ absent) → Life by_expiry s t
Life-forgotten s t (inl e) = Life-eq s t e
Life-forgotten s t (inr e) = rw (e) (forgotten s)

-- A write that makes a step of the machine, where it reaches the message.
module _ {cause : Cause} (k : Bool → Bool) (f : ℕ → ℕ)
    (reaches : (s : Stock) → Life cause s (change k f s)) where
  pub Life-write :
      (h : Header) (a : ℕ) (F : Item → Item) (q : List Item)
      → ((i : Item) → (F i).packet ≡ scale f i.packet)
      → ((i : Item) → (F i).ready ≡ k i.ready)
      → Life cause (stock h q) (stock h (write a F q))
  Life-write h a F q same state = elim (stock-write h a k f F q same state) [
    | inl e ↦ Life-eq _ _ e
    | inr e ↦ rw (e) (reaches (stock h q))
  ]

pub reaches-confirmed : (s : Stock) → Life by_request s (change (λ r. r) (λ _. 0) s)
reaches-confirmed absent = stays absent
reaches-confirmed (held ready n) = confirmed ready n

pub reaches-halved : (s : Stock) → Life by_acknowledgement s (change (λ r. r) kept_copies s)
reaches-halved absent = stays absent
reaches-halved (held ready n) = halved ready n (kept_copies n) (omega arith)

add_copies-min : (given n : ℕ) → add_copies given n ≡ min 8 ((n + given) % 65536)
unfolding add_copies
add_copies-min given n = ground arith

pub reaches-received :
    (given : ℕ) (s : Stock) → Life (by_handoff given) s (change (λ _. true) (add_copies given) s)
reaches-received given absent = stays absent
reaches-received given (held ready n) =
    received ready n given (add_copies given n) (add_copies-min given n)

-- A new item, where its message makes a step from nothing.
pub Life-enqueued :
    {cause : Cause} (os : Contiki) (h : Header) (q : List Item) (p : Packet) (ready : Bool)
    (q' : List Item)
    → Appends os
    → os.enqueue q p ready ≡ some q'
    → Life cause absent (held ready p.header.num_copies)
    → Life cause (stock h q) (stock h q')
Life-enqueued os h q p ready q' appends e new =
    let (a, k) = appends q p ready q' e in
    elim (stock-append h q a ready p) [
      | inl same ↦ Life-eq _ _ (ap (stock h) k ∙ same)
      | inr (gone, there) ↦ rw (k, there, gone) new
    ]

take_spray-Life :
    (os : Contiki) (p : Packet) (from : ℕ) (c : Dtn) (h : Header)
    → Appends os
    → Life by_spray (stock h c.q) (stock h (take_spray os p from c).q)
unfolding take_spray
take_spray-Life os p from c h appends =
    elim (Option-cases (os.enqueue c.q (with_copies 0 p) false)) [
      | inl e ↦ rw (e, take_spray) (stays (stock h c.q))
      | inr (q, e) ↦
          rw (e, take_spray) (Life-enqueued os h c.q (with_copies 0 p) false q appends e taken)
    ]

pub relay_spray-Life :
    (os : Contiki) (p : Packet) (from : ℕ) (c : Dtn) (h : Header)
    → Appends os
    → Life by_spray (stock h c.q) (stock h (relay_spray os p from c).q)
unfolding relay_spray
relay_spray-Life os p from c h appends = elim (Option-cases (queue_find p.header c.q)) [
  | inl e ↦ rw (e, relay_spray) (take_spray-Life os p from c h appends)
  | inr ((item, found), e) ↦ Life-eq _ _ (ap (stock h) (ground (arith, e)))
]
