-- ===== src/Dtn/Network/Authentic.antt =====
-- What the nodes of a network of ictp/spray-dtn/dtn.c deliver, against what was sent.
use mathlib.Core.List.{Memᴰ}
use mathlib.Core.Path.{subst}
use ts_it.Base.{
  ℕ, ◌≡◌, refl, sym, inl, inr, Bool-cases, Option, none, some, List, [], ◌∷◌, ◌==◌, All, arith,
}
use ts_it.Dtn.State.{Packet, broadcast, Holds, Item, Radio, Dtn, Delivered, Contiki, Appends}
use ts_it.Dtn.Calls.{dtn_open, send}
use ts_it.Dtn.Genuine.{
  Message, message_at, IsKnown, IsKnownItem, IsKnownRadio, IsKnownAt, IsGenuine,
}
use ts_it.Dtn.Genuine.Handlers.{send-IsGenuine}
use ts_it.Dtn.Genuine.Steps.{
  Hearing, hears_spray, hears_request, hears_handoff, hears_ack, gives_up, sprays, forgets,
  Hearing-IsGenuine,
}
use ts_it.Dtn.Network.{
  Network, put, submit, Move, hear_spray, hear_request, hear_handoff, acknowledged, given_up,
  spray_time, expired, submitted, NetReachable, at_start, after,
}

All-Memᴰ {ℓ κ} : {A : Type ℓ} (P : A → Type κ) (x : A) (xs : List A) → All P xs → Memᴰ x xs → P x
All-Memᴰ P x [] all m = elim m [ ]
All-Memᴰ P x (y ∷ ys) all (Memᴰ.head e) = subst P (sym e) all.0
All-Memᴰ P x (y ∷ ys) all (Memᴰ.tail m) = All-Memᴰ P x ys all.1 m

All-weaken {ℓ κ} :
    {A : Type ℓ} (P Q : A → Type κ) (xs : List A) → ((x : A) → P x → Q x) → All P xs → All Q xs
All-weaken P Q [] f all = tt
All-weaken P Q (x ∷ xs) f all = (f x all.0, All-weaken P Q xs f all.1)

IsGenuine-weaken :
    (G H : Message → Type 0) (me : ℕ) (c : Dtn)
    → ((m : Message) → G m → H m)
    → IsGenuine G me c
    → IsGenuine H me c
IsGenuine-weaken G H me c f g = record {
  addressed = g.addressed;
  queue = All-weaken (IsKnownItem G) (IsKnownItem H) c.q (weaken f) g.queue;
  air = All-weaken (IsKnownRadio G) (IsKnownRadio H) c.air (λ r. f _) g.air;
  delivered = All-weaken (IsKnownAt G me) (IsKnownAt H me) c.delivered (λ d. f _) g.delivered;
}
  where
    held :
        (f : (m : Message) → G m → H m) (o : Option Packet)
        → Holds (IsKnown G) o
        → Holds (IsKnown H) o
    held f none k = tt
    held f (some p) k = f _ k

    weaken : (f : (m : Message) → G m → H m) (i : Item) → IsKnownItem G i → IsKnownItem H i
    weaken f i = held f i.packet

-- Each node has its own address, and has, sends and delivers only messages that were submitted.
abbrev IsSubmitted : Network → Message → Type 0
IsSubmitted n m = Memᴰ m n.messages

abbrev IsAuthentic : Network → Type 0
IsAuthentic n = (a : ℕ) → IsGenuine (IsSubmitted n) a (n.nodes a)

module _ (n : Network) (authentic : IsAuthentic n) where
  IsAuthentic-put : (a : ℕ) (d : Dtn) → IsGenuine (IsSubmitted n) a d → IsAuthentic (put a d n)
  IsAuthentic-put a d g b = elim (Bool-cases (b == a)) [
    | inl e ↦ let same : b ≡ a = ground (arith, e) in rw (e, same) g
    | inr e ↦ rw (e) (authentic b)
  ]

  -- What is on the air is known.
  heard : (a : ℕ) (r : Radio) → Memᴰ r (n.nodes a).air → IsKnownRadio (IsSubmitted n) r
  heard a r = All-Memᴰ (IsKnownRadio (IsSubmitted n)) r (n.nodes a).air (authentic a).air

module _ (os : ℕ → Contiki) (appends : (a : ℕ) → Appends (os a)) where
  heard-IsAuthentic :
      (n : Network) (a : ℕ) (d : Dtn)
      → IsAuthentic n
      → Hearing (os a) (IsSubmitted n) (n.nodes a) d
      → IsAuthentic (put a d n)
  heard-IsAuthentic n a d h step =
      IsAuthentic-put n h a d (Hearing-IsGenuine (os a) (IsSubmitted n) a (appends a) (h a) step)

  Move-IsAuthentic : {n n' : Network} → IsAuthentic n → Move os n n' → IsAuthentic n'
  Move-IsAuthentic h (hear_spray a b p n m) =
      heard-IsAuthentic n b _ h (hears_spray p a (n.nodes b) (heard n h a (broadcast p) m))
  Move-IsAuthentic h (hear_request a b p n m) =
      heard-IsAuthentic n b _ h (hears_request p a (n.nodes b))
  Move-IsAuthentic h (hear_handoff a b p n m) =
      heard-IsAuthentic n b _ h (hears_handoff p (n.nodes b))
  Move-IsAuthentic h (acknowledged a n d e) = heard-IsAuthentic n a d h (hears_ack (n.nodes a) d e)
  Move-IsAuthentic h (given_up a n) = heard-IsAuthentic n a _ h (gives_up (n.nodes a))
  Move-IsAuthentic h (spray_time a n) = heard-IsAuthentic n a _ h (sprays (n.nodes a))
  Move-IsAuthentic h (expired a address n) = heard-IsAuthentic n a _ h (forgets address (n.nodes a))
  Move-IsAuthentic h (submitted payload to a n) =
      let n' = submit os payload to a n in
      let later = λ (b : ℕ).
        IsGenuine-weaken (IsSubmitted n) (IsSubmitted n') b (n.nodes b) (λ m. Memᴰ.tail) (h b) in
      IsAuthentic-put (record n { messages = n'.messages }) later a
        (send (os a) payload to (n.nodes a)).1
        (send-IsGenuine (IsSubmitted n') a (os a) payload to (n.nodes a) (appends a)
          (Memᴰ.head refl) (later a))

NetReachable-IsAuthentic :
    (os : ℕ → Contiki) {n : Network}
    → ((a : ℕ) → Appends (os a))
    → NetReachable os n
    → IsAuthentic n
unfolding dtn_open
NetReachable-IsAuthentic os appends (at_start channel h) a = record {
  addressed = refl;
  queue = tt;
  air = tt;
  delivered = tt;
}
NetReachable-IsAuthentic os appends (after n n' r m) a =
    Move-IsAuthentic os appends (NetReachable-IsAuthentic os appends r) m a

-- However often and in whatever order the nodes of a network hear each other's sprays, requests and
-- hand-offs, lose them, time out, forget messages and send new ones, and whatever nodes relay: where
-- Contiki puts a packet behind the others of a queue, each message that a node has delivered was
-- given to dtn_send for that node, at the node that the callback names as its sender, with that
-- number and with those data.
pub delivered-IsSubmitted :
    (os : ℕ → Contiki) {n : Network} (b : ℕ) (d : Delivered)
    → ((a : ℕ) → Appends (os a))
    → NetReachable os n
    → Memᴰ d (n.nodes b).delivered
    → Memᴰ (message_at b d) n.messages
delivered-IsSubmitted os {n} b d appends r =
    All-Memᴰ (IsKnownAt (IsSubmitted n) b) d (n.nodes b).delivered
      (NetReachable-IsAuthentic os appends r b).delivered
