-- ===== src/Dtn/Network.antt =====
-- Nodes that run ictp/spray-dtn/dtn.c and hear each other.
pub mod Authentic
pub mod Relay
pub mod Delivery
pub mod Live
mod Tests
use mathlib.Core.List.{Memᴰ}
use ts_it.Base.{ℕ, ◌≡◌, some, List, [], ◌∷◌, ◌==◌, if◌then◌else◌}
use ts_it.Dtn.State.{Header, Packet, broadcast, unicast, runicast, Dtn, Contiki}
use ts_it.Dtn.Handlers.{spray_recv, request_recv, handoff_recv, handoff_sent, handoff_timedout}
use ts_it.Dtn.Calls.{dtn_open, send, spray_timer}
use ts_it.Dtn.Steps.{remove}
use ts_it.Dtn.Genuine.{Message}

-- The node at each Rime address, and all that was given to dtn_send, the newest first.
pub record Network : Type 0 where
  pub nodes : ℕ → Dtn
  pub messages : List Message

-- One node changes.
abbrev pub put : ℕ → Dtn → Network → Network
put a d n = record n { nodes = λ b. if b == a then d else n.nodes b }

-- A program calls dtn_send.
abbrev pub submit : (ℕ → Contiki) → List ℕ → ℕ → ℕ → Network → Network
submit os payload to a n =
    let m : Message = record {
      from = a;
      to = to;
      packetid = (n.nodes a).seqno;
      payload = payload;
    } in
    record (put a (send (os a) payload to (n.nodes a)).1 n) { messages = m ∷ n.messages }

-- A packet may get lost, or arrive more than once, late and in any order: what a node has put on
-- the air may be heard at any later time, a broadcast by every node and the others by the node
-- that they are addressed to.
pub data Move (os : ℕ → Contiki) : Network → Network → Type 0 where
  hear_spray :
      (a b : ℕ) (p : Packet) (n : Network)
      → Memᴰ (broadcast p) (n.nodes a).air
      → Move os n (put b (spray_recv (os b) p a (n.nodes b)) n)
  hear_request :
      (a b : ℕ) (p : Packet) (n : Network)
      → Memᴰ (unicast b p) (n.nodes a).air
      → Move os n (put b (request_recv p a (n.nodes b)) n)
  hear_handoff :
      (a b : ℕ) (p : Packet) (n : Network)
      → Memᴰ (runicast b p) (n.nodes a).air
      → Move os n (put b (handoff_recv p (n.nodes b)) n)
  acknowledged :
      (a : ℕ) (n : Network) (d : Dtn)
      → handoff_sent (os a) (n.nodes a) ≡ some d
      → Move os n (put a d n)
  given_up : (a : ℕ) (n : Network) → Move os n (put a (handoff_timedout (n.nodes a)) n)
  spray_time : (a : ℕ) (n : Network) → Move os n (put a (spray_timer (n.nodes a)) n)
  expired :
      (a address : ℕ) (n : Network)
      → Move os n (put a (record (n.nodes a) { q = remove address (n.nodes a).q }) n)
  submitted : (payload : List ℕ) (to a : ℕ) (n : Network) → Move os n (submit os payload to a n)

abbrev pub opened : ℕ → (ℕ → Header) → Network
opened channel h = record { nodes = λ a. dtn_open channel a (h a); messages = [] }

-- What a network comes to, after each node has opened its connections.
pub data NetReachable (os : ℕ → Contiki) : Network → Type 0 where
  at_start : (channel : ℕ) (h : ℕ → Header) → NetReachable os (opened channel h)
  after : (n n' : Network) → NetReachable os n → Move os n n' → NetReachable os n'
