-- ===== src/Dtn/Steps.antt =====
-- A node of ictp/spray-dtn/dtn.c as a state machine: the handlers, the calls of the program, the
-- timers and the lifetime of queued packets, in any order.
use ts_it.Base.{ℕ, ◌≡◌, some, List, [], ◌∷◌, ◌==◌, if◌then◌else◌}
use ts_it.Dtn.State.{Header, Packet, Item, Dtn, Contiki}
use ts_it.Dtn.Handlers.{spray_recv, request_recv, handoff_recv, handoff_sent, handoff_timedout}
use ts_it.Dtn.Calls.{dtn_open, dtn_close, dtn_set_power, send, set_addr, spray_timer}

-- Contiki takes the packet at an address out of the queue, when its lifetime is over.
abbrev pub remove : ℕ → List Item → List Item
remove address [] = []
remove address (item ∷ q) =
    if item.address == address then remove address q else item ∷ remove address q

pub data Step (os : Contiki) : Dtn → Dtn → Type 0 where
  spray : (p : Packet) (from : ℕ) (c : Dtn) → Step os c (spray_recv os p from c)
  request : (p : Packet) (from : ℕ) (c : Dtn) → Step os c (request_recv p from c)
  handoff : (p : Packet) (c : Dtn) → Step os c (handoff_recv p c)
  sent : (c d : Dtn) → handoff_sent os c ≡ some d → Step os c d
  timed_out : (c : Dtn) → Step os c (handoff_timedout c)
  timer : (c : Dtn) → Step os c (spray_timer c)
  expire : (address : ℕ) (c : Dtn) → Step os c (record c { q = remove address c.q })
  message : (payload : List ℕ) (to : ℕ) (c : Dtn) → Step os c (send os payload to c).1
  address : (addr : ℕ) (c : Dtn) → Step os c (set_addr addr c)
  power : (n : ℕ) (c : Dtn) → Step os c (dtn_set_power n c)
  close : (c : Dtn) → Step os c (dtn_close c)

-- What a node comes to from its start.
pub data Reachable (os : Contiki) : Dtn → Type 0 where
  start : (channel addr : ℕ) (h : Header) → Reachable os (dtn_open channel addr h)
  step : (c d : Dtn) → Reachable os c → Step os c d → Reachable os d
