-- ===== src/Dtn/Tests.antt =====
-- The theorems about ictp/spray-dtn/dtn.c at a concrete queue and concrete messages.
use ts_it.Base.{
  ℕ, ◌+◌, ◌≡◌, refl, ◌≤◌, Bool, true, false, Option, none, some, List, [], ◌∷◌, ◌++◌, length, ltb,
  if◌then◌else◌, codes, arith,
}
use ts_it.Dtn.State.{
  Header, Packet, Item, runicast, Dtn, Contiki, Appends, Holds, dtn_version, magic_s, magic_w,
  valid_hdr,
}
use ts_it.Dtn.Queue.{queue_find}
use ts_it.Dtn.Queue.Laws.{copies}
use ts_it.Dtn.Queue.Unique.{IsUnique}
use ts_it.Dtn.Handlers.{
  spray_recv, request_recv, handoff_recv, handoff_sent, relay_spray, take_spray,
}
use ts_it.Dtn.Calls.{dtn_open}
use ts_it.Dtn.Steps.{start, step, spray}
use ts_it.Dtn.Lifecycle.{Life, by_spray, absent, held}
use ts_it.Dtn.Lifecycle.Steps.{Step-Life}
use ts_it.Dtn.Copies.Handlers.{IsSound}
use ts_it.Dtn.Copies.Invariant.{Reachable-IsSound}
use ts_it.Dtn.HandOff.{CanGive, handoff-conserves}
use ts_it.Dtn.Delivery.{receive-IsUnique}

-- The message 7 from node 3 to node 9.
abbrev pub header : ℕ → Header
header n = record {
  version = dtn_version;
  magic_0 = magic_s;
  magic_1 = magic_w;
  num_copies = n;
  esender = 3;
  ereceiver = 9;
  epacketid = 7;
}

abbrev pub greeting : ℕ → Packet
greeting n = record { header = header n; payload = codes "hi" }

-- A queue of five packets, whose addresses are counted.
abbrev small_enqueue : List Item → Packet → Bool → Option (List Item)
small_enqueue q p ready =
    if ltb (length q) 5
    then some (q ++ (record { address = length q; ready = ready; packet = some p } ∷ []))
    else none

abbrev pub small : Contiki
small = record { enqueue = small_enqueue; freed = λ _. header 0 }

pub small-Appends : Appends small
small-Appends q p ready q' e = (length q, ground arith)

abbrev pub fresh : ℕ → Dtn
fresh addr = dtn_open 128 addr (header 0)

-- Node 1 with four copies of the message, ready.
abbrev giver : Dtn
giver = record {
  node_addr = 1;
  channels = 128 ∷ 129 ∷ 130 ∷ [];
  q = record { address = 0; ready = true; packet = some (greeting 4) } ∷ [];
  seqno = 0;
  spray_ct_expired = true;
  handoff_qb = none;
  handoff_hdr = header 0;
  air = [];
  delivered = [];
}

-- Node 2 with the message pending.
abbrev taker : Dtn
taker = record giver {
  node_addr = 2;
  q = record { address = 0; ready = false; packet = some (greeting 0) } ∷ [];
}

Reachable-IsSound_example : IsSound (spray_recv small (greeting 8) 3 (fresh 1))
Reachable-IsSound_example = Reachable-IsSound small small-Appends (
    step (fresh 1) (spray_recv small (greeting 8) 3 (fresh 1)) (start 128 1 (header 0))
      (spray (greeting 8) 3 (fresh 1)))

abbrev giver-CanGive : CanGive (header 0) giver
unfolding queue_find
giver-CanGive = record {
  item = record { address = 0; ready = true; packet = some (greeting 4) };
  message = greeting 4;
  found = refl;
  ready = refl;
  two = omega arith;
  idle = refl;
  allocated = (tt, tt);
}

handoff-conserves_example :
    (h : Packet) × (d : Dtn) × ((request_recv (greeting 0) 2 giver).air ≡ runicast 2 h ∷ [])
    × (handoff_sent small (request_recv (greeting 0) 2 giver) ≡ some d)
    × (copies (header 0) d.q + copies (header 0) (handoff_recv h taker).q
        ≡ copies (header 0) giver.q + copies (header 0) taker.q)
    × (1 ≤ copies (header 0) d.q)
    × (1 ≤ copies (header 0) (handoff_recv h taker).q)
unfolding queue_find valid_hdr giver-CanGive
handoff-conserves_example =
    handoff-conserves small (greeting 0) 2 giver taker giver-CanGive
      (record { address = 0; ready = false; packet = some (greeting 0) }) (greeting 0) refl refl
      (omega arith) refl (omega arith)

receive-IsUnique_example :
    IsUnique (spray_recv small (greeting 8) 3 giver).q
    × IsUnique (request_recv (greeting 8) 3 giver).q
    × IsUnique (handoff_recv (greeting 8) giver).q
    × Holds (λ d. IsUnique d.q) (handoff_sent small giver)
unfolding queue_find
receive-IsUnique_example = receive-IsUnique small (greeting 8) 3 giver small-Appends (refl, tt)

abbrev listener : Dtn
listener = record giver { node_addr = 9; q = [] }

-- Node 1 hears the message for node 9, and has it pending.
Step-Life_example : Life by_spray absent (held false 0)
unfolding dtn_open spray_recv relay_spray take_spray valid_hdr queue_find
Step-Life_example = Step-Life small (header 0) (spray (greeting 8) 3 (fresh 1)) small-Appends tt
