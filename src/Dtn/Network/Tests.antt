-- ===== src/Dtn/Network/Tests.antt =====
-- The theorems about networks of ictp/spray-dtn/dtn.c at nodes 1, 2 and 9.
use mathlib.Core.List.{Memᴰ}
use ts_it.Base.{◌≡◌, refl, true, false, some, List, [], ◌∷◌, codes, arith, ℕ}
use ts_it.Dtn.State.{
  Packet, Radio, broadcast, unicast, runicast, Dtn, Delivered, Contiki, with_copies, valid_hdr,
}
use ts_it.Dtn.Queue.Laws.{copies}
use ts_it.Dtn.Network.Live.{Moves, message-arrives}
use ts_it.Dtn.Network.Relay.{CanRelay}
use ts_it.Dtn.Queue.{queue_find, spray_item, spray_items, queue_spray}
use ts_it.Dtn.Handlers.{spray_recv, request_recv, handoff_recv, handoff_sent}
use ts_it.Dtn.Calls.{dtn_open, send, new_header}
use ts_it.Dtn.Calls.Laws.{new_packet}
use ts_it.Dtn.Genuine.{message_at}
use ts_it.Dtn.Network.{Network, opened, submit, put, at_start, after, submitted, hear_spray}
use ts_it.Dtn.Network.Authentic.{delivered-IsSubmitted}
use ts_it.Dtn.Network.Delivery.{CanSend, relay-arrives}
use ts_it.Dtn.Tests.{header, small, small-Appends, fresh}

abbrev everywhere : ℕ → Contiki
everywhere _ = small

abbrev first : Network
first = opened 128 (λ _. header 0)

abbrev second : Network
second = submit everywhere (codes "hi") 9 1 first

abbrev hello : Packet
hello = new_packet (codes "hi") 9 (fresh 1)

abbrev third : Network
third = put 9 (spray_recv small hello 1 (second.nodes 9)) second

abbrev hello_delivered : Delivered
hello_delivered = record { from = 1; packetid = 0; payload = codes "hi" }

delivered-IsSubmitted_example : Memᴰ (message_at 9 hello_delivered) third.messages
unfolding dtn_open send new_header spray_recv valid_hdr queue_spray spray_items spray_item
delivered-IsSubmitted_example =
    delivered-IsSubmitted everywhere 9 hello_delivered (λ a. small-Appends)
      (after second third
        (after first second (at_start 128 (λ _. header 0)) (submitted (codes "hi") 9 1 first))
        (hear_spray 1 9 hello second (Memᴰ.head refl)))
      (Memᴰ.head refl)

hello_sends : CanSend small (codes "hi") 9 (fresh 1)
unfolding dtn_open queue_find
hello_sends = record {
  appends = small-Appends;
  other = omega arith;
  q = record { address = 0; ready = true; packet = some hello } ∷ [];
  room = refl;
  absent = refl;
}

abbrev message : Packet
message = record { header = new_header 9 (fresh 1); payload = codes "hi" }

hello_is_relayed : CanRelay small (new_packet (codes "hi") 9 (fresh 1)) (fresh 2)
unfolding dtn_open queue_find new_header
hello_is_relayed = record {
  appends = small-Appends;
  not_from = omega arith;
  not_to = omega arith;
  q = record { address = 0; ready = false; packet = some (with_copies 0 hello) } ∷ [];
  room = refl;
  absent = refl;
}

relay-arrives_example :
    let a₁ = (send small (codes "hi") 9 (fresh 1)).1 in
    let r₁ = spray_recv small message 1 (fresh 2) in
    let a₂ = request_recv (with_copies 0 message) 2 a₁ in
    let r₂ = handoff_recv (with_copies 4 message) r₁ in
    let d₁ = spray_recv small (with_copies 4 message) 2 (fresh 9) in
    let r₃ = request_recv (with_copies 4 message) 9 r₂ in
    ((rest : List Radio) × (a₁.air ≡ broadcast message ∷ rest))
    × (r₁.air ≡ unicast 1 (with_copies 0 message) ∷ [])
    × (a₂.air ≡ runicast 2 (with_copies 4 message) ∷ a₁.air)
    × ((rest : List Radio) × (r₂.air ≡ broadcast (with_copies 4 message) ∷ rest))
    × (d₁.delivered ≡ hello_delivered ∷ [])
    × (d₁.air ≡ unicast 2 (with_copies 4 message) ∷ [])
    × (copies message.header r₃.q ≡ 0)
    × ((a₃ : Dtn) × (handoff_sent small a₂ ≡ some a₃) × (copies message.header a₃.q ≡ 4))
unfolding dtn_open hello_sends
relay-arrives_example =
    relay-arrives small small small (codes "hi") (fresh 1) (fresh 2) (fresh 9) hello_sends
      hello_is_relayed refl (tt, tt)

message-arrives_example :
    (n' : Network) × Moves everywhere (submit everywhere (codes "hi") 9 1 first) n'
    × ((n'.nodes 9).delivered ≡ hello_delivered ∷ [])
    × (copies hello.header (n'.nodes 1).q ≡ 0)
unfolding dtn_open
message-arrives_example = message-arrives everywhere (codes "hi") 1 9 first refl refl hello_sends
