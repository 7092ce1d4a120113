-- ===== src/Dtn/Network/Live.antt =====
-- How a network of ictp/spray-dtn/dtn.c moves on from a new message.
use mathlib.Core.List.{Memᴰ}
use mathlib.Core.Path.{subst}
use ts_it.Base.{ℕ, ◌≡◌, ◌≢◌, refl, sym, ap, ◌∙◌, true, List, ◌∷◌, arith}
use ts_it.Dtn.State.{Packet, Radio, broadcast, unicast, Dtn, Contiki, valid_hdr}
use ts_it.Dtn.Queue.{queue_find}
use ts_it.Dtn.Queue.Laws.{copies}
use ts_it.Dtn.Handlers.{spray_recv, request_recv}
use ts_it.Dtn.Calls.{send, new_header}
use ts_it.Dtn.Calls.Laws.{new_packet, new_item}
use ts_it.Dtn.Delivery.{request_recv-confirmed}
use ts_it.Dtn.Network.{Network, put, submit, Move, hear_spray, hear_request}
use ts_it.Dtn.Network.Delivery.{CanSend, after_send}

-- Any number of moves.
pub data Moves (os : ℕ → Contiki) (n : Network) : Network → Type 0 where
  done : Moves os n n
  then_move : {n' n'' : Network} → Moves os n n' → Move os n' n'' → Moves os n n''

put-same : (a : ℕ) (d : Dtn) (n : Network) → (put a d n).nodes a ≡ d
put-same a d n = ground arith

put-other : (a b : ℕ) (d : Dtn) (n : Network) → b ≢ a → (put a d n).nodes b ≡ n.nodes b
put-other a b d n other = ground (arith, other)

Memᴰ-front : (r : Radio) (air rest : List Radio) → air ≡ r ∷ rest → Memᴰ r air
Memᴰ-front r air rest e = subst (Memᴰ r) (sym e) (Memᴰ.head refl)

module _ (os : ℕ → Contiki) (payload : List ℕ) (a b : ℕ) (n : Network)
    (at_a : (n.nodes a).node_addr ≡ a) (at_b : (n.nodes b).node_addr ≡ b)
    (s : CanSend (os a) payload b (n.nodes a)) where
  packet : Packet
  packet = new_packet payload b (n.nodes a)

  -- The message is sent, b hears it, and a hears the request.
  first : Network
  first = submit os payload b a n

  second : Network
  unfolding first packet
  second = put b (spray_recv (os b) packet a (first.nodes b)) first

  third : Network
  unfolding second packet
  third = put a (request_recv packet b (second.nodes a)) second

  apart : b ≢ a
  apart = λ e. s.other (e ∙ sym at_a)

  first-a : first.nodes a ≡ (send (os a) payload b (n.nodes a)).1
  unfolding first
  first-a = put-same a _ n

  first-b : first.nodes b ≡ n.nodes b
  unfolding first
  first-b = put-other a b _ n apart

  heard_by_b :
      let c = spray_recv (os b) packet a (n.nodes b) in
      (c.delivered
        ≡ record { from = a; packetid = (n.nodes a).seqno; payload = payload }
          ∷ (n.nodes b).delivered)
      × (c.air ≡ unicast a packet ∷ (n.nodes b).air)
  unfolding packet spray_recv new_header valid_hdr
  heard_by_b = (ground (arith, at_a, at_b, apart), ground (arith, at_a, at_b, apart))

  second-b : second.nodes b ≡ spray_recv (os b) packet a (n.nodes b)
  unfolding second
  second-b = put-same b _ first ∙ ap (spray_recv (os b) packet a) first-b

  second-a : second.nodes a ≡ (send (os a) payload b (n.nodes a)).1
  unfolding second
  second-a = put-other b a _ first (λ e. apart (sym e)) ∙ first-a

  third-a : third.nodes a ≡ request_recv packet b (send (os a) payload b (n.nodes a)).1
  unfolding third
  third-a = put-same a _ second ∙ ap (request_recv packet b) second-a

  third-b : third.nodes b ≡ spray_recv (os b) packet a (n.nodes b)
  unfolding third
  third-b = put-other a b _ second apart ∙ second-b

  -- In a network where two nodes `a` and `b` have their own addresses, and a message of `a` to `b`
  -- finds room behind the queue of `a` and its number is not there: once `a` sends it, the network
  -- can move on so that `b` has delivered it, with the address of `a`, the number of the message and
  -- the data, behind what it had delivered before, and `a` has no copies of it left.
  pub message-arrives :
      let hdr = new_header b (n.nodes a) in
      (n' : Network) × Moves os (submit os payload b a n) n'
      × ((n'.nodes b).delivered
          ≡ record { from = a; packetid = (n.nodes a).seqno; payload = payload }
            ∷ (n.nodes b).delivered)
      × (copies hdr (n'.nodes a).q ≡ 0)
  unfolding first second third packet new_header valid_hdr
  message-arrives =
      let t = after_send s in
      let p = packet in
      (
        third,
        then_move
            (then_move done (
              hear_spray a b p first
                (Memᴰ-front (broadcast p) _ t.rest (ap (λ d. d.air) first-a ∙ t.air))))
            (hear_request b a p second
              (Memᴰ-front (unicast a p) _ _ (ap (λ d. d.air) second-b ∙ heard_by_b.1))),
        ap (λ d. d.delivered) third-b ∙ heard_by_b.0,
        ap (λ d. copies p.header d.q) third-a
            ∙ request_recv-confirmed p (send (os a) payload b (n.nodes a)).1
                (new_item true t.address p) p refl (ap (queue_find p.header) t.queue ∙ t.found)
                refl,
      )
