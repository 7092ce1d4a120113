-- ===== src/Dtn/Genuine/Steps.antt =====
-- What can happen to a node of ictp/spray-dtn/dtn.c without its program, where the sprays that it
-- hears satisfy a predicate.
use ts_it.Base.{ℕ, ◌≡◌, true, some}
use ts_it.Dtn.State.{Packet, Dtn, Contiki, Appends}
use ts_it.Dtn.Queue.Laws.{All-remove}
use ts_it.Dtn.Handlers.{spray_recv, request_recv, handoff_recv, handoff_sent, handoff_timedout}
use ts_it.Dtn.Calls.{spray_timer}
use ts_it.Dtn.Steps.{remove}
use ts_it.Dtn.Genuine.{Message, IsKnown, IsKnownItem, IsGenuine, queue_spray-IsGenuine}
use ts_it.Dtn.Genuine.Handlers.{
  spray_recv-IsGenuine, request_recv-IsGenuine, handoff_recv-IsGenuine, handoff_sent-IsGenuine,
}

pub data Hearing (os : Contiki) (G : Message → Type 0) : Dtn → Dtn → Type 0 where
  hears_spray :
      (p : Packet) (from : ℕ) (c : Dtn) → IsKnown G p → Hearing os G c (spray_recv os p from c)
  hears_request : (p : Packet) (from : ℕ) (c : Dtn) → Hearing os G c (request_recv p from c)
  hears_handoff : (p : Packet) (c : Dtn) → Hearing os G c (handoff_recv p c)
  hears_ack : (c d : Dtn) → handoff_sent os c ≡ some d → Hearing os G c d
  gives_up : (c : Dtn) → Hearing os G c (handoff_timedout c)
  sprays : (c : Dtn) → Hearing os G c (spray_timer c)
  forgets : (address : ℕ) (c : Dtn) → Hearing os G c (record c { q = remove address c.q })

pub Hearing-IsGenuine :
    (os : Contiki) (G : Message → Type 0) (me : ℕ) {c d : Dtn}
    → Appends os
    → IsGenuine G me c
    → Hearing os G c d
    → IsGenuine G me d
unfolding handoff_timedout spray_timer
Hearing-IsGenuine os G me appends g (hears_spray p from c k) =
    spray_recv-IsGenuine G me os p from c appends k g
Hearing-IsGenuine os G me appends g (hears_request p from c) =
    request_recv-IsGenuine G me p from c g
Hearing-IsGenuine os G me appends g (hears_handoff p c) = handoff_recv-IsGenuine G me p c g
Hearing-IsGenuine os G me appends g (hears_ack c d e) = handoff_sent-IsGenuine G me os c d g e
Hearing-IsGenuine os G me appends g (gives_up c) = record {
  addressed = g.addressed;
  queue = g.queue;
  air = g.air;
  delivered = g.delivered;
}
Hearing-IsGenuine os G me appends g (sprays c) =
    queue_spray-IsGenuine G me (record c { spray_ct_expired = true })
      (record { addressed = g.addressed; queue = g.queue; air = g.air; delivered = g.delivered })
Hearing-IsGenuine os G me appends g (forgets address c) = record {
  addressed = g.addressed;
  queue = All-remove (IsKnownItem G) address c.q g.queue;
  air = g.air;
  delivered = g.delivered;
}
