-- ===== src/Dtn/Genuine/Handlers.antt =====
-- What each handler and call of ictp/spray-dtn/dtn.c keeps of the messages of its node.
use mathlib.Core.Path.{subst}
use ts_it.Base.{ℕ, ◌+◌, ◌≡◌, refl, inl, inr, true, false, some, Option-cases, List, u16, arith}
use ts_it.Dtn.State.{Packet, Item, Dtn, Contiki, Appends, with_copies, Holds}
use ts_it.Dtn.Queue.{queue_find, write, set_copies}
use ts_it.Dtn.Queue.Laws.{queue_find-Found}
use ts_it.Dtn.Handlers.{
  spray_recv, relay_spray, take_spray, request_recv, answer_request, handoff_recv, add_copies,
  take_copies, handoff_sent, kept_copies,
}
use ts_it.Dtn.Calls.{send, new_header}
use ts_it.Dtn.Genuine.{
  Message, IsKnown, IsKnownItem, IsGenuine, IsKnown-write, enqueue-IsKnown, queue_spray-IsGenuine,
}

module _ (G : Message → Type 0) (me : ℕ) where
  take_spray-IsGenuine :
      (os : Contiki) (p : Packet) (from : ℕ) (c : Dtn)
      → Appends os
      → IsKnown G p
      → IsGenuine G me c
      → IsGenuine G me (take_spray os p from c)
  unfolding take_spray
  take_spray-IsGenuine os p from c appends k g =
      elim (Option-cases (os.enqueue c.q (with_copies 0 p) false)) [
        | inl e ↦ rw (e, take_spray) g
        | inr (q, e) ↦
            rw (e, take_spray)
              (record {
                addressed = ground (arith, g.addressed);
                queue = enqueue-IsKnown G me os c.q (with_copies 0 p) false q appends e k g.queue;
                air = (k, g.air);
                delivered = g.delivered;
              })
      ]

  relay_spray-IsGenuine :
      (os : Contiki) (p : Packet) (from : ℕ) (c : Dtn)
      → Appends os
      → IsKnown G p
      → IsGenuine G me c
      → IsGenuine G me (relay_spray os p from c)
  unfolding relay_spray
  relay_spray-IsGenuine os p from c appends k g = elim (Option-cases (queue_find p.header c.q)) [
    | inl e ↦ rw (e, relay_spray) (take_spray-IsGenuine os p from c appends k g)
    | inr ((item, found), e) ↦
        rw (e, relay_spray)
          (record {
            addressed = ground (arith, g.addressed);
            queue = ground (arith, g.queue);
            air = ground (arith, g.air, k);
            delivered = ground (arith, g.delivered);
          })
  ]

  pub spray_recv-IsGenuine :
      (os : Contiki) (p : Packet) (from : ℕ) (c : Dtn)
      → Appends os
      → IsKnown G p
      → IsGenuine G me c
      → IsGenuine G me (spray_recv os p from c)
  unfolding spray_recv
  spray_recv-IsGenuine os p from c appends k g =
      let relay = relay_spray-IsGenuine os p from c appends k g in
      record {
        addressed = ground (arith, g.addressed);
        queue = ground (arith, g.queue, relay.queue);
        air = ground (arith, g.air, relay.air, k);
        delivered = ground (arith, g.delivered, relay.delivered, k);
      }

  answer-IsGenuine :
      (item : Item) (p : Packet) (from : ℕ) (c : Dtn)
      → IsKnown G p
      → IsGenuine G me c
      → IsGenuine G me (answer_request item p from c)
  unfolding answer_request set_copies
  answer-IsGenuine item p from c k g = record {
    addressed = ground (arith, g.addressed);
    queue = ground (
      arith,
      g.queue,
      IsKnown-write G me item.address (λ _. 0) (set_copies (λ _. 0)) c.q (λ i. refl) g.queue,
    );
    air = ground (arith, g.air, k);
    delivered = ground (arith, g.delivered);
  }

  pub request_recv-IsGenuine :
      (p : Packet) (from : ℕ) (c : Dtn) → IsGenuine G me c → IsGenuine G me (request_recv p from c)
  unfolding request_recv
  request_recv-IsGenuine p from c g = elim (Option-cases (queue_find p.header c.q)) [
    | inl e ↦ record {
      addressed = ground (arith, g.addressed);
      queue = ground (arith, g.queue);
      air = ground (arith, g.air);
      delivered = ground (arith, g.delivered);
    }
    | inr ((item, found), e) ↦
        let f = queue_find-Found (IsKnownItem G) p.header c.q item found g.queue e in
        let answer =
          answer-IsGenuine item found from c (subst (Holds (IsKnown G)) f.packet_is f.holds) g in
        record {
          addressed = ground (arith, g.addressed, answer.addressed);
          queue = ground (arith, g.queue, answer.queue);
          air = ground (arith, g.air, answer.air);
          delivered = ground (arith, g.delivered, answer.delivered);
        }
  ]

  pub handoff_recv-IsGenuine :
      (p : Packet) (c : Dtn) → IsGenuine G me c → IsGenuine G me (handoff_recv p c)
  unfolding handoff_recv take_copies set_copies
  handoff_recv-IsGenuine p c g = elim (Option-cases (queue_find p.header c.q)) [
    | inl e ↦ record {
      addressed = ground (arith, g.addressed);
      queue = ground (arith, g.queue);
      air = ground (arith, g.air);
      delivered = ground (arith, g.delivered);
    }
    | inr ((item, found), e) ↦
        let n = p.header.num_copies in
        let F = take_copies n in
        let c' = record c { q = write item.address F c.q } in
        let sprayed = queue_spray-IsGenuine G me c' (record {
          addressed = g.addressed;
          queue = IsKnown-write G me item.address (add_copies n) F c.q (λ i. refl) g.queue;
          air = g.air;
          delivered = g.delivered;
        }) in
        record {
          addressed = ground (arith, g.addressed, sprayed.addressed);
          queue = ground (arith, g.queue, sprayed.queue);
          air = ground (arith, g.air, sprayed.air);
          delivered = ground (arith, g.delivered, sprayed.delivered);
        }
  ]

  pub handoff_sent-IsGenuine :
      (os : Contiki) (c d : Dtn) → IsGenuine G me c → handoff_sent os c ≡ some d → IsGenuine G me d
  unfolding handoff_sent set_copies
  handoff_sent-IsGenuine os c d g e = elim (Option-cases c.handoff_qb) [
    | inl n ↦ ground arith
    | inr (a, n) ↦
        let kept =
          IsKnown-write G me a kept_copies (set_copies kept_copies) c.q (λ i. refl) g.queue in
        record {
          addressed = ground (arith, g.addressed);
          queue = ground (arith, g.queue, kept);
          air = ground (arith, g.air);
          delivered = ground (arith, g.delivered);
        }
  ]

  -- A program's message is known where the predicate holds of it.
  pub send-IsGenuine :
      (os : Contiki) (payload : List ℕ) (to : ℕ) (c : Dtn)
      → Appends os
      → G (record { from = me; to = to; packetid = c.seqno; payload = payload })
      → IsGenuine G me c
      → IsGenuine G me (send os payload to c).1
  unfolding send new_header
  send-IsGenuine os payload to c appends k g =
      let p : Packet = record { header = new_header to c; payload = payload } in
      let known : IsKnown G p = ground (arith, k, g.addressed) in
      elim (Option-cases (os.enqueue c.q p true)) [
        | inl e ↦ record {
          addressed = ground (arith, g.addressed);
          queue = ground (arith, g.queue);
          air = ground (arith, g.air);
          delivered = ground (arith, g.delivered, g.addressed, k);
        }
        | inr (q, e) ↦
            let c' = record c { seqno = u16 (c.seqno + 1); q = q } in
            let sprayed = queue_spray-IsGenuine G me c' (record {
              addressed = g.addressed;
              queue = enqueue-IsKnown G me os c.q p true q appends e known g.queue;
              air = g.air;
              delivered = g.delivered;
            }) in
            record {
              addressed = ground (arith, g.addressed, sprayed.addressed);
              queue = ground (arith, g.queue, sprayed.queue);
              air = ground (arith, g.air, sprayed.air);
              delivered = ground (arith, g.delivered, sprayed.delivered, k, g.addressed);
            }
      ]
