-- ===== src/Dtn/Calls.antt =====
-- The functions that a program calls, of ictp/spray-dtn/dtn.c, and the timers that run in between.
pub mod Laws
use ts_it.Base.{ℕ, ◌+◌, true, ◌==◌, if◌then◌else◌, u16, none, some, List, [], ◌∷◌}
use ts_it.Dtn.State.{Header, Dtn, Contiki, dtn_version, l_copies, magic_s, magic_w}
use ts_it.Dtn.Queue.{queue_spray}

-- The fields that it sets; the header of a hand-off is what the memory holds.
unfoldable pub dtn_open : ℕ → ℕ → Header → Dtn
dtn_open dtn_channel node_addr handoff_hdr = record {
  node_addr = node_addr;
  channels = u16 dtn_channel ∷ u16 (dtn_channel + 1) ∷ u16 (dtn_channel + 2) ∷ [];
  q = [];
  seqno = 0;
  spray_ct_expired = true;
  handoff_qb = none;
  handoff_hdr = handoff_hdr;
  air = [];
  delivered = [];
}

-- The three connections are closed; the queue and the timer stay.
unfoldable pub dtn_close : Dtn → Dtn
dtn_close c = record c { channels = [] }

-- The header that a new message gets.
unfoldable pub new_header : ℕ → Dtn → Header
new_header to c = record {
  version = dtn_version;
  magic_0 = magic_s;
  magic_1 = magic_w;
  num_copies = l_copies;
  esender = c.node_addr;
  ereceiver = to;
  epacketid = c.seqno;
}

-- The number is 1 where the message was accepted.
unfoldable pub send : Contiki → List ℕ → ℕ → Dtn → ℕ × Dtn
unfolding new_header
send os payload to c =
    let next = record c { seqno = u16 (c.seqno + 1) } in
    if to == c.node_addr
    then (
      1,
      record next {
        delivered = record { from = to; packetid = c.seqno; payload = payload } ∷ c.delivered;
      },
    )
    else elim (os.enqueue c.q (record { header = new_header to c; payload = payload }) true) [
      | none ↦ (0, next)
      | some q ↦ (1, queue_spray (record next { q = q }))
    ]

unfoldable pub set_addr : ℕ → Dtn → Dtn
set_addr addr c = record c { node_addr = addr }

-- The timer of the spray runs out: dtn_queue_spray is called.
unfoldable pub spray_timer : Dtn → Dtn
spray_timer c = queue_spray (record c { spray_ct_expired = true })

-- The function set_power of the same file has an empty body.
unfoldable pub dtn_set_power : ℕ → Dtn → Dtn
dtn_set_power power c = c
