-- ===== src/Dtn/State.antt =====
-- The data of ictp/spray-dtn/dtn.c and dtn.h, and what Contiki gives to it.
use ts_it.Base.{ℕ, ◌≡◌, Bool, ◌&&◌, ◌==◌, Option, none, some, List, [], ◌∷◌, ◌++◌}

-- `struct dtn_hdr`; a Rime address is a number.
pub record Header : Type 0 where
  pub version : ℕ
  pub magic_0 : ℕ
  pub magic_1 : ℕ
  pub num_copies : ℕ
  pub esender : ℕ
  pub ereceiver : ℕ
  pub epacketid : ℕ

-- What packetbuf and a queue buffer hold: the header and the data behind it.
pub record Packet : Type 0 where
  pub header : Header
  pub payload : List ℕ

-- `struct packetqueue_item`: `ready` is its `ptr` (DTN_READY or DTN_PENDING), `address` is where the
-- data of its queue buffer lies, and `packet` is what `queuebuf_dataptr` leads to, if not NULL.
pub record Item : Type 0 where
  pub address : ℕ
  pub ready : Bool
  pub packet : Option Packet

-- What goes out on the three connections.
pub data Radio : Type 0 where
  broadcast : Packet → Radio
  unicast : ℕ → Packet → Radio
  runicast : ℕ → Packet → Radio

-- A call of the callback `recv`, with the sender, the packet's id and the data.
pub record Delivered : Type 0 where
  pub from : ℕ
  pub packetid : ℕ
  pub payload : List ℕ

-- `struct dtn_conn` with the node's address and the packet queue, which are global. `channels` are
-- those of the open connections: the spray's, the request's and the hand-off's. `air` and
-- `delivered` hold what was sent and delivered, the newest first.
pub record Dtn : Type 0 where
  pub node_addr : ℕ
  pub channels : List ℕ
  pub q : List Item
  pub seqno : ℕ
  pub spray_ct_expired : Bool
  pub handoff_qb : Option ℕ
  pub handoff_hdr : Header
  pub air : List Radio
  pub delivered : List Delivered

-- What Contiki does: `packetqueue_enqueue_packetbuf` gives the queue with the packet, or fails where
-- memory is exhausted; `freed` is what lies at the address of a queue buffer that is freed.
pub record Contiki : Type 0 where
  pub enqueue : List Item → Packet → Bool → Option (List Item)
  pub freed : ℕ → Header

-- An enqueued packet is behind all others.
abbrev pub Appends : Contiki → Type 0
Appends os =
    (q : List Item) (p : Packet) (ready : Bool) (q' : List Item)
    → os.enqueue q p ready ≡ some q'
    → (address : ℕ) × (q'
        ≡ q ++ (record { address = address; ready = ready; packet = some p } ∷ []))

-- DTN_VERSION and DTN_L_COPIES
abbrev pub dtn_version : ℕ
dtn_version = 1

abbrev pub l_copies : ℕ
l_copies = 8

-- `'S'` and `'W'`
abbrev pub magic_s : ℕ
magic_s = 0x53

abbrev pub magic_w : ℕ
magic_w = 0x57

unfoldable pub valid_hdr : Header → Bool
valid_hdr h = (h.version == dtn_version) && ((h.magic_0 == magic_s) && (h.magic_1 == magic_w))

-- The comparison of messages by their origin and their number.
abbrev pub same_message : Header → Header → Bool
same_message h g = (h.esender == g.esender) && (h.epacketid == g.epacketid)

-- A header with another number of copies.
abbrev pub with_copies : ℕ → Packet → Packet
with_copies n p = record p { header = record p.header { num_copies = n } }

-- A predicate of what is there, where there is something.
abbrev pub Holds : {A : Type 0} → (A → Type 0) → Option A → Type 0
Holds P none = Unit
Holds P (some p) = P p
