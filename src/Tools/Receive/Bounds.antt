-- ===== src/Tools/Receive/Bounds.antt =====
-- What mqtt_sn_validate_packet of mqtt-sn-tools/mqtt-sn.c accepts, and what a receive does to the
-- buffer.
use ts_it.Base.{
  ℕ, ◌+◌, ◌≤◌, ◌<◌, ◌≡◌, ◌∙◌, ◌++◌, ◌≢◌, take-length, set-append_length, ◌↔◌, refl, ◌⊎◌, inl, inr,
  Bool, true, false, Option, none, some, List, arith, length, take, drop, set, byte_at, All, IsByte,
  Bool-cases, byte_at-lt, All-append, All-take, All-drop, All-set, ◌==◌, length-append, length-take,
  length-drop, length-set, get_elem?-cases,
}
use ts_it.Protocol.MessageType
use ts_it.Tools.State.{
  Client, Env, Received, datagram, again, failed, Run, ok, exit, buffer_size, time_now, recv_now,
}
use ts_it.Tools.Receive.Valid.{is_valid, validate_packet-is_valid}
use ts_it.Tools.Receive.{
  validate_packet, validate_type, has_length, fill, Incoming, locate, terminate, deliver,
  when_valid, accept, handle, receive_frwdencap_packet,
}

-- The socket's buffer as C allocates it.
pub record IsBuffer (buffer : List ℕ) : Type 0 where
  pub size : length buffer ≡ buffer_size
  pub bytes : All IsByte buffer

-- A packet is valid exactly when its length byte is neither 0 nor 1, it is a forwarder
-- encapsulation where that is required, its length is that of its header and, behind a forwarder
-- header, of the packet there, and the buffer has the bytes that tell: the first two, and in a
-- forwarder encapsulation the one behind its header.
pub validate_packet_iff :
    (forwarder : Bool) (packet : List ℕ) (n : ℕ)
    → (validate_packet forwarder packet n ≡ some true) ↔ (
        (2 ≤ byte_at packet 0)
        × (forwarder ≡ true → byte_at packet 1 ≡ MessageType.frwdencap)
        × (byte_at packet 1 ≡ MessageType.frwdencap
            → n ≡ byte_at packet 0 + byte_at packet (byte_at packet 0))
        × (byte_at packet 1 ≢ MessageType.frwdencap → n ≡ byte_at packet 0)
        × (1 < length packet)
        × (byte_at packet 1 ≡ MessageType.frwdencap → byte_at packet 0 < length packet))
unfolding validate_packet validate_type has_length
validate_packet_iff forwarder packet n = ground (
  arith,
  get_elem?-cases 0 packet 0,
  get_elem?-cases 0 packet 1,
  get_elem?-cases 0 packet (byte_at packet 0),
)

-- A datagram that is accepted has 2 to 510 bytes, whatever the bytes are.
pub validate_bounds :
    (forwarder : Bool) (packet : List ℕ) (n : ℕ)
    → All IsByte packet
    → is_valid forwarder packet n ≡ true
    → (2 ≤ n) × (n < buffer_size)
unfolding is_valid
validate_bounds forwarder packet n bytes h =
    ground (arith, byte_at-lt packet 0 bytes, byte_at-lt packet (byte_at packet 0) bytes)

fill-IsBuffer :
    (bytes buffer : List ℕ) → All IsByte bytes → IsBuffer buffer → IsBuffer (fill bytes buffer)
unfolding fill
fill-IsBuffer bytes buffer h b = record {
  size = omega (
    arith,
    length-append (take 511 bytes) (drop (length (take 511 bytes)) buffer),
    length-take 511 bytes,
    length-drop (length (take 511 bytes)) buffer,
    b.size,
  );
  bytes =
      All-append IsByte (take 511 bytes) (drop (length (take 511 bytes)) buffer)
        (All-take IsByte 511 bytes h) (All-drop IsByte (length (take 511 bytes)) buffer b.bytes);
}

module _ (env : Env) (bytes : List ℕ) (c : Client) (given : All IsByte bytes)
    (buffer : IsBuffer c.buffer) where
  abbrev pub filled : List ℕ
  filled = fill bytes c.buffer

  abbrev pub count : ℕ
  count = length (take buffer_size bytes)

  -- What a valid datagram leads to: the buffer with the terminator, and the packet in it.
  abbrev pub delivered : Run (Option Incoming)
  delivered = ok (some (locate (set filled count 0))) (record c {
    buffer = set filled count 0;
    last_receive = env.time c.moment;
    moment = c.moment + 1;
  })

  validates :
      (valid : Bool)
      → is_valid c.forwarder_encapsulation filled count ≡ valid
      → validate_packet c.forwarder_encapsulation filled count ≡ some valid
  validates valid v =
      let f = fill-IsBuffer bytes c.buffer given buffer in
      validate_packet-is_valid c.forwarder_encapsulation filled count valid f.bytes
        (omega (arith, f.size)) v

  accept-valid :
      is_valid c.forwarder_encapsulation filled count ≡ true → accept env bytes c ≡ delivered
  unfolding accept when_valid deliver terminate time_now
  accept-valid v =
      let b =
        validate_bounds c.forwarder_encapsulation filled count
          (fill-IsBuffer bytes c.buffer given buffer).bytes v in
      let reads = validates true v in ground (arith, reads, b)

  pub accept-invalid :
      is_valid c.forwarder_encapsulation filled count ≡ false
      → accept env bytes c ≡ ok none (record c { buffer = filled })
  unfolding accept when_valid
  accept-invalid v = let reads = validates false v in ground (arith, reads)

  -- A datagram of bytes never leads to a write outside the buffer.
  pub accept_lem :
      ((is_valid c.forwarder_encapsulation filled count ≡ true) × (accept env bytes c ≡ delivered))
      ⊎ ((is_valid c.forwarder_encapsulation filled count ≡ false)
          × (accept env bytes c ≡ ok none (record c { buffer = filled })))
  accept_lem = elim (Bool-cases (is_valid c.forwarder_encapsulation filled count)) [
    | inl v ↦ inl (v, accept-valid v)
    | inr v ↦ inr (v, accept-invalid v)
  ]

fill-short :
    (bytes buffer : List ℕ)
    → length bytes < buffer_size
    → fill bytes buffer ≡ bytes ++ drop (length bytes) buffer
unfolding fill
fill-short bytes buffer h = rw (take-length 511 bytes (omega arith))

-- A datagram that fits is delivered from the buffer that starts with it and a NUL.
pub accept-short :
    (env : Env) (bytes : List ℕ) (c : Client)
    → All IsByte bytes
    → IsBuffer c.buffer
    → length bytes < buffer_size
    → is_valid c.forwarder_encapsulation (bytes ++ drop (length bytes) c.buffer) (length bytes)
      ≡ true
    → let buffer = bytes ++ set (drop (length bytes) c.buffer) 0 0 in
      accept env bytes c
      ≡ ok
          (some (locate buffer))
          (record c { buffer = buffer; last_receive = env.time c.moment; moment = c.moment + 1 })
accept-short env bytes c given buffer h v =
    let e = fill-short bytes c.buffer h in
    let t = take-length 511 bytes (omega arith) in
    accept-valid env bytes c given buffer (rw (e, t) v)
    ∙ rw (e, t, set-append_length bytes (drop (length bytes) c.buffer) 0)

-- The system's datagrams are bytes.
abbrev pub SendsBytes : Env → Type 0
SendsBytes env = (k : ℕ) (d : List ℕ) → env.recvfrom k ≡ datagram d → All IsByte d

-- How a receive may end: with the buffer as C allocates it and, if there is a packet, with at least
-- 256 bytes, all of them from the buffer, from the packet's first byte on; or by `exit(EXIT_FAILURE)`.
abbrev pub EndsWell : Run (Option Incoming) → Type 0
EndsWell (ok none c) = IsBuffer c.buffer
EndsWell (ok (some i) c) = IsBuffer c.buffer × (256 ≤ length i.packet) × All IsByte i.packet
EndsWell (exit code c) = code ≡ 1
EndsWell Run.fault = ⊥
EndsWell Run.out_of_fuel = ⊥

locate-length : (buffer : List ℕ) → IsBuffer buffer → 256 ≤ length (locate buffer).packet
unfolding locate
locate-length buffer b = elim (Bool-cases (byte_at buffer 1 == MessageType.frwdencap)) [
  | inl e ↦
      rw e
        (omega (arith, length-drop (byte_at buffer 0) buffer, b.size, byte_at-lt buffer 0 b.bytes))
  | inr e ↦ rw e (omega (arith, b.size))
]

locate-bytes : (buffer : List ℕ) → IsBuffer buffer → All IsByte (locate buffer).packet
unfolding locate
locate-bytes buffer b = elim (Bool-cases (byte_at buffer 1 == MessageType.frwdencap)) [
  | inl e ↦ rw e (All-drop IsByte (byte_at buffer 0) buffer b.bytes)
  | inr e ↦ rw e b.bytes
]

terminated-IsBuffer : (buffer : List ℕ) (n : ℕ) → IsBuffer buffer → IsBuffer (set buffer n 0)
terminated-IsBuffer buffer n b = record {
  size = omega (arith, length-set buffer n 0, b.size);
  bytes = All-set IsByte buffer n 0 b.bytes (omega arith);
}

accept-EndsWell :
    (env : Env) (bytes : List ℕ) (c : Client)
    → All IsByte bytes
    → IsBuffer c.buffer
    → EndsWell (accept env bytes c)
accept-EndsWell env bytes c h b =
    let f = fill-IsBuffer bytes c.buffer h b in
    let t = terminated-IsBuffer (fill bytes c.buffer) (count env bytes c h b) f in
    elim (accept_lem env bytes c h b) [
      | inl (v, e) ↦ rw e (t, locate-length _ t, locate-bytes _ t)
      | inr (v, e) ↦ rw e f
    ]

handle-EndsWell :
    (env : Env) (r : Received) (c : Client)
    → ((d : List ℕ) → r ≡ datagram d → All IsByte d)
    → IsBuffer c.buffer
    → EndsWell (handle env r c)
unfolding handle
handle-EndsWell env (datagram bytes) c h b = accept-EndsWell env bytes c (h bytes refl) b
handle-EndsWell env again c h b = b
handle-EndsWell env failed c h b = refl

-- Where the system delivers bytes, and the buffer has its size and holds bytes, every byte that
-- mqtt_sn_validate_packet looks at in a receive, and the terminator that the receive writes, lie in
-- the buffer: it returns no packet, or one that starts at least 256 bytes before the buffer's end
-- and is bytes all through, and keeps the buffer's size and that it holds bytes; or it calls
-- `exit(EXIT_FAILURE)`.
pub receive-EndsWell :
    (env : Env) (c : Client)
    → SendsBytes env
    → IsBuffer c.buffer
    → EndsWell (receive_frwdencap_packet env c)
unfolding receive_frwdencap_packet recv_now
receive-EndsWell env c h b =
    handle-EndsWell env (env.recvfrom c.moment) (record c { moment = c.moment + 1 }) (h c.moment) b
