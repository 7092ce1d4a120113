-- ===== src/Programs/Bridge/Safe.antt =====
-- mqtt-sn-tools/mqtt-sn-serial-bridge.c with anything at all coming from the serial port and the
-- network.
use ts_it.Base.{
  Bool, true, ℕ, ◌+◌, ◌-◌, ◌≤◌, ◌<◌, ◌≡◌, refl, ◌∙◌, inl, inr, false, Option, none, some, List,
  ◌++◌, arith, length, take, drop, set, byte_at, byte_at-lt, All, IsByte, All-append, All-take,
  All-drop, All-set, length-append, length-set, length-drop, length-take, Bool-cases, Option-cases,
  leb, ◌==◌,
}
use mathlib.Core.Path.{subst}
use ts_it.Tools.State.{Client, ok}
use ts_it.Tools.Outcome.{Ends, Ends-bind, Ends-mono}
use ts_it.Tools.Receive.{validate_packet}
use ts_it.Tools.Receive.Valid.{is_valid, validate_packet-is_valid}
use ts_it.Tools.Receive.Bounds.{IsBuffer}
use ts_it.Programs.Bridge.Reads.{read_at-ok}
use ts_it.Programs.Bridge.{
  Port, Serial, buf_size, read_at, end_packet, end_valid, checked, end_read, read_rest, with_length,
  serial_read_packet,
}

-- `read` gives at most the bytes that are asked for.
abbrev pub ReadsBytes : Port → Type 0
ReadsBytes port =
    (k n : ℕ) (bytes : List ℕ) → port.read k n ≡ some bytes → (length bytes ≤ n) × All IsByte bytes

-- An array of 256 bytes.
pub record IsBuf (buf : List ℕ) : Type 0 where
  pub size : length buf ≡ buf_size
  pub bytes : All IsByte buf

-- What holds between two turns of the loop.
pub record IsSafe (s : Serial) (c : Client) : Type 0 where
  pub buf : IsBuf s.buf
  pub buffer : IsBuffer c.buffer
  pub off : c.forwarder_encapsulation ≡ false

-- What a step that reads the port leaves: the client as it is, and a sound array; what it returns
-- is the array itself.
pub record HasRead (c : Client) (s : Serial) (r : Option (List ℕ)) (z : Serial) (d : Client)
    : Type 0 where
  pub same : d ≡ c
  pub buf : IsBuf z.buf
  pub selects : z.selects ≡ s.selects
  pub packet : (p : List ℕ) → r ≡ some p → IsBuf p

put-IsBuf :
    (at : ℕ) (bytes buf : List ℕ)
    → at + length bytes ≤ buf_size
    → All IsByte bytes
    → IsBuf buf
    → IsBuf (take at buf ++ (bytes ++ drop (at + length bytes) buf))
put-IsBuf at bytes buf fits given b = record {
  size = omega (
    arith,
    length-append (take at buf) (bytes ++ drop (at + length bytes) buf),
    length-append bytes (drop (at + length bytes) buf),
    length-take at buf,
    length-drop (at + length bytes) buf,
    b.size,
    fits,
  );
  bytes =
      All-append IsByte (take at buf) _ (All-take IsByte at buf b.bytes)
        (All-append IsByte bytes _ given (All-drop IsByte (at + length bytes) buf b.bytes));
}

-- What a read of the port leaves: it has read no more than was asked for.
record HasFilled (c : Client) (s : Serial) (n : ℕ) (r : Option ℕ) (z : Serial) (d : Client)
    : Type 0 where
  same : d ≡ c
  buf : IsBuf z.buf
  selects : z.selects ≡ s.selects
  count : (k : ℕ) → r ≡ some k → k ≤ n

read_at-Ends :
    (port : Port) (at n : ℕ) (s : Serial) (c : Client)
    → ReadsBytes port
    → at + n ≤ buf_size
    → IsBuf s.buf
    → Ends (λ r d. HasFilled c s n r.0 r.1 d) (read_at port at n s c)
unfolding read_at
read_at-Ends port at n s c reads fits b = elim (Option-cases (port.read s.reads n)) [
  | inl e ↦
      let failed : read_at port at n s c ≡ ok (none, record s { reads = s.reads + 1 }) c =
        ground (arith, e) in
      rw failed (record { same = refl; buf = b; selects = refl; count = λ k no. cc })
  | inr (bytes, e) ↦
      let given = reads s.reads n bytes e in
      let room : at + length bytes ≤ buf_size = omega (arith, given.0, fits) in
      let done = read_at-ok port at n bytes s c e (omega (arith, room, b.size)) in
      rw done (record {
        same = refl;
        buf = put-IsBuf at bytes s.buf room given.1 b;
        selects = refl;
        count = λ k is. let same : length bytes ≡ k = cc in omega (arith, same, given.0);
      })
]

set-IsBuf : (n : ℕ) (buf : List ℕ) → IsBuf buf → IsBuf (set buf n 0)
set-IsBuf n buf b = record {
  size = omega (arith, length-set buf n 0, b.size);
  bytes = All-set IsByte buf n 0 b.bytes (omega arith);
}

-- A read that went wrong after some others.
nothing :
    (c d : Client) (s z : Serial)
    → d ≡ c
    → IsBuf z.buf
    → z.selects ≡ s.selects
    → HasRead c s none z d
nothing c d s z same buf selects = record {
  same = same;
  buf = buf;
  selects = selects;
  packet = λ p e. cc;
}

module _ (port : Port) (reads : ReadsBytes port) where
  end_packet-Ends :
      (n : ℕ) (s : Serial) (c : Client)
      → n < buf_size
      → IsBuf s.buf
      → Ends (λ r d. HasRead c s r.0 r.1 d) (end_packet n s c)
  unfolding end_packet
  end_packet-Ends n s c fits b =
      let room : leb (length s.buf) n ≡ false = ground (arith, b.size, fits) in
      let ended = set-IsBuf n s.buf b in
      rw room (record {
        same = refl;
        buf = ended;
        selects = refl;
        packet = λ p e. let is : set s.buf n 0 ≡ p = cc in subst IsBuf is ended;
      })

  checked-Ends :
      (n : ℕ) (s : Serial) (c : Client)
      → n < buf_size
      → IsBuf s.buf
      → Ends (λ r d. HasRead c s r.0 r.1 d) (checked n s c)
  unfolding checked end_valid
  checked-Ends n s c fits b =
      let forwarder = c.forwarder_encapsulation in
      let room : 256 ≤ length s.buf = omega (arith, b.size) in
      let reads : (valid : Bool)
          → is_valid forwarder s.buf n ≡ valid
          → validate_packet forwarder s.buf n ≡ some valid =
        λ valid v. validate_packet-is_valid forwarder s.buf n valid b.bytes room v in
      elim (Bool-cases (is_valid forwarder s.buf n)) [
        | inl v ↦ rw (reads true v) (end_packet-Ends n s c fits b)
        | inr v ↦ rw (reads false v) (nothing c c s s refl b refl)
      ]

  HasRead-after :
      (s y z : Serial) (c d e : Client) (r : Option (List ℕ))
      → d ≡ c
      → y.selects ≡ s.selects
      → HasRead d y r z e
      → HasRead c s r z e
  HasRead-after s y z c d e r same selects h = record {
    same = h.same ∙ same;
    buf = h.buf;
    selects = h.selects ∙ selects;
    packet = h.packet;
  }

  end_read-Ends :
      (n : ℕ) (r : Option ℕ) (s z : Serial) (c d : Client)
      → n < 255
      → HasFilled c s n r z d
      → Ends (λ r' e. HasRead c s r'.0 r'.1 e) (end_read r z d)
  unfolding end_read
  end_read-Ends n none s z c d small h = nothing c d s z h.same h.buf h.selects
  end_read-Ends n (some k) s z c d small h = elim (Bool-cases (k == 0)) [
    | inl e ↦ rw e (nothing c d s z h.same h.buf h.selects)
    | inr e ↦ rw e (
        Ends-mono _ _ _ (checked-Ends (k + 1) z d (omega (arith, small, h.count k refl)) h.buf)
          (λ r' e'. HasRead-after s z r'.1 c d e' r'.0 h.same h.selects))
  ]

  read_rest-Ends :
      (s : Serial) (c : Client)
      → IsBuf s.buf
      → Ends (λ r d. HasRead c s r.0 r.1 d) (read_rest port s c)
  unfolding read_rest
  read_rest-Ends s c b = elim (Bool-cases (byte_at s.buf 0 == 0x00)) [
    | inl z ↦ rw z (nothing c c s s refl b refl)
    | inr z ↦ rw z (
        Ends-bind (λ r d. HasFilled c s (byte_at s.buf 0 - 1) r.0 r.1 d)
          (λ r d. HasRead c s r.0 r.1 d) _ (read_at port 1 (byte_at s.buf 0 - 1) s) _ c refl
          (read_at-Ends port 1 (byte_at s.buf 0 - 1) s c reads
            (omega (arith, byte_at-lt s.buf 0 b.bytes)) b)
          (λ r d p.
            end_read-Ends (byte_at s.buf 0 - 1) r.0 s r.1 c d
              (omega (arith, byte_at-lt s.buf 0 b.bytes)) p))
  ]

  with_length-Ends :
      (r : Option ℕ) (s z : Serial) (c d : Client)
      → HasFilled c s 1 r z d
      → Ends (λ r' e. HasRead c s r'.0 r'.1 e) (with_length port r z d)
  unfolding with_length
  with_length-Ends none s z c d h = nothing c d s z h.same h.buf h.selects
  with_length-Ends (some n) s z c d h = elim (Bool-cases (n == 1)) [
    | inl e ↦ rw e (
        Ends-mono _ _ _ (read_rest-Ends z d h.buf)
          (λ r' e'. HasRead-after s z r'.1 c d e' r'.0 h.same h.selects))
    | inr e ↦ rw e (nothing c d s z h.same h.buf h.selects)
  ]

  pub serial_read_packet-Ends :
      (s : Serial) (c : Client)
      → IsBuf s.buf
      → Ends (λ r d. HasRead c s r.0 r.1 d) (serial_read_packet port s c)
  unfolding serial_read_packet
  serial_read_packet-Ends s c b =
      Ends-bind (λ r d. HasFilled c s 1 r.0 r.1 d) (λ r d. HasRead c s r.0 r.1 d) _
        (read_at port 0 1 s) _ c refl (read_at-Ends port 0 1 s c reads (omega arith) b)
        (λ r d p. with_length-Ends r.0 s r.1 c d p)
