-- ===== src/Programs/Bridge/Endures.antt =====
-- The loop of mqtt-sn-tools/mqtt-sn-serial-bridge.c with anything at all coming from the serial port
-- and the network, until a signal comes.
use ts_it.Base.{
  ℕ, zero, suc, ◌+◌, ◌≤◌, ◌≡◌, refl, ap, ◌∙◌, inl, inr, ◌⊎◌, Bool, true, false, Option, none, some,
  List, arith, length, byte_at, byte_at-lt, Bool-cases, ltb,
}
use ts_it.Tools.State.{Client, Env, ok, ◌>>=◌}
use ts_it.Tools.Outcome.{Ends, Ends-bind, Ends-mono}
use ts_it.Tools.Frame.Laws.{IsNodeId, send_frwdencap-ok, send_packet-plain}
use ts_it.Tools.Receive.{receive_packet}
use ts_it.Tools.Receive.Bounds.{IsBuffer, SendsBytes}
use ts_it.Tools.Receive.Delivery.{Delivery, receive_packet-Ends}
use ts_it.Programs.Bridge.{
  Port, Watch, watch, broken, Serial, serial_read_packet, serial_write_packet, send_on, send_read,
  write_received, serial_part, socket_part, from_serial, from_socket, turn, bridge,
}
use ts_it.Programs.Bridge.Safe.{ReadsBytes, IsBuf, HasRead, serial_read_packet-Ends}

-- What holds between two turns of the loop.
pub record IsSafe (s : Serial) (c : Client) : Type 0 where
  pub buf : IsBuf s.buf
  pub buffer : IsBuffer c.buffer
  pub off : c.forwarder_encapsulation ≡ false

-- What a turn keeps: it is safe again, and `select` is not called.
abbrev Keeps : Serial → Serial → Client → Type 0
Keeps s z d = IsSafe z d × (z.selects ≡ s.selects)

-- The loop's state with its turn counted.
abbrev counted : Serial → Serial
counted s = record s { selects = s.selects + 1 }

Watch-cases :
    (w : Watch) → (w ≡ broken) ⊎ ((serial : Bool) × (socket : Bool) × (w ≡ watch serial socket))
Watch-cases broken = inl refl
Watch-cases (watch serial socket) = inr (serial, socket, refl)

no_id : IsNodeId none 0
no_id = (omega arith, λ bytes e. cc)

send_on-Ends :
    (env : Env) (frwdencap : Bool) (packet : List ℕ) (s : Serial) (c : Client)
    → IsBuf packet
    → IsSafe s c
    → Ends (λ _ d. IsSafe s d) (send_on env frwdencap packet c)
unfolding send_on
send_on-Ends env true packet s c p i =
    let fits : byte_at packet 0 ≤ length packet =
      omega (arith, byte_at-lt packet 0 p.bytes, p.size) in
    let sent = send_frwdencap-ok env packet none 0 c no_id fits in
    rw sent (record { buf = i.buf; buffer = i.buffer; off = i.off })
send_on-Ends env false packet s c p i =
    let fits : byte_at packet 0 ≤ length packet =
      omega (arith, byte_at-lt packet 0 p.bytes, p.size) in
    let sent = send_packet-plain env packet c i.off fits in
    rw sent (record { buf = i.buf; buffer = i.buffer; off = i.off })

module _ (env : Env) (port : Port) (frwdencap : Bool) (sends : SendsBytes env)
    (reads : ReadsBytes port) where
  after_read :
      (r : Option (List ℕ)) (s z : Serial) (c d : Client)
      → IsSafe s c
      → HasRead c s r z d
      → Ends (Keeps s) (send_read env frwdencap r z d)
  unfolding send_read
  after_read none s z c d i h =
      (record { buf = h.buf; buffer = rw (h.same) i.buffer; off = rw (h.same) i.off }, h.selects)
  after_read (some packet) s z c d i h =
      let safe : IsSafe z d = record {
        buf = h.buf;
        buffer = rw (h.same) i.buffer;
        off = rw (h.same) i.off;
      } in
      Ends-bind (λ _ e. IsSafe z e) (Keeps s) _ (send_on env frwdencap packet) _ d refl
        (send_on-Ends env frwdencap packet z d (h.packet packet refl) safe)
        (λ _ e p. (p, h.selects))

  from_serial-Ends :
      (s : Serial) (c : Client) → IsSafe s c → Ends (Keeps s) (from_serial env port frwdencap s c)
  unfolding from_serial
  from_serial-Ends s c i =
      Ends-bind (λ r d. HasRead c s r.0 r.1 d) (Keeps s) _ (serial_read_packet port s) _ c refl
        (serial_read_packet-Ends port reads s c i.buf) (λ r d h. after_read r.0 s r.1 c d i h)

  after_receive :
      (r : Option (List ℕ)) (s : Serial) (c d : Client)
      → IsSafe s c
      → Delivery c r d
      → Ends (Keeps s) (write_received r s d)
  unfolding write_received serial_write_packet
  after_receive none s c d i h =
      (record { buf = i.buf; buffer = h.buffer; off = rw (h.kept.forwarder) i.off }, refl)
  after_receive (some packet) s c d i h =
      let fits = h.packet packet refl in
      let off : d.forwarder_encapsulation ≡ false = h.kept.forwarder ∙ i.off in
      let room : ltb (length packet) (byte_at packet 0) ≡ false =
        ground (arith, fits.size, byte_at-lt packet 0 fits.bytes) in
      rw room (record { buf = i.buf; buffer = h.buffer; off = off }, refl)

  from_socket-Ends : (s : Serial) (c : Client) → IsSafe s c → Ends (Keeps s) (from_socket env s c)
  unfolding from_socket
  from_socket-Ends s c i =
      Ends-bind (Delivery c) (Keeps s) _ (receive_packet env) _ c refl
        (receive_packet-Ends env c sends i.buffer) (λ r d h. after_receive r s c d i h)

  serial_part-Ends :
      (serial : Bool) (s : Serial) (c : Client)
      → IsSafe s c
      → Ends (Keeps s) (serial_part env port frwdencap serial s c)
  unfolding serial_part
  serial_part-Ends true s c i = from_serial-Ends s c i
  serial_part-Ends false s c i = (i, refl)

  socket_part-Ends :
      (socket : Bool) (s : Serial) (c : Client)
      → IsSafe s c
      → Ends (Keeps s) (socket_part env socket s c)
  unfolding socket_part
  socket_part-Ends true s c i = from_socket-Ends s c i
  socket_part-Ends false s c i = (i, refl)

  turn-Ends :
      (serial socket : Bool) (s : Serial) (c : Client)
      → IsSafe s c
      → Ends (Keeps s) (turn env port frwdencap serial socket s c)
  unfolding turn
  turn-Ends serial socket s c i =
      Ends-bind (Keeps s) (Keeps s) _ (serial_part env port frwdencap serial s)
        (socket_part env socket) c refl (serial_part-Ends serial s c i)
        (λ z d k.
          Ends-mono (Keeps z) (Keeps s) _ (socket_part-Ends socket z d k.0)
            (λ y e l. (l.0, l.1 ∙ k.1)))

  -- Whatever bytes the serial port and the network deliver, where the port gives no more than it was
  -- asked for, a loop that starts with its two arrays sound and the encapsulation of every packet off,
  -- and that a signal stops after `turns` turns or before, comes to an end with its arrays sound, or the program exits with `EXIT_FAILURE`. On the way every `read` of the port and
  -- every terminator is written within its array, every byte that mqtt_sn_validate_packet looks at
  -- lies in the array it is given, and every `memcpy` copies from within its array.
  pub bridge-Ends :
      (running : ℕ → Bool) (turns : ℕ) (s : Serial) (c : Client)
      → running (s.selects + turns) ≡ false
      → IsSafe s c
      → Ends IsSafe (bridge env port running frwdencap (suc turns) s c)
  unfolding bridge
  bridge-Ends running zero s c stops i =
      let here : running s.selects ≡ false = ap running (omega arith) ∙ stops in
      let over : bridge env port running frwdencap (suc zero) s c ≡ ok s c = ground (arith, here) in
      rw over i
  bridge-Ends running (suc turns) s c stops i = elim (Bool-cases (running s.selects)) [
    | inr e ↦
        let over : bridge env port running frwdencap (suc (suc turns)) s c ≡ ok s c =
          ground (arith, e) in
        rw over i
    | inl e ↦ elim (Watch-cases (port.select s.selects)) [
      | inl w ↦
          let over : bridge env port running frwdencap (suc (suc turns)) s c ≡ ok (counted s) c =
            ground (arith, e, w) in
          rw over (record { buf = i.buf; buffer = i.buffer; off = i.off })
      | inr (serial, socket, w) ↦
          let more : bridge env port running frwdencap (suc (suc turns)) s c
              ≡ (turn env port frwdencap serial socket (counted s)
                    >>= bridge env port running frwdencap (suc turns))
                  c =
            ground (arith, e, w) in
          rw more (
            Ends-bind (Keeps (counted s)) IsSafe _
              (turn env port frwdencap serial socket (counted s)) _ c refl
              (turn-Ends serial socket (counted s) c
                (record { buf = i.buf; buffer = i.buffer; off = i.off }))
              (λ z d k.
                bridge-Ends running turns z d (ap running (omega (arith, k.1)) ∙ stops) k.0))
    ]
  ]
