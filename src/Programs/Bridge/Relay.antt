-- ===== src/Programs/Bridge/Relay.antt =====
-- What mqtt-sn-tools/mqtt-sn-serial-bridge.c makes of packets that arrive whole: each goes on as it
-- is, in either direction.
use ts_it.Base.{
  ℕ, suc, ◌+◌, ◌≤◌, ◌≡◌, ◌≢◌, refl, ap, ◌∙◌, Bool, true, false, none, some, List, [], ◌∷◌, ◌++◌,
  arith, length, take, drop, set, take-append_length, length-append, All, IsByte, All-append,
  if◌then◌else◌,
}
use ts_it.Protocol.MessageType
use ts_it.Tools.State.{Client, Env, ok, datagram, bind-ok}
use ts_it.Tools.Wire.{wrap}
use ts_it.Tools.Frame.Laws.{after_send, IsNodeId, send_frwdencap-ok, send_packet-plain}
use ts_it.Tools.Receive.{receive_packet}
use ts_it.Tools.Receive.Bounds.{IsBuffer}
use ts_it.Tools.Receive.Plain.{packet, received, receive_packet-plain}
use ts_it.Tools.Receive.Unwrap.{unwrapped, receive_packet-wrap}
use ts_it.Programs.Bridge.{
  Port, Serial, buf_size, serial_read_packet, serial_write_packet, send_on, send_read,
  write_received, from_serial, from_socket,
}
use ts_it.Programs.Bridge.Reads.{having_read, serial_read_packet-plain}

-- A packet of bytes that is no forwarder encapsulation, and fits the length byte.
pub record IsPacket (t : ℕ) (rest : List ℕ) : Type 0 where
  pub plain : t ≢ MessageType.frwdencap
  pub bytes : All IsByte (t ∷ rest)
  pub short : length rest ≤ 253

no_id : IsNodeId none 0
no_id = (omega arith, λ bytes e. cc)

module _ (t : ℕ) (rest : List ℕ) (p : IsPacket t rest) where
  -- The packet behind its length byte.
  abbrev pub whole : List ℕ
  whole = packet t rest p.plain

  -- The datagram for the packet: in a forwarder header with the digits of the pid, or as it is.
  abbrev pub carried : Env → Bool → List ℕ
  carried env frwdencap = if frwdencap then wrap (take 250 env.pid_hex) whole else whole

  prefix-whole : (tail : List ℕ) → take (length whole) (whole ++ tail) ≡ whole
  prefix-whole tail = take-append_length (length whole) whole tail refl

  abbrev pub having_written : Serial → Serial
  having_written s = record s { written = whole ∷ s.written }

  serial_write_packet-whole :
      (tail : List ℕ) (s : Serial) (c : Client)
      → serial_write_packet (whole ++ tail) s c ≡ ok (having_written s) c
  unfolding serial_write_packet
  serial_write_packet-whole tail s c = ground (arith, prefix-whole tail, length-append whole tail)

  send_on-whole :
      (env : Env) (frwdencap : Bool) (tail : List ℕ) (c : Client)
      → c.forwarder_encapsulation ≡ false
      → send_on env frwdencap (whole ++ tail) c ≡ ok tt (after_send env (carried env frwdencap) c)
  unfolding send_on
  send_on-whole env true tail c off =
      let fits : length whole ≤ length (whole ++ tail) = omega (arith, length-append whole tail) in
      send_frwdencap-ok env (whole ++ tail) none 0 c no_id fits
      ∙ ap (λ b. ok tt (after_send env (wrap (take 250 env.pid_hex) b) c)) (prefix-whole tail)
  send_on-whole env false tail c off =
      let fits : length whole ≤ length (whole ++ tail) = omega (arith, length-append whole tail) in
      send_packet-plain env (whole ++ tail) c off fits
      ∙ ap (λ b. ok tt (after_send env b c)) (prefix-whole tail)

  pub from_serial-whole :
      (env : Env) (port : Port) (frwdencap : Bool) (s : Serial) (c : Client)
      → length s.buf ≡ buf_size
      → c.forwarder_encapsulation ≡ false
      → port.read s.reads 1 ≡ some (suc (suc (length rest)) ∷ [])
      → port.read (s.reads + 1) (suc (length rest)) ≡ some (t ∷ rest)
      → from_serial env port frwdencap s c
        ≡ ok (having_read t rest p.plain s) (after_send env (carried env frwdencap) c)
  unfolding from_serial send_read
  from_serial-whole env port frwdencap s c size off first second =
      let read = serial_read_packet-plain t rest p.plain port s c size p.short off first second in
      let sends = send_on-whole env frwdencap (set (drop (length whole) s.buf) 0 0) c off in
      bind-ok (serial_read_packet port s) _ read ∙ bind-ok (send_on env frwdencap _) _ sends

  pub from_socket-whole :
      (env : Env) (s : Serial) (c : Client)
      → IsBuffer c.buffer
      → c.forwarder_encapsulation ≡ false
      → env.recvfrom c.moment ≡ datagram whole
      → from_socket env s c ≡ ok (having_written s) (received t rest p.plain env c)
  unfolding from_socket write_received
  from_socket-whole env s c b off arrives =
      bind-ok (receive_packet env) _
        (receive_packet-plain t rest p.plain env c (omega (arith, p.short), p.bytes) b off arrives)
      ∙ serial_write_packet-whole (set (drop (length whole) c.buffer) 0 0) s _

  module _ (id : List ℕ) (id_bytes : All IsByte id) (id_short : length id ≤ 252) where
    -- The client after the packet has come in a forwarder header.
    abbrev pub after_wrapped : Env → Client → Client
    after_wrapped env c =
        unwrapped id (length whole) (t ∷ rest) id_short (omega arith) (omega (arith, p.short)) env c

    pub wrapped-bytes : All IsByte (wrap id whole)
    wrapped-bytes = (
      omega arith,
      (
        omega arith,
        (omega arith, All-append IsByte id whole id_bytes (omega (arith, p.short), p.bytes)),
      ),
    )

    pub from_socket-wrapped :
        (env : Env) (s : Serial) (c : Client)
        → IsBuffer c.buffer
        → env.recvfrom c.moment ≡ datagram (wrap id whole)
        → from_socket env s c ≡ ok (having_written s) (after_wrapped env c)
    unfolding from_socket write_received
    from_socket-wrapped env s c b arrives =
        bind-ok (receive_packet env) _ (
          receive_packet-wrap id (length whole) (t ∷ rest) id_short (omega arith)
            (omega (arith, p.short)) env c wrapped-bytes b arrives)
        ∙ serial_write_packet-whole _ s _
