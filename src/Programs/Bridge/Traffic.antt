-- ===== src/Programs/Bridge/Traffic.antt =====
-- Whole runs of mqtt-sn-tools/mqtt-sn-serial-bridge.c, against a description of its traffic.
use ts_it.Base.{
  ℕ, suc, ◌+◌, ◌≤◌, ◌≡◌, refl, ◌∙◌, Bool, true, false, some, List, [], ◌∷◌, arith, length, drop,
  set, All, IsByte, length-append, length-set, length-drop,
}
use ts_it.Tools.State.{Client, Env, ok, datagram, bind-ok}
use ts_it.Tools.Wire.{wrap}
use ts_it.Tools.Frame.Laws.{after_send}
use ts_it.Tools.Receive.Bounds.{IsBuffer}
use ts_it.Tools.Receive.Plain.{received, ended-IsBuffer}
use ts_it.Programs.Bridge.{
  Port, Serial, watch, buf_size, from_serial, from_socket, serial_part, socket_part, turn, bridge,
}
use ts_it.Programs.Bridge.Reads.{having_read}
use ts_it.Programs.Bridge.Relay.{
  IsPacket, whole, carried, having_written, from_serial-whole, from_socket-whole, after_wrapped,
  wrapped-bytes, from_socket-wrapped,
}

-- A packet that comes from the serial port, or from the gateway as it is or in a forwarder header.
pub data Arrival : Type 0 where
  upward : (t : ℕ) (rest : List ℕ) → IsPacket t rest → Arrival
  downward : (t : ℕ) (rest : List ℕ) → IsPacket t rest → Arrival
  downward_wrapped :
      (id : List ℕ) (t : ℕ) (rest : List ℕ)
      → All IsByte id
      → length id ≤ 252
      → IsPacket t rest
      → Arrival

module _ (env : Env) (port : Port) (running : ℕ → Bool) where
  -- The system delivers these packets, one in each turn, and then a signal: `m`, `r` and `k` count
  -- the questions to the system, the reads of the port and the turns before.
  abbrev pub Carries : List Arrival → (m r k : ℕ) → Type 0
  Carries [] m r k = running k ≡ false
  Carries (upward t rest p ∷ arrivals) m r k =
      (running k ≡ true)
      × (port.select k ≡ watch true false)
      × (port.read r 1 ≡ some (suc (suc (length rest)) ∷ []))
      × (port.read (r + 1) (suc (length rest)) ≡ some (t ∷ rest))
      × Carries arrivals (m + 1) (r + 1 + 1) (k + 1)
  Carries (downward t rest p ∷ arrivals) m r k =
      (running k ≡ true)
      × (port.select k ≡ watch false true)
      × (env.recvfrom m ≡ datagram (whole t rest p))
      × Carries arrivals (m + 1 + 1) r (k + 1)
  Carries (downward_wrapped id t rest bytes short p ∷ arrivals) m r k =
      (running k ≡ true)
      × (port.select k ≡ watch false true)
      × (env.recvfrom m ≡ datagram (wrap id (whole t rest p)))
      × Carries arrivals (m + 1 + 1) r (k + 1)

-- The datagrams to the gateway, the newest first, before them those that were sent already.
abbrev pub to_gateway : Env → Bool → List Arrival → List (List ℕ) → List (List ℕ)
to_gateway env frwdencap [] sent = sent
to_gateway env frwdencap (upward t rest p ∷ arrivals) sent =
    to_gateway env frwdencap arrivals (carried t rest p env frwdencap ∷ sent)
to_gateway env frwdencap (downward t rest p ∷ arrivals) sent =
    to_gateway env frwdencap arrivals sent
to_gateway env frwdencap (downward_wrapped id t rest bytes short p ∷ arrivals) sent =
    to_gateway env frwdencap arrivals sent

-- What is written to the serial port, likewise.
abbrev pub to_port : List Arrival → List (List ℕ) → List (List ℕ)
to_port [] written = written
to_port (upward t rest p ∷ arrivals) written = to_port arrivals written
to_port (downward t rest p ∷ arrivals) written = to_port arrivals (whole t rest p ∷ written)
to_port (downward_wrapped id t rest bytes short p ∷ arrivals) written =
    to_port arrivals (whole t rest p ∷ written)

-- What the loop needs, and keeps.
pub record IsReady (s : Serial) (c : Client) : Type 0 where
  pub buf : length s.buf ≡ buf_size
  pub buffer : IsBuffer c.buffer
  pub off : c.forwarder_encapsulation ≡ false

-- The loop's state with its turn counted.
abbrev counted : Serial → Serial
counted s = record s { selects = s.selects + 1 }

module _ (t : ℕ) (rest : List ℕ) (p : IsPacket t rest) where
  read-IsReady :
      (env : Env) (bytes : List ℕ) (s : Serial) (c : Client)
      → IsReady s c
      → IsReady (having_read t rest p.plain (counted s)) (after_send env bytes c)
  read-IsReady env bytes s c i = record {
    buf =
        length-append (whole t rest p) (set (drop (length (whole t rest p)) s.buf) 0 0)
        ∙ omega (
          arith,
          length-set (drop (length (whole t rest p)) s.buf) 0 0,
          length-drop (length (whole t rest p)) s.buf,
          i.buf,
          p.short,
        );
    buffer = i.buffer;
    off = i.off;
  }

  received-IsReady :
      (env : Env) (s : Serial) (c : Client)
      → IsReady s c
      → IsReady (having_written t rest p (counted s)) (received t rest p.plain env c)
  received-IsReady env s c i = record {
    buf = i.buf;
    buffer =
        ended-IsBuffer (whole t rest p) c.buffer (omega (arith, p.short), p.bytes)
          (omega (arith, p.short)) i.buffer;
    off = i.off;
  }

wrapped-IsReady :
    (id : List ℕ) (t : ℕ) (rest : List ℕ) (p : IsPacket t rest) (bytes : All IsByte id)
    (short : length id ≤ 252) (env : Env) (s : Serial) (c : Client)
    → IsReady s c
    → IsReady (having_written t rest p (counted s)) (after_wrapped t rest p id bytes short env c)
wrapped-IsReady id t rest p bytes short env s c i = record {
  buf = i.buf;
  buffer =
      ended-IsBuffer (wrap id (whole t rest p)) c.buffer (wrapped-bytes t rest p id bytes short)
        (omega (arith, p.short, short, length-append id (whole t rest p))) i.buffer;
  off = i.off;
}

module _ (env : Env) (port : Port) (running : ℕ → Bool) (frwdencap : Bool) where
  -- One turn of the loop, and the rest of it.
  loop-turn :
      (serial socket : Bool) (turns : ℕ) (s z : Serial) (c d : Client)
      → running s.selects ≡ true
      → port.select s.selects ≡ watch serial socket
      → turn env port frwdencap serial socket (counted s) c ≡ ok z d
      → bridge env port running frwdencap (suc turns) s c
        ≡ bridge env port running frwdencap turns z d
  unfolding bridge
  loop-turn serial socket turns s z c d runs ready done = ground (arith, runs, ready, done)

  turn-serial :
      (s z : Serial) (c d : Client)
      → from_serial env port frwdencap s c ≡ ok z d
      → turn env port frwdencap true false s c ≡ ok z d
  unfolding turn serial_part socket_part
  turn-serial s z c d done = bind-ok (from_serial env port frwdencap s) _ done

  turn-socket :
      (s z : Serial) (c d : Client)
      → from_socket env s c ≡ ok z d
      → turn env port frwdencap false true s c ≡ ok z d
  unfolding turn serial_part socket_part
  turn-socket s z c d done = done

  -- The run has ended, with what the description says.
  abbrev Relays : List Arrival → Serial → Client → Type 0
  Relays arrivals s c =
      (z : Serial) × (d : Client) × (bridge env port running frwdencap (suc (length arrivals)) s c
        ≡ ok z d)
      × (d.sent ≡ to_gateway env frwdencap arrivals c.sent)
      × (z.written ≡ to_port arrivals s.written)

  pub bridge-Relays :
      (arrivals : List Arrival) (s : Serial) (c : Client)
      → IsReady s c
      → Carries env port running arrivals c.moment s.reads s.selects
      → Relays arrivals s c
  unfolding bridge
  bridge-Relays [] s c i stops = (s, c, ground (arith, stops), refl, refl)
  bridge-Relays (upward t rest p ∷ arrivals) s c i (runs, ready, first, second, more) =
      let z = having_read t rest p.plain (counted s) in
      let d = after_send env (carried t rest p env frwdencap) c in
      let done =
        turn-serial (counted s) z c d
          (from_serial-whole t rest p env port frwdencap (counted s) c i.buf i.off first second) in
      let later = bridge-Relays arrivals z d (read-IsReady t rest p env _ s c i) more in
      let step = loop-turn true false (suc (length arrivals)) s z c d runs ready done in
      (later.0, later.1, step ∙ later.2, later.3, later.4)
  bridge-Relays (downward t rest p ∷ arrivals) s c i (runs, ready, comes, more) =
      let z = having_written t rest p (counted s) in
      let d = received t rest p.plain env c in
      let done =
        turn-socket (counted s) z c d
          (from_socket-whole t rest p env (counted s) c i.buffer i.off comes) in
      let later = bridge-Relays arrivals z d (received-IsReady t rest p env s c i) more in
      let step = loop-turn false true (suc (length arrivals)) s z c d runs ready done in
      (later.0, later.1, step ∙ later.2, later.3, later.4)
  bridge-Relays (downward_wrapped id t rest bytes short p ∷ arrivals) s c i
        (runs, ready, comes, more) =
      let z = having_written t rest p (counted s) in
      let d = after_wrapped t rest p id bytes short env c in
      let done =
        turn-socket (counted s) z c d
          (from_socket-wrapped t rest p id bytes short env (counted s) c i.buffer comes) in
      let later =
        bridge-Relays arrivals z d (wrapped-IsReady id t rest p bytes short env s c i) more in
      let step = loop-turn false true (suc (length arrivals)) s z c d runs ready done in
      (later.0, later.1, step ∙ later.2, later.3, later.4)
