-- ===== src/Programs/Bridge/Reads.antt =====
-- serial_read_packet of mqtt-sn-tools/mqtt-sn-serial-bridge.c, for a packet that arrives whole.
use ts_it.Base.{
  ℕ, suc, ◌+◌, ◌≤◌, ◌<◌, ◌≡◌, ◌≢◌, refl, ap, ◌∙◌, true, false, some, List, [], ◌∷◌, ◌++◌, arith,
  length, take, drop, set, set-append_length, length-append, length-drop,
}
use ts_it.Protocol.MessageType
use ts_it.Tools.State.{Client, ok}
use ts_it.Tools.Receive.{validate_packet}
use ts_it.Tools.Receive.Plain.{packet, holding, validate_packet-plain}
use ts_it.Programs.Bridge.{
  Port, Serial, buf_size, read_at, end_packet, end_valid, checked, end_read, read_rest, with_length,
  serial_read_packet,
}

-- A read that the array has room for.
pub read_at-ok :
    (port : Port) (at n : ℕ) (bytes : List ℕ) (s : Serial) (c : Client)
    → port.read s.reads n ≡ some bytes
    → at + length bytes ≤ length s.buf
    → read_at port at n s c
      ≡ ok
          (
            some (length bytes),
            record s {
              buf = take at s.buf ++ (bytes ++ drop (at + length bytes) s.buf);
              reads = s.reads + 1;
            },
          )
          c
unfolding read_at
read_at-ok port at n bytes s c e fits = ground (arith, e, fits)

-- The two reads fill the array from its start.
filled :
    (n : ℕ) (bytes buf : List ℕ)
    → suc (length bytes) ≤ length buf
    → take 1 (n ∷ drop 1 buf) ++ (bytes ++ drop (1 + length bytes) (n ∷ drop 1 buf))
      ≡ (n ∷ bytes) ++ drop (suc (length bytes)) buf
filled n bytes [] h = absurd (omega (arith, h))
filled n bytes (b ∷ bs) h =
    let next : 1 + length bytes ≡ suc (length bytes) = omega arith in
    ap (λ k. n ∷ (bytes ++ drop k (n ∷ bs))) next

module _ (t : ℕ) (rest : List ℕ) (plain : t ≢ MessageType.frwdencap) where
  -- The serial port after the packet has been read.
  abbrev pub having_read : Serial → Serial
  having_read s = record s { buf = holding t rest plain s.buf; reads = s.reads + 1 + 1 }

  end_packet-ok :
      (s : Serial) (buf : List ℕ) (c : Client)
      → s.buf ≡ packet t rest plain ++ drop (length (packet t rest plain)) buf
      → length (packet t rest plain) < length buf
      → end_packet (suc (length rest) + 1) s c
        ≡ ok (some (holding t rest plain buf), record s { buf = holding t rest plain buf }) c
  unfolding end_packet
  end_packet-ok s buf c e fits =
      let p = packet t rest plain in
      let last : suc (length rest) + 1 ≡ length p = omega arith in
      let ends : set s.buf (suc (length rest) + 1) 0 ≡ holding t rest plain buf =
        ap (λ b. set b (suc (length rest) + 1) 0) e
        ∙ ap (λ n. set (p ++ drop (length p) buf) n 0) last
        ∙ set-append_length p (drop (length p) buf) 0 in
      let room : length p < length s.buf =
        rw e (
          omega (arith, length-append p (drop (length p) buf), length-drop (length p) buf, fits)) in
      ground (arith, ends, room, last)

  checked-ok :
      (s : Serial) (buf : List ℕ) (c : Client)
      → s.buf ≡ packet t rest plain ++ drop (length (packet t rest plain)) buf
      → length (packet t rest plain) < length buf
      → c.forwarder_encapsulation ≡ false
      → checked (suc (length rest) + 1) s c
        ≡ ok (some (holding t rest plain buf), record s { buf = holding t rest plain buf }) c
  unfolding checked end_valid
  checked-ok s buf c e fits off =
      let last : suc (length rest) + 1 ≡ length (packet t rest plain) = omega arith in
      let valid : validate_packet c.forwarder_encapsulation s.buf (suc (length rest) + 1)
          ≡ some true =
        rw (off, e, last)
          (validate_packet-plain t rest plain (drop (length (packet t rest plain)) buf)) in
      ground (arith, valid, end_packet-ok s buf c e fits)

  module _ (port : Port) (s : Serial) (c : Client) (size : length s.buf ≡ buf_size)
      (short : length rest ≤ 253) (off : c.forwarder_encapsulation ≡ false)
      (first : port.read s.reads 1 ≡ some (suc (suc (length rest)) ∷ []))
      (second : port.read (s.reads + 1) (suc (length rest)) ≡ some (t ∷ rest)) where
    abbrev half_read : Serial
    half_read = record s { buf = suc (suc (length rest)) ∷ drop 1 s.buf; reads = s.reads + 1 }

    abbrev filled_up : Serial
    filled_up = record s {
      buf = packet t rest plain ++ drop (length (packet t rest plain)) s.buf;
      reads = s.reads + 1 + 1;
    }

    read_second :
        read_at port 1 (suc (length rest)) half_read c ≡ ok (some (suc (length rest)), filled_up) c
    read_second =
        read_at-ok port 1 (suc (length rest)) (t ∷ rest) half_read c second
          (omega (arith, length-drop 1 s.buf, size, short))
        ∙ ap (λ b. ok (some (suc (length rest)), record s { buf = b; reads = s.reads + 1 + 1 }) c)
            (filled (suc (suc (length rest))) (t ∷ rest) s.buf (omega (arith, size, short)))

    read_rest-ok :
        read_rest port half_read c ≡ ok (some (holding t rest plain s.buf), having_read s) c
    unfolding read_rest end_read
    read_rest-ok =
        let rest_ok = checked-ok filled_up s.buf c refl (omega (arith, size, short)) off in
        ground (arith, read_second, rest_ok)

    pub serial_read_packet-plain :
        serial_read_packet port s c ≡ ok (some (holding t rest plain s.buf), having_read s) c
    unfolding serial_read_packet with_length
    serial_read_packet-plain =
        let length_read =
          read_at-ok port 0 1 (suc (suc (length rest)) ∷ []) s c first (omega (arith, size)) in
        ground (arith, length_read, read_rest-ok)
