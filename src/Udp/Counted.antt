-- ===== src/Udp/Counted.antt =====
-- What the mote of ictp/udp/udp-client.c has sent, whatever events it gets.
use ts_it.Base.{
  ℕ, ◌+◌, ◌≡◌, ◌⊎◌, inl, inr, refl, Bool, true, false, Option-cases, some, List, ◌++◌, length,
  length-append, byte_at, All, u16, htons, arith,
}
use ts_it.Udp.Client.{
  Readings, MyMsg, UdpClient, reading_message, send_readings, tcpip_handler, udp_start, udp_event,
}

pub data UdpReachable (padding : List ℕ) : UdpClient → Type 0 where
  started : (c : UdpClient) → udp_start true ≡ some c → UdpReachable padding c
  handled :
      (is_tcpip is_button expired : Bool) (r : Readings) (newdata : Bool) (datalen : ℕ)
      (appdata : List ℕ) (c d : UdpClient)
      → UdpReachable padding c
      → udp_event padding is_tcpip is_button expired r newdata datalen appdata c ≡ some d
      → UdpReachable padding d

-- A message has its size and its id.
abbrev pub IsReading : List ℕ → List ℕ → Type 0
IsReading padding bytes = (length bytes ≡ 13 + length padding) × (byte_at bytes 0 ≡ 0xAB)

-- One message for each reset of the timer, and the counter is their number.
pub record IsCounted (padding : List ℕ) (c : UdpClient) : Type 0 where
  pub counter : c.sent_counter ≡ u16 (length c.sent)
  pub resets : c.resets ≡ length c.sent
  pub readings : All (IsReading padding) c.sent

-- What stands behind the padding.
abbrev numbers : MyMsg → List ℕ
numbers m =
    htons m.counter
    ++ (htons m.value1
        ++ (htons m.value2 ++ (htons m.value3 ++ (htons m.value4 ++ htons m.battery))))

send-IsCounted :
    (padding : List ℕ) (r : Readings) (c : UdpClient)
    → IsCounted padding c
    → IsCounted padding (send_readings padding r (record c { resets = c.resets + 1 }))
unfolding send_readings
send-IsCounted padding r c i =
    let m = reading_message (u16 (c.sent_counter + 1)) r in
    record {
      counter = omega (arith, i.counter);
      resets = omega (arith, i.resets);
      readings = ((omega (arith, length-append padding (numbers m)), refl), i.readings);
    }

-- An event: the state is as it was, or a message has been sent.
event-cases :
    (padding : List ℕ) (is_tcpip is_button expired : Bool) (r : Readings) (newdata : Bool)
    (datalen : ℕ) (appdata : List ℕ) (c d : UdpClient)
    → udp_event padding is_tcpip is_button expired r newdata datalen appdata c ≡ some d
    → (d ≡ c) ⊎ (d ≡ send_readings padding r (record c { resets = c.resets + 1 }))
unfolding udp_event
event-cases padding true is_button expired r newdata datalen appdata c d e =
    elim (Option-cases (tcpip_handler newdata datalen appdata)) [
      | inl n ↦ ground (arith, n, e)
      | inr (b, n) ↦ ground (arith, n, e)
    ]
event-cases padding false is_button expired r newdata datalen appdata c d e = ground (arith, e)

-- Whatever datagrams arrive, however often the button is pressed and the timer runs out, and whatever
-- the sensors give: the mote has sent one message for each time it has reset its timer, the counter
-- is their number modulo 2^16, and each has 13 bytes and the padding, and starts with the id.
pub UdpReachable-IsCounted :
    (padding : List ℕ) {c : UdpClient} → UdpReachable padding c → IsCounted padding c
unfolding udp_start
UdpReachable-IsCounted padding (started c e) = record {
  counter = ground (arith, e);
  resets = ground (arith, e);
  readings = ground (arith, e);
}
UdpReachable-IsCounted padding
      (handled is_tcpip is_button expired r newdata datalen appdata c d before e) =
    let i = UdpReachable-IsCounted padding before in
    elim (event-cases padding is_tcpip is_button expired r newdata datalen appdata c d e) [
      | inl same ↦ rw (same) i
      | inr sent ↦ rw (sent) (send-IsCounted padding r c i)
    ]
