-- ===== src/Udp/Client.antt =====
-- ictp/udp/udp-client.c, with the message of ictp/udp/example.h. What is printed is left out.
use ts_it.Base.{
  ℕ, ◌+◌, ◌*◌, ◌/◌, ◌%◌, ◌^◌, ◌||◌, ltb, if◌then◌else◌, Bool, Option, none, some, List, [], ◌∷◌,
  ◌++◌, length, set, u16, htons, map,
}

-- What the sensors give: 16 bits each, and the converter's value for the battery.
pub record Readings : Type 0 where
  pub temperature : ℕ
  pub x_axis : ℕ
  pub y_axis : ℕ
  pub z_axis : ℕ
  pub adc : ℕ

-- `struct my_msg_t`, before its fields are put into network order.
pub record MyMsg : Type 0 where
  pub id : ℕ
  pub counter : ℕ
  pub value1 : ℕ
  pub value2 : ℕ
  pub value3 : ℕ
  pub value4 : ℕ
  pub battery : ℕ

-- The static variables, with what was sent and how often the timer was reset; the newest first.
pub record UdpClient : Type 0 where
  pub sent_counter : ℕ
  pub sent : List (List ℕ)
  pub resets : ℕ

-- `aux` is a `uint32_t`.
abbrev pub millivolts : ℕ → ℕ
millivolts adc = u16 ((adc * 5000) % 2 ^ 32 / 4095)

abbrev pub reading_message : ℕ → Readings → MyMsg
reading_message counter r = record {
  id = 0xAB;
  counter = counter;
  value1 = u16 r.temperature;
  value2 = u16 r.x_axis;
  value3 = u16 r.y_axis;
  value4 = u16 r.z_axis;
  battery = millivolts r.adc;
}

-- The bytes of the struct once UIP_HTONS is applied: where the compiler puts 16-bit members at
-- even addresses, there is a byte of padding behind the id.
abbrev pub struct_bytes : List ℕ → MyMsg → List ℕ
struct_bytes padding m =
    m.id
    ∷ (padding
        ++ (htons m.counter
            ++ (htons m.value1
                ++ (htons m.value2 ++ (htons m.value3 ++ (htons m.value4 ++ htons m.battery))))))

-- The function send_packet.
unfoldable pub send_readings : List ℕ → Readings → UdpClient → UdpClient
send_readings padding r c =
    let counter = u16 (c.sent_counter + 1) in
    record c {
      sent_counter = counter;
      sent = struct_bytes padding (reading_message counter r) ∷ c.sent;
    }

-- The text of a datagram is terminated where it lies, in a buffer; `none` is a write behind that.
unfoldable pub tcpip_handler : Bool → ℕ → List ℕ → Option (List ℕ)
tcpip_handler newdata datalen appdata =
    if newdata
    then if ltb datalen (length appdata) then some (set appdata datalen 0) else none
    else some appdata

-- The process up to its loop: it ends where there is no connection to be had.
unfoldable pub udp_start : Bool → Option UdpClient
udp_start connection =
    if connection then some (record { sent_counter = 0; sent = []; resets = 0 }) else none

-- An event of the loop: a datagram, the button, or the timer.
unfoldable pub udp_event :
    List ℕ → Bool → Bool → Bool → Readings → Bool → ℕ → List ℕ → UdpClient → Option UdpClient
unfolding tcpip_handler send_readings
udp_event padding is_tcpip is_button expired r newdata datalen appdata c =
    let d =
      if is_button || expired
      then send_readings padding r (record c { resets = c.resets + 1 })
      else c in
    if is_tcpip
    then elim (tcpip_handler newdata datalen appdata) [ none ↦ none | some _ ↦ some d ]
    else some d

-- The state of an address, `uip_ds6_if.addr_list[i]`.
pub data AddressState : Type 0 where
  tentative preferred deprecated : AddressState

pub record Address : Type 0 where
  pub isused : Bool
  pub state : AddressState

-- An address that is tentative is made final when it is printed.
abbrev pub finalised : Address → Address
finalised a = record a {
  state = elim a.state as (λ _. AddressState) [
    | tentative ↦ if a.isused then preferred else tentative
    | s ↦ s
  ];
}

unfoldable pub print_local_addresses : List Address → List Address
print_local_addresses = map finalised
