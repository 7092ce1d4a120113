-- ===== src/Udp/Tests.antt =====
-- The theorem about ictp/udp at the readings of a mote, whose counter comes to 22.
use ts_it.Base.{true, false, refl, ◌≡◌, some, [], ◌∷◌, arith}
use ts_it.Udp.Client.{
  udp_start, udp_event, Readings, UdpClient, reading_message, struct_bytes, send_readings,
}
use ts_it.Udp.Counted.{started, handled, IsCounted, UdpReachable-IsCounted}
use ts_it.Udp.Server.{sensor}
use ts_it.Udp.Laws.{sent-sensor}

abbrev room : Readings
room = record { temperature = 2412; x_axis = 65325; y_axis = 137; z_axis = 65441; adc = 2448 }

abbrev running : UdpClient
running = record { sent_counter = 21; sent = []; resets = 0 }

sent-sensor_example :
    let m = reading_message 22 room in
    ((send_readings [] room running).sent ≡ struct_bytes [] m ∷ [])
    × (sensor (struct_bytes [] m)
        ≡ some (record {
          id = 0xAB;
          counter = 5632;
          temperature = 27657;
          x_axis = 11775;
          y_axis = 35072;
          z_axis = 41471;
          battery = 44299;
        }))
    × ((send_readings (0 ∷ []) room running).sent ≡ struct_bytes (0 ∷ []) m ∷ [])
    × (sensor (struct_bytes (0 ∷ []) m)
        ≡ some (record {
          id = 0xAB;
          counter = 0;
          temperature = 2326;
          x_axis = 65388;
          y_axis = 45;
          z_axis = 65417;
          battery = 2977;
        }))
sent-sensor_example = sent-sensor room running 0 (omega arith)

abbrev at_start : UdpClient
at_start = record { sent_counter = 0; sent = []; resets = 0 }

abbrev pressed : UdpClient
pressed = record {
  sent_counter = 1;
  sent = struct_bytes (0 ∷ []) (reading_message 1 room) ∷ [];
  resets = 1;
}

UdpReachable-IsCounted_example : IsCounted (0 ∷ []) pressed
unfolding udp_start udp_event send_readings
UdpReachable-IsCounted_example =
    UdpReachable-IsCounted (0 ∷ [])
      (handled false true false room false 0 [] at_start pressed (started at_start refl) refl)
