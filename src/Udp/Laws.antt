-- ===== src/Udp/Laws.antt =====
-- What the server of ictp/udp makes of the readings of a mote.
use ts_it.Base.{ℕ, ◌+◌, ◌*◌, ◌/◌, ◌%◌, ◌≤◌, ◌≡◌, refl, some, [], ◌∷◌, u16, arith}
use ts_it.Udp.Client.{Readings, UdpClient, millivolts, reading_message, struct_bytes, send_readings}
use ts_it.Udp.Server.{sensor}

-- The two bytes of a 16-bit number.
abbrev pub high : ℕ → ℕ
high n = u16 n / 256

abbrev pub low : ℕ → ℕ
low n = u16 n % 256

-- The converter has 12 bits: its value in millivolts is exact down to the next whole number.
pub millivolts_exact :
    (adc : ℕ) → adc ≤ 4095 → (millivolts adc ≡ adc * 5000 / 4095) × (millivolts adc ≤ 5000)
millivolts_exact adc h = (omega (arith, h), omega (arith, h))

u16_twice : (n : ℕ) → u16 (u16 n) ≡ u16 n
u16_twice n = omega arith

-- The server reads a 16-bit field with its low byte first, and without padding. Where the mote's
-- compiler puts no padding behind the id, each number that the server reads of a message has the
-- two bytes of the mote's number the wrong way round. Where it puts one byte there, each has the
-- high byte of the mote's number, but the low byte of the number before it: the counter has the
-- padding, the temperature the counter's low byte, and so on. The id is right, and the battery's
-- number at the mote is the converter's value, of 12 bits, in millivolts.
pub sent-sensor :
    (r : Readings) (c : UdpClient) (padding : ℕ)
    → r.adc ≤ 4095
    → let counter = u16 (c.sent_counter + 1) in
      let m = reading_message counter r in
      let battery = r.adc * 5000 / 4095 in
      ((send_readings [] r c).sent ≡ struct_bytes [] m ∷ c.sent)
      × (sensor (struct_bytes [] m)
          ≡ some (record {
            id = 0xAB;
            counter = high counter + low counter * 256;
            temperature = high r.temperature + low r.temperature * 256;
            x_axis = high r.x_axis + low r.x_axis * 256;
            y_axis = high r.y_axis + low r.y_axis * 256;
            z_axis = high r.z_axis + low r.z_axis * 256;
            battery = high battery + low battery * 256;
          }))
      × ((send_readings (padding ∷ []) r c).sent ≡ struct_bytes (padding ∷ []) m ∷ c.sent)
      × (sensor (struct_bytes (padding ∷ []) m)
          ≡ some (record {
            id = 0xAB;
            counter = padding + high counter * 256;
            temperature = low counter + high r.temperature * 256;
            x_axis = low r.temperature + high r.x_axis * 256;
            y_axis = low r.x_axis + high r.y_axis * 256;
            z_axis = low r.y_axis + high r.z_axis * 256;
            battery = low r.z_axis + high battery * 256;
          }))
unfolding send_readings sensor
sent-sensor r c padding h =
    let exact = (millivolts_exact r.adc h).0 in
    let a = u16_twice r.temperature in
    let b = u16_twice r.x_axis in
    let d = u16_twice r.y_axis in
    let e = u16_twice r.z_axis in
    (refl, rw (exact, a, b, d, e) refl, refl, rw (exact, a, b, d, e) refl)
