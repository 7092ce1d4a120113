-- ===== src/Dtn/Example.antt =====
-- ictp/spray-dtn/example-dtn.c: a text is sent whenever the button is pressed. What is printed is
-- left out.
pub mod Laws
mod Tests
use ts_it.Base.{
  ℕ, ◌+◌, ◌==◌, ltb, ◌&&◌, if◌then◌else◌, u8, List, [], ◌∷◌, ◌++◌, codes, decimal_digits, length,
  Option, none, some, drop, replicate,
}
use ts_it.Dtn.State.{Header, Dtn, Contiki}
use ts_it.Dtn.Calls.{dtn_open, dtn_close, send, set_addr}

-- The lamps that flash.
pub data Led : Type 0 where
  leds_green leds_blue : Led

-- The static variables of main_process; of a Rime address whose second byte is 0, its first byte.
-- `flashes` is a trace, the newest first.
pub record Example : Type 0 where
  pub conn : Dtn
  pub msg : List ℕ
  pub count : ℕ
  pub dest_addr : ℕ
  pub flashes : List Led

abbrev pub example_channel : ℕ
example_channel = 128

-- The process up to its loop.
unfoldable pub main_process : Header → Example
main_process handoff_hdr = record {
  conn = set_addr 15 (dtn_open example_channel 0 handoff_hdr);
  msg = replicate 100 0;
  count = 0;
  dest_addr = 9;
  flashes = [];
}

-- `sprintf(msg, "YiweiChen-%d", count)`, and the text as `msg` has it.
abbrev pub example_text : ℕ → List ℕ
example_text count = codes "YiweiChen-" ++ decimal_digits 10 count []

abbrev pub written : List ℕ → List ℕ → List ℕ
written text buffer = text ++ (0 ∷ drop (length text + 1) buffer)

-- An `int` of the mote has 16 bits.
abbrev pub int_max : ℕ
int_max = 32767

-- The button is pressed; none where `count++` overflows, which C leaves undefined.
unfoldable pub pressed : Contiki → Example → Option Example
pressed os x =
    if x.count == int_max
    then none
    else let count = x.count + 1 in
      let text = example_text count in
      let (accepted, conn) = send os (text ++ (0 ∷ [])) x.dest_addr x.conn in
      some (record x {
        conn = conn;
        msg = written text x.msg;
        count = count;
        flashes = if accepted == 0 then x.flashes else leds_green ∷ x.flashes;
      })

-- The other button chooses the next receiver.
unfoldable pub pressed_2 : Example → Example
pressed_2 x =
    let next = u8 (x.dest_addr + 1) in
    record x { dest_addr = if ltb 20 next then 0 else next; flashes = leds_blue ∷ x.flashes }

-- An event of the process, with its data; `button_sensor2` is defined as `button_sensor`.
unfoldable pub example_event : Contiki → ℕ → ℕ → ℕ → ℕ → Example → Option Example
example_event os sensors_event button_sensor ev data_ x =
    let button_sensor2 = button_sensor in
    if (ev == sensors_event) && (data_ == button_sensor)
    then pressed os x
    else if (ev == sensors_event) && (data_ == button_sensor2)
    then some (pressed_2 x)
    else some x

-- The exit handler.
abbrev pub exit_handler : Example → Example
exit_handler x = record x { conn = dtn_close x.conn }
