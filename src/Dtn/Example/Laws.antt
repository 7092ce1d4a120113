-- ===== src/Dtn/Example/Laws.antt =====
-- What the program ictp/spray-dtn/example-dtn.c sends, whatever it hears.
use ts_it.Base.{
  Bool-cases, inl, inr, ◌&&◌, some, if◌then◌else◌, ℕ, ◌+◌, ◌≤◌, ◌≡◌, refl, sym, ◌∙◌, ◌==◌, List, [],
  ◌∷◌, ◌++◌, All, length, drop, codes, decimal_digits, length-decimal_digits, length-append,
  length-drop, arith,
}
use mathlib.Core.Path.{subst}
use mathlib.Core.Option.{some_inj}
use ts_it.Dtn.Calls.{send}
use ts_it.Dtn.State.{Header, Dtn, Contiki, Appends}
use ts_it.Dtn.Calls.{dtn_open, set_addr}
use ts_it.Dtn.Genuine.{Message, IsGenuine}
use ts_it.Dtn.Genuine.Handlers.{send-IsGenuine}
use ts_it.Dtn.Genuine.Steps.{Hearing, Hearing-IsGenuine}
use ts_it.Dtn.Example.{
  leds_green, Example, main_process, example_text, written, pressed, example_event, int_max,
}

-- A message in the name of node 15 is for node 9, and has a text of the program, with the number of a
-- press.
abbrev pub IsOwn : Message → Type 0
IsOwn m =
    m.from ≡ 15
    → (m.to ≡ 9) × ((k : ℕ) × (1 ≤ k) × (k ≤ int_max) × (m.payload ≡ example_text k ++ (0 ∷ [])))

-- What the program comes to: events, as long as its count does not overflow, and what the node hears, where no other node sends in its
-- name.
pub data ExampleReachable (os : Contiki) (sensors_event button_sensor : ℕ) : Example → Type 0 where
  begun : (h : Header) → ExampleReachable os sensors_event button_sensor (main_process h)
  event :
      (ev data_ : ℕ) (x y : Example)
      → ExampleReachable os sensors_event button_sensor x
      → example_event os sensors_event button_sensor ev data_ x ≡ some y
      → ExampleReachable os sensors_event button_sensor y
  hearing :
      (x : Example) (d : Dtn)
      → ExampleReachable os sensors_event button_sensor x
      → Hearing os IsOwn x.conn d
      → ExampleReachable os sensors_event button_sensor (record x { conn = d })

-- The node has its address, and only messages as above; the count is one of 16 bits; the text fits
-- into its buffer; the receiver stays, and only the green lamp flashes.
pub record IsSteady (x : Example) : Type 0 where
  pub conn : IsGenuine IsOwn 15 x.conn
  pub counted : x.count ≤ int_max
  pub receiver : x.dest_addr ≡ 9
  pub fits : length x.msg ≡ 100
  pub green : All (λ l. l ≡ leds_green) x.flashes

length-example_text : (count : ℕ) → length (example_text count) ≤ 20
length-example_text count =
    let digits = length-decimal_digits 10 count [] in
    let sum = length-append (codes "YiweiChen-") (decimal_digits 10 count []) in
    omega (arith, digits, sum)

length-written :
    (text buffer : List ℕ)
    → length text + 1 ≤ length buffer
    → length (written text buffer) ≡ length buffer
length-written text buffer fits =
    let sum = length-append text (0 ∷ drop (length text + 1) buffer) in
    let rest = length-drop (length text + 1) buffer in omega (arith, sum, rest, fits)

pressed-IsSteady :
    (os : Contiki) (x y : Example) → Appends os → pressed os x ≡ some y → IsSteady x → IsSteady y
unfolding pressed
pressed-IsSteady os x y appends e s = elim (Bool-cases (x.count == int_max)) [
  | inl last ↦ absurd (ground (arith, last, e))
  | inr more ↦
      let text = example_text (x.count + 1) in
      let short = length-example_text (x.count + 1) in
      let room : x.count + 1 ≤ int_max = ground (arith, more, s.counted) in
      let sent = send os (text ++ (0 ∷ [])) x.dest_addr x.conn in
      let now : Example = record x {
        conn = sent.1;
        msg = written text x.msg;
        count = x.count + 1;
        flashes = if sent.0 == 0 then x.flashes else leds_green ∷ x.flashes;
      } in
      let run : pressed os x ≡ some now = rw (more) refl in
      let is : now ≡ y = some_inj.0 (sym run ∙ e) in
      subst IsSteady is (record {
        conn =
            send-IsGenuine IsOwn 15 os (text ++ (0 ∷ [])) x.dest_addr x.conn appends
              (λ h. (s.receiver, (x.count + 1, omega arith, room, refl))) s.conn;
        counted = room;
        receiver = s.receiver;
        fits = length-written text x.msg (omega (arith, short, s.fits)) ∙ s.fits;
        green = ground (arith, s.green);
      })
]

event-IsSteady :
    (os : Contiki) (sensors_event button_sensor ev data_ : ℕ) (x y : Example)
    → Appends os
    → example_event os sensors_event button_sensor ev data_ x ≡ some y
    → IsSteady x
    → IsSteady y
unfolding example_event
event-IsSteady os sensors_event button_sensor ev data_ x y appends e s =
    elim (Bool-cases ((ev == sensors_event) && (data_ == button_sensor))) [
      | inl here ↦
          let run : example_event os sensors_event button_sensor ev data_ x ≡ pressed os x =
            rw (here) refl in
          pressed-IsSteady os x y appends (sym run ∙ e) s
      | inr other ↦
          let run : example_event os sensors_event button_sensor ev data_ x ≡ some x =
            rw (other) refl in
          subst IsSteady (some_inj.0 (sym run ∙ e)) s
    ]

-- Where Contiki puts a packet behind the others of a queue, whatever events the process gets, up to
-- the press that overflows its count of 16 bits, and whatever the node 15 that runs it hears, as
-- long as no other node sends in its name: every message in its name that the node has, sends or
-- delivers is for node 9 and is the text "YiweiChen-" with a number from 1 to 32767 and a
-- terminator; the text never leaves its buffer of 100 bytes; and
-- the branch of the second button, which would choose another receiver and flash the blue lamp, is
-- never taken.
pub ExampleReachable-IsSteady :
    (os : Contiki) (sensors_event button_sensor : ℕ) {x : Example}
    → Appends os
    → ExampleReachable os sensors_event button_sensor x
    → IsSteady x
unfolding main_process dtn_open set_addr
ExampleReachable-IsSteady os sensors_event button_sensor appends (begun h) = record {
  conn = record { addressed = refl; queue = tt; air = tt; delivered = tt };
  counted = omega arith;
  receiver = refl;
  fits = refl;
  green = tt;
}
ExampleReachable-IsSteady os sensors_event button_sensor appends (event ev data_ x y r e) =
    event-IsSteady os sensors_event button_sensor ev data_ x y appends e
      (ExampleReachable-IsSteady os sensors_event button_sensor appends r)
ExampleReachable-IsSteady os sensors_event button_sensor appends (hearing x d r h) =
    let s = ExampleReachable-IsSteady os sensors_event button_sensor appends r in
    record {
      conn = Hearing-IsGenuine os IsOwn 15 appends s.conn h;
      counted = s.counted;
      receiver = s.receiver;
      fits = s.fits;
      green = s.green;
    }
