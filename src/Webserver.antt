-- ===== src/Webserver.antt =====
-- ictp/webserver/websense.c: a mote that serves its readings as a page with two charts.
pub mod History
mod Buffer
pub mod Texts
mod Loop
pub mod Laws
mod Tests
use ts_it.Base.{
  ℕ, zero, suc, ◌+◌, ◌-◌, ◌*◌, ◌/◌, ◌%◌, ◌++◌, ◌==◌, ltb, if◌then◌else◌, Option, none, some, List,
  [], ◌∷◌, length, get_or, set, replicate, codes, c_string, decimal_digits, print_at,
}

-- An `int`: `negsuc n` is -(n + 1).
pub data ℤ : Type 0 where
  pos : ℕ → ℤ
  negsuc : ℕ → ℤ

-- `%d` of an `int` of 16 bits.
abbrev pub int_text : ℤ → List ℕ
int_text (pos n) = decimal_digits 5 n []
int_text (negsuc n) = codes "-" ++ decimal_digits 5 (n + 1) []

-- `/ 100`, which rounds towards 0.
abbrev pub hundredth : ℤ → ℤ
hundredth (pos n) = pos (n / 100)
hundredth (negsuc n) = if ltb n 99 then pos 0 else negsuc ((n + 1) / 100 - 1)

-- The cast to `uint16_t`.
abbrev pub to_u16 : ℤ → ℕ
to_u16 (pos n) = n % 65536
to_u16 (negsuc n) = 65535 - n % 65536

-- The cast of a `uint16_t` to `int8_t`.
abbrev pub to_int8 : ℕ → ℤ
to_int8 n = if ltb (n % 256) 128 then pos (n % 256) else negsuc (255 - n % 256)

-- What the sensors give: get_xaxis() and get_mytemp().
pub record Reading : Type 0 where
  pub x_axis : ℤ
  pub temp : ℤ

abbrev pub history : ℕ
history = 16

-- The static variables, but for the buffer of the page.
pub record Sense : Type 0 where
  pub temperature : List ℤ
  pub xaxis : List ℤ
  pub sensors_pos : ℕ

abbrev pub at_start : Sense
at_start = record {
  temperature = replicate history (pos 0);
  xaxis = replicate history (pos 0);
  sensors_pos = 0;
}

-- A run of the loop of web_sense_process, when the timer has expired.
unfoldable pub sense_event : Reading → Sense → Sense
sense_event r s = record {
  temperature = set s.temperature s.sensors_pos (hundredth r.temp);
  xaxis = set s.xaxis s.sensors_pos r.x_axis;
  sensors_pos = (s.sensors_pos + 1) % history;
}

-- `buf` and `blen`.
pub record Page : Type 0 where
  pub buf : List ℕ
  pub blen : ℕ

abbrev pub page_size : ℕ
page_size = 256

-- The macro ADD. Where `blen` is the size nothing is written; beyond it the size for snprintf wraps
-- around, and it writes behind the buffer: `none`.
unfoldable pub add_text : List ℕ → Page → Option Page
add_text text p =
    if ltb page_size p.blen
    then none
    else if p.blen == page_size
    then some (record p { blen = p.blen + length text })
    else some (record {
      buf = print_at p.blen (page_size - p.blen) text p.buf;
      blen = p.blen + length text;
    })

-- A run of the loop over the readings, with `left` runs to go.
unfoldable pub chart_loop : ℕ → ℕ → ℕ → List ℤ → Page → Option Page
chart_loop zero i sensors_pos values p = some p
chart_loop (suc left) i sensors_pos values p =
    let value = get_or values ((sensors_pos + i) % history) (pos 0) in
    elim (add_text ((if ltb 0 i then codes "," else []) ++ int_text value) p) [
      | none ↦ none
      | some p1 ↦ chart_loop left (suc i) sensors_pos values p1
    ]

-- The first text of a chart.
abbrev pub chart_head : List ℕ → List ℕ → ℤ → ℤ → List ℕ
chart_head title unit min max =
    codes "<h1>"
    ++ (title
        ++ (codes
              "</h1>\n<img src=\"http://chart.apis.google.com/chart?cht=lc&chs=400x300&chxt=x,x,y,y&chxp=1,50|3,50&chxr=2,"
            ++ (int_text min
                ++ (codes ","
                    ++ (int_text max
                        ++ (codes "|0,0,30&chds="
                            ++ (int_text min
                                ++ (codes ","
                                    ++ (int_text max
                                        ++ (codes "&chxl=1:|Time|3:|"
                                            ++ (unit ++ codes "&chd=t:")))))))))))

unfoldable pub generate_chart : List ℕ → List ℕ → ℤ → ℤ → List ℤ → ℕ → List ℕ → Option Page
generate_chart title unit min max values sensors_pos buf =
    elim (add_text (chart_head title unit min max) (record { buf = buf; blen = 0 })) [
      | none ↦ none
      | some p ↦ elim (chart_loop history 0 sensors_pos values p) [
        | none ↦ none
        | some q ↦ add_text (codes "\">") q
      ]
    ]

-- `%02d` of a number below 100.
abbrev pub two_digits : ℕ → List ℕ
two_digits n = (n / 10 + 48) ∷ (n % 10 + 48) ∷ []

-- The text of the current readings.
abbrev pub readings_text : Reading → List ℕ
readings_text r =
    let mytemp = to_u16 r.temp in
    codes "<h1>Current readings</h1>\nX axis: "
    ++ (int_text (to_int8 (to_u16 r.x_axis))
        ++ (codes "<br>Temperature: "
            ++ (decimal_digits 10 (mytemp / 100) []
                ++ (codes "." ++ (two_digits (mytemp % 100) ++ codes " &deg; C")))))

-- SEND_STRING of the buffer, behind what was sent.
abbrev pub send_string : Page → List (List ℕ) → Option (List (List ℕ))
send_string p sent = elim (c_string p.buf) [ none ↦ none | some text ↦ some (sent ++ (text ∷ [])) ]

infixl 5 ◌>>=◌
abbrev pub ◌>>=◌ {ℓ κ} : {A : Type ℓ} {B : Type κ} → Option A → (A → Option B) → Option B
none >>= f = none
some a >>= f = f a

-- The page: the strings that are sent, one after the other. Readings may be taken while a string is
-- sent: `s` and `s'` are the variables when each of the charts is made.
unfoldable pub send_values : Reading → Sense → Sense → List ℕ → Option (List (List ℕ))
unfolding generate_chart
send_values r s s' buf =
    let top = codes "<html><head><title>Zolertia Web Sense</title></head><body>\n" in
    do
      p ← add_text (readings_text r) (record { buf = buf; blen = 0 })
      sent ← send_string p (top ∷ [])
      q ←
          generate_chart (codes "X axis") (codes "None") (negsuc 299) (pos 300) s.xaxis
            s.sensors_pos p.buf
      sent' ← send_string q sent
      u ←
          generate_chart (codes "Temperature") (codes "Celsius") (pos 0) (pos 50) s'.temperature
            s'.sensors_pos q.buf
      sent'' ← send_string u sent'
      some (sent'' ++ (codes "</body></html>\n" ∷ []))
