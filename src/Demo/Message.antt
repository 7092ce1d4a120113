-- ===== src/Demo/Message.antt =====
-- ictp/mqtt/mqtt-demo.c: ipaddr_sprintf and publish.
pub mod Laws
use ts_it.Base.{
  ℕ, zero, suc, ◌+◌, ◌-◌, ◌*◌, ◌^◌, ◌%◌, ◌++◌, ◌==◌, ltb, if◌then◌else◌, Bool, true, false, Option,
  none, some, List, [], ◌∷◌, length, take, replicate, codes, c_string, strlen, u8, u16, hex_digits,
  decimal_digits, print_at,
}
use ts_it.Demo.State.{Demo, World, Platform, Call, mqtt_publish}

-- The variable `f`: the zero groups counted so far, or -1 once the run of them is over.
pub data ZeroRun : Type 0 where
  counted : ℕ → ZeroRun
  over : ZeroRun

-- The buffer and `len`.
pub record Printed : Type 0 where
  pub buf : List ℕ
  pub len : ℕ

-- `len += snprintf(&buf[len], buf_len - len, …)`; `none` is a size that has become negative.
unfoldable pub ip_print : ℕ → List ℕ → Printed → Option Printed
ip_print buf_len text o =
    if ltb buf_len o.len
    then none
    else if buf_len == o.len
    then some (record o { len = u8 (o.len + length text) })
    else some (record {
      buf = print_at o.len (buf_len - o.len) text o.buf;
      len = u8 (o.len + length text);
    })

-- The group itself, with a colon in front where `has_colon` says so.
abbrev ip_number : ℕ → Bool → ℕ → Printed → Option Printed
ip_number buf_len true a o = elim (ip_print buf_len (codes ":") o) [
  | none ↦ none
  | some o1 ↦ ip_print buf_len (hex_digits 4 a []) o1
]
ip_number buf_len false a o = ip_print buf_len (hex_digits 4 a []) o

-- A run of the loop: the new `f`, and what is printed of the group `a`.
unfoldable pub ip_group : ℕ → Bool → ℕ → ZeroRun → Printed → Option (ZeroRun × Printed)
ip_group buf_len is_first zero (counted zero) o = elim (ip_print buf_len (codes "::") o) [
  | none ↦ none
  | some o1 ↦ some (counted 1, o1)
]
ip_group buf_len is_first zero (counted (suc f)) o = some (counted (suc (suc f)), o)
ip_group buf_len is_first a (counted (suc f)) o = elim (ip_number buf_len false a o) [
  | none ↦ none
  | some o1 ↦ some (over, o1)
]
ip_group buf_len is_first a (counted zero) o =
    elim (ip_number buf_len (if is_first then false else true) a o) [
      | none ↦ none
      | some o1 ↦ some (counted zero, o1)
    ]
ip_group buf_len is_first a over o =
    elim (ip_number buf_len (if is_first then false else true) a o) [
      | none ↦ none
      | some o1 ↦ some (over, o1)
    ]

-- The loop over the bytes of the address, two at a time.
unfoldable pub ip_groups : ℕ → Bool → List ℕ → ZeroRun → Printed → Option Printed
ip_groups buf_len is_first (hi ∷ lo ∷ bytes) f o =
    elim (ip_group buf_len is_first (hi * 256 + lo) f o) [
      | none ↦ none
      | some (f1, o1) ↦ ip_groups buf_len false bytes f1 o1
    ]
ip_groups buf_len is_first _ f o = some o

unfoldable pub ipaddr_sprintf : List ℕ → ℕ → List ℕ → Option Printed
ipaddr_sprintf buf buf_len addr =
    ip_groups buf_len true addr (counted 0) (record { buf = buf; len = 0 })

abbrev pub app_buffer_size : ℕ
app_buffer_size = 256

-- The first of the three texts, with the number of the message and the time.
abbrev pub head_text : Platform → ℕ → ℕ → List ℕ
head_text os seq seconds =
    codes "{\"d\":{\"myName\":\"Zolertia Z1 Node\",\"Seq #\":"
    ++ (os.decimal seq ++ (codes ",\"Uptime (sec)\":" ++ decimal_digits 10 (seconds % 2 ^ 32) []))

abbrev pub route_text : List ℕ → List ℕ
route_text route = codes ",\"Def Route\":\"" ++ (route ++ codes "\"")

-- A text behind the `used` bytes of app_buffer, with what remains of it: the buffer, the bytes used
-- then, and whether it fits.
unfoldable pub append_text : List ℕ → ℕ → List ℕ → (List ℕ) × ℕ × Bool
append_text text used buffer =
    let remaining = app_buffer_size - used in
    (print_at used remaining text buffer, used + length text, ltb (length text) remaining)

-- The two texts behind the first, and the message.
unfoldable pub publish_route : List ℕ → ℕ → Demo → Demo
unfolding append_text
publish_route route used d =
    let (b2, used2, fits2) = append_text (route_text route) used d.app_buffer in
    let (b3, used3, fits3) = append_text (codes "}}") used2 b2 in
    if fits2
    then if fits3
      then record d {
        app_buffer = b3;
        calls = mqtt_publish d.pub_topic (take (strlen b3) b3) ∷ d.calls;
      }
      else record d { app_buffer = b3 }
    else record d { app_buffer = b2 }

-- The message, once its number is set; `none` is a read through a pointer that is NULL, or behind
-- an array.
unfoldable pub publish_head : World → List ℕ → Demo → Option Demo
unfolding ipaddr_sprintf append_text publish_route
publish_head w head d =
    let (b1, used1, fits1) = append_text head 0 d.app_buffer in
    let d1 = record d { app_buffer = b1 } in
    if fits1
    then elim w.default_route [
      | none ↦ none
      | some addr ↦ elim (ipaddr_sprintf (replicate 64 0) 64 addr) [
        | none ↦ none
        | some o ↦ elim (c_string o.buf) [
          | none ↦ none
          | some route ↦ some (publish_route route used1 d1)
        ]
      ]
    ]
    else some d1

unfoldable pub publish : Platform → World → Demo → Option Demo
unfolding publish_head
publish os w d =
    let seq = u16 (d.seq_nr_value + 1) in
    publish_head w (head_text os seq w.clock_seconds) (record d { seq_nr_value = seq })
