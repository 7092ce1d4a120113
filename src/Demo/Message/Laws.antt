-- ===== src/Demo/Message/Laws.antt =====
-- What publish of ictp/mqtt/mqtt-demo.c sends.
use ts_it.Base.{
  ℕ, ◌+◌, ◌-◌, ◌^◌, ◌%◌, ◌≤◌, ◌<◌, ◌≡◌, refl, ◌++◌, ltb-true, none, some, List, [], ◌∷◌, length,
  drop, codes, u16, IsText, All-append, length-append, length-decimal_digits, IsText-decimal_digits,
  print_at_end, strlen-append, take-append_length, decimal_digits, arith, true,
}
use ts_it.Demo.State.{Demo, World, Platform, mqtt_publish}
use ts_it.Demo.Message.{head_text, route_text, append_text, publish_route, publish_head, publish}
use ts_it.Demo.Address.Notation.{
  address_text, groups, IsText-address_text, length-groups, length-address_text,
}
use ts_it.Demo.Address.{ipaddr_sprintf-address_text}

-- `%d` prints a 16-bit number in at most 6 characters.
pub record IsPlatform (os : Platform) : Type 0 where
  pub text : (n : ℕ) → IsText (os.decimal n)
  pub short : (n : ℕ) → length (os.decimal n) ≤ 6

-- The message: JSON with the name of the board, the number of the message, the time since the start
-- and the address of the default route.
abbrev pub json : Platform → ℕ → ℕ → List ℕ → List ℕ
json os seq seconds addr =
    (head_text os seq seconds ++ route_text (address_text (groups addr))) ++ codes "}}"

append_text_lem :
    (t text r : List ℕ)
    → length t + length text < 256
    → append_text text (length t) (t ++ r)
      ≡ ((t ++ text) ++ (0 ∷ drop (length text + 1) r), length (t ++ text), true)
unfolding append_text
append_text_lem t text r fits =
    rw
      (
        print_at_end t text r (length t) (256 - length t) refl (omega (arith, fits)),
        ltb-true (length text) (256 - length t) (omega (arith, fits)),
        length-append t text,
      )
      refl

IsText-head_text :
    (os : Platform) (seq seconds : ℕ) → IsPlatform os → IsText (head_text os seq seconds)
IsText-head_text os seq seconds p =
    let d = IsText-decimal_digits 10 (seconds % 2 ^ 32) [] tt in
    let s = p.text seq in
    All-append _ (codes "{\"d\":{\"myName\":\"Zolertia Z1 Node\",\"Seq #\":") _ (omega arith) (
      All-append _ (os.decimal seq) _ s
        (All-append _ (codes ",\"Uptime (sec)\":") _ (omega arith) d))

length-head_text :
    (os : Platform) (seq seconds : ℕ) → IsPlatform os → length (head_text os seq seconds) ≤ 100
length-head_text os seq seconds p =
    let d = length-decimal_digits 10 (seconds % 2 ^ 32) [] in
    let s = p.short seq in
    let l =
      length-append (os.decimal seq)
        (codes ",\"Uptime (sec)\":" ++ decimal_digits 10 (seconds % 2 ^ 32) []) in
    omega (arith, d, s, l)

IsText-route_text : (route : List ℕ) → IsText route → IsText (route_text route)
IsText-route_text route h =
    All-append _ (codes ",\"Def Route\":\"") _ (omega arith)
      (All-append _ route (codes "\"") h (omega arith))

-- Behind a first text of at most 100 bytes: the two others fit, and the three are sent.
publish_route_lem :
    (head route r : List ℕ) (d : Demo)
    → IsText head
    → IsText route
    → length head ≤ 100
    → length route ≤ 42
    → let message = (head ++ route_text route) ++ codes "}}" in
      (b : List ℕ) × (publish_route route (length head) (record d { app_buffer = head ++ (0 ∷ r) })
        ≡ record d { app_buffer = b; calls = mqtt_publish d.pub_topic message ∷ d.calls })
unfolding publish_route
publish_route_lem head route r d th tr sh sr =
    let text = route_text route in
    let lt = length-append route (codes "\"") in
    let l2 = length-append head (route_text route) in
    let e2 = append_text_lem head (route_text route) (0 ∷ r) (omega arith) in
    let r2 : List ℕ = drop (length (route_text route) + 1) (0 ∷ r) in
    let e3 = append_text_lem (head ++ route_text route) (codes "}}") (0 ∷ r2) (omega arith) in
    let message = (head ++ route_text route) ++ codes "}}" in
    let r3 : List ℕ = drop (length (codes "}}") + 1) (0 ∷ r2) in
    let t =
      All-append _ (head ++ route_text route) (codes "}}")
        (All-append _ head (route_text route) th (IsText-route_text route tr)) (omega arith) in
    let s = strlen-append message r3 t in
    (
      message ++ (0 ∷ r3),
      ground (arith, e2, e3, s, take-append_length (length message) message (0 ∷ r3) refl),
    )

module _ (w : World) (addr : List ℕ) (d : Demo) (route : w.default_route ≡ some addr)
    (size : length addr ≤ 16) where
  publish_head_lem :
      (head : List ℕ)
      → IsText head
      → length head ≤ 100
      → let message = (head ++ route_text (address_text (groups addr))) ++ codes "}}" in
        (b : List ℕ) × (publish_head w head d
          ≡ some (record d { app_buffer = b; calls = mqtt_publish d.pub_topic message ∷ d.calls }))
  unfolding publish_head
  publish_head_lem head th lh =
      let text = address_text (groups addr) in
      let lg = length-groups addr size in
      let la = length-address_text (groups addr) in
      let (o, e, c, _) = ipaddr_sprintf-address_text addr size in
      let r : List ℕ = drop (length head + 1) d.app_buffer in
      let e1 = append_text_lem [] head d.app_buffer (omega (arith, lh)) in
      let (b, m) =
        publish_route_lem head text r d th (IsText-address_text (groups addr)) lh (omega arith) in
      (b, ground (arith, e1, route, e, c, m))

-- Where there is a default route, with an address of 16 bytes at most, and `%d` prints a 16-bit number
-- in 6 characters at most: each text fits into what remains of the buffer, and the whole message
-- is published on the topic, with the next number.
pub publish-json :
    (os : Platform) (w : World) (addr : List ℕ) (d : Demo)
    → IsPlatform os
    → w.default_route ≡ some addr
    → length addr ≤ 16
    → let seq = u16 (d.seq_nr_value + 1) in
      (b : List ℕ) × (publish os w d
        ≡ some (record d {
          seq_nr_value = seq;
          app_buffer = b;
          calls = mqtt_publish d.pub_topic (json os seq w.clock_seconds addr) ∷ d.calls;
        }))
unfolding publish
publish-json os w addr d p route size =
    let seq = u16 (d.seq_nr_value + 1) in
    let head = head_text os seq w.clock_seconds in
    publish_head_lem w addr (record d { seq_nr_value = seq }) route size head
      (IsText-head_text os seq w.clock_seconds p) (length-head_text os seq w.clock_seconds p)

publish_head-null :
    (w : World) (d : Demo) (head : List ℕ)
    → w.default_route ≡ none
    → length head ≤ 100
    → publish_head w head d ≡ none
unfolding publish_head
publish_head-null w d head route lh =
    let e1 = append_text_lem [] head d.app_buffer (omega (arith, lh)) in ground (arith, e1, route)

-- Where there is no default route, publish reads through a pointer that is NULL.
pub publish-null :
    (os : Platform) (w : World) (d : Demo)
    → IsPlatform os
    → w.default_route ≡ none
    → publish os w d ≡ none
unfolding publish
publish-null os w d p route =
    let seq = u16 (d.seq_nr_value + 1) in
    publish_head-null w (record d { seq_nr_value = seq }) (head_text os seq w.clock_seconds) route
      (length-head_text os seq w.clock_seconds p)
