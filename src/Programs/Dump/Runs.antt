-- ===== src/Programs/Dump/Runs.antt =====
-- Whole runs of mqtt-sn-tools/mqtt-sn-dump.c, with packets that arrive one by one.
use mathlib.Core.Path.{subst}
use ts_it.Base.{
  ℕ, suc, ◌+◌, ◌≤◌, ◌≡◌, ◌≢◌, refl, sym, ap, ◌∙◌, Bool, true, false, some, List, [], ◌∷◌, ◌++◌,
  arith, length, drop, set, byte_at, All, IsByte, length-drop, codes,
}
use ts_it.Protocol.MessageType
use ts_it.Tools.State.{Client, Env, ok, ready, datagram, select_now, bind-ok}
use ts_it.Tools.Wire.{Message, encode}
use ts_it.Tools.Receive.{receive_packet}
use ts_it.Tools.Receive.Bounds.{IsBuffer}
use ts_it.Tools.Receive.Plain.{receive_packet-plain, ended-IsBuffer}
use ts_it.Tools.Settings.{set_debug, set_verbose}
use ts_it.Programs.Options.{Opt}
use ts_it.Programs.Dump.{DumpOptions, parse_opts, dump_packet, show, listen, main}
use ts_it.Programs.Dump.Lines.{IsShown, held, lines, onto, dump_packet-lines}

-- A message of bytes that fits the length byte, and shows no byte that is not its own.
pub record IsListed (m : Message) : Type 0 where
  pub shown : IsShown m
  pub has_fields : m ≢ Message.disconnect
  pub bytes : All IsByte (encode m)
  pub short : length (encode m) ≤ 255

-- The messages are packets.
is_packet :
    (m : Message)
    → encode m ≡ suc (suc (length (drop 2 (encode m)))) ∷ byte_at (encode m) 1 ∷ drop 2 (encode m)
is_packet (Message.connect clean duration client_id) = refl
is_packet (Message.register topic_id message_id topic_name) = refl
is_packet (Message.regack topic_id message_id return_code) = refl
is_packet (Message.publish flags topic_id message_id payload) = refl
is_packet (Message.subscribe_name flags message_id topic_name) = refl
is_packet (Message.subscribe_id flags message_id topic_id) = refl
is_packet (Message.connack return_code) = refl
is_packet (Message.suback flags topic_id message_id return_code) = refl
is_packet Message.pingreq = refl
is_packet Message.disconnect = refl

-- None of them is a forwarder encapsulation.
not_wrapping : (m : Message) → byte_at (encode m) 1 ≢ MessageType.frwdencap
not_wrapping (Message.connect clean duration client_id) = omega arith
not_wrapping (Message.register topic_id message_id topic_name) = omega arith
not_wrapping (Message.regack topic_id message_id return_code) = omega arith
not_wrapping (Message.publish flags topic_id message_id payload) = omega arith
not_wrapping (Message.subscribe_name flags message_id topic_name) = omega arith
not_wrapping (Message.subscribe_id flags message_id topic_id) = omega arith
not_wrapping (Message.connack return_code) = omega arith
not_wrapping (Message.suback flags topic_id message_id return_code) = omega arith
not_wrapping Message.pingreq = omega arith
not_wrapping Message.disconnect = omega arith

-- The buffer once the message is in it, and the client then.
abbrev pub with_message : List ℕ → List ℕ → List ℕ
with_message bytes buffer = bytes ++ set (drop (length bytes) buffer) 0 0

abbrev pub received : Env → List ℕ → Client → Client
received env bytes c = record c {
  buffer = with_message bytes c.buffer;
  last_receive = env.time (c.moment + 1);
  moment = c.moment + 1 + 1;
}

receive-message :
    (env : Env) (m : Message) (c : Client)
    → All IsByte (encode m)
    → IsBuffer c.buffer
    → c.forwarder_encapsulation ≡ false
    → env.recvfrom c.moment ≡ datagram (encode m)
    → receive_packet env c
      ≡ ok (some (with_message (encode m) c.buffer)) (received env (encode m) c)
receive-message env m c bytes b off arrives =
    let goes = λ (x : List ℕ).
      All IsByte x
      → env.recvfrom c.moment ≡ datagram x
      → receive_packet env c ≡ ok (some (with_message x c.buffer)) (received env x c) in
    subst goes (sym (is_packet m))
      (λ given comes.
        receive_packet-plain (byte_at (encode m) 1) (drop 2 (encode m)) (not_wrapping m) env c given
          b off comes)
      bytes arrives

two_more : (xs : List ℕ) → 2 ≤ length xs → (a : ℕ) × (b : ℕ) × (zs : List ℕ) × (xs ≡ a ∷ b ∷ zs)
two_more [] h = absurd (omega (arith, h))
two_more (a ∷ []) h = absurd (omega (arith, h))
two_more (a ∷ b ∷ zs) h = (a, b, zs, refl)

held-message :
    (m : Message) (buffer : List ℕ)
    → length (encode m) ≤ 255
    → IsBuffer buffer
    → (stale : ℕ) × (tail : List ℕ) × (with_message (encode m) buffer ≡ held m stale tail)
held-message m buffer short b =
    let room : 2 ≤ length (drop (length (encode m)) buffer) =
      omega (arith, length-drop (length (encode m)) buffer, b.size, short) in
    let more = two_more (drop (length (encode m)) buffer) room in
    (more.1, more.2, ap (λ xs. encode m ++ set xs 0 0) more.3)

same_lines : (m : Message) (stale : ℕ) → m ≢ Message.disconnect → lines m stale ≡ lines m 0
same_lines (Message.connect clean duration client_id) stale h = refl
same_lines (Message.register topic_id message_id topic_name) stale h = refl
same_lines (Message.regack topic_id message_id return_code) stale h = refl
same_lines (Message.publish flags topic_id message_id payload) stale h = refl
same_lines (Message.subscribe_name flags message_id topic_name) stale h = refl
same_lines (Message.subscribe_id flags message_id topic_id) stale h = refl
same_lines (Message.connack return_code) stale h = refl
same_lines (Message.suback flags topic_id message_id return_code) stale h = refl
same_lines Message.pingreq stale h = refl
same_lines Message.disconnect stale h = absurd (h refl)

-- One message is shown.
show-message :
    (env : Env) (m : Message) (buffer : List ℕ) (c : Client)
    → IsListed m
    → IsBuffer buffer
    → show env true (some (with_message (encode m) buffer)) c
      ≡ ok tt (record c { printed = codes "\n" ∷ onto (lines m 0) c.printed })
unfolding show
show-message env m buffer c l b =
    let h = held-message m buffer l.short b in
    ap (λ p. dump_packet p c) h.2
    ∙ dump_packet-lines m h.0 h.1 c l.shown
    ∙ ap (λ t. ok tt (record c { printed = codes "\n" ∷ onto t c.printed }))
        (same_lines m h.0 l.has_fields)

-- The messages arrive one by one, and then comes a signal; `m` counts the questions before.
abbrev pub Arrives : Env → (ℕ → Bool) → List Message → ℕ → Type 0
Arrives env running [] m = running m ≡ false
Arrives env running (x ∷ xs) m =
    (running m ≡ true)
    × (env.select m ≡ ready)
    × (env.recvfrom (m + 1) ≡ datagram (encode x))
    × Arrives env running xs (m + 1 + 1 + 1)

-- All that is printed, the newest first.
abbrev pub transcript : List Message → List (List ℕ) → List (List ℕ)
transcript [] printed = printed
transcript (m ∷ ms) printed = transcript ms (codes "\n" ∷ onto (lines m 0) printed)

listen-transcript :
    (env : Env) (running : ℕ → Bool) (ms : List Message) (c : Client)
    → All IsListed ms
    → IsBuffer c.buffer
    → c.forwarder_encapsulation ≡ false
    → Arrives env running ms c.moment
    → (d : Client) × (listen env running true (suc (length ms)) c ≡ ok tt d)
      × (d.printed ≡ transcript ms c.printed)
unfolding listen select_now
listen-transcript env running [] c l b off stops = (c, ground (arith, stops), refl)
listen-transcript env running (m ∷ ms) c l b off (runs, is_ready, comes, more) =
    let asked = record c { moment = c.moment + 1 } in
    let got = received env (encode m) asked in
    let shown = record got { printed = codes "\n" ∷ onto (lines m 0) c.printed } in
    let kept = ended-IsBuffer (encode m) c.buffer l.0.bytes (omega (arith, l.0.short)) b in
    let receives = receive-message env m asked l.0.bytes b off comes in
    let shows = show-message env m c.buffer got l.0 b in
    let later = listen-transcript env running ms shown l.1 kept off more in
    let step : listen env running true (suc (suc (length ms))) c
        ≡ listen env running true (suc (length ms)) shown =
      ground (arith, runs, is_ready, receives, shows) in
    (later.0, step ∙ later.1, later.2)

-- With -a, a socket that can be bound, sound static variables and no forwarder encapsulation, and
-- with messages of up to 255 bytes that arrive one by one until a signal comes, each a CONNECT,
-- CONNACK, REGISTER, REGACK, PUBLISH, SUBSCRIBE, SUBACK or PINGREQ whose ids and duration fit 16
-- bits and whose client id, topic name or payload that is printed holds no NUL, the program ends
-- with status 0 and has printed, for each message in the order of arrival, its type, its length,
-- less 256 from 128 bytes on, and those of its fields that the program prints, as the protocol lays
-- them out, and nothing else.
pub main-lists :
    (env : Env) (running : ℕ → Bool) (opts : List Opt) (o : DumpOptions) (ms : List Message)
    (c d : Client)
    → parse_opts opts c ≡ ok o d
    → o.dump_all ≡ true
    → All IsListed ms
    → IsBuffer d.buffer
    → d.forwarder_encapsulation ≡ false
    → Arrives env running ms d.moment
    → (e : Client) × (main env running true (suc (length ms)) opts c ≡ ok 0 e)
      × (e.printed ≡ transcript ms d.printed)
unfolding main set_debug set_verbose
main-lists env running opts o ms c d parsed all listed b off arrives =
    let begun = record d { debug = o.debug; verbose = o.verbose } in
    let r = listen-transcript env running ms begun listed b off arrives in
    (r.0, bind-ok (parse_opts opts) _ parsed ∙ ground (arith, r.1, all), r.2)
