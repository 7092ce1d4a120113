-- ===== src/Programs/Bridge/Tests.antt =====
-- The theorems about mqtt-sn-tools/mqtt-sn-serial-bridge.c at a concrete port and system.
use mathlib.Core.Path.{subst}
use ts_it.Base.{
  none, ℕ, ◌≤◌, ◌≡◌, refl, inl, inr, Bool, true, false, Bool-cases, some, List, [], ◌∷◌, arith,
  ◌==◌, ltb, if◌then◌else◌, codes, length, length-replicate, All, All-replicate, IsByte,
}
use ts_it.Protocol.MessageType
use ts_it.Tools.State.{Client, Env, ok, datagram, ready, start}
use ts_it.Tools.Outcome.{Ends}
use ts_it.Tools.Wire.{wrap}
use ts_it.Tools.Receive.Bounds.{IsBuffer, SendsBytes}
use ts_it.Programs.Hosts.{host, host-IsOpened}
use ts_it.Programs.Options.{Opt, char, each_option}
use ts_it.Programs.Bridge.{
  BridgeOptions, defaults, set_option, parse_opts, Port, watch, Serial, closed, bridge, main,
}
use ts_it.Programs.Bridge.Relay.{IsPacket}
use ts_it.Programs.Bridge.Traffic.{Arrival}
use ts_it.Programs.Bridge.Runs.{main-relays}
use ts_it.Programs.Bridge.Safe.{ReadsBytes}
use ts_it.Programs.Bridge.Endures.{IsSafe, bridge-Ends}
use ts_it.Tools.Frame.{enable_frwdencap}

-- A PINGREQ comes from the port, and a PINGRESP in a forwarder header from the network.
abbrev port : Port
port = record {
  opens = true;
  select = λ k. if k == 0 then watch true false else watch false true;
  read = λ k n.
      if n == 1
      then (if k == 0 then some (2 ∷ []) else some (MessageType.pingreq ∷ []))
      else some [];
}

abbrev network : Env
network = record {
  time = λ k. k;
  select = λ _. ready;
  recvfrom = λ _. datagram (wrap (7 ∷ 8 ∷ []) (2 ∷ MessageType.pingresp ∷ []));
  date = λ _. codes "12 ";
  pid_decimal = codes "77";
  pid_hex = codes "4D";
  sprintf_onto = λ _ _. none;
}

-- A signal after two turns.
abbrev two_turns : ℕ → Bool
two_turns k = ltb k 2

pingreq-IsPacket : IsPacket MessageType.pingreq []
pingreq-IsPacket = record { plain = omega arith; bytes = omega arith; short = omega arith }

pingresp-IsPacket : IsPacket MessageType.pingresp []
pingresp-IsPacket = record { plain = omega arith; bytes = omega arith; short = omega arith }

abbrev arrivals : List Arrival
arrivals =
    Arrival.upward MessageType.pingreq [] pingreq-IsPacket
    ∷ Arrival.downward_wrapped (7 ∷ 8 ∷ []) MessageType.pingresp [] (omega arith) (omega arith)
        pingresp-IsPacket
    ∷ []

-- `--fe`
abbrev with_fe : List Opt
with_fe = record { ch = char "f"; optarg = [] } ∷ []

abbrev fe_options : BridgeOptions
fe_options = record defaults { frwdencap = true }

abbrev enabled : Client
enabled = record start { forwarder_encapsulation = true }

with_fe-parsed : parse_opts with_fe (some (codes "/dev/ttyUSB0")) start ≡ ok fe_options enabled
unfolding parse_opts each_option set_option enable_frwdencap
with_fe-parsed = refl

start-IsBuffer : IsBuffer start.buffer
start-IsBuffer = record {
  size = length-replicate {A = ℕ} 511 0;
  bytes = All-replicate IsByte 511 0 (omega arith);
}

main-relays_example :
    (z : Serial) × (e : Client) × (main network host port two_turns 3 with_fe
        (some (codes "/dev/ttyUSB0"))
        start
      ≡ ok (0, z) e)
    × (e.sent ≡ wrap (codes "4D") (2 ∷ MessageType.pingreq ∷ []) ∷ [])
    × (z.written ≡ (2 ∷ MessageType.pingresp ∷ []) ∷ [])
main-relays_example =
    main-relays network host port two_turns with_fe (some (codes "/dev/ttyUSB0")) fe_options
      arrivals start enabled with_fe-parsed host-IsOpened refl start-IsBuffer
      (refl, refl, refl, refl, (refl, refl, refl, refl))

network-SendsBytes : SendsBytes network
network-SendsBytes k d e =
    let same : wrap (7 ∷ 8 ∷ []) (2 ∷ MessageType.pingresp ∷ []) ≡ d = cc in
    subst (All IsByte) same (omega arith)

port-ReadsBytes : ReadsBytes port
port-ReadsBytes k n bytes e = elim (Bool-cases (n == 1)) [
  | inr m ↦
      let same : [] ≡ bytes = ground (arith, e, m) in
      subst (λ d. (length d ≤ n) × All IsByte d) same (omega arith)
  | inl m ↦
      let one : 1 ≤ n = ground (arith, m) in
      elim (Bool-cases (k == 0)) [
        | inl l ↦
            let same : 2 ∷ [] ≡ bytes = ground (arith, e, m, l) in
            subst (λ d. (length d ≤ n) × All IsByte d) same (omega (arith, one))
        | inr l ↦
            let same : MessageType.pingreq ∷ [] ≡ bytes = ground (arith, e, m, l) in
            subst (λ d. (length d ≤ n) × All IsByte d) same (omega (arith, one))
      ]
]

closed-IsSafe : IsSafe closed start
closed-IsSafe = record {
  buf = record {
    size = length-replicate {A = ℕ} 256 0;
    bytes = All-replicate IsByte 256 0 (omega arith);
  };
  buffer = start-IsBuffer;
  off = refl;
}

bridge-Ends_example : Ends IsSafe (bridge network port two_turns true 3 closed start)
bridge-Ends_example =
    bridge-Ends network port true network-SendsBytes port-ReadsBytes two_turns 2 closed start refl
      closed-IsSafe
