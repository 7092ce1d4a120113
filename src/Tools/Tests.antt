-- ===== src/Tools/Tests.antt =====
-- The theorems about mqtt-sn-tools/mqtt-sn.c at concrete clients, packets and systems, and runs.
mod Messages
use mathlib.Core.Path.{subst}
use ts_it.Base.{
  inl, ℕ, ◌+◌, ◌-◌, ◌<◌, ◌≤◌, ◌≡◌, ◌≢◌, ◌↔◌, refl, inl, inr, Bool, true, none, some, List, [], ◌∷◌,
  ◌++◌, arith, ◌==◌, if◌then◌else◌, length, take, drop, replicate, length-replicate, All,
  All-replicate, IsByte, IsText, Bool-cases, c_string, codes, strncpy, ◌%◌, ◌/◌,
}
use ts_it.Protocol.{max_topic_length}
use ts_it.Protocol.MessageType
use ts_it.Tools.State.{Client, Env, ok, exit, fault, Post, datagram, again, ready, timed_out, start}
use ts_it.Tools.Wire.{Message}
use ts_it.Tools.Topics.{register_topic, lookup_topic}
use ts_it.Tools.Topics.Laws.{IsDistinct, lookup-register, register-IsDistinct, registered_name}
use ts_it.Tools.Frame.{send_packet}
use ts_it.Tools.Frame.Laws.{HasNodeId, after_send}
use ts_it.Tools.Receive.{validate_packet, receive_frwdencap_packet, Incoming, accept}
use ts_it.Tools.Receive.Bounds.{
  IsBuffer, SendsBytes, EndsWell, receive-EndsWell, validate_packet_iff,
}
use ts_it.Tools.Encapsulation.{Unwraps, accept-send_packet}
use ts_it.Tools.Send.{
  send_connect, send_register, send_publish, publish_flags, send_subscribe_topic_name,
  subscribe_flags, client_name, keep,
}
use ts_it.Tools.Send.Laws.{
  next_id, Sends, send_connect-encode, send_register-encode, send_publish-encode,
  send_subscribe-encode,
}
use ts_it.Tools.Send.Flags.{publish_flags_fields, send_subscribe_overlong, subscribe_packet}
use ts_it.Tools.Publish.{print_publish_packet, process_register}
use ts_it.Tools.Publish.Laws.{print_publish-named, process_register-encode, with_topic}
use ts_it.Tools.Wait.{wait_for}
use ts_it.Tools.Wait.Returns.{IsSound, IsAnswer, wait_for-IsSound}
use ts_it.Tools.Wait.Silence.{wait_for_terminates}
use ts_it.Tools.Acks.{receive_connack, receive_regack, receive_suback}
use ts_it.Tools.Acks.Answers.{
  regack_body, suback_body, receive_connack-answer, receive_regack-answer, receive_suback-answer,
}

-- A system on which no datagram arrives, and whose clock counts the questions.
abbrev pub silent : Env
silent = record {
  time = λ k. k;
  select = λ _. timed_out;
  recvfrom = λ _. again;
  date = λ _. codes "12 ";
  pid_decimal = codes "77";
  pid_hex = codes "4D";
  sprintf_onto = λ _ _. none;
}

-- The REGISTER of the topic "ab" under the id 5.
abbrev pub register_ab : List ℕ
register_ab = 8 ∷ MessageType.register ∷ 0 ∷ 5 ∷ 0 ∷ 1 ∷ codes "ab"

abbrev pub regack_5 : List ℕ
regack_5 = 7 ∷ MessageType.regack ∷ regack_body 5 1 0

-- A system on which a REGISTER arrives first, and REGACKs after it.
abbrev pub busy : Env
busy = record {
  time = λ k. k;
  select = λ _. ready;
  recvfrom = λ k. if k == 2 then datagram register_ab else datagram regack_5;
  date = λ _. codes "12 ";
  pid_decimal = codes "77";
  pid_hex = codes "4D";
  sprintf_onto = λ _ _. none;
}

busy-SendsBytes : SendsBytes busy
busy-SendsBytes k d e = elim (Bool-cases (k == 2)) [
  | inl h ↦ let same : register_ab ≡ d = ground arith in subst (All IsByte) same (omega arith)
  | inr h ↦ let same : regack_5 ≡ d = ground arith in subst (All IsByte) same (omega arith)
]

pub start-IsBuffer : IsBuffer start.buffer
start-IsBuffer = record {
  size = length-replicate {A = ℕ} 511 0;
  bytes = All-replicate IsByte 511 0 (omega arith);
}

start-IsSound : IsSound start
start-IsSound = record { buffer = start-IsBuffer; topics = tt }

pub start-HasNodeId : HasNodeId start
start-HasNodeId = (omega arith, λ id e. cc)

wait_for-IsSound_example :
    Post
      (λ r d. IsSound d × IsAnswer MessageType.regack r)
      (wait_for busy MessageType.regack 3 start)
wait_for-IsSound_example =
    wait_for-IsSound busy MessageType.regack 3 start busy-SendsBytes start-IsSound

-- A client that pings every two seconds.
abbrev pub lively : Client
lively = record start { keep_alive = 2 }

wait_for_terminates_example :
    (d : Client) × (wait_for silent MessageType.regack 4 lively ≡ exit 1 d)
wait_for_terminates_example =
    wait_for_terminates silent MessageType.regack 3 lively (λ k. refl)
      (λ k. (omega arith, omega arith)) start-HasNodeId (omega arith) (omega arith)

receive-EndsWell_example : EndsWell (receive_frwdencap_packet busy start)
receive-EndsWell_example = receive-EndsWell busy start busy-SendsBytes start-IsBuffer

validate_packet_iff_example :
    (validate_packet true (5 ∷ 0xFE ∷ 0 ∷ 1 ∷ 2 ∷ 2 ∷ 0x16 ∷ []) 7 ≡ some true) ↔ (
      (2 ≤ 5)
      × (◌≡◌ {A = Bool} true true → ◌≡◌ {A = ℕ} 0xFE MessageType.frwdencap)
      × (◌≡◌ {A = ℕ} 0xFE MessageType.frwdencap → ◌≡◌ {A = ℕ} 7 (5 + 2))
      × (◌≢◌ {A = ℕ} 0xFE MessageType.frwdencap → ◌≡◌ {A = ℕ} 7 5)
      × (1 < 7)
      × (◌≡◌ {A = ℕ} 0xFE MessageType.frwdencap → 5 < 7))
validate_packet_iff_example = validate_packet_iff true (5 ∷ 0xFE ∷ 0 ∷ 1 ∷ 2 ∷ 2 ∷ 0x16 ∷ []) 7

-- A client that wraps its packets under the node id 1 2.
abbrev pub wrapping : Client
wrapping = record start {
  forwarder_encapsulation = true;
  wireless_node_id = some (1 ∷ 2 ∷ []);
  wireless_node_id_len = 2;
}

pub wrapping-HasNodeId : HasNodeId wrapping
wrapping-HasNodeId =
    (omega arith, λ id e. let same : 1 ∷ 2 ∷ [] ≡ id = cc in rw (← same) (omega arith))

accept-send_packet_example :
    (bytes : List ℕ) × (after : Client) × (i : Incoming) × (d' : Client) × (send_packet silent
        (2 ∷ 0x16 ∷ [])
        wrapping
      ≡ ok tt after)
    × (after.sent ≡ bytes ∷ [])
    × (accept silent bytes start ≡ ok (some i) d')
    × Unwraps (1 ∷ 2 ∷ []) (2 ∷ 0x16 ∷ []) i
accept-send_packet_example =
    accept-send_packet silent silent 2 (0x16 ∷ []) wrapping start refl wrapping-HasNodeId refl
      (omega arith) (omega arith) start-IsBuffer

lookup-register_example :
    lookup_topic 5 (register_topic 5 (codes "ab") []) ≡ some (strncpy (codes "ab") max_topic_length)
lookup-register_example = lookup-register 5 5 (codes "ab") [] (omega arith)

registered_name_example :
    (name : List ℕ) × (lookup_topic 5 (register_topic 5 (codes "ab") []) ≡ some name)
    × (2 < 249 → c_string name ≡ some (codes "ab"))
    × (249 ≤ 2 → c_string name ≡ none)
registered_name_example = registered_name 5 (codes "ab") [] (omega arith) refl (omega arith)
