-- ===== src/Tools/Acks/Answers.antt =====
-- What the receivers of mqtt-sn-tools/mqtt-sn.c make of the gateway's answers.
use ts_it.Base.{ℕ, suc, ◌+◌, ◌<◌, ◌≡◌, ◌≢◌, ◌∙◌, false, List, [], ◌∷◌, ◌++◌, arith, htons}
use ts_it.Protocol.MessageType
use ts_it.Tools.State.{Client, Env, ready, datagram, ok, exit, bind-ok}
use ts_it.Tools.Receive.{receive_packet}
use ts_it.Tools.Receive.Bounds.{IsBuffer}
use ts_it.Tools.Receive.Plain.{received, receive_packet-plain}
use ts_it.Tools.Wait.{wait_for}
use ts_it.Tools.Wait.Answer.{IsPassive, IsQuiet, asked, wait_for-answer}
use ts_it.Tools.Acks.{receive_disconnect, receive_connack, receive_regack, receive_suback}

-- The next packet is there at once, and waiting for it sends no ping.
pub record AnswersAtOnce (env : Env) (c : Client) (bytes : List ℕ) : Type 0 where
  pub buffer : IsBuffer c.buffer
  pub no_forwarder : c.forwarder_encapsulation ≡ false
  pub no_ping : IsQuiet env c
  pub arrives : env.select (c.moment + 1) ≡ ready
  pub datagram_is : env.recvfrom (c.moment + 1 + 1) ≡ datagram bytes

pub regack-IsPassive : IsPassive MessageType.regack
regack-IsPassive = record {
  not_publish = omega arith;
  not_register = omega arith;
  not_frwdencap = omega arith;
}

pub suback-IsPassive : IsPassive MessageType.suback
suback-IsPassive = record {
  not_publish = omega arith;
  not_register = omega arith;
  not_frwdencap = omega arith;
}

pub disconnect-IsPassive : IsPassive MessageType.disconnect
disconnect-IsPassive = record {
  not_publish = omega arith;
  not_register = omega arith;
  not_frwdencap = omega arith;
}

-- The client once the answer that was waited for has come.
abbrev pub past_answer : (t : ℕ) → List ℕ → IsPassive t → Env → Client → Client
past_answer t rest passive env c = received t rest passive.not_frwdencap env (asked c)

-- All of a REGACK but its length and its type.
abbrev pub regack_body : ℕ → ℕ → ℕ → List ℕ
regack_body topic_id message_id code = htons topic_id ++ (htons message_id ++ (code ∷ []))

-- All of a SUBACK but its length and its type.
abbrev pub suback_body : ℕ → ℕ → ℕ → ℕ → List ℕ
suback_body flags topic_id message_id code =
    flags ∷ (htons topic_id ++ (htons message_id ++ (code ∷ [])))

module _ (env : Env) (fuel topic_id message_id code : ℕ) (c : Client) (id_fits : topic_id < 65536)
    (code_fits : code < 256)
    (a : AnswersAtOnce env c (7 ∷ MessageType.regack ∷ regack_body topic_id message_id code)) where
  abbrev pub regack_answered : Client
  regack_answered =
      past_answer MessageType.regack (regack_body topic_id message_id code) regack-IsPassive env c

  pub receive_regack-after :
      (code ≡ 0 → receive_regack env (suc fuel) c ≡ ok topic_id regack_answered)
      × (code ≢ 0 → receive_regack env (suc fuel) c ≡ exit code regack_answered)
  unfolding receive_regack
  receive_regack-after =
      let w =
        wait_for-answer MessageType.regack (regack_body topic_id message_id code) regack-IsPassive
          env fuel c (omega arith) a.buffer a.no_forwarder a.no_ping a.arrives a.datagram_is in
      let e = bind-ok (wait_for env MessageType.regack (suc fuel)) _ w in
      (λ z. e ∙ ground arith, λ n. e ∙ ground arith)

  -- Without the forwarder encapsulation and with no ping due, where a REGACK of 16-bit ids comes at
  -- once, its topic id is returned if its return code is 0, and the program exits with the return
  -- code if that is another byte.
  pub receive_regack-answer :
      (d : Client) × (code ≡ 0 → receive_regack env (suc fuel) c ≡ ok topic_id d)
      × (code ≢ 0 → receive_regack env (suc fuel) c ≡ exit code d)
  receive_regack-answer = (regack_answered, receive_regack-after.0, receive_regack-after.1)

module _ (env : Env) (fuel flags topic_id message_id code : ℕ) (c : Client)
    (flags_fit : flags < 256) (id_fits : topic_id < 65536) (code_fits : code < 256)
    (a : AnswersAtOnce env c
      (8 ∷ MessageType.suback ∷ suback_body flags topic_id message_id code)) where
  abbrev pub suback_answered : Client
  suback_answered =
      past_answer MessageType.suback (suback_body flags topic_id message_id code) suback-IsPassive
        env c

  pub receive_suback-after :
      (code ≡ 0 → receive_suback env (suc fuel) c ≡ ok topic_id suback_answered)
      × (code ≢ 0 → receive_suback env (suc fuel) c ≡ exit code suback_answered)
  unfolding receive_suback
  receive_suback-after =
      let w =
        wait_for-answer MessageType.suback (suback_body flags topic_id message_id code)
          suback-IsPassive env fuel c (omega arith) a.buffer a.no_forwarder a.no_ping a.arrives
          a.datagram_is in
      let e = bind-ok (wait_for env MessageType.suback (suc fuel)) _ w in
      (λ z. e ∙ ground arith, λ n. e ∙ ground arith)

  -- Without the forwarder encapsulation and with no ping due, where a SUBACK of 16-bit ids comes at
  -- once, its topic id is returned if its return code is 0, and the program exits with the return
  -- code if that is another byte.
  pub receive_suback-answer :
      (d : Client) × (code ≡ 0 → receive_suback env (suc fuel) c ≡ ok topic_id d)
      × (code ≢ 0 → receive_suback env (suc fuel) c ≡ exit code d)
  receive_suback-answer = (suback_answered, receive_suback-after.0, receive_suback-after.1)

-- The DISCONNECT that answers a DISCONNECT.
pub receive_disconnect-after :
    (env : Env) (fuel : ℕ) (c : Client)
    → AnswersAtOnce env c (2 ∷ MessageType.disconnect ∷ [])
    → receive_disconnect env (suc fuel) c
      ≡ ok tt (past_answer MessageType.disconnect [] disconnect-IsPassive env c)
unfolding receive_disconnect
receive_disconnect-after env fuel c a = bind-ok (wait_for env MessageType.disconnect (suc fuel)) _ (
    wait_for-answer MessageType.disconnect [] disconnect-IsPassive env fuel c (omega arith) a.buffer
      a.no_forwarder a.no_ping a.arrives a.datagram_is)

pub not_wrapped : MessageType.connack ≢ MessageType.frwdencap
not_wrapped = omega arith

module _ (env : Env) (code : ℕ) (c : Client) (code_fits : code < 256) (b : IsBuffer c.buffer)
    (off : c.forwarder_encapsulation ≡ false)
    (arrives : env.recvfrom c.moment ≡ datagram (3 ∷ MessageType.connack ∷ code ∷ [])) where
  abbrev pub connack_received : Client
  connack_received = received MessageType.connack (code ∷ []) not_wrapped env c

  pub receive_connack-after :
      (code ≡ 0 → receive_connack env c ≡ ok tt connack_received)
      × (code ≢ 0 → receive_connack env c ≡ exit code connack_received)
  unfolding receive_connack
  receive_connack-after =
      let r =
        receive_packet-plain MessageType.connack (code ∷ []) not_wrapped env c (omega arith) b off
          arrives in
      let e = bind-ok (receive_packet env) _ r in (λ z. e ∙ ground arith, λ n. e ∙ ground arith)

  -- Without the forwarder encapsulation and with a sound buffer, where the next datagram is a
  -- CONNACK, the call returns if the return code is 0, and the program exits with the return code
  -- if that is another byte.
  pub receive_connack-answer :
      (d : Client) × (code ≡ 0 → receive_connack env c ≡ ok tt d)
      × (code ≢ 0 → receive_connack env c ≡ exit code d)
  receive_connack-answer = (connack_received, receive_connack-after.0, receive_connack-after.1)
