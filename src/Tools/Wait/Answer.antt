-- ===== src/Tools/Wait/Answer.antt =====
-- mqtt_sn_wait_for of mqtt-sn-tools/mqtt-sn.c where the gateway's answer comes at once.
use ts_it.Base.{ℕ, suc, ◌+◌, ◌<◌, ◌≡◌, ◌⊎◌, ◌≢◌, ◌∙◌, false, some, List, arith, All, IsByte}
use ts_it.Protocol.MessageType
use ts_it.Tools.State.{Client, Env, ready, datagram, ok, time_now, select_now, bind-ok, ◌>>=◌}
use ts_it.Tools.Receive.{receive_packet}
use ts_it.Tools.Receive.Bounds.{IsBuffer}
use ts_it.Tools.Receive.Plain.{packet, holding, received, receive_packet-plain}
use ts_it.Tools.Wait.{handle_packet, found, ping, take_packet, after_select, round, wait_for}

-- The types that `wait_for` does nothing about but return them.
pub record IsPassive (t : ℕ) : Type 0 where
  pub not_publish : t ≢ MessageType.publish
  pub not_register : t ≢ MessageType.register
  pub not_frwdencap : t ≢ MessageType.frwdencap

-- No ping is due: there is no keep alive time, or it has not passed since the last transmission.
abbrev pub IsQuiet : Env → Client → Type 0
IsQuiet env c = (c.keep_alive ≡ 0) ⊎ (env.time c.moment < c.keep_alive + c.last_transmit)

-- The client as the answer finds it: two questions have been asked.
abbrev pub asked : Client → Client
asked c = record c { moment = c.moment + 1 + 1 }

module _ (t : ℕ) (rest : List ℕ) (plain : t ≢ MessageType.frwdencap) (env : Env) (fuel : ℕ)
    (c d : Client) where
  take-handled :
      (now : ℕ) (buffer : List ℕ) (c : Client)
      → handle_packet env t (holding t rest plain buffer) c ≡ ok tt d
      → take_packet env t now (some (holding t rest plain buffer)) c
        ≡ ok (found (holding t rest plain buffer)) d
  unfolding take_packet
  take-handled now buffer c h =
      bind-ok (handle_packet env t (holding t rest plain buffer)) _ h ∙ ground arith

  -- Where no ping is due, a packet of the type waited for that is the first to arrive is handled
  -- and returned in the first round.
  pub wait_for-handled :
      All IsByte (packet t rest plain)
      → IsBuffer c.buffer
      → c.forwarder_encapsulation ≡ false
      → IsQuiet env c
      → env.select (c.moment + 1) ≡ ready
      → env.recvfrom (c.moment + 1 + 1) ≡ datagram (packet t rest plain)
      → handle_packet env t (holding t rest plain c.buffer) (received t rest plain env (asked c))
        ≡ ok tt d
      → wait_for env t (suc fuel) c ≡ ok (some (holding t rest plain c.buffer)) d
  unfolding wait_for
  wait_for-handled bytes b off quiet sel arrives handled = bind-ok (round env t) _ round-found
    where
      now : ℕ
      now = env.time c.moment

      next : Client
      next = record c { moment = c.moment + 1 }

      no_ping : ping env now next ≡ ok tt next
      no_ping = unfold ping in ground (arith, quiet)

      selected :
          after_select env t now (env.select next.moment) (asked c)
          ≡ ok (found (holding t rest plain c.buffer)) d
      selected = rw (sel) (
          unfold after_select in
          bind-ok (receive_packet env) (take_packet env t now)
            (receive_packet-plain t rest plain env (asked c) bytes b off arrives)
          ∙ take-handled now c.buffer (received t rest plain env (asked c)) handled)

      round-found : round env t c ≡ ok (found (holding t rest plain c.buffer)) d
      round-found =
          unfold round time_now select_now in
          bind-ok (ping env now) (λ _. select_now env >>= after_select env t now) no_ping ∙ selected

module _ (t : ℕ) (rest : List ℕ) (passive : IsPassive t) where
  handle-passive :
      (env : Env) (buffer : List ℕ) (c : Client)
      → handle_packet env t (holding t rest passive.not_frwdencap buffer) c ≡ ok tt c
  unfolding handle_packet
  handle-passive env buffer c = ground (arith, passive.not_publish, passive.not_register)

  -- Nothing is done about a packet of a passive type but to return it.
  pub wait_for-answer :
      (env : Env) (fuel : ℕ) (c : Client)
      → All IsByte (packet t rest passive.not_frwdencap)
      → IsBuffer c.buffer
      → c.forwarder_encapsulation ≡ false
      → IsQuiet env c
      → env.select (c.moment + 1) ≡ ready
      → env.recvfrom (c.moment + 1 + 1) ≡ datagram (packet t rest passive.not_frwdencap)
      → wait_for env t (suc fuel) c
        ≡ ok
            (some (holding t rest passive.not_frwdencap c.buffer))
            (received t rest passive.not_frwdencap env (asked c))
  wait_for-answer env fuel c bytes b off quiet sel arrives =
      wait_for-handled t rest passive.not_frwdencap env fuel c
        (received t rest passive.not_frwdencap env (asked c)) bytes b off quiet sel arrives
        (handle-passive env c.buffer (received t rest passive.not_frwdencap env (asked c)))
