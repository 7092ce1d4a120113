-- ===== src/Tools/Wait/Silence.antt =====
-- mqtt_sn_wait_for of mqtt-sn-tools/mqtt-sn.c ends when the gateway is silent.
use ts_it.Base.{
  ℕ, zero, suc, ◌+◌, ◌*◌, ◌≤◌, ◌<◌, ◌≡◌, refl, ap, ◌∙◌, inl, inr, arith, leb, ltb, ◌&&◌, Bool-cases,
}
use native.Mathlib.Decide.{dec_le}
use ts_it.Tools.State.{Client, Env, timed_out, ok, exit, bind-ok, ◌>>=◌, time_now, select_now}
use ts_it.Tools.Wire.{Message, encode}
use ts_it.Tools.Frame.Laws.{HasNodeId, after_send, on_wire}
use ts_it.Tools.Send.Laws.{send_pingreq-encode}
use ts_it.Tools.Wait.{again, ping, check_alive, after_select, round, wait_for}

-- The clock never goes back, and moves on within any two questions to the system: at the moment of
-- a `select` it shows the time of its return, and that a `select` that times out takes a second at least.
abbrev pub Passes : Env → Type 0
Passes env = (k : ℕ) → (env.time k ≤ env.time (k + 1)) × (env.time k < env.time (k + 2))

-- No datagram arrives.
abbrev pub Silent : Env → Type 0
Silent env = (k : ℕ) → env.select k ≡ timed_out

-- What a round in silence may change.
record Ticked (n : ℕ) (c d : Client) : Type 0 where
  keep_alive : d.keep_alive ≡ c.keep_alive
  last_receive : d.last_receive ≡ c.last_receive
  has_id : HasNodeId c → HasNodeId d
  earliest : c.moment + n ≤ d.moment
  latest : d.moment ≤ c.moment + n + 1

ping-Ticked :
    (env : Env) (now : ℕ) (c : Client)
    → HasNodeId c
    → (d : Client) × (ping env now c ≡ ok tt d) × Ticked 0 c d
unfolding ping
ping-Ticked env now c h =
    elim (Bool-cases (ltb 0 c.keep_alive && leb (c.keep_alive + c.last_transmit) now)) [
      | inl due ↦ (
        after_send env (on_wire env c (encode Message.pingreq)) c,
        ground (arith, send_pingreq-encode env c h),
        record {
          keep_alive = refl;
          last_receive = refl;
          has_id = λ i. i;
          earliest = omega arith;
          latest = omega arith;
        },
      )
      | inr early ↦ (
        c,
        ground arith,
        record {
          keep_alive = refl;
          last_receive = refl;
          has_id = λ i. i;
          earliest = omega arith;
          latest = omega arith;
        },
      )
    ]

round_idle :
    (env : Env) (type : ℕ) (c : Client)
    → Silent env
    → HasNodeId c
    → (d : Client) × (round env type c ≡ check_alive (env.time c.moment) d) × Ticked 2 c d
unfolding round time_now select_now after_select
round_idle env type c s h =
    let (d, e, t) = ping-Ticked env (env.time c.moment) (record c { moment = c.moment + 1 }) h in
    (
      record d { moment = d.moment + 1 },
      bind-ok (ping env (env.time c.moment))
            (λ _. select_now env >>= after_select env type (env.time c.moment)) e
          ∙ ap
              (λ r.
                after_select env type (env.time c.moment) r (record d { moment = d.moment + 1 }))
              (s d.moment),
      record {
        keep_alive = t.keep_alive;
        last_receive = t.last_receive;
        has_id = t.has_id;
        earliest = omega (arith, t.earliest);
        latest = omega (arith, t.latest);
      },
    )

time-advances :
    (env : Env) (m n : ℕ) → Passes env → m + 2 ≤ n → n ≤ m + 2 + 1 → env.time m < env.time n
time-advances env m n p lo hi = elim (dec_le n (m + 2)) [
  | yes le ↦ let e : n ≡ m + 2 = omega arith in rw e (p m).1
  | no gt ↦ let e : n ≡ m + 2 + 1 = omega arith in rw e (omega (arith, (p m).1, (p (m + 2)).0))
]

-- The test at the end of a round, from the times.
check-expired :
    (now : ℕ) (c : Client)
    → 0 < c.keep_alive
    → 3 * c.keep_alive + 2 * c.last_receive ≤ 2 * now
    → check_alive now c ≡ exit 1 c
unfolding check_alive
check-expired now c k e = ground arith

check-alive :
    (now : ℕ) (c : Client)
    → 2 * now < 3 * c.keep_alive + 2 * c.last_receive
    → check_alive now c ≡ ok again c
unfolding check_alive
check-alive now c e = ground arith

wait_for-exit :
    (env : Env) (type fuel : ℕ) (c : Client) {d : Client}
    → round env type c ≡ exit 1 d
    → wait_for env type (suc fuel) c ≡ exit 1 d
unfolding wait_for
wait_for-exit env type fuel c e = rw (e, ◌>>=◌)

wait_for-again :
    (env : Env) (type fuel : ℕ) (c : Client) {d : Client}
    → round env type c ≡ ok again d
    → wait_for env type (suc fuel) c ≡ wait_for env type fuel d
unfolding wait_for
wait_for-again env type fuel c e = rw (e, ◌>>=◌)

-- With a keep alive time set, a wireless node id that fits its field, a silent gateway and a clock
-- that moves on, the wait does not go on for ever: the program exits with `EXIT_FAILURE`, at the
-- latest in the round after `rounds` ones, where after that many seconds 1.5 keep alive times have
-- passed since the last packet.
pub wait_for_terminates :
    (env : Env) (type rounds : ℕ) (c : Client)
    → Silent env
    → Passes env
    → HasNodeId c
    → 0 < c.keep_alive
    → 3 * c.keep_alive + 2 * c.last_receive ≤ 2 * (env.time c.moment + rounds)
    → (d : Client) × (wait_for env type (suc rounds) c ≡ exit 1 d)
wait_for_terminates env type zero c s p h k bound =
    let (d, e, t) = round_idle env type c s h in
    (
      d,
      wait_for-exit env type 0 c (
          e
          ∙ check-expired (env.time c.moment) d (omega (arith, t.keep_alive))
              (omega (arith, t.keep_alive, t.last_receive))),
    )
wait_for_terminates env type (suc rounds) c s p h k bound =
    let (d, e, t) = round_idle env type c s h in
    let ends =
      wait_for_terminates env type rounds d s p (t.has_id h) (omega (arith, t.keep_alive)) (
        omega (
          arith,
          t.keep_alive,
          t.last_receive,
          time-advances env c.moment d.moment p t.earliest t.latest,
        )) in
    elim (dec_le (3 * d.keep_alive + 2 * d.last_receive) (2 * env.time c.moment)) [
      | yes late ↦ (
        d,
        wait_for-exit env type (suc rounds) c
            (e ∙ check-expired (env.time c.moment) d (omega (arith, t.keep_alive)) late),
      )
      | no early ↦ (
        ends.0,
        wait_for-again env type (suc rounds) c (e ∙ check-alive (env.time c.moment) d (omega arith))
            ∙ ends.1,
      )
    ]
