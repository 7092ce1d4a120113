-- ===== src/Demo/Machine/Reached.antt =====
-- Whatever happens to the program of ictp/mqtt/mqtt-demo.c, the invariant holds.
use ts_it.Base.{sym, ◌∙◌, ℕ, ◌≡◌, inl, inr, refl, some, List, codes, c_string, All, IsByte, arith}
use ts_it.Demo.State.{Demo, Platform}
use ts_it.Demo.Config.{init_config}
use ts_it.Demo.Config.Laws.{update_config-fits}
use ts_it.Demo.Message.Laws.{IsPlatform}
use ts_it.Demo.Machine.{Event, wake, mqtt, led_off, at_boot, demo_start, demo_event}
use ts_it.Demo.Machine.Sound.{IsSound, IsEvent, DemoReachable, started, handled}
use ts_it.Demo.Machine.Kept.{process_event-IsSound, mqtt_event-IsSound, publish_led_off-IsSound}
use mathlib.Core.Option.{some_inj}

module _ (os : Platform) (addr : List ℕ) where
  demo_event-IsSound :
      (p : IsPlatform os) (e : Event) (c d : Demo)
      → IsSound os addr c
      → IsEvent e c
      → demo_event os e c ≡ some d
      → IsSound os addr d
  unfolding demo_event
  demo_event-IsSound p (wake k w) c d i ok h = process_event-IsSound os addr k w c d i p ok h
  demo_event-IsSound p (mqtt m) c d i ok h =
      rw (← some_inj.0 h) (mqtt_event-IsSound os addr m c i ok)
  demo_event-IsSound p led_off c d i ok h =
      rw (← some_inj.0 h) (publish_led_off-IsSound os addr c i)

  demo_start-IsSound :
      (d : Demo) → All IsByte addr → demo_start os addr ≡ some d → IsSound os addr d
  unfolding demo_start init_config c_string
  demo_start-IsSound d a h =
      let boot = init_config os at_boot in
      let (e, u, s) =
        update_config-fits addr (codes "status") (codes "l") boot a (omega arith) (omega arith) refl
          refl in
      rw (some_inj.0 (sym h ∙ u)) (elim s [
        | inl (_, _, configured, state, _, attempt, conf, calls) ↦ record {
          base = record {
            configured = configured;
            host = rw (conf) refl;
            port = rw (conf) refl;
            interval = rw (conf) refl;
            attempt = rw (attempt) (omega arith);
            genuine = rw (calls) (tt, tt);
            ordered = rw (calls) tt;
          };
          phase = rw (state, calls) refl;
        }
        | inr (inl long, _, _) ↦ absurd (omega (arith, long))
        | inr (inr long, _, _) ↦ absurd (omega (arith, long))
      ])

  -- Where `%d` prints 16-bit numbers in at most 6 characters, and the link address consists of bytes:
  -- whatever follows the start (rings of the timer, polls, the button, events of MQTT once the
  -- connection is registered, publications only on the topic that was subscribed, default routes of
  -- 16 bytes), the client id, the topics and the broker stay those of the default configuration;
  -- the program is in none of its error states; the connection is registered at most once, and
  -- before any connect or subscription; each connect is to aaaa::1, port 1883, each subscription
  -- to "zolertia/cmd/l"; each message has its JSON form, is on "zolertia/evt/status", and goes out
  -- on a connection with a subscription; and the red LED is not switched.
  pub DemoReachable-IsSound :
      (p : IsPlatform os)
      → All IsByte addr
      → (d : Demo) → DemoReachable os addr d
      → IsSound os addr d
  DemoReachable-IsSound p a d (started _ h) = demo_start-IsSound d a h
  DemoReachable-IsSound p a d (handled e c _ before ok h) =
      demo_event-IsSound p e c d (DemoReachable-IsSound p a c before) ok h
