-- ===== src/Demo/Machine/Cases.antt =====
-- The cases of the state machine, with the invariant.
use ts_it.Base.{
  ℕ, ◌+◌, ◌≤◌, ◌≡◌, inl, inr, refl, true, false, Bool-cases, none, some, List, ◌∷◌, length, u16,
  arith,
}
use ts_it.Demo.State.{
  registered, connecting, publishing, Demo, Platform, World, mqtt_publish, periodic_timer,
}
use ts_it.Demo.Message.{publish}
use ts_it.Demo.Message.Laws.{json, IsPlatform, publish-json}
use ts_it.Demo.Machine.{machine_init, machine_registered, machine_connecting, machine_disconnected}
use ts_it.Demo.Machine.Sound.{is_registered, is_subscribed, IsBase, IsSound}

module _ (os : Platform) (addr : List ℕ) (d : Demo) (b : IsBase os addr d) where
  pub registered-IsSound :
      (w : World)
      → d.state ≡ registered
      → is_registered d.calls ≡ true
      → IsSound os addr (machine_registered os w d)
  unfolding machine_registered
  registered-IsSound w s r = elim (Bool-cases w.has_address) [
    | inl e ↦ rw (e) (ground arith)
    | inr e ↦ rw (e) (ground arith)
  ]

  pub init-IsBase :
      is_registered d.calls ≡ false
      → IsBase os addr (machine_init d)
        × ((machine_init d).state ≡ registered)
        × (is_registered (machine_init d).calls ≡ true)
  unfolding machine_init
  init-IsBase r = ground arith

  pub connecting-IsSound :
      d.state ≡ connecting
      → is_registered d.calls ≡ true
      → IsSound os addr (machine_connecting os d)
  unfolding machine_connecting
  connecting-IsSound s r = ground arith

  pub disconnected-IsSound :
      is_registered d.calls ≡ true → IsSound os addr (machine_disconnected os d)
  unfolding machine_disconnected
  disconnected-IsSound r = ground arith

  -- The message, and the interval behind it.
  pub published-IsSound :
      (w : World) (route : List ℕ) (e : Demo)
      → IsPlatform os
      → w.default_route ≡ some route
      → length route ≤ 16
      → d.state ≡ publishing
      → is_registered d.calls ≡ true
      → is_subscribed d.calls ≡ true
      → elim (publish os w d) [
        | none ↦ none
        | some x ↦ some (record x { calls = periodic_timer x.conf.pub_interval ∷ x.calls })
      ]
        ≡ some e
      → IsSound os addr e
  published-IsSound w route e p er l s r u h =
      let (buffer, m) = publish-json os w route d p er l in
      let seq = u16 (d.seq_nr_value + 1) in
      let x : Demo = record d {
        seq_nr_value = seq;
        app_buffer = buffer;
        calls =
            periodic_timer d.conf.pub_interval
            ∷ mqtt_publish d.pub_topic (json os seq w.clock_seconds route)
            ∷ d.calls;
      } in
      let same : e ≡ x = ground (arith, m, h) in
      rw (same) (record {
        base = record {
          configured = ground arith;
          host = b.host;
          port = b.port;
          interval = b.interval;
          attempt = b.attempt;
          genuine =
              (tt, ((b.configured.pub_topic, (seq, w.clock_seconds, route, refl)), b.genuine));
          ordered = (u, b.ordered);
        };
        phase = rw (s) (r, u);
      })
