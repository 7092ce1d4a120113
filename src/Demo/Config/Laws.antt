-- ===== src/Demo/Config/Laws.antt =====
-- What update_config of ictp/mqtt/mqtt-demo.c leaves, for any configuration and for the default one.
use ts_it.Base.{
  Bool-cases, ltb, ℕ, ◌+◌, ◌/◌, ◌%◌, ◌≤◌, ◌<◌, ◌≡◌, ◌⊎◌, inl, inr, refl, ◌++◌, some, List, ◌∷◌,
  length, drop, codes, c_string, IsText, All, IsByte, All-append, byte_at, byte_at-lt, hex_digit,
  take-length, c_string-append, snprintf, arith,
}
use ts_it.Demo.State.{Demo, init, config_error, periodic_timer}
use ts_it.Demo.Config.{
  client_id_text, construct_client_id, construct_sub_topic, construct_pub_topic, configured,
  update_config,
}

c_string-snprintf :
    (text buffer : List ℕ)
    → IsText text
    → length text < 24
    → c_string (snprintf 24 text buffer) ≡ some text
c_string-snprintf text buffer t fits =
    rw (take-length 23 text (omega (arith, fits)))
      (c_string-append text (drop (length text + 1) buffer) t)

hex_digit_bounds : (d : ℕ) → d < 16 → (0 < hex_digit d) × (hex_digit d < 256)
hex_digit_bounds d h = ground arith

IsText-client_id_text : (addr : List ℕ) → All IsByte addr → IsText (client_id_text addr)
IsText-client_id_text addr h =
    let hi =
      λ (i : ℕ). hex_digit_bounds (byte_at addr i / 16) (omega (arith, byte_at-lt addr i h)) in
    let lo = λ (i : ℕ). hex_digit_bounds (byte_at addr i % 16) (omega arith) in
    (
      omega arith,
      (
        omega arith,
        (
          hi 0,
          (
            lo 0,
            (hi 1, (lo 1, (hi 2, (lo 2, (hi 5, (lo 5, (hi 6, (lo 6, (hi 7, (lo 7, tt)))))))))),
          ),
        ),
      ),
    )

-- The client id and the topics stand in their buffers, whole and terminated.
pub record IsConfigured (addr event cmd : List ℕ) (d : Demo) : Type 0 where
  pub client_id : c_string d.client_id ≡ some (client_id_text addr)
  pub sub_topic : c_string d.sub_topic ≡ some (codes "zolertia/cmd/" ++ cmd)
  pub pub_topic : c_string d.pub_topic ≡ some (codes "zolertia/evt/" ++ event)

-- For every configuration whose strings are terminated, and every link address: the program starts if
-- the command and the event have at most 10 characters each, and then the client id and both topics
-- stand whole in their buffers, the messages are counted from 0, the timer is set, and the
-- configuration and the number of attempts are as they were; else it goes to the error state and
-- does not set the timer.
pub update_config-fits :
    (addr event cmd : List ℕ) (d : Demo)
    → All IsByte addr
    → IsText event
    → IsText cmd
    → c_string d.conf.event_type_id ≡ some event
    → c_string d.conf.cmd_type ≡ some cmd
    → (e : Demo) × (update_config addr d ≡ some e)
      × ((length cmd ≤ 10)
            × (length event ≤ 10)
            × IsConfigured addr event cmd e
            × (e.state ≡ init)
            × (e.seq_nr_value ≡ 0)
            × (e.connect_attempt ≡ d.connect_attempt)
            × (e.conf ≡ d.conf)
            × (e.calls ≡ periodic_timer 0 ∷ d.calls)
          ⊎ ((10 < length cmd) ⊎ (10 < length event))
            × (e.state ≡ config_error)
            × (e.calls ≡ d.calls))
unfolding update_config construct_client_id construct_sub_topic construct_pub_topic
update_config-fits addr event cmd d a te tc ee ec =
    let id = client_id_text addr in
    let sub = codes "zolertia/cmd/" ++ cmd in
    let pub_ = codes "zolertia/evt/" ++ event in
    let d1 : Demo = record d { client_id = snprintf 24 id d.client_id } in
    let d2 : Demo = record d1 { sub_topic = snprintf 24 sub d.sub_topic } in
    let d3 : Demo = record d2 { pub_topic = snprintf 24 pub_ d.pub_topic } in
    elim (Bool-cases (ltb (length sub) 24)) [
      | inl s ↦ elim (Bool-cases (ltb (length pub_) 24)) [
        | inl p ↦ (
          configured d3,
          ground (arith, ee, ec, s, p),
          inl (
            ground (arith, s),
            ground (arith, p),
            record {
              client_id =
                  c_string-snprintf id d.client_id (IsText-client_id_text addr a) (omega arith);
              sub_topic =
                  c_string-snprintf sub d.sub_topic
                    (All-append _ (codes "zolertia/cmd/") cmd (omega arith) tc) (ground (arith, s));
              pub_topic =
                  c_string-snprintf pub_ d.pub_topic
                    (All-append _ (codes "zolertia/evt/") event (omega arith) te)
                    (ground (arith, p));
            },
            refl,
            refl,
            refl,
            refl,
            refl,
          ),
        )
        | inr p ↦ (
          record d3 { state = config_error },
          ground (arith, ee, ec, s, p),
          inr (inr (ground (arith, p)), refl, refl),
        )
      ]
      | inr s ↦ (
        record d2 { state = config_error },
        ground (arith, ee, ec, s),
        inr (inl (ground (arith, s)), refl, refl),
      )
    ]
