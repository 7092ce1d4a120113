-- ===== src/Programs/Pub/Checks.antt =====
-- What mqtt-sn-tools/mqtt-sn-pub.c makes of its options.
use ts_it.Base.{
  ℕ, ◌≡◌, ◌≢◌, refl, ◌⊎◌, Option, none, some, Option-cases, inl, inr, List, length, arith,
}
use ts_it.Tools.State.{Client}
use ts_it.Tools.Frame.{enable_frwdencap, set_frwdencap_parameters}
use ts_it.Programs.Options.{Opt, each_option}
use ts_it.Programs.Outcome.{each_option-Ends}
use ts_it.Tools.Outcome.{Ends, Ends-bind}
use ts_it.Programs.Pub.{PubOptions, defaults, set_option, check_options, parse_opts, qos_minus_one}

-- There is a text.
abbrev pub IsThere : Option (List ℕ) → Type 0
IsThere none = ⊥
IsThere (some text) = Unit

-- There is a topic id or a name, not both, and a name without a connection is a short one.
abbrev pub IsOneTopic : Option (List ℕ) → ℕ → ℕ → Type 0
IsOneTopic none topic_id qos = topic_id ≢ 0
IsOneTopic (some name) topic_id qos = (topic_id ≡ 0) × (qos ≡ qos_minus_one → length name ≡ 2)

-- The options ask for something that the program can do.
pub record IsRunnable (o : PubOptions) : Type 0 where
  pub message : IsThere o.message_data
  pub qos : (o.qos ≡ 0) ⊎ (o.qos ≡ qos_minus_one)
  pub topic : IsOneTopic o.topic_name o.topic_id o.qos

set_option-Ends :
    (opt : Opt) (o : PubOptions) (c : Client) → Ends (λ _ _. Unit) (set_option opt o c)
unfolding set_option enable_frwdencap set_frwdencap_parameters
set_option-Ends opt o c = ground arith

check_options-IsRunnable :
    (o : PubOptions) (c : Client) → Ends (λ o' d. IsRunnable o') (check_options o c)
unfolding check_options
check_options-IsRunnable o c = elim (Option-cases o.topic_name) [
  | inl n ↦ elim (Option-cases o.message_data) [
    | inl k ↦ ground arith
    | inr (text, k) ↦ ground arith
  ]
  | inr (name, n) ↦ elim (Option-cases o.message_data) [
    | inl k ↦ ground arith
    | inr (text, k) ↦ ground arith
  ]
]

-- Whatever the command line is, the program goes on only with options that ask for one message, one
-- topic and a QoS that it has, and else exits with `EXIT_FAILURE`.
pub parse_opts-IsRunnable :
    (opts : List Opt) (c : Client) → Ends (λ o d. IsRunnable o) (parse_opts opts c)
unfolding parse_opts
parse_opts-IsRunnable opts c =
    Ends-bind (λ _ _. Unit) (λ o d. IsRunnable o) _ (each_option set_option opts defaults)
      check_options c refl (each_option-Ends set_option opts defaults c set_option-Ends)
      (λ o d _. check_options-IsRunnable o d)
