-- ===== src/Tools/State.antt =====
-- The state of mqtt-sn-tools/mqtt-sn.c (its static variables), what it reads from the system, and
-- the monad of its functions.
use ts_it.Base.{ℕ, ◌≡◌, ◌+◌, Bool, Option, none, List, [], replicate}

-- `topic_map_t` without its link: the `char topic_name[249]` is an array of bytes.
pub record TopicEntry : Type 0 where
  pub topic_id : ℕ
  pub topic_name : List ℕ

-- The outcome of `select` in mqtt_sn_select.
pub data Select : Type 0 where
  ready timed_out interrupted failed : Select

-- The outcome of `recvfrom`: a datagram, EAGAIN, or another error.
pub data Received : Type 0 where
  datagram : List ℕ → Received
  again failed : Received

-- What the system answers: each is asked at a moment, the number of questions asked before.
-- `date t` is the text that `strftime("%s ", localtime(t))` gives; the two texts of `getpid()` are
-- its decimal and its hexadecimal digits. `sprintf_onto a b` is what `sprintf(a, "%s %s", a, b)` leaves
-- in `a`, which C does not define: a text, or none for a fault.
pub record Env : Type 0 where
  pub time : ℕ → ℕ
  pub select : ℕ → Select
  pub recvfrom : ℕ → Received
  pub date : ℕ → List ℕ
  pub pid_decimal : List ℕ
  pub pid_hex : List ℕ
  pub sprintf_onto : List ℕ → List ℕ → Option (List ℕ)

-- The static variables; `buffer` is that of mqtt_sn_receive_frwdencap_packet, and a NULL pointer
-- is `none`. `moment` counts the questions to the system. `sent`, `printed` and `commands` hold what
-- went to `send`, to `stdout` and to `system`, the newest first.
pub record Client : Type 0 where
  pub debug : ℕ
  pub verbose : ℕ
  pub timeout : ℕ
  pub next_message_id : ℕ
  pub last_transmit : ℕ
  pub last_receive : ℕ
  pub keep_alive : ℕ
  pub forwarder_encapsulation : Bool
  pub forwarder_dtn : Bool
  pub wireless_node_id : Option (List ℕ)
  pub wireless_node_id_len : ℕ
  pub topic_map : List TopicEntry
  pub buffer : List ℕ
  pub moment : ℕ
  pub sent : List (List ℕ)
  pub printed : List (List ℕ)
  pub commands : List (List ℕ)

-- How a call ends: it returns, calls `exit`, does what C leaves undefined (a read or a write
-- outside an array), or the fuel of the model runs out.
pub data Run (A : Type 0) : Type 0 where
  ok : A → Client → Run A
  exit : ℕ → Client → Run A
  fault : Run A
  out_of_fuel : Run A

abbrev pub M : Type 0 → Type 0
M A = Client → Run A

infixl 5 ◌>>=◌ ◌>>◌
abbrev pub ◌>>=◌ : {A B : Type 0} → M A → (A → M B) → M B
◌>>=◌ m f c = elim (m c) [
  | ok a c' ↦ f a c'
  | exit code c' ↦ exit code c'
  | fault ↦ fault
  | out_of_fuel ↦ out_of_fuel
]

abbrev pub ◌>>◌ : {B : Type 0} → M (Unit {0}) → M B → M B
m >> k = m >>= λ _. k

module _ {A : Type 0} where
  abbrev pub pure : A → M A
  pure a c = ok a c

  abbrev pub exit_with : ℕ → M A
  exit_with code c = exit code c

  abbrev pub undefined : M A
  undefined c = fault

abbrev pub get : M Client
get c = ok c c

abbrev pub modify : (Client → Client) → M (Unit {0})
modify f c = ok tt (f c)

-- A call that returns is followed by what comes after it.
pub bind-ok :
    {A B : Type 0} (m : M A) (f : A → M B) {c : Client} {a : A} {c' : Client}
    → m c ≡ ok a c'
    → (m >>= f) c ≡ f a c'
bind-ok m f e = rw (e, ◌>>=◌)

-- What holds if the call returns.
abbrev pub Post : {A : Type 0} → (A → Client → Type 0) → Run A → Type 0
Post P (ok a c) = P a c
Post P (exit code c) = Unit
Post P fault = Unit
Post P out_of_fuel = Unit

pub Post-mono :
    {A : Type 0} (P Q : A → Client → Type 0) (r : Run A)
    → Post P r
    → ((a : A) (c : Client) → P a c → Q a c)
    → Post Q r
Post-mono P Q (ok a c) p f = f a c p
Post-mono P Q (exit code c) p f = tt
Post-mono P Q fault p f = tt
Post-mono P Q out_of_fuel p f = tt

pub Post-bind :
    {A B : Type 0} (P : A → Client → Type 0) (Q : B → Client → Type 0) (r : Run A) (m : M A)
    (f : A → M B) (c : Client)
    → m c ≡ r
    → Post P r
    → ((a : A) (d : Client) → P a d → Post Q (f a d))
    → Post Q ((m >>= f) c)
Post-bind P Q (ok a d) m f c e p next = rw (e, ◌>>=◌) (next a d p)
Post-bind P Q (exit code d) m f c e p next = rw (e, ◌>>=◌) tt
Post-bind P Q fault m f c e p next = rw (e, ◌>>=◌) tt
Post-bind P Q out_of_fuel m f c e p next = rw (e, ◌>>=◌) tt

-- `EXIT_FAILURE`
abbrev pub exit_failure : ℕ
exit_failure = 1

-- `time(NULL)`
unfoldable pub time_now : Env → M ℕ
time_now env c = ok (env.time c.moment) (record c { moment = c.moment + 1 })

-- `recvfrom` and `select`
unfoldable pub recv_now : Env → M Received
recv_now env c = ok (env.recvfrom c.moment) (record c { moment = c.moment + 1 })

unfoldable pub select_now : Env → M Select
select_now env c = ok (env.select c.moment) (record c { moment = c.moment + 1 })

-- The socket's buffer, 255 + 252 + 3 + 1 bytes.
abbrev pub buffer_size : ℕ
buffer_size = 511

-- The static variables as the program starts.
abbrev pub start : Client
start = record {
  debug = 0;
  verbose = 0;
  timeout = 10;
  next_message_id = 1;
  last_transmit = 0;
  last_receive = 0;
  keep_alive = 0;
  forwarder_encapsulation = Bool.false;
  forwarder_dtn = Bool.false;
  wireless_node_id = none;
  wireless_node_id_len = 0;
  topic_map = [];
  buffer = replicate 511 0;
  moment = 0;
  sent = [];
  printed = [];
  commands = [];
}
