-- ===== src/Programs/Dump/Tests.antt =====
-- The theorems about mqtt-sn-tools/mqtt-sn-dump.c at a concrete command line and systems.
use ts_it.Base.{
  none, ℕ, ◌≡◌, refl, Bool, true, List, [], ◌∷◌, arith, ltb, codes, length-replicate, All-replicate,
  IsByte,
}
use ts_it.Tools.State.{Client, Env, ok, datagram, ready, start}
use ts_it.Tools.Wire.{Message, encode}
use ts_it.Tools.Receive.Bounds.{IsBuffer}
use ts_it.Programs.Options.{Opt, char, each_option}
use ts_it.Programs.Dump.{DumpOptions, defaults, set_option, parse_opts, main}
use ts_it.Programs.Dump.Runs.{IsListed, main-lists}

-- `-a`
abbrev everything : List Opt
everything = record { ch = char "a"; optarg = [] } ∷ []

abbrev all_options : DumpOptions
all_options = record defaults { dump_all = true }

everything-parsed : parse_opts everything start ≡ ok all_options start
unfolding parse_opts each_option set_option
everything-parsed = refl

abbrev register_ab : Message
register_ab = Message.register 5 1 (codes "ab")

-- A REGISTER arrives.
abbrev network : Env
network = record {
  time = λ k. k;
  select = λ _. ready;
  recvfrom = λ _. datagram (encode register_ab);
  date = λ _. codes "12 ";
  pid_decimal = codes "77";
  pid_hex = codes "4D";
  sprintf_onto = λ _ _. none;
}

-- A signal after the first packet.
abbrev once : ℕ → Bool
once k = ltb k 3

start-IsBuffer : IsBuffer start.buffer
start-IsBuffer = record {
  size = length-replicate {A = ℕ} 511 0;
  bytes = All-replicate IsByte 511 0 (omega arith);
}

register_ab-IsListed : IsListed register_ab
register_ab-IsListed = record {
  shown = omega arith;
  has_fields = λ e. cc;
  bytes = omega arith;
  short = omega arith;
}

main-lists_example :
    (e : Client) × (main network once true 2 everything start ≡ ok 0 e)
    × (e.printed
        ≡ codes "\n"
          ∷ codes " topic_name=ab"
          ∷ codes " message_id=0x0001"
          ∷ codes " topic_id=0x0005"
          ∷ codes "REGISTER: len=8"
          ∷ [])
unfolding ts_it.Protocol.MessageType.type_string
main-lists_example =
    main-lists network once everything all_options (register_ab ∷ []) start start everything-parsed
      refl (register_ab-IsListed, tt) start-IsBuffer refl (refl, refl, refl, refl)
