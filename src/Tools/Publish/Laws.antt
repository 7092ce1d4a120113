-- ===== src/Tools/Publish/Laws.antt =====
-- What a PUBLISH and a REGISTER from the gateway do to the client of mqtt-sn-tools/mqtt-sn.c.
use ts_it.Base.{
  ℕ, ◌%◌, ◌≡◌, ◌∙◌, inl, inr, Option-cases, none, some, List, ◌∷◌, ◌++◌, arith, drop, byte_at,
  ntohs_at, c_string, codes,
}
use ts_it.Tools.State.{Client, Env, ok, fault, Post, Post-mono}
use ts_it.Tools.Topics.{lookup_topic, register_topic}
use ts_it.Tools.Send.{send_regack}
use ts_it.Tools.Send.Laws.{Sends, send_regack-Kept, send_regack-encode}
use ts_it.Tools.Wire.{Message}
use ts_it.Tools.Frame.Laws.{Kept, HasNodeId}
use ts_it.Tools.Publish.{
  print_publish_packet, fwd_dtn_packet, append_to, run_command, process_register,
}

-- Printing a PUBLISH leaves the buffer, the topic map and the timers alone.
pub print_publish-Kept :
    (env : Env) (packet : List ℕ) (c : Client)
    → Post (λ _ d. Kept c d) (print_publish_packet env packet c)
unfolding print_publish_packet
print_publish-Kept env packet c = ground arith

pub fwd_dtn-Kept :
    (env : Env) (packet : List ℕ) (c : Client)
    → Post (λ _ d. Kept c d) (fwd_dtn_packet env packet c)
unfolding fwd_dtn_packet append_to run_command
fwd_dtn-Kept env packet c = ground arith

-- A REGISTER enters its topic into the map, and changes neither the buffer nor the timers.
pub record Registered (packet : List ℕ) (c d : Client) : Type 0 where
  pub topic_name : List ℕ
  pub is_name : c_string (drop 6 packet) ≡ some topic_name
  pub topic_map : d.topic_map ≡ register_topic (ntohs_at packet 2) topic_name c.topic_map
  pub buffer : d.buffer ≡ c.buffer
  pub keep_alive : d.keep_alive ≡ c.keep_alive
  pub last_receive : d.last_receive ≡ c.last_receive

-- The map with the topic of a REGISTER packet.
abbrev pub with_topic : List ℕ → List ℕ → Client → Client
with_topic packet name c = record c {
  topic_map = register_topic (ntohs_at packet 2) name c.topic_map;
}

process_register-none :
    (env : Env) (packet : List ℕ) (c : Client)
    → c_string (drop 6 packet) ≡ none
    → process_register env packet c ≡ fault
unfolding process_register
process_register-none env packet c e = ground arith

pub process_register-some :
    (env : Env) (packet name : List ℕ) (c : Client)
    → c_string (drop 6 packet) ≡ some name
    → process_register env packet c
      ≡ send_regack env (ntohs_at packet 2) (ntohs_at packet 4) (with_topic packet name c)
unfolding process_register
process_register-some env packet name c e = ground arith

-- Where the wireless node id fits its field, a REGISTER whose name ends within the buffer is
-- entered into the topic map, and answered by the REGACK of its topic id and its message id, with
-- the return code 0.
pub process_register-encode :
    (env : Env) (packet name : List ℕ) (c : Client)
    → HasNodeId c
    → c_string (drop 6 packet) ≡ some name
    → Sends env
        (Message.regack (ntohs_at packet 2) (ntohs_at packet 4) 0)
        (with_topic packet name c)
        (process_register env packet c)
process_register-encode env packet name c h e =
    process_register-some env packet name c e
    ∙ send_regack-encode env (with_topic packet name c) h (ntohs_at packet 2) (ntohs_at packet 4)

pub process_register-Registered :
    (env : Env) (packet : List ℕ) (c : Client)
    → Post (λ _ d. Registered packet c d) (process_register env packet c)
process_register-Registered env packet c = elim (Option-cases (c_string (drop 6 packet))) [
  | inl e ↦ rw (process_register-none env packet c e) tt
  | inr (name, e) ↦ rw (process_register-some env packet name c e) (
      Post-mono (λ _ d. Kept (with_topic packet name c) d) (λ _ d. Registered packet c d) _
        (send_regack-Kept env (ntohs_at packet 2) (ntohs_at packet 4) (with_topic packet name c))
        (λ _ d k. record {
          topic_name = name;
          is_name = e;
          topic_map = k.topic_map;
          buffer = k.buffer;
          keep_alive = k.keep_alive;
          last_receive = k.last_receive;
        }))
]

-- A PUBLISH with a normal topic id that the map has, whose payload ends within the buffer, prints
-- the topic's name and the payload, with the verbose level 1; a name that leaves no NUL in its
-- array is read past the array's end.
pub print_publish-named :
    (env : Env) (packet array text : List ℕ) (c : Client)
    → c.verbose ≡ 1
    → byte_at packet 2 % 4 ≡ 0
    → lookup_topic (ntohs_at packet 3) c.topic_map ≡ some array
    → c_string (drop 7 packet) ≡ some text
    → ((name : List ℕ)
        → c_string array ≡ some name
        → print_publish_packet env packet c
          ≡ ok tt
              (record c { printed = (name ++ (codes ": " ++ (text ++ codes "\n"))) ∷ c.printed }))
      × (c_string array ≡ none → print_publish_packet env packet c ≡ fault)
unfolding print_publish_packet
print_publish-named env packet array text c v t l e = (λ name n. ground arith, λ n. ground arith)
