-- ===== src/Tools/Wait/Published.antt =====
-- mqtt_sn_wait_for of mqtt-sn-tools/mqtt-sn.c where it is a PUBLISH that comes at once.
use ts_it.Base.{
  ℕ, suc, ◌+◌, ◌%◌, ◌<◌, ◌≤◌, ◌≡◌, ◌≢◌, ap, ◌∙◌, false, some, List, ◌∷◌, ◌++◌, arith, All, IsByte,
  IsText, htons, length, drop, set, ntohs_at, c_string, c_string-set, IsText-bytes, codes,
  length-drop,
}
use ts_it.Protocol.MessageType
use ts_it.Tools.State.{Client, Env, ready, datagram, ok, bind-ok}
use ts_it.Tools.Topics.{lookup_topic}
use ts_it.Tools.Receive.Bounds.{IsBuffer}
use ts_it.Tools.Receive.Plain.{packet, holding, received}
use ts_it.Tools.Publish.{print_publish_packet}
use ts_it.Tools.Publish.Laws.{print_publish-named}
use ts_it.Tools.Wait.{handle_publish, handle_packet, wait_for}
use ts_it.Tools.Wait.Answer.{IsQuiet, asked, wait_for-handled}

-- All of a PUBLISH but its length and its type.
abbrev pub publish_body : ℕ → ℕ → ℕ → List ℕ → List ℕ
publish_body flags topic_id message_id text = flags ∷ (htons topic_id ++ (htons message_id ++ text))

pub publish_plain : MessageType.publish ≢ MessageType.frwdencap
publish_plain = omega arith

-- What is printed for a publication.
abbrev pub line : List ℕ → List ℕ → List ℕ
line name text = name ++ (codes ": " ++ (text ++ codes "\n"))

module _ (flags topic_id message_id : ℕ) (text : List ℕ) where
  abbrev pub publication : List ℕ
  publication = publish_body flags topic_id message_id text

  -- The received text ends at the terminator behind the datagram.
  text-held :
      (buffer : List ℕ)
      → IsText text
      → IsBuffer buffer
      → length text < 256
      → c_string (drop 7 (holding MessageType.publish publication publish_plain buffer)) ≡ some text
  text-held buffer t b fits =
      c_string-set text (drop (suc (suc (length publication))) buffer) t
        (omega (arith, length-drop (suc (suc (length publication))) buffer, b.size, fits))

  pub publication-bytes :
      IsText text
      → length text ≤ 248
      → flags < 256
      → All IsByte (packet MessageType.publish publication publish_plain)
  publication-bytes t fits small = (
    omega (arith, fits),
    (
      omega arith,
      (small, (omega arith, (omega arith, (omega arith, (omega arith, IsText-bytes text t))))),
    ),
  )

  topic_id-held :
      (rest : List ℕ)
      → topic_id < 65536
      → ntohs_at (packet MessageType.publish publication publish_plain ++ rest) 3 ≡ topic_id
  topic_id-held rest h = omega (arith, h)

  handle-publication :
      (env : Env) (buffer array name : List ℕ) (c : Client)
      → c.verbose ≡ 1
      → c.forwarder_dtn ≡ false
      → flags % 4 ≡ 0
      → topic_id < 65536
      → IsText text
      → IsBuffer buffer
      → length text < 256
      → lookup_topic topic_id c.topic_map ≡ some array
      → c_string array ≡ some name
      → handle_packet env MessageType.publish
          (holding MessageType.publish publication publish_plain buffer)
          c
        ≡ ok tt (record c { printed = line name text ∷ c.printed })
  unfolding handle_packet handle_publish
  handle-publication env buffer array name c v dtn normal id t b fits known is_name =
      let held = holding MessageType.publish publication publish_plain buffer in
      let tail = set (drop (suc (suc (length publication))) buffer) 0 0 in
      let printed =
        (print_publish-named env held array text c v normal
            (ap (λ i. lookup_topic i c.topic_map) (topic_id-held tail id) ∙ known)
            (text-held buffer t b fits)).0
          name is_name in
      bind-ok (print_publish_packet env held) _ printed ∙ ground (arith, dtn)

  -- A PUBLISH to a topic of the map that is the first to arrive is printed and returned.
  pub wait_for-publication :
      (env : Env) (fuel : ℕ) (array name : List ℕ) (c : Client)
      → c.verbose ≡ 1
      → c.forwarder_dtn ≡ false
      → flags < 256
      → flags % 4 ≡ 0
      → topic_id < 65536
      → IsText text
      → length text ≤ 248
      → lookup_topic topic_id c.topic_map ≡ some array
      → c_string array ≡ some name
      → IsBuffer c.buffer
      → c.forwarder_encapsulation ≡ false
      → IsQuiet env c
      → env.select (c.moment + 1) ≡ ready
      → env.recvfrom (c.moment + 1 + 1)
        ≡ datagram (packet MessageType.publish publication publish_plain)
      → wait_for env MessageType.publish (suc fuel) c
        ≡ ok
            (some (holding MessageType.publish publication publish_plain c.buffer))
            (record (received MessageType.publish publication publish_plain env (asked c)) {
              printed = line name text ∷ c.printed;
            })
  wait_for-publication env fuel array name c v dtn small normal id t fits known is_name b off quiet
        sel arrives =
      let after = received MessageType.publish publication publish_plain env (asked c) in
      wait_for-handled MessageType.publish publication publish_plain env fuel c
        (record after { printed = line name text ∷ c.printed }) (publication-bytes t fits small) b
        off quiet sel arrives
        (handle-publication env c.buffer array name after v dtn normal id t b (omega (arith, fits))
          known is_name)
