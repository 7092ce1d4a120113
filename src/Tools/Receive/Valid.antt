-- ===== src/Tools/Receive/Valid.antt =====
-- mqtt_sn_validate_packet of mqtt-sn-tools/mqtt-sn.c on a buffer with room for all that it looks at.
use ts_it.Base.{
  ℕ, ◌+◌, ◌≤◌, ◌<◌, ◌≡◌, Bool, true, false, not, ◌&&◌, ◌||◌, some, List, length, byte_at,
  get_elem?-cases, byte_at-lt, All, IsByte, ◌==◌, if◌then◌else◌, arith, ◌∙◌, ap,
}
use ts_it.Protocol.MessageType
use ts_it.Tools.Receive.{validate_packet, validate_type, has_length}

-- What the function returns.
unfoldable pub is_valid : Bool → List ℕ → ℕ → Bool
is_valid forwarder packet n =
    if byte_at packet 0 == 0x00
    then false
    else if byte_at packet 0 == 0x01
    then false
    else if forwarder && not (byte_at packet 1 == MessageType.frwdencap)
    then false
    else if (byte_at packet 1 == MessageType.frwdencap
          && not (byte_at packet 0 + byte_at packet (byte_at packet 0) == n))
        || (not (byte_at packet 1 == MessageType.frwdencap) && not (byte_at packet 0 == n))
    then false
    else true

-- It reads the two first bytes and, in a forwarder encapsulation, the byte behind the header.
pub validate_packet-reads :
    (forwarder : Bool) (packet : List ℕ) (n : ℕ)
    → 1 < length packet
    → byte_at packet 0 < length packet
    → validate_packet forwarder packet n ≡ some (is_valid forwarder packet n)
unfolding validate_packet validate_type has_length is_valid
validate_packet-reads forwarder packet n two inner = ground (
  arith,
  get_elem?-cases 0 packet 0,
  get_elem?-cases 0 packet 1,
  get_elem?-cases 0 packet (byte_at packet 0),
)

-- So it stays in a buffer of 256 bytes and more.
pub validate_packet-is_valid :
    (forwarder : Bool) (packet : List ℕ) (n : ℕ) (valid : Bool)
    → All IsByte packet
    → 256 ≤ length packet
    → is_valid forwarder packet n ≡ valid
    → validate_packet forwarder packet n ≡ some valid
validate_packet-is_valid forwarder packet n valid bytes room v =
    validate_packet-reads forwarder packet n (omega (arith, room))
      (omega (arith, room, byte_at-lt packet 0 bytes))
    ∙ ap (λ b. some b) v
