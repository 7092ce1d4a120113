-- ===== src/Programs/Dump/Invalid.antt =====
-- What mqtt-sn-tools/mqtt-sn-dump.c does with a datagram that is no valid packet.
use ts_it.Base.{ℕ, suc, ◌+◌, ◌≡◌, Bool, true, false, List, length, take, All, IsByte, arith}
use ts_it.Tools.State.{Client, Env, fault, ready, datagram, buffer_size, select_now}
use ts_it.Tools.Receive.{fill}
use ts_it.Tools.Receive.Valid.{is_valid}
use ts_it.Tools.Receive.Bounds.{IsBuffer}
use ts_it.Tools.Receive.Delivery.{receive_packet-none}
use ts_it.Programs.Dump.{show, listen}

-- A datagram of bytes that mqtt_sn_validate_packet refuses, where the program waits for packets,
-- makes it read through a NULL pointer, whatever is to be printed.
pub listen-invalid :
    (env : Env) (running : ℕ → Bool) (dump_all : Bool) (turns : ℕ) (bytes : List ℕ) (c : Client)
    → running c.moment ≡ true
    → env.select c.moment ≡ ready
    → env.recvfrom (c.moment + 1) ≡ datagram bytes
    → All IsByte bytes
    → IsBuffer c.buffer
    → is_valid c.forwarder_encapsulation (fill bytes c.buffer) (length (take buffer_size bytes))
      ≡ false
    → listen env running dump_all (suc turns) c ≡ fault
unfolding listen show select_now
listen-invalid env running dump_all turns bytes c runs is_ready arrives given b bad =
    let next = record c { moment = c.moment + 1 } in
    let missing = receive_packet-none env bytes next arrives given b bad in
    ground (arith, runs, is_ready, missing)
