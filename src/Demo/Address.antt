-- ===== src/Demo/Address.antt =====
-- ipaddr_sprintf of ictp/mqtt/mqtt-demo.c against the notation of IPv6 addresses.
pub mod Notation
mod Loop
use ts_it.Base.{
  Option-cases, inl, inr, ℕ, zero, suc, ◌+◌, ◌-◌, ◌*◌, ◌≤◌, ◌<◌, ◌≡◌, refl, ◌++◌, ◌==◌, ltb,
  if◌then◌else◌, Bool, true, false, Option, none, some, List, [], ◌∷◌, length, take, drop,
  replicate, codes, c_string, hex_digits, length-hex_digits, IsText, IsText-hex_digits, All-append,
  length-append, length-drop, print_at, print_at_end, u8, arith, c_string-append, ap,
}
use mathlib.Core.List.{append_assoc, append-nil}
use ts_it.Demo.Message.{
  ZeroRun, counted, over, Printed, ip_print, ip_group, ip_groups, ipaddr_sprintf,
}
use ts_it.Demo.Address.Notation.{
  hex, colons, joined, behind_zeros, from_zero, before_zero, shortened, address_text, groups,
  IsText-address_text, length-groups,
}
use ts_it.Demo.Address.Loop.{Holds, Prints, group_loop, ip_groups-group_loop, first-Prints}

-- For an address of 16 bytes at most, and a buffer of 64 zeros: no size becomes negative, the buffer
-- has the address in the notation of IPv6, its first run of zero groups shortened to two colons, and
-- the length of the text is what is returned.
pub ipaddr_sprintf-address_text :
    (addr : List ℕ)
    → length addr ≤ 16
    → (o : Printed) × (ipaddr_sprintf (replicate 64 0) 64 addr ≡ some o)
      × (c_string o.buf ≡ some (address_text (groups addr)))
      × (o.len ≡ length (address_text (groups addr)))
unfolding ipaddr_sprintf
ipaddr_sprintf-address_text addr h =
    let start : Printed = record { buf = replicate 64 0; len = 0 } in
    let n = length-groups addr h in
    let (o, e, held) =
      first-Prints (groups addr) [] start
        (record { rest = replicate 63 0; text = refl; len = refl }) (omega (arith, n)) in
    (
      o,
      rw (ip_groups-group_loop true addr (counted 0) start) e,
      rw (held.text) (
          c_string-append (address_text (groups addr)) held.rest
            (IsText-address_text (groups addr))),
      held.len,
    )
