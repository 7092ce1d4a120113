-- ===== src/Tools/Socket.antt =====
-- mqtt_sn_create_socket of mqtt-sn-tools/mqtt-sn.c: the first address of the host that a socket can
-- be connected to.
use mathlib.Core.Path.{subst}
use ts_it.Base.{
  ℕ, zero, suc, ◌+◌, ◌<◌, ◌≡◌, ◌≢◌, ap, ◌∙◌, arith, Bool, true, false, if◌then◌else◌, Option, none,
  some, Option-cases, inl, inr, List, [], ◌∷◌,
}
use ts_it.Tools.State.{Client, M, ok, pure, exit_with, exit_failure}

-- What the system gives for a host and a port: the number of its addresses, and by their position
-- the results of `socket` and `connect`; none is an error.
pub record Network : Type 0 where
  pub addresses : Option ℕ
  pub socket : ℕ → Option ℕ
  pub connect : ℕ → Bool

-- The loop from an address on, with the number of those that are left: the socket that is connected,
-- and the sockets that have been closed, the first first.
pub try_addresses : Network → (left at : ℕ) → Option ℕ × List ℕ
try_addresses network zero at = (none, [])
try_addresses network (suc left) at =
    let rest = try_addresses network left (at + 1) in
    elim (network.socket at) [
      | none ↦ rest
      | some fd ↦ if network.connect at then (some fd, []) else (rest.0, fd ∷ rest.1)
    ]

-- The result is the socket. The timeout that is set on it is the one that `recvfrom` may report.
pub create_socket : Network → M ℕ
create_socket network = elim network.addresses [
  | none ↦ exit_with exit_failure
  | some n ↦ elim (try_addresses network n 0).0 [
    | none ↦ exit_with exit_failure
    | some fd ↦ pure fd
  ]
]

-- The address can be connected to by the socket.
abbrev pub Connects : Network → ℕ → ℕ → Type 0
Connects network at fd = (network.socket at ≡ some fd) × (network.connect at ≡ true)

-- The address cannot.
abbrev pub Refuses : Network → ℕ → Type 0
Refuses network at = (fd : ℕ) → network.socket at ≡ some fd → network.connect at ≡ false

from_start : (i : ℕ) → i ≡ 0 + i
from_start i = omega arith

shift : (at j : ℕ) → at + suc j ≡ at + 1 + j
shift at j = omega arith

try-Refuses :
    (network : Network) (left at : ℕ)
    → Refuses network at
    → (try_addresses network (suc left) at).0 ≡ (try_addresses network left (at + 1)).0
unfolding try_addresses
try-Refuses network left at bad = elim (Option-cases (network.socket at)) [
  | inl e ↦ ground (arith, e)
  | inr (fd, e) ↦ ground (arith, e, bad fd e)
]

try-Connects :
    (network : Network) (k left at fd : ℕ)
    → k < left
    → Connects network (at + k) fd
    → ((j : ℕ) → j < k → Refuses network (at + j))
    → (try_addresses network left at).0 ≡ some fd
unfolding try_addresses
try-Connects network k zero at fd h good bad = absurd (omega (arith, h))
try-Connects network zero (suc left) at fd h good bad =
    let here : at ≡ at + 0 = omega arith in
    let a : network.socket at ≡ some fd = ap network.socket here ∙ good.0 in
    let b : network.connect at ≡ true = ap network.connect here ∙ good.1 in ground (arith, a, b)
try-Connects network (suc k) (suc left) at fd h good bad =
    let now : at + 0 ≡ at = omega arith in
    let first = subst (Refuses network) now (bad 0 (omega arith)) in
    let next = shift at k in
    try-Refuses network left at first
    ∙ try-Connects network k left (at + 1) fd (omega (arith, h))
        (subst (λ i. Connects network i fd) next good)
        (λ j l. subst (Refuses network) (shift at j) (bad (suc j) (omega (arith, l))))

-- The host has `n` addresses, and the one at `k` is the first that can be connected to.
pub record Opens (network : Network) (n k fd : ℕ) : Type 0 where
  pub resolved : network.addresses ≡ some n
  pub listed : k < n
  pub connects : Connects network k fd
  pub first : (j : ℕ) → j < k → Refuses network j

pub create_socket-Opens :
    (network : Network) (n k fd : ℕ) (c : Client)
    → Opens network n k fd
    → create_socket network c ≡ ok fd c
unfolding create_socket
create_socket-Opens network n k fd c o =
    let found : (try_addresses network n 0).0 ≡ some fd =
      try-Connects network k n 0 fd o.listed
        (subst (λ i. Connects network i fd) (from_start k) o.connects)
        (λ j l. subst (Refuses network) (from_start j) (o.first j l)) in
    ground (arith, o.resolved, found)

-- The host has an address that can be connected to.
pub record IsOpened (network : Network) : Type 0 where
  pub count : ℕ
  pub at : ℕ
  pub fd : ℕ
  pub opens : Opens network count at fd

pub create_socket-ok :
    (network : Network) (o : IsOpened network) (c : Client) → create_socket network c ≡ ok o.fd c
create_socket-ok network o c = create_socket-Opens network o.count o.at o.fd c o.opens

-- It is, with a socket that the programs do not take for none.
pub record HasSocket (network : Network) : Type 0 where
  pub opened : IsOpened network
  pub nonzero : opened.fd ≢ 0
