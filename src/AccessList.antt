-- ===== src/AccessList.antt =====
-- snitun/client/access_list.py: which addresses may connect. The networks are those of Python's
-- `ipaddress`, on numbers.
pub mod Listed
use snitun.Prelude.{
  ℕ, ◌-◌, ◌*◌, ◌/◌, ◌^◌, Bool, false, not, ◌&&◌, ◌||◌, List, [], ◌∷◌, ltb, ◌==◌, if◌then◌else◌,
}
use snitun.Exceptions.{Result, ok, err, value_error}
use snitun.IpAddress.{IpAddress, v4, v6}

pub data AccessListAction : Type 0 where
  allow block : AccessListAction

-- `IPv4Network | IPv6Network`: the address with its host bits cleared, and the length of the prefix.
pub record IpNetwork : Type 0 where
  pub address : IpAddress
  pub prefix : ℕ

abbrev pub bits : IpAddress → ℕ
bits (v4 n) = 32
bits (v6 n) = 128

abbrev pub number : IpAddress → ℕ
number (v4 n) = n
number (v6 n) = n

-- `address & netmask`, for so many bits of the host.
abbrev pub masked : ℕ → IpAddress → IpAddress
masked host (v4 n) = v4 (n / 2 ^ host * 2 ^ host)
masked host (v6 n) = v6 (n / 2 ^ host * 2 ^ host)

abbrev pub ip_eq : IpAddress → IpAddress → Bool
ip_eq (v4 n) (v4 m) = n == m
ip_eq (v6 n) (v6 m) = n == m
ip_eq (v4 n) (v6 m) = false
ip_eq (v6 n) (v4 m) = false

abbrev pub network_eq : IpNetwork → IpNetwork → Bool
network_eq n m = ip_eq n.address m.address && (n.prefix == m.prefix)

-- `ip_network(network, strict=False)`; an address alone has all its bits as its prefix.
unfoldable pub ip_network : IpAddress → ℕ → Result IpNetwork
ip_network ip prefix =
    if ltb (bits ip) prefix
    then err value_error
    else ok (record { address = masked (bits ip - prefix) ip; prefix = prefix })

-- `ip_address in network`: addresses of the other version are not.
unfoldable pub contains : IpAddress → IpNetwork → Bool
contains ip n = ip_eq (masked (bits ip - n.prefix) ip) n.address

pub record AccessList : Type 0 where
  pub default_action : AccessListAction
  -- A set, without repetition.
  pub networks : List IpNetwork

abbrev pub is_listed : IpNetwork → List IpNetwork → Bool
is_listed n [] = false
is_listed n (m ∷ ms) = network_eq n m || is_listed n ms

abbrev pub discard : IpNetwork → List IpNetwork → List IpNetwork
discard n [] = []
discard n (m ∷ ms) = if network_eq n m then discard n ms else m ∷ discard n ms

insert : IpNetwork → AccessList → AccessList
insert n l = if is_listed n l.networks then l else record l { networks = n ∷ l.networks }

added : AccessList → Result IpNetwork → Result (Unit {0}) × AccessList
unfolding insert
added l (ok n) = (ok tt, insert n l)
added l (err e) = (err e, l)

unfoldable pub add : IpAddress → ℕ → AccessList → Result (Unit {0}) × AccessList
unfolding added ip_network
add ip prefix l = added l (ip_network ip prefix)

removed : AccessList → Result IpNetwork → Result (Unit {0}) × AccessList
removed l (ok n) = (ok tt, record l { networks = discard n l.networks })
removed l (err e) = (err e, l)

unfoldable pub remove : IpAddress → ℕ → AccessList → Result (Unit {0}) × AccessList
unfolding removed ip_network
remove ip prefix l = removed l (ip_network ip prefix)

matched : IpAddress → List IpNetwork → Bool
unfolding contains
matched ip [] = false
matched ip (n ∷ ns) = contains ip n || matched ip ns

unfoldable pub check_policy : AccessList → IpAddress → Bool
unfolding matched
check_policy l ip = elim l.default_action [
  | allow ↦ matched ip l.networks
  | block ↦ not (matched ip l.networks)
]
