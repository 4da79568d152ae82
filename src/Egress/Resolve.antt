-- ===== src/Egress/Resolve.antt =====
-- src/egress.rs: `EgressSpec::resolve`. The system resolver is a parameter.
pub mod Outward
pub mod Names
pub mod Octets
use basta.Prelude.{
  ℕ, Bool, true, false, not, ◌&&◌, Option, none, some, List, [], ◌∷◌, ◌++◌, ltb, if◌then◌else◌,
  is_empty, any, Bytes, eq_bytes, to_ascii_lowercase, guard, require, split_once, rsplit_once,
}
use basta.Prelude.{
  Result, ok, err, ◌>>=◌, ◌>>◌, needs_port, empty_host, bad_cidr_address, bad_cidr_prefix,
  prefix_over_32, refused_loopback, refused_link_local, private_via_dns, dns_name_on_443,
  unresolvable, no_address,
}
use basta.Egress.Addr.{
  Ipv4Addr, addr_eq, is_loopback, is_link_local, Inward, loopback, link_local, private,
  classify_inward, cidr_overlaps,
}
use basta.Egress.Spec.{
  Dest, Proto, tcp, proto_eq, Ports, one, range, contains, addr, cidr, AllowRule, SniRule,
  EgressSpec, push_rule,
}
use basta.Egress.Parse.{split_proto, parse_ports, parse_ipv4, parse_u8, validate_sni_host}

-- `std::net::IpAddr`; an IPv6 address is never looked into.
pub data IpAddr : Type 0 where
  v4 : Ipv4Addr → IpAddr
  v6 : Bytes → IpAddr

-- `(host, port).to_socket_addrs()`: the addresses in order, or an error.
abbrev pub Lookup : Type 0
Lookup = Bytes → ℕ → Option (List IpAddr)

abbrev pub Hosts : Type 0
Hosts = List (Bytes × Ipv4Addr)

abbrev entry_eq : Bytes × Ipv4Addr → Bytes × Ipv4Addr → Bool
entry_eq (h, x) (k, y) = eq_bytes h k && addr_eq x y

unfoldable pub push_host : Bytes × Ipv4Addr → Hosts → Hosts
unfolding eq_bytes
push_host entry hosts = if any (λ e. entry_eq e entry) hosts then hosts else hosts ++ entry ∷ []

unfoldable pub push_addr : Ipv4Addr → List Ipv4Addr → List Ipv4Addr
push_addr x addrs = if any (λ y. addr_eq y x) addrs then addrs else addrs ++ x ∷ []

-- The two lists that the loops over the flags fill.
pub record Tables : Type 0 where
  pub rules : List AllowRule
  pub hosts : Hosts

abbrev pub add_rule : Dest → Ports → Proto → Tables → Tables
add_rule dest ports proto t = record t {
  rules = push_rule (record { dest = dest; ports = ports; proto = proto }) t.rules;
}

abbrev pub loopback_net : Ipv4Addr
loopback_net = record { a = 127; b = 0; c = 0; d = 0 }

abbrev pub link_local_net : Ipv4Addr
link_local_net = record { a = 169; b = 254; c = 0; d = 0 }

-- `HOST` is `ADDRESS/PREFIX`.
unfoldable pub allow_cidr : Bytes → Bytes → Ports → Proto → Tables → Result Tables
allow_cidr ip_text prefix_text ports proto t = do
  x ← require (parse_ipv4 ip_text) bad_cidr_address
  prefix ← require (parse_u8 prefix_text) bad_cidr_prefix
  guard (ltb 32 prefix) prefix_over_32
  guard (cidr_overlaps x prefix loopback_net 8) refused_loopback
  guard (cidr_overlaps x prefix link_local_net 16) refused_link_local
  ok (add_rule (cidr x prefix) ports proto t)

-- `HOST` is an address.
unfoldable pub allow_addr : Ipv4Addr → Ports → Proto → Tables → Result Tables
allow_addr x ports proto t = do
  guard (is_loopback x) refused_loopback
  guard (is_link_local x) refused_link_local
  ok (add_rule (addr x) ports proto t)

-- `match classify_inward(v4)` in the two loops.
abbrev refuse_inward : Option Inward → Result (Unit {0})
refuse_inward none = ok tt
refuse_inward (some loopback) = err refused_loopback
refuse_inward (some link_local) = err refused_link_local
refuse_inward (some private) = err private_via_dns

abbrev refuse_inward_sni : Option Inward → Result (Unit {0})
refuse_inward_sni none = ok tt
refuse_inward_sni (some loopback) = ok tt
refuse_inward_sni (some link_local) = err refused_link_local
refuse_inward_sni (some private) = err private_via_dns

-- The loop over the addresses of a name, with `found`.
unfoldable pub allow_resolved :
    Bytes → Ports → Proto → List IpAddr → Bool → Tables → Result (Bool × Tables)
unfolding classify_inward push_host
allow_resolved host ports proto [] found t = ok (found, t)
allow_resolved host ports proto (v6 x ∷ rest) found t = allow_resolved host ports proto rest found t
allow_resolved host ports proto (v4 x ∷ rest) found t = do
  refuse_inward (classify_inward x)
  let t' = add_rule (addr x) ports proto t
  allow_resolved host ports proto rest true (record t' { hosts = push_host (host, x) t'.hosts })

abbrev lookup_port : Ports → ℕ
lookup_port (one p) = p
lookup_port (range lo hi) = lo

-- `HOST` is a DNS name.
unfoldable pub allow_name : Lookup → Bytes → Ports → Proto → Tables → Result Tables
unfolding allow_resolved contains
allow_name lookup host ports proto t = do
  guard (proto_eq proto tcp && contains ports 443) dns_name_on_443
  resolved ← require (lookup host (lookup_port ports)) unresolvable
  (found, t') ← allow_resolved host ports proto resolved false t
  guard (not found) no_address
  ok t'

abbrev allow_host : Lookup → Bytes → Option (Bytes × Bytes) → Ports → Proto → Tables → Result Tables
allow_host lookup host (some (ip_text, prefix_text)) ports proto t =
    allow_cidr ip_text prefix_text ports proto t
allow_host lookup host none ports proto t = elim (parse_ipv4 host) [
  | some x ↦ allow_addr x ports proto t
  | none ↦ allow_name lookup host ports proto t
]

-- One round of the loop over `--allow`.
unfoldable pub allow_spec : Lookup → Bytes → Tables → Result Tables
unfolding split_proto rsplit_once parse_ports split_once parse_ipv4 allow_cidr allow_addr allow_name
allow_spec lookup spec t = do
  let (host_ports, proto) = split_proto spec
  (host, ports_text) ← require (rsplit_once b':' host_ports) needs_port
  guard (is_empty host) empty_host
  ports ← parse_ports ports_text
  allow_host lookup host (split_once b'/' host) ports proto t

unfoldable pub allow_all : Lookup → List Bytes → Tables → Result Tables
unfolding allow_spec
allow_all lookup [] t = ok t
allow_all lookup (spec ∷ specs) t = do t' ← allow_spec lookup spec t; allow_all lookup specs t'

-- The loop over the addresses of an `--allow-sni` name.
unfoldable pub sni_resolved :
    Bytes → List IpAddr → List Ipv4Addr → Hosts → Result (List Ipv4Addr × Hosts)
unfolding classify_inward push_addr push_host
sni_resolved host [] addrs hosts = ok (addrs, hosts)
sni_resolved host (v6 x ∷ rest) addrs hosts = sni_resolved host rest addrs hosts
sni_resolved host (v4 x ∷ rest) addrs hosts = do
  refuse_inward_sni (classify_inward x)
  sni_resolved host rest (push_addr x addrs) (push_host (host, x) hosts)

pub record SniTables : Type 0 where
  pub sni : List SniRule
  pub hosts : Hosts

-- A name that is not yet in the list.
sni_new : Lookup → Bytes → SniTables → Result SniTables
unfolding sni_resolved
sni_new lookup host t = do
  resolved ← require (lookup host 443) unresolvable
  (addrs, hosts) ← sni_resolved host resolved [] t.hosts
  guard (is_empty addrs) no_address
  ok (record { sni = t.sni ++ record { host = host; addrs = addrs } ∷ []; hosts = hosts })

-- One round of the loop over `--allow-sni`.
unfoldable pub sni_spec : Lookup → (Bytes → Bool) → Bytes → SniTables → Result SniTables
unfolding sni_new validate_sni_host eq_bytes
sni_spec lookup is_ipv6 raw t = do
  let host = to_ascii_lowercase raw
  validate_sni_host is_ipv6 host
  if any (λ s. eq_bytes s.host host) t.sni then ok t else sni_new lookup host t

unfoldable pub sni_all : Lookup → (Bytes → Bool) → List Bytes → SniTables → Result SniTables
unfolding sni_spec
sni_all lookup is_ipv6 [] t = ok t
sni_all lookup is_ipv6 (raw ∷ raws) t = do
  t' ← sni_spec lookup is_ipv6 raw t
  sni_all lookup is_ipv6 raws t'

unfoldable pub resolve : Lookup → (Bytes → Bool) → List Bytes → List Bytes → Result EgressSpec
unfolding allow_all sni_all
resolve lookup is_ipv6 allow allow_sni = do
  t ← allow_all lookup allow (record { rules = []; hosts = [] })
  s ← sni_all lookup is_ipv6 allow_sni (record { sni = []; hosts = t.hosts })
  ok (record { rules = t.rules; hosts = s.hosts; sni = s.sni })
