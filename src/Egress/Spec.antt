-- ===== src/Egress/Spec.antt =====
-- src/egress.rs: the data of a policy, and its queries.
use basta.Prelude.{
  ℕ, Bool, true, false, not, ◌&&◌, Option, none, some, List, [], ◌∷◌, ◌++◌, leb, ◌==◌,
  if◌then◌else◌, is_empty, any, Bytes,
}
use basta.Egress.Addr.{Ipv4Addr, addr_eq}

abbrev pub proxy_mark : ℕ
proxy_mark = 0x62777801

abbrev pub proxy_port : ℕ
proxy_port = 47999

pub data Proto : Type 0 where
  tcp udp : Proto

abbrev pub proto_eq : Proto → Proto → Bool
proto_eq tcp tcp = true
proto_eq tcp udp = false
proto_eq udp tcp = false
proto_eq udp udp = true

pub data Ports : Type 0 where
  one : ℕ → Ports
  range : ℕ → ℕ → Ports

abbrev pub ports_eq : Ports → Ports → Bool
ports_eq (one p) (one q) = p == q
ports_eq (one p) (range lo hi) = false
ports_eq (range lo hi) (one q) = false
ports_eq (range lo hi) (range lo' hi') = lo == lo' && hi == hi'

-- `Ports::contains`.
unfoldable pub contains : Ports → ℕ → Bool
contains (one p) port = p == port
contains (range lo hi) port = leb lo port && leb port hi

pub data Dest : Type 0 where
  addr : Ipv4Addr → Dest
  cidr : Ipv4Addr → ℕ → Dest

abbrev pub dest_eq : Dest → Dest → Bool
dest_eq (addr x) (addr y) = addr_eq x y
dest_eq (addr x) (cidr y p) = false
dest_eq (cidr x p) (addr y) = false
dest_eq (cidr x p) (cidr y q) = addr_eq x y && p == q

pub record AllowRule : Type 0 where
  pub dest : Dest
  pub ports : Ports
  pub proto : Proto

-- The derived `PartialEq`.
unfoldable pub rule_eq : AllowRule → AllowRule → Bool
rule_eq r s = dest_eq r.dest s.dest && ports_eq r.ports s.ports && proto_eq r.proto s.proto

pub record SniRule : Type 0 where
  pub host : Bytes
  pub addrs : List Ipv4Addr

pub record EgressSpec : Type 0 where
  pub rules : List AllowRule
  pub hosts : List (Bytes × Ipv4Addr)
  pub sni : List SniRule

unfoldable pub sni_enabled : EgressSpec → Bool
sni_enabled s = not (is_empty s.sni)

unfoldable pub has_tcp443_rule : EgressSpec → Bool
unfolding contains
has_tcp443_rule s = any (λ r. proto_eq r.proto tcp && contains r.ports 443) s.rules

unfoldable pub has_udp_rule : EgressSpec → Bool
has_udp_rule s = any (λ r. proto_eq r.proto udp) s.rules

abbrev resolver_dest : Dest → Bool → Option Ipv4Addr
resolver_dest (addr x) fits = if fits then some x else none
resolver_dest (cidr x p) fits = none

abbrev or_else {ℓ} : {A : Type ℓ} → Option A → Option A → Option A
or_else (some a) later = some a
or_else none later = later

-- `find_map` over the rules.
find_resolver : List AllowRule → Option Ipv4Addr
unfolding contains
find_resolver [] = none
find_resolver (r ∷ rs) =
    or_else (resolver_dest r.dest (proto_eq r.proto udp && contains r.ports 53)) (find_resolver rs)

unfoldable pub resolver : EgressSpec → Option Ipv4Addr
unfolding find_resolver
resolver s = find_resolver s.rules

unfoldable pub push_rule : AllowRule → List AllowRule → List AllowRule
unfolding rule_eq
push_rule rule rules = if any (λ r. rule_eq r rule) rules then rules else rules ++ rule ∷ []
