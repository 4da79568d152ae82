-- ===== src/Tests/Policy.antt =====
-- src/egress.rs and src/seccomp.rs on small policies.
use basta.Prelude.{
  ℕ, ◌≡◌, refl, ◌↔◌, Bool, true, false, not, ◌&&◌, ◌||◌, some, List, [], ◌∷◌, arith, length, any,
  All, Bytes, codes, eq_bytes, contains_bytes,
}
use basta.Prelude.{ok, err, refused_link_local, private_via_dns, unknown_syscall, reversed_range}
use basta.Egress.Addr.{Ipv4Addr, IsAddr, cidr_overlaps}
use basta.Egress.Addr.Blocks.{InBlock, cidr_overlaps_exact}
use basta.Egress.Spec.{
  Dest, addr, cidr, Ports, one, range, Proto, tcp, udp, AllowRule, SniRule, EgressSpec,
}
use basta.Egress.Parse.{parse_ports}
use basta.Egress.Resolve.{v4, Lookup, resolve}
use basta.Egress.Resolve.Outward.{IsRule, resolve-IsRule}
use basta.Egress.Resolve.Names.{IsPinned, IsDistinct, resolve-IsPinned}
use basta.Egress.Render.{upstream_addrs}
use basta.Egress.Render.Upstream.{among, upstream_addrs_exact}
use basta.Seccomp.{
  Sys, SeccompRule, arg0_eq, known_names, default_denylist, effective_denylist, program_rules, x32,
}
use basta.Seccomp.Numbers.{has, IsSorted, map_get}
use basta.Seccomp.Denylist.{numbered, effective_denylist_exact, effective_denylist_total}
use basta.Seccomp.Twins.{IsNative, expected, program_rules_exact}

abbrev pub public_addr : Ipv4Addr
public_addr = record { a = 93; b = 184; c = 216; d = 34 }

abbrev pub ten : Ipv4Addr
ten = record { a = 10; b = 0; c = 0; d = 0 }

abbrev pub lookup : Lookup
lookup host port = some (v4 public_addr ∷ v4 public_addr ∷ [])

abbrev inward_lookup : Lookup
inward_lookup host port = some (v4 public_addr ∷ v4 ten ∷ [])

abbrev pub not_ipv6 : Bytes → Bool
not_ipv6 s = false

abbrev pub allow : List Bytes
allow = codes "10.0.0.0/8:80-90" ∷ codes "git.io:22" ∷ []

abbrev pub allow_sni : List Bytes
allow_sni = codes "A.io" ∷ codes "a.io" ∷ []

abbrev pub policy : EgressSpec
policy = record {
  rules =
      record { dest = cidr ten 8; ports = range 80 90; proto = tcp }
      ∷ record { dest = addr public_addr; ports = one 22; proto = tcp }
      ∷ [];
  hosts = (codes "git.io", public_addr) ∷ (codes "a.io", public_addr) ∷ [];
  sni = record { host = codes "a.io"; addrs = public_addr ∷ [] } ∷ [];
}

pub resolve_run : resolve lookup not_ipv6 allow allow_sni ≡ ok policy
unfolding resolve cidr_overlaps basta.Egress.Spec.push_rule
resolve_run = refl

-- A name that resolves to a private address, and the block of the metadata service.
resolve_inward : resolve inward_lookup not_ipv6 [] allow_sni ≡ err private_via_dns
unfolding resolve
resolve_inward = refl

resolve_metadata : resolve lookup not_ipv6 (codes "169.0.0.0/8:80" ∷ []) [] ≡ err refused_link_local
unfolding resolve cidr_overlaps
resolve_metadata = refl

ports_reversed : parse_ports (codes "9-3") ≡ err reversed_range
unfolding parse_ports
ports_reversed = refl

resolve-IsRule_example : All IsRule policy.rules
resolve-IsRule_example = resolve-IsRule lookup not_ipv6 allow allow_sni policy resolve_run

resolve-IsPinned_example : All IsPinned policy.sni × IsDistinct policy.sni
resolve-IsPinned_example = resolve-IsPinned lookup not_ipv6 allow allow_sni policy resolve_run

ten-IsAddr : IsAddr ten
ten-IsAddr = record {
  a_byte = ground arith;
  b_byte = ground arith;
  c_byte = ground arith;
  d_byte = ground arith;
}

pub public-IsAddr : IsAddr public_addr
public-IsAddr = record {
  a_byte = ground arith;
  b_byte = ground arith;
  c_byte = ground arith;
  d_byte = ground arith;
}

cidr_overlaps_exact_example :
    (cidr_overlaps ten 8 public_addr 32 ≡ true)
    ↔ ((a : ℕ) × InBlock a ten 8 × InBlock a public_addr 32)
cidr_overlaps_exact_example =
    cidr_overlaps_exact ten 8 public_addr 32 ten-IsAddr (omega arith) public-IsAddr (omega arith)

-- A table of numbers that gives some names the same one.
abbrev sys : Sys
sys = length

abbrev deny : List Bytes
deny = codes "get_mempolicy" ∷ []

abbrev allowed : List Bytes
allowed = codes "bpf" ∷ []

abbrev denied : List ℕ
denied = 4 ∷ 5 ∷ 6 ∷ 7 ∷ 8 ∷ 9 ∷ 10 ∷ 11 ∷ 12 ∷ 13 ∷ 14 ∷ 15 ∷ 17 ∷ []

denylist_run : effective_denylist sys deny allowed ≡ ok denied
unfolding effective_denylist basta.Seccomp.insert_all default_denylist basta.Seccomp.resolve_name
    basta.Seccomp.remove_all
denylist_run = refl

denylist_unknown : effective_denylist sys (codes "read" ∷ []) [] ≡ err unknown_syscall
unfolding effective_denylist basta.Seccomp.insert_all default_denylist basta.Seccomp.resolve_name
denylist_unknown = refl

effective_denylist_exact_example :
    IsSorted denied
    × ((k : ℕ)
        → has k denied ≡ (
            not (numbered sys allowed k)
            && (numbered sys deny k || numbered sys default_denylist k)))
effective_denylist_exact_example = effective_denylist_exact sys deny allowed denied denylist_run

deny_known : contains_bytes known_names (codes "get_mempolicy") ≡ true
unfolding known_names eq_bytes
deny_known = refl

allowed_known : contains_bytes known_names (codes "bpf") ≡ true
unfolding known_names eq_bytes
allowed_known = refl

effective_denylist_total_example : (out : List ℕ) × (effective_denylist sys deny allowed ≡ ok out)
effective_denylist_total_example =
    effective_denylist_total sys deny allowed (deny_known, tt) (allowed_known, tt)

few-IsNative : All IsNative (165 ∷ 321 ∷ [])
few-IsNative = (omega arith, (omega arith, tt))

program_rules_exact_example :
    (map_get 41 (program_rules 41 38 (165 ∷ 321 ∷ [])) ≡ expected 41 38 (165 ∷ 321 ∷ []) 41)
    × (map_get (x32 41) (program_rules 41 38 (165 ∷ 321 ∷ [])) ≡ expected 41 38 (165 ∷ 321 ∷ []) 41)
program_rules_exact_example =
    program_rules_exact 41 38 (165 ∷ 321 ∷ []) 41 few-IsNative (omega arith) (omega arith)

upstream_addrs_exact_example :
    among public_addr (upstream_addrs policy) ≡ any (λ r. among public_addr r.addrs) policy.sni
upstream_addrs_exact_example = upstream_addrs_exact policy public_addr
