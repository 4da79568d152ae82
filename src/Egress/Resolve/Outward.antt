-- ===== src/Egress/Resolve/Outward.antt =====
-- src/egress.rs, `EgressSpec::resolve`: the destinations and ports of the `--allow` rules.
use basta.Prelude.{
  ◌≤◌, ◌<◌, ◌≡◌, ap, subst, Bool, true, false, not, ◌&&◌, ◌||◌, Option, none, some, List, [], ◌∷◌,
  ◌++◌, arith, ltb, ◌==◌, if◌then◌else◌, is_empty, All, All-append_intro, Bytes, guard, >>=-eq-ok,
  require, split_once, rsplit_once, ok-injective, guard-eq-ok,
}
use basta.Prelude.{
  ok, refused_loopback, refused_link_local, bad_cidr_address, bad_cidr_prefix, prefix_over_32,
  needs_port, empty_host, dns_name_on_443, unresolvable, no_address, bad_port, bad_port_start,
  bad_port_end, zero_port, reversed_range,
}
use basta.Egress.Addr.{
  Ipv4Addr, is_loopback, is_link_local, is_private, is_cgnat, classify_inward, cidr_overlaps,
}
use basta.Egress.Spec.{
  Dest, addr, cidr, Ports, one, range, Proto, tcp, proto_eq, contains, AllowRule, EgressSpec,
  push_rule,
}
use basta.Egress.Parse.{
  parse_ports, parse_range, parse_one, parse_ipv4, parse_u16, parse_u8, split_proto,
}
use basta.Egress.Resolve.{
  IpAddr, v4, v6, Lookup, Tables, add_rule, loopback_net, link_local_net, allow_cidr, allow_addr,
  allow_resolved, allow_name, allow_spec, allow_all, refuse_inward, allow_host, lookup_port,
  resolve, sni_all,
}

-- A destination outside 127.0.0.0/8 and 169.254.0.0/16.
abbrev pub IsOutward : Dest → Type 0
IsOutward (addr x) = (is_loopback x ≡ false) × (is_link_local x ≡ false)
IsOutward (cidr x p) =
    (p ≤ 32)
    × (cidr_overlaps x p loopback_net 8 ≡ false)
    × (cidr_overlaps x p link_local_net 16 ≡ false)

-- No port 0, and no empty range.
abbrev pub IsPorts : Ports → Type 0
IsPorts (one p) = 0 < p
IsPorts (range lo hi) = (0 < lo) × (lo ≤ hi)

abbrev pub IsRule : AllowRule → Type 0
IsRule r = IsOutward r.dest × IsPorts r.ports

push_rule-All :
    (r : AllowRule) (rs : List AllowRule) → IsRule r → All IsRule rs → All IsRule (push_rule r rs)
unfolding push_rule
push_rule-All r rs h a = go _
  where
    go : (b : Bool) → All IsRule (if b then rs else rs ++ r ∷ [])
    go true = a
    go false = All-append_intro IsRule rs (r ∷ []) a (h, tt)

parse_range-IsPorts : (a b : Bytes) (ports : Ports) → parse_range a b ≡ ok ports → IsPorts ports
unfolding parse_range
parse_range-IsPorts a b ports h =
    let (lo, _, h1) = >>=-eq-ok (require (parse_u16 a) bad_port_start) _ h in
    let (hi, _, h2) = >>=-eq-ok (require (parse_u16 b) bad_port_end) _ h1 in
    let (u, g, h3) = >>=-eq-ok (guard (lo == 0 || hi == 0) zero_port) _ h2 in
    let (v, g', h4) = >>=-eq-ok (guard (ltb hi lo) reversed_range) _ h3 in
    let nz = guard-eq-ok (lo == 0 || hi == 0) zero_port g in
    let le = guard-eq-ok (ltb hi lo) reversed_range g' in
    let fits : IsPorts (range lo hi) = (ground (arith, nz), ground (arith, le)) in
    subst IsPorts (ok-injective h4) fits

parse_one-IsPorts : (a : Bytes) (ports : Ports) → parse_one a ≡ ok ports → IsPorts ports
unfolding parse_one
parse_one-IsPorts a ports h =
    let (p, _, h1) = >>=-eq-ok (require (parse_u16 a) bad_port) _ h in
    let (u, g, h2) = >>=-eq-ok (guard (p == 0) zero_port) _ h1 in
    let nz = guard-eq-ok (p == 0) zero_port g in
    let fits : IsPorts (one p) = ground (arith, nz) in subst IsPorts (ok-injective h2) fits

pub parse_ports-IsPorts : (a : Bytes) (ports : Ports) → parse_ports a ≡ ok ports → IsPorts ports
unfolding parse_ports
parse_ports-IsPorts a ports h = go (split_once b'-' a) h
  where
    go :
        (o : Option (Bytes × Bytes))
        → elim o [ some (lo, hi) ↦ parse_range lo hi | none ↦ parse_one a ] ≡ ok ports
        → IsPorts ports
    go none h = parse_one-IsPorts a ports h
    go (some (lo, hi)) h = parse_range-IsPorts lo hi ports h

abbrev IsTables : Tables → Type 0
IsTables t = All IsRule t.rules

add_rule-IsTables :
    (d : Dest) (ports : Ports) (proto : Proto) (t : Tables)
    → IsOutward d
    → IsPorts ports
    → IsTables t
    → IsTables (add_rule d ports proto t)
add_rule-IsTables d ports proto t out ps is = push_rule-All _ t.rules (out, ps) is

allow_cidr-IsTables :
    (a b : Bytes) (ports : Ports) (proto : Proto) (t t' : Tables)
    → IsPorts ports
    → IsTables t
    → allow_cidr a b ports proto t ≡ ok t'
    → IsTables t'
unfolding allow_cidr
allow_cidr-IsTables a b ports proto t t' ps is h =
    let (x, _, h1) = >>=-eq-ok (require (parse_ipv4 a) bad_cidr_address) _ h in
    let (p, _, h2) = >>=-eq-ok (require (parse_u8 b) bad_cidr_prefix) _ h1 in
    let (_, g, h3) = >>=-eq-ok (guard (ltb 32 p) prefix_over_32) _ h2 in
    let (_, g1, h4) = >>=-eq-ok (guard (cidr_overlaps x p loopback_net 8) refused_loopback) _ h3 in
    let (_, g2, h5) =
      >>=-eq-ok (guard (cidr_overlaps x p link_local_net 16) refused_link_local) _ h4 in
    let small = guard-eq-ok (ltb 32 p) prefix_over_32 g in
    let out : IsOutward (cidr x p) = (
      ground (arith, small),
      guard-eq-ok (cidr_overlaps x p loopback_net 8) refused_loopback g1,
      guard-eq-ok (cidr_overlaps x p link_local_net 16) refused_link_local g2,
    ) in
    subst IsTables (ok-injective h5) (add_rule-IsTables (cidr x p) ports proto t out ps is)

allow_addr-IsTables :
    (x : Ipv4Addr) (ports : Ports) (proto : Proto) (t t' : Tables)
    → IsPorts ports
    → IsTables t
    → allow_addr x ports proto t ≡ ok t'
    → IsTables t'
unfolding allow_addr
allow_addr-IsTables x ports proto t t' ps is h =
    let (_, g1, h1) = >>=-eq-ok (guard (is_loopback x) refused_loopback) _ h in
    let (_, g2, h2) = >>=-eq-ok (guard (is_link_local x) refused_link_local) _ h1 in
    let out : IsOutward (addr x) = (
      guard-eq-ok (is_loopback x) refused_loopback g1,
      guard-eq-ok (is_link_local x) refused_link_local g2,
    ) in
    subst IsTables (ok-injective h2) (add_rule-IsTables (addr x) ports proto t out ps is)

-- An address that a name may resolve to.
abbrev pub IsPublic : Ipv4Addr → Type 0
IsPublic x =
    (is_loopback x ≡ false)
    × (is_link_local x ≡ false)
    × (is_private x ≡ false)
    × (is_cgnat x ≡ false)

refuse_inward-IsPublic :
    (x : Ipv4Addr) {u : Unit {0}} → refuse_inward (classify_inward x) ≡ ok u → IsPublic x
unfolding classify_inward
refuse_inward-IsPublic x h = ground (arith, h)

allow_resolved-IsTables :
    (host : Bytes) (ports : Ports) (proto : Proto) (ips : List IpAddr) (found : Bool)
    (t t' : Tables) (found' : Bool)
    → IsPorts ports
    → IsTables t
    → allow_resolved host ports proto ips found t ≡ ok (found', t')
    → IsTables t'
unfolding allow_resolved
allow_resolved-IsTables host ports proto [] found t t' found' ps is h =
    subst IsTables (ap (λ p. p.1) (ok-injective h)) is
allow_resolved-IsTables host ports proto (v6 x ∷ ips) found t t' found' ps is h =
    allow_resolved-IsTables host ports proto ips found t t' found' ps is h
allow_resolved-IsTables host ports proto (v4 x ∷ ips) found t t' found' ps is h =
    let (_, g, h1) = >>=-eq-ok (refuse_inward (classify_inward x)) _ h in
    let (lo, ll, _, _) = refuse_inward-IsPublic x g in
    allow_resolved-IsTables host ports proto ips true _ t' found' ps
      (add_rule-IsTables (addr x) ports proto t (lo, ll) ps is) h1

allow_name-IsTables :
    (lookup : Lookup) (host : Bytes) (ports : Ports) (proto : Proto) (t t' : Tables)
    → IsPorts ports
    → IsTables t
    → allow_name lookup host ports proto t ≡ ok t'
    → IsTables t'
unfolding allow_name
allow_name-IsTables lookup host ports proto t t' ps is h =
    let (_, _, h1) =
      >>=-eq-ok (guard (proto_eq proto tcp && contains ports 443) dns_name_on_443) _ h in
    let (ips, _, h2) = >>=-eq-ok (require (lookup host (lookup_port ports)) unresolvable) _ h1 in
    let ((found, t1), e, h3) = >>=-eq-ok (allow_resolved host ports proto ips false t) _ h2 in
    let (_, _, h4) = >>=-eq-ok (guard (not found) no_address) _ h3 in
    subst IsTables (ok-injective h4)
      (allow_resolved-IsTables host ports proto ips false t t1 found ps is e)

allow_host-IsTables :
    (lookup : Lookup) (host : Bytes) (o : Option (Bytes × Bytes)) (ports : Ports) (proto : Proto)
    (t t' : Tables)
    → IsPorts ports
    → IsTables t
    → allow_host lookup host o ports proto t ≡ ok t'
    → IsTables t'
allow_host-IsTables lookup host (some (a, b)) ports proto t t' ps is h =
    allow_cidr-IsTables a b ports proto t t' ps is h
allow_host-IsTables lookup host none ports proto t t' ps is h = go (parse_ipv4 host) h
  where
    go :
        (o : Option Ipv4Addr)
        → elim o [
          | some x ↦ allow_addr x ports proto t
          | none ↦ allow_name lookup host ports proto t
        ]
          ≡ ok t'
        → IsTables t'
    go none h = allow_name-IsTables lookup host ports proto t t' ps is h
    go (some x) h = allow_addr-IsTables x ports proto t t' ps is h

allow_spec-IsTables :
    (lookup : Lookup) (spec : Bytes) (t t' : Tables)
    → IsTables t
    → allow_spec lookup spec t ≡ ok t'
    → IsTables t'
unfolding allow_spec
allow_spec-IsTables lookup spec t t' is h =
    let (host_ports, proto) = split_proto spec in
    let ((host, ports_text), _, h1) =
      >>=-eq-ok (require (rsplit_once b':' host_ports) needs_port) _ h in
    let (_, _, h2) = >>=-eq-ok (guard (is_empty host) empty_host) _ h1 in
    let (ports, e, h3) = >>=-eq-ok (parse_ports ports_text) _ h2 in
    allow_host-IsTables lookup host (split_once b'/' host) ports proto t t'
      (parse_ports-IsPorts ports_text ports e) is h3

allow_all-IsTables :
    (lookup : Lookup) (specs : List Bytes) (t t' : Tables)
    → IsTables t
    → allow_all lookup specs t ≡ ok t'
    → IsTables t'
unfolding allow_all
allow_all-IsTables lookup [] t t' is h = subst IsTables (ok-injective h) is
allow_all-IsTables lookup (spec ∷ specs) t t' is h =
    let (t1, e, h1) = >>=-eq-ok (allow_spec lookup spec t) _ h in
    allow_all-IsTables lookup specs t1 t' (allow_spec-IsTables lookup spec t t1 is e) h1

-- Whatever the resolver answers, every `--allow` rule of an accepted policy keeps out of 127.0.0.0/8
-- and 169.254.0.0/16, as an address and as a CIDR block, and its ports are not 0 and in order.
pub resolve-IsRule :
    (lookup : Lookup) (is_ipv6 : Bytes → Bool) (allow allow_sni : List Bytes) (s : EgressSpec)
    → resolve lookup is_ipv6 allow allow_sni ≡ ok s
    → All IsRule s.rules
unfolding resolve
resolve-IsRule lookup is_ipv6 allow allow_sni s h =
    let (t, e, h1) = >>=-eq-ok (allow_all lookup allow (record { rules = []; hosts = [] })) _ h in
    let (u, _, h2) =
      >>=-eq-ok (sni_all lookup is_ipv6 allow_sni (record { sni = []; hosts = t.hosts })) _ h1 in
    subst (λ x. All IsRule x.rules) (ok-injective h2)
      (allow_all-IsTables lookup allow (record { rules = []; hosts = [] }) t tt e)
