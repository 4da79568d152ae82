-- ===== src/Egress/Resolve/Names.antt =====
-- src/egress.rs, `EgressSpec::resolve`: the names of `--allow-sni` and the addresses pinned for them.
use basta.Prelude.{
  ◌≡◌, refl, ap, subst, Bool, true, false, not, ◌||◌, Option, none, some, List, [], ◌∷◌, ◌++◌,
  arith, if◌then◌else◌, is_empty, any, All, All-append_intro, Bytes, eq_bytes, to_ascii_lowercase,
  guard, >>=-eq-ok, require, ok-injective, guard-eq-ok,
}
use basta.Prelude.{ok, unresolvable, no_address, sni_is_address, sni_not_dns_name}
use basta.ClientHello.DnsName.{is_dns_name}
use basta.Egress.Addr.{Ipv4Addr, is_link_local, is_private, is_cgnat, classify_inward}
use basta.Egress.Spec.{EgressSpec, SniRule}
use basta.Egress.Parse.{validate_sni_host, parse_ipv4, is_some}
use basta.Egress.Resolve.{
  IpAddr, v4, v6, Lookup, Hosts, refuse_inward_sni, resolve, push_addr, sni_resolved, SniTables,
  sni_new, sni_spec, sni_all, allow_all,
}

-- An address outside the link-local, private and carrier-grade blocks.
abbrev pub IsPinnable : Ipv4Addr → Type 0
IsPinnable x = (is_link_local x ≡ false) × (is_private x ≡ false) × (is_cgnat x ≡ false)

refuse_inward_sni-IsPinnable :
    (x : Ipv4Addr) {u : Unit {0}} → refuse_inward_sni (classify_inward x) ≡ ok u → IsPinnable x
unfolding classify_inward
refuse_inward_sni-IsPinnable x h = ground (arith, h)

push_addr-All :
    (x : Ipv4Addr) (xs : List Ipv4Addr)
    → IsPinnable x
    → All IsPinnable xs
    → All IsPinnable (push_addr x xs)
unfolding push_addr
push_addr-All x xs h a = go _
  where
    go : (b : Bool) → All IsPinnable (if b then xs else xs ++ x ∷ [])
    go true = a
    go false = All-append_intro IsPinnable xs (x ∷ []) a (h, tt)

sni_resolved-All :
    (host : Bytes) (ips : List IpAddr) (xs ys : List Ipv4Addr) (hosts hosts' : Hosts)
    → All IsPinnable xs
    → sni_resolved host ips xs hosts ≡ ok (ys, hosts')
    → All IsPinnable ys
unfolding sni_resolved
sni_resolved-All host [] xs ys hosts hosts' a h =
    subst (All IsPinnable) (ap (λ p. p.0) (ok-injective h)) a
sni_resolved-All host (v6 x ∷ ips) xs ys hosts hosts' a h =
    sni_resolved-All host ips xs ys hosts hosts' a h
sni_resolved-All host (v4 x ∷ ips) xs ys hosts hosts' a h =
    let (_, g, h1) = >>=-eq-ok (refuse_inward_sni (classify_inward x)) _ h in
    sni_resolved-All host ips (push_addr x xs) ys _ hosts'
      (push_addr-All x xs (refuse_inward_sni-IsPinnable x g) a) h1

-- What holds of a name with its pinned addresses.
abbrev pub IsPinned : SniRule → Type 0
IsPinned s =
    (is_dns_name s.host ≡ true)
    × (parse_ipv4 s.host ≡ none)
    × (is_empty s.addrs ≡ false)
    × All IsPinnable s.addrs

-- No two of the names are the same.
abbrev pub IsDistinct : List SniRule → Type 0
IsDistinct [] = Unit
IsDistinct (s ∷ ss) = (any (λ r. eq_bytes r.host s.host) ss ≡ false) × IsDistinct ss

any_append :
    (host : Bytes) (ss : List SniRule) (s : SniRule)
    → any (λ r. eq_bytes r.host host) (ss ++ s ∷ [])
      ≡ (any (λ r. eq_bytes r.host host) ss || eq_bytes s.host host)
any_append host [] s = ground arith
any_append host (r ∷ ss) s = ground (arith, any_append host ss s)

pub eq_bytes_sym : (a b : Bytes) → eq_bytes a b ≡ false → eq_bytes b a ≡ false
unfolding eq_bytes
eq_bytes_sym [] [] h = h
eq_bytes_sym [] (y ∷ b) h = refl
eq_bytes_sym (x ∷ a) [] h = refl
eq_bytes_sym (x ∷ a) (y ∷ b) h = ground (arith, eq_bytes_sym a b)

IsDistinct-snoc :
    (ss : List SniRule) (s : SniRule)
    → any (λ r. eq_bytes r.host s.host) ss ≡ false
    → IsDistinct ss
    → IsDistinct (ss ++ s ∷ [])
IsDistinct-snoc [] s h d = (refl, tt)
IsDistinct-snoc (r ∷ ss) s h d = (
  ground (arith, any_append r.host ss s, eq_bytes_sym r.host s.host, d.0, h),
  IsDistinct-snoc ss s (ground (arith, h)) d.1,
)

abbrev IsNames : SniTables → Type 0
IsNames t = All IsPinned t.sni × IsDistinct t.sni

sni_new-IsNames :
    (lookup : Lookup) (host : Bytes) (t t' : SniTables)
    → is_dns_name host ≡ true
    → parse_ipv4 host ≡ none
    → any (λ s. eq_bytes s.host host) t.sni ≡ false
    → IsNames t
    → sni_new lookup host t ≡ ok t'
    → IsNames t'
unfolding sni_new
sni_new-IsNames lookup host t t' dns noip new (a, d) h =
    let (ips, _, h1) = >>=-eq-ok (require (lookup host 443) unresolvable) _ h in
    let ((xs, hosts), e, h2) = >>=-eq-ok (sni_resolved host ips [] t.hosts) _ h1 in
    let (_, g, h3) = >>=-eq-ok (guard (is_empty xs) no_address) _ h2 in
    let some_addr = guard-eq-ok (is_empty xs) no_address g in
    let s : SniRule = record { host = host; addrs = xs } in
    let pinned : IsPinned s =
      (dns, noip, some_addr, sni_resolved-All host ips [] xs t.hosts hosts tt e) in
    subst IsNames (ok-injective h3)
      (All-append_intro IsPinned t.sni (s ∷ []) a (pinned, tt), IsDistinct-snoc t.sni s new d)

validate-inv :
    (is_ipv6 : Bytes → Bool) (host : Bytes) {u : Unit {0}}
    → validate_sni_host is_ipv6 host ≡ ok u
    → (is_dns_name host ≡ true) × (parse_ipv4 host ≡ none)
unfolding validate_sni_host
validate-inv is_ipv6 host h =
    let (_, g, h1) =
      >>=-eq-ok (guard (is_some (parse_ipv4 host) || is_ipv6 host) sni_is_address) _ h in
    let (_, g', _) = >>=-eq-ok (guard (not (is_dns_name host)) sni_not_dns_name) _ h1 in
    let a = guard-eq-ok (is_some (parse_ipv4 host) || is_ipv6 host) sni_is_address g in
    let b = guard-eq-ok (not (is_dns_name host)) sni_not_dns_name g' in
    (ground (arith, b), nothing (parse_ipv4 host) a)
  where
    nothing : (o : Option Ipv4Addr) → (is_some o || is_ipv6 host) ≡ false → o ≡ none
    nothing none e = refl
    nothing (some x) e = cc

sni_spec-IsNames :
    (lookup : Lookup) (is_ipv6 : Bytes → Bool) (raw : Bytes) (t t' : SniTables)
    → IsNames t
    → sni_spec lookup is_ipv6 raw t ≡ ok t'
    → IsNames t'
unfolding sni_spec
sni_spec-IsNames lookup is_ipv6 raw t t' is h =
    let host = to_ascii_lowercase raw in
    let (_, v, h1) = >>=-eq-ok (validate_sni_host is_ipv6 host) _ h in
    let (dns, noip) = validate-inv is_ipv6 host v in
    go host dns noip (any (λ s. eq_bytes s.host host) t.sni) refl h1
  where
    go :
        (host : Bytes)
        → is_dns_name host ≡ true
        → parse_ipv4 host ≡ none
        → (b : Bool) → any (λ s. eq_bytes s.host host) t.sni ≡ b
        → (if b then ok t else sni_new lookup host t) ≡ ok t'
        → IsNames t'
    go host dns noip true e k = subst IsNames (ok-injective k) is
    go host dns noip false e k = sni_new-IsNames lookup host t t' dns noip e is k

sni_all-IsNames :
    (lookup : Lookup) (is_ipv6 : Bytes → Bool) (raws : List Bytes) (t t' : SniTables)
    → IsNames t
    → sni_all lookup is_ipv6 raws t ≡ ok t'
    → IsNames t'
unfolding sni_all
sni_all-IsNames lookup is_ipv6 [] t t' is h = subst IsNames (ok-injective h) is
sni_all-IsNames lookup is_ipv6 (raw ∷ raws) t t' is h =
    let (t1, e, h1) = >>=-eq-ok (sni_spec lookup is_ipv6 raw t) _ h in
    sni_all-IsNames lookup is_ipv6 raws t1 t' (sni_spec-IsNames lookup is_ipv6 raw t t1 is e) h1

-- Whatever the resolver answers, each `--allow-sni` entry of an accepted policy is a DNS name and not
-- an IPv4 address, it has an address, all its addresses are outside the link-local, private and
-- carrier-grade blocks, and no name is there twice.
pub resolve-IsPinned :
    (lookup : Lookup) (is_ipv6 : Bytes → Bool) (allow allow_sni : List Bytes) (s : EgressSpec)
    → resolve lookup is_ipv6 allow allow_sni ≡ ok s
    → All IsPinned s.sni × IsDistinct s.sni
unfolding resolve
resolve-IsPinned lookup is_ipv6 allow allow_sni s h =
    let (t, _, h1) = >>=-eq-ok (allow_all lookup allow (record { rules = []; hosts = [] })) _ h in
    let (u, e, h2) =
      >>=-eq-ok (sni_all lookup is_ipv6 allow_sni (record { sni = []; hosts = t.hosts })) _ h1 in
    subst (λ x. All IsPinned x.sni × IsDistinct x.sni) (ok-injective h2)
      (sni_all-IsNames lookup is_ipv6 allow_sni (record { sni = []; hosts = t.hosts }) u (tt, tt) e)
