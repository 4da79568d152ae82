-- ===== src/Egress/Resolve/Octets.antt =====
-- src/egress.rs, `EgressSpec::resolve`: the case of the names of `--allow-sni`, and the octets of their
-- addresses.
use basta.Prelude.{
  ℕ, ◌≡◌, refl, ap, ◌∙◌, subst, Bool, true, false, some, List, [], ◌∷◌, ◌++◌, arith, if◌then◌else◌,
  is_empty, any, All, All-append_intro, Bytes, eq_bytes, lower_byte, to_ascii_lowercase, guard,
  >>=-eq-ok, require, ok-injective, require-eq-ok,
}
use basta.Prelude.{ok, unresolvable, no_address}
use basta.Egress.Addr.{Ipv4Addr, IsAddr, addr_eq, classify_inward}
use basta.Egress.Spec.{EgressSpec, SniRule}
use basta.Egress.Parse.{validate_sni_host}
use basta.Egress.Resolve.{
  IpAddr, v4, v6, Lookup, Hosts, refuse_inward_sni, resolve, push_addr, sni_resolved, SniTables,
  sni_new, sni_spec, sni_all, allow_all,
}

-- An answer of the system resolver has four octets, as the type of the source says.
abbrev pub IsIp : IpAddr → Type 0
IsIp (v4 x) = IsAddr x
IsIp (v6 x) = Unit

abbrev pub IsLookup : Lookup → Type 0
IsLookup lookup =
    (host : Bytes) (port : ℕ) (ips : List IpAddr) → lookup host port ≡ some ips → All IsIp ips

-- A name in lower case, with addresses of four octets.
abbrev pub IsLowered : SniRule → Type 0
IsLowered r = (to_ascii_lowercase r.host ≡ r.host) × All IsAddr r.addrs

lower_twice : (c : ℕ) → lower_byte (lower_byte c) ≡ lower_byte c
lower_twice c = ground arith

pub to_ascii_lowercase_twice :
    (s : Bytes) → to_ascii_lowercase (to_ascii_lowercase s) ≡ to_ascii_lowercase s
to_ascii_lowercase_twice [] = refl
to_ascii_lowercase_twice (c ∷ s) =
    ap (λ d. d ∷ to_ascii_lowercase (to_ascii_lowercase s)) (lower_twice c)
    ∙ ap (λ t. lower_byte c ∷ t) (to_ascii_lowercase_twice s)

sni_resolved-octets :
    (host : Bytes) (ips : List IpAddr) (xs ys : List Ipv4Addr) (hosts hosts' : Hosts)
    → All IsIp ips
    → All IsAddr xs
    → sni_resolved host ips xs hosts ≡ ok (ys, hosts')
    → All IsAddr ys
unfolding sni_resolved push_addr
sni_resolved-octets host [] xs ys hosts hosts' i a h =
    subst (All IsAddr) (ap (λ p. p.0) (ok-injective h)) a
sni_resolved-octets host (v6 x ∷ ips) xs ys hosts hosts' i a h =
    sni_resolved-octets host ips xs ys hosts hosts' i.1 a h
sni_resolved-octets host (v4 x ∷ ips) xs ys hosts hosts' i a h =
    let (_, g, h1) = >>=-eq-ok (refuse_inward_sni (classify_inward x)) _ h in
    sni_resolved-octets host ips (push_addr x xs) ys _ hosts' i.1
      (pushed (any (λ y. addr_eq y x) xs)) h1
  where
    pushed : (b : Bool) → All IsAddr (if b then xs else xs ++ x ∷ [])
    pushed true = a
    pushed false = All-append_intro IsAddr xs (x ∷ []) a (i.0, tt)

module _ (lookup : Lookup) (is_ipv6 : Bytes → Bool) (octets : IsLookup lookup) where
  sni_new-IsLowered :
      (host : Bytes) (t t' : SniTables)
      → to_ascii_lowercase host ≡ host
      → All IsLowered t.sni
      → sni_new lookup host t ≡ ok t'
      → All IsLowered t'.sni
  unfolding sni_new
  sni_new-IsLowered host t t' low a h =
      let (ips, r, h1) = >>=-eq-ok (require (lookup host 443) unresolvable) _ h in
      let ((xs, hosts), e, h2) = >>=-eq-ok (sni_resolved host ips [] t.hosts) _ h1 in
      let (_, _, h3) = >>=-eq-ok (guard (is_empty xs) no_address) _ h2 in
      let ips_octets = octets host 443 ips (require-eq-ok (lookup host 443) unresolvable r) in
      subst (λ u. All IsLowered u.sni) (ok-injective h3)
        (All-append_intro IsLowered t.sni _ a
          ((low, sni_resolved-octets host ips [] xs t.hosts hosts ips_octets tt e), tt))

  sni_spec-IsLowered :
      (raw : Bytes) (t t' : SniTables)
      → All IsLowered t.sni
      → sni_spec lookup is_ipv6 raw t ≡ ok t'
      → All IsLowered t'.sni
  unfolding sni_spec
  sni_spec-IsLowered raw t t' a h =
      let host = to_ascii_lowercase raw in
      let (_, _, h1) = >>=-eq-ok (validate_sni_host is_ipv6 host) _ h in
      go host (to_ascii_lowercase_twice raw) (any (λ s. eq_bytes s.host host) t.sni) h1
    where
      go :
          (host : Bytes)
          → to_ascii_lowercase host ≡ host
          → (b : Bool) → (if b then ok t else sni_new lookup host t) ≡ ok t'
          → All IsLowered t'.sni
      go host low true k = subst (λ u. All IsLowered u.sni) (ok-injective k) a
      go host low false k = sni_new-IsLowered host t t' low a k

  sni_all-IsLowered :
      (raws : List Bytes) (t t' : SniTables)
      → All IsLowered t.sni
      → sni_all lookup is_ipv6 raws t ≡ ok t'
      → All IsLowered t'.sni
  unfolding sni_all
  sni_all-IsLowered [] t t' a h = subst (λ u. All IsLowered u.sni) (ok-injective h) a
  sni_all-IsLowered (raw ∷ raws) t t' a h =
      let (t1, e, h1) = >>=-eq-ok (sni_spec lookup is_ipv6 raw t) _ h in
      sni_all-IsLowered raws t1 t' (sni_spec-IsLowered raw t t1 a e) h1

  -- The names of an accepted policy are in lower case, and their addresses have four octets.
  pub resolve-IsLowered :
      (allow allow_sni : List Bytes) (s : EgressSpec)
      → resolve lookup is_ipv6 allow allow_sni ≡ ok s
      → All IsLowered s.sni
  unfolding resolve
  resolve-IsLowered allow allow_sni s h =
      let (t, _, h1) = >>=-eq-ok (allow_all lookup allow (record { rules = []; hosts = [] })) _ h in
      let first : SniTables = record { sni = []; hosts = t.hosts } in
      let (u, e, h2) = >>=-eq-ok (sni_all lookup is_ipv6 allow_sni first) _ h1 in
      subst (λ x. All IsLowered x.sni) (ok-injective h2) (sni_all-IsLowered allow_sni first u tt e)
