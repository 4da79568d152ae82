-- ===== src/SniProxy/Settings/EndToEnd.antt =====
-- src/egress.rs, src/netns.rs and src/sni_proxy.rs together: from the flags to a relayed connection.
use basta.Prelude.{
  ◌≡◌, refl, sym, ap, ◌∙◌, subst, Bool, true, false, ◌||◌, some, List, [], ◌∷◌, map, arith,
  if◌then◌else◌, any, All, Bytes, eq_bytes, eq_bytes_iff, ok-injective, ℤ, IsI32,
}
use basta.Prelude.{ok}
use mathlib.Core.List.{Mem, Memᴰ}
use mathlib.Core.Logic.{∥∥₁_elim}
use basta.ClientHello.Scanner.{done, scan}
use basta.Egress.Addr.{Ipv4Addr, addr_eq}
use basta.Egress.Spec.{EgressSpec, SniRule, proxy_mark}
use basta.Egress.Resolve.{Lookup, resolve}
use basta.Egress.Resolve.Names.{IsPinned, IsPinnable, resolve-IsPinned}
use basta.Egress.Resolve.Octets.{IsLookup, IsLowered, resolve-IsLowered}
use basta.Egress.Render.{upstream_addrs}
use basta.Egress.Render.Upstream.{among, upstream_addrs_exact}
use basta.SniProxy.{Config, Event, Dial, get_allow, relayed, handle}
use basta.SniProxy.Relay.{handle_sound}
use basta.SniProxy.Settings.{render_proxy_config, read_config}
use basta.SniProxy.Settings.Words.{is_dns_name-IsWord}
use basta.SniProxy.Settings.Lines.{IsEntry}
use basta.SniProxy.Settings.RoundTrip.{entry, config_of, read_config-render}

entries : (sni : List SniRule) → All IsPinned sni → All IsLowered sni → All IsEntry sni
entries [] p l = tt
entries (r ∷ rs) p l = (
  record { word = is_dns_name-IsWord r.host p.0.0; lower = l.0.0; pinned = p.0.2; octets = l.0.1 },
  entries rs p.1 l.1,
)

-- The proxy that basta starts for an accepted policy reads exactly that policy from its parent, for
-- every resolver that answers with addresses of four octets and every process id of 32 bits.
pub policy_delivered :
    (lookup : Lookup) (is_ipv6 : Bytes → Bool) (allow allow_sni : List Bytes) (s : EgressSpec)
    (pid : ℤ)
    → IsLookup lookup
    → resolve lookup is_ipv6 allow allow_sni ≡ ok s
    → IsI32 pid
    → read_config (render_proxy_config pid s.sni) ≡ ok (config_of pid s.sni)
policy_delivered lookup is_ipv6 allow allow_sni s pid octets h i =
    let (pinned, distinct) = resolve-IsPinned lookup is_ipv6 allow allow_sni s h in
    let lowered = resolve-IsLowered lookup is_ipv6 octets allow allow_sni s h in
    read_config-render pid s.sni i (entries s.sni pinned lowered) distinct

get_allow-Mem :
    (sni : Bytes) (rs : List SniRule) (addrs : List Ipv4Addr)
    → get_allow sni (map entry rs) ≡ some addrs
    → (r : SniRule) × Memᴰ r rs × (r.host ≡ sni) × (r.addrs ≡ addrs)
unfolding get_allow
get_allow-Mem sni [] addrs h = cc
get_allow-Mem sni (r ∷ rs) addrs h = go (eq_bytes r.host sni) refl (get_allow-Mem sni rs addrs) h
  where
    go :
        (b : Bool)
        → eq_bytes r.host sni ≡ b
        → (get_allow sni (map entry rs) ≡ some addrs
            → (r' : SniRule) × Memᴰ r' rs × (r'.host ≡ sni) × (r'.addrs ≡ addrs))
        → (if b then some r.addrs else get_allow sni (map entry rs)) ≡ some addrs
        → (r' : SniRule) × Memᴰ r' (r ∷ rs) × (r'.host ≡ sni) × (r'.addrs ≡ addrs)
    go true e ih k = (r, Memᴰ.head refl, (eq_bytes_iff r.host sni).0 e, cc)
    go false e ih k = let (r', m, a, b) = ih k in (r', Memᴰ.tail m, a, b)

All-Memᴰ {ℓ κ} : {A : Type ℓ} (P : A → Type κ) {x : A} {xs : List A} → All P xs → Memᴰ x xs → P x
All-Memᴰ P h (Memᴰ.head e) = subst P (sym e) h.0
All-Memᴰ P h (Memᴰ.tail m) = All-Memᴰ P h.1 m

addr_eq_refl : (x : Ipv4Addr) → addr_eq x x ≡ true
addr_eq_refl x = ground arith

Memᴰ-among : {x : Ipv4Addr} {xs : List Ipv4Addr} → Memᴰ x xs → among x xs ≡ true
Memᴰ-among {x} (Memᴰ.head {x = y} {xs} e) =
    ap (λ b. b || among x xs) (ap (λ z. addr_eq z x) (sym e) ∙ addr_eq_refl x)
Memᴰ-among {x} (Memᴰ.tail {x = y} {xs} m) = ground (arith, Memᴰ-among m)

Memᴰ-any :
    (p : SniRule → Bool) {r : SniRule} {rs : List SniRule}
    → Memᴰ r rs
    → p r ≡ true
    → any p rs ≡ true
Memᴰ-any p (Memᴰ.head {x = s} {xs} e) h = ap (λ b. b || any p xs) (ap p (sym e) ∙ h)
Memᴰ-any p {r} (Memᴰ.tail {x = s} {xs} m) h = ground (arith, Memᴰ-any p m h)

-- What an address pinned for a name is.
abbrev pub IsUpstream : EgressSpec → SniRule → Ipv4Addr → Type 0
IsUpstream s r ip = (among ip r.addrs ≡ true) × (among ip (upstream_addrs s) ≡ true) × IsPinnable ip

upstream :
    (s : EgressSpec) (r : SniRule) (ip : Ipv4Addr)
    → All IsPinned s.sni
    → Memᴰ r s.sni
    → Memᴰ ip r.addrs
    → IsUpstream s r ip
upstream s r ip p m k =
    let own = Memᴰ-among k in
    (
      own,
      upstream_addrs_exact s ip ∙ Memᴰ-any (λ q. among ip q.addrs) m own,
      All-Memᴰ IsPinnable (All-Memᴰ IsPinned p m).3 k,
    )

IsUpstream-prop : (s : EgressSpec) (r : SniRule) (ip : Ipv4Addr) → IsProp (IsUpstream s r ip)
IsUpstream-prop s r ip = hlevel

-- From the flags to the wire: if the policy of the flags is accepted, the resolver answers with
-- addresses of four octets, and the proxy runs on the configuration that it reads from its parent,
-- then a connection that it relays carries the name of an entry of the policy in its ClientHello, goes
-- to an address pinned for that name, with the mark of the ruleset, and that address is in the set of
-- the rule that accepts marked traffic and outside the link-local, private and carrier-grade blocks.
pub launch-refines :
    (lookup : Lookup) (is_ipv6 : Bytes → Bool) (allow allow_sni : List Bytes) (s : EgressSpec)
    (pid : ℤ) (cfg : Config) (dial : Dial) (replay_ok reset_ok : Bool) (events : List Event)
    (stream : Bytes) (ip : Ipv4Addr) (hello : Bytes)
    → IsLookup lookup
    → resolve lookup is_ipv6 allow allow_sni ≡ ok s
    → IsI32 pid
    → read_config (render_proxy_config pid s.sni) ≡ ok cfg
    → handle dial replay_ok cfg reset_ok events stream ≡ relayed ip hello
    → (r : SniRule) × Mem r s.sni
      × (scan hello ≡ done (some r.host))
      × IsUpstream s r ip
      × (dial ip proxy_mark ≡ true)
launch-refines lookup is_ipv6 allow allow_sni s pid cfg dial replay_ok reset_ok events stream ip
      hello octets h i given out =
    let same : config_of pid s.sni ≡ cfg =
      ok-injective
        (sym (policy_delivered lookup is_ipv6 allow allow_sni s pid octets h i) ∙ given) in
    let out' : handle dial replay_ok (config_of pid s.sni) reset_ok events stream
        ≡ relayed ip hello =
      ap (λ c. handle dial replay_ok c reset_ok events stream) same ∙ out in
    let (sni, named, _, (addrs, found, listed), marked) =
      handle_sound dial replay_ok (config_of pid s.sni) reset_ok events stream ip hello out' in
    let (r, m, host, pinned) = get_allow-Mem sni s.sni addrs found in
    let (all_pinned, _) = resolve-IsPinned lookup is_ipv6 allow allow_sni s h in
    (
      r,
      ∣ m ∣₁,
      named ∙ ap (λ x. done (some x)) (sym host),
      ∥∥₁_elim (subst (Mem ip) (sym pinned) listed) (IsUpstream-prop s r ip)
          (upstream s r ip all_pinned m),
      marked,
    )
