-- ===== src/SniProxy/Relay.antt =====
-- src/sni_proxy.rs, `handle`: where a connection can be let out to.
use basta.Prelude.{
  ℕ, ◌≡◌, refl, sym, ap, ◌∙◌, subst, Bool, true, false, Option, none, some, List, [], ◌∷◌, ◌++◌,
  if◌then◌else◌, Bytes,
}
use mathlib.Core.List.{Mem, mem-cons_self, mem-cons_of_mem}
use basta.Egress.Addr.{Ipv4Addr}
use basta.ClientHello.Scanner.{done, scan}
use basta.SniProxy.{
  Config, Event, Peek, waiting, dropped, named, peek_sni, Dial, dial_upstream, get_allow, closed,
  relayed, connect, handle_peek, handle,
}
use basta.SniProxy.PeekLoop.{peek_sni_sound}

-- The first address that answers is one of the list.
dial_upstream-Mem :
    (dial : Dial) (ips : List Ipv4Addr) (mark : ℕ) {ip : Ipv4Addr}
    → dial_upstream dial ips mark ≡ some ip
    → Mem ip ips × (dial ip mark ≡ true)
unfolding dial_upstream
dial_upstream-Mem dial [] mark e = cc
dial_upstream-Mem dial (x ∷ ips) mark {ip} e =
    go (dial x mark) refl (dial_upstream-Mem dial ips mark) e
  where
    some_inj : some x ≡ some ip → x ≡ ip
    some_inj h = cc

    go :
        (b : Bool)
        → dial x mark ≡ b
        → (dial_upstream dial ips mark ≡ some ip → Mem ip ips × (dial ip mark ≡ true))
        → (if b then some x else dial_upstream dial ips mark) ≡ some ip
        → Mem ip (x ∷ ips) × (dial ip mark ≡ true)
    go true d ih h =
        let same = some_inj h in
        (subst (λ y. Mem y (x ∷ ips)) same mem-cons_self, subst (λ y. dial y mark ≡ true) same d)
    go false d ih h = let (m, k) = ih h in (mem-cons_of_mem x m, k)

-- What `connect` relays to is an address pinned for the name.
connect-relayed :
    (dial : Dial) (replay_ok : Bool) (cfg : Config) (sni hello : Bytes) {ip : Ipv4Addr}
    {bytes : Bytes}
    → connect dial replay_ok cfg sni hello ≡ relayed ip bytes
    → (addrs : List Ipv4Addr) × (get_allow sni cfg.allow ≡ some addrs)
      × Mem ip addrs
      × (dial ip cfg.mark ≡ true)
      × (bytes ≡ hello)
connect-relayed dial replay_ok cfg sni hello {ip} {bytes} e = pick (get_allow sni cfg.allow) refl e
  where
    sent :
        (b : Bool) (x : Ipv4Addr)
        → (if b then relayed x hello else closed) ≡ relayed ip bytes
        → (x ≡ ip) × (bytes ≡ hello)
    sent true x h = (cc, cc)
    sent false x h = cc

    dialled :
        (addrs : List Ipv4Addr) (o : Option Ipv4Addr)
        → dial_upstream dial addrs cfg.mark ≡ o
        → elim o [ none ↦ closed | some x ↦ if replay_ok then relayed x hello else closed ]
          ≡ relayed ip bytes
        → Mem ip addrs × (dial ip cfg.mark ≡ true) × (bytes ≡ hello)
    dialled addrs none d h = cc
    dialled addrs (some x) d h =
        let (same, b) = sent replay_ok x h in
        let (m, k) = dial_upstream-Mem dial addrs cfg.mark (d ∙ ap some same) in (m, k, b)

    pick :
        (o : Option (List Ipv4Addr))
        → get_allow sni cfg.allow ≡ o
        → elim o [
          | none ↦ closed
          | some addrs ↦ elim (dial_upstream dial addrs cfg.mark) [
            | none ↦ closed
            | some x ↦ if replay_ok then relayed x hello else closed
          ]
        ]
          ≡ relayed ip bytes
        → (addrs : List Ipv4Addr) × (get_allow sni cfg.allow ≡ some addrs)
          × Mem ip addrs
          × (dial ip cfg.mark ≡ true)
          × (bytes ≡ hello)
    pick none d h = cc
    pick (some addrs) d h =
        let (m, k, b) = dialled addrs (dial_upstream dial addrs cfg.mark) refl h in
        (addrs, d, m, k, b)

handle_peek-relayed :
    (dial : Dial) (replay_ok : Bool) (cfg : Config) (p : Peek) {ip : Ipv4Addr} {bytes : Bytes}
    → handle_peek dial replay_ok cfg p ≡ relayed ip bytes
    → (sni : Bytes) × (p ≡ named sni bytes)
      × (addrs : List Ipv4Addr) × (get_allow sni cfg.allow ≡ some addrs)
      × Mem ip addrs
      × (dial ip cfg.mark ≡ true)
handle_peek-relayed dial replay_ok cfg waiting e = cc
handle_peek-relayed dial replay_ok cfg dropped e = cc
handle_peek-relayed dial replay_ok cfg (named sni hello) e =
    let (addrs, found, m, up, same) = connect-relayed dial replay_ok cfg sni hello e in
    (sni, ap (named sni) (sym same), addrs, found, m, up)

-- However the network behaves, a connection that `handle` relays goes to an address that the launch
-- pinned for the name in the client's own ClientHello, over a connect with the mark, and the bytes
-- replayed there are a prefix of what the client sent and scan as that complete ClientHello.
pub handle_sound :
    (dial : Dial) (replay_ok : Bool) (cfg : Config) (reset_ok : Bool) (events : List Event)
    (stream : Bytes) (ip : Ipv4Addr) (hello : Bytes)
    → handle dial replay_ok cfg reset_ok events stream ≡ relayed ip hello
    → (sni : Bytes) × (scan hello ≡ done (some sni))
      × ((rest : Bytes) × (hello ++ rest ≡ stream))
      × ((addrs : List Ipv4Addr) × (get_allow sni cfg.allow ≡ some addrs) × Mem ip addrs)
      × (dial ip cfg.mark ≡ true)
unfolding handle
handle_sound dial replay_ok cfg reset_ok events stream ip hello e =
    let (sni, p, addrs, found, m, up) =
      handle_peek-relayed dial replay_ok cfg (peek_sni reset_ok events stream) e in
    let (a, b) = peek_sni_sound reset_ok events stream sni hello p in
    (sni, a, b, (addrs, found, m), up)
