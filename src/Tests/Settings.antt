-- ===== src/Tests/Settings.antt =====
-- src/netns.rs, src/sni_proxy.rs and src/egress.rs: the proxy's configuration, and texts read back.
use basta.Prelude.{
  ◌≤◌, ◌≡◌, refl, subst, ◌≢◌, Bool, true, false, some, List, [], ◌∷◌, ◌++◌, arith, ◌==◌,
  if◌then◌else◌, length, All, Bytes, codes, eq_bytes, parse_uint, decimal, lines, trim,
  split_whitespace, ℤ, pos, parse_i32, show_i32,
}
use basta.Prelude.{ok, err, unknown_line, missing_pid, host_without_addresses, bad_number}
use mathlib.Core.List.{Mem}
use basta.ClientHello.Scanner.{done, scan}
use basta.Egress.Spec.{SniRule, proxy_mark}
use basta.Egress.Parse.{parse_ports, parse_u16}
use basta.Egress.Render.{show_ports}
use basta.Egress.Resolve.{IpAddr}
use basta.Egress.Resolve.Octets.{IsIp, IsLookup}
use basta.Netns.{
  loopback_spec, find_bin, has_default_route, pasta_died_early, running, exited, publish_spec,
}
use basta.Netns.Lines.{
  LineEvent, got, poll_interrupted, read_line_timeout, whole, is_listening, got_bytes,
}
use basta.Netns.Lines.{read_line_timeout_bounds}
use basta.SniProxy.{Config, handle, relayed}
use basta.SniProxy.Settings.{render_proxy_config, read_config}
use basta.SniProxy.Settings.Lines.{IsEntry}
use basta.SniProxy.Settings.RoundTrip.{config_of, read_config-render}
use basta.SniProxy.Settings.EndToEnd.{IsUpstream, launch-refines}
use basta.Tests.Policy.{
  public_addr, lookup, not_ipv6, allow, allow_sni, policy, resolve_run, public-IsAddr,
}
use basta.Tests.Proxy.{hello, always, two_reads}

abbrev pid : ℤ
pid = pos 4242

policy_text :
    render_proxy_config pid policy.sni
    ≡ codes "pid 4242"
      ++ (10
          ∷ (codes "port 47999"
              ++ (10
                  ∷ (codes "mark 1651996673"
                      ++ (10 ∷ (codes "host a.io 93.184.216.34" ++ 10 ∷ []))))))
unfolding render_proxy_config show_i32 basta.Egress.Render.show_addr
policy_text = refl

settings_run : read_config (render_proxy_config pid policy.sni) ≡ ok (config_of pid policy.sni)
unfolding read_config basta.SniProxy.Settings.read_lines lines render_proxy_config show_i32
    basta.SniProxy.Settings.read_line trim basta.SniProxy.Settings.read_words split_whitespace
    eq_bytes parse_i32 basta.Egress.Render.show_addr basta.SniProxy.Settings.parse_addrs
    basta.Egress.Parse.parse_ipv4 basta.SniProxy.Settings.allow_insert
settings_run = refl

-- A word that is no keyword, a number that is too large, a name without addresses, and no process.
settings_unknown : read_config (codes "pids 1") ≡ err unknown_line
unfolding read_config basta.SniProxy.Settings.read_lines lines basta.SniProxy.Settings.read_line
    trim basta.SniProxy.Settings.read_words split_whitespace eq_bytes
settings_unknown = refl

settings_large : read_config (codes "port 65536") ≡ err bad_number
unfolding read_config basta.SniProxy.Settings.read_lines lines basta.SniProxy.Settings.read_line
    trim basta.SniProxy.Settings.read_words split_whitespace eq_bytes parse_uint
settings_large = refl

settings_bare : read_config (codes "host a.io") ≡ err host_without_addresses
unfolding read_config basta.SniProxy.Settings.read_lines lines basta.SniProxy.Settings.read_line
    trim basta.SniProxy.Settings.read_words split_whitespace eq_bytes
    basta.SniProxy.Settings.parse_addrs
settings_bare = refl

settings_empty : read_config [] ≡ err missing_pid
unfolding read_config basta.SniProxy.Settings.read_lines lines
settings_empty = refl

entry : IsEntry (record { host = codes "a.io"; addrs = public_addr ∷ [] })
entry = record { word = omega arith; lower = refl; pinned = refl; octets = (public-IsAddr, tt) }

read_config-render_example :
    read_config (render_proxy_config pid policy.sni) ≡ ok (config_of pid policy.sni)
read_config-render_example = read_config-render pid policy.sni (omega arith) (entry, tt) (refl, tt)

octets : IsLookup lookup
octets host port ips h = subst (All IsIp) (same h) (public-IsAddr, (public-IsAddr, tt))
  where
    same : {x y : List IpAddr} → some x ≡ some y → x ≡ y
    same e = cc

relay_run :
    handle always true (config_of pid policy.sni) true two_reads hello ≡ relayed public_addr hello
unfolding handle basta.SniProxy.peek_sni scan basta.ClientHello.Body.try_parse
    basta.ClientHello.Scanner.round basta.ClientHello.Scanner.judge
    basta.ClientHello.Scanner.handshake_message basta.ClientHello.Cursor.take_bytes
    basta.ClientHello.Cursor.vec8 basta.ClientHello.Cursor.u8 basta.ClientHello.Cursor.vec16
    basta.ClientHello.Cursor.u16 basta.ClientHello.Body.extensions_block basta.ClientHello.Body.walk
    basta.ClientHello.Body.read_extension basta.ClientHello.Body.accept_extension
    basta.ClientHello.Body.parse_sni basta.ClientHello.DnsName.sni_string
    basta.ClientHello.DnsName.is_utf8 basta.ClientHello.DnsName.is_dns_name
relay_run = refl

launch-refines_example :
    (r : SniRule) × Mem r policy.sni
    × (scan hello ≡ done (some r.host))
    × IsUpstream policy r public_addr
    × (always public_addr proxy_mark ≡ true)
launch-refines_example =
    launch-refines lookup not_ipv6 allow allow_sni policy pid (config_of pid policy.sni) always true
      true two_reads hello public_addr hello octets resolve_run (omega arith) settings_run relay_run

loopback_none : loopback_spec [] ≡ codes "none"
unfolding loopback_spec
loopback_none = refl

publish_run : publish_spec (some 3000) ≡ codes "127.0.0.1/3000"
unfolding publish_spec decimal
publish_run = refl

-- Only one of the directories holds the program.
abbrev in_bin : Bytes → Bool
in_bin p = eq_bytes p (codes "/bin/nft")

find_run : find_bin in_bin (codes "nft") ≡ some (codes "/bin/nft")
unfolding find_bin eq_bytes
find_run = refl

abbrev sent : Bytes → List LineEvent
sent [] = []
sent (b ∷ s) = poll_interrupted ∷ got b ∷ sent s

abbrev listening : List LineEvent
listening = sent (codes "LISTENING" ++ 10 ∷ [])

line_run : read_line_timeout listening ≡ whole (codes "LISTENING")
unfolding read_line_timeout
line_run = refl

line_test : is_listening (read_line_timeout listening) ≡ true
unfolding is_listening read_line_timeout
line_test = refl

read_line_timeout_bounds_example :
    (length (codes "LISTENING") ≤ 256)
    × All (λ c. c ≢ 10) (codes "LISTENING")
    × (rest : Bytes) × (codes "LISTENING" ++ 10 ∷ rest ≡ got_bytes listening)
read_line_timeout_bounds_example = read_line_timeout_bounds listening (codes "LISTENING") line_run

-- /proc/net/route with and without a default route, and the message of a pasta that has exited.
route_run :
    has_default_route
      (some (codes "Iface Destination" ++ 10 ∷ (codes "eth0 00000000 0102A8C0" ++ 10 ∷ [])))
    ≡ true
unfolding has_default_route
route_run = refl

route_header : has_default_route (some (codes "eth0 00000000" ++ 10 ∷ [])) ≡ false
unfolding has_default_route
route_header = refl

died_run :
    pasta_died_early
      (λ i. if i == 3 then exited else running)
      (codes "bad port" ++ 10 ∷ (32 ∷ 10 ∷ []))
    ≡ some (codes "bad port")
unfolding pasta_died_early
died_run = refl
