-- ===== src/Egress/Render.antt =====
-- src/egress.rs: `nft_ruleset`, `hosts_file` and `resolv_conf`, as texts.
pub mod Upstream
use basta.Prelude.{
  Option, none, some, List, [], ◌∷◌, ◌++◌, map, leb, if◌then◌else◌, Bytes, codes, decimal, join,
  cat,
}
use basta.Egress.Addr.{Ipv4Addr, addr_eq, to_bits}
use basta.Egress.Spec.{
  Proto, tcp, udp, Ports, one, range, Dest, addr, cidr, AllowRule, SniRule, EgressSpec, sni_enabled,
  resolver, proxy_port,
}

-- `Ipv4Addr`'s `to_string`.
unfoldable pub show_addr : Ipv4Addr → Bytes
show_addr x = join (codes ".") (decimal x.a ∷ decimal x.b ∷ decimal x.c ∷ decimal x.d ∷ [])

abbrev pub proto_str : Proto → Bytes
proto_str tcp = codes "tcp"
proto_str udp = codes "udp"

unfoldable pub show_ports : Ports → Bytes
show_ports (one p) = decimal p
show_ports (range lo hi) = cat (decimal lo ∷ codes "-" ∷ decimal hi ∷ [])

unfoldable pub show_dest : Dest → Bytes
unfolding decimal show_addr
show_dest (addr x) = show_addr x
show_dest (cidr x p) = cat (show_addr x ∷ codes "/" ∷ decimal p ∷ [])

unfoldable pub nft_line : AllowRule → Bytes
unfolding show_dest show_ports decimal
nft_line r = cat (
    codes "ip daddr "
    ∷ show_dest r.dest
    ∷ codes " "
    ∷ proto_str r.proto
    ∷ codes " dport "
    ∷ show_ports r.ports
    ∷ codes " accept"
    ∷ [])

-- `ips.sort()` and `ips.dedup()`; addresses are ordered by their octets.
abbrev insert_addr : Ipv4Addr → List Ipv4Addr → List Ipv4Addr
insert_addr x [] = x ∷ []
insert_addr x (y ∷ ys) = if leb (to_bits x) (to_bits y) then x ∷ y ∷ ys else y ∷ insert_addr x ys

unfoldable pub sort_addrs : List Ipv4Addr → List Ipv4Addr
sort_addrs [] = []
sort_addrs (x ∷ xs) = insert_addr x (sort_addrs xs)

abbrev drop_head : Ipv4Addr → List Ipv4Addr → List Ipv4Addr
drop_head x [] = x ∷ []
drop_head x (y ∷ ys) = if addr_eq x y then y ∷ ys else x ∷ y ∷ ys

unfoldable pub dedup_addrs : List Ipv4Addr → List Ipv4Addr
dedup_addrs [] = []
dedup_addrs (x ∷ xs) = drop_head x (dedup_addrs xs)

abbrev all_addrs : List SniRule → List Ipv4Addr
all_addrs [] = []
all_addrs (r ∷ rs) = r.addrs ++ all_addrs rs

-- The addresses that the proxy may dial.
unfoldable pub upstream_addrs : EgressSpec → List Ipv4Addr
unfolding sort_addrs dedup_addrs
upstream_addrs s = dedup_addrs (sort_addrs (all_addrs s.sni))

abbrev newline : Bytes
newline = 10 ∷ []

abbrev mark_text : Bytes
mark_text = codes "0x62777801"

unfoldable pub sni_filter_lines : EgressSpec → Bytes
unfolding decimal show_addr upstream_addrs
sni_filter_lines s = cat (
    codes "    ip daddr 127.0.0.1 tcp dport "
    ∷ decimal proxy_port
    ∷ codes " accept"
    ∷ newline
    ∷ codes "    meta mark "
    ∷ mark_text
    ∷ codes " ip daddr { "
    ∷ join (codes ", ") (map show_addr (upstream_addrs s))
    ∷ codes " } tcp dport 443 accept"
    ∷ newline
    ∷ [])

unfoldable pub sni_nat_table : Bytes
unfolding decimal
sni_nat_table = cat (
    codes "table ip bastanat {"
    ∷ newline
    ∷ codes "  chain output {"
    ∷ newline
    ∷ codes "    type nat hook output priority -100; policy accept;"
    ∷ newline
    ∷ codes "    meta mark "
    ∷ mark_text
    ∷ codes " return"
    ∷ newline
    ∷ codes "    tcp dport 443 redirect to :"
    ∷ decimal proxy_port
    ∷ newline
    ∷ codes "  }"
    ∷ newline
    ∷ codes "}"
    ∷ newline
    ∷ [])

abbrev rule_lines : List AllowRule → Bytes
unfolding nft_line
rule_lines [] = []
rule_lines (r ∷ rs) = cat (codes "    " ∷ nft_line r ∷ newline ∷ rule_lines rs ∷ [])

unfoldable pub nft_ruleset : EgressSpec → Bytes
unfolding sni_enabled sni_filter_lines sni_nat_table nft_line
nft_ruleset s = cat (
    codes "table inet basta {"
    ∷ newline
    ∷ codes "  chain output {"
    ∷ newline
    ∷ codes "    type filter hook output priority 0; policy drop;"
    ∷ newline
    ∷ codes "    oifname \"lo\" accept"
    ∷ newline
    ∷ codes "    ct state established,related accept"
    ∷ newline
    ∷ (if sni_enabled s then sni_filter_lines s else [])
    ∷ rule_lines s.rules
    ∷ codes "  }"
    ∷ newline
    ∷ codes "}"
    ∷ newline
    ∷ (if sni_enabled s then sni_nat_table else [])
    ∷ [])

abbrev host_lines : List (Bytes × Ipv4Addr) → Bytes
host_lines [] = []
host_lines ((name, x) ∷ hs) = cat (show_addr x ∷ codes " " ∷ name ∷ newline ∷ host_lines hs ∷ [])

unfoldable pub hosts_file : EgressSpec → Bytes
unfolding show_addr decimal
hosts_file s = cat (
    codes "127.0.0.1 localhost"
    ∷ newline
    ∷ codes "::1 localhost"
    ∷ newline
    ∷ host_lines s.hosts
    ∷ [])

-- One character, three bytes.
abbrev em_dash : Bytes
em_dash = 0xe2 ∷ 0x80 ∷ 0x94 ∷ []

abbrev resolv_text : Option Ipv4Addr → Bytes
resolv_text (some x) =
    cat
      (codes "nameserver " ∷ show_addr x ∷ newline ∷ codes "options edns0 trust-ad" ∷ newline ∷ [])
resolv_text none = cat (
    codes "# basta: no in-sandbox resolver "
    ∷ em_dash
    ∷ codes " --allow names were resolved at"
    ∷ newline
    ∷ codes "# launch into /etc/hosts. For live DNS, relaunch adding"
    ∷ newline
    ∷ codes "# --allow <resolver-ip>:53/udp."
    ∷ newline
    ∷ [])

unfoldable pub resolv_conf : EgressSpec → Bytes
unfolding resolver show_addr decimal
resolv_conf s = resolv_text (resolver s)
