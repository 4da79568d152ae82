-- ===== src/Egress/Parse.antt =====
-- src/egress.rs: `split_proto`, `parse_ports`, `validate_sni_host`, and the address forms of a spec.
pub mod RoundTrip
use basta.Prelude.{
  ℕ, Bool, true, false, not, ◌&&◌, ◌||◌, Option, none, some, List, [], ◌∷◌, ltb, leb, ◌==◌,
  if◌then◌else◌, length, is_empty, all, Bytes, codes, eq_bytes, is_ascii_digit, guard, require,
  split_once, rsplit_once, split, parse_uint,
}
use basta.Prelude.{
  Result, ok, ◌>>=◌, ◌>>◌, bad_port, bad_port_start, bad_port_end, zero_port, reversed_range,
  sni_is_address, sni_not_dns_name,
}
use basta.ClientHello.DnsName.{is_dns_name}
use basta.Egress.Addr.{Ipv4Addr}
use basta.Egress.Spec.{Proto, tcp, udp, Ports, one, range}

abbrev pub u16_max : ℕ
u16_max = 65535

abbrev pub parse_u16 : Bytes → Option ℕ
parse_u16 = parse_uint 65535

abbrev pub parse_u8 : Bytes → Option ℕ
parse_u8 = parse_uint 255

abbrev proto_word : Bytes → Option Proto
proto_word tail =
    if eq_bytes tail (codes "tcp")
    then some tcp
    else if eq_bytes tail (codes "udp")
    then some udp
    else none

abbrev strip_proto : Bytes → Option (Bytes × Bytes) → Bytes × Proto
strip_proto spec none = (spec, tcp)
strip_proto spec (some (head, tail)) = elim (proto_word tail) [
  | some p ↦ (head, p)
  | none ↦ (spec, tcp)
]

unfoldable pub split_proto : Bytes → Bytes × Proto
unfolding rsplit_once eq_bytes
split_proto spec = strip_proto spec (rsplit_once b'/' spec)

-- The two forms of `parse_ports`.
unfoldable pub parse_range : Bytes → Bytes → Result Ports
unfolding parse_uint
parse_range lo_text hi_text = do
  lo ← require (parse_u16 lo_text) bad_port_start
  hi ← require (parse_u16 hi_text) bad_port_end
  guard (lo == 0 || hi == 0) zero_port
  guard (ltb hi lo) reversed_range
  ok (range lo hi)

unfoldable pub parse_one : Bytes → Result Ports
unfolding parse_uint
parse_one s = do p ← require (parse_u16 s) bad_port; guard (p == 0) zero_port; ok (one p)

unfoldable pub parse_ports : Bytes → Result Ports
unfolding split_once parse_range parse_one
parse_ports s = elim (split_once b'-' s) [ some (lo, hi) ↦ parse_range lo hi | none ↦ parse_one s ]

-- `Ipv4Addr::from_str`: four decimal octets of at most three digits, with no leading zero.
octet : Bytes → Option ℕ
octet [] = none
octet (c ∷ s) =
    if all is_ascii_digit (c ∷ s) && leb (length (c ∷ s)) 3 && (is_empty s || not (c == b'0'))
    then parse_uint 255 (c ∷ s)
    else none

abbrev four : List Bytes → Option Ipv4Addr
four (a ∷ b ∷ c ∷ d ∷ []) = elim (octet a) [
  | none ↦ none
  | some x ↦ elim (octet b) [
    | none ↦ none
    | some y ↦ elim (octet c) [
      | none ↦ none
      | some z ↦ elim (octet d) [
        | none ↦ none
        | some w ↦ some (record { a = x; b = y; c = z; d = w })
      ]
    ]
  ]
]
four _ = none

unfoldable pub parse_ipv4 : Bytes → Option Ipv4Addr
unfolding octet split parse_uint
parse_ipv4 s = four (split b'.' s)

abbrev pub is_some {ℓ} : {A : Type ℓ} → Option A → Bool
is_some none = false
is_some (some a) = true

-- `host.parse::<IpAddr>()` also reads IPv6 texts, by a test of the standard library.
unfoldable pub validate_sni_host : (Bytes → Bool) → Bytes → Result (Unit {0})
unfolding is_dns_name parse_ipv4
validate_sni_host is_ipv6 host = do
  guard (is_some (parse_ipv4 host) || is_ipv6 host) sni_is_address
  guard (not (is_dns_name host)) sni_not_dns_name
  ok tt
