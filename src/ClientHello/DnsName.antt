-- ===== src/ClientHello/DnsName.antt =====
-- src/client_hello.rs: `is_dns_name` and `sni_string`.
use basta.Prelude.{
  ℕ, zero, suc, Bool, true, false, not, ◌&&◌, ◌||◌, Option, none, some, [], ◌∷◌, ltb, leb, ◌==◌,
  if◌then◌else◌, length, is_empty, all, Bytes, is_ascii_alphanumeric, to_ascii_lowercase, split,
  starts_with, ends_with,
}

abbrev is_label_byte : ℕ → Bool
is_label_byte b = is_ascii_alphanumeric b || b == b'-'

unfoldable pub is_label : Bytes → Bool
is_label label =
    not (is_empty label)
    && leb (length label) 63
    && not (starts_with b'-' label)
    && not (ends_with b'-' label)
    && all is_label_byte label

unfoldable pub is_dns_name : Bytes → Bool
unfolding is_label split
is_dns_name s = not (is_empty s) && leb (length s) 253 && all is_label (split b'.' s)

-- `std::str::from_utf8(..).is_ok()`: the well-formed byte sequences of Unicode, table 3-7. The
-- state says in which range the next byte must lie, and how many bytes of the form 10xxxxxx follow.
pub data Utf8 : Type 0 where
  boundary : Utf8
  pending : ℕ → ℕ → ℕ → Utf8

abbrev tails : ℕ → Utf8
tails zero = boundary
tails (suc n) = pending 0x80 0xbf n

abbrev lead_byte : ℕ → Option Utf8
lead_byte b =
    if ltb b 0x80
    then some boundary
    else if ltb b 0xc2
    then none
    else if ltb b 0xe0
    then some (pending 0x80 0xbf 0)
    else if b == 0xe0
    then some (pending 0xa0 0xbf 1)
    else if b == 0xed
    then some (pending 0x80 0x9f 1)
    else if ltb b 0xf0
    then some (pending 0x80 0xbf 1)
    else if b == 0xf0
    then some (pending 0x90 0xbf 2)
    else if ltb b 0xf4
    then some (pending 0x80 0xbf 2)
    else if b == 0xf4
    then some (pending 0x80 0x8f 2)
    else none

abbrev utf8_byte : Utf8 → ℕ → Option Utf8
utf8_byte boundary b = lead_byte b
utf8_byte (pending lo hi n) b = if leb lo b && leb b hi then some (tails n) else none

utf8_from : Utf8 → Bytes → Bool
utf8_from boundary [] = true
utf8_from (pending lo hi n) [] = false
utf8_from st (b ∷ s) = elim (utf8_byte st b) [ none ↦ false | some st' ↦ utf8_from st' s ]

unfoldable pub is_utf8 : Bytes → Bool
unfolding utf8_from
is_utf8 = utf8_from boundary

unfoldable pub sni_string : Bytes → Option Bytes
sni_string raw =
    if is_utf8 raw
    then (let s = to_ascii_lowercase raw in if is_dns_name s then some s else none)
    else none
