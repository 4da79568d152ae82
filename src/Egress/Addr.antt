-- ===== src/Egress/Addr.antt =====
-- src/egress.rs: IPv4 addresses, their classes, and CIDR blocks.
pub mod Blocks
use basta.Prelude.{
  ℕ, ◌+◌, ◌-◌, ◌*◌, ◌%◌, ◌^◌, ◌<◌, Bool, ◌&&◌, ◌||◌, Option, none, some, leb, ◌==◌, if◌then◌else◌,
}
use Prim.Native.Nat.{bit_and, bit_or}

-- `std::net::Ipv4Addr`.
pub record Ipv4Addr : Type 0 where
  pub a : ℕ
  pub b : ℕ
  pub c : ℕ
  pub d : ℕ

abbrev pub addr_eq : Ipv4Addr → Ipv4Addr → Bool
addr_eq x y = x.a == y.a && x.b == y.b && x.c == y.c && x.d == y.d

-- `u32::from`.
abbrev pub to_bits : Ipv4Addr → ℕ
to_bits x = ((x.a * 256 + x.b) * 256 + x.c) * 256 + x.d

pub record IsAddr (x : Ipv4Addr) : Type 0 where
  pub a_byte : x.a < 256
  pub b_byte : x.b < 256
  pub c_byte : x.c < 256
  pub d_byte : x.d < 256

abbrev pub is_loopback : Ipv4Addr → Bool
is_loopback x = x.a == 127

abbrev pub is_link_local : Ipv4Addr → Bool
is_link_local x = x.a == 169 && x.b == 254

-- RFC 1918.
abbrev pub is_private : Ipv4Addr → Bool
is_private x = x.a == 10 || (x.a == 172 && leb 16 x.b && leb x.b 31) || (x.a == 192 && x.b == 168)

unfoldable pub is_cgnat : Ipv4Addr → Bool
is_cgnat x = x.a == 100 && bit_and x.b 0xc0 == 64

pub data Inward : Type 0 where
  loopback link_local private : Inward

unfoldable pub classify_inward : Ipv4Addr → Option Inward
unfolding is_cgnat
classify_inward x =
    if is_loopback x
    then some loopback
    else if is_link_local x
    then some link_local
    else if is_private x || is_cgnat x
    then some private
    else none

-- `u32::MAX << (32 - prefix)`, with the shift's wrap-around.
abbrev pub u32_max : ℕ
u32_max = 2 ^ 32 - 1

abbrev pub mask_of : ℕ → ℕ
mask_of prefix = if prefix == 0 then 0 else u32_max * 2 ^ (32 - prefix) % 2 ^ 32

-- `!mask` on 32 bits is `u32_max - mask`.
unfoldable pub cidr_range : Ipv4Addr → ℕ → ℕ × ℕ
cidr_range x prefix =
    let bits = to_bits x in
    let mask = mask_of prefix in (bit_and bits mask, bit_or (bit_and bits mask) (u32_max - mask))

unfoldable pub cidr_overlaps : Ipv4Addr → ℕ → Ipv4Addr → ℕ → Bool
unfolding cidr_range
cidr_overlaps x prefix base base_prefix =
    let (a_lo, a_hi) = cidr_range x prefix in
    let (b_lo, b_hi) = cidr_range base base_prefix in leb a_lo b_hi && leb b_lo a_hi
