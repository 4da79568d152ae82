-- ===== src/Prelude/Strings.antt =====
-- The functions of `str` and of `core::num` that the program calls, on texts as bytes.
pub mod Decimal
pub mod Splits
pub mod White
use Prim.Native.Nat.{ℕ, zero, suc, ◌+◌, ◌-◌, ◌*◌, ◌/◌, ◌%◌}
use mathlib.Core.Bool.{Bool, false, ◌||◌}
use mathlib.Core.Option.{Option, none, some}
use mathlib.Core.List.{List, [], ◌∷◌, ◌++◌}
use basta.Prelude.Tests.{ltb, ◌==◌, if◌then◌else◌}
use basta.Prelude.Words.{Bytes, eq_bytes, is_ascii_digit}

abbrev pub cons_first : ℕ → Option (Bytes × Bytes) → Option (Bytes × Bytes)
cons_first c none = none
cons_first c (some (a, b)) = some (c ∷ a, b)

-- `str::split_once` at one byte.
unfoldable pub split_once : ℕ → Bytes → Option (Bytes × Bytes)
split_once sep [] = none
split_once sep (c ∷ s) =
    let later = split_once sep s in if c == sep then some ([], s) else cons_first c later

abbrev last_split : ℕ → ℕ → Bytes → Option (Bytes × Bytes) → Option (Bytes × Bytes)
last_split sep c s none = if c == sep then some ([], s) else none
last_split sep c s (some (a, b)) = some (c ∷ a, b)

-- `str::rsplit_once` at one byte.
unfoldable pub rsplit_once : ℕ → Bytes → Option (Bytes × Bytes)
rsplit_once sep [] = none
rsplit_once sep (c ∷ s) = last_split sep c s (rsplit_once sep s)

abbrev pub cons_head : ℕ → List Bytes → List Bytes
cons_head c [] = (c ∷ []) ∷ []
cons_head c (w ∷ ws) = (c ∷ w) ∷ ws

-- `str::split` at one byte.
unfoldable pub split : ℕ → Bytes → List Bytes
split sep [] = [] ∷ []
split sep (c ∷ s) = let rest = split sep s in if c == sep then [] ∷ rest else cons_head c rest

-- `str::starts_with` and `str::ends_with` at one byte.
abbrev pub starts_with : ℕ → Bytes → Bool
starts_with b [] = false
starts_with b (c ∷ s) = c == b

abbrev pub ends_with : ℕ → Bytes → Bool
ends_with b [] = false
ends_with b (c ∷ []) = c == b
ends_with b (c ∷ d ∷ s) = ends_with b (d ∷ s)

-- `[..].contains(&s)` and `iter().any(|u| u == s)` on texts.
abbrev pub contains_bytes : List Bytes → Bytes → Bool
contains_bytes [] s = false
contains_bytes (x ∷ xs) s = eq_bytes x s || contains_bytes xs s

-- `u8::from_str`, `u16::from_str`: digits behind an optional `+`, at most `limit`.
digits_from : ℕ → ℕ → Bytes → Option ℕ
digits_from limit acc [] = some acc
digits_from limit acc (c ∷ s) =
    let next = acc * 10 + (c - b'0') in
    let rest = digits_from limit next s in
    if is_ascii_digit c then (if ltb limit next then none else rest) else none

unfoldable pub parse_uint : ℕ → Bytes → Option ℕ
unfolding digits_from
parse_uint limit [] = none
parse_uint limit (c ∷ []) = digits_from limit 0 (c ∷ [])
parse_uint limit (c ∷ d ∷ s) =
    if c == b'+' then digits_from limit 0 (d ∷ s) else digits_from limit 0 (c ∷ d ∷ s)

-- `to_string` of an unsigned number of at most 32 bits: ten digits are enough.
decimal_onto : ℕ → ℕ → Bytes → Bytes
decimal_onto zero n out = out
decimal_onto (suc fuel) n out =
    let out' = (b'0' + n % 10) ∷ out in
    let rest = decimal_onto fuel (n / 10) out' in if ltb n 10 then out' else rest

unfoldable pub decimal : ℕ → Bytes
unfolding decimal_onto
decimal n = decimal_onto 10 n []

-- `i32`.
pub data ℤ : Type 0 where
  pos : ℕ → ℤ
  negsuc : ℕ → ℤ

abbrev from_minus : ℕ → ℤ
from_minus zero = pos 0
from_minus (suc n) = negsuc n

-- `i32::from_str`.
abbrev some_pos : Option ℕ → Option ℤ
some_pos none = none
some_pos (some n) = some (pos n)

abbrev some_minus : Option ℕ → Option ℤ
some_minus none = none
some_minus (some n) = some (from_minus n)

unfoldable pub parse_i32 : Bytes → Option ℤ
unfolding parse_uint digits_from
parse_i32 [] = none
parse_i32 (c ∷ []) = some_pos (parse_uint 2147483647 (c ∷ []))
parse_i32 (c ∷ d ∷ s) =
    if c == b'-'
    then some_minus (digits_from 2147483648 0 (d ∷ s))
    else some_pos (parse_uint 2147483647 (c ∷ d ∷ s))

-- `to_string` of an `i32`.
unfoldable pub show_i32 : ℤ → Bytes
unfolding decimal
show_i32 (pos n) = decimal n
show_i32 (negsuc n) = b'-' ∷ decimal (n + 1)

-- `[..].join(sep)`
abbrev pub join : Bytes → List Bytes → Bytes
join sep [] = []
join sep (x ∷ []) = x
join sep (x ∷ y ∷ ys) = x ++ (sep ++ join sep (y ∷ ys))

-- The pieces of a `format!`.
abbrev pub cat : List Bytes → Bytes
cat [] = []
cat (x ∷ xs) = x ++ cat xs
