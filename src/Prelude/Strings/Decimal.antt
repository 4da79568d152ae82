-- ===== src/Prelude/Strings/Decimal.antt =====
-- `to_string` of an unsigned number, read back by `from_str`.
use Prim.Native.Nat.{ℕ, zero, suc, ◌+◌, ◌-◌, ◌*◌, ◌/◌, ◌%◌, ◌≤◌, ◌<◌}
use mathlib.Core.Path.{◌≡◌, refl, sym, ap, ◌∙◌, subst}
use mathlib.Core.Logic.{inl, inr}
use mathlib.Core.Bool.{true, false}
use mathlib.Core.Option.{some}
use mathlib.Core.List.{[], ◌∷◌}
use native.Mathlib.Omega.{arith}
use basta.Prelude.Tests.{ltb, ◌==◌, Bool-cases}
use basta.Prelude.Lists.{All, length}
use basta.Prelude.Words.{Bytes}
use basta.Prelude.Strings.{
  digits_from, parse_uint, decimal_onto, decimal, starts_with, ℤ, pos, negsuc, some_pos, some_minus,
  parse_i32, show_i32,
}

-- Ten to a power.
abbrev pub bound : ℕ → ℕ
bound zero = 1
bound (suc f) = 10 * bound f

abbrev pub IsDigit : ℕ → Type 0
IsDigit c = (48 ≤ c) × (c ≤ 57)

digit_step :
    (limit n : ℕ) (out : Bytes)
    → n ≤ limit
    → digits_from limit (n / 10) ((b'0' + n % 10) ∷ out) ≡ digits_from limit n out
unfolding digits_from
digit_step limit n out h =
    let e : n / 10 * 10 + (b'0' + n % 10 - b'0') ≡ n = omega arith in rw e (ground (arith, h))

digits_from-decimal_onto :
    (f limit n : ℕ) (out : Bytes)
    → n < bound f
    → n ≤ limit
    → digits_from limit 0 (decimal_onto f n out) ≡ digits_from limit n out
unfolding decimal_onto
digits_from-decimal_onto zero limit n out small h =
    let e : n ≡ 0 = omega (arith, small) in rw e refl
digits_from-decimal_onto (suc f) limit n out small h = elim (Bool-cases (ltb n 10)) [
  | inl e ↦ rw e (
      let z : n / 10 ≡ 0 = ground (arith, e) in
      ap (λ k. digits_from limit k ((b'0' + n % 10) ∷ out)) (sym z) ∙ digit_step limit n out h)
  | inr e ↦ rw e (
      digits_from-decimal_onto f limit (n / 10) ((b'0' + n % 10) ∷ out) (omega (arith, small))
        (omega (arith, h))
      ∙ digit_step limit n out h)
]

-- What is written is digits, at least one, in front of what stood there.
decimal_onto-digits : (f n : ℕ) (out : Bytes) → All IsDigit out → All IsDigit (decimal_onto f n out)
unfolding decimal_onto
decimal_onto-digits zero n out h = h
decimal_onto-digits (suc f) n out h = elim (Bool-cases (ltb n 10)) [
  | inl e ↦ rw e ((omega arith, omega arith), h)
  | inr e ↦ rw e (decimal_onto-digits f (n / 10) _ ((omega arith, omega arith), h))
]

-- No zero leads a number that is not 0.
decimal_onto-lead :
    (f n : ℕ) (out : Bytes) → 0 < n → n < bound f → starts_with b'0' (decimal_onto f n out) ≡ false
unfolding decimal_onto
decimal_onto-lead zero n out more small = absurd (omega (arith, more, small))
decimal_onto-lead (suc f) n out more small = elim (Bool-cases (ltb n 10)) [
  | inl e ↦ rw e (ground (arith, more, e))
  | inr e ↦ rw e (decimal_onto-lead f (n / 10) _ (ground (arith, e)) (omega (arith, small)))
]

-- A number below ten to the `f` has at most `f` digits.
decimal_onto-length :
    (g f n : ℕ) (out : Bytes)
    → n < bound (suc f)
    → length (decimal_onto g n out) ≤ suc f + length out
unfolding decimal_onto
decimal_onto-length zero f n out small = omega arith
decimal_onto-length (suc g) zero n out small = rw (zeroth) (omega arith)
  where
    zeroth : ltb n 10 ≡ true
    zeroth = ground (arith, small)
decimal_onto-length (suc g) (suc f) n out small = elim (Bool-cases (ltb n 10)) [
  | inl e ↦ rw e (omega arith)
  | inr e ↦ rw e (
      omega
        (arith, decimal_onto-length g f (n / 10) ((b'0' + n % 10) ∷ out) (omega (arith, small))))
]

decimal_onto-cons :
    (f n c : ℕ) (s : Bytes) → (d : ℕ) × (r : Bytes) × (decimal_onto f n (c ∷ s) ≡ d ∷ r)
unfolding decimal_onto
decimal_onto-cons zero n c s = (c, s, refl)
decimal_onto-cons (suc f) n c s = elim (Bool-cases (ltb n 10)) [
  | inl e ↦ rw e (_, _, refl)
  | inr e ↦ rw e (decimal_onto-cons f (n / 10) _ (c ∷ s))
]

-- A number as a text is not empty.
pub decimal-cons : (n : ℕ) → (d : ℕ) × (r : Bytes) × (decimal n ≡ d ∷ r)
unfolding decimal decimal_onto
decimal-cons n = elim (Bool-cases (ltb n 10)) [
  | inl e ↦ rw e (_, _, refl)
  | inr e ↦ rw e (decimal_onto-cons 9 (n / 10) _ [])
]

pub decimal-digits : (n : ℕ) → All IsDigit (decimal n)
unfolding decimal
decimal-digits n = decimal_onto-digits 10 n [] tt

pub length-decimal : (f n : ℕ) → n < bound (suc f) → length (decimal n) ≤ suc f
unfolding decimal
length-decimal f n small = omega (arith, decimal_onto-length 10 f n [] small)

pub decimal-lead : (n : ℕ) → 0 < n → n < 10000000000 → starts_with b'0' (decimal n) ≡ false
unfolding decimal
decimal-lead n more small = decimal_onto-lead 10 n [] more small

digits_from-decimal :
    (limit n : ℕ) → n < 10000000000 → n ≤ limit → digits_from limit 0 (decimal n) ≡ some n
unfolding decimal digits_from
digits_from-decimal limit n small h = digits_from-decimal_onto 10 limit n [] small h

parse_uint-digits :
    (limit d : ℕ) (r : Bytes) → IsDigit d → parse_uint limit (d ∷ r) ≡ digits_from limit 0 (d ∷ r)
unfolding parse_uint
parse_uint-digits limit d [] h = refl
parse_uint-digits limit d (e ∷ r) h = rw (plus) refl
  where
    plus : (d == b'+') ≡ false
    plus = ground (arith, h)

-- A number written in decimal and read back is that number, if it is within the limit.
pub parse_uint-decimal :
    (limit n : ℕ) → n < 10000000000 → n ≤ limit → parse_uint limit (decimal n) ≡ some n
parse_uint-decimal limit n small h =
    let (d, r, e) = decimal-cons n in
    let digits : All IsDigit (d ∷ r) = subst (All IsDigit) e (decimal-digits n) in
    ap (parse_uint limit) e
    ∙ parse_uint-digits limit d r digits.0
    ∙ ap (digits_from limit 0) (sym e)
    ∙ digits_from-decimal limit n small h

-- The values of an `i32`.
abbrev pub IsI32 : ℤ → Type 0
IsI32 (pos n) = n < 2147483648
IsI32 (negsuc n) = n < 2147483648

parse_i32-digits :
    (d : ℕ) (r : Bytes) → IsDigit d → parse_i32 (d ∷ r) ≡ some_pos (parse_uint 2147483647 (d ∷ r))
unfolding parse_i32
parse_i32-digits d [] h = refl
parse_i32-digits d (e ∷ r) h = rw (minus) refl
  where
    minus : (d == b'-') ≡ false
    minus = ground (arith, h)

parse_i32-minus :
    (d : ℕ) (r : Bytes) → parse_i32 (b'-' ∷ d ∷ r) ≡ some_minus (digits_from 2147483648 0 (d ∷ r))
unfolding parse_i32
parse_i32-minus d r = refl

-- The same for an `i32`, with its sign.
pub parse_i32-show_i32 : (z : ℤ) → IsI32 z → parse_i32 (show_i32 z) ≡ some z
unfolding show_i32
parse_i32-show_i32 (pos n) h =
    let (d, r, e) = decimal-cons n in
    let digits : All IsDigit (d ∷ r) = subst (All IsDigit) e (decimal-digits n) in
    ap parse_i32 e
    ∙ parse_i32-digits d r digits.0
    ∙ ap (λ s. some_pos (parse_uint 2147483647 s)) (sym e)
    ∙ ap some_pos (parse_uint-decimal 2147483647 n (omega (arith, h)) (omega (arith, h)))
parse_i32-show_i32 (negsuc n) h =
    let (d, r, e) = decimal-cons (n + 1) in
    ap (λ s. parse_i32 (b'-' ∷ s)) e
    ∙ parse_i32-minus d r
    ∙ ap (λ s. some_minus (digits_from 2147483648 0 s)) (sym e)
    ∙ ap some_minus (digits_from-decimal 2147483648 (n + 1) (omega (arith, h)) (omega (arith, h)))
    ∙ ap (λ k. some_minus (some k)) (let p : n + 1 ≡ suc n = omega arith in p)
