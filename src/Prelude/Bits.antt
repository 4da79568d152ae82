-- ===== src/Prelude/Bits.antt =====
-- `&` and `|` of numbers, digit by digit, and against masks. The native operations are stuck at
-- variables; these are the laws that the program's uses of them need.
use Prim.Native.Nat.{
  ℕ, zero, suc, ◌+◌, ◌-◌, ◌*◌, ◌/◌, ◌%◌, ◌^◌, ◌≤◌, ◌<◌, min, max, bit_and, bit_or, digits, bitwise,
  bit_and-bitwise, bit_or-bitwise,
}
use mathlib.Core.Path.{◌≡◌, refl, ◌∙◌, ap}
use native.Mathlib.Omega.{arith}
use native.Mathlib.Nat.{pow-suc, div-div-eq-div-mul, mod-add-div', div-one}

-- Any digit-wise operation whose rest `z` agrees with itself one digit on.
module _ (z : ℕ → ℕ) (f : ℕ → ℕ → ℕ) (rest : (b : ℕ) → z b ≡ z (b / 2) * 2 + f 0 (b % 2)) where
  count_irrelevant : (j k x y : ℕ) → x ≤ j → x ≤ k → digits z f j x y ≡ digits z f k x y
  count_irrelevant (suc j) (suc k) (suc x) y u v =
      ap (λ w. w * 2 + f (suc x % 2) (y % 2))
        (count_irrelevant j k (suc x / 2) (y / 2) (omega arith) (omega arith))
  count_irrelevant (suc j) zero (suc x) y u v = absurd (omega arith)
  count_irrelevant zero (suc k) (suc x) y u v = absurd (omega arith)
  count_irrelevant zero zero x y u v = refl
  count_irrelevant zero (suc k) zero y u v = refl
  count_irrelevant (suc j) zero zero y u v = refl
  count_irrelevant (suc j) (suc k) zero y u v = refl

  bitwise_step : (a b : ℕ) → bitwise z f a b ≡ bitwise z f (a / 2) (b / 2) * 2 + f (a % 2) (b % 2)
  bitwise_step zero b = rest b
  bitwise_step (suc a) b =
      ap (λ x. x * 2 + f (suc a % 2) (b % 2))
        (count_irrelevant a (suc a / 2) (suc a / 2) (b / 2) (omega arith) (omega arith))

and_rest : (b : ℕ) → 0 ≡ 0 * 2 + min 0 (b % 2)
and_rest b = omega arith

or_rest : (b : ℕ) → b ≡ b / 2 * 2 + max 0 (b % 2)
or_rest b = omega arith

bit_and_step : (a b : ℕ) → bit_and a b ≡ bit_and (a / 2) (b / 2) * 2 + min (a % 2) (b % 2)
bit_and_step a b = omega (
  arith,
  bit_and-bitwise a b,
  bit_and-bitwise (a / 2) (b / 2),
  bitwise_step (λ _. 0) min and_rest a b,
)

bit_or_step : (a b : ℕ) → bit_or a b ≡ bit_or (a / 2) (b / 2) * 2 + max (a % 2) (b % 2)
bit_or_step a b = omega (
  arith,
  bit_or-bitwise a b,
  bit_or-bitwise (a / 2) (b / 2),
  bitwise_step (λ b. b) max or_rest a b,
)

zero-bit_and : (b : ℕ) → bit_and 0 b ≡ 0
zero-bit_and b = bit_and-bitwise 0 b

bit_or-zero_digits : (n a : ℕ) → a ≤ n → bit_or a 0 ≡ a
bit_or-zero_digits zero zero h = bit_or-bitwise 0 0
bit_or-zero_digits zero (suc a) h = absurd (omega arith)
bit_or-zero_digits (suc n) zero h = bit_or-bitwise 0 0
bit_or-zero_digits (suc n) (suc a) h =
    omega (arith, bit_or_step (suc a) 0, bit_or-zero_digits n (suc a / 2) (omega arith))

bit_and-zero_digits : (n a : ℕ) → a ≤ n → bit_and a 0 ≡ 0
bit_and-zero_digits zero zero h = bit_and-bitwise 0 0
bit_and-zero_digits zero (suc a) h = absurd (omega arith)
bit_and-zero_digits (suc n) zero h = bit_and-bitwise 0 0
bit_and-zero_digits (suc n) (suc a) h =
    omega (arith, bit_and_step (suc a) 0, bit_and-zero_digits n (suc a / 2) (omega arith))

pow_pos : (k : ℕ) → 0 < 2 ^ k
pow_pos zero = omega arith
pow_pos (suc k) = omega (arith, pow-suc 2 k, pow_pos k)

halves : (k : ℕ) → (2 ^ suc k / 2 ≡ 2 ^ k) × (2 ^ suc k % 2 ≡ 0) × (2 ^ suc k ≡ 2 ^ k * 2)
halves k = (omega (arith, pow-suc 2 k), omega (arith, pow-suc 2 k), pow-suc 2 k)

ones_halves : (k : ℕ) → ((2 ^ suc k - 1) / 2 ≡ 2 ^ k - 1) × ((2 ^ suc k - 1) % 2 ≡ 1)
ones_halves k = (omega (arith, pow-suc 2 k, pow_pos k), omega (arith, pow-suc 2 k, pow_pos k))

mod_double : (x p : ℕ) → x % (p * 2) ≡ x / 2 % p * 2 + x % 2
mod_double x p =
    let q : x / 2 / p ≡ x / (p * 2) = div-div-eq-div-mul x 2 p ∙ ap (λ y. x / y) (omega arith) in
    omega (arith, mod-add-div' x (p * 2), mod-add-div' (x / 2) p, ap (λ y. y * p) q)

-- Setting a bit above a number adds it.
pub bit_or-pow : (k n : ℕ) → n < 2 ^ k → bit_or n (2 ^ k) ≡ n + 2 ^ k
bit_or-pow zero zero h = bit_or-bitwise 0 1
bit_or-pow zero (suc n) h = absurd (omega arith)
bit_or-pow (suc k) n h =
    let (d, m, e) = halves k in
    omega (
      arith,
      bit_or_step n (2 ^ suc k),
      ap (bit_or (n / 2)) d,
      m,
      e,
      bit_or-pow k (n / 2) (omega (arith, e)),
    )

-- A mask of `n` ones keeps the low digits.
bit_and-ones : (n x : ℕ) → bit_and x (2 ^ n - 1) ≡ x % 2 ^ n
bit_and-ones zero x = omega (arith, bit_and-zero_digits x x (omega arith))
bit_and-ones (suc n) x =
    let (d, m) = ones_halves n in
    omega (
      arith,
      bit_and_step x (2 ^ suc n - 1),
      ap (bit_and (x / 2)) d,
      m,
      bit_and-ones n (x / 2),
      mod_double x (2 ^ n),
      ap (λ y. x % y) (pow-suc 2 n),
    )

-- A mask of `n` ones above `k` zeros.
pub bit_and-high : (n k x : ℕ) → bit_and x ((2 ^ n - 1) * 2 ^ k) ≡ x / 2 ^ k % 2 ^ n * 2 ^ k
bit_and-high n zero x =
    ap (bit_and x) (omega arith) ∙ bit_and-ones n x ∙ omega (arith, ap (λ y. y % 2 ^ n) (div-one x))
bit_and-high n (suc k) x =
    let (d, m, e) = halves k in
    let ones : ℕ = 2 ^ n - 1 in
    let half : ones * 2 ^ suc k / 2 ≡ ones * 2 ^ k = omega (arith, ap (λ y. ones * y) e) in
    let even : ones * 2 ^ suc k % 2 ≡ 0 = omega (arith, ap (λ y. ones * y) e) in
    let shift : x / 2 / 2 ^ k ≡ x / 2 ^ suc k =
      div-div-eq-div-mul x 2 (2 ^ k) ∙ ap (λ y. x / y) (omega (arith, e)) in
    omega (
      arith,
      bit_and_step x (ones * 2 ^ suc k),
      ap (bit_and (x / 2)) half,
      even,
      bit_and-high n k (x / 2),
      ap (λ y. y % 2 ^ n * 2 ^ k) shift,
      ap (λ y. x / 2 ^ suc k % 2 ^ n * y) e,
    )

-- Filling the `k` low digits of a multiple of `2 ^ k`.
pub bit_or-ones : (k m : ℕ) → bit_or (m * 2 ^ k) (2 ^ k - 1) ≡ m * 2 ^ k + (2 ^ k - 1)
bit_or-ones zero m =
    ap (λ y. bit_or y 0) (omega arith) ∙ bit_or-zero_digits m m (omega arith) ∙ omega arith
bit_or-ones (suc k) m =
    let (d, p) = ones_halves k in
    let (_, _, e) = halves k in
    let half : m * 2 ^ suc k / 2 ≡ m * 2 ^ k = omega (arith, ap (λ y. m * y) e) in
    let even : m * 2 ^ suc k % 2 ≡ 0 = omega (arith, ap (λ y. m * y) e) in
    omega (
      arith,
      bit_or_step (m * 2 ^ suc k) (2 ^ suc k - 1),
      ap (λ y. bit_or y ((2 ^ suc k - 1) / 2)) half,
      ap (bit_or (m * 2 ^ k)) d,
      even,
      p,
      bit_or-ones k m,
      ap (λ y. m * y) e,
      e,
      pow_pos k,
    )
