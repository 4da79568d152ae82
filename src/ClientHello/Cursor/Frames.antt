-- ===== src/ClientHello/Cursor/Frames.antt =====
-- src/client_hello.rs, `Cur`: the reads against the length-prefixed encodings that they undo.
use basta.Prelude.{
  append-nil, ℕ, ◌/◌, ◌%◌, ◌≤◌, ◌<◌, ◌≡◌, refl, ◌∙◌, Option, none, some, [], ◌∷◌, ◌++◌, arith,
  le→leb, length, length-append, take-append-drop, length-take, take-length, drop-length, Bytes,
  IsBytes, be16,
}
use basta.ClientHello.Cursor.{continue, take_bytes, u8, u16, vec8, vec16}

-- `opaque<..2^8-1>` and `opaque<..2^16-1>`.
abbrev pub frame8 : Bytes → Bytes
frame8 s = length s ∷ s

abbrev pub frame16 : Bytes → Bytes
frame16 s = length s / 256 ∷ length s % 256 ∷ s

pub take_bytes-append : (n : ℕ) (s r : Bytes) → length s ≡ n → take_bytes n (s ++ r) ≡ (some s, r)
unfolding take_bytes
take_bytes-append n s r e = rw (← e, le→leb _ _ (fits s r), take-length s r, drop-length s r)
  where
    fits : (s r : Bytes) → length s ≤ length (s ++ r)
    fits s r = omega (arith, length-append s r)

pub u8-cons : (x : ℕ) (r : Bytes) → u8 (x ∷ r) ≡ (some x, r)
unfolding u8
u8-cons x r = ground arith

pub u16-cons : (hi lo : ℕ) (r : Bytes) → u16 (hi ∷ lo ∷ r) ≡ (some (be16 hi lo), r)
unfolding u16
u16-cons hi lo r = ground arith

pub vec8-frame8 : (s r : Bytes) → vec8 (frame8 s ++ r) ≡ (some s, r)
unfolding vec8
vec8-frame8 s r = rw u8-cons (take_bytes-append (length s) s r refl)

pub vec16-frame16 : (s r : Bytes) → vec16 (frame16 s ++ r) ≡ (some s, r)
unfolding vec16
vec16-frame16 s r =
    rw u16-cons (take_bytes-append (be16 (length s / 256) (length s % 256)) s r (omega arith))

pub vec16_whole : (s : Bytes) → vec16 (frame16 s) ≡ (some s, [])
vec16_whole s = rw (append-nil s) at (vec16-frame16 s [])

pub be16_digits_of : (n : ℕ) → be16 (n / 256) (n % 256) ≡ n
be16_digits_of n = omega arith

-- What a read that succeeds has consumed.
pub take_bytes-inv :
    (n : ℕ) (b s r : Bytes) → take_bytes n b ≡ (some s, r) → (b ≡ s ++ r) × (length s ≡ n)
unfolding take_bytes
take_bytes-inv n b s r e = ground (arith, take-append-drop n b, length-take n b)

module _ {ℓ κ} {A : Type ℓ} {B : Type κ} where
  -- Inversion of `?`.
  pub continue-some :
      (m : Option A × Bytes) (f : A → Bytes → Option B × Bytes) {y : B}
      → (continue m f).0 ≡ some y
      → (a : A) × (b : Bytes) × (m ≡ (some a, b)) × ((f a b).0 ≡ some y)
  continue-some (none, b) f h = absurd (cc)
  continue-some (some a, b) f h = (a, b, refl, h)

  pub continue_pair :
      (m : Option A × Bytes) (f : A → Bytes → Option B × Bytes) {y : B} {r : Bytes}
      → continue m f ≡ (some y, r)
      → (a : A) × (b : Bytes) × (m ≡ (some a, b)) × (f a b ≡ (some y, r))
  continue_pair (none, b) f h = absurd (ground arith)
  continue_pair (some a, b) f h = (a, b, refl, h)

pub u8-inv : (b r : Bytes) (n : ℕ) → u8 b ≡ (some n, r) → b ≡ n ∷ r
unfolding u8
u8-inv [] r n e = absurd (ground arith)
u8-inv (x ∷ b) r n e = ground arith

pub u16-inv :
    (b r : Bytes) (n : ℕ)
    → u16 b ≡ (some n, r)
    → (hi : ℕ) × (lo : ℕ) × (b ≡ hi ∷ lo ∷ r) × (n ≡ be16 hi lo)
unfolding u16
u16-inv [] r n e = absurd (ground arith)
u16-inv (x ∷ []) r n e = absurd (ground arith)
u16-inv (x ∷ y ∷ b) r n e = (x, y, ground arith, ground arith)

pub vec8-inv : (b s r : Bytes) → vec8 b ≡ (some s, r) → b ≡ frame8 s ++ r
unfolding vec8
vec8-inv b s r e =
    let (n, c, p, q) = continue_pair (u8 b) take_bytes e in
    let (x, y) = take_bytes-inv n c s r q in cc (u8-inv b c n p)

pub be16_digits : (hi lo n : ℕ) → lo < 256 → n ≡ be16 hi lo → (n / 256 ≡ hi) × (n % 256 ≡ lo)
be16_digits hi lo n h e = omega arith

pub vec16-inv : (b s r : Bytes) → IsBytes b → vec16 b ≡ (some s, r) → b ≡ frame16 s ++ r
unfolding vec16
vec16-inv b s r h e =
    let (n, c, p, q) = continue_pair (u16 b) take_bytes e in
    let (x, y) = take_bytes-inv n c s r q in
    let (hi, lo, w, z) = u16-inv b c n p in
    let (d, m) = be16_digits hi lo (length s) (rw w at h).1.0 (y ∙ z) in cc
