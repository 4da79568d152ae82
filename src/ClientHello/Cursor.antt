-- ===== src/ClientHello/Cursor.antt =====
-- src/client_hello.rs, `Cur`: a forward-only cursor over a slice.
pub mod Frames
use basta.Prelude.{
  ℕ, zero, suc, Bool, true, false, Option, none, some, arith, Bytes, be16, leb, if◌then◌else◌,
  length, get_or, take, drop, is_empty,
}

-- A read on the cursor: what it returns, and the bytes `b[i..]` that are then unread. Every method
-- reads the slice only there. A read that fails leaves the cursor where it got to.
abbrev pub Cur {ℓ} : Type ℓ → Type ℓ
Cur A = Bytes → Option A × Bytes

module _ {ℓ κ} {A : Type ℓ} {B : Type κ} where
  abbrev pub continue : Option A × Bytes → (A → Bytes → Option B × Bytes) → Option B × Bytes
  continue (none, b) f = (none, b)
  continue (some a, b) f = f a b

  infixl 5 ◌>>=◌
  -- The `?` operator.
  abbrev pub ◌>>=◌ :
      (Bytes → Option A × Bytes) → (A → Bytes → Option B × Bytes) → Bytes → Option B × Bytes
  ◌>>=◌ m f b = continue (m b) f

  infixl 5 ◌>>◌
  abbrev pub ◌>>◌ :
      (Bytes → Option A × Bytes) → (Bytes → Option B × Bytes) → Bytes → Option B × Bytes
  m >> k = m >>= λ _. k

abbrev pub pure {ℓ} : {A : Type ℓ} → A → Cur A
pure a b = (some a, b)

-- `if test { return None; }`
abbrev pub reject : Bool → Cur (Unit {0})
reject test b = if test then (none, b) else (some tt, b)

-- `Cur::take`. The sum does not pass `usize`: it adds at most 65535 to a position in the slice.
unfoldable pub take_bytes : ℕ → Cur Bytes
take_bytes n b = if leb n (length b) then (some (take n b), drop n b) else (none, b)

unfoldable pub u8 : Cur ℕ
unfolding take_bytes
u8 = do s ← take_bytes 1; pure (get_or s 0 0)

unfoldable pub u16 : Cur ℕ
unfolding take_bytes
u16 = do s ← take_bytes 2; pure (be16 (get_or s 0 0) (get_or s 1 0))

unfoldable pub vec8 : Cur Bytes
vec8 = do n ← u8; take_bytes n

unfoldable pub vec16 : Cur Bytes
vec16 = do n ← u16; take_bytes n

abbrev pub at_end : Bytes → Bool
at_end = is_empty
