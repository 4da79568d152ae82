-- ===== src/ClientHello/Body/Encoded.antt =====
-- src/client_hello.rs, `try_parse` on an encoded hello.
use basta.Prelude.{
  ℕ, zero, suc, ◌%◌, ◌≤◌, ◌<◌, ◌≡◌, refl, ap, ◌∙◌, ◌⊎◌, inl, inr, Bool, true, false, not, ◌||◌,
  Option, none, some, [], ◌∷◌, arith, ltb, ◌==◌, length, is_empty, Bytes, be16,
}
use basta.ClientHello.Cursor.{reject, take_bytes, u16, vec16}
use basta.ClientHello.Cursor.Frames.{
  take_bytes-append, u16-cons, vec8-frame8, vec16-frame16, vec16_whole,
}
use basta.ClientHello.Body.{extensions_block, hello_body, try_parse}
use basta.ClientHello.Body.Grammar.{
  encode_extensions, Tail, absent, block, announced, encode_tail, TailNames, Hello, encode, IsValid,
}
use basta.ClientHello.Body.Extensions.{walk_complete, Names-Looks}

short : (n : ℕ) → 0 < n → take_bytes n [] ≡ (none, [])
unfolding take_bytes
short n h = ground arith

vec16_announced : (hi lo : ℕ) → 0 < be16 hi lo → vec16 (hi ∷ lo ∷ []) ≡ (none, [])
unfolding vec16
vec16_announced hi lo h = rw u16-cons (short (be16 hi lo) h)

vec16_nil : vec16 [] ≡ (none, [])
unfolding vec16 u16
vec16_nil = refl

block_complete :
    (t : Tail) (sni : Option Bytes)
    → TailNames t sni
    → (extensions_block (encode_tail t)).0 ≡ some sni
unfolding extensions_block
block_complete absent sni n = ground (arith, vec16_nil)
block_complete (block xs) sni n = ground (
  arith,
  vec16_whole (encode_extensions xs),
  walk_complete xs (length (encode_extensions xs)) false none sni (omega arith) (Names-Looks n),
)
block_complete (announced hi lo) sni n = ground (arith, vec16_announced hi lo n.0)

-- A failed `vec16` that reaches the end of the slice.
take_bytes-none : (n : ℕ) (b : Bytes) → take_bytes n b ≡ (none, []) → (b ≡ []) × (0 < n)
unfolding take_bytes
take_bytes-none zero b e = absurd (ground arith)
take_bytes-none (suc n) [] e = (refl, omega arith)
take_bytes-none (suc n) (x ∷ b) e = absurd (ground arith)

pub vec16-none :
    (b : Bytes)
    → vec16 b ≡ (none, [])
    → (b ≡ []) ⊎ ((hi : ℕ) × (lo : ℕ) × (b ≡ hi ∷ lo ∷ []) × (0 < be16 hi lo))
unfolding vec16
vec16-none [] e = inl refl
vec16-none (x ∷ []) e = absurd (unfold u16 in ground arith)
vec16-none (x ∷ y ∷ b) e =
    let (b0, pos) = take_bytes-none (be16 x y) b (rw (u16-cons x y b) at e) in
    inr (x, y, ap (λ c. x ∷ y ∷ c) b0, pos)

reject-false : (test : Bool) (b : Bytes) → test ≡ false → reject test b ≡ (some tt, b)
reject-false test b e = ground arith

pub reject-inv :
    (test : Bool) (b r : Bytes) (u : Unit {0})
    → reject test b ≡ (some u, r)
    → (test ≡ false) × (b ≡ r)
reject-inv true b r u e = absurd (ground arith)
reject-inv false b r u e = (refl, ground arith)

abbrev pub bad_suites : Bytes → Bool
bad_suites s = is_empty s || not (length s % 2 == 0)

id_fits : (s : Bytes) → length s ≤ 32 → ltb 32 (length s) ≡ false
id_fits s h = ground arith

suites_fit : (s : Bytes) → length s % 2 ≡ 0 → 0 < length s → bad_suites s ≡ false
suites_fit s e h = ground arith

some_fit : (s : Bytes) → 0 < length s → is_empty s ≡ false
some_fit s h = ground arith

hello_body-encode :
    (h : Hello) → IsValid h → hello_body (encode h) ≡ extensions_block (encode_tail h.tail)
unfolding hello_body
hello_body-encode h v = rw (
  take_bytes-append 2 h.version _ v.version_length,
  take_bytes-append 32 h.random _ v.random_length,
  vec8-frame8 h.session_id,
  id_fits h.session_id v.session_id_length,
  vec16-frame16 h.cipher_suites,
  suites_fit h.cipher_suites v.cipher_suites_even v.cipher_suites_some,
  vec8-frame8 h.compression,
  some_fit h.compression v.compression_some,
)

-- Every valid hello is accepted, with the name that it carries.
pub try_parse-encode :
    (h : Hello) (sni : Option Bytes)
    → IsValid h
    → TailNames h.tail sni
    → try_parse (encode h) ≡ some sni
unfolding try_parse
try_parse-encode h sni v n =
    ap (λ (m : Option (Option Bytes) × Bytes). m.0) (hello_body-encode h v)
    ∙ block_complete h.tail sni n
