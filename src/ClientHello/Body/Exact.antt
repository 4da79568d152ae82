-- ===== src/ClientHello/Body/Exact.antt =====
-- src/client_hello.rs, `try_parse`, against the grammar.
use basta.Prelude.{
  ◌%◌, ◌≤◌, ◌<◌, ◌≡◌, refl, sym, ap, ◌∙◌, ◌↔◌, inl, inr, false, not, Option, none, some, [], ◌∷◌,
  ◌++◌, append-nil, arith, ltb, if◌then◌else◌, length, is_empty, All-append, Bytes, IsBytes,
}
use basta.ClientHello.Cursor.{Cur, ◌>>=◌, ◌>>◌, reject, take_bytes, vec8, vec16}
use basta.ClientHello.Cursor.Frames.{
  frame8, frame16, take_bytes-inv, continue-some, vec8-inv, vec16-inv,
}
use basta.ClientHello.Body.{walk, extensions_block, try_parse}
use basta.ClientHello.Body.Grammar.{
  Tail, absent, block, announced, encode_tail, TailNames, Describes,
}
use basta.ClientHello.Body.Extensions.{walk_sound, Looks-Names}
use basta.ClientHello.Body.Encoded.{vec16-none, reject-inv, bad_suites, try_parse-encode}

-- The three forms of the tail, from what `extensions_block` returns.
Ended : Bytes → Option Bytes → Type 0
Ended b sni = (t : Tail) × (encode_tail t ≡ b) × TailNames t sni

block_some :
    (b e r : Bytes) (sni : Option Bytes)
    → IsBytes b
    → vec16 b ≡ (some e, r)
    → (if◌then◌else◌ {A = Option (Option Bytes) × Bytes}
        (not (is_empty r))
        (none, r)
        (walk (length e) false none e, r)).0
      ≡ some sni
    → Ended b sni
unfolding Ended
block_some b e [] sni h p q =
    let v = vec16-inv b e [] h p in
    let eb = All-append (λ c. c < 256) e [] (rw v at h).1.1 in
    let (xs, u, l) = walk_sound (length e) false none sni e eb.0 q in
    (block xs, sym (v ∙ rw (append-nil (frame16 e)) (ap frame16 u)), Looks-Names xs sni l)
block_some b e (x ∷ r) sni h p q = absurd (cc)

block_none :
    (b r : Bytes) (sni : Option Bytes)
    → vec16 b ≡ (none, r)
    → (if◌then◌else◌ {A = Option (Option Bytes) × Bytes} (is_empty r) (some none, r) (none, r)).0
      ≡ some sni
    → Ended b sni
unfolding Ended
block_none b [] sni p q = elim (vec16-none b p) [
  | inl b0 ↦ (absent, sym b0, ground arith)
  | inr (hi, lo, b2, pos) ↦ (announced hi lo, sym b2, (pos, ground arith))
]
block_none b (x ∷ r) sni p q = absurd (cc)

block_sound :
    (b : Bytes) (sni : Option Bytes) → IsBytes b → (extensions_block b).0 ≡ some sni → Ended b sni
unfolding extensions_block
block_sound b sni h e = go (vec16 b) refl e
  where
    after : Option Bytes × Bytes → Option (Option Bytes) × Bytes
    after m = elim m.0 [
      | some x ↦ if not (is_empty m.1) then (none, m.1) else (walk (length x) false none x, m.1)
      | none ↦ if is_empty m.1 then (some none, m.1) else (none, m.1)
    ]

    go : (m : Option Bytes × Bytes) → vec16 b ≡ m → (after m).0 ≡ some sni → Ended b sni
    go (none, r) p q = block_none b r sni p q
    go (some x, r) p q = block_some b x r sni h p q

fits_id : (s : Bytes) → ltb 32 (length s) ≡ false → length s ≤ 32
fits_id s h = ground arith

fit_suites : (s : Bytes) → bad_suites s ≡ false → (length s % 2 ≡ 0) × (0 < length s)
fit_suites [] h = absurd (cc)
fit_suites (x ∷ s) h = (ground arith, ground arith)

fit_some : (s : Bytes) → is_empty s ≡ false → 0 < length s
fit_some [] h = absurd (cc)
fit_some (x ∷ s) h = omega arith

rest_bytes : (s r b : Bytes) → b ≡ s ++ r → IsBytes b → IsBytes r
rest_bytes s r b e h = (All-append (λ c. c < 256) s r (rw e at h)).1

-- The parser from a field on.
abbrev from_compression : Cur (Option Bytes)
from_compression = do compression ← vec8; reject (is_empty compression); extensions_block

abbrev from_suites : Cur (Option Bytes)
from_suites = do suites ← vec16; reject (bad_suites suites); from_compression

abbrev from_id : Cur (Option Bytes)
from_id = do session_id ← vec8; reject (ltb 32 (length session_id)); from_suites

Compressed : Bytes → Option Bytes → Type 0
Compressed b sni =
    (c : Bytes) × (t : Tail) × (b ≡ frame8 c ++ encode_tail t) × (0 < length c) × TailNames t sni

compression_sound :
    (b : Bytes) (sni : Option Bytes)
    → IsBytes b
    → (from_compression b).0 ≡ some sni
    → Compressed b sni
unfolding Compressed Ended
compression_sound b sni h e =
    let (c, r, p, q) = continue-some (vec8 b) _ e in
    let w = vec8-inv b c r p in
    let (u, s, x, y) = continue-some (reject (is_empty c) r) _ q in
    let (l, z) = reject-inv (is_empty c) r s u x in
    let (t, v, n) = block_sound s sni (rw z at (rest_bytes (frame8 c) r b w h)) y in
    (c, t, w ∙ ap (λ k. frame8 c ++ k) (z ∙ sym v), fit_some c l, n)

Suited : Bytes → Option Bytes → Type 0
Suited b sni =
    (s : Bytes) × (r : Bytes) × (b ≡ frame16 s ++ r)
    × (length s % 2 ≡ 0)
    × (0 < length s)
    × Compressed r sni

suites_sound :
    (b : Bytes) (sni : Option Bytes) → IsBytes b → (from_suites b).0 ≡ some sni → Suited b sni
unfolding Suited
suites_sound b sni h e =
    let (c, r, p, q) = continue-some (vec16 b) _ e in
    let w = vec16-inv b c r h p in
    let (u, s, x, y) = continue-some (reject (bad_suites c) r) _ q in
    let (l, z) = reject-inv (bad_suites c) r s u x in
    let (even, pos) = fit_suites c l in
    (
      c,
      s,
      w ∙ ap (λ k. frame16 c ++ k) z,
      even,
      pos,
      compression_sound s sni (rw z at (rest_bytes (frame16 c) r b w h)) y,
    )

Identified : Bytes → Option Bytes → Type 0
Identified b sni = (s : Bytes) × (r : Bytes) × (b ≡ frame8 s ++ r) × (length s ≤ 32) × Suited r sni

id_sound :
    (b : Bytes) (sni : Option Bytes) → IsBytes b → (from_id b).0 ≡ some sni → Identified b sni
unfolding Identified
id_sound b sni h e =
    let (c, r, p, q) = continue-some (vec8 b) _ e in
    let w = vec8-inv b c r p in
    let (u, s, x, y) = continue-some (reject (ltb 32 (length c)) r) _ q in
    let (l, z) = reject-inv (ltb 32 (length c)) r s u x in
    (
      c,
      s,
      w ∙ ap (λ k. frame8 c ++ k) z,
      fits_id c l,
      suites_sound s sni (rw z at (rest_bytes (frame8 c) r b w h)) y,
    )

assemble :
    (version random b1 b2 body : Bytes) (sni : Option Bytes)
    → body ≡ version ++ b1
    → length version ≡ 2
    → b1 ≡ random ++ b2
    → length random ≡ 32
    → Identified b2 sni
    → Describes body sni
unfolding Identified Suited Compressed
assemble version random b1 b2 body sni w1 l1 w2 l2
      (id, r1, w3, l3, (suites, r2, w4, even, pos, (compression, t, w5, l5, n))) =
    (
      record {
        version = version;
        random = random;
        session_id = id;
        cipher_suites = suites;
        compression = compression;
        tail = t;
      },
      cc,
      record {
        version_length = l1;
        random_length = l2;
        session_id_length = l3;
        cipher_suites_even = even;
        cipher_suites_some = pos;
        compression_some = l5;
      },
      n,
    )

-- A hello that is accepted is valid and says what the parser returns.
try_parse_sound :
    (body : Bytes) (sni : Option Bytes)
    → IsBytes body
    → try_parse body ≡ some sni
    → Describes body sni
unfolding try_parse
try_parse_sound body sni h e =
    let (version, b1, p1, e1) = continue-some (take_bytes 2 body) _ e in
    let (w1, l1) = take_bytes-inv 2 body version b1 p1 in
    let h1 = rest_bytes version b1 body w1 h in
    let (random, b2, p2, e2) = continue-some (take_bytes 32 b1) _ e1 in
    let (w2, l2) = take_bytes-inv 32 b1 random b2 p2 in
    assemble version random b1 b2 body sni w1 l1 w2 l2
      (id_sound b2 sni (rest_bytes random b2 b1 w2 h1) e2)

-- A body is accepted with the name `sni` exactly when it is the encoding of a valid hello that
-- carries it: the lengths of RFC 8446, no byte left over, no encrypted hello, at most one server_name
-- extension, which holds one host name. A body may end in two bytes that announce an extensions
-- block with nothing behind them, and is then accepted as naming no host.
pub try_parse_exact :
    (body : Bytes) (sni : Option Bytes)
    → IsBytes body
    → (try_parse body ≡ some sni) ↔ Describes body sni
try_parse_exact body sni h =
    (try_parse_sound body sni h, λ d. rw (← d.1) (try_parse-encode d.0 sni d.2 d.3))
