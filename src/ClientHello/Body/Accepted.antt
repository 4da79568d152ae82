-- ===== src/ClientHello/Body/Accepted.antt =====
-- src/client_hello.rs: `parse_sni`, and one round of the walk over the extensions.
use basta.Prelude.{
  ℕ, ◌<◌, ◌≡◌, refl, ◌⊎◌, inl, inr, Bool, true, false, not, ◌||◌, Option, none, some, List, [], ◌∷◌,
  ◌++◌, append-nil, arith, ◌==◌, if◌then◌else◌, Bool-cases, Option-cases, is_empty, All-append,
  Bytes, IsBytes,
}
use basta.ClientHello.Cursor.{u8, u16, vec16}
use basta.ClientHello.Cursor.Frames.{
  frame16, u8-cons, u16-cons, vec16-frame16, continue-some, continue_pair, u8-inv, u16-inv,
  vec16-inv, vec16_whole, be16_digits, be16_digits_of,
}
use basta.ClientHello.DnsName.{sni_string}
use basta.ClientHello.Body.{
  ext_server_name, sni_type_host, sni_entry, parse_sni, read_extension, accept_extension,
}
use basta.ClientHello.Body.Grammar.{Extension, encode_extension, NamesHost, IsPlain}

-- The body of a server_name extension, forwards and back.
parse_sni-frame16 :
    (raw : Bytes) → parse_sni (frame16 (sni_type_host ∷ frame16 raw)) ≡ sni_string raw
unfolding parse_sni
parse_sni-frame16 raw = ground (
  arith,
  vec16_whole (sni_type_host ∷ frame16 raw),
  u8-cons sni_type_host (frame16 raw),
  vec16_whole raw,
)

entry_tests :
    (t : ℕ) (l : Bytes) (o : Option Bytes) {host : Bytes}
    → (if◌then◌else◌ {A = Option Bytes × Bytes}
        (not (t == sni_type_host) || not (is_empty l))
        (none, l)
        (o, l)).0
      ≡ some host
    → (t ≡ sni_type_host) × (l ≡ []) × (o ≡ some host)
entry_tests t [] o h = ground arith
entry_tests t (x ∷ l) o h = absurd (ground arith)

SniBody : Bytes → Bytes → Type 0
SniBody l host = (raw : Bytes) × (l ≡ sni_type_host ∷ frame16 raw) × (sni_string raw ≡ some host)

entry-inv : (l host : Bytes) → IsBytes l → (sni_entry l).0 ≡ some host → SniBody l host
unfolding sni_entry SniBody
entry-inv l host h e =
    let (t, b, p, q) = continue-some (u8 l) _ e in
    let (raw, r, p', q') = continue-some (vec16 b) _ q in
    let (t0, r0, o) = entry_tests t r (sni_string raw) q' in
    let w = u8-inv l b t p in
    let v = vec16-inv b raw r (rw w at h).1 p' in (raw, cc (t0, r0, w, v, append-nil raw), o)

list_tests :
    (r : Bytes) (o : Option Bytes) {host : Bytes}
    → (if◌then◌else◌ {A = Option Bytes × Bytes} (not (is_empty r)) (none, r) (o, r)).0 ≡ some host
    → (r ≡ []) × (o ≡ some host)
list_tests [] o h = (refl, h)
list_tests (x ∷ r) o h = absurd (cc)

parse_sni-inv :
    (b host : Bytes)
    → IsBytes b
    → parse_sni b ≡ some host
    → (raw : Bytes) × (b ≡ frame16 (sni_type_host ∷ frame16 raw)) × (sni_string raw ≡ some host)
unfolding parse_sni SniBody
parse_sni-inv b host h e =
    let (l, r, p, q) = continue-some (vec16 b) _ e in
    let (r0, o) = list_tests r (sni_entry l).0 q in
    let v = vec16-inv b l r h p in
    let (raw, w, s) = entry-inv l host (All-append (λ x. x < 256) l r ((rw v at h).1.1)).0 o in
    (raw, cc (v, w, r0, append-nil l), s)

pub read_extension-encode :
    (x : Extension) (r : Bytes) → read_extension (encode_extension x ++ r) ≡ (some x, r)
unfolding read_extension
read_extension-encode (t, b) r = simp (u16-cons, vec16-frame16) (rw (be16_digits_of t))

extension_eq :
    (t : ℕ) (s d r : Bytes) (x : Extension)
    → ◌≡◌ {A = Option Extension × Bytes} (some (t, s), d) (some x, r)
    → (t ≡ x.0) × (s ≡ x.1) × (d ≡ r)
extension_eq t s d r (t', s') e = ground arith

pub read_extension-inv :
    (b r : Bytes) (x : Extension)
    → IsBytes b
    → read_extension b ≡ (some x, r)
    → b ≡ encode_extension x ++ r
unfolding read_extension
read_extension-inv b r x h e =
    let (t, c, p, q) = continue_pair (u16 b) _ e in
    let (s, d, p', q') = continue_pair (vec16 c) _ q in
    let (hi, lo, w, z) = u16-inv b c t p in
    let v = vec16-inv c s d (rw w at h).1.1 p' in
    let (e0, e1, e2) = extension_eq t s d r x q' in
    let (d0, d1) = be16_digits hi lo t (rw w at h).1.0 z in cc

-- The loop, forwards. Fuel enough is given by the length.
abbrev pub Looks : Bool → Option Bytes → List Extension → Option Bytes → Type 0
Looks seen host [] sni = sni ≡ host
Looks seen host (x ∷ xs) sni =
    (IsPlain x × Looks seen host xs sni)
    ⊎ ((seen ≡ false) × (h : Bytes) × NamesHost x h × Looks true (some h) xs sni)

pub accept-plain :
    (seen : Bool) (host : Option Bytes) (x : Extension)
    → IsPlain x
    → accept_extension seen host x.0 x.1 ≡ some (seen, host)
unfolding accept_extension
accept-plain seen host x p = ground (arith, p.0, p.1)

pub accept-host :
    (host : Option Bytes) (x : Extension) (h : Bytes)
    → NamesHost x h
    → accept_extension false host x.0 x.1 ≡ some (true, some h)
unfolding accept_extension
accept-host host x h n = ground (arith, n.type_is, n.body_is, n.host_is, parse_sni-frame16 n.raw)

pub accept-inv :
    (seen : Bool) (host : Option Bytes) (x : Extension) (s : Bool) (o : Option Bytes)
    → IsBytes x.1
    → accept_extension seen host x.0 x.1 ≡ some (s, o)
    → (IsPlain x × (s ≡ seen) × (o ≡ host))
      ⊎ ((seen ≡ false) × (h : Bytes) × NamesHost x h × (s ≡ true) × (o ≡ some h))
unfolding accept_extension
accept-inv seen host x s o b e = elim (Bool-cases (x.0 == ext_server_name)) [
  | inr other ↦ inl ((ground arith, ground arith), ground arith, ground arith)
  | inl sn ↦ elim (Option-cases (parse_sni x.1)) [
    | inl bad ↦ absurd (ground arith)
    | inr (h, found) ↦
        let (raw, w, v) = parse_sni-inv x.1 h b found in
        inr (
          ground arith,
          h,
          record { type_is = ground arith; raw = raw; body_is = w; host_is = v },
          ground arith,
          ground arith,
        )
  ]
]
