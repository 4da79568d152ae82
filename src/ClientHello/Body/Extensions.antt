-- ===== src/ClientHello/Body/Extensions.antt =====
-- src/client_hello.rs: the loop over the extensions, against the grammar.
use basta.Prelude.{
  ℕ, zero, suc, ◌+◌, ◌≤◌, ◌<◌, ◌≡◌, refl, sym, ap, ◌∙◌, subst, ◌⊎◌, inl, inr, Bool, true, false,
  Option, none, some, List, [], ◌∷◌, ◌++◌, arith, Option-cases, length, All, length-append,
  All-append, Bytes, IsBytes,
}
use basta.ClientHello.Body.{read_extension, accept_extension, walk}
use basta.ClientHello.Body.Grammar.{
  Extension, encode_extension, encode_extensions, NamesHost, IsPlain, Names, unnamed, named,
}
use basta.ClientHello.Body.Accepted.{
  read_extension-encode, read_extension-inv, Looks, accept-plain, accept-host, accept-inv,
}

length-encode :
    (x : Extension) (r : Bytes) → length (encode_extension x ++ r) ≡ 4 + length x.1 + length r
length-encode (t, b) r = omega (arith, length-append b r)

walk-cons :
    (f : ℕ) (seen : Bool) (host : Option Bytes) (x : Extension) (r : Bytes) (s : Bool)
    (o : Option Bytes)
    → accept_extension seen host x.0 x.1 ≡ some (s, o)
    → walk (suc f) seen host (encode_extension x ++ r) ≡ walk f s o r
unfolding walk
walk-cons f seen host x r s o e =
    rw (read_extension-encode x r, e)
      (ap (λ (m : Option Extension × Bytes). walk f s o m.1) (read_extension-encode x r))

pub walk_complete :
    (xs : List Extension) (f : ℕ) (seen : Bool) (host sni : Option Bytes)
    → length (encode_extensions xs) ≤ f
    → Looks seen host xs sni
    → walk f seen host (encode_extensions xs) ≡ some sni
walk_complete [] zero seen host sni h e = unfold walk in ap some (sym e)
walk_complete [] (suc f) seen host sni h e = unfold walk in ap some (sym e)
walk_complete (x ∷ xs) zero seen host sni h e =
    absurd (omega (arith, length-encode x (encode_extensions xs)))
walk_complete (x ∷ xs) (suc f) seen host sni h (inl (p, e)) =
    walk-cons f seen host x (encode_extensions xs) seen host (accept-plain seen host x p)
    ∙ walk_complete xs f seen host sni (omega (arith, length-encode x (encode_extensions xs))) e
walk_complete (x ∷ xs) (suc f) seen host sni h (inr (s, n, m, e)) = rw s (
    walk-cons f false host x (encode_extensions xs) true (some n) (accept-host host x n m)
    ∙ walk_complete xs f true (some n) sni (omega (arith, length-encode x (encode_extensions xs)))
        e)

-- One round of the loop, backwards.
data Walked (f : ℕ) (seen : Bool) (host sni : Option Bytes) (e : Bytes) : Type 0 where
  ended : e ≡ [] → sni ≡ host → Walked f seen host sni e
  stepped :
      (x : Extension) (r : Bytes) (s : Bool) (o : Option Bytes)
      → read_extension e ≡ (some x, r)
      → accept_extension seen host x.0 x.1 ≡ some (s, o)
      → walk f s o r ≡ some sni
      → Walked f seen host sni e

walk-inv :
    (f : ℕ) (seen : Bool) (host sni : Option Bytes) (e : Bytes)
    → walk (suc f) seen host e ≡ some sni
    → Walked f seen host sni e
unfolding walk
walk-inv f seen host sni [] h = ended refl (ground arith)
walk-inv f seen host sni (b ∷ e) h = go (read_extension (b ∷ e)) refl h
  where
    after : Option Extension × Bytes → Option (Option Bytes)
    after m = elim m.0 [
      | none ↦ none
      | some y ↦ elim (accept_extension seen host y.0 y.1) [
        | none ↦ none
        | some z ↦ walk f z.0 z.1 m.1
      ]
    ]

    go :
        (m : Option Extension × Bytes)
        → read_extension (b ∷ e) ≡ m
        → after m ≡ some sni
        → Walked f seen host sni (b ∷ e)
    go (none, r) p q = absurd (cc)
    go (some x, r) p q = elim (Option-cases (accept_extension seen host x.0 x.1)) [
      | inl bad ↦ absurd (ground arith)
      | inr (z, good) ↦ stepped x r z.0 z.1 p good (ground arith)
    ]

body-IsBytes : (x : Extension) → IsBytes (encode_extension x) → IsBytes x.1
body-IsBytes x h = h.1.1.1.1

Looks-eq :
    (xs : List Extension) (sni : Option Bytes) {s t : Bool} {o p : Option Bytes}
    → s ≡ t
    → o ≡ p
    → Looks s o xs sni
    → Looks t p xs sni
Looks-eq xs sni {s} {t} {o} {p} e q l =
    subst (λ v. Looks t v xs sni) q (subst (λ v. Looks v o xs sni) e l)

Looks-cons :
    (seen s : Bool) (host o sni : Option Bytes) (x : Extension) (xs : List Extension)
    → (IsPlain x × (s ≡ seen) × (o ≡ host))
      ⊎ ((seen ≡ false) × (h : Bytes) × NamesHost x h × (s ≡ true) × (o ≡ some h))
    → Looks s o xs sni
    → Looks seen host (x ∷ xs) sni
Looks-cons seen s host o sni x xs (inl (p, e, q)) l = inl (p, Looks-eq xs sni e q l)
Looks-cons seen s host o sni x xs (inr (n, h, m, e, q)) l = inr (n, h, m, Looks-eq xs sni e q l)

pub walk_sound :
    (f : ℕ) (seen : Bool) (host sni : Option Bytes) (e : Bytes)
    → IsBytes e
    → walk f seen host e ≡ some sni
    → (xs : List Extension) × (e ≡ encode_extensions xs) × Looks seen host xs sni
walk_sound zero seen host sni [] b h = ([], refl, unfold walk in ground arith)
walk_sound zero seen host sni (x ∷ e) b h = absurd (unfold walk in cc)
walk_sound (suc f) seen host sni e b h = elim (walk-inv f seen host sni e h) [
  | ended e0 s0 ↦ ([], e0, s0)
  | stepped x r s o p q w ↦
      let v = read_extension-inv e r x b p in
      let (xb, rb) = All-append (λ c. c < 256) (encode_extension x) r (rw v at b) in
      let (xs, u, l) = walk_sound f s o sni r rb w in
      (
        x ∷ xs,
        v ∙ ap (λ c. encode_extension x ++ c) u,
        Looks-cons seen s host o sni x xs (accept-inv seen host x s o (body-IsBytes x xb) q) l,
      )
]

-- The loop's flag and host against the grammar.
Looks-seen :
    (xs : List Extension) (host sni : Option Bytes)
    → Looks true host xs sni
    → All IsPlain xs × (sni ≡ host)
Looks-seen [] host sni e = (tt, e)
Looks-seen (x ∷ xs) host sni (inl (p, l)) = let (a, e) = Looks-seen xs host sni l in ((p, a), e)
Looks-seen (x ∷ xs) host sni (inr (n, _, _, _)) = absurd (ground arith)

Names-cons :
    (x : Extension) (xs : List Extension) {sni : Option Bytes}
    → IsPlain x
    → Names xs sni
    → Names (x ∷ xs) sni
Names-cons x _ p (unnamed a) = unnamed (p, a)
Names-cons x _ p (named before after b n a) = named (x ∷ before) after (p, b) n a

pub Looks-Names :
    (xs : List Extension) (sni : Option Bytes) → Looks false none xs sni → Names xs sni
Looks-Names [] sni e = subst (Names []) (sym e) (unnamed tt)
Looks-Names (x ∷ xs) sni (inl (p, l)) = Names-cons x xs p (Looks-Names xs sni l)
Looks-Names (x ∷ xs) sni (inr (_, h, n, l)) =
    let (a, e) = Looks-seen xs (some h) sni l in subst (Names (x ∷ xs)) (sym e) (named [] xs tt n a)

Looks-plain :
    (xs : List Extension) (seen : Bool) (host : Option Bytes)
    → All IsPlain xs
    → Looks seen host xs host
Looks-plain [] seen host a = refl
Looks-plain (x ∷ xs) seen host a = inl (a.0, Looks-plain xs seen host a.1)

Looks-named :
    (before after : List Extension) (x : Extension) (h : Bytes)
    → All IsPlain before
    → NamesHost x h
    → All IsPlain after
    → Looks false none (before ++ x ∷ after) (some h)
Looks-named [] after x h b n a = inr (refl, h, n, Looks-plain after true (some h) a)
Looks-named (y ∷ before) after x h b n a = inl (b.0, Looks-named before after x h b.1 n a)

pub Names-Looks :
    {xs : List Extension} {sni : Option Bytes} → Names xs sni → Looks false none xs sni
Names-Looks {xs} (unnamed a) = Looks-plain xs false none a
Names-Looks (named before after {x} {host} b n a) = Looks-named before after x host b n a
