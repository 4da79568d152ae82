-- ===== src/SniProxy/PeekLoop.antt =====
-- src/sni_proxy.rs, `peek_sni`: the name it returns and the bytes it keeps for the replay.
use basta.Prelude.{
  ℕ, ◌+◌, ◌≡◌, refl, sym, ap, ◌∙◌, subst, ◌⊎◌, inl, inr, Bool, true, false, Option, none, some,
  List, [], ◌∷◌, ◌++◌, append_assoc, append-nil, arith, leb, ltb, ◌==◌, Bool-cases, length, take,
  drop, take-append-drop, Bytes,
}
use basta.ClientHello.Scanner.{Scan, done, scan, max_peek}
use basta.ClientHello.Scanner.Stable.{scan-append, Binds}
use basta.SniProxy.{
  Event, fails, arrived, Peek, waiting, dropped, named, before_read, peek_loop, peek_sni, lesser,
  read_size, max_peek_reads,
}

-- A name leaves the loop only with the bytes it was read from.
before_read-named :
    (r : Bool) (s : Scan) (n : ℕ) (buf : Bytes) {sni h : Bytes}
    → before_read r s n buf ≡ some (named sni h)
    → (s ≡ done (some sni)) × (h ≡ buf)
unfolding before_read
before_read-named true (done (some x)) n buf e = (cc, cc)
before_read-named false (done (some x)) n buf e = cc
before_read-named r (done none) n buf e = cc
before_read-named r Scan.invalid n buf e = cc
before_read-named r Scan.incomplete n buf {sni} {h} e =
    elim (Bool-cases (leb max_peek (length buf))) [
      | inl a ↦ absurd (off {x = sni} {y = h} (ground (arith, a, e)))
      | inr a ↦ elim (Bool-cases (ltb max_peek_reads (n + 1))) [
        | inl b ↦ absurd (off {x = sni} {y = h} (ground (arith, a, b, e)))
        | inr b ↦ absurd (never {x = sni} {y = h} (ground (arith, a, b, e)))
      ]
    ]
  where
    off : {x y : Bytes} → some dropped ≡ some (named x y) → ⊥
    off h = cc

    never : {x y : Bytes} → ◌≡◌ {A = Option Peek} none (some (named x y)) → ⊥
    never h = cc

abbrev Reads : Bytes → Bytes → Bytes → Type 0
Reads buf sni h = (scan h ≡ done (some sni)) × ((rest : Bytes) × (h ++ rest ≡ buf))

pub stops :
    (r : Bool) (n : ℕ) (buf stream : Bytes) (o : Option Peek) (later : Peek) {sni h : Bytes}
    → before_read r (scan buf) n buf ≡ o
    → (later ≡ named sni h → Reads (buf ++ stream) sni h)
    → elim o [ some p ↦ p | none ↦ later ] ≡ named sni h
    → Reads (buf ++ stream) sni h
stops r n buf stream none later e k h = k h
stops r n buf stream (some p) later e k h =
    let (a, b) = before_read-named r (scan buf) n buf (e ∙ ap some h) in
    (ap scan b ∙ a, (stream, ap (λ x. x ++ stream) b))

at_read :
    (b : Bool) (p : Peek) {A : Type 0} {sni h : Bytes}
    → (p ≡ named sni h → A)
    → elim b [ true ↦ dropped | false ↦ p ] ≡ named sni h
    → A
at_read true p f e = cc
at_read false p f e = f e

resume :
    (m : ℕ) (buf stream sni h : Bytes)
    → Reads ((buf ++ take m stream) ++ drop m stream) sni h
    → Reads (buf ++ stream) sni h
resume m buf stream sni h (a, (rest, b)) = (
  a,
  (
    rest,
    b
        ∙ append_assoc buf (take m stream) (drop m stream)
        ∙ ap (λ x. buf ++ x) (take-append-drop m stream),
  ),
)

loop-named :
    (r : Bool) (events : List Event) (stream : Bytes) (n : ℕ) (buf : Bytes) {sni h : Bytes}
    → peek_loop r events stream n buf ≡ named sni h
    → Reads (buf ++ stream) sni h
unfolding peek_loop
loop-named r [] stream n buf e = stops r n buf stream _ waiting refl (λ h. cc) e
loop-named r (fails ∷ events) stream n buf e = stops r n buf stream _ dropped refl (λ h. cc) e
loop-named r (arrived k ∷ events) stream n buf {sni} {h} e =
    let m = lesser (read_size buf k) (length stream) in
    stops r n buf stream _ _ refl
      (at_read (m == 0) _ (λ e'.
        resume m buf stream sni h
          (loop-named r events (drop m stream) (n + 1) (buf ++ take m stream) e')))
      e

prefixes :
    (a b x y : Bytes)
    → a ++ x ≡ b ++ y
    → ((q : Bytes) × (a ++ q ≡ b)) ⊎ ((q : Bytes) × (b ++ q ≡ a))
prefixes [] b x y e = inl (b, refl)
prefixes (c ∷ a) [] x y e = inr (c ∷ a, refl)
prefixes (c ∷ a) (d ∷ b) x y e = elim (prefixes a b x y cc) [
  | inl (q, h) ↦ inl (q, cc)
  | inr (q, h) ↦ inr (q, cc)
]

-- A complete ClientHello has no accepted extension.
no_longer :
    (a b : Bytes) {s t : Bytes} (q : Bytes)
    → scan a ≡ done (some s)
    → scan b ≡ done (some t)
    → a ++ q ≡ b
    → a ≡ b
no_longer a b [] ha hb e = sym (append-nil a) ∙ e
no_longer a b {s} {t} (c ∷ q) ha hb e =
    let bound = subst (λ x. Binds (c ∷ q) x (scan (a ++ c ∷ q))) ha (scan-append a (c ∷ q)) in
    let bad = bound (λ h. cc) in cc

-- Whatever the client sends and however the network cuts it: when `peek_sni` returns a name, the
-- bytes it keeps are a prefix of what was sent, they scan as a complete ClientHello, and the name is
-- that ClientHello's.
pub peek_sni_sound :
    (reset_ok : Bool) (events : List Event) (stream sni hello : Bytes)
    → peek_sni reset_ok events stream ≡ named sni hello
    → (scan hello ≡ done (some sni)) × ((rest : Bytes) × (hello ++ rest ≡ stream))
unfolding peek_sni
peek_sni_sound r events stream sni hello e = loop-named r events stream 0 [] e

-- The cut of a stream into reads does not matter: two runs on one stream that return a name return
-- the same name and keep the same bytes.
pub peek_sni_unique :
    (r r' : Bool) (events events' : List Event) (stream sni sni' hello hello' : Bytes)
    → peek_sni r events stream ≡ named sni hello
    → peek_sni r' events' stream ≡ named sni' hello'
    → (sni ≡ sni') × (hello ≡ hello')
peek_sni_unique r r' events events' stream sni sni' hello hello' e e' =
    let (a, (x, p)) = peek_sni_sound r events stream sni hello e in
    let (b, (y, q)) = peek_sni_sound r' events' stream sni' hello' e' in
    let same = either (prefixes hello hello' x y (p ∙ sym q)) a b in
    (names (sym a ∙ ap scan same ∙ b), same)
  where
    either :
        ((q : Bytes) × (hello ++ q ≡ hello')) ⊎ ((q : Bytes) × (hello' ++ q ≡ hello))
        → scan hello ≡ done (some sni)
        → scan hello' ≡ done (some sni')
        → hello ≡ hello'
    either (inl (z, h)) a b = no_longer hello hello' z a b h
    either (inr (z, h)) a b = sym (no_longer hello' hello z b a h)

    names : done (some sni) ≡ done (some sni') → sni ≡ sni'
    names h = cc
