-- ===== src/Egress/Parse/RoundTrip.antt =====
-- src/egress.rs: addresses and ports as the ruleset writes them, read by the parsers of the flags.
use basta.Prelude.{
  ℕ, ◌≤◌, ◌<◌, ◌≡◌, refl, sym, ap, ◌∙◌, subst, ◌≢◌, inl, inr, Bool, true, false, not, ◌&&◌, ◌||◌,
  Option, none, some, List, [], ◌∷◌, ◌++◌, append-nil, arith, leb, ◌==◌, if◌then◌else◌, le→leb,
  Bool-cases, length, is_empty, all, All, Bytes, is_ascii_digit, split_once, split, parse_uint,
  decimal, starts_with, split-absent, split-append, split_once-absent, split_once-append,
  parse_uint-decimal, decimal-digits, decimal-cons, decimal-lead, length-decimal, IsDigit,
}
use basta.Prelude.{ok}
use basta.Egress.Addr.{Ipv4Addr, IsAddr}
use basta.Egress.Spec.{Ports, one, range}
use basta.Egress.Parse.{parse_u16, parse_range, parse_one, parse_ports, octet, four, parse_ipv4}
use basta.Egress.Render.{show_addr, show_ports}

octet-shape :
    (d : ℕ) (r : Bytes)
    → all is_ascii_digit (d ∷ r) ≡ true
    → length (d ∷ r) ≤ 3
    → (is_empty r || not (d == b'0')) ≡ true
    → octet (d ∷ r) ≡ parse_uint 255 (d ∷ r)
unfolding octet
octet-shape d r a b c =
    ap (λ t. if t then parse_uint 255 (d ∷ r) else none) (both (le→leb (length (d ∷ r)) 3 b))
  where
    both :
        leb (length (d ∷ r)) 3 ≡ true
        → (all is_ascii_digit (d ∷ r) && leb (length (d ∷ r)) 3 && (is_empty r || not (d == b'0')))
          ≡ true
    both e = rw a (rw e c)

all_digits : (s : Bytes) → All IsDigit s → all is_ascii_digit s ≡ true
all_digits [] h = refl
all_digits (c ∷ s) h = ground (arith, h, all_digits s h.1)

zero_octet : octet (decimal 0) ≡ some 0
unfolding octet decimal parse_uint
zero_octet = refl

-- An octet that is written in decimal is read back.
octet-decimal : (n : ℕ) → n < 256 → octet (decimal n) ≡ some n
octet-decimal n h = elim (Bool-cases (n == 0)) [
  | inl e ↦ let z : n ≡ 0 = ground (arith, e) in rw z zero_octet
  | inr e ↦
      let (d, r, e') = decimal-cons n in
      let digits : All IsDigit (d ∷ r) = subst (All IsDigit) e' (decimal-digits n) in
      let short : length (d ∷ r) ≤ 3 =
        subst (λ s. length s ≤ 3) e' (length-decimal 2 n (omega (arith, h))) in
      let lead : (d == b'0') ≡ false =
        subst (λ s. starts_with b'0' s ≡ false) e'
          (decimal-lead n (ground (arith, e)) (omega (arith, h))) in
      ap octet e'
      ∙ octet-shape d r (all_digits (d ∷ r) digits) short (unled r (d == b'0') lead)
      ∙ ap (parse_uint 255) (sym e')
      ∙ parse_uint-decimal 255 n (omega (arith, h)) (omega (arith, h))
]
  where
    unled : (r : Bytes) (b : Bool) → b ≡ false → (is_empty r || not b) ≡ true
    unled [] b h = refl
    unled (x ∷ r) b h = rw h refl

dotless : (s : Bytes) → All IsDigit s → All (λ c. c ≢ 46) s
dotless [] h = tt
dotless (c ∷ s) h = (λ e. omega (arith, h.0.0, h.0.1, e), dotless s h.1)

dashless : (s : Bytes) → All IsDigit s → All (λ c. c ≢ 45) s
dashless [] h = tt
dashless (c ∷ s) h = (λ e. omega (arith, h.0.0, h.0.1, e), dashless s h.1)

pieces : (x : Ipv4Addr) → List Bytes
pieces x = decimal x.a ∷ decimal x.b ∷ decimal x.c ∷ decimal x.d ∷ []

split-show_addr : (x : Ipv4Addr) → split 46 (show_addr x) ≡ pieces x
unfolding show_addr pieces
split-show_addr x =
    split-append 46 (decimal x.a) _ (dotless _ (decimal-digits x.a))
    ∙ ap (λ t. decimal x.a ∷ t)
        (split-append 46 (decimal x.b) _ (dotless _ (decimal-digits x.b))
          ∙ ap (λ t. decimal x.b ∷ t)
              (split-append 46 (decimal x.c) _ (dotless _ (decimal-digits x.c))
                ∙ ap (λ t. decimal x.c ∷ t)
                    (split-absent 46 (decimal x.d) (dotless _ (decimal-digits x.d)))))

four-pieces : (x : Ipv4Addr) → IsAddr x → four (pieces x) ≡ some x
unfolding pieces
four-pieces x h =
    rw (octet-decimal x.a h.a_byte, four)
      (rw (octet-decimal x.b h.b_byte, four)
        (rw (octet-decimal x.c h.c_byte, four) (rw (octet-decimal x.d h.d_byte, four) refl)))

-- Every address is read back from the text that basta writes for it.
pub parse_ipv4-show_addr : (x : Ipv4Addr) → IsAddr x → parse_ipv4 (show_addr x) ≡ some x
unfolding parse_ipv4
parse_ipv4-show_addr x h = ap four (split-show_addr x) ∙ four-pieces x h

-- The ports of an accepted rule: 1 to 65535, in order.
abbrev pub IsPortSpec : Ports → Type 0
IsPortSpec (one p) = (0 < p) × (p < 65536)
IsPortSpec (range lo hi) = (0 < lo) × (lo ≤ hi) × (hi < 65536)

parse_u16-decimal : (n : ℕ) → n < 65536 → parse_u16 (decimal n) ≡ some n
parse_u16-decimal n h = parse_uint-decimal 65535 n (omega (arith, h)) (omega (arith, h))

parse_one-decimal : (p : ℕ) → 0 < p → p < 65536 → parse_one (decimal p) ≡ ok (one p)
unfolding parse_one
parse_one-decimal p more small = rw (parse_u16-decimal p small) (ground (arith, more))

parse_range-decimal :
    (lo hi : ℕ)
    → 0 < lo
    → lo ≤ hi
    → hi < 65536
    → parse_range (decimal lo) (decimal hi) ≡ ok (range lo hi)
unfolding parse_range
parse_range-decimal lo hi more order small =
    rw (parse_u16-decimal lo (omega (arith, order, small)))
      (rw (parse_u16-decimal hi small) (ground (arith, more, order)))

parse_ports-one : (s : Bytes) → split_once b'-' s ≡ none → parse_ports s ≡ parse_one s
unfolding parse_ports
parse_ports-one s h = go (split_once b'-' s) h
  where
    go :
        (o : Option (Bytes × Bytes))
        → o ≡ none
        → elim o [ some (lo, hi) ↦ parse_range lo hi | none ↦ parse_one s ] ≡ parse_one s
    go o e = rw e refl

parse_ports-range :
    (s lo hi : Bytes) → split_once b'-' s ≡ some (lo, hi) → parse_ports s ≡ parse_range lo hi
unfolding parse_ports
parse_ports-range s lo hi h = go (split_once b'-' s) h
  where
    go :
        (o : Option (Bytes × Bytes))
        → o ≡ some (lo, hi)
        → elim o [ some (a, b) ↦ parse_range a b | none ↦ parse_one s ] ≡ parse_range lo hi
    go o e = rw e refl

-- Every accepted port or range is read back from the text that basta writes for it.
pub parse_ports-show_ports : (p : Ports) → IsPortSpec p → parse_ports (show_ports p) ≡ ok p
unfolding show_ports
parse_ports-show_ports (one p) h =
    parse_ports-one (decimal p) (split_once-absent b'-' _ (dashless _ (decimal-digits p)))
    ∙ parse_one-decimal p h.0 h.1
parse_ports-show_ports (range lo hi) h =
    parse_ports-range _ (decimal lo) (decimal hi ++ [])
      (split_once-append b'-' _ _ (dashless _ (decimal-digits lo)))
    ∙ ap (parse_range (decimal lo)) (append-nil (decimal hi))
    ∙ parse_range-decimal lo hi h.0 h.1 h.2
