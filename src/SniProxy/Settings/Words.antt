-- ===== src/SniProxy/Settings/Words.antt =====
-- src/netns.rs, `render_proxy_config`: the words of its lines.
use basta.Prelude.{
  ℕ, ◌+◌, ◌≡◌, refl, sym, subst, Bool, true, false, ◌||◌, List, [], ◌∷◌, ◌++◌, arith, ◌==◌,
  if◌then◌else◌, &&_both, all, All, Bytes, is_ascii_alphanumeric, split, decimal, IsGraphic, ℤ, pos,
  negsuc, show_i32, decimal-digits, decimal-cons, IsDigit,
}
use basta.Prelude.{cons_head, IsWord, IsWord-IsGraphic, IsWord-append}
use basta.ClientHello.DnsName.{is_label, is_dns_name}
use basta.Egress.Addr.{Ipv4Addr}
use basta.Egress.Render.{show_addr}

digits-IsGraphic : (s : Bytes) → All IsDigit s → All IsGraphic s
digits-IsGraphic [] h = tt
digits-IsGraphic (c ∷ s) h = ((omega (arith, h.0.0), omega (arith, h.0.1)), digits-IsGraphic s h.1)

pub decimal-IsWord : (n : ℕ) → IsWord (decimal n)
decimal-IsWord n =
    let (d, r, e) = decimal-cons n in
    subst IsWord (sym e) (digits-IsGraphic (d ∷ r) (subst (All IsDigit) e (decimal-digits n)))

pub show_i32-IsWord : (z : ℤ) → IsWord (show_i32 z)
unfolding show_i32
show_i32-IsWord (pos n) = decimal-IsWord n
show_i32-IsWord (negsuc n) =
    ((omega arith, omega arith), IsWord-IsGraphic _ (decimal-IsWord (n + 1)))

pub show_addr-IsWord : (x : Ipv4Addr) → IsWord (show_addr x)
unfolding show_addr
show_addr-IsWord x =
    dotted _ _ (decimal-IsWord x.a)
      (dotted _ _ (decimal-IsWord x.b) (dotted _ _ (decimal-IsWord x.c) (decimal-IsWord x.d)))
  where
    dotted : (v w : Bytes) → IsWord v → IsWord w → IsWord (v ++ (b'.' ∷ w))
    dotted v w h k = IsWord-append v (b'.' ∷ w) h ((omega arith, omega arith), IsWord-IsGraphic w k)

abbrev is_name_byte : ℕ → Bool
is_name_byte b = is_ascii_alphanumeric b || b == b'-'

label_bytes : (l : Bytes) → is_label l ≡ true → all is_name_byte l ≡ true
unfolding is_label
label_bytes l h = ground (arith, h)

labels_bytes : (ls : List Bytes) → all is_label ls ≡ true → all (all is_name_byte) ls ≡ true
labels_bytes [] h = refl
labels_bytes (l ∷ ls) h =
    let (a, b) = &&_both (is_label l) (all is_label ls) h in
    rw (label_bytes l a) (labels_bytes ls b)

name_byte-IsGraphic : (c : ℕ) → is_name_byte c ≡ true → IsGraphic c
name_byte-IsGraphic c h = ground (arith, h)

name_bytes : (s : Bytes) → all (all is_name_byte) (split b'.' s) ≡ true → All IsGraphic s
unfolding split
name_bytes [] h = tt
name_bytes (c ∷ s) h = go (c == b'.') refl (split b'.' s) (name_bytes s) h
  where
    go :
        (b : Bool)
        → (c == b'.') ≡ b
        → (rest : List Bytes) → (all (all is_name_byte) rest ≡ true → All IsGraphic s)
        → all (all is_name_byte) (if b then [] ∷ rest else cons_head c rest) ≡ true
        → All IsGraphic (c ∷ s)
    go true e rest ih k = (ground (arith, e), ih k)
    go false e [] ih k =
        (name_byte-IsGraphic c (&&_both (is_name_byte c) true (&&_both _ true k).0).0, ih refl)
    go false e (w ∷ ws) ih k =
        let (a, b) = &&_both (all is_name_byte (c ∷ w)) (all (all is_name_byte) ws) k in
        let (p, q) = &&_both (is_name_byte c) (all is_name_byte w) a in
        (name_byte-IsGraphic c p, ih (rw q b))

pub is_dns_name-IsWord : (s : Bytes) → is_dns_name s ≡ true → IsWord s
unfolding is_dns_name
is_dns_name-IsWord [] h = cc
is_dns_name-IsWord (c ∷ s) h =
    name_bytes (c ∷ s) (labels_bytes (split 46 (c ∷ s)) (ground (arith, h)))
