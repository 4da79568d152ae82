-- ===== src/Egress/Addr/Blocks.antt =====
-- src/egress.rs, `cidr_range` and `cidr_overlaps`, against blocks as sets of addresses.
use basta.Prelude.{
  ℕ, zero, suc, ◌+◌, ◌-◌, ◌*◌, ◌/◌, ◌^◌, ◌≤◌, ◌<◌, ◌≡◌, refl, sym, ap, ◌∙◌, ◌↔◌, Bool, true, ◌&&◌,
  arith, ltb, leb, ◌==◌, leb→le, le→leb, &&_both,
}
use Prim.Native.Nat.{max, bit_and, bit_or}
use basta.Prelude.{bit_and-high, bit_or-ones}
use native.Mathlib.Nat.{mod-eq_of_lt, div-eq_of_lt-le, mod-add-div', mod-lt, div-lt_iff_lt-mul}
use basta.Egress.Addr.{Ipv4Addr, IsAddr, to_bits, u32_max, mask_of, cidr_range, cidr_overlaps}

-- The number of addresses in a block.
abbrev pub size_of : ℕ → ℕ
size_of prefix = 2 ^ (32 - prefix)

-- The address `a`, as a number, agrees with `x` on the first `prefix` bits.
pub record InBlock (a : ℕ) (x : Ipv4Addr) (prefix : ℕ) : Type 0 where
  pub is_address : a < 2 ^ 32
  pub same_network : a / size_of prefix ≡ to_bits x / size_of prefix

-- The test holds of every prefix below the bound.
each_prefix : (ℕ → Bool) → ℕ → Bool
each_prefix test zero = true
each_prefix test (suc bound) = each_prefix test bound && test bound

each_prefix_lem :
    (test : ℕ → Bool) (bound prefix : ℕ)
    → prefix < bound
    → each_prefix test bound ≡ true
    → test prefix ≡ true
unfolding each_prefix
each_prefix_lem test zero prefix below all_hold = absurd (omega arith)
each_prefix_lem test (suc bound) prefix below all_hold =
    ground (arith, each_prefix_lem test bound prefix)

mask_check : ℕ → Bool
mask_check p =
    mask_of p == (2 ^ p - 1) * size_of p
    && (u32_max - mask_of p == size_of p - 1)
    && (2 ^ p * size_of p == 2 ^ 32)
    && ltb 0 (size_of p)

mask_table : each_prefix mask_check 33 ≡ true
unfolding each_prefix mask_check
mask_table = refl

mask_facts :
    (p : ℕ)
    → p ≤ 32
    → (mask_of p ≡ (2 ^ p - 1) * size_of p)
      × (u32_max - mask_of p ≡ size_of p - 1)
      × (2 ^ p * size_of p ≡ 2 ^ 32)
      × (0 < size_of p)
mask_facts p h =
    split (mask_of p) ((2 ^ p - 1) * size_of p) (u32_max - mask_of p) (size_of p - 1)
      (2 ^ p * size_of p) (size_of p)
      (unfold mask_check in each_prefix_lem mask_check 33 p (omega arith) mask_table)
  where
    split :
        (a b c d e s : ℕ)
        → (a == b && c == d && e == 2 ^ 32 && ltb 0 s) ≡ true
        → (a ≡ b) × (c ≡ d) × (e ≡ 2 ^ 32) × (0 < s)
    split a b c d e s t = (ground arith, ground arith, ground arith, ground arith)

to_bits_lt : (x : Ipv4Addr) → IsAddr x → to_bits x < 2 ^ 32
to_bits_lt x h = omega arith

low_end :
    (bits p : ℕ) → bits < 2 ^ 32 → p ≤ 32 → bit_and bits (mask_of p) ≡ bits / size_of p * size_of p
low_end bits p h k =
    let (m, _, whole, pos) = mask_facts p k in
    let net : bits / size_of p < 2 ^ p = (div-lt_iff_lt-mul pos).1 (omega (arith, whole)) in
    ap (bit_and bits) m ∙ bit_and-high p (32 - p) bits ∙ ap (λ y. y * size_of p) (mod-eq_of_lt net)

high_end :
    (bits p : ℕ)
    → bits < 2 ^ 32
    → p ≤ 32
    → bit_or (bit_and bits (mask_of p)) (u32_max - mask_of p)
      ≡ bits / size_of p * size_of p + (size_of p - 1)
high_end bits p h k =
    let (_, inv, _, _) = mask_facts p k in
    ap (λ y. bit_or y (u32_max - mask_of p)) (low_end bits p h k)
    ∙ ap (bit_or (bits / size_of p * size_of p)) inv
    ∙ bit_or-ones (32 - p) (bits / size_of p)

-- The range is the block.
cidr_range_lem :
    (x : Ipv4Addr) (p : ℕ)
    → IsAddr x
    → p ≤ 32
    → cidr_range x p
      ≡ (to_bits x / size_of p * size_of p, to_bits x / size_of p * size_of p + (size_of p - 1))
unfolding cidr_range
cidr_range_lem x p h k =
    let lo = low_end (to_bits x) p (to_bits_lt x h) k in
    let hi = high_end (to_bits x) p (to_bits_lt x h) k in λ i. (lo i, hi i)

-- An address is in the block exactly when it lies between the ends.
between : (a b s : ℕ) → 0 < s → (a / s ≡ b) ↔ ((b * s ≤ a) × (a ≤ b * s + (s - 1)))
between a b s pos = (
  (λ e. (
    grind (arith, mod-add-div' a s, mod-lt a pos, e),
    grind (arith, mod-add-div' a s, mod-lt a pos, e),
  )),
  λ h. div-eq_of_lt-le s h.0 (grind (arith, h.0, h.1)),
)

overlaps_lem :
    (x : Ipv4Addr) (p : ℕ) (y : Ipv4Addr) (q : ℕ)
    → IsAddr x
    → p ≤ 32
    → IsAddr y
    → q ≤ 32
    → cidr_overlaps x p y q ≡ (
        leb
          (to_bits x / size_of p * size_of p)
          (to_bits y / size_of q * size_of q + (size_of q - 1))
        && leb
            (to_bits y / size_of q * size_of q)
            (to_bits x / size_of p * size_of p + (size_of p - 1)))
unfolding cidr_overlaps
overlaps_lem x p y q h k h' k' = λ i.
    leb (cidr_range_lem x p h k i).0 (cidr_range_lem y q h' k' i).1
    && leb (cidr_range_lem y q h' k' i).0 (cidr_range_lem x p h k i).1

below : (bits p a : ℕ) → bits < 2 ^ 32 → p ≤ 32 → a / size_of p ≡ bits / size_of p → a < 2 ^ 32
below bits p a h k e =
    let (_, _, whole, pos) = mask_facts p k in
    let net : bits / size_of p < 2 ^ p = (div-lt_iff_lt-mul pos).1 (omega (arith, whole)) in
    omega (arith, whole, (div-lt_iff_lt-mul {x = a} {y = 2 ^ p} pos).0 (omega (arith, net, e)))

-- The later of two starts lies in both ranges, if each starts by the end of the other.
common :
    (b c s t : ℕ)
    → 0 < s
    → 0 < t
    → (leb (b * s) (c * t + (t - 1)) && leb (c * t) (b * s + (s - 1))) ≡ true
    → (max (b * s) (c * t) / s ≡ b) × (max (b * s) (c * t) / t ≡ c)
common b c s t ps pt h =
    let (u, v) = &&_both (leb (b * s) (c * t + (t - 1))) _ h in
    let u' = leb→le _ _ u in
    let v' = leb→le _ _ v in
    (
      (between (max (b * s) (c * t)) b s ps).1 (omega (arith, u', v'), omega (arith, u', v')),
      (between (max (b * s) (c * t)) c t pt).1 (omega (arith, u', v'), omega (arith, u', v')),
    )

crossing :
    (a b c s t : ℕ)
    → 0 < s
    → 0 < t
    → a / s ≡ b
    → a / t ≡ c
    → (leb (b * s) (c * t + (t - 1)) && leb (c * t) (b * s + (s - 1))) ≡ true
crossing a b c s t ps pt e f =
    let (u, v) = (between a b s ps).0 e in
    let (u', v') = (between a c t pt).0 f in
    rw (
      le→leb (b * s) (c * t + (t - 1)) (omega (arith, u, v')),
      le→leb (c * t) (b * s + (s - 1)) (omega (arith, u', v)),
    )

-- For prefixes of at most 32 bits, `cidr_overlaps` answers yes exactly when some IPv4 address lies in
-- both blocks, each block being the addresses that agree with its base on the prefix.
pub cidr_overlaps_exact :
    (x : Ipv4Addr) (p : ℕ) (y : Ipv4Addr) (q : ℕ)
    → IsAddr x
    → p ≤ 32
    → IsAddr y
    → q ≤ 32
    → (cidr_overlaps x p y q ≡ true) ↔ ((a : ℕ) × InBlock a x p × InBlock a y q)
cidr_overlaps_exact x p y q h k h' k' =
    let ps = (mask_facts p k).3 in
    let qs = (mask_facts q k').3 in
    let bx : ℕ = to_bits x / size_of p in
    let by : ℕ = to_bits y / size_of q in
    let same = overlaps_lem x p y q h k h' k' in
    (
      λ e.
          let (u, v) = common bx by (size_of p) (size_of q) ps qs (sym same ∙ e) in
          let a : ℕ = max (bx * size_of p) (by * size_of q) in
          let lt = below (to_bits x) p a (to_bits_lt x h) k u in
          (
            a,
            record { is_address = lt; same_network = u },
            record { is_address = lt; same_network = v },
          ),
      λ w.
          same ∙ crossing w.0 bx by (size_of p) (size_of q) ps qs w.1.same_network w.2.same_network,
    )
