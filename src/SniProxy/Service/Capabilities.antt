-- ===== src/SniProxy/Service/Capabilities.antt =====
-- src/sni_proxy.rs, `drop_cap_bounding_set_except_net_admin`: the bounding set that the proxy keeps.
use basta.Prelude.{
  ℕ, zero, suc, ◌+◌, ◌≤◌, ◌<◌, ◌≡◌, refl, sym, ap, ◌∙◌, inl, inr, Bool, true, false, not, ◌&&◌,
  ◌||◌, List, [], ◌∷◌, arith, ◌==◌, if◌then◌else◌, Bool-cases, drop, ok-injective,
}
use basta.Prelude.{Result, Error, ok, err, not_hardened}
use basta.SniProxy.Service.{
  cap_net_admin, drop_each, range_from, drop_cap_bounding_set_except_net_admin,
}

abbrev is_in : ℕ → List ℕ → Bool
is_in k [] = false
is_in k (c ∷ cs) = k == c || is_in k cs

-- What is left of a set when these capabilities have been gone through.
abbrev left : (ℕ → Bool) → List ℕ → ℕ → Bool
left set caps k = set k && (k == cap_net_admin || not (is_in k caps))

drop_each-left :
    (drops : ℕ → Bool) (caps : List ℕ) (set set' : ℕ → Bool)
    → drop_each drops caps set ≡ ok set'
    → (k : ℕ) → set' k ≡ left set caps k
unfolding drop_each
drop_each-left drops [] set set' h k =
    ap (λ s. s k) (sym (ok-injective h)) ∙ all_left (set k) (k == cap_net_admin)
  where
    all_left : (a b : Bool) → a ≡ (a && (b || true))
    all_left a b = ground arith
drop_each-left drops (c ∷ caps) set set' h k =
    go (c == cap_net_admin) (set c) (drops c) refl refl (drop_each-left drops caps set set')
      (drop_each-left drops caps (λ j. not (j == c) && set j) set') h
  where
    go :
        (x y z : Bool)
        → (c == cap_net_admin) ≡ x
        → set c ≡ y
        → (drop_each drops caps set ≡ ok set' → (j : ℕ) → set' j ≡ left set caps j)
        → (drop_each drops caps (λ j. not (j == c) && set j) ≡ ok set'
            → (j : ℕ) → set' j ≡ left (λ i. not (i == c) && set i) caps j)
        → (if x || not y
            then drop_each drops caps set
            else (if z
                then drop_each drops caps (λ j. not (j == c) && set j)
                else err not_hardened))
          ≡ ok set'
        → set' k ≡ left set (c ∷ caps) k
    go true y z a b keep drop l = ground (arith, a, keep l k)
    go false false z a b keep drop l = elim (Bool-cases (k == c)) [
      | inl e ↦
          let same : k ≡ c = ground (arith, e) in ground (arith, a, e, ap set same, b, keep l k)
      | inr e ↦ ground (arith, a, e, keep l k)
    ]
    go false true true a b keep drop l = ground (arith, a, b, drop l k)
    go false true false a b keep drop l = cc

is_in-range : (n lo k : ℕ) → lo ≤ k → k < lo + n → is_in k (range_from n lo) ≡ true
is_in-range zero lo k a b = absurd (omega (arith, a, b))
is_in-range (suc n) lo k a b = elim (Bool-cases (k == lo)) [
  | inl e ↦ rw e refl
  | inr e ↦ rw e (is_in-range n (lo + 1) k (ground (arith, a, e)) (omega (arith, b)))
]

or_no : (a b : Bool) → (a && (b || not true)) ≡ (a && b)
or_no a b = ground arith

left_only :
    (drops set set' : ℕ → Bool)
    → drop_each drops (range_from 64 0) set ≡ ok set'
    → (k : ℕ) → k < 64
    → set' k ≡ (set k && k == cap_net_admin)
left_only drops set set' h k small =
    drop_each-left drops (range_from 64 0) set set' h k
    ∙ ap (λ b. set k && (k == cap_net_admin || not b))
        (is_in-range 64 0 k (omega arith) (omega (arith, small)))
    ∙ or_no (set k) (k == cap_net_admin)

-- A capability of the list that is there, is not CAP_NET_ADMIN, and cannot be dropped.
abbrev Stuck : (ℕ → Bool) → (ℕ → Bool) → List ℕ → Type 0
Stuck drops set caps =
    (k : ℕ) × (is_in k caps ≡ true)
    × ((k == cap_net_admin) ≡ false)
    × (set k ≡ true)
    × (drops k ≡ false)

drop_each-Stuck :
    (drops : ℕ → Bool) (caps : List ℕ) (set : ℕ → Bool) (e : Error)
    → drop_each drops caps set ≡ err e
    → Stuck drops set caps
unfolding drop_each
drop_each-Stuck drops [] set e h = cc
drop_each-Stuck drops (c ∷ caps) set e h =
    go (c == cap_net_admin) (set c) (drops c) refl refl refl (drop_each-Stuck drops caps set e)
      (drop_each-Stuck drops caps (λ j. not (j == c) && set j) e) h
  where
    deeper : Stuck drops set caps → Stuck drops set (c ∷ caps)
    deeper (k, i, n, s, d) = (k, ground (arith, i), n, s, d)

    shrunk : Stuck drops (λ j. not (j == c) && set j) caps → Stuck drops set (c ∷ caps)
    shrunk (k, i, n, s, d) = (k, ground (arith, i), n, ground (arith, s), d)

    go :
        (x y z : Bool)
        → (c == cap_net_admin) ≡ x
        → set c ≡ y
        → drops c ≡ z
        → (drop_each drops caps set ≡ err e → Stuck drops set caps)
        → (drop_each drops caps (λ j. not (j == c) && set j) ≡ err e
            → Stuck drops (λ j. not (j == c) && set j) caps)
        → (if x || not y
            then drop_each drops caps set
            else (if z
                then drop_each drops caps (λ j. not (j == c) && set j)
                else err not_hardened))
          ≡ err e
        → Stuck drops set (c ∷ caps)
    go true y z a b d keep drop l = deeper (keep l)
    go false false z a b d keep drop l = deeper (keep l)
    go false true true a b d keep drop l = shrunk (drop l)
    go false true false a b d keep drop l = (c, ground arith, a, b, d)

range-bound : (n lo k : ℕ) → is_in k (range_from n lo) ≡ true → k < lo + n
range-bound zero lo k h = cc
range-bound (suc n) lo k h = elim (Bool-cases (k == lo)) [
  | inl e ↦ ground (arith, e)
  | inr e ↦
      let r =
        range-bound n (lo + 1) k (sym (ap (λ b. b || is_in k (range_from n (lo + 1))) e) ∙ h) in
      omega (arith, r)
]

-- How the loop ends: with a set that is that of the start without any capability below 64 but
-- CAP_NET_ADMIN, or with an error that a capability below 64 has caused.
abbrev pub IsBounded : (ℕ → Bool) → (ℕ → Bool) → Result (ℕ → Bool) → Type 0
IsBounded drops set (ok set') = (k : ℕ) → k < 64 → set' k ≡ (set k && k == cap_net_admin)
IsBounded drops set (err e) =
    (k : ℕ) × (k < 64) × ((k == cap_net_admin) ≡ false) × (set k ≡ true) × (drops k ≡ false)

-- When the loop ends well, no capability from 0 to 63 is left in the bounding set but CAP_NET_ADMIN,
-- and that one stays as it was. It fails only if a capability from 0 to 63 that is in the set, and is
-- not CAP_NET_ADMIN, cannot be dropped: one that is absent does no harm, though the kernel would refuse
-- to drop it.
pub bounding_set_exact :
    (drops set : ℕ → Bool) → IsBounded drops set (drop_cap_bounding_set_except_net_admin drops set)
unfolding drop_cap_bounding_set_except_net_admin
bounding_set_exact drops set = go (drop_each drops (range_from 64 0) set) refl
  where
    go : (r : Result (ℕ → Bool)) → drop_each drops (range_from 64 0) set ≡ r → IsBounded drops set r
    go (ok set') h = left_only drops set set' h
    go (err e) h =
        let (k, i, n, s, d) = drop_each-Stuck drops (range_from 64 0) set e h in
        (k, range-bound 64 0 k i, n, s, d)
