-- ===== src/Egress/Render/Upstream.antt =====
-- src/egress.rs, `nft_ruleset`: the addresses that the kernel lets the proxy dial.
use basta.Prelude.{
  ◌≡◌, refl, sym, ap, ◌∙◌, inl, inr, Bool, true, false, ◌||◌, List, [], ◌∷◌, ◌++◌, arith, leb,
  Bool-cases, any,
}
use basta.Egress.Addr.{Ipv4Addr, addr_eq, to_bits}
use basta.Egress.Spec.{SniRule, EgressSpec}
use basta.Egress.Render.{insert_addr, sort_addrs, drop_head, dedup_addrs, all_addrs, upstream_addrs}

abbrev pub among : Ipv4Addr → List Ipv4Addr → Bool
among x [] = false
among x (y ∷ ys) = addr_eq y x || among x ys

swap_or : (a b c : Bool) → (a || (b || c)) ≡ (b || (a || c))
swap_or a b c = ground arith

among-insert :
    (z x : Ipv4Addr) (ys : List Ipv4Addr) → among z (insert_addr x ys) ≡ (addr_eq x z || among z ys)
among-insert z x [] = refl
among-insert z x (y ∷ ys) = elim (Bool-cases (leb (to_bits x) (to_bits y))) [
  | inl e ↦ rw e refl
  | inr e ↦ rw e (
      ap (λ b. addr_eq y z || b) (among-insert z x ys)
      ∙ swap_or (addr_eq y z) (addr_eq x z) (among z ys))
]

among-sort : (z : Ipv4Addr) (xs : List Ipv4Addr) → among z (sort_addrs xs) ≡ among z xs
unfolding sort_addrs
among-sort z [] = refl
among-sort z (x ∷ xs) =
    among-insert z x (sort_addrs xs) ∙ ap (λ b. addr_eq x z || b) (among-sort z xs)

same_addr : (x y z : Ipv4Addr) → addr_eq x y ≡ true → addr_eq x z ≡ addr_eq y z
same_addr x y z h = ground (arith, h)

or_twice : (a b : Bool) → (a || b) ≡ (a || (a || b))
or_twice a b = ground arith

among-drop_head :
    (z x : Ipv4Addr) (ys : List Ipv4Addr) → among z (drop_head x ys) ≡ (addr_eq x z || among z ys)
among-drop_head z x [] = refl
among-drop_head z x (y ∷ ys) = elim (Bool-cases (addr_eq x y)) [
  | inl e ↦ rw e (
      or_twice (addr_eq y z) (among z ys)
      ∙ ap (λ b. b || (addr_eq y z || among z ys)) (sym (same_addr x y z e)))
  | inr e ↦ rw e refl
]

among-dedup : (z : Ipv4Addr) (xs : List Ipv4Addr) → among z (dedup_addrs xs) ≡ among z xs
unfolding dedup_addrs
among-dedup z [] = refl
among-dedup z (x ∷ xs) =
    among-drop_head z x (dedup_addrs xs) ∙ ap (λ b. addr_eq x z || b) (among-dedup z xs)

among-append :
    (z : Ipv4Addr) (xs ys : List Ipv4Addr) → among z (xs ++ ys) ≡ (among z xs || among z ys)
among-append z [] ys = refl
among-append z (x ∷ xs) ys = ground (arith, among-append z xs ys)

among-all :
    (z : Ipv4Addr) (rs : List SniRule) → among z (all_addrs rs) ≡ any (λ r. among z r.addrs) rs
among-all z [] = refl
among-all z (r ∷ rs) =
    among-append z r.addrs (all_addrs rs) ∙ ap (λ b. among z r.addrs || b) (among-all z rs)

-- The set in the accept rule for marked traffic holds an address exactly when some `--allow-sni` entry
-- of the policy is pinned to it: sorting and removing repetitions lose and add nothing.
pub upstream_addrs_exact :
    (s : EgressSpec) (z : Ipv4Addr) → among z (upstream_addrs s) ≡ any (λ r. among z r.addrs) s.sni
unfolding upstream_addrs
upstream_addrs_exact s z =
    among-dedup z (sort_addrs (all_addrs s.sni))
    ∙ among-sort z (all_addrs s.sni)
    ∙ among-all z s.sni
