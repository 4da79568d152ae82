-- ===== src/Seccomp/Twins.antt =====
-- src/seccomp.rs, `build_program`, at the native and the x32 numbers of system calls.
use basta.Prelude.{
  ℕ, ◌+◌, ◌<◌, ◌≡◌, refl, ap, ◌∙◌, inl, inr, Bool, true, false, not, ◌||◌, Option, none, some, List,
  [], ◌∷◌, arith, ◌==◌, if◌then◌else◌, ==_iff, Bool-cases, All,
}
use basta.Prelude.{bit_or-pow}
use basta.Seccomp.Numbers.{has, map_insert, map_get, map_get-insert}
use basta.Seccomp.{SeccompRule, arg0_eq, Rules, x32, deny_both, program_rules}

-- The numbers of the native ABI.
abbrev pub IsNative : ℕ → Type 0
IsNative n = n < 1073741824

x32_eq : (n : ℕ) → IsNative n → x32 n ≡ n + 1073741824
x32_eq n h = bit_or-pow 30 n h

-- One round of the loop, seen at a native number and at its twin.
one_denied :
    (n k : ℕ) (rules : Rules)
    → IsNative n
    → IsNative k
    → (map_get k (map_insert (x32 n) [] (map_insert n [] rules))
        ≡ (if n == k then some [] else map_get k rules))
      × (map_get (x32 k) (map_insert (x32 n) [] (map_insert n [] rules))
          ≡ (if n == k then some [] else map_get (x32 k) rules))
one_denied n k rules hn hk =
    rw (x32_eq n hn, x32_eq k hk)
      (
        ground (
          arith,
          map_get-insert (n + 1073741824) k [] (map_insert n [] rules),
          map_get-insert n k [] rules,
        ),
        ground (
          arith,
          map_get-insert (n + 1073741824) (k + 1073741824) [] (map_insert n [] rules),
          map_get-insert n (k + 1073741824) [] rules,
        ),
      )

deny_both-get :
    (denied : List ℕ) (k : ℕ) (rules : Rules)
    → All IsNative denied
    → IsNative k
    → (map_get k (deny_both denied rules) ≡ (if has k denied then some [] else map_get k rules))
      × (map_get (x32 k) (deny_both denied rules)
          ≡ (if has k denied then some [] else map_get (x32 k) rules))
unfolding deny_both has
deny_both-get [] k rules a h = (refl, refl)
deny_both-get (n ∷ ns) k rules a h =
    let step = map_insert (x32 n) [] (map_insert n [] rules) in
    let (p, q) = deny_both-get ns k step a.1 h in
    let (p', q') = one_denied n k rules a.0 h in
    (choose (n == k) (has k ns) _ _ _ p p', choose (n == k) (has k ns) _ _ _ q q')
  where
    choose :
        (b c : Bool) (x y z : Option (List SeccompRule))
        → x ≡ (if c then some [] else y)
        → y ≡ (if b then some [] else z)
        → x ≡ (if b || c then some [] else z)
    choose true true x y z e f = e
    choose true false x y z e f = e ∙ f
    choose false true x y z e f = e
    choose false false x y z e f = e ∙ f

pinned :
    (s k af : ℕ) (rules : Rules)
    → IsNative s
    → IsNative k
    → (map_get k (map_insert (x32 s) (arg0_eq af ∷ []) (map_insert s (arg0_eq af ∷ []) rules))
        ≡ (if s == k then some (arg0_eq af ∷ []) else map_get k rules))
      × (map_get
            (x32 k)
            (map_insert (x32 s) (arg0_eq af ∷ []) (map_insert s (arg0_eq af ∷ []) rules))
          ≡ (if s == k then some (arg0_eq af ∷ []) else map_get (x32 k) rules))
pinned s k af rules hs hk =
    rw (x32_eq s hs, x32_eq k hk)
      (
        ground (
          arith,
          map_get-insert (s + 1073741824) k (arg0_eq af ∷ [])
              (map_insert s (arg0_eq af ∷ []) rules),
          map_get-insert s k (arg0_eq af ∷ []) rules,
        ),
        ground (
          arith,
          map_get-insert (s + 1073741824) (k + 1073741824) (arg0_eq af ∷ [])
              (map_insert s (arg0_eq af ∷ []) rules),
          map_get-insert s (k + 1073741824) (arg0_eq af ∷ []) rules,
        ),
      )

-- What the filter holds against a native number and against its x32 twin.
abbrev pub expected : ℕ → ℕ → List ℕ → ℕ → Option (List SeccompRule)
expected sys_socket af_alg denied k =
    if has k denied then some [] else if sys_socket == k then some (arg0_eq af_alg ∷ []) else none

settle :
    (s af : ℕ) (denied : List ℕ) (k : ℕ) (before after : Rules) (j : ℕ)
    → map_get j before ≡ (if has k denied then some [] else none)
    → map_get j after ≡ (if s == k then some (arg0_eq af ∷ []) else map_get j before)
    → map_get j (if not (has s denied) then after else before) ≡ expected s af denied k
settle s af denied k before after j e e' = elim (Bool-cases (s == k)) [
  | inl same ↦ ground (arith, same, e, e', ap (λ x. has x denied) ((==_iff s k).0 same))
  | inr other ↦ ground (arith, other, e, e')
]

-- For denied numbers and a number of `socket` in the native range, the rules say the same of every
-- native number and of its x32 twin: a denied call is matched whatever its arguments, `socket`, when it
-- is not itself denied, is matched by AF_ALG as its first argument, and no other call is matched.
pub program_rules_exact :
    (sys_socket af_alg : ℕ) (denied : List ℕ) (k : ℕ)
    → All IsNative denied
    → IsNative sys_socket
    → IsNative k
    → (map_get k (program_rules sys_socket af_alg denied) ≡ expected sys_socket af_alg denied k)
      × (map_get (x32 k) (program_rules sys_socket af_alg denied)
          ≡ expected sys_socket af_alg denied k)
unfolding program_rules map_get
program_rules_exact s af denied k a hs hk =
    let (p, q) = deny_both-get denied k [] a hk in
    let (p', q') = pinned s k af (deny_both denied []) hs hk in
    (settle s af denied k _ _ k p p', settle s af denied k _ _ (x32 k) q q')
