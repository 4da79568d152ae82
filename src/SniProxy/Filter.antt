-- ===== src/SniProxy/Filter.antt =====
-- src/sni_proxy.rs, `install_seccomp`: the system calls that the proxy keeps.
use basta.Prelude.{
  ℕ, ◌%◌, ◌≡◌, refl, sym, ap, ◌∙◌, subst, inl, inr, Bool, true, false, not, ◌&&◌, ◌||◌, none, some,
  List, [], ◌∷◌, map, ltb, ◌==◌, ==_iff, &&_both, Bool-cases, if◌then◌else◌, all, All, all-All,
  Bytes, codes, eq_bytes, eq_bytes_iff, contains_bytes,
}
use basta.Seccomp.{Sys, Rules, SeccompRule, arg0_eq}
use basta.Seccomp.Numbers.{map_insert, map_get, map_get-insert}
use basta.Seccomp.Denylist.{numbered}
use basta.SniProxy.{
  proxy_calls, allow_calls, proxy_rules, SeccompAction, kill_process, allow, SeccompFilter,
  proxy_filter,
}

allow_calls-get :
    (sys : Sys) (names : List Bytes) (k : ℕ) (rules : Rules)
    → map_get k (allow_calls sys names rules)
      ≡ (if numbered sys names k then some [] else map_get k rules)
unfolding allow_calls
allow_calls-get sys [] k rules = refl
allow_calls-get sys (n ∷ ns) k rules =
    allow_calls-get sys ns k (map_insert (sys n) [] rules)
    ∙ choose (numbered sys ns k) (sys n == k) (map_get-insert (sys n) k [] rules)
  where
    choose :
        (b c : Bool)
        → map_get k (map_insert (sys n) [] rules) ≡ (if c then some [] else map_get k rules)
        → (if b then some [] else map_get k (map_insert (sys n) [] rules))
          ≡ (if c || b then some [] else map_get k rules)
    choose true true e = refl
    choose true false e = refl
    choose false true e = e
    choose false false e = e

-- The rule of every number of a system call.
proxy_rules-get :
    (sys : Sys) (af_inet k : ℕ)
    → map_get k (proxy_rules sys af_inet) ≡ (
        if sys (codes "socket") == k
        then some (arg0_eq af_inet ∷ [])
        else if numbered sys proxy_calls k
        then some []
        else none)
unfolding proxy_rules
proxy_rules-get sys af_inet k =
    map_get-insert (sys (codes "socket")) k (arg0_eq af_inet ∷ []) (allow_calls sys proxy_calls [])
    ∙ ap (λ x. if sys (codes "socket") == k then some (arg0_eq af_inet ∷ []) else x)
        (allow_calls-get sys proxy_calls k [] ∙ nothing)
  where
    nothing :
        (if numbered sys proxy_calls k then some [] else map_get {V = List SeccompRule} k [])
        ≡ (if numbered sys proxy_calls k then some [] else none)
    nothing = unfold map_get in refl

abbrev pub is_bytes : Bytes → Bool
is_bytes = all (λ c. ltb c 256)

-- What a filter of `seccompiler` does with the call of a number and a first argument.
abbrev pub Decide : Type 0
Decide = SeccompFilter → ℕ → ℕ → SeccompAction

-- What `seccompiler` documents: a number with an empty list of rules matches; one with a rule on the
-- double word of argument 0 matches if its low 32 bits are equal; one that is not in the map does not.
pub record IsSeccompiler (decide : Decide) : Type 0 where
  pub matches :
      (f : SeccompFilter) (k arg : ℕ)
      → map_get k f.rules ≡ some []
      → decide f k arg ≡ f.match_action
  pub argument :
      (f : SeccompFilter) (k arg v : ℕ)
      → map_get k f.rules ≡ some (arg0_eq v ∷ [])
      → decide f k arg ≡ (if arg % 4294967296 == v then f.match_action else f.mismatch_action)
  pub unlisted :
      (f : SeccompFilter) (k arg : ℕ)
      → map_get k f.rules ≡ none
      → decide f k arg ≡ f.mismatch_action

-- Different names have different numbers.
abbrev pub HasNumbers : Sys → Type 0
HasNumbers sys = (a b : Bytes) → is_bytes a ≡ true → is_bytes b ≡ true → sys a ≡ sys b → a ≡ b

-- What the proxy must not do: run a program, open a file, trace, mount, or enter a namespace.
abbrev pub forbidden : List Bytes
forbidden =
    map codes
      ("execve" ∷ "execveat" ∷ "open" ∷ "openat" ∷ "openat2" ∷ "ptrace" ∷ "mount" ∷ "setns" ∷ [])

-- The verdict on a call.
abbrev pub allowed : Sys → ℕ → ℕ → ℕ → Bool
allowed sys af_inet k arg =
    if sys (codes "socket") == k then arg % 4294967296 == af_inet else numbered sys proxy_calls k

abbrev pub verdict : Bool → SeccompAction
verdict true = allow
verdict false = kill_process

module _ (decide : Decide) (documented : IsSeccompiler decide) (sys : Sys) (af_inet : ℕ) where
  decide-allowed :
      (k arg : ℕ) → decide (proxy_filter sys af_inet) k arg ≡ verdict (allowed sys af_inet k arg)
  unfolding proxy_filter
  decide-allowed k arg =
      go (sys (codes "socket") == k) (numbered sys proxy_calls k) (proxy_rules-get sys af_inet k)
    where
      pick : (c : Bool) → (if c then allow else kill_process) ≡ verdict c
      pick true = refl
      pick false = refl

      go :
          (b c : Bool)
          → map_get k (proxy_rules sys af_inet)
            ≡ (if b then some (arg0_eq af_inet ∷ []) else if c then some [] else none)
          → decide (proxy_filter sys af_inet) k arg
            ≡ verdict (if b then arg % 4294967296 == af_inet else c)
      go true c e =
          documented.argument (proxy_filter sys af_inet) k arg af_inet e
          ∙ pick (arg % 4294967296 == af_inet)
      go false true e = documented.matches (proxy_filter sys af_inet) k arg e
      go false false e = documented.unlisted (proxy_filter sys af_inet) k arg e

numbered-absent :
    (sys : Sys) (names : List Bytes) (name : Bytes)
    → HasNumbers sys
    → is_bytes name ≡ true
    → all is_bytes names ≡ true
    → contains_bytes names name ≡ false
    → numbered sys names (sys name) ≡ false
numbered-absent sys [] name i b bs h = refl
numbered-absent sys (n ∷ ns) name i b bs h = go (sys n == sys name) refl (
    numbered-absent sys ns name i b ((&&_both (is_bytes n) (all is_bytes ns) bs).1)
      (or_false (eq_bytes n name) (contains_bytes ns name) h).1)
  where
    or_false : (x y : Bool) → (x || y) ≡ false → (x ≡ false) × (y ≡ false)
    or_false true y e = cc
    or_false false y e = (refl, e)

    clash : (x : Bool) → x ≡ true → x ≡ false → ⊥
    clash x e g = cc

    go :
        (x : Bool)
        → (sys n == sys name) ≡ x
        → numbered sys ns (sys name) ≡ false
        → (x || numbered sys ns (sys name)) ≡ false
    go false e r = r
    go true e r = absurd (
        clash (eq_bytes n name)
          ((eq_bytes_iff n name).1 (
            i n name ((&&_both (is_bytes n) (all is_bytes ns) bs).0) b
              ((==_iff (sys n) (sys name)).0 e)))
          (or_false (eq_bytes n name) (contains_bytes ns name) h).0)

-- A forbidden name is a text of bytes, and neither `socket` nor one of the calls that are let through.
abbrev is_refused : Bytes → Bool
is_refused name = is_bytes name && not (contains_bytes (codes "socket" ∷ proxy_calls) name)

forbidden_table : all is_refused forbidden ≡ true
unfolding proxy_calls eq_bytes
forbidden_table = refl

calls_table : all is_bytes (codes "socket" ∷ proxy_calls) ≡ true
unfolding proxy_calls
calls_table = refl

among-refused :
    (names : List Bytes) (name : Bytes)
    → All (λ n. is_refused n ≡ true) names
    → contains_bytes names name ≡ true
    → is_refused name ≡ true
among-refused [] name a h = cc
among-refused (n ∷ names) name a h = elim (Bool-cases (eq_bytes n name)) [
  | inl e ↦ subst (λ x. is_refused x ≡ true) ((eq_bytes_iff n name).0 e) a.0
  | inr e ↦ among-refused names name a.1 (sym (ap (λ b. b || contains_bytes names name) e) ∙ h)
]

-- Under what `seccompiler` documents, the proxy's filter allows `socket` for the one address family that
-- is given, and the calls of its list whatever their arguments, and kills the process at any other call;
-- and if different names have different numbers, then `execve`, `execveat`, `open`, `openat`, `openat2`,
-- `ptrace`, `mount` and `setns` are among those that kill it.
pub proxy_filter_exact :
    (decide : Decide) (sys : Sys) (af_inet k arg : ℕ) (name : Bytes)
    → IsSeccompiler decide
    → HasNumbers sys
    → contains_bytes forbidden name ≡ true
    → (decide (proxy_filter sys af_inet) k arg ≡ verdict (allowed sys af_inet k arg))
      × (decide (proxy_filter sys af_inet) (sys name) arg ≡ kill_process)
proxy_filter_exact decide sys af_inet k arg name documented i h =
    let r = among-refused forbidden name (all-All is_refused forbidden forbidden_table) h in
    let (b, n) =
      &&_both (is_bytes name) (not (contains_bytes (codes "socket" ∷ proxy_calls) name)) r in
    (
      decide-allowed decide documented sys af_inet k arg,
      decide-allowed decide documented sys af_inet (sys name) arg
          ∙ ap verdict (
              refused (sys (codes "socket") == sys name) (numbered sys proxy_calls (sys name)) (
                numbered-absent sys (codes "socket" ∷ proxy_calls) name i b calls_table
                  (negated (contains_bytes (codes "socket" ∷ proxy_calls) name) n))),
    )
  where
    negated : (x : Bool) → not x ≡ true → x ≡ false
    negated true e = cc
    negated false e = refl

    refused :
        (x y : Bool) → (x || y) ≡ false → (if x then arg % 4294967296 == af_inet else y) ≡ false
    refused true y e = cc
    refused false y e = e
