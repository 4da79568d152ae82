-- ===== src/Env/Specs.antt =====
-- src/env.rs, `EnvSpec::parse`: what a `--env` spec can set.
use basta.Prelude.{
  ℕ, ◌≡◌, refl, sym, ap, ◌∙◌, subst, ◌⊎◌, inl, inr, Bool, true, false, not, Option, none, some, [],
  ◌∷◌, ◌++◌, arith, ◌==◌, if◌then◌else◌, ==_iff, Bytes, guard, >>=-eq-ok, require, split_once,
  contains_bytes, ok-injective, guard-eq-ok, require-eq-ok,
}
use basta.Prelude.{ok, env_unset, env_bad_key, env_reserved, cons_first}
use basta.Env.{Environment, EnvSpec, parse_env, is_valid_key, reserved, key_value}

split_once-some : (sep : ℕ) (s a b : Bytes) → split_once sep s ≡ some (a, b) → a ++ sep ∷ b ≡ s
unfolding split_once
split_once-some sep [] a b h = cc
split_once-some sep (c ∷ s) a b h =
    go (c == sep) refl (split_once sep s) (λ x y e. split_once-some sep s x y e) h
  where
    go :
        (t : Bool)
        → (c == sep) ≡ t
        → (o : Option (Bytes × Bytes)) → ((x y : Bytes) → o ≡ some (x, y) → x ++ sep ∷ y ≡ s)
        → (if t then some ([], s) else cons_first c o) ≡ some (a, b)
        → a ++ sep ∷ b ≡ c ∷ s
    go true e o ih k = let same = (==_iff c sep).0 e in cc
    go false e none ih k = cc
    go false e (some (x, y)) ih k = let whole = ih x y refl in cc

-- Where the value of a spec comes from: the spec itself, or the host's variable of that name.
abbrev pub Given : Environment → Bytes → EnvSpec → Type 0
Given env spec e = (e.key ++ b'=' ∷ e.value ≡ spec) ⊎ ((e.key ≡ spec) × (env spec ≡ some e.value))

key_value-Given :
    (env : Environment) (spec key value : Bytes)
    → key_value env spec (split_once b'=' spec) ≡ ok (key, value)
    → Given env spec (record { key = key; value = value })
key_value-Given env spec key value h = go (split_once b'=' spec) refl h
  where
    go :
        (o : Option (Bytes × Bytes))
        → split_once b'=' spec ≡ o
        → key_value env spec o ≡ ok (key, value)
        → Given env spec (record { key = key; value = value })
    go (some (a, b)) e k = inl (split_once-some b'=' spec key value (e ∙ ap some (ok-injective k)))
    go none e k =
        let (v, found, k1) = >>=-eq-ok (require (env spec) env_unset) _ k in
        inr (
          sym (ap (λ p. p.0) (ok-injective k1)),
          require-eq-ok (env spec) env_unset found ∙ ap (λ p. some p.1) (ok-injective k1),
        )

-- An accepted `--env` spec sets a key of letters, digits and `_` that is not one that basta sets, and
-- is either `KEY=VALUE` or the key itself, with the host's value.
pub parse_env_sound :
    (env : Environment) (spec : Bytes) (e : EnvSpec)
    → parse_env env spec ≡ ok e
    → (is_valid_key e.key ≡ true) × (contains_bytes reserved e.key ≡ false) × Given env spec e
unfolding parse_env
parse_env_sound env spec e h =
    let ((key, value), kv, h1) = >>=-eq-ok (key_value env spec (split_once b'=' spec)) _ h in
    let (_, g, h2) = >>=-eq-ok (guard (not (is_valid_key key)) env_bad_key) _ h1 in
    let (_, g', h3) = >>=-eq-ok (guard (contains_bytes reserved key) env_reserved) _ h2 in
    let valid = guard-eq-ok (not (is_valid_key key)) env_bad_key g in
    let free = guard-eq-ok (contains_bytes reserved key) env_reserved g' in
    subst
      (λ x.
        (is_valid_key x.key ≡ true) × (contains_bytes reserved x.key ≡ false) × Given env spec x)
      (ok-injective h3) (ground (arith, valid), free, key_value-Given env spec key value kv)
