-- ===== src/Argv/Redaction.antt =====
-- src/argv.rs, `render`, on arguments that differ in the values of a caller's `--env`.
use basta.Prelude.{
  ◌≡◌, refl, sym, ap, ◌∙◌, inl, inr, true, false, List, [], ◌∷◌, ◌++◌, if◌then◌else◌, Bool-cases,
  Bytes, codes, contains_bytes, Bool, ◌||◌, subst, all, All, all-All, eq_bytes, eq_bytes_iff,
}
use basta.Env.{reserved}
use basta.Argv.Render.{safe_setenv, shell_quote, is_setenv, render_from, render, shown, word}

-- The arguments with another value behind each `--setenv` of a key that is not reserved for basta.
abbrev pub swap_value : Bytes → Bytes → Bytes → Bytes
swap_value secret key value = if contains_bytes reserved key then value else secret

unfoldable pub swap_secrets : Bytes → List Bytes → List Bytes
swap_secrets secret [] = []
swap_secrets secret (a ∷ []) = a ∷ []
swap_secrets secret (a ∷ k ∷ []) = a ∷ swap_secrets secret (k ∷ [])
swap_secrets secret (a ∷ k ∷ v ∷ rest) = elim (is_setenv a) [
  | true ↦ a ∷ k ∷ swap_value secret k v ∷ swap_secrets secret rest
  | false ↦ a ∷ swap_secrets secret (k ∷ v ∷ rest)
]

-- One step of the two loops, by whether the argument is `--setenv`.
swap_yes :
    (secret a k v : Bytes) (rest : List Bytes)
    → is_setenv a ≡ true
    → swap_secrets secret (a ∷ k ∷ v ∷ rest)
      ≡ a ∷ k ∷ swap_value secret k v ∷ swap_secrets secret rest
unfolding swap_secrets reserved
swap_yes secret a k v rest e = rw (e, swap_secrets) refl

swap_no :
    (secret a k v : Bytes) (rest : List Bytes)
    → is_setenv a ≡ false
    → swap_secrets secret (a ∷ k ∷ v ∷ rest) ≡ a ∷ swap_secrets secret (k ∷ v ∷ rest)
unfolding swap_secrets
swap_no secret a k v rest e = rw (e, swap_secrets) refl

render_yes :
    (a k v : Bytes) (rest : List Bytes)
    → is_setenv a ≡ true
    → render_from (a ∷ k ∷ v ∷ rest)
      ≡ codes " --setenv " ++ shell_quote k ++ b' ' ∷ shown k v ++ render_from rest
unfolding render_from shell_quote
render_yes a k v rest e = rw (e, render_from) refl

render_no :
    (a k v : Bytes) (rest : List Bytes)
    → is_setenv a ≡ false
    → render_from (a ∷ k ∷ v ∷ rest) ≡ word a ++ render_from (k ∷ v ∷ rest)
unfolding render_from shell_quote
render_no a k v rest e = rw (e, render_from) refl

swap_head :
    (secret v : Bytes) (rest : List Bytes)
    → (rest' : List Bytes) × (swap_secrets secret (v ∷ rest) ≡ v ∷ rest')
swap_head secret v [] = ([], unfold swap_secrets in refl)
swap_head secret v (x ∷ []) = (x ∷ [], unfold swap_secrets in refl)
swap_head secret v (x ∷ y ∷ rest) = elim (Bool-cases (is_setenv v)) [
  | inl e ↦ (x ∷ swap_value secret x y ∷ swap_secrets secret rest, swap_yes secret v x y rest e)
  | inr e ↦ (swap_secrets secret (x ∷ y ∷ rest), swap_no secret v x y rest e)
]

-- The two arguments behind one that is not `--setenv` are still two.
swap_two :
    (secret k v : Bytes) (rest : List Bytes)
    → (v' : Bytes) × (rest' : List Bytes) × (swap_secrets secret (k ∷ v ∷ rest) ≡ k ∷ v' ∷ rest')
swap_two secret k v [] = (v, [], unfold swap_secrets in refl)
swap_two secret k v (x ∷ rest) = elim (Bool-cases (is_setenv k)) [
  | inl e ↦ (v, swap_value secret v x ∷ swap_secrets secret rest, swap_yes secret k v x rest e)
  | inr e ↦
      let (rest', h) = swap_head secret v (x ∷ rest) in
      (v, rest', swap_no secret k v x rest e ∙ ap (λ z. k ∷ z) h)
]

safe_table : all (contains_bytes reserved) safe_setenv ≡ true
unfolding reserved safe_setenv eq_bytes
safe_table = refl

among_reserved :
    (keys : List Bytes) (k : Bytes)
    → All (λ x. contains_bytes reserved x ≡ true) keys
    → contains_bytes keys k ≡ true
    → contains_bytes reserved k ≡ true
among_reserved [] k a h = cc
among_reserved (x ∷ keys) k a h = elim (Bool-cases (eq_bytes x k)) [
  | inl e ↦ subst (λ y. contains_bytes reserved y ≡ true) ((eq_bytes_iff x k).0 e) a.0
  | inr e ↦ among_reserved keys k a.1 (sym (ap (λ b. b || contains_bytes keys k) e) ∙ h)
]

-- What is printed verbatim is set by basta alone.
safe-reserved :
    (k : Bytes) → contains_bytes reserved k ≡ false → contains_bytes safe_setenv k ≡ false
safe-reserved k h = elim (Bool-cases (contains_bytes safe_setenv k)) [
  | inl e ↦
      let r =
        among_reserved safe_setenv k (all-All (contains_bytes reserved) safe_setenv safe_table) e in
      absurd (clash r h)
  | inr e ↦ e
]
  where
    clash : {b : Bool} → b ≡ true → b ≡ false → ⊥
    clash x y = cc

shown_swap : (secret k v : Bytes) → shown k (swap_value secret k v) ≡ shown k v
shown_swap secret k v = elim (Bool-cases (contains_bytes reserved k)) [
  | inl e ↦ rw e refl
  | inr e ↦ rw (e, safe-reserved k e) refl
]

render_from-swap :
    (secret : Bytes) (args : List Bytes) → render_from (swap_secrets secret args) ≡ render_from args
render_from-swap secret [] = unfold swap_secrets in refl
render_from-swap secret (a ∷ []) = unfold swap_secrets in refl
render_from-swap secret (a ∷ k ∷ []) = unfold swap_secrets in refl
render_from-swap secret (a ∷ k ∷ v ∷ rest) = elim (Bool-cases (is_setenv a)) [
  | inl e ↦
      ap render_from (swap_yes secret a k v rest e)
      ∙ render_yes a k (swap_value secret k v) (swap_secrets secret rest) e
      ∙ rw (shown_swap secret k v, render_from-swap secret rest) refl
      ∙ sym (render_yes a k v rest e)
  | inr e ↦
      let (v', rest', h) = swap_two secret k v rest in
      ap render_from (swap_no secret a k v rest e ∙ ap (λ z. a ∷ z) h)
      ∙ render_no a k v' rest' e
      ∙ ap (λ z. word a ++ z) (ap render_from (sym h) ∙ render_from-swap secret (k ∷ v ∷ rest))
      ∙ sym (render_no a k v rest e)
]

-- The printed line does not depend on the values of those `--setenv` whose keys are not in `reserved`,
-- the list of keys that `EnvSpec::parse` refuses in `--env`.
pub render-swap :
    (secret : Bytes) (args : List Bytes) → render (swap_secrets secret args) ≡ render args
unfolding render
render-swap secret args = rw (render_from-swap secret args) refl
