-- ===== src/Lockset/Membership.antt =====
-- src/lockset.rs: what sorting, deduplication and `--unlock` leave of the lists of paths.
use basta.Prelude.{
  ◌≡◌, refl, sym, ap, ◌∙◌, subst, inl, inr, ◌↔◌, Bool, true, false, ◌||◌, List, [], ◌∷◌, ◌++◌,
  arith, any, Bool-cases, Bytes, eq_bytes, eq_bytes_iff,
}
use basta.Paths.{Component, normal, component_eq, same_components, components, path_eq}
use basta.Lockset.{
  WatchPath, has_path, keep_paths, keep_watch, insert_by, sort_by, dedup_from, dedup_by,
}

pub component_eq_iff : (c d : Component) → (component_eq c d ≡ true) ↔ (c ≡ d)
unfolding component_eq
component_eq_iff (normal a) (normal b) = ground (arith, eq_bytes_iff a b)
component_eq_iff _ _ = ground arith

pub same_components_iff : (cs ds : List Component) → (same_components cs ds ≡ true) ↔ (cs ≡ ds)
unfolding same_components
same_components_iff [] [] = ground arith
same_components_iff (c ∷ cs) (d ∷ ds) =
    ground (arith, component_eq_iff c d, same_components_iff cs ds)
same_components_iff _ _ = ground arith

pub path_eq_iff : (p q : Bytes) → (path_eq p q ≡ true) ↔ (components p ≡ components q)
unfolding path_eq
path_eq_iff p q = same_components_iff (components p) (components q)

module _ {ℓ} {A : Type ℓ} (q : A → Bool) where
  pub any-left : (xs ys : List A) → any q xs ≡ true → any q (xs ++ ys) ≡ true
  any-left [] ys h = cc
  any-left (x ∷ xs) ys h = ground (arith, any-left xs ys)

  pub any-right : (xs ys : List A) → any q ys ≡ true → any q (xs ++ ys) ≡ true
  any-right [] ys h = h
  any-right (x ∷ xs) ys h = ground (arith, any-right xs ys h)

  pub any-insert_by :
      (lt : A → A → Bool) (x : A) (ys : List A) → any q (insert_by lt x ys) ≡ (q x || any q ys)
  any-insert_by lt x [] = refl
  any-insert_by lt x (y ∷ ys) = ground (arith, any-insert_by lt x ys)

  pub any-sort_by : (lt : A → A → Bool) (xs : List A) → any q (sort_by lt xs) ≡ any q xs
  unfolding sort_by
  any-sort_by lt [] = refl
  any-sort_by lt (x ∷ xs) =
      any-insert_by lt x (sort_by lt xs) ∙ ap (λ b. q x || b) (any-sort_by lt xs)

-- The list has this very path, or one of the same components.
abbrev pub has_bytes : Bytes → List Bytes → Bool
has_bytes p = any (λ l. eq_bytes l p)

abbrev pub has_same : Bytes → List Bytes → Bool
has_same p = any (λ l. path_eq l p)

abbrev pub has_watch : Bytes → List WatchPath → Bool
has_watch p = any (λ x. eq_bytes x.path p)

pub has_bytes-same : (p : Bytes) (ls : List Bytes) → has_bytes p ls ≡ true → has_same p ls ≡ true
has_bytes-same p [] h = cc
has_bytes-same p (l ∷ ls) h = ground (arith, has_bytes-same p ls, same)
  where
    same : eq_bytes l p ≡ true → path_eq l p ≡ true
    same e = (path_eq_iff l p).1 (ap components ((eq_bytes_iff l p).0 e))

pub dedup-has_same :
    (p x : Bytes) (ys : List Bytes)
    → has_same p (x ∷ ys) ≡ true
    → has_same p (dedup_from path_eq x ys) ≡ true
dedup-has_same p x [] h = h
dedup-has_same p x (y ∷ ys) h = elim (Bool-cases (path_eq y x)) [
  | inl e ↦ rw (e, dedup_from) (dedup-has_same p x ys (ground (arith, h, through e)))
  | inr e ↦ rw (e, dedup_from) (ground (arith, h, dedup-has_same p y ys))
]
  where
    through : path_eq y x ≡ true → path_eq y p ≡ true → path_eq x p ≡ true
    through e g = (path_eq_iff x p).1 (sym ((path_eq_iff y x).0 e) ∙ (path_eq_iff y p).0 g)

pub dedup_by-has_same :
    (p : Bytes) (ls : List Bytes) → has_same p ls ≡ true → has_same p (dedup_by path_eq ls) ≡ true
unfolding dedup_by
dedup_by-has_same p [] h = h
dedup_by-has_same p (l ∷ ls) h = dedup-has_same p l ls h

pub keep_paths-has_bytes :
    (p : Bytes) (drop ls : List Bytes)
    → has_path p drop ≡ false
    → has_bytes p ls ≡ true
    → has_bytes p (keep_paths drop ls) ≡ true
unfolding keep_paths
keep_paths-has_bytes p drop [] n h = cc
keep_paths-has_bytes p drop (l ∷ ls) n h = elim (Bool-cases (eq_bytes l p)) [
  | inl e ↦
      let k : has_path l drop ≡ false =
        subst (λ x. has_path x drop ≡ false) (sym ((eq_bytes_iff l p).0 e)) n in
      ground (arith, k, e)
  | inr e ↦ ground (arith, e, h, keep_paths-has_bytes p drop ls n)
]

pub keep_watch-has_watch :
    (p : Bytes) (drop : List Bytes) (ws : List WatchPath)
    → has_path p drop ≡ false
    → has_watch p ws ≡ true
    → has_watch p (keep_watch drop ws) ≡ true
unfolding keep_watch
keep_watch-has_watch p drop [] n h = cc
keep_watch-has_watch p drop (w ∷ ws) n h = elim (Bool-cases (eq_bytes w.path p)) [
  | inl e ↦
      let k : has_path w.path drop ≡ false =
        subst (λ x. has_path x drop ≡ false) (sym ((eq_bytes_iff w.path p).0 e)) n in
      ground (arith, k, e)
  | inr e ↦ ground (arith, e, h, keep_watch-has_watch p drop ws n)
]
