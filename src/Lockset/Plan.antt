-- ===== src/Lockset/Plan.antt =====
-- src/lockset.rs, `plan_for`: the mounts of one workspace.
use basta.Prelude.{
  ◌≡◌, refl, sym, ap, ◌∙◌, Bool, true, false, List, [], ◌∷◌, ◌++◌, map, if◌then◌else◌, is_empty,
  All, Bytes, >>=-eq-ok, require, ok-injective,
}
use basta.Prelude.{ok, ◌>>=◌, lock_unopened}
use basta.Cli.{Cli}
use basta.Workspace.{Workspace}
use basta.Lockset.{
  Files, Stat, absent, unstattable, link, directory, regular, other, LockPlan, Found, locked_leaves,
  pin_paths, bind_pins, bind_leaf, bind_leaves, open_bind, bind_found, plan_one,
}

-- A mount by its path and its flag.
abbrev pub mount_of : Workspace → Bytes × Bool
mount_of w = (w.path, w.ro)

abbrev pub with_flag : Bool → List Bytes → List (Bytes × Bool)
with_flag ro [] = []
with_flag ro (p ∷ ps) = (p, ro) ∷ with_flag ro ps

-- What can be mounted read-only: it is there, and is no link.
abbrev pub IsLockable : Stat → Type 0
IsLockable absent = ⊥
IsLockable unstattable = ⊥
IsLockable link = ⊥
IsLockable _ = Unit

open_bind-mount :
    (fs : Files) (p : Bytes) (ro dir : Bool) (b : Workspace)
    → open_bind fs p ro dir ≡ ok b
    → mount_of b ≡ (p, ro)
unfolding open_bind
open_bind-mount fs p ro dir b h =
    let (fd, _, h1) = >>=-eq-ok (require (fs.open_path p dir) lock_unopened) _ h in
    sym (ap mount_of (ok-injective h1))

bind_pins-mounts :
    (fs : Files) (ps : List Bytes) (bs : List Workspace)
    → bind_pins fs ps ≡ ok bs
    → map mount_of bs ≡ with_flag false ps
unfolding bind_pins
bind_pins-mounts fs [] bs h = ap (map mount_of) (sym (ok-injective h))
bind_pins-mounts fs (p ∷ ps) bs h =
    let (b, e, h1) = >>=-eq-ok (open_bind fs p false true) _ h in
    let (rest, e1, h2) = >>=-eq-ok (bind_pins fs ps) _ h1 in
    sym (ap (map mount_of) (ok-injective h2))
    ∙ rw (open_bind-mount fs p false true b e, bind_pins-mounts fs ps rest e1) refl

bind_leaf-mount :
    (fs : Files) (l : Bytes) (st : Stat) (b : Workspace)
    → bind_leaf fs l st ≡ ok b
    → (mount_of b ≡ (l, true)) × IsLockable st
unfolding bind_leaf
bind_leaf-mount fs l absent b h = cc
bind_leaf-mount fs l unstattable b h = cc
bind_leaf-mount fs l link b h = cc
bind_leaf-mount fs l directory b h = (open_bind-mount fs l true true b h, tt)
bind_leaf-mount fs l regular b h = (open_bind-mount fs l true false b h, tt)
bind_leaf-mount fs l other b h = (open_bind-mount fs l true false b h, tt)

bind_leaves-mounts :
    (fs : Files) (ls : List Bytes) (bs : List Workspace)
    → bind_leaves fs ls ≡ ok bs
    → (map mount_of bs ≡ with_flag true ls) × All (λ l. IsLockable (fs.stat l)) ls
unfolding bind_leaves
bind_leaves-mounts fs [] bs h = (ap (map mount_of) (sym (ok-injective h)), tt)
bind_leaves-mounts fs (l ∷ ls) bs h =
    let (b, e, h1) = >>=-eq-ok (bind_leaf fs l (fs.stat l)) _ h in
    let (rest, e1, h2) = >>=-eq-ok (bind_leaves fs ls) _ h1 in
    let (m, k) = bind_leaf-mount fs l (fs.stat l) b e in
    let (ms, ks) = bind_leaves-mounts fs ls rest e1 in
    (sym (ap (map mount_of) (ok-injective h2)) ∙ rw (m, ms) refl, (k, ks))

map_append : (xs ys : List Workspace) → map mount_of (xs ++ ys) ≡ map mount_of xs ++ map mount_of ys
map_append [] ys = refl
map_append (x ∷ xs) ys = ap (λ z. mount_of x ∷ z) (map_append xs ys)

-- What one writable workspace gets.
abbrev pub Locked : Files → Workspace → Found → LockPlan → Type 0
Locked fs w f plan =
    (plan.watch ≡ f.watch)
    × All (λ l. IsLockable (fs.stat l)) f.leaves
    × (map mount_of plan.binds ≡ (
        if is_empty f.leaves
        then []
        else with_flag false (pin_paths fs w.path f.leaves) ++ with_flag true f.leaves))

bind_found-Locked :
    (fs : Files) (w : Workspace) (f : Found) (plan : LockPlan)
    → bind_found fs w.path f ≡ ok plan
    → Locked fs w f plan
unfolding bind_found
bind_found-Locked fs w f plan h = go f.leaves refl h
  where
    go :
        (ls : List Bytes)
        → f.leaves ≡ ls
        → (if is_empty ls
            then ok (record { binds = []; watch = f.watch })
            else (bind_pins fs (pin_paths fs w.path ls) >>= λ pins. bind_leaves fs ls >>= λ leaves.
                ok (record { binds = pins ++ leaves; watch = f.watch })))
          ≡ ok plan
        → (plan.watch ≡ f.watch)
          × All (λ l. IsLockable (fs.stat l)) ls
          × (map mount_of plan.binds ≡ (
              if is_empty ls
              then []
              else with_flag false (pin_paths fs w.path ls) ++ with_flag true ls))
    go [] e k = (
      sym (ap (λ p. p.watch) (ok-injective k)),
      tt,
      sym (ap (λ p. map mount_of p.binds) (ok-injective k)),
    )
    go (l ∷ ls) e k =
        let (pins, p, k1) = >>=-eq-ok (bind_pins fs (pin_paths fs w.path (l ∷ ls))) _ k in
        let (leaves, q, k2) = >>=-eq-ok (bind_leaves fs (l ∷ ls)) _ k1 in
        let (ms, good) = bind_leaves-mounts fs (l ∷ ls) leaves q in
        (
          sym (ap (λ x. x.watch) (ok-injective k2)),
          good,
          sym (ap (λ x. map mount_of x.binds) (ok-injective k2))
              ∙ map_append pins leaves
              ∙ rw (bind_pins-mounts fs (pin_paths fs w.path (l ∷ ls)) pins p, ms) refl,
        )

-- The mounts of a plan and what it watches, from what has been found.
pub plan_one_exact :
    (fs : Files) (c : Cli) (w : Workspace) (plan : LockPlan)
    → plan_one fs c w ≡ ok plan
    → (f : Found) × (locked_leaves fs w.path c ≡ ok f) × Locked fs w f plan
unfolding plan_one
plan_one_exact fs c w plan h =
    let (f, e, h1) = >>=-eq-ok (locked_leaves fs w.path c) _ h in
    (f, e, bind_found-Locked fs w f plan h1)
