-- ===== src/Lockset/Coverage.antt =====
-- src/lockset.rs: no path that is to be locked is forgotten.
use basta.Prelude.{
  ◌≡◌, refl, sym, ap, ◌∙◌, subst, ◌⊎◌, inl, inr, Bool, true, false, ◌&&◌, ◌||◌, List, [], ◌∷◌, ◌++◌,
  map, if◌then◌else◌, is_empty, any, Bytes, codes, contains_bytes, >>=-eq-ok, ok-injective,
}
use basta.Prelude.{ok, ◌>>=◌}
use basta.Cli.{Cli}
use basta.Paths.{path_eq, path_join}
use basta.Workspace.{Workspace}
use basta.Lockset.{
  Files, Stat, absent, unstattable, link, directory, regular, other, LockPlan, Found, lock_defaults,
  lock_custom, has_path, keep_paths, keep_watch, sort_by, dedup_by, joined, default_lock,
  default_git_leaves, default_leaves, locked_leaves, pin_paths, plan_one,
}
use basta.Lockset.Plan.{mount_of, with_flag, Locked, plan_one_exact}
use basta.Lockset.Membership.{
  any-right, any-sort_by, has_bytes, has_same, has_watch, has_bytes-same, dedup_by-has_same,
  keep_paths-has_bytes, keep_watch-has_watch,
}
use basta.Lockset.Noting.{
  Noted, Noted-Grows, names_of, lock_defaults-Noted, lock_custom-Grows, lock_custom-Noted,
}

-- What is to be locked: the default names, unless `--no-lock` or `--unlock` takes them out, and those of
-- `--lock`.
abbrev pub IsAsked : Cli → Bytes → Type 0
IsAsked c rel =
    ((c.no_lock ≡ false)
      × (contains_bytes c.unlock rel ≡ false)
      × (contains_bytes (names_of default_lock) rel ≡ true))
    ⊎ (contains_bytes c.lock rel ≡ true)

default_leaves-Noted :
    (fs : Files) (wroot rel : Bytes) (c : Cli) (f : Found)
    → c.no_lock ≡ false
    → contains_bytes c.unlock rel ≡ false
    → contains_bytes (names_of default_lock) rel ≡ true
    → default_leaves fs wroot c ≡ ok f
    → Noted (fs.stat (path_join wroot rel)) (path_join wroot rel) f
unfolding default_leaves
default_leaves-Noted fs wroot rel c f n u m h = go c.no_lock n h
  where
    go :
        (b : Bool)
        → b ≡ false
        → (if b
            then ok (record { leaves = []; watch = [] })
            else (default_git_leaves fs wroot [] (contains_bytes c.unlock (codes ".git")) >>= λ git.
                lock_defaults fs wroot c.unlock default_lock (record { leaves = git; watch = [] })))
          ≡ ok f
        → Noted (fs.stat (path_join wroot rel)) (path_join wroot rel) f
    go true e k = cc
    go false e k =
        let (git, _, l) =
          >>=-eq-ok (default_git_leaves fs wroot [] (contains_bytes c.unlock (codes ".git"))) _ k in
        lock_defaults-Noted fs wroot rel c.unlock default_lock (record { leaves = git; watch = [] })
          f u m l

-- The same of the sorted lists without the unlocked paths.
abbrev Kept : Stat → Bytes → Found → Type 0
Kept absent p f = has_watch p f.watch ≡ true
Kept unstattable p f = ⊥
Kept link p f = has_same p f.leaves ≡ true
Kept directory p f = has_same p f.leaves ≡ true
Kept regular p f = has_same p f.leaves ≡ true
Kept other p f = has_same p f.leaves ≡ true

module _ (fs : Files) (p : Bytes) (drop : List Bytes) (n : has_path p drop ≡ false) where
  abbrev tidied : Found → Found
  tidied g = record {
    leaves = dedup_by path_eq (sort_by fs.before (keep_paths drop g.leaves));
    watch = keep_watch drop g.watch;
  }

  leaf-Kept : (g : Found) → has_bytes p g.leaves ≡ true → has_same p (tidied g).leaves ≡ true
  leaf-Kept g h = dedup_by-has_same p (sort_by fs.before (keep_paths drop g.leaves)) (
      any-sort_by (λ l. path_eq l p) fs.before (keep_paths drop g.leaves)
      ∙ has_bytes-same p (keep_paths drop g.leaves) (keep_paths-has_bytes p drop g.leaves n h))

  Noted-Kept : (st : Stat) (g : Found) → Noted st p g → Kept st p (tidied g)
  Noted-Kept absent g h = keep_watch-has_watch p drop g.watch n h
  Noted-Kept unstattable g h = h
  Noted-Kept link g h = leaf-Kept g h
  Noted-Kept directory g h = leaf-Kept g h
  Noted-Kept regular g h = leaf-Kept g h
  Noted-Kept other g h = leaf-Kept g h

locked_leaves-Kept :
    (fs : Files) (wroot rel : Bytes) (c : Cli) (f : Found)
    → locked_leaves fs wroot c ≡ ok f
    → IsAsked c rel
    → has_path (path_join wroot rel) (joined wroot c.unlock) ≡ false
    → Kept (fs.stat (path_join wroot rel)) (path_join wroot rel) f
unfolding locked_leaves
locked_leaves-Kept fs wroot rel c f h asked n =
    let (d, e, h1) = >>=-eq-ok (default_leaves fs wroot c) _ h in
    let (g, e1, h2) = >>=-eq-ok (lock_custom fs wroot c.lock d) _ h1 in
    subst (Kept (fs.stat (path_join wroot rel)) (path_join wroot rel)) (ok-injective h2) (
      Noted-Kept fs (path_join wroot rel) (joined wroot c.unlock) n (fs.stat (path_join wroot rel))
        g
        (elim asked [
          | inl (a, b, m) ↦
              Noted-Grows (fs.stat (path_join wroot rel)) (path_join wroot rel) d g
                (lock_custom-Grows fs wroot c.lock d g e1)
                (default_leaves-Noted fs wroot rel c d a b m e)
          | inr m ↦ lock_custom-Noted fs wroot rel c.lock d g m e1
        ]))

-- Some mount of the plan is read-only and at this path.
abbrev pub is_locked : Bytes → List Workspace → Bool
is_locked p = any (λ b. b.ro && path_eq b.path p)

-- How a plan deals with a path, by what is there.
abbrev pub IsSettled : Stat → Bytes → LockPlan → Type 0
IsSettled absent p plan = has_watch p plan.watch ≡ true
IsSettled unstattable p plan = ⊥
IsSettled link p plan = is_locked p plan.binds ≡ true
IsSettled directory p plan = is_locked p plan.binds ≡ true
IsSettled regular p plan = is_locked p plan.binds ≡ true
IsSettled other p plan = is_locked p plan.binds ≡ true

any-mounts :
    (p : Bytes) (bs : List Workspace)
    → any (λ m. m.1 && path_eq m.0 p) (map mount_of bs) ≡ is_locked p bs
any-mounts p [] = refl
any-mounts p (b ∷ bs) = ap (λ x. (b.ro && path_eq b.path p) || x) (any-mounts p bs)

any-flags :
    (p : Bytes) (ls : List Bytes)
    → any (λ m. m.1 && path_eq m.0 p) (with_flag true ls) ≡ has_same p ls
any-flags p [] = refl
any-flags p (l ∷ ls) = ap (λ x. path_eq l p || x) (any-flags p ls)

module _ (fs : Files) (w : Workspace) (f : Found) (plan : LockPlan) (l : Locked fs w f plan) where
  leaf-is_locked : (p : Bytes) → has_same p f.leaves ≡ true → is_locked p plan.binds ≡ true
  leaf-is_locked p h =
      sym (any-mounts p plan.binds) ∙ ap (any (λ m. m.1 && path_eq m.0 p)) l.2 ∙ go f.leaves h
    where
      go :
          (ls : List Bytes)
          → has_same p ls ≡ true
          → any
              (λ m. m.1 && path_eq m.0 p)
              (if is_empty ls
                then []
                else with_flag false (pin_paths fs w.path f.leaves) ++ with_flag true ls)
            ≡ true
      go [] k = cc
      go (x ∷ xs) k =
          any-right (λ m. m.1 && path_eq m.0 p) (with_flag false (pin_paths fs w.path f.leaves))
            (with_flag true (x ∷ xs)) (any-flags p (x ∷ xs) ∙ k)

  Kept-IsSettled : (st : Stat) (p : Bytes) → Kept st p f → IsSettled st p plan
  Kept-IsSettled absent p h = ap (has_watch p) l.0 ∙ h
  Kept-IsSettled unstattable p h = h
  Kept-IsSettled link p h = leaf-is_locked p h
  Kept-IsSettled directory p h = leaf-is_locked p h
  Kept-IsSettled regular p h = leaf-is_locked p h
  Kept-IsSettled other p h = leaf-is_locked p h

-- If a writable workspace gets a plan, no name is forgotten: each default name, unless `--no-lock` or
-- `--unlock` takes it out, and each name of `--lock` that `--unlock` does not take out as a path, is in
-- the plan. If its path is not there, that path is watched, and if it is, some read-only mount of the
-- plan is at the same path; a plan is not made if what is there cannot be told.
pub plan_one-IsSettled :
    (fs : Files) (c : Cli) (w : Workspace) (plan : LockPlan) (rel : Bytes)
    → plan_one fs c w ≡ ok plan
    → IsAsked c rel
    → has_path (path_join w.path rel) (joined w.path c.unlock) ≡ false
    → IsSettled (fs.stat (path_join w.path rel)) (path_join w.path rel) plan
plan_one-IsSettled fs c w plan rel h asked n =
    let (f, e, l) = plan_one_exact fs c w plan h in
    Kept-IsSettled fs w f plan l (fs.stat (path_join w.path rel)) (path_join w.path rel)
      (locked_leaves-Kept fs w.path rel c f e asked n)
