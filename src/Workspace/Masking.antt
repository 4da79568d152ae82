-- ===== src/Workspace/Masking.antt =====
-- src/workspace.rs: what an accepted list of workspaces cannot do, and the roots they lie under.
use basta.Prelude.{
  ◌≡◌, refl, sym, ap, ◌∙◌, subst, ◌↔◌, ◌⊎◌, inl, inr, true, false, not, ◌&&◌, ◌||◌, some, List, [],
  ◌∷◌, arith, Bool-cases, any, All, Bytes, guard, >>=-eq-ok, require, ok-injective, guard-eq-ok,
  require-eq-ok,
}
use basta.Prelude.{
  ok, masks_home, read_only_reopened, system_root, outside_roots, workspace_missing,
  workspace_unopened,
}
use basta.Paths.{path_eq, path_starts_with}
use basta.Env.{Environment}
use basta.Workspace.{
  Workspace, check_home, check_reopened, reject_masking, reject_system_roots, path_under_any_root,
  root_list, allowed_roots, check_allowed_root, Host, resolve_workspace, strip_ro, system,
}

-- The mount of the workspace leaves the sandbox's `$HOME` in sight.
abbrev pub SparesHome : Bytes → Workspace → Type 0
SparesHome home w = (path_eq w.path home ≡ false) × (path_starts_with home w.path ≡ false)

-- Read-only itself, or not a directory that holds the workspace.
abbrev pub SparesInside : Workspace → Workspace → Type 0
SparesInside w v = (v.ro ≡ true) ⊎ (path_starts_with w.path v.path ≡ false)

-- No workspace behind a read-only one is writable and holds it.
abbrev pub StaysReadOnly : List Workspace → Type 0
StaysReadOnly [] = Unit
StaysReadOnly (w ∷ ws) = ((w.ro ≡ false) ⊎ All (SparesInside w) ws) × StaysReadOnly ws

check_home-inv :
    (home : Bytes) (ws : List Workspace) {u : Unit {0}}
    → (check_home home ws ≡ ok u)
    → All (SparesHome home) ws
unfolding check_home
check_home-inv home [] h = tt
check_home-inv home (w ∷ ws) h =
    let bad = path_eq w.path home || path_starts_with home w.path in
    let (_, g, h1) = >>=-eq-ok (guard bad masks_home) _ h in
    let fine = guard-eq-ok bad masks_home g in
    ((ground (arith, fine), ground (arith, fine)), check_home-inv home ws h1)

none_inside :
    (w : Workspace) (ws : List Workspace)
    → any (λ v. not v.ro && path_starts_with w.path v.path) ws ≡ false
    → All (SparesInside w) ws
none_inside w [] h = tt
none_inside w (v ∷ ws) h = (ground (arith, h), none_inside w ws (ground (arith, h)))

check_reopened-inv :
    (ws : List Workspace) {u : Unit {0}} → check_reopened ws ≡ ok u → StaysReadOnly ws
unfolding check_reopened
check_reopened-inv [] h = tt
check_reopened-inv (w ∷ ws) h =
    let inside = any (λ v. not v.ro && path_starts_with w.path v.path) ws in
    let (_, g, h1) = >>=-eq-ok (guard (w.ro && inside) read_only_reopened) _ h in
    let fine = guard-eq-ok (w.ro && inside) read_only_reopened g in
    (
      elim (Bool-cases w.ro) [
        | inl e ↦ inr (none_inside w ws (ground (arith, fine, e)))
        | inr e ↦ inl e
      ],
      check_reopened-inv ws h1,
    )

check_home-intro :
    (home : Bytes) (ws : List Workspace) → All (SparesHome home) ws → check_home home ws ≡ ok tt
unfolding check_home
check_home-intro home [] a = refl
check_home-intro home (w ∷ ws) a = rw (a.0.0, a.0.1) (check_home-intro home ws a.1)

any_inside :
    (w : Workspace) (ws : List Workspace)
    → All (SparesInside w) ws
    → any (λ v. not v.ro && path_starts_with w.path v.path) ws ≡ false
any_inside w [] a = refl
any_inside w (v ∷ ws) a = elim a.0 [
  | inl e ↦ rw e (any_inside w ws a.1)
  | inr e ↦ elim (Bool-cases v.ro) [
    | inl e' ↦ rw e' (any_inside w ws a.1)
    | inr e' ↦ rw (e', e) (any_inside w ws a.1)
  ]
]

check_reopened-intro : (ws : List Workspace) → StaysReadOnly ws → check_reopened ws ≡ ok tt
unfolding check_reopened
check_reopened-intro [] a = refl
check_reopened-intro (w ∷ ws) a = elim a.0 [
  | inl e ↦ rw e (check_reopened-intro ws a.1)
  | inr e ↦ elim (Bool-cases w.ro) [
    | inl e' ↦ rw (e', any_inside w ws e) (check_reopened-intro ws a.1)
    | inr e' ↦ rw e' (check_reopened-intro ws a.1)
  ]
]

-- `reject_masking` accepts exactly when no workspace is `$HOME` or an ancestor of it, and no
-- read-write workspace mounted after a read-only one is that directory or an ancestor of it.
pub reject_masking_exact :
    (ws : List Workspace) (home : Bytes)
    → (reject_masking ws home ≡ ok tt) ↔ (All (SparesHome home) ws × StaysReadOnly ws)
unfolding reject_masking
reject_masking_exact ws home = (
  λ h.
      let (_, g, h1) = >>=-eq-ok (check_home home ws) _ h in
      (check_home-inv home ws g, check_reopened-inv ws h1),
  λ a. rw (check_home-intro home ws a.0) (check_reopened-intro ws a.1),
)

-- None of the roots is a system directory.
abbrev pub NoSystem : List Bytes → Type 0
NoSystem = All (λ r. any (path_eq r) system ≡ false)

reject_system_roots-inv :
    (rs : List Bytes) {u : Unit {0}} → reject_system_roots rs ≡ ok u → NoSystem rs
unfolding reject_system_roots
reject_system_roots-inv [] h = tt
reject_system_roots-inv (r ∷ rs) h =
    let (_, g, h1) = >>=-eq-ok (guard (any (path_eq r) system) system_root) _ h in
    (guard-eq-ok (any (path_eq r) system) system_root g, reject_system_roots-inv rs h1)

check_allowed_root-inv :
    (env : Environment) (path : Bytes) {u : Unit {0}}
    → check_allowed_root env path ≡ ok u
    → NoSystem (root_list (allowed_roots env))
      × (path_under_any_root path (root_list (allowed_roots env)) ≡ true)
unfolding check_allowed_root
check_allowed_root-inv env path h =
    let roots = root_list (allowed_roots env) in
    let (_, g, h1) = >>=-eq-ok (reject_system_roots roots) _ h in
    let (_, g', _) = >>=-eq-ok (guard (not (path_under_any_root path roots)) outside_roots) _ h1 in
    let fine = guard-eq-ok (not (path_under_any_root path roots)) outside_roots g' in
    (reject_system_roots-inv roots g, ground (arith, fine))

-- A workspace that is accepted is the canonical form of the path given, opened as that path, writable
-- unless the spec ends in `:ro`, and lies under one of the allowed roots, none of which is a system
-- directory.
pub resolve_workspace_sound :
    (host : Host) (env : Environment) (spec : Bytes) (w : Workspace)
    → resolve_workspace host env spec ≡ ok w
    → (host.canonicalize (strip_ro spec).0 ≡ some w.path)
      × (host.open_dir w.path ≡ some w.fd)
      × (w.ro ≡ (strip_ro spec).1)
      × NoSystem (root_list (allowed_roots env))
      × (path_under_any_root w.path (root_list (allowed_roots env)) ≡ true)
unfolding resolve_workspace
resolve_workspace_sound host env spec w h =
    let (text, ro) = strip_ro spec in
    let (path, e, h1) = >>=-eq-ok (require (host.canonicalize text) workspace_missing) _ h in
    let (_, e1, h2) = >>=-eq-ok (check_allowed_root env path) _ h1 in
    let (fd, e2, h3) = >>=-eq-ok (require (host.open_dir path) workspace_unopened) _ h2 in
    let (a, b) = check_allowed_root-inv env path e1 in
    let p : path ≡ w.path = ap (λ x. x.path) (ok-injective h3) in
    (
      require-eq-ok (host.canonicalize text) workspace_missing e ∙ ap some p,
      ap host.open_dir (sym p)
          ∙ require-eq-ok (host.open_dir path) workspace_unopened e2
          ∙ ap (λ x. some x.fd) (ok-injective h3),
      sym (ap (λ x. x.ro) (ok-injective h3)),
      a,
      subst (λ x. path_under_any_root x (root_list (allowed_roots env)) ≡ true) p b,
    )
