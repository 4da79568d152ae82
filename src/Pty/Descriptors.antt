-- ===== src/Pty/Descriptors.antt =====
-- src/pty.rs and src/argv.rs: the descriptors that bwrap is told of, and those that it is given.
use mathlib.Core.List.{Perm, perm_append_comm}
use mathlib.Core.List.Perm
use basta.Prelude.{
  ℕ, ◌≡◌, refl, sym, ap, ◌∙◌, subst, Option, none, some, List, [], ◌∷◌, ◌++◌, map, Bytes, codes,
  decimal, >>=-eq-ok, ok-injective, eq_bytes, drop,
}
use basta.Prelude.{ok}
use basta.Argv.{Host, build}
use basta.Argv.Options.{arity, takes_fd, read_fds, named_fds}
use basta.Argv.Options.Named.{seed_fd, build-named_fds}
use basta.Cli.{Cli}
use basta.Env.{Environment, EnvSpec}
use basta.Seed.{Seed, SeedSet}
use basta.Workspace.{Workspace}
use basta.Pty.{c_string, c_strings, seccomp_words, exec_argv, optional, kept_fds}

map-append {ℓ κ} :
    {A : Type ℓ} {B : Type κ} (f : A → B) (xs ys : List A) → map f (xs ++ ys) ≡ map f xs ++ map f ys
map-append f [] ys = refl
map-append f (x ∷ xs) ys = ap (λ t. f x ∷ t) (map-append f xs ys)

map-map {ℓ κ μ} :
    {A : Type ℓ} {B : Type κ} {C : Type μ} (g : B → C) (f : A → B) (xs : List A)
    → map g (map f xs) ≡ map (λ x. g (f x)) xs
map-map g f [] = refl
map-map g f (x ∷ xs) = ap (λ t. g (f x) ∷ t) (map-map g f xs)

front :
    (args_fd : ℕ) (seccomp_fd : Option ℕ) (ws : List Bytes)
    → named_fds (codes "--args" ∷ decimal args_fd ∷ (seccomp_words seccomp_fd ++ (codes "--" ∷ ws)))
      ≡ decimal args_fd ∷ map decimal (optional seccomp_fd)
unfolding named_fds read_fds arity takes_fd eq_bytes
front args_fd none ws = refl
front args_fd (some s) ws = refl

-- The words before the command name the arguments and the filter; `--` ends the options.
exec_argv-named_fds :
    (bwrap : Bytes) (args_fd : ℕ) (seccomp_fd : Option ℕ) (command : List Bytes) (path : Bytes)
    (words : List Bytes)
    → exec_argv bwrap args_fd seccomp_fd command ≡ ok (path ∷ words)
    → named_fds words ≡ decimal args_fd ∷ map decimal (optional seccomp_fd)
unfolding exec_argv
exec_argv-named_fds bwrap args_fd seccomp_fd command path words e =
    let (p, _, e1) = >>=-eq-ok (c_string bwrap) _ e in
    let (ws, _, e2) = >>=-eq-ok (c_strings command) _ e1 in
    ap (λ t. named_fds (drop 1 t)) (sym (ok-injective e2)) ∙ front args_fd seccomp_fd ws

seed_fd-optional : (s : Option Seed) → map (λ x. decimal x.fd) (optional s) ≡ seed_fd s
seed_fd-optional none = refl
seed_fd-optional (some s) = refl

abbrev overlays : SeedSet → List Seed
overlays seeds = optional seeds.hosts ++ optional seeds.resolv

seeds-named :
    (seeds : SeedSet)
    → map decimal (map (λ s. s.fd) (seeds.files ++ overlays seeds))
      ≡ map (λ s. decimal s.fd) seeds.files ++ (seed_fd seeds.hosts ++ seed_fd seeds.resolv)
seeds-named seeds =
    map-map decimal (λ s. s.fd) (seeds.files ++ overlays seeds)
    ∙ map-append (λ s. decimal s.fd) seeds.files (overlays seeds)
    ∙ ap (λ t. map (λ s. decimal s.fd) seeds.files ++ t)
        (map-append (λ s. decimal s.fd) (optional seeds.hosts) (optional seeds.resolv)
          ∙ ap (λ t. t ++ map (λ s. decimal s.fd) (optional seeds.resolv))
              (seed_fd-optional seeds.hosts)
          ∙ ap (λ t. seed_fd seeds.hosts ++ t) (seed_fd-optional seeds.resolv))

kept_fds-named :
    (args_fd : ℕ) (seccomp_fd : Option ℕ) (ws : List Workspace) (seeds : SeedSet)
    → map decimal (kept_fds args_fd seccomp_fd ws seeds)
      ≡ (decimal args_fd ∷ map decimal (optional seccomp_fd))
        ++ (map (λ w. decimal w.fd) ws
            ++ (map (λ s. decimal s.fd) seeds.files
                ++ (seed_fd seeds.hosts ++ seed_fd seeds.resolv)))
unfolding kept_fds
kept_fds-named args_fd seccomp_fd ws seeds =
    ap (λ t. decimal args_fd ∷ t)
      (map-append decimal (optional seccomp_fd) _
        ∙ ap (λ t. map decimal (optional seccomp_fd) ++ t)
            (map-append decimal (map (λ w. w.fd) ws) _
              ∙ ap (λ t. t ++ map decimal (map (λ s. s.fd) (seeds.files ++ overlays seeds)))
                  (map-map decimal (λ w. w.fd) ws)
              ∙ ap (λ t. map (λ w. decimal w.fd) ws ++ t) (seeds-named seeds)))

-- Whatever the workspaces and the seeds, the descriptors that the child keeps over `execve` are exactly
-- those that bwrap is told of: in the words before the command, and in the arguments of `build` that it
-- reads from the first of them, each as often as it is named.
pub kept_fds_exact :
    (bwrap : Bytes) (args_fd : ℕ) (seccomp_fd : Option ℕ) (env : Environment) (h : Host) (c : Cli)
    (ws : List Workspace) (cwd : Bytes) (envs : List EnvSpec) (seeds : SeedSet) (argv : List Bytes)
    (path : Bytes) (words : List Bytes)
    → build env h c ws cwd envs seeds ≡ ok argv
    → exec_argv bwrap args_fd seccomp_fd c.command ≡ ok (path ∷ words)
    → Perm (named_fds words ++ named_fds argv) (map decimal (kept_fds args_fd seccomp_fd ws seeds))
kept_fds_exact bwrap args_fd seccomp_fd env h c ws cwd envs seeds argv path words b e =
    let told = exec_argv-named_fds bwrap args_fd seccomp_fd c.command path words e in
    let named = build-named_fds env h c ws cwd envs seeds argv b in
    subst (λ t. Perm t (map decimal (kept_fds args_fd seccomp_fd ws seeds)))
      (ap (λ t. (decimal args_fd ∷ map decimal (optional seccomp_fd)) ++ t) (sym named)
        ∙ ap (λ t. t ++ named_fds argv) (sym told))
      (subst (Perm _) (sym (kept_fds-named args_fd seccomp_fd ws seeds)) (
        Perm.append (Perm.refl (decimal args_fd ∷ map decimal (optional seccomp_fd))) (
          perm_append_comm
            (map (λ s. decimal s.fd) seeds.files ++ (seed_fd seeds.hosts ++ seed_fd seeds.resolv))
            (map (λ w. decimal w.fd) ws))))
