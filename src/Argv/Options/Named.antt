-- ===== src/Argv/Options/Named.antt =====
-- src/argv.rs, `build`: the descriptors that its arguments name, part by part.
use basta.Prelude.{
  ℕ, ◌≡◌, refl, sym, ap, ◌∙◌, subst, Bool, true, false, ◌||◌, Option, none, some, List, [], ◌∷◌,
  ◌++◌, map, if◌then◌else◌, Bytes, codes, eq_bytes, decimal, >>=-eq-ok, ok-injective,
}
use basta.Prelude.{ok}
use basta.Env.{Environment, EnvSpec, host_home}
use basta.Cli.{Cli, is_host}
use basta.Workspace.{Workspace}
use basta.Seed.{Seed, SeedSet, parse_src_dest, resolve_home_dest}
use basta.Argv.{
  Host, base_args, home_args, dir_args, file_args, seed_args, prepare_persist_src, persist_args,
  tool_args, resolv_conf_target, data_args, try_target, overlay_args, is_some, namespace_args,
  dev_binds, gpu_args, bind_args, caller_env, env_args, build, numbered_only, listed,
}
use basta.Argv.Options.{
  arity, takes_fd, read_fds, named_fds, Yields, Yields-append, Yields-then, whole,
}

none_named : Yields [] []
none_named = record { reads = λ rest. refl }

base_args-Yields : Yields base_args []
unfolding named_fds read_fds arity takes_fd eq_bytes base_args
base_args-Yields = record { reads = λ rest. refl }

home_args-Yields : (uid : ℕ) (home : Bytes) → Yields (home_args uid home) []
unfolding named_fds read_fds arity takes_fd eq_bytes home_args
home_args-Yields uid home = record { reads = λ rest. refl }

dir_args-Yields : (ds : List Bytes) → Yields (dir_args ds) []
unfolding named_fds read_fds arity takes_fd eq_bytes
dir_args-Yields [] = record { reads = λ rest. refl }
dir_args-Yields (d ∷ ds) = record { reads = λ rest. (dir_args-Yields ds).reads rest }

file_args-Yields : (ss : List Seed) → Yields (file_args ss) (map (λ s. decimal s.fd) ss)
unfolding named_fds read_fds arity takes_fd eq_bytes
file_args-Yields [] = record { reads = λ rest. refl }
file_args-Yields (s ∷ ss) = record {
  reads = λ rest. ap (λ t. decimal s.fd ∷ t) ((file_args-Yields ss).reads rest);
}

persist_args-Yields :
    (h : Host) (home : Bytes) (specs words : List Bytes)
    → persist_args h home specs ≡ ok words
    → Yields words []
unfolding named_fds read_fds arity takes_fd eq_bytes persist_args
persist_args-Yields h home [] words e = subst (λ t. Yields t []) (ok-injective e) none_named
persist_args-Yields h home (spec ∷ specs) words e =
    let ((src, dest), _, e1) = >>=-eq-ok (parse_src_dest spec) _ e in
    let (real, _, e2) = >>=-eq-ok (prepare_persist_src h src) _ e1 in
    let (at, _, e3) = >>=-eq-ok (resolve_home_dest home dest) _ e2 in
    let (ws, p, e4) = >>=-eq-ok (persist_args h home specs) _ e3 in
    subst (λ t. Yields t []) (ok-injective e4)
      (record { reads = (persist_args-Yields h home specs ws p).reads })

tool_args-Yields : (b : Bool) (home : Bytes) → Yields (tool_args b home) []
unfolding named_fds read_fds arity takes_fd eq_bytes tool_args
tool_args-Yields b home = record { reads = λ rest. refl }

abbrev pub seed_fd : Option Seed → List Bytes
seed_fd none = []
seed_fd (some s) = decimal s.fd ∷ []

data_args-Yields : (s : Option Seed) → Yields (data_args s) (seed_fd s)
unfolding named_fds read_fds arity takes_fd eq_bytes
data_args-Yields none = record { reads = λ rest. refl }
data_args-Yields (some s) = record { reads = λ rest. refl }

try_target-Yields : (b : Bool) (p : Option Bytes) → Yields (if b then try_target p else []) []
unfolding named_fds read_fds arity takes_fd eq_bytes
try_target-Yields false p = record { reads = λ rest. refl }
try_target-Yields true none = record { reads = λ rest. refl }
try_target-Yields true (some p) = record { reads = λ rest. refl }

share-Yields :
    (b : Bool) → Yields ((if b then codes "--share-net" else codes "--unshare-net") ∷ []) []
unfolding named_fds read_fds arity takes_fd eq_bytes
share-Yields false = record { reads = λ rest. refl }
share-Yields true = record { reads = λ rest. refl }

dev_binds-Yields : (ns : List Bytes) → Yields (dev_binds ns) []
unfolding named_fds read_fds arity takes_fd eq_bytes
dev_binds-Yields [] = record { reads = λ rest. refl }
dev_binds-Yields (n ∷ ns) = record { reads = λ rest. (dev_binds-Yields ns).reads rest }

gpu_args-Yields : (h : Host) (b : Bool) → Yields (gpu_args h b) []
unfolding gpu_args
gpu_args-Yields h false = record { reads = λ rest. refl }
gpu_args-Yields h true =
    Yields-then (dev_binds-Yields control) (dev_binds-Yields (numbered_only (listed h.dev)))
  where
    control : List Bytes
    control = map codes ("nvidiactl" ∷ "nvidia-uvm" ∷ "nvidia-uvm-tools" ∷ "nvidia-modeset" ∷ [])

bind_args-Yields : (ws : List Workspace) → Yields (bind_args ws) (map (λ w. decimal w.fd) ws)
unfolding named_fds read_fds arity takes_fd eq_bytes bind_args
bind_args-Yields [] = record { reads = λ rest. refl }
bind_args-Yields (w ∷ ws) = record {
  reads = λ rest. one rest w.ro ∙ ap (λ t. decimal w.fd ∷ t) ((bind_args-Yields ws).reads rest);
}
  where
    one :
        (rest : List Bytes) (b : Bool)
        → named_fds (
            (if b then codes "--ro-bind-fd" else codes "--bind-fd")
            ∷ decimal w.fd
            ∷ w.path
            ∷ (bind_args ws ++ rest))
          ≡ decimal w.fd ∷ named_fds (bind_args ws ++ rest)
    one rest false = refl
    one rest true = refl

caller_env-Yields : (es : List EnvSpec) → Yields (caller_env es) []
unfolding named_fds read_fds arity takes_fd eq_bytes
caller_env-Yields [] = record { reads = λ rest. refl }
caller_env-Yields (e ∷ es) = record { reads = λ rest. (caller_env-Yields es).reads rest }

env_args-Yields :
    (env : Environment) (h : Host) (home : Bytes) (envs : List EnvSpec)
    → Yields (env_args env h home envs) []
unfolding named_fds read_fds arity takes_fd eq_bytes env_args
env_args-Yields env h home envs = record { reads = λ rest. (caller_env-Yields envs).reads rest }

overlay_args-Yields :
    (h : Host) (b : Bool) (seeds : SeedSet)
    → Yields (overlay_args h b seeds) (seed_fd seeds.hosts ++ seed_fd seeds.resolv)
unfolding overlay_args
overlay_args-Yields h b seeds =
    Yields-then (Yields-append (data_args-Yields seeds.hosts) (data_args-Yields seeds.resolv))
      (try_target-Yields b (resolv_conf_target h))

namespace_args-Yields :
    (h : Host) (b : Bool) (seeds : SeedSet) → Yields (namespace_args h b seeds) []
unfolding named_fds read_fds arity takes_fd eq_bytes namespace_args
namespace_args-Yields h b seeds = record {
  reads = λ rest. (share-Yields (is_some seeds.hosts || b)).reads rest;
}

seed_args-Yields :
    (seeds : SeedSet) → Yields (seed_args seeds) (map (λ s. decimal s.fd) seeds.files)
unfolding seed_args
seed_args-Yields seeds = Yields-append (dir_args-Yields seeds.dirs) (file_args-Yields seeds.files)

chdir-Yields : (cwd : Bytes) → Yields (codes "--chdir" ∷ cwd ∷ []) []
unfolding named_fds read_fds arity takes_fd eq_bytes
chdir-Yields cwd = record { reads = λ rest. refl }

-- The arguments of `build` name the seeds in their order, then the overlays, then the workspaces.
pub build-named_fds :
    (env : Environment) (h : Host) (c : Cli) (ws : List Workspace) (cwd : Bytes)
    (envs : List EnvSpec) (seeds : SeedSet) (argv : List Bytes)
    → build env h c ws cwd envs seeds ≡ ok argv
    → named_fds argv
      ≡ (map (λ s. decimal s.fd) seeds.files ++ (seed_fd seeds.hosts ++ seed_fd seeds.resolv))
        ++ map (λ w. decimal w.fd) ws
unfolding build
build-named_fds env h c ws cwd envs seeds argv e =
    let (home, _, e1) = >>=-eq-ok (host_home env) _ e in
    let (persist, p, e2) = >>=-eq-ok (persist_args h home c.persist) _ e1 in
    ap named_fds (sym (ok-injective e2)) ∙ whole (all_args home persist p)
  where
    all_args :
        (home : Bytes) (persist : List Bytes)
        → persist_args h home c.persist ≡ ok persist
        → Yields
            (base_args
              ++ home_args h.uid home
              ++ seed_args seeds
              ++ persist
              ++ tool_args c.expose_local_share home
              ++ overlay_args h (is_host c.net) seeds
              ++ namespace_args h (is_host c.net) seeds
              ++ gpu_args h c.gpu
              ++ bind_args ws
              ++ (codes "--chdir" ∷ cwd ∷ [])
              ++ env_args env h home envs)
            ((map (λ s. decimal s.fd) seeds.files ++ (seed_fd seeds.hosts ++ seed_fd seeds.resolv))
              ++ map (λ w. decimal w.fd) ws)
    all_args home persist p =
        let start =
          Yields-append (Yields-then base_args-Yields (home_args-Yields h.uid home))
            (seed_args-Yields seeds) in
        let tools =
          Yields-then (Yields-then start (persist_args-Yields h home c.persist persist p))
            (tool_args-Yields c.expose_local_share home) in
        let spaces =
          Yields-then (Yields-append tools (overlay_args-Yields h (is_host c.net) seeds))
            (namespace_args-Yields h (is_host c.net) seeds) in
        let binds =
          Yields-append (Yields-then spaces (gpu_args-Yields h c.gpu)) (bind_args-Yields ws) in
        Yields-then (Yields-then binds (chdir-Yields cwd)) (env_args-Yields env h home envs)
