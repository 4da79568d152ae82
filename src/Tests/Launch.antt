-- ===== src/Tests/Launch.antt =====
-- src/cli.rs, src/workspace.rs, src/lockset.rs, src/seed.rs, src/env.rs and src/argv.rs on small launches.
use basta.Prelude.{
  ◌≡◌, refl, ◌↔◌, true, false, none, some, List, [], ◌∷◌, arith, if◌then◌else◌, length, All, Bytes,
  codes, eq_bytes, contains_bytes,
}
use basta.Prelude.{
  ok, err, masks_home, read_only_reopened, env_reserved, publish_privileged, seed_symlink,
}
use basta.Env.{Environment, EnvSpec, parse_env, host_home}
use basta.Env.{is_valid_key, reserved}
use basta.Env.Specs.{Given, parse_env_sound}
use basta.Workspace.{
  Workspace, Host, reject_masking, resolve_workspace, strip_ro, path_under_any_root, root_list,
  allowed_roots,
}
use basta.Workspace.Masking.{
  SparesHome, StaysReadOnly, reject_masking_exact, NoSystem, resolve_workspace_sound,
}
use basta.Cli.{Cli, NetMode, offline, FindBin, check_publish, preflight}
use basta.Cli.Preflight.{Accepted, preflight_sound}
use basta.Seccomp.{Sys}
use basta.Lockset.{Files, absent, regular, LockPlan, plan_one}
use basta.Lockset.{has_path, joined}
use basta.Lockset.Coverage.{IsSettled, plan_one-IsSettled}
use basta.Paths.{path_join}
use basta.Prelude.{contains_bytes, inr}
use basta.Seed.{Node, file, dir, symlink, entry, finished, SeedSet, empty_set, seed_source}
use basta.Seed.Flatten.{IsSource, extend, dirs_of, files_of, seed_source_sound}
use basta.Argv.{blob}
use basta.Argv.Render.{render}
use basta.Argv.Redaction.{swap_secrets, render-swap}
use basta.Argv.Wire.{IsText, read_args, read_args-blob}

abbrev pub home : Bytes
home = codes "/home/u"

abbrev pub env : Environment
env name = if eq_bytes name (codes "HOME") then some home else none

abbrev project : Workspace
project = record { fd = 5; path = codes "/home/u/p"; ro = false }

abbrev docs : Workspace
docs = record { fd = 6; path = codes "/home/u/p/docs"; ro = true }

masking_order : reject_masking (project ∷ docs ∷ []) home ≡ ok tt
unfolding reject_masking basta.Paths.path_eq basta.Paths.path_starts_with
masking_order = refl

masking_home : reject_masking (record project { path = codes "/home" } ∷ []) home ≡ err masks_home
unfolding reject_masking basta.Paths.path_eq basta.Paths.path_starts_with
masking_home = refl

masking_reopened :
    reject_masking (record docs { path = codes "/home/u/p" } ∷ project ∷ []) home
    ≡ err read_only_reopened
unfolding reject_masking basta.Paths.path_eq basta.Paths.path_starts_with
masking_reopened = refl

reject_masking_exact_example :
    (reject_masking (project ∷ docs ∷ []) home ≡ ok tt)
    ↔ (All (SparesHome home) (project ∷ docs ∷ []) × StaysReadOnly (project ∷ docs ∷ []))
reject_masking_exact_example = reject_masking_exact (project ∷ docs ∷ []) home

abbrev pub host_files : Host
host_files = record { canonicalize = λ p. some p; open_dir = λ p. some 6 }

workspace_run : resolve_workspace host_files env (codes "/home/u/p/docs:ro") ≡ ok docs
unfolding resolve_workspace basta.Workspace.check_allowed_root basta.Workspace.reject_system_roots
    root_list eq_bytes basta.Workspace.system basta.Paths.path_eq path_under_any_root
    basta.Paths.path_starts_with
workspace_run = refl

resolve_workspace_sound_example :
    (host_files.canonicalize (strip_ro (codes "/home/u/p/docs:ro")).0 ≡ some docs.path)
    × (host_files.open_dir docs.path ≡ some docs.fd)
    × (docs.ro ≡ (strip_ro (codes "/home/u/p/docs:ro")).1)
    × NoSystem (root_list (allowed_roots env))
    × (path_under_any_root docs.path (root_list (allowed_roots env)) ≡ true)
resolve_workspace_sound_example =
    resolve_workspace_sound host_files env (codes "/home/u/p/docs:ro") docs workspace_run

abbrev pub options : Cli
options = record {
  workspaces = [];
  gpu = false;
  expose_local_share = false;
  net = offline;
  allow = codes "git.io:22" ∷ [];
  allow_sni = [];
  allow_loopback = 8080 ∷ [];
  publish = some 3000;
  seed = [];
  persist = [];
  envs = [];
  dry_run = false;
  trace = false;
  allow_syscall = [];
  deny_syscall = codes "ptrace" ∷ [];
  no_seccomp = false;
  lock = codes "d/a" ∷ [];
  unlock = [];
  no_lock = true;
  lock_strict = false;
  command = [];
}

abbrev pub all_found : FindBin
all_found name = true

abbrev pub sys : Sys
sys = length

preflight_run : preflight all_found sys options ≡ ok tt
unfolding preflight basta.Cli.check_egress basta.Cli.egress_requested check_publish
    basta.Cli.check_relative basta.Cli.escapes basta.Paths.components
    basta.Seccomp.effective_denylist basta.Seccomp.insert_all basta.Seccomp.default_denylist
    basta.Seccomp.resolve_name basta.Seccomp.remove_all
preflight_run = refl

publish_low : check_publish (some 80) [] ≡ err publish_privileged
unfolding check_publish
publish_low = refl

preflight_sound_example : Accepted all_found sys options
preflight_sound_example = preflight_sound all_found sys options preflight_run

abbrev pub locked : Bytes
locked = codes "/home/u/p/d/a"

abbrev pub tree : Files
tree = record {
  stat = λ p. if eq_bytes p locked then regular else absent;
  is_file = λ p. false;
  is_dir = λ p. false;
  subdirs = λ p. [];
  open_path = λ p d. some 7;
  parent = λ p. if eq_bytes p locked then some (codes "/home/u/p/d") else some (codes "/home/u/p");
  before = λ p q. false;
}

abbrev plan : LockPlan
plan = record {
  binds =
      record { fd = 7; path = codes "/home/u/p/d"; ro = false }
      ∷ record { fd = 7; path = locked; ro = true }
      ∷ [];
  watch = [];
}

plan_run : plan_one tree options project ≡ ok plan
unfolding plan_one
plan_run = refl

kept_run :
    has_path (path_join project.path (codes "d/a")) (joined project.path options.unlock) ≡ false
unfolding has_path
kept_run = refl

asked_run : contains_bytes options.lock (codes "d/a") ≡ true
unfolding eq_bytes
asked_run = refl

plan_one-IsSettled_example :
    IsSettled
      (tree.stat (path_join project.path (codes "d/a")))
      (path_join project.path (codes "d/a"))
      plan
plan_one-IsSettled_example =
    plan_one-IsSettled tree options project plan (codes "d/a") plan_run (inr asked_run) kept_run

abbrev pub source : Node
source = dir (some 3) (entry (some (codes "a")) (file (some 4)) finished)

abbrev seeded : SeedSet
seeded =
    extend empty_set (codes "/home/u/.x" ∷ []) (record { fd = 4; dest = codes "/home/u/.x/a" } ∷ [])

seed_run : seed_source (codes "/home/u/.x") source empty_set ≡ ok seeded
unfolding seed_source
seed_run = refl

seed_link :
    seed_source
      (codes "/home/u/.x")
      (dir (some 3) (entry (some (codes "a")) symlink finished))
      empty_set
    ≡ err seed_symlink
unfolding seed_source
seed_link = refl

seed_source_sound_example :
    IsSource source
    × (seeded
        ≡ extend empty_set
            (dirs_of (codes "/home/u/.x") source)
            (files_of (codes "/home/u/.x") source))
seed_source_sound_example = seed_source_sound (codes "/home/u/.x") source empty_set seeded seed_run

env_home : parse_env env (codes "HOME=/") ≡ err env_reserved
unfolding parse_env basta.Env.reserved eq_bytes
env_home = refl

abbrev key_spec : EnvSpec
key_spec = record { key = codes "KEY"; value = codes "a=b" }

env_run : parse_env env (codes "KEY=a=b") ≡ ok key_spec
unfolding parse_env reserved eq_bytes
env_run = refl

parse_env_sound_example :
    (is_valid_key key_spec.key ≡ true)
    × (contains_bytes reserved key_spec.key ≡ false)
    × Given env (codes "KEY=a=b") key_spec
parse_env_sound_example = parse_env_sound env (codes "KEY=a=b") key_spec env_run

abbrev args : List Bytes
args = codes "--setenv" ∷ codes "KEY" ∷ codes "secret" ∷ codes "--chdir" ∷ codes "/" ∷ []

render_run : render args ≡ codes "+ env -i bwrap --args FD --setenv KEY <redacted> --chdir /"
unfolding render
render_run = refl

render-swap_example : render (swap_secrets (codes "other") args) ≡ render args
render-swap_example = render-swap (codes "other") args

args-IsText : All IsText (codes "--dev" ∷ codes "/dev" ∷ [])
args-IsText = ground arith

read_args-blob_example :
    read_args (blob (codes "--dev" ∷ codes "/dev" ∷ [])) ≡ codes "--dev" ∷ codes "/dev" ∷ []
read_args-blob_example = read_args-blob (codes "--dev" ∷ codes "/dev" ∷ []) args-IsText
