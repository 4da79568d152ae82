-- ===== src/Main.antt =====
-- src/main.rs, `run`: the launch, from the options to the exit code.
pub mod Launch
pub mod Entry
use basta.Prelude.{
  ℕ, zero, suc, Bool, true, false, not, ◌&&◌, Option, none, some, List, [], ◌∷◌, ◌++◌, arith, ◌==◌,
  if◌then◌else◌, is_empty, any, Bytes, codes,
}
use basta.Prelude.{Result, ok, ◌>>=◌, ◌>>◌}
use basta.Argv
use basta.Argv.{build, resolv_conf_target}
use basta.Cli.{Cli, FindBin, preflight, egress_requested}
use basta.Egress.Render.{hosts_file, resolv_conf}
use basta.Egress.Resolve.{Lookup, resolve}
use basta.Egress.Spec.{EgressSpec}
use basta.Env.{Environment, EnvSpec, host_home, parse_env}
use basta.Lockset
use basta.Lockset.{LockPlan, WatchPath, plan_for}
use basta.Seccomp.{Sys, describe}
use basta.Seed
use basta.Seed.{Seed, SeedSet, build_seeds}
use basta.Workspace
use basta.Workspace.{Workspace, resolve_workspace, reject_masking}

-- What the host answers: the programs there are, the numbers of the system calls, the file systems that
-- the parts read, the resolver, the memfd for a text, the sandbox's exit code when it is started with
-- these arguments and this policy, and which paths there are behind it.
pub record World : Type 0 where
  pub programs : FindBin
  pub sys : Sys
  pub env : Environment
  pub dirs : Workspace.Host
  pub repos : Lockset.Files
  pub sources : Seed.Files
  pub lookup : Lookup
  pub is_ipv6 : Bytes → Bool
  pub memfd : Bytes → Result ℕ
  pub host : Argv.Host
  pub sandbox : List Bytes → Option EgressSpec → Result ℕ
  pub created : Bytes → Bool

unfoldable pub resolve_each : World → List Bytes → Result (List Workspace)
resolve_each w [] = ok []
resolve_each w (a ∷ as_given) = do
  x ← resolve_workspace w.dirs w.env a
  xs ← resolve_each w as_given
  ok (x ∷ xs)

unfoldable pub workspaces_of : World → Cli → Result (List Workspace)
unfolding resolve_each
workspaces_of w c = resolve_each w (if is_empty c.workspaces then codes "." ∷ [] else c.workspaces)

abbrev first_path : List Workspace → Bytes
first_path [] = []
first_path (x ∷ xs) = x.path

abbrev writable_path : Bytes → List Workspace → Bytes
writable_path found [] = found
writable_path found (x ∷ xs) = if not x.ro then x.path else writable_path found xs

-- The first workspace that can be written to, or else the first.
unfoldable pub cwd_of : List Workspace → Bytes
cwd_of ws = writable_path (first_path ws) ws

unfoldable pub parse_envs : Environment → List Bytes → Result (List EnvSpec)
parse_envs env [] = ok []
parse_envs env (e ∷ es) = do x ← parse_env env e; xs ← parse_envs env es; ok (x ∷ xs)

unfoldable pub policy_of : World → Cli → Result (Option EgressSpec)
policy_of w c =
    if egress_requested c
    then (do s ← resolve w.lookup w.is_ipv6 c.allow c.allow_sni; ok (some s))
    else ok none

abbrev pub or_path : Option Bytes → Bytes → Bytes
or_path none d = d
or_path (some p) d = p

-- The overlays of `/etc/hosts` and of the resolver's configuration.
unfoldable pub overlay : World → Option EgressSpec → SeedSet → Result SeedSet
overlay w none seeds = ok seeds
overlay w (some s) seeds = do
  hosts_fd ← w.memfd (hosts_file s)
  resolv_fd ← w.memfd (resolv_conf s)
  let hosts : Seed = record { fd = hosts_fd; dest = codes "/etc/hosts" }
  let target = or_path (resolv_conf_target w.host) (codes "/etc/resolv.conf")
  let resolv : Seed = record { fd = resolv_fd; dest = target }
  ok (record seeds { hosts = some hosts; resolv = some resolv })

-- The watched paths that are there behind the session decide whether a clean exit stays one.
unfoldable pub exit_behind : World → Cli → List WatchPath → ℕ → ℕ
exit_behind w c watch exit =
    if any (λ p. w.created p.path) watch && c.lock_strict && exit == 0 then 3 else exit

-- What a run has come to: its exit code, and the arguments and the policy of the sandbox that it has
-- started.
pub record Ran : Type 0 where
  pub exit : ℕ
  pub started : Option (List Bytes × Option EgressSpec)

-- `--dry-run` prints the arguments and the filter, and starts nothing; `--trace` prints them first.
unfoldable pub start_sandbox :
    World → Cli → List WatchPath → List Bytes → Option EgressSpec → Result Ran
unfolding exit_behind
start_sandbox w c watch argv egress =
    if c.dry_run
    then (do
      text ← describe w.sys c.no_seccomp c.deny_syscall c.allow_syscall
      ok (record { exit = 0; started = none }))
    else (do
      text ← if c.trace then describe w.sys c.no_seccomp c.deny_syscall c.allow_syscall else ok []
      exit ← w.sandbox argv egress
      ok (record { exit = exit_behind w c watch exit; started = some (argv, egress) }))

-- `run`.
unfoldable pub run : World → Cli → Result Ran
unfolding workspaces_of cwd_of parse_envs policy_of overlay start_sandbox
run w c = do
  preflight w.programs w.sys c
  workspaces ← workspaces_of w c
  home_path ← host_home w.env
  reject_masking workspaces home_path
  lock ← plan_for w.repos workspaces c
  envs ← parse_envs w.env c.envs
  home ← host_home w.env
  built ← build_seeds w.sources home c.seed
  egress ← policy_of w c
  seeds ← overlay w egress built
  argv ← build w.env w.host c (workspaces ++ lock.binds) (cwd_of workspaces) envs seeds
  start_sandbox w c lock.watch argv egress
