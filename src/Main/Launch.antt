-- ===== src/Main/Launch.antt =====
-- src/main.rs, `run`: what a sandbox is started with, and the exit code.
use basta.Prelude.{ℕ, ◌≡◌, true, false, Option, none, some, List, ◌++◌, All, Bytes, codes}
use basta.Prelude.{ok}
use basta.Argv.{build, resolv_conf_target}
use basta.Egress.Render.{hosts_file, resolv_conf}
use basta.Main.{or_path}
use basta.Cli.{Cli, egress_requested}
use basta.Egress.Resolve.{resolve}
use basta.Egress.Resolve.Names.{IsPinned, IsDistinct}
use basta.Egress.Resolve.Outward.{IsRule}
use basta.Egress.Spec.{EgressSpec}
use basta.Env.{EnvSpec, host_home}
use basta.Lockset.{LockPlan, WatchPath, plan_for}
use basta.Main.{World, workspaces_of, cwd_of, parse_envs, exit_behind, Ran}
use basta.Seed.{Seed, SeedSet, build_seeds}
use basta.Workspace.{Workspace}
use basta.Workspace.Masking.{SparesHome, StaysReadOnly}

-- The policy under which a sandbox is started: none if no option asks for one, else what `--allow` and
-- `--allow-sni` resolve to, which keeps the rules of both.
abbrev pub IsPolicy : World → Cli → Option EgressSpec → Type 0
IsPolicy w c none = egress_requested c ≡ false
IsPolicy w c (some s) =
    (egress_requested c ≡ true)
    × (resolve w.lookup w.is_ipv6 c.allow c.allow_sni ≡ ok s)
    × All IsRule s.rules
    × All IsPinned s.sni
    × IsDistinct s.sni

-- A file whose text is in a memfd, over a path.
abbrev IsOverlay : World → Bytes → Bytes → Option Seed → Type 0
IsOverlay w text dest none = ⊥
IsOverlay w text dest (some s) = (w.memfd text ≡ ok s.fd) × (s.dest ≡ dest)

-- The seeds of the options, and under a policy the two generated files.
abbrev pub IsSeeded : World → Option EgressSpec → SeedSet → SeedSet → Type 0
IsSeeded w none built seeds = seeds ≡ built
IsSeeded w (some s) built seeds =
    (seeds.dirs ≡ built.dirs)
    × (seeds.files ≡ built.files)
    × IsOverlay w (hosts_file s) (codes "/etc/hosts") seeds.hosts
    × IsOverlay w (resolv_conf s) (or_path (resolv_conf_target w.host) (codes "/etc/resolv.conf"))
        seeds.resolv

-- How a run that starts a sandbox ends.
abbrev pub IsExit : World → Cli → List WatchPath → List Bytes → Option EgressSpec → ℕ → Type 0
IsExit w c watch argv egress exit =
    (code : ℕ) × (w.sandbox argv egress ≡ ok code) × (exit ≡ exit_behind w c watch code)

abbrev Started : World → Cli → List WatchPath → List Bytes → Option EgressSpec → Ran → Type 0
Started w c watch argv egress r =
    (c.dry_run ≡ false) × (r.started ≡ some (argv, egress)) × IsExit w c watch argv egress r.exit

pub record IsLaunched (w : World) (c : Cli) (r : Ran) (argv : List Bytes)
    (egress : Option EgressSpec) : Type 0 where
  pub workspaces : List Workspace
  pub home : Bytes
  pub lock : LockPlan
  pub envs : List EnvSpec
  pub asked_seeds : SeedSet
  pub seeds : SeedSet
  pub wet : c.dry_run ≡ false
  pub policy : IsPolicy w c egress
  pub given_env : parse_envs w.env c.envs ≡ ok envs
  pub seeded : build_seeds w.sources home c.seed ≡ ok asked_seeds
  pub overlaid : IsSeeded w egress asked_seeds seeds
  pub resolved : workspaces_of w c ≡ ok workspaces
  pub at_home : host_home w.env ≡ ok home
  pub home_spared : All (SparesHome home) workspaces
  pub stays_read_only : StaysReadOnly workspaces
  pub locked : plan_for w.repos workspaces c ≡ ok lock
  pub built :
      build w.env w.host c (workspaces ++ lock.binds) (cwd_of workspaces) envs seeds ≡ ok argv
  pub ended : IsExit w c lock.watch argv egress r.exit
