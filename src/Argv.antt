-- ===== src/Argv.antt =====
-- src/argv.rs: the arguments of bwrap. What the host answers is a parameter.
pub mod Render
pub mod Redaction
pub mod Wire
pub mod Options
use basta.Prelude.{
  ℕ, zero, suc, Bool, true, false, not, ◌&&◌, ◌||◌, Option, none, some, List, [], ◌∷◌, ◌++◌, map,
  arith, if◌then◌else◌, take, drop, Bytes, codes, eq_bytes, is_ascii_digit, guard, require, decimal,
}
use basta.Prelude.{Result, ok, ◌>>=◌, ◌>>◌, seed_missing, seed_unreadable}
use basta.Env.{Environment, EnvSpec, host_home}
use basta.Cli.{Cli, is_host}
use basta.Workspace.{Workspace}
use basta.Seed.{Seed, SeedSet, parse_src_dest, resolve_home_dest}

-- `geteuid`, `getegid`, the name of the user in the password database, the file system below a
-- `--persist` source (`canonicalize` once the directory is made), what `/etc/resolv.conf` is, and the
-- names in `/dev`, as `to_string_lossy` gives them.
pub record Host : Type 0 where
  pub uid : ℕ
  pub gid : ℕ
  pub user_name : Option Bytes
  pub exists : Bytes → Bool
  pub create_dir_all : Bytes → Bool
  pub canonicalize : Bytes → Option Bytes
  pub resolv_is_symlink : Bool
  pub resolv_canonical : Option Bytes
  pub dev : Option (List Bytes)

-- The mounts that do not depend on the options.
unfoldable pub base_args : List Bytes
base_args = map codes (
    "--die-with-parent" ∷ "--new-session" ∷ "--hostname" ∷ "basta" ∷ "--ro-bind" ∷ "/usr" ∷ "/usr"
    ∷ "--ro-bind" ∷ "/etc" ∷ "/etc" ∷ "--ro-bind-try" ∷ "/opt" ∷ "/opt" ∷ "--symlink" ∷ "usr/bin"
    ∷ "/bin" ∷ "--symlink" ∷ "usr/sbin" ∷ "/sbin" ∷ "--symlink" ∷ "usr/lib" ∷ "/lib" ∷ "--symlink"
    ∷ "usr/lib64" ∷ "/lib64" ∷ "--proc" ∷ "/proc" ∷ "--ro-bind" ∷ "/dev/null" ∷ "/proc/1/cmdline"
    ∷ "--ro-bind" ∷ "/dev/null" ∷ "/proc/1/environ" ∷ "--ro-bind" ∷ "/dev/null"
    ∷ "/proc/1/task/1/cmdline" ∷ "--ro-bind" ∷ "/dev/null" ∷ "/proc/1/task/1/environ" ∷ "--dev"
    ∷ "/dev" ∷ "--ro-bind" ∷ "/dev/null" ∷ "/dev/console" ∷ "--ro-bind" ∷ "/dev/null" ∷ "/dev/tty"
    ∷ "--tmpfs" ∷ "/tmp" ∷ "--tmpfs" ∷ "/var/tmp" ∷ "--tmpfs" ∷ "/run" ∷ [])

abbrev run_user : ℕ → Bytes
run_user uid = codes "/run/user/" ++ decimal uid

unfoldable pub home_args : ℕ → Bytes → List Bytes
unfolding decimal
home_args uid home = codes "--dir" ∷ run_user uid ∷ codes "--tmpfs" ∷ home ∷ []

abbrev dir_args : List Bytes → List Bytes
dir_args [] = []
dir_args (d ∷ ds) = codes "--dir" ∷ d ∷ dir_args ds

abbrev file_args : List Seed → List Bytes
file_args [] = []
file_args (s ∷ ss) =
    codes "--perms" ∷ codes "0600" ∷ codes "--file" ∷ decimal s.fd ∷ s.dest ∷ file_args ss

unfoldable pub seed_args : SeedSet → List Bytes
unfolding decimal
seed_args seeds = dir_args seeds.dirs ++ file_args seeds.files

-- `prepare_persist_src`.
unfoldable pub prepare_persist_src : Host → Bytes → Result Bytes
prepare_persist_src h src = do
  guard (not (h.exists src) && not (h.create_dir_all src)) seed_missing
  require (h.canonicalize src) seed_unreadable

unfoldable pub persist_args : Host → Bytes → List Bytes → Result (List Bytes)
unfolding prepare_persist_src
persist_args h home [] = ok []
persist_args h home (spec ∷ specs) = do
  (src, dest) ← parse_src_dest spec
  real ← prepare_persist_src h src
  dest_abs ← resolve_home_dest home dest
  rest ← persist_args h home specs
  ok (codes "--bind" ∷ real ∷ dest_abs ∷ rest)

abbrev bind_try : Bytes → List Bytes
bind_try p = codes "--ro-bind-try" ∷ p ∷ p ∷ []

unfoldable pub tool_args : Bool → Bytes → List Bytes
tool_args expose_local_share home =
    bind_try (home ++ codes "/.local/bin")
    ++ bind_try
        (home ++ (if expose_local_share then codes "/.local/share" else codes "/.local/share/mise"))
    ++ bind_try (home ++ codes "/.config/mise")

-- `resolv_conf_target`.
unfoldable pub resolv_conf_target : Host → Option Bytes
resolv_conf_target h = if h.resolv_is_symlink then h.resolv_canonical else none

abbrev data_args : Option Seed → List Bytes
data_args none = []
data_args (some s) = codes "--ro-bind-data" ∷ decimal s.fd ∷ s.dest ∷ []

abbrev try_target : Option Bytes → List Bytes
try_target none = []
try_target (some p) = bind_try p

unfoldable pub overlay_args : Host → Bool → SeedSet → List Bytes
unfolding decimal resolv_conf_target
overlay_args h net_host seeds =
    data_args seeds.hosts
    ++ data_args seeds.resolv
    ++ (if net_host then try_target (resolv_conf_target h) else [])

abbrev is_some {ℓ} : {A : Type ℓ} → Option A → Bool
is_some none = false
is_some (some a) = true

unfoldable pub namespace_args : Host → Bool → SeedSet → List Bytes
unfolding decimal
namespace_args h net_host seeds =
    map codes (
      "--unshare-user" ∷ "--unshare-ipc" ∷ "--unshare-pid" ∷ "--unshare-uts" ∷ "--unshare-cgroup"
      ∷ [])
    ++ (codes "--uid" ∷ decimal h.uid ∷ codes "--gid" ∷ decimal h.gid ∷ [])
    ++ (codes "--cap-drop" ∷ codes "ALL" ∷ [])
    ++ ((if is_some seeds.hosts || net_host then codes "--share-net" else codes "--unshare-net")
        ∷ [])

abbrev dev_bind : Bytes → List Bytes
dev_bind name = codes "--dev-bind-try" ∷ (codes "/dev/" ++ name) ∷ (codes "/dev/" ++ name) ∷ []

abbrev dev_binds : List Bytes → List Bytes
dev_binds [] = []
dev_binds (n ∷ ns) = dev_bind n ++ dev_binds ns

abbrev first_is_digit : Bytes → Bool
first_is_digit [] = false
first_is_digit (c ∷ s) = is_ascii_digit c

unfoldable pub is_numbered : Bytes → Bool
unfolding eq_bytes
is_numbered name = eq_bytes (take 6 name) (codes "nvidia") && first_is_digit (drop 6 name)

abbrev numbered_only : List Bytes → List Bytes
numbered_only [] = []
numbered_only (n ∷ ns) = let rest = numbered_only ns in if is_numbered n then n ∷ rest else rest

abbrev listed : Option (List Bytes) → List Bytes
listed none = []
listed (some names) = names

unfoldable pub gpu_args : Host → Bool → List Bytes
unfolding is_numbered
gpu_args h gpu =
    if gpu
    then (dev_binds
          (map codes ("nvidiactl" ∷ "nvidia-uvm" ∷ "nvidia-uvm-tools" ∷ "nvidia-modeset" ∷ []))
        ++ dev_binds (numbered_only (listed h.dev)))
    else []

unfoldable pub bind_args : List Workspace → List Bytes
unfolding decimal
bind_args [] = []
bind_args (w ∷ ws) =
    (if w.ro then codes "--ro-bind-fd" else codes "--bind-fd")
    ∷ decimal w.fd
    ∷ w.path
    ∷ bind_args ws

abbrev setenv : Bytes → Bytes → List Bytes
setenv key value = codes "--setenv" ∷ key ∷ value ∷ []

abbrev or_else : Option Bytes → Bytes → Bytes
or_else none d = d
or_else (some v) d = v

abbrev own_env : Environment → Host → Bytes → List Bytes
own_env env h home =
    let user = or_else (env (codes "USER")) (or_else h.user_name (codes "user")) in
    setenv (codes "HOME") home
    ++ setenv (codes "USER") user
    ++ setenv (codes "LOGNAME") user
    ++ setenv (codes "TERM") (or_else (env (codes "TERM")) (codes "xterm-256color"))
    ++ setenv (codes "LANG") (or_else (env (codes "LANG")) (codes "C.UTF-8"))
    ++ setenv (codes "LC_ALL") (or_else (env (codes "LC_ALL")) (codes "C.UTF-8"))
    ++ setenv (codes "PATH") (home ++ codes "/.local/bin:/usr/local/bin:/usr/bin:/bin")
    ++ setenv (codes "XDG_RUNTIME_DIR") (run_user h.uid)

abbrev caller_env : List EnvSpec → List Bytes
caller_env [] = []
caller_env (e ∷ es) = setenv e.key e.value ++ caller_env es

unfoldable pub env_args : Environment → Host → Bytes → List EnvSpec → List Bytes
unfolding decimal
env_args env h home envs = codes "--clearenv" ∷ own_env env h home ++ caller_env envs

-- `build`.
unfoldable pub build :
    Environment → Host → Cli → List Workspace → Bytes → List EnvSpec → SeedSet → Result (List Bytes)
unfolding base_args home_args seed_args tool_args overlay_args namespace_args gpu_args bind_args
    env_args
build env h c workspaces cwd envs seeds = do
  home ← host_home env
  persist ← persist_args h home c.persist
  ok (
      base_args
      ++ home_args h.uid home
      ++ seed_args seeds
      ++ persist
      ++ tool_args c.expose_local_share home
      ++ overlay_args h (is_host c.net) seeds
      ++ namespace_args h (is_host c.net) seeds
      ++ gpu_args h c.gpu
      ++ bind_args workspaces
      ++ (codes "--chdir" ∷ cwd ∷ [])
      ++ env_args env h home envs)

-- `to_memfd`, up to the bytes that it seals.
unfoldable pub blob : List Bytes → Bytes
blob [] = []
blob (arg ∷ args) = arg ++ 0 ∷ blob args
