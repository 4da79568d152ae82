-- ===== src/Workspace.antt =====
-- src/workspace.rs: workspaces, the roots they may lie under, and the mounts they may not mask.
pub mod Masking
use basta.Prelude.{
  ℕ, Bool, true, false, not, ◌&&◌, ◌||◌, Option, none, some, List, [], ◌∷◌, ◌++◌, map, ◌==◌,
  if◌then◌else◌, is_empty, any, Bytes, codes, guard, require, split,
}
use basta.Prelude.{
  Result, ok, ◌>>=◌, ◌>>◌, workspace_missing, workspace_unopened, outside_roots, system_root,
  masks_home, read_only_reopened,
}
use basta.Paths.{path_eq, path_starts_with}
use basta.Env.{Environment}

-- The descriptor is a number that the kernel hands out.
pub record Workspace : Type 0 where
  pub fd : ℕ
  pub path : Bytes
  pub ro : Bool

abbrev rev : List ℕ → List ℕ → List ℕ
rev [] out = out
rev (x ∷ xs) out = rev xs (x ∷ out)

abbrev ro_tail : Bytes → Bytes × Bool
ro_tail (o ∷ r ∷ colon ∷ s) =
    if o == b'o' && r == b'r' && colon == b':'
    then (rev s [], true)
    else (rev (o ∷ r ∷ colon ∷ s) [], false)
ro_tail s = (rev s [], false)

-- `spec.strip_suffix(":ro")`.
unfoldable pub strip_ro : Bytes → Bytes × Bool
strip_ro spec = ro_tail (rev spec [])

unfoldable pub system : List Bytes
system = map codes (
    "/" ∷ "/etc" ∷ "/usr" ∷ "/var" ∷ "/sys" ∷ "/proc" ∷ "/boot" ∷ "/root" ∷ "/dev" ∷ "/bin"
    ∷ "/sbin" ∷ "/lib" ∷ "/lib64" ∷ "/home" ∷ [])

-- `roots.split(':').filter(|r| !r.is_empty())`.
abbrev keep_nonempty : List Bytes → List Bytes
keep_nonempty [] = []
keep_nonempty (r ∷ rs) = let rest = keep_nonempty rs in if is_empty r then rest else r ∷ rest

unfoldable pub root_list : Bytes → List Bytes
unfolding split
root_list roots = keep_nonempty (split b':' roots)

-- `reject_system_roots`; the two messages, for a root from the environment and a default one, are one
-- error here.
unfoldable pub reject_system_roots : List Bytes → Result (Unit {0})
reject_system_roots [] = ok tt
reject_system_roots (r ∷ rs) = do guard (any (path_eq r) system) system_root; reject_system_roots rs

unfoldable pub path_under_any_root : Bytes → List Bytes → Bool
path_under_any_root path roots = any (λ r. path_eq path r || path_starts_with path r) roots

abbrev or_default : Option Bytes → Bytes → Bytes
or_default none d = d
or_default (some v) d = v

abbrev pub allowed_roots : Environment → Bytes
allowed_roots env = elim (env (codes "BASTA_ALLOWED_ROOTS")) [
  | some v ↦ v
  | none ↦ or_default (env (codes "HOME")) (codes "/home") ++ codes ":/tmp:/mnt"
]

unfoldable pub check_allowed_root : Environment → Bytes → Result (Unit {0})
check_allowed_root env path = do
  let roots = root_list (allowed_roots env)
  reject_system_roots roots
  guard (not (path_under_any_root path roots)) outside_roots
  ok tt

-- `std::fs::canonicalize` and `open(O_PATH | O_DIRECTORY | O_NOFOLLOW)`, of the host.
pub record Host : Type 0 where
  pub canonicalize : Bytes → Option Bytes
  pub open_dir : Bytes → Option ℕ

-- `Workspace::resolve`.
unfoldable pub resolve_workspace : Host → Environment → Bytes → Result Workspace
unfolding strip_ro
resolve_workspace host env spec = do
  let (path_text, ro) = strip_ro spec
  canonical ← require (host.canonicalize path_text) workspace_missing
  check_allowed_root env canonical
  fd ← require (host.open_dir canonical) workspace_unopened
  ok (record { fd = fd; path = canonical; ro = ro })

-- The first loop of `reject_masking`; the warnings on `/tmp`, `/var/tmp` and `/run` change nothing.
unfoldable pub check_home : Bytes → List Workspace → Result (Unit {0})
check_home home [] = ok tt
check_home home (w ∷ ws) = do
  guard (path_eq w.path home || path_starts_with home w.path) masks_home
  check_home home ws

-- The second loop: a read-only workspace against the read-write ones behind it.
unfoldable pub check_reopened : List Workspace → Result (Unit {0})
check_reopened [] = ok tt
check_reopened (w ∷ ws) = do
  guard (w.ro && any (λ rw'. not rw'.ro && path_starts_with w.path rw'.path) ws) read_only_reopened
  check_reopened ws

unfoldable pub reject_masking : List Workspace → Bytes → Result (Unit {0})
unfolding check_home check_reopened
reject_masking workspaces home = do check_home home workspaces; check_reopened workspaces
