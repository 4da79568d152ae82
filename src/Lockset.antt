-- ===== src/Lockset.antt =====
-- src/lockset.rs: the paths that are locked read-only, the ones that are watched, and their mounts.
-- The host's files are a parameter.
pub mod Plan
pub mod Membership
pub mod Noting
pub mod Coverage
use basta.Prelude.{
  ℕ, zero, suc, ◌+◌, ◌/◌, Bool, true, false, not, ◌||◌, Option, none, some, List, [], ◌∷◌, ◌++◌,
  arith, ltb, if◌then◌else◌, length, drop, is_empty, Bytes, codes, eq_bytes, require,
  contains_bytes, cat,
}
use basta.Prelude.{
  Result, ok, err, ◌>>=◌, ◌>>◌, lock_unstattable, lock_symlink, lock_unopened, git_symlink,
}
use basta.Paths.{path_eq, path_starts_with, path_join, components}
use basta.Cli.{Cli}
use basta.Workspace.{Workspace}

abbrev pub max_gitdir_depth : ℕ
max_gitdir_depth = 8

unfoldable pub default_lock : List (Bytes × Bytes)
default_lock =
    (codes ".envrc", codes "direnv auto-runs it on your next cd into this directory")
    ∷ (codes ".vscode", codes "VS Code runs tasks.json / launch.json / settings on folder open")
    ∷ (codes ".idea", codes "JetBrains runs saved run configurations on project open")
    ∷ (
      codes ".claude",
      codes "Claude Code loads hooks / settings / commands / agents the host may run",
    )
    ∷ (codes ".mcp.json", codes "names MCP servers the host harness launches as subprocesses")
    ∷ []

pub record WatchPath : Type 0 where
  pub path : Bytes
  pub reason : Bytes

pub record LockPlan : Type 0 where
  pub binds : List Workspace
  pub watch : List WatchPath

-- `symlink_metadata`: the kind of a path, or why it has none.
pub data Stat : Type 0 where
  absent unstattable link directory regular other : Stat

-- `symlink_metadata`; `is_file` and `is_dir`, which follow links; the directories that `read_dir` lists
-- below a path; `open(O_PATH | O_NOFOLLOW)`, with `O_DIRECTORY` if the flag is set; `Path::parent`; and
-- `Path::cmp`, as the order of sorting.
pub record Files : Type 0 where
  pub stat : Bytes → Stat
  pub is_file : Bytes → Bool
  pub is_dir : Bytes → Bool
  pub subdirs : Bytes → List Bytes
  pub open_path : Bytes → Bool → Option ℕ
  pub parent : Bytes → Option Bytes
  pub before : Bytes → Bytes → Bool

abbrev push_if : Bool → Bytes → List Bytes → List Bytes
push_if there p out = if there then out ++ p ∷ [] else out

-- `for name in ["config", "config.worktree"]` and `hooks`.
unfoldable pub gitdir_leaves : Files → Bytes → List Bytes → List Bytes
unfolding path_join
gitdir_leaves fs gitdir out =
    let config = path_join gitdir (codes "config") in
    let worktree = path_join gitdir (codes "config.worktree") in
    let hooks = path_join gitdir (codes "hooks") in
    push_if (fs.is_dir hooks) hooks
      (push_if (fs.is_file worktree) worktree (push_if (fs.is_file config) config out))

abbrev nested : Files → Bytes → List Bytes
nested fs gitdir =
    fs.subdirs (path_join gitdir (codes "modules"))
    ++ fs.subdirs (path_join gitdir (codes "worktrees"))

abbrev pub each_dir : (Bytes → List Bytes → List Bytes) → List Bytes → List Bytes → List Bytes
each_dir visit [] out = out
each_dir visit (d ∷ ds) out = each_dir visit ds (visit d out)

-- `collect_gitdir`; the fuel is `max_gitdir_depth + 1 - depth`, and the source returns at zero.
unfoldable pub collect_gitdir : ℕ → Files → Bytes → List Bytes → List Bytes
unfolding gitdir_leaves path_join
collect_gitdir zero fs gitdir out = out
collect_gitdir (suc fuel) fs gitdir out =
    each_dir (λ d o. collect_gitdir fuel fs d o) (nested fs gitdir) (gitdir_leaves fs gitdir out)

unfoldable pub default_git_leaves : Files → Bytes → List Bytes → Bool → Result (List Bytes)
unfolding collect_gitdir path_join
default_git_leaves fs wroot out unlocked =
    let dotgit = path_join wroot (codes ".git") in
    elim (fs.stat dotgit) [
      | link ↦ if unlocked then ok out else err git_symlink
      | directory ↦ ok (collect_gitdir (max_gitdir_depth + 1) fs dotgit out)
      | regular ↦ ok (out ++ dotgit ∷ [])
      | _ ↦ ok out
    ]

-- The two lists of `locked_leaves`.
pub record Found : Type 0 where
  pub leaves : List Bytes
  pub watch : List WatchPath

-- `match p.symlink_metadata()` of the two loops.
abbrev pub lock_as : Stat → Bytes → Bytes → Found → Result Found
lock_as absent p reason f =
    ok (record f { watch = f.watch ++ record { path = p; reason = reason } ∷ [] })
lock_as unstattable p reason f = err lock_unstattable
lock_as link p reason f = ok (record f { leaves = f.leaves ++ p ∷ [] })
lock_as directory p reason f = ok (record f { leaves = f.leaves ++ p ∷ [] })
lock_as regular p reason f = ok (record f { leaves = f.leaves ++ p ∷ [] })
lock_as other p reason f = ok (record f { leaves = f.leaves ++ p ∷ [] })

unfoldable pub lock_or_watch : Files → Bytes → Bytes → Found → Result Found
lock_or_watch fs p reason f = lock_as (fs.stat p) p reason f

unfoldable pub lock_defaults :
    Files → Bytes → List Bytes → List (Bytes × Bytes) → Found → Result Found
unfolding lock_or_watch eq_bytes path_join
lock_defaults fs wroot unlock [] f = ok f
lock_defaults fs wroot unlock ((rel, reason) ∷ rest) f =
    if contains_bytes unlock rel
    then lock_defaults fs wroot unlock rest f
    else (lock_or_watch fs (path_join wroot rel) reason f >>= lock_defaults fs wroot unlock rest)

unfoldable pub lock_custom : Files → Bytes → List Bytes → Found → Result Found
unfolding lock_or_watch path_join
lock_custom fs wroot [] f = ok f
lock_custom fs wroot (rel ∷ rels) f = do
  f' ←
      lock_or_watch fs (path_join wroot rel)
        (cat (codes "in your --lock set ('" ∷ rel ∷ codes "')" ∷ [])) f
  lock_custom fs wroot rels f'

unfoldable pub has_path : Bytes → List Bytes → Bool
unfolding path_eq
has_path p [] = false
has_path p (q ∷ qs) = path_eq q p || has_path p qs

unfoldable pub keep_paths : List Bytes → List Bytes → List Bytes
unfolding has_path
keep_paths drop [] = []
keep_paths drop (l ∷ ls) =
    let rest = keep_paths drop ls in if has_path l drop then rest else l ∷ rest

unfoldable pub keep_watch : List Bytes → List WatchPath → List WatchPath
unfolding has_path
keep_watch drop [] = []
keep_watch drop (w ∷ ws) =
    let rest = keep_watch drop ws in if has_path w.path drop then rest else w ∷ rest

-- A stable sort by a strict order, and `dedup` of neighbours.
abbrev pub insert_by {ℓ} : {A : Type ℓ} → (A → A → Bool) → A → List A → List A
insert_by lt x [] = x ∷ []
insert_by lt x (y ∷ ys) = let rest = insert_by lt x ys in if lt y x then y ∷ rest else x ∷ y ∷ ys

unfoldable pub sort_by {ℓ} : {A : Type ℓ} → (A → A → Bool) → List A → List A
sort_by lt [] = []
sort_by lt (x ∷ xs) = insert_by lt x (sort_by lt xs)

abbrev pub dedup_from {ℓ} : {A : Type ℓ} → (A → A → Bool) → A → List A → List A
dedup_from same x [] = x ∷ []
dedup_from same x (y ∷ ys) = elim (same y x) [
  | true ↦ dedup_from same x ys
  | false ↦ x ∷ dedup_from same y ys
]

unfoldable pub dedup_by {ℓ} : {A : Type ℓ} → (A → A → Bool) → List A → List A
dedup_by same [] = []
dedup_by same (x ∷ xs) = dedup_from same x xs

abbrev pub joined : Bytes → List Bytes → List Bytes
joined wroot [] = []
joined wroot (r ∷ rs) = path_join wroot r ∷ joined wroot rs

unfoldable pub default_leaves : Files → Bytes → Cli → Result Found
unfolding default_git_leaves lock_defaults eq_bytes default_lock
default_leaves fs wroot c = if c.no_lock then ok (record { leaves = []; watch = [] }) else (do
  git ← default_git_leaves fs wroot [] (contains_bytes c.unlock (codes ".git"))
  lock_defaults fs wroot c.unlock default_lock (record { leaves = git; watch = [] }))

-- `locked_leaves`.
unfoldable pub locked_leaves : Files → Bytes → Cli → Result Found
unfolding default_leaves lock_custom keep_paths keep_watch sort_by dedup_by path_eq path_join
locked_leaves fs wroot c = do
  f ← default_leaves fs wroot c
  g ← lock_custom fs wroot c.lock f
  let drop = joined wroot c.unlock
  ok (record {
    leaves = dedup_by path_eq (sort_by fs.before (keep_paths drop g.leaves));
    watch = keep_watch drop g.watch;
  })

unfoldable pub open_bind : Files → Bytes → Bool → Bool → Result Workspace
open_bind fs p ro dir = do
  fd ← require (fs.open_path p dir) lock_unopened
  ok (record { fd = fd; path = p; ro = ro })

-- `Path::parent`, again and again: the directories strictly between the workspace and a leaf, nearest
-- first. A parent is shorter than its path, so the leaf's length is fuel enough.
unfoldable pub ancestors : ℕ → Files → Bytes → Option Bytes → List Bytes
unfolding path_eq path_starts_with
ancestors zero fs wroot cur = []
ancestors (suc fuel) fs wroot none = []
ancestors (suc fuel) fs wroot (some d) = elim (path_eq d wroot || not (path_starts_with d wroot)) [
  | true ↦ []
  | false ↦ d ∷ ancestors fuel fs wroot (fs.parent d)
]

-- `BTreeSet<PathBuf>` as a list in the order of paths.
unfoldable pub pin : Files → Bytes → List Bytes → List Bytes
unfolding path_eq
pin fs p [] = p ∷ []
pin fs p (q ∷ qs) =
    let rest = pin fs p qs in
    if path_eq q p then q ∷ qs else if fs.before p q then p ∷ q ∷ qs else q ∷ rest

abbrev pin_all : Files → List Bytes → List Bytes → List Bytes
pin_all fs [] set = set
pin_all fs (p ∷ ps) set = pin_all fs ps (pin fs p set)

unfoldable pub pins_of : Files → Bytes → List Bytes → List Bytes → List Bytes
unfolding ancestors pin
pins_of fs wroot [] set = set
pins_of fs wroot (leaf ∷ leaves) set =
    pins_of fs wroot leaves (pin_all fs (ancestors (length leaf) fs wroot (fs.parent leaf)) set)

abbrev shallower : Bytes → Bytes → Bool
shallower p q = ltb (length (components p)) (length (components q))

-- The pins of the leaves, without the leaves themselves, parents first.
unfoldable pub pin_paths : Files → Bytes → List Bytes → List Bytes
unfolding pins_of keep_paths sort_by components
pin_paths fs wroot leaves = sort_by shallower (keep_paths leaves (pins_of fs wroot leaves []))

unfoldable pub bind_pins : Files → List Bytes → Result (List Workspace)
unfolding open_bind
bind_pins fs [] = ok []
bind_pins fs (p ∷ ps) = do b ← open_bind fs p false true; rest ← bind_pins fs ps; ok (b ∷ rest)

abbrev pub is_directory : Stat → Bool
is_directory directory = true
is_directory _ = false

unfoldable pub bind_leaf : Files → Bytes → Stat → Result Workspace
unfolding open_bind
bind_leaf fs leaf absent = err lock_unstattable
bind_leaf fs leaf unstattable = err lock_unstattable
bind_leaf fs leaf link = err lock_symlink
bind_leaf fs leaf st = open_bind fs leaf true (is_directory st)

unfoldable pub bind_leaves : Files → List Bytes → Result (List Workspace)
unfolding bind_leaf
bind_leaves fs [] = ok []
bind_leaves fs (l ∷ ls) = do b ← bind_leaf fs l (fs.stat l); rest ← bind_leaves fs ls; ok (b ∷ rest)

-- The mounts of the leaves that were found.
unfoldable pub bind_found : Files → Bytes → Found → Result LockPlan
unfolding pin_paths bind_pins bind_leaves
bind_found fs wroot f =
    if is_empty f.leaves then ok (record { binds = []; watch = f.watch }) else do
      pins ← bind_pins fs (pin_paths fs wroot f.leaves)
      leaves ← bind_leaves fs f.leaves
      ok (record { binds = pins ++ leaves; watch = f.watch })

-- The body of the loop of `plan_for`, on a writable workspace.
unfoldable pub plan_one : Files → Cli → Workspace → Result LockPlan
unfolding locked_leaves bind_found
plan_one fs c w = do f ← locked_leaves fs w.path c; bind_found fs w.path f

unfoldable pub plan_each : Files → Cli → List Workspace → LockPlan → Result LockPlan
unfolding plan_one
plan_each fs c [] plan = ok plan
plan_each fs c (w ∷ ws) plan = if w.ro then plan_each fs c ws plan else (do
  p ← plan_one fs c w
  plan_each fs c ws (record { binds = plan.binds ++ p.binds; watch = plan.watch ++ p.watch }))

-- `plan_for`.
unfoldable pub plan_for : Files → List Workspace → Cli → Result LockPlan
unfolding plan_each sort_by dedup_by path_eq
plan_for fs workspaces c = do
  plan ← plan_each fs c workspaces (record { binds = []; watch = [] })
  let sorted = sort_by (λ a b. fs.before a.path b.path) plan.watch
  ok (record { binds = plan.binds; watch = dedup_by (λ a b. path_eq a.path b.path) sorted })
