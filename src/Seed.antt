-- ===== src/Seed.antt =====
-- src/seed.rs: the files and directories copied into the sandbox's `$HOME`.
pub mod Flatten
use basta.Prelude.{
  ℕ, ◌+◌, Bool, true, false, not, ◌||◌, Option, none, some, List, [], ◌∷◌, ◌++◌, ltb, if◌then◌else◌,
  is_empty, all, Bytes, guard, require, rsplit_once,
}
use basta.Prelude.{
  Result, ok, err, ◌>>=◌, ◌>>◌, needs_src_dest, empty_src_dest, dest_absolute, dest_component,
  seed_missing, seed_symlink, seed_special, seed_unopened, seed_unreadable, seed_too_deep,
}
use basta.Paths.{components, is_absolute, is_normal, path_join}

-- One file, by its descriptor, and where it goes.
pub record Seed : Type 0 where
  pub fd : ℕ
  pub dest : Bytes

pub record SeedSet : Type 0 where
  pub dirs : List Bytes
  pub files : List Seed
  pub hosts : Option Seed
  pub resolv : Option Seed

-- `parse_src_dest`.
unfoldable pub parse_src_dest : Bytes → Result (Bytes × Bytes)
unfolding rsplit_once
parse_src_dest spec = do
  (src, dest) ← require (rsplit_once b':' spec) needs_src_dest
  guard (is_empty src || is_empty dest) empty_src_dest
  ok (src, dest)

-- `resolve_home_dest`.
unfoldable pub resolve_home_dest : Bytes → Bytes → Result Bytes
unfolding components path_join
resolve_home_dest home dest = do
  guard (is_absolute dest) dest_absolute
  guard (not (all is_normal (components dest))) dest_component
  ok (path_join home dest)

-- What `symlink_metadata`, `open` and `read_dir` find below a path of the host. A file and a directory
-- carry the descriptor that opening them gives, if they open; an entry's name is `none` if it is not
-- UTF-8. The entries stand in the order of `entries.sort()`.
mutual
  pub data Node : Type 0 where
    missing : Node
    symlink : Node
    special : Node
    file : Option ℕ → Node
    dir : Option ℕ → Listing → Node

  pub data Listing : Type 0 where
    unreadable : Listing
    finished : Listing
    entry : Option Bytes → Node → Listing → Listing

abbrev pub max_seed_depth : ℕ
max_seed_depth = 64

abbrev pub add_dir : Bytes → SeedSet → SeedSet
add_dir dest set = record set { dirs = set.dirs ++ dest ∷ [] }

abbrev pub add_file : ℕ → Bytes → SeedSet → SeedSet
add_file fd dest set = record set { files = set.files ++ record { fd = fd; dest = dest } ∷ [] }

abbrev child_of : Bytes → Bytes → Bytes
child_of dest name = dest ++ b'/' ∷ name

-- Can the whole listing be read? `read_dir` collects the names before the loop starts.
abbrev pub is_readable : Listing → Bool
is_readable unreadable = false
is_readable finished = true
is_readable (entry name node rest) = is_readable rest

-- The tests at the start of `walk`, before its loop.
abbrev pub enter : ℕ → Listing → Result SeedSet → Result SeedSet
enter depth l loop =
    if ltb max_seed_depth depth
    then err seed_too_deep
    else if not (is_readable l)
    then err seed_unreadable
    else loop

-- `walk`: the loop over the entries of a directory at `depth`, and the body of the loop. The recursion
-- is on the listing, so it ends at every depth.
unfoldable mutual
  pub walk_node : ℕ → Bytes → Node → SeedSet → Result SeedSet
  walk_node depth dest missing set = err seed_missing
  walk_node depth dest symlink set = err seed_symlink
  walk_node depth dest special set = ok set
  walk_node depth dest (file none) set = err seed_unopened
  walk_node depth dest (file (some fd)) set = ok (add_file fd dest set)
  walk_node depth dest (dir none l) set = err seed_unopened
  walk_node depth dest (dir (some fd) l) set =
      enter (depth + 1) l (walk_entries (depth + 1) dest l (add_dir dest set))

  pub walk_entries : ℕ → Bytes → Listing → SeedSet → Result SeedSet
  walk_entries depth dest unreadable set = ok set
  walk_entries depth dest finished set = ok set
  walk_entries depth dest (entry none node rest) set = err seed_unreadable
  walk_entries depth dest (entry (some name) node rest) set =
      walk_node depth (child_of dest name) node set >>= walk_entries depth dest rest

-- What `SeedSet::build` does with SRC.
unfoldable pub seed_source : Bytes → Node → SeedSet → Result SeedSet
unfolding walk_entries
seed_source dest missing set = err seed_missing
seed_source dest symlink set = err seed_symlink
seed_source dest special set = err seed_special
seed_source dest (file none) set = err seed_unopened
seed_source dest (file (some fd)) set = ok (add_file fd dest set)
seed_source dest (dir none l) set = err seed_unopened
seed_source dest (dir (some fd) l) set = enter 0 l (walk_entries 0 dest l (add_dir dest set))

-- The host's files, as the launcher sees them.
abbrev pub Files : Type 0
Files = Bytes → Node

unfoldable pub build_from : Files → Bytes → List Bytes → SeedSet → Result SeedSet
unfolding seed_source
build_from files home [] set = ok set
build_from files home (spec ∷ specs) set = do
  (src, dest) ← parse_src_dest spec
  dest_abs ← resolve_home_dest home dest
  set' ← seed_source dest_abs (files src) set
  build_from files home specs set'

abbrev pub empty_set : SeedSet
empty_set = record { dirs = []; files = []; hosts = none; resolv = none }

-- `SeedSet::build`.
unfoldable pub build_seeds : Files → Bytes → List Bytes → Result SeedSet
unfolding build_from
build_seeds files home specs = build_from files home specs empty_set
