-- ===== src/Seed/Flatten.antt =====
-- src/seed.rs: the files and directories that a source gives, and the sources that are refused.
use basta.Prelude.{
  ℕ, ◌+◌, ◌≤◌, ◌<◌, ◌≡◌, refl, sym, ap, ◌∙◌, Bool, true, false, not, none, some, List, [], ◌∷◌,
  ◌++◌, append_assoc, append-nil, arith, ltb, if◌then◌else◌, Bytes, >>=-eq-ok, ok-injective,
}
use basta.Prelude.{Result, ok, err, seed_unreadable, seed_too_deep}
use basta.Seed.{
  Seed, SeedSet, Node, missing, symlink, special, file, dir, Listing, unreadable, finished, entry,
  add_dir, child_of, max_seed_depth, is_readable, enter, walk_node, walk_entries, seed_source,
}

-- The files and the directories below a source, in the order of the walk.
unfoldable mutual
  pub files_of : Bytes → Node → List Seed
  files_of dest (file (some fd)) = record { fd = fd; dest = dest } ∷ []
  files_of dest (dir (some fd) l) = files_in dest l
  files_of dest _ = []

  pub files_in : Bytes → Listing → List Seed
  files_in dest (entry (some name) node rest) =
      files_of (child_of dest name) node ++ files_in dest rest
  files_in dest _ = []

  pub dirs_of : Bytes → Node → List Bytes
  dirs_of dest (dir (some fd) l) = dest ∷ dirs_in dest l
  dirs_of dest _ = []

  pub dirs_in : Bytes → Listing → List Bytes
  dirs_in dest (entry (some name) node rest) =
      dirs_of (child_of dest name) node ++ dirs_in dest rest
  dirs_in dest _ = []

-- No link, nothing unreadable, and no directory deeper than the bound. A device or a socket is passed
-- over below a source.
unfoldable mutual
  pub IsPlain : ℕ → Node → Type 0
  IsPlain depth special = Unit
  IsPlain depth (file (some fd)) = Unit
  IsPlain depth (dir (some fd) l) = (depth < max_seed_depth) × PlainEntries (depth + 1) l
  IsPlain depth _ = ⊥

  pub PlainEntries : ℕ → Listing → Type 0
  PlainEntries depth unreadable = ⊥
  PlainEntries depth finished = Unit
  PlainEntries depth (entry none node rest) = ⊥
  PlainEntries depth (entry (some name) node rest) = IsPlain depth node × PlainEntries depth rest

abbrev pub extend : SeedSet → List Bytes → List Seed → SeedSet
extend set dirs files = record set { dirs = set.dirs ++ dirs; files = set.files ++ files }

extend_twice :
    (set : SeedSet) (ds ds' : List Bytes) (fs fs' : List Seed)
    → extend (extend set ds fs) ds' fs' ≡ extend set (ds ++ ds') (fs ++ fs')
extend_twice set ds ds' fs fs' =
    rw (append_assoc set.dirs ds ds', append_assoc set.files fs fs') refl

extend_nil : (set : SeedSet) → extend set [] [] ≡ set
extend_nil set = rw (append-nil set.dirs, append-nil set.files) refl

enter-inv :
    (depth : ℕ) (l : Listing) (m : Result SeedSet) {set : SeedSet}
    → enter depth l m ≡ ok set
    → (depth ≤ max_seed_depth) × (is_readable l ≡ true) × (m ≡ ok set)
enter-inv depth l m {set} h =
    let (a, b, e) = go (ltb max_seed_depth depth) (is_readable l) h in (ground (arith, a), b, e)
  where
    go :
        (b c : Bool)
        → (if b then err seed_too_deep else if not c then err seed_unreadable else m) ≡ ok set
        → (b ≡ false) × (c ≡ true) × (m ≡ ok set)
    go true c e = cc
    go false false e = cc
    go false true e = (refl, refl, e)

-- What a walk leaves behind.
abbrev Walked : Bytes → ℕ → Node → SeedSet → SeedSet → Type 0
Walked dest depth node set out =
    IsPlain depth node × (out ≡ extend set (dirs_of dest node) (files_of dest node))

abbrev WalkedIn : Bytes → ℕ → Listing → SeedSet → SeedSet → Type 0
WalkedIn dest depth l set out =
    PlainEntries depth l × (out ≡ extend set (dirs_in dest l) (files_in dest l))

mutual
  unfolding walk_entries files_in IsPlain

  walk_node-Walked :
      (depth : ℕ) (dest : Bytes) (node : Node) (set out : SeedSet)
      → walk_node depth dest node set ≡ ok out
      → Walked dest depth node set out
  walk_node-Walked depth dest missing set out h = cc
  walk_node-Walked depth dest symlink set out h = cc
  walk_node-Walked depth dest special set out h = (tt, sym (ok-injective h) ∙ sym (extend_nil set))
  walk_node-Walked depth dest (file none) set out h = cc
  walk_node-Walked depth dest (file (some fd)) set out h =
      (tt, sym (ok-injective h) ∙ rw (append-nil set.dirs) refl)
  walk_node-Walked depth dest (dir none l) set out h = cc
  walk_node-Walked depth dest (dir (some fd) l) set out h =
      let (deep, r, e) =
        enter-inv (depth + 1) l (walk_entries (depth + 1) dest l (add_dir dest set)) h in
      let (p, q) = walk_entries-Walked (depth + 1) dest l (add_dir dest set) out r e in
      ((omega (arith, deep), p), q ∙ rw (append_assoc set.dirs (dest ∷ []) (dirs_in dest l)) refl)

  walk_entries-Walked :
      (depth : ℕ) (dest : Bytes) (l : Listing) (set out : SeedSet)
      → is_readable l ≡ true
      → walk_entries depth dest l set ≡ ok out
      → WalkedIn dest depth l set out
  walk_entries-Walked depth dest unreadable set out r h = cc
  walk_entries-Walked depth dest finished set out r h =
      (tt, sym (ok-injective h) ∙ sym (extend_nil set))
  walk_entries-Walked depth dest (entry none node rest) set out r h = cc
  walk_entries-Walked depth dest (entry (some name) node rest) set out r h =
      let (mid, e, h1) = >>=-eq-ok (walk_node depth (child_of dest name) node set) _ h in
      let (p, q) = walk_node-Walked depth (child_of dest name) node set mid e in
      let (p', q') = walk_entries-Walked depth dest rest mid out r h1 in
      (
        (p, p'),
        q'
            ∙ ap (λ s. extend s (dirs_in dest rest) (files_in dest rest)) q
            ∙ extend_twice set (dirs_of (child_of dest name) node) (dirs_in dest rest)
                (files_of (child_of dest name) node) (files_in dest rest),
      )

-- What can stand as the SRC of a `--seed`: a file, or a directory with nothing refused in it.
abbrev pub IsSource : Node → Type 0
IsSource (file (some fd)) = Unit
IsSource (dir (some fd) l) = PlainEntries 0 l
IsSource _ = ⊥

-- A source is accepted only if it is a file, or a directory in which nothing is a link, missing or
-- unreadable and no directory is nested deeper than 64; then the set gains exactly the directories and
-- the regular files of the tree, in the order of the walk, each at its place below the destination.
pub seed_source_sound :
    (dest : Bytes) (node : Node) (set out : SeedSet)
    → seed_source dest node set ≡ ok out
    → IsSource node × (out ≡ extend set (dirs_of dest node) (files_of dest node))
unfolding seed_source files_in
seed_source_sound dest missing set out h = cc
seed_source_sound dest symlink set out h = cc
seed_source_sound dest special set out h = cc
seed_source_sound dest (file none) set out h = cc
seed_source_sound dest (file (some fd)) set out h =
    (tt, sym (ok-injective h) ∙ rw (append-nil set.dirs) refl)
seed_source_sound dest (dir none l) set out h = cc
seed_source_sound dest (dir (some fd) l) set out h =
    let (_, r, e) = enter-inv 0 l (walk_entries 0 dest l (add_dir dest set)) h in
    let (p, q) = walk_entries-Walked 0 dest l (add_dir dest set) out r e in
    (p, q ∙ rw (append_assoc set.dirs (dest ∷ []) (dirs_in dest l)) refl)
