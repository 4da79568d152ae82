-- ===== src/Main/Entry.antt =====
-- src/main.rs: `close_inherited_fds`, and how `main` goes on from there.
pub mod Closing
use basta.Prelude.{
  ℕ, Bool, true, false, not, Option, none, some, List, [], ◌∷◌, arith, ltb, leb, ◌==◌,
  if◌then◌else◌, Bytes, codes, eq_bytes, ℤ, pos, negsuc, parse_i32,
}

-- `Iterator::filter`.
abbrev pub keep : (ℕ → Bool) → List ℕ → List ℕ
keep p [] = []
keep p (x ∷ xs) = let rest = keep p xs in if p x then x ∷ rest else rest

abbrev pub from_three : Option ℤ → List ℕ → List ℕ
from_three none rest = rest
from_three (some (negsuc n)) rest = rest
from_three (some (pos n)) rest = if leb 3 n then n ∷ rest else rest

-- The numbers among the names of `/proc/self/fd`.
unfoldable pub fds_of : List Bytes → List ℕ
fds_of [] = []
fds_of (name ∷ names) = from_three (parse_i32 name) (fds_of names)

-- `close`, on the descriptors that are open.
unfoldable pub close_each : List ℕ → List ℕ → List ℕ
close_each [] held = held
close_each (fd ∷ fds) held = close_each fds (keep (λ x. not (fd == x)) held)

-- What is open behind `close_inherited_fds`, by whether `close_range` works and what `/proc/self/fd`
-- lists.
unfoldable pub close_inherited_fds : Bool → Option (List Bytes) → List ℕ → List ℕ
unfolding fds_of close_each
close_inherited_fds true listing held = keep (λ x. ltb x 3) held
close_inherited_fds false none held = held
close_inherited_fds false (some names) held = close_each (fds_of names) held

-- How `main` goes on: the proxy, the revision, or the launcher with its options.
pub data Entry : Type 0 where
  sni_proxy build_rev launcher : Entry

abbrev second : List Bytes → Option Bytes
second [] = none
second (a ∷ []) = none
second (a ∷ b ∷ args) = some b

abbrev entry_at : Option Bytes → Entry
entry_at none = launcher
entry_at (some a) =
    if eq_bytes a (codes "__sni-proxy")
    then sni_proxy
    else if eq_bytes a (codes "--build-rev")
    then build_rev
    else launcher

unfoldable pub entry : List Bytes → Entry
unfolding eq_bytes
entry args = entry_at (second args)
