-- ===== src/Paths.antt =====
-- `std::path`: the components of a path, equality and prefixes by components, and `join`.
use basta.Prelude.{
  Bool, true, false, ◌&&◌, ◌||◌, List, [], ◌∷◌, ◌++◌, if◌then◌else◌, is_empty, Bytes, codes,
  eq_bytes, split, starts_with, ends_with,
}

pub data Component : Type 0 where
  root_dir cur_dir parent_dir : Component
  normal : Bytes → Component

abbrev pub is_parent_dir : Component → Bool
is_parent_dir parent_dir = true
is_parent_dir _ = false

abbrev pub is_normal : Component → Bool
is_normal (normal s) = true
is_normal _ = false

-- A part between two slashes. `.` is dropped, but not as the first part of a relative path.
unfoldable pub part_components : Bytes → List Component
unfolding eq_bytes
part_components part =
    if is_empty part || eq_bytes part (codes ".")
    then []
    else if eq_bytes part (codes "..")
    then parent_dir ∷ []
    else normal part ∷ []

abbrev all_parts : List Bytes → List Component
all_parts [] = []
all_parts (p ∷ ps) = part_components p ++ all_parts ps

abbrev relative_parts : List Bytes → List Component
relative_parts [] = []
relative_parts (p ∷ ps) =
    (if eq_bytes p (codes ".") then cur_dir ∷ [] else part_components p) ++ all_parts ps

abbrev pub is_absolute : Bytes → Bool
is_absolute = starts_with b'/'

unfoldable pub components : Bytes → List Component
unfolding part_components split eq_bytes
components path =
    if is_absolute path
    then root_dir ∷ all_parts (split b'/' path)
    else relative_parts (split b'/' path)

unfoldable pub component_eq : Component → Component → Bool
unfolding eq_bytes
component_eq root_dir root_dir = true
component_eq cur_dir cur_dir = true
component_eq parent_dir parent_dir = true
component_eq (normal a) (normal b) = eq_bytes a b
component_eq _ _ = false

-- Is the second list a prefix of the first?
unfoldable pub has_prefix : List Component → List Component → Bool
unfolding component_eq
has_prefix cs [] = true
has_prefix [] (d ∷ ds) = false
has_prefix (c ∷ cs) (d ∷ ds) = component_eq c d && has_prefix cs ds

unfoldable pub same_components : List Component → List Component → Bool
unfolding component_eq
same_components [] [] = true
same_components (c ∷ cs) (d ∷ ds) = component_eq c d && same_components cs ds
same_components _ _ = false

-- `==` of paths and `Path::starts_with`.
unfoldable pub path_eq : Bytes → Bytes → Bool
unfolding components same_components
path_eq p q = same_components (components p) (components q)

unfoldable pub path_starts_with : Bytes → Bytes → Bool
unfolding components has_prefix
path_starts_with p q = has_prefix (components p) (components q)

-- `Path::join`.
unfoldable pub path_join : Bytes → Bytes → Bytes
path_join base rel =
    if is_absolute rel
    then rel
    else if is_empty base || ends_with b'/' base
    then base ++ rel
    else base ++ b'/' ∷ rel
