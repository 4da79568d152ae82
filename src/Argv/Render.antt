-- ===== src/Argv/Render.antt =====
-- src/argv.rs: `render` and `shell_quote`, the line that `--dry-run` and `--trace` print.
use basta.Prelude.{
  ℕ, Bool, true, false, ◌||◌, List, [], ◌∷◌, ◌++◌, map, ◌==◌, if◌then◌else◌, is_empty, all, any,
  Bytes, codes, eq_bytes, is_ascii_alphanumeric, contains_bytes,
}

unfoldable pub safe_setenv : List Bytes
safe_setenv =
    map codes
      ("HOME" ∷ "USER" ∷ "LOGNAME" ∷ "TERM" ∷ "LANG" ∷ "LC_ALL" ∷ "PATH" ∷ "XDG_RUNTIME_DIR" ∷ [])

abbrev plain_char : ℕ → Bool
plain_char c = is_ascii_alphanumeric c || any (λ d. d == c) (codes "+,-./:=@_")

abbrev quoted : Bytes → Bytes
quoted [] = []
quoted (c ∷ s) = (if c == b'\'' then codes "'\\''" else c ∷ []) ++ quoted s

unfoldable pub shell_quote : Bytes → Bytes
shell_quote s =
    if is_empty s
    then codes "''"
    else if all plain_char s
    then s
    else b'\'' ∷ quoted s ++ b'\'' ∷ []

abbrev pub is_setenv : Bytes → Bool
is_setenv arg = eq_bytes arg (codes "--setenv")

abbrev pub shown : Bytes → Bytes → Bytes
shown key value = if contains_bytes safe_setenv key then shell_quote value else codes "<redacted>"

abbrev pub word : Bytes → Bytes
word arg = b' ' ∷ shell_quote arg

-- The loop of `render`, from the argument at `i` on.
unfoldable pub render_from : List Bytes → Bytes
unfolding eq_bytes shell_quote safe_setenv
render_from [] = []
render_from (a ∷ []) = word a
render_from (a ∷ k ∷ []) = word a ++ render_from (k ∷ [])
render_from (a ∷ k ∷ v ∷ rest) = elim (is_setenv a) [
  | true ↦ codes " --setenv " ++ shell_quote k ++ b' ' ∷ shown k v ++ render_from rest
  | false ↦ word a ++ render_from (k ∷ v ∷ rest)
]

unfoldable pub render : List Bytes → Bytes
unfolding render_from
render args = codes "+ env -i bwrap --args FD" ++ render_from args
