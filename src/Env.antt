-- ===== src/Env.antt =====
-- src/env.rs: `$HOME` and the `--env` specs. The process environment is a parameter: `none` for a
-- variable that is unset or not UTF-8.
pub mod Specs
use basta.Prelude.{
  ℕ, Bool, false, not, ◌&&◌, ◌||◌, Option, none, some, List, [], ◌∷◌, map, ◌==◌, if◌then◌else◌,
  is_empty, all, any, Bytes, codes, is_ascii_alphabetic, is_ascii_alphanumeric, guard, require,
  split_once, contains_bytes,
}
use basta.Prelude.{
  Result, ok, ◌>>=◌, ◌>>◌, home_unset, home_relative, home_parent, home_system, env_unset,
  env_bad_key, env_reserved,
}
use basta.Paths.{components, is_absolute, is_parent_dir}

abbrev pub Environment : Type 0
Environment = Bytes → Option Bytes

unfoldable pub system_dirs : List Bytes
system_dirs = map codes (
    "" ∷ "/" ∷ "/etc" ∷ "/usr" ∷ "/var" ∷ "/sys" ∷ "/proc" ∷ "/boot" ∷ "/root" ∷ "/dev" ∷ "/bin"
    ∷ "/sbin" ∷ "/lib" ∷ "/lib64" ∷ "/home" ∷ [])

-- `trim_end_matches('/')`.
abbrev keep_unless_slash : ℕ → Bytes → Bytes
keep_unless_slash c [] = if c == b'/' then [] else c ∷ []
keep_unless_slash c (d ∷ s) = c ∷ d ∷ s

unfoldable pub trim_slashes : Bytes → Bytes
trim_slashes [] = []
trim_slashes (c ∷ s) = keep_unless_slash c (trim_slashes s)

unfoldable pub host_home : Environment → Result Bytes
unfolding components trim_slashes
host_home env = do
  home ← require (env (codes "HOME")) home_unset
  guard (is_empty home || not (is_absolute home)) home_relative
  guard (any is_parent_dir (components home)) home_parent
  guard (contains_bytes system_dirs (trim_slashes home)) home_system
  ok home

unfoldable pub reserved : List Bytes
reserved =
    map codes
      ("HOME" ∷ "PATH" ∷ "USER" ∷ "LOGNAME" ∷ "XDG_RUNTIME_DIR" ∷ "TERM" ∷ "LANG" ∷ "LC_ALL" ∷ [])

pub record EnvSpec : Type 0 where
  pub key : Bytes
  pub value : Bytes

-- On the bytes of the key; every byte of a character beyond ASCII fails both tests.
unfoldable pub is_valid_key : Bytes → Bool
is_valid_key [] = false
is_valid_key (c ∷ s) =
    (is_ascii_alphabetic c || c == b'_') && all (λ d. is_ascii_alphanumeric d || d == b'_') s

abbrev key_value : Environment → Bytes → Option (Bytes × Bytes) → Result (Bytes × Bytes)
key_value env spec (some kv) = ok kv
key_value env spec none = do v ← require (env spec) env_unset; ok (spec, v)

-- `EnvSpec::parse`.
unfoldable pub parse_env : Environment → Bytes → Result EnvSpec
unfolding split_once is_valid_key
parse_env env spec = do
  (key, value) ← key_value env spec (split_once b'=' spec)
  guard (not (is_valid_key key)) env_bad_key
  guard (contains_bytes reserved key) env_reserved
  ok (record { key = key; value = value })
