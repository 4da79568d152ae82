-- ===== src/Argv/Options.antt =====
-- src/argv.rs: the arguments of bwrap as bwrap reads them, by the number of operands of each option.
pub mod Named
use basta.Prelude.{
  ℕ, zero, suc, String, ◌≡◌, sym, ap, ◌∙◌, Bool, true, false, List, [], ◌∷◌, ◌++◌, append_assoc,
  append-nil, if◌then◌else◌, any, Bytes, codes, eq_bytes,
}

abbrev is_in : Bytes → List String → Bool
is_in w names = any (λ n. eq_bytes w (codes n)) names

-- The number of operands that bwrap documents for an option, for those that basta passes.
unfoldable pub arity : Bytes → ℕ
unfolding eq_bytes
arity w =
    if is_in w (
      "--bind" ∷ "--ro-bind" ∷ "--ro-bind-try" ∷ "--dev-bind-try" ∷ "--symlink" ∷ "--setenv"
      ∷ "--file" ∷ "--ro-bind-data" ∷ "--bind-fd" ∷ "--ro-bind-fd" ∷ [])
    then 2
    else if is_in w (
        "--dir" ∷ "--tmpfs" ∷ "--proc" ∷ "--dev" ∷ "--hostname" ∷ "--perms" ∷ "--chdir" ∷ "--uid"
        ∷ "--gid" ∷ "--cap-drop" ∷ "--args" ∷ "--seccomp" ∷ [])
    then 1
    else 0

-- The options whose first operand is a descriptor.
unfoldable pub takes_fd : Bytes → Bool
unfolding eq_bytes
takes_fd w =
    is_in w
      ("--file" ∷ "--ro-bind-data" ∷ "--bind-fd" ∷ "--ro-bind-fd" ∷ "--args" ∷ "--seccomp" ∷ [])

-- The descriptors named from here on, with so many operands of the last option to come, the
-- first of which is a descriptor or not.
unfoldable pub read_fds : ℕ → Bool → List Bytes → List Bytes
unfolding arity takes_fd
read_fds n b [] = []
read_fds zero b (w ∷ ws) =
    let rest = read_fds (arity w) (takes_fd w) ws in if eq_bytes w (codes "--") then [] else rest
read_fds (suc n) true (w ∷ ws) = w ∷ read_fds n false ws
read_fds (suc n) false (w ∷ ws) = read_fds n false ws

unfoldable pub named_fds : List Bytes → List Bytes
unfolding read_fds
named_fds words = read_fds 0 false words

-- A run of whole options that names these descriptors, in this order.
pub record Yields (words fds : List Bytes) : Type 0 where
  pub reads : (rest : List Bytes) → named_fds (words ++ rest) ≡ fds ++ named_fds rest

pub Yields-append : {a b f g : List Bytes} → Yields a f → Yields b g → Yields (a ++ b) (f ++ g)
Yields-append {a} {b} {f} {g} y z = record {
  reads = λ rest.
      ap named_fds (append_assoc a b rest)
      ∙ y.reads (b ++ rest)
      ∙ ap (λ t. f ++ t) (z.reads rest)
      ∙ sym (append_assoc f g (named_fds rest));
}

-- Options behind them that name none.
pub Yields-then : {a b f : List Bytes} → Yields a f → Yields b [] → Yields (a ++ b) f
Yields-then {a} {b} {f} y z = record {
  reads = λ rest.
      ap named_fds (append_assoc a b rest) ∙ y.reads (b ++ rest) ∙ ap (λ t. f ++ t) (z.reads rest);
}

pub whole : {words fds : List Bytes} → Yields words fds → named_fds words ≡ fds
unfolding named_fds read_fds
whole {words} {fds} y = ap named_fds (sym (append-nil words)) ∙ y.reads [] ∙ append-nil fds
