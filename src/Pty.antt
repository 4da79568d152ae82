-- ===== src/Pty.antt =====
-- src/pty.rs: the process that runs bubblewrap behind a pseudo-terminal.
pub mod Copying
pub mod Relay
pub mod Descriptors
use basta.Prelude.{
  ℕ, zero, suc, ◌+◌, Bool, true, false, not, Option, none, some, List, [], ◌∷◌, ◌++◌, map, arith,
  ◌==◌, if◌then◌else◌, any, Bytes, codes, guard, require, decimal,
}
use basta.Prelude.{
  Result, ok, err, ◌>>=◌, ◌>>◌, bwrap_missing, memfd_failed, tty_failed, forkpty_failed,
  wait_failed, exec_failed,
}
use basta.Netns.{find_bin}
use basta.Seed.{Seed, SeedSet}
use basta.Workspace.{Workspace}

-- `CString::new`.
unfoldable pub c_string : Bytes → Result Bytes
c_string s = do guard (any (λ b. b == 0) s) exec_failed; ok s

unfoldable pub c_strings : List Bytes → Result (List Bytes)
unfolding c_string
c_strings [] = ok []
c_strings (s ∷ ss) = do t ← c_string s; ts ← c_strings ss; ok (t ∷ ts)

abbrev seccomp_words : Option ℕ → List Bytes
seccomp_words none = []
seccomp_words (some fd) = codes "--seccomp" ∷ decimal fd ∷ []

-- The arguments of `execve`, and its program.
unfoldable pub exec_argv : Bytes → ℕ → Option ℕ → List Bytes → Result (List Bytes)
unfolding c_string c_strings
exec_argv bwrap args_fd seccomp_fd command = do
  bwrap_path ← c_string bwrap
  words ← c_strings command
  ok (
      bwrap_path
      ∷ codes "--args"
      ∷ decimal args_fd
      ∷ (seccomp_words seccomp_fd ++ (codes "--" ∷ words)))

abbrev optional {ℓ} : {A : Type ℓ} → Option A → List A
optional none = []
optional (some a) = a ∷ []

-- The descriptors that the child keeps over `execve`.
unfoldable pub kept_fds : ℕ → Option ℕ → List Workspace → SeedSet → List ℕ
kept_fds args_fd seccomp_fd workspaces seeds =
    args_fd
    ∷ (optional seccomp_fd
        ++ (map (λ w. w.fd) workspaces
            ++ map (λ s. s.fd) (seeds.files ++ (optional seeds.hosts ++ optional seeds.resolv))))

-- `WaitStatus`, as `waitpid` without options returns it.
pub data WaitStatus : Type 0 where
  exited signaled : ℕ → WaitStatus
  other : WaitStatus

unfoldable pub exit_code : WaitStatus → ℕ
exit_code (exited code) = code
exit_code (signaled sig) = 128 + sig
exit_code other = 128

-- What the system answers: whether the terminal opens, the memfd of the arguments, that of the agent's
-- filter, the programs there are, whether `fork` works, what `post_fork` returns, whether stdin is a
-- terminal whose mode can be read, whether the signal handler can be set, whether `relay` ends well,
-- and what `waitpid` returns.
pub record Answers : Type 0 where
  pub openpty : Bool
  pub args_fd : Option ℕ
  pub filter_fd : Result (Option ℕ)
  pub is_program : Bytes → Bool
  pub forks : Bool
  pub post_fork : Result (Unit {0})
  pub has_mode : Bool
  pub sigwinch : Bool
  pub relays : Bool
  pub waits : Option WaitStatus

-- What the parent has done to the terminal and to other processes.
pub data Did : Type 0 where
  raw_mode restored terminated collected support_killed : Did

-- The guards, in the order in which they are dropped.
abbrev drops : Bool → List Did
drops raw = (if raw then restored ∷ [] else []) ++ support_killed ∷ []

abbrev collect : Bool → Option WaitStatus → List Did × Result ℕ
collect raw none = (drops raw, err wait_failed)
collect raw (some st) = (collected ∷ drops raw, ok (exit_code st))

abbrev say : List Did → List Did × Result ℕ → List Did × Result ℕ
say ds (log, r) = (ds ++ log, r)

abbrev with_support : Answers → List Did × Result ℕ
with_support a = say (if a.has_mode then raw_mode ∷ [] else []) (
    if a.sigwinch
    then say (if a.relays then [] else terminated ∷ []) (collect a.has_mode a.waits)
    else (drops a.has_mode, err tty_failed))

-- The parent's branch of `run`.
unfoldable pub parent_branch : Answers → List Did × Result ℕ
unfolding exit_code
parent_branch a = elim a.post_fork [ err e ↦ ([], err e) | ok u ↦ with_support a ]

-- What `run` prepares before it forks: the arguments of `execve`.
unfoldable pub prepare : Answers → List Bytes → Result (List Bytes)
unfolding find_bin exec_argv
prepare a command = do
  guard (not a.openpty) forkpty_failed
  args_fd ← require a.args_fd memfd_failed
  seccomp_fd ← a.filter_fd
  bwrap ← require (find_bin a.is_program (codes "bwrap")) bwrap_missing
  exec_argv bwrap args_fd seccomp_fd command

abbrev fork_then : Answers → Result (List Bytes) → List Did × Result ℕ
fork_then a (err e) = ([], err e)
fork_then a (ok words) = if a.forks then parent_branch a else ([], err forkpty_failed)

-- `run`, in the parent.
unfoldable pub run : Answers → List Bytes → List Did × Result ℕ
unfolding prepare parent_branch
run a command = fork_then a (prepare a command)
