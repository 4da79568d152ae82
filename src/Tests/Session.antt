-- ===== src/Tests/Session.antt =====
-- src/pty.rs and src/main.rs: a session, and a whole launch.
use basta.Prelude.{
  ℕ, ◌≡◌, refl, ◌≢◌, ◌⊎◌, Bool, true, false, Option, none, some, List, [], ◌∷◌, ◌++◌, map, any,
  Bytes, codes, eq_bytes, decimal, arith, ltb,
}
use basta.Prelude.{Result, ok, err}
use basta.Pty
use basta.Pty.{
  exited, signaled, exec_argv, kept_fds, support_killed, collected, restored, raw_mode, terminated,
  exit_code,
}
use basta.Pty.Copying.{Write, took, interrupted, write_all, finished, Splits, write_all-Splits}
use basta.Pty.Relay.{Relay, RelayRound, ready, no_poll, eof, pty_bytes, relay, breaks, start}
use basta.Pty.Relay.Draining.{all_sent, IsRelayed, relay-IsRelayed}
use mathlib.Core.List.{Perm}
use basta.Argv
use basta.Argv.Options.{named_fds}
use basta.Pty.Descriptors.{kept_fds_exact}
use basta.Seed.{SeedSet}
use basta.Egress.Spec.{EgressSpec}
use basta.Lockset.{WatchPath}
use basta.Main.{World, Ran, exit_behind}
use basta.Main
use basta.Main.Entry.{close_inherited_fds, keep, sni_proxy, entry}
use basta.Main.Entry.Closing.{close_inherited_fds_exact}
use basta.Cli.{Cli}
use basta.Workspace
use basta.Workspace.{Workspace}
use basta.Tests.Launch.{options, env, all_found, sys, tree, source}
use basta.Tests.Policy.{lookup, not_ipv6}

abbrev writes : List Write
writes = took 2 ∷ interrupted ∷ took 5 ∷ []

write_run : write_all writes (codes "abcd") ≡ finished (codes "abcd")
unfolding write_all
write_run = refl

write_all-Splits_example : Splits (codes "abcd") (write_all writes (codes "abcd"))
write_all-Splits_example = write_all-Splits writes (codes "abcd")

-- A launch without a terminal: stdin ends at once, and the pty hangs up when more is there than a read
-- takes.
abbrev rounds : List RelayRound
rounds =
    ready (codes "ab") none (some eof) true true false
    ∷ no_poll
    ∷ ready (codes "c") (some (pty_bytes 3)) none true true false
    ∷ ready (codes "def") (some (pty_bytes 2)) none true true true
    ∷ []

-- The last byte stays unread.
relay_run :
    relay rounds start
    ≡ breaks
        (record { stdin_open = false; unread = codes "f"; shown = codes "abcde"; typed = 4 ∷ [] })
unfolding relay start
relay_run = refl

abbrev first_rounds : List RelayRound
first_rounds = ready (codes "ab") none (some eof) true true false ∷ no_poll ∷ []

abbrev first_state : Relay
first_state = record { stdin_open = false; unread = codes "ab"; shown = []; typed = 4 ∷ [] }

relay-IsRelayed_example : IsRelayed (all_sent rounds) (relay rounds start)
relay-IsRelayed_example = relay-IsRelayed rounds

-- A sandbox that a signal ends, behind a terminal.
abbrev answers : Pty.Answers
answers = record {
  openpty = true;
  args_fd = some 5;
  filter_fd = ok (some 6);
  is_program = λ p. true;
  forks = true;
  post_fork = ok tt;
  has_mode = true;
  sigwinch = true;
  relays = true;
  waits = some (signaled 9);
}

session_run :
    Pty.run answers (codes "sh" ∷ [])
    ≡ (raw_mode ∷ collected ∷ restored ∷ support_killed ∷ [], ok 137)
unfolding Pty.run
session_run = refl

argv_run :
    exec_argv (codes "/usr/bin/bwrap") 5 (some 6) (codes "sh" ∷ [])
    ≡ ok (map codes ("/usr/bin/bwrap" ∷ "--args" ∷ "5" ∷ "--seccomp" ∷ "6" ∷ "--" ∷ "sh" ∷ []))
unfolding exec_argv decimal
argv_run = refl

abbrev argv_host : Argv.Host
argv_host = record {
  uid = 1000;
  gid = 1000;
  user_name = none;
  exists = λ p. true;
  create_dir_all = λ p. true;
  canonicalize = λ p. some p;
  resolv_is_symlink = false;
  resolv_canonical = none;
  dev = none;
}

abbrev world : World
world = record {
  programs = all_found;
  sys = sys;
  env = env;
  dirs = record { canonicalize = λ p. some (codes "/home/u/p"); open_dir = λ p. some 5 };
  repos = tree;
  sources = λ p. source;
  lookup = lookup;
  is_ipv6 = not_ipv6;
  memfd = λ t. ok 9;
  host = argv_host;
  sandbox = λ argv egress. ok 0;
  created = λ p. true;
}

abbrev ran_or : Result Ran → Ran
ran_or (ok r) = r
ran_or (err e) = record { exit = 99; started = none }

abbrev argv_or : Option (List Bytes × Option EgressSpec) → List Bytes × Option EgressSpec
argv_or (some p) = p
argv_or none = ([], none)

abbrev ran : Ran
ran = ran_or (Main.run world options)

main_dry :
    Main.run world (record options { dry_run = true }) ≡ ok (record { exit = 0; started = none })
unfolding Main.run basta.Cli.preflight basta.Cli.check_egress basta.Cli.egress_requested
    basta.Cli.check_publish basta.Cli.check_relative basta.Cli.escapes basta.Paths.components
    basta.Seccomp.effective_denylist basta.Seccomp.insert_all basta.Seccomp.default_denylist
    basta.Seccomp.resolve_name basta.Seccomp.remove_all Workspace.resolve_workspace
    Workspace.check_allowed_root Workspace.reject_system_roots Workspace.root_list eq_bytes
    Workspace.system basta.Paths.path_eq Workspace.path_under_any_root basta.Paths.path_starts_with
    Workspace.reject_masking basta.Lockset.plan_for basta.Lockset.plan_one basta.Seed.build_seeds
    basta.Egress.Resolve.resolve basta.Egress.Addr.cidr_overlaps basta.Egress.Spec.push_rule
    basta.Egress.Render.hosts_file basta.Egress.Render.resolv_conf Argv.build decimal
    basta.Env.host_home basta.Env.system_dirs Argv.persist_args basta.Seccomp.describe
main_dry = refl

abbrev strict : Cli
strict = record options { lock_strict = true }

abbrev watched : List WatchPath
watched = record { path = codes "/home/u/p/.envrc"; reason = codes "direnv" } ∷ []

exit_run : exit_behind world strict watched 0 ≡ 3
unfolding exit_behind
exit_run = refl

abbrev shell_options : Cli
shell_options = record options { command = codes "sh" ∷ [] }

abbrev seeded : SeedSet
seeded = record {
  dirs = [];
  files = record { fd = 7; dest = codes "/home/u/.gitconfig" } ∷ [];
  hosts = some (record { fd = 8; dest = codes "/etc/hosts" });
  resolv = none;
}

abbrev mounted : List Workspace
mounted = record { fd = 5; path = codes "/home/u/p"; ro = false } ∷ []

abbrev words_or : Result (List Bytes) → List Bytes
words_or (ok ws) = ws
words_or (err e) = []

abbrev built_args : List Bytes
built_args = words_or (Argv.build env argv_host shell_options mounted (codes "/home/u/p") [] seeded)

build_run :
    Argv.build env argv_host shell_options mounted (codes "/home/u/p") [] seeded ≡ ok built_args
unfolding Argv.build basta.Env.host_home basta.Env.system_dirs eq_bytes Argv.persist_args decimal
build_run = refl

abbrev exec_words : List Bytes
exec_words = map codes ("--args" ∷ "3" ∷ "--seccomp" ∷ "4" ∷ "--" ∷ "sh" ∷ [])

exec_run :
    exec_argv (codes "/usr/bin/bwrap") 3 (some 4) shell_options.command
    ≡ ok (codes "/usr/bin/bwrap" ∷ exec_words)
unfolding exec_argv decimal
exec_run = refl

named_run : named_fds built_args ≡ map codes ("7" ∷ "8" ∷ "5" ∷ [])
unfolding named_fds basta.Argv.Options.read_fds basta.Argv.Options.arity basta.Argv.Options.takes_fd
    Argv.build basta.Env.host_home basta.Env.system_dirs eq_bytes Argv.persist_args decimal
named_run = refl

kept_fds_exact_example :
    Perm
      (named_fds exec_words ++ named_fds built_args)
      (map decimal (kept_fds 3 (some 4) mounted seeded))
kept_fds_exact_example =
    kept_fds_exact (codes "/usr/bin/bwrap") 3 (some 4) env argv_host shell_options mounted
      (codes "/home/u/p") [] seeded built_args (codes "/usr/bin/bwrap") exec_words build_run
      exec_run

abbrev fd_names : List Bytes
fd_names = map codes ("0" ∷ "1" ∷ "2" ∷ "3" ∷ "17" ∷ [])

close_run : close_inherited_fds false (some fd_names) (0 ∷ 1 ∷ 2 ∷ 17 ∷ []) ≡ 0 ∷ 1 ∷ 2 ∷ []
unfolding close_inherited_fds basta.Main.Entry.fds_of basta.Main.Entry.close_each
    basta.Prelude.parse_i32
close_run = refl

entry_run : entry (map codes ("basta" ∷ "__sni-proxy" ∷ [])) ≡ sni_proxy
unfolding entry
entry_run = refl

close_inherited_fds_exact_example :
    close_inherited_fds false (some fd_names) (0 ∷ 2 ∷ 17 ∷ [])
    ≡ keep (λ x. ltb x 3) (0 ∷ 2 ∷ 17 ∷ [])
unfolding eq_bytes decimal
close_inherited_fds_exact_example =
    close_inherited_fds_exact false fd_names (0 ∷ 2 ∷ 17 ∷ [])
      ((omega arith, refl), ((omega arith, refl), ((omega arith, refl), tt)))
