-- ===== src/Lib.antt =====
-- Verification of basta, a launcher that runs a coding agent in a bubblewrap sandbox.
--
-- The program. `src/main.rs` reads the options (`src/cli.rs`), resolves the workspaces
-- (`src/workspace.rs`), the paths locked in them (`src/lockset.rs`), the environment (`src/env.rs`),
-- the seeded files (`src/seed.rs`) and the egress policy (`src/egress.rs`), builds the arguments of
-- bwrap (`src/argv.rs`) and the system-call filter (`src/seccomp.rs`), and starts the sandbox
-- (`src/netns.rs`, `src/pty.rs`). With `--allow-sni` a proxy in the sandbox's network namespace
-- (`src/sni_proxy.rs`) reads the name out of each TLS ClientHello (`src/client_hello.rs`) and connects
-- to an address that the launch pinned for it. A policy goes from Egress.Resolve to the rules of
-- Egress.Render and to the proxy's table; a workspace from Workspace through Lockset to Argv.
--
-- The files.
--   Prelude         shared names: tests, lists, bytes, texts, results, bit operations
--   ClientHello     src/client_hello.rs. Cursor is `Cur` as a state monad; DnsName has `sni_string` and
--                   `is_dns_name`; Body has `try_parse` and `parse_sni`; Scanner has `scan`. Body.Grammar
--                   is an independent grammar of the bodies; Body.Accepted, Body.Extensions,
--                   Body.Encoded, Body.Exact and Scanner.Stable hold proofs
--   Egress          src/egress.rs. Addr has the address classes and CIDR blocks, Spec the data, Parse
--                   the texts, Resolve `EgressSpec::resolve`, Render the rulesets and files
--   Seccomp         src/seccomp.rs: names, `effective_denylist`, `build_program` up to its rule map
--   SniProxy        src/sni_proxy.rs: `peek_sni`, `dial_upstream`, `handle`, the connection cap, and the
--                   filter of `install_seccomp`. Settings has `read_config`, and `render_proxy_config` of
--                   src/netns.rs; Settings.EndToEnd joins Egress, Netns and SniProxy. Service has
--                   the start of the proxy, `harden`, the accept loop, `dial_one` and `pipe`
--   Netns           src/netns.rs: the arguments of pasta, the routing table, `find_bin`, `load_nft`;
--                   Lines is `read_line_timeout`. Startup is a launch as a machine: one event is one
--                   call of `child_unshare_filter_wait` or of `parent_spawn_support`, or the exit of a
--                   support process, and a list of events is an interleaving
--   Pty             src/pty.rs: `run` in the parent, the arguments of bwrap; Copying has `write_all`,
--                   and Relay `relay`, a list of rounds each. Argv.Options reads the arguments by the number of
--                   operands that bwrap documents for each option; Pty.Descriptors compares what it
--                   reads with the descriptors that stay open
--   Main            src/main.rs, `run`: the composition of all the others; a record of what the host
--                   answers is its parameter. Entry has the dispatch of `main` and
--                   `close_inherited_fds`
--   Lockset         src/lockset.rs; Coverage follows a name from the options to the plan
--   Paths           the parts of `std::path` that the program uses, on texts
--   Env, Cli, Workspace, Seed, Argv   the source files of those names
--   Tests           runs on concrete inputs
--
-- Texts are lists of bytes and numbers are natural numbers with their bounds written out. A `bail!` is
-- an error without its message. What the host or a library answers is a parameter: the resolver, the
-- parsing of IPv6 texts, the numbers of system calls, the process environment, files and sockets. A
-- read of the network is an event that says how many bytes have arrived; a map is an association list
-- or a list in the order of its keys.
--
-- Fuel. `scan_loop` has one round more than the 32 records that `scan` allows, and the source refuses
-- in that round; `walk` has the length of the block, and each extension takes four bytes of it;
-- `collect_gitdir` has the source's own bound of 8 levels, and returns at the same depth; `ancestors`
-- has the length of the path, and a parent is shorter.
--
-- In Netns.Startup pasta holds the default route: it appears only while pasta runs, and goes with it.
--
-- Not modelled: the system calls that only set up descriptors, sessions and signals (`dup2`, `setsid`,
-- the window size), memfds, warnings, the compilation of seccomp rules, and the
-- scripts `basta-host-setup` and `basta-verify`.
mod Prelude
pub mod ClientHello
pub mod Egress
pub mod Seccomp
pub mod Paths
pub mod Env
pub mod Workspace
pub mod Cli
pub mod Seed
pub mod SniProxy
pub mod Netns
pub mod Pty
pub mod Argv
pub mod Lockset
pub mod Main
mod Tests
