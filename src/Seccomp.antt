-- ===== src/Seccomp.antt =====
-- src/seccomp.rs: the agent's syscall denylist. `libc::SYS_<name>` is a parameter, `sys name`.
pub mod Numbers
pub mod Denylist
pub mod Twins
use Prim.Native.Nat.{bit_or}
use basta.Prelude.{
  ℕ, zero, suc, ◌+◌, Bool, true, false, not, Option, none, some, List, [], ◌∷◌, map, arith, ◌==◌,
  if◌then◌else◌, length, Bytes, codes, eq_bytes, require, decimal, join, cat,
}
use basta.Prelude.{Result, ok, ◌>>=◌, ◌>>◌, unknown_syscall}
use basta.Seccomp.Numbers.{set_insert, set_remove, map_insert, has}

-- The names of `KNOWN`, in its order; each is paired with the constant of its own name.
unfoldable pub default_denylist : List Bytes
default_denylist = map codes (
    "io_uring_setup" ∷ "io_uring_enter" ∷ "io_uring_register" ∷ "add_key" ∷ "request_key" ∷ "keyctl"
    ∷ "userfaultfd" ∷ "bpf" ∷ "mount" ∷ "umount2" ∷ "pivot_root" ∷ "chroot" ∷ "mount_setattr"
    ∷ "open_tree" ∷ "move_mount" ∷ "fsopen" ∷ "fsconfig" ∷ "fsmount" ∷ "fspick" ∷ "setns"
    ∷ "unshare" ∷ "name_to_handle_at" ∷ "open_by_handle_at" ∷ "init_module" ∷ "finit_module"
    ∷ "delete_module" ∷ "kexec_load" ∷ "kexec_file_load" ∷ "acct" ∷ "quotactl" ∷ "swapon"
    ∷ "swapoff" ∷ "syslog" ∷ "uselib" ∷ [])

-- The names of the table `KNOWN`, which is written out apart from the default list.
unfoldable pub known_names : List Bytes
known_names = map codes (
    "io_uring_setup" ∷ "io_uring_enter" ∷ "io_uring_register" ∷ "add_key" ∷ "request_key" ∷ "keyctl"
    ∷ "userfaultfd" ∷ "bpf" ∷ "mount" ∷ "umount2" ∷ "pivot_root" ∷ "chroot" ∷ "mount_setattr"
    ∷ "open_tree" ∷ "move_mount" ∷ "fsopen" ∷ "fsconfig" ∷ "fsmount" ∷ "fspick" ∷ "setns"
    ∷ "unshare" ∷ "name_to_handle_at" ∷ "open_by_handle_at" ∷ "init_module" ∷ "finit_module"
    ∷ "delete_module" ∷ "kexec_load" ∷ "kexec_file_load" ∷ "acct" ∷ "quotactl" ∷ "swapon"
    ∷ "swapoff" ∷ "syslog" ∷ "uselib" ∷ "ptrace" ∷ "process_vm_readv" ∷ "process_vm_writev"
    ∷ "perf_event_open" ∷ "personality" ∷ "move_pages" ∷ "mbind" ∷ "migrate_pages" ∷ "get_mempolicy"
    ∷ "set_mempolicy" ∷ [])

-- `libc`'s constants, by the name behind `SYS_`.
abbrev pub Sys : Type 0
Sys = Bytes → ℕ

abbrev pub known : Sys → List (Bytes × ℕ)
known sys = map (λ n. (n, sys n)) known_names

abbrev find_name : Bytes → List (Bytes × ℕ) → Option ℕ
find_name name [] = none
find_name name ((n, nr) ∷ rest) = if eq_bytes n name then some nr else find_name name rest

abbrev find_number : ℕ → List (Bytes × ℕ) → Option Bytes
find_number nr [] = none
find_number nr ((name, n) ∷ rest) = if n == nr then some name else find_number nr rest

-- `resolve`.
unfoldable pub resolve_name : Sys → Bytes → Result ℕ
unfolding eq_bytes known_names
resolve_name sys name = require (find_name name (known sys)) unknown_syscall

unfoldable pub name_of : Sys → ℕ → Bytes
unfolding known_names
name_of sys nr = elim (find_number nr (known sys)) [ some name ↦ name | none ↦ codes "?" ]

-- The three loops of `effective_denylist`.
unfoldable pub insert_all : Sys → List Bytes → List ℕ → Result (List ℕ)
unfolding set_insert
insert_all sys [] set = ok set
insert_all sys (name ∷ names) set = do
  nr ← resolve_name sys name
  insert_all sys names (set_insert nr set)

unfoldable pub remove_all : Sys → List Bytes → List ℕ → Result (List ℕ)
unfolding set_remove
remove_all sys [] set = ok set
remove_all sys (name ∷ names) set = do
  nr ← resolve_name sys name
  remove_all sys names (set_remove nr set)

unfoldable pub effective_denylist : Sys → List Bytes → List Bytes → Result (List ℕ)
effective_denylist sys deny_syscall allow_syscall = do
  set ← insert_all sys default_denylist []
  set' ← insert_all sys deny_syscall set
  remove_all sys allow_syscall set'

-- `describe`, with the number of syscalls as text.
unfoldable pub describe : Sys → Bool → List Bytes → List Bytes → Result Bytes
unfolding effective_denylist name_of decimal
describe sys no_seccomp deny_syscall allow_syscall =
    if no_seccomp then ok (codes "seccomp: DISABLED (--no-seccomp)") else do
      denied ← effective_denylist sys deny_syscall allow_syscall
      ok (
          cat (
            codes "seccomp: agent denylist "
            ∷ (0xe2 ∷ 0x80 ∷ 0x94 ∷ [])
            ∷ codes " "
            ∷ decimal (length denied)
            ∷ codes " syscalls + socket(AF_ALG) -> EPERM; foreign-arch (32-bit) -> KILL"
            ∷ (10 ∷ [])
            ∷ codes "  "
            ∷ join (codes ", ") (map (name_of sys) denied)
            ∷ []))

abbrev pub x32_syscall_bit : ℕ
x32_syscall_bit = 0x40000000

-- `nr | X32_SYSCALL_BIT`.
abbrev pub x32 : ℕ → ℕ
x32 nr = bit_or nr x32_syscall_bit

-- `arg0_eq_rule`: the one condition of the rule, on argument 0.
pub data SeccompRule : Type 0 where
  arg0_eq : ℕ → SeccompRule

-- `BTreeMap<i64, Vec<SeccompRule>>`; an empty vector matches every call.
abbrev pub Rules : Type 0
Rules = List (ℕ × List SeccompRule)

-- The loop over the denied numbers.
unfoldable pub deny_both : List ℕ → Rules → Rules
unfolding map_insert
deny_both [] rules = rules
deny_both (nr ∷ denied) rules = deny_both denied (map_insert (x32 nr) [] (map_insert nr [] rules))

-- `build_program`, up to the rules that it hands to `seccompiler`.
unfoldable pub program_rules : ℕ → ℕ → List ℕ → Rules
unfolding deny_both map_insert has
program_rules sys_socket af_alg denied =
    let rules = deny_both denied [] in
    if not (has sys_socket denied)
    then map_insert (x32 sys_socket) (arg0_eq af_alg ∷ [])
        (map_insert sys_socket (arg0_eq af_alg ∷ []) rules)
    else rules
