-- ===== src/SniProxy.antt =====
-- src/sni_proxy.rs: the proxy that lets a TLS connection out by the name in its ClientHello.
pub mod PeekLoop
pub mod Relay
pub mod Filter
pub mod Delivery
pub mod Settings
pub mod Service
use basta.Prelude.{
  ℕ, ℤ, zero, suc, ◌+◌, ◌-◌, Bool, true, false, Option, none, some, List, [], ◌∷◌, ◌++◌, map, arith,
  ltb, leb, ◌==◌, if◌then◌else◌, length, take, drop, Bytes, codes, eq_bytes,
}
use basta.Egress.Addr.{Ipv4Addr}
use basta.ClientHello.Scanner.{Scan, done, scan, max_peek}
use basta.Seccomp.{Sys, Rules, SeccompRule, arg0_eq}
use basta.Seccomp.Numbers.{map_insert}

abbrev pub max_conns : ℕ
max_conns = 256

abbrev pub max_peek_reads : ℕ
max_peek_reads = 128

abbrev pub chunk_size : ℕ
chunk_size = 4096

pub record Config : Type 0 where
  pub pid : ℤ
  pub port : ℕ
  pub mark : ℕ
  pub allow : List (Bytes × List Ipv4Addr)

-- What one pass of the loop meets once the tests on the buffer are over: the deadline is over or a
-- socket call fails, or that many bytes have arrived and wait to be read.
pub data Event : Type 0 where
  fails : Event
  arrived : ℕ → Event

-- The loop still waits; the connection is dropped; or the name, and the bytes read so far.
pub data Peek : Type 0 where
  waiting : Peek
  dropped : Peek
  named : Bytes → Bytes → Peek

abbrev pub lesser : ℕ → ℕ → ℕ
lesser a b = if leb a b then a else b

-- How many bytes `client.read(&mut chunk[..want])` returns, of those that have arrived.
abbrev pub read_size : Bytes → ℕ → ℕ
read_size buf k = lesser (lesser (max_peek - length buf) chunk_size) k

-- The tests of a round before its read: what they return, or `none` to read. `reset_ok` says whether
-- the read timeout can be lifted again.
unfoldable pub before_read : Bool → Scan → ℕ → Bytes → Option Peek
before_read reset_ok (done (some sni)) reads buf =
    some (if reset_ok then named sni buf else dropped)
before_read reset_ok (done none) reads buf = some dropped
before_read reset_ok Scan.invalid reads buf = some dropped
before_read reset_ok Scan.incomplete reads buf =
    if leb max_peek (length buf)
    then some dropped
    else if ltb max_peek_reads (reads + 1)
    then some dropped
    else none

-- The loop of `peek_sni`. `stream` is what the client has still to send, all of it; a read of nothing
-- is its end. The recursion is on the events.
unfoldable pub peek_loop : Bool → List Event → Bytes → ℕ → Bytes → Peek
unfolding before_read scan
peek_loop reset_ok [] stream reads buf = elim (before_read reset_ok (scan buf) reads buf) [
  | some p ↦ p
  | none ↦ waiting
]
peek_loop reset_ok (fails ∷ events) stream reads buf =
    elim (before_read reset_ok (scan buf) reads buf) [ some p ↦ p | none ↦ dropped ]
peek_loop reset_ok (arrived k ∷ events) stream reads buf =
    let n = lesser (read_size buf k) (length stream) in
    elim (before_read reset_ok (scan buf) reads buf) [
      | some p ↦ p
      | none ↦ elim (n == 0) [
        | true ↦ dropped
        | false ↦ peek_loop reset_ok events (drop n stream) (reads + 1) (buf ++ take n stream)
      ]
    ]

unfoldable pub peek_sni : Bool → List Event → Bytes → Peek
unfolding peek_loop
peek_sni reset_ok events stream = peek_loop reset_ok events stream 0 []

-- `dial_one` on the network: does the marked connect to port 443 succeed?
abbrev pub Dial : Type 0
Dial = Ipv4Addr → ℕ → Bool

-- `dial_upstream`.
unfoldable pub dial_upstream : Dial → List Ipv4Addr → ℕ → Option Ipv4Addr
dial_upstream dial [] mark = none
dial_upstream dial (ip ∷ ips) mark =
    let later = dial_upstream dial ips mark in if dial ip mark then some ip else later

-- `cfg.allow.get(&sni)`.
unfoldable pub get_allow : Bytes → List (Bytes × List Ipv4Addr) → Option (List Ipv4Addr)
unfolding eq_bytes
get_allow sni [] = none
get_allow sni ((host, addrs) ∷ rest) = if eq_bytes host sni then some addrs else get_allow sni rest

-- The connection is closed, or spliced to an address after these bytes have been replayed to it.
pub data Outcome : Type 0 where
  undecided closed : Outcome
  relayed : Ipv4Addr → Bytes → Outcome

abbrev connect : Dial → Bool → Config → Bytes → Bytes → Outcome
connect dial replay_ok cfg sni hello = elim (get_allow sni cfg.allow) [
  | none ↦ closed
  | some addrs ↦ elim (dial_upstream dial addrs cfg.mark) [
    | none ↦ closed
    | some ip ↦ if replay_ok then relayed ip hello else closed
  ]
]

abbrev handle_peek : Dial → Bool → Config → Peek → Outcome
handle_peek dial replay_ok cfg waiting = undecided
handle_peek dial replay_ok cfg dropped = closed
handle_peek dial replay_ok cfg (named sni hello) = connect dial replay_ok cfg sni hello

-- `handle`.
unfoldable pub handle : Dial → Bool → Config → Bool → List Event → Bytes → Outcome
unfolding dial_upstream get_allow
handle dial replay_ok cfg reset_ok events stream =
    handle_peek dial replay_ok cfg (peek_sni reset_ok events stream)

-- The accept loop of `run`: `active` after a connection comes in, and whether it is served.
unfoldable pub admit : ℕ → ℕ × Bool
admit active = if leb max_conns active then (active + 1 - 1, false) else (active + 1, true)

-- The system calls that `install_seccomp` allows without a condition.
unfoldable pub proxy_calls : List Bytes
proxy_calls = map codes (
    "read" ∷ "write" ∷ "close" ∷ "recvfrom" ∷ "sendto" ∷ "recvmsg" ∷ "sendmsg" ∷ "accept4"
    ∷ "connect" ∷ "bind" ∷ "listen" ∷ "shutdown" ∷ "setsockopt" ∷ "getsockopt" ∷ "getsockname"
    ∷ "getpeername" ∷ "fcntl" ∷ "ioctl" ∷ "ppoll" ∷ "poll" ∷ "clone" ∷ "clone3" ∷ "futex"
    ∷ "set_robust_list" ∷ "set_tid_address" ∷ "rseq" ∷ "sched_yield" ∷ "mmap" ∷ "munmap"
    ∷ "mprotect" ∷ "madvise" ∷ "brk" ∷ "rt_sigaction" ∷ "rt_sigprocmask" ∷ "rt_sigreturn"
    ∷ "sigaltstack" ∷ "tgkill" ∷ "clock_gettime" ∷ "clock_nanosleep" ∷ "nanosleep" ∷ "getrandom"
    ∷ "getpid" ∷ "gettid" ∷ "exit" ∷ "exit_group" ∷ "restart_syscall" ∷ [])

unfoldable pub allow_calls : Sys → List Bytes → Rules → Rules
unfolding map_insert
allow_calls sys [] rules = rules
allow_calls sys (name ∷ names) rules = allow_calls sys names (map_insert (sys name) [] rules)

-- `install_seccomp`, up to the rules that it hands to `seccompiler`.
unfoldable pub proxy_rules : Sys → ℕ → Rules
unfolding map_insert
proxy_rules sys af_inet =
    map_insert (sys (codes "socket")) (arg0_eq af_inet ∷ []) (allow_calls sys proxy_calls [])

-- What a filter does with a call.
pub data SeccompAction : Type 0 where
  kill_process allow : SeccompAction

-- The arguments of `SeccompFilter::new`.
pub record SeccompFilter : Type 0 where
  pub rules : Rules
  pub mismatch_action : SeccompAction
  pub match_action : SeccompAction

-- The filter that `install_seccomp` compiles and applies.
unfoldable pub proxy_filter : Sys → ℕ → SeccompFilter
unfolding proxy_rules
proxy_filter sys af_inet = record {
  rules = proxy_rules sys af_inet;
  mismatch_action = kill_process;
  match_action = allow;
}
