-- ===== src/Netns.antt =====
-- src/netns.rs: the filtered network namespace of `--allow` and `--allow-sni`.
pub mod Ports
pub mod Lines
pub mod Startup
use basta.Prelude.{
  ℕ, zero, suc, ◌+◌, Bool, true, false, not, Option, none, some, List, [], ◌∷◌, ◌++◌, map, arith,
  if◌then◌else◌, drop, is_empty, any, Bytes, codes, eq_bytes, guard, require, decimal, join, lines,
  trim, split_whitespace, ℤ, show_i32,
}
use basta.Prelude.{
  Result, ok, err, ◌>>=◌, ◌>>◌, no_default_route, nft_missing, nft_unspawned, nft_failed,
  loopback_failed,
}
use Prim.Native.Nat.{bit_or}

unfoldable pub loopback_spec : List ℕ → Bytes
loopback_spec ports = if is_empty ports then codes "none" else join (codes ",") (map decimal ports)

unfoldable pub publish_spec : Option ℕ → Bytes
publish_spec (some p) = codes "127.0.0.1/" ++ decimal p
publish_spec none = codes "none"

-- The arguments of `spawn_pasta`.
unfoldable pub pasta_args : ℤ → List ℕ → Option ℕ → List Bytes
unfolding loopback_spec publish_spec
pasta_args child_pid allow_loopback publish =
    codes "-f"
    ∷ codes "--config-net"
    ∷ codes "--no-map-gw"
    ∷ codes "-m"
    ∷ codes "1500"
    ∷ codes "-u"
    ∷ codes "none"
    ∷ codes "-U"
    ∷ codes "none"
    ∷ codes "-t"
    ∷ publish_spec publish
    ∷ codes "-T"
    ∷ loopback_spec allow_loopback
    ∷ show_i32 child_pid
    ∷ []

-- The last line of the standard error of pasta that is not blank.
abbrev last_line : Bytes → List Bytes → Bytes
unfolding trim
last_line found [] = found
last_line found (l ∷ ls) = last_line (if is_empty (trim l) then found else l) ls

unfoldable pub pasta_message : Bytes → Bytes
unfolding lines trim
pasta_message stderr = trim (last_line (codes "pasta exited during startup") (lines stderr))

-- What `try_wait` answers.
pub data TryWait : Type 0 where
  running exited unknown : TryWait

died_in : ℕ → (ℕ → TryWait) → ℕ → Bytes → Option Bytes
unfolding pasta_message
died_in zero polls i stderr = none
died_in (suc left) polls i stderr = elim (polls i) [
  | exited ↦ some (pasta_message stderr)
  | unknown ↦ none
  | running ↦ died_in left polls (i + 1) stderr
]

-- `pasta_died_early`, on what the polls answer and what pasta has written by then.
unfoldable pub pasta_died_early : (ℕ → TryWait) → Bytes → Option Bytes
unfolding died_in
pasta_died_early polls stderr = died_in 6 polls 0 stderr

abbrev second_word : List Bytes → Option Bytes
second_word (iface ∷ dest ∷ rest) = some dest
second_word (iface ∷ []) = none
second_word [] = none

abbrev is_default_dest : Option Bytes → Bool
unfolding eq_bytes
is_default_dest (some dest) = eq_bytes dest (codes "00000000")
is_default_dest none = false

unfoldable pub is_default_row : Bytes → Bool
unfolding split_whitespace is_default_dest
is_default_row line = is_default_dest (second_word (split_whitespace line))

-- `has_default_route`, on the text of /proc/net/route.
unfoldable pub has_default_route : Option Bytes → Bool
unfolding lines is_default_row
has_default_route none = false
has_default_route (some content) = any is_default_row (drop 1 (lines content))

-- One round of a wait: what the file holds, and whether the deadline is over behind it.
pub record RouteRound : Type 0 where
  pub content : Option Bytes
  pub over : Bool

pub data Waiting : Type 0 where
  pending : Waiting
  returned : Result (Unit {0}) → Waiting

-- `wait_for_default_route`.
unfoldable pub wait_for_default_route : List RouteRound → Waiting
unfolding has_default_route
wait_for_default_route [] = pending
wait_for_default_route (r ∷ rs) = elim (has_default_route r.content) [
  | true ↦ returned (ok tt)
  | false ↦ elim r.over [
    | true ↦ returned (err no_default_route)
    | false ↦ wait_for_default_route rs
  ]
]

abbrev pub bin_dirs : List Bytes
bin_dirs =
    map codes
      ("/usr/sbin" ∷ "/sbin" ∷ "/usr/bin" ∷ "/bin" ∷ "/usr/local/sbin" ∷ "/usr/local/bin" ∷ [])

-- The first directory that holds an executable file of that name.
find_in : (Bytes → Bool) → Bytes → List Bytes → Option Bytes
find_in is_program name [] = none
find_in is_program name (dir ∷ dirs) =
    let p = dir ++ b'/' ∷ name in
    let later = find_in is_program name dirs in if is_program p then some p else later

-- `find_bin`; the parameter says which paths are executable files.
unfoldable pub find_bin : (Bytes → Bool) → Bytes → Option Bytes
unfolding find_in
find_bin is_program name = find_in is_program name bin_dirs

-- `struct ifreq`, and the requests on it.
pub record IfReq : Type 0 where
  pub ifr_name : Bytes
  pub ifr_flags : ℕ

abbrev lo_request : IfReq
lo_request = record {
  ifr_name = b'l' ∷ b'o' ∷ 0 ∷ 0 ∷ 0 ∷ 0 ∷ 0 ∷ 0 ∷ 0 ∷ 0 ∷ 0 ∷ 0 ∷ 0 ∷ 0 ∷ 0 ∷ 0 ∷ [];
  ifr_flags = 0;
}

abbrev iff_up : ℕ
iff_up = 1

-- `bring_loopback_up`: whether the socket opens, what SIOCGIFFLAGS reads, and whether SIOCSIFFLAGS
-- takes a request. The result is the request that the kernel took.
unfoldable pub bring_loopback_up : Bool → (IfReq → Option ℕ) → (IfReq → Bool) → Result IfReq
bring_loopback_up opened get_flags set_flags = do
  guard (not opened) loopback_failed
  flags ← require (get_flags lo_request) loopback_failed
  let req = record lo_request { ifr_flags = bit_or flags iff_up }
  guard (not (set_flags req)) loopback_failed
  ok req

-- `load_nft`: what the program at that path does with the ruleset on its standard input; `none` when
-- it cannot be started, fed or waited for, else whether it succeeds.
unfoldable pub load_nft : (Bytes → Bool) → (Bytes → Bytes → Option Bool) → Bytes → Result (Unit {0})
unfolding find_bin
load_nft is_program exec rules = do
  nft ← require (find_bin is_program (codes "nft")) nft_missing
  success ← require (exec nft rules) nft_unspawned
  guard (not success) nft_failed
