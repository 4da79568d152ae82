-- ===== src/SniProxy/Settings.antt =====
-- src/sni_proxy.rs, `read_config`, and src/netns.rs, `render_proxy_config`: what the parent tells the
-- proxy on its standard input.
pub mod Words
pub mod Lines
pub mod RoundTrip
pub mod EndToEnd
use basta.Prelude.{
  ℕ, zero, suc, true, false, Option, none, some, List, [], ◌∷◌, arith, if◌then◌else◌, is_empty,
  Bytes, codes, eq_bytes, to_ascii_lowercase, guard, require, parse_uint, decimal, cat, lines, trim,
  split_whitespace, ℤ, parse_i32, show_i32,
}
use basta.Prelude.{
  Result, ok, err, ◌>>=◌, ◌>>◌, bad_number, no_pid_value, no_port_value, no_mark_value,
  no_host_name, bad_host_address, host_without_addresses, unknown_line, missing_pid, missing_port,
  missing_mark,
}
use basta.Egress.Addr.{Ipv4Addr}
use basta.Egress.Spec.{SniRule, proxy_port, proxy_mark}
use basta.Egress.Parse.{parse_ipv4}
use basta.Egress.Render.{show_addr}
use basta.SniProxy.{Config}

abbrev addr_words : List Ipv4Addr → Bytes
addr_words [] = []
addr_words (x ∷ xs) = cat (codes " " ∷ show_addr x ∷ addr_words xs ∷ [])

abbrev sni_lines : List SniRule → Bytes
sni_lines [] = []
sni_lines (r ∷ rs) =
    cat (codes "host " ∷ r.host ∷ addr_words r.addrs ∷ (10 ∷ []) ∷ sni_lines rs ∷ [])

unfoldable pub render_proxy_config : ℤ → List SniRule → Bytes
render_proxy_config child_pid sni = cat (
    codes "pid "
    ∷ show_i32 child_pid
    ∷ (10 ∷ [])
    ∷ codes "port "
    ∷ decimal proxy_port
    ∷ (10 ∷ [])
    ∷ codes "mark "
    ∷ decimal proxy_mark
    ∷ (10 ∷ [])
    ∷ sni_lines sni
    ∷ [])

-- The variables of the loop over the lines.
pub record Draft : Type 0 where
  pub pid : Option ℤ
  pub port : Option ℕ
  pub mark : Option ℕ
  pub allow : List (Bytes × List Ipv4Addr)

-- `HashMap::insert`: an entry for the same name is replaced.
unfoldable pub allow_insert :
    Bytes → List Ipv4Addr → List (Bytes × List Ipv4Addr) → List (Bytes × List Ipv4Addr)
allow_insert host addrs [] = (host, addrs) ∷ []
allow_insert host addrs ((h, xs) ∷ rest) =
    if eq_bytes h host then (host, addrs) ∷ rest else (h, xs) ∷ allow_insert host addrs rest

-- `t.map(str::parse).collect::<Result<Vec<Ipv4Addr>, _>>()`.
unfoldable pub parse_addrs : List Bytes → Result (List Ipv4Addr)
parse_addrs [] = ok []
parse_addrs (w ∷ ws) = do
  x ← require (parse_ipv4 w) bad_host_address
  xs ← parse_addrs ws
  ok (x ∷ xs)

-- `t.next()`.
abbrev next_word : List Bytes → Option Bytes
next_word [] = none
next_word (w ∷ ws) = some w

abbrev pid_line : List Bytes → Draft → Result Draft
pid_line ws c = do
  w ← require (next_word ws) no_pid_value
  n ← require (parse_i32 w) bad_number
  ok (record c { pid = some n })

abbrev port_line : List Bytes → Draft → Result Draft
port_line ws c = do
  w ← require (next_word ws) no_port_value
  n ← require (parse_uint 65535 w) bad_number
  ok (record c { port = some n })

abbrev mark_line : List Bytes → Draft → Result Draft
mark_line ws c = do
  w ← require (next_word ws) no_mark_value
  n ← require (parse_uint 4294967295 w) bad_number
  ok (record c { mark = some n })

abbrev host_line : List Bytes → Draft → Result Draft
host_line [] c = err no_host_name
host_line (w ∷ ws) c = do
  let host = to_ascii_lowercase w
  addrs ← parse_addrs ws
  guard (is_empty addrs) host_without_addresses
  ok (record c { allow = allow_insert host addrs c.allow })

unfoldable pub read_words : List Bytes → Draft → Result Draft
read_words [] c = err unknown_line
read_words (w ∷ ws) c =
    if eq_bytes w (codes "pid")
    then pid_line ws c
    else if eq_bytes w (codes "port")
    then port_line ws c
    else if eq_bytes w (codes "mark")
    then mark_line ws c
    else if eq_bytes w (codes "host")
    then host_line ws c
    else err unknown_line

unfoldable pub read_line : Bytes → Draft → Result Draft
read_line line c = if is_empty (trim line) then ok c else read_words (split_whitespace line) c

unfoldable pub read_lines : List Bytes → Draft → Result Draft
read_lines [] c = ok c
read_lines (l ∷ ls) c = do c' ← read_line l c; read_lines ls c'

abbrev finish : Draft → Result Config
finish c = do
  pid ← require c.pid missing_pid
  port ← require c.port missing_port
  mark ← require c.mark missing_mark
  ok (record { pid = pid; port = port; mark = mark; allow = c.allow })

-- `read_config`, on the text that it has read.
unfoldable pub read_config : Bytes → Result Config
read_config text = do
  c ← read_lines (lines text) (record { pid = none; port = none; mark = none; allow = [] })
  finish c
