-- ===== src/Tests/Proxy.antt =====
-- src/client_hello.rs and src/sni_proxy.rs on one TLS ClientHello for `a.io`.
use basta.Prelude.{
  pos, ℕ, zero, suc, ◌≡◌, refl, ◌↔◌, true, none, some, List, [], ◌∷◌, ◌++◌, arith, ◌==◌, ◌+◌, ◌*◌,
  ◌%◌, ◌<◌, Option, ap, ◌∙◌, contains_bytes, ltb, ltb→lt, &&_both, if◌then◌else◌, length, take, All,
  Bytes, IsBytes, codes, eq_bytes,
}
use mathlib.Core.List.{Mem}
use basta.ClientHello.Body.{try_parse}
use basta.ClientHello.Body.Grammar.{Describes}
use basta.ClientHello.Body.Exact.{try_parse_exact}
use basta.ClientHello.Scanner.{Scan, done, scan}
use basta.ClientHello.Scanner.Stable.{Binds, scan-append}
use basta.Egress.Addr.{Ipv4Addr}
use basta.SniProxy.{
  Config, Event, fails, arrived, named, peek_sni, Dial, get_allow, relayed, closed, handle,
}
use basta.SniProxy.PeekLoop.{peek_sni_sound, peek_sni_unique}
use basta.SniProxy.Delivery.{arrivals, IsPortion, peek_sni_complete, handle_complete}
use basta.SniProxy.Filter.{
  Decide, IsSeccompiler, HasNumbers, forbidden, allowed, verdict, is_bytes, proxy_filter_exact,
}
use basta.SniProxy.{SeccompAction, SeccompFilter, kill_process, proxy_filter}
use basta.Seccomp.{Sys, SeccompRule, arg0_eq}
use basta.Seccomp.Numbers.{map_get}
use basta.SniProxy.Relay.{handle_sound}

abbrev pub zeros : ℕ → Bytes
zeros zero = []
zeros (suc n) = 0 ∷ zeros n

abbrev pub sni_block : Bytes
sni_block = 0 ∷ 0 ∷ 0 ∷ 9 ∷ 0 ∷ 7 ∷ 0 ∷ 0 ∷ 4 ∷ codes "A.io"

abbrev pub body : Bytes
body = 3 ∷ 3 ∷ zeros 32 ++ 0 ∷ 0 ∷ 2 ∷ 0x13 ∷ 1 ∷ 1 ∷ 0 ∷ 0 ∷ 13 ∷ sni_block

abbrev pub hello : Bytes
hello = 0x16 ∷ 3 ∷ 1 ∷ 0 ∷ 60 ∷ 1 ∷ 0 ∷ 0 ∷ 56 ∷ body

abbrev pub name : Bytes
name = codes "a.io"

abbrev pub address : Ipv4Addr
address = record { a = 93; b = 184; c = 216; d = 34 }

abbrev config : Config
config = record { pid = pos 1; port = 47999; mark = 7; allow = (name, address ∷ []) ∷ [] }

abbrev pub always : Dial
always ip mark = true

-- The bytes come in two reads, or in one.
abbrev pub two_reads : List Event
two_reads = arrived 20 ∷ arrived 100 ∷ []

abbrev one_read : List Event
one_read = arrived 4096 ∷ fails ∷ []

body_run : try_parse body ≡ some (some name)
unfolding try_parse basta.ClientHello.Cursor.take_bytes basta.ClientHello.Cursor.vec8
    basta.ClientHello.Cursor.u8 basta.ClientHello.Cursor.vec16 basta.ClientHello.Cursor.u16
    basta.ClientHello.Body.extensions_block basta.ClientHello.Body.walk
    basta.ClientHello.Body.read_extension basta.ClientHello.Body.accept_extension
    basta.ClientHello.Body.parse_sni basta.ClientHello.DnsName.sni_string
    basta.ClientHello.DnsName.is_utf8 basta.ClientHello.DnsName.is_dns_name
body_run = refl

pub scan_run : scan hello ≡ done (some name)
unfolding scan try_parse basta.ClientHello.Scanner.round basta.ClientHello.Scanner.judge
    basta.ClientHello.Scanner.handshake_message basta.ClientHello.Cursor.take_bytes
    basta.ClientHello.Cursor.vec8 basta.ClientHello.Cursor.u8 basta.ClientHello.Cursor.vec16
    basta.ClientHello.Cursor.u16 basta.ClientHello.Body.extensions_block basta.ClientHello.Body.walk
    basta.ClientHello.Body.read_extension basta.ClientHello.Body.accept_extension
    basta.ClientHello.Body.parse_sni basta.ClientHello.DnsName.sni_string
    basta.ClientHello.DnsName.is_utf8 basta.ClientHello.DnsName.is_dns_name
scan_run = refl

-- A byte behind the record, a record of another type, and a hello that is not whole yet.
scan_trailing : scan (hello ++ 0 ∷ []) ≡ Scan.invalid
unfolding scan try_parse basta.ClientHello.Scanner.round basta.ClientHello.Scanner.judge
    basta.ClientHello.Scanner.handshake_message
scan_trailing = refl

scan_alert : scan (0x15 ∷ hello) ≡ Scan.invalid
unfolding scan try_parse basta.ClientHello.Scanner.round
scan_alert = refl

scan_partial : scan (take 40 hello) ≡ Scan.incomplete
unfolding scan try_parse basta.ClientHello.Scanner.round
scan_partial = refl

peek_run : peek_sni true two_reads hello ≡ named name hello
unfolding peek_sni scan try_parse basta.ClientHello.Scanner.round basta.ClientHello.Scanner.judge
    basta.ClientHello.Scanner.handshake_message basta.ClientHello.Cursor.take_bytes
    basta.ClientHello.Cursor.vec8 basta.ClientHello.Cursor.u8 basta.ClientHello.Cursor.vec16
    basta.ClientHello.Cursor.u16 basta.ClientHello.Body.extensions_block basta.ClientHello.Body.walk
    basta.ClientHello.Body.read_extension basta.ClientHello.Body.accept_extension
    basta.ClientHello.Body.parse_sni basta.ClientHello.DnsName.sni_string
    basta.ClientHello.DnsName.is_utf8 basta.ClientHello.DnsName.is_dns_name
peek_run = refl

peek_once : peek_sni true one_read hello ≡ named name hello
unfolding peek_sni scan try_parse basta.ClientHello.Scanner.round basta.ClientHello.Scanner.judge
    basta.ClientHello.Scanner.handshake_message basta.ClientHello.Cursor.take_bytes
    basta.ClientHello.Cursor.vec8 basta.ClientHello.Cursor.u8 basta.ClientHello.Cursor.vec16
    basta.ClientHello.Cursor.u16 basta.ClientHello.Body.extensions_block basta.ClientHello.Body.walk
    basta.ClientHello.Body.read_extension basta.ClientHello.Body.accept_extension
    basta.ClientHello.Body.parse_sni basta.ClientHello.DnsName.sni_string
    basta.ClientHello.DnsName.is_utf8 basta.ClientHello.DnsName.is_dns_name
peek_once = refl

handle_run : handle always true config true two_reads hello ≡ relayed address hello
unfolding handle peek_sni scan try_parse basta.ClientHello.Scanner.round
    basta.ClientHello.Scanner.judge basta.ClientHello.Scanner.handshake_message
    basta.ClientHello.Cursor.take_bytes basta.ClientHello.Cursor.vec8 basta.ClientHello.Cursor.u8
    basta.ClientHello.Cursor.vec16 basta.ClientHello.Cursor.u16
    basta.ClientHello.Body.extensions_block basta.ClientHello.Body.walk
    basta.ClientHello.Body.read_extension basta.ClientHello.Body.accept_extension
    basta.ClientHello.Body.parse_sni basta.ClientHello.DnsName.sni_string
    basta.ClientHello.DnsName.is_utf8 basta.ClientHello.DnsName.is_dns_name
handle_run = refl

-- A name that is not in the list, and a client that closes early.
handle_unlisted : handle always true (record config { allow = [] }) true two_reads hello ≡ closed
unfolding handle peek_sni scan try_parse basta.ClientHello.Scanner.round
    basta.ClientHello.Scanner.judge basta.ClientHello.Scanner.handshake_message
    basta.ClientHello.Cursor.take_bytes basta.ClientHello.Cursor.vec8 basta.ClientHello.Cursor.u8
    basta.ClientHello.Cursor.vec16 basta.ClientHello.Cursor.u16
    basta.ClientHello.Body.extensions_block basta.ClientHello.Body.walk
    basta.ClientHello.Body.read_extension basta.ClientHello.Body.accept_extension
    basta.ClientHello.Body.parse_sni basta.ClientHello.DnsName.sni_string
    basta.ClientHello.DnsName.is_utf8 basta.ClientHello.DnsName.is_dns_name
handle_unlisted = refl

handle_early : handle always true config true two_reads (take 10 hello) ≡ closed
unfolding handle peek_sni scan try_parse basta.ClientHello.Scanner.round
handle_early = refl

body-IsBytes : IsBytes body
body-IsBytes = ground arith

try_parse_exact_example : (try_parse body ≡ some (some name)) ↔ Describes body (some name)
try_parse_exact_example = try_parse_exact body (some name) body-IsBytes

scan-append_example : Binds (0 ∷ []) (scan hello) (scan (hello ++ 0 ∷ []))
scan-append_example = scan-append hello (0 ∷ [])

peek_sni_sound_example :
    (scan hello ≡ done (some name)) × ((rest : Bytes) × (hello ++ rest ≡ hello))
peek_sni_sound_example = peek_sni_sound true two_reads hello name hello peek_run

peek_sni_unique_example : (name ≡ name) × (hello ≡ hello)
peek_sni_unique_example =
    peek_sni_unique true true two_reads one_read hello name name hello hello peek_run peek_once

handle_sound_example :
    (sni : Bytes) × (scan hello ≡ done (some sni))
    × ((rest : Bytes) × (hello ++ rest ≡ hello))
    × ((addrs : List Ipv4Addr) × (get_allow sni config.allow ≡ some addrs) × Mem address addrs)
    × (always address config.mark ≡ true)
handle_sound_example = handle_sound always true config true two_reads hello address hello handle_run

abbrev portions : List ℕ
portions = 20 ∷ 4096 ∷ []

portions-IsPortion : All IsPortion portions
portions-IsPortion = ground arith

listed_run : get_allow name config.allow ≡ some (address ∷ [])
unfolding get_allow eq_bytes
listed_run = refl

peek_sni_complete_example : peek_sni true (arrivals portions) hello ≡ named name hello
peek_sni_complete_example =
    peek_sni_complete portions hello name portions-IsPortion (omega arith) (omega arith) scan_run

handle_complete_example :
    handle always true config true (arrivals portions) hello ≡ relayed address hello
handle_complete_example =
    handle_complete always config portions hello name address [] portions-IsPortion (omega arith)
      (omega arith) scan_run listed_run refl

abbrev sys : Sys
sys = length

-- A number for every name: its bytes as digits.
abbrev numbers : Sys
numbers [] = 0
numbers (c ∷ s) = c + 1 + 257 * numbers s

numbers-HasNumbers : HasNumbers numbers
numbers-HasNumbers [] [] i j e = refl
numbers-HasNumbers [] (d ∷ t) i j e = absurd (omega (arith, e))
numbers-HasNumbers (c ∷ s) [] i j e = absurd (omega (arith, e))
numbers-HasNumbers (c ∷ s) (d ∷ t) i j e =
    let (a, i') = &&_both (ltb c 256) (is_bytes s) i in
    let (b, j') = &&_both (ltb d 256) (is_bytes t) j in
    let small : c < 256 = ltb→lt c 256 a in
    let small' : d < 256 = ltb→lt d 256 b in
    let heads : c ≡ d = omega (arith, e, small, small') in
    let tails : numbers s ≡ numbers t = omega (arith, e, small, small') in
    ap (λ x. x ∷ s) heads ∙ ap (λ x. d ∷ x) (numbers-HasNumbers s t i' j' tails)

-- A filter that acts by the documented rule; only the rules of this program are in a map.
abbrev act : SeccompFilter → Option (List SeccompRule) → ℕ → SeccompAction
act f none arg = f.mismatch_action
act f (some []) arg = f.match_action
act f (some (arg0_eq v ∷ rules)) arg =
    if arg % 4294967296 == v then f.match_action else f.mismatch_action

abbrev decide : Decide
decide f k arg = act f (map_get k f.rules) arg

decide-IsSeccompiler : IsSeccompiler decide
decide-IsSeccompiler = record {
  matches = λ f k arg e. ap (λ o. act f o arg) e;
  argument = λ f k arg v e. ap (λ o. act f o arg) e;
  unlisted = λ f k arg e. ap (λ o. act f o arg) e;
}

execve_forbidden : contains_bytes forbidden (codes "execve") ≡ true
unfolding eq_bytes
execve_forbidden = refl

proxy_filter_exact_example :
    (decide (proxy_filter numbers 2) 4 2 ≡ verdict (allowed numbers 2 4 2))
    × (decide (proxy_filter numbers 2) (numbers (codes "execve")) 2 ≡ kill_process)
proxy_filter_exact_example =
    proxy_filter_exact decide numbers 2 4 2 (codes "execve") decide-IsSeccompiler numbers-HasNumbers
      execve_forbidden
