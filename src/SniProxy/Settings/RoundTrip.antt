-- ===== src/SniProxy/Settings/RoundTrip.antt =====
-- src/netns.rs, `render_proxy_config`, read back by `read_config` of src/sni_proxy.rs.
use basta.Prelude.{
  ◌≡◌, refl, sym, ap, ◌∙◌, Bool, true, false, ◌||◌, none, some, List, [], ◌∷◌, ◌++◌, map,
  append_assoc, append-nil, arith, if◌then◌else◌, any, All, Bytes, codes, eq_bytes, decimal, lines,
  ℤ, show_i32, IsI32,
}
use basta.Prelude.{Result, ok, ◌>>=◌}
use basta.Egress.Addr.{Ipv4Addr}
use basta.Egress.Spec.{SniRule, proxy_port, proxy_mark}
use basta.Egress.Resolve.Names.{IsDistinct, eq_bytes_sym}
use basta.SniProxy.{Config}
use basta.SniProxy.Settings.{
  sni_lines, render_proxy_config, Draft, allow_insert, read_lines, finish, read_config,
}
use basta.SniProxy.Settings.Words.{decimal-IsWord, show_i32-IsWord}
use basta.SniProxy.Settings.Lines.{
  IsEntry, enter_all, sni_lines-read, key_line-read, pid_read, port_read, mark_read,
}

abbrev pub entry : SniRule → Bytes × List Ipv4Addr
entry r = (r.host, r.addrs)

abbrev IsAbsent : List (Bytes × List Ipv4Addr) → SniRule → Type 0
IsAbsent a r = any (λ e. eq_bytes e.0 r.host) a ≡ false

allow_insert-absent :
    (a : List (Bytes × List Ipv4Addr)) (r : SniRule)
    → IsAbsent a r
    → allow_insert r.host r.addrs a ≡ a ++ entry r ∷ []
unfolding allow_insert
allow_insert-absent [] r h = refl
allow_insert-absent ((x, xs) ∷ a) r h = go (eq_bytes x r.host) (allow_insert-absent a r) h
  where
    go :
        (b : Bool)
        → (IsAbsent a r → allow_insert r.host r.addrs a ≡ a ++ entry r ∷ [])
        → (b || any (λ e. eq_bytes e.0 r.host) a) ≡ false
        → (if b then (r.host, r.addrs) ∷ a else (x, xs) ∷ allow_insert r.host r.addrs a)
          ≡ (x, xs) ∷ (a ++ entry r ∷ [])
    go true ih k = cc
    go false ih k = ap (λ t. (x, xs) ∷ t) (ih k)

any_snoc :
    (a : List (Bytes × List Ipv4Addr)) (r s : SniRule)
    → IsAbsent a s
    → eq_bytes r.host s.host ≡ false
    → IsAbsent (a ++ entry r ∷ []) s
any_snoc [] r s h e = rw e refl
any_snoc (x ∷ a) r s h e = ground (arith, h, any_snoc a r s (ground (arith, h)) e)

IsAbsent-All :
    (a : List (Bytes × List Ipv4Addr)) (r : SniRule) (rs : List SniRule)
    → any (λ s. eq_bytes s.host r.host) rs ≡ false
    → All (IsAbsent a) rs
    → All (IsAbsent (a ++ entry r ∷ [])) rs
IsAbsent-All a r [] e h = tt
IsAbsent-All a r (s ∷ rs) e h = (
  any_snoc a r s h.0 (eq_bytes_sym s.host r.host (ground (arith, e))),
  IsAbsent-All a r rs (ground (arith, e)) h.1,
)

enter_all-distinct :
    (rs : List SniRule) (a : List (Bytes × List Ipv4Addr))
    → IsDistinct rs
    → All (IsAbsent a) rs
    → enter_all rs a ≡ a ++ map entry rs
unfolding enter_all
enter_all-distinct [] a d h = sym (append-nil a)
enter_all-distinct (r ∷ rs) a d h =
    ap (enter_all rs) (allow_insert-absent a r h.0)
    ∙ enter_all-distinct rs (a ++ entry r ∷ []) d.1 (IsAbsent-All a r rs d.0 h.1)
    ∙ append_assoc a (entry r ∷ []) (map entry rs)

none-IsAbsent : (rs : List SniRule) → All (IsAbsent []) rs
none-IsAbsent [] = tt
none-IsAbsent (r ∷ rs) = (refl, none-IsAbsent rs)

-- The configuration that a policy stands for.
abbrev pub config_of : ℤ → List SniRule → Config
config_of pid sni = record {
  pid = pid;
  port = proxy_port;
  mark = proxy_mark;
  allow = map entry sni;
}

text_parts :
    (pid : ℤ) (sni : List SniRule)
    → render_proxy_config pid sni
      ≡ (codes "pid" ++ 32 ∷ show_i32 pid)
        ++ 10
          ∷ ((codes "port" ++ 32 ∷ decimal proxy_port)
              ++ 10 ∷ ((codes "mark" ++ 32 ∷ decimal proxy_mark) ++ 10 ∷ sni_lines sni))
unfolding render_proxy_config
text_parts pid sni =
    ap
      (λ s.
        (codes "pid" ++ 32 ∷ show_i32 pid)
        ++ 10
          ∷ ((codes "port" ++ 32 ∷ decimal proxy_port)
              ++ 10 ∷ ((codes "mark" ++ 32 ∷ decimal proxy_mark) ++ 10 ∷ s)))
      (append-nil (sni_lines sni))

start : Draft
start = record { pid = none; port = none; mark = none; allow = [] }

lines-read :
    (pid : ℤ) (sni : List SniRule)
    → IsI32 pid
    → All IsEntry sni
    → read_lines (lines (render_proxy_config pid sni)) start
      ≡ ok (record {
        pid = some pid;
        port = some proxy_port;
        mark = some proxy_mark;
        allow = enter_all sni [];
      })
unfolding start
lines-read pid sni i es =
    ap (λ t. read_lines (lines t) start) (text_parts pid sni)
    ∙ key_line-read b'p' (codes "id") (show_i32 pid) _ (omega arith) (show_i32-IsWord pid) start
        (record start { pid = some pid }) (pid_read pid i start)
    ∙ key_line-read b'p' (codes "ort") (decimal proxy_port) _ (omega arith)
        (decimal-IsWord proxy_port) (record start { pid = some pid })
        (record start { pid = some pid; port = some proxy_port })
        (port_read proxy_port (omega arith) (record start { pid = some pid }))
    ∙ key_line-read b'm' (codes "ark") (decimal proxy_mark) _ (omega arith)
        (decimal-IsWord proxy_mark) (record start { pid = some pid; port = some proxy_port })
        (record start { pid = some pid; port = some proxy_port; mark = some proxy_mark })
        (mark_read proxy_mark (omega arith)
          (record start { pid = some pid; port = some proxy_port }))
    ∙ sni_lines-read sni es
        (record start { pid = some pid; port = some proxy_port; mark = some proxy_mark })

then_finish : (m : Result Draft) (c : Draft) → m ≡ ok c → (m >>= finish) ≡ finish c
then_finish m c h = rw h refl

-- The proxy reads back exactly what its parent wrote: the process id, the port, the mark, and every
-- name with its addresses in their order, when the id fits an `i32`, the names are lower-case words
-- without repetitions, and each has addresses of four octets.
pub read_config-render :
    (pid : ℤ) (sni : List SniRule)
    → IsI32 pid
    → All IsEntry sni
    → IsDistinct sni
    → read_config (render_proxy_config pid sni) ≡ ok (config_of pid sni)
unfolding read_config start
read_config-render pid sni i es d =
    then_finish _ _ (lines-read pid sni i es)
    ∙ ap (λ a. ok (record (config_of pid []) { allow = a }))
        (enter_all-distinct sni [] d (none-IsAbsent sni))
