-- ===== src/SniProxy/Service.antt =====
-- src/sni_proxy.rs: how the proxy starts, what it gives up, how many connections it serves, and how it
-- copies bytes.
pub mod Capabilities
pub mod Connections
pub mod Copying
use basta.Prelude.{
  ℕ, zero, suc, ◌+◌, ◌-◌, ◌^◌, Bool, true, false, not, ◌&&◌, ◌||◌, Option, none, some, List, [],
  ◌∷◌, ◌++◌, arith, ◌==◌, if◌then◌else◌, Bytes, codes, guard, ℤ, show_i32,
}
use basta.Prelude.{
  Result, ok, err, ◌>>=◌, ◌>>◌, not_joined, not_bound, not_hardened, no_default_route,
}
use basta.SniProxy.{Config, admit}
use basta.SniProxy.Settings.{read_config}

abbrev ns_path : ℤ → Bytes → Bytes
ns_path pid kind = codes "/proc/" ++ (show_i32 pid ++ (codes "/ns/" ++ kind))

-- `join_namespaces`: which paths open, and which kind of namespace can then be entered.
unfoldable pub join_namespaces : (Bytes → Bool) → (Bytes → Bool) → ℤ → Result (Unit {0})
join_namespaces opens enters pid = do
  guard (not (opens (ns_path pid (codes "user")))) not_joined
  guard (not (opens (ns_path pid (codes "net")))) not_joined
  guard (not (enters (codes "user"))) not_joined
  guard (not (enters (codes "net"))) not_joined

abbrev pub cap_net_admin : ℕ
cap_net_admin = 12

-- The loop of `drop_cap_bounding_set_except_net_admin` over these capabilities. The set is a test, and
-- the first argument says which of them the kernel lets go.
unfoldable pub drop_each : (ℕ → Bool) → List ℕ → (ℕ → Bool) → Result (ℕ → Bool)
drop_each drops [] set = ok set
drop_each drops (cap ∷ caps) set =
    let rest = drop_each drops caps set in
    let dropped = drop_each drops caps (λ k. not (k == cap) && set k) in
    if cap == cap_net_admin || not (set cap)
    then rest
    else (if drops cap then dropped else err not_hardened)

-- `lo..hi` with `n` elements.
abbrev pub range_from : ℕ → ℕ → List ℕ
range_from zero lo = []
range_from (suc n) lo = lo ∷ range_from n (lo + 1)

unfoldable pub drop_cap_bounding_set_except_net_admin : (ℕ → Bool) → (ℕ → Bool) → Result (ℕ → Bool)
unfolding drop_each
drop_cap_bounding_set_except_net_admin drops set = drop_each drops (range_from 64 0) set

-- What `capset` is given by `drop_caps_to_net_admin`: the effective, permitted and inheritable sets, in
-- two words of 32 bits.
pub record CapData : Type 0 where
  pub effective : ℕ
  pub permitted : ℕ
  pub inheritable : ℕ

unfoldable pub caps_to_net_admin : List CapData
caps_to_net_admin =
    record { effective = 2 ^ cap_net_admin; permitted = 2 ^ cap_net_admin; inheritable = 0 }
    ∷ record { effective = 0; permitted = 0; inheritable = 0 }
    ∷ []

-- What the calls of `harden` answer.
pub record Hardening : Type 0 where
  pub no_new_privs : Bool
  pub undumpable : Bool
  pub drops : ℕ → Bool
  pub capset : List CapData → Bool
  pub filters : Bool

-- `harden`; the result is the bounding set.
unfoldable pub harden : Hardening → (ℕ → Bool) → Result (ℕ → Bool)
unfolding drop_cap_bounding_set_except_net_admin caps_to_net_admin
harden h set = do
  guard (not h.no_new_privs) not_hardened
  guard (not h.undumpable) not_hardened
  set' ← drop_cap_bounding_set_except_net_admin h.drops set
  guard (not (h.capset caps_to_net_admin)) not_hardened
  guard (not h.filters) not_hardened
  ok set'

-- `run`, up to the line `LISTENING`: whether the default route comes up, and whether the address is
-- free.
unfoldable pub come_up :
    Bytes
    → (Bytes → Bool)
    → (Bytes → Bool)
    → Bool
    → (ℕ → Bool)
    → Hardening
    → (ℕ → Bool)
    → Result Config
unfolding read_config join_namespaces harden
come_up text opens enters routed binds h set = do
  cfg ← read_config text
  join_namespaces opens enters cfg.pid
  guard (not routed) no_default_route
  guard (not (binds cfg.port)) not_bound
  set' ← harden h set
  ok cfg

-- What comes to the accept loop: a connection, an error of `accept`, or the end of a connection that is
-- served.
pub data Arrival : Type 0 where
  connects accept_fails ends : Arrival

pub record Serving : Type 0 where
  pub active : ℕ
  pub live : ℕ

abbrev serve : ℕ → ℕ × Bool → Serving
serve live (active, true) = record { active = active; live = live + 1 }
serve live (active, false) = record { active = active; live = live }

abbrev leave : ℕ → ℕ → Serving
leave active zero = record { active = active; live = 0 }
leave active (suc live) = record { active = active - 1; live = live }

unfoldable pub arrive : Arrival → Serving → Serving
unfolding admit
arrive connects s = serve s.live (admit s.active)
arrive accept_fails s = s
arrive ends s = leave s.active s.live

unfoldable pub arrive_all : List Arrival → Serving → Serving
unfolding arrive
arrive_all [] s = s
arrive_all (a ∷ as_they_come) s = arrive_all as_they_come (arrive a s)

-- What `connect` answers.
pub data Connect : Type 0 where
  connected in_progress connect_fails : Connect

-- The calls of `dial_one` for one address and mark.
pub record DialCalls : Type 0 where
  pub opens : Bool
  pub takes_mark : ℕ → Bool
  pub connects : Connect
  pub polled : ℕ
  pub so_error : Option ℕ
  pub blocking : Bool

abbrev settled : Option ℕ → Bool
settled none = false
settled (some e) = e == 0

abbrev reached : Connect → ℕ → Option ℕ → Bool
reached connected polled e = true
reached in_progress polled e = polled == 1 && settled e
reached connect_fails polled e = false

unfoldable pub dial_one : DialCalls → ℕ → Bool
dial_one d mark =
    d.opens && d.takes_mark mark && reached d.connects d.polled d.so_error && d.blocking
