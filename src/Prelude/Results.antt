-- ===== src/Prelude/Results.antt =====
-- `anyhow::Result`: each `bail!` and each `context` of the source is a constructor of `Error`, without
-- the text of the message.
use mathlib.Core.Path.{◌≡◌, refl}
use mathlib.Core.Bool.{Bool, true, false}
use mathlib.Core.Option.{Option, none, some}

pub data Error : Type 0 where
  -- src/egress.rs
  needs_port empty_host bad_port bad_port_start bad_port_end zero_port reversed_range : Error
  bad_cidr_address bad_cidr_prefix prefix_over_32 : Error
  refused_loopback refused_link_local private_via_dns dns_name_on_443 unresolvable no_address :
      Error
  sni_is_address sni_not_dns_name : Error
  -- src/seccomp.rs
  unknown_syscall : Error
  -- src/cli.rs
  missing_bwrap missing_nft missing_pasta host_with_egress : Error
  loopback_port_zero publish_port_zero publish_privileged publish_reserved publish_conflict : Error
  lock_escapes no_seccomp_conflict : Error
  -- src/env.rs
  home_unset home_relative home_parent home_system : Error
  env_unset env_bad_key env_reserved : Error
  -- src/workspace.rs
  workspace_missing workspace_unopened outside_roots system_root masks_home read_only_reopened :
      Error
  -- src/seed.rs
  needs_src_dest empty_src_dest dest_absolute dest_component : Error
  seed_missing seed_symlink seed_special seed_unopened seed_unreadable seed_too_deep : Error
  -- src/lockset.rs
  lock_unstattable lock_symlink lock_unopened git_symlink : Error
  -- src/sni_proxy.rs
  bad_number no_pid_value no_port_value no_mark_value no_host_name bad_host_address : Error
  host_without_addresses unknown_line missing_pid missing_port missing_mark : Error
  not_joined not_bound not_hardened : Error
  -- src/netns.rs
  unshare_failed map_unwritten loopback_failed nft_missing nft_unspawned nft_failed : Error
  ready_unsent go_unread go_closed no_default_route : Error
  ready_unread ready_closed pasta_missing pasta_unspawned pasta_died : Error
  proxy_unspawned proxy_unwritten proxy_not_up go_unsent : Error
  -- src/pty.rs
  bwrap_missing memfd_failed tty_failed forkpty_failed relay_failed wait_failed exec_failed : Error

pub data Result {ℓ} (A : Type ℓ) : Type ℓ where
  ok : A → Result A
  err : Error → Result A

-- The `?` operator, and `?;`.
infixl 5 ◌>>=◌ ◌>>◌
abbrev pub ◌>>=◌ {ℓ κ} : {A : Type ℓ} {B : Type κ} → Result A → (A → Result B) → Result B
err e >>= next = err e
ok x >>= next = next x

abbrev pub ◌>>◌ {ℓ} : {B : Type ℓ} → Result (Unit {0}) → Result B → Result B
first >> after = first >>= λ u. after

-- `if bad { bail!(e) }`
abbrev pub guard : Bool → Error → Result (Unit {0})
guard true e = err e
guard false e = ok tt

-- `.context(e)?` and `.ok_or(e)?`
abbrev pub require {ℓ} : {A : Type ℓ} → Option A → Error → Result A
require none e = err e
require (some a) e = ok a

pub >>=-eq-ok {ℓ κ} :
    {A : Type ℓ} {B : Type κ} (first : Result A) (next : A → Result B) {y : B}
    → (first >>= next) ≡ ok y
    → (x : A) × (first ≡ ok x) × (next x ≡ ok y)
>>=-eq-ok (err e) next h = cc
>>=-eq-ok (ok x) next h = (x, refl, h)

pub guard-eq-ok : (bad : Bool) (e : Error) {u : Unit {0}} → guard bad e ≡ ok u → bad ≡ false
guard-eq-ok true e h = cc
guard-eq-ok false e h = refl

pub require-eq-ok {ℓ} :
    {A : Type ℓ} (o : Option A) (e : Error) {a : A} → require o e ≡ ok a → o ≡ some a
require-eq-ok none e h = cc
require-eq-ok (some a) e h = cc

pub ok-injective {ℓ} : {A : Type ℓ} {a b : A} → ok a ≡ ok b → a ≡ b
ok-injective h = cc
