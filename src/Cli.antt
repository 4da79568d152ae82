-- ===== src/Cli.antt =====
-- src/cli.rs: the options, and `preflight`.
pub mod Preflight
use basta.Prelude.{
  ℕ, zero, suc, Bool, true, false, not, ◌&&◌, ◌||◌, Option, none, some, List, [], ◌∷◌, arith, ltb,
  ◌==◌, if◌then◌else◌, is_empty, any, Bytes, codes, guard,
}
use basta.Prelude.{
  Result, ok, ◌>>=◌, ◌>>◌, missing_bwrap, missing_nft, missing_pasta, host_with_egress,
  loopback_port_zero, publish_port_zero, publish_privileged, publish_reserved, publish_conflict,
  lock_escapes, no_seccomp_conflict,
}
use basta.Paths.{components, is_absolute, is_parent_dir}
use basta.Egress.Spec.{proxy_port}
use basta.Seccomp.{Sys, effective_denylist}

pub data NetMode : Type 0 where
  offline host : NetMode

abbrev pub is_host : NetMode → Bool
is_host offline = false
is_host host = true

pub record Cli : Type 0 where
  pub workspaces : List Bytes
  pub gpu : Bool
  pub expose_local_share : Bool
  pub net : NetMode
  pub allow : List Bytes
  pub allow_sni : List Bytes
  pub allow_loopback : List ℕ
  pub publish : Option ℕ
  pub seed : List Bytes
  pub persist : List Bytes
  pub envs : List Bytes
  pub dry_run : Bool
  pub trace : Bool
  pub allow_syscall : List Bytes
  pub deny_syscall : List Bytes
  pub no_seccomp : Bool
  pub lock : List Bytes
  pub unlock : List Bytes
  pub no_lock : Bool
  pub lock_strict : Bool
  pub command : List Bytes

abbrev is_some {ℓ} : {A : Type ℓ} → Option A → Bool
is_some none = false
is_some (some a) = true

unfoldable pub egress_requested : Cli → Bool
egress_requested c =
    not (is_empty c.allow)
    || not (is_empty c.allow_sni)
    || not (is_empty c.allow_loopback)
    || is_some c.publish

-- `netns::find_bin(..).is_ok()`.
abbrev pub FindBin : Type 0
FindBin = Bytes → Bool

unfoldable pub check_egress : FindBin → Cli → Result (Unit {0})
check_egress find_bin c =
    if egress_requested c
    then (do
      guard (is_host c.net) host_with_egress
      guard (not (find_bin (codes "nft"))) missing_nft
      guard (not (find_bin (codes "pasta"))) missing_pasta
      ok tt)
    else ok tt

unfoldable pub check_publish : Option ℕ → List ℕ → Result (Unit {0})
check_publish none allow_loopback = ok tt
check_publish (some p) allow_loopback = do
  guard (p == 0) publish_port_zero
  guard (ltb p 1024) publish_privileged
  guard (p == proxy_port) publish_reserved
  guard (any (λ q. q == p) allow_loopback) publish_conflict
  ok tt

unfoldable pub escapes : Bytes → Bool
escapes rel = is_absolute rel || any is_parent_dir (components rel)

-- The loop over `--lock`, then over `--unlock`.
unfoldable pub check_relative : List Bytes → Result (Unit {0})
check_relative [] = ok tt
check_relative (rel ∷ rest) = do guard (escapes rel) lock_escapes; check_relative rest

unfoldable pub preflight : FindBin → Sys → Cli → Result (Unit {0})
preflight find_bin sys c = do
  guard (not (find_bin (codes "bwrap"))) missing_bwrap
  check_egress find_bin c
  guard (any (λ p. p == 0) c.allow_loopback) loopback_port_zero
  check_publish c.publish c.allow_loopback
  check_relative c.lock
  check_relative c.unlock
  guard (c.no_seccomp && (not (is_empty c.allow_syscall) || not (is_empty c.deny_syscall)))
      no_seccomp_conflict
  denied ← effective_denylist sys c.deny_syscall c.allow_syscall
  ok tt
