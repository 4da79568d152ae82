-- ===== src/Cli/Preflight.antt =====
-- src/cli.rs, `preflight`: what holds of the options once it accepts them.
use basta.Prelude.{
  ℕ, ◌≤◌, ◌≡◌, refl, ◌≢◌, ◌⊎◌, inl, inr, Bool, true, false, not, ◌&&◌, ◌||◌, Option, none, some,
  List, [], ◌∷◌, arith, ltb, ◌==◌, if◌then◌else◌, is_empty, any, All, Bytes, codes, guard,
  >>=-eq-ok, guard-eq-ok,
}
use basta.Prelude.{
  Result, ok, ◌>>◌, missing_bwrap, missing_nft, missing_pasta, host_with_egress, loopback_port_zero,
  publish_port_zero, publish_privileged, publish_reserved, publish_conflict, lock_escapes,
  no_seccomp_conflict,
}
use basta.Egress.Spec.{proxy_port}
use basta.Seccomp.{Sys, effective_denylist}
use basta.Cli.{
  Cli, is_host, egress_requested, FindBin, check_egress, check_publish, escapes, check_relative,
  preflight,
}

-- A port that can be published beside the loopback ports.
abbrev pub IsPublishable : List ℕ → Option ℕ → Type 0
IsPublishable loopback none = Unit
IsPublishable loopback (some p) =
    (1024 ≤ p) × (p ≢ proxy_port) × (any (λ q. q == p) loopback ≡ false)

check_publish-inv :
    (o : Option ℕ) (loopback : List ℕ) {u : Unit {0}}
    → check_publish o loopback ≡ ok u
    → IsPublishable loopback o
unfolding check_publish
check_publish-inv none loopback h = tt
check_publish-inv (some p) loopback h =
    let (_, _, h1) = >>=-eq-ok (guard (p == 0) publish_port_zero) _ h in
    let (_, g1, h2) = >>=-eq-ok (guard (ltb p 1024) publish_privileged) _ h1 in
    let (_, g2, h3) = >>=-eq-ok (guard (p == proxy_port) publish_reserved) _ h2 in
    let (_, g3, _) = >>=-eq-ok (guard (any (λ q. q == p) loopback) publish_conflict) _ h3 in
    let a = guard-eq-ok (ltb p 1024) publish_privileged g1 in
    let b = guard-eq-ok (p == proxy_port) publish_reserved g2 in
    (
      ground (arith, a),
      λ e. ground (arith, b, e),
      guard-eq-ok (any (λ q. q == p) loopback) publish_conflict g3,
    )

-- No path is absolute or climbs with `..`.
abbrev pub StaysInside : List Bytes → Type 0
StaysInside = All (λ rel. escapes rel ≡ false)

check_relative-inv :
    (rels : List Bytes) {u : Unit {0}} → check_relative rels ≡ ok u → StaysInside rels
unfolding check_relative
check_relative-inv [] h = tt
check_relative-inv (rel ∷ rels) h =
    let (_, g, h1) = >>=-eq-ok (guard (escapes rel) lock_escapes) _ h in
    (guard-eq-ok (escapes rel) lock_escapes g, check_relative-inv rels h1)

-- The network options do not contradict each other, and the programs they need are there.
abbrev pub EgressFits : FindBin → Cli → Type 0
EgressFits find_bin c =
    (egress_requested c ≡ false)
    ⊎ ((is_host c.net ≡ false)
        × (find_bin (codes "nft") ≡ true)
        × (find_bin (codes "pasta") ≡ true))

check_egress-inv :
    (find_bin : FindBin) (c : Cli) {u : Unit {0}}
    → check_egress find_bin c ≡ ok u
    → EgressFits find_bin c
unfolding check_egress
check_egress-inv find_bin c h = go (egress_requested c) h
  where
    flip : (b : Bool) → not b ≡ false → b ≡ true
    flip true e = refl
    flip false e = cc

    go :
        (b : Bool)
        → ◌≡◌ {A = Result (Unit {0})}
            (if b
              then (guard (is_host c.net) host_with_egress
                  >> (guard (not (find_bin (codes "nft"))) missing_nft
                      >> (guard (not (find_bin (codes "pasta"))) missing_pasta >> ok tt)))
              else ok tt)
            (ok tt)
        → (b ≡ false)
          ⊎ ((is_host c.net ≡ false)
              × (find_bin (codes "nft") ≡ true)
              × (find_bin (codes "pasta") ≡ true))
    go true k =
        let (_, g1, k1) = >>=-eq-ok (guard (is_host c.net) host_with_egress) _ k in
        let (_, g2, k2) = >>=-eq-ok (guard (not (find_bin (codes "nft"))) missing_nft) _ k1 in
        let (_, g3, _) = >>=-eq-ok (guard (not (find_bin (codes "pasta"))) missing_pasta) _ k2 in
        let a = guard-eq-ok (is_host c.net) host_with_egress g1 in
        let b = guard-eq-ok (not (find_bin (codes "nft"))) missing_nft g2 in
        let d = guard-eq-ok (not (find_bin (codes "pasta"))) missing_pasta g3 in
        inr (a, flip (find_bin (codes "nft")) b, flip (find_bin (codes "pasta")) d)
    go false k = inl refl

-- `--no-seccomp` stands without options on syscalls.
abbrev pub SeccompFits : Cli → Type 0
SeccompFits c =
    (c.no_seccomp ≡ false) ⊎ ((is_empty c.allow_syscall ≡ true) × (is_empty c.deny_syscall ≡ true))

-- What `preflight` promises to the rest of the launch.
abbrev pub Accepted : FindBin → Sys → Cli → Type 0
Accepted find_bin sys c =
    (find_bin (codes "bwrap") ≡ true)
    × EgressFits find_bin c
    × (any (λ p. p == 0) c.allow_loopback ≡ false)
    × IsPublishable c.allow_loopback c.publish
    × StaysInside c.lock
    × StaysInside c.unlock
    × SeccompFits c
    × ((denied : List ℕ) × (effective_denylist sys c.deny_syscall c.allow_syscall ≡ ok denied))

-- When `preflight` accepts the options: bwrap is there; a policy comes with an isolated network and
-- with nft and pasta; the published port is at least 1024, is not the proxy's and is not a loopback
-- port; no loopback port is 0; no `--lock` or `--unlock` path leaves its workspace; `--no-seccomp`
-- stands without syscall options; and the denylist can be computed.
pub preflight_sound :
    (find_bin : FindBin) (sys : Sys) (c : Cli)
    → preflight find_bin sys c ≡ ok tt
    → Accepted find_bin sys c
unfolding preflight
preflight_sound find_bin sys c h =
    let no_bwrap = not (find_bin (codes "bwrap")) in
    let zero_port = any (λ p. p == 0) c.allow_loopback in
    let clash = c.no_seccomp && (not (is_empty c.allow_syscall) || not (is_empty c.deny_syscall)) in
    let (_, g1, h1) = >>=-eq-ok (guard no_bwrap missing_bwrap) _ h in
    let (_, g2, h2) = >>=-eq-ok (check_egress find_bin c) _ h1 in
    let (_, g3, h3) = >>=-eq-ok (guard zero_port loopback_port_zero) _ h2 in
    let (_, g4, h4) = >>=-eq-ok (check_publish c.publish c.allow_loopback) _ h3 in
    let (_, g5, h5) = >>=-eq-ok (check_relative c.lock) _ h4 in
    let (_, g6, h6) = >>=-eq-ok (check_relative c.unlock) _ h5 in
    let (_, g7, h7) = >>=-eq-ok (guard clash no_seccomp_conflict) _ h6 in
    let (denied, g8, _) = >>=-eq-ok (effective_denylist sys c.deny_syscall c.allow_syscall) _ h7 in
    (
      there (find_bin (codes "bwrap")) (guard-eq-ok no_bwrap missing_bwrap g1),
      check_egress-inv find_bin c g2,
      guard-eq-ok zero_port loopback_port_zero g3,
      check_publish-inv c.publish c.allow_loopback g4,
      check_relative-inv c.lock g5,
      check_relative-inv c.unlock g6,
      alone c.no_seccomp (is_empty c.allow_syscall) (is_empty c.deny_syscall)
          (guard-eq-ok clash no_seccomp_conflict g7),
      (denied, g8),
    )
  where
    there : (b : Bool) → not b ≡ false → b ≡ true
    there true e = refl
    there false e = cc

    alone :
        (a b d : Bool) → (a && (not b || not d)) ≡ false → (a ≡ false) ⊎ ((b ≡ true) × (d ≡ true))
    alone false b d e = inl refl
    alone true true true e = inr (refl, refl)
    alone true true false e = cc
    alone true false d e = cc
