-- ===== src/Netns/Startup/Exec.antt =====
-- src/netns.rs: when the child goes on to bubblewrap.
use basta.Prelude.{◌≡◌, refl, sym, ◌∙◌, subst, ◌≢◌, Bool, true, false, not, ◌||◌, List}
use basta.Netns.Startup.{
  ChildPc, forked, userns, setgroups, uid_map, gid_map, netns, lo_up, filtered, signalled, released,
  routed, refused, ParentPc, reading, ready_seen, pasta_spawned, pasta_checked, proxy_spawned,
  proxy_told, supported, handed, finished, aborted, unsent, unwritten, Pipe, open_empty, full,
  closed, Proc, absent, alive, exited, reaped, System, Outcome, fine, fails, Event, child_calls,
  parent_calls, pasta_exits, proxy_exits, route_appears, child_step_at, child_step, parent_step,
  step, run, launch, child_does, child_reads, child_waits,
}
use basta.Netns.Startup.Invariant.{is_alive, ChildInv, ParentInv, IsLaunch}
use basta.Netns.Startup.Reach.{run-IsLaunch}
use basta.Netns.Startup.Frames.{parent_child}

does_else : (o : Outcome) (s t : System) → t.child ≢ routed → (child_does o s t).child ≢ routed
does_else fine s t n e = n e
does_else fails s t n e = cc

-- Only one call of the child makes it go on.
routes :
    (pc : ChildPc) (o : Outcome) (s : System)
    → s.child ≡ pc
    → pc ≢ routed
    → (child_step_at pc o s).child ≡ routed
    → (pc ≡ released) × (s.route ≡ true)
unfolding child_step_at
routes forked o s e n h = absurd (does_else o s _ (λ k. cc) h)
routes userns o s e n h = absurd (does_else o s _ (λ k. cc) h)
routes setgroups o s e n h = absurd (does_else o s _ (λ k. cc) h)
routes uid_map o s e n h = absurd (does_else o s _ (λ k. cc) h)
routes gid_map o s e n h = absurd (does_else o s _ (λ k. cc) h)
routes netns o s e n h = absurd (does_else o s _ (λ k. cc) h)
routes lo_up o s e n h = absurd (does_else o s _ (λ k. cc) h)
routes filtered o s e n h = absurd (does_else o s _ (λ k. cc) h)
routes signalled o s e n h = absurd (reads o s.go h)
  where
    reads : (o : Outcome) (p : Pipe) → (child_reads o p s).child ≢ routed
    reads fine open_empty k = cc
    reads fails open_empty k = cc
    reads o full k = does_else o s (record s { child = released }) (λ l. cc) k
    reads o closed k = cc
routes released o s e n h = (refl, waits o s.route refl h)
  where
    waits :
        (o : Outcome) (r : Bool) → s.route ≡ r → (child_waits o r s).child ≡ routed → s.route ≡ true
    waits o true q k = q
    waits o false q k = absurd (does_else o s s (λ l. cc) k)
routes routed o s e n h = absurd (n refl)
routes refused o s e n h = cc

-- The namespace is filtered, and the support processes have been started.
pub record IsGuarded (sni : Bool) (s : System) : Type 0 where
  pub maps_first : s.owned ≡ true
  pub loopback : s.lo ≡ true
  pub filter_loaded : s.filter ≡ true
  pub pasta_runs : s.pasta ≡ alive
  pub has_route : s.route ≡ true
  pub proxy_came_up : (not sni || s.listening) ≡ true

alive_inv : (p : Proc) → is_alive p ≡ true → p ≡ alive
alive_inv absent h = cc
alive_inv alive h = refl
alive_inv exited h = cc
alive_inv reaped h = cc

-- The byte in the `go` pipe is written behind the last of the parent's checks.
full_support :
    (pc : ParentPc) (sni listening : Bool) (go : Pipe) (pasta proxy : Proc)
    → go ≡ full
    → ParentInv pc sni listening go pasta proxy
    → (not sni || listening) ≡ true
full_support reading sni listening go a b e h = cc
full_support ready_seen sni listening go a b e h = cc
full_support pasta_spawned sni listening go a b e h = cc
full_support pasta_checked sni listening go a b e h = cc
full_support proxy_spawned sni listening go a b e h = cc
full_support proxy_told sni listening go a b e h = cc
full_support supported sni listening go a b e h = h.1
full_support handed sni listening go a b e h = h.1
full_support finished sni listening go a b e h = h.1
full_support aborted sni listening go a b e h = cc
full_support unsent sni listening go a b e h = cc
full_support unwritten sni listening go a b e h = cc

guarded :
    (sni : Bool) (s : System)
    → IsLaunch sni s
    → s.child ≡ released
    → s.route ≡ true
    → IsGuarded sni s
guarded sni s i e r =
    let c : ChildInv released s.uid_written s.gid_written s.owned s.lo s.filter s.ready s.go =
      subst (λ pc. ChildInv pc s.uid_written s.gid_written s.owned s.lo s.filter s.ready s.go) e
        i.child_inv in
    record {
      maps_first = c.0;
      loopback = c.1;
      filter_loaded = c.2;
      pasta_runs =
          alive_inv s.pasta (subst (λ b. (not b || is_alive s.pasta) ≡ true) r i.route_inv);
      has_route = r;
      proxy_came_up =
          subst (λ b. (not b || s.listening) ≡ true) i.sni_inv
            (full_support s.parent s.sni s.listening s.go s.pasta s.proxy c.3 i.parent_inv);
    }

goes_on :
    (e : Event) (s : System)
    → s.child ≢ routed
    → (step e s).child ≡ routed
    → (s.child ≡ released) × (s.route ≡ true)
unfolding step child_step parent_step
goes_on (child_calls o) s n h = routes s.child o s refl n h
goes_on (parent_calls o) s n h = absurd (n (sym (parent_child s.parent o s) ∙ h))
goes_on pasta_exits s n h = absurd (n h)
goes_on proxy_exits s n h = absurd (n h)
goes_on route_appears s n h = absurd (n h)

-- However the calls of the two processes and the exits of pasta and the proxy are interleaved, when the
-- child goes on to bubblewrap its network namespace belongs to a user namespace whose two maps had been
-- written, the loopback interface is up, the ruleset is loaded, pasta is running and has installed the
-- default route, and under `--allow-sni` the proxy has reported that it listens.
pub exec-IsGuarded :
    (sni : Bool) (es : List Event) (e : Event)
    → (run es (launch sni)).child ≢ routed
    → (step e (run es (launch sni))).child ≡ routed
    → IsGuarded sni (run es (launch sni))
exec-IsGuarded sni es e n h =
    let (at, r) = goes_on e (run es (launch sni)) n h in
    guarded sni (run es (launch sni)) (run-IsLaunch sni es) at r
