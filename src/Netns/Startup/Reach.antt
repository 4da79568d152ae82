-- ===== src/Netns/Startup/Reach.antt =====
-- src/netns.rs: every state that a launch can come to.
use basta.Prelude.{◌≡◌, refl, sym, ◌∙◌, Bool, true, not, ◌||◌, List, [], ◌∷◌}
use basta.Netns.Startup.{
  ParentPc, reading, ready_seen, pasta_spawned, pasta_checked, proxy_spawned, proxy_told, supported,
  handed, finished, aborted, unsent, unwritten, Pipe, Proc, absent, alive, exited, reaped, System,
  Event, child_calls, parent_calls, pasta_exits, proxy_exits, route_appears, child_step,
  parent_step, step, run, launch, dies, installs,
}
use basta.Netns.Startup.Invariant.{is_started, is_gone, is_alive, ParentInv, IsLaunch, child_at}
use basta.Netns.Startup.Support.{parent_at}

alive-started : (p : Proc) → is_started p ≡ is_started (dies p)
alive-started absent = refl
alive-started alive = refl
alive-started exited = refl
alive-started reaped = refl

gone-dies : (p : Proc) → is_gone p ≡ true → is_gone (dies p) ≡ true
gone-dies absent h = refl
gone-dies alive h = cc
gone-dies exited h = cc
gone-dies reaped h = refl

-- A process that exits by itself is still to be waited for.
same_parent :
    (pc : ParentPc) (sni listening : Bool) (go : Pipe) (pasta proxy pasta' proxy' : Proc)
    → (pasta ≡ absent → pasta' ≡ absent)
    → (proxy ≡ absent → proxy' ≡ absent)
    → is_started pasta ≡ is_started pasta'
    → is_started proxy ≡ is_started proxy'
    → (is_gone pasta ≡ true → is_gone pasta' ≡ true)
    → (is_gone proxy ≡ true → is_gone proxy' ≡ true)
    → ParentInv pc sni listening go pasta proxy
    → ParentInv pc sni listening go pasta' proxy'
same_parent reading sni listening go a b a' b' fa fb sa sb ga gb h = (h.0, fa h.1, fb h.2)
same_parent ready_seen sni listening go a b a' b' fa fb sa sb ga gb h = (h.0, fa h.1, fb h.2)
same_parent pasta_spawned sni listening go a b a' b' fa fb sa sb ga gb h =
    (h.0, sym sa ∙ h.1, fb h.2)
same_parent pasta_checked sni listening go a b a' b' fa fb sa sb ga gb h =
    (h.0, sym sa ∙ h.1, fb h.2)
same_parent proxy_spawned sni listening go a b a' b' fa fb sa sb ga gb h = h
same_parent proxy_told sni listening go a b a' b' fa fb sa sb ga gb h = h
same_parent supported sni listening go a b a' b' fa fb sa sb ga gb h = h
same_parent handed sni listening go a b a' b' fa fb sa sb ga gb h = h
same_parent finished sni listening go a b a' b' fa fb sa sb ga gb h = (h.0, h.1, ga h.2, gb h.3)
same_parent aborted sni listening go a b a' b' fa fb sa sb ga gb h = (h.0, ga h.1, gb h.2)
same_parent unsent sni listening go a b a' b' fa fb sa sb ga gb h = h
same_parent unwritten sni listening go a b a' b' fa fb sa sb ga gb h = (h.0, ga h.1)

dies_absent : (p : Proc) → p ≡ absent → dies p ≡ absent
dies_absent p e = rw e refl

installs_alive : (p : Proc) (r : Bool) → (not (installs p r) || is_alive p) ≡ true
installs_alive absent r = refl
installs_alive alive r = refl
installs_alive exited r = refl
installs_alive reaped r = refl

step-IsLaunch : {sni : Bool} (e : Event) (s : System) → IsLaunch sni s → IsLaunch sni (step e s)
unfolding step child_step parent_step
step-IsLaunch (child_calls o) s i = child_at s i s.child o i.child_inv
step-IsLaunch (parent_calls o) s i = parent_at s i s.parent o i.parent_inv
step-IsLaunch pasta_exits s i = record {
  sni_inv = i.sni_inv;
  child_inv = i.child_inv;
  parent_inv =
      same_parent s.parent s.sni s.listening s.go s.pasta s.proxy (dies s.pasta) s.proxy
        (dies_absent s.pasta) (λ e. e) (alive-started s.pasta) refl (gone-dies s.pasta) (λ e. e)
        i.parent_inv;
  route_inv = refl;
}
step-IsLaunch proxy_exits s i = record {
  sni_inv = i.sni_inv;
  child_inv = i.child_inv;
  parent_inv =
      same_parent s.parent s.sni s.listening s.go s.pasta s.proxy s.pasta (dies s.proxy) (λ e. e)
        (dies_absent s.proxy) refl (alive-started s.proxy) (λ e. e) (gone-dies s.proxy)
        i.parent_inv;
  route_inv = i.route_inv;
}
step-IsLaunch route_appears s i = record {
  sni_inv = i.sni_inv;
  child_inv = i.child_inv;
  parent_inv = i.parent_inv;
  route_inv = installs_alive s.pasta s.route;
}

pub run-from :
    {sni : Bool} (es : List Event) (s : System) → IsLaunch sni s → IsLaunch sni (run es s)
unfolding run
run-from [] s i = i
run-from (e ∷ es) s i = run-from es (step e s) (step-IsLaunch e s i)

-- After any sequence of calls of the two processes and of exits of the support processes, the state of
-- a launch satisfies the invariant: what each process has done so far and what the other may rely on.
pub run-IsLaunch : (sni : Bool) (es : List Event) → IsLaunch sni (run es (launch sni))
unfolding launch
run-IsLaunch sni es =
    run-from es (launch sni) (record {
      sni_inv = refl;
      child_inv = refl;
      parent_inv = (refl, refl, refl);
      route_inv = refl;
    })
