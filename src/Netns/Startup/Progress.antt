-- ===== src/Netns/Startup/Progress.antt =====
-- src/netns.rs: what is left when a launch fails, and that the child does not wait in vain
-- on the `go` pipe.
use basta.Prelude.{
  ◌≡◌, refl, sym, subst, ◌≢◌, ◌⊎◌, inl, inr, Bool, true, false, List, [], ◌∷◌, if◌then◌else◌,
}
use basta.Netns.Startup.{
  ChildPc, signalled, released, routed, ParentPc, reading, ready_seen, pasta_spawned, pasta_checked,
  proxy_spawned, proxy_told, supported, handed, finished, aborted, unsent, unwritten, Pipe,
  open_empty, full, closed, Proc, absent, alive, exited, reaped, System, Outcome, fine, Event,
  child_calls, parent_calls, pasta_exits, proxy_exits, route_appears, child_step, parent_step_at,
  parent_step, step, run, launch, has_reader, parent_reads, check_pasta, spawn_proxy, await_proxy,
  write_go,
}
use basta.Netns.Startup.Invariant.{is_gone, ChildInv, ParentInv, IsLaunch}
use basta.Netns.Startup.Reach.{run-IsLaunch, run-from}
use basta.Netns.Startup.Frames.{child_parent}

-- The parent has ended, with an error.
abbrev pub HasStopped : ParentPc → Type 0
HasStopped pc = (pc ≡ aborted) ⊎ ((pc ≡ unsent) ⊎ (pc ≡ unwritten))

stopped_closed :
    (pc : ParentPc) (sni listening : Bool) (go : Pipe) (pasta proxy : Proc)
    → HasStopped pc
    → ParentInv pc sni listening go pasta proxy
    → go ≡ closed
stopped_closed pc sni listening go a b (inl e) h =
    (subst (λ x. ParentInv x sni listening go a b) e h).0
stopped_closed pc sni listening go a b (inr (inl e)) h =
    subst (λ x. ParentInv x sni listening go a b) e h
stopped_closed pc sni listening go a b (inr (inr e)) h =
    (subst (λ x. ParentInv x sni listening go a b) e h).0

released_full :
    (pc : ChildPc) (s : System)
    → (pc ≡ released) ⊎ (pc ≡ routed)
    → ChildInv pc s.uid_written s.gid_written s.owned s.lo s.filter s.ready s.go
    → s.go ≡ full
released_full pc s (inl e) h =
    (subst (λ x. ChildInv x s.uid_written s.gid_written s.owned s.lo s.filter s.ready s.go) e h).3
released_full pc s (inr e) h =
    (subst (λ x. ChildInv x s.uid_written s.gid_written s.owned s.lo s.filter s.ready s.go) e h).3

stopped_stays :
    (pc : ParentPc) (o : Outcome) (s : System)
    → s.parent ≡ pc
    → HasStopped pc
    → (parent_step_at pc o s).parent ≡ s.parent
unfolding parent_step_at
stopped_stays aborted o s e h = refl
stopped_stays unsent o s e h = refl
stopped_stays unwritten o s e h = refl
stopped_stays reading o s e h = elim h [ inl a ↦ cc | inr (inl a) ↦ cc | inr (inr a) ↦ cc ]
stopped_stays ready_seen o s e h = elim h [ inl a ↦ cc | inr (inl a) ↦ cc | inr (inr a) ↦ cc ]
stopped_stays pasta_spawned o s e h = elim h [ inl a ↦ cc | inr (inl a) ↦ cc | inr (inr a) ↦ cc ]
stopped_stays pasta_checked o s e h = elim h [ inl a ↦ cc | inr (inl a) ↦ cc | inr (inr a) ↦ cc ]
stopped_stays proxy_spawned o s e h = elim h [ inl a ↦ cc | inr (inl a) ↦ cc | inr (inr a) ↦ cc ]
stopped_stays proxy_told o s e h = elim h [ inl a ↦ cc | inr (inl a) ↦ cc | inr (inr a) ↦ cc ]
stopped_stays supported o s e h = elim h [ inl a ↦ cc | inr (inl a) ↦ cc | inr (inr a) ↦ cc ]
stopped_stays handed o s e h = elim h [ inl a ↦ cc | inr (inl a) ↦ cc | inr (inr a) ↦ cc ]
stopped_stays finished o s e h = elim h [ inl a ↦ cc | inr (inl a) ↦ cc | inr (inr a) ↦ cc ]

step-HasStopped : (e : Event) (s : System) → HasStopped s.parent → HasStopped (step e s).parent
unfolding step child_step parent_step
step-HasStopped (child_calls o) s h = subst HasStopped (sym (child_parent s.child o s)) h
step-HasStopped (parent_calls o) s h = subst HasStopped (sym (stopped_stays s.parent o s refl h)) h
step-HasStopped pasta_exits s h = h
step-HasStopped proxy_exits s h = h
step-HasStopped route_appears s h = h

run-HasStopped : (es : List Event) (s : System) → HasStopped s.parent → HasStopped (run es s).parent
unfolding run
run-HasStopped [] s h = h
run-HasStopped (e ∷ es) s h = run-HasStopped es (step e s) (step-HasStopped e s h)

-- A launch fails closed: once the parent has ended with an error, in whatever order the calls and
-- exits came, no further events make the child go on to bubblewrap.
pub launch_fails_closed :
    (sni : Bool) (es es' : List Event)
    → HasStopped (run es (launch sni)).parent
    → (run es' (run es (launch sni))).child ≢ routed
launch_fails_closed sni es es' p e =
    let s = run es' (run es (launch sni)) in
    let i : IsLaunch sni (run es' (run es (launch sni))) =
      run-from es' (run es (launch sni)) (run-IsLaunch sni es) in
    let q = run-HasStopped es' (run es (launch sni)) p in
    clash (released_full s.child s (inr e) i.child_inv)
      (stopped_closed s.parent s.sni s.listening s.go s.pasta s.proxy q i.parent_inv)
  where
    clash : {p : Pipe} → p ≡ full → p ≡ closed → ⊥
    clash a b = cc

-- When the parent has cleaned up, behind an error or at the end of the session, neither pasta nor the
-- proxy is left: each was never started, or it has been killed and waited for.
pub no_process_left :
    (sni : Bool) (es : List Event)
    → ((run es (launch sni)).parent ≡ aborted) ⊎ ((run es (launch sni)).parent ≡ finished)
    → (is_gone (run es (launch sni)).pasta ≡ true) × (is_gone (run es (launch sni)).proxy ≡ true)
no_process_left sni es h = gone (run es (launch sni)) (run-IsLaunch sni es) h
  where
    gone :
        (s : System)
        → IsLaunch sni s
        → (s.parent ≡ aborted) ⊎ (s.parent ≡ finished)
        → (is_gone s.pasta ≡ true) × (is_gone s.proxy ≡ true)
    gone s i (inl e) =
        let h = subst (λ x. ParentInv x s.sni s.listening s.go s.pasta s.proxy) e i.parent_inv in
        (h.1, h.2)
    gone s i (inr e) =
        let h = subst (λ x. ParentInv x s.sni s.listening s.go s.pasta s.proxy) e i.parent_inv in
        (h.2, h.3)

-- The parent's next call when the child waits on the `go` pipe.
parent_moves :
    (pc : ParentPc) (s : System)
    → ParentInv pc s.sni s.listening s.go s.pasta s.proxy
    → s.go ≡ open_empty
    → s.ready ≡ full
    → s.child ≡ signalled
    → (parent_step_at pc fine s).parent ≢ pc
unfolding parent_step_at
parent_moves reading s h g r c k = wakes s.ready r k
  where
    wakes : (p : Pipe) → p ≡ full → (parent_reads fine p s).parent ≢ reading
    wakes open_empty e l = cc
    wakes full e l = cc
    wakes closed e l = cc
parent_moves ready_seen s h g r c k = cc
parent_moves pasta_spawned s h g r c k = checks s.pasta k
  where
    checks : (p : Proc) → (check_pasta fine p s).parent ≢ pasta_spawned
    checks absent l = cc
    checks alive l = cc
    checks exited l = cc
    checks reaped l = cc
parent_moves pasta_checked s h g r c k = proxies s.sni k
  where
    proxies :
        (b : Bool)
        → (if b then spawn_proxy fine s else record s { parent = supported }).parent ≢ pasta_checked
    proxies true l = cc
    proxies false l = cc
parent_moves proxy_spawned s h g r c k = cc
parent_moves proxy_told s h g r c k = awaits s.proxy s.route k
  where
    awaits : (p : Proc) (r : Bool) → (await_proxy fine p r s).parent ≢ proxy_told
    awaits alive true l = cc
    awaits alive false l = cc
    awaits absent r l = cc
    awaits exited r l = cc
    awaits reaped r l = cc
parent_moves supported s h g r c k = writes (has_reader s.child) k
  where
    writes : (b : Bool) → (write_go fine b s).parent ≢ supported
    writes true l = cc
    writes false l = cc
parent_moves handed s h g r c k = cc
parent_moves finished s h g r c k = cc
parent_moves aborted s h g r c k = cc
parent_moves unsent s h g r c k = cc
parent_moves unwritten s h g r c k = cc

-- The child never waits in vain: whenever it waits on an empty `go` pipe whose writer is still there,
-- the parent's next call, if it succeeds, takes the parent a step further.
pub child_wait_ends :
    (sni : Bool) (es : List Event)
    → (run es (launch sni)).child ≡ signalled
    → (run es (launch sni)).go ≡ open_empty
    → (step (parent_calls fine) (run es (launch sni))).parent ≢ (run es (launch sni)).parent
unfolding step parent_step
child_wait_ends sni es c g =
    let s = run es (launch sni) in
    let i : IsLaunch sni (run es (launch sni)) = run-IsLaunch sni es in
    let at : ChildInv signalled s.uid_written s.gid_written s.owned s.lo s.filter s.ready s.go =
      subst (λ pc. ChildInv pc s.uid_written s.gid_written s.owned s.lo s.filter s.ready s.go) c
        i.child_inv in
    parent_moves s.parent s i.parent_inv g at.3 c
