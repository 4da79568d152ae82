-- ===== src/Netns/Startup/Invariant.antt =====
-- src/netns.rs: what holds of the two processes of a launch after any sequence of calls.
use basta.Prelude.{◌≡◌, refl, ◌≢◌, Bool, true, false, not, ◌||◌}
use basta.Netns.Startup.{
  ChildPc, forked, userns, setgroups, uid_map, gid_map, netns, lo_up, filtered, signalled, released,
  routed, refused, ParentPc, reading, ready_seen, pasta_spawned, pasta_checked, proxy_spawned,
  proxy_told, supported, handed, finished, aborted, unsent, unwritten, Pipe, open_empty, full,
  closed, Proc, absent, alive, exited, reaped, System, Outcome, fine, fails, child_step_at, close,
  child_does, child_reads, child_waits,
}

abbrev pub is_started : Proc → Bool
is_started absent = false
is_started alive = true
is_started exited = true
is_started reaped = true

abbrev pub is_gone : Proc → Bool
is_gone absent = true
is_gone alive = false
is_gone exited = false
is_gone reaped = true

abbrev pub is_alive : Proc → Bool
is_alive absent = false
is_alive alive = true
is_alive exited = false
is_alive reaped = false

-- What the child's calls have brought about, and what it has said on its pipe.
abbrev pub ChildInv : ChildPc → Bool → Bool → Bool → Bool → Bool → Pipe → Pipe → Type 0
ChildInv forked uid gid owned lo filter ready go = ready ≡ open_empty
ChildInv userns uid gid owned lo filter ready go = ready ≡ open_empty
ChildInv setgroups uid gid owned lo filter ready go = ready ≡ open_empty
ChildInv uid_map uid gid owned lo filter ready go = (uid ≡ true) × (ready ≡ open_empty)
ChildInv gid_map uid gid owned lo filter ready go =
    (uid ≡ true) × (gid ≡ true) × (ready ≡ open_empty)
ChildInv netns uid gid owned lo filter ready go = (owned ≡ true) × (ready ≡ open_empty)
ChildInv lo_up uid gid owned lo filter ready go =
    (owned ≡ true) × (lo ≡ true) × (ready ≡ open_empty)
ChildInv filtered uid gid owned lo filter ready go =
    (owned ≡ true) × (lo ≡ true) × (filter ≡ true) × (ready ≡ open_empty)
ChildInv signalled uid gid owned lo filter ready go =
    (owned ≡ true) × (lo ≡ true) × (filter ≡ true) × (ready ≡ full)
ChildInv released uid gid owned lo filter ready go =
    (owned ≡ true) × (lo ≡ true) × (filter ≡ true) × (go ≡ full)
ChildInv routed uid gid owned lo filter ready go =
    (owned ≡ true) × (lo ≡ true) × (filter ≡ true) × (go ≡ full)
ChildInv refused uid gid owned lo filter ready go = ready ≢ open_empty

-- What the parent has started, and what it has said on its pipe.
abbrev pub ParentInv : ParentPc → Bool → Bool → Pipe → Proc → Proc → Type 0
ParentInv reading sni listening go pasta proxy =
    (go ≡ open_empty) × (pasta ≡ absent) × (proxy ≡ absent)
ParentInv ready_seen sni listening go pasta proxy =
    (go ≡ open_empty) × (pasta ≡ absent) × (proxy ≡ absent)
ParentInv pasta_spawned sni listening go pasta proxy =
    (go ≡ open_empty) × (is_started pasta ≡ true) × (proxy ≡ absent)
ParentInv pasta_checked sni listening go pasta proxy =
    (go ≡ open_empty) × (is_started pasta ≡ true) × (proxy ≡ absent)
ParentInv proxy_spawned sni listening go pasta proxy = go ≡ open_empty
ParentInv proxy_told sni listening go pasta proxy = go ≡ open_empty
ParentInv supported sni listening go pasta proxy =
    (go ≡ open_empty) × ((not sni || listening) ≡ true)
ParentInv handed sni listening go pasta proxy = (go ≡ full) × ((not sni || listening) ≡ true)
ParentInv finished sni listening go pasta proxy =
    (go ≡ full) × ((not sni || listening) ≡ true) × (is_gone pasta ≡ true) × (is_gone proxy ≡ true)
ParentInv aborted sni listening go pasta proxy =
    (go ≡ closed) × (is_gone pasta ≡ true) × (is_gone proxy ≡ true)
ParentInv unsent sni listening go pasta proxy = go ≡ closed
ParentInv unwritten sni listening go pasta proxy = (go ≡ closed) × (is_gone pasta ≡ true)

pub record IsLaunch (sni : Bool) (s : System) : Type 0 where
  pub sni_inv : s.sni ≡ sni
  pub child_inv : ChildInv s.child s.uid_written s.gid_written s.owned s.lo s.filter s.ready s.go
  pub parent_inv : ParentInv s.parent s.sni s.listening s.go s.pasta s.proxy
  pub route_inv : (not s.route || is_alive s.pasta) ≡ true

abbrev pub ChildAt : ChildPc → System → Type 0
ChildAt pc s = ChildInv pc s.uid_written s.gid_written s.owned s.lo s.filter s.ready s.go

not_empty : (p : Pipe) → close p ≢ open_empty
not_empty open_empty e = cc
not_empty full e = cc
not_empty closed e = cc

after_failure :
    {sni : Bool} (s : System)
    → IsLaunch sni s
    → IsLaunch sni (record s { child = refused; ready = close s.ready })
after_failure s i = record {
  sni_inv = i.sni_inv;
  child_inv = not_empty s.ready;
  parent_inv = i.parent_inv;
  route_inv = i.route_inv;
}

module _ {sni : Bool} (s : System) (i : IsLaunch sni s) where
  child_to :
      (pc : ChildPc) (uid gid owned lo filter : Bool) (ready : Pipe)
      → ChildInv pc uid gid owned lo filter ready s.go
      → IsLaunch sni (record s {
        child = pc;
        uid_written = uid;
        gid_written = gid;
        owned = owned;
        lo = lo;
        filter = filter;
        ready = ready;
      })
  child_to pc uid gid owned lo filter ready h = record {
    sni_inv = i.sni_inv;
    child_inv = h;
    parent_inv = i.parent_inv;
    route_inv = i.route_inv;
  }

  outcome : (o : Outcome) (t : System) → IsLaunch sni t → IsLaunch sni (child_does o s t)
  outcome fine t j = j
  outcome fails t j = after_failure s i

  child_reads_at :
      (o : Outcome) (p : Pipe) → s.go ≡ p → ChildAt signalled s → IsLaunch sni (child_reads o p s)
  child_reads_at fine open_empty e h = i
  child_reads_at fails open_empty e h = after_failure s i
  child_reads_at o full e h = outcome o _ (child_to released _ _ _ _ _ _ (h.0, h.1, h.2, e))
  child_reads_at o closed e h = after_failure s i

  child_waits_at : (o : Outcome) (r : Bool) → ChildAt released s → IsLaunch sni (child_waits o r s)
  child_waits_at o true h = child_to routed _ _ _ _ _ _ h
  child_waits_at o false h = outcome o s i

  pub child_at : (pc : ChildPc) (o : Outcome) → ChildAt pc s → IsLaunch sni (child_step_at pc o s)
  unfolding child_step_at
  child_at forked o h = outcome o _ (child_to userns _ _ _ _ _ _ h)
  child_at userns o h = outcome o _ (child_to setgroups _ _ _ _ _ _ h)
  child_at setgroups o h = outcome o _ (child_to uid_map true _ _ _ _ _ (refl, h))
  child_at uid_map o h = outcome o _ (child_to gid_map _ true _ _ _ _ (h.0, refl, h.1))
  child_at gid_map o h = outcome o _ (child_to netns _ _ _ _ _ _ (rw h.0 h.1, h.2))
  child_at netns o h = outcome o _ (child_to lo_up _ _ _ true _ _ (h.0, refl, h.1))
  child_at lo_up o h = outcome o _ (child_to filtered _ _ _ _ true _ (h.0, h.1, refl, h.2))
  child_at filtered o h = outcome o _ (child_to signalled _ _ _ _ _ full (h.0, h.1, h.2, refl))
  child_at signalled o h = child_reads_at o s.go refl h
  child_at released o h = child_waits_at o s.route h
  child_at routed o h = i
  child_at refused o h = i
