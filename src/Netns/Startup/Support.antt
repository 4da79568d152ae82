-- ===== src/Netns/Startup/Support.antt =====
-- src/netns.rs, `parent_spawn_support`: the support processes through any sequence of calls.
use basta.Prelude.{◌≡◌, refl, sym, ap, subst, ◌≢◌, Bool, true, false, not, ◌||◌, if◌then◌else◌}
use basta.Netns.Startup.{
  ChildPc, forked, userns, setgroups, uid_map, gid_map, netns, lo_up, filtered, signalled, released,
  routed, refused, ParentPc, reading, ready_seen, pasta_spawned, pasta_checked, proxy_spawned,
  proxy_told, supported, handed, finished, aborted, unsent, unwritten, Pipe, open_empty, full,
  closed, Proc, absent, alive, exited, reaped, System, Outcome, fine, fails, parent_step_at, kill,
  close, parent_reads, parent_stops, kill_all, spawn_pasta, check_pasta, spawn_proxy, tell_proxy,
  await_proxy, write_go, has_reader,
}
use basta.Netns.Startup.Invariant.{is_gone, is_alive, ChildInv, ParentInv, IsLaunch}

-- The `go` pipe changes only while the child does not yet hold its byte.
same_child :
    (pc : ChildPc) (uid gid owned lo filter : Bool) (ready go go' : Pipe)
    → go ≢ full
    → ChildInv pc uid gid owned lo filter ready go
    → ChildInv pc uid gid owned lo filter ready go'
same_child forked uid gid owned lo filter ready go go' n h = h
same_child userns uid gid owned lo filter ready go go' n h = h
same_child setgroups uid gid owned lo filter ready go go' n h = h
same_child uid_map uid gid owned lo filter ready go go' n h = h
same_child gid_map uid gid owned lo filter ready go go' n h = h
same_child netns uid gid owned lo filter ready go go' n h = h
same_child lo_up uid gid owned lo filter ready go go' n h = h
same_child filtered uid gid owned lo filter ready go go' n h = h
same_child signalled uid gid owned lo filter ready go go' n h = h
same_child released uid gid owned lo filter ready go go' n h = absurd (n h.3)
same_child routed uid gid owned lo filter ready go go' n h = absurd (n h.3)
same_child refused uid gid owned lo filter ready go go' n h = h

empty-ne-full : (p : Pipe) → p ≡ open_empty → p ≢ full
empty-ne-full p e f = cc

close_empty : (p : Pipe) → p ≡ open_empty → close p ≡ closed
close_empty p e = rw e refl

kill-gone : (p : Proc) → is_gone (kill p) ≡ true
kill-gone absent = refl
kill-gone alive = refl
kill-gone exited = refl
kill-gone reaped = refl

abbrev pub ParentAt : ParentPc → System → Type 0
ParentAt pc s = ParentInv pc s.sni s.listening s.go s.pasta s.proxy

module _ {sni : Bool} (s : System) (i : IsLaunch sni s) where
  -- A step of the parent that leaves the `go` pipe alone.
  parent_to :
      (pc : ParentPc) (pasta proxy : Proc) (route listening : Bool)
      → ParentInv pc s.sni listening s.go pasta proxy
      → (not route || is_alive pasta) ≡ true
      → IsLaunch sni (record s {
        parent = pc;
        pasta = pasta;
        proxy = proxy;
        route = route;
        listening = listening;
      })
  parent_to pc pasta proxy route listening h r = record {
    sni_inv = i.sni_inv;
    child_inv = i.child_inv;
    parent_inv = h;
    route_inv = r;
  }

  -- One that closes it or writes to it.
  parent_says :
      (pc : ParentPc) (go : Pipe) (pasta proxy : Proc) (route : Bool)
      → s.go ≡ open_empty
      → ParentInv pc s.sni s.listening go pasta proxy
      → (not route || is_alive pasta) ≡ true
      → IsLaunch sni
          (record s { parent = pc; go = go; pasta = pasta; proxy = proxy; route = route })
  parent_says pc go pasta proxy route e h r = record {
    sni_inv = i.sni_inv;
    child_inv = same_child s.child _ _ _ _ _ _ s.go go (empty-ne-full s.go e) i.child_inv;
    parent_inv = h;
    route_inv = r;
  }

  -- An error before the release, with or without a clean-up.
  stops :
      (pc : ParentPc)
      → s.go ≡ open_empty
      → ParentInv pc s.sni s.listening closed s.pasta s.proxy
      → IsLaunch sni (parent_stops pc s)
  stops pc e h =
      parent_says pc (close s.go) s.pasta s.proxy s.route e
        (subst (λ g. ParentInv pc s.sni s.listening g s.pasta s.proxy) (sym (close_empty s.go e)) h)
        i.route_inv

  stops_at :
      (pc : ParentPc) (pasta proxy : Proc)
      → s.go ≡ open_empty
      → ParentInv pc s.sni s.listening closed pasta proxy
      → IsLaunch sni (parent_stops pc (record s { pasta = pasta; proxy = proxy; route = false }))
  stops_at pc pasta proxy e h =
      parent_says pc (close s.go) pasta proxy false e
        (subst (λ g. ParentInv pc s.sni s.listening g pasta proxy) (sym (close_empty s.go e)) h)
        refl

  quits : ParentAt reading s → IsLaunch sni (parent_stops aborted s)
  quits (e, a, b) = stops aborted e (refl, ap is_gone a, ap is_gone b)

  parent_reads_at :
      (o : Outcome) (p : Pipe) → ParentAt reading s → IsLaunch sni (parent_reads o p s)
  parent_reads_at o open_empty h = i
  parent_reads_at fine full h = parent_to ready_seen _ _ _ _ h i.route_inv
  parent_reads_at fails full h = quits h
  parent_reads_at o closed h = quits h

  spawn_pasta_at : (o : Outcome) → ParentAt ready_seen s → IsLaunch sni (spawn_pasta o s)
  spawn_pasta_at fine h = parent_to pasta_spawned alive _ false _ (h.0, refl, h.2) refl
  spawn_pasta_at fails h = quits h

  check_pasta_at :
      (o : Outcome) (p : Proc)
      → s.pasta ≡ p
      → ParentAt pasta_spawned s
      → IsLaunch sni (check_pasta o p s)
  check_pasta_at fine exited e h =
      stops_at aborted (kill s.pasta) (kill s.proxy) h.0
        (refl, kill-gone s.pasta, kill-gone s.proxy)
  check_pasta_at fails exited e h = parent_to pasta_checked _ _ _ _ h i.route_inv
  check_pasta_at o absent e h = parent_to pasta_checked _ _ _ _ h i.route_inv
  check_pasta_at o alive e h = parent_to pasta_checked _ _ _ _ h i.route_inv
  check_pasta_at o reaped e h = parent_to pasta_checked _ _ _ _ h i.route_inv

  started_any : (b : Bool) → (not b || true) ≡ true
  started_any true = refl
  started_any false = refl

  cleans : s.go ≡ open_empty → IsLaunch sni (parent_stops aborted (kill_all s))
  cleans e =
      stops_at aborted (kill s.pasta) (kill s.proxy) e (refl, kill-gone s.pasta, kill-gone s.proxy)

  spawn_proxy_at : (o : Outcome) → ParentAt pasta_checked s → IsLaunch sni (spawn_proxy o s)
  spawn_proxy_at fine h = parent_to proxy_spawned _ alive _ _ h.0 i.route_inv
  spawn_proxy_at fails h = cleans h.0

  tell_proxy_at : (o : Outcome) → ParentAt proxy_spawned s → IsLaunch sni (tell_proxy o s)
  tell_proxy_at fine h = parent_to proxy_told _ _ _ _ h i.route_inv
  tell_proxy_at fails h = stops_at unwritten (kill s.pasta) s.proxy h (refl, kill-gone s.pasta)

  await_proxy_at :
      (o : Outcome) (p : Proc) (r : Bool)
      → ParentAt proxy_told s
      → IsLaunch sni (await_proxy o p r s)
  await_proxy_at fine alive true h =
      parent_to supported _ _ _ true (h, started_any s.sni) i.route_inv
  await_proxy_at fine alive false h = cleans h
  await_proxy_at fine absent r h = cleans h
  await_proxy_at fine exited r h = cleans h
  await_proxy_at fine reaped r h = cleans h
  await_proxy_at fails p r h = cleans h

  checked_at :
      (b : Bool) (o : Outcome)
      → s.sni ≡ b
      → ParentAt pasta_checked s
      → IsLaunch sni (if b then spawn_proxy o s else record s { parent = supported })
  checked_at true o e h = spawn_proxy_at o h
  checked_at false o e h = parent_to supported _ _ _ _ (h.0, rw e refl) i.route_inv

  write_go_at : (o : Outcome) (b : Bool) → ParentAt supported s → IsLaunch sni (write_go o b s)
  write_go_at fine true h = parent_says handed full _ _ _ h.0 (refl, h.1) i.route_inv
  write_go_at fine false h = stops unsent h.0 refl
  write_go_at fails b h = stops unsent h.0 refl

  pub parent_at :
      (pc : ParentPc) (o : Outcome) → ParentAt pc s → IsLaunch sni (parent_step_at pc o s)
  unfolding parent_step_at
  parent_at reading o h = parent_reads_at o s.ready h
  parent_at ready_seen o h = spawn_pasta_at o h
  parent_at pasta_spawned o h = check_pasta_at o s.pasta refl h
  parent_at pasta_checked o h = checked_at s.sni o refl h
  parent_at proxy_spawned o h = tell_proxy_at o h
  parent_at proxy_told o h = await_proxy_at o s.proxy s.route h
  parent_at supported o h = write_go_at o (has_reader s.child) h
  parent_at handed o h =
      parent_to finished (kill s.pasta) (kill s.proxy) false _
        (h.0, h.1, kill-gone s.pasta, kill-gone s.proxy) refl
  parent_at finished o h = i
  parent_at aborted o h = i
  parent_at unsent o h = i
  parent_at unwritten o h = i
