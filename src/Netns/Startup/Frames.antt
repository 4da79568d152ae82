-- ===== src/Netns/Startup/Frames.antt =====
-- src/netns.rs: what a call of the one process leaves alone in the other.
use basta.Prelude.{◌≡◌, refl, Bool, true, false, if◌then◌else◌}
use basta.Netns.Startup.{
  ChildPc, forked, userns, setgroups, uid_map, gid_map, netns, lo_up, filtered, signalled, released,
  routed, refused, ParentPc, reading, ready_seen, pasta_spawned, pasta_checked, proxy_spawned,
  proxy_told, supported, handed, finished, aborted, unsent, unwritten, Pipe, open_empty, full,
  closed, Proc, absent, alive, exited, reaped, System, Outcome, fine, fails, child_step_at,
  parent_step_at, child_does, child_reads, child_waits, has_reader, parent_reads, check_pasta,
  spawn_proxy, await_proxy, write_go,
}

-- No call of the parent moves the child.
pub parent_child :
    (pc : ParentPc) (o : Outcome) (s : System) → (parent_step_at pc o s).child ≡ s.child
unfolding parent_step_at
parent_child reading o s = reads o s.ready
  where
    reads : (o : Outcome) (p : Pipe) → (parent_reads o p s).child ≡ s.child
    reads o open_empty = refl
    reads fine full = refl
    reads fails full = refl
    reads o closed = refl
parent_child ready_seen fine s = refl
parent_child ready_seen fails s = refl
parent_child pasta_spawned o s = checks o s.pasta
  where
    checks : (o : Outcome) (p : Proc) → (check_pasta o p s).child ≡ s.child
    checks fine exited = refl
    checks fails exited = refl
    checks o absent = refl
    checks o alive = refl
    checks o reaped = refl
parent_child pasta_checked o s = proxies s.sni o
  where
    proxies :
        (b : Bool) (o : Outcome)
        → (if b then spawn_proxy o s else record s { parent = supported }).child ≡ s.child
    proxies true fine = refl
    proxies true fails = refl
    proxies false o = refl
parent_child proxy_spawned fine s = refl
parent_child proxy_spawned fails s = refl
parent_child proxy_told o s = awaits o s.proxy s.route
  where
    awaits : (o : Outcome) (p : Proc) (r : Bool) → (await_proxy o p r s).child ≡ s.child
    awaits fine alive true = refl
    awaits fine alive false = refl
    awaits fine absent r = refl
    awaits fine exited r = refl
    awaits fine reaped r = refl
    awaits fails p r = refl
parent_child supported o s = writes o (has_reader s.child)
  where
    writes : (o : Outcome) (b : Bool) → (write_go o b s).child ≡ s.child
    writes fine true = refl
    writes fine false = refl
    writes fails b = refl
parent_child handed o s = refl
parent_child finished o s = refl
parent_child aborted o s = refl
parent_child unsent o s = refl
parent_child unwritten o s = refl

does_parent :
    (o : Outcome) (s t : System) → t.parent ≡ s.parent → (child_does o s t).parent ≡ s.parent
does_parent fine s t e = e
does_parent fails s t e = refl

-- No call of the child moves the parent.
pub child_parent :
    (pc : ChildPc) (o : Outcome) (s : System) → (child_step_at pc o s).parent ≡ s.parent
unfolding child_step_at
child_parent forked o s = does_parent o s _ refl
child_parent userns o s = does_parent o s _ refl
child_parent setgroups o s = does_parent o s _ refl
child_parent uid_map o s = does_parent o s _ refl
child_parent gid_map o s = does_parent o s _ refl
child_parent netns o s = does_parent o s _ refl
child_parent lo_up o s = does_parent o s _ refl
child_parent filtered o s = does_parent o s _ refl
child_parent signalled o s = reads o s.go
  where
    reads : (o : Outcome) (p : Pipe) → (child_reads o p s).parent ≡ s.parent
    reads fine open_empty = refl
    reads fails open_empty = refl
    reads o full = does_parent o s _ refl
    reads o closed = refl
child_parent released o s = waits s.route
  where
    waits : (r : Bool) → (child_waits o r s).parent ≡ s.parent
    waits true = refl
    waits false = does_parent o s s refl
child_parent routed o s = refl
child_parent refused o s = refl
