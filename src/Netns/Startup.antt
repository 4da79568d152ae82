-- ===== src/Netns/Startup.antt =====
-- src/netns.rs, `child_unshare_filter_wait` and `parent_spawn_support`, and the part of `pty::run` that
-- holds the support processes: the two processes of a launch, one system call at a time, in any order.
pub mod Invariant
pub mod Support
pub mod Reach
pub mod Frames
pub mod Exec
pub mod Progress
use basta.Prelude.{zero, suc, Bool, true, false, ◌&&◌, List, [], ◌∷◌, arith, if◌then◌else◌}

-- What the child has done: each constructor is named for the last call that succeeded.
pub data ChildPc : Type 0 where
  forked userns setgroups uid_map gid_map netns lo_up filtered signalled released routed : ChildPc
  refused : ChildPc

-- The same for the parent; it stops in `aborted` where it has cleaned up, in `unsent` where its write
-- to the `go` pipe fails, and in `unwritten` where its write to the proxy fails.
pub data ParentPc : Type 0 where
  reading ready_seen pasta_spawned pasta_checked proxy_spawned proxy_told : ParentPc
  supported handed finished : ParentPc
  aborted unsent unwritten : ParentPc

-- A pipe holds nothing, or the one byte, or has lost its writer.
pub data Pipe : Type 0 where
  open_empty full closed : Pipe

pub data Proc : Type 0 where
  absent alive exited reaped : Proc

pub record System : Type 0 where
  pub sni : Bool
  pub child : ChildPc
  pub parent : ParentPc
  pub ready : Pipe
  pub go : Pipe
  pub uid_written : Bool
  pub gid_written : Bool
  -- The network namespace belongs to a user namespace that has both maps.
  pub owned : Bool
  pub lo : Bool
  pub filter : Bool
  pub pasta : Proc
  pub proxy : Proc
  -- The parent has read `LISTENING` from the proxy.
  pub listening : Bool
  pub route : Bool

-- How a call ends.
pub data Outcome : Type 0 where
  fine fails : Outcome

pub data Event : Type 0 where
  child_calls parent_calls : Outcome → Event
  pasta_exits proxy_exits route_appears : Event

-- A writer that goes away leaves a byte that it has written.
abbrev pub close : Pipe → Pipe
close open_empty = closed
close full = full
close closed = closed

abbrev pub child_fails : System → System
child_fails s = record s { child = refused; ready = close s.ready }

abbrev pub child_does : Outcome → System → System → System
child_does fine s t = t
child_does fails s t = child_fails s

-- `read` on the `go` pipe; one that waits can be interrupted, which is an error.
abbrev pub child_reads : Outcome → Pipe → System → System
child_reads fine open_empty s = s
child_reads fails open_empty s = child_fails s
child_reads o full s = child_does o s (record s { child = released })
child_reads o closed s = child_fails s

-- A round of `wait_for_default_route`; the call fails when its deadline is over.
abbrev pub child_waits : Outcome → Bool → System → System
child_waits o true s = record s { child = routed }
child_waits o false s = child_does o s s

pub child_step_at : ChildPc → Outcome → System → System
child_step_at forked o s = child_does o s (record s { child = userns })
child_step_at userns o s = child_does o s (record s { child = setgroups })
child_step_at setgroups o s = child_does o s (record s { child = uid_map; uid_written = true })
child_step_at uid_map o s = child_does o s (record s { child = gid_map; gid_written = true })
child_step_at gid_map o s =
    child_does o s (record s { child = netns; owned = s.uid_written && s.gid_written })
child_step_at netns o s = child_does o s (record s { child = lo_up; lo = true })
child_step_at lo_up o s = child_does o s (record s { child = filtered; filter = true })
child_step_at filtered o s = child_does o s (record s { child = signalled; ready = full })
child_step_at signalled o s = child_reads o s.go s
child_step_at released o s = child_waits o s.route s
child_step_at routed o s = s
child_step_at refused o s = s

-- `child_unshare_filter_wait`, one call.
unfoldable pub child_step : Outcome → System → System
unfolding child_step_at
child_step o s = child_step_at s.child o s

-- `kill` and `wait`. The default route goes with pasta, which holds the interface.
abbrev kill : Proc → Proc
kill absent = absent
kill alive = reaped
kill exited = reaped
kill reaped = reaped

abbrev kill_all : System → System
kill_all s = record s { pasta = kill s.pasta; proxy = kill s.proxy; route = false }

-- The parent returns an error, and the closure that holds the `go` pipe is dropped.
abbrev parent_stops : ParentPc → System → System
parent_stops pc s = record s { parent = pc; go = close s.go }

abbrev parent_reads : Outcome → Pipe → System → System
parent_reads o open_empty s = s
parent_reads fine full s = record s { parent = ready_seen }
parent_reads fails full s = parent_stops aborted s
parent_reads o closed s = parent_stops aborted s

abbrev spawn_pasta : Outcome → System → System
spawn_pasta fine s = record s { parent = pasta_spawned; pasta = alive; route = false }
spawn_pasta fails s = parent_stops aborted s

-- `pasta_died_early` sees an exit, unless the wait fails.
abbrev check_pasta : Outcome → Proc → System → System
check_pasta fine exited s = parent_stops aborted (kill_all s)
check_pasta fails exited s = record s { parent = pasta_checked }
check_pasta o absent s = record s { parent = pasta_checked }
check_pasta o alive s = record s { parent = pasta_checked }
check_pasta o reaped s = record s { parent = pasta_checked }

-- `spawn_sni_proxy`, its first call; the error kills pasta.
abbrev spawn_proxy : Outcome → System → System
spawn_proxy fine s = record s { parent = proxy_spawned; proxy = alive }
spawn_proxy fails s = parent_stops aborted (kill_all s)

-- The write of its configuration; the error leaves it behind.
abbrev tell_proxy : Outcome → System → System
tell_proxy fine s = record s { parent = proxy_told }
tell_proxy fails s = parent_stops unwritten (record s { pasta = kill s.pasta; route = false })

-- The wait for its line: it reports `LISTENING` only while it runs and has the default route. Without
-- the line it is killed and waited for, and pasta is too.
abbrev await_proxy : Outcome → Proc → Bool → System → System
await_proxy fine alive true s = record s { parent = supported; listening = true }
await_proxy fine alive false s = parent_stops aborted (kill_all s)
await_proxy fine absent r s = parent_stops aborted (kill_all s)
await_proxy fine exited r s = parent_stops aborted (kill_all s)
await_proxy fine reaped r s = parent_stops aborted (kill_all s)
await_proxy fails p r s = parent_stops aborted (kill_all s)

abbrev has_reader : ChildPc → Bool
has_reader refused = false
has_reader pc = true

-- The write to the `go` pipe; it fails when the child is gone.
abbrev write_go : Outcome → Bool → System → System
write_go fine true s = record s { parent = handed; go = full }
write_go fine false s = parent_stops unsent s
write_go fails r s = parent_stops unsent s

pub parent_step_at : ParentPc → Outcome → System → System
parent_step_at reading o s = parent_reads o s.ready s
parent_step_at ready_seen o s = spawn_pasta o s
parent_step_at pasta_spawned o s = check_pasta o s.pasta s
parent_step_at pasta_checked o s =
    if s.sni then spawn_proxy o s else record s { parent = supported }
parent_step_at proxy_spawned o s = tell_proxy o s
parent_step_at proxy_told o s = await_proxy o s.proxy s.route s
parent_step_at supported o s = write_go o (has_reader s.child) s
parent_step_at handed o s = record (kill_all s) { parent = finished }
parent_step_at finished o s = s
parent_step_at aborted o s = s
parent_step_at unsent o s = s
parent_step_at unwritten o s = s

-- `parent_spawn_support`, one call; from `handed` on `StackGuard` of `pty::run` holds the processes.
unfoldable pub parent_step : Outcome → System → System
unfolding parent_step_at
parent_step o s = parent_step_at s.parent o s

abbrev dies : Proc → Proc
dies absent = absent
dies alive = exited
dies exited = exited
dies reaped = reaped

-- pasta installs the default route while it runs.
abbrev installs : Proc → Bool → Bool
installs alive r = true
installs absent r = false
installs exited r = false
installs reaped r = false

unfoldable pub step : Event → System → System
unfolding child_step parent_step
step (child_calls o) s = child_step o s
step (parent_calls o) s = parent_step o s
step pasta_exits s = record s { pasta = dies s.pasta; route = false }
step proxy_exits s = record s { proxy = dies s.proxy }
step route_appears s = record s { route = installs s.pasta s.route }

unfoldable pub run : List Event → System → System
unfolding step
run [] s = s
run (e ∷ es) s = run es (step e s)

unfoldable pub launch : Bool → System
launch sni = record {
  sni = sni;
  child = forked;
  parent = reading;
  ready = open_empty;
  go = open_empty;
  uid_written = false;
  gid_written = false;
  owned = false;
  lo = false;
  filter = false;
  pasta = absent;
  proxy = absent;
  listening = false;
  route = false;
}
