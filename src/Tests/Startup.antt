-- ===== src/Tests/Startup.antt =====
-- src/netns.rs: launches, call by call; and what the proxy gives up and copies.
use basta.Prelude.{ℕ, ◌≡◌, refl, ◌≢◌, inl, Bool, true, false, List, [], ◌∷◌, ◌++◌, leb}
use basta.Prelude.{Result, ok, err}
use basta.Netns.Startup.{
  ChildPc, refused, released, routed, signalled, aborted, unsent, open_empty, fine, fails, Event,
  child_calls, parent_calls, route_appears, pasta_exits, step, run, launch, alive,
}
use basta.Netns.Startup.Invariant.{is_gone}
use basta.Netns.Startup.Exec.{IsGuarded, exec-IsGuarded}
use basta.Netns.Startup.Progress.{launch_fails_closed, no_process_left, child_wait_ends}
use basta.SniProxy.Service.{
  drop_cap_bounding_set_except_net_admin, connects, ends, arrive_all, Arrival,
}
use basta.SniProxy.Service.Capabilities.{IsBounded, bounding_set_exact}
use basta.SniProxy.Service.Connections.{IsServing, connections_bounded}
use basta.SniProxy.Service.Copying.{
  Turn, got, quiet, other, pipe, ended, idle, IsIdle, pipe_idle_sound,
}

-- The child up to its signal, and the parent up to the proxy.
abbrev filtered_child : List Event
filtered_child =
    child_calls fine
    ∷ child_calls fine
    ∷ child_calls fine
    ∷ child_calls fine
    ∷ child_calls fine
    ∷ child_calls fine
    ∷ child_calls fine
    ∷ child_calls fine
    ∷ []

abbrev supported_launch : List Event
supported_launch =
    filtered_child
    ++ parent_calls fine
      ∷ parent_calls fine
      ∷ parent_calls fine
      ∷ route_appears
      ∷ parent_calls fine
      ∷ parent_calls fine
      ∷ parent_calls fine
      ∷ parent_calls fine
      ∷ child_calls fine
      ∷ []

abbrev failed_launch : List Event
failed_launch =
    filtered_child ++ parent_calls fine ∷ parent_calls fine ∷ pasta_exits ∷ parent_calls fine ∷ []

released_run : (run supported_launch (launch true)).child ≡ released
unfolding run launch
released_run = refl

routed_run : (step (child_calls fine) (run supported_launch (launch true))).child ≡ routed
unfolding step run launch
routed_run = refl

not_yet : {pc : ChildPc} → pc ≡ released → pc ≢ routed
not_yet a b = cc

exec-IsGuarded_example : IsGuarded true (run supported_launch (launch true))
exec-IsGuarded_example =
    exec-IsGuarded true supported_launch (child_calls fine) (not_yet released_run) routed_run

aborted_run : (run failed_launch (launch true)).parent ≡ aborted
unfolding run launch
aborted_run = refl

-- The child behind a parent that has failed.
refused_run : (run (child_calls fine ∷ []) (run failed_launch (launch true))).child ≡ refused
unfolding run launch
refused_run = refl

-- A child that dies before its release leaves pasta running.
abbrev lost_child : List Event
lost_child =
    filtered_child
    ++ child_calls fails
      ∷ parent_calls fine
      ∷ parent_calls fine
      ∷ parent_calls fine
      ∷ parent_calls fine
      ∷ parent_calls fine
      ∷ []

unsent_run : (run lost_child (launch false)).parent ≡ unsent
unfolding run launch
unsent_run = refl

left_run : (run lost_child (launch false)).pasta ≡ alive
unfolding run launch
left_run = refl

launch_fails_closed_example :
    (run (child_calls fine ∷ []) (run failed_launch (launch true))).child ≢ routed
launch_fails_closed_example =
    launch_fails_closed true failed_launch (child_calls fine ∷ []) (inl aborted_run)

no_process_left_example :
    (is_gone (run failed_launch (launch true)).pasta ≡ true)
    × (is_gone (run failed_launch (launch true)).proxy ≡ true)
no_process_left_example = no_process_left true failed_launch (inl aborted_run)

signalled_run : (run filtered_child (launch true)).child ≡ signalled
unfolding run launch
signalled_run = refl

empty_run : (run filtered_child (launch true)).go ≡ open_empty
unfolding run launch
empty_run = refl

child_wait_ends_example :
    (step (parent_calls fine) (run filtered_child (launch true))).parent
    ≢ (run filtered_child (launch true)).parent
child_wait_ends_example = child_wait_ends true filtered_child signalled_run empty_run

-- A kernel that knows the capabilities up to 40.
abbrev known_caps : ℕ → Bool
known_caps k = leb k 40

abbrev kept_caps : Result (ℕ → Bool)
kept_caps = drop_cap_bounding_set_except_net_admin known_caps known_caps

abbrev or_nothing : Result (ℕ → Bool) → ℕ → Bool
or_nothing (ok set) = set
or_nothing (err e) = λ k. false

caps_run : kept_caps ≡ ok (or_nothing kept_caps)
unfolding drop_cap_bounding_set_except_net_admin
caps_run = refl

bounding_set_exact_example : IsBounded known_caps known_caps kept_caps
bounding_set_exact_example = bounding_set_exact known_caps known_caps

abbrev some_arrivals : List Arrival
some_arrivals = connects ∷ connects ∷ ends ∷ []

connections_bounded_example : IsServing (arrive_all some_arrivals (record { active = 0; live = 0 }))
connections_bounded_example = connections_bounded some_arrivals

abbrev turns : List Turn
turns = got 10 (1 ∷ 2 ∷ []) true ∷ quiet 70 ∷ other 100 ∷ quiet 1901 ∷ []

idle_run : pipe 0 turns ≡ ended idle (1 ∷ 2 ∷ [])
unfolding pipe
idle_run = refl

pipe_idle_sound_example : IsIdle 0 turns
pipe_idle_sound_example = pipe_idle_sound 0 turns (1 ∷ 2 ∷ []) idle_run
