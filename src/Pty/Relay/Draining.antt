-- ===== src/Pty/Relay/Draining.antt =====
-- src/pty.rs, `relay`: nothing that the sandbox writes is lost but behind a hangup.
use basta.Prelude.{
  ◌≡◌, refl, sym, ap, ◌∙◌, Bool, true, false, Option, none, some, List, [], ◌∷◌, ◌++◌, append_assoc,
  append-nil, subst, if◌then◌else◌, take, drop, take-append-drop, Bytes,
}
use basta.Pty.Relay.{
  MasterRead, Read, RelayRound, Relay, Step, read_count, from_master, from_stdin, then_step, arrive,
  relay_round, relay, start, pty_eof, pty_eio, pty_again, pty_broken, pty_bytes, eof, again, broken,
  bytes, no_poll, poll_fails, ready, goes, breaks, errs,
}

abbrev sent_in : RelayRound → Bytes
sent_in no_poll = []
sent_in poll_fails = []
sent_in (ready sent master stdin shows types hup) = sent

-- Everything that the sandbox writes.
abbrev pub all_sent : List RelayRound → Bytes
all_sent [] = []
all_sent (x ∷ xs) = sent_in x ++ all_sent xs

-- Of these bytes, what has been shown comes first, what is unread next, and behind a break or an error
-- some that the loop has not come to.
abbrev pub IsRelayed : Bytes → Step → Type 0
IsRelayed all (goes r) = r.shown ++ r.unread ≡ all
IsRelayed all (breaks r) = (rest : Bytes) × (r.shown ++ (r.unread ++ rest) ≡ all)
IsRelayed all (errs r) = (rest : Bytes) × (r.shown ++ rest ≡ all)

-- The same of one step of a round.
abbrev StepKeeps : Bytes → Step → Type 0
StepKeeps all (goes r) = r.shown ++ r.unread ≡ all
StepKeeps all (breaks r) = r.shown ++ r.unread ≡ all
StepKeeps all (errs r) = (rest : Bytes) × (r.shown ++ rest ≡ all)

then_step-StepKeeps :
    (all : Bytes) (s : Step) (f : Relay → Step)
    → StepKeeps all s
    → ((r : Relay) → r.shown ++ r.unread ≡ all → StepKeeps all (f r))
    → StepKeeps all (then_step s f)
then_step-StepKeeps all (goes r) f h k = k r h
then_step-StepKeeps all (breaks r) f h k = h
then_step-StepKeeps all (errs r) f h k = h

from_master-StepKeeps :
    (m : Option MasterRead) (w : Bool) (r : Relay)
    → StepKeeps (r.shown ++ r.unread) (from_master m w r)
unfolding from_master
from_master-StepKeeps none w r = refl
from_master-StepKeeps (some pty_eof) w r = refl
from_master-StepKeeps (some pty_eio) w r = refl
from_master-StepKeeps (some pty_again) w r = refl
from_master-StepKeeps (some pty_broken) w r = (r.unread, refl)
from_master-StepKeeps (some (pty_bytes n)) false r = (r.unread, refl)
from_master-StepKeeps (some (pty_bytes n)) true r =
    append_assoc r.shown (take (read_count n) r.unread) (drop (read_count n) r.unread)
    ∙ ap (λ x. r.shown ++ x) (take-append-drop (read_count n) r.unread)

from_stdin-StepKeeps :
    (i : Option Read) (w : Bool) (r : Relay) → StepKeeps (r.shown ++ r.unread) (from_stdin i w r)
unfolding from_stdin
from_stdin-StepKeeps none w r = refl
from_stdin-StepKeeps (some eof) w r = refl
from_stdin-StepKeeps (some again) w r = refl
from_stdin-StepKeeps (some broken) w r = (r.unread, refl)
from_stdin-StepKeeps (some (bytes b)) true r = refl
from_stdin-StepKeeps (some (bytes b)) false r = (r.unread, refl)

relay_round-StepKeeps :
    (x : RelayRound) (r : Relay) → StepKeeps (r.shown ++ (r.unread ++ sent_in x)) (relay_round x r)
unfolding relay_round
relay_round-StepKeeps no_poll r = ap (λ u. r.shown ++ u) (sym (append-nil r.unread))
relay_round-StepKeeps poll_fails r = (r.unread, ap (λ u. r.shown ++ u) (sym (append-nil r.unread)))
relay_round-StepKeeps (ready sent m i shows types hup) r =
    let all = r.shown ++ (r.unread ++ sent) in
    then_step-StepKeeps all (from_master m shows (arrive sent r)) _
      (from_master-StepKeeps m shows (arrive sent r))
      (λ r' h.
        then_step-StepKeeps all (if r'.stdin_open then from_stdin i types r' else goes r') _
          (subst (λ b. StepKeeps b (if r'.stdin_open then from_stdin i types r' else goes r')) h
            (typing r'.stdin_open r'))
          (λ r'' h'. hangs hup r'' h'))
  where
    typing :
        (b : Bool) (q : Relay)
        → StepKeeps (q.shown ++ q.unread) (if b then from_stdin i types q else goes q)
    typing true q = from_stdin-StepKeeps i types q
    typing false q = refl

    hangs :
        (b : Bool) (q : Relay)
        → q.shown ++ q.unread ≡ r.shown ++ (r.unread ++ sent)
        → StepKeeps (r.shown ++ (r.unread ++ sent)) (if b then breaks q else goes q)
    hangs true q h = h
    hangs false q h = h

-- The rounds behind a step.
then_rounds :
    (all rest : Bytes) (s : Step) (f : Relay → Step)
    → StepKeeps all s
    → ((r : Relay) → IsRelayed (r.shown ++ (r.unread ++ rest)) (f r))
    → IsRelayed (all ++ rest) (then_step s f)
then_rounds all rest (goes r) f h k =
    subst (λ b. IsRelayed b (f r))
      (sym (append_assoc r.shown r.unread rest) ∙ ap (λ b. b ++ rest) h) (k r)
then_rounds all rest (breaks r) f h k =
    (rest, sym (append_assoc r.shown r.unread rest) ∙ ap (λ b. b ++ rest) h)
then_rounds all rest (errs r) f (lost, h) k =
    (lost ++ rest, sym (append_assoc r.shown lost rest) ∙ ap (λ b. b ++ rest) h)

relay-from :
    (xs : List RelayRound) (r : Relay)
    → IsRelayed (r.shown ++ (r.unread ++ all_sent xs)) (relay xs r)
unfolding relay
relay-from [] r = ap (λ u. r.shown ++ u) (sym (append-nil r.unread))
relay-from (x ∷ xs) r =
    subst (λ b. IsRelayed b (then_step (relay_round x r) (relay xs)))
      (append_assoc r.shown (r.unread ++ sent_in x) (all_sent xs)
        ∙ ap (λ u. r.shown ++ u) (append_assoc r.unread (sent_in x) (all_sent xs)))
      (then_rounds (r.shown ++ (r.unread ++ sent_in x)) (all_sent xs) (relay_round x r) (relay xs)
        (relay_round-StepKeeps x r) (relay-from xs))

-- In every sequence of rounds, whatever `poll`, the reads and the writes answer, `relay` shows a
-- beginning of what the sandbox writes, in order and without a gap. While it goes on, the rest is what
-- nobody has read yet; when the pty ends or hangs up, the rest is what was unread then and what comes
-- later; behind an error it is only known that what was shown is a beginning.
pub relay-IsRelayed : (xs : List RelayRound) → IsRelayed (all_sent xs) (relay xs start)
unfolding start
relay-IsRelayed xs = relay-from xs start
