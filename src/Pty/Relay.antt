-- ===== src/Pty/Relay.antt =====
-- src/pty.rs, `relay`: the bytes between the terminal and the sandbox.
pub mod Draining
use basta.Prelude.{
  arith, ℕ, zero, suc, Bool, true, false, Option, none, some, List, [], ◌∷◌, ◌++◌, leb,
  if◌then◌else◌, take, drop, Bytes,
}

-- What `read` of the pty answers: the end, so many bytes, EIO, EINTR, or another error.
pub data MasterRead : Type 0 where
  pty_eof pty_eio pty_again pty_broken : MasterRead
  pty_bytes : ℕ → MasterRead

-- The same for stdin, with the bytes.
pub data Read : Type 0 where
  eof again broken : Read
  bytes : Bytes → Read

-- One round of `relay`: `poll` is interrupted or fails, or it says what the sandbox has written since the
-- last round, what the reads of the pty and of stdin answer if there is something to read, whether the
-- writes of the round to stdout and to the pty succeed, and whether the pty has hung up.
pub data RelayRound : Type 0 where
  no_poll poll_fails : RelayRound
  ready : Bytes → Option MasterRead → Option Read → Bool → Bool → Bool → RelayRound

pub record Relay : Type 0 where
  pub stdin_open : Bool
  -- What the sandbox has written and nobody has read.
  pub unread : Bytes
  -- What has been written to stdout, and to the pty.
  pub shown : Bytes
  pub typed : Bytes

-- The loop goes on, breaks, or returns an error.
pub data Step : Type 0 where
  goes breaks errs : Relay → Step

abbrev pub buffer_size : ℕ
buffer_size = 8192

-- A read fills at most the buffer.
abbrev pub read_count : ℕ → ℕ
read_count n = if leb n buffer_size then n else buffer_size

-- A write that fails leaves `shown` as it was, whatever part of the bytes it has written.
unfoldable pub from_master : Option MasterRead → Bool → Relay → Step
from_master none writes r = goes r
from_master (some pty_eof) writes r = breaks r
from_master (some pty_eio) writes r = breaks r
from_master (some pty_again) writes r = goes r
from_master (some pty_broken) writes r = errs r
from_master (some (pty_bytes n)) writes r =
    let left = drop (read_count n) r.unread in
    if writes
    then goes (record r { shown = r.shown ++ take (read_count n) r.unread; unread = left })
    else errs (record r { unread = left })

unfoldable pub from_stdin : Option Read → Bool → Relay → Step
from_stdin none writes r = goes r
from_stdin (some eof) writes r =
    goes (record r { stdin_open = false; typed = if writes then r.typed ++ 4 ∷ [] else r.typed })
from_stdin (some again) writes r = goes r
from_stdin (some broken) writes r = errs r
from_stdin (some (bytes b)) writes r =
    if writes then goes (record r { typed = r.typed ++ b }) else errs r

abbrev pub then_step : Step → (Relay → Step) → Step
then_step (goes r) f = f r
then_step (breaks r) f = breaks r
then_step (errs r) f = errs r

abbrev pub arrive : Bytes → Relay → Relay
arrive sent r = record r { unread = r.unread ++ sent }

unfoldable pub relay_round : RelayRound → Relay → Step
unfolding from_master from_stdin
relay_round no_poll r = goes r
relay_round poll_fails r = errs r
relay_round (ready sent master stdin shows types hup) r =
    then_step (from_master master shows (arrive sent r)) (λ r'.
      then_step (if r'.stdin_open then from_stdin stdin types r' else goes r')
        (λ r''. if hup then breaks r'' else goes r''))

-- `relay`; `goes` is a loop that waits for its next round.
unfoldable pub relay : List RelayRound → Relay → Step
unfolding relay_round
relay [] r = goes r
relay (x ∷ xs) r = then_step (relay_round x r) (relay xs)

unfoldable pub start : Relay
start = record { stdin_open = true; unread = []; shown = []; typed = [] }
