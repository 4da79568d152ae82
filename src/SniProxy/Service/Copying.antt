-- ===== src/SniProxy/Service/Copying.antt =====
-- src/sni_proxy.rs, `pipe`: one direction of a spliced connection, and when it is given up.
use basta.Prelude.{
  ℕ, ◌+◌, ◌-◌, ◌*◌, ◌<◌, ◌≡◌, refl, sym, ap, subst, Bool, true, false, List, [], ◌∷◌, ◌++◌, arith,
  ltb, if◌then◌else◌, Bytes,
}

-- `RELAY_IDLE_LIMIT`, in seconds.
abbrev pub relay_idle_limit : ℕ
relay_idle_limit = 30 * 60

-- What a round meets: the end; bytes, at a time, with whether they can be written; an interruption;
-- a timeout, at a time; another error; and a byte of the other direction, which sets the shared clock.
pub data Turn : Type 0 where
  eof interrupted broken : Turn
  got : ℕ → Bytes → Bool → Turn
  quiet other : ℕ → Turn

pub data Why : Type 0 where
  at_eof unwritten idle failed : Why

-- The bytes that have been copied, and why the loop has ended, if it has.
pub data Copied : Type 0 where
  copying : Bytes → Copied
  ended : Why → Bytes → Copied

abbrev behind : Bytes → Copied → Copied
behind b (copying c) = copying (b ++ c)
behind b (ended why c) = ended why (b ++ c)

-- The loop of `pipe`, on the time of the last byte in either direction.
unfoldable pub pipe : ℕ → List Turn → Copied
pipe last [] = copying []
pipe last (eof ∷ ts) = ended at_eof []
pipe last (interrupted ∷ ts) = pipe last ts
pipe last (broken ∷ ts) = ended failed []
pipe last (other t ∷ ts) = pipe t ts
pipe last (got t b writes ∷ ts) =
    let rest = behind b (pipe t ts) in if writes then rest else ended unwritten []
pipe last (quiet t ∷ ts) =
    let rest = pipe last ts in if ltb relay_idle_limit (t - last) then ended idle [] else rest

-- The time of the last byte of either direction.
abbrev pub last_byte : ℕ → List Turn → ℕ
last_byte last [] = last
last_byte last (eof ∷ ts) = last_byte last ts
last_byte last (interrupted ∷ ts) = last_byte last ts
last_byte last (broken ∷ ts) = last_byte last ts
last_byte last (other t ∷ ts) = last_byte t ts
last_byte last (got t b writes ∷ ts) = last_byte t ts
last_byte last (quiet t ∷ ts) = last_byte last ts

abbrev pub IsIdle : ℕ → List Turn → Type 0
IsIdle last ts =
    (before : List Turn) × (t : ℕ) × (after : List Turn) × (ts ≡ before ++ quiet t ∷ after)
    × (last_byte last before + relay_idle_limit < t)

behind_idle :
    (b out : Bytes) (c : Copied)
    → behind b c ≡ ended idle out
    → (out' : Bytes) × (c ≡ ended idle out')
behind_idle b out (copying c) h = cc
behind_idle b out (ended why c) h = (c, cc)

one_more :
    (x : Turn) (last last' : ℕ) (ts : List Turn)
    → ((bs : List Turn) → last_byte last (x ∷ bs) ≡ last_byte last' bs)
    → IsIdle last' ts
    → IsIdle last (x ∷ ts)
one_more x last last' ts step (bs, t, rest, e, late) =
    (x ∷ bs, t, rest, ap (λ l. x ∷ l) e, subst (λ n. n + relay_idle_limit < t) (sym (step bs)) late)

-- A connection is given up as idle only at a timeout that comes more than 30 minutes behind the last
-- byte in either direction.
pub pipe_idle_sound :
    (last : ℕ) (ts : List Turn) (out : Bytes) → pipe last ts ≡ ended idle out → IsIdle last ts
unfolding pipe
pipe_idle_sound last [] out h = cc
pipe_idle_sound last (eof ∷ ts) out h = cc
pipe_idle_sound last (interrupted ∷ ts) out h =
    one_more interrupted last last ts (λ bs. refl) (pipe_idle_sound last ts out h)
pipe_idle_sound last (broken ∷ ts) out h = cc
pipe_idle_sound last (other t ∷ ts) out h =
    one_more (other t) last t ts (λ bs. refl) (pipe_idle_sound t ts out h)
pipe_idle_sound last (got t b true ∷ ts) out h =
    let (out', e) = behind_idle b out (pipe t ts) h in
    one_more (got t b true) last t ts (λ bs. refl) (pipe_idle_sound t ts out' e)
pipe_idle_sound last (got t b false ∷ ts) out h = cc
pipe_idle_sound last (quiet t ∷ ts) out h =
    go (ltb relay_idle_limit (t - last)) refl (pipe_idle_sound last ts out) h
  where
    go :
        (x : Bool)
        → ltb relay_idle_limit (t - last) ≡ x
        → (pipe last ts ≡ ended idle out → IsIdle last ts)
        → (if x then ended idle [] else pipe last ts) ≡ ended idle out
        → IsIdle last (quiet t ∷ ts)
    go true e ih k = ([], t, ts, refl, ground (arith, e))
    go false e ih k = one_more (quiet t) last last ts (λ bs. refl) (ih k)
