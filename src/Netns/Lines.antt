-- ===== src/Netns/Lines.antt =====
-- src/netns.rs, `read_line_timeout`: the line by which the proxy says that it listens.
use basta.Prelude.{
  ℕ, ◌≤◌, ◌≡◌, refl, sym, ap, ◌∙◌, subst, ◌≢◌, Bool, true, false, List, [], ◌∷◌, ◌++◌, append_assoc,
  arith, ltb, ◌==◌, if◌then◌else◌, length, All, All-append_intro, Bytes, codes, eq_bytes, trim,
}

-- What a round of the loop meets: the deadline, an answer of `poll`, or one of `read`.
pub data LineEvent : Type 0 where
  no_time poll_empty poll_interrupted poll_fails read_eof read_interrupted read_fails : LineEvent
  got : ℕ → LineEvent

-- The loop goes on; it returns `Ok(None)`; it returns an error; or a line, by its bytes, of which
-- `String::from_utf8_lossy` replaces those that are not UTF-8.
pub data Line : Type 0 where
  reading no_line failed : Line
  whole : Bytes → Line

unfoldable pub read_bytes : List LineEvent → Bytes → Line
read_bytes [] l = reading
read_bytes (no_time ∷ es) l = no_line
read_bytes (poll_empty ∷ es) l = no_line
read_bytes (poll_interrupted ∷ es) l = read_bytes es l
read_bytes (poll_fails ∷ es) l = failed
read_bytes (read_eof ∷ es) l = no_line
read_bytes (read_interrupted ∷ es) l = read_bytes es l
read_bytes (read_fails ∷ es) l = failed
read_bytes (got b ∷ es) l =
    let more = read_bytes es (l ++ b ∷ []) in
    if b == 10 then whole l else (if ltb 256 (length (l ++ b ∷ [])) then no_line else more)

unfoldable pub read_line_timeout : List LineEvent → Line
unfolding read_bytes
read_line_timeout es = read_bytes es []

-- The test of `spawn_sni_proxy`.
unfoldable pub is_listening : Line → Bool
unfolding trim eq_bytes
is_listening (whole l) = eq_bytes (trim l) (codes "LISTENING")
is_listening reading = false
is_listening no_line = false
is_listening failed = false

-- All that the reads return.
abbrev pub got_bytes : List LineEvent → Bytes
got_bytes [] = []
got_bytes (got b ∷ es) = b ∷ got_bytes es
got_bytes (no_time ∷ es) = got_bytes es
got_bytes (poll_empty ∷ es) = got_bytes es
got_bytes (poll_interrupted ∷ es) = got_bytes es
got_bytes (poll_fails ∷ es) = got_bytes es
got_bytes (read_eof ∷ es) = got_bytes es
got_bytes (read_interrupted ∷ es) = got_bytes es
got_bytes (read_fails ∷ es) = got_bytes es

abbrev IsLine : Bytes → Bytes → Bytes → Type 0
IsLine l sent line =
    (length line ≤ 256) × All (λ c. c ≢ 10) line × (rest : Bytes) × (line ++ 10 ∷ rest ≡ l ++ sent)

bytes-IsLine :
    (es : List LineEvent) (l line : Bytes)
    → length l ≤ 256
    → All (λ c. c ≢ 10) l
    → read_bytes es l ≡ whole line
    → IsLine l (got_bytes es) line
unfolding read_bytes
bytes-IsLine [] l line s n h = cc
bytes-IsLine (no_time ∷ es) l line s n h = cc
bytes-IsLine (poll_empty ∷ es) l line s n h = cc
bytes-IsLine (poll_interrupted ∷ es) l line s n h = bytes-IsLine es l line s n h
bytes-IsLine (poll_fails ∷ es) l line s n h = cc
bytes-IsLine (read_eof ∷ es) l line s n h = cc
bytes-IsLine (read_interrupted ∷ es) l line s n h = bytes-IsLine es l line s n h
bytes-IsLine (read_fails ∷ es) l line s n h = cc
bytes-IsLine (got b ∷ es) l line s n h =
    go (b == 10) refl (ltb 256 (length (l ++ b ∷ []))) refl (bytes-IsLine es (l ++ b ∷ []) line) h
  where
    next : Bytes
    next = l ++ b ∷ []

    whole_inj : whole l ≡ whole line → l ≡ line
    whole_inj k = cc

    go :
        (x : Bool)
        → (b == 10) ≡ x
        → (y : Bool) → ltb 256 (length (l ++ b ∷ [])) ≡ y
        → (length (l ++ b ∷ []) ≤ 256
            → All (λ c. c ≢ 10) (l ++ b ∷ [])
            → read_bytes es (l ++ b ∷ []) ≡ whole line
            → IsLine (l ++ b ∷ []) (got_bytes es) line)
        → (if x then whole l else (if y then no_line else read_bytes es (l ++ b ∷ []))) ≡ whole line
        → IsLine l (b ∷ got_bytes es) line
    go true e y f ih k =
        let same = whole_inj k in
        let feed : b ≡ 10 = ground (arith, e) in
        subst (IsLine l (b ∷ got_bytes es)) same
          (s, n, got_bytes es, ap (λ c. l ++ c ∷ got_bytes es) (sym feed))
    go false e true f ih k = cc
    go false e false f ih k =
        let (a, c, rest, q) =
          ih (ground (arith, f))
            (All-append_intro (λ c. c ≢ 10) l (b ∷ []) n ((λ z. ground (arith, z, e)), tt)) k in
        (a, c, rest, q ∙ append_assoc l (b ∷ []) (got_bytes es))

-- A line that the parent takes from the proxy's output is what stands before the first line feed of
-- the bytes that the reads return, however they are interrupted, and it has at most 256 bytes.
pub read_line_timeout_bounds :
    (es : List LineEvent) (line : Bytes)
    → read_line_timeout es ≡ whole line
    → (length line ≤ 256)
      × All (λ c. c ≢ 10) line
      × (rest : Bytes) × (line ++ 10 ∷ rest ≡ got_bytes es)
unfolding read_line_timeout
read_line_timeout_bounds es line h = bytes-IsLine es [] line (omega arith) tt h
