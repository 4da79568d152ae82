-- ===== src/SniProxy/Delivery.antt =====
-- src/sni_proxy.rs, `peek_sni` and `handle`, on a ClientHello that comes in portions.
use basta.Prelude.{
  ℕ, ◌+◌, ◌≤◌, ◌<◌, ◌≡◌, refl, sym, ap, ◌∙◌, subst, inl, inr, Bool, true, false, Option, none, some,
  List, [], ◌∷◌, ◌++◌, append_assoc, append-nil, arith, ltb, ◌==◌, if◌then◌else◌, Bool-cases,
  length, take, drop, All, length-append, take-append-drop, length-drop, Bytes,
}
use basta.ClientHello.Scanner.{Scan, done, scan, max_peek}
use basta.ClientHello.Scanner.Stable.{scan-append, Binds}
use basta.SniProxy.{
  Event, arrived, Peek, waiting, dropped, named, before_read, peek_loop, peek_sni, lesser,
  read_size, max_peek_reads, chunk_size, Config, Dial, dial_upstream, get_allow, relayed, closed,
  connect, handle_peek, handle,
}
use basta.Egress.Addr.{Ipv4Addr}

-- The bytes come in portions of these sizes.
abbrev pub arrivals : List ℕ → List Event
arrivals [] = []
arrivals (k ∷ ks) = arrived k ∷ arrivals ks

abbrev pub total : List ℕ → ℕ
total [] = 0
total (k ∷ ks) = k + total ks

-- Each portion is not empty and fits in one read.
abbrev pub IsPortion : ℕ → Type 0
IsPortion k = (0 < k) × (k ≤ chunk_size)

scan-bound : (p : Bytes) (o : Option Bytes) → scan p ≡ done o → length p ≤ max_peek
unfolding scan
scan-bound p o h = elim (Bool-cases (ltb max_peek (length p))) [
  | inl long ↦ absurd (clash (sym h ∙ rw long refl))
  | inr fits ↦ ground (arith, fits)
]
  where
    clash : done o ≡ Scan.invalid → ⊥
    clash e = cc

-- Before its last byte a ClientHello is incomplete.
scan_before :
    (p : Bytes) (c : ℕ) (q : Bytes) (o : Option Bytes)
    → scan (p ++ c ∷ q) ≡ done o
    → scan p ≡ Scan.incomplete
scan_before p c q o h = go (scan p) (scan-append p (c ∷ q))
  where
    go : (s : Scan) → Binds (c ∷ q) s (scan (p ++ c ∷ q)) → s ≡ Scan.incomplete
    go Scan.incomplete b = refl
    go Scan.invalid b = cc
    go (done x) b = let bad = b (λ e. cc) in cc

read_next :
    (n : ℕ) (buf : Bytes)
    → length buf < max_peek
    → n < max_peek_reads
    → before_read true Scan.incomplete n buf ≡ none
unfolding before_read
read_next n buf short few = ground arith

-- The next portion, when it is read whole or up to the end of the stream.
portion :
    (k : ℕ) (buf stream : Bytes)
    → IsPortion k
    → length (buf ++ stream) ≤ max_peek
    → lesser (read_size buf k) (length stream) ≡ lesser k (length stream)
portion k buf stream p fits = ground (arith, p, fits, length-append buf stream)

peek_step :
    (k m : ℕ) (events : List Event) (stream : Bytes) (n : ℕ) (buf : Bytes) (p : Peek)
    → before_read true (scan buf) n buf ≡ none
    → lesser (read_size buf k) (length stream) ≡ m
    → 0 < m
    → peek_loop true events (drop m stream) (n + 1) (buf ++ take m stream) ≡ p
    → peek_loop true (arrived k ∷ events) stream n buf ≡ p
unfolding peek_loop
peek_step k m events stream n buf p reads e pos rest =
    at_read (before_read true (scan buf) n buf) reads (lesser (read_size buf k) (length stream)) e
  where
    go :
        (j : ℕ) (b : Bool)
        → b ≡ false
        → j ≡ m
        → elim b [
          | true ↦ dropped
          | false ↦ peek_loop true events (drop j stream) (n + 1) (buf ++ take j stream)
        ]
          ≡ p
    go j true h i = cc
    go j false h i =
        subst (λ x. peek_loop true events (drop x stream) (n + 1) (buf ++ take x stream) ≡ p)
          (sym i) rest

    at_read :
        (o : Option Peek)
        → o ≡ none
        → (j : ℕ) → j ≡ m
        → elim o [
          | some q ↦ q
          | none ↦ elim (j == 0) [
            | true ↦ dropped
            | false ↦ peek_loop true events (drop j stream) (n + 1) (buf ++ take j stream)
          ]
        ]
          ≡ p
    at_read o h j i = rw h (go j (j == 0) (ground (arith, pos, i)) i)

at_done :
    (s : Scan) (sni : Bytes)
    → s ≡ done (some sni)
    → (later : Peek) (n : ℕ) (buf : Bytes)
    → elim (before_read true s n buf) [ some p ↦ p | none ↦ later ] ≡ named sni buf
unfolding before_read
at_done s sni h later n buf = rw h refl

peek_end :
    (ks : List ℕ) (n : ℕ) (buf sni : Bytes)
    → scan buf ≡ done (some sni)
    → peek_loop true (arrivals ks) [] n buf ≡ named sni buf
unfolding peek_loop
peek_end [] n buf sni h = at_done (scan buf) sni h waiting n buf
peek_end (k ∷ ks) n buf sni h = at_done (scan buf) sni h _ n buf

loop_complete :
    (ks : List ℕ) (stream : Bytes) (n : ℕ) (buf sni : Bytes)
    → All IsPortion ks
    → length stream ≤ total ks
    → n + length ks ≤ max_peek_reads
    → scan (buf ++ stream) ≡ done (some sni)
    → peek_loop true (arrivals ks) stream n buf ≡ named sni (buf ++ stream)
loop_complete ks [] n buf sni ps enough few h =
    let same = append-nil buf in
    peek_end ks n buf sni (ap scan (sym same) ∙ h) ∙ ap (named sni) (sym same)
loop_complete [] (c ∷ q) n buf sni ps enough few h = absurd (omega (arith, enough))
loop_complete (k ∷ ks) (c ∷ q) n buf sni ps enough few h =
    let stream : Bytes = c ∷ q in
    let m : ℕ = lesser k (length stream) in
    let bound = scan-bound (buf ++ stream) (some sni) h in
    let e = portion k buf stream ps.0 bound in
    let whole : (buf ++ take m stream) ++ drop m stream ≡ buf ++ stream =
      append_assoc buf (take m stream) (drop m stream)
      ∙ ap (λ z. buf ++ z) (take-append-drop m stream) in
    peek_step k m (arrivals ks) stream n buf (named sni (buf ++ stream))
      (ap (λ s. before_read true s n buf) (scan_before buf c q (some sni) h)
        ∙ read_next n buf (omega (arith, bound, length-append buf stream)) (omega (arith, few)))
      e (ground (arith, ps.0))
      (loop_complete ks (drop m stream) (n + 1) (buf ++ take m stream) sni ps.1
          (ground (arith, enough, length-drop m stream, ps.0)) (omega (arith, few))
          (ap scan whole ∙ h)
        ∙ ap (named sni) whole)

-- If all that a client sends is one complete ClientHello with a name, and it comes in at most 128
-- portions of 1 to 4096 bytes with no error in between, then `peek_sni` returns that name and all the
-- bytes.
pub peek_sni_complete :
    (ks : List ℕ) (stream sni : Bytes)
    → All IsPortion ks
    → length stream ≤ total ks
    → length ks ≤ max_peek_reads
    → scan stream ≡ done (some sni)
    → peek_sni true (arrivals ks) stream ≡ named sni stream
unfolding peek_sni
peek_sni_complete ks stream sni ps enough few h =
    loop_complete ks stream 0 [] sni ps enough (omega (arith, few)) h

first_up :
    (dial : Dial) (ip : Ipv4Addr) (ips : List Ipv4Addr) (mark : ℕ)
    → dial ip mark ≡ true
    → dial_upstream dial (ip ∷ ips) mark ≡ some ip
unfolding dial_upstream
first_up dial ip ips mark up = rw up refl

connect_found :
    (dial : Dial) (cfg : Config) (sni bytes : Bytes) (ip : Ipv4Addr) (ips : List Ipv4Addr)
    → get_allow sni cfg.allow ≡ some (ip ∷ ips)
    → dial ip cfg.mark ≡ true
    → connect dial true cfg sni bytes ≡ relayed ip bytes
connect_found dial cfg sni bytes ip ips found up = listed (get_allow sni cfg.allow) found
  where
    dialled :
        (o : Option Ipv4Addr)
        → o ≡ some ip
        → elim o [ none ↦ closed | some x ↦ if true then relayed x bytes else closed ]
          ≡ relayed ip bytes
    dialled o h = rw h refl

    listed :
        (o : Option (List Ipv4Addr))
        → o ≡ some (ip ∷ ips)
        → elim o [
          | none ↦ closed
          | some addrs ↦ elim (dial_upstream dial addrs cfg.mark) [
            | none ↦ closed
            | some x ↦ if true then relayed x bytes else closed
          ]
        ]
          ≡ relayed ip bytes
    listed o h =
        rw h (dialled (dial_upstream dial (ip ∷ ips) cfg.mark) (first_up dial ip ips cfg.mark up))

-- If a client's one ClientHello comes in at most 128 portions of 1 to 4096 bytes, its name is in the
-- allowlist, and the first address of that name answers the marked dial and takes the replay, then
-- `handle` relays the connection there with all the bytes.
pub handle_complete :
    (dial : Dial) (cfg : Config) (ks : List ℕ) (stream sni : Bytes) (ip : Ipv4Addr)
    (ips : List Ipv4Addr)
    → All IsPortion ks
    → length stream ≤ total ks
    → length ks ≤ max_peek_reads
    → scan stream ≡ done (some sni)
    → get_allow sni cfg.allow ≡ some (ip ∷ ips)
    → dial ip cfg.mark ≡ true
    → handle dial true cfg true (arrivals ks) stream ≡ relayed ip stream
unfolding handle
handle_complete dial cfg ks stream sni ip ips ps enough few h found up =
    ap (handle_peek dial true cfg) (peek_sni_complete ks stream sni ps enough few h)
    ∙ connect_found dial cfg sni stream ip ips found up
