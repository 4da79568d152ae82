-- ===== src/ClientHello/Scanner/Stable.antt =====
-- src/client_hello.rs, `scan` on a growing buffer.
use basta.Prelude.{
  ℕ, zero, suc, ◌+◌, ◌≤◌, ◌≡◌, refl, sym, ap, subst, ◌≢◌, inl, inr, false, not, ◌||◌, Option, none,
  some, [], ◌∷◌, ◌++◌, arith, ltb, ◌==◌, if◌then◌else◌, Bool-cases, length, take, drop, is_empty,
  length-append, take-append, drop-append, Bytes, be16,
}
use basta.ClientHello.Body.{try_parse}
use basta.ClientHello.Scanner.{
  Scan, done, HsMsg, client_hello, handshake_message, verdict, judge, Round, stop, again, or_again,
  after_record, round, scan_loop, scan, max_peek, max_records, rec_handshake,
}

-- How the verdict on a buffer binds the verdict on the buffer with `q` behind it.
abbrev pub Binds : Bytes → Scan → Scan → Type 0
Binds q Scan.incomplete s = Unit
Binds q Scan.invalid s = s ≡ Scan.invalid
Binds q (done sni) s = q ≢ [] → s ≡ Scan.invalid

abbrev RoundBinds : Bytes → Round → Round → Type 0
RoundBinds q (stop Scan.incomplete) r = Unit
RoundBinds q (stop Scan.invalid) r = r ≡ stop Scan.invalid
RoundBinds q (stop (done sni)) r = q ≢ [] → r ≡ stop Scan.invalid
RoundBinds q (again rest hs records) r = r ≡ again (rest ++ q) hs records

verdict_binds :
    (o : Option (Option Bytes)) (q hs : Bytes) (n : ℕ)
    → RoundBinds q (stop (verdict o)) (stop (if not (is_empty q) then Scan.invalid else verdict o))
verdict_binds none [] hs n = refl
verdict_binds none (x ∷ q) hs n = refl
verdict_binds (some o) [] hs n = λ h. absurd (h refl)
verdict_binds (some o) (x ∷ q) hs n = λ h. refl

judge_binds :
    (m : HsMsg) (p q hs : Bytes) (n : ℕ)
    → RoundBinds q
        (or_again (judge m (not (is_empty p))) p hs n)
        (or_again (judge m (not (is_empty (p ++ q)))) (p ++ q) hs n)
unfolding judge
judge_binds HsMsg.incomplete p q hs n = refl
judge_binds HsMsg.invalid p q hs n = refl
judge_binds (client_hello body) [] q hs n = verdict_binds (try_parse body) q hs n
judge_binds (client_hello body) (x ∷ p) q hs n = refl

after_record_binds :
    (p q hs : Bytes) (n : ℕ) → RoundBinds q (after_record p hs n) (after_record (p ++ q) hs n)
unfolding after_record
after_record_binds p q hs n = elim (Bool-cases (ltb max_records n || ltb max_peek (length hs))) [
  | inl e ↦ rw (e) refl
  | inr e ↦ rw (e) (judge_binds (handshake_message hs) p q hs n)
]

longer :
    (payload q : Bytes) (k : ℕ)
    → ltb (length payload) k ≡ false
    → (k ≤ length payload) × (ltb (length (payload ++ q)) k ≡ false)
longer payload q k h = (ground arith, ground (arith, length-append payload q))

abbrev cut : Bytes → Bytes → ℕ → ℕ → Round
cut payload hs k n =
    if ltb (length payload) k
    then stop Scan.incomplete
    else after_record (drop k payload) (hs ++ take k payload) n

-- A record that lies whole in the buffer is read the same in a longer one.
cut_binds :
    (payload q hs : Bytes) (k n : ℕ) → RoundBinds q (cut payload hs k n) (cut (payload ++ q) hs k n)
cut_binds payload q hs k n = elim (Bool-cases (ltb (length payload) k)) [
  | inl e ↦ rw e tt
  | inr e ↦
      let (fits, e') = longer payload q k e in
      rw (e, e', take-append k payload q fits, drop-append k payload q fits)
        (after_record_binds (drop k payload) q (hs ++ take k payload) n)
]

abbrev sized : Bytes → Bytes → ℕ → ℕ → Round
sized payload hs k n = if k == 0 || ltb 16384 k then stop Scan.invalid else cut payload hs k n

sized_binds :
    (payload q hs : Bytes) (k n : ℕ)
    → RoundBinds q (sized payload hs k n) (sized (payload ++ q) hs k n)
sized_binds payload q hs k n = elim (Bool-cases (k == 0 || ltb 16384 k)) [
  | inl e ↦ rw e refl
  | inr e ↦ rw e (cut_binds payload q hs k n)
]

round_binds : (p q hs : Bytes) (n : ℕ) → RoundBinds q (round p hs n) (round (p ++ q) hs n)
unfolding round
round_binds (t ∷ v1 ∷ v2 ∷ hi ∷ lo ∷ payload) q hs n = elim (Bool-cases (t == rec_handshake)) [
  | inl e ↦ rw e (sized_binds payload q hs (be16 hi lo) (n + 1))
  | inr e ↦ rw e refl
]
round_binds _ q hs n = tt

loop-Binds :
    (f : ℕ) (p q hs : Bytes) (n : ℕ) → Binds q (scan_loop f p hs n) (scan_loop f (p ++ q) hs n)
unfolding scan_loop
loop-Binds zero p q hs n = refl
loop-Binds (suc f) p q hs n =
    go (round p hs n) (round (p ++ q) hs n) (round_binds p q hs n)
      (λ p' hs' n'. loop-Binds f p' q hs' n')
  where
    after : Round → Scan
    after r = elim r [ stop s ↦ s | again rest hs records ↦ scan_loop f rest hs records ]

    go :
        (r s : Round)
        → RoundBinds q r s
        → ((p' hs' : Bytes) (n' : ℕ)
            → Binds q (scan_loop f p' hs' n') (scan_loop f (p' ++ q) hs' n'))
        → Binds q (after r) (after s)
    go (stop Scan.incomplete) s b ih = tt
    go (stop Scan.invalid) s b ih = ap after b
    go (stop (done sni)) s b ih = λ ne. ap after (b ne)
    go (again rest hs' n') s b ih =
        subst (λ x. Binds q (scan_loop f rest hs' n') (after x)) (sym b) (ih rest hs' n')

-- Whatever the client sends after `p`: a refused buffer stays refused, and bytes behind a complete
-- ClientHello make it refused.
pub scan-append : (p q : Bytes) → Binds q (scan p) (scan (p ++ q))
unfolding scan
scan-append p q = elim (Bool-cases (ltb max_peek (length (p ++ q)))) [
  | inl long ↦ rw long (over (scan p))
  | inr fits ↦ rw (fits, within fits) (loop-Binds (max_records + 1) p q [] 0)
]
  where
    within : ltb max_peek (length (p ++ q)) ≡ false → ltb max_peek (length p) ≡ false
    within h = ground (arith, length-append p q)

    over : (s : Scan) → Binds q s Scan.invalid
    over Scan.incomplete = tt
    over Scan.invalid = refl
    over (done sni) = λ ne. refl
