-- ===== src/Prelude/Strings/Splits.antt =====
-- `str::split` and `str::lines` on a text that is put together from its pieces.
use Prim.Native.Nat.{ℕ}
use mathlib.Core.Path.{◌≡◌, refl, sym, ap, ◌∙◌}
use mathlib.Core.Logic.{◌≢◌}
use mathlib.Core.Bool.{Bool, true, false}
use mathlib.Core.Option.{none, some}
use mathlib.Core.List.{List, [], ◌∷◌, ◌++◌}
use native.Mathlib.Omega.{arith}
use basta.Prelude.Tests.{◌==◌, if◌then◌else◌}
use basta.Prelude.Lists.{All}
use basta.Prelude.Words.{Bytes}
use basta.Prelude.Strings.{split, cons_head, split_once, cons_first}
use basta.Prelude.Strings.White.{lines, end_lines, strip_cr-absent}

ne_test : (c sep : ℕ) → c ≢ sep → (c == sep) ≡ false
ne_test c sep h = ground (arith, h)

-- Text without the separator is one piece.
pub split-absent : (sep : ℕ) (s : Bytes) → All (λ c. c ≢ sep) s → split sep s ≡ s ∷ []
unfolding split
split-absent sep [] h = refl
split-absent sep (c ∷ s) h = rw (ne_test c sep h.0) (ap (cons_head c) (split-absent sep s h.1))

-- The separator ends a piece.
pub split-append :
    (sep : ℕ) (s rest : Bytes)
    → All (λ c. c ≢ sep) s
    → split sep (s ++ sep ∷ rest) ≡ s ∷ split sep rest
unfolding split
split-append sep [] rest h = let e : (sep == sep) ≡ true = ground arith in rw e refl
split-append sep (c ∷ s) rest h =
    rw (ne_test c sep h.0) (ap (cons_head c) (split-append sep s rest h.1))

pub split_once-absent : (sep : ℕ) (s : Bytes) → All (λ c. c ≢ sep) s → split_once sep s ≡ none
unfolding split_once
split_once-absent sep [] h = refl
split_once-absent sep (c ∷ s) h =
    rw (ne_test c sep h.0) (ap (cons_first c) (split_once-absent sep s h.1))

pub split_once-append :
    (sep : ℕ) (s rest : Bytes)
    → All (λ c. c ≢ sep) s
    → split_once sep (s ++ sep ∷ rest) ≡ some (s, rest)
unfolding split_once
split_once-append sep [] rest h = let e : (sep == sep) ≡ true = ground arith in rw e refl
split_once-append sep (c ∷ s) rest h =
    rw (ne_test c sep h.0) (ap (cons_first c) (split_once-append sep s rest h.1))

split-cons : (sep : ℕ) (s : Bytes) → (w : Bytes) × (ws : List Bytes) × (split sep s ≡ w ∷ ws)
unfolding split
split-cons sep [] = ([], [], refl)
split-cons sep (c ∷ s) = go (c == sep) (split sep s) (split-cons sep s)
  where
    go :
        (b : Bool) (rest : List Bytes)
        → (w : Bytes) × (ws : List Bytes) × (rest ≡ w ∷ ws)
        → (w : Bytes) × (ws : List Bytes) × ((if b then [] ∷ rest else cons_head c rest) ≡ w ∷ ws)
    go true rest (w, ws, e) = ([], rest, refl)
    go false rest (w, ws, e) = (c ∷ w, ws, ap (cons_head c) e)

-- A line feed ends a line.
pub lines-append :
    (l rest : Bytes)
    → All (λ c. c ≢ 10) l
    → All (λ c. c ≢ 13) l
    → lines (l ++ 10 ∷ rest) ≡ l ∷ lines rest
unfolding lines end_lines
lines-append l rest a b =
    let (w, ws, e) = split-cons 10 rest in
    ap end_lines (split-append 10 l rest a ∙ ap (λ x. l ∷ x) e)
    ∙ ap (λ x. x ∷ end_lines (w ∷ ws)) (strip_cr-absent l b)
    ∙ ap (λ x. l ∷ end_lines x) (sym e)
