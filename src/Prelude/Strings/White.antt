-- ===== src/Prelude/Strings/White.antt =====
-- `str::lines`, `str::trim` and `str::split_whitespace`, on texts as bytes.
use Prim.Native.Nat.{ℕ, zero, suc, ◌+◌, ◌≤◌}
use mathlib.Core.Path.{◌≡◌, refl, sym, ap, ◌∙◌}
use mathlib.Core.Logic.{◌≢◌}
use mathlib.Core.Bool.{false, ◌&&◌, ◌||◌}
use mathlib.Core.List.{List, [], ◌∷◌, ◌++◌, append_assoc, append-nil}
use native.Mathlib.Omega.{arith}
use basta.Prelude.Tests.{ltb, leb, ◌==◌, if◌then◌else◌}
use basta.Prelude.Lists.{All, All-append_intro, is_empty}
use basta.Prelude.Words.{Bytes}
use basta.Prelude.Strings.{split}

-- How many bytes the character of `White_Space` has with which a text starts, or 0.
abbrev wide_2 : ℕ → Bytes → ℕ
wide_2 c [] = 0
wide_2 c (d ∷ s) = if c == 0xc2 && (d == 0x85 || d == 0xa0) then 2 else 0

abbrev wide_3 : ℕ → Bytes → ℕ
wide_3 c (d ∷ e ∷ s) =
    if (c == 0xe1 && d == 0x9a && e == 0x80)
      || (c == 0xe2
          && d == 0x80
          && ((leb 0x80 e && leb e 0x8a) || e == 0xa8 || e == 0xa9 || e == 0xaf))
      || (c == 0xe2 && d == 0x81 && e == 0x9f)
      || (c == 0xe3 && d == 0x80 && e == 0x80)
    then 3
    else 0
wide_3 c (d ∷ []) = 0
wide_3 c [] = 0

unfoldable pub space_at : ℕ → Bytes → ℕ
space_at c s =
    if (leb 9 c && leb c 13) || c == 32
    then 1
    else if ltb c 0xc2
    then 0
    else wide_2 c s + wide_3 c s

-- `str::trim_start`; the first argument counts the bytes of a character that is skipped.
unfoldable pub trim_start : ℕ → Bytes → Bytes
unfolding space_at
trim_start k [] = []
trim_start (suc k) (c ∷ s) = trim_start k s
trim_start zero (c ∷ s) = elim (space_at c s) [ zero ↦ c ∷ s | suc k ↦ trim_start k s ]

-- `str::trim_end`; the second argument is white space that is kept if more follows.
unfoldable pub trim_end : ℕ → Bytes → Bytes → Bytes
unfolding space_at
trim_end k kept [] = []
trim_end (suc k) kept (c ∷ s) = trim_end k (kept ++ c ∷ []) s
trim_end zero kept (c ∷ s) = elim (space_at c s) [
  | zero ↦ kept ++ (c ∷ trim_end 0 [] s)
  | suc k ↦ trim_end k (kept ++ c ∷ []) s
]

unfoldable pub trim : Bytes → Bytes
unfolding trim_start trim_end
trim s = trim_end 0 [] (trim_start 0 s)

abbrev end_word : Bytes → List Bytes → List Bytes
end_word [] ws = ws
end_word (c ∷ w) ws = (c ∷ w) ∷ ws

-- `str::split_whitespace`, behind the word that has been begun.
unfoldable pub words_from : ℕ → Bytes → Bytes → List Bytes
unfolding space_at
words_from k w [] = end_word w []
words_from (suc k) w (c ∷ s) = words_from k w s
words_from zero w (c ∷ s) = elim (space_at c s) [
  | zero ↦ words_from 0 (w ++ c ∷ []) s
  | suc k ↦ end_word w (words_from k [] s)
]

unfoldable pub split_whitespace : Bytes → List Bytes
unfolding words_from
split_whitespace s = words_from 0 [] s

-- A carriage return at the end of a line that a line feed ends.
unfoldable pub strip_cr : Bytes → Bytes
strip_cr [] = []
strip_cr (c ∷ []) = if c == 13 then [] else c ∷ []
strip_cr (c ∷ d ∷ s) = c ∷ strip_cr (d ∷ s)

unfoldable pub end_lines : List Bytes → List Bytes
unfolding strip_cr
end_lines [] = []
end_lines (l ∷ []) = if is_empty l then [] else l ∷ []
end_lines (l ∷ m ∷ ls) = strip_cr l ∷ end_lines (m ∷ ls)

-- `str::lines`.
unfoldable pub lines : Bytes → List Bytes
unfolding end_lines split
lines s = end_lines (split 10 s)

-- The bytes of ASCII that are neither white space nor control characters.
abbrev pub IsGraphic : ℕ → Type 0
IsGraphic c = (33 ≤ c) × (c ≤ 126)

pub space_at-graphic : (c : ℕ) (s : Bytes) → IsGraphic c → space_at c s ≡ 0
unfolding space_at
space_at-graphic c s h = ground (arith, h)

word_step :
    (c : ℕ) (w s : Bytes) → IsGraphic c → words_from 0 w (c ∷ s) ≡ words_from 0 (w ++ c ∷ []) s
unfolding words_from
word_step c w s h = go (space_at c s) (space_at-graphic c s h)
  where
    go :
        (n : ℕ)
        → n ≡ 0
        → elim n [ zero ↦ words_from 0 (w ++ c ∷ []) s | suc k ↦ end_word w (words_from k [] s) ]
          ≡ words_from 0 (w ++ c ∷ []) s
    go n e = rw e refl

-- A word of graphic bytes is read whole.
pub words_from-word :
    (v w s : Bytes) → All IsGraphic v → words_from 0 w (v ++ s) ≡ words_from 0 (w ++ v) s
words_from-word [] w s h = ap (λ x. words_from 0 x s) (sym (append-nil w))
words_from-word (c ∷ v) w s h =
    word_step c w (v ++ s) h.0
    ∙ words_from-word v (w ++ c ∷ []) s h.1
    ∙ ap (λ x. words_from 0 x s) (append_assoc w (c ∷ []) v)

pub words_from-end :
    (c : ℕ) (v : Bytes) → All IsGraphic (c ∷ v) → words_from 0 [] (c ∷ v) ≡ (c ∷ v) ∷ []
unfolding words_from
words_from-end c v h =
    ap (words_from 0 []) (sym (append-nil (c ∷ v))) ∙ words_from-word (c ∷ v) [] [] h

pub words_from-space :
    (c : ℕ) (v s : Bytes)
    → All IsGraphic (c ∷ v)
    → words_from 0 [] ((c ∷ v) ++ 32 ∷ s) ≡ (c ∷ v) ∷ words_from 0 [] s
unfolding words_from space_at
words_from-space c v s h = words_from-word (c ∷ v) [] (32 ∷ s) h

trim_start-graphic : (c : ℕ) (s : Bytes) → IsGraphic c → trim_start 0 (c ∷ s) ≡ c ∷ s
unfolding trim_start
trim_start-graphic c s h = go (space_at c s) (space_at-graphic c s h)
  where
    go : (n : ℕ) → n ≡ 0 → elim n [ zero ↦ c ∷ s | suc k ↦ trim_start k s ] ≡ c ∷ s
    go n e = rw e refl

trim_end-graphic : (c : ℕ) (s : Bytes) → IsGraphic c → trim_end 0 [] (c ∷ s) ≡ c ∷ trim_end 0 [] s
unfolding trim_end
trim_end-graphic c s h = go (space_at c s) (space_at-graphic c s h)
  where
    go :
        (n : ℕ)
        → n ≡ 0
        → elim n [ zero ↦ c ∷ trim_end 0 [] s | suc k ↦ trim_end k (c ∷ []) s ]
          ≡ c ∷ trim_end 0 [] s
    go n e = rw e refl

-- A text that starts with a graphic byte does not trim to nothing.
pub is_empty-trim : (c : ℕ) (s : Bytes) → IsGraphic c → is_empty (trim (c ∷ s)) ≡ false
unfolding trim
is_empty-trim c s h =
    ap is_empty (ap (trim_end 0 []) (trim_start-graphic c s h) ∙ trim_end-graphic c s h)

pub strip_cr-absent : (s : Bytes) → All (λ c. c ≢ 13) s → strip_cr s ≡ s
unfolding strip_cr
strip_cr-absent [] h = refl
strip_cr-absent (c ∷ []) h = ground (arith, h)
strip_cr-absent (c ∷ d ∷ s) h = ap (λ x. c ∷ x) (strip_cr-absent (d ∷ s) h.1)

-- A word: graphic bytes, at least one.
abbrev pub IsWord : Bytes → Type 0
IsWord [] = ⊥
IsWord (c ∷ s) = All IsGraphic (c ∷ s)

pub IsWord-IsGraphic : (w : Bytes) → IsWord w → All IsGraphic w
IsWord-IsGraphic [] h = tt
IsWord-IsGraphic (c ∷ s) h = h

pub IsWord-append : (v w : Bytes) → IsWord v → All IsGraphic w → IsWord (v ++ w)
IsWord-append [] w h k = absurd h
IsWord-append (c ∷ v) w h k = All-append_intro IsGraphic (c ∷ v) w h k

-- A word before a space, and one that ends the text.
pub word_before : (w s : Bytes) → IsWord w → words_from 0 [] (w ++ 32 ∷ s) ≡ w ∷ words_from 0 [] s
word_before [] s h = absurd h
word_before (c ∷ w) s h = words_from-space c w s h

pub word_last : (w : Bytes) → IsWord w → words_from 0 [] w ≡ w ∷ []
word_last [] h = absurd h
word_last (c ∷ w) h = words_from-end c w h
