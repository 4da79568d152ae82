-- ===== src/Argv/Wire.antt =====
-- src/argv.rs, `to_memfd`: the NUL-separated form in which bwrap reads its arguments.
use basta.Prelude.{ℕ, zero, suc, ◌<◌, ◌≡◌, refl, ap, ◌∙◌, List, [], ◌∷◌, ◌++◌, arith, All, Bytes}
use basta.Argv.{blob}

abbrev cons_head : ℕ → List Bytes → List Bytes
cons_head c [] = (c ∷ []) ∷ []
cons_head c (w ∷ ws) = (c ∷ w) ∷ ws

-- Each argument ends at the next NUL.
abbrev pub read_args : Bytes → List Bytes
read_args [] = []
read_args (zero ∷ s) = [] ∷ read_args s
read_args (suc c ∷ s) = cons_head (suc c) (read_args s)

-- No NUL inside.
abbrev pub IsText : Bytes → Type 0
IsText = All (λ c. 0 < c)

read_one : (arg s : Bytes) → IsText arg → read_args (arg ++ 0 ∷ s) ≡ arg ∷ read_args s
read_one [] s a = refl
read_one (zero ∷ arg) s a = absurd (omega (arith, a.0))
read_one (suc c ∷ arg) s a = rw (read_one arg s a.1) refl

-- What `to_memfd` writes reads back as the arguments, if none of them has a NUL inside.
pub read_args-blob : (args : List Bytes) → All IsText args → read_args (blob args) ≡ args
unfolding blob
read_args-blob [] a = refl
read_args-blob (arg ∷ args) a =
    read_one arg (blob args) a.0 ∙ ap (λ x. arg ∷ x) (read_args-blob args a.1)
