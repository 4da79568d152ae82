-- ===== src/Main/Entry/Closing.antt =====
-- src/main.rs, `close_inherited_fds`: what stays open.
use basta.Prelude.{
  ℕ, ◌≡◌, refl, sym, ap, ◌∙◌, ◌<◌, ◌≤◌, Bool, true, false, not, ◌&&◌, ◌||◌, Option, none, some,
  List, [], ◌∷◌, arith, ltb, ◌==◌, if◌then◌else◌, any, All, Bytes, eq_bytes, eq_bytes_iff,
  contains_bytes, ℤ, pos, negsuc, parse_i32, show_i32, parse_i32-show_i32, decimal, subst, ltb→lt,
}
use basta.Main.Entry.{keep, from_three, fds_of, close_each, close_inherited_fds}

keep-keep : (p q : ℕ → Bool) (xs : List ℕ) → keep p (keep q xs) ≡ keep (λ x. q x && p x) xs
keep-keep p q [] = refl
keep-keep p q (x ∷ xs) = go (keep-keep p q xs) (q x) (p x) refl refl
  where
    go :
        keep p (keep q xs) ≡ keep (λ y. q y && p y) xs
        → (b c : Bool) → q x ≡ b
        → p x ≡ c
        → keep p (if q x then x ∷ keep q xs else keep q xs)
          ≡ (if q x && p x then x ∷ keep (λ y. q y && p y) xs else keep (λ y. q y && p y) xs)
    go ih true true e f = rw (e) (rw (f) (rw (ih) refl))
    go ih true false e f = rw (e) (rw (f) ih)
    go ih false c e f = rw (e) ih

keep-cong : (p q : ℕ → Bool) (xs : List ℕ) → All (λ x. p x ≡ q x) xs → keep p xs ≡ keep q xs
keep-cong p q [] h = refl
keep-cong p q (x ∷ xs) h = rw (h.0) (rw (keep-cong p q xs h.1) refl)

keep-all : (xs : List ℕ) → keep (λ x. true) xs ≡ xs
keep-all [] = refl
keep-all (x ∷ xs) = ap (λ t. x ∷ t) (keep-all xs)

neither : (a b : Bool) → (not a && not b) ≡ not (a || b)
neither true b = refl
neither false b = refl

-- What is closed is what is listed.
close_each-keep :
    (fds held : List ℕ) → close_each fds held ≡ keep (λ x. not (any (λ d. d == x) fds)) held
unfolding close_each
close_each-keep [] held = sym (keep-all held)
close_each-keep (fd ∷ fds) held =
    close_each-keep fds (keep (λ x. not (fd == x)) held)
    ∙ keep-keep _ (λ x. not (fd == x)) held
    ∙ keep-cong _ _ held (everywhere held)
  where
    everywhere :
        (xs : List ℕ)
        → All
            (λ x.
              (not (fd == x) && not (any (λ d. d == x) fds)) ≡ not (any (λ d. d == x) (fd ∷ fds)))
            xs
    everywhere [] = tt
    everywhere (x ∷ xs) = (neither (fd == x) (any (λ d. d == x) fds), everywhere xs)

-- An open descriptor, with its name in the listing.
abbrev pub IsListed : List Bytes → ℕ → Type 0
IsListed names fd = (fd < 2147483648) × (contains_bytes names (decimal fd) ≡ true)

own_name : (fd : ℕ) → fd < 2147483648 → parse_i32 (decimal fd) ≡ some (pos fd)
unfolding show_i32
own_name fd h = parse_i32-show_i32 (pos fd) h

from_three-below :
    (z : Option ℤ) (rest : List ℕ) (x : ℕ)
    → x < 3
    → any (λ d. d == x) (from_three z rest) ≡ any (λ d. d == x) rest
from_three-below none rest x h = refl
from_three-below (some (negsuc n)) rest x h = refl
from_three-below (some (pos n)) rest x h = ground (arith, h)

from_three-above :
    (rest : List ℕ) (x : ℕ) → 3 ≤ x → any (λ d. d == x) (from_three (some (pos x)) rest) ≡ true
from_three-above rest x h = ground (arith, h)

from_three-rest :
    (z : Option ℤ) (rest : List ℕ) (x : ℕ)
    → any (λ d. d == x) rest ≡ true
    → any (λ d. d == x) (from_three z rest) ≡ true
from_three-rest none rest x h = h
from_three-rest (some (negsuc n)) rest x h = h
from_three-rest (some (pos n)) rest x h = ground (arith, h)

fds_of-below : (names : List Bytes) (x : ℕ) → x < 3 → any (λ d. d == x) (fds_of names) ≡ false
unfolding fds_of
fds_of-below [] x h = refl
fds_of-below (name ∷ names) x h =
    from_three-below (parse_i32 name) (fds_of names) x h ∙ fds_of-below names x h

fds_of-above :
    (names : List Bytes) (x : ℕ)
    → 3 ≤ x
    → IsListed names x
    → any (λ d. d == x) (fds_of names) ≡ true
unfolding fds_of
fds_of-above [] x h (b, l) = cc
fds_of-above (name ∷ names) x h (b, l) =
    go (λ k. fds_of-above names x h (b, k)) (eq_bytes name (decimal x)) refl
  where
    go :
        (contains_bytes names (decimal x) ≡ true → any (λ d. d == x) (fds_of names) ≡ true)
        → (t : Bool) → eq_bytes name (decimal x) ≡ t
        → any (λ d. d == x) (from_three (parse_i32 name) (fds_of names)) ≡ true
    go ih true e =
        subst (λ z. any (λ d. d == x) (from_three z (fds_of names)) ≡ true)
          (sym (ap parse_i32 ((eq_bytes_iff name (decimal x)).0 e) ∙ own_name x b))
          (from_three-above (fds_of names) x h)
    go ih false e =
        from_three-rest (parse_i32 name) (fds_of names) x
          (ih (sym (ap (λ t. t || contains_bytes names (decimal x)) e) ∙ l))

listed-closed :
    (names : List Bytes) (x : ℕ)
    → IsListed names x
    → not (any (λ d. d == x) (fds_of names)) ≡ ltb x 3
listed-closed names x l = go (ltb x 3) refl
  where
    go : (t : Bool) → ltb x 3 ≡ t → not (any (λ d. d == x) (fds_of names)) ≡ t
    go true e = ap not (fds_of-below names x (ltb→lt x 3 e))
    go false e = ap not (fds_of-above names x (ground (arith, e)) l)

listed_everywhere :
    (names : List Bytes) (held : List ℕ)
    → All (IsListed names) held
    → All (λ x. not (any (λ d. d == x) (fds_of names)) ≡ ltb x 3) held
listed_everywhere names [] h = tt
listed_everywhere names (x ∷ held) h = (listed-closed names x h.0, listed_everywhere names held h.1)

-- Whether or not `close_range` works, exactly the standard descriptors stay open behind
-- `close_inherited_fds`, if every open descriptor is an `i32` with its name in `/proc/self/fd`.
pub close_inherited_fds_exact :
    (works : Bool) (names : List Bytes) (held : List ℕ)
    → All (IsListed names) held
    → close_inherited_fds works (some names) held ≡ keep (λ x. ltb x 3) held
unfolding close_inherited_fds
close_inherited_fds_exact true names held h = refl
close_inherited_fds_exact false names held h =
    close_each-keep (fds_of names) held ∙ keep-cong _ _ held (listed_everywhere names held h)
