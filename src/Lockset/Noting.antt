-- ===== src/Lockset/Noting.antt =====
-- src/lockset.rs: the two loops of `locked_leaves` note every name that they are given.
use basta.Prelude.{
  ◌≡◌, refl, subst, inl, inr, Bool, true, false, ◌||◌, List, [], ◌∷◌, ◌++◌, arith, if◌then◌else◌,
  Bool-cases, Bytes, codes, eq_bytes, eq_bytes_iff, contains_bytes, cat, >>=-eq-ok, ok-injective,
}
use basta.Prelude.{ok, ◌>>=◌}
use basta.Paths.{path_join}
use basta.Lockset.{
  Files, Stat, absent, unstattable, link, directory, regular, other, Found, lock_as, lock_or_watch,
  lock_defaults, lock_custom,
}
use basta.Lockset.Membership.{any-left, any-right, has_bytes, has_watch}

-- A path is noted: to be watched if it is not there, and to be locked if it is.
abbrev pub Noted : Stat → Bytes → Found → Type 0
Noted absent p f = has_watch p f.watch ≡ true
Noted unstattable p f = ⊥
Noted link p f = has_bytes p f.leaves ≡ true
Noted directory p f = has_bytes p f.leaves ≡ true
Noted regular p f = has_bytes p f.leaves ≡ true
Noted other p f = has_bytes p f.leaves ≡ true

pub locks : (p : Bytes) (f : Found) → has_bytes p (f.leaves ++ p ∷ []) ≡ true
locks p f = any-right (λ l. eq_bytes l p) f.leaves (p ∷ []) (itself p)
  where
    itself : (q : Bytes) → (eq_bytes q q || false) ≡ true
    itself q = ground (arith, (eq_bytes_iff q q).1 refl)

pub lock_as-Noted :
    (st : Stat) (p reason : Bytes) (f f' : Found) → lock_as st p reason f ≡ ok f' → Noted st p f'
lock_as-Noted absent p reason f f' h =
    subst (Noted absent p) (ok-injective h)
      (any-right (λ x. eq_bytes x.path p) f.watch _ (itself p))
  where
    itself : (q : Bytes) → (eq_bytes q q || false) ≡ true
    itself q = ground (arith, (eq_bytes_iff q q).1 refl)
lock_as-Noted unstattable p reason f f' h = cc
lock_as-Noted link p reason f f' h = subst (Noted link p) (ok-injective h) (locks p f)
lock_as-Noted directory p reason f f' h = subst (Noted link p) (ok-injective h) (locks p f)
lock_as-Noted regular p reason f f' h = subst (Noted link p) (ok-injective h) (locks p f)
lock_as-Noted other p reason f f' h = subst (Noted link p) (ok-injective h) (locks p f)

-- What has been found stays found.
abbrev pub Grows : Found → Found → Type 0
Grows f f' =
    (p : Bytes)
    → (has_bytes p f.leaves ≡ true → has_bytes p f'.leaves ≡ true)
      × (has_watch p f.watch ≡ true → has_watch p f'.watch ≡ true)

pub Noted-Grows : (st : Stat) (p : Bytes) (f f' : Found) → Grows f f' → Noted st p f → Noted st p f'
Noted-Grows absent p f f' g n = (g p).1 n
Noted-Grows unstattable p f f' g n = n
Noted-Grows link p f f' g n = (g p).0 n
Noted-Grows directory p f f' g n = (g p).0 n
Noted-Grows regular p f f' g n = (g p).0 n
Noted-Grows other p f f' g n = (g p).0 n

pub lock_as-Grows :
    (st : Stat) (q reason : Bytes) (f f' : Found) → lock_as st q reason f ≡ ok f' → Grows f f'
lock_as-Grows absent q reason f f' h =
    subst (Grows f) (ok-injective h) (λ p. (λ x. x, any-left (λ w. eq_bytes w.path p) f.watch _))
lock_as-Grows unstattable q reason f f' h = cc
lock_as-Grows link q reason f f' h =
    subst (Grows f) (ok-injective h) (λ p. (any-left (λ l. eq_bytes l p) f.leaves _, λ x. x))
lock_as-Grows directory q reason f f' h =
    subst (Grows f) (ok-injective h) (λ p. (any-left (λ l. eq_bytes l p) f.leaves _, λ x. x))
lock_as-Grows regular q reason f f' h =
    subst (Grows f) (ok-injective h) (λ p. (any-left (λ l. eq_bytes l p) f.leaves _, λ x. x))
lock_as-Grows other q reason f f' h =
    subst (Grows f) (ok-injective h) (λ p. (any-left (λ l. eq_bytes l p) f.leaves _, λ x. x))

pub Grows-trans : (f g h : Found) → Grows f g → Grows g h → Grows f h
Grows-trans f g h a b p = (λ x. (b p).0 ((a p).0 x), λ x. (b p).1 ((a p).1 x))

pub lock_defaults-Grows :
    (fs : Files) (wroot : Bytes) (unlock : List Bytes) (ds : List (Bytes × Bytes)) (f f' : Found)
    → lock_defaults fs wroot unlock ds f ≡ ok f'
    → Grows f f'
unfolding lock_defaults lock_or_watch
lock_defaults-Grows fs wroot unlock [] f f' h =
    subst (Grows f) (ok-injective h) (λ p. (λ x. x, λ x. x))
lock_defaults-Grows fs wroot unlock ((rel, reason) ∷ ds) f f' h =
    go (contains_bytes unlock rel) (lock_defaults-Grows fs wroot unlock ds) h
  where
    go :
        (b : Bool)
        → ((g g' : Found) → lock_defaults fs wroot unlock ds g ≡ ok g' → Grows g g')
        → (if b
            then lock_defaults fs wroot unlock ds f
            else (lock_as (fs.stat (path_join wroot rel)) (path_join wroot rel) reason f
                >>= lock_defaults fs wroot unlock ds))
          ≡ ok f'
        → Grows f f'
    go true ih k = ih f f' k
    go false ih k =
        let (g, e, l) =
          >>=-eq-ok (lock_as (fs.stat (path_join wroot rel)) (path_join wroot rel) reason f) _ k in
        Grows-trans f g f'
          (lock_as-Grows (fs.stat (path_join wroot rel)) (path_join wroot rel) reason f g e)
          (ih g f' l)

-- The names of a list of defaults.
abbrev pub names_of : List (Bytes × Bytes) → List Bytes
names_of [] = []
names_of ((rel, reason) ∷ ds) = rel ∷ names_of ds

pub lock_defaults-Noted :
    (fs : Files) (wroot rel : Bytes) (unlock : List Bytes) (ds : List (Bytes × Bytes))
    (f f' : Found)
    → contains_bytes unlock rel ≡ false
    → contains_bytes (names_of ds) rel ≡ true
    → lock_defaults fs wroot unlock ds f ≡ ok f'
    → Noted (fs.stat (path_join wroot rel)) (path_join wroot rel) f'
unfolding lock_defaults lock_or_watch
lock_defaults-Noted fs wroot rel unlock [] f f' n m h = cc
lock_defaults-Noted fs wroot rel unlock ((r, reason) ∷ ds) f f' n m h =
    go (contains_bytes unlock r) (eq_bytes r rel) refl refl
      (λ k. lock_defaults-Noted fs wroot rel unlock ds f f' n k)
      (λ g k. lock_defaults-Noted fs wroot rel unlock ds g f' n k) h
  where
    at : Bytes
    at = path_join wroot r

    go :
        (b c : Bool)
        → contains_bytes unlock r ≡ b
        → eq_bytes r rel ≡ c
        → (contains_bytes (names_of ds) rel ≡ true
            → lock_defaults fs wroot unlock ds f ≡ ok f'
            → Noted (fs.stat (path_join wroot rel)) (path_join wroot rel) f')
        → ((g : Found)
            → contains_bytes (names_of ds) rel ≡ true
            → lock_defaults fs wroot unlock ds g ≡ ok f'
            → Noted (fs.stat (path_join wroot rel)) (path_join wroot rel) f')
        → (if b
            then lock_defaults fs wroot unlock ds f
            else (lock_as (fs.stat at) at reason f >>= lock_defaults fs wroot unlock ds))
          ≡ ok f'
        → Noted (fs.stat (path_join wroot rel)) (path_join wroot rel) f'
    go true true b c skip ih k =
        absurd (clash (subst (λ x. contains_bytes unlock x ≡ true) ((eq_bytes_iff r rel).0 c) b) n)
      where
        clash : {x : Bool} → x ≡ true → x ≡ false → ⊥
        clash x y = cc
    go true false b c skip ih k = skip (ground (arith, m, c)) k
    go false true b c skip ih k =
        let (g, e, l) = >>=-eq-ok (lock_as (fs.stat at) at reason f) _ k in
        subst (λ x. Noted (fs.stat (path_join wroot x)) (path_join wroot x) f')
          ((eq_bytes_iff r rel).0 c)
          (Noted-Grows (fs.stat at) at g f' (lock_defaults-Grows fs wroot unlock ds g f' l)
            (lock_as-Noted (fs.stat at) at reason f g e))
    go false false b c skip ih k =
        let (g, e, l) = >>=-eq-ok (lock_as (fs.stat at) at reason f) _ k in
        ih g (ground (arith, m, c)) l

abbrev pub asked_for : Bytes → Bytes
asked_for rel = cat (codes "in your --lock set ('" ∷ rel ∷ codes "')" ∷ [])

pub lock_custom-Grows :
    (fs : Files) (wroot : Bytes) (rels : List Bytes) (f f' : Found)
    → lock_custom fs wroot rels f ≡ ok f'
    → Grows f f'
unfolding lock_custom lock_or_watch
lock_custom-Grows fs wroot [] f f' h = subst (Grows f) (ok-injective h) (λ p. (λ x. x, λ x. x))
lock_custom-Grows fs wroot (rel ∷ rels) f f' h =
    let (g, e, l) =
      >>=-eq-ok (lock_as (fs.stat (path_join wroot rel)) (path_join wroot rel) (asked_for rel) f) _
        h in
    Grows-trans f g f'
      (lock_as-Grows (fs.stat (path_join wroot rel)) (path_join wroot rel) (asked_for rel) f g e)
      (lock_custom-Grows fs wroot rels g f' l)

pub lock_custom-Noted :
    (fs : Files) (wroot rel : Bytes) (rels : List Bytes) (f f' : Found)
    → contains_bytes rels rel ≡ true
    → lock_custom fs wroot rels f ≡ ok f'
    → Noted (fs.stat (path_join wroot rel)) (path_join wroot rel) f'
unfolding lock_custom lock_or_watch
lock_custom-Noted fs wroot rel [] f f' m h = cc
lock_custom-Noted fs wroot rel (r ∷ rels) f f' m h =
    let (g, e, l) =
      >>=-eq-ok (lock_as (fs.stat (path_join wroot r)) (path_join wroot r) (asked_for r) f) _ h in
    elim (Bool-cases (eq_bytes r rel)) [
      | inl c ↦
          subst (λ x. Noted (fs.stat (path_join wroot x)) (path_join wroot x) f')
            ((eq_bytes_iff r rel).0 c)
            (Noted-Grows (fs.stat (path_join wroot r)) (path_join wroot r) g f'
              (lock_custom-Grows fs wroot rels g f' l)
              (lock_as-Noted (fs.stat (path_join wroot r)) (path_join wroot r) (asked_for r) f g e))
      | inr c ↦ lock_custom-Noted fs wroot rel rels g f' (ground (arith, m, c)) l
    ]
