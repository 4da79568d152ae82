-- ===== src/Seccomp/Numbers.antt =====
-- `BTreeSet<i64>` and `BTreeMap<i64, V>` of src/seccomp.rs, as lists in increasing order.
use basta.Prelude.{
  ℕ, ◌≤◌, ◌<◌, ◌≡◌, refl, Bool, false, not, ◌&&◌, ◌||◌, Option, none, some, List, [], ◌∷◌, arith,
  ltb, ◌==◌, if◌then◌else◌,
}

unfoldable pub has : ℕ → List ℕ → Bool
has n [] = false
has n (m ∷ ms) = m == n || has n ms

unfoldable pub set_insert : ℕ → List ℕ → List ℕ
set_insert n [] = n ∷ []
set_insert n (m ∷ ms) =
    if ltb n m then n ∷ m ∷ ms else if n == m then m ∷ ms else m ∷ set_insert n ms

unfoldable pub set_remove : ℕ → List ℕ → List ℕ
set_remove n [] = []
set_remove n (m ∷ ms) = if n == m then ms else m ∷ set_remove n ms

-- Strictly increasing, above a bound.
abbrev pub IsAbove : ℕ → List ℕ → Type 0
IsAbove b [] = Unit
IsAbove b (m ∷ ms) = (b < m) × IsAbove m ms

abbrev pub IsSorted : List ℕ → Type 0
IsSorted [] = Unit
IsSorted (m ∷ ms) = IsAbove m ms

module _ {ℓ} {V : Type ℓ} where
  unfoldable pub map_insert : ℕ → V → List (ℕ × V) → List (ℕ × V)
  map_insert k v [] = (k, v) ∷ []
  map_insert k v ((j, w) ∷ m) =
      if ltb k j
      then (k, v) ∷ (j, w) ∷ m
      else if k == j
      then (k, v) ∷ m
      else (j, w) ∷ map_insert k v m

  unfoldable pub map_get : ℕ → List (ℕ × V) → Option V
  map_get k [] = none
  map_get k ((j, w) ∷ m) = if j == k then some w else map_get k m

  pub map_get-insert :
      (k j : ℕ) (v : V) (m : List (ℕ × V))
      → map_get j (map_insert k v m) ≡ (if k == j then some v else map_get j m)
  unfolding map_get map_insert
  map_get-insert k j v [] = ground arith
  map_get-insert k j v ((i, w) ∷ m) = ground (arith, map_get-insert k j v m)

pub has-set_insert : (n k : ℕ) (s : List ℕ) → has k (set_insert n s) ≡ (n == k || has k s)
unfolding has set_insert
has-set_insert n k [] = ground arith
has-set_insert n k (m ∷ ms) = ground (arith, has-set_insert n k ms)

IsAbove-insert : (b n : ℕ) (s : List ℕ) → b < n → IsAbove b s → IsAbove b (set_insert n s)
unfolding set_insert
IsAbove-insert b n [] h a = (h, tt)
IsAbove-insert b n (m ∷ ms) h a = ground (arith, IsAbove-insert m n ms)

pub IsSorted-insert : (n : ℕ) (s : List ℕ) → IsSorted s → IsSorted (set_insert n s)
unfolding set_insert
IsSorted-insert n [] a = tt
IsSorted-insert n (m ∷ ms) a = ground (arith, IsAbove-insert m n ms)

IsAbove-weaken : (b c : ℕ) (s : List ℕ) → b ≤ c → IsAbove c s → IsAbove b s
IsAbove-weaken b c [] h a = tt
IsAbove-weaken b c (m ∷ ms) h a = (omega arith, a.1)

IsAbove-remove : (b n : ℕ) (s : List ℕ) → IsAbove b s → IsAbove b (set_remove n s)
unfolding set_remove
IsAbove-remove b n [] a = tt
IsAbove-remove b n (m ∷ ms) a = ground (arith, IsAbove-remove m n ms, IsAbove-weaken b m ms)

pub IsSorted-remove : (n : ℕ) (s : List ℕ) → IsSorted s → IsSorted (set_remove n s)
unfolding set_remove
IsSorted-remove n [] a = tt
IsSorted-remove n (m ∷ []) a = ground arith
IsSorted-remove n (m ∷ k ∷ ms) a = ground (arith, IsAbove-remove m n (k ∷ ms))

not_above : (b k : ℕ) (s : List ℕ) → k ≤ b → IsAbove b s → has k s ≡ false
unfolding has
not_above b k [] h a = refl
not_above b k (m ∷ ms) h a = ground (arith, not_above m k ms)

has_remove_above :
    (b n k : ℕ) (s : List ℕ) → IsAbove b s → has k (set_remove n s) ≡ (not (n == k) && has k s)
unfolding has set_remove
has_remove_above b n k [] a = ground arith
has_remove_above b n k (m ∷ ms) a = ground (arith, has_remove_above m n k ms, not_above m k ms)

pub has-set_remove :
    (n k : ℕ) (s : List ℕ) → IsSorted s → has k (set_remove n s) ≡ (not (n == k) && has k s)
unfolding has set_remove
has-set_remove n k [] a = ground arith
has-set_remove n k (m ∷ ms) a = ground (arith, has_remove_above m n k ms, not_above m k ms)
