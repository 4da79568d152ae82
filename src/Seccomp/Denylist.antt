-- ===== src/Seccomp/Denylist.antt =====
-- src/seccomp.rs, `effective_denylist`: (default ∪ --deny-syscall) ∖ --allow-syscall.
use basta.Prelude.{
  ℕ, ◌≡◌, refl, sym, ap, subst, inl, inr, Bool, true, false, not, ◌&&◌, ◌||◌, none, some, List, [],
  ◌∷◌, map, arith, ◌==◌, if◌then◌else◌, Bool-cases, all, All, Bytes, eq_bytes, eq_bytes_iff,
  >>=-eq-ok, require, contains_bytes, ok-injective, all-All,
}
use basta.Prelude.{ok, unknown_syscall}
use basta.Seccomp.Numbers.{
  has, set_insert, set_remove, IsSorted, IsSorted-insert, IsSorted-remove, has-set_insert,
  has-set_remove,
}
use basta.Seccomp.{
  Sys, default_denylist, known_names, known, find_name, resolve_name, insert_all, remove_all,
  effective_denylist,
}

-- Some name of the list has this number.
abbrev pub numbered : Sys → List Bytes → ℕ → Bool
numbered sys [] k = false
numbered sys (n ∷ ns) k = sys n == k || numbered sys ns k

find_name-map :
    (sys : Sys) (name : Bytes) (ns : List Bytes)
    → find_name name (map (λ n. (n, sys n)) ns)
      ≡ (if contains_bytes ns name then some (sys name) else none)
find_name-map sys name [] = refl
find_name-map sys name (n ∷ ns) = elim (Bool-cases (eq_bytes n name)) [
  | inl e ↦ rw (e, (eq_bytes_iff n name).0 e)
  | inr e ↦ rw e (find_name-map sys name ns)
]

abbrev IsKnown : Bytes → Type 0
IsKnown name = contains_bytes known_names name ≡ true

find_known :
    (sys : Sys) (name : Bytes) (nr : ℕ)
    → require (find_name name (known sys)) unknown_syscall ≡ ok nr
    → (nr ≡ sys name) × IsKnown name
find_known sys name nr h = ground (arith, find_name-map sys name known_names)

known_found :
    (sys : Sys) (name : Bytes)
    → IsKnown name
    → require (find_name name (known sys)) unknown_syscall ≡ ok (sys name)
known_found sys name h = ground (arith, find_name-map sys name known_names)

known_resolved : (sys : Sys) (name : Bytes) → IsKnown name → resolve_name sys name ≡ ok (sys name)
unfolding resolve_name
known_resolved sys name h = known_found sys name h

-- Only names of the table have a number, and it is the constant of that name.
pub resolve_name-inv :
    (sys : Sys) (name : Bytes) (nr : ℕ)
    → resolve_name sys name ≡ ok nr
    → (nr ≡ sys name) × IsKnown name
resolve_name-inv sys name nr h = find_known sys name nr (unfold resolve_name in h)

insert_all-inv :
    (sys : Sys) (names : List Bytes) (set out : List ℕ)
    → insert_all sys names set ≡ ok out
    → IsSorted set
    → IsSorted out × ((k : ℕ) → has k out ≡ (numbered sys names k || has k set))
unfolding insert_all
insert_all-inv sys [] set out h a =
    (subst IsSorted (ok-injective h) a, λ k. ap (has k) (sym (ok-injective h)))
insert_all-inv sys (n ∷ ns) set out h a =
    let (nr, p, q) = >>=-eq-ok (resolve_name sys n) _ h in
    let (b, c) = insert_all-inv sys ns (set_insert nr set) out q (IsSorted-insert nr set a) in
    (b, λ k. ground (arith, c k, has-set_insert nr k set, resolve_name-inv sys n nr p))

remove_all-inv :
    (sys : Sys) (names : List Bytes) (set out : List ℕ)
    → remove_all sys names set ≡ ok out
    → IsSorted set
    → IsSorted out × ((k : ℕ) → has k out ≡ (not (numbered sys names k) && has k set))
unfolding remove_all
remove_all-inv sys [] set out h a =
    (subst IsSorted (ok-injective h) a, λ k. ap (has k) (sym (ok-injective h)))
remove_all-inv sys (n ∷ ns) set out h a =
    let (nr, p, q) = >>=-eq-ok (resolve_name sys n) _ h in
    let (b, c) = remove_all-inv sys ns (set_remove nr set) out q (IsSorted-remove nr set a) in
    (b, λ k. ground (arith, c k, has-set_remove nr k set a, resolve_name-inv sys n nr p))

no_member : (k : ℕ) → has k [] ≡ false
unfolding has
no_member k = refl

-- The denylist is in increasing order, with no number twice, and holds exactly the numbers of the
-- default names and of `--deny-syscall` that no name of `--allow-syscall` has.
pub effective_denylist_exact :
    (sys : Sys) (deny allow : List Bytes) (out : List ℕ)
    → effective_denylist sys deny allow ≡ ok out
    → IsSorted out
      × ((k : ℕ)
          → has k out ≡ (
              not (numbered sys allow k)
              && (numbered sys deny k || numbered sys default_denylist k)))
unfolding effective_denylist
effective_denylist_exact sys deny allow out h =
    let (s, p, q) = >>=-eq-ok (insert_all sys default_denylist []) _ h in
    let (t, p', q') = >>=-eq-ok (insert_all sys deny s) _ q in
    let (a, b) = insert_all-inv sys default_denylist [] s p tt in
    let (a', b') = insert_all-inv sys deny s t p' a in
    let (a2, b2) = remove_all-inv sys allow t out q' a' in
    (a2, λ k. ground (arith, b k, b' k, b2 k, no_member k))

insert_all_total :
    (sys : Sys) (names : List Bytes) (set : List ℕ)
    → All IsKnown names
    → (out : List ℕ) × (insert_all sys names set ≡ ok out)
unfolding insert_all
insert_all_total sys [] set a = (set, refl)
insert_all_total sys (n ∷ ns) set a =
    let (out, e) = insert_all_total sys ns (set_insert (sys n) set) a.1 in
    (out, rw (known_resolved sys n a.0) e)

remove_all_total :
    (sys : Sys) (names : List Bytes) (set : List ℕ)
    → All IsKnown names
    → (out : List ℕ) × (remove_all sys names set ≡ ok out)
unfolding remove_all
remove_all_total sys [] set a = (set, refl)
remove_all_total sys (n ∷ ns) set a =
    let (out, e) = remove_all_total sys ns (set_remove (sys n) set) a.1 in
    (out, rw (known_resolved sys n a.0) e)

defaults_table : all (contains_bytes known_names) default_denylist ≡ true
unfolding known_names default_denylist eq_bytes
defaults_table = refl

defaults-IsKnown : All IsKnown default_denylist
defaults-IsKnown = all-All (contains_bytes known_names) default_denylist defaults_table

-- `effective_denylist` gives a list whenever every name of `--deny-syscall` and `--allow-syscall` is one
-- of the table's; the default names never make it fail.
pub effective_denylist_total :
    (sys : Sys) (deny allow : List Bytes)
    → All IsKnown deny
    → All IsKnown allow
    → (out : List ℕ) × (effective_denylist sys deny allow ≡ ok out)
unfolding effective_denylist
effective_denylist_total sys deny allow d a =
    let (s, p) = insert_all_total sys default_denylist [] defaults-IsKnown in
    let (t, q) = insert_all_total sys deny s d in
    let (u, r) = remove_all_total sys allow t a in (u, rw (p, q) r)
