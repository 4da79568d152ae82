-- ===== src/Netns/Ports.antt =====
-- src/netns.rs: `loopback_spec`, `publish_spec` and `find_bin`, read back.
use basta.Prelude.{
  ℕ, ◌<◌, ◌≡◌, refl, Bool, true, false, Option, none, some, List, [], ◌∷◌, ◌++◌, map, if◌then◌else◌,
  All, Bytes, codes, eq_bytes, split_once, split,
}
use basta.Egress.Parse.{parse_u16}
use basta.Netns.{find_in, find_bin, bin_dirs}
use mathlib.Core.List.{Mem, mem-cons_self, mem-cons_of_mem}

-- The word behind a flag.
abbrev first_word : List Bytes → Option Bytes
first_word [] = none
first_word (w ∷ ws) = some w

unfoldable pub word_after : Bytes → List Bytes → Option Bytes
unfolding eq_bytes
word_after flag [] = none
word_after flag (w ∷ ws) =
    let later = word_after flag ws in if eq_bytes w flag then first_word ws else later

-- A text that names these ports and no other: `none`, or numbers between commas.
abbrev pub NamesPorts : List ℕ → Bytes → Type 0
NamesPorts [] text = text ≡ codes "none"
NamesPorts (p ∷ ps) text = map parse_u16 (split b',' text) ≡ map some (p ∷ ps)

-- `none`, or the loopback address and one port.
abbrev pub NamesPublished : Option ℕ → Bytes → Type 0
NamesPublished none text = text ≡ codes "none"
NamesPublished (some p) text =
    (port : Bytes) × (split_once b'/' text ≡ some (codes "127.0.0.1", port))
    × (parse_u16 port ≡ some p)

abbrev pub IsPort : Option ℕ → Type 0
IsPort none = Unit
IsPort (some p) = p < 65536

-- What pasta forwards, by its arguments.
pub record IsForwarding (ports : List ℕ) (publish : Option ℕ) (args : List Bytes) : Type 0 where
  pub tcp_out : Bytes
  pub tcp_in : Bytes
  pub says_out : word_after (codes "-T") args ≡ some tcp_out
  pub names_out : NamesPorts ports tcp_out
  pub says_in : word_after (codes "-t") args ≡ some tcp_in
  pub names_in : NamesPublished publish tcp_in
  pub no_udp_in : word_after (codes "-u") args ≡ some (codes "none")
  pub no_udp_out : word_after (codes "-U") args ≡ some (codes "none")

-- What a search through directories finds.
abbrev pub IsFound : (Bytes → Bool) → Bytes → List Bytes → Option Bytes → Type 0
IsFound is_program name dirs none = All (λ dir. is_program (dir ++ b'/' ∷ name) ≡ false) dirs
IsFound is_program name dirs (some p) =
    (is_program p ≡ true) × (dir : Bytes) × Mem dir dirs × (p ≡ dir ++ b'/' ∷ name)

find_in-IsFound :
    (is_program : Bytes → Bool) (name : Bytes) (dirs : List Bytes)
    → IsFound is_program name dirs (find_in is_program name dirs)
unfolding find_in
find_in-IsFound is_program name [] = tt
find_in-IsFound is_program name (d ∷ dirs) =
    go (is_program (d ++ b'/' ∷ name)) refl (find_in is_program name dirs)
      (find_in-IsFound is_program name dirs)
  where
    later :
        (o : Option Bytes)
        → is_program (d ++ b'/' ∷ name) ≡ false
        → IsFound is_program name dirs o
        → IsFound is_program name (d ∷ dirs) o
    later none e h = (e, h)
    later (some p) e (up, dir, m, k) = (up, dir, mem-cons_of_mem d m, k)

    go :
        (b : Bool)
        → is_program (d ++ b'/' ∷ name) ≡ b
        → (o : Option Bytes) → IsFound is_program name dirs o
        → IsFound is_program name (d ∷ dirs) (if b then some (d ++ b'/' ∷ name) else o)
    go true e o h = (e, d, mem-cons_self, refl)
    go false e o h = later o e h

-- `find_bin` never looks outside its six directories: what it returns is one of them with the name
-- behind it and an executable file, and it returns nothing only if none of the six holds one.
pub find_bin-IsFound :
    (is_program : Bytes → Bool) (name : Bytes)
    → IsFound is_program name bin_dirs (find_bin is_program name)
unfolding find_bin
find_bin-IsFound is_program name = find_in-IsFound is_program name bin_dirs
