-- ===== src/Pty/Copying.antt =====
-- src/pty.rs, `write_all`: the bytes from a buffer to a descriptor.
use basta.Prelude.{
  ℕ, zero, suc, ◌≡◌, refl, ap, ◌∙◌, List, [], ◌∷◌, ◌++◌, append_assoc, take, drop, take-append-drop,
  Bytes,
}

-- What `write` answers: so many bytes, EINTR, or another error.
pub data Write : Type 0 where
  took : ℕ → Write
  interrupted refused : Write

-- `write_all` has written these bytes, and still waits, has finished, or has failed.
pub data Written : Type 0 where
  waiting finished failed : Bytes → Written

abbrev behind : Bytes → Written → Written
behind p (waiting w) = waiting (p ++ w)
behind p (finished w) = finished (p ++ w)
behind p (failed w) = failed (p ++ w)

-- `write_all`. A write takes at most the bytes that it is given.
unfoldable pub write_all : List Write → Bytes → Written
write_all ws [] = finished []
write_all [] (b ∷ buf) = waiting []
write_all (interrupted ∷ ws) (b ∷ buf) = write_all ws (b ∷ buf)
write_all (refused ∷ ws) (b ∷ buf) = failed []
write_all (took zero ∷ ws) (b ∷ buf) = failed []
write_all (took (suc n) ∷ ws) (b ∷ buf) = behind (b ∷ take n buf) (write_all ws (drop n buf))

-- What has been written, and what is left of the buffer.
abbrev pub Splits : Bytes → Written → Type 0
Splits buf (finished w) = w ≡ buf
Splits buf (waiting w) = (rest : Bytes) × (w ++ rest ≡ buf)
Splits buf (failed w) = (rest : Bytes) × (w ++ rest ≡ buf)

behind-Splits :
    (b n : ℕ) (buf : Bytes) (w : Written)
    → Splits (drop n buf) w
    → Splits (b ∷ buf) (behind (b ∷ take n buf) w)
behind-Splits b n buf (finished w) e =
    ap (λ x. b ∷ (take n buf ++ x)) e ∙ ap (λ x. b ∷ x) (take-append-drop n buf)
behind-Splits b n buf (waiting w) (rest, e) = (
  rest,
  ap (λ x. b ∷ x)
      (append_assoc (take n buf) w rest ∙ ap (λ x. take n buf ++ x) e ∙ take-append-drop n buf),
)
behind-Splits b n buf (failed w) (rest, e) = (
  rest,
  ap (λ x. b ∷ x)
      (append_assoc (take n buf) w rest ∙ ap (λ x. take n buf ++ x) e ∙ take-append-drop n buf),
)

-- However `write` cuts and interrupts it, `write_all` writes its buffer in order: all of it when it
-- finishes, and a beginning of it when it fails or still waits.
pub write_all-Splits : (ws : List Write) (buf : Bytes) → Splits buf (write_all ws buf)
unfolding write_all
write_all-Splits ws [] = refl
write_all-Splits [] (b ∷ buf) = (b ∷ buf, refl)
write_all-Splits (interrupted ∷ ws) (b ∷ buf) = write_all-Splits ws (b ∷ buf)
write_all-Splits (refused ∷ ws) (b ∷ buf) = (b ∷ buf, refl)
write_all-Splits (took zero ∷ ws) (b ∷ buf) = (b ∷ buf, refl)
write_all-Splits (took (suc n) ∷ ws) (b ∷ buf) =
    behind-Splits b n buf (write_all ws (drop n buf)) (write_all-Splits ws (drop n buf))
