-- ===== src/Base/Writes.antt =====
-- A row of writes `buf[i] = v`, one after the other.
use Prim.Native.Nat.{ℕ, ◌<◌}
use mathlib.Core.Path.{◌≡◌, refl, ap, ◌∙◌}
use mathlib.Core.List.{List, [], ◌∷◌}
use native.Mathlib.Omega.{arith}
use pathdns.Base.Tests.{◌==◌, if◌then◌else◌}
use pathdns.Base.Lists.{length, set, All, length-set}
use pathdns.Base.Results.{Outcome, ok, ◌>>=◌}
use pathdns.Base.Bytes.{byte, put, put_lem, byte-set}

abbrev pub Write : Type 0
Write = ℕ × ℕ

unfoldable pub puts : List ℕ → List Write → Outcome (List ℕ)
puts p [] = ok p
puts p (w ∷ ws) = do p ← put p w.0 w.1; puts p ws

-- The buffer afterwards, and one byte of it, if the writes are in bounds.
unfoldable pub sets : List ℕ → List Write → List ℕ
sets p [] = p
sets p (w ∷ ws) = sets (set p w.0 w.1) ws

abbrev pub written : List Write → ℕ → ℕ → ℕ
written [] j v = v
written (w ∷ ws) j v = written ws j (if w.0 == j then w.1 else v)

abbrev pub InBounds : ℕ → List Write → Type 0
InBounds n ws = All (λ w. w.0 < n) ws

pub length-sets : (p : List ℕ) (ws : List Write) → length (sets p ws) ≡ length p
unfolding sets
length-sets p [] = refl
length-sets p (w ∷ ws) = length-sets (set p w.0 w.1) ws ∙ length-set p w.0 w.1

InBounds-of_eq : (n m : ℕ) (ws : List Write) → n ≡ m → InBounds n ws → InBounds m ws
InBounds-of_eq n m [] e h = tt
InBounds-of_eq n m (w ∷ ws) e h = (omega (arith, h.0), InBounds-of_eq n m ws e h.1)

pub puts-sets : (p : List ℕ) (ws : List Write) → InBounds (length p) ws → puts p ws ≡ ok (sets p ws)
unfolding puts sets
puts-sets p [] h = refl
puts-sets p (w ∷ ws) h = rw (put_lem p w.0 w.1 h.0) (
    puts-sets (set p w.0 w.1) ws
      (InBounds-of_eq (length p) _ ws (omega (arith, length-set p w.0 w.1)) h.1))

pub byte-sets :
    (p : List ℕ) (ws : List Write) (j : ℕ)
    → InBounds (length p) ws
    → byte (sets p ws) j ≡ written ws j (byte p j)
unfolding sets
byte-sets p [] j h = refl
byte-sets p (w ∷ ws) j h =
    byte-sets (set p w.0 w.1) ws j (
      InBounds-of_eq (length p) (length (set p w.0 w.1)) ws (omega (arith, length-set p w.0 w.1))
        h.1)
    ∙ ap (written ws j) (byte-set p w.0 j w.1 h.0)
