-- ===== src/Base/Octets.antt =====
-- Packets of bytes, `IsBytes`, under the operations on lists.
use mathlib.Core.List.{List, [], ◌∷◌, ◌++◌}
use Prim.Native.Nat.{ℕ, zero, suc}
use pathdns.Base.Lists.{take, drop, set, All}
use pathdns.Base.Bytes.{IsByte, IsBytes}
use pathdns.Base.Writes.{Write, sets}

pub IsBytes-take : (n : ℕ) (p : List ℕ) → IsBytes p → IsBytes (take n p)
IsBytes-take zero p b = tt
IsBytes-take (suc n) [] b = tt
IsBytes-take (suc n) (x ∷ p) b = (b.0, IsBytes-take n p b.1)

pub IsBytes-drop : (n : ℕ) (p : List ℕ) → IsBytes p → IsBytes (drop n p)
IsBytes-drop zero p b = b
IsBytes-drop (suc n) [] b = tt
IsBytes-drop (suc n) (x ∷ p) b = IsBytes-drop n p b.1

pub IsBytes-append : (p q : List ℕ) → IsBytes p → IsBytes q → IsBytes (p ++ q)
IsBytes-append [] q b c = c
IsBytes-append (x ∷ p) q b c = (b.0, IsBytes-append p q b.1 c)

pub IsBytes-set : (p : List ℕ) (i v : ℕ) → IsBytes p → IsByte v → IsBytes (set p i v)
IsBytes-set [] i v b c = tt
IsBytes-set (x ∷ p) zero v b c = (c, b.1)
IsBytes-set (x ∷ p) (suc i) v b c = (b.0, IsBytes-set p i v b.1 c)

pub IsBytes-sets :
    (p : List ℕ) (ws : List Write) → IsBytes p → All (λ w. IsByte w.1) ws → IsBytes (sets p ws)
unfolding sets
IsBytes-sets p [] b c = b
IsBytes-sets p (w ∷ ws) b c = IsBytes-sets (set p w.0 w.1) ws (IsBytes-set p w.0 w.1 b c.0) c.1
