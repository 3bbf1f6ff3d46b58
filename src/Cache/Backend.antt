-- ===== src/Cache/Backend.antt =====
-- The bounded map of the package quick_cache, as the caches of the program use it.
use pathdns.Base.{ℕ, ◌≡◌, ◌⊎◌, List, Option, none, some, Bool, true, if◌then◌else◌, All}

-- `same` is the equality of keys. An insertion may evict any entry, the new one included. Iteration
-- yields what is in the map.
pub record Store (K V : Type 0) : Type 1 where
  pub State : Type 0
  pub same : K → K → Bool
  pub with_capacity : ℕ → State
  pub get : K → State → Option V
  pub insert : K → V → State → State
  pub remove : K → State → State
  pub clear : State → State
  pub entries : State → List (K × V)
  pub same-sound : (k j : K) → same k j ≡ true → k ≡ j
  pub get-with_capacity : (n : ℕ) (j : K) → get j (with_capacity n) ≡ none
  pub get-insert :
      (k j : K) (v : V) (s : State)
      → (get j (insert k v s) ≡ none)
        ⊎ (get j (insert k v s) ≡ (if same k j then some v else get j s))
  pub get-remove : (k j : K) (s : State) → get j (remove k s) ≡ (if same k j then none else get j s)
  pub get-clear : (j : K) (s : State) → get j (clear s) ≡ none
  pub get-entries : (s : State) → All (λ e. get e.0 s ≡ some e.1) (entries s)
