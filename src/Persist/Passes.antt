-- ===== src/Persist/Passes.antt =====
-- What goes through a file of a cache (src/cache.rs, src/verdict_cache.rs): a list of which some items
-- pass and the others are left out, and the map after the insertions.
use pathdns.Base.{◌⊎◌, List, [], ◌∷◌, inl}
use pathdns.Cache.Backend.{Store}

-- The items `xs` in order, each left out or passed on as an item of `ys`.
unfoldable pub Passes : {A B : Type 0} → (A → Type 0) → (A → B → Type 0) → List A → List B → Type 0
Passes Out In [] [] = Unit {0}
Passes Out In [] (y ∷ ys) = ⊥
Passes Out In (x ∷ xs) [] = Out x × Passes Out In xs []
Passes Out In (x ∷ xs) (y ∷ ys) =
    (Out x × Passes Out In xs (y ∷ ys)) ⊎ (In x y × Passes Out In xs ys)

pub leave_out :
    {A B : Type 0} (Out : A → Type 0) (In : A → B → Type 0) (x : A) (xs : List A) (ys : List B)
    → Out x
    → Passes Out In xs ys
    → Passes Out In (x ∷ xs) ys
unfolding Passes
leave_out Out In x xs [] o p = (o, p)
leave_out Out In x xs (y ∷ ys) o p = inl (o, p)

-- The map after the insertions, the first item first.
unfoldable pub insert_all : {K V : Type 0} (S : Store K V) → List (K × V) → S.State → S.State
insert_all S [] cache = cache
insert_all S ((key, value) ∷ xs) cache = insert_all S xs (S.insert key value cache)
