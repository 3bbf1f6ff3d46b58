-- ===== src/Cache/Holds.antt =====
-- A property of all entries of the map behind the response cache (src/cache.rs).
use pathdns.Base.{
  ℕ, ◌≡◌, ◌⊎◌, ◌∙◌, Bool, true, false, none, some, if◌then◌else◌, inl, inr, refl, sym, subst,
}
use pathdns.Cache.Backend.{Store}
use pathdns.Cache.{Entry}

module _ (S : Store ℕ Entry) (P : ℕ → Entry → Type 0) where
  open S use {
    State, get, insert, remove, clear, same, same-sound, get-insert, get-remove, get-clear,
  }

  abbrev pub Holds : State → Type 0
  Holds cache = (key : ℕ) (e : Entry) → get key cache ≡ some e → P key e

  none≢some : {e : Entry} → none ≡ some e → ⊥
  none≢some h = cc

  pub insert-Holds :
      (key : ℕ) (new : Entry) (cache : State)
      → P key new
      → Holds cache
      → Holds (insert key new cache)
  insert-Holds key new cache p all k f g = go (get-insert key k new cache)
    where
      moved : some new ≡ some f → key ≡ k → P k f
      moved h e = subst (λ j. P j f) e (subst (λ x. P key x) (some-injective h) p)
        where
          some-injective : some new ≡ some f → new ≡ f
          some-injective i = cc

      held : (c : Bool) → (same key k) ≡ c → (if c then some new else get k cache) ≡ some f → P k f
      held true d h = moved h (same-sound key k d)
      held false d h = all k f h

      go :
          (get k (insert key new cache) ≡ none)
            ⊎ (get k (insert key new cache) ≡ (if same key k then some new else get k cache))
          → P k f
      go (inl gone) = absurd (none≢some (sym gone ∙ g))
      go (inr kept) = held (same key k) refl (sym kept ∙ g)

  pub remove-Holds : (key : ℕ) (cache : State) → Holds cache → Holds (remove key cache)
  remove-Holds key cache all k f g = held (same key k) (sym (get-remove key k cache) ∙ g)
    where
      held : (c : Bool) → (if c then none else get k cache) ≡ some f → P k f
      held true h = absurd (none≢some h)
      held false h = all k f h

  pub clear-Holds : (cache : State) → Holds (clear cache)
  clear-Holds cache k f g = absurd (none≢some (sym (get-clear k cache) ∙ g))
