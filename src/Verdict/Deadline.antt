-- ===== src/Verdict/Deadline.antt =====
-- When a verdict is answered (src/verdict_cache.rs).
use pathdns.Base.{
  ℕ, ◌≤◌, ◌≡◌, ◌⊎◌, ◌∙◌, List, Bool, true, false, Option, none, some, if◌then◌else◌, inl, inr, refl,
  ap, sym, arith,
}
use pathdns.Cache.Backend.{Store}
use pathdns.Verdict.{VerdictEntry, is_expired, get_verdict, add}

module _ (S : Store (List ℕ) VerdictEntry) where
  open S use {State, same, get, insert, get-insert}

  -- What `get` answers of the entry that the map yields.
  abbrev answer : ℕ → ℕ → Option VerdictEntry → Option Bool
  answer ttl_secs now none = none
  answer ttl_secs now (some e) =
      if is_expired ttl_secs e.inserted_unix now then none else some e.is_primary

  get_verdict-answer :
      (ttl_secs : ℕ) (cache : State) (qname : List ℕ) (now : ℕ)
      → get_verdict S (record { inner = some cache; ttl_secs = ttl_secs }) qname now
        ≡ answer ttl_secs now (get qname cache)
  unfolding get_verdict
  get_verdict-answer ttl cache qname now = go (get qname cache) refl
    where
      go :
          (o : Option VerdictEntry)
          → get qname cache ≡ o
          → get_verdict S (record { inner = some cache; ttl_secs = ttl }) qname now
            ≡ answer ttl now o
      go none e = rw (get_verdict, e) refl
      go (some v) e = rw (get_verdict, e) refl

  -- After `add` of a name, `get` of any name answers none, if the map has evicted it, or else:
  -- for the same name the added verdict, and none once the time to live has passed since; for
  -- another name what it answered before.
  pub get_verdict-add :
      (ttl_secs : ℕ) (cache : State) (qname other : List ℕ) (is_primary : Bool) (now later : ℕ)
      → (get_verdict S
            (add S (record { inner = some cache; ttl_secs = ttl_secs }) qname is_primary now)
            other
            later
          ≡ none)
        ⊎ (get_verdict S
              (add S (record { inner = some cache; ttl_secs = ttl_secs }) qname is_primary now)
              other
              later
            ≡ (if same qname other
                then (if is_expired ttl_secs now later then none else some is_primary)
                else get_verdict S
                    (record { inner = some cache; ttl_secs = ttl_secs })
                    other
                    later))
  unfolding add
  get_verdict-add ttl cache qname other b now later =
      let new : VerdictEntry = record { is_primary = b; inserted_unix = now } in
      let read = get_verdict-answer ttl (insert qname new cache) other later in
      elim (get-insert qname other new cache) [
        | inl gone ↦ inl (read ∙ ap (λ o. answer ttl later o) gone)
        | inr held ↦ inr (read ∙ ap (λ o. answer ttl later o) held ∙ either (same qname other) new)
      ]
    where
      either :
          (c : Bool) (v : VerdictEntry)
          → answer ttl later (if c then some v else get other cache) ≡ (
              if c
              then (if is_expired ttl v.inserted_unix later then none else some v.is_primary)
              else get_verdict S (record { inner = some cache; ttl_secs = ttl }) other later)
      either true v = refl
      either false v = sym (get_verdict-answer ttl cache other later)

-- A verdict that has run out stays so; with a lifetime of 0 seconds none ever does.
pub is_expired_from :
    (ttl_secs inserted now later : ℕ)
    → now ≤ later
    → is_expired ttl_secs inserted now ≡ true
    → is_expired ttl_secs inserted later ≡ true
unfolding is_expired
is_expired_from ttl_secs inserted now later h e = ground arith
