-- ===== src/Resolver/Race.antt =====
-- The race of two servers in src/resolver.rs, `race` and `pick_race_winner`.
use pathdns.Base.{
  ℕ, ◌≡◌, ◌⊎◌, inl, inr, List, Bool, true, false, Outcome, ok, reject, panic, stuck, ◌==◌,
  Bool-cases, refl, arith,
}
use pathdns.Dns.Header.{rcode}
use pathdns.Router.{Server}
use pathdns.Resolver.Exchange.{QueryContext, exchange_kind, pick_race_winner, race_from, race}

-- An exchange ends with a response or with an error.
abbrev pub Settled : Outcome (List ℕ) → Type 0
Settled m = ((r : List ℕ) × (m ≡ ok r)) ⊎ (m ≡ reject)

-- No response but a SERVFAIL.
abbrev pub HasFailed : Outcome (List ℕ) → Type 0
HasFailed m = ((r : List ℕ) × (m ≡ ok r) × (rcode r ≡ 2)) ⊎ (m ≡ reject)

-- The response of one side, under that side's index, and a SERVFAIL only if both sides failed; an
-- error only if both have one.
abbrev pub IsRaced : Outcome (List ℕ) → ℕ → Outcome (List ℕ) → ℕ → Outcome (List ℕ × ℕ) → Type 0
IsRaced a i b j result =
    ((r : List ℕ) × (k : ℕ) × (result ≡ ok (r, k))
      × (((a ≡ ok r) × (k ≡ i)) ⊎ ((b ≡ ok r) × (k ≡ j)))
      × ((rcode r ≡ 2) → HasFailed a × HasFailed b))
    ⊎ ((result ≡ reject) × (a ≡ reject) × (b ≡ reject))

IsRaced-swap :
    (a : Outcome (List ℕ)) (i : ℕ) (b : Outcome (List ℕ)) (j : ℕ) (result : Outcome (List ℕ × ℕ))
    → IsRaced a i b j result
    → IsRaced b j a i result
IsRaced-swap a i b j result (inl (r, k, e, inl from, f)) =
    inl (r, k, e, inr from, λ s. ((f s).1, (f s).0))
IsRaced-swap a i b j result (inl (r, k, e, inr from, f)) =
    inl (r, k, e, inl from, λ s. ((f s).1, (f s).0))
IsRaced-swap a i b j result (inr (e, f, g)) = inr (e, g, f)

race_from-IsRaced :
    (a : Outcome (List ℕ)) (i : ℕ) (b : Outcome (List ℕ)) (j : ℕ)
    → Settled a
    → Settled b
    → IsRaced a i b j (race_from a i b j)
unfolding race_from pick_race_winner
race_from-IsRaced (ok r) i b j sa sb = elim (Bool-cases (rcode r == 2)) [
  | inr c ↦ inl (r, i, rw c refl, inl (refl, refl), λ s. absurd (ground arith))
  | inl c ↦ elim sb [
    | inr e ↦ inl (r, i, rw (c, e) refl, inl (refl, refl), λ s. (inl (r, refl, s), inr e))
    | inl (q, e) ↦ elim (Bool-cases (rcode q == 2)) [
      | inr d ↦
          inl (q, j, rw (c, e, pick_race_winner, d) refl, inr (e, refl), λ s. absurd (ground arith))
      | inl d ↦ inl (
        r,
        i,
        rw (c, e, pick_race_winner, d) refl,
        inl (refl, refl),
        λ s. (inl (r, refl, s), inl (q, e, ground arith)),
      )
    ]
  ]
]
race_from-IsRaced reject i b j sa sb = elim sb [
  | inr e ↦ inr (rw e refl, refl, e)
  | inl (q, e) ↦ elim (Bool-cases (rcode q == 2)) [
    | inr d ↦
        inl (q, j, rw (e, pick_race_winner, d) refl, inr (e, refl), λ s. absurd (ground arith))
    | inl d ↦
        inl (q, j, rw (e, pick_race_winner, d) refl, inr (e, refl), λ s. (inr refl, inl (q, e, s)))
  ]
]
race_from-IsRaced panic i b j sa sb = absurd (no sa)
  where
    no : Settled panic → ⊥
    no (inl (r, e)) = cc
    no (inr e) = cc
race_from-IsRaced stuck i b j sa sb = absurd (no sa)
  where
    no : Settled stuck → ⊥
    no (inl (r, e)) = cc
    no (inr e) = cc

-- When each of two servers answers or fails, then, whichever is done first, `race` returns the
-- response of one under its index, and a SERVFAIL only if each side failed or sent a SERVFAIL; it
-- fails only if both fail.
pub race-IsRaced :
    (Pool : Type 0) (exchange : Pool → List ℕ → Outcome (List ℕ)) (ctx : QueryContext)
    (primary_first : Bool) (primary secondary : Server Pool)
    → Settled (exchange_kind Pool exchange ctx primary.kind)
    → Settled (exchange_kind Pool exchange ctx secondary.kind)
    → IsRaced
        (exchange_kind Pool exchange ctx primary.kind)
        primary.index
        (exchange_kind Pool exchange ctx secondary.kind)
        secondary.index
        (race Pool exchange ctx primary_first primary secondary)
unfolding race
race-IsRaced Pool exchange ctx true primary secondary p s = race_from-IsRaced _ _ _ _ p s
race-IsRaced Pool exchange ctx false primary secondary p s =
    IsRaced-swap _ _ _ _ _ (race_from-IsRaced _ _ _ _ s p)
