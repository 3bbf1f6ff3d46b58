-- ===== src/Inflight/Guards.antt =====
-- Guards that outlive their query, with the calls of all other queries in between
-- (src/upstream/inflight.rs).
use pathdns.Base.{
  ℕ, ◌+◌, ◌^◌, ◌<◌, ◌≡◌, ◌≢◌, ◌∙◌, List, Bool, true, false, Option, none, some, ok, ◌==◌,
  if◌then◌else◌, Bool-cases, Returns-ok, subst, inl, inr, arith, refl, sym,
}
use pathdns.Base.Bytes.{IsBytes, word16}
use pathdns.Inflight.{
  Entry, InflightRegistry, InflightGuard, registered, delivered, new, register, complete,
  drop_guard,
}
use pathdns.Inflight.Table.{in_flight, IsRegistered, register-IsRegistered, drop_guard-in_flight}
use pathdns.Inflight.Tokens.{Steps, Given, new-Given, Only, Only-Steps, Tokens-Steps, none-some}
use pathdns.Inflight.Complete.{IsCompleted, complete-IsCompleted}

-- Right after a registration its token stands under its id only.
registered-Only :
    (r r' : InflightRegistry) (client_id id tx : ℕ) (question : List ℕ) (guard : InflightGuard)
    → r.next_token + 1 < 2 ^ 64
    → register r client_id question ≡ (r', registered id tx guard)
    → Given r
    → Only guard.token (λ j. j ≡ id) r'
registered-Only r r' client_id id tx question guard small e (_, given) =
    let ((_, after), _, _, tok, _, n, _) =
      subst (λ s. IsRegistered r client_id question s.0 s.1) e
        (register-IsRegistered r client_id question) in
    (
      omega arith,
      λ j f h same. elim (Bool-cases (id == j)) [
        | inl here ↦ ground arith
        | inr other ↦
            let old : in_flight r j ≡ some f = ground (arith, after j, h, other) in
            absurd (omega (arith, given j f old))
      ],
    )

-- The delivery of a response leaves no entry with the token of its registration.
delivered-Only :
    (r r' : InflightRegistry) (packet packet' : List ℕ) (id t : ℕ)
    → IsBytes packet
    → word16 packet 0 ≡ id
    → complete r packet ≡ ok (r', packet', delivered)
    → Only t (λ j. j ≡ id) r
    → Only t (λ j. ⊥) r'
delivered-Only r r' packet packet' id t b at_id e (low, only) =
    let (id', entry, q, a, _, _, _, after, _, _, n) =
      Returns-ok (IsCompleted r packet) (complete r packet) (r', packet', delivered)
        (complete-IsCompleted r packet b) e in
    (
      omega arith,
      λ j f h same. elim (Bool-cases (id' == j)) [
        | inl here ↦
            let gone : in_flight r' j ≡ none = ground (arith, after j, here) in
            absurd (none-some (sym gone ∙ h))
        | inr other ↦
            let old : in_flight r j ≡ some f = ground (arith, after j, h, other) in
            let place : j ≡ id = only j f old same in ground (arith, a.id_at)
      ],
    )

-- A guard whose token stands nowhere removes nothing.
kept :
    (b : Bool) (o : Option Entry) (t : ℕ)
    → ((e : Entry) → o ≡ some e → e.token ≢ t)
    → (if b
        then elim o [ none ↦ none | some entry ↦ if entry.token == t then none else some entry ]
        else o)
      ≡ o
kept true none t h = refl
kept true (some entry) t h = let other = h entry refl in ground arith
kept false o t h = refl

-- In a registry that any calls made from a new one, take a query registered before the 64-bit
-- counter of tokens ends and answered by a packet of bytes that is delivered under its id, with
-- any calls in between; after any further calls, in which the id may have been given to another
-- query, dropping the query's guard removes no entry.
pub stale_guard :
    (seed max_inflight client_id tx id : ℕ) (question packet packet' : List ℕ)
    (guard : InflightGuard) (r₀ r₁ r₂ r₃ r₄ : InflightRegistry)
    → Steps (new seed max_inflight) r₀
    → r₀.next_token + 1 < 2 ^ 64
    → register r₀ client_id question ≡ (r₁, registered id tx guard)
    → Steps r₁ r₂
    → IsBytes packet
    → word16 packet 0 ≡ id
    → complete r₂ packet ≡ ok (r₃, packet', delivered)
    → Steps r₃ r₄
    → (j : ℕ) → in_flight (drop_guard r₄ guard) j ≡ in_flight r₄ j
stale_guard seed max_inflight client_id tx id question packet packet' guard r₀ r₁ r₂ r₃ r₄ s small e
      s' b at_id e' s'' j =
    let given =
      Tokens-Steps (λ n j t. t < n) 0 (λ n j t h. omega arith) (λ n j l. omega arith) _ r₀ s
        (new-Given seed max_inflight) in
    let mine = registered-Only r₀ r₁ client_id id tx question guard small e given in
    let gone =
      delivered-Only r₂ r₃ packet packet' id guard.token b at_id e'
        (Only-Steps guard.token (λ j. j ≡ id) r₁ r₂ s' mine) in
    let (_, none_left) = Only-Steps guard.token (λ j. ⊥) r₃ r₄ s'' gone in
    (drop_guard-in_flight r₄ guard j).0
    ∙ kept (guard.id == j) (in_flight r₄ j) guard.token (λ f h. none_left j f h)
