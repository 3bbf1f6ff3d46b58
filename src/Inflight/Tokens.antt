-- ===== src/Inflight/Tokens.antt =====
-- Where the tokens of registrations stand, along any calls
-- (src/upstream/inflight.rs).
use pathdns.Base.{
  ℕ, ◌+◌, ◌^◌, ◌≤◌, ◌<◌, ◌≡◌, ◌≢◌, ◌∙◌, List, Bool, true, false, Option, none, some, ok, ◌==◌,
  if◌then◌else◌, Returns-ok, subst, arith, refl, ap, sym,
}
use pathdns.Base.Bytes.{IsBytes}
use pathdns.Base.Assoc.{lookup}
use pathdns.Inflight.{
  Entry, InflightRegistry, InflightGuard, Registration, registered, cap_reached, table_full,
  Completion, delivered, no_waiter, mismatch, new, register, complete, clear, drop_guard,
}
use pathdns.Inflight.Table.{in_flight, IsRegistered, register-IsRegistered, drop_guard-in_flight}
use pathdns.Inflight.Complete.{IsCompleted, complete-IsCompleted}

-- One call. The 64-bit counter of tokens does not come around.
pub data Step (r r' : InflightRegistry) : Type 0 where
  registers :
      (client_id : ℕ) (question : List ℕ)
      → r.next_token + 1 < 2 ^ 64
      → r' ≡ (register r client_id question).0
      → Step r r'
  completes :
      (packet packet' : List ℕ) (c : Completion)
      → IsBytes packet
      → complete r packet ≡ ok (r', packet', c)
      → Step r r'
  drops : (guard : InflightGuard) → r' ≡ drop_guard r guard → Step r r'
  clears : r' ≡ clear r → Step r r'

pub data Steps (r : InflightRegistry) : InflightRegistry → Type 0 where
  done : Steps r r
  more : {r' r'' : InflightRegistry} → Steps r r' → Step r' r'' → Steps r r''

-- `Q` holds of the place and the token of every entry, and `b` bounds the tokens to come.
abbrev pub Tokens : (ℕ → ℕ → ℕ → Type 0) → ℕ → InflightRegistry → Type 0
Tokens Q b r =
    (b ≤ r.next_token)
    × ((j : ℕ) (entry : Entry) → in_flight r j ≡ some entry → Q r.next_token j entry.token)

-- What is still there was there before.
abbrev Shrinks : InflightRegistry → InflightRegistry → Type 0
Shrinks r r' =
    (r'.next_token ≡ r.next_token)
    × ((j : ℕ) (entry : Entry) → in_flight r' j ≡ some entry → in_flight r j ≡ some entry)

pub none-some : {e : Entry} → none ≢ some e
none-some h = cc

some-injective : {a b : Entry} → some a ≡ some b → a ≡ b
some-injective h = cc

erased : (b : Bool) (o : Option Entry) (e : Entry) → (if b then none else o) ≡ some e → o ≡ some e
erased true o e h = cc
erased false o e h = h

completed-Shrinks :
    (r r' : InflightRegistry) (packet packet' : List ℕ) (c : Completion)
    → IsCompleted r packet (r', packet', c)
    → Shrinks r r'
completed-Shrinks r r' packet packet' no_waiter (e, _) =
    (ap (λ s. s.next_token) e, λ j f h. ap (λ s. in_flight s j) (sym e) ∙ h)
completed-Shrinks r r' packet packet' (mismatch id) (e, _, _) =
    (ap (λ s. s.next_token) e, λ j f h. ap (λ s. in_flight s j) (sym e) ∙ h)
completed-Shrinks r r' packet packet' delivered (id, entry, q, a, _, _, _, after, _, _, t) =
    (t, λ j e h. erased (id == j) (in_flight r j) e (sym (after j) ∙ h))

dropped :
    (b : Bool) (o : Option Entry) (t : ℕ) (e : Entry)
    → (if b
        then elim o [ none ↦ none | some entry ↦ if entry.token == t then none else some entry ]
        else o)
      ≡ some e
    → o ≡ some e
dropped true none t e h = h
dropped true (some entry) t e h = erased (entry.token == t) (some entry) e h
dropped false o t e h = h

drop_guard-Shrinks : (r : InflightRegistry) (guard : InflightGuard) → Shrinks r (drop_guard r guard)
unfolding drop_guard
drop_guard-Shrinks r guard = (
  refl,
  λ j e h.
      dropped (guard.id == j) (in_flight r j) guard.token e
        (sym (drop_guard-in_flight r guard j).0 ∙ h),
)

clear-Shrinks : (r : InflightRegistry) → Shrinks r (clear r)
unfolding clear in_flight lookup
clear-Shrinks r = (refl, λ j e h. absurd (none-some h))

module _ (Q : ℕ → ℕ → ℕ → Type 0) (b : ℕ) (grows : (n j t : ℕ) → Q n j t → Q (n + 1) j t)
    (fresh : (n j : ℕ) → b ≤ n → Q (n + 1) j n) where
  Tokens-Shrinks : (r r' : InflightRegistry) → Tokens Q b r → Shrinks r r' → Tokens Q b r'
  unfolding in_flight
  Tokens-Shrinks r r' (low, all) (e, sub) = rw e (low, λ j entry h. all j entry (sub j entry h))

  Tokens-registered :
      (r r' : InflightRegistry) (client_id : ℕ) (question : List ℕ) (result : Registration)
      → r.next_token + 1 < 2 ^ 64
      → IsRegistered r client_id question r' result
      → Tokens Q b r
      → Tokens Q b r'
  unfolding in_flight
  Tokens-registered r r' client_id question cap_reached small (_, e) t =
      subst (Tokens Q b) (sym e) t
  Tokens-registered r r' client_id question table_full small (same, _, n, _) (low, all) =
      let n' : r'.next_token ≡ r.next_token + 1 = omega arith in
      rw n' (
        omega arith,
        λ j entry h. grows r.next_token j entry.token (all j entry (sym (same j) ∙ h)),
      )
  Tokens-registered r r' client_id question (registered id tx guard) small
        ((_, after), _, _, _, _, n, _) (low, all) =
      let n' : r'.next_token ≡ r.next_token + 1 = omega arith in
      rw n' (omega arith, λ j entry h. placed j entry (id == j) (sym (after j) ∙ h))
    where
      new_entry : Entry
      new_entry = record {
        tx = r.next_channel;
        client_id = client_id;
        question = question;
        token = r.next_token;
      }

      placed :
          (j : ℕ) (entry : Entry) (c : Bool)
          → (if c then some new_entry else in_flight r j) ≡ some entry
          → Q (r.next_token + 1) j entry.token
      placed j entry true h =
          subst (λ n. Q (r.next_token + 1) j n) (ap (λ e. e.token) (some-injective h))
            (fresh r.next_token j low)
      placed j entry false h = grows r.next_token j entry.token (all j entry h)

  Tokens-Step : (r r' : InflightRegistry) → Step r r' → Tokens Q b r → Tokens Q b r'
  Tokens-Step r r' (registers c q small e) t =
      Tokens-registered r r' c q (register r c q).1 small
        (subst (λ s. IsRegistered r c q s (register r c q).1) (sym e) (register-IsRegistered r c q))
        t
  Tokens-Step r r' (completes p p' c bytes e) t = Tokens-Shrinks r r' t (
      completed-Shrinks r r' p p' c (
        Returns-ok (IsCompleted r p) (complete r p) (r', p', c) (complete-IsCompleted r p bytes) e))
  Tokens-Step r r' (drops g e) t =
      subst (Tokens Q b) (sym e) (Tokens-Shrinks r (drop_guard r g) t (drop_guard-Shrinks r g))
  Tokens-Step r r' (clears e) t =
      subst (Tokens Q b) (sym e) (Tokens-Shrinks r (clear r) t (clear-Shrinks r))

  pub Tokens-Steps : (r r' : InflightRegistry) → Steps r r' → Tokens Q b r → Tokens Q b r'
  Tokens-Steps r _ done t = t
  Tokens-Steps r r' (more ss step) t = Tokens-Step _ r' step (Tokens-Steps r _ ss t)

-- Every token in the table has been given out.
abbrev pub Given : InflightRegistry → Type 0
Given r = Tokens (λ n j t. t < n) 0 r

pub new-Given : (seed max_inflight : ℕ) → Given (new seed max_inflight)
unfolding new in_flight lookup
new-Given seed max_inflight = (omega arith, λ j e h. absurd (none-some h))

-- The entries that have a token stand where `P` holds.
abbrev pub Only : ℕ → (ℕ → Type 0) → InflightRegistry → Type 0
Only t P r = Tokens (λ n j u. u ≡ t → P j) (t + 1) r

pub Only-Steps :
    (t : ℕ) (P : ℕ → Type 0) (r r' : InflightRegistry) → Steps r r' → Only t P r → Only t P r'
Only-Steps t P = Tokens-Steps _ (t + 1) (λ n j u h. h) (λ n j l e. absurd (omega arith))
