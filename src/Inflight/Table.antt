-- ===== src/Inflight/Table.antt =====
-- The operations of src/upstream/inflight.rs on the shards as one map from ids to entries.
use pathdns.Base.{
  sym, guard, ℕ, zero, suc, ◌+◌, ◌-◌, ◌%◌, ◌^◌, ◌≡◌, ◌⊎◌, ◌∙◌, inl, inr, List, Bool, true, false,
  Option, none, some, ◌==◌, if◌then◌else◌, Option-cases, Bool-cases, arith, refl, ap,
}
use pathdns.Base.Assoc.{lookup, lookup-set_insert, lookup-set_erase}
use pathdns.Inflight.{
  Entry, InflightRegistry, InflightGuard, Registration, registered, cap_reached, table_full, shard,
  mix16, register_loop, try_acquire, release, guarded, register, drop_guard,
}

unfoldable pub in_flight : InflightRegistry → ℕ → Option Entry
in_flight registry id = lookup id (registry.shards (shard id))

-- `r'` is `r` but for the shards and the next id.
abbrev Keeps : InflightRegistry → InflightRegistry → Type 0
Keeps r r' =
    (r'.cap ≡ r.cap)
    × (r'.next_token ≡ r.next_token)
    × (r'.next_channel ≡ r.next_channel)
    × (r'.log ≡ r.log)

-- An entry is placed under a free id, and nothing else changes; or nothing changes.
abbrev pub Places : InflightRegistry → Entry → InflightRegistry → Option ℕ → Type 0
Places r entry r' none = (j : ℕ) → in_flight r' j ≡ in_flight r j
Places r entry r' (some id) =
    (in_flight r id ≡ none)
    × ((j : ℕ) → in_flight r' j ≡ (if id == j then some entry else in_flight r j))

register_loop-Places :
    (n : ℕ) (r : InflightRegistry) (entry : Entry)
    → Keeps r (register_loop n r entry).0
      × Places r entry (register_loop n r entry).0 (register_loop n r entry).1
unfolding register_loop in_flight
register_loop-Places zero r entry = ((refl, refl, refl, refl), λ j. refl)
register_loop-Places (suc n) r entry =
    let id = mix16 r.next_id in
    let rest = register_loop-Places n (record r { next_id = (r.next_id + 1) % 2 ^ 32 }) entry in
    elim (Option-cases (lookup id (r.shards (shard id)))) [
      | inl e ↦
          rw (e, register_loop)
            ((refl, refl, refl, refl), (e, λ j. lookup-set_insert shard r.shards id j entry))
      | inr (old, e) ↦ rw (e, register_loop) rest
    ]

-- What `register` comes to.
abbrev pub IsRegistered : InflightRegistry → ℕ → List ℕ → InflightRegistry → Registration → Type 0
IsRegistered r client_id question r' cap_reached = (r.cap ≡ some 0) × (r' ≡ r)
IsRegistered r client_id question r' table_full =
    ((j : ℕ) → in_flight r' j ≡ in_flight r j)
    × (r'.cap ≡ r.cap)
    × (r'.next_token ≡ (r.next_token + 1) % 2 ^ 64)
    × (r'.log ≡ r.log)
IsRegistered r client_id question r' (registered id tx guard) =
    Places r
      (record {
        tx = r.next_channel;
        client_id = client_id;
        question = question;
        token = r.next_token;
      })
      r' (some id)
    × (tx ≡ r.next_channel)
    × (guard.id ≡ id)
    × (guard.token ≡ r.next_token)
    × (try_acquire r.cap ≡ some (r'.cap, guard.permit))
    × (r'.next_token ≡ (r.next_token + 1) % 2 ^ 64)
    × (r'.log ≡ r.log)

try_acquire-cases :
    (cap : Option ℕ)
    → ((try_acquire cap ≡ none) × (cap ≡ some 0))
      ⊎ ((left : Option ℕ) × (permit : Bool) × (try_acquire cap ≡ some (left, permit))
          × (release permit left ≡ cap))
unfolding try_acquire release
try_acquire-cases none = inr (none, false, refl, refl)
try_acquire-cases (some zero) = inl (refl, refl)
try_acquire-cases (some (suc n)) = inr (some n, true, refl, refl)

-- The registry that the search for an id starts from, and the entry that it stores.
abbrev start : InflightRegistry → Option ℕ → InflightRegistry
start r left = record r {
  cap = left;
  next_channel = r.next_channel + 1;
  next_token = (r.next_token + 1) % 2 ^ 64;
}

abbrev new_entry : InflightRegistry → ℕ → List ℕ → Entry
new_entry r client_id question = record {
  tx = r.next_channel;
  client_id = client_id;
  question = question;
  token = r.next_token;
}

guarded-IsRegistered :
    (r : InflightRegistry) (client_id : ℕ) (question : List ℕ) (left : Option ℕ) (permit : Bool)
    (s : InflightRegistry × Option ℕ)
    → release permit left ≡ r.cap
    → try_acquire r.cap ≡ some (left, permit)
    → Keeps (start r left) s.0
    → Places (start r left) (new_entry r client_id question) s.0 s.1
    → IsRegistered r client_id question
        (guarded r.next_channel r.next_token permit s).0
        (guarded r.next_channel r.next_token permit s).1
unfolding guarded in_flight
guarded-IsRegistered r client_id question left permit (r', none) back took (c, t, n, l) placed =
    (placed, ap (release permit) c ∙ back, t, l)
guarded-IsRegistered r client_id question left permit (r', some id) back took (c, t, n, l) placed =
    (placed, refl, refl, refl, took ∙ ap (λ k. some (k, permit)) (sym c), t, l)

-- `register` refuses without a change exactly as its last permit is taken; or finds no free id,
-- and gives its permit back with no entry changed; or places an entry with the next token and
-- channel, the client's id and question under an id that was free, changes no other entry, and
-- takes the permit that its guard holds.
pub register-IsRegistered :
    (r : InflightRegistry) (client_id : ℕ) (question : List ℕ)
    → IsRegistered r client_id question
        (register r client_id question).0
        (register r client_id question).1
unfolding register
register-IsRegistered r client_id question = elim (try_acquire-cases r.cap) [
  | inl (e, full) ↦ rw (e, register) (full, refl)
  | inr (left, permit, e, back) ↦
      let (kept, placed) =
        register_loop-Places (2 ^ 16 - 1) (start r left) (new_entry r client_id question) in
      rw (e, register)
        (guarded-IsRegistered r client_id question left permit
          (register_loop (2 ^ 16 - 1) (start r left) (new_entry r client_id question)) back e kept
          placed)
]

-- Dropping a guard removes the entry under its id if that entry has the guard's token, leaves
-- every other entry, returns the guard's permit and sends nothing.
pub drop_guard-in_flight :
    (r : InflightRegistry) (guard : InflightGuard) (j : ℕ)
    → (in_flight (drop_guard r guard) j ≡ (
        if guard.id == j
        then elim (in_flight r j) [
          | none ↦ none
          | some entry ↦ if entry.token == guard.token then none else some entry
        ]
        else in_flight r j))
      × ((drop_guard r guard).cap ≡ release guard.permit r.cap)
      × ((drop_guard r guard).log ≡ r.log)
unfolding drop_guard in_flight
drop_guard-in_flight r guard j = elim (Option-cases (lookup guard.id (r.shards (shard guard.id)))) [
  | inl e ↦ rw (e, drop_guard) (ground (arith, e, same), refl, refl)
  | inr (entry, e) ↦ elim (Bool-cases (entry.token == guard.token)) [
    | inl t ↦
        rw (e, t, drop_guard)
          (lookup-set_erase shard r.shards guard.id j ∙ ground (arith, e, t, same), refl, refl)
    | inr t ↦ rw (e, t, drop_guard) (ground (arith, e, t, same), refl, refl)
  ]
]
  where
    same :
        guard.id ≡ j → lookup guard.id (r.shards (shard guard.id)) ≡ lookup j (r.shards (shard j))
    same x = ap (λ i. lookup i (r.shards (shard i))) x
