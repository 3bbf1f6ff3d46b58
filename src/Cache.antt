-- ===== src/Cache.antt =====
-- The response cache, src/cache.rs. The map behind it, a bounded one that may evict any entry at an
-- insertion, is the package quick_cache: an argument, with what its documentation says of it.
-- An `Instant` is a number of nanoseconds; an `Option` in the place of the map is a cache that is
-- switched off. The name of an entry, which is only handed on, is a list of bytes.
pub mod Entries
pub mod Key
pub mod Backend
pub mod Serve
pub mod Lookup
pub mod Add
pub mod Holds
pub mod Runs
pub mod Missed
pub mod Fallback
pub mod File
use pathdns.Base.{
  ℕ, ◌+◌, ◌-◌, ◌/◌, ◌^◌, min, List, [], ◌∷◌, ◌++◌, map, Bool, true, false, not, ◌&&◌, ◌||◌, Option,
  none, some, Outcome, ok, let_else, ◌>>=◌, leb, ltb, ◌==◌, if◌then◌else◌, length,
}
use pathdns.Base.Bytes.{slice}
use pathdns.Base.Splice.{splice}
use pathdns.Dns.Header.{set_id, is_truncated}
use pathdns.Dns.Query.{FastQueryInfo}
use pathdns.Dns.Question.{eq_bytes, questions_match}
use pathdns.Dns.Ttl.{TtlOffsets, effective_ttl_and_offsets, patch_ttls_at}
use pathdns.Dns.Variant.{QueryVariant, EcsSrc, extract_variant}
use pathdns.Cache.Key.{cache_key_from_qname_hash}
use pathdns.Cache.Backend.{Store}
unfoldable pub use pathdns.Cache.Entries.*

module _ (S : Store ℕ Entry) where
  open S use {State, with_capacity, get, insert, remove, clear, entries}

  -- `DnsCache::new`, with the fields of `CacheConfig`.
  unfoldable pub new : ℕ → ℕ → ℕ → DnsCache State
  new capacity min_ttl max_ttl = record {
    cache = if ltb 0 capacity then some (with_capacity capacity) else none;
    min_ttl = min_ttl;
    max_ttl = max_ttl;
  }

  unfoldable pub add :
      DnsCache State → CacheInsert → ResolvedCachePolicy → ℕ → ℕ → Outcome (DnsCache State)
  add self ins policy rule_id now = elim self.cache [
    | none ↦ ok self
    | some cache ↦ do
      entry ← entry_of ins policy rule_id now
      elim entry [
        | none ↦ ok self
        | some e ↦ ok (record self { cache = some (insert ins.key e cache) })
      ]
  ]

  unfoldable pub invalidate_all : DnsCache State → DnsCache State
  invalidate_all self = elim self.cache [
    | none ↦ self
    | some cache ↦ record self { cache = some (clear cache) }
  ]

  -- A lookup whose entry has been found: the match, the age, the packet. `out`, where there is one,
  -- takes the place of the caller's buffer, which is left as it is otherwise.
  unfoldable pub lookup_entry :
      DnsCache State
      → State
      → KeyedLookup
      → List ℕ
      → Entry
      → ℕ
      → Outcome (DnsCache State × Option (List ℕ × CacheLookupMeta))
  unfolding serve queries_match_v
  lookup_entry self cache request question entry now = do
    matched ←
        queries_match_v entry.variant request.variant entry.question_end entry.query request.query
          request.question_end request.strip_ecs
    if not matched
        then ok (self, none)
        else if leb entry.ttl (age_at now entry.inserted)
        then ok (record self { cache = some (remove request.key cache) }, none)
        else (do
          out ← serve entry request question (min (age_at now entry.inserted) (2 ^ 32 - 1))
          ok (
            self,
            some (
              out,
              record {
                qname = if request.collect_qname then some entry.qname else none;
                rule_id = entry.rule_id;
              },
            ),
          ))

  unfoldable pub lookup_into_keyed :
      DnsCache State
      → KeyedLookup
      → ℕ
      → Outcome (DnsCache State × Option (List ℕ × CacheLookupMeta))
  lookup_into_keyed self request now = elim self.cache [
    | none ↦ ok (self, none)
    | some cache ↦
        if ltb request.question_end 12 || ltb (length request.query) request.question_end
        then ok (self, none)
        else (do
          question ← slice request.query 12 request.question_end
          elim (get request.key cache) [
            | none ↦ ok (self, none)
            | some entry ↦ lookup_entry self cache request question entry now
          ])
  ]

  abbrev pub keyed : List ℕ → FastQueryInfo → QueryVariant → Bool → ℕ → Bool → KeyedLookup
  keyed query fast live_v collect_qname key strip_ecs = record {
    key = key;
    query = query;
    question_end = fast.question_end;
    client_id = fast.id;
    strip_ecs = strip_ecs;
    variant = live_v;
    collect_qname = collect_qname;
  }

  abbrev pub is_some {ℓ} : {A : Type ℓ} → Option A → Bool
  is_some none = false
  is_some (some a) = true

  -- The second probe, after a miss on the regular key.
  unfoldable pub probe_stripped :
      DnsCache State
      → List ℕ
      → FastQueryInfo
      → QueryVariant
      → ℕ
      → Bool
      → ℕ
      → Outcome (DnsCache State × Option (List ℕ × CacheLookupMeta) × CacheProbe)
  unfolding lookup_into_keyed
  probe_stripped self query fast live_v regular_key collect_qname now =
      if is_some live_v.ecs_src
      then (do
        sk ←
            cache_key_from_qname_hash query fast.question_end fast.qname_wire_hash
              fast.qname_wire_hash_end live_v true
        (self', hit) ← lookup_into_keyed self (keyed query fast live_v collect_qname sk true) now
        ok (
          self',
          hit,
          record { variant = live_v; regular_key = regular_key; stripped_key = some sk },
        ))
      else ok
          (self, none, record { variant = live_v; regular_key = regular_key; stripped_key = none })

  unfoldable pub get_into_with_ecs_fallback :
      DnsCache State
      → List ℕ
      → FastQueryInfo
      → Bool
      → ℕ
      → Outcome (DnsCache State × Option (List ℕ × CacheLookupMeta) × CacheProbe)
  unfolding lookup_into_keyed probe_stripped
  get_into_with_ecs_fallback self query fast collect_qname now = do
    live_v ← extract_variant query fast.question_end
    key ←
        cache_key_from_qname_hash query fast.question_end fast.qname_wire_hash
          fast.qname_wire_hash_end live_v false
    (self', hit) ← lookup_into_keyed self (keyed query fast live_v collect_qname key false) now
    elim hit [
      | some h ↦
          ok (self', some h, record { variant = live_v; regular_key = key; stripped_key = none })
      | none ↦ probe_stripped self' query fast live_v key collect_qname now
    ]

  -- What the callback of `for_each_rule_entry` is called with, one after the other.
  unfoldable pub rule_entries : List (ℕ × Entry) → ℕ → List (ℕ × List ℕ × ℕ)
  rule_entries [] now = []
  rule_entries ((_, entry) ∷ es) now =
      let rest = rule_entries es now in
      if entry.rule_id == 2 ^ 16 - 1
      then rest
      else if leb entry.ttl (age_at now entry.inserted)
      then rest
      else (entry.rule_id, entry.packet, entry.question_end) ∷ rest

  unfoldable pub for_each_rule_entry : DnsCache State → ℕ → List (ℕ × List ℕ × ℕ)
  unfolding rule_entries
  for_each_rule_entry self now = elim self.cache [
    | none ↦ []
    | some cache ↦ rule_entries (entries cache) now
  ]
