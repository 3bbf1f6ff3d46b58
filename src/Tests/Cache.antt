-- ===== src/Tests/Cache.antt =====
-- The response cache.
use pathdns.Base.{
  ℕ, ◌*◌, ◌≡◌, List, [], ◌∷◌, true, false, Option, none, some, ok, ◌==◌, refl, arith,
}
use pathdns.Dns.Variant.{QueryVariant, no_edns}
use pathdns.Cache.Backend.{Store}
use pathdns.Cache.{
  Entry, CacheInsert, ResolvedCachePolicy, KeyedLookup, CacheLookupMeta, DnsCache, new,
  lookup_into_keyed, second,
}
use pathdns.Base.{Bool-cases, inl, inr, if◌then◌else◌, subst}
use pathdns.Base.Bytes.{slice, le_bytes}
use pathdns.Hasher
use pathdns.Cache.{CacheProbe, get_into_with_ecs_fallback}
use pathdns.Cache.Key.{finish_cache_key}
use pathdns.Cache.Holds.{Holds}
use pathdns.Cache.Fallback.{IsProbed, get_into_with_ecs_fallback-IsProbed}
use pathdns.Cache.Serve.{IsSound}
use pathdns.Cache.Lookup.{Lookup, holding, lookup_into_keyed-Lookup}
use pathdns.Cache.Runs.{Call, add_response, look_up, run, MadeBy, IsAnswer, lookup_after_run}
use pathdns.Cache.Key.{cache_key_with_variant, cache_key_from_qname_hash}
use pathdns.Cache.Key.Agree.{cache_key-agree}
use pathdns.Tests.OneEntry.{one_entry}
use pathdns.Tests.Packets.{query, response, info, query-IsBytes, response-IsBytes, query_parsed}

pub ==-sound : (k j : ℕ) → (k == j) ≡ true → k ≡ j
==-sound k j h = ground arith

pub ==_refl : (k : ℕ) → (k == k) ≡ true
==_refl k = ground arith

abbrev pub entries_by_key : Store ℕ Entry
entries_by_key = one_entry (λ k j. k == j) ==-sound ==_refl

abbrev pub variant : QueryVariant
variant = no_edns true false false

abbrev ins : CacheInsert
ins = record {
  key = 7;
  qname = b'a' ∷ [];
  question_end = 19;
  query = query;
  variant = variant;
  packet = response;
}

abbrev policy : ResolvedCachePolicy
policy = record { skip = false; nodata_ttl = 0; min_ttl = 60; max_ttl = 200 }

abbrev pub request : KeyedLookup
request = record {
  key = 7;
  query = query;
  question_end = 19;
  client_id = 0xabcd;
  strip_ecs = false;
  variant = variant;
  collect_qname = true;
}

abbrev calls : List Call
calls = add_response ins policy 3 (5 * second) ∷ look_up request (6 * second) ∷ []

abbrev pub State : Type 0
State = Option (ℕ × Entry)

lookup_after_run_example :
    (before : DnsCache State) × (after : DnsCache State) × (answer : Option
      (List ℕ × CacheLookupMeta))
    × (run entries_by_key calls (new entries_by_key 100 60 200) ≡ ok before)
    × (lookup_into_keyed entries_by_key before request (15 * second) ≡ ok (after, answer))
    × IsAnswer (MadeBy calls) request (15 * second) answer
lookup_after_run_example =
    lookup_after_run entries_by_key 100 60 200 calls request (15 * second) (omega arith)
      (
        record {
          question_from = omega arith;
          question_to = omega arith;
          bytes = response-IsBytes;
          short = omega arith;
          min_ttl = omega arith;
        },
        (omega arith, tt),
      )
      (omega arith)

abbrev pub entry : Entry
entry = record {
  packet = response;
  query = query;
  qname = b'a' ∷ [];
  question_end = 19;
  variant = variant;
  inserted = 5 * second;
  ttl = 200;
  ttl_offsets = (25, 200) ∷ [];
  rule_id = 3;
}

entry-IsSound : IsSound entry
entry-IsSound = record {
  question_from = omega arith;
  question_to = omega arith;
  packet_to = omega arith;
  behind = (omega arith, tt);
  fits = (omega arith, tt);
  spaced = (tt, tt);
  small = (omega arith, tt);
}

abbrev pub cache_off : DnsCache State
cache_off = record { cache = none; min_ttl = 60; max_ttl = 200 }

lookup_into_keyed-Lookup_example :
    Lookup entries_by_key
      (holding entries_by_key cache_off (some (7, entry)))
      (some (7, entry))
      request
      entry
      (15 * second)
      (lookup_into_keyed entries_by_key
        (holding entries_by_key cache_off (some (7, entry)))
        request
        (15 * second))
lookup_into_keyed-Lookup_example =
    lookup_into_keyed-Lookup entries_by_key cache_off (some (7, entry)) request entry (15 * second)
      refl entry-IsSound (omega arith) (omega arith) (omega arith)

cache_key-agree_example :
    cache_key_with_variant query 19 variant true
    ≡ cache_key_from_qname_hash query 19 15065593090998171989 3 variant true
cache_key-agree_example = cache_key-agree query info variant true query-IsBytes query_parsed

-- The key that the query has.
abbrev query_key : ℕ
query_key = 6549366013545207214

abbrev pub stocked : Option (ℕ × Entry)
stocked = some (query_key, entry)

pub stocked-Holds : Holds entries_by_key (λ k e. IsSound e) stocked
stocked-Holds k e g = elim (Bool-cases (query_key == k)) [
  | inl same ↦ subst IsSound (same_entry same g) entry-IsSound
  | inr other ↦ absurd (nothing other g)
]
  where
    same_entry :
        (query_key == k) ≡ true → (if query_key == k then some entry else none) ≡ some e → entry ≡ e
    same_entry h i = cc

    nothing : (query_key == k) ≡ false → (if query_key == k then some entry else none) ≡ some e → ⊥
    nothing h i = cc

get_into_with_ecs_fallback-IsProbed_example :
    (cache' : State) × (answer : Option (List ℕ × CacheLookupMeta)) × (probe : CacheProbe)
    × (get_into_with_ecs_fallback entries_by_key
          (holding entries_by_key cache_off stocked)
          query
          info
          true
          (15 * second)
        ≡ ok (holding entries_by_key cache_off cache', answer, probe))
    × Holds entries_by_key (λ k e. IsSound e) cache'
    × IsProbed entries_by_key (λ k e. IsSound e) stocked query info true (15 * second) answer probe
get_into_with_ecs_fallback-IsProbed_example =
    get_into_with_ecs_fallback-IsProbed entries_by_key (λ k e. IsSound e) cache_off stocked query
      info true (15 * second) (λ k e h. h) stocked-Holds query-IsBytes query_parsed

hit_key : cache_key_from_qname_hash query 19 15065593090998171989 3 variant false ≡ ok query_key
unfolding cache_key_from_qname_hash finish_cache_key slice Hasher.write Hasher.write_byte le_bytes
hit_key = refl
