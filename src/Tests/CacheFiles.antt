-- ===== src/Tests/CacheFiles.antt =====
-- The file of the response cache.
use pathdns.Base.{
  ℕ, ◌+◌, ◌*◌, ◌≤◌, ◌≡◌, length, take, drop, List, [], ◌∷◌, true, none, some, ok, panic, refl,
  arith,
}
use pathdns.Dns.Variant.{extract_variant}
use pathdns.Dns.Edns.{find_opt_record}
use pathdns.Cache.{Entry, KeyedLookup, DnsCache, lookup_into_keyed, second}
use pathdns.Cache.Lookup.{holding}
use pathdns.Cache.File.{live_entries, load_entry, Stored, save_to_file, load_from_file}
use pathdns.Cache.File.Reload.{
  IsSaved, HasEnded, IsWritten, IsPast, IsPut, file_of, load_from_file-save_to_file,
}
use pathdns.Cache.File.Unchecked.{loaded, load_entry-lookup_panics}
use pathdns.Persist.Passes.{Passes, insert_all}
use pathdns.Tests.Packets.{query, response, queries}
use pathdns.Tests.Cache.{entries_by_key, variant, State, entry, request, cache_off}

-- The 200 seconds of the entry are saved after 10 of them.
live : live_entries ((7, entry) ∷ []) (15 * second) ≡ (7, entry, 190) ∷ []
unfolding live_entries
live = refl

entry_variant : extract_variant query 19 ≡ ok variant
unfolding extract_variant find_opt_record queries
entry_variant = refl

entry-IsSaved : IsSaved (λ s. true) 1000 (7, entry, 190)
entry-IsSaved = record {
  storable = record {
    key = omega arith;
    expire = omega arith;
    ttl = omega arith;
    question = omega arith;
    packet = omega arith;
    query = omega arith;
    qname = omega arith;
    count = omega arith;
    offsets = ((omega arith, omega arith), tt);
    rule_id = omega arith;
  };
  question_from = omega arith;
  question_to = omega arith;
  variant = entry_variant;
  name = refl;
}

abbrev holder : DnsCache State
holder = holding entries_by_key cache_off (some (7, entry))

abbrev emptied : DnsCache State
emptied = holding entries_by_key cache_off none

load_from_file-save_to_file_example :
    (kept : List (ℕ × Entry × ℕ)) × (put : List (ℕ × Entry)) × Passes
      (HasEnded (15 * second))
      (IsWritten (15 * second))
      ((7, entry) ∷ [])
      kept
    × Passes (IsPast 1000 1060) (IsPut 1000 1060 (90 * second)) kept put
    × (save_to_file entries_by_key (λ s. true) holder 77 1000 (15 * second)
        ≡ some (file_of entries_by_key (λ s. true) kept 77 1000, length kept))
    × (load_from_file entries_by_key
          (λ s. true)
          emptied
          (file_of entries_by_key (λ s. true) kept 77 1000)
          77
          1060
          (90 * second)
        ≡ (record emptied { cache = some (insert_all entries_by_key put none) }, ok (length put)))
load_from_file-save_to_file_example =
    load_from_file-save_to_file entries_by_key (λ s. true) holder emptied (some (7, entry)) none 77
      1000 (15 * second) 1060 (90 * second) refl refl (omega arith) (rw live (omega arith))
      (rw live (entry-IsSaved, tt))

abbrev short_query : Stored
short_query = record {
  key = 7;
  expire_unix = 1190;
  raw_ttl = 200;
  question = drop 12 query;
  packet = response;
  query = take 12 query;
  qname_bytes = b'a' ∷ [];
  offsets = [];
  entry_rule_id = 3;
}

load_entry-lookup_panics_example :
    (e : Entry) × (load_entry (λ s. true) short_query 1060 (90 * second) ≡ ok (some e))
    × ((self : DnsCache State) (cache : State) (request : KeyedLookup) (later : ℕ)
        → entries_by_key.get request.key cache ≡ some e
        → request.question_end ≡ 12 + length (drop 12 query)
        → request.question_end ≤ length request.query
        → lookup_into_keyed entries_by_key (holding entries_by_key self cache) request later
          ≡ panic)
load_entry-lookup_panics_example =
    load_entry-lookup_panics entries_by_key (λ s. true) short_query 1060 (90 * second) (omega arith)
      refl (omega arith) (omega arith) (omega arith)

-- The entry of 200 seconds with 100 of them left, loaded 30 seconds after the start of the machine.
abbrev aged : Stored
aged = record {
  key = 7;
  expire_unix = 1160;
  raw_ttl = 200;
  question = drop 12 query;
  packet = response;
  query = query;
  qname_bytes = b'a' ∷ [];
  offsets = (25, 200) ∷ [];
  entry_rule_id = 3;
}

abbrev young : Entry
young = loaded aged variant 1060 (30 * second)
