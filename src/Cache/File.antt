-- ===== src/Cache/File.antt =====
-- The persisted response cache, src/cache.rs: `save_to_file` and `load_from_file`, between the
-- entries and the bytes of the file. `now_unix` is the wall clock in seconds, `now` the monotonic one
-- in nanoseconds since the start of the machine; `is_utf8` stands for `std::str::from_utf8`.
pub mod RoundTrip
pub mod Reload
pub mod Unchecked
pub mod Young
use pathdns.Base.{
  ℕ, zero, suc, ◌+◌, ◌-◌, ◌*◌, ◌^◌, min, List, [], ◌∷◌, ◌++◌, map, Bool, Option, none, some,
  Outcome, ok, reject, panic, stuck, guard, let_else, ◌>>=◌, ◌>>◌, leb, ltb, ◌==◌, if◌then◌else◌,
  length,
}
use pathdns.Base.Bytes.{get_range, le_bytes}
use pathdns.Dns.Ttl.{TtlOffsets}
use pathdns.Dns.Variant.{extract_variant}
use pathdns.Persist.{read_number, read_bytes, write_bytes, write_header, read_and_check_header}
use pathdns.Cache.Backend.{Store}
use pathdns.Cache.{Entry, DnsCache, age_at, second}

-- "PDNSC009".
abbrev pub magic : List ℕ
magic = 80 ∷ 68 ∷ 78 ∷ 83 ∷ 67 ∷ 48 ∷ 48 ∷ 57 ∷ []

unfoldable pub write_offsets : TtlOffsets → List ℕ
write_offsets [] = []
write_offsets ((off, original_ttl) ∷ os) =
    le_bytes 4 off ++ (le_bytes 4 original_ttl ++ write_offsets os)

-- One entry, with the seconds that it has left.
unfoldable pub write_entry : ℕ → ℕ × Entry × ℕ → List ℕ
write_entry now_unix (key, entry, remaining) =
    le_bytes 8 key
    ++ (le_bytes 8 (now_unix + remaining)
        ++ (le_bytes 4 entry.ttl
            ++ (write_bytes (get_range entry.query 12 entry.question_end)
                ++ (write_bytes entry.packet
                    ++ (write_bytes entry.query
                        ++ (write_bytes entry.qname
                            ++ (le_bytes 4 (length entry.ttl_offsets)
                                ++ (write_offsets entry.ttl_offsets
                                    ++ le_bytes 2 entry.rule_id))))))))

unfoldable pub live_entries : List (ℕ × Entry) → ℕ → List (ℕ × Entry × ℕ)
live_entries [] now = []
live_entries ((key, entry) ∷ es) now =
    let rest = live_entries es now in
    let remaining = entry.ttl - age_at now entry.inserted in
    if remaining == 0 then rest else (key, entry, remaining) ∷ rest

unfoldable pub write_entries : ℕ → List (ℕ × Entry × ℕ) → List ℕ
write_entries now_unix [] = []
write_entries now_unix (e ∷ es) = write_entry now_unix e ++ write_entries now_unix es

-- What the file holds of one entry.
pub record Stored : Type 0 where
  pub key : ℕ
  pub expire_unix : ℕ
  pub raw_ttl : ℕ
  pub question : List ℕ
  pub packet : List ℕ
  pub query : List ℕ
  pub qname_bytes : List ℕ
  pub offsets : TtlOffsets
  pub entry_rule_id : ℕ

unfoldable pub read_offsets : ℕ → List ℕ → Outcome (TtlOffsets × List ℕ)
read_offsets zero r = ok ([], r)
read_offsets (suc n) r = do
  (off, r) ← read_number 4 r
  (original_ttl, r) ← read_number 4 r
  (os, r) ← read_offsets n r
  ok ((off, original_ttl) ∷ os, r)

unfoldable pub read_entry : List ℕ → Outcome (Stored × List ℕ)
read_entry r = do
  (key, r) ← read_number 8 r
  (expire_unix, r) ← read_number 8 r
  (raw_ttl, r) ← read_number 4 r
  (question, r) ← read_bytes r
  (packet, r) ← read_bytes r
  (query, r) ← read_bytes r
  (qname_bytes, r) ← read_bytes r
  (offsets_count, r) ← read_number 4 r
  guard (leb offsets_count (2 ^ 16 - 1))
  (offsets, r) ← read_offsets offsets_count r
  (entry_rule_id, r) ← read_number 2 r
  ok (
    record {
      key = key;
      expire_unix = expire_unix;
      raw_ttl = raw_ttl;
      question = question;
      packet = packet;
      query = query;
      qname_bytes = qname_bytes;
      offsets = offsets;
      entry_rule_id = entry_rule_id;
    },
    r,
  )

-- `now_instant.checked_sub(age)`, with the TTL that goes with it.
unfoldable pub re_anchor : ℕ → ℕ → ℕ → ℕ × ℕ
re_anchor raw_ttl remaining now =
    let age = (raw_ttl - remaining) * second in
    if leb age now then (now - age, raw_ttl) else (now, min remaining raw_ttl)

-- The entry that is inserted, `none` for one that is skipped.
unfoldable pub load_entry : (List ℕ → Bool) → Stored → ℕ → ℕ → Outcome (Option Entry)
unfolding re_anchor
load_entry is_utf8 s now_unix now =
    if leb s.expire_unix now_unix
    then ok none
    else (let (inserted, ttl) = re_anchor s.raw_ttl (s.expire_unix - now_unix) now in
        if is_utf8 s.qname_bytes
        then (do
          variant ← extract_variant s.query (12 + length s.question)
          ok (
              some (record {
                packet = s.packet;
                query = s.query;
                qname = s.qname_bytes;
                question_end = 12 + length s.question;
                variant = variant;
                inserted = inserted;
                ttl = ttl;
                ttl_offsets = s.offsets;
                rule_id = s.entry_rule_id;
              })))
        else ok none)

module _ (S : Store ℕ Entry) (is_utf8 : List ℕ → Bool) where
  open S use {State, insert, entries}

  -- The bytes of the file and the count, `none` where no file is written.
  unfoldable pub save_to_file : DnsCache State → ℕ → ℕ → ℕ → Option (List ℕ × ℕ)
  unfolding live_entries write_entries
  save_to_file self fingerprint now_unix now = elim self.cache [
    | none ↦ none
    | some cache ↦
        let live = live_entries (entries cache) now in
        some
          (write_header magic fingerprint (length live) ++ write_entries now_unix live, length live)
  ]

  -- The `for` loop: the map so far, and the count or the error. What has been inserted before an
  -- error stays.
  unfoldable pub load_loop : ℕ → List ℕ → ℕ → ℕ → State → ℕ → State × Outcome ℕ
  unfolding read_entry load_entry
  load_loop zero r now_unix now cache loaded = (cache, ok loaded)
  load_loop (suc n) r now_unix now cache loaded = elim (read_entry r) [
    | ok (s, r') ↦ elim (load_entry is_utf8 s now_unix now) [
      | ok (some entry) ↦ load_loop n r' now_unix now (insert s.key entry cache) (loaded + 1)
      | ok none ↦ load_loop n r' now_unix now cache loaded
      | reject ↦ (cache, reject)
      | panic ↦ (cache, panic)
      | stuck ↦ (cache, stuck)
    ]
    | reject ↦ (cache, reject)
    | panic ↦ (cache, panic)
    | stuck ↦ (cache, stuck)
  ]

  -- `file` is what the path holds.
  unfoldable pub load_from_file : DnsCache State → List ℕ → ℕ → ℕ → ℕ → DnsCache State × Outcome ℕ
  unfolding load_loop
  load_from_file self file fingerprint now_unix now = elim self.cache [
    | none ↦ (self, ok 0)
    | some cache ↦ elim (read_and_check_header magic fingerprint file) [
      | ok (count, r) ↦
          let (cache', result) = load_loop count r now_unix now cache 0 in
          (record self { cache = some cache' }, result)
      | reject ↦ (self, reject)
      | panic ↦ (self, panic)
      | stuck ↦ (self, stuck)
    ]
  ]
