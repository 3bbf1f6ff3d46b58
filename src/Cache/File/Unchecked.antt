-- ===== src/Cache/File/Unchecked.antt =====
-- What `load_from_file` of src/cache.rs leaves unchecked: the length of a stored query against the
-- stored question.
use pathdns.Base.{
  ℕ, ◌+◌, ◌-◌, ◌≤◌, ◌<◌, ◌≡◌, List, length, Bool, true, false, ◌==◌, some, ok, panic, leb, ltb,
  refl, arith,
}
use pathdns.Base.Bytes.{IsBytes, slice, slice_lem}
use pathdns.Dns.Variant.{QueryVariant}
use pathdns.Dns.Variant.Total.{extract_variant_total}
use pathdns.Cache.Backend.{Store}
use pathdns.Cache.{Entry, DnsCache, KeyedLookup, queries_match_v, lookup_entry, lookup_into_keyed}
use pathdns.Cache.Lookup.{holding}
use pathdns.Cache.File.{Stored, re_anchor, load_entry}

slice_short : (p : List ℕ) (a b : ℕ) → length p < b → slice p a b ≡ panic
unfolding slice
slice_short p a b h = ground arith

-- The entry that is made of what was read.
abbrev pub loaded : Stored → QueryVariant → ℕ → ℕ → Entry
loaded s variant now_unix now =
    let (inserted, ttl) = re_anchor s.raw_ttl (s.expire_unix - now_unix) now in
    record {
      packet = s.packet;
      query = s.query;
      qname = s.qname_bytes;
      question_end = 12 + length s.question;
      variant = variant;
      inserted = inserted;
      ttl = ttl;
      ttl_offsets = s.offsets;
      rule_id = s.entry_rule_id;
    }

module _ (S : Store ℕ Entry) where
  open S use {State, get}

  short_query_panics :
      (self : DnsCache State) (cache : State) (request : KeyedLookup) (e : Entry) (now : ℕ)
      → get request.key cache ≡ some e
      → e.question_end ≡ request.question_end
      → 12 ≤ length e.query
      → length e.query < e.question_end
      → request.question_end ≤ length request.query
      → lookup_into_keyed S (holding S self cache) request now ≡ panic
  unfolding lookup_into_keyed lookup_entry queries_match_v
  short_query_panics self cache request e now g same from short reach =
      let a : ltb request.question_end 12 ≡ false = ground arith in
      let b : ltb (length request.query) request.question_end ≡ false = ground arith in
      let c : (e.question_end == request.question_end) ≡ true = ground arith in
      let d : ltb (length request.query) 12 ≡ false = ground arith in
      let f : ltb (length e.query) 12 ≡ false = ground arith in
      let s = slice_lem request.query 12 request.question_end (omega arith) reach in
      let t = slice_short e.query 12 request.question_end (omega arith) in
      rw (lookup_into_keyed, a, b, s, g, lookup_entry, queries_match_v, b, c, d, f, t) refl

  -- Take a stored entry before its deadline, with a name that is text and a query of bytes that
  -- has a whole header but ends before the stored question would. `load_entry` accepts it; and in
  -- any cache that holds the entry made of it under a request's key, a lookup with a question of
  -- the same length panics.
  pub load_entry-lookup_panics :
      (is_utf8 : List ℕ → Bool) (s : Stored) (now_unix now : ℕ)
      → now_unix < s.expire_unix
      → is_utf8 s.qname_bytes ≡ true
      → IsBytes s.query
      → 12 ≤ length s.query
      → length s.query < 12 + length s.question
      → (e : Entry) × (load_entry is_utf8 s now_unix now ≡ ok (some e))
        × ((self : DnsCache State) (cache : State) (request : KeyedLookup) (later : ℕ)
            → get request.key cache ≡ some e
            → request.question_end ≡ 12 + length s.question
            → request.question_end ≤ length request.query
            → lookup_into_keyed S (holding S self cache) request later ≡ panic)
  unfolding load_entry
  load_entry-lookup_panics is_utf8 s now_unix now fresh utf b from short =
      let live : leb s.expire_unix now_unix ≡ false = ground arith in
      let (v, e) = extract_variant_total s.query (12 + length s.question) b in
      (
        loaded s v now_unix now,
        rw (live, utf, e) refl,
        λ self cache request later g q reach.
            short_query_panics self cache request (loaded s v now_unix now) later g (omega arith)
              from short reach,
      )
