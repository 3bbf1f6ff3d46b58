-- ===== src/Cache/Add.antt =====
-- What `add` puts in the response cache (src/cache.rs).
use pathdns.Base.{
  ℕ, ◌^◌, ◌≤◌, ◌<◌, ◌≡◌, ◌∙◌, length, set, length-set, All, All-mono, Option, none, some, ok,
  Returns-cases, Bool-cases, inl, inr, refl, arith,
}
use pathdns.Base.Bytes.{IsBytes, word32, word32-lt}
use pathdns.Dns.Header.{is_truncated, set_id}
use pathdns.Dns.Ttl.{TtlOffsets, effective_ttl_and_offsets}
use pathdns.Dns.Ttl.Effective.{IsResult, Cached, effective-IsResult, clamp-lt}
use pathdns.Cache.{Entry, CacheInsert, ResolvedCachePolicy, entry_of}
use pathdns.Cache.Serve.{IsSound, set_id_lem}

-- What a caller hands to `add`: a response of bytes and the query that it answers.
pub record IsInsert (ins : CacheInsert) (policy : ResolvedCachePolicy) : Type 0 where
  pub question_from : 12 ≤ ins.question_end
  pub question_to : ins.question_end ≤ length ins.query
  pub bytes : IsBytes ins.packet
  pub short : length ins.packet < 2 ^ 32
  pub min_ttl : policy.min_ttl < 2 ^ 32

abbrev pub IsSoundOption : Option Entry → Type 0
IsSoundOption none = Unit
IsSoundOption (some e) = IsSound e

module _ (ins : CacheInsert) (policy : ResolvedCachePolicy) (rule_id now : ℕ)
    (i : IsInsert ins policy) where
  cached-small :
      (r : ℕ × TtlOffsets)
      → IsResult ins.question_end ins.packet policy.min_ttl policy.max_ttl r
      → All (λ o. o.1 < 2 ^ 32) r.1
  cached-small r (inl (_, c)) =
      All-mono _ _ r.1
        (λ o e. rw e (
          clamp-lt policy.min_ttl policy.max_ttl (word32 ins.packet o.0) (2 ^ 32) i.min_ttl
            (word32-lt ins.packet o.0 i.bytes)))
        c.times
  cached-small r (inr (_, le, _, c)) = All-mono _ _ r.1 (λ o e. omega (arith, i.min_ttl)) c.times

  -- The entry that is made, when one is.
  abbrev entry_with : ℕ × TtlOffsets → Entry
  entry_with r = record {
    packet = set (set ins.packet 0 0) 1 0;
    query = ins.query;
    qname = ins.qname;
    question_end = ins.question_end;
    variant = ins.variant;
    inserted = now;
    ttl = r.0;
    ttl_offsets = r.1;
    rule_id = rule_id;
  }

  length-with_id : length (set (set ins.packet 0 0) 1 0) ≡ length ins.packet
  length-with_id = length-set (set ins.packet 0 0) 1 0 ∙ length-set ins.packet 0 0

  Cached-IsSound :
      (r : ℕ × TtlOffsets) (f : ℕ → ℕ)
      → Cached ins.question_end ins.packet policy.min_ttl policy.max_ttl f r.1
      → All (λ o. o.1 < 2 ^ 32) r.1
      → IsSound (entry_with r)
  Cached-IsSound r f c small = record {
    question_from = i.question_from;
    question_to = i.question_to;
    packet_to = omega (arith, length-with_id, c.passed);
    behind = c.behind;
    fits = All-mono _ _ r.1 (λ o h. omega (arith, length-with_id)) c.fits;
    spaced = c.spaced;
    small = small;
  }

  IsResult-IsSound :
      (r : ℕ × TtlOffsets)
      → IsResult ins.question_end ins.packet policy.min_ttl policy.max_ttl r
      → IsSound (entry_with r) × (2 ≤ length ins.packet)
  IsResult-IsSound r (inl (a, c)) =
      (Cached-IsSound r _ c (cached-small r (inl (a, c))), omega (arith, c.passed, i.question_from))
  IsResult-IsSound r (inr (a, b, d, c)) = (
    Cached-IsSound r _ c (cached-small r (inr (a, b, d, c))),
    omega (arith, c.passed, i.question_from),
  )

  -- The entry of a response is sound, where there is one.
  pub entry_of-IsSound :
      (o : Option Entry) × (entry_of ins policy rule_id now ≡ ok o) × IsSoundOption o
  unfolding entry_of
  entry_of-IsSound = elim (Bool-cases (is_truncated ins.packet)) [
    | inl t ↦ (none, rw t refl, tt)
    | inr t ↦
        elim (Returns-cases (IsResult ins.question_end ins.packet policy.min_ttl policy.max_ttl)
          (effective_ttl_and_offsets ins.packet ins.question_end policy.nodata_ttl policy.min_ttl
            policy.max_ttl)
          (effective-IsResult ins.packet ins.question_end policy.nodata_ttl policy.min_ttl
            policy.max_ttl i.bytes i.short)) [
              | inr e ↦ (none, rw (t, e) refl, tt)
              | inl (r, e, h) ↦
                  let (sound, long) = IsResult-IsSound r h in
                  let written : set_id ins.packet 0 ≡ ok (set (set ins.packet 0 0) 1 0) =
                    set_id_lem ins.packet 0 long in
                  (some (entry_with r), rw (t, e, written) refl, sound)
            ]
  ]
