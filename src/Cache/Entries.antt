-- ===== src/Cache/Entries.antt =====
-- The entries of the response cache, src/cache.rs: when one matches a query, what is sent for one, and
-- the one that a response makes.
use pathdns.Base.{
  ℕ, ◌-◌, ◌/◌, ◌^◌, List, Bool, true, false, not, ◌&&◌, ◌||◌, Option, none, some, Outcome, ok,
  let_else, ◌>>=◌, leb, ltb, ◌==◌, if◌then◌else◌, length,
}
use pathdns.Base.Bytes.{slice}
use pathdns.Base.Splice.{splice}
use pathdns.Dns.Header.{set_id, is_truncated}
use pathdns.Dns.Question.{eq_bytes, questions_match}
use pathdns.Dns.Ttl.{TtlOffsets, effective_ttl_and_offsets, patch_ttls_at}
use pathdns.Dns.Variant.{QueryVariant, EcsSrc}

pub record Entry : Type 0 where
  pub packet : List ℕ
  pub query : List ℕ
  pub qname : List ℕ
  pub question_end : ℕ
  pub variant : QueryVariant
  pub inserted : ℕ
  pub ttl : ℕ
  pub ttl_offsets : TtlOffsets
  pub rule_id : ℕ

pub record CacheLookupMeta : Type 0 where
  pub qname : Option (List ℕ)
  pub rule_id : ℕ

pub record KeyedLookup : Type 0 where
  pub key : ℕ
  pub query : List ℕ
  pub question_end : ℕ
  pub client_id : ℕ
  pub strip_ecs : Bool
  pub variant : QueryVariant
  pub collect_qname : Bool

pub record CacheProbe : Type 0 where
  pub variant : QueryVariant
  pub regular_key : ℕ
  pub stripped_key : Option ℕ

pub record ResolvedCachePolicy : Type 0 where
  pub skip : Bool
  pub nodata_ttl : ℕ
  pub min_ttl : ℕ
  pub max_ttl : ℕ

-- `RuleCachePolicy` of src/config/mod.rs.
pub record RuleCachePolicy : Type 0 where
  pub skip : Bool
  pub min_ttl : Option ℕ
  pub max_ttl : Option ℕ

pub record CacheInsert : Type 0 where
  pub key : ℕ
  pub qname : List ℕ
  pub question_end : ℕ
  pub query : List ℕ
  pub variant : QueryVariant
  pub packet : List ℕ

abbrev pub eq_bool : Bool → Bool → Bool
eq_bool true b = b
eq_bool false b = not b

abbrev pub eq_ecs : Option EcsSrc → Option EcsSrc → Bool
eq_ecs none none = true
eq_ecs none (some b) = false
eq_ecs (some a) none = false
eq_ecs (some a) (some b) = eq_bytes a.addr b.addr && a.prefix_len == b.prefix_len

-- The fields that a strip-mode entry compares, and `==` of variants.
unfoldable pub eq_flags : QueryVariant → QueryVariant → Bool
eq_flags a b =
    eq_bool a.has_opt b.has_opt
    && eq_bool a.do_bit b.do_bit
    && a.edns_version == b.edns_version
    && eq_bool a.rd b.rd
    && eq_bool a.ad b.ad
    && eq_bool a.cd b.cd

unfoldable pub eq_variant : QueryVariant → QueryVariant → Bool
unfolding eq_flags
eq_variant a b =
    eq_flags a b && eq_ecs a.ecs_src b.ecs_src && a.extra_opts_hash == b.extra_opts_hash

unfoldable pub queries_match_v :
    QueryVariant → QueryVariant → ℕ → List ℕ → List ℕ → ℕ → Bool → Outcome Bool
unfolding eq_variant
queries_match_v stored_v live_v stored_question_end stored query question_end strip_ecs =
    if ltb (length query) question_end
      || not (stored_question_end == question_end)
      || ltb (length query) 12
      || ltb (length stored) 12
    then ok false
    else (do
      a ← slice stored 12 question_end
      b ← slice query 12 question_end
      same ← questions_match a b
      if not same
          then ok false
          else ok (if strip_ecs then eq_flags stored_v live_v else eq_variant stored_v live_v))

abbrev pub second : ℕ
second = 10 ^ 9

-- `now.saturating_duration_since(inserted).as_secs()`.
abbrev pub age_at : ℕ → ℕ → ℕ
age_at now inserted = (now - inserted) / second

-- `out[12..question_end].copy_from_slice(question)`, if `out` reaches so far.
abbrev pub copy_question : List ℕ → ℕ → List ℕ → List ℕ
copy_question out question_end question =
    if leb question_end (length out) then splice out 12 question else out

-- The packet of an entry as it is sent to a client.
unfoldable pub serve : Entry → KeyedLookup → List ℕ → ℕ → Outcome (List ℕ)
serve entry request question elapsed = do
  out ← let_else (set_id entry.packet request.client_id) (ok entry.packet) ok
  ok (patch_ttls_at (copy_question out request.question_end question) entry.ttl_offsets elapsed)

pub record DnsCache (State : Type 0) : Type 0 where
  pub cache : Option State
  pub min_ttl : ℕ
  pub max_ttl : ℕ

abbrev pub unwrap_or : Option ℕ → ℕ → ℕ
unwrap_or none d = d
unwrap_or (some a) d = a

-- What a rule without a policy stands for, field by field.
abbrev pub policy_skip : Option RuleCachePolicy → Bool
policy_skip none = false
policy_skip (some p) = p.skip

abbrev pub policy_min_ttl : Option RuleCachePolicy → Option ℕ
policy_min_ttl none = none
policy_min_ttl (some p) = p.min_ttl

abbrev pub policy_max_ttl : Option RuleCachePolicy → Option ℕ
policy_max_ttl none = none
policy_max_ttl (some p) = p.max_ttl

unfoldable pub resolve_policy :
    {State : Type 0} → DnsCache State → Option RuleCachePolicy → ResolvedCachePolicy
resolve_policy self policy = record {
  skip = policy_skip policy;
  nodata_ttl = 0;
  min_ttl = unwrap_or (policy_min_ttl policy) self.min_ttl;
  max_ttl = unwrap_or (policy_max_ttl policy) self.max_ttl;
}

-- The entry that `add` makes of a response, `none` for one that is not cached.
unfoldable pub entry_of : CacheInsert → ResolvedCachePolicy → ℕ → ℕ → Outcome (Option Entry)
entry_of ins policy rule_id now =
    if is_truncated ins.packet
    then ok none
    else let_else
        (effective_ttl_and_offsets ins.packet ins.question_end policy.nodata_ttl policy.min_ttl
          policy.max_ttl)
        (ok none)
        λ r. do
          packet ← let_else (set_id ins.packet 0) (ok ins.packet) ok
          ok (
              some (record {
                packet = packet;
                query = ins.query;
                qname = ins.qname;
                question_end = ins.question_end;
                variant = ins.variant;
                inserted = now;
                ttl = r.0;
                ttl_offsets = r.1;
                rule_id = rule_id;
              }))
