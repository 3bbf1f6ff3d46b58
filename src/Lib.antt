-- ===== src/Lib.antt =====
-- Verification of pathdns, a forwarding DNS server.
--
-- A packet comes in, is parsed (src/dns/query.rs) and hashed (src/hasher.rs), is looked up in the
-- cache (src/cache.rs) with its TTLs patched (src/dns/ttl.rs), joins a query of the same key that is already on
-- its way (src/singleflight.rs), or goes to an upstream under an id of its own
-- (src/upstream/inflight.rs). The response is read (src/dns/mod.rs, src/dns/ttl.rs) and tested
-- against sets of addresses (src/iprange.rs, src/ruleset.rs) by the filters of a rule
-- (src/response_filter.rs). src/resolver.rs calls these parts in order. The rule comes from the route
-- index (src/route_index.rs), which matches names against patterns (src/domain.rs), or the fallback is
-- taken (src/router.rs). The caches are saved
-- to files and loaded again (src/cache.rs, src/verdict_cache.rs, src/persist.rs). Some replies are made here (src/dns/builder.rs), a
-- reply over UDP is truncated to the client's size (src/dns/mod.rs), and what happened goes into
-- the query log (src/querylog/ring.rs).
--
-- Which file models which part:
--   Base            bytes of packets, outcomes of calls, lists and masks
--   Hasher          `Fnv1a` and `write_qname_wire`
--   Dns.Name        `skip_name`, `question_end`
--   Dns.Header      the predicates on the header
--   Dns.Rr          `parse_rr`, `answer_ips`, `answer_rr_types`, `extract_answer_records`
--   Dns.Query       `skip_query_question`, `question_tail`, `parse_query_fast`
--   Dns.Ttl         `ttl_offsets_and_soa`, `effective_ttl_and_offsets`, `patch_ttls_at`
--   Dns.Edns        `find_opt_record`, `client_udp_payload_size`, `maybe_truncate_for_udp`
--   Dns.Builder     `ResponseBuilder` and the replies made with it
--   IpRange         `IpRangeSetBuilder::build`, `IpRangeSet::contains`
--   EventRing       `EventRing`
--   StatsRing       `StatsRing` (src/querylog/ring.rs)
--   QpsRing         `QpsRing` of the same file
--   Singleflight    `InflightTable`
--   Dns.Question    `questions_match`
--   Inflight        `InflightRegistry`, `InflightGuard` (src/upstream/inflight.rs)
--   Dns.Variant     `extract_variant`: the EDNS properties of a query
--   Dns.Ecs         `locate_opt`, `strip_edns_ecs`, `inject_or_replace_ecs` (src/dns/ecs.rs)
--   Cache           `DnsCache`; Cache.Key its keys, Cache.File its file, Cache.Backend the map
--   Persist         the fields of a file (src/persist.rs)
--   Verdict         `VerdictCache`
--   Domain          `normalize_domain`, `classify_pattern`, `DomainMatcher`
--   Ruleset         `RuleSetDb` once it is loaded
--   ResponseFilter  `ResponseFilter::matches`, `first_match`
--   Route           `RouteIndex` and `TagMemo`; Route.Linear the scan that it is compared with
--   Router          `RouteTarget`, `classify_target`, and `resolve_fallback` of src/server.rs
--   Resolver        `RuleAttribution`; Resolver.Fast `try_fast_path_into`, Resolver.Exchange `race`,
--                   `do_upstream_exchange` and what they call, Resolver.Filters `resolve_with_filters`,
--                   Resolver.Dedupe the followers of `exchange_with_dedupe` and what the leader does
--                   with a result, Resolver.Leader the leader from its key to its end,
--                   Resolver.Verdicts two queries with the test of addresses,
--                   Resolver.Select the target of `resolve_query`
--   Tests           runs on concrete packets
-- A function keeps its Rust name, a struct its fields. The child modules of a part hold its theorems.
--
-- How the code is read:
--   A packet is a list of numbers, below 256 where a theorem says `IsBytes`. A call returns an
--   `Outcome`: `ok`, `reject` for `None` or an `Err`, `panic` for an index out of bounds (the build
--   aborts on a panic), and `stuck` for a loop that is out of fuel. `at` is an index and `get` the
--   method; a read that stands behind a length test is `byte`. `Returns P r` says that `r` is
--   neither `panic` nor `stuck`, and that a value that it returns satisfies `P`.
--   A loop over a packet moves forward at each turn, so the packet's length and one is fuel enough;
--   the theorems with `Returns` show it, since they exclude `stuck`. A loop over a counted section
--   recurses on the count.
--   Casts to narrower integers and wrapping arithmetic are written out with `%`. An offset in a
--   packet, a usize, is taken not to overflow.
--   `sort_unstable` is an insertion sort, `partition_point` counts the leading items that pass.
--   A shared table is passed from one call to the next, so an interleaving of threads is a sequence
--   of calls. The methods of `InflightTable` and of the rings hold one lock for all they do. Those of
--   `InflightRegistry` lock one shard, and take permits, ids and tokens by atomic operations of their
--   own; the model takes such a call as one step. The shards are a function from numbers to
--   association lists, and a channel is a number with a log of what was sent on it.
--   The map of the package quick_cache is the record `Store`, an argument of the caches: an insertion
--   may evict any entry, the new one included, a read changes nothing. An `Instant` is a number of
--   nanoseconds since the start of the machine. `std::str::from_utf8` and the regular expressions of
--   the package regex are arguments. A text is its characters as numbers; a name in a cache is its
--   bytes.
--
--   What an upstream pool answers to a packet, which of two futures is done first, and whether the
--   configuration was reloaded in between are arguments of the resolver's functions; a deadline that
--   passes is an answer `reject`. `usize::MAX` is that of 64 bits, and the id of a tag wraps at 16 bits.
--
-- Not modelled: sockets, io_uring, TLS, QUIC and HTTP, the asynchronous tasks of the resolver and the
-- upstreams with their permits, the configuration, the reader of rule files, the netlink sets, and
-- the broadcast of the query log to its viewers. The name filter of the query log is a parameter.
pub mod Base
pub mod Hasher
pub mod Dns
pub mod IpRange
pub mod EventRing
pub mod StatsRing
pub mod QpsRing
pub mod Singleflight
pub mod Inflight
pub mod Persist
pub mod Verdict
pub mod Domain
pub mod Ruleset
pub mod ResponseFilter
pub mod Route
pub mod Router
pub mod Resolver
pub mod Cache
mod Tests
