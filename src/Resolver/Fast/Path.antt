-- ===== src/Resolver/Fast/Path.antt =====
-- What the fast path of src/resolver.rs comes to on any packet.
use pathdns.Base.{
  ℕ, ◌-◌, ◌≤◌, ◌≡◌, ◌⊎◌, inl, inr, List, Bool, true, false, not, ◌&&◌, Option, none, some, Outcome,
  ok, reject, ◌==◌, Returns-cases, Bool-cases, length, refl, arith,
}
use pathdns.Base.Bytes.{IsBytes, u16_at_lem, word16}
use pathdns.Dns.Query.{FastQueryInfo, parse_query_fast}
use pathdns.Dns.Query.Accepts.{IsQuestion, parse_query_fast-IsQuestion}
use pathdns.Dns.Builder.{rcode_reply, notimp_reply, notimp_opcode_reply}
use pathdns.Dns.Builder.Headers.{IsReplyTo, rcode_reply-IsReplyTo}
use pathdns.Cache.Backend.{Store}
use pathdns.Cache.{Entry, DnsCache, CacheProbe, CacheLookupMeta}
use pathdns.Cache.Serve.{IsSound}
use pathdns.Cache.Lookup.{holding}
use pathdns.Cache.Holds.{Holds}
use pathdns.Cache.Fallback.{IsProbed, get_into_with_ecs_fallback-IsProbed}
use pathdns.Resolver.Fast.{
  FastPathOutcome, fast_response, miss, drop_packet, other_opcode, fast_outcome, parsed_fast_path,
  try_fast_path_into,
}

-- The class of the question is IN or ANY.
abbrev pub HasClass : List ℕ → FastQueryInfo → Type 0
HasClass packet info =
    (word16 packet (info.question_end - 2) ≡ 1) ⊎ (word16 packet (info.question_end - 2) ≡ 255)

no_class : (w : ℕ) → (not (w == 1) && not (w == 255)) ≡ true → (w ≡ 1) ⊎ (w ≡ 255) → ⊥
no_class w h (inl e) = ground arith
no_class w h (inr e) = ground arith

a_class : (w : ℕ) → (not (w == 1) && not (w == 255)) ≡ false → (w ≡ 1) ⊎ (w ≡ 255)
a_class w h = elim (Bool-cases (w == 1)) [ inl e ↦ inl (ground arith) | inr e ↦ inr (ground arith) ]

module _ (S : Store ℕ Entry) (P : ℕ → Entry → Type 0) where
  open S use {State}

  -- Answered for its opcode or for its class, or from the cache.
  abbrev pub IsFast : State → List ℕ → Bool → ℕ → FastPathOutcome → Type 0
  IsFast cache packet collecting now (fast_response resp) =
      ((other_opcode packet ≡ true) × (resp ≡ notimp_opcode_reply packet))
      ⊎ ((info : FastQueryInfo) × (parse_query_fast packet ≡ ok info)
          × ((HasClass packet info → ⊥) × IsReplyTo packet info.question_end 4 resp
              ⊎ HasClass packet info
                × ((about : CacheLookupMeta) × (probe : CacheProbe) × IsProbed S P cache packet info
                      collecting now (some (resp, about)) probe)))
  IsFast cache packet collecting now (miss info probe) =
      (parse_query_fast packet ≡ ok info)
      × HasClass packet info
      × IsProbed S P cache packet info collecting now none probe
  IsFast cache packet collecting now drop_packet =
      (other_opcode packet ≡ false) × (parse_query_fast packet ≡ reject)

  notimp-IsReplyTo :
      (packet : List ℕ) (qe : ℕ)
      → IsBytes packet
      → 12 ≤ qe
      → qe ≤ length packet
      → (r : List ℕ) × (notimp_reply packet qe ≡ ok r) × IsReplyTo packet qe 4 r
  unfolding notimp_reply rcode_reply
  notimp-IsReplyTo packet qe b lo hi = rcode_reply-IsReplyTo packet qe 4 b lo hi (omega arith)

  module _ (self : DnsCache State) (sound : (k : ℕ) (e : Entry) → P k e → IsSound e)
      (packet : List ℕ) (bytes : IsBytes packet) (collecting : Bool) (now : ℕ) where
    abbrev Fast : State → Outcome (DnsCache State × FastPathOutcome) → Type 0
    Fast cache call =
        (cache' : State) × (outcome : FastPathOutcome) × (call
          ≡ ok (holding S self cache', outcome))
        × Holds S P cache'
        × IsFast cache packet collecting now outcome

    parsed :
        (cache : State) (info : FastQueryInfo)
        → Holds S P cache
        → parse_query_fast packet ≡ ok info
        → IsQuestion packet info
        → Fast cache (parsed_fast_path S (holding S self cache) packet info collecting now)
    unfolding parsed_fast_path
    parsed cache info all e q =
        let c = u16_at_lem packet (info.question_end - 2) (omega (arith, q.end_at, q.inside)) in
        elim (Bool-cases (
          not (word16 packet (info.question_end - 2) == 1)
          && not (word16 packet (info.question_end - 2) == 255))) [
            | inl other ↦
                let (r, f, i) =
                  notimp-IsReplyTo packet info.question_end bytes (omega (arith, q.end_at))
                    q.inside in
                (
                  cache,
                  fast_response r,
                  rw (c, other, f) refl,
                  all,
                  inr (info, e, inl (no_class _ other, i)),
                )
            | inr class ↦
                let (cache', answer, probe, g, h, a) =
                  get_into_with_ecs_fallback-IsProbed S P self cache packet info collecting now
                    sound all bytes e in
                hit cache' answer probe (rw (parsed_fast_path, c, class, g) refl) h a
                  (a_class _ class)
          ]
      where
        hit :
            (cache' : State) (answer : Option (List ℕ × CacheLookupMeta)) (probe : CacheProbe)
            → parsed_fast_path S (holding S self cache) packet info collecting now
              ≡ ok (holding S self cache', fast_outcome answer info probe)
            → Holds S P cache'
            → IsProbed S P cache packet info collecting now answer probe
            → HasClass packet info
            → Fast cache (parsed_fast_path S (holding S self cache) packet info collecting now)
        hit cache' none probe g h a class = (cache', miss info probe, g, h, (e, class, a))
        hit cache' (some (resp, about)) probe g h a class =
            (cache', fast_response resp, g, h, inr (info, e, inr (class, (about, probe, a))))

  -- In a cache that is on, whose entries all have a property that makes them sound, and for any
  -- packet of bytes, `try_fast_path_into` returns without a panic, and every entry still has the
  -- property. It drops only a packet that is no query with another opcode and that
  -- `parse_query_fast` refuses. It answers a query with another opcode by `notimp_opcode_reply`;
  -- a parsed question of a class other than IN and ANY by a reply with code 4; and others only
  -- from the cache, as `IsProbed` says. It hands on only a parsed packet of class IN or ANY, with
  -- the EDNS properties that `extract_variant` finds in it, its regular key and, if it carries a
  -- client subnet, its key without the subnet; and no entry that the cache held under these keys
  -- matches and has not run out.
  pub try_fast_path_into-IsFast :
      (self : DnsCache State) (cache : State) (packet : List ℕ) (collecting : Bool) (now : ℕ)
      → ((k : ℕ) (e : Entry) → P k e → IsSound e)
      → Holds S P cache
      → IsBytes packet
      → (cache' : State) × (outcome : FastPathOutcome) × (try_fast_path_into S
            (holding S self cache)
            packet
            collecting
            now
          ≡ ok (holding S self cache', outcome))
        × Holds S P cache'
        × IsFast cache packet collecting now outcome
  unfolding try_fast_path_into
  try_fast_path_into-IsFast self cache packet collecting now sound all bytes =
      elim (Bool-cases (other_opcode packet)) [
        | inl o ↦ (cache, fast_response (notimp_opcode_reply packet), rw o refl, all, inl (o, refl))
        | inr o ↦
            elim (Returns-cases _ (parse_query_fast packet)
              (parse_query_fast-IsQuestion packet bytes)) [
                | inr e ↦ (cache, drop_packet, rw (o, e) refl, all, (o, e))
                | inl (info, e, q) ↦
                    rw (try_fast_path_into, o, e)
                      (parsed self sound packet bytes collecting now cache info all e q)
              ]
      ]
