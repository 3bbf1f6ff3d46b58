-- ===== src/Resolver/Dedupe/Leader.antt =====
-- The end of the query that leads the others of its key: `exchange_with_dedupe` of src/resolver.rs.
use pathdns.Base.{
  ℕ, ◌+◌, ◌-◌, ◌≤◌, ◌<◌, ◌≡◌, ◌⊎◌, inl, inr, List, ◌++◌, map, Bool, Option, none, some, Outcome, ok,
  reject, Returns, ◌==◌, if◌then◌else◌, length, take, drop, length-take, length-drop, get_or-take,
  get_or-drop, ◌∙◌, refl, arith,
}
use pathdns.Base.Bytes.{IsBytes, byte, slice_lem}
use pathdns.Base.Splice.{splice, length-splice, byte-splice_at, byte-splice_apart}
use pathdns.Dns.Builder.{rcode_reply, servfail_reply}
use pathdns.Dns.Builder.Headers.{IsReplyTo, rcode_reply-IsReplyTo}
use pathdns.Cache.Backend.{Store}
use pathdns.Cache.{Entry, DnsCache}
use pathdns.Singleflight.{
  Delivery, bytes, no_reply, InflightTable, complete, publish_bytes, publish_drop,
}
use pathdns.Singleflight.Shards.{in_flight, waiting, complete-in_flight}
use pathdns.Router.{Server, RouteTarget}
use pathdns.Resolver.Context.{IsQueryContext, question_from, question_to}
use pathdns.Resolver.Steps.{IsWholeStep}
use pathdns.Resolver.Exchange.{QueryContext}
use pathdns.Resolver.Filters.{StepOutcome, response, drop_query}
use pathdns.Resolver.Dedupe.{QueryInfo, restore_question, lead}
use pathdns.Resolver.Dedupe.Stored.{HasBound, SoundCache, IsStored, store_response-IsStored}

-- The key is free, and each follower that waits under it gets the delivery.
abbrev pub HasEnded : InflightTable → ℕ → InflightTable → Delivery → Type 0
HasEnded table key table' d =
    ((j : ℕ) → in_flight table' j ≡ (if key == j then none else in_flight table j))
    × (table'.log ≡ table.log ++ map (λ tx. (tx, d)) (waiting table key))

-- Followers get what the leader answers.
abbrev pub IsPublished : Delivery → Option (List ℕ) → Type 0
IsPublished d none = d ≡ no_reply
IsPublished d (some out) = d ≡ bytes out

-- The response with the client's spelling of the question.
abbrev pub IsRestored : QueryContext → List ℕ → List ℕ → Type 0
IsRestored ctx resp out =
    (length out ≡ length resp)
    × ((j : ℕ) → 12 ≤ j → j < ctx.question_end → byte out j ≡ byte ctx.packet j)
    × ((j : ℕ) → (j < 12) ⊎ (ctx.question_end ≤ j) → byte out j ≡ byte resp j)

abbrev pub IsLed : QueryContext → Outcome StepOutcome → Option (List ℕ) → Type 0
IsLed ctx (ok (response resp winner forwarded)) answer =
    (out : List ℕ) × (answer ≡ some out) × IsRestored ctx resp out
IsLed ctx (ok drop_query) answer = answer ≡ none
IsLed ctx reject answer =
    (out : List ℕ) × (answer ≡ some out) × IsReplyTo ctx.packet ctx.question_end 2 out
IsLed ctx Outcome.panic answer = ⊥
IsLed ctx Outcome.stuck answer = ⊥

ended :
    (table : InflightTable) (key : ℕ) (d : Delivery) → HasEnded table key (complete table key d) d
ended table key d =
    (λ j. (complete-in_flight table key j d).0, (complete-in_flight table key key d).1)

servfail_reply-IsReplyTo :
    (ctx : QueryContext)
    → IsBytes ctx.packet
    → 12 ≤ ctx.question_end
    → ctx.question_end ≤ length ctx.packet
    → (r : List ℕ) × (servfail_reply ctx.packet ctx.question_end ≡ ok r)
      × IsReplyTo ctx.packet ctx.question_end 2 r
unfolding servfail_reply rcode_reply
servfail_reply-IsReplyTo ctx b from to =
    rcode_reply-IsReplyTo ctx.packet ctx.question_end 2 b from to (omega arith)

restore_question-IsRestored :
    (ctx : QueryContext) (resp : List ℕ)
    → 12 ≤ ctx.question_end
    → ctx.question_end ≤ length ctx.packet
    → ctx.question_end ≤ length resp
    → (out : List ℕ) × (restore_question resp ctx ≡ ok out) × IsRestored ctx resp out
unfolding restore_question byte
restore_question-IsRestored ctx resp from to long =
    let question : List ℕ = take (ctx.question_end - 12) (drop 12 ctx.packet) in
    let size : length question ≡ ctx.question_end - 12 = omega (
      arith,
      length-take (ctx.question_end - 12) (drop 12 ctx.packet),
      length-drop 12 ctx.packet,
    ) in
    let fits : 12 + length question ≤ length resp = omega arith in
    (
      splice resp 12 question,
      rw
          (
            slice_lem ctx.packet 12 ctx.question_end from to,
            slice_lem resp 12 ctx.question_end from long,
          )
          refl,
      (
        length-splice resp 12 question fits,
        λ j a b.
            byte-splice_at resp 12 question fits (j - 12) j (omega arith) (omega arith)
            ∙ get_or-take (ctx.question_end - 12) (drop 12 ctx.packet) (j - 12) 0 (omega arith)
            ∙ get_or-drop 12 ctx.packet (j - 12) j 0 (omega arith),
        λ j away. byte-splice_apart resp 12 j question fits (beyond j size away),
      ),
    )
  where
    beyond :
        {n : ℕ} (j : ℕ)
        → n ≡ ctx.question_end - 12
        → (j < 12) ⊎ (ctx.question_end ≤ j)
        → (j < 12) ⊎ (12 + n ≤ j)
    beyond j e (inl h) = inl h
    beyond j e (inr h) = inr (omega arith)

module _ (Pool : Type 0) (S : Store ℕ Entry) where
  open S use {State}

  -- Take a query of bytes, shorter than 2^16, that `parse_query_fast` accepts, any target, with
  -- or without the client subnet stripped, lower TTL bounds below 2^32, a cache whose entries are
  -- all sound, and the result of an exchange: an error, silence, or a response of bytes, shorter
  -- than 2^32, that reaches to the end of the question. `lead` returns without a panic. It
  -- answers the response with the client's spelling of the question, silence, or a SERVFAIL in
  -- reply to the query. Each follower that waits under the key is sent just that, and the key is
  -- free. All entries of the cache are sound, and it is as before if the target skips the cache,
  -- it is off or a reload came.
  pub lead-IsLed :
      (cache : DnsCache State) (table : InflightTable) (ctx : QueryContext) (info : QueryInfo)
      (target : RouteTarget Pool) (servers : List (Server Pool)) (ck sf_ck : ℕ) (unchanged : Bool)
      (now : ℕ) (result : Outcome StepOutcome)
      → IsQueryContext ctx
      → HasBound Pool cache target
      → SoundCache Pool S cache
      → Returns (IsWholeStep ctx) result
      → (after : DnsCache State) × (table' : InflightTable) × (d : Delivery) × (answer : Option
          (List ℕ))
        × (lead Pool S cache table ctx info target servers ck sf_ck unchanged now result
            ≡ ok (after, table', ok answer))
        × IsStored Pool S cache target unchanged after
        × HasEnded table sf_ck table' d
        × IsPublished d answer
        × IsLed ctx result answer
  unfolding lead publish_bytes publish_drop
  lead-IsLed cache table ctx info target servers ck sf_ck unchanged now
        (ok (response resp winner forwarded)) c bound all (rb, long, short) =
      let (after, e, s) =
        store_response-IsStored Pool S cache ctx c info target servers ck unchanged now bound all
          resp winner forwarded rb short in
      let (out, f, r) =
        restore_question-IsRestored ctx resp (question_from ctx c) (question_to ctx c) long in
      (
        after,
        complete table sf_ck (bytes out),
        bytes out,
        some out,
        rw (e, f) refl,
        s,
        ended table sf_ck (bytes out),
        refl,
        (out, refl, r),
      )
  lead-IsLed cache table ctx info target servers ck sf_ck unchanged now (ok drop_query) c bound all
        w =
      (
        cache,
        complete table sf_ck no_reply,
        no_reply,
        none,
        refl,
        (all, λ h. refl),
        ended table sf_ck no_reply,
        refl,
        refl,
      )
  lead-IsLed cache table ctx info target servers ck sf_ck unchanged now reject c bound all w =
      let (out, e, i) =
        servfail_reply-IsReplyTo ctx c.bytes (question_from ctx c) (question_to ctx c) in
      (
        cache,
        complete table sf_ck (bytes out),
        bytes out,
        some out,
        rw e refl,
        (all, λ h. refl),
        ended table sf_ck (bytes out),
        refl,
        (out, refl, i),
      )
  lead-IsLed cache table ctx info target servers ck sf_ck unchanged now Outcome.panic c bound all
        w =
      absurd w
  lead-IsLed cache table ctx info target servers ck sf_ck unchanged now Outcome.stuck c bound all
        w =
      absurd w
