-- ===== src/Resolver/Context.antt =====
-- The query on its way through src/resolver.rs: what `parse_query_fast` has accepted.
use pathdns.Base.{ℕ, ◌+◌, ◌^◌, ◌≤◌, ◌<◌, ◌≡◌, length, ok, Returns-ok, arith}
use pathdns.Base.Bytes.{IsBytes}
use pathdns.Dns.Query.{FastQueryInfo, parse_query_fast}
use pathdns.Dns.Query.Accepts.{IsQuestion, parse_query_fast-IsQuestion}
use pathdns.Dns.Edns.Reply.{LabelsAt-NameAt}
use pathdns.Dns.Ecs.Stripped.{OneQuestion}
use pathdns.Resolver.Exchange.{QueryContext}

-- The packet, at most 65535 bytes by any transport, and the end of its question.
pub record IsQueryContext (ctx : QueryContext) : Type 0 where
  pub fast : FastQueryInfo
  pub bytes : IsBytes ctx.packet
  pub short : length ctx.packet < 2 ^ 16
  pub accepted : parse_query_fast ctx.packet ≡ ok fast
  pub ends : ctx.question_end ≡ fast.question_end

module _ (ctx : QueryContext) (c : IsQueryContext ctx) where
  question : IsQuestion ctx.packet c.fast
  question =
      Returns-ok (IsQuestion ctx.packet) (parse_query_fast ctx.packet) c.fast
        (parse_query_fast-IsQuestion ctx.packet c.bytes) c.accepted

  pub question_from : 12 ≤ ctx.question_end
  question_from = omega (arith, question.end_at, c.ends)

  pub question_to : ctx.question_end ≤ length ctx.packet
  question_to = omega (arith, question.inside, c.ends)

  pub name_end : ℕ
  name_end = 12 + c.fast.qname_wire_hash_end

  pub question_end-name_end : ctx.question_end ≡ name_end + 4
  unfolding name_end
  question_end-name_end = omega (arith, question.end_at, c.ends)

  pub context-OneQuestion : OneQuestion ctx.packet name_end
  unfolding name_end
  context-OneQuestion = record {
    bytes = c.bytes;
    name = LabelsAt-NameAt question.qname;
    count = question.one_question;
    inside = omega (arith, question.end_at, question.inside);
  }
